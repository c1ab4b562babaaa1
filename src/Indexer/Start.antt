-- ===== src/Indexer/Start.antt =====
-- cmd/index.go, GetIndexerStartingHeight. The command itself passes the configured first block on, and does
-- not call it.
use cosmos_indexer.Prelude.{
  ℕ, zero, suc, ◌+◌, ◌≤◌, ◌<◌, ◌≡◌, refl, ap, sym, ◌∙◌, Bool, true, false, List, [], ◌∷◌, map,
  Option, none, some, if◌then◌else◌, select, elem, ltb, ◌==◌, ◌&&◌, leb, arith, inl, inr, ◌⊎◌,
  Option-cases, Bool-cases,
}
use mathlib.Core.Path.{subst}
use cosmos_indexer.Prelude.Int.{ℤ, pos, negsuc, ltb_ℤ, leb_ℤ, eqb_ℤ, minus_one}
use cosmos_indexer.Models.{Block}
use cosmos_indexer.Config.{IndexBase}
use cosmos_indexer.Database.Queries.{
  is_indexed, highest, get_highest_indexed_block, height_indexed, next, series_length,
  first_missing, get_first_missing_block_in_range,
}

-- `latest` is the node's answer, 0 where the request fails.
unfoldable pub get_indexer_starting_height : IndexBase → ℕ → ℕ → List Block → ℤ
unfolding get_highest_indexed_block get_first_missing_block_in_range
get_indexer_starting_height cfg chain latest rows =
    let top = (get_highest_indexed_block chain rows).height in
    if eqb_ℤ cfg.start_block minus_one && ltb top latest
    then pos (suc top)
    else (if cfg.re_index
        then cfg.start_block
        else get_first_missing_block_in_range chain rows cfg.start_block
            (if eqb_ℤ cfg.end_block minus_one then pos top else cfg.end_block))

-- No indexed block is above the highest.
highest_upper :
    (h : ℕ) (bs : List Block)
    → elem h (map (λ b. b.height) bs) ≡ true
    → (b : Block) × (highest bs ≡ some b) × (h ≤ b.height)
unfolding highest
highest_upper h [] e = ground arith
highest_upper h (c ∷ bs) e = elim (Option-cases (highest bs)) [
  | inl q ↦ (
    c,
    rw (highest, q) refl,
    elim (Bool-cases (h == c.height)) [
      | inl p ↦ ground arith
      | inr p ↦ let (b, found, le) = highest_upper h bs (ground arith) in no_row (sym q ∙ found)
    ],
  )
  | inr (d, q) ↦ elim (Bool-cases (leb d.height c.height)) [
    | inl l ↦ (
      c,
      rw (highest, q, l) refl,
      elim (Bool-cases (h == c.height)) [
        | inl p ↦ ground arith
        | inr p ↦
            let (b, found, le) = highest_upper h bs (ground arith) in
            let same = some_height b d (sym found ∙ q) in ground arith
      ],
    )
    | inr l ↦ (
      d,
      rw (highest, q, l) refl,
      elim (Bool-cases (h == c.height)) [
        | inl p ↦ ground arith
        | inr p ↦
            let (b, found, le) = highest_upper h bs (ground arith) in
            let same = some_height b d (sym found ∙ q) in ground arith
      ],
    )
  ]
]
  where
    no_row : {A C : Type 0} {x : A} → none ≡ some x → C
    no_row q = cc

    some_height : (x y : Block) → some x ≡ some y → x.height ≡ y.height
    some_height x y q = ap (λ o. elim o [ none ↦ 0 | some z ↦ z.height ]) q

height_indexed_upper :
    (chain h : ℕ) (rows : List Block)
    → height_indexed chain rows (pos h) ≡ true
    → h ≤ (get_highest_indexed_block chain rows).height
unfolding height_indexed get_highest_indexed_block
height_indexed_upper chain h rows e =
    let (b, found, le) = highest_upper h (select (is_indexed chain) rows) e in
    rw (get_highest_indexed_block, found) le

-- Where a search over n heights from s ends.
Found : (ℤ → Bool) → ℕ → ℕ → Option ℤ → Type 0
Found known n s none = (h : ℕ) → s ≤ h → h < s + n → known (pos h) ≡ true
Found known n s (some i) =
    (r : ℕ) × (i ≡ pos r)
    × (s ≤ r)
    × (r < s + n)
    × (known (pos r) ≡ false)
    × ((h : ℕ) → s ≤ h → h < r → known (pos h) ≡ true)

known_at : (known : ℤ → Bool) {a b : ℕ} → a ≡ b → known (pos b) ≡ true → known (pos a) ≡ true
known_at known p e = ap (λ x. known (pos x)) p ∙ e

Found-step :
    (known : ℤ → Bool) (n s : ℕ) (o : Option ℤ)
    → known (pos s) ≡ true
    → Found known n (suc s) o
    → Found known (suc n) s o
unfolding Found
Found-step known n s none e f = λ h p q. elim (Bool-cases (h == s)) [
  | inl same ↦ known_at known (ground arith) e
  | inr other ↦ f h (ground arith) (omega arith)
]
Found-step known n s (some i) e (r, at, ge, lt, missing, before) = (
  r,
  at,
  omega arith,
  omega arith,
  missing,
  λ h p q. elim (Bool-cases (h == s)) [
    | inl same ↦ known_at known (ground arith) e
    | inr other ↦ before h (ground arith) q
  ],
)

first_missing-Found : (known : ℤ → Bool) (n s : ℕ) → Found known n s (first_missing known n (pos s))
unfolding Found first_missing next
first_missing-Found known zero s = λ h p q. absurd (omega arith)
first_missing-Found known (suc n) s = elim (Bool-cases (known (pos s))) [
  | inl e ↦ rw e (Found-step known n s _ e (first_missing-Found known n (suc s)))
  | inr e ↦ rw e (s, refl, omega arith, omega arith, e, λ h p q. absurd (omega arith))
]

-- The first height from s to last that is not indexed, and no earlier one is missing; or s, where all
-- of them are indexed.
abbrev pub FirstMissing : ℕ → List Block → ℕ → ℤ → ℤ → Type 0
FirstMissing chain rows s last i =
    (r : ℕ) × (i ≡ pos r)
    × (s ≤ r)
    × ((h : ℕ) → s ≤ h → h < r → height_indexed chain rows (pos h) ≡ true)
    × ((height_indexed chain rows (pos r) ≡ false)
        ⊎ ((r ≡ s)
            × ((h : ℕ)
                → s ≤ h
                → leb_ℤ (pos h) last ≡ true
                → height_indexed chain rows (pos h) ≡ true)))

series_length_covers :
    (s h : ℕ) (last : ℤ) → s ≤ h → leb_ℤ (pos h) last ≡ true → h < s + series_length (pos s) last
unfolding series_length
series_length_covers s h (pos b) p q = ground arith
series_length_covers s h (negsuc b) p q = ground arith

Found-FirstMissing :
    (chain s : ℕ) (rows : List Block) (last : ℤ) (o : Option ℤ)
    → Found (height_indexed chain rows) (series_length (pos s) last) s o
    → FirstMissing chain rows s last (elim o [ none ↦ pos s | some i ↦ i ])
unfolding Found
Found-FirstMissing chain s rows last none f = (
  s,
  refl,
  omega arith,
  λ h p q. absurd (omega arith),
  inr (refl, λ h p q. f h p (series_length_covers s h last p q)),
)
Found-FirstMissing chain s rows last (some i) (r, at, ge, lt, missing, before) =
    (r, at, ge, before, inl missing)

get_first_missing_block_in_range-FirstMissing :
    (chain s : ℕ) (rows : List Block) (last : ℤ)
    → FirstMissing chain rows s last (get_first_missing_block_in_range chain rows (pos s) last)
unfolding get_first_missing_block_in_range
get_first_missing_block_in_range-FirstMissing chain s rows last =
    let top = (get_highest_indexed_block chain rows).height in
    let search = λ (l : ℤ).
      Found-FirstMissing chain s rows l _
        (first_missing-Found (height_indexed chain rows) (series_length (pos s) l) s) in
    elim (Bool-cases (ltb_ℤ (pos s) (pos top))) [
      | inl e ↦
          rw (get_first_missing_block_in_range, e)
            (past_top top refl (ground arith) (search (pos (suc top))))
      | inr e ↦ rw (get_first_missing_block_in_range, e) (search last)
    ]
  where
    past_top :
        (top : ℕ)
        → top ≡ (get_highest_indexed_block chain rows).height
        → s < top
        → {i : ℤ} → FirstMissing chain rows s (pos (suc top)) i
        → FirstMissing chain rows s last i
    past_top top same above (r, at, ge, before, inl missing) = (r, at, ge, before, inl missing)
    past_top top same above (r, at, ge, before, inr (first, all)) =
        let high =
          height_indexed_upper chain (suc top) rows (all (suc top) (omega arith) (ground arith)) in
        absurd (omega arith)

-- The height that stands for no last block, -1, is the highest indexed height.
abbrev pub last_height : IndexBase → ℕ → List Block → ℤ
last_height cfg chain rows =
    if eqb_ℤ cfg.end_block minus_one
    then pos (get_highest_indexed_block chain rows).height
    else cfg.end_block

-- Where the configured first block s is not negative and blocks are not indexed again: every height from s
-- to before the starting height is indexed, and the starting height itself is not, unless it is s and
-- every height from s to the last block is indexed.
pub get_indexer_starting_height-FirstMissing :
    (cfg : IndexBase) (chain latest s : ℕ) (rows : List Block)
    → cfg.start_block ≡ pos s
    → cfg.re_index ≡ false
    → FirstMissing chain rows s
        (last_height cfg chain rows)
        (get_indexer_starting_height cfg chain latest rows)
unfolding get_indexer_starting_height
get_indexer_starting_height-FirstMissing cfg chain latest s rows e n =
    subst (FirstMissing chain rows s (last_height cfg chain rows)) (sym configured)
      (get_first_missing_block_in_range-FirstMissing chain s rows (last_height cfg chain rows))
  where
    bounded : eqb_ℤ cfg.start_block minus_one ≡ false
    bounded = ap (λ z. eqb_ℤ z minus_one) e ∙ ground arith

    configured :
        get_indexer_starting_height cfg chain latest rows
        ≡ get_first_missing_block_in_range chain rows (pos s) (last_height cfg chain rows)
    configured = rw (get_indexer_starting_height, bounded, n, e) refl

first_missing-below_zero :
    (known : ℤ → Bool) (n : ℕ)
    → known minus_one ≡ false
    → elim (first_missing known n minus_one) [ none ↦ minus_one | some i ↦ i ] ≡ minus_one
unfolding first_missing
first_missing-below_zero known zero e = refl
first_missing-below_zero known (suc n) e = rw e refl

-- Where the configured first block is -1: the starting height is the one after the highest indexed block,
-- if the node has one, and -1 if not, whether blocks are indexed again or not.
pub get_indexer_starting_height-resumes :
    (cfg : IndexBase) (chain latest : ℕ) (rows : List Block)
    → cfg.start_block ≡ minus_one
    → get_indexer_starting_height cfg chain latest rows ≡ (
        let top = (get_highest_indexed_block chain rows).height in
        if ltb top latest then pos (suc top) else minus_one)
unfolding get_indexer_starting_height get_first_missing_block_in_range height_indexed
get_indexer_starting_height-resumes cfg chain latest rows e =
    elim (Bool-cases (ltb (get_highest_indexed_block chain rows).height latest)) [
      | inl l ↦ rw (get_indexer_starting_height, e, l) refl
      | inr l ↦ elim (Bool-cases cfg.re_index) [
        | inl r ↦ rw (get_indexer_starting_height, e, l, r) refl
        | inr r ↦
            rw (get_indexer_starting_height, e, l, r)
              (first_missing-below_zero (height_indexed chain rows) _ refl)
      ]
    ]
