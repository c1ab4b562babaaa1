-- ===== src/Indexer/Chunks.antt =====
-- cmd/index.go, calculateGoroutines, and the loop of runIndexerAsFetcher that gives each goroutine its
-- range of blocks. Heights are not negative, and the last block is not below the first, as `index`
-- checks before.
use cosmos_indexer.Prelude.{
  ℕ, zero, suc, ◌+◌, ◌-◌, ◌*◌, ◌/◌, ◌≤◌, ◌<◌, ◌≡◌, refl, ap, sym, List, [], ◌∷◌, leb, if◌then◌else◌,
  arith, length, All, inl, inr, ◌⊎◌, Bool-cases, leb→le, leb→gt,
}
use mathlib.Core.Path.{subst}
use native.Mathlib.Nat.{le_refl}

-- The loop over the goroutines, with the blocks that are left.
chunks : ℕ → ℕ → ℕ → List ℕ
chunks steps zero total_blocks = []
chunks steps (suc n) total_blocks =
    if leb steps total_blocks
    then steps ∷ chunks steps n (total_blocks - steps)
    else total_blocks ∷ chunks steps n total_blocks

-- The source divides by `steps` and panics on 0, and on a negative number of goroutines.
unfoldable pub calculate_goroutines : ℕ → ℕ → ℕ → ℕ × List ℕ
unfolding chunks
calculate_goroutines start_block end_block steps =
    let total_blocks = end_block + 1 - start_block in
    let num_goroutines = (total_blocks + steps - 1) / steps in
    (num_goroutines, chunks steps num_goroutines total_blocks)

-- The first and the last block that a goroutine is given.
pub record Range : Type 0 where
  pub first : ℕ
  pub last : ℕ

ranges_from : ℕ → List ℕ → List Range
ranges_from counter [] = []
ranges_from counter (n ∷ ns) =
    record { first = counter; last = counter + n } ∷ ranges_from (counter + n) ns

unfoldable pub fetcher_ranges : ℕ → ℕ → ℕ → List Range
unfolding calculate_goroutines ranges_from
fetcher_ranges start_block end_block steps =
    ranges_from start_block (calculate_goroutines start_block end_block steps).1

abbrev pub sum : List ℕ → ℕ
sum [] = 0
sum (n ∷ ns) = n + sum ns

-- `n` chunks are the right number for `total` blocks.
abbrev Fits : ℕ → ℕ → ℕ → Type 0
Fits steps n total = (total ≤ n * steps) × (n * steps < total + steps)

Fits-div : (steps total : ℕ) → 1 ≤ steps → Fits steps ((total + steps - 1) / steps) total
Fits-div steps total p = grind arith

Fits-suc :
    (steps n total : ℕ)
    → 1 ≤ steps
    → Fits steps (suc n) total
    → steps ≤ total
    → Fits steps n (total - steps)
Fits-suc steps n total p f le = grind arith

Fits-last :
    (steps n total : ℕ)
    → 1 ≤ steps
    → Fits steps (suc n) total
    → total < steps
    → (n ≡ 0) × (1 ≤ total)
Fits-last steps zero total p f lt = (refl, omega (arith, f.1))
Fits-last steps (suc n) total p f lt = absurd (grind arith)

pub record IsPartition (steps n total : ℕ) (ns : List ℕ) : Type 0 where
  pub adds_up : sum ns ≡ total
  pub sized : All (λ c. (1 ≤ c) × (c ≤ steps)) ns
  pub counted : length ns ≡ n

chunks-IsPartition :
    (steps n total : ℕ)
    → 1 ≤ steps
    → Fits steps n total
    → IsPartition steps n total (chunks steps n total)
unfolding chunks
chunks-IsPartition steps zero total p f = record {
  adds_up = omega (arith, f.0);
  sized = tt;
  counted = refl;
}
chunks-IsPartition steps (suc n) total p f = elim (Bool-cases (leb steps total)) [
  | inl e ↦
      let le = leb→le steps total e in
      let ih = chunks-IsPartition steps n (total - steps) p (Fits-suc steps n total p f le) in
      rw e (record {
        adds_up = omega (arith, ih.adds_up);
        sized = ((p, le_refl steps), ih.sized);
        counted = ap suc ih.counted;
      })
  | inr e ↦
      let lt = leb→gt steps total e in
      let (last, some_left) = Fits-last steps n total p f lt in
      rw (e, last)
        (record { adds_up = omega arith; sized = ((some_left, omega arith), tt); counted = refl })
]

-- With a step of at least 1, and a first block at most one after the last, the blocks from the first to
-- the last are shared out: as many chunks as goroutines, each of 1 to `steps` blocks, that add up to the
-- number of blocks.
pub calculate_goroutines-IsPartition :
    (start_block end_block steps : ℕ)
    → 1 ≤ steps
    → start_block ≤ end_block + 1
    → let r = calculate_goroutines start_block end_block steps in
      IsPartition steps r.0 (end_block + 1 - start_block) r.1
unfolding calculate_goroutines
calculate_goroutines-IsPartition start_block end_block steps p _ =
    chunks-IsPartition steps _ (end_block + 1 - start_block) p
      (Fits-div steps (end_block + 1 - start_block) p)

-- Consecutive ranges from `first` up to `last`: each begins with the block that the one before ends
-- with.
abbrev pub Seams : ℕ → ℕ → List Range → Type 0
Seams first last [] = first ≡ last
Seams first last (r ∷ rs) = (r.first ≡ first) × Seams r.last last rs

ranges_from-Seams :
    (counter : ℕ) (ns : List ℕ) → Seams counter (counter + sum ns) (ranges_from counter ns)
unfolding ranges_from
ranges_from-Seams counter [] = omega arith
ranges_from-Seams counter (n ∷ ns) =
    let total : counter + (n + sum ns) ≡ counter + n + sum ns = omega arith in
    (refl, rw total (ranges_from-Seams (counter + n) ns))

-- The ranges of the fetcher, whose last blocks are included, follow on from one another by the block
-- that ends one and begins the next, so that this block is in both; and the last range ends one block
-- after the configured last block.
pub fetcher_ranges-Seams :
    (start_block end_block steps : ℕ)
    → 1 ≤ steps
    → start_block ≤ end_block
    → Seams start_block (end_block + 1) (fetcher_ranges start_block end_block steps)
unfolding fetcher_ranges
fetcher_ranges-Seams start_block end_block steps p le =
    let parts = calculate_goroutines-IsPartition start_block end_block steps p (omega arith) in
    let top : end_block + 1
        ≡ start_block + sum (calculate_goroutines start_block end_block steps).1 =
      omega (arith, parts.adds_up) in
    subst (λ k. Seams start_block k (fetcher_ranges start_block end_block steps)) (sym top)
      (ranges_from-Seams start_block _)

abbrev pub Covers : ℕ → List Range → Type 0
Covers h [] = ⊥
Covers h (r ∷ rs) = ((r.first ≤ h) × (h ≤ r.last)) ⊎ Covers h rs

Seams-Covers :
    (first last h : ℕ) (rs : List Range) → Seams first last rs → first ≤ h → h < last → Covers h rs
Seams-Covers first last h [] s lo hi = absurd (omega arith)
Seams-Covers first last h (r ∷ rs) s lo hi = elim (Bool-cases (leb h r.last)) [
  | inl e ↦ inl (omega (arith, s.0), leb→le h r.last e)
  | inr e ↦ inr (Seams-Covers r.last last h rs s.1 (omega (arith, leb→gt h r.last e)) hi)
]

-- Every block from the first to the last is in the range of some goroutine.
pub fetcher_ranges-Covers :
    (start_block end_block steps h : ℕ)
    → 1 ≤ steps
    → start_block ≤ h
    → h ≤ end_block
    → Covers h (fetcher_ranges start_block end_block steps)
fetcher_ranges-Covers start_block end_block steps h p lo hi =
    Seams-Covers start_block (end_block + 1) h _
      (fetcher_ranges-Seams start_block end_block steps p (omega arith)) lo (omega arith)
