-- ===== src/Repository/BlockTime/Median.antt =====
-- pkg/repository/blocks.go, blockTime: what the median is.
use cosmos_indexer.Prelude.{
  ◌^◌, leb, if◌then◌else◌, ℕ, zero, suc, ◌-◌, ◌+◌, ◌/◌, ◌%◌, ◌*◌, ◌≤◌, ◌<◌, ◌≡◌, refl, ap, sym, ◌∙◌,
  Bool, true, false, List, [], ◌∷◌, ◌++◌, some, ◌==◌, length, select, All, All-map, arith,
  Bool-cases, inl, inr,
}
use mathlib.Core.Path.{subst}
use mathlib.Core.List.{append-nil, append_assoc}
use cosmos_indexer.Prelude.Int.{ℤ, pos, sub_ℕ, ◌+ℤ◌, leb_ℤ}
use cosmos_indexer.Repository.BlockTime.{
  seconds_between, times_loop, insert_time, sort_times, at, calculate_median, block_time,
}

leb_ℤ-refl : (a : ℤ) → leb_ℤ a a ≡ true
leb_ℤ-refl a = ground arith

leb_ℤ-trans : (a b c : ℤ) → leb_ℤ a b ≡ true → leb_ℤ b c ≡ true → leb_ℤ a c ≡ true
leb_ℤ-trans a b c p q = ground arith

leb_ℤ-flip : (a b : ℤ) → leb_ℤ a b ≡ false → leb_ℤ b a ≡ true
leb_ℤ-flip a b p = ground arith

-- How many of the times pass a test.
abbrev pub count : (ℤ → Bool) → List ℤ → ℕ
count p times = length (select p times)

count-insert_time :
    (p : ℤ → Bool) (a : ℤ) (xs : List ℤ) → count p (insert_time a xs) ≡ count p (a ∷ xs)
unfolding insert_time
count-insert_time p a [] = refl
count-insert_time p a (x ∷ xs) = ground (arith, count-insert_time p a xs)

count-sort_times : (p : ℤ → Bool) (xs : List ℤ) → count p (sort_times xs) ≡ count p xs
unfolding sort_times
count-sort_times p [] = refl
count-sort_times p (x ∷ xs) =
    count-insert_time p x (sort_times xs) ∙ ground (arith, count-sort_times p xs)

abbrev Sorted : List ℤ → Type 0
Sorted [] = Unit {0}
Sorted (x ∷ xs) = All (λ y. leb_ℤ x y ≡ true) xs × Sorted xs

All-insert_time : (P : ℤ → Type 0) (a : ℤ) (xs : List ℤ) → P a → All P xs → All P (insert_time a xs)
unfolding insert_time
All-insert_time P a [] p h = (p, tt)
All-insert_time P a (x ∷ xs) p (q, h) = elim (Bool-cases (leb_ℤ a x)) [
  | inl e ↦ rw e (p, (q, h))
  | inr e ↦ rw e (q, All-insert_time P a xs p h)
]

insert_time-Sorted : (a : ℤ) (xs : List ℤ) → Sorted xs → Sorted (insert_time a xs)
unfolding insert_time
insert_time-Sorted a [] h = (tt, tt)
insert_time-Sorted a (x ∷ xs) (above, h) = elim (Bool-cases (leb_ℤ a x)) [
  | inl e ↦ rw e ((e, All-map _ _ xs (λ y p. leb_ℤ-trans a x y e p) above), (above, h))
  | inr e ↦ rw e (
    All-insert_time (λ y. leb_ℤ x y ≡ true) a xs (leb_ℤ-flip a x e) above,
    insert_time-Sorted a xs h,
  )
]

sort_times-Sorted : (xs : List ℤ) → Sorted (sort_times xs)
unfolding sort_times
sort_times-Sorted [] = tt
sort_times-Sorted (x ∷ xs) = insert_time-Sorted x (sort_times xs) (sort_times-Sorted xs)

All-at : (P : ℤ → Type 0) (xs : List ℤ) (i : ℕ) → i < length xs → All P xs → P (at xs i)
All-at P [] i l h = absurd (omega arith)
All-at P (x ∷ xs) zero l (p, h) = p
All-at P (x ∷ xs) (suc i) l (p, h) = All-at P xs i (omega arith) h

count_all : (p : ℤ → Bool) (xs : List ℤ) → All (λ y. p y ≡ true) xs → count p xs ≡ length xs
count_all p [] h = refl
count_all p (x ∷ xs) (q, h) = ground (arith, count_all p xs h)

module _ (p : ℤ → Bool) where
  -- As many as its place says are at most the element of a sorted list at the place, and the rest at least.
  count_below :
      (xs : List ℤ) (i : ℕ)
      → Sorted xs
      → i < length xs
      → ((t : ℤ) → leb_ℤ t (at xs i) ≡ true → p t ≡ true)
      → i < count p xs
  count_below [] i s l h = absurd (omega arith)
  count_below (x ∷ xs) zero s l h = let first : p x ≡ true = h x (leb_ℤ-refl x) in ground arith
  count_below (x ∷ xs) (suc i) (above, s) l h =
      let rest : i < count p xs = count_below xs i s (omega arith) h in
      let first : p x ≡ true = h x (All-at (λ y. leb_ℤ x y ≡ true) xs i (omega arith) above) in
      ground arith

  count_above :
      (xs : List ℤ) (i : ℕ)
      → Sorted xs
      → i < length xs
      → ((t : ℤ) → leb_ℤ (at xs i) t ≡ true → p t ≡ true)
      → length xs ≤ count p xs + i
  count_above [] i s l h = absurd (omega arith)
  count_above (x ∷ xs) zero (above, s) l h =
      let first : p x ≡ true = h x (leb_ℤ-refl x) in
      ground (arith, count_all p xs (All-map _ _ xs (λ y q. h y q) above))
  count_above (x ∷ xs) (suc i) (above, s) l h =
      let rest : length xs ≤ count p xs + i = count_above xs i s (omega arith) h in ground arith

length-insert_time : (a : ℤ) (xs : List ℤ) → length (insert_time a xs) ≡ suc (length xs)
unfolding insert_time
length-insert_time a [] = refl
length-insert_time a (x ∷ xs) = ground (arith, length-insert_time a xs)

length-sort_times : (xs : List ℤ) → length (sort_times xs) ≡ length xs
unfolding sort_times
length-sort_times [] = refl
length-sort_times (x ∷ xs) =
    length-insert_time x (sort_times xs) ∙ ap (λ n. suc n) (length-sort_times xs)

-- `low` and `high` are in the middle: at least half of the times are at most `low`, and more than half at least it;
-- more than half are at most `high`, and at least half at least it.
abbrev pub Middle : ℤ → ℤ → List ℤ → Type 0
Middle low high times =
    (length times ≤ 2 * count (λ t. leb_ℤ t low) times)
    × (length times < 2 * count (λ t. leb_ℤ low t) times)
    × (length times < 2 * count (λ t. leb_ℤ t high) times)
    × (length times ≤ 2 * count (λ t. leb_ℤ high t) times)

-- The sum of the two in the middle, and 0 where there is none.
abbrev pub IsMedian : ℤ → List ℤ → Type 0
IsMedian m [] = m ≡ pos 0
IsMedian m (t ∷ ts) = (low : ℤ) × (high : ℤ) × (m ≡ low +ℤ high) × Middle low high (t ∷ ts)

module _ (times : List ℤ) (i : ℕ) (inside : i < length times) where
  sorted_below : i < count (λ t. leb_ℤ t (at (sort_times times) i)) times
  sorted_below =
      subst (λ k. i < k) (count-sort_times (λ t. leb_ℤ t (at (sort_times times) i)) times)
        (count_below (λ t. leb_ℤ t (at (sort_times times) i)) (sort_times times) i
          (sort_times-Sorted times) (omega (arith, length-sort_times times)) (λ t p. p))

  sorted_above : length times ≤ count (λ t. leb_ℤ (at (sort_times times) i) t) times + i
  sorted_above =
      let above : length (sort_times times)
          ≤ count (λ t. leb_ℤ (at (sort_times times) i) t) (sort_times times) + i =
        count_above (λ t. leb_ℤ (at (sort_times times) i) t) (sort_times times) i
          (sort_times-Sorted times) (omega (arith, length-sort_times times)) (λ t p. p) in
      omega (
        arith,
        above,
        length-sort_times times,
        count-sort_times (λ t. leb_ℤ (at (sort_times times) i) t) times,
      )

-- The elements of the sorted times at places about the middle.
sorted-Middle :
    (times : List ℤ) (i j : ℕ)
    → i < length times
    → j < length times
    → length times ≤ 2 * suc i
    → 2 * i < length times
    → length times < 2 * suc j
    → 2 * j ≤ length times
    → Middle (at (sort_times times) i) (at (sort_times times) j) times
sorted-Middle times i j li lj h k p q = (
  omega (arith, sorted_below times i li),
  omega (arith, sorted_above times i li),
  omega (arith, sorted_below times j lj),
  omega (arith, sorted_above times j lj),
)

calculate_median-IsMedian : (times : List ℤ) → IsMedian (calculate_median times) times
unfolding calculate_median
calculate_median-IsMedian [] = refl
calculate_median-IsMedian (t ∷ ts) =
    let times : List ℤ = t ∷ ts in
    let n = length times in
    let some_times : length times == 0 ≡ false = ground arith in
    elim (Bool-cases (n % 2 == 1)) [
      | inl odd ↦
          rw (some_times, odd)
            (
              at (sort_times times) (n / 2),
              at (sort_times times) (n / 2),
              refl,
              sorted-Middle times (n / 2) (n / 2) (ground arith) (ground arith) (ground arith)
                  (ground arith) (ground arith) (ground arith),
            )
      | inr even ↦
          rw (some_times, even)
            (
              at (sort_times times) (n / 2 - 1),
              at (sort_times times) (n / 2),
              refl,
              sorted-Middle times (n / 2 - 1) (n / 2) (ground arith) (ground arith) (ground arith)
                  (ground arith) (ground arith) (ground arith),
            )
    ]

-- The seconds between each block and the one before it.
abbrev pub seconds : ℕ → ℕ → ℤ
seconds newer older =
    if leb older newer then pos ((newer - older) / 10 ^ 9) else sub_ℕ 0 ((older - newer) / 10 ^ 9)

seconds_between-eq : (newer older : ℕ) → seconds_between newer older ≡ seconds newer older
unfolding seconds_between
seconds_between-eq newer older = ground arith

abbrev pub gaps : List ℕ → List ℤ
gaps [] = []
gaps (t ∷ []) = []
gaps (t ∷ u ∷ rows) = seconds t u ∷ gaps (u ∷ rows)

times_loop-gaps :
    (prev : ℕ) (rows : List ℕ) (times : List ℤ)
    → times_loop (some prev) rows times ≡ times ++ gaps (prev ∷ rows)
unfolding times_loop
times_loop-gaps prev [] times = sym (append-nil times)
times_loop-gaps prev (t ∷ rows) times =
    times_loop-gaps t rows (times ++ seconds_between prev t ∷ [])
    ∙ append_assoc times (seconds_between prev t ∷ []) (gaps (t ∷ rows))
    ∙ ap (λ x. times ++ x ∷ gaps (t ∷ rows)) (seconds_between-eq prev t)

-- The block time, in halves of a second, is the median of the seconds between each of the blocks and the one before
-- it: the sum of the two in the middle, and 0 where there is none.
pub block_time-IsMedian : (rows : List ℕ) → IsMedian (block_time rows) (gaps rows)
unfolding block_time times_loop
block_time-IsMedian [] = calculate_median-IsMedian []
block_time-IsMedian (t ∷ rows) =
    subst (λ times. IsMedian (calculate_median times) (gaps (t ∷ rows)))
      (sym (times_loop-gaps t rows [])) (calculate_median-IsMedian (gaps (t ∷ rows)))
