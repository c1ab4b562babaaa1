-- ===== src/Repository/BlockTime.antt =====
-- pkg/repository/blocks.go: blockTime after its query, and calculateMedian. A time is a number of nanoseconds. A
-- `float64` that is a whole number of halves is the integer of its halves; the sum of two durations in seconds is far
-- from the bounds of an `int64`, and from where a `float64` gets inexact.
pub mod Median
use cosmos_indexer.Prelude.{
  ℕ, suc, ◌-◌, ◌+◌, ◌/◌, ◌%◌, ◌^◌, ◌*◌, Bool, List, [], ◌∷◌, ◌++◌, Option, none, some,
  if◌then◌else◌, ltb, leb, ◌==◌, length, get_elem?,
}
use cosmos_indexer.Prelude.Int.{ℤ, pos, negsuc, ◌+ℤ◌, leb_ℤ}

-- prev.Sub(t).Seconds(), made an `int64`: rounded towards zero.
unfoldable pub seconds_between : ℕ → ℕ → ℤ
seconds_between prev t =
    if leb t prev
    then pos ((prev - t) / 10 ^ 9)
    else (let n = (t - prev) / 10 ^ 9 in if n == 0 then pos 0 else negsuc (n - 1))

-- The loop over the rows: the time of the row before it, if any, and the times so far.
unfoldable pub times_loop : Option ℕ → List ℕ → List ℤ → List ℤ
unfolding seconds_between
times_loop prev [] times = times
times_loop none (t ∷ rows) times = times_loop (some t) rows times
times_loop (some prev) (t ∷ rows) times =
    times_loop (some t) rows (times ++ seconds_between prev t ∷ [])

-- sort.Slice with `<`.
unfoldable pub insert_time : ℤ → List ℤ → List ℤ
insert_time a [] = a ∷ []
insert_time a (x ∷ xs) = if leb_ℤ a x then a ∷ x ∷ xs else x ∷ insert_time a xs

unfoldable pub sort_times : List ℤ → List ℤ
unfolding insert_time
sort_times [] = []
sort_times (x ∷ xs) = insert_time x (sort_times xs)

-- times[i], where i is below the length.
abbrev pub at : List ℤ → ℕ → ℤ
at times i = elim (get_elem? times i) [ some t ↦ t | none ↦ pos 0 ]

-- The median, in halves.
unfoldable pub calculate_median : List ℤ → ℤ
unfolding sort_times
calculate_median times =
    let sorted = sort_times times in
    let n = length times in
    if n == 0
    then pos 0
    else if n % 2 == 1
    then at sorted (n / 2) +ℤ at sorted (n / 2)
    else at sorted (n / 2 - 1) +ℤ at sorted (n / 2)

-- `rows` are the times of the newest hundred blocks, newest first.
unfoldable pub block_time : List ℕ → ℤ
unfolding times_loop calculate_median
block_time rows = calculate_median (times_loop none rows [])
