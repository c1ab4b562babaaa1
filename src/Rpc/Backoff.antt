-- ===== src/Rpc/Backoff.antt =====
-- rpc/blocks.go, GetBackoffDurationForAttempts, and the longest wait that GetBlockResultWithRetry and
-- GetLatestBlockHeightWithRetry compute. Durations are int64 numbers of nanoseconds.
use cosmos_indexer.Prelude.{
  ℕ, ◌-◌, ◌*◌, ◌%◌, ◌^◌, ◌≤◌, ◌≡◌, refl, Bool, true, false, ◌||◌, ltb, leb, if◌then◌else◌, arith,
}
use cosmos_indexer.Prelude.Int.{ℤ, pos, negsuc, neg_part, ltb_ℤ, leb_ℤ}

abbrev pub second : ℕ
second = 1000000000

-- The int64 with a 64-bit pattern.
unfoldable pub signed64 : ℕ → ℤ
signed64 n = if ltb n (2 ^ 63) then pos n else negsuc (2 ^ 64 - n - 1)

-- time.Duration(retryMaxWaitSeconds) * time.Second, on 64 bits, and the guards around it.
unfoldable pub max_retry_time : ℕ → ℤ
unfolding signed64
max_retry_time seconds =
    let seconds' = if ltb seconds 2 then 2 else seconds in
    let wait = signed64 (seconds' * second % 2 ^ 64) in
    if ltb_ℤ wait (pos 0) then pos (30 * second) else wait

-- `raw n` is the int64 duration of 1.5 to the n seconds, computed in floating point.
unfoldable pub get_backoff_duration : (ℕ → ℤ) → ℕ → ℤ → ℤ × Bool
get_backoff_duration raw attempts max =
    if ltb_ℤ max (raw attempts) || ltb_ℤ (raw attempts) (pos 0)
    then (max, true)
    else (raw attempts, false)

-- The longest wait: the configured seconds, but at least two, as nanoseconds on 64 bits, and thirty seconds where
-- those are a negative number.
abbrev pub longest_wait : ℕ → ℤ
longest_wait seconds =
    let n = (if leb seconds 2 then 2 else seconds) * 1000000000 % 18446744073709551616 in
    if leb 9223372036854775808 n then pos 30000000000 else pos n

pub max_retry_time-longest_wait : (seconds : ℕ) → max_retry_time seconds ≡ longest_wait seconds
unfolding max_retry_time
max_retry_time-longest_wait seconds = ground arith

-- Up to 9223372036 seconds the longest wait is the configured one, and at least two seconds.
pub max_retry_time-exact :
    (seconds : ℕ)
    → 2 ≤ seconds
    → seconds ≤ 9223372036
    → max_retry_time seconds ≡ pos (seconds * second)
unfolding max_retry_time
max_retry_time-exact seconds lo hi = ground arith

-- The longest wait is never negative, whatever the multiplication overflows to.
pub max_retry_time_nonneg : (seconds : ℕ) → neg_part (max_retry_time seconds) ≡ 0
unfolding max_retry_time
max_retry_time_nonneg seconds = ground arith

-- A wait is neither negative nor longer than a longest wait that is not negative.
pub get_backoff_duration_bounds :
    (raw : ℕ → ℤ) (n : ℕ) (max : ℤ)
    → neg_part max ≡ 0
    → (leb_ℤ (get_backoff_duration raw n max).0 max ≡ true)
      × (neg_part (get_backoff_duration raw n max).0 ≡ 0)
unfolding get_backoff_duration
get_backoff_duration_bounds raw n max h = ground arith

-- 2^55 seconds overflow to a longest wait of zero, which the guard against overflow lets pass.
max_retry_time_zero : max_retry_time (2 ^ 55) ≡ pos 0
unfolding max_retry_time
max_retry_time_zero = refl
