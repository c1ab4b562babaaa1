-- ===== src/Rpc/Retry.antt =====
-- rpc/blocks.go, GetBlockResultWithRetry; clients/chain_rpc.go, GetLatestBlockHeightWithRetry: the
-- same loop over two queries. `answer i` is what call number i, from 0, returns; `none` is an error.
use cosmos_indexer.Prelude.{
  ℕ, zero, suc, ◌+◌, ◌≤◌, ◌<◌, ◌≡◌, refl, ap, ◌∙◌, Bool, true, false, not, ◌||◌, List, [], ◌∷◌,
  ◌++◌, Option, none, some, if◌then◌else◌, arith, length, length-append, All, All-append,
}
use mathlib.Core.Path.{subst}
use cosmos_indexer.Prelude.Int.{ℤ, pos, neg_part, ltb_ℤ, leb_ℤ, eqb_ℤ}
use cosmos_indexer.Rpc.Backoff.{
  max_retry_time, max_retry_time_nonneg, longest_wait, max_retry_time-longest_wait,
  get_backoff_duration, get_backoff_duration_bounds,
}

pub record Loop : Type 0 where
  pub attempts : ℕ
  pub backoff : ℤ
  pub max_reached : Bool
  pub waits : List ℤ  -- history: the sleeps so far

pub record Outcome (A : Type 0) : Type 0 where
  pub response : Option A
  pub calls : ℕ
  pub waits : List ℤ

module _ {A : Type 0} (answer : ℕ → Option A) (raw : ℕ → ℤ) (max_attempts max : ℤ) where
  -- err != nil && (retryMaxAttempts < 0 || attempts <= retryMaxAttempts), attempts being counted up
  abbrev pub again : ℕ → Bool
  again attempts = ltb_ℤ max_attempts (pos 0) || leb_ℤ (pos attempts) max_attempts

  unfoldable pub sleep : Loop → Loop
  sleep s =
      let t = record s { attempts = s.attempts + 1; waits = s.waits ++ s.backoff ∷ [] } in
      if not s.max_reached
      then (let next = get_backoff_duration raw (s.attempts + 1) max in
          record t { backoff = next.0; max_reached = next.1 })
      else t

  -- `none`: the fuel ran out.
  unfoldable pub retry_loop : ℕ → Loop → Option (Outcome A)
  unfolding sleep
  retry_loop zero s = none
  retry_loop (suc fuel) s = elim (answer s.attempts) [
    | some a ↦ some (record { response = some a; calls = s.attempts + 1; waits = s.waits })
    | none ↦ elim (again (s.attempts + 1)) [
      | true ↦ retry_loop fuel (sleep s)
      | false ↦ some (record { response = none; calls = s.attempts + 1; waits = s.waits })
    ]
  ]

-- The whole function. With no retries configured the query is made once.
unfoldable pub with_retry : {A : Type 0} → (ℕ → Option A) → (ℕ → ℤ) → ℤ → ℕ → ℕ → Option (Outcome A)
unfolding retry_loop
with_retry answer raw max_attempts max_wait_seconds fuel =
    if eqb_ℤ max_attempts (pos 0)
    then some (record { response = answer 0; calls = 1; waits = [] })
    else (let max = max_retry_time max_wait_seconds in
        let first = get_backoff_duration raw 0 max in
        retry_loop answer raw max_attempts max fuel
          (record { attempts = 0; backoff = first.0; max_reached = first.1; waits = [] }))

module _ {A : Type 0} (answer : ℕ → Option A) (raw : ℕ → ℤ) (max_attempts max : ℤ)
    (sane : neg_part max ≡ 0) where
  -- A wait between 0 and the longest.
  abbrev pub Bounded : ℤ → Type 0
  Bounded w = (leb_ℤ w max ≡ true) × (neg_part w ≡ 0)

  record Sound (s : Loop) : Type 0 where
    next : Bounded s.backoff
    past : All Bounded s.waits
    counted : length s.waits ≡ s.attempts

  sleep-Sound : (s : Loop) → Sound s → Sound (sleep answer raw max_attempts max s)
  unfolding sleep
  sleep-Sound s v = record {
    next = ground (arith, get_backoff_duration_bounds raw (s.attempts + 1) max sane, v.next);
    past = ground (arith, All-append Bounded s.waits (s.backoff ∷ []) v.past (v.next, tt));
    counted = ground (arith, length-append s.waits (s.backoff ∷ []), v.counted);
  }

  sleep-attempts : (s : Loop) → (sleep answer raw max_attempts max s).attempts ≡ s.attempts + 1
  unfolding sleep
  sleep-attempts s = ground arith

  -- Failures up to call `k`, and then a success within the limit.
  loop_success :
      (k fuel : ℕ) (s : Loop) (a : A)
      → Sound s
      → ((i : ℕ) → i < k → answer (s.attempts + i) ≡ none)
      → answer (s.attempts + k) ≡ some a
      → again answer raw max_attempts max (s.attempts + k) ≡ true
      → k < fuel
      → (o : Outcome A) × (retry_loop answer raw max_attempts max fuel s ≡ some o)
        × (o.response ≡ some a)
        × (o.calls ≡ s.attempts + k + 1)
        × (length o.waits ≡ s.attempts + k)
        × All Bounded o.waits
  unfolding retry_loop
  loop_success k zero s a v fails good within lt = absurd (omega arith)
  loop_success zero (suc fuel) s a v fails good within lt =
      let here : answer s.attempts ≡ some a = ap answer (omega arith) ∙ good in
      (
        record { response = some a; calls = s.attempts + 1; waits = s.waits },
        rw (here, retry_loop),
        refl,
        omega arith,
        omega (arith, v.counted),
        v.past,
      )
  loop_success (suc k) (suc fuel) s a v fails good within lt =
      let here : answer s.attempts ≡ none = ap answer (omega arith) ∙ fails 0 (omega arith) in
      let t = sleep answer raw max_attempts max s in
      let on : again answer raw max_attempts max (s.attempts + 1) ≡ true = ground arith in
      let (o, run, found, calls, slept, bounded) =
        loop_success k fuel t a (sleep-Sound s v)
          (λ i i_lt. ap answer (omega (arith, sleep-attempts s)) ∙ fails (suc i) (omega arith))
          (ap answer (omega (arith, sleep-attempts s)) ∙ good) (ground (arith, sleep-attempts s))
          (omega arith) in
      (
        o,
        rw (here, retry_loop, on) run,
        found,
        omega (arith, calls, sleep-attempts s),
        omega (arith, slept, sleep-attempts s),
        bounded,
      )

  -- Nothing but failures up to the limit of `n` retries.
  loop_exhausted :
      (k n fuel : ℕ) (s : Loop)
      → max_attempts ≡ pos n
      → s.attempts + k ≡ n
      → Sound s
      → ((i : ℕ) → i ≤ k → answer (s.attempts + i) ≡ none)
      → k < fuel
      → (o : Outcome A) × (retry_loop answer raw max_attempts max fuel s ≡ some o)
        × (o.response ≡ none)
        × (o.calls ≡ n + 1)
        × (length o.waits ≡ n)
        × All Bounded o.waits
  unfolding retry_loop
  loop_exhausted k n zero s p q v fails lt = absurd (omega arith)
  loop_exhausted zero n (suc fuel) s p q v fails lt =
      let here : answer s.attempts ≡ none = ap answer (omega arith) ∙ fails 0 (omega arith) in
      let off : again answer raw max_attempts max (s.attempts + 1) ≡ false = rw p (ground arith) in
      (
        record { response = none; calls = s.attempts + 1; waits = s.waits },
        rw (here, retry_loop, off),
        refl,
        omega arith,
        omega (arith, v.counted),
        v.past,
      )
  loop_exhausted (suc k) n (suc fuel) s p q v fails lt =
      let here : answer s.attempts ≡ none = ap answer (omega arith) ∙ fails 0 (omega arith) in
      let t = sleep answer raw max_attempts max s in
      let on : again answer raw max_attempts max (s.attempts + 1) ≡ true = rw p (ground arith) in
      let (o, run, found, calls, slept, bounded) =
        loop_exhausted k n fuel t p (omega (arith, sleep-attempts s)) (sleep-Sound s v)
          (λ i i_le. ap answer (omega (arith, sleep-attempts s)) ∙ fails (suc i) (omega arith))
          (omega arith) in
      (o, rw (here, retry_loop, on) run, found, calls, slept, bounded)

module _ {A : Type 0} (answer : ℕ → Option A) (raw : ℕ → ℤ) where
  -- When call number `k`, from 0, is the first that succeeds, and `k` is at most the configured number
  -- of retries, or that number is negative, the function returns that answer after `k + 1` calls and
  -- `k` waits, none negative or longer than the longest wait.
  pub with_retry_success :
      (max_attempts : ℤ) (seconds k fuel : ℕ) (a : A)
      → eqb_ℤ max_attempts (pos 0) ≡ false
      → ((i : ℕ) → i < k → answer i ≡ none)
      → answer k ≡ some a
      → (ltb_ℤ max_attempts (pos 0) || leb_ℤ (pos k) max_attempts) ≡ true
      → k < fuel
      → (o : Outcome A) × (with_retry answer raw max_attempts seconds fuel ≡ some o)
        × (o.response ≡ some a)
        × (o.calls ≡ k + 1)
        × (length o.waits ≡ k)
        × All (λ w. (leb_ℤ w (longest_wait seconds) ≡ true) × (neg_part w ≡ 0)) o.waits
  unfolding with_retry
  with_retry_success max_attempts seconds k fuel a ne fails good within lt =
      let max = max_retry_time seconds in
      let sane = max_retry_time_nonneg seconds in
      let first = get_backoff_duration raw 0 max in
      let s : Loop = record {
        attempts = 0;
        backoff = first.0;
        max_reached = first.1;
        waits = [];
      } in
      let (o, ran, found, calls, slept, bounded) =
        loop_success answer raw max_attempts max sane k fuel s a
          (record { next = get_backoff_duration_bounds raw 0 max sane; past = tt; counted = refl })
          (λ i i_lt. ap answer (omega arith) ∙ fails i i_lt) (ap answer (omega arith) ∙ good)
          (ap (again answer raw max_attempts max) (omega arith) ∙ within) lt in
      (
        o,
        rw ne ran,
        found,
        omega (arith, calls),
        omega (arith, slept),
        subst (λ m. All (λ w. (leb_ℤ w m ≡ true) × (neg_part w ≡ 0)) o.waits)
            (max_retry_time-longest_wait seconds) bounded,
      )

  -- When calls 0 to `n` fail and `n`, at least 1, is the configured number of retries, the function
  -- returns the error after exactly `n + 1` calls and `n` waits, none negative or longer than the
  -- longest wait.
  pub with_retry_exhausted :
      (n seconds fuel : ℕ)
      → 1 ≤ n
      → ((i : ℕ) → i ≤ n → answer i ≡ none)
      → n < fuel
      → (o : Outcome A) × (with_retry answer raw (pos n) seconds fuel ≡ some o)
        × (o.response ≡ none)
        × (o.calls ≡ n + 1)
        × (length o.waits ≡ n)
        × All (λ w. (leb_ℤ w (max_retry_time seconds) ≡ true) × (neg_part w ≡ 0)) o.waits
  unfolding with_retry
  with_retry_exhausted n seconds fuel n_pos fails lt =
      let max = max_retry_time seconds in
      let sane = max_retry_time_nonneg seconds in
      let first = get_backoff_duration raw 0 max in
      let s : Loop = record {
        attempts = 0;
        backoff = first.0;
        max_reached = first.1;
        waits = [];
      } in
      let (o, ran, found, calls, slept, bounded) =
        loop_exhausted answer raw (pos n) max sane n n fuel s refl (omega arith)
          (record { next = get_backoff_duration_bounds raw 0 max sane; past = tt; counted = refl })
          (λ i i_le. ap answer (omega arith) ∙ fails i i_le) lt in
      let ne : eqb_ℤ (pos n) (pos 0) ≡ false = ground arith in
      (o, rw ne ran, found, calls, slept, bounded)
