-- ===== src/Enqueue/Default/Exit.antt =====
-- Where the main loop of the default enqueue function stands, when it returns, and when it cannot.
use cosmos_indexer.Prelude.{
  ℕ, zero, suc, ◌+◌, ◌-◌, ◌≤◌, ◌<◌, ◌≡◌, ◌≢◌, refl, ap, ◌∙◌, false, List, [], ◌∷◌, none, some,
  arith, All, All-append, All-map, Increasing, Increasing-append,
}
use native.Mathlib.Nat.{le_refl}
use cosmos_indexer.Prelude.Int.{ℤ, pos, minus_one}
use cosmos_indexer.Models.{Block}
use cosmos_indexer.Config.{IndexBase}
use cosmos_indexer.Enqueue.Default.{
  Setup, Phase, reattempting, outer, inner, returned, failed, Producer, Move, produce, consume,
  start, body, produce_round, consume_round, step, run, max_int64,
}
use cosmos_indexer.Enqueue.Default.Coverage.{
  decide, wanted, db_of, run-Inv, start-Inv, sent-eq-wanted,
}

module _ (cfg : IndexBase) (all_blocks : List ℕ) (db : List Block) where
  decide-height : (h : ℕ) → All (λ b. b.height ≡ h) (decide cfg all_blocks db h)
  unfolding decide
  decide-height h = ground arith

  wanted-range :
      (h n : ℕ) → All (λ b. (h ≤ b.height) × (b.height < h + n)) (wanted cfg all_blocks db h n)
  unfolding wanted
  wanted-range h zero = tt
  wanted-range h (suc n) =
      All-append _ _ _ (All-map _ _ _ (λ b q. (q.0, omega (arith, q.1))) (wanted-range h n))
        (All-map _ _ _ (λ b q. (omega (arith, q), omega (arith, q))) (decide-height (h + n)))

  decide-Increasing : (h : ℕ) → Increasing (λ b. b.height) (decide cfg all_blocks db h)
  unfolding decide
  decide-Increasing h = ground arith

  pub wanted-Increasing : (h n : ℕ) → Increasing (λ b. b.height) (wanted cfg all_blocks db h n)
  unfolding wanted
  wanted-Increasing h zero = tt
  wanted-Increasing h (suc n) =
      Increasing-append (λ b. b.height) (h + n) _ _ (wanted-Increasing h n)
        (decide-Increasing (h + n)) (All-map _ _ _ (λ b q. q.1) (wanted-range h n))
        (All-map _ _ _ (λ b q. omega (arith, q)) (decide-height (h + n)))

module _ (cfg : IndexBase) (end_block : ℤ) (all_blocks : List ℕ) (cap : ℕ) where
  body-curr : (s : Producer) → (body cfg end_block all_blocks cap s).curr_block ≡ s.curr_block + 1
  unfolding body
  body-curr s = ground arith

  body-rest :
      (s : Producer)
      → ((body cfg end_block all_blocks cap s).phase ≡ s.phase)
        × ((body cfg end_block all_blocks cap s).latest_block ≡ s.latest_block)
  unfolding body
  body-rest s = ground arith

-- Bounded by the configured last block.
module _ (cfg : IndexBase) (e : ℕ) (all_blocks : List ℕ) (cap : ℕ) where
  pub record Upto (s : Producer) : Type 0 where
    pub curr : s.curr_block ≤ e + 1
    pub over : cfg.exit_when_caught_up ≡ false → s.phase ≡ returned → s.curr_block ≡ e + 1

  step-Upto : (m : Move) (s : Producer) → Upto s → Upto (step cfg (pos e) all_blocks cap m s)
  unfolding step
  step-Upto consume s v =
      elim (s.queue) as (λ q. Upto (consume_round cfg (pos e) all_blocks cap q s)) [
        | [] ↦ v
        | b ∷ bs ↦ record { curr = v.curr; over = v.over }
      ]
  step-Upto (produce answer) s v = go s.phase refl
    where
      go : (ph : Phase) → s.phase ≡ ph → Upto (produce_round cfg (pos e) all_blocks cap ph answer s)
      go (reattempting []) p = ground arith
      go (reattempting (b ∷ bs)) p = ground arith
      go outer p = ground arith
      go inner p =
          ground
            (arith, body-curr cfg (pos e) all_blocks cap s, body-rest cfg (pos e) all_blocks cap s)
      go returned p = v
      go failed p = v

  run-Upto : (ms : List Move) (s : Producer) → Upto s → Upto (run cfg (pos e) all_blocks cap ms s)
  unfolding run
  run-Upto [] s v = v
  run-Upto (m ∷ ms) s v = run-Upto ms _ (step-Upto m s v)

-- With a first block at most one after the last block `e`, and no exit at the tip, a producer that has
-- returned has sent exactly what the specification wants of the heights from the first block to `e`: also
-- with `re_index` on, that is without the heights of the chunk's indexed blocks.
pub returned_complete :
    (cfg : IndexBase) (e : ℕ) (all_blocks : List ℕ) (cap : ℕ) (p : Setup) (ms : List Move)
    → cfg.exit_when_caught_up ≡ false
    → p.first_block ≤ e + 1
    → (run cfg (pos e) all_blocks cap ms (start p)).phase ≡ returned
    → (run cfg (pos e) all_blocks cap ms (start p)).sent
      ≡ wanted cfg all_blocks (db_of p) p.first_block (e + 1 - p.first_block)
unfolding start
returned_complete cfg e all_blocks cap p ms noexit le back =
    let v : Upto cfg e all_blocks cap (run cfg (pos e) all_blocks cap ms (start p)) =
      run-Upto cfg e all_blocks cap ms (start p) (record { curr = le; over = λ _ q. cc }) in
    sent-eq-wanted cfg (pos e) all_blocks cap p ms
    ∙ ap (λ c. wanted cfg all_blocks (db_of p) p.first_block (c - p.first_block))
        (v.over noexit back)

-- What the node answers, in order, never falls, and is at least `low`.
abbrev pub Rising : ℕ → List Move → Type 0
Rising low [] = Unit
Rising low (produce (some h) ∷ ms) = (low ≤ h) × Rising h ms
Rising low (produce none ∷ ms) = Rising low ms
Rising low (consume ∷ ms) = Rising low ms

-- The height that the node reported last, or `low`.
abbrev pub last_answer : ℕ → List Move → ℕ
last_answer low [] = low
last_answer low (produce (some h) ∷ ms) = last_answer h ms
last_answer low (produce none ∷ ms) = last_answer low ms
last_answer low (consume ∷ ms) = last_answer low ms

module _ (cfg : IndexBase) (end_block : ℤ) (all_blocks : List ℕ) (cap : ℕ) where
  record Behind (low : ℕ) (s : Producer) : Type 0 where
    curr : s.curr_block ≤ low
    latest : s.curr_block ≤ s.latest_block
    known : s.phase ≡ inner → s.latest_block ≤ low

  consume-Behind :
      (low : ℕ) (s : Producer)
      → Behind low s
      → Behind low (step cfg end_block all_blocks cap consume s)
  unfolding step
  consume-Behind low s v =
      elim (s.queue) as (λ q. Behind low (consume_round cfg end_block all_blocks cap q s)) [
        | [] ↦ v
        | b ∷ bs ↦ record { curr = v.curr; latest = v.latest; known = v.known }
      ]

  fail-Behind :
      (low : ℕ) (s : Producer)
      → Behind low s
      → Behind low (step cfg end_block all_blocks cap (produce none) s)
  unfolding step
  fail-Behind low s v = go s.phase refl
    where
      go :
          (ph : Phase)
          → s.phase ≡ ph
          → Behind low (produce_round cfg end_block all_blocks cap ph none s)
      go (reattempting []) p = ground arith
      go (reattempting (b ∷ bs)) p = ground arith
      go outer p = ground arith
      go inner p = ground (
        arith,
        body-curr cfg end_block all_blocks cap s,
        body-rest cfg end_block all_blocks cap s,
      )
      go returned p = v
      go failed p = v

  answer-Behind :
      (low h : ℕ) (s : Producer)
      → low ≤ h
      → Behind low s
      → Behind h (step cfg end_block all_blocks cap (produce (some h)) s)
  unfolding step
  answer-Behind low h s le v = go s.phase refl
    where
      go :
          (ph : Phase)
          → s.phase ≡ ph
          → Behind h (produce_round cfg end_block all_blocks cap ph (some h) s)
      go (reattempting []) p = ground arith
      go (reattempting (b ∷ bs)) p = ground arith
      go outer p = ground arith
      go inner p = ground (
        arith,
        body-curr cfg end_block all_blocks cap s,
        body-rest cfg end_block all_blocks cap s,
      )
      go returned p = ground arith
      go failed p = ground arith

  run-Behind :
      (low : ℕ) (ms : List Move) (s : Producer)
      → Rising low ms
      → Behind low s
      → Behind (last_answer low ms) (run cfg end_block all_blocks cap ms s)
  unfolding run
  run-Behind low [] s r v = v
  run-Behind low (produce (some h) ∷ ms) s r v = run-Behind h ms _ r.1 (answer-Behind low h s r.0 v)
  run-Behind low (produce none ∷ ms) s r v = run-Behind low ms _ r (fail-Behind low s v)
  run-Behind low (consume ∷ ms) s r v = run-Behind low ms _ r (consume-Behind low s v)

-- Every height that the main loop sends is at or after the first block, and lies below the height
-- that the node reported last, if the node's height never falls: the tip itself is never sent.
pub sent-below-tip :
    (cfg : IndexBase) (end_block : ℤ) (all_blocks : List ℕ) (cap : ℕ) (p : Setup) (ms : List Move)
    → p.first_block ≤ max_int64
    → Rising p.first_block ms
    → All
        (λ b. (p.first_block ≤ b.height) × (b.height < last_answer p.first_block ms))
        (run cfg end_block all_blocks cap ms (start p)).sent
unfolding start
sent-below-tip cfg end_block all_blocks cap p ms le r =
    let s = run cfg end_block all_blocks cap ms (start p) in
    let v : Behind cfg end_block all_blocks cap (last_answer p.first_block ms) s =
      run-Behind cfg end_block all_blocks cap p.first_block ms (start p) r
        (record { curr = le_refl _; latest = le; known = λ q. cc }) in
    rw (sent-eq-wanted cfg end_block all_blocks cap p ms) (
      All-map _ _ _
        (λ b q. (
          q.0,
          omega (
            arith,
            q.1,
            v.curr,
            (run-Inv cfg end_block all_blocks cap (db_of p) p.first_block ms (start p)
                (start-Inv cfg end_block all_blocks cap p)).at_or_after,
          ),
        ))
        (wanted-range cfg all_blocks (db_of p) p.first_block (s.curr_block - p.first_block)))

-- The heights that the main loop sends are strictly increasing: no block is sent twice.
pub sent-Increasing :
    (cfg : IndexBase) (end_block : ℤ) (all_blocks : List ℕ) (cap : ℕ) (p : Setup) (ms : List Move)
    → Increasing (λ b. b.height) (run cfg end_block all_blocks cap ms (start p)).sent
sent-Increasing cfg end_block all_blocks cap p ms =
    rw (sent-eq-wanted cfg end_block all_blocks cap p ms)
      (wanted-Increasing cfg all_blocks (db_of p) p.first_block _)

module _ (cfg : IndexBase) (all_blocks : List ℕ) (cap : ℕ) where
  step-returned :
      (m : Move) (s : Producer)
      → s.curr_block ≤ s.latest_block
      → s.phase ≢ returned
      → (step cfg minus_one all_blocks cap m s).phase ≢ returned
  unfolding step
  step-returned consume s le n =
      elim (s.queue) as (λ q. (consume_round cfg minus_one all_blocks cap q s).phase ≢ returned) [
        | [] ↦ n
        | b ∷ bs ↦ n
      ]
  step-returned (produce answer) s le n = go s.phase refl
    where
      go :
          (ph : Phase)
          → s.phase ≡ ph
          → (produce_round cfg minus_one all_blocks cap ph answer s).phase ≢ returned
      go (reattempting []) p = ground arith
      go (reattempting (b ∷ bs)) p = ground arith
      go outer p = ground arith
      go inner p = ground (arith, body-rest cfg minus_one all_blocks cap s)
      go returned p = absurd (n p)
      go failed p = n

  run-returned :
      (low : ℕ) (ms : List Move) (s : Producer)
      → Rising low ms
      → Behind cfg minus_one all_blocks cap low s
      → s.phase ≢ returned
      → (run cfg minus_one all_blocks cap ms s).phase ≢ returned
  unfolding run
  run-returned low [] s r v n = n
  run-returned low (produce (some h) ∷ ms) s r v n =
      run-returned h ms _ r.1 (answer-Behind cfg minus_one all_blocks cap low h s r.0 v)
        (step-returned (produce (some h)) s v.latest n)
  run-returned low (produce none ∷ ms) s r v n =
      run-returned low ms _ r (fail-Behind cfg minus_one all_blocks cap low s v)
        (step-returned (produce none) s v.latest n)
  run-returned low (consume ∷ ms) s r v n =
      run-returned low ms _ r (consume-Behind cfg minus_one all_blocks cap low s v)
        (step-returned consume s v.latest n)

  -- With no last block (-1), a node whose height never falls and is never below the first block:
  -- the producer never returns without an error, with `exit_when_caught_up` set or not.
  pub caught_up_never_returns :
      (p : Setup) (ms : List Move)
      → p.first_block ≤ max_int64
      → Rising p.first_block ms
      → (run cfg minus_one all_blocks cap ms (start p)).phase ≢ returned
  unfolding start
  caught_up_never_returns p ms le r =
      run-returned p.first_block ms (start p) r
        (record { curr = le_refl _; latest = le; known = λ q. cc }) (λ q. cc)
