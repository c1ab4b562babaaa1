-- ===== src/Enqueue/Default/Liveness.antt =====
-- The default enqueue function returns when the chain has passed the configured last block.
use cosmos_indexer.Prelude.{
  ℕ, zero, suc, ◌+◌, ◌-◌, ◌≤◌, ◌<◌, ◌≡◌, ◌≢◌, refl, List, [], ◌∷◌, some, arith, leb, if◌then◌else◌,
  length,
}
use cosmos_indexer.Prelude.Int.{pos}
use cosmos_indexer.Config.{IndexBase}
use cosmos_indexer.Enqueue.Default.{
  Setup, Phase, reattempting, outer, inner, returned, failed, Producer, Move, produce, consume,
  start, body, step, run,
}

-- `n` times a round of the producer, at the node's height `h`, and then a value taken by a worker.
abbrev pub rounds : ℕ → ℕ → List Move
rounds h zero = []
rounds h (suc n) = produce (some h) ∷ consume ∷ rounds h n

module _ (cfg : IndexBase) (e : ℕ) (all_blocks : List ℕ) (cap h : ℕ) where
  record Ready (s : Producer) : Type 0 where
    empty : s.queue ≡ []
    curr : s.curr_block ≤ e + 1
    tip : s.phase ≡ inner → s.latest_block ≡ h
    sound : s.phase ≢ failed

  -- An upper bound on the rounds left before the return.
  measure : Producer → ℕ
  measure s = elim (s.phase) [
    | reattempting bs ↦ length bs + (e + 1 - s.curr_block) + 4
    | outer ↦ if leb s.curr_block e then e + 1 - s.curr_block + 3 else 1
    | inner ↦ e + 1 - s.curr_block + 2
    | returned ↦ 0
    | failed ↦ 0
  ]

  next : Producer → Producer
  next s =
      step cfg (pos e) all_blocks cap consume (step cfg (pos e) all_blocks cap (produce (some h)) s)

  next-Ready :
      (s : Producer)
      → 1 ≤ cap
      → e < h
      → Ready s
      → Ready (next s) × (measure (next s) ≤ measure s - 1)
  unfolding next step measure body
  next-Ready s c lt v = go s.phase refl
    where
      go : (ph : Phase) → s.phase ≡ ph → Ready (next s) × (measure (next s) ≤ measure s - 1)
      go (reattempting []) p = ground arith
      go (reattempting (b ∷ bs)) p = ground arith
      go outer p = ground arith
      go inner p = ground arith
      go returned p = ground arith
      go failed p = ground arith

  rounds-returned :
      (n : ℕ) (s : Producer)
      → 1 ≤ cap
      → e < h
      → Ready s
      → measure s ≤ n
      → (run cfg (pos e) all_blocks cap (rounds h n) s).phase ≡ returned
  unfolding run measure next
  rounds-returned zero s c lt v le = ground arith
  rounds-returned (suc n) s c lt v le =
      let (ready, fewer) = next-Ready s c lt v in
      rounds-returned n (next s) c lt ready (omega (arith, fewer))

-- Once the node has passed the last block `e`, and while each round's value is taken by a worker,
-- the producer returns without an error: the failed blocks, the blocks from the first to `e` and
-- four rounds more are enough.
pub returns_past_end :
    (cfg : IndexBase) (e : ℕ) (all_blocks : List ℕ) (cap h : ℕ) (p : Setup) (n : ℕ)
    → 1 ≤ cap
    → e < h
    → p.first_block ≤ e + 1
    → length p.failed_blocks + (e + 1 - p.first_block) + 4 ≤ n
    → (run cfg (pos e) all_blocks cap (rounds h n) (start p)).phase ≡ returned
unfolding start measure
returns_past_end cfg e all_blocks cap h p n c lt le enough =
    rounds-returned cfg e all_blocks cap h n (start p) c lt
      (record { empty = refl; curr = le; tip = λ q. cc; sound = λ q. cc }) enough
