-- ===== src/Enqueue/Default/Coverage.antt =====
-- What the main loop of the default enqueue function sends, against a specification by height.
use cosmos_indexer.Prelude.{
  ℕ, zero, suc, ◌+◌, ◌-◌, ◌≤◌, ◌≡◌, refl, ap, ◌∙◌, Bool, true, false, not, ◌&&◌, List, [], ◌∷◌,
  ◌++◌, Option, none, some, arith, ltb, ◌==◌, if◌then◌else◌, elem, length, inl, inr, Bool-cases,
}
use mathlib.Core.List.{append-nil, append_assoc}
use cosmos_indexer.Prelude.Int.{ℤ}
use cosmos_indexer.Models.{Block}
use cosmos_indexer.Config.{IndexBase}
use cosmos_indexer.Enqueue.{EnqueueData}
use cosmos_indexer.Enqueue.Default.{
  Setup, Phase, reattempting, outer, inner, returned, failed, Producer, Move, produce, consume,
  find_block, delete_block, blocks_map, start, body, more, produce_round, consume_round, step, run,
}

pub find_block-delete_block :
    (h k : ℕ) (m : List Block)
    → find_block h (delete_block k m) ≡ (if k == h then none else find_block h m)
unfolding find_block delete_block
find_block-delete_block h k [] = ground arith
find_block-delete_block h k (c ∷ cs) = ground (arith, find_block-delete_block h k cs)

listed : (h : ℕ) (hs : List ℕ) → (ltb 0 (length hs) && elem h hs) ≡ elem h hs
listed h [] = refl
listed h (k ∷ hs) = ground arith

module _ (cfg : IndexBase) (all_blocks : List ℕ) (db : List Block) where
  -- A height that no row settles: every such height, but those of the chunk's indexed blocks,
  -- with `re_index` on, too.
  unfoldable pub fresh : ℕ → List EnqueueData
  fresh h =
      if elem h all_blocks
      then []
      else record { height = h; index_transactions = cfg.transaction_indexing_enabled } ∷ []

  -- A height with a row is sent only if its transactions are still to be indexed.
  unfoldable pub decide : ℕ → List EnqueueData
  unfolding fresh
  decide h = elim (find_block h db) [
    | none ↦ fresh h
    | some b ↦
        if cfg.re_index
        then fresh h
        else if cfg.transaction_indexing_enabled && not b.tx_indexed
        then record { height = h; index_transactions = true } ∷ []
        else []
  ]

  -- The heights from `h` on, `n` of them.
  unfoldable pub wanted : ℕ → ℕ → List EnqueueData
  wanted h zero = []
  wanted h (suc n) = wanted h n ++ decide (h + n)

module _ (cfg : IndexBase) (end_block : ℤ) (all_blocks : List ℕ) (cap : ℕ) (db : List Block) where
  -- One round of the inner loop's body.
  pub record Advance (s t : Producer) : Type 0 where
    pub curr : t.curr_block ≡ s.curr_block + 1
    pub sent : t.sent ≡ s.sent ++ decide cfg all_blocks db s.curr_block
    pub queue : t.queue ≡ s.queue ++ decide cfg all_blocks db s.curr_block
    pub resent : t.resent ≡ s.resent
    pub received : t.received ≡ s.received
    pub phase : t.phase ≡ s.phase
    pub latest : t.latest_block ≡ s.latest_block
    pub ahead :
        (h : ℕ) → s.curr_block + 1 ≤ h → find_block h t.blocks_in_db ≡ find_block h s.blocks_in_db

  body-Advance :
      (s : Producer)
      → find_block s.curr_block s.blocks_in_db ≡ find_block s.curr_block db
      → Advance s (body cfg end_block all_blocks cap s)
  unfolding body decide
  body-Advance s e = record {
    curr = ground (arith, e);
    sent = ground (arith, e, append-nil s.sent, listed s.curr_block all_blocks);
    queue = ground (arith, e, append-nil s.queue, listed s.curr_block all_blocks);
    resent = ground arith;
    received = ground arith;
    phase = ground arith;
    latest = ground arith;
    ahead = λ h p. ground (arith, find_block-delete_block h s.curr_block s.blocks_in_db);
  }

  abbrev pub is_reattempting : Phase → Bool
  is_reattempting (reattempting _) = true
  is_reattempting _ = false

  -- Between two rounds, when the loop began at `first`.
  pub record Inv (first : ℕ) (s : Producer) : Type 0 where
    pub at_or_after : first ≤ s.curr_block
    pub covered : s.sent ≡ wanted cfg all_blocks db first (s.curr_block - first)
    pub fifo : s.received ++ s.queue ≡ s.resent ++ s.sent
    pub before_loop : is_reattempting s.phase ≡ true → s.sent ≡ []
    pub ahead : (h : ℕ) → s.curr_block ≤ h → find_block h s.blocks_in_db ≡ find_block h db

  Advance-Inv :
      (first : ℕ) (s t : Producer) → s.phase ≡ inner → Advance s t → Inv first s → Inv first t
  unfolding wanted
  Advance-Inv first s t p a v =
      let gap : t.curr_block - first ≡ suc (s.curr_block - first) =
        omega (arith, a.curr, v.at_or_after) in
      let here : first + (s.curr_block - first) ≡ s.curr_block = omega (arith, v.at_or_after) in
      record {
        at_or_after = omega (arith, a.curr, v.at_or_after);
        covered = rw (gap, here, a.sent, v.covered);
        fifo = cc (
          a.received,
          a.queue,
          a.resent,
          a.sent,
          v.fifo,
          append_assoc s.received s.queue (decide cfg all_blocks db s.curr_block),
          append_assoc s.resent s.sent (decide cfg all_blocks db s.curr_block),
        );
        before_loop = λ q. ground (arith, p, a.phase);
        ahead = λ h q. a.ahead h (omega (arith, a.curr)) ∙ v.ahead h (omega (arith, a.curr));
      }

  produce_round-Inv :
      (first : ℕ) (ph : Phase) (answer : Option ℕ) (s : Producer)
      → s.phase ≡ ph
      → Inv first s
      → Inv first (produce_round cfg end_block all_blocks cap ph answer s)
  unfolding produce_round
  produce_round-Inv first (reattempting []) answer s p v = record {
    at_or_after = v.at_or_after;
    covered = v.covered;
    fifo = v.fifo;
    before_loop = λ q. cc;
    ahead = v.ahead;
  }
  produce_round-Inv first (reattempting (b ∷ bs)) answer s p v = record {
    at_or_after = ground arith;
    covered = ground arith;
    fifo = ground (
      arith,
      v.before_loop (ap is_reattempting p),
      append_assoc s.received s.queue (b ∷ []),
      append-nil s.resent,
      append-nil (s.resent ++ b ∷ []),
    );
    before_loop = λ q. ground arith;
    ahead = λ h q. ground (arith, v.ahead h);
  }
  produce_round-Inv first outer answer s p v = record {
    at_or_after = ground arith;
    covered = ground arith;
    fifo = ground arith;
    before_loop = λ q. ground arith;
    ahead = λ h q. ground (arith, v.ahead h);
  }
  produce_round-Inv first inner answer s p v =
      elim (Bool-cases (more cfg end_block all_blocks cap s)) [
        | inl e ↦
            rw e (Advance-Inv first s _ p (body-Advance s (v.ahead s.curr_block (omega arith))) v)
        | inr e ↦ rw e (record {
          at_or_after = v.at_or_after;
          covered = v.covered;
          fifo = v.fifo;
          before_loop = λ q. cc;
          ahead = v.ahead;
        })
      ]
  produce_round-Inv first returned answer s p v = v
  produce_round-Inv first failed answer s p v = v

  consume_round-Inv :
      (first : ℕ) (q : List EnqueueData) (s : Producer)
      → s.queue ≡ q
      → Inv first s
      → Inv first (consume_round cfg end_block all_blocks cap q s)
  unfolding consume_round
  consume_round-Inv first [] s p v = v
  consume_round-Inv first (b ∷ bs) s p v = record {
    at_or_after = v.at_or_after;
    covered = v.covered;
    fifo = cc (append_assoc s.received (b ∷ []) bs, p, v.fifo);
    before_loop = v.before_loop;
    ahead = v.ahead;
  }

  step-Inv :
      (first : ℕ) (m : Move) (s : Producer)
      → Inv first s
      → Inv first (step cfg end_block all_blocks cap m s)
  unfolding step
  step-Inv first (produce answer) s v = produce_round-Inv first s.phase answer s refl v
  step-Inv first consume s v = consume_round-Inv first s.queue s refl v

  pub run-Inv :
      (first : ℕ) (ms : List Move) (s : Producer)
      → Inv first s
      → Inv first (run cfg end_block all_blocks cap ms s)
  unfolding run
  run-Inv first [] s v = v
  run-Inv first (m ∷ ms) s v = run-Inv first ms _ (step-Inv first m s v)

-- The map `blocksInDB` as the loop finds it.
abbrev pub db_of : Setup → List Block
db_of p = blocks_map p.blocks_from_start []

module _ (cfg : IndexBase) (end_block : ℤ) (all_blocks : List ℕ) (cap : ℕ) (p : Setup) where
  pub start-Inv : Inv cfg end_block all_blocks cap (db_of p) p.first_block (start p)
  unfolding start wanted
  start-Inv = record {
    at_or_after = omega arith;
    covered = (let gone : p.first_block - p.first_block ≡ 0 = omega arith in rw gone);
    fifo = refl;
    before_loop = λ q. refl;
    ahead = λ h q. refl;
  }

  -- At any moment, under any interleaving of the producer with the workers and any answers of the
  -- node, the main loop has sent exactly what the specification wants of the heights from the first
  -- block up to, and without, the current one: in order, each once, none left out. What is wanted leaves out the
  -- heights of the chunk's indexed blocks whatever `re_index` says: with `re_index` on, a block of `all_blocks` is not
  -- sent again, although the flag's text promises another attempt.
  pub sent-eq-wanted :
      (ms : List Move)
      → let s = run cfg end_block all_blocks cap ms (start p) in
        s.sent ≡ wanted cfg all_blocks (db_of p) p.first_block (s.curr_block - p.first_block)
  sent-eq-wanted ms =
      (run-Inv cfg end_block all_blocks cap (db_of p) p.first_block ms (start p) start-Inv).covered

  -- What the workers have taken, followed by what waits in the channel, is what the failed blocks'
  -- loop has sent followed by what the main loop has sent: nothing is lost, doubled or reordered.
  pub received-queue-eq :
      (ms : List Move)
      → let s = run cfg end_block all_blocks cap ms (start p) in
        s.received ++ s.queue ≡ s.resent ++ s.sent
  received-queue-eq ms =
      (run-Inv cfg end_block all_blocks cap (db_of p) p.first_block ms (start p) start-Inv).fifo
