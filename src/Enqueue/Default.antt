-- ===== src/Enqueue/Default.antt =====
-- core/block_enqueue.go, GenerateDefaultEnqueueFunction: the set-up, and the returned function as a
-- state machine. One `produce` step is one round of a loop of the producer; `consume` is a worker
-- that takes a value from the channel. A history of what was sent and received is kept beside the
-- variables of the source. The sleeps of `Throttling` only delay, and the producer is the only one
-- that sends to its channel.
pub mod Coverage
pub mod Exit
pub mod Liveness
use cosmos_indexer.Prelude.{
  ℕ, ◌+◌, ◌-◌, ◌/◌, ◌^◌, Bool, true, not, ◌&&◌, List, [], ◌∷◌, ◌++◌, Option, none, some, ltb, leb,
  ◌==◌, if◌then◌else◌, elem, length, Result, ok, ◌>>=◌,
}
use cosmos_indexer.Prelude.Int.{ℤ, pos, minus_one, ltb_ℤ, leb_ℤ, eqb_ℤ, pos_part}
use cosmos_indexer.Models.{Block}
use cosmos_indexer.Config.{IndexBase}
use cosmos_indexer.Enqueue.{EnqueueData, failed_block_enqueue_data}

-- What the set-up computes and the returned function closes over.
pub record Setup : Type 0 where
  pub first_block : ℕ
  pub blocks_from_start : List Block
  pub failed_blocks : List EnqueueData

-- `failed_blocks` is the answer of the query on the table of that name, `blocks_from` that of
-- `GetBlocksFromStart`; an error of either ends the set-up.
unfoldable pub failed_to_reattempt {ℓ} :
    {E : Type ℓ} → IndexBase → Result E (List ℕ) → Result E (List EnqueueData)
failed_to_reattempt cfg failed_blocks =
    if cfg.reattempt_failed_blocks
    then (if cfg.transaction_indexing_enabled
        then (failed_blocks >>= λ heights. ok (failed_block_enqueue_data heights))
        else ok (failed_block_enqueue_data []))
    else ok []

unfoldable pub start_from : ℕ → List Block → ℕ
start_from start [] = start
start_from start (b ∷ bs) = b.height

unfoldable pub generate_default {ℓ} :
    {E : Type ℓ} → IndexBase → Result E (List ℕ) → (ℕ → Result E (List Block)) → ℤ → Result E Setup
unfolding failed_to_reattempt start_from
generate_default cfg failed_blocks blocks_from start_block = do
  failed ← failed_to_reattempt cfg failed_blocks
  let start = if leb_ℤ start_block (pos 0) then 1 else pos_part start_block
  if cfg.re_index
      then ok (record { first_block = start; blocks_from_start = []; failed_blocks = failed })
      else (blocks_from start >>= λ blocks. ok (record {
        first_block = start_from start blocks;
        blocks_from_start = blocks;
        failed_blocks = failed;
      }))

-- Where the producer is: sending failed blocks again, at the head of the outer or of the inner
-- loop, or returned, without or with an error.
pub data Phase : Type 0 where
  reattempting : List EnqueueData → Phase
  outer inner returned failed : Phase

pub record Producer : Type 0 where
  pub curr_block : ℕ
  pub latest_block : ℕ
  pub blocks_in_db : List Block
  pub phase : Phase
  pub queue : List EnqueueData  -- the channel
  pub resent : List EnqueueData  -- history: failed blocks sent
  pub sent : List EnqueueData  -- history: blocks sent by the main loop
  pub received : List EnqueueData  -- history: values taken by the workers

abbrev pub max_int64 : ℕ
max_int64 = 2 ^ 63 - 1

-- A later row for a height replaces an earlier one, as in the map `blocksInDB`.
unfoldable pub put_block : Block → List Block → List Block
put_block b [] = b ∷ []
put_block b (c ∷ cs) = if c.height == b.height then b ∷ cs else c ∷ put_block b cs

unfoldable pub find_block : ℕ → List Block → Option Block
find_block h [] = none
find_block h (c ∷ cs) = if c.height == h then some c else find_block h cs

unfoldable pub delete_block : ℕ → List Block → List Block
delete_block h [] = []
delete_block h (c ∷ cs) = let rest = delete_block h cs in if c.height == h then rest else c ∷ rest

unfoldable pub blocks_map : List Block → List Block → List Block
unfolding put_block
blocks_map [] m = m
blocks_map (b ∷ bs) m = blocks_map bs (put_block b m)

unfoldable pub start : Setup → Producer
unfolding blocks_map
start s = record {
  curr_block = s.first_block;
  latest_block = max_int64;
  blocks_in_db = blocks_map s.blocks_from_start [];
  phase = reattempting s.failed_blocks;
  queue = [];
  resent = [];
  sent = [];
  received = [];
}

-- endBlock != -1 && currBlock > endBlock
abbrev pub past_end : ℤ → ℕ → Bool
past_end end_block curr = not (eqb_ℤ end_block minus_one) && ltb_ℤ end_block (pos curr)

-- currBlock <= endBlock || endBlock == -1
abbrev pub within_end : ℤ → ℕ → Bool
within_end end_block curr = if leb_ℤ (pos curr) end_block then true else eqb_ℤ end_block minus_one

pub data Move : Type 0 where
  -- the producer goes on; the answer is read where it asks for the latest height
  produce : Option ℕ → Move
  consume : Move

module _ (cfg : IndexBase) (end_block : ℤ) (all_blocks : List ℕ) (cap : ℕ) where
  send : ℕ → Bool → Producer → Producer
  send h txs s = record s {
    queue = s.queue ++ record { height = h; index_transactions = txs } ∷ [];
    sent = s.sent ++ record { height = h; index_transactions = txs } ∷ [];
    curr_block = s.curr_block + 1;
  }

  -- A block that the database has no row for, or any block when reindexing.
  enqueue_new : Producer → Producer
  unfolding send
  enqueue_new s =
      if ltb 0 (length all_blocks) && elem s.curr_block all_blocks
      then record s { curr_block = s.curr_block + 1 }
      else send s.curr_block cfg.transaction_indexing_enabled s

  -- A block with a row, when not reindexing.
  enqueue_known : Block → Producer → Producer
  unfolding send
  enqueue_known b s =
      if not (cfg.transaction_indexing_enabled && not b.tx_indexed)
      then record s { curr_block = s.curr_block + 1 }
      else (send s.curr_block (cfg.transaction_indexing_enabled && not b.tx_indexed)
          (record s { blocks_in_db = delete_block s.curr_block s.blocks_in_db }))

  unfoldable pub body : Producer → Producer
  unfolding enqueue_new enqueue_known
  body s = elim (find_block s.curr_block s.blocks_in_db) [
    | none ↦ enqueue_new s
    | some b ↦ if not cfg.re_index then enqueue_known b s else enqueue_new s
  ]

  -- The inner loop's condition.
  abbrev pub more : Producer → Bool
  more s =
      ltb s.curr_block s.latest_block
      && within_end end_block s.curr_block
      && not (length s.queue == cap)

  outer_round : Option ℕ → Producer → Producer
  outer_round answer s =
      if past_end end_block s.curr_block
      then record s { phase = returned }
      else if cfg.exit_when_caught_up && ltb s.latest_block s.curr_block
      then record s { phase = returned }
      else if leb (length s.queue) (cap / 4)
      then (elim answer [
        | none ↦ record s { phase = failed }
        | some latest ↦ record s { latest_block = latest; phase = inner }
      ])
      else s

  inner_round : Producer → Producer
  inner_round s = if more s then body s else record s { phase = outer }

  -- A send to a full channel waits.
  reattempt_round : List EnqueueData → Producer → Producer
  reattempt_round [] s = record s { phase = outer }
  reattempt_round (b ∷ bs) s =
      if b.index_transactions
      then (if ltb (length s.queue) cap
          then record s {
            queue = s.queue ++ b ∷ [];
            resent = s.resent ++ b ∷ [];
            phase = reattempting bs;
          }
          else s)
      else record s { phase = reattempting bs }

  unfoldable pub produce_round : Phase → Option ℕ → Producer → Producer
  unfolding outer_round inner_round reattempt_round
  produce_round (reattempting bs) answer s = reattempt_round bs s
  produce_round outer answer s = outer_round answer s
  produce_round inner answer s = inner_round s
  produce_round returned answer s = s
  produce_round failed answer s = s

  unfoldable pub consume_round : List EnqueueData → Producer → Producer
  consume_round [] s = s
  consume_round (b ∷ bs) s = record s { queue = bs; received = s.received ++ b ∷ [] }

  unfoldable pub step : Move → Producer → Producer
  unfolding produce_round consume_round
  step (produce answer) s = produce_round s.phase answer s
  step consume s = consume_round s.queue s

  unfoldable pub run : List Move → Producer → Producer
  run [] s = s
  run (m ∷ ms) s = run ms (step m s)
