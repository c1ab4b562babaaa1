-- ===== src/Tests/Blocks.antt =====
-- core/block_enqueue.go, cmd/index.go, pkg/repository/blocks.go, at concrete inputs.
use cosmos_indexer.Prelude.{
  ◌-◌, ◌≡◌, ◌≢◌, ◌<◌, ◌≤◌, refl, Bool, true, false, List, [], ◌∷◌, none, some, arith, All,
}
use cosmos_indexer.Prelude.Int.{pos, minus_one}
use cosmos_indexer.Config.{IndexBase}
use cosmos_indexer.Enqueue.Default.{Setup, returned, Move, produce, consume, start, run}
use cosmos_indexer.Enqueue.Default.Coverage.{wanted, db_of, sent-eq-wanted}
use cosmos_indexer.Enqueue.Default.Exit.{returned_complete, sent-below-tip, caught_up_never_returns}
use cosmos_indexer.Enqueue.Default.Liveness.{rounds, returns_past_end}
use cosmos_indexer.Indexer.Chunks.{
  calculate_goroutines, IsPartition, calculate_goroutines-IsPartition,
}

abbrev cfg : Bool → IndexBase
cfg exits = record {
  throttling = pos 0;
  reindex_message_type = "";
  reattempt_failed_blocks = true;
  start_block = pos 5;
  end_block = pos 7;
  block_input_file = "";
  re_index = false;
  transaction_indexing_enabled = true;
  exit_when_caught_up = exits;
  filter_file = "";
}

-- Block 6 is indexed already, and block 2 failed.
abbrev set_up : Setup
set_up = record {
  first_block = 5;
  blocks_from_start =
      record {
        time_stamp = 60;
        height = 6;
        chain_id = 1;
        proposer_cons_address = record { address = "val" };
        tx_indexed = true;
        total_txs = 0;
        block_hash = "AB";
        signatures = [];
      }
      ∷ [];
  failed_blocks = record { height = 2; index_transactions = true } ∷ [];
}

abbrev moves : List Move
moves =
    produce none
    ∷ produce none
    ∷ produce (some 9)
    ∷ produce none
    ∷ consume
    ∷ produce none
    ∷ produce none
    ∷ []

sent-eq-wanted_example :
    (run (cfg false) (pos 7) [] 4 moves (start set_up)).sent
    ≡ wanted
        (cfg false)
        []
        (db_of set_up)
        5
        ((run (cfg false) (pos 7) [] 4 moves (start set_up)).curr_block - 5)
sent-eq-wanted_example = sent-eq-wanted (cfg false) (pos 7) [] 4 set_up moves

returns_past_end_example :
    (run (cfg false) (pos 7) [] 4 (rounds 9 8) (start set_up)).phase ≡ returned
returns_past_end_example =
    returns_past_end (cfg false) 7 [] 4 9 set_up 8 (omega arith) (omega arith) (omega arith)
      (omega arith)

returned_complete_example :
    (run (cfg false) (pos 7) [] 4 (rounds 9 8) (start set_up)).sent
    ≡ wanted (cfg false) [] (db_of set_up) 5 3
returned_complete_example =
    returned_complete (cfg false) 7 [] 4 set_up (rounds 9 8) refl (omega arith) (
      returns_past_end (cfg false) 7 [] 4 9 set_up 8 (omega arith) (omega arith) (omega arith)
        (omega arith))

sent-below-tip_example :
    All
      (λ b. (5 ≤ b.height) × (b.height < 9))
      (run (cfg false) (pos 7) [] 4 moves (start set_up)).sent
sent-below-tip_example =
    sent-below-tip (cfg false) (pos 7) [] 4 set_up moves (omega arith) (omega arith, tt)

caught_up_never_returns_example :
    (run (cfg true) minus_one [] 4 moves (start set_up)).phase ≢ returned
caught_up_never_returns_example =
    caught_up_never_returns (cfg true) [] 4 set_up moves (omega arith) (omega arith, tt)

calculate_goroutines-IsPartition_example :
    IsPartition 4 (calculate_goroutines 1 10 4).0 10 (calculate_goroutines 1 10 4).1
calculate_goroutines-IsPartition_example =
    calculate_goroutines-IsPartition 1 10 4 (omega arith) (omega arith)
