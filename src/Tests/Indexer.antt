-- ===== src/Tests/Indexer.antt =====
-- cmd/index.go, config/, core/, pkg/repository/: the indexer's other parts at concrete inputs.
use cosmos_indexer.Prelude.{
  ℕ, ◌≡◌, refl, true, false, String, List, [], ◌∷◌, ◌++◌, map, none, some, elem, arith,
  if◌then◌else◌, Result, ok, err, ◌>>=◌, is_ok,
}
use cosmos_indexer.Prelude.Int.{pos, sub_ℕ, minus_one}
use cosmos_indexer.Prelude.Text.{codes, str_eq}
use cosmos_indexer.Models.{Block}
use cosmos_indexer.Config.{IndexBase}
use cosmos_indexer.Filter.Regexp.{Regexp}
use cosmos_indexer.Enqueue.MessageType.{
  Tables, of_chain, enqueue_message_type, some_block, enqueue_message_type-elem,
}
use cosmos_indexer.Database.Queries.{get_highest_indexed_block}
use cosmos_indexer.Indexer.Process.{TxData}
use cosmos_indexer.Indexer.Aggregate.{
  TxEvents, TxDelegateAggregated, msg_delegate, msg_undelegate, save_aggregated,
}
use cosmos_indexer.Indexer.Aggregate.Amounts.{save_aggregated_amount}
use cosmos_indexer.Indexer.Updates.{Store}
use cosmos_indexer.Indexer.Updates.Loop.{rounds, Ended, rounds-Ended}
use cosmos_indexer.Repository.Amount.{is_digit, itoa, extract_number}
use cosmos_indexer.Repository.Amount.Read.{extract_number-printed}
use cosmos_indexer.Tx.Collect.{AnyMessage, StringEvent}
use cosmos_indexer.Tx.Signers.{PubKey, single}
use cosmos_indexer.Tx.Fees.{AuthFee}
use cosmos_indexer.Repository.Transactions.{TxResponse}
use cosmos_indexer.Tx.Row.{
  RowError, bad_time, RawAuthInfo, RawTx, TxRow, process_height_row, process_search_row,
}
use cosmos_indexer.Tx.Row.Same.{process_height_row-eq}

extract_number-printed_example :
    extract_number pos (itoa (pos 5) ++ codes "uatom") ≡ some (pos 5, codes "uatom")
unfolding is_digit
extract_number-printed_example =
    extract_number-printed pos (λ n h. refl) 5 (codes "uatom") (omega arith) refl

abbrev base : IndexBase
base = record {
  throttling = pos 0;
  reindex_message_type = "";
  reattempt_failed_blocks = false;
  start_block = pos 4;
  end_block = minus_one;
  block_input_file = "";
  re_index = false;
  transaction_indexing_enabled = true;
  exit_when_caught_up = false;
  filter_file = "";
}

abbrev a_block : ℕ → Block
a_block h = record {
  time_stamp = 60;
  height = h;
  chain_id = 1;
  proposer_cons_address = record { address = "val" };
  tx_indexed = true;
  total_txs = 1;
  block_hash = "AB";
  signatures = [];
}

abbrev tables : Tables
tables = record {
  blocks = (1, a_block 6) ∷ (2, a_block 7) ∷ [];
  txes = (1, 1) ∷ [];
  messages = (1, 1) ∷ [];
  message_types = (1, "/send") ∷ [];
}

enqueue_message_type-elem_example :
    elem 6 (map (λ b. b.height) (enqueue_message_type base tables 1 "/send" (pos 4) minus_one))
    ≡ some_block tables "/send" 6 (of_chain 1 (pos 4) (pos 7))
unfolding get_highest_indexed_block
enqueue_message_type-elem_example =
    enqueue_message_type-elem tables "/send" base 1 6 (pos 4) minus_one

abbrev store : Store (Unit {0}) ℕ
store = record {
  rows = [];
  failed = record { event_blocks = []; blocks = 6 ∷ [] };
  txs = [];
  block_events = [];
}

abbrev two_txs : List (TxData ℕ)
two_txs =
    record { tx_db_wrappers = 5 ∷ []; block = a_block 6 }
    ∷ record { tx_db_wrappers = []; block = a_block 7 }
    ∷ []

rounds-Ended_example : Ended (Unit {0}) ℕ two_txs [] store (
    rounds
      (Unit {0})
      ℕ
      4
      (λ n. true)
      (record { tx_data_chan = some two_txs; block_events_data_chan = some []; store = store }))
rounds-Ended_example =
    rounds-Ended (Unit {0}) ℕ 4 (λ n. true) (some two_txs) (some []) store (omega arith)

abbrev plain_texts : Regexp
plain_texts = record { Expr = String; compile = some; match_string = str_eq }

abbrev two_messages : List (AnyMessage ℕ)
two_messages =
    record { type_url = "/send"; value = 1 ∷ []; cached = some 1 }
    ∷ record { type_url = "/vote"; value = 2 ∷ []; cached = some 2 }
    ∷ []

abbrev an_event : StringEvent
an_event = record { type_name = "transfer"; attributes = [] }

abbrev fee : AuthFee
fee = record {
  amount = record { denom = "uatom"; amount = pos 5 } ∷ [];
  payer = "";
  granter = "";
  gas_limit = 200;
}

-- A public key is its address.
abbrev auth_info : RawAuthInfo String
auth_info = record {
  signer_infos = record { public_key = some "ann"; sequence = 3; mode_info = "" } ∷ [];
  fee = some fee;
  tip = some (record { amount = []; tipper = "bob" });
}

abbrev raw_tx : RawTx ℕ String
raw_tx = record {
  messages = two_messages;
  memo = "hi";
  timeout_height = 0;
  extension_options = "a" ∷ [];
  non_critical_extension_options = "b" ∷ [];
  auth_info = some auth_info;
  signatures = (1 ∷ []) ∷ [];
}

abbrev response : TxResponse
response = record {
  tx_hash = "AB";
  height = "6";
  time_stamp = "now";
  code = 0;
  gas_used = pos 150;
  gas_wanted = pos 200;
  codespace = "sdk";
  data_ = "";
  info = "fine";
}

abbrev parse_time : String → Result RowError ℕ
parse_time t = if str_eq t "now" then ok 7 else err bad_time

abbrev resolve : String → Result RowError PubKey
resolve k = ok (single k)

abbrev type_url : ℕ → String
type_url m = "/send"

abbrev height_row : Result RowError (TxRow ℕ)
height_row =
    process_height_row plain_texts [] (λ a. none) (λ m. true) (λ m. "ann" ∷ []) type_url parse_time
      resolve (λ a. true) ((an_event ∷ []) ∷ [] ∷ []) [] response raw_tx

abbrev search_row : Result RowError (TxRow ℕ)
search_row =
    process_search_row plain_texts [] (λ a. none) (λ m. true) (λ m. "ann" ∷ []) type_url parse_time
      resolve (λ a. true) ((an_event ∷ []) ∷ [] ∷ []) response raw_tx

process_height_row-eq_example :
    height_row
    ≡ (search_row >>= λ row. ok (record row { tx_response = record response { data_ = "" } }))
process_height_row-eq_example =
    process_height_row-eq plain_texts [] (λ a. none) (λ m. true) (λ m. "ann" ∷ []) type_url
      parse_time resolve (λ a. true) ((an_event ∷ []) ∷ [] ∷ []) [] response raw_tx auth_info fee
      refl (omega arith) ((1, refl, refl), ((2, refl, refl), tt)) refl refl refl

height_row_ok : is_ok height_row ≡ true
unfolding process_height_row
height_row_ok = refl

abbrev an_amount : TxEvents
an_amount = record {
  message_type = msg_undelegate;
  event_index = pos 0;
  type_name = "coin_received";
  index = pos 1;
  key = "amount";
  value = itoa (pos 5) ++ codes "uatom";
}

-- An undelegation of 5uatom.
save_aggregated_amount_example :
    (row : TxDelegateAggregated) × (save_aggregated pos (an_amount ∷ []) ≡ some row)
    × (row.amount ≡ (if str_eq msg_undelegate msg_delegate then pos 5 else sub_ℕ 0 5))
    × (row.denom ≡ codes "uatom")
unfolding is_digit
save_aggregated_amount_example =
    save_aggregated_amount pos (λ n h. refl) 5 (codes "uatom") [] [] an_amount (omega arith) refl
      refl refl refl refl refl refl
