-- ===== src/Tests/Transactions.antt =====
-- core/block_events.go, core/tx/, config/filter_config.go, at concrete inputs.
use cosmos_indexer.Prelude.{
  ℕ, ◌≡◌, refl, Bool, true, false, not, String, List, [], ◌∷◌, map, Option, none, some, Result, ok,
  is_ok, arith, All, select, if◌then◌else◌,
}
use cosmos_indexer.Prelude.Int.{pos, eqb_ℤ}
use cosmos_indexer.Prelude.Text.{str_eq}
use cosmos_indexer.Models.{Block, begin_block_event}
use cosmos_indexer.Filter.Regexp.{Regexp}
use cosmos_indexer.Filter.MessageType.{default_message_type}
use cosmos_indexer.Filter.BlockEvent.{
  BlockEventFilter, event_type_filter, regex_event_type_filter, Registry, valid,
}
use cosmos_indexer.Events.{BlockEventDbWrapper}
use cosmos_indexer.Events.Process.{AbciEvent, CustomParser, Uniques, process_events, find_parsers}
use cosmos_indexer.Events.Rows.{process_events-is_ok}
use cosmos_indexer.Events.Filtering.{filter_rpc_block_events}
use cosmos_indexer.Events.Verdicts.{
  kept, decided, verdicts, keep_by, filter_rpc_block_events-eq-decided,
}
use cosmos_indexer.Config.FilterFile.{Json, Lifecycle, parse_lifecycle_config}
use cosmos_indexer.Config.FilterFile.Valid.{ValidLifecycle, parse_lifecycle_config-Valid}
use cosmos_indexer.Tx.Fees.{AuthFee, coin_of, Charged, process_fees, process_fees_correct}
use cosmos_indexer.Tx.Signers.{
  PubKey, single, multisig, SignerInfo, process_signers, first_seen, process_signers-first_seen,
}
use cosmos_indexer.Tx.Messages.{TxDbWrapper, process_tx}
use cosmos_indexer.Tx.Collect.{AnyMessage, StringEvent, Collected, collect_messages}
use cosmos_indexer.Tx.Collect.Rows.{rows_from, entries, stored_rows-eq}
use cosmos_indexer.Tx.Collect.Shifted.{shifted_row-eq}

-- Expressions that are plain texts.
abbrev literal : Regexp
literal = record { Expr = String; compile = some; match_string = str_eq }

abbrev a_block : Block
a_block = record {
  time_stamp = 60;
  height = 6;
  chain_id = 1;
  proposer_cons_address = record { address = "val" };
  tx_indexed = true;
  total_txs = 0;
  block_hash = "AB";
  signatures = [];
}

abbrev event : ℕ → String → BlockEventDbWrapper String
event i t = record {
  block_event = record {
    index = i;
    lifecycle_position = begin_block_event;
    block = a_block;
    block_event_type = record { type_name = t };
  };
  attributes = [];
  block_event_parsed_datasets = [];
}

abbrev events : List (BlockEventDbWrapper String)
events = event 0 "mint" ∷ event 1 "burn" ∷ []

abbrev filters : List (BlockEventFilter literal)
filters =
    event_type_filter "mint" true
    ∷ regex_event_type_filter "mint" (some "mint") false
    ∷ event_type_filter "burn" true
    ∷ []

abbrev registry : Registry literal
registry = record {
  block_event_filters = filters;
  rolling_window_event_filters = record { event_patterns = filters; include_matches = true } ∷ [];
}

filter_rpc_block_events-eq-decided_example :
    filter_rpc_block_events literal String registry events
    ≡ ok (
        keep_by literal String
          (λ j. kept (decided (verdicts literal String registry events 0 events) j))
          0
          events)
filter_rpc_block_events-eq-decided_example =
    filter_rpc_block_events-eq-decided literal String registry events
      (record { single = (tt, (tt, (tt, tt))); windows = ((tt, (tt, (tt, tt))), tt) }) refl

abbrev abci : List AbciEvent
abci = record { type_name = "mint"; attributes = record { key = "k"; value = "v" } ∷ [] } ∷ []

abbrev none_yet : Uniques
none_yet = record { event_types = []; attribute_keys = [] }

process_events-is_ok_example :
    is_ok (process_events some {D = String} a_block begin_block_event [] 1 0 abci none_yet) ≡ true
unfolding find_parsers
process_events-is_ok_example =
    process_events-is_ok some a_block begin_block_event [] 1 0 abci none_yet

abbrev row : BlockEventDbWrapper String
row = record {
  block_event = record {
    index = 0;
    lifecycle_position = begin_block_event;
    block = a_block;
    block_event_type = record { type_name = "mint" };
  };
  attributes =
      record { value = "v"; index = 0; block_event_attribute_key = record { key = "k" } } ∷ [];
  block_event_parsed_datasets = [];
}

abbrev seen : Uniques
seen = record { event_types = "mint" ∷ []; attribute_keys = "k" ∷ [] }

abbrev parser : CustomParser String
parser = record { identifier = "p"; parse_block_event = λ e. e.type_name }

abbrev mint_and_burn : List AbciEvent
mint_and_burn =
    record { type_name = "mint"; attributes = [] }
    ∷ record { type_name = "burn"; attributes = [] }
    ∷ []

abbrev fee : AuthFee
fee = record {
  amount = record { denom = "u"; amount = pos 3 } ∷ record { denom = "v"; amount = pos 0 } ∷ [];
  payer = "";
  granter = "";
  gas_limit = 9;
}

process_fees_correct_example :
    (map coin_of (process_fees (some fee) (record { address = "a" } ∷ []))
      ≡ select (λ c. not (eqb_ℤ (pos 0) c.amount)) fee.amount)
    × All
        (Charged "" (record { address = "a" } ∷ []))
        (process_fees (some fee) (record { address = "a" } ∷ []))
process_fees_correct_example = process_fees_correct fee (record { address = "a" } ∷ [])

abbrev keys : String → Result String PubKey
keys k = if str_eq k "both" then ok (multisig ("a" ∷ "b" ∷ [])) else ok (single k)

process_signers-first_seen_example :
    (rows : List SignerInfo) × (process_signers keys
        (record { public_key = some "both"; sequence = 1; mode_info = "" } ∷ [])
        ("b" ∷ "c" ∷ [])
        "a"
      ≡ ok (first_seen [] ("a" ∷ "b" ∷ "b" ∷ "c" ∷ "a" ∷ []), rows))
process_signers-first_seen_example =
    process_signers-first_seen keys
      (record { public_key = some "both"; sequence = 1; mode_info = "" } ∷ []) ("b" ∷ "c" ∷ []) "a"
      (refl, tt)

abbrev url : String → String
url m = m

abbrev clock : String → Result String ℕ
clock s = ok 5

abbrev unpack : AnyMessage String → Option String
unpack a = none

abbrev send : AnyMessage String
send = record { type_url = "/send"; value = 1 ∷ []; cached = some "send" }

abbrev vote : AnyMessage String
vote = record { type_url = "/vote"; value = 2 ∷ []; cached = some "vote" }

abbrev unknown : AnyMessage String
unknown = record { type_url = "/new"; value = 3 ∷ []; cached = none }

abbrev node_logs : List (List StringEvent)
node_logs = [] ∷ (record { type_name = "vote"; attributes = [] } ∷ []) ∷ []

abbrev collected : Collected String
collected = record {
  messages = none ∷ some "vote" ∷ [];
  logs =
      record { message_index = 0; events = [] }
      ∷ record { message_index = 1; events = record { type_name = "vote"; attributes = [] } ∷ [] }
      ∷ [];
  raws = [] ∷ (2 ∷ []) ∷ [];
}

stored_rows-eq_example :
    (tx : TxDbWrapper ℕ) × (process_tx url clock "t" "AB" 0 collected.logs collected.messages
        collected.raws
      ≡ ok tx)
    × (tx.messages
        ≡ rows_from url 0 (
            entries literal unpack
              (default_message_type "/vote" ∷ [])
              node_logs
              0
              (send ∷ vote ∷ [])))
unfolding collect_messages
stored_rows-eq_example =
    stored_rows-eq literal unpack (default_message_type "/vote" ∷ []) node_logs clock url "t" "AB" 5
      (send ∷ vote ∷ []) collected refl refl (refl, (refl, tt)) (omega arith)

shifted_row-eq_example :
    (c : Collected String) × (collect_messages literal unpack []
        ([] ∷ [] ∷ [])
        (unknown ∷ vote ∷ [])
      ≡ ok c)
    × ((tx : TxDbWrapper ℕ) × (process_tx url clock "t" "AB" 0 c.logs c.messages c.raws ≡ ok tx)
        × (tx.messages
            ≡ record {
              message_type = "vote";
              message_index = 0;
              message_bytes = 3 ∷ [];
              message_events = [];
            }
              ∷ []))
shifted_row-eq_example =
    shifted_row-eq literal unpack clock url "t" "AB" 5 unknown vote "vote" [] [] refl refl refl refl

-- A filter file with one entry.
abbrev file : Json
file = record {
  Raw = Bool;
  block_event_filter_config =
      λ r. some (record { type_name = "event_type"; subfilters = []; inclusive = true });
  event_type = λ r. some ("mint", true);
  type_and_attribute = λ r. none;
  regex_event_type = λ r. none;
  message_type_filter_config = λ r. none;
  message_type = λ r. none;
  message_type_regex = λ r. none;
}

abbrev parsed : Lifecycle literal file
parsed = record {
  single_event_filters = event_type_filter "mint" true ∷ [];
  rolling_window_filters = [];
}

parse_lifecycle_config-Valid_example : ValidLifecycle literal file 1 parsed
unfolding parse_lifecycle_config valid
parse_lifecycle_config-Valid_example =
    parse_lifecycle_config-Valid literal file (true ∷ []) parsed refl
