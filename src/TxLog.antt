-- ===== src/TxLog.antt =====
-- cosmos/modules/tx/types.go, logic.go: the log messages of a transaction, and the functions that
-- look up their events. A nil pointer is `none`, and a nil slice of events is the empty list.
pub mod Transfer
pub mod Coins
pub mod Values
use cosmos_indexer.Prelude.{
  ℕ, Bool, true, false, String, List, [], ◌∷◌, ◌++◌, Option, none, some, ◌==◌, if◌then◌else◌,
}
use cosmos_indexer.Prelude.Text.{str_eq}

pub record Attribute : Type 0 where
  pub key : String
  pub value : String

pub record LogMessageEvent : Type 0 where
  pub type_name : String
  pub attributes : List Attribute

pub record LogMessage : Type 0 where
  pub message_index : ℕ
  pub events : List LogMessageEvent

unfoldable pub get_message_log_for_index : List LogMessage → ℕ → Option LogMessage
get_message_log_for_index [] index = none
get_message_log_for_index (log ∷ logs) index =
    if log.message_index == index then some log else get_message_log_for_index logs index

unfoldable pub first_with_type : String → List LogMessageEvent → Option LogMessageEvent
first_with_type t [] = none
first_with_type t (e ∷ es) = if str_eq e.type_name t then some e else first_with_type t es

unfoldable pub get_event_with_type : String → Option LogMessage → Option LogMessageEvent
unfolding first_with_type
get_event_with_type t none = none
get_event_with_type t (some msg) = first_with_type t msg.events

unfoldable pub collect_with_type :
    String → List LogMessageEvent → List LogMessageEvent → List LogMessageEvent
collect_with_type t [] out = out
collect_with_type t (e ∷ es) out =
    collect_with_type t es (if str_eq e.type_name t then out ++ e ∷ [] else out)

unfoldable pub get_all_events_with_type : String → Option LogMessage → List LogMessageEvent
unfolding collect_with_type
get_all_events_with_type t none = []
get_all_events_with_type t (some msg) = collect_with_type t msg.events []
