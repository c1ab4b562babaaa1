-- ===== src/Filter/MessageType.antt =====
-- filter/message_type_filters.go
use cosmos_indexer.Prelude.{Bool, not, String, Option, none, some, Result, ok, err, if◌then◌else◌}
use cosmos_indexer.Prelude.Text.{str_eq}
use cosmos_indexer.Filter.Regexp.{Regexp}

pub data FilterError : Type 0 where
  not_set bad_regex nil_regex out_of_range : FilterError

pub record MessageTypeData : Type 0 where
  pub message_type : String

module _ (r : Regexp) where
  -- The two implementations of the interface `MessageTypeFilter`.
  pub data MessageTypeFilter : Type 0 where
    default_message_type : String → MessageTypeFilter
    message_type_regex : String → Option r.Expr → MessageTypeFilter

  unfoldable pub message_type_matches :
      MessageTypeFilter → MessageTypeData → Result FilterError Bool
  message_type_matches (default_message_type t) d = ok (str_eq d.message_type t)
  message_type_matches (message_type_regex _ none) d = err nil_regex
  message_type_matches (message_type_regex _ (some e)) d = ok (r.match_string e d.message_type)

  -- `Valid`: `ok tt` for `true, nil`.
  unfoldable pub message_type_valid : MessageTypeFilter → Result FilterError (Unit {0})
  message_type_valid (default_message_type t) = if not (str_eq t "") then ok tt else err not_set
  message_type_valid (message_type_regex p none) = err not_set
  message_type_valid (message_type_regex p (some e)) =
      if not (str_eq p "") then ok tt else err not_set

  unfoldable pub new_regex_message_type_filter : String → Result FilterError MessageTypeFilter
  new_regex_message_type_filter p = elim (r.compile p) [
    | none ↦ err bad_regex
    | some e ↦ ok (message_type_regex p (some e))
  ]
