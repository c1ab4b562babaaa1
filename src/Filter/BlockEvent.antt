-- ===== src/Filter/BlockEvent.antt =====
-- filter/static_block_event_filters.go, block_event_filter_registry.go
use cosmos_indexer.Prelude.{
  ℕ, ◌+◌, Bool, true, false, not, ◌&&◌, String, List, [], ◌∷◌, ◌++◌, Option, none, some, Result, ok,
  err, if◌then◌else◌, ltb, length, ◌>>=◌,
}
use cosmos_indexer.Prelude.Text.{str_eq}
use cosmos_indexer.Models.{BlockEvent, BlockEventAttribute}
use cosmos_indexer.Filter.Regexp.{Regexp}
use cosmos_indexer.Filter.MessageType.{FilterError, not_set, bad_regex, nil_regex, out_of_range}

pub record EventData : Type 0 where
  pub event : BlockEvent
  pub attributes : List BlockEventAttribute

abbrev pub event_type : EventData → String
event_type d = d.event.block_event_type.type_name

-- The loop over the attributes.
unfoldable pub has_attribute : String → String → List BlockEventAttribute → Bool
has_attribute key value [] = false
has_attribute key value (a ∷ as_) =
    if str_eq a.block_event_attribute_key.key key && str_eq a.value value
    then true
    else has_attribute key value as_

module _ (r : Regexp) where
  -- The implementations of the interface `BlockEventFilter`; the last field is `Inclusive`.
  pub data BlockEventFilter : Type 0 where
    event_type_filter : String → Bool → BlockEventFilter
    regex_event_type_filter : String → Option r.Expr → Bool → BlockEventFilter
    type_and_attribute_filter : String → String → String → Bool → BlockEventFilter

  unfoldable pub event_matches : BlockEventFilter → EventData → Result FilterError Bool
  unfolding has_attribute
  event_matches (event_type_filter t _) d = ok (str_eq (event_type d) t)
  event_matches (regex_event_type_filter _ none _) d = err nil_regex
  event_matches (regex_event_type_filter _ (some e) _) d = ok (r.match_string e (event_type d))
  event_matches (type_and_attribute_filter t k v _) d =
      ok (if not (str_eq (event_type d) t) then false else has_attribute k v d.attributes)

  unfoldable pub include_match : BlockEventFilter → Bool
  include_match (event_type_filter _ i) = i
  include_match (regex_event_type_filter _ _ i) = i
  include_match (type_and_attribute_filter _ _ _ i) = i

  -- `Valid`: `ok tt` for `true, nil`.
  unfoldable pub valid : BlockEventFilter → Result FilterError (Unit {0})
  valid (event_type_filter t _) = if not (str_eq t "") then ok tt else err not_set
  valid (regex_event_type_filter p none _) = err not_set
  valid (regex_event_type_filter p (some e) _) = if not (str_eq p "") then ok tt else err not_set
  valid (type_and_attribute_filter t k v _) =
      if not (str_eq t "") && not (str_eq k "") && not (str_eq v "") then ok tt else err not_set

  unfoldable pub new_regex_block_event_filter : String → Bool → Result FilterError BlockEventFilter
  new_regex_block_event_filter p i = elim (r.compile p) [
    | none ↦ err bad_regex
    | some e ↦ ok (regex_event_type_filter p (some e) i)
  ]

  -- `DefaultRollingWindowBlockEventFilter`.
  pub record RollingWindowFilter : Type 0 where
    pub event_patterns : List BlockEventFilter
    pub include_matches : Bool

  abbrev pub rolling_window_length : RollingWindowFilter → ℕ
  rolling_window_length f = length f.event_patterns

  -- The loop of `EventsMatch`: pattern i against event i, an index out of range where the events are
  -- too few.
  unfoldable pub patterns_match : List BlockEventFilter → List EventData → Result FilterError Bool
  patterns_match [] events = ok true
  patterns_match (p ∷ ps) [] = err out_of_range
  patterns_match (p ∷ ps) (e ∷ es) =
      let rest = patterns_match ps es in
      event_matches p e >>= λ matches. if not matches then ok false else rest

  unfoldable pub events_match : RollingWindowFilter → List EventData → Result FilterError Bool
  unfolding patterns_match
  events_match f events =
      if ltb (length events) (rolling_window_length f)
      then ok false
      else patterns_match f.event_patterns events

  unfoldable pub all_valid : List BlockEventFilter → Result FilterError (Unit {0})
  all_valid [] = ok tt
  all_valid (p ∷ ps) = let rest = all_valid ps in valid p >>= λ _. rest

  unfoldable pub rolling_window_valid : RollingWindowFilter → Result FilterError (Unit {0})
  unfolding all_valid
  rolling_window_valid f = elim (f.event_patterns) [
    | [] ↦ err not_set
    | p ∷ ps ↦ all_valid (p ∷ ps)
  ]

  pub record Registry : Type 0 where
    pub block_event_filters : List BlockEventFilter
    pub rolling_window_event_filters : List RollingWindowFilter

  unfoldable pub register_block_event_filter : BlockEventFilter → Registry → Registry
  register_block_event_filter f g = record g {
    block_event_filters = g.block_event_filters ++ f ∷ [];
  }

  unfoldable pub register_rolling_window_filter : RollingWindowFilter → Registry → Registry
  register_rolling_window_filter f g = record g {
    rolling_window_event_filters = g.rolling_window_event_filters ++ f ∷ [];
  }

  unfoldable pub num_filters : Registry → ℕ
  num_filters g = length g.block_event_filters + length g.rolling_window_event_filters
