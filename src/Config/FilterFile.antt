-- ===== src/Config/FilterFile.antt =====
-- config/filter_config.go. `encoding/json` is a parameter: for each Go type that the parser reads, the
-- record read from a raw message, or nothing where it does not have that form.
pub mod Valid
use cosmos_indexer.Prelude.{
  ℕ, suc, ◌+◌, ◌≡◌, refl, Bool, true, false, ◌||◌, String, List, [], ◌∷◌, ◌++◌, Option, none, some,
  Result, ok, err, ◌>>=◌, if◌then◌else◌, >>=-eq-ok, All, All-append, length, length-append, arith,
  Bool-cases, inl, inr, ap,
}
use mathlib.Core.Path.{subst}
use cosmos_indexer.Prelude.Text.{str_eq}
use cosmos_indexer.Filter.Regexp.{Regexp}
use cosmos_indexer.Filter.MessageType.{
  FilterError, MessageTypeFilter, default_message_type, message_type_valid,
  new_regex_message_type_filter,
}
use cosmos_indexer.Filter.BlockEvent.{
  BlockEventFilter, event_type_filter, type_and_attribute_filter, valid,
  new_regex_block_event_filter, RollingWindowFilter, rolling_window_valid,
}

pub data ParserError : Type 0 where
  bad_json no_type unknown_type : ParserError
  invalid : FilterError → ParserError
  at_index at_subfilter : ℕ → ParserError → ParserError

pub record BlockEventFilterConfig (R : Type 0) : Type 0 where
  pub type_name : String
  pub subfilters : List R
  pub inclusive : Bool

-- What `json.Unmarshal` reads from a raw message, for each target of the parser.
pub record Json : Type 1 where
  pub Raw : Type 0
  pub block_event_filter_config : Raw → Option (BlockEventFilterConfig Raw)
  pub event_type : Raw → Option (String × Bool)
  pub type_and_attribute : Raw → Option (String × String × String × Bool)
  pub regex_event_type : Raw → Option (String × Bool)
  pub message_type_filter_config : Raw → Option String
  pub message_type : Raw → Option String
  pub message_type_regex : Raw → Option String

abbrev pub or_else : {E A : Type 0} → E → Option A → Result E A
or_else e none = err e
or_else e (some a) = ok a

-- `fmt.Errorf` around an inner error.
abbrev pub wrap : {E F A : Type 0} → (E → F) → Result E A → Result F A
wrap f (ok a) = ok a
wrap f (err e) = err (f e)

unfoldable pub single_block_event_filter_includes : String → Bool
single_block_event_filter_includes t =
    str_eq "event_type" t
    || str_eq "event_type_and_attribute_value" t
    || str_eq "regex_event_type" t

module _ (r : Regexp) (j : Json) where
  unfoldable pub parse_json_filter_config_from_type :
      String → j.Raw → Result ParserError (BlockEventFilter r)
  unfolding new_regex_block_event_filter
  parse_json_filter_config_from_type t raw =
      if str_eq t "event_type"
      then (or_else bad_json (j.event_type raw) >>= (λ f. ok (event_type_filter f.0 f.1)))
      else (if str_eq t "event_type_and_attribute_value"
          then (or_else bad_json (j.type_and_attribute raw)
              >>= (λ f. ok (type_and_attribute_filter f.0 f.1 f.2 f.3)))
          else (if str_eq t "regex_event_type"
              then (or_else bad_json (j.regex_event_type raw)
                  >>= (λ f. wrap invalid (new_regex_block_event_filter r f.0 f.1)))
              else err unknown_type))

  -- The loop over the subfilters of a rolling window.
  unfoldable pub parse_subfilters :
      ℕ → List j.Raw → List (BlockEventFilter r) → Result ParserError (List (BlockEventFilter r))
  unfolding parse_json_filter_config_from_type
  parse_subfilters i [] patterns = ok patterns
  parse_subfilters i (s ∷ ss) patterns =
      wrap (at_subfilter i) (
        or_else bad_json (j.block_event_filter_config s) >>= λ c.
        parse_json_filter_config_from_type c.type_name s)
      >>= λ p. parse_subfilters (suc i) ss (patterns ++ p ∷ [])

  pub record Lifecycle : Type 0 where
    pub single_event_filters : List (BlockEventFilter r)
    pub rolling_window_filters : List (RollingWindowFilter r)

  -- A filter that is valid joins the others.
  unfoldable pub add_rolling : RollingWindowFilter r → Lifecycle → Result ParserError Lifecycle
  add_rolling f l = wrap invalid (rolling_window_valid r f) >>= λ _.
      ok (record l { rolling_window_filters = l.rolling_window_filters ++ f ∷ [] })

  unfoldable pub add_single : BlockEventFilter r → Lifecycle → Result ParserError Lifecycle
  add_single f l = wrap invalid (valid r f) >>= λ _.
      ok (record l { single_event_filters = l.single_event_filters ++ f ∷ [] })

  -- The switch over the filter's type.
  unfoldable pub parse_switch :
      BlockEventFilterConfig j.Raw → j.Raw → Lifecycle → Result ParserError Lifecycle
  unfolding parse_subfilters single_block_event_filter_includes add_rolling add_single
  parse_switch c raw l =
      if str_eq c.type_name "rolling_window"
      then (parse_subfilters 0 c.subfilters [] >>= (λ patterns.
          add_rolling (record { event_patterns = patterns; include_matches = c.inclusive }) l))
      else (if single_block_event_filter_includes c.type_name
          then (parse_json_filter_config_from_type c.type_name raw >>= (λ f. add_single f l))
          else err unknown_type)

  -- One pass of the loop over the filters.
  unfoldable pub parse_one : j.Raw → Lifecycle → Result ParserError Lifecycle
  unfolding parse_switch
  parse_one raw l = or_else bad_json (j.block_event_filter_config raw) >>= λ c.
      if str_eq c.type_name "" then err no_type else parse_switch c raw l

  unfoldable pub parse_filters : ℕ → List j.Raw → Lifecycle → Result ParserError Lifecycle
  unfolding parse_one
  parse_filters i [] l = ok l
  parse_filters i (raw ∷ raws) l =
      wrap (at_index i) (parse_one raw l) >>= λ m. parse_filters (suc i) raws m

  unfoldable pub parse_lifecycle_config : List j.Raw → Result ParserError Lifecycle
  unfolding parse_filters
  parse_lifecycle_config raws =
      parse_filters 0 raws (record { single_event_filters = []; rolling_window_filters = [] })

  -- A message type filter that is valid.
  unfoldable pub checked : ℕ → MessageTypeFilter r → Result ParserError (MessageTypeFilter r)
  checked i f = wrap (λ e. at_index i (invalid e)) (message_type_valid r f) >>= λ _. ok f

  -- One message type filter. A message whose second reading fails gives the bare error.
  unfoldable pub parse_message_type_switch :
      ℕ → String → j.Raw → Result ParserError (MessageTypeFilter r)
  unfolding new_regex_message_type_filter checked
  parse_message_type_switch i t raw =
      if str_eq t "message_type"
      then (or_else bad_json (j.message_type raw) >>= (λ m. checked i (default_message_type m)))
      else (if str_eq t "message_type_regex"
          then (or_else bad_json (j.message_type_regex raw) >>= (λ p.
              wrap (λ e. at_index i (invalid e)) (new_regex_message_type_filter r p) >>= checked i))
          else err (at_index i unknown_type))

  unfoldable pub parse_message_type : ℕ → j.Raw → Result ParserError (MessageTypeFilter r)
  unfolding parse_message_type_switch
  parse_message_type i raw =
      or_else (at_index i bad_json) (j.message_type_filter_config raw) >>= λ t.
      if str_eq t "" then err (at_index i no_type) else parse_message_type_switch i t raw

  unfoldable pub parse_tx_message_type_config :
      ℕ → List j.Raw → List (MessageTypeFilter r) → Result ParserError (List (MessageTypeFilter r))
  unfolding parse_message_type
  parse_tx_message_type_config i [] fs = ok fs
  parse_tx_message_type_config i (raw ∷ raws) fs =
      parse_message_type i raw >>= λ f. parse_tx_message_type_config (suc i) raws (fs ++ f ∷ [])
