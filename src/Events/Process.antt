-- ===== src/Events/Process.antt =====
-- core/block_events.go, ProcessRPCBlockEvents and ProcessRPCBlockResults. An event of the package
-- abci is its type and its attributes; base64 decoding and the custom parsers are parameters. The
-- maps of unique types and keys hold nothing beside their keys.
use cosmos_indexer.Prelude.{
  ℕ, suc, String, List, [], ◌∷◌, ◌++◌, Option, none, some, Result, ok, err, ◌>>=◌, if◌then◌else◌,
  leb, length,
}
use cosmos_indexer.Prelude.Text.{str_eq, add_key}
use cosmos_indexer.Models.{
  Block, BlockLifecyclePosition, begin_block_event, end_block_event, BlockEventAttribute,
}
use cosmos_indexer.Events.{BlockEventDbWrapper}

pub record AbciAttribute : Type 0 where
  pub key : String
  pub value : String

pub record AbciEvent : Type 0 where
  pub type_name : String
  pub attributes : List AbciAttribute

-- What DecodeString rejects, the value or the key of an attribute, and the panic of an index that is out
-- of range.
pub data DecodeError : Type 0 where
  bad_value bad_key : String → DecodeError
  out_of_range : DecodeError

pub record CustomParser (D : Type 0) : Type 0 where
  pub identifier : String
  pub parse_block_event : AbciEvent → D

module _ {D : Type 0} where
  unfoldable pub find_parsers :
      String → List (String × List (CustomParser D)) → List (CustomParser D)
  find_parsers t [] = []
  find_parsers t ((s, ps) ∷ rest) = if str_eq s t then ps else find_parsers t rest

  -- `beginBlockEvents[index]` in the loop over the parsers, where `index` is the parser's: there is such
  -- a row for every parser, or the loop panics.
  unfoldable pub fits : ℕ → List (CustomParser D) → Result DecodeError (Unit {0})
  fits total ps = if leb (length ps) total then ok tt else err out_of_range

  -- The dataset of parser 0 goes to the first row, that of parser 1 to the second, and so on.
  unfoldable pub append_datasets :
      AbciEvent
      → List (CustomParser D)
      → List (BlockEventDbWrapper D)
      → List (BlockEventDbWrapper D)
  append_datasets e [] rows = rows
  append_datasets e (p ∷ ps) [] = []
  append_datasets e (p ∷ ps) (row ∷ rows) =
      record row {
        block_event_parsed_datasets =
            row.block_event_parsed_datasets
            ++ record { parsed = p.parse_block_event e; parser = p.identifier } ∷ [];
      }
      ∷ append_datasets e ps rows

  unfoldable pub all_datasets :
      List (String × List (CustomParser D))
      → List AbciEvent
      → List (BlockEventDbWrapper D)
      → List (BlockEventDbWrapper D)
  unfolding append_datasets find_parsers
  all_datasets parsers [] rows = rows
  all_datasets parsers (e ∷ es) rows =
      all_datasets parsers es (append_datasets e (find_parsers e.type_name parsers) rows)

-- The two maps that the calls for the two lifecycle positions share.
pub record Uniques : Type 0 where
  pub event_types : List String
  pub attribute_keys : List String

-- db.BlockDBWrapper
pub record BlockDbWrapper (D : Type 0) : Type 0 where
  pub block : Block
  pub begin_block_events : List (BlockEventDbWrapper D)
  pub end_block_events : List (BlockEventDbWrapper D)
  pub uniques : Uniques

module _ (decode : String → Option String) where
  unfoldable pub decode_attribute : ℕ → AbciAttribute → Result DecodeError BlockEventAttribute
  decode_attribute index a = elim (decode a.value) [
    | none ↦ err (bad_value a.value)
    | some value ↦ elim (decode a.key) [
      | none ↦ err (bad_key a.key)
      | some key ↦ ok (record {
        value = value;
        index = index;
        block_event_attribute_key = record { key = key };
      })
    ]
  ]

  -- The rows of the attributes from `index` on, and the map of unique keys after them.
  unfoldable pub process_attributes :
      ℕ
      → List AbciAttribute
      → List String
      → Result DecodeError (List BlockEventAttribute × List String)
  unfolding decode_attribute
  process_attributes index [] keys = ok ([], keys)
  process_attributes index (a ∷ as_) keys = decode_attribute index a >>= λ row.
      process_attributes (suc index) as_ (add_key row.block_event_attribute_key.key keys)
      >>= λ (rows, keys'). ok (row ∷ rows, keys')

  module _ {D : Type 0} (block : Block) where
    -- The loop over the events, but for the datasets, which the rows get from `all_datasets`: no other
    -- statement reads them.
    unfoldable pub process_events :
        BlockLifecyclePosition
        → List (String × List (CustomParser D))
        → ℕ
        → ℕ
        → List AbciEvent
        → Uniques
        → Result DecodeError (List (BlockEventDbWrapper D) × Uniques)
    unfolding process_attributes fits find_parsers
    process_events position parsers total index [] u = ok ([], u)
    process_events position parsers total index (e ∷ es) u =
        process_attributes 0 e.attributes u.attribute_keys >>= λ (attributes, keys).
        fits total (find_parsers e.type_name parsers) >>= λ _.
        process_events position parsers total (suc index) es
          (record { event_types = add_key e.type_name u.event_types; attribute_keys = keys })
        >>= λ (rows, u'). ok (
          record {
            block_event = record {
              index = index;
              lifecycle_position = position;
              block = block;
              block_event_type = record { type_name = e.type_name };
            };
            attributes = attributes;
            block_event_parsed_datasets = [];
          }
              ∷ rows,
          u',
        )

    unfoldable pub process_rpc_block_events :
        BlockLifecyclePosition
        → List (String × List (CustomParser D))
        → List AbciEvent
        → Uniques
        → Result DecodeError (List (BlockEventDbWrapper D) × Uniques)
    unfolding process_events all_datasets
    process_rpc_block_events position parsers es u =
        process_events position parsers (length es) 0 es u >>= λ (rows, u').
        ok (all_datasets parsers es rows, u')

    unfoldable pub process_rpc_block_results :
        List AbciEvent
        → List AbciEvent
        → List (String × List (CustomParser D))
        → List (String × List (CustomParser D))
        → Result DecodeError (BlockDbWrapper D)
    unfolding process_rpc_block_events
    process_rpc_block_results begin_events end_events begin_parsers end_parsers =
        process_rpc_block_events begin_block_event begin_parsers begin_events
          (record { event_types = []; attribute_keys = [] })
        >>= λ (begins, u).
            process_rpc_block_events end_block_event end_parsers end_events u >>= λ (ends, u').
            ok (record {
              block = block;
              begin_block_events = begins;
              end_block_events = ends;
              uniques = u';
            })
