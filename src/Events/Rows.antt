-- ===== src/Events/Rows.antt =====
-- core/block_events.go: what ProcessRPCBlockEvents makes of the events of a block.
use cosmos_indexer.Prelude.{
  ℕ, zero, suc, ◌≡◌, refl, ap, sym, ◌∙◌, Bool, true, ◌&&◌, ◌||◌, String, List, [], ◌∷◌, ◌++◌, map,
  Option, ok, >>=-eq-ok, is_ok, is_ok->>=, is_some, leb, length, arith, All,
}
use mathlib.Core.List.{append-nil, append_assoc}
use cosmos_indexer.Prelude.Text.{str_elem, add_key, str_elem-add_key}
use cosmos_indexer.Models.{Block, BlockLifecyclePosition, BlockEventAttribute}
use cosmos_indexer.Events.{BlockEventDbWrapper}
use cosmos_indexer.Events.Process.{
  AbciAttribute, AbciEvent, CustomParser, Uniques, decode_attribute, process_attributes,
  process_events, append_datasets, all_datasets, fits, find_parsers,
}

module _ {D : Type 0} (parsers : List (String × List (CustomParser D))) (p : CustomParser D) where
  -- Where every event has one parser, the datasets of all the events stand on the first row, and the
  -- other rows have gained none.
  pub all_datasets-first_row :
      (es : List AbciEvent) (row : BlockEventDbWrapper D) (rows : List (BlockEventDbWrapper D))
      → All (λ e. find_parsers e.type_name parsers ≡ p ∷ []) es
      → all_datasets parsers es (row ∷ rows)
        ≡ record row {
          block_event_parsed_datasets =
              row.block_event_parsed_datasets
              ++ map (λ e. record { parsed = p.parse_block_event e; parser = p.identifier }) es;
        }
          ∷ rows
  unfolding all_datasets append_datasets
  all_datasets-first_row [] row rows h =
      ap (λ ds. record row { block_event_parsed_datasets = ds } ∷ rows)
        (sym (append-nil row.block_event_parsed_datasets))
  all_datasets-first_row (e ∷ es) row rows h =
      rw (all_datasets, append_datasets, h.0)
        (all_datasets-first_row es _ rows h.1
          ∙ ap (λ ds. record row { block_event_parsed_datasets = ds } ∷ rows)
              (append_assoc row.block_event_parsed_datasets
                (record { parsed = p.parse_block_event e; parser = p.identifier } ∷ []) _))

-- `from`, `from + 1`, …: `n` numbers.
abbrev pub count_up : ℕ → ℕ → List ℕ
count_up from zero = []
count_up from (suc n) = from ∷ count_up (suc from) n

module _ (decode : String → Option String) where
  abbrev pub decodable : List AbciAttribute → Bool
  decodable [] = true
  decodable (a ∷ as_) = is_some (decode a.value) && is_some (decode a.key) && decodable as_

  decode_attribute-is_ok :
      (index : ℕ) (a : AbciAttribute)
      → is_ok (decode_attribute decode index a)
        ≡ (is_some (decode a.value) && is_some (decode a.key))
  unfolding decode_attribute
  decode_attribute-is_ok index a = ground arith

  process_attributes-is_ok :
      (index : ℕ) (as_ : List AbciAttribute) (keys : List String)
      → is_ok (process_attributes decode index as_ keys) ≡ decodable as_
  unfolding process_attributes
  process_attributes-is_ok index [] keys = refl
  process_attributes-is_ok index (a ∷ as_) keys =
      is_ok->>= _ _ (decodable as_) (λ row.
        is_ok->>=
          (process_attributes decode (suc index) as_
            (add_key row.block_event_attribute_key.key keys))
          _ true (λ p. refl)
        ∙ rw
            (process_attributes-is_ok (suc index) as_
              (add_key row.block_event_attribute_key.key keys))
            (ground arith))
      ∙ rw (decode_attribute-is_ok index a) (ground arith)

  module _ {D : Type 0} (block : Block) (position : BlockLifecyclePosition)
      (parsers : List (String × List (CustomParser D))) (total : ℕ) where
    abbrev pub all_processable : List AbciEvent → Bool
    all_processable [] = true
    all_processable (e ∷ es) =
        decodable e.attributes
        && (leb (length (find_parsers e.type_name parsers)) total && all_processable es)

    fits-is_ok : (ps : List (CustomParser D)) → is_ok (fits total ps) ≡ leb (length ps) total
    unfolding fits
    fits-is_ok ps = ground arith

    -- Processing fails exactly when some attribute of some event does not decode, or some event has more
    -- parsers than there are rows.
    pub process_events-is_ok :
        (index : ℕ) (es : List AbciEvent) (u : Uniques)
        → is_ok (process_events decode block position parsers total index es u) ≡ all_processable es
    unfolding process_events
    process_events-is_ok index [] u = refl
    process_events-is_ok index (e ∷ es) u =
        let ps = find_parsers e.type_name parsers in
        is_ok->>= (process_attributes decode 0 e.attributes u.attribute_keys) _
          (leb (length ps) total && all_processable es)
          (λ p.
            is_ok->>= (fits total ps) _ (all_processable es) (λ _.
              is_ok->>= (process_events decode block position parsers total (suc index) es _) _ true
                (λ q. refl)
              ∙ rw (process_events-is_ok (suc index) es _) (ground arith))
            ∙ rw (fits-is_ok ps) refl)
        ∙ rw (process_attributes-is_ok 0 e.attributes u.attribute_keys) refl

    pub record RowsOf (index : ℕ) (es : List AbciEvent) (u : Uniques)
        (rows : List (BlockEventDbWrapper D)) (u' : Uniques) : Type 0 where
      pub indices : map (λ w. w.block_event.index) rows ≡ count_up index (length es)
      pub types :
          map (λ w. w.block_event.block_event_type.type_name) rows ≡ map (λ e. e.type_name) es
      pub sizes : map (λ w. length w.attributes) rows ≡ map (λ e. length e.attributes) es
      pub unique_types :
          (t : String)
          → str_elem t u'.event_types
            ≡ (str_elem t u.event_types || str_elem t (map (λ e. e.type_name) es))

    process_attributes-length :
        (index : ℕ) (as_ : List AbciAttribute) (keys : List String)
        (rows : List BlockEventAttribute) (keys' : List String)
        → process_attributes decode index as_ keys ≡ ok (rows, keys')
        → length rows ≡ length as_
    unfolding process_attributes
    process_attributes-length index [] keys rows keys' h = ground arith
    process_attributes-length index (a ∷ as_) keys rows keys' h =
        let (row, _, h1) = >>=-eq-ok (decode_attribute decode index a) _ h in
        let (rest, h2, h3) =
          >>=-eq-ok
            (process_attributes decode (suc index) as_
              (add_key row.block_event_attribute_key.key keys))
            _ h1 in
        ground (
          arith,
          process_attributes-length (suc index) as_ (add_key row.block_event_attribute_key.key keys)
              rest.0 rest.1,
        )

    -- The rows of a list of events stand in its order, numbered one by one from the first index, with the
    -- events' types and as many attributes as they have, and the map of types has gained these types.
    pub process_events-RowsOf :
        (index : ℕ) (es : List AbciEvent) (u : Uniques) (rows : List (BlockEventDbWrapper D))
        (u' : Uniques)
        → process_events decode block position parsers total index es u ≡ ok (rows, u')
        → RowsOf index es u rows u'
    unfolding process_events
    process_events-RowsOf index [] u rows u' h = record {
      indices = ground arith;
      types = ground arith;
      sizes = ground arith;
      unique_types = λ t. ground arith;
    }
    process_events-RowsOf index (e ∷ es) u rows u' h =
        let (attrs, h0, h1) =
          >>=-eq-ok (process_attributes decode 0 e.attributes u.attribute_keys) _ h in
        let next : Uniques = record {
          event_types = add_key e.type_name u.event_types;
          attribute_keys = attrs.1;
        } in
        let (_, _, h1b) = >>=-eq-ok (fits total (find_parsers e.type_name parsers)) _ h1 in
        let (rest, h2, h3) =
          >>=-eq-ok (process_events decode block position parsers total (suc index) es next) _
            h1b in
        let ih : RowsOf (suc index) es next rest.0 rest.1 =
          process_events-RowsOf (suc index) es next rest.0 rest.1 h2 in
        record {
          indices = ground (arith, ih.indices);
          types = ground (arith, ih.types);
          sizes = ground (
            arith,
            ih.sizes,
            process_attributes-length 0 e.attributes u.attribute_keys attrs.0 attrs.1 h0,
          );
          unique_types =
              λ t. ground (arith, ih.unique_types t, str_elem-add_key t e.type_name u.event_types);
        }
