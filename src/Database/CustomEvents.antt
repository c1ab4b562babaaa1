-- ===== src/Database/CustomEvents.antt =====
-- db/events.go, IndexCustomBlockEvents. The custom parsers' writes and the record of a parser's error
-- (CreateParserError) are parameters; one that fails is taken to leave the tables as they were.
use cosmos_indexer.Prelude.{
  ◌≡◌, refl, ap, ◌∙◌, Bool, true, List, [], ◌∷◌, Result, ok, err, ◌>>=◌, is_ok, is_ok->>=,
  Result-cases, inl, inr, arith, ◌&&◌,
}

-- What a custom parser left for an event: an error, data, or neither.
pub data Dataset (D : Type 0) : Type 0 where
  parse_error no_data : Dataset D
  parsed : D → Dataset D

module _ {E S D : Type 0} (index_block_event : D → S → Result E S)
    (create_parser_error : S → Result E S) where
  unfoldable pub begin_datasets : List (Dataset D) → S → Result E S
  begin_datasets [] s = ok s
  begin_datasets (parsed d ∷ ds) s = index_block_event d s >>= λ s'. begin_datasets ds s'
  begin_datasets (parse_error ∷ ds) s = create_parser_error s >>= λ s'. begin_datasets ds s'
  begin_datasets (no_data ∷ ds) s = begin_datasets ds s

  -- The same for the events at the end of a block, but an error of a write is only logged.
  unfoldable pub end_datasets : List (Dataset D) → S → Result E S
  end_datasets [] s = ok s
  end_datasets (parsed d ∷ ds) s = elim (index_block_event d s) [
    | ok s' ↦ end_datasets ds s'
    | err _ ↦ end_datasets ds s
  ]
  end_datasets (parse_error ∷ ds) s = create_parser_error s >>= λ s'. end_datasets ds s'
  end_datasets (no_data ∷ ds) s = end_datasets ds s

  -- The loop over the events of one position.
  unfoldable pub over_events :
      (List (Dataset D) → S → Result E S) → List (List (Dataset D)) → S → Result E S
  over_events datasets [] s = ok s
  over_events datasets (e ∷ es) s = datasets e s >>= λ s'. over_events datasets es s'

  unfoldable pub index_custom_block_events :
      List (List (Dataset D)) → List (List (Dataset D)) → S → Result E S
  unfolding begin_datasets end_datasets over_events
  index_custom_block_events begin_events end_events s =
      over_events begin_datasets begin_events s >>= λ s'. over_events end_datasets end_events s'

  module _ (records : (s : S) → is_ok (create_parser_error s) ≡ true) where
    end_datasets-is_ok : (ds : List (Dataset D)) (s : S) → is_ok (end_datasets ds s) ≡ true
    unfolding end_datasets
    end_datasets-is_ok [] s = refl
    end_datasets-is_ok (parsed d ∷ ds) s = elim (Result-cases (index_block_event d s)) [
      | inl (s', e) ↦ rw (end_datasets, e) (end_datasets-is_ok ds s')
      | inr (x, e) ↦ rw (end_datasets, e) (end_datasets-is_ok ds s)
    ]
    end_datasets-is_ok (parse_error ∷ ds) s =
        is_ok->>= (create_parser_error s) _ true (end_datasets-is_ok ds)
        ∙ ap (λ b. b && true) (records s)
    end_datasets-is_ok (no_data ∷ ds) s = end_datasets-is_ok ds s

    over_events-is_ok :
        (es : List (List (Dataset D))) (s : S) → is_ok (over_events end_datasets es s) ≡ true
    unfolding over_events
    over_events-is_ok [] s = refl
    over_events-is_ok (e ∷ es) s =
        is_ok->>= (end_datasets e s) _ true (over_events-is_ok es)
        ∙ ap (λ b. b && true) (end_datasets-is_ok e s)

    -- Where errors of parsers can be recorded: the custom block events are written without an error exactly
    -- when those of the beginning of the block are, whatever happens to those of its end.
    pub index_custom_block_events-is_ok :
        (begin_events end_events : List (List (Dataset D))) (s : S)
        → is_ok (index_custom_block_events begin_events end_events s)
          ≡ is_ok (over_events begin_datasets begin_events s)
    unfolding index_custom_block_events
    index_custom_block_events-is_ok begin_events end_events s =
        is_ok->>= (over_events begin_datasets begin_events s) _ true (over_events-is_ok end_events)
        ∙ last_true (is_ok (over_events begin_datasets begin_events s))
      where
        last_true : (b : Bool) → (b && true) ≡ b
        last_true b = ground arith
