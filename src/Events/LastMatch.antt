-- ===== src/Events/LastMatch.antt =====
-- FilterRPCBlockEvents with filters on single events only: which filter decides on an event.
use cosmos_indexer.Prelude.{
  ℕ, zero, suc, ◌+◌, ◌<◌, ◌≡◌, ◌≢◌, refl, ap, ◌∙◌, Bool, true, false, ◌&&◌, List, [], ◌∷◌, ◌++◌,
  Option, none, some, ok, ◌==◌, if◌then◌else◌, length, get_elem?, select, All, arith,
}
use cosmos_indexer.Filter.Regexp.{Regexp}
use cosmos_indexer.Filter.BlockEvent.{
  EventData, BlockEventFilter, event_matches, include_match, Registry,
}
use cosmos_indexer.Events.{BlockEventDbWrapper}
use cosmos_indexer.Events.Filtering.{to_event_data, filter_rpc_block_events}
use cosmos_indexer.Events.Verdicts.{
  Verdict, decided, kept, IsCompiled, outcome, single_verdicts, verdicts, keep_by,
  filter_rpc_block_events-eq-decided,
}

decided-append :
    (us vs : List Verdict) (j : ℕ)
    → decided (us ++ vs) j ≡ elim (decided vs j) [ some b ↦ some b | none ↦ decided us j ]
unfolding decided
decided-append [] vs j = ground arith
decided-append (u ∷ us) vs j = ground (arith, decided-append us vs j)

module _ (r : Regexp) (D : Type 0) where
  -- The flag `Inclusive` of the last filter that matches the event.
  unfoldable pub last_include : List (BlockEventFilter r) → EventData → Option Bool
  last_include [] d = none
  last_include (f ∷ fs) d = elim (last_include fs d) [
    | some b ↦ some b
    | none ↦ if outcome r (event_matches r f d) then some (include_match r f) else none
  ]

  decided-single :
      (index j : ℕ) (d : EventData) (fs : List (BlockEventFilter r))
      → decided (single_verdicts r D index d fs) j
        ≡ (if index == j then last_include fs d else none)
  unfolding decided single_verdicts last_include
  decided-single index j d [] = ground arith
  decided-single index j d (f ∷ fs) = ground (arith, decided-single index j d fs)

  module _ (fs : List (BlockEventFilter r)) (events : List (BlockEventDbWrapper D)) where
    abbrev only : Registry r
    only = record { block_event_filters = fs; rolling_window_event_filters = [] }

    decided-before :
        (index : ℕ) (rest : List (BlockEventDbWrapper D)) (j : ℕ)
        → j < index
        → decided (verdicts r D only events index rest) j ≡ none
    unfolding verdicts
    decided-before index [] j lt = unfold decided in refl
    decided-before index (e ∷ rest) j lt =
        let us = single_verdicts r D index (to_event_data r D e) fs in
        decided-append us (verdicts r D only events (suc index) rest) j
        ∙ rw
            (
              decided-before (suc index) rest j (omega arith),
              decided-single index j (to_event_data r D e) fs,
            )
            (ground arith)

    decided-at :
        (index : ℕ) (rest : List (BlockEventDbWrapper D)) (j : ℕ) (e : BlockEventDbWrapper D)
        → get_elem? rest j ≡ some e
        → decided (verdicts r D only events index rest) (index + j)
          ≡ last_include fs (to_event_data r D e)
    unfolding verdicts
    decided-at index [] j e h = cc
    decided-at index (d ∷ rest) zero e h = ground (
      arith,
      decided-append (single_verdicts r D index (to_event_data r D d) fs)
          (verdicts r D only events (suc index) rest) (index + 0),
      decided-before (suc index) rest (index + 0) (omega arith),
      decided-single index (index + 0) (to_event_data r D d) fs,
    )
    decided-at index (d ∷ rest) (suc j) e h =
        let next : index + suc j ≡ suc index + j = omega arith in
        rw next (
          ground (
            arith,
            decided-append (single_verdicts r D index (to_event_data r D d) fs)
                (verdicts r D only events (suc index) rest) (suc index + j),
            decided-at (suc index) rest j e h,
            decided-single index (suc index + j) (to_event_data r D d) fs,
          ))

    keep_by-select :
        (p : ℕ → Bool) (q : BlockEventDbWrapper D → Bool) (index : ℕ)
        (rest : List (BlockEventDbWrapper D))
        → ((j : ℕ) (e : BlockEventDbWrapper D) → get_elem? rest j ≡ some e → p (index + j) ≡ q e)
        → keep_by r D p index rest ≡ select q rest
    unfolding keep_by
    keep_by-select p q index [] h = refl
    keep_by-select p q index (e ∷ rest) h =
        let here : p index ≡ q e = ap p (omega arith) ∙ h 0 e refl in
        let later : keep_by r D p (suc index) rest ≡ select q rest =
          keep_by-select p q (suc index) rest (λ j d k. ap p (omega arith) ∙ h (suc j) d k) in
        rw (here, later)

  -- With filters on single events only, at least one, and all regular expressions compiled: an event
  -- is kept exactly when the last filter that matches it is inclusive; the order is unchanged.
  pub last_match_decides :
      (fs : List (BlockEventFilter r)) (events : List (BlockEventDbWrapper D))
      → All (IsCompiled r) fs
      → fs ≢ []
      → filter_rpc_block_events r D
          (record { block_event_filters = fs; rolling_window_event_filters = [] })
          events
        ≡ ok (select (λ e. kept (last_include fs (to_event_data r D e))) events)
  last_match_decides fs events c ne =
      filter_rpc_block_events-eq-decided r D (only fs events) events
        (record { single = c; windows = tt }) (some_filter fs ne)
      ∙ ap ok (
          keep_by-select fs events _ _ 0 events
            (λ j e h. ap kept (ap (decided _) (omega arith) ∙ decided-at fs events 0 events j e h)))
    where
      some_filter : (l : List (BlockEventFilter r)) → l ≢ [] → (length l == 0 && true) ≡ false
      some_filter [] n = absurd (n refl)
      some_filter (f ∷ l) n = ground arith
