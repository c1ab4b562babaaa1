-- ===== src/Events/Filtering.antt =====
-- core/block_events.go, FilterRPCBlockEvents. The map `filterIndexes` is the function that reads it:
-- an index without an entry reads as false.
use cosmos_indexer.Prelude.{
  ℕ, zero, suc, ◌+◌, Bool, false, ◌&&◌, List, [], ◌∷◌, map, Result, ok, ◌>>=◌, leb, ◌==◌,
  if◌then◌else◌, length, take, drop,
}
use cosmos_indexer.Filter.Regexp.{Regexp}
use cosmos_indexer.Filter.MessageType.{FilterError}
use cosmos_indexer.Filter.BlockEvent.{
  EventData, BlockEventFilter, event_matches, include_match, RollingWindowFilter,
  rolling_window_length, events_match, Registry,
}
use cosmos_indexer.Events.{BlockEventDbWrapper}

abbrev pub Marks : Type 0
Marks = ℕ → Bool

abbrev pub mark : ℕ → Bool → Marks → Marks
mark i b m j = if j == i then b else m j

-- The indices from `i` on, `n` of them.
abbrev pub mark_range : ℕ → ℕ → Bool → Marks → Marks
mark_range i zero b m = m
mark_range i (suc n) b m = mark_range (suc i) n b (mark i b m)

module _ (r : Regexp) (D : Type 0) where
  abbrev pub to_event_data : BlockEventDbWrapper D → EventData
  to_event_data w = record { event = w.block_event; attributes = w.attributes }

  -- The loop over the filters on single events, at one index.
  unfoldable pub mark_single :
      ℕ → EventData → List (BlockEventFilter r) → Marks → Result FilterError Marks
  mark_single index d [] m = ok m
  mark_single index d (f ∷ fs) m = event_matches r f d >>= λ matches.
      mark_single index d fs (if matches then mark index (include_match r f) m else m)

  -- The loop over the rolling windows, at one index.
  unfoldable pub mark_windows :
      ℕ
      → List (BlockEventDbWrapper D)
      → List (RollingWindowFilter r)
      → Marks
      → Result FilterError Marks
  mark_windows index events [] m = ok m
  mark_windows index events (w ∷ ws) m =
      if leb (index + rolling_window_length r w) (length events)
      then (events_match r w
            (map to_event_data (take (rolling_window_length r w) (drop index events)))
          >>= λ matches. mark_windows index events ws (
              if matches
              then mark_range index (rolling_window_length r w) w.include_matches m
              else m))
      else mark_windows index events ws m

  -- The loop over the events: `rest` are those from `index` on.
  unfoldable pub mark_events :
      Registry r
      → List (BlockEventDbWrapper D)
      → ℕ
      → List (BlockEventDbWrapper D)
      → Marks
      → Result FilterError Marks
  mark_events g events index [] m = ok m
  mark_events g events index (e ∷ rest) m =
      mark_single index (to_event_data e) g.block_event_filters m >>= λ m1.
      mark_windows index events g.rolling_window_event_filters m1 >>= λ m2.
      mark_events g events (suc index) rest m2

  -- The last loop: the events whose index is marked true.
  unfoldable pub keep_marked :
      Marks → ℕ → List (BlockEventDbWrapper D) → List (BlockEventDbWrapper D)
  keep_marked m index [] = []
  keep_marked m index (e ∷ rest) =
      if m index then e ∷ keep_marked m (suc index) rest else keep_marked m (suc index) rest

  unfoldable pub filter_rpc_block_events :
      Registry r → List (BlockEventDbWrapper D) → Result FilterError (List (BlockEventDbWrapper D))
  unfolding mark_single mark_windows mark_events keep_marked
  filter_rpc_block_events g events =
      if length g.block_event_filters == 0 && length g.rolling_window_event_filters == 0
      then ok events
      else mark_events g events 0 events (λ i. false) >>= λ m. ok (keep_marked m 0 events)
