-- ===== src/Events/Verdicts.antt =====
-- What FilterRPCBlockEvents keeps, by an independent account: every match of a filter is a verdict
-- on a range of indices, and of the verdicts on an index the last one counts.
use cosmos_indexer.Prelude.{
  ℕ, zero, suc, ◌+◌, ◌≤◌, ◌≡◌, refl, Bool, false, ◌&&◌, List, [], ◌∷◌, ◌++◌, map, Option, none,
  some, Result, ok, err, leb, ltb, ◌==◌, if◌then◌else◌, length, take, drop, All, arith, inl, inr,
  Bool-cases,
}
use cosmos_indexer.Filter.Regexp.{Regexp}
use cosmos_indexer.Filter.BlockEvent.{
  EventData, BlockEventFilter, event_type_filter, regex_event_type_filter,
  type_and_attribute_filter, event_matches, include_match, RollingWindowFilter,
  rolling_window_length, patterns_match, events_match, Registry,
}
use cosmos_indexer.Events.{BlockEventDbWrapper}
use cosmos_indexer.Events.Filtering.{
  Marks, mark, mark_range, to_event_data, mark_single, mark_windows, mark_events, keep_marked,
  filter_rpc_block_events,
}

pub record Verdict : Type 0 where
  pub from : ℕ
  pub count : ℕ
  pub include : Bool

-- The last verdict on an index.
unfoldable pub decided : List Verdict → ℕ → Option Bool
decided [] j = none
decided (v ∷ vs) j = elim (decided vs j) [
  | some b ↦ some b
  | none ↦ if leb v.from j && ltb j (v.from + v.count) then some v.include else none
]

abbrev pub kept : Option Bool → Bool
kept none = false
kept (some b) = b

apply : List Verdict → Marks → Marks
apply [] m = m
apply (v ∷ vs) m = apply vs (mark_range v.from v.count v.include m)

mark_range-eq :
    (i n j : ℕ) (b : Bool) (m : Marks)
    → mark_range i n b m j ≡ (if leb i j && ltb j (i + n) then b else m j)
mark_range-eq i zero j b m = ground arith
mark_range-eq i (suc n) j b m = ground (arith, mark_range-eq (suc i) n j b (mark i b m))

apply-eq-decided :
    (vs : List Verdict) (m : Marks) (j : ℕ)
    → apply vs m j ≡ elim (decided vs j) [ none ↦ m j | some b ↦ b ]
unfolding apply decided
apply-eq-decided [] m j = refl
apply-eq-decided (v ∷ vs) m j = ground (
  arith,
  apply-eq-decided vs (mark_range v.from v.count v.include m) j,
  mark_range-eq v.from v.count j v.include m,
)

apply-append : (us vs : List Verdict) (m : Marks) → apply (us ++ vs) m ≡ apply vs (apply us m)
unfolding apply
apply-append [] vs m = refl
apply-append (u ∷ us) vs m = apply-append us vs (mark_range u.from u.count u.include m)

module _ (r : Regexp) where
  -- Every regular expression of the filter is compiled, as those of `new_regex_…` are.
  abbrev pub IsCompiled : BlockEventFilter r → Type 0
  IsCompiled (regex_event_type_filter _ none _) = ⊥
  IsCompiled _ = Unit

  abbrev pub outcome {ℓ} : {E : Type ℓ} → Result E Bool → Bool
  outcome (ok b) = b
  outcome (err _) = false

  pub event_matches_ok :
      (f : BlockEventFilter r) (d : EventData)
      → IsCompiled f
      → event_matches r f d ≡ ok (outcome (event_matches r f d))
  unfolding event_matches
  event_matches_ok (event_type_filter t i) d c = refl
  event_matches_ok (regex_event_type_filter p none i) d c = absurd c
  event_matches_ok (regex_event_type_filter p (some e) i) d c = refl
  event_matches_ok (type_and_attribute_filter t k v i) d c = refl

  patterns_match_ok :
      (ps : List (BlockEventFilter r)) (ds : List EventData)
      → All IsCompiled ps
      → length ps ≤ length ds
      → patterns_match r ps ds ≡ ok (outcome (patterns_match r ps ds))
  unfolding patterns_match
  patterns_match_ok [] ds c le = refl
  patterns_match_ok (p ∷ ps) [] c le = absurd (omega arith)
  patterns_match_ok (p ∷ ps) (d ∷ ds) c le =
      ground (arith, event_matches_ok p d c.0, patterns_match_ok ps ds c.1 (omega arith))

  -- Enough events and compiled patterns: the window's loop neither panics nor runs out of range.
  pub events_match_ok :
      (w : RollingWindowFilter r) (ds : List EventData)
      → All IsCompiled w.event_patterns
      → events_match r w ds ≡ ok (outcome (events_match r w ds))
  unfolding events_match
  events_match_ok w ds c = elim (Bool-cases (ltb (length ds) (rolling_window_length r w))) [
    | inl e ↦ rw e
    | inr e ↦ rw e (patterns_match_ok w.event_patterns ds c (ground arith))
  ]

module _ (r : Regexp) (D : Type 0) where
  -- The verdicts of the filters on single events, and of the rolling windows, at one index.
  unfoldable pub single_verdicts : ℕ → EventData → List (BlockEventFilter r) → List Verdict
  single_verdicts index d [] = []
  single_verdicts index d (f ∷ fs) =
      if outcome r (event_matches r f d)
      then record { from = index; count = 1; include = include_match r f }
        ∷ single_verdicts index d fs
      else single_verdicts index d fs

  unfoldable pub window_verdicts :
      ℕ → List (BlockEventDbWrapper D) → List (RollingWindowFilter r) → List Verdict
  window_verdicts index events [] = []
  window_verdicts index events (w ∷ ws) =
      if leb (index + rolling_window_length r w) (length events)
        && outcome r (
            events_match r w
              (map (to_event_data r D) (take (rolling_window_length r w) (drop index events))))
      then record { from = index; count = rolling_window_length r w; include = w.include_matches }
        ∷ window_verdicts index events ws
      else window_verdicts index events ws

  unfoldable pub verdicts :
      Registry r → List (BlockEventDbWrapper D) → ℕ → List (BlockEventDbWrapper D) → List Verdict
  unfolding single_verdicts window_verdicts
  verdicts g events index [] = []
  verdicts g events index (e ∷ rest) =
      single_verdicts index (to_event_data r D e) g.block_event_filters
      ++ (window_verdicts index events g.rolling_window_event_filters
          ++ verdicts g events (suc index) rest)

  mark_single-eq :
      (index : ℕ) (d : EventData) (fs : List (BlockEventFilter r)) (m : Marks)
      → All (IsCompiled r) fs
      → mark_single r D index d fs m ≡ ok (apply (single_verdicts index d fs) m)
  unfolding mark_single single_verdicts apply
  mark_single-eq index d [] m c = refl
  mark_single-eq index d (f ∷ fs) m c =
      let split = Bool-cases (outcome r (event_matches r f d)) in
      rw (event_matches_ok r f d c.0) (elim split [
        | inl e ↦ rw e (mark_single-eq index d fs (mark index (include_match r f) m) c.1)
        | inr e ↦ rw e (mark_single-eq index d fs m c.1)
      ])

  mark_windows-eq :
      (index : ℕ) (events : List (BlockEventDbWrapper D)) (ws : List (RollingWindowFilter r))
      (m : Marks)
      → All (λ w. All (IsCompiled r) w.event_patterns) ws
      → mark_windows r D index events ws m ≡ ok (apply (window_verdicts index events ws) m)
  unfolding mark_windows window_verdicts apply
  mark_windows-eq index events [] m c = refl
  mark_windows-eq index events (w ∷ ws) m c =
      let ds = map (to_event_data r D) (take (rolling_window_length r w) (drop index events)) in
      let fits = leb (index + rolling_window_length r w) (length events) in
      elim (Bool-cases fits) [
        | inl f ↦
            rw (f, events_match_ok r w ds c.0)
              (elim (Bool-cases (outcome r (events_match r w ds))) [
                | inl e ↦ rw e (
                    mark_windows-eq index events ws
                      (mark_range index (rolling_window_length r w) w.include_matches m) c.1)
                | inr e ↦ rw e (mark_windows-eq index events ws m c.1)
              ])
        | inr f ↦ rw f (mark_windows-eq index events ws m c.1)
      ]

  -- Every expression of the registry's filters is compiled.
  pub record AllCompiled (g : Registry r) : Type 0 where
    pub single : All (IsCompiled r) g.block_event_filters
    pub windows : All (λ w. All (IsCompiled r) w.event_patterns) g.rolling_window_event_filters

  mark_events-eq :
      (g : Registry r) (events : List (BlockEventDbWrapper D)) (index : ℕ)
      (rest : List (BlockEventDbWrapper D)) (m : Marks)
      → AllCompiled g
      → mark_events r D g events index rest m ≡ ok (apply (verdicts g events index rest) m)
  unfolding mark_events verdicts
  mark_events-eq g events index [] m c = unfold apply in refl
  mark_events-eq g events index (e ∷ rest) m c =
      let us = single_verdicts index (to_event_data r D e) g.block_event_filters in
      let vs = window_verdicts index events g.rolling_window_event_filters in
      let ws = verdicts g events (suc index) rest in
      rw (
        mark_single-eq index (to_event_data r D e) g.block_event_filters m c.single,
        mark_windows-eq index events g.rolling_window_event_filters (apply us m) c.windows,
        mark_events-eq g events (suc index) rest (apply vs (apply us m)) c,
        apply-append us (vs ++ ws) m,
        apply-append vs ws (apply us m),
      )

  -- The events at the indices that `p` holds of.
  unfoldable pub keep_by :
      (ℕ → Bool) → ℕ → List (BlockEventDbWrapper D) → List (BlockEventDbWrapper D)
  keep_by p index [] = []
  keep_by p index (e ∷ rest) =
      if p index then e ∷ keep_by p (suc index) rest else keep_by p (suc index) rest

  keep_marked-eq :
      (vs : List Verdict) (index : ℕ) (rest : List (BlockEventDbWrapper D))
      → keep_marked r D (apply vs (λ i. false)) index rest
        ≡ keep_by (λ j. kept (decided vs j)) index rest
  unfolding keep_marked keep_by
  keep_marked-eq vs index [] = refl
  keep_marked-eq vs index (e ∷ rest) =
      ground (arith, apply-eq-decided vs (λ i. false) index, keep_marked-eq vs (suc index) rest)

  -- With at least one filter, and all regular expressions compiled, filtering succeeds, and keeps
  -- exactly the events on which the last verdict is to include: verdicts come by start index, at one
  -- index the filters on single events before the rolling windows, each in registration order.
  pub filter_rpc_block_events-eq-decided :
      (g : Registry r) (events : List (BlockEventDbWrapper D))
      → AllCompiled g
      → (length g.block_event_filters == 0 && length g.rolling_window_event_filters == 0) ≡ false
      → filter_rpc_block_events r D g events
        ≡ ok (keep_by (λ j. kept (decided (verdicts g events 0 events) j)) 0 events)
  unfolding filter_rpc_block_events
  filter_rpc_block_events-eq-decided g events c some_filter = rw (
    some_filter,
    mark_events-eq g events 0 events (λ i. false) c,
    keep_marked-eq (verdicts g events 0 events) 0 events,
  )
