-- ===== src/Indexer/Updates/Loop.antt =====
-- cmd/index.go, doDBUpdates: the loop over the two channels. A channel is what is still to come on it before
-- it is closed; `none` is the nil that the loop puts in its place once it is closed and empty.
use cosmos_indexer.Prelude.{
  ℕ, zero, suc, ◌+◌, ◌≤◌, ◌≡◌, refl, Bool, List, [], ◌∷◌, Option, none, some, if◌then◌else◌, length,
  arith, Bool-cases, inl, inr,
}
use cosmos_indexer.Events.Process.{BlockDbWrapper}
use cosmos_indexer.Indexer.Process.{TxData}
use cosmos_indexer.Indexer.Updates.{
  Store, Run, complete, take_txs, take_events, index_new_block, index_events,
}

module _ (D W : Type 0) where
  pub record Writer : Type 0 where
    pub tx_data_chan : Option (List (TxData W))
    pub block_events_data_chan : Option (List (BlockDbWrapper D))
    pub store : Store D W

  unfoldable pub on_txs : List (TxData W) → Writer → Writer
  unfolding index_new_block
  on_txs [] w = record w { tx_data_chan = none }
  on_txs (t ∷ ts) w = record w { tx_data_chan = some ts; store = index_new_block D W t w.store }

  unfoldable pub on_block_events : List (BlockDbWrapper D) → Writer → Writer
  unfolding index_events
  on_block_events [] w = record w { block_events_data_chan = none }
  on_block_events (e ∷ es) w = record w {
    block_events_data_chan = some es;
    store = index_events D W e w.store;
  }

  -- One round. `choice` says which of two channels that are both ready `select` takes.
  unfoldable pub round : Bool → Writer → Writer
  unfolding on_txs on_block_events
  round choice w = elim (w.tx_data_chan) [
    | none ↦ elim (w.block_events_data_chan) [ none ↦ w | some es ↦ on_block_events es w ]
    | some ts ↦ elim (w.block_events_data_chan) [
      | none ↦ on_txs ts w
      | some es ↦ if choice then on_txs ts w else on_block_events es w
    ]
  ]

  -- The rounds, on fuel; the loop ends where both channels are nil, and rounds from there change nothing.
  unfoldable pub rounds : ℕ → (ℕ → Bool) → Writer → Writer
  unfolding round
  rounds zero choices w = w
  rounds (suc n) choices w = rounds n choices (round (choices n) w)

  -- What is to come on a channel, and how many rounds it takes: one more, which finds it closed.
  abbrev pub to_come : {A : Type 0} → Option (List A) → List A
  to_come none = []
  to_come (some xs) = xs

  abbrev pub rounds_of : {A : Type 0} → Option (List A) → ℕ
  rounds_of none = 0
  rounds_of (some xs) = suc (length xs)

  -- From a store, the loop ended, and what it did is a run over what was to come.
  abbrev pub Ended : List (TxData W) → List (BlockDbWrapper D) → Store D W → Writer → Type 0
  Ended ts es s w =
      (w.tx_data_chan ≡ none) × (w.block_events_data_chan ≡ none) × Run D W ts es s w.store

  -- The loop ends: as many rounds as there are values to come, and one more for each open channel, are
  -- enough, whichever channel is taken from in each round; and what it did to the store is a run over
  -- all the values.
  pub rounds-Ended :
      (n : ℕ) (choices : ℕ → Bool) (ts : Option (List (TxData W)))
      (es : Option (List (BlockDbWrapper D))) (s : Store D W)
      → rounds_of ts + rounds_of es ≤ n
      → Ended
          (to_come ts)
          (to_come es)
          s
          (rounds n choices (record { tx_data_chan = ts; block_events_data_chan = es; store = s }))
  unfolding rounds round on_txs on_block_events
  rounds-Ended zero choices none none s h = (refl, refl, complete)
  rounds-Ended zero choices none (some es) s h = absurd (omega arith)
  rounds-Ended zero choices (some ts) none s h = absurd (omega arith)
  rounds-Ended zero choices (some ts) (some es) s h = absurd (omega arith)
  rounds-Ended (suc n) choices none none s h = rounds-Ended n choices none none s (omega arith)
  rounds-Ended (suc n) choices none (some []) s h = rounds-Ended n choices none none s (omega arith)
  rounds-Ended (suc n) choices none (some (e ∷ es)) s h =
      let (p, q, r) = rounds-Ended n choices none (some es) (index_events D W e s) (omega arith) in
      (p, q, take_events e r)
  rounds-Ended (suc n) choices (some []) none s h = rounds-Ended n choices none none s (omega arith)
  rounds-Ended (suc n) choices (some (t ∷ ts)) none s h =
      let (p, q, r) =
        rounds-Ended n choices (some ts) none (index_new_block D W t s) (omega arith) in
      (p, q, take_txs t r)
  rounds-Ended (suc n) choices (some []) (some []) s h = elim (Bool-cases (choices n)) [
    | inl c ↦ rw (rounds, c) (rounds-Ended n choices none (some []) s (omega arith))
    | inr c ↦ rw (rounds, c) (rounds-Ended n choices (some []) none s (omega arith))
  ]
  rounds-Ended (suc n) choices (some []) (some (e ∷ es)) s h = elim (Bool-cases (choices n)) [
    | inl c ↦ rw (rounds, c) (rounds-Ended n choices none (some (e ∷ es)) s (omega arith))
    | inr c ↦
        let (p, q, r) =
          rounds-Ended n choices (some []) (some es) (index_events D W e s) (omega arith) in
        rw (rounds, c) (p, q, take_events e r)
  ]
  rounds-Ended (suc n) choices (some (t ∷ ts)) (some []) s h = elim (Bool-cases (choices n)) [
    | inl c ↦
        let (p, q, r) =
          rounds-Ended n choices (some ts) (some []) (index_new_block D W t s) (omega arith) in
        rw (rounds, c) (p, q, take_txs t r)
    | inr c ↦ rw (rounds, c) (rounds-Ended n choices (some (t ∷ ts)) none s (omega arith))
  ]
  rounds-Ended (suc n) choices (some (t ∷ ts)) (some (e ∷ es)) s h = elim (Bool-cases (choices n)) [
    | inl c ↦
        let (p, q, r) =
          rounds-Ended n choices (some ts) (some (e ∷ es)) (index_new_block D W t s)
            (omega arith) in
        rw (rounds, c) (p, q, take_txs t r)
    | inr c ↦
        let (p, q, r) =
          rounds-Ended n choices (some (t ∷ ts)) (some es) (index_events D W e s) (omega arith) in
        rw (rounds, c) (p, q, take_events e r)
  ]
