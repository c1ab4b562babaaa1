-- ===== src/Indexer/Updates.antt =====
-- cmd/index.go, doDBUpdates: the database writer takes from two channels, in whatever order they are
-- ready, until both are closed and empty. A database error ends the
-- process, after one more attempt for transactions, and is left out.
pub mod Loop
use cosmos_indexer.Prelude.{
  ℕ, ◌≡◌, ◌≢◌, refl, ap, sym, ◌∙◌, Bool, true, false, not, ◌&&◌, ◌==◌, List, [], ◌∷◌, ◌++◌,
  if◌then◌else◌, select, select-append, arith, inl, inr, Bool-cases, elem, map, elem-select,
}
use mathlib.Core.List.{append_assoc, append-nil}
use cosmos_indexer.Models.{Block}
use cosmos_indexer.Worker.{FailedTables}
use cosmos_indexer.Events.Process.{BlockDbWrapper}
use cosmos_indexer.Indexer.Process.{TxData}
use cosmos_indexer.Database.Queries.{zero_time}
use cosmos_indexer.Database.Blocks.{
  BlockRow, same_block, first_or_create, delete_height, index_block_row, index_block_events_row,
  row_found, get_block_by_height,
}

module _ (D W : Type 0) where
  -- The tables, and what was written of the transactions and, by the custom parsers, of the block events.
  pub record Store : Type 0 where
    pub rows : List BlockRow
    pub failed : FailedTables
    pub txs : List (TxData W)
    pub block_events : List (BlockDbWrapper D)

  -- `IndexNewBlock`, whose writing of the transactions is kept as their list here.
  unfoldable pub index_new_block : TxData W → Store → Store
  unfolding delete_height index_block_row
  index_new_block data_ s = record {
    rows = index_block_row data_.block s.rows;
    failed = record s.failed { blocks = delete_height data_.block.height s.failed.blocks };
    txs = s.txs ++ data_ ∷ [];
    block_events = s.block_events;
  }

  -- The events of a block, which is left alone if a block of its height is indexed.
  unfoldable pub index_events : BlockDbWrapper D → Store → Store
  unfolding delete_height index_block_events_row get_block_by_height
  index_events w s = if get_block_by_height w.block.height s.rows then s else record {
    rows = index_block_events_row w.block s.rows;
    failed = record s.failed { event_blocks = delete_height w.block.height s.failed.event_blocks };
    txs = s.txs;
    block_events = s.block_events ++ w ∷ [];
  }

  -- The rounds of the loop, from what is to come on the two channels and the store to the store at the
  -- end: each `select` takes from either channel.
  pub data Run : List (TxData W) → List (BlockDbWrapper D) → Store → Store → Type 0 where
    complete : {s : Store} → Run [] [] s s
    take_txs :
        {ts : List (TxData W)} {es : List (BlockDbWrapper D)} {s s' : Store} (t : TxData W)
        → Run ts es (index_new_block t s) s'
        → Run (t ∷ ts) es s s'
    take_events :
        {ts : List (TxData W)} {es : List (BlockDbWrapper D)} {s s' : Store} (e : BlockDbWrapper D)
        → Run ts es (index_events e s) s'
        → Run ts (e ∷ es) s s'

  index_events-txs : (w : BlockDbWrapper D) (s : Store) → (index_events w s).txs ≡ s.txs
  unfolding index_events
  index_events-txs w s = elim (Bool-cases (get_block_by_height w.block.height s.rows)) [
    | inl e ↦ rw (index_events, e) refl
    | inr e ↦ rw (index_events, e) refl
  ]

  index_events-blocks :
      (w : BlockDbWrapper D) (s : Store) → (index_events w s).failed.blocks ≡ s.failed.blocks
  unfolding index_events
  index_events-blocks w s = elim (Bool-cases (get_block_by_height w.block.height s.rows)) [
    | inl e ↦ rw (index_events, e) refl
    | inr e ↦ rw (index_events, e) refl
  ]

  -- However the channels are interleaved, the transactions are written once each, in the order in which
  -- they came, and the heights in the table of failed blocks are those from before, without the
  -- heights of the blocks whose transactions were written.
  pub Run-writes :
      {ts : List (TxData W)} {es : List (BlockDbWrapper D)} {s s' : Store}
      → Run ts es s s'
      → (s'.txs ≡ s.txs ++ ts)
        × ((k : ℕ)
            → elem k s'.failed.blocks
              ≡ (elem k s.failed.blocks && not (elem k (map (λ t. t.block.height) ts))))
  unfolding index_new_block delete_height
  Run-writes {s = s} complete = (sym (append-nil s.txs), λ k. ground arith)
  Run-writes {ts = t' ∷ ts} {s = s} (take_txs t r) =
      let (wrote, left) = Run-writes r in
      (
        wrote ∙ append_assoc s.txs (t ∷ []) ts,
        λ k.
            left k
            ∙ ap (λ b. b && not (elem k (map (λ x. x.block.height) ts)))
                (elem-select (λ x. not (x == t.block.height)) k s.failed.blocks)
            ∙ ground arith,
      )
  Run-writes {ts = ts} {s = s} (take_events e r) =
      let (wrote, left) = Run-writes r in
      (
        wrote ∙ ap (λ x. x ++ ts) (index_events-txs e s),
        λ k.
            left k
            ∙ ap (λ x. elem k x && not (elem k (map (λ x. x.block.height) ts)))
                (index_events-blocks e s),
      )

  first_or_create-found :
      (h : ℕ) (b : Block) (change : BlockRow → BlockRow) (new : BlockRow) (rows : List BlockRow)
      → ((row : BlockRow) → row_found h row ≡ true → row_found h (change row) ≡ true)
      → get_block_by_height h rows ≡ true
      → get_block_by_height h (first_or_create b change new rows) ≡ true
  unfolding first_or_create get_block_by_height
  first_or_create-found h b change new [] keeps e = ground arith
  first_or_create-found h b change new (row ∷ rows) keeps e = elim (Bool-cases (same_block b row)) [
    | inl q ↦ rw q (elim (Bool-cases (row_found h row)) [
      | inl p ↦ rw (keeps row p) refl
      | inr p ↦ ground arith
    ])
    | inr q ↦ rw q (elim (Bool-cases (row_found h row)) [
      | inl p ↦ rw p refl
      | inr p ↦ rw p (first_or_create-found h b change new rows keeps (rw p at e))
    ])
  ]

  -- Once a height is found, no later round makes it unfound.
  index_new_block-found :
      (h : ℕ) (t : TxData W) (s : Store)
      → get_block_by_height h s.rows ≡ true
      → get_block_by_height h (index_new_block t s).rows ≡ true
  unfolding index_new_block index_block_row row_found
  index_new_block-found h t s e =
      first_or_create-found h t.block _ _ s.rows (λ row q. ground arith) e

  index_events-found :
      (h : ℕ) (w : BlockDbWrapper D) (s : Store)
      → get_block_by_height h s.rows ≡ true
      → get_block_by_height h (index_events w s).rows ≡ true
  unfolding index_events index_block_events_row row_found
  index_events-found h w s e = elim (Bool-cases (get_block_by_height w.block.height s.rows)) [
    | inl q ↦ rw (index_events, q) e
    | inr q ↦
        rw (index_events, q) (first_or_create-found h w.block _ _ s.rows (λ row q'. ground arith) e)
  ]

  -- The block events written of a height.
  abbrev pub events_at : ℕ → List (BlockDbWrapper D) → List (BlockDbWrapper D)
  events_at h = select (λ w. w.block.height == h)

  events_at-index_events :
      (h : ℕ) (w : BlockDbWrapper D) (s : Store)
      → get_block_by_height h s.rows ≡ true
      → events_at h (index_events w s).block_events ≡ events_at h s.block_events
  unfolding index_events
  events_at-index_events h w s e = elim (Bool-cases (get_block_by_height w.block.height s.rows)) [
    | inl q ↦ rw (index_events, q) refl
    | inr q ↦ elim (Bool-cases (w.block.height == h)) [
      | inl p ↦ both_found (sym (ap (λ x. get_block_by_height x s.rows) (ground arith)) ∙ e) q
      | inr p ↦
          rw (index_events, q, select-append (λ x. x.block.height == h) s.block_events (w ∷ []), p)
            (append-nil (events_at h s.block_events))
    ]
  ]
    where
      both_found : {A : Type 0} {b : Bool} → b ≡ true → b ≡ false → A
      both_found x y = cc

  Run-found :
      (h : ℕ) {ts : List (TxData W)} {es : List (BlockDbWrapper D)} {s s' : Store}
      → Run ts es s s'
      → get_block_by_height h s.rows ≡ true
      → events_at h s'.block_events ≡ events_at h s.block_events
  unfolding index_new_block
  Run-found h complete e = refl
  Run-found h {s = s} (take_txs t r) e = Run-found h r (index_new_block-found h t s e)
  Run-found h {s = s} (take_events w r) e =
      Run-found h r (index_events-found h w s e) ∙ events_at-index_events h w s e

  index_new_block-finds :
      (b : Block) (rows : List BlockRow)
      → b.time_stamp ≢ zero_time
      → get_block_by_height b.height (index_block_row b rows) ≡ true
  unfolding index_block_row first_or_create get_block_by_height row_found same_block
  index_new_block-finds b [] n = ground arith
  index_new_block-finds b (row ∷ rows) n = elim (Bool-cases (same_block b row)) [
    | inl e ↦ rw e (ground arith)
    | inr e ↦ rw e (ground (arith, index_new_block-finds b rows n))
  ]

  -- Once the transactions of a block with a time are written, no block event of its height is written,
  -- however the channels are interleaved from there: not those of the same block either.
  pub Run-late_events :
      (t : TxData W) (s : Store) {ts : List (TxData W)} {es : List (BlockDbWrapper D)} {s' : Store}
      → t.block.time_stamp ≢ zero_time
      → Run ts es (index_new_block t s) s'
      → events_at t.block.height s'.block_events ≡ events_at t.block.height s.block_events
  unfolding index_new_block
  Run-late_events t s n r = Run-found t.block.height r (index_new_block-finds t.block s.rows n)
