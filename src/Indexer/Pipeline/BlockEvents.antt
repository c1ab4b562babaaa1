-- ===== src/Indexer/Pipeline/BlockEvents.antt =====
-- What becomes of the events of a block whose transactions the node's search gives.
use cosmos_indexer.Prelude.{
  ◌≡◌, refl, ap, ◌∙◌, true, false, not, ◌&&◌, ltb, [], ◌∷◌, ◌++◌, Option, none, some, ok,
  Bool-cases, Result-cases, inl, inr, ◌⊎◌, length, ◌==◌,
}
use cosmos_indexer.Enqueue.{EnqueueData}
use cosmos_indexer.Models.{Block}
use cosmos_indexer.Filter.Regexp.{Regexp}
use cosmos_indexer.Filter.BlockEvent.{Registry, num_filters}
use cosmos_indexer.Events.Process.{
  BlockDbWrapper, process_rpc_block_results, process_rpc_block_events, process_events, all_datasets,
}
use cosmos_indexer.Events.Filtering.{filter_rpc_block_events, mark_events, keep_marked}
use cosmos_indexer.Worker.{
  RetryConfig, IndexerBlockEventData, fetch_block, fetch_txs, upsert_failed_block,
}
use cosmos_indexer.Indexer.Wire.{Codecs, CodecLaws, publish, receive-publish, arrived}
use cosmos_indexer.Indexer.Process.{
  ResultBlock, ResultBlockResults, Indexer, Sent, process_block, process_one, to_block_info,
  send_block_events, send_txs, filter_events, parse_txs,
}
use cosmos_indexer.Indexer.Pipeline.{
  Delivery, publish_fails, lost, delivered, Node, pass_on, handle,
}
use cosmos_indexer.Indexer.Pipeline.Losses.{no_results}

module _ {r : Regexp} {E D W T X : Type 0} (idxr : Indexer r E D W T X) where
  filter_events-nil : (g : Option (Registry r)) → filter_events idxr g [] ≡ ok []
  unfolding filter_events filter_rpc_block_events mark_events keep_marked
  filter_events-nil none = refl
  filter_events-nil (some g) = elim (Bool-cases (ltb 0 (num_filters r g))) [
    | inr e ↦ rw (filter_events, e) refl
    | inl e ↦
        elim (Bool-cases
          (length g.block_event_filters == 0 && length g.rolling_window_event_filters == 0)) [
            | inl q ↦ rw (filter_events, filter_rpc_block_events, e, q) refl
            | inr q ↦ rw (filter_events, filter_rpc_block_events, e, q) refl
          ]
  ]

  send_block_events-no_results :
      (block : Block) (s : Sent D W)
      → (w : BlockDbWrapper D) × ((send_block_events idxr block no_results s).block_events
          ≡ s.block_events ++ w ∷ [])
        × (w.begin_block_events ≡ [])
        × (w.end_block_events ≡ [])
        × ((send_block_events idxr block no_results s).failed ≡ s.failed)
  unfolding send_block_events process_rpc_block_results process_rpc_block_events process_events
      all_datasets
  send_block_events-no_results block s = (
    record {
      block = block;
      begin_block_events = [];
      end_block_events = [];
      uniques = record { event_types = []; attribute_keys = [] };
    },
    rw (send_block_events, filter_events-nil idxr.begin_filters, filter_events-nil idxr.end_filters)
        refl,
    refl,
    refl,
    rw (send_block_events, filter_events-nil idxr.begin_filters, filter_events-nil idxr.end_filters)
        refl,
  )

  send_txs-block_events :
      (block_data : ResultBlock)
      (d : IndexerBlockEventData (Option ResultBlock) (ResultBlockResults X) T) (block : Block)
      (s : Sent D W)
      → ((send_txs idxr block_data d block s).block_events ≡ s.block_events)
        × ((send_txs idxr block_data d block s).failed.event_blocks ≡ s.failed.event_blocks)
  unfolding send_txs upsert_failed_block
  send_txs-block_events block_data d block s =
      elim (Bool-cases (d.index_transactions && not d.tx_requests_failed)) [
        | inr i ↦ (rw (send_txs, i) refl, rw (send_txs, i) refl)
        | inl i ↦
            elim (Result-cases
              (parse_txs idxr block_data d.block_results_data d.get_txs_response)) [
                | inr (_, e) ↦ (rw (send_txs, i, e) refl, rw (send_txs, i, e) refl)
                | inl (ws, e) ↦ (rw (send_txs, i, e) refl, rw (send_txs, i, e) refl)
              ]
      ]

module _ {r : Regexp} {E D W T X : Type 0} (node : Node T X) (cfg : Option RetryConfig)
    (c : Codecs E ResultBlock (ResultBlockResults X) T) (idxr : Indexer r E D W T X)
    (empty_block : ResultBlock) (empty_txs : T)
    (laws : CodecLaws c empty_block no_results empty_txs)
    (publishes : (d : IndexerBlockEventData ResultBlock (ResultBlockResults X) T)
      → (payload : c.Text) × (publish c d ≡ ok payload)) where
  -- Between two states the processor sent nothing on the channel of block events, or one record without
  -- events, and recorded no failure of block events.
  abbrev pub NoEvents : Sent D W → Sent D W → Type 0
  NoEvents s s' =
      (s'.failed.event_blocks ≡ s.failed.event_blocks)
      × ((s'.block_events ≡ s.block_events)
          ⊎ ((w : BlockDbWrapper D) × (s'.block_events ≡ s.block_events ++ w ∷ [])
              × (w.begin_block_events ≡ [])
              × (w.end_block_events ≡ [])))

  process_one-NoEvents :
      (d : IndexerBlockEventData ResultBlock (ResultBlockResults X) T) (s : Sent D W)
      → d.block_results_data ≡ none
      → (s' : Sent D W) × (process_one idxr (arrived c empty_block no_results empty_txs laws d) s
          ≡ some s')
        × NoEvents s s'
  unfolding process_one
  process_one-NoEvents d s e =
      elim (Result-cases
        (process_block idxr.cons_address idxr.hash_text d.block_data idxr.chain_id)) [
          | inr (x, m) ↦ (
            record s { failed = upsert_failed_block d.block_data.height s.failed },
            rw (process_one, m) refl,
            (refl, inl refl),
          )
          | inl (block, m) ↦
              let s1 = send_block_events idxr block no_results s in
              let s2 =
                send_txs idxr d.block_data (arrived c empty_block no_results empty_txs laws d) block
                  s1 in
              let kept =
                send_txs-block_events idxr d.block_data
                  (arrived c empty_block no_results empty_txs laws d) block s1 in
              let (w, sent, begins, ends, same) = send_block_events-no_results idxr block s in
              (
                record s2 { blocks = s2.blocks ++ to_block_info block ∷ [] },
                rw (process_one, m, e) refl,
                (kept.1 ∙ ap (λ t. t.event_blocks) same, inr (w, kept.0 ∙ sent, begins, ends)),
              )
        ]

  pass_on-NoEvents :
      (topic : Delivery) (d : IndexerBlockEventData ResultBlock (ResultBlockResults X) T)
      (s : Sent D W)
      → d.block_results_data ≡ none
      → (s' : Sent D W) × (pass_on node cfg c idxr topic d s ≡ some s') × NoEvents s s'
  unfolding pass_on
  pass_on-NoEvents publish_fails d s e =
      let (payload, sent) = publishes d in (s, rw (pass_on, sent) refl, (refl, inl refl))
  pass_on-NoEvents lost d s e =
      let (payload, sent) = publishes d in (s, rw (pass_on, sent) refl, (refl, inl refl))
  pass_on-NoEvents delivered d s e =
      let (payload, sent) = publishes d in
      let (s', done, none_sent) = process_one-NoEvents d s e in
      (
        s',
        rw (pass_on, sent, receive-publish c empty_block no_results empty_txs laws d payload sent)
            done,
        none_sent,
      )

  -- Where the codecs are inverses and every message can be built, whatever the topic does: if the node gives a queued block and, by
  -- its search, the block's transactions, which are wanted, the processor sends no block event,
  -- whatever events the node has for the block, and records no failure of them.
  pub handle-NoEvents :
      (topic : Delivery) (b : EnqueueData) (s : Sent D W) (block : ResultBlock) (txs : T)
      → b.index_transactions ≡ true
      → node.get_block b.height ≡ some block
      → node.get_txs b.height ≡ some txs
      → (s' : Sent D W) × (handle node cfg c idxr topic b s ≡ some s') × NoEvents s s'
  unfolding handle fetch_block fetch_txs
  handle-NoEvents topic b s block txs i e q =
      let d : IndexerBlockEventData ResultBlock (ResultBlockResults X) T = record {
        block_data = block;
        block_results_data = none;
        block_event_requests_failed = false;
        get_txs_response = some txs;
        tx_requests_failed = false;
        index_transactions = true;
      } in
      let (s', done, none_sent) = pass_on-NoEvents topic d s refl in
      (
        s',
        ap
              (λ f. elim (f.0) [
                | none ↦ some (record s { failed = f.1 })
                | some d' ↦ pass_on node cfg c idxr topic d' (record s { failed = f.1 })
              ])
              (fetched d refl)
            ∙ done,
        none_sent,
      )
    where
      fetched :
          (d : IndexerBlockEventData ResultBlock (ResultBlockResults X) T)
          → d ≡ record {
            block_data = block;
            block_results_data = none;
            block_event_requests_failed = false;
            get_txs_response = some txs;
            tx_requests_failed = false;
            index_transactions = true;
          }
          → fetch_block node.get_block node.get_txs node.get_results cfg b s.failed
            ≡ (some d, s.failed)
      fetched d same = rw (fetch_block, fetch_txs, e, q, i, same) refl
