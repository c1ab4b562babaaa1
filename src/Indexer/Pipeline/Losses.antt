-- ===== src/Indexer/Pipeline/Losses.antt =====
-- What reaches the database writer, of the blocks on the queue, and what is lost on the topic.
use cosmos_indexer.Prelude.{
  ℕ, ◌≡◌, refl, ap, ◌∙◌, Bool, true, false, if◌then◌else◌, not, ◌&&◌, ◌||◌, ◌==◌, List, [], ◌∷◌,
  Option, none, some, ok, is_some, is_ok, arith, inl, inr,
}
use cosmos_indexer.Enqueue.{EnqueueData}
use cosmos_indexer.Filter.Regexp.{Regexp}
use cosmos_indexer.Worker.{
  RetryConfig, IndexerBlockEventData, fetch_block, fetch_block-records, fetch_block_gives, lacking,
}
use cosmos_indexer.Indexer.Wire.{Codecs, CodecLaws, publish, receive-publish, filled, arrived}
use cosmos_indexer.Indexer.Process.{ResultBlock, ResultBlockResults, Indexer, Sent, process_block}
use cosmos_indexer.Indexer.Process.Records.{reached, process_one-reaches}
use cosmos_indexer.Indexer.Pipeline.{
  Delivery, publish_fails, lost, delivered, Node, pass_on, handle,
}

abbrev pub no_results : {X : Type 0} → ResultBlockResults X
no_results = record { begin_block_events = []; end_block_events = []; txs_results = [] }

abbrev pub arrives : Delivery → Bool
arrives delivered = true
arrives publish_fails = false
arrives lost = false

module _ {r : Regexp} {E D W T X : Type 0} (node : Node T X) (cfg : Option RetryConfig)
    (c : Codecs E ResultBlock (ResultBlockResults X) T) (idxr : Indexer r E D W T X)
    (empty_block : ResultBlock) (empty_txs : T)
    (laws : CodecLaws c empty_block no_results empty_txs)
    (publishes : (d : IndexerBlockEventData ResultBlock (ResultBlockResults X) T)
      → (payload : c.Text) × (publish c d ≡ ok payload))
    (own_height : (h : ℕ) (b : ResultBlock) → node.get_block h ≡ some b → b.height ≡ h) where
  -- Whether a block does not become a row.
  abbrev unfit : ResultBlock → Bool
  unfit b = not (is_ok (process_block idxr.cons_address idxr.hash_text b idxr.chain_id))

  pass_on-reaches :
      (d : IndexerBlockEventData ResultBlock (ResultBlockResults X) T) (s : Sent D W)
      → (s' : Sent D W) × (pass_on node cfg c idxr delivered d s ≡ some s')
        × ((k : ℕ)
            → reached idxr k s' ≡ (
                reached idxr k s
                || (k == d.block_data.height
                    && (d.index_transactions && not d.tx_requests_failed || unfit d.block_data))))
  unfolding pass_on
  pass_on-reaches d s =
      let (payload, sent) = publishes d in
      let received = receive-publish c empty_block no_results empty_txs laws d payload sent in
      let (s', e, r') =
        process_one-reaches idxr (arrived c empty_block no_results empty_txs laws d) s
          (refl, filled_is_some no_results d.block_results_data) in
      (s', rw (pass_on, sent, received) e, r')
    where
      filled_is_some : {A : Type 0} (a : A) (o : Option A) → is_some (filled c a o) ≡ true
      filled_is_some a none = refl
      filled_is_some a (some x) = refl

  pass_on-stays :
      (topic : Delivery) (d : IndexerBlockEventData ResultBlock (ResultBlockResults X) T)
      (s : Sent D W)
      → arrives topic ≡ false
      → pass_on node cfg c idxr topic d s ≡ some s
  unfolding pass_on
  pass_on-stays publish_fails d s h = let (payload, sent) = publishes d in rw (pass_on, sent) refl
  pass_on-stays lost d s h = let (payload, sent) = publishes d in rw (pass_on, sent) refl
  pass_on-stays delivered d s h = cc

  after_fetch : EnqueueData → Sent D W → Sent D W
  after_fetch b s = record s {
    failed = (fetch_block node.get_block node.get_txs node.get_results cfg b s.failed).1;
  }

  recorded :
      (b : EnqueueData) (s : Sent D W) (k : ℕ)
      → reached idxr k (after_fetch b s) ≡ (
          reached idxr k s
          || (k == b.height && lacking node.get_block node.get_txs node.get_results cfg b))
  unfolding after_fetch
  recorded b s k =
      rw (fetch_block-records node.get_block node.get_txs node.get_results cfg b s.failed k)
        (ground arith)

  not_arrived :
      (topic : Delivery)
      → arrives topic ≡ false
      → (b : EnqueueData) (s : Sent D W) → b.index_transactions ≡ true
      → (s' : Sent D W) × (handle node cfg c idxr topic b s ≡ some s')
        × ((k : ℕ)
            → reached idxr k s' ≡ (
                reached idxr k s
                || (k == b.height
                    && (arrives topic
                        || lacking node.get_block node.get_txs node.get_results cfg b))))
  unfolding handle after_fetch
  not_arrived topic off b s i =
      elim (fetch_block_gives node.get_block node.get_txs node.get_results cfg b s.failed) [
        | inl (e, l) ↦ (after_fetch b s, rw (handle, e) refl, λ k. recorded b s k ∙ rw off refl)
        | inr (d, e, block, same, l) ↦ (
          after_fetch b s,
          rw (handle, e) (pass_on-stays topic d (after_fetch b s) off),
          λ k. recorded b s k ∙ rw off refl,
        )
      ]

  pub handle-reaches :
      (topic : Delivery) (b : EnqueueData) (s : Sent D W)
      → b.index_transactions ≡ true
      → (s' : Sent D W) × (handle node cfg c idxr topic b s ≡ some s')
        × ((k : ℕ)
            → reached idxr k s' ≡ (
                reached idxr k s
                || (k == b.height
                    && (arrives topic
                        || lacking node.get_block node.get_txs node.get_results cfg b))))
  unfolding handle after_fetch
  handle-reaches publish_fails b s i = not_arrived publish_fails refl b s i
  handle-reaches lost b s i = not_arrived lost refl b s i
  handle-reaches delivered b s i =
      elim (fetch_block_gives node.get_block node.get_txs node.get_results cfg b s.failed) [
        | inl (e, l) ↦
            (after_fetch b s, rw (handle, e) refl, λ k. recorded b s k ∙ rw l (ground arith))
        | inr (d, e, block, same, l) ↦
            let (s', done, r') = pass_on-reaches d (after_fetch b s) in
            (
              s',
              rw (handle, e) done,
              λ k.
                  let h = own_height b.height d.block_data block in
                  r' k
                  ∙ ap
                      (λ x.
                        x
                        || (k == d.block_data.height
                            && (d.index_transactions && not d.tx_requests_failed
                                || unfit d.block_data)))
                      (recorded b s k)
                  ∙ rw (h, same, l, i) (ground arith),
            )
      ]

  -- The heights of the queued blocks that redis delivers, or that the fetch recorded as failed before.
  abbrev pub kept : List (EnqueueData × Delivery) → List ℕ
  kept [] = []
  kept ((b, topic) ∷ bs) =
      if arrives topic || lacking node.get_block node.get_txs node.get_results cfg b
      then b.height ∷ kept bs
      else kept bs
