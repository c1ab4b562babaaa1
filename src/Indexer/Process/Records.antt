-- ===== src/Indexer/Process/Records.antt =====
-- cmd/index.go, processBlocks: each received block ends in a channel or in a table of failed blocks.
use cosmos_indexer.Prelude.{
  ℕ, ◌≡◌, refl, ap, sym, ◌∙◌, Bool, true, false, not, ◌&&◌, ◌||◌, List, [], ◌∷◌, ◌++◌, Option, none,
  some, Result, ok, err, elem, inl, inr, arith, Bool-cases, Option-cases, Result-cases, map, is_ok,
  ◌==◌, elem-append, is_some, All,
}
use mathlib.Core.List.{map-append}
use cosmos_indexer.Models.{Block}
use cosmos_indexer.Filter.Regexp.{Regexp}
use cosmos_indexer.Events.Process.{process_rpc_block_results}
use cosmos_indexer.Worker.{
  IndexerBlockEventData, upsert_failed_block, upsert_failed_event_block, elem-upsert,
}
use cosmos_indexer.Indexer.Process.{
  ResultBlock, ResultBlockResults, Indexer, TxData, Sent, process_block, filter_events,
  send_block_events, parse_txs, send_txs, process_one, process_blocks, to_block_info,
}

module _ {r : Regexp} {E D W T X : Type 0} (idxr : Indexer r E D W T X) where
  -- The transactions of a height went to the database writer's channel, or the height is in the table of
  -- failed blocks.
  abbrev pub reached : ℕ → Sent D W → Bool
  reached h s = elem h s.failed.blocks || elem h (map (λ d. d.block.height) s.txs)

  -- Whether a received block is one whose transactions are to be indexed, or does not become a row.
  abbrev pub to_reach :
      IndexerBlockEventData (Option ResultBlock) (ResultBlockResults X) T → ResultBlock → Bool
  to_reach d block_data =
      d.index_transactions && not d.tx_requests_failed
      || not (is_ok (process_block idxr.cons_address idxr.hash_text block_data idxr.chain_id))

  reached-send_block_events :
      (k : ℕ) (block : Block) (results : ResultBlockResults X) (s : Sent D W)
      → reached k (send_block_events idxr block results s) ≡ reached k s
  unfolding send_block_events upsert_failed_event_block
  reached-send_block_events k block results s =
      elim (Result-cases (
        process_rpc_block_results idxr.decode block results.begin_block_events
          results.end_block_events idxr.begin_parsers idxr.end_parsers)) [
            | inr (_, e) ↦ rw (send_block_events, e) refl
            | inl (w, e) ↦
                elim (Result-cases (filter_events idxr idxr.begin_filters w.begin_block_events)) [
                  | inr (_, q) ↦ rw (send_block_events, e, q) refl
                  | inl (begins, q) ↦
                      elim (Result-cases (filter_events idxr idxr.end_filters w.end_block_events)) [
                        | inr (_, p) ↦ rw (send_block_events, e, q, p) refl
                        | inl (ends, p) ↦ rw (send_block_events, e, q, p) refl
                      ]
                ]
          ]

  reached-failed :
      (k h : ℕ) (s : Sent D W)
      → reached k (record s { failed = upsert_failed_block h s.failed }) ≡ (reached k s || k == h)
  unfolding upsert_failed_block
  reached-failed k h s = rw (elem-upsert k h s.failed.blocks) (ground arith)

  reached-sent :
      (k : ℕ) (d : TxData W) (s : Sent D W)
      → reached k (record s { txs = s.txs ++ d ∷ [] }) ≡ (reached k s || k == d.block.height)
  reached-sent k d s =
      rw
        (
          map-append (λ x. x.block.height) s.txs (d ∷ []),
          elem-append k (map (λ x. x.block.height) s.txs) (d.block.height ∷ []),
        )
        (ground arith)

  reached-send_txs :
      (k : ℕ) (block_data : ResultBlock)
      (d : IndexerBlockEventData (Option ResultBlock) (ResultBlockResults X) T) (block : Block)
      (s : Sent D W)
      → block.height ≡ block_data.height
      → reached k (send_txs idxr block_data d block s) ≡ (
          reached k s
          || (k == block_data.height && (d.index_transactions && not d.tx_requests_failed)))
  unfolding send_txs
  reached-send_txs k block_data d block s same =
      elim (Bool-cases (d.index_transactions && not d.tx_requests_failed)) [
        | inr i ↦ rw (send_txs, i) (ground arith)
        | inl i ↦
            elim (Result-cases
              (parse_txs idxr block_data d.block_results_data d.get_txs_response)) [
                | inr (_, e) ↦
                    rw (send_txs, i, e) (reached-failed k block_data.height s ∙ ground arith)
                | inl (ws, e) ↦
                    rw (send_txs, i, e)
                      (reached-sent k (record { tx_db_wrappers = ws; block = block }) s
                        ∙ ground (arith, same))
              ]
      ]

  process_block-height :
      (block_data : ResultBlock) (block : Block)
      → process_block idxr.cons_address idxr.hash_text block_data idxr.chain_id ≡ ok block
      → block.height ≡ block_data.height
  unfolding process_block
  process_block-height block_data block e =
      elim (Result-cases (idxr.cons_address block_data.proposer_address)) [
        | inl (a, q) ↦ sym (
            ap (λ m. elim m [ ok b ↦ b.height | err _ ↦ block_data.height ])
              (rw (process_block, q) at e))
        | inr (x, q) ↦ no_block (rw (process_block, q) at e)
      ]
    where
      no_block : {C : Type 0} {x : E} → ◌≡◌ {A = Result E Block} (err x) (ok block) → C
      no_block h = cc

  -- The heights that a received block adds to those reached.
  abbrev pub adds : ℕ → IndexerBlockEventData (Option ResultBlock) (ResultBlockResults X) T → Bool
  adds k d = elim (d.block_data) [
    | none ↦ false
    | some block_data ↦ k == block_data.height && to_reach d block_data
  ]

  -- Neither pointer is nil.
  abbrev pub IsWhole : IndexerBlockEventData (Option ResultBlock) (ResultBlockResults X) T → Type 0
  IsWhole d = (is_some d.block_data ≡ true) × (is_some d.block_results_data ≡ true)

  pub process_one-reaches :
      (d : IndexerBlockEventData (Option ResultBlock) (ResultBlockResults X) T) (s : Sent D W)
      → IsWhole d
      → (s' : Sent D W) × (process_one idxr d s ≡ some s')
        × ((k : ℕ) → reached k s' ≡ (reached k s || adds k d))
  unfolding process_one
  process_one-reaches d s (p, q) = elim (Option-cases (d.block_data)) [
    | inl e ↦ no_pointer (rw e at p)
    | inr (block_data, e) ↦ elim (Option-cases (d.block_results_data)) [
      | inl w ↦ no_pointer (rw w at q)
      | inr (results, w) ↦
          elim (Result-cases
            (process_block idxr.cons_address idxr.hash_text block_data idxr.chain_id)) [
              | inr (x, m) ↦ (
                record s { failed = upsert_failed_block block_data.height s.failed },
                rw (process_one, e, m) refl,
                λ k. rw (e, m) (reached-failed k block_data.height s ∙ ground arith),
              )
              | inl (block, m) ↦
                  let s1 = send_block_events idxr block results s in
                  let s2 = send_txs idxr block_data d block s1 in
                  (
                    record s2 { blocks = s2.blocks ++ to_block_info block ∷ [] },
                    rw (process_one, e, m, w) refl,
                    λ k.
                        rw (e, m)
                          (reached-send_txs k block_data d block s1
                              (process_block-height block_data block m)
                            ∙ ap
                                (λ x.
                                  x
                                  || (k == block_data.height
                                      && (d.index_transactions && not d.tx_requests_failed)))
                                (reached-send_block_events k block results s)
                            ∙ ground arith),
                  )
            ]
    ]
  ]
    where
      no_pointer : {C : Type 0} → false ≡ true → C
      no_pointer h = cc

  abbrev pub any_adds :
      ℕ → List (IndexerBlockEventData (Option ResultBlock) (ResultBlockResults X) T) → Bool
  any_adds k [] = false
  any_adds k (d ∷ ds) = adds k d || any_adds k ds

  -- The processor of blocks gets through any sequence of received blocks in which no pointer is nil, and
  -- then exactly the heights of those whose transactions are to be indexed, or that do not become a
  -- row, are new in the channel to the database writer or in the table of failed blocks.
  pub process_blocks-reaches :
      (ds : List (IndexerBlockEventData (Option ResultBlock) (ResultBlockResults X) T))
      (s : Sent D W)
      → All IsWhole ds
      → (s' : Sent D W) × (process_blocks idxr ds s ≡ some s')
        × ((k : ℕ) → reached k s' ≡ (reached k s || any_adds k ds))
  unfolding process_blocks
  process_blocks-reaches [] s h = (s, refl, λ k. ground arith)
  process_blocks-reaches (d ∷ ds) s (p, h) =
      let (s1, e1, r1) = process_one-reaches d s p in
      let (s2, e2, r2) = process_blocks-reaches ds s1 h in
      (
        s2,
        rw (process_blocks, e1) e2,
        λ k. r2 k ∙ ap (λ x. x || any_adds k ds) (r1 k) ∙ ground arith,
      )
