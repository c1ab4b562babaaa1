-- ===== src/Worker.antt =====
-- core/rpc_worker.go, FetchBlock; db/db.go, UpsertFailedBlock and UpsertFailedEventBlock. The node's
-- answers are parameters: `get_block`, `get_txs`, and `get_results` with the retry attempts and the
-- longest wait. A database error ends the process in the source, and is left out.
use cosmos_indexer.Prelude.{
  ℕ, ◌≡◌, refl, Bool, true, false, List, [], ◌∷◌, ◌++◌, Option, none, some, if◌then◌else◌, elem,
  is_some, arith, Option-cases, inl, inr, ◌||◌, ◌==◌, not, ◌&&◌, Bool-cases, ◌∙◌, elem-append, ap,
  ◌⊎◌,
}
use cosmos_indexer.Prelude.Int.{ℤ, pos}
use cosmos_indexer.Enqueue.{EnqueueData}

-- The tables failed_event_blocks and failed_blocks of one chain, as heights.
pub record FailedTables : Type 0 where
  pub event_blocks : List ℕ
  pub blocks : List ℕ

-- `FirstOrCreate`.
unfoldable pub upsert : ℕ → List ℕ → List ℕ
upsert h hs = if elem h hs then hs else hs ++ h ∷ []

unfoldable pub upsert_failed_block : ℕ → FailedTables → FailedTables
unfolding upsert
upsert_failed_block h t = record t { blocks = upsert h t.blocks }

unfoldable pub upsert_failed_event_block : ℕ → FailedTables → FailedTables
unfolding upsert
upsert_failed_event_block h t = record t { event_blocks = upsert h t.event_blocks }

pub elem-upsert : (k h : ℕ) (hs : List ℕ) → elem k (upsert h hs) ≡ (elem k hs || k == h)
unfolding upsert
elem-upsert k h hs = elim (Bool-cases (elem h hs)) [
  | inl e ↦ rw e (ground (arith, e))
  | inr e ↦ rw (e, elem-append k hs (h ∷ [])) (ground arith)
]

-- The retry settings of the configuration. A negative number of attempts stands for no limit.
pub record RetryConfig : Type 0 where
  pub request_retry_attempts : ℤ
  pub request_retry_max_wait : ℕ

pub record IndexerBlockEventData (B R T : Type 0) : Type 0 where
  pub block_data : B
  pub block_results_data : Option R
  pub block_event_requests_failed : Bool
  pub get_txs_response : Option T
  pub tx_requests_failed : Bool
  pub index_transactions : Bool

module _ {B R T : Type 0} (get_block : ℕ → Option B) (get_txs : ℕ → Option T)
    (get_results : ℕ → ℤ → ℕ → Option R) (cfg : Option RetryConfig) where
  unfoldable pub retry_attempts : ℤ
  retry_attempts = elim cfg [ none ↦ pos 5 | some c ↦ c.request_retry_attempts ]

  unfoldable pub retry_max_wait : ℕ
  retry_max_wait = elim cfg [ none ↦ 20 | some c ↦ c.request_retry_max_wait ]

  -- The request of the transactions, once the block is there.
  unfoldable pub fetch_txs :
      ℕ → IndexerBlockEventData B R T → FailedTables → IndexerBlockEventData B R T × FailedTables
  unfolding upsert_failed_block retry_attempts retry_max_wait
  fetch_txs h d t = elim (get_txs h) [
    | some txs ↦ (record d { get_txs_response = some txs }, t)
    | none ↦ elim (d.block_results_data) [
      | some r ↦ (d, t)
      | none ↦ elim (get_results h retry_attempts retry_max_wait) [
        | none ↦ (
          record d {
            get_txs_response = none;
            block_results_data = none;
            tx_requests_failed = true;
          },
          upsert_failed_block h t,
        )
        | some r ↦ (record d { block_results_data = some r }, t)
      ]
    ]
  ]

  unfoldable pub fetch_block :
      EnqueueData → FailedTables → Option (IndexerBlockEventData B R T) × FailedTables
  unfolding fetch_txs upsert_failed_event_block
  fetch_block b t = elim (get_block b.height) [
    | none ↦ (none, upsert_failed_block b.height (upsert_failed_event_block b.height t))
    | some block ↦
        let d : IndexerBlockEventData B R T = record {
          block_data = block;
          block_results_data = none;
          block_event_requests_failed = false;
          get_txs_response = none;
          tx_requests_failed = false;
          index_transactions = b.index_transactions;
        } in
        let found = if b.index_transactions then fetch_txs b.height d t else (d, t) in
        (some found.0, found.1)
  ]

  -- What a block lacks: the block itself, or, where its transactions are wanted, both sources of them.
  abbrev pub lacking : EnqueueData → Bool
  lacking b =
      not (is_some (get_block b.height))
      || b.index_transactions
        && not (is_some (get_txs b.height))
        && not (is_some (get_results b.height retry_attempts retry_max_wait))

  pub fetch_block-records :
      (b : EnqueueData) (t : FailedTables) (k : ℕ)
      → elem k (fetch_block b t).1.blocks ≡ (elem k t.blocks || (k == b.height && lacking b))
  unfolding fetch_block fetch_txs upsert_failed_block upsert_failed_event_block
  fetch_block-records b t k = elim (Option-cases (get_block b.height)) [
    | inl e ↦ rw (fetch_block, e) (elem-upsert k b.height t.blocks ∙ ground arith)
    | inr (block, e) ↦ elim (Bool-cases b.index_transactions) [
      | inl i ↦ elim (Option-cases (get_txs b.height)) [
        | inl q ↦ elim (Option-cases (get_results b.height retry_attempts retry_max_wait)) [
          | inl w ↦
              rw (fetch_block, fetch_txs, e, i, q, w)
                (elem-upsert k b.height t.blocks ∙ ground arith)
          | inr (_, w) ↦ rw (fetch_block, fetch_txs, e, i, q, w) (ground arith)
        ]
        | inr (_, q) ↦ rw (fetch_block, fetch_txs, e, i, q) (ground arith)
      ]
      | inr i ↦ rw (fetch_block, fetch_txs, e, i) (ground arith)
    ]
  ]

  -- What a fetch gives: nothing, where the node does not give the block, or the block, marked by whether
  -- something that was wanted is lacking.
  pub fetch_block_gives :
      (b : EnqueueData) (t : FailedTables)
      → ((fetch_block b t).0 ≡ none) × (lacking b ≡ true)
        ⊎ ((d : IndexerBlockEventData B R T) × ((fetch_block b t).0 ≡ some d)
            × (get_block b.height ≡ some d.block_data)
            × (d.index_transactions ≡ b.index_transactions)
            × (d.tx_requests_failed ≡ lacking b))
  unfolding fetch_block fetch_txs upsert_failed_block upsert_failed_event_block
  fetch_block_gives b t = elim (Option-cases (get_block b.height)) [
    | inl e ↦ inl (rw (fetch_block, e) refl, rw e refl)
    | inr (block, e) ↦
        let d : IndexerBlockEventData B R T = record {
          block_data = block;
          block_results_data = none;
          block_event_requests_failed = false;
          get_txs_response = none;
          tx_requests_failed = false;
          index_transactions = b.index_transactions;
        } in
        elim (Bool-cases b.index_transactions) [
          | inr i ↦ inr (d, rw (fetch_block, fetch_txs, e, i) refl, e, refl, rw (e, i) refl)
          | inl i ↦ elim (Option-cases (get_txs b.height)) [
            | inr (x, q) ↦ inr (
              record d { get_txs_response = some x },
              rw (fetch_block, fetch_txs, e, i, q)
                  (ap (λ y. some (record d { get_txs_response = some x; index_transactions = y }))
                    i),
              e,
              refl,
              rw (e, i, q) refl,
            )
            | inl q ↦ elim (Option-cases (get_results b.height retry_attempts retry_max_wait)) [
              | inr (x, w) ↦ inr (
                record d { block_results_data = some x },
                rw (fetch_block, fetch_txs, e, i, q, w)
                    (ap
                      (λ y. some (record d { block_results_data = some x; index_transactions = y }))
                      i),
                e,
                refl,
                rw (e, i, q, w) refl,
              )
              | inl w ↦ inr (
                record d { tx_requests_failed = true },
                rw (fetch_block, fetch_txs, e, i, q, w)
                    (ap (λ y. some (record d { tx_requests_failed = true; index_transactions = y }))
                      i),
                e,
                refl,
                rw (e, i, q, w) refl,
              )
            ]
          ]
        ]
  ]

  -- Where the node gives the block and nothing is lacking, the fetch hands the block on with no failure
  -- mark, and with its transactions or its results where the transactions are wanted.
  pub fetch_block-data :
      (b : EnqueueData) (t : FailedTables)
      → lacking b ≡ false
      → (d : IndexerBlockEventData B R T) × ((fetch_block b t).0 ≡ some d)
        × (get_block b.height ≡ some d.block_data)
        × (d.tx_requests_failed ≡ false)
        × ((not b.index_transactions || is_some d.get_txs_response || is_some d.block_results_data)
            ≡ true)
  unfolding fetch_block fetch_txs upsert_failed_block upsert_failed_event_block
  fetch_block-data b t h = elim (Option-cases (get_block b.height)) [
    | inl e ↦ no_fetch (rw e at h)
    | inr (block, e) ↦
        let d : IndexerBlockEventData B R T = record {
          block_data = block;
          block_results_data = none;
          block_event_requests_failed = false;
          get_txs_response = none;
          tx_requests_failed = false;
          index_transactions = b.index_transactions;
        } in
        elim (Bool-cases b.index_transactions) [
          | inl i ↦ elim (Option-cases (get_txs b.height)) [
            | inl q ↦ elim (Option-cases (get_results b.height retry_attempts retry_max_wait)) [
              | inl w ↦ no_fetch (rw (e, i, q, w) at h)
              | inr (x, w) ↦ (
                record d { block_results_data = some x },
                rw (fetch_block, fetch_txs, e, i, q, w)
                    (ap
                      (λ y. some (record d { block_results_data = some x; index_transactions = y }))
                      i),
                e,
                refl,
                rw i refl,
              )
            ]
            | inr (x, q) ↦ (
              record d { get_txs_response = some x },
              rw (fetch_block, fetch_txs, e, i, q)
                  (ap (λ y. some (record d { get_txs_response = some x; index_transactions = y }))
                    i),
              e,
              refl,
              rw i refl,
            )
          ]
          | inr i ↦ (d, rw (fetch_block, fetch_txs, e, i) refl, e, refl, rw i refl)
        ]
  ]
    where
      no_fetch : {C : Type 0} → true ≡ false → C
      no_fetch h = cc
