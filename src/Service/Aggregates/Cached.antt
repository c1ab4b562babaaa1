-- ===== src/Service/Aggregates/Cached.antt =====
-- pkg/service/aggregates.go: when the totals are there, and from when they are.
use cosmos_indexer.Prelude.{
  not, if◌then◌else◌, ℕ, ◌+◌, ◌<◌, ◌≡◌, refl, Bool, true, false, ◌&&◌, String, List, [], ◌∷◌,
  Option, none, some, is_some, arith, Option-cases, inl, inr,
}
use mathlib.Core.Path.{subst}
use cosmos_indexer.Repository.Totals.{
  Query, top_height, blocks_24h, blocks_48h, block_times, fee_sum, txs_all, txs_24h, txs_48h,
  txs_30d, volume_24h, volume_30d, wallets_all, latest_height, totals_stored, ask, total_blocks,
  blocks_count, tx_count_per_period, volume_per_period, volume_in, Stats, sum_rows,
  transactions_per_period, get_wallets_count, latest_block_height, max_height,
}
use cosmos_indexer.Cache.Recent.{Json}
use cosmos_indexer.Cache.Totals.{
  Strings, StringsDocumented, totals_key, totals_ttl, add_totals, get_totals,
}
use cosmos_indexer.Service.Aggregates.{
  AggregatedInfo, total_transactions, gather, store_info, store_aggregates, aggregates_totals,
  cache_aggregated,
}

abbrev pub any_row : List (ℕ × ℕ) → Bool
any_row [] = false
any_row (_ ∷ _) = true

is_some-sum_rows : (rows : List (ℕ × ℕ)) → is_some (sum_rows rows) ≡ any_row rows
unfolding sum_rows
is_some-sum_rows [] = refl
is_some-sum_rows (r ∷ rows) = elim (Option-cases (sum_rows rows)) [
  | inl e ↦ rw e refl
  | inr (n, e) ↦ rw e refl
]

-- None of some queries fails.
abbrev pub all_work : Stats → List Query → Bool
all_work q [] = true
all_work q (k ∷ ks) = not (q.fails k) && all_work q ks

-- The queries that must not fail for the totals to be gathered.
abbrev pub needed : List Query
needed =
    top_height ∷ blocks_24h ∷ blocks_48h ∷ block_times ∷ fee_sum ∷ txs_all ∷ txs_24h ∷ txs_48h
    ∷ txs_30d ∷ volume_24h ∷ volume_30d ∷ wallets_all ∷ []

is_some-total_blocks :
    (q : Stats) (to : ℕ)
    → is_some (total_blocks q to)
      ≡ all_work q (top_height ∷ blocks_24h ∷ blocks_48h ∷ block_times ∷ fee_sum ∷ [])
unfolding total_blocks blocks_count ask
is_some-total_blocks q to = ground arith

is_some-total_transactions :
    (q : Stats) (to : ℕ)
    → is_some (total_transactions q to) ≡ (
        all_work q (txs_all ∷ txs_24h ∷ txs_48h ∷ txs_30d ∷ volume_24h ∷ volume_30d ∷ [])
        && any_row q.daily_tx_counts)
unfolding total_transactions transactions_per_period tx_count_per_period volume_per_period volume_in
    ask
is_some-total_transactions q to = ground (arith, is_some-sum_rows q.daily_tx_counts)

is_some-get_wallets_count :
    (first_day : ℕ → ℕ) (q : Stats) (now : ℕ)
    → is_some (get_wallets_count first_day q now)
      ≡ (all_work q (wallets_all ∷ []) && any_row q.daily_wallets_counts)
unfolding get_wallets_count ask
is_some-get_wallets_count first_day q now = ground (arith, is_some-sum_rows q.daily_wallets_counts)

module _ (first_day : ℕ → ℕ) (json : Json AggregatedInfo) (d : Strings) where
  is_some-gather :
      (q : Stats) (now : ℕ)
      → is_some (gather first_day json d q now)
        ≡ (all_work q needed && any_row q.daily_tx_counts && any_row q.daily_wallets_counts)
  unfolding gather
  is_some-gather q now = ground (
    arith,
    is_some-total_blocks q now,
    is_some-total_transactions q now,
    is_some-get_wallets_count first_day q now,
  )

  add_totals-stored :
      StringsDocumented d
      → ((a : AggregatedInfo) (res : String)
          → json.marshal a ≡ some res
          → json.unmarshal res ≡ some a)
      → (info : AggregatedInfo) (now later : ℕ) (s : d.Server)
      → (add_totals json d (some info) now s).1 ≡ true
      → later < now + totals_ttl
      → get_totals json d later (add_totals json d (some info) now s).0 ≡ some info
  unfolding add_totals get_totals
  add_totals-stored promise back info now later s added soon =
      elim (Option-cases (json.marshal info)) [
        | inl e ↦ absurd (ground (arith, e))
        | inr (res, e) ↦
            let (t, set, there, gone) = promise.set_ok totals_key res totals_ttl now s in
            ground (arith, e, set, there later soon, back info res e)
      ]

  is_some-store_aggregates :
      StringsDocumented d
      → ((a : AggregatedInfo) → (res : String) × (json.marshal a ≡ some res))
      → (q : Stats) (now : ℕ) (s : d.Server)
      → is_some (store_aggregates first_day json d q now s).1
        ≡ (not (q.fails totals_stored) && is_some (gather first_day json d q now))
  unfolding store_aggregates add_totals
  is_some-store_aggregates promise encodes q now s =
      elim (Option-cases (gather first_day json d q now)) [
        | inl e ↦ ground (arith, e)
        | inr (info, e) ↦
            let (res, m) = encodes info in
            let (t, set, there, gone) = promise.set_ok totals_key res totals_ttl now s in
            ground (arith, e, m, set)
      ]

  store_info-added :
      (q : Stats) (now : ℕ) (o : Option AggregatedInfo) (s t : d.Server) (info : AggregatedInfo)
      → store_info first_day json d q now o s ≡ (t, some info)
      → ((add_totals json d (some info) now s).1 ≡ true)
        × ((add_totals json d (some info) now s).0 ≡ t)
  unfolding store_info
  store_info-added q now none s t info h = ground arith
  store_info-added q now (some i) s t info h = ground arith

  stored-gather :
      (q : Stats) (now : ℕ) (s t : d.Server) (info : AggregatedInfo)
      → store_aggregates first_day json d q now s ≡ (t, some info)
      → ((add_totals json d (some info) now s).1 ≡ true)
        × ((add_totals json d (some info) now s).0 ≡ t)
  unfolding store_aggregates
  stored-gather q now s t info h = store_info-added q now (gather first_day json d q now) s t info h

-- The information with the height of the newest block that the database has, if it has one and can be asked.
abbrev pub with_height : Stats → AggregatedInfo → AggregatedInfo
with_height q info = if q.fails latest_height then info else (elim q.blocks [
  | [] ↦ info
  | _ ∷ _ ↦ record info { blocks = record info.blocks { block_height = max_height q.blocks } }
])

module _ (first_day : ℕ → ℕ) (json : Json AggregatedInfo) (d : Strings)
    (promise : StringsDocumented d) where
  -- With redis up, and totals that read back as they were written: once totals have been stored, the handler gives
  -- them for the next ten minutes, whatever is in the database by then, but for the height, which is the database's
  -- where it has a block and can be asked.
  pub cache_aggregated-stored :
      ((a : AggregatedInfo) (res : String)
        → json.marshal a ≡ some res
        → json.unmarshal res ≡ some a)
      → (q later_rows : Stats) (now later : ℕ) (s t : d.Server) (info : AggregatedInfo)
      → store_aggregates first_day json d q now s ≡ (t, some info)
      → later < now + totals_ttl
      → cache_aggregated first_day json d later_rows later t
        ≡ (t, some (with_height later_rows info))
  unfolding cache_aggregated aggregates_totals latest_block_height ask
  cache_aggregated-stored back q later_rows now later s t info h soon =
      let (added, same) = stored-gather first_day json d q now s t info h in
      let cached : get_totals json d later t ≡ some info =
        subst (λ u. get_totals json d later u ≡ some info) same
          (add_totals-stored first_day json d promise back info now later s added soon) in
      ground (arith, cached)

  -- With redis up, and a text for all totals: without stored totals the handler answers exactly if none of the queries
  -- fails but those that are tolerated, the context is not done when the totals are stored, and both the view of the
  -- transactions' counts and that of the wallets' have a row.
  pub cache_aggregated-answers :
      ((a : AggregatedInfo) → (res : String) × (json.marshal a ≡ some res))
      → (q : Stats) (now : ℕ) (s : d.Server) → get_totals json d now s ≡ none
      → is_some (cache_aggregated first_day json d q now s).1 ≡ (
          all_work q (totals_stored ∷ needed)
          && (any_row q.daily_tx_counts && any_row q.daily_wallets_counts))
  unfolding cache_aggregated aggregates_totals latest_block_height ask
  cache_aggregated-answers encodes q now s missing = ground (
    arith,
    missing,
    is_some-store_aggregates first_day json d promise encodes q now s,
    is_some-gather first_day json d q now,
  )
