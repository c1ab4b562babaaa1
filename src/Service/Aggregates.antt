-- ===== src/Service/Aggregates.antt =====
-- pkg/service/aggregates.go; pkg/service/tx.go: TotalTransactions; pkg/server/blocks.go: CacheAggregated. A call asks
-- for the time more than once: all of it happens at one time here. The five seconds that GetTotals gives
-- StoreAggregates are among the reasons for a query to fail. Numbers are not made texts.
pub mod Cached
use cosmos_indexer.Prelude.{ℕ, Bool, true, false, if◌then◌else◌, Option, none, some}
use cosmos_indexer.Repository.Totals.{
  totals_stored, ◌>>=?◌, Stats, TotalBlocks, total_blocks, transactions_per_period,
  volume_per_period, TotalWallets, get_wallets_count, TxCounts, latest_block_height,
}
use cosmos_indexer.Cache.Recent.{Json}
use cosmos_indexer.Cache.Totals.{Strings, add_totals, get_totals}

pub record TotalTransactions : Type 0 where
  pub counts : TxCounts
  pub volume_24h : ℕ
  pub volume_30d : ℕ

pub record AggregatedInfo : Type 0 where
  pub updated_at : ℕ
  pub blocks : TotalBlocks
  pub transactions : TotalTransactions
  pub wallets : TotalWallets

unfoldable pub total_transactions : Stats → ℕ → Option TotalTransactions
unfolding transactions_per_period volume_per_period
total_transactions q to = transactions_per_period q to >>=? λ counts.
    volume_per_period q to >>=? λ volumes.
    some (record { counts = counts; volume_24h = volumes.0; volume_30d = volumes.1 })

module _ (first_day : ℕ → ℕ) (json : Json AggregatedInfo) (d : Strings) where
  -- What is gathered from the database. The calls for the transactions are those of TotalTransactions.
  unfoldable pub gather : Stats → ℕ → Option AggregatedInfo
  unfolding total_blocks total_transactions get_wallets_count
  gather q now = total_blocks q now >>=? λ blocks. total_transactions q now >>=? λ txs.
      get_wallets_count first_day q now >>=? λ wallets.
      some (record { updated_at = now; blocks = blocks; transactions = txs; wallets = wallets })

  -- The rest of StoreAggregates, from AddTotals on; `none` is an error of what comes before.
  unfoldable pub store_info :
      Stats → ℕ → Option AggregatedInfo → d.Server → d.Server × Option AggregatedInfo
  unfolding add_totals
  store_info q now none s = (s, none)
  store_info q now (some info) s =
      if q.fails totals_stored
      then (s, none)
      else (let (t, added) = add_totals json d (some info) now s in
          elim added [ true ↦ (t, some info) | false ↦ (t, none) ])

  unfoldable pub store_aggregates : Stats → ℕ → d.Server → d.Server × Option AggregatedInfo
  unfolding gather store_info
  store_aggregates q now s = store_info q now (gather q now) s

  unfoldable pub aggregates_totals : Stats → ℕ → d.Server → d.Server × Option AggregatedInfo
  unfolding get_totals store_aggregates
  aggregates_totals q now s = elim (get_totals json d now s) [
    | some info ↦ (s, some info)
    | none ↦ store_aggregates q now s
  ]

  -- The handler: the height is the database's, when there is one.
  unfoldable pub cache_aggregated : Stats → ℕ → d.Server → d.Server × Option AggregatedInfo
  unfolding aggregates_totals latest_block_height
  cache_aggregated q now s =
      let (t, answer) = aggregates_totals q now s in
      elim answer [
        | none ↦ (t, none)
        | some info ↦ elim (latest_block_height q) [
          | none ↦ (t, some info)
          | some last ↦
              (t, some (record info { blocks = record info.blocks { block_height = last } }))
        ]
      ]
