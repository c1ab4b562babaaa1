-- ===== src/Repository/Totals.antt =====
-- pkg/repository/blocks.go: TotalBlocks, LatestBlockHeight; pkg/repository/txs.go: TransactionsPerPeriod,
-- VolumePerPeriod, GetWalletsCount, with their queries over lists of rows. A time is the number of nanoseconds since
-- Go's zero time, a day the number of days since then, and all times are in UTC. A query fails for whatever reason, a
-- context that is done among them; reading the NULL that SUM gives for no rows as a number fails too.
use cosmos_indexer.Prelude.{
  ℕ, suc, ◌-◌, ◌+◌, ◌/◌, ◌%◌, ◌*◌, ◌^◌, Bool, ◌&&◌, List, [], ◌∷◌, ◌++◌, map, Option, none, some,
  if◌then◌else◌, leb, ltb, ◌==◌, length, select, take, sort_by,
}
use cosmos_indexer.Prelude.Int.{ℤ, pos, negsuc}
use cosmos_indexer.Repository.BlockTime.{block_time}

abbrev pub hour : ℕ
hour = 3600 * 10 ^ 9

abbrev pub day : ℕ
day = 24 * hour

-- The queries, by what they ask for.
pub data Query : Type 0 where
  top_height blocks_24h blocks_48h block_times fee_sum : Query
  txs_all txs_24h txs_48h txs_30d volume_24h volume_30d : Query
  wallets_all wallets_24h wallets_48h wallets_30d : Query
  latest_height totals_stored : Query

-- Rows of the tables, and of the materialized views. A block is its height and its time; a fee the time of its block
-- and its amount; the others a day and a number. `fails` says which queries fail, and with `totals_stored` whether
-- the context is done when the totals are stored.
pub record Stats : Type 0 where
  pub fails : Query → Bool
  pub blocks : List (ℕ × ℕ)
  pub fees : List (ℕ × ℕ)
  pub daily_tx_counts : List (ℕ × ℕ)
  pub daily_fees_summary : List (ℕ × ℕ)
  pub daily_wallets_counts : List (ℕ × ℕ)

-- A query, and what reading its row gives.
unfoldable pub ask : Stats → Query → {A : Type 0} → Option A → Option A
ask q k answer = if q.fails k then none else answer

-- `x, err := m; if err != nil { return err }` and the rest.
infixl 5 ◌>>=?◌
abbrev pub ◌>>=?◌ : {A B : Type 0} → Option A → (A → Option B) → Option B
none >>=? f = none
some a >>=? f = f a

-- t.Truncate(24 * time.Hour).
abbrev pub truncate_day : ℕ → ℕ
truncate_day t = t - t % day

-- `k BETWEEN from AND to`.
abbrev pub between : ℕ → ℕ → ℕ × ℕ → Bool
between from to row = leb from row.0 && leb row.0 to

-- SUM.
unfoldable pub sum_rows : List (ℕ × ℕ) → Option ℕ
sum_rows [] = none
sum_rows (r ∷ rows) =
    let rest = sum_rows rows in elim rest [ none ↦ some r.1 | some n ↦ some (r.1 + n) ]

-- COALESCE(…, 0), and what a failed Scan is replaced with.
abbrev pub or_zero : Option ℕ → ℕ
or_zero none = 0
or_zero (some n) = n

unfoldable pub max_height : List (ℕ × ℕ) → ℕ
max_height [] = 0
max_height (b ∷ bs) = let rest = max_height bs in if ltb rest b.0 then b.0 else rest

abbrev reversed {ℓ} : {A : Type ℓ} → List A → List A
reversed [] = []
reversed (x ∷ xs) = reversed xs ++ x ∷ []

-- The times of the hundred newest blocks.
unfoldable pub newest_times : List (ℕ × ℕ) → List ℕ
newest_times blocks = map (λ b. b.1) (take 100 (reversed (sort_by (λ b. b.0) blocks)))

-- A table without rows is an error of LatestBlockHeight.
unfoldable pub latest_block_height : Stats → Option ℕ
unfolding max_height ask
latest_block_height q =
    ask q latest_height (elim q.blocks [ [] ↦ none | _ ∷ _ ↦ some (max_height q.blocks) ])

unfoldable pub blocks_count : Stats → Query → ℕ → ℕ → Option ℕ
unfolding ask
blocks_count q k from to =
    ask q k (some (length (select (λ b. between from to (b.1, b.0)) q.blocks)))

pub record TotalBlocks : Type 0 where
  pub block_height : ℕ
  pub count_24h : ℕ
  pub count_48h : ℕ
  pub block_time : ℤ
  pub total_fee_24h : ℕ

-- A number of halves made an `int64`: rounded towards zero.
abbrev whole : ℤ → ℤ
whole (pos n) = pos (n / 2)
whole (negsuc n) = let k = suc n / 2 in if k == 0 then pos 0 else negsuc (k - 1)

unfoldable pub total_blocks : Stats → ℕ → Option TotalBlocks
unfolding max_height blocks_count newest_times block_time sum_rows ask
total_blocks q to =
    let from = truncate_day to in
    ask q top_height (some (max_height q.blocks)) >>=? λ height.
    blocks_count q blocks_24h from to >>=? λ count_24h.
    blocks_count q blocks_48h (truncate_day (from - day)) from >>=? λ count_48h.
    ask q block_times (some (whole (block_time (newest_times q.blocks)))) >>=? λ time.
    ask q fee_sum (some (or_zero (sum_rows (select (between from to) q.fees)))) >>=? λ fees.
    some (record {
      block_height = height;
      count_24h = count_24h;
      count_48h = count_48h;
      block_time = time;
      total_fee_24h = fees;
    })

-- The query compares days, so that of the times only the day counts.
unfoldable pub tx_count_per_period : Stats → Query → ℕ → ℕ → Option ℕ
unfolding sum_rows ask
tx_count_per_period q k from to =
    ask q k (some (or_zero (sum_rows (select (between (from / day) (to / day)) q.daily_tx_counts))))

pub record TxCounts : Type 0 where
  pub total : ℕ
  pub total_24h : ℕ
  pub total_48h : ℕ
  pub total_30d : ℕ

unfoldable pub transactions_per_period : Stats → ℕ → Option TxCounts
unfolding sum_rows tx_count_per_period ask
transactions_per_period q to =
    let from = truncate_day to in
    ask q txs_all (sum_rows q.daily_tx_counts) >>=? λ all.
    tx_count_per_period q txs_24h from to >>=? λ total_24h.
    tx_count_per_period q txs_48h (from - day) from >>=? λ total_48h.
    tx_count_per_period q txs_30d (truncate_day (to - 720 * hour)) to >>=? λ total_30d.
    some
      (record { total = all; total_24h = total_24h; total_48h = total_48h; total_30d = total_30d })

unfoldable pub volume_in : Stats → Query → ℕ → ℕ → Option ℕ
unfolding sum_rows ask
volume_in q k from to =
    ask q k
      (some (or_zero (sum_rows (select (between (from / day) (to / day)) q.daily_fees_summary))))

-- The volumes of 24 hours and of 30 days.
unfoldable pub volume_per_period : Stats → ℕ → Option (ℕ × ℕ)
unfolding volume_in
volume_per_period q to = volume_in q volume_24h (to - 24 * hour) to >>=? λ total_24h.
    volume_in q volume_30d (to - 24 * 30 * hour) to >>=? λ total_30d. some (total_24h, total_30d)

pub record TotalWallets : Type 0 where
  pub total : ℕ
  pub count_24h : ℕ
  pub count_48h : ℕ
  pub count_30d : ℕ

-- `first_day` is the calendar's: the first day of the month of a time.
unfoldable pub get_wallets_count : (ℕ → ℕ) → Stats → ℕ → Option TotalWallets
unfolding sum_rows ask
get_wallets_count first_day q now =
    let since : Query → ℕ → ℕ =
      λ k from. or_zero (ask q k (sum_rows (select (λ r. leb from r.0) q.daily_wallets_counts))) in
    ask q wallets_all (sum_rows q.daily_wallets_counts) >>=? λ all. some (record {
      total = all;
      count_24h =
          or_zero
            (ask q wallets_24h (sum_rows (select (λ r. r.0 == now / day) q.daily_wallets_counts)));
      count_48h = since wallets_48h ((now - 24 * hour) / day);
      count_30d = since wallets_30d (first_day now);
    })
