-- ===== src/Tests/Totals.antt =====
-- pkg/service/aggregates.go, pkg/server/blocks.go: the totals at concrete inputs.
use cosmos_indexer.Prelude.{
  false, ℕ, ◌+◌, ◌*◌, ◌≡◌, refl, ap, Bool, true, ◌&&◌, ◌==◌, String, List, [], ◌∷◌, Option, none,
  some, arith, is_some, if◌then◌else◌, ltb, sort_by, Bool-cases, inl, inr,
}
use cosmos_indexer.Prelude.Int.{pos, eqb_ℤ}
use cosmos_indexer.Prelude.Text.{str_eq, eq_refl}
use cosmos_indexer.Repository.BlockTime.{block_time}
use cosmos_indexer.Repository.BlockTime.Median.{IsMedian, gaps, block_time-IsMedian}
use cosmos_indexer.Repository.Totals.{totals_stored, Stats, day, hour, TotalBlocks, TotalWallets}
use cosmos_indexer.Cache.Recent.{Json}
use cosmos_indexer.Cache.Totals.{Strings, StringsDocumented, totals_ttl, get_totals}
use cosmos_indexer.Service.Aggregates.{
  AggregatedInfo, TotalTransactions, store_aggregates, cache_aggregated,
}
use cosmos_indexer.Service.Aggregates.Cached.{
  all_work, needed, with_height, any_row, cache_aggregated-stored, cache_aggregated-answers,
}

abbrev block_times : List ℕ
block_times = 20_000_000_000 ∷ 14_000_000_000 ∷ 9_000_000_000 ∷ 2_000_000_000 ∷ []

block_time-IsMedian_example : IsMedian (block_time block_times) (gaps block_times)
block_time-IsMedian_example = block_time-IsMedian block_times

-- Keys with their values and the times that they end at.
abbrev value_at : String → ℕ → List (String × (String × ℕ)) → Option String
value_at k now [] = none
value_at k now ((l, (v, end)) ∷ s) =
    if str_eq l k then (if ltb now end then some v else none) else value_at k now s

abbrev strings : Strings
strings = record {
  Server = List (String × (String × ℕ));
  set = λ k v ttl now s. some ((k, (v, now + ttl)) ∷ s);
  get_key = value_at;
}

strings-StringsDocumented : StringsDocumented strings
strings-StringsDocumented = record {
  set_ok = λ k v ttl now s. (
    (k, (v, now + ttl)) ∷ s,
    refl,
    (λ later h. ground (arith, eq_refl k)),
    (λ later h. ground (arith, eq_refl k)),
  );
}

abbrev stats : Stats
stats = record {
  fails = λ k. false;
  blocks = (7, 3 * day + 1) ∷ (8, 3 * day + 6_000_000_001) ∷ [];
  fees = (3 * day + 1, 40) ∷ [];
  daily_tx_counts = (2, 5) ∷ (3, 2) ∷ [];
  daily_fees_summary = (3, 40) ∷ [];
  daily_wallets_counts = (3, 4) ∷ [];
}

-- A month that starts on day 1.
abbrev first_day : ℕ → ℕ
first_day now = 1

abbrev noon : ℕ
noon = 3 * day + 12 * hour

abbrev info : AggregatedInfo
info = record {
  updated_at = noon;
  blocks = record {
    block_height = 8;
    count_24h = 2;
    count_48h = 0;
    block_time = pos 6;
    total_fee_24h = 40;
  };
  transactions = record {
    counts = record { total = 7; total_24h = 2; total_48h = 7; total_30d = 7 };
    volume_24h = 40;
    volume_30d = 40;
  };
  wallets = record { total = 4; count_24h = 4; count_48h = 4; count_30d = 4 };
}

abbrev same_blocks : TotalBlocks → Bool
same_blocks b =
    b.block_height == 8
    && b.count_24h == 2
    && b.count_48h == 0
    && eqb_ℤ b.block_time (pos 6)
    && b.total_fee_24h == 40

same_blocks-eq : (b : TotalBlocks) → same_blocks b ≡ true → b ≡ info.blocks
same_blocks-eq b h = ground arith

abbrev same_transactions : TotalTransactions → Bool
same_transactions x =
    x.counts.total == 7
    && x.counts.total_24h == 2
    && x.counts.total_48h == 7
    && x.counts.total_30d == 7
    && x.volume_24h == 40
    && x.volume_30d == 40

same_transactions-eq : (x : TotalTransactions) → same_transactions x ≡ true → x ≡ info.transactions
same_transactions-eq x h = ground arith

abbrev same_wallets : TotalWallets → Bool
same_wallets w = w.total == 4 && w.count_24h == 4 && w.count_48h == 4 && w.count_30d == 4

same_wallets-eq : (w : TotalWallets) → same_wallets w ≡ true → w ≡ info.wallets
same_wallets-eq w h = ground arith

abbrev same_info : AggregatedInfo → Bool
same_info a =
    a.updated_at == noon
    && same_blocks a.blocks
    && same_transactions a.transactions
    && same_wallets a.wallets

same_info-eq : (a : AggregatedInfo) → same_info a ≡ true → info ≡ a
same_info-eq a h =
    ground (
      arith,
      same_blocks-eq a.blocks,
      same_transactions-eq a.transactions,
      same_wallets-eq a.wallets,
    )

-- Only `info` has a text.
abbrev json : Json AggregatedInfo
json = record {
  marshal = λ a. if same_info a then some "totals" else none;
  unmarshal = λ res. some info;
}

json_back :
    (a : AggregatedInfo) (res : String) → json.marshal a ≡ some res → json.unmarshal res ≡ some a
json_back a res h = elim (Bool-cases (same_info a)) [
  | inl e ↦ ap some (same_info-eq a e)
  | inr e ↦ absurd (ground (arith, e))
]

-- A block and a day later.
abbrev later_stats : Stats
later_stats = record stats { blocks = (9, noon) ∷ stats.blocks; daily_tx_counts = [] }

stored_once :
    store_aggregates first_day json strings stats noon []
    ≡ ((("c/totals", ("totals", noon + totals_ttl)) ∷ []), some info)
unfolding store_aggregates sort_by
stored_once = refl

cache_aggregated-stored_example :
    cache_aggregated first_day json strings later_stats
      (noon + 5)
      (("c/totals", ("totals", noon + totals_ttl)) ∷ [])
    ≡ ((("c/totals", ("totals", noon + totals_ttl)) ∷ []), some (with_height later_stats info))
cache_aggregated-stored_example =
    cache_aggregated-stored first_day json strings strings-StringsDocumented json_back stats
      later_stats noon (noon + 5) [] (("c/totals", ("totals", noon + totals_ttl)) ∷ []) info
      stored_once (omega arith)

-- Every value has one text, which nothing reads.
abbrev one_way : Json AggregatedInfo
one_way = record { marshal = λ a. some "totals"; unmarshal = λ res. none }

cache_aggregated-answers_example :
    is_some (cache_aggregated first_day one_way strings stats noon []).1 ≡ (
      all_work stats (totals_stored ∷ needed)
      && (any_row stats.daily_tx_counts && any_row stats.daily_wallets_counts))
unfolding get_totals
cache_aggregated-answers_example =
    cache_aggregated-answers first_day one_way strings strings-StringsDocumented
      (λ a. ("totals", refl)) stats noon [] refl
