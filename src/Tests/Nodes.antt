-- ===== src/Tests/Nodes.antt =====
-- rpc/, clients/, core/rpc_worker.go, pkg/repository/cache.go, at concrete inputs.
use cosmos_indexer.Prelude.{
  false, ℕ, zero, suc, ◌*◌, ◌≡◌, refl, true, String, List, [], ◌∷◌, Option, none, some, arith, All,
  length, sym, take, drop, ltb, if◌then◌else◌,
}
use cosmos_indexer.Prelude.Int.{ℤ, pos, neg_part, leb_ℤ}
use cosmos_indexer.Rpc.Backoff.{max_retry_time, longest_wait}
use cosmos_indexer.Rpc.Retry.{Outcome, with_retry, with_retry_success, with_retry_exhausted}
use cosmos_indexer.Rpc.Pages.{
  Page, limit, get_txs_by_block_height, get_txs_by_block_height_complete,
}
use cosmos_indexer.Enqueue.{EnqueueData}
use cosmos_indexer.Worker.{FailedTables}
use cosmos_indexer.Cache.Redis.{Redis, Documented, slice}
use cosmos_indexer.Cache.Recent.{before_push, in_time, Json, unmarshal_all}
use cosmos_indexer.Consumer.Cache.{cancelled, received, run_blocks}
use cosmos_indexer.Consumer.Cache.Newest.{run_blocks-newest}

abbrev doubling : ℕ → ℤ
doubling n = pos (1000000000 * suc n)

-- A node that answers from its third call on.
abbrev third : ℕ → Option String
third n = if ltb n 2 then none else some "block"

before_third : (i : ℕ) → ltb i 2 ≡ true → third i ≡ none
before_third i h = rw h refl

with_retry_success_example :
    (o : Outcome String) × (with_retry third doubling (pos 5) 30 9 ≡ some o)
    × (o.response ≡ some "block")
    × (o.calls ≡ 3)
    × (length o.waits ≡ 2)
    × All (λ w. (leb_ℤ w (longest_wait 30) ≡ true) × (neg_part w ≡ 0)) o.waits
with_retry_success_example =
    with_retry_success third doubling (pos 5) 30 2 9 "block" refl
      (λ i h. before_third i (ground arith)) refl refl (omega arith)

abbrev silent : ℕ → Option String
silent n = none

with_retry_exhausted_example :
    (o : Outcome String) × (with_retry silent doubling (pos 2) 30 9 ≡ some o)
    × (o.response ≡ none)
    × (o.calls ≡ 3)
    × (length o.waits ≡ 2)
    × All (λ w. (leb_ℤ w (max_retry_time 30) ≡ true) × (neg_part w ≡ 0)) o.waits
with_retry_exhausted_example =
    with_retry_exhausted silent doubling 2 30 9 (omega arith) (λ i h. refl) (omega arith)

abbrev txs : List ℕ
txs = 11 ∷ 12 ∷ 13 ∷ []

abbrev responses : List String
responses = "a" ∷ "b" ∷ "c" ∷ []

-- A node that serves a block of three transactions.
abbrev query : ℕ → Option (Page ℕ String)
query zero = none
query (suc n) = some (record {
  txs = take limit (drop (limit * n) txs);
  tx_responses = take limit (drop (limit * n) responses);
  total = 3;
})

get_txs_by_block_height_complete_example : get_txs_by_block_height query ≡ some (txs, responses)
get_txs_by_block_height_complete_example =
    get_txs_by_block_height_complete query txs responses (λ n. refl) refl

abbrev no_block : ℕ → Option String
no_block h = none

abbrev no_results : ℕ → ℤ → ℕ → Option String
no_results h attempts wait = none

abbrev a_block : ℕ → Option String
a_block h = some "block"

abbrev tables : FailedTables
tables = record { event_blocks = []; blocks = 3 ∷ [] }

abbrev wanted_block : EnqueueData
wanted_block = record { height = 7; index_transactions = true }

-- A server of one list that keeps its promises, and texts that encode themselves.
abbrev one_list : Redis
one_list = record {
  Server = List String;
  lpush = λ k v s. some (v ∷ s);
  ltrim = λ k i j s. some (slice i j s);
  lrange = λ k i j s. some (slice i j s);
  llen = λ k s. some (length s);
  view = λ k s. s;
}

abbrev one_list_keeps : Documented one_list
one_list_keeps = record {
  lpush_ok = λ k v s. (v ∷ s, refl, refl);
  ltrim_ok = λ k i j s. (slice i j s, refl, refl);
  lrange_ok = λ k i j s. refl;
  llen_ok = λ k s. refl;
}

abbrev plain : Json String
plain = record { marshal = some; unmarshal = some }

run_blocks-newest_example :
    (unmarshal_all plain one_list
        (run_blocks plain one_list
          (received "2" in_time ∷ cancelled ∷ received "3" before_push ∷ [])
          ("1" ∷ [])).server
      ≡ some ("2" ∷ "1" ∷ []))
    × ((run_blocks plain one_list
          (received "2" in_time ∷ cancelled ∷ received "3" before_push ∷ [])
          ("1" ∷ [])).returned
        ≡ false)
unfolding unmarshal_all
run_blocks-newest_example =
    run_blocks-newest plain one_list one_list_keeps (λ a r h. sym h)
      (received "2" in_time ∷ cancelled ∷ received "3" before_push ∷ []) ("1" ∷ []) ("1" ∷ [])
      (("2", refl), (tt, (("3", refl), tt))) refl refl
