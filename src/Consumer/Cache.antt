-- ===== src/Consumer/Cache.antt =====
-- pkg/consumer/cache.go: RunBlocks and RunTransactions, two loops with the same code, which add what comes on a
-- channel to a list in the cache. A schedule says which case each `select` takes.
pub mod Newest
use cosmos_indexer.Prelude.{Bool, true, false, ◌||◌, if◌then◌else◌, String, List, [], ◌∷◌}
use cosmos_indexer.Cache.Redis.{Redis}
use cosmos_indexer.Cache.Recent.{
  Context, before_push, before_trim, in_time, Json, add, blocks_key, transactions_key,
}

-- `cancelled` is <-ctx.Done(), which a cancelled context gives again and again. A value that is received is added with
-- the same context, which may be done by then, or get done between the commands.
pub data Pick (A : Type 0) : Type 0 where
  cancelled : Pick A
  received : A → Context → Pick A

pub record CacheLoop (d : Redis) : Type 0 where
  pub server : d.Server
  pub ctx_done : Bool  -- a context that is done stays so
  pub returned : Bool

abbrev pub is_done : Context → Bool
is_done before_push = true
is_done before_trim = true
is_done in_time = false

module _ {A : Type 0} (json : Json A) (d : Redis) where
  -- One round. `break` leaves the `select` and not the loop; an error of adding is logged.
  unfoldable pub cache_round : String → Pick A → CacheLoop d → CacheLoop d
  unfolding add
  cache_round key cancelled s = record s { ctx_done = true }
  cache_round key (received a ctx) s =
      let ctx' = if s.ctx_done then before_push else ctx in
      record s {
        server = (add json d ctx' key a s.server).0;
        ctx_done = s.ctx_done || is_done ctx';
      }

  unfoldable pub cache_rounds : String → List (Pick A) → CacheLoop d → CacheLoop d
  unfolding cache_round
  cache_rounds key [] s = s
  cache_rounds key (p ∷ ps) s = cache_rounds key ps (cache_round key p s)

  unfoldable pub run_blocks : List (Pick A) → d.Server → CacheLoop d
  unfolding cache_rounds
  run_blocks picks server =
      cache_rounds blocks_key picks (record { server = server; ctx_done = false; returned = false })

  unfoldable pub run_transactions : List (Pick A) → d.Server → CacheLoop d
  unfolding cache_rounds
  run_transactions picks server =
      cache_rounds transactions_key picks
        (record { server = server; ctx_done = false; returned = false })
