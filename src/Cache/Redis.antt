-- ===== src/Cache/Redis.antt =====
-- The commands of redis that pkg/repository/cache.go uses on lists, and what their documentation says.
use cosmos_indexer.Prelude.{ℕ, suc, ◌-◌, ◌≡◌, String, List, ◌∷◌, Option, some, length, take, drop}
use cosmos_indexer.Prelude.Int.{ℤ, pos, negsuc}

-- An index of a list of `n` elements: a negative one counts from the end.
abbrev pub from_end : ℕ → ℤ → ℕ
from_end n (pos i) = i
from_end n (negsuc i) = n - suc i

-- One past the stop index, which is included: 0 for one before the first element.
abbrev pub past_stop : ℕ → ℤ → ℕ
past_stop n (pos i) = suc i
past_stop n (negsuc i) = n - i

-- The elements from `start` to `stop`, both included.
abbrev pub slice {ℓ} : {A : Type ℓ} → ℤ → ℤ → List A → List A
slice start stop xs = drop (from_end (length xs) start) (take (past_stop (length xs) stop) xs)

-- `none` is an error of the connection or the server.
pub record Redis : Type 1 where
  pub Server : Type 0
  pub lpush : String → String → Server → Option Server
  pub ltrim : String → ℤ → ℤ → Server → Option Server
  pub lrange : String → ℤ → ℤ → Server → Option (List String)
  pub llen : String → Server → Option ℕ
  pub view : String → Server → List String

-- A server that is up, and does what the documentation of the commands says.
pub record Documented (d : Redis) : Type 0 where
  pub lpush_ok :
      (k v : String) (s : d.Server)
      → (t : d.Server) × (d.lpush k v s ≡ some t) × (d.view k t ≡ v ∷ d.view k s)
  pub ltrim_ok :
      (k : String) (i j : ℤ) (s : d.Server)
      → (t : d.Server) × (d.ltrim k i j s ≡ some t) × (d.view k t ≡ slice i j (d.view k s))
  pub lrange_ok :
      (k : String) (i j : ℤ) (s : d.Server) → d.lrange k i j s ≡ some (slice i j (d.view k s))
  pub llen_ok : (k : String) (s : d.Server) → d.llen k s ≡ some (length (d.view k s))
