-- ===== src/Cache/Recent.antt =====
-- pkg/repository/cache.go: AddTransaction and AddBlock, GetTransactions and GetBlocks, one pair for
-- each of two lists, with the same code up to the key. Values are stored as JSON.
use cosmos_indexer.Prelude.{
  ℕ, zero, suc, ◌+◌, ◌≤◌, ◌≡◌, refl, ap, sym, Bool, true, false, String, List, [], ◌∷◌, Option,
  none, some, if◌then◌else◌, arith, length, take,
}
use mathlib.Core.Path.{subst}
use cosmos_indexer.Prelude.Int.{ℤ, pos, negsuc, ◌+ℤ◌, ltb_ℤ}
use cosmos_indexer.Cache.Redis.{Redis, Documented}

abbrev pub max_cache_size : ℕ
max_cache_size = 50

abbrev pub transactions_key : String
transactions_key = "c/latest_transactions"

abbrev pub blocks_key : String
blocks_key = "c/latest_blocks"

-- json.Marshal and json.Unmarshal at the type of the cached values.
pub record Json (A : Type 0) : Type 0 where
  pub marshal : A → Option String
  pub unmarshal : String → Option A

-- Whether the context of AddBlock or AddTransaction is done before the first command, before the second, or after both
-- if at all.
pub data Context : Type 0 where
  before_push before_trim in_time : Context

module _ {A : Type 0} (json : Json A) (d : Redis) where
  -- AddTransaction with `transactions_key`, AddBlock with `blocks_key`. What a command changed stays
  -- changed when a later one fails. A command is not sent once its context is done.
  unfoldable pub add : Context → String → A → d.Server → d.Server × Bool
  add ctx key value s = elim (json.marshal value) [
    | none ↦ (s, false)
    | some res ↦ elim ctx [
      | before_push ↦ (s, false)
      | before_trim ↦ elim (d.lpush key res s) [ none ↦ (s, false) | some t ↦ (t, false) ]
      | in_time ↦ elim (d.lpush key res s) [
        | none ↦ (s, false)
        | some t ↦ elim (d.ltrim key (pos 0) (pos max_cache_size) t) [
          | none ↦ (t, false)
          | some u ↦ (u, true)
        ]
      ]
    ]
  ]

  unfoldable pub unmarshal_all : List String → Option (List A)
  unmarshal_all [] = some []
  unmarshal_all (r ∷ rs) =
      let rest = unmarshal_all rs in
      elim (json.unmarshal r) [
        | none ↦ none
        | some a ↦ elim rest [ none ↦ none | some as_ ↦ some (a ∷ as_) ]
      ]

  -- What GetTransactions and GetBlocks share: the values, and the length of the list. `no_length` is what
  -- is returned when the length cannot be read.
  unfoldable pub get : Option (List A × ℕ) → String → ℤ → ℤ → d.Server → Option (List A × ℕ)
  unfolding unmarshal_all
  get no_length key start stop s =
      let stop' = if ltb_ℤ (pos max_cache_size) stop then pos max_cache_size else stop in
      elim (d.lrange key start (start +ℤ stop' +ℤ negsuc 0) s) [
        | none ↦ none
        | some res ↦ elim (unmarshal_all res) [
          | none ↦ none
          | some values ↦ elim (d.llen key s) [
            | none ↦ no_length
            | some total ↦ some (values, total)
          ]
        ]
      ]

  -- The error returned there is that of the query before, which is nil.
  unfoldable pub get_transactions : ℤ → ℤ → d.Server → Option (List A × ℕ)
  unfolding get
  get_transactions = get (some ([], 0)) transactions_key

  unfoldable pub get_blocks : ℤ → ℤ → d.Server → Option (List A × ℕ)
  unfolding get
  get_blocks = get none blocks_key

module _ {A : Type 0} (json : Json A) (d : Redis) (promise : Documented d) where
  -- What is read back is what was stored.
  abbrev pub RoundTrips : Type 0
  RoundTrips = (a : A) (r : String) → json.marshal a ≡ some r → json.unmarshal r ≡ some a

  -- The list at a key decodes to `as_`, the newest first.
  abbrev pub Holds : String → List A → d.Server → Type 0
  Holds key as_ s = unmarshal_all json d (d.view key s) ≡ some as_

  unmarshal_all-take :
      (n : ℕ) (rs : List String) (as_ : List A)
      → unmarshal_all json d rs ≡ some as_
      → unmarshal_all json d (take n rs) ≡ some (take n as_)
  unfolding unmarshal_all
  unmarshal_all-take zero rs as_ h = refl
  unmarshal_all-take (suc n) [] as_ h = ground arith
  unmarshal_all-take (suc n) (r ∷ rs) [] h = ground arith
  unmarshal_all-take (suc n) (r ∷ rs) (a ∷ as_) h = ground (arith, unmarshal_all-take n rs as_)

  unmarshal_all-length :
      (rs : List String) (as_ : List A)
      → unmarshal_all json d rs ≡ some as_
      → length rs ≡ length as_
  unfolding unmarshal_all
  unmarshal_all-length [] as_ h = ground arith
  unmarshal_all-length (r ∷ rs) [] h = ground arith
  unmarshal_all-length (r ∷ rs) (a ∷ as_) h = ground (arith, unmarshal_all-length rs as_)

  -- Adding a value that can be encoded succeeds, and the list then holds the value, followed by what
  -- it held before, cut to one more than the maximal size of the cache.
  pub add-Holds :
      RoundTrips
      → (key : String) (a : A) (as_ : List A) (res : String) (s : d.Server)
      → json.marshal a ≡ some res
      → Holds key as_ s
      → ((add json d in_time key a s).1 ≡ true)
        × Holds key (take (max_cache_size + 1) (a ∷ as_)) (add json d in_time key a s).0
  unfolding add unmarshal_all
  add-Holds back key a as_ res s m h =
      let (t, pushed, new) = promise.lpush_ok key res s in
      let (u, trimmed, cut) = promise.ltrim_ok key (pos 0) (pos max_cache_size) t in
      let whole : unmarshal_all json d (d.view key t) ≡ some (a ∷ as_) =
        ground (arith, new, back a res m, h) in
      let end : (add json d in_time key a s).0 ≡ u = ground (arith, m, pushed, trimmed) in
      (
        ground (arith, m, pushed, trimmed),
        subst (Holds key (take (max_cache_size + 1) (a ∷ as_))) (sym end)
            (rw cut (unmarshal_all-take (max_cache_size + 1) (d.view key t) (a ∷ as_) whole)),
      )

  -- With a context that is done before the second command the value is pushed, and the list is not cut.
  pub add_before_trim-Holds :
      RoundTrips
      → (key : String) (a : A) (as_ : List A) (res : String) (s : d.Server)
      → json.marshal a ≡ some res
      → Holds key as_ s
      → Holds key (a ∷ as_) (add json d before_trim key a s).0
  unfolding add unmarshal_all
  add_before_trim-Holds back key a as_ res s m h =
      let (t, pushed, new) = promise.lpush_ok key res s in
      let end : (add json d before_trim key a s).0 ≡ t = ground (arith, m, pushed) in
      subst (Holds key (a ∷ as_)) (sym end) (ground (arith, new, back a res m, h))

  -- Reading `n` values from the head, with `n` from 1 to the maximal size, returns the `n` newest and
  -- the length of the list.
  pub get-newest :
      (no_length : Option (List A × ℕ)) (key : String) (n : ℕ) (as_ : List A) (s : d.Server)
      → 1 ≤ n
      → n ≤ max_cache_size
      → Holds key as_ s
      → get json d no_length key (pos 0) (pos n) s ≡ some (take n as_, length as_)
  unfolding get
  get-newest no_length key (suc n) as_ s lo hi h = ground (
    arith,
    promise.lrange_ok key (pos 0) (pos n) s,
    promise.llen_ok key s,
    unmarshal_all-take (suc n) (d.view key s) as_ h,
    unmarshal_all-length (d.view key s) as_ h,
  )
  get-newest no_length key zero as_ s lo hi h = absurd (omega arith)

  take-length {ℓ} : {B : Type ℓ} (xs : List B) → take (length xs) xs ≡ xs
  take-length [] = refl
  take-length (x ∷ xs) = ap (◌∷◌ x) (take-length xs)

  -- Reading no value from the head returns the whole list, since the stop index becomes -1.
  pub get_none-eq-all :
      (no_length : Option (List A × ℕ)) (key : String) (as_ : List A) (s : d.Server)
      → Holds key as_ s
      → get json d no_length key (pos 0) (pos 0) s ≡ some (as_, length as_)
  unfolding get
  get_none-eq-all no_length key as_ s h = ground (
    arith,
    promise.lrange_ok key (pos 0) (negsuc 0) s,
    promise.llen_ok key s,
    take-length (d.view key s),
    h,
    unmarshal_all-length (d.view key s) as_ h,
  )
