-- ===== src/Consumer/Cache/Newest.antt =====
-- pkg/consumer/cache.go, RunBlocks and RunTransactions: what the cache holds after any rounds of the loop.
use cosmos_indexer.Prelude.{
  ℕ, zero, suc, ◌+◌, ◌≡◌, refl, ap, sym, ◌∙◌, Bool, ◌||◌, if◌then◌else◌, true, false, Option-cases,
  inl, inr, String, List, [], ◌∷◌, some, All, take, arith,
}
use mathlib.Core.Path.{subst}
use cosmos_indexer.Cache.Redis.{Redis, Documented}
use cosmos_indexer.Cache.Recent.{
  Context, before_push, before_trim, in_time, Json, add, add_before_trim-Holds, blocks_key,
  max_cache_size, RoundTrips, Holds, add-Holds,
}
use cosmos_indexer.Consumer.Cache.{
  is_done, Pick, cancelled, received, CacheLoop, cache_round, cache_rounds, run_blocks,
}

-- The values that came before the context was done, the newest first, before those that were there.
abbrev pub newest_first : {A : Type 0} → List (Pick A) → List A → List A
newest_first [] before = before
newest_first (cancelled ∷ ps) before = before
newest_first (received a before_push ∷ ps) before = before
newest_first (received a before_trim ∷ ps) before = before
newest_first (received a in_time ∷ ps) before = newest_first ps (a ∷ before)

-- The value that was pushed just before the context was done, after which the list was not cut.
abbrev pub and_uncut : {A : Type 0} → List (Pick A) → List A → List A
and_uncut [] held = held
and_uncut (cancelled ∷ ps) held = held
and_uncut (received a before_push ∷ ps) held = held
and_uncut (received a before_trim ∷ ps) held = a ∷ held
and_uncut (received a in_time ∷ ps) held = and_uncut ps held

take-take-suc :
    {A : Type 0} (n : ℕ) (xs ys : List A)
    → take (suc n) xs ≡ take (suc n) ys
    → take n xs ≡ take n ys
take-take-suc zero xs ys h = refl
take-take-suc (suc n) [] [] h = refl
take-take-suc (suc n) [] (y ∷ ys) h = cc
take-take-suc (suc n) (x ∷ xs) [] h = cc
take-take-suc (suc n) (x ∷ xs) (y ∷ ys) h = ground (arith, h, take-take-suc n xs ys)

take-cons :
    {A : Type 0} (n : ℕ) (a : A) (xs ys : List A)
    → take n xs ≡ take n ys
    → take n (a ∷ xs) ≡ take n (a ∷ ys)
take-cons zero a xs ys h = refl
take-cons (suc n) a xs ys h = ap (◌∷◌ a) (take-take-suc n xs ys h)

-- The first values depend on the first of those before only.
take-newest_first :
    {A : Type 0} (n : ℕ) (ps : List (Pick A)) (xs ys : List A)
    → take n xs ≡ take n ys
    → take n (newest_first ps xs) ≡ take n (newest_first ps ys)
take-newest_first n [] xs ys h = h
take-newest_first n (cancelled ∷ ps) xs ys h = h
take-newest_first n (received a before_push ∷ ps) xs ys h = h
take-newest_first n (received a before_trim ∷ ps) xs ys h = h
take-newest_first n (received a in_time ∷ ps) xs ys h =
    take-newest_first n ps (a ∷ xs) (a ∷ ys) (take-cons n a xs ys h)

take-again : {A : Type 0} (n : ℕ) (xs : List A) → take n (take n xs) ≡ take n xs
take-again zero xs = refl
take-again (suc n) [] = refl
take-again (suc n) (x ∷ xs) = ap (◌∷◌ x) (take-again n xs)

-- What came can be encoded.
abbrev pub Encodable : {A : Type 0} → Json A → Pick A → Type 0
Encodable json cancelled = Unit {0}
Encodable json (received a ctx) = (res : String) × (json.marshal a ≡ some res)

module _ {A : Type 0} (json : Json A) (d : Redis) (promise : Documented d) where
  add-before_push : (key : String) (a : A) (s : d.Server) → (add json d before_push key a s).0 ≡ s
  unfolding add
  add-before_push key a s = elim (Option-cases (json.marshal a)) [
    | inl m ↦ rw (add, m) refl
    | inr (res, m) ↦ rw (add, m) refl
  ]

  -- The server after a value came, by whether the context was done.
  cache_round-server :
      (key : String) (a : A) (ctx : Context) (s : CacheLoop d) (b : Bool)
      → s.ctx_done ≡ b
      → (cache_round json d key (received a ctx) s).server
        ≡ (add json d (if b then before_push else ctx) key a s.server).0
  unfolding cache_round
  cache_round-server key a ctx s b e =
      ap (λ x. (add json d (if x then before_push else ctx) key a s.server).0) e

  cache_round-ctx_done :
      (key : String) (a : A) (ctx : Context) (s : CacheLoop d) (b : Bool)
      → s.ctx_done ≡ b
      → (cache_round json d key (received a ctx) s).ctx_done
        ≡ (b || is_done (if b then before_push else ctx))
  unfolding cache_round
  cache_round-ctx_done key a ctx s b e = ap (λ x. x || is_done (if x then before_push else ctx)) e

  -- Nothing is added with a context that is done.
  cache_rounds-done :
      (key : String) (ps : List (Pick A)) (s : CacheLoop d)
      → s.ctx_done ≡ true
      → ((cache_rounds json d key ps s).server ≡ s.server)
        × ((cache_rounds json d key ps s).returned ≡ s.returned)
  unfolding cache_rounds cache_round add
  cache_rounds-done key [] s e = (refl, refl)
  cache_rounds-done key (cancelled ∷ ps) s e =
      cache_rounds-done key ps (record s { ctx_done = true }) refl
  cache_rounds-done key (received a ctx ∷ ps) s e =
      let t = cache_round json d key (received a ctx) s in
      let same : t.server ≡ s.server =
        cache_round-server key a ctx s true e ∙ add-before_push key a s.server in
      let (servers, left) = cache_rounds-done key ps t (cache_round-ctx_done key a ctx s true e) in
      (servers ∙ same, left)

  -- A server after the context was done holds what it held.
  stays :
      (key : String) (ps : List (Pick A)) (xs : List A) (s : CacheLoop d)
      → s.ctx_done ≡ true
      → Holds json d promise key xs s.server
      → Holds json d promise key xs (cache_rounds json d key ps s).server
        × ((cache_rounds json d key ps s).returned ≡ s.returned)
  stays key ps xs s e h =
      let (servers, left) = cache_rounds-done key ps s e in
      (subst (Holds json d promise key xs) (sym servers) h, left)

  cache_rounds-Holds :
      RoundTrips json d promise
      → (key : String) (ps : List (Pick A)) (before : List A) (s : CacheLoop d) → s.ctx_done ≡ false
      → All (Encodable json) ps
      → take (max_cache_size + 1) before ≡ before
      → Holds json d promise key before s.server
      → Holds json d promise key
          (and_uncut ps (take (max_cache_size + 1) (newest_first ps before)))
          (cache_rounds json d key ps s).server
        × ((cache_rounds json d key ps s).returned ≡ s.returned)
  unfolding cache_rounds cache_round add
  cache_rounds-Holds back key [] before s e en short h =
      (subst (λ xs. Holds json d promise key xs s.server) (sym short) h, refl)
  cache_rounds-Holds back key (cancelled ∷ ps) before s e en short h =
      stays key ps (take (max_cache_size + 1) before) (record s { ctx_done = true }) refl
        (subst (λ xs. Holds json d promise key xs s.server) (sym short) h)
  cache_rounds-Holds back key (received a before_push ∷ ps) before s e ((res, m), en) short h =
      let t = cache_round json d key (received a before_push) s in
      let same : t.server ≡ s.server =
        cache_round-server key a before_push s false e ∙ add-before_push key a s.server in
      stays key ps (take (max_cache_size + 1) before) t
        (cache_round-ctx_done key a before_push s false e)
        (subst (Holds json d promise key (take (max_cache_size + 1) before)) (sym same)
          (subst (λ xs. Holds json d promise key xs s.server) (sym short) h))
  cache_rounds-Holds back key (received a before_trim ∷ ps) before s e ((res, m), en) short h =
      let t = cache_round json d key (received a before_trim) s in
      let same : t.server ≡ (add json d before_trim key a s.server).0 =
        cache_round-server key a before_trim s false e in
      stays key ps (a ∷ take (max_cache_size + 1) before) t
        (cache_round-ctx_done key a before_trim s false e)
        (subst (Holds json d promise key (a ∷ take (max_cache_size + 1) before)) (sym same) (
          subst (λ xs. Holds json d promise key (a ∷ xs) (add json d before_trim key a s.server).0)
            (sym short) (add_before_trim-Holds json d promise back key a before res s.server m h)))
  cache_rounds-Holds back key (received a in_time ∷ ps) before s e ((res, m), rest) short h =
      let t = cache_round json d key (received a in_time) s in
      let same : t.server ≡ (add json d in_time key a s.server).0 =
        cache_round-server key a in_time s false e in
      let (done, held) = add-Holds json d promise back key a before res s.server m h in
      let cut = take (max_cache_size + 1) (a ∷ before) in
      let (all, left) =
        cache_rounds-Holds back key ps cut t (cache_round-ctx_done key a in_time s false e) rest
          (take-again (max_cache_size + 1) (a ∷ before))
          (subst (Holds json d promise key cut) (sym same) held) in
      (
        subst
            (λ xs. Holds json d promise key (and_uncut ps xs) (cache_rounds json d key ps t).server)
            (take-newest_first (max_cache_size + 1) ps cut (a ∷ before)
              (take-again (max_cache_size + 1) (a ∷ before)))
            all,
        left,
      )

  -- From a server that is up, for blocks that can be encoded and read back, and a list of at most one more than the
  -- maximal size of the cache: after any rounds of the loop, whatever `select` takes and whenever the context is done, the list of
  -- blocks holds the blocks that came before the context was done, the newest first, followed by what it held before,
  -- cut to one more than the maximal size, and in front of them the block, if there is one, between whose two commands
  -- the context was done; and the loop has not returned, however often its context was seen as cancelled.
  pub run_blocks-newest :
      RoundTrips json d promise
      → (picks : List (Pick A)) (before : List A) (server : d.Server) → All (Encodable json) picks
      → take (max_cache_size + 1) before ≡ before
      → Holds json d promise blocks_key before server
      → Holds json d promise blocks_key
          (and_uncut picks (take (max_cache_size + 1) (newest_first picks before)))
          (run_blocks json d picks server).server
        × ((run_blocks json d picks server).returned ≡ false)
  unfolding run_blocks
  run_blocks-newest back picks before server en short h =
      cache_rounds-Holds back blocks_key picks before
        (record { server = server; ctx_done = false; returned = false }) refl en short h
