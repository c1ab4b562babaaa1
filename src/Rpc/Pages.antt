-- ===== src/Rpc/Pages.antt =====
-- clients/chain_rpc.go, GetTxsByBlockHeight: the transactions of a block, a hundred at a time. The
-- query `TxByHeight` is a parameter: page number n, from 1, or `none` for an error. The number of
-- pages is computed in floating point in the source, exactly below 2^53.
use cosmos_indexer.Prelude.{
  ℕ, zero, suc, ◌+◌, ◌-◌, ◌*◌, ◌/◌, ◌≤◌, ◌≡◌, refl, ap, List, [], ◌∷◌, ◌++◌, Option, none, some,
  ltb, if◌then◌else◌, arith, length, take, drop, inl, inr, Bool-cases, ltb→lt, ltb→ge,
}

pub record Page (T R : Type 0) : Type 0 where
  pub txs : List T
  pub tx_responses : List R
  pub total : ℕ

abbrev pub limit : ℕ
limit = 100

module _ {T R : Type 0} (query : ℕ → Option (Page T R)) where
  -- `n` rounds of the loop, before each of which the page number is `page_num`. A page whose query
  -- fails is left out.
  unfoldable pub more_pages : ℕ → ℕ → List T → List R → List T × List R
  more_pages zero page_num txs responses = (txs, responses)
  more_pages (suc n) page_num txs responses = elim (query (suc page_num)) [
    | none ↦ more_pages n (suc page_num) txs responses
    | some p ↦ more_pages n (suc page_num) (txs ++ p.txs) (responses ++ p.tx_responses)
  ]

  unfoldable pub get_txs_by_block_height : Option (List T × List R)
  unfolding more_pages
  get_txs_by_block_height = elim (query 1) [
    | none ↦ none
    | some p ↦
        if ltb limit p.total
        then some (more_pages ((p.total - limit + (limit - 1)) / limit) 1 p.txs p.tx_responses)
        else some (p.txs, p.tx_responses)
  ]

module _ {ℓ} {A : Type ℓ} where
  take-nil : (n : ℕ) → take {A = A} n [] ≡ []
  take-nil zero = refl
  take-nil (suc n) = refl

  take-append-take-drop :
      (m n : ℕ) (xs : List A) → take m xs ++ take n (drop m xs) ≡ take (m + n) xs
  take-append-take-drop zero n xs = ap (λ k. take k xs) (omega arith)
  take-append-take-drop (suc m) n [] = ground (arith, take-nil n, take-nil (suc m + n))
  take-append-take-drop (suc m) n (x ∷ xs) =
      let next : suc m + n ≡ suc (m + n) = omega arith in rw (next, take-append-take-drop m n xs)

  take_all : (n : ℕ) (xs : List A) → length xs ≤ n → take n xs ≡ xs
  take_all zero [] h = refl
  take_all zero (x ∷ xs) h = absurd (omega arith)
  take_all (suc n) [] h = refl
  take_all (suc n) (x ∷ xs) h = ap (◌∷◌ x) (take_all n xs (omega arith))

module _ {T R : Type 0} (query : ℕ → Option (Page T R)) (txs : List T) (responses : List R) where
  -- What the node promises: page n + 1 is the n-th hundred of the block's transactions and responses,
  -- with their number.
  abbrev pub Serves : Type 0
  Serves =
      (n : ℕ)
      → query (suc n)
        ≡ some (record {
          txs = take limit (drop (limit * n) txs);
          tx_responses = take limit (drop (limit * n) responses);
          total = length txs;
        })

  more_pages-eq :
      Serves
      → (n p : ℕ)
      → more_pages query n p (take (limit * p) txs) (take (limit * p) responses)
        ≡ (take (limit * (p + n)) txs, take (limit * (p + n)) responses)
  unfolding more_pages
  more_pages-eq serves zero p = let same : p + 0 ≡ p = omega arith in rw same
  more_pages-eq serves (suc n) p =
      let next : limit * p + limit ≡ limit * suc p = omega arith in
      let later : p + suc n ≡ suc p + n = omega arith in
      rw
        (
          serves p,
          more_pages,
          take-append-take-drop (limit * p) limit txs,
          take-append-take-drop (limit * p) limit responses,
          next,
          later,
        )
        (more_pages-eq serves n (suc p))

  -- From a node that serves its pages as promised, with as many responses as transactions, all the
  -- transactions and responses of the block are returned, in order, whatever their number.
  pub get_txs_by_block_height_complete :
      Serves → length responses ≡ length txs → get_txs_by_block_height query ≡ some (txs, responses)
  unfolding get_txs_by_block_height
  get_txs_by_block_height_complete serves same =
      let pages = (length txs - limit + (limit - 1)) / limit in
      elim (Bool-cases (ltb limit (length txs))) [
        | inl many ↦
            rw (serves 0, get_txs_by_block_height, many, more_pages-eq serves pages 1)
              (ground (
                arith,
                take_all (limit * (1 + pages)) txs (omega (arith, ltb→lt limit (length txs) many)),
                take_all (limit * (1 + pages)) responses
                    (omega (arith, ltb→lt limit (length txs) many)),
              ))
        | inr few ↦
            rw (serves 0, get_txs_by_block_height, few)
              (ground (
                arith,
                take_all limit txs (omega (arith, ltb→ge limit (length txs) few)),
                take_all limit responses (omega (arith, ltb→ge limit (length txs) few)),
              ))
      ]
