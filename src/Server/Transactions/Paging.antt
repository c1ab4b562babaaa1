-- ===== src/Server/Transactions/Paging.antt =====
-- pkg/server/blocks.go, Transactions: a client that asks for page after page.
use cosmos_indexer.Prelude.{
  ℕ, zero, suc, ◌+◌, ◌*◌, ◌<◌, ◌≡◌, refl, ap, sym, ◌∙◌, true, List, [], ◌∷◌, ◌++◌, map, none, some,
  take, drop, select, arith, Result, ok, ◌>>=◌,
}
use mathlib.Core.Path.{subst}
use mathlib.Core.List.{append-nil, append_assoc, map-append}
use cosmos_indexer.Prelude.Int.{pos}
use cosmos_indexer.Repository.Transactions.{
  Tx, TxRow, row, Queries, Library, read_tx, filtered_block, count_of, count_or_zero, to_uint,
  condition,
}
use cosmos_indexer.Repository.Transactions.Pages.{Table, Documented, NewestFirst, transactions-page}
use cosmos_indexer.Server.Proto.{PbTxByHash, tx_to_proto}
use cosmos_indexer.Server.Transactions.{ServerError, txs_loop, respond, handle_transactions}

suc-add : (m n : ℕ) → suc m + n ≡ suc (m + n)
suc-add m n = omega arith

module _ {ℓ} {A : Type ℓ} where
  take-nil : (n : ℕ) → take {A = A} n [] ≡ []
  take-nil zero = refl
  take-nil (suc n) = refl

  drop-nil : (n : ℕ) → drop {A = A} n [] ≡ []
  drop-nil zero = refl
  drop-nil (suc n) = refl

  take-add : (m n : ℕ) (xs : List A) → take (m + n) xs ≡ take m xs ++ take n (drop m xs)
  take-add zero n xs = ap (λ k. take k xs) (omega arith)
  take-add (suc m) n [] = rw (suc-add m n, take-nil n) refl
  take-add (suc m) n (x ∷ xs) = rw (suc-add m n) (ap (◌∷◌ x) (take-add m n xs))

  drop-drop : (m n : ℕ) (xs : List A) → drop n (drop m xs) ≡ drop (m + n) xs
  drop-drop zero n xs = ap (λ k. drop k xs) (omega arith)
  drop-drop (suc m) n [] = drop-nil n ∙ sym (drop-nil (suc m + n))
  drop-drop (suc m) n (x ∷ xs) = drop-drop m n xs ∙ ap (λ k. drop k (x ∷ xs)) (sym (suc-add m n))

  select-true : (xs : List A) → select (λ x. true) xs ≡ xs
  select-true [] = refl
  select-true (x ∷ xs) = ap (◌∷◌ x) (select-true xs)

map-map {ℓ κ μ} :
    {A : Type ℓ} {B : Type κ} {C : Type μ} (g : B → C) (f : A → B) (xs : List A)
    → map g (map f xs) ≡ map (λ x. g (f x)) xs
map-map g f [] = refl
map-map g f (x ∷ xs) = ap (◌∷◌ (g (f x))) (map-map g f xs)

zero-times : (n : ℕ) → 0 ≡ 0 * n
zero-times n = omega arith

suc-times : (m n : ℕ) → n + m * n ≡ suc m * n
suc-times m n = grind arith

module _ (lib : Library) (q : Queries) where
  txs_loop-eq-map :
      (txs : List Tx) (res : List PbTxByHash)
      → txs_loop lib txs res ≡ res ++ map (tx_to_proto lib) txs
  unfolding txs_loop
  txs_loop-eq-map [] res = sym (append-nil res)
  txs_loop-eq-map (tx ∷ txs) res =
      txs_loop-eq-map txs (res ++ tx_to_proto lib tx ∷ [])
      ∙ append_assoc res (tx_to_proto lib tx ∷ []) (map (tx_to_proto lib) txs)

  abbrev pub sent : TxRow → PbTxByHash
  sent r = tx_to_proto lib (read_tx lib q r)

  -- One page.
  handle_transactions-page :
      (t : Table) (n limit offset : ℕ)
      → Documented q t
      → q.count_all ≡ row n
      → 0 < limit
      → NewestFirst t.rows
      → handle_transactions lib q (some (record { limit = pos limit; offset = pos offset }))
        ≡ ok (record {
          tx = map sent (take limit (drop offset t.rows));
          result = record { limit = pos limit; offset = pos offset; all = n };
        })
  unfolding handle_transactions filtered_block count_of count_or_zero to_uint condition
  handle_transactions-page t n limit offset promise counted positive ordered =
      ap (respond lib (record { limit = pos limit; offset = pos offset })) (
        transactions-page lib q t promise (pos limit) (pos offset) none none n positive
          (subst NewestFirst (sym (select-true t.rows)) ordered) refl (rw counted refl)
        ∙ ap (λ rows. some (map (read_tx lib q) (take limit (drop offset rows)), n))
            (select-true t.rows))
      ∙ ap
          (λ txs. ok record {
            tx = txs;
            result = record { limit = pos limit; offset = pos offset; all = n };
          })
          (txs_loop-eq-map (map (read_tx lib q) (take limit (drop offset t.rows))) []
            ∙ map-map (tx_to_proto lib) (read_tx lib q) (take limit (drop offset t.rows)))

  next-page :
      (limit offset more : ℕ) (rows : List TxRow)
      → map sent (take limit (drop offset rows))
          ++ map sent (take more (drop (offset + limit) rows))
        ≡ map sent (take (limit + more) (drop offset rows))
  next-page limit offset more rows = sym (
      ap (map sent) (take-add limit more (drop offset rows))
      ∙ map-append sent (take limit (drop offset rows)) (take more (drop limit (drop offset rows)))
      ∙ ap (λ d. map sent (take limit (drop offset rows)) ++ map sent (take more d))
          (drop-drop offset limit rows))

  -- The answers to requests for `pages` pages of `limit` transactions, one after the other, from an offset.
  pub collect_pages : ℕ → ℕ → ℕ → Result ServerError (List PbTxByHash)
  collect_pages limit offset zero = ok []
  collect_pages limit offset (suc pages) =
      handle_transactions lib q (some (record { limit = pos limit; offset = pos offset })) >>= λ p.
      collect_pages limit (offset + limit) pages >>= λ rest. ok (p.tx ++ rest)

  sent-hash :
      (rows : List TxRow) → map (λ x. x.tx_response.txhash) (map sent rows) ≡ map (λ r. r.hash) rows
  unfolding tx_to_proto read_tx
  sent-hash [] = refl
  sent-hash (r ∷ rows) = ap (◌∷◌ r.hash) (sent-hash rows)

  -- The pages are those of the rows.
  collect_pages-sent :
      (t : Table) (n limit offset pages : ℕ)
      → Documented q t
      → q.count_all ≡ row n
      → 0 < limit
      → NewestFirst t.rows
      → collect_pages limit offset pages ≡ ok (map sent (take (pages * limit) (drop offset t.rows)))
  unfolding collect_pages
  collect_pages-sent t n limit offset zero promise counted positive ordered =
      ap (λ k. ok (map sent (take k (drop offset t.rows)))) (zero-times limit)
  collect_pages-sent t n limit offset (suc pages) promise counted positive ordered =
      rw
        (
          handle_transactions-page t n limit offset promise counted positive ordered,
          collect_pages-sent t n limit (offset + limit) pages promise counted positive ordered,
        )
        (ap ok (next-page limit offset (pages * limit) t.rows)
          ∙ ap (λ k. ok (map sent (take k (drop offset t.rows)))) (suc-times pages limit))

  -- From a database that does not change, answers as documented and can count its transactions, of which no two have
  -- one timestamp: a client that asks for page after page of the same positive size gets the transactions of the
  -- database from the first offset on, each once and under its hash, newest first, and none left out, as many as the
  -- pages hold.
  pub collect_pages-eq :
      (t : Table) (n limit offset pages : ℕ)
      → Documented q t
      → q.count_all ≡ row n
      → 0 < limit
      → NewestFirst t.rows
      → (collect_pages limit offset pages
          ≡ ok (map sent (take (pages * limit) (drop offset t.rows))))
        × (map (λ x. x.tx_response.txhash) (map sent (take (pages * limit) (drop offset t.rows)))
            ≡ map (λ r. r.hash) (take (pages * limit) (drop offset t.rows)))
  collect_pages-eq t n limit offset pages promise counted positive ordered = (
    collect_pages-sent t n limit offset pages promise counted positive ordered,
    sent-hash (take (pages * limit) (drop offset t.rows)),
  )
