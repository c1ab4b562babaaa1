-- ===== src/Service/Txs/ByHash.antt =====
-- pkg/service/tx.go, GetTxByHash and TransactionsByBlock: what they find.
use cosmos_indexer.Prelude.{
  ℕ, zero, suc, ◌<◌, ◌≡◌, refl, ap, ◌∙◌, String, List, [], ◌∷◌, map, Option, none, some, take, drop,
  select, Bool, true, false, sym, if◌then◌else◌, Result, ok, err, arith,
}
use mathlib.Core.Path.{subst}
use cosmos_indexer.Tx.{Fee}
use cosmos_indexer.Indexer.Aggregate.{TxEvents}
use cosmos_indexer.Prelude.Int.{ℤ, pos}
use cosmos_indexer.Repository.Transactions.{
  by_hash, Tx, TxRow, at_height, row, no_rows, failed, Queries, Library, condition, to_uint,
  read_tx, filtered_block, count_of, count_or_zero,
}
use cosmos_indexer.Repository.Transactions.Pages.{
  newest, newest-all, transactions-by_hash, Table, Documented, NewestFirst, satisfies,
  transactions-page, transactions-uncounted,
}
use cosmos_indexer.Service.Txs.{
  ReadError, query_failed, not_found, by_height, with_events, first_tx, get_tx_by_hash,
  transactions_by_block,
}

select-true : (rows : List TxRow) → select (λ r. true) rows ≡ rows
select-true [] = refl
select-true (r ∷ rows) = ap (◌∷◌ r) (select-true rows)

page-nil {ℓ} : {A : Type ℓ} (limit offset : ℕ) → take {A = A} limit (drop offset []) ≡ []
page-nil zero offset = refl
page-nil (suc n) zero = refl
page-nil (suc n) (suc m) = refl

-- The rows that can be read.
abbrev pub readable {ℓ} : {A : Type ℓ} → List (Option A) → List A
readable [] = []
readable (none ∷ rows) = readable rows
readable (some a ∷ rows) = a ∷ readable rows

abbrev pub all_readable {ℓ} : {A : Type ℓ} → List (Option A) → Bool
all_readable [] = true
all_readable (none ∷ rows) = false
all_readable (some a ∷ rows) = all_readable rows

-- The events that can be read, if they can be queried.
abbrev pub events_in : Option (List (Option TxEvents)) → List TxEvents
events_in none = []
events_in (some rows) = readable rows

-- The fees, if they can be queried and all of them can be read.
abbrev pub fees_in : Option (List (Option Fee)) → List Fee
fees_in none = []
fees_in (some rows) = if all_readable rows then readable rows else []

-- A transaction has the columns of a row, and the database's fees and events of the row.
pub record TxOf (q : Queries) (r : TxRow) (tx : Tx) : Type 0 where
  pub id : tx.id ≡ r.id
  pub hash : tx.hash ≡ r.hash
  pub code : tx.code ≡ r.code
  pub block_id : tx.block_id ≡ r.block_id
  pub timestamp : tx.timestamp ≡ r.timestamp
  pub memo : tx.memo ≡ r.memo
  pub signatures : tx.signatures ≡ r.signatures
  pub gas_limit : tx.auth_info.fee.gas_limit ≡ r.gas_limit
  pub payer : tx.auth_info.fee.payer ≡ r.payer
  pub granter : tx.auth_info.fee.granter ≡ r.granter
  pub tipper : tx.auth_info.tip.tipper ≡ r.tipper
  pub resp_code : tx.tx_response.code ≡ r.resp_code
  pub gas_used : tx.tx_response.gas_used ≡ r.gas_used
  pub gas_wanted : tx.tx_response.gas_wanted ≡ r.gas_wanted
  pub fees : tx.fees ≡ fees_in (q.fee_rows r.id)
  pub events : tx.events ≡ events_in (q.event_rows r.id)

-- The answer for the row that there is, or for none.
abbrev pub Finds : Queries → Option TxRow → Result ReadError Tx → Type 0
Finds q none answer = answer ≡ err not_found
Finds q (some r) answer = (tx : Tx) × (answer ≡ ok tx) × TxOf q r tx

module _ (lib : Library) (q : Queries) where
  -- The row as it is read, with its events; or the error that there is none.
  abbrev pub found : Option TxRow → Result ReadError Tx
  found none = err not_found
  found (some r) = ok (with_events lib q (read_tx lib q r))

  first_tx-take :
      (limit : ℕ) (rows : List TxRow)
      → 0 < limit
      → first_tx lib q (map (with_events lib q) (map (read_tx lib q) (take limit rows)))
        ≡ found (newest rows)
  unfolding first_tx
  first_tx-take zero rows h = elim h [ ]
  first_tx-take (suc n) [] h = refl
  first_tx-take (suc n) (r ∷ rows) h = refl

  get_tx_by_hash-newest :
      (t : Table) (n : ℕ) (hash : String)
      → Documented q t
      → q.count_all ≡ row n
      → NewestFirst (select (satisfies t (condition (some (by_hash hash)))) t.rows)
      → get_tx_by_hash lib q hash
        ≡ found (newest (select (satisfies t (condition (some (by_hash hash)))) t.rows))
  unfolding get_tx_by_hash
  get_tx_by_hash-newest t n hash promise counted ordered =
      rw
        (
          get_tx_by_hash,
          transactions-by_hash lib q t n 10 hash promise counted (omega arith) ordered,
        )
        (first_tx-take 10 (select (satisfies t (condition (some (by_hash hash)))) t.rows)
          (omega arith))

  -- From a database that answers as documented and can count its transactions, of which no two have one timestamp: for
  -- the empty hash it is the newest transaction of all.
  pub get_tx_by_hash-empty :
      (t : Table) (n : ℕ)
      → Documented q t
      → q.count_all ≡ row n
      → NewestFirst t.rows
      → get_tx_by_hash lib q "" ≡ found (newest t.rows)
  unfolding condition
  get_tx_by_hash-empty t n promise counted ordered =
      get_tx_by_hash-newest t n "" promise counted
        (subst NewestFirst (sym (select-true t.rows)) ordered)
      ∙ ap found (newest-all t.rows)

  -- From a database that cannot count all its transactions every look-up by a hash fails, whatever rows there are.
  pub get_tx_by_hash-uncounted :
      (hash : String) → q.count_all ≡ failed → get_tx_by_hash lib q hash ≡ err query_failed
  unfolding get_tx_by_hash filtered_block count_of count_or_zero
  get_tx_by_hash-uncounted hash counted =
      rw
        (
          get_tx_by_hash,
          transactions-uncounted lib q (pos 10) (pos 0) (some (by_hash hash)) none refl
              (rw counted refl),
        )
        refl

  -- For a height that no block of the database has: the transactions are none, and the total is the count of all
  -- the transactions of the database.
  pub transactions_by_block-unknown :
      (t : Table) (n : ℕ) (height limit offset : ℤ)
      → Documented q t
      → q.count_all ≡ row n
      → 0 < to_uint limit
      → q.block_id_at height ≡ no_rows
      → select (satisfies t (at_height height)) t.rows ≡ []
      → transactions_by_block lib q height limit offset ≡ some ([], n)
  unfolding transactions_by_block condition filtered_block count_of count_or_zero
  transactions_by_block-unknown t n height limit offset promise counted positive absent none_there =
      transactions-page lib q t promise limit offset (some (by_height height)) none n positive
        (subst NewestFirst (sym none_there) tt) (rw absent refl) (rw counted refl)
      ∙ ap
          (λ rows.
            some (map (read_tx lib q) (take (to_uint limit) (drop (to_uint offset) rows)), n))
          none_there
      ∙ ap (λ rows. some (map (read_tx lib q) rows, n)) (page-nil (to_uint limit) (to_uint offset))
