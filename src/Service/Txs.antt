-- ===== src/Service/Txs.antt =====
-- pkg/service/tx.go: pages of transactions, and a transaction by its hash.
pub mod ByHash
use cosmos_indexer.Prelude.{ℕ, String, List, [], ◌∷◌, map, Option, none, some, Result, ok, err}
use cosmos_indexer.Prelude.Int.{ℤ, pos}
use cosmos_indexer.Repository.Transactions.{
  Tx, Queries, Library, TxsFilter, by_hash, transactions, get_events,
}

pub data ReadError : Type 0 where
  query_failed not_found : ReadError

abbrev pub by_height : ℤ → TxsFilter
by_height height = record { tx_hash = none; tx_block_height = some height; tx_hashes = [] }

module _ (lib : Library) (q : Queries) where
  unfoldable pub service_transactions : ℤ → ℤ → Option (List Tx × ℕ)
  service_transactions offset limit = transactions lib q limit offset none

  unfoldable pub transactions_by_block : ℤ → ℤ → ℤ → Option (List Tx × ℕ)
  transactions_by_block height limit offset =
      transactions lib q limit offset (some (by_height height))

  -- A transaction whose events cannot be queried keeps none.
  unfoldable pub with_events : Tx → Tx
  with_events tx = elim (get_events lib q tx.id) [ none ↦ tx | some es ↦ record tx { events = es } ]

  unfoldable pub first_tx : List Tx → Result ReadError Tx
  first_tx [] = err not_found
  first_tx (tx ∷ txs) = ok tx

  unfoldable pub get_tx_by_hash : String → Result ReadError Tx
  unfolding with_events first_tx
  get_tx_by_hash hash = elim (transactions lib q (pos 10) (pos 0) (some (by_hash hash))) [
    | none ↦ err query_failed
    | some (txs, _) ↦ first_tx (map with_events txs)
  ]
