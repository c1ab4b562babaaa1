-- ===== src/Server/Transactions.antt =====
-- pkg/server/blocks.go: the handlers that answer with transactions, over the service and the repository.
pub mod Paging
use cosmos_indexer.Prelude.{
  ℕ, String, List, [], ◌∷◌, ◌++◌, map, Option, none, some, Result, ok, err,
}
use cosmos_indexer.Prelude.Int.{ℤ}
use cosmos_indexer.Repository.Transactions.{Tx, Queries, Library}
use cosmos_indexer.Service.Txs.{service_transactions, transactions_by_block, get_tx_by_hash}
use cosmos_indexer.Server.Proto.{PbTxByHash, tx_to_proto}

-- How a call can end without an answer: by an error, or by a panic, which no interceptor recovers from.
pub data ServerError : Type 0 where
  call_failed panicked : ServerError

pub record Limit : Type 0 where
  pub limit : ℤ
  pub offset : ℤ

pub record PbResult : Type 0 where
  pub limit : ℤ
  pub offset : ℤ
  pub all : ℕ

pub record TransactionsResponse : Type 0 where
  pub tx : List PbTxByHash
  pub result : PbResult

module _ (lib : Library) where
  unfoldable pub txs_loop : List Tx → List PbTxByHash → List PbTxByHash
  txs_loop [] res = res
  txs_loop (tx ∷ txs) res = txs_loop txs (res ++ tx_to_proto lib tx ∷ [])

  -- What the handlers do with the transactions, the total and the request's limit.
  unfoldable pub respond : Limit → Option (List Tx × ℕ) → Result ServerError TransactionsResponse
  unfolding txs_loop
  respond in_ none = err call_failed
  respond in_ (some (transactions, total)) = ok record {
    tx = txs_loop transactions [];
    result = record { limit = in_.limit; offset = in_.offset; all = total };
  }

  module _ (q : Queries) where
    -- A request without a limit is a nil pointer, which `in.Limit.Offset` reads through.
    unfoldable pub handle_transactions : Option Limit → Result ServerError TransactionsResponse
    unfolding respond service_transactions
    handle_transactions none = err panicked
    handle_transactions (some in_) = respond in_ (service_transactions lib q in_.offset in_.limit)

    unfoldable pub txs_by_block : ℤ → Option Limit → Result ServerError TransactionsResponse
    unfolding respond transactions_by_block
    txs_by_block height none = err panicked
    txs_by_block height (some in_) =
        respond in_ (transactions_by_block lib q height in_.limit in_.offset)

    unfoldable pub tx_by_hash : String → Result ServerError PbTxByHash
    unfolding get_tx_by_hash
    tx_by_hash hash = elim (get_tx_by_hash lib q hash) [
      | err _ ↦ err call_failed
      | ok tx ↦ ok (tx_to_proto lib tx)
    ]
