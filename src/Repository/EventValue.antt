-- ===== src/Repository/EventValue.antt =====
-- pkg/repository/txs.go, TransactionsByEventValue: the transactions that have all of some values in their events.
pub mod Repeated
use cosmos_indexer.Prelude.{
  ℕ, suc, ◌+◌, Bool, true, false, String, List, [], ◌∷◌, ◌++◌, map, Option, none, some, length,
  if◌then◌else◌,
}
use cosmos_indexer.Prelude.Int.{ℤ, pos}
use cosmos_indexer.Indexer.Aggregate.{TxEvents}
use cosmos_indexer.Repository.Transactions.{
  Tx, Queries, Library, TxsFilter, Answer, row, no_rows, failed, transactions, scan_readable,
  count_or_zero,
}

-- The arguments of the query: the types of messages, the number of values that a transaction has to have, the limit,
-- the offset, and the digests of the values, which fill the places that are written into the query's text.
pub record ValueArgs : Type 0 where
  pub message_type : List String
  pub count : ℕ
  pub limit : ℤ
  pub offset : ℤ
  pub digests : List String

pub record TotalArgs : Type 0 where
  pub message_type : List String
  pub count : ℕ
  pub digests : List String

-- `digest` is the hexadecimal MD5 sum of the value in lower case.
pub record ValueQueries : Type 0 where
  pub digest : String → String
  pub hash_rows : ValueArgs → Answer (List (Option String))
  pub total : TotalArgs → Answer ℕ
  pub event_rows_v2 : String → Answer (List (Option TxEvents))

abbrev pub with_hashes_in : List String → TxsFilter
with_hashes_in hashes = record { tx_hash = none; tx_block_height = none; tx_hashes = hashes }

module _ (lib : Library) (q : Queries) (e : ValueQueries) where
  unfoldable pub prepare_v2 : List String → List String → ℤ → ℤ → ValueArgs
  prepare_v2 values message_type limit offset = record {
    message_type = message_type;
    count = length values;
    limit = limit;
    offset = offset;
    digests = map e.digest values;
  }

  unfoldable pub total_args : List String → List String → TotalArgs
  total_args values message_type = record {
    message_type = message_type;
    count = length values;
    digests = map e.digest values;
  }

  unfoldable pub get_events_v2 : String → Answer (List TxEvents)
  unfolding scan_readable
  get_events_v2 hash = elim (e.event_rows_v2 hash) [
    | row rows ↦ row (scan_readable rows [])
    | no_rows ↦ no_rows
    | failed ↦ failed
  ]

  -- The loop that adds the events; without rows `events` is nil.
  unfoldable pub add_events : Bool → List Tx → List Tx → Option (List Tx)
  unfolding get_events_v2
  add_events include_events [] out = some out
  add_events false (tx ∷ txs) out = add_events false txs (out ++ tx ∷ [])
  add_events true (tx ∷ txs) out = elim (get_events_v2 tx.hash) [
    | row events ↦ add_events true txs (out ++ record tx { events = events } ∷ [])
    | no_rows ↦ add_events true txs (out ++ record tx { events = [] } ∷ [])
    | failed ↦ none
  ]

  unfoldable pub transactions_of_hashes :
      List String → List String → Bool → ℤ → List String → Option (List Tx × ℕ)
  unfolding add_events total_args count_or_zero
  transactions_of_hashes values message_type include_events limit [] = some ([], 0)
  transactions_of_hashes values message_type include_events limit (hash ∷ hashes) =
      elim (transactions lib q limit (pos 0) (some (with_hashes_in (hash ∷ hashes)))) [
        | none ↦ none
        | some (txs, _) ↦ elim (add_events include_events txs []) [
          | none ↦ none
          | some data_ ↦ elim (count_or_zero (e.total (total_args values message_type))) [
            | none ↦ none
            | some total ↦ some (data_, total)
          ]
        ]
      ]

  unfoldable pub transactions_by_event_value :
      List String → List String → Bool → ℤ → ℤ → Option (List Tx × ℕ)
  unfolding prepare_v2 transactions_of_hashes scan_readable
  transactions_by_event_value values message_type include_events limit offset =
      elim (e.hash_rows (prepare_v2 values message_type limit offset)) [
        | failed ↦ none
        | no_rows ↦ some ([], 0)
        | row rows ↦
            transactions_of_hashes values message_type include_events limit (scan_readable rows [])
      ]
