-- ===== src/Tx.antt =====
-- core/tx: transactions of the node become rows. pkg/model/tx.go, db/model_wrappers.go: the rows, with
-- the columns that the parser and the processor set; keys that the database assigns are left out.
pub mod Signers
pub mod Fees
pub mod Messages
pub mod Collect
pub mod Row
use cosmos_indexer.Prelude.{ℕ, String, List}
use cosmos_indexer.Prelude.Int.{ℤ}
use cosmos_indexer.Models.{Address}

pub record Fee : Type 0 where
  pub amount : ℤ
  pub denomination : String
  pub payer_address : Address

pub record MessageEventAttribute : Type 0 where
  pub value : String
  pub key : String
  pub index : ℕ

pub record MessageEventDbWrapper : Type 0 where
  pub event_type : String
  pub index : ℕ
  pub attributes : List MessageEventAttribute

pub record MessageDbWrapper : Type 0 where
  pub message_type : String
  pub message_index : ℕ
  pub message_bytes : List ℕ
  pub message_events : List MessageEventDbWrapper
