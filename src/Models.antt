-- ===== src/Models.antt =====
-- db/models/block.go, address.go: the rows that the indexer writes, with the columns that its code
-- sets or reads. Keys that the database assigns are left out. An instant is a number.
use cosmos_indexer.Prelude.{ℕ, String, Bool, List}

pub record Address : Type 0 where
  pub address : String

pub record BlockSignature : Type 0 where
  pub validator_address : String
  pub timestamp : ℕ
  pub signature : List ℕ

pub record Block : Type 0 where
  pub time_stamp : ℕ
  pub height : ℕ
  pub chain_id : ℕ
  pub proposer_cons_address : Address
  pub tx_indexed : Bool
  pub total_txs : ℕ
  pub block_hash : String
  pub signatures : List BlockSignature

pub data BlockLifecyclePosition : Type 0 where
  begin_block_event end_block_event : BlockLifecyclePosition

pub record BlockEventType : Type 0 where
  pub type_name : String

pub record BlockEventAttributeKey : Type 0 where
  pub key : String

pub record BlockEventAttribute : Type 0 where
  pub value : String
  pub index : ℕ
  pub block_event_attribute_key : BlockEventAttributeKey

pub record BlockEvent : Type 0 where
  pub index : ℕ
  pub lifecycle_position : BlockLifecyclePosition
  pub block : Block
  pub block_event_type : BlockEventType
