-- ===== src/Server/Proto.antt =====
-- pkg/server/blocks.go: the messages that the server sends, as its conversions build them. An instant stands for
-- its protobuf timestamp. A number in the text of the message is the list of its bytes.
use cosmos_indexer.Prelude.{
  ℕ, suc, ◌-◌, ◌%◌, ◌^◌, String, List, [], map, Option, if◌then◌else◌, ltb,
}
use cosmos_indexer.Prelude.Int.{ℤ, pos, negsuc}
use cosmos_indexer.Models.{Block}
use cosmos_indexer.Tx.{Fee}
use cosmos_indexer.Indexer.Aggregate.{TxEvents}
use cosmos_indexer.Repository.Amount.{itoa}
use cosmos_indexer.Repository.SenderReceiver.{TxSenderReceiver}
use cosmos_indexer.Repository.Transactions.{Tx, Library}

-- `int32(n)` of a uint32 and of an int.
unfoldable pub int32_of_uint32 : ℕ → ℤ
int32_of_uint32 n = if ltb n (2 ^ 31) then pos n else negsuc (2 ^ 32 - suc n)

unfoldable pub int32_of_int : ℤ → ℤ
unfolding int32_of_uint32
int32_of_int (pos n) = int32_of_uint32 (n % 2 ^ 32)
int32_of_int (negsuc n) = int32_of_uint32 (2 ^ 32 - suc (n % 2 ^ 32))

pub record PbFee : Type 0 where
  pub amount : List ℕ
  pub denom : String
  pub payer : String

pub record PbBlock : Type 0 where
  pub block_height : ℕ
  pub proposed_validator : String
  pub tx_hash : String
  pub generation_time : ℕ

pub record PbTxEvent : Type 0 where
  pub message_type : String
  pub event_index : ℤ
  pub type_name : String
  pub index : ℤ
  pub value : List ℕ
  pub key : String

pub record PbTxFee : Type 0 where
  pub granter : String
  pub payer : String
  pub gas_limit : List ℕ

pub record PbTxAuthInfo : Type 0 where
  pub public_key : List String
  pub signatures : List (List ℕ)
  pub fee : PbTxFee
  pub tipper : String

pub record PbTxResponse : Type 0 where
  pub height : String
  pub txhash : String
  pub codespace : String
  pub code : ℤ
  pub data_ : String
  pub info : String
  pub gas_wanted : List ℕ
  pub gas_used : List ℕ
  pub timestamp : String

pub record PbTxByHash : Type 0 where
  pub memo : String
  pub timeout_height : List ℕ
  pub extension_options : List String
  pub non_critical_extension_options : List String
  pub auth_info : PbTxAuthInfo
  pub fees : List PbFee
  pub tx_response : PbTxResponse
  pub block : PbBlock
  pub sender_receiver : Option TxSenderReceiver
  pub events : List PbTxEvent

module _ (lib : Library) where
  unfoldable pub to_fee_proto : Fee → PbFee
  to_fee_proto fee = record {
    amount = lib.decimal_text fee.amount;
    denom = fee.denomination;
    payer = fee.payer_address.address;
  }

  unfoldable pub to_fees_proto : List Fee → List PbFee
  unfolding to_fee_proto
  to_fees_proto = map to_fee_proto

  unfoldable pub to_block_proto : Block → PbBlock
  to_block_proto bl = record {
    block_height = bl.height;
    proposed_validator = bl.proposer_cons_address.address;
    tx_hash = bl.block_hash;
    generation_time = bl.time_stamp;
  }

  unfoldable pub to_event_proto : TxEvents → PbTxEvent
  unfolding int32_of_int
  to_event_proto event = record {
    message_type = event.message_type;
    event_index = int32_of_int event.event_index;
    type_name = event.type_name;
    index = int32_of_int event.index;
    value = event.value;
    key = event.key;
  }

  unfoldable pub to_events_proto : List TxEvents → List PbTxEvent
  unfolding to_event_proto
  to_events_proto = map to_event_proto

  -- The fields are those of the message; the parts that are sent as nil or with no element are left out: the amounts
  -- of the fee and of the tip.
  unfoldable pub tx_to_proto : Tx → PbTxByHash
  unfolding to_fees_proto to_block_proto to_events_proto int32_of_uint32 itoa
  tx_to_proto tx = record {
    memo = tx.memo;
    timeout_height = itoa (pos tx.timeout_height);
    extension_options = tx.extension_options;
    non_critical_extension_options = tx.non_critical_extension_options;
    auth_info = record {
      public_key = [];
      signatures = tx.signatures;
      fee = record {
        granter = tx.auth_info.fee.granter;
        payer = tx.auth_info.fee.payer;
        gas_limit = itoa (pos tx.auth_info.fee.gas_limit);
      };
      tipper = tx.auth_info.tip.tipper;
    };
    fees = to_fees_proto tx.fees;
    tx_response = record {
      height = tx.tx_response.height;
      txhash = tx.hash;
      codespace = tx.tx_response.codespace;
      code = int32_of_uint32 tx.tx_response.code;
      data_ = tx.tx_response.data_;
      info = tx.tx_response.info;
      gas_wanted = itoa tx.tx_response.gas_wanted;
      gas_used = itoa tx.tx_response.gas_used;
      timestamp = tx.tx_response.time_stamp;
    };
    block = to_block_proto tx.block;
    sender_receiver = tx.sender_receiver;
    events = to_events_proto tx.events;
  }
