-- ===== src/Repository/Transactions.antt =====
-- pkg/repository/txs.go: Transactions and the functions it calls, over the answers of the database.
-- pkg/model/tx.go: the transaction as it is read. An instant is a number. nil and an empty slice are one list.
pub mod Pages
use cosmos_indexer.Prelude.{
  ℕ, suc, ◌-◌, ◌^◌, Bool, false, String, List, [], ◌∷◌, ◌++◌, Option, none, some, if◌then◌else◌,
}
use cosmos_indexer.Prelude.Int.{ℤ, pos, negsuc}
use cosmos_indexer.Prelude.Text.{str_eq}
use cosmos_indexer.Models.{Block}
use cosmos_indexer.Tx.{Fee}
use cosmos_indexer.Indexer.Aggregate.{TxEvents}
use cosmos_indexer.Repository.SenderReceiver.{
  TxSenderReceiver, SenderRow, get_sender_and_receiver_v2,
}

pub record AuthInfoFee : Type 0 where
  pub gas_limit : ℕ
  pub payer : String
  pub granter : String

-- The amounts of a tip are not read: the slice stays nil.
pub record Tip : Type 0 where
  pub tipper : String

pub record AuthInfo : Type 0 where
  pub fee : AuthInfoFee
  pub tip : Tip

pub record TxResponse : Type 0 where
  pub tx_hash : String
  pub height : String
  pub time_stamp : String
  pub code : ℕ
  pub gas_used : ℤ
  pub gas_wanted : ℤ
  pub codespace : String
  pub data_ : String
  pub info : String

pub record Tx : Type 0 where
  pub id : ℕ
  pub hash : String
  pub code : ℕ
  pub block_id : ℕ
  pub block : Block
  pub fees : List Fee
  pub signatures : List (List ℕ)
  pub timestamp : ℕ
  pub memo : String
  pub timeout_height : ℕ
  pub extension_options : List String
  pub non_critical_extension_options : List String
  pub auth_info_id : ℕ
  pub auth_info : AuthInfo
  pub tx_response_id : ℕ
  pub tx_response : TxResponse
  pub sender_receiver : Option TxSenderReceiver
  pub events : List TxEvents

-- The columns that the query of Transactions selects.
pub record TxRow : Type 0 where
  pub id : ℕ
  pub signatures : List (List ℕ)
  pub hash : String
  pub code : ℕ
  pub block_id : ℕ
  pub timestamp : ℕ
  pub memo : String
  pub timeout_height : ℕ
  pub extension_options : List String
  pub non_critical_extension_options : List String
  pub auth_info_id : ℕ
  pub tx_response_id : ℕ
  pub gas_limit : ℕ
  pub payer : String
  pub granter : String
  pub tipper : String
  pub resp_code : ℕ
  pub gas_used : ℤ
  pub gas_wanted : ℤ
  pub time_stamp : String
  pub codespace : String
  pub data_ : String
  pub info : String

pub record BlockRow : Type 0 where
  pub time_stamp : ℕ
  pub height : ℕ
  pub chain_id : ℕ
  pub address : String
  pub block_hash : String

pub record TxsFilter : Type 0 where
  pub tx_hash : Option String
  pub tx_block_height : Option ℤ
  pub tx_hashes : List String

abbrev pub by_hash : String → TxsFilter
by_hash hash = record { tx_hash = some hash; tx_block_height = none; tx_hashes = [] }

-- The condition that is put into the query.
pub data TxCondition : Type 0 where
  all_txs : TxCondition
  at_height : ℤ → TxCondition
  with_hash : String → TxCondition
  with_hashes : List String → TxCondition

abbrev by_hashes : List String → TxCondition
by_hashes [] = all_txs
by_hashes (h ∷ hs) = with_hashes (h ∷ hs)

unfoldable pub hash_condition : Option String → List String → TxCondition
hash_condition none hashes = by_hashes hashes
hash_condition (some hash) hashes = if str_eq hash "" then by_hashes hashes else with_hash hash

unfoldable pub height_condition : Option ℤ → TxCondition → TxCondition
height_condition (some height) other = at_height height
height_condition none other = other

unfoldable pub condition : Option TxsFilter → TxCondition
unfolding hash_condition height_condition
condition none = all_txs
condition (some f) = height_condition f.tx_block_height (hash_condition f.tx_hash f.tx_hashes)

-- What a query gives: a value, no row, or an error.
pub data Answer {ℓ} (A : Type ℓ) : Type ℓ where
  row : A → Answer A
  no_rows : Answer A
  failed : Answer A

-- `allTx` after its Scan.
unfoldable pub count_or_zero : Answer ℕ → Option ℕ
count_or_zero (row n) = some n
count_or_zero no_rows = some 0
count_or_zero failed = none

-- The answers of the database. A row that Scan cannot read is `none`; where only failing matters, so is an error.
-- The limit and the offset are those that are handed to the query builder.
pub record Queries : Type 0 where
  pub select_txes : TxCondition → ℕ → ℕ → Answer (List (Option TxRow))
  pub block_row : ℕ → Option BlockRow
  pub fee_rows : ℕ → Option (List (Option Fee))
  pub sender_rows : String → Option (List (Option SenderRow))
  pub block_id_at : ℤ → Answer ℕ
  pub count_in_block : ℕ → Answer ℕ
  pub count_all : Answer ℕ
  pub event_rows : ℕ → Option (List (Option TxEvents))

-- strings.EqualFold, and the number and the text that package decimal makes of a number.
pub record Library : Type 0 where
  pub equal_fold : String → String → Bool
  pub coefficient_int64 : ℕ → ℤ
  pub decimal_text : ℤ → List ℕ

-- `uint(n)` of an int64.
unfoldable pub to_uint : ℤ → ℕ
to_uint (pos n) = n
to_uint (negsuc n) = 2 ^ 64 - suc n

-- A loop over rows that returns at the first one that cannot be read.
unfoldable pub scan_all {ℓ} : {A : Type ℓ} → List (Option A) → List A → Option (List A)
scan_all [] out = some out
scan_all (none ∷ rows) out = none
scan_all (some a ∷ rows) out = scan_all rows (out ++ a ∷ [])

-- A loop over rows that goes on after one that cannot be read.
unfoldable pub scan_readable {ℓ} : {A : Type ℓ} → List (Option A) → List A → List A
scan_readable [] out = out
scan_readable (none ∷ rows) out = scan_readable rows out
scan_readable (some a ∷ rows) out = scan_readable rows (out ++ a ∷ [])

abbrev pub zero_block : Block
zero_block = record {
  time_stamp = 0;
  height = 0;
  chain_id = 0;
  proposer_cons_address = record { address = "" };
  tx_indexed = false;
  total_txs = 0;
  block_hash = "";
  signatures = [];
}

unfoldable pub block_of : BlockRow → Block
block_of r = record zero_block {
  time_stamp = r.time_stamp;
  height = r.height;
  chain_id = r.chain_id;
  proposer_cons_address = record { address = r.address };
  block_hash = r.block_hash;
}

module _ (lib : Library) (q : Queries) where
  unfoldable pub block_info : ℕ → Option Block
  unfolding block_of
  block_info id = elim (q.block_row id) [ none ↦ none | some r ↦ some (block_of r) ]

  unfoldable pub fees_by_transaction : ℕ → Option (List Fee)
  unfolding scan_all
  fees_by_transaction id = elim (q.fee_rows id) [ none ↦ none | some rows ↦ scan_all rows [] ]

  unfoldable pub get_events : ℕ → Option (List TxEvents)
  unfolding scan_readable
  get_events id = elim (q.event_rows id) [ none ↦ none | some rows ↦ some (scan_readable rows []) ]

  unfoldable pub sender_of : String → Option TxSenderReceiver
  unfolding get_sender_and_receiver_v2
  sender_of hash =
      get_sender_and_receiver_v2 lib.equal_fold lib.coefficient_int64 lib.decimal_text
        (q.sender_rows hash)

  -- One round of the loop. An error of blockInfo, of feesByTransaction or of GetSenderAndReceiverV2 leaves its part
  -- empty.
  unfoldable pub read_tx : TxRow → Tx
  unfolding block_info fees_by_transaction sender_of
  read_tx r = record {
    id = r.id;
    hash = r.hash;
    code = r.code;
    block_id = r.block_id;
    block = elim (block_info r.block_id) [ none ↦ zero_block | some b ↦ b ];
    fees = elim (fees_by_transaction r.id) [ none ↦ [] | some fs ↦ fs ];
    signatures = r.signatures;
    timestamp = r.timestamp;
    memo = r.memo;
    timeout_height = r.timeout_height;
    extension_options = r.extension_options;
    non_critical_extension_options = r.non_critical_extension_options;
    auth_info_id = r.auth_info_id;
    auth_info = record {
      fee = record { gas_limit = r.gas_limit; payer = r.payer; granter = r.granter };
      tip = record { tipper = r.tipper };
    };
    tx_response_id = r.tx_response_id;
    tx_response = record {
      tx_hash = "";
      height = "";
      time_stamp = r.time_stamp;
      code = r.resp_code;
      gas_used = r.gas_used;
      gas_wanted = r.gas_wanted;
      codespace = r.codespace;
      data_ = r.data_;
      info = r.info;
    };
    sender_receiver = sender_of r.hash;
    events = [];
  }

  unfoldable pub read_rows : List (Option TxRow) → List Tx → Option (List Tx)
  unfolding read_tx
  read_rows [] result = some result
  read_rows (none ∷ rows) result = none
  read_rows (some r ∷ rows) result = read_rows rows (result ++ read_tx r ∷ [])

  unfoldable pub read_answer : Answer (List (Option TxRow)) → Option (List Tx)
  unfolding read_rows
  read_answer (row rows) = read_rows rows []
  read_answer no_rows = some []
  read_answer failed = none

  -- `blockID`, with `none` for -1; the outer `none` is an error.
  unfoldable pub filtered_block : Option TxsFilter → Option (Option ℕ)
  filtered_block none = some none
  filtered_block (some f) = elim f.tx_block_height [
    | none ↦ some none
    | some height ↦ elim (q.block_id_at height) [
      | row id ↦ some (some id)
      | no_rows ↦ some none
      | failed ↦ none
    ]
  ]

  unfoldable pub count_of : Option ℕ → Answer ℕ
  count_of none = q.count_all
  count_of (some block_id) = q.count_in_block block_id

  -- The transactions of the page, and the total; `none` is an error.
  unfoldable pub transactions : ℤ → ℤ → Option TxsFilter → Option (List Tx × ℕ)
  unfolding read_answer filtered_block count_of count_or_zero condition to_uint
  transactions limit offset filter =
      elim (read_answer (q.select_txes (condition filter) (to_uint limit) (to_uint offset))) [
        | none ↦ none
        | some result ↦ elim (filtered_block filter) [
          | none ↦ none
          | some block_id ↦ elim (count_or_zero (count_of block_id)) [
            | none ↦ none
            | some all ↦ some (result, all)
          ]
        ]
      ]
