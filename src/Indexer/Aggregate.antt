-- ===== src/Indexer/Aggregate.antt =====
-- cmd/index.go, saveAggregated: the row of delegations that is saved of the events of a written transaction.
-- `extract` is ExtractNumber, with the 64-bit numbers of package decimal.
pub mod Amounts
use cosmos_indexer.Prelude.{
  ℕ, suc, zero, ◌≡◌, refl, ap, sym, ◌∙◌, Bool, true, false, not, ◌&&◌, ◌||◌, String, List, [], ◌∷◌,
  ◌++◌, Option, none, some, if◌then◌else◌, arith, Bool-cases, Option-cases, inl, inr, All,
}
use cosmos_indexer.Prelude.Int.{ℤ, pos, negsuc}
use cosmos_indexer.Prelude.Text.{str_eq}
use cosmos_indexer.Repository.Amount.{extract_number}

pub record TxEvents : Type 0 where
  pub message_type : String
  pub event_index : ℤ
  pub type_name : String
  pub index : ℤ
  pub key : String
  pub value : List ℕ

pub record TxDelegateAggregated : Type 0 where
  pub tx_type : String
  pub validator : List ℕ
  pub sender : List ℕ
  pub amount : ℤ
  pub denom : List ℕ

-- The row being filled, and the flags isMsgDelegate and isMsgUndelegate.
pub record Aggregating : Type 0 where
  pub is_msg_delegate : Bool
  pub is_msg_undelegate : Bool
  pub row : TxDelegateAggregated

abbrev pub msg_delegate : String
msg_delegate = "/cosmos.staking.v1beta1.MsgDelegate"

abbrev pub msg_undelegate : String
msg_undelegate = "/cosmos.staking.v1beta1.MsgUndelegate"

unfoldable pub negate : ℤ → ℤ
negate (pos zero) = pos zero
negate (pos (suc n)) = negsuc n
negate (negsuc n) = pos (suc n)

unfoldable pub is_amount : TxEvents → Bool
is_amount e = str_eq e.type_name "coin_received" && str_eq e.key "amount"

abbrev pub nothing_yet : Aggregating
nothing_yet = record {
  is_msg_delegate = false;
  is_msg_undelegate = false;
  row = record { tx_type = ""; validator = []; sender = []; amount = pos 0; denom = [] };
}

module _ (coefficient_int64 : ℕ → ℤ) where
  -- The flags, the type and the validator.
  unfoldable pub mark_message : TxEvents → Aggregating → Aggregating
  mark_message e s = record {
    is_msg_delegate = s.is_msg_delegate || str_eq e.message_type msg_delegate;
    is_msg_undelegate =
        s.is_msg_undelegate
        || not (str_eq e.message_type msg_delegate) && str_eq e.message_type msg_undelegate;
    row = record s.row {
      tx_type = e.message_type;
      validator = if str_eq e.key "validator" then e.value else s.row.validator;
    };
  }

  unfoldable pub set_amount : ℤ × List ℕ → Aggregating → Aggregating
  unfolding negate
  set_amount (amount, denom) s = record s {
    row = record s.row {
      amount =
          if s.is_msg_delegate
          then amount
          else (if s.is_msg_undelegate then negate amount else s.row.amount);
      denom = denom;
    };
  }

  unfoldable pub mark_sender : TxEvents → Aggregating → Aggregating
  mark_sender e s =
      if str_eq e.type_name "coin_spent" && str_eq e.key "spender"
      then record s { row = record s.row { sender = e.value } }
      else s

  -- One event; `none` is the error of an amount that cannot be read.
  unfoldable pub aggregate_event : TxEvents → Aggregating → Option Aggregating
  unfolding mark_message set_amount mark_sender is_amount extract_number
  aggregate_event e s =
      let s' = mark_message e s in
      if is_amount e
      then (elim (extract_number coefficient_int64 e.value) [
        | none ↦ none
        | some read ↦ some (mark_sender e (set_amount read s'))
      ])
      else some (mark_sender e s')

  unfoldable pub aggregate : List TxEvents → Aggregating → Option Aggregating
  unfolding aggregate_event
  aggregate [] s = some s
  aggregate (e ∷ es) s = elim (aggregate_event e s) [ none ↦ none | some s' ↦ aggregate es s' ]

  -- The row that is saved, if one is: where a message delegates or undelegates.
  unfoldable pub save_aggregated : List TxEvents → Option TxDelegateAggregated
  unfolding aggregate
  save_aggregated events = elim (aggregate events nothing_yet) [
    | none ↦ none
    | some s ↦ if s.is_msg_delegate || s.is_msg_undelegate then some s.row else none
  ]

-- Whether some event is of a message of the type.
abbrev pub has_type : String → List TxEvents → Bool
has_type t [] = false
has_type t (e ∷ es) = str_eq e.message_type t || has_type t es
