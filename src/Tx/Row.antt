-- ===== src/Tx/Row.antt =====
-- core/tx/parser.go: the row of one transaction in ProcessRPCBlockByHeightTXs and in ProcessRPCTXs, after the
-- transaction was decoded. A raw log is left out. Reading through a nil pointer, and the SDK's `Int64` of an integer
-- that is no `int64`, panic.
pub mod Same
use cosmos_indexer.Prelude.{
  ℕ, ◌^◌, ◌-◌, Bool, true, false, ◌&&◌, String, List, [], ◌∷◌, ◌++◌, map, Option, none, some,
  Result, ok, err, ◌>>=◌, if◌then◌else◌, ltb, leb,
}
use cosmos_indexer.Prelude.Int.{ℤ, pos, negsuc}
use cosmos_indexer.Models.{Address}
use cosmos_indexer.Filter.Regexp.{Regexp}
use cosmos_indexer.Filter.MessageType.{MessageTypeFilter, FilterError}
use cosmos_indexer.Tx.{Fee}
use cosmos_indexer.Tx.Collect.{AnyMessage, StringEvent, Collected, collect_messages}
use cosmos_indexer.Tx.Collect.Height.{collect_height_messages}
use cosmos_indexer.Tx.Messages.{TxDbWrapper, process_tx}
use cosmos_indexer.Tx.Signers.{RawSignerInfo, SignerInfo, PubKey, process_signers}
use cosmos_indexer.Tx.Fees.{Coin, AuthFee, get_payer, process_fees}
use cosmos_indexer.Repository.Transactions.{AuthInfo, AuthInfoFee, Tip, TxResponse}

pub data RowError : Type 0 where
  filter : FilterError → RowError
  bad_time bad_key not_unpacked panicked : RowError

-- The SDK's transaction: of the body all but its messages' contents. An option is its text.
pub record RawTip : Type 0 where
  pub amount : List Coin
  pub tipper : String

pub record RawAuthInfo (K : Type 0) : Type 0 where
  pub signer_infos : List (RawSignerInfo K)
  pub fee : Option AuthFee
  pub tip : Option RawTip

pub record RawTx (M K : Type 0) : Type 0 where
  pub messages : List (AnyMessage M)
  pub memo : String
  pub timeout_height : ℕ
  pub extension_options : List String
  pub non_critical_extension_options : List String
  pub auth_info : Option (RawAuthInfo K)
  pub signatures : List (List ℕ)

-- model.Tx and its wrapper, as the parser fills them.
pub record TxRow (T : Type 0) : Type 0 where
  pub wrapper : TxDbWrapper T
  pub signer_addresses : List String
  pub fees : List Fee
  pub signatures : List (List ℕ)
  pub memo : String
  pub timeout_height : ℕ
  pub extension_options : List String
  pub non_critical_extension_options : List String
  pub tx_response : TxResponse
  pub auth_info : AuthInfo
  pub tip_amount : List Coin
  pub signer_infos : List SignerInfo

abbrev pub lift_filter : {A : Type 0} → Result FilterError A → Result RowError A
lift_filter (ok a) = ok a
lift_filter (err e) = err (filter e)

-- The loop that appends the texts of options to a slice.
unfoldable pub append_options : List String → List String → List String
append_options out [] = out
append_options out (o ∷ os) = append_options (out ++ o ∷ []) os

abbrev in_int64 : ℤ → Bool
in_int64 (pos n) = ltb n (2 ^ 63)
in_int64 (negsuc n) = ltb n (2 ^ 63)

unfoldable pub tip_amounts : List Coin → List Coin → Result RowError (List Coin)
tip_amounts [] out = ok out
tip_amounts (c ∷ cs) out =
    let rest = tip_amounts cs (out ++ c ∷ []) in if in_int64 c.amount then rest else err panicked

-- model.AuthInfo with the tip's amounts, of an AuthInfo with a fee.
unfoldable pub auth_with : AuthFee → Option RawTip → Result RowError (AuthInfo × List Coin)
unfolding tip_amounts
auth_with f none = ok (
  record {
    fee = record { gas_limit = f.gas_limit; payer = f.payer; granter = f.granter };
    tip = record { tipper = "" };
  },
  [],
)
auth_with f (some tip) = tip_amounts tip.amount [] >>= λ amount. ok (
  record {
    fee = record { gas_limit = f.gas_limit; payer = f.payer; granter = f.granter };
    tip = record { tipper = tip.tipper };
  },
  amount,
)

-- model.AuthInfo{}.
abbrev no_auth : AuthInfo × List Coin
no_auth = (
  record { fee = record { gas_limit = 0; payer = ""; granter = "" }; tip = record { tipper = "" } },
  [],
)

-- ProcessRPCBlockByHeightTXs leaves the auth info empty where the fee is nil; ProcessRPCTXs reads through it.
unfoldable pub height_auth :
    Option AuthFee
    → Option RawTip
    → List SignerInfo
    → Result RowError (List SignerInfo × (AuthInfo × List Coin))
unfolding auth_with
height_auth none tip infos = ok ([], no_auth)
height_auth (some f) tip infos = auth_with f tip >>= λ auth. ok (infos, auth)

unfoldable pub search_auth : Option AuthFee → Option RawTip → Result RowError (AuthInfo × List Coin)
unfolding auth_with
search_auth none tip = err panicked
search_auth (some f) tip = auth_with f tip

abbrev pub unpacked : Bool → Result RowError (Unit {0})
unpacked true = ok tt
unpacked false = err not_unpacked

-- The columns that follow the fees, the same in both functions.
unfoldable pub fill_row :
    {M K T : Type 0}
    → RawTx M K
    → TxDbWrapper T
    → List String × List SignerInfo
    → TxResponse
    → List SignerInfo
    → AuthInfo × List Coin
    → Option AuthFee
    → TxRow T
unfolding append_options process_fees
fill_row tx w signers response infos auth fee = record {
  wrapper = w;
  signer_addresses = signers.0;
  fees = process_fees fee (map (λ a. record { address = a }) signers.0);
  signatures = tx.signatures;
  memo = tx.memo;
  timeout_height = tx.timeout_height;
  extension_options = append_options [] tx.extension_options;
  non_critical_extension_options = [];
  tx_response = response;
  auth_info = auth.0;
  tip_amount = auth.1;
  signer_infos = infos;
}

module _ {M : Type 0} (validate : M → Bool) (get_signers : M → List String) where
  -- The signers of the messages that pass ValidateBasic.
  unfoldable pub valid_signers : List (Option M) → List String
  valid_signers [] = []
  valid_signers (none ∷ ms) = valid_signers ms
  valid_signers (some m ∷ ms) =
      let rest = valid_signers ms in if validate m then get_signers m ++ rest else rest

  unfoldable pub all_signers : List (Option M) → List String
  all_signers [] = []
  all_signers (none ∷ ms) = all_signers ms
  all_signers (some m ∷ ms) = get_signers m ++ all_signers ms

module _ (r : Regexp) {M K T : Type 0} (filters : List (MessageTypeFilter r))
    (unpack : AnyMessage M → Option M) (validate : M → Bool) (get_signers : M → List String)
    (msg_type_url : M → String) (parse_time : String → Result RowError T)
    (resolve : K → Result RowError PubKey) (unpack_interfaces : RawAuthInfo K → Bool) where
  -- ProcessRPCBlockByHeightTXs. The response's data is not filled.
  unfoldable pub process_height_row :
      List (List StringEvent)
      → List StringEvent
      → TxResponse
      → RawTx M K
      → Result RowError (TxRow T)
  unfolding collect_height_messages process_tx valid_signers process_signers height_auth fill_row
  process_height_row logs events resp tx =
      lift_filter (collect_height_messages r filters resp.code logs events tx.messages) >>= λ c.
      elim (tx.auth_info) [
        | none ↦ err panicked
        | some a ↦
            process_tx msg_type_url parse_time resp.time_stamp resp.tx_hash resp.code c.logs
              c.messages c.raws
            >>= λ w.
                process_signers resolve a.signer_infos
                  (valid_signers validate get_signers c.messages) (get_payer a.fee)
                >>= λ signers. height_auth a.fee a.tip signers.1 >>= λ filled.
                    ok (fill_row tx w signers (record resp { data_ = "" }) filled.0 filled.1 a.fee)
      ]

  -- ProcessRPCTXs. Of the response neither the codespace nor the data nor the info is stored.
  unfoldable pub process_search_row :
      List (List StringEvent) → TxResponse → RawTx M K → Result RowError (TxRow T)
  unfolding collect_messages process_tx all_signers process_signers search_auth fill_row
  process_search_row logs resp tx =
      lift_filter (collect_messages r unpack filters logs tx.messages) >>= λ c.
      elim (tx.auth_info) [
        | none ↦ err panicked
        | some a ↦
            process_tx msg_type_url parse_time resp.time_stamp resp.tx_hash resp.code c.logs
              c.messages c.raws
            >>= λ w. unpacked (unpack_interfaces a) >>= λ done.
                process_signers resolve a.signer_infos (all_signers validate get_signers c.messages)
                  (get_payer a.fee)
                >>= λ signers. search_auth a.fee a.tip >>= λ auth. ok (
                    fill_row tx w signers (record resp { codespace = ""; data_ = ""; info = "" })
                      signers.1 auth a.fee)
      ]
