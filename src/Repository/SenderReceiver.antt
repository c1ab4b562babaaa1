-- ===== src/Repository/SenderReceiver.antt =====
-- pkg/repository/txs.go, GetSenderAndReceiver and GetSenderAndReceiverV2: who sends what to whom, of the rows
-- of a query, in their order. A row that Scan cannot read is `none`.
use cosmos_indexer.Prelude.{
  ℕ, ◌≡◌, refl, ap, ◌∙◌, Bool, ◌||◌, String, List, [], ◌∷◌, map, Option, none, some, if◌then◌else◌,
  Bool-cases, Option-cases, inl, inr,
}
use cosmos_indexer.Prelude.Int.{ℤ}
use cosmos_indexer.Prelude.Text.{str_eq}
use cosmos_indexer.Repository.Amount.{extract_number}

pub record TxSenderReceiver : Type 0 where
  pub message_type : String
  pub sender : List ℕ
  pub receiver : List ℕ
  pub amount : List ℕ
  pub denom : List ℕ

pub record SenderRow : Type 0 where
  pub message_type : String
  pub value : List ℕ
  pub key : String

abbrev pub empty_result : TxSenderReceiver
empty_result = record { message_type = ""; sender = []; receiver = []; amount = []; denom = [] }

-- `equal_fold` is strings.EqualFold; `coefficient_int64` and `decimal_text` are the number and the text that
-- package decimal makes of a number.
module _ (equal_fold : String → String → Bool) (coefficient_int64 : ℕ → ℤ)
    (decimal_text : ℤ → List ℕ) where
  unfoldable pub names_sender : String → Bool
  names_sender key = equal_fold key "sender" || equal_fold key "spender"

  unfoldable pub names_receiver : String → Bool
  names_receiver key = equal_fold key "recipient" || equal_fold key "receiver"

  unfoldable pub with_message_type : SenderRow → TxSenderReceiver → TxSenderReceiver
  with_message_type row res =
      if str_eq res.message_type "" then record res { message_type = row.message_type } else res

  unfoldable pub with_sender : SenderRow → TxSenderReceiver → TxSenderReceiver
  unfolding names_sender
  with_sender row res = if names_sender row.key then record res { sender = row.value } else res

  unfoldable pub with_receiver : SenderRow → TxSenderReceiver → TxSenderReceiver
  unfolding names_receiver
  with_receiver row res =
      if names_receiver row.key then record res { receiver = row.value } else res

  unfoldable pub with_amount : SenderRow → TxSenderReceiver → TxSenderReceiver
  unfolding extract_number
  with_amount row res =
      if equal_fold row.key "amount"
      then elim (extract_number coefficient_int64 row.value) [
        | none ↦ record res { amount = row.value }
        | some (amount, denom) ↦ record res { amount = decimal_text amount; denom = denom }
      ]
      else res

  unfoldable pub take_row : SenderRow → TxSenderReceiver → TxSenderReceiver
  unfolding with_message_type with_sender with_receiver with_amount
  take_row row res =
      with_amount row (with_receiver row (with_sender row (with_message_type row res)))

  unfoldable pub scan_rows : List (Option SenderRow) → TxSenderReceiver → Option TxSenderReceiver
  unfolding take_row
  scan_rows [] res = some res
  scan_rows (none ∷ rows) res = none
  scan_rows (some row ∷ rows) res = scan_rows rows (take_row row res)

  -- The query gives rows or fails.
  unfoldable pub get_sender_and_receiver :
      Option (List (Option SenderRow)) → Option TxSenderReceiver
  unfolding scan_rows
  get_sender_and_receiver none = none
  get_sender_and_receiver (some rows) = scan_rows rows empty_result

  -- The second version reads another table.
  unfoldable pub get_sender_and_receiver_v2 :
      Option (List (Option SenderRow)) → Option TxSenderReceiver
  unfolding scan_rows
  get_sender_and_receiver_v2 none = none
  get_sender_and_receiver_v2 (some rows) = scan_rows rows empty_result

  -- The value of the last row whose key passes the test, or what was there before.
  abbrev pub last_value : (String → Bool) → List SenderRow → List ℕ → List ℕ
  last_value test [] before = before
  last_value test (row ∷ rows) before =
      last_value test rows (if test row.key then row.value else before)

  with_amount_parties :
      (row : SenderRow) (res : TxSenderReceiver)
      → ((with_amount row res).sender ≡ res.sender)
        × ((with_amount row res).receiver ≡ res.receiver)
  unfolding with_amount
  with_amount_parties row res = elim (Bool-cases (equal_fold row.key "amount")) [
    | inl q ↦ elim (Option-cases (extract_number coefficient_int64 row.value)) [
      | inl e ↦ (rw (with_amount, q, e) refl, rw (with_amount, q, e) refl)
      | inr (v, e) ↦ (rw (with_amount, q, e) refl, rw (with_amount, q, e) refl)
    ]
    | inr q ↦ (rw (with_amount, q) refl, rw (with_amount, q) refl)
  ]

  with_message_type_parties :
      (row : SenderRow) (res : TxSenderReceiver)
      → ((with_message_type row res).sender ≡ res.sender)
        × ((with_message_type row res).receiver ≡ res.receiver)
  unfolding with_message_type
  with_message_type_parties row res = elim (Bool-cases (str_eq res.message_type "")) [
    | inl q ↦ (rw (with_message_type, q) refl, rw (with_message_type, q) refl)
    | inr q ↦ (rw (with_message_type, q) refl, rw (with_message_type, q) refl)
  ]

  with_sender_parties :
      (row : SenderRow) (res : TxSenderReceiver)
      → ((with_sender row res).sender ≡ (if names_sender row.key then row.value else res.sender))
        × ((with_sender row res).receiver ≡ res.receiver)
  unfolding with_sender
  with_sender_parties row res = elim (Bool-cases (names_sender row.key)) [
    | inl q ↦ (rw (with_sender, q) refl, rw (with_sender, q) refl)
    | inr q ↦ (rw (with_sender, q) refl, rw (with_sender, q) refl)
  ]

  with_receiver_parties :
      (row : SenderRow) (res : TxSenderReceiver)
      → ((with_receiver row res).sender ≡ res.sender)
        × ((with_receiver row res).receiver
            ≡ (if names_receiver row.key then row.value else res.receiver))
  unfolding with_receiver
  with_receiver_parties row res = elim (Bool-cases (names_receiver row.key)) [
    | inl q ↦ (rw (with_receiver, q) refl, rw (with_receiver, q) refl)
    | inr q ↦ (rw (with_receiver, q) refl, rw (with_receiver, q) refl)
  ]

  take_row_parties :
      (row : SenderRow) (res : TxSenderReceiver)
      → ((take_row row res).sender ≡ (if names_sender row.key then row.value else res.sender))
        × ((take_row row res).receiver
            ≡ (if names_receiver row.key then row.value else res.receiver))
  unfolding take_row
  take_row_parties row res =
      let typed = with_message_type row res in
      let sent = with_sender row typed in
      let received = with_receiver row sent in
      let (p, p') = with_message_type_parties row res in
      let (q, q') = with_sender_parties row typed in
      let (r, r') = with_receiver_parties row sent in
      let (t, t') = with_amount_parties row received in
      (
        t ∙ r ∙ q ∙ ap (λ v. if names_sender row.key then row.value else v) p,
        t' ∙ r' ∙ ap (λ v. if names_receiver row.key then row.value else v) (q' ∙ p'),
      )

  scan_rows_parties :
      (rows : List SenderRow) (res : TxSenderReceiver)
      → (r : TxSenderReceiver) × (scan_rows (map some rows) res ≡ some r)
        × (r.sender ≡ last_value names_sender rows res.sender)
        × (r.receiver ≡ last_value names_receiver rows res.receiver)
  unfolding scan_rows
  scan_rows_parties [] res = (res, refl, refl, refl)
  scan_rows_parties (row ∷ rows) res =
      let (r, e, sender, receiver) = scan_rows_parties rows (take_row row res) in
      let (p, q) = take_row_parties row res in
      (
        r,
        e,
        sender ∙ ap (last_value names_sender rows) p,
        receiver ∙ ap (last_value names_receiver rows) q,
      )

  -- Where the query succeeds and every row can be read, there is a result, whose sender is the value of the
  -- last row that names a sender, and whose receiver is that of the last row that names a receiver.
  pub get_sender_and_receiver_parties :
      (rows : List SenderRow)
      → (r : TxSenderReceiver) × (get_sender_and_receiver (some (map some rows)) ≡ some r)
        × (r.sender ≡ last_value names_sender rows [])
        × (r.receiver ≡ last_value names_receiver rows [])
  unfolding get_sender_and_receiver
  get_sender_and_receiver_parties rows = scan_rows_parties rows empty_result
