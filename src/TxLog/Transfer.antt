-- ===== src/TxLog/Transfer.antt =====
-- cosmos/modules/tx/logic.go, ParseTransferEvent: it accepts exactly the lists of triples.
use cosmos_indexer.Prelude.{
  ℕ, suc, ◌%◌, ◌≡◌, refl, not, ◌&&◌, String, List, [], ◌∷◌, Result, ok, err, ◌>>=◌, ◌==◌,
  if◌then◌else◌, arith,
}
use cosmos_indexer.Prelude.Text.{str_eq, eq_iff}
use cosmos_indexer.TxLog.{Attribute, LogMessageEvent}

pub record TransferEvent : Type 0 where
  pub recipient : String
  pub sender : String
  pub amount : String

pub data TransferError : Type 0 where
  invalid_transfer : TransferError

-- The transfer that starts at an attribute with the key "recipient": the next two follow.
transfer_at : Attribute → List Attribute → Result TransferError TransferEvent
transfer_at a [] = err invalid_transfer
transfer_at a (b ∷ []) = err invalid_transfer
transfer_at a (b ∷ c ∷ rest) =
    if str_eq b.key "sender" && str_eq c.key "amount"
    then ok (record { recipient = a.value; sender = b.value; amount = c.value })
    else err invalid_transfer

-- Attribute `i` and those after it.
parse_from : ℕ → List Attribute → Result TransferError (List TransferEvent)
unfolding transfer_at
parse_from i [] = ok []
parse_from i (a ∷ rest) =
    let others = parse_from (suc i) rest in
    if str_eq a.key "recipient"
    then (transfer_at a rest >>= λ t. others >>= λ ts. ok (t ∷ ts))
    else if i % 3 == 0
    then err invalid_transfer
    else others

unfoldable pub parse_transfer_event : LogMessageEvent → Result TransferError (List TransferEvent)
unfolding parse_from
parse_transfer_event e =
    if not (str_eq e.type_name "transfer") then err invalid_transfer else parse_from 0 e.attributes

-- The attributes that a list of transfers is written as.
abbrev pub triples : List TransferEvent → List Attribute
triples [] = []
triples (t ∷ ts) =
    record { key = "recipient"; value = t.recipient }
    ∷ record { key = "sender"; value = t.sender }
    ∷ record { key = "amount"; value = t.amount }
    ∷ triples ts

abbrev pub transfer_event : List TransferEvent → LogMessageEvent
transfer_event ts = record { type_name = "transfer"; attributes = triples ts }

parse_from-triples :
    (i : ℕ) (ts : List TransferEvent) → i % 3 ≡ 0 → parse_from i (triples ts) ≡ ok ts
unfolding parse_from
parse_from-triples i [] m = refl
parse_from-triples i (t ∷ ts) m =
    let more : parse_from (suc (suc (suc i))) (triples ts) ≡ ok ts =
      parse_from-triples (suc (suc (suc i))) ts (omega arith) in
    ground (arith, more)

-- Printing a list of transfers and parsing the event gives the list back.
pub parse-transfer_event :
    (ts : List TransferEvent) → parse_transfer_event (transfer_event ts) ≡ ok ts
unfolding parse_transfer_event
parse-transfer_event ts = parse_from-triples 0 ts refl

parse_from_sound :
    (i : ℕ) (as_ : List Attribute) (ts : List TransferEvent)
    → i % 3 ≡ 0
    → parse_from i as_ ≡ ok ts
    → as_ ≡ triples ts
unfolding parse_from
parse_from_sound i [] ts m h = ground arith
parse_from_sound i (a ∷ []) ts m h = ground (arith, eq_iff a.key "recipient")
parse_from_sound i (a ∷ b ∷ []) ts m h = ground (arith, eq_iff a.key "recipient")
parse_from_sound i (a ∷ b ∷ c ∷ rest) [] m h = ground (arith, eq_iff a.key "recipient")
parse_from_sound i (a ∷ b ∷ c ∷ rest) (t ∷ ts) m h =
    let ih : parse_from (suc (suc (suc i))) rest ≡ ok ts → rest ≡ triples ts =
      parse_from_sound (suc (suc (suc i))) rest ts (omega arith) in
    ground (
      arith,
      ih,
      eq_iff a.key "recipient",
      eq_iff b.key "recipient",
      eq_iff b.key "sender",
      eq_iff c.key "recipient",
      eq_iff c.key "amount",
      eq_iff "sender" "recipient",
      eq_iff "amount" "recipient",
    )

-- An accepted event is of the type transfer, and its attributes are the triples of recipient, sender and
-- amount of the result, in order, with nothing between or after them.
pub parse_transfer_event_sound :
    (e : LogMessageEvent) (ts : List TransferEvent)
    → parse_transfer_event e ≡ ok ts
    → e ≡ transfer_event ts
unfolding parse_transfer_event
parse_transfer_event_sound e ts h =
    ground (arith, eq_iff e.type_name "transfer", parse_from_sound 0 e.attributes ts refl)
