-- ===== src/Tx/Collect.antt =====
-- core/tx/parser.go: the message loop of ProcessRPCTXs, messageTypeShouldIndex, toEvents and
-- toAttributes. `unpack` is the codec's `UnpackAny` on one message. A nil entry of `messagesRaw` is
-- the empty list, and the log lines of the loop are left out.
pub mod Rows
pub mod Shifted
pub mod Height
use cosmos_indexer.Prelude.{
  ℕ, zero, suc, Bool, true, false, String, List, [], ◌∷◌, ◌++◌, map, Option, none, some, Result, ok,
  ◌>>=◌, if◌then◌else◌, get_elem?,
}
use cosmos_indexer.Filter.Regexp.{Regexp}
use cosmos_indexer.Filter.MessageType.{MessageTypeFilter, FilterError, message_type_matches}
use cosmos_indexer.TxLog.{Attribute, LogMessageEvent, LogMessage}

-- An `Any` of a transaction's body: the URL of its type, its bytes, and the message unpacked from
-- them, if it was.
pub record AnyMessage (M : Type 0) : Type 0 where
  pub type_url : String
  pub value : List ℕ
  pub cached : Option M

-- The SDK's types.Attribute and types.StringEvent.
pub record StringAttribute : Type 0 where
  pub key : String
  pub value : String

pub record StringEvent : Type 0 where
  pub type_name : String
  pub attributes : List StringAttribute

-- currMessages, currLogMsgs and messagesRaw
pub record Collected (M : Type 0) : Type 0 where
  pub messages : List (Option M)
  pub logs : List LogMessage
  pub raws : List (List ℕ)

unfoldable pub to_attributes : List StringAttribute → List Attribute
to_attributes = map (λ a. record { key = a.key; value = a.value })

unfoldable pub to_events : List StringEvent → List LogMessageEvent
unfolding to_attributes
to_events = map (λ e. record { type_name = e.type_name; attributes = to_attributes e.attributes })

module _ (r : Regexp) where
  unfoldable pub any_matches : List (MessageTypeFilter r) → String → Result FilterError Bool
  unfolding message_type_matches
  any_matches [] t = ok false
  any_matches (f ∷ fs) t =
      let rest = any_matches fs t in
      message_type_matches r f (record { message_type = t }) >>= λ b. if b then ok true else rest

  unfoldable pub message_type_should_index :
      List (MessageTypeFilter r) → String → Result FilterError Bool
  unfolding any_matches
  message_type_should_index [] t = ok true
  message_type_should_index (f ∷ fs) t = any_matches (f ∷ fs) t

  module _ {M : Type 0} (unpack : AnyMessage M → Option M) (filters : List (MessageTypeFilter r))
      (node_logs : List (List StringEvent)) where
    -- `currMsg`: what the whole transaction's unpacking left, or what unpacking it alone gives.
    unfoldable pub msg_of : AnyMessage M → Option M
    msg_of a = elim (a.cached) [ some m ↦ some m | none ↦ unpack a ]

    -- One pass of the loop over `currTx.Body.Messages`.
    unfoldable pub collect_one : ℕ → AnyMessage M → Bool → Collected M → Collected M
    unfolding msg_of to_events
    collect_one i a false c = record {
      messages = c.messages ++ none ∷ [];
      logs = c.logs ++ record { message_index = i; events = [] } ∷ [];
      raws = c.raws ++ [] ∷ [];
    }
    collect_one i a true c =
        let raws = c.raws ++ a.value ∷ [] in
        elim (msg_of a) [
          | none ↦ record { messages = c.messages; logs = c.logs; raws = raws }
          | some m ↦ record {
            messages = c.messages ++ some m ∷ [];
            logs = elim (get_elem? node_logs i) [
              | none ↦ c.logs
              | some es ↦ c.logs ++ record { message_index = i; events = to_events es } ∷ []
            ];
            raws = raws;
          }
        ]

    unfoldable pub collect_loop :
        ℕ → List (AnyMessage M) → Collected M → Result FilterError (Collected M)
    unfolding collect_one message_type_should_index
    collect_loop i [] c = ok c
    collect_loop i (a ∷ as_) c = message_type_should_index filters a.type_url >>= λ b.
        collect_loop (suc i) as_ (collect_one i a b c)

    unfoldable pub collect_messages : List (AnyMessage M) → Result FilterError (Collected M)
    unfolding collect_loop
    collect_messages as_ = collect_loop 0 as_ (record { messages = []; logs = []; raws = [] })
