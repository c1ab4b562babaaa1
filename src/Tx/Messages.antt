-- ===== src/Tx/Messages.antt =====
-- core/tx/processor.go, ProcessMessage and the message loop of ProcessTx: the rows of a transaction's
-- messages. A nil message stands for one that the message type filters dropped. `types.MsgTypeURL`
-- is a parameter, and so is `time.Parse`, whose failure ends ProcessTx.
use cosmos_indexer.Prelude.{
  ℕ, suc, String, List, [], ◌∷◌, ◌++◌, Option, none, some, Result, ok, ◌>>=◌, ◌==◌, if◌then◌else◌,
  get_elem?,
}
use cosmos_indexer.Prelude.Text.{add_key}
use cosmos_indexer.TxLog.{Attribute, LogMessageEvent, LogMessage, get_message_log_for_index}
use cosmos_indexer.Tx.{MessageEventAttribute, MessageEventDbWrapper, MessageDbWrapper}

-- The keys of the maps of unique event types and attribute keys.
pub record UniqueEvents : Type 0 where
  pub event_types : List String
  pub attribute_keys : List String

-- dbTypes.TxDBWrapper, as ProcessTx fills it.
pub record TxDbWrapper (T : Type 0) : Type 0 where
  pub hash : String
  pub code : ℕ
  pub timestamp : T
  pub messages : List MessageDbWrapper
  pub unique_message_types : List String
  pub uniques : UniqueEvents

unfoldable pub attributes_loop :
    ℕ
    → List Attribute
    → List MessageEventAttribute
    → List String
    → List MessageEventAttribute × List String
attributes_loop i [] out keys = (out, keys)
attributes_loop i (a ∷ as_) out keys =
    attributes_loop (suc i) as_ (out ++ record { value = a.value; key = a.key; index = i } ∷ [])
      (add_key a.key keys)

unfoldable pub events_loop :
    ℕ
    → List LogMessageEvent
    → List MessageEventDbWrapper
    → UniqueEvents
    → List MessageEventDbWrapper × UniqueEvents
unfolding attributes_loop
events_loop i [] out u = (out, u)
events_loop i (e ∷ es) out u =
    let found = attributes_loop 0 e.attributes [] u.attribute_keys in
    events_loop (suc i) es
      (out ++ record { event_type = e.type_name; index = i; attributes = found.0 } ∷ [])
      (record { event_types = add_key e.type_name u.event_types; attribute_keys = found.1 })

-- `messagesRaw[messageIndex]` is nil where the source would panic; the parser keeps at least as many
-- raw messages as messages.
unfoldable pub raw_at : List (List ℕ) → ℕ → List ℕ
raw_at raws i = elim (get_elem? raws i) [ none ↦ [] | some r ↦ r ]

module _ {M : Type 0} (msg_type_url : M → String) where
  unfoldable pub process_message :
      ℕ → M → List LogMessage → UniqueEvents → MessageDbWrapper × UniqueEvents
  unfolding events_loop get_message_log_for_index
  process_message index message logs u = elim (get_message_log_for_index logs index) [
    | none ↦ (
      record {
        message_type = msg_type_url message;
        message_index = index;
        message_bytes = [];
        message_events = [];
      },
      u,
    )
    | some log ↦
        let found = events_loop 0 log.events [] u in
        (
          record {
            message_type = msg_type_url message;
            message_index = index;
            message_bytes = [];
            message_events = found.0;
          },
          found.1,
        )
  ]

  unfoldable pub messages_loop :
      List LogMessage
      → List (List ℕ)
      → ℕ
      → List (Option M)
      → List MessageDbWrapper
      → List String
      → UniqueEvents
      → List MessageDbWrapper × List String × UniqueEvents
  unfolding process_message raw_at
  messages_loop logs raws i [] out types u = (out, types, u)
  messages_loop logs raws i (none ∷ ms) out types u = messages_loop logs raws (suc i) ms out types u
  messages_loop logs raws i (some m ∷ ms) out types u =
      let p = process_message i m logs u in
      messages_loop logs raws (suc i) ms
        (out
          ++ record {
            message_type = p.0.message_type;
            message_index = p.0.message_index;
            message_bytes = raw_at raws i;
            message_events = p.0.message_events;
          }
            ∷ [])
        (add_key p.0.message_type types) p.1

  module _ {T : Type 0} where
    unfoldable pub fill_tx :
        T → String → ℕ → List LogMessage → List (Option M) → List (List ℕ) → TxDbWrapper T
    unfolding messages_loop
    fill_tx t hash code logs messages raws =
        let none_yet : UniqueEvents = record { event_types = []; attribute_keys = [] } in
        let found =
          if code == 0
          then messages_loop logs raws 0 messages [] [] none_yet
          else ([], [], none_yet) in
        record {
          hash = hash;
          code = code;
          timestamp = t;
          messages = found.0;
          unique_message_types = found.1;
          uniques = found.2;
        }

    unfoldable pub process_tx :
        {E : Type 0}
        → (String → Result E T)
        → String
        → String
        → ℕ
        → List LogMessage
        → List (Option M)
        → List (List ℕ)
        → Result E (TxDbWrapper T)
    unfolding fill_tx
    process_tx parse_time time_stamp hash code logs messages raws =
        parse_time time_stamp >>= λ t. ok (fill_tx t hash code logs messages raws)
