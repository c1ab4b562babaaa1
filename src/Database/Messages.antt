-- ===== src/Database/Messages.antt =====
-- db/db.go, IndexNewBlock: the loop over the transactions of a block that writes their messages, message
-- events and attributes. A transaction is the id of its row and its messages.
pub mod Again
pub mod Tree
use cosmos_indexer.Prelude.{ℕ, Bool, String, List, [], ◌∷◌, ◌++◌, map, if◌then◌else◌}
use cosmos_indexer.Tx.{MessageEventAttribute, MessageEventDbWrapper, MessageDbWrapper}
use cosmos_indexer.Database.Table.{Table, insert_or_find}
use cosmos_indexer.Database.Settled.{Action, ◌>>=◌, return, each}

-- The tables, by the columns of their unique keys and the others.
pub record Schema : Type 1 where
  pub message_types : Table String (Unit {0})
  pub messages : Table (ℕ × ℕ) (ℕ × List ℕ)
  pub message_event_types : Table String (Unit {0})
  pub message_events : Table (ℕ × ℕ) ℕ
  pub message_event_attribute_keys : Table String (Unit {0})
  pub message_event_attributes : Table (ℕ × ℕ) (String × ℕ)

pub record Db (c : Schema) : Type 0 where
  pub message_types : c.message_types.Rows
  pub messages : c.messages.Rows
  pub message_event_types : c.message_event_types.Rows
  pub message_events : c.message_events.Rows
  pub message_event_attribute_keys : c.message_event_attribute_keys.Rows
  pub message_event_attributes : c.message_event_attributes.Rows

-- The events of the messages, each with the id of its message; `messagesEventsSlice`.
unfoldable pub events_of : List ℕ → List MessageDbWrapper → List (ℕ × MessageEventDbWrapper)
events_of [] ms = []
events_of (id ∷ ids) [] = []
events_of (id ∷ ids) (m ∷ ms) = map (λ e. (id, e)) m.message_events ++ events_of ids ms

-- `messagesEventsAttributesSlice`
unfoldable pub attributes_of :
    List ℕ → List (ℕ × MessageEventDbWrapper) → List (ℕ × MessageEventAttribute)
attributes_of [] es = []
attributes_of (id ∷ ids) [] = []
attributes_of (id ∷ ids) (e ∷ es) = map (λ a. (id, a)) e.1.attributes ++ attributes_of ids es

-- The ids that indexMessageTypes, indexMessageEventTypes and indexMessageEventAttributeKeys gave the
-- texts of the block before the loop.
pub record Known : Type 0 where
  pub message_type : String → ℕ
  pub event_type : String → ℕ
  pub attribute_key : String → ℕ

module _ (c : Schema) (known : Known) where
  -- The id of a row for a text in one of the three tables of names.
  unfoldable pub message_type_id : String → Action (Db c) ℕ
  unfolding insert_or_find
  message_type_id t d =
      let (rows, id) = insert_or_find c.message_types (known.message_type t) t tt d.message_types in
      (record d { message_types = rows }, id)

  unfoldable pub message_event_type_id : String → Action (Db c) ℕ
  unfolding insert_or_find
  message_event_type_id t d =
      let (rows, id) =
        insert_or_find c.message_event_types (known.event_type t) t tt d.message_event_types in
      (record d { message_event_types = rows }, id)

  unfoldable pub message_event_attribute_key_id : String → Action (Db c) ℕ
  unfolding insert_or_find
  message_event_attribute_key_id t d =
      let (rows, id) =
        insert_or_find c.message_event_attribute_keys (known.attribute_key t) t tt
          d.message_event_attribute_keys in
      (record d { message_event_attribute_keys = rows }, id)

  unfoldable pub put_message : ℕ × ℕ → ℕ × List ℕ → Action (Db c) ℕ
  unfolding insert_or_find
  put_message k v d =
      let (rows, id) = insert_or_find c.messages 0 k v d.messages in
      (record d { messages = rows }, id)

  unfoldable pub put_event : ℕ × ℕ → ℕ → Action (Db c) ℕ
  unfolding insert_or_find
  put_event k v d =
      let (rows, id) = insert_or_find c.message_events 0 k v d.message_events in
      (record d { message_events = rows }, id)

  unfoldable pub put_attribute : ℕ × ℕ → String × ℕ → Action (Db c) ℕ
  unfolding insert_or_find
  put_attribute k v d =
      let (rows, id) = insert_or_find c.message_event_attributes 0 k v d.message_event_attributes in
      (record d { message_event_attributes = rows }, id)

  -- One message, whose raw bytes are kept by the flag IndexTxMessageRaw only.
  unfoldable pub index_message : Bool → ℕ → MessageDbWrapper → Action (Db c) ℕ
  unfolding message_type_id put_message
  index_message raw tx_id m = message_type_id m.message_type >>= λ type_id.
      put_message (tx_id, m.message_index) (type_id, if raw then m.message_bytes else [])

  unfoldable pub index_event : ℕ × MessageEventDbWrapper → Action (Db c) ℕ
  unfolding message_event_type_id put_event
  index_event (message_id, e) =
      message_event_type_id e.event_type >>= λ type_id. put_event (message_id, e.index) type_id

  unfoldable pub index_attribute : ℕ × MessageEventAttribute → Action (Db c) ℕ
  unfolding message_event_attribute_key_id put_attribute
  index_attribute (event_id, a) = message_event_attribute_key_id a.key >>= λ key_id.
      put_attribute (event_id, a.index) (a.value, key_id)

  -- One transaction: its messages, then their events, then the attributes of these.
  unfoldable pub index_tx : Bool → ℕ × List MessageDbWrapper → Action (Db c) (List ℕ)
  unfolding index_message index_event index_attribute events_of attributes_of each
  index_tx raw (tx_id, ms) = each (index_message raw tx_id) ms >>= λ message_ids.
      each index_event (events_of message_ids ms) >>= λ event_ids.
      each index_attribute (attributes_of event_ids (events_of message_ids ms))

  unfoldable pub index_messages :
      Bool → List (ℕ × List MessageDbWrapper) → Action (Db c) (List (List ℕ))
  unfolding index_tx
  index_messages raw txs = each (index_tx raw) txs
