-- ===== src/Database/Messages/Again.antt =====
-- db/db.go, IndexNewBlock: what indexing the messages of a block a second time does.
use cosmos_indexer.Prelude.{
  ℕ, ◌≡◌, ◌≢◌, ◌⊎◌, inl, inr, ap, Bool, String, List, if◌then◌else◌, arith, [], Bool-cases, ◌==◌,
  ◌&&◌,
}
use cosmos_indexer.Prelude.Text.{str_eq, eq_iff}
use cosmos_indexer.Tx.{MessageEventAttribute, MessageEventDbWrapper, MessageDbWrapper}
use cosmos_indexer.Database.Table.{Documented}
use cosmos_indexer.Database.Settled.{
  Growth, Settled, >>=-Settled, each-Settled, rows_growth, insert_or_find-Settled, both, along,
  left-Settled, right-Settled,
}
use cosmos_indexer.Database.Messages.{
  Schema, Db, Known, events_of, attributes_of, message_type_id, message_event_type_id,
  message_event_attribute_key_id, put_message, put_event, put_attribute, index_message, index_event,
  index_attribute, index_tx, index_messages,
}

-- Every table keeps its promises.
pub record AllDocumented (c : Schema) : Type 0 where
  pub message_types : Documented c.message_types
  pub messages : Documented c.messages
  pub message_event_types : Documented c.message_event_types
  pub message_events : Documented c.message_events
  pub message_event_attribute_keys : Documented c.message_event_attribute_keys
  pub message_event_attributes : Documented c.message_event_attributes

pub decide_text : (a b : String) → (a ≡ b) ⊎ (a ≢ b)
decide_text a b = elim (Bool-cases (str_eq a b)) [
  | inl e ↦ inl ((eq_iff a b).0 e)
  | inr e ↦ inr (λ q. ground (arith, eq_iff a b))
]

pub decide_pair : (a b : ℕ × ℕ) → (a ≡ b) ⊎ (a ≢ b)
decide_pair (a, b) (c, d) = elim (Bool-cases (a == c && b == d)) [
  | inl e ↦ inl (ground arith)
  | inr e ↦ inr (λ q. let p = ap (λ x. x.0) q in let r = ap (λ x. x.1) q in ground arith)
]

module _ (c : Schema) where
  -- What each table says of its rows, together.
  abbrev types : Growth (Db c)
  types = along (λ d. d.message_types) (rows_growth c.message_types)

  abbrev messages : Growth (Db c)
  messages = along (λ d. d.messages) (rows_growth c.messages)

  abbrev event_types : Growth (Db c)
  event_types = along (λ d. d.message_event_types) (rows_growth c.message_event_types)

  abbrev events : Growth (Db c)
  events = along (λ d. d.message_events) (rows_growth c.message_events)

  abbrev keys : Growth (Db c)
  keys = along (λ d. d.message_event_attribute_keys) (rows_growth c.message_event_attribute_keys)

  abbrev attributes : Growth (Db c)
  attributes = along (λ d. d.message_event_attributes) (rows_growth c.message_event_attributes)

  abbrev last_two : Growth (Db c)
  last_two = both keys attributes

  abbrev last_three : Growth (Db c)
  last_three = both events last_two

  abbrev last_four : Growth (Db c)
  last_four = both event_types last_three

  abbrev last_five : Growth (Db c)
  last_five = both messages last_four

  abbrev pub db_growth : Growth (Db c)
  db_growth = both types last_five

  module _ (promise : AllDocumented c) (known : Known) where
    message_type_id-Settled : (t : String) → Settled db_growth (message_type_id c known t)
    unfolding message_type_id
    message_type_id-Settled t =
        left-Settled types last_five (message_type_id c known t)
          (λ s.
            let one =
              insert_or_find-Settled c.message_types promise.message_types decide_text
                (known.message_type t) t tt s.message_types in
            (one.0, λ u. one.1 u.message_types))
          (λ s. (last_five.extends_refl s, last_five.same_refl s))

    pub put_message-Settled :
        (k : ℕ × ℕ) (v : ℕ × List ℕ) → Settled db_growth (put_message c known k v)
    unfolding put_message
    put_message-Settled k v =
        right-Settled types last_five (put_message c known k v)
          (λ s. (types.extends_refl s, types.same_refl s))
          (left-Settled messages last_four (put_message c known k v)
            (λ s.
              let one =
                insert_or_find-Settled c.messages promise.messages decide_pair 0 k v s.messages in
              (one.0, λ u. one.1 u.messages))
            (λ s. (last_four.extends_refl s, last_four.same_refl s)))

    message_event_type_id-Settled :
        (t : String) → Settled db_growth (message_event_type_id c known t)
    unfolding message_event_type_id
    message_event_type_id-Settled t =
        right-Settled types last_five (message_event_type_id c known t)
          (λ s. (types.extends_refl s, types.same_refl s))
          (right-Settled messages last_four (message_event_type_id c known t)
            (λ s. (messages.extends_refl s, messages.same_refl s))
            (left-Settled event_types last_three (message_event_type_id c known t)
              (λ s.
                let one =
                  insert_or_find-Settled c.message_event_types promise.message_event_types
                    decide_text (known.event_type t) t tt s.message_event_types in
                (one.0, λ u. one.1 u.message_event_types))
              (λ s. (last_three.extends_refl s, last_three.same_refl s))))

    put_event-Settled : (k : ℕ × ℕ) (v : ℕ) → Settled db_growth (put_event c known k v)
    unfolding put_event
    put_event-Settled k v =
        right-Settled types last_five (put_event c known k v)
          (λ s. (types.extends_refl s, types.same_refl s))
          (right-Settled messages last_four (put_event c known k v)
            (λ s. (messages.extends_refl s, messages.same_refl s))
            (right-Settled event_types last_three (put_event c known k v)
              (λ s. (event_types.extends_refl s, event_types.same_refl s))
              (left-Settled events last_two (put_event c known k v)
                (λ s.
                  let one =
                    insert_or_find-Settled c.message_events promise.message_events decide_pair 0 k v
                      s.message_events in
                  (one.0, λ u. one.1 u.message_events))
                (λ s. (last_two.extends_refl s, last_two.same_refl s)))))

    message_event_attribute_key_id-Settled :
        (t : String) → Settled db_growth (message_event_attribute_key_id c known t)
    unfolding message_event_attribute_key_id
    message_event_attribute_key_id-Settled t =
        right-Settled types last_five (message_event_attribute_key_id c known t)
          (λ s. (types.extends_refl s, types.same_refl s))
          (right-Settled messages last_four (message_event_attribute_key_id c known t)
            (λ s. (messages.extends_refl s, messages.same_refl s))
            (right-Settled event_types last_three (message_event_attribute_key_id c known t)
              (λ s. (event_types.extends_refl s, event_types.same_refl s))
              (right-Settled events last_two (message_event_attribute_key_id c known t)
                (λ s. (events.extends_refl s, events.same_refl s))
                (left-Settled keys attributes (message_event_attribute_key_id c known t)
                  (λ s.
                    let one =
                      insert_or_find-Settled c.message_event_attribute_keys
                        promise.message_event_attribute_keys decide_text (known.attribute_key t) t
                        tt s.message_event_attribute_keys in
                    (one.0, λ u. one.1 u.message_event_attribute_keys))
                  (λ s. (attributes.extends_refl s, attributes.same_refl s))))))

    put_attribute-Settled :
        (k : ℕ × ℕ) (v : String × ℕ) → Settled db_growth (put_attribute c known k v)
    unfolding put_attribute
    put_attribute-Settled k v =
        right-Settled types last_five (put_attribute c known k v)
          (λ s. (types.extends_refl s, types.same_refl s))
          (right-Settled messages last_four (put_attribute c known k v)
            (λ s. (messages.extends_refl s, messages.same_refl s))
            (right-Settled event_types last_three (put_attribute c known k v)
              (λ s. (event_types.extends_refl s, event_types.same_refl s))
              (right-Settled events last_two (put_attribute c known k v)
                (λ s. (events.extends_refl s, events.same_refl s))
                (right-Settled keys attributes (put_attribute c known k v)
                  (λ s. (keys.extends_refl s, keys.same_refl s))
                  (λ s.
                    let one =
                      insert_or_find-Settled c.message_event_attributes
                        promise.message_event_attributes decide_pair 0 k v
                        s.message_event_attributes in
                    (one.0, λ u. one.1 u.message_event_attributes))))))

    pub index_message-Settled :
        (raw : Bool) (tx_id : ℕ) (m : MessageDbWrapper)
        → Settled db_growth (index_message c known raw tx_id m)
    unfolding index_message
    index_message-Settled raw tx_id m =
        >>=-Settled db_growth _ _ (message_type_id-Settled m.message_type) (λ t.
          put_message-Settled (tx_id, m.message_index) (t, if raw then m.message_bytes else []))

    pub index_event-Settled :
        (e : ℕ × MessageEventDbWrapper) → Settled db_growth (index_event c known e)
    unfolding index_event
    index_event-Settled (id, e) =
        >>=-Settled db_growth _ _ (message_event_type_id-Settled e.event_type)
          (λ t. put_event-Settled (id, e.index) t)

    pub index_attribute-Settled :
        (a : ℕ × MessageEventAttribute) → Settled db_growth (index_attribute c known a)
    unfolding index_attribute
    index_attribute-Settled (id, a) =
        >>=-Settled db_growth _ _ (message_event_attribute_key_id-Settled a.key)
          (λ t. put_attribute-Settled (id, a.index) (a.value, t))

    pub index_tx-Settled :
        (raw : Bool) (x : ℕ × List MessageDbWrapper) → Settled db_growth (index_tx c known raw x)
    unfolding index_tx
    index_tx-Settled raw (tx_id, ms) =
        >>=-Settled db_growth _ _ (each-Settled db_growth _ ms (index_message-Settled raw tx_id))
          (λ message_ids.
            >>=-Settled db_growth _ _
              (each-Settled db_growth _ (events_of message_ids ms) index_event-Settled)
              (λ event_ids.
                each-Settled db_growth _ (attributes_of event_ids (events_of message_ids ms))
                  index_attribute-Settled))

    index_messages-Settled :
        (raw : Bool) (txs : List (ℕ × List MessageDbWrapper))
        → Settled db_growth (index_messages c known raw txs)
    unfolding index_messages
    index_messages-Settled raw txs = each-Settled db_growth _ txs (index_tx-Settled raw)

    -- Where every table keeps its documented promises: indexing the messages of a block keeps every row
    -- that the database has, and indexing the same messages again, in any database that still holds
    -- the rows the first time left, changes no row of any table and gives the same ids.
    pub index_messages_again :
        (raw : Bool) (txs : List (ℕ × List MessageDbWrapper)) (d u : Db c)
        → db_growth.Extends (index_messages c known raw txs d).0 u
        → db_growth.Extends d (index_messages c known raw txs d).0
          × db_growth.Same u (index_messages c known raw txs u).0
          × ((index_messages c known raw txs u).1 ≡ (index_messages c known raw txs d).1)
    index_messages_again raw txs d u h =
        let once = index_messages-Settled raw txs d in (once.0, (once.1 u h).0, (once.1 u h).1)
