-- ===== src/Database/Messages/Tree.antt =====
-- db/db.go, IndexNewBlock: the rows of a block's messages, of their events and of the events' attributes hang
-- together by the ids that the statements give back.
use cosmos_indexer.Prelude.{
  ℕ, ◌≡◌, Bool, String, List, [], ◌∷◌, ◌++◌, some, All, All-map, map, if◌then◌else◌,
}
use cosmos_indexer.Tx.{MessageDbWrapper, MessageEventDbWrapper, MessageEventAttribute}
use cosmos_indexer.Database.Settled.{
  Growth, Action, each, each-All, each-Settled, Settled, insert_or_find-finds,
}
use cosmos_indexer.Database.Messages.{
  Schema, Db, Known, events_of, attributes_of, message_type_id, put_message, index_message,
  message_event_type_id, put_event, index_event, message_event_attribute_key_id, put_attribute,
  index_attribute, index_tx, index_messages,
}
use cosmos_indexer.Database.Messages.Again.{
  AllDocumented, db_growth, decide_pair, index_message-Settled, index_event-Settled,
  index_attribute-Settled, index_tx-Settled,
}

-- Each element of the first list with the one at its place in the second, which is long enough.
abbrev Paired : {A B : Type 0} → (A → B → Type 0) → List A → List B → Type 0
Paired Holds [] bs = Unit {0}
Paired Holds (a ∷ as_) [] = ⊥
Paired Holds (a ∷ as_) (b ∷ bs) = Holds a b × Paired Holds as_ bs

Paired-map :
    {A B : Type 0} (Holds Later : A → B → Type 0) (as_ : List A) (bs : List B)
    → ((a : A) (b : B) → Holds a b → Later a b)
    → Paired Holds as_ bs
    → Paired Later as_ bs
Paired-map Holds Later [] bs f h = tt
Paired-map Holds Later (a ∷ as_) [] f h = h
Paired-map Holds Later (a ∷ as_) (b ∷ bs) f h = (f a b h.0, Paired-map Holds Later as_ bs f h.1)

each-Paired :
    {S : Type 0} (g : Growth S) {A B : Type 0} (f : A → Action S B) (Holds : A → B → S → Type 0)
    → ((a : A) → Settled g (f a))
    → ((a : A) (s : S) → Holds a (f a s).1 (f a s).0)
    → ((a : A) (b : B) (s t : S) → g.Extends s t → Holds a b s → Holds a b t)
    → (xs : List A) (s : S) → Paired (λ a b. Holds a b (each f xs s).0) xs (each f xs s).1
unfolding each
each-Paired g f Holds settled after stays [] s = tt
each-Paired g f Holds settled after stays (a ∷ as_) s =
    let next = (f a s).0 in
    (
      stays a (f a s).1 next (each f as_ next).0 (each-Settled g f as_ settled next).0 (after a s),
      each-Paired g f Holds settled after stays as_ next,
    )

All-split :
    {A : Type 0} (Holds : A → Type 0) (front back : List A)
    → All Holds (front ++ back)
    → All Holds front × All Holds back
All-split Holds [] back h = (tt, h)
All-split Holds (a ∷ front) back h =
    let rest = All-split Holds front back h.1 in ((h.0, rest.0), rest.1)

All-of_map :
    {A B : Type 0} (Holds : B → Type 0) (f : A → B) (xs : List A)
    → All Holds (map f xs)
    → All (λ x. Holds (f x)) xs
All-of_map Holds f [] h = tt
All-of_map Holds f (x ∷ xs) h = (h.0, All-of_map Holds f xs h.1)

-- An attribute has a row under the id of its event.
abbrev pub AttributeRow : (c : Schema) → Db c → ℕ × MessageEventAttribute → Type 0
AttributeRow c d x =
    (r : ℕ × (String × ℕ)) × (c.message_event_attributes.find (x.0, x.1.index)
        d.message_event_attributes
      ≡ some r)

-- An event has the row of an id under the id of its message; with its attributes under that id.
abbrev pub EventRow : (c : Schema) → Db c → ℕ × MessageEventDbWrapper → ℕ → Type 0
EventRow c d x id =
    (type_id : ℕ) × (c.message_events.find (x.0, x.1.index) d.message_events ≡ some (id, type_id))

abbrev pub EventStored : (c : Schema) → Db c → ℕ → MessageEventDbWrapper → Type 0
EventStored c d message_id e =
    (id : ℕ) × EventRow c d (message_id, e) id × All (λ a. AttributeRow c d (id, a)) e.attributes

-- A message has the row of an id under the id of its transaction; with its events under that id.
abbrev pub MessageRow : (c : Schema) → Db c → ℕ → MessageDbWrapper → ℕ → Type 0
MessageRow c d tx_id m id =
    (v : ℕ × List ℕ) × (c.messages.find (tx_id, m.message_index) d.messages ≡ some (id, v))

abbrev pub MessageStored : (c : Schema) → Db c → ℕ → MessageDbWrapper → Type 0
MessageStored c d tx_id m =
    (id : ℕ) × MessageRow c d tx_id m id × All (EventStored c d id) m.message_events

module _ (c : Schema) (d : Db c) where
  take_events :
      (message_id : ℕ) (es : List MessageEventDbWrapper) (rest : List (ℕ × MessageEventDbWrapper))
      (ids : List ℕ)
      → Paired (EventRow c d) (map (λ e. (message_id, e)) es ++ rest) ids
      → All (AttributeRow c d) (attributes_of ids (map (λ e. (message_id, e)) es ++ rest))
      → (left : List ℕ) × All (EventStored c d message_id) es
        × Paired (EventRow c d) rest left
        × All (AttributeRow c d) (attributes_of left rest)
  unfolding attributes_of
  take_events message_id [] rest ids h k = (ids, tt, h, k)
  take_events message_id (e ∷ es) rest [] h k = elim h [ ]
  take_events message_id (e ∷ es) rest (id ∷ ids) h k =
      let (own, later) = All-split (AttributeRow c d) (map (λ a. (id, a)) e.attributes) _ k in
      let (left, stored, paired, others) = take_events message_id es rest ids h.1 later in
      (
        left,
        ((id, h.0, All-of_map (AttributeRow c d) (λ a. (id, a)) e.attributes own), stored),
        paired,
        others,
      )

  together :
      (tx_id : ℕ) (ms : List MessageDbWrapper) (ids event_ids : List ℕ)
      → Paired (MessageRow c d tx_id) ms ids
      → Paired (EventRow c d) (events_of ids ms) event_ids
      → All (AttributeRow c d) (attributes_of event_ids (events_of ids ms))
      → All (MessageStored c d tx_id) ms
  unfolding events_of
  together tx_id [] ids event_ids h k l = tt
  together tx_id (m ∷ ms) [] event_ids h k l = elim h [ ]
  together tx_id (m ∷ ms) (id ∷ ids) event_ids h k l =
      let (left, stored, paired, others) =
        take_events id m.message_events (events_of ids ms) event_ids k l in
      ((id, h.0, stored), together tx_id ms ids left h.1 paired others)

module _ (c : Schema) (promise : AllDocumented c) (known : Known) where
  AttributeRow-stays :
      (x : ℕ × MessageEventAttribute) (d u : Db c)
      → (db_growth c).Extends d u
      → AttributeRow c d x
      → AttributeRow c u x
  AttributeRow-stays x d u grown (r, found) =
      let after_types = grown.1 in
      let after_messages = after_types.1 in
      let after_event_types = after_messages.1 in
      let after_events = after_event_types.1 in (r, after_events.1 (x.0, x.1.index) r found)

  EventRow-stays :
      (x : ℕ × MessageEventDbWrapper) (id : ℕ) (d u : Db c)
      → (db_growth c).Extends d u
      → EventRow c d x id
      → EventRow c u x id
  EventRow-stays x id d u grown (v, found) =
      let after_types = grown.1 in
      let after_messages = after_types.1 in
      let after_event_types = after_messages.1 in
      (v, after_event_types.0 (x.0, x.1.index) (id, v) found)

  MessageRow-stays :
      (tx_id : ℕ) (m : MessageDbWrapper) (id : ℕ) (d u : Db c)
      → (db_growth c).Extends d u
      → MessageRow c d tx_id m id
      → MessageRow c u tx_id m id
  MessageRow-stays tx_id m id d u grown (v, found) =
      let after_types = grown.1 in (v, after_types.0 (tx_id, m.message_index) (id, v) found)

  MessageStored-stays :
      (tx_id : ℕ) (m : MessageDbWrapper) (d u : Db c)
      → (db_growth c).Extends d u
      → MessageStored c d tx_id m
      → MessageStored c u tx_id m
  MessageStored-stays tx_id m d u grown (id, row, events) = (
    id,
    MessageRow-stays tx_id m id d u grown row,
    All-map (EventStored c d id) (EventStored c u id) m.message_events
        (λ e (event_id, event_row, attributes). (
          event_id,
          EventRow-stays (id, e) event_id d u grown event_row,
          All-map (λ a. AttributeRow c d (event_id, a)) (λ a. AttributeRow c u (event_id, a))
              e.attributes (λ a. AttributeRow-stays (event_id, a) d u grown) attributes,
        ))
        events,
  )

  MessageRow-index_message :
      (raw : Bool) (tx_id : ℕ) (m : MessageDbWrapper) (d : Db c)
      → MessageRow c
          (index_message c known raw tx_id m d).0
          tx_id
          m
          (index_message c known raw tx_id m d).1
  unfolding index_message put_message message_type_id
  MessageRow-index_message raw tx_id m d =
      let typed = message_type_id c known m.message_type d in
      insert_or_find-finds c.messages promise.messages decide_pair 0 (tx_id, m.message_index)
        (typed.1, if raw then m.message_bytes else []) typed.0.messages

  EventRow-index_event :
      (x : ℕ × MessageEventDbWrapper) (d : Db c)
      → EventRow c (index_event c known x d).0 x (index_event c known x d).1
  unfolding index_event put_event message_event_type_id
  EventRow-index_event (message_id, e) d =
      let typed = message_event_type_id c known e.event_type d in
      insert_or_find-finds c.message_events promise.message_events decide_pair 0
        (message_id, e.index) typed.1 typed.0.message_events

  AttributeRow-index_attribute :
      (x : ℕ × MessageEventAttribute) (d : Db c) → AttributeRow c (index_attribute c known x d).0 x
  unfolding index_attribute put_attribute message_event_attribute_key_id
  AttributeRow-index_attribute (event_id, a) d =
      let keyed = message_event_attribute_key_id c known a.key d in
      let (v, found) =
        insert_or_find-finds c.message_event_attributes promise.message_event_attributes decide_pair
          0 (event_id, a.index) (a.value, keyed.1) keyed.0.message_event_attributes in
      (_, found)

  MessageStored-index_tx :
      (raw : Bool) (x : ℕ × List MessageDbWrapper) (d : Db c)
      → All (MessageStored c (index_tx c known raw x d).0 x.0) x.1
  unfolding index_tx
  MessageStored-index_tx raw (tx_id, ms) d =
      let g = db_growth c in
      let put_messages = index_message c known raw tx_id in
      let (d1, ids) = each put_messages ms d in
      let es = events_of ids ms in
      let (d2, event_ids) = each (index_event c known) es d1 in
      let attributes = attributes_of event_ids es in
      let d3 = (each (index_attribute c known) attributes d2).0 in
      let grown2 =
        (each-Settled g (index_event c known) es (index_event-Settled c promise known) d1).0 in
      let grown3 =
        (each-Settled g (index_attribute c known) attributes
          (index_attribute-Settled c promise known) d2).0 in
      together c d3 tx_id ms ids event_ids
        (Paired-map (MessageRow c d1 tx_id) (MessageRow c d3 tx_id) ms ids
          (λ m id. MessageRow-stays tx_id m id d1 d3 (g.extends_trans d1 d2 d3 grown2 grown3))
          (each-Paired g put_messages (λ m id u. MessageRow c u tx_id m id)
            (index_message-Settled c promise known raw tx_id) (MessageRow-index_message raw tx_id)
            (λ m id. MessageRow-stays tx_id m id) ms d))
        (Paired-map (EventRow c d2) (EventRow c d3) es event_ids
          (λ e id. EventRow-stays e id d2 d3 grown3)
          (each-Paired g (index_event c known) (λ e id u. EventRow c u e id)
            (index_event-Settled c promise known) EventRow-index_event EventRow-stays es d1))
        (each-All g (index_attribute c known) (λ a u. AttributeRow c u a)
          (index_attribute-Settled c promise known) AttributeRow-index_attribute AttributeRow-stays
          attributes d2)

  -- Where every table keeps its documented promises: when the messages of a block have been indexed, in any
  -- database, each message of each transaction has a row under the transaction's id and the message's
  -- index, each of its events has a row under that row's id and the event's index, and each attribute of
  -- the event has a row under the event's row's id and the attribute's index.
  pub index_messages_stored :
      (raw : Bool) (txs : List (ℕ × List MessageDbWrapper)) (d : Db c)
      → All (λ x. All (MessageStored c (index_messages c known raw txs d).0 x.0) x.1) txs
  unfolding index_messages
  index_messages_stored raw txs d =
      each-All (db_growth c) (index_tx c known raw) (λ x u. All (MessageStored c u x.0) x.1)
        (index_tx-Settled c promise known raw) (MessageStored-index_tx raw)
        (λ x s t e.
          All-map (MessageStored c s x.0) (MessageStored c t x.0) x.1
            (λ m. MessageStored-stays x.0 m s t e))
        txs d
