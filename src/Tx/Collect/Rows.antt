-- ===== src/Tx/Collect/Rows.antt =====
-- core/tx/parser.go, ProcessRPCTXs, with core/tx/processor.go, ProcessTx: the rows of a transaction all
-- of whose indexed messages unpack.
use mathlib.Core.List.{append-nil, append_assoc}
use mathlib.Core.Path.{subst}
use cosmos_indexer.Prelude.{
  ℕ, suc, ◌+◌, ◌≤◌, ◌<◌, ◌≡◌, refl, sym, ap, ◌∙◌, Bool, true, false, String, List, [], ◌∷◌, ◌++◌,
  map, Option, none, some, Result, ok, err, >>=-eq-ok, arith, inl, inr, Option-cases, is_some, All,
  All-append, All-map, get_elem?, get_elem?-lt, length, length-append,
}
use cosmos_indexer.Filter.Regexp.{Regexp}
use cosmos_indexer.Filter.MessageType.{MessageTypeFilter, FilterError}
use cosmos_indexer.TxLog.{Attribute, LogMessageEvent, LogMessage, get_message_log_for_index}
use cosmos_indexer.Tx.{MessageEventAttribute, MessageEventDbWrapper, MessageDbWrapper}
use cosmos_indexer.Tx.Messages.{
  UniqueEvents, TxDbWrapper, attributes_loop, events_loop, process_message, raw_at, messages_loop,
  fill_tx, process_tx,
}
use cosmos_indexer.Tx.Collect.{
  AnyMessage, StringEvent, Collected, to_events, msg_of, message_type_should_index, collect_one,
  collect_loop, collect_messages,
}

-- The rows that a list of attributes, and a list of events, should have.
abbrev pub attribute_rows : ℕ → List Attribute → List MessageEventAttribute
attribute_rows i [] = []
attribute_rows i (a ∷ as_) =
    record { value = a.value; key = a.key; index = i } ∷ attribute_rows (suc i) as_

abbrev pub event_rows : ℕ → List LogMessageEvent → List MessageEventDbWrapper
event_rows i [] = []
event_rows i (e ∷ es) =
    record { event_type = e.type_name; index = i; attributes = attribute_rows 0 e.attributes }
    ∷ event_rows (suc i) es

attributes_loop-eq :
    (i : ℕ) (as_ : List Attribute) (out : List MessageEventAttribute) (keys : List String)
    → (attributes_loop i as_ out keys).0 ≡ out ++ attribute_rows i as_
unfolding attributes_loop
attributes_loop-eq i [] out keys = sym (append-nil out)
attributes_loop-eq i (a ∷ as_) out keys =
    attributes_loop-eq (suc i) as_ _ _ ∙ append_assoc out (_ ∷ []) (attribute_rows (suc i) as_)

events_loop-eq :
    (i : ℕ) (es : List LogMessageEvent) (out : List MessageEventDbWrapper) (u : UniqueEvents)
    → (events_loop i es out u).0 ≡ out ++ event_rows i es
unfolding events_loop
events_loop-eq i [] out u = sym (append-nil out)
events_loop-eq i (e ∷ es) out u =
    rw (events_loop, attributes_loop-eq 0 e.attributes [] u.attribute_keys)
      (events_loop-eq (suc i) es _ _ ∙ append_assoc out (_ ∷ []) (event_rows (suc i) es))

-- What is kept of a message at its position: the message if it is indexed, its log, and its bytes.
pub record Entry (M : Type 0) : Type 0 where
  pub message : Option M
  pub log : LogMessage
  pub raw : List ℕ

module _ {M : Type 0} (msg_type_url : M → String) where
  -- The rows of entries that stand at the positions from `i`.
  abbrev pub rows_from : ℕ → List (Entry M) → List MessageDbWrapper
  rows_from i [] = []
  rows_from i (e ∷ es) = elim (e.message) [
    | none ↦ rows_from (suc i) es
    | some m ↦
        record {
          message_type = msg_type_url m;
          message_index = i;
          message_bytes = e.raw;
          message_events = event_rows 0 e.log.events;
        }
        ∷ rows_from (suc i) es
  ]

  abbrev Numbered : ℕ → List (Entry M) → Type 0
  Numbered i [] = Unit
  Numbered i (e ∷ es) = (e.log.message_index ≡ i) × Numbered (suc i) es

  log_at :
      (i : ℕ) (pre : List LogMessage) (l : LogMessage) (post : List LogMessage)
      → All (λ x. x.message_index < i) pre
      → l.message_index ≡ i
      → get_message_log_for_index (pre ++ l ∷ post) i ≡ some l
  unfolding get_message_log_for_index
  log_at i [] l post h e = ground arith
  log_at i (x ∷ pre) l post h e = ground (arith, log_at i pre l post h.1 e)

  raw_at-eq :
      (pre : List (List ℕ)) (x : List ℕ) (post : List (List ℕ))
      → raw_at (pre ++ x ∷ post) (length pre) ≡ x
  unfolding raw_at
  raw_at-eq [] x post = refl
  raw_at-eq (y ∷ pre) x post = raw_at-eq pre x post

  process_message-eq :
      (i : ℕ) (m : M) (logs : List LogMessage) (u : UniqueEvents) (l : LogMessage)
      → get_message_log_for_index logs i ≡ some l
      → (process_message msg_type_url i m logs u).0 ≡ record {
        message_type = msg_type_url m;
        message_index = i;
        message_bytes = [];
        message_events = event_rows 0 l.events;
      }
  unfolding process_message
  process_message-eq i m logs u l h = rw (process_message, h, events_loop-eq 0 l.events [] u) refl

  -- The entries are found at their positions.
  abbrev Placed : List LogMessage → List (List ℕ) → ℕ → List (Entry M) → Type 0
  Placed logs raws i [] = Unit
  Placed logs raws i (e ∷ es) =
      (get_message_log_for_index logs i ≡ some e.log)
      × (raw_at raws i ≡ e.raw)
      × Placed logs raws (suc i) es

  messages_loop-eq :
      (logs : List LogMessage) (raws : List (List ℕ)) (i : ℕ) (es : List (Entry M))
      (out : List MessageDbWrapper) (types : List String) (u : UniqueEvents)
      → Placed logs raws i es
      → (messages_loop msg_type_url logs raws i (map (λ x. x.message) es) out types u).0
        ≡ out ++ rows_from i es
  unfolding messages_loop
  messages_loop-eq logs raws i [] out types u p = sym (append-nil out)
  messages_loop-eq logs raws i (e ∷ es) out types u p = elim (Option-cases e.message) [
    | inl q ↦ rw (messages_loop, q) (messages_loop-eq logs raws (suc i) es out types u p.2)
    | inr (m, q) ↦
        rw (messages_loop, q, process_message-eq i m logs u e.log p.0, p.1)
          (messages_loop-eq logs raws (suc i) es _ _ _ p.2
            ∙ append_assoc out (_ ∷ []) (rows_from (suc i) es))
  ]

  placed :
      (lp : List LogMessage) (rp : List (List ℕ)) (i : ℕ) (es : List (Entry M))
      → All (λ x. x.message_index < i) lp
      → length rp ≡ i
      → Numbered i es
      → Placed (lp ++ map (λ x. x.log) es) (rp ++ map (λ x. x.raw) es) i es
  placed lp rp i [] h n k = tt
  placed lp rp i (e ∷ es) h n k =
      let logs = append_assoc lp (e.log ∷ []) (map (λ x. x.log) es) in
      let raws = append_assoc rp (e.raw ∷ []) (map (λ x. x.raw) es) in
      let later : All (λ x. x.message_index < suc i) (lp ++ e.log ∷ []) =
        All-append _ lp _
          (All-map (λ x. x.message_index < i) (λ x. x.message_index < suc i) lp
            (λ x q. omega (arith, q)) h)
          (omega (arith, k.0), tt) in
      (
        log_at i lp e.log _ h k.0,
        subst (λ j. raw_at (rp ++ e.raw ∷ map (λ x. x.raw) es) j ≡ e.raw) n (raw_at-eq rp e.raw _),
        subst (λ l. Placed l (rp ++ e.raw ∷ map (λ x. x.raw) es) (suc i) es) logs
            (subst (λ w. Placed (lp ++ e.log ∷ [] ++ map (λ x. x.log) es) w (suc i) es) raws
              (placed (lp ++ e.log ∷ []) (rp ++ e.raw ∷ []) (suc i) es later
                (length-append rp (e.raw ∷ []) ∙ omega (arith, n)) k.1)),
      )

abbrev pub or_false : Result FilterError Bool → Bool
or_false (ok b) = b
or_false (err _) = false

abbrev pub events_of : Option (List StringEvent) → List LogMessageEvent
events_of none = []
events_of (some es) = to_events es

module _ (r : Regexp) {M : Type 0} (unpack : AnyMessage M → Option M)
    (filters : List (MessageTypeFilter r)) (node_logs : List (List StringEvent)) where
  abbrev pub entry_for : Bool → ℕ → AnyMessage M → Entry M
  entry_for false i a = record {
    message = none;
    log = record { message_index = i; events = [] };
    raw = [];
  }
  entry_for true i a = record {
    message = msg_of r unpack filters node_logs a;
    log = record { message_index = i; events = events_of (get_elem? node_logs i) };
    raw = a.value;
  }

  -- The entries of the messages from position `i`.
  abbrev pub entries : ℕ → List (AnyMessage M) → List (Entry M)
  entries i [] = []
  entries i (a ∷ as_) =
      entry_for (or_false (message_type_should_index r filters a.type_url)) i a
      ∷ entries (suc i) as_

  abbrev pub Unpacks : AnyMessage M → Type 0
  Unpacks a = is_some (msg_of r unpack filters node_logs a) ≡ true

  collect_one-eq :
      (i : ℕ) (a : AnyMessage M) (b : Bool) (c : Collected M)
      → Unpacks a
      → i < length node_logs
      → collect_one r unpack filters node_logs i a b c ≡ record {
        messages = c.messages ++ (entry_for b i a).message ∷ [];
        logs = c.logs ++ (entry_for b i a).log ∷ [];
        raws = c.raws ++ (entry_for b i a).raw ∷ [];
      }
  unfolding collect_one
  collect_one-eq i a false c u h = refl
  collect_one-eq i a true c u h = elim (Option-cases (msg_of r unpack filters node_logs a)) [
    | inl e ↦ absurd (subst (λ o. is_some o ≡ true) e u)
    | inr (m, e) ↦ let (es, q) = get_elem?-lt node_logs i h in rw (collect_one, e, q) refl
  ]
    where
      absurd : {A : Type 0} → false ≡ true → A
      absurd h = cc

  Holds : ℕ → List (AnyMessage M) → Collected M → Collected M → Type 0
  Holds i as_ c d =
      (d.messages ≡ c.messages ++ map (λ x. x.message) (entries i as_))
      × (d.logs ≡ c.logs ++ map (λ x. x.log) (entries i as_))
      × (d.raws ≡ c.raws ++ map (λ x. x.raw) (entries i as_))

  collect_loop-eq :
      (i : ℕ) (as_ : List (AnyMessage M)) (c d : Collected M)
      → collect_loop r unpack filters node_logs i as_ c ≡ ok d
      → All Unpacks as_
      → i + length as_ ≤ length node_logs
      → Holds i as_ c d
  unfolding collect_loop Holds
  collect_loop-eq i [] c d h u n =
      ground (arith, append-nil c.messages, append-nil c.logs, append-nil c.raws)
  collect_loop-eq i (a ∷ as_) c d h u n =
      let (b, e, h2) = >>=-eq-ok (message_type_should_index r filters a.type_url) _ h in
      let one = collect_one-eq i a b c u.0 (omega (arith, n)) in
      let rest = collect_loop-eq (suc i) as_ _ d h2 u.1 (omega (arith, n)) in
      let x = entry_for b i a in
      rw e (
        rest.0
            ∙ ap (λ t. t.messages ++ map (λ y. y.message) (entries (suc i) as_)) one
            ∙ append_assoc c.messages (x.message ∷ []) _,
        rest.1
            ∙ ap (λ t. t.logs ++ map (λ y. y.log) (entries (suc i) as_)) one
            ∙ append_assoc c.logs (x.log ∷ []) _,
        rest.2
            ∙ ap (λ t. t.raws ++ map (λ y. y.raw) (entries (suc i) as_)) one
            ∙ append_assoc c.raws (x.raw ∷ []) _,
      )

  entries-Numbered : (i : ℕ) (as_ : List (AnyMessage M)) → Numbered (λ m. "") i (entries i as_)
  entries-Numbered i [] = tt
  entries-Numbered i (a ∷ as_) = (
    index (or_false (message_type_should_index r filters a.type_url)),
    entries-Numbered (suc i) as_,
  )
    where
      index : (b : Bool) → (entry_for b i a).log.message_index ≡ i
      index false = refl
      index true = refl

  -- Where the filters decide every message, every message unpacks, and the node logged every message of
  -- a transaction that succeeded, its rows are those of the messages that the filters keep: each with
  -- its position, its type, its own bytes and the events of its own log, in their order.
  pub stored_rows-eq :
      {T E : Type 0} (parse_time : String → Result E T) (msg_type_url : M → String)
      (time_stamp hash : String) (t : T) (as_ : List (AnyMessage M)) (c : Collected M)
      → parse_time time_stamp ≡ ok t
      → collect_messages r unpack filters node_logs as_ ≡ ok c
      → All Unpacks as_
      → length as_ ≤ length node_logs
      → (tx : TxDbWrapper T) × (process_tx msg_type_url parse_time time_stamp hash 0 c.logs
            c.messages c.raws
          ≡ ok tx)
        × (tx.messages ≡ rows_from msg_type_url 0 (entries 0 as_))
  unfolding process_tx fill_tx collect_messages Holds
  stored_rows-eq parse_time url time_stamp hash t as_ c ht h u n =
      let holds = collect_loop-eq 0 as_ _ c h u (omega (arith, n)) in
      let at = placed url [] [] 0 (entries 0 as_) tt refl (entries-Numbered 0 as_) in
      let none_yet : UniqueEvents = record { event_types = []; attribute_keys = [] } in
      (
        fill_tx url t hash 0 c.logs c.messages c.raws,
        rw ht refl,
        rw (holds.0, holds.1, holds.2)
            (messages_loop-eq url _ _ 0 (entries 0 as_) [] [] none_yet at),
      )
