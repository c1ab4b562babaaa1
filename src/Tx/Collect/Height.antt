-- ===== src/Tx/Collect/Height.antt =====
-- core/tx/parser.go: the message loop of ProcessRPCBlockByHeightTXs, for one transaction of a block, and how
-- it compares with that of ProcessRPCTXs.
use cosmos_indexer.Prelude.{
  ℕ, suc, ◌+◌, ◌≤◌, ◌<◌, ◌≡◌, refl, sym, ◌∙◌, Bool, true, false, List, [], ◌∷◌, ◌++◌, Option, none,
  some, Result, ok, err, ◌>>=◌, if◌then◌else◌, get_elem?, get_elem?-lt, length, ltb, ◌==◌, is_some,
  All, arith, Option-cases, Result-cases, inl, inr,
}
use mathlib.Core.List.{append-nil, append_assoc}
use cosmos_indexer.Filter.Regexp.{Regexp}
use cosmos_indexer.Filter.MessageType.{MessageTypeFilter, FilterError, out_of_range}
use cosmos_indexer.TxLog.{LogMessage}
use cosmos_indexer.Tx.Collect.{
  AnyMessage, StringEvent, Collected, to_events, message_type_should_index, msg_of, collect_one,
  collect_loop, collect_messages,
}

-- `msgEvents`. The logs are those parsed of the result, and `result_events` the result's own events; an
-- index beyond the logs panics.
unfoldable pub message_events :
    ℕ → List (List StringEvent) → List StringEvent → ℕ → Result FilterError (List StringEvent)
message_events code logs result_events i =
    if code == 0
    then (if ltb 0 (length logs)
        then (elim (get_elem? logs i) [ none ↦ err out_of_range | some es ↦ ok es ])
        else ok result_events)
    else ok []

module _ (r : Regexp) {M : Type 0} (filters : List (MessageTypeFilter r)) (code : ℕ)
    (logs : List (List StringEvent)) (result_events : List StringEvent) where
  -- One pass of the loop over `txFull.Body.Messages`.
  unfoldable pub collect_at_height :
      ℕ → AnyMessage M → Bool → Collected M → Result FilterError (Collected M)
  unfolding message_events to_events
  collect_at_height i a false c = ok (record {
    messages = c.messages ++ none ∷ [];
    logs = c.logs ++ record { message_index = i; events = [] } ∷ [];
    raws = c.raws ++ [] ∷ [];
  })
  collect_at_height i a true c = elim (a.cached) [
    | none ↦ ok c
    | some m ↦ message_events code logs result_events i >>= λ es. ok (record {
      messages = c.messages ++ some m ∷ [];
      logs = c.logs ++ record { message_index = i; events = to_events es } ∷ [];
      raws = c.raws ++ a.value ∷ [];
    })
  ]

  unfoldable pub height_loop :
      ℕ → List (AnyMessage M) → Collected M → Result FilterError (Collected M)
  unfolding collect_at_height message_type_should_index
  height_loop i [] c = ok c
  height_loop i (a ∷ as_) c = message_type_should_index r filters a.type_url >>= λ b.
      collect_at_height i a b c >>= λ c'. height_loop (suc i) as_ c'

  unfoldable pub collect_height_messages : List (AnyMessage M) → Result FilterError (Collected M)
  unfolding height_loop
  collect_height_messages as_ = height_loop 0 as_ (record { messages = []; logs = []; raws = [] })

module _ (r : Regexp) {M : Type 0} (unpack : AnyMessage M → Option M)
    (filters : List (MessageTypeFilter r)) (logs : List (List StringEvent))
    (result_events : List StringEvent) where
  collect_at_height-eq-collect_one :
      (i : ℕ) (a : AnyMessage M) (b : Bool) (c : Collected M)
      → i < length logs
      → is_some a.cached ≡ true
      → collect_at_height r filters 0 logs result_events i a b c
        ≡ ok (collect_one r unpack filters logs i a b c)
  unfolding collect_at_height message_events collect_one msg_of
  collect_at_height-eq-collect_one i a false c h e = refl
  collect_at_height-eq-collect_one i a true c h e = elim (Option-cases (a.cached)) [
    | inl q ↦ no_message (rw q at e)
    | inr (m, q) ↦
        let (es, found) = get_elem?-lt logs i h in
        let some_logs : ltb 0 (length logs) ≡ true = ground arith in
        rw (collect_at_height, collect_one, msg_of, q, message_events, some_logs, found) refl
  ]
    where
      no_message : {C : Type 0} → false ≡ true → C
      no_message h = cc

  height_loop-eq-collect_loop :
      (i : ℕ) (as_ : List (AnyMessage M)) (c : Collected M)
      → i + length as_ ≤ length logs
      → All (λ a. is_some a.cached ≡ true) as_
      → height_loop r filters 0 logs result_events i as_ c
        ≡ collect_loop r unpack filters logs i as_ c
  unfolding height_loop collect_loop
  height_loop-eq-collect_loop i [] c h k = refl
  height_loop-eq-collect_loop i (a ∷ as_) c h (e, k) =
      elim (Result-cases (message_type_should_index r filters a.type_url)) [
        | inr (x, q) ↦ rw (height_loop, collect_loop, q) refl
        | inl (b, q) ↦
            rw
              (
                height_loop,
                collect_loop,
                q,
                collect_at_height-eq-collect_one i a b c (omega arith) e,
              )
              (height_loop-eq-collect_loop (suc i) as_ _ (omega arith) k)
      ]

  -- For a transaction that succeeded, has a log for every message, and whose messages are all unpacked: the
  -- two ways to read a block's transactions collect the same messages, logs and bytes.
  pub collect_height_messages-eq :
      (as_ : List (AnyMessage M))
      → length as_ ≤ length logs
      → All (λ a. is_some a.cached ≡ true) as_
      → collect_height_messages r filters 0 logs result_events as_
        ≡ collect_messages r unpack filters logs as_
  unfolding collect_height_messages collect_messages
  collect_height_messages-eq as_ h k = height_loop-eq-collect_loop 0 as_ _ (omega arith) k

-- One log per message, each with the same events.
abbrev pub repeated : {M : Type 0} → List StringEvent → ℕ → List (AnyMessage M) → List LogMessage
repeated es i [] = []
repeated es i (a ∷ as_) =
    record { message_index = i; events = to_events es } ∷ repeated es (suc i) as_

module _ (r : Regexp) {M : Type 0} (result_events : List StringEvent) where
  height_loop-repeats :
      (i : ℕ) (as_ : List (AnyMessage M)) (c : Collected M)
      → All (λ a. is_some a.cached ≡ true) as_
      → (c' : Collected M) × (height_loop r [] 0 [] result_events i as_ c ≡ ok c')
        × (c'.logs ≡ c.logs ++ repeated result_events i as_)
  unfolding height_loop collect_at_height message_events message_type_should_index
  height_loop-repeats i [] c k = (c, refl, sym (append-nil c.logs))
  height_loop-repeats i (a ∷ as_) c (e, k) = elim (Option-cases (a.cached)) [
    | inl q ↦ no_message (rw q at e)
    | inr (m, q) ↦
        let log : LogMessage = record { message_index = i; events = to_events result_events } in
        let (c', done, logs) =
          height_loop-repeats (suc i) as_
            (record {
              messages = c.messages ++ some m ∷ [];
              logs = c.logs ++ log ∷ [];
              raws = c.raws ++ a.value ∷ [];
            })
            k in
        (
          c',
          rw (height_loop, collect_at_height, q) done,
          logs ∙ append_assoc c.logs (log ∷ []) (repeated result_events (suc i) as_),
        )
  ]
    where
      no_message : {C : Type 0} → false ≡ true → C
      no_message h = cc

  -- For a transaction that succeeded and has no parsed logs, with no message filters and with messages that are
  -- all unpacked: every message gets all the events of the transaction.
  pub collect_height_messages-repeats :
      (as_ : List (AnyMessage M))
      → All (λ a. is_some a.cached ≡ true) as_
      → (c : Collected M) × (collect_height_messages r [] 0 [] result_events as_ ≡ ok c)
        × (c.logs ≡ repeated result_events 0 as_)
  unfolding collect_height_messages
  collect_height_messages-repeats as_ k =
      height_loop-repeats 0 as_ (record { messages = []; logs = []; raws = [] }) k
