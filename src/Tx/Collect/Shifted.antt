-- ===== src/Tx/Collect/Shifted.antt =====
-- core/tx/parser.go, ProcessRPCTXs, with core/tx/processor.go, ProcessTx: a message that does not unpack.
use cosmos_indexer.Prelude.{
  ◌≡◌, refl, String, List, [], ◌∷◌, Option, none, some, Result, ok, true, ◌∙◌, ap,
}
use cosmos_indexer.Filter.Regexp.{Regexp}
use cosmos_indexer.Tx.Messages.{
  TxDbWrapper, process_tx, fill_tx, messages_loop, process_message, raw_at,
}
use cosmos_indexer.TxLog.{get_message_log_for_index}
use cosmos_indexer.Tx.Collect.{
  AnyMessage, StringEvent, to_events, Collected, msg_of, message_type_should_index, collect_one,
  collect_loop, collect_messages,
}

module _ (r : Regexp) {M : Type 0} (unpack : AnyMessage M → Option M) where
  -- Without filters, after a first message that does not unpack the second is stored at position 0, with
  -- the bytes of the first and without its events, even where the node logged both messages.
  pub shifted_row-eq :
      {T E : Type 0} (parse_time : String → Result E T) (msg_type_url : M → String)
      (time_stamp hash : String) (t : T) (bad good : AnyMessage M) (m : M)
      (es es2 : List StringEvent)
      → parse_time time_stamp ≡ ok t
      → bad.cached ≡ none
      → unpack bad ≡ none
      → good.cached ≡ some m
      → (c : Collected M) × (collect_messages r unpack [] (es ∷ es2 ∷ []) (bad ∷ good ∷ []) ≡ ok c)
        × ((tx : TxDbWrapper T) × (process_tx msg_type_url parse_time time_stamp hash 0 c.logs
                c.messages c.raws
              ≡ ok tx)
            × (tx.messages
                ≡ record {
                  message_type = msg_type_url m;
                  message_index = 0;
                  message_bytes = bad.value;
                  message_events = [];
                }
                  ∷ []))
  unfolding process_tx fill_tx messages_loop process_message raw_at get_message_log_for_index msg_of
      message_type_should_index collect_one collect_loop collect_messages
  shifted_row-eq parse_time url time_stamp hash t bad good m es es2 ht hb hu hg =
      let c : Collected M = record {
        messages = some m ∷ [];
        logs = record { message_index = 1; events = to_events es2 } ∷ [];
        raws = bad.value ∷ good.value ∷ [];
      } in
      let first : msg_of r unpack [] (es ∷ es2 ∷ []) bad ≡ none = rw (msg_of, hb) hu in
      let second : msg_of r unpack [] (es ∷ es2 ∷ []) good ≡ some m = rw (msg_of, hg) refl in
      let empty : Collected M = record { messages = []; logs = []; raws = [] } in
      let c1 : Collected M = record { messages = []; logs = []; raws = bad.value ∷ [] } in
      let one : collect_one r unpack [] (es ∷ es2 ∷ []) 0 bad true empty ≡ c1 =
        rw (collect_one, first) refl in
      let two : collect_one r unpack [] (es ∷ es2 ∷ []) 1 good true c1 ≡ c =
        rw (collect_one, second) refl in
      (
        c,
        ap (λ d. collect_loop r unpack [] (es ∷ es2 ∷ []) 1 (good ∷ []) d) one ∙ ap (λ d. ok d) two,
        (fill_tx url t hash 0 c.logs c.messages c.raws, rw ht refl, refl),
      )
