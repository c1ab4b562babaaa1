-- ===== src/Tests/Pipeline.antt =====
-- cmd/index.go, core/rpc_worker.go: the pipeline at concrete inputs, with codecs that keep the values.
use cosmos_indexer.Prelude.{
  ℕ, ◌≡◌, refl, ap, ◌∙◌, Bool, true, false, ◌==◌, String, List, [], ◌∷◌, Option, none, some, Result,
  ok, err, length, if◌then◌else◌,
}
use cosmos_indexer.Enqueue.{EnqueueData}
use cosmos_indexer.Filter.Regexp.{Regexp}
use cosmos_indexer.Worker.{IndexerBlockEventData}
use cosmos_indexer.Indexer.Wire.{
  Json, text, flag, Codecs, CodecLaws, publish, marshal_json, receive, receive-publish, arrived,
}
use cosmos_indexer.Indexer.Process.{ResultBlock, ResultBlockResults, Indexer, Sent}
use cosmos_indexer.Indexer.Pipeline.{lost, Node, handle}
use cosmos_indexer.Indexer.Pipeline.Losses.{no_results}
use cosmos_indexer.Indexer.Pipeline.BlockEvents.{NoEvents, handle-NoEvents}
use cosmos_indexer.Prelude.Text.{str_eq}

abbrev Results : Type 0
Results = ResultBlockResults (Unit {0})

-- Messages as values: the JSON object is a list of fields.
mutual
  data Bytes : Type 0 where
    of_block : Option ResultBlock → Bytes
    of_results : Option Results → Bytes
    of_txs : Option (List ℕ) → Bytes
    of_fields : Fields → Bytes

  data Fields : Type 0 where
    end : Fields
    text_field : String → Bytes → Fields → Fields
    flag_field : String → Bool → Fields → Fields

abbrev empty_block : ResultBlock
empty_block = record {
  height = 0;
  time = 0;
  hash = [];
  proposer_address = [];
  txs = [];
  signatures = [];
}

abbrev or_empty : {A : Type 0} → A → Option A → A
or_empty empty none = empty
or_empty empty (some a) = a

abbrev read_block : Bytes → Result (Unit {0}) ResultBlock
read_block (of_block o) = ok (or_empty empty_block o)
read_block (of_results o) = err tt
read_block (of_txs o) = err tt
read_block (of_fields o) = err tt

abbrev read_results : Bytes → Result (Unit {0}) Results
read_results (of_results o) = ok (or_empty no_results o)
read_results (of_block o) = err tt
read_results (of_txs o) = err tt
read_results (of_fields o) = err tt

abbrev read_txs : Bytes → Result (Unit {0}) (List ℕ)
read_txs (of_txs o) = ok (or_empty [] o)
read_txs (of_results o) = err tt
read_txs (of_block o) = err tt
read_txs (of_fields o) = err tt

abbrev fields_of : List (String × Json Bytes) → Fields
fields_of [] = end
fields_of ((k, text t) ∷ m) = text_field k t (fields_of m)
fields_of ((k, flag b) ∷ m) = flag_field k b (fields_of m)

abbrev list_of : Fields → List (String × Json Bytes)
list_of end = []
list_of (text_field k t m) = (k, text t) ∷ list_of m
list_of (flag_field k b m) = (k, flag b) ∷ list_of m

abbrev read_fields : Bytes → Result (Unit {0}) (List (String × Json Bytes))
read_fields (of_fields f) = ok (list_of f)
read_fields (of_block o) = err tt
read_fields (of_results o) = err tt
read_fields (of_txs o) = err tt

abbrev plain : Codecs (Unit {0}) ResultBlock Results (List ℕ)
plain = record {
  Bytes = Bytes;
  Text = Bytes;
  block = record { encode = λ o. ok (of_block o); decode = read_block };
  results = record { encode = λ o. ok (of_results o); decode = read_results };
  txs = record { encode = λ o. ok (of_txs o); decode = read_txs };
  to_base64 = λ b. b;
  from_base64 = λ b. ok b;
  to_json = λ m. ok (of_fields (fields_of m));
  from_json = read_fields;
}

list_of-fields_of : (m : List (String × Json Bytes)) → list_of (fields_of m) ≡ m
list_of-fields_of [] = refl
list_of-fields_of ((k, text t) ∷ m) = ap (λ x. (k, text t) ∷ x) (list_of-fields_of m)
list_of-fields_of ((k, flag b) ∷ m) = ap (λ x. (k, flag b) ∷ x) (list_of-fields_of m)

ok_value : {x y : Bytes} → ◌≡◌ {A = Result (Unit {0}) Bytes} (ok x) (ok y) → y ≡ x
ok_value h = cc

plain_laws : CodecLaws plain empty_block no_results []
plain_laws = record {
  block = record {
    of_some = λ a b h. ap read_block (ok_value h);
    of_none = λ b h. ap read_block (ok_value h);
  };
  results = record {
    of_some = λ a b h. ap read_results (ok_value h);
    of_none = λ b h. ap read_results (ok_value h);
  };
  txs = record {
    of_some = λ a b h. ap read_txs (ok_value h);
    of_none = λ b h. ap read_txs (ok_value h);
  };
  base64 = λ b. refl;
  json = λ m b h. ap read_fields (ok_value h) ∙ ap (λ x. ok x) (list_of-fields_of m);
}

abbrev a_result : ResultBlock
a_result = record {
  height = 7;
  time = 60;
  hash = 10 ∷ [];
  proposer_address = 1 ∷ [];
  txs = (5 ∷ []) ∷ [];
  signatures = [];
}

abbrev a_fetch : IndexerBlockEventData ResultBlock Results (List ℕ)
a_fetch = record {
  block_data = a_result;
  block_results_data = none;
  block_event_requests_failed = false;
  get_txs_response = some (5 ∷ []);
  tx_requests_failed = false;
  index_transactions = true;
}

receive-publish_example :
    receive plain (
      of_fields (
        text_field "BlockData" (of_block (some a_result)) (
          text_field "BlockResultsData" (of_results none) (
            flag_field "BlockEventRequestsFailed" false (
              text_field "GetTxsResponse"
                (of_txs (some (5 ∷ [])))
                (flag_field "TxRequestsFailed" false (flag_field "IndexTransactions" true end)))))))
    ≡ ok (arrived plain empty_block no_results [] plain_laws a_fetch)
unfolding publish marshal_json
receive-publish_example =
    receive-publish plain empty_block no_results [] plain_laws a_fetch
      (of_fields (
        text_field "BlockData" (of_block (some a_result)) (
          text_field "BlockResultsData" (of_results none) (
            flag_field "BlockEventRequestsFailed" false (
              text_field "GetTxsResponse" (of_txs (some (5 ∷ [])))
                (flag_field "TxRequestsFailed" false (flag_field "IndexTransactions" true end)))))))
      refl

-- Expressions that are plain texts.
abbrev texts : Regexp
texts = record { Expr = String; compile = some; match_string = str_eq }

-- An indexer without filters and parsers, for which a transaction is its own row.
abbrev an_indexer : Indexer texts (Unit {0}) (Unit {0}) ℕ (List ℕ) (Unit {0})
an_indexer = record {
  cons_address = λ b. ok "cosmosvalcons1";
  hash_text = λ b. "0A";
  decode = λ t. some t;
  chain_id = 1;
  begin_parsers = [];
  end_parsers = [];
  begin_filters = none;
  end_filters = none;
  tx_count = length;
  process_rpc_txs = λ txs. ok txs;
  process_rpc_block_by_height_txs = λ b res. err tt;
}

abbrev nothing_sent : Sent (Unit {0}) ℕ
nothing_sent = record {
  failed = record { event_blocks = []; blocks = [] };
  block_events = [];
  txs = [];
  blocks = [];
}

-- A node with block 7, whose transactions it gives, and no other block.
abbrev a_node : Node (List ℕ) (Unit {0})
a_node = record {
  get_block = λ h. if h == 7 then some a_result else none;
  get_txs = λ h. some (5 ∷ []);
  get_results = λ h attempts longest. none;
}

plain_publishes :
    (d : IndexerBlockEventData ResultBlock Results (List ℕ))
    → (payload : Bytes) × (publish plain d ≡ ok payload)
unfolding publish marshal_json
plain_publishes d = (_, refl)

abbrev to_index : ℕ → EnqueueData
to_index h = record { height = h; index_transactions = true }

handle-NoEvents_example :
    (s' : Sent (Unit {0}) ℕ) × (handle a_node none plain an_indexer lost (to_index 7) nothing_sent
      ≡ some s')
    × NoEvents a_node none plain an_indexer empty_block [] plain_laws plain_publishes nothing_sent
        s'
handle-NoEvents_example =
    handle-NoEvents a_node none plain an_indexer empty_block [] plain_laws plain_publishes lost
      (to_index 7) nothing_sent a_result (5 ∷ []) refl refl refl
