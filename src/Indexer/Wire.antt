-- ===== src/Indexer/Wire.antt =====
-- core/rpc_worker.go, MarshalJSON and UnmarshalJSON of IndexerBlockEventData; cmd/index.go, the two ends of
-- the redis topic that the fetched blocks go through. The codecs are parameters.
use cosmos_indexer.Prelude.{
  ◌≡◌, refl, String, Bool, List, [], ◌∷◌, Option, none, some, Result, ok, err, if◌then◌else◌, sym,
  ap, ◌∙◌, ◌>>=◌, >>=-eq-ok,
}
use cosmos_indexer.Prelude.Text.{str_eq}
use cosmos_indexer.Worker.{IndexerBlockEventData}

-- A codec of pointers: `encode` takes nil too, `decode` fills the value that it is given.
pub record PointerCodec (Bytes E A : Type 0) : Type 0 where
  pub encode : Option A → Result E Bytes
  pub decode : Bytes → Result E A

-- What decodes is what was encoded; the encoding of nil decodes to the empty value.
pub record IsInverse {Bytes E A : Type 0} (c : PointerCodec Bytes E A) (empty : A) : Type 0 where
  pub of_some : (a : A) (b : Bytes) → c.encode (some a) ≡ ok b → c.decode b ≡ ok a
  pub of_none : (b : Bytes) → c.encode none ≡ ok b → c.decode b ≡ ok empty

-- The values of the JSON object.
pub data Json (Text : Type 0) : Type 0 where
  text : Text → Json Text
  flag : Bool → Json Text

pub record Codecs (E B R T : Type 0) : Type 1 where
  pub Bytes : Type 0
  pub Text : Type 0
  pub block : PointerCodec Bytes E B
  pub results : PointerCodec Bytes E R
  pub txs : PointerCodec Bytes E T
  pub to_base64 : Bytes → Text
  pub from_base64 : Text → Result E Bytes
  pub to_json : List (String × Json Text) → Result E Bytes
  pub from_json : Bytes → Result E (List (String × Json Text))

pub record CodecLaws {E B R T : Type 0} (c : Codecs E B R T) (empty_block : B) (empty_results : R)
    (empty_txs : T) : Type 0 where
  pub block : IsInverse c.block empty_block
  pub results : IsInverse c.results empty_results
  pub txs : IsInverse c.txs empty_txs
  pub base64 : (b : c.Bytes) → c.from_base64 (c.to_base64 b) ≡ ok b
  pub json :
      (m : List (String × Json c.Text)) (b : c.Bytes) → c.to_json m ≡ ok b → c.from_json b ≡ ok m

-- An error of a codec, or the panic of a type assertion.
pub data WireError (E : Type 0) : Type 0 where
  codec : E → WireError E
  type_assertion : WireError E

unfoldable pub look_up : {Text : Type 0} → String → List (String × Json Text) → Option (Json Text)
look_up k [] = none
look_up k ((l, v) ∷ rest) = if str_eq k l then some v else look_up k rest

abbrev or_codec : {E A : Type 0} → Result E A → Result (WireError E) A
or_codec (ok a) = ok a
or_codec (err e) = err (codec e)

-- `mapped[key].(bool)`
unfoldable pub bool_at :
    {E Text : Type 0} → String → List (String × Json Text) → Result (WireError E) Bool
unfolding look_up
bool_at k m = elim (look_up k m) [
  | some (flag b) ↦ ok b
  | some (text s) ↦ err type_assertion
  | none ↦ err type_assertion
]

module _ {E B R T : Type 0} (c : Codecs E B R T) where
  unfoldable pub marshal_json : IndexerBlockEventData B R T → Result E c.Bytes
  marshal_json s = c.txs.encode s.get_txs_response >>= λ tx_resp.
      c.block.encode (some s.block_data) >>= λ bl_data.
      c.results.encode s.block_results_data >>= λ bl_results_data. c.to_json (
        ("BlockData", text (c.to_base64 bl_data))
        ∷ ("BlockResultsData", text (c.to_base64 bl_results_data))
        ∷ ("BlockEventRequestsFailed", flag s.block_event_requests_failed)
        ∷ ("GetTxsResponse", text (c.to_base64 tx_resp))
        ∷ ("TxRequestsFailed", flag s.tx_requests_failed)
        ∷ ("IndexTransactions", flag s.index_transactions)
        ∷ [])

  -- A field that holds an encoded value: nil where the key is not there.
  unfoldable pub pointer_at :
      {A : Type 0}
      → PointerCodec c.Bytes E A
      → String
      → List (String × Json c.Text)
      → Result (WireError E) (Option A)
  unfolding look_up
  pointer_at p k m = elim (look_up k m) [
    | none ↦ ok none
    | some (flag b) ↦ err type_assertion
    | some (text s) ↦ or_codec (c.from_base64 s) >>= λ b. or_codec (p.decode b) >>= λ a. ok (some a)
  ]

  unfoldable pub unmarshal_json :
      c.Bytes → Result (WireError E) (IndexerBlockEventData (Option B) R T)
  unfolding pointer_at bool_at
  unmarshal_json data_ = or_codec (c.from_json data_) >>= λ mapped.
      pointer_at c.txs "GetTxsResponse" mapped >>= λ txs.
      pointer_at c.block "BlockData" mapped >>= λ block.
      pointer_at c.results "BlockResultsData" mapped >>= λ results.
      bool_at "BlockEventRequestsFailed" mapped >>= λ events_failed.
      bool_at "TxRequestsFailed" mapped >>= λ txs_failed.
      bool_at "IndexTransactions" mapped >>= λ index_transactions. ok (record {
        block_data = block;
        block_results_data = results;
        block_event_requests_failed = events_failed;
        get_txs_response = txs;
        tx_requests_failed = txs_failed;
        index_transactions = index_transactions;
      })

  -- The message on the topic, and what the subscriber makes of it.
  unfoldable pub publish : IndexerBlockEventData B R T → Result E c.Text
  unfolding marshal_json
  publish d = marshal_json d >>= λ bl. ok (c.to_base64 bl)

  unfoldable pub receive : c.Text → Result (WireError E) (IndexerBlockEventData (Option B) R T)
  unfolding unmarshal_json
  receive payload = or_codec (c.from_base64 payload) >>= λ b. unmarshal_json b

  -- A pointer, nil replaced by the empty value.
  abbrev pub filled : {A : Type 0} → A → Option A → Option A
  filled empty none = some empty
  filled empty (some a) = some a

  module _ (empty_block : B) (empty_results : R) (empty_txs : T)
      (laws : CodecLaws c empty_block empty_results empty_txs) where
    decoded :
        {A : Type 0} (p : PointerCodec c.Bytes E A) (empty : A)
        → IsInverse p empty
        → (o : Option A) (b : c.Bytes) → p.encode o ≡ ok b
        → (or_codec (c.from_base64 (c.to_base64 b)) >>= λ b'.
            or_codec (p.decode b') >>= λ a. ok (some a))
          ≡ ok (filled empty o)
    decoded p empty inverse none b e = rw (laws.base64 b, inverse.of_none b e) refl
    decoded p empty inverse (some a) b e = rw (laws.base64 b, inverse.of_some a b e) refl

    -- What a fetched block is received as.
    abbrev pub arrived : IndexerBlockEventData B R T → IndexerBlockEventData (Option B) R T
    arrived d = record {
      block_data = some d.block_data;
      block_results_data = filled empty_results d.block_results_data;
      block_event_requests_failed = d.block_event_requests_failed;
      get_txs_response = filled empty_txs d.get_txs_response;
      tx_requests_failed = d.tx_requests_failed;
      index_transactions = d.index_transactions;
    }

    -- Where the codecs are inverses: a fetched block whose message could be built is received with the same
    -- block and flags, and with its transactions and results; those that are nil are received as empty
    -- values, not as nil.
    pub receive-publish :
        (d : IndexerBlockEventData B R T) (payload : c.Text)
        → publish d ≡ ok payload
        → receive payload ≡ ok (arrived d)
    unfolding receive publish marshal_json unmarshal_json pointer_at bool_at look_up
    receive-publish d payload e =
        let (bl, marshalled, sent) = >>=-eq-ok (marshal_json d) _ e in
        let (tx_resp, e1, m1) = >>=-eq-ok (c.txs.encode d.get_txs_response) _ marshalled in
        let (bl_data, e2, m2) = >>=-eq-ok (c.block.encode (some d.block_data)) _ m1 in
        let (bl_results, e3, m3) = >>=-eq-ok (c.results.encode d.block_results_data) _ m2 in
        ap receive (sym (payload_of sent))
        ∙ rw
            (
              receive,
              laws.base64 bl,
              laws.json _ bl m3,
              decoded c.txs empty_txs laws.txs d.get_txs_response tx_resp e1,
              decoded c.block empty_block laws.block (some d.block_data) bl_data e2,
              decoded c.results empty_results laws.results d.block_results_data bl_results e3,
            )
            refl
      where
        payload_of : {x : c.Text} → ◌≡◌ {A = Result E c.Text} (ok x) (ok payload) → x ≡ payload
        payload_of h = cc
