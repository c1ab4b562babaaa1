-- ===== src/Tests/Database.antt =====
-- db/, cmd/index.go: the database at concrete inputs. A table is a list of rows with their ids.
use cosmos_indexer.Prelude.{
  ℕ, suc, ◌≡◌, refl, ap, sym, ◌∙◌, Bool, true, false, ◌&&◌, ◌==◌, not, String, List, [], ◌∷◌, ◌++◌,
  Option, none, some, arith, All, Result, ok, err, length, if◌then◌else◌, Bool-cases, Option-cases,
  inl, inr, elem,
}
use cosmos_indexer.Prelude.Int.{ℤ, pos}
use cosmos_indexer.Prelude.Text.{str_eq, eq_iff, eq_refl}
use cosmos_indexer.Models.{Block}
use cosmos_indexer.Config.{IndexBase}
use cosmos_indexer.Tx.{MessageDbWrapper}
use cosmos_indexer.Database.Table.{Table, Documented}
use cosmos_indexer.Database.Messages.{Schema, Db, Known, index_messages}
use cosmos_indexer.Database.Messages.Again.{AllDocumented, db_growth, index_messages_again}
use cosmos_indexer.Database.Messages.Tree.{MessageStored}
use cosmos_indexer.Database.Txs.{
  TxDbInput, FeeColumns, AuthColumns, TxSchema, TxDb, unique_txes, id_of, with_ids, index_block_txs,
}
use cosmos_indexer.Tests.TxTables.{
  appending, appending-AppendedLaws, tippers, tippers-NamedLaws, txes, txes-TxesLaws,
}
use cosmos_indexer.Database.Txs.Rows.{TxLaws, TxStored}
use cosmos_indexer.Database.Txs.Stored.{HasTxRow, index_block_txs-stored}
use cosmos_indexer.Indexer.Start.{
  get_indexer_starting_height, FirstMissing, get_indexer_starting_height-FirstMissing,
}
use cosmos_indexer.Indexer.Process.{TxData}
use cosmos_indexer.Indexer.Updates.{
  Store, complete, take_txs, take_events, index_new_block, index_events, Run-writes,
  Run-late_events, events_at,
}
use cosmos_indexer.Events.Process.{BlockDbWrapper}

module _ {K V : Type 0} (same : K → K → Bool)
    (same_iff : (k l : K) → ((same k l ≡ true) → k ≡ l) × (same k k ≡ true)) where
  abbrev look : K → List (K × (ℕ × V)) → Option (ℕ × V)
  look k [] = none
  look k ((l, r) ∷ rest) = if same k l then some r else look k rest

  abbrev add_row : K → V → List (K × (ℕ × V)) → List (K × (ℕ × V)) × Option ℕ
  add_row k v s = elim (look k s) [
    | some _ ↦ (s, none)
    | none ↦ ((k, (suc (length s), v)) ∷ s, some (suc (length s)))
  ]

  abbrev list_table : Table K V
  list_table = record { Rows = List (K × (ℕ × V)); insert = add_row; find = look }

  added :
      (k : K) (v : V) (s : List (K × (ℕ × V)))
      → look k s ≡ none
      → add_row k v s ≡ ((k, (suc (length s), v)) ∷ s, some (suc (length s)))
  added k v s e = rw (add_row, e) refl

  kept :
      (k : K) (v : V) (s : List (K × (ℕ × V))) (r : ℕ × V)
      → look k s ≡ some r
      → add_row k v s ≡ (s, none)
  kept k v s r e = rw (add_row, e) refl

  look_first :
      (k l : K) (r : ℕ × V) (s : List (K × (ℕ × V)))
      → look l ((k, r) ∷ s) ≡ (if same l k then some r else look l s)
  look_first k l r s = refl

  list_table-Documented : Documented list_table
  list_table-Documented = record {
    inserted = λ k v s e. (
      suc (length s),
      ap (λ x. x.1) (added k v s e),
      ap (λ x. look k x.0) (added k v s e) ∙ look_first k k _ s ∙ rw ((same_iff k k).1) refl,
    );
    others = λ k l v s n. elim (Option-cases (look k s)) [
      | inr (r, e) ↦ ap (λ x. look l x.0) (kept k v s r e)
      | inl e ↦ ap (λ x. look l x.0) (added k v s e) ∙ elim (Bool-cases (same l k)) [
        | inl q ↦ absurd (n (sym ((same_iff l k).0 q)))
        | inr q ↦ rw (look, q) refl
      ]
    ];
    conflict =
        λ k v s r e. (ap (λ x. x.1) (kept k v s r e), ap (λ x. look k x.0) (kept k v s r e) ∙ e);
  }

text_iff : (a b : String) → ((str_eq a b ≡ true) → a ≡ b) × (str_eq a a ≡ true)
text_iff a b = ((eq_iff a b).0, eq_refl a)

abbrev pair_eq : ℕ × ℕ → ℕ × ℕ → Bool
pair_eq a b = a.0 == b.0 && a.1 == b.1

pair_iff : (a b : ℕ × ℕ) → ((pair_eq a b ≡ true) → a ≡ b) × (pair_eq a a ≡ true)
pair_iff a b = (λ h. ground arith, ground arith)

abbrev names : Table String (Unit {0})
names = list_table str_eq text_iff

abbrev a_schema : Schema
a_schema = record {
  message_types = names;
  messages = list_table pair_eq pair_iff;
  message_event_types = names;
  message_events = list_table pair_eq pair_iff;
  message_event_attribute_keys = names;
  message_event_attributes = list_table pair_eq pair_iff;
}

a_schema-AllDocumented : AllDocumented a_schema
a_schema-AllDocumented = record {
  message_types = list_table-Documented str_eq text_iff;
  messages = list_table-Documented pair_eq pair_iff;
  message_event_types = list_table-Documented str_eq text_iff;
  message_events = list_table-Documented pair_eq pair_iff;
  message_event_attribute_keys = list_table-Documented str_eq text_iff;
  message_event_attributes = list_table-Documented pair_eq pair_iff;
}

abbrev no_rows : Db a_schema
no_rows = record {
  message_types = [];
  messages = [];
  message_event_types = [];
  message_events = [];
  message_event_attribute_keys = [];
  message_event_attributes = [];
}

abbrev unknown : Known
unknown = record { message_type = λ t. 0; event_type = λ t. 0; attribute_key = λ t. 0 }

abbrev a_message : MessageDbWrapper
a_message = record {
  message_type = "/send";
  message_index = 0;
  message_bytes = 1 ∷ [];
  message_events =
      record {
        event_type = "transfer";
        index = 0;
        attributes = record { value = "5"; key = "amount"; index = 0 } ∷ [];
      }
      ∷ [];
}

abbrev one_tx : List (ℕ × List MessageDbWrapper)
one_tx = (3, a_message ∷ []) ∷ []

abbrev indexed_once : Db a_schema
indexed_once = (index_messages a_schema unknown true one_tx no_rows).0

index_messages_again_example :
    (db_growth a_schema).Extends no_rows indexed_once
    × (db_growth a_schema).Same indexed_once
        (index_messages a_schema unknown true one_tx indexed_once).0
    × ((index_messages a_schema unknown true one_tx indexed_once).1
        ≡ (index_messages a_schema unknown true one_tx no_rows).1)
index_messages_again_example =
    index_messages_again a_schema a_schema-AllDocumented unknown true one_tx no_rows indexed_once
      ((db_growth a_schema).extends_refl indexed_once)

abbrev tx_schema : TxSchema
tx_schema = record {
  tips = tippers;
  fees = appending FeeColumns;
  auth_infos = appending AuthColumns;
  tx_responses = list_table str_eq text_iff;
  txes = txes;
}

tx_schema-TxLaws : TxLaws tx_schema
tx_schema-TxLaws = record {
  tips = tippers-NamedLaws;
  fees = appending-AppendedLaws FeeColumns;
  auth_infos = appending-AppendedLaws AuthColumns;
  tx_responses = list_table-Documented str_eq text_iff;
  txes = txes-TxesLaws;
}

abbrev no_txs : TxDb tx_schema
no_txs = record { tips = []; fees = []; auth_infos = []; tx_responses = []; txes = [] }

abbrev tx_of : String → ℕ → String → TxDbInput
tx_of hash code tipper = record {
  tx = record {
    hash = hash;
    code = code;
    auth_info = record {
      fee = record { gas_limit = 200; payer = "ann"; granter = "" };
      tip = record { tipper = tipper };
    };
    tx_response = record {
      tx_hash = hash;
      height = "6";
      time_stamp = "now";
      code = code;
      gas_used = pos 150;
      gas_wanted = pos 200;
      codespace = "";
      data_ = "";
      info = "";
    };
  };
  messages = a_message ∷ [];
}

-- One hash comes twice, and one transaction has no tip.
abbrev block_txs : List TxDbInput
block_txs = tx_of "A1" 0 "bob" ∷ tx_of "B2" 5 "" ∷ tx_of "A1" 7 "bob" ∷ []

abbrev after_txs : (TxDb tx_schema × Db a_schema) × List (String × ℕ)
after_txs = index_block_txs tx_schema a_schema unknown true 9 block_txs (no_txs, no_rows)

index_block_txs-stored_example :
    All (λ x. HasTxRow tx_schema after_txs.0.0 after_txs.1 x.tx.hash) block_txs
    × All
        (λ t. TxStored tx_schema 9 t after_txs.0.0 (id_of t.hash after_txs.1))
        (unique_txes block_txs)
    × All
        (λ x. All (MessageStored a_schema after_txs.0.1 x.0) x.1)
        (with_ids tx_schema after_txs.1 block_txs)
unfolding unique_txes
index_block_txs-stored_example =
    index_block_txs-stored tx_schema tx_schema-TxLaws a_schema a_schema-AllDocumented unknown true 9
      block_txs no_txs no_rows (refl, (refl, tt))

abbrev block_at : ℕ → Block
block_at h = record {
  time_stamp = 60;
  height = h;
  chain_id = 1;
  proposer_cons_address = record { address = "val" };
  tx_indexed = true;
  total_txs = 0;
  block_hash = "AB";
  signatures = [];
}

abbrev settings : ℤ → IndexBase
settings start = record {
  throttling = pos 0;
  reindex_message_type = "";
  reattempt_failed_blocks = false;
  start_block = start;
  end_block = pos 9;
  block_input_file = "";
  re_index = false;
  transaction_indexing_enabled = true;
  exit_when_caught_up = false;
  filter_file = "";
}

abbrev a_database : List Block
a_database = block_at 4 ∷ block_at 5 ∷ block_at 7 ∷ []

get_indexer_starting_height-FirstMissing_example :
    FirstMissing 1 a_database 4
      (pos 9)
      (get_indexer_starting_height (settings (pos 4)) 1 20 a_database)
get_indexer_starting_height-FirstMissing_example =
    get_indexer_starting_height-FirstMissing (settings (pos 4)) 1 20 4 a_database refl refl

abbrev txs_of : ℕ → TxData ℕ
txs_of h = record { tx_db_wrappers = 5 ∷ []; block = block_at h }

abbrev events_of_block : ℕ → BlockDbWrapper (Unit {0})
events_of_block h = record {
  block = block_at h;
  begin_block_events = [];
  end_block_events = [];
  uniques = record { event_types = []; attribute_keys = [] };
}

abbrev a_store : Store (Unit {0}) ℕ
a_store = record {
  rows = [];
  failed = record { event_blocks = 6 ∷ []; blocks = 6 ∷ [] };
  txs = [];
  block_events = [];
}

abbrev events_last : Store (Unit {0}) ℕ
events_last =
    index_events (Unit {0}) ℕ (events_of_block 6) (index_new_block (Unit {0}) ℕ (txs_of 6) a_store)

Run-writes_example :
    (events_last.txs ≡ [] ++ txs_of 6 ∷ [])
    × ((k : ℕ) → elem k events_last.failed.blocks ≡ (elem k (6 ∷ []) && not (elem k (6 ∷ []))))
Run-writes_example =
    Run-writes (Unit {0}) ℕ (take_txs (txs_of 6) (take_events (events_of_block 6) complete))

Run-late_events_example :
    events_at (Unit {0}) ℕ 6 events_last.block_events
    ≡ events_at (Unit {0}) ℕ 6 a_store.block_events
Run-late_events_example =
    Run-late_events (Unit {0}) ℕ (txs_of 6) a_store (λ e. absurd (omega arith))
      (take_events (events_of_block 6) complete)

-- A parser that fails on 0.
abbrev write_event : ℕ → List ℕ → Result (Unit {0}) (List ℕ)
write_event d s = if d == 0 then err tt else ok (d ∷ s)

abbrev write_error : List ℕ → Result (Unit {0}) (List ℕ)
write_error s = ok s
