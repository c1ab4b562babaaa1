-- ===== src/Tests/Server.antt =====
-- pkg/: the server, the services, the repositories and the consumers at concrete inputs.
use cosmos_indexer.Prelude.{
  ℕ, ◌≡◌, ◌≢◌, refl, true, false, ◌&&◌, String, List, [], ◌∷◌, map, Option, none, some, arith,
  if◌then◌else◌, take, drop, select, ok, err, is_ok, All, ◌==◌, Bool-cases, inl, inr,
}
use cosmos_indexer.Prelude.Int.{ℤ, pos}
use cosmos_indexer.Prelude.Text.{str_eq, eq_refl, eq_iff, codes}
use cosmos_indexer.Repository.Transactions.{TxRow, Answer, row, no_rows, Queries, Library}
use cosmos_indexer.Repository.Transactions.Pages.{Table, satisfies}
use cosmos_indexer.Repository.Votes.{VoteRow, VoteQueries}
use cosmos_indexer.Repository.EventValue.{ValueArgs, ValueQueries}
use cosmos_indexer.Repository.EventValue.Repeated.{Matched}
use cosmos_indexer.Server.Transactions.{Limit, panicked}
use cosmos_indexer.Server.Transactions.Paging.{sent, collect_pages, collect_pages-eq}
use cosmos_indexer.Server.Votes.{handle_get_votes}
use cosmos_indexer.Server.Votes.Panics.{all_known, handle_get_votes-panics}
use cosmos_indexer.Consumer.Search.{
  SearchResult, SearchStore, Meeting, message, receive_error, context_done, Indexed, consume,
}
use cosmos_indexer.Consumer.Search.Index.{Documented, last_document, consume-find}

abbrev library : Library
library = record { equal_fold = str_eq; coefficient_int64 = pos; decimal_text = λ n. codes "1" }

abbrev row_of : ℕ → String → TxRow
row_of n hash = record {
  id = n;
  signatures = [];
  hash = hash;
  code = 0;
  block_id = 1;
  timestamp = n;
  memo = "";
  timeout_height = 0;
  extension_options = [];
  non_critical_extension_options = [];
  auth_info_id = n;
  tx_response_id = n;
  gas_limit = 9;
  payer = "cosmos1a";
  granter = "";
  tipper = "";
  resp_code = 0;
  gas_used = pos 3;
  gas_wanted = pos 9;
  time_stamp = "";
  codespace = "";
  data_ = "";
  info = "";
}

abbrev three_txs : Table
three_txs = record {
  rows = row_of 3 "CC" ∷ row_of 2 "BB" ∷ row_of 1 "AA" ∷ [];
  unique = ((refl, (refl, tt)), ((refl, tt), (tt, tt)));
  height_of = λ id. if id == 1 then some (pos 7) else none;
}

abbrev answers : Answer ℕ → Queries
answers counted = record {
  select_txes = λ c limit offset.
      row (map some (take limit (drop offset (select (satisfies three_txs c) three_txs.rows))));
  block_row = λ id. none;
  fee_rows = λ id. some [];
  sender_rows = λ hash. none;
  block_id_at = λ h. no_rows;
  count_in_block = λ id. row 3;
  count_all = counted;
  event_rows = λ id. some [];
}

not_empty : (s : String) → str_eq s "" ≡ false → s ≢ ""
not_empty s h e = cc (h, (eq_iff s "").1 e)

collect_pages-eq_example :
    (collect_pages library (answers (row 3)) 2 0 2
      ≡ ok (map (sent library (answers (row 3))) three_txs.rows))
    × (map (λ x. x.tx_response.txhash) (map (sent library (answers (row 3))) three_txs.rows)
        ≡ "CC" ∷ "BB" ∷ "AA" ∷ [])
collect_pages-eq_example =
    collect_pages-eq library (answers (row 3)) three_txs 3 2 0 2 (λ c l o h k. refl) refl
      (omega arith) ((omega arith, (omega arith, tt)), ((omega arith, tt), (tt, tt)))

abbrev vote_on : String → VoteRow
vote_on hash = record {
  timestamp = 4;
  hash = hash;
  height = 7;
  voter = "cosmos1a";
  proposal_id = "12";
  option = "VOTE_OPTION_YES";
  weight = "1.0";
}

abbrev votes : List VoteRow → VoteQueries
votes rows = record {
  vote_rows = λ unique account limit offset. some (map some rows);
  count_votes = λ unique account. some 2;
  atoi = λ s. some (pos 12);
}

abbrev ten : Limit
ten = record { limit = pos 10; offset = pos 0 }

-- The second vote's transaction is not in the table.
handle_get_votes-panics_example :
    (is_ok (
        handle_get_votes library
          (answers (row 3))
          (votes (vote_on "BB" ∷ vote_on "DD" ∷ []))
          "cosmos1a"
          true
          (some ten))
      ≡ all_known three_txs.rows (vote_on "BB" ∷ vote_on "DD" ∷ []))
    × (all_known three_txs.rows (vote_on "BB" ∷ vote_on "DD" ∷ []) ≡ false
        → handle_get_votes library
            (answers (row 3))
            (votes (vote_on "BB" ∷ vote_on "DD" ∷ []))
            "cosmos1a"
            true
            (some ten)
          ≡ err panicked)
handle_get_votes-panics_example =
    handle_get_votes-panics library (answers (row 3)) (votes (vote_on "BB" ∷ vote_on "DD" ∷ []))
      three_txs 3 (λ c l o h k. refl) refl "cosmos1a" true ten (vote_on "BB" ∷ vote_on "DD" ∷ []) 2
      refl refl ((not_empty "BB" refl, (pos 12, refl)), ((not_empty "DD" refl, (pos 12, refl)), tt))

-- A database of one transaction, "AA", which has the value that the query asks for, if it asks for one.
abbrev hashes_for : ValueArgs → List String → List String
hashes_for args (d ∷ []) = if args.count == 1 then "AA" ∷ [] else []
hashes_for args ds = []

abbrev one_value : ValueQueries
one_value = record {
  digest = λ s. s;
  hash_rows = λ args. row (map some (hashes_for args args.digests));
  total = λ args. row 1;
  event_rows_v2 = λ hash. row [];
}

hashes_for-Matched :
    (types : List String) (n : ℕ) (limit offset : ℤ) (ds : List String)
    → All
        (Matched (record {
          message_type = types;
          count = n;
          limit = limit;
          offset = offset;
          digests = ds;
        }))
        (hashes_for
          (record { message_type = types; count = n; limit = limit; offset = offset; digests = ds })
          ds)
hashes_for-Matched types n limit offset [] = tt
hashes_for-Matched types n limit offset (d ∷ e ∷ ds) = tt
hashes_for-Matched types n limit offset (d ∷ []) = elim (Bool-cases (n == 1)) [
  | inl e ↦ rw e (
    record {
      values = d ∷ [];
      different = refl;
      asked_for = ground (arith, eq_refl d);
      as_many = ground (arith, e);
    },
    tt,
  )
  | inr e ↦ rw e tt
]

abbrev by_key : SearchStore
by_key = record {
  Collection = String → String → Option SearchResult;
  update_one = λ hash hash_type r c.
      some (λ h t. if str_eq h hash && str_eq t hash_type then some r else c h t);
}

abbrev by_key_keeps : Documented by_key
by_key_keeps = record {
  find = λ h t c. c h t;
  updated = λ hash hash_type r c.
      (λ h t. if str_eq h hash && str_eq t hash_type then some r else c h t, refl, λ h t. refl);
}

-- A message is its hash; "bad" does not decode.
abbrev decode : String → Option Indexed
decode s = if str_eq s "bad" then none else some (record { hash = s; height = 7 })

abbrev meetings : List Meeting
meetings = message "AA" ∷ message "bad" ∷ receive_error ∷ message "BB" ∷ context_done ∷ []

consume-find_example :
    ((consume by_key decode "block" meetings (λ h t. none)).collection "AA" "block"
      ≡ last_document decode "block" "AA" "block" ("AA" ∷ "bad" ∷ []) none)
    × ((consume by_key decode "block" meetings (λ h t. none)).returned ≡ true)
consume-find_example =
    consume-find decode "block" by_key by_key_keeps meetings (λ h t. none) "AA" "block"
