-- ===== src/Tx/Row/Same.antt =====
-- core/tx/parser.go: the two functions that make a transaction's row, compared.
use cosmos_indexer.Prelude.{
  ℕ, suc, ◌≤◌, ◌≡◌, refl, sym, ap, Bool, true, false, String, List, [], ◌∷◌, ◌++◌, Option, none,
  some, Result, ok, ◌>>=◌, >>=-eq-ok, length, All, All-append, All-map, is_some, Result-cases, inl,
  inr, arith,
}
use mathlib.Core.Path.{subst}
use cosmos_indexer.Filter.Regexp.{Regexp}
use cosmos_indexer.Filter.MessageType.{MessageTypeFilter}
use cosmos_indexer.Tx.Collect.{
  AnyMessage, StringEvent, Collected, collect_one, collect_loop, collect_messages,
  message_type_should_index, msg_of,
}
use cosmos_indexer.Tx.Collect.Height.{collect_height_messages, collect_height_messages-eq}
use cosmos_indexer.Tx.Signers.{PubKey}
use cosmos_indexer.Tx.Fees.{AuthFee}
use cosmos_indexer.Repository.Transactions.{TxResponse}
use cosmos_indexer.Tx.Row.{
  RowError, RawAuthInfo, RawTx, height_auth, search_auth, fill_row, valid_signers, all_signers,
  process_height_row, process_search_row,
}

module _ (r : Regexp) {M K T : Type 0} (filters : List (MessageTypeFilter r))
    (unpack : AnyMessage M → Option M) (validate : M → Bool) (get_signers : M → List String)
    (msg_type_url : M → String) (parse_time : String → Result RowError T)
    (resolve : K → Result RowError PubKey) (unpack_interfaces : RawAuthInfo K → Bool) where
  -- A message that was unpacked with the transaction, and passes ValidateBasic.
  abbrev pub Accepted : AnyMessage M → Type 0
  Accepted a = (m : M) × (a.cached ≡ some m) × (validate m ≡ true)

  abbrev Valid : Option M → Type 0
  Valid none = Unit {0}
  Valid (some m) = validate m ≡ true

  collect_one-Valid :
      (logs : List (List StringEvent)) (i : ℕ) (a : AnyMessage M) (b : Bool) (c : Collected M)
      → Accepted a
      → All Valid c.messages
      → All Valid (collect_one r unpack filters logs i a b c).messages
  unfolding collect_one msg_of
  collect_one-Valid logs i a false c h v = All-append Valid c.messages (none ∷ []) v (tt, tt)
  collect_one-Valid logs i a true c (m, e, q) v =
      rw (msg_of, e) (All-append Valid c.messages (some m ∷ []) v (q, tt))

  collect_loop-Valid :
      (logs : List (List StringEvent)) (i : ℕ) (as_ : List (AnyMessage M)) (c d : Collected M)
      → All Accepted as_
      → All Valid c.messages
      → collect_loop r unpack filters logs i as_ c ≡ ok d
      → All Valid d.messages
  unfolding collect_loop
  collect_loop-Valid logs i [] c d h v e = subst (λ x. All Valid x.messages) same v
    where
      same : c ≡ d
      same = cc
  collect_loop-Valid logs i (a ∷ as_) c d (k, h) v e =
      let (b, found, rest) =
        >>=-eq-ok (message_type_should_index r filters a.type_url)
          (λ b.
            collect_loop r unpack filters logs (suc i) as_
              (collect_one r unpack filters logs i a b c))
          e in
      collect_loop-Valid logs (suc i) as_ (collect_one r unpack filters logs i a b c) d h
        (collect_one-Valid logs i a b c k v) rest

  valid_signers-eq :
      (ms : List (Option M))
      → All Valid ms
      → valid_signers validate get_signers ms ≡ all_signers validate get_signers ms
  unfolding valid_signers all_signers
  valid_signers-eq [] v = refl
  valid_signers-eq (none ∷ ms) (u, v) = valid_signers-eq ms v
  valid_signers-eq (some m ∷ ms) (u, v) =
      rw u (ap (λ x. get_signers m ++ x) (valid_signers-eq ms v))

  Accepted-cached : (a : AnyMessage M) → Accepted a → is_some a.cached ≡ true
  Accepted-cached a (m, e, q) = rw e refl

  -- For a transaction that succeeded, has a log for every message and a fee, and all of whose messages were unpacked
  -- and are accepted: the row that is made of a block's transaction is the one that is made of a search's, but for
  -- the codespace and the info of the response, which only the first has.
  pub process_height_row-eq :
      (logs : List (List StringEvent)) (events : List StringEvent) (resp : TxResponse)
      (tx : RawTx M K) (a : RawAuthInfo K) (f : AuthFee)
      → resp.code ≡ 0
      → length tx.messages ≤ length logs
      → All Accepted tx.messages
      → tx.auth_info ≡ some a
      → a.fee ≡ some f
      → unpack_interfaces a ≡ true
      → process_height_row r filters unpack validate get_signers msg_type_url parse_time resolve
          unpack_interfaces logs events resp tx
        ≡ (process_search_row r filters unpack validate get_signers msg_type_url parse_time resolve
              unpack_interfaces logs resp tx
            >>= λ row. ok (record row { tx_response = record resp { data_ = "" } }))
  unfolding process_height_row process_search_row height_auth search_auth fill_row collect_messages
  process_height_row-eq logs events resp tx a f code enough accepted auth fee infos =
      let collected : collect_height_messages r filters resp.code logs events tx.messages
          ≡ collect_messages r unpack filters logs tx.messages =
        subst
          (λ k.
            collect_height_messages r filters k logs events tx.messages
            ≡ collect_messages r unpack filters logs tx.messages)
          (sym code)
          (collect_height_messages-eq r unpack filters logs events tx.messages enough (
            All-map Accepted (λ x. is_some x.cached ≡ true) tx.messages Accepted-cached
              accepted)) in
      elim (Result-cases (collect_messages r unpack filters logs tx.messages)) [
        | inr (e, q) ↦ rw (process_height_row, process_search_row, collected, q) refl
        | inl (c, q) ↦
            let signers =
              valid_signers-eq c.messages
                (collect_loop-Valid logs 0 tx.messages _ c accepted tt q) in
            ground (arith, collected, q, auth, infos, signers, fee)
      ]
