-- ===== src/Server/Votes/Panics.antt =====
-- pkg/server/blocks.go, GetVotes: when it answers, and when it panics.
use cosmos_indexer.Prelude.{
  ℕ, ◌≡◌, ◌≢◌, refl, ap, sym, ◌∙◌, Bool, true, false, ◌&&◌, String, List, [], ◌∷◌, ◌++◌, map,
  Option, none, some, All, ok, err, is_ok, is_some, Option-cases, Result-cases, ◌⊎◌, inl, inr, take,
  select, arith,
}
use mathlib.Core.List.{append-nil, append_assoc}
use cosmos_indexer.Prelude.Int.{ℤ}
use cosmos_indexer.Repository.Transactions.{
  Tx, TxRow, by_hash, row, Queries, Library, read_tx, condition,
}
use cosmos_indexer.Repository.Transactions.Pages.{
  row_with, newest, newest-select, condition-by_hash, transactions-by_hash, by_hash-NewestFirst,
  Table, Documented, satisfies,
}
use cosmos_indexer.Repository.Votes.{
  VoteRow, VotesTransaction, VoteQueries, head_tx, read_vote, read_votes, get_votes,
}
use cosmos_indexer.Server.Votes.{vote_to_proto, votes_loop, handle_get_votes, PbVotesTransaction}
use cosmos_indexer.Server.Transactions.{panicked, Limit}

-- Every vote's transaction is in the table.
abbrev pub all_known : List TxRow → List VoteRow → Bool
all_known rows [] = true
all_known rows (r ∷ votes) = is_some (row_with r.hash rows) && all_known rows votes

false-ne-true : false ≢ true
false-ne-true h = cc

abbrev all_sent : List VotesTransaction → Bool
all_sent [] = true
all_sent (vote ∷ votes) = is_some vote.tx && all_sent votes

module _ (lib : Library) (q : Queries) (v : VoteQueries) (t : Table) (n : ℕ)
    (promise : Documented q t) (counted : q.count_all ≡ row n) where
  -- A vote whose hash is not empty and whose proposal is a number.
  abbrev pub Readable : VoteRow → Type 0
  Readable r = (r.hash ≢ "") × ((proposal : ℤ) × (v.atoi r.proposal_id ≡ some proposal))

  abbrev found_tx : Option TxRow → Option Tx
  found_tx none = none
  found_tx (some r) = some (read_tx lib q r)

  abbrev vote_of : VoteRow → ℤ → Option Tx → VotesTransaction
  vote_of r proposal tx = record {
    block_height = r.height;
    timestamp = r.timestamp;
    tx_hash = r.hash;
    proposal_id = proposal;
    voter = r.voter;
    option = r.option;
    weight = r.weight;
    tx = tx;
  }

  head_tx-newest :
      (rows : List TxRow) → head_tx (map (read_tx lib q) (take 1 rows)) ≡ found_tx (newest rows)
  unfolding head_tx
  head_tx-newest [] = refl
  head_tx-newest (r ∷ rows) = refl

  read_vote-eq :
      (r : VoteRow) (proposal : ℤ)
      → r.hash ≢ ""
      → v.atoi r.proposal_id ≡ some proposal
      → read_vote lib q v r ≡ some (vote_of r proposal (found_tx (row_with r.hash t.rows)))
  unfolding read_vote
  read_vote-eq r proposal given number =
      rw
        (
          read_vote,
          number,
          transactions-by_hash lib q t n 1 r.hash promise counted (omega arith)
              (by_hash-NewestFirst t r.hash given),
        )
        (ap (λ tx. some (vote_of r proposal tx))
          (head_tx-newest (select (satisfies t (condition (some (by_hash r.hash)))) t.rows)
            ∙ ap (λ c. found_tx (newest (select (satisfies t c) t.rows)))
                (condition-by_hash r.hash given)
            ∙ ap found_tx (newest-select r.hash t.rows)))

  vote_to_proto-none :
      (vote : VotesTransaction) → vote.tx ≡ none → vote_to_proto lib vote ≡ err panicked
  unfolding vote_to_proto
  vote_to_proto-none vote e = rw (vote_to_proto, e) refl

  vote_to_proto-is_ok :
      (vote : VotesTransaction) (tx : Tx)
      → vote.tx ≡ some tx
      → is_ok (vote_to_proto lib vote) ≡ true
  unfolding vote_to_proto
  vote_to_proto-is_ok vote tx e = rw (vote_to_proto, e) refl

  vote_to_proto-sent :
      (vote : VotesTransaction) (tx : Tx)
      → vote.tx ≡ some tx
      → (sent : PbVotesTransaction) × (vote_to_proto lib vote ≡ ok sent)
  vote_to_proto-sent vote tx e = elim (Result-cases (vote_to_proto lib vote)) [
    | inl found ↦ found
    | inr (error, e') ↦ absurd (false-ne-true (ap is_ok (sym e') ∙ vote_to_proto-is_ok vote tx e))
  ]

  -- A loop over votes ends with all of them, or panics at the first without a transaction.
  votes_loop-cases :
      (votes : List VotesTransaction) (res : List PbVotesTransaction)
      → ((all_sent votes ≡ true)
          × ((sent : List PbVotesTransaction) × (votes_loop lib votes res ≡ ok sent)))
        ⊎ ((all_sent votes ≡ false) × (votes_loop lib votes res ≡ err panicked))
  unfolding votes_loop
  votes_loop-cases [] res = inl (refl, (res, refl))
  votes_loop-cases (vote ∷ votes) res = elim (Option-cases vote.tx) [
    | inl e ↦ inr (rw e refl, rw (votes_loop, vote_to_proto-none vote e) refl)
    | inr (tx, e) ↦
        let (sent, e') = vote_to_proto-sent vote tx e in
        elim (votes_loop-cases votes (res ++ sent ∷ [])) [
          | inl (known, (all, done)) ↦ inl (rw (e, known) refl, (all, rw (votes_loop, e') done))
          | inr (unknown, stopped) ↦ inr (rw (e, unknown) refl, rw (votes_loop, e') stopped)
        ]
  ]

  is_some-found_tx : (r : Option TxRow) → is_some (found_tx r) ≡ is_some r
  is_some-found_tx none = refl
  is_some-found_tx (some r) = refl

  read_votes-all_sent :
      (rows : List VoteRow) (out : List VotesTransaction)
      → All Readable rows
      → (votes : List VotesTransaction) × (read_votes lib q v (map some rows) out
          ≡ some (out ++ votes))
        × (all_sent votes ≡ all_known t.rows rows)
  unfolding read_votes
  read_votes-all_sent [] out h = ([], ap some (sym (append-nil out)), refl)
  read_votes-all_sent (r ∷ rows) out ((given, (proposal, number)), h) =
      let vote = vote_of r proposal (found_tx (row_with r.hash t.rows)) in
      let (votes, e, known) = read_votes-all_sent rows (out ++ vote ∷ []) h in
      (
        vote ∷ votes,
        rw (read_votes, read_vote-eq r proposal given number)
            (e ∙ ap some (append_assoc out (vote ∷ []) votes)),
        rw (known, is_some-found_tx (row_with r.hash t.rows)) refl,
      )

  -- From a database that answers its queries as documented, for votes that can be read, each with a hash that is not
  -- empty and a number for its proposal, and can be counted: GetVotes answers exactly when every vote's
  -- transaction is in the table of transactions; otherwise it panics.
  pub handle_get_votes-panics :
      (account : String) (unique : Bool) (in_ : Limit) (rows : List VoteRow) (all : ℕ)
      → v.vote_rows unique account in_.limit in_.offset ≡ some (map some rows)
      → v.count_votes unique account ≡ some all
      → All Readable rows
      → (is_ok (handle_get_votes lib q v account unique (some in_)) ≡ all_known t.rows rows)
        × (all_known t.rows rows ≡ false
            → handle_get_votes lib q v account unique (some in_) ≡ err panicked)
  unfolding handle_get_votes get_votes
  handle_get_votes-panics account unique in_ rows all answered totalled readable =
      let (votes, e, known) = read_votes-all_sent rows [] readable in
      elim (votes_loop-cases votes []) [
        | inl (sent, (res, done)) ↦
            let settled : all_known t.rows rows ≡ true = sym known ∙ sent in
            (
              rw (handle_get_votes, get_votes, answered, e, totalled, done, settled) refl,
              λ unknown. absurd (false-ne-true (sym unknown ∙ settled)),
            )
        | inr (missing, stopped) ↦
            let settled : all_known t.rows rows ≡ false = sym known ∙ missing in
            (
              rw (handle_get_votes, get_votes, answered, e, totalled, stopped, settled) refl,
              λ unknown. rw (handle_get_votes, get_votes, answered, e, totalled, stopped) refl,
            )
      ]
