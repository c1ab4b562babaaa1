-- ===== src/Repository/Votes.antt =====
-- pkg/repository/txs.go, GetVotes: the votes of an account, each with its transaction.
use cosmos_indexer.Prelude.{ℕ, Bool, String, List, [], ◌∷◌, ◌++◌, Option, none, some}
use cosmos_indexer.Prelude.Int.{ℤ, pos}
use cosmos_indexer.Repository.Transactions.{Tx, Queries, Library, by_hash, transactions}

pub record VoteRow : Type 0 where
  pub timestamp : ℕ
  pub hash : String
  pub height : ℕ
  pub voter : String
  pub proposal_id : String
  pub option : String
  pub weight : String

pub record VotesTransaction : Type 0 where
  pub block_height : ℕ
  pub timestamp : ℕ
  pub tx_hash : String
  pub proposal_id : ℤ
  pub voter : String
  pub option : String
  pub weight : String
  pub tx : Option Tx

-- The two queries, each in the form for unique proposals and in the other; `none` is an error, or a row that
-- cannot be read. `atoi` is strconv.Atoi.
pub record VoteQueries : Type 0 where
  pub vote_rows : Bool → String → ℤ → ℤ → Option (List (Option VoteRow))
  pub count_votes : Bool → String → Option ℕ
  pub atoi : String → Option ℤ

unfoldable pub head_tx : List Tx → Option Tx
head_tx [] = none
head_tx (tx ∷ txs) = some tx

module _ (lib : Library) (q : Queries) (v : VoteQueries) where
  -- One round of the loop.
  unfoldable pub read_vote : VoteRow → Option VotesTransaction
  unfolding head_tx
  read_vote r = elim (v.atoi r.proposal_id) [
    | none ↦ none
    | some proposal ↦ elim (transactions lib q (pos 1) (pos 0) (some (by_hash r.hash))) [
      | none ↦ none
      | some (tx_by_hash, _) ↦ some record {
        block_height = r.height;
        timestamp = r.timestamp;
        tx_hash = r.hash;
        proposal_id = proposal;
        voter = r.voter;
        option = r.option;
        weight = r.weight;
        tx = head_tx tx_by_hash;
      }
    ]
  ]

  unfoldable pub read_votes :
      List (Option VoteRow) → List VotesTransaction → Option (List VotesTransaction)
  unfolding read_vote
  read_votes [] out = some out
  read_votes (none ∷ rows) out = none
  read_votes (some r ∷ rows) out = elim (read_vote r) [
    | none ↦ none
    | some vote ↦ read_votes rows (out ++ vote ∷ [])
  ]

  unfoldable pub get_votes : String → Bool → ℤ → ℤ → Option (List VotesTransaction × ℕ)
  unfolding read_votes
  get_votes account_address unique_proposals limit offset =
      elim (v.vote_rows unique_proposals account_address limit offset) [
        | none ↦ none
        | some rows ↦ elim (read_votes rows []) [
          | none ↦ none
          | some votes ↦ elim (v.count_votes unique_proposals account_address) [
            | none ↦ none
            | some total ↦ some (votes, total)
          ]
        ]
      ]
