-- ===== src/Server/Votes.antt =====
-- pkg/server/blocks.go, GetVotes.
pub mod Panics
use cosmos_indexer.Prelude.{
  ℕ, Bool, String, List, [], ◌∷◌, ◌++◌, Option, none, some, Result, ok, err,
}
use cosmos_indexer.Prelude.Int.{ℤ}
use cosmos_indexer.Repository.Transactions.{Tx, Queries, Library}
use cosmos_indexer.Repository.Votes.{VotesTransaction, VoteQueries, get_votes}
use cosmos_indexer.Server.Proto.{PbTxByHash, tx_to_proto, int32_of_int}
use cosmos_indexer.Server.Transactions.{ServerError, call_failed, panicked, Limit, PbResult}

pub record PbVotesTransaction : Type 0 where
  pub block_height : ℕ
  pub tx_hash : String
  pub proposal_id : ℤ
  pub voter : String
  pub option : String
  pub weight : String
  pub time : ℕ
  pub tx : PbTxByHash

pub record VotesResponse : Type 0 where
  pub transactions : List PbVotesTransaction
  pub result : PbResult

module _ (lib : Library) where
  -- txToProto reads through the pointer.
  unfoldable pub vote_to_proto : VotesTransaction → Result ServerError PbVotesTransaction
  unfolding int32_of_int
  vote_to_proto vote = elim vote.tx [
    | none ↦ err panicked
    | some tx ↦ ok record {
      block_height = vote.block_height;
      tx_hash = vote.tx_hash;
      proposal_id = int32_of_int vote.proposal_id;
      voter = vote.voter;
      option = vote.option;
      weight = vote.weight;
      time = vote.timestamp;
      tx = tx_to_proto lib tx;
    }
  ]

  unfoldable pub votes_loop :
      List VotesTransaction → List PbVotesTransaction → Result ServerError (List PbVotesTransaction)
  unfolding vote_to_proto
  votes_loop [] res = ok res
  votes_loop (vote ∷ votes) res = elim (vote_to_proto vote) [
    | err e ↦ err e
    | ok sent ↦ votes_loop votes (res ++ sent ∷ [])
  ]

  module _ (q : Queries) (v : VoteQueries) where
    unfoldable pub handle_get_votes :
        String → Bool → Option Limit → Result ServerError VotesResponse
    unfolding votes_loop get_votes
    handle_get_votes account unique none = err panicked
    handle_get_votes account unique (some in_) =
        elim (get_votes lib q v account unique in_.limit in_.offset) [
          | none ↦ err call_failed
          | some (txs, all) ↦ elim (votes_loop txs []) [
            | err e ↦ err e
            | ok res ↦ ok record {
              transactions = res;
              result = record { limit = in_.limit; offset = in_.offset; all = all };
            }
          ]
        ]
