-- ===== src/Consumer/Search.antt =====
-- pkg/consumer/search_blocks.go and search_tx.go: two consumers with the same code up to the type of the messages.
-- A goroutine receives messages and hands them to a loop that adds their hashes to the search index.
-- pkg/repository/search.go: AddHash. The moment in which a message is handed over when the context is cancelled is
-- left out.
pub mod Index
use cosmos_indexer.Prelude.{
  ℕ, Bool, true, false, ◌&&◌, not, String, List, [], ◌∷◌, Option, none, some, if◌then◌else◌,
}
use cosmos_indexer.Prelude.Int.{ℤ, pos}
use cosmos_indexer.Repository.Amount.{itoa}

pub record SearchResult : Type 0 where
  pub tx_hash : String
  pub type_name : String
  pub block_height : List ℕ

-- The collection "search": UpdateOne with upsert, by the hash and the type. `none` is an error.
pub record SearchStore : Type 1 where
  pub Collection : Type 0
  pub update_one : String → String → SearchResult → Collection → Option Collection

-- What the goroutine and the loop meet, in the order of time.
pub data Meeting : Type 0 where
  message : String → Meeting
  receive_error : Meeting
  context_done : Meeting

-- The two fields that a message is indexed by.
pub record Indexed : Type 0 where
  pub hash : String
  pub height : ℕ

module _ (db : SearchStore) where
  pub record Consumer : Type 0 where
    pub collection : db.Collection
    pub receiving : Bool
    pub returned : Bool

  unfoldable pub add_hash : String → String → ℕ → db.Collection → Option db.Collection
  add_hash hash hash_type block_height =
      db.update_one hash hash_type
        (record { tx_hash = hash; type_name = hash_type; block_height = itoa (pos block_height) })

  -- `unmarshal` is json.Unmarshal at the type of the messages, cut to the two fields; `hash_type` is "block" or
  -- "transaction".
  module _ (unmarshal : String → Option Indexed) (hash_type : String) where
    unfoldable pub index_message : String → db.Collection → db.Collection
    unfolding add_hash
    index_message payload c = elim (unmarshal payload) [
      | none ↦ c
      | some in_ ↦ elim (add_hash in_.hash hash_type in_.height c) [ none ↦ c | some c' ↦ c' ]
    ]

    -- After an error of ReceiveMessage the goroutine has ended, and the loop waits for the context only.
    unfoldable pub meet : Meeting → Consumer → Consumer
    unfolding index_message
    meet (message payload) s =
        if s.receiving && not s.returned
        then record s { collection = index_message payload s.collection }
        else s
    meet receive_error s = record s { receiving = false }
    meet context_done s = record s { returned = true }

    unfoldable pub meet_all : List Meeting → Consumer → Consumer
    unfolding meet
    meet_all [] s = s
    meet_all (m ∷ ms) s = meet_all ms (meet m s)

    unfoldable pub consume : List Meeting → db.Collection → Consumer
    unfolding meet_all
    consume meetings c =
        meet_all meetings (record { collection = c; receiving = true; returned = false })
