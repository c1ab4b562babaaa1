-- ===== src/Consumer/Search/Index.antt =====
-- pkg/consumer/search_blocks.go and search_tx.go: what the search index holds.
use cosmos_indexer.Prelude.{
  ◌≡◌, refl, ap, ◌∙◌, Bool, true, false, ◌&&◌, ◌||◌, not, String, List, [], ◌∷◌, Option, none, some,
  arith, if◌then◌else◌, Bool-cases, Option-cases, inl, inr,
}
use cosmos_indexer.Prelude.Int.{pos}
use cosmos_indexer.Prelude.Text.{str_eq}
use cosmos_indexer.Repository.Amount.{itoa}
use cosmos_indexer.Consumer.Search.{
  SearchResult, SearchStore, Meeting, message, receive_error, context_done, Indexed, Consumer,
  add_hash, index_message, meet, meet_all, consume,
}

-- A database that is up, and does what the documentation of UpdateOne with upsert says: `find` is the document of a
-- hash and a type.
pub record Documented (db : SearchStore) : Type 0 where
  pub find : String → String → db.Collection → Option SearchResult
  pub updated :
      (hash hash_type : String) (r : SearchResult) (c : db.Collection)
      → (c' : db.Collection) × (db.update_one hash hash_type r c ≡ some c')
        × ((h t : String)
            → find h t c' ≡ (if str_eq h hash && str_eq t hash_type then some r else find h t c))

-- The messages that come before the first error of receiving and before the context is done.
abbrev pub before_end : List Meeting → List String
before_end [] = []
before_end (message payload ∷ ms) = payload ∷ before_end ms
before_end (receive_error ∷ ms) = []
before_end (context_done ∷ ms) = []

module _ (unmarshal : String → Option Indexed) (hash_type : String) where
  abbrev document : Indexed → SearchResult
  document in_ = record {
    tx_hash = in_.hash;
    type_name = hash_type;
    block_height = itoa (pos in_.height);
  }

  abbrev newer : String → String → Option Indexed → Option SearchResult → Option SearchResult
  newer h t none before = before
  newer h t (some in_) before =
      if str_eq h in_.hash && str_eq t hash_type then some (document in_) else before

  -- The document of the last of the messages with the hash, or what was there before.
  abbrev pub last_document :
      String → String → List String → Option SearchResult → Option SearchResult
  last_document h t [] before = before
  last_document h t (payload ∷ rest) before =
      last_document h t rest (newer h t (unmarshal payload) before)

  abbrev pub ended : List Meeting → Bool
  ended [] = false
  ended (context_done ∷ ms) = true
  ended (m ∷ ms) = ended ms

  module _ (db : SearchStore) (promise : Documented db) where
    index_message-find :
        (payload h t : String) (c : db.Collection)
        → promise.find h t (index_message db unmarshal hash_type payload c)
          ≡ newer h t (unmarshal payload) (promise.find h t c)
    unfolding index_message add_hash
    index_message-find payload h t c = elim (Option-cases (unmarshal payload)) [
      | inl e ↦ rw (index_message, e) refl
      | inr (in_, e) ↦
          let (c', there, found) = promise.updated in_.hash hash_type (document in_) c in
          rw (index_message, add_hash, e, there) (found h t)
    ]

    -- Once nothing is received any more, the index stays.
    meet_all-stopped :
        (ms : List Meeting) (s : Consumer db)
        → (s.receiving && not s.returned) ≡ false
        → (meet_all db unmarshal hash_type ms s).collection ≡ s.collection
    unfolding meet_all meet
    meet_all-stopped [] s h = refl
    meet_all-stopped (message payload ∷ ms) s h = rw (meet_all, meet, h) (meet_all-stopped ms s h)
    meet_all-stopped (receive_error ∷ ms) s h =
        meet_all-stopped ms (record s { receiving = false }) refl
    meet_all-stopped (context_done ∷ ms) s h =
        meet_all-stopped ms (record s { returned = true }) (ground arith)

    meet_all-find :
        (ms : List Meeting) (c : db.Collection) (h t : String)
        → promise.find h t
            (meet_all db unmarshal hash_type ms
              (record { collection = c; receiving = true; returned = false })).collection
          ≡ last_document h t (before_end ms) (promise.find h t c)
    unfolding meet_all meet
    meet_all-find [] c h t = refl
    meet_all-find (message payload ∷ ms) c h t =
        meet_all-find ms (index_message db unmarshal hash_type payload c) h t
        ∙ ap (last_document h t (before_end ms)) (index_message-find payload h t c)
    meet_all-find (receive_error ∷ ms) c h t =
        ap (promise.find h t) (
          meet_all-stopped ms (record { collection = c; receiving = false; returned = false }) refl)
    meet_all-find (context_done ∷ ms) c h t =
        ap (promise.find h t)
          (meet_all-stopped ms (record { collection = c; receiving = true; returned = true }) refl)

    meet_all-returned :
        (ms : List Meeting) (s : Consumer db)
        → (meet_all db unmarshal hash_type ms s).returned ≡ (s.returned || ended ms)
    unfolding meet_all meet
    meet_all-returned [] s = ground arith
    meet_all-returned (message payload ∷ ms) s = elim (Bool-cases (s.receiving && not s.returned)) [
      | inl e ↦
          rw (meet_all, meet, e)
            (meet_all-returned ms
              (record s { collection = index_message db unmarshal hash_type payload s.collection }))
      | inr e ↦ rw (meet_all, meet, e) (meet_all-returned ms s)
    ]
    meet_all-returned (receive_error ∷ ms) s = meet_all-returned ms (record s { receiving = false })
    meet_all-returned (context_done ∷ ms) s =
        meet_all-returned ms (record s { returned = true }) ∙ ground arith

    -- In a database that is up and answers as documented: the document of a hash and a type is that of the last
    -- message with the hash that came before the context was done and before the first error of receiving, or what
    -- was there before; later messages are not indexed, although the consumer returns only once its context is done.
    pub consume-find :
        (ms : List Meeting) (c : db.Collection) (h t : String)
        → (promise.find h t (consume db unmarshal hash_type ms c).collection
            ≡ last_document h t (before_end ms) (promise.find h t c))
          × ((consume db unmarshal hash_type ms c).returned ≡ ended ms)
    unfolding consume
    consume-find ms c h t = (
      meet_all-find ms c h t,
      meet_all-returned ms (record { collection = c; receiving = true; returned = false }),
    )
