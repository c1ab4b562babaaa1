-- ===== src/Database/Txs/Stored.antt =====
-- db/db.go, IndexNewBlock: what the database holds of the transactions of a block.
use cosmos_indexer.Prelude.{
  ℕ, ◌≡◌, Bool, true, false, String, List, [], ◌∷◌, none, some, All, All-map, Bool-cases, inl, inr,
}
use mathlib.Core.Path.{subst}
use cosmos_indexer.Prelude.Text.{str_eq, eq_iff}
use cosmos_indexer.Database.Settled.{each}
use cosmos_indexer.Database.Messages.{Schema, Db, Known}
use cosmos_indexer.Database.Messages.Again.{AllDocumented}
use cosmos_indexer.Database.Messages.Tree.{MessageStored, index_messages_stored}
use cosmos_indexer.Database.Txs.Tables.{TxColumns}
use cosmos_indexer.Database.Txs.Rows.{TxLaws, TxStored, Distinct, each-TxStored}
use cosmos_indexer.Database.Txs.{
  TxDbInput, TxSchema, TxDb, hash_in, unique_txes, id_of, index_tx_row, index_tx_rows,
  index_block_txs, with_ids,
}

hash_in-unique_txes :
    (hash : String) (xs : List TxDbInput)
    → hash_in hash xs ≡ false
    → All (λ t. str_eq t.hash hash ≡ false) (unique_txes xs)
unfolding hash_in unique_txes
hash_in-unique_txes hash [] h = tt
hash_in-unique_txes hash (x ∷ xs) h = elim (Bool-cases (str_eq x.tx.hash hash)) [
  | inl e ↦ absurd (true-ne-false (rw e at h))
  | inr e ↦
      let later : hash_in hash xs ≡ false = rw e at h in
      elim (Bool-cases (hash_in x.tx.hash xs)) [
        | inl f ↦ rw f (hash_in-unique_txes hash xs later)
        | inr f ↦ rw f (e, hash_in-unique_txes hash xs later)
      ]
]
  where
    true-ne-false : true ≡ false → ⊥
    true-ne-false q = cc

unique_txes-Distinct : (xs : List TxDbInput) → Distinct (unique_txes xs)
unfolding unique_txes
unique_txes-Distinct [] = tt
unique_txes-Distinct (x ∷ xs) = elim (Bool-cases (hash_in x.tx.hash xs)) [
  | inl e ↦ rw e (unique_txes-Distinct xs)
  | inr e ↦ rw e (hash_in-unique_txes x.tx.hash xs e, unique_txes-Distinct xs)
]

-- What holds of the hashes of the unique transactions holds of all the hashes.
unique_txes-covers :
    (Holds : String → Type 0) (hash : String) (xs : List TxDbInput)
    → hash_in hash xs ≡ true
    → All (λ t. Holds t.hash) (unique_txes xs)
    → Holds hash
unfolding hash_in unique_txes
unique_txes-covers Holds hash [] found h = cc
unique_txes-covers Holds hash (x ∷ xs) found h = elim (Bool-cases (hash_in x.tx.hash xs)) [
  | inl later ↦
      unique_txes-covers Holds hash xs
        (elim (Bool-cases (str_eq x.tx.hash hash)) [
          | inl e ↦ subst (λ k. hash_in k xs ≡ true) ((eq_iff x.tx.hash hash).0 e) later
          | inr e ↦ (rw e at found)
        ])
        (rw later at h)
  | inr later ↦
      let parts : Holds x.tx.hash × All (λ t. Holds t.hash) (unique_txes xs) = rw later at h in
      elim (Bool-cases (str_eq x.tx.hash hash)) [
        | inl e ↦ subst Holds ((eq_iff x.tx.hash hash).0 e) parts.0
        | inr e ↦ unique_txes-covers Holds hash xs (rw e at found) parts.1
      ]
]

hash_in-All :
    (Holds : String → Type 0) (xs : List TxDbInput)
    → All (λ t. Holds t.hash) (unique_txes xs)
    → All (λ x. Holds x.tx.hash) xs
unfolding unique_txes
hash_in-All Holds [] h = tt
hash_in-All Holds (x ∷ xs) h = elim (Bool-cases (hash_in x.tx.hash xs)) [
  | inl later ↦
      let rest : All (λ t. Holds t.hash) (unique_txes xs) = rw later at h in
      (unique_txes-covers Holds x.tx.hash xs later rest, hash_in-All Holds xs rest)
  | inr later ↦
      let parts : Holds x.tx.hash × All (λ t. Holds t.hash) (unique_txes xs) = rw later at h in
      (parts.0, hash_in-All Holds xs parts.1)
]

-- A transaction's hash has the row of an id.
abbrev pub HasTxRow : (c : TxSchema) → TxDb c → List (String × ℕ) → String → Type 0
HasTxRow c d ids hash = (v : TxColumns) × (c.txes.find hash d.txes ≡ some (id_of hash ids, v))

module _ (c : TxSchema) (laws : TxLaws c) (m : Schema) (promise : AllDocumented m)
    (known : Known) where
  -- Where every table keeps its documented promises, and no transaction of the block has a row yet: when the
  -- transactions of a block have been indexed, every one has a row under its hash; of those with one hash, the last
  -- has in it its code, its block, the id of its response's row, and that of its auth info, with a row of its fee and
  -- a row of its tip, whose tipper is its own if it names one; and every message of each transaction is stored, with
  -- its events and their attributes, under the id of the transaction's row.
  pub index_block_txs-stored :
      (raw : Bool) (block_id : ℕ) (txs : List TxDbInput) (d : TxDb c) (e : Db m)
      → All (λ t. c.txes.find t.hash d.txes ≡ none) (unique_txes txs)
      → All
          (λ x.
            HasTxRow c
              (index_block_txs c m known raw block_id txs (d, e)).0.0
              (index_block_txs c m known raw block_id txs (d, e)).1
              x.tx.hash)
          txs
        × All
            (λ t.
              TxStored c block_id t
                (index_block_txs c m known raw block_id txs (d, e)).0.0
                (id_of t.hash (index_block_txs c m known raw block_id txs (d, e)).1))
            (unique_txes txs)
        × All
            (λ x.
              All (MessageStored m (index_block_txs c m known raw block_id txs (d, e)).0.1 x.0) x.1)
            (with_ids c (index_block_txs c m known raw block_id txs (d, e)).1 txs)
  unfolding index_block_txs index_tx_rows
  index_block_txs-stored raw block_id txs d e absent =
      let stored =
        each-TxStored c laws block_id (unique_txes txs) d (unique_txes-Distinct txs) absent in
      let result = each (index_tx_row c block_id) (unique_txes txs) d in
      (
        hash_in-All (HasTxRow c result.0 result.1) txs (
            All-map (λ t. TxStored c block_id t result.0 (id_of t.hash result.1))
              (λ t. HasTxRow c result.0 result.1 t.hash) (unique_txes txs)
              (λ t (v, found, code, block, parts). (v, found)) stored),
        stored,
        index_messages_stored m promise known raw (with_ids c result.1 txs) e,
      )
