-- ===== src/Repository/Transactions/Pages.antt =====
-- pkg/repository/txs.go, Transactions: what it reads from a database that answers its query as documented.
use cosmos_indexer.Prelude.{
  ℕ, ◌<◌, ◌≡◌, refl, ap, sym, ◌∙◌, Bool, true, false, List, [], ◌∷◌, ◌++◌, map, Option, none, some,
  All, Option-cases, inl, inr, take, drop, select, ◌≢◌, String, if◌then◌else◌, Bool-cases,
}
use mathlib.Core.Path.{subst}
use mathlib.Core.List.{append-nil, append_assoc}
use cosmos_indexer.Prelude.Int.{ℤ, pos, eqb_ℤ}
use cosmos_indexer.Prelude.Text.{str_eq, str_elem, eq_iff}
use cosmos_indexer.Repository.Transactions.{
  Tx, TxRow, TxCondition, all_txs, at_height, with_hash, with_hashes, row, Queries, Library,
  TxsFilter, by_hash, condition, to_uint, read_tx, read_rows, read_answer, filtered_block, count_of,
  count_or_zero, transactions,
}

-- The unique index of the hashes.
abbrev pub UniqueHashes : List TxRow → Type 0
UniqueHashes [] = Unit {0}
UniqueHashes (r ∷ rows) = All (λ s. str_eq s.hash r.hash ≡ false) rows × UniqueHashes rows

-- The table of transactions in some order, and the heights of the blocks by their ids.
pub record Table : Type 0 where
  pub rows : List TxRow
  pub unique : UniqueHashes rows
  pub height_of : ℕ → Option ℤ

abbrev pub has_height : ℤ → Option ℤ → Bool
has_height height none = false
has_height height (some h) = eqb_ℤ h height

abbrev pub satisfies : Table → TxCondition → TxRow → Bool
satisfies t all_txs r = true
satisfies t (at_height height) r = has_height height (t.height_of r.block_id)
satisfies t (with_hash hash) r = str_eq r.hash hash
satisfies t (with_hashes hashes) r = str_elem r.hash hashes

-- Newest first, and no two at one time.
abbrev pub NewestFirst : List TxRow → Type 0
NewestFirst [] = Unit {0}
NewestFirst (r ∷ rows) = All (λ s. s.timestamp < r.timestamp) rows × NewestFirst rows

-- WHERE, ORDER BY timestamp DESC, LIMIT and OFFSET, with a limit that is not 0, where every row can be read. The order
-- is that of the table only if it settles the order of the rows that satisfy the condition: the documentation of the
-- database promises none for rows of one timestamp.
abbrev pub Documented : Queries → Table → Type 0
Documented q t =
    (c : TxCondition) (limit offset : ℕ)
    → 0 < limit
    → NewestFirst (select (satisfies t c) t.rows)
    → q.select_txes c limit offset
      ≡ row (map some (take limit (drop offset (select (satisfies t c) t.rows))))

-- The first row with the hash.
abbrev pub row_with : String → List TxRow → Option TxRow
row_with hash [] = none
row_with hash (r ∷ rows) = if str_eq r.hash hash then some r else row_with hash rows

abbrev pub newest : List TxRow → Option TxRow
newest [] = none
newest (r ∷ rows) = some r

pub newest-select :
    (hash : String) (rows : List TxRow)
    → newest (select (λ r. str_eq r.hash hash) rows) ≡ row_with hash rows
newest-select hash [] = refl
newest-select hash (r ∷ rows) = elim (Bool-cases (str_eq r.hash hash)) [
  | inl e ↦ rw e
  | inr e ↦ rw e (newest-select hash rows)
]

pub newest-all : (rows : List TxRow) → newest (select (λ r. true) rows) ≡ newest rows
newest-all [] = refl
newest-all (r ∷ rows) = refl

pub condition-by_hash :
    (hash : String) → hash ≢ "" → condition (some (by_hash hash)) ≡ with_hash hash
unfolding condition
condition-by_hash hash given = elim (Bool-cases (str_eq hash "")) [
  | inl e ↦ absurd (given ((eq_iff hash "").0 e))
  | inr e ↦ rw (condition, e) refl
]

select-absent :
    (hash : String) (rows : List TxRow)
    → All (λ s. str_eq s.hash hash ≡ false) rows
    → select (λ r. str_eq r.hash hash) rows ≡ []
select-absent hash [] h = refl
select-absent hash (r ∷ rows) (e, h) = rw e (select-absent hash rows h)

-- At most one row has a hash, so that the order is settled.
select-NewestFirst :
    (hash : String) (rows : List TxRow)
    → UniqueHashes rows
    → NewestFirst (select (λ r. str_eq r.hash hash) rows)
select-NewestFirst hash [] h = tt
select-NewestFirst hash (r ∷ rows) (other, h) = elim (Bool-cases (str_eq r.hash hash)) [
  | inr e ↦ rw e (select-NewestFirst hash rows h)
  | inl e ↦
      let none_else : All (λ s. str_eq s.hash hash ≡ false) rows =
        subst (λ k. All (λ s. str_eq s.hash k ≡ false) rows) ((eq_iff r.hash hash).0 e) other in
      rw (e, select-absent hash rows none_else) (tt, tt)
]

pub by_hash-NewestFirst :
    (t : Table) (hash : String)
    → hash ≢ ""
    → NewestFirst (select (satisfies t (condition (some (by_hash hash)))) t.rows)
by_hash-NewestFirst t hash given =
    subst (λ c. NewestFirst (select (satisfies t c) t.rows)) (sym (condition-by_hash hash given))
      (select-NewestFirst hash t.rows t.unique)

module _ (lib : Library) (q : Queries) where
  read_rows-eq :
      (rows : List TxRow) (result : List Tx)
      → read_rows lib q (map some rows) result ≡ some (result ++ map (read_tx lib q) rows)
  unfolding read_rows
  read_rows-eq [] result = ap some (sym (append-nil result))
  read_rows-eq (r ∷ rows) result =
      read_rows-eq rows (result ++ read_tx lib q r ∷ [])
      ∙ ap some (append_assoc result (read_tx lib q r ∷ []) (map (read_tx lib q) rows))

  -- Where the filter's block, if it has one, is looked up and the transactions are counted: the page of the
  -- transactions that satisfy the condition, each as it is read, and the count.
  pub transactions-page :
      (t : Table)
      → Documented q t
      → (limit offset : ℤ) (filter : Option TxsFilter) (block_id : Option ℕ) (n : ℕ)
      → 0 < to_uint limit
      → NewestFirst (select (satisfies t (condition filter)) t.rows)
      → filtered_block lib q filter ≡ some block_id
      → count_or_zero (count_of lib q block_id) ≡ some n
      → transactions lib q limit offset filter
        ≡ some (
          map (read_tx lib q) (
              take
                (to_uint limit)
                (drop (to_uint offset) (select (satisfies t (condition filter)) t.rows))),
          n,
        )
  unfolding transactions read_answer
  transactions-page t promise limit offset filter block_id n positive ordered found counted = rw (
    transactions,
    promise (condition filter) (to_uint limit) (to_uint offset) positive ordered,
    read_rows-eq
        (take (to_uint limit)
          (drop (to_uint offset) (select (satisfies t (condition filter)) t.rows)))
        [],
    found,
    counted,
  )

  -- A count that fails is an error of the whole, whatever was read.
  pub transactions-uncounted :
      (limit offset : ℤ) (filter : Option TxsFilter) (block_id : Option ℕ)
      → filtered_block lib q filter ≡ some block_id
      → count_or_zero (count_of lib q block_id) ≡ none
      → transactions lib q limit offset filter ≡ none
  unfolding transactions
  transactions-uncounted limit offset filter block_id found uncounted =
      elim (Option-cases
        (read_answer lib q (q.select_txes (condition filter) (to_uint limit) (to_uint offset)))) [
          | inl e ↦ rw (transactions, e) refl
          | inr (txs, e) ↦ rw (transactions, e, found, uncounted) refl
        ]

  -- By a hash there is no block to look up, and the count is that of all.
  pub transactions-by_hash :
      (t : Table) (n limit : ℕ) (hash : String)
      → Documented q t
      → q.count_all ≡ row n
      → 0 < limit
      → NewestFirst (select (satisfies t (condition (some (by_hash hash)))) t.rows)
      → transactions lib q (pos limit) (pos 0) (some (by_hash hash))
        ≡ some (
          map
              (read_tx lib q)
              (take limit (select (satisfies t (condition (some (by_hash hash)))) t.rows)),
          n,
        )
  unfolding filtered_block count_of count_or_zero to_uint
  transactions-by_hash t n limit hash promise counted positive ordered =
      transactions-page t promise (pos limit) (pos 0) (some (by_hash hash)) none n positive ordered
        refl (rw counted refl)
