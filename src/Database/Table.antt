-- ===== src/Database/Table.antt =====
-- The statements that db/db.go sends for one table with a unique key, and what the database's
-- documentation says of them. A statement that fails is left out.
use cosmos_indexer.Prelude.{ℕ, ◌≡◌, ◌≢◌, Option, none, some}

-- `insert` is INSERT … ON CONFLICT (key) DO NOTHING RETURNING id, which returns no row on a conflict.
-- `find` is SELECT by the key: the row's id and its other columns.
pub record Table (K V : Type 0) : Type 1 where
  pub Rows : Type 0
  pub insert : K → V → Rows → Rows × Option ℕ
  pub find : K → Rows → Option (ℕ × V)

pub record Documented {K V : Type 0} (t : Table K V) : Type 0 where
  -- A new key gets a row, whose id is returned.
  pub inserted :
      (k : K) (v : V) (s : t.Rows)
      → t.find k s ≡ none
      → (id : ℕ) × ((t.insert k v s).1 ≡ some id) × (t.find k (t.insert k v s).0 ≡ some (id, v))
  -- The rows of the other keys stay.
  pub others : (k l : K) (v : V) (s : t.Rows) → k ≢ l → t.find l (t.insert k v s).0 ≡ t.find l s
  -- On a conflict nothing is returned, and the row stays.
  pub conflict :
      (k : K) (v : V) (s : t.Rows) (r : ℕ × V)
      → t.find k s ≡ some r
      → ((t.insert k v s).1 ≡ none) × (t.find k (t.insert k v s).0 ≡ some r)

-- `res := Raw(INSERT …).Scan(&id)`, and `Raw(SELECT id …).Scan(&id)` where no row came back. `Scan`
-- leaves the id, `before`, where the SELECT finds no row.
unfoldable pub insert_or_find : {K V : Type 0} (t : Table K V) → ℕ → K → V → t.Rows → t.Rows × ℕ
insert_or_find t before k v s =
    let (s', returned) = t.insert k v s in
    elim returned [
      | some id ↦ (s', id)
      | none ↦ elim (t.find k s') [ some (id, _) ↦ (s', id) | none ↦ (s', before) ]
    ]
