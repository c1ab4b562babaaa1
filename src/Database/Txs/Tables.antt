-- ===== src/Database/Txs/Tables.antt =====
-- The statements that db/db.go sends for the rows of transactions, and what the documentation of the database and
-- of gorm says of them. A statement that fails is left out: it ends the database transaction.
use cosmos_indexer.Prelude.{ℕ, ◌≡◌, ◌≢◌, String, Option, none, some}

-- INSERT … RETURNING id, without a unique key: a new row each time. `at_id` is the row of an id.
pub record Appended (V : Type 0) : Type 1 where
  pub Rows : Type 0
  pub append : V → Rows → Rows × ℕ
  pub at_id : ℕ → Rows → Option V

pub record AppendedLaws {V : Type 0} (t : Appended V) : Type 0 where
  pub appended : (v : V) (s : t.Rows) → t.at_id (t.append v s).1 (t.append v s).0 ≡ some v
  pub kept :
      (v : V) (id : ℕ) (w : V) (s : t.Rows)
      → t.at_id id s ≡ some w
      → t.at_id id (t.append v s).0 ≡ some w

-- Where(&row).FirstOrCreate(&row) for a row with one text. gorm puts only the fields that are not zero into the
-- condition, so that the empty text stands for no condition.
pub record NamedTable : Type 1 where
  pub Rows : Type 0
  pub take_or_add : String → Rows → Rows × (ℕ × String)
  pub at_id : ℕ → Rows → Option String
  pub first : Rows → Option (ℕ × String)

pub record NamedLaws (t : NamedTable) : Type 0 where
  -- The row that comes back is there, and has the text that was asked for.
  pub there :
      (name : String) (s : t.Rows)
      → t.at_id (t.take_or_add name s).1.0 (t.take_or_add name s).0
        ≡ some (t.take_or_add name s).1.1
  pub named : (name : String) (s : t.Rows) → name ≢ "" → (t.take_or_add name s).1.1 ≡ name
  -- Without a condition the first row of the table is taken, whatever its text.
  pub any : (s : t.Rows) (r : ℕ × String) → t.first s ≡ some r → t.take_or_add "" s ≡ (s, r)
  pub kept :
      (name : String) (id : ℕ) (old : String) (s : t.Rows)
      → t.at_id id s ≡ some old
      → t.at_id id (t.take_or_add name s).0 ≡ some old

-- INSERT … ON CONFLICT (hash) DO UPDATE SET code, block_id: a row that is there keeps its id and its other columns.
pub record TxColumns : Type 0 where
  pub code : ℕ
  pub block_id : ℕ
  pub auth_info_id : ℕ
  pub tx_response_id : ℕ

pub record TxesTable : Type 1 where
  pub Rows : Type 0
  pub put : String → TxColumns → Rows → Rows × ℕ
  pub find : String → Rows → Option (ℕ × TxColumns)

pub record TxesLaws (t : TxesTable) : Type 0 where
  pub created :
      (hash : String) (v : TxColumns) (s : t.Rows)
      → t.find hash s ≡ none
      → t.find hash (t.put hash v s).0 ≡ some ((t.put hash v s).1, v)
  pub updated :
      (hash : String) (v : TxColumns) (s : t.Rows) (id : ℕ) (old : TxColumns)
      → t.find hash s ≡ some (id, old)
      → ((t.put hash v s).1 ≡ id)
        × (t.find hash (t.put hash v s).0
            ≡ some (id, record old { code = v.code; block_id = v.block_id }))
  pub others :
      (hash other : String) (v : TxColumns) (s : t.Rows)
      → hash ≢ other
      → t.find other (t.put hash v s).0 ≡ t.find other s
