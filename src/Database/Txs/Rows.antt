-- ===== src/Database/Txs/Rows.antt =====
-- db/db.go, IndexNewBlock: the rows of transactions of different hashes.
use cosmos_indexer.Prelude.{
  ℕ, ◌≡◌, ◌≢◌, refl, sym, ◌∙◌, false, String, List, [], ◌∷◌, none, some, All, arith,
}
use mathlib.Core.Path.{subst}
use cosmos_indexer.Prelude.Text.{str_eq, eq_iff, eq_refl}
use cosmos_indexer.Repository.Transactions.{TxResponse}
use cosmos_indexer.Database.Table.{Documented, insert_or_find}
use cosmos_indexer.Database.Settled.{each, insert_or_find-finds, insert_or_find-Settled}
use cosmos_indexer.Database.Messages.Again.{decide_text}
use cosmos_indexer.Database.Txs.Tables.{AppendedLaws, NamedLaws, TxesLaws, TxColumns}
use cosmos_indexer.Database.Txs.{
  TxInput, FeeColumns, AuthColumns, TxSchema, TxDb, id_of, index_tx_row,
}

pub record TxLaws (c : TxSchema) : Type 0 where
  pub tips : NamedLaws c.tips
  pub fees : AppendedLaws c.fees
  pub auth_infos : AppendedLaws c.auth_infos
  pub tx_responses : Documented c.tx_responses
  pub txes : TxesLaws c.txes

abbrev pub fee_of : TxInput → FeeColumns
fee_of tx = record {
  gas_limit = tx.auth_info.fee.gas_limit;
  payer = tx.auth_info.fee.payer;
  granter = tx.auth_info.fee.granter;
}

-- What the four tables that are written before the transaction's own row hold of it, by the ids in that row.
pub record PartsStored (c : TxSchema) (tx : TxInput) (v : TxColumns) (d : TxDb c) : Type 0 where
  pub auth : AuthColumns
  pub tip : String
  pub response : TxResponse
  pub auth_stored : c.auth_infos.at_id v.auth_info_id d.auth_infos ≡ some auth
  pub fee_stored : c.fees.at_id auth.fee_id d.fees ≡ some (fee_of tx)
  pub tip_stored : c.tips.at_id auth.tip_id d.tips ≡ some tip
  pub tip_own : tx.auth_info.tip.tipper ≢ "" → tip ≡ tx.auth_info.tip.tipper
  pub response_stored :
      c.tx_responses.find tx.tx_response.tx_hash d.tx_responses ≡ some (v.tx_response_id, response)

-- A transaction has the row of an id under its hash, with its code and its block, and the row's parts are stored.
abbrev pub TxStored : (c : TxSchema) → ℕ → TxInput → TxDb c → ℕ → Type 0
TxStored c block_id tx d id =
    (v : TxColumns) × (c.txes.find tx.hash d.txes ≡ some (id, v))
    × (v.code ≡ tx.code)
    × (v.block_id ≡ block_id)
    × PartsStored c tx v d

-- No two of them have one hash.
abbrev pub Distinct : List TxInput → Type 0
Distinct [] = Unit {0}
Distinct (tx ∷ txs) = All (λ t. str_eq t.hash tx.hash ≡ false) txs × Distinct txs

str_eq-ne : (a b : String) → str_eq a b ≡ false → a ≢ b
str_eq-ne a b h e = cc (h, (eq_iff a b).1 e)

str_eq-swap : (a b : String) → str_eq a b ≡ false → str_eq b a ≡ false
str_eq-swap a b h = ground (arith, h, eq_iff a b, eq_iff b a)

id_of-first :
    (hash : String) (id : ℕ) (ids : List (String × ℕ)) → id_of hash ((hash, id) ∷ ids) ≡ id
unfolding id_of
id_of-first hash id ids = rw (eq_refl hash) refl

module _ (c : TxSchema) (laws : TxLaws c) (block_id : ℕ) where
  -- The row that is written for a transaction.
  abbrev columns_of : TxInput → TxDb c → TxColumns
  columns_of tx d = record {
    code = tx.code;
    block_id = block_id;
    auth_info_id =
        (c.auth_infos.append
          (record {
            fee_id = (c.fees.append (fee_of tx) d.fees).1;
            tip_id = (c.tips.take_or_add tx.auth_info.tip.tipper d.tips).1.0;
          })
          d.auth_infos).1;
    tx_response_id =
        (insert_or_find c.tx_responses 0 tx.tx_response.tx_hash tx.tx_response d.tx_responses).1;
  }

  index_tx_row-parts :
      (tx : TxInput) (d : TxDb c)
      → PartsStored c tx (columns_of tx d) (index_tx_row c block_id tx d).0
  unfolding index_tx_row
  index_tx_row-parts tx d =
      let (response, found) =
        insert_or_find-finds c.tx_responses laws.tx_responses decide_text 0 tx.tx_response.tx_hash
          tx.tx_response d.tx_responses in
      record {
        auth = _;
        tip = _;
        response = response;
        auth_stored = laws.auth_infos.appended _ d.auth_infos;
        fee_stored = laws.fees.appended (fee_of tx) d.fees;
        tip_stored = laws.tips.there tx.auth_info.tip.tipper d.tips;
        tip_own = laws.tips.named tx.auth_info.tip.tipper d.tips;
        response_stored = found;
      }

  -- Writing another transaction keeps them.
  PartsStored-stays :
      (tx other : TxInput) (v : TxColumns) (d : TxDb c)
      → PartsStored c tx v d
      → PartsStored c tx v (index_tx_row c block_id other d).0
  unfolding index_tx_row
  PartsStored-stays tx other v d p = record {
    auth = p.auth;
    tip = p.tip;
    response = p.response;
    auth_stored = laws.auth_infos.kept _ v.auth_info_id p.auth d.auth_infos p.auth_stored;
    fee_stored = laws.fees.kept (fee_of other) p.auth.fee_id (fee_of tx) d.fees p.fee_stored;
    tip_stored = laws.tips.kept other.auth_info.tip.tipper p.auth.tip_id p.tip d.tips p.tip_stored;
    tip_own = p.tip_own;
    response_stored =
        (insert_or_find-Settled c.tx_responses laws.tx_responses decide_text 0
            other.tx_response.tx_hash other.tx_response d.tx_responses).0
          tx.tx_response.tx_hash (v.tx_response_id, p.response) p.response_stored;
  }

  TxStored-index_tx_row :
      (tx : TxInput) (d : TxDb c)
      → c.txes.find tx.hash d.txes ≡ none
      → TxStored c block_id tx (index_tx_row c block_id tx d).0 (index_tx_row c block_id tx d).1.1
  unfolding index_tx_row
  TxStored-index_tx_row tx d absent = (
    columns_of tx d,
    laws.txes.created tx.hash (columns_of tx d) d.txes absent,
    refl,
    refl,
    index_tx_row-parts tx d,
  )

  find-index_tx_row :
      (tx : TxInput) (hash : String) (d : TxDb c)
      → str_eq tx.hash hash ≡ false
      → c.txes.find hash (index_tx_row c block_id tx d).0.txes ≡ c.txes.find hash d.txes
  unfolding index_tx_row
  find-index_tx_row tx hash d n =
      laws.txes.others tx.hash hash (columns_of tx d) d.txes (str_eq-ne tx.hash hash n)

  TxStored-each :
      (tx : TxInput) (txs : List TxInput) (d : TxDb c) (id : ℕ)
      → All (λ t. str_eq t.hash tx.hash ≡ false) txs
      → TxStored c block_id tx d id
      → TxStored c block_id tx (each (index_tx_row c block_id) txs d).0 id
  unfolding each
  TxStored-each tx [] d id h stored = stored
  TxStored-each tx (t ∷ txs) d id (n, h) (v, found, code, block, parts) =
      TxStored-each tx txs (index_tx_row c block_id t d).0 id h
        (v, find-index_tx_row t tx.hash d n ∙ found, code, block, PartsStored-stays tx t v d parts)

  hash-index_tx_row : (tx : TxInput) (d : TxDb c) → (index_tx_row c block_id tx d).1.0 ≡ tx.hash
  unfolding index_tx_row
  hash-index_tx_row tx d = refl

  abbrev Absent : TxDb c → List TxInput → Type 0
  Absent d txs = All (λ t. c.txes.find t.hash d.txes ≡ none) txs

  Absent-index_tx_row :
      (tx : TxInput) (txs : List TxInput) (d : TxDb c)
      → All (λ t. str_eq t.hash tx.hash ≡ false) txs
      → Absent d txs
      → Absent (index_tx_row c block_id tx d).0 txs
  Absent-index_tx_row tx [] d n h = tt
  Absent-index_tx_row tx (t ∷ txs) d (m, n) (a, h) = (
    find-index_tx_row tx t.hash d (str_eq-swap t.hash tx.hash m) ∙ a,
    Absent-index_tx_row tx txs d n h,
  )

  -- Under the ids of the rest of the list an id in front changes nothing for the other hashes.
  id_of-skips :
      (tx : TxInput) (id : ℕ) (ids : List (String × ℕ)) (u : TxDb c) (txs : List TxInput)
      → All (λ t. str_eq t.hash tx.hash ≡ false) txs
      → All (λ t. TxStored c block_id t u (id_of t.hash ids)) txs
      → All (λ t. TxStored c block_id t u (id_of t.hash ((tx.hash, id) ∷ ids))) txs
  unfolding id_of
  id_of-skips tx id ids u [] n h = tt
  id_of-skips tx id ids u (t ∷ txs) (m, n) (s, h) =
      (rw (str_eq-swap t.hash tx.hash m) s, id_of-skips tx id ids u txs n h)

  pub each-TxStored :
      (txs : List TxInput) (d : TxDb c)
      → Distinct txs
      → Absent d txs
      → All
          (λ tx.
            TxStored c block_id tx
              (each (index_tx_row c block_id) txs d).0
              (id_of tx.hash (each (index_tx_row c block_id) txs d).1))
          txs
  unfolding each index_tx_row
  each-TxStored [] d n a = tt
  each-TxStored (tx ∷ txs) d (n, distinct) (absent, a) =
      let next = (index_tx_row c block_id tx d).0 in
      let id = (index_tx_row c block_id tx d).1.1 in
      let rest = each (index_tx_row c block_id) txs next in
      (
        subst (TxStored c block_id tx rest.0) (sym (id_of-first tx.hash id rest.1))
            (TxStored-each tx txs next id n (TxStored-index_tx_row tx d absent)),
        id_of-skips tx id rest.1 rest.0 txs n
            (each-TxStored txs next distinct (Absent-index_tx_row tx txs d n a)),
      )
