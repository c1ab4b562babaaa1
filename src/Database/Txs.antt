-- ===== src/Database/Txs.antt =====
-- db/db.go, IndexNewBlock: the loop that writes the rows of the transactions of a block, and the messages under
-- their ids. The addresses of signers and of fees, their denominations, the infos of the signers and the raw log of a
-- response are left out. The ids that the database gives start at 1, so that the code's tests for an id of 0 never
-- hold. Go goes through the map of unique transactions in any order; here it is that of the list.
pub mod Tables
pub mod Rows
pub mod Stored
use cosmos_indexer.Prelude.{
  ℕ, Bool, true, false, String, List, [], ◌∷◌, ◌++◌, map, Option, none, some, if◌then◌else◌,
}
use cosmos_indexer.Prelude.Int.{ℤ}
use cosmos_indexer.Prelude.Text.{str_eq}
use cosmos_indexer.Tx.{MessageDbWrapper}
use cosmos_indexer.Repository.Transactions.{AuthInfo, TxResponse}
use cosmos_indexer.Database.Table.{Table, insert_or_find}
use cosmos_indexer.Database.Settled.{Action, ◌>>=◌, return, each}
use cosmos_indexer.Database.Messages.{Schema, Db, Known, index_messages}
use cosmos_indexer.Database.Txs.Tables.{Appended, NamedTable, TxesTable, TxColumns}

-- The columns of a transaction that its rows are made of.
pub record TxInput : Type 0 where
  pub hash : String
  pub code : ℕ
  pub auth_info : AuthInfo
  pub tx_response : TxResponse

pub record TxDbInput : Type 0 where
  pub tx : TxInput
  pub messages : List MessageDbWrapper

pub record FeeColumns : Type 0 where
  pub gas_limit : ℕ
  pub payer : String
  pub granter : String

pub record AuthColumns : Type 0 where
  pub fee_id : ℕ
  pub tip_id : ℕ

-- The row of auth info has a new fee's id, so that FirstOrCreate creates it.
pub record TxSchema : Type 1 where
  pub tips : NamedTable
  pub fees : Appended FeeColumns
  pub auth_infos : Appended AuthColumns
  pub tx_responses : Table String TxResponse
  pub txes : TxesTable

pub record TxDb (c : TxSchema) : Type 0 where
  pub tips : c.tips.Rows
  pub fees : c.fees.Rows
  pub auth_infos : c.auth_infos.Rows
  pub tx_responses : c.tx_responses.Rows
  pub txes : c.txes.Rows

-- `uniqueTxes`: of the transactions with one hash the last.
unfoldable pub hash_in : String → List TxDbInput → Bool
hash_in hash [] = false
hash_in hash (x ∷ xs) = if str_eq x.tx.hash hash then true else hash_in hash xs

unfoldable pub unique_txes : List TxDbInput → List TxInput
unfolding hash_in
unique_txes [] = []
unique_txes (x ∷ xs) =
    let rest = unique_txes xs in if hash_in x.tx.hash xs then rest else x.tx ∷ rest

-- `uniqueTxes[hash].ID` when the rows are written; 0 where the hash is missing.
unfoldable pub id_of : String → List (String × ℕ) → ℕ
id_of hash [] = 0
id_of hash ((h, id) ∷ ids) = if str_eq h hash then id else id_of hash ids

module _ (c : TxSchema) where
  unfoldable pub index_tip : String → Action (TxDb c) ℕ
  index_tip tipper d =
      let (rows, tip) = c.tips.take_or_add tipper d.tips in (record d { tips = rows }, tip.0)

  unfoldable pub index_fee : FeeColumns → Action (TxDb c) ℕ
  index_fee fee d = let (rows, id) = c.fees.append fee d.fees in (record d { fees = rows }, id)

  unfoldable pub index_auth_info : AuthColumns → Action (TxDb c) ℕ
  index_auth_info auth d =
      let (rows, id) = c.auth_infos.append auth d.auth_infos in (record d { auth_infos = rows }, id)

  unfoldable pub index_response : TxResponse → Action (TxDb c) ℕ
  unfolding insert_or_find
  index_response resp d =
      let (rows, id) = insert_or_find c.tx_responses 0 resp.tx_hash resp d.tx_responses in
      (record d { tx_responses = rows }, id)

  unfoldable pub put_tx : String → TxColumns → Action (TxDb c) (String × ℕ)
  put_tx hash v d =
      let (rows, id) = c.txes.put hash v d.txes in (record d { txes = rows }, (hash, id))

  -- One transaction: its tip, fee, auth info and response, and its own row.
  unfoldable pub index_tx_row : ℕ → TxInput → Action (TxDb c) (String × ℕ)
  unfolding index_tip index_fee index_auth_info index_response put_tx
  index_tx_row block_id tx = index_tip tx.auth_info.tip.tipper >>= λ tip_id.
      index_fee (record {
        gas_limit = tx.auth_info.fee.gas_limit;
        payer = tx.auth_info.fee.payer;
        granter = tx.auth_info.fee.granter;
      })
      >>= λ fee_id.
          index_auth_info (record { fee_id = fee_id; tip_id = tip_id }) >>= λ auth_info_id.
          index_response tx.tx_response >>= λ tx_response_id. put_tx tx.hash (record {
            code = tx.code;
            block_id = block_id;
            auth_info_id = auth_info_id;
            tx_response_id = tx_response_id;
          })

  unfoldable pub index_tx_rows : ℕ → List TxDbInput → Action (TxDb c) (List (String × ℕ))
  unfolding index_tx_row unique_txes each
  index_tx_rows block_id txs = each (index_tx_row block_id) (unique_txes txs)

  -- Each transaction with the id of its hash.
  unfoldable pub with_ids : List (String × ℕ) → List TxDbInput → List (ℕ × List MessageDbWrapper)
  unfolding id_of
  with_ids ids [] = []
  with_ids ids (x ∷ xs) = (id_of x.tx.hash ids, x.messages) ∷ with_ids ids xs

  module _ (m : Schema) (known : Known) where
    -- The rows of the transactions, then the messages under their ids.
    unfoldable pub index_block_txs :
        Bool → ℕ → List TxDbInput → TxDb c × Db m → (TxDb c × Db m) × List (String × ℕ)
    unfolding index_tx_rows with_ids index_messages
    index_block_txs raw block_id txs (d, e) =
        let (d', ids) = index_tx_rows block_id txs d in
        ((d', (index_messages m known raw (with_ids ids txs) e).0), ids)
