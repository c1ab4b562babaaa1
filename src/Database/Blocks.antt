-- ===== src/Database/Blocks.antt =====
-- db/db.go, the part of IndexNewBlock before the transactions, GetBlockByHeight; db/events.go,
-- IndexBlockEvents. A statement that fails ends the process after one more attempt, and is left out. So
-- are the tables of addresses and signatures.
use cosmos_indexer.Prelude.{
  ℕ, Bool, true, false, not, ◌&&◌, ◌||◌, ◌==◌, List, [], ◌∷◌, if◌then◌else◌, select,
}
use cosmos_indexer.Models.{Block}
use cosmos_indexer.Database.Queries.{zero_time}

-- A row of the table of blocks.
pub record BlockRow : Type 0 where
  pub block : Block
  pub block_events_indexed : Bool

-- `Assign` sets the columns that are not zero values.
abbrev pub assign_time : ℕ → ℕ → ℕ
assign_time new old = if new == zero_time then old else new

-- The condition of `Where`: the height and the chain.
unfoldable pub same_block : Block → BlockRow → Bool
same_block b row = row.block.height == b.height && row.block.chain_id == b.chain_id

-- `FirstOrCreate`: the first row of the block is changed, or a new one is added.
unfoldable pub first_or_create :
    Block → (BlockRow → BlockRow) → BlockRow → List BlockRow → List BlockRow
unfolding same_block
first_or_create b change new [] = new ∷ []
first_or_create b change new (row ∷ rows) =
    let rest = first_or_create b change new rows in
    if same_block b row then change row ∷ rows else row ∷ rest

-- `DELETE FROM … WHERE height = …`
unfoldable pub delete_height : ℕ → List ℕ → List ℕ
delete_height h hs = select (λ k. not (k == h)) hs

unfoldable pub index_block_row : Block → List BlockRow → List BlockRow
unfolding first_or_create
index_block_row b rows =
    first_or_create b
      (λ row. record row {
        block = record row.block {
          tx_indexed = true;
          time_stamp = assign_time b.time_stamp row.block.time_stamp;
        };
      })
      (record {
        block = record b { tx_indexed = true; signatures = [] };
        block_events_indexed = false;
      })
      rows

unfoldable pub index_block_events_row : Block → List BlockRow → List BlockRow
unfolding first_or_create
index_block_events_row b rows =
    first_or_create b
      (λ row. record row {
        block = record row.block {
          time_stamp = assign_time b.time_stamp row.block.time_stamp;
          proposer_cons_address = b.proposer_cons_address;
        };
        block_events_indexed = true;
      })
      (record { block = record b { signatures = [] }; block_events_indexed = true }) rows

-- The condition of `GetBlockByHeight`: the height, with transactions and a time, of any chain.
unfoldable pub row_found : ℕ → BlockRow → Bool
row_found h row =
    row.block.height == h && row.block.tx_indexed && not (row.block.time_stamp == zero_time)

unfoldable pub get_block_by_height : ℕ → List BlockRow → Bool
unfolding row_found
get_block_by_height h [] = false
get_block_by_height h (row ∷ rows) = row_found h row || get_block_by_height h rows
