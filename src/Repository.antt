-- ===== src/Repository.antt =====
-- pkg/repository/txs.go: what it computes from the answers of the database; with the totals and the block time of
-- pkg/repository/blocks.go.
pub mod Amount
pub mod SenderReceiver
pub mod Transactions
pub mod Votes
pub mod EventValue
pub mod BlockTime
pub mod Totals
