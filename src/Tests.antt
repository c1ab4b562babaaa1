-- ===== src/Tests.antt =====
-- Concrete inputs at which the theorems with hypotheses apply.
mod Blocks
mod Nodes
mod Logs
mod Transactions
mod Pipeline
mod Database
mod Indexer
mod Server
mod TxTables
mod Totals
