-- ===== src/Database.antt =====
-- db/db.go: what IndexNewBlock writes, on a database that is a parameter.
pub mod Table
pub mod Settled
pub mod Messages
pub mod Queries
pub mod Blocks
pub mod CustomEvents
pub mod Txs
