-- ===== src/Service.antt =====
-- pkg/service: the functions between the server and the repositories that do more than pass a call on.
pub mod Txs
pub mod Aggregates
