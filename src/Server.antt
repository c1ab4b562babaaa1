-- ===== src/Server.antt =====
-- pkg/server/blocks.go: the handlers of the gRPC server.
pub mod Proto
pub mod Transactions
pub mod Votes
