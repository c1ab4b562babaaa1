-- ===== src/Rpc.antt =====
-- rpc/blocks.go, clients/chain_rpc.go: queries to the node, with retries and page by page.
pub mod Backoff
pub mod Retry
pub mod Pages
