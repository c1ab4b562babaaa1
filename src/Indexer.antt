-- ===== src/Indexer.antt =====
-- cmd/index.go: the command that ties the parts together.
pub mod Chunks
pub mod Start
pub mod Wire
pub mod Process
pub mod Pipeline
pub mod Updates
pub mod Aggregate
