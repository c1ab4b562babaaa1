-- ===== src/Events.antt =====
-- core/block_events.go: the raw events of a block become rows, and filters choose among them.
pub mod Process
pub mod Rows
pub mod Filtering
pub mod Verdicts
pub mod LastMatch
use cosmos_indexer.Prelude.{String, List}
use cosmos_indexer.Models.{
  Block, BlockEvent, BlockEventAttribute, BlockEventType, BlockEventAttributeKey,
}

-- parsers.BlockEventParsedData: what a custom parser returned for an event, and which parser.
pub record ParsedData {ℓ} (D : Type ℓ) : Type ℓ where
  pub parsed : D
  pub parser : String

pub record BlockEventDbWrapper (D : Type 0) : Type 0 where
  pub block_event : BlockEvent
  pub attributes : List BlockEventAttribute
  pub block_event_parsed_datasets : List (ParsedData D)
