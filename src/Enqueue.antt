-- ===== src/Enqueue.antt =====
-- core/block_enqueue.go: the values on the block channel, and the failed blocks that are sent
-- again before the main loop starts.
pub mod BlockFile
pub mod Default
pub mod Failed
pub mod MessageType
use cosmos_indexer.Prelude.{
  ℕ, Bool, true, false, List, [], ◌∷◌, map, Option, none, some, ◌==◌, if◌then◌else◌, sort_by,
}
use cosmos_indexer.Config.{IndexBase}

pub record EnqueueData : Type 0 where
  pub height : ℕ
  pub index_transactions : Bool

-- The map `uniqueBlockFailures`, an association list by height, after one more failed block.
unfoldable pub add_failure : ℕ → List EnqueueData → List EnqueueData
add_failure h [] = record { height = h; index_transactions = true } ∷ []
add_failure h (b ∷ bs) =
    if b.height == h then record b { index_transactions = true } ∷ bs else b ∷ add_failure h bs

unfoldable pub unique_failures : List ℕ → List EnqueueData → List EnqueueData
unfolding add_failure
unique_failures [] bs = bs
unique_failures (h ∷ hs) bs = unique_failures hs (add_failure h bs)

-- The values of the map, in the order of their heights. The list of failed event blocks that the
-- source also goes through is never filled there.
unfoldable pub failed_block_enqueue_data : List ℕ → List EnqueueData
unfolding unique_failures
failed_block_enqueue_data failed = sort_by (λ b. b.height) (unique_failures failed [])
