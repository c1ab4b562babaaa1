-- ===== src/Indexer/Pipeline.antt =====
-- cmd/index.go, runPipe, with core/rpc_worker.go, Worker: a block goes from the queue through the fetch and
-- the redis topic to the processor. What the topic does with each block is part of the queue.
pub mod Losses
pub mod BlockEvents
use cosmos_indexer.Prelude.{ℕ, List, [], ◌∷◌, Option, none, some, Result, ok, err}
use cosmos_indexer.Prelude.Int.{ℤ}
use cosmos_indexer.Enqueue.{EnqueueData}
use cosmos_indexer.Filter.Regexp.{Regexp}
use cosmos_indexer.Worker.{RetryConfig, IndexerBlockEventData, fetch_block}
use cosmos_indexer.Indexer.Wire.{Codecs, WireError, codec, type_assertion, publish, receive}
use cosmos_indexer.Indexer.Process.{ResultBlock, ResultBlockResults, Indexer, Sent, process_one}

-- What becomes of a message: redis refuses to publish it; it is published, but reaches no subscriber, which redis does
-- not promise, or ReceiveMessage fails; or it is received.
pub data Delivery : Type 0 where
  publish_fails lost delivered : Delivery

-- The node, as far as a fetch asks it.
pub record Node (T X : Type 0) : Type 0 where
  pub get_block : ℕ → Option ResultBlock
  pub get_txs : ℕ → Option T
  pub get_results : ℕ → ℤ → ℕ → Option (ResultBlockResults X)

module _ {r : Regexp} {E D W T X : Type 0} (node : Node T X) (cfg : Option RetryConfig)
    (c : Codecs E ResultBlock (ResultBlockResults X) T) (idxr : Indexer r E D W T X) where
  -- A fetched block on its way to the processor. A block whose message cannot be built, published or read is logged
  -- and skipped; a failed type assertion panics.
  unfoldable pub pass_on :
      Delivery
      → IndexerBlockEventData ResultBlock (ResultBlockResults X) T
      → Sent D W
      → Option (Sent D W)
  unfolding publish receive process_one
  pass_on topic d s = elim (publish c d) [
    | err _ ↦ some s
    | ok payload ↦ elim topic [
      | publish_fails ↦ some s
      | lost ↦ some s
      | delivered ↦ elim (receive c payload) [
        | err type_assertion ↦ none
        | err (codec _) ↦ some s
        | ok received ↦ process_one idxr received s
      ]
    ]
  ]

  unfoldable pub handle : Delivery → EnqueueData → Sent D W → Option (Sent D W)
  unfolding fetch_block pass_on
  handle topic block s =
      let (fetched, failed) =
        fetch_block node.get_block node.get_txs node.get_results cfg block s.failed in
      let s' = record s { failed = failed } in
      elim fetched [ none ↦ some s' | some d ↦ pass_on topic d s' ]

  -- One worker and one subscriber, to the end of the queue.
  unfoldable pub handle_all : List (EnqueueData × Delivery) → Sent D W → Option (Sent D W)
  unfolding handle
  handle_all [] s = some s
  handle_all ((b, topic) ∷ bs) s = elim (handle topic b s) [
    | none ↦ none
    | some s' ↦ handle_all bs s'
  ]
