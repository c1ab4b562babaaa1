-- ===== src/Indexer/Process.antt =====
-- core/processor.go, ProcessBlock; cmd/index.go, processBlocks and toBlockInfo: what a received block
-- becomes. The transaction parser, the custom event parsers, the regular expressions, and the node's
-- encodings are parameters. A panic of a parser or a filter is one of their errors. Left out are
-- HandleFailedBlock, which logs, and publishing on redis, whose errors are logged.
pub mod Records
use cosmos_indexer.Prelude.{
  ℕ, String, Bool, true, false, not, ◌&&◌, List, [], ◌∷◌, ◌++◌, Option, none, some, if◌then◌else◌,
  length, ltb, Result, ok, err,
}
use cosmos_indexer.Models.{Block, BlockSignature}
use cosmos_indexer.Filter.Regexp.{Regexp}
use cosmos_indexer.Filter.MessageType.{FilterError}
use cosmos_indexer.Filter.BlockEvent.{Registry, num_filters}
use cosmos_indexer.Events.{BlockEventDbWrapper}
use cosmos_indexer.Events.Process.{
  AbciEvent, CustomParser, BlockDbWrapper, process_rpc_block_results,
}
use cosmos_indexer.Events.Filtering.{filter_rpc_block_events}
use cosmos_indexer.Worker.{
  FailedTables, IndexerBlockEventData, upsert_failed_block, upsert_failed_event_block,
}

-- The parts of the node's answers that the indexer reads.
pub record CommitSig : Type 0 where
  pub validator_address : List ℕ
  pub signature : List ℕ
  pub timestamp : ℕ

pub record ResultBlock : Type 0 where
  pub height : ℕ
  pub time : ℕ
  pub hash : List ℕ
  pub proposer_address : List ℕ
  pub txs : List (List ℕ)
  pub signatures : List CommitSig

pub record ResultBlockResults (X : Type 0) : Type 0 where
  pub begin_block_events : List AbciEvent
  pub end_block_events : List AbciEvent
  pub txs_results : List X

pub record BlockInfo : Type 0 where
  pub block_height : ℕ
  pub proposed_validator_address : String
  pub total_tx : ℕ
  pub generation_time : ℕ
  pub block_hash : String

unfoldable pub to_block_info : Block → BlockInfo
to_block_info in_ = record {
  block_height = in_.height;
  proposed_validator_address = in_.proposer_cons_address.address;
  total_tx = in_.total_txs;
  generation_time = in_.time_stamp;
  block_hash = in_.block_hash;
}

module _ {E : Type 0} (cons_address : List ℕ → Result E String) (hash_text : List ℕ → String) where
  -- The signatures of the last commit, without those that have no address or one that does not parse.
  unfoldable pub block_signatures : List CommitSig → List BlockSignature
  block_signatures [] = []
  block_signatures (bl ∷ rest) = elim (bl.validator_address) [
    | [] ↦ block_signatures rest
    | _ ∷ _ ↦ elim (cons_address bl.validator_address) [
      | err _ ↦ block_signatures rest
      | ok address ↦
          record { validator_address = address; timestamp = bl.timestamp; signature = bl.signature }
          ∷ block_signatures rest
    ]
  ]

  unfoldable pub process_block : ResultBlock → ℕ → Result E Block
  unfolding block_signatures
  process_block block_data chain_id = elim (cons_address block_data.proposer_address) [
    | err e ↦ err e
    | ok address ↦ ok (record {
      time_stamp = block_data.time;
      height = block_data.height;
      chain_id = chain_id;
      proposer_cons_address = record { address = address };
      tx_indexed = false;
      total_txs = length block_data.txs;
      block_hash = hash_text block_data.hash;
      signatures = block_signatures block_data.signatures;
    })
  ]

-- What the indexer was set up with: the codecs of addresses and hashes, the chain's id, the event parsers
-- and filters, and the transaction parser with its message filters. `T` is the answer to the
-- transaction search, of `tx_count` transactions.
pub record Indexer (r : Regexp) (E D W T X : Type 0) : Type 0 where
  pub cons_address : List ℕ → Result E String
  pub hash_text : List ℕ → String
  pub decode : String → Option String
  pub chain_id : ℕ
  pub begin_parsers : List (String × List (CustomParser D))
  pub end_parsers : List (String × List (CustomParser D))
  pub begin_filters : Option (Registry r)
  pub end_filters : Option (Registry r)
  pub tx_count : T → ℕ
  pub process_rpc_txs : T → Result E (List W)
  pub process_rpc_block_by_height_txs : ResultBlock → ResultBlockResults X → Result E (List W)

-- `dbData`
pub record TxData (W : Type 0) : Type 0 where
  pub tx_db_wrappers : List W
  pub block : Block

-- What was written to the tables of failed blocks, and sent on the three channels, so far.
pub record Sent (D W : Type 0) : Type 0 where
  pub failed : FailedTables
  pub block_events : List (BlockDbWrapper D)
  pub txs : List (TxData W)
  pub blocks : List BlockInfo

module _ {r : Regexp} {E D W T X : Type 0} (idxr : Indexer r E D W T X) where
  unfoldable pub filter_events :
      Option (Registry r)
      → List (BlockEventDbWrapper D)
      → Result FilterError (List (BlockEventDbWrapper D))
  unfolding filter_rpc_block_events num_filters
  filter_events none events = ok events
  filter_events (some g) events =
      if ltb 0 (num_filters r g) then filter_rpc_block_events r D g events else ok events

  unfoldable pub send_block_events : Block → ResultBlockResults X → Sent D W → Sent D W
  unfolding filter_events process_rpc_block_results upsert_failed_event_block
  send_block_events block results s =
      let failing = record s { failed = upsert_failed_event_block block.height s.failed } in
      elim (process_rpc_block_results idxr.decode block results.begin_block_events
        results.end_block_events idxr.begin_parsers idxr.end_parsers) [
          | err _ ↦ failing
          | ok w ↦ elim (filter_events idxr.begin_filters w.begin_block_events) [
            | err _ ↦ failing
            | ok begins ↦ elim (filter_events idxr.end_filters w.end_block_events) [
              | err _ ↦ failing
              | ok ends ↦ record s {
                block_events =
                    s.block_events
                    ++ record w { begin_block_events = begins; end_block_events = ends } ∷ [];
              }
            ]
          ]
        ]

  unfoldable pub parse_txs :
      ResultBlock → Option (ResultBlockResults X) → Option T → Result E (List W)
  parse_txs block_data results none = elim results [
    | none ↦ ok []
    | some res ↦ idxr.process_rpc_block_by_height_txs block_data res
  ]
  parse_txs block_data results (some resp) =
      if ltb 0 (idxr.tx_count resp) then idxr.process_rpc_txs resp else (elim results [
        | none ↦ ok []
        | some res ↦ idxr.process_rpc_block_by_height_txs block_data res
      ])

  unfoldable pub send_txs :
      ResultBlock
      → IndexerBlockEventData (Option ResultBlock) (ResultBlockResults X) T
      → Block
      → Sent D W
      → Sent D W
  unfolding parse_txs upsert_failed_block
  send_txs block_data d block s =
      if d.index_transactions && not d.tx_requests_failed
      then (elim (parse_txs block_data d.block_results_data d.get_txs_response) [
        | err _ ↦ record s { failed = upsert_failed_block block_data.height s.failed }
        | ok wrappers ↦ record s {
          txs = s.txs ++ record { tx_db_wrappers = wrappers; block = block } ∷ [];
        }
      ])
      else s

  -- The loop's body. `none` is the panic of a nil pointer: the block, or the block's results.
  unfoldable pub process_one :
      IndexerBlockEventData (Option ResultBlock) (ResultBlockResults X) T
      → Sent D W
      → Option (Sent D W)
  unfolding process_block send_block_events send_txs to_block_info upsert_failed_block
  process_one d s = elim (d.block_data) [
    | none ↦ none
    | some block_data ↦
        elim (process_block idxr.cons_address idxr.hash_text block_data idxr.chain_id) [
          | err _ ↦ some (record s { failed = upsert_failed_block block_data.height s.failed })
          | ok block ↦ elim (d.block_results_data) [
            | none ↦ none
            | some results ↦
                let s' = send_txs block_data d block (send_block_events block results s) in
                some (record s' { blocks = s'.blocks ++ to_block_info block ∷ [] })
          ]
        ]
  ]

  -- The loop over the channel, to the end of what was received.
  unfoldable pub process_blocks :
      List (IndexerBlockEventData (Option ResultBlock) (ResultBlockResults X) T)
      → Sent D W
      → Option (Sent D W)
  unfolding process_one
  process_blocks [] s = some s
  process_blocks (d ∷ ds) s = elim (process_one d s) [
    | none ↦ none
    | some s' ↦ process_blocks ds s'
  ]
