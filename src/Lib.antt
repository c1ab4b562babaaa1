-- ===== src/Lib.antt =====
-- The cosmos-indexer: a Go program that walks the blocks of a Cosmos chain through the RPC interface of a
-- node, turns blocks, block events and transactions into rows of a database, and serves them.
--
-- Parts, and how they meet. The indexer command (cmd/index.go) shares the configured blocks out among
-- goroutines. Each runs an enqueue function (core/block_enqueue.go) that sends block heights on a
-- channel. Workers (core/rpc_worker.go) take them and fetch the block from the node with retries
-- (rpc/blocks.go, clients/chain_rpc.go). A fetched block goes over a redis topic to the processor
-- (cmd/index.go, runPipe and processBlocks). There its events are processed and filtered
-- (core/block_events.go, filter/), its transactions are parsed (core/tx/, cosmos/modules/tx/), and both go
-- on channels to the database writer (cmd/index.go, doDBUpdates; db/). The newest rows are kept in redis
-- (pkg/repository/cache.go).
--
-- Which file is about which code:
--   Models, Config              db/models/block.go, config/index_config.go: the records
--   Config/Validate             config/index_config.go and common_configs.go: Validate
--   Config/FilterFile           config/filter_config.go: ParseLifecycleConfig,
--                               ParseJSONFilterConfigFromType, ParseTXMessageTypeConfig
--   Enqueue, Enqueue/Failed     core/block_enqueue.go: EnqueueData, the failed blocks
--   Enqueue/BlockFile           GenerateBlockFileEnqueueFunction; util/utils.go: duplicates
--   Enqueue/Default             GenerateDefaultEnqueueFunction as a state machine; its children hold
--                               the specification (Coverage), the returns (Exit) and progress (Liveness)
--   Enqueue/MessageType         GenerateMsgTypeEnqueueFunction, with its query over lists of rows
--   Worker                      core/rpc_worker.go: FetchBlock; db/db.go: the tables of failed blocks
--   Rpc/Backoff, Rpc/Retry      rpc/blocks.go: GetBlockResultWithRetry, and its equal in
--                               clients/chain_rpc.go, GetLatestBlockHeightWithRetry
--   Rpc/Pages                   clients/chain_rpc.go: GetTxsByBlockHeight
--   Indexer/Chunks              cmd/index.go: calculateGoroutines, the ranges of runIndexerAsFetcher
--   Indexer/Start               cmd/index.go: GetIndexerStartingHeight
--   Indexer/Wire                core/rpc_worker.go: MarshalJSON, UnmarshalJSON; cmd/index.go: both ends of
--                               the topic in runPipe
--   Indexer/Process             core/processor.go: ProcessBlock; cmd/index.go: processBlocks
--   Indexer/Pipeline            cmd/index.go: runPipe, with the worker before and the processor after it;
--                               Losses and BlockEvents say what comes out
--   Indexer/Updates             cmd/index.go: doDBUpdates, as runs over two channels; its loop (Loop)
--   Indexer/Aggregate           cmd/index.go: saveAggregated
--   Database/Table, Settled     the statements of db/db.go on a table with a key, and what repeats
--   Database/Messages           db/db.go, IndexNewBlock: messages, message events, attributes
--   Database/Txs                db/db.go, IndexNewBlock: the rows of transactions (Rows, Stored)
--   Database/CustomEvents       db/events.go: IndexCustomBlockEvents
--   Database/Blocks, Queries    db/db.go, db/events.go: the row of a block, and which are indexed
--   Filter                      filter/: the filters and their registry
--   Events                      core/block_events.go: ProcessRPCBlockEvents (Process, Rows),
--                               FilterRPCBlockEvents (Filtering, Verdicts, LastMatch)
--   TxLog                       cosmos/modules/tx/logic.go: look-ups (Values), transfers, coins
--   Tx                          core/tx/processor.go: ProcessTx and ProcessMessage (Messages),
--                               ProcessSigners, ProcessFees; core/tx/parser.go: the message loops (Collect),
--                               the row of a transaction (Row)
--   Cache                       pkg/repository/cache.go: the lists of newest transactions and blocks
--   Repository                  pkg/repository/txs.go: ExtractNumber (Amount), GetSenderAndReceiver and
--                               GetSenderAndReceiverV2 after their queries (SenderReceiver), Transactions
--                               (Transactions), GetVotes (Votes), TransactionsByEventValue (EventValue)
--   Service/Txs                 pkg/service/tx.go: GetTxByHash, Transactions, TransactionsByBlock
--   Server                      pkg/server/blocks.go: the messages of a transaction (Proto), Transactions,
--                               TxsByBlock and TxByHash (Transactions), GetVotes (Votes)
--   Consumer                    pkg/consumer: RunBlocks and RunTransactions (Cache), the consumers of the
--                               search index (Search)
--   Uptime                      pkg/repository/blocks.go: UptimeByBlocks
--   Repository/BlockTime        pkg/repository/blocks.go: blockTime, calculateMedian
--   Repository/Totals           pkg/repository/blocks.go, txs.go: what is counted per period
--   Service/Aggregates          pkg/service/aggregates.go, with Cache/Totals (pkg/repository/cache.go) and the
--                               handler CacheAggregated of pkg/server/blocks.go
--   Prelude                     what the modules share: tests, lists, sorting, texts, results
--   Tests                       concrete inputs
--
-- How state is modelled. The default enqueue function and its channel are a record; `step` is one round
-- of one of its loops, or a worker taking a value, and `run` takes any sequence of steps, so that every
-- interleaving is covered. The node's answers are part of the steps. Go errors are values of `Result`
-- or `Option`; a call that would panic or end the process is an error value, or is left out where the
-- file says so. Heights are native numbers, configured bounds that may be -1 are integers, and the
-- width of `int64` is written out where a product may overflow (Rpc/Backoff). What the topic does with
-- a published block (Indexer/Pipeline), when the context of a redis command is done (Cache/Recent), and which
-- queries of the totals fail (Repository/Totals) are arguments, so that a theorem holds for each. On fuel run the retry loop,
-- whose theorems take any fuel above the number of the calls made; the database writer's loop, for which
-- the rounds that are enough are stated; and the digits and the replacement of Repository/Amount, which get
-- one more than the number and the length of the text. A table of the database is its operations with
-- their documented behaviour (Database/Table), or a list of rows where the code's query is modelled.
--
-- Parameters: regular expressions (Filter/Regexp), redis (Cache/Redis, Cache/Totals, with the documented behaviour of
-- its commands as hypotheses), JSON, base64 and the codecs of the topic (Indexer/Wire, as inverses, which
-- send nil to the empty value), the statements on a table (Database/Table,
-- Database/Txs/Tables), custom parsers, and the
-- answers of the node. On the side that serves, the answers of the database are a record of functions
-- (Repository/Transactions), with the documented behaviour of the query for transactions as a hypothesis, its order only
-- where no two timestamps are equal; the
-- collection of the search index is one with its upsert (Consumer/Search).
--
-- Not modelled: statements of db/ that fail, the addresses and denominations of IndexNewBlock, the other SQL
-- through gorm and pgx (db/, pkg/repository/), generated code (proto/), the handlers and services that pass
-- a call on (pkg/server, pkg/service), the tickers (pkg/consumer/aggregates.go), decoding a block's
-- transactions with the SDK (core/), logging, flags, metrics and migrations.
pub mod Cache
pub mod Config
pub mod Consumer
pub mod Database
pub mod Enqueue
pub mod Events
pub mod Filter
pub mod Indexer
pub mod Models
pub mod Prelude
pub mod Repository
pub mod Rpc
pub mod Server
pub mod Service
pub mod Tests
pub mod Tx
pub mod TxLog
pub mod Uptime
pub mod Worker
