-- ===== src/Lib.antt =====
-- Models of the rollup node's core: the single sequencer with its write-ahead queue and forced
-- inclusion, the based sequencer, the production of blocks, their validation, their retrieval from
-- the data availability (DA) layer and their syncing, their replay to an execution client, the
-- store they are kept in, submission to the DA layer and the tracking of what it includes, the
-- reaper, the pruner, and the chunks and the Merkle tree of the SDK.
--
-- How the parts interact: transactions reach the sequencer (pkg/sequencers/single/sequencer.go)
-- through the reaper (block/internal/reaping/reaper.go), which submits what the execution client
-- has and was not seen before, and SubmitBatchTxs, which appends a batch to the batch queue
-- (queue.go); the queue writes each batch to a datastore first, under a key that orders it, and
-- reloads it after a restart. GetNextBatch takes the forced transactions of a DA epoch from the
-- forced inclusion retriever (block/internal/da/forced_inclusion_retriever.go), whose epochs are
-- those of types/epoch.go, adds a batch of the queue, has the execution layer filter them, and
-- saves its place as a checkpoint (pkg/sequencers/common/checkpoint.go). The based sequencer
-- (pkg/sequencers/based/sequencer.go) takes its transactions from the DA epochs only. Blocks are
-- validated by types/header.go, types/signed_header.go, types/data.go and types/state.go. The
-- block executor (block/internal/executing/executor.go) takes a batch of the sequencer, saves the
-- block it makes of it as pending, executes it, signs it, and commits it with the next state in
-- one batch of the store (pkg/store). At start-up a client that is behind gets the missing blocks
-- of the store (block/internal/common/replay.go). The DA retriever
-- (block/internal/syncing/da_retriever.go) decodes the blobs of a DA height and matches headers
-- with data; a full node's syncer (block/internal/syncing/syncer.go) validates each block that the
-- DA layer or the network brings, checks that the forced transactions are in, executes it and
-- commits it the same way. The headers and the data that wait for their submission are those above
-- the last submitted height (block/internal/cache/pending_base.go). Headers and data are submitted
-- by block/internal/submitting, whose inclusion loop moves the DA included height over the blocks
-- that the cache (block/internal/cache) knows to be on the DA layer; a rollback of the store moves
-- it back. Old blocks are pruned by block/internal/pruner.
--
-- Files and what they model:
--   Base        shared names, lists, bytes and 64-bit words over the native numbers.
--   Epoch       CalculateEpochNumber and CalculateEpochBoundaries of types/epoch.go; Bounds has
--               the theorems.
--   Da          ForcedInclusion is RetrieveForcedIncludedTxs: `retrieve_forced_included_txs`, with
--               the loop over the cache as `from_cache`, the one over the DA layer as
--               `fetch_missing` and the one that collects the event as `process`. Epochs has the
--               theorems.
--   Sequencer   Wal is the interface to the datastore and the encoding of a batch; Key is
--               seqToKey; Queue is BatchQueue, one function for each method, with Load's loops as
--               `load_entries` and `migrate`; Queue.Fifo, Queue.Deque, Queue.Durable and
--               Queue.Recovery have its theorems. Checkpoint is CheckpointStore. Filter has the
--               loops of GetNextBatch over the filter's statuses. Single is the Sequencer:
--               `get_next_batch` is GetNextBatch, composed of its parts in the order of the code;
--               Single.Progress, Single.CatchUps and Single.Timestamps have the theorems. Based is
--               the based sequencer, with the same cut of its GetNextBatch; Based.Calls and
--               Based.Heights have the theorems. TestData has concrete parameters for the tests.
--   Store       the keys of pkg/store as a record, its getters, and the batch of batch.go as an
--               optional list of writes that `commit` applies together. Saved is the batch with
--               which a block is committed; Rollback and Prune are those functions of store.go,
--               and Rollback.Bounds has the theorems on the former. TestCodec is an encoding for
--               tests.
--   Cache       Cache of generic_cache.go, its four maps as functions; Snapshot is its snapshot.
--               Included has lemmas on it. Pending is pending_base.go with the data's
--               advancePastEmptyData; Pending.Listing and Pending.Progress have the theorems.
--   Executing   the Executor, its parameters (Setup) and what the parts it calls answer (Env).
--               Retry is executeTxsWithRetry, Pending is pending.go, Create has CreateBlock,
--               ApplyBlock and signHeader, Produce is ProduceBlock, cut at its calls.
--               Create.Accepted, Produce.Commits and Produce.Consistent have the theorems.
--   Replay      SyncToHeight is `sync_to_height` and replayBlock `replay_block`, with the calls of
--               the client as a list; Blocks, Behind and Ends have the theorems.
--   Syncing     Sync is the Syncer with TrySyncNextBlock, ApplyBlock and ValidateBlock;
--               Sync.Events is processHeightEvent; Forced is VerifyForcedInclusionTxs with its
--               records of seen transactions; Priority is the queue of heights of da_retriever.go,
--               and Retriever its decoding and matching of blobs with the checks of assert.go,
--               where `none` of `process_blobs` is a panic; Retriever.Fetch is RetrieveFromDA.
--               Retriever.Decoding, Retriever.Matching, Retriever.Blobs, Retriever.Pinned and
--               Retriever.Panics have the theorems on it. Sync.Steps, Sync.Events.Order,
--               Forced.Verdicts, Forced.Ends, Forced.Pruned and Priority.Sorted have the theorems.
--   Submitting  Batching is batching_strategy.go; Retry, Limit and Submit are the retry policy,
--               limitBatchBySize and submitToDA of da_submitter.go, whose slices are an array and
--               a length; Submit.Prefixes and Submit.Delivery have the theorems on it. Inclusion
--               is processDAInclusionLoop of submitter.go: `pass` is one round of its inner loop
--               and `tick` what one tick of its timer runs; Inclusion.Steps and Inclusion.Ticks
--               have the theorems.
--   Reaping     SubmitTxs of the reaper, with the seen transactions of the cache's manager and
--               their clean-up, and the backoff of its loop; Once and CleanUp have the theorems.
--   Types       Header is Header and SignedHeader with ValidateBasic and ValidateBasicWithData;
--               Chain is State, NextState, AssertValidSequence, AssertValidForNextState and
--               Validate; Chain.Accepted and Chain.Runs have the theorems.
--   Pruner      one tick of pruneBlocks and of pruneMetadata, as the calls they make; Retention
--               has the theorems.
--   Chunk       Split and Reassemble of apps/cosmos-exec/sdk/cosmoswasm/internal/chunk/chunk.go;
--               RoundTrip has the theorems.
--   Merkle      ComputeRoot, BuildProof and Verify of the same SDK's internal/merkle/merkle.go;
--               Proofs has the theorems.
-- A module named Tests has concrete inputs.
--
-- State is passed explicitly: each method takes the component's record and returns the new one
-- with its result. Errors are values: an Option, where `none` is the error, or a data type of the
-- outcomes. A uint64 is a native number, with its wrap-around written out where the code adds or
-- subtracts; times and durations are natural numbers of nanoseconds. What the code asks of others
-- (the datastore, the DA client, the executor, hashes, encodings, keys and the clock) is a
-- parameter: a record of answers, with the documented laws as fields.
--
-- Bounds: submitToDA's loop is structural on the attempts that are left, MaxAttempts at first,
-- since each round adds one to the attempt. The loops of the pruner and of the retriever are
-- structural on the number of heights, which is exact unless the last height is 2^64 - 1. The loop
-- of executeTxsWithRetry makes five attempts at most, so its model is structural on those that are
-- left. The DA inclusion loop is on fuel, and `tick-some` shows how much is enough; so is the loop
-- over the epochs of VerifyForcedInclusionTxs, which starts with one more than the DA height, and
-- `verify-ends` shows that this is enough while the heights leave room for five epochs below 2^64,
-- and so is the replay's, which `sync_to_height-ends` is about. The rounds of the Merkle tree are
-- as many as it has leaves, which `build_path-climbs` shows to be enough. The LRU maps of the
-- cache are taken below their capacity, but for the pending items and the reaper's seen hashes,
-- where a predicate says what an eviction leaves. The loop of splitBytes has as many rounds as the
-- blob has bytes, which is enough since each round takes a byte at least.
--
-- Not modelled: logs, metrics, tracing and locks (every method of the queue holds its mutex from
-- start to end); the loops, workers and start-up of the executor and the syncer, with the raft
-- recovery; the start-up and the store of the cache's manager; the DA client and its prefetcher;
-- the network; the go-header adapter and the cached store; the RPC services; the node's assembly;
-- and the applications but for the chunks and the Merkle tree. VerifyBatch and NewSequencer of the
-- sequencer, SubmitHeaders and SubmitData of the submitter, the marshalling of pending items, and
-- the tickers of the pruner and the reaper are also left out. Of a block, the version and the hash
-- of the previous data are not modelled: no check that is modelled reads them.
pub mod Base
pub mod Epoch
pub mod Da
pub mod Sequencer
pub mod Types
pub mod Store
pub mod Cache
pub mod Executing
pub mod Replay
pub mod Syncing
pub mod Submitting
pub mod Reaping
pub mod Pruner
pub mod Chunk
pub mod Merkle
