-- ===== src/Executing.antt =====
-- The block executor of block/internal/executing/executor.go and pending.go: what it keeps, what it
-- is set up with, and what one call of ProduceBlock sees of the rest of the node.
pub mod Retry
pub mod Pending
pub mod Create
pub mod Produce
pub mod TestData
mod Tests
use chain_sdk.Base.{ℕ, Bool, Option, List, Bytes}
use chain_sdk.Types.Header.{Header}
use chain_sdk.Types.Chain.{State, Tracking}
use chain_sdk.Store.{Db, Faults, Codec}

pub record Genesis : Type 0 where
  pub chain_id : Bytes
  pub initial_height : ℕ
  pub start_nanos : ℕ
  pub proposer_address : Bytes

-- `commitment` is DACommitment of a block's transactions, and `empty_txs_hash` is
-- common.DataHashForEmptyTxs.
pub record Setup : Type 0 where
  pub codec : Codec
  pub hash : Header → Bytes
  pub commitment : List Bytes → Bytes
  pub empty_txs_hash : Bytes
  pub genesis : Genesis
  pub max_pending : ℕ
  pub based_sequencer : Bool
  pub has_signer : Bool

-- lastBlockInfo, without the data's hash, which goes only into the data's metadata.
pub record LastBlockInfo : Type 0 where
  pub header_hash : Bytes
  pub signature : Bytes

pub record Executor : Type 0 where
  pub db : Db
  pub last_state : State
  pub last_info : Option LastBlockInfo
  pub has_pending_block : Bool
  pub pending_check_counter : ℕ
  pub tracking : Tracking

pub record BatchData : Type 0 where
  pub txs : List Bytes
  pub nanos : ℕ

-- GetNextBatch of the sequencer: an error, a response without a batch, or a batch.
pub data NextBatch : Type 0 where
  batch_error no_batch : NextBatch
  got_batch : BatchData → NextBatch

-- HasQuorum before and after the block is there, and whether the proposal of the block is accepted.
pub record RaftView : Type 0 where
  pub quorum_before : Bool
  pub quorum_after : Bool
  pub accepts : Bool

-- `early` are the store's failures until the block is there, `late` those after it. `execute` is
-- ExecuteTxs, by transactions, height, time, last app hash and attempt, and `stopped` whether the
-- context ends while it waits after an attempt. `none` is an error.
pub record Env : Type 0 where
  pub cancelled : Bool
  pub raft : Option RaftView
  pub pending_headers : ℕ
  pub pending_data_count : ℕ
  pub next_batch : NextBatch
  pub early : Faults
  pub late : Faults
  pub signer_ready : Bool
  pub execute : List Bytes → ℕ → ℕ → Bytes → ℕ → Option Bytes
  pub stopped : ℕ → Bool
  pub sequencer_da_height : ℕ
  pub sign : Header → Option Bytes
  pub sets_final : Bool

pub data Reply : Type 0 where
  context_cancelled no_quorum pending_limit pending_failed without_batch retrieve_failed : Reply
  create_failed save_pending_failed apply_failed sign_failed invalid_block store_failed : Reply
  proposal_failed commit_failed set_final_failed produced : Reply
