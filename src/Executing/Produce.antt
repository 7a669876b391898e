-- ===== src/Executing/Produce.antt =====
-- ProduceBlock of block/internal/executing/executor.go.
pub mod Commits
pub mod Consistent
use chain_sdk.Base.{
  ℕ, ◌+◌, ◌%◌, ◌==◌, Bool, true, false, not, ◌||◌, ◌&&◌, Option, none, some, List, [], ltb, leb,
  if◌then◌else◌, Bytes, add_u64,
}
use chain_sdk.Types.Header.{SignedHeader}
use chain_sdk.Types.Chain.{State, Data, Tracking, SequenceError, assert_valid_sequence}
use chain_sdk.Store.{Db, Batch, commit}
use chain_sdk.Store.Saved.{stage_block}
use chain_sdk.Executing.{
  Setup, Executor, Env, Reply, RaftView, NextBatch, batch_error, no_batch, got_batch,
  context_cancelled, no_quorum, pending_limit, pending_failed, without_batch, retrieve_failed,
  create_failed, save_pending_failed, apply_failed, sign_failed, invalid_block, store_failed,
  proposal_failed, commit_failed, set_final_failed, produced,
}
use chain_sdk.Executing.Pending.{
  PendingRead, nothing_pending, unreadable, pending, get_pending_block, save_pending_block,
}
use chain_sdk.Executing.Create.{create_block, apply_block, sign_header}

abbrev pending_check_interval : ℕ
pending_check_interval = 64

pub lacks : Option RaftView → (RaftView → Bool) → Bool
lacks none f = false
lacks (some view) f = not (f view)

-- The state after the block, with the DA height that the sequencer has then.
pub at_da_height : Env → State → State
at_da_height env new_state = record new_state { da_height = env.sequencer_da_height }

pub after_commit : Setup → Env → Executor → SignedHeader → State → Option Db → Executor × Reply
after_commit s env e h new_state none = (e, commit_failed)
after_commit s env e h new_state (some db) =
    let e' = record e {
      db = db;
      has_pending_block = false;
      last_state = new_state;
      last_info =
          some (record { header_hash = new_state.last_header_hash; signature = h.signature });
    } in
    (e', if s.based_sequencer && not env.sets_final then set_final_failed else produced)

-- The proposal to the cluster stands between the staging of the batch and its commit.
pub propose : Setup → Env → Executor → SignedHeader → State → Batch → Executor × Reply
unfolding after_commit lacks commit
propose s env e h new_state none = (e, store_failed)
propose s env e h new_state (some ws) =
    if lacks env.raft (λ view. view.accepts)
    then (e, proposal_failed)
    else after_commit s env e h new_state (commit env.late e.db (some ws))

pub store_block :
    Setup
    → Env
    → Executor
    → SignedHeader
    → Data
    → State
    → Tracking × Option SequenceError
    → Executor × Reply
unfolding propose stage_block
store_block s env e h d new_state (t, some err) = (record e { tracking = t }, invalid_block)
store_block s env e h d new_state (t, none) =
    let e' = record e { tracking = t } in
    propose s env e' h new_state (
      stage_block s.codec env.late e.db h d h.signature (add_u64 e.last_state.last_block_height 1)
        new_state)

pub sign_and_store :
    Setup → Env → Executor → SignedHeader → Data → State → Option Bytes → Executor × Reply
unfolding store_block assert_valid_sequence
sign_and_store s env e h d new_state none = (e, sign_failed)
sign_and_store s env e h d new_state (some signature) =
    let signed = record h { signature = signature } in
    store_block s env e signed d new_state (assert_valid_sequence e.tracking e.last_state signed)

pub on_applied : Setup → Env → Executor → SignedHeader → Data → Option State → Executor × Reply
unfolding sign_and_store at_da_height sign_header
on_applied s env e h d none = (e, apply_failed)
on_applied s env e h d (some new_state) =
    sign_and_store s env e h d (at_da_height env new_state) (sign_header s env h.header)

-- From the block on.
pub finish_block : Setup → Env → Executor → SignedHeader → Data → Executor × Reply
unfolding on_applied apply_block lacks
finish_block s env e h d =
    if lacks env.raft (λ view. view.quorum_after)
    then (e, no_quorum)
    else on_applied s env e h d (apply_block s env e h.header d)

pub save_and_finish : Setup → Env → Executor → SignedHeader → Data → Option Db → Executor × Reply
unfolding finish_block
save_and_finish s env e h d none = (e, save_pending_failed)
save_and_finish s env e h d (some db) = finish_block s env (record e { db = db }) h d

pub on_created : Setup → Env → Executor → Option (SignedHeader × Data) → Executor × Reply
unfolding save_and_finish save_pending_block
on_created s env e none = (e, create_failed)
on_created s env e (some (h, d)) =
    save_and_finish s env e h d (save_pending_block s.codec env.early e.db h d)

-- A new block from the sequencer's batch, which may have no transactions.
pub new_block : Setup → Env → Executor → ℕ → NextBatch → Executor × Reply
unfolding on_created create_block
new_block s env e height batch_error = (e, retrieve_failed)
new_block s env e height no_batch = (e, without_batch)
new_block s env e height (got_batch batch) = on_created s env e (create_block s env e height batch)

pub from_pending : Setup → Env → Executor → ℕ → PendingRead → Executor × Reply
unfolding new_block finish_block
from_pending s env e height unreadable = (e, pending_failed)
from_pending s env e height nothing_pending = new_block s env e height env.next_batch
from_pending s env e height (pending h d) =
    if h.height == height then finish_block s env e h d else new_block s env e height env.next_batch

pub choose_block : Setup → Env → Executor → ℕ → Executor × Reply
unfolding from_pending get_pending_block
choose_block s env e height =
    if e.has_pending_block
    then from_pending s env e height (get_pending_block s.codec env.early e.db)
    else new_block s env e height env.next_batch

-- The counter of the calls, and whether the limit of pending headers and data is reached, which is
-- looked at in every call or in every 64th.
pub count_call : Setup → Executor → Executor
count_call s e =
    if ltb 0 s.max_pending
    then record e { pending_check_counter = add_u64 e.pending_check_counter 1 }
    else e

pub limit_reached : Setup → Env → Executor → Bool
limit_reached s env e =
    ltb 0 s.max_pending
    && (leb s.max_pending pending_check_interval
        || e.pending_check_counter % pending_check_interval == 0)
    && (leb s.max_pending env.pending_headers || leb s.max_pending env.pending_data_count)

pub within_limit : Setup → Env → Executor → Executor × Reply
unfolding limit_reached choose_block
within_limit s env e =
    if limit_reached s env e
    then (e, pending_limit)
    else choose_block s env e (add_u64 e.last_state.last_block_height 1)

unfoldable pub produce_block : Setup → Env → Executor → Executor × Reply
unfolding within_limit count_call lacks
produce_block s env e =
    if env.cancelled
    then (e, context_cancelled)
    else if lacks env.raft (λ view. view.quorum_before)
    then (e, no_quorum)
    else within_limit s env (count_call s e)
