-- ===== src/Syncing/Sync.antt =====
-- TrySyncNextBlock, ValidateBlock and ApplyBlock of block/internal/syncing/syncer.go.
pub mod Steps
pub mod Events
mod Tests
use chain_sdk.Base.{
  ℕ, zero, suc, ◌+◌, ◌==◌, Bool, true, false, not, ◌||◌, ◌&&◌, Option, none, some, List, [], ◌∷◌,
  ltb, leb, if◌then◌else◌, Bytes, bytes_equal, add_u64,
}
use chain_sdk.Types.Header.{Header, SignedHeader, HeaderError, Signing, validate_basic}
use chain_sdk.Types.Chain.{
  State, Data, Tracking, BlockError, next_state, assert_valid_for_next_state,
}
use chain_sdk.Store.{Db, Faults, Codec, commit}
use chain_sdk.Store.Saved.{stage_block}
use chain_sdk.Cache.{Hash, Cache, set_seen, remove_da_included}
use chain_sdk.Executing.Retry.{
  Retried, returned, exhausted, stopped_waiting, fell_through, with_retry,
}
use chain_sdk.Syncing.Forced.{
  Seen, Rules, View, Verdict, passes, fails, out_of_fuel, malicious, verify_forced_inclusion_txs,
}

pub data Source : Type 0 where
  from_da from_p2p from_raft : Source

-- common.DAHeightEvent; the hints are the DA heights of the header and of the data, or 0.
pub record Event : Type 0 where
  pub header : SignedHeader
  pub block_data : Data
  pub da_height : ℕ
  pub source : Source
  pub header_hint : ℕ
  pub data_hint : ℕ

pub record Syncer : Type 0 where
  pub db : Db
  pub last_state : State
  pub tracking : Tracking
  pub seen : Seen
  pub header_cache : Cache (Unit {0})
  pub data_cache : Cache (Unit {0})
  pub pending_events : ℕ → Option Event
  pub priority_heights : List ℕ
  pub da_retriever_height : ℕ
  pub has_critical_error : Bool

-- `signing` is what ValidateBasicWithData has to verify the signature with; `none` is an error.
pub record Env : Type 0 where
  pub codec : Codec
  pub hash : Header → Bytes
  pub commitment : List Bytes → Bytes
  pub empty_txs_hash : Bytes
  pub rules : Rules
  pub forced : View
  pub cancelled : Bool
  pub max_allowed : ℕ
  pub signing : SignedHeader → Data → Signing
  pub execute : List Bytes → ℕ → ℕ → Bytes → ℕ → Option Bytes
  pub stopped : ℕ → Bool
  pub faults : Faults
  pub latest_da_height : Option ℕ

pub data Outcome : Type 0 where
  synced cancelled_before invalid_block invalid_state malicious_proposer failed : Outcome

-- The block is no longer taken for DA included.
pub drop_included : Env → Syncer → Event → Syncer
unfolding remove_da_included
drop_included env σ ev = record σ {
  header_cache = remove_da_included σ.header_cache (env.hash ev.header.header);
  data_cache = remove_da_included σ.data_cache (env.commitment ev.block_data.txs);
}

-- SetHeaderSeen, and SetDataSeen for a block with transactions.
pub mark_seen : Env → Event → ℕ → Syncer → Syncer
unfolding set_seen
mark_seen env ev height σ = record σ {
  header_cache = set_seen σ.header_cache (env.hash ev.header.header) ev.header.height;
  data_cache =
      (if bytes_equal ev.header.data_hash env.empty_txs_hash
        then σ.data_cache
        else set_seen σ.data_cache (env.commitment ev.block_data.txs) height);
}

-- The DA height of the state does not fall.
pub raise_da_height : ℕ → State → State
raise_da_height da st = if ltb st.da_height da then record st { da_height = da } else st

pub on_commit : Env → Event → State → Syncer → Option Db → Syncer × Outcome
unfolding mark_seen
on_commit env ev st σ none = (σ, failed)
on_commit env ev st σ (some db) =
    (mark_seen env ev st.last_block_height (record σ { db = db; last_state = st }), synced)

pub store_block : Env → Event → State → Syncer → Syncer × Outcome
unfolding on_commit commit stage_block
store_block env ev st σ = on_commit env ev st σ (
    commit env.faults σ.db (
      stage_block env.codec env.faults σ.db ev.header ev.block_data ev.header.signature
        ev.header.height st))

-- The execution client's failure is a critical error.
pub on_executed : Env → Event → Syncer → Retried Bytes → Syncer × Outcome
unfolding store_block raise_da_height next_state
on_executed env ev σ (returned app_hash) =
    store_block env ev
      (raise_da_height ev.da_height (next_state env.hash σ.last_state ev.header.header app_hash)) σ
on_executed env ev σ fell_through =
    store_block env ev
      (raise_da_height ev.da_height (next_state env.hash σ.last_state ev.header.header [])) σ
on_executed env ev σ exhausted = (record σ { has_critical_error = true }, failed)
on_executed env ev σ stopped_waiting = (record σ { has_critical_error = true }, failed)

pub apply_block : Env → Event → Syncer → Syncer × Outcome
unfolding on_executed with_retry
apply_block env ev σ = on_executed env ev σ (
    with_retry
      (env.execute ev.block_data.txs ev.header.height ev.header.nanos σ.last_state.app_hash)
      env.stopped)

-- A check that fails is logged only; a malicious proposer ends the attempt.
pub on_forced : Env → Event → Syncer → Seen × Verdict → Syncer × Outcome
unfolding apply_block drop_included
on_forced env ev σ (seen, passes) = apply_block env ev (record σ { seen = seen })
on_forced env ev σ (seen, fails) = apply_block env ev (record σ { seen = seen })
on_forced env ev σ (seen, out_of_fuel) = apply_block env ev (record σ { seen = seen })
on_forced env ev σ (seen, malicious n) =
    (drop_included env (record σ { seen = seen }) ev, malicious_proposer)

-- The check is made for blocks from the DA layer.
pub check_forced : Env → Event → Source → Syncer → Syncer × Outcome
unfolding on_forced apply_block verify_forced_inclusion_txs
check_forced env ev from_da σ = on_forced env ev σ (
    verify_forced_inclusion_txs env.rules env.forced σ.last_state.da_height ev.da_height
      ev.block_data.txs σ.seen)
check_forced env ev from_p2p σ = apply_block env ev σ
check_forced env ev from_raft σ = apply_block env ev σ

pub on_next : Env → Event → Syncer → Tracking × Option BlockError → Syncer × Outcome
unfolding check_forced drop_included
on_next env ev σ (t, none) = check_forced env ev ev.source (record σ { tracking = t })
on_next env ev σ (t, some err) = (drop_included env (record σ { tracking = t }) ev, invalid_state)

-- ValidateBlock, and what follows it.
pub on_basic : Env → Event → Syncer → Option HeaderError → Syncer × Outcome
unfolding on_next drop_included assert_valid_for_next_state
on_basic env ev σ (some err) = (drop_included env σ ev, invalid_block)
on_basic env ev σ none =
    on_next env ev σ
      (assert_valid_for_next_state env.commitment σ.tracking σ.last_state ev.header ev.block_data)

pub try_sync_next_block : Env → Event → Syncer → Syncer × Outcome
unfolding on_basic validate_basic
try_sync_next_block env ev σ =
    if env.cancelled
    then (σ, cancelled_before)
    else on_basic env ev σ
        (validate_basic env.max_allowed (env.signing ev.header ev.block_data) ev.header)
