-- ===== src/Replay.antt =====
-- The replay of stored blocks to the execution client, of block/internal/common/replay.go. The
-- execution client is a parameter; the calls it gets are listed in their order.
pub mod Blocks
pub mod Behind
pub mod Ends
mod Tests
use chain_sdk.Base.{
  ℕ, zero, suc, ◌==◌, Bool, true, false, not, Option, none, some, List, [], ◌∷◌, ltb, leb,
  if◌then◌else◌, Bytes, bytes_equal, add_u64, sub_u64,
}
use chain_sdk.Types.Header.{Header, SignedHeader}
use chain_sdk.Types.Chain.{State, Data, next_state}
use chain_sdk.Store.{
  Db, Faults, Codec, Read, absent, broken, found, get_block_data, get_state_at_height, new_batch,
  update_state, commit,
}

pub data Call : Type 0 where
  executed : List Bytes → ℕ → ℕ → Bytes → Call
  rolled_back : ℕ → Call

pub data Error : Type 0 where
  height_unknown rollback_failed client_ahead block_not_found replay_failed out_of_fuel : Error

-- What the client says of its height: it does not provide it, fails, or has it.
pub data Latest : Type 0 where
  not_provided latest_failed : Latest
  latest_is : ℕ → Latest

-- `rollback` is `none` where the client has no rollback. `none` of `execute` is an error.
pub record Env : Type 0 where
  pub codec : Codec
  pub faults : Faults
  pub hash : Header → Bytes
  pub chain_id : Bytes
  pub initial_height : ℕ
  pub start_time : ℕ
  pub latest : Latest
  pub rollback : Option (ℕ → Bool)
  pub execute : List Bytes → ℕ → ℕ → Bytes → Option Bytes

-- How the replay of one block ends: before the client was called, after, or with the new state stored.
pub data Replay : Type 0 where
  not_executed : Replay
  failed_after : Call → Replay
  replayed : Call → Db → Replay

pub record Result : Type 0 where
  pub calls : List Call
  pub db : Db
  pub error : Option Error

module _ (env : Env) where
  genesis_state : SignedHeader → State
  genesis_state header = record {
    chain_id = env.chain_id;
    initial_height = env.initial_height;
    last_block_height = sub_u64 env.initial_height 1;
    last_block_time = env.start_time;
    last_header_hash = [];
    da_height = 0;
    app_hash = header.app_hash;
  }

  pub prev_state : Db → ℕ → SignedHeader → Read State
  unfolding genesis_state get_state_at_height
  prev_state db height header =
      if height == env.initial_height
      then found (genesis_state header)
      else get_state_at_height env.codec env.faults db (sub_u64 height 1)

  -- The check against the stored state, which is skipped where there is none or it cannot be read.
  pub diverges : Read State → Bytes → Bool
  diverges absent root = false
  diverges broken root = false
  diverges (found s) root = not (bytes_equal root s.app_hash)

  pub on_commit : Call → Option Db → Replay
  on_commit call none = failed_after call
  on_commit call (some db) = replayed call db

  pub on_root : Db → ℕ → SignedHeader → State → Call → Option Bytes → Replay
  unfolding diverges on_commit get_state_at_height commit update_state new_batch next_state
  on_root db height header prev call none = failed_after call
  on_root db height header prev call (some root) =
      if diverges (get_state_at_height env.codec env.faults db height) root
      then failed_after call
      else on_commit call (
          commit env.faults db (
            update_state env.codec env.faults (next_state env.hash prev header.header root)
              (new_batch env.faults)))

  pub execute_on : Db → ℕ → SignedHeader → Data → Read State → Replay
  unfolding on_root
  execute_on db height header block_data absent = not_executed
  execute_on db height header block_data broken = not_executed
  execute_on db height header block_data (found prev) =
      on_root db height header prev (executed block_data.txs height header.nanos prev.app_hash)
        (env.execute block_data.txs height header.nanos prev.app_hash)

  pub on_block : Db → ℕ → Read (SignedHeader × Data) → Replay
  unfolding execute_on prev_state
  on_block db height absent = not_executed
  on_block db height broken = not_executed
  on_block db height (found block) =
      execute_on db height block.0 block.1 (prev_state db height block.0)

  pub replay_block : ℕ → Db → Replay
  unfolding on_block get_block_data
  replay_block height db = on_block db height (get_block_data env.codec env.faults db height)

  pub add_call : Call → Result → Result
  add_call call r = record r { calls = call ∷ r.calls }

  pub on_replay : Db → (Db → Result) → Replay → Result
  unfolding add_call
  on_replay db rest not_executed = record { calls = []; db = db; error = some replay_failed }
  on_replay db rest (failed_after call) = record {
    calls = call ∷ [];
    db = db;
    error = some replay_failed;
  }
  on_replay db rest (replayed call db') = add_call call (rest db')

  -- The loop over the heights, with fuel.
  pub replay_from : ℕ → ℕ → ℕ → Db → Result
  unfolding on_replay replay_block
  replay_from zero target height db = record { calls = []; db = db; error = some out_of_fuel }
  replay_from (suc fuel) target height db =
      let next =
        on_replay db (replay_from fuel target (add_u64 height 1)) (replay_block height db) in
      if leb height target then next else record { calls = []; db = db; error = none }

  roll_back : ℕ → Db → Option (ℕ → Bool) → Result
  roll_back target db none = record { calls = []; db = db; error = some client_ahead }
  roll_back target db (some rollback) = record {
    calls = rolled_back target ∷ [];
    db = db;
    error = (if rollback target then none else some rollback_failed);
  }

  -- The target has to be in the store.
  pub from_target : ℕ → ℕ → ℕ → Db → Read (SignedHeader × Data) → Result
  unfolding replay_from
  from_target fuel height target db absent = record {
    calls = [];
    db = db;
    error = some block_not_found;
  }
  from_target fuel height target db broken = record {
    calls = [];
    db = db;
    error = some block_not_found;
  }
  from_target fuel height target db (found block) = replay_from fuel target (add_u64 height 1) db

  pub at_latest : ℕ → ℕ → Db → Latest → Result
  unfolding roll_back from_target get_block_data
  at_latest fuel target db not_provided = record { calls = []; db = db; error = none }
  at_latest fuel target db latest_failed = record {
    calls = [];
    db = db;
    error = some height_unknown;
  }
  at_latest fuel target db (latest_is height) =
      if ltb target height
      then roll_back target db env.rollback
      else if ltb height target
      then from_target fuel height target db (get_block_data env.codec env.faults db target)
      else record { calls = []; db = db; error = none }

  -- SyncToHeight. A client that provides no height is asked nothing, before the target is compared.
  pub sync_to_height : ℕ → ℕ → Db → Result
  unfolding at_latest
  sync_to_height fuel target db =
      if ltb target env.initial_height
      then record { calls = []; db = db; error = none }
      else at_latest fuel target db env.latest
