-- ===== src/Pruner.antt =====
-- The pruner of block/internal/pruner/pruner.go: what one tick asks of the store and of the
-- executor. What those answer is a parameter; the calls are a list, in order.
pub mod Retention
mod Tests
use chain_sdk.Base.{
  ℕ, zero, suc, ◌+◌, ◌-◌, ◌*◌, ◌/◌, ◌%◌, ◌^◌, ◌==◌, Bool, true, false, not, Option, none, some,
  List, [], ◌∷◌, ◌++◌, ltb, leb, if◌then◌else◌, length, Bytes, add_u64, u64_mod, min, little_endian,
}

-- Durations are in nanoseconds, and `block_time` is not zero.
pub record Config : Type 0 where
  pub interval : ℕ
  pub block_time : ℕ
  pub keep_recent : ℕ
  pub da_enabled : Bool

-- GetMetadata: ds.ErrNotFound, another error, or the stored bytes.
pub data Metadata : Type 0 where
  not_found failed : Metadata
  found : Bytes → Metadata

-- The error of a call: none, ds.ErrNotFound or another one.
pub data Answer : Type 0 where
  succeeds misses fails : Answer

pub record Environment : Type 0 where
  pub height : Option ℕ
  pub da_included : Metadata
  pub last_block : Metadata
  pub last_state : Metadata
  pub on_prune_blocks : ℕ → Bool
  pub on_delete_state : ℕ → Answer
  pub on_prune_exec : Option (ℕ → Answer)
  pub on_set_last_state : ℕ → Bool

pub data Call : Type 0 where
  prune_blocks_to delete_state_at prune_exec_to set_last_state : ℕ → Call

-- The calls made, and whether it ends without an error.
pub record Outcome : Type 0 where
  pub calls : List Call
  pub succeeded : Bool

pub stop : Bool → Outcome
stop b = record { calls = []; succeeded = b }

call_then : Call → Outcome → Outcome
call_then c o = record { calls = c ∷ o.calls; succeeded = o.succeeded }

-- getLastPrunedBlockHeight and getLastPrunedStateHeight; `none` is an error.
pub last_pruned : Metadata → Option ℕ
unfolding little_endian
last_pruned not_found = some 0
last_pruned failed = none
last_pruned (found bz) =
    if length bz == 8
    then (if little_endian bz == 0 then none else some (little_endian bz))
    else none

pub calculate_batch_size : Config → ℕ
calculate_batch_size cfg = min ((cfg.interval / cfg.block_time * 4) % u64_mod) 10000

-- What follows an executor's answer: ds.ErrNotFound is no error.
pub after_answer : Answer → Outcome → Outcome
unfolding stop
after_answer succeeds rest = rest
after_answer misses rest = rest
after_answer fails rest = stop false

prune_exec : Option (ℕ → Answer) → ℕ → Outcome → Outcome
unfolding after_answer call_then
prune_exec none h rest = rest
prune_exec (some answer) h rest = call_then (prune_exec_to h) (after_answer (answer h) rest)

-- The height below which blocks may be pruned: `none` when it is not known yet.
pub upper_bound : Bool → ℕ → Metadata → Option ℕ
unfolding little_endian
upper_bound false height da = some height
upper_bound true height (found bz) =
    if length bz == 8 then some (min height (little_endian bz)) else none
upper_bound true height not_found = none
upper_bound true height failed = none

prune_to : Environment → ℕ → Outcome
unfolding prune_exec stop call_then
prune_to env batch_end = call_then (prune_blocks_to batch_end) (
    if env.on_prune_blocks batch_end
    then prune_exec env.on_prune_exec batch_end (stop true)
    else stop false)

prune_after : Config → Environment → ℕ → Option ℕ → Outcome
unfolding calculate_batch_size prune_to stop
prune_after cfg env target none = stop false
prune_after cfg env target (some last) =
    prune_to env (min (add_u64 last (calculate_batch_size cfg)) target)

prune_below : Config → Environment → Option ℕ → Outcome
unfolding prune_after last_pruned stop
prune_below cfg env none = stop true
prune_below cfg env (some bound) =
    if leb bound cfg.keep_recent
    then stop true
    else prune_after cfg env (bound - cfg.keep_recent) (last_pruned env.last_block)

pub prune_blocks : Config → Environment → Outcome
unfolding prune_below upper_bound stop
prune_blocks cfg env = elim env.height [
  | none ↦ stop false
  | some height ↦ prune_below cfg env (upper_bound cfg.da_enabled height env.da_included)
]

-- The deletions at n heights from h on, and what follows them.
pub delete_states : (ℕ → Answer) → ℕ → ℕ → Outcome → Outcome
unfolding call_then after_answer
delete_states answer h zero rest = rest
delete_states answer h (suc n) rest =
    call_then (delete_state_at h) (after_answer (answer h) (delete_states answer (h + 1) n rest))

record_state : Environment → ℕ → Outcome
unfolding call_then stop
record_state env batch_end =
    call_then (set_last_state batch_end) (stop (env.on_set_last_state batch_end))

-- The greater of the two heights; an error on the blocks' height is ignored.
pub later_of : ℕ → Option ℕ → ℕ
later_of state none = state
later_of state (some block) = if ltb state block then block else state

pub prune_states : Config → Environment → ℕ → ℕ → Outcome
unfolding calculate_batch_size delete_states prune_exec record_state stop
prune_states cfg env last target =
    if leb target last
    then stop true
    else (let batch_end = min (add_u64 last (calculate_batch_size cfg)) target in
        delete_states env.on_delete_state (last + 1) (batch_end - last)
          (prune_exec env.on_prune_exec batch_end (record_state env batch_end)))

prune_states_from : Config → Environment → ℕ → Option ℕ → Outcome
unfolding prune_states last_pruned later_of stop
prune_states_from cfg env height none = stop false
prune_states_from cfg env height (some state) =
    prune_states cfg env (later_of state (last_pruned env.last_block)) (height - cfg.keep_recent)

pub prune_metadata : Config → Environment → Outcome
unfolding prune_states_from stop
prune_metadata cfg env = elim env.height [
  | none ↦ stop false
  | some height ↦
      if leb height cfg.keep_recent
      then stop true
      else prune_states_from cfg env height (last_pruned env.last_state)
]
