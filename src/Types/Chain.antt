-- ===== src/Types/Chain.antt =====
-- The chain state of types/state.go and the checks of a block against it, with those of
-- types/data.go. The hashes are parameters; the two package variables that let one wrong last
-- header hash pass (basedSequencerTracking and lastHeaderHashErrCount) are a state that the checks
-- pass on.
pub mod Accepted
pub mod Runs
mod Tests
use chain_sdk.Base.{
  ℕ, ◌+◌, ◌≡◌, ◌==◌, refl, Bool, true, false, not, ◌||◌, ◌&&◌, Bool-cases, subst, Option-cases,
  Option, none, some, List, [], ◌∷◌, ltb, if◌then◌else◌, arith, length, Bytes, bytes_equal,
  bytes_equal_sound, add_u64, ◌≤◌, ◌⊎◌, inl, inr,
}
use chain_sdk.Types.Header.{Header, SignedHeader, unix_time}

-- `last_block_time` is a number as unix_time gives it; Version, which is only copied, is left out.
pub record State : Type 0 where
  pub chain_id : Bytes
  pub initial_height : ℕ
  pub last_block_height : ℕ
  pub last_block_time : ℕ
  pub last_header_hash : Bytes
  pub da_height : ℕ
  pub app_hash : Bytes

-- NextState, which never returns an error.
unfoldable pub next_state : (Header → Bytes) → State → Header → Bytes → State
unfolding unix_time
next_state hash s h state_root = record s {
  last_block_height = h.height;
  last_block_time = unix_time h.nanos;
  last_header_hash = hash h;
  app_hash = state_root;
}

-- basedSequencerTracking.Do was run, and lastHeaderHashErrCount.
pub record Tracking : Type 0 where
  pub ran : Bool
  pub err_count : ℕ

abbrev pub fresh : Tracking
fresh = record { ran = false; err_count = 0 }

-- sync.Once runs its function the first time only.
pub do_once : Tracking → Tracking
do_once t = if t.ran then t else record { ran = true; err_count = t.err_count + 1 }

pub data SequenceError : Type 0 where
  invalid_chain_id invalid_height invalid_time invalid_last_header_hash invalid_last_app_hash :
      SequenceError

check_app_hash : State → SignedHeader → Option SequenceError
check_app_hash s sh =
    if not (bytes_equal sh.app_hash s.app_hash) then some invalid_last_app_hash else none

-- The comparison of the last header hashes, and what follows it.
pub check_hashes : Tracking → State → SignedHeader → Tracking × Option SequenceError
unfolding do_once check_app_hash
check_hashes t s sh =
    if not (bytes_equal sh.last_header_hash s.last_header_hash)
    then (if t.err_count == 1
        then (t, some invalid_last_header_hash)
        else (do_once t, check_app_hash s sh))
    else (t, check_app_hash s sh)

-- AssertValidSequence; `none` is no error.
unfoldable pub assert_valid_sequence :
    Tracking → State → SignedHeader → Tracking × Option SequenceError
unfolding check_hashes unix_time
assert_valid_sequence t s sh =
    if not (bytes_equal sh.chain_id s.chain_id)
    then (t, some invalid_chain_id)
    else if length s.last_header_hash == 0
    then (t, none)
    else if not (sh.height == add_u64 s.last_block_height 1)
    then (t, some invalid_height)
    else if ltb (unix_time sh.nanos) s.last_block_time
    then (t, some invalid_time)
    else check_hashes t s sh

pub record Metadata : Type 0 where
  pub chain_id : Bytes
  pub height : ℕ
  pub nanos : ℕ

pub record Data : Type 0 where
  pub metadata : Option Metadata
  pub txs : List Bytes

pub data DataError : Type 0 where
  header_data_mismatch data_hash_mismatch : DataError

-- Whether the metadata, when there is one, differs from the header.
pub mismatches : SignedHeader → Option Metadata → Bool
unfolding unix_time
mismatches sh none = false
mismatches sh (some m) =
    not (bytes_equal sh.chain_id m.chain_id)
    || not (sh.height == m.height)
    || not (unix_time sh.nanos == unix_time m.nanos)

-- Validate, with the DACommitment of a block that has only its transactions.
pub validate : (List Bytes → Bytes) → SignedHeader → Data → Option DataError
unfolding mismatches
validate commitment sh d =
    if mismatches sh d.metadata
    then some header_data_mismatch
    else if not (bytes_equal (commitment d.txs) sh.data_hash)
    then some data_hash_mismatch
    else none

pub data BlockError : Type 0 where
  in_sequence : SequenceError → BlockError
  in_data : DataError → BlockError

on_data : Option DataError → Option BlockError
on_data none = none
on_data (some e) = some (in_data e)

on_sequence :
    (List Bytes → Bytes)
    → SignedHeader
    → Data
    → Tracking × Option SequenceError
    → Tracking × Option BlockError
unfolding validate on_data
on_sequence commitment sh d (t, some e) = (t, some (in_sequence e))
on_sequence commitment sh d (t, none) = (t, on_data (validate commitment sh d))

-- AssertValidForNextState
unfoldable pub assert_valid_for_next_state :
    (List Bytes → Bytes) → Tracking → State → SignedHeader → Data → Tracking × Option BlockError
unfolding assert_valid_sequence on_sequence
assert_valid_for_next_state commitment t s sh d =
    on_sequence commitment sh d (assert_valid_sequence t s sh)
