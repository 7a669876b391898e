-- ===== src/Store/Rollback.antt =====
-- Rollback of pkg/store/store.go.
pub mod Bounds
use chain_sdk.Base.{
  ℕ, zero, suc, ◌+◌, ◌-◌, ◌≤◌, ◌<◌, ◌^◌, ◌≡◌, ◌==◌, refl, sym, ap, ◌∙◌, Bool, true, false, ◌⊎◌, inl,
  inr, Bool-cases, not, Option, Option-cases, none, some, List, [], ◌∷◌, leb, leb→le, ◌≢◌,
  if◌then◌else◌, arith, Bytes, else_of, length, little_endian, little_endian-put, put_little_endian,
  some-inj, unless-some,
}
use chain_sdk.Store.{
  Db, Write, write_height, write_header, write_data, write_signature, write_index, write_state,
  write_da_included, apply_write, apply_all, Faults, no_faults, Codec, Read, absent, broken, found,
  encode_height, decode_height, da_included_field, header_field, get, get_height, Batch, new_batch,
  stage, commit,
}
use chain_sdk.Store.Saved.{
  Leaves, new_batch-Leaves, stage-Leaves, commit-Leaves, KeepsAt, decode_height-encode_height,
}

pub data RollbackError : Type 0 where
  batch_failed read_failed not_below finalized : RollbackError

-- The deletions at one height, whose header must be there for its hash.
pub stage_height : Codec → Faults → ℕ → Read Bytes → Batch → Batch
unfolding stage
stage_height c f h absent batch = none
stage_height c f h broken batch = none
stage_height c f h (found blob) batch = stage f (write_state h none) (
    stage f (write_index (c.sha256 blob) none) (
      stage f (write_signature h none)
        (stage f (write_data h none) (stage f (write_header h none) batch))))

-- From height + n down to the height above `height`.
pub stage_heights : Codec → Faults → Db → ℕ → ℕ → Batch → Batch
unfolding stage_height get
stage_heights c f db height zero batch = batch
stage_heights c f db height (suc n) batch = stage_heights c f db height n (
    stage_height c f (height + suc n)
      (get (f.on_get (header_field (height + suc n))) (db.headers (height + suc n))) batch)

-- The check against the DA included height, and what it stages; a value of another length is not
-- checked.
pub check_included : Faults → ℕ → Bool → Read Bytes → Batch → Option RollbackError × Batch
unfolding stage encode_height
check_included f height aggregator broken batch = (some read_failed, batch)
check_included f height aggregator absent batch = (none, batch)
check_included f height aggregator (found v) batch =
    if not (length v == 8)
    then (none, batch)
    else if leb (little_endian v) height
    then (none, batch)
    else if aggregator
    then (some finalized, batch)
    else (none, stage f (write_da_included (some (encode_height height))) batch)

pub committed : Db → Option Db → Db × Option RollbackError
committed db none = (db, some batch_failed)
committed db (some db') = (db', none)

pub roll : Codec → Faults → Db → ℕ → ℕ → Option RollbackError × Batch → Db × Option RollbackError
unfolding committed stage_heights stage encode_height commit
roll c f db height current (some e, batch) = (db, some e)
roll c f db height current (none, batch) = committed db (
    commit f db (
      stage f (write_height (some (encode_height height)))
        (stage_heights c f db height (current - height) batch)))

from_current : Codec → Faults → Db → ℕ → Bool → Option ℕ → Db × Option RollbackError
unfolding roll check_included get new_batch
from_current c f db height aggregator none = (db, some read_failed)
from_current c f db height aggregator (some current) =
    if leb current height
    then (db, some not_below)
    else roll c f db height current (
        check_included f height aggregator (get (f.on_get da_included_field) db.da_included)
          (new_batch f))

-- Rollback: `none` is no error.
unfoldable pub rollback : Codec → Faults → Db → ℕ → Bool → Db × Option RollbackError
unfolding from_current get_height
rollback c f db height aggregator =
    if f.on_batch
    then (db, some batch_failed)
    else from_current c f db height aggregator (get_height f db)
