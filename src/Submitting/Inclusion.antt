-- ===== src/Submitting/Inclusion.antt =====
-- The DA inclusion loop of block/internal/submitting/submitter.go: one tick of
-- processDAInclusionLoop, with setFinalWithRetry, IsHeightDAIncluded and setNodeHeightToDAHeight.
pub mod Steps
pub mod Ticks
mod Tests
use chain_sdk.Base.{
  ℕ, zero, suc, ◌+◌, ◌-◌, ◌==◌, Bool, true, false, not, ◌&&◌, ◌||◌, Option, none, some, List, [],
  ltb, leb, if◌then◌else◌, Bytes, bytes_equal, min, length, little_endian, add_u64,
}
use chain_sdk.Types.Header.{SignedHeader}
use chain_sdk.Types.Chain.{Data}
use chain_sdk.Store.{
  Db, Write, write_da_included, write_genesis_da_height, write_header_da_height,
  write_data_da_height, apply_write, Faults, Codec, Read, absent, broken, found, get, get_height,
  get_block_data, da_included_field, encode_height,
}
use chain_sdk.Cache.{Cache, get_da_included_by_height, delete_all_for_height}
use chain_sdk.Executing.Retry.{
  Retried, returned, exhausted, stopped_waiting, fell_through, with_retry,
}

-- `daIncludedHeight`, the header and the data cache, and the DA height that was set in the
-- sequencer, where there is one.
pub record Submitter : Type 0 where
  pub db : Db
  pub da_included_height : ℕ
  pub header_cache : Cache (Unit {0})
  pub data_cache : Cache (Unit {0})
  pub sequencer_da_height : ℕ

-- `on_put` are the metadata writes that fail, and `set_final` is SetFinal by height and attempt.
pub record Env : Type 0 where
  pub codec : Codec
  pub commitment : List Bytes → Bytes
  pub empty_txs_hash : Bytes
  pub has_sequencer : Bool
  pub faults : Faults
  pub on_put : Write → Bool
  pub set_final : ℕ → ℕ → Option (Unit {0})
  pub stopped : ℕ → Bool

-- A call that may fail after it has written.
abbrev pub Done : Type 0
Done = Submitter × Bool

pub and_then : Done → (Submitter → Done) → Done
and_then (σ, false) f = (σ, false)
and_then (σ, true) f = f σ

-- putUint64Metadata
pub put : Env → Write → Submitter → Done
unfolding apply_write
put env w σ = if env.on_put w then (σ, false) else (record σ { db = apply_write w σ.db }, true)

pub has_no_txs : Env → Data → Bool
has_no_txs env d = bytes_equal (env.commitment d.txs) env.empty_txs_hash

pub is_some : Option ℕ → Bool
is_some none = false
is_some (some n) = true

pub included_below : Env → Submitter → ℕ → Data → Option ℕ → Option Bool
unfolding is_some has_no_txs get_da_included_by_height
included_below env σ height d none = none
included_below env σ height d (some current) =
    if ltb current height
    then some false
    else some (
        is_some (get_da_included_by_height σ.header_cache height)
        && (has_no_txs env d || is_some (get_da_included_by_height σ.data_cache height)))

-- IsHeightDAIncluded: `none` is an error.
pub is_height_da_included : Env → Submitter → ℕ → Data → Option Bool
unfolding included_below get_height
is_height_da_included env σ height d =
    if leb height σ.da_included_height
    then some true
    else included_below env σ height d (get_height env.faults σ.db)

pub set_sequencer : Env → ℕ → Submitter → Done
set_sequencer env da σ =
    (if env.has_sequencer then record σ { sequencer_da_height = da } else σ, true)

-- What the genesis inclusion adds: the first DA height, stored and set in the sequencer.
pub put_genesis : Env → Bool → ℕ → Submitter → Done
unfolding put encode_height and_then set_sequencer
put_genesis env false da σ = (σ, true)
put_genesis env true da σ =
    and_then (put env (write_genesis_da_height (some (encode_height da))) σ) (set_sequencer env da)

pub put_data_height : Env → ℕ → Bool → ℕ → ℕ → Submitter → Done
unfolding put_genesis put encode_height and_then
put_data_height env height genesis data_da genesis_da σ =
    and_then (put env (write_data_da_height height (some (encode_height data_da))) σ)
      (put_genesis env genesis genesis_da)

-- A block with transactions has a DA height of its data.
pub put_own_height : Env → ℕ → Bool → ℕ → Option ℕ → Submitter → Done
unfolding put_data_height
put_own_height env height genesis header_da none σ = (σ, false)
put_own_height env height genesis header_da (some da) σ =
    put_data_height env height genesis da (min da header_da) σ

-- What follows the header's DA height.
pub put_data_heights : Env → ℕ → Data → Bool → ℕ → Submitter → Done
unfolding put_data_height put_own_height has_no_txs get_da_included_by_height
put_data_heights env height d genesis header_da σ =
    if has_no_txs env d
    then put_data_height env height genesis header_da header_da σ
    else put_own_height env height genesis header_da (get_da_included_by_height σ.data_cache height)
        σ

pub with_header_height : Env → ℕ → Data → Bool → Option ℕ → Submitter → Done
unfolding put_data_heights put encode_height and_then
with_header_height env height d genesis none σ = (σ, false)
with_header_height env height d genesis (some header_da) σ =
    and_then (put env (write_header_da_height height (some (encode_height header_da))) σ)
      (put_data_heights env height d genesis header_da)

-- setNodeHeightToDAHeight
pub set_node_height_to_da_height : Env → ℕ → Data → Bool → Submitter → Done
unfolding with_header_height get_da_included_by_height
set_node_height_to_da_height env height d genesis σ =
    with_header_height env height d genesis (get_da_included_by_height σ.header_cache height) σ

-- One pass of the inner loop: it goes on, it ends until the next tick, or the whole loop returns.
pub data Pass : Type 0 where
  advanced breaks halts : Submitter → Pass

-- The height is advanced in memory after it is persisted, and then the caches forget it.
pub delete_height : ℕ → Submitter → Submitter
unfolding delete_all_for_height
delete_height height σ = record σ {
  header_cache = delete_all_for_height σ.header_cache height;
  data_cache = delete_all_for_height σ.data_cache height;
}

pub on_persisted : ℕ → Done → Pass
unfolding delete_height
on_persisted height (σ, false) = breaks σ
on_persisted height (σ, true) =
    advanced (delete_height height (record σ { da_included_height = height }))

pub on_final : Env → ℕ → Submitter → Retried (Unit {0}) → Pass
unfolding on_persisted put encode_height
on_final env height σ exhausted = halts σ
on_final env height σ stopped_waiting = halts σ
on_final env height σ (returned u) =
    on_persisted height (put env (write_da_included (some (encode_height height))) σ)
on_final env height σ fell_through =
    on_persisted height (put env (write_da_included (some (encode_height height))) σ)

pub on_mapped : Env → ℕ → Done → Pass
unfolding on_final with_retry
on_mapped env height (σ, false) = breaks σ
on_mapped env height (σ, true) =
    on_final env height σ (with_retry (env.set_final height) env.stopped)

pub on_included : Env → ℕ → Data → Submitter → Option Bool → Pass
unfolding on_mapped set_node_height_to_da_height
on_included env height d σ none = breaks σ
on_included env height d σ (some false) = breaks σ
on_included env height d σ (some true) =
    on_mapped env height (set_node_height_to_da_height env height d (σ.da_included_height == 0) σ)

pub on_block : Env → ℕ → Submitter → Read (SignedHeader × Data) → Pass
unfolding on_included is_height_da_included
on_block env height σ absent = breaks σ
on_block env height σ broken = breaks σ
on_block env height σ (found (h, d)) =
    on_included env height d σ (is_height_da_included env σ height d)

pub pass : Env → Submitter → Pass
unfolding on_block get_block_data
pass env σ =
    let height = add_u64 σ.da_included_height 1 in
    on_block env height σ (get_block_data env.codec env.faults σ.db height)

-- A tick: the passes until one does not advance; `none` when the fuel runs out.
pub on_pass : Pass → (Submitter → Option Submitter) → Option Submitter
on_pass (advanced σ) next = next σ
on_pass (breaks σ) next = some σ
on_pass (halts σ) next = some σ

pub tick : Env → ℕ → Submitter → Option Submitter
unfolding on_pass pass
tick env zero σ = none
tick env (suc fuel) σ = on_pass (pass env σ) (tick env fuel)

-- initializeDAIncludedHeight
loaded : Submitter → Read Bytes → Submitter
loaded σ absent = σ
loaded σ broken = σ
loaded σ (found v) = if length v == 8 then record σ { da_included_height = little_endian v } else σ

initialize_da_included_height : Env → Submitter → Submitter
unfolding loaded get
initialize_da_included_height env σ =
    loaded σ (get (env.faults.on_get da_included_field) σ.db.da_included)
