-- ===== src/Syncing/Forced.antt =====
-- The check of forced inclusion of a syncing node: gracePeriodForEpoch, VerifyForcedInclusionTxs
-- and pruneUpTo of block/internal/syncing/syncer.go. The loops over DA heights are structural on the
-- number of heights, which is exact unless the last height is 2^64 - 1.
pub mod Verdicts
pub mod Ends
pub mod Pruned
mod Tests
use chain_sdk.Base.{
  ℕ, zero, suc, ◌+◌, ◌-◌, ◌*◌, ◌/◌, ◌==◌, Bool, true, false, not, ◌||◌, Option, none, some, List,
  [], ◌∷◌, map, ltb, leb, if◌then◌else◌, Bytes, bytes_equal, length, min, ◌%◌, add_u64, sub_u64,
  u64_mod,
}
use chain_sdk.Cache.{Hash, at_height}
use chain_sdk.Da.ForcedInclusion.{
  DaView, ForcedInclusionEvent, RetrieveOutcome, not_configured, before_start, from_future, event,
  retrieve_forced_included_txs,
}
use chain_sdk.Sequencer.Filter.{FilterStatus, filter_ok, filter_remove, filter_postpone}

-- seenBlockTxs, seenBlockTxsByHeight, daBlockBytes and lastCheckedEpochEnd.
pub record Seen : Type 0 where
  pub txs : Hash → Bool
  pub txs_by_height : ℕ → List Hash
  pub block_bytes : ℕ → ℕ
  pub last_checked : ℕ

-- `fullness_threshold` is 0.8 of common.DefaultMaxBlobSize, rounded, and not zero.
pub record Rules : Type 0 where
  pub has_retriever : Bool
  pub epoch_size : ℕ
  pub da_start_height : ℕ
  pub fullness_threshold : ℕ
  pub hash_tx : Bytes → Hash

-- GetExecutionInfo gives the maximum gas, for FilterTxs; `none` is an error.
pub record View : Type 0 where
  pub da : DaView
  pub max_gas : Option ℕ
  pub filter_txs : List Bytes → ℕ → Option (List FilterStatus)

abbrev base_grace_period_epochs : ℕ
base_grace_period_epochs = 1

abbrev max_grace_period_epochs : ℕ
max_grace_period_epochs = 4

-- The bytes of n heights from h on.
pub total_bytes : (ℕ → ℕ) → ℕ → ℕ → ℕ
total_bytes bytes h zero = 0
total_bytes bytes h (suc n) = add_u64 (bytes h) (total_bytes bytes (suc h) n)

pub extra_epochs : ℕ → ℕ → ℕ
extra_epochs avg threshold = if ltb threshold avg then (avg - threshold) / threshold else 0

pub grace_period_for_epoch : Rules → (ℕ → ℕ) → ℕ → ℕ → ℕ
unfolding total_bytes extra_epochs
grace_period_for_epoch r bytes epoch_start epoch_end =
    if ltb epoch_end epoch_start
    then base_grace_period_epochs
    else min
        (base_grace_period_epochs
          + extra_epochs
              (total_bytes bytes epoch_start (epoch_end - epoch_start + 1)
                / (epoch_end - epoch_start + 1))
              r.fullness_threshold)
        max_grace_period_epochs

pub is_among : Hash → List Hash → Bool
is_among h [] = false
is_among h (k ∷ ks) = bytes_equal h k || is_among h ks

pub prune_height : ℕ → Seen → Seen
unfolding at_height is_among
prune_height h seen = record seen {
  txs = λ k. if is_among k (seen.txs_by_height h) then false else seen.txs k;
  txs_by_height = at_height seen.txs_by_height h [];
  block_bytes = at_height seen.block_bytes h 0;
}

-- n heights from h on.
pub prune_heights : ℕ → ℕ → Seen → Seen
unfolding prune_height
prune_heights zero h seen = seen
prune_heights (suc n) h seen = prune_heights n (suc h) (prune_height h seen)

pub prune_up_to : ℕ → Seen → Seen
unfolding prune_heights
prune_up_to up_to seen =
    let pruned = prune_heights (up_to + 1 - seen.last_checked) seen.last_checked seen in
    record pruned { last_checked = up_to }

-- How many transactions that pass the filter were not seen.
pub count_unseen : Rules → Seen → List Bytes → List FilterStatus → ℕ
count_unseen r seen [] statuses = 0
count_unseen r seen (tx ∷ txs) [] = 0
count_unseen r seen (tx ∷ txs) (filter_ok ∷ statuses) =
    (if seen.txs (r.hash_tx tx) then 0 else 1) + count_unseen r seen txs statuses
count_unseen r seen (tx ∷ txs) (filter_remove ∷ statuses) = count_unseen r seen txs statuses
count_unseen r seen (tx ∷ txs) (filter_postpone ∷ statuses) = count_unseen r seen txs statuses

pub data Verdict : Type 0 where
  passes fails out_of_fuel : Verdict
  malicious : ℕ → Verdict

pub verdict : ℕ → Verdict
verdict n = if ltb 0 n then malicious n else passes

-- What is left after an epoch is checked.
pub checked : ℕ → Seen → Seen
unfolding prune_up_to
checked epoch_end seen =
    if ltb seen.last_checked epoch_end then prune_up_to epoch_end seen else seen

pub grace_boundary : Rules → Seen → ℕ → ℕ
unfolding grace_period_for_epoch
grace_boundary r seen epoch_end = add_u64 epoch_end (
    grace_period_for_epoch r seen.block_bytes (sub_u64 epoch_end (r.epoch_size - 1)) epoch_end
    * r.epoch_size
    % u64_mod)

-- The epoch's check, and the loop over the further epochs.
module _ (r : Rules) (v : View) (max_gas : ℕ) (da_height : ℕ)
    (next : Seen → ℕ → Seen × Verdict) where
  pub on_statuses : Seen → ℕ → ℕ → List Bytes → Option (List FilterStatus) → Seen × Verdict
  unfolding count_unseen checked
  on_statuses seen epoch_end count txs none = (seen, fails)
  on_statuses seen epoch_end count txs (some statuses) =
      next (checked epoch_end seen) (count + count_unseen r seen txs statuses)

  pub on_txs : Seen → ℕ → ℕ → List Bytes → Seen × Verdict
  unfolding on_statuses
  on_txs seen epoch_end count [] = next (checked epoch_end seen) count
  on_txs seen epoch_end count (tx ∷ txs) =
      on_statuses seen epoch_end count (tx ∷ txs) (v.filter_txs (tx ∷ txs) max_gas)

  pub on_epoch : Seen → ℕ → ℕ → RetrieveOutcome → Seen × Verdict
  unfolding on_txs
  on_epoch seen epoch_end count not_configured = (seen, passes)
  on_epoch seen epoch_end count before_start = (seen, fails)
  on_epoch seen epoch_end count (from_future h) = (seen, fails)
  on_epoch seen epoch_end count (event e) = on_txs seen epoch_end count e.txs

pub check_epochs : Rules → View → ℕ → ℕ → ℕ → ℕ → Seen → ℕ → Seen × Verdict
unfolding on_epoch verdict grace_boundary
check_epochs r v max_gas da_height zero epoch_end seen count = (seen, out_of_fuel)
check_epochs r v max_gas da_height (suc fuel) epoch_end seen count =
    if leb da_height (grace_boundary r seen epoch_end)
    then (seen, verdict count)
    else on_epoch r v max_gas da_height
        (check_epochs r v max_gas da_height fuel (add_u64 epoch_end r.epoch_size)) seen epoch_end
        count (retrieve_forced_included_txs v.da r.da_start_height r.epoch_size epoch_end)

see_all : Rules → List Bytes → (Hash → Bool) → Hash → Bool
see_all r [] seen = seen
see_all r (tx ∷ txs) seen = λ h. if bytes_equal h (r.hash_tx tx) then true else see_all r txs seen h

sum_lengths : List Bytes → ℕ
sum_lengths [] = 0
sum_lengths (tx ∷ txs) = add_u64 (length tx) (sum_lengths txs)

-- The block's transactions and size are recorded for the DA height, over what stood there.
pub record_block : Rules → ℕ → List Bytes → Seen → Seen
unfolding see_all sum_lengths at_height
record_block r da_height txs seen = record seen {
  txs = see_all r txs seen.txs;
  txs_by_height = at_height seen.txs_by_height da_height (map r.hash_tx txs);
  block_bytes = at_height seen.block_bytes da_height (sum_lengths txs);
}

pub start_epoch_end : Rules → Seen → ℕ
start_epoch_end r seen =
    let first = sub_u64 (add_u64 r.da_start_height r.epoch_size) 1 in
    if seen.last_checked == 0 || ltb seen.last_checked first
    then first
    else add_u64 seen.last_checked r.epoch_size

pub with_info : Rules → View → ℕ → Seen → Option ℕ → Seen × Verdict
unfolding check_epochs start_epoch_end
with_info r v da_height seen none = (seen, fails)
with_info r v da_height seen (some max_gas) =
    check_epochs r v max_gas da_height (suc da_height) (start_epoch_end r seen) seen 0

-- VerifyForcedInclusionTxs, for a block of `txs` at a DA height and the last state's DA height.
unfoldable pub verify_forced_inclusion_txs :
    Rules → View → ℕ → ℕ → List Bytes → Seen → Seen × Verdict
unfolding with_info record_block
verify_forced_inclusion_txs r v last_da_height da_height txs seen =
    if not r.has_retriever || r.epoch_size == 0
    then (seen, passes)
    else let seen' = record_block r da_height txs seen in
      if ltb da_height r.da_start_height || ltb da_height last_da_height
      then (seen', passes)
      else with_info r v da_height seen' v.max_gas
