-- ===== src/Submitting/Batching.antt =====
-- block/internal/submitting/batching_strategy.go: when a batch is worth a submission. The floating-
-- point threshold is a parameter, read only through `int(float64(maxBlobSize) * threshold)` and its
-- range check. Durations are not negative.
use chain_sdk.Base.{ℕ, ◌≡◌, ◌==◌, refl, Bool, true, false, ◌||◌, ltb, leb, if◌then◌else◌, arith}

-- A float64 threshold: whether it lies in (0, 1], and what it makes of a size.
pub record Threshold : Type 0 where
  pub in_range : Bool
  pub scale : ℕ → ℕ

pub data Strategy : Type 0 where
  immediate : Strategy
  size_based : Threshold → ℕ → Strategy
  time_based : ℕ → ℕ → Strategy
  adaptive : Threshold → ℕ → ℕ → Strategy

or_one : ℕ → ℕ
or_one n = if n == 0 then 1 else n

module _ (eighty_percent : Threshold) where
  or_default : Threshold → Threshold
  or_default t = if t.in_range then t else eighty_percent

  new_size_based_strategy : Threshold → ℕ → Strategy
  unfolding or_one or_default
  new_size_based_strategy t min_items = size_based (or_default t) (or_one min_items)

  new_time_based_strategy : ℕ → ℕ → ℕ → Strategy
  unfolding or_one
  new_time_based_strategy da_block_time max_delay min_items =
      time_based (if max_delay == 0 then da_block_time else max_delay) (or_one min_items)

  new_adaptive_strategy : ℕ → Threshold → ℕ → ℕ → Strategy
  unfolding or_one or_default
  new_adaptive_strategy da_block_time t max_delay min_items =
      adaptive (or_default t) (if max_delay == 0 then da_block_time else max_delay)
        (or_one min_items)

-- pendingCount, totalSize, maxBlobSize, timeSinceLastSubmit
should_submit : Strategy → ℕ → ℕ → ℕ → ℕ → Bool
should_submit immediate pending total max_blob since = ltb 0 pending
should_submit (size_based t min_items) pending total max_blob since =
    if ltb pending min_items then false else leb (t.scale max_blob) total
should_submit (time_based max_delay min_items) pending total max_blob since =
    if ltb pending min_items then false else leb max_delay since
should_submit (adaptive t max_delay min_items) pending total max_blob since =
    if ltb pending min_items
    then false
    else if leb (t.scale max_blob) total
    then true
    else if leb max_delay since
    then true
    else false

-- The adaptive strategy submits exactly when the size strategy or the time strategy of the same
-- configuration does.
adaptive_lem :
    (d t : Threshold) (block_time delay min_items pending total max_blob since : ℕ)
    → should_submit
        (new_adaptive_strategy d block_time t delay min_items)
        pending
        total
        max_blob
        since
      ≡ (should_submit (new_size_based_strategy d t min_items) pending total max_blob since
          || should_submit
              (new_time_based_strategy d block_time delay min_items)
              pending
              total
              max_blob
              since)
unfolding should_submit new_adaptive_strategy new_size_based_strategy new_time_based_strategy
adaptive_lem d t block_time delay min_items pending total max_blob since = ground arith

-- No strategy submits when nothing is pending, whatever its configuration.
nothing_pending :
    (d t : Threshold) (block_time delay min_items total max_blob since : ℕ)
    → (should_submit immediate 0 total max_blob since ≡ false)
      × (should_submit (new_size_based_strategy d t min_items) 0 total max_blob since ≡ false)
      × (should_submit (new_time_based_strategy d block_time delay min_items) 0 total max_blob since
          ≡ false)
      × (should_submit (new_adaptive_strategy d block_time t delay min_items) 0 total max_blob since
          ≡ false)
unfolding should_submit new_adaptive_strategy new_size_based_strategy new_time_based_strategy
nothing_pending d t block_time delay min_items total max_blob since =
    (refl, ground arith, ground arith, ground arith)
