-- ===== src/Epoch.antt =====
-- types/epoch.go: DA epochs, in uint64 arithmetic.
pub mod Bounds
use chain_sdk.Base.{ℕ, ◌+◌, ◌*◌, ◌/◌, ◌%◌, ◌==◌, ltb, if◌then◌else◌, u64_mod, sub_u64}

unfoldable pub calculate_epoch_number : ℕ → ℕ → ℕ → ℕ
calculate_epoch_number da_height da_start_height da_epoch_size =
    if ltb da_height da_start_height
    then 0
    else if da_epoch_size == 0
    then 1
    else ((sub_u64 da_height da_start_height / da_epoch_size + 1) % u64_mod)

pub record Boundaries : Type 0 where
  pub start : ℕ
  pub end : ℕ
  epoch_num : ℕ

unfoldable pub calculate_epoch_boundaries : ℕ → ℕ → ℕ → Boundaries
calculate_epoch_boundaries da_height da_start_height da_epoch_size =
    let epoch_num = calculate_epoch_number da_height da_start_height da_epoch_size in
    if da_epoch_size == 0
    then record { start = da_start_height; end = da_start_height; epoch_num = epoch_num }
    else if ltb da_height da_start_height
    then record {
      start = da_start_height;
      end = sub_u64 ((da_start_height + da_epoch_size) % u64_mod) 1;
      epoch_num = epoch_num;
    }
    else record {
      start = (da_start_height + sub_u64 epoch_num 1 * da_epoch_size % u64_mod) % u64_mod;
      end = sub_u64 ((da_start_height + epoch_num * da_epoch_size % u64_mod) % u64_mod) 1;
      epoch_num = epoch_num;
    }
