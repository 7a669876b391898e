-- ===== src/Submitting/Retry.antt =====
-- The retry policy of block/internal/submitting/da_submitter.go. Durations are nanoseconds, not
-- negative and below 2^62, so that doubling one does not overflow.
use chain_sdk.Base.{
  ℕ, zero, suc, ◌+◌, ◌*◌, ◌^◌, ◌≤◌, ◌<◌, ◌≡◌, ◌==◌, ap, ◌∙◌, ltb, if◌then◌else◌, arith, min,
}
use native.Mathlib.Nat.{pow-suc, mul_assoc}

abbrev initial_backoff : ℕ
initial_backoff = 100_000_000

-- common.DefaultMaxBlobSize is a build-time variable: a parameter.
pub record RetryPolicy : Type 0 where
  pub max_attempts : ℕ
  min_backoff : ℕ
  max_backoff : ℕ
  pub max_blob_bytes : ℕ

unfoldable pub default_retry_policy : ℕ → ℕ → ℕ → RetryPolicy
default_retry_policy max_blob_size max_attempts max_duration = record {
  max_attempts = max_attempts;
  min_backoff = initial_backoff;
  max_backoff = max_duration;
  max_blob_bytes = max_blob_size;
}

pub record RetryState : Type 0 where
  pub attempt : ℕ
  pub backoff : ℕ

pub data RetryReason : Type 0 where
  undefined failure mempool success too_big : RetryReason

clamp_sorted : ℕ → ℕ → ℕ → ℕ
clamp_sorted v low high = if ltb v low then low else if ltb high v then high else v

-- The bounds are swapped where they stand the wrong way round.
clamp : ℕ → ℕ → ℕ → ℕ
unfolding clamp_sorted
clamp v min_time max_time =
    if ltb max_time min_time
    then clamp_sorted v max_time min_time
    else clamp_sorted v min_time max_time

grown : RetryState → RetryPolicy → ℕ
unfolding clamp
grown rs pol =
    clamp (if rs.backoff == 0 then pol.min_backoff else rs.backoff * 2) pol.min_backoff
      pol.max_backoff

next_backoff : RetryReason → RetryState → RetryPolicy → ℕ
unfolding grown
next_backoff undefined rs pol = 0
next_backoff failure rs pol = grown rs pol
next_backoff mempool rs pol = pol.max_backoff
next_backoff success rs pol = pol.min_backoff
next_backoff too_big rs pol = grown rs pol

unfoldable pub next : RetryState → RetryReason → RetryPolicy → RetryState
unfolding next_backoff
next rs reason pol = record { attempt = rs.attempt + 1; backoff = next_backoff reason rs pol }

-- Failures in a row.
failures : ℕ → RetryState → RetryPolicy → RetryState
failures zero rs pol = rs
failures (suc n) rs pol = next (failures n rs pol) failure pol

scaled_up : (m n : ℕ) → m ≤ m * 2 ^ n
scaled_up m zero = omega arith
scaled_up m (suc n) =
    omega (arith, scaled_up m n, mul_assoc m (2 ^ n) 2, ap (λ (t : ℕ). m * t) (pow-suc 2 n))

next-failure :
    (pol : RetryPolicy) (a p : ℕ)
    → 0 < pol.min_backoff
    → pol.min_backoff ≤ pol.max_backoff
    → pol.min_backoff ≤ p
    → next (record { attempt = a; backoff = min p pol.max_backoff }) failure pol
      ≡ record { attempt = suc a; backoff = min (p * 2) pol.max_backoff }
unfolding next
next-failure pol a p pos ordered grows = ground arith

-- After a first failure the backoff doubles with each further one until it meets its maximum, where
-- the bounds are in order and the minimum is positive.
failures_lem :
    (n : ℕ) (pol : RetryPolicy)
    → 0 < pol.min_backoff
    → pol.min_backoff ≤ pol.max_backoff
    → failures (suc n) (record { attempt = 0; backoff = 0 }) pol
      ≡ record { attempt = suc n; backoff = min (pol.min_backoff * 2 ^ n) pol.max_backoff }
unfolding failures next
failures_lem zero pol pos ordered = ground arith
failures_lem (suc n) pol pos ordered =
    ap (λ rs. next rs failure pol) (failures_lem n pol pos ordered)
    ∙ next-failure pol (suc n) (pol.min_backoff * 2 ^ n) pos ordered (scaled_up pol.min_backoff n)
    ∙ ap (λ (b : ℕ). record { attempt = suc (suc n); backoff = min b pol.max_backoff })
        (omega (
          arith,
          pow-suc 2 n,
          mul_assoc pol.min_backoff (2 ^ n) 2,
          ap (λ (t : ℕ). pol.min_backoff * t) (pow-suc 2 n),
        ))
