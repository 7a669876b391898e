-- ===== src/Submitting/Submit.antt =====
-- submitToDA of block/internal/submitting/da_submitter.go: one size-capped batch, with retries. The
-- DA client, the context and the signing options are asked through `Channel`, by the attempt's
-- number. Metrics, logs and the visualization server are left out.
pub mod Delivery
pub mod Prefixes
use chain_sdk.Base.{
  ℕ, zero, suc, ◌/◌, ◌-◌, ◌||◌, ◌≡◌, ◌==◌, refl, sym, ap, ◌∙◌, inl, inr, Bool, not, Bool-cases,
  Option, none, some, List, [], ◌∷◌, ◌++◌, ltb, if◌then◌else◌, length, take, drop, take-append-drop,
  Option-cases, Bytes,
}
use mathlib.Core.List.{append_assoc}
use chain_sdk.Submitting.Retry.{
  RetryPolicy, default_retry_policy, RetryState, success, mempool, failure, too_big, next,
}
use chain_sdk.Submitting.Limit.{
  Limited, limited, oversized_item, no_items_fit, limit_batch_by_size, limit_batch_by_size_cases,
}

pub data StatusCode : Type 0 where
  status_success status_too_big status_not_included status_already_in_mempool : StatusCode
  status_context_canceled status_other : StatusCode

pub record ResultSubmit : Type 0 where
  pub code : StatusCode
  pub submitted_count : ℕ
  pub height : ℕ

-- Whether the wait of an attempt is cut off by the context; the merged options, or an error; and the
-- answer to a submission.
pub record Channel : Type 0 where
  pub cancelled : ℕ → ℕ → Bool
  pub options : ℕ → Option Bytes
  pub submit : ℕ → List Bytes → Bytes → ResultSubmit

-- `panicked` is a slice index out of range.
pub data Outcome : Type 0 where
  all_submitted : Outcome
  length_mismatch first_item_oversized nothing_fits : Outcome
  context_done merge_failed single_item_oversized canceled attempts_exhausted panicked : Outcome

-- The calls of postSubmit, in order: the items, and the DA height.
pub record Run {ℓ} (A : Type ℓ) : Type ℓ where
  pub posted : List (List A × ℕ)
  pub outcome : Outcome

-- `n` / 2, and 1 in place of 0.
half_of : ℕ → ℕ
half_of n = if n / 2 == 0 then 1 else n / 2

abbrev start : RetryState
start = record { attempt = 0; backoff = 0 }

-- A Go slice: what its array has from its start on, past its length too, and the length. A slice
-- expression may reach past the length, up to the end of the array.
pub record Slice {ℓ} (A : Type ℓ) : Type ℓ where
  pub array : List A
  pub len : ℕ

module _ {ℓ} {A : Type ℓ} where
  abbrev pub view : Slice A → List A
  view s = take s.len s.array

  -- s[n:] and s[:n]
  abbrev pub from_index : ℕ → Slice A → Slice A
  from_index n s = record { array = drop n s.array; len = s.len - n }

  abbrev pub up_to : ℕ → Slice A → Slice A
  up_to n s = record { array = s.array; len = n }

module _ {ℓ} {A : Type ℓ} where
  stop : Outcome → Run A
  stop o = record { posted = []; outcome = o }

  post : List A → ℕ → Run A → Run A
  post items height r = record r { posted = (items, height) ∷ r.posted }

  -- The answer to one attempt's submission. `again` is the rest of the loop.
  on_answer :
      RetryPolicy
      → ResultSubmit
      → StatusCode
      → Slice A
      → Slice Bytes
      → RetryState
      → (Slice A → Slice Bytes → RetryState → Run A)
      → Run A
  unfolding stop post half_of
  on_answer pol res status_success items marshaled rs again =
      let count = res.submitted_count in
      if ltb (length items.array) count
      then stop panicked
      else post (take count items.array) res.height (
          if count == items.len
          then stop all_submitted
          else if ltb items.len count || ltb marshaled.len count
          then stop panicked
          else again (from_index count items) (from_index count marshaled) (next rs success pol))
  on_answer pol res status_too_big items marshaled rs again =
      let half = half_of items.len in
      if items.len == 1
      then stop single_item_oversized
      else if ltb (length items.array) half || ltb (length marshaled.array) half
      then stop panicked
      else again (up_to half items) (up_to half marshaled) (next rs too_big pol)
  on_answer pol res status_not_included items marshaled rs again =
      again items marshaled (next rs mempool pol)
  on_answer pol res status_already_in_mempool items marshaled rs again =
      again items marshaled (next rs mempool pol)
  on_answer pol res status_context_canceled items marshaled rs again = stop canceled
  on_answer pol res status_other items marshaled rs again =
      again items marshaled (next rs failure pol)

  attempt_with :
      Channel
      → RetryPolicy
      → Option Bytes
      → Slice A
      → Slice Bytes
      → RetryState
      → (Slice A → Slice Bytes → RetryState → Run A)
      → Run A
  unfolding on_answer
  attempt_with ch pol none items marshaled rs again = stop merge_failed
  attempt_with ch pol (some options) items marshaled rs again =
      let res = ch.submit rs.attempt (view marshaled) options in
      on_answer pol res res.code items marshaled rs again

  -- The loop with `rounds` attempts left.
  submit_loop : Channel → RetryPolicy → ℕ → Slice A → Slice Bytes → RetryState → Run A
  unfolding attempt_with
  submit_loop ch pol zero items marshaled rs = stop attempts_exhausted
  submit_loop ch pol (suc rounds) items marshaled rs =
      if ch.cancelled rs.attempt rs.backoff
      then stop context_done
      else attempt_with ch pol (ch.options rs.attempt) items marshaled rs
          (submit_loop ch pol rounds)

  -- The limited items and encodings stand at the start of their arrays.
  submit_limited : Channel → RetryPolicy → List A → List Bytes → Limited A → Run A
  unfolding submit_loop
  submit_limited ch pol array bytes oversized_item = stop first_item_oversized
  submit_limited ch pol array bytes no_items_fit = stop nothing_fits
  submit_limited ch pol array bytes (limited items marshaled) =
      submit_loop ch pol pol.max_attempts (record { array = array; len = length items })
        (record { array = bytes; len = length marshaled }) start

  -- `spare` and `spare_bytes` are what the arrays of the two slices have past the slices.
  pub submit_to_da : ℕ → ℕ → ℕ → Channel → List A → List Bytes → List A → List Bytes → Run A
  unfolding submit_limited
  submit_to_da max_blob_size max_attempts block_time ch items marshaled spare spare_bytes =
      let pol = default_retry_policy max_blob_size max_attempts block_time in
      if not (length items == length marshaled)
      then stop length_mismatch
      else if ltb 0 (length marshaled)
      then submit_limited ch pol (items ++ spare) (marshaled ++ spare_bytes)
          (limit_batch_by_size items marshaled pol.max_blob_bytes)
      else submit_limited ch pol (items ++ spare) (marshaled ++ spare_bytes)
          (limited items marshaled)

  abbrev pub all_posted : List (List A × ℕ) → List A
  all_posted [] = []
  all_posted ((items, height) ∷ ps) = items ++ all_posted ps
