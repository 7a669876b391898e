-- ===== src/Executing/Retry.antt =====
-- The retry loops of executeTxsWithRetry of block/internal/executing/executor.go and of
-- setFinalWithRetry of block/internal/submitting/submitter.go.
use chain_sdk.Base.{
  ℕ, zero, suc, ◌+◌, ◌<◌, ◌≡◌, ◌==◌, inl, inr, refl, Bool, true, false, Bool-cases, Option,
  Option-cases, none, some, if◌then◌else◌, arith, subst,
}

-- common.MaxRetriesBeforeHalt
abbrev max_retries_before_halt : ℕ
max_retries_before_halt = 5

-- What a loop returns: a value, the last attempt's error, the end of the context, or, after the
-- loop, nil.
pub data Retried {ℓ} (A : Type ℓ) : Type ℓ where
  returned : A → Retried A
  exhausted stopped_waiting fell_through : Retried A

module _ {ℓ} {A : Type ℓ} (call : ℕ → Option A) (stopped : ℕ → Bool) where
  on_failure : ℕ → Retried A → Retried A
  on_failure attempt rest =
      if attempt == max_retries_before_halt
      then exhausted
      else if stopped attempt
      then stopped_waiting
      else rest

  on_attempt : ℕ → Option A → Retried A → Retried A
  unfolding on_failure
  on_attempt attempt none rest = on_failure attempt rest
  on_attempt attempt (some v) rest = returned v

  -- The loop from an attempt on, which runs while the attempt is at most the maximum.
  retry_from : ℕ → ℕ → Retried A
  unfolding on_attempt
  retry_from zero attempt = fell_through
  retry_from (suc left) attempt =
      let rest = retry_from left (suc attempt) in on_attempt attempt (call attempt) rest

  unfoldable pub with_retry : Retried A
  unfolding retry_from
  with_retry = retry_from max_retries_before_halt 1

  -- How a run ends that is at an attempt and has `left` further ones: the first attempt that
  -- succeeds gives the result, the last one's error is returned, and a wait may be cut short.
  pub data Ends : ℕ → ℕ → Retried A → Type ℓ where
    succeeds : {left attempt : ℕ} (v : A) → call attempt ≡ some v → Ends left attempt (returned v)
    gives_up : {attempt : ℕ} → call attempt ≡ none → Ends 0 attempt exhausted
    stops :
        {left attempt : ℕ}
        → call attempt ≡ none
        → stopped attempt ≡ true
        → Ends (suc left) attempt stopped_waiting
    tries_again :
        {left attempt : ℕ} {r : Retried A}
        → call attempt ≡ none
        → stopped attempt ≡ false
        → Ends left (suc attempt) r
        → Ends (suc left) attempt r

  last_attempt :
      (attempt : ℕ) (rest : Retried A)
      → attempt ≡ 5
      → Ends 0 attempt (on_attempt attempt (call attempt) rest)
  unfolding on_attempt
  last_attempt attempt rest e = elim (Option-cases (call attempt)) [
    | inl f ↦ rw (f, e) (gives_up (subst (λ (a : ℕ). call a ≡ none) e f))
    | inr (v, f) ↦ rw f (succeeds v f)
  ]

  earlier_attempt :
      (left attempt : ℕ) (rest : Retried A)
      → attempt < 5
      → Ends left (suc attempt) rest
      → Ends (suc left) attempt (on_attempt attempt (call attempt) rest)
  unfolding on_attempt
  earlier_attempt left attempt rest lt ends = elim (Option-cases (call attempt)) [
    | inr (v, f) ↦ rw f (succeeds v f)
    | inl f ↦ elim (Bool-cases (stopped attempt)) [
      | inl y ↦ rw (f, not_last attempt lt, y) (stops f y)
      | inr n ↦ rw (f, not_last attempt lt, n) (tries_again f n ends)
    ]
  ]
    where
      not_last : (n : ℕ) → n < 5 → (n == 5) ≡ false
      not_last n lt = ground arith

  retry_from-Ends :
      (left attempt : ℕ) → attempt + left ≡ 5 → Ends left attempt (retry_from (suc left) attempt)
  unfolding retry_from
  retry_from-Ends zero attempt e = last_attempt attempt fell_through (omega arith)
  retry_from-Ends (suc left) attempt e =
      earlier_attempt left attempt (retry_from (suc left) (suc attempt)) (omega arith)
        (retry_from-Ends left (suc attempt) (omega arith))

  -- A call that is retried ends within five attempts: with the first success, with the error of the
  -- fifth attempt when all fail, or when the context ends after a failed attempt before the fifth.
  pub with_retry-Ends : Ends 4 1 with_retry
  unfolding with_retry
  with_retry-Ends = retry_from-Ends 4 1 refl
