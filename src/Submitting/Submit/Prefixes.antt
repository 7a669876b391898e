-- ===== src/Submitting/Submit/Prefixes.antt =====
-- What submitToDA hands to postSubmit.
use chain_sdk.Base.{
  ℕ, zero, suc, ◌/◌, ◌-◌, ◌<◌, ◌≤◌, ◌≡◌, ◌==◌, ◌⊎◌, refl, ap, ◌∙◌, inl, inr, true, false, ◌||◌,
  Bool-cases, Option, none, some, List, [], ◌∷◌, ◌++◌, ltb, arith, length, take, drop,
  take-append-drop, length-take, length-append, Bytes, if_both, ==_iff,
}
use mathlib.Core.List.{append_assoc}
use chain_sdk.Submitting.Retry.{
  RetryPolicy, default_retry_policy, RetryState, success, too_big, next,
}
use chain_sdk.Submitting.Limit.{limit_batch_by_size, limit_batch_by_size_lem}
use chain_sdk.Submitting.Submit.{
  StatusCode, status_success, status_too_big, status_not_included, status_already_in_mempool,
  status_context_canceled, status_other, ResultSubmit, Channel, Outcome, panicked, all_submitted,
  single_item_oversized, canceled, attempts_exhausted, context_done, merge_failed,
  first_item_oversized, length_mismatch, Run, Slice, view, from_index, up_to, start, half_of, stop,
  post, on_answer, attempt_with, submit_loop, submit_limited, submit_to_da, all_posted,
}

half_of-bounds : (len : ℕ) → 0 < len → (0 < half_of len) × (half_of len ≤ len)
unfolding half_of
half_of-bounds len pos = elim (Bool-cases (len / 2 == 0)) [
  | inl y ↦ rw y (omega arith, omega arith)
  | inr n ↦ rw n (ground arith, omega arith)
]

module _ {ℓ} {A : Type ℓ} where
  abbrev IsPrefixOf : List A → Run A → Type ℓ
  IsPrefixOf items r = (rest : List A) × (all_posted r.posted ++ rest ≡ items)

  prefix_within :
      (ps rest xs ys : List A)
      → ps ++ rest ≡ xs ++ ys
      → length ps ≤ length xs
      → (left : List A) × (ps ++ left ≡ xs)
  prefix_within [] rest xs ys e le = (xs, refl)
  prefix_within (p ∷ ps) rest [] ys e le = absurd (omega arith)
  prefix_within (p ∷ ps) rest (x ∷ xs) ys e le =
      let (left, same) = prefix_within ps rest xs ys (ap (drop 1) e) (omega arith) in
      let first : p ≡ x = cc in (left, rw (first, same) refl)

  -- What is handed over is the start of the array, and within `len` unless a slice is out of range.
  abbrev Posts : List A → ℕ → Run A → Type ℓ
  Posts array len r =
      IsPrefixOf array r × ((r.outcome ≡ panicked) ⊎ (length (all_posted r.posted) ≤ len))

  stop-Posts : (array : List A) (len : ℕ) (o : Outcome) → Posts array len (stop o)
  unfolding stop
  stop-Posts array len o = ((array, refl), inr (omega arith))

  post-Posts :
      (n height len : ℕ) (array : List A) (r : Run A)
      → n ≤ len
      → Posts (drop n array) (len - n) r
      → Posts array len (post (take n array) height r)
  unfolding post
  post-Posts n height len array r le ((rest, e), within) = (
    (
      rest,
      append_assoc (take n array) (all_posted r.posted) rest
          ∙ ap (λ (t : List A). take n array ++ t) e
          ∙ take-append-drop n array,
    ),
    bounded within,
  )
    where
      bounded :
          (r.outcome ≡ panicked) ⊎ (length (all_posted r.posted) ≤ len - n)
          → (r.outcome ≡ panicked) ⊎ (length (take n array ++ all_posted r.posted) ≤ len)
      bounded (inl p) = inl p
      bounded (inr b) =
          inr
            (omega (arith, length-append (take n array) (all_posted r.posted), length-take n array))

  post-panicked :
      (n height len : ℕ) (array : List A)
      → Posts array len (post (take n array) height (stop panicked))
  unfolding post stop
  post-panicked n height len array = (
    (drop n array, append_assoc (take n array) [] (drop n array) ∙ take-append-drop n array),
    inl refl,
  )

  shrink : (array : List A) (m n : ℕ) (r : Run A) → m ≤ n → Posts array m r → Posts array n r
  shrink array m n r le (p, inl stopped) = (p, inl stopped)
  shrink array m n r le (p, inr b) = (p, inr (omega arith))

  abbrev Continues : (Slice A → Slice Bytes → RetryState → Run A) → Type ℓ
  Continues again =
      (xs : Slice A) (ms : Slice Bytes) (s : RetryState)
      → 0 < xs.len
      → Posts xs.array xs.len (again xs ms s)

  on_answer-Posts :
      (pol : RetryPolicy) (res : ResultSubmit) (code : StatusCode) (items : Slice A)
      (marshaled : Slice Bytes) (rs : RetryState)
      (again : Slice A → Slice Bytes → RetryState → Run A)
      → 0 < items.len
      → Continues again
      → Posts items.array items.len (on_answer pol res code items marshaled rs again)
  unfolding on_answer
  on_answer-Posts pol res status_success items marshaled rs again pos ih =
      let n = res.submitted_count in
      if_both (Posts items.array items.len) (ltb (length items.array) n) _ _
        (stop-Posts items.array items.len panicked)
        (elim (Bool-cases (n == items.len)) [
          | inl y ↦ rw y (
              post-Posts n res.height items.len items.array (stop all_submitted) (ground arith)
                (stop-Posts (drop n items.array) (items.len - n) all_submitted))
          | inr other ↦ elim (Bool-cases (ltb items.len n)) [
            | inl over ↦ rw (other, over) (post-panicked n res.height items.len items.array)
            | inr within ↦ elim (Bool-cases (ltb marshaled.len n)) [
              | inl over ↦
                  rw (other, within, over) (post-panicked n res.height items.len items.array)
              | inr fits ↦
                  rw (other, within, fits)
                    (post-Posts n res.height items.len items.array
                      (again (from_index n items) (from_index n marshaled) (next rs success pol))
                      (ground arith)
                      (ih (from_index n items) (from_index n marshaled) (next rs success pol)
                        (some_left n items.len other within)))
            ]
          ]
        ])
    where
      some_left : (n len : ℕ) → (n == len) ≡ false → ltb len n ≡ false → 0 < len - n
      some_left n len other within = ground arith
  on_answer-Posts pol res status_too_big items marshaled rs again pos ih =
      let half = half_of items.len in
      elim (Bool-cases (items.len == 1)) [
        | inl y ↦ rw y (stop-Posts items.array items.len single_item_oversized)
        | inr many ↦ rw many (
            if_both (Posts items.array items.len)
              (ltb (length items.array) half || ltb (length marshaled.array) half) _ _
              (stop-Posts items.array items.len panicked)
              (let (at_least, fewer) = half_of-bounds items.len pos in
                shrink items.array half items.len
                  (again (up_to half items) (up_to half marshaled) (next rs too_big pol)) fewer
                  (ih (up_to half items) (up_to half marshaled) (next rs too_big pol) at_least)))
      ]
  on_answer-Posts pol res status_not_included items marshaled rs again pos ih =
      ih items marshaled _ pos
  on_answer-Posts pol res status_already_in_mempool items marshaled rs again pos ih =
      ih items marshaled _ pos
  on_answer-Posts pol res status_context_canceled items marshaled rs again pos ih =
      stop-Posts items.array items.len canceled
  on_answer-Posts pol res status_other items marshaled rs again pos ih = ih items marshaled _ pos

  attempt_with-Posts :
      (ch : Channel) (pol : RetryPolicy) (options : Option Bytes) (items : Slice A)
      (marshaled : Slice Bytes) (rs : RetryState)
      (again : Slice A → Slice Bytes → RetryState → Run A)
      → 0 < items.len
      → Continues again
      → Posts items.array items.len (attempt_with ch pol options items marshaled rs again)
  unfolding attempt_with
  attempt_with-Posts ch pol none items marshaled rs again pos ih =
      stop-Posts items.array items.len merge_failed
  attempt_with-Posts ch pol (some options) items marshaled rs again pos ih =
      let res = ch.submit rs.attempt (view marshaled) options in
      on_answer-Posts pol res res.code items marshaled rs again pos ih

  submit_loop-Posts :
      (ch : Channel) (pol : RetryPolicy) (rounds : ℕ) (items : Slice A) (marshaled : Slice Bytes)
      (rs : RetryState)
      → 0 < items.len
      → Posts items.array items.len (submit_loop ch pol rounds items marshaled rs)
  unfolding submit_loop
  submit_loop-Posts ch pol zero items marshaled rs pos =
      stop-Posts items.array items.len attempts_exhausted
  submit_loop-Posts ch pol (suc rounds) items marshaled rs pos =
      if_both (Posts items.array items.len) (ch.cancelled rs.attempt rs.backoff) _ _
        (stop-Posts items.array items.len context_done)
        (attempt_with-Posts ch pol (ch.options rs.attempt) items marshaled rs
          (submit_loop ch pol rounds) pos (submit_loop-Posts ch pol rounds))

  limited-Posts :
      (ch : Channel) (pol : RetryPolicy) (items array : List A) (m : Bytes) (ms bytes : List Bytes)
      → length items ≡ length (m ∷ ms)
      → Posts array (length items) (
          submit_limited ch pol array bytes (limit_batch_by_size items (m ∷ ms) pol.max_blob_bytes))
  unfolding submit_limited
  limited-Posts ch pol items array m ms bytes same =
      elim (limit_batch_by_size_lem items m ms pol.max_blob_bytes) [
        | inl (big, e) ↦ rw e (stop-Posts array (length items) first_item_oversized)
        | inr (n, e, pos, small, longest) ↦ rw e (
            shrink array (length (take n items)) (length items)
              (submit_loop ch pol pol.max_attempts
                (record { array = array; len = length (take n items) })
                (record { array = bytes; len = length (take n (m ∷ ms)) }) start)
              (omega (arith, length-take n items))
              (submit_loop-Posts ch pol pol.max_attempts
                (record { array = array; len = length (take n items) })
                (record { array = bytes; len = length (take n (m ∷ ms)) }) start
                (omega (arith, length-take n items, same))))
      ]

  -- The items that the code gives away.
  abbrev pub HandsOver : List A → List A → Run A → Type ℓ
  HandsOver items spare r =
      IsPrefixOf (items ++ spare) r × ((r.outcome ≡ panicked) ⊎ IsPrefixOf items r)

  Posts-HandsOver :
      (items spare : List A) (r : Run A)
      → Posts (items ++ spare) (length items) r
      → HandsOver items spare r
  Posts-HandsOver items spare r ((rest, e), inl stopped) = ((rest, e), inl stopped)
  Posts-HandsOver items spare r ((rest, e), inr b) =
      ((rest, e), inr (prefix_within (all_posted r.posted) rest items spare e b))

  -- For a batch with items, whatever the DA layer answers, through partial successes, halvings and
  -- retries, the items handed to postSubmit are, in order and without a gap or a repetition, the
  -- first ones of the given items followed by what their array has past them, and of the given
  -- items alone unless the call panics on a slice index out of range.
  pub submit_to_da-IsPrefixOf :
      (max_blob_size max_attempts block_time : ℕ) (ch : Channel) (items : List A)
      (marshaled : List Bytes) (spare : List A) (spare_bytes : List Bytes)
      → 0 < length items
      → HandsOver items spare
          (submit_to_da max_blob_size max_attempts block_time ch items marshaled spare spare_bytes)
  unfolding submit_to_da
  submit_to_da-IsPrefixOf max_blob_size max_attempts block_time ch items [] spare spare_bytes pos =
      let differ : (length items == 0) ≡ false = ground arith in
      rw differ (
        Posts-HandsOver items spare (stop length_mismatch)
          (stop-Posts (items ++ spare) (length items) length_mismatch))
  submit_to_da-IsPrefixOf max_blob_size max_attempts block_time ch items (m ∷ ms) spare spare_bytes
        pos =
      let pol = default_retry_policy max_blob_size max_attempts block_time in
      let not_empty : ltb 0 (length (m ∷ ms)) ≡ true = ground arith in
      elim (Bool-cases (length items == length (m ∷ ms))) [
        | inr n ↦ rw n (
            Posts-HandsOver items spare (stop length_mismatch)
              (stop-Posts (items ++ spare) (length items) length_mismatch))
        | inl y ↦
            rw (y, not_empty)
              (Posts-HandsOver items spare
                (submit_limited ch pol (items ++ spare) ((m ∷ ms) ++ spare_bytes)
                  (limit_batch_by_size items (m ∷ ms) pol.max_blob_bytes))
                (limited-Posts ch pol items (items ++ spare) m ms ((m ∷ ms) ++ spare_bytes)
                  ((==_iff (length items) (length (m ∷ ms))).0 y)))
      ]
