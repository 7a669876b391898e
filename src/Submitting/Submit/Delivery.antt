-- ===== src/Submitting/Submit/Delivery.antt =====
-- Once the DA layer accepts again, submitToDA ends with its batch submitted.
use chain_sdk.Base.{
  ℕ, zero, suc, ◌+◌, ◌≤◌, ◌<◌, ◌≡◌, ◌==◌, refl, sym, ap, ◌∙◌, inl, inr, ◌⊎◌, false, true, some,
  List, [], ◌∷◌, ◌++◌, ltb, arith, length, length-append, take, length-take, Bytes, subst, ==_iff,
}
use chain_sdk.Submitting.Retry.{RetryPolicy, default_retry_policy, RetryState, failure, next}
use chain_sdk.Submitting.Limit.{total_size, limit_batch_by_size_lem}
use chain_sdk.Submitting.Submit.{
  status_success, status_other, ResultSubmit, Channel, all_submitted, Run, Slice, view, start,
  on_answer, submit_loop, submit_limited, submit_to_da,
}

module _ {ℓ} {A : Type ℓ} where
  -- The first n elements, with what the array has past them.
  abbrev start_of : ℕ → List A → List A → Slice A
  start_of n xs spare = record { array = xs ++ spare; len = length (take n xs) }

  view-start_of : (n : ℕ) (xs spare : List A) → view (start_of n xs spare) ≡ take n xs
  view-start_of zero xs spare = refl
  view-start_of (suc n) [] spare = refl
  view-start_of (suc n) (x ∷ xs) spare = ap (λ (ys : List A). x ∷ ys) (view-start_of n xs spare)

  abbrev pub posted_once : List A → ℕ → Run A
  posted_once items height = record { posted = (items, height) ∷ []; outcome = all_submitted }

  on_answer-full :
      (pol : RetryPolicy) (res : ResultSubmit) (items : Slice A) (marshaled : Slice Bytes)
      (rs : RetryState) (again : Slice A → Slice Bytes → RetryState → Run A)
      → res.submitted_count ≡ items.len
      → items.len ≤ length items.array
      → on_answer pol res status_success items marshaled rs again
        ≡ posted_once (view items) res.height
  unfolding on_answer
  on_answer-full pol res items marshaled rs again e within =
      let fits : ltb (length items.array) items.len ≡ false = ground arith in
      let whole : (items.len == items.len) ≡ true = ground arith in rw (e, fits, whole) refl

accepted-once {ℓ} :
    {A : Type ℓ} (pol : RetryPolicy) (res : ResultSubmit) (items : Slice A)
    (marshaled : Slice Bytes) (rs : RetryState) (again : Slice A → Slice Bytes → RetryState → Run A)
    → res.code ≡ status_success
    → res.submitted_count ≡ items.len
    → items.len ≤ length items.array
    → on_answer pol res res.code items marshaled rs again ≡ posted_once (view items) res.height
accepted-once pol res items marshaled rs again ok e within =
    subst (λ c. on_answer pol res c items marshaled rs again ≡ posted_once (view items) res.height)
      (sym ok) (on_answer-full pol res items marshaled rs again e within)

next-attempt :
    (rs : RetryState) (pol : RetryPolicy) (j k : ℕ)
    → rs.attempt + suc j ≡ k
    → (next rs failure pol).attempt + j ≡ k
unfolding next
next-attempt rs pol j k e = omega (arith, e)

-- The first n encodings fit a blob, and n is their number or the first n + 1 do not fit.
abbrev pub IsLongestFitting : ℕ → ℕ → List Bytes → Type 0
IsLongestFitting max_bytes n ms =
    (total_size (take n ms) ≤ max_bytes)
    × ((length ms ≤ n) ⊎ (max_bytes < total_size (take (suc n) ms)))

module _ (ch : Channel) (options : Bytes) (k : ℕ) (uncut : (a b : ℕ) → ch.cancelled a b ≡ false)
    (merged : (a : ℕ) → ch.options a ≡ some options)
    (down : (a : ℕ) (ms : List Bytes) → a < k → (ch.submit a ms options).code ≡ status_other)
    (up : (ms : List Bytes) → (ch.submit k ms options).code ≡ status_success)
    (whole : (ms : List Bytes) → (ch.submit k ms options).submitted_count ≡ length ms) where
  loop-posted_once {ℓ} :
      {A : Type ℓ} (pol : RetryPolicy) (rounds j : ℕ) (items : Slice A) (marshaled : Slice Bytes)
      (rs : RetryState)
      → rs.attempt + j ≡ k
      → j < rounds
      → items.len ≡ length (view marshaled)
      → items.len ≤ length items.array
      → submit_loop ch pol rounds items marshaled rs
        ≡ posted_once (view items) (ch.submit k (view marshaled) options).height
  unfolding submit_loop
  loop-posted_once pol zero j items marshaled rs e lt same within = absurd (omega arith)
  loop-posted_once pol (suc rounds) zero items marshaled rs e lt same within =
      let now : rs.attempt ≡ k = omega (arith, e) in
      let ok =
        subst (λ a. (ch.submit a (view marshaled) options).code ≡ status_success) (sym now)
          (up (view marshaled)) in
      let count =
        subst
          (λ a. (ch.submit a (view marshaled) options).submitted_count ≡ length (view marshaled))
          (sym now) (whole (view marshaled)) in
      rw (uncut rs.attempt rs.backoff, merged rs.attempt)
        (accepted-once pol (ch.submit rs.attempt (view marshaled) options) items marshaled rs
            (submit_loop ch pol rounds) ok (count ∙ sym same) within
          ∙ ap (λ a. posted_once (view items) (ch.submit a (view marshaled) options).height) now)
  loop-posted_once pol (suc rounds) (suc j) items marshaled rs e lt same within =
      rw
        (
          uncut rs.attempt rs.backoff,
          merged rs.attempt,
          down rs.attempt (view marshaled) (omega arith),
          on_answer,
        )
        (loop-posted_once pol rounds j items marshaled (next rs failure pol)
          (next-attempt rs pol j k e) (omega arith) same within)

  -- Where the context is not cut off, the DA layer fails at every attempt before attempt k and
  -- there accepts the whole batch, k is less than MaxAttempts and the first item fits a blob, and
  -- the options can be merged, submitToDA, given one encoding for each item, submits the longest
  -- prefix of the items whose encodings together fit a blob, which is not empty, once, at the
  -- height of that answer, and returns without an error.
  pub submit_to_da_delivers {ℓ} :
      {A : Type ℓ} (max_blob_size max_attempts block_time : ℕ) (items : List A) (m : Bytes)
      (ms : List Bytes) (spare : List A) (spare_bytes : List Bytes)
      → k < max_attempts
      → length items ≡ length (m ∷ ms)
      → length m ≤ max_blob_size
      → (n : ℕ) × (0 < n)
        × IsLongestFitting max_blob_size n (m ∷ ms)
        × (submit_to_da max_blob_size max_attempts block_time ch items (m ∷ ms) spare spare_bytes
            ≡ posted_once (take n items) (ch.submit k (take n (m ∷ ms)) options).height)
  unfolding submit_to_da default_retry_policy
  submit_to_da_delivers max_blob_size max_attempts block_time items m ms spare spare_bytes early
        same fits =
      elim (limit_batch_by_size_lem items m ms max_blob_size) [
        | inl (big, e) ↦ absurd (omega (arith, big))
        | inr (n, e, pos, small, longest) ↦
            (let equal : (length items == length (m ∷ ms)) ≡ true =
                (==_iff (length items) (length (m ∷ ms))).1 same in
              let not_empty : ltb 0 (length (m ∷ ms)) ≡ true = ground arith in
              let pol = default_retry_policy max_blob_size max_attempts block_time in
              (
                n,
                pos,
                (small, longest),
                rw (equal, not_empty, e, submit_limited)
                    (loop-posted_once pol max_attempts k (start_of n items spare)
                        (start_of n (m ∷ ms) spare_bytes) start (omega arith) early
                        (omega (
                          arith,
                          length-take n items,
                          length-take n (m ∷ ms),
                          ap length (view-start_of n (m ∷ ms) spare_bytes),
                          same,
                        ))
                        (omega (arith, length-take n items, length-append items spare))
                      ∙ ap
                          (λ bs.
                            posted_once (view (start_of n items spare))
                              (ch.submit k bs options).height)
                          (view-start_of n (m ∷ ms) spare_bytes)
                      ∙ ap (λ xs. posted_once xs (ch.submit k (take n (m ∷ ms)) options).height)
                          (view-start_of n items spare)),
              ))
      ]
