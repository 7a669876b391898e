-- ===== src/Submitting/Limit.antt =====
-- limitBatchBySize of block/internal/submitting/da_submitter.go: the longest prefix that fits a
-- blob.
use chain_sdk.Base.{
  ℕ, zero, suc, ◌+◌, ◌≤◌, ◌<◌, ◌≡◌, ◌==◌, refl, ◌⊎◌, inl, inr, Bool, false, Bool-cases, List, [],
  ◌∷◌, ltb, if◌then◌else◌, arith, length, take, Bytes,
}

-- The loop: how many items fit after `total` bytes. The break on a single oversized item past the
-- first is the second test's as well.
count_fitting : ℕ → ℕ → List Bytes → ℕ
count_fitting max_bytes total [] = 0
count_fitting max_bytes total (m ∷ ms) =
    let rest = count_fitting max_bytes (total + length m) ms in
    if ltb max_bytes (length m) then 0 else if ltb max_bytes (total + length m) then 0 else suc rest

pub data Limited {ℓ} (A : Type ℓ) : Type ℓ where
  limited : List A → List Bytes → Limited A
  oversized_item : Limited A
  no_items_fit : Limited A

first_too_large : ℕ → List Bytes → Bool
first_too_large max_bytes [] = false
first_too_large max_bytes (m ∷ ms) = ltb max_bytes (length m)

pub limit_batch_by_size {ℓ} : {A : Type ℓ} → List A → List Bytes → ℕ → Limited A
unfolding count_fitting first_too_large
limit_batch_by_size items marshaled max_bytes =
    let count = count_fitting max_bytes 0 marshaled in
    if first_too_large max_bytes marshaled
    then oversized_item
    else if count == 0
    then no_items_fit
    else limited (take count items) (take count marshaled)

abbrev pub total_size : List Bytes → ℕ
total_size [] = 0
total_size (m ∷ ms) = length m + total_size ms

count_fitting_bound :
    (max_bytes total : ℕ) (ms : List Bytes)
    → total ≤ max_bytes
    → total + total_size (take (count_fitting max_bytes total ms) ms) ≤ max_bytes
unfolding count_fitting
count_fitting_bound max_bytes total [] h = omega arith
count_fitting_bound max_bytes total (m ∷ ms) h =
    ground (arith, count_fitting_bound max_bytes (total + length m) ms)

count_fitting_maximal :
    (max_bytes total n : ℕ) (ms : List Bytes)
    → n ≤ length ms
    → total + total_size (take n ms) ≤ max_bytes
    → n ≤ count_fitting max_bytes total ms
unfolding count_fitting
count_fitting_maximal max_bytes total zero ms h f = omega arith
count_fitting_maximal max_bytes total (suc n) [] h f = absurd (omega arith)
count_fitting_maximal max_bytes total (suc n) (m ∷ ms) h f =
    ground (arith, count_fitting_maximal max_bytes (total + length m) n ms)

-- Of a non-empty list, either the first item is above the limit and the error is returned, or the
-- result is a non-empty prefix of the items and of their encodings, its size is within the limit,
-- and it is the whole list or one item more is above the limit.
pub limit_batch_by_size_lem {ℓ} :
    {A : Type ℓ} (items : List A) (m : Bytes) (ms : List Bytes) (max_bytes : ℕ)
    → ((max_bytes < length m) × (limit_batch_by_size items (m ∷ ms) max_bytes ≡ oversized_item))
      ⊎ ((n : ℕ) × (limit_batch_by_size items (m ∷ ms) max_bytes
            ≡ limited (take n items) (take n (m ∷ ms)))
          × (0 < n)
          × (total_size (take n (m ∷ ms)) ≤ max_bytes)
          × ((length (m ∷ ms) ≤ n) ⊎ (max_bytes < total_size (take (suc n) (m ∷ ms)))))
unfolding limit_batch_by_size
limit_batch_by_size_lem items m ms max_bytes = elim (Bool-cases (ltb max_bytes (length m))) [
  | inl big ↦ inl (ground arith, rw big refl)
  | inr small ↦
      let n = count_fitting max_bytes 0 (m ∷ ms) in
      let first : 1 ≤ n =
        count_fitting_maximal max_bytes 0 1 (m ∷ ms) (omega arith) (ground arith) in
      let some_fit : (n == 0) ≡ false = ground arith in
      inr (
        n,
        rw (some_fit, small) refl,
        first,
        omega (arith, count_fitting_bound max_bytes 0 (m ∷ ms) (omega arith)),
        ground (arith, count_fitting_maximal max_bytes 0 (suc n) (m ∷ ms)),
      )
]

pub limit_batch_by_size_cases {ℓ} :
    {A : Type ℓ} (items : List A) (ms : List Bytes) (max_bytes : ℕ)
    → (limit_batch_by_size items ms max_bytes ≡ oversized_item)
      ⊎ (limit_batch_by_size items ms max_bytes ≡ no_items_fit)
      ⊎ ((n : ℕ) × (limit_batch_by_size items ms max_bytes ≡ limited (take n items) (take n ms)))
unfolding limit_batch_by_size
limit_batch_by_size_cases items ms max_bytes =
    let n = count_fitting max_bytes 0 ms in
    elim (Bool-cases (first_too_large max_bytes ms)) [
      | inl e ↦ inl (rw e refl)
      | inr e ↦ elim (Bool-cases (n == 0)) [
        | inl f ↦ inr (inl (rw (e, f) refl))
        | inr f ↦ inr (inr (n, rw (e, f) refl))
      ]
    ]
