-- ===== src/Submitting/Tests.antt =====
-- Submission at concrete inputs.
use chain_sdk.Base.{
  refl, ltb, lt→ltb, ℕ, ◌<◌, ◌≡◌, true, false, List, [], ◌∷◌, some, take, length, if◌then◌else◌,
  arith, leb, Bytes,
}
use chain_sdk.Submitting.Batching.{Threshold}
use chain_sdk.Submitting.Submit.Delivery.{IsLongestFitting, posted_once, submit_to_da_delivers}
use chain_sdk.Submitting.Submit.{
  status_other, Channel, submit_to_da, status_too_big, status_success,
}
use chain_sdk.Submitting.Submit.Prefixes.{HandsOver, submit_to_da-IsPrefixOf}

abbrev numbers : List ℕ
numbers = 1 ∷ 2 ∷ 3 ∷ []

abbrev first_blob : Bytes
first_blob = 1 ∷ 1 ∷ []

abbrev more_blobs : List Bytes
more_blobs = (2 ∷ 2 ∷ []) ∷ (3 ∷ 3 ∷ []) ∷ []

abbrev whole : Threshold
whole = record { in_range = true; scale = λ n. n }

-- Two items are taken the first time, and what comes after is too big.
abbrev channel : Channel
channel = record {
  cancelled = λ a b. false;
  options = λ a. some [];
  submit = λ a ms o. record {
    code = if leb a 0 then status_success else status_too_big;
    submitted_count = 2;
    height = 8;
  };
}

submit_to_da-IsPrefixOf_example :
    HandsOver numbers
      (4 ∷ [])
      (submit_to_da 100 30 6 channel numbers ((1 ∷ []) ∷ (2 ∷ []) ∷ (3 ∷ []) ∷ []) (4 ∷ []) [])
submit_to_da-IsPrefixOf_example =
    submit_to_da-IsPrefixOf 100 30 6 channel numbers ((1 ∷ []) ∷ (2 ∷ []) ∷ (3 ∷ []) ∷ []) (4 ∷ [])
      [] (omega arith)

-- Two failures, and then the whole batch.
abbrev recovering : Channel
recovering = record {
  cancelled = λ a b. false;
  options = λ a. some [];
  submit = λ a ms o. record {
    code = if ltb a 2 then status_other else status_success;
    submitted_count = length ms;
    height = 8;
  };
}

recovering-down :
    (a : ℕ) (ms : List Bytes) → a < 2 → (recovering.submit a ms []).code ≡ status_other
recovering-down a ms h = rw (lt→ltb a 2 h) refl

submit_to_da_delivers_example :
    (n : ℕ) × (0 < n)
    × IsLongestFitting 5 n (first_blob ∷ more_blobs)
    × (submit_to_da 5 30 6 recovering numbers (first_blob ∷ more_blobs) [] []
        ≡ posted_once
            (take n numbers)
            (recovering.submit 2 (take n (first_blob ∷ more_blobs)) []).height)
submit_to_da_delivers_example =
    submit_to_da_delivers recovering [] 2 (λ a b. refl) (λ a. refl) recovering-down (λ ms. refl)
      (λ ms. refl) 5 30 6 numbers first_blob more_blobs [] [] (omega arith) refl (omega arith)
