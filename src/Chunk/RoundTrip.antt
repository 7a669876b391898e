-- ===== src/Chunk/RoundTrip.antt =====
-- What is split is put together again, and no chunk is larger than the limit.
use chain_sdk.Base.{
  ℕ, zero, suc, ◌≤◌, ◌<◌, ◌≡◌, ◌==◌, ◌∙◌, refl, sym, ap, inl, inr, Bool-cases, some, List, [], ◌∷◌,
  ◌++◌, leb, arith, length, length-take, length-drop, take, drop, take-append-drop, min, Bytes,
  bytes_equal_refl, ==_iff,
}
use mathlib.Core.List.{append-nil}
use chain_sdk.Chunk.{Meta, split_rounds, split_bytes, limit_of, concat, split, verified, reassemble}

abbrev AllWithin : ℕ → List Bytes → Type 0
AllWithin limit [] = Unit {0}
AllWithin limit (c ∷ cs) = (0 < length c) × (length c ≤ limit) × AllWithin limit cs

length-zero : (bytes : Bytes) → length bytes ≡ 0 → bytes ≡ []
length-zero [] h = refl
length-zero (b ∷ bytes) h = absurd (omega arith)

split_rounds_lem :
    (fuel : ℕ) (bytes : Bytes) (size : ℕ)
    → 0 < size
    → length bytes ≤ fuel
    → (concat (split_rounds fuel bytes size) ≡ bytes)
      × AllWithin size (split_rounds fuel bytes size)
unfolding split_rounds concat
split_rounds_lem zero bytes size pos enough = (sym (length-zero bytes (omega arith)), tt)
split_rounds_lem (suc fuel) bytes size pos enough = elim (Bool-cases (length bytes == 0)) [
  | inl y ↦ rw y (sym (length-zero bytes ((==_iff (length bytes) 0).0 y)), tt)
  | inr n ↦
      (let end = min size (length bytes) in
        let some_left : 0 < length bytes = ground arith in
        let (whole, within) =
          split_rounds_lem fuel (drop end bytes) size pos (omega (arith, length-drop end bytes)) in
        rw n (
          ap (λ r. take end bytes ++ r) whole ∙ take-append-drop end bytes,
          (omega (arith, length-take end bytes), omega (arith, length-take end bytes), within),
        ))
]

limit_of-positive : (max_size : ℕ) → 0 < limit_of max_size
unfolding limit_of
limit_of-positive max_size = ground arith

module _ (digest : Bytes → Bytes) where
  reassemble-verified :
      (bytes : Bytes) (cs : List Bytes) (meta : Meta)
      → concat cs ≡ bytes
      → 0 < length bytes
      → meta.original_hash ≡ digest bytes
      → reassemble digest cs (some meta) ≡ some bytes
  unfolding reassemble concat
  reassemble-verified bytes [] meta e pos h = absurd (omega (arith, ap (λ (b : Bytes). length b) e))
  reassemble-verified bytes (c ∷ cs) meta e pos h =
      rw (e, h, verified, bytes_equal_refl (digest bytes)) refl

  -- What Split makes of a blob, Reassemble puts together to the blob, whatever the size limit.
  pub reassemble-split :
      (bytes : Bytes) (max_size : ℕ)
      → reassemble digest (split digest bytes max_size).0 (split digest bytes max_size).1
        ≡ some bytes
  unfolding split reassemble
  reassemble-split bytes max_size = elim (Bool-cases (leb (length bytes) (limit_of max_size))) [
    | inl y ↦ rw y (ap some (append-nil bytes))
    | inr n ↦
        (let (whole, within) =
            split_rounds_lem (length bytes) bytes (limit_of max_size) (limit_of-positive max_size)
              (omega arith) in
          rw n (
            reassemble-verified bytes (split_bytes bytes (limit_of max_size)) _ whole (ground arith)
              refl))
  ]

  -- The chunks of a blob that is not empty are not empty and within the limit.
  split-AllWithin :
      (bytes : Bytes) (max_size : ℕ)
      → 0 < length bytes
      → AllWithin (limit_of max_size) (split digest bytes max_size).0
  unfolding split
  split-AllWithin bytes max_size pos = elim (Bool-cases (leb (length bytes) (limit_of max_size))) [
    | inl y ↦ rw y (pos, ground arith, tt)
    | inr n ↦
        rw n
          (split_rounds_lem (length bytes) bytes (limit_of max_size) (limit_of-positive max_size)
            (omega arith)).1
  ]
