-- ===== src/Merkle/Tests.antt =====
-- A run of the Merkle tree on concrete commitments.
use chain_sdk.Base.{
  ℕ, zero, suc, ◌+◌, ◌*◌, ◌/◌, ◌%◌, ◌<◌, ◌≡◌, refl, ap, subst, true, Option, some, some-inj, List,
  [], ◌∷◌, arith, Bytes, length,
}
use chain_sdk.Merkle.{
  Hashing, AllByte, PathStep, to_hex, compute_root, build_proof, verify, decode_all,
}
use chain_sdk.Merkle.Proofs.{verify-build_proof}

abbrev filled : ℕ → ℕ → Bytes
filled zero b = []
filled (suc n) b = b ∷ filled n b

filled-AllByte : (n b : ℕ) → b < 256 → AllByte (filled n b)
filled-AllByte zero b lt = tt
filled-AllByte (suc n) b lt = (lt, filled-AllByte n b lt)

length-filled : (n b : ℕ) → length (filled n b) ≡ n
length-filled zero b = refl
length-filled (suc n) b = omega (arith, length-filled n b)

-- In place of SHA-256: the number of bytes that are not zero, modulo 256.
abbrev weight : Bytes → ℕ
weight [] = 0
weight (b ∷ bs) = b + weight bs

-- The two digits, to the base 16, in place of their characters.
abbrev scan_digits : ℕ → ℕ → Option ℕ
scan_digits c d = some ((16 * c + d) % 256)

split_byte : (b : ℕ) → b < 256 → (16 * (b / 16) + b % 16) % 256 ≡ b
split_byte b lt = omega arith

scan-below : (c d b : ℕ) → scan_digits c d ≡ some b → b < 256
scan-below c d b e = subst (λ (x : ℕ). x < 256) (some-inj e) (omega arith)

abbrev hashing : Hashing
hashing = record {
  sha256 = λ (v : Bytes). filled 32 (weight v % 256);
  digits = λ (b : ℕ). (b / 16, b % 16);
  scan = scan_digits;
  sha256-IsNode = λ (v : Bytes).
      (length-filled 32 (weight v % 256), filled-AllByte 32 (weight v % 256) (omega arith));
  scan-lt = scan-below;
  scan-digits = λ (b : ℕ) (lt : b < 256). ap (λ (x : ℕ). some x) (split_byte b lt);
}

abbrev leaves : List Bytes
leaves = filled 32 1 ∷ filled 32 2 ∷ filled 32 3 ∷ []

abbrev commitments : List Bytes
commitments =
    to_hex hashing (filled 32 1) ∷ to_hex hashing (filled 32 2) ∷ to_hex hashing (filled 32 3) ∷ []

decoded : decode_all hashing commitments ≡ some leaves
unfolding decode_all to_hex
decoded = refl

-- The last leaf of an odd number is its own sibling.
verify-build_proof_example :
    (path : List PathStep) × (build_proof hashing commitments 2
      ≡ some (to_hex hashing (compute_root hashing leaves), path))
    × (verify hashing
          (to_hex hashing (compute_root hashing leaves))
          (to_hex hashing (filled 32 3))
          path
        ≡ true)
verify-build_proof_example =
    verify-build_proof hashing commitments leaves 2 (to_hex hashing (filled 32 3)) decoded refl
