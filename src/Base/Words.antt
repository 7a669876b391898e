-- ===== src/Base/Words.antt =====
-- Go's unsigned 64-bit arithmetic, with its wrap-around, and its little-endian encoding.
use Prim.Native.Nat.{ℕ, zero, suc, ◌+◌, ◌-◌, ◌*◌, ◌/◌, ◌%◌, ◌^◌, ◌<◌}
use mathlib.Core.Path.{◌≡◌, refl, ap}
use mathlib.Core.List.{List, [], ◌∷◌}
use native.Mathlib.Omega.{arith}
use native.Mathlib.Nat.{pow-suc}
use chain_sdk.Base.Lists.{length}

abbrev pub u64_mod : ℕ
u64_mod = 2 ^ 64

abbrev pub add_u64 : ℕ → ℕ → ℕ
add_u64 a b = (a + b) % u64_mod

-- `-` on ℕ stops at 0, so the modulus is added first.
abbrev pub sub_u64 : ℕ → ℕ → ℕ
sub_u64 a b = (a + u64_mod - b) % u64_mod

-- binary.LittleEndian.Uint64
unfoldable pub little_endian : List ℕ → ℕ
little_endian [] = 0
little_endian (b ∷ bs) = b + 256 * little_endian bs

-- The lowest n bytes; binary.LittleEndian.PutUint64 puts eight.
unfoldable pub put_little_endian : ℕ → ℕ → List ℕ
put_little_endian zero v = []
put_little_endian (suc n) v = (v % 256) ∷ put_little_endian n (v / 256)

quotient_bound : (m v : ℕ) → v < m * 256 → v / 256 < m
quotient_bound m v h = omega arith

pub little_endian-put : (n v : ℕ) → v < 256 ^ n → little_endian (put_little_endian n v) ≡ v
unfolding little_endian put_little_endian
little_endian-put zero v h = omega arith
little_endian-put (suc n) v h =
    let ih : little_endian (put_little_endian n (v / 256)) ≡ v / 256 =
      little_endian-put n (v / 256) (quotient_bound (256 ^ n) v (omega (arith, pow-suc 256 n))) in
    omega arith

pub length-put_little_endian : (n v : ℕ) → length (put_little_endian n v) ≡ n
unfolding put_little_endian
length-put_little_endian zero v = refl
length-put_little_endian (suc n) v = ap suc (length-put_little_endian n (v / 256))
