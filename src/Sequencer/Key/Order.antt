-- ===== src/Sequencer/Key/Order.antt =====
-- Keys keep their sequence number, and their order as strings is the order of the numbers.
use Prim.Native.Nat.{compare, Ordering}
use native.Mathlib.Nat.{pow-suc}
use chain_sdk.Base.{
  ℕ, zero, suc, ◌/◌, ◌%◌, ◌^◌, ◌<◌, ◌≡◌, refl, sym, ap, ◌∙◌, Option, none, some, [], ◌∷◌, ◌++◌,
  arith, Bytes, bytes_compare, u64_mod, length, length-append,
}
use chain_sdk.Sequencer.Key.{
  hex_char, hex_digits, seq_to_key, hex_value, add_digit, parse_from, parse_uint,
}

hex_value-hex_char : (d : ℕ) → d < 16 → hex_value (hex_char d) ≡ some d
unfolding hex_value hex_char
hex_value-hex_char d h = ground arith

parse_from-append :
    (o : Option ℕ) (xs ys : Bytes) → parse_from o (xs ++ ys) ≡ parse_from (parse_from o xs) ys
unfolding parse_from
parse_from-append none xs ys = refl
parse_from-append (some acc) [] ys = refl
parse_from-append (some acc) (x ∷ xs) ys = parse_from-append (add_digit acc (hex_value x)) xs ys

pow_step : (k n : ℕ) → n < 16 ^ suc k → n / 16 < 16 ^ k
pow_step k n h = omega (arith, pow-suc 16 k)

parse_from-hex_digits : (k n : ℕ) → n < 16 ^ k → parse_from (some 0) (hex_digits k n) ≡ some n
unfolding parse_from hex_digits add_digit
parse_from-hex_digits zero n h = ground arith
parse_from-hex_digits (suc k) n h =
    rw
      (
        parse_from-append (some 0) (hex_digits k (n / 16)) (hex_char (n % 16) ∷ []),
        parse_from-hex_digits k (n / 16) (pow_step k n h),
        parse_from,
        hex_value-hex_char (n % 16) (omega arith),
      )
      (ap some (omega arith))

-- A 64-bit sequence number is read back from its key.
pub parse_uint-seq_to_key : (seq : ℕ) → seq < u64_mod → parse_uint (seq_to_key seq) ≡ some seq
unfolding parse_uint seq_to_key
parse_uint-seq_to_key seq h = parse_from-hex_digits 16 seq h

length-hex_digits : (k n : ℕ) → length (hex_digits k n) ≡ k
unfolding hex_digits
length-hex_digits zero n = refl
length-hex_digits (suc k) n = omega (
  arith,
  length-hex_digits k (n / 16),
  length-append (hex_digits k (n / 16)) (hex_char (n % 16) ∷ []),
)

pub length-seq_to_key : (seq : ℕ) → length (seq_to_key seq) ≡ 16
unfolding seq_to_key
length-seq_to_key seq = length-hex_digits 16 seq

then_compare : Ordering → Ordering → Ordering
then_compare Ordering.lt o = Ordering.lt
then_compare Ordering.eq o = o
then_compare Ordering.gt o = Ordering.gt

bytes_compare-snoc :
    (xs ys : Bytes) (c d : ℕ)
    → length xs ≡ length ys
    → bytes_compare (xs ++ c ∷ []) (ys ++ d ∷ []) ≡ then_compare (bytes_compare xs ys) (compare c d)
unfolding bytes_compare then_compare
bytes_compare-snoc [] [] c d h = ground arith
bytes_compare-snoc [] (y ∷ ys) c d h = ground arith
bytes_compare-snoc (x ∷ xs) [] c d h = ground arith
bytes_compare-snoc (x ∷ xs) (y ∷ ys) c d h = ground (arith, bytes_compare-snoc xs ys c d)

compare-digit :
    (m n : ℕ)
    → then_compare (compare (m / 16) (n / 16)) (compare (hex_char (m % 16)) (hex_char (n % 16)))
      ≡ compare m n
unfolding then_compare hex_char
compare-digit m n = ground arith

bytes_compare-hex_digits :
    (k m n : ℕ)
    → m < 16 ^ k
    → n < 16 ^ k
    → bytes_compare (hex_digits k m) (hex_digits k n) ≡ compare m n
unfolding hex_digits bytes_compare
bytes_compare-hex_digits zero m n h g = ground arith
bytes_compare-hex_digits (suc k) m n h g =
    bytes_compare-snoc (hex_digits k (m / 16)) (hex_digits k (n / 16)) (hex_char (m % 16))
      (hex_char (n % 16)) (length-hex_digits k (m / 16) ∙ sym (length-hex_digits k (n / 16)))
    ∙ rw (bytes_compare-hex_digits k (m / 16) (n / 16) (pow_step k m h) (pow_step k n g))
        (compare-digit m n)

-- The keys of two 64-bit sequence numbers compare, as strings, as the numbers do.
pub bytes_compare-seq_to_key :
    (m n : ℕ)
    → m < u64_mod
    → n < u64_mod
    → bytes_compare (seq_to_key m) (seq_to_key n) ≡ compare m n
unfolding seq_to_key
bytes_compare-seq_to_key m n h g = bytes_compare-hex_digits 16 m n h g
