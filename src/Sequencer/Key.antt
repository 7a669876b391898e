-- ===== src/Sequencer/Key.antt =====
-- seqToKey of pkg/sequencers/single/queue.go, and strconv.ParseUint of its result.
pub mod Order
use chain_sdk.Base.{
  ℕ, zero, suc, ◌+◌, ◌-◌, ◌*◌, ◌/◌, ◌%◌, Bool, ◌&&◌, Option, none, some, List, [], ◌∷◌, ◌++◌, ltb,
  leb, if◌then◌else◌, Bytes,
}

-- hex.EncodeToString writes lower case.
pub hex_char : ℕ → ℕ
hex_char d = if ltb d 10 then b'0' + d else b'a' + (d - 10)

-- The last `k` hexadecimal digits of a number, the most significant first.
pub hex_digits : ℕ → ℕ → Bytes
hex_digits zero n = []
hex_digits (suc k) n = hex_digits k (n / 16) ++ hex_char (n % 16) ∷ []

-- Eight bytes, big endian, are sixteen digits.
pub seq_to_key : ℕ → Bytes
unfolding hex_digits hex_char
seq_to_key seq = hex_digits 16 seq

pub hex_value : ℕ → Option ℕ
hex_value c =
    if leb b'0' c && leb c b'9'
    then some (c - b'0')
    else if leb b'a' c && leb c b'f'
    then some (c - b'a' + 10)
    else if leb b'A' c && leb c b'F'
    then some (c - b'A' + 10)
    else none

add_digit : ℕ → Option ℕ → Option ℕ
add_digit acc none = none
add_digit acc (some d) = some (acc * 16 + d)

parse_from : Option ℕ → Bytes → Option ℕ
parse_from none s = none
parse_from (some acc) [] = some acc
parse_from (some acc) (c ∷ s) = parse_from (add_digit acc (hex_value c)) s

-- strconv.ParseUint(s, 16, 64) for a text of 16 characters, which cannot overflow.
pub parse_uint : Bytes → Option ℕ
unfolding parse_from add_digit hex_value
parse_uint s = parse_from (some 0) s
