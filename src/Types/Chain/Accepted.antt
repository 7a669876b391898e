-- ===== src/Types/Chain/Accepted.antt =====
-- What the checks of types/state.go guarantee of a block that they accept, and of a chain of them.
use chain_sdk.Base.{
  ℕ, ◌≡◌, ◌==◌, refl, sym, if_same, ltb, true, false, subst, ap, Option-cases, Option, none, some,
  List, arith, length, Bytes, bytes_equal, bytes_equal_sound, bytes_equal_refl, add_u64, ◌≤◌, ◌⊎◌,
  inl, inr,
}
use chain_sdk.Types.Header.{SignedHeader, unix_time}
use chain_sdk.Types.Chain.{
  State, Tracking, do_once, SequenceError, check_app_hash, check_hashes, assert_valid_sequence,
  Data, Metadata, validate, mismatches, BlockError, on_data, on_sequence,
  assert_valid_for_next_state,
}

-- The pair of results is an acceptance that leaves the tracking t'.
abbrev pub IsLinked : Tracking → State → SignedHeader → Tracking → Type 0
IsLinked t s sh t' =
    ((bytes_equal sh.last_header_hash s.last_header_hash ≡ true) × (t' ≡ t))
    ⊎ ((bytes_equal sh.last_header_hash s.last_header_hash ≡ false)
        × ((t.err_count == 1) ≡ false)
        × (t' ≡ do_once t))

check_app_hash-none :
    (s : State) (sh : SignedHeader)
    → check_app_hash s sh ≡ none
    → bytes_equal sh.app_hash s.app_hash ≡ true
unfolding check_app_hash
check_app_hash-none s sh h = ground arith

check_hashes-none :
    (t t' : Tracking) (s : State) (sh : SignedHeader)
    → check_hashes t s sh ≡ (t', none)
    → IsLinked t s sh t' × (check_app_hash s sh ≡ none)
unfolding check_hashes
check_hashes-none t t' s sh h = ground arith

sequence-none :
    (t t' : Tracking) (s : State) (sh : SignedHeader)
    → assert_valid_sequence t s sh ≡ (t', none)
    → (length s.last_header_hash == 0) ≡ false
    → (bytes_equal sh.chain_id s.chain_id ≡ true)
      × (sh.height ≡ add_u64 s.last_block_height 1)
      × (s.last_block_time ≤ unix_time sh.nanos)
      × (check_hashes t s sh ≡ (t', none))
unfolding assert_valid_sequence
sequence-none t t' s sh h started = ground arith

on_sequence-none :
    (c : List Bytes → Bytes) (t' : Tracking) (sh : SignedHeader) (d : Data)
    (r : Tracking × Option SequenceError)
    → on_sequence c sh d r ≡ (t', none)
    → (r ≡ (t', none)) × (validate c sh d ≡ none)
unfolding on_sequence on_data
on_sequence-none c t' sh d (t1, some x) h = cc
on_sequence-none c t' sh d (t1, none) h = elim (Option-cases (validate c sh d)) [
  | inl e ↦ (ap (λ (x : Tracking). (x, none)) (ap (λ (p : Tracking × Option BlockError). p.0) h), e)
  | inr (x, e) ↦
      cc (subst (λ r. on_data r ≡ none) e (ap (λ (p : Tracking × Option BlockError). p.1) h))
]

-- The metadata, where there is some, agrees with the header.
abbrev MatchesMetadata : SignedHeader → Option Metadata → Type 0
MatchesMetadata sh none = Unit {0}
MatchesMetadata sh (some m) =
    (m.chain_id ≡ sh.chain_id) × (m.height ≡ sh.height) × (unix_time m.nanos ≡ unix_time sh.nanos)

mismatches-MatchesMetadata :
    (sh : SignedHeader) (o : Option Metadata) → mismatches sh o ≡ false → MatchesMetadata sh o
unfolding mismatches
mismatches-MatchesMetadata sh none h = tt
mismatches-MatchesMetadata sh (some m) h =
    let (c, k, t) : (bytes_equal sh.chain_id m.chain_id ≡ true)
        × (sh.height ≡ m.height)
        × (unix_time sh.nanos ≡ unix_time m.nanos) =
      ground arith in
    (sym (bytes_equal_sound sh.chain_id m.chain_id c), sym k, sym t)

-- What the data of an accepted block agrees with.
abbrev pub MatchesData : (List Bytes → Bytes) → SignedHeader → Data → Type 0
MatchesData c sh d = MatchesMetadata sh d.metadata × (c d.txs ≡ sh.data_hash)

validate-none :
    (c : List Bytes → Bytes) (sh : SignedHeader) (d : Data)
    → validate c sh d ≡ none
    → MatchesData c sh d
unfolding validate
validate-none c sh d h =
    let (m, e) : (mismatches sh d.metadata ≡ false) × (bytes_equal (c d.txs) sh.data_hash ≡ true) =
      ground arith in
    (mismatches-MatchesMetadata sh d.metadata m, bytes_equal_sound (c d.txs) sh.data_hash e)

-- A block that AssertValidForNextState accepts on a state with a last header hash has the state's
-- chain id, the next height modulo 2^64, a time that is not before the last one and the state's app
-- hash; its last header hash is the state's, or differs while the counter is not one and the
-- tracking is updated; its data matches the header's chain id, height and time where it has
-- metadata, and its commitment is the header's data hash.
pub accepted_block_lem :
    (c : List Bytes → Bytes) (t t' : Tracking) (s : State) (sh : SignedHeader) (d : Data)
    → assert_valid_for_next_state c t s sh d ≡ (t', none)
    → (length s.last_header_hash == 0) ≡ false
    → (sh.chain_id ≡ s.chain_id)
      × (sh.height ≡ add_u64 s.last_block_height 1)
      × (s.last_block_time ≤ unix_time sh.nanos)
      × (sh.app_hash ≡ s.app_hash)
      × IsLinked t s sh t'
      × MatchesData c sh d
unfolding assert_valid_for_next_state
accepted_block_lem c t t' s sh d h started =
    let (in_order, valid) = on_sequence-none c t' sh d (assert_valid_sequence t s sh) h in
    let (same_chain, next, later, hashes) = sequence-none t t' s sh in_order started in
    let (linked, app) = check_hashes-none t t' s sh hashes in
    (
      bytes_equal_sound sh.chain_id s.chain_id same_chain,
      next,
      later,
      bytes_equal_sound sh.app_hash s.app_hash (check_app_hash-none s sh app),
      linked,
      validate-none c sh d valid,
    )

same : (xs ys : Bytes) → xs ≡ ys → bytes_equal xs ys ≡ true
same xs ys e = subst (λ zs. bytes_equal xs zs ≡ true) e (bytes_equal_refl xs)

same_number : (m n : ℕ) → m ≡ n → (m == n) ≡ true
same_number m n e = ground arith

not_earlier : (a b : ℕ) → a ≤ b → ltb b a ≡ false
not_earlier a b le = ground arith

assert_valid_sequence-accepts :
    (t : Tracking) (s : State) (sh : SignedHeader)
    → sh.chain_id ≡ s.chain_id
    → sh.height ≡ add_u64 s.last_block_height 1
    → s.last_block_time ≤ unix_time sh.nanos
    → sh.last_header_hash ≡ s.last_header_hash
    → sh.app_hash ≡ s.app_hash
    → assert_valid_sequence t s sh ≡ (t, none)
unfolding assert_valid_sequence check_hashes check_app_hash
assert_valid_sequence-accepts t s sh c h n l a =
    rw
      (
        same sh.chain_id s.chain_id c,
        same_number sh.height (add_u64 s.last_block_height 1) h,
        not_earlier s.last_block_time (unix_time sh.nanos) n,
        same sh.last_header_hash s.last_header_hash l,
        same sh.app_hash s.app_hash a,
      )
      (if_same (length s.last_header_hash == 0) (t, none))

validate-accepts :
    (commitment : List Bytes → Bytes) (sh : SignedHeader) (m : Metadata) (txs : List Bytes)
    → m ≡ record { chain_id = sh.chain_id; height = sh.height; nanos = sh.nanos }
    → commitment txs ≡ sh.data_hash
    → validate commitment sh (record { metadata = some m; txs = txs }) ≡ none
unfolding validate mismatches
validate-accepts commitment sh m txs em ec = rw (em) (
    rw
      (
        bytes_equal_refl sh.chain_id,
        same_number sh.height sh.height refl,
        same_number (unix_time sh.nanos) (unix_time sh.nanos) refl,
        same (commitment txs) sh.data_hash ec,
      )
      refl)

-- A block that continues the chain, with metadata as in its header, is accepted and changes no
-- package variable.
pub assert_valid_for_next_state-accepts :
    (commitment : List Bytes → Bytes) (t : Tracking) (s : State) (sh : SignedHeader)
    (txs : List Bytes)
    → sh.chain_id ≡ s.chain_id
    → sh.height ≡ add_u64 s.last_block_height 1
    → s.last_block_time ≤ unix_time sh.nanos
    → sh.last_header_hash ≡ s.last_header_hash
    → sh.app_hash ≡ s.app_hash
    → commitment txs ≡ sh.data_hash
    → assert_valid_for_next_state commitment t s sh (record {
      metadata = some (record { chain_id = sh.chain_id; height = sh.height; nanos = sh.nanos });
      txs = txs;
    })
      ≡ (t, none)
unfolding assert_valid_for_next_state on_sequence on_data
assert_valid_for_next_state-accepts commitment t s sh txs c h n l a ec =
    rw
      (assert_valid_sequence-accepts t s sh c h n l a, validate-accepts commitment sh _ txs refl ec)
      refl
