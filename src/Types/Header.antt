-- ===== src/Types/Header.antt =====
-- Header and SignedHeader of types/header.go and types/signed_header.go, with their basic
-- validation. The protobuf encodings of a header, the public key's check and the clock are
-- parameters.
mod Tests
use chain_sdk.Base.{
  ◌≤◌, ◌≢◌, ℕ, ◌+◌, ◌%◌, ◌^◌, ◌≡◌, ◌==◌, refl, ◌⊎◌, inl, inr, Bool, true, false, not, ◌||◌,
  Bool-cases, subst, sym, ap, ◌∙◌, Option-cases, Option, none, some, List, [], ◌∷◌, ◌++◌, ltb,
  if◌then◌else◌, arith, length, Bytes, bytes_equal, u64_mod,
}

-- `block` and `app` of Version are copied only, and left out, as are ValidatorHash and Legacy.
pub record Header : Type 0 where
  pub chain_id : Bytes
  pub height : ℕ
  pub nanos : ℕ
  pub last_header_hash : Bytes
  pub data_hash : Bytes
  pub app_hash : Bytes
  pub proposer_address : Bytes

-- time.Unix(0, int64(nanos)), in nanoseconds after the earliest such time: int64 wraps, and the
-- order of the times is the order of these numbers.
unfoldable pub unix_time : ℕ → ℕ
unix_time nanos = (nanos + 2 ^ 63) % u64_mod

pub record SignedHeader : Type 0 where
  pub header : Header
  pub open header use *
  pub signature : Bytes
  pub signer_address : Bytes

pub data HeaderError : Type 0 where
  no_proposer_address zero_timestamp timestamp_in_future : HeaderError
  signature_empty proposer_mismatch provider_failed marshal_failed : HeaderError
  verify_error signature_verification_failed : HeaderError

-- `none` is no error. `max_allowed` is now plus the clock drift.
unfoldable pub header_validate_basic : ℕ → Header → Option HeaderError
unfolding unix_time
header_validate_basic max_allowed h =
    if length h.proposer_address == 0
    then some no_proposer_address
    else if h.nanos == 0
    then some zero_timestamp
    else if ltb max_allowed (unix_time h.nanos)
    then some timestamp_in_future
    else none

-- PubKey.Verify of the signer for the header's signature (`none` is an error), the custom provider
-- if one is set, and the two encodings. `none` inside is an error.
pub record Signing : Type 0 where
  pub verify : Bytes → Option Bool
  pub provider : Option (Option Bytes)
  pub slim : Option Bytes
  pub legacy : Option Bytes

was_tried : Bytes → List Bytes → Bool
was_tried payload [] = false
was_tried payload (p ∷ ps) = bytes_equal p payload || was_tried payload ps

-- tryPayload: the payloads tried so far, and whether this one verified; `none` is an error.
unfoldable pub try_payload : (Bytes → Option Bool) → Bytes → List Bytes → Option (List Bytes × Bool)
unfolding was_tried
try_payload verify payload tried =
    if length payload == 0
    then some (tried, false)
    else if was_tried payload tried
    then some (tried, false)
    else elim (verify payload) [ none ↦ none | some ok ↦ some (tried ++ payload ∷ [], ok) ]

on_legacy : Option (List Bytes × Bool) → Option HeaderError
on_legacy none = some verify_error
on_legacy (some (tried, true)) = none
on_legacy (some (tried, false)) = some signature_verification_failed

try_legacy : Signing → Option Bytes → List Bytes → Option HeaderError
unfolding on_legacy
try_legacy s none tried = some marshal_failed
try_legacy s (some payload) tried = on_legacy (try_payload s.verify payload tried)

on_slim : Signing → Option (List Bytes × Bool) → Option HeaderError
unfolding try_legacy
on_slim s none = some verify_error
on_slim s (some (tried, true)) = none
on_slim s (some (tried, false)) = try_legacy s s.legacy tried

try_slim : Signing → Option Bytes → List Bytes → Option HeaderError
unfolding on_slim
try_slim s none tried = some marshal_failed
try_slim s (some payload) tried = on_slim s (try_payload s.verify payload tried)

on_custom : Signing → Option (List Bytes × Bool) → Option HeaderError
unfolding try_slim
on_custom s none = some verify_error
on_custom s (some (tried, true)) = none
on_custom s (some (tried, false)) = try_slim s s.slim tried

try_custom : Signing → Option (Option Bytes) → Option HeaderError
unfolding on_custom
try_custom s none = try_slim s s.slim []
try_custom s (some none) = some provider_failed
try_custom s (some (some payload)) = on_custom s (try_payload s.verify payload [])

check_signature : Signing → SignedHeader → Option HeaderError
unfolding try_custom
check_signature s sh =
    if length sh.signature == 0
    then some signature_empty
    else if not (bytes_equal sh.proposer_address sh.signer_address)
    then some proposer_mismatch
    else try_custom s s.provider

on_basic : Signing → SignedHeader → Option HeaderError → Option HeaderError
unfolding check_signature
on_basic s sh (some e) = some e
on_basic s sh none = check_signature s sh

-- ValidateBasic and ValidateBasicWithData, which differ in the provider that is set.
unfoldable pub validate_basic : ℕ → Signing → SignedHeader → Option HeaderError
unfolding header_validate_basic on_basic
validate_basic max_allowed s sh = on_basic s sh (header_validate_basic max_allowed sh.header)

-- A payload that the header may be signed over.
abbrev IsPayload : Signing → Bytes → Type 0
IsPayload s p = (s.provider ≡ some (some p)) ⊎ (s.slim ≡ some p) ⊎ (s.legacy ≡ some p)

abbrev Verified : Signing → Type 0
Verified s = (p : Bytes) × IsPayload s p × (s.verify p ≡ some true)

try_payload-true :
    (verify : Bytes → Option Bool) (payload : Bytes) (tried tried' : List Bytes)
    → try_payload verify payload tried ≡ some (tried', true)
    → verify payload ≡ some true
unfolding try_payload
try_payload-true verify payload tried tried' h = ground arith

try_payload-cases :
    (verify : Bytes → Option Bool) (payload : Bytes) (tried : List Bytes)
    → (try_payload verify payload tried ≡ none)
      ⊎ ((t : List Bytes) × (try_payload verify payload tried ≡ some (t, true))
          × (verify payload ≡ some true))
      ⊎ ((t : List Bytes) × (try_payload verify payload tried ≡ some (t, false)))
try_payload-cases verify payload tried = elim (Option-cases (try_payload verify payload tried)) [
  | inl f ↦ inl f
  | inr ((t, b), f) ↦ elim (Bool-cases b) [
    | inl y ↦
        (let g = f ∙ ap (λ (x : Bool). some (t, x)) y in
          inr (inl (t, g, try_payload-true verify payload tried t g)))
    | inr n ↦ inr (inr (t, f ∙ ap (λ (x : Bool). some (t, x)) n))
  ]
]

try_legacy-Verified :
    (s : Signing) (o : Option Bytes) (tried : List Bytes)
    → s.legacy ≡ o
    → try_legacy s o tried ≡ none
    → Verified s
unfolding try_legacy
try_legacy-Verified s none tried e h = cc
try_legacy-Verified s (some p) tried e h = elim (try_payload-cases s.verify p tried) [
  | inl f ↦ cc (subst (λ r. on_legacy r ≡ none) f h)
  | inr (inl (t, f, v)) ↦ (p, inr (inr e), v)
  | inr (inr (t, f)) ↦ cc (subst (λ r. on_legacy r ≡ none) f h)
]

try_slim-Verified :
    (s : Signing) (o : Option Bytes) (tried : List Bytes)
    → s.slim ≡ o
    → try_slim s o tried ≡ none
    → Verified s
unfolding try_slim
try_slim-Verified s none tried e h = cc
try_slim-Verified s (some p) tried e h = elim (try_payload-cases s.verify p tried) [
  | inl f ↦ cc (subst (λ r. on_slim s r ≡ none) f h)
  | inr (inl (t, f, v)) ↦ (p, inr (inl e), v)
  | inr (inr (t, f)) ↦ try_legacy-Verified s s.legacy t refl (subst (λ r. on_slim s r ≡ none) f h)
]

try_custom-Verified :
    (s : Signing) (o : Option (Option Bytes)) → s.provider ≡ o → try_custom s o ≡ none → Verified s
unfolding try_custom
try_custom-Verified s none e h = try_slim-Verified s s.slim [] refl h
try_custom-Verified s (some none) e h = cc
try_custom-Verified s (some (some p)) e h = elim (try_payload-cases s.verify p []) [
  | inl f ↦ cc (subst (λ r. on_custom s r ≡ none) f h)
  | inr (inl (t, f, v)) ↦ (p, inl e, v)
  | inr (inr (t, f)) ↦ try_slim-Verified s s.slim t refl (subst (λ r. on_custom s r ≡ none) f h)
]

-- The checks that come before the signature's.
abbrev pub IsWellFormed : ℕ → SignedHeader → Type 0
IsWellFormed max_allowed sh =
    ((length sh.proposer_address == 0) ≡ false)
    × (sh.nanos ≢ 0)
    × (unix_time sh.nanos ≤ max_allowed)
    × ((length sh.signature == 0) ≡ false)
    × (bytes_equal sh.proposer_address sh.signer_address ≡ true)

header_validate_basic-none :
    (max_allowed : ℕ) (h : Header)
    → header_validate_basic max_allowed h ≡ none
    → ((length h.proposer_address == 0) ≡ false) × (h.nanos ≢ 0) × (unix_time h.nanos ≤ max_allowed)
unfolding header_validate_basic
header_validate_basic-none max_allowed h e = ground arith

header_validate_basic-accepts :
    (max_allowed : ℕ) (h : Header)
    → (length h.proposer_address == 0) ≡ false
    → h.nanos ≢ 0
    → unix_time h.nanos ≤ max_allowed
    → header_validate_basic max_allowed h ≡ none
unfolding header_validate_basic
header_validate_basic-accepts max_allowed h p n t = ground arith

check_signature-none :
    (s : Signing) (sh : SignedHeader)
    → check_signature s sh ≡ none
    → ((length sh.signature == 0) ≡ false)
      × (bytes_equal sh.proposer_address sh.signer_address ≡ true)
      × (try_custom s s.provider ≡ none)
unfolding check_signature
check_signature-none s sh h = ground arith

-- A signed header that ValidateBasic accepts has a proposer address, a nonzero time that is not
-- after the allowed one, a signature and its signer as its proposer, and the signer's key verifies
-- the signature over the custom, the slim or the legacy payload.
pub validate_basic_lem :
    (max_allowed : ℕ) (s : Signing) (sh : SignedHeader)
    → validate_basic max_allowed s sh ≡ none
    → IsWellFormed max_allowed sh × Verified s
unfolding validate_basic
validate_basic_lem max_allowed s sh h =
    elim (Option-cases (header_validate_basic max_allowed sh.header)) [
      | inr (e, f) ↦ cc (subst (λ r. on_basic s sh r ≡ none) f h)
      | inl f ↦
          (let (n, m, v) = check_signature-none s sh (subst (λ r. on_basic s sh r ≡ none) f h) in
            let (p, some_time, early) = header_validate_basic-none max_allowed sh.header f in
            ((p, some_time, early, n, m), try_custom-Verified s s.provider refl v))
    ]

not_empty : (x : ℕ) (p : Bytes) → (length (x ∷ p) == 0) ≡ false
not_empty x p = ground arith

signed-accepted :
    (s : Signing) (sh : SignedHeader) (x : ℕ) (p : Bytes)
    → ((length sh.signature == 0) ≡ false)
    → (bytes_equal sh.proposer_address sh.signer_address ≡ true)
    → s.provider ≡ none
    → s.slim ≡ some (x ∷ p)
    → s.verify (x ∷ p) ≡ some true
    → check_signature s sh ≡ none
unfolding check_signature try_payload was_tried
signed-accepted s sh x p n m no_provider slim v =
    rw (n, m, no_provider, slim, not_empty x p, v) refl

-- With no custom provider, a well-formed header whose slim encoding is not empty and is what the
-- signer's key verifies is accepted.
validate_basic-signed :
    (max_allowed : ℕ) (s : Signing) (sh : SignedHeader) (x : ℕ) (p : Bytes)
    → IsWellFormed max_allowed sh
    → s.provider ≡ none
    → s.slim ≡ some (x ∷ p)
    → s.verify (x ∷ p) ≡ some true
    → validate_basic max_allowed s sh ≡ none
unfolding validate_basic try_payload was_tried
validate_basic-signed max_allowed s sh x p (a, z, t, n, m) no_provider slim v =
    subst (λ r. on_basic s sh r ≡ none)
      (sym (header_validate_basic-accepts max_allowed sh.header a z t))
      (signed-accepted s sh x p n m no_provider slim v)
