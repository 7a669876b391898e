-- ===== src/Syncing/Retriever/Decoding.antt =====
-- What the DA retriever takes for a header, and what turns strict mode on.
use chain_sdk.Base.{
  ℕ, ◌≡◌, ◌≢◌, ◌==◌, refl, ap, subst, ◌⊎◌, inl, inr, Bool, true, false, not, Bool-cases, Option,
  none, some, if_of_true, if_of_false, else_of, arith, Bytes, bytes_equal, length,
}
use chain_sdk.Types.Header.{SignedHeader, HeaderError, header_validate_basic}
use chain_sdk.Cache.{get_da_included_by_height}
use chain_sdk.Cache.Included.{set_da_included-found}
use chain_sdk.Syncing.Retriever.{
  Codecs, Env, Retriever, Opened, refused, plain, enveloped, on_verified, on_payload, open_envelope,
  open_legacy, open_header, check_proposer, on_basic, check_header, on_opened, try_decode_header,
}

-- The blob is an envelope of the header whose signature the signer's key verifies.
abbrev pub Verified : Codecs → Bytes → SignedHeader → Type 0
Verified c bz h =
    (signature : Bytes) × (payload : Bytes) × (c.envelope bz ≡ some (h, signature))
    × ((length signature == 0) ≡ false)
    × (c.has_pub_key h ≡ true)
    × (c.marshal_header h ≡ some payload)
    × (c.verify_header h payload signature ≡ some true)

module _ (c : Codecs) (bz : Bytes) (h : SignedHeader) where
  on_verified-enveloped :
      (g : SignedHeader) (o : Option Bool)
      → on_verified g o ≡ enveloped h
      → (g ≡ h) × (o ≡ some true)
  unfolding on_verified
  on_verified-enveloped g none e = cc
  on_verified-enveloped g (some false) e = cc
  on_verified-enveloped g (some true) e = (cc, refl)

  on_payload-Verified :
      (g : SignedHeader) (signature : Bytes) (o : Option Bytes)
      → c.envelope bz ≡ some (g, signature)
      → (length signature == 0) ≡ false
      → c.has_pub_key g ≡ true
      → c.marshal_header g ≡ o
      → on_payload c g signature o ≡ enveloped h
      → Verified c bz h
  unfolding on_payload
  on_payload-Verified g signature none e n k m r = cc
  on_payload-Verified g signature (some payload) e n k m r =
      let (same, v) = on_verified-enveloped g (c.verify_header g payload signature) r in
      subst (Verified c bz) same (signature, payload, e, n, k, m, v)

  open_header-Verified :
      (strict : Bool) (o : Option (SignedHeader × Bytes))
      → c.envelope bz ≡ o
      → open_header c strict bz o ≡ enveloped h
      → Verified c bz h
  unfolding open_header open_legacy open_envelope
  open_header-Verified true none e r = cc
  open_header-Verified false none e r = absurd (never (c.legacy bz) r)
    where
      never : (o : Option SignedHeader) → open_legacy o ≢ enveloped h
      never none r = cc
      never (some g) r = cc
  open_header-Verified strict (some (g, signature)) e r =
      let (n, r') = else_of (length signature == 0) r (λ e. cc) in
      let (k, r'') = else_of (not (c.has_pub_key g)) r' (λ e. cc) in
      on_payload-Verified g signature (c.marshal_header g) e n (ground arith) refl r''

-- What comes of reading a blob as a header. Strict mode is never left. A header that is taken is
-- valid, has the expected proposer and is found as DA included; in strict mode it came in an
-- envelope that its signer's key verifies.
abbrev pub Reads : Env → ℕ → Bytes → Retriever → Retriever × Option SignedHeader → Type 0
Reads env da bz σ (τ, none) = (τ.strict_mode ≡ true) ⊎ (τ.strict_mode ≡ σ.strict_mode)
Reads env da bz σ (τ, some h) =
    ((τ.strict_mode ≡ true) ⊎ (τ.strict_mode ≡ σ.strict_mode))
    × (header_validate_basic env.max_allowed h.header ≡ none)
    × (bytes_equal h.proposer_address env.proposer ≡ true)
    × (get_da_included_by_height τ.header_cache h.height ≡ some da)
    × ((σ.strict_mode ≡ false) ⊎ Verified env.codecs bz h)

module _ (env : Env) (da : ℕ) (bz : Bytes) (σ : Retriever) where
  check_header-Reads :
      (h : SignedHeader) (τ : Retriever) (o : Option HeaderError)
      → header_validate_basic env.max_allowed h.header ≡ o
      → (τ.strict_mode ≡ true) ⊎ (τ.strict_mode ≡ σ.strict_mode)
      → (σ.strict_mode ≡ false) ⊎ Verified env.codecs bz h
      → Reads env da bz σ (on_basic env da h τ o)
  unfolding on_basic check_proposer
  check_header-Reads h τ (some e) v strict from = strict
  check_header-Reads h τ none v strict from =
      elim (Bool-cases (bytes_equal h.proposer_address env.proposer)) [
        | inl y ↦ rw y (
          strict,
          v,
          y,
          (set_da_included-found τ.header_cache (env.hash h.header) da h.height).0,
          from,
        )
        | inr n ↦ rw n strict
      ]

  on_opened-Reads :
      (o : Opened)
      → open_header env.codecs σ.strict_mode bz (env.codecs.envelope bz) ≡ o
      → Reads env da bz σ (on_opened env da σ o)
  unfolding on_opened check_header
  on_opened-Reads refused e = inr refl
  on_opened-Reads (plain h) e = elim (Bool-cases σ.strict_mode) [
    | inl y ↦ if_of_true (Reads env da bz σ) σ.strict_mode _ _ y (inr refl)
    | inr n ↦
        if_of_false (Reads env da bz σ) σ.strict_mode _ _ n
          (check_header-Reads h σ _ refl (inr refl) (inl n))
  ]
  on_opened-Reads (enveloped h) e =
      check_header-Reads h (record σ { strict_mode = true }) _ refl (inl refl)
        (inr (open_header-Verified env.codecs bz h σ.strict_mode (env.codecs.envelope bz) refl e))

  basic_refuses :
      (h : SignedHeader) (τ : Retriever)
      → bytes_equal h.proposer_address env.proposer ≡ false
      → (r : Option HeaderError) → on_basic env da h τ r ≡ (τ, none)
  unfolding on_basic check_proposer
  basic_refuses h τ foreign (some e) = refl
  basic_refuses h τ foreign none = rw foreign refl

-- TryDecodeHeader never leaves strict mode, and a header that it takes from a blob passes the
-- header's ValidateBasic, has the expected proposer's address and is found in the cache as included
-- at the DA height; in strict mode the blob is an envelope whose signature the key in the header
-- verifies.
pub try_decode_header-Reads :
    (env : Env) (da : ℕ) (bz : Bytes) (σ : Retriever)
    → Reads env da bz σ (try_decode_header env da bz σ)
unfolding try_decode_header
try_decode_header-Reads env da bz σ = on_opened-Reads env da bz σ _ refl

-- A blob that is no envelope, or one without a signature, as the headers in the older encoding are.
abbrev IsUnsigned : Option (SignedHeader × Bytes) → Type 0
IsUnsigned none = Unit {0}
IsUnsigned (some (h, signature)) = (length signature == 0) ≡ true

strict_refuses :
    (env : Env) (da : ℕ) (bz : Bytes) (σ : Retriever) (o : Option (SignedHeader × Bytes))
    → σ.strict_mode ≡ true
    → IsUnsigned o
    → on_opened env da σ (open_header env.codecs σ.strict_mode bz o) ≡ (σ, none)
unfolding on_opened open_header open_envelope
strict_refuses env da bz σ none strict u = rw strict refl
strict_refuses env da bz σ (some (h, signature)) strict u = rw (u, strict) refl

not_mine : (b : Bool) → b ≡ false → not b ≡ true
not_mine b e = ground arith

-- An envelope that the key in it verifies turns strict mode on also where the header's proposer is
-- not the expected one and the header is refused: a blob that is no envelope or has no envelope
-- signature, as headers in the older encoding are, is then refused too.
pub foreign_envelope_silences :
    (env : Env) (da da' : ℕ) (bz older : Bytes) (σ : Retriever) (h : SignedHeader)
    → Verified env.codecs bz h
    → bytes_equal h.proposer_address env.proposer ≡ false
    → IsUnsigned (env.codecs.envelope older)
    → ((try_decode_header env da bz σ).1 ≡ none)
      × ((try_decode_header env da' older (try_decode_header env da bz σ).0).1 ≡ none)
unfolding try_decode_header open_header open_envelope on_payload on_verified on_opened check_header
foreign_envelope_silences env da da' bz older σ h (signature, payload, e, n, k, m, v) foreign o =
    let switched : open_header env.codecs σ.strict_mode bz (env.codecs.envelope bz) ≡ enveloped h =
      rw (e, n, k, m, v) refl in
    let refused_here : (r : Option HeaderError)
        → on_basic env da h (record σ { strict_mode = true }) r
          ≡ (record σ { strict_mode = true }, none) =
      basic_refuses env da bz σ h (record σ { strict_mode = true }) foreign in
    rw (switched, refused_here (header_validate_basic env.max_allowed h.header))
      (
        refl,
        ap (λ (x : Retriever × Option SignedHeader). x.1)
            (strict_refuses env da' older (record σ { strict_mode = true })
              (env.codecs.envelope older) refl o),
      )
