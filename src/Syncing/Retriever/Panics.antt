-- ===== src/Syncing/Retriever/Panics.antt =====
-- Signed data without metadata.
use chain_sdk.Base.{
  ℕ, ◌≡◌, ◌==◌, refl, ap, ◌∙◌, true, false, ◌&&◌, Option, none, some, List, [], ◌∷◌, ◌++◌, if_both,
  if_same, Bytes, bytes_equal, length,
}
use chain_sdk.Types.Header.{SignedHeader, header_validate_basic}
use chain_sdk.Types.Chain.{Data}
use chain_sdk.Syncing.Retriever.{
  SignedData, Opened, refused, plain, open_envelope, check_header, on_basic, open_header,
  open_legacy, on_opened, try_decode_header, DataRead, include_data, on_data_verified,
  on_data_payload, check_data, on_signed_data, try_decode_data, Env, Retriever, with_header,
  with_data, on_data, on_header, Decoded, match_decoded, decode_blobs, process_blobs,
}

-- The blob reads as no header, or as one without a proposer, and as no envelope with a signature:
-- SignedData has the field numbers of SignedHeader and of DAHeaderEnvelope, but no proposer in their
-- places and no envelope signature.
abbrev ReadsUnproposed : Option SignedHeader → Option (SignedHeader × Bytes) → Type 0
ReadsUnproposed none none = Unit {0}
ReadsUnproposed (some h) none = (length h.proposer_address == 0) ≡ true
ReadsUnproposed legacy (some (h, signature)) =
    ((length signature == 0) ≡ true) × ((length h.proposer_address == 0) ≡ true)

-- The blob has signed data without metadata, whose signer claims the proposer's address and whose own
-- key verifies it.
abbrev pub LacksMetadata : Env → Bytes → Type 0
LacksMetadata env bz =
    (sd : SignedData) × (d : Data) × (payload : Bytes) × ((length bz == 0) ≡ false)
    × ReadsUnproposed (env.codecs.legacy bz) (env.codecs.envelope bz)
    × (env.codecs.signed_data bz ≡ some sd)
    × (sd.block_data ≡ some d)
    × (d.metadata ≡ none)
    × ((length d.txs == 0 && length sd.signature == 0) ≡ false)
    × (bytes_equal sd.signer_address env.proposer ≡ true)
    × (env.codecs.marshal_data d ≡ some payload)
    × (env.codecs.verify_data sd payload sd.signature ≡ some true)

module _ (env : Env) (da : ℕ) where
  unproposed_refused :
      (h : SignedHeader) (σ : Retriever)
      → (length h.proposer_address == 0) ≡ true
      → check_header env da h σ ≡ (σ, none)
  unfolding check_header header_validate_basic on_basic
  unproposed_refused h σ e = rw e refl

  plain_refused :
      (h : SignedHeader) (σ : Retriever)
      → (length h.proposer_address == 0) ≡ true
      → on_opened env da σ (plain h) ≡ (σ, none)
  unfolding on_opened
  plain_refused h σ e = rw (unproposed_refused h σ e) (if_same σ.strict_mode (σ, none))

  opened_refused :
      (bz : Bytes) (σ : Retriever) (legacy : Option SignedHeader)
      (o : Option (SignedHeader × Bytes))
      → env.codecs.legacy bz ≡ legacy
      → ReadsUnproposed legacy o
      → on_opened env da σ (open_header env.codecs σ.strict_mode bz o) ≡ (σ, none)
  unfolding open_header open_legacy open_envelope on_opened
  opened_refused bz σ none none l u = rw (l, if_same σ.strict_mode refused) refl
  opened_refused bz σ (some h) none l u = rw l (
      if_both (λ (p : Opened). on_opened env da σ p ≡ (σ, none)) σ.strict_mode refused (plain h)
        refl (plain_refused h σ u))
  opened_refused bz σ none (some (h, signature)) l (u, v) = rw u (plain_refused h σ v)
  opened_refused bz σ (some g) (some (h, signature)) l (u, v) = rw u (plain_refused h σ v)

  refused_header :
      (bz : Bytes) (σ : Retriever)
      → LacksMetadata env bz
      → try_decode_header env da bz σ ≡ (σ, none)
  unfolding try_decode_header
  refused_header bz σ (sd, d, payload, len, u, s, b, m, some_txs, a, p, v) =
      opened_refused bz σ (env.codecs.legacy bz) (env.codecs.envelope bz) refl u

  try_decode_data-panics :
      (bz : Bytes) (σ : Retriever) → LacksMetadata env bz → try_decode_data env da bz σ ≡ none
  unfolding try_decode_data on_signed_data check_data on_data_payload on_data_verified include_data
  try_decode_data-panics bz σ (sd, d, payload, len, u, s, b, m, some_txs, a, p, v) =
      ap (on_signed_data env da σ) s
      ∙ ap (check_data env da sd σ) b
      ∙ rw (some_txs, a, p, v) (ap (include_data env da d σ) m)

  on_data-none :
      (rest : Retriever → Option Decoded) (o : DataRead)
      → ((τ : Retriever) → rest τ ≡ none)
      → on_data rest o ≡ none
  unfolding on_data with_data
  on_data-none rest none ih = refl
  on_data-none rest (some (σ, none)) ih = ih σ
  on_data-none rest (some (σ, some d)) ih = rw (ih σ) refl

  on_header-none :
      (bz : Bytes) (rest : Retriever → Option Decoded) (x : Retriever × Option SignedHeader)
      → ((τ : Retriever) → rest τ ≡ none)
      → on_header env da bz rest x ≡ none
  unfolding on_header with_header
  on_header-none bz rest (σ, some h) ih = rw (ih σ) refl
  on_header-none bz rest (σ, none) ih = on_data-none rest (try_decode_data env da bz σ) ih

  decode_blobs-panics :
      (before after : List Bytes) (bz : Bytes) (σ : Retriever)
      → LacksMetadata env bz
      → decode_blobs env da (before ++ bz ∷ after) σ ≡ none
  unfolding decode_blobs on_header on_data
  decode_blobs-panics [] after bz σ lacks =
      rw (lacks.3, refused_header bz σ lacks, try_decode_data-panics bz σ lacks) refl
  decode_blobs-panics (x ∷ before) after bz σ lacks =
      if_both (λ (o : Option Decoded). o ≡ none) (length x == 0) _ _
        (decode_blobs-panics before after bz σ lacks)
        (on_header-none x (decode_blobs env da (before ++ bz ∷ after))
          (try_decode_header env da x σ) (λ τ. decode_blobs-panics before after bz τ lacks))

-- A blob that reads as signed data without metadata, whose signer claims the proposer's address and
-- whose own key verifies it, and as no header or as one with neither a proposer's address nor an
-- envelope signature, makes processBlobs panic, whatever other blobs the DA height has.
pub missing_metadata_panics :
    (env : Env) (da : ℕ) (before after : List Bytes) (bz : Bytes) (σ : Retriever)
    → LacksMetadata env bz
    → process_blobs env da (before ++ bz ∷ after) σ ≡ none
unfolding process_blobs match_decoded
missing_metadata_panics env da before after bz σ lacks =
    rw (decode_blobs-panics env da before after bz σ lacks) refl
