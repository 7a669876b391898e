-- ===== src/Syncing/Retriever/Blobs.antt =====
-- What processBlobs makes of the blobs of a DA height.
use chain_sdk.Base.{
  ℕ, ◌≡◌, ◌==◌, refl, ◌∙◌, subst, Bool, true, false, not, ◌&&◌, Option, none, some, List, [], ◌∷◌,
  if_both, Bytes, bytes_equal, length,
}
use chain_sdk.Types.Header.{SignedHeader, HeaderError}
use chain_sdk.Types.Chain.{Metadata, Data}
use chain_sdk.Syncing.Sync.{Event}
use chain_sdk.Syncing.Retriever.{
  SignedData, Opened, refused, plain, enveloped, open_header, check_proposer, on_basic,
  check_header, on_opened, try_decode_header, DataRead, include_data, on_data_verified,
  on_data_payload, check_data, on_signed_data, try_decode_data, Env, Retriever, add_headers,
  add_all_data, Matched, with_header, with_data, on_data, on_header, match_headers, with_matched,
  Decoded, match_decoded, decode_blobs, process_blobs,
}
use chain_sdk.Syncing.Retriever.Matching.{Complete, match_headers-Complete}

-- Decoding leaves the pending headers and data alone.
abbrev SamePending : Retriever → Retriever → Type 0
SamePending σ τ = (τ.pending_headers ≡ σ.pending_headers) × (τ.pending_data ≡ σ.pending_data)

SamePending-trans : (σ τ υ : Retriever) → SamePending σ τ → SamePending τ υ → SamePending σ υ
SamePending-trans σ τ υ (a, b) (c, d) = (c ∙ a, d ∙ b)

abbrev DataKept : Retriever → DataRead → Type 0
DataKept σ none = Unit {0}
DataKept σ (some (τ, d)) = SamePending σ τ

abbrev pub DecodedKept : Retriever → Option Decoded → Type 0
DecodedKept σ none = Unit {0}
DecodedKept σ (some r) = SamePending σ r.retriever

module _ (env : Env) (da : ℕ) where
  on_basic-SamePending :
      (h : SignedHeader) (σ : Retriever) (o : Option HeaderError)
      → SamePending σ (on_basic env da h σ o).0
  unfolding on_basic check_proposer
  on_basic-SamePending h σ (some e) = (refl, refl)
  on_basic-SamePending h σ none =
      if_both (λ (x : Retriever × Option SignedHeader). SamePending σ x.0)
        (not (bytes_equal h.proposer_address env.proposer)) _ _ (refl, refl) (refl, refl)

  on_opened-SamePending : (σ : Retriever) (o : Opened) → SamePending σ (on_opened env da σ o).0
  unfolding on_opened check_header
  on_opened-SamePending σ refused = (refl, refl)
  on_opened-SamePending σ (plain h) =
      if_both (λ (x : Retriever × Option SignedHeader). SamePending σ x.0) σ.strict_mode _ _
        (refl, refl) (on_basic-SamePending h σ _)
  on_opened-SamePending σ (enveloped h) = on_basic-SamePending h (record σ { strict_mode = true }) _

  include_data-DataKept :
      (d : Data) (σ : Retriever) (o : Option Metadata) → DataKept σ (include_data env da d σ o)
  unfolding include_data
  include_data-DataKept d σ none = tt
  include_data-DataKept d σ (some m) = (refl, refl)

  on_data_verified-DataKept :
      (d : Data) (σ : Retriever) (o : Option Bool) → DataKept σ (on_data_verified env da d σ o)
  unfolding on_data_verified
  on_data_verified-DataKept d σ none = (refl, refl)
  on_data_verified-DataKept d σ (some false) = (refl, refl)
  on_data_verified-DataKept d σ (some true) = include_data-DataKept d σ d.metadata

  on_data_payload-DataKept :
      (sd : SignedData) (d : Data) (σ : Retriever) (o : Option Bytes)
      → DataKept σ (on_data_payload env da sd d σ o)
  unfolding on_data_payload
  on_data_payload-DataKept sd d σ none = (refl, refl)
  on_data_payload-DataKept sd d σ (some p) = on_data_verified-DataKept d σ _

  check_data-DataKept :
      (sd : SignedData) (σ : Retriever) (o : Option Data) → DataKept σ (check_data env da sd σ o)
  unfolding check_data
  check_data-DataKept sd σ none = (refl, refl)
  check_data-DataKept sd σ (some d) =
      if_both (DataKept σ) (length d.txs == 0 && length sd.signature == 0) _ _ (refl, refl)
        (if_both (DataKept σ) (not (bytes_equal sd.signer_address env.proposer)) _ _ (refl, refl)
          (on_data_payload-DataKept sd d σ _))

  on_signed_data-DataKept :
      (σ : Retriever) (o : Option SignedData) → DataKept σ (on_signed_data env da σ o)
  unfolding on_signed_data
  on_signed_data-DataKept σ none = (refl, refl)
  on_signed_data-DataKept σ (some sd) = check_data-DataKept sd σ sd.block_data

  on_data-DecodedKept :
      (rest : Retriever → Option Decoded) (σ : Retriever) (o : DataRead)
      → ((τ : Retriever) → DecodedKept τ (rest τ))
      → DataKept σ o
      → DecodedKept σ (on_data rest o)
  unfolding on_data with_data
  on_data-DecodedKept rest σ none ih k = tt
  on_data-DecodedKept rest σ (some (τ, none)) ih k = later (rest τ) (ih τ)
    where
      later : (o : Option Decoded) → DecodedKept τ o → DecodedKept σ o
      later none a = tt
      later (some r) a = SamePending-trans σ τ r.retriever k a
  on_data-DecodedKept rest σ (some (τ, some d)) ih k = later (rest τ) (ih τ)
    where
      later : (o : Option Decoded) → DecodedKept τ o → DecodedKept σ (with_data d o)
      later none a = tt
      later (some r) a = SamePending-trans σ τ r.retriever k a

  on_header-DecodedKept :
      (bz : Bytes) (rest : Retriever → Option Decoded) (σ : Retriever)
      (x : Retriever × Option SignedHeader)
      → ((τ : Retriever) → DecodedKept τ (rest τ))
      → SamePending σ x.0
      → DecodedKept σ (on_header env da bz rest x)
  unfolding on_header with_header try_decode_data
  on_header-DecodedKept bz rest σ (τ, some h) ih k = later (rest τ) (ih τ)
    where
      later : (o : Option Decoded) → DecodedKept τ o → DecodedKept σ (with_header h o)
      later none a = tt
      later (some r) a = SamePending-trans σ τ r.retriever k a
  on_header-DecodedKept bz rest σ (τ, none) ih k =
      later (on_data rest (try_decode_data env da bz τ))
        (on_data-DecodedKept rest τ _ ih (on_signed_data-DataKept τ (env.codecs.signed_data bz)))
    where
      later : (o : Option Decoded) → DecodedKept τ o → DecodedKept σ o
      later none a = tt
      later (some r) a = SamePending-trans σ τ r.retriever k a

  pub decode_blobs-DecodedKept :
      (blobs : List Bytes) (σ : Retriever) → DecodedKept σ (decode_blobs env da blobs σ)
  unfolding decode_blobs try_decode_header
  decode_blobs-DecodedKept [] σ = (refl, refl)
  decode_blobs-DecodedKept (bz ∷ blobs) σ =
      if_both (DecodedKept σ) (length bz == 0) _ _ (decode_blobs-DecodedKept blobs σ) (
        on_header-DecodedKept bz (decode_blobs env da blobs) σ (try_decode_header env da bz σ)
          (decode_blobs-DecodedKept blobs)
          (on_opened-SamePending σ
            (open_header env.codecs σ.strict_mode bz (env.codecs.envelope bz))))

-- The result of processBlobs, where it does not panic, is a complete matching of what was pending
-- with what the blobs hold.
abbrev pub Processes :
    Env → ℕ → Retriever → Option Decoded → Option (Retriever × List Event) → Type 0
Processes env da σ none o = o ≡ none
Processes env da σ (some r) o =
    (m : Matched) × (o ≡ some (with_matched r.retriever m))
    × Complete env da (add_headers r.headers σ.pending_headers)
        (add_all_data r.block_data σ.pending_data) m

match_decoded-Processes :
    (env : Env) (da : ℕ) (σ : Retriever) (o : Option Decoded)
    → DecodedKept σ o
    → Processes env da σ o (match_decoded env da o)
unfolding match_decoded
match_decoded-Processes env da σ none k = refl
match_decoded-Processes env da σ (some r) (hs, ds) =
    let headers = add_headers r.headers r.retriever.pending_headers in
    let waiting = add_all_data r.block_data r.retriever.pending_data in
    let m = match_headers env da headers waiting in
    (
      m,
      refl,
      subst
          (λ (x : List SignedHeader).
            Complete env da (add_headers r.headers x) (add_all_data r.block_data σ.pending_data) m)
          hs
          (subst (λ (x : List (ℕ × Data)). Complete env da headers (add_all_data r.block_data x) m)
            ds (match_headers-Complete env da headers waiting)),
    )

-- ProcessBlobs panics exactly where a blob's decoding does; else every event that it returns has a
-- header that was pending or is in a blob, with the data that waited at its height or was in a
-- blob, or with empty data where the header expects that; each header that waits after the blobs
-- are added has an event or is left pending; and a header is left pending only where there is no
-- data at its height and it does not expect empty data.
pub process_blobs-Processes :
    (env : Env) (da : ℕ) (blobs : List Bytes) (σ : Retriever)
    → Processes env da σ (decode_blobs env da blobs σ) (process_blobs env da blobs σ)
unfolding process_blobs
process_blobs-Processes env da blobs σ =
    match_decoded-Processes env da σ (decode_blobs env da blobs σ)
      (decode_blobs-DecodedKept env da blobs σ)
