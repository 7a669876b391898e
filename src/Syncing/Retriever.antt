-- ===== src/Syncing/Retriever.antt =====
-- The DA retriever of block/internal/syncing/da_retriever.go, with the checks of assert.go. What the
-- encodings and the public keys answer for a blob, and the DA client, are parameters. The pending
-- maps are lists of their entries, in some order, since Go visits a map in any order.
pub mod Decoding
pub mod Matching
pub mod Blobs
pub mod Pinned
pub mod Panics
pub mod Fetch
mod Tests
use chain_sdk.Base.{
  ℕ, ◌==◌, Bool, true, false, not, ◌&&◌, ◌||◌, Option, none, some, List, [], ◌∷◌, ◌++◌,
  if◌then◌else◌, Bytes, bytes_equal, length,
}
use chain_sdk.Types.Header.{Header, SignedHeader, HeaderError, header_validate_basic}
use chain_sdk.Types.Chain.{Metadata, Data}
use chain_sdk.Cache.{Hash, Cache, set_da_included}
use chain_sdk.Syncing.Sync.{Event, from_da}

-- types.SignedData; `block_data` is `none` where the message has no data.
pub record SignedData : Type 0 where
  pub block_data : Option Data
  pub signature : Bytes
  pub signer_address : Bytes

-- UnmarshalDAEnvelope, with the envelope's signature, the older encoding, and SignedData's;
-- MarshalBinary of headers and of data; whether the signer has a key, and what the key verifies.
-- `none` is an error. FromProto sets a signer's address together with its key.
pub record Codecs : Type 0 where
  pub envelope : Bytes → Option (SignedHeader × Bytes)
  pub legacy : Bytes → Option SignedHeader
  pub signed_data : Bytes → Option SignedData
  pub has_pub_key : SignedHeader → Bool
  pub marshal_header : SignedHeader → Option Bytes
  pub verify_header : SignedHeader → Bytes → Bytes → Option Bool
  pub marshal_data : Data → Option Bytes
  pub verify_data : SignedData → Bytes → Bytes → Option Bool

pub record Env : Type 0 where
  pub codecs : Codecs
  pub proposer : Bytes
  pub max_allowed : ℕ
  pub hash : Header → Hash
  pub commitment : List Bytes → Hash
  pub empty_txs_hash : Hash

-- The entries of pendingData stand under the height that the data had when it was added.
pub record Retriever : Type 0 where
  pub header_cache : Cache (Unit {0})
  pub data_cache : Cache (Unit {0})
  pub pending_headers : List SignedHeader
  pub pending_data : List (ℕ × Data)
  pub strict_mode : Bool

-- A blob read as a header: refused, without a signature that was checked, or with one.
pub data Opened : Type 0 where
  refused : Opened
  plain : SignedHeader → Opened
  enveloped : SignedHeader → Opened

pub on_verified : SignedHeader → Option Bool → Opened
on_verified h none = refused
on_verified h (some false) = refused
on_verified h (some true) = enveloped h

pub on_payload : Codecs → SignedHeader → Bytes → Option Bytes → Opened
unfolding on_verified
on_payload c h signature none = refused
on_payload c h signature (some payload) = on_verified h (c.verify_header h payload signature)

pub open_envelope : Codecs → SignedHeader → Bytes → Opened
unfolding on_payload
open_envelope c h signature =
    if length signature == 0
    then plain h
    else if not (c.has_pub_key h)
    then refused
    else on_payload c h signature (c.marshal_header h)

pub open_legacy : Option SignedHeader → Opened
open_legacy none = refused
open_legacy (some h) = plain h

-- In strict mode a blob has to be an envelope.
pub open_header : Codecs → Bool → Bytes → Option (SignedHeader × Bytes) → Opened
unfolding open_envelope open_legacy
open_header c strict bz none = if strict then refused else open_legacy (c.legacy bz)
open_header c strict bz (some (h, signature)) = open_envelope c h signature

-- A header that is not checked further than this is marked as DA included.
pub check_proposer : Env → ℕ → SignedHeader → Retriever → Retriever × Option SignedHeader
unfolding set_da_included
check_proposer env da h σ =
    if not (bytes_equal h.proposer_address env.proposer) then (σ, none) else (
      record σ { header_cache = set_da_included σ.header_cache (env.hash h.header) da h.height },
      some h,
    )

pub on_basic :
    Env → ℕ → SignedHeader → Retriever → Option HeaderError → Retriever × Option SignedHeader
unfolding check_proposer
on_basic env da h σ (some e) = (σ, none)
on_basic env da h σ none = check_proposer env da h σ

pub check_header : Env → ℕ → SignedHeader → Retriever → Retriever × Option SignedHeader
unfolding on_basic header_validate_basic
check_header env da h σ = on_basic env da h σ (header_validate_basic env.max_allowed h.header)

-- The first envelope that verifies switches to strict mode.
pub on_opened : Env → ℕ → Retriever → Opened → Retriever × Option SignedHeader
unfolding check_header
on_opened env da σ refused = (σ, none)
on_opened env da σ (plain h) = if σ.strict_mode then (σ, none) else check_header env da h σ
on_opened env da σ (enveloped h) = check_header env da h (record σ { strict_mode = true })

pub try_decode_header : Env → ℕ → Bytes → Retriever → Retriever × Option SignedHeader
unfolding on_opened open_header
try_decode_header env da bz σ =
    on_opened env da σ (open_header env.codecs σ.strict_mode bz (env.codecs.envelope bz))

-- What tryDecodeData comes to; `none` is a panic.
abbrev pub DataRead : Type 0
DataRead = Option (Retriever × Option (ℕ × Data))

-- The data's height is read through its metadata: a nil dereference where there is none.
pub include_data : Env → ℕ → Data → Retriever → Option Metadata → DataRead
unfolding set_da_included
include_data env da d σ none = none
include_data env da d σ (some m) = some (
  record σ { data_cache = set_da_included σ.data_cache (env.commitment d.txs) da m.height },
  some (m.height, d),
)

pub on_data_verified : Env → ℕ → Data → Retriever → Option Bool → DataRead
unfolding include_data
on_data_verified env da d σ none = some (σ, none)
on_data_verified env da d σ (some false) = some (σ, none)
on_data_verified env da d σ (some true) = include_data env da d σ d.metadata

pub on_data_payload : Env → ℕ → SignedData → Data → Retriever → Option Bytes → DataRead
unfolding on_data_verified
on_data_payload env da sd d σ none = some (σ, none)
on_data_payload env da sd d σ (some payload) =
    on_data_verified env da d σ (env.codecs.verify_data sd payload sd.signature)

-- assertValidSignedData, after the test for completely empty data.
pub check_data : Env → ℕ → SignedData → Retriever → Option Data → DataRead
unfolding on_data_payload
check_data env da sd σ none = some (σ, none)
check_data env da sd σ (some d) =
    if length d.txs == 0 && length sd.signature == 0
    then some (σ, none)
    else if not (bytes_equal sd.signer_address env.proposer)
    then some (σ, none)
    else on_data_payload env da sd d σ (env.codecs.marshal_data d)

pub on_signed_data : Env → ℕ → Retriever → Option SignedData → DataRead
unfolding check_data
on_signed_data env da σ none = some (σ, none)
on_signed_data env da σ (some sd) = check_data env da sd σ sd.block_data

pub try_decode_data : Env → ℕ → Bytes → Retriever → DataRead
unfolding on_signed_data
try_decode_data env da bz σ = on_signed_data env da σ (env.codecs.signed_data bz)

-- The headers and the data that the blobs hold, in their order.
pub record Decoded : Type 0 where
  pub retriever : Retriever
  pub headers : List SignedHeader
  pub block_data : List (ℕ × Data)

pub with_header : SignedHeader → Option Decoded → Option Decoded
with_header h none = none
with_header h (some r) = some (record r { headers = h ∷ r.headers })

pub with_data : ℕ × Data → Option Decoded → Option Decoded
with_data d none = none
with_data d (some r) = some (record r { block_data = d ∷ r.block_data })

pub on_data : (Retriever → Option Decoded) → DataRead → Option Decoded
unfolding with_data
on_data rest none = none
on_data rest (some (σ, none)) = rest σ
on_data rest (some (σ, some d)) = with_data d (rest σ)

-- A blob that is no header is tried as data.
pub on_header :
    Env
    → ℕ
    → Bytes
    → (Retriever → Option Decoded)
    → Retriever × Option SignedHeader
    → Option Decoded
unfolding on_data with_header try_decode_data
on_header env da bz rest (σ, some h) = with_header h (rest σ)
on_header env da bz rest (σ, none) = on_data rest (try_decode_data env da bz σ)

pub decode_blobs : Env → ℕ → List Bytes → Retriever → Option Decoded
unfolding on_header try_decode_header
decode_blobs env da [] σ = some (record { retriever = σ; headers = []; block_data = [] })
decode_blobs env da (bz ∷ blobs) σ =
    if length bz == 0
    then decode_blobs env da blobs σ
    else on_header env da bz (decode_blobs env da blobs) (try_decode_header env da bz σ)

pub header_at : ℕ → List SignedHeader → Option SignedHeader
header_at k [] = none
header_at k (h ∷ hs) = if h.height == k then some h else header_at k hs

pub data_at : ℕ → List (ℕ × Data) → Option Data
data_at k [] = none
data_at k ((j, d) ∷ ds) = if j == k then some d else data_at k ds

-- The first header of a height stays.
pub add_header : SignedHeader → List SignedHeader → List SignedHeader
add_header h [] = h ∷ []
add_header h (g ∷ gs) = if g.height == h.height then g ∷ gs else g ∷ add_header h gs

pub add_headers : List SignedHeader → List SignedHeader → List SignedHeader
unfolding add_header
add_headers [] pending = pending
add_headers (h ∷ hs) pending = add_headers hs (add_header h pending)

pub add_data : ℕ × Data → List (ℕ × Data) → List (ℕ × Data)
add_data (k, d) [] = (k, d) ∷ []
add_data (k, d) ((j, e) ∷ es) = if j == k then (j, e) ∷ es else (j, e) ∷ add_data (k, d) es

pub add_all_data : List (ℕ × Data) → List (ℕ × Data) → List (ℕ × Data)
unfolding add_data
add_all_data [] pending = pending
add_all_data (d ∷ ds) pending = add_all_data ds (add_data d pending)

pub delete_data : ℕ → List (ℕ × Data) → List (ℕ × Data)
delete_data k [] = []
delete_data k ((j, d) ∷ ds) = if j == k then delete_data k ds else (j, d) ∷ delete_data k ds

pub is_empty_data_expected : Env → SignedHeader → Bool
is_empty_data_expected env h = length h.data_hash == 0 || bytes_equal h.data_hash env.empty_txs_hash

pub create_empty_data_for_header : SignedHeader → Data
create_empty_data_for_header h = record {
  metadata = some (record { chain_id = h.chain_id; height = h.height; nanos = h.nanos });
  txs = [];
}

pub height_event : ℕ → SignedHeader → Data → Event
height_event da h d = record {
  header = h;
  block_data = d;
  da_height = da;
  source = from_da;
  header_hint = 0;
  data_hint = 0;
}

-- What is left pending, and the events.
pub record Matched : Type 0 where
  pub headers : List SignedHeader
  pub block_data : List (ℕ × Data)
  pub events : List Event

pub emit : Event → Matched → Matched
emit ev m = record m { events = ev ∷ m.events }

pub keep : SignedHeader → Matched → Matched
keep h m = record m { headers = h ∷ m.headers }

pub on_match :
    Env → ℕ → SignedHeader → List (ℕ × Data) → (List (ℕ × Data) → Matched) → Option Data → Matched
unfolding emit keep height_event create_empty_data_for_header delete_data is_empty_data_expected
on_match env da h ds rest (some d) = emit (height_event da h d) (rest (delete_data h.height ds))
on_match env da h ds rest none =
    if is_empty_data_expected env h
    then emit (height_event da h (create_empty_data_for_header h)) (rest ds)
    else keep h (rest ds)

pub match_headers : Env → ℕ → List SignedHeader → List (ℕ × Data) → Matched
unfolding on_match data_at
match_headers env da [] ds = record { headers = []; block_data = ds; events = [] }
match_headers env da (h ∷ hs) ds =
    on_match env da h ds (match_headers env da hs) (data_at h.height ds)

pub with_matched : Retriever → Matched → Retriever × List Event
with_matched σ m = (record σ { pending_headers = m.headers; pending_data = m.block_data }, m.events)

pub match_decoded : Env → ℕ → Option Decoded → Option (Retriever × List Event)
unfolding match_headers with_matched add_headers add_all_data
match_decoded env da none = none
match_decoded env da (some r) = some (
    with_matched r.retriever (
      match_headers env da (add_headers r.headers r.retriever.pending_headers)
        (add_all_data r.block_data r.retriever.pending_data)))

-- `none` is a panic.
pub process_blobs : Env → ℕ → List Bytes → Retriever → Option (Retriever × List Event)
unfolding match_decoded decode_blobs
process_blobs env da blobs σ = match_decoded env da (decode_blobs env da blobs σ)
