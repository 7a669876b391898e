-- ===== src/Syncing/Retriever/Tests.antt =====
-- The DA retriever at concrete inputs. A blob of one byte is an envelope, one of two bytes is signed
-- data without metadata, which reads as a header without a proposer, and one of three bytes is a
-- header in the older encoding, which reads as an envelope without a signature.
use chain_sdk.Base.{
  ◌+◌, ◌^◌, ◌≡◌, refl, true, false, Option, none, some, [], ◌∷◌, Bytes, bytes_equal,
}
use chain_sdk.Types.Header.{SignedHeader, unix_time}
use chain_sdk.Types.Chain.{Data}
use chain_sdk.Cache.{new_cache, set_da_included}
use chain_sdk.Syncing.Retriever.{
  SignedData, Codecs, Env, Retriever, try_decode_header, decode_blobs, header_at, data_at,
  process_blobs, is_empty_data_expected,
}
use chain_sdk.Syncing.Retriever.Decoding.{
  Verified, Reads, try_decode_header-Reads, foreign_envelope_silences,
}
use chain_sdk.Syncing.Retriever.Blobs.{Processes, process_blobs-Processes}
use chain_sdk.Syncing.Retriever.Pinned.{pending_header_stays}
use chain_sdk.Syncing.Retriever.Panics.{LacksMetadata, missing_metadata_panics}

abbrev header_of : Bytes → SignedHeader
header_of proposer = record {
  header = record {
    chain_id = 1 ∷ [];
    height = 5;
    nanos = 40;
    last_header_hash = [];
    data_hash = 6 ∷ [];
    app_hash = [];
    proposer_address = proposer;
  };
  signature = 9 ∷ [];
  signer_address = proposer;
}

abbrev envelope_of : Bytes → Option (SignedHeader × Bytes)
envelope_of [] = none
envelope_of (x ∷ []) = some (header_of (x ∷ []), 7 ∷ [])
envelope_of (x ∷ y ∷ []) = some (header_of [], [])
envelope_of (x ∷ y ∷ z ∷ bs) = some (header_of (x ∷ []), [])

abbrev legacy_of : Bytes → Option SignedHeader
legacy_of [] = none
legacy_of (x ∷ []) = none
legacy_of (x ∷ y ∷ []) = some (header_of [])
legacy_of (x ∷ y ∷ z ∷ bs) = some (header_of (x ∷ []))

abbrev no_metadata : Data
no_metadata = record { metadata = none; txs = (3 ∷ []) ∷ [] }

abbrev forged : SignedData
forged = record { block_data = some no_metadata; signature = 8 ∷ []; signer_address = 2 ∷ [] }

abbrev codecs : Codecs
codecs = record {
  envelope = envelope_of;
  legacy = legacy_of;
  signed_data = λ bz. some forged;
  has_pub_key = λ h. true;
  marshal_header = λ h. some (1 ∷ []);
  verify_header = λ h payload signature. some true;
  marshal_data = λ d. some (1 ∷ []);
  verify_data = λ sd payload signature. some true;
}

abbrev env : Env
env = record {
  codecs = codecs;
  proposer = 2 ∷ [];
  max_allowed = 2 ^ 63 + 100;
  hash = λ h. 4 ∷ [];
  commitment = λ txs. [];
  empty_txs_hash = [];
}

abbrev start : Retriever
start = record {
  header_cache = new_cache;
  data_cache = new_cache;
  pending_headers = [];
  pending_data = [];
  strict_mode = false;
}

foreign_verifies : Verified codecs (3 ∷ []) (header_of (3 ∷ []))
foreign_verifies = (7 ∷ [], 1 ∷ [], refl, refl, refl, refl, refl)

try_decode_header-Reads_example :
    Reads env 30 (2 ∷ []) start (try_decode_header env 30 (2 ∷ []) start)
try_decode_header-Reads_example = try_decode_header-Reads env 30 (2 ∷ []) start

not_proposer : bytes_equal (3 ∷ []) (2 ∷ []) ≡ false
unfolding bytes_equal
not_proposer = refl

foreign_envelope_silences_example :
    ((try_decode_header env 30 (3 ∷ []) start).1 ≡ none)
    × ((try_decode_header env 31 (2 ∷ 2 ∷ 2 ∷ []) (try_decode_header env 30 (3 ∷ []) start).0).1
        ≡ none)
foreign_envelope_silences_example =
    foreign_envelope_silences env 30 31 (3 ∷ []) (2 ∷ 2 ∷ 2 ∷ []) start (header_of (3 ∷ []))
      foreign_verifies not_proposer refl

-- Without the foreign envelope the older header is taken.
taken : (try_decode_header env 31 (2 ∷ 2 ∷ 2 ∷ []) start).1 ≡ some (header_of (2 ∷ []))
unfolding try_decode_header bytes_equal unix_time
taken = refl

process_blobs-Processes_example :
    Processes env 30 start
      (decode_blobs env 30 ((2 ∷ []) ∷ []) start)
      (process_blobs env 30 ((2 ∷ []) ∷ []) start)
process_blobs-Processes_example = process_blobs-Processes env 30 ((2 ∷ []) ∷ []) start

abbrev other_header : SignedHeader
other_header = record (header_of (2 ∷ [])) { signature = 1 ∷ [] }

-- A forged header stands at the height; the blob has another one.
abbrev pinned : Retriever
pinned = record start { pending_headers = other_header ∷ [] }

abbrev after : Retriever
after = record pinned {
  header_cache = set_da_included pinned.header_cache (4 ∷ []) 30 5;
  strict_mode = true;
}

decodes :
    decode_blobs env 30 ((2 ∷ []) ∷ []) pinned
    ≡ some (record { retriever = after; headers = header_of (2 ∷ []) ∷ []; block_data = [] })
unfolding decode_blobs bytes_equal unix_time
decodes = refl

expects_data : is_empty_data_expected env other_header ≡ false
unfolding is_empty_data_expected bytes_equal
expects_data = refl

processes : process_blobs env 30 ((2 ∷ []) ∷ []) pinned ≡ some (after, [])
unfolding process_blobs decode_blobs bytes_equal unix_time
processes = refl

pending_header_stays_example :
    (header_at 5 after.pending_headers ≡ some other_header) × (data_at 5 after.pending_data ≡ none)
unfolding header_at data_at
pending_header_stays_example =
    pending_header_stays env 30 5 ((2 ∷ []) ∷ []) pinned other_header
      (record { retriever = after; headers = header_of (2 ∷ []) ∷ []; block_data = [] }) after []
      expects_data refl refl decodes refl processes

proposer_claimed : bytes_equal (2 ∷ []) (2 ∷ []) ≡ true
unfolding bytes_equal
proposer_claimed = refl

lacks : LacksMetadata env (1 ∷ 1 ∷ [])
lacks = (
  forged,
  no_metadata,
  1 ∷ [],
  refl,
  (refl, refl),
  refl,
  refl,
  refl,
  refl,
  proposer_claimed,
  refl,
  refl,
)

missing_metadata_panics_example :
    process_blobs env 30 ((2 ∷ []) ∷ (1 ∷ 1 ∷ []) ∷ (2 ∷ []) ∷ []) start ≡ none
missing_metadata_panics_example =
    missing_metadata_panics env 30 ((2 ∷ []) ∷ []) ((2 ∷ []) ∷ []) (1 ∷ 1 ∷ []) start lacks
