-- ===== src/Submitting/Inclusion/Tests.antt =====
-- The DA inclusion loop at concrete inputs.
use chain_sdk.Base.{
  ℕ, ◌≡◌, refl, true, false, Option, none, some, [], ◌∷◌, length, arith, bytes_equal, little_endian,
  put_little_endian,
}
use chain_sdk.Types.Header.{SignedHeader}
use chain_sdk.Types.Chain.{Data}
use chain_sdk.Store.{Db, no_faults, get_height, encode_height}
use chain_sdk.Store.TestCodec.{codec, empty_db}
use chain_sdk.Cache.{Cache}
use chain_sdk.Submitting.Inclusion.{Submitter, Env, pass, tick}
use chain_sdk.Submitting.Inclusion.Steps.{Passes, pass-Passes}
use chain_sdk.Submitting.Inclusion.Ticks.{Agrees, tick-some}

abbrev block_header : ℕ → SignedHeader
block_header h = record {
  header = record {
    chain_id = 1 ∷ [];
    height = h;
    nanos = h;
    last_header_hash = [];
    data_hash = [];
    app_hash = [];
    proposer_address = 5 ∷ [];
  };
  signature = 6 ∷ [];
  signer_address = 5 ∷ [];
}

abbrev empty_data : Data
empty_data = record { metadata = none; txs = [] }

abbrev db : Db
db = record empty_db {
  height = some (5 ∷ 0 ∷ 0 ∷ 0 ∷ 0 ∷ 0 ∷ 0 ∷ 0 ∷ []);
  headers = λ k. codec.encode_header (block_header k);
  datas = λ k. codec.encode_data empty_data;
  da_included = some (3 ∷ 0 ∷ 0 ∷ 0 ∷ 0 ∷ 0 ∷ 0 ∷ 0 ∷ []);
}

-- The headers 4 and 5 are DA included.
abbrev headers : Cache (Unit {0})
headers = record {
  items = λ _. none;
  hashes = λ _. false;
  da_included = λ _. some 20;
  hash_by_height = λ h. some (h ∷ []);
  max_da_height = 20;
}

abbrev at_three : Submitter
at_three = record {
  db = db;
  da_included_height = 3;
  header_cache = headers;
  data_cache = headers;
  sequencer_da_height = 0;
}

abbrev env : Env
env = record {
  codec = codec;
  commitment = λ txs. length txs ∷ [];
  empty_txs_hash = 0 ∷ [];
  has_sequencer = true;
  faults = no_faults;
  on_put = λ _. false;
  set_final = λ h n. some tt;
  stopped = λ _. false;
}

is_five : get_height no_faults db ≡ some 5
unfolding get_height little_endian
is_five = refl

tick-some_example : (τ : Submitter) × (tick env 3 at_three ≡ some τ)
tick-some_example = tick-some env 2 5 at_three is_five (omega arith) (omega arith) (omega arith)

or_start : Option Submitter → Submitter
or_start none = at_three
or_start (some τ) = τ

ends : tick env 3 at_three ≡ some (or_start (tick env 3 at_three))
unfolding tick or_start little_endian bytes_equal
ends = refl

at_five : (or_start (tick env 3 at_three)).da_included_height ≡ 5
unfolding tick or_start little_endian bytes_equal
at_five = refl

agrees : Agrees at_three
unfolding encode_height put_little_endian
agrees = refl

pass-Passes_example : Passes env at_three (pass env at_three)
pass-Passes_example = pass-Passes env at_three
