-- ===== src/Executing/TestData.antt =====
-- Concrete parameters for the tests: a chain at height 3 and its next block.
use chain_sdk.Base.{ℕ, zero, suc, true, false, Option, none, some, List, [], ◌∷◌, Bytes, length}
use chain_sdk.Types.Header.{Header, SignedHeader}
use chain_sdk.Types.Chain.{State, Data, fresh}
use chain_sdk.Store.{Db, no_faults}
use chain_sdk.Store.TestCodec.{codec, empty_db}
use chain_sdk.Executing.{Genesis, Setup, LastBlockInfo, Executor, BatchData, got_batch, Env}

abbrev pub genesis : Genesis
genesis = record {
  chain_id = 1 ∷ [];
  initial_height = 1;
  start_nanos = 10;
  proposer_address = 5 ∷ [];
}

abbrev pub commitment : List Bytes → Bytes
commitment txs = length txs ∷ []

abbrev pub hash : Header → Bytes
hash h = h.height ∷ []

abbrev pub setup : Setup
setup = record {
  codec = codec;
  hash = hash;
  commitment = commitment;
  empty_txs_hash = 0 ∷ [];
  genesis = genesis;
  max_pending = 0;
  based_sequencer = false;
  has_signer = true;
}

abbrev pub at_three : State
at_three = record {
  chain_id = 1 ∷ [];
  initial_height = 1;
  last_block_height = 3;
  last_block_time = 30;
  last_header_hash = 3 ∷ [];
  da_height = 9;
  app_hash = 7 ∷ [];
}

abbrev pub info : LastBlockInfo
info = record { header_hash = 3 ∷ []; signature = 6 ∷ [] }

abbrev pub db : Db
db = record empty_db {
  height = some (3 ∷ 0 ∷ 0 ∷ 0 ∷ 0 ∷ 0 ∷ 0 ∷ 0 ∷ []);
  states = λ k. codec.encode_state at_three;
}

abbrev pub executor : Executor
executor = record {
  db = db;
  last_state = at_three;
  last_info = some info;
  has_pending_block = false;
  pending_check_counter = 0;
  tracking = fresh;
}

abbrev pub batch : BatchData
batch = record { txs = (8 ∷ []) ∷ []; nanos = 40 }

-- The second attempt to execute succeeds.
abbrev pub second : ℕ → Option Bytes
second zero = none
second (suc zero) = none
second (suc (suc n)) = some (8 ∷ [])

abbrev pub env : Env
env = record {
  cancelled = false;
  raft = none;
  pending_headers = 0;
  pending_data_count = 0;
  next_batch = got_batch batch;
  early = no_faults;
  late = no_faults;
  signer_ready = true;
  execute = λ txs height time app_hash. second;
  stopped = λ _. false;
  sequencer_da_height = 11;
  sign = λ h. some (6 ∷ []);
  sets_final = true;
}

abbrev pub four_header : SignedHeader
four_header = record {
  header = record {
    chain_id = 1 ∷ [];
    height = 4;
    nanos = 40;
    last_header_hash = 3 ∷ [];
    data_hash = 1 ∷ [];
    app_hash = 7 ∷ [];
    proposer_address = 5 ∷ [];
  };
  signature = 6 ∷ [];
  signer_address = 5 ∷ [];
}

abbrev pub four_data : Data
four_data = record {
  metadata = some (record { chain_id = 1 ∷ []; height = 4; nanos = 40 });
  txs = (8 ∷ []) ∷ [];
}
