-- ===== src/Syncing/Sync/Tests.antt =====
-- The syncer at concrete inputs.
use chain_sdk.Base.{
  ◌^◌, ◌≡◌, refl, true, false, none, some, [], ◌∷◌, arith, bytes_equal, little_endian,
}
use chain_sdk.Types.Header.{unix_time, try_payload}
use chain_sdk.Types.Chain.{fresh}
use chain_sdk.Store.{no_faults, get_height, get_state, update_state, set_height, save_block_data}
use chain_sdk.Store.TestCodec.{codec, codec-IsCodec}
use chain_sdk.Cache.{new_cache}
use chain_sdk.Executing.TestData.{commitment, hash, at_three, db, second, four_header, four_data}
use chain_sdk.Da.ForcedInclusion.{cache_miss, other_error}
use chain_sdk.Syncing.Forced.{Rules, View}
use chain_sdk.Syncing.Sync.{from_p2p, Event, Syncer, Env, synced, try_sync_next_block}
use chain_sdk.Syncing.Sync.Steps.{IsConsistent, Steps, try_sync-Steps}
use chain_sdk.Syncing.Sync.Events.{process_height_event}
use chain_sdk.Syncing.Sync.Events.Order.{Moves, process_height_event-Moves}

abbrev rules : Rules
rules = record {
  has_retriever = false;
  epoch_size = 1;
  da_start_height = 1;
  fullness_threshold = 4194304;
  hash_tx = λ tx. tx;
}

abbrev forced : View
forced = record {
  da = record {
    has_namespace = false;
    get_cached_block = λ h. cache_miss;
    retrieve = λ h. record { code = other_error; found = []; timestamp = 0 };
  };
  max_gas = none;
  filter_txs = λ txs gas. none;
}

abbrev event : Event
event = record {
  header = four_header;
  block_data = four_data;
  da_height = 12;
  source = from_p2p;
  header_hint = 0;
  data_hint = 0;
}

abbrev syncer : Syncer
syncer = record {
  db = db;
  last_state = at_three;
  tracking = fresh;
  seen = record {
    txs = λ _. false;
    txs_by_height = λ _. [];
    block_bytes = λ _. 0;
    last_checked = 0;
  };
  header_cache = new_cache;
  data_cache = new_cache;
  pending_events = λ _. none;
  priority_heights = [];
  da_retriever_height = 0;
  has_critical_error = false;
}

abbrev env : Env
env = record {
  codec = codec;
  hash = hash;
  commitment = commitment;
  empty_txs_hash = 0 ∷ [];
  rules = rules;
  forced = forced;
  cancelled = false;
  max_allowed = 2 ^ 64;
  signing = λ h d. record {
    verify = λ p. some true;
    provider = none;
    slim = some (1 ∷ []);
    legacy = none;
  };
  execute = λ txs height time app_hash. second;
  stopped = λ _. false;
  faults = no_faults;
  latest_da_height = none;
}

is_consistent : IsConsistent env syncer
unfolding get_height get_state little_endian
is_consistent = (refl, refl)

syncs : (try_sync_next_block env event syncer).1 ≡ synced
unfolding try_sync_next_block bytes_equal unix_time try_payload update_state set_height
    little_endian save_block_data
syncs = refl

try_sync-Steps_example : Steps env event syncer (try_sync_next_block env event syncer)
try_sync-Steps_example = try_sync-Steps env event syncer

process_height_event-Moves_example : Moves env syncer (process_height_event env event syncer)
process_height_event-Moves_example =
    process_height_event-Moves env event syncer codec-IsCodec (omega arith) is_consistent
