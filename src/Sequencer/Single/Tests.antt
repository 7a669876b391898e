-- ===== src/Sequencer/Single/Tests.antt =====
-- GetNextBatch at concrete inputs.
use chain_sdk.Base.{
  ℕ, ap, ◌∙◌, length-map, ◌+◌, ◌-◌, ◌≡◌, refl, List, [], ◌∷◌, ◌++◌, map, Option, none, some, arith,
  Bytes, length, drop, add_u64, Bool, true,
}
use chain_sdk.Epoch.{calculate_epoch_number, calculate_epoch_boundaries}
use chain_sdk.Da.ForcedInclusion.{
  retrieve_forced_included_txs, DaView, cache_miss, other_error, heights_from, from_cache,
  fetch_missing,
}
use chain_sdk.Da.ForcedInclusion.Epochs.{IsEvent}
use chain_sdk.Sequencer.Wal.{Tx, Entry}
use chain_sdk.Sequencer.TestData.{some-injective, memory_wal, cell, broken_cell}
use chain_sdk.Sequencer.Queue.{BatchQueue, initial_seq_num}
use chain_sdk.Sequencer.Checkpoint.{Checkpoint, save}
use chain_sdk.Sequencer.Filter.{FilterStatus, filter_ok, filter_remove, filter_postpone}
use chain_sdk.Sequencer.Filter.Order.{passed, before_postpone}
use chain_sdk.Sequencer.Single.{
  State, Env, Request, Genesis, CatchUp, in_progress, done, remaining_forced, take_mempool,
  statuses_of, build_batch, get_next_batch,
}
use chain_sdk.Sequencer.Single.Progress.{RepliesWith, build_batch_lem}
use chain_sdk.Sequencer.Single.CatchUps.{failed_epoch_skipped}
use chain_sdk.Sequencer.Single.Timestamps.{StandsAt, build_batch-StandsAt}

abbrev chain_id : Bytes
chain_id = 99 ∷ []

abbrev genesis : Genesis
genesis = record { da_start_height = 10; da_epoch_size = 5 }

abbrev tx : ℕ → Tx
tx n = n ∷ []

-- One byte passes, more are postponed.
abbrev verdict : Tx → FilterStatus
verdict [] = filter_remove
verdict (x ∷ []) = filter_ok
verdict (x ∷ y ∷ ts) = filter_postpone

abbrev verdicts : List Tx → ℕ → ℕ → Bool → Option (List FilterStatus)
verdicts txs max_bytes max_gas forced = some (map verdict txs)

verdicts-length :
    (txs : List Tx) (max_bytes max_gas : ℕ) (forced : Bool) (statuses : List FilterStatus)
    → verdicts txs max_bytes max_gas forced ≡ some statuses
    → length statuses ≡ length txs
verdicts-length txs max_bytes max_gas forced statuses h =
    ap length (some-injective h) ∙ length-map txs verdict

-- Nothing is cached, and the DA layer answers with an error.
abbrev da_down : DaView
da_down = record {
  has_namespace = true;
  get_cached_block = λ h. cache_miss;
  retrieve = λ h. record { code = other_error; found = []; timestamp = 0 };
}

abbrev env : Env
env = record {
  da = da_down;
  latest_da_height = some 30;
  last_block_time = some 70;
  genesis_da_height = none;
  max_gas = some 100;
  filter_txs = verdicts;
  length-filter_txs = verdicts-length;
  now = 1000;
}

abbrev request : Request
request = record { id = chain_id; max_bytes = 1000; last_batch_data = [] }

abbrev waiting : BatchQueue (List Entry)
waiting = record {
  queue = record { batch = tx 7 ∷ []; key = 48 ∷ [] } ∷ [];
  head = 0;
  max_queue_size = 3;
  next_add_seq = initial_seq_num + 1;
  next_prepend_seq = initial_seq_num - 1;
  db = (48 ∷ [], tx 7) ∷ [];
}

abbrev middle : CatchUp → List Tx → State (List Entry) (Option Bytes)
middle c txs = record {
  queue = waiting;
  da_height = 14;
  da_start_height = 10;
  checkpoint_db = none;
  checkpoint = record { da_height = 14; tx_index = 0 };
  retriever_start = 10;
  cached_txs = txs;
  catch_up = c;
  da_end_time = 5_000_000;
  epoch_tx_count = 3;
}

abbrev epoch : List Tx
epoch = tx 1 ∷ (2 ∷ 3 ∷ []) ∷ tx 4 ∷ []

abbrev statuses : List FilterStatus
statuses = filter_ok ∷ filter_postpone ∷ filter_ok ∷ []

abbrev settled : State (List Entry) (Option Bytes)
settled = middle done epoch

abbrev catching : State (List Entry) (Option Bytes)
catching = middle in_progress epoch

abbrev mempool_verdicts : List FilterStatus
mempool_verdicts = map verdict (take_mempool memory_wal cell chain_id genesis settled).1

build_batch_lem_example :
    (remaining_forced memory_wal cell chain_id genesis
        (build_batch memory_wal cell chain_id genesis settled env request 14).0
      ≡ drop
          (length (before_postpone statuses))
          (remaining_forced memory_wal cell chain_id genesis settled))
    × RepliesWith memory_wal cell chain_id genesis
        (passed
            (before_postpone statuses)
            (remaining_forced memory_wal cell chain_id genesis settled)
          ++ passed mempool_verdicts (take_mempool memory_wal cell chain_id genesis settled).1)
        (build_batch memory_wal cell chain_id genesis settled env request 14).1
unfolding remaining_forced statuses_of
build_batch_lem_example =
    build_batch_lem memory_wal cell chain_id genesis settled env request 14 statuses
      mempool_verdicts (omega arith) refl refl

-- The first of the epoch's three transactions is consumed: two milliseconds before the end.
build_batch-StandsAt_example :
    StandsAt 5_000_000 3
      (0 + length (before_postpone statuses))
      (build_batch memory_wal cell chain_id genesis catching env request 14).1
unfolding remaining_forced statuses_of take_mempool
build_batch-StandsAt_example =
    build_batch-StandsAt memory_wal cell chain_id genesis catching env request 14 statuses [] refl
      (omega arith) (omega arith) (omega arith) refl refl

save-broken : (db : Option Bytes) (c : Checkpoint) → save broken_cell db c ≡ none
unfolding save
save-broken db c = refl

failed_epoch_skipped_example :
    let s' = (get_next_batch memory_wal cell chain_id genesis (middle done []) env request).0 in
    IsEvent (retrieve_forced_included_txs da_down 10 5 14) 14 14 []
    × (s'.checkpoint ≡ record { da_height = add_u64 14 1; tx_index = 0 })
    × (s'.cached_txs ≡ [])
unfolding calculate_epoch_number calculate_epoch_boundaries heights_from from_cache fetch_missing
failed_epoch_skipped_example =
    failed_epoch_skipped memory_wal cell chain_id genesis (middle done []) env request [] refl
      (omega arith) (omega arith) refl refl refl (omega arith) refl refl
