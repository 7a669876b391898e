-- ===== src/Sequencer/Based.antt =====
-- BasedSequencer of pkg/sequencers/based/sequencer.go, whose transactions all come from the DA layer.
-- The forced inclusion retriever is that of Da.ForcedInclusion; what a call sees of the rest of the
-- node is the same as for the single sequencer. VerifyBatch accepts, and SubmitBatchTxs does nothing.
pub mod Calls
pub mod Heights
mod Tests
use chain_sdk.Base.{
  ℕ, suc, ◌+◌, ◌-◌, ◌*◌, ◌==◌, Bool, true, false, ◌&&◌, ◌||◌, Option, none, some, List, [], ◌∷◌,
  map, ltb, leb, if◌then◌else◌, Bytes, length, drop, add_u64,
}
use chain_sdk.Da.ForcedInclusion.{
  ForcedInclusionEvent, RetrieveOutcome, not_configured, before_start, from_future, event,
  retrieve_forced_included_txs,
}
use chain_sdk.Sequencer.Wal.{Tx, Batch}
use chain_sdk.Sequencer.Checkpoint.{
  Checkpoint, CheckpointDb, LoadResult, checkpoint_not_found, load_failed, unmarshal_failed, loaded,
  load, save,
}
use chain_sdk.Sequencer.Filter.{FilterStatus, filter_ok, filter_remove, filter_postpone}
use chain_sdk.Sequencer.Single.{Env, Request, Response, Genesis, millisecond}

-- `da_height` is set by the executor and the submitter too, through SetDAHeight.
pub record State (Db : Type 0) : Type 0 where
  pub da_height : ℕ
  pub checkpoint_db : Db
  pub checkpoint : Checkpoint
  pub current_batch_txs : List Tx
  pub current_da_end_time : ℕ
  pub current_epoch_tx_count : ℕ

pub data Reply : Type 0 where
  inclusion_not_configured retrieve_failed save_failed no_batch : Reply
  next_batch : Response → Reply

-- The end of the fetched epoch, or 0 while the DA layer has not reached it.
pub data Fetch : Type 0 where
  fetch_not_configured fetch_failed : Fetch
  fetched : ℕ → Fetch

-- The transactions that are batched, and how many are consumed.
pub record Processed : Type 0 where
  pub valid : List Tx
  pub consumed : ℕ

take_ok : Tx → Processed → Processed
take_ok tx p = record { valid = tx ∷ p.valid; consumed = suc p.consumed }

take_removed : Processed → Processed
take_removed p = record p { consumed = suc p.consumed }

-- The loop stops at the first postponed transaction.
pub process : List FilterStatus → List Tx → Processed
unfolding take_ok take_removed
process [] txs = record { valid = []; consumed = 0 }
process (f ∷ fs) [] = record { valid = []; consumed = 0 }
process (filter_ok ∷ fs) (tx ∷ txs) = take_ok tx (process fs txs)
process (filter_remove ∷ fs) (tx ∷ txs) = take_removed (process fs txs)
process (filter_postpone ∷ fs) (tx ∷ txs) = record { valid = []; consumed = 0 }

pub fitting : ℕ → List Tx → List Tx
fitting max_bytes [] = []
fitting max_bytes (tx ∷ txs) =
    if ltb max_bytes (length tx) then fitting max_bytes txs else tx ∷ fitting max_bytes txs

-- getMaxGas
pub max_gas_of : Option ℕ → ℕ
max_gas_of none = 0
max_gas_of (some gas) = gas

pub or_all_ok : List Tx → Option (List FilterStatus) → List FilterStatus
or_all_ok txs none = map (λ _. filter_ok) txs
or_all_ok txs (some statuses) = statuses

pub statuses_of : Env → ℕ → List Tx → List FilterStatus
unfolding max_gas_of or_all_ok
statuses_of env max_bytes txs =
    or_all_ok txs (env.filter_txs txs max_bytes (max_gas_of env.max_gas) true)

module _ (d : CheckpointDb) (genesis : Genesis) where
  abbrev pub Seq : Type 0
  Seq = State d.Db

  -- SetDAHeight
  set_da_height : Seq → ℕ → Seq
  set_da_height s h = record s { da_height = h }

  -- The DA height that the stored state has, where it has one.
  start_height : Option ℕ → ℕ
  start_height none = genesis.da_start_height
  start_height (some h) = if ltb 0 h then h else genesis.da_start_height

  on_loaded : Seq → LoadResult → Option Seq
  on_loaded s checkpoint_not_found =
      some (record s { checkpoint = record { da_height = s.da_height; tx_index = 0 } })
  on_loaded s load_failed = none
  on_loaded s unmarshal_failed = none
  on_loaded s (loaded c) = some (record s { checkpoint = c })

  -- NewBasedSequencer on a datastore; `none` is an error. The genesis time starts the timestamps.
  pub new_based_sequencer : d.Db → ℕ → Option ℕ → Option Seq
  unfolding on_loaded start_height
  new_based_sequencer db start_time state_da_height =
      on_loaded
        (record {
          da_height = start_height state_da_height;
          checkpoint_db = db;
          checkpoint = record { da_height = 0; tx_index = 0 };
          current_batch_txs = [];
          current_da_end_time = start_time;
          current_epoch_tx_count = 0;
        })
        (load d db)

  pub store_event : Seq → ℕ → ForcedInclusionEvent → Seq
  unfolding fitting
  store_event s max_bytes e = record s {
    current_batch_txs = fitting max_bytes e.txs;
    current_epoch_tx_count = length (fitting max_bytes e.txs);
    current_da_end_time =
        (if ltb s.current_da_end_time e.timestamp then e.timestamp else s.current_da_end_time);
  }

  pub on_retrieved : Seq → ℕ → RetrieveOutcome → Seq × Fetch
  unfolding store_event
  on_retrieved s max_bytes not_configured = (s, fetch_not_configured)
  on_retrieved s max_bytes before_start = (s, fetch_failed)
  on_retrieved s max_bytes (from_future h) = (s, fetched 0)
  on_retrieved s max_bytes (event e) = (store_event s max_bytes e, fetched e.end_da_height)

  pub fetch_next_da_epoch : Seq → Env → ℕ → Seq × Fetch
  unfolding on_retrieved
  fetch_next_da_epoch s env max_bytes = on_retrieved s max_bytes (
      retrieve_forced_included_txs env.da genesis.da_start_height genesis.da_epoch_size
        s.checkpoint.da_height)

  pub fetch_if_consumed : Seq → Env → ℕ → Seq × Fetch
  unfolding fetch_next_da_epoch
  fetch_if_consumed s env max_bytes =
      if ltb 0 s.da_height
        && (length s.current_batch_txs == 0
            || leb (length s.current_batch_txs) s.checkpoint.tx_index)
      then fetch_next_da_epoch s env max_bytes
      else (s, fetched s.da_height)

  pub remaining : Seq → List Tx
  remaining s =
      if ltb 0 (length s.current_batch_txs)
        && ltb s.checkpoint.tx_index (length s.current_batch_txs)
      then drop s.checkpoint.tx_index s.current_batch_txs
      else []

  -- The checkpoint after `consumed` transactions, and the move to the next DA epoch.
  pub advance : Seq → ℕ → ℕ → Seq
  unfolding set_da_height
  advance s da_height consumed =
      let index = add_u64 s.checkpoint.tx_index consumed in
      if leb (length s.current_batch_txs) index
      then set_da_height
          (record s {
            checkpoint = record { da_height = add_u64 da_height 1; tx_index = 0 };
            current_batch_txs = [];
          })
          (add_u64 da_height 1)
      else record s { checkpoint = record s.checkpoint { tx_index = index } }

  pub timestamp_of : Seq → ℕ → ℕ
  timestamp_of s index =
      s.current_da_end_time - s.current_epoch_tx_count * millisecond + index * millisecond

  pub respond : Request → Seq → List Tx → ℕ → Seq × Reply
  unfolding timestamp_of
  respond req s [] index = (s, no_batch)
  respond req s (tx ∷ txs) index = (
    s,
    next_batch (record {
      batch = tx ∷ txs;
      timestamp = timestamp_of s index;
      batch_data = req.last_batch_data;
    }),
  )

  pub on_saved : Request → Seq → List Tx → ℕ → Option d.Db → Seq × Reply
  unfolding respond
  on_saved req s txs index none = (s, save_failed)
  on_saved req s txs index (some db) = respond req (record s { checkpoint_db = db }) txs index

  pub save_and_respond : Request → Seq → List Tx → ℕ → Seq × Reply
  unfolding on_saved
  save_and_respond req s txs index = on_saved req s txs index (save d s.checkpoint_db s.checkpoint)

  pub conclude : Request → Seq → ℕ → List Tx → Processed → Seq × Reply
  unfolding save_and_respond advance respond
  conclude req s da_height txs p =
      if ltb 0 da_height || ltb 0 (length txs)
      then save_and_respond req (advance s da_height p.consumed) p.valid
          (add_u64 s.checkpoint.tx_index p.consumed)
      else respond req s p.valid 0

  pub build_batch : Env → Request → Seq × Fetch → Seq × Reply
  unfolding conclude process statuses_of remaining
  build_batch env req (s, fetch_not_configured) = (s, inclusion_not_configured)
  build_batch env req (s, fetch_failed) = (s, retrieve_failed)
  build_batch env req (s, fetched da_height) =
      conclude req s da_height (remaining s)
        (process (statuses_of env req.max_bytes (remaining s)) (remaining s))

  pub get_next_batch : Seq → Env → Request → Seq × Reply
  unfolding build_batch fetch_if_consumed
  get_next_batch s env req = build_batch env req (fetch_if_consumed s env req.max_bytes)
