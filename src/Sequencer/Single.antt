-- ===== src/Sequencer/Single.antt =====
-- Sequencer of pkg/sequencers/single/sequencer.go: one call of GetNextBatch, with the fetch of the
-- next DA epoch and the catch-up check.
pub mod Progress
pub mod CatchUps
pub mod Timestamps
mod Tests
use chain_sdk.Base.{
  ℕ, ◌+◌, ◌-◌, ◌*◌, ◌≡◌, ◌==◌, Bool, true, false, not, ◌&&◌, ◌||◌, Option, none, some, List, [],
  ◌∷◌, ◌++◌, map, ltb, leb, if◌then◌else◌, Bytes, bytes_equal, length, drop, add_u64, sub_u64,
  little_endian,
}
use chain_sdk.Epoch.{calculate_epoch_number}
use chain_sdk.Da.ForcedInclusion.{
  DaView, ForcedInclusionEvent, RetrieveOutcome, not_configured, before_start, from_future, event,
  retrieve_forced_included_txs,
}
use chain_sdk.Sequencer.Wal.{Tx, Batch, Wal}
use chain_sdk.Sequencer.Queue.{BatchQueue, QueueError, add_batch, prepend, next}
use chain_sdk.Sequencer.Checkpoint.{Checkpoint, CheckpointDb, save}
use chain_sdk.Sequencer.Filter.{
  FilterStatus, filter_ok, Sorted, none_sorted, sort_txs, postponed_mempool,
}

pub data CatchUp : Type 0 where
  unchecked in_progress done : CatchUp

pub is_in_progress : CatchUp → Bool
is_in_progress unchecked = false
is_in_progress in_progress = true
is_in_progress done = false

pub record Genesis : Type 0 where
  pub da_start_height : ℕ
  pub da_epoch_size : ℕ

-- The fields that change. `queue_db` and `checkpoint_db` are the parts of one datastore under the
-- prefix of the queue and under the key of the checkpoint. `retriever_start` is the start height
-- that the forced inclusion retriever was built with.
pub record State (QueueDb CheckpointDb : Type 0) : Type 0 where
  pub queue : BatchQueue QueueDb
  pub da_height : ℕ
  pub da_start_height : ℕ
  pub checkpoint_db : CheckpointDb
  pub checkpoint : Checkpoint
  pub retriever_start : ℕ
  pub cached_txs : List Tx
  pub catch_up : CatchUp
  pub da_end_time : ℕ
  pub epoch_tx_count : ℕ

-- What a call sees of the rest of the node. `none` is an error. Times are nanoseconds since Go's
-- zero time. FilterTxs is documented to return one status for each transaction.
pub record Env : Type 0 where
  pub da : DaView
  pub latest_da_height : Option ℕ
  pub last_block_time : Option ℕ
  pub genesis_da_height : Option Bytes
  pub max_gas : Option ℕ
  pub filter_txs : List Tx → ℕ → ℕ → Bool → Option (List FilterStatus)
  pub length-filter_txs :
      (txs : List Tx) (max_bytes max_gas : ℕ) (forced : Bool) (statuses : List FilterStatus)
      → filter_txs txs max_bytes max_gas forced ≡ some statuses
      → length statuses ≡ length txs
  pub now : ℕ

pub record Request : Type 0 where
  pub id : Bytes
  pub max_bytes : ℕ
  pub last_batch_data : List Bytes

pub record Response : Type 0 where
  pub batch : Batch
  pub timestamp : ℕ
  pub batch_data : List Bytes

pub data Reply : Type 0 where
  invalid_id : Reply
  retrieve_failed : Reply
  save_failed : Reply
  no_batch : Reply
  next_batch : Response → Reply

abbrev pub millisecond : ℕ
millisecond = 1_000_000

stored_height : Option Bytes → ℕ
unfolding little_endian
stored_height none = 0
stored_height (some bytes) = if length bytes == 8 then little_endian bytes else 0

module _ (w : Wal) (d : CheckpointDb) (id : Bytes) (genesis : Genesis) where
  abbrev pub Seq : Type 0
  Seq = State w.Db d.Db

  -- Sets the start height as a side effect where the store has one.
  get_initial_da_start_height : Seq → Env → Seq × ℕ
  unfolding stored_height
  get_initial_da_start_height s env =
      if not (s.da_start_height == 0)
      then (s, s.da_start_height)
      else let h = stored_height env.genesis_da_height in (record s { da_start_height = h }, h)

  -- Behind by an epoch or more.
  missed_epochs : Seq → ℕ → ℕ
  missed_epochs s latest =
      sub_u64 (calculate_epoch_number latest genesis.da_start_height genesis.da_epoch_size) (
        calculate_epoch_number s.checkpoint.da_height genesis.da_start_height genesis.da_epoch_size)

  -- The floor of the timestamps is the last block's, where it is later.
  floor_time : Seq → Option ℕ → Seq
  floor_time s none = s
  floor_time s (some t) =
      if not (t == 0) && ltb s.da_end_time t then record s { da_end_time = t } else s

  check_behind : Seq → Env → Option ℕ → Seq
  unfolding missed_epochs floor_time
  check_behind s env none = s
  check_behind s env (some latest) =
      if leb latest s.checkpoint.da_height
      then s
      else if missed_epochs s latest == 0
      then s
      else floor_time (record s { catch_up = in_progress }) env.last_block_time

  pub update_unchecked : Seq → Env → CatchUp → Seq
  unfolding check_behind
  update_unchecked s env unchecked =
      let s' = record s { catch_up = done } in
      if genesis.da_epoch_size == 0 then s' else check_behind s' env env.latest_da_height
  update_unchecked s env in_progress = s
  update_unchecked s env done = s

  -- Runs once in the life of the sequencer.
  pub update_catch_up_state : Seq → Env → Seq
  unfolding update_unchecked
  update_catch_up_state s env = update_unchecked s env s.catch_up

  pub fitting : ℕ → List Tx → List Tx
  fitting max_bytes [] = []
  fitting max_bytes (tx ∷ txs) =
      if ltb max_bytes (length tx) then fitting max_bytes txs else tx ∷ fitting max_bytes txs

  -- `none` is an error; the height is the end of the fetched epoch, or 0.
  pub store_outcome : Seq → ℕ → RetrieveOutcome → Seq × Option ℕ
  unfolding fitting is_in_progress
  store_outcome s max_bytes not_configured = (record s { cached_txs = []; catch_up = done }, some 0)
  store_outcome s max_bytes before_start = (s, none)
  store_outcome s max_bytes (from_future h) =
      (if is_in_progress s.catch_up then record s { catch_up = done } else s, some 0)
  store_outcome s max_bytes (event e) =
      let valid = fitting max_bytes e.txs in
      (
        record s {
          cached_txs = valid;
          epoch_tx_count = length valid;
          da_end_time = if ltb s.da_end_time e.timestamp then e.timestamp else s.da_end_time;
        },
        some e.end_da_height,
      )

  fetch_next_da_epoch : Seq → Env → ℕ → Seq × Option ℕ
  unfolding update_catch_up_state store_outcome
  fetch_next_da_epoch s env max_bytes =
      let s' = update_catch_up_state s env in
      store_outcome s' max_bytes (
        retrieve_forced_included_txs env.da s.retriever_start genesis.da_epoch_size
          s.checkpoint.da_height)

  restart_retriever : Seq × ℕ → Seq
  restart_retriever (s, start) = record s { retriever_start = start }

  -- The checkpoint init path.
  pub init_checkpoint : Seq → Env → Seq
  unfolding get_initial_da_start_height restart_retriever
  init_checkpoint s env =
      if ltb 0 s.da_height && s.checkpoint.da_height == 0
      then restart_retriever (
          get_initial_da_start_height
            (record s { checkpoint = record { da_height = s.da_height; tx_index = 0 } }) env)
      else s

  pub fetch_if_consumed : Seq → Env → ℕ → ℕ → Seq × Option ℕ
  unfolding fetch_next_da_epoch
  fetch_if_consumed s env max_bytes da_height =
      if ltb 0 da_height
        && (length s.cached_txs == 0 || leb (length s.cached_txs) s.checkpoint.tx_index)
      then fetch_next_da_epoch s env max_bytes
      else (s, some da_height)

  -- The forced transactions that are left of the epoch.
  pub remaining_forced : Seq → List Tx
  remaining_forced s =
      if ltb 0 (length s.cached_txs) && ltb s.checkpoint.tx_index (length s.cached_txs)
      then drop s.checkpoint.tx_index s.cached_txs
      else []

  pub take_mempool : Seq → Seq × Batch
  unfolding is_in_progress
  take_mempool s =
      if not (is_in_progress s.catch_up)
      then (let (q, b) = next w s.queue in (record s { queue = q }, b))
      else (s, [])

  -- On an error of the filter every transaction passes.
  or_all_ok : List Tx → Option (List FilterStatus) → List FilterStatus
  or_all_ok txs none = map (λ _. filter_ok) txs
  or_all_ok txs (some statuses) = statuses

  or_no_limit : Option ℕ → ℕ
  or_no_limit none = 0
  or_no_limit (some gas) = gas

  pub statuses_of : Env → ℕ → List Tx → List Tx → List FilterStatus
  unfolding or_all_ok or_no_limit
  statuses_of env max_bytes forced txs =
      or_all_ok txs (env.filter_txs txs max_bytes (or_no_limit env.max_gas) (ltb 0 (length forced)))

  -- A failed write is logged: the transactions are dropped.
  pub put_back : Seq → List Tx → Seq
  put_back s txs = if ltb 0 (length txs) then record s { queue = (prepend w s.queue txs).0 } else s

  -- The checkpoint after `consumed` forced transactions, and the move to the next DA epoch.
  pub advance : Seq → ℕ → ℕ → Seq
  advance s da_height consumed =
      let index = add_u64 s.checkpoint.tx_index consumed in
      if leb (length s.cached_txs) index
      then record s {
        checkpoint = record { da_height = add_u64 da_height 1; tx_index = 0 };
        cached_txs = [];
        da_height = add_u64 da_height 1;
      }
      else record s { checkpoint = record s.checkpoint { tx_index = index } }

  -- The catch-up blocks of an epoch stand a millisecond apart, up to its end time.
  pub timestamp_of : Seq → ℕ → ℕ → ℕ → ℕ
  unfolding is_in_progress
  timestamp_of s now consumed index =
      if is_in_progress s.catch_up || ltb 0 consumed
      then s.da_end_time - s.epoch_tx_count * millisecond + index * millisecond
      else now

  pub respond : Seq → Env → Request → Sorted → ℕ → Seq × Reply
  unfolding timestamp_of is_in_progress
  respond s env req sorted index =
      let txs = sorted.valid_forced ++ sorted.valid_mempool in
      if is_in_progress s.catch_up && length txs == 0 then (s, no_batch) else (
        s,
        next_batch (record {
          batch = txs;
          timestamp = timestamp_of s env.now sorted.consumed index;
          batch_data = req.last_batch_data;
        }),
      )

  pub saved : Seq → Env → Request → Sorted → ℕ → Option d.Db → Seq × Reply
  unfolding respond
  saved s env req sorted index none = (s, save_failed)
  saved s env req sorted index (some db) =
      respond (record s { checkpoint_db = db }) env req sorted index

  pub conclude : Seq → Env → Request → ℕ → List Tx → Sorted → Seq × Reply
  unfolding saved advance
  conclude s env req da_height forced sorted =
      if ltb 0 da_height || ltb 0 (length forced)
      then (let s' = advance s da_height sorted.consumed in
          saved s' env req sorted (add_u64 s.checkpoint.tx_index sorted.consumed)
            (save d s'.checkpoint_db s'.checkpoint))
      else respond s env req sorted 0

  pub build_batch : Seq → Env → Request → ℕ → Seq × Reply
  unfolding conclude put_back statuses_of take_mempool remaining_forced
  build_batch s env req da_height =
      let forced = remaining_forced s in
      let (s', mempool) = take_mempool s in
      let txs = forced ++ mempool in
      let statuses = statuses_of env req.max_bytes forced txs in
      let sorted = sort_txs 0 (length forced) statuses txs none_sorted in
      let s'' = put_back s' (postponed_mempool 0 (length forced) statuses txs) in
      conclude s'' env req da_height forced sorted

  build_fetched : Env → Request → Seq × Option ℕ → Seq × Reply
  unfolding build_batch
  build_fetched env req (s, none) = (s, retrieve_failed)
  build_fetched env req (s, some da_height) = build_batch s env req da_height

  pub get_next_batch : Seq → Env → Request → Seq × Reply
  unfolding build_fetched init_checkpoint fetch_if_consumed
  get_next_batch s env req =
      if bytes_equal id req.id
      then build_fetched env req
          (fetch_if_consumed (init_checkpoint s env) env req.max_bytes s.da_height)
      else (s, invalid_id)

  pub data SubmitReply : Type 0 where
    accepted : SubmitReply
    wrong_id : SubmitReply
    refused : QueueError → SubmitReply

  submitted : Option QueueError → SubmitReply
  submitted none = accepted
  submitted (some e) = refused e

  -- The request's batch: nil, or a list of transactions.
  submit_batch_txs : Seq → Bytes → Option Batch → Seq × SubmitReply
  unfolding submitted
  submit_batch_txs s req_id batch =
      if bytes_equal id req_id
      then elim batch [
        | none ↦ (s, accepted)
        | some [] ↦ (s, accepted)
        | some (tx ∷ txs) ↦
            let (q, e) = add_batch w s.queue (tx ∷ txs) in (record s { queue = q }, submitted e)
      ]
      else (s, wrong_id)
