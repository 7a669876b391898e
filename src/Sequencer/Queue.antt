-- ===== src/Sequencer/Queue.antt =====
-- BatchQueue of pkg/sequencers/single/queue.go: batches waiting for a block, in memory and in a
-- write-ahead log. The mutex makes each method one step, so the methods are functions on the state.
pub mod Fifo
pub mod Deque
pub mod Durable
pub mod Recovery
mod Tests
use chain_sdk.Base.{
  ℕ, zero, suc, ◌+◌, ◌-◌, ◌/◌, ◌%◌, ◌==◌, Bool, true, false, ◌&&◌, Option, none, some, List, [],
  ◌∷◌, ◌++◌, ltb, leb, if◌then◌else◌, Bytes, length, get_or, set, drop, add_u64, sub_u64,
}
use chain_sdk.Sequencer.Key.{seq_to_key, parse_uint}
use chain_sdk.Sequencer.Wal.{Batch, Entry, Wal}

abbrev pub initial_seq_num : ℕ
initial_seq_num = 0x8000000000000000

pub record QueuedItem : Type 0 where
  pub batch : Batch
  pub key : Bytes

-- Go's zero value of queuedItem.
abbrev pub no_item : QueuedItem
no_item = record { batch = []; key = [] }

-- `max_queue_size` 0 (or below, in Go) is no limit.
pub record BatchQueue (Db : Type 0) : Type 0 where
  pub queue : List QueuedItem
  pub head : ℕ
  pub max_queue_size : ℕ
  pub next_add_seq : ℕ
  pub next_prepend_seq : ℕ
  pub db : Db

pub data QueueError : Type 0 where
  queue_full persist_failed query_failed : QueueError

module _ (w : Wal) where
  open w use {Db, put, delete, query, marshal, unmarshal}

  pub new_batch_queue : Db → ℕ → BatchQueue Db
  new_batch_queue db max_size = record {
    queue = [];
    head = 0;
    max_queue_size = max_size;
    next_add_seq = initial_seq_num;
    next_prepend_seq = initial_seq_num - 1;
    db = db;
  }

  pub put_encoded : Db → Bytes → Option Bytes → Option Db
  put_encoded db key none = none
  put_encoded db key (some encoded) = put db key encoded

  pub persist_batch : Db → Batch → Bytes → Option Db
  unfolding put_encoded
  persist_batch db batch key = put_encoded db key (marshal batch)

  pub size : BatchQueue Db → ℕ
  size bq = length bq.queue - bq.head

  pub append_item : BatchQueue Db → Batch → Bytes → Option Db → BatchQueue Db × Option QueueError
  append_item bq batch key none = (bq, some persist_failed)
  append_item bq batch key (some db) = (
    record bq {
      queue = bq.queue ++ record { batch = batch; key = key } ∷ [];
      next_add_seq = add_u64 bq.next_add_seq 1;
      db = db;
    },
    none,
  )

  pub add_batch : BatchQueue Db → Batch → BatchQueue Db × Option QueueError
  unfolding append_item size persist_batch
  add_batch bq batch =
      if ltb 0 bq.max_queue_size && leb bq.max_queue_size (size bq)
      then (bq, some queue_full)
      else append_item bq batch (seq_to_key bq.next_add_seq)
          (persist_batch bq.db batch (seq_to_key bq.next_add_seq))

  -- Into the free place before the head, or at the front of a longer slice.
  pub place_first : BatchQueue Db → QueuedItem → BatchQueue Db
  place_first bq item =
      if ltb 0 bq.head
      then record bq { head = bq.head - 1; queue = set bq.queue (bq.head - 1) item }
      else record bq { queue = item ∷ bq.queue }

  pub prepend_item : BatchQueue Db → Batch → Bytes → Option Db → BatchQueue Db × Option QueueError
  unfolding place_first
  prepend_item bq batch key none = (bq, some persist_failed)
  prepend_item bq batch key (some db) = (
    place_first (record bq { next_prepend_seq = sub_u64 bq.next_prepend_seq 1; db = db })
        (record { batch = batch; key = key }),
    none,
  )

  pub prepend : BatchQueue Db → Batch → BatchQueue Db × Option QueueError
  unfolding prepend_item persist_batch
  prepend bq batch =
      prepend_item bq batch (seq_to_key bq.next_prepend_seq)
        (persist_batch bq.db batch (seq_to_key bq.next_prepend_seq))

  pub compact : BatchQueue Db → BatchQueue Db
  compact bq =
      if ltb (length bq.queue / 2) bq.head && ltb 100 bq.head
      then record bq { queue = drop bq.head bq.queue; head = 0 }
      else bq

  -- A failed delete is logged, and the entry stays.
  delete_or_keep : Db → Option Db → Db
  delete_or_keep db none = db
  delete_or_keep db (some db') = db'

  pub next : BatchQueue Db → BatchQueue Db × Batch
  unfolding compact delete_or_keep
  next bq =
      if leb (length bq.queue) bq.head
      then (bq, [])
      else let item = get_or bq.queue bq.head no_item in
        let taken =
          compact (record bq { queue = set bq.queue bq.head no_item; head = bq.head + 1 }) in
        (record taken { db = delete_or_keep taken.db (delete taken.db item.key) }, item.batch)

  -- The state of the first loop of Load: what is queued, and what has a key of an older form.
  pub record Loading : Type 0 where
    pub bq : BatchQueue Db
    pub legacy : List QueuedItem

  pub load_item : Loading → Batch → Bytes → Option ℕ → Loading
  load_item l batch key none = record l {
    legacy = l.legacy ++ record { batch = batch; key = key } ∷ [];
  }
  load_item l batch key (some seq) = record l {
    bq = record l.bq {
      queue = l.bq.queue ++ record { batch = batch; key = key } ∷ [];
      next_add_seq = if leb l.bq.next_add_seq seq then add_u64 seq 1 else l.bq.next_add_seq;
      next_prepend_seq =
          if leb seq l.bq.next_prepend_seq then sub_u64 seq 1 else l.bq.next_prepend_seq;
    };
  }

  -- Only keys of 16 characters are read as numbers.
  pub key_seq : Bytes → Option ℕ
  key_seq key = if length key == 16 then parse_uint key else none

  pub load_decoded : Loading → Bytes → Option Batch → Loading
  unfolding load_item key_seq
  load_decoded l key none = l
  load_decoded l key (some batch) = load_item l batch key (key_seq key)

  pub load_entry : Loading → Option Entry → Loading
  unfolding load_decoded
  load_entry l none = l
  load_entry l (some (key, value)) = load_decoded l key (unmarshal value)

  pub load_entries : Loading → List (Option Entry) → Loading
  unfolding load_entry
  load_entries l [] = l
  load_entries l (r ∷ rs) = load_entries (load_entry l r) rs

  -- A legacy item that cannot be written under its new key is left out of the queue.
  migrated : BatchQueue Db → QueuedItem → Bytes → Option Db → BatchQueue Db
  unfolding delete_or_keep
  migrated bq item new_key none = bq
  migrated bq item new_key (some db) = record bq {
    db = delete_or_keep db (delete db item.key);
    queue = bq.queue ++ record { batch = item.batch; key = new_key } ∷ [];
    next_add_seq = add_u64 bq.next_add_seq 1;
  }

  pub migrate : BatchQueue Db → List QueuedItem → BatchQueue Db
  unfolding migrated persist_batch
  migrate bq [] = bq
  migrate bq (item ∷ items) =
      migrate
        (migrated bq item (seq_to_key bq.next_add_seq)
          (persist_batch bq.db item.batch (seq_to_key bq.next_add_seq)))
        items

  pub cleared : BatchQueue Db → BatchQueue Db
  cleared bq = record bq {
    queue = [];
    head = 0;
    next_add_seq = initial_seq_num;
    next_prepend_seq = initial_seq_num - 1;
  }

  pub load_results :
      BatchQueue Db → Option (List (Option Entry)) → BatchQueue Db × Option QueueError
  unfolding load_entries migrate
  load_results bq none = (bq, some query_failed)
  load_results bq (some results) =
      let l = load_entries (record { bq = bq; legacy = [] }) results in
      (migrate l.bq l.legacy, none)

  pub load : BatchQueue Db → BatchQueue Db × Option QueueError
  unfolding load_results cleared
  load bq = load_results (cleared bq) (query bq.db)
