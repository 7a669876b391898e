-- ===== src/Sequencer/Queue/Durable.antt =====
-- The write-ahead log holds what waits, under keys in the order of the queue.
use Prim.Native.Nat.{Ordering}
use chain_sdk.Base.{
  ℕ, suc, ◌+◌, ◌≤◌, ◌<◌, ◌≡◌, refl, sym, some, List, [], ◌∷◌, ◌++◌, arith, u64_mod, length, Bytes,
  bytes_compare, Option-cases, get_or, length-append, subst, inl, inr, add_u64, sub_u64, Bool-cases,
  ltb, leb, ◌&&◌,
}
use chain_sdk.Sequencer.Key.{seq_to_key}
use chain_sdk.Sequencer.Key.Order.{bytes_compare-seq_to_key}
use chain_sdk.Sequencer.Wal.{Batch, Entry, Wal, put_entry, delete_entry}
use chain_sdk.Sequencer.Queue.{
  QueuedItem, no_item, BatchQueue, initial_seq_num, persist_batch, put_encoded, size, append_item,
  place_first, prepend_item, add_batch, prepend, next,
}
use chain_sdk.Sequencer.Queue.Fifo.{
  IsWellFormed, items, append_item-items, place_first-items, next-items,
}

-- Sequence numbers rise along the list, strictly between two bounds.
abbrev pub Keyed : ℕ → ℕ → List QueuedItem → Type 0
Keyed lo hi [] = lo < hi
Keyed lo hi (i ∷ is) = (s : ℕ) × (lo < s) × (i.key ≡ seq_to_key s) × Keyed s hi is

pub Keyed-lt : (lo hi : ℕ) (is : List QueuedItem) → Keyed lo hi is → lo < hi
Keyed-lt lo hi [] k = k
Keyed-lt lo hi (i ∷ is) (s, h, e, k) = omega (arith, Keyed-lt s hi is k)

pub Keyed-mono :
    (lo hi hi' : ℕ) (is : List QueuedItem) → hi ≤ hi' → Keyed lo hi is → Keyed lo hi' is
Keyed-mono lo hi hi' [] h k = omega arith
Keyed-mono lo hi hi' (i ∷ is) h (s, l, e, k) = (s, l, e, Keyed-mono s hi hi' is h k)

Keyed-weaken : (lo lo' hi : ℕ) (is : List QueuedItem) → lo < lo' → Keyed lo' hi is → Keyed lo hi is
Keyed-weaken lo lo' hi [] h k = omega arith
Keyed-weaken lo lo' hi (i ∷ is) h (s, l, e, k) = (s, omega arith, e, k)

pub Keyed-snoc :
    (lo hi : ℕ) (is : List QueuedItem) (i : QueuedItem)
    → i.key ≡ seq_to_key hi
    → Keyed lo hi is
    → Keyed lo (suc hi) (is ++ i ∷ [])
Keyed-snoc lo hi [] i e k = (hi, k, e, omega arith)
Keyed-snoc lo hi (j ∷ is) i e (s, l, f, k) = (s, l, f, Keyed-snoc s hi is i e k)

module _ (w : Wal) where
  open w use {Db, put, delete, entries, marshal, unmarshal}

  abbrev pub Stored : List QueuedItem → List Entry → Type 0
  Stored [] [] = Unit {0}
  Stored [] (e ∷ es) = ⊥
  Stored (i ∷ is) [] = ⊥
  Stored (i ∷ is) ((k, v) ∷ es) = (k ≡ i.key) × (unmarshal v ≡ some i.batch) × Stored is es

  pub record IsDurable (bq : BatchQueue Db) : Type 0 where
    pub well_formed : IsWellFormed bq
    pub keyed : Keyed bq.next_prepend_seq bq.next_add_seq (items bq)
    pub stored : Stored (items bq) (entries bq.db)
    pub low : bq.next_prepend_seq < initial_seq_num
    pub high : initial_seq_num ≤ bq.next_add_seq
    pub top : bq.next_add_seq < u64_mod

  put_entry-last :
      (lo hi : ℕ) (is : List QueuedItem) (es : List Entry) (i : QueuedItem) (v : Bytes)
      → hi < u64_mod
      → i.key ≡ seq_to_key hi
      → unmarshal v ≡ some i.batch
      → Keyed lo hi is
      → Stored is es
      → Stored (is ++ i ∷ []) (put_entry (seq_to_key hi) v es)
  unfolding put_entry
  put_entry-last lo hi [] [] i v top e u k st = (sym e, u, tt)
  put_entry-last lo hi [] (x ∷ es) i v top e u k st = absurd st
  put_entry-last lo hi (j ∷ is) [] i v top e u k st = absurd st
  put_entry-last lo hi (j ∷ is) ((key, x) ∷ es) i v top e u (s, l, f, k) (g, c, st) =
      let below = Keyed-lt s hi is k in
      let after : bytes_compare (seq_to_key hi) key ≡ Ordering.gt =
        rw (g, f, bytes_compare-seq_to_key hi s top (omega arith)) (ground arith) in
      rw (after, put_entry) (g, c, put_entry-last s hi is es i v top e u k st)

  put_entry-first :
      (lo hi : ℕ) (is : List QueuedItem) (es : List Entry) (i : QueuedItem) (v : Bytes)
      → hi < u64_mod
      → i.key ≡ seq_to_key lo
      → unmarshal v ≡ some i.batch
      → Keyed lo hi is
      → Stored is es
      → Stored (i ∷ is) (put_entry (seq_to_key lo) v es)
  unfolding put_entry
  put_entry-first lo hi [] [] i v top e u k st = (sym e, u, tt)
  put_entry-first lo hi [] (x ∷ es) i v top e u k st = absurd st
  put_entry-first lo hi (j ∷ is) [] i v top e u k st = absurd st
  put_entry-first lo hi (j ∷ is) ((key, x) ∷ es) i v top e u (s, l, f, k) (g, c, st) =
      let below = Keyed-lt s hi is k in
      let before : bytes_compare (seq_to_key lo) key ≡ Ordering.lt =
        rw (g, f, bytes_compare-seq_to_key lo s (omega arith) (omega arith)) (ground arith) in
      rw (before, put_entry) (sym e, u, (g, c, st))

  delete_entry-first :
      (lo hi : ℕ) (i : QueuedItem) (is : List QueuedItem) (es : List Entry)
      → hi < u64_mod
      → Keyed lo hi (i ∷ is)
      → Stored (i ∷ is) es
      → Stored is (delete_entry i.key es)
  unfolding delete_entry
  delete_entry-first lo hi i is [] top k st = absurd st
  delete_entry-first lo hi i is ((key, x) ∷ es) top (s, l, f, k) (g, c, st) =
      let below = Keyed-lt s hi is k in
      let same : bytes_compare i.key key ≡ Ordering.eq =
        rw (g, f, bytes_compare-seq_to_key s s (omega arith) (omega arith)) (ground arith) in
      rw (same, delete_entry) st

  persist_batch_cases :
      (db db' : Db) (b : Batch) (key : Bytes)
      → persist_batch w db b key ≡ some db'
      → (v : Bytes) × (unmarshal v ≡ some b) × (entries db' ≡ put_entry key v (entries db))
  unfolding persist_batch
  persist_batch_cases db db' b key h = elim (Option-cases (marshal b)) [
    | inl e ↦ cc (subst (λ o. put_encoded w db key o ≡ some db') e h)
    | inr (v, e) ↦ (
      v,
      w.unmarshal-marshal b v e,
      w.entries-put db db' key v (subst (λ o. put_encoded w db key o ≡ some db') e h),
    )
  ]

  append_item-IsDurable :
      (bq : BatchQueue Db) (b : Batch) (db : Db)
      → bq.next_add_seq + 1 < u64_mod
      → IsDurable bq
      → persist_batch w bq.db b (seq_to_key bq.next_add_seq) ≡ some db
      → IsDurable (append_item w bq b (seq_to_key bq.next_add_seq) (some db)).0
  unfolding append_item
  append_item-IsDurable bq b db room d h =
      let item : QueuedItem = record { batch = b; key = seq_to_key bq.next_add_seq } in
      let (v, u, listed) = persist_batch_cases bq.db db b (seq_to_key bq.next_add_seq) h in
      let now = append_item-items w bq b (seq_to_key bq.next_add_seq) db d.well_formed in
      let fits : add_u64 bq.next_add_seq 1 ≡ suc bq.next_add_seq = omega arith in
      record {
        well_formed = omega (arith, length-append bq.queue (item ∷ []), d.well_formed);
        keyed =
            rw (now, fits)
              (Keyed-snoc bq.next_prepend_seq bq.next_add_seq (items bq) item refl d.keyed);
        stored =
            rw (now, listed)
              (put_entry-last bq.next_prepend_seq bq.next_add_seq (items bq) (entries bq.db) item v
                d.top refl u d.keyed d.stored);
        low = d.low;
        high = omega (arith, fits, d.high);
        top = omega (arith, fits);
      }

  -- AddBatch, whether it succeeds or fails, keeps the log equal to what waits, with keys in the
  -- order of the queue, where the next sequence number has room.
  pub add_batch-IsDurable :
      (bq : BatchQueue Db) (b : Batch)
      → bq.next_add_seq + 1 < u64_mod
      → IsDurable bq
      → IsDurable (add_batch w bq b).0
  unfolding add_batch
  add_batch-IsDurable bq b room d =
      elim (Bool-cases (ltb 0 bq.max_queue_size && leb bq.max_queue_size (size w bq))) [
        | inl full ↦ rw full d
        | inr free ↦ elim (Option-cases (persist_batch w bq.db b (seq_to_key bq.next_add_seq))) [
          | inl e ↦ rw (free, e) d
          | inr (db, e) ↦ rw (free, e) (append_item-IsDurable bq b db room d e)
        ]
      ]

  place_first-fields :
      (bq : BatchQueue Db) (i : QueuedItem)
      → ((place_first w bq i).next_prepend_seq ≡ bq.next_prepend_seq)
        × ((place_first w bq i).next_add_seq ≡ bq.next_add_seq)
        × ((place_first w bq i).db ≡ bq.db)
  unfolding place_first
  place_first-fields bq i = ground arith

  prepend_item-IsDurable :
      (bq : BatchQueue Db) (b : Batch) (db : Db)
      → 0 < bq.next_prepend_seq
      → IsDurable bq
      → persist_batch w bq.db b (seq_to_key bq.next_prepend_seq) ≡ some db
      → IsDurable (prepend_item w bq b (seq_to_key bq.next_prepend_seq) (some db)).0
  unfolding prepend_item
  prepend_item-IsDurable bq b db room d h =
      let item : QueuedItem = record { batch = b; key = seq_to_key bq.next_prepend_seq } in
      let bq' : BatchQueue Db = record bq {
        next_prepend_seq = sub_u64 bq.next_prepend_seq 1;
        db = db;
      } in
      let (v, u, listed) = persist_batch_cases bq.db db b (seq_to_key bq.next_prepend_seq) h in
      let placed = place_first-items w bq' item d.well_formed in
      let same = place_first-fields bq' item in
      let fits : sub_u64 bq.next_prepend_seq 1 + 1 ≡ bq.next_prepend_seq = omega (arith, d.low) in
      record {
        well_formed = placed.1;
        keyed =
            rw (placed.0, same.0, same.1) (bq.next_prepend_seq, omega (arith, fits), refl, d.keyed);
        stored =
            rw (placed.0, same.2, listed)
              (put_entry-first bq.next_prepend_seq bq.next_add_seq (items bq) (entries bq.db) item v
                d.top refl u d.keyed d.stored);
        low = omega (arith, same.0, fits, d.low);
        high = omega (arith, same.1, d.high);
        top = omega (arith, same.1, d.top);
      }

  -- Prepend, whether it succeeds or fails, keeps the log equal to what waits, with keys in the
  -- order of the queue, where the lower sequence number is positive.
  prepend-IsDurable :
      (bq : BatchQueue Db) (b : Batch)
      → 0 < bq.next_prepend_seq
      → IsDurable bq
      → IsDurable (prepend w bq b).0
  unfolding prepend
  prepend-IsDurable bq b room d =
      elim (Option-cases (persist_batch w bq.db b (seq_to_key bq.next_prepend_seq))) [
        | inl e ↦ rw e d
        | inr (db, e) ↦ rw e (prepend_item-IsDurable bq b db room d e)
      ]

  next-fields :
      (bq : BatchQueue Db) (db : Db)
      → bq.head < length bq.queue
      → delete bq.db (get_or bq.queue bq.head no_item).key ≡ some db
      → ((next w bq).0.next_prepend_seq ≡ bq.next_prepend_seq)
        × ((next w bq).0.next_add_seq ≡ bq.next_add_seq)
        × ((next w bq).0.db ≡ db)
  unfolding next
  next-fields bq db h e = ground arith

  next_front-IsDurable :
      (bq : BatchQueue Db) (db : Db)
      → bq.head < length bq.queue
      → delete bq.db (get_or bq.queue bq.head no_item).key ≡ some db
      → IsDurable bq
      → IsDurable (next w bq).0
  next_front-IsDurable bq db h e d =
      let item = get_or bq.queue bq.head no_item in
      let taken = next-items w bq h in
      let same = next-fields bq db h e in
      let (s, l, f, k) = subst (Keyed bq.next_prepend_seq bq.next_add_seq) taken.0 d.keyed in
      record {
        well_formed = taken.2;
        keyed = rw (same.0, same.1) (Keyed-weaken bq.next_prepend_seq s bq.next_add_seq _ l k);
        stored =
            rw (same.2, w.entries-delete bq.db db item.key e)
              (delete_entry-first bq.next_prepend_seq bq.next_add_seq item (items (next w bq).0)
                (entries bq.db) d.top (s, l, f, k)
                (subst (λ is. Stored is (entries bq.db)) taken.0 d.stored));
        low = omega (arith, same.0, d.low);
        high = omega (arith, same.1, d.high);
        top = omega (arith, same.1, d.top);
      }

  -- Next keeps the log equal to what waits, where the datastore's deletes succeed.
  next-IsDurable :
      (bq : BatchQueue Db)
      → ((k : Bytes) → (db : Db) × (delete bq.db k ≡ some db))
      → IsDurable bq
      → IsDurable (next w bq).0
  unfolding next
  next-IsDurable bq deletes d = elim (Bool-cases (leb (length bq.queue) bq.head)) [
    | inl e ↦ rw e d
    | inr e ↦
        let (db, gone) = deletes (get_or bq.queue bq.head no_item).key in
        next_front-IsDurable bq db (ground arith) gone d
  ]
