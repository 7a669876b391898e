-- ===== src/Sequencer/Queue/Recovery.antt =====
-- Load rebuilds the queue from the write-ahead log.
use chain_sdk.Base.{
  ℕ, suc, ◌≤◌, ◌<◌, ◌≡◌, ◌==◌, refl, sym, ap, ◌∙◌, Option, none, some, List, [], ◌∷◌, ◌++◌, map,
  arith, u64_mod, length, drop, Bytes, leb, if◌then◌else◌, add_u64, sub_u64, subst, true,
}
use mathlib.Core.List.{append_assoc, append-nil}
use chain_sdk.Sequencer.Key.{seq_to_key}
use chain_sdk.Sequencer.Key.Order.{parse_uint-seq_to_key, length-seq_to_key}
use chain_sdk.Sequencer.Wal.{Entry, Wal}
use chain_sdk.Sequencer.Queue.{
  QueuedItem, QueueError, BatchQueue, initial_seq_num, Loading, key_seq, load_item, load_decoded,
  load_entry, load_entries, load_results, cleared, migrate, load,
}
use chain_sdk.Sequencer.Queue.Fifo.{items}
use chain_sdk.Sequencer.Queue.Durable.{Keyed, Keyed-lt, Keyed-mono, Keyed-snoc, Stored, IsDurable}

module _ (w : Wal) where
  open w use {Db, query, entries, unmarshal}

  key_seq-seq_to_key : (s : ℕ) → s < u64_mod → key_seq w (seq_to_key s) ≡ some s
  unfolding key_seq
  key_seq-seq_to_key s h =
      let e : (length (seq_to_key s) == 16) ≡ true = ground (arith, length-seq_to_key s) in
      rw e (parse_uint-seq_to_key s h)

  -- What one entry that can be read adds.
  abbrev with_item : Loading w → QueuedItem → ℕ → Loading w
  with_item l i s = record l {
    bq = record l.bq {
      queue = l.bq.queue ++ i ∷ [];
      next_add_seq = if leb l.bq.next_add_seq s then add_u64 s 1 else l.bq.next_add_seq;
      next_prepend_seq = if leb s l.bq.next_prepend_seq then sub_u64 s 1 else l.bq.next_prepend_seq;
    };
  }

  load_entry-stored :
      (l : Loading w) (i : QueuedItem) (k v : Bytes) (s : ℕ)
      → s < u64_mod
      → i.key ≡ seq_to_key s
      → k ≡ i.key
      → unmarshal v ≡ some i.batch
      → load_entry w l (some (k, v)) ≡ with_item l i s
  unfolding load_entry load_decoded load_item
  load_entry-stored l i k v s top f g u =
      rw (u, g, f, key_seq-seq_to_key s top, load_decoded)
        (ap (λ (j : QueuedItem). with_item l j s) refl)

  record Loaded (hi last : ℕ) (l : Loading w) : Type 0 where
    at_start : l.bq.head ≡ 0
    keyed : Keyed l.bq.next_prepend_seq (suc last) l.bq.queue
    low : l.bq.next_prepend_seq < initial_seq_num
    high : initial_seq_num ≤ l.bq.next_add_seq
    past : last < l.bq.next_add_seq
    top : l.bq.next_add_seq ≤ hi

  -- A key above all that were loaded goes to the end, and moves only the upper sequence number.
  Loaded-with_item :
      (hi last : ℕ) (l : Loading w) (i : QueuedItem) (s : ℕ)
      → hi < u64_mod
      → last < s
      → s < hi
      → i.key ≡ seq_to_key s
      → Loaded hi last l
      → Loaded hi s (with_item l i s)
  Loaded-with_item hi last l i s top after below e h =
      let p = l.bq.next_prepend_seq in
      let under = Keyed-lt p (suc last) l.bq.queue h.keyed in
      let kept : (if leb s p then sub_u64 s 1 else p) ≡ p = ground arith in
      let grows =
        Keyed-snoc p s l.bq.queue i e (Keyed-mono p (suc last) s l.bq.queue after h.keyed) in
      record {
        at_start = h.at_start;
        keyed = rw kept grows;
        low = ground (arith, h.low);
        high = ground (arith, h.high);
        past = ground (arith, h.past);
        top = ground (arith, h.top);
      }

  Loaded-first :
      (hi : ℕ) (bq : BatchQueue Db) (i : QueuedItem) (s : ℕ)
      → hi < u64_mod
      → initial_seq_num ≤ hi
      → 0 < s
      → s < hi
      → i.key ≡ seq_to_key s
      → Loaded hi s (with_item (record { bq = cleared w bq; legacy = [] }) i s)
  unfolding cleared
  Loaded-first hi bq i s top start pos below e = record {
    at_start = refl;
    keyed = (s, ground arith, e, omega arith);
    low = ground arith;
    high = ground arith;
    past = ground arith;
    top = ground arith;
  }

  -- What the first loop of Load leaves behind.
  record Result (hi : ℕ) (l l' : Loading w) (is : List QueuedItem) : Type 0 where
    last : ℕ
    loaded : Loaded hi last l'
    queue : l'.bq.queue ≡ l.bq.queue ++ is
    legacy : l'.legacy ≡ l.legacy
    db : l'.bq.db ≡ l.bq.db

  load_entries-Result :
      (hi last : ℕ) (l : Loading w) (is : List QueuedItem) (es : List Entry)
      → hi < u64_mod
      → Loaded hi last l
      → Keyed last hi is
      → Stored w is es
      → Result hi l (load_entries w l (map some es)) is
  unfolding load_entries
  load_entries-Result hi last l [] [] top h k st = record {
    last = last;
    loaded = h;
    queue = sym (append-nil _);
    legacy = refl;
    db = refl;
  }
  load_entries-Result hi last l [] (e ∷ es) top h k st = absurd st
  load_entries-Result hi last l (i ∷ is) [] top h k st = absurd st
  load_entries-Result hi last l (i ∷ is) ((key, v) ∷ es) top h (s, lt, f, k) (g, u, st) =
      let below = Keyed-lt s hi is k in
      let rest =
        load_entries-Result hi s (with_item l i s) is es top
          (Loaded-with_item hi last l i s top lt below f h) k st in
      rw (load_entry-stored l i key v s (omega arith) f g u, load_entries)
        (record {
          last = rest.last;
          loaded = rest.loaded;
          queue = rest.queue ∙ append_assoc l.bq.queue (i ∷ []) is;
          legacy = rest.legacy;
          db = rest.db;
        })

  -- A loaded queue that needs no migration, once its sequence number is known to fit.
  Loaded-IsDurable :
      (hi last : ℕ) (l : Loading w) (es : List Entry)
      → hi < u64_mod
      → Loaded hi last l
      → Stored w l.bq.queue (entries l.bq.db)
      → IsDurable w l.bq
  Loaded-IsDurable hi last l es top h st =
      let here : drop l.bq.head l.bq.queue ≡ l.bq.queue = rw h.at_start refl in
      record {
        well_formed = omega (arith, h.at_start);
        keyed = rw here (
            Keyed-mono l.bq.next_prepend_seq (suc last) l.bq.next_add_seq l.bq.queue h.past
              h.keyed);
        stored = rw here st;
        low = h.low;
        high = h.high;
        top = omega (arith, h.top);
      }

  load_results-eq :
      (bq : BatchQueue Db) (rs : List (Option Entry)) (l : Loading w)
      → load_entries w (record { bq = bq; legacy = [] }) rs ≡ l
      → l.legacy ≡ []
      → load_results w bq (some rs) ≡ (l.bq, none)
  unfolding load_results
  load_results-eq bq rs l e h = rw (e, h, migrate) refl

  abbrev Recovers : BatchQueue Db × Option QueueError → List QueuedItem → Type 0
  Recovers r is = (r.1 ≡ none) × (items r.0 ≡ is) × IsDurable w r.0

  load-Stored :
      (lo hi : ℕ) (bq : BatchQueue Db) (is : List QueuedItem) (es : List Entry)
      → hi < u64_mod
      → initial_seq_num ≤ hi
      → Keyed lo hi is
      → Stored w is es
      → query bq.db ≡ some (map some es)
      → entries bq.db ≡ es
      → Recovers (load w bq) is
  unfolding load
  load-Stored lo hi bq [] [] top start k st q h = rw q (
    refl,
    refl,
    record {
      well_formed = omega arith;
      keyed = omega arith;
      stored = rw h tt;
      low = omega arith;
      high = omega arith;
      top = omega arith;
    },
  )
  load-Stored lo hi bq [] (e ∷ es) top start k st q h = absurd st
  load-Stored lo hi bq (i ∷ is) [] top start k st q h = absurd st
  load-Stored lo hi bq (i ∷ is) ((key, v) ∷ es) top start (s, lt, f, k) (g, u, st) q h =
      let below = Keyed-lt s hi is k in
      let empty : Loading w = record { bq = cleared w bq; legacy = [] } in
      let first = with_item empty i s in
      let r =
        load_entries-Result hi s first is es top
          (Loaded-first hi bq i s top start (omega arith) below f) k st in
      let l = load_entries w first (map some es) in
      let e =
        load_results-eq (cleared w bq) (map some ((key, v) ∷ es)) l
          (ap (λ (x : Loading w). load_entries w x (map some es))
            (load_entry-stored empty i key v s (omega arith) f g u))
          r.legacy in
      let here : drop l.bq.head l.bq.queue ≡ i ∷ is = rw r.loaded.at_start r.queue in
      let kept : Stored w l.bq.queue (entries l.bq.db) = rw (r.queue, r.db, h) (g, u, st) in
      let whole : load w bq ≡ (l.bq, none) = ap (load_results w (cleared w bq)) q ∙ e in
      subst (λ r. Recovers r (i ∷ is)) (sym whole)
        (refl, here, Loaded-IsDurable hi r.last l (entries l.bq.db) top r.loaded kept)

  -- After a crash, a queue over the datastore of a queue whose log holds what waits, where all of
  -- the log's entries can be read, loads without an error the same items in the same order, and its
  -- log still holds them.
  pub load-recovers :
      (old fresh : BatchQueue Db)
      → IsDurable w old
      → fresh.db ≡ old.db
      → query old.db ≡ some (map some (entries old.db))
      → ((load w fresh).1 ≡ none)
        × (items (load w fresh).0 ≡ items old)
        × IsDurable w (load w fresh).0
  load-recovers old fresh d same q =
      load-Stored old.next_prepend_seq old.next_add_seq fresh (items old) (entries old.db) d.top
        d.high d.keyed d.stored (rw same q) (rw same refl)
