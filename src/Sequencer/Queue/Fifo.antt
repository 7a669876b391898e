-- ===== src/Sequencer/Queue/Fifo.antt =====
-- The queue as the list of batches that wait, first the next one to leave.
use chain_sdk.Base.{
  ℕ, suc, ◌+◌, ◌-◌, ◌/◌, zero, ◌≤◌, ◌<◌, ◌≡◌, refl, sym, ap, ◌∙◌, inl, inr, Bool-cases, false, ◌&&◌,
  some, List, [], ◌∷◌, ◌++◌, map, ltb, leb, lt→ltb, arith, length, get_or, set, drop, length-set,
  drop-append, drop-eq-cons, drop-set_self, drop-set_before,
}
use native.Mathlib.Numerals.{add-one}
use chain_sdk.Sequencer.Wal.{Batch, Wal}
use chain_sdk.Sequencer.Queue.{
  QueuedItem, no_item, BatchQueue, append_item, place_first, compact, next,
}

abbrev pub IsWellFormed : {Db : Type 0} → BatchQueue Db → Type 0
IsWellFormed bq = bq.head ≤ length bq.queue

abbrev pub items : {Db : Type 0} → BatchQueue Db → List QueuedItem
items bq = drop bq.head bq.queue

abbrev pub contents : {Db : Type 0} → BatchQueue Db → List Batch
contents bq = map (λ (i : QueuedItem). i.batch) (items bq)

module _ (w : Wal) where
  open w use {Db, put, delete}

  -- What a write that succeeded did to the waiting items.
  pub append_item-items :
      (bq : BatchQueue Db) (b : Batch) (key : _) (db : Db)
      → IsWellFormed bq
      → items (append_item w bq b key (some db)).0
        ≡ items bq ++ record { batch = b; key = key } ∷ []
  unfolding append_item
  append_item-items bq b key db wf = drop-append bq.head bq.queue _ wf

  place_first-fields :
      (q : List QueuedItem) (h m a p : ℕ) (db : Db) (i : QueuedItem)
      → h ≤ length q
      → let bq : BatchQueue Db = record {
        queue = q;
        head = h;
        max_queue_size = m;
        next_add_seq = a;
        next_prepend_seq = p;
        db = db;
      } in
        (items (place_first w bq i) ≡ i ∷ items bq) × IsWellFormed (place_first w bq i)
  unfolding place_first
  place_first-fields q zero m a p db i h = (refl, omega arith)
  place_first-fields q (suc n) m a p db i h =
      let e : suc n - 1 ≡ n = omega arith in
      rw (e, lt→ltb 0 (suc n) (omega arith))
        (drop-set_self n q i h, omega (arith, length-set q n i))

  pub place_first-items :
      (bq : BatchQueue Db) (i : QueuedItem)
      → IsWellFormed bq
      → (items (place_first w bq i) ≡ i ∷ items bq) × IsWellFormed (place_first w bq i)
  place_first-items bq i =
      place_first-fields bq.queue bq.head bq.max_queue_size bq.next_add_seq bq.next_prepend_seq
        bq.db i

  compact-items :
      (bq : BatchQueue Db)
      → IsWellFormed bq
      → (items (compact w bq) ≡ items bq)
        × IsWellFormed (compact w bq)
        × ((compact w bq).db ≡ bq.db)
  unfolding compact
  compact-items bq wf = elim (Bool-cases (ltb (length bq.queue / 2) bq.head && ltb 100 bq.head)) [
    | inl e ↦ rw e (refl, omega arith, refl)
    | inr e ↦ rw e (refl, wf, refl)
  ]

  pub next-items :
      (bq : BatchQueue Db)
      → (bq.head < length bq.queue)
      → (items bq ≡ get_or bq.queue bq.head no_item ∷ items (next w bq).0)
        × ((next w bq).1 ≡ (get_or bq.queue bq.head no_item).batch)
        × IsWellFormed (next w bq).0
  unfolding next
  next-items bq lt =
      let taken : BatchQueue Db = record bq {
        queue = set bq.queue bq.head no_item;
        head = bq.head + 1;
      } in
      let c = compact-items taken (omega (arith, length-set bq.queue bq.head no_item)) in
      let e : leb (length bq.queue) bq.head ≡ false = ground arith in
      rw e (
        drop-eq-cons bq.head bq.queue no_item lt
            ∙ ap (λ r. get_or bq.queue bq.head no_item ∷ r) (sym (c.0 ∙ rest)),
        refl,
        c.1,
      )
    where
      rest : drop (bq.head + 1) (set bq.queue bq.head no_item) ≡ drop (suc bq.head) bq.queue
      rest = rw (add-one bq.head) (drop-set_before bq.head bq.queue no_item)
