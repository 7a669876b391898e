-- ===== src/Sequencer/Queue/Deque.antt =====
-- Every method of the batch queue is a step of a double-ended queue of batches.
use chain_sdk.Base.{
  ◌≡◌, refl, sym, ap, ◌∙◌, ◌⊎◌, inl, inr, Bool-cases, ◌&&◌, Option, none, some, Option-cases, List,
  [], ◌∷◌, ◌++◌, map, ltb, leb, leb→le, arith, length, length-append, drop-length_le,
}
use mathlib.Core.List.{map-append}
use chain_sdk.Sequencer.Key.{seq_to_key}
use chain_sdk.Sequencer.Wal.{Batch, Wal}
use chain_sdk.Sequencer.Queue.{
  QueuedItem, BatchQueue, QueueError, queue_full, persist_failed, persist_batch, size, add_batch,
  prepend, next,
}
use chain_sdk.Sequencer.Queue.Fifo.{
  IsWellFormed, contents, append_item-items, place_first-items, next-items,
}

pub data Op : Type 0 where
  adds prepends : Batch → Op
  takes : Op

pub data Outcome : Type 0 where
  done : Outcome
  failed : QueueError → Outcome
  took : Batch → Outcome

abbrev reported : Option QueueError → Outcome
reported none = done
reported (some e) = failed e

-- The promise: what an operation may report, and what then waits.
abbrev DequeStep : List Batch → Op → Outcome → List Batch → Type 0
DequeStep xs (adds b) out ys =
    ((out ≡ done) × (ys ≡ xs ++ b ∷ [])) ⊎ ((e : QueueError) × (out ≡ failed e) × (ys ≡ xs))
DequeStep xs (prepends b) out ys =
    ((out ≡ done) × (ys ≡ b ∷ xs)) ⊎ ((e : QueueError) × (out ≡ failed e) × (ys ≡ xs))
DequeStep xs takes out ys =
    ((xs ≡ []) × (out ≡ took []) × (ys ≡ [])) ⊎ ((b : Batch) × (out ≡ took b) × (xs ≡ b ∷ ys))

abbrev pub DequeRun : List Batch → List Op → List Outcome → List Batch → Type 0
DequeRun xs [] [] zs = zs ≡ xs
DequeRun xs [] (o ∷ os) zs = ⊥
DequeRun xs (op ∷ ops) [] zs = ⊥
DequeRun xs (op ∷ ops) (o ∷ os) zs =
    (ys : List Batch) × DequeStep xs op o ys × DequeRun ys ops os zs

module _ (w : Wal) where
  open w use {Db}

  pub step : BatchQueue Db → Op → BatchQueue Db × Outcome
  step bq (adds b) = let (bq', e) = add_batch w bq b in (bq', reported e)
  step bq (prepends b) = let (bq', e) = prepend w bq b in (bq', reported e)
  step bq takes = let (bq', b) = next w bq in (bq', took b)

  pub run : BatchQueue Db → List Op → BatchQueue Db
  run bq [] = bq
  run bq (op ∷ ops) = run (step bq op).0 ops

  pub outcomes : BatchQueue Db → List Op → List Outcome
  outcomes bq [] = []
  outcomes bq (op ∷ ops) = (step bq op).1 ∷ outcomes (step bq op).0 ops

  -- A step keeps the head inside the slice and is a step of the deque.
  abbrev Refines : BatchQueue Db → Op → Type 0
  Refines bq op =
      IsWellFormed (step bq op).0
      × DequeStep (contents bq) op (step bq op).1 (contents (step bq op).0)

  add_batch-Refines : (bq : BatchQueue Db) (b : Batch) → IsWellFormed bq → Refines bq (adds b)
  unfolding step add_batch
  add_batch-Refines bq b wf =
      elim (Bool-cases (ltb 0 bq.max_queue_size && leb bq.max_queue_size (size w bq))) [
        | inl full ↦ rw full (wf, inr (queue_full, refl, refl))
        | inr room ↦ elim (Option-cases (persist_batch w bq.db b (seq_to_key bq.next_add_seq))) [
          | inl e ↦ rw (room, e) (wf, inr (persist_failed, refl, refl))
          | inr (db, e) ↦
              rw (room, e)
                (
                  omega (
                    arith,
                    length-append bq.queue
                        (record { batch = b; key = seq_to_key bq.next_add_seq } ∷ []),
                  ),
                  inl (
                    refl,
                    ap (map (λ (i : QueuedItem). i.batch)) (append_item-items w bq b _ db wf)
                        ∙ map-append _ _ _,
                  ),
                )
        ]
      ]

  prepend-Refines : (bq : BatchQueue Db) (b : Batch) → IsWellFormed bq → Refines bq (prepends b)
  unfolding step prepend
  prepend-Refines bq b wf =
      elim (Option-cases (persist_batch w bq.db b (seq_to_key bq.next_prepend_seq))) [
        | inl e ↦ rw e (wf, inr (persist_failed, refl, refl))
        | inr (db, e) ↦
            let placed =
              place_first-items w (record bq { next_prepend_seq = _; db = db })
                (record { batch = b; key = seq_to_key bq.next_prepend_seq }) wf in
            rw e (placed.1, inl (refl, ap (map (λ (i : QueuedItem). i.batch)) placed.0))
      ]

  next-Refines : (bq : BatchQueue Db) → IsWellFormed bq → Refines bq takes
  unfolding step next
  next-Refines bq wf = elim (Bool-cases (leb (length bq.queue) bq.head)) [
    | inl empty ↦
        let none_left = drop-length_le bq.head bq.queue (leb→le _ _ empty) in
        rw (next, empty)
          (
            wf,
            inl (
              ap (map (λ (i : QueuedItem). i.batch)) none_left,
              refl,
              ap (map (λ (i : QueuedItem). i.batch)) none_left,
            ),
          )
    | inr some_left ↦
        let n = next-items w bq (ground arith) in
        (
          n.2,
          inr (
            (next w bq).1,
            refl,
            ap (map (λ (i : QueuedItem). i.batch)) n.0
                ∙ ap (λ b. b ∷ contents (next w bq).0) (sym n.1),
          ),
        )
  ]

  step-Refines : (bq : BatchQueue Db) (op : Op) → IsWellFormed bq → Refines bq op
  step-Refines bq (adds b) = add_batch-Refines bq b
  step-Refines bq (prepends b) = prepend-Refines bq b
  step-Refines bq takes = next-Refines bq

  -- Any sequence of AddBatch, Prepend and Next on a queue whose head is within its slice is a run
  -- of a double-ended queue of batches: the reports and what waits at the end are those of the
  -- deque, with a refused batch where an error is reported.
  pub run-DequeRun :
      (bq : BatchQueue Db) (ops : List Op)
      → IsWellFormed bq
      → DequeRun (contents bq) ops (outcomes bq ops) (contents (run bq ops))
  unfolding run outcomes
  run-DequeRun bq [] wf = refl
  run-DequeRun bq (op ∷ ops) wf =
      let r = step-Refines bq op wf in
      (contents (step bq op).0, r.1, run-DequeRun (step bq op).0 ops r.0)
