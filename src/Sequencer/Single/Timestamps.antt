-- ===== src/Sequencer/Single/Timestamps.antt =====
-- The timestamps of the blocks of a catch-up.
use chain_sdk.Base.{
  ℕ, ◌+◌, ◌*◌, ◌≤◌, ◌<◌, ◌≡◌, ◌==◌, refl, sym, ap, ◌∙◌, inl, inr, ◌||◌, Bool-cases, Option, none,
  some, List, ◌++◌, ltb, leb, arith, length, u64_mod, add_u64, subst, Bytes, true,
}
use chain_sdk.Sequencer.Wal.{Tx, Wal}
use chain_sdk.Sequencer.Checkpoint.{Checkpoint, CheckpointDb, save}
use chain_sdk.Sequencer.Filter.{FilterStatus, Sorted}
use chain_sdk.Sequencer.Filter.Order.{passed, postponed_of, before_postpone, has_postpone}
use chain_sdk.Sequencer.Single.{
  in_progress, is_in_progress, Env, Request, Reply, save_failed, no_batch, next_batch, Genesis, Seq,
  millisecond, remaining_forced, take_mempool, statuses_of, put_back, advance, timestamp_of,
  respond, saved, conclude, build_batch,
}
use chain_sdk.Sequencer.Single.Progress.{length-before_postpone, build_batch-eq, refilled}

-- A batch at `index` milliseconds after the time `count` milliseconds before `end`, or none.
abbrev pub StandsAt : ℕ → ℕ → ℕ → Reply → Type 0
StandsAt end count index (next_batch r) =
    r.timestamp + count * millisecond ≡ end + index * millisecond
StandsAt end count index no_batch = Unit {0}
StandsAt end count index save_failed = Unit {0}
StandsAt end count index _ = ⊥

module _ (w : Wal) (d : CheckpointDb) (id : Bytes) (genesis : Genesis) where
  -- The fields that a timestamp depends on.
  abbrev SameTimes : Seq w d id genesis → Seq w d id genesis → Type 0
  SameTimes s t =
      (t.catch_up ≡ s.catch_up)
      × (t.da_end_time ≡ s.da_end_time)
      × (t.epoch_tx_count ≡ s.epoch_tx_count)

  same-StandsAt :
      (s t : Seq w d id genesis) (i j : ℕ) (r : Reply)
      → SameTimes s t
      → j ≡ i
      → StandsAt t.da_end_time t.epoch_tx_count j r
      → StandsAt s.da_end_time s.epoch_tx_count i r
  same-StandsAt s t i j r (mode, end, count) index h =
      subst (λ last. StandsAt last s.epoch_tx_count i r) end
        (subst (λ n. StandsAt t.da_end_time n i r) count
          (subst (λ k. StandsAt t.da_end_time t.epoch_tx_count k r) index h))

  respond-StandsAt :
      (s : Seq w d id genesis) (env : Env) (req : Request) (sorted : Sorted) (index : ℕ)
      → s.catch_up ≡ in_progress
      → s.epoch_tx_count * millisecond ≤ s.da_end_time
      → StandsAt s.da_end_time s.epoch_tx_count index
          (respond w d id genesis s env req sorted index).1
  unfolding respond timestamp_of
  respond-StandsAt s env req sorted index catching room =
      let known : is_in_progress s.catch_up ≡ true = ap is_in_progress catching in
      elim (Bool-cases (length (sorted.valid_forced ++ sorted.valid_mempool) == 0)) [
        | inl e ↦ rw (known, e) tt
        | inr e ↦ rw (known, e) (omega arith)
      ]

  saved-StandsAt :
      (s : Seq w d id genesis) (env : Env) (req : Request) (sorted : Sorted) (index : ℕ)
      (o : Option d.Db)
      → s.catch_up ≡ in_progress
      → s.epoch_tx_count * millisecond ≤ s.da_end_time
      → StandsAt s.da_end_time s.epoch_tx_count index
          (saved w d id genesis s env req sorted index o).1
  unfolding saved
  saved-StandsAt s env req sorted index none catching room = tt
  saved-StandsAt s env req sorted index (some db) catching room =
      respond-StandsAt (record s { checkpoint_db = db }) env req sorted index catching room

  advance-SameTimes :
      (s : Seq w d id genesis) (h n : ℕ) → SameTimes s (advance w d id genesis s h n)
  unfolding advance
  advance-SameTimes s h n =
      elim (Bool-cases (leb (length s.cached_txs) (add_u64 s.checkpoint.tx_index n))) [
        | inl e ↦ rw e (refl, refl, refl)
        | inr e ↦ rw e (refl, refl, refl)
      ]

  refilled-SameTimes :
      (s : Seq w d id genesis) (txs : List Tx)
      → SameTimes s (refilled w d id genesis s txs)
        × ((refilled w d id genesis s txs).checkpoint ≡ s.checkpoint)
  unfolding take_mempool put_back
  refilled-SameTimes s txs = ((ground arith, ground arith, ground arith), ground arith)

  conclude-StandsAt :
      (s : Seq w d id genesis) (env : Env) (req : Request) (h : ℕ) (forced : List Tx)
      (sorted : Sorted)
      → s.catch_up ≡ in_progress
      → s.epoch_tx_count * millisecond ≤ s.da_end_time
      → 0 < h
      → s.checkpoint.tx_index + sorted.consumed < u64_mod
      → StandsAt s.da_end_time s.epoch_tx_count
          (s.checkpoint.tx_index + sorted.consumed)
          (conclude w d id genesis s env req h forced sorted).1
  unfolding conclude
  conclude-StandsAt s env req h forced sorted catching room pos fits =
      let s' = advance w d id genesis s h sorted.consumed in
      let same = advance-SameTimes s h sorted.consumed in
      let counted : (ltb 0 h || ltb 0 (length forced)) ≡ true = ground arith in
      let index = add_u64 s.checkpoint.tx_index sorted.consumed in
      let plain : index ≡ s.checkpoint.tx_index + sorted.consumed = omega arith in
      let o = save d s'.checkpoint_db s'.checkpoint in
      rw counted (
        same-StandsAt s s' (s.checkpoint.tx_index + sorted.consumed) index
          (saved w d id genesis s' env req sorted index o).1 same plain
          (saved-StandsAt s' env req sorted index o (same.0 ∙ catching)
            (omega (arith, same.1, same.2))))

  -- The timestamp of a batch that GetNextBatch makes in catch-up, past the fetch of a DA height, is
  -- the epoch's end time, less a millisecond for each of the epoch's forced transactions and plus
  -- one for each up to the last consumed one, also where the epoch's end resets the index; with
  -- another reply it reports a failed save or no batch. It assumes one filter status for each
  -- transaction, an index that does not overflow and an epoch's end that leaves room for its
  -- transactions.
  pub build_batch-StandsAt :
      (s : Seq w d id genesis) (env : Env) (req : Request) (h : ℕ) (fs gs : List FilterStatus)
      → s.catch_up ≡ in_progress
      → s.epoch_tx_count * millisecond ≤ s.da_end_time
      → 0 < h
      → s.checkpoint.tx_index + length fs < u64_mod
      → length fs ≡ length (remaining_forced w d id genesis s)
      → statuses_of w d id genesis env req.max_bytes
          (remaining_forced w d id genesis s)
          (remaining_forced w d id genesis s ++ (take_mempool w d id genesis s).1)
        ≡ fs ++ gs
      → StandsAt s.da_end_time s.epoch_tx_count
          (s.checkpoint.tx_index + length (before_postpone fs))
          (build_batch w d id genesis s env req h).1
  build_batch-StandsAt s env req h fs gs catching room pos fits lengths verdicts =
      let forced = remaining_forced w d id genesis s in
      let mempool = (take_mempool w d id genesis s).1 in
      let s' = refilled w d id genesis s (postponed_of gs mempool) in
      let (same, at_index) = refilled-SameTimes s (postponed_of gs mempool) in
      let from : s'.checkpoint.tx_index ≡ s.checkpoint.tx_index =
        ap (λ (c : Checkpoint). c.tx_index) at_index in
      let result : Sorted = record {
        valid_forced = passed (before_postpone fs) forced;
        valid_mempool = passed gs mempool;
        consumed = length (before_postpone fs);
        postponed = has_postpone fs;
      } in
      let bound = length-before_postpone fs in
      subst
        (λ (x : Seq w d id genesis × Reply).
          StandsAt s.da_end_time s.epoch_tx_count (s.checkpoint.tx_index + result.consumed) x.1)
        (sym (build_batch-eq w d id genesis s env req h fs gs lengths verdicts))
        (same-StandsAt s s' (s.checkpoint.tx_index + result.consumed)
          (s'.checkpoint.tx_index + result.consumed)
          (conclude w d id genesis s' env req h forced result).1 same (omega (arith, from))
          (conclude-StandsAt s' env req h forced result (same.0 ∙ catching)
            (omega (arith, same.1, same.2)) pos (omega (arith, from))))
