-- ===== src/Sequencer/Single/Progress.antt =====
-- GetNextBatch takes the forced transactions of an epoch in order, none twice and none skipped.
use chain_sdk.Base.{
  ℕ, ◌+◌, ◌≤◌, ◌<◌, ◌≡◌, ◌==◌, refl, sym, ap, ◌∙◌, inl, inr, ◌&&◌, ◌||◌, Bool-cases, Option, none,
  some, List, [], ◌∷◌, ◌++◌, ltb, leb, arith, length, drop, drop-length_le, drop-drop, drop-nil,
  u64_mod, add_u64, subst, Bytes,
}
use chain_sdk.Sequencer.Wal.{Tx, Batch, Wal}
use chain_sdk.Sequencer.Checkpoint.{Checkpoint, CheckpointDb, save}
use chain_sdk.Sequencer.Filter.{
  FilterStatus, filter_ok, filter_remove, filter_postpone, Sorted, none_sorted, sort_txs,
  postponed_mempool,
}
use chain_sdk.Sequencer.Filter.Order.{
  passed, postponed_of, before_postpone, has_postpone, sort_txs_lem,
}
use chain_sdk.Sequencer.Single.{
  Env, Request, Reply, save_failed, no_batch, next_batch, Genesis, Seq, remaining_forced,
  take_mempool, statuses_of, put_back, advance, is_in_progress, respond, saved, conclude,
  build_batch,
}

pub length-before_postpone : (fs : List FilterStatus) → length (before_postpone fs) ≤ length fs
length-before_postpone [] = omega arith
length-before_postpone (filter_ok ∷ fs) = omega (arith, length-before_postpone fs)
length-before_postpone (filter_remove ∷ fs) = omega (arith, length-before_postpone fs)
length-before_postpone (filter_postpone ∷ fs) = omega arith

module _ (w : Wal) (d : CheckpointDb) (id : Bytes) (genesis : Genesis) where
  pub remaining_forced-eq-drop :
      (s : Seq w d id genesis)
      → remaining_forced w d id genesis s ≡ drop s.checkpoint.tx_index s.cached_txs
  unfolding remaining_forced
  remaining_forced-eq-drop s =
      elim (Bool-cases
        (ltb 0 (length s.cached_txs) && ltb s.checkpoint.tx_index (length s.cached_txs))) [
          | inl e ↦ rw e refl
          | inr e ↦ rw e (sym (drop-length_le s.checkpoint.tx_index s.cached_txs (ground arith)))
        ]

  advance-remaining :
      (s : Seq w d id genesis) (h n : ℕ)
      → s.checkpoint.tx_index + n < u64_mod
      → remaining_forced w d id genesis (advance w d id genesis s h n)
        ≡ drop n (remaining_forced w d id genesis s)
  unfolding advance
  advance-remaining s h n fits =
      let index = add_u64 s.checkpoint.tx_index n in
      let plain : index ≡ s.checkpoint.tx_index + n = omega arith in
      let later = drop-drop s.checkpoint.tx_index n s.cached_txs in
      elim (Bool-cases (leb (length s.cached_txs) index)) [
        | inl e ↦
            remaining_forced-eq-drop (advance w d id genesis s h n)
            ∙ rw (remaining_forced-eq-drop s, later, e, advance)
                (sym (drop-length_le (s.checkpoint.tx_index + n) s.cached_txs (ground arith)))
        | inr e ↦
            remaining_forced-eq-drop (advance w d id genesis s h n)
            ∙ rw (remaining_forced-eq-drop s, later, e, advance)
                (ap (λ (k : ℕ). drop k s.cached_txs) plain)
      ]

  -- A reply with these transactions, or without a batch for a reason.
  abbrev pub RepliesWith : Batch → Reply → Type 0
  RepliesWith txs (next_batch r) = r.batch ≡ txs
  RepliesWith txs no_batch = txs ≡ []
  RepliesWith txs save_failed = Unit {0}
  RepliesWith txs _ = ⊥

  abbrev batch_of : Sorted → Batch
  batch_of sorted = sorted.valid_forced ++ sorted.valid_mempool

  respond_lem :
      (s : Seq w d id genesis) (env : Env) (req : Request) (sorted : Sorted) (index : ℕ)
      → ((respond w d id genesis s env req sorted index).0 ≡ s)
        × RepliesWith (batch_of sorted) (respond w d id genesis s env req sorted index).1
  unfolding respond
  respond_lem s env req sorted index =
      elim (Bool-cases (is_in_progress s.catch_up && length (batch_of sorted) == 0)) [
        | inl e ↦ rw e (refl, ground arith)
        | inr e ↦ rw e (refl, refl)
      ]

  saved_lem :
      (s : Seq w d id genesis) (env : Env) (req : Request) (sorted : Sorted) (index : ℕ)
      (o : Option d.Db)
      → (remaining_forced w d id genesis (saved w d id genesis s env req sorted index o).0
          ≡ remaining_forced w d id genesis s)
        × RepliesWith (batch_of sorted) (saved w d id genesis s env req sorted index o).1
  unfolding saved remaining_forced
  saved_lem s env req sorted index none = (refl, tt)
  saved_lem s env req sorted index (some db) =
      let r = respond_lem (record s { checkpoint_db = db }) env req sorted index in
      (ap (remaining_forced w d id genesis) r.0, r.1)

  conclude_lem :
      (s : Seq w d id genesis) (env : Env) (req : Request) (h : ℕ) (sorted : Sorted)
      → s.checkpoint.tx_index + sorted.consumed < u64_mod
      → let r = conclude w d id genesis s env req h (remaining_forced w d id genesis s) sorted in
        (remaining_forced w d id genesis r.0
          ≡ drop sorted.consumed (remaining_forced w d id genesis s))
        × RepliesWith (batch_of sorted) r.1
  unfolding conclude
  conclude_lem s env req h sorted fits =
      let forced = remaining_forced w d id genesis s in
      elim (Bool-cases (ltb 0 h || ltb 0 (length forced))) [
        | inl e ↦
            let s' = advance w d id genesis s h sorted.consumed in
            let r =
              saved_lem s' env req sorted (add_u64 s.checkpoint.tx_index sorted.consumed)
                (save d s'.checkpoint_db s'.checkpoint) in
            rw (e, conclude) (r.0 ∙ advance-remaining s h sorted.consumed fits, r.1)
        | inr e ↦
            let r = respond_lem s env req sorted 0 in
            let nothing : forced ≡ [] = ground arith in
            rw (e, conclude)
              (
                ap (remaining_forced w d id genesis) r.0
                    ∙ nothing
                    ∙ sym (ap (drop sorted.consumed) nothing ∙ drop-nil sorted.consumed),
                r.1,
              )
      ]

  -- The state once the mempool's batch was taken and its postponed transactions were put back.
  abbrev pub refilled : Seq w d id genesis → List Tx → Seq w d id genesis
  refilled s txs = put_back w d id genesis (take_mempool w d id genesis s).0 txs

  refilled_lem :
      (s : Seq w d id genesis) (txs : List Tx)
      → ((refilled s txs).checkpoint ≡ s.checkpoint)
        × (remaining_forced w d id genesis (refilled s txs) ≡ remaining_forced w d id genesis s)
  unfolding take_mempool put_back remaining_forced
  refilled_lem s txs = (ground arith, ground arith)

  pub build_batch-eq :
      (s : Seq w d id genesis) (env : Env) (req : Request) (h : ℕ) (fs gs : List FilterStatus)
      → length fs ≡ length (remaining_forced w d id genesis s)
      → statuses_of w d id genesis env req.max_bytes
          (remaining_forced w d id genesis s)
          (remaining_forced w d id genesis s ++ (take_mempool w d id genesis s).1)
        ≡ fs ++ gs
      → build_batch w d id genesis s env req h
        ≡ conclude w d id genesis
            (refilled s (postponed_of gs (take_mempool w d id genesis s).1))
            env
            req
            h
            (remaining_forced w d id genesis s)
            (record {
              valid_forced = passed (before_postpone fs) (remaining_forced w d id genesis s);
              valid_mempool = passed gs (take_mempool w d id genesis s).1;
              consumed = length (before_postpone fs);
              postponed = has_postpone fs;
            })
  unfolding build_batch
  build_batch-eq s env req h fs gs lengths verdicts =
      let forced = remaining_forced w d id genesis s in
      let mempool = (take_mempool w d id genesis s).1 in
      let txs = forced ++ mempool in
      let n = length forced in
      let sorted = sort_txs_lem fs gs forced mempool lengths in
      ap
        (λ fs'.
          conclude w d id genesis (refilled s (postponed_mempool 0 n fs' txs)) env req h forced
            (sort_txs 0 n fs' txs none_sorted))
        verdicts
      ∙ ap
          (λ p.
            conclude w d id genesis (refilled s p) env req h forced
              (sort_txs 0 n (fs ++ gs) txs none_sorted))
          sorted.1
      ∙ ap (conclude w d id genesis (refilled s (postponed_of gs mempool)) env req h forced)
          sorted.0

  -- One call of GetNextBatch past the fetch consumes the forced transactions before the first
  -- postponed one and leaves exactly the others for the next call; the reply has the accepted ones
  -- of the consumed in order and then the accepted ones of the mempool, unless it reports a failed
  -- save or, with nothing accepted, no batch. It assumes one filter status for each transaction and
  -- an index that does not overflow.
  pub build_batch_lem :
      (s : Seq w d id genesis) (env : Env) (req : Request) (h : ℕ) (fs gs : List FilterStatus)
      → s.checkpoint.tx_index + length fs < u64_mod
      → length fs ≡ length (remaining_forced w d id genesis s)
      → statuses_of w d id genesis env req.max_bytes
          (remaining_forced w d id genesis s)
          (remaining_forced w d id genesis s ++ (take_mempool w d id genesis s).1)
        ≡ fs ++ gs
      → (remaining_forced w d id genesis (build_batch w d id genesis s env req h).0
          ≡ drop (length (before_postpone fs)) (remaining_forced w d id genesis s))
        × RepliesWith
            (passed (before_postpone fs) (remaining_forced w d id genesis s)
              ++ passed gs (take_mempool w d id genesis s).1)
            (build_batch w d id genesis s env req h).1
  unfolding build_batch
  build_batch_lem s env req h fs gs fits lengths verdicts =
      let forced = remaining_forced w d id genesis s in
      let mempool = (take_mempool w d id genesis s).1 in
      let sorted = sort_txs_lem fs gs forced mempool lengths in
      let s' = refilled s (postponed_of gs mempool) in
      let same = refilled_lem s (postponed_of gs mempool) in
      let bound = length-before_postpone fs in
      let result : Sorted = record {
        valid_forced = passed (before_postpone fs) forced;
        valid_mempool = passed gs mempool;
        consumed = length (before_postpone fs);
        postponed = has_postpone fs;
      } in
      let r =
        conclude_lem s' env req h result
          (omega (arith, ap (λ (c : Checkpoint). c.tx_index) same.0)) in
      subst
        (λ (x : Seq w d id genesis × Reply).
          (remaining_forced w d id genesis x.0 ≡ drop result.consumed forced)
          × RepliesWith (batch_of result) x.1)
        (sym (
          build_batch-eq s env req h fs gs lengths verdicts
          ∙ ap (λ x. conclude w d id genesis s' env req h x result) (sym same.1)))
        (r.0 ∙ ap (drop result.consumed) same.1, r.1)
