-- ===== src/Sequencer/Single/CatchUps.antt =====
-- Catch-up, the end of an epoch, and what failures cost.
use chain_sdk.Base.{
  ℕ, ◌+◌, ◌≤◌, ◌<◌, ◌≡◌, ◌==◌, refl, sym, ap, ◌∙◌, ◌↔◌, true, false, ◌&&◌, ◌||◌, none, some, List,
  [], ◌++◌, ltb, leb, arith, length, drop, u64_mod, add_u64, Bytes, bytes_equal, bytes_equal_refl,
  drop-nil,
}
use mathlib.Core.List.{append-nil}
use chain_sdk.Epoch.{calculate_epoch_number, calculate_epoch_boundaries}
use chain_sdk.Epoch.Bounds.{number_mono, number-le}
use chain_sdk.Da.ForcedInclusion.{
  Blocks, fetched, from_cache, fetch_missing, ForcedInclusionEvent, event,
  retrieve_forced_included_txs,
}
use chain_sdk.Da.ForcedInclusion.Epochs.{epoch_heights, IsEvent, failed_epoch_lem}
use chain_sdk.Sequencer.Wal.{Tx, Batch, Wal}
use chain_sdk.Sequencer.Checkpoint.{Checkpoint, CheckpointDb, save}
use chain_sdk.Sequencer.Filter.{FilterStatus, Sorted}
use chain_sdk.Sequencer.Filter.Order.{passed, before_postpone, postponed_of}
use chain_sdk.Sequencer.Single.{
  unchecked, in_progress, done, is_in_progress, Env, Request, Reply, save_failed, Genesis, Seq,
  update_catch_up_state, update_unchecked, fitting, store_outcome, fetch_if_consumed,
  init_checkpoint, remaining_forced, take_mempool, statuses_of, put_back, advance, conclude,
  build_batch, get_next_batch,
}
use chain_sdk.Sequencer.Single.Progress.{
  build_batch_lem, build_batch-eq, remaining_forced-eq-drop, RepliesWith, refilled,
}

module _ (w : Wal) (d : CheckpointDb) (id : Bytes) (genesis : Genesis) where
  -- The first check enters catch-up exactly when the DA layer's latest height lies in a later epoch
  -- than the checkpoint, for a positive epoch size and heights without overflow.
  enters_catch_up_iff :
      (s : Seq w d id genesis) (env : Env) (latest : ℕ)
      → s.catch_up ≡ unchecked
      → 0 < genesis.da_epoch_size
      → env.latest_da_height ≡ some latest
      → latest + genesis.da_epoch_size < u64_mod
      → s.checkpoint.da_height + genesis.da_epoch_size < u64_mod
      → ((update_catch_up_state w d id genesis s env).catch_up ≡ in_progress) ↔ (
          calculate_epoch_number s.checkpoint.da_height genesis.da_start_height
            genesis.da_epoch_size
          < calculate_epoch_number latest genesis.da_start_height genesis.da_epoch_size)
  unfolding update_catch_up_state
  enters_catch_up_iff s env latest first pos known fits room =
      let c = s.checkpoint.da_height in
      let start = genesis.da_start_height in
      let e = genesis.da_epoch_size in
      let below = number-le c start e pos room in
      let below' = number-le latest start e pos fits in
      (
        λ h. ground (arith, number_mono c latest start e),
        λ h. ground (arith, number_mono latest c start e),
      )

  take_mempool_lem :
      (s : Seq w d id genesis) → s.catch_up ≡ in_progress → take_mempool w d id genesis s ≡ (s, [])
  unfolding take_mempool
  take_mempool_lem s catching =
      let e : is_in_progress s.catch_up ≡ true = ap is_in_progress catching in rw e refl

  queue-conclude :
      (s : Seq w d id genesis) (env : Env) (req : Request) (h : ℕ) (forced : List Tx)
      (sorted : Sorted)
      → (conclude w d id genesis s env req h forced sorted).0.queue ≡ s.queue
  unfolding conclude
  queue-conclude s env req h forced sorted = ground arith

  conclude-failed :
      (s : Seq w d id genesis) (env : Env) (req : Request) (h : ℕ) (forced : List Tx)
      (sorted : Sorted)
      → ((db : d.Db) (c : Checkpoint) → save d db c ≡ none)
      → 0 < h
      → (conclude w d id genesis s env req h forced sorted).1 ≡ save_failed
  unfolding conclude
  conclude-failed s env req h forced sorted fails pos =
      let s' = advance w d id genesis s h sorted.consumed in
      let counted : (ltb 0 h || ltb 0 (length forced)) ≡ true = ground arith in
      rw (counted, fails s'.checkpoint_db s'.checkpoint) refl

  -- While catching up, a call of GetNextBatch past the fetch leaves the mempool's queue alone, and
  -- its batch has forced transactions only: the accepted ones before the first postponed one. It
  -- assumes one filter status for each transaction and an index that does not overflow.
  catching_up_skips_mempool :
      (s : Seq w d id genesis) (env : Env) (req : Request) (h : ℕ) (fs : List FilterStatus)
      → s.catch_up ≡ in_progress
      → s.checkpoint.tx_index + length fs < u64_mod
      → length fs ≡ length (remaining_forced w d id genesis s)
      → statuses_of w d id genesis env req.max_bytes
          (remaining_forced w d id genesis s)
          (remaining_forced w d id genesis s)
        ≡ fs
      → ((build_batch w d id genesis s env req h).0.queue ≡ s.queue)
        × RepliesWith w d id genesis
            (passed (before_postpone fs) (remaining_forced w d id genesis s))
            (build_batch w d id genesis s env req h).1
  unfolding put_back
  catching_up_skips_mempool s env req h fs catching fits lengths verdicts =
      let forced = remaining_forced w d id genesis s in
      let alone = take_mempool_lem s catching in
      let all : statuses_of w d id genesis env req.max_bytes forced
            (forced ++ (take_mempool w d id genesis s).1)
          ≡ fs ++ [] =
        rw (alone, append-nil forced, append-nil fs) verdicts in
      let r = build_batch_lem w d id genesis s env req h fs [] fits lengths all in
      let whole = build_batch-eq w d id genesis s env req h fs [] lengths all in
      (
        ap (λ (x : Seq w d id genesis × Reply). x.0.queue) whole
            ∙ queue-conclude
                (refilled w d id genesis s (postponed_of [] (take_mempool w d id genesis s).1)) env
                req h forced _
            ∙ ap (λ (x : Seq w d id genesis × Batch). x.0.queue) alone,
        rw (← append-nil (passed (before_postpone fs) forced)) r.1,
      )

  -- Where every save of a checkpoint fails, a call past the start height reports the failure and
  -- has consumed the forced transactions all the same: the next call goes on after them. It assumes
  -- one filter status for each transaction and an index that does not overflow.
  failed_save_drops_forced :
      (s : Seq w d id genesis) (env : Env) (req : Request) (h : ℕ) (fs gs : List FilterStatus)
      → ((db : d.Db) (c : Checkpoint) → save d db c ≡ none)
      → 0 < h
      → s.checkpoint.tx_index + length fs < u64_mod
      → length fs ≡ length (remaining_forced w d id genesis s)
      → statuses_of w d id genesis env req.max_bytes
          (remaining_forced w d id genesis s)
          (remaining_forced w d id genesis s ++ (take_mempool w d id genesis s).1)
        ≡ fs ++ gs
      → ((build_batch w d id genesis s env req h).1 ≡ save_failed)
        × (remaining_forced w d id genesis (build_batch w d id genesis s env req h).0
            ≡ drop (length (before_postpone fs)) (remaining_forced w d id genesis s))
  failed_save_drops_forced s env req h fs gs fails pos fits lengths verdicts = (
    ap (λ (x : Seq w d id genesis × Reply). x.1)
          (build_batch-eq w d id genesis s env req h fs gs lengths verdicts)
        ∙ conclude-failed _ env req h (remaining_forced w d id genesis s) _ fails pos,
    (build_batch_lem w d id genesis s env req h fs gs fits lengths verdicts).0,
  )

  checkpoint-conclude :
      (s : Seq w d id genesis) (env : Env) (req : Request) (h : ℕ) (forced : List Tx)
      (sorted : Sorted)
      → 0 < h
      → s.cached_txs ≡ []
      → (conclude w d id genesis s env req h forced sorted).0.checkpoint
        ≡ record { da_height = add_u64 h 1; tx_index = 0 }
  unfolding conclude
  checkpoint-conclude s env req h forced sorted pos empty =
      let counted : (ltb 0 h || ltb 0 (length forced)) ≡ true = ground arith in
      let none_left : leb (length s.cached_txs) (add_u64 s.checkpoint.tx_index sorted.consumed)
          ≡ true =
        ground arith in
      ground arith

  cached_txs-conclude :
      (s : Seq w d id genesis) (env : Env) (req : Request) (h : ℕ) (forced : List Tx)
      (sorted : Sorted)
      → s.cached_txs ≡ []
      → (conclude w d id genesis s env req h forced sorted).0.cached_txs ≡ []
  unfolding conclude
  cached_txs-conclude s env req h forced sorted empty = ground arith

  cached_txs-refilled :
      (s : Seq w d id genesis) (txs : List Tx)
      → (refilled w d id genesis s txs).cached_txs ≡ s.cached_txs
  unfolding take_mempool put_back
  cached_txs-refilled s txs = ground arith

  -- With no forced transactions cached, a call moves on to the next DA height.
  build_batch-empty :
      (s : Seq w d id genesis) (env : Env) (req : Request) (h : ℕ)
      → 0 < h
      → s.cached_txs ≡ []
      → ((build_batch w d id genesis s env req h).0.checkpoint
          ≡ record { da_height = add_u64 h 1; tx_index = 0 })
        × ((build_batch w d id genesis s env req h).0.cached_txs ≡ [])
  build_batch-empty s env req h pos empty =
      let forced = remaining_forced w d id genesis s in
      let gs =
        statuses_of w d id genesis env req.max_bytes forced
          (forced ++ (take_mempool w d id genesis s).1) in
      let s' = refilled w d id genesis s (postponed_of gs (take_mempool w d id genesis s).1) in
      let no_forced : forced ≡ [] =
        remaining_forced-eq-drop w d id genesis s
        ∙ ap (drop s.checkpoint.tx_index) empty
        ∙ drop-nil s.checkpoint.tx_index in
      let whole =
        build_batch-eq w d id genesis s env req h [] gs (sym (ap length no_forced)) refl in
      let still = cached_txs-refilled s _ ∙ empty in
      (
        ap (λ (x : Seq w d id genesis × Reply). x.0.checkpoint) whole
            ∙ checkpoint-conclude s' env req h forced _ pos still,
        ap (λ (x : Seq w d id genesis × Reply). x.0.cached_txs) whole
            ∙ cached_txs-conclude s' env req h forced _ still,
      )

  -- The first fetch of an epoch, once catch-up is settled.
  fetch_lem :
      (s : Seq w d id genesis) (env : Env) (max_bytes : ℕ) (e : ForcedInclusionEvent)
      → 0 < s.da_height
      → 0 < s.checkpoint.da_height
      → s.cached_txs ≡ []
      → s.catch_up ≡ done
      → retrieve_forced_included_txs env.da s.retriever_start genesis.da_epoch_size
          s.checkpoint.da_height
        ≡ event e
      → fetch_if_consumed w d id genesis
          (init_checkpoint w d id genesis s env)
          env
          max_bytes
          s.da_height
        ≡ store_outcome w d id genesis s max_bytes (event e)
  unfolding fetch_if_consumed init_checkpoint
  fetch_lem s env max_bytes e pos started empty settled r =
      let old : (ltb 0 s.da_height && s.checkpoint.da_height == 0) ≡ false = ground arith in
      let due : (ltb 0 s.da_height
            && (length s.cached_txs == 0 || leb (length s.cached_txs) s.checkpoint.tx_index))
          ≡ true =
        ground arith in
      let kept : update_unchecked w d id genesis s env s.catch_up ≡ s =
        ap (update_unchecked w d id genesis s env) settled in
      rw (old, due, kept, r) refl

  -- Where the request has the sequencer's id, a namespace is configured, the sequencer is past
  -- catch-up, has consumed the previous epoch and stands at an epoch's last height, and the DA
  -- layer fails for a height of that epoch that the cache lacks while no height is from the future,
  -- GetNextBatch moves the checkpoint past the epoch with nothing cached of it: the retriever
  -- answers with an empty event that ends at the epoch's end.
  pub failed_epoch_skipped :
      (s : Seq w d id genesis) (env : Env) (req : Request) (bs : Blocks)
      → id ≡ req.id
      → 0 < s.da_height
      → 0 < s.checkpoint.da_height
      → s.cached_txs ≡ []
      → s.catch_up ≡ done
      → env.da.has_namespace ≡ true
      → s.retriever_start ≤ s.checkpoint.da_height
      → s.checkpoint.da_height
        ≡ (calculate_epoch_boundaries s.checkpoint.da_height s.retriever_start
            genesis.da_epoch_size).end
      → fetch_missing env.da
          (from_cache env.da (
            epoch_heights (
              calculate_epoch_boundaries s.checkpoint.da_height s.retriever_start
                genesis.da_epoch_size))).missing
        ≡ fetched bs true
      → let s' = (get_next_batch w d id genesis s env req).0 in
        IsEvent
          (retrieve_forced_included_txs env.da s.retriever_start genesis.da_epoch_size
            s.checkpoint.da_height)
          s.checkpoint.da_height
          s.checkpoint.da_height
          []
        × (s'.checkpoint ≡ record { da_height = add_u64 s.checkpoint.da_height 1; tx_index = 0 })
        × (s'.cached_txs ≡ [])
  unfolding get_next_batch
  failed_epoch_skipped s env req bs mine pos started empty settled named after last failed =
      let (e, r, first, final, none_found) =
        failed_epoch_lem env.da s.retriever_start genesis.da_epoch_size s.checkpoint.da_height bs
          named after last failed in
      let known : bytes_equal id req.id ≡ true = rw (← mine) (bytes_equal_refl id) in
      let stored = store_outcome w d id genesis s req.max_bytes (event e) in
      let moved =
        build_batch-empty stored.0 env req s.checkpoint.da_height started
          (ap (fitting w d id genesis req.max_bytes) none_found) in
      let fetch = fetch_lem s env req.max_bytes e pos started empty settled r in
      (
        (e, r, first, final, none_found),
        rw (known, fetch, final) moved.0,
        rw (known, fetch, final) moved.1,
      )
