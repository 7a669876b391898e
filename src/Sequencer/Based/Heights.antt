-- ===== src/Sequencer/Based/Heights.antt =====
-- Where the checkpoint of the based sequencer goes.
use chain_sdk.Base.{
  ℕ, ◌+◌, ◌-◌, ◌≤◌, ◌<◌, ◌≡◌, ◌==◌, refl, sym, ap, ◌∙◌, subst, inl, inr, true, false, ◌&&◌, ◌||◌,
  Bool-cases, Option, List, [], ltb, leb, arith, length, drop-length_le, length-drop, u64_mod,
  add_u64, if_both, if_of_true, if_of_false,
}
use chain_sdk.Da.ForcedInclusion.{
  RetrieveOutcome, not_configured, before_start, from_future, event, retrieve_forced_included_txs,
}
use chain_sdk.Da.ForcedInclusion.Epochs.{retrieve-end}
use chain_sdk.Sequencer.Wal.{Tx}
use chain_sdk.Sequencer.Checkpoint.{Checkpoint, CheckpointDb, save}
use chain_sdk.Sequencer.Single.{Env, Request, Genesis}
use chain_sdk.Sequencer.Based.{
  Reply, Fetch, fetched, Processed, process, statuses_of, Seq, store_event, on_retrieved,
  fetch_next_da_epoch, fetch_if_consumed, remaining, advance, respond, on_saved, save_and_respond,
  conclude, build_batch, get_next_batch,
}
use chain_sdk.Sequencer.Based.Calls.{
  consumed_of, process_lem, length-statuses, remaining-eq-drop, conclude-moves, SameProgress,
  respond_lem, on_saved_lem,
}

module _ (d : CheckpointDb) (genesis : Genesis) where
  -- When a call of the based sequencer consumes the rest of a partly consumed epoch while the
  -- height that SetDAHeight set last is below the checkpoint's, the checkpoint moves to the height
  -- after the former, so that it does not rise. It assumes that the heights and the index do not
  -- overflow.
  pub checkpoint_goes_back :
      (s : Seq d genesis) (env : Env) (req : Request)
      → s.checkpoint.tx_index < length s.current_batch_txs
      → length s.current_batch_txs < u64_mod
      → length (consumed_of env req (remaining d genesis s)) ≡ length (remaining d genesis s)
      → s.da_height < s.checkpoint.da_height
      → s.checkpoint.da_height < u64_mod
      → ((get_next_batch d genesis s env req).0.checkpoint
          ≡ record { da_height = s.da_height + 1; tx_index = 0 })
        × ((get_next_batch d genesis s env req).0.checkpoint.da_height ≤ s.checkpoint.da_height)
  unfolding get_next_batch fetch_if_consumed build_batch
  checkpoint_goes_back s env req mid fits all behind room =
      let txs = remaining d genesis s in
      let fs = statuses_of env req.max_bytes txs in
      let (v, c) = process_lem fs txs (length-statuses env req.max_bytes txs) in
      let size : length txs ≡ length s.current_batch_txs - s.checkpoint.tx_index =
        ap (λ (l : List Tx). length l) (remaining-eq-drop d genesis s)
        ∙ length-drop s.checkpoint.tx_index s.current_batch_txs in
      let used : (process fs txs).consumed ≡ length s.current_batch_txs - s.checkpoint.tx_index =
        c ∙ all ∙ size in
      let not_due : (ltb 0 s.da_height
            && (length s.current_batch_txs == 0
                || leb (length s.current_batch_txs) s.checkpoint.tx_index))
          ≡ false =
        ground arith in
      let counted : (ltb 0 s.da_height || ltb 0 (length txs)) ≡ true = ground arith in
      let last : leb (length s.current_batch_txs)
            (add_u64 s.checkpoint.tx_index (process fs txs).consumed)
          ≡ true =
        ground arith in
      let (m, g) = conclude-moves d genesis req s s.da_height txs (process fs txs) counted last in
      let plain : add_u64 s.da_height 1 ≡ s.da_height + 1 = omega arith in
      let moved = m ∙ ap (λ (k : ℕ). record { da_height = k; tx_index = 0 }) plain in
      if_of_false
        (λ (x : Seq d genesis × Fetch).
          ((build_batch d genesis env req x).0.checkpoint
            ≡ record { da_height = s.da_height + 1; tx_index = 0 })
          × ((build_batch d genesis env req x).0.checkpoint.da_height ≤ s.checkpoint.da_height))
        (ltb 0 s.da_height
          && (length s.current_batch_txs == 0
              || leb (length s.current_batch_txs) s.checkpoint.tx_index))
        _ _ not_due
        (
          moved,
          subst (λ (x : Checkpoint). x.da_height ≤ s.checkpoint.da_height) (sym moved)
              (omega arith),
        )

  -- The two heights agree, and the checkpoint is not below an earlier one.
  abbrev Aligned : ℕ → Seq d genesis → Type 0
  Aligned k t = (t.da_height ≡ t.checkpoint.da_height) × (k ≤ t.checkpoint.da_height)

  SameProgress-Aligned :
      (k : ℕ) (s t : Seq d genesis) → SameProgress d genesis s t → Aligned k s → Aligned k t
  SameProgress-Aligned k s t (c, h, b) (a, le) =
      let same = ap (λ (x : Checkpoint). x.da_height) c in
      (h ∙ a ∙ sym same, subst (λ (n : ℕ). k ≤ n) (sym same) le)

  respond-Aligned :
      (req : Request) (s : Seq d genesis) (txs : List Tx) (index k : ℕ)
      → Aligned k s
      → Aligned k (respond d genesis req s txs index).0
  respond-Aligned req s txs index k al =
      SameProgress-Aligned k s (respond d genesis req s txs index).0
        (respond_lem d genesis req s txs index).0 al

  on_saved-Aligned :
      (req : Request) (s : Seq d genesis) (txs : List Tx) (index k : ℕ) (o : Option d.Db)
      → Aligned k s
      → Aligned k (on_saved d genesis req s txs index o).0
  on_saved-Aligned req s txs index k o al =
      SameProgress-Aligned k s (on_saved d genesis req s txs index o).0
        (on_saved_lem d genesis req s txs index o).0 al

  conclude-Aligned :
      (req : Request) (s : Seq d genesis) (h k : ℕ) (txs : List Tx) (p : Processed)
      → h + 1 < u64_mod
      → k ≤ h
      → Aligned k s
      → Aligned k (conclude d genesis req s h txs p).0
  unfolding conclude save_and_respond advance
  conclude-Aligned req s h k txs p room le al =
      if_both (λ (x : Seq d genesis × Reply). Aligned k x.0) (ltb 0 h || ltb 0 (length txs)) _ _
        (let s' = advance d genesis s h p.consumed in
          on_saved-Aligned req s' p.valid (add_u64 s.checkpoint.tx_index p.consumed) k
            (save d s'.checkpoint_db s'.checkpoint)
            (if_both (Aligned k)
              (leb (length s.current_batch_txs) (add_u64 s.checkpoint.tx_index p.consumed)) _ _
              (refl, omega arith) al))
        (respond-Aligned req s p.valid 0 k al)

  nothing_remains :
      (s : Seq d genesis)
      → (length s.current_batch_txs == 0 || leb (length s.current_batch_txs) s.checkpoint.tx_index)
        ≡ true
      → remaining d genesis s ≡ []
  nothing_remains s due =
      remaining-eq-drop d genesis s
      ∙ drop-length_le s.checkpoint.tx_index s.current_batch_txs (ground arith)

  -- Nothing is consumed at height 0.
  waits-Aligned :
      (env : Env) (req : Request) (s : Seq d genesis) (k : ℕ)
      → remaining d genesis s ≡ []
      → Aligned k s
      → Aligned k (build_batch d genesis env req (s, fetched 0)).0
  unfolding build_batch conclude
  waits-Aligned env req s k none_left al =
      let txs = remaining d genesis s in
      let p = process (statuses_of env req.max_bytes txs) txs in
      let idle : (ltb 0 0 || ltb 0 (length txs)) ≡ false = rw none_left refl in
      if_of_false (λ (x : Seq d genesis × Reply). Aligned k x.0) (ltb 0 0 || ltb 0 (length txs)) _ _
        idle (respond-Aligned req s p.valid 0 k al)

  on_retrieved-Aligned :
      (env : Env) (req : Request) (s : Seq d genesis) (o : RetrieveOutcome)
      → retrieve_forced_included_txs env.da genesis.da_start_height genesis.da_epoch_size
          s.checkpoint.da_height
        ≡ o
      → s.checkpoint.da_height + 1 < u64_mod
      → remaining d genesis s ≡ []
      → Aligned s.checkpoint.da_height s
      → Aligned s.checkpoint.da_height
          (build_batch d genesis env req (on_retrieved d genesis s req.max_bytes o)).0
  unfolding on_retrieved build_batch store_event
  on_retrieved-Aligned env req s not_configured r room none_left al = al
  on_retrieved-Aligned env req s before_start r room none_left al = al
  on_retrieved-Aligned env req s (from_future h) r room none_left al =
      waits-Aligned env req s s.checkpoint.da_height none_left al
  on_retrieved-Aligned env req s (event e) r room none_left al =
      let last =
        retrieve-end env.da genesis.da_start_height genesis.da_epoch_size s.checkpoint.da_height e
          r in
      let s' = store_event d genesis s req.max_bytes e in
      conclude-Aligned req s' e.end_da_height s.checkpoint.da_height (remaining d genesis s')
        (process (statuses_of env req.max_bytes (remaining d genesis s')) (remaining d genesis s'))
        (omega arith) (omega arith) al

  -- While the height that SetDAHeight set last is the checkpoint's, a call keeps it so, and the
  -- checkpoint does not go back, where the next height does not overflow.
  get_next_batch-Aligned :
      (s : Seq d genesis) (env : Env) (req : Request)
      → s.da_height ≡ s.checkpoint.da_height
      → s.checkpoint.da_height + 1 < u64_mod
      → Aligned s.checkpoint.da_height (get_next_batch d genesis s env req).0
  unfolding get_next_batch fetch_if_consumed fetch_next_da_epoch build_batch
  get_next_batch-Aligned s env req same room =
      let Goal : Seq d genesis × Fetch → Type 0 =
        λ x. Aligned s.checkpoint.da_height (build_batch d genesis env req x).0 in
      let exhausted =
        length s.current_batch_txs == 0 || leb (length s.current_batch_txs) s.checkpoint.tx_index in
      elim (Bool-cases (ltb 0 s.da_height && exhausted)) [
        | inl y ↦ if_of_true Goal (ltb 0 s.da_height && exhausted) _ _ y (
            on_retrieved-Aligned env req s _ refl room (nothing_remains s (ground arith))
              (same, omega arith))
        | inr n ↦ if_of_false Goal (ltb 0 s.da_height && exhausted) _ _ n (
            conclude-Aligned req s s.da_height s.checkpoint.da_height (remaining d genesis s)
              (process (statuses_of env req.max_bytes (remaining d genesis s))
                (remaining d genesis s))
              (omega arith) (omega arith) (same, omega arith))
      ]
