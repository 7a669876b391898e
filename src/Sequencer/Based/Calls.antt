-- ===== src/Sequencer/Based/Calls.antt =====
-- What calls of the based sequencer consume.
use chain_sdk.Base.{
  ℕ, suc, ◌+◌, ◌≤◌, ◌<◌, ◌≡◌, refl, sym, ap, ◌∙◌, subst, inl, inr, true, ◌&&◌, ◌||◌, Bool-cases,
  Option, none, some, List, [], ◌∷◌, ltb, leb, arith, length, drop, drop-length_le, drop-drop,
  length-map, u64_mod, add_u64, if_of_true, if_of_false,
}
use chain_sdk.Sequencer.Wal.{Tx, Batch}
use chain_sdk.Sequencer.Checkpoint.{Checkpoint, CheckpointDb, save}
use chain_sdk.Sequencer.Filter.{FilterStatus, filter_ok, filter_remove, filter_postpone}
use chain_sdk.Sequencer.Filter.Order.{passed, before_postpone}
use chain_sdk.Sequencer.Single.{Env, Request, Genesis}
use chain_sdk.Sequencer.Single.Progress.{length-before_postpone}
use chain_sdk.Sequencer.Based.{
  Reply, save_failed, no_batch, next_batch, fetched, Processed, process, or_all_ok, max_gas_of,
  statuses_of, Seq, remaining, advance, respond, on_saved, save_and_respond, conclude, build_batch,
}

pub process_lem :
    (fs : List FilterStatus) (txs : List Tx)
    → length fs ≡ length txs
    → ((process fs txs).valid ≡ passed (before_postpone fs) txs)
      × ((process fs txs).consumed ≡ length (before_postpone fs))
unfolding process
process_lem [] [] e = (refl, refl)
process_lem [] (tx ∷ txs) e = absurd (omega arith)
process_lem (f ∷ fs) [] e = absurd (omega arith)
process_lem (filter_ok ∷ fs) (tx ∷ txs) e =
    let (v, c) = process_lem fs txs (omega arith) in (ap (λ (x : List Tx). tx ∷ x) v, ap suc c)
process_lem (filter_remove ∷ fs) (tx ∷ txs) e =
    let (v, c) = process_lem fs txs (omega arith) in (v, ap suc c)
process_lem (filter_postpone ∷ fs) (tx ∷ txs) e = (refl, refl)

length-or_all_ok :
    (env : Env) (max_bytes gas : ℕ) (txs : List Tx) (o : Option (List FilterStatus))
    → env.filter_txs txs max_bytes gas true ≡ o
    → length (or_all_ok txs o) ≡ length txs
unfolding or_all_ok
length-or_all_ok env max_bytes gas txs none e = length-map txs (λ _. filter_ok)
length-or_all_ok env max_bytes gas txs (some fs) e =
    env.length-filter_txs txs max_bytes gas true fs e

pub length-statuses :
    (env : Env) (max_bytes : ℕ) (txs : List Tx)
    → length (statuses_of env max_bytes txs) ≡ length txs
unfolding statuses_of
length-statuses env max_bytes txs =
    length-or_all_ok env max_bytes (max_gas_of env.max_gas) txs _ refl

-- The statuses of the transactions that a call consumes.
abbrev pub consumed_of : Env → Request → List Tx → List FilterStatus
consumed_of env req txs = before_postpone (statuses_of env req.max_bytes txs)

-- A reply with these transactions, or without a batch for a reason.
abbrev pub RepliesWith : Batch → Reply → Type 0
RepliesWith txs (next_batch r) = r.batch ≡ txs
RepliesWith txs no_batch = txs ≡ []
RepliesWith txs save_failed = Unit {0}
RepliesWith txs _ = ⊥

module _ (d : CheckpointDb) (genesis : Genesis) where
  pub remaining-eq-drop :
      (s : Seq d genesis) → remaining d genesis s ≡ drop s.checkpoint.tx_index s.current_batch_txs
  unfolding remaining
  remaining-eq-drop s =
      elim (Bool-cases (
        ltb 0 (length s.current_batch_txs)
        && ltb s.checkpoint.tx_index (length s.current_batch_txs))) [
          | inl e ↦ rw e refl
          | inr e ↦
              rw e (sym (drop-length_le s.checkpoint.tx_index s.current_batch_txs (ground arith)))
        ]

  remaining-advance :
      (s : Seq d genesis) (h n : ℕ)
      → s.checkpoint.tx_index + n < u64_mod
      → remaining d genesis (advance d genesis s h n) ≡ drop n (remaining d genesis s)
  unfolding advance
  remaining-advance s h n fits =
      let index = add_u64 s.checkpoint.tx_index n in
      let plain : index ≡ s.checkpoint.tx_index + n = omega arith in
      let later = drop-drop s.checkpoint.tx_index n s.current_batch_txs in
      elim (Bool-cases (leb (length s.current_batch_txs) index)) [
        | inl e ↦
            remaining-eq-drop (advance d genesis s h n)
            ∙ rw (remaining-eq-drop s, later, e, advance)
                (sym
                  (drop-length_le (s.checkpoint.tx_index + n) s.current_batch_txs (ground arith)))
        | inr e ↦
            remaining-eq-drop (advance d genesis s h n)
            ∙ rw (remaining-eq-drop s, later, e, advance)
                (ap (λ (k : ℕ). drop k s.current_batch_txs) plain)
      ]

  -- What the end of a call leaves of the state that it starts from.
  abbrev pub SameProgress : Seq d genesis → Seq d genesis → Type 0
  SameProgress s t =
      (t.checkpoint ≡ s.checkpoint)
      × (t.da_height ≡ s.da_height)
      × (t.current_batch_txs ≡ s.current_batch_txs)

  pub respond_lem :
      (req : Request) (s : Seq d genesis) (txs : List Tx) (index : ℕ)
      → SameProgress s (respond d genesis req s txs index).0
        × RepliesWith txs (respond d genesis req s txs index).1
  unfolding respond
  respond_lem req s [] index = ((refl, refl, refl), refl)
  respond_lem req s (tx ∷ txs) index = ((refl, refl, refl), refl)

  pub on_saved_lem :
      (req : Request) (s : Seq d genesis) (txs : List Tx) (index : ℕ) (o : Option d.Db)
      → SameProgress s (on_saved d genesis req s txs index o).0
        × RepliesWith txs (on_saved d genesis req s txs index o).1
  unfolding on_saved
  on_saved_lem req s txs index none = ((refl, refl, refl), tt)
  on_saved_lem req s txs index (some db) =
      respond_lem req (record s { checkpoint_db = db }) txs index

  remaining-same :
      (s t : Seq d genesis) → SameProgress s t → remaining d genesis t ≡ remaining d genesis s
  remaining-same s t (c, h, b) =
      remaining-eq-drop t
      ∙ ap (λ (x : Checkpoint). drop x.tx_index t.current_batch_txs) c
      ∙ ap (drop s.checkpoint.tx_index) b
      ∙ sym (remaining-eq-drop s)

  conclude_lem :
      (req : Request) (s : Seq d genesis) (h : ℕ) (p : Processed)
      → s.checkpoint.tx_index + p.consumed < u64_mod
      → p.consumed ≤ length (remaining d genesis s)
      → (remaining d genesis (conclude d genesis req s h (remaining d genesis s) p).0
          ≡ drop p.consumed (remaining d genesis s))
        × RepliesWith p.valid (conclude d genesis req s h (remaining d genesis s) p).1
  unfolding conclude save_and_respond
  conclude_lem req s h p fits le =
      let Ends : Seq d genesis × Reply → Type 0 = λ x.
        (remaining d genesis x.0 ≡ drop p.consumed (remaining d genesis s))
        × RepliesWith p.valid x.1 in
      let counted = ltb 0 h || ltb 0 (length (remaining d genesis s)) in
      elim (Bool-cases counted) [
        | inl y ↦ if_of_true Ends counted _ _ y (
            let s' = advance d genesis s h p.consumed in
            let (same, r) =
              on_saved_lem req s' p.valid (add_u64 s.checkpoint.tx_index p.consumed)
                (save d s'.checkpoint_db s'.checkpoint) in
            (remaining-same s' _ same ∙ remaining-advance s h p.consumed fits, r))
        | inr n ↦ if_of_false Ends counted _ _ n (
            let (same, r) = respond_lem req s p.valid 0 in
            let nothing : p.consumed ≡ 0 = ground arith in
            (
              remaining-same s _ same
                  ∙ sym (ap (λ (k : ℕ). drop k (remaining d genesis s)) nothing),
              r,
            ))
      ]

  advance-moves :
      (s : Seq d genesis) (h n : ℕ)
      → leb (length s.current_batch_txs) (add_u64 s.checkpoint.tx_index n) ≡ true
      → ((advance d genesis s h n).checkpoint ≡ record { da_height = add_u64 h 1; tx_index = 0 })
        × ((advance d genesis s h n).da_height ≡ add_u64 h 1)
  unfolding advance
  advance-moves s h n last =
      if_of_true
        (λ (x : Seq d genesis).
          (x.checkpoint ≡ record { da_height = add_u64 h 1; tx_index = 0 })
          × (x.da_height ≡ add_u64 h 1))
        (leb (length s.current_batch_txs) (add_u64 s.checkpoint.tx_index n)) _ _ last (refl, refl)

  pub conclude-moves :
      (req : Request) (s : Seq d genesis) (h : ℕ) (txs : List Tx) (p : Processed)
      → (ltb 0 h || ltb 0 (length txs)) ≡ true
      → leb (length s.current_batch_txs) (add_u64 s.checkpoint.tx_index p.consumed) ≡ true
      → ((conclude d genesis req s h txs p).0.checkpoint
          ≡ record { da_height = add_u64 h 1; tx_index = 0 })
        × ((conclude d genesis req s h txs p).0.da_height ≡ add_u64 h 1)
  unfolding conclude save_and_respond
  conclude-moves req s h txs p counted last =
      let Moved : Seq d genesis → Type 0 = λ x.
        (x.checkpoint ≡ record { da_height = add_u64 h 1; tx_index = 0 })
        × (x.da_height ≡ add_u64 h 1) in
      let s' = advance d genesis s h p.consumed in
      if_of_true (λ (x : Seq d genesis × Reply). Moved x.0) (ltb 0 h || ltb 0 (length txs)) _ _
        counted
        (let ((c, g, b), r) =
            on_saved_lem req s' p.valid (add_u64 s.checkpoint.tx_index p.consumed)
              (save d s'.checkpoint_db s'.checkpoint) in
          let (c', g') = advance-moves s h p.consumed last in (c ∙ c', g ∙ g'))

  -- One call of the based sequencer's GetNextBatch past the fetch consumes the forced transactions
  -- before the first postponed one and leaves exactly the others for the next call; the reply has
  -- the accepted ones of the consumed in order, unless it reports a failed save or, with nothing
  -- accepted, no batch. It assumes an index that does not overflow.
  pub build_batch-consumes :
      (s : Seq d genesis) (env : Env) (req : Request) (h : ℕ)
      → s.checkpoint.tx_index + length (remaining d genesis s) < u64_mod
      → (remaining d genesis (build_batch d genesis env req (s, fetched h)).0
          ≡ drop (length (consumed_of env req (remaining d genesis s))) (remaining d genesis s))
        × RepliesWith
            (passed (consumed_of env req (remaining d genesis s)) (remaining d genesis s))
            (build_batch d genesis env req (s, fetched h)).1
  unfolding build_batch
  build_batch-consumes s env req h fits =
      let txs = remaining d genesis s in
      let fs = statuses_of env req.max_bytes txs in
      let same = length-statuses env req.max_bytes txs in
      let (v, c) = process_lem fs txs same in
      let short : (process fs txs).consumed ≤ length txs =
        omega (arith, length-before_postpone fs) in
      let (left, reply) = conclude_lem req s h (process fs txs) (omega arith) short in
      (
        left ∙ ap (λ (k : ℕ). drop k txs) c,
        subst (λ (x : List Tx). RepliesWith x (conclude d genesis req s h txs (process fs txs)).1) v
            reply,
      )
