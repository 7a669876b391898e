-- ===== src/Executing/Produce/Commits.antt =====
-- What one call of ProduceBlock may change of the chain.
use chain_sdk.Base.{
  ℕ, ◌≡◌, ◌==◌, ◌⊎◌, inl, inr, refl, sym, ap, subst, true, false, Bool-cases, Option, none, some,
  ltb, if_both, if_of_true, Bytes, add_u64, arith,
}
use chain_sdk.Types.Header.{Header, SignedHeader}
use chain_sdk.Types.Chain.{State, Data, Tracking, SequenceError, next_state, assert_valid_sequence}
use chain_sdk.Store.{Db, Batch, commit}
use chain_sdk.Store.Saved.{stage_block}
use chain_sdk.Executing.{Setup, Executor, Env, Reply, NextBatch, batch_error, no_batch, got_batch}
use chain_sdk.Executing.Pending.{
  PendingRead, nothing_pending, unreadable, pending, get_pending_block, save_pending_block,
  save_pending_block-some,
}
use chain_sdk.Executing.Create.{create_block, apply_block, create_block-height, apply_block-next}
use chain_sdk.Executing.Produce.{
  lacks, at_da_height, after_commit, propose, store_block, sign_and_store, on_applied, finish_block,
  save_and_finish, on_created, new_block, from_pending, choose_block, count_call, limit_reached,
  within_limit, produce_block,
}

-- The same datastore but for the pending block.
abbrev pub SameChain : Db → Db → Type 0
SameChain db db' =
    db' ≡ record db { pending_header = db'.pending_header; pending_data = db'.pending_data }

-- No block was added.
abbrev pub Kept : Executor → Executor → Type 0
Kept e e' =
    (e'.last_state ≡ e.last_state)
    × (e'.last_info ≡ e.last_info)
    × (e'.has_pending_block ≡ e.has_pending_block)
    × SameChain e.db e'.db

abbrev next_height : Executor → ℕ
next_height e = add_u64 e.last_state.last_block_height 1

-- One block was committed: the header stands at the next height, is valid after the last state, and
-- its batch with the next state was committed whole, after which the memory has the same state.
abbrev pub Committed : Setup → Env → Executor → Executor → SignedHeader → Data → Bytes → Db → Type 0
Committed s env e e' h d app_hash db =
    (h.height ≡ next_height e)
    × ((t : Tracking) × ((assert_valid_sequence t e.last_state h).1 ≡ none))
    × (e'.last_state ≡ at_da_height env (next_state s.hash e.last_state h.header app_hash))
    × SameChain e.db db
    × (commit env.late db
          (stage_block s.codec env.late db h d h.signature (next_height e) e'.last_state)
        ≡ some e'.db)
    × (e'.has_pending_block ≡ false)
    × (e'.last_info
        ≡ some (record { header_hash = e'.last_state.last_header_hash; signature = h.signature }))

-- The committed block's header and data satisfy Q.
abbrev pub Steps : Setup → Env → Executor → (Header → Data → Type 0) → Executor × Reply → Type 0
Steps s env e Q (e', r) =
    Kept e e'
    ⊎ ((h : SignedHeader) × (d : Data) × (app_hash : Bytes) × (db : Db) × Committed s env e e' h d
          app_hash db
        × Q h.header d)

abbrev pub AnyBlock : Header → Data → Type 0
AnyBlock h d = Unit {0}

module _ (s : Setup) (env : Env) (e : Executor) (Q : Header → Data → Type 0) where
  -- Before the commit only the pending block, the counter and the tracking change.
  abbrev variant : Db → ℕ → Tracking → Executor
  variant db n t = record e { db = db; pending_check_counter = n; tracking = t }

  -- The state that the block leads to.
  abbrev Applied : SignedHeader → Data → State → Type 0
  Applied h d new_state =
      Q h.header d
      × (h.height ≡ next_height e)
      × ((app_hash : Bytes) × (at_da_height env new_state
            ≡ at_da_height env (next_state s.hash e.last_state h.header app_hash)))

  after_commit-Steps :
      (db : Db) (n : ℕ) (t t' : Tracking) (h : SignedHeader) (d : Data) (new_state : State)
      (o : Option Db)
      → SameChain e.db db
      → Applied h d new_state
      → (assert_valid_sequence t' e.last_state h).1 ≡ none
      → commit env.late db (
          stage_block s.codec env.late db h d h.signature
            (next_height e)
            (at_da_height env new_state))
        ≡ o
      → Steps s env e Q (after_commit s env (variant db n t) h (at_da_height env new_state) o)
  unfolding after_commit
  after_commit-Steps db n t t' h d new_state none same a v c = inl (refl, refl, refl, same)
  after_commit-Steps db n t t' h d new_state (some db') same (q, eh, (app_hash, en)) v c =
      inr (h, d, app_hash, db, (eh, (t', v), en, same, c, refl, refl), q)

  propose-Steps :
      (db : Db) (n : ℕ) (t t' : Tracking) (h : SignedHeader) (d : Data) (new_state : State)
      (batch : Batch)
      → SameChain e.db db
      → Applied h d new_state
      → (assert_valid_sequence t' e.last_state h).1 ≡ none
      → stage_block s.codec env.late db h d h.signature (next_height e) (at_da_height env new_state)
        ≡ batch
      → Steps s env e Q (propose s env (variant db n t) h (at_da_height env new_state) batch)
  unfolding propose
  propose-Steps db n t t' h d new_state none same a v b = inl (refl, refl, refl, same)
  propose-Steps db n t t' h d new_state (some ws) same a v b =
      if_both (Steps s env e Q) (lacks env.raft (λ view. view.accepts)) _ _
        (inl (refl, refl, refl, same))
        (after_commit-Steps db n t t' h d new_state (commit env.late db (some ws)) same a v
          (ap (commit env.late db) b))

  store_block-Steps :
      (db : Db) (n : ℕ) (t t' : Tracking) (h : SignedHeader) (d : Data) (new_state : State)
      (checked : Tracking × Option SequenceError)
      → SameChain e.db db
      → Applied h d new_state
      → (assert_valid_sequence t' e.last_state h).1 ≡ checked.1
      → Steps s env e Q
          (store_block s env (variant db n t) h d (at_da_height env new_state) checked)
  unfolding store_block
  store_block-Steps db n t t' h d new_state (t1, some err) same a v = inl (refl, refl, refl, same)
  store_block-Steps db n t t' h d new_state (t1, none) same a v =
      propose-Steps db n t1 t' h d new_state _ same a v refl

  sign_and_store-Steps :
      (db : Db) (n : ℕ) (t : Tracking) (h : SignedHeader) (d : Data) (new_state : State)
      (signature : Option Bytes)
      → SameChain e.db db
      → Applied h d new_state
      → Steps s env e Q
          (sign_and_store s env (variant db n t) h d (at_da_height env new_state) signature)
  unfolding sign_and_store
  sign_and_store-Steps db n t h d new_state none same a = inl (refl, refl, refl, same)
  sign_and_store-Steps db n t h d new_state (some sig) same a =
      store_block-Steps db n t t (record h { signature = sig }) d new_state
        (assert_valid_sequence t e.last_state (record h { signature = sig })) same a refl

  on_applied-Steps :
      (db : Db) (n : ℕ) (t : Tracking) (h : SignedHeader) (d : Data) (o : Option State)
      → SameChain e.db db
      → h.height ≡ next_height e
      → Q h.header d
      → apply_block s env (variant db n t) h.header d ≡ o
      → Steps s env e Q (on_applied s env (variant db n t) h d o)
  unfolding on_applied
  on_applied-Steps db n t h d none same eh q a = inl (refl, refl, refl, same)
  on_applied-Steps db n t h d (some new_state) same eh q a =
      let (app_hash, en) = apply_block-next s env (variant db n t) h.header d new_state a in
      sign_and_store-Steps db n t h d new_state _ same (q, eh, (app_hash, ap (at_da_height env) en))

  finish_block-Steps :
      (db : Db) (n : ℕ) (t : Tracking) (h : SignedHeader) (d : Data)
      → SameChain e.db db
      → h.height ≡ next_height e
      → Q h.header d
      → Steps s env e Q (finish_block s env (variant db n t) h d)
  unfolding finish_block
  finish_block-Steps db n t h d same eh q =
      if_both (Steps s env e Q) (lacks env.raft (λ view. view.quorum_after)) _ _
        (inl (refl, refl, refl, same)) (on_applied-Steps db n t h d _ same eh q refl)

module _ (s : Setup) (env : Env) (e : Executor) where
  abbrev counted : ℕ → Executor
  counted n = record e { pending_check_counter = n }

  on_created-Steps :
      (n : ℕ) (o : Option (SignedHeader × Data))
      → ((h : SignedHeader) (d : Data) → o ≡ some (h, d) → h.height ≡ next_height e)
      → Steps s env e AnyBlock (on_created s env (counted n) o)
  unfolding on_created
  on_created-Steps n none at_next = inl (refl, refl, refl, refl)
  on_created-Steps n (some (h, d)) at_next =
      saved (save_pending_block s.codec env.early e.db h d) refl
    where
      saved :
          (o : Option Db)
          → save_pending_block s.codec env.early e.db h d ≡ o
          → Steps s env e AnyBlock (save_and_finish s env (counted n) h d o)
      saved none c = inl (refl, refl, refl, refl)
      saved (some db) c =
          let (hb, bb, eh, eb, same) = save_pending_block-some s.codec env.early e.db db h d c in
          finish_block-Steps s env e AnyBlock db n e.tracking h d (rw same refl) (at_next h d refl)
            tt

  new_block-Steps :
      (n : ℕ) (b : NextBatch)
      → Steps s env e AnyBlock (new_block s env (counted n) (next_height e) b)
  unfolding new_block
  new_block-Steps n batch_error = inl (refl, refl, refl, refl)
  new_block-Steps n no_batch = inl (refl, refl, refl, refl)
  new_block-Steps n (got_batch batch) =
      on_created-Steps n (create_block s env (counted n) (next_height e) batch)
        (create_block-height s env (counted n) (next_height e) batch)

  from_pending-Steps :
      (n : ℕ) (r : PendingRead)
      → Steps s env e AnyBlock (from_pending s env (counted n) (next_height e) r)
  unfolding from_pending
  from_pending-Steps n nothing_pending = new_block-Steps n env.next_batch
  from_pending-Steps n unreadable = inl (refl, refl, refl, refl)
  from_pending-Steps n (pending h d) = elim (Bool-cases (h.height == next_height e)) [
    | inl y ↦
        rw y (finish_block-Steps s env e AnyBlock e.db n e.tracking h d refl (ground arith) tt)
    | inr ne ↦ rw ne (new_block-Steps n env.next_batch)
  ]

  within_limit-Steps : (n : ℕ) → Steps s env e AnyBlock (within_limit s env (counted n))
  unfolding within_limit choose_block
  within_limit-Steps n =
      if_both (Steps s env e AnyBlock) (limit_reached s env (counted n)) _ _
        (inl (refl, refl, refl, refl))
        (if_both (Steps s env e AnyBlock) e.has_pending_block _ _
          (from_pending-Steps n (get_pending_block s.codec env.early e.db))
          (new_block-Steps n env.next_batch))

pending_first :
    (s : Setup) (env : Env) (e : Executor) (n : ℕ) (h : SignedHeader) (d : Data)
    → e.has_pending_block ≡ true
    → get_pending_block s.codec env.early e.db ≡ pending h d
    → h.height ≡ next_height e
    → Steps s env e (λ h' d'. (h' ≡ h.header) × (d' ≡ d)) (within_limit s env (counted s env e n))
unfolding within_limit choose_block from_pending
pending_first s env e n h d flag found at_next =
    let Q : Header → Data → Type 0 = λ h' d'. (h' ≡ h.header) × (d' ≡ d) in
    let here : (h.height == next_height e) ≡ true = ground arith in
    if_both (Steps s env e Q) (limit_reached s env (counted s env e n)) _ _
      (inl (refl, refl, refl, refl))
      (if_of_true (Steps s env e Q) e.has_pending_block _ _ flag (
        subst (λ r. Steps s env e Q (from_pending s env (counted s env e n) (next_height e) r))
          (sym found)
          (if_of_true (Steps s env e Q) (h.height == next_height e) _ _ here
            (finish_block-Steps s env e Q e.db n e.tracking h d refl at_next (refl, refl)))))

-- One call of ProduceBlock, whichever call of the store, the sequencer, the execution client, the
-- signer or the cluster fails, keeps the chain and the memory's view of it, or commits, whole, one
-- block of the next height that is valid after the last state, with the next state, which the
-- memory then has too.
pub produce_block-Steps :
    (s : Setup) (env : Env) (e : Executor) → Steps s env e AnyBlock (produce_block s env e)
unfolding produce_block count_call
produce_block-Steps s env e =
    if_both (Steps s env e AnyBlock) env.cancelled _ _ (inl (refl, refl, refl, refl)) (
      if_both (Steps s env e AnyBlock) (lacks env.raft (λ view. view.quorum_before)) _ _
        (inl (refl, refl, refl, refl))
        (if_both (λ e'. Steps s env e AnyBlock (within_limit s env e')) (ltb 0 s.max_pending) _ e
          (within_limit-Steps s env e (add_u64 e.pending_check_counter 1))
          (within_limit-Steps s env e e.pending_check_counter)))

-- Where the flag of a pending block is set and the store has one for the next height, a block that
-- ProduceBlock commits has that block's header, but for the signature, and its data.
pub produce_block-Pending :
    (s : Setup) (env : Env) (e : Executor) (h : SignedHeader) (d : Data)
    → e.has_pending_block ≡ true
    → get_pending_block s.codec env.early e.db ≡ pending h d
    → h.height ≡ next_height e
    → Steps s env e (λ h' d'. (h' ≡ h.header) × (d' ≡ d)) (produce_block s env e)
unfolding produce_block count_call
produce_block-Pending s env e h d flag found at_next =
    let Q : Header → Data → Type 0 = λ h' d'. (h' ≡ h.header) × (d' ≡ d) in
    if_both (Steps s env e Q) env.cancelled _ _ (inl (refl, refl, refl, refl)) (
      if_both (Steps s env e Q) (lacks env.raft (λ view. view.quorum_before)) _ _
        (inl (refl, refl, refl, refl))
        (if_both (λ e'. Steps s env e Q (within_limit s env e')) (ltb 0 s.max_pending) _ e
          (pending_first s env e (add_u64 e.pending_check_counter 1) h d flag found at_next)
          (pending_first s env e e.pending_check_counter h d flag found at_next)))
