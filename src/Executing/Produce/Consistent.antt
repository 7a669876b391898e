-- ===== src/Executing/Produce/Consistent.antt =====
-- The store and the memory of the executor agree.
use chain_sdk.Base.{
  ℕ, ◌+◌, ◌<◌, ◌^◌, ◌≡◌, ◌≢◌, inl, inr, refl, sym, ap, ◌∙◌, subst, Option, none, some, Bytes,
  add_u64, arith,
}
use chain_sdk.Types.Header.{SignedHeader}
use chain_sdk.Types.Chain.{State, Data, next_state}
use chain_sdk.Store.{Db, no_faults, IsCodec, found, get_height, get_state}
use chain_sdk.Store.Saved.{stage_block-reads, stage_block-Holds}
use chain_sdk.Executing.{Setup, Executor, Env, LastBlockInfo}
use chain_sdk.Executing.Produce.{at_da_height, produce_block}
use chain_sdk.Executing.Produce.Commits.{Kept, Committed, produce_block-Steps}

-- The last block's information is that of the last state.
abbrev IsInfo : State → Option LastBlockInfo → Type 0
IsInfo st none = Unit {0}
IsInfo st (some info) = info.header_hash ≡ st.last_header_hash

-- The store's height and state are those of the last state in memory.
abbrev pub IsConsistent : Setup → Executor → Type 0
IsConsistent s e =
    (get_height no_faults e.db ≡ some e.last_state.last_block_height)
    × (get_state s.codec no_faults e.db ≡ found e.last_state)
    × IsInfo e.last_state e.last_info

not_itself : (h k : ℕ) → h < k → h ≢ k
not_itself h k lt e = omega arith

Kept-IsConsistent : (s : Setup) (e e' : Executor) → Kept e e' → IsConsistent s e → IsConsistent s e'
unfolding get_state get_height
Kept-IsConsistent s e e' (state, info, flag, chain) (h, st, i) = (
  ap (get_height no_faults) chain ∙ h ∙ ap (λ (t : State). some t.last_block_height) (sym state),
  ap (get_state s.codec no_faults) chain ∙ st ∙ ap (λ (t : State). found t) (sym state),
  subst (λ t. IsInfo t e'.last_info) (sym state) (subst (IsInfo e.last_state) (sym info) i),
)

next_height_above : (h : ℕ) → h + 1 < 2 ^ 64 → (h < add_u64 h 1) × (add_u64 h 1 < 2 ^ 64)
next_height_above h b = (omega arith, omega arith)

Committed-IsConsistent :
    (s : Setup) (env : Env) (e e' : Executor) (h : SignedHeader) (d : Data) (app_hash : Bytes)
    (db : Db)
    → IsCodec s.codec
    → e.last_state.last_block_height + 1 < 2 ^ 64
    → Committed s env e e' h d app_hash db
    → IsConsistent s e
    → IsConsistent s e'
unfolding next_state get_height at_da_height
Committed-IsConsistent s env e e' h d app_hash db codec bound
      (at_next, valid, state, chain, whole, reset, info) (height, st, i) =
    let (above, below) = next_height_above e.last_state.last_block_height bound in
    let whole' = rw (sym at_next) at whole in
    let now : get_height env.late db ≡ some e.last_state.last_block_height =
      stage_block-reads s.codec env.late h d h.signature h.height e'.last_state db e'.db whole'
      ∙ ap (get_height no_faults) chain
      ∙ height in
    let at_height : e'.last_state.last_block_height ≡ h.height =
      ap (λ (t : State). t.last_block_height) state in
    let ((blk, sig, gh, gs), kept) =
      stage_block-Holds s.codec env.late h d h.signature e'.last_state
        e.last_state.last_block_height e.last_state.last_block_height db e'.db codec now
        (omega arith) (omega arith) at_height (omega arith) whole' in
    (gh ∙ ap (λ (k : ℕ). some k) (sym at_height), gs, subst (IsInfo e'.last_state) (sym info) refl)

-- ProduceBlock preserves the agreement of the store's height and state with the memory, while the
-- next height fits in 64 bits and the encodings are read back.
pub produce_block-IsConsistent :
    (s : Setup) (env : Env) (e : Executor)
    → IsCodec s.codec
    → e.last_state.last_block_height + 1 < 2 ^ 64
    → IsConsistent s e
    → IsConsistent s (produce_block s env e).0
produce_block-IsConsistent s env e codec bound c = elim (produce_block-Steps s env e) [
  | inl k ↦ Kept-IsConsistent s e (produce_block s env e).0 k c
  | inr (h, d, app_hash, db, done, q) ↦
      Committed-IsConsistent s env e (produce_block s env e).0 h d app_hash db codec bound done c
]
