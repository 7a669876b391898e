-- ===== src/Executing/Create/Accepted.antt =====
-- The blocks that the executor creates against the checks of a node that receives them.
use chain_sdk.Base.{
  ℕ, suc, ◌<◌, ◌≤◌, ◌≡◌, ◌==◌, refl, sym, subst, false, none, some, List, [], ◌∷◌, length, Bytes,
  add_u64, arith, lt→ltb,
}
use chain_sdk.Types.Header.{SignedHeader, unix_time}
use chain_sdk.Types.Chain.{Data, Tracking, assert_valid_for_next_state}
use chain_sdk.Types.Chain.Accepted.{assert_valid_for_next_state-accepts}
use chain_sdk.Executing.{Setup, Executor, Env, BatchData, LastBlockInfo}
use chain_sdk.Executing.Create.{create_block, new_block, data_hash, create_block-new}

not_empty : (n : ℕ) → (suc n == 0) ≡ false
not_empty n = ground arith

hash-commitment :
    (s : Setup) (txs : List Bytes)
    → s.commitment [] ≡ s.empty_txs_hash
    → data_hash s txs ≡ s.commitment txs
unfolding data_hash
hash-commitment s [] e = sym e
hash-commitment s (t ∷ txs) e = rw (not_empty (length txs)) refl

-- A block that CreateBlock makes after the first, with whatever signature, passes
-- AssertValidForNextState against the state it was made from, and changes none of the package
-- variables, where the chain's identifier is the genesis one, the cached last hash is the last
-- state's and the batch is not older than the last block.
pub create_block-accepted :
    (s : Setup) (env : Env) (e : Executor) (batch : BatchData) (h : SignedHeader) (d : Data)
    (info : LastBlockInfo) (signature : Bytes) (t : Tracking)
    → s.commitment [] ≡ s.empty_txs_hash
    → e.last_state.chain_id ≡ s.genesis.chain_id
    → e.last_info ≡ some info
    → info.header_hash ≡ e.last_state.last_header_hash
    → s.genesis.initial_height < add_u64 e.last_state.last_block_height 1
    → e.last_state.last_block_time ≤ unix_time batch.nanos
    → create_block s env e (add_u64 e.last_state.last_block_height 1) batch ≡ some (h, d)
    → assert_valid_for_next_state s.commitment t e.last_state (record h { signature = signature }) d
      ≡ (t, none)
unfolding new_block
create_block-accepted s env e batch h d info signature t empty chain cached hash after time r =
    let made =
      create_block-new s env e (add_u64 e.last_state.last_block_height 1) batch info (h, d)
        (lt→ltb s.genesis.initial_height (add_u64 e.last_state.last_block_height 1) after) cached
        r in
    let b = new_block s e (add_u64 e.last_state.last_block_height 1) batch batch.nanos info in
    subst
      (λ (p : SignedHeader × Data).
        assert_valid_for_next_state s.commitment t e.last_state
          (record p.0 { signature = signature }) p.1
        ≡ (t, none))
      (sym made)
      (assert_valid_for_next_state-accepts s.commitment t e.last_state
        (record b.0 { signature = signature }) batch.txs (sym chain) refl time hash refl
        (sym (hash-commitment s batch.txs empty)))
