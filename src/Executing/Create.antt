-- ===== src/Executing/Create.antt =====
-- RetrieveBatch, CreateBlock, ApplyBlock and signHeader of block/internal/executing/executor.go.
pub mod Accepted
use chain_sdk.Base.{
  ◌≡◌, refl, sym, ap, subst, inl, inr, Bool-cases, some-inj, ℕ, ◌+◌, ◌-◌, ◌==◌, Bool, true, false,
  Option, none, some, List, [], ◌∷◌, ltb, if◌then◌else◌, length, Bytes,
}
use chain_sdk.Types.Header.{Header, SignedHeader}
use chain_sdk.Types.Chain.{State, Data, next_state}
use chain_sdk.Store.{Read, absent, broken, found, get_block_data, get_signature}
use chain_sdk.Executing.{
  Genesis, Setup, LastBlockInfo, Executor, BatchData, NextBatch, batch_error, no_batch, got_batch,
  Env,
}
use chain_sdk.Executing.Retry.{
  Retried, returned, exhausted, stopped_waiting, fell_through, with_retry,
}

info_of : Setup → Read (SignedHeader × Data) → Read Bytes → Option LastBlockInfo
info_of s absent signature = none
info_of s broken signature = none
info_of s (found b) absent = none
info_of s (found b) broken = none
info_of s (found (last, d)) (found signature) =
    some (record { header_hash = s.hash last.header; signature = signature })

-- The cached information on the last block, or that of the store; `none` is an error.
last_block_info : Setup → Env → Executor → ℕ → Option LastBlockInfo → Option LastBlockInfo
unfolding info_of get_block_data get_signature
last_block_info s env e height (some info) = some info
last_block_info s env e height none =
    info_of s (get_block_data s.codec env.early e.db (height - 1))
      (get_signature env.early e.db (height - 1))

pub data_hash : Setup → List Bytes → Bytes
data_hash s txs = if length txs == 0 then s.empty_txs_hash else s.commitment txs

unfoldable pub new_block :
    Setup → Executor → ℕ → BatchData → ℕ → LastBlockInfo → SignedHeader × Data
unfolding data_hash
new_block s e height batch nanos info = (
  record {
    header = record {
      chain_id = s.genesis.chain_id;
      height = height;
      nanos = nanos;
      last_header_hash = info.header_hash;
      data_hash = data_hash s batch.txs;
      app_hash = e.last_state.app_hash;
      proposer_address = s.genesis.proposer_address;
    };
    signature = info.signature;
    signer_address = s.genesis.proposer_address;
  },
  record {
    metadata = some (record { chain_id = s.genesis.chain_id; height = height; nanos = nanos });
    txs = batch.txs;
  },
)

with_info :
    Setup → Env → Executor → ℕ → BatchData → ℕ → Option LastBlockInfo → Option (SignedHeader × Data)
unfolding new_block
with_info s env e height batch nanos none = none
with_info s env e height batch nanos (some info) =
    if env.signer_ready then some (new_block s e height batch nanos info) else none

-- CreateBlock: the first block has the genesis time and no hash of a last one. `none` is an error,
-- of the store, of the signer's public key or of the validator hash.
unfoldable pub create_block : Setup → Env → Executor → ℕ → BatchData → Option (SignedHeader × Data)
unfolding with_info last_block_info
create_block s env e height batch =
    if ltb s.genesis.initial_height height
    then with_info s env e height batch batch.nanos (last_block_info s env e height e.last_info)
    else with_info s env e height batch s.genesis.start_nanos
        (some (record { header_hash = []; signature = [] }))

applied : Setup → Executor → Header → Retried Bytes → Option State
unfolding next_state
applied s e h (returned app_hash) = some (next_state s.hash e.last_state h app_hash)
applied s e h exhausted = none
applied s e h stopped_waiting = none
applied s e h fell_through = some (next_state s.hash e.last_state h [])

-- ApplyBlock, with executeTxsWithRetry.
unfoldable pub apply_block : Setup → Env → Executor → Header → Data → Option State
unfolding applied with_retry
apply_block s env e h d =
    applied s e h
      (with_retry (env.execute d.txs h.height h.nanos e.last_state.app_hash) env.stopped)

-- signHeader: empty without a signer; `none` is an error.
unfoldable pub sign_header : Setup → Env → Header → Option Bytes
sign_header s env h = if s.has_signer then env.sign h else some []

with_info-height :
    (s : Setup) (env : Env) (e : Executor) (height : ℕ) (batch : BatchData) (nanos : ℕ)
    (info : Option LastBlockInfo) (h : SignedHeader) (d : Data)
    → with_info s env e height batch nanos info ≡ some (h, d)
    → h.height ≡ height
unfolding with_info
with_info-height s env e height batch nanos none h d r = cc
with_info-height s env e height batch nanos (some info) h d r = elim (Bool-cases env.signer_ready) [
  | inl y ↦ ap (λ (p : SignedHeader × Data). p.0.height) (sym (some-inj (rw y at r)))
  | inr n ↦ cc (rw n at r)
]

pub create_block-height :
    (s : Setup) (env : Env) (e : Executor) (height : ℕ) (batch : BatchData) (h : SignedHeader)
    (d : Data)
    → create_block s env e height batch ≡ some (h, d)
    → h.height ≡ height
unfolding create_block
create_block-height s env e height batch h d r =
    elim (Bool-cases (ltb s.genesis.initial_height height)) [
      | inl y ↦
          with_info-height s env e height batch batch.nanos
            (last_block_info s env e height e.last_info) h d (rw y at r)
      | inr n ↦
          with_info-height s env e height batch s.genesis.start_nanos
            (some (record { header_hash = []; signature = [] })) h d (rw n at r)
    ]

applied-next :
    (s : Setup) (e : Executor) (h : Header) (r : Retried Bytes) (st : State)
    → applied s e h r ≡ some st
    → (app_hash : Bytes) × (st ≡ next_state s.hash e.last_state h app_hash)
unfolding applied
applied-next s e h (returned v) st x = (v, sym (some-inj x))
applied-next s e h exhausted st x = cc
applied-next s e h stopped_waiting st x = cc
applied-next s e h fell_through st x = ([], sym (some-inj x))

pub apply_block-next :
    (s : Setup) (env : Env) (e : Executor) (h : Header) (d : Data) (st : State)
    → apply_block s env e h d ≡ some st
    → (app_hash : Bytes) × (st ≡ next_state s.hash e.last_state h app_hash)
unfolding apply_block
apply_block-next s env e h d st x = applied-next s e h _ st x

with_info-new :
    (s : Setup) (env : Env) (e : Executor) (height : ℕ) (batch : BatchData) (nanos : ℕ)
    (info : LastBlockInfo) (b : SignedHeader × Data)
    → with_info s env e height batch nanos (some info) ≡ some b
    → b ≡ new_block s e height batch nanos info
unfolding with_info
with_info-new s env e height batch nanos info b r = elim (Bool-cases env.signer_ready) [
  | inl y ↦ sym (some-inj (rw y at r))
  | inr n ↦ cc (rw n at r)
]

-- After the first block, with the cached information on the last one.
pub create_block-new :
    (s : Setup) (env : Env) (e : Executor) (height : ℕ) (batch : BatchData) (info : LastBlockInfo)
    (b : SignedHeader × Data)
    → ltb s.genesis.initial_height height ≡ true
    → e.last_info ≡ some info
    → create_block s env e height batch ≡ some b
    → b ≡ new_block s e height batch batch.nanos info
unfolding create_block last_block_info
create_block-new s env e height batch info b after cached r =
    with_info-new s env e height batch batch.nanos info b (
      subst
        (λ o.
          with_info s env e height batch batch.nanos (last_block_info s env e height o) ≡ some b)
        cached (rw after at r))
