-- ===== src/Replay/Blocks.antt =====
-- The replay of one block.
use chain_sdk.Base.{
  ℕ, suc, ◌^◌, ◌<◌, ◌≤◌, ◌≡◌, ◌==◌, refl, sym, ap, ◌∙◌, subst, inl, inr, true, false, Bool-cases,
  Option, none, some, arith, Bytes, sub_u64,
}
use chain_sdk.Types.Header.{SignedHeader}
use chain_sdk.Types.Chain.{State, Data, next_state}
use chain_sdk.Store.{
  Db, no_faults, IsCodec, Read, absent, broken, found, write_state, state_field, apply_write,
  get_block_data, get_state_at_height, new_batch, update_state, commit,
}
use chain_sdk.Store.Saved.{new_batch-Leaves, commit-Leaves, stage_state-Leaves}
use chain_sdk.Replay.{
  Call, executed, Env, replayed, prev_state, diverges, on_commit, on_root, execute_on, on_block,
  replay_block,
}

found-inj {ℓ} : {A : Type ℓ} {x y : A} → found x ≡ found y → x ≡ y
found-inj h = cc

later_height : (h i : ℕ) → i ≤ h → (suc h == i) ≡ false
later_height h i le = ground arith

before : (h : ℕ) → suc h < 2 ^ 64 → sub_u64 (suc h) 1 ≡ h
before h lt = omega arith

same_key : (h : ℕ) → (h == h) ≡ true
same_key h = ground arith

-- A call executes the block that the store has at the height on a state, and makes the next one.
abbrev pub Executes : Env → Db → ℕ → State → Call → State → Type 0
Executes env db height prev call next =
    (header : SignedHeader) × (block_data : Data) × (root : Bytes) × (get_block_data env.codec
        env.faults db height
      ≡ found (header, block_data))
    × (call ≡ executed block_data.txs height header.nanos prev.app_hash)
    × (env.execute block_data.txs height header.nanos prev.app_hash ≡ some root)
    × (next ≡ next_state env.hash prev header.header root)

-- The blocks of a store are saved at their own heights.
abbrev pub AtOwnHeight : Env → Db → Type 0
AtOwnHeight env db =
    (k : ℕ) (header : SignedHeader) (block_data : Data)
    → get_block_data env.codec env.faults db k ≡ found (header, block_data)
    → header.height ≡ k

abbrev pub SameBlocks : Env → Db → Db → Type 0
SameBlocks env db db' =
    (k : ℕ) → get_block_data env.codec env.faults db' k ≡ get_block_data env.codec env.faults db k

module _ (env : Env) where
  on_commit-replayed :
      (call call' : Call) (o : Option Db) (db : Db)
      → on_commit env call o ≡ replayed call' db
      → (o ≡ some db) × (call' ≡ call)
  unfolding on_commit
  on_commit-replayed call call' none db e = cc
  on_commit-replayed call call' (some d) db e = (cc, cc)

  -- The stored state is the new one.
  Stored : Db → State → Db → Type 0
  Stored db s db' =
      commit env.faults db (update_state env.codec env.faults s (new_batch env.faults)) ≡ some db'

  on_root-replayed :
      (db : Db) (height : ℕ) (header : SignedHeader) (prev : State) (call call' : Call)
      (o : Option Bytes) (db' : Db)
      → on_root env db height header prev call o ≡ replayed call' db'
      → (root : Bytes) × (o ≡ some root)
        × (call' ≡ call)
        × Stored db (next_state env.hash prev header.header root) db'
  unfolding on_root Stored
  on_root-replayed db height header prev call call' none db' e = cc
  on_root-replayed db height header prev call call' (some root) db' e =
      elim (Bool-cases (diverges env (get_state_at_height env.codec env.faults db height) root)) [
        | inl y ↦ cc (rw y at e)
        | inr n ↦
            let (done, same) = on_commit-replayed call call' _ db' (rw n at e) in
            (root, refl, same, done)
      ]

  -- What a replayed block was, where the store answers `r` for its height.
  Replays : ℕ → Db → Call → Db → Read (SignedHeader × Data) → Type 0
  Replays height db call db' r =
      (header : SignedHeader) × (block_data : Data) × (prev : State) × (root : Bytes) × (r
        ≡ found (header, block_data))
      × (prev_state env db height header ≡ found prev)
      × (call ≡ executed block_data.txs height header.nanos prev.app_hash)
      × (env.execute block_data.txs height header.nanos prev.app_hash ≡ some root)
      × Stored db (next_state env.hash prev header.header root) db'

  execute_on-replayed :
      (height : ℕ) (db : Db) (header : SignedHeader) (block_data : Data) (p : Read State)
      (call : Call) (db' : Db)
      → prev_state env db height header ≡ p
      → execute_on env db height header block_data p ≡ replayed call db'
      → Replays height db call db' (found (header, block_data))
  unfolding execute_on Replays
  execute_on-replayed height db header block_data absent call db' same e = cc
  execute_on-replayed height db header block_data broken call db' same e = cc
  execute_on-replayed height db header block_data (found prev) call db' same e =
      let (root, ran, c, stored) = on_root-replayed db height header prev _ call _ db' e in
      (header, block_data, prev, root, refl, same, c, ran, stored)

  on_block-replayed :
      (height : ℕ) (db : Db) (r : Read (SignedHeader × Data)) (call : Call) (db' : Db)
      → on_block env db height r ≡ replayed call db'
      → Replays height db call db' r
  unfolding on_block
  on_block-replayed height db absent call db' e = cc
  on_block-replayed height db broken call db' e = cc
  on_block-replayed height db (found (header, block_data)) call db' e =
      execute_on-replayed height db header block_data (prev_state env db height header) call db'
        refl e

  abbrev pub state_of : Db → ℕ → Read State
  state_of db height = get_state_at_height env.codec no_faults db height

  -- What is read is there.
  state_of-read :
      (db : Db) (height : ℕ) (s : State)
      → get_state_at_height env.codec env.faults db height ≡ found s
      → state_of db height ≡ found s
  unfolding get_state_at_height
  state_of-read db height s e = elim (Bool-cases (env.faults.on_get (state_field height))) [
    | inl y ↦ cc (rw y at e)
    | inr n ↦ rw n at e
  ]

  written-reads :
      (db : Db) (s : State) (v : Bytes)
      → env.codec.decode_state v ≡ some s
      → SameBlocks env db (apply_write (write_state s.last_block_height (some v)) db)
        × (state_of (apply_write (write_state s.last_block_height (some v)) db) s.last_block_height
            ≡ found s)
  unfolding apply_write get_block_data get_state_at_height
  written-reads db s v dec = (λ (k : ℕ). refl, rw (same_key s.last_block_height, dec) refl)

  -- A stored state is read back, and the blocks are the same.
  stored-reads :
      (db : Db) (s : State) (db' : Db)
      → IsCodec env.codec
      → Stored db s db'
      → SameBlocks env db db' × (state_of db' s.last_block_height ≡ found s)
  unfolding Stored update_state
  stored-reads db s db' codec stored =
      let (v, db0, l, enc, e) =
        stage_state-Leaves env.faults s.last_block_height (env.codec.encode_state s)
          (new_batch env.faults) db db' (commit-Leaves env.faults db db' _ stored) in
      let e0 : db0 ≡ db = new_batch-Leaves env.faults db db0 l in
      let e1 : db' ≡ apply_write (write_state s.last_block_height (some v)) db =
        e ∙ ap (apply_write (write_state s.last_block_height (some v))) e0 in
      subst (λ (d : Db). SameBlocks env db d × (state_of d s.last_block_height ≡ found s)) (sym e1)
        (written-reads db s v (codec.decode-state s v enc))

  prev_state-after :
      (db : Db) (height : ℕ) (header : SignedHeader) (p s : State)
      → env.initial_height ≤ height
      → suc height < 2 ^ 64
      → prev_state env db (suc height) header ≡ found p
      → state_of db height ≡ found s
      → p ≡ s
  unfolding prev_state
  prev_state-after db height header p s later bound e at =
      let read : get_state_at_height env.codec env.faults db (sub_u64 (suc height) 1) ≡ found p =
        rw (later_height height env.initial_height later) at e in
      let here : get_state_at_height env.codec env.faults db height ≡ found p =
        subst (λ (h : ℕ). get_state_at_height env.codec env.faults db h ≡ found p)
          (before height bound) read in
      found-inj (sym (state_of-read db height p here) ∙ at)

  -- One block of a client that has executed the height below it.
  pub replay_block-Executes :
      (db0 db : Db) (height : ℕ) (prev : State) (call : Call) (db' : Db)
      → IsCodec env.codec
      → AtOwnHeight env db0
      → SameBlocks env db0 db
      → state_of db height ≡ found prev
      → env.initial_height ≤ height
      → suc height < 2 ^ 64
      → replay_block env (suc height) db ≡ replayed call db'
      → (next : State) × Executes env db0 (suc height) prev call next
        × SameBlocks env db0 db'
        × (state_of db' (suc height) ≡ found next)
  unfolding replay_block Replays next_state
  replay_block-Executes db0 db height prev call db' codec own same at later bound e =
      let (header, block_data, p, root, read, was, c, ran, stored) =
        on_block-replayed (suc height) db (get_block_data env.codec env.faults db (suc height)) call
          db' e in
      let read0 : get_block_data env.codec env.faults db0 (suc height)
          ≡ found (header, block_data) =
        sym (same (suc height)) ∙ read in
      let is_prev : p ≡ prev = prev_state-after db height header p prev later bound was at in
      let (same', at') =
        stored-reads db (next_state env.hash p header.header root) db' codec stored in
      (
        next_state env.hash p header.header root,
        (
          header,
          block_data,
          root,
          read0,
          subst (λ (x : State). call ≡ executed block_data.txs (suc height) header.nanos x.app_hash)
              is_prev c,
          subst
              (λ (x : State).
                env.execute block_data.txs (suc height) header.nanos x.app_hash ≡ some root)
              is_prev ran,
          ap (λ (x : State). next_state env.hash x header.header root) is_prev,
        ),
        (λ (k : ℕ). same' k ∙ same k),
        subst (λ (k : ℕ). state_of db' k ≡ found (next_state env.hash p header.header root))
            (own (suc height) header block_data read0) at',
      )
