-- ===== src/Replay/Behind.antt =====
-- A client that is behind gets the missing blocks.
use chain_sdk.Base.{
  ℕ, zero, suc, ◌+◌, ◌-◌, ◌^◌, ◌<◌, ◌≤◌, ◌≡◌, refl, sym, ap, ◌∙◌, subst, true, false, none, List,
  [], ◌∷◌, ltb, leb, arith, add_u64,
}
use chain_sdk.Types.Header.{SignedHeader}
use chain_sdk.Types.Chain.{State, Data, next_state}
use chain_sdk.Store.{
  Db, no_faults, IsCodec, Read, absent, broken, found, get_block_data, get_state_at_height,
}
use chain_sdk.Replay.{
  Call, Env, latest_is, Replay, not_executed, failed_after, replayed, Result, replay_block,
  add_call, on_replay, replay_from, from_target, at_latest, sync_to_height,
}
use chain_sdk.Replay.Blocks.{Executes, AtOwnHeight, SameBlocks, state_of, replay_block-Executes}

pub after : (h : ℕ) → suc h < 2 ^ 64 → add_u64 h 1 ≡ suc h
after h lt = omega arith

past : (h target : ℕ) → h + 0 ≡ target → leb (suc h) target ≡ false
past h target e = ground arith

last_height : (h target : ℕ) → h + 0 ≡ target → h ≡ target
last_height h target e = omega arith

more : (h n target : ℕ) → h + suc n ≡ target → leb (suc h) target ≡ true
more h n target e = ground arith

room : (h n target : ℕ) → h + suc n ≡ target → suc target < 2 ^ 64 → suc (suc h) < 2 ^ 64
room h n target e lt = omega arith

not_ahead : (h target : ℕ) → h ≤ target → ltb target h ≡ false
not_ahead h target le = ground arith

is_behind : (h target : ℕ) → h < target → ltb h target ≡ true
is_behind h target lt = ground arith

-- The calls execute the blocks of n heights, one after the other.
abbrev pub Runs : Env → Db → ℕ → ℕ → State → List Call → State → Type 0
Runs env db height zero prev [] last = last ≡ prev
Runs env db height zero prev (call ∷ calls) last = ⊥
Runs env db height (suc n) prev [] last = ⊥
Runs env db height (suc n) prev (call ∷ calls) last =
    (next : State) × Executes env db height prev call next
    × Runs env db (suc height) n next calls last

module _ (env : Env) where
  on_replay-none :
      (db : Db) (rest : Db → Result) (r : Replay)
      → (on_replay env db rest r).error ≡ none
      → (call : Call) × (db' : Db) × (r ≡ replayed call db') × ((rest db').error ≡ none)
  unfolding on_replay add_call
  on_replay-none db rest not_executed e = cc
  on_replay-none db rest (failed_after call) e = cc
  on_replay-none db rest (replayed call db') e = (call, db', refl, e)

  -- What a range of heights leaves: the calls, and the state of the last height.
  Reaches : Db → ℕ → ℕ → ℕ → State → Result → Type 0
  Reaches db0 height n target prev r =
      (last : State) × Runs env db0 height n prev r.calls last
      × (state_of env r.db target ≡ found last)

  replay_from-Reaches :
      (fuel n height target : ℕ) (db0 db : Db) (prev : State)
      → IsCodec env.codec
      → AtOwnHeight env db0
      → SameBlocks env db0 db
      → state_of env db height ≡ found prev
      → env.initial_height ≤ height
      → height + n ≡ target
      → suc target < 2 ^ 64
      → (replay_from env fuel target (suc height) db).error ≡ none
      → Reaches db0 (suc height) n target prev (replay_from env fuel target (suc height) db)
  unfolding replay_from Reaches on_replay add_call
  replay_from-Reaches zero n height target db0 db prev codec own same at later sum bound e = cc
  replay_from-Reaches (suc fuel) zero height target db0 db prev codec own same at later sum bound
        e =
      let over : leb (suc height) target ≡ false = past height target sum in
      rw over (
        prev,
        refl,
        subst (λ (k : ℕ). state_of env db k ≡ found prev) (last_height height target sum) at,
      )
  replay_from-Reaches (suc fuel) (suc n) height target db0 db prev codec own same at later sum bound
        e =
      let under : leb (suc height) target ≡ true = more height n target sum in
      let up : add_u64 (suc height) 1 ≡ suc (suc height) =
        after (suc height) (room height n target sum bound) in
      let (call, db', r, done) =
        on_replay-none db (replay_from env fuel target (add_u64 (suc height) 1))
          (replay_block env (suc height) db) (rw under at e) in
      let (next, ex, same', at') =
        replay_block-Executes env db0 db height prev call db' codec own same at later (omega arith)
          r in
      let (last, runs, end) =
        replay_from-Reaches fuel n (suc height) target db0 db' next codec own same' at'
          (omega arith) (omega arith) bound (rw up at done) in
      rw (under, r, up) (last, (next, ex, runs), end)

  Runs-da_height :
      (db : Db) (height n : ℕ) (prev last : State) (calls : List Call)
      → Runs env db height n prev calls last
      → last.da_height ≡ prev.da_height
  unfolding next_state
  Runs-da_height db height zero prev last [] runs = ap (λ (s : State). s.da_height) runs
  Runs-da_height db height zero prev last (call ∷ calls) runs = absurd runs
  Runs-da_height db height (suc n) prev last [] runs = absurd runs
  Runs-da_height db height (suc n) prev last (call ∷ calls)
        (next, (header, block_data, root, read, c, ran, e), runs) =
      Runs-da_height db (suc height) n next last calls runs ∙ ap (λ (s : State). s.da_height) e

  abbrev Synced : Db → ℕ → ℕ → State → Result → Type 0
  Synced db height target prev r =
      (last : State) × Runs env db (suc height) (target - height) prev r.calls last
      × (get_state_at_height env.codec no_faults r.db target ≡ found last)
      × (last.da_height ≡ prev.da_height)

  from_target-Synced :
      (fuel height target : ℕ) (db : Db) (prev : State) (r : Read (SignedHeader × Data))
      → IsCodec env.codec
      → AtOwnHeight env db
      → get_state_at_height env.codec no_faults db height ≡ found prev
      → env.initial_height ≤ height
      → height < target
      → suc target < 2 ^ 64
      → (from_target env fuel height target db r).error ≡ none
      → Synced db height target prev (from_target env fuel height target db r)
  unfolding from_target Reaches state_of
  from_target-Synced fuel height target db prev absent codec own at later lt bound e = cc
  from_target-Synced fuel height target db prev broken codec own at later lt bound e = cc
  from_target-Synced fuel height target db prev (found block) codec own at later lt bound e =
      let up : add_u64 height 1 ≡ suc height = after height (omega arith) in
      let (last, runs, end) =
        replay_from-Reaches fuel (target - height) height target db db prev codec own
          (λ (k : ℕ). refl) at later (omega arith) bound (rw up at e) in
      rw up (last, runs, end, Runs-da_height db (suc height) (target - height) prev last _ runs)

  at_latest-behind :
      (fuel height target : ℕ) (db : Db)
      → height < target
      → at_latest env fuel target db (latest_is height)
        ≡ from_target env fuel height target db (get_block_data env.codec env.faults db target)
  unfolding at_latest
  at_latest-behind fuel height target db lt =
      let ahead : ltb target height ≡ false = not_ahead height target (omega arith) in
      let behind : ltb height target ≡ true = is_behind height target lt in rw (ahead, behind) refl

  pub sync_to_height-behind :
      (fuel height target : ℕ) (db : Db)
      → env.latest ≡ latest_is height
      → env.initial_height ≤ height
      → height < target
      → sync_to_height env fuel target db
        ≡ from_target env fuel height target db (get_block_data env.codec env.faults db target)
  unfolding sync_to_height
  sync_to_height-behind fuel height target db latest later lt =
      let past_genesis : ltb target env.initial_height ≡ false =
        not_ahead env.initial_height target (omega arith) in
      rw (past_genesis, latest) (at_latest-behind fuel height target db lt)

  -- A sync of a client that is behind the target and has executed the first block, where it reports
  -- no error, has called the client exactly to execute the stored blocks of the heights above the
  -- client's, up to the target, once each and in order, the first one on the app hash of the stored
  -- state of the client's height and each other on the result of the one before. The store then has
  -- at the target the state that follows from them, and its DA height is that of the state of the
  -- client's height. It assumes that the encodings are read back, that blocks are stored at their
  -- own heights, and a target below 2^64 - 1.
  pub sync_to_height-Executes :
      (fuel height target : ℕ) (db : Db) (prev : State)
      → IsCodec env.codec
      → AtOwnHeight env db
      → env.latest ≡ latest_is height
      → get_state_at_height env.codec no_faults db height ≡ found prev
      → env.initial_height ≤ height
      → height < target
      → suc target < 2 ^ 64
      → (sync_to_height env fuel target db).error ≡ none
      → Synced db height target prev (sync_to_height env fuel target db)
  sync_to_height-Executes fuel height target db prev codec own latest at later lt bound e =
      let same = sync_to_height-behind fuel height target db latest later lt in
      subst (Synced db height target prev) (sym same) (
        from_target-Synced fuel height target db prev
          (get_block_data env.codec env.faults db target) codec own at later lt bound
          (ap (λ (r : Result). r.error) (sym same) ∙ e))
