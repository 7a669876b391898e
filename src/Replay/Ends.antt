-- ===== src/Replay/Ends.antt =====
-- A sync ends.
use chain_sdk.Base.{
  ℕ, zero, suc, ◌+◌, ◌^◌, ◌<◌, ◌≤◌, ◌≡◌, ◌≢◌, sym, ap, ◌∙◌, subst, inl, inr, Bool-cases, some, leb,
  arith, add_u64,
}
use chain_sdk.Types.Header.{SignedHeader}
use chain_sdk.Types.Chain.{Data}
use chain_sdk.Store.{Db, Read, absent, broken, found, get_block_data}
use chain_sdk.Replay.{
  Env, latest_is, Replay, not_executed, failed_after, replayed, Result, out_of_fuel, replay_block,
  add_call, on_replay, replay_from, from_target, sync_to_height,
}
use chain_sdk.Replay.Behind.{after, sync_to_height-behind}

module _ (env : Env) where
  on_replay-ends :
      (db : Db) (rest : Db → Result) (r : Replay)
      → ((db' : Db) → (rest db').error ≢ some out_of_fuel)
      → (on_replay env db rest r).error ≢ some out_of_fuel
  unfolding on_replay add_call
  on_replay-ends db rest not_executed ends e = cc
  on_replay-ends db rest (failed_after call) ends e = cc
  on_replay-ends db rest (replayed call db') ends e = ends db' e

  replay_from-ends :
      (fuel height target : ℕ) (db : Db)
      → suc target < height + fuel
      → suc target < 2 ^ 64
      → height ≤ suc target
      → (replay_from env fuel target height db).error ≢ some out_of_fuel
  unfolding replay_from
  replay_from-ends zero height target db enough bound le e = absurd (omega arith)
  replay_from-ends (suc fuel) height target db enough bound le e =
      elim (Bool-cases (leb height target)) [
        | inl y ↦
            let under : height ≤ target = ground arith in
            on_replay-ends db (replay_from env fuel target (add_u64 height 1))
              (replay_block env height db)
              (λ (db' : Db).
                subst (λ (k : ℕ). (replay_from env fuel target k db').error ≢ some out_of_fuel)
                  (sym (after height (omega arith)))
                  (replay_from-ends fuel (suc height) target db' (omega arith) bound (omega arith)))
              (rw y at e)
        | inr n ↦ cc (rw n at e)
      ]

  from_target-ends :
      (fuel height target : ℕ) (db : Db) (r : Read (SignedHeader × Data))
      → target < height + fuel
      → height < target
      → suc target < 2 ^ 64
      → (from_target env fuel height target db r).error ≢ some out_of_fuel
  unfolding from_target
  from_target-ends fuel height target db absent enough lt bound e = cc
  from_target-ends fuel height target db broken enough lt bound e = cc
  from_target-ends fuel height target db (found block) enough lt bound e =
      replay_from-ends fuel (suc height) target db (omega arith) bound (omega arith)
        (rw (after height (omega arith)) at e)

  -- A sync ends: with one round more than there are heights between the client's and the target,
  -- its loop does not run out of fuel, for a client that has executed the first block and is behind
  -- a target below 2^64 - 1.
  pub sync_to_height-ends :
      (fuel height target : ℕ) (db : Db)
      → env.latest ≡ latest_is height
      → env.initial_height ≤ height
      → height < target
      → target < height + fuel
      → suc target < 2 ^ 64
      → (sync_to_height env fuel target db).error ≢ some out_of_fuel
  sync_to_height-ends fuel height target db latest later lt enough bound e =
      from_target-ends fuel height target db (get_block_data env.codec env.faults db target) enough
        lt bound
        (ap (λ (r : Result). r.error)
            (sym (sync_to_height-behind env fuel height target db latest later lt))
          ∙ e)
