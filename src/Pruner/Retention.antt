-- ===== src/Pruner/Retention.antt =====
-- What the pruner keeps, and that it leaves no height of its range out.
use chain_sdk.Base.{
  little_endian, ℕ, zero, suc, ◌+◌, ◌-◌, ◌≡◌, refl, Bool, true, false, Bool-cases, Option, none,
  some, List, [], ◌∷◌, ◌++◌, leb, add_u64, min, ◌≤◌, ◌<◌, arith, ◌⊎◌, inl, inr, sym, ap, ◌∙◌, Bytes,
}
use chain_sdk.Pruner.{
  Config, Environment, Metadata, not_found, failed, found, Answer, succeeds, misses, fails, Call,
  prune_blocks_to, delete_state_at, prune_exec_to, set_last_state, Outcome, stop, last_pruned,
  calculate_batch_size, after_answer, prune_exec, upper_bound, prune_to, prune_after, prune_below,
  prune_blocks, delete_states, record_state, later_of, prune_states, prune_states_from,
  prune_metadata,
}

abbrev pub height_of : Call → ℕ
height_of (prune_blocks_to h) = h
height_of (delete_state_at h) = h
height_of (prune_exec_to h) = h
height_of (set_last_state h) = h

-- Every call is for a height that is at least `keep` below `bound`.
abbrev pub Keeps : ℕ → ℕ → List Call → Type 0
Keeps keep bound [] = Unit {0}
Keeps keep bound (c ∷ cs) = (height_of c + keep ≤ bound) × Keeps keep bound cs

abbrev pub batch_end : Config → ℕ → ℕ → ℕ
batch_end cfg last target = min (add_u64 last (calculate_batch_size cfg)) target

batch_end-le : (cfg : Config) (last target : ℕ) → batch_end cfg last target ≤ target
batch_end-le cfg last target = omega arith

upper_bound-le :
    (da : Bool) (h bound : ℕ) (m : Metadata) → upper_bound da h m ≡ some bound → bound ≤ h
unfolding upper_bound
upper_bound-le false h bound m e = ground arith
upper_bound-le true h bound not_found e = ground arith
upper_bound-le true h bound failed e = ground arith
upper_bound-le true h bound (found bz) e = ground arith

upper_bound-da :
    (h bound : ℕ) (bz : Bytes)
    → upper_bound true h (found bz) ≡ some bound
    → bound ≤ little_endian bz
unfolding upper_bound
upper_bound-da h bound bz e = ground arith

module _ (keep : ℕ) (bound : ℕ) where
  Keeps-after_answer :
      (a : Answer) (rest : Outcome)
      → Keeps keep bound rest.calls
      → Keeps keep bound (after_answer a rest).calls
  unfolding after_answer
  Keeps-after_answer succeeds rest k = k
  Keeps-after_answer misses rest k = k
  Keeps-after_answer fails rest k = tt

  Keeps-prune_exec :
      (exec : Option (ℕ → Answer)) (h : ℕ) (rest : Outcome)
      → h + keep ≤ bound
      → Keeps keep bound rest.calls
      → Keeps keep bound (prune_exec exec h rest).calls
  unfolding prune_exec
  Keeps-prune_exec none h rest le k = k
  Keeps-prune_exec (some answer) h rest le k = (le, Keeps-after_answer (answer h) rest k)

  Keeps-delete_states :
      (answer : ℕ → Answer) (h n : ℕ) (rest : Outcome)
      → (h + n + keep ≤ bound + 1)
      → Keeps keep bound rest.calls
      → Keeps keep bound (delete_states answer h n rest).calls
  unfolding delete_states
  Keeps-delete_states answer h zero rest le k = k
  Keeps-delete_states answer h (suc n) rest le k = (
    omega arith,
    Keeps-after_answer (answer h) (delete_states answer (h + 1) n rest)
        (Keeps-delete_states answer (h + 1) n rest (omega arith) k),
  )

  Keeps-record_state :
      (env : Environment) (e : ℕ) → e + keep ≤ bound → Keeps keep bound (record_state env e).calls
  unfolding record_state
  Keeps-record_state env e le = (le, tt)

  Keeps-prune_to :
      (env : Environment) (e : ℕ) → e + keep ≤ bound → Keeps keep bound (prune_to env e).calls
  unfolding prune_to
  Keeps-prune_to env e le = elim (Bool-cases (env.on_prune_blocks e)) [
    | inl y ↦ rw y (le, Keeps-prune_exec env.on_prune_exec e (stop true) le tt)
    | inr n ↦ rw n (le, tt)
  ]

  Keeps-prune_after :
      (cfg : Config) (env : Environment) (target : ℕ) (last : Option ℕ)
      → target + keep ≤ bound
      → Keeps keep bound (prune_after cfg env target last).calls
  unfolding prune_after
  Keeps-prune_after cfg env target none le = tt
  Keeps-prune_after cfg env target (some last) le =
      Keeps-prune_to env (batch_end cfg last target) (omega (arith, batch_end-le cfg last target))

  Keeps-prune_states :
      (cfg : Config) (env : Environment) (last target : ℕ)
      → target + keep ≤ bound
      → Keeps keep bound (prune_states cfg env last target).calls
  unfolding prune_states
  Keeps-prune_states cfg env last target le = elim (Bool-cases (leb target last)) [
    | inl y ↦ rw y tt
    | inr n ↦ rw n (
        Keeps-delete_states env.on_delete_state (last + 1) (batch_end cfg last target - last)
          (prune_exec env.on_prune_exec (batch_end cfg last target)
            (record_state env (batch_end cfg last target)))
          (ground (arith, batch_end-le cfg last target))
          (Keeps-prune_exec env.on_prune_exec (batch_end cfg last target)
            (record_state env (batch_end cfg last target))
            (omega (arith, batch_end-le cfg last target))
            (Keeps-record_state env (batch_end cfg last target)
              (omega (arith, batch_end-le cfg last target)))))
  ]

  Keeps-prune_states_from :
      (cfg : Config) (env : Environment) (state : Option ℕ)
      → cfg.keep_recent ≡ keep
      → keep ≤ bound
      → Keeps keep bound (prune_states_from cfg env bound state).calls
  unfolding prune_states_from
  Keeps-prune_states_from cfg env none same le = tt
  Keeps-prune_states_from cfg env (some state) same le =
      Keeps-prune_states cfg env (later_of state (last_pruned env.last_block))
        (bound - cfg.keep_recent) (omega arith)

-- A tick that prunes metadata calls the store and the executor only for heights at least KeepRecent
-- below the store's height.
prune_metadata-Keeps :
    (cfg : Config) (env : Environment) (h : ℕ)
    → env.height ≡ some h
    → Keeps cfg.keep_recent h (prune_metadata cfg env).calls
unfolding prune_metadata
prune_metadata-Keeps cfg env h known = rw known (elim (Bool-cases (leb h cfg.keep_recent)) [
  | inl y ↦ rw y tt
  | inr n ↦ rw n (
      Keeps-prune_states_from cfg.keep_recent h cfg env (last_pruned env.last_state) refl
        (ground arith))
])

prune_below-Keeps :
    (cfg : Config) (env : Environment) (o : Option ℕ) (h : ℕ)
    → ((b : ℕ) → o ≡ some b → b ≤ h)
    → Keeps cfg.keep_recent h (prune_below cfg env o).calls
unfolding prune_below
prune_below-Keeps cfg env none h within = tt
prune_below-Keeps cfg env (some b) h within = elim (Bool-cases (leb b cfg.keep_recent)) [
  | inl y ↦ rw y tt
  | inr n ↦ rw n (
      Keeps-prune_after cfg.keep_recent h cfg env (b - cfg.keep_recent) (last_pruned env.last_block)
        (ground (arith, within b refl)))
]

-- A tick that prunes blocks calls the store and the executor only for heights at least KeepRecent
-- below the store's height.
prune_blocks-Keeps :
    (cfg : Config) (env : Environment) (h : ℕ)
    → env.height ≡ some h
    → Keeps cfg.keep_recent h (prune_blocks cfg env).calls
unfolding prune_blocks
prune_blocks-Keeps cfg env h known = rw known (
    prune_below-Keeps cfg env (upper_bound cfg.da_enabled h env.da_included) h
      (λ b e. upper_bound-le cfg.da_enabled h b env.da_included e))

-- Where DA is enabled and the DA included height is stored, a tick that prunes blocks calls the
-- store and the executor only for heights at least KeepRecent below the DA included height.
pub prune_blocks-Keeps_da :
    (cfg : Config) (env : Environment) (h : ℕ) (bz : Bytes)
    → env.height ≡ some h
    → cfg.da_enabled ≡ true
    → env.da_included ≡ found bz
    → Keeps cfg.keep_recent (little_endian bz) (prune_blocks cfg env).calls
unfolding prune_blocks
prune_blocks-Keeps_da cfg env h bz known on da =
    rw (known, on, da)
      (prune_below-Keeps cfg env (upper_bound true h (found bz)) (little_endian bz)
        (λ b e. upper_bound-da h b bz e))

-- The deletions at n heights from h on.
abbrev deletions : ℕ → ℕ → List Call
deletions h zero = []
deletions h (suc n) = delete_state_at h ∷ deletions (h + 1) n

after_answer-succeeded :
    (a : Answer) (rest : Outcome)
    → (after_answer a rest).succeeded ≡ true
    → after_answer a rest ≡ rest
unfolding after_answer
after_answer-succeeded succeeds rest h = refl
after_answer-succeeded misses rest h = refl
after_answer-succeeded fails rest h = cc

delete_states-succeeded :
    (answer : ℕ → Answer) (h n : ℕ) (rest : Outcome)
    → (delete_states answer h n rest).succeeded ≡ true
    → ((delete_states answer h n rest).calls ≡ deletions h n ++ rest.calls)
      × (rest.succeeded ≡ true)
unfolding delete_states
delete_states-succeeded answer h zero rest ok = (refl, ok)
delete_states-succeeded answer h (suc n) rest ok =
    let same = after_answer-succeeded (answer h) (delete_states answer (h + 1) n rest) ok in
    let (calls, rest_ok) =
      delete_states-succeeded answer (h + 1) n rest (sym (ap (λ o. o.succeeded) same) ∙ ok) in
    (ap (λ cs. delete_state_at h ∷ cs) (ap (λ o. o.calls) same ∙ calls), rest_ok)

-- The calls of the executor and of the store after the deletions.
abbrev closing : Environment → ℕ → List Call
closing env e = elim env.on_prune_exec [
  | none ↦ set_last_state e ∷ []
  | some _ ↦ prune_exec_to e ∷ set_last_state e ∷ []
]

prune_exec-succeeded :
    (env : Environment) (exec : Option (ℕ → Answer)) (e : ℕ)
    → env.on_prune_exec ≡ exec
    → (prune_exec exec e (record_state env e)).succeeded ≡ true
    → (prune_exec exec e (record_state env e)).calls ≡ closing env e
unfolding prune_exec record_state
prune_exec-succeeded env none e same ok = rw same refl
prune_exec-succeeded env (some answer) e same ok = rw same (
    ap (λ (o : Outcome). prune_exec_to e ∷ o.calls)
      (after_answer-succeeded (answer e) (record_state env e) ok))

-- A tick that prunes metadata after a height, below a target, and ends without an error either
-- calls nothing, with nothing left to prune, or deletes the state at every height from the one
-- after up to the end of its batch in order, has the executor prune to that end where it can prune,
-- and records it.
prune_states_complete :
    (cfg : Config) (env : Environment) (last target : ℕ)
    → (prune_states cfg env last target).succeeded ≡ true
    → ((target ≤ last) × ((prune_states cfg env last target).calls ≡ []))
      ⊎ ((last < target)
          × ((prune_states cfg env last target).calls
              ≡ deletions (last + 1) (batch_end cfg last target - last)
                ++ closing env (batch_end cfg last target)))
unfolding prune_states
prune_states_complete cfg env last target ok = elim (Bool-cases (leb target last)) [
  | inl y ↦ inl (ground arith, rw y refl)
  | inr n ↦
      (let e = batch_end cfg last target in
        let last_calls = prune_exec env.on_prune_exec e (record_state env e) in
        let (calls, rest_ok) =
          delete_states-succeeded env.on_delete_state (last + 1) (e - last) last_calls
            (rw n at ok) in
        inr (
          ground arith,
          rw n (
              calls
              ∙ ap (λ cs. deletions (last + 1) (e - last) ++ cs)
                  (prune_exec-succeeded env env.on_prune_exec e refl rest_ok)),
        ))
]
