-- ===== src/Syncing/Sync/Steps.antt =====
-- What one attempt to sync the next block may change of the chain.
use chain_sdk.Base.{
  ℕ, ◌+◌, ◌<◌, ◌^◌, ◌≡◌, ◌≢◌, ◌⊎◌, inl, inr, refl, sym, ap, ◌∙◌, Option, none, some, [], if_both,
  Bytes, arith, ltb,
}
use chain_sdk.Types.Header.{HeaderError, validate_basic}
use chain_sdk.Types.Chain.{State, Tracking, BlockError, next_state, assert_valid_for_next_state}
use chain_sdk.Store.{Db, no_faults, IsCodec, found, get_height, get_state, commit}
use chain_sdk.Store.Saved.{stage_block, stage_block-reads, stage_block-Holds}
use chain_sdk.Executing.Retry.{Retried, returned, exhausted, stopped_waiting, fell_through}
use chain_sdk.Syncing.Forced.{Seen, Verdict, passes, fails, out_of_fuel, malicious}
use chain_sdk.Syncing.Sync.{
  Source, from_da, from_p2p, from_raft, Event, Syncer, Env, Outcome, synced, cancelled_before,
  invalid_block, invalid_state, malicious_proposer, failed, drop_included, mark_seen,
  raise_da_height, on_commit, store_block, on_executed, apply_block, on_forced, check_forced,
  on_next, on_basic, try_sync_next_block,
}

-- The chain is as it was.
abbrev pub Kept : Syncer → Syncer → Type 0
Kept σ τ = (τ.db ≡ σ.db) × (τ.last_state ≡ σ.last_state)

-- The event's block passed both validations against the last state and was committed whole, with
-- the state after it, which the memory then has.
abbrev pub Committed : Env → Event → Syncer → Syncer → Bytes → Type 0
Committed env ev σ τ app_hash =
    (validate_basic env.max_allowed (env.signing ev.header ev.block_data) ev.header ≡ none)
    × ((assert_valid_for_next_state env.commitment σ.tracking σ.last_state ev.header
          ev.block_data).1
        ≡ none)
    × (τ.last_state
        ≡ raise_da_height ev.da_height (next_state env.hash σ.last_state ev.header.header app_hash))
    × (commit env.faults σ.db (
          stage_block env.codec env.faults σ.db ev.header ev.block_data ev.header.signature
            ev.header.height τ.last_state)
        ≡ some τ.db)

-- A block is synced exactly where it was committed; else the chain is kept.
abbrev pub Steps : Env → Event → Syncer → Syncer × Outcome → Type 0
Steps env ev σ (τ, synced) = (app_hash : Bytes) × Committed env ev σ τ app_hash
Steps env ev σ (τ, cancelled_before) = Kept σ τ
Steps env ev σ (τ, invalid_block) = Kept σ τ
Steps env ev σ (τ, invalid_state) = Kept σ τ
Steps env ev σ (τ, malicious_proposer) = Kept σ τ
Steps env ev σ (τ, failed) = Kept σ τ

module _ (env : Env) (ev : Event) (σ : Syncer) where
  abbrev variant : Tracking → Seen → Syncer
  variant t s = record σ { tracking = t; seen = s }

  abbrev Valid : Type 0
  Valid =
      (validate_basic env.max_allowed (env.signing ev.header ev.block_data) ev.header ≡ none)
      × ((assert_valid_for_next_state env.commitment σ.tracking σ.last_state ev.header
            ev.block_data).1
          ≡ none)

  on_commit-Steps :
      (t : Tracking) (s : Seen) (app_hash : Bytes) (o : Option Db)
      → Valid
      → commit env.faults σ.db (
          stage_block env.codec env.faults σ.db ev.header ev.block_data ev.header.signature
            ev.header.height
            (raise_da_height ev.da_height
              (next_state env.hash σ.last_state ev.header.header app_hash)))
        ≡ o
      → Steps env ev σ (
          on_commit env ev
            (raise_da_height ev.da_height
              (next_state env.hash σ.last_state ev.header.header app_hash))
            (variant t s)
            o)
  unfolding on_commit mark_seen
  on_commit-Steps t s app_hash none v c = (refl, refl)
  on_commit-Steps t s app_hash (some db) (b, n) c = (app_hash, (b, n, refl, c))

  on_executed-Steps :
      (t : Tracking) (s : Seen) (r : Retried Bytes)
      → Valid
      → Steps env ev σ (on_executed env ev (variant t s) r)
  unfolding on_executed store_block
  on_executed-Steps t s (returned app_hash) v = on_commit-Steps t s app_hash _ v refl
  on_executed-Steps t s fell_through v = on_commit-Steps t s [] _ v refl
  on_executed-Steps t s exhausted v = (refl, refl)
  on_executed-Steps t s stopped_waiting v = (refl, refl)

  on_forced-Steps :
      (t : Tracking) (s : Seen) (x : Seen × Verdict)
      → Valid
      → Steps env ev σ (on_forced env ev (variant t s) x)
  unfolding on_forced apply_block drop_included
  on_forced-Steps t s (seen, passes) v = on_executed-Steps t seen _ v
  on_forced-Steps t s (seen, fails) v = on_executed-Steps t seen _ v
  on_forced-Steps t s (seen, out_of_fuel) v = on_executed-Steps t seen _ v
  on_forced-Steps t s (seen, malicious n) v = (refl, refl)

  check_forced-Steps :
      (t : Tracking) (source : Source)
      → Valid
      → Steps env ev σ (check_forced env ev source (variant t σ.seen))
  unfolding check_forced apply_block
  check_forced-Steps t from_da v = on_forced-Steps t σ.seen _ v
  check_forced-Steps t from_p2p v = on_executed-Steps t σ.seen _ v
  check_forced-Steps t from_raft v = on_executed-Steps t σ.seen _ v

  on_next-Steps :
      (x : Tracking × Option BlockError)
      → validate_basic env.max_allowed (env.signing ev.header ev.block_data) ev.header ≡ none
      → assert_valid_for_next_state env.commitment σ.tracking σ.last_state ev.header ev.block_data
        ≡ x
      → Steps env ev σ (on_next env ev σ x)
  unfolding on_next drop_included
  on_next-Steps (t, none) b n = check_forced-Steps t ev.source (b, ap (λ p. p.1) n)
  on_next-Steps (t, some err) b n = (refl, refl)

  on_basic-Steps :
      (o : Option HeaderError)
      → validate_basic env.max_allowed (env.signing ev.header ev.block_data) ev.header ≡ o
      → Steps env ev σ (on_basic env ev σ o)
  unfolding on_basic drop_included
  on_basic-Steps none b = on_next-Steps _ b refl
  on_basic-Steps (some err) b = (refl, refl)

-- TrySyncNextBlock reports the block as synced only where it passed both validations and was
-- committed whole, with the next state, which the memory then has; with every other result the
-- store and the last state are as they were.
pub try_sync-Steps :
    (env : Env) (ev : Event) (σ : Syncer) → Steps env ev σ (try_sync_next_block env ev σ)
unfolding try_sync_next_block
try_sync-Steps env ev σ =
    if_both (Steps env ev σ) env.cancelled _ _ (refl, refl) (on_basic-Steps env ev σ _ refl)

-- The store's height and state are those of the last state in memory.
abbrev pub IsConsistent : Env → Syncer → Type 0
IsConsistent env σ =
    (get_height no_faults σ.db ≡ some σ.last_state.last_block_height)
    × (get_state env.codec no_faults σ.db ≡ found σ.last_state)

raised_height :
    (da : ℕ) (st : State) → (raise_da_height da st).last_block_height ≡ st.last_block_height
unfolding raise_da_height
raised_height da st =
    if_both (λ (s : State). s.last_block_height ≡ st.last_block_height) (ltb st.da_height da) _ _
      refl refl

below_next : (h n : ℕ) → n ≡ h + 1 → h < n
below_next h n e = omega arith

other_than : (h n : ℕ) → n ≡ h + 1 → h ≢ n
other_than h n e = λ q. omega arith

Committed-IsConsistent :
    (env : Env) (ev : Event) (σ τ : Syncer) (app_hash : Bytes)
    → IsCodec env.codec
    → ev.header.height ≡ σ.last_state.last_block_height + 1
    → ev.header.height < 2 ^ 64
    → Committed env ev σ τ app_hash
    → IsConsistent env σ
    → IsConsistent env τ
unfolding next_state
Committed-IsConsistent env ev σ τ app_hash codec next bound (b, n, state, whole) (height, st) =
    let now : get_height env.faults σ.db ≡ some σ.last_state.last_block_height =
      stage_block-reads env.codec env.faults ev.header ev.block_data ev.header.signature
        ev.header.height τ.last_state σ.db τ.db whole
      ∙ height in
    let at_height : τ.last_state.last_block_height ≡ ev.header.height =
      ap (λ (s : State). s.last_block_height) state
      ∙ raised_height ev.da_height (next_state env.hash σ.last_state ev.header.header app_hash) in
    let ((blk, sig, gh, gs), kept) =
      stage_block-Holds env.codec env.faults ev.header ev.block_data ev.header.signature
        τ.last_state σ.last_state.last_block_height σ.last_state.last_block_height σ.db τ.db codec
        now (below_next σ.last_state.last_block_height ev.header.height next) bound at_height
        (other_than σ.last_state.last_block_height ev.header.height next) whole in
    (gh ∙ ap (λ (k : ℕ). some k) (sym at_height), gs)

pub Kept-IsConsistent :
    (env : Env) (σ τ : Syncer) → Kept σ τ → IsConsistent env σ → IsConsistent env τ
Kept-IsConsistent env σ τ (d, s) (height, st) = (
  ap (get_height no_faults) d ∙ height ∙ ap (λ (t : State). some t.last_block_height) (sym s),
  ap (get_state env.codec no_faults) d ∙ st ∙ ap (λ (t : State). found t) (sym s),
)

Steps-IsConsistent :
    (env : Env) (ev : Event) (σ τ : Syncer) (o : Outcome)
    → IsCodec env.codec
    → ev.header.height ≡ σ.last_state.last_block_height + 1
    → ev.header.height < 2 ^ 64
    → Steps env ev σ (τ, o)
    → IsConsistent env σ
    → IsConsistent env τ
Steps-IsConsistent env ev σ τ synced codec next bound (app_hash, c) i =
    Committed-IsConsistent env ev σ τ app_hash codec next bound c i
Steps-IsConsistent env ev σ τ cancelled_before codec next bound k i = Kept-IsConsistent env σ τ k i
Steps-IsConsistent env ev σ τ invalid_block codec next bound k i = Kept-IsConsistent env σ τ k i
Steps-IsConsistent env ev σ τ invalid_state codec next bound k i = Kept-IsConsistent env σ τ k i
Steps-IsConsistent env ev σ τ malicious_proposer codec next bound k i =
    Kept-IsConsistent env σ τ k i
Steps-IsConsistent env ev σ τ failed codec next bound k i = Kept-IsConsistent env σ τ k i

-- For an event of the next height, TrySyncNextBlock preserves that the store has the height and the
-- state of the memory.
pub try_sync-IsConsistent :
    (env : Env) (ev : Event) (σ : Syncer)
    → IsCodec env.codec
    → ev.header.height ≡ σ.last_state.last_block_height + 1
    → ev.header.height < 2 ^ 64
    → IsConsistent env σ
    → IsConsistent env (try_sync_next_block env ev σ).0
try_sync-IsConsistent env ev σ codec next bound i =
    Steps-IsConsistent env ev σ (try_sync_next_block env ev σ).0 (try_sync_next_block env ev σ).1
      codec next bound (try_sync-Steps env ev σ) i

Steps-height :
    (env : Env) (ev : Event) (σ τ : Syncer) (o : Outcome)
    → ev.header.height ≡ σ.last_state.last_block_height + 1
    → Steps env ev σ (τ, o)
    → (τ.last_state.last_block_height ≡ σ.last_state.last_block_height)
      ⊎ (τ.last_state.last_block_height ≡ σ.last_state.last_block_height + 1)
unfolding next_state
Steps-height env ev σ τ synced next (app_hash, (b, n, state, whole)) = inr (
    ap (λ (s : State). s.last_block_height) state
    ∙ raised_height ev.da_height (next_state env.hash σ.last_state ev.header.header app_hash)
    ∙ next)
Steps-height env ev σ τ cancelled_before next (d, s) =
    inl (ap (λ (t : State). t.last_block_height) s)
Steps-height env ev σ τ invalid_block next (d, s) = inl (ap (λ (t : State). t.last_block_height) s)
Steps-height env ev σ τ invalid_state next (d, s) = inl (ap (λ (t : State). t.last_block_height) s)
Steps-height env ev σ τ malicious_proposer next (d, s) =
    inl (ap (λ (t : State). t.last_block_height) s)
Steps-height env ev σ τ failed next (d, s) = inl (ap (λ (t : State). t.last_block_height) s)

pub try_sync-height :
    (env : Env) (ev : Event) (σ : Syncer)
    → ev.header.height ≡ σ.last_state.last_block_height + 1
    → ((try_sync_next_block env ev σ).0.last_state.last_block_height
        ≡ σ.last_state.last_block_height)
      ⊎ ((try_sync_next_block env ev σ).0.last_state.last_block_height
          ≡ σ.last_state.last_block_height + 1)
try_sync-height env ev σ next =
    Steps-height env ev σ (try_sync_next_block env ev σ).0 (try_sync_next_block env ev σ).1 next
      (try_sync-Steps env ev σ)
