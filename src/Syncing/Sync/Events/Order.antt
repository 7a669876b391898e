-- ===== src/Syncing/Sync/Events/Order.antt =====
-- Blocks are synced in the order of their heights.
use chain_sdk.Base.{
  ℕ, ◌+◌, ◌<◌, ◌^◌, ◌≡◌, ◌==◌, ◌⊎◌, inl, inr, refl, sym, ap, ◌∙◌, subst, true, ◌||◌, Bool-cases,
  Option, none, some, leb, if_both, arith, add_u64, some-inj,
}
use chain_sdk.Types.Chain.{State}
use chain_sdk.Store.{Db, Faults, height_field, no_faults, IsCodec, get_height}
use chain_sdk.Syncing.Sync.{
  Source, from_da, from_p2p, from_raft, Event, Syncer, Env, Outcome, synced, cancelled_before,
  invalid_block, invalid_state, malicious_proposer, failed, try_sync_next_block,
}
use chain_sdk.Syncing.Sync.Steps.{
  Kept, IsConsistent, try_sync-IsConsistent, try_sync-height, Kept-IsConsistent,
}
use chain_sdk.Syncing.Sync.Events.{
  take_hints, set_pending, on_outcome, lacks_last_data, process_next, at_current,
  process_height_event,
}

take_hints-Kept :
    (env : Env) (ev : Event) (source : Source) (σ : Syncer) → Kept σ (take_hints env ev source σ)
unfolding take_hints
take_hints-Kept env ev from_da σ = (refl, refl)
take_hints-Kept env ev from_p2p σ = (refl, refl)
take_hints-Kept env ev from_raft σ = (refl, refl)

set_pending-Kept : (ev : Event) (σ : Syncer) → Kept σ (set_pending ev σ)
unfolding set_pending
set_pending-Kept ev σ = (refl, refl)

on_outcome-Kept : (ev : Event) (σ : Syncer) (o : Outcome) → Kept σ (on_outcome ev (σ, o))
unfolding on_outcome
on_outcome-Kept ev σ synced = (refl, refl)
on_outcome-Kept ev σ invalid_block = (refl, refl)
on_outcome-Kept ev σ invalid_state = (refl, refl)
on_outcome-Kept ev σ malicious_proposer =
    if_both (Kept σ) σ.has_critical_error _ _ (refl, refl) (refl, refl)
on_outcome-Kept ev σ cancelled_before =
    if_both (Kept σ) σ.has_critical_error _ _ (refl, refl) (set_pending-Kept ev σ)
on_outcome-Kept ev σ failed =
    if_both (Kept σ) σ.has_critical_error _ _ (refl, refl) (set_pending-Kept ev σ)

-- The chain's invariant holds, and the height is the same or one more.
abbrev pub Moves : Env → Syncer → Syncer → Type 0
Moves env σ τ =
    IsConsistent env τ
    × ((τ.last_state.last_block_height ≡ σ.last_state.last_block_height)
        ⊎ (τ.last_state.last_block_height ≡ σ.last_state.last_block_height + 1))

Kept-Moves : (env : Env) (σ τ : Syncer) → Kept σ τ → IsConsistent env σ → Moves env σ τ
Kept-Moves env σ τ (d, s) i =
    (Kept-IsConsistent env σ τ (d, s) i, inl (ap (λ (t : State). t.last_block_height) s))

Moves-Kept : (env : Env) (σ τ υ : Syncer) → Moves env σ τ → Kept τ υ → Moves env σ υ
Moves-Kept env σ τ υ (i, h) (d, s) = (
  Kept-IsConsistent env τ υ (d, s) i,
  elim h [
    | inl e ↦ inl (ap (λ (t : State). t.last_block_height) s ∙ e)
    | inr e ↦ inr (ap (λ (t : State). t.last_block_height) s ∙ e)
  ],
)

on_outcome-Moves :
    (env : Env) (ev : Event) (σ : Syncer) (x : Syncer × Outcome)
    → Moves env σ x.0
    → Moves env σ (on_outcome ev x)
on_outcome-Moves env ev σ (τ, o) m =
    Moves-Kept env σ τ (on_outcome ev (τ, o)) m (on_outcome-Kept ev τ o)

process_next-Moves :
    (env : Env) (ev : Event) (current : ℕ) (σ : Syncer)
    → IsCodec env.codec
    → ev.header.height ≡ σ.last_state.last_block_height + 1
    → ev.header.height < 2 ^ 64
    → IsConsistent env σ
    → Moves env σ (process_next env ev current σ)
unfolding process_next take_hints
process_next-Moves env ev current σ codec next bound i =
    let σ' = take_hints env ev ev.source σ in
    let (d, s) = take_hints-Kept env ev ev.source σ in
    let i' = Kept-IsConsistent env σ σ' (d, s) i in
    let next' = next ∙ ap (λ (t : State). t.last_block_height + 1) (sym s) in
    if_both (Moves env σ) (lacks_last_data env ev ev.source σ' current) _ _
      (Kept-Moves env σ σ' (d, s) i)
      (on_outcome-Moves env ev σ (try_sync_next_block env ev σ') (
        try_sync-IsConsistent env ev σ' codec next' bound i',
        subst
            (λ (n : ℕ).
              ((try_sync_next_block env ev σ').0.last_state.last_block_height ≡ n)
              ⊎ ((try_sync_next_block env ev σ').0.last_state.last_block_height ≡ n + 1))
            (ap (λ (t : State). t.last_block_height) s) (try_sync-height env ev σ' next'),
      ))

without_fault :
    (f : Faults) (db : Db) (n : ℕ) → get_height f db ≡ some n → get_height no_faults db ≡ some n
unfolding get_height
without_fault f db n h = elim (Bool-cases (f.on_get height_field)) [
  | inl y ↦ cc (rw y at h)
  | inr ne ↦ rw ne at h
]

next_of :
    (height current last : ℕ)
    → (height == add_u64 current 1) ≡ true
    → current ≡ last
    → last + 1 < 2 ^ 64
    → height ≡ last + 1
next_of height current last y e b = ground arith

at_current-Moves :
    (env : Env) (ev : Event) (σ : Syncer) (o : Option ℕ)
    → get_height env.faults σ.db ≡ o
    → IsCodec env.codec
    → σ.last_state.last_block_height + 1 < 2 ^ 64
    → IsConsistent env σ
    → Moves env σ (at_current env ev σ o)
unfolding at_current
at_current-Moves env ev σ none g codec bound i = Kept-Moves env σ σ (refl, refl) i
at_current-Moves env ev σ (some current) g codec bound i =
    if_both (Moves env σ)
      (leb ev.header.height current || σ.header_cache.hashes (env.hash ev.header.header)) _ _
      (Kept-Moves env σ σ (refl, refl) i)
      (elim (Bool-cases (ev.header.height == add_u64 current 1)) [
        | inr n ↦ rw n (Kept-Moves env σ (set_pending ev σ) (set_pending-Kept ev σ) i)
        | inl y ↦
            (let same : current ≡ σ.last_state.last_block_height =
                some-inj (sym (without_fault env.faults σ.db current g) ∙ i.0) in
              let next =
                next_of ev.header.height current σ.last_state.last_block_height y same bound in
              rw y (
                process_next-Moves env ev current σ codec next
                  (subst (λ (n : ℕ). n < 2 ^ 64) (sym next) bound) i))
      ])

-- Processing an event keeps the store's height and state those of the memory, and the height, which
-- is below 2^64 - 1, stays or goes up by one, whatever the event's height. It assumes that the
-- encodings are read back.
pub process_height_event-Moves :
    (env : Env) (ev : Event) (σ : Syncer)
    → IsCodec env.codec
    → σ.last_state.last_block_height + 1 < 2 ^ 64
    → IsConsistent env σ
    → Moves env σ (process_height_event env ev σ)
unfolding process_height_event
process_height_event-Moves env ev σ codec bound i =
    at_current-Moves env ev σ (get_height env.faults σ.db) refl codec bound i
