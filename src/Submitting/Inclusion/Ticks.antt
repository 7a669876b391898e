-- ===== src/Submitting/Inclusion/Ticks.antt =====
-- What a tick of the DA inclusion loop does, and that it ends.
use chain_sdk.Submitting.Inclusion.Steps.{Advanced, NextIsIncluded, Passes, pass-Passes}
use chain_sdk.Base.{
  ℕ, zero, suc, ◌+◌, ◌<◌, ◌≤◌, ◌^◌, ◌≡◌, inl, inr, refl, sym, ap, ◌∙◌, subst, Option, some, arith,
  add_u64, some-inj,
}
use chain_sdk.Types.Chain.{Data}
use chain_sdk.Store.{get_height, encode_height}
use chain_sdk.Submitting.Inclusion.{
  Submitter, Env, Pass, advanced, breaks, halts, pass, on_pass, tick,
}

below_current :
    (env : Env) (σ : Submitter) (current : ℕ) (d : Data)
    → get_height env.faults σ.db ≡ some current
    → σ.da_included_height + 1 < 2 ^ 64
    → NextIsIncluded env σ d
    → add_u64 σ.da_included_height 1 ≤ current
below_current env σ current d g room (inl wrapped) = absurd (omega arith)
below_current env σ current d g room (inr ((height, same, le), header, rest)) =
    subst (λ (k : ℕ). add_u64 σ.da_included_height 1 ≤ k) (some-inj (sym same ∙ g)) le

fits : (h current : ℕ) → h ≤ current → current + 1 < 2 ^ 64 → h + 1 < 2 ^ 64
fits h current le b = omega arith

get_height-same :
    (env : Env) (σ τ : Submitter)
    → τ.db.height ≡ σ.db.height
    → get_height env.faults τ.db ≡ get_height env.faults σ.db
unfolding get_height
get_height-same env σ τ e = rw e refl

on_pass-some :
    (env : Env) (σ : Submitter) (p : Pass) (f : Submitter → Option Submitter)
    → Passes env σ p
    → ((τ : Submitter) → Advanced env σ τ → (υ : Submitter) × (f τ ≡ some υ))
    → (υ : Submitter) × (on_pass p f ≡ some υ)
unfolding on_pass
on_pass-some env σ (advanced τ) f a g = g τ a
on_pass-some env σ (breaks τ) f s g = (τ, refl)
on_pass-some env σ (halts τ) f s g = (τ, refl)

up_by_one : (h current : ℕ) → h ≤ current → current + 1 < 2 ^ 64 → h < add_u64 h 1
up_by_one h current le b = omega arith

stays_below :
    (h current n : ℕ)
    → h ≤ current
    → current ≤ h + suc n
    → add_u64 h 1 ≤ current
    → current + 1 < 2 ^ 64
    → current ≤ add_u64 h 1 + n
stays_below h current n le b up bound = omega arith

-- A tick ends: with one pass more than there are heights above the DA included one in the store,
-- the fuel does not run out, where the store's height can be read, is not below the DA included one
-- and is below 2^64 - 1.
pub tick-some :
    (env : Env) (n current : ℕ) (σ : Submitter)
    → get_height env.faults σ.db ≡ some current
    → σ.da_included_height ≤ current
    → current ≤ σ.da_included_height + n
    → current + 1 < 2 ^ 64
    → (τ : Submitter) × (tick env (suc n) σ ≡ some τ)
unfolding tick
tick-some env zero current σ g le fuel bound =
    on_pass-some env σ (pass env σ) (tick env zero) (pass-Passes env σ)
      (λ τ (up, stored, same, (h, d, b, i), f). absurd (
        too_far (below_current env σ current d g (fits σ.da_included_height current le bound) i)
          (up_by_one σ.da_included_height current le bound) fuel))
  where
    too_far :
        add_u64 σ.da_included_height 1 ≤ current
        → σ.da_included_height < add_u64 σ.da_included_height 1
        → current ≤ σ.da_included_height + 0
        → ⊥
    too_far a b c = omega arith
tick-some env (suc n) current σ g le fuel bound =
    on_pass-some env σ (pass env σ) (tick env (suc n)) (pass-Passes env σ)
      (λ τ (up, stored, same, (h, d, b, i), f).
        let at_most =
          below_current env σ current d g (fits σ.da_included_height current le bound) i in
        tick-some env n current τ (get_height-same env σ τ same ∙ g)
          (subst (λ (k : ℕ). k ≤ current) (sym up) at_most)
          (subst (λ (k : ℕ). current ≤ k + n) (sym up)
            (stays_below σ.da_included_height current n le fuel at_most bound))
          bound)

-- The height in memory is the one in the store.
abbrev pub Agrees : Submitter → Type 0
Agrees σ = σ.db.da_included ≡ some (encode_height σ.da_included_height)

passed-Agrees :
    (env : Env) (σ : Submitter) (p : Pass) (f : Submitter → Option Submitter) (υ : Submitter)
    → Agrees σ
    → Passes env σ p
    → ((τ : Submitter)
        → Agrees τ
        → τ.da_included_height ≡ add_u64 σ.da_included_height 1
        → f τ ≡ some υ
        → Agrees υ × (τ.da_included_height ≤ υ.da_included_height))
    → σ.da_included_height < add_u64 σ.da_included_height 1
    → on_pass p f ≡ some υ
    → Agrees υ × (σ.da_included_height ≤ υ.da_included_height)
unfolding on_pass
passed-Agrees env σ (advanced τ) f υ ag (up, stored, same, b, final) g lt e =
    let (a, le) = g τ (stored ∙ ap (λ (k : ℕ). some (encode_height k)) (sym up)) up e in
    (a, omega arith)
passed-Agrees env σ (breaks τ) f υ ag (h, d, m) g lt e =
    subst (λ (x : Submitter). Agrees x × (σ.da_included_height ≤ x.da_included_height)) (some-inj e)
      (d ∙ ag ∙ ap (λ (k : ℕ). some (encode_height k)) (sym m), omega arith)
passed-Agrees env σ (halts τ) f υ ag (h, d, m) g lt e =
    subst (λ (x : Submitter). Agrees x × (σ.da_included_height ≤ x.da_included_height)) (some-inj e)
      (d ∙ ag ∙ ap (λ (k : ℕ). some (encode_height k)) (sym m), omega arith)

wraps_not : (h n : ℕ) → h + suc n < 2 ^ 64 → (h < add_u64 h 1) × (add_u64 h 1 + n < 2 ^ 64)
wraps_not h n b = (omega arith, omega arith)

-- After a tick the height in memory is still the one in the store, and not lower than before, while
-- the heights fit in 64 bits.
tick-Agrees :
    (env : Env) (n : ℕ) (σ υ : Submitter)
    → σ.da_included_height + n < 2 ^ 64
    → Agrees σ
    → tick env n σ ≡ some υ
    → Agrees υ × (σ.da_included_height ≤ υ.da_included_height)
unfolding tick
tick-Agrees env zero σ υ bound ag e = cc
tick-Agrees env (suc n) σ υ bound ag e =
    let (lt, fits) = wraps_not σ.da_included_height n bound in
    passed-Agrees env σ (pass env σ) (tick env n) υ ag (pass-Passes env σ)
      (λ τ ag' up e'.
        tick-Agrees env n τ υ (subst (λ (k : ℕ). k + n < 2 ^ 64) (sym up) fits) ag' e')
      lt e
