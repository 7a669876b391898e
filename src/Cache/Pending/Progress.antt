-- ===== src/Cache/Pending/Progress.antt =====
-- How the last submitted height moves, and what it is after a restart.
use chain_sdk.Base.{
  ℕ, zero, suc, ◌+◌, ◌-◌, ◌==◌, ◌<◌, ◌≤◌, ◌^◌, ◌≡◌, refl, sym, ap, ◌∙◌, subst, ◌⊎◌, inl, inr, true,
  Bool-cases, Option, none, some, some-inj, ltb, if_both, if_of_true, if_of_false, arith, ==_iff,
  Bytes, length, put_little_endian, little_endian-put, length-put_little_endian,
}
use chain_sdk.Types.Chain.{Data}
use chain_sdk.Store.{found}
use chain_sdk.Cache.Pending.{
  Pending, View, num_between, num_pending, set_last_submitted_height, last_of, advance_one,
  advance_over, advance_to, advance_past_empty_data,
}

-- The stored bytes are those of the last submitted height.
abbrev pub Saved : {Item : Type 0} → Pending Item → Type 0
Saved σ = σ.stored ≡ some (put_little_endian 8 σ.last_height)

last_of-put : (n : ℕ) → n < 2 ^ 64 → last_of (found (put_little_endian 8 n)) ≡ some n
unfolding last_of
last_of-put n fits =
    rw (length-put_little_endian 8 n) (ap (λ (k : ℕ). some k) (little_endian-put 8 n (omega arith)))

module _ {Item : Type 0} (v : View Item) where
  set_last-Saved :
      (σ : Pending Item) (height : ℕ)
      → v.writes_metadata ≡ true
      → Saved σ
      → Saved (set_last_submitted_height v σ height)
  unfolding set_last_submitted_height
  set_last-Saved σ height writes saved =
      if_both Saved (ltb σ.last_height height) _ _
        (if_of_true (λ (o : Option Bytes). o ≡ some (put_little_endian 8 height)) v.writes_metadata
          _ _ writes refl)
        saved

  set_last-rises :
      (σ : Pending Item) (height : ℕ)
      → (σ.last_height ≤ (set_last_submitted_height v σ height).last_height)
        × (height ≤ (set_last_submitted_height v σ height).last_height)
  unfolding set_last_submitted_height
  set_last-rises σ height = ground arith

  set_last-fits :
      (σ : Pending Item) (height : ℕ)
      → σ.last_height < 2 ^ 64
      → height < 2 ^ 64
      → (set_last_submitted_height v σ height).last_height < 2 ^ 64
  unfolding set_last_submitted_height
  set_last-fits σ height fits room =
      if_both (λ (τ : Pending Item). τ.last_height < 2 ^ 64) (ltb σ.last_height height) _ _ room
        fits

  -- The last submitted height does not fall, and is at least the height that is set. Where the
  -- metadata can be written, a restart finds it again; it assumes heights of 64 bits.
  restart-set_last :
      (σ : Pending Item) (height : ℕ) (raw : Bytes)
      → v.writes_metadata ≡ true
      → Saved σ
      → σ.last_height < 2 ^ 64
      → height < 2 ^ 64
      → (set_last_submitted_height v σ height).stored ≡ some raw
      → (σ.last_height ≤ (set_last_submitted_height v σ height).last_height)
        × (height ≤ (set_last_submitted_height v σ height).last_height)
        × (last_of (found raw) ≡ some (set_last_submitted_height v σ height).last_height)
  restart-set_last σ height raw writes saved fits room e =
      let τ = set_last_submitted_height v σ height in
      let (up, at_least) = set_last-rises σ height in
      let same : put_little_endian 8 τ.last_height ≡ raw =
        some-inj (sym (set_last-Saved σ height writes saved) ∙ e) in
      (
        up,
        at_least,
        subst (λ (x : Bytes). last_of (found x) ≡ some τ.last_height) same
            (last_of-put τ.last_height (set_last-fits σ height fits room)),
      )

  -- Where the last submitted height is above the store's, as after a rollback, the number of pending
  -- items wraps around: it is at least any limit up to 2^64 less the difference.
  num_pending-wraps :
      (σ : Pending Item) (height limit : ℕ)
      → v.store_height ≡ some height
      → height < σ.last_height
      → σ.last_height < 2 ^ 64
      → limit + (σ.last_height - height) ≤ 2 ^ 64
      → limit ≤ num_pending v σ
  unfolding num_pending num_between
  num_pending-wraps σ height limit e above fits small = rw e (omega arith)

module _ (v : View Data) where
  -- The heights after `from` up to `to` have data without transactions.
  abbrev AllEmpty : ℕ → ℕ → Type 0
  AllEmpty from to =
      (k : ℕ) → from < k → k ≤ to → (d : Data) × (v.fetch k ≡ some d) × (length d.txs ≡ 0)

  -- The height after the last one has transactions, cannot be fetched, or is above the store's.
  abbrev Stops : ℕ → ℕ → Type 0
  Stops last height =
      (height ≤ last)
      ⊎ (v.fetch (last + 1) ≡ none)
      ⊎ ((d : Data) × (v.fetch (last + 1) ≡ some d) × (0 < length d.txs))

  abbrev pub Advances : ℕ → ℕ → ℕ → Type 0
  Advances from height to =
      (from ≤ to) × ((to ≡ from) ⊎ (to ≤ height)) × AllEmpty from to × Stops to height

  rounds :
      (last height : ℕ)
      → (height ≤ last + (height - last))
        × ((height - last ≡ 0) ⊎ (last + (height - last) ≤ height))
  rounds last height = ground arith

  set_last-next :
      (σ : Pending Data)
      → (set_last_submitted_height v σ (σ.last_height + 1)).last_height ≡ σ.last_height + 1
  unfolding set_last_submitted_height
  set_last-next σ =
      if_of_true (λ (τ : Pending Data). τ.last_height ≡ σ.last_height + 1)
        (ltb σ.last_height (σ.last_height + 1)) _ _ (ground arith) refl

  Advances-next :
      (last height to : ℕ) (d : Data)
      → v.fetch (last + 1) ≡ some d
      → length d.txs ≡ 0
      → last + 1 ≤ height
      → Advances (last + 1) height to
      → Advances last height to
  Advances-next last height to d e empty room (le, bound, all, stops) = (
    omega arith,
    inr (within bound),
    λ k above below. elim (Bool-cases (k == last + 1)) [
      | inl y ↦
          (d, subst (λ (j : ℕ). v.fetch j ≡ some d) (sym ((==_iff k (last + 1)).0 y)) e, empty)
      | inr n ↦ all k (ground arith) below
    ],
    stops,
  )
    where
      within : (to ≡ last + 1) ⊎ (to ≤ height) → to ≤ height
      within (inl same) = omega arith
      within (inr below) = below

  advance_one-Advances :
      (n : ℕ) (σ : Pending Data) (height : ℕ) (rest : Pending Data → Pending Data) (o : Option Data)
      → v.fetch (σ.last_height + 1) ≡ o
      → σ.last_height + 1 ≤ height
      → ((τ : Pending Data)
          → τ.last_height ≡ σ.last_height + 1
          → Advances τ.last_height height (rest τ).last_height)
      → Advances σ.last_height height (advance_one v (σ.last_height + 1) σ rest o).last_height
  unfolding advance_one
  advance_one-Advances n σ height rest none e room ih =
      (omega arith, inl refl, λ k above below. absurd (omega arith), inr (inl e))
  advance_one-Advances n σ height rest (some d) e room ih =
      elim (Bool-cases (ltb 0 (length d.txs))) [
        | inl y ↦
            if_of_true (λ (τ : Pending Data). Advances σ.last_height height τ.last_height)
              (ltb 0 (length d.txs)) _ _ y
              (
                omega arith,
                inl refl,
                λ k above below. absurd (omega arith),
                inr (inr (d, e, ground arith)),
              )
        | inr none_of ↦
            if_of_false (λ (τ : Pending Data). Advances σ.last_height height τ.last_height)
              (ltb 0 (length d.txs)) _ _ none_of
              (let τ = set_last_submitted_height v σ (σ.last_height + 1) in
                let next = set_last-next σ in
                Advances-next σ.last_height height (rest τ).last_height d e (ground arith) room
                  (subst (λ (k : ℕ). Advances k height (rest τ).last_height) next (ih τ next)))
      ]

  advance_over-Advances :
      (n : ℕ) (σ : Pending Data) (height : ℕ)
      → (height ≤ σ.last_height + n) × ((n ≡ 0) ⊎ (σ.last_height + n ≤ height))
      → Advances σ.last_height height (advance_over v n (σ.last_height + 1) σ).last_height
  unfolding advance_over
  advance_over-Advances zero σ height (e, within) =
      (omega arith, inl refl, λ k above below. absurd (omega arith), inl (omega arith))
  advance_over-Advances (suc n) σ height (e, inl none_left) = cc
  advance_over-Advances (suc n) σ height (e, inr within) =
      advance_one-Advances n σ height (advance_over v n (σ.last_height + 1 + 1))
        (v.fetch (σ.last_height + 1)) refl (omega arith)
        (λ τ next.
          subst (λ (k : ℕ). Advances τ.last_height height (advance_over v n (k + 1) τ).last_height)
            next (advance_over-Advances n τ height (omega arith, inr (omega arith))))

  -- Where the store's height can be read, advancePastEmptyData moves the last submitted height past
  -- data without transactions only, never past the store's height, and stops there or before the
  -- first block that has transactions or cannot be fetched.
  pub advance_past_empty_data-Advances :
      (σ : Pending Data) (height : ℕ)
      → v.store_height ≡ some height
      → Advances σ.last_height height (advance_past_empty_data v σ).last_height
  unfolding advance_past_empty_data advance_to
  advance_past_empty_data-Advances σ height e =
      subst (λ (o : Option ℕ). Advances σ.last_height height (advance_to v σ o).last_height) (sym e)
        (advance_over-Advances (height - σ.last_height) σ height (rounds σ.last_height height))
