-- ===== src/Submitting/Inclusion/Steps.antt =====
-- How the DA included height advances.
use chain_sdk.Base.{
  ℕ, ◌≡◌, ◌≤◌, ◌⊎◌, ◌^◌, ◌+◌, inl, inr, refl, ◌∙◌, subst, Bool, true, false, ◌&&◌, ◌||◌, Bool-cases,
  Option, none, some, some-inj, if_both, min, add_u64, ltb, leb, else_of, bytes_equal, arith,
}
use chain_sdk.Types.Header.{SignedHeader}
use chain_sdk.Types.Chain.{Data}
use chain_sdk.Store.{
  Write, write_da_included, write_genesis_da_height, write_header_da_height, write_data_da_height,
  apply_write, Read, absent, broken, found, get_block_data, get_height, encode_height,
}
use chain_sdk.Cache.{get_da_included_by_height}
use chain_sdk.Executing.Retry.{
  Retried, returned, exhausted, stopped_waiting, fell_through, with_retry, with_retry-Ends, Ends,
  tries_again,
}
use chain_sdk.Submitting.Inclusion.{
  Submitter, Env, Done, and_then, put, set_sequencer, put_genesis, put_data_height, put_own_height,
  put_data_heights, has_no_txs, is_some, included_below, with_header_height,
  set_node_height_to_da_height, is_height_da_included, Pass, advanced, breaks, halts, delete_height,
  on_persisted, on_final, on_mapped, on_included, on_block, pass,
}

-- The heights are as they were.
abbrev Same : Submitter → Submitter → Type 0
Same σ τ =
    (τ.db.height ≡ σ.db.height)
    × (τ.db.da_included ≡ σ.db.da_included)
    × (τ.da_included_height ≡ σ.da_included_height)

kept_trans : (σ τ υ : Submitter) → Same σ τ → Same τ υ → Same σ υ
kept_trans σ τ υ (a, b, c) (a', b', c') = (a' ∙ a, b' ∙ b, c' ∙ c)

module _ (env : Env) where
  and_then-Same :
      (σ : Submitter) (x : Done) (f : Submitter → Done)
      → Same σ x.0
      → ((τ : Submitter) → Same τ (f τ).0)
      → Same σ (and_then x f).0
  unfolding and_then
  and_then-Same σ (τ, false) f s g = s
  and_then-Same σ (τ, true) f s g = kept_trans σ τ (f τ).0 s (g τ)

  put-Same :
      (w : Write) (σ : Submitter)
      → (apply_write w σ.db).height ≡ σ.db.height
      → (apply_write w σ.db).da_included ≡ σ.db.da_included
      → Same σ (put env w σ).0
  unfolding put
  put-Same w σ h d =
      if_both (λ (x : Done). Same σ x.0) (env.on_put w) _ _ (refl, refl, refl) (h, d, refl)

  set_sequencer-Same : (da : ℕ) (σ : Submitter) → Same σ (set_sequencer env da σ).0
  unfolding set_sequencer
  set_sequencer-Same da σ =
      if_both (λ τ. Same σ τ) env.has_sequencer _ _ (refl, refl, refl) (refl, refl, refl)

  put_genesis-Same : (g : Bool) (da : ℕ) (σ : Submitter) → Same σ (put_genesis env g da σ).0
  unfolding put_genesis apply_write
  put_genesis-Same false da σ = (refl, refl, refl)
  put_genesis-Same true da σ =
      and_then-Same σ _ (set_sequencer env da) (put-Same (write_genesis_da_height _) σ refl refl)
        (set_sequencer-Same da)

  put_data_height-Same :
      (height : ℕ) (g : Bool) (da genesis_da : ℕ) (σ : Submitter)
      → Same σ (put_data_height env height g da genesis_da σ).0
  unfolding put_data_height apply_write
  put_data_height-Same height g da genesis_da σ =
      and_then-Same σ _ (put_genesis env g genesis_da)
        (put-Same (write_data_da_height height _) σ refl refl) (put_genesis-Same g genesis_da)

  put_own_height-Same :
      (height : ℕ) (g : Bool) (header_da : ℕ) (o : Option ℕ) (σ : Submitter)
      → Same σ (put_own_height env height g header_da o σ).0
  unfolding put_own_height
  put_own_height-Same height g header_da none σ = (refl, refl, refl)
  put_own_height-Same height g header_da (some da) σ =
      put_data_height-Same height g da (min da header_da) σ

  put_data_heights-Same :
      (height : ℕ) (d : Data) (g : Bool) (da : ℕ) (σ : Submitter)
      → Same σ (put_data_heights env height d g da σ).0
  unfolding put_data_heights
  put_data_heights-Same height d g da σ =
      if_both (λ (x : Done). Same σ x.0) (has_no_txs env d) _ _
        (put_data_height-Same height g da da σ)
        (put_own_height-Same height g da (get_da_included_by_height σ.data_cache height) σ)

  with_header_height-Same :
      (height : ℕ) (d : Data) (g : Bool) (o : Option ℕ) (σ : Submitter)
      → Same σ (with_header_height env height d g o σ).0
  unfolding with_header_height apply_write
  with_header_height-Same height d g none σ = (refl, refl, refl)
  with_header_height-Same height d g (some da) σ =
      and_then-Same σ _ (put_data_heights env height d g da)
        (put-Same (write_header_da_height height _) σ refl refl)
        (put_data_heights-Same height d g da)

  set_node-Same :
      (height : ℕ) (d : Data) (g : Bool) (σ : Submitter)
      → Same σ (set_node_height_to_da_height env height d g σ).0
  unfolding set_node_height_to_da_height
  set_node-Same height d g σ = with_header_height-Same height d g _ σ

-- The header at the height was seen at a DA height, and so was the data, unless the block has no
-- transactions; the store has reached the height.
abbrev IsIncluded : Env → Submitter → ℕ → Data → Type 0
IsIncluded env σ height d =
    ((current : ℕ) × (get_height env.faults σ.db ≡ some current) × (height ≤ current))
    × ((da : ℕ) × (get_da_included_by_height σ.header_cache height ≡ some da))
    × ((bytes_equal (env.commitment d.txs) env.empty_txs_hash ≡ true)
        ⊎ ((da : ℕ) × (get_da_included_by_height σ.data_cache height ≡ some da)))

is_some-true : (o : Option ℕ) → is_some o ≡ true → (n : ℕ) × (o ≡ some n)
unfolding is_some
is_some-true none e = cc
is_some-true (some n) e = (n, refl)

split_and : (a b : Bool) → (a && b) ≡ true → (a ≡ true) × (b ≡ true)
split_and a b e = ground arith

split_or : (a b : Bool) → (a || b) ≡ true → (a ≡ true) ⊎ (b ≡ true)
split_or true b e = inl refl
split_or false b e = inr e

included_below-IsIncluded :
    (env : Env) (σ : Submitter) (height : ℕ) (d : Data) (o : Option ℕ)
    → get_height env.faults σ.db ≡ o
    → included_below env σ height d o ≡ some true
    → IsIncluded env σ height d
unfolding included_below has_no_txs
included_below-IsIncluded env σ height d none g e = cc
included_below-IsIncluded env σ height d (some current) g e =
    let (reached, e') = else_of (ltb current height) e (λ f. cc) in
    let (header, rest) = split_and _ _ (some-inj e') in
    (
      (current, g, ground arith),
      is_some-true (get_da_included_by_height σ.header_cache height) header,
      elim (split_or _ _ rest) [
        | inl empty ↦ inl empty
        | inr data_seen ↦
            inr (is_some-true (get_da_included_by_height σ.data_cache height) data_seen)
      ],
    )

-- The same for the height after the DA included one, which cannot be told apart from a height that
-- was included before only where it wraps around.
abbrev pub NextIsIncluded : Env → Submitter → Data → Type 0
NextIsIncluded env σ d =
    (2 ^ 64 ≤ σ.da_included_height + 1) ⊎ IsIncluded env σ (add_u64 σ.da_included_height 1) d

wraps : (h : ℕ) → leb (add_u64 h 1) h ≡ true → 2 ^ 64 ≤ h + 1
wraps h le = ground arith

next-NextIsIncluded :
    (env : Env) (σ : Submitter) (d : Data)
    → is_height_da_included env σ (add_u64 σ.da_included_height 1) d ≡ some true
    → NextIsIncluded env σ d
unfolding is_height_da_included
next-NextIsIncluded env σ d e =
    elim (Bool-cases (leb (add_u64 σ.da_included_height 1) σ.da_included_height)) [
      | inl y ↦ inl (wraps σ.da_included_height y)
      | inr n ↦ inr (
          included_below-IsIncluded env σ (add_u64 σ.da_included_height 1) d
            (get_height env.faults σ.db) refl (rw n at e))
    ]

-- The height went up by one: persisted, set in memory, and made final in the executor.
abbrev pub Advanced : Env → Submitter → Submitter → Type 0
Advanced env σ τ =
    (τ.da_included_height ≡ add_u64 σ.da_included_height 1)
    × (τ.db.da_included ≡ some (encode_height (add_u64 σ.da_included_height 1)))
    × (τ.db.height ≡ σ.db.height)
    × ((h : SignedHeader) × (d : Data) × (get_block_data env.codec env.faults σ.db
            (add_u64 σ.da_included_height 1)
          ≡ found (h, d))
        × NextIsIncluded env σ d)
    × (with_retry (env.set_final (add_u64 σ.da_included_height 1)) env.stopped ≡ returned tt)

-- A pass that ends keeps the heights, and one that goes on has advanced by one.
abbrev pub Passes : Env → Submitter → Pass → Type 0
Passes env σ (advanced τ) = Advanced env σ τ
Passes env σ (breaks τ) = Same σ τ
Passes env σ (halts τ) = Same σ τ

never_falls_through :
    {call : ℕ → Option (Unit {0})} {stopped : ℕ → Bool} (l a : ℕ)
    → Ends call stopped l a fell_through
    → ⊥
never_falls_through l a (tries_again c w rest) = never_falls_through _ _ rest

module _ (env : Env) (σ : Submitter) where
  abbrev next : ℕ
  next = add_u64 σ.da_included_height 1

  abbrev Block : Type 0
  Block =
      (h : SignedHeader) × (d : Data) × (get_block_data env.codec env.faults σ.db next
        ≡ found (h, d))
      × NextIsIncluded env σ d

  persisted-Passes :
      (τ : Submitter)
      → Block
      → Same σ τ
      → with_retry (env.set_final next) env.stopped ≡ returned tt
      → Passes env σ (on_persisted next (put env (write_da_included (some (encode_height next))) τ))
  unfolding on_persisted put apply_write delete_height
  persisted-Passes τ b same final =
      elim (Bool-cases (env.on_put (write_da_included (some (encode_height next))))) [
        | inl y ↦ rw y same
        | inr n ↦ rw n (refl, refl, same.0, b, final)
      ]

  on_final-Passes :
      (τ : Submitter) (r : Retried (Unit {0}))
      → Block
      → Same σ τ
      → with_retry (env.set_final next) env.stopped ≡ r
      → Passes env σ (on_final env next τ r)
  unfolding on_final
  on_final-Passes τ exhausted b same e = same
  on_final-Passes τ stopped_waiting b same e = same
  on_final-Passes τ (returned u) b same e = persisted-Passes τ b same e
  on_final-Passes τ fell_through b same e = absurd (
      never_falls_through 4 1 (
        subst (Ends (env.set_final next) env.stopped 4 1) e
          (with_retry-Ends (env.set_final next) env.stopped)))

  on_mapped-Passes : (x : Done) → Block → Same σ x.0 → Passes env σ (on_mapped env next x)
  unfolding on_mapped
  on_mapped-Passes (τ, false) b same = same
  on_mapped-Passes (τ, true) b same = on_final-Passes τ _ b same refl

  on_included-Passes :
      (h : SignedHeader) (d : Data) (o : Option Bool)
      → get_block_data env.codec env.faults σ.db next ≡ found (h, d)
      → is_height_da_included env σ next d ≡ o
      → Passes env σ (on_included env next d σ o)
  unfolding on_included
  on_included-Passes h d none g i = (refl, refl, refl)
  on_included-Passes h d (some false) g i = (refl, refl, refl)
  on_included-Passes h d (some true) g i =
      on_mapped-Passes _ (h, d, g, next-NextIsIncluded env σ d i) (set_node-Same env next d _ σ)

  on_block-Passes :
      (r : Read (SignedHeader × Data))
      → get_block_data env.codec env.faults σ.db next ≡ r
      → Passes env σ (on_block env next σ r)
  unfolding on_block
  on_block-Passes absent g = (refl, refl, refl)
  on_block-Passes broken g = (refl, refl, refl)
  on_block-Passes (found (h, d)) g = on_included-Passes h d _ g refl

-- One pass of the inner loop advances the height by one only over a block of the store whose header
-- is DA included, and its data too or it has no transactions, after SetFinal succeeded, and with
-- the new height persisted, unless the height wraps around at 2^64; else the heights in memory and
-- in the store stay.
pub pass-Passes : (env : Env) (σ : Submitter) → Passes env σ (pass env σ)
unfolding pass
pass-Passes env σ = on_block-Passes env σ _ refl
