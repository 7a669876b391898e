-- ===== src/Syncing/Forced/Verdicts.antt =====
-- When a syncing node calls its sequencer malicious.
use chain_sdk.Base.{
  ◌%◌, ◌^◌, Bool, add_u64, sub_u64, u64_mod, ℕ, zero, suc, ◌+◌, ◌-◌, ◌*◌, ◌/◌, ◌<◌, ◌≤◌, ◌≡◌, ◌==◌,
  ◌⊎◌, inl, inr, refl, sym, subst, true, false, not, ◌||◌, Bool-cases, Option, none, some, List, [],
  ◌∷◌, ltb, leb, if_both, else_of, arith, Bytes, min,
}
use chain_sdk.Cache.{Hash, at_height}
use chain_sdk.Da.ForcedInclusion.{
  ForcedInclusionEvent, RetrieveOutcome, not_configured, before_start, from_future, event,
  retrieve_forced_included_txs,
}
use chain_sdk.Sequencer.Filter.{FilterStatus, filter_ok, filter_remove, filter_postpone}
use chain_sdk.Syncing.Forced.{
  Seen, Rules, View, total_bytes, extra_epochs, grace_period_for_epoch, is_among, prune_height,
  prune_heights, prune_up_to, count_unseen, Verdict, passes, fails, out_of_fuel, malicious, verdict,
  checked, grace_boundary, on_statuses, on_txs, on_epoch, check_epochs, record_block,
  start_epoch_end, with_info, verify_forced_inclusion_txs,
}

-- The grace window is one to four epochs.
grace_period-bounds :
    (r : Rules) (bytes : ℕ → ℕ) (epoch_start epoch_end : ℕ)
    → (1 ≤ grace_period_for_epoch r bytes epoch_start epoch_end)
      × (grace_period_for_epoch r bytes epoch_start epoch_end ≤ 4)
unfolding grace_period_for_epoch
grace_period-bounds r bytes epoch_start epoch_end =
    if_both (λ (n : ℕ). (1 ≤ n) × (n ≤ 4)) (ltb epoch_end epoch_start) _ _
      (omega arith, omega arith)
      (clamped (
        extra_epochs
          (total_bytes bytes epoch_start (epoch_end - epoch_start + 1)
            / (epoch_end - epoch_start + 1))
          r.fullness_threshold))
  where
    clamped : (x : ℕ) → (1 ≤ min (1 + x) 4) × (min (1 + x) 4 ≤ 4)
    clamped x = (omega arith, omega arith)

below_boundary :
    (d e g size : ℕ)
    → 1 ≤ g
    → g ≤ 4
    → e + 4 * size < 2 ^ 64
    → leb d (add_u64 e (g * size % u64_mod)) ≡ false
    → e + size < d
below_boundary d e zero size l m room past = absurd (omega arith)
below_boundary d e (suc zero) size l m room past = ground arith
below_boundary d e (suc (suc zero)) size l m room past = ground arith
below_boundary d e (suc (suc (suc zero))) size l m room past = ground arith
below_boundary d e (suc (suc (suc (suc zero)))) size l m room past = ground arith
below_boundary d e (suc (suc (suc (suc (suc g))))) size l m room past = absurd (omega arith)

-- Where nothing wraps around, an epoch is checked only if it ends more than an epoch before the DA
-- height.
pub boundary_past :
    (r : Rules) (da_height : ℕ) (seen : Seen) (epoch_end : ℕ)
    → epoch_end + 4 * r.epoch_size < 2 ^ 64
    → leb da_height (grace_boundary r seen epoch_end) ≡ false
    → epoch_end + r.epoch_size < da_height
unfolding grace_boundary
boundary_past r da_height seen epoch_end room past =
    let epoch_start = sub_u64 epoch_end (r.epoch_size - 1) in
    let (at_least, at_most) = grace_period-bounds r seen.block_bytes epoch_start epoch_end in
    below_boundary da_height epoch_end
      (grace_period_for_epoch r seen.block_bytes epoch_start epoch_end) r.epoch_size at_least
      at_most room past

pub next_room :
    (d e size : ℕ) → d + 5 * size < 2 ^ 64 → e + size < d → add_u64 e size + 4 * size < 2 ^ 64
next_room d e size small before = omega arith

-- The transaction is one of those, with the verdict of the filter that lets it pass.
pub data Passing (tx : Bytes) : List Bytes → List FilterStatus → Type 0 where
  here :
      {txs : List Bytes} {statuses : List FilterStatus}
      → Passing tx (tx ∷ txs) (filter_ok ∷ statuses)
  there :
      {u : Bytes} {s : FilterStatus} {txs : List Bytes} {statuses : List FilterStatus}
      → Passing tx txs statuses
      → Passing tx (u ∷ txs) (s ∷ statuses)

module _ (r : Rules) (v : View) (max_gas da_height : ℕ) (start : Seen) where
  -- The hash was not recorded at all, or it was recorded for a DA height from the last checked epoch
  -- end on and more than an epoch below the present one: those are the heights that the checks may
  -- prune.
  abbrev Missing : Hash → Type 0
  Missing h =
      (start.txs h ≡ false)
      ⊎ ((k : ℕ) × (start.last_checked ≤ k)
          × (k + r.epoch_size < da_height)
          × (is_among h (start.txs_by_height k) ≡ true))

  -- A forced transaction of an epoch that ended more than an epoch before the DA height, which passes
  -- the filter.
  abbrev pub Evidence : Type 0
  Evidence =
      (epoch_end : ℕ) × (e : ForcedInclusionEvent) × (statuses : List FilterStatus) × (tx : Bytes)
      × (epoch_end + r.epoch_size < da_height)
      × (retrieve_forced_included_txs v.da r.da_start_height r.epoch_size epoch_end ≡ event e)
      × (v.filter_txs e.txs max_gas ≡ some statuses)
      × Passing tx e.txs statuses
      × Missing (r.hash_tx tx)

  -- What the checks leave of the record.
  abbrev Left : Seen → Type 0
  Left seen =
      (start.last_checked ≤ seen.last_checked)
      × ((h : Hash) → seen.txs h ≡ false → Missing h)
      × ((k : ℕ) (h : Hash)
          → is_among h (seen.txs_by_height k) ≡ true
          → is_among h (start.txs_by_height k) ≡ true)

  prune_height-Left :
      (k : ℕ) (seen : Seen)
      → start.last_checked ≤ k
      → k + r.epoch_size < da_height
      → Left seen
      → Left (prune_height k seen)
  unfolding prune_height at_height is_among
  prune_height-Left k seen from lt (after, missing, sub) = (
    after,
    (λ h gone. elim (Bool-cases (is_among h (seen.txs_by_height k))) [
      | inl y ↦ inr (k, from, lt, sub k h y)
      | inr n ↦ missing h (rw n at gone)
    ]),
    (λ j h among. elim (Bool-cases (j == k)) [
      | inl y ↦ cc (rw y at among)
      | inr n ↦ sub j h (rw n at among)
    ]),
  )

  prune_heights-Left :
      (n k : ℕ) (seen : Seen)
      → start.last_checked ≤ k
      → k + n + r.epoch_size ≤ da_height
      → Left seen
      → Left (prune_heights n k seen)
  unfolding prune_heights
  prune_heights-Left zero k seen from le l = l
  prune_heights-Left (suc n) k seen from le l =
      prune_heights-Left n (suc k) (prune_height k seen) (omega arith) (omega arith)
        (prune_height-Left k seen from (omega arith) l)

  checked-Left :
      (epoch_end : ℕ) (seen : Seen)
      → epoch_end + r.epoch_size < da_height
      → Left seen
      → Left (checked epoch_end seen)
  unfolding checked prune_up_to
  checked-Left epoch_end seen lt (from, missing, sub) =
      elim (Bool-cases (ltb seen.last_checked epoch_end)) [
        | inl y ↦
            let (from', missing', sub') =
              prune_heights-Left (epoch_end + 1 - seen.last_checked) seen.last_checked seen from
                (ground arith) (from, missing, sub) in
            rw y (ground arith, missing', sub')
        | inr n ↦ rw n (from, missing, sub)
      ]

  rest_counts : (n : ℕ) → 0 < 0 + n → 0 < n
  rest_counts n h = omega arith

  count_unseen-Passing :
      (seen : Seen) (txs : List Bytes) (statuses : List FilterStatus)
      → Left seen
      → 0 < count_unseen r seen txs statuses
      → (tx : Bytes) × Passing tx txs statuses × Missing (r.hash_tx tx)
  unfolding count_unseen
  count_unseen-Passing seen [] statuses l h = absurd (omega arith)
  count_unseen-Passing seen (tx ∷ txs) [] l h = absurd (omega arith)
  count_unseen-Passing seen (tx ∷ txs) (filter_ok ∷ statuses) l h =
      elim (Bool-cases (seen.txs (r.hash_tx tx))) [
        | inr n ↦ (tx, here, l.1 (r.hash_tx tx) n)
        | inl y ↦
            (let (u, p, m) =
                count_unseen-Passing seen txs statuses l
                  (rest_counts (count_unseen r seen txs statuses) (rw y at h)) in
              (u, there p, m))
      ]
  count_unseen-Passing seen (tx ∷ txs) (filter_remove ∷ statuses) l h =
      let (u, p, m) = count_unseen-Passing seen txs statuses l h in (u, there p, m)
  count_unseen-Passing seen (tx ∷ txs) (filter_postpone ∷ statuses) l h =
      let (u, p, m) = count_unseen-Passing seen txs statuses l h in (u, there p, m)

  -- A verdict that the sequencer is malicious has evidence.
  abbrev Justified : Seen × Verdict → Type 0
  Justified (seen, passes) = Unit {0}
  Justified (seen, fails) = Unit {0}
  Justified (seen, out_of_fuel) = Unit {0}
  Justified (seen, malicious n) = Evidence

  verdict-Justified :
      (seen : Seen) (count : ℕ) → (0 < count → Evidence) → Justified (seen, verdict count)
  unfolding verdict
  verdict-Justified seen count ev = elim (Bool-cases (ltb 0 count)) [
    | inl y ↦ rw y (ev (ground arith))
    | inr n ↦ rw n tt
  ]

  on_epoch-Justified :
      (next : Seen → ℕ → Seen × Verdict) (seen : Seen) (epoch_end count : ℕ) (o : RetrieveOutcome)
      → retrieve_forced_included_txs v.da r.da_start_height r.epoch_size epoch_end ≡ o
      → epoch_end + r.epoch_size < da_height
      → Left seen
      → (0 < count → Evidence)
      → ((s : Seen) (n : ℕ) → Left s → (0 < n → Evidence) → Justified (next s n))
      → Justified (on_epoch r v max_gas da_height next seen epoch_end count o)
  unfolding on_epoch on_txs on_statuses
  on_epoch-Justified next seen epoch_end count not_configured eq lt l ev g = tt
  on_epoch-Justified next seen epoch_end count before_start eq lt l ev g = tt
  on_epoch-Justified next seen epoch_end count (from_future h) eq lt l ev g = tt
  on_epoch-Justified next seen epoch_end count (event e) eq lt l ev g = with_txs e.txs refl
    where
      with_statuses :
          (tx : Bytes) (txs : List Bytes)
          → e.txs ≡ tx ∷ txs
          → (o : Option (List FilterStatus)) → v.filter_txs (tx ∷ txs) max_gas ≡ o
          → Justified (on_statuses r v max_gas da_height next seen epoch_end count (tx ∷ txs) o)
      with_statuses tx txs et none ef = tt
      with_statuses tx txs et (some statuses) ef =
          g (checked epoch_end seen) (count + count_unseen r seen (tx ∷ txs) statuses)
            (checked-Left epoch_end seen lt l)
            (λ pos. elim (Bool-cases (ltb 0 count)) [
              | inl y ↦ ev (ground arith)
              | inr n ↦
                  (let (u, p, m) = count_unseen-Passing seen (tx ∷ txs) statuses l (ground arith) in
                    (
                      epoch_end,
                      e,
                      statuses,
                      u,
                      lt,
                      eq,
                      subst (λ (z : List Bytes). v.filter_txs z max_gas ≡ some statuses) (sym et)
                          ef,
                      subst (λ (z : List Bytes). Passing u z statuses) (sym et) p,
                      m,
                    ))
            ])

      with_txs :
          (txs : List Bytes)
          → e.txs ≡ txs
          → Justified (on_txs r v max_gas da_height next seen epoch_end count txs)
      with_txs [] et = g (checked epoch_end seen) count (checked-Left epoch_end seen lt l) ev
      with_txs (tx ∷ txs) et = with_statuses tx txs et (v.filter_txs (tx ∷ txs) max_gas) refl

  check_epochs-Justified :
      (fuel epoch_end : ℕ) (seen : Seen) (count : ℕ)
      → da_height + 5 * r.epoch_size < 2 ^ 64
      → epoch_end + 4 * r.epoch_size < 2 ^ 64
      → Left seen
      → (0 < count → Evidence)
      → Justified (check_epochs r v max_gas da_height fuel epoch_end seen count)
  unfolding check_epochs
  check_epochs-Justified zero epoch_end seen count small room l ev = tt
  check_epochs-Justified (suc fuel) epoch_end seen count small room l ev =
      elim (Bool-cases (leb da_height (grace_boundary r seen epoch_end))) [
        | inl y ↦ rw y (verdict-Justified seen count ev)
        | inr n ↦
            let before : epoch_end + r.epoch_size < da_height =
              boundary_past r da_height seen epoch_end room n in
            rw n (
              on_epoch-Justified
                (check_epochs r v max_gas da_height fuel (add_u64 epoch_end r.epoch_size)) seen
                epoch_end count
                (retrieve_forced_included_txs v.da r.da_start_height r.epoch_size epoch_end) refl
                before l ev
                (λ s n.
                  check_epochs-Justified fuel (add_u64 epoch_end r.epoch_size) s n small
                    (next_room da_height epoch_end r.epoch_size small before)))
      ]

pub start_epoch_end-fits :
    (r : Rules) (seen : Seen)
    → 0 < r.epoch_size
    → r.da_start_height + 5 * r.epoch_size < 2 ^ 64
    → seen.last_checked + 5 * r.epoch_size < 2 ^ 64
    → start_epoch_end r seen + 4 * r.epoch_size < 2 ^ 64
unfolding start_epoch_end
start_epoch_end-fits r seen pos a b =
    if_both (λ (e : ℕ). e + 4 * r.epoch_size < 2 ^ 64)
      (seen.last_checked == 0
        || ltb seen.last_checked (sub_u64 (add_u64 r.da_start_height r.epoch_size) 1))
      (sub_u64 (add_u64 r.da_start_height r.epoch_size) 1) (add_u64 seen.last_checked r.epoch_size)
      (first r.da_start_height r.epoch_size pos a) (further seen.last_checked r.epoch_size b)
  where
    first :
        (s size : ℕ)
        → 0 < size
        → s + 5 * size < 2 ^ 64
        → sub_u64 (add_u64 s size) 1 + 4 * size < 2 ^ 64
    first s size pos a = omega arith

    further : (c size : ℕ) → c + 5 * size < 2 ^ 64 → add_u64 c size + 4 * size < 2 ^ 64
    further c size b = omega arith

pub positive : (b : Bool) (n : ℕ) → (not b || n == 0) ≡ false → 0 < n
positive true n h = ground arith
positive false n h = cc

pub not_before : (a b : ℕ) (c : Bool) → (ltb a b || c) ≡ false → b ≤ a
not_before a b c e = ground arith

-- A verdict that the sequencer is malicious names a forced transaction that passes the filter, of
-- an epoch that ended more than an epoch's size below the DA height, whose hash is not among those
-- recorded so far, or is recorded for a DA height from the last checked epoch's end on and more
-- than an epoch's size below the DA height, which the checks may have pruned. It assumes that the
-- block's gas limit can be read and that the DA height and the last checked epoch leave room for
-- five epochs below 2^64.
pub malicious-Evidence :
    (r : Rules) (v : View) (last_da da_height max_gas n : ℕ) (txs : List Bytes) (seen seen' : Seen)
    → v.max_gas ≡ some max_gas
    → da_height + 5 * r.epoch_size < 2 ^ 64
    → seen.last_checked + 5 * r.epoch_size < 2 ^ 64
    → verify_forced_inclusion_txs r v last_da da_height txs seen ≡ (seen', malicious n)
    → Evidence r v max_gas da_height (record_block r da_height txs seen)
unfolding verify_forced_inclusion_txs with_info record_block
malicious-Evidence r v last_da da_height max_gas n txs seen seen' gas small room h =
    let (a, h1) = else_of (not r.has_retriever || r.epoch_size == 0) h (λ e. cc) in
    let (b, h2) = else_of (ltb da_height r.da_start_height || ltb da_height last_da) h1 (λ e. cc) in
    let start = record_block r da_height txs seen in
    let started = not_before da_height r.da_start_height (ltb da_height last_da) b in
    subst (Justified r v max_gas da_height start) (rw gas at h2) (
      check_epochs-Justified r v max_gas da_height start (suc da_height) (start_epoch_end r start)
        start 0 small
        (start_epoch_end-fits r start (positive r.has_retriever r.epoch_size a) (omega arith) room)
        (omega arith, (λ k gone. inl gone), (λ k j among. among)) (λ pos. absurd (omega arith)))
