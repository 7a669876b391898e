-- ===== src/Epoch/Bounds.antt =====
-- Epochs of types/epoch.go are consecutive ranges of DA heights.
use chain_sdk.Base.{ℕ, ◌+◌, ◌-◌, ◌*◌, ◌/◌, ◌%◌, ◌≤◌, ◌<◌, ◌≡◌, ◌↔◌, ap, arith, u64_mod}
use native.Mathlib.Decide.{dec_le}
use chain_sdk.Epoch.{calculate_epoch_number, calculate_epoch_boundaries}

-- The epochs before a height, and its offset in its epoch.
record Position (h s e : ℕ) : Type 0 where
  q : ℕ
  r : ℕ
  split : q * e + r + s ≡ h
  small : r < e
  count : q ≤ h
  quotient : (h - s) / e ≡ q
  scaled : (q + 1) * e ≡ q * e + e

position : (h s e : ℕ) → s ≤ h → 0 < e → Position h s e
position h s e sh pos = record {
  q = (h - s) / e;
  r = (h - s) % e;
  split = omega arith;
  small = omega arith;
  count = grind arith;
  quotient = omega arith;
  scaled = omega arith;
}

module _ (h s e : ℕ) (after : s ≤ h) (pos : 0 < e) (fits : h + e < u64_mod) where
  number_lem : (p : Position h s e) → calculate_epoch_number h s e ≡ p.q + 1
  unfolding calculate_epoch_number
  number_lem p = ground arith

  start_lem : (p : Position h s e) → (calculate_epoch_boundaries h s e).start ≡ s + p.q * e
  unfolding calculate_epoch_boundaries
  start_lem p = ground (arith, number_lem p)

  end_lem : (p : Position h s e) → (calculate_epoch_boundaries h s e).end + 1 ≡ s + p.q * e + e
  unfolding calculate_epoch_boundaries
  end_lem p = ground (arith, number_lem p)

  -- For a height at or after the start height, a positive epoch size and no overflow of uint64, the
  -- boundaries enclose the height and are one epoch size apart.
  boundaries_enclose :
      ((calculate_epoch_boundaries h s e).start ≤ h)
      × (h ≤ (calculate_epoch_boundaries h s e).end)
      × ((calculate_epoch_boundaries h s e).end + 1 ≡ (calculate_epoch_boundaries h s e).start + e)
  boundaries_enclose =
      let p = position h s e after pos in
      (
        omega (arith, start_lem p, p.split),
        omega (arith, end_lem p, p.split, p.small),
        omega (arith, start_lem p, end_lem p),
      )

count-le : (a b e : ℕ) → a * e < b * e + e → a ≤ b
count-le a b e h = grind arith

-- Two heights from the start height on stand in the same epoch exactly when the later lies within
-- the boundaries of the earlier one's epoch, for a positive epoch size and no overflow.
same_epoch_iff :
    (h k s e : ℕ)
    → s ≤ h
    → h ≤ k
    → 0 < e
    → k + e < u64_mod
    → (calculate_epoch_number h s e ≡ calculate_epoch_number k s e)
      ↔ (k ≤ (calculate_epoch_boundaries h s e).end)
same_epoch_iff h k s e sh hk pos fits =
    let p = position h s e sh pos in
    let q = position k s e (omega arith) pos in
    let lower = number_lem h s e sh pos (omega arith) p in
    let upper = number_lem k s e (omega arith) pos fits q in
    let last = end_lem h s e sh pos (omega arith) p in
    (
      λ same.
          let eq : p.q ≡ q.q = omega (arith, lower, upper, same) in
          omega (arith, last, q.split, q.small, ap (λ (n : ℕ). n * e) eq),
      λ within.
          let up : q.q ≤ p.q = count-le q.q p.q e (omega (arith, last, q.split)) in
          let down : p.q ≤ q.q = count-le p.q q.q e (omega (arith, p.split, q.split, q.small)) in
          omega (arith, lower, upper),
    )

-- For a height from the start height on, the height after its epoch's end has the next epoch number
-- and is the start of that epoch, for a positive epoch size and no overflow: epochs leave no gap
-- and do not overlap.
next_epoch_lem :
    (h s e : ℕ)
    → s ≤ h
    → 0 < e
    → h + e + e < u64_mod
    → (calculate_epoch_number ((calculate_epoch_boundaries h s e).end + 1) s e
        ≡ calculate_epoch_number h s e + 1)
      × ((calculate_epoch_boundaries ((calculate_epoch_boundaries h s e).end + 1) s e).start
          ≡ (calculate_epoch_boundaries h s e).end + 1)
next_epoch_lem h s e sh pos fits =
    let p = position h s e sh pos in
    let last = end_lem h s e sh pos (omega arith) p in
    let number = number_lem h s e sh pos (omega arith) p in
    let k = (calculate_epoch_boundaries h s e).end + 1 in
    let room : k + e < u64_mod = omega (arith, last, p.split) in
    let next = position k s e (omega (arith, last)) pos in
    let scaled : (p.q + 1) * e ≡ p.q * e + e = p.scaled in
    let up : next.q ≤ p.q + 1 = count-le next.q (p.q + 1) e (omega (arith, last, next.split)) in
    let down : p.q + 1 ≤ next.q =
      count-le (p.q + 1) next.q e (omega (arith, last, next.split, next.small)) in
    let same : next.q ≡ p.q + 1 = omega arith in
    (
      omega (arith, number, number_lem k s e (omega (arith, last)) pos room next),
      omega (
        arith,
        start_lem k s e (omega (arith, last)) pos room next,
        last,
        ap (λ (n : ℕ). n * e) same,
      ),
    )

-- A number of 64 bits.
pub number-le : (h s e : ℕ) → 0 < e → h + e < u64_mod → calculate_epoch_number h s e < u64_mod
unfolding calculate_epoch_number
number-le h s e pos fits = ground arith

number_before : (h s e : ℕ) → h < s → calculate_epoch_number h s e ≡ 0
unfolding calculate_epoch_number
number_before h s e lt = ground arith

-- A later height is in no earlier epoch.
pub number_mono :
    (h k s e : ℕ)
    → h ≤ k
    → 0 < e
    → k + e < u64_mod
    → calculate_epoch_number h s e ≤ calculate_epoch_number k s e
number_mono h k s e hk pos fits = elim (dec_le s h) [
  | yes sh ↦
      let p = position h s e sh pos in
      let q = position k s e (omega arith) pos in
      let up = count-le p.q q.q e (omega (arith, p.split, q.split, q.small)) in
      omega
        (arith, number_lem h s e sh pos (omega arith) p, number_lem k s e (omega arith) pos fits q)
  | no early ↦ omega (arith, number_before h s e (omega arith))
]
