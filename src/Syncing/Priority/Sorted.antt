-- ===== src/Syncing/Priority/Sorted.antt =====
-- The queue of priority DA heights stays sorted.
use chain_sdk.Base.{ℕ, ◌<◌, ◌≡◌, ◌==◌, inl, inr, Bool-cases, List, [], ◌∷◌, ltb, arith}
use chain_sdk.Syncing.Priority.{queue_priority_height, pop_priority_height}

-- Every height of the list is above h.
AllAbove : ℕ → List ℕ → Type 0
AllAbove h [] = Unit {0}
AllAbove h (k ∷ ks) = (h < k) × AllAbove h ks

-- In ascending order, none twice.
IsAscending : List ℕ → Type 0
unfolding AllAbove
IsAscending [] = Unit {0}
IsAscending (k ∷ ks) = AllAbove k ks × IsAscending ks

pub data IsIn (h : ℕ) : List ℕ → Type 0 where
  here : {ks : List ℕ} → IsIn h (h ∷ ks)
  there : {k : ℕ} {ks : List ℕ} → IsIn h ks → IsIn h (k ∷ ks)

above_trans : (h k : ℕ) (ks : List ℕ) → h < k → AllAbove k ks → AllAbove h ks
unfolding AllAbove
above_trans h k [] lt a = tt
above_trans h k (j ∷ js) lt (b, a) = (omega arith, above_trans h k js lt a)

above_queue :
    (k h : ℕ) (ks : List ℕ) → k < h → AllAbove k ks → AllAbove k (queue_priority_height h ks)
unfolding AllAbove queue_priority_height
above_queue k h [] lt a = (lt, tt)
above_queue k h (j ∷ js) lt (b, a) = elim (Bool-cases (ltb h j)) [
  | inl y ↦ rw y (lt, (b, a))
  | inr n ↦ elim (Bool-cases (h == j)) [
    | inl y ↦ rw (n, y) (b, a)
    | inr ne ↦ rw (n, ne) (b, above_queue k h js lt a)
  ]
]

-- Queueing keeps the queue in ascending order without repetition, and the height is in it.
IsAscending-queue :
    (h : ℕ) (ks : List ℕ)
    → IsAscending ks
    → IsAscending (queue_priority_height h ks) × IsIn h (queue_priority_height h ks)
unfolding IsAscending AllAbove queue_priority_height
IsAscending-queue h [] a = ((tt, tt), here)
IsAscending-queue h (k ∷ ks) (a, s) = elim (Bool-cases (ltb h k)) [
  | inl y ↦ (let lt : h < k = ground arith in rw y (((lt, above_trans h k ks lt a), (a, s)), here))
  | inr n ↦ elim (Bool-cases (h == k)) [
    | inl y ↦ (let e : h ≡ k = ground arith in rw (n, y) ((a, s), rw e here))
    | inr ne ↦
        (let (s', i) = IsAscending-queue h ks s in
          rw (n, ne) ((above_queue k h ks (ground arith) a, s'), there i))
  ]
]

-- What is popped from a queue in ascending order is below all that is left, which is in order too.
IsAscending-pop :
    (h : ℕ) (ks : List ℕ)
    → IsAscending (h ∷ ks)
    → AllAbove (pop_priority_height (h ∷ ks)).1 (pop_priority_height (h ∷ ks)).0
      × IsAscending (pop_priority_height (h ∷ ks)).0
unfolding IsAscending pop_priority_height
IsAscending-pop h ks s = s
