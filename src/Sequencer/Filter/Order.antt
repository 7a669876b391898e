-- ===== src/Sequencer/Filter/Order.antt =====
-- Forced transactions are consumed in order up to the first postponed one; no mempool transaction is
-- in the batch and put back at once, and only removed ones are in neither.
use chain_sdk.Base.{
  ℕ, suc, ◌+◌, ◌≤◌, ◌≡◌, refl, ap, ◌∙◌, Bool, true, false, List, [], ◌∷◌, ◌++◌, ltb, leb, arith,
  length,
}
use mathlib.Core.List.{append_assoc, append-nil}
use chain_sdk.Sequencer.Wal.{Tx}
use chain_sdk.Sequencer.Filter.{
  FilterStatus, filter_ok, filter_remove, filter_postpone, Sorted, none_sorted, sort_txs,
  postponed_mempool,
}

-- The transactions with a given verdict, in order.
abbrev pub passed : List FilterStatus → List Tx → List Tx
passed [] txs = []
passed (f ∷ fs) [] = []
passed (filter_ok ∷ fs) (tx ∷ txs) = tx ∷ passed fs txs
passed (filter_remove ∷ fs) (tx ∷ txs) = passed fs txs
passed (filter_postpone ∷ fs) (tx ∷ txs) = passed fs txs

abbrev pub postponed_of : List FilterStatus → List Tx → List Tx
postponed_of [] txs = []
postponed_of (f ∷ fs) [] = []
postponed_of (filter_ok ∷ fs) (tx ∷ txs) = postponed_of fs txs
postponed_of (filter_remove ∷ fs) (tx ∷ txs) = postponed_of fs txs
postponed_of (filter_postpone ∷ fs) (tx ∷ txs) = tx ∷ postponed_of fs txs

-- The statuses before the first postponement.
abbrev pub before_postpone : List FilterStatus → List FilterStatus
before_postpone [] = []
before_postpone (filter_ok ∷ fs) = filter_ok ∷ before_postpone fs
before_postpone (filter_remove ∷ fs) = filter_remove ∷ before_postpone fs
before_postpone (filter_postpone ∷ fs) = []

abbrev pub has_postpone : List FilterStatus → Bool
has_postpone [] = false
has_postpone (filter_ok ∷ fs) = has_postpone fs
has_postpone (filter_remove ∷ fs) = has_postpone fs
has_postpone (filter_postpone ∷ fs) = true

abbrev sorted_so_far : List Tx → List Tx → ℕ → Bool → Sorted
sorted_so_far vf vm c p = record {
  valid_forced = vf;
  valid_mempool = vm;
  consumed = c;
  postponed = p;
}

index_step : (i m n : ℕ) → i + suc m ≡ n → (ltb i n ≡ true) × (i + 1 + m ≡ n)
index_step i m n e = (ground arith, omega arith)

-- The first loop over forced transactions, once one was postponed.
sort_txs-stopped :
    (n i : ℕ) (fs gs : List FilterStatus) (txs us vf vm : List Tx) (c : ℕ)
    → length fs ≡ length txs
    → i + length fs ≡ n
    → sort_txs i n (fs ++ gs) (txs ++ us) (sorted_so_far vf vm c true)
      ≡ sort_txs n n gs us (sorted_so_far vf vm c true)
unfolding sort_txs
sort_txs-stopped n i [] gs [] us vf vm c e m =
    ap (λ (k : ℕ). sort_txs k n gs us (sorted_so_far vf vm c true)) (omega arith)
sort_txs-stopped n i [] gs (tx ∷ txs) us vf vm c e m = absurd (omega arith)
sort_txs-stopped n i (f ∷ fs) gs [] us vf vm c e m = absurd (omega arith)
sort_txs-stopped n i (f ∷ fs) gs (tx ∷ txs) us vf vm c e m =
    let step = index_step i (length fs) n m in
    rw step.0 (sort_txs-stopped n (i + 1) fs gs txs us vf vm c (omega arith) step.1)

sort_txs-forced :
    (n i : ℕ) (fs gs : List FilterStatus) (txs us vf vm : List Tx) (c : ℕ)
    → length fs ≡ length txs
    → i + length fs ≡ n
    → sort_txs i n (fs ++ gs) (txs ++ us) (sorted_so_far vf vm c false)
      ≡ sort_txs n n gs us (
          sorted_so_far
            (vf ++ passed (before_postpone fs) txs)
            vm
            (c + length (before_postpone fs))
            (has_postpone fs))
unfolding sort_txs
sort_txs-forced n i [] gs [] us vf vm c e m =
    let same : i ≡ n = omega arith in
    let count : c + 0 ≡ c = omega arith in rw (same, append-nil vf, count) refl
sort_txs-forced n i [] gs (tx ∷ txs) us vf vm c e m = absurd (omega arith)
sort_txs-forced n i (f ∷ fs) gs [] us vf vm c e m = absurd (omega arith)
sort_txs-forced n i (filter_ok ∷ fs) gs (tx ∷ txs) us vf vm c e m =
    let step = index_step i (length fs) n m in
    let count : c + suc (length (before_postpone fs)) ≡ c + 1 + length (before_postpone fs) =
      omega arith in
    rw (step.0, count, ← append_assoc vf (tx ∷ []) (passed (before_postpone fs) txs))
      (sort_txs-forced n (i + 1) fs gs txs us (vf ++ tx ∷ []) vm (c + 1) (omega arith) step.1)
sort_txs-forced n i (filter_remove ∷ fs) gs (tx ∷ txs) us vf vm c e m =
    let step = index_step i (length fs) n m in
    let count : c + suc (length (before_postpone fs)) ≡ c + 1 + length (before_postpone fs) =
      omega arith in
    rw (step.0, count) (sort_txs-forced n (i + 1) fs gs txs us vf vm (c + 1) (omega arith) step.1)
sort_txs-forced n i (filter_postpone ∷ fs) gs (tx ∷ txs) us vf vm c e m =
    let step = index_step i (length fs) n m in
    let count : c + 0 ≡ c = omega arith in
    rw (step.0, append-nil vf, count)
      (sort_txs-stopped n (i + 1) fs gs txs us vf vm c (omega arith) step.1)

sort_txs-mempool :
    (n i : ℕ) (gs : List FilterStatus) (us vf vm : List Tx) (c : ℕ) (p : Bool)
    → n ≤ i
    → sort_txs i n gs us (sorted_so_far vf vm c p) ≡ sorted_so_far vf (vm ++ passed gs us) c p
unfolding sort_txs
sort_txs-mempool n i [] us vf vm c p h = rw (append-nil vm) refl
sort_txs-mempool n i (g ∷ gs) [] vf vm c p h = rw (append-nil vm) refl
sort_txs-mempool n i (filter_ok ∷ gs) (u ∷ us) vf vm c p h =
    let past : ltb i n ≡ false = ground arith in
    rw (past, ← append_assoc vm (u ∷ []) (passed gs us))
      (sort_txs-mempool n (i + 1) gs us vf (vm ++ u ∷ []) c p (omega arith))
sort_txs-mempool n i (filter_remove ∷ gs) (u ∷ us) vf vm c p h =
    let past : ltb i n ≡ false = ground arith in
    rw past (sort_txs-mempool n (i + 1) gs us vf vm c p (omega arith))
sort_txs-mempool n i (filter_postpone ∷ gs) (u ∷ us) vf vm c p h =
    let past : ltb i n ≡ false = ground arith in
    rw past (sort_txs-mempool n (i + 1) gs us vf vm c p (omega arith))

postponed_mempool-forced :
    (n i : ℕ) (fs gs : List FilterStatus) (txs us : List Tx)
    → length fs ≡ length txs
    → i + length fs ≡ n
    → postponed_mempool i n (fs ++ gs) (txs ++ us) ≡ postponed_mempool n n gs us
unfolding postponed_mempool
postponed_mempool-forced n i [] gs [] us e m =
    ap (λ (k : ℕ). postponed_mempool k n gs us) (omega arith)
postponed_mempool-forced n i [] gs (tx ∷ txs) us e m = absurd (omega arith)
postponed_mempool-forced n i (f ∷ fs) gs [] us e m = absurd (omega arith)
postponed_mempool-forced n i (f ∷ fs) gs (tx ∷ txs) us e m =
    let step = index_step i (length fs) n m in
    let early : leb n i ≡ false = ground arith in
    rw (early, postponed_mempool)
      (postponed_mempool-forced n (i + 1) fs gs txs us (omega arith) step.1)

postponed_mempool-mempool :
    (n i : ℕ) (gs : List FilterStatus) (us : List Tx)
    → n ≤ i
    → postponed_mempool i n gs us ≡ postponed_of gs us
unfolding postponed_mempool
postponed_mempool-mempool n i [] us h = refl
postponed_mempool-mempool n i (g ∷ gs) [] h = ground arith
postponed_mempool-mempool n i (filter_ok ∷ gs) (u ∷ us) h =
    let past : leb n i ≡ true = ground arith in
    rw (past, postponed_mempool) (postponed_mempool-mempool n (i + 1) gs us (omega arith))
postponed_mempool-mempool n i (filter_remove ∷ gs) (u ∷ us) h =
    let past : leb n i ≡ true = ground arith in
    rw (past, postponed_mempool) (postponed_mempool-mempool n (i + 1) gs us (omega arith))
postponed_mempool-mempool n i (filter_postpone ∷ gs) (u ∷ us) h =
    let past : leb n i ≡ true = ground arith in
    rw (past, postponed_mempool)
      (ap (λ r. u ∷ r) (postponed_mempool-mempool n (i + 1) gs us (omega arith)))

-- For one status per transaction, the loops of GetNextBatch consume the forced transactions before
-- the first postponed one and batch the accepted ones of them in order; of the mempool's, they
-- batch the accepted ones and put back exactly the postponed ones.
pub sort_txs_lem :
    (fs gs : List FilterStatus) (forced mempool : List Tx)
    → length fs ≡ length forced
    → (sort_txs 0 (length forced) (fs ++ gs) (forced ++ mempool) none_sorted ≡ record {
      valid_forced = passed (before_postpone fs) forced;
      valid_mempool = passed gs mempool;
      consumed = length (before_postpone fs);
      postponed = has_postpone fs;
    })
      × (postponed_mempool 0 (length forced) (fs ++ gs) (forced ++ mempool)
          ≡ postponed_of gs mempool)
sort_txs_lem fs gs forced mempool e =
    let n = length forced in
    (
      sort_txs-forced n 0 fs gs forced mempool [] [] 0 e (omega arith)
          ∙ sort_txs-mempool n n gs mempool (passed (before_postpone fs) forced) []
              (0 + length (before_postpone fs)) (has_postpone fs) (omega arith)
          ∙ ap
              (λ (c : ℕ).
                sorted_so_far (passed (before_postpone fs) forced) (passed gs mempool) c
                  (has_postpone fs))
              (omega arith),
      postponed_mempool-forced n 0 fs gs forced mempool e (omega arith)
          ∙ postponed_mempool-mempool n n gs mempool (omega arith),
    )
