-- ===== src/Syncing/Forced/Pruned.antt =====
-- What the pruning of seen transactions forgets.
use chain_sdk.Base.{
  ℕ, zero, suc, ◌+◌, ◌-◌, ◌<◌, ◌≤◌, ◌≡◌, ◌==◌, inl, inr, refl, ◌∙◌, subst, true, false, Bool-cases,
  if_both, arith,
}
use chain_sdk.Cache.{Hash, at_height}
use chain_sdk.Syncing.Forced.{Seen, is_among, prune_height, prune_heights, prune_up_to}

gone_stays :
    (n h : ℕ) (seen : Seen) (x : Hash) → seen.txs x ≡ false → (prune_heights n h seen).txs x ≡ false
unfolding prune_heights prune_height
gone_stays zero h seen x gone = gone
gone_stays (suc n) h seen x gone =
    gone_stays n (suc h) (prune_height h seen) x
      (if_both (λ b. b ≡ false) (is_among x (seen.txs_by_height h)) _ _ refl gone)

same_height : (k h : ℕ) → (k == h) ≡ true → k ≡ h
same_height k h e = ground arith

above_kept :
    (n h k : ℕ) (seen : Seen)
    → h + n ≤ k
    → (prune_heights n h seen).txs_by_height k ≡ seen.txs_by_height k
unfolding prune_heights prune_height at_height
above_kept zero h k seen le = refl
above_kept (suc n) h k seen le =
    let ne : (k == h) ≡ false = ground arith in
    above_kept n (suc h) k (prune_height h seen) (omega arith) ∙ rw ne refl

prune_heights-forget :
    (n h k : ℕ) (seen : Seen) (x : Hash)
    → h ≤ k
    → k < h + n
    → is_among x (seen.txs_by_height k) ≡ true
    → (prune_heights n h seen).txs x ≡ false
unfolding prune_heights prune_height at_height
prune_heights-forget zero h k seen x a b among = absurd (omega arith)
prune_heights-forget (suc n) h k seen x a b among = elim (Bool-cases (k == h)) [
  | inl y ↦ gone_stays n (suc h) (prune_height h seen) x (
      rw (subst (λ (i : ℕ). is_among x (seen.txs_by_height i) ≡ true) (same_height k h y) among)
        refl)
  | inr ne ↦
      prune_heights-forget n (suc h) k (prune_height h seen) x (ground arith) (omega arith)
        (rw ne among)
]

-- Pruning takes a transaction that was recorded for a pruned height out of those that count as
-- seen, also where it was recorded again for a later height, whose record is kept and lists it.
pub prune_up_to-forgets :
    (up_to k later : ℕ) (seen : Seen) (x : Hash)
    → seen.last_checked ≤ k
    → k ≤ up_to
    → up_to < later
    → is_among x (seen.txs_by_height k) ≡ true
    → is_among x (seen.txs_by_height later) ≡ true
    → ((prune_up_to up_to seen).txs x ≡ false)
      × (is_among x ((prune_up_to up_to seen).txs_by_height later) ≡ true)
unfolding prune_up_to
prune_up_to-forgets up_to k later seen x from to after among again =
    let n = up_to + 1 - seen.last_checked in
    (
      prune_heights-forget n seen.last_checked k seen x from (omega arith) among,
      rw (above_kept n seen.last_checked later seen (omega arith)) again,
    )
