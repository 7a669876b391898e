-- ===== src/Syncing/Forced/Ends.antt =====
-- That the check of forced inclusion ends.
use chain_sdk.Base.{
  ◌^◌, add_u64, ℕ, zero, suc, ◌+◌, ◌*◌, ◌<◌, ◌≤◌, ◌≢◌, ◌==◌, inl, inr, not, ◌||◌, Bool-cases,
  Option, none, some, List, [], ◌∷◌, ltb, leb, if_both, arith, Bytes,
}
use chain_sdk.Da.ForcedInclusion.{
  RetrieveOutcome, not_configured, before_start, from_future, event, retrieve_forced_included_txs,
}
use chain_sdk.Sequencer.Filter.{FilterStatus}
use chain_sdk.Syncing.Forced.Verdicts.{
  boundary_past, next_room, start_epoch_end-fits, positive, not_before,
}
use chain_sdk.Syncing.Forced.{
  Seen, Rules, View, Verdict, out_of_fuel, verdict, grace_boundary, on_statuses, on_txs, on_epoch,
  check_epochs, record_block, with_info, verify_forced_inclusion_txs,
}

on_epoch-ends :
    (r : Rules) (v : View) (max_gas da_height : ℕ) (next : Seen → ℕ → Seen × Verdict) (seen : Seen)
    (epoch_end count : ℕ) (o : RetrieveOutcome)
    → ((s : Seen) (n : ℕ) → (next s n).1 ≢ out_of_fuel)
    → (on_epoch r v max_gas da_height next seen epoch_end count o).1 ≢ out_of_fuel
unfolding on_epoch on_txs
on_epoch-ends r v max_gas da_height next seen epoch_end count not_configured g = λ e. cc
on_epoch-ends r v max_gas da_height next seen epoch_end count before_start g = λ e. cc
on_epoch-ends r v max_gas da_height next seen epoch_end count (from_future h) g = λ e. cc
on_epoch-ends r v max_gas da_height next seen epoch_end count (event e) g = with_txs e.txs
  where
    with_statuses :
        (txs : List Bytes) (o : Option (List FilterStatus))
        → (on_statuses r v max_gas da_height next seen epoch_end count txs o).1 ≢ out_of_fuel
    with_statuses txs none = λ e. cc
    with_statuses txs (some statuses) = g _ _

    with_txs :
        (txs : List Bytes)
        → (on_txs r v max_gas da_height next seen epoch_end count txs).1 ≢ out_of_fuel
    with_txs [] = g _ _
    with_txs (tx ∷ txs) = with_statuses (tx ∷ txs) _

verdict-ends : (n : ℕ) → verdict n ≢ out_of_fuel
unfolding verdict
verdict-ends n = if_both (λ x. x ≢ out_of_fuel) (ltb 0 n) _ _ (λ e. cc) (λ e. cc)

check_epochs-ends :
    (r : Rules) (v : View) (max_gas da_height fuel epoch_end : ℕ) (seen : Seen) (count : ℕ)
    → 0 < r.epoch_size
    → da_height + 5 * r.epoch_size < 2 ^ 64
    → epoch_end + 4 * r.epoch_size < 2 ^ 64
    → da_height ≤ epoch_end + fuel
    → (check_epochs r v max_gas da_height (suc fuel) epoch_end seen count).1 ≢ out_of_fuel
unfolding check_epochs
check_epochs-ends r v max_gas da_height zero epoch_end seen count pos small room le =
    elim (Bool-cases (leb da_height (grace_boundary r seen epoch_end))) [
      | inl y ↦ rw y (verdict-ends count)
      | inr n ↦ absurd (past_end (boundary_past r da_height seen epoch_end room n))
    ]
  where
    past_end : epoch_end + r.epoch_size < da_height → ⊥
    past_end lt = omega arith
check_epochs-ends r v max_gas da_height (suc fuel) epoch_end seen count pos small room le =
    elim (Bool-cases (leb da_height (grace_boundary r seen epoch_end))) [
      | inl y ↦ rw y (verdict-ends count)
      | inr n ↦
          let before = boundary_past r da_height seen epoch_end room n in
          rw n (
            on_epoch-ends r v max_gas da_height
              (check_epochs r v max_gas da_height (suc fuel) (add_u64 epoch_end r.epoch_size)) seen
              epoch_end count
              (retrieve_forced_included_txs v.da r.da_start_height r.epoch_size epoch_end)
              (λ s n.
                check_epochs-ends r v max_gas da_height fuel (add_u64 epoch_end r.epoch_size) s n
                  pos small (next_room da_height epoch_end r.epoch_size small before)
                  (gets_there epoch_end r.epoch_size pos room le)))
    ]
  where
    gets_there :
        (e size : ℕ)
        → 0 < size
        → e + 4 * size < 2 ^ 64
        → da_height ≤ e + suc fuel
        → da_height ≤ add_u64 e size + fuel
    gets_there e size pos room le = omega arith

-- The check ends: its loop over the epochs does not run out of fuel, where the DA height and the end
-- of the last checked epoch leave room for five epochs below 2^64.
verify-ends :
    (r : Rules) (v : View) (last_da da_height : ℕ) (txs : List Bytes) (seen : Seen)
    → da_height + 5 * r.epoch_size < 2 ^ 64
    → seen.last_checked + 5 * r.epoch_size < 2 ^ 64
    → (verify_forced_inclusion_txs r v last_da da_height txs seen).1 ≢ out_of_fuel
unfolding verify_forced_inclusion_txs with_info record_block
verify-ends r v last_da da_height txs seen small room =
    elim (Bool-cases (not r.has_retriever || r.epoch_size == 0)) [
      | inl y ↦ rw y (λ e. cc)
      | inr n ↦ elim (Bool-cases (ltb da_height r.da_start_height || ltb da_height last_da)) [
        | inl y ↦ rw (n, y) (λ e. cc)
        | inr m ↦
            rw (n, m)
              (with_gas (positive r.has_retriever r.epoch_size n)
                (not_before da_height r.da_start_height (ltb da_height last_da) m) v.max_gas)
      ]
    ]
  where
    with_gas :
        0 < r.epoch_size
        → r.da_start_height ≤ da_height
        → (o : Option ℕ)
        → (with_info r v da_height (record_block r da_height txs seen) o).1 ≢ out_of_fuel
    with_gas pos started none = λ e. cc
    with_gas pos started (some max_gas) =
        check_epochs-ends r v max_gas da_height da_height _ _ 0 pos small
          (start_epoch_end-fits r (record_block r da_height txs seen) pos (omega arith) room)
          (omega arith)
