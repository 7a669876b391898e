-- ===== src/Sequencer/Filter.antt =====
-- The loops of GetNextBatch (pkg/sequencers/single/sequencer.go) over the filter statuses that the
-- execution layer returns, one for each transaction: first the forced ones, then the mempool's.
pub mod Order
use chain_sdk.Base.{ℕ, suc, ◌+◌, Bool, true, false, List, [], ◌∷◌, ◌++◌, ltb, leb, ◌&&◌}
use chain_sdk.Sequencer.Wal.{Tx}

pub data FilterStatus : Type 0 where
  filter_ok filter_remove filter_postpone : FilterStatus

pub record Sorted : Type 0 where
  pub valid_forced : List Tx
  pub valid_mempool : List Tx
  pub consumed : ℕ
  pub postponed : Bool

abbrev pub none_sorted : Sorted
none_sorted = record { valid_forced = []; valid_mempool = []; consumed = 0; postponed = false }

-- A forced transaction, by whether one was postponed before it, and by its status.
sort_forced : Bool → FilterStatus → Tx → Sorted → Sorted
sort_forced true status tx s = s
sort_forced false filter_ok tx s = record s {
  valid_forced = s.valid_forced ++ tx ∷ [];
  consumed = s.consumed + 1;
}
sort_forced false filter_remove tx s = record s { consumed = s.consumed + 1 }
sort_forced false filter_postpone tx s = record s { postponed = true }

sort_mempool : FilterStatus → Tx → Sorted → Sorted
sort_mempool filter_ok tx s = record s { valid_mempool = s.valid_mempool ++ tx ∷ [] }
sort_mempool filter_remove tx s = s
sort_mempool filter_postpone tx s = s

sort_one : Bool → FilterStatus → Tx → Sorted → Sorted
unfolding sort_forced sort_mempool
sort_one true status tx s = sort_forced s.postponed status tx s
sort_one false status tx s = sort_mempool status tx s

-- `i` is the loop's index.
pub sort_txs : ℕ → ℕ → List FilterStatus → List Tx → Sorted → Sorted
unfolding sort_one
sort_txs i forced_count [] txs s = s
sort_txs i forced_count (status ∷ statuses) [] s = s
sort_txs i forced_count (status ∷ statuses) (tx ∷ txs) s =
    sort_txs (i + 1) forced_count statuses txs (sort_one (ltb i forced_count) status tx s)

is_postpone : FilterStatus → Bool
is_postpone filter_ok = false
is_postpone filter_remove = false
is_postpone filter_postpone = true

-- The second loop: mempool transactions to put back.
pub postponed_mempool : ℕ → ℕ → List FilterStatus → List Tx → List Tx
unfolding is_postpone
postponed_mempool i forced_count [] txs = []
postponed_mempool i forced_count (status ∷ statuses) [] = []
postponed_mempool i forced_count (status ∷ statuses) (tx ∷ txs) =
    let rest = postponed_mempool (i + 1) forced_count statuses txs in
    elim (leb forced_count i && is_postpone status) [ true ↦ tx ∷ rest | false ↦ rest ]
