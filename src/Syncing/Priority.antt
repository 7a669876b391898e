-- ===== src/Syncing/Priority.antt =====
-- The queue of priority DA heights of block/internal/syncing/da_retriever.go.
pub mod Sorted
mod Tests
use chain_sdk.Base.{ℕ, ◌==◌, Bool, true, false, List, [], ◌∷◌, ltb, if◌then◌else◌}

-- QueuePriorityHeight: slices.BinarySearch in the sorted queue finds the height, or the place to
-- insert it at.
unfoldable pub queue_priority_height : ℕ → List ℕ → List ℕ
queue_priority_height h [] = h ∷ []
queue_priority_height h (k ∷ ks) =
    let rest = queue_priority_height h ks in
    if ltb h k then h ∷ k ∷ ks else if h == k then k ∷ ks else k ∷ rest

-- PopPriorityHeight: 0 when there is none.
pub pop_priority_height : List ℕ → List ℕ × ℕ
pop_priority_height [] = ([], 0)
pop_priority_height (h ∷ hs) = (hs, h)
