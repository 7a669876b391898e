-- ===== src/Syncing/Priority/Tests.antt =====
-- The queue at concrete inputs.
use chain_sdk.Base.{◌≡◌, refl, [], ◌∷◌}
use chain_sdk.Syncing.Priority.{queue_priority_height}

between : queue_priority_height 5 (3 ∷ 7 ∷ []) ≡ 3 ∷ 5 ∷ 7 ∷ []
unfolding queue_priority_height
between = refl

known : queue_priority_height 7 (3 ∷ 7 ∷ []) ≡ 3 ∷ 7 ∷ []
unfolding queue_priority_height
known = refl
