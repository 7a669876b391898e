-- ===== src/Da/ForcedInclusion/Tests.antt =====
-- The forced inclusion retriever at concrete inputs.
use chain_sdk.Base.{ℕ, suc, zero, refl, true, [], ◌∷◌, arith}
use chain_sdk.Epoch.{calculate_epoch_number, calculate_epoch_boundaries}
use chain_sdk.Da.ForcedInclusion.{
  DaView, CacheAnswer, cache_miss, cache_hit, success, heights_from, retrieve_forced_included_txs,
}
use chain_sdk.Da.ForcedInclusion.Epochs.{IsEvent, epoch_txs, epoch_heights, epoch_end_lem}

-- Only the block of height 1 is cached.
abbrev cached_at : ℕ → CacheAnswer
cached_at (suc zero) = cache_hit (record { blobs = (1 ∷ []) ∷ [] ∷ []; timestamp = 5 })
cached_at _ = cache_miss

abbrev half_cached : DaView
half_cached = record {
  has_namespace = true;
  get_cached_block = cached_at;
  retrieve = λ h. record { code = success; found = (h ∷ []) ∷ []; timestamp = 7 };
}

epoch_end_lem_example :
    IsEvent
      (retrieve_forced_included_txs half_cached 0 2 1)
      (calculate_epoch_boundaries 1 0 2).start
      1
      (epoch_txs half_cached (epoch_heights (calculate_epoch_boundaries 1 0 2)))
unfolding calculate_epoch_number calculate_epoch_boundaries heights_from
epoch_end_lem_example =
    epoch_end_lem half_cached 0 2 1 refl (omega arith) refl ((_, refl), ((_, refl), tt))
