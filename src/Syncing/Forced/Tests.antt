-- ===== src/Syncing/Forced/Tests.antt =====
-- The check of forced inclusion at concrete inputs.
use chain_sdk.Base.{ℕ, ◌≡◌, refl, true, false, some, List, [], ◌∷◌, map, arith, bytes_equal}
use chain_sdk.Epoch.{calculate_epoch_number, calculate_epoch_boundaries}
use chain_sdk.Cache.{Hash}
use chain_sdk.Da.ForcedInclusion.{
  DaView, cache_miss, success, lookup_block, non_empty, heights_from, from_cache, fetch_missing,
  retrieve_forced_included_txs,
}
use chain_sdk.Sequencer.Filter.{filter_ok}
use chain_sdk.Syncing.Forced.{
  Seen, Rules, View, is_among, prune_up_to, malicious, record_block, verify_forced_inclusion_txs,
}
use chain_sdk.Syncing.Forced.Verdicts.{Evidence, malicious-Evidence}
use chain_sdk.Syncing.Forced.Pruned.{prune_up_to-forgets}

abbrev rules : Rules
rules = record {
  has_retriever = true;
  epoch_size = 1;
  da_start_height = 1;
  fullness_threshold = 4194304;
  hash_tx = λ tx. tx;
}

-- One forced transaction at each DA height.
abbrev da : DaView
da = record {
  has_namespace = true;
  get_cached_block = λ h. cache_miss;
  retrieve = λ h. record { code = success; found = (h ∷ []) ∷ []; timestamp = 7 };
}

abbrev view : View
view = record { da = da; max_gas = some 9; filter_txs = λ txs gas. some (map (λ _. filter_ok) txs) }

abbrev nothing : Seen
nothing = record {
  txs = λ _. false;
  txs_by_height = λ _. [];
  block_bytes = λ _. 0;
  last_checked = 0;
}

accuses :
    verify_forced_inclusion_txs rules view 0 4 ((2 ∷ []) ∷ []) nothing
    ≡ ((verify_forced_inclusion_txs rules view 0 4 ((2 ∷ []) ∷ []) nothing).0, malicious 1)
unfolding verify_forced_inclusion_txs retrieve_forced_included_txs bytes_equal heights_from
    lookup_block fetch_missing from_cache calculate_epoch_number calculate_epoch_boundaries
    non_empty
accuses = refl

malicious-Evidence_example : Evidence rules view 9 4 (record_block rules 4 ((2 ∷ []) ∷ []) nothing)
malicious-Evidence_example =
    malicious-Evidence rules view 0 4 9 1 ((2 ∷ []) ∷ []) nothing
      (verify_forced_inclusion_txs rules view 0 4 ((2 ∷ []) ∷ []) nothing).0 refl (omega arith)
      (omega arith) accuses

-- The same transaction was recorded for the heights 2 and 8.
abbrev twice : ℕ → List Hash
twice h = (7 ∷ []) ∷ []

abbrev recorded : Seen
recorded = record nothing { txs = λ _. true; txs_by_height = twice }

is_seven : is_among (7 ∷ []) (twice 2) ≡ true
unfolding is_among bytes_equal
is_seven = refl

prune_up_to-forgets_example :
    ((prune_up_to 5 recorded).txs (7 ∷ []) ≡ false)
    × (is_among (7 ∷ []) ((prune_up_to 5 recorded).txs_by_height 8) ≡ true)
prune_up_to-forgets_example =
    prune_up_to-forgets 5 2 8 recorded (7 ∷ []) (omega arith) (omega arith) (omega arith) is_seven
      is_seven
