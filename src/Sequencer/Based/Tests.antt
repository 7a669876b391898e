-- ===== src/Sequencer/Based/Tests.antt =====
-- The based sequencer at concrete inputs.
use chain_sdk.Base.{
  ℕ, ap, ◌∙◌, ◌+◌, ◌<◌, ◌≤◌, ◌≡◌, refl, List, [], ◌∷◌, map, Option, none, some, arith, Bool, true,
  u64_mod, length, length-map, drop,
}
use chain_sdk.Da.ForcedInclusion.{DaView, cache_miss, other_error}
use chain_sdk.Sequencer.Wal.{Tx}
use chain_sdk.Sequencer.TestData.{some-injective, cell}
use chain_sdk.Sequencer.Checkpoint.{load}
use chain_sdk.Sequencer.Filter.{FilterStatus, filter_ok, filter_remove, filter_postpone}
use chain_sdk.Sequencer.Filter.Order.{passed}
use chain_sdk.Sequencer.Single.{Env, Request, Genesis}
use chain_sdk.Sequencer.Based.{
  State, fetched, new_based_sequencer, remaining, build_batch, get_next_batch, statuses_of,
}
use chain_sdk.Sequencer.Based.Calls.{consumed_of, RepliesWith, build_batch-consumes}
use chain_sdk.Sequencer.Based.Heights.{checkpoint_goes_back}

abbrev genesis : Genesis
genesis = record { da_start_height = 10; da_epoch_size = 5 }

abbrev tx : ℕ → Tx
tx n = n ∷ []

-- One byte passes, more are postponed.
abbrev verdict : Tx → FilterStatus
verdict [] = filter_remove
verdict (x ∷ []) = filter_ok
verdict (x ∷ y ∷ ts) = filter_postpone

abbrev verdicts : List Tx → ℕ → ℕ → Bool → Option (List FilterStatus)
verdicts txs max_bytes max_gas forced = some (map verdict txs)

verdicts-length :
    (txs : List Tx) (max_bytes max_gas : ℕ) (forced : Bool) (statuses : List FilterStatus)
    → verdicts txs max_bytes max_gas forced ≡ some statuses
    → length statuses ≡ length txs
verdicts-length txs max_bytes max_gas forced statuses h =
    ap length (some-injective h) ∙ length-map txs verdict

abbrev da_down : DaView
da_down = record {
  has_namespace = true;
  get_cached_block = λ h. cache_miss;
  retrieve = λ h. record { code = other_error; found = []; timestamp = 0 };
}

abbrev env : Env
env = record {
  da = da_down;
  latest_da_height = none;
  last_block_time = none;
  genesis_da_height = none;
  max_gas = some 100;
  filter_txs = verdicts;
  length-filter_txs = verdicts-length;
  now = 1000;
}

abbrev request : Request
request = record { id = []; max_bytes = 1000; last_batch_data = [] }

-- The epoch ends at 19, and one of its transactions is consumed; the height was set to 15.
abbrev lagging : State (Option (List ℕ))
lagging = record {
  da_height = 15;
  checkpoint_db = none;
  checkpoint = record { da_height = 19; tx_index = 1 };
  current_batch_txs = tx 1 ∷ tx 2 ∷ tx 3 ∷ [];
  current_da_end_time = 5_000_000;
  current_epoch_tx_count = 3;
}

abbrev aligned : State (Option (List ℕ))
aligned = record lagging { da_height = 19 }

-- After a restart the stored state's DA height is older than the checkpoint.
starts_lagging :
    new_based_sequencer cell genesis (some (19 ∷ 1 ∷ [])) 0 (some 15)
    ≡ some (record {
      da_height = 15;
      checkpoint_db = some (19 ∷ 1 ∷ []);
      checkpoint = record { da_height = 19; tx_index = 1 };
      current_batch_txs = [];
      current_da_end_time = 0;
      current_epoch_tx_count = 0;
    })
unfolding new_based_sequencer load
starts_lagging = refl

room : 1 + length (remaining cell genesis aligned) < u64_mod
unfolding remaining
room = omega arith

build_batch-consumes_example :
    (remaining cell genesis (build_batch cell genesis env request (aligned, fetched 19)).0
      ≡ drop
          (length (consumed_of env request (remaining cell genesis aligned)))
          (remaining cell genesis aligned))
    × RepliesWith
        (passed
          (consumed_of env request (remaining cell genesis aligned))
          (remaining cell genesis aligned))
        (build_batch cell genesis env request (aligned, fetched 19)).1
build_batch-consumes_example = build_batch-consumes cell genesis aligned env request 19 room

all_pass :
    length (consumed_of env request (remaining cell genesis lagging))
    ≡ length (remaining cell genesis lagging)
unfolding remaining statuses_of
all_pass = refl

checkpoint_goes_back_example :
    ((get_next_batch cell genesis lagging env request).0.checkpoint
      ≡ record { da_height = 16; tx_index = 0 })
    × ((get_next_batch cell genesis lagging env request).0.checkpoint.da_height ≤ 19)
checkpoint_goes_back_example =
    checkpoint_goes_back cell genesis lagging env request (omega arith) (omega arith) all_pass
      (omega arith) (omega arith)
