-- ===== src/Pruner/Tests.antt =====
-- Ticks of the pruner at concrete answers.
use chain_sdk.Base.{little_endian, refl, true, some, [], ◌∷◌, Bytes}
use chain_sdk.Pruner.{Config, not_found, found, succeeds, misses, Environment, prune_blocks}
use chain_sdk.Pruner.Retention.{Keeps, prune_blocks-Keeps_da}

abbrev config : Config
config = record { interval = 900; block_time = 100; keep_recent = 20; da_enabled = true }

abbrev da_height : Bytes
da_height = 60 ∷ 0 ∷ 0 ∷ 0 ∷ 0 ∷ 0 ∷ 0 ∷ 0 ∷ []

abbrev answers : Environment
answers = record {
  height = some 80;
  da_included = found da_height;
  last_block = not_found;
  last_state = not_found;
  on_prune_blocks = λ h. true;
  on_delete_state = λ h. misses;
  on_prune_exec = some (λ h. succeeds);
  on_set_last_state = λ h. true;
}

prune_blocks-Keeps_da_example :
    Keeps 20 (little_endian da_height) (prune_blocks config answers).calls
prune_blocks-Keeps_da_example = prune_blocks-Keeps_da config answers 80 da_height refl refl refl
