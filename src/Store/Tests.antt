-- ===== src/Store/Tests.antt =====
-- The store at concrete inputs.
use chain_sdk.Base.{
  ◌≡◌, refl, true, false, Option, none, some, [], ◌∷◌, little_endian, put_little_endian, arith,
}
use chain_sdk.Types.Header.{SignedHeader}
use chain_sdk.Types.Chain.{State, Data}
use chain_sdk.Store.{
  Db, no_faults, last_pruned_field, get, get_height, commit, update_state, set_height,
  save_block_data,
}
use chain_sdk.Store.Saved.{stage_block, Holds, KeepsAt, stage_block-Holds}
use chain_sdk.Store.Rollback.{rollback}
use chain_sdk.Store.Rollback.Bounds.{GoneAt, rollback-KeepsAt}
use chain_sdk.Store.Prune.{last_pruned, prune_blocks}
use chain_sdk.Store.TestCodec.{codec, codec-IsCodec, empty_db}

-- Heights 1 to 3, of which 2 are DA included.
abbrev three : Db
three = record empty_db {
  height = some (3 ∷ 0 ∷ 0 ∷ 0 ∷ 0 ∷ 0 ∷ 0 ∷ 0 ∷ []);
  headers = λ k. some (k ∷ []);
  datas = λ k. some (k ∷ []);
  signatures = λ k. some (k ∷ []);
  states = λ k. some (k ∷ []);
  da_included = some (2 ∷ 0 ∷ 0 ∷ 0 ∷ 0 ∷ 0 ∷ 0 ∷ 0 ∷ []);
}

abbrev header : SignedHeader
header = record {
  header = record {
    chain_id = 1 ∷ [];
    height = 4;
    nanos = 40;
    last_header_hash = 3 ∷ [];
    data_hash = 1 ∷ [];
    app_hash = 7 ∷ [];
    proposer_address = 5 ∷ [];
  };
  signature = 6 ∷ [];
  signer_address = 5 ∷ [];
}

abbrev block_data : Data
block_data = record { metadata = none; txs = (1 ∷ []) ∷ [] }

abbrev state : State
state = record {
  chain_id = 1 ∷ [];
  initial_height = 1;
  last_block_height = 4;
  last_block_time = 40;
  last_header_hash = 4 ∷ [];
  da_height = 9;
  app_hash = 8 ∷ [];
}

abbrev four : Option Db
four = commit no_faults three (stage_block codec no_faults three header block_data (6 ∷ []) 4 state)

or_three : Option Db → Db
or_three none = three
or_three (some db) = db

commits : four ≡ some (or_three four)
unfolding commit stage_block or_three update_state set_height little_endian save_block_data
commits = refl

is_three : get_height no_faults three ≡ some 3
unfolding get_height little_endian
is_three = refl

stage_block-Holds_example :
    Holds codec (or_three four) 4 header block_data (6 ∷ []) state × KeepsAt 3 three (or_three four)
stage_block-Holds_example =
    stage_block-Holds codec no_faults header block_data (6 ∷ []) state 3 3 three (or_three four)
      codec-IsCodec is_three (omega arith) (omega arith) refl (ground arith) commits

rolls_back :
    rollback codec no_faults three 2 true ≡ ((rollback codec no_faults three 2 true).0, none)
unfolding rollback little_endian put_little_endian
rolls_back = refl

rollback-KeepsAt_example :
    (get_height no_faults (rollback codec no_faults three 2 true).0 ≡ some 2)
    × KeepsAt 2 three (rollback codec no_faults three 2 true).0
    × GoneAt 3 (rollback codec no_faults three 2 true).0
rollback-KeepsAt_example =
    rollback-KeepsAt codec no_faults three (rollback codec no_faults three 2 true).0 2 3 3 2 true
      is_three (omega arith) rolls_back (omega arith) (omega arith) (omega arith)

lowers : rollback codec no_faults three 1 false ≡ ((rollback codec no_faults three 1 false).0, none)
unfolding rollback little_endian put_little_endian
lowers = refl

lowered :
    (rollback codec no_faults three 1 false).0.da_included
    ≡ some (1 ∷ 0 ∷ 0 ∷ 0 ∷ 0 ∷ 0 ∷ 0 ∷ 0 ∷ [])
unfolding rollback little_endian put_little_endian
lowered = refl

prunes : prune_blocks codec no_faults three 2 ≡ ((prune_blocks codec no_faults three 2).0, none)
unfolding prune_blocks
prunes = refl

never_pruned : last_pruned (get (no_faults.on_get last_pruned_field) three.last_pruned) ≡ some 0
unfolding last_pruned get
never_pruned = refl
