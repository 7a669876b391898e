-- ===== src/Replay/Tests.antt =====
-- A client at height 1 gets blocks 2 and 3.
use chain_sdk.Base.{ℕ, ◌≡◌, ◌≢◌, ◌==◌, if◌then◌else◌, refl, sym, ap, none, some, [], ◌∷◌, arith}
use chain_sdk.Types.Header.{SignedHeader}
use chain_sdk.Types.Chain.{State, Data, next_state}
use chain_sdk.Store.{
  Db, found, no_faults, commit, update_state, get_block_data, get_state_at_height,
}
use chain_sdk.Store.TestCodec.{
  codec, codec-IsCodec, empty_db, encode_header, encode_data, encode_state,
}
use chain_sdk.Replay.{
  executed, Env, latest_is, Result, out_of_fuel, replay_from, replay_block, sync_to_height,
  from_target,
}
use chain_sdk.Replay.Blocks.{AtOwnHeight}
use chain_sdk.Replay.Behind.{Runs, sync_to_height-Executes}
use chain_sdk.Replay.Ends.{sync_to_height-ends}

abbrev header : ℕ → SignedHeader
header k = record {
  header = record {
    chain_id = 1 ∷ [];
    height = k;
    nanos = 10;
    last_header_hash = 3 ∷ [];
    data_hash = 1 ∷ [];
    app_hash = 7 ∷ [];
    proposer_address = 5 ∷ [];
  };
  signature = 6 ∷ [];
  signer_address = 5 ∷ [];
}

abbrev block_data : Data
block_data = record { metadata = none; txs = (1 ∷ []) ∷ [] }

abbrev state : State
state = record {
  chain_id = 1 ∷ [];
  initial_height = 1;
  last_block_height = 1;
  last_block_time = 10;
  last_header_hash = 3 ∷ [];
  da_height = 9;
  app_hash = 7 ∷ [];
}

abbrev db : Db
db = record empty_db {
  headers = λ k. encode_header (header k);
  datas = λ k. encode_data block_data;
  states = λ k. if k == 1 then encode_state state else none;
}

abbrev env : Env
env = record {
  codec = codec;
  faults = no_faults;
  hash = λ h. h.height ∷ [];
  chain_id = 1 ∷ [];
  initial_height = 1;
  start_time = 0;
  latest = latest_is 1;
  rollback = none;
  execute = λ txs height nanos prev. some (height ∷ prev);
}

found-inj : {x y : SignedHeader × Data} → found x ≡ found y → x ≡ y
found-inj h = cc

own : AtOwnHeight env db
unfolding get_block_data
own k h d e = sym (ap (λ (p : SignedHeader × Data). p.0.height) (found-inj e))

stored : get_state_at_height codec no_faults db 1 ≡ found state
unfolding get_state_at_height
stored = refl

abbrev result : Result
result = sync_to_height env 3 3 db

succeeds : result.error ≡ none
unfolding sync_to_height from_target replay_from replay_block get_block_data get_state_at_height
    commit update_state next_state
succeeds = refl

calls_made :
    result.calls
    ≡ executed ((1 ∷ []) ∷ []) 2 10 (7 ∷ []) ∷ executed ((1 ∷ []) ∷ []) 3 10 (2 ∷ 7 ∷ []) ∷ []
unfolding sync_to_height from_target replay_from replay_block get_block_data get_state_at_height
    commit update_state next_state
calls_made = refl

sync_to_height-Executes_example :
    (last : State) × Runs env db 2 2 state result.calls last
    × (get_state_at_height codec no_faults result.db 3 ≡ found last)
    × (last.da_height ≡ 9)
sync_to_height-Executes_example =
    sync_to_height-Executes env 3 1 3 db state codec-IsCodec own refl stored (omega arith)
      (omega arith) (omega arith) succeeds

sync_to_height-ends_example : result.error ≢ some out_of_fuel
sync_to_height-ends_example =
    sync_to_height-ends env 3 1 3 db refl (omega arith) (omega arith) (omega arith) (omega arith)
