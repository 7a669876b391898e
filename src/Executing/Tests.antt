-- ===== src/Executing/Tests.antt =====
-- The executor at concrete inputs.
use chain_sdk.Base.{
  ◌≤◌, ◌≡◌, refl, true, false, none, some, [], ◌∷◌, arith, bytes_equal, little_endian,
}
use chain_sdk.Types.Header.{unix_time}
use chain_sdk.Types.Chain.{fresh, assert_valid_for_next_state}
use chain_sdk.Store.{no_faults, get_height, get_state, update_state, set_height, save_block_data}
use chain_sdk.Store.TestCodec.{codec, codec-IsCodec}
use chain_sdk.Executing.{Executor, batch_error, Env}
use chain_sdk.Executing.Retry.{returned, with_retry}
use chain_sdk.Executing.Pending.{pending, get_pending_block, save_pending_block}
use chain_sdk.Executing.Create.{create_block}
use chain_sdk.Executing.Create.Accepted.{create_block-accepted}
use chain_sdk.Executing.Produce.{produce_block}
use chain_sdk.Executing.Produce.Commits.{
  Steps, AnyBlock, produce_block-Steps, produce_block-Pending,
}
use chain_sdk.Executing.Produce.Consistent.{IsConsistent, produce_block-IsConsistent}
use chain_sdk.Executing.TestData.{
  commitment, setup, at_three, info, db, executor, batch, second, env, four_header, four_data,
}

second_attempt : with_retry second (λ _. false) ≡ returned (8 ∷ [])
unfolding with_retry
second_attempt = refl

creates : create_block setup env executor 4 batch ≡ some (four_header, four_data)
unfolding create_block
creates = refl

create_block-accepted_example :
    assert_valid_for_next_state commitment fresh at_three
      (record four_header { signature = 9 ∷ [] })
      four_data
    ≡ (fresh, none)
unfolding unix_time
create_block-accepted_example =
    create_block-accepted setup env executor batch four_header four_data info (9 ∷ []) fresh refl
      refl refl refl (omega arith) no_later creates
  where
    no_later : 30 ≤ unix_time 40
    no_later = omega arith

-- The block at height 4 is committed.
reaches_four : (produce_block setup env executor).0.last_state.last_block_height ≡ 4
unfolding produce_block bytes_equal update_state set_height little_endian save_block_data
reaches_four = refl

is_consistent : IsConsistent setup executor
unfolding get_height get_state little_endian
is_consistent = (refl, refl, refl)

produce_block-IsConsistent_example : IsConsistent setup (produce_block setup env executor).0
produce_block-IsConsistent_example =
    produce_block-IsConsistent setup env executor codec-IsCodec (omega arith) is_consistent

produce_block-Steps_example : Steps setup env executor AnyBlock (produce_block setup env executor)
produce_block-Steps_example = produce_block-Steps setup env executor

-- With the block pending, and a sequencer that fails.
abbrev with_pending : Executor
with_pending = record executor {
  db = record db {
    pending_header = codec.encode_header four_header;
    pending_data = codec.encode_data four_data;
  };
  has_pending_block = true;
}

abbrev failing : Env
failing = record env { next_batch = batch_error }

is_pending : get_pending_block codec no_faults with_pending.db ≡ pending four_header four_data
unfolding get_pending_block
is_pending = refl

produce_block-Pending_example :
    Steps setup failing with_pending
      (λ h d. (h ≡ four_header.header) × (d ≡ four_data))
      (produce_block setup failing with_pending)
produce_block-Pending_example =
    produce_block-Pending setup failing with_pending four_header four_data refl is_pending refl

saves : save_pending_block codec no_faults db four_header four_data ≡ some with_pending.db
unfolding save_pending_block
saves = refl
