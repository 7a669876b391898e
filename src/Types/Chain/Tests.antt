-- ===== src/Types/Chain/Tests.antt =====
-- A concrete chain of two blocks.
use chain_sdk.Base.{
  ℕ, ◌+◌, ◌^◌, ◌≤◌, ◌≡◌, ◌==◌, refl, true, false, none, List, [], ◌∷◌, length, Bytes, bytes_equal,
  add_u64,
}
use chain_sdk.Types.Header.{Header, SignedHeader, unix_time}
use chain_sdk.Types.Chain.{State, Tracking, fresh, Data, next_state, assert_valid_for_next_state}
use chain_sdk.Types.Chain.Accepted.{IsLinked, MatchesData, accepted_block_lem}
use chain_sdk.Types.Chain.Runs.{Block, Extends, done, next, broken_links, broken_at_most_once}

-- Stand-ins for the two hashes.
abbrev hash : Header → Bytes
hash h = h.height ∷ []

abbrev commitment : List Bytes → Bytes
commitment txs = length txs ∷ []

hash-some : (h : Header) → (length (hash h) == 0) ≡ false
hash-some h = refl

abbrev header_at : ℕ → Bytes → Bytes → SignedHeader
header_at height last app = record {
  header = record {
    chain_id = 1 ∷ [];
    height = height;
    nanos = height;
    last_header_hash = last;
    data_hash = 1 ∷ [];
    app_hash = app;
    proposer_address = 5 ∷ [];
  };
  signature = 6 ∷ [];
  signer_address = 5 ∷ [];
}

abbrev one_tx : Data
one_tx = record { metadata = none; txs = (1 ∷ []) ∷ [] }

abbrev at_two : State
at_two = record {
  chain_id = 1 ∷ [];
  initial_height = 1;
  last_block_height = 2;
  last_block_time = 2 ^ 63 + 2;
  last_header_hash = 2 ∷ [];
  da_height = 9;
  app_hash = 7 ∷ [];
}

-- The first has a wrong last header hash, as after a switch from a based sequencer.
abbrev third : Block
third = record { header = header_at 3 (99 ∷ []) (7 ∷ []); block_data = one_tx; state_root = 8 ∷ [] }

abbrev fourth : Block
fourth = record { header = header_at 4 (3 ∷ []) (8 ∷ []); block_data = one_tx; state_root = 9 ∷ [] }

abbrev blocks : List Block
blocks = third ∷ fourth ∷ []

abbrev counted : Tracking
counted = record { ran = true; err_count = 1 }

abbrev at_three : State
at_three = next_state hash at_two third.header.header third.state_root

abbrev at_four : State
at_four = next_state hash at_three fourth.header.header fourth.state_root

third-accepted :
    assert_valid_for_next_state commitment fresh at_two third.header one_tx ≡ (counted, none)
unfolding assert_valid_for_next_state next_state bytes_equal
third-accepted = refl

fourth-accepted :
    assert_valid_for_next_state commitment counted at_three fourth.header one_tx ≡ (counted, none)
unfolding assert_valid_for_next_state next_state bytes_equal unix_time
fourth-accepted = refl

two_blocks : Extends hash commitment counted at_four fresh at_two blocks
two_blocks = next counted third-accepted (next counted fourth-accepted done)

accepted_block_lem_example :
    (third.header.chain_id ≡ at_two.chain_id)
    × (third.header.height ≡ add_u64 2 1)
    × (at_two.last_block_time ≤ unix_time 3)
    × (third.header.app_hash ≡ at_two.app_hash)
    × IsLinked fresh at_two third.header counted
    × MatchesData commitment third.header one_tx
accepted_block_lem_example =
    accepted_block_lem commitment fresh counted at_two third.header one_tx third-accepted refl

broken_at_most_once_example : broken_links hash commitment at_two blocks ≤ 1
broken_at_most_once_example =
    broken_at_most_once hash commitment hash-some counted at_two at_four blocks two_blocks refl
