-- ===== src/Types/Chain/Runs.antt =====
-- Chains of blocks: every block is checked by AssertValidForNextState on the state and the tracking
-- that the blocks before it left, and NextState makes the next state from its header and state
-- root.
use chain_sdk.Base.{
  ℕ, ◌+◌, ◌≡◌, ◌==◌, refl, false, none, List, [], ◌∷◌, if◌then◌else◌, arith, length, Bytes,
  bytes_equal, u64_mod, ◌≤◌, ◌<◌,
}
use chain_sdk.Types.Header.{Header, SignedHeader}
use chain_sdk.Types.Chain.{
  State, Tracking, fresh, do_once, Data, assert_valid_for_next_state, next_state,
}
use chain_sdk.Types.Chain.Accepted.{IsLinked, accepted_block_lem}

pub record Block : Type 0 where
  pub header : SignedHeader
  pub block_data : Data
  pub state_root : Bytes

module _ (hash : Header → Bytes) (c : List Bytes → Bytes) where
  -- The chain of blocks leads from a tracking and a state to others.
  pub data Extends (t_end : Tracking) (s_end : State) : Tracking → State → List Block → Type 0 where
    done : Extends t_end s_end t_end s_end []
    next :
        {t : Tracking}
        → (t' : Tracking) → {s : State} {b : Block} {bs : List Block}
        → assert_valid_for_next_state c t s b.header b.block_data ≡ (t', none)
        → Extends t_end s_end t' (next_state hash s b.header.header b.state_root) bs
        → Extends t_end s_end t s (b ∷ bs)

  -- The blocks of a chain whose last header hash is not that of the block before.
  pub broken_links : State → List Block → ℕ
  unfolding next_state
  broken_links s [] = 0
  broken_links s (b ∷ bs) =
      let rest = broken_links (next_state hash s b.header.header b.state_root) bs in
      if bytes_equal b.header.last_header_hash s.last_header_hash then rest else rest + 1

  module _ (has_hash : (h : Header) → (length (hash h) == 0) ≡ false) where
    -- A chain of accepted blocks from a state with a last header hash, whose heights stay below
    -- 2^64, ends as many blocks higher as it is long and not before the time it began at; the
    -- header hash is never empty.
    chain_heights :
        (t t' : Tracking) (s s' : State) (bs : List Block)
        → Extends t' s' t s bs
        → (length s.last_header_hash == 0) ≡ false
        → s.last_block_height + length bs < u64_mod
        → (s'.last_block_height ≡ s.last_block_height + length bs)
          × (s.last_block_time ≤ s'.last_block_time)
    unfolding next_state
    chain_heights t t' s s' [] done started fits = omega arith
    chain_heights t t' s s' (b ∷ bs) (next t1 ok rest) started fits =
        let (same_chain, height, later, app, linked, valid) =
          accepted_block_lem c t t1 s b.header b.block_data ok started in
        let s1 = next_state hash s b.header.header b.state_root in
        let exact : s1.last_block_height ≡ s.last_block_height + 1 = omega (arith, height) in
        let ih = chain_heights t1 t' s1 s' bs rest (has_hash b.header.header) (omega arith) in
        omega (arith, ih, later)

    -- The counter of wrong last header hashes is one after sync.Once ran, and zero before.
    abbrev IsCounted : Tracking → Type 0
    IsCounted t = t.err_count ≡ (if t.ran then 1 else 0)

    link-IsCounted :
        (t t' : Tracking) (s : State) (sh : SignedHeader)
        → IsLinked t s sh t'
        → IsCounted t
        → IsCounted t'
          × (t'.err_count
              ≡ t.err_count + (if bytes_equal sh.last_header_hash s.last_header_hash then 0 else 1))
    unfolding do_once
    link-IsCounted t t' s sh linked counted = ground arith

    chain_counts :
        (t t' : Tracking) (s s' : State) (bs : List Block)
        → Extends t' s' t s bs
        → (length s.last_header_hash == 0) ≡ false
        → IsCounted t
        → IsCounted t' × (t.err_count + broken_links s bs ≡ t'.err_count)
    unfolding broken_links
    chain_counts t t' s s' [] done started counted = (counted, omega arith)
    chain_counts t t' s s' (b ∷ bs) (next t1 ok rest) started counted =
        let (same_chain, height, later, app, linked, valid) =
          accepted_block_lem c t t1 s b.header b.block_data ok started in
        let s1 = next_state hash s b.header.header b.state_root in
        let (counted1, one) = link-IsCounted t t1 s b.header linked counted in
        let (counted', ih) = chain_counts t1 t' s1 s' bs rest (has_hash b.header.header) counted1 in
        (counted', ground arith)

    -- In a chain of accepted blocks from a state with a last header hash, in a process that has not
    -- counted a wrong last header hash, at most one block has a last header hash that is not the
    -- hash of the block before; the header hash is never empty.
    pub broken_at_most_once :
        (t' : Tracking) (s s' : State) (bs : List Block)
        → Extends t' s' fresh s bs
        → (length s.last_header_hash == 0) ≡ false
        → broken_links s bs ≤ 1
    broken_at_most_once t' s s' bs run started =
        let (counted, total) = chain_counts fresh t' s s' bs run started refl in
        ground (arith, counted, total)
