-- ===== src/Syncing/Sync/Events.antt =====
-- processHeightEvent of block/internal/syncing/syncer.go.
pub mod Order
use chain_sdk.Base.{
  ℕ, zero, suc, ◌+◌, ◌-◌, ◌==◌, Bool, true, false, not, ◌||◌, ◌&&◌, Option, none, some, List, [],
  ◌∷◌, ◌++◌, ltb, leb, if◌then◌else◌, Bytes, bytes_equal, add_u64,
}
use chain_sdk.Types.Header.{SignedHeader}
use chain_sdk.Types.Chain.{Data}
use chain_sdk.Store.{Read, absent, broken, found, get_height, get_block_data}
use chain_sdk.Cache.{at_height, get_da_included_by_height}
use chain_sdk.Syncing.Priority.{queue_priority_height}
use chain_sdk.Syncing.Sync.{
  Source, from_da, from_p2p, from_raft, Event, Syncer, Env, Outcome, synced, cancelled_before,
  invalid_block, invalid_state, malicious_proposer, failed, try_sync_next_block,
}

abbrev da_hint_max_drift : ℕ
da_hint_max_drift = 200

-- A hint that is not known yet.
hint_unless : Option ℕ → ℕ → List ℕ
hint_unless none hint = hint ∷ []
hint_unless (some da) hint = []

-- Both, but not the same twice.
join_hints : List ℕ → List ℕ → List ℕ
join_hints [] ds = ds
join_hints (h ∷ hs) [] = h ∷ hs
join_hints (h ∷ hs) (d ∷ ds) = if h == d then h ∷ hs else (h ∷ hs) ++ d ∷ ds

da_height_hints : Syncer → Event → List ℕ
unfolding hint_unless join_hints get_da_included_by_height
da_height_hints σ ev =
    let headers =
      hint_unless (get_da_included_by_height σ.header_cache ev.header.height) ev.header_hint in
    let datas =
      hint_unless (get_da_included_by_height σ.data_cache ev.header.height) ev.data_hint in
    if ev.header_hint == 0
    then (if ev.data_hint == 0 then [] else datas)
    else if ev.data_hint == 0
    then headers
    else join_hints headers datas

any_far : ℕ → List ℕ → Bool
any_far current [] = false
any_far current (h ∷ hs) = ltb (add_u64 current da_hint_max_drift) h || any_far current hs

-- Whether a hint is too far: only where one is far ahead and the latest height is known.
is_unreasonable : Bool → Option ℕ → ℕ → Bool
is_unreasonable false latest h = false
is_unreasonable true none h = false
is_unreasonable true (some latest) h = ltb latest h

queue_hints : Bool → Option ℕ → ℕ → List ℕ → List ℕ → List ℕ
unfolding is_unreasonable queue_priority_height
queue_hints far latest current [] queue = queue
queue_hints far latest current (h ∷ hs) queue =
    queue_hints far latest current hs (
      if ltb h current || is_unreasonable far latest h
      then queue
      else queue_priority_height h queue)

pub take_hints : Env → Event → Source → Syncer → Syncer
unfolding da_height_hints any_far queue_hints
take_hints env ev from_da σ = σ
take_hints env ev from_raft σ = σ
take_hints env ev from_p2p σ =
    let hints = da_height_hints σ ev in
    record σ {
      priority_heights =
          queue_hints (any_far σ.da_retriever_height hints) env.latest_da_height
            σ.da_retriever_height hints σ.priority_heights;
    }

pub set_pending : Event → Syncer → Syncer
unfolding at_height
set_pending ev σ = record σ {
  pending_events = at_height σ.pending_events ev.header.height (some ev);
}

-- A block that fails for another reason than its content is tried again later.
pub on_outcome : Event → Syncer × Outcome → Syncer
unfolding set_pending
on_outcome ev (σ, synced) = σ
on_outcome ev (σ, invalid_block) = σ
on_outcome ev (σ, invalid_state) = record σ { has_critical_error = true }
on_outcome ev (σ, malicious_proposer) =
    if σ.has_critical_error then σ else record σ { has_critical_error = true }
on_outcome ev (σ, cancelled_before) = if σ.has_critical_error then σ else set_pending ev σ
on_outcome ev (σ, failed) = if σ.has_critical_error then σ else set_pending ev σ

-- The last data, which a block without transactions from the DA layer needs, must be readable.
lacks_last_data : Env → Event → Source → Syncer → ℕ → Bool
unfolding get_block_data
lacks_last_data env ev from_p2p σ current = false
lacks_last_data env ev from_raft σ current = false
lacks_last_data env ev from_da σ current =
    if bytes_equal ev.header.data_hash env.empty_txs_hash && ltb 0 current
    then (elim (get_block_data env.codec env.faults σ.db current) [
      | absent ↦ true
      | broken ↦ true
      | found b ↦ false
    ])
    else false

pub process_next : Env → Event → ℕ → Syncer → Syncer
unfolding take_hints lacks_last_data on_outcome try_sync_next_block
process_next env ev current σ =
    let σ' = take_hints env ev ev.source σ in
    if lacks_last_data env ev ev.source σ' current
    then σ'
    else on_outcome ev (try_sync_next_block env ev σ')

pub at_current : Env → Event → Syncer → Option ℕ → Syncer
unfolding process_next set_pending
at_current env ev σ none = σ
at_current env ev σ (some current) =
    if leb ev.header.height current || σ.header_cache.hashes (env.hash ev.header.header)
    then σ
    else if not (ev.header.height == add_u64 current 1)
    then set_pending ev σ
    else process_next env ev current σ

pub process_height_event : Env → Event → Syncer → Syncer
unfolding at_current get_height
process_height_event env ev σ = at_current env ev σ (get_height env.faults σ.db)
