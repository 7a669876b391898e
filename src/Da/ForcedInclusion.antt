-- ===== src/Da/ForcedInclusion.antt =====
-- RetrieveForcedIncludedTxs of block/internal/da/forced_inclusion_retriever.go. The DA client and
-- the prefetcher's cache are asked through `DaView`, whose answers the environment chooses.
pub mod Epochs
mod Tests
use chain_sdk.Base.{
  ℕ, zero, suc, ◌+◌, ◌-◌, ◌==◌, Bool, true, false, not, Option, none, some, List, [], ◌∷◌, ◌++◌,
  ltb, leb, if◌then◌else◌, Bytes, length,
}
use chain_sdk.Epoch.{Boundaries, calculate_epoch_boundaries}

-- Times are nanoseconds since Go's zero time.
pub record BlockData : Type 0 where
  pub blobs : List Bytes
  pub timestamp : ℕ

pub data StatusCode : Type 0 where
  success not_found height_from_future other_error : StatusCode

pub record ResultRetrieve : Type 0 where
  pub code : StatusCode
  pub found : List Bytes
  pub timestamp : ℕ

-- GetCachedBlock: an error, nil, or a block.
pub data CacheAnswer : Type 0 where
  cache_error cache_miss : CacheAnswer
  cache_hit : BlockData → CacheAnswer

pub record DaView : Type 0 where
  pub has_namespace : Bool
  pub get_cached_block : ℕ → CacheAnswer
  pub retrieve : ℕ → ResultRetrieve

pub record ForcedInclusionEvent : Type 0 where
  pub timestamp : ℕ
  pub start_da_height : ℕ
  pub end_da_height : ℕ
  pub txs : List Bytes

pub data RetrieveOutcome : Type 0 where
  not_configured : RetrieveOutcome
  before_start : RetrieveOutcome
  from_future : ℕ → RetrieveOutcome
  event : ForcedInclusionEvent → RetrieveOutcome

-- `count` heights from `h` on.
unfoldable pub heights_from : ℕ → ℕ → List ℕ
heights_from zero h = []
heights_from (suc count) h = h ∷ heights_from count (h + 1)

-- The maps from height to block.
abbrev pub Blocks : Type 0
Blocks = List (ℕ × BlockData)

unfoldable pub lookup_block : ℕ → Blocks → Option BlockData
lookup_block h [] = none
lookup_block h ((k, b) ∷ bs) = if k == h then some b else lookup_block h bs

pub record Cached : Type 0 where
  pub hits : Blocks
  pub missing : List ℕ

pub sort_answer : ℕ → CacheAnswer → Cached → Cached
sort_answer h cache_error c = record c { missing = h ∷ c.missing }
sort_answer h cache_miss c = record c { missing = h ∷ c.missing }
sort_answer h (cache_hit b) c = record c { hits = (h, b) ∷ c.hits }

unfoldable pub from_cache : DaView → List ℕ → Cached
unfolding sort_answer
from_cache v [] = record { hits = []; missing = [] }
from_cache v (h ∷ hs) = sort_answer h (v.get_cached_block h) (from_cache v hs)

-- `future` ends the loop with an error; `failed` is a non-nil processErrs.
pub data SyncResult : Type 0 where
  future : ℕ → SyncResult
  fetched : Blocks → Bool → SyncResult

pub with_block : ℕ → BlockData → SyncResult → SyncResult
with_block h b (future k) = future k
with_block h b (fetched bs failed) = fetched ((h, b) ∷ bs) failed

pub with_error : SyncResult → SyncResult
with_error (future k) = future k
with_error (fetched bs failed) = fetched bs true

pub fetch_one : ℕ → StatusCode → ResultRetrieve → SyncResult → SyncResult
fetch_one h height_from_future r rest = future h
fetch_one h not_found r rest = with_block h (record { blobs = []; timestamp = r.timestamp }) rest
fetch_one h success r rest = with_block h (record { blobs = r.found; timestamp = r.timestamp }) rest
fetch_one h other_error r rest = with_error rest

-- Answers are taken in height order; what comes after a height from the future is not asked for.
unfoldable pub fetch_missing : DaView → List ℕ → SyncResult
unfolding fetch_one with_block with_error
fetch_missing v [] = fetched [] false
fetch_missing v (h ∷ hs) =
    let r = v.retrieve h in let rest = fetch_missing v hs in fetch_one h r.code r rest

unfoldable pub non_empty : List Bytes → List Bytes
non_empty [] = []
non_empty (b ∷ bs) = if ltb 0 (length b) then b ∷ non_empty bs else non_empty bs

-- Cached blocks first, then fetched ones.
abbrev pub choose_block : Option BlockData → Option BlockData → Option BlockData
choose_block (some b) other = some b
choose_block none other = other

pub add_block : Option BlockData → ForcedInclusionEvent → ForcedInclusionEvent
add_block none e = e
add_block (some b) e = record e {
  txs = e.txs ++ non_empty b.blobs;
  timestamp = if ltb e.timestamp b.timestamp then b.timestamp else e.timestamp;
}

pub process : Blocks → Blocks → List ℕ → ForcedInclusionEvent → ForcedInclusionEvent
unfolding add_block
process cached sync [] e = e
process cached sync (h ∷ hs) e =
    process cached sync hs
      (add_block (choose_block (lookup_block h cached) (lookup_block h sync)) e)

pub finish : Blocks → List ℕ → ForcedInclusionEvent → ℕ → SyncResult → RetrieveOutcome
unfolding process
finish cached heights empty da_height (future h) = from_future h
finish cached heights empty da_height (fetched sync failed) =
    let e = process cached sync heights empty in
    if failed
    then event (record {
      timestamp = e.timestamp;
      start_da_height = da_height;
      end_da_height = da_height;
      txs = [];
    })
    else event e

pub collect_epoch : DaView → Boundaries → ℕ → RetrieveOutcome
unfolding finish from_cache fetch_missing heights_from
collect_epoch v b da_height =
    let heights = heights_from (b.end + 1 - b.start) b.start in
    let c = from_cache v heights in
    finish c.hits heights
      (record { timestamp = 0; start_da_height = b.start; end_da_height = b.end; txs = [] })
      da_height (fetch_missing v c.missing)

-- A height inside its epoch has no transactions; the epoch's last height has those of the epoch.
unfoldable pub retrieve_forced_included_txs : DaView → ℕ → ℕ → ℕ → RetrieveOutcome
unfolding collect_epoch
retrieve_forced_included_txs v da_start_height da_epoch_size da_height =
    if not v.has_namespace
    then not_configured
    else if ltb da_height da_start_height
    then before_start
    else let b = calculate_epoch_boundaries da_height da_start_height da_epoch_size in
      if not (da_height == b.end)
      then event (record {
        timestamp = 0;
        start_da_height = da_height;
        end_da_height = da_height;
        txs = [];
      })
      else collect_epoch v b da_height
