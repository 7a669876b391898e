-- ===== src/Reaping.antt =====
-- The reaper of block/internal/reaping/reaper.go, with the seen transactions of
-- block/internal/cache/manager.go and generic_cache.go. The execution client's transactions, the
-- sequencer's answer and the clock are inputs of a call; one call reads the clock once here.
pub mod Once
pub mod CleanUp
mod Tests
use chain_sdk.Base.{
  ℕ, ◌+◌, ◌*◌, ◌^◌, min, Bool, true, false, Option, none, some, List, [], ◌∷◌, ltb, if◌then◌else◌,
  Bytes, bytes_equal,
}
use chain_sdk.Cache.{Hash, Cache, at_hash, set_seen}

-- The cache of the transactions, and the time at which each was recorded.
pub record TxCache : Type 0 where
  pub cache : Cache (Unit {0})
  pub times : List (Hash × ℕ)

abbrev pub is_tx_seen : TxCache → Hash → Bool
is_tx_seen m hash = m.cache.hashes hash

remove_time : Hash → List (Hash × ℕ) → List (Hash × ℕ)
remove_time hash [] = []
remove_time hash ((k, t) ∷ times) =
    let rest = remove_time hash times in if bytes_equal k hash then rest else (k, t) ∷ rest

-- The LRU map of the hashes forgets some of them, when one is added.
pub forget : (Hash → Bool) → Cache (Unit {0}) → Cache (Unit {0})
forget evicted c = record c { hashes = λ k. if evicted k then false else c.hashes k }

pub set_tx_seen : (Hash → Bool) → ℕ → TxCache → Hash → TxCache
unfolding remove_time set_seen forget
set_tx_seen evicted now m hash = record {
  cache = forget evicted (set_seen m.cache hash 0);
  times = (hash, now) ∷ remove_time hash m.times;
}

pub remove_seen : Cache (Unit {0}) → Hash → Cache (Unit {0})
unfolding at_hash
remove_seen c hash = record c { hashes = at_hash c.hashes hash false }

pub clean_each : ℕ → List (Hash × ℕ) → TxCache → TxCache
unfolding remove_seen remove_time
clean_each cutoff [] m = m
clean_each cutoff ((hash, t) ∷ times) m = clean_each cutoff times (
    if ltb t cutoff
    then record { cache = remove_seen m.cache hash; times = remove_time hash m.times }
    else m)

-- CleanupOldTxs, given the cutoff.
pub clean_up_old_txs : ℕ → TxCache → TxCache
unfolding clean_each
clean_up_old_txs cutoff m = clean_each cutoff m.times m

-- What the client answers (`none` is an error), whether the sequencer accepts, the time, and the
-- hashes that the LRU map evicts when the call records another one.
pub record Scrape : Type 0 where
  pub txs : Option (List Bytes)
  pub accepts : Bool
  pub now : ℕ
  pub evicted : Hash → Bool

pub data Outcome : Type 0 where
  get_failed no_txs nothing_new : Outcome
  submit_failed submitted : List Bytes → Outcome

module _ (hash_tx : Bytes → Hash) where
  unfoldable new_txs : TxCache → List Bytes → List Bytes
  new_txs m [] = []
  new_txs m (tx ∷ txs) =
      let rest = new_txs m txs in if is_tx_seen m (hash_tx tx) then rest else tx ∷ rest

  unfoldable mark_all : (Hash → Bool) → ℕ → List Bytes → TxCache → TxCache
  unfolding set_tx_seen
  mark_all evicted now [] m = m
  mark_all evicted now (tx ∷ txs) m =
      mark_all evicted now txs (set_tx_seen evicted now m (hash_tx tx))

  -- SubmitBatchTxs is called once, with all of the new transactions.
  pub on_new : Scrape → TxCache → List Bytes → TxCache × Outcome
  unfolding mark_all
  on_new s m [] = (m, nothing_new)
  on_new s m (tx ∷ txs) =
      if s.accepts
      then (mark_all s.evicted s.now (tx ∷ txs) m, submitted (tx ∷ txs))
      else (m, submit_failed (tx ∷ txs))

  pub on_txs : Scrape → TxCache → Option (List Bytes) → TxCache × Outcome
  unfolding on_new new_txs
  on_txs s m none = (m, get_failed)
  on_txs s m (some []) = (m, no_txs)
  on_txs s m (some (tx ∷ txs)) = on_new s m (new_txs m (tx ∷ txs))

  unfoldable submit_txs : Scrape → TxCache → TxCache × Outcome
  unfolding on_txs
  submit_txs s m = on_txs s m s.txs

  -- The batches that the sequencer accepts in one call after the other.
  pub add_batch : Outcome → List (List Bytes) → List (List Bytes)
  add_batch get_failed batches = batches
  add_batch no_txs batches = batches
  add_batch nothing_new batches = batches
  add_batch (submit_failed txs) batches = batches
  add_batch (submitted txs) batches = txs ∷ batches

  unfoldable run : List Scrape → TxCache → List (List Bytes)
  unfolding submit_txs add_batch
  run [] m = []
  run (s ∷ ss) m = add_batch (submit_txs s m).1 (run ss (submit_txs s m).0)

pub fails : Outcome → Bool
fails get_failed = true
fails no_txs = false
fails nothing_new = false
fails (submit_failed txs) = true
fails (submitted txs) = false

-- The loop's failures in a row, and the interval to which it resets its ticker, if it does; durations
-- are taken not to overflow.
pub record Pace : Type 0 where
  pub consecutive_failures : ℕ
  pub reset : Option ℕ

abbrev max_backoff_interval : ℕ
max_backoff_interval = 30 * 10 ^ 9

pub backoff : ℕ → ℕ → ℕ
backoff interval failures = min (interval * 2 ^ min failures 5) max_backoff_interval

unfoldable on_tick : ℕ → ℕ → Bool → Pace
unfolding backoff
on_tick interval failures true = record {
  consecutive_failures = failures + 1;
  reset = some (backoff interval (failures + 1));
}
on_tick interval failures false =
    if ltb 0 failures
    then record { consecutive_failures = 0; reset = some interval }
    else record { consecutive_failures = failures; reset = none }
