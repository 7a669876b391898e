-- ===== src/Reaping/Tests.antt =====
-- The reaper at concrete inputs: a refused batch, and transactions that come again.
use chain_sdk.Base.{◌≡◌, refl, true, false, none, some, List, [], ◌∷◌, Bytes, bytes_equal}
use chain_sdk.Cache.{new_cache}
use chain_sdk.Reaping.{
  TxCache, is_tx_seen, Scrape, submit_txs, run, new_txs, mark_all, set_tx_seen, on_tick,
}
use chain_sdk.Reaping.Once.{All, AreKept, AreApart, run-AreApart}

abbrev empty : TxCache
empty = record { cache = new_cache; times = [] }

abbrev hash_tx : Bytes → Bytes
hash_tx tx = 9 ∷ tx

abbrev scrapes : List Scrape
scrapes =
    record { txs = some ((1 ∷ []) ∷ (2 ∷ []) ∷ []); accepts = false; now = 5; evicted = λ h. false }
    ∷ record {
      txs = some ((1 ∷ []) ∷ (2 ∷ []) ∷ []);
      accepts = true;
      now = 6;
      evicted = λ h. false;
    }
    ∷ record { txs = none; accepts = true; now = 7; evicted = λ h. false }
    ∷ record {
      txs = some ((2 ∷ []) ∷ (3 ∷ []) ∷ []);
      accepts = true;
      now = 8;
      evicted = λ h. false;
    }
    ∷ []

batches : run hash_tx scrapes empty ≡ ((1 ∷ []) ∷ (2 ∷ []) ∷ []) ∷ ((3 ∷ []) ∷ []) ∷ []
unfolding run submit_txs new_txs mark_all set_tx_seen new_cache bytes_equal
batches = refl

kept : AreKept scrapes
kept = (λ h. refl, (λ h. refl, (λ h. refl, (λ h. refl, tt))))

run-AreApart_example :
    All (All (λ (tx : Bytes). is_tx_seen empty (hash_tx tx) ≡ false)) (run hash_tx scrapes empty)
    × AreApart hash_tx (run hash_tx scrapes empty)
run-AreApart_example = run-AreApart hash_tx scrapes empty kept

-- With an interval of a minute, a failure makes the next call earlier.
sooner : on_tick 60000000000 0 true ≡ record { consecutive_failures = 1; reset = some 30000000000 }
unfolding on_tick
sooner = refl
