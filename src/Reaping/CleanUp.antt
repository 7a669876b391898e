-- ===== src/Reaping/CleanUp.antt =====
-- Which transactions a clean-up forgets.
use chain_sdk.Base.{
  ℕ, ◌≡◌, refl, sym, ap, ◌∙◌, Bool, true, false, not, ◌&&◌, ◌||◌, Bool-cases, inl, inr, List, [],
  ◌∷◌, ltb, if◌then◌else◌, bytes_equal,
}
use chain_sdk.Cache.{Hash, at_hash}
use chain_sdk.Reaping.{TxCache, is_tx_seen, remove_seen, remove_time, clean_each, clean_up_old_txs}

-- Whether the hash was recorded before the cutoff.
is_old : ℕ → Hash → List (Hash × ℕ) → Bool
is_old cutoff hash [] = false
is_old cutoff hash ((k, t) ∷ times) = bytes_equal hash k && ltb t cutoff || is_old cutoff hash times

-- The cache after the first record.
abbrev cleaned : ℕ → Hash → ℕ → TxCache → TxCache
cleaned cutoff k t m =
    if ltb t cutoff
    then record { cache = remove_seen m.cache k; times = remove_time k m.times }
    else m

and_true : (b : Bool) → (b && true) ≡ b
and_true true = refl
and_true false = refl

removed :
    (old same seen : Bool)
    → (if old then (if same then false else seen) else seen) ≡ (seen && not (same && old))
removed true true true = refl
removed true true false = refl
removed true false true = refl
removed true false false = refl
removed false true true = refl
removed false true false = refl
removed false false true = refl
removed false false false = refl

cleaned-seen :
    (cutoff : ℕ) (k : Hash) (t : ℕ) (m : TxCache) (hash : Hash)
    → is_tx_seen (cleaned cutoff k t m) hash
      ≡ (is_tx_seen m hash && not (bytes_equal hash k && ltb t cutoff))
unfolding remove_seen at_hash
cleaned-seen cutoff k t m hash = elim (Bool-cases (ltb t cutoff)) [
  | inl y ↦ rw y (removed true (bytes_equal hash k) (m.cache.hashes hash))
  | inr n ↦ rw n (removed false (bytes_equal hash k) (m.cache.hashes hash))
]

and_not : (a b c : Bool) → ((a && not b) && not c) ≡ (a && not (b || c))
and_not true true c = refl
and_not true false c = refl
and_not false b c = refl

clean_each-seen :
    (cutoff : ℕ) (times : List (Hash × ℕ)) (m : TxCache) (hash : Hash)
    → is_tx_seen (clean_each cutoff times m) hash
      ≡ (is_tx_seen m hash && not (is_old cutoff hash times))
unfolding clean_each is_old
clean_each-seen cutoff [] m hash = sym (and_true (is_tx_seen m hash))
clean_each-seen cutoff ((k, t) ∷ times) m hash =
    clean_each-seen cutoff times (cleaned cutoff k t m) hash
    ∙ ap (λ (b : Bool). b && not (is_old cutoff hash times)) (cleaned-seen cutoff k t m hash)
    ∙ and_not (is_tx_seen m hash) (bytes_equal hash k && ltb t cutoff) (is_old cutoff hash times)

-- After a clean-up a transaction counts as seen exactly if it did before and was not recorded before
-- the cutoff.
clean_up_old_txs-seen :
    (cutoff : ℕ) (m : TxCache) (hash : Hash)
    → is_tx_seen (clean_up_old_txs cutoff m) hash
      ≡ (is_tx_seen m hash && not (is_old cutoff hash m.times))
unfolding clean_up_old_txs
clean_up_old_txs-seen cutoff m hash = clean_each-seen cutoff m.times m hash
