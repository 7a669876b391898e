-- ===== src/Reaping/Once.antt =====
-- No transaction is submitted in two batches.
use chain_sdk.Base.{
  ℕ, ◌≡◌, ◌≢◌, refl, Bool, true, false, Bool-cases, inl, inr, Option, none, some, List, [], ◌∷◌,
  if_both, if_of_true, Bytes, bytes_equal, bytes_equal_refl,
}
use chain_sdk.Cache.{Hash, at_hash, set_seen}
use chain_sdk.Reaping.{
  TxCache, is_tx_seen, forget, set_tx_seen, Scrape, Outcome, get_failed, no_txs, nothing_new,
  submit_failed, submitted, new_txs, mark_all, on_new, on_txs, submit_txs, add_batch, run,
}

abbrev pub All {ℓ κ} : {A : Type ℓ} → (A → Type κ) → List A → Type κ
All P [] = Unit
All P (x ∷ xs) = P x × All P xs

all-map {ℓ κ} :
    {A : Type ℓ} {P Q : A → Type κ} → ((x : A) → P x → Q x) → (xs : List A) → All P xs → All Q xs
all-map f [] a = tt
all-map f (x ∷ xs) (p, a) = (f x p, all-map f xs a)

-- What was seen is seen still.
abbrev Grows : TxCache → TxCache → Type 0
Grows m m' = (h : Hash) → is_tx_seen m h ≡ true → is_tx_seen m' h ≡ true

seen-at_hash : (f : Hash → Bool) (k h : Hash) → f h ≡ true → at_hash f k true h ≡ true
unfolding at_hash
seen-at_hash f k h e = if_both (λ (b : Bool). b ≡ true) (bytes_equal h k) true (f h) refl e

set_tx_seen-Grows :
    (evicted : Hash → Bool) (now : ℕ) (m : TxCache) (k : Hash)
    → ((h : Hash) → evicted h ≡ false)
    → Grows m (set_tx_seen evicted now m k)
unfolding set_tx_seen set_seen forget
set_tx_seen-Grows evicted now m k full h e = rw (full h) (seen-at_hash m.cache.hashes k h e)

set_tx_seen-seen :
    (evicted : Hash → Bool) (now : ℕ) (m : TxCache) (k : Hash)
    → ((h : Hash) → evicted h ≡ false)
    → is_tx_seen (set_tx_seen evicted now m k) k ≡ true
unfolding set_tx_seen set_seen at_hash forget
set_tx_seen-seen evicted now m k full = rw (full k) (
    if_of_true (λ (b : Bool). b ≡ true) (bytes_equal k k) true (m.cache.hashes k)
      (bytes_equal_refl k) refl)

-- The LRU map evicts nothing, as it does while it has less than 200,000 hashes.
abbrev pub AreKept : List Scrape → Type 0
AreKept ss = All (λ (s : Scrape). (h : Hash) → s.evicted h ≡ false) ss

module _ (hash_tx : Bytes → Hash) where
  abbrev Unseen : TxCache → Bytes → Type 0
  Unseen m tx = is_tx_seen m (hash_tx tx) ≡ false

  abbrev IsSeen : TxCache → Bytes → Type 0
  IsSeen m tx = is_tx_seen m (hash_tx tx) ≡ true

  new_txs-Unseen : (m : TxCache) (txs : List Bytes) → All (Unseen m) (new_txs hash_tx m txs)
  unfolding new_txs
  new_txs-Unseen m [] = tt
  new_txs-Unseen m (tx ∷ txs) = elim (Bool-cases (is_tx_seen m (hash_tx tx))) [
    | inl y ↦ rw y (new_txs-Unseen m txs)
    | inr n ↦ rw n (n, new_txs-Unseen m txs)
  ]

  mark_all-Grows :
      (evicted : Hash → Bool) (now : ℕ) (txs : List Bytes) (m : TxCache)
      → ((h : Hash) → evicted h ≡ false)
      → Grows m (mark_all hash_tx evicted now txs m)
  unfolding mark_all
  mark_all-Grows evicted now [] m full h e = e
  mark_all-Grows evicted now (tx ∷ txs) m full h e =
      mark_all-Grows evicted now txs (set_tx_seen evicted now m (hash_tx tx)) full h
        (set_tx_seen-Grows evicted now m (hash_tx tx) full h e)

  mark_all-IsSeen :
      (evicted : Hash → Bool) (now : ℕ) (txs : List Bytes) (m : TxCache)
      → ((h : Hash) → evicted h ≡ false)
      → All (IsSeen (mark_all hash_tx evicted now txs m)) txs
  unfolding mark_all
  mark_all-IsSeen evicted now [] m full = tt
  mark_all-IsSeen evicted now (tx ∷ txs) m full = (
    mark_all-Grows evicted now txs (set_tx_seen evicted now m (hash_tx tx)) full (hash_tx tx)
        (set_tx_seen-seen evicted now m (hash_tx tx) full),
    mark_all-IsSeen evicted now txs (set_tx_seen evicted now m (hash_tx tx)) full,
  )

  -- A batch has unseen transactions, which are seen afterwards; nothing else is forgotten.
  abbrev Marks : TxCache → TxCache × Outcome → Type 0
  Marks m (m', submitted txs) = Grows m m' × All (Unseen m) txs × All (IsSeen m') txs
  Marks m (m', o) = Grows m m'

  on_new-Marks :
      (s : Scrape) (m : TxCache) (txs : List Bytes)
      → ((h : Hash) → s.evicted h ≡ false)
      → All (Unseen m) txs
      → Marks m (on_new hash_tx s m txs)
  unfolding on_new
  on_new-Marks s m [] full a = λ h e. e
  on_new-Marks s m (tx ∷ txs) full a =
      if_both (Marks m) s.accepts
        (mark_all hash_tx s.evicted s.now (tx ∷ txs) m, submitted (tx ∷ txs))
        (m, submit_failed (tx ∷ txs))
        (
          mark_all-Grows s.evicted s.now (tx ∷ txs) m full,
          a,
          mark_all-IsSeen s.evicted s.now (tx ∷ txs) m full,
        )
        (λ h e. e)

  on_txs-Marks :
      (s : Scrape) (m : TxCache) (o : Option (List Bytes))
      → ((h : Hash) → s.evicted h ≡ false)
      → Marks m (on_txs hash_tx s m o)
  unfolding on_txs
  on_txs-Marks s m none full = λ h e. e
  on_txs-Marks s m (some []) full = λ h e. e
  on_txs-Marks s m (some (tx ∷ txs)) full =
      on_new-Marks s m (new_txs hash_tx m (tx ∷ txs)) full (new_txs-Unseen m (tx ∷ txs))

  abbrev Differs : Bytes → Bytes → Type 0
  Differs tx other = hash_tx tx ≢ hash_tx other

  -- No transaction of a batch has the hash of one of a later batch.
  abbrev pub AreApart : List (List Bytes) → Type 0
  AreApart [] = Unit {0}
  AreApart (txs ∷ batches) =
      All (λ (tx : Bytes). All (All (Differs tx)) batches) txs × AreApart batches

  unseen_before : (m m' : TxCache) → Grows m m' → (tx : Bytes) → Unseen m' tx → Unseen m tx
  unseen_before m m' g tx u = elim (Bool-cases (is_tx_seen m (hash_tx tx))) [
    | inl y ↦ cc (u, g (hash_tx tx) y)
    | inr n ↦ n
  ]

  later :
      (m m' : TxCache)
      → Grows m m'
      → (batches : List (List Bytes)) → All (All (Unseen m')) batches
      → All (All (Unseen m)) batches
  later m m' g batches a = all-map (λ (c : List Bytes). all-map (unseen_before m m' g) c) batches a

  unlike_unseen :
      (m : TxCache) (tx : Bytes) → IsSeen m tx → (other : Bytes) → Unseen m other → Differs tx other
  unlike_unseen m tx y other n e = cc

  add_batch-Apart :
      (m : TxCache) (r : TxCache × Outcome) (batches : List (List Bytes))
      → Marks m r
      → All (All (Unseen r.0)) batches
      → AreApart batches
      → All (All (Unseen m)) (add_batch hash_tx r.1 batches)
        × AreApart (add_batch hash_tx r.1 batches)
  unfolding add_batch
  add_batch-Apart m (m', get_failed) batches g a p = (later m m' g batches a, p)
  add_batch-Apart m (m', no_txs) batches g a p = (later m m' g batches a, p)
  add_batch-Apart m (m', nothing_new) batches g a p = (later m m' g batches a, p)
  add_batch-Apart m (m', submit_failed txs) batches g a p = (later m m' g batches a, p)
  add_batch-Apart m (m', submitted txs) batches (g, u, s) a p = (
    (u, later m m' g batches a),
    (
      all-map
          (λ (tx : Bytes) (y : IsSeen m' tx).
            all-map (λ (c : List Bytes). all-map (unlike_unseen m' tx y) c) batches a)
          txs s,
      p,
    ),
  )

  -- In any sequence of calls of SubmitTxs between two clean-ups, whatever the execution client
  -- gives and the sequencer answers, as long as the map of the seen hashes evicts none of them, no
  -- two batches that the sequencer accepts share a transaction's hash, and none has the hash of a
  -- transaction that was seen before.
  pub run-AreApart :
      (ss : List Scrape) (m : TxCache)
      → AreKept ss
      → All (All (Unseen m)) (run hash_tx ss m) × AreApart (run hash_tx ss m)
  unfolding run submit_txs
  run-AreApart [] m kept = (tt, tt)
  run-AreApart (s ∷ ss) m (full, kept) =
      let (a, p) = run-AreApart ss (submit_txs hash_tx s m).0 kept in
      add_batch-Apart m (submit_txs hash_tx s m) (run hash_tx ss (submit_txs hash_tx s m).0)
        (on_txs-Marks s m s.txs full) a p
