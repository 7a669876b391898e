-- ===== src/Cache/Included.antt =====
-- What the cache answers for a height after it is included or deleted.
use chain_sdk.Base.{
  ℕ, ◌≡◌, ◌≢◌, ◌==◌, refl, ◌∙◌, subst, inl, inr, true, false, Bool-cases, Option, none, some, leb,
  if_both, arith, bytes_equal, bytes_equal_refl, ◌≤◌,
}
use chain_sdk.Cache.{
  Hash, Cache, at_height, at_hash, get_da_included_by_height, included_at, remove_da_included,
  set_max_da_height, evict, include, set_da_included, delete_hash, delete_all_for_height,
}

module _ {Item : Type 0} where
  max_kept :
      (c : Cache Item) (da k : ℕ)
      → get_da_included_by_height (set_max_da_height c da) k ≡ get_da_included_by_height c k
  unfolding set_max_da_height get_da_included_by_height included_at
  max_kept c da k =
      if_both (λ (c' : Cache Item). get_da_included_by_height c' k ≡ get_da_included_by_height c k)
        (leb da c.max_da_height) _ _ refl refl

  max_raised :
      (c : Cache Item) (da : ℕ)
      → (da ≤ (set_max_da_height c da).max_da_height)
        × (c.max_da_height ≤ (set_max_da_height c da).max_da_height)
  unfolding set_max_da_height
  max_raised c da = elim (Bool-cases (leb da c.max_da_height)) [
    | inl y ↦ rw y (ground arith)
    | inr n ↦ rw n (ground arith)
  ]

  max_evict :
      (c : Cache Item) (hash : Hash) (o : Option Hash)
      → (evict c hash o).max_da_height ≡ c.max_da_height
  unfolding evict remove_da_included
  max_evict c hash none = refl
  max_evict c hash (some prev) =
      if_both (λ (c' : Cache Item). c'.max_da_height ≡ c.max_da_height) (bytes_equal prev hash) _ _
        refl refl

  include-here :
      (c : Cache Item) (hash : Hash) (da h : ℕ)
      → get_da_included_by_height (include c hash da h) h ≡ some da
  unfolding include get_da_included_by_height at_height at_hash included_at
  include-here c hash da h = rw (same_number h, bytes_equal_refl hash) refl
    where
      same_number : (n : ℕ) → (n == n) ≡ true
      same_number n = ground arith

  -- What is recorded for a height is what is then found there, whatever stood there before, and the
  -- greatest DA height is at least the recorded one and never falls.
  pub set_da_included-found :
      (c : Cache Item) (hash : Hash) (da h : ℕ)
      → (get_da_included_by_height (set_da_included c hash da h) h ≡ some da)
        × (da ≤ (set_da_included c hash da h).max_da_height)
        × (c.max_da_height ≤ (set_da_included c hash da h).max_da_height)
  unfolding set_da_included set_max_da_height evict include remove_da_included
  set_da_included-found c hash da h = (
    max_kept (include (evict c hash (c.hash_by_height h)) hash da h) da h
        ∙ include-here (evict c hash (c.hash_by_height h)) hash da h,
    (max_raised (include (evict c hash (c.hash_by_height h)) hash da h) da).0,
    subst (λ m. m ≤ (set_da_included c hash da h).max_da_height)
        (max_evict c hash (c.hash_by_height h))
        (max_raised (include (evict c hash (c.hash_by_height h)) hash da h) da).1,
  )

  -- After a height is deleted nothing is found there, nothing is seen or DA included under the hash
  -- that stood there, and what other heights answer with another hash is unchanged.
  delete_all_for_height-found :
      (c : Cache Item) (h k : ℕ) (hash other : Hash)
      → c.hash_by_height h ≡ some hash
      → c.hash_by_height k ≡ some other
      → h ≢ k
      → bytes_equal other hash ≡ false
      → (get_da_included_by_height (delete_all_for_height c h) h ≡ none)
        × ((delete_all_for_height c h).hashes hash ≡ false)
        × (get_da_included_by_height (delete_all_for_height c h) k ≡ get_da_included_by_height c k)
        × ((delete_all_for_height c h).items h ≡ none)
  unfolding delete_all_for_height delete_hash at_height at_hash get_da_included_by_height
      included_at
  delete_all_for_height-found c h k hash other eh ek ne different =
      rw (eh, ek, same_number h, other_number k h ne, bytes_equal_refl hash, different)
        (refl, refl, refl, refl)
    where
      same_number : (n : ℕ) → (n == n) ≡ true
      same_number n = ground arith

      other_number : (k h : ℕ) → h ≢ k → (k == h) ≡ false
      other_number k h ne = ground arith
