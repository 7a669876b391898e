-- ===== src/Cache.antt =====
-- The cache of block/internal/cache/generic_cache.go: the hashes that were seen or DA included, and
-- the hash at each height. The LRU maps evict beyond their sizes (200,000 and more entries); they
-- are maps here, as they are below that.
pub mod Snapshot
pub mod Included
pub mod Pending
use chain_sdk.Base.{
  ℕ, ◌==◌, Bool, true, false, not, ◌&&◌, Option, none, some, List, [], ◌∷◌, leb, if◌then◌else◌,
  Bytes, bytes_equal,
}

abbrev pub Hash : Type 0
Hash = Bytes

pub record Cache (Item : Type 0) : Type 0 where
  pub items : ℕ → Option Item
  pub hashes : Hash → Bool
  pub da_included : Hash → Option ℕ
  pub hash_by_height : ℕ → Option Hash
  pub max_da_height : ℕ

unfoldable pub at_height {ℓ} : {A : Type ℓ} → (ℕ → A) → ℕ → A → ℕ → A
at_height f h v k = if k == h then v else f k

unfoldable pub at_hash {ℓ} : {A : Type ℓ} → (Hash → A) → Hash → A → Hash → A
at_hash f h v k = if bytes_equal k h then v else f k

module _ {Item : Type 0} where
  unfoldable pub new_cache : Cache Item
  new_cache = record {
    items = λ _. none;
    hashes = λ _. false;
    da_included = λ _. none;
    hash_by_height = λ _. none;
    max_da_height = 0;
  }

  unfoldable set_item : Cache Item → ℕ → Item → Cache Item
  unfolding at_height
  set_item c h item = record c { items = at_height c.items h (some item) }

  -- Returns and removes the item.
  unfoldable get_next_item : Cache Item → ℕ → Cache Item × Option Item
  unfolding at_height
  get_next_item c h = elim (c.items h) [
    | none ↦ (c, none)
    | some item ↦ (record c { items = at_height c.items h none }, some item)
  ]

  unfoldable pub set_seen : Cache Item → Hash → ℕ → Cache Item
  unfolding at_height at_hash
  set_seen c hash h = record c {
    hashes = at_hash c.hashes hash true;
    hash_by_height = at_height c.hash_by_height h (some hash);
  }

  included_at : Cache Item → Option Hash → Option ℕ
  included_at c none = none
  included_at c (some hash) = c.da_included hash

  unfoldable pub get_da_included_by_height : Cache Item → ℕ → Option ℕ
  unfolding included_at
  get_da_included_by_height c h = included_at c (c.hash_by_height h)

  unfoldable pub remove_da_included : Cache Item → Hash → Cache Item
  unfolding at_hash
  remove_da_included c hash = record c { da_included = at_hash c.da_included hash none }

  set_max_da_height : Cache Item → ℕ → Cache Item
  set_max_da_height c da = if leb da c.max_da_height then c else record c { max_da_height = da }

  -- A placeholder that stands at the height is evicted.
  evict : Cache Item → Hash → Option Hash → Cache Item
  unfolding remove_da_included
  evict c hash none = c
  evict c hash (some prev) = if bytes_equal prev hash then c else remove_da_included c prev

  include : Cache Item → Hash → ℕ → ℕ → Cache Item
  unfolding at_height at_hash
  include c hash da h = record c {
    da_included = at_hash c.da_included hash (some da);
    hash_by_height = at_height c.hash_by_height h (some hash);
  }

  unfoldable pub set_da_included : Cache Item → Hash → ℕ → ℕ → Cache Item
  unfolding evict include set_max_da_height
  set_da_included c hash da h =
      set_max_da_height (include (evict c hash (c.hash_by_height h)) hash da h) da

  delete_hash : Cache Item → ℕ → Option Hash → Cache Item
  unfolding at_height at_hash
  delete_hash c h none = c
  delete_hash c h (some hash) = record c {
    hash_by_height = at_height c.hash_by_height h none;
    hashes = at_hash c.hashes hash false;
    da_included = at_hash c.da_included hash none;
  }

  unfoldable pub delete_all_for_height : Cache Item → ℕ → Cache Item
  unfolding delete_hash at_height
  delete_all_for_height c h =
      delete_hash (record c { items = at_height c.items h none }) h (c.hash_by_height h)
