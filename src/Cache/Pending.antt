-- ===== src/Cache/Pending.antt =====
-- pendingBase, PendingHeaders and PendingData of block/internal/cache: the blocks that wait for their
-- submission to the DA layer. The LRU map may evict entries between the two loops of getPending:
-- `survives` says which stay.
pub mod Listing
pub mod Progress
mod Tests
use chain_sdk.Base.{
  ℕ, zero, suc, ◌+◌, ◌-◌, ◌==◌, Bool, true, false, Option, none, some, List, [], ◌∷◌, map, ltb, leb,
  min, if◌then◌else◌, Bytes, length, add_u64, sub_u64, little_endian, put_little_endian,
}
use chain_sdk.Types.Chain.{Metadata, Data}
use chain_sdk.Types.Header.{SignedHeader}
use chain_sdk.Store.{Read, absent, broken, found}
use chain_sdk.Cache.{at_height}

-- `stored` is what the store has under the metadata key.
pub record Pending (Item : Type 0) : Type 0 where
  pub last_height : ℕ
  pub pending_cache : ℕ → Option Item
  pub stored : Option Bytes

-- The store's height and its items; `none` is an error.
pub record View (Item : Type 0) : Type 0 where
  pub store_height : Option ℕ
  pub fetch : ℕ → Option Item
  pub survives : ℕ → Bool
  pub writes_metadata : Bool

abbrev pub default_pending_cache_size : ℕ
default_pending_cache_size = 200_000

module _ {Item : Type 0} (v : View Item) where
  abbrev pub Items : Type 0
  Items = ℕ → Option Item

  pub fill_item : ℕ → Items → (Items → Items × Bool) → Option Item → Option Item → Items × Bool
  unfolding at_height
  fill_item h c rest (some cached) item = rest c
  fill_item h c rest none none = (c, false)
  fill_item h c rest none (some item) = rest (at_height c h (some item))

  -- The first loop, over `n` heights from `h` on; false is an error.
  pub fill : ℕ → ℕ → Items → Items × Bool
  unfolding fill_item
  fill zero h c = (c, true)
  fill (suc n) h c = fill_item h c (fill n (h + 1)) (c h) (v.fetch h)

  pub evict : Items → Items
  evict c h = if v.survives h then c h else none

  pub prepend_item : Item → Items × Option (List Item) → Items × Option (List Item)
  prepend_item item (c, none) = (c, none)
  prepend_item item (c, some items) = (c, some (item ∷ items))

  pub list_item :
      ℕ
      → Items
      → (Items → Items × Option (List Item))
      → Option Item
      → Option Item
      → Items × Option (List Item)
  unfolding prepend_item at_height
  list_item h c rest (some cached) item = prepend_item cached (rest c)
  list_item h c rest none none = (c, none)
  list_item h c rest none (some item) = prepend_item item (rest (at_height c h (some item)))

  -- The second loop; `none` is an error.
  pub list_items : ℕ → ℕ → Items → Items × Option (List Item)
  unfolding list_item
  list_items zero h c = (c, some [])
  list_items (suc n) h c = list_item h c (list_items n (h + 1)) (c h) (v.fetch h)

  pub with_cache : Pending Item → Items × Option (List Item) → Pending Item × Option (List Item)
  with_cache σ (c, items) = (record σ { pending_cache = c }, items)

  pub on_filled : ℕ → ℕ → Pending Item → Items × Bool → Pending Item × Option (List Item)
  unfolding with_cache list_items evict
  on_filled n h σ (c, false) = (record σ { pending_cache = c }, none)
  on_filled n h σ (c, true) = with_cache σ (list_items n h (evict c))

  pub list_between : Pending Item → Option ℕ → Pending Item × Option (List Item)
  unfolding on_filled fill
  list_between σ none = (σ, none)
  list_between σ (some height) =
      let n = min (height - σ.last_height) default_pending_cache_size in
      if σ.last_height == height
      then (σ, some [])
      else if ltb height σ.last_height
      then (σ, none)
      else on_filled n (σ.last_height + 1) σ (fill n (σ.last_height + 1) σ.pending_cache)

  -- getPending; `none` is an error.
  pub get_pending : Pending Item → Pending Item × Option (List Item)
  unfolding list_between
  get_pending σ = list_between σ v.store_height

  pub num_between : Pending Item → Option ℕ → ℕ
  num_between σ none = 0
  num_between σ (some height) = sub_u64 height σ.last_height

  -- numPending
  pub num_pending : Pending Item → ℕ
  unfolding num_between
  num_pending σ = num_between σ v.store_height

  -- setLastSubmittedHeight; an error of the write is logged only.
  pub set_last_submitted_height : Pending Item → ℕ → Pending Item
  set_last_submitted_height σ height =
      if ltb σ.last_height height
      then record σ {
        last_height = height;
        stored = if v.writes_metadata then some (put_little_endian 8 height) else σ.stored;
      }
      else σ

-- init, on what the store reads; `none` is an error.
pub last_of : Read Bytes → Option ℕ
unfolding little_endian
last_of absent = some 0
last_of broken = none
last_of (found raw) = if length raw == 8 then some (little_endian raw) else none

stored_of : Read Bytes → Option Bytes
stored_of absent = none
stored_of broken = none
stored_of (found raw) = some raw

pub started : {Item : Type 0} → Option Bytes → Option ℕ → Option (Pending Item)
started raw none = none
started raw (some last) =
    some (record { last_height = last; pending_cache = λ _. none; stored = raw })

-- newPendingBase
new_pending_base : {Item : Type 0} → Read Bytes → Option (Pending Item)
unfolding started last_of stored_of
new_pending_base r = started (stored_of r) (last_of r)

-- fetchData on what the store reads; stored data has metadata.
with_height : Data → Option Metadata → Option Data
with_height d none = none
with_height d (some m) = if m.height == 0 then none else some d

fetch_data : Read (SignedHeader × Data) → Option Data
unfolding with_height
fetch_data absent = none
fetch_data broken = none
fetch_data (found (h, d)) = with_height d d.metadata

fetch_signed_header : Read SignedHeader → Option SignedHeader
fetch_signed_header absent = none
fetch_signed_header broken = none
fetch_signed_header (found h) = if h.height == 0 then none else some h

module _ (v : View Data) where
  pub advance_one : ℕ → Pending Data → (Pending Data → Pending Data) → Option Data → Pending Data
  unfolding set_last_submitted_height
  advance_one height σ rest none = σ
  advance_one height σ rest (some d) =
      if ltb 0 (length d.txs) then σ else rest (set_last_submitted_height v σ height)

  -- The loop over `n` heights from `height` on.
  pub advance_over : ℕ → ℕ → Pending Data → Pending Data
  unfolding advance_one
  advance_over zero height σ = σ
  advance_over (suc n) height σ =
      advance_one height σ (advance_over n (height + 1)) (v.fetch height)

  pub advance_to : Pending Data → Option ℕ → Pending Data
  unfolding advance_over
  advance_to σ none = σ
  advance_to σ (some store_height) =
      advance_over (store_height - σ.last_height) (σ.last_height + 1) σ

  pub advance_past_empty_data : Pending Data → Pending Data
  unfolding advance_to
  advance_past_empty_data σ = advance_to σ v.store_height

  num_pending_data : Pending Data → Pending Data × ℕ
  unfolding num_pending advance_past_empty_data
  num_pending_data σ = let σ' = advance_past_empty_data σ in (σ', num_pending v σ')
