-- ===== src/Cache/Pending/Listing.antt =====
-- What getPending returns.
use chain_sdk.Base.{
  ℕ, zero, suc, ◌+◌, ◌-◌, ◌==◌, ◌≡◌, refl, sym, ap, ◌∙◌, subst, inl, inr, Bool, true, false,
  Bool-cases, Option, none, some, List, [], ◌∷◌, ltb, min, if◌then◌else◌, if_of_true, if_of_false,
  arith, ==_iff,
}
use chain_sdk.Cache.{at_height}
use chain_sdk.Cache.Pending.{
  Pending, View, default_pending_cache_size, Items, fill_item, fill, evict, prepend_item, list_item,
  list_items, with_cache, on_filled, list_between, get_pending,
}

module _ {Item : Type 0} (v : View Item) where
  -- Every cached item is the one that the store has.
  abbrev IsFaithful : Items v → Type 0
  IsFaithful c = (h : ℕ) (x : Item) → c h ≡ some x → v.fetch h ≡ some x

  abbrev cons_item : Option Item → Option (List Item) → Option (List Item)
  cons_item none items = none
  cons_item (some item) none = none
  cons_item (some item) (some items) = some (item ∷ items)

  -- The items of `n` heights from `h` on, without a cache.
  abbrev fetch_all : ℕ → ℕ → Option (List Item)
  fetch_all zero h = some []
  fetch_all (suc n) h = cons_item (v.fetch h) (fetch_all n (h + 1))

  cons_item-none : (o : Option Item) → cons_item o none ≡ none
  cons_item-none none = refl
  cons_item-none (some item) = refl

  at_height-IsFaithful :
      (c : Items v) (h : ℕ) (item : Item)
      → v.fetch h ≡ some item
      → IsFaithful c
      → IsFaithful (at_height c h (some item))
  unfolding at_height
  at_height-IsFaithful c h item e f k x r = elim (Bool-cases (k == h)) [
    | inl y ↦ subst (λ (j : ℕ). v.fetch j ≡ some x) (sym ((==_iff k h).0 y)) (e ∙ rw y at r)
    | inr n ↦ f k x (rw n at r)
  ]

  evict-IsFaithful : (c : Items v) → IsFaithful c → IsFaithful (evict v c)
  unfolding evict
  evict-IsFaithful c f k x r = elim (Bool-cases (v.survives k)) [
    | inl y ↦ f k x (rw y at r)
    | inr n ↦ cc (rw n at r)
  ]

  -- A loop that ends with an error has met a height that cannot be fetched.
  abbrev Fills : ℕ → ℕ → Items v × Bool → Type 0
  Fills n h (c, true) = IsFaithful c
  Fills n h (c, false) = IsFaithful c × (fetch_all n h ≡ none)

  fill_item-Fills :
      (n h : ℕ) (c : Items v) (o item : Option Item)
      → IsFaithful c
      → c h ≡ o
      → v.fetch h ≡ item
      → ((c : Items v) → IsFaithful c → Fills n (h + 1) (fill v n (h + 1) c))
      → Fills (suc n) h (fill_item v h c (fill v n (h + 1)) o item)
  unfolding fill_item
  fill_item-Fills n h c (some cached) item f e i ih = later (fill v n (h + 1) c) (ih c f)
    where
      later : (x : Items v × Bool) → Fills n (h + 1) x → Fills (suc n) h x
      later (c', true) a = a
      later (c', false) (a, e) = (a, rw e (cons_item-none (v.fetch h)))
  fill_item-Fills n h c none none f e i ih = (f, rw i refl)
  fill_item-Fills n h c none (some item) f e i ih =
      later (fill v n (h + 1) (at_height c h (some item)))
        (ih (at_height c h (some item)) (at_height-IsFaithful c h item i f))
    where
      later : (x : Items v × Bool) → Fills n (h + 1) x → Fills (suc n) h x
      later (c', true) a = a
      later (c', false) (a, e) = (a, rw e (cons_item-none (v.fetch h)))

  fill-Fills : (n h : ℕ) (c : Items v) → IsFaithful c → Fills n h (fill v n h c)
  unfolding fill
  fill-Fills zero h c f = f
  fill-Fills (suc n) h c f =
      fill_item-Fills n h c (c h) (v.fetch h) f refl refl (fill-Fills n (h + 1))

  abbrev ListsAs : Option (List Item) → Items v × Option (List Item) → Type 0
  ListsAs spec (c, items) = IsFaithful c × (items ≡ spec)

  prepend_item-ListsAs :
      (item : Item) (spec : Option (List Item)) (x : Items v × Option (List Item))
      → ListsAs spec x
      → ListsAs (cons_item (some item) spec) (prepend_item v item x)
  unfolding prepend_item
  prepend_item-ListsAs item spec (c, none) (f, e) =
      (f, subst (λ (s : Option (List Item)). none ≡ cons_item (some item) s) e refl)
  prepend_item-ListsAs item spec (c, some items) (f, e) =
      (f, subst (λ (s : Option (List Item)). some (item ∷ items) ≡ cons_item (some item) s) e refl)

  list_item-ListsAs :
      (h : ℕ) (c : Items v) (rest : Items v → Items v × Option (List Item))
      (spec : Option (List Item)) (o item : Option Item)
      → IsFaithful c
      → c h ≡ o
      → v.fetch h ≡ item
      → ((c : Items v) → IsFaithful c → ListsAs spec (rest c))
      → ListsAs (cons_item item spec) (list_item v h c rest o item)
  unfolding list_item
  list_item-ListsAs h c rest spec (some cached) item f e i ih =
      subst (λ (o : Option Item). ListsAs (cons_item o spec) (prepend_item v cached (rest c)))
        (sym (f h cached e) ∙ i) (prepend_item-ListsAs cached spec (rest c) (ih c f))
  list_item-ListsAs h c rest spec none none f e i ih = (f, refl)
  list_item-ListsAs h c rest spec none (some item) f e i ih =
      prepend_item-ListsAs item spec (rest (at_height c h (some item)))
        (ih (at_height c h (some item)) (at_height-IsFaithful c h item i f))

  list_items-ListsAs :
      (n h : ℕ) (c : Items v) → IsFaithful c → ListsAs (fetch_all n h) (list_items v n h c)
  unfolding list_items
  list_items-ListsAs zero h c f = (f, refl)
  list_items-ListsAs (suc n) h c f =
      list_item-ListsAs h c (list_items v n (h + 1)) (fetch_all n (h + 1)) (c h) (v.fetch h) f refl
        refl (list_items-ListsAs n (h + 1))

  -- What getPending has to return for a store of this height.
  abbrev pub pending_of : ℕ → ℕ → Option (List Item)
  pending_of last height =
      if ltb height last
      then none
      else fetch_all (min (height - last) default_pending_cache_size) (last + 1)

  abbrev pub Returns : Option (List Item) → Pending Item × Option (List Item) → Type 0
  Returns spec (σ, items) = IsFaithful σ.pending_cache × (items ≡ spec)

  on_filled-Returns :
      (n h : ℕ) (σ : Pending Item) (x : Items v × Bool)
      → Fills n h x
      → Returns (fetch_all n h) (on_filled v n h σ x)
  unfolding on_filled with_cache
  on_filled-Returns n h σ (c, true) f = list_items-ListsAs n h (evict v c) (evict-IsFaithful c f)
  on_filled-Returns n h σ (c, false) (f, e) = (f, sym e)

  pending_of-same : (last height : ℕ) → last ≡ height → some [] ≡ pending_of last height
  pending_of-same last height e =
      let not_above : ltb height last ≡ false = ground arith in
      let no_rounds : 0 ≡ min (height - last) default_pending_cache_size = omega arith in
      rw not_above (ap (λ (n : ℕ). fetch_all n (last + 1)) no_rounds)

  list_between-Returns :
      (σ : Pending Item) (height : ℕ)
      → IsFaithful σ.pending_cache
      → Returns (pending_of σ.last_height height) (list_between v σ (some height))
  unfolding list_between
  list_between-Returns σ height f =
      let n = min (height - σ.last_height) default_pending_cache_size in
      let from = σ.last_height + 1 in
      let spec = pending_of σ.last_height height in
      elim (Bool-cases (σ.last_height == height)) [
        | inl y ↦
            if_of_true (Returns spec) (σ.last_height == height) _ _ y
              (f, pending_of-same σ.last_height height ((==_iff σ.last_height height).0 y))
        | inr d ↦
            if_of_false (Returns spec) (σ.last_height == height) _ _ d
              (elim (Bool-cases (ltb height σ.last_height)) [
                | inl above ↦
                    if_of_true (Returns spec) (ltb height σ.last_height) _ _ above
                      (f, rw above refl)
                | inr below ↦ if_of_false (Returns spec) (ltb height σ.last_height) _ _ below (
                    rw below (
                      on_filled-Returns n from σ (fill v n from σ.pending_cache)
                        (fill-Fills n from σ.pending_cache f)))
              ])
      ]

  -- Where the store's height can be read, getPending returns the items after the last submitted
  -- height up to the store's, in order and at most as many as the cache has room for, as if each
  -- were fetched from the store: an error where one of them cannot be fetched or the last submitted
  -- height is above the store's. It keeps the cache faithful to the store, whatever the cache
  -- evicts.
  pub get_pending-Returns :
      (σ : Pending Item) (height : ℕ)
      → IsFaithful σ.pending_cache
      → v.store_height ≡ some height
      → Returns (pending_of σ.last_height height) (get_pending v σ)
  unfolding get_pending
  get_pending-Returns σ height f e =
      subst (λ (o : Option ℕ). Returns (pending_of σ.last_height height) (list_between v σ o))
        (sym e) (list_between-Returns σ height f)
