-- ===== src/Store/Rollback/Bounds.antt =====
-- What Rollback of pkg/store/store.go deletes and what it keeps.
use chain_sdk.Base.{
  ℕ, zero, suc, ◌+◌, ◌-◌, ◌≤◌, ◌<◌, ◌^◌, ◌≡◌, ◌==◌, refl, sym, ap, ◌∙◌, Bool, true, false, ◌⊎◌, inl,
  inr, Bool-cases, Option, none, some, leb, leb→le, ◌≢◌, arith, Bytes, else_of, length,
  little_endian, little_endian-put, some-inj,
}
use chain_sdk.Store.{
  Db, write_height, write_header, write_data, write_signature, write_index, write_state,
  write_da_included, apply_write, Faults, no_faults, Codec, Read, absent, broken, found,
  encode_height, decode_height, da_included_field, get, get_height, Batch, new_batch,
}
use chain_sdk.Store.Saved.{
  Leaves, new_batch-Leaves, stage-Leaves, commit-Leaves, KeepsAt, decode_height-encode_height,
}
use chain_sdk.Store.Rollback.{
  RollbackError, stage_height, stage_heights, check_included, committed, roll, rollback,
}

-- Nothing is stored at height k.
abbrev pub GoneAt : ℕ → Db → Type 0
GoneAt k db =
    (db.headers k ≡ none) × (db.datas k ≡ none) × (db.signatures k ≡ none) × (db.states k ≡ none)

-- The keys of one height but for its index.
abbrev pub without : ℕ → Bytes → Db → Db
without h hash db = apply_write (write_state h none) (
    apply_write (write_index hash none) (
      apply_write (write_signature h none)
        (apply_write (write_data h none) (apply_write (write_header h none) db))))

stage_height-Leaves :
    (c : Codec) (f : Faults) (h : ℕ) (r : Read Bytes) (b : Batch) (db db' : Db)
    → Leaves db (stage_height c f h r b) db'
    → (hash : Bytes) × (db0 : Db) × Leaves db b db0 × (db' ≡ without h hash db0)
unfolding stage_height
stage_height-Leaves c f h absent b db db' (ws, e, a) = cc
stage_height-Leaves c f h broken b db db' (ws, e, a) = cc
stage_height-Leaves c f h (found blob) b db db' l5 =
    let (db4, l4, e5) = stage-Leaves f _ _ db db' l5 in
    let (db3, l3, e4) = stage-Leaves f _ _ db db4 l4 in
    let (db2, l2, e3) = stage-Leaves f _ _ db db3 l3 in
    let (db1, l1, e2) = stage-Leaves f _ _ db db2 l2 in
    let (db0, l0, e1) = stage-Leaves f _ b db db1 l1 in
    (c.sha256 blob, db0, l0, rw (e5, e4, e3, e2, e1) refl)

-- What happens to height k when n heights above `height` are deleted.
abbrev Rolled : ℕ → ℕ → Db → Db → Type 0
Rolled height n db db' =
    ((k : ℕ) → k ≤ height → KeepsAt k db db')
    × ((k : ℕ) → height < k → k ≤ height + n → GoneAt k db')
    × ((k : ℕ) → GoneAt k db → GoneAt k db')
    × (db'.da_included ≡ db.da_included)

without-KeepsAt :
    (k h : ℕ) (hash : Bytes) (db : Db) → (k == h) ≡ false → KeepsAt k db (without h hash db)
unfolding apply_write
without-KeepsAt k h hash db ne = rw ne (refl, refl, refl, refl)

without-GoneAt : (k h : ℕ) (hash : Bytes) (db : Db) → (k == h) ≡ true → GoneAt k (without h hash db)
unfolding apply_write
without-GoneAt k h hash db eq = rw eq (refl, refl, refl, refl)

stays_gone : (k : ℕ) (db db' : Db) → KeepsAt k db db' → GoneAt k db → GoneAt k db'
stays_gone k db db' (h, d, g, s) (h0, d0, g0, s0) = (h ∙ h0, d ∙ d0, g ∙ g0, s ∙ s0)

without-gone : (k h : ℕ) (hash : Bytes) (db : Db) → GoneAt k db → GoneAt k (without h hash db)
without-gone k h hash db g = elim (Bool-cases (k == h)) [
  | inl y ↦ without-GoneAt k h hash db y
  | inr n ↦ stays_gone k db (without h hash db) (without-KeepsAt k h hash db n) g
]

without-da_included :
    (h : ℕ) (hash : Bytes) (db : Db) → (without h hash db).da_included ≡ db.da_included
unfolding apply_write
without-da_included h hash db = refl

keeps_trans : (k : ℕ) (a b c : Db) → KeepsAt k a b → KeepsAt k b c → KeepsAt k a c
keeps_trans k a b c (h, d, g, s) (h', d', g', s') = (h' ∙ h, d' ∙ d, g' ∙ g, s' ∙ s)

stage_heights-Leaves :
    (c : Codec) (f : Faults) (src : Db) (height n : ℕ) (b : Batch) (db db' : Db)
    → Leaves db (stage_heights c f src height n b) db'
    → (db0 : Db) × Leaves db b db0 × Rolled height n db0 db'
unfolding stage_heights
stage_heights-Leaves c f src height zero b db db' l =
    (db', l, ((λ k h. (refl, refl, refl, refl)), (λ k a b. absurd (omega arith)), (λ k g. g), refl))
stage_heights-Leaves c f src height (suc n) b db db' l =
    let (db1, l1, (kept, gone, stays, da)) = stage_heights-Leaves c f src height n _ db db' l in
    let (hash, db0, l0, e) = stage_height-Leaves c f (height + suc n) _ b db db1 l1 in
    (
      db0,
      l0,
      (
        (λ k le.
            keeps_trans k db0 db1 db'
              (rw e (without-KeepsAt k (height + suc n) hash db0 (ground arith))) (kept k le)),
        (λ k lt le. elim (Bool-cases (k == height + suc n)) [
          | inl y ↦ stays k (rw e (without-GoneAt k (height + suc n) hash db0 y))
          | inr ne ↦ gone k lt (ground arith)
        ]),
        (λ k g. stays k (rw e (without-gone k (height + suc n) hash db0 g))),
        da ∙ ap (λ (d : Db). d.da_included) e ∙ without-da_included (height + suc n) hash db0,
      ),
    )

found-inj {ℓ} : {A : Type ℓ} {x y : A} → found x ≡ found y → x ≡ y
found-inj h = cc

not_eight : (n : ℕ) → (n == 8) ≡ false → n ≢ 8
not_eight n h = ground arith

-- What the check of the DA included height stages.
abbrev Checked : ℕ → Bool → Read Bytes → Db → Db → Type 0
Checked height aggregator r db db' =
    ((db' ≡ db) × ((v : Bytes) → r ≡ found v → length v ≡ 8 → little_endian v ≤ height))
    ⊎ ((aggregator ≡ false)
        × (db' ≡ apply_write (write_da_included (some (encode_height height))) db))

check_included-Leaves :
    (f : Faults) (height : ℕ) (aggregator : Bool) (r : Read Bytes) (b b' : Batch) (db db' : Db)
    → check_included f height aggregator r b ≡ (none, b')
    → Leaves db b' db'
    → (db0 : Db) × Leaves db b db0 × Checked height aggregator r db0 db'
unfolding check_included
check_included-Leaves f height aggregator absent b b' db db' h l =
    (db', rw (ap (λ p. p.1) h) l, inl (refl, (λ v e n. cc)))
check_included-Leaves f height aggregator broken b b' db db' h l = cc
check_included-Leaves f height aggregator (found v) b b' db db' h l =
    elim (Bool-cases (length v == 8)) [
      | inr n ↦ (
        db',
        rw (ap (λ p. p.1) (rw n at h)) l,
        inl (refl, (λ u e m. absurd (not_eight (length v) n (rw (sym (found-inj e)) at m)))),
      )
      | inl y ↦ elim (Bool-cases (leb (little_endian v) height)) [
        | inl le ↦ (
          db',
          rw (ap (λ p. p.1) (rw (y, le) at h)) l,
          inl (refl, (λ u e m. rw (sym (found-inj e)) (leb→le (little_endian v) height le))),
        )
        | inr gt ↦ elim (Bool-cases aggregator) [
          | inl t ↦ cc (rw (y, gt, t) at h)
          | inr u ↦
              (let (db0, l0, e0) =
                  stage-Leaves f _ b db db' (rw (ap (λ p. p.1) (rw (y, gt, u) at h)) l) in
                (db0, l0, inr (u, e0)))
        ]
      ]
    ]

committed-some : (db db' : Db) (o : Option Db) → committed db o ≡ (db', none) → o ≡ some db'
unfolding committed
committed-some db db' none h = cc
committed-some db db' (some d) h = cc

roll-Leaves :
    (c : Codec) (f : Faults) (db db' : Db) (height current : ℕ) (r : Option RollbackError × Batch)
    → roll c f db height current r ≡ (db', none)
    → (b : Batch) × (r ≡ (none, b))
      × (db1 : Db) × Leaves db (stage_heights c f db height (current - height) b) db1
      × (db' ≡ apply_write (write_height (some (encode_height height))) db1)
unfolding roll
roll-Leaves c f db db' height current (some e, b) h = cc
roll-Leaves c f db db' height current (none, b) h =
    let (db1, l, e) =
      stage-Leaves f _ _ db db' (commit-Leaves f db db' _ (committed-some db db' _ h)) in
    (b, refl, db1, l, e)

rollback-Leaves :
    (c : Codec) (f : Faults) (db db' : Db) (height current : ℕ) (aggregator : Bool)
    → get_height f db ≡ some current
    → rollback c f db height aggregator ≡ (db', none)
    → (height < current)
      × (db0 : Db) × (db1 : Db) × Checked height aggregator
          (get (f.on_get da_included_field) db.da_included)
          db
          db0
      × Rolled height (current - height) db0 db1
      × (db' ≡ apply_write (write_height (some (encode_height height))) db1)
unfolding rollback
rollback-Leaves c f db db' height current aggregator g h =
    let (n, started) = else_of f.on_batch h (λ e. cc) in
    let (lt, rolled) = else_of (leb current height) (rw g at started) (λ e. cc) in
    let (b, e, db1, l, e') = roll-Leaves c f db db' height current _ rolled in
    let (db0, l0, r) = stage_heights-Leaves c f db height (current - height) b db db1 l in
    let (start, l00, ch) =
      check_included-Leaves f height aggregator (get (f.on_get da_included_field) db.da_included)
        (new_batch f) b db db0 e l0 in
    (ground arith, db0, db1, rw (new_batch-Leaves f db start l00) at ch, r, e')

rolled_all :
    (height current j : ℕ) → height < current → j ≤ current → j ≤ height + (current - height)
rolled_all height current j lt le = omega arith

Checked-KeepsAt :
    (height k : ℕ) (aggregator : Bool) (r : Read Bytes) (db db' : Db)
    → Checked height aggregator r db db'
    → KeepsAt k db db'
unfolding apply_write
Checked-KeepsAt height k aggregator r db db' (inl (e, h)) = rw e (refl, refl, refl, refl)
Checked-KeepsAt height k aggregator r db db' (inr (a, e)) = rw e (refl, refl, refl, refl)

-- A rollback that succeeds sets the height, keeps the blocks and states up to it, and leaves none
-- at the heights above it, up to the height that the store had.
pub rollback-KeepsAt :
    (c : Codec) (f : Faults) (db db' : Db) (height current j k : ℕ) (aggregator : Bool)
    → get_height f db ≡ some current
    → height < 2 ^ 64
    → rollback c f db height aggregator ≡ (db', none)
    → k ≤ height
    → height < j
    → j ≤ current
    → (get_height no_faults db' ≡ some height) × KeepsAt k db db' × GoneAt j db'
unfolding apply_write get_height decode_height
rollback-KeepsAt c f db db' height current j k aggregator g bound h below above le =
    let (lt, db0, db1, ch, (kept, gone, stays, da), e) =
      rollback-Leaves c f db db' height current aggregator g h in
    rw e (
      decode_height-encode_height height bound,
      keeps_trans k db db0 db1 (Checked-KeepsAt height k aggregator _ db db0 ch) (kept k below),
      gone j above (rolled_all height current j lt le),
    )

included_after :
    (f : Faults) (height : ℕ) (aggregator : Bool) (db db0 : Db) (v : Bytes)
    → height < 2 ^ 64
    → f.on_get da_included_field ≡ false
    → Checked height aggregator (get (f.on_get da_included_field) db.da_included) db db0
    → db0.da_included ≡ some v
    → length v ≡ 8
    → little_endian v ≤ height
unfolding apply_write get encode_height
included_after f height aggregator db db0 v bound ok (inl (e, h)) stored eight =
    h v (rw (ok, ap (λ (d : Db). d.da_included) (sym e), stored) refl) eight
included_after f height aggregator db db0 v bound ok (inr (a, e)) stored eight =
    rw (sym (some-inj (ap (λ (d : Db). d.da_included) (sym e) ∙ stored)))
      (omega (arith, little_endian-put 8 height bound))

-- After a rollback that succeeds, where the DA included height can be read and one of eight bytes
-- is stored, it is not above the new height.
rollback-Finalized :
    (c : Codec) (f : Faults) (db db' : Db) (height current : ℕ) (aggregator : Bool) (v : Bytes)
    → get_height f db ≡ some current
    → height < 2 ^ 64
    → f.on_get da_included_field ≡ false
    → rollback c f db height aggregator ≡ (db', none)
    → db'.da_included ≡ some v
    → length v ≡ 8
    → (little_endian v ≤ height)
unfolding apply_write
rollback-Finalized c f db db' height current aggregator v g bound ok h stored eight =
    let (lt, db0, db1, ch, (kept, gone, stays, da), e) =
      rollback-Leaves c f db db' height current aggregator g h in
    included_after f height aggregator db db0 v bound ok ch
      (sym da ∙ sym (ap (λ (d : Db). d.da_included) e) ∙ stored) eight
