-- ===== src/Store/Prune.antt =====
-- PruneBlocks of pkg/store/store.go. Heights are below 2^64 - 1, where the loop's counter ends.
use chain_sdk.Base.{
  ℕ, zero, suc, ◌+◌, ◌-◌, ◌≤◌, ◌<◌, ◌≡◌, ◌==◌, refl, subst, ap, ◌∙◌, Bool, true, false, ◌⊎◌, inl,
  inr, Bool-cases, Option, none, some, leb, if◌then◌else◌, arith, Bytes, else_of, lt→leb_false,
  length, little_endian,
}
use chain_sdk.Store.{
  Db, write_header, write_data, write_signature, write_index, write_last_pruned,
  write_header_da_height, write_data_da_height, apply_write, Faults, Codec, Read, absent, broken,
  found, encode_height, last_pruned_field, header_field, get, Batch, new_batch, stage, commit,
}
use chain_sdk.Store.Saved.{Leaves, new_batch-Leaves, stage-Leaves, commit-Leaves}

pub data PruneError : Type 0 where
  batch_failed read_failed : PruneError

-- A value of another length counts as nothing pruned yet; `none` is an error.
unfoldable pub last_pruned : Read Bytes → Option ℕ
last_pruned absent = some 0
last_pruned broken = none
last_pruned (found v) = if length v == 8 then some (little_endian v) else some 0

-- A height without a header is passed over.
prune_height : Codec → Faults → ℕ → Read Bytes → Batch → Batch
unfolding stage
prune_height c f h absent batch = batch
prune_height c f h broken batch = none
prune_height c f h (found blob) batch = stage f (write_index (c.sha256 blob) none) (
    stage f (write_data_da_height h none) (
      stage f (write_header_da_height h none) (
        stage f (write_signature h none)
          (stage f (write_data h none) (stage f (write_header h none) batch)))))

-- The n heights from `last` + 1 on.
prune_heights : Codec → Faults → Db → ℕ → ℕ → Batch → Batch
unfolding prune_height get
prune_heights c f db last zero batch = batch
prune_heights c f db last (suc n) batch =
    prune_height c f (last + suc n)
      (get (f.on_get (header_field (last + suc n))) (db.headers (last + suc n)))
      (prune_heights c f db last n batch)

committed : Db → Option Db → Db × Option PruneError
committed db none = (db, some batch_failed)
committed db (some db') = (db', none)

prune_from : Codec → Faults → Db → ℕ → Option ℕ → Db × Option PruneError
unfolding committed commit prune_heights new_batch stage encode_height
prune_from c f db height none = (db, some read_failed)
prune_from c f db height (some last) =
    if leb height last
    then (db, none)
    else committed db (
        commit f db (
          stage f (write_last_pruned (some (encode_height height)))
            (prune_heights c f db last (height - last) (new_batch f))))

-- PruneBlocks: `none` is no error.
unfoldable pub prune_blocks : Codec → Faults → Db → ℕ → Db × Option PruneError
unfolding prune_from last_pruned get
prune_blocks c f db height =
    if f.on_batch
    then (db, some batch_failed)
    else prune_from c f db height (last_pruned (get (f.on_get last_pruned_field) db.last_pruned))

-- The block at height k is as it was.
abbrev SameBlock : ℕ → Db → Db → Type 0
SameBlock k db db' =
    (db'.headers k ≡ db.headers k)
    × (db'.datas k ≡ db.datas k)
    × (db'.signatures k ≡ db.signatures k)

-- What pruning never changes.
abbrev pub SameChain : Db → Db → Type 0
SameChain db db' =
    (db'.height ≡ db.height) × (db'.states ≡ db.states) × (db'.da_included ≡ db.da_included)

abbrev Pruned : ℕ → ℕ → Db → Db → Db → Type 0
Pruned last n src db db' =
    ((k : ℕ) → (k ≤ last) ⊎ (last + n < k) → SameBlock k db db')
    × ((k : ℕ) → last < k → k ≤ last + n → db.headers k ≡ src.headers k → db'.headers k ≡ none)
    × SameChain db db'

abbrev without : ℕ → Bytes → Db → Db
without h hash db = apply_write (write_index hash none) (
    apply_write (write_data_da_height h none) (
      apply_write (write_header_da_height h none) (
        apply_write (write_signature h none)
          (apply_write (write_data h none) (apply_write (write_header h none) db)))))

-- Either the header is not there, or the block is deleted.
prune_height-Leaves :
    (c : Codec) (f : Faults) (h : ℕ) (b : Bool) (o : Option Bytes) (batch : Batch) (db db' : Db)
    → Leaves db (prune_height c f h (get b o) batch) db'
    → (db0 : Db) × Leaves db batch db0
      × (((o ≡ none) × (db' ≡ db0)) ⊎ ((hash : Bytes) × (db' ≡ without h hash db0)))
unfolding prune_height get
prune_height-Leaves c f h true o batch db db' (ws, e, a) = cc
prune_height-Leaves c f h false none batch db db' l = (db', l, inl (refl, refl))
prune_height-Leaves c f h false (some blob) batch db db' l6 =
    let (db5, l5, e6) = stage-Leaves f _ _ db db' l6 in
    let (db4, l4, e5) = stage-Leaves f _ _ db db5 l5 in
    let (db3, l3, e4) = stage-Leaves f _ _ db db4 l4 in
    let (db2, l2, e3) = stage-Leaves f _ _ db db3 l3 in
    let (db1, l1, e2) = stage-Leaves f _ _ db db2 l2 in
    let (db0, l0, e1) = stage-Leaves f _ batch db db1 l1 in
    (db0, l0, inr (c.sha256 blob, rw (e6, e5, e4, e3, e2, e1) refl))

same_trans : (k : ℕ) (a b c : Db) → SameBlock k a b → SameBlock k b c → SameBlock k a c
same_trans k a b c (h, d, g) (h', d', g') = (h' ∙ h, d' ∙ d, g' ∙ g)

chain_trans : (a b c : Db) → SameChain a b → SameChain b c → SameChain a c
chain_trans a b c (h, s, d) (h', s', d') = (h' ∙ h, s' ∙ s, d' ∙ d)

without-SameBlock :
    (k h : ℕ) (hash : Bytes) (db : Db) → (k == h) ≡ false → SameBlock k db (without h hash db)
unfolding apply_write
without-SameBlock k h hash db ne = rw ne (refl, refl, refl)

without-SameChain : (h : ℕ) (hash : Bytes) (db : Db) → SameChain db (without h hash db)
unfolding apply_write
without-SameChain h hash db = (refl, refl, refl)

without-gone :
    (k h : ℕ) (hash : Bytes) (db : Db) → (k == h) ≡ true → (without h hash db).headers k ≡ none
unfolding apply_write
without-gone k h hash db eq = rw eq refl

outside :
    (last n k : ℕ)
    → (k ≤ last) ⊎ (last + suc n < k)
    → ((k ≤ last) ⊎ (last + n < k)) × ((k == last + suc n) ≡ false)
outside last n k (inl a) = (inl a, ground arith)
outside last n k (inr a) = (inr (omega arith), ground arith)

skipped :
    (last n k : ℕ) (db db0 db1 : Db)
    → (db.headers (last + suc n) ≡ none)
    → ((k : ℕ) → (k ≤ last) ⊎ (last + n < k) → SameBlock k db0 db1)
    → ((k : ℕ) → last < k → k ≤ last + n → db0.headers k ≡ db.headers k → db1.headers k ≡ none)
    → last < k
    → k ≤ last + suc n
    → db0.headers k ≡ db.headers k
    → db1.headers k ≡ none
skipped last n k db db0 db1 no_header same gone lt le src = elim (Bool-cases (k == last + suc n)) [
  | inr ne ↦ gone k lt (ground arith) src
  | inl y ↦
      (let e : k ≡ last + suc n = ground arith in
        (same k (inr (ground arith))).0 ∙ src ∙ ap (λ (i : ℕ). db.headers i) e ∙ no_header)
]

prune_heights-Leaves :
    (c : Codec) (f : Faults) (db : Db) (last n : ℕ) (b : Batch) (db' : Db)
    → Leaves db (prune_heights c f db last n b) db'
    → (db0 : Db) × Leaves db b db0 × Pruned last n db db0 db'
unfolding prune_heights
prune_heights-Leaves c f db last zero b db' l =
    (db', l, ((λ k h. (refl, refl, refl)), (λ k a b. absurd (omega arith)), (refl, refl, refl)))
prune_heights-Leaves c f db last (suc n) b db' l =
    let (db1, l1, here) =
      prune_height-Leaves c f (last + suc n) (f.on_get (header_field (last + suc n)))
        (db.headers (last + suc n)) _ db db' l in
    let (db0, l0, (same, gone, chain)) = prune_heights-Leaves c f db last n b db1 l1 in
    (
      db0,
      l0,
      elim here [
        | inl (no_header, e) ↦ (
          (λ k out. rw e (same k (outside last n k out).0)),
          (λ k lt le src. rw e (skipped last n k db db0 db1 no_header same gone lt le src)),
          rw e chain,
        )
        | inr (hash, e) ↦ rw e (
          (λ k out.
              same_trans k db0 db1 (without (last + suc n) hash db1)
                (same k (outside last n k out).0)
                (without-SameBlock k (last + suc n) hash db1 (outside last n k out).1)),
          (λ k lt le src. elim (Bool-cases (k == last + suc n)) [
            | inl y ↦ without-gone k (last + suc n) hash db1 y
            | inr ne ↦
                (without-SameBlock k (last + suc n) hash db1 ne).0 ∙ gone k lt (ground arith) src
          ]),
          chain_trans db0 db1 (without (last + suc n) hash db1) chain
              (without-SameChain (last + suc n) hash db1),
        )
      ],
    )

committed-some : (db db' : Db) (o : Option Db) → committed db o ≡ (db', none) → o ≡ some db'
unfolding committed
committed-some db db' none h = cc
committed-some db db' (some d) h = cc

reaches : (last height k : ℕ) → last < height → k ≤ height → k ≤ last + (height - last)
reaches last height k lt le = omega arith

beyond :
    (last height k : ℕ)
    → last < height
    → (k ≤ last) ⊎ (height < k)
    → (k ≤ last) ⊎ (last + (height - last) < k)
beyond last height k lt (inl a) = inl a
beyond last height k lt (inr a) = inr (omega arith)

-- Pruning to a height above the last pruned one, when it succeeds, leaves no header above the last
-- pruned height up to that height, keeps every other block, the chain's height, its states and the
-- DA included height, and records the new last pruned height.
prune_blocks-SameBlock :
    (c : Codec) (f : Faults) (db db' : Db) (height last j k : ℕ)
    → last_pruned (get (f.on_get last_pruned_field) db.last_pruned) ≡ some last
    → last < height
    → prune_blocks c f db height ≡ (db', none)
    → last < j
    → j ≤ height
    → (k ≤ last) ⊎ (height < k)
    → (db'.headers j ≡ none)
      × SameBlock k db db'
      × SameChain db db'
      × (db'.last_pruned ≡ some (encode_height height))
unfolding prune_blocks apply_write
prune_blocks-SameBlock c f db db' height last j k g lt h above below out =
    let (n, started) = else_of f.on_batch h (λ e. cc) in
    let pruned = rw (g, lt→leb_false height last lt) at started in
    let (db1, l, e) =
      stage-Leaves f (write_last_pruned (some (encode_height height))) _ db db'
        (commit-Leaves f db db' _ (committed-some db db' _ pruned)) in
    let (db0, l0, r) = prune_heights-Leaves c f db last (height - last) (new_batch f) db1 l in
    let (same, gone, chain) =
      subst (λ (d : Db). Pruned last (height - last) db d db1) (new_batch-Leaves f db db0 l0) r in
    rw e (
      gone j above (reaches last height j lt below) refl,
      same k (beyond last height k lt out),
      chain,
      refl,
    )
