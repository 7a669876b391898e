-- ===== src/Store/Saved.antt =====
-- A block, its height and its state, staged in one batch and read back.
use chain_sdk.Base.{
  ℕ, ◌<◌, ◌^◌, ◌≡◌, ◌==◌, ◌≢◌, refl, sym, ap, ◌∙◌, true, false, Bool-cases, Option, inl, inr,
  Bool-cases, none, some, List, [], ◌∷◌, ◌++◌, arith, Bytes, little_endian-put, put_little_endian,
  unless-some, lt→leb_false,
}
use chain_sdk.Types.Header.{SignedHeader}
use chain_sdk.Types.Chain.{State, Data}
use chain_sdk.Store.{
  Db, Write, height_field, write_height, write_header, write_data, write_signature, write_index,
  write_state, apply_write, apply_all, Faults, no_faults, Codec, IsCodec, found, encode_height,
  decode_height, get_height, get_block_data, get_signature, get_state, Batch, new_batch, stage,
  set_height, save_block_data, save_encoded, stage_state, update_state, commit,
}

apply_all-append :
    (ws : List Write) (w : Write) (db : Db)
    → apply_all (ws ++ w ∷ []) db ≡ apply_write w (apply_all ws db)
unfolding apply_all
apply_all-append [] w db = refl
apply_all-append (v ∷ ws) w db = apply_all-append ws w (apply_write v db)

-- What a batch leaves in the datastore when it is committed.
abbrev pub Leaves : Db → Batch → Db → Type 0
Leaves db b db' = (ws : List Write) × (b ≡ some ws) × (apply_all ws db ≡ db')

pub new_batch-Leaves : (f : Faults) (db db' : Db) → Leaves db (new_batch f) db' → db' ≡ db
unfolding new_batch apply_all
new_batch-Leaves f db db' (ws, e, a) = ground arith

pub stage-Leaves :
    (f : Faults) (w : Write) (b : Batch) (db db' : Db)
    → Leaves db (stage f w b) db'
    → (db0 : Db) × Leaves db b db0 × (db' ≡ apply_write w db0)
unfolding stage
stage-Leaves f w none db db' (ws, e, a) = cc
stage-Leaves f w (some ws0) db db' (ws, e, a) =
    let g : ws0 ++ w ∷ [] ≡ ws = unless-some (f.on_stage w) (ws0 ++ w ∷ []) ws e in
    (
      apply_all ws0 db,
      (ws0, refl, refl),
      sym a ∙ ap (λ (l : List Write). apply_all l db) (sym g) ∙ apply_all-append ws0 w db,
    )

pub commit-Leaves :
    (f : Faults) (db db' : Db) (b : Batch) → commit f db b ≡ some db' → Leaves db b db'
unfolding commit
commit-Leaves f db db' none h = cc
commit-Leaves f db db' (some ws) h = (ws, refl, unless-some f.on_commit (apply_all ws db) db' h)

pub decode_height-encode_height : (h : ℕ) → h < 2 ^ 64 → decode_height (encode_height h) ≡ some h
unfolding decode_height encode_height put_little_endian
decode_height-encode_height h b = ap some (little_endian-put 8 h b)

-- A batch that saves a block with its signature, the height and the state, as the executor and the
-- syncer stage it.
unfoldable pub stage_block : Codec → Faults → Db → SignedHeader → Data → Bytes → ℕ → State → Batch
unfolding new_batch
stage_block c f db header block_data signature h s =
    update_state c f s
      (set_height f db h (save_block_data c f header block_data signature (new_batch f)))

-- The keys of one block.
abbrev put_block : Bytes → ℕ → Bytes → Bytes → Bytes → Db → Db
put_block hash h header_blob data_blob signature db =
    apply_write (write_index hash (some (encode_height h))) (
      apply_write (write_signature h (some signature)) (
        apply_write (write_data h (some data_blob))
          (apply_write (write_header h (some header_blob)) db)))

save_encoded-Leaves :
    (c : Codec) (f : Faults) (h : ℕ) (ho bo : Option Bytes) (signature : Bytes) (b : Batch)
    (db db' : Db)
    → Leaves db (save_encoded c f h ho bo signature b) db'
    → (hb : Bytes) × (bb : Bytes) × (db0 : Db) × Leaves db b db0
      × (ho ≡ some hb)
      × (bo ≡ some bb)
      × (db' ≡ put_block (c.sha256 hb) h hb bb signature db0)
unfolding save_encoded
save_encoded-Leaves c f h none bo signature b db db' (ws, e, a) = cc
save_encoded-Leaves c f h (some hb) none signature b db db' (ws, e, a) = cc
save_encoded-Leaves c f h (some hb) (some bb) signature b db db' l4 =
    let (db3, l3, e4) = stage-Leaves f _ _ db db' l4 in
    let (db2, l2, e3) = stage-Leaves f _ _ db db3 l3 in
    let (db1, l1, e2) = stage-Leaves f _ _ db db2 l2 in
    let (db0, l0, e1) = stage-Leaves f _ b db db1 l1 in
    (hb, bb, db0, l0, refl, refl, rw (e4, e3, e2, e1) refl)

set_height-Leaves :
    (f : Faults) (db : Db) (h current : ℕ) (b : Batch) (db' : Db)
    → get_height f db ≡ some current
    → current < h
    → Leaves db (set_height f db h b) db'
    → (db0 : Db) × Leaves db b db0 × (db' ≡ apply_write (write_height (some (encode_height h))) db0)
unfolding set_height
set_height-Leaves f db h current b db' g lt l =
    stage-Leaves f (write_height (some (encode_height h))) b db db'
      (rw (g, lt→leb_false h current lt) at l)

pub stage_state-Leaves :
    (f : Faults) (h : ℕ) (o : Option Bytes) (b : Batch) (db db' : Db)
    → Leaves db (stage_state f h o b) db'
    → (v : Bytes) × (db0 : Db) × Leaves db b db0
      × (o ≡ some v)
      × (db' ≡ apply_write (write_state h (some v)) db0)
unfolding stage_state
stage_state-Leaves f h none b db db' (ws, e, a) = cc
stage_state-Leaves f h (some v) b db db' l =
    let (db0, l0, e) = stage-Leaves f _ b db db' l in (v, db0, l0, refl, e)

-- The datastore that the batch leaves.
abbrev pub with_block : Bytes → ℕ → Bytes → Bytes → Bytes → Bytes → Db → Db
with_block hash h header_blob data_blob signature state_blob db =
    apply_write (write_state h (some state_blob)) (
      apply_write (write_height (some (encode_height h)))
        (put_block hash h header_blob data_blob signature db))

stage_block-Leaves :
    (c : Codec) (f : Faults) (header : SignedHeader) (block_data : Data) (signature : Bytes)
    (s : State) (current : ℕ) (db db' : Db)
    → get_height f db ≡ some current
    → current < header.height
    → s.last_block_height ≡ header.height
    → Leaves db (stage_block c f db header block_data signature header.height s) db'
    → (hb : Bytes) × (bb : Bytes) × (v : Bytes) × (c.encode_header header ≡ some hb)
      × (c.encode_data block_data ≡ some bb)
      × (c.encode_state s ≡ some v)
      × (db' ≡ with_block (c.sha256 hb) header.height hb bb signature v db)
unfolding stage_block update_state save_block_data
stage_block-Leaves c f header block_data signature s current db db' g lt e l =
    let (v, db2, l2, ev, e2) =
      stage_state-Leaves f s.last_block_height (c.encode_state s) _ db db' l in
    let (db1, l1, e1) = set_height-Leaves f db header.height current _ db2 g lt l2 in
    let (hb, bb, db0, l0, eh, eb, e0) =
      save_encoded-Leaves c f header.height (c.encode_header header) (c.encode_data block_data)
        signature _ db db1 l1 in
    (hb, bb, v, eh, eb, ev, rw (e2, e1, e0, new_batch-Leaves f db db0 l0, e) refl)

-- What the store then answers.
abbrev pub Holds : Codec → Db → ℕ → SignedHeader → Data → Bytes → State → Type 0
Holds c db h header block_data signature s =
    (get_block_data c no_faults db h ≡ found (header, block_data))
    × (get_signature no_faults db h ≡ found signature)
    × (get_height no_faults db ≡ some h)
    × (get_state c no_faults db ≡ found s)

-- The keys of height k hold the same.
abbrev pub KeepsAt : ℕ → Db → Db → Type 0
KeepsAt k db db' =
    (db'.headers k ≡ db.headers k)
    × (db'.datas k ≡ db.datas k)
    × (db'.signatures k ≡ db.signatures k)
    × (db'.states k ≡ db.states k)

same_height : (h : ℕ) → (h == h) ≡ true
same_height h = ground arith

other_height : (k h : ℕ) → k ≢ h → (k == h) ≡ false
other_height k h ne = ground arith

with_block-Holds :
    (c : Codec) (header : SignedHeader) (block_data : Data) (signature : Bytes) (s : State)
    (hash hb bb v : Bytes) (db : Db)
    → header.height < 2 ^ 64
    → c.decode_header hb ≡ some header
    → c.decode_data bb ≡ some block_data
    → c.decode_state v ≡ some s
    → Holds c
        (with_block hash header.height hb bb signature v db)
        header.height
        header
        block_data
        signature
        s
unfolding get_block_data get_signature get_state apply_write
with_block-Holds c header block_data signature s hash hb bb v db bound eh eb ev =
    let round : decode_height (encode_height header.height) ≡ some header.height =
      decode_height-encode_height header.height bound in
    (
      rw (same_height header.height, eh, eb) refl,
      rw (same_height header.height) refl,
      round,
      rw (round, same_height header.height, ev) refl,
    )

with_block-KeepsAt :
    (k h : ℕ) (hash hb bb signature v : Bytes) (db : Db)
    → k ≢ h
    → KeepsAt k db (with_block hash h hb bb signature v db)
unfolding apply_write
with_block-KeepsAt k h hash hb bb signature v db ne =
    rw (other_height k h ne) (refl, refl, refl, refl)

-- When the batch with which a block is stored commits over a store of a lower height, the store
-- gives back the block, its signature, the state and the height as they were saved, and what it had
-- at any other height is kept, where the encodings are read back and the height fits in 64 bits.
pub stage_block-Holds :
    (c : Codec) (f : Faults) (header : SignedHeader) (block_data : Data) (signature : Bytes)
    (s : State) (current k : ℕ) (db db' : Db)
    → IsCodec c
    → get_height f db ≡ some current
    → current < header.height
    → header.height < 2 ^ 64
    → s.last_block_height ≡ header.height
    → k ≢ header.height
    → commit f db (stage_block c f db header block_data signature header.height s) ≡ some db'
    → Holds c db' header.height header block_data signature s × KeepsAt k db db'
stage_block-Holds c f header block_data signature s current k db db' codec g lt bound e ne done =
    let (hb, bb, v, eh, eb, ev, e') =
      stage_block-Leaves c f header block_data signature s current db db' g lt e
        (commit-Leaves f db db' _ done) in
    rw e' (
      with_block-Holds c header block_data signature s (c.sha256 hb) hb bb v db bound
          (codec.decode-header header hb eh) (codec.decode-data block_data bb eb)
          (codec.decode-state s v ev),
      with_block-KeepsAt k header.height (c.sha256 hb) hb bb signature v db ne,
    )

set_height-reads :
    (f : Faults) (db : Db) (h : ℕ) (s : Option Bytes) (k : ℕ) (b : Batch) (db' : Db)
    → Leaves db (stage_state f k s (set_height f db h b)) db'
    → get_height f db ≡ get_height no_faults db
unfolding set_height stage_state stage get_height
set_height-reads f db h s k b db' l = elim (Bool-cases (f.on_get height_field)) [
  | inr n ↦ rw n refl
  | inl y ↦ absurd (unread s (rw y at l))
]
  where
    unread : (s : Option Bytes) → Leaves db (stage_state f k s none) db' → ⊥
    unread none (ws, e, a) = cc
    unread (some v) (ws, e, a) = cc

-- A batch that is committed has read the height.
pub stage_block-reads :
    (c : Codec) (f : Faults) (header : SignedHeader) (block_data : Data) (signature : Bytes) (h : ℕ)
    (s : State) (db db' : Db)
    → commit f db (stage_block c f db header block_data signature h s) ≡ some db'
    → get_height f db ≡ get_height no_faults db
unfolding stage_block update_state
stage_block-reads c f header block_data signature h s db db' done =
    set_height-reads f db h (c.encode_state s) s.last_block_height
      (save_block_data c f header block_data signature (new_batch f)) db'
      (commit-Leaves f db db' _ done)
