-- ===== src/Store.antt =====
-- The block store of pkg/store/store.go and pkg/store/batch.go over a datastore. A datastore holds
-- one value under each key; the keys, which differ by a prefix and a height, a hash or a name, are
-- the fields of `Db`. The codecs, the hash and the calls that fail are parameters.
pub mod Saved
pub mod Rollback
pub mod Prune
pub mod TestCodec
mod Tests
use chain_sdk.Base.{
  ℕ, ◌≡◌, ◌==◌, Bool, true, false, Option, none, some, List, [], ◌∷◌, ◌++◌, leb, if◌then◌else◌,
  length, Bytes, bytes_equal, little_endian, put_little_endian,
}
use chain_sdk.Types.Header.{SignedHeader}
use chain_sdk.Types.Chain.{State, Data}

pub record Db : Type 0 where
  pub height : Option Bytes
  pub headers : ℕ → Option Bytes
  pub datas : ℕ → Option Bytes
  pub signatures : ℕ → Option Bytes
  pub states : ℕ → Option Bytes
  pub index : Bytes → Option Bytes
  pub da_included : Option Bytes
  pub last_pruned : Option Bytes
  pub genesis_da_height : Option Bytes
  pub header_da_heights : ℕ → Option Bytes
  pub data_da_heights : ℕ → Option Bytes
  pub pending_header : Option Bytes
  pub pending_data : Option Bytes

-- A write of one key; `none` deletes it.
pub data Write : Type 0 where
  write_height write_da_included write_last_pruned write_genesis_da_height : Option Bytes → Write
  write_pending_header write_pending_data : Option Bytes → Write
  write_header write_data write_signature write_state : ℕ → Option Bytes → Write
  write_header_da_height write_data_da_height : ℕ → Option Bytes → Write
  write_index : Bytes → Option Bytes → Write

put_at : (ℕ → Option Bytes) → ℕ → Option Bytes → ℕ → Option Bytes
put_at f h v k = if k == h then v else f k

put_hash : (Bytes → Option Bytes) → Bytes → Option Bytes → Bytes → Option Bytes
put_hash f h v k = if bytes_equal k h then v else f k

unfoldable pub apply_write : Write → Db → Db
unfolding put_at put_hash
apply_write (write_height v) db = record db { height = v }
apply_write (write_da_included v) db = record db { da_included = v }
apply_write (write_last_pruned v) db = record db { last_pruned = v }
apply_write (write_genesis_da_height v) db = record db { genesis_da_height = v }
apply_write (write_pending_header v) db = record db { pending_header = v }
apply_write (write_pending_data v) db = record db { pending_data = v }
apply_write (write_header h v) db = record db { headers = put_at db.headers h v }
apply_write (write_data h v) db = record db { datas = put_at db.datas h v }
apply_write (write_signature h v) db = record db { signatures = put_at db.signatures h v }
apply_write (write_state h v) db = record db { states = put_at db.states h v }
apply_write (write_header_da_height h v) db = record db {
  header_da_heights = put_at db.header_da_heights h v;
}
apply_write (write_data_da_height h v) db = record db {
  data_da_heights = put_at db.data_da_heights h v;
}
apply_write (write_index k v) db = record db { index = put_hash db.index k v }

pub apply_all : List Write → Db → Db
unfolding apply_write
apply_all [] db = db
apply_all (w ∷ ws) db = apply_all ws (apply_write w db)

pub data Field : Type 0 where
  height_field da_included_field last_pruned_field : Field
  pending_header_field pending_data_field : Field
  header_field data_field signature_field state_field : ℕ → Field

-- The datastore's calls that fail: reads of a key, the start of a batch, the writes that a batch
-- stages, and its commit, which is atomic.
pub record Faults : Type 0 where
  pub on_get : Field → Bool
  pub on_batch : Bool
  pub on_stage : Write → Bool
  pub on_commit : Bool

abbrev pub no_faults : Faults
no_faults = record {
  on_get = λ _. false;
  on_batch = false;
  on_stage = λ _. false;
  on_commit = false;
}

-- A read: datastore.ErrNotFound, another error, or a value.
pub data Read {ℓ} (A : Type ℓ) : Type ℓ where
  absent broken : Read A
  found : A → Read A

unfoldable pub get : Bool → Option Bytes → Read Bytes
get true v = broken
get false none = absent
get false (some v) = found v

-- MarshalBinary and UnmarshalBinary over protobuf, and SHA-256. `none` is an error.
pub record Codec : Type 0 where
  pub encode_header : SignedHeader → Option Bytes
  pub decode_header : Bytes → Option SignedHeader
  pub encode_data : Data → Option Bytes
  pub decode_data : Bytes → Option Data
  pub encode_state : State → Option Bytes
  pub decode_state : Bytes → Option State
  pub sha256 : Bytes → Bytes

-- What the encodings promise.
pub record IsCodec (c : Codec) : Type 0 where
  pub decode-header :
      (h : SignedHeader) (v : Bytes) → c.encode_header h ≡ some v → c.decode_header v ≡ some h
  pub decode-data : (d : Data) (v : Bytes) → c.encode_data d ≡ some v → c.decode_data v ≡ some d
  pub decode-state : (s : State) (v : Bytes) → c.encode_state s ≡ some v → c.decode_state v ≡ some s

unfoldable pub encode_height : ℕ → Bytes
encode_height h = put_little_endian 8 h

-- `none` is an error.
pub decode_height : Bytes → Option ℕ
decode_height v = if length v == 8 then some (little_endian v) else none

unfoldable pub decoded {ℓ} : {A : Type ℓ} → (Bytes → Option A) → Read Bytes → Read A
decoded decode absent = absent
decoded decode broken = broken
decoded decode (found v) = elim (decode v) [ none ↦ broken | some a ↦ found a ]

pub height_of : Read Bytes → Option ℕ
unfolding decode_height
height_of absent = some 0
height_of broken = none
height_of (found v) = decode_height v

-- Height
unfoldable pub get_height : Faults → Db → Option ℕ
unfolding get height_of
get_height f db = height_of (get (f.on_get height_field) db.height)

get_header : Codec → Faults → Db → ℕ → Read SignedHeader
unfolding get decoded
get_header c f db h = decoded c.decode_header (get (f.on_get (header_field h)) (db.headers h))

get_data : Codec → Faults → Db → ℕ → Read Data
unfolding get decoded
get_data c f db h = decoded c.decode_data (get (f.on_get (data_field h)) (db.datas h))

with_data : Read Data → SignedHeader → Read (SignedHeader × Data)
with_data absent header = absent
with_data broken header = broken
with_data (found data_read) header = found (header, data_read)

block_of : Read SignedHeader → Read Data → Read (SignedHeader × Data)
unfolding with_data
block_of absent d = absent
block_of broken d = broken
block_of (found header) d = with_data d header

unfoldable pub get_block_data : Codec → Faults → Db → ℕ → Read (SignedHeader × Data)
unfolding get_header get_data block_of
get_block_data c f db h = block_of (get_header c f db h) (get_data c f db h)

unfoldable pub get_signature : Faults → Db → ℕ → Read Bytes
unfolding get
get_signature f db h = get (f.on_get (signature_field h)) (db.signatures h)

unfoldable pub get_state_at_height : Codec → Faults → Db → ℕ → Read State
unfolding get decoded
get_state_at_height c f db h = decoded c.decode_state (get (f.on_get (state_field h)) (db.states h))

state_at : Codec → Faults → Db → Option ℕ → Read State
unfolding get_state_at_height
state_at c f db none = broken
state_at c f db (some h) = get_state_at_height c f db h

-- GetState
unfoldable pub get_state : Codec → Faults → Db → Read State
unfolding get_height state_at
get_state c f db = state_at c f db (get_height f db)

-- The writes that a batch has staged; `none` when a call failed.
abbrev pub Batch : Type 0
Batch = Option (List Write)

unfoldable pub new_batch : Faults → Batch
new_batch f = if f.on_batch then none else some []

-- Batch.Put and Batch.Delete
unfoldable pub stage : Faults → Write → Batch → Batch
stage f w none = none
stage f w (some ws) = if f.on_stage w then none else some (ws ++ w ∷ [])

set_height_above : Faults → ℕ → Option ℕ → Batch → Batch
unfolding stage encode_height
set_height_above f h none batch = none
set_height_above f h (some current) batch =
    if leb h current then batch else stage f (write_height (some (encode_height h))) batch

-- SetHeight reads the committed height, and never lowers it.
unfoldable pub set_height : Faults → Db → ℕ → Batch → Batch
unfolding set_height_above get_height
set_height f db h batch = set_height_above f h (get_height f db) batch

save_block_data_from_bytes : Codec → Faults → ℕ → Bytes → Bytes → Bytes → Batch → Batch
unfolding stage encode_height
save_block_data_from_bytes c f h header_blob data_blob signature batch =
    stage f (write_index (c.sha256 header_blob) (some (encode_height h))) (
      stage f (write_signature h (some signature)) (
        stage f (write_data h (some data_blob))
          (stage f (write_header h (some header_blob)) batch)))

unfoldable pub save_encoded :
    Codec → Faults → ℕ → Option Bytes → Option Bytes → Bytes → Batch → Batch
unfolding save_block_data_from_bytes
save_encoded c f h none block_data signature batch = none
save_encoded c f h (some hb) none signature batch = none
save_encoded c f h (some hb) (some bb) signature batch =
    save_block_data_from_bytes c f h hb bb signature batch

unfoldable pub save_block_data : Codec → Faults → SignedHeader → Data → Bytes → Batch → Batch
unfolding save_encoded
save_block_data c f header block_data signature batch =
    save_encoded c f header.height (c.encode_header header) (c.encode_data block_data) signature
      batch

pub stage_state : Faults → ℕ → Option Bytes → Batch → Batch
unfolding stage
stage_state f h none batch = none
stage_state f h (some v) batch = stage f (write_state h (some v)) batch

-- UpdateState keeps the state at its own height.
unfoldable pub update_state : Codec → Faults → State → Batch → Batch
unfolding stage_state
update_state c f s batch = stage_state f s.last_block_height (c.encode_state s) batch

-- Commit: all of the staged writes, or, on an error, none.
unfoldable pub commit : Faults → Db → Batch → Option Db
unfolding apply_all
commit f db none = none
commit f db (some ws) = if f.on_commit then none else some (apply_all ws db)
