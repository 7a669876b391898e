-- ===== src/Sequencer/TestData.antt =====
-- Concrete parameters for the tests: an in-memory log whose encoding takes batches of one
-- transaction, and a checkpoint store of one cell.
use chain_sdk.Base.{◌≡◌, refl, Option, none, some, List, [], ◌∷◌, map, Bytes}
use chain_sdk.Sequencer.Wal.{Batch, Entry, Wal, put_entry, delete_entry}
use chain_sdk.Sequencer.Checkpoint.{Checkpoint, CheckpointDb, Got, got_nothing, got}

pub some-injective {ℓ} : {A : Type ℓ} {a b : A} → some a ≡ some b → b ≡ a
some-injective h = cc

abbrev marshal_one : Batch → Option Bytes
marshal_one [] = none
marshal_one (t ∷ []) = some t
marshal_one (t ∷ u ∷ ts) = none

pub marshal_one-some : (b : Batch) (v : Bytes) → marshal_one b ≡ some v → some (v ∷ []) ≡ some b
marshal_one-some [] v h = cc
marshal_one-some (t ∷ []) v h = cc
marshal_one-some (t ∷ u ∷ ts) v h = cc

abbrev pub memory_wal : Wal
memory_wal = record {
  Db = List Entry;
  put = λ db k v. some (put_entry k v db);
  delete = λ db k. some (delete_entry k db);
  query = λ db. some (map some db);
  entries = λ db. db;
  marshal = marshal_one;
  unmarshal = λ v. some (v ∷ []);
  entries-put = λ db db' k v h. some-injective h;
  entries-delete = λ db db' k h. some-injective h;
  unmarshal-marshal = marshal_one-some;
}

abbrev read : Option Bytes → Got
read none = got_nothing
read (some v) = got v

abbrev parse_pair : Bytes → Option Checkpoint
parse_pair (h ∷ i ∷ []) = some (record { da_height = h; tx_index = i })
parse_pair _ = none

pub read-some : (o : Option Bytes) (v : Bytes) → some (some v) ≡ some o → read o ≡ got v
read-some none v h = cc
read-some (some u) v h = cc

pub read-none : (o : Option Bytes) → some none ≡ some o → read o ≡ got_nothing
read-none none h = refl
read-none (some u) h = cc

pub parse_pair-some :
    (c : Checkpoint) (v : Bytes)
    → some (c.da_height ∷ c.tx_index ∷ []) ≡ some v
    → parse_pair v ≡ some c
parse_pair-some c v h = rw (some-injective h) refl

abbrev pub cell : CheckpointDb
cell = record {
  Db = Option Bytes;
  get = read;
  put = λ db v. some (some v);
  delete = λ db. some none;
  marshal = λ c. some (c.da_height ∷ c.tx_index ∷ []);
  unmarshal = parse_pair;
  get-put = λ db db' v h. read-some db' v h;
  get-delete = λ db db' h. read-none db' h;
  unmarshal-marshal = parse_pair-some;
}

-- A store whose writes fail.
abbrev pub broken_cell : CheckpointDb
broken_cell = record {
  Db = Option Bytes;
  get = read;
  put = λ db v. none;
  delete = λ db. none;
  marshal = λ c. some (c.da_height ∷ c.tx_index ∷ []);
  unmarshal = parse_pair;
  get-put = λ db db' v h. cc;
  get-delete = λ db db' h. cc;
  unmarshal-marshal = parse_pair-some;
}
