-- ===== src/Sequencer/Wal.antt =====
-- What the batch queue relies on outside the repository: a datastore that lists its entries in key
-- order, and the protobuf encoding of a batch. Both may fail.
use Prim.Native.Nat.{Ordering}
use chain_sdk.Base.{◌≡◌, Option, some, List, [], ◌∷◌, Bytes, bytes_compare}

abbrev pub Tx : Type 0
Tx = Bytes

-- coresequencer.Batch
abbrev pub Batch : Type 0
Batch = List Tx

abbrev pub Entry : Type 0
Entry = Bytes × Bytes

-- A write of one key in a listing sorted by key.
unfoldable pub put_entry : Bytes → Bytes → List Entry → List Entry
put_entry k v [] = (k, v) ∷ []
put_entry k v ((j, w) ∷ es) = elim (bytes_compare k j) [
  | Ordering.lt ↦ (k, v) ∷ (j, w) ∷ es
  | Ordering.eq ↦ (k, v) ∷ es
  | Ordering.gt ↦ (j, w) ∷ put_entry k v es
]

unfoldable pub delete_entry : Bytes → List Entry → List Entry
delete_entry k [] = []
delete_entry k ((j, w) ∷ es) = elim (bytes_compare k j) [
  | Ordering.lt ↦ (j, w) ∷ es
  | Ordering.eq ↦ es
  | Ordering.gt ↦ (j, w) ∷ delete_entry k es
]

-- `none` is an error, which leaves the datastore as it was. A query returns one result for each
-- entry, `none` for an entry that could not be read.
pub record Wal : Type 1 where
  pub Db : Type 0
  pub put : Db → Bytes → Bytes → Option Db
  pub delete : Db → Bytes → Option Db
  pub query : Db → Option (List (Option Entry))
  pub entries : Db → List Entry
  pub marshal : Batch → Option Bytes
  pub unmarshal : Bytes → Option Batch
  pub entries-put :
      (db db' : Db) (k v : Bytes) → put db k v ≡ some db' → entries db' ≡ put_entry k v (entries db)
  pub entries-delete :
      (db db' : Db) (k : Bytes) → delete db k ≡ some db' → entries db' ≡ delete_entry k (entries db)
  pub unmarshal-marshal : (b : Batch) (v : Bytes) → marshal b ≡ some v → unmarshal v ≡ some b
