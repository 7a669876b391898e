-- ===== src/Executing/Pending.antt =====
-- The pending block of block/internal/executing/pending.go.
use chain_sdk.Base.{◌≡◌, refl, Option, none, some, Bytes}
use chain_sdk.Types.Header.{SignedHeader}
use chain_sdk.Types.Chain.{Data}
use chain_sdk.Store.{
  Db, IsCodec, no_faults, apply_write, write_pending_header, write_pending_data, Faults, Codec,
  Read, absent, broken, found, get, pending_header_field, pending_data_field, Batch, new_batch,
  stage, commit,
}
use chain_sdk.Store.Saved.{Leaves, new_batch-Leaves, stage-Leaves, commit-Leaves}

-- getPendingBlock: nothing, an error, or the block.
pub data PendingRead : Type 0 where
  nothing_pending unreadable : PendingRead
  pending : SignedHeader → Data → PendingRead

with_pending_data : Option SignedHeader → Option Data → PendingRead
with_pending_data none block_data = unreadable
with_pending_data (some header) none = unreadable
with_pending_data (some header) (some block_data) = pending header block_data

-- A header without data is an error.
pending_of : Codec → Read Bytes → Read Bytes → PendingRead
unfolding with_pending_data
pending_of c absent data_read = nothing_pending
pending_of c broken data_read = unreadable
pending_of c (found hb) absent = unreadable
pending_of c (found hb) broken = unreadable
pending_of c (found hb) (found bb) = with_pending_data (c.decode_header hb) (c.decode_data bb)

unfoldable pub get_pending_block : Codec → Faults → Db → PendingRead
unfolding pending_of get
get_pending_block c f db =
    pending_of c (get (f.on_get pending_header_field) db.pending_header)
      (get (f.on_get pending_data_field) db.pending_data)

stage_pending : Faults → Option Bytes → Option Bytes → Batch
unfolding stage new_batch
stage_pending f none data_blob = none
stage_pending f (some hb) none = none
stage_pending f (some hb) (some bb) =
    stage f (write_pending_data (some bb)) (stage f (write_pending_header (some hb)) (new_batch f))

-- savePendingBlock: `none` is an error.
unfoldable pub save_pending_block : Codec → Faults → Db → SignedHeader → Data → Option Db
unfolding stage_pending commit
save_pending_block c f db header block_data =
    commit f db (stage_pending f (c.encode_header header) (c.encode_data block_data))

pub save_pending_block-some :
    (c : Codec) (f : Faults) (db db' : Db) (header : SignedHeader) (block_data : Data)
    → save_pending_block c f db header block_data ≡ some db'
    → (hb : Bytes) × (bb : Bytes) × (c.encode_header header ≡ some hb)
      × (c.encode_data block_data ≡ some bb)
      × (db' ≡ record db { pending_header = some hb; pending_data = some bb })
unfolding save_pending_block stage_pending apply_write
save_pending_block-some c f db db' header block_data h =
    staged (c.encode_header header) (c.encode_data block_data) (commit-Leaves f db db' _ h)
  where
    staged :
        (ho bo : Option Bytes)
        → Leaves db (stage_pending f ho bo) db'
        → (hb : Bytes) × (bb : Bytes) × (ho ≡ some hb)
          × (bo ≡ some bb)
          × (db' ≡ record db { pending_header = some hb; pending_data = some bb })
    staged none bo (ws, e, a) = cc
    staged (some hb) none (ws, e, a) = cc
    staged (some hb) (some bb) l2 =
        let (db1, l1, e2) = stage-Leaves f (write_pending_data (some bb)) _ db db' l2 in
        let (db0, l0, e1) = stage-Leaves f (write_pending_header (some hb)) _ db db1 l1 in
        (hb, bb, refl, refl, rw (e2, e1, new_batch-Leaves f db db0 l0) refl)

-- A pending block that is saved is the one that is read back, with the encodings' round trips.
get_pending-save_pending :
    (c : Codec) (f : Faults) (db db' : Db) (header : SignedHeader) (block_data : Data)
    → IsCodec c
    → save_pending_block c f db header block_data ≡ some db'
    → get_pending_block c no_faults db' ≡ pending header block_data
unfolding get_pending_block
get_pending-save_pending c f db db' header block_data codec h =
    let (hb, bb, eh, eb, e) = save_pending_block-some c f db db' header block_data h in
    rw (e, codec.decode-header header hb eh, codec.decode-data block_data bb eb) refl
