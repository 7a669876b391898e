-- ===== src/Sequencer/Checkpoint.antt =====
-- CheckpointStore of pkg/sequencers/common/checkpoint.go.
use chain_sdk.Base.{ℕ, ◌≡◌, refl, subst, inl, inr, Option-cases, Option, none, some, Bytes}

-- The position in the DA layer up to which transactions were processed.
pub record Checkpoint : Type 0 where
  pub da_height : ℕ
  pub tx_index : ℕ

-- ds.ErrNotFound, another error, or the value.
pub data Got : Type 0 where
  got_nothing got_error : Got
  got : Bytes → Got

-- The datastore at the checkpoint's key, and the protobuf encoding of a checkpoint. `none` is an
-- error of a write.
pub record CheckpointDb : Type 1 where
  pub Db : Type 0
  pub get : Db → Got
  pub put : Db → Bytes → Option Db
  pub delete : Db → Option Db
  pub marshal : Checkpoint → Option Bytes
  pub unmarshal : Bytes → Option Checkpoint
  pub get-put : (db db' : Db) (v : Bytes) → put db v ≡ some db' → get db' ≡ got v
  pub get-delete : (db db' : Db) → delete db ≡ some db' → get db' ≡ got_nothing
  pub unmarshal-marshal : (c : Checkpoint) (v : Bytes) → marshal c ≡ some v → unmarshal v ≡ some c

pub data LoadResult : Type 0 where
  checkpoint_not_found load_failed unmarshal_failed : LoadResult
  loaded : Checkpoint → LoadResult

module _ (d : CheckpointDb) where
  open d use {Db, get, put, delete, marshal, unmarshal}

  decoded : Option Checkpoint → LoadResult
  decoded none = unmarshal_failed
  decoded (some c) = loaded c

  load_got : Got → LoadResult
  unfolding decoded
  load_got got_nothing = checkpoint_not_found
  load_got got_error = load_failed
  load_got (got bytes) = decoded (unmarshal bytes)

  unfoldable pub load : Db → LoadResult
  unfolding load_got
  load db = load_got (get db)

  save_encoded : Db → Option Bytes → Option Db
  save_encoded db none = none
  save_encoded db (some bytes) = put db bytes

  unfoldable pub save : Db → Checkpoint → Option Db
  unfolding save_encoded
  save db c = save_encoded db (marshal c)

  -- After a successful save, what is loaded is the saved checkpoint.
  load-save : (db db' : Db) (c : Checkpoint) → save db c ≡ some db' → load db' ≡ loaded c
  unfolding load save
  load-save db db' c h = elim (Option-cases (marshal c)) [
    | inl e ↦ cc (subst (λ o. save_encoded db o ≡ some db') e h)
    | inr (v, e) ↦
        rw
          (
            d.get-put db db' v (subst (λ o. save_encoded db o ≡ some db') e h),
            d.unmarshal-marshal c v e,
          )
          refl
  ]

  load-delete : (db db' : Db) → delete db ≡ some db' → load db' ≡ checkpoint_not_found
  unfolding load
  load-delete db db' h = rw (d.get-delete db db' h) refl
