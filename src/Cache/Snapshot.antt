-- ===== src/Cache/Snapshot.antt =====
-- The snapshot of the DA included heights, from encodeSnapshot to RestoreFromStore.
use chain_sdk.Base.{
  ℕ, zero, suc, ◌*◌, ◌/◌, ◌%◌, ◌<◌, ◌^◌, ◌≡◌, ◌==◌, refl, ap₂, false, ◌||◌, not, List, [], ◌∷◌,
  ◌++◌, if◌then◌else◌, arith, Bytes, length, take, drop, little_endian, put_little_endian,
  little_endian-put,
}

pub record SnapshotEntry : Type 0 where
  block_height : ℕ
  pub da_height : ℕ

abbrev snapshot_entry_size : ℕ
snapshot_entry_size = 16

encode_snapshot : List SnapshotEntry → Bytes
unfolding put_little_endian
encode_snapshot [] = []
encode_snapshot (e ∷ es) =
    put_little_endian 8 e.block_height ++ (put_little_endian 8 e.da_height ++ encode_snapshot es)

decode_entries : ℕ → Bytes → List SnapshotEntry
unfolding little_endian
decode_entries zero buf = []
decode_entries (suc n) buf =
    record {
      block_height = little_endian (take 8 buf);
      da_height = little_endian (take 8 (drop 8 buf));
    }
    ∷ decode_entries n (drop 16 buf)

-- Nothing when the length is not a multiple of an entry's.
decode_snapshot : Bytes → List SnapshotEntry
unfolding decode_entries
decode_snapshot buf =
    if length buf == 0 || not (length buf % snapshot_entry_size == 0)
    then []
    else decode_entries (length buf / snapshot_entry_size) buf

-- The heights fit in 64 bits.
AllFit : List SnapshotEntry → Type 0
AllFit [] = Unit {0}
AllFit (e ∷ es) = (e.block_height < 2 ^ 64) × (e.da_height < 2 ^ 64) × AllFit es

length-encode : (es : List SnapshotEntry) → length (encode_snapshot es) ≡ 16 * length es
unfolding encode_snapshot
length-encode [] = omega arith
length-encode (e ∷ es) = omega (arith, length-encode es)

decode-encode_entries :
    (es : List SnapshotEntry) → AllFit es → decode_entries (length es) (encode_snapshot es) ≡ es
unfolding decode_entries encode_snapshot AllFit put_little_endian
decode-encode_entries [] fit = refl
decode-encode_entries (e ∷ es) (b, d, fit) = rw (decode-encode_entries es fit) (
    ap₂ (λ (b d : ℕ). record { block_height = b; da_height = d } ∷ es)
      (little_endian-put 8 e.block_height b) (little_endian-put 8 e.da_height d))

whole : (n : ℕ) → (16 * n / 16 ≡ n) × (16 * n % 16 ≡ 0)
whole n = (omega arith, omega arith)

some_bytes : (n : ℕ) → (16 * suc n == 0) ≡ false
some_bytes n = ground arith

-- A snapshot of heights that fit in 64 bits is read back as it was written.
decode_snapshot-encode_snapshot :
    (es : List SnapshotEntry) → AllFit es → decode_snapshot (encode_snapshot es) ≡ es
unfolding decode_snapshot
decode_snapshot-encode_snapshot [] fit = rw (length-encode []) refl
decode_snapshot-encode_snapshot (e ∷ es) fit =
    rw
      (
        length-encode (e ∷ es),
        some_bytes (length es),
        (whole (suc (length es))).1,
        (whole (suc (length es))).0,
      )
      (decode-encode_entries (e ∷ es) fit)
