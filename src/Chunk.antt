-- ===== src/Chunk.antt =====
-- apps/cosmos-exec/sdk/cosmoswasm/internal/chunk/chunk.go: blobs are split into chunks and put
-- together again. The hexadecimal SHA-256 is a parameter.
pub mod RoundTrip
mod Tests
use chain_sdk.Base.{
  ℕ, zero, suc, ◌*◌, ◌==◌, not, Option, none, some, List, [], ◌∷◌, ◌++◌, map, leb, if◌then◌else◌,
  length, take, drop, min, Bytes, bytes_equal,
}

-- 512 KiB
abbrev default_max_size : ℕ
default_max_size = 512 * 1024

pub record Meta : Type 0 where
  pub original_hash : Bytes
  total_chunks : ℕ
  chunk_commitments : List Bytes

-- The loop of splitBytes, with `fuel` rounds left.
pub split_rounds : ℕ → Bytes → ℕ → List Bytes
split_rounds zero bytes size = []
split_rounds (suc fuel) bytes size =
    let end = min size (length bytes) in
    let rest = split_rounds fuel (drop end bytes) size in
    if length bytes == 0 then [] else take end bytes ∷ rest

-- A round takes a byte at least.
pub split_bytes : Bytes → ℕ → List Bytes
unfolding split_rounds
split_bytes bytes size = split_rounds (length bytes) bytes size

-- The limit, where 0 stands for what is 0 or below.
pub limit_of : ℕ → ℕ
limit_of max_size = if max_size == 0 then default_max_size else max_size

pub concat : List Bytes → Bytes
concat [] = []
concat (c ∷ cs) = c ++ concat cs

module _ (digest : Bytes → Bytes) where
  pub split : Bytes → ℕ → List Bytes × Option Meta
  unfolding split_bytes limit_of
  split bytes max_size =
      let limit = limit_of max_size in
      let chunks = split_bytes bytes limit in
      if leb (length bytes) limit then (bytes ∷ [], none) else (
        chunks,
        some (record {
          original_hash = digest bytes;
          total_chunks = length chunks;
          chunk_commitments = map digest chunks;
        }),
      )

  verified : Bytes → Option Meta → Option Bytes
  verified buf none = some buf
  verified buf (some meta) =
      if not (bytes_equal (digest buf) meta.original_hash) then none else some buf

  -- `none` is an error.
  pub reassemble : List Bytes → Option Meta → Option Bytes
  unfolding verified concat
  reassemble [] meta = none
  reassemble (c ∷ cs) meta = verified (concat (c ∷ cs)) meta
