-- ===== src/Chunk/Tests.antt =====
-- Chunks of a concrete blob.
use chain_sdk.Base.{◌≡◌, some, [], ◌∷◌, length, Bytes}
use chain_sdk.Chunk.{split, reassemble}
use chain_sdk.Chunk.RoundTrip.{reassemble-split}

abbrev blob : Bytes
blob = 1 ∷ 2 ∷ 3 ∷ 4 ∷ 5 ∷ []

-- A stand-in for the hash.
abbrev sum : Bytes → Bytes
sum bytes = length bytes ∷ []

reassemble-split_example : reassemble sum (split sum blob 2).0 (split sum blob 2).1 ≡ some blob
reassemble-split_example = reassemble-split sum blob 2
