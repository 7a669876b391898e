-- ===== src/Store/TestCodec.antt =====
-- A codec for the tests: byte strings behind their lengths. It takes data of at most one
-- transaction.
use chain_sdk.Base.{
  ℕ, zero, suc, ◌≡◌, refl, sym, ap, Option, none, some, List, [], ◌∷◌, ◌++◌, Bytes, length, take,
  drop, some-inj,
}
use chain_sdk.Types.Header.{SignedHeader}
use chain_sdk.Types.Chain.{State, Data, Metadata}
use chain_sdk.Store.{Db, Codec, IsCodec}

abbrev pack : Bytes → Bytes → Bytes
pack xs ys = length xs ∷ xs ++ ys

-- The first string, and what follows it.
abbrev unpack : Bytes → Bytes × Bytes
unpack [] = ([], [])
unpack (n ∷ xs) = (take n xs, drop n xs)

take-length : (xs ys : Bytes) → take (length xs) (xs ++ ys) ≡ xs
take-length [] ys = refl
take-length (x ∷ xs) ys = ap (λ (l : Bytes). x ∷ l) (take-length xs ys)

drop-length : (xs ys : Bytes) → drop (length xs) (xs ++ ys) ≡ ys
drop-length [] ys = refl
drop-length (x ∷ xs) ys = drop-length xs ys

unpack-pack : (xs ys : Bytes) → unpack (pack xs ys) ≡ (xs, ys)
unpack-pack xs ys = rw (take-length xs ys, drop-length xs ys) refl

abbrev unpack_all : ℕ → Bytes → List Bytes
unpack_all zero xs = []
unpack_all (suc n) xs = (unpack xs).0 ∷ unpack_all n (unpack xs).1

abbrev pack_all : List Bytes → Bytes
pack_all [] = []
pack_all (x ∷ xs) = pack x (pack_all xs)

unpack-pack_all : (xs : List Bytes) → unpack_all (length xs) (pack_all xs) ≡ xs
unpack-pack_all [] = refl
unpack-pack_all (x ∷ xs) =
    rw (take-length x (pack_all xs), drop-length x (pack_all xs))
      (ap (λ (l : List Bytes). x ∷ l) (unpack-pack_all xs))

abbrev pub encode_header : SignedHeader → Option Bytes
encode_header h = some (
    h.height
    ∷ h.nanos
    ∷ pack_all (
        h.chain_id ∷ h.last_header_hash ∷ h.data_hash ∷ h.app_hash ∷ h.proposer_address
        ∷ h.signature ∷ h.signer_address ∷ []))

abbrev header_of : ℕ → ℕ → List Bytes → Option SignedHeader
header_of h n (a ∷ b ∷ c ∷ d ∷ e ∷ f ∷ g ∷ []) = some (record {
  header = record {
    chain_id = a;
    height = h;
    nanos = n;
    last_header_hash = b;
    data_hash = c;
    app_hash = d;
    proposer_address = e;
  };
  signature = f;
  signer_address = g;
})
header_of h n _ = none

abbrev pub decode_header : Bytes → Option SignedHeader
decode_header (h ∷ n ∷ v) = header_of h n (unpack_all 7 v)
decode_header _ = none

decode-header_lem :
    (h : SignedHeader) (v : Bytes) → encode_header h ≡ some v → decode_header v ≡ some h
decode-header_lem h v e = rw (sym (some-inj e)) (
    ap (header_of h.height h.nanos) (
      unpack-pack_all (
        h.chain_id ∷ h.last_header_hash ∷ h.data_hash ∷ h.app_hash ∷ h.proposer_address
        ∷ h.signature ∷ h.signer_address ∷ [])))

abbrev pub encode_state : State → Option Bytes
encode_state s = some (
    s.initial_height
    ∷ s.last_block_height
    ∷ s.last_block_time
    ∷ s.da_height
    ∷ pack_all (s.chain_id ∷ s.last_header_hash ∷ s.app_hash ∷ []))

abbrev state_of : ℕ → ℕ → ℕ → ℕ → List Bytes → Option State
state_of i h t d (a ∷ b ∷ c ∷ []) = some (record {
  chain_id = a;
  initial_height = i;
  last_block_height = h;
  last_block_time = t;
  last_header_hash = b;
  da_height = d;
  app_hash = c;
})
state_of i h t d _ = none

abbrev pub decode_state : Bytes → Option State
decode_state (i ∷ h ∷ t ∷ d ∷ v) = state_of i h t d (unpack_all 3 v)
decode_state _ = none

decode-state_lem : (s : State) (v : Bytes) → encode_state s ≡ some v → decode_state v ≡ some s
decode-state_lem s v e = rw (sym (some-inj e)) (
    ap (state_of s.initial_height s.last_block_height s.last_block_time s.da_height)
      (unpack-pack_all (s.chain_id ∷ s.last_header_hash ∷ s.app_hash ∷ [])))

abbrev encode_txs : List Bytes → Option Bytes
encode_txs [] = some []
encode_txs (t ∷ []) = some (1 ∷ t)
encode_txs (t ∷ u ∷ ts) = none

abbrev decode_txs : Bytes → List Bytes
decode_txs [] = []
decode_txs (n ∷ t) = t ∷ []

abbrev behind : Option Metadata → Option Bytes → Option Bytes
behind m none = none
behind none (some v) = some (0 ∷ v)
behind (some m) (some v) = some (1 ∷ m.height ∷ m.nanos ∷ pack m.chain_id v)

abbrev pub encode_data : Data → Option Bytes
encode_data d = behind d.metadata (encode_txs d.txs)

abbrev pub decode_data : Bytes → Option Data
decode_data (zero ∷ v) = some (record { metadata = none; txs = decode_txs v })
decode_data (suc t ∷ h ∷ n ∷ v) = some (record {
  metadata = some (record { chain_id = (unpack v).0; height = h; nanos = n });
  txs = decode_txs (unpack v).1;
})
decode_data _ = none

decode-data_fields :
    (m : Option Metadata) (txs : List Bytes) (v : Bytes)
    → behind m (encode_txs txs) ≡ some v
    → decode_data v ≡ some (record { metadata = m; txs = txs })
decode-data_fields none [] v e = rw (sym (some-inj e)) refl
decode-data_fields none (t ∷ []) v e = rw (sym (some-inj e)) refl
decode-data_fields none (t ∷ u ∷ ts) v e = cc
decode-data_fields (some m) [] v e =
    rw (sym (some-inj e), take-length m.chain_id [], drop-length m.chain_id []) refl
decode-data_fields (some m) (t ∷ []) v e =
    rw (sym (some-inj e), take-length m.chain_id (1 ∷ t), drop-length m.chain_id (1 ∷ t)) refl
decode-data_fields (some m) (t ∷ u ∷ ts) v e = cc

abbrev pub codec : Codec
codec = record {
  encode_header = encode_header;
  decode_header = decode_header;
  encode_data = encode_data;
  decode_data = decode_data;
  encode_state = encode_state;
  decode_state = decode_state;
  sha256 = λ v. v;
}

pub codec-IsCodec : IsCodec codec
codec-IsCodec = record {
  decode-header = decode-header_lem;
  decode-data = λ d v e. decode-data_fields d.metadata d.txs v e;
  decode-state = decode-state_lem;
}

abbrev pub empty_db : Db
empty_db = record {
  height = none;
  headers = λ _. none;
  datas = λ _. none;
  signatures = λ _. none;
  states = λ _. none;
  index = λ _. none;
  da_included = none;
  last_pruned = none;
  genesis_da_height = none;
  header_da_heights = λ _. none;
  data_da_heights = λ _. none;
  pending_header = none;
  pending_data = none;
}
