-- ===== src/Merkle.antt =====
-- The Merkle tree of apps/cosmos-exec/sdk/cosmoswasm/internal/merkle/merkle.go. SHA-256 and the
-- printing and reading of hexadecimal bytes (fmt's %x and %02x) are parameters. The nodes of a layer
-- are taken not to share memory; a negative index is refused like one out of range.
pub mod Proofs
mod Tests
use chain_sdk.Base.{
  ℕ, zero, suc, ◌+◌, ◌/◌, ◌<◌, ◌≡◌, ◌==◌, Bool, true, false, not, Option, none, some, List, [], ◌∷◌,
  ◌++◌, ltb, leb, if◌then◌else◌, Bytes, bytes_equal, length, get_elem?, take, drop,
}

abbrev pub AllByte : Bytes → Type 0
AllByte [] = Unit {0}
AllByte (b ∷ bs) = (b < 256) × AllByte bs

abbrev pub IsNode : Bytes → Type 0
IsNode v = (length v ≡ 32) × AllByte v

-- `digits` are the two characters of a byte.
pub record Hashing : Type 0 where
  pub sha256 : Bytes → Bytes
  pub digits : ℕ → ℕ × ℕ
  pub scan : ℕ → ℕ → Option ℕ
  pub sha256-IsNode : (v : Bytes) → IsNode (sha256 v)
  pub scan-lt : (c d b : ℕ) → scan c d ≡ some b → b < 256
  pub scan-digits : (b : ℕ) → b < 256 → scan (digits b).0 (digits b).1 ≡ some b

pub record PathStep : Type 0 where
  pub sibling_hash : Bytes
  pub is_left : Bool

module _ (g : Hashing) where
  -- Sprintf of "%x"
  pub to_hex : Bytes → Bytes
  to_hex [] = []
  to_hex (b ∷ bs) = (g.digits b).0 ∷ (g.digits b).1 ∷ to_hex bs

  pub cons_byte : Option ℕ → Option Bytes → Option Bytes
  cons_byte none bs = none
  cons_byte (some b) none = none
  cons_byte (some b) (some bs) = some (b ∷ bs)

  pub read_pairs : ℕ → Bytes → Option Bytes
  unfolding cons_byte
  read_pairs zero h = some []
  read_pairs (suc n) [] = none
  read_pairs (suc n) (c ∷ []) = none
  read_pairs (suc n) (c ∷ d ∷ h) = cons_byte (g.scan c d) (read_pairs n h)

  -- `none` is an error.
  pub hex_to_32 : Bytes → Option Bytes
  unfolding read_pairs
  hex_to_32 h = if length h == 64 then read_pairs 32 h else none

  -- One round of the loop: the nodes of the next layer.
  pub next_layer : List Bytes → List Bytes
  next_layer [] = []
  next_layer (left ∷ []) = g.sha256 (left ++ left) ∷ []
  next_layer (left ∷ right ∷ nodes) = g.sha256 (left ++ right) ∷ next_layer nodes

  -- The loop, with fuel.
  pub last_layer : ℕ → List Bytes → List Bytes
  unfolding next_layer
  last_layer zero layer = layer
  last_layer (suc fuel) layer =
      let rest = last_layer fuel (next_layer layer) in if leb (length layer) 1 then layer else rest

  pub first_node : List Bytes → Bytes
  first_node [] = []
  first_node (node ∷ nodes) = node

  pub compute_root : List Bytes → Bytes
  unfolding last_layer first_node
  compute_root layer = first_node (last_layer (length layer) layer)

  -- The step of a round, if the round reaches the index.
  pub step_at : List Bytes → ℕ → Option PathStep
  unfolding to_hex
  step_at [] i = none
  step_at (left ∷ []) zero = some (record { sibling_hash = to_hex left; is_left = false })
  step_at (left ∷ []) (suc zero) = some (record { sibling_hash = to_hex left; is_left = true })
  step_at (left ∷ []) (suc (suc i)) = none
  step_at (left ∷ right ∷ nodes) zero =
      some (record { sibling_hash = to_hex right; is_left = false })
  step_at (left ∷ right ∷ nodes) (suc zero) =
      some (record { sibling_hash = to_hex left; is_left = true })
  step_at (left ∷ right ∷ nodes) (suc (suc i)) = step_at nodes i

  pub add_step : Option PathStep → List PathStep → List PathStep
  add_step none path = path
  add_step (some step) path = step ∷ path

  pub build_path : ℕ → List Bytes → ℕ → List PathStep
  unfolding step_at add_step next_layer
  build_path zero layer i = []
  build_path (suc fuel) layer i =
      let rest = add_step (step_at layer i) (build_path fuel (next_layer layer) (i / 2)) in
      if leb (length layer) 1 then [] else rest

  pub cons_node : Option Bytes → Option (List Bytes) → Option (List Bytes)
  cons_node none nodes = none
  cons_node (some node) none = none
  cons_node (some node) (some nodes) = some (node ∷ nodes)

  -- `none` is an error.
  pub decode_all : List Bytes → Option (List Bytes)
  unfolding cons_node hex_to_32
  decode_all [] = some []
  decode_all (c ∷ commitments) = cons_node (hex_to_32 c) (decode_all commitments)

  pub proof_of : Option (List Bytes) → ℕ → Option (Bytes × List PathStep)
  unfolding compute_root build_path to_hex
  proof_of none i = none
  proof_of (some layer) i = some (to_hex (compute_root layer), build_path (length layer) layer i)

  -- The root and the path; `none` is an error.
  pub build_proof : List Bytes → ℕ → Option (Bytes × List PathStep)
  unfolding proof_of decode_all
  build_proof commitments i =
      if length commitments == 0
      then none
      else if leb (length commitments) i
      then none
      else proof_of (decode_all commitments) i

  pub combine : Bool → Bytes → Bytes → Bytes
  combine true sibling current = g.sha256 (sibling ++ current)
  combine false sibling current = g.sha256 (current ++ sibling)

  pub climb_step : Bool → Bytes → (Bytes → Option Bytes) → Option Bytes → Option Bytes
  unfolding combine
  climb_step is_left current rest none = none
  climb_step is_left current rest (some sibling) = rest (combine is_left sibling current)

  -- The loop over the path; `none` is an error.
  pub climb : List PathStep → Bytes → Option Bytes
  unfolding climb_step hex_to_32
  climb [] current = some current
  climb (step ∷ path) current =
      climb_step step.is_left current (climb path) (hex_to_32 step.sibling_hash)

  pub is_root : Bytes → Option Bytes → Bool
  unfolding to_hex
  is_root root none = false
  is_root root (some node) = bytes_equal (to_hex node) root

  pub verify_from : Bytes → List PathStep → Option Bytes → Bool
  unfolding is_root climb
  verify_from root path none = false
  verify_from root path (some leaf) = is_root root (climb path leaf)

  -- Whether Verify returns nil.
  pub verify : Bytes → Bytes → List PathStep → Bool
  unfolding verify_from hex_to_32
  verify root commitment path = verify_from root path (hex_to_32 commitment)
