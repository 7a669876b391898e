-- ===== src/Merkle/Proofs.antt =====
-- A proof that is built is verified.
use chain_sdk.Base.{
  ℕ, zero, suc, ◌+◌, ◌*◌, ◌/◌, ◌<◌, ◌≤◌, ◌≡◌, ◌==◌, refl, sym, ap, ◌∙◌, subst, inl, inr, Bool, true,
  false, Bool-cases, Option, none, some, some-inj, List, [], ◌∷◌, ◌++◌, leb, if_of_true, arith,
  Bytes, bytes_equal_refl, length, get_elem?,
}
use chain_sdk.Merkle.{
  AllByte, IsNode, Hashing, PathStep, to_hex, cons_byte, read_pairs, hex_to_32, next_layer,
  last_layer, first_node, compute_root, step_at, add_step, build_path, cons_node, decode_all,
  proof_of, build_proof, combine, climb_step, climb, is_root, verify_from, verify,
}

abbrev AllNodes : List Bytes → Type 0
AllNodes [] = Unit {0}
AllNodes (v ∷ vs) = IsNode v × AllNodes vs

module _ (g : Hashing) where
  length-to_hex : (v : Bytes) → length (to_hex g v) ≡ 2 * length v
  unfolding to_hex
  length-to_hex [] = omega arith
  length-to_hex (b ∷ v) = omega (arith, length-to_hex v)

  read_pairs-to_hex : (v : Bytes) → AllByte v → read_pairs g (length v) (to_hex g v) ≡ some v
  unfolding read_pairs to_hex
  read_pairs-to_hex [] a = refl
  read_pairs-to_hex (b ∷ v) (lt, a) = rw (g.scan-digits b lt, read_pairs-to_hex v a) refl

  hex_to_32-to_hex : (v : Bytes) → IsNode v → hex_to_32 g (to_hex g v) ≡ some v
  unfolding hex_to_32
  hex_to_32-to_hex v (len, a) =
      let long : length (to_hex g v) ≡ 64 = length-to_hex v ∙ ap (λ (n : ℕ). 2 * n) len in
      if_of_true (λ (o : Option Bytes). o ≡ some v) (length (to_hex g v) == 64) _ _ (ground arith)
        (subst (λ (n : ℕ). read_pairs g n (to_hex g v) ≡ some v) len (read_pairs-to_hex v a))

  next_layer-AllNodes : (layer : List Bytes) → AllNodes (next_layer g layer)
  unfolding next_layer
  next_layer-AllNodes [] = tt
  next_layer-AllNodes (x ∷ []) = (g.sha256-IsNode (x ++ x), tt)
  next_layer-AllNodes (x ∷ y ∷ layer) = (g.sha256-IsNode (x ++ y), next_layer-AllNodes layer)

  length-next_layer : (layer : List Bytes) → length (next_layer g layer) ≡ (length layer + 1) / 2
  unfolding next_layer
  length-next_layer [] = omega arith
  length-next_layer (x ∷ []) = omega arith
  length-next_layer (x ∷ y ∷ layer) = omega (arith, length-next_layer layer)

  -- The step of a round leads from a node to the one above it.
  abbrev Climbs : List Bytes → ℕ → Bytes → Type 0
  Climbs layer i x =
      (sibling : Bytes) × (is_left : Bool) × (step_at g layer i
        ≡ some (record { sibling_hash = to_hex g sibling; is_left = is_left }))
      × IsNode sibling
      × (get_elem? (next_layer g layer) (i / 2) ≡ some (combine g is_left sibling x))

  half : (i : ℕ) → suc (suc i) / 2 ≡ suc (i / 2)
  half i = omega arith

  step_at-Climbs :
      (layer : List Bytes) (i : ℕ) (x : Bytes)
      → AllNodes layer
      → get_elem? layer i ≡ some x
      → Climbs layer i x
  unfolding step_at next_layer combine
  step_at-Climbs [] i x nodes e = cc
  step_at-Climbs (l ∷ []) zero x (n, nodes) e =
      (l, false, refl, n, ap (λ (y : Bytes). some (g.sha256 (y ++ l))) (some-inj e))
  step_at-Climbs (l ∷ []) (suc i) x nodes e = cc
  step_at-Climbs (l ∷ r ∷ layer) zero x (n, (m, nodes)) e =
      (r, false, refl, m, ap (λ (y : Bytes). some (g.sha256 (y ++ r))) (some-inj e))
  step_at-Climbs (l ∷ r ∷ layer) (suc zero) x (n, (m, nodes)) e =
      (l, true, refl, n, ap (λ (y : Bytes). some (g.sha256 (l ++ y))) (some-inj e))
  step_at-Climbs (l ∷ r ∷ layer) (suc (suc i)) x (n, (m, nodes)) e =
      let (s, b, at, node, up) = step_at-Climbs layer i x nodes e in
      (s, b, at, node, rw (half i) up)

  first_node-only :
      (layer : List Bytes) (i : ℕ) (x : Bytes)
      → get_elem? layer i ≡ some x
      → length layer ≤ 1
      → first_node g layer ≡ x
  unfolding first_node
  first_node-only [] i x e le = cc
  first_node-only (y ∷ []) zero x e le = some-inj e
  first_node-only (y ∷ []) (suc i) x e le = cc
  first_node-only (y ∷ z ∷ layer) i x e le = absurd (omega arith)

  -- With at least as much fuel as there are nodes but one, the path leads to the only node of the
  -- last layer.
  build_path-climbs :
      (fuel : ℕ) (layer : List Bytes) (i : ℕ) (x : Bytes)
      → AllNodes layer
      → get_elem? layer i ≡ some x
      → length layer ≤ suc fuel
      → climb g (build_path g fuel layer i) x ≡ some (first_node g (last_layer g fuel layer))
  unfolding climb climb_step build_path add_step last_layer
  build_path-climbs zero layer i x nodes e le =
      ap (λ (y : Bytes). some y) (sym (first_node-only layer i x e le))
  build_path-climbs (suc fuel) layer i x nodes e le = elim (Bool-cases (leb (length layer) 1)) [
    | inl y ↦ rw y (ap (λ (z : Bytes). some z) (sym (first_node-only layer i x e (ground arith))))
    | inr n ↦
        let (s, b, at, node, up) = step_at-Climbs layer i x nodes e in
        rw (n, at, hex_to_32-to_hex s node)
          (build_path-climbs fuel (next_layer g layer) (i / 2) (combine g b s x)
            (next_layer-AllNodes layer) up
            (shorter (length layer) fuel (length-next_layer layer) le (ground arith)))
  ]
    where
      shorter : (n fuel : ℕ) {m : ℕ} → m ≡ (n + 1) / 2 → n ≤ suc (suc fuel) → 1 < n → m ≤ suc fuel
      shorter n fuel e le many = omega arith

  cons_byte-IsNode :
      (o : Option ℕ) (p : Option Bytes) (v : Bytes)
      → cons_byte g o p ≡ some v
      → (b : ℕ) × (u : Bytes) × (o ≡ some b) × (p ≡ some u) × (v ≡ b ∷ u)
  unfolding cons_byte
  cons_byte-IsNode none p v e = cc
  cons_byte-IsNode (some b) none v e = cc
  cons_byte-IsNode (some b) (some u) v e = (b, u, refl, refl, sym (some-inj e))

  read_pairs-IsNode : (n : ℕ) (h v : Bytes) → read_pairs g n h ≡ some v → (length v ≡ n) × AllByte v
  unfolding read_pairs
  read_pairs-IsNode zero h v e =
      subst (λ (x : Bytes). (length x ≡ 0) × AllByte x) (some-inj e) (refl, tt)
  read_pairs-IsNode (suc n) [] v e = cc
  read_pairs-IsNode (suc n) (c ∷ []) v e = cc
  read_pairs-IsNode (suc n) (c ∷ d ∷ h) v e =
      let (b, u, scanned, rest, same) = cons_byte-IsNode (g.scan c d) (read_pairs g n h) v e in
      let (len, all) = read_pairs-IsNode n h u rest in
      subst (λ (x : Bytes). (length x ≡ suc n) × AllByte x) (sym same)
        (ap suc len, (g.scan-lt c d b scanned, all))

  hex_to_32-IsNode : (h v : Bytes) → hex_to_32 g h ≡ some v → IsNode v
  unfolding hex_to_32
  hex_to_32-IsNode h v e = elim (Bool-cases (length h == 64)) [
    | inl y ↦ read_pairs-IsNode 32 h v (rw y at e)
    | inr n ↦ cc (rw n at e)
  ]

  cons_node-some :
      (o : Option Bytes) (p : Option (List Bytes)) (layer : List Bytes)
      → cons_node g o p ≡ some layer
      → (x : Bytes) × (xs : List Bytes) × (o ≡ some x) × (p ≡ some xs) × (layer ≡ x ∷ xs)
  unfolding cons_node
  cons_node-some none p layer e = cc
  cons_node-some (some x) none layer e = cc
  cons_node-some (some x) (some xs) layer e = (x, xs, refl, refl, sym (some-inj e))

  decode_all-AllNodes :
      (cs layer : List Bytes)
      → decode_all g cs ≡ some layer
      → AllNodes layer × (length layer ≡ length cs)
  unfolding decode_all
  decode_all-AllNodes [] layer e =
      subst (λ (l : List Bytes). AllNodes l × (length l ≡ 0)) (some-inj e) (tt, refl)
  decode_all-AllNodes (c ∷ cs) layer e =
      let (x, xs, decoded, rest, same) = cons_node-some (hex_to_32 g c) (decode_all g cs) layer e in
      let (all, len) = decode_all-AllNodes cs xs rest in
      subst (λ (l : List Bytes). AllNodes l × (length l ≡ suc (length cs))) (sym same)
        ((hex_to_32-IsNode c x decoded, all), ap suc len)

  decode_all-get :
      (cs layer : List Bytes) (i : ℕ) (c : Bytes)
      → decode_all g cs ≡ some layer
      → get_elem? cs i ≡ some c
      → (x : Bytes) × (get_elem? layer i ≡ some x) × (hex_to_32 g c ≡ some x)
  unfolding decode_all
  decode_all-get [] layer i c e at = cc
  decode_all-get (d ∷ cs) layer zero c e at =
      let (x, xs, decoded, rest, same) = cons_node-some (hex_to_32 g d) (decode_all g cs) layer e in
      (
        x,
        ap (λ (l : List Bytes). get_elem? l 0) same,
        ap (hex_to_32 g) (sym (some-inj at)) ∙ decoded,
      )
  decode_all-get (d ∷ cs) layer (suc i) c e at =
      let (x, xs, decoded, rest, same) = cons_node-some (hex_to_32 g d) (decode_all g cs) layer e in
      let (y, at', h) = decode_all-get cs xs i c rest at in
      (y, ap (λ (l : List Bytes). get_elem? l (suc i)) same ∙ at', h)

  get_elem?-in_range :
      (cs : List Bytes) (i : ℕ) (c : Bytes) → get_elem? cs i ≡ some c → i < length cs
  get_elem?-in_range [] i c e = cc
  get_elem?-in_range (d ∷ cs) zero c e = omega arith
  get_elem?-in_range (d ∷ cs) (suc i) c e = omega (arith, get_elem?-in_range cs i c e)

  nonempty : (n i : ℕ) → i < n → (n == 0) ≡ false
  nonempty n i lt = ground arith

  within : (n i : ℕ) → i < n → leb n i ≡ false
  within n i lt = ground arith

  fits : (n m : ℕ) → n ≡ m → n ≤ suc n
  fits n m e = omega arith

  -- Where all commitments are 32 bytes in hexadecimal, BuildProof gives a proof for every one of
  -- them, with the root of them all, and Verify accepts it for that commitment and that root.
  pub verify-build_proof :
      (cs layer : List Bytes) (i : ℕ) (c : Bytes)
      → decode_all g cs ≡ some layer
      → get_elem? cs i ≡ some c
      → (path : List PathStep) × (build_proof g cs i ≡ some (to_hex g (compute_root g layer), path))
        × (verify g (to_hex g (compute_root g layer)) c path ≡ true)
  unfolding build_proof proof_of verify verify_from is_root compute_root
  verify-build_proof cs layer i c decoded at =
      let (x, at', leaf) = decode_all-get cs layer i c decoded at in
      let (nodes, len) = decode_all-AllNodes cs layer decoded in
      let below = get_elem?-in_range cs i c at in
      let some_left : (length cs == 0) ≡ false = nonempty (length cs) i below in
      let in_range : leb (length cs) i ≡ false = within (length cs) i below in
      let path = build_path g (length layer) layer i in
      let top =
        build_path-climbs (length layer) layer i x nodes at'
          (fits (length layer) (length layer) refl) in
      (
        path,
        rw (some_left, in_range, decoded) refl,
        rw (leaf, top) (bytes_equal_refl (to_hex g (compute_root g layer))),
      )
