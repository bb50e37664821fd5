-- ===== src/Artifact/Merkle/Rooted.antt =====
-- crates/argent-artifact/src/lib.rs: the proof of every leaf leads to the root of the layers.
use argent.Base.{
  ℕ, zero, suc, ◌+◌, ◌/◌, ◌<◌, ◌≤◌, ◌≡◌, refl, sym, ap, ◌∙◌, subst, inl, inr, ==_iff, leb, leb→le,
  some, List, [], ◌∷◌, ◌++◌, length, get_elem?, All, All_at, get_elem?-In, lt_of_get_elem?,
  if◌then◌else◌, Text, Bytes, ok, arith, Bool-cases,
}
use argent.Artifact.Digest.{Digest, DigestLaws}
use argent.Artifact.Schema.Plan.{RouteTemplateProofStepArtifact, left, right}
use argent.Artifact.Merkle.{
  route_template_merkle_parent, next_layer, layers_from, route_template_merkle_layers, last_first,
  route_template_merkle_root_hex, is_left_child, sibling_index, route_template_merkle_proof,
  decode_hash_hex, resolve, route_template_merkle_proof_root,
}

abbrev pub IsDigest : Bytes → Type 0
IsDigest b = length b ≡ 32

module _ (D : Digest) (laws : DigestLaws D) where
  pub decode_hash_hex-encode :
      (id : Text) (b : Bytes) → IsDigest b → decode_hash_hex D id (D.hex_encode b) ≡ ok b
  unfolding decode_hash_hex
  decode_hash_hex-encode id b h = ground (arith, laws.decode-encode b, ==_iff (length b) 32)

  next_layer-IsDigest : (layer : List Bytes) → All IsDigest (next_layer D layer)
  unfolding next_layer route_template_merkle_parent
  next_layer-IsDigest [] = tt
  next_layer-IsDigest (l ∷ []) = (laws.length-hash (l ++ l), tt)
  next_layer-IsDigest (l ∷ r ∷ rest) = (laws.length-hash (l ++ r), next_layer-IsDigest rest)

  length-next_layer : (layer : List Bytes) → length (next_layer D layer) ≡ (length layer + 1) / 2
  unfolding next_layer
  length-next_layer [] = omega arith
  length-next_layer (l ∷ []) = omega arith
  length-next_layer (l ∷ r ∷ rest) = omega (arith, length-next_layer rest)

  -- The sibling of a hash, and their parent in the next layer.
  record Family (layer : List Bytes) (i : ℕ) (x : Bytes) : Type 0 where
    sibling : Bytes
    found : get_elem? layer (sibling_index i (length layer)) ≡ some sibling
    parent :
        get_elem? (next_layer D layer) (i / 2)
        ≡ some (
            if is_left_child i
            then route_template_merkle_parent D x sibling
            else route_template_merkle_parent D sibling x)

  sibling_index-suc-suc :
      (i n : ℕ) → i < n → sibling_index (suc (suc i)) (suc (suc n)) ≡ suc (suc (sibling_index i n))
  sibling_index-suc-suc i n h = ground arith

  family : (layer : List Bytes) (i : ℕ) (x : Bytes) → get_elem? layer i ≡ some x → Family layer i x
  unfolding next_layer
  family [] i x e = cc
  family (l ∷ []) zero x e = record { sibling = l; found = refl; parent = ground arith }
  family (l ∷ []) (suc i) x e = cc
  family (l ∷ r ∷ rest) zero x e = record {
    sibling = r;
    found = found_right;
    parent = ground arith;
  }
    where
      found_right : get_elem? (l ∷ r ∷ rest) (sibling_index 0 (length (l ∷ r ∷ rest))) ≡ some r
      found_right =
          let one : sibling_index 0 (length (l ∷ r ∷ rest)) ≡ 1 = ground arith in
          ap (get_elem? (l ∷ r ∷ rest)) one
  family (l ∷ r ∷ rest) (suc zero) x e = record { sibling = l; found = refl; parent = ground arith }
  family (l ∷ r ∷ rest) (suc (suc i)) x e =
      let below = family rest i x e in
      let lt = lt_of_get_elem? rest i e in
      let half : suc (suc i) / 2 ≡ suc (i / 2) = omega arith in
      let parity : is_left_child (suc (suc i)) ≡ is_left_child i = ground arith in
      record {
        sibling = below.sibling;
        found =
            ap (get_elem? (l ∷ r ∷ rest)) (sibling_index-suc-suc i (length rest) lt) ∙ below.found;
        parent =
            ap (get_elem? (next_layer D (l ∷ r ∷ rest))) half
            ∙ below.parent
            ∙ ap
                (λ b. some (
                  if b
                  then route_template_merkle_parent D x below.sibling
                  else route_template_merkle_parent D below.sibling x))
                (sym parity);
      }

  -- The layers end in one root, and the steps of every leaf resolve to it.
  record Rooted (id : Text) (layers : List (List Bytes)) (i : ℕ) (x : Bytes) : Type 0 where
    root : Bytes
    steps : List RouteTemplateProofStepArtifact
    last : last_first layers ≡ some root
    proof : route_template_merkle_proof D layers i ≡ some steps
    resolves : resolve D id x steps ≡ ok root
    hashed : IsDigest root

  single-Rooted :
      (id : Text) (layer : List Bytes) (i : ℕ) (x : Bytes)
      → length layer ≤ 1
      → All IsDigest layer
      → get_elem? layer i ≡ some x
      → Rooted id (layer ∷ []) i x
  unfolding route_template_merkle_proof resolve
  single-Rooted id [] i x h hashes e = cc
  single-Rooted id (y ∷ []) zero x h hashes e = record {
    root = x;
    steps = [];
    last = e;
    proof = refl;
    resolves = refl;
    hashed = subst IsDigest (ground arith) hashes.0;
  }
  single-Rooted id (y ∷ []) (suc i) x h hashes e = cc
  single-Rooted id (y ∷ z ∷ layer) i x h hashes e = absurd (omega arith)

  -- One layer more.
  grow-Rooted :
      (id : Text) (layer next : List Bytes) (more : List (List Bytes)) (i : ℕ) (x : Bytes)
      → (next ≡ next_layer D layer)
      → All IsDigest layer
      → (f : Family layer i x)
      → Rooted id (next ∷ more) (i / 2) (
          if is_left_child i
          then route_template_merkle_parent D x f.sibling
          else route_template_merkle_parent D f.sibling x)
      → Rooted id (layer ∷ next ∷ more) i x
  unfolding route_template_merkle_proof resolve
  grow-Rooted id layer next more i x same hashes f r =
      let sibling_hash =
        All_at IsDigest layer hashes
          (get_elem?-In layer (sibling_index i (length layer)) f.found) in
      let decoded = decode_hash_hex-encode id f.sibling sibling_hash in
      record {
        root = r.root;
        steps =
            record {
              side = if is_left_child i then right else left;
              hash_hex = D.hex_encode f.sibling;
            }
            ∷ r.steps;
        last = r.last;
        proof = ground (arith, f.found, r.proof);
        resolves = elim (Bool-cases (is_left_child i)) [
          | inl e ↦ ground (arith, decoded, r.resolves)
          | inr e ↦ ground (arith, decoded, r.resolves)
        ];
        hashed = r.hashed;
      }

  layers_from_shape :
      (rounds : ℕ) (layer : List Bytes)
      → (more : List (List Bytes)) × (layers_from D rounds layer ≡ layer ∷ more)
  unfolding layers_from
  layers_from_shape zero layer = ([], refl)
  layers_from_shape (suc rounds) layer = elim (Bool-cases (leb (length layer) 1)) [
    | inl e ↦ ([], rw e refl)
    | inr e ↦ (layers_from D rounds (next_layer D layer), rw e refl)
  ]

  layers_from-Rooted :
      (id : Text) (rounds : ℕ) (layer : List Bytes) (i : ℕ) (x : Bytes)
      → length layer ≤ suc rounds
      → All IsDigest layer
      → get_elem? layer i ≡ some x
      → Rooted id (layers_from D rounds layer) i x
  unfolding layers_from
  layers_from-Rooted id zero layer i x fuel hashes e = single-Rooted id layer i x fuel hashes e
  layers_from-Rooted id (suc rounds) layer i x fuel hashes e =
      elim (Bool-cases (leb (length layer) 1)) [
        | inl short ↦ rw short (single-Rooted id layer i x (leb→le (length layer) 1 short) hashes e)
        | inr long ↦
            let f = family layer i x e in
            let (more, shape) = layers_from_shape rounds (next_layer D layer) in
            let rest =
              layers_from-Rooted id rounds (next_layer D layer) (i / 2) _
                (ground (arith, length-next_layer layer)) (next_layer-IsDigest layer) f.parent in
            rw long (
              subst (λ ls. Rooted id (layer ∷ ls) i x) (sym shape)
                (grow-Rooted id layer (next_layer D layer) more i x refl hashes f
                  (rw shape at rest)))
      ]

  -- The generated proof of every leaf of a table resolves to the root that the table's proof stores.
  pub merkle_proof-resolves_to_root :
      (id : Text) (leaves : List Bytes) (i : ℕ) (leaf : Bytes)
      → All IsDigest leaves
      → get_elem? leaves i ≡ some leaf
      → (steps : List RouteTemplateProofStepArtifact) × (root : Bytes)
        × (route_template_merkle_proof D (route_template_merkle_layers D leaves) i ≡ some steps)
        × (route_template_merkle_proof_root D id (D.hex_encode leaf) steps ≡ ok root)
        × (route_template_merkle_root_hex D (route_template_merkle_layers D leaves)
            ≡ D.hex_encode root)
  unfolding route_template_merkle_layers route_template_merkle_proof_root
      route_template_merkle_root_hex
  merkle_proof-resolves_to_root id [] i leaf hashes e = cc
  merkle_proof-resolves_to_root id (y ∷ leaves) i leaf hashes e =
      let r =
        layers_from-Rooted id (length (y ∷ leaves)) (y ∷ leaves) i leaf (omega arith) hashes e in
      let decoded =
        decode_hash_hex-encode id leaf
          (All_at IsDigest (y ∷ leaves) hashes (get_elem?-In (y ∷ leaves) i e)) in
      (
        r.steps,
        r.root,
        r.proof,
        rw decoded r.resolves,
        rw (r.last, route_template_merkle_root_hex) refl,
      )

  -- The stored root decodes.
  pub root_hex-decodes :
      (id : Text) (leaves : List Bytes)
      → All IsDigest leaves
      → (root : Bytes) × (decode_hash_hex D id
            (route_template_merkle_root_hex D (route_template_merkle_layers D leaves))
          ≡ ok root)
  unfolding route_template_merkle_layers route_template_merkle_root_hex
  root_hex-decodes id [] hashes =
      (D.hash [], decode_hash_hex-encode id (D.hash []) (laws.length-hash []))
  root_hex-decodes id (y ∷ leaves) hashes =
      let r =
        layers_from-Rooted id (length (y ∷ leaves)) (y ∷ leaves) 0 y (omega arith) hashes refl in
      (
        r.root,
        rw (r.last, route_template_merkle_root_hex) (decode_hash_hex-encode id r.root r.hashed),
      )
