-- ===== src/Artifact/RouteProof/Generated.antt =====
-- crates/argent-artifact/src/lib.rs: the proof receipt generated from a route table passes its
-- verification.
use argent.Base.{
  ℕ, suc, ◌+◌, ◌≡◌, refl, ap, ◌∙◌, subst, ◌⊎◌, inl, inr, true, false, ==_iff, some, List, [], ◌∷◌,
  map, length, get_elem?, All, arith, Text, Bytes, ok, err, bind_ok, Option-cases, Result-cases,
}
use argent.Artifact.RouteProof.Leaves.{
  IsFirstFailure, leaf_hashes-IsFirstFailure, length-leaf_hashes,
}
use argent.Collections.Order.{eqb_refl, bytes_ord}
use argent.Collections.BTreeMap.{get}
use argent.Artifact.Digest.{Digest, DigestLaws}
use argent.Artifact.PlanError.{TemplatePlanError}
use argent.Artifact.Schema.Plan.{
  RouteTemplateTableArtifact, RouteTemplateTableEntryArtifact, RouteTemplateProofArtifact,
  RouteTemplateProofLeafArtifact, RouteTemplateLeafArtifact, template, route_family,
  RouteTemplateProofStepArtifact, RouteTemplateProofSideArtifact, left, right,
}
use argent.Artifact.Merkle.{
  route_template_merkle_layers, route_template_merkle_root_hex, decode_hash_hex,
}
use argent.Artifact.Merkle.Rooted.{IsDigest, merkle_proof-resolves_to_root, root_hex-decodes}
use argent.Artifact.RouteProof.{
  raised, TemplateHashRef, TemplateHashLookup, route_template_proof_receipt_id, leaf_eqb,
  proof_side_eqb, steps_eqb, is_recursive, route_template_leaf_hash, leaf_hashes, proof_leaves,
  route_template_proof_from_table, verify_leaf, verify_leaves, verify_route_template_proof,
}

leaf_eqb_refl : (l : RouteTemplateLeafArtifact) → leaf_eqb l l ≡ true
leaf_eqb_refl (template a b) = ground (arith, eqb_refl a, eqb_refl b)
leaf_eqb_refl (route_family a b) = ground (arith, eqb_refl a, eqb_refl b)

proof_side_eqb_refl : (s : RouteTemplateProofSideArtifact) → proof_side_eqb s s ≡ true
proof_side_eqb_refl left = refl
proof_side_eqb_refl right = refl

steps_eqb_refl : (ss : List RouteTemplateProofStepArtifact) → steps_eqb ss ss ≡ true
steps_eqb_refl [] = refl
steps_eqb_refl (s ∷ ss) =
    ground (arith, proof_side_eqb_refl s.side, eqb_refl s.hash_hex, steps_eqb_refl ss)

-- Every hash that the lookup returns is a [u8; 32].
abbrev pub Hashes32 : TemplateHashLookup → Type 0
Hashes32 templates =
    (id : Text) (t : TemplateHashRef) → templates.template_hash_by_id id ≡ some t → IsDigest t.hash

module _ (D : Digest) (laws : DigestLaws D) (templates : TemplateHashLookup)
    (hashes32 : Hashes32 templates) where
  decode_hash_hex-IsDigest :
      (id hex : Text) (b : Bytes) → decode_hash_hex D id hex ≡ ok b → IsDigest b
  unfolding decode_hash_hex
  decode_hash_hex-IsDigest id hex b h = elim (Option-cases (D.hex_decode hex)) [
    | inl none' ↦ absurd (ground arith)
    | inr (c, found) ↦ ground (arith, ==_iff (length c) 32)
  ]

  decode_hash_hex-same :
      (id : Text) (r root : Bytes) → decode_hash_hex D id (D.hex_encode r) ≡ ok root → r ≡ root
  unfolding decode_hash_hex
  decode_hash_hex-same id r root h = ground (arith, laws.decode-encode r)

  leaf_hash-IsDigest :
      (id : Text) (leaf : RouteTemplateLeafArtifact) (roots : List (Text × Text)) (b : Bytes)
      → route_template_leaf_hash D templates id leaf roots ≡ ok b
      → IsDigest b
  unfolding route_template_leaf_hash
  leaf_hash-IsDigest id (template actor template_id) roots b h =
      elim (Option-cases (templates.template_hash_by_id template_id)) [
        | inl none' ↦ absurd (ground arith)
        | inr (t, found) ↦ ground (arith, hashes32 template_id t found)
      ]
  leaf_hash-IsDigest id (route_family family_id proof_id) roots b h =
      elim (Option-cases (get proof_id roots)) [
        | inl none' ↦ absurd (ground arith)
        | inr (hex, found) ↦ decode_hash_hex-IsDigest proof_id hex b (ground arith)
      ]

  leaf_hashes-IsDigest :
      (id : Text) (roots : List (Text × Text)) (entries : List RouteTemplateTableEntryArtifact)
      (hashes : List Bytes)
      → leaf_hashes D templates id roots entries ≡ ok hashes
      → All IsDigest hashes
  unfolding leaf_hashes
  leaf_hashes-IsDigest id roots [] hashes h = let same : hashes ≡ [] = ground arith in rw same tt
  leaf_hashes-IsDigest id roots (e ∷ entries) hashes h =
      let (b, first, h') =
        bind_ok (route_template_leaf_hash D templates id e.leaf roots) _ hashes h in
      let (bs, rest, done) = bind_ok (leaf_hashes D templates id roots entries) _ hashes h' in
      let same : hashes ≡ b ∷ bs = ground arith in
      rw same
        (leaf_hash-IsDigest id e.leaf roots b first, leaf_hashes-IsDigest id roots entries bs rest)

  -- The leaves from position `n` on are generated, and verify.
  leaves_verify :
      (all : List Bytes) (root : Bytes) (proof : RouteTemplateProofArtifact)
      → All IsDigest all
      → decode_hash_hex D proof.id
          (route_template_merkle_root_hex D (route_template_merkle_layers D all))
        ≡ ok root
      → (n : ℕ) (entries : List RouteTemplateTableEntryArtifact) (hashes : List Bytes)
      → length hashes ≡ length entries
      → ((k : ℕ) → get_elem? all (n + k) ≡ get_elem? hashes k)
      → All (λ e. is_recursive proof.id e.leaf ≡ false) entries
      → (leaves : List RouteTemplateProofLeafArtifact) × (proof_leaves D
            (route_template_merkle_layers D all)
            n
            entries
            hashes
          ≡ ok leaves)
        × (length leaves ≡ length entries)
        × (verify_leaves D proof (route_template_merkle_layers D all) all root n leaves entries
            ≡ ok tt)
  unfolding proof_leaves verify_leaves verify_leaf
  leaves_verify all root proof hashed decoded n [] hashes len at apart = ([], refl, refl, refl)
  leaves_verify all root proof hashed decoded n (e ∷ entries) [] len at apart = absurd (omega arith)
  leaves_verify all root proof hashed decoded n (e ∷ entries) (h ∷ hashes) len at apart =
      let here : get_elem? all n ≡ some h = ap (get_elem? all) (omega arith) ∙ at 0 in
      let (steps, r, generated, resolves, stored) =
        merkle_proof-resolves_to_root D laws proof.id all n h hashed here in
      let is_root = decode_hash_hex-same proof.id r root (rw stored at decoded) in
      let (leaves, rest, count, verified) =
        leaves_verify all root proof hashed decoded (n + 1) entries hashes (omega arith)
          (λ k. ap (get_elem? all) (omega arith) ∙ at (suc k)) apart.1 in
      let leaf : RouteTemplateProofLeafArtifact = record {
        index = e.index;
        leaf = e.leaf;
        hash_hex = D.hex_encode h;
        proof = steps;
      } in
      let one : verify_leaf D proof (route_template_merkle_layers D all) all root n leaf e ≡ ok tt =
        ground (
          arith,
          here,
          generated,
          resolves,
          is_root,
          apart.0,
          ==_iff e.index e.index,
          leaf_eqb_refl e.leaf,
          eqb_refl (D.hex_encode h),
          steps_eqb_refl steps,
          eqb_refl root,
        ) in
      (leaf ∷ leaves, rw generated (rw rest refl), ap suc count, rw one verified)

  abbrev receipt :
      RouteTemplateTableArtifact
      → List Bytes
      → List RouteTemplateProofLeafArtifact
      → RouteTemplateProofArtifact
  receipt table hashes leaves = record {
    id = route_template_proof_receipt_id table.state table.field;
    table_id = table.id;
    state = table.state;
    field = table.field;
    root_hex = route_template_merkle_root_hex D (route_template_merkle_layers D hashes);
    leaves = leaves;
  }

  receipt-verify :
      (table : RouteTemplateTableArtifact) (proofs : List (Text × RouteTemplateProofArtifact))
      (hashes : List Bytes)
      → All
          (λ e.
            is_recursive (route_template_proof_receipt_id table.state table.field) e.leaf ≡ false)
          table.entries
      → leaf_hashes D templates table.id (map (λ e. (e.0, e.1.root_hex)) proofs) table.entries
        ≡ ok hashes
      → (leaves : List RouteTemplateProofLeafArtifact) × (proof_leaves D
            (route_template_merkle_layers D hashes)
            0
            table.entries
            hashes
          ≡ ok leaves)
        × (verify_route_template_proof D templates (receipt table hashes leaves) table proofs
            ≡ ok tt)
  unfolding verify_route_template_proof
  receipt-verify table proofs hashes apart e =
      let id = route_template_proof_receipt_id table.state table.field in
      let roots = map (λ (e : Text × RouteTemplateProofArtifact). (e.0, e.1.root_hex)) proofs in
      let hashed = leaf_hashes-IsDigest table.id roots table.entries hashes e in
      let len = length-leaf_hashes D templates table.id roots table.entries hashes e in
      let (root, decoded) = root_hex-decodes D laws id hashes hashed in
      let at : (k : ℕ) → get_elem? hashes (0 + k) ≡ get_elem? hashes k =
        λ k. ap (get_elem? hashes) (omega arith) in
      let (leaves, generated, _, _) =
        leaves_verify hashes root (receipt table hashes []) hashed decoded 0 table.entries hashes
          len at apart in
      let (leaves', generated', count, verified) =
        leaves_verify hashes root (receipt table hashes leaves) hashed decoded 0 table.entries
          hashes len at apart in
      let same : leaves' ≡ leaves = ground arith in
      let verified' : verify_leaves D (receipt table hashes leaves)
            (route_template_merkle_layers D hashes) hashes root 0 leaves table.entries
          ≡ ok tt =
        subst
          (λ ls.
            verify_leaves D (receipt table hashes leaves) (route_template_merkle_layers D hashes)
              hashes root 0 ls table.entries
            ≡ ok tt)
          same verified in
      (
        leaves,
        generated,
        ground (
          arith,
          e,
          decoded,
          verified',
          eqb_refl id,
          eqb_refl table.id,
          eqb_refl table.state,
          eqb_refl table.field,
          count,
          same,
          ==_iff (length leaves) (length table.entries),
          eqb_refl (route_template_merkle_root_hex D (route_template_merkle_layers D hashes)),
        ),
      )

  -- The proof receipt generated from a table passes the verification against the table, or the
  -- generation fails with the error of the first entry whose leaf hash fails.
  pub proof_from_table-verify :
      (table : RouteTemplateTableArtifact) (proofs : List (Text × RouteTemplateProofArtifact))
      → All
          (λ e.
            is_recursive (route_template_proof_receipt_id table.state table.field) e.leaf ≡ false)
          table.entries
      → ((x : TemplatePlanError) × (route_template_proof_from_table D templates table
              (map (λ e. (e.0, e.1.root_hex)) proofs)
            ≡ err (raised x))
          × IsFirstFailure D templates table.id
              (map (λ e. (e.0, e.1.root_hex)) proofs)
              table.entries
              x)
        ⊎ ((proof : RouteTemplateProofArtifact) × (route_template_proof_from_table D templates table
                (map (λ e. (e.0, e.1.root_hex)) proofs)
              ≡ ok proof)
            × (verify_route_template_proof D templates proof table proofs ≡ ok tt))
  unfolding route_template_proof_from_table verify_route_template_proof
  proof_from_table-verify table proofs apart =
      elim (Result-cases (leaf_hashes D templates table.id roots table.entries)) [
        | inr (x, e) ↦
            inl (
              x,
              rw e refl,
              leaf_hashes-IsFirstFailure D templates table.id roots table.entries x e,
            )
        | inl (hashes, e) ↦
            let (leaves, generated, verified) = receipt-verify table proofs hashes apart e in
            inr (receipt table hashes leaves, rw e (rw generated refl), verified)
      ]
    where
      roots : List (Text × Text)
      roots = map (λ e. (e.0, e.1.root_hex)) proofs
