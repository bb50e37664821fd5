-- ===== src/Artifact/RouteProof/Verified.antt =====
-- crates/argent-artifact/src/lib.rs: what the verification of a route table proof ensures.
use argent.Base.{
  ℕ, ◌+◌, ◌≡◌, sym, ap, ◌∙◌, subst, inl, inr, ==_iff, some, List, map, length, get_elem?, arith,
  Text, Bytes, ok, Result-cases,
}
use argent.Collections.Order.{eqb_iff, bytes_ord}
use argent.Artifact.Digest.{Digest}
use argent.Artifact.Schema.Plan.{
  RouteTemplateTableArtifact, RouteTemplateTableEntryArtifact, RouteTemplateProofArtifact,
  RouteTemplateProofLeafArtifact, RouteTemplateLeafArtifact,
}
use argent.Artifact.Merkle.{
  route_template_merkle_layers, route_template_merkle_root_hex, decode_hash_hex,
}
use argent.Artifact.RouteProof.{
  TemplateHashLookup, route_template_proof_receipt_id, leaf_hashes, verify_leaves,
  verify_route_template_proof,
}
use argent.Artifact.RouteProof.Leaves.{
  HashOf, IsProofLeaf, leaf_hashes-HashOf, length-leaf_hashes, verify_leaves-IsProofLeaf,
}

-- The root of each proof of the plan.
abbrev pub roots_of : List (Text × RouteTemplateProofArtifact) → List (Text × Text)
roots_of by_id = map (λ e. (e.0, e.1.root_hex)) by_id

-- A proof is that of a table: its root is the Merkle root of the hashes of the entries, of one hash for
-- each entry and in their order, and each leaf proves the entry of its position.
pub record IsProof (D : Digest) (H : RouteTemplateLeafArtifact → Bytes → Type 0)
    (proof : RouteTemplateProofArtifact) (table : RouteTemplateTableArtifact) : Type 0 where
  pub id_lem : proof.id ≡ route_template_proof_receipt_id table.state table.field
  pub table_lem : proof.table_id ≡ table.id
  pub state_lem : proof.state ≡ table.state
  pub field_lem : proof.field ≡ table.field
  pub count : length proof.leaves ≡ length table.entries
  pub hashes : List Bytes
  pub each_hashed : length hashes ≡ length table.entries
  pub root : Bytes
  pub root_lem :
      proof.root_hex ≡ route_template_merkle_root_hex D (route_template_merkle_layers D hashes)
  pub root_decodes : decode_hash_hex D proof.id proof.root_hex ≡ ok root
  pub leaves :
      (k : ℕ) (leaf : RouteTemplateProofLeafArtifact) (entry : RouteTemplateTableEntryArtifact)
      → get_elem? proof.leaves k ≡ some leaf
      → get_elem? table.entries k ≡ some entry
      → (hash : Bytes) × (get_elem? hashes k ≡ some hash)
        × H entry.leaf hash
        × IsProofLeaf D proof.id root hash leaf entry

pub IsProof-map :
    (D : Digest) (H K : RouteTemplateLeafArtifact → Bytes → Type 0)
    → ((leaf : RouteTemplateLeafArtifact) (hash : Bytes) → H leaf hash → K leaf hash)
    → (proof : RouteTemplateProofArtifact) (table : RouteTemplateTableArtifact)
    → IsProof D H proof table
    → IsProof D K proof table
IsProof-map D H K f proof table h = record {
  id_lem = h.id_lem;
  table_lem = h.table_lem;
  state_lem = h.state_lem;
  field_lem = h.field_lem;
  count = h.count;
  hashes = h.hashes;
  each_hashed = h.each_hashed;
  root = h.root;
  root_lem = h.root_lem;
  root_decodes = h.root_decodes;
  leaves = λ k leaf entry e e'.
      let (hash, found, of, is) = h.leaves k leaf entry e e' in
      (hash, found, f entry.leaf hash of, is);
}

module _ (D : Digest) (templates : TemplateHashLookup) where
  -- A proof that passes its verification against a table, beside the other proofs of the plan, is the
  -- proof of that table: it names the table and has one leaf for each entry, its root is the Merkle root
  -- of the hashes of the entries, one for each in their order and no other, and each leaf states the
  -- entry of its position, carries its hash and resolves to the root.
  pub verify_route_template_proof-IsProof :
      (proof : RouteTemplateProofArtifact) (table : RouteTemplateTableArtifact)
      (by_id : List (Text × RouteTemplateProofArtifact))
      → verify_route_template_proof D templates proof table by_id ≡ ok tt
      → IsProof D (HashOf D templates (roots_of by_id)) proof table
  unfolding verify_route_template_proof
  verify_route_template_proof-IsProof proof table by_id h =
      let roots = roots_of by_id in
      elim (Result-cases (leaf_hashes D templates table.id roots table.entries)) [
        | inr (e, failed) ↦ absurd (ground arith)
        | inl (hashes, hashed) ↦ elim (Result-cases (decode_hash_hex D proof.id proof.root_hex)) [
          | inr (e, failed) ↦ absurd (ground arith)
          | inl (root, decoded) ↦
              let leaves : verify_leaves D proof (route_template_merkle_layers D hashes) hashes root
                    0 proof.leaves table.entries
                  ≡ ok tt =
                ground arith in
              record {
                id_lem = ground (
                  arith,
                  eqb_iff proof.id (route_template_proof_receipt_id table.state table.field),
                );
                table_lem = ground (arith, eqb_iff proof.table_id table.id);
                state_lem = ground (arith, eqb_iff proof.state table.state);
                field_lem = ground (arith, eqb_iff proof.field table.field);
                count = ground (arith, ==_iff (length proof.leaves) (length table.entries));
                hashes = hashes;
                each_hashed =
                    length-leaf_hashes D templates table.id roots table.entries hashes hashed;
                root = root;
                root_lem = ground (
                  arith,
                  eqb_iff proof.root_hex
                      (route_template_merkle_root_hex D (route_template_merkle_layers D hashes)),
                );
                root_decodes = decoded;
                leaves = λ k leaf entry e f.
                    let (hash, found, of) =
                      leaf_hashes-HashOf D templates table.id roots table.entries hashes hashed k
                        entry f in
                    let (hash', found', is) =
                      verify_leaves-IsProofLeaf D proof hashes root 0 proof.leaves table.entries
                        leaves k leaf entry e f in
                    let index : 0 + k ≡ k = omega arith in
                    let at : get_elem? hashes k ≡ some hash' =
                      ap (get_elem? hashes) (sym index) ∙ found' in
                    let same : hash' ≡ hash = ground arith in
                    (
                      hash,
                      found,
                      of,
                      subst (λ z. IsProofLeaf D proof.id root z leaf entry) same is,
                    );
              }
        ]
      ]
