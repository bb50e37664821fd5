-- ===== src/Artifact/RouteProof.antt =====
-- crates/argent-artifact/src/lib.rs: the proof receipt of a route table, and its verification.
pub mod Generated
pub mod Leaves
pub mod Verified
use argent.Base.{
  ℕ, suc, ◌+◌, Bool, true, false, ◌&&◌, ◌||◌, not, ◌==◌, Option, none, some, List, [], ◌∷◌, ◌++◌,
  map, length, find, get_elem?, if◌then◌else◌, Text, Bytes, bytes, Result, ok, err, ◌>>=◌, Done,
}
use argent.Collections.Order.{eqb, bytes_ord}
use argent.Collections.BTreeMap.{get}
use argent.Artifact.Digest.{Digest}
use argent.Artifact.PlanError.{
  TemplatePlanError, missing_route_table_template, route_table_template_mismatch,
  route_table_family_proof_mismatch, route_proof_table_mismatch, route_proof_root_mismatch,
  recursive_route_family_leaf, route_proof_leaf_hash_mismatch, route_proof_mismatch,
}
use argent.Artifact.Schema.Plan.{
  TemplateReceiptArtifact, RouteTemplateTableArtifact, RouteTemplateTableEntryArtifact,
  RouteTemplateProofArtifact, RouteTemplateProofLeafArtifact, RouteTemplateLeafArtifact, template,
  route_family, RouteTemplateProofStepArtifact, RouteTemplateProofSideArtifact, left, right,
}
use argent.Artifact.Merkle.{
  route_template_merkle_layers, route_template_merkle_root_hex, route_template_merkle_proof,
  route_template_merkle_proof_root, decode_hash_hex,
}

-- A raised error, or an index out of range.
pub data Failure : Type 0 where
  raised : TemplatePlanError → Failure
  panicked : Failure

abbrev pub raise : {A : Type 0} → Result A TemplatePlanError → Result A Failure
raise (ok a) = ok a
raise (err e) = err (raised e)

abbrev pub present : {A : Type 0} → Option A → Result A Failure
present none = err panicked
present (some a) = ok a

pub record TemplateHashRef : Type 0 where
  pub id : Text
  pub actor : Text
  pub hash : Bytes

-- The trait, as the record of its methods.
pub record TemplateHashLookup : Type 0 where
  pub template_hash_by_id : Text → Option TemplateHashRef
  pub template_hash_by_actor : Text → Option TemplateHashRef

abbrev pub hash_ref : TemplateReceiptArtifact → TemplateHashRef
hash_ref t = record { id = t.id; actor = t.actor; hash = t.sil_template_hash }

abbrev pub mapped : Option TemplateReceiptArtifact → Option TemplateHashRef
mapped none = none
mapped (some t) = some (hash_ref t)

-- `impl TemplateHashLookup for [TemplateReceiptArtifact]`.
abbrev pub receipts_lookup : List TemplateReceiptArtifact → TemplateHashLookup
receipts_lookup templates = record {
  template_hash_by_id = λ id. mapped (find (λ t. eqb t.id id) templates);
  template_hash_by_actor = λ actor. mapped (find (λ t. eqb t.actor actor) templates);
}

abbrev pub route_template_proof_receipt_id : Text → Text → Text
route_template_proof_receipt_id state field =
    bytes "route_proof/" ++ (state ++ (bytes "/" ++ field))

-- The derived equality of leaves and steps.
abbrev pub leaf_eqb : RouteTemplateLeafArtifact → RouteTemplateLeafArtifact → Bool
leaf_eqb (template a b) (template c d) = eqb a c && eqb b d
leaf_eqb (route_family a b) (route_family c d) = eqb a c && eqb b d
leaf_eqb l m = false

abbrev pub proof_side_eqb : RouteTemplateProofSideArtifact → RouteTemplateProofSideArtifact → Bool
proof_side_eqb left left = true
proof_side_eqb right right = true
proof_side_eqb s t = false

abbrev pub steps_eqb :
    List RouteTemplateProofStepArtifact → List RouteTemplateProofStepArtifact → Bool
steps_eqb [] [] = true
steps_eqb (s ∷ ss) (t ∷ ts) =
    (proof_side_eqb s.side t.side && eqb s.hash_hex t.hash_hex) && steps_eqb ss ts
steps_eqb ss ts = false

-- The leaf refers to the proof that holds it.
abbrev pub is_recursive : Text → RouteTemplateLeafArtifact → Bool
is_recursive id (template a b) = false
is_recursive id (route_family family_id proof_id) = eqb proof_id id

-- The family that a leaf names, for the error.
abbrev pub family_of : RouteTemplateLeafArtifact → Text
family_of (template a b) = []
family_of (route_family family_id proof_id) = family_id

module _ (D : Digest) (templates : TemplateHashLookup) where
  unfoldable pub route_template_leaf_hash :
      Text → RouteTemplateLeafArtifact → List (Text × Text) → Result Bytes TemplatePlanError
  route_template_leaf_hash table_id (template actor template_id) digest_roots =
      elim (templates.template_hash_by_id template_id) [
        | none ↦ err (missing_route_table_template table_id actor template_id)
        | some t ↦
            if not (eqb t.actor actor)
            then err (route_table_template_mismatch table_id actor template_id t.actor)
            else ok t.hash
      ]
  route_template_leaf_hash table_id (route_family family_id proof_id) digest_roots =
      elim (get proof_id digest_roots) [
        | none ↦ err (route_table_family_proof_mismatch table_id family_id proof_id [])
        | some root_hex ↦ decode_hash_hex D proof_id root_hex
      ]

  -- The loop that collects the leaf hashes.
  unfoldable pub leaf_hashes :
      Text
      → List (Text × Text)
      → List RouteTemplateTableEntryArtifact
      → Result (List Bytes) TemplatePlanError
  unfolding route_template_leaf_hash
  leaf_hashes table_id digest_roots [] = ok []
  leaf_hashes table_id digest_roots (entry ∷ rest) =
      route_template_leaf_hash table_id entry.leaf digest_roots >>= λ hash.
      leaf_hashes table_id digest_roots rest >>= λ hashes. ok (hash ∷ hashes)

module _ (D : Digest) where
  -- The loop over the entries zipped with their hashes.
  unfoldable pub proof_leaves :
      List (List Bytes)
      → ℕ
      → List RouteTemplateTableEntryArtifact
      → List Bytes
      → Result (List RouteTemplateProofLeafArtifact) Failure
  proof_leaves layers position (entry ∷ entries) (hash ∷ hashes) =
      present (route_template_merkle_proof D layers position) >>= λ proof.
      proof_leaves layers (position + 1) entries hashes >>= λ leaves. ok (
        record {
          index = entry.index;
          leaf = entry.leaf;
          hash_hex = D.hex_encode hash;
          proof = proof;
        }
        ∷ leaves)
  proof_leaves layers position entries hashes = ok []

  -- What stays fixed in the loop over the leaves of a proof.
  unfoldable pub verify_leaf :
      RouteTemplateProofArtifact
      → List (List Bytes)
      → List Bytes
      → Bytes
      → ℕ
      → RouteTemplateProofLeafArtifact
      → RouteTemplateTableEntryArtifact
      → Result Done Failure
  verify_leaf proof layers hashes root index leaf entry =
      if not (leaf.index == entry.index) || not (leaf_eqb leaf.leaf entry.leaf)
      then err (raised (route_proof_table_mismatch proof.id proof.table_id))
      else if is_recursive proof.id leaf.leaf
      then err (raised (recursive_route_family_leaf proof.id (family_of leaf.leaf)))
      else present (get_elem? hashes index) >>= λ hash.
          if not (eqb leaf.hash_hex (D.hex_encode hash))
          then err (
              raised
                (route_proof_leaf_hash_mismatch proof.id index (D.hex_encode hash) leaf.hash_hex))
          else present (route_template_merkle_proof D layers index) >>= λ expected_proof.
              raise (route_template_merkle_proof_root D proof.id leaf.hash_hex leaf.proof)
              >>= λ resolved.
                  if not (steps_eqb leaf.proof expected_proof) || not (eqb resolved root)
                  then err (
                      raised (
                        route_proof_mismatch proof.id index (D.hex_encode root)
                          (D.hex_encode resolved)))
                  else ok tt

  unfoldable pub verify_leaves :
      RouteTemplateProofArtifact
      → List (List Bytes)
      → List Bytes
      → Bytes
      → ℕ
      → List RouteTemplateProofLeafArtifact
      → List RouteTemplateTableEntryArtifact
      → Result Done Failure
  unfolding verify_leaf
  verify_leaves proof layers hashes root index (leaf ∷ leaves) (entry ∷ entries) =
      verify_leaf proof layers hashes root index leaf entry >>= λ u.
      verify_leaves proof layers hashes root (index + 1) leaves entries
  verify_leaves proof layers hashes root index leaves entries = ok tt

module _ (D : Digest) (templates : TemplateHashLookup) where
  unfoldable pub route_template_proof_from_table :
      RouteTemplateTableArtifact → List (Text × Text) → Result RouteTemplateProofArtifact Failure
  unfolding leaf_hashes proof_leaves
  route_template_proof_from_table table digest_roots =
      raise (leaf_hashes D templates table.id digest_roots table.entries) >>= λ hashes.
      proof_leaves D (route_template_merkle_layers D hashes) 0 table.entries hashes >>= λ leaves.
      ok (record {
        id = route_template_proof_receipt_id table.state table.field;
        table_id = table.id;
        state = table.state;
        field = table.field;
        root_hex = route_template_merkle_root_hex D (route_template_merkle_layers D hashes);
        leaves = leaves;
      })

  -- `route_proofs_by_id` maps the id of a proof to the proof.
  unfoldable pub verify_route_template_proof :
      RouteTemplateProofArtifact
      → RouteTemplateTableArtifact
      → List (Text × RouteTemplateProofArtifact)
      → Result Done Failure
  unfolding verify_leaves leaf_hashes
  verify_route_template_proof proof table route_proofs_by_id =
      if not (eqb proof.id (route_template_proof_receipt_id table.state table.field))
        || not (eqb proof.table_id table.id)
        || not (eqb proof.state table.state)
        || not (eqb proof.field table.field)
        || not (length proof.leaves == length table.entries)
      then err (raised (route_proof_table_mismatch proof.id proof.table_id))
      else raise (
          leaf_hashes D templates table.id (map (λ e. (e.0, e.1.root_hex)) route_proofs_by_id)
            table.entries)
        >>= λ hashes.
            let layers = route_template_merkle_layers D hashes in
            let expected_root_hex = route_template_merkle_root_hex D layers in
            if not (eqb proof.root_hex expected_root_hex)
            then err (raised (route_proof_root_mismatch proof.id expected_root_hex proof.root_hex))
            else raise (decode_hash_hex D proof.id proof.root_hex) >>= λ root.
                verify_leaves D proof layers hashes root 0 proof.leaves table.entries
