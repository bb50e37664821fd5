-- ===== src/Artifact/PlanCheck/Rooted.antt =====
-- `check_consistency`: what the verification of the proofs ensures, in terms of the plan.
use argent.Base.{
  ◌≡◌, ap, ◌∙◌, inl, inr, some, [], ◌∷◌, In, arith, Text, Bytes, ok, bind_ok, Bool-cases,
  Option-cases,
}
use argent.Collections.Order.{eqb, bytes_ord}
use argent.Collections.BTreeMap.{get}
use argent.Artifact.Digest.{Digest}
use argent.Artifact.Schema.Plan.{
  TemplatePlanArtifact, TemplateReceiptArtifact, RouteTemplateTableArtifact,
  RouteTemplateProofArtifact, RouteTemplateLeafArtifact, template, route_family,
}
use argent.Artifact.Merkle.{decode_hash_hex}
use argent.Artifact.RouteProof.{hash_ref}
use argent.Artifact.RouteProof.Leaves.{HashOf}
use argent.Artifact.RouteProof.Verified.{
  IsProof, IsProof-map, roots_of, verify_route_template_proof-IsProof,
}
use argent.Artifact.PlanCheck.Templates.{TemplatesById}
use argent.Artifact.PlanCheck.Tables.{TablesById}
use argent.Artifact.PlanCheck.Proofs.{ProofsById, map_lookup, verify_proof}
use argent.Artifact.PlanCheck.Indexed.{Kept}
use argent.Artifact.PlanCheck.Outcomes.{present_ok}
use argent.Artifact.PlanCheck.Exposed.{Receipt}

-- The hash of a leaf: the template hash of the receipt, or the root of the proof, that it refers to.
abbrev pub PlanHash : Digest → TemplatePlanArtifact → RouteTemplateLeafArtifact → Bytes → Type 0
PlanHash D plan (template actor template_id) hash =
    (t : TemplateReceiptArtifact) × Receipt plan template_id t
    × (t.actor ≡ actor)
    × (t.sil_template_hash ≡ hash)
PlanHash D plan (route_family family_id proof_id) hash =
    (p : RouteTemplateProofArtifact) × ((p.id ≡ proof_id) × In p plan.route_proofs)
    × (decode_hash_hex D proof_id p.root_hex ≡ ok hash)

get-roots_of :
    (id root_hex : Text) (m : ProofsById)
    → get id (roots_of m) ≡ some root_hex
    → (p : RouteTemplateProofArtifact) × (get id m ≡ some p) × (p.root_hex ≡ root_hex)
get-roots_of id root_hex [] h = cc
get-roots_of id root_hex ((j, p) ∷ m) h = elim (Bool-cases (eqb id j)) [
  | inl e ↦ (p, ground arith, ground arith)
  | inr e ↦
      let (q, found, same) = get-roots_of id root_hex m (ground arith) in (q, ground arith, same)
]

module _ (D : Digest) (plan : TemplatePlanArtifact) (templates_by_id : TemplatesById)
    (tables_by_id : TablesById) (proofs_by_id : ProofsById)
    (receipts : Kept (Receipt plan) templates_by_id)
    (tables : Kept (λ id t. (t.id ≡ id) × In t plan.route_tables) tables_by_id)
    (proofs : Kept (λ id p. (p.id ≡ id) × In p plan.route_proofs) proofs_by_id) where
  HashOf-PlanHash :
      (leaf : RouteTemplateLeafArtifact) (hash : Bytes)
      → HashOf D (map_lookup templates_by_id) (roots_of proofs_by_id) leaf hash
      → PlanHash D plan leaf hash
  HashOf-PlanHash (template actor template_id) hash (ref, found, actors, hashes) =
      elim (Option-cases (get template_id templates_by_id)) [
        | inl none' ↦ absurd (ground arith)
        | inr (t, e) ↦
            let same : hash_ref t ≡ ref = ground arith in
            (
              t,
              receipts template_id t e,
              ap (λ r. r.actor) same ∙ actors,
              ap (λ r. r.hash) same ∙ hashes,
            )
      ]
  HashOf-PlanHash (route_family family_id proof_id) hash (root_hex, found, decoded) =
      let (p, known, same) = get-roots_of proof_id root_hex proofs_by_id found in
      (p, proofs proof_id p known, ap (decode_hash_hex D proof_id) same ∙ decoded)

  -- A proof of the plan is that of a table of the plan.
  pub verify_proof-IsProof :
      (proof : RouteTemplateProofArtifact)
      → verify_proof D templates_by_id tables_by_id proofs_by_id proof ≡ ok tt
      → (table : RouteTemplateTableArtifact) × In table plan.route_tables
        × IsProof D (PlanHash D plan) proof table
  unfolding verify_proof
  verify_proof-IsProof proof h =
      let (table, found, verified) = bind_ok _ _ tt h in
      (
        table,
        (tables proof.table_id table (present_ok _ table found)).1,
        IsProof-map D _ (PlanHash D plan) HashOf-PlanHash proof table (
            verify_route_template_proof-IsProof D (map_lookup templates_by_id) proof table
              proofs_by_id verified),
      )
