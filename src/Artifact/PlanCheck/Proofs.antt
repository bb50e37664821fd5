-- ===== src/Artifact/PlanCheck/Proofs.antt =====
-- `check_consistency`: the route proofs, and the tables of the route families.
use argent.Base.{
  Bool, true, false, ◌&&◌, ◌||◌, not, ◌==◌, Option, none, some, List, [], ◌∷◌, length, select,
  if◌then◌else◌, Text, Result, ok, err, ◌>>=◌, Done, each,
}
use argent.Collections.Order.{eqb, bytes_ord}
use argent.Collections.BTreeSet
use argent.Collections.BTreeSet.{contains, from_list}
use argent.Collections.BTreeMap
use argent.Collections.BTreeMap.{get, contains_key}
use argent.Artifact.Digest.{Digest}
use argent.Artifact.Schema.Plan.{
  RouteTemplateProofArtifact, RouteTemplateTableArtifact, RouteTemplateTableEntryArtifact,
  RouteTemplateFamilyArtifact, template, route_family,
}
use argent.Artifact.RouteProof.{
  Failure, present, TemplateHashRef, TemplateHashLookup, hash_ref, mapped,
  route_template_proof_receipt_id, verify_route_template_proof,
}
use argent.Artifact.PlanError.{
  TemplatePlanError, duplicate_route_proof_id, missing_route_proof_table, missing_route_proof,
  missing_route_family_table, nested_route_family_leaf, route_family_table_mismatch,
}
use argent.Artifact.PlanCheck.Templates.{TemplatesById}
use argent.Artifact.PlanCheck.Tables.{TablesById}

abbrev pub ProofsById : Type 0
ProofsById = List (Text × RouteTemplateProofArtifact)

unfoldable pub index_proofs :
    TablesById
    → List Text
    → ProofsById
    → List RouteTemplateProofArtifact
    → Result ProofsById TemplatePlanError
index_proofs tables_by_id ids by_id [] = ok by_id
index_proofs tables_by_id ids by_id (proof ∷ rest) =
    if contains proof.id ids
    then err (duplicate_route_proof_id proof.id)
    else if not (contains_key proof.table_id tables_by_id)
    then err (missing_route_proof_table proof.id proof.table_id)
    else index_proofs tables_by_id (BTreeSet.insert proof.id ids)
        (BTreeMap.insert proof.id proof by_id) rest

-- The values of a map in key order, and the first receipt of an actor among them.
abbrev pub by_actor : Text → TemplatesById → Option TemplateHashRef
by_actor actor [] = none
by_actor actor ((id, t) ∷ rest) =
    if eqb t.actor actor then some (hash_ref t) else by_actor actor rest

-- `impl TemplateHashLookup for BTreeMap<&str, &TemplateReceiptArtifact>`.
abbrev pub map_lookup : TemplatesById → TemplateHashLookup
map_lookup templates = record {
  template_hash_by_id = λ id. mapped (get id templates);
  template_hash_by_actor = λ actor. by_actor actor templates;
}

module _ (D : Digest) (templates_by_id : TemplatesById) (tables_by_id : TablesById)
    (proofs_by_id : ProofsById) where
  -- A table that is not there is a panic.
  unfoldable pub verify_proof : RouteTemplateProofArtifact → Result Done Failure
  unfolding verify_route_template_proof
  verify_proof proof = present (get proof.table_id tables_by_id) >>= λ table.
      verify_route_template_proof D (map_lookup templates_by_id) proof table proofs_by_id

-- A table has its proof; `ids` is `route_proof_ids`, the keys of the index.
unfoldable pub check_has_proof :
    ProofsById → RouteTemplateTableArtifact → Result Done TemplatePlanError
check_has_proof proofs_by_id table =
    if contains_key (route_template_proof_receipt_id table.state table.field) proofs_by_id
    then ok tt
    else err (missing_route_proof table.id)

-- The loop that refuses nested families.
unfoldable pub check_unnested :
    RouteTemplateFamilyArtifact → RouteTemplateTableEntryArtifact → Result Done TemplatePlanError
check_unnested family entry = elim (entry.leaf) [
  | template actor template_id ↦ ok tt
  | route_family family_id proof_id ↦
      err (nested_route_family_leaf family.id family.table_id family_id)
]

-- `filter_map` over the leaves.
abbrev pub table_actors : List RouteTemplateTableEntryArtifact → List Text
table_actors [] = []
table_actors (entry ∷ rest) = elim (entry.leaf) [
  | template actor template_id ↦ actor ∷ table_actors rest
  | route_family family_id proof_id ↦ table_actors rest
]

-- `==` of sequences of texts, of those of a set in its order too.
abbrev pub texts_eqb : List Text → List Text → Bool
texts_eqb [] [] = true
texts_eqb (x ∷ xs) (y ∷ ys) = eqb x y && texts_eqb xs ys
texts_eqb xs ys = false

unfoldable pub check_family_table :
    TablesById → RouteTemplateFamilyArtifact → Result Done TemplatePlanError
unfolding check_unnested
check_family_table tables_by_id family = elim (get family.table_id tables_by_id) [
  | none ↦ err (missing_route_family_table family.id family.table_id)
  | some table ↦
      let actors = table_actors table.entries in
      let expected =
        select (λ actor. not (contains actor (from_list family.entry_actors))) family.actors in
      each (check_unnested family) table.entries >>= λ u.
      if not (eqb table.state family.state)
        || not (length actors == length (from_list expected))
        || not (texts_eqb (from_list actors) (from_list expected))
      then err (route_family_table_mismatch family.id family.table_id family.state expected)
      else ok tt
]
