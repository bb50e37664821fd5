-- ===== src/Artifact/PlanCheck/Bindings.antt =====
-- `check_consistency`: the field roles of the runtime states against the route tables.
use argent.Base.{
  ◌*◌, Bool, true, false, ◌&&◌, ◌||◌, not, ◌==◌, none, some, List, [], ◌∷◌, ◌++◌, length, map,
  if◌then◌else◌, Text, bytes, Result, ok, err, ◌>>=◌, Done,
}
use argent.Collections.Order.{eqb, bytes_ord}
use argent.Collections.BTreeSet
use argent.Collections.BTreeSet.{contains}
use argent.Collections.BTreeMap.{get, contains_key}
use argent.Artifact.Sil.{SilAbi, SilPlan}
use argent.Artifact.Schema.Plan.{
  RuntimeStatePlanArtifact, RuntimeFieldRolePlanArtifact, RuntimeFieldRoleArtifact, template,
  template_table, template_digest, template_root, RuntimeRouteLeafArtifact, contract, digest,
  RouteTemplateLeafArtifact, RouteTemplateTableArtifact, RouteTemplateTableEntryArtifact,
}
use argent.Artifact.RouteProof.{Failure, raised, present}
use argent.Artifact.PlanError.{
  missing_witness_route_family, runtime_route_table_mismatch, runtime_state_plan_mismatch,
  untyped_template, missing_runtime_route_table, unreferenced_route_table,
}
use argent.Artifact.PlanCheck.Families.{FamiliesById, sil_fields_by_name}
use argent.Artifact.PlanCheck.Tables.{TablesById}

abbrev pub route_template_table_receipt_id : Text → Text → Text
route_template_table_receipt_id state field =
    bytes "route_table/" ++ (state ++ (bytes "/" ++ field))

abbrev pub runtime_leaf_for_route_leaf : RouteTemplateLeafArtifact → RuntimeRouteLeafArtifact
runtime_leaf_for_route_leaf (RouteTemplateLeafArtifact.template actor template_id) = contract actor
runtime_leaf_for_route_leaf (RouteTemplateLeafArtifact.route_family family_id proof_id) =
    digest family_id

-- The derived equality of runtime leaves.
abbrev pub runtime_leaf_eqb : RuntimeRouteLeafArtifact → RuntimeRouteLeafArtifact → Bool
runtime_leaf_eqb (contract a) (contract b) = eqb a b
runtime_leaf_eqb (digest a) (digest b) = eqb a b
runtime_leaf_eqb l m = false

abbrev pub runtime_leaves_eqb : List RuntimeRouteLeafArtifact → List RuntimeRouteLeafArtifact → Bool
runtime_leaves_eqb [] [] = true
runtime_leaves_eqb (l ∷ ls) (m ∷ ms) = runtime_leaf_eqb l m && runtime_leaves_eqb ls ms
runtime_leaves_eqb ls ms = false

abbrev pub table_leaves : List RouteTemplateTableEntryArtifact → List RuntimeRouteLeafArtifact
table_leaves [] = []
table_leaves (entry ∷ rest) = runtime_leaf_for_route_leaf entry.leaf ∷ table_leaves rest

module _ (S : SilAbi) (P : SilPlan S) (abi : S.SilAbiArtifact) (families_by_id : FamiliesById)
    (tables_by_id : TablesById) where
  -- The tail of the body for a field with a table; the result is `referenced_route_table_ids`.
  unfoldable pub bind_table :
      RuntimeStatePlanArtifact
      → Text
      → S.TypeArtifact
      → List RuntimeRouteLeafArtifact
      → S.TypeArtifact
      → List Text
      → Result (List Text) Failure
  bind_table runtime_state field sil_type role_leaves expected_type referenced =
      let id = route_template_table_receipt_id runtime_state.source field in
      elim (get id tables_by_id) [
        | none ↦ err (raised (missing_runtime_route_table runtime_state.contract field id))
        | some table ↦
            if not (eqb table.state runtime_state.source)
              || not (eqb table.field field)
              || not (runtime_leaves_eqb (table_leaves table.entries) role_leaves)
              || not (table.byte_len == length role_leaves * 32)
              || not (P.type_eqb sil_type expected_type)
            then err (raised (runtime_route_table_mismatch runtime_state.contract field table.id))
            else ok (BTreeSet.insert table.id referenced)
      ]

  -- The `match` on the role of a field.
  unfoldable pub bind_role :
      RuntimeStatePlanArtifact
      → Text
      → S.TypeArtifact
      → RuntimeFieldRoleArtifact
      → List Text
      → Result (List Text) Failure
  unfolding bind_table
  bind_role runtime_state field sil_type (template_table contracts) referenced =
      bind_table runtime_state field sil_type (map contract contracts)
        (P.fixed_bytes (length contracts * 32)) referenced
  bind_role runtime_state field sil_type (template_digest id) referenced =
      if not (contains_key id families_by_id)
      then err (raised (missing_witness_route_family field id))
      else if not (P.type_eqb sil_type (P.fixed_bytes 32))
      then err (raised (runtime_route_table_mismatch runtime_state.contract field id))
      else ok referenced
  bind_role runtime_state field sil_type (template_root leaves) referenced =
      bind_table runtime_state field sil_type leaves (P.fixed_bytes 32) referenced
  bind_role runtime_state field sil_type (template c) referenced =
      if not (P.type_eqb sil_type (P.fixed_bytes 32))
      then err
          (raised (runtime_state_plan_mismatch runtime_state.contract (untyped_template field)))
      else ok referenced

  -- The loop over the field roles; a field that is not there is a panic.
  unfoldable pub bind_fields :
      RuntimeStatePlanArtifact
      → List (Text × S.TypeArtifact)
      → List RuntimeFieldRolePlanArtifact
      → List Text
      → Result (List Text) Failure
  unfolding bind_role
  bind_fields runtime_state fields [] referenced = ok referenced
  bind_fields runtime_state fields (field ∷ rest) referenced =
      present (get field.name fields) >>= λ sil_type.
      bind_role runtime_state field.name sil_type field.role referenced >>= λ next.
      bind_fields runtime_state fields rest next

  unfoldable pub bind_states :
      List RuntimeStatePlanArtifact → List Text → Result (List Text) Failure
  unfolding bind_fields
  bind_states [] referenced = ok referenced
  bind_states (runtime_state ∷ rest) referenced =
      present (P.contracts_get abi runtime_state.contract) >>= λ c.
      bind_fields runtime_state (sil_fields_by_name S P abi c) runtime_state.field_roles referenced
      >>= λ next. bind_states rest next

unfoldable pub check_table_referenced : List Text → RouteTemplateTableArtifact → Result Done Failure
check_table_referenced referenced table =
    if contains table.id referenced then ok tt else err (raised (unreferenced_route_table table.id))
