-- ===== src/Artifact/PlanCheck/Tables.antt =====
-- `check_consistency`: the structure of the route tables, and the templates and families that their
-- leaves name.
use argent.Base.{
  ℕ, ◌+◌, ◌*◌, ◌||◌, not, ◌==◌, none, some, List, [], ◌∷◌, length, if◌then◌else◌, Text, Result, ok,
  err, ◌>>=◌, Done,
}
use argent.Collections.Order.{eqb, bytes_ord}
use argent.Collections.BTreeSet
use argent.Collections.BTreeSet.{contains}
use argent.Collections.BTreeMap
use argent.Collections.BTreeMap.{get}
use argent.Artifact.Schema.Plan.{
  RouteTemplateTableArtifact, RouteTemplateTableEntryArtifact, RouteTemplateLeafArtifact, template,
  route_family,
}
use argent.Artifact.RouteProof.{route_template_proof_receipt_id}
use argent.Artifact.PlanError.{
  TemplatePlanError, duplicate_route_table_id, route_table_len_mismatch,
  route_table_offset_mismatch, missing_route_table_template, route_table_template_mismatch,
  missing_route_table_family, missing_route_family_table, route_table_family_proof_mismatch,
}
use argent.Artifact.PlanCheck.Templates.{TemplatesById}
use argent.Artifact.PlanCheck.Families.{FamiliesById}

abbrev pub TablesById : Type 0
TablesById = List (Text × RouteTemplateTableArtifact)

unfoldable pub index_tables :
    List Text → TablesById → List RouteTemplateTableArtifact → Result TablesById TemplatePlanError
index_tables ids by_id [] = ok by_id
index_tables ids by_id (table ∷ rest) =
    if contains table.id ids
    then err (duplicate_route_table_id table.id)
    else index_tables (BTreeSet.insert table.id ids) (BTreeMap.insert table.id table by_id) rest

module _ (templates_by_id : TemplatesById) (families_by_id : FamiliesById)
    (tables_by_id : TablesById) where
  unfoldable pub check_leaf : Text → RouteTemplateLeafArtifact → Result Done TemplatePlanError
  check_leaf id (template actor template_id) = elim (get template_id templates_by_id) [
    | none ↦ err (missing_route_table_template id actor template_id)
    | some t ↦
        if not (eqb t.actor actor)
        then err (route_table_template_mismatch id actor template_id t.actor)
        else ok tt
  ]
  check_leaf id (route_family family_id proof_id) = elim (get family_id families_by_id) [
    | none ↦ err (missing_route_table_family id family_id)
    | some family ↦ elim (get family.table_id tables_by_id) [
      | none ↦ err (missing_route_family_table family.id family.table_id)
      | some table ↦
          if not (eqb proof_id (route_template_proof_receipt_id table.state table.field))
          then err (
              route_table_family_proof_mismatch id family_id proof_id
                (route_template_proof_receipt_id table.state table.field))
          else ok tt
    ]
  ]

  -- The loop over the entries, from this index on.
  unfoldable pub check_table_entries :
      Text → ℕ → List RouteTemplateTableEntryArtifact → Result Done TemplatePlanError
  unfolding check_leaf
  check_table_entries id expected_index [] = ok tt
  check_table_entries id expected_index (entry ∷ rest) =
      if not (entry.index == expected_index) || not (entry.offset == expected_index * 32)
      then err (route_table_offset_mismatch id entry.index entry.offset (expected_index * 32))
      else check_leaf id entry.leaf >>= λ u. check_table_entries id (expected_index + 1) rest

  unfoldable pub check_table : RouteTemplateTableArtifact → Result Done TemplatePlanError
  unfolding check_table_entries
  check_table table =
      if not (table.byte_len == length table.entries * 32)
      then err (route_table_len_mismatch table.id table.byte_len (length table.entries * 32))
      else check_table_entries table.id 0 table.entries
