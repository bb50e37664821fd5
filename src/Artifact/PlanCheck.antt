-- ===== src/Artifact/PlanCheck.antt =====
-- crates/argent-artifact/src/lib.rs, `TemplatePlanArtifact::check_consistency`: the template plan
-- against the artifact that contains it.
pub mod Templates
pub mod Families
pub mod Tables
pub mod Bindings
pub mod Proofs
pub mod Handle
pub mod Outcomes
pub mod HandleParts
pub mod Handled
pub mod Indexed
pub mod Received
pub mod Tabled
pub mod Proved
pub mod Members
pub mod Exposed
pub mod Rooted
pub mod Role
pub mod Bound
pub mod Registry
pub mod Phases
pub mod ProofPhases
pub mod Consistent
pub mod Recipes
pub mod Entries
use argent.Base.{Option, List, [], Text, Result, ok, err, ◌>>=◌, Done, each}
use argent.Collections.Order.{bytes_ord, pair_ord}
use argent.Collections.BTreeSet.{from_list}
use argent.Artifact.Sil.{SilAbi, SilPlan}
use argent.Artifact.Digest.{Digest}
use argent.Artifact.Schema.{Artifact}
use argent.Artifact.Schema.Plan.{TemplatePlanArtifact, TemplateReceiptArtifact}
use argent.Artifact.RouteProof.{Failure, raise, present}
use Templates.{TemplatesById, index_templates, check_refs, check_referenced}
use Families.{FamiliesById, actor_states, index_families, check_runtime_states}
use Tables.{TablesById, index_tables, check_table}
use Bindings.{bind_states, check_table_referenced}
use Proofs.{ProofsById, index_proofs, verify_proof, check_has_proof, check_family_table}
use Handle.{verify_actor_type_handle}
use Recipes.{RecipesById, index_recipes, interface_keys}
use Entries.{check_actor}

module _ (S : SilAbi) (P : SilPlan S) (D : Digest) (plan : TemplatePlanArtifact)
    (artifact : Artifact S) where
  -- From the first receipt to the last template reference.
  unfoldable pub check_templates : Result TemplatesById Failure
  unfolding index_templates check_refs check_referenced
  check_templates = raise (
      index_templates S P D artifact.sil_abi [] [] plan.templates >>= λ by_id.
      check_refs by_id [] artifact.argent.templates >>= λ referenced.
      each (check_referenced referenced) plan.templates >>= λ u. ok by_id)

  -- From the first family to the last runtime state.
  unfoldable pub check_families : Result FamiliesById Failure
  unfolding index_families check_runtime_states
  check_families =
      let states = actor_states artifact.argent.actors in
      raise (
        index_families states [] [] plan.route_families >>= λ by_id.
        check_runtime_states S P artifact.sil_abi states [] plan.runtime_states >>= λ u. ok by_id)

  -- From the first table to the last unreferenced table.
  unfoldable pub check_tables : TemplatesById → FamiliesById → Result TablesById Failure
  unfolding index_tables check_table bind_states check_table_referenced
  check_tables templates_by_id families_by_id =
      raise (
        index_tables [] [] plan.route_tables >>= λ by_id.
        each (check_table templates_by_id families_by_id by_id) plan.route_tables >>= λ u. ok by_id)
      >>= λ by_id.
          bind_states S P artifact.sil_abi families_by_id by_id plan.runtime_states []
          >>= λ referenced.
              each (check_table_referenced referenced) plan.route_tables >>= λ u. ok by_id

  -- From the first proof to the last family's table.
  unfoldable pub check_proofs : TemplatesById → TablesById → Result ProofsById Failure
  unfolding index_proofs verify_proof check_has_proof check_family_table
  check_proofs templates_by_id tables_by_id =
      raise (index_proofs tables_by_id [] [] plan.route_proofs) >>= λ by_id.
      each (verify_proof D templates_by_id tables_by_id by_id) plan.route_proofs >>= λ u.
      raise (each (check_has_proof by_id) plan.route_tables) >>= λ v.
      raise (each (check_family_table tables_by_id) plan.route_families) >>= λ w. ok by_id

  -- The body of the loop over the handles; a contract that is not there is a panic.
  unfoldable pub check_handle : TemplateReceiptArtifact → Result Done Failure
  unfolding verify_actor_type_handle
  check_handle template =
      present (P.contracts_get artifact.sil_abi template.contract) >>= λ contract.
      raise (verify_actor_type_handle S P D plan artifact template template.contract contract)

  -- From the first recipe on.
  unfoldable pub check_recipes : TemplatesById → FamiliesById → ProofsById → Result Done Failure
  unfolding index_recipes check_actor
  check_recipes templates_by_id families_by_id proofs_by_id = raise (
      index_recipes templates_by_id families_by_id proofs_by_id
        (from_list (interface_keys artifact.argent.interfaces.imports)) [] [] plan.witness_recipes
      >>= λ recipes_by_id. each (check_actor templates_by_id recipes_by_id) artifact.argent.actors)

  unfoldable pub check_consistency : Result Done Failure
  unfolding check_templates check_families check_tables check_proofs check_handle check_recipes
  check_consistency = check_templates >>= λ templates_by_id. check_families >>= λ families_by_id.
      check_tables templates_by_id families_by_id >>= λ tables_by_id.
      check_proofs templates_by_id tables_by_id >>= λ proofs_by_id.
      each check_handle plan.templates >>= λ u.
      check_recipes templates_by_id families_by_id proofs_by_id
