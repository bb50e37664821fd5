-- ===== src/Artifact/PlanCheck/Entries.antt =====
-- `check_consistency`: the recipes, the witnesses and the routes of every entry.
use argent.Base.{
  Bool, true, false, ◌&&◌, not, Option, none, some, List, [], ◌∷◌, if◌then◌else◌, Text, Result, ok,
  err, ◌>>=◌, Done, each,
}
use argent.Collections.Order.{eqb, bytes_ord}
use argent.Collections.BTreeSet.{contains, from_list}
use argent.Collections.BTreeMap.{get, contains_key}
use argent.Artifact.Schema.{ActorArtifact}
use argent.Artifact.Schema.Entry.{
  EntryArtifact, HiddenParamArtifact, HiddenParamSubjectArtifact, HiddenParamPurposeArtifact,
  WitnessArtifact, RouteArtifact, exact_self, constructed,
}
use argent.Artifact.Schema.Plan.{WitnessRecipeArtifact}
use argent.Artifact.Spawns.Outputs.{scoped, InvalidSpawnMetadata}
use argent.Artifact.Spawns.{verify_entry_spawns}
use argent.Artifact.Spawns.Subjects.{subject_eqb, purpose_eqb}
use argent.Artifact.PlanError.{
  TemplatePlanError, invalid_spawn_metadata, missing_hidden_param_recipe,
  hidden_param_recipe_mismatch, missing_entry_witness_recipe, entry_witness_recipe_mismatch,
  missing_route_plan_recipe, route_plan_recipe_not_exposed, missing_route_template,
  route_template_mismatch,
}
use argent.Artifact.PlanCheck.Templates.{TemplatesById}
use argent.Artifact.PlanCheck.Recipes.{RecipesById}

-- `==` of optional texts.
abbrev pub option_eqb : Option Text → Option Text → Bool
option_eqb none none = true
option_eqb (some a) (some b) = eqb a b
option_eqb a b = false

-- The four comparisons of a recipe with what names it.
unfoldable pub recipe_agrees :
    WitnessRecipeArtifact
    → Text
    → HiddenParamSubjectArtifact
    → HiddenParamPurposeArtifact
    → Option Text
    → Bool
recipe_agrees recipe param subject purpose route_proof_id =
    (eqb recipe.param param && subject_eqb recipe.subject subject)
    && (purpose_eqb recipe.purpose purpose && option_eqb recipe.route_proof_id route_proof_id)

abbrev pub recipe_ids : {T : Type 0} → List (HiddenParamArtifact T) → List Text
recipe_ids [] = []
recipe_ids (param ∷ rest) = param.recipe_id ∷ recipe_ids rest

module _ (templates_by_id : TemplatesById) (recipes_by_id : RecipesById) where
  -- The body of the loop over the ids.
  unfoldable pub verify_route_recipe_id : Text → List Text → Text → Result Done TemplatePlanError
  verify_route_recipe_id entry entry_recipe_ids recipe_id =
      if not (contains_key recipe_id recipes_by_id)
      then err (missing_route_plan_recipe entry recipe_id)
      else if not (contains recipe_id entry_recipe_ids)
      then err (route_plan_recipe_not_exposed entry recipe_id)
      else ok tt

  unfoldable pub verify_route_recipe_ids :
      Text → List Text → List Text → Result Done TemplatePlanError
  unfolding verify_route_recipe_id
  verify_route_recipe_ids entry ids entry_recipe_ids =
      each (verify_route_recipe_id entry entry_recipe_ids) ids

  unfoldable pub verify_route_template : Text → Text → Text → Result Done TemplatePlanError
  verify_route_template entry actor template_id = elim (get template_id templates_by_id) [
    | none ↦ err (missing_route_template entry actor template_id)
    | some t ↦
        if not (eqb t.actor actor)
        then err (route_template_mismatch entry actor template_id t.actor)
        else ok tt
  ]

  -- The body of the loop over the routes.
  unfoldable pub verify_route : Text → RouteArtifact → Result Done TemplatePlanError
  unfolding verify_route_template
  verify_route entry route = elim (route.successor) [
    | exact_self ↦ ok tt
    | constructed actor template_id state_expr ↦ verify_route_template entry actor template_id
  ]

  unfoldable pub check_hidden_param :
      {T : Type 0} → Text → HiddenParamArtifact T → Result Done TemplatePlanError
  check_hidden_param entry param = elim (get param.recipe_id recipes_by_id) [
    | none ↦ err (missing_hidden_param_recipe entry param.name param.recipe_id)
    | some recipe ↦
        if not (recipe_agrees recipe param.name param.subject param.purpose param.route_proof_id)
        then err (hidden_param_recipe_mismatch entry param.name param.recipe_id)
        else ok tt
  ]

  unfoldable pub check_witness : Text → WitnessArtifact → Result Done TemplatePlanError
  check_witness entry w = elim (get w.recipe_id recipes_by_id) [
    | none ↦ err (missing_entry_witness_recipe entry w.param w.recipe_id)
    | some recipe ↦
        if not (recipe_agrees recipe w.param w.subject w.purpose w.route_proof_id)
        then err (entry_witness_recipe_mismatch entry w.param w.recipe_id)
        else ok tt
  ]

  -- `map_err` of the spawn metadata's errors.
  abbrev pub spawn_err : Text → Result Done InvalidSpawnMetadata → Result Done TemplatePlanError
  spawn_err entry (ok u) = ok tt
  spawn_err entry (err message) = err (invalid_spawn_metadata entry message)

  -- The body of the loop over the entries of an actor.
  unfoldable pub check_entry : {T : Type 0} → Text → EntryArtifact T → Result Done TemplatePlanError
  unfolding check_hidden_param check_witness verify_route_recipe_ids verify_route
  check_entry actor entry =
      let entry_id = scoped actor entry.name in
      spawn_err entry_id (verify_entry_spawns entry) >>= λ u.
      each (check_hidden_param entry_id) entry.hidden_params >>= λ v.
      each (check_witness entry_id) entry.witnesses >>= λ w.
      verify_route_recipe_ids entry_id entry.route_plan.witness_recipe_ids
        (from_list (recipe_ids entry.hidden_params))
      >>= λ x. each (verify_route entry_id) entry.routes

  unfoldable pub check_actor : {T : Type 0} → ActorArtifact T → Result Done TemplatePlanError
  unfolding check_entry
  check_actor actor = each (check_entry actor.name) actor.entries
