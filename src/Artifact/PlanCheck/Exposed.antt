-- ===== src/Artifact/PlanCheck/Exposed.antt =====
-- `check_consistency`: what the checks of an entry ensure of its recipes, witnesses and routes.
use argent.Base.{◌≡◌, refl, Option, All_at, In, Text, Result, ok, err, bind_ok, each-All, Done}
use argent.Collections.Order.{bytes_ord, pair_ord}
use argent.Artifact.Schema.{ActorArtifact}
use argent.Artifact.Schema.Entry.{
  EntryArtifact, HiddenParamArtifact, HiddenParamSubjectArtifact, HiddenParamPurposeArtifact,
  WitnessArtifact, RouteArtifact, constructed,
}
use argent.Artifact.Schema.Plan.{
  TemplatePlanArtifact, TemplateReceiptArtifact, WitnessRecipeArtifact,
}
use argent.Artifact.Spawns.Outputs.{scoped, InvalidSpawnMetadata}
use argent.Artifact.Spawns.{verify_entry_spawns}
use argent.Artifact.Spawns.Params.{IsSpawnMetadata, verify_entry_spawns-IsSpawnMetadata}
use argent.Artifact.PlanCheck.Templates.{TemplatesById}
use argent.Artifact.PlanCheck.Recipes.{RecipesById}
use argent.Artifact.PlanCheck.Entries.{
  recipe_ids, spawn_err, check_hidden_param, check_witness, verify_route, check_entry, check_actor,
}
use argent.Artifact.PlanCheck.Indexed.{Kept}
use argent.Artifact.PlanCheck.Proved.{
  Agrees, check_hidden_param-Recipe, check_witness-Recipe, verify_route-template,
  verify_route_recipe_ids_lem,
}

-- The item under this id is one of the plan's with this id.
abbrev pub Receipt : TemplatePlanArtifact → Text → TemplateReceiptArtifact → Type 0
Receipt plan id t = (t.id ≡ id) × In t plan.templates

abbrev pub Recipe : TemplatePlanArtifact → Text → WitnessRecipeArtifact → Type 0
Recipe plan id r = (r.id ≡ id) × In r plan.witness_recipes

-- The recipe of the plan with this id has these four.
abbrev pub FromRecipe :
    TemplatePlanArtifact
    → Text
    → Text
    → HiddenParamSubjectArtifact
    → HiddenParamPurposeArtifact
    → Option Text
    → Type 0
FromRecipe plan id param subject purpose route_proof_id =
    (r : WitnessRecipeArtifact) × Recipe plan id r × Agrees r param subject purpose route_proof_id

-- An entry of the artifact against the plan.
pub record IsEntry {T : Type 0} (plan : TemplatePlanArtifact) (entry : EntryArtifact T)
    : Type 0 where
  pub spawns : IsSpawnMetadata entry
  pub params :
      (p : HiddenParamArtifact T)
      → In p entry.hidden_params
      → FromRecipe plan p.recipe_id p.name p.subject p.purpose p.route_proof_id
  pub witnesses :
      (w : WitnessArtifact)
      → In w entry.witnesses
      → FromRecipe plan w.recipe_id w.param w.subject w.purpose w.route_proof_id
  pub exposed :
      (id : Text)
      → In id entry.route_plan.witness_recipe_ids
      → In id (recipe_ids entry.hidden_params)
  pub routes :
      (route : RouteArtifact) (actor template_id state_expr : Text)
      → In route entry.routes
      → route.successor ≡ constructed actor template_id state_expr
      → (t : TemplateReceiptArtifact) × Receipt plan template_id t × (t.actor ≡ actor)

spawn_err_ok :
    (m : TemplatesById) (rs : RecipesById) (entry : Text) (r : Result Done InvalidSpawnMetadata)
    → spawn_err m rs entry r ≡ ok tt
    → r ≡ ok tt
spawn_err_ok m rs entry (ok tt) h = refl
spawn_err_ok m rs entry (err e) h = cc

module _ (plan : TemplatePlanArtifact) (templates_by_id : TemplatesById)
    (recipes_by_id : RecipesById) (receipts : Kept (Receipt plan) templates_by_id)
    (recipes : Kept (Recipe plan) recipes_by_id) where
  pub check_entry-IsEntry :
      {T : Type 0} (actor : Text) (entry : EntryArtifact T)
      → check_entry templates_by_id recipes_by_id actor entry ≡ ok tt
      → IsEntry plan entry
  unfolding check_entry
  check_entry-IsEntry actor entry h =
      let id = scoped actor entry.name in
      let spawned = bind_ok _ _ tt h in
      let paramed = bind_ok _ _ tt spawned.2 in
      let witnessed = bind_ok _ _ tt paramed.2 in
      let planned = bind_ok _ _ tt witnessed.2 in
      record {
        spawns =
            verify_entry_spawns-IsSpawnMetadata entry
              (spawn_err_ok templates_by_id recipes_by_id id (verify_entry_spawns entry) spawned.1);
        params = λ p i.
            let (r, found, agrees) = check_hidden_param-Recipe templates_by_id recipes_by_id id p (
              All_at (λ p. check_hidden_param templates_by_id recipes_by_id id p ≡ ok tt)
                entry.hidden_params (each-All _ _ entry.hidden_params (λ x e. e) paramed.1) i) in
            (r, recipes p.recipe_id r found, agrees);
        witnesses = λ w i.
            let (r, found, agrees) = check_witness-Recipe templates_by_id recipes_by_id id w (
              All_at (λ w. check_witness templates_by_id recipes_by_id id w ≡ ok tt) entry.witnesses
                (each-All _ _ entry.witnesses (λ x e. e) witnessed.1) i) in
            (r, recipes w.recipe_id r found, agrees);
        exposed = λ id' i.
            All_at _ entry.route_plan.witness_recipe_ids
              (verify_route_recipe_ids_lem templates_by_id recipes_by_id id
                entry.route_plan.witness_recipe_ids (recipe_ids entry.hidden_params) planned.1)
              i;
        routes = λ route target template_id state_expr i e.
            let (t, found, same) =
              verify_route-template templates_by_id recipes_by_id id route target template_id
                state_expr
                (All_at (λ r. verify_route templates_by_id recipes_by_id id r ≡ ok tt) entry.routes
                  (each-All _ _ entry.routes (λ x k. k) planned.2) i)
                e in
            (t, receipts template_id t found, same);
      }

  pub check_actor-IsEntry :
      {T : Type 0} (actor : ActorArtifact T) (entry : EntryArtifact T)
      → check_actor templates_by_id recipes_by_id actor ≡ ok tt
      → In entry actor.entries
      → IsEntry plan entry
  unfolding check_actor
  check_actor-IsEntry actor entry h i =
      All_at (IsEntry plan) actor.entries
        (each-All (check_entry templates_by_id recipes_by_id actor.name) (IsEntry plan)
          actor.entries (check_entry-IsEntry actor.name) h)
        i
