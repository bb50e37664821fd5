-- ===== src/Artifact/PlanCheck/Recipes.antt =====
-- `check_consistency`: the registry of the witness recipes.
use argent.Base.{
  Bool, false, ◌&&◌, not, ◌==◌, Option, none, some, List, [], ◌∷◌, if◌then◌else◌, Text, Result, ok,
  err, ◌>>=◌, Done,
}
use argent.Collections.Order.{eqb, bytes_ord, pair_ord}
use argent.Collections.BTreeSet
use argent.Collections.BTreeSet.{contains, from_list}
use argent.Collections.BTreeMap
use argent.Collections.BTreeMap.{get, contains_key}
use argent.Artifact.Schema.{ActorInterfaceArtifact}
use argent.Artifact.Schema.Entry.{HiddenParamSubjectArtifact, actor, route_family}
use argent.Artifact.Schema.Plan.{WitnessRecipeArtifact}
use argent.Artifact.PlanError.{
  TemplatePlanError, duplicate_witness_recipe_id, missing_witness_template,
  witness_template_mismatch, missing_witness_imported_template, missing_witness_route_family,
  missing_witness_route_proof,
}
use argent.Artifact.PlanCheck.Templates.{TemplatesById}
use argent.Artifact.PlanCheck.Families.{FamiliesById}
use argent.Artifact.PlanCheck.Proofs.{ProofsById}

abbrev pub RecipesById : Type 0
RecipesById = List (Text × WitnessRecipeArtifact)

-- `split_once("::")`: the texts before and after the first two colons in a row.
abbrev pub split_once : Text → Option (Text × Text)
split_once [] = none
split_once (a ∷ []) = none
split_once (a ∷ b ∷ rest) =
    let later = split_once (b ∷ rest) in
    if (a == 58) && (b == 58)
    then some ([], rest)
    else elim later [ none ↦ none | some halves ↦ some (a ∷ halves.0, halves.1) ]

abbrev pub interface_keys : List ActorInterfaceArtifact → List (Text × Text)
interface_keys [] = []
interface_keys (interface ∷ rest) = (interface.app, interface.actor) ∷ interface_keys rest

-- `is_some_and` of the split.
abbrev pub is_imported : List (Text × Text) → Text → Bool
is_imported imported_templates name = elim (split_once name) [
  | none ↦ false
  | some key ↦ contains key imported_templates
]

module _ (templates_by_id : TemplatesById) (families_by_id : FamiliesById)
    (proofs_by_id : ProofsById) (imported_templates : List (Text × Text)) where
  -- The `match` on the subject.
  unfoldable pub check_subject :
      Text → Option Text → HiddenParamSubjectArtifact → Result Done TemplatePlanError
  check_subject id template_id (actor a) = elim template_id [
    | some template_id ↦ elim (get template_id templates_by_id) [
      | none ↦ err (missing_witness_template id template_id)
      | some t ↦ if not (eqb a t.actor) then err (witness_template_mismatch id a t.actor) else ok tt
    ]
    | none ↦
        if not (is_imported imported_templates a)
        then err (missing_witness_imported_template id a)
        else ok tt
  ]
  check_subject id template_id (route_family family_id) =
      if not (contains_key family_id families_by_id)
      then err (missing_witness_route_family id family_id)
      else ok tt
  check_subject id template_id subject = ok tt

  -- `route_proof_ids` are the keys of `route_proofs_by_id`.
  unfoldable pub check_recipe_proof : Text → Option Text → Result Done TemplatePlanError
  check_recipe_proof id none = ok tt
  check_recipe_proof id (some route_proof_id) =
      if not (contains_key route_proof_id proofs_by_id)
      then err (missing_witness_route_proof id route_proof_id)
      else ok tt

  unfoldable pub check_recipe : WitnessRecipeArtifact → Result Done TemplatePlanError
  unfolding check_subject check_recipe_proof
  check_recipe recipe = check_subject recipe.id recipe.template_id recipe.subject >>= λ u.
      check_recipe_proof recipe.id recipe.route_proof_id

  unfoldable pub index_recipes :
      List Text → RecipesById → List WitnessRecipeArtifact → Result RecipesById TemplatePlanError
  unfolding check_recipe
  index_recipes ids by_id [] = ok by_id
  index_recipes ids by_id (recipe ∷ rest) =
      if contains recipe.id ids
      then err (duplicate_witness_recipe_id recipe.id)
      else check_recipe recipe >>= λ u.
          index_recipes (BTreeSet.insert recipe.id ids) (BTreeMap.insert recipe.id recipe by_id)
            rest
