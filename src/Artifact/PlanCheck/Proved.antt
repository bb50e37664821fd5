-- ===== src/Artifact/PlanCheck/Proved.antt =====
-- `check_consistency`: what the checks of the proofs and of the recipes ensure.
use argent.Base.{
  ◌≡◌, refl, ap, ◌↔◌, inl, inr, Bool, true, false, ◌&&◌, Option, none, some, List, [], ◌∷◌, All, In,
  arith, Text, ok, bind_ok, each-All, Bool-cases, Option-cases,
}
use argent.Collections.Order.{eqb, eqb_iff, bytes_ord}
use argent.Collections.BTreeSet
use argent.Collections.BTreeSet.{contains, contains-extend, contains_iff, from_list}
use argent.Collections.BTreeMap
use argent.Collections.BTreeMap.{get, contains_key}
use argent.Artifact.Schema.Entry.{
  HiddenParamArtifact, HiddenParamSubjectArtifact, HiddenParamPurposeArtifact, WitnessArtifact,
  RouteArtifact, constructed,
}
use argent.Artifact.Schema.Plan.{
  TemplateReceiptArtifact, RouteTemplateProofArtifact, WitnessRecipeArtifact,
}
use argent.Artifact.PlanCheck.Templates.{TemplatesById}
use argent.Artifact.PlanCheck.Tables.{TablesById}
use argent.Artifact.PlanCheck.Proofs.{ProofsById, index_proofs}
use argent.Artifact.PlanCheck.Families.{FamiliesById}
use argent.Artifact.PlanCheck.Recipes.{RecipesById, index_recipes, check_recipe}
use argent.Artifact.PlanCheck.Entries.{
  option_eqb, recipe_agrees, verify_route_recipe_id, verify_route_recipe_ids, verify_route_template,
  verify_route, check_hidden_param, check_witness,
}
use argent.Artifact.Spawns.Subjects.{subject_eqb, purpose_eqb, subject_eqb_lem, purpose_eqb_lem}
use argent.Artifact.PlanCheck.Indexed.{Kept, insert-Kept, Fresh}

abbrev pub proof_ids : List RouteTemplateProofArtifact → List Text
proof_ids [] = []
proof_ids (p ∷ ps) = p.id ∷ proof_ids ps

abbrev pub witness_recipe_ids : List WitnessRecipeArtifact → List Text
witness_recipe_ids [] = []
witness_recipe_ids (r ∷ rs) = r.id ∷ witness_recipe_ids rs

pub index_proofs_lem :
    (tables_by_id : TablesById) (Q : Text → RouteTemplateProofArtifact → Type 0) (ids : List Text)
    (m : ProofsById) (ps : List RouteTemplateProofArtifact) (out : ProofsById)
    → index_proofs tables_by_id ids m ps ≡ ok out
    → Kept Q m
    → All (λ p. Q p.id p) ps
    → Fresh ids (proof_ids ps) × Kept Q out
unfolding index_proofs
index_proofs_lem tables_by_id Q ids m [] out h kept all =
    let same : m ≡ out = cc in (tt, rw same at kept)
index_proofs_lem tables_by_id Q ids m (p ∷ ps) out h kept all =
    elim (Bool-cases (contains p.id ids)) [
      | inl e ↦ absurd (ground arith)
      | inr fresh ↦
          let rest =
            index_proofs_lem tables_by_id Q (BTreeSet.insert p.id ids) (BTreeMap.insert p.id p m) ps
              out (ground arith) (insert-Kept Q m p.id p kept all.0) all.1 in
          ((fresh, rest.0), rest.1)
    ]

module _ (templates_by_id : TemplatesById) (families_by_id : FamiliesById)
    (proofs_by_id : ProofsById) (imported : List (Text × Text)) where
  pub index_recipes_lem :
      (Q : Text → WitnessRecipeArtifact → Type 0) (ids : List Text) (m : RecipesById)
      (rs : List WitnessRecipeArtifact) (out : RecipesById)
      → index_recipes templates_by_id families_by_id proofs_by_id imported ids m rs ≡ ok out
      → Kept Q m
      → All (λ r. Q r.id r) rs
      → Fresh ids (witness_recipe_ids rs)
        × All (λ r. check_recipe templates_by_id families_by_id proofs_by_id imported r ≡ ok tt) rs
        × Kept Q out
  unfolding index_recipes
  index_recipes_lem Q ids m [] out h kept all = let same : m ≡ out = cc in (tt, tt, rw same at kept)
  index_recipes_lem Q ids m (r ∷ rs) out h kept all = elim (Bool-cases (contains r.id ids)) [
    | inl e ↦ absurd (ground arith)
    | inr fresh ↦
        let step =
          bind_ok (check_recipe templates_by_id families_by_id proofs_by_id imported r) _ out
            (rw fresh at h) in
        let rest =
          index_recipes_lem Q (BTreeSet.insert r.id ids) (BTreeMap.insert r.id r m) rs out step.2
            (insert-Kept Q m r.id r kept all.0) all.1 in
        ((fresh, rest.0), (step.1, rest.1), rest.2)
  ]

-- The recipe has these four.
abbrev pub Agrees :
    WitnessRecipeArtifact
    → Text
    → HiddenParamSubjectArtifact
    → HiddenParamPurposeArtifact
    → Option Text
    → Type 0
Agrees recipe param subject purpose route_proof_id =
    ((recipe.param ≡ param) × (recipe.subject ≡ subject))
    × (recipe.purpose ≡ purpose)
    × (recipe.route_proof_id ≡ route_proof_id)

and_iff : (a b : Bool) → (a && b ≡ true) ↔ ((a ≡ true) × (b ≡ true))
and_iff true b = (λ h. (refl, h), λ h. h.1)
and_iff false b = (λ h. cc, λ h. cc)

option_eqb_lem : (a b : Option Text) → option_eqb a b ≡ true → a ≡ b
option_eqb_lem none none h = refl
option_eqb_lem none (some b) h = cc
option_eqb_lem (some a) none h = cc
option_eqb_lem (some a) (some b) h = ap some ((eqb_iff a b).0 h)

recipe_agrees_lem :
    (recipe : WitnessRecipeArtifact) (param : Text) (subject : HiddenParamSubjectArtifact)
    (purpose : HiddenParamPurposeArtifact) (route_proof_id : Option Text)
    → recipe_agrees recipe param subject purpose route_proof_id ≡ true
    → Agrees recipe param subject purpose route_proof_id
unfolding recipe_agrees
recipe_agrees_lem recipe param subject purpose route_proof_id h =
    let halves =
      (and_iff (eqb recipe.param param && subject_eqb recipe.subject subject)
          (purpose_eqb recipe.purpose purpose && option_eqb recipe.route_proof_id route_proof_id)).0
        h in
    let first =
      (and_iff (eqb recipe.param param) (subject_eqb recipe.subject subject)).0 halves.0 in
    let second =
      (and_iff (purpose_eqb recipe.purpose purpose)
          (option_eqb recipe.route_proof_id route_proof_id)).0
        halves.1 in
    (
      ((eqb_iff recipe.param param).0 first.0, subject_eqb_lem recipe.subject subject first.1),
      purpose_eqb_lem recipe.purpose purpose second.0,
      option_eqb_lem recipe.route_proof_id route_proof_id second.1,
    )

module _ (templates_by_id : TemplatesById) (recipes_by_id : RecipesById) where
  -- The recipe of the id has these four.
  abbrev pub Recipe :
      Text → Text → HiddenParamSubjectArtifact → HiddenParamPurposeArtifact → Option Text → Type 0
  Recipe id param subject purpose route_proof_id =
      (recipe : WitnessRecipeArtifact) × (get id recipes_by_id ≡ some recipe)
      × Agrees recipe param subject purpose route_proof_id

  pub check_hidden_param-Recipe :
      {T : Type 0} (entry : Text) (p : HiddenParamArtifact T)
      → check_hidden_param templates_by_id recipes_by_id entry p ≡ ok tt
      → Recipe p.recipe_id p.name p.subject p.purpose p.route_proof_id
  unfolding check_hidden_param
  check_hidden_param-Recipe entry p h = elim (Option-cases (get p.recipe_id recipes_by_id)) [
    | inl e ↦ absurd (ground arith)
    | inr (recipe, found) ↦ (
      recipe,
      found,
      recipe_agrees_lem recipe p.name p.subject p.purpose p.route_proof_id (ground arith),
    )
  ]

  pub check_witness-Recipe :
      (entry : Text) (w : WitnessArtifact)
      → check_witness templates_by_id recipes_by_id entry w ≡ ok tt
      → Recipe w.recipe_id w.param w.subject w.purpose w.route_proof_id
  unfolding check_witness
  check_witness-Recipe entry w h = elim (Option-cases (get w.recipe_id recipes_by_id)) [
    | inl e ↦ absurd (ground arith)
    | inr (recipe, found) ↦ (
      recipe,
      found,
      recipe_agrees_lem recipe w.param w.subject w.purpose w.route_proof_id (ground arith),
    )
  ]

  pub verify_route-template :
      (entry : Text) (route : RouteArtifact) (actor template_id state_expr : Text)
      → verify_route templates_by_id recipes_by_id entry route ≡ ok tt
      → route.successor ≡ constructed actor template_id state_expr
      → (t : TemplateReceiptArtifact) × (get template_id templates_by_id ≡ some t)
        × (t.actor ≡ actor)
  unfolding verify_route verify_route_template
  verify_route-template entry route actor template_id state_expr h e =
      elim (Option-cases (get template_id templates_by_id)) [
        | inl e' ↦ absurd (ground arith)
        | inr (t, found) ↦ (t, found, ground (arith, eqb_iff t.actor actor))
      ]

  verify_route_recipe_id_lem :
      (entry : Text) (ids : List Text) (id : Text)
      → verify_route_recipe_id templates_by_id recipes_by_id entry ids id ≡ ok tt
      → contains id ids ≡ true
  unfolding verify_route_recipe_id
  verify_route_recipe_id_lem entry ids id h = ground arith

  pub verify_route_recipe_ids_lem :
      (entry : Text) (ids params : List Text)
      → verify_route_recipe_ids templates_by_id recipes_by_id entry ids (from_list params) ≡ ok tt
      → All (λ id. In id params) ids
  unfolding verify_route_recipe_ids
  verify_route_recipe_ids_lem entry ids params h =
      each-All (verify_route_recipe_id templates_by_id recipes_by_id entry (from_list params)) _ ids
        (λ id e.
          let known = verify_route_recipe_id_lem entry (from_list params) id e in
          (contains_iff id params).0 (ground (arith, contains-extend id [] params)))
        h
