-- ===== src/Artifact/PlanCheck/Registry.antt =====
-- `check_consistency`: what the check of a witness recipe ensures.
use argent.Base.{
  ◌≡◌, refl, ap, sym, ◌∙◌, inl, inr, true, ◌==◌, ==_iff, ◌&&◌, Option, none, some, List, [], ◌∷◌,
  ◌++◌, In, arith, Text, bytes, ok, bind_ok, Bool-cases, Option-cases,
}
use argent.Collections.Order.{eqb_iff, bytes_ord, pair_ord}
use argent.Collections.BTreeSet.{contains, contains-extend, contains_iff, from_list}
use argent.Collections.BTreeMap.{get}
use argent.Artifact.Schema.{ActorInterfaceArtifact}
use argent.Artifact.Schema.Entry.{
  HiddenParamSubjectArtifact, actor, observed_actor, spawn_actor, observed_output_field,
  route_family, template_selector, state_expansion,
}
use argent.Artifact.Schema.Plan.{
  TemplatePlanArtifact, TemplateReceiptArtifact, RouteTemplateFamilyArtifact,
  RouteTemplateProofArtifact, WitnessRecipeArtifact,
}
use argent.Artifact.PlanCheck.Templates.{TemplatesById}
use argent.Artifact.PlanCheck.Families.{FamiliesById}
use argent.Artifact.PlanCheck.Proofs.{ProofsById}
use argent.Artifact.PlanCheck.Recipes.{
  split_once, interface_keys, is_imported, check_subject, check_recipe_proof, check_recipe,
}
use argent.Artifact.PlanCheck.Indexed.{Kept}
use argent.Artifact.PlanCheck.Exposed.{Receipt}

split_once_lem : (t x y : Text) → split_once t ≡ some (x, y) → t ≡ x ++ bytes "::" ++ y
split_once_lem [] x y h = cc
split_once_lem (a ∷ []) x y h = cc
split_once_lem (a ∷ b ∷ rest) x y h = elim (Bool-cases ((a == 58) && (b == 58))) [
  | inl e ↦
      let before : [] ≡ x = ground arith in
      let after : rest ≡ y = ground arith in
      let first : a ≡ 58 = ground (arith, ==_iff a 58) in
      let second : b ≡ 58 = ground (arith, ==_iff b 58) in
      rw (sym before, sym after, first, second) refl
  | inr e ↦ elim (Option-cases (split_once (b ∷ rest))) [
    | inl none' ↦ absurd (ground arith)
    | inr ((z, w), e') ↦
        let before : a ∷ z ≡ x = ground arith in
        let after : w ≡ y = ground arith in
        ap (λ t. a ∷ t) (split_once_lem (b ∷ rest) z w e')
        ∙ ap (λ x. x ++ bytes "::" ++ w) before
        ∙ ap (λ y. x ++ bytes "::" ++ y) after
  ]
]

-- The name is an imported actor's, qualified by its app.
abbrev pub IsImported : List ActorInterfaceArtifact → Text → Type 0
IsImported imports name =
    (interface : ActorInterfaceArtifact) × In interface imports
    × (name ≡ interface.app ++ bytes "::" ++ interface.actor)

interface_keys_lem :
    (imports : List ActorInterfaceArtifact) (app name : Text)
    → In (app, name) (interface_keys imports)
    → (interface : ActorInterfaceArtifact) × In interface imports
      × (interface.app ≡ app)
      × (interface.actor ≡ name)
interface_keys_lem [] app name i = absurd i
interface_keys_lem (x ∷ xs) app name (inl e) =
    (x, inl refl, ap (λ p. p.0) (sym e), ap (λ p. p.1) (sym e))
interface_keys_lem (x ∷ xs) app name (inr i) =
    let (interface, member, apps, names) = interface_keys_lem xs app name i in
    (interface, inr member, apps, names)

is_imported-IsImported :
    (imports : List ActorInterfaceArtifact) (name : Text)
    → is_imported (from_list (interface_keys imports)) name ≡ true
    → IsImported imports name
is_imported-IsImported imports name h = elim (Option-cases (split_once name)) [
  | inl none' ↦ absurd (ground arith)
  | inr ((app, contract), e) ↦
      let known : contains (app, contract) (from_list (interface_keys imports)) ≡ true =
        ground arith in
      let listed =
        (contains_iff (app, contract) (interface_keys imports)).0
          (ground (arith, contains-extend (app, contract) [] (interface_keys imports))) in
      let (interface, member, apps, names) = interface_keys_lem imports app contract listed in
      (interface, member, rw (apps, names) (split_once_lem name app contract e))
]

-- An actor is that of the receipt of the template id, or an imported one.
abbrev pub RefersActor :
    TemplatePlanArtifact → List ActorInterfaceArtifact → Text → Option Text → Type 0
RefersActor plan imports a (some id) =
    (t : TemplateReceiptArtifact) × Receipt plan id t × (t.actor ≡ a)
RefersActor plan imports a none = IsImported imports a

-- The subject of a recipe, beside its template id, refers to the plan or to an import.
abbrev pub Refers :
    TemplatePlanArtifact
    → List ActorInterfaceArtifact
    → Option Text
    → HiddenParamSubjectArtifact
    → Type 0
Refers plan imports template_id (actor a) = RefersActor plan imports a template_id
Refers plan imports template_id (route_family family_id) =
    (f : RouteTemplateFamilyArtifact) × (f.id ≡ family_id) × In f plan.route_families
Refers plan imports template_id (observed_actor observe side handle a) = Unit
Refers plan imports template_id (spawn_actor spawn handle a) = Unit
Refers plan imports template_id (observed_output_field observe handle state field) = Unit
Refers plan imports template_id (template_selector selector) = Unit
Refers plan imports template_id (state_expansion state field memory_state) = Unit

-- The proof that a recipe names, if it names one, is a proof of the plan.
abbrev pub HasProof : TemplatePlanArtifact → Option Text → Type 0
HasProof plan none = Unit
HasProof plan (some route_proof_id) =
    (p : RouteTemplateProofArtifact) × (p.id ≡ route_proof_id) × In p plan.route_proofs

abbrev pub IsRecipe :
    TemplatePlanArtifact → List ActorInterfaceArtifact → WitnessRecipeArtifact → Type 0
IsRecipe plan imports recipe =
    Refers plan imports recipe.template_id recipe.subject × HasProof plan recipe.route_proof_id

module _ (plan : TemplatePlanArtifact) (imports : List ActorInterfaceArtifact)
    (templates_by_id : TemplatesById) (families_by_id : FamiliesById) (proofs_by_id : ProofsById)
    (receipts : Kept (Receipt plan) templates_by_id)
    (families : Kept (λ id f. (f.id ≡ id) × In f plan.route_families) families_by_id)
    (proofs : Kept (λ id p. (p.id ≡ id) × In p plan.route_proofs) proofs_by_id) where
  abbrev imported : List (Text × Text)
  imported = from_list (interface_keys imports)

  check_subject-Refers :
      (id : Text) (template_id : Option Text) (subject : HiddenParamSubjectArtifact)
      → check_subject templates_by_id families_by_id proofs_by_id imported id template_id subject
        ≡ ok tt
      → Refers plan imports template_id subject
  unfolding check_subject
  check_subject-Refers id (some template_id) (actor a) h =
      elim (Option-cases (get template_id templates_by_id)) [
        | inl none' ↦ absurd (ground arith)
        | inr (t, found) ↦
            (t, receipts template_id t found, sym ((eqb_iff a t.actor).0 (ground arith)))
      ]
  check_subject-Refers id none (actor a) h = is_imported-IsImported imports a (ground arith)
  check_subject-Refers id template_id (route_family family_id) h =
      elim (Option-cases (get family_id families_by_id)) [
        | inl none' ↦ absurd (ground arith)
        | inr (f, found) ↦ let (same, i) = families family_id f found in (f, same, i)
      ]
  check_subject-Refers id template_id (observed_actor observe side handle a) h = tt
  check_subject-Refers id template_id (spawn_actor spawn handle a) h = tt
  check_subject-Refers id template_id (observed_output_field observe handle state field) h = tt
  check_subject-Refers id template_id (template_selector selector) h = tt
  check_subject-Refers id template_id (state_expansion state field memory_state) h = tt

  check_recipe_proof-HasProof :
      (id : Text) (route_proof_id : Option Text)
      → check_recipe_proof templates_by_id families_by_id proofs_by_id imported id route_proof_id
        ≡ ok tt
      → HasProof plan route_proof_id
  unfolding check_recipe_proof
  check_recipe_proof-HasProof id none h = tt
  check_recipe_proof-HasProof id (some route_proof_id) h =
      elim (Option-cases (get route_proof_id proofs_by_id)) [
        | inl none' ↦ absurd (ground arith)
        | inr (p, found) ↦ let (same, i) = proofs route_proof_id p found in (p, same, i)
      ]

  pub check_recipe-IsRecipe :
      (recipe : WitnessRecipeArtifact)
      → check_recipe templates_by_id families_by_id proofs_by_id imported recipe ≡ ok tt
      → IsRecipe plan imports recipe
  unfolding check_recipe
  check_recipe-IsRecipe recipe h =
      let (_, subject, proof) = bind_ok _ _ tt h in
      (
        check_subject-Refers recipe.id recipe.template_id recipe.subject subject,
        check_recipe_proof-HasProof recipe.id recipe.route_proof_id proof,
      )
