-- ===== src/Artifact/PlanCheck/ProofPhases.antt =====
-- `check_consistency`: what its phases from the proofs on ensure.
use argent.Base.{
  All-map, ◌≡◌, ◌≢◌, inl, inr, some, [], find, All, All_at, In, arith, ok, bind_ok, each, each-All,
  Option-cases,
}
use argent.Collections.Order.{bytes_ord, pair_ord, eqb}
use argent.Collections.BTreeSet.{from_list}
use argent.Collections.BTreeMap.{get}
use argent.Collections.Slices.{Pairwise}
use argent.Artifact.Sil.{SilAbi, SilPlan, SilPlanLaws}
use argent.Artifact.Digest.{Digest}
use argent.Artifact.Schema.{Artifact, ActorArtifact}
use argent.Artifact.Schema.Entry.{EntryArtifact}
use argent.Artifact.Schema.Plan.{
  TemplatePlanArtifact, TemplateReceiptArtifact, RouteTemplateTableArtifact,
  RouteTemplateProofArtifact,
}
use argent.Artifact.RouteProof.{raise, route_template_proof_receipt_id}
use argent.Artifact.PlanCheck.{check_proofs, check_handle, check_recipes}
use argent.Artifact.PlanCheck.Templates.{TemplatesById}
use argent.Artifact.PlanCheck.Families.{FamiliesById}
use argent.Artifact.PlanCheck.Tables.{TablesById}
use argent.Artifact.PlanCheck.Proofs.{ProofsById, verify_proof, check_has_proof, check_family_table}
use argent.Artifact.PlanCheck.Recipes.{interface_keys}
use argent.Artifact.PlanCheck.Entries.{check_actor}
use argent.Artifact.PlanCheck.Outcomes.{ok_inj, raise_ok, present_ok}
use argent.Artifact.PlanCheck.Handled.{IsHandled, verify_actor_type_handle-IsHandled}
use argent.Artifact.PlanCheck.Indexed.{Kept, Fresh-Pairwise}
use argent.Artifact.PlanCheck.Proved.{
  proof_ids, witness_recipe_ids, index_proofs_lem, index_recipes_lem,
}
use argent.Artifact.PlanCheck.Members.{IsFamilyTable, check_family_table-IsFamilyTable}
use argent.Artifact.RouteProof.Verified.{IsProof}
use argent.Artifact.PlanCheck.Rooted.{PlanHash, verify_proof-IsProof}
use argent.Artifact.PlanCheck.Registry.{IsRecipe, check_recipe-IsRecipe}
use argent.Artifact.PlanCheck.Exposed.{Receipt, Recipe, IsEntry, check_actor-IsEntry}
use argent.Artifact.PlanCheck.Phases.{In-own}

module _ (S : SilAbi) (P : SilPlan S) (L : SilPlanLaws S P) (D : Digest)
    (plan : TemplatePlanArtifact) (artifact : Artifact S) where
  abbrev pub Proofs : TablesById → ProofsById → Type 0
  Proofs tables m =
      Kept (λ id p. (p.id ≡ id) × In p plan.route_proofs) m
      × Pairwise ◌≢◌ (proof_ids plan.route_proofs)
      × All
          (λ table.
            (p : RouteTemplateProofArtifact) × In p plan.route_proofs
            × (p.id ≡ route_template_proof_receipt_id table.state table.field))
          plan.route_tables
      × All
          (λ family.
            (table : RouteTemplateTableArtifact) × (get family.table_id tables ≡ some table)
            × IsFamilyTable family table)
          plan.route_families
      × All
          (λ proof.
            (table : RouteTemplateTableArtifact) × In table plan.route_tables
            × IsProof D (PlanHash D plan) proof table)
          plan.route_proofs

  check_has_proof-proof :
      (m : ProofsById) (table : RouteTemplateTableArtifact)
      → Kept (λ id p. (p.id ≡ id) × In p plan.route_proofs) m
      → check_has_proof m table ≡ ok tt
      → (p : RouteTemplateProofArtifact) × In p plan.route_proofs
        × (p.id ≡ route_template_proof_receipt_id table.state table.field)
  unfolding check_has_proof
  check_has_proof-proof m table kept h =
      let id = route_template_proof_receipt_id table.state table.field in
      elim (Option-cases (get id m)) [
        | inl e ↦ absurd (ground arith)
        | inr (p, found) ↦ let (same, i) = kept id p found in (p, i, same)
      ]

  pub check_proofs-Proofs :
      (templates : TemplatesById) (tables : TablesById) (m : ProofsById)
      → Kept (Receipt plan) templates
      → Kept (λ id t. (t.id ≡ id) × In t plan.route_tables) tables
      → check_proofs S P D plan artifact templates tables ≡ ok m
      → Proofs tables m
  unfolding check_proofs
  check_proofs-Proofs templates tables m receipts known h =
      let indexed = bind_ok _ _ m h in
      let verified =
        bind_ok (each (verify_proof D templates tables indexed.0) plan.route_proofs) _ m
          indexed.2 in
      let held =
        bind_ok (raise (each (check_has_proof indexed.0) plan.route_tables)) _ m verified.2 in
      let joined =
        bind_ok (raise (each (check_family_table tables) plan.route_families)) _ m held.2 in
      let index =
        index_proofs_lem tables (λ id p. (p.id ≡ id) × In p plan.route_proofs) [] []
          plan.route_proofs indexed.0 (raise_ok _ indexed.0 indexed.1) (λ k v e. cc)
          (In-own (λ p. p.id) plan.route_proofs) in
      let same : indexed.0 ≡ m = ok_inj indexed.0 m joined.2 in
      (
        rw same at index.1,
        Fresh-Pairwise [] (proof_ids plan.route_proofs) index.0,
        each-All (check_has_proof indexed.0) _ plan.route_tables
            (λ table e. check_has_proof-proof indexed.0 table index.1 e)
            (raise_ok (each (check_has_proof indexed.0) plan.route_tables) tt held.1),
        each-All (check_family_table tables) _ plan.route_families
            (check_family_table-IsFamilyTable tables)
            (raise_ok (each (check_family_table tables) plan.route_families) tt joined.1),
        each-All (verify_proof D templates tables indexed.0) _ plan.route_proofs
            (verify_proof-IsProof D plan templates tables indexed.0 receipts known index.1)
            verified.1,
      )

  pub check_handle-IsHandled :
      (t : TemplateReceiptArtifact)
      → check_handle S P D plan artifact t ≡ ok tt
      → (contract : S.SilContractArtifact) × (P.contracts_get artifact.sil_abi t.contract
          ≡ some contract)
        × IsHandled S P D plan artifact t contract
            (find (λ state. eqb state.contract t.contract) plan.runtime_states)
  unfolding check_handle
  check_handle-IsHandled t h =
      let found = bind_ok _ _ tt h in
      (
        found.0,
        present_ok _ found.0 found.1,
        verify_actor_type_handle-IsHandled S P L D plan artifact t t.contract found.0
            (raise_ok _ tt found.2),
      )

  pub check_recipes-IsEntry :
      (templates : TemplatesById) (families : FamiliesById) (proofs : ProofsById)
      → Kept (Receipt plan) templates
      → Kept (λ id f. (f.id ≡ id) × In f plan.route_families) families
      → Kept (λ id p. (p.id ≡ id) × In p plan.route_proofs) proofs
      → check_recipes S P D plan artifact templates families proofs ≡ ok tt
      → Pairwise ◌≢◌ (witness_recipe_ids plan.witness_recipes)
        × All (IsRecipe plan artifact.argent.interfaces.imports) plan.witness_recipes
        × ((actor : ActorArtifact S.TypeArtifact) (entry : EntryArtifact S.TypeArtifact)
            → In actor artifact.argent.actors
            → In entry actor.entries
            → IsEntry plan entry)
  unfolding check_recipes
  check_recipes-IsEntry templates families proofs receipts known_families known_proofs h =
      let imported = from_list (interface_keys artifact.argent.interfaces.imports) in
      let indexed = bind_ok _ _ tt (raise_ok _ tt h) in
      let index =
        index_recipes_lem templates families proofs imported (Recipe plan) [] []
          plan.witness_recipes indexed.0 indexed.1 (λ k v e. cc)
          (In-own (λ r. r.id) plan.witness_recipes) in
      let loop =
        each-All (check_actor templates indexed.0)
          (λ actor. check_actor templates indexed.0 actor ≡ ok tt) artifact.argent.actors
          (λ actor e. e) indexed.2 in
      (
        Fresh-Pairwise [] (witness_recipe_ids plan.witness_recipes) index.0,
        All-map _ (IsRecipe plan artifact.argent.interfaces.imports) plan.witness_recipes
            (check_recipe-IsRecipe plan artifact.argent.interfaces.imports templates families proofs
              receipts known_families known_proofs)
            index.1,
        λ actor entry i j.
            check_actor-IsEntry plan templates indexed.0 receipts index.2 actor entry
              (All_at (λ actor. check_actor templates indexed.0 actor ≡ ok tt)
                artifact.argent.actors loop i)
              j,
      )
