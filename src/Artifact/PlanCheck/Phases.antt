-- ===== src/Artifact/PlanCheck/Phases.antt =====
-- `check_consistency`: what its phases up to the tables ensure.
use argent.Base.{
  All-map, ◌≡◌, ◌≢◌, refl, ◌∙◌, inl, inr, List, [], All, All-of_In, In, arith, Text, ok, bind_ok,
  each, each-All, Done, true, sym,
}
use argent.Collections.Order.{bytes_ord, pair_ord}
use argent.Collections.Slices.{Pairwise}
use argent.Artifact.Sil.{SilAbi, SilPlan, SilPlanLaws}
use argent.Artifact.Digest.{Digest}
use argent.Artifact.Schema.{Artifact}
use argent.Artifact.Schema.Plan.{TemplatePlanArtifact, RouteTemplateTableArtifact}
use argent.Artifact.PlanCheck.{check_templates, check_families, check_tables}
use argent.Artifact.PlanCheck.Templates.{TemplatesById, check_referenced}
use argent.Artifact.PlanCheck.Families.{FamiliesById, actor_states, check_runtime_states}
use argent.Artifact.PlanCheck.Tables.{TablesById, check_table}
use argent.Artifact.PlanCheck.Bindings.{bind_states, check_table_referenced}
use argent.Artifact.PlanCheck.Outcomes.{ok_inj, raise_ok}
use argent.Artifact.PlanCheck.Indexed.{Kept, Fresh-Pairwise}
use argent.Artifact.PlanCheck.Received.{
  receipt_ids, ref_ids, IsReceipt, index_templates_lem, Referred, check_refs_lem,
  check_referenced_lem,
}
use argent.Artifact.PlanCheck.Tabled.{
  table_ids, family_ids, index_tables_lem, index_families_lem, IsTable, check_table-IsTable,
}
use argent.Artifact.PlanCheck.Members.{IsFamily, check_family-IsFamily}
use argent.Artifact.PlanCheck.Role.{IsStateBound}
use argent.Artifact.PlanCheck.Bound.{
  OfField, state_contracts, IsSourced, check_runtime_states-IsSourced, bind_states-IsStateBound,
}
use argent.Collections.BTreeSet.{contains}
use argent.Artifact.PlanCheck.Exposed.{Receipt}

pub In-own : {A : Type 0} (id : A → Text) (xs : List A) → All (λ x. (id x ≡ id x) × In x xs) xs
In-own id xs = All-of_In _ xs (λ x i. (refl, i))

module _ (S : SilAbi) (P : SilPlan S) (L : SilPlanLaws S P) (D : Digest)
    (plan : TemplatePlanArtifact) (artifact : Artifact S) where
  abbrev pub Receipts : TemplatesById → Type 0
  Receipts m =
      Pairwise ◌≢◌ (receipt_ids plan.templates)
      × All (IsReceipt S P D artifact.sil_abi) plan.templates
      × Kept (Receipt plan) m
      × All (Referred m) artifact.argent.templates
      × All (λ t. In t.id (ref_ids artifact.argent.templates)) plan.templates

  pub check_templates-Receipts :
      (m : TemplatesById) → check_templates S P D plan artifact ≡ ok m → Receipts m
  unfolding check_templates
  check_templates-Receipts m h =
      let indexed = bind_ok _ _ m (raise_ok _ m h) in
      let referred = bind_ok _ _ m indexed.2 in
      let loop = bind_ok {A = Done} _ _ m referred.2 in
      let index =
        index_templates_lem S P D artifact.sil_abi (Receipt plan) [] [] plan.templates indexed.0
          indexed.1 (λ k v e. cc) (In-own (λ t. t.id) plan.templates) in
      let refs = check_refs_lem indexed.0 [] artifact.argent.templates referred.0 referred.1 in
      let used =
        each-All (check_referenced referred.0) (λ t. In t.id (ref_ids artifact.argent.templates))
          plan.templates
          (λ t e. elim (refs.1 t.id (check_referenced_lem referred.0 t e)) [
            | inl none' ↦ absurd cc
            | inr i ↦ i
          ])
          loop.1 in
      let same : indexed.0 ≡ m = ok_inj indexed.0 m loop.2 in
      (
        Fresh-Pairwise [] (receipt_ids plan.templates) index.0,
        index.1,
        rw same at index.2,
        rw same at refs.0,
        used,
      )

  abbrev pub Families : FamiliesById → Type 0
  Families m =
      Pairwise ◌≢◌ (family_ids plan.route_families)
      × All (IsFamily artifact.argent.actors) plan.route_families
      × Kept (λ id f. (f.id ≡ id) × In f plan.route_families) m
      × Pairwise ◌≢◌ (state_contracts plan.runtime_states)
      × All (IsSourced (actor_states artifact.argent.actors)) plan.runtime_states

  pub check_families-Families :
      (m : FamiliesById) → check_families S P D plan artifact ≡ ok m → Families m
  unfolding check_families
  check_families-Families m h =
      let actors = artifact.argent.actors in
      let indexed = bind_ok _ _ m (raise_ok _ m h) in
      let loop =
        bind_ok
          (check_runtime_states S P artifact.sil_abi (actor_states actors) [] plan.runtime_states) _
          m indexed.2 in
      let index =
        index_families_lem (actor_states actors) (λ id f. (f.id ≡ id) × In f plan.route_families) []
          [] plan.route_families indexed.0 indexed.1 (λ k v e. cc)
          (In-own (λ f. f.id) plan.route_families) in
      let same : indexed.0 ≡ m = ok_inj indexed.0 m loop.2 in
      let (contracts, sourced) =
        check_runtime_states-IsSourced S P artifact.sil_abi (actor_states actors) []
          plan.runtime_states loop.1 in
      (
        Fresh-Pairwise [] (family_ids plan.route_families) index.0,
        All-map _ (IsFamily actors) plan.route_families (check_family-IsFamily actors) index.1,
        rw same at index.2,
        Fresh-Pairwise [] (state_contracts plan.runtime_states) contracts,
        sourced,
      )

  check_table_referenced_lem :
      (referenced : List Text) (table : RouteTemplateTableArtifact)
      → check_table_referenced referenced table ≡ ok tt
      → contains table.id referenced ≡ true
  unfolding check_table_referenced
  check_table_referenced_lem referenced table h = ground arith

  abbrev pub Tables : TemplatesById → FamiliesById → TablesById → Type 0
  Tables templates families m =
      Pairwise ◌≢◌ (table_ids plan.route_tables)
      × All (IsTable templates families m) plan.route_tables
      × Kept (λ id t. (t.id ≡ id) × In t plan.route_tables) m
      × All (IsStateBound S P plan artifact.sil_abi) plan.runtime_states
      × All (λ table. OfField plan table.id) plan.route_tables

  pub check_tables-Tables :
      (templates : TemplatesById) (families : FamiliesById) (m : TablesById)
      → Kept (λ id f. (f.id ≡ id) × In f plan.route_families) families
      → check_tables S P D plan artifact templates families ≡ ok m
      → Tables templates families m
  unfolding check_tables
  check_tables-Tables templates families m known_families h =
      let structured = bind_ok _ _ m h in
      let bound =
        bind_ok (bind_states S P artifact.sil_abi families structured.0 plan.runtime_states []) _ m
          structured.2 in
      let referenced =
        bind_ok (each (check_table_referenced bound.0) plan.route_tables) _ m bound.2 in
      let same : structured.0 ≡ m = ok_inj structured.0 m referenced.2 in
      let indexed = bind_ok _ _ structured.0 (raise_ok _ structured.0 structured.1) in
      let loop = bind_ok {A = Done} _ _ structured.0 indexed.2 in
      let known : indexed.0 ≡ m = ok_inj indexed.0 structured.0 loop.2 ∙ same in
      let index =
        index_tables_lem (λ id t. (t.id ≡ id) × In t plan.route_tables) [] [] plan.route_tables
          indexed.0 indexed.1 (λ k v e. cc) (In-own (λ t. t.id) plan.route_tables) in
      let shaped =
        each-All (check_table templates families indexed.0) (IsTable templates families indexed.0)
          plan.route_tables (check_table-IsTable templates families indexed.0) loop.1 in
      let known_tables : Kept (λ id t. (t.id ≡ id) × In t plan.route_tables) m =
        rw known at index.1 in
      let (states, grown) =
        bind_states-IsStateBound S P L plan artifact.sil_abi families structured.0 known_families
          (rw (sym same) at known_tables) plan.runtime_states [] bound.0 bound.1 in
      (
        Fresh-Pairwise [] (table_ids plan.route_tables) index.0,
        rw known at shaped,
        known_tables,
        states,
        each-All (check_table_referenced bound.0) (λ table. OfField plan table.id) plan.route_tables
            (λ table e. elim (grown table.id (check_table_referenced_lem bound.0 table e)) [
              | inl none' ↦ absurd cc
              | inr of ↦ of
            ])
            referenced.1,
      )
