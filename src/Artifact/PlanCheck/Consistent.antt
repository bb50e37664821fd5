-- ===== src/Artifact/PlanCheck/Consistent.antt =====
-- `TemplatePlanArtifact::check_consistency`: what a check that succeeds ensures of the plan and of the
-- artifact that contains it.
use argent.Base.{
  ℕ, ◌*◌, ◌≡◌, ◌≢◌, some, length, get_elem?, find, All, All_at, In, ok, bind_ok, each-All,
}
use argent.Collections.Order.{bytes_ord, pair_ord, eqb}
use argent.Collections.Slices.{Pairwise}
use argent.Artifact.Sil.{SilAbi, SilPlan, SilPlanLaws}
use argent.Artifact.Digest.{Digest}
use argent.Artifact.Schema.{Artifact, ActorArtifact, TemplateRefArtifact}
use argent.Artifact.Schema.Entry.{EntryArtifact}
use argent.Artifact.Schema.Plan.{
  TemplatePlanArtifact, TemplateReceiptArtifact, RouteTemplateTableArtifact,
  RouteTemplateTableEntryArtifact, RouteTemplateFamilyArtifact, RouteTemplateProofArtifact,
  RouteTemplateLeafArtifact, template, route_family, RuntimeStatePlanArtifact,
}
use argent.Artifact.RouteProof.Verified.{IsProof}
use argent.Artifact.PlanCheck.Rooted.{PlanHash}
use argent.Artifact.RouteProof.{route_template_proof_receipt_id}
use argent.Artifact.PlanCheck.{check_handle, check_consistency}
use argent.Artifact.PlanCheck.Templates.{TemplatesById}
use argent.Artifact.PlanCheck.Families.{FamiliesById, actor_states}
use argent.Artifact.PlanCheck.Tables.{TablesById}
use argent.Artifact.PlanCheck.Handled.{IsHandled}
use argent.Artifact.PlanCheck.Indexed.{Kept}
use argent.Artifact.PlanCheck.Received.{receipt_ids, ref_ids, IsReceipt, Referred}
use argent.Artifact.PlanCheck.Tabled.{table_ids, family_ids, Resolved, IsTable}
use argent.Artifact.PlanCheck.Proved.{proof_ids, witness_recipe_ids}
use argent.Artifact.PlanCheck.Members.{IsFamily, IsFamilyTable, Owns, actor_states-Owns}
use argent.Artifact.PlanCheck.Role.{IsStateBound}
use argent.Artifact.PlanCheck.Bound.{OfField, state_contracts, role_names_of, IsSourced}
use argent.Artifact.PlanCheck.Exposed.{Receipt, IsEntry}
use argent.Artifact.PlanCheck.Phases.{
  check_templates-Receipts, check_families-Families, check_tables-Tables,
}
use argent.Artifact.PlanCheck.Registry.{IsRecipe}
use argent.Artifact.PlanCheck.ProofPhases.{
  check_proofs-Proofs, check_handle-IsHandled, check_recipes-IsEntry,
}

-- A leaf of a table names a receipt of its actor, or a family and the proof of the family's table.
abbrev pub Named : TemplatePlanArtifact → RouteTemplateLeafArtifact → Type 0
Named plan (template actor template_id) =
    (t : TemplateReceiptArtifact) × Receipt plan template_id t × (t.actor ≡ actor)
Named plan (route_family family_id proof_id) =
    (family : RouteTemplateFamilyArtifact) × (table : RouteTemplateTableArtifact) × ((family.id
        ≡ family_id)
      × In family plan.route_families)
    × ((table.id ≡ family.table_id) × In table plan.route_tables)
    × (proof_id ≡ route_template_proof_receipt_id table.state table.field)

abbrev pub Entry : TemplatePlanArtifact → ℕ → RouteTemplateTableEntryArtifact → Type 0
Entry plan k entry = (entry.index ≡ k) × (entry.offset ≡ k * 32) × Named plan entry.leaf

module _ (plan : TemplatePlanArtifact) (templates_by_id : TemplatesById)
    (families_by_id : FamiliesById) (tables_by_id : TablesById)
    (receipts : Kept (Receipt plan) templates_by_id)
    (families : Kept (λ id f. (f.id ≡ id) × In f plan.route_families) families_by_id)
    (tables : Kept (λ id t. (t.id ≡ id) × In t plan.route_tables) tables_by_id) where
  Resolved-Named :
      (leaf : RouteTemplateLeafArtifact)
      → Resolved templates_by_id families_by_id tables_by_id leaf
      → Named plan leaf
  Resolved-Named (template actor template_id) (t, found, same) =
      (t, receipts template_id t found, same)
  Resolved-Named (route_family family_id proof_id) (family, table, found, known, same) =
      (family, table, families family_id family found, tables family.table_id table known, same)

  IsTable-Entry :
      (table : RouteTemplateTableArtifact)
      → IsTable templates_by_id families_by_id tables_by_id table
      → (k : ℕ) (entry : RouteTemplateTableEntryArtifact) → get_elem? table.entries k ≡ some entry
      → Entry plan k entry
  IsTable-Entry table h k entry e =
      let (index, offset, leaf) = h.1 k entry e in (index, offset, Resolved-Named entry.leaf leaf)

-- The plan, and the artifact that contains it.
pub record IsConsistent (S : SilAbi) (P : SilPlan S) (D : Digest) (plan : TemplatePlanArtifact)
    (artifact : Artifact S) : Type 0 where
  pub receipt_ids_distinct : Pairwise ◌≢◌ (receipt_ids plan.templates)
  pub receipts : All (IsReceipt S P D artifact.sil_abi) plan.templates
  pub refs :
      (r : TemplateRefArtifact)
      → In r artifact.argent.templates
      → (t : TemplateReceiptArtifact) × Receipt plan r.id t
        × (t.actor ≡ r.actor)
        × (t.symbol ≡ r.symbol)
  pub referenced :
      (t : TemplateReceiptArtifact)
      → In t plan.templates
      → In t.id (ref_ids artifact.argent.templates)
  pub family_ids_distinct : Pairwise ◌≢◌ (family_ids plan.route_families)
  pub families : All (IsFamily artifact.argent.actors) plan.route_families
  pub table_ids_distinct : Pairwise ◌≢◌ (table_ids plan.route_tables)
  pub tables :
      (table : RouteTemplateTableArtifact)
      → In table plan.route_tables
      → (table.byte_len ≡ length table.entries * 32)
        × ((k : ℕ) (entry : RouteTemplateTableEntryArtifact)
            → get_elem? table.entries k ≡ some entry
            → Entry plan k entry)
  pub contracts_distinct : Pairwise ◌≢◌ (state_contracts plan.runtime_states)
  pub sourced :
      (runtime_state : RuntimeStatePlanArtifact)
      → In runtime_state plan.runtime_states
      → Owns artifact.argent.actors runtime_state.contract runtime_state.source
        × Pairwise ◌≢◌ (role_names_of runtime_state.field_roles)
  pub bound : All (IsStateBound S P plan artifact.sil_abi) plan.runtime_states
  pub of_field :
      (table : RouteTemplateTableArtifact) → In table plan.route_tables → OfField plan table.id
  pub proof_ids_distinct : Pairwise ◌≢◌ (proof_ids plan.route_proofs)
  pub proved :
      (table : RouteTemplateTableArtifact)
      → In table plan.route_tables
      → (p : RouteTemplateProofArtifact) × In p plan.route_proofs
        × (p.id ≡ route_template_proof_receipt_id table.state table.field)
  pub verified :
      (proof : RouteTemplateProofArtifact)
      → In proof plan.route_proofs
      → (table : RouteTemplateTableArtifact) × In table plan.route_tables
        × IsProof D (PlanHash D plan) proof table
  pub family_tables :
      (family : RouteTemplateFamilyArtifact)
      → In family plan.route_families
      → (table : RouteTemplateTableArtifact) × (table.id ≡ family.table_id)
        × In table plan.route_tables
        × IsFamilyTable family table
  pub handles :
      (t : TemplateReceiptArtifact)
      → In t plan.templates
      → (contract : S.SilContractArtifact) × (P.contracts_get artifact.sil_abi t.contract
          ≡ some contract)
        × IsHandled S P D plan artifact t contract
            (find (λ state. eqb state.contract t.contract) plan.runtime_states)
  pub recipe_ids_distinct : Pairwise ◌≢◌ (witness_recipe_ids plan.witness_recipes)
  pub recipes : All (IsRecipe plan artifact.argent.interfaces.imports) plan.witness_recipes
  pub entries :
      (actor : ActorArtifact S.TypeArtifact) (entry : EntryArtifact S.TypeArtifact)
      → In actor artifact.argent.actors
      → In entry actor.entries
      → IsEntry plan entry

module _ (S : SilAbi) (P : SilPlan S) (L : SilPlanLaws S P) (D : Digest)
    (plan : TemplatePlanArtifact) (artifact : Artifact S) where
  -- A check that succeeds ensures the following. The ids of the receipts, of the families, of the
  -- tables, of the proofs and of the recipes and the contracts of the runtime states are distinct. Each
  -- receipt has the template hash of its compiled contract, the references name exactly the receipts,
  -- and each handle satisfies IsHandled. Each family satisfies IsFamily. Entry `k` of a table has index
  -- `k` and offset `32 * k`, and its leaf names a receipt of its actor, or a family with the proof of its
  -- table. A runtime state has the state of its actor, no field has two roles, and each field with a role
  -- is one of the compiled contract, of the type of its role, and has the table or the family of its
  -- role; each table is that of such a field. Each table has a proof, and each proof is that of a table:
  -- its root is the Merkle root of the hashes of the entries, one for each and no other, and its leaves
  -- prove the entries. The table of a family has its state, and its template actors are the actors of
  -- the family that are no entry actors. A recipe for an actor names a receipt of the actor or an
  -- imported one, and the family and the proof that a recipe names exist. In each entry the spawn
  -- metadata is consistent, parameters and witnesses have the recipes they name, the route plan exposes
  -- only recipes of the parameters, and routes name receipts of their actors.
  pub check_consistency-IsConsistent :
      check_consistency S P D plan artifact ≡ ok tt → IsConsistent S P D plan artifact
  unfolding check_consistency
  check_consistency-IsConsistent h =
      let first = bind_ok _ _ tt h in
      let second = bind_ok _ _ tt first.2 in
      let third = bind_ok _ _ tt second.2 in
      let fourth = bind_ok _ _ tt third.2 in
      let handled = bind_ok _ _ tt fourth.2 in
      let (receipt_ids', receipts', receipt_map, refs', used) =
        check_templates-Receipts S P L D plan artifact first.0 first.1 in
      let (family_ids', families', family_map, contracts', sourced') =
        check_families-Families S P L D plan artifact second.0 second.1 in
      let (table_ids', tables', table_map, bound', of_field') =
        check_tables-Tables S P L D plan artifact first.0 second.0 third.0 family_map third.1 in
      let (proof_map, proof_ids', proved', family_tables', verified') =
        check_proofs-Proofs S P L D plan artifact first.0 third.0 fourth.0 receipt_map table_map
          fourth.1 in
      let (recipe_ids', recipes', entries') =
        check_recipes-IsEntry S P L D plan artifact first.0 second.0 fourth.0 receipt_map family_map
          proof_map handled.2 in
      record {
        receipt_ids_distinct = receipt_ids';
        receipts = receipts';
        refs = λ r i.
            let (t, found, actors, symbols) =
              All_at (Referred first.0) artifact.argent.templates refs' i in
            (t, receipt_map r.id t found, actors, symbols);
        referenced =
            λ t i. All_at (λ t. In t.id (ref_ids artifact.argent.templates)) plan.templates used i;
        family_ids_distinct = family_ids';
        families = families';
        table_ids_distinct = table_ids';
        tables = λ table i.
            let shape = All_at (IsTable first.0 second.0 third.0) plan.route_tables tables' i in
            (
              shape.0,
              IsTable-Entry plan first.0 second.0 third.0 receipt_map family_map table_map table
                  shape,
            );
        contracts_distinct = contracts';
        sourced = λ runtime_state i.
            let (owned, names) =
              All_at (IsSourced (actor_states artifact.argent.actors)) plan.runtime_states sourced'
                i in
            (
              actor_states-Owns artifact.argent.actors runtime_state.contract runtime_state.source
                  owned,
              names,
            );
        bound = bound';
        of_field = λ table i. All_at (λ table. OfField plan table.id) plan.route_tables of_field' i;
        proof_ids_distinct = proof_ids';
        proved = λ table i. All_at _ plan.route_tables proved' i;
        verified = λ proof i. All_at _ plan.route_proofs verified' i;
        family_tables = λ family i.
            let (table, found, is_table) = All_at _ plan.route_families family_tables' i in
            let (same, member) = table_map family.table_id table found in
            (table, same, member, is_table);
        handles = λ t i. check_handle-IsHandled S P L D plan artifact t (
            All_at (λ t. check_handle S P D plan artifact t ≡ ok tt) plan.templates
              (each-All (check_handle S P D plan artifact)
                (λ t. check_handle S P D plan artifact t ≡ ok tt) plan.templates (λ t e. e)
                handled.1)
              i);
        recipe_ids_distinct = recipe_ids';
        recipes = recipes';
        entries = entries';
      }
