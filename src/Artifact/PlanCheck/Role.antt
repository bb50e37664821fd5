-- ===== src/Artifact/PlanCheck/Role.antt =====
-- `check_consistency`: what the check of a field role ensures.
use argent.Base.{
  ◌*◌, ◌≡◌, refl, ap, ◌∙◌, ◌⊎◌, inl, inr, true, some, List, [], ◌∷◌, length, map, All, In, arith,
  Text, ok, ==_iff, ◌↔◌, Bool-cases, Option-cases,
}
use argent.Collections.Order.{eqb, eqb_iff, bytes_ord}
use argent.Collections.BTreeSet
use argent.Collections.BTreeSet.{contains, contains-insert}
use argent.Collections.BTreeMap.{get}
use argent.Artifact.Sil.{SilAbi, SilPlan, SilPlanLaws}
use argent.Artifact.Schema.Plan.{
  TemplatePlanArtifact, RuntimeStatePlanArtifact, RuntimeFieldRolePlanArtifact,
  RuntimeFieldRoleArtifact, template, template_table, template_digest, template_root,
  RuntimeRouteLeafArtifact, contract, digest, RouteTemplateTableArtifact,
  RouteTemplateFamilyArtifact,
}
use argent.Artifact.PlanCheck.Families.{FamiliesById, sil_fields_by_name}
use argent.Artifact.PlanCheck.Tables.{TablesById}
use argent.Artifact.PlanCheck.Bindings.{
  route_template_table_receipt_id, runtime_leaf_eqb, runtime_leaves_eqb, table_leaves, bind_table,
  bind_role,
}
use argent.Artifact.PlanCheck.Indexed.{Kept}

runtime_leaf_eqb_iff : (l m : RuntimeRouteLeafArtifact) → (runtime_leaf_eqb l m ≡ true) ↔ (l ≡ m)
runtime_leaf_eqb_iff (contract a) (contract b) = ground (arith, eqb_iff a b)
runtime_leaf_eqb_iff (contract a) (digest b) = (λ h. cc, λ h. cc)
runtime_leaf_eqb_iff (digest a) (contract b) = (λ h. cc, λ h. cc)
runtime_leaf_eqb_iff (digest a) (digest b) = ground (arith, eqb_iff a b)

runtime_leaves_eqb_iff :
    (ls ms : List RuntimeRouteLeafArtifact) → (runtime_leaves_eqb ls ms ≡ true) ↔ (ls ≡ ms)
runtime_leaves_eqb_iff [] [] = (λ h. refl, λ h. refl)
runtime_leaves_eqb_iff [] (m ∷ ms) = (λ h. cc, λ h. cc)
runtime_leaves_eqb_iff (l ∷ ls) [] = (λ h. cc, λ h. cc)
runtime_leaves_eqb_iff (l ∷ ls) (m ∷ ms) =
    ground (arith, runtime_leaf_eqb_iff l m, runtime_leaves_eqb_iff ls ms)

-- The role has a route table.
abbrev pub HasTable : RuntimeFieldRoleArtifact → Type 0
HasTable (template c) = ⊥
HasTable (template_table contracts) = Unit
HasTable (template_digest id) = ⊥
HasTable (template_root leaves) = Unit

-- The id is that of the table of the field.
abbrev pub IsFieldTable : RuntimeStatePlanArtifact → RuntimeFieldRolePlanArtifact → Text → Type 0
IsFieldTable runtime_state field id =
    HasTable field.role × (id ≡ route_template_table_receipt_id runtime_state.source field.name)

-- Every new member satisfies the predicate.
abbrev pub Grown : (Text → Type 0) → List Text → List Text → Type 0
Grown Q before after = (id : Text) → contains id after ≡ true → (contains id before ≡ true) ⊎ Q id

module _ (S : SilAbi) (P : SilPlan S) (plan : TemplatePlanArtifact) where
  -- The table of the field has these leaves, and the field this type.
  abbrev pub IsTableBound :
      RuntimeStatePlanArtifact
      → Text
      → S.TypeArtifact
      → List RuntimeRouteLeafArtifact
      → S.TypeArtifact
      → Type 0
  IsTableBound runtime_state field sil_type leaves expected_type =
      (table : RouteTemplateTableArtifact) × In table plan.route_tables
      × (table.id ≡ route_template_table_receipt_id runtime_state.source field)
      × (table.state ≡ runtime_state.source)
      × (table.field ≡ field)
      × (table_leaves table.entries ≡ leaves)
      × (table.byte_len ≡ length leaves * 32)
      × (sil_type ≡ expected_type)

  abbrev pub IsRoleBound :
      RuntimeStatePlanArtifact → Text → S.TypeArtifact → RuntimeFieldRoleArtifact → Type 0
  IsRoleBound runtime_state field sil_type (template c) = sil_type ≡ P.fixed_bytes 32
  IsRoleBound runtime_state field sil_type (template_table contracts) =
      IsTableBound runtime_state field sil_type (map contract contracts)
        (P.fixed_bytes (length contracts * 32))
  IsRoleBound runtime_state field sil_type (template_digest id) =
      (family : RouteTemplateFamilyArtifact) × ((family.id ≡ id) × In family plan.route_families)
      × (sil_type ≡ P.fixed_bytes 32)
  IsRoleBound runtime_state field sil_type (template_root leaves) =
      IsTableBound runtime_state field sil_type leaves (P.fixed_bytes 32)

  abbrev pub IsFieldBound :
      RuntimeStatePlanArtifact
      → List (Text × S.TypeArtifact)
      → RuntimeFieldRolePlanArtifact
      → Type 0
  IsFieldBound runtime_state fields field =
      (sil_type : S.TypeArtifact) × (get field.name fields ≡ some sil_type)
      × IsRoleBound runtime_state field.name sil_type field.role

  -- Each field with a role is a field of the compiled contract, of the type of its role.
  abbrev pub IsStateBound : S.SilAbiArtifact → RuntimeStatePlanArtifact → Type 0
  IsStateBound abi runtime_state =
      (c : S.SilContractArtifact) × (P.contracts_get abi runtime_state.contract ≡ some c)
      × All (IsFieldBound runtime_state (sil_fields_by_name S P abi c)) runtime_state.field_roles

module _ (S : SilAbi) (P : SilPlan S) (L : SilPlanLaws S P) (plan : TemplatePlanArtifact)
    (abi : S.SilAbiArtifact) (families_by_id : FamiliesById) (tables_by_id : TablesById)
    (families : Kept (λ id f. (f.id ≡ id) × In f plan.route_families) families_by_id)
    (tables : Kept (λ id t. (t.id ≡ id) × In t plan.route_tables) tables_by_id) where
  bind_table-IsTableBound :
      (runtime_state : RuntimeStatePlanArtifact) (field : Text) (sil_type : S.TypeArtifact)
      (leaves : List RuntimeRouteLeafArtifact) (expected_type : S.TypeArtifact)
      (referenced out : List Text)
      → bind_table S P abi families_by_id tables_by_id runtime_state field sil_type leaves
          expected_type referenced
        ≡ ok out
      → IsTableBound S P plan runtime_state field sil_type leaves expected_type
        × Grown
            (λ id. id ≡ route_template_table_receipt_id runtime_state.source field)
            referenced
            out
  unfolding bind_table
  bind_table-IsTableBound runtime_state field sil_type leaves expected_type referenced out h =
      elim (Option-cases
        (get (route_template_table_receipt_id runtime_state.source field) tables_by_id)) [
          | inl gone ↦ absurd (ground arith)
          | inr (table, found) ↦
              let (id, member) =
                tables (route_template_table_receipt_id runtime_state.source field) table found in
              let grown : BTreeSet.insert table.id referenced ≡ out = ground arith in
              (
                (
                  table,
                  member,
                  id,
                  ground (arith, eqb_iff table.state runtime_state.source),
                  ground (arith, eqb_iff table.field field),
                  ground (arith, runtime_leaves_eqb_iff (table_leaves table.entries) leaves),
                  ground (arith, ==_iff table.byte_len (length leaves * 32)),
                  ground (arith, L.type_eqb_iff sil_type expected_type),
                ),
                λ other e. elim (Bool-cases (eqb other table.id)) [
                  | inl same ↦ inr ((eqb_iff other table.id).0 same ∙ id)
                  | inr new ↦ inl (ground (arith, contains-insert other table.id referenced))
                ],
              )
        ]

  pub bind_role-IsRoleBound :
      (runtime_state : RuntimeStatePlanArtifact) (field : Text) (sil_type : S.TypeArtifact)
      (role : RuntimeFieldRoleArtifact) (referenced out : List Text)
      → bind_role S P abi families_by_id tables_by_id runtime_state field sil_type role referenced
        ≡ ok out
      → IsRoleBound S P plan runtime_state field sil_type role
        × Grown
            (λ id.
              HasTable role × (id ≡ route_template_table_receipt_id runtime_state.source field))
            referenced
            out
  unfolding bind_role
  bind_role-IsRoleBound runtime_state field sil_type (template c) referenced out h =
      let same : referenced ≡ out = ground arith in
      (
        ground (arith, L.type_eqb_iff sil_type (P.fixed_bytes 32)),
        λ id e. inl (ap (contains id) same ∙ e),
      )
  bind_role-IsRoleBound runtime_state field sil_type (template_table contracts) referenced out h =
      let (bound, grown) =
        bind_table-IsTableBound runtime_state field sil_type (map contract contracts)
          (P.fixed_bytes (length contracts * 32)) referenced out h in
      (bound, λ id e. elim (grown id e) [ inl old ↦ inl old | inr new ↦ inr (tt, new) ])
  bind_role-IsRoleBound runtime_state field sil_type (template_digest family_id) referenced out h =
      elim (Option-cases (get family_id families_by_id)) [
        | inl gone ↦ absurd (ground arith)
        | inr (family, found) ↦
            let same : referenced ≡ out = ground arith in
            (
              (
                family,
                families family_id family found,
                ground (arith, L.type_eqb_iff sil_type (P.fixed_bytes 32)),
              ),
              λ id e. inl (ap (contains id) same ∙ e),
            )
      ]
  bind_role-IsRoleBound runtime_state field sil_type (template_root leaves) referenced out h =
      let (bound, grown) =
        bind_table-IsTableBound runtime_state field sil_type leaves (P.fixed_bytes 32) referenced
          out h in
      (bound, λ id e. elim (grown id e) [ inl old ↦ inl old | inr new ↦ inr (tt, new) ])
