-- ===== src/Artifact/PlanCheck/Bound.antt =====
-- `check_consistency`: what the checks of the runtime states and their fields ensure.
use argent.Base.{
  ◌≡◌, refl, sym, ap, ◌∙◌, inl, inr, some, List, [], ◌∷◌, All, In, arith, Text, ok, bind_ok,
  Bool-cases, Option-cases, ◌≢◌,
}
use argent.Collections.Order.{eqb, eqb_iff, bytes_ord}
use argent.Collections.BTreeSet
use argent.Collections.BTreeSet.{contains, contains-insert}
use argent.Collections.BTreeMap.{get}
use argent.Artifact.Sil.{SilAbi, SilPlan, SilPlanLaws}
use argent.Artifact.Schema.Plan.{
  TemplatePlanArtifact, RuntimeStatePlanArtifact, RuntimeFieldRolePlanArtifact,
}
use argent.Artifact.PlanCheck.Families.{
  FamiliesById, sil_fields_by_name, check_field_roles, check_runtime_state, check_runtime_states,
}
use argent.Artifact.PlanCheck.Tables.{TablesById}
use argent.Artifact.PlanCheck.Bindings.{bind_fields, bind_states}
use argent.Artifact.PlanCheck.Indexed.{Kept, Fresh, Fresh-Pairwise}
use argent.Artifact.PlanCheck.Outcomes.{present_ok}
use argent.Artifact.PlanCheck.Role.{
  IsFieldTable, Grown, IsFieldBound, IsStateBound, bind_role-IsRoleBound,
}
use argent.Collections.Slices.{Pairwise}

module _ (S : SilAbi) (P : SilPlan S) (L : SilPlanLaws S P) (plan : TemplatePlanArtifact)
    (abi : S.SilAbiArtifact) (families_by_id : FamiliesById) (tables_by_id : TablesById)
    (families : Kept (λ id f. (f.id ≡ id) × In f plan.route_families) families_by_id)
    (tables : Kept (λ id t. (t.id ≡ id) × In t plan.route_tables) tables_by_id) where
  bind_fields-IsFieldBound :
      (runtime_state : RuntimeStatePlanArtifact) (fields : List (Text × S.TypeArtifact))
      (roles : List RuntimeFieldRolePlanArtifact) (referenced out : List Text)
      → bind_fields S P abi families_by_id tables_by_id runtime_state fields roles referenced
        ≡ ok out
      → All (IsFieldBound S P plan runtime_state fields) roles
        × Grown
            (λ id.
              (field : RuntimeFieldRolePlanArtifact) × In field roles
              × IsFieldTable runtime_state field id)
            referenced
            out
  unfolding bind_fields
  bind_fields-IsFieldBound runtime_state fields [] referenced out h =
      let same : referenced ≡ out = cc in (tt, λ id e. inl (ap (contains id) same ∙ e))
  bind_fields-IsFieldBound runtime_state fields (field ∷ rest) referenced out h =
      let (sil_type, found, h') = bind_ok _ _ out h in
      let (next, bound, h'') = bind_ok _ _ out h' in
      let (role, grown) =
        bind_role-IsRoleBound S P L plan abi families_by_id tables_by_id families tables
          runtime_state field.name sil_type field.role referenced next bound in
      let (all, later) = bind_fields-IsFieldBound runtime_state fields rest next out h'' in
      (
        ((sil_type, present_ok _ sil_type found, role), all),
        λ id e. elim (later id e) [
          | inl old ↦ elim (grown id old) [
            | inl older ↦ inl older
            | inr new ↦ inr (field, inl refl, new)
          ]
          | inr (f, i, is) ↦ inr (f, inr i, is)
        ],
      )

  -- The bindings of the runtime states, and the table ids that the loop has referenced.
  pub bind_states-IsStateBound :
      (states : List RuntimeStatePlanArtifact) (referenced out : List Text)
      → bind_states S P abi families_by_id tables_by_id states referenced ≡ ok out
      → All (IsStateBound S P plan abi) states
        × Grown
            (λ id.
              (runtime_state : RuntimeStatePlanArtifact) × In runtime_state states
              × (field : RuntimeFieldRolePlanArtifact) × In field runtime_state.field_roles
              × IsFieldTable runtime_state field id)
            referenced
            out
  unfolding bind_states
  bind_states-IsStateBound [] referenced out h =
      let same : referenced ≡ out = cc in (tt, λ id e. inl (ap (contains id) same ∙ e))
  bind_states-IsStateBound (runtime_state ∷ rest) referenced out h =
      let (c, found, h') = bind_ok _ _ out h in
      let (next, bound, h'') = bind_ok _ _ out h' in
      let (fields, grown) =
        bind_fields-IsFieldBound runtime_state (sil_fields_by_name S P abi c)
          runtime_state.field_roles referenced next bound in
      let (all, later) = bind_states-IsStateBound rest next out h'' in
      (
        ((c, present_ok _ c found, fields), all),
        λ id e. elim (later id e) [
          | inl old ↦ elim (grown id old) [
            | inl older ↦ inl older
            | inr new ↦ inr (runtime_state, inl refl, new.0, new.1, new.2)
          ]
          | inr (s, i, f, j, is) ↦ inr (s, inr i, f, j, is)
        ],
      )

-- The id is that of the table of a field of a runtime state.
abbrev pub OfField : TemplatePlanArtifact → Text → Type 0
OfField plan id =
    (runtime_state : RuntimeStatePlanArtifact) × In runtime_state plan.runtime_states
    × (field : RuntimeFieldRolePlanArtifact) × In field runtime_state.field_roles
    × IsFieldTable runtime_state field id

abbrev pub role_names_of : List RuntimeFieldRolePlanArtifact → List Text
role_names_of [] = []
role_names_of (field ∷ rest) = field.name ∷ role_names_of rest

abbrev pub state_contracts : List RuntimeStatePlanArtifact → List Text
state_contracts [] = []
state_contracts (runtime_state ∷ rest) = runtime_state.contract ∷ state_contracts rest

-- The source of the state is the state of its contract in the map, and no field has two roles.
abbrev pub IsSourced : List (Text × Text) → RuntimeStatePlanArtifact → Type 0
IsSourced states runtime_state =
    (get runtime_state.contract states ≡ some runtime_state.source)
    × Pairwise ◌≢◌ (role_names_of runtime_state.field_roles)

module _ (S : SilAbi) (P : SilPlan S) (abi : S.SilAbiArtifact) where
  check_field_roles-Fresh :
      (contract : Text) (fields : List (Text × S.TypeArtifact)) (names : List Text)
      (roles : List RuntimeFieldRolePlanArtifact)
      → check_field_roles S P abi contract fields names roles ≡ ok tt
      → Fresh names (role_names_of roles)
  unfolding check_field_roles
  check_field_roles-Fresh contract fields names [] h = tt
  check_field_roles-Fresh contract fields names (field ∷ rest) h =
      elim (Bool-cases (contains field.name names)) [
        | inl e ↦ absurd (ground arith)
        | inr fresh ↦ (
          fresh,
          check_field_roles-Fresh contract fields (BTreeSet.insert field.name names) rest
              (ground arith),
        )
      ]

  check_runtime_state-IsSourced :
      (states : List (Text × Text)) (runtime_state : RuntimeStatePlanArtifact)
      → check_runtime_state S P abi states runtime_state ≡ ok tt
      → IsSourced states runtime_state
  unfolding check_runtime_state
  check_runtime_state-IsSourced states runtime_state h =
      elim (Option-cases (P.contracts_get abi runtime_state.contract)) [
        | inl gone ↦ absurd (ground arith)
        | inr (c, found) ↦ elim (Option-cases (get runtime_state.contract states)) [
          | inl gone ↦ absurd (ground arith)
          | inr (state, owned) ↦ elim (Bool-cases (eqb runtime_state.source state)) [
            | inr other ↦ absurd (ground arith)
            | inl same ↦ (
              owned ∙ ap some (sym ((eqb_iff runtime_state.source state).0 same)),
              Fresh-Pairwise [] (role_names_of runtime_state.field_roles) (
                  check_field_roles-Fresh runtime_state.contract (sil_fields_by_name S P abi c) []
                    runtime_state.field_roles (ground arith)),
            )
          ]
        ]
      ]

  pub check_runtime_states-IsSourced :
      (states : List (Text × Text)) (contracts : List Text)
      (runtime_states : List RuntimeStatePlanArtifact)
      → check_runtime_states S P abi states contracts runtime_states ≡ ok tt
      → Fresh contracts (state_contracts runtime_states) × All (IsSourced states) runtime_states
  unfolding check_runtime_states
  check_runtime_states-IsSourced states contracts [] h = (tt, tt)
  check_runtime_states-IsSourced states contracts (runtime_state ∷ rest) h =
      elim (Bool-cases (contains runtime_state.contract contracts)) [
        | inl e ↦ absurd (ground arith)
        | inr fresh ↦
            let step =
              bind_ok (check_runtime_state S P abi states runtime_state) _ tt (rw fresh at h) in
            let (new, all) =
              check_runtime_states-IsSourced states
                (BTreeSet.insert runtime_state.contract contracts) rest step.2 in
            ((fresh, new), (check_runtime_state-IsSourced states runtime_state step.1, all))
      ]
