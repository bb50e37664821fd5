-- ===== src/Artifact/PlanCheck/Families.antt =====
-- `check_consistency`: the route families, and the runtime states with their field roles.
use argent.Base.{
  not, ltb, none, some, List, [], ◌∷◌, length, if◌then◌else◌, Text, Result, ok, err, ◌>>=◌, Done,
  each,
}
use argent.Collections.Order.{eqb, bytes_ord}
use argent.Collections.BTreeSet
use argent.Collections.BTreeSet.{contains, from_list}
use argent.Collections.BTreeMap
use argent.Collections.BTreeMap.{get, contains_key}
use argent.Artifact.Sil.{SilAbi, SilPlan}
use argent.Artifact.Schema.{ActorArtifact}
use argent.Artifact.Schema.Plan.{
  RouteTemplateFamilyArtifact, RuntimeStatePlanArtifact, RuntimeFieldRolePlanArtifact,
}
use argent.Artifact.PlanError.{
  TemplatePlanError, duplicate_route_family_id, route_family_too_small,
  duplicate_route_family_actor, route_family_representative_outside_family,
  duplicate_route_family_entry_actor, missing_route_family_entry_actor, missing_route_family_actor,
  route_family_state_mismatch, duplicate_runtime_state_plan, unknown_contract,
  runtime_state_plan_mismatch, no_actor, other_source, duplicated_role, unknown_role,
}

-- `collect::<BTreeMap<_, _>>()`: a later entry of a key replaces the earlier one.
abbrev pub collect_map : {V : Type 0} → List (Text × V) → List (Text × V) → List (Text × V)
collect_map m [] = m
collect_map m ((k, v) ∷ rest) = collect_map (BTreeMap.insert k v m) rest

abbrev pub name_states : {T : Type 0} → List (ActorArtifact T) → List (Text × Text)
name_states [] = []
name_states (a ∷ rest) = (a.name, a.state) ∷ name_states rest

abbrev pub actor_states : {T : Type 0} → List (ActorArtifact T) → List (Text × Text)
actor_states actors = collect_map [] (name_states actors)

abbrev pub FamiliesById : Type 0
FamiliesById = List (Text × RouteTemplateFamilyArtifact)

-- The loop over the actors of a family, with the set `family_actors`.
unfoldable pub check_family_actors :
    Text → List Text → List Text → Result (List Text) TemplatePlanError
check_family_actors id actors [] = ok actors
check_family_actors id actors (actor ∷ rest) =
    if contains actor actors
    then err (duplicate_route_family_actor id actor)
    else check_family_actors id (BTreeSet.insert actor actors) rest

-- The loop over the entry actors, with the set `entry_actors`.
unfoldable pub check_entry_actors :
    Text → List Text → List Text → List Text → Result Done TemplatePlanError
check_entry_actors id actors entries [] = ok tt
check_entry_actors id actors entries (actor ∷ rest) =
    if contains actor entries
    then err (duplicate_route_family_entry_actor id actor)
    else if not (contains actor actors)
    then err (missing_route_family_entry_actor id actor)
    else check_entry_actors id actors (BTreeSet.insert actor entries) rest

-- The body of the loop over the states of a family's actors.
unfoldable pub check_actor_state :
    List (Text × Text) → RouteTemplateFamilyArtifact → Text → Result Done TemplatePlanError
check_actor_state states family actor = elim (get actor states) [
  | none ↦ err (missing_route_family_actor family.id actor)
  | some found ↦
      if not (eqb found family.state)
      then err (route_family_state_mismatch family.id actor family.state found)
      else ok tt
]

unfoldable pub check_family :
    List (Text × Text) → RouteTemplateFamilyArtifact → Result Done TemplatePlanError
unfolding check_family_actors check_entry_actors check_actor_state
check_family states family =
    if ltb (length family.actors) 2
    then err (route_family_too_small family.id)
    else check_family_actors family.id [] family.actors >>= λ actors.
        if not (contains family.representative_actor actors)
        then err (route_family_representative_outside_family family.id family.representative_actor)
        else check_entry_actors family.id actors [] family.entry_actors >>= λ u.
            each (check_actor_state states family) family.actors

unfoldable pub index_families :
    List (Text × Text)
    → List Text
    → FamiliesById
    → List RouteTemplateFamilyArtifact
    → Result FamiliesById TemplatePlanError
unfolding check_family
index_families states ids by_id [] = ok by_id
index_families states ids by_id (family ∷ rest) =
    if contains family.id ids
    then err (duplicate_route_family_id family.id)
    else check_family states family >>= λ u.
        index_families states (BTreeSet.insert family.id ids)
          (BTreeMap.insert family.id family by_id) rest

module _ (S : SilAbi) (P : SilPlan S) (abi : S.SilAbiArtifact) where
  -- `sil_fields_by_name`.
  abbrev pub sil_fields_by_name : S.SilContractArtifact → List (Text × S.TypeArtifact)
  sil_fields_by_name contract = collect_map [] (P.runtime_fields contract)

  -- The loop over the field roles, with the set `field_role_names`.
  unfoldable pub check_field_roles :
      Text
      → List (Text × S.TypeArtifact)
      → List Text
      → List RuntimeFieldRolePlanArtifact
      → Result Done TemplatePlanError
  check_field_roles contract fields names [] = ok tt
  check_field_roles contract fields names (field ∷ rest) =
      if contains field.name names
      then err (runtime_state_plan_mismatch contract (duplicated_role field.name))
      else if not (contains_key field.name fields)
      then err (runtime_state_plan_mismatch contract (unknown_role field.name))
      else check_field_roles contract fields (BTreeSet.insert field.name names) rest

  unfoldable pub check_runtime_state :
      List (Text × Text) → RuntimeStatePlanArtifact → Result Done TemplatePlanError
  unfolding check_field_roles
  check_runtime_state states runtime_state = elim (P.contracts_get abi runtime_state.contract) [
    | none ↦ err (unknown_contract runtime_state.contract)
    | some contract ↦ elim (get runtime_state.contract states) [
      | none ↦ err (runtime_state_plan_mismatch runtime_state.contract no_actor)
      | some actor_state ↦
          if not (eqb runtime_state.source actor_state)
          then err (
              runtime_state_plan_mismatch runtime_state.contract
                (other_source runtime_state.source actor_state))
          else check_field_roles runtime_state.contract (sil_fields_by_name contract) []
              runtime_state.field_roles
    ]
  ]

  -- The loop over the runtime states, with the keys of `runtime_states_by_contract`.
  unfoldable pub check_runtime_states :
      List (Text × Text) → List Text → List RuntimeStatePlanArtifact → Result Done TemplatePlanError
  unfolding check_runtime_state
  check_runtime_states states contracts [] = ok tt
  check_runtime_states states contracts (runtime_state ∷ rest) =
      if contains runtime_state.contract contracts
      then err (duplicate_runtime_state_plan runtime_state.contract)
      else check_runtime_state states runtime_state >>= λ u.
          check_runtime_states states (BTreeSet.insert runtime_state.contract contracts) rest
