-- ===== src/Artifact/PlanCheck/Members.antt =====
-- `check_consistency`: what the checks of a route family ensure of its actors.
use argent.Base.{
  each, ◌&&◌, not, Bool, ap, select, All-map, ◌≤◌, ◌≡◌, ◌≢◌, ◌⊎◌, refl, inl, inr, true, ltb, some,
  List, [], ◌∷◌, length, All, In, arith, Text, ok, bind_ok, each-All, Bool-cases, Option-cases,
}
use argent.Collections.Order.{eqb, eqb_iff, bytes_ord}
use argent.Collections.BTreeSet
use argent.Collections.BTreeSet.{contains, contains-insert, contains-extend, from_list}
use argent.Collections.BTreeMap
use argent.Collections.BTreeMap.{get}
use argent.Collections.Slices.{Pairwise}
use argent.Artifact.Schema.{ActorArtifact}
use argent.Artifact.Schema.Plan.{RouteTemplateFamilyArtifact, RouteTemplateTableArtifact}
use argent.Artifact.PlanCheck.Families.{
  collect_map, name_states, actor_states, check_family_actors, check_entry_actors,
  check_actor_state, check_family,
}
use argent.Artifact.PlanCheck.Tables.{TablesById}
use argent.Artifact.PlanCheck.Proofs.{table_actors, texts_eqb, check_unnested, check_family_table}
use argent.Artifact.PlanCheck.Outcomes.{texts_eqb_iff}
use argent.Artifact.PlanCheck.Indexed.{Kept, insert-Kept, Fresh, Fresh-Pairwise}

collect_map-Kept :
    {V : Type 0} (Q : Text → V → Type 0) (m entries : List (Text × V))
    → Kept Q m
    → All (λ e. Q e.0 e.1) entries
    → Kept Q (collect_map m entries)
collect_map-Kept Q m [] kept all = kept
collect_map-Kept Q m ((k, v) ∷ rest) kept all =
    collect_map-Kept Q (BTreeMap.insert k v m) rest (insert-Kept Q m k v kept all.0) all.1

-- An actor of this name owns this state.
abbrev pub Owns : {T : Type 0} → List (ActorArtifact T) → Text → Text → Type 0
Owns {T} actors name state =
    (actor : ActorArtifact T) × In actor actors × (actor.name ≡ name) × (actor.state ≡ state)

Owns-later :
    {T : Type 0} (actor : ActorArtifact T) (actors : List (ActorArtifact T))
    (entries : List (Text × Text))
    → All (λ e. Owns actors e.0 e.1) entries
    → All (λ e. Owns (actor ∷ actors) e.0 e.1) entries
Owns-later actor actors [] all = tt
Owns-later actor actors (e ∷ es) all =
    ((all.0.0, inr all.0.1, all.0.2, all.0.3), Owns-later actor actors es all.1)

name_states-Owns :
    {T : Type 0} (actors : List (ActorArtifact T))
    → All (λ e. Owns actors e.0 e.1) (name_states actors)
name_states-Owns [] = tt
name_states-Owns (a ∷ rest) =
    ((a, inl refl, refl, refl), Owns-later a rest (name_states rest) (name_states-Owns rest))

pub actor_states-Owns :
    {T : Type 0} (actors : List (ActorArtifact T)) (name state : Text)
    → get name (actor_states actors) ≡ some state
    → Owns actors name state
actor_states-Owns actors name state =
    collect_map-Kept (Owns actors) [] (name_states actors) (λ k v e. cc) (name_states-Owns actors)
      name state

check_family_actors_lem :
    (id : Text) (seen xs out : List Text)
    → check_family_actors id seen xs ≡ ok out
    → Fresh seen xs × ((a : Text) → contains a out ≡ true → (contains a seen ≡ true) ⊎ In a xs)
unfolding check_family_actors
check_family_actors_lem id seen [] out h =
    let same : seen ≡ out = cc in (tt, λ a k. inl (rw same k))
check_family_actors_lem id seen (x ∷ xs) out h = elim (Bool-cases (contains x seen)) [
  | inl e ↦ absurd (ground arith)
  | inr fresh ↦
      let rest = check_family_actors_lem id (BTreeSet.insert x seen) xs out (rw fresh at h) in
      (
        (fresh, rest.0),
        λ a k. elim (rest.1 a k) [
          | inl here ↦ elim (Bool-cases (eqb a x)) [
            | inl same ↦ inr (inl ((eqb_iff a x).0 same))
            | inr other ↦ inl (ground (arith, contains-insert a x seen))
          ]
          | inr later ↦ inr (inr later)
        ],
      )
]

check_entry_actors_lem :
    (id : Text) (actors seen xs : List Text)
    → check_entry_actors id actors seen xs ≡ ok tt
    → Fresh seen xs × All (λ a. contains a actors ≡ true) xs
unfolding check_entry_actors
check_entry_actors_lem id actors seen [] h = (tt, tt)
check_entry_actors_lem id actors seen (x ∷ xs) h = elim (Bool-cases (contains x seen)) [
  | inl e ↦ absurd (ground arith)
  | inr fresh ↦ elim (Bool-cases (contains x actors)) [
    | inl member ↦
        let rest =
          check_entry_actors_lem id actors (BTreeSet.insert x seen) xs (rw (fresh, member) at h) in
        ((fresh, rest.0), (member, rest.1))
    | inr e ↦ absurd (ground arith)
  ]
]

-- The family has at least two actors, all different, its representative and entry actors are among
-- them, and each owns its state.
pub record IsFamily {T : Type 0} (actors : List (ActorArtifact T))
    (family : RouteTemplateFamilyArtifact) : Type 0 where
  pub plural : 2 ≤ length family.actors
  pub distinct : Pairwise ◌≢◌ family.actors
  pub representative : In family.representative_actor family.actors
  pub entry_distinct : Pairwise ◌≢◌ family.entry_actors
  pub entry_members : All (λ a. In a family.actors) family.entry_actors
  pub owners : All (λ a. Owns actors a family.state) family.actors

pub check_actor_state-Owns :
    {T : Type 0} (actors : List (ActorArtifact T)) (family : RouteTemplateFamilyArtifact) (a : Text)
    → check_actor_state (actor_states actors) family a ≡ ok tt
    → Owns actors a family.state
unfolding check_actor_state
check_actor_state-Owns actors family a h =
    let states = actor_states actors in
    elim (Option-cases (get a states)) [
      | inl e ↦ absurd (ground arith)
      | inr (found, e) ↦
          let same : found ≡ family.state = ground (arith, eqb_iff found family.state) in
          actor_states-Owns actors a family.state (rw same at e)
    ]

pub check_family-IsFamily :
    {T : Type 0} (actors : List (ActorArtifact T)) (family : RouteTemplateFamilyArtifact)
    → check_family (actor_states actors) family ≡ ok tt
    → IsFamily actors family
unfolding check_family
check_family-IsFamily actors family h =
    let states = actor_states actors in
    elim (Bool-cases (ltb (length family.actors) 2)) [
      | inl e ↦ absurd (ground arith)
      | inr many ↦
          let seen = bind_ok (check_family_actors family.id [] family.actors) _ tt (rw many at h) in
          let known = check_family_actors_lem family.id [] family.actors seen.0 seen.1 in
          let member : (a : Text) → contains a seen.0 ≡ true → In a family.actors =
            λ a k. elim (known.1 a k) [ inl e ↦ absurd cc | inr i ↦ i ] in
          elim (Bool-cases (contains family.representative_actor seen.0)) [
            | inl rep ↦
                let step =
                  bind_ok (check_entry_actors family.id seen.0 [] family.entry_actors) _ tt
                    (rw rep at seen.2) in
                let entries =
                  check_entry_actors_lem family.id seen.0 [] family.entry_actors step.1 in
                record {
                  plural = ground arith;
                  distinct = Fresh-Pairwise [] family.actors known.0;
                  representative = member family.representative_actor rep;
                  entry_distinct = Fresh-Pairwise [] family.entry_actors entries.0;
                  entry_members = All-map _ _ family.entry_actors member entries.1;
                  owners =
                      each-All (check_actor_state states family) (λ a. Owns actors a family.state)
                        family.actors (check_actor_state-Owns actors family) step.2;
                }
            | inr e ↦ absurd (ground arith)
          ]
    ]

-- The actors of the table are, without repetition, those of the family that are no entry actors.
abbrev pub IsFamilyTable : RouteTemplateFamilyArtifact → RouteTemplateTableArtifact → Type 0
IsFamilyTable family table =
    (table.state ≡ family.state)
    × ((a : Text)
        → contains a (table_actors table.entries)
          ≡ (contains a family.actors && not (contains a family.entry_actors)))

contains-select :
    (p : Text → Bool) (a : Text) (xs : List Text)
    → contains a (select p xs) ≡ (contains a xs && p a)
contains-select p a [] = refl
contains-select p a (x ∷ xs) = elim (Bool-cases (eqb a x)) [
  | inl same ↦ rw ((eqb_iff a x).0 same) (ground (arith, contains-select p x xs, eqb_iff x x))
  | inr other ↦ ground (arith, contains-select p a xs)
]

pub check_family_table-IsFamilyTable :
    (tables : TablesById) (family : RouteTemplateFamilyArtifact)
    → check_family_table tables family ≡ ok tt
    → (table : RouteTemplateTableArtifact) × (get family.table_id tables ≡ some table)
      × IsFamilyTable family table
unfolding check_family_table
check_family_table-IsFamilyTable tables family h =
    elim (Option-cases (get family.table_id tables)) [
      | inl e ↦ absurd (ground arith)
      | inr (table, found) ↦
          let actors = table_actors table.entries in
          let others : Text → Bool =
            λ actor. not (contains actor (from_list family.entry_actors)) in
          let expected = select others family.actors in
          let rest =
            bind_ok (each (check_unnested family) table.entries) _ tt
              (rw (check_family_table, found) at h) in
          let state : eqb table.state family.state ≡ true = ground arith in
          let sets : texts_eqb (from_list actors) (from_list expected) ≡ true = ground arith in
          let same = (texts_eqb_iff (from_list actors) (from_list expected)).0 sets in
          (
            table,
            found,
            (
              (eqb_iff table.state family.state).0 state,
              λ a. ground (
                arith,
                contains-extend a [] actors,
                contains-extend a [] expected,
                contains-select others a family.actors,
                contains-extend a [] family.entry_actors,
                ap (contains a) same,
              ),
            ),
          )
    ]
