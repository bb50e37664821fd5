-- ===== src/Routing/Commitment/Plan.antt =====
-- src/routing/commitment.rs, `commitment_forest` and `commitment_plan`: the cut that each actor
-- carries.
pub mod Shape
pub mod Moves
pub mod Cuts
pub mod Serves
pub mod Exposes
pub mod Parts
pub mod Origin
pub mod Provided
pub mod Serving
pub mod Good
pub mod Loop
pub mod Related
pub mod Due
pub mod Minimal
pub mod Routed
pub mod Planned
pub mod Accepted
pub mod Promises
pub mod Correct
use argent.Base.{Text, ℕ, true, false, none, some, List, [], ◌∷◌, if◌then◌else◌, get_elem?}
use argent.Collections.Order.{nat_ord, bytes_ord}
use argent.Collections.BTreeSet
use argent.Collections.BTreeSet.{contains}
use argent.Collections.BTreeMap
use argent.Collections.BTreeMap.{get, contains_key}
use argent.Routing.Graph.{RouteGraph, targets, direct_consumes, add_emit_clique}
use argent.Routing.Needs.{Needs, needs}
use argent.Routing.Forest.{CommitmentForest, NodePath, Cut}
use argent.Routing.Commitment.{
  CommitmentConstraints, CommitmentPlan, Membership, Result, ok, panic, ◌>>=◌, expect,
  validate_families, validate_cohorts,
}
use argent.Routing.Commitment.Locations.{CommitmentLocations, build_commitment_forest}

unfoldable pub commitment_forest : RouteGraph → List (List Text) → Result CommitmentForest
unfolding validate_families build_commitment_forest
commitment_forest g families = validate_families g families >>= λ by_actor.
    build_commitment_forest g families by_actor >>= λ built. ok built.0

-- The path that stands for a needed actor: its leaf, or the branch of its family.
abbrev pub need_path : Membership → CommitmentLocations → Text → Result NodePath
need_path by_actor locations actor = elim (get actor by_actor) [
  | none ↦ expect (get actor locations.actor_paths)
  | some index ↦ expect (get index locations.family_paths)
]

-- The `collect` of `cut_for_needs`, into the set so far.
unfoldable pub collect_needs : Membership → CommitmentLocations → Cut → List Text → Result Cut
collect_needs by_actor locations cut [] = ok cut
collect_needs by_actor locations cut (actor ∷ rest) = need_path by_actor locations actor >>= λ path.
    collect_needs by_actor locations (BTreeSet.insert path cut) rest

unfoldable pub cut_for_needs : List Text → Membership → CommitmentLocations → Result Cut
unfolding collect_needs
cut_for_needs actor_needs by_actor locations = collect_needs by_actor locations [] actor_needs

-- `cut.extend(family.iter().map(|member| actor_paths[member]))`.
unfoldable pub insert_members : CommitmentLocations → List Text → Cut → Result Cut
insert_members locations [] cut = ok cut
insert_members locations (member ∷ rest) cut = expect (get member locations.actor_paths) >>= λ path.
    insert_members locations rest (BTreeSet.insert path cut)

-- The branch of a family is replaced by all its leaves.
unfoldable pub open_family : List (List Text) → CommitmentLocations → ℕ → Cut → Result Cut
unfolding insert_members
open_family families locations index cut = expect (get index locations.family_paths) >>= λ path.
    expect (get_elem? families index) >>= λ family.
    insert_members locations family (BTreeSet.remove path cut)

-- The loop of `expose_actors`, with the cut and the set `opened_families`.
unfoldable pub expose_from :
    List (List Text) → Membership → CommitmentLocations → List ℕ → Cut → List Text → Result Cut
expose_from families by_actor locations opened cut [] = ok cut
expose_from families by_actor locations opened cut (actor ∷ rest) = elim (get actor by_actor) [
  | none ↦ expect (get actor locations.actor_paths) >>= λ path.
      expose_from families by_actor locations opened (BTreeSet.insert path cut) rest
  | some index ↦ elim (contains index opened) [
    | true ↦ expose_from families by_actor locations opened cut rest
    | false ↦ open_family families locations index cut >>= λ next.
        expose_from families by_actor locations (BTreeSet.insert index opened) next rest
  ]
]

unfoldable pub expose_actors :
    Cut → List Text → List (List Text) → Membership → CommitmentLocations → Result Cut
unfolding expose_from open_family
expose_actors cut actors families by_actor locations =
    expose_from families by_actor locations [] cut actors

-- What stays fixed while the cuts are planned.
pub record Context : Type 0 where
  pub graph : RouteGraph
  pub constraints : CommitmentConstraints
  pub family_by_actor : Membership
  pub cohort_by_actor : Membership
  pub locations : CommitmentLocations
  pub actor_needs : Needs

-- Phase 3: the cut of an actor outside the cohorts.
unfoldable pub single_cut : Context → Text → Result Cut
unfolding cut_for_needs expose_actors
single_cut c actor = expect (get actor c.actor_needs) >>= λ own.
    cut_for_needs own c.family_by_actor c.locations >>= λ cut.
    elim (direct_consumes c.graph actor) [
      | none ↦ ok cut
      | some consumes ↦
          expose_actors cut consumes c.constraints.families c.family_by_actor c.locations
    ]

-- `exposed_actors`: the cohort, and what its members consume.
abbrev pub exposed : RouteGraph → List Text → List Text → List Text
exposed g acc [] = acc
exposed g acc (member ∷ rest) = exposed g (BTreeSet.extend acc (targets g.consumes member)) rest

-- Phase 4: the cut that the members of a cohort share.
unfoldable pub cohort_cut : Context → List Text → Result Cut
unfolding cut_for_needs expose_actors
cohort_cut c [] = panic
cohort_cut c (first ∷ rest) = expect (get first c.actor_needs) >>= λ cohort_needs.
    cut_for_needs cohort_needs c.family_by_actor c.locations >>= λ cut.
    expose_actors cut (exposed c.graph (first ∷ rest) (first ∷ rest)) c.constraints.families
      c.family_by_actor c.locations

-- One cut for every member.
abbrev pub share : Cut → List Text → List (Text × Cut) → List (Text × Cut)
share cut [] cuts = cuts
share cut (member ∷ rest) cuts = share cut rest (BTreeMap.insert member cut cuts)

-- The body of the loop over the actors.
unfoldable pub plan_actor : Context → List (Text × Cut) → Text → Result (List (Text × Cut))
unfolding single_cut cohort_cut
plan_actor c cuts actor =
    if contains_key actor cuts then ok cuts else elim (get actor c.cohort_by_actor) [
      | none ↦ single_cut c actor >>= λ cut. ok (BTreeMap.insert actor cut cuts)
      | some index ↦ expect (get_elem? c.constraints.cohorts index) >>= λ cohort.
          cohort_cut c cohort >>= λ cut. ok (share cut cohort cuts)
    ]

unfoldable pub plan_actors : Context → List (Text × Cut) → List Text → Result (List (Text × Cut))
plan_actors c cuts [] = ok cuts
plan_actors c cuts (actor ∷ rest) = plan_actor c cuts actor >>= λ next. plan_actors c next rest

-- The clique edges of every cohort, in the cloned graph.
unfoldable pub add_cliques : RouteGraph → List (List Text) → Result RouteGraph
unfolding add_emit_clique
add_cliques g [] = ok g
add_cliques g (cohort ∷ rest) = expect (add_emit_clique g cohort) >>= λ next. add_cliques next rest

unfoldable pub commitment_plan : RouteGraph → CommitmentConstraints → Result CommitmentPlan
unfolding validate_families validate_cohorts build_commitment_forest add_cliques needs plan_actors
    plan_actor
commitment_plan g constraints = validate_families g constraints.families >>= λ family_by_actor.
    validate_cohorts g constraints.cohorts >>= λ cohort_by_actor.
    build_commitment_forest g constraints.families family_by_actor >>= λ built.
    add_cliques g constraints.cohorts >>= λ needs_graph.
    expect (needs needs_graph) >>= λ actor_needs.
    plan_actors
      (record {
        graph = g;
        constraints = constraints;
        family_by_actor = family_by_actor;
        cohort_by_actor = cohort_by_actor;
        locations = built.1;
        actor_needs = actor_needs;
      })
      [] g.actors
    >>= λ cuts. ok (record { forest = built.0; cuts = cuts })
