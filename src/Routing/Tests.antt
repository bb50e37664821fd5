-- ===== src/Routing/Tests.antt =====
-- Runs of the planner on the inputs of the unit tests under src/routing, and instances of the
-- theorems.
use argent.Base.{
  Result, Done, none, not, ◌&&◌, ◌||◌, All, Text, ◌≡◌, refl, ◌⊎◌, ◌↔◌, true, some, List, [], ◌∷◌,
  bytes,
}
use argent.Collections.Order.{bytes_ord, eqb}
use argent.Collections.BTreeSet.{from_list, contains, IsSorted}
use argent.Collections.BTreeMap.{get}
use argent.Routing.Graph.{
  RouteGraph, empty_graph, add_actor, add_emit, IsActor, add_emit_clique, targets,
}
use argent.Routing.Graph.Build.{
  IsWellFormed, empty_graph-IsWellFormed, add_actor-IsWellFormed, add_emit-IsWellFormed,
  add_emit_clique_edges,
}
use argent.Routing.Needs.{Needs, needs}
use argent.Routing.Needs.Need.{Need}
use argent.Routing.Needs.Correct.{needs_correct}
use argent.Routing.Forest.Validity.{IsCut, is_valid_cut_iff}
use argent.Routing.Forest.Moves.Kept.{open_valid, pack_valid}
use argent.Routing.Forest.Moves.Inverse.{pack-open, open-pack}
use argent.Routing.Forest.{
  leaf, branch, nil, cons, Cut, CommitmentForest, is_valid_cut, open_branch, pack,
}
use argent.Routing.Commitment.{
  CommitmentConstraints, CommitmentPlan, ConstraintError, ok, err, Membership, validate_families,
  validate_cohorts,
}
use argent.Routing.Commitment.Plan.Promises.{IsPlan}
use argent.Routing.Commitment.Plan.Correct.{commitment_plan_total}
use argent.Routing.Commitment.Groups.{IsIndex, validate_families-IsIndex, validate_cohorts-IsIndex}
use argent.Routing.RoutePlan.{RoutePlanError, SelectorRequirement, validate_selector_requirements}
use argent.Routing.RoutePlan.Selectors.{IsRequirement, validate_selector_requirements_iff}
use argent.Routing.Transition.{CutTransition, transition, derived}
use argent.Routing.Transition.Derivable.{Derivable, transition_iff}
use argent.Routing.Commitment.Plan.{commitment_plan}

abbrev pub mux_graph : RouteGraph
mux_graph =
    add_emit
      (add_emit
        (add_emit (add_emit (add_actor empty_graph (bytes "Knight")) (bytes "Player") (bytes "Mux"))
          (bytes "Mux") (bytes "Pawn"))
        (bytes "Pawn") (bytes "Mux"))
      (bytes "Mux") (bytes "Settle")

abbrev pub mux_constraints : CommitmentConstraints
mux_constraints = record {
  families = (bytes "Knight" ∷ bytes "Pawn" ∷ []) ∷ [];
  cohorts = from_list (bytes "Knight" ∷ bytes "Mux" ∷ bytes "Pawn" ∷ []) ∷ [];
}

abbrev cohort_paths : Cut
cohort_paths = (0 ∷ 0 ∷ []) ∷ (0 ∷ 1 ∷ []) ∷ (1 ∷ []) ∷ (3 ∷ []) ∷ []

abbrev pub mux_commitments : CommitmentPlan
mux_commitments = record {
  forest = record {
    roots = cons (branch (cons (leaf (bytes "Knight")) (cons (leaf (bytes "Pawn")) nil))) (
        cons (leaf (bytes "Mux"))
          (cons (leaf (bytes "Player")) (cons (leaf (bytes "Settle")) nil)));
  };
  cuts =
      (bytes "Knight", cohort_paths)
      ∷ (bytes "Mux", cohort_paths)
      ∷ (bytes "Pawn", cohort_paths)
      ∷ (bytes "Player", (0 ∷ []) ∷ (1 ∷ []) ∷ (3 ∷ []) ∷ [])
      ∷ (bytes "Settle", [])
      ∷ [];
}

-- commitment_plan_uses_families_for_structure_and_cohorts_for_shared_cuts
pub mux_plan : commitment_plan mux_graph mux_constraints ≡ ok mux_commitments
unfolding commitment_plan add_actor add_emit
mux_plan = refl

pub mux_graph-IsWellFormed : IsWellFormed mux_graph
mux_graph-IsWellFormed = add_emit-IsWellFormed _ (bytes "Mux") (bytes "Settle") (
    add_emit-IsWellFormed _ (bytes "Pawn") (bytes "Mux") (
      add_emit-IsWellFormed _ (bytes "Mux") (bytes "Pawn") (
        add_emit-IsWellFormed _ (bytes "Player") (bytes "Mux")
          (add_actor-IsWellFormed empty_graph (bytes "Knight") empty_graph-IsWellFormed))))

needs_correct_example :
    (m : Needs) × (needs mux_graph ≡ some m)
    × ((a : Text)
        → IsActor mux_graph a
        → (r : List Text) × (get a m ≡ some r)
          × ((t : Text) → (contains t r ≡ true) ↔ Need mux_graph a t))
needs_correct_example = needs_correct mux_graph mux_graph-IsWellFormed

abbrev family_forest : CommitmentForest
family_forest = record {
  roots =
      cons (branch (cons (leaf (bytes "Pawn")) (cons (leaf (bytes "Knight")) nil)))
        (cons (leaf (bytes "Player")) nil);
}

abbrev packed_cut : Cut
packed_cut = (0 ∷ []) ∷ (1 ∷ []) ∷ []

abbrev opened_cut : Cut
opened_cut = (0 ∷ 0 ∷ []) ∷ (0 ∷ 1 ∷ []) ∷ (1 ∷ []) ∷ []

packed_cut-IsSorted : IsSorted packed_cut
packed_cut-IsSorted = ((refl, tt), (tt, tt))

opened_cut-IsSorted : IsSorted opened_cut
opened_cut-IsSorted = ((refl, (refl, tt)), ((refl, tt), (tt, tt)))

family_opens : open_branch family_forest packed_cut (0 ∷ []) ≡ some opened_cut
unfolding open_branch is_valid_cut
family_opens = refl

family_packs : pack family_forest opened_cut (0 ∷ []) ≡ some packed_cut
unfolding pack is_valid_cut
family_packs = refl

is_valid_cut_iff_example :
    (is_valid_cut family_forest opened_cut ≡ true) ↔ IsCut family_forest opened_cut
is_valid_cut_iff_example = is_valid_cut_iff family_forest opened_cut opened_cut-IsSorted

open_valid_example : IsSorted opened_cut × (is_valid_cut family_forest opened_cut ≡ true)
open_valid_example =
    open_valid family_forest packed_cut (0 ∷ []) opened_cut packed_cut-IsSorted family_opens

pack_valid_example : IsSorted packed_cut × (is_valid_cut family_forest packed_cut ≡ true)
pack_valid_example =
    pack_valid family_forest opened_cut (0 ∷ []) packed_cut opened_cut-IsSorted family_packs

pack-open_example : pack family_forest opened_cut (0 ∷ []) ≡ some packed_cut
pack-open_example =
    pack-open family_forest packed_cut (0 ∷ []) opened_cut packed_cut-IsSorted family_opens

open-pack_example : open_branch family_forest packed_cut (0 ∷ []) ≡ some opened_cut
open-pack_example =
    open-pack family_forest opened_cut (0 ∷ []) packed_cut opened_cut-IsSorted family_packs

commitment_plan_total_example :
    ((x : ConstraintError) × (commitment_plan mux_graph mux_constraints ≡ err x))
    ⊎ ((plan : CommitmentPlan) × (commitment_plan mux_graph mux_constraints ≡ ok plan)
        × IsPlan mux_graph mux_constraints plan)
commitment_plan_total_example =
    commitment_plan_total mux_graph mux_constraints mux_graph-IsWellFormed

opened_cut-valid : is_valid_cut family_forest opened_cut ≡ true
unfolding is_valid_cut
opened_cut-valid = refl

packed_cut-valid : is_valid_cut family_forest packed_cut ≡ true
unfolding is_valid_cut
packed_cut-valid = refl

transition_iff_example :
    ((t : CutTransition) × (transition family_forest opened_cut packed_cut ≡ derived t))
    ↔ All (Derivable family_forest opened_cut) packed_cut
transition_iff_example =
    transition_iff family_forest opened_cut packed_cut opened_cut-IsSorted packed_cut-IsSorted
      opened_cut-valid packed_cut-valid

-- The family is packed from its leaves, and the other leaf is kept.
family_transition :
    transition family_forest opened_cut packed_cut
    ≡ derived (record {
      retained = leaf (bytes "Player") ∷ [];
      branches_to_open = [];
      branches_to_pack =
          branch (cons (leaf (bytes "Pawn")) (cons (leaf (bytes "Knight")) nil)) ∷ [];
    })
unfolding transition
family_transition = refl

abbrev cohort_members : List Text
cohort_members = bytes "Knight" ∷ bytes "Mux" ∷ bytes "Pawn" ∷ []

abbrev mux_clique : RouteGraph
mux_clique = elim (add_emit_clique mux_graph cohort_members) [ some h ↦ h | none ↦ mux_graph ]

mux_clique_added : add_emit_clique mux_graph cohort_members ≡ some mux_clique
unfolding add_emit_clique add_emit add_actor
mux_clique_added = refl

add_emit_clique_edges_example :
    (mux_clique.actors ≡ mux_graph.actors)
    × (mux_clique.consumes ≡ mux_graph.consumes)
    × (contains (bytes "Mux") (targets mux_clique.emits (bytes "Knight")) ≡ (
        (contains (bytes "Knight") cohort_members
          && (not (eqb (bytes "Mux") (bytes "Knight")) && contains (bytes "Mux") cohort_members))
        || contains (bytes "Mux") (targets mux_graph.emits (bytes "Knight"))))
add_emit_clique_edges_example =
    add_emit_clique_edges mux_graph cohort_members mux_clique (bytes "Knight") (bytes "Mux")
      mux_clique_added

abbrev family_index : Membership
family_index = (bytes "Knight", 0) ∷ (bytes "Pawn", 0) ∷ []

families_validate :
    validate_families mux_graph ((bytes "Knight" ∷ bytes "Pawn" ∷ []) ∷ []) ≡ ok family_index
unfolding validate_families add_emit add_actor
families_validate = refl

validate_families-IsIndex_example :
    IsIndex mux_graph ((bytes "Knight" ∷ bytes "Pawn" ∷ []) ∷ []) family_index
validate_families-IsIndex_example =
    validate_families-IsIndex mux_graph ((bytes "Knight" ∷ bytes "Pawn" ∷ []) ∷ []) family_index
      families_validate

abbrev cohort_index : Membership
cohort_index = (bytes "Knight", 0) ∷ (bytes "Mux", 0) ∷ (bytes "Pawn", 0) ∷ []

cohorts_validate : validate_cohorts mux_graph (cohort_members ∷ []) ≡ ok cohort_index
unfolding validate_cohorts add_emit add_actor
cohorts_validate = refl

validate_cohorts-IsIndex_example : IsIndex mux_graph (cohort_members ∷ []) cohort_index
validate_cohorts-IsIndex_example =
    validate_cohorts-IsIndex mux_graph (cohort_members ∷ []) cohort_index cohorts_validate

abbrev accepted : Result Done RoutePlanError
accepted = Result.ok tt

abbrev piece_domains : List (Text × List Text)
piece_domains = (bytes "Piece", bytes "Mux" ∷ bytes "Pawn" ∷ bytes "Knight" ∷ []) ∷ []

abbrev piece_selector : SelectorRequirement
piece_selector = record {
  domain = bytes "Piece";
  source = bytes "Mux";
  variants = bytes "Pawn" ∷ bytes "Knight" ∷ [];
}

validate_selector_requirements_iff_example :
    (validate_selector_requirements piece_domains (piece_selector ∷ []) ≡ accepted)
    ↔ All (IsRequirement piece_domains) (piece_selector ∷ [])
validate_selector_requirements_iff_example =
    validate_selector_requirements_iff piece_domains (piece_selector ∷ [])

selector_accepted : validate_selector_requirements piece_domains (piece_selector ∷ []) ≡ accepted
unfolding validate_selector_requirements
selector_accepted = refl
