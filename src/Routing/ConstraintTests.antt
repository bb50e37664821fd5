-- ===== src/Routing/ConstraintTests.antt =====
-- Runs of the planner on constraints with and without defects, and the theorems on them.
use argent.Base.{◌≡◌, ◌↔◌, refl, none, List, [], ◌∷◌, bytes, zero, suc, subst, Text, some}
use argent.Collections.Order.{bytes_ord}
use argent.Collections.BTreeSet.{IsSorted}
use argent.Routing.Graph.{
  empty_graph, add_actor, add_emit, add_emit_clique, Emits, RouteGraph, IsActor,
}
use argent.Routing.Graph.Built.{
  Operation, actor, emit, consume, clique, perform_all, no_relations, describe_all, Refines,
  perform_all-Refines,
}
use argent.Routing.Commitment.{
  CommitmentConstraints, CommitmentPlan, ConstraintError, duplicate_family_actor, ok, err,
}
use argent.Routing.Commitment.Groups.Defects.{IsDefect}
use argent.Routing.Commitment.Plan.{commitment_plan, add_cliques}
use argent.Routing.Commitment.Plan.Promises.{IsRoute}
use argent.Routing.Commitment.Plan.Correct.{cut_transition-emits, commitment_plan-IsFor}
use argent.Routing.Commitment.Plan.Due.{Concern, Shown}
use argent.Routing.Commitment.Plan.Minimal.{IsFor}
use argent.Routing.Commitment.Plan.Accepted.{AreSets, commitment_plan-IsDefect, commitment_plan_iff}
use argent.Routing.Transition.{CutTransition}
use argent.Routing.Tests.{
  mux_graph, mux_constraints, mux_commitments, mux_plan, mux_graph-IsWellFormed,
}

player_emits : Emits mux_graph (bytes "Player") (bytes "Mux")
unfolding add_actor add_emit
player_emits = refl

-- The player keeps the family packed, and the target has it open.
cut_transition-emits_example :
    (moves : CutTransition) × IsRoute mux_commitments (bytes "Player") (bytes "Mux") moves
cut_transition-emits_example =
    cut_transition-emits mux_graph mux_constraints mux_commitments (bytes "Player") (bytes "Mux")
      mux_graph-IsWellFormed mux_plan player_emits

mux_constraints-AreSets : AreSets mux_constraints
mux_constraints-AreSets zero cohort h =
    let same : bytes "Knight" ∷ bytes "Mux" ∷ bytes "Pawn" ∷ [] ≡ cohort = cc in
    subst IsSorted same ((refl, (refl, tt)), ((refl, tt), (tt, tt)))
mux_constraints-AreSets (suc i) cohort h = cc

commitment_plan_iff_example :
    ((plan : CommitmentPlan) × (commitment_plan mux_graph mux_constraints ≡ ok plan))
    ↔ ((x : ConstraintError) → IsDefect mux_graph mux_constraints x → ⊥)
commitment_plan_iff_example =
    commitment_plan_iff mux_graph mux_constraints mux_graph-IsWellFormed mux_constraints-AreSets

abbrev repeating : CommitmentConstraints
repeating = record {
  families =
      (bytes "Knight" ∷ bytes "Pawn" ∷ []) ∷ (bytes "Mux" ∷ bytes "Settle" ∷ bytes "Mux" ∷ []) ∷ [];
  cohorts = [];
}

repeating_refused :
    commitment_plan mux_graph repeating ≡ err (duplicate_family_actor 1 (bytes "Mux"))
unfolding commitment_plan add_actor add_emit
repeating_refused = refl

commitment_plan-IsDefect_example :
    IsDefect mux_graph repeating (duplicate_family_actor 1 (bytes "Mux"))
commitment_plan-IsDefect_example =
    commitment_plan-IsDefect mux_graph repeating (duplicate_family_actor 1 (bytes "Mux"))
      mux_graph-IsWellFormed (λ i cohort h. cc) repeating_refused

abbrev calls : List Operation
calls =
    emit (bytes "A") (bytes "B")
    ∷ consume (bytes "B") (bytes "C")
    ∷ clique (bytes "A" ∷ bytes "C" ∷ [])
    ∷ actor (bytes "D")
    ∷ []

perform_all-Refines_example :
    Refines (perform_all empty_graph calls) (describe_all no_relations calls)
perform_all-Refines_example = perform_all-Refines calls

-- A clique of an actor that the graph does not have is refused.
clique_refused : perform_all empty_graph (actor (bytes "D") ∷ clique (bytes "A" ∷ []) ∷ []) ≡ none
unfolding add_actor add_emit_clique
clique_refused = refl

-- The graph with the clique edges of the cohort.
abbrev mux_needs : RouteGraph
mux_needs = elim (add_emit_clique mux_graph (bytes "Knight" ∷ bytes "Mux" ∷ bytes "Pawn" ∷ [])) [
  | some h ↦ h
  | none ↦ mux_graph
]

mux_cliques : add_cliques mux_graph mux_constraints.cohorts ≡ ok mux_needs
unfolding add_cliques add_emit_clique add_actor add_emit
mux_cliques = refl

player_known : IsActor mux_graph (bytes "Player")
unfolding add_actor add_emit
player_known = refl

-- The branch of the family in the cut of the player.
commitment_plan-IsFor_example :
    (x : Text) × Concern mux_needs (bytes "Player") x
    × IsFor mux_commitments.forest mux_constraints.families
        (Shown mux_graph mux_constraints.cohorts (bytes "Player"))
        x
        (0 ∷ [])
commitment_plan-IsFor_example =
    commitment_plan-IsFor mux_graph mux_constraints mux_commitments mux_needs (bytes "Player")
      ((0 ∷ []) ∷ (1 ∷ []) ∷ (3 ∷ []) ∷ []) (0 ∷ []) mux_graph-IsWellFormed mux_plan mux_cliques
      player_known refl refl
