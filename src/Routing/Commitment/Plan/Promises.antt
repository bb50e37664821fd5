-- ===== src/Routing/Commitment/Plan/Promises.antt =====
-- `commitment_plan`: what a plan promises.
use argent.Base.{Text, ℕ, ◌≡◌, true, some, List, get_elem?}
use argent.Collections.Order.{nat_ord, bytes_ord}
use argent.Collections.BTreeSet.{contains, IsSorted}
use argent.Collections.BTreeMap.{get}
use argent.Routing.Graph.{RouteGraph, IsActor, Consumes, Emits}
use argent.Routing.Forest.{Cut, is_valid_cut, NodePath}
use argent.Routing.Commitment.{CommitmentConstraints, CommitmentPlan, ok}
use argent.Routing.Commitment.Plan.Minimal.{IsFor}
use argent.Routing.Needs.Need.{Need}
use argent.Routing.Transition.{CutTransition, cut_transition, planned}
use argent.Routing.Transition.Carried.{IsCarriedOut}
use argent.Routing.Commitment.Plan.Due.{Concern, Shown}
use argent.Routing.Commitment.Plan.{add_cliques}
use argent.Routing.Commitment.Plan.Provided.{Selected, Reached}

-- What a plan promises: a valid cut of the forest, in order, for every actor of the graph, and one
-- cut for all members of a cohort. The cut of an actor selects the leaves of the actors that it
-- consumes and of the members of its cohort, and reaches whatever it needs in the graph with the
-- clique edges of the cohorts.
pub record IsPlan (g : RouteGraph) (k : CommitmentConstraints) (plan : CommitmentPlan)
    : Type 0 where
  pub covered :
      (a : Text)
      → IsActor g a
      → (cut : Cut) × (get a plan.cuts ≡ some cut)
        × IsSorted cut
        × (is_valid_cut plan.forest cut ≡ true)
  pub shared :
      (i : ℕ) (cohort : List Text)
      → get_elem? k.cohorts i ≡ some cohort
      → (a b : Text) → contains a cohort ≡ true
      → contains b cohort ≡ true
      → get a plan.cuts ≡ get b plan.cuts
  pub reads :
      (a t : Text) (cut : Cut)
      → IsActor g a
      → get a plan.cuts ≡ some cut
      → Consumes g a t
      → Selected plan.forest cut t
  pub members :
      (i : ℕ) (cohort : List Text) (a b : Text) (cut : Cut)
      → get_elem? k.cohorts i ≡ some cohort
      → contains a cohort ≡ true
      → contains b cohort ≡ true
      → get a plan.cuts ≡ some cut
      → Selected plan.forest cut b
  pub reaches :
      (h : RouteGraph) (a t : Text) (cut : Cut)
      → add_cliques g k.cohorts ≡ ok h
      → IsActor g a
      → get a plan.cuts ≡ some cut
      → Need h a t
      → Reached plan.forest cut t

-- The operations that derive the cut of the target from the cut of the source, and that can be
-- carried out.
pub record IsRoute (plan : CommitmentPlan) (s t : Text) (moves : CutTransition) : Type 0 where
  pub found : cut_transition plan s t ≡ planned moves
  pub source : Cut
  pub target : Cut
  pub source_lem : get s plan.cuts ≡ some source
  pub target_lem : get t plan.cuts ≡ some target
  pub carried_out : IsCarriedOut plan.forest source target moves

abbrev pub IsRouted : RouteGraph → CommitmentPlan → Type 0
IsRouted g plan = (s t : Text) → Emits g s t → (moves : CutTransition) × IsRoute plan s t moves

-- Every node of a cut is for an actor of concern: the actor of the cut, or one that it needs. A family
-- of it is opened only if the actor is shown.
abbrev pub IsMinimal : RouteGraph → CommitmentConstraints → CommitmentPlan → Type 0
IsMinimal g k plan =
    (h : RouteGraph) (a : Text) (cut : Cut) (p : NodePath)
    → add_cliques g k.cohorts ≡ ok h
    → IsActor g a
    → get a plan.cuts ≡ some cut
    → contains p cut ≡ true
    → (x : Text) × Concern h a x × IsFor plan.forest k.families (Shown g k.cohorts a) x p
