-- ===== src/Routing/Commitment/Plan/Planned.antt =====
-- `commitment_plan`: what is known of the state from which a plan was made.
use argent.Base.{Text, ℕ, ◌≡◌, refl, ◌↔◌, ◌⊎◌, inl, inr, true, some, List, [], arith, get_elem?}
use argent.Collections.Order.{nat_ord, bytes_ord}
use argent.Collections.BTreeSet.{contains, IsSorted}
use argent.Collections.BTreeMap.{get}
use argent.Routing.Graph.{RouteGraph, IsActor}
use argent.Routing.Graph.Build.{IsWellFormed}
use argent.Routing.Needs.{Needs}
use argent.Routing.Needs.Need.{Need}
use argent.Routing.Needs.Correct.{needs_correct}
use argent.Routing.Forest.{Cut, is_valid_cut}
use argent.Routing.Commitment.{
  CommitmentConstraints, CommitmentPlan, ConstraintError, Membership, Result, ok, err, panic,
  validate_families, validate_cohorts,
}
use argent.Routing.Commitment.Groups.{IsIndex, validate_families-IsIndex, validate_cohorts-IsIndex}
use argent.Routing.Commitment.Groups.Total.{validate_families-ne-panic, validate_cohorts-ne-panic}
use argent.Routing.Commitment.Groups.Distinct.{IsDistinct, validate_families-IsDistinct}
use argent.Routing.Commitment.Locations.{Building, empty_building, build_commitment_forest}
use argent.Routing.Commitment.Locations.Located.{Located, empty-Located}
use argent.Routing.Commitment.Locations.Exact.{place_all-Located}
use argent.Routing.Commitment.Plan.{Context, add_cliques, commitment_plan}
use argent.Routing.Commitment.Plan.Shape.{forest}
use argent.Routing.Commitment.Plan.Parts.{Need-IsActor, add_cliques-IsWellFormed}
use argent.Routing.Commitment.Plan.Origin.{Sourced, plan_actors-Sourced}
use argent.Routing.Commitment.Plan.Loop.{all_planned}

-- Both validations succeed, or the error of one of them is returned.
pub data Validated (g : RouteGraph) (k : CommitmentConstraints) : Type 0 where
  passed :
      (m n : Membership)
      → validate_families g k.families ≡ ok m
      → validate_cohorts g k.cohorts ≡ ok n
      → Validated g k
  stopped :
      (x : ConstraintError)
      → commitment_plan g k ≡ err x
      → (validate_families g k.families ≡ err x) ⊎ (validate_cohorts g k.cohorts ≡ err x)
      → Validated g k

pub validated : (g : RouteGraph) (k : CommitmentConstraints) → Validated g k
unfolding commitment_plan
validated g k = result (validate_families g k.families) refl
  where
    cohorts_result :
        (m : Membership)
        → validate_families g k.families ≡ ok m
        → (r : Result Membership) → validate_cohorts g k.cohorts ≡ r
        → Validated g k
    cohorts_result m fs (ok n) cs = passed m n fs cs
    cohorts_result m fs (err x) cs = stopped x (rw fs (rw cs refl)) (inr cs)
    cohorts_result m fs panic cs = absurd (validate_cohorts-ne-panic g k.cohorts cs)

    result : (r : Result Membership) → validate_families g k.families ≡ r → Validated g k
    result (ok m) fs = cohorts_result m fs (validate_cohorts g k.cohorts) refl
    result (err x) fs = stopped x (rw fs refl) (inl fs)
    result panic fs = absurd (validate_families-ne-panic g k.families fs)

abbrev pub planning :
    RouteGraph → CommitmentConstraints → Membership → Membership → Building → Needs → Context
planning g k m n st ns = record {
  graph = g;
  constraints = k;
  family_by_actor = m;
  cohort_by_actor = n;
  locations = record { actor_paths = st.actor_paths; family_paths = st.family_paths };
  actor_needs = ns;
}

abbrev pub planned_from : Building → List (Text × Cut) → CommitmentPlan
planned_from st cuts = record { forest = forest st.roots; cuts = cuts }

-- The indices, the forest under construction, the graph with clique edges, its needs, and the cuts.
pub record IsPlanned (g : RouteGraph) (k : CommitmentConstraints) (m n : Membership) (st : Building)
    (h : RouteGraph) (ns : Needs) (cuts : List (Text × Cut)) : Type 0 where
  pub families : IsIndex g k.families m
  pub cohorts : IsIndex g k.cohorts n
  pub distinct :
      (i : ℕ) (group : List Text) → get_elem? k.families i ≡ some group → IsDistinct group
  pub all : List Text
  pub located : Located k.families m all st
  pub placed : (a : Text) → IsActor g a → contains a all ≡ true
  pub cliques : add_cliques g k.cohorts ≡ ok h
  pub exact :
      (a : Text)
      → IsActor g a
      → (r : List Text) × (get a ns ≡ some r) × ((t : Text) → (contains t r ≡ true) ↔ Need h a t)
  pub covered :
      (a : Text)
      → IsActor g a
      → (cut : Cut) × (get a cuts ≡ some cut)
        × IsSorted cut
        × (is_valid_cut (forest st.roots) cut ≡ true)
  pub shared :
      (i : ℕ) (cohort : List Text)
      → get_elem? k.cohorts i ≡ some cohort
      → (a b : Text) → contains a cohort ≡ true
      → contains b cohort ≡ true
      → get a cuts ≡ get b cuts
  pub sourced : Sourced (planning g k m n st ns) cuts

pub validated-IsPlanned :
    (g : RouteGraph) (k : CommitmentConstraints) (m n : Membership)
    → IsWellFormed g
    → validate_families g k.families ≡ ok m
    → validate_cohorts g k.cohorts ≡ ok n
    → (st : Building) × (h : RouteGraph) × (ns : Needs) × (cuts : List (Text × Cut))
      × (commitment_plan g k ≡ ok (planned_from st cuts))
      × IsPlanned g k m n st h ns cuts
unfolding commitment_plan build_commitment_forest
validated-IsPlanned g k m n w fs cs =
    let families = validate_families-IsIndex g k.families m fs in
    let cohorts = validate_cohorts-IsIndex g k.cohorts n cs in
    let (st, all, built, l, placed) =
      place_all-Located g k.families m families g.actors [] empty_building
        (empty-Located k.families m) in
    let (h, cliques, wh, same) =
      add_cliques-IsWellFormed g k.cohorts w
        (λ i cohort e a c. (cohorts.of_group a i cohort e c).1) in
    let (ns, ran, closures) = needs_correct h wh in
    let c = planning g k m n st ns in
    let (cuts, e, (covered, shared)) =
      all_planned c st all w families cohorts l (λ a known. placed a (ground arith)) refl
        (λ a known.
          let (r, found, exact) = closures a (rw same known) in
          (r, found, λ t i. rw (← same) (Need-IsActor h wh ((exact t).0 i)))) in
    (
      st,
      h,
      ns,
      cuts,
      rw fs (rw cs (rw built (rw cliques (rw ran (rw e refl))))),
      record {
        families = families;
        cohorts = cohorts;
        distinct = validate_families-IsDistinct g k.families m fs;
        all = all;
        located = l;
        placed = λ a known. placed a (ground arith);
        cliques = cliques;
        exact = λ a known. closures a (rw same known);
        covered = covered;
        shared = shared;
        sourced = plan_actors-Sourced c g.actors [] cuts (λ b d e'. cc) e;
      },
    )
