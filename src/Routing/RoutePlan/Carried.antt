-- ===== src/Routing/RoutePlan/Carried.antt =====
-- src/routing/plan.rs: the cohorts of a route plan are the components, and what its cuts select.
use argent.Base.{
  Text, ◌≤◌, ◌<◌, ◌≡◌, ◌⊎◌, inl, inr, true, some, List, [], ◌∷◌, All, All_at, In, arith, length,
  get_elem?-of_In, get_elem?-In, subst,
}
use native.Mathlib.Decide.{dec_lt}
use argent.Collections.Order.{eqb_iff, bytes_ord}
use argent.Collections.BTreeSet.{contains, from_list}
use argent.Collections.BTreeMap.{get}
use argent.Routing.Graph.{RouteGraph, IsActor, targets}
use argent.Routing.Components.Classes.{Weak}
use argent.Routing.Commitment.{CommitmentConstraints, CommitmentPlan}
use argent.Routing.Commitment.Plan.Promises.{IsMinimal}
use argent.Routing.RoutePlan.Families.{Inferred}
use argent.Routing.RoutePlan.Loops.{Ready, Weak-trans}
use argent.Routing.Needs.Need.{Need}
use argent.Routing.Forest.{NodePath, Cut}
use argent.Routing.Commitment as Commitment
use argent.Routing.Commitment.Plan.{add_cliques}
use argent.Routing.Commitment.Plan.Parts.{Emits-of_add_cliques, add_cliques-consumes}
use argent.Routing.Commitment.Plan.Due.{Shown}
use argent.Routing.Commitment.Plan.Minimal.{IsFor, IsFor-map}
use argent.Routing.RoutePlan.Inferred.{IsCohort}
use argent.Routing.RoutePlan.Promises.{
  Joint, Carries, consumed, emitted, joint, by_emit, by_joint, Direct, InOneCohort,
}

only_one :
    (xs : List Text) (a b : Text)
    → length xs ≤ 1
    → contains a xs ≡ true
    → contains b xs ≡ true
    → a ≡ b
only_one [] a b h m n = cc
only_one (x ∷ []) a b h m n = ground (arith, eqb_iff a x, eqb_iff b x)
only_one (x ∷ y ∷ xs) a b h m n = absurd (omega arith)

-- Members of a component are the same actor, or members of a cohort.
pub component-InOneCohort :
    (g : RouteGraph) (st : Inferred) (p : Text × List Text) (seed a b : Text)
    → Ready g st p
    → contains seed (from_list p.1) ≡ true
    → Weak g (from_list p.1) seed a
    → Weak g (from_list p.1) seed b
    → (a ≡ b) ⊎ InOneCohort st.constraints.cohorts a b
component-InOneCohort g st p seed a b (cs, are, pushed) known to_a to_b =
    let (i, c, at, seed_in) = are.covered seed known in
    let (_, _, sorted, exact) = are.one_class i c at in
    let from_first = (exact seed).0 seed_in in
    let a_in = (exact a).1 (Weak-trans from_first to_a) in
    let b_in = (exact b).1 (Weak-trans from_first to_b) in
    elim (dec_lt 1 (length c.members)) [
      | yes large ↦
          let (k, cohort) = get_elem?-of_In st.constraints.cohorts (
            All_at (λ d. 1 < length d.members → In d.members st.constraints.cohorts) cs pushed
              (get_elem?-In cs i at) large) in
          inr (k, c.members, cohort, a_in, b_in)
      | no small ↦ inl (only_one c.members a b (omega arith) a_in b_in)
    ]

module _ (g : RouteGraph) (domains : List (Text × List Text)) (cohorts : List (List Text))
    (classes : All (IsCohort g domains) cohorts) where
  cohort-Joint :
      (cohort : List Text) (a b : Text)
      → In cohort cohorts
      → contains a cohort ≡ true
      → contains b cohort ≡ true
      → Joint g domains a b
  cohort-Joint cohort a b i m n =
      let (_, (domain, order, seed, of_domain, seed_in, exact)) =
        All_at (IsCohort g domains) cohorts classes i in
      (domain, order, seed, of_domain, seed_in, (exact a).0 m, (exact b).0 n)

  Need-Carries :
      (h : RouteGraph)
      → add_cliques g cohorts ≡ Commitment.ok h
      → {a t : Text} → Need h a t
      → Carries g domains a t
  Need-Carries h e {a} {t} (Need.consumed k) =
      consumed (subst (λ m. contains t (targets m a) ≡ true) (add_cliques-consumes g cohorts h e) k)
  Need-Carries h e {a} {t} (Need.emitted k) = elim (Emits-of_add_cliques g cohorts h a t e k) [
    | inl edge ↦ emitted edge
    | inr (cohort, i, m, n) ↦ joint (cohort-Joint cohort a t i m n)
  ]
  Need-Carries h e {a} {t} (Need.inherited {b = b} k n) =
      let rest = Need-Carries h e n in
      elim (Emits-of_add_cliques g cohorts h a b e k) [
        | inl edge ↦ by_emit edge rest
        | inr (cohort, i, m, n') ↦ by_joint (cohort-Joint cohort a b i m n') rest
      ]

  Shown-Direct : (a x : Text) → Shown g cohorts a x → Direct g domains a x
  Shown-Direct a x (inl k) = inl k
  Shown-Direct a x (inr (i, cohort, f, m, inl n)) =
      inr (inl (cohort-Joint cohort a x (get_elem?-In cohorts i f) m n))
  Shown-Direct a x (inr (i, cohort, f, m, inr (b, n, k))) =
      inr (inr (b, cohort-Joint cohort a b (get_elem?-In cohorts i f) m n, k))

  -- The nodes of a minimal plan are for actors that are carried.
  pub IsMinimal-Carries :
      (families : List (List Text)) (plan : CommitmentPlan) (h : RouteGraph)
      → IsMinimal g (record { families = families; cohorts = cohorts }) plan
      → add_cliques g cohorts ≡ Commitment.ok h
      → (a : Text) (cut : Cut) (p : NodePath) → IsActor g a
      → get a plan.cuts ≡ some cut
      → contains p cut ≡ true
      → (x : Text) × ((x ≡ a) ⊎ Carries g domains a x)
        × IsFor plan.forest families (Direct g domains a) x p
  IsMinimal-Carries families plan h minimal e a cut p known at m =
      let (x, concern, is) = minimal h a cut p e known at m in
      (
        x,
        elim concern [ inl n ↦ inr (Need-Carries h e n) | inr same ↦ inl same ],
        IsFor-map plan.forest families (Shown g cohorts a) (Direct g domains a) x p (Shown-Direct a)
            is,
      )
