-- ===== src/Routing/Commitment/Plan/Correct.antt =====
-- `commitment_plan` returns an error of the validation, or a plan.
use argent.Base.{
  Text, ℕ, ◌≡◌, refl, ◌⊎◌, inl, inr, true, some, List, arith, get_elem?, subst, sym, false,
}
use argent.Collections.Order.{nat_ord, bytes_ord, eqb}
use argent.Collections.BTreeSet.{contains}
use argent.Collections.BTreeMap.{get}
use argent.Routing.Graph.{RouteGraph, IsActor, Emits, targets}
use argent.Routing.Graph.Build.{IsWellFormed}
use argent.Routing.Forest.{Cut, NodePath}
use argent.Routing.Commitment.{
  CommitmentConstraints, CommitmentPlan, ConstraintError, Membership, ok, err, validate_families,
  validate_cohorts,
}
use argent.Routing.Commitment.Plan.{Context, commitment_plan, add_cliques}
use argent.Routing.Commitment.Plan.Shape.{forest}
use argent.Routing.Commitment.Plan.Minimal.{IsFor, Near-IsFor}
use argent.Routing.Needs.{Needs}
use argent.Routing.Needs.Need.{Need}
use argent.Routing.Transition.{CutTransition, cut_transition}
use argent.Routing.Transition.Derivable.{transition_iff}
use argent.Routing.Transition.Carried.{transition-IsCarriedOut}
use argent.Routing.Commitment.Locations.{Building}
use argent.Routing.Commitment.Plan.Parts.{add_cliques-consumes, add_cliques-Emits}
use argent.Routing.Commitment.Plan.Due.{IsDue, Concern, Shown, Source-IsDue}
use argent.Routing.Commitment.Plan.Routed.{emit-Derivable}
use argent.Routing.Commitment.Plan.Planned.{
  IsPlanned, planning, planned_from, validated-IsPlanned, passed, stopped, validated,
}
use argent.Routing.Commitment.Plan.Provided.{Covers-Reached}
use argent.Routing.Commitment.Plan.Serving.{Serves, Source-Serves}
use argent.Routing.Commitment.Plan.Promises.{IsPlan, IsRoute, IsRouted, IsMinimal}

module _ (g : RouteGraph) (k : CommitmentConstraints) (m n : Membership) (st : Building)
    (h : RouteGraph) (ns : Needs) (cuts : List (Text × Cut))
    (p : IsPlanned g k m n st h ns cuts) where
  abbrev context : Context
  context = planning g k m n st ns

  joined :
      (i : ℕ) (cohort : List Text) (a b : Text)
      → get_elem? k.cohorts i ≡ some cohort
      → contains a cohort ≡ true
      → contains b cohort ≡ true
      → eqb b a ≡ false
      → Emits h a b
  joined i cohort a b f u v apart =
      (add_cliques-Emits g k.cohorts h a b p.cliques).1 i cohort f u v apart

  serves :
      (a : Text) (cut : Cut)
      → IsActor g a
      → get a cuts ≡ some cut
      → Serves context st p.all p.families p.cohorts p.located refl h p.exact joined a cut
  serves a cut known at =
      Source-Serves context st p.all p.families p.cohorts p.located refl h p.exact joined a cut
        known (p.sourced a cut at)

  IsPlanned-IsPlan : IsPlan g k (planned_from st cuts)
  IsPlanned-IsPlan = record {
    covered = p.covered;
    shared = p.shared;
    reads = λ a t cut known at r. (serves a cut known at).0 t r;
    members = λ i cohort a b cut f u v at.
        (serves a cut (p.cohorts.of_group a i cohort f u).1 at).2 i cohort b f u v;
    reaches = λ h' a t cut e known at r.
        let cliques = p.cliques in
        let same : h' ≡ h = ground arith in
        Covers-Reached context st p.all p.families p.located refl t cut
          ((serves a cut known at).1 t (subst (λ z. Need z a t) same r));
  }

  due :
      (a : Text) (cut : Cut)
      → IsActor g a
      → get a cuts ≡ some cut
      → IsDue context st p.all p.families p.located refl (Concern h a) (Shown g k.cohorts a) cut
  due a cut known at =
      Source-IsDue context st p.all p.families p.located refl p.cohorts h p.exact joined
        (λ b t r.
          subst (λ z. contains t (targets z b) ≡ true)
            (sym (add_cliques-consumes g k.cohorts h p.cliques)) r)
        a cut known (p.sourced a cut at)

  IsPlanned-IsMinimal : IsMinimal g k (planned_from st cuts)
  IsPlanned-IsMinimal h' a cut path e known at i =
      let (x, concern, near) = (due a cut known at).due path i in
      let cliques = p.cliques in
      let same : h ≡ h' = ground arith in
      (
        x,
        subst (λ z. Concern z a x) same concern,
        Near-IsFor context st p.all p.families p.located refl (Shown g k.cohorts a) x path near,
      )

  IsPlanned-IsRouted : IsWellFormed g → IsRouted g (planned_from st cuts)
  unfolding cut_transition
  IsPlanned-IsRouted w s t edge =
      let (s_known, t_known) = w.emits_known s t edge in
      let (source, at_s, sorted, valid) = p.covered s s_known in
      let (target, at_t, sorted', valid') = p.covered t t_known in
      let every =
        emit-Derivable context st p.all p.families p.distinct p.located p.placed refl h s t
          (Shown g k.cohorts s) (Shown g k.cohorts t) source target
          ((add_cliques-Emits g k.cohorts h s t p.cliques).0 edge)
          (λ x needed. (serves s source s_known at_s).1 x needed) (due s source s_known at_s)
          (due t target t_known at_t) in
      let (moves, done) =
        (transition_iff (forest st.roots) source target sorted sorted' valid valid').1 every in
      (
        moves,
        record {
          found = rw (at_s, at_t, done) refl;
          source = source;
          target = target;
          source_lem = at_s;
          target_lem = at_t;
          carried_out =
              transition-IsCarriedOut (forest st.roots) source target moves sorted sorted' valid
                valid' done;
        },
      )

pub validated-IsPlan :
    (g : RouteGraph) (k : CommitmentConstraints) (m n : Membership)
    → IsWellFormed g
    → validate_families g k.families ≡ ok m
    → validate_cohorts g k.cohorts ≡ ok n
    → (plan : CommitmentPlan) × (commitment_plan g k ≡ ok plan)
      × IsPlan g k plan
      × IsRouted g plan
      × IsMinimal g k plan
validated-IsPlan g k m n w fs cs =
    let (st, h, ns, cuts, e, p) = validated-IsPlanned g k m n w fs cs in
    (
      planned_from st cuts,
      e,
      IsPlanned-IsPlan g k m n st h ns cuts p,
      IsPlanned-IsRouted g k m n st h ns cuts p w,
      IsPlanned-IsMinimal g k m n st h ns cuts p,
    )

-- `commitment_plan` returns an error of the validation, or a plan.
abbrev pub Planning : RouteGraph → CommitmentConstraints → Type 0
Planning g k =
    ((x : ConstraintError) × (commitment_plan g k ≡ err x))
    ⊎ ((plan : CommitmentPlan) × (commitment_plan g k ≡ ok plan)
        × IsPlan g k plan
        × IsRouted g plan
        × IsMinimal g k plan)

plan_cases : (g : RouteGraph) (k : CommitmentConstraints) → IsWellFormed g → Planning g k
plan_cases g k w = elim (validated g k) [
  | passed m n fs cs ↦ inr (validated-IsPlan g k m n w fs cs)
  | stopped x e from ↦ inl (x, e)
]

-- On a well-formed graph `commitment_plan` does not panic: it returns an error of the validation, or
-- a plan. In a plan every actor has an ordered and valid cut of the forest, and the members of a
-- cohort have the same one. The cut of an actor selects the leaves of the actors that it consumes and
-- of the members of its cohort, and for whatever it needs in the graph with clique edges it selects
-- the leaf or a node above.
pub commitment_plan_total :
    (g : RouteGraph) (k : CommitmentConstraints)
    → IsWellFormed g
    → ((x : ConstraintError) × (commitment_plan g k ≡ err x))
      ⊎ ((plan : CommitmentPlan) × (commitment_plan g k ≡ ok plan) × IsPlan g k plan)
commitment_plan_total g k w = elim (plan_cases g k w) [
  | inl failed ↦ inl failed
  | inr (plan, e, is_plan, _, _) ↦ inr (plan, e, is_plan)
]

-- In a plan of a well-formed graph, for every emit edge of the graph, `cut_transition` finds operations,
-- and these can be carried out on the cut of the source: `open` and then `pack` succeed in the order
-- given, and the last cut selects every node of the cut of the target.
pub cut_transition-emits :
    (g : RouteGraph) (k : CommitmentConstraints) (plan : CommitmentPlan) (s t : Text)
    → IsWellFormed g
    → commitment_plan g k ≡ ok plan
    → Emits g s t
    → (moves : CutTransition) × IsRoute plan s t moves
cut_transition-emits g k plan s t w e edge = elim (plan_cases g k w) [
  | inl (x, failed) ↦ absurd (ground arith)
  | inr (plan', e', _, routed, _) ↦
      let same : plan' ≡ plan = ground arith in subst (IsRouted g) same routed s t edge
]

-- In a plan of a well-formed graph, every node that the cut of an actor selects is for the actor itself
-- or for an actor that it needs in the graph with clique edges: it is the leaf of such an actor if that
-- is in no family, and otherwise the branch of its family or a leaf of the family. A leaf of the family
-- is selected only if the actor of the cut, or a member of its cohort, consumes the needed one, or the
-- needed one is a member of the cohort.
pub commitment_plan-IsFor :
    (g : RouteGraph) (k : CommitmentConstraints) (plan : CommitmentPlan) (h : RouteGraph) (a : Text)
    (cut : Cut) (p : NodePath)
    → IsWellFormed g
    → commitment_plan g k ≡ ok plan
    → add_cliques g k.cohorts ≡ ok h
    → IsActor g a
    → get a plan.cuts ≡ some cut
    → contains p cut ≡ true
    → (x : Text) × Concern h a x × IsFor plan.forest k.families (Shown g k.cohorts a) x p
commitment_plan-IsFor g k plan h a cut p w e cliques known at i = elim (plan_cases g k w) [
  | inl (x, failed) ↦ absurd (ground arith)
  | inr (plan', e', _, _, minimal) ↦
      let same : plan' ≡ plan = ground arith in
      subst (IsMinimal g k) same minimal h a cut p cliques known at i
]
