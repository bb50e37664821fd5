-- ===== src/Routing/Commitment/Plan/Serving.antt =====
-- `commitment_plan`: what the cut of an actor holds for the actor, wherever it comes from.
use argent.Base.{
  Text, ℕ, ◌≡◌, subst, inl, inr, ◌↔◌, true, false, none, some, List, [], ◌∷◌, arith, get_elem?,
  Bool-cases,
}
use argent.Collections.Order.{eqb, eqb_iff, eqb_refl, bytes_ord}
use argent.Collections.BTreeSet.{contains}
use argent.Collections.BTreeMap.{get}
use argent.Routing.Graph.{RouteGraph, Consumes, Emits, IsActor}
use argent.Routing.Needs.Need.{Need, inherited}
use argent.Routing.Forest.{Cut}
use argent.Routing.Commitment.{ok}
use argent.Routing.Commitment.Groups.{IsIndex}
use argent.Routing.Commitment.Locations.{Building}
use argent.Routing.Commitment.Locations.Located.{Located}
use argent.Routing.Commitment.Plan.{Context, single_cut, cohort_cut}
use argent.Routing.Commitment.Plan.Shape.{forest}
use argent.Routing.Commitment.Plan.Origin.{Source}
use argent.Routing.Commitment.Plan.Provided.{
  Selected, Leaf-Selected, IsCovered, single_cut-provides, cohort_cut-provides,
}

module _ (c : Context) (st : Building) (all : List Text)
    (families : IsIndex c.graph c.constraints.families c.family_by_actor)
    (cohorts : IsIndex c.graph c.constraints.cohorts c.cohort_by_actor)
    (l : Located c.constraints.families c.family_by_actor all st)
    (at : c.locations ≡ record { actor_paths = st.actor_paths; family_paths = st.family_paths })
    (h : RouteGraph)
    (exact : (a : Text)
      → IsActor c.graph a
      → (r : List Text) × (get a c.actor_needs ≡ some r)
        × ((t : Text) → (contains t r ≡ true) ↔ Need h a t))
    (joined : (i : ℕ) (cohort : List Text) (a b : Text)
      → get_elem? c.constraints.cohorts i ≡ some cohort
      → contains a cohort ≡ true
      → contains b cohort ≡ true
      → eqb b a ≡ false
      → Emits h a b) where
  -- The leaves of what the actor consumes, and of the members of its cohort, are selected, and
  -- whatever the actor needs is covered.
  abbrev pub Serves : Text → Cut → Type 0
  Serves a cut =
      ((t : Text) → Consumes c.graph a t → Selected (forest st.roots) cut t)
      × ((t : Text) → Need h a t → IsCovered c st all families l at t cut)
      × ((i : ℕ) (cohort : List Text) (b : Text)
          → get_elem? c.constraints.cohorts i ≡ some cohort
          → contains a cohort ≡ true
          → contains b cohort ≡ true
          → Selected (forest st.roots) cut b)

  single-Serves :
      (a : Text) (cut : Cut)
      → IsActor c.graph a
      → get a c.cohort_by_actor ≡ none
      → single_cut c a ≡ ok cut
      → Serves a cut
  single-Serves a cut known alone e =
      let (own, n, reads, covers) = single_cut-provides c st all families l at a cut e in
      let (r, n', x) = exact a known in
      let same : r ≡ own = ground arith in
      (
        λ t k. Leaf-Selected c st all families l at t cut (reads t k),
        λ t k. covers t (subst (λ z. contains t z ≡ true) same ((x t).1 k)),
        λ i cohort b f m k. absurd (ground (arith, cohorts.of_group a i cohort f m)),
      )

  cohort-Serves :
      (a first : Text) (rest : List Text) (i : ℕ) (cut : Cut)
      → get_elem? c.constraints.cohorts i ≡ some (first ∷ rest)
      → contains a (first ∷ rest) ≡ true
      → cohort_cut c (first ∷ rest) ≡ ok cut
      → Serves a cut
  cohort-Serves a first rest i cut f m e =
      let (own, n, members, reads, covers) =
        cohort_cut-provides c st all families l at first rest cut e in
      let leads : contains first (first ∷ rest) ≡ true = ground (arith, eqb_refl first) in
      let (r, n', x) = exact first (cohorts.of_group first i (first ∷ rest) f leads).1 in
      let same : r ≡ own = ground arith in
      let of_first = λ (t : Text) (k : Need h a t).
        let n : Need h first t = elim (Bool-cases (eqb a first)) [
          | inl s ↦ subst (λ z. Need h z t) ((eqb_iff a first).0 s) k
          | inr s ↦ inherited (joined i (first ∷ rest) first a f leads m s) k
        ] in
        n in
      (
        λ t k. Leaf-Selected c st all families l at t cut (reads a t m k),
        λ t k. covers t (subst (λ z. contains t z ≡ true) same ((x t).1 (of_first t k))),
        λ j cohort b f' m' k.
            let one = (cohorts.of_group a i (first ∷ rest) f m).0 in
            let two = (cohorts.of_group a j cohort f' m').0 in
            let equal : cohort ≡ first ∷ rest = ground arith in
            Leaf-Selected c st all families l at b cut
              (members b (subst (λ z. contains b z ≡ true) equal k)),
      )

  pub Source-Serves : (a : Text) (cut : Cut) → IsActor c.graph a → Source c a cut → Serves a cut
  Source-Serves a cut known (inl (alone, e)) = single-Serves a cut known alone e
  Source-Serves a cut known (inr (i, [], f, m, e)) = cc
  Source-Serves a cut known (inr (i, first ∷ rest, f, m, e)) =
      cohort-Serves a first rest i cut f m e
