-- ===== src/Routing/Commitment/Plan/Due.antt =====
-- `commitment_plan`: the cut of an actor selects nothing but nodes of what the actor needs, of the
-- actor itself and of their families.
use argent.Base.{
  Text, ℕ, ◌≡◌, subst, ◌⊎◌, inl, inr, ◌↔◌, true, false, some, List, [], ◌∷◌, arith, get_elem?,
  Bool-cases, Option-cases,
}
use argent.Collections.Order.{eqb, eqb_iff, eqb_refl, nat_ord, bytes_ord}
use argent.Collections.BTreeSet
use argent.Collections.BTreeSet.{contains, contains-extend}
use argent.Collections.BTreeMap.{get}
use argent.Routing.Graph.{RouteGraph, Consumes, Emits, IsActor, targets}
use argent.Routing.Needs.Need.{Need, consumed, emitted, inherited}
use argent.Routing.Forest.{NodePath, Cut}
use argent.Routing.Commitment.{ok, expect}
use argent.Routing.Commitment.Groups.{IsIndex}
use argent.Routing.Commitment.Locations.{Building}
use argent.Routing.Commitment.Locations.Located.{Located}
use argent.Routing.Commitment.Plan.{
  Context, cut_for_needs, expose_actors, single_cut, exposed, cohort_cut,
}
use argent.Routing.Commitment.Plan.Serves.{expect_ok}
use argent.Routing.Commitment.Plan.Exposes.{expect-some}
use argent.Routing.Commitment.Plan.Origin.{Source}
use argent.Routing.Commitment.Plan.Provided.{apart, Leaf-node}
use argent.Routing.Commitment.Plan.Related.{
  IsRelated, cut_for_needs-IsRelated, expose_actors-IsRelated,
}

-- The exposed set of a cohort holds only what was there, and what the members consume.
exposed-all :
    (g : RouteGraph) (P : Text → Type 0) (acc members : List Text)
    → ((t : Text) → contains t acc ≡ true → P t)
    → ((b t : Text) → contains b members ≡ true → Consumes g b t → P t)
    → (t : Text) → contains t (exposed g acc members) ≡ true
    → P t
exposed-all g P acc [] old new t m = old t m
exposed-all g P acc (b ∷ members) old new t m =
    exposed-all g P (BTreeSet.extend acc (targets g.consumes b)) members
      (λ u k. elim (Bool-cases (contains u acc)) [
        | inl here ↦ old u here
        | inr other ↦
            new b u (ground (arith, eqb_refl b))
              (ground (arith, contains-extend u acc (targets g.consumes b)))
      ])
      (λ d u k. new d u (ground arith)) t m

-- The actor itself, and what it needs.
abbrev pub Concern : RouteGraph → Text → Text → Type 0
Concern h a x = Need h a x ⊎ (x ≡ a)

-- What the actor consumes, the members of its cohort, and what these consume.
abbrev pub Shown : RouteGraph → List (List Text) → Text → Text → Type 0
Shown g cohorts a x =
    Consumes g a x
    ⊎ ((i : ℕ) × (cohort : List Text) × (get_elem? cohorts i ≡ some cohort)
        × (contains a cohort ≡ true)
        × ((contains x cohort ≡ true) ⊎ ((b : Text) × (contains b cohort ≡ true) × Consumes g b x)))

module _ (c : Context) (st : Building) (all : List Text)
    (families : IsIndex c.graph c.constraints.families c.family_by_actor)
    (l : Located c.constraints.families c.family_by_actor all st)
    (at : c.locations
      ≡ record { actor_paths = st.actor_paths; family_paths = st.family_paths }) where
  one_leaf :
      (t u : Text) (p : NodePath)
      → get t c.locations.actor_paths ≡ some p
      → get u c.locations.actor_paths ≡ some p
      → t ≡ u
  one_leaf t u p e f =
      let first = Leaf-node c st all families l at t p e in
      let second = Leaf-node c st all families l at u p f in ground arith

  abbrev pub IsDue : (X Y : Text → Type 0) → Cut → Type 0
  IsDue = IsRelated c.family_by_actor c.locations

  needs-IsDue :
      (X Y : Text → Type 0) (xs : List Text) (cut : Cut)
      → ((x : Text) → contains x xs ≡ true → X x)
      → cut_for_needs xs c.family_by_actor c.locations ≡ ok cut
      → IsDue X Y cut
  needs-IsDue X Y xs cut every e =
      cut_for_needs-IsRelated c.family_by_actor c.locations c.constraints.families families.to_group
        (λ t i group f m. (families.of_group t i group f m).0) (apart c st all families l at)
        one_leaf X Y xs cut every e

  exposed-IsDue :
      (X Y : Text → Type 0) (xs : List Text) (first cut : Cut)
      → ((x : Text) → contains x xs ≡ true → X x × Y x)
      → IsDue X Y first
      → expose_actors first xs c.constraints.families c.family_by_actor c.locations ≡ ok cut
      → IsDue X Y cut
  exposed-IsDue X Y xs first cut every h e =
      expose_actors-IsRelated c.family_by_actor c.locations c.constraints.families families.to_group
        (λ t i group f m. (families.of_group t i group f m).0) (apart c st all families l at)
        one_leaf X Y xs first cut every h e

  -- What the computed needs of an actor hold satisfies the predicate.
  abbrev NeedsAll : (Text → Type 0) → Text → Type 0
  NeedsAll X a =
      (own : List Text) → get a c.actor_needs ≡ some own → (x : Text) → contains x own ≡ true → X x

  single_cut-IsDue :
      (X Y : Text → Type 0) (a : Text) (cut : Cut)
      → NeedsAll X a
      → ((x : Text) → Consumes c.graph a x → X x × Y x)
      → single_cut c a ≡ ok cut
      → IsDue X Y cut
  unfolding single_cut
  single_cut-IsDue X Y a cut needed reads h =
      let (own, e, h') = expect_ok (expect (get a c.actor_needs)) _ cut h in
      let (first, e', h'') = expect_ok (cut_for_needs own c.family_by_actor c.locations) _ cut h' in
      let due =
        needs-IsDue X Y own first (needed own (expect-some (get a c.actor_needs) own e)) e' in
      elim (Option-cases (get a c.graph.consumes)) [
        | inl none' ↦ let same : first ≡ cut = ground arith in subst (IsDue X Y) same due
        | inr (consumes, found) ↦
            exposed-IsDue X Y consumes first cut (λ x m. reads x (ground arith)) due (ground arith)
      ]

  cohort_cut-IsDue :
      (X Y : Text → Type 0) (a : Text) (rest : List Text) (cut : Cut)
      → NeedsAll X a
      → ((x : Text) → contains x (a ∷ rest) ≡ true → X x × Y x)
      → ((b x : Text) → contains b (a ∷ rest) ≡ true → Consumes c.graph b x → X x × Y x)
      → cohort_cut c (a ∷ rest) ≡ ok cut
      → IsDue X Y cut
  unfolding cohort_cut
  cohort_cut-IsDue X Y a rest cut needed members reads h =
      let (own, e, h') = expect_ok (expect (get a c.actor_needs)) _ cut h in
      let (first, e', h'') = expect_ok (cut_for_needs own c.family_by_actor c.locations) _ cut h' in
      let due =
        needs-IsDue X Y own first (needed own (expect-some (get a c.actor_needs) own e)) e' in
      exposed-IsDue X Y (exposed c.graph (a ∷ rest) (a ∷ rest)) first cut
        (exposed-all c.graph (λ x. X x × Y x) (a ∷ rest) (a ∷ rest) members reads) due h''

  module _ (cohorts : IsIndex c.graph c.constraints.cohorts c.cohort_by_actor) (h : RouteGraph)
      (exact : (a : Text)
        → IsActor c.graph a
        → (r : List Text) × (get a c.actor_needs ≡ some r)
          × ((t : Text) → (contains t r ≡ true) ↔ Need h a t))
      (joined : (i : ℕ) (cohort : List Text) (a b : Text)
        → get_elem? c.constraints.cohorts i ≡ some cohort
        → contains a cohort ≡ true
        → contains b cohort ≡ true
        → eqb b a ≡ false
        → Emits h a b)
      (reads : (a t : Text) → Consumes c.graph a t → Consumes h a t) where
    NeedsAll-Need : (a : Text) → IsActor c.graph a → NeedsAll (Need h a) a
    NeedsAll-Need a known own e x m =
        let (r, found, iff) = exact a known in
        let same : r ≡ own = ground arith in (iff x).0 (ground arith)

    -- What a member of the cohort needs, the actor needs.
    member-Need :
        (i : ℕ) (cohort : List Text) (a b x : Text)
        → get_elem? c.constraints.cohorts i ≡ some cohort
        → contains a cohort ≡ true
        → contains b cohort ≡ true
        → Need h b x
        → Need h a x
    member-Need i cohort a b x f m k n = elim (Bool-cases (eqb b a)) [
      | inl same ↦ subst (λ z. Need h z x) ((eqb_iff b a).0 same) n
      | inr other ↦ inherited (joined i cohort a b f m k other) n
    ]

    abbrev pub Due : Text → Cut → Type 0
    Due a = IsDue (Concern h a) (Shown c.graph c.constraints.cohorts a)

    pub Source-IsDue : (a : Text) (cut : Cut) → IsActor c.graph a → Source c a cut → Due a cut
    Source-IsDue a cut known (inl (alone, e)) =
        single_cut-IsDue (Concern h a) (Shown c.graph c.constraints.cohorts a) a cut
          (λ own f x m. inl (NeedsAll-Need a known own f x m))
          (λ x k. (inl (consumed (reads a x k)), inl k)) e
    Source-IsDue a cut known (inr (i, [], f, m, e)) = cc
    Source-IsDue a cut known (inr (i, first ∷ rest, f, m, e)) =
        let leads : contains first (first ∷ rest) ≡ true = ground (arith, eqb_refl first) in
        let first_known = (cohorts.of_group first i (first ∷ rest) f leads).1 in
        let of_member = member-Need i (first ∷ rest) a in
        let concern : (x : Text) → contains x (first ∷ rest) ≡ true → Concern h a x = λ x k.
          elim (Bool-cases (eqb x a)) [
            | inl same ↦ inr ((eqb_iff x a).0 same)
            | inr other ↦ inl (emitted (joined i (first ∷ rest) a x f m k other))
          ] in
        cohort_cut-IsDue (Concern h a) (Shown c.graph c.constraints.cohorts a) first rest cut
          (λ own g x k.
            inl (of_member first x f m leads (NeedsAll-Need first first_known own g x k)))
          (λ x k. (concern x k, inr (i, first ∷ rest, f, m, inl k)))
          (λ b x k r. (
            inl (of_member b x f m k (consumed (reads b x r))),
            inr (i, first ∷ rest, f, m, inr (b, k, r)),
          ))
          e
