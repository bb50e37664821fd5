-- ===== src/Routing/Commitment/Plan/Origin.antt =====
-- `commitment_plan`: every cut of the plan comes from the actor itself or from its cohort, and selects
-- and covers what the documentation asks for.
use argent.Base.{
  Text, ℕ, ◌≡◌, ap, ◌∙◌, subst, ◌⊎◌, inl, inr, true, none, some, List, [], ◌∷◌, arith, get_elem?,
  Bool-cases, Option-cases,
}
use argent.Collections.Order.{eqb, eqb_iff, nat_ord, bytes_ord}
use argent.Collections.BTreeSet
use argent.Collections.BTreeSet.{contains, contains-extend}
use argent.Collections.BTreeMap
use argent.Collections.BTreeMap.{get, contains_key, get-insert}
use argent.Routing.Graph.{RouteGraph, targets}
use argent.Routing.Forest.{Cut}
use argent.Routing.Commitment.{ok, ◌>>=◌, expect}
use argent.Routing.Commitment.Plan.{
  Context, single_cut, exposed, cohort_cut, share, plan_actor, plan_actors,
}
use argent.Routing.Commitment.Plan.Serves.{expect_ok}
use argent.Routing.Commitment.Plan.Exposes.{expect-some}
use argent.Routing.Commitment.Plan.Parts.{get-share}

module _ (c : Context) where
  -- Where the cut of an actor comes from.
  abbrev pub Source : Text → Cut → Type 0
  Source a cut =
      ((get a c.cohort_by_actor ≡ none) × (single_cut c a ≡ ok cut))
      ⊎ ((i : ℕ) × (cohort : List Text) × (get_elem? c.constraints.cohorts i ≡ some cohort)
          × (contains a cohort ≡ true)
          × (cohort_cut c cohort ≡ ok cut))

  abbrev pub Sourced : List (Text × Cut) → Type 0
  Sourced cuts = (a : Text) (cut : Cut) → get a cuts ≡ some cut → Source a cut

  plan_actor-Sourced :
      (x : Text) (cuts next : List (Text × Cut))
      → Sourced cuts
      → plan_actor c cuts x ≡ ok next
      → Sourced next
  unfolding plan_actor
  plan_actor-Sourced x cuts next s h = elim (Bool-cases (contains_key x cuts)) [
    | inl old ↦ let same : cuts ≡ next = ground arith in subst Sourced same s
    | inr new ↦ elim (Option-cases (get x c.cohort_by_actor)) [
      | inl alone ↦
          let h' : (single_cut c x >>= λ cut. ok (BTreeMap.insert x cut cuts)) ≡ ok next =
            rw (new, alone, plan_actor) at h in
          let (cut, e, done) = expect_ok (single_cut c x) _ next h' in
          let same : BTreeMap.insert x cut cuts ≡ next = ground arith in
          subst Sourced same (λ a d k. elim (Bool-cases (eqb a x)) [
            | inl same' ↦
                let here : cut ≡ d = ground (arith, get-insert a x cut cuts) in
                let a_x : a ≡ x = (eqb_iff a x).0 same' in
                inl (
                  ap (λ z. get z c.cohort_by_actor) a_x ∙ alone,
                  ap (single_cut c) a_x ∙ e ∙ ap ok here,
                )
            | inr other ↦ s a d (ground (arith, get-insert a x cut cuts))
          ])
      | inr (i, mine) ↦
          let h' : (expect (get_elem? c.constraints.cohorts i) >>= λ cohort.
          cohort_cut c cohort >>= λ cut. ok (share cut cohort cuts))
              ≡ ok next =
            rw (new, mine, plan_actor) at h in
          let (cohort, f, h'') = expect_ok (expect (get_elem? c.constraints.cohorts i)) _ next h' in
          let (cut, e, done) = expect_ok (cohort_cut c cohort) _ next h'' in
          let same : share cut cohort cuts ≡ next = ground arith in
          subst Sourced same (λ a d k. elim (Bool-cases (contains a cohort)) [
            | inl m ↦
                let here : cut ≡ d = ground (arith, get-share cut cohort cuts a) in
                inr (
                  i,
                  cohort,
                  expect-some (get_elem? c.constraints.cohorts i) cohort f,
                  m,
                  e ∙ ap ok here,
                )
            | inr other ↦ s a d (ground (arith, get-share cut cohort cuts a))
          ])
    ]
  ]

  pub plan_actors-Sourced :
      (xs : List Text) (cuts last : List (Text × Cut))
      → Sourced cuts
      → plan_actors c cuts xs ≡ ok last
      → Sourced last
  unfolding plan_actors
  plan_actors-Sourced [] cuts last s h =
      let same : cuts ≡ last = ground arith in subst Sourced same s
  plan_actors-Sourced (x ∷ xs) cuts last s h =
      let (next, e, more) = expect_ok (plan_actor c cuts x) _ last h in
      plan_actors-Sourced xs next last (plan_actor-Sourced x cuts next s e) more

-- The exposed set of a cohort holds its members, and what they consume.
pub exposed_kept :
    (g : RouteGraph) (acc members : List Text) (t : Text)
    → contains t acc ≡ true
    → contains t (exposed g acc members) ≡ true
exposed_kept g acc [] t m = m
exposed_kept g acc (x ∷ members) t m =
    exposed_kept g (BTreeSet.extend acc (targets g.consumes x)) members t
      (ground (arith, contains-extend t acc (targets g.consumes x)))

pub exposed_consumed :
    (g : RouteGraph) (acc members : List Text) (b t : Text)
    → contains b members ≡ true
    → contains t (targets g.consumes b) ≡ true
    → contains t (exposed g acc members) ≡ true
exposed_consumed g acc [] b t m k = cc
exposed_consumed g acc (x ∷ members) b t m k = elim (Bool-cases (contains b members)) [
  | inl later ↦ exposed_consumed g (BTreeSet.extend acc (targets g.consumes x)) members b t later k
  | inr last ↦
      let same : b ≡ x = ground (arith, eqb_iff b x) in
      let here : contains t (targets g.consumes x) ≡ true =
        subst (λ z. contains t (targets g.consumes z) ≡ true) same k in
      exposed_kept g (BTreeSet.extend acc (targets g.consumes x)) members t
        (ground (arith, contains-extend t acc (targets g.consumes x)))
]
