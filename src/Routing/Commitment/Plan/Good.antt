-- ===== src/Routing/Commitment/Plan/Good.antt =====
-- `commitment_plan`: the cut of an actor, or of a cohort, is computed, and it is in order and valid.
use argent.Base.{Text, ◌≡◌, inl, inr, true, some, List, ◌∷◌, arith, Option-cases}
use argent.Collections.Order.{eqb_refl, nat_ord, bytes_ord}
use argent.Collections.BTreeSet.{contains, IsSorted}
use argent.Collections.BTreeMap.{get}
use argent.Routing.Graph.{IsActor, Consumes}
use argent.Routing.Graph.Build.{IsWellFormed}
use argent.Routing.Forest.{Cut}
use argent.Routing.Commitment.{ok}
use argent.Routing.Commitment.Groups.{IsIndex}
use argent.Routing.Commitment.Locations.{Building}
use argent.Routing.Commitment.Locations.Located.{Located}
use argent.Routing.Commitment.Plan.{
  Context, cut_for_needs, expose_actors, single_cut, exposed, cohort_cut,
}
use argent.Routing.Commitment.Plan.Shape.{Shape}
use argent.Routing.Commitment.Plan.Cuts.{cut_for_needs-Shape, expose_actors-Shape}
use argent.Routing.Commitment.Plan.Parts.{Known, exposed-Known}

-- The cut is in order, and of the roots and leaves of the forest.
abbrev pub IsGood : Building → Cut → Type 0
IsGood st cut = IsSorted cut × Shape st.roots cut

module _ (c : Context) (st : Building) (all : List Text) (w : IsWellFormed c.graph)
    (families : IsIndex c.graph c.constraints.families c.family_by_actor)
    (l : Located c.constraints.families c.family_by_actor all st)
    (placed : (a : Text) → IsActor c.graph a → contains a all ≡ true)
    (at : c.locations ≡ record { actor_paths = st.actor_paths; family_paths = st.family_paths })
    (needed : (a : Text)
      → IsActor c.graph a
      → (r : List Text) × (get a c.actor_needs ≡ some r) × Known c.graph r) where
  needs_cut :
      (xs : List Text)
      → Known c.graph xs
      → (cut : Cut) × (cut_for_needs xs c.family_by_actor c.locations ≡ ok cut) × IsGood st cut
  needs_cut xs known =
      let (cut, e, s, shape) =
        cut_for_needs-Shape c.graph c.constraints.families c.family_by_actor families st all l
          placed xs known in
      (cut, rw at e, (s, shape))

  exposed_cut :
      (cut : Cut) (xs : List Text)
      → Known c.graph xs
      → IsGood st cut
      → (out : Cut) × (expose_actors cut xs c.constraints.families c.family_by_actor c.locations
          ≡ ok out)
        × IsGood st out
  exposed_cut cut xs known good =
      let (out, e, s, shape) =
        expose_actors-Shape c.graph c.constraints.families c.family_by_actor families st all l
          placed cut xs known good.0 good.1 in
      (out, rw at e, (s, shape))

  pub single_cut-IsGood :
      (a : Text) → IsActor c.graph a → (cut : Cut) × (single_cut c a ≡ ok cut) × IsGood st cut
  unfolding single_cut
  single_cut-IsGood a known =
      let (own, n, own_known) = needed a known in
      let (cut, e, good) = needs_cut own own_known in
      elim (Option-cases (get a c.graph.consumes)) [
        | inl none' ↦ (cut, rw (n, e, none'), good)
        | inr (consumes, found) ↦
            let (out, x, good') =
              exposed_cut cut consumes
                (λ t m.
                  let edge : Consumes c.graph a t = ground arith in (w.consumes_known a t edge).1)
                good in
            (out, rw n (rw e (rw found x)), good')
      ]

  pub cohort_cut-IsGood :
      (a : Text) (rest : List Text)
      → Known c.graph (a ∷ rest)
      → (cut : Cut) × (cohort_cut c (a ∷ rest) ≡ ok cut) × IsGood st cut
  unfolding cohort_cut
  cohort_cut-IsGood a rest known =
      let (own, n, own_known) = needed a (known a (ground (arith, eqb_refl a))) in
      let (cut, e, good) = needs_cut own own_known in
      let (out, x, good') =
        exposed_cut cut (exposed c.graph (a ∷ rest) (a ∷ rest))
          (exposed-Known c.graph (a ∷ rest) (a ∷ rest) w known) good in
      (out, rw n (rw e x), good')
