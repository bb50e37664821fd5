-- ===== src/Routing/RoutePlan/Correct.antt =====
-- src/routing/plan.rs: `route_plan` fails only for a selector, and what it returns is a plan.
use argent.Base.{
  Text, ℕ, zero, suc, ◌+◌, ◌≤◌, ◌<◌, ◌≡◌, ◌≢◌, refl, ◌⊎◌, inl, inr, Bool, true, ◌||◌, some, List,
  [], ◌∷◌, ◌++◌, All, All_at, In, arith, length, get_elem?, get_elem?-of_In, get_elem?-In,
  List-cases, subst, Bool-cases, ap,
}
use argent.Base as Base
use argent.Collections.Order.{bytes_ord}
use argent.Collections.BTreeSet.{contains-extend}
use argent.Collections.BTreeMap.{get}
use argent.Routing.Graph.{RouteGraph}
use argent.Routing.Graph.Build.{IsWellFormed}
use argent.Routing.Commitment.Plan.Correct.{validated-IsPlan}
use argent.Routing.RoutePlan.{SelectorRequirement, RoutePlanError, validate_selector_requirements}
use argent.Routing.RoutePlan.Selectors.{validate_selector_requirements_iff}
use argent.Routing.RoutePlan.Prefix.{IsSelectorError, validate-IsSelectorError}
use argent.Routing.RoutePlan.Groups.{Apart, validate_families-ok, validate_cohorts-ok, IsGroup}
use argent.Routing.RoutePlan.Families.{
  RoutePlan, Inferred, ok, err, plan_domains, nothing_inferred, route_plan,
}
use argent.Routing.RoutePlan.Inferred.{Good}
use argent.Routing.RoutePlan.Loops.{AreDomains, Ready, plan_domains-Planned}
use argent.Routing.Commitment.Plan.Parts.{add_cliques-IsWellFormed}
use argent.Routing.RoutePlan.Promises.{Joint, IsRoutePlan}
use argent.Routing.RoutePlan.Carried.{component-InOneCohort, IsMinimal-Carries}

Good-nothing :
    (g : RouteGraph) (domains : List (Text × List Text)) → Good g domains [] nothing_inferred
Good-nothing g domains = record {
  families_ok = (tt, tt);
  cohorts_ok = (tt, tt);
  families_in = tt;
  cohorts_in = tt;
  classes = tt;
  shapes = tt;
  same_tables = refl;
}

nothing_used : (ps : List (Text × List Text)) → All (λ p. Apart [] p.1) ps
nothing_used [] = tt
nothing_used (p ∷ ps) = (λ x m n. cc, nothing_used ps)

-- On a well-formed graph, for domains that name its actors without repetition and share none,
-- `route_plan` does not panic and does not infer constraints that the planner refuses: it fails with
-- an error of a selector requirement, or returns a plan. Every family of a plan belongs to a domain,
-- is represented by a member, and has a table of at least two different members. The commitments are
-- a plan for constraints with those tables as families and the components of several actors as cohorts;
-- a component holds the actors of a domain that emit edges inside it connect, in whatever direction.
-- The cut of the target of every emit edge can be derived from that of the source, and the members of a
-- component have the same cut. Every node of a cut is for the actor of the cut or for one that it
-- carries: one that it consumes or emits, a member of its component, or one that these members and the
-- actors it emits carry. A leaf of the family of such an actor is selected only if the actor of the cut
-- consumes that actor, or it is a member of the component or consumed by one.
pub route_plan_total :
    (g : RouteGraph) (domains : List (Text × List Text)) (selectors : List SelectorRequirement)
    → IsWellFormed g
    → AreDomains g domains
    → ((x : RoutePlanError) × (route_plan g domains selectors ≡ err x) × IsSelectorError x)
      ⊎ ((plan : RoutePlan) × (route_plan g domains selectors ≡ ok plan)
          × IsRoutePlan g domains plan)
unfolding route_plan
route_plan_total g domains selectors w are =
    result (validate_selector_requirements domains selectors) refl
  where
    inferred :
        validate_selector_requirements domains selectors ≡ Base.ok tt
        → (st : Inferred) → plan_domains g selectors nothing_inferred domains ≡ ok st
        → (used : List Text) → Good g domains used st
        → All (Ready g st) domains
        → (plan : RoutePlan) × (route_plan g domains selectors ≡ ok plan)
          × IsRoutePlan g domains plan
    inferred valid st e used good ready =
        let (m, fs) = validate_families-ok g st.constraints.families good.families_ok in
        let (n, cs) = validate_cohorts-ok g st.constraints.cohorts good.cohorts_ok in
        let (plan, planned, is_plan, routed, minimal) =
          validated-IsPlan g st.constraints m n w fs cs in
        let (h, cliques, _, _) = add_cliques-IsWellFormed g st.constraints.cohorts w (λ i cohort at.
          (All_at (IsGroup g) st.constraints.cohorts good.cohorts_ok.0
            (get_elem?-In st.constraints.cohorts i at)).1) in
        let one_cohort = λ (a b : Text) (j : Joint g domains a b).
          let (domain, order, seed, of_domain, seed_in, to_a, to_b) = j in
          component-InOneCohort g st (domain, order) seed a b
            (All_at (Ready g st) domains ready of_domain)
            (ground (arith, contains-extend seed [] order)) to_a to_b in
        (
          record { families = st.families; commitments = plan },
          rw valid (rw e (rw planned refl)),
          record {
            families = good.shapes;
            constraints = st.constraints;
            tables_lem = good.same_tables;
            cohorts = good.classes;
            components_lem = one_cohort;
            planned = is_plan;
            routed = routed;
            minimal = rw good.same_tables at (
                IsMinimal-Carries g domains st.constraints.cohorts good.classes
                  st.constraints.families plan h minimal cliques);
            together = λ a b j. elim (one_cohort a b j) [
              | inl same ↦ ap (λ x. get x plan.cuts) same
              | inr (i, cohort, at, a_in, b_in) ↦ is_plan.shared i cohort at a b a_in b_in
            ];
          },
        )

    result :
        (r : Base.Result Base.Done RoutePlanError)
        → validate_selector_requirements domains selectors ≡ r
        → ((x : RoutePlanError) × (route_plan g domains selectors ≡ err x) × IsSelectorError x)
          ⊎ ((plan : RoutePlan) × (route_plan g domains selectors ≡ ok plan)
              × IsRoutePlan g domains plan)
    result (Base.err x) e = inl (x, rw e refl, validate-IsSelectorError domains selectors x e)
    result (Base.ok tt) e =
        elim (plan_domains-Planned g w domains selectors
          ((validate_selector_requirements_iff domains selectors).0 e) domains [] nothing_inferred
          (Good-nothing g domains) (λ p m. m) are (nothing_used domains)) [
            | inl (x, failed, s) ↦ inl (x, rw e (rw failed refl), s)
            | inr (st, done, (used, good), keep, ready) ↦ inr (inferred e st done used good ready)
          ]
