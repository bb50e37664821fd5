-- ===== src/Routing/RoutePlan/Steps.antt =====
-- src/routing/plan.rs: one step of the loops of `route_plan`, and the loop over the components.
use argent.Base.{
  Text, ℕ, ◌+◌, ◌≤◌, ◌<◌, ◌≡◌, ◌≢◌, refl, ◌⊎◌, inl, inr, Bool, true, false, ◌||◌, ltb, Option, none,
  some, ◌&&◌, List, [], ◌∷◌, ◌++◌, All, In, arith, length, lt→ltb, Bool-cases, Option-cases,
  List-cases, bind_ok, if◌then◌else◌, select, ◌↔◌,
}
use argent.Base as Base
use argent.Collections.BTreeSet.{from_list, contains}
use argent.Routing.Components.Classes.{Weak}
use argent.Collections.Order.{eqb_iff, bytes_ord}
use argent.Routing.Graph.{RouteGraph}
use argent.Routing.Components.{Component}
use argent.Routing.Components.Linked.{contains-select}
use argent.Routing.RoutePlan.{
  FamilyPlan, SelectorRequirement, RoutePlanError, selector_prefix_for_component, ordered_members,
}
use argent.Routing.RoutePlan.Selectors.{IsRequirement}
use argent.Routing.RoutePlan.Prefix.{
  IsSelectorError, NoRepeat, Within, selector_prefix_lem, prefix-IsSelectorError,
}
use argent.Routing.RoutePlan.Groups.{Apart, IsGroup}
use argent.Routing.RoutePlan.Table.{
  Within-at, Within-of, NoRepeat-select, IsTable, IsPrefix, family_table_lem,
}
use argent.Routing.RoutePlan.Families.{
  Inferred, ok, err, representative, family_table, add_family, push_cohort, push_family,
  plan_component,
}
use argent.Routing.RoutePlan.Inferred.{
  Good, IsClass, Good-family, Good-cohort, cohorts-kept, cohort-pushed,
}

-- The component is a group of actors of the domain, those that emit edges inside it connect to one of
-- them, and its gates are members.
pub record IsPart (g : RouteGraph) (actor_order : List Text) (c : Component) : Type 0 where
  pub group : IsGroup g c.members
  pub inside : (x : Text) → contains x c.members ≡ true → contains x actor_order ≡ true
  pub seed : Text
  pub seed_in : contains seed actor_order ≡ true
  pub exact : (x : Text) → (contains x c.members ≡ true) ↔ Weak g (from_list actor_order) seed x
  pub gates_in : (x : Text) → contains x c.gates ≡ true → contains x c.members ≡ true

module _ (order ms : List Text) where
  pub contains-ordered_members :
      (x : Text) → contains x (ordered_members order ms) ≡ (contains x order && contains x ms)
  unfolding ordered_members
  contains-ordered_members x = contains-select x ms order

  NoRepeat-ordered_members : NoRepeat order → NoRepeat (ordered_members order ms)
  unfolding ordered_members
  NoRepeat-ordered_members h = NoRepeat-select (λ x. contains x ms) order h

-- One of the members, or of the gates among them, represents the family.
representative_lem :
    (gates members : List Text)
    → Within members gates
    → members ≢ []
    → (rep : Text) × (representative gates members ≡ some rep) × (contains rep members ≡ true)
representative_lem (gate ∷ gates) members h ne = (gate, refl, h.0)
representative_lem [] (m ∷ members) h ne = (m, refl, ground (arith, eqb_iff m m))
representative_lem [] [] h ne = absurd (ne refl)

module _ (g : RouteGraph) (domains : List (Text × List Text)) (selectors : List SelectorRequirement)
    (requirements : All (IsRequirement domains) selectors) (domain : Text) (actor_order : List Text)
    (of_domain : In (domain, actor_order) domains) (distinct : NoRepeat actor_order) where
  -- The result of a step that used up the members of a component.
  abbrev pub Step : List Text → Inferred → Component → Inferred → Type 0
  Step used st c next =
      Good g domains (c.members ++ used) next
      × ((h : List Text) → In h st.constraints.cohorts → In h next.constraints.cohorts)
      × (1 < length c.members → In c.members next.constraints.cohorts)

  prefix-IsPrefix :
      (component : List Text) (prefix : Option (List Text))
      → ((x : Text) → contains x component ≡ true → contains x actor_order ≡ true)
      → selector_prefix_for_component domain component selectors ≡ Base.ok prefix
      → IsPrefix (ordered_members actor_order component) prefix
  prefix-IsPrefix component none inside h = tt
  prefix-IsPrefix component (some prefix) inside h =
      let (several, apart, within) =
        selector_prefix_lem domains domain component selectors prefix requirements h in
      record {
        several = several;
        distinct = apart;
        inside = Within-of (ordered_members actor_order component) prefix (λ x m.
            let k = Within-at component prefix x within m in
            ground (arith, contains-ordered_members actor_order component x, inside x k));
      }

  module _ (used : List Text) (st : Inferred) (c : Component) (good : Good g domains used st)
      (part : IsPart g actor_order c) (apart : Apart used c.members) where
    class : IsClass g domains c.members
    class = (domain, actor_order, part.seed, of_domain, part.seed_in, part.exact)

    members : List Text
    members = ordered_members actor_order c.members

    gates : List Text
    gates = ordered_members actor_order c.gates

    in_members : (x : Text) → (contains x members ≡ contains x c.members)
    unfolding members
    in_members x = ground (arith, contains-ordered_members actor_order c.members x, part.inside x)

    in_gates : Within members gates
    unfolding gates
    in_gates = Within-of members gates (λ x m.
        ground
          (arith, contains-ordered_members actor_order c.gates x, part.gates_in x, in_members x))

    members-ne : members ≢ []
    members-ne e = elim (List-cases c.members) [
      | inl empty ↦ part.group.0 empty
      | inr (a, rest, full) ↦
          let here : contains a c.members ≡ true = rw full (ground (arith, eqb_iff a a)) in
          let there : contains a members ≡ true = rw in_members here in cc (rw e at there)
    ]

    family : Text → List Text → FamilyPlan
    family rep table = record {
      domain = domain;
      rep = rep;
      members = members;
      gates = gates;
      table = table;
    }

    with_table :
        (rep : Text) (prefix : Option (List Text)) (table : List Text)
        → contains rep members ≡ true
        → IsPrefix members prefix
        → family_table prefix (length c.members) members gates ≡ some table
        → Step used st c (push_family (family rep table) (push_cohort c st))
    unfolding family
    with_table rep prefix table represented p h =
        let t : IsTable members table =
          family_table_lem prefix (length c.members) members gates table
            (unfold members in NoRepeat-ordered_members actor_order c.members distinct) p h in
        (
          Good-family g domains used st good c part.group apart class (family rep table)
              (record {
                order = actor_order;
                of_domain = of_domain;
                known =
                    Within-of actor_order members (λ x m. part.inside x (rw (← in_members x) m));
                direct = in_gates;
                represented = represented;
                table_lem = t;
              })
              (λ x m. rw (← in_members x) (Within-at members table x t.inside m)),
          cohorts-kept g domains used st good c part.group apart class,
          cohort-pushed g domains used st good c part.group apart class,
        )

    -- A step fails with an error of a selector, or keeps the constraints good.
    pub plan_component-Step :
        ((x : RoutePlanError) × (plan_component domain actor_order selectors st c ≡ err x)
          × IsSelectorError x)
        ⊎ ((next : Inferred) × (plan_component domain actor_order selectors st c ≡ ok next)
            × Step used st c next)
    unfolding plan_component members gates
    plan_component-Step =
        let (rep, chosen, represented) = representative_lem gates members in_gates members-ne in
        result rep chosen represented (selector_prefix_for_component domain c.members selectors)
          refl
      where
        found :
            (rep : Text)
            → representative gates members ≡ some rep
            → contains rep members ≡ true
            → (prefix : Option (List Text))
            → selector_prefix_for_component domain c.members selectors ≡ Base.ok prefix
            → (next : Inferred) × (plan_component domain actor_order selectors st c ≡ ok next)
              × Step used st c next
        found rep chosen represented prefix e =
            elim (Option-cases (family_table prefix (length c.members) members gates)) [
              | inl none' ↦ (
                push_cohort c st,
                rw chosen (rw e (unfold add_family in rw none' refl)),
                (
                  Good-cohort g domains used st good c part.group apart class,
                  cohorts-kept g domains used st good c part.group apart class,
                  cohort-pushed g domains used st good c part.group apart class,
                ),
              )
              | inr (table, made) ↦ (
                push_family (family rep table) (push_cohort c st),
                rw chosen (rw e (unfold add_family family in rw made refl)),
                with_table rep prefix table represented
                    (prefix-IsPrefix c.members prefix part.inside e) made,
              )
            ]

        result :
            (rep : Text)
            → representative gates members ≡ some rep
            → contains rep members ≡ true
            → (r : Base.Result (Option (List Text)) RoutePlanError)
            → selector_prefix_for_component domain c.members selectors ≡ r
            → ((x : RoutePlanError) × (plan_component domain actor_order selectors st c ≡ err x)
                × IsSelectorError x)
              ⊎ ((next : Inferred) × (plan_component domain actor_order selectors st c ≡ ok next)
                  × Step used st c next)
        result rep chosen represented (Base.ok prefix) e =
            inr (found rep chosen represented prefix e)
        result rep chosen represented (Base.err x) e =
            inl (x, rw chosen (rw e refl), prefix-IsSelectorError domain c.members selectors x e)
