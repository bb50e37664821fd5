-- ===== src/Routing/PlanTests.antt =====
-- Runs of components and route_plan on the inputs of the unit tests under src/routing, and instances
-- of the theorems.
use argent.Base.{arith, Text, ◌≡◌, refl, ◌⊎◌, true, some, List, [], ◌∷◌, bytes, subst}
use argent.Collections.Order.{eqb_iff, bytes_ord}
use argent.Collections.BTreeSet.{contains, is_subset}
use argent.Routing.Graph.{RouteGraph, empty_graph, add_actor, add_emit, add_consume}
use argent.Routing.Graph.Build.{
  IsWellFormed, empty_graph-IsWellFormed, add_actor-IsWellFormed, add_emit-IsWellFormed,
  add_consume-IsWellFormed, all-contains,
}
use argent.Routing.Components.{Component, components}
use argent.Routing.Components.Classes.{AreComponents}
use argent.Routing.Components.Correct.{components_correct}
use argent.Routing.Forest.{leaf, branch, nil, cons, Cut}
use argent.Routing.RoutePlan.{RoutePlanError, SelectorRequirement}
use argent.Routing.RoutePlan.Prefix.{IsSelectorError}
use argent.Routing.RoutePlan.Families.{RoutePlan, ok, err, route_plan}
use argent.Routing.RoutePlan.Loops.{AreDomains}
use argent.Routing.RoutePlan.Promises.{IsRoutePlan}
use argent.Routing.RoutePlan.Correct.{route_plan_total}

abbrev gate_graph : RouteGraph
gate_graph =
    add_consume
      (add_emit
        (add_emit
          (add_emit (add_emit (add_actor empty_graph (bytes "Zed")) (bytes "Knight") (bytes "Mux"))
            (bytes "Mux") (bytes "Pawn"))
          (bytes "Player") (bytes "Mux"))
        (bytes "Mux") (bytes "Settle"))
      (bytes "Zed") (bytes "Pawn")

gate_graph-IsWellFormed : IsWellFormed gate_graph
gate_graph-IsWellFormed = add_consume-IsWellFormed _ (bytes "Zed") (bytes "Pawn") (
    add_emit-IsWellFormed _ (bytes "Mux") (bytes "Settle") (
      add_emit-IsWellFormed _ (bytes "Player") (bytes "Mux") (
        add_emit-IsWellFormed _ (bytes "Mux") (bytes "Pawn") (
          add_emit-IsWellFormed _ (bytes "Knight") (bytes "Mux")
            (add_actor-IsWellFormed empty_graph (bytes "Zed") empty_graph-IsWellFormed)))))

abbrev gate_domain : List Text
gate_domain = bytes "Knight" ∷ bytes "Mux" ∷ bytes "Pawn" ∷ bytes "Zed" ∷ []

-- components_use_weak_domain_connectivity_and_full_graph_inputs
gate_components :
    components gate_graph gate_domain
    ≡ some (
        record {
          members = bytes "Knight" ∷ bytes "Mux" ∷ bytes "Pawn" ∷ [];
          gates = bytes "Mux" ∷ [];
        }
        ∷ record { members = bytes "Zed" ∷ []; gates = [] }
        ∷ [])
unfolding components add_actor add_emit add_consume
gate_components = refl

gate_domain-known : is_subset gate_domain gate_graph.actors ≡ true
unfolding add_actor add_emit add_consume
gate_domain-known = refl

components_correct_example :
    (cs : List Component) × (components gate_graph gate_domain ≡ some cs)
    × AreComponents gate_graph gate_domain cs
components_correct_example =
    components_correct gate_graph gate_domain gate_graph-IsWellFormed
      (λ x h. all-contains gate_domain gate_graph.actors x gate_domain-known h)

abbrev selector_graph : RouteGraph
selector_graph =
    add_emit
      (add_emit
        (add_emit (add_emit empty_graph (bytes "Player") (bytes "Mux")) (bytes "Mux") (bytes "A"))
        (bytes "Mux") (bytes "B"))
      (bytes "A") (bytes "C")

selector_graph-IsWellFormed : IsWellFormed selector_graph
selector_graph-IsWellFormed = add_emit-IsWellFormed _ (bytes "A") (bytes "C") (
    add_emit-IsWellFormed _ (bytes "Mux") (bytes "B") (
      add_emit-IsWellFormed _ (bytes "Mux") (bytes "A")
        (add_emit-IsWellFormed _ (bytes "Player") (bytes "Mux") empty_graph-IsWellFormed)))

abbrev state_order : List Text
state_order = bytes "Mux" ∷ bytes "A" ∷ bytes "B" ∷ bytes "C" ∷ []

abbrev player_order : List Text
player_order = bytes "Player" ∷ []

abbrev state_domains : List (Text × List Text)
state_domains = (bytes "PlayerState", player_order) ∷ (bytes "State", state_order) ∷ []

abbrev state_selectors : List SelectorRequirement
state_selectors =
    record { domain = bytes "State"; source = bytes "Mux"; variants = bytes "B" ∷ bytes "A" ∷ [] }
    ∷ []

abbrev state_cut : Cut
state_cut = (0 ∷ 0 ∷ []) ∷ (0 ∷ 1 ∷ []) ∷ (0 ∷ 2 ∷ []) ∷ (1 ∷ []) ∷ []

-- selector_defines_an_ordered_prefix_and_keeps_the_gate_direct
selector_plan :
    route_plan selector_graph state_domains state_selectors
    ≡ ok (record {
      families =
          record {
            domain = bytes "State";
            rep = bytes "Mux";
            members = state_order;
            gates = bytes "Mux" ∷ [];
            table = bytes "B" ∷ bytes "A" ∷ bytes "C" ∷ [];
          }
          ∷ [];
      commitments = record {
        forest = record {
          roots =
              cons
                (branch
                  (cons (leaf (bytes "B")) (cons (leaf (bytes "A")) (cons (leaf (bytes "C")) nil))))
                (cons (leaf (bytes "Mux")) (cons (leaf (bytes "Player")) nil));
        };
        cuts =
            (bytes "A", state_cut)
            ∷ (bytes "B", state_cut)
            ∷ (bytes "C", state_cut)
            ∷ (bytes "Mux", state_cut)
            ∷ (bytes "Player", (0 ∷ []) ∷ (1 ∷ []) ∷ [])
            ∷ [];
      };
    })
unfolding route_plan add_emit
selector_plan = refl

state_order-known : is_subset state_order selector_graph.actors ≡ true
unfolding add_emit
state_order-known = refl

player_order-known : is_subset player_order selector_graph.actors ≡ true
unfolding add_emit
player_order-known = refl

state_domains-AreDomains : AreDomains selector_graph state_domains
state_domains-AreDomains = record {
  distinct =
      ((tt, tt), (((refl, (refl, (refl, tt))), ((refl, (refl, tt)), ((refl, tt), (tt, tt)))), tt));
  known = (
    λ x h. all-contains player_order selector_graph.actors x player_order-known h,
    (λ x h. all-contains state_order selector_graph.actors x state_order-known h, tt),
  );
  disjoint = ((λ x m n. no_player x m n, tt), (tt, tt));
}
  where
    no_player : (x : Text) → contains x player_order ≡ true → contains x state_order ≡ true → ⊥
    no_player x m n =
        let e : x ≡ bytes "Player" = (eqb_iff x (bytes "Player")).0 (ground arith) in
        cc (subst (λ y. contains y state_order ≡ true) e n)

route_plan_total_example :
    ((x : RoutePlanError) × (route_plan selector_graph state_domains state_selectors ≡ err x)
      × IsSelectorError x)
    ⊎ ((plan : RoutePlan) × (route_plan selector_graph state_domains state_selectors ≡ ok plan)
        × IsRoutePlan selector_graph state_domains plan)
route_plan_total_example =
    route_plan_total selector_graph state_domains state_selectors selector_graph-IsWellFormed
      state_domains-AreDomains
