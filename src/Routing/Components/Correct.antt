-- ===== src/Routing/Components/Correct.antt =====
-- `components` returns the weak emit components of the domain with their gates.
use argent.Base.{
  Text, ℕ, ◌≡◌, refl, ◌↔◌, inl, inr, true, false, not, ◌&&◌, ◌||◌, some, List, [], arith, none,
  get_elem?, Bool-cases, Option-cases, subst,
}
use argent.Collections.Order.{eqb, eqb_iff, bytes_ord}
use argent.Collections.BTreeSet.{contains, IsSorted}
use argent.Collections.BTreeMap.{get, contains_key}
use argent.Routing.Graph.{RouteGraph, targets, Emits, IsActor}
use argent.Routing.Graph.Build.{IsWellFormed, is_subset-of_known}
use argent.Routing.Components.{Component, Scan, Discovery, components, no_neighbors}
use argent.Routing.Components.Linked.{
  Scanned, scan_emits-Scanned, no_neighbors-HasRoom, targets-no_neighbors,
}
use argent.Routing.Components.Explored.{Walk, here, step, IsUndirected}
use argent.Routing.Components.Discovered.{Found, Found-nil, discover_all-Found}
use argent.Routing.Components.Gates.{
  assigned_to, gated, assign_gates_lem, members-gated, gates-gated,
}
use argent.Routing.Components.Classes.{Weak, alone, joined, AreComponents}
use argent.Routing.Components.Edges.{edge-eq-targets, outer-of_edge, edge-of_outer}

module _ (g : RouteGraph) (w : IsWellFormed g) (domain : List Text) (s : Scan)
    (sc : Scanned domain
      (record { neighbors = no_neighbors [] domain; gates = [] })
      s
      g.emits) where
  neighbor_lem :
      (x y : Text)
      → contains y (targets s.neighbors x) ≡ (
          contains x domain
          && contains y domain
          && not (eqb x y)
          && (contains y (targets g.emits x) || contains x (targets g.emits y)))
  neighbor_lem x y = ground (
    arith,
    sc.neighbors_lem x y,
    targets-no_neighbors [] domain x y (λ z. refl),
    edge-eq-targets g.emits x y w.emits_ordered,
    edge-eq-targets g.emits y x w.emits_ordered,
  )

  undirected : IsUndirected domain s.neighbors
  undirected = record {
    room = sc.room;
    inside = λ x y n. ground (arith, neighbor_lem x y);
    flip = λ x y n. ground (arith, neighbor_lem x y, neighbor_lem y x, eqb_iff x y, eqb_iff y x);
  }

  Walk-inside :
      {a x : Text} → contains a domain ≡ true → Walk s.neighbors a x → contains x domain ≡ true
  Walk-inside h here = h
  Walk-inside h (step {b} {c} v n) = ground (arith, neighbor_lem b c)

  Weak-of_Walk : {a x : Text} → Walk s.neighbors a x → Weak g domain a x
  Weak-of_Walk here = alone
  Weak-of_Walk (step {b} {c} v n) = joined (Weak-of_Walk v) (ground (arith, neighbor_lem b c))

  Walk-of_Weak : {a x : Text} → Weak g domain a x → Walk s.neighbors a x
  Walk-of_Weak alone = here
  Walk-of_Weak {a} (joined {b} {c} v l) = elim (Bool-cases (eqb b c)) [
    | inl same ↦ subst (Walk s.neighbors a) ((eqb_iff b c).0 same) (Walk-of_Weak v)
    | inr other ↦ step (Walk-of_Weak v) (ground (arith, neighbor_lem b c))
  ]

  module _ {d : Discovery} (f : Found domain s.neighbors undirected d)
      (all : (x : Text) → contains x domain ≡ true → contains_key x d.assigned ≡ true) where
    assigned_gate :
        (t : Text)
        → contains t s.gates ≡ true
        → (i : ℕ) × (c : Component) × (get t d.assigned ≡ some i) × (get_elem? d.found i ≡ some c)
    assigned_gate t h =
        let (r, out, e, inside) = edge-of_outer domain g.emits t (ground (arith, sc.gates_lem t)) in
        let key = all t inside in
        elim (Option-cases (get t d.assigned)) [
          | inl none' ↦ absurd (ground arith)
          | inr (i, found) ↦ let (c, at, m) = f.to_found t i found in (i, c, found, at)
        ]

    module _ (cs : List Component)
        (at : (j : ℕ)
          → get_elem? cs j ≡ (elim (get_elem? d.found j) [
            | none ↦ none
            | some c ↦ some (gated d.assigned s.gates j c)
          ])) where
      -- A component is one that was found, with its gates.
      origin :
          (i : ℕ) (c : Component)
          → get_elem? cs i ≡ some c
          → (b : Component) × (get_elem? d.found i ≡ some b)
            × (c ≡ gated d.assigned s.gates i b)
            × ((x : Text) → contains x c.members ≡ contains x b.members)
      origin i c e = elim (Option-cases (get_elem? d.found i)) [
        | inl none' ↦ absurd (ground (arith, at i))
        | inr (b, found) ↦
            let same : c ≡ gated d.assigned s.gates i b = ground (arith, at i) in
            (b, found, same, λ x. rw same (rw members-gated refl))
      ]

      class_lem :
          (i : ℕ) (c : Component)
          → get_elem? cs i ≡ some c
          → (a : Text) × (contains a domain ≡ true)
            × IsSorted c.members
            × ((x : Text) → (contains x c.members ≡ true) ↔ Weak g domain a x)
      class_lem i c e =
          let (b, found, same, members) = origin i c e in
          let (a, known, none', sorted, exact) = f.classes i b found in
          (
            a,
            known,
            rw same (rw members-gated sorted),
            λ x. (
              λ h. Weak-of_Walk ((exact x).0 (rw (← members x) h)),
              λ v. rw (members x) ((exact x).1 (Walk-of_Weak v)),
            ),
          )

      inbound_lem :
          (t : Text) (i : ℕ) (c : Component)
          → get_elem? cs i ≡ some c
          → (contains t c.gates ≡ true) ↔ (
              (contains t c.members ≡ true)
              × ((r : Text) × Emits g r t × (contains r c.members ≡ false)))
      inbound_lem t i c e =
          let (b, found, same, members) = origin i c e in
          let (a, known, empty, sorted, exact) = f.classes i b found in
          let gate : contains t c.gates ≡ (contains t s.gates && assigned_to d.assigned t i) =
            rw same (ground (arith, gates-gated d.assigned s.gates i b t, empty)) in
          let inside = λ (x : Text) (m : contains x c.members ≡ true).
            let k = Walk-inside known ((exact x).0 (rw (← members x) m)) in k in
          (
            λ h.
                let (r, out, edge', t_in) =
                  edge-of_outer domain g.emits t (ground (arith, sc.gates_lem t)) in
                let (j, b', assigned, at') = assigned_gate t (ground arith) in
                let m = f.to_found t j assigned in
                let j_eq : j ≡ i = ground arith in
                (
                  rw (members t) (ground (arith, m)),
                  (
                    r,
                    ground (arith, edge-eq-targets g.emits r t w.emits_ordered),
                    ground (arith, inside r),
                  ),
                ),
            λ (m, (r, emits, out)).
                let t_in = inside t m in
                elim (Bool-cases (contains r domain)) [
                  | inl r_in ↦
                      let v = (class_lem i c e).3 in
                      let reached = (v r).1 (joined ((v t).0 m) (t_in, r_in, inr emits)) in cc
                  | inr r_out ↦
                      let outside =
                        outer-of_edge domain g.emits r t r_out t_in
                          (ground (arith, edge-eq-targets g.emits r t w.emits_ordered)) in
                      let assigned = f.of_found t i b found (rw (← members t) m) in
                      ground (arith, sc.gates_lem t)
                ],
          )

      gated-AreComponents : AreComponents g domain cs
      gated-AreComponents = record {
        one_class = class_lem;
        covered = λ x h. elim (Option-cases (get x d.assigned)) [
          | inl none' ↦ absurd (ground (arith, all x h))
          | inr (i, found) ↦
              let (b, e, m) = f.to_found x i found in
              (i, gated d.assigned s.gates i b, ground (arith, at i), rw members-gated m)
        ];
        apart = λ x i j c k e e' m n.
            let (b, found, same, members) = origin i c e in
            let (b', found', same', members') = origin j k e' in
            ground (
              arith,
              f.of_found x i b found (rw (← members x) m),
              f.of_found x j b' found' (rw (← members' x) n),
            );
        inbound = inbound_lem;
      }

-- On a well-formed graph and a domain of its actors `components` returns, without a panic. Every
-- component is the ordered set of one class of actors that emit edges inside the domain connect when their direction is
-- ignored, every actor of the domain belongs to exactly one component, and the gates of a component
-- are exactly its members that some actor outside of it emits.
pub components_correct :
    (g : RouteGraph) (domain : List Text)
    → IsWellFormed g
    → ((x : Text) → contains x domain ≡ true → IsActor g x)
    → (cs : List Component) × (components g domain ≡ some cs) × AreComponents g domain cs
unfolding components
components_correct g domain w known =
    let (s, scanned, sc) =
      scan_emits-Scanned domain g.emits (record { neighbors = no_neighbors [] domain; gates = [] })
        (λ x h. ground (arith, no_neighbors-HasRoom [] domain x)) in
    let u = undirected g w domain s sc in
    let (d, discovered, f, all, keep) =
      discover_all-Found domain s.neighbors u (record { found = []; assigned = [] }) domain
        (Found-nil domain s.neighbors u) (λ x h. h) in
    let (cs, gates, at) =
      assign_gates_lem d.assigned s.gates d.found
        (λ t h. assigned_gate g w domain s sc f all t h) in
    (
      cs,
      rw (is_subset-of_known domain g.actors known) (rw scanned (rw discovered gates)),
      gated-AreComponents g w domain s sc f all cs at,
    )
