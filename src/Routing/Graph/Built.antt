-- ===== src/Routing/Graph/Built.antt =====
-- Whatever sequence of operations builds a route graph, its sets and maps read as the relations that
-- the calls describe.
use argent.Base.{
  Text, ◌≡◌, Bool, true, false, not, ◌&&◌, ◌||◌, Option, none, some, List, [], ◌∷◌, arith,
  Option-cases, Bool-cases, inl, inr, refl,
}
use argent.Collections.Order.{eqb, bytes_ord}
use argent.Collections.BTreeSet.{contains, contains-insert, is_subset}
use argent.Routing.Graph.{
  RouteGraph, empty_graph, targets, add_actor, add_emit, add_consume, add_emit_clique,
}
use argent.Routing.Graph.Build.{
  IsWellFormed, empty_graph-IsWellFormed, add_actor-IsWellFormed, add_emit-IsWellFormed,
  add_consume-IsWellFormed, add_emit_clique-IsWellFormed, add_emit_edges, add_consume_edges,
  add_emit_clique_edges, two_inserts,
}

-- A call of a client.
pub data Operation : Type 0 where
  actor : Text → Operation
  emit consume : Text → Text → Operation
  clique : List Text → Operation

-- A failed assertion is `none`.
abbrev pub perform : RouteGraph → Operation → Option RouteGraph
perform g (actor a) = some (add_actor g a)
perform g (emit s t) = some (add_emit g s t)
perform g (consume s t) = some (add_consume g s t)
perform g (clique subset) = add_emit_clique g subset

abbrev pub perform_all : RouteGraph → List Operation → Option RouteGraph
perform_all g [] = some g
perform_all g (op ∷ ops) = elim (perform g op) [ none ↦ none | some h ↦ perform_all h ops ]

-- The graph as relations, without an order and without maps.
pub record Relations : Type 0 where
  pub is_actor : Text → Bool
  pub emits : Text → Text → Bool
  pub consumes : Text → Text → Bool

abbrev pub no_relations : Relations
no_relations = record { is_actor = λ a. false; emits = λ a b. false; consumes = λ a b. false }

abbrev pub all_actors : Relations → List Text → Bool
all_actors r [] = true
all_actors r (a ∷ rest) = r.is_actor a && all_actors r rest

-- The same calls, on the relations.
abbrev pub describe : Relations → Operation → Option Relations
describe r (actor a) = some (record r { is_actor = λ x. eqb x a || r.is_actor x })
describe r (emit s t) = some (record r {
  is_actor = λ x. eqb x t || (eqb x s || r.is_actor x);
  emits = λ a b. (eqb a s && eqb b t) || r.emits a b;
})
describe r (consume s t) = some (record r {
  is_actor = λ x. eqb x t || (eqb x s || r.is_actor x);
  consumes = λ a b. (eqb a s && eqb b t) || r.consumes a b;
})
describe r (clique subset) = elim (all_actors r subset) [
  | true ↦ some (record r {
    emits = λ a b. (contains a subset && (not (eqb b a) && contains b subset)) || r.emits a b;
  })
  | false ↦ none
]

abbrev pub describe_all : Relations → List Operation → Option Relations
describe_all r [] = some r
describe_all r (op ∷ ops) = elim (describe r op) [ none ↦ none | some q ↦ describe_all q ops ]

-- A well-formed graph that reads as the relations.
pub record Represents (g : RouteGraph) (r : Relations) : Type 0 where
  pub well_formed : IsWellFormed g
  pub actors_lem : (a : Text) → contains a g.actors ≡ r.is_actor a
  pub emits_lem : (a b : Text) → contains b (targets g.emits a) ≡ r.emits a b
  pub consumes_lem : (a b : Text) → contains b (targets g.consumes a) ≡ r.consumes a b

-- Both fail, or both succeed, and the graph represents the relations.
pub data Refines : Option RouteGraph → Option Relations → Type 0 where
  refused : Refines none none
  built : {g : RouteGraph} {r : Relations} → Represents g r → Refines (some g) (some r)

is_subset-Represents :
    (g : RouteGraph) (r : Relations) (xs : List Text)
    → Represents g r
    → is_subset xs g.actors ≡ all_actors r xs
is_subset-Represents g r [] h = refl
is_subset-Represents g r (x ∷ xs) h = ground (arith, is_subset-Represents g r xs h, h.actors_lem x)

add_emit_clique-Refines :
    (g : RouteGraph) (r : Relations) (subset : List Text)
    → Represents g r
    → Refines (add_emit_clique g subset) (describe r (clique subset))
unfolding add_emit_clique
add_emit_clique-Refines g r subset h =
    let same = is_subset-Represents g r subset h in
    elim (Bool-cases (all_actors r subset)) [
      | inr denied ↦
          let failed : add_emit_clique g subset ≡ none = ground arith in
          rw (failed, denied, describe) refused
      | inl granted ↦ elim (Option-cases (add_emit_clique g subset)) [
        | inl failed ↦ absurd (ground arith)
        | inr (next, e) ↦
            let kept = add_emit_clique_edges g subset next [] [] e in
            rw (e, granted, describe)
              (built (record {
                well_formed = add_emit_clique-IsWellFormed g subset next h.well_formed e;
                actors_lem = λ a. ground (arith, kept.0, h.actors_lem a);
                emits_lem = λ a b.
                    ground (arith, add_emit_clique_edges g subset next a b e, h.emits_lem a b);
                consumes_lem = λ a b. ground (arith, kept.1, h.consumes_lem a b);
              }))
      ]
    ]

perform-Refines :
    (g : RouteGraph) (r : Relations) (op : Operation)
    → Represents g r
    → Refines (perform g op) (describe r op)
unfolding add_actor add_emit add_consume
perform-Refines g r (actor a) h = built (record {
  well_formed = add_actor-IsWellFormed g a h.well_formed;
  actors_lem = λ x. ground (arith, contains-insert x a g.actors, h.actors_lem x);
  emits_lem = h.emits_lem;
  consumes_lem = h.consumes_lem;
})
perform-Refines g r (emit s t) h = built (record {
  well_formed = add_emit-IsWellFormed g s t h.well_formed;
  actors_lem = λ x. ground (arith, two_inserts s t x g.actors, h.actors_lem x);
  emits_lem = λ a b. ground (arith, add_emit_edges g s t a b, h.emits_lem a b);
  consumes_lem = h.consumes_lem;
})
perform-Refines g r (consume s t) h = built (record {
  well_formed = add_consume-IsWellFormed g s t h.well_formed;
  actors_lem = λ x. ground (arith, two_inserts s t x g.actors, h.actors_lem x);
  emits_lem = h.emits_lem;
  consumes_lem = λ a b. ground (arith, add_consume_edges g s t a b, h.consumes_lem a b);
})
perform-Refines g r (clique subset) h = add_emit_clique-Refines g r subset h

Refines-bind :
    (o : Option RouteGraph) (q : Option Relations) (f : RouteGraph → Option RouteGraph)
    (k : Relations → Option Relations)
    → Refines o q
    → ((g : RouteGraph) (r : Relations) → Represents g r → Refines (f g) (k r))
    → Refines (elim o [ none ↦ none | some g ↦ f g ]) (elim q [ none ↦ none | some r ↦ k r ])
Refines-bind none none f k refused next = refused
Refines-bind none (some r) f k h next = elim h [ ]
Refines-bind (some g) none f k h next = elim h [ ]
Refines-bind (some g) (some r) f k (built h) next = next g r h

perform_all_from-Refines :
    (ops : List Operation) (g : RouteGraph) (r : Relations)
    → Represents g r
    → Refines (perform_all g ops) (describe_all r ops)
perform_all_from-Refines [] g r h = built h
perform_all_from-Refines (op ∷ ops) g r h =
    Refines-bind (perform g op) (describe r op) (λ g'. perform_all g' ops)
      (λ r'. describe_all r' ops) (perform-Refines g r op h) (perform_all_from-Refines ops)

-- Any sequence of add_actor, add_emit, add_consume and add_emit_clique, from the empty graph, fails
-- exactly if the same calls on relations do, where a clique needs members that are actors; if not, it
-- builds a well-formed graph that reads as the relations.
pub perform_all-Refines :
    (ops : List Operation) → Refines (perform_all empty_graph ops) (describe_all no_relations ops)
perform_all-Refines ops = perform_all_from-Refines ops empty_graph no_relations (record {
  well_formed = empty_graph-IsWellFormed;
  actors_lem = λ a. refl;
  emits_lem = λ a b. refl;
  consumes_lem = λ a b. refl;
})
