-- ===== src/Routing/Graph/Build.antt =====
-- src/routing/graph.rs: what the operations that build a graph keep and add.
use argent.Base.{
  Text, ◌≡◌, refl, ap, Bool, true, ◌&&◌, ◌||◌, not, some, List, [], ◌∷◌, arith, if◌then◌else◌,
  select,
}
use argent.Collections.Order.{eqb, eqb_iff, bytes_ord}
use argent.Collections.BTreeSet
use argent.Collections.BTreeSet.{
  contains, IsSorted, is_subset, contains-insert, contains-extend, insert-IsSorted,
}
use argent.Collections.BTreeMap
use argent.Collections.BTreeMap.{get, get-insert, keys, keys-insert}
use argent.Routing.Graph.{
  Relation, RouteGraph, empty_graph, targets, add_actor, relate, add_emit, add_consume, clique_row,
  clique_rows, add_emit_clique, Emits, Consumes, IsActor,
}

-- The actor set and the sources of the emit relation are in order, and both ends of every edge belong to it.
pub record IsWellFormed (g : RouteGraph) : Type 0 where
  pub ordered : IsSorted g.actors
  pub emits_ordered : IsSorted (keys g.emits)
  pub emits_known : (s t : Text) → Emits g s t → IsActor g s × IsActor g t
  pub consumes_known : (s t : Text) → Consumes g s t → IsActor g s × IsActor g t

keys-insert-IsSorted :
    (m : Relation) (s : Text) (ts : List Text)
    → IsSorted (keys m)
    → IsSorted (keys (BTreeMap.insert s ts m))
keys-insert-IsSorted m s ts h = rw keys-insert (insert-IsSorted s (keys m) h)

targets-insert :
    (m : Relation) (s j : Text) (ts : List Text)
    → targets (BTreeMap.insert s ts m) j ≡ (if eqb j s then ts else targets m j)
targets-insert m s j ts = ground (arith, get-insert j s ts m)

pub contains-relate :
    (m : Relation) (s t j x : Text)
    → contains x (targets (relate m s t) j) ≡ ((eqb j s && eqb x t) || contains x (targets m j))
contains-relate m s t j x = ground (
  arith,
  get-insert j s (BTreeSet.insert t (targets m s)) m,
  contains-insert x t (targets m s),
  eqb_iff j s,
)

pub empty_graph-IsWellFormed : IsWellFormed empty_graph
empty_graph-IsWellFormed = record {
  ordered = tt;
  emits_ordered = tt;
  emits_known = λ s t h. cc;
  consumes_known = λ s t h. cc;
}

-- Adding an isolated actor keeps the graph well formed.
pub add_actor-IsWellFormed :
    (g : RouteGraph) (a : Text) → IsWellFormed g → IsWellFormed (add_actor g a)
unfolding add_actor
add_actor-IsWellFormed g a w = record {
  ordered = insert-IsSorted a g.actors w.ordered;
  emits_ordered = w.emits_ordered;
  emits_known = λ s t h.
      ground
        (arith, w.emits_known s t h, contains-insert s a g.actors, contains-insert t a g.actors);
  consumes_known = λ s t h.
      ground
        (arith, w.consumes_known s t h, contains-insert s a g.actors, contains-insert t a g.actors);
}

-- The emit edges after `add_emit` are the old ones and the new one.
pub add_emit_edges :
    (g : RouteGraph) (s t a b : Text)
    → contains b (targets (add_emit g s t).emits a)
      ≡ ((eqb a s && eqb b t) || contains b (targets g.emits a))
unfolding add_emit
add_emit_edges g s t a b = contains-relate g.emits s t a b

pub add_consume_edges :
    (g : RouteGraph) (s t a b : Text)
    → contains b (targets (add_consume g s t).consumes a)
      ≡ ((eqb a s && eqb b t) || contains b (targets g.consumes a))
unfolding add_consume
add_consume_edges g s t a b = contains-relate g.consumes s t a b

pub two_inserts :
    (s t x : Text) (actors : List Text)
    → contains x (BTreeSet.insert t (BTreeSet.insert s actors))
      ≡ (eqb x t || (eqb x s || contains x actors))
two_inserts s t x actors = simp contains-insert

pub add_emit-IsWellFormed :
    (g : RouteGraph) (s t : Text) → IsWellFormed g → IsWellFormed (add_emit g s t)
add_emit-IsWellFormed g s t w = record {
  ordered = unfold add_emit in insert-IsSorted t _ (insert-IsSorted s _ w.ordered);
  emits_ordered = unfold add_emit in keys-insert-IsSorted g.emits s _ w.emits_ordered;
  emits_known = λ a b h.
      let old = w.emits_known a b in
      let edge = rw (add_emit_edges g s t a b) at h in
      unfold add_emit in
      ground (arith, old, edge, two_inserts s t a g.actors, two_inserts s t b g.actors);
  consumes_known = λ a b h.
      unfold add_emit in
      ground
        (arith, w.consumes_known a b, two_inserts s t a g.actors, two_inserts s t b g.actors, h);
}

pub add_consume-IsWellFormed :
    (g : RouteGraph) (s t : Text) → IsWellFormed g → IsWellFormed (add_consume g s t)
add_consume-IsWellFormed g s t w = record {
  ordered = unfold add_consume in insert-IsSorted t _ (insert-IsSorted s _ w.ordered);
  emits_ordered = unfold add_consume in w.emits_ordered;
  emits_known = λ a b h.
      unfold add_consume in
      ground (arith, w.emits_known a b, two_inserts s t a g.actors, two_inserts s t b g.actors, h);
  consumes_known = λ a b h.
      let edge = rw (add_consume_edges g s t a b) at h in
      unfold add_consume in
      ground
        (arith, w.consumes_known a b, edge, two_inserts s t a g.actors, two_inserts s t b g.actors);
}

contains-select :
    (p : Text → Bool) (x : Text) (xs : List Text)
    → contains x (select p xs) ≡ (p x && contains x xs)
contains-select p x [] = ground arith
contains-select p x (y ∷ ys) = ground (arith, contains-select p x ys, eqb_iff x y, ap p)

clique_row_edges :
    (subset : List Text) (m : Relation) (s a b : Text)
    → contains b (targets (clique_row subset m s) a)
      ≡ ((eqb a s && (not (eqb b s) && contains b subset)) || contains b (targets m a))
unfolding clique_row
clique_row_edges subset m s a b = rw targets-insert (
    ground (
      arith,
      contains-extend b (targets m s) (select (λ target. not (eqb target s)) subset),
      contains-select (λ target. not (eqb target s)) b subset,
      eqb_iff a s,
    ))

clique_rows_edges :
    (subset rest : List Text) (m : Relation) (a b : Text)
    → contains b (targets (clique_rows subset rest m) a)
      ≡ ((contains a rest && (not (eqb b a) && contains b subset)) || contains b (targets m a))
unfolding clique_rows
clique_rows_edges subset [] m a b = refl
clique_rows_edges subset (s ∷ rest) m a b = ground (
  arith,
  clique_rows_edges subset rest (clique_row subset m s) a b,
  clique_row_edges subset m s a b,
  eqb_iff a s,
)

-- If `add_emit_clique` succeeds, it adds an emit edge from each member of the subset to every other
-- member, and nothing else.
pub add_emit_clique_edges :
    (g : RouteGraph) (subset : List Text) (h : RouteGraph) (a b : Text)
    → add_emit_clique g subset ≡ some h
    → (h.actors ≡ g.actors)
      × (h.consumes ≡ g.consumes)
      × (contains b (targets h.emits a) ≡ (
          (contains a subset && (not (eqb b a) && contains b subset))
          || contains b (targets g.emits a)))
unfolding add_emit_clique
add_emit_clique_edges g subset h a b e = ground (arith, clique_rows_edges subset subset g.emits a b)

pub all-contains :
    (xs s : List Text) (a : Text)
    → is_subset xs s ≡ true
    → contains a xs ≡ true
    → contains a s ≡ true
all-contains [] s a h m = cc
all-contains (x ∷ xs) s a h m = ground (arith, all-contains xs s a, eqb_iff a x)

add_emit_clique-subset :
    (g : RouteGraph) (subset : List Text) (h : RouteGraph)
    → add_emit_clique g subset ≡ some h
    → is_subset subset g.actors ≡ true
unfolding add_emit_clique
add_emit_clique-subset g subset h e = ground arith

clique_rows-keys :
    (subset rest : List Text) (m : Relation)
    → IsSorted (keys m)
    → IsSorted (keys (clique_rows subset rest m))
unfolding clique_rows clique_row
clique_rows-keys subset [] m h = h
clique_rows-keys subset (s ∷ rest) m h =
    clique_rows-keys subset rest (clique_row subset m s) (keys-insert-IsSorted m s _ h)

add_emit_clique-keys :
    (g : RouteGraph) (subset : List Text) (h : RouteGraph)
    → IsSorted (keys g.emits)
    → add_emit_clique g subset ≡ some h
    → IsSorted (keys h.emits)
unfolding add_emit_clique
add_emit_clique-keys g subset h w e =
    let same : h.emits ≡ clique_rows subset subset g.emits = ground arith in
    rw same (clique_rows-keys subset subset g.emits w)

pub add_emit_clique-IsWellFormed :
    (g : RouteGraph) (subset : List Text) (h : RouteGraph)
    → IsWellFormed g
    → add_emit_clique g subset ≡ some h
    → IsWellFormed h
add_emit_clique-IsWellFormed g subset h w e =
    let same = add_emit_clique_edges g subset h [] [] e in
    let inside = add_emit_clique-subset g subset h e in
    record {
      ordered = rw same.0 w.ordered;
      emits_ordered = add_emit_clique-keys g subset h w.emits_ordered e;
      emits_known = λ s t k.
          let edge = add_emit_clique_edges g subset h s t e in
          ground (
            arith,
            edge,
            w.emits_known s t,
            all-contains subset g.actors s inside,
            all-contains subset g.actors t inside,
          );
      consumes_known = λ s t k. ground (arith, w.consumes_known s t, same);
    }

pub is_subset-of_known :
    (xs s : List Text)
    → ((a : Text) → contains a xs ≡ true → contains a s ≡ true)
    → is_subset xs s ≡ true
is_subset-of_known [] s h = refl
is_subset-of_known (x ∷ xs) s h =
    let here = h x (ground (arith, eqb_iff x x)) in
    let rest = is_subset-of_known xs s (λ a m. h a (ground arith)) in ground arith

pub add_emit_clique_total :
    (g : RouteGraph) (subset : List Text)
    → ((a : Text) → contains a subset ≡ true → IsActor g a)
    → (h : RouteGraph) × (add_emit_clique g subset ≡ some h)
unfolding add_emit_clique
add_emit_clique_total g subset known = (
  record g { emits = clique_rows subset subset g.emits },
  rw (is_subset-of_known subset g.actors known),
)
