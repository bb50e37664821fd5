-- ===== src/Routing/Graph.antt =====
-- src/routing/graph.rs: the directed graph of emit and consume relations between actors.
pub mod Build
pub mod Built
use argent.Base.{
  Text, ◌≡◌, Bool, true, false, not, Option, none, some, ℕ, List, [], ◌∷◌, if◌then◌else◌, select,
}
use argent.Collections.Order.{eqb, bytes_ord}
use argent.Collections.BTreeSet
use argent.Collections.BTreeSet.{contains, is_subset}
use argent.Collections.BTreeMap
use argent.Collections.BTreeMap.{get}

abbrev pub Relation : Type 0
Relation = List (Text × List Text)

pub record RouteGraph : Type 0 where
  pub actors : List Text
  pub emits : Relation
  pub consumes : Relation

-- `RouteGraph::default()`.
abbrev pub empty_graph : RouteGraph
empty_graph = record { actors = []; emits = []; consumes = [] }

-- `map.get(source).into_iter().flatten()`.
abbrev pub targets : Relation → Text → List Text
targets m source = elim (get source m) [ none ↦ [] | some s ↦ s ]

unfoldable pub add_actor : RouteGraph → Text → RouteGraph
add_actor g actor = record g { actors = BTreeSet.insert actor g.actors }

-- `map.entry(source).or_default().insert(target)`.
abbrev pub relate : Relation → Text → Text → Relation
relate m source target = BTreeMap.insert source (BTreeSet.insert target (targets m source)) m

unfoldable pub add_emit : RouteGraph → Text → Text → RouteGraph
add_emit g source target = record g {
  actors = BTreeSet.insert target (BTreeSet.insert source g.actors);
  emits = relate g.emits source target;
}

unfoldable pub add_consume : RouteGraph → Text → Text → RouteGraph
add_consume g source target = record g {
  actors = BTreeSet.insert target (BTreeSet.insert source g.actors);
  consumes = relate g.consumes source target;
}

-- The body of the loop of `add_emit_clique`: `source` emits to every other member of the subset.
unfoldable pub clique_row : List Text → Relation → Text → Relation
clique_row subset m source =
    BTreeMap.insert source
      (BTreeSet.extend (targets m source) (select (λ target. not (eqb target source)) subset)) m

unfoldable pub clique_rows : List Text → List Text → Relation → Relation
clique_rows subset [] m = m
clique_rows subset (source ∷ rest) m = clique_rows subset rest (clique_row subset m source)

-- `none` is the failed assertion.
unfoldable pub add_emit_clique : RouteGraph → List Text → Option RouteGraph
unfolding clique_rows clique_row
add_emit_clique g subset =
    if is_subset subset g.actors
    then some (record g { emits = clique_rows subset subset g.emits })
    else none

-- `g.consumes.get(source)`.
abbrev pub direct_consumes : RouteGraph → Text → Option (List Text)
direct_consumes g source = get source g.consumes

-- There is an emit edge, and a consume edge.
abbrev pub Emits : RouteGraph → Text → Text → Type 0
Emits g source target = contains target (targets g.emits source) ≡ true

abbrev pub Consumes : RouteGraph → Text → Text → Type 0
Consumes g source target = contains target (targets g.consumes source) ≡ true

abbrev pub IsActor : RouteGraph → Text → Type 0
IsActor g actor = contains actor g.actors ≡ true
