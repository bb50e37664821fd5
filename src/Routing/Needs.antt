-- ===== src/Routing/Needs.antt =====
-- src/routing/graph.rs, `needs`: the actor templates that every actor needs, with the closures of
-- lower actors reused.
pub mod Need
pub mod Fuel
pub mod Invariant
pub mod Correct
use argent.Base.{
  Text, ℕ, zero, suc, ◌+◌, Bool, true, false, Ordering, Option, none, some, List, [], ◌∷◌, length,
  if◌then◌else◌,
}
use argent.Collections.Order.{lex, bytes_ord}
use argent.Collections.BTreeSet
use argent.Collections.BTreeSet.{contains}
use argent.Collections.BTreeMap
use argent.Collections.BTreeMap.{get}
use argent.Routing.Graph.{Relation, RouteGraph, targets}

-- `Needs`, which has the shape of a relation.
abbrev pub Needs : Type 0
Needs = List (Text × List Text)

-- The variables of the traversal from one source; the top of `stack` is its head.
pub record Traversal : Type 0 where
  pub reach : List Text
  pub stack : List Text
  pub expanded : List Text

-- `unresolved` is the panic of `expect("lower actors are resolved")`.
pub data Outcome : Type 0 where
  done : List Text → Outcome
  unresolved out_of_fuel : Outcome

-- `stack.extend(xs)`: the last of `xs` comes on top.
abbrev pub push_all : List Text → List Text → List Text
push_all [] stack = stack
push_all (x ∷ xs) stack = push_all xs (x ∷ stack)

-- `&dst < src`.
abbrev pub lower : Text → Text → Bool
lower dst src = elim (lex dst src) [ Ordering.lt ↦ true | _ ↦ false ]

-- A `dst` that was not expanded before: reuse its closure if it is resolved, else expand it.
pub expand : RouteGraph → Needs → Text → Traversal → Text → List Text → Option Traversal
expand g reachable src t dst rest =
    if lower dst src
    then elim (get dst reachable) [
      | none ↦ none
      | some closure ↦ some (record {
        reach = BTreeSet.extend (BTreeSet.insert dst t.reach) closure;
        stack = rest;
        expanded = BTreeSet.insert dst t.expanded;
      })
    ]
    else some (record {
      reach = BTreeSet.extend (BTreeSet.insert dst t.reach) (targets g.consumes dst);
      stack = push_all (targets g.emits dst) rest;
      expanded = BTreeSet.insert dst t.expanded;
    })

-- One round of the `while` loop, after `dst` was popped.
pub visit : RouteGraph → Needs → Text → Traversal → Text → List Text → Option Traversal
unfolding expand
visit g reachable src t dst rest =
    if contains dst t.expanded
    then some (record { reach = BTreeSet.insert dst t.reach; stack = rest; expanded = t.expanded })
    else expand g reachable src t dst rest

pub traverse : RouteGraph → Needs → Text → ℕ → Traversal → Outcome
traverse g reachable src zero t = elim t.stack [ [] ↦ done t.reach | _ ∷ _ ↦ out_of_fuel ]
traverse g reachable src (suc fuel) t = elim t.stack [
  | [] ↦ done t.reach
  | dst ∷ rest ↦ elim (visit g reachable src t dst rest) [
    | none ↦ unresolved
    | some next ↦ traverse g reachable src fuel next
  ]
]

abbrev pub start : RouteGraph → Text → Traversal
start g src = record {
  reach = targets g.consumes src;
  stack = push_all (targets g.emits src) [];
  expanded = [];
}

-- The emit edges whose source is not in `expanded`.
abbrev pub pending_edges : List Text → Relation → ℕ
pending_edges expanded [] = 0
pending_edges expanded ((source, ts) ∷ m) =
    (if contains source expanded then 0 else length ts) + pending_edges expanded m

-- Enough rounds: each pops one entry, and only a first visit pushes edges.
abbrev pub rounds : RouteGraph → Text → ℕ
rounds g src = length (start g src).stack + pending_edges [] g.emits

-- The loop over the actors; `none` is a panic, or a lack of fuel.
pub resolve_all : RouteGraph → List Text → Needs → Option Needs
resolve_all g [] reachable = some reachable
resolve_all g (src ∷ rest) reachable =
    elim (traverse g reachable src (rounds g src) (start g src)) [
      | done closure ↦ resolve_all g rest (BTreeMap.insert src closure reachable)
      | unresolved ↦ none
      | out_of_fuel ↦ none
    ]

unfoldable pub needs : RouteGraph → Option Needs
unfolding resolve_all traverse visit
needs g = resolve_all g g.actors []
