-- ===== src/Routing/Components.antt =====
-- src/routing/graph.rs, `components`: the weak emit components of a domain, and their gates.
pub mod Linked
pub mod Explored
pub mod Discovered
pub mod Gates
pub mod Classes
pub mod Edges
pub mod Correct
use argent.Base.{
  Text, ℕ, zero, suc, ◌+◌, Bool, true, false, not, Option, none, some, List, [], ◌∷◌, ◌++◌, length,
  select, get_elem?, if◌then◌else◌,
}
use argent.Collections.Order.{eqb, bytes_ord}
use argent.Collections.BTreeSet
use argent.Collections.BTreeSet.{contains, is_subset}
use argent.Collections.BTreeMap
use argent.Collections.BTreeMap.{get, contains_key}
use argent.Routing.Graph.{Relation, RouteGraph, targets, relate}

pub record Component : Type 0 where
  pub members : List Text
  pub gates : List Text

-- `domain.iter().map(|actor| (actor.clone(), BTreeSet::new())).collect()`.
abbrev pub no_neighbors : Relation → List Text → Relation
no_neighbors m [] = m
no_neighbors m (actor ∷ rest) = no_neighbors (BTreeMap.insert actor [] m) rest

-- The variables of the first loop.
pub record Scan : Type 0 where
  pub neighbors : Relation
  pub gates : List Text

-- `neighbors.get_mut(source).expect(...).insert(target)`; `none` is the panic.
abbrev pub link : Relation → Text → Text → Option Relation
link m source target = if contains_key source m then some (relate m source target) else none

-- The body of the inner loop.
unfoldable pub scan_target : Text → Bool → Scan → Text → Option Scan
scan_target source inside s target =
    if eqb source target
    then some s
    else if not inside
    then some (record s { gates = s.gates ++ target ∷ [] })
    else elim (link s.neighbors source target) [
      | none ↦ none
      | some m ↦ elim (link m target source) [
        | none ↦ none
        | some both ↦ some (record s { neighbors = both })
      ]
    ]

unfoldable pub scan_targets : Text → Bool → Scan → List Text → Option Scan
scan_targets source inside s [] = some s
scan_targets source inside s (target ∷ rest) = elim (scan_target source inside s target) [
  | none ↦ none
  | some next ↦ scan_targets source inside next rest
]

-- The loop over the emit relation.
unfoldable pub scan_emits : List Text → Scan → Relation → Option Scan
scan_emits domain s [] = some s
scan_emits domain s ((source, ts) ∷ rest) =
    elim (scan_targets source (contains source domain) s
      (select (λ target. contains target domain) ts)) [
        | none ↦ none
        | some next ↦ scan_emits domain next rest
      ]

-- `component_by_actor`.
abbrev pub Assignment : Type 0
Assignment = List (Text × ℕ)

-- The variables of one traversal; the top of `pending` is its head.
pub record Visit : Type 0 where
  pub members : List Text
  pub assigned : Assignment
  pub pending : List Text

-- The body of the loop over the neighbors of an actor: a vacant one is assigned and pushed.
unfoldable pub claim_one : ℕ → Visit → Text → Visit
claim_one index v n =
    if contains_key n v.assigned
    then v
    else record v { assigned = BTreeMap.insert n index v.assigned; pending = n ∷ v.pending }

unfoldable pub claim : ℕ → List Text → Visit → Visit
claim index [] v = v
claim index (n ∷ ns) v = claim index ns (claim_one index v n)

-- The `while` loop; `none` is the panic of an index, or a lack of fuel.
unfoldable pub explore : Relation → ℕ → ℕ → Visit → Option Visit
explore neighbors index zero v = elim v.pending [ [] ↦ some v | _ ∷ _ ↦ none ]
explore neighbors index (suc fuel) v = elim v.pending [
  | [] ↦ some v
  | actor ∷ rest ↦ elim (get actor neighbors) [
    | none ↦ none
    | some ns ↦
        explore neighbors index fuel
          (claim index ns (record v { members = BTreeSet.insert actor v.members; pending = rest }))
  ]
]

abbrev pub start_visit : ℕ → Text → Assignment → Visit
start_visit index actor assigned = record {
  members = [];
  assigned = BTreeMap.insert actor index assigned;
  pending = actor ∷ [];
}

-- The variables of the loop over the domain.
pub record Discovery : Type 0 where
  pub found : List Component
  pub assigned : Assignment

-- The body of the loop over the domain. An actor enters the pending stack at most once, so as many
-- rounds suffice as the domain has actors.
unfoldable pub discover : Relation → List Text → Discovery → Text → Option Discovery
unfolding explore claim claim_one
discover neighbors domain d actor =
    if contains_key actor d.assigned
    then some d
    else elim (explore neighbors (length d.found) (length domain)
        (start_visit (length d.found) actor d.assigned)) [
          | none ↦ none
          | some v ↦ some (record {
            found = d.found ++ (record { members = v.members; gates = [] }) ∷ [];
            assigned = v.assigned;
          })
        ]

unfoldable pub discover_all : Relation → List Text → Discovery → List Text → Option Discovery
unfolding discover
discover_all neighbors domain d [] = some d
discover_all neighbors domain d (actor ∷ rest) = elim (discover neighbors domain d actor) [
  | none ↦ none
  | some next ↦ discover_all neighbors domain next rest
]

-- `components[component_index].gates.insert(target.clone())`; `none` is an index out of range.
abbrev pub add_gate : ℕ → Text → List Component → Option (List Component)
add_gate index target [] = none
add_gate zero target (c ∷ cs) = some (record c { gates = BTreeSet.insert target c.gates } ∷ cs)
add_gate (suc index) target (c ∷ cs) = elim (add_gate index target cs) [
  | none ↦ none
  | some rest ↦ some (c ∷ rest)
]

-- The last loop.
unfoldable pub assign_gates : Assignment → List Text → List Component → Option (List Component)
assign_gates assigned [] cs = some cs
assign_gates assigned (target ∷ rest) cs = elim (get target assigned) [
  | none ↦ none
  | some index ↦ elim (add_gate index target cs) [
    | none ↦ none
    | some next ↦ assign_gates assigned rest next
  ]
]

-- `none` is a panic.
unfoldable pub components : RouteGraph → List Text → Option (List Component)
unfolding scan_emits scan_targets scan_target discover_all assign_gates
components g domain =
    if is_subset domain g.actors
    then elim (scan_emits domain (record { neighbors = no_neighbors [] domain; gates = [] })
        g.emits) [
          | none ↦ none
          | some s ↦
              elim (discover_all s.neighbors domain (record { found = []; assigned = [] }) domain) [
                | none ↦ none
                | some d ↦ assign_gates d.assigned s.gates d.found
              ]
        ]
    else none
