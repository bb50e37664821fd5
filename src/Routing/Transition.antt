-- ===== src/Routing/Transition.antt =====
-- src/routing/commitment.rs: the structural operations that derive one cut from another one.
pub mod Packs
pub mod Existing
pub mod Derivable
pub mod Sorted
pub mod Opened
pub mod Collected
pub mod Progressed
pub mod Opening
pub mod Packing
pub mod Carried
use argent.Base.{
  ℕ, zero, suc, ◌+◌, ◌-◌, Bool, true, false, not, ltb, Option, none, some, List, [], ◌∷◌, ◌++◌,
  take, length, find, if◌then◌else◌, Text,
}
use argent.Collections.Order.{lex, bytes_ord}
use argent.Collections.Slices.{starts_with}
use argent.Collections.BTreeSet
use argent.Collections.BTreeSet.{contains}
use argent.Collections.BTreeMap.{get}
use argent.Routing.Forest.{
  CommitmentNode, Nodes, leaf, branch, nil, cons, CommitmentForest, NodePath, Cut, child, node,
  is_empty,
}
use argent.Routing.Commitment.{CommitmentPlan}
use Prim.Native.Nat.{compare, Ordering}

pub record CutTransition : Type 0 where
  pub retained : List CommitmentNode
  pub branches_to_open : List CommitmentNode
  pub branches_to_pack : List CommitmentNode

-- `collect_pack_paths` below a node, with the set `branches_to_pack`; `none` is `false`. The set of a
-- failed call is not used any more.
mutual
  pub collect : CommitmentNode → NodePath → Cut → Cut → Option Cut
  collect (leaf a) path source packs = if contains path source then some packs else none
  collect (branch children) path source packs =
      let below = collect_children children path 0 source packs in
      if contains path source
      then some packs
      else if is_empty children
      then none
      else elim below [ none ↦ none | some ps ↦ some (BTreeSet.insert path ps) ]

  pub collect_children : Nodes → NodePath → ℕ → Cut → Cut → Option Cut
  collect_children nil path index source packs = some packs
  collect_children (cons n ns) path index source packs =
      elim (collect n (child path index) source packs) [
        | none ↦ none
        | some ps ↦ collect_children ns path (index + 1) source ps
      ]

unfoldable pub collect_pack_paths : CommitmentForest → NodePath → Cut → Cut → Option Cut
unfolding collect
collect_pack_paths f path source packs =
    if contains path source
    then some packs
    else elim (node f path) [ none ↦ none | some n ↦ collect n path source packs ]

abbrev pub is_branch : CommitmentForest → NodePath → Bool
is_branch f path = elim (node f path) [
  | none ↦ false
  | some n ↦ elim n [ leaf a ↦ false | branch ns ↦ true ]
]

-- The loop over the depths from `depth` on, for `steps` depths.
unfoldable pub open_between : CommitmentForest → NodePath → ℕ → ℕ → Cut → Option Cut
open_between f target depth zero opens = some opens
open_between f target depth (suc steps) opens =
    if not (is_branch f (take depth target))
    then none
    else open_between f target (depth + 1) steps (BTreeSet.insert (take depth target) opens)

-- The variables of the loop over the target's paths.
pub record Progress : Type 0 where
  pub retained : List CommitmentNode
  pub opens : Cut
  pub packs : Cut

-- The body of the loop.
unfoldable pub derive_path : CommitmentForest → Cut → NodePath → Progress → Option Progress
unfolding open_between collect_pack_paths
derive_path f source target p =
    if contains target source
    then elim (node f target) [
      | none ↦ none
      | some n ↦ some (record p { retained = p.retained ++ n ∷ [] })
    ]
    else elim (find (λ s. starts_with target s) source) [
      | some ancestor ↦
          elim (open_between f target (length ancestor) (length target - length ancestor) p.opens) [
            | none ↦ none
            | some opens ↦ some (record p { opens = opens })
          ]
      | none ↦ elim (collect_pack_paths f target source p.packs) [
        | none ↦ none
        | some packs ↦ some (record p { packs = packs })
      ]
    ]

unfoldable pub derive_paths : CommitmentForest → Cut → Cut → Progress → Option Progress
unfolding derive_path
derive_paths f source [] p = some p
derive_paths f source (target ∷ rest) p = elim (derive_path f source target p) [
  | none ↦ none
  | some next ↦ derive_paths f source rest next
]

abbrev pub no_progress : Progress
no_progress = record { retained = []; opens = []; packs = [] }

-- The comparison of `sort_by`: by depth, deepest last or first, then by path.
abbrev pub comes_after : Bool → NodePath → NodePath → Bool
comes_after deepest_first a b = elim (compare (length a) (length b)) [
  | Ordering.lt ↦ deepest_first
  | Ordering.gt ↦ not deepest_first
  | Ordering.eq ↦ elim (lex a b) [ Ordering.gt ↦ true | _ ↦ false ]
]

abbrev pub insert_path : Bool → NodePath → List NodePath → List NodePath
insert_path deepest_first a [] = a ∷ []
insert_path deepest_first a (b ∷ rest) = elim (comes_after deepest_first a b) [
  | true ↦ b ∷ insert_path deepest_first a rest
  | false ↦ a ∷ b ∷ rest
]

abbrev pub sort_paths : Bool → List NodePath → List NodePath
sort_paths deepest_first [] = []
sort_paths deepest_first (a ∷ rest) = insert_path deepest_first a (sort_paths deepest_first rest)

-- `map(|path| self.node(&path).expect(...))`.
abbrev pub nodes_at : CommitmentForest → List NodePath → Option (List CommitmentNode)
nodes_at f [] = some []
nodes_at f (p ∷ rest) = elim (node f p) [
  | none ↦ none
  | some n ↦ elim (nodes_at f rest) [ none ↦ none | some ns ↦ some (n ∷ ns) ]
]

-- `failed` is a panic.
pub data Derivation : Type 0 where
  derived : CutTransition → Derivation
  underivable failed : Derivation

-- The tail of `transition`.
abbrev pub finish : CommitmentForest → Progress → Derivation
finish f p = elim (nodes_at f (sort_paths false p.opens)) [
  | none ↦ failed
  | some opens ↦ elim (nodes_at f (sort_paths true p.packs)) [
    | none ↦ failed
    | some packs ↦
        derived
          (record { retained = p.retained; branches_to_open = opens; branches_to_pack = packs })
  ]
]

unfoldable pub transition : CommitmentForest → Cut → Cut → Derivation
unfolding derive_paths
transition f source target = elim (derive_paths f source target no_progress) [
  | none ↦ underivable
  | some p ↦ finish f p
]

pub data CutTransitionError : Type 0 where
  unknown_source_actor : (actor : Text) → CutTransitionError
  unknown_target_actor : (actor : Text) → CutTransitionError
  incompatible_cuts : (source_actor target_actor : Text) → CutTransitionError

pub data CutTransitionResult : Type 0 where
  planned : CutTransition → CutTransitionResult
  refused : CutTransitionError → CutTransitionResult
  broken : CutTransitionResult

unfoldable pub cut_transition : CommitmentPlan → Text → Text → CutTransitionResult
unfolding transition
cut_transition plan source_actor target_actor = elim (get source_actor plan.cuts) [
  | none ↦ refused (unknown_source_actor source_actor)
  | some source ↦ elim (get target_actor plan.cuts) [
    | none ↦ refused (unknown_target_actor target_actor)
    | some target ↦ elim (transition plan.forest source target) [
      | derived t ↦ planned t
      | underivable ↦ refused (incompatible_cuts source_actor target_actor)
      | failed ↦ broken
    ]
  ]
]

-- `cut_nodes`: `none` of the outer option is an actor without a cut, of the inner one a panic.
unfoldable pub cut_nodes : CommitmentPlan → Text → Option (Option (List CommitmentNode))
cut_nodes plan actor = elim (get actor plan.cuts) [
  | none ↦ none
  | some cut ↦ some (nodes_at plan.forest cut)
]
