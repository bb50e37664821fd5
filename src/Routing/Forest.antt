-- ===== src/Routing/Forest.antt =====
-- src/routing/commitment.rs: commitment forests, node paths and cuts.
pub mod Paths
pub mod Validity
pub mod Moves
use argent.Base.{
  Text, ℕ, zero, suc, ◌+◌, Bool, true, false, not, ◌&&◌, ◌||◌, Option, none, some, List, [], ◌∷◌,
  ◌++◌, map, ◌==◌, if◌then◌else◌, all, any,
}
use argent.Collections.Order.{bytes_ord}
use argent.Collections.Slices.{starts_with}
use argent.Collections.BTreeSet
use argent.Collections.BTreeSet.{contains}

-- `Nodes` is `Vec<CommitmentNode>`.
mutual
  pub data CommitmentNode : Type 0 where
    leaf : Text → CommitmentNode
    branch : Nodes → CommitmentNode

  pub data Nodes : Type 0 where
    nil : Nodes
    cons : CommitmentNode → Nodes → Nodes

pub record CommitmentForest : Type 0 where
  pub roots : Nodes

-- `nodes.len()` and `nodes.get(index)`.
abbrev pub count : Nodes → ℕ
count nil = 0
count (cons n ns) = suc (count ns)

abbrev pub nth : Nodes → ℕ → Option CommitmentNode
nth nil i = none
nth (cons n ns) zero = some n
nth (cons n ns) (suc i) = nth ns i

-- A nonempty list of indices: a root, then a child at each level. `Ord` is derived, so it is
-- lexicographic.
abbrev pub NodePath : Type 0
NodePath = List ℕ

-- `NodePath::new`; `none` is the failed assertion.
pub new : List ℕ → Option NodePath
new [] = none
new (i ∷ p) = some (i ∷ p)

abbrev pub root : ℕ → NodePath
root i = i ∷ []

abbrev pub child : NodePath → ℕ → NodePath
child p i = p ++ i ∷ []

-- A set of paths in order.
abbrev pub Cut : Type 0
Cut = List NodePath

-- The range `start..start + n`.
abbrev pub range_from : ℕ → ℕ → List ℕ
range_from start zero = []
range_from start (suc n) = start ∷ range_from (start + 1) n

-- `(0..children.len()).map(|child| branch.child(child))`.
abbrev pub child_paths : NodePath → Nodes → List NodePath
child_paths p children = map (child p) (range_from 0 (count children))

-- The walk from a node down the remaining indices.
abbrev pub descend : CommitmentNode → List ℕ → Option CommitmentNode
descend n [] = some n
descend (leaf a) (i ∷ p) = none
descend (branch children) (i ∷ p) = elim (nth children i) [ none ↦ none | some c ↦ descend c p ]

-- `CommitmentForest::node`, with `split_root` as the pattern; the empty path does not occur.
abbrev pub node : CommitmentForest → NodePath → Option CommitmentNode
node f [] = none
node f (i ∷ p) = elim (nth f.roots i) [ none ↦ none | some n ↦ descend n p ]

pub root_cut : CommitmentForest → Cut
root_cut f = BTreeSet.from_list (map root (range_from 0 (count f.roots)))

abbrev pub exists_at : CommitmentForest → NodePath → Bool
exists_at f p = elim (node f p) [ none ↦ false | some _ ↦ true ]

-- The loop of `is_valid_cut`, with the variable `previous`.
unfoldable pub valid_from : CommitmentForest → Option NodePath → Cut → Bool
valid_from f previous [] = true
valid_from f previous (path ∷ rest) =
    if not (exists_at f path)
    then false
    else if elim previous [ none ↦ false | some p ↦ starts_with path p ]
    then false
    else valid_from f (some path) rest

unfoldable pub is_valid_cut : CommitmentForest → Cut → Bool
unfolding valid_from
is_valid_cut f cut = valid_from f none cut

-- The children of the branch at a path; `none` if there is no branch, or it has none.
abbrev pub branch_children : CommitmentForest → NodePath → Option Nodes
branch_children f p = elim (node f p) [
  | none ↦ none
  | some n ↦ elim n [ leaf _ ↦ none | branch children ↦ some children ]
]

-- `children.is_empty()`.
abbrev pub is_empty : Nodes → Bool
is_empty nil = true
is_empty (cons _ _) = false

-- `CommitmentForest::open`; its name is reserved here.
unfoldable pub open_branch : CommitmentForest → Cut → NodePath → Option Cut
open_branch f cut b =
    if not (is_valid_cut f cut) || not (contains b cut) then none else elim (branch_children f b) [
      | none ↦ none
      | some children ↦
          if is_empty children
          then none
          else some (BTreeSet.extend (BTreeSet.remove b cut) (child_paths b children))
    ]

abbrev pub remove_all : List NodePath → Cut → Cut
remove_all [] cut = cut
remove_all (p ∷ ps) cut = remove_all ps (BTreeSet.remove p cut)

-- `CommitmentForest::pack`.
unfoldable pub pack : CommitmentForest → Cut → NodePath → Option Cut
pack f cut b = if not (is_valid_cut f cut) then none else elim (branch_children f b) [
  | none ↦ none
  | some children ↦
      if is_empty children
      then none
      else if any (λ c. not (contains c cut)) (child_paths b children)
      then none
      else some (BTreeSet.insert b (remove_all (child_paths b children) cut))
]
