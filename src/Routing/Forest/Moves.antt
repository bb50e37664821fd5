-- ===== src/Routing/Forest/Moves.antt =====
-- What success of `open` and of `pack` says of the cut and of the result.
pub mod Kept
pub mod Inverse
use argent.Base.{
  ℕ, zero, suc, ◌<◌, ◌≡◌, refl, sym, ◌∙◌, ◌↔◌, ◌⊎◌, inl, inr, Bool, true, false, not, ◌&&◌, ◌||◌,
  Option, none, some, List, [], ◌∷◌, ◌++◌, arith, if◌then◌else◌, Bool-cases, Option-cases, any,
}
use argent.Collections.Order.{eqb, eqb_iff, eqb_refl, bytes_ord}
use argent.Collections.BTreeSet
use argent.Collections.BTreeSet.{
  contains, IsSorted, contains-insert, contains-remove, contains-extend, insert-IsSorted,
  remove-IsSorted, extend-IsSorted, set_ext,
}
use argent.Collections.Slices.{starts_with}
use argent.Routing.Forest.{
  CommitmentNode, Nodes, leaf, branch, nil, cons, CommitmentForest, count, NodePath, Cut, child,
  child_paths, node, exists_at, is_valid_cut, branch_children, is_empty, open_branch, remove_all,
  pack,
}
use argent.Routing.Forest.Paths.{
  starts_with_refl, starts_with_trans, starts_with-child, starts_with-of_child, starts_with-cases,
  starts_with-under_child, starts_with-siblings, child-ne, node-child, index-lt-count,
  contains-child_paths,
}
use argent.Routing.Forest.Validity.{IsCut, is_valid_cut_iff}

pub remove_all-IsSorted :
    (ps : List NodePath) (cut : Cut) → IsSorted cut → IsSorted (remove_all ps cut)
remove_all-IsSorted [] cut s = s
remove_all-IsSorted (p ∷ ps) cut s = remove_all-IsSorted ps _ (remove-IsSorted p cut s)

pub contains-remove_all :
    (x : NodePath) (ps : List NodePath) (cut : Cut)
    → contains x (remove_all ps cut) ≡ (not (contains x ps) && contains x cut)
contains-remove_all x [] cut = ground arith
contains-remove_all x (p ∷ ps) cut = ground (
  arith,
  contains-remove_all x ps (BTreeSet.remove p cut),
  contains-remove x p cut,
  eqb_iff x p,
  eqb_iff p x,
)

-- The branch that is opened or packed.
pub record IsBranch (f : CommitmentForest) (b : NodePath) (ns : Nodes) : Type 0 where
  pub at : node f b ≡ some (branch ns)
  pub inhabited : 0 < count ns

IsBranch-of_children :
    (f : CommitmentForest) (b : NodePath) (ns : Nodes)
    → branch_children f b ≡ some ns
    → is_empty ns ≡ false
    → IsBranch f b ns
IsBranch-of_children f b nil h e = cc
IsBranch-of_children f b (cons n ns) h e = record { at = ground arith; inhabited = omega arith }

-- The sets that the two operations build.
abbrev pub opened : Cut → NodePath → Nodes → Cut
opened cut b ns = BTreeSet.extend (BTreeSet.remove b cut) (child_paths b ns)

abbrev pub packed : Cut → NodePath → Nodes → Cut
packed cut b ns = BTreeSet.insert b (remove_all (child_paths b ns) cut)

-- What success of an operation says of its input and its result.
pub record Opens (f : CommitmentForest) (cut : Cut) (b : NodePath) (c : Cut) : Type 0 where
  pub children : Nodes
  pub is_branch : IsBranch f b children
  pub valid : is_valid_cut f cut ≡ true
  pub selected : contains b cut ≡ true
  pub result : c ≡ opened cut b children

pub open_branch-Opens :
    (f : CommitmentForest) (cut : Cut) (b : NodePath) (c : Cut)
    → open_branch f cut b ≡ some c
    → Opens f cut b c
unfolding open_branch
open_branch-Opens f cut b c h = elim (Option-cases (branch_children f b)) [
  | inl gone ↦ absurd (ground arith)
  | inr (ns, found) ↦ record {
    children = ns;
    is_branch = IsBranch-of_children f b ns found (ground arith);
    valid = ground arith;
    selected = ground arith;
    result = ground arith;
  }
]

pub record Packs (f : CommitmentForest) (cut : Cut) (b : NodePath) (c : Cut) : Type 0 where
  pub children : Nodes
  pub is_branch : IsBranch f b children
  pub valid : is_valid_cut f cut ≡ true
  pub selected : (i : ℕ) → i < count children → contains (child b i) cut ≡ true
  pub result : c ≡ packed cut b children

all_selected :
    (cut : Cut) (ps : List NodePath) (x : NodePath)
    → any (λ c. not (contains c cut)) ps ≡ false
    → contains x ps ≡ true
    → contains x cut ≡ true
all_selected cut [] x h m = cc
all_selected cut (p ∷ ps) x h m = elim (Bool-cases (eqb x p)) [
  | inl e ↦ rw ((eqb_iff x p).0 e) (ground arith)
  | inr e ↦ all_selected cut ps x (ground arith) (rw e at m)
]

pub any_missing :
    (cut : Cut) (ps : List NodePath)
    → ((x : NodePath) → contains x ps ≡ true → contains x cut ≡ true)
    → any (λ c. not (contains c cut)) ps ≡ false
any_missing cut [] h = refl
any_missing cut (p ∷ ps) h =
    let here = h p (ground (arith, eqb_refl p)) in
    let rest = any_missing cut ps (λ x m. h x (ground arith)) in ground arith

pub pack-Packs :
    (f : CommitmentForest) (cut : Cut) (b : NodePath) (c : Cut)
    → pack f cut b ≡ some c
    → Packs f cut b c
unfolding pack
pack-Packs f cut b c h = elim (Option-cases (branch_children f b)) [
  | inl gone ↦ absurd (ground arith)
  | inr (ns, found) ↦ record {
    children = ns;
    is_branch = IsBranch-of_children f b ns found (ground arith);
    valid = ground arith;
    selected = λ i lt.
        all_selected cut (child_paths b ns) (child b i) (ground arith)
          ((contains-child_paths b (child b i) ns).1 (i, lt, refl));
    result = ground arith;
  }
]
