-- ===== src/Routing/Transition/Opening.antt =====
-- src/routing/commitment.rs: the branches of a transition can be opened in the order that `transition`
-- gives them.
use argent.Base.{
  ℕ, ◌+◌, ◌<◌, ◌≡◌, refl, sym, ap, ◌∙◌, ◌⊎◌, inl, inr, true, false, Option, none, some, List, [],
  ◌∷◌, length, length-append, All, All_at, arith, Bool-cases, Option-cases,
}
use argent.Collections.Order.{eqb, eqb_iff, eqb_refl, bytes_ord}
use argent.Collections.Slices.{Pairwise}
use argent.Collections.BTreeSet
use argent.Collections.BTreeSet.{contains, contains_iff, contains-extend, contains-remove, IsSorted}
use argent.Routing.Forest.{
  CommitmentNode, Nodes, leaf, branch, nil, cons, CommitmentForest, NodePath, Cut, child,
  child_paths, node, exists_at, is_empty, count, is_valid_cut, open_branch,
}
use argent.Routing.Forest.Paths.{starts_with-cases, index-lt-count, contains-child_paths}
use argent.Routing.Forest.Validity.{IsCut}
use argent.Routing.Forest.Moves.{opened}
use argent.Routing.Forest.Moves.Kept.{open_valid}
use argent.Routing.Transition.{is_branch}
use argent.Routing.Transition.Sorted.{Before}
use argent.Routing.Transition.Progressed.{IsOpen}

-- `open`, one branch after the other.
abbrev pub open_all : CommitmentForest → Cut → List NodePath → Option Cut
open_all f cut [] = some cut
open_all f cut (b ∷ rest) = elim (open_branch f cut b) [ none ↦ none | some c ↦ open_all f c rest ]

pub length-child : (d : NodePath) (i : ℕ) → length (child d i) ≡ length d + 1
length-child d i = length-append d (i ∷ [])

pub All-contains :
    (P : NodePath → Type 0) (xs : List NodePath) (x : NodePath)
    → All P xs
    → contains x xs ≡ true
    → P x
All-contains P xs x every m = All_at P xs every ((contains_iff x xs).0 m)

branch_at :
    (f : CommitmentForest) (b : NodePath)
    → is_branch f b ≡ true
    → (ns : Nodes) × (node f b ≡ some (branch ns))
branch_at f b h = at (node f b) refl
  where
    at : (o : Option CommitmentNode) → node f b ≡ o → (ns : Nodes) × (node f b ≡ some (branch ns))
    at none e = absurd (ground arith)
    at (some (leaf a)) e = absurd (ground arith)
    at (some (branch ns)) e = (ns, e)

exists_some :
    (f : CommitmentForest) (x : NodePath)
    → exists_at f x ≡ true
    → (n : CommitmentNode) × (node f x ≡ some n)
exists_some f x h = elim (Option-cases (node f x)) [
  | inl gone ↦ absurd (ground arith)
  | inr found ↦ found
]

inhabited-of_lt : (ns : Nodes) (i : ℕ) → i < count ns → is_empty ns ≡ false
inhabited-of_lt nil i lt = absurd (omega arith)
inhabited-of_lt (cons n ns) i lt = refl

open_branch-total :
    (f : CommitmentForest) (cut : Cut) (b : NodePath) (ns : Nodes)
    → is_valid_cut f cut ≡ true
    → contains b cut ≡ true
    → node f b ≡ some (branch ns)
    → is_empty ns ≡ false
    → open_branch f cut b ≡ some (opened cut b ns)
unfolding open_branch
open_branch-total f cut b ns v m e i = rw (v, m, e, i) refl

module _ (f : CommitmentForest) (source target opens : Cut) (wanted : IsCut f target)
    (fit : (q : NodePath) → contains q opens ≡ true → IsOpen f source target q opens) where
  -- Selected at first, or a child of a branch that is open by now.
  abbrev pub IsAvailable : List NodePath → NodePath → Type 0
  IsAvailable rest x =
      (contains x source ≡ true)
      ⊎ ((d : NodePath) × (i : ℕ) × (x ≡ child d i)
          × (contains d opens ≡ true)
          × (contains d rest ≡ false)
          × (exists_at f x ≡ true))

  -- What is available is selected, except for what was opened.
  abbrev Keeps : List NodePath → Cut → Type 0
  Keeps rest cut =
      (x : NodePath)
      → IsAvailable rest x
      → (contains x opens ≡ false) ⊎ (contains x rest ≡ true)
      → contains x cut ≡ true

  branch_to_open :
      (b : NodePath)
      → contains b opens ≡ true
      → (ns : Nodes) × (node f b ≡ some (branch ns)) × (is_empty ns ≡ false)
  branch_to_open b m =
      let ((t, t_in, below, lt), is_b, _) = fit b m in
      let (ns, e) = branch_at f b is_b in
      let (n, found) = exists_some f t (wanted.exists t t_in) in
      elim (starts_with-cases t b below) [
        | inl same ↦ absurd (omega (arith, ap length same, lt))
        | inr (i, more, split) ↦
            let index = index-lt-count f b i more ns n e (ap (node f) (sym split) ∙ found) in
            (ns, e, inhabited-of_lt ns i index)
      ]

  -- The parent of a branch that comes next is open already.
  next_selected :
      (b : NodePath) (rest : List NodePath) (cut : Cut)
      → contains b opens ≡ true
      → All (Before false b) rest
      → Keeps (b ∷ rest) cut
      → contains b cut ≡ true
  next_selected b rest cut m first keeps =
      let (_, _, parent) = fit b m in
      keeps b
        (elim parent [
          | inl s ↦ inl s
          | inr (d, i, e, d_in) ↦
              let long : length b ≡ length d + 1 = ap length e ∙ length-child d i in
              let (ns, at, _) = branch_to_open b m in
              inr (
                d,
                i,
                e,
                d_in,
                elim (Bool-cases (contains d (b ∷ rest))) [
                  | inr out ↦ out
                  | inl inside ↦ absurd (elim (Bool-cases (eqb d b)) [
                    | inl same ↦
                        let d_b = (eqb_iff d b).0 same in omega (arith, ap length d_b, long)
                    | inr other ↦
                        let (le, _) =
                          All-contains (Before false b) rest d first (rw other at inside) in
                        omega (arith, le, long)
                  ])
                ],
                ground arith,
              )
        ])
        (inr (ground (arith, eqb_refl b)))

  opened-Keeps :
      (b : NodePath) (rest : List NodePath) (cut : Cut) (ns : Nodes)
      → contains b opens ≡ true
      → node f b ≡ some (branch ns)
      → All (Before false b) rest
      → Keeps (b ∷ rest) cut
      → Keeps rest (opened cut b ns)
  opened-Keeps b rest cut ns m e first keeps x available left =
      let apart : eqb x b ≡ false = elim (Bool-cases (eqb x b)) [
        | inr other ↦ other
        | inl same ↦
            let x_b = (eqb_iff x b).0 same in
            elim left [
              | inl out ↦ absurd (ground arith)
              | inr inside ↦ (All-contains (Before false b) rest x first inside).1
            ]
      ] in
      let kept = λ (a : IsAvailable (b ∷ rest) x).
        let c : contains x cut ≡ true =
          keeps x a (elim left [ inl out ↦ inl out | inr inside ↦ inr (ground arith) ]) in
        let r : contains x (opened cut b ns) ≡ true = ground (
          arith,
          contains-extend x (BTreeSet.remove b cut) (child_paths b ns),
          contains-remove x b cut,
          eqb_iff x b,
          eqb_iff b x,
        ) in
        r in
      elim available [
        | inl s ↦ kept (inl s)
        | inr (d, i, x_d, d_in, d_out, exists) ↦ elim (Bool-cases (eqb d b)) [
          | inr other ↦ kept (inr (d, i, x_d, d_in, ground arith, exists))
          | inl same ↦
              let x_b : x ≡ child b i = x_d ∙ ap (λ z. child z i) ((eqb_iff d b).0 same) in
              let (n, found) = exists_some f x exists in
              let index = index-lt-count f b i [] ns n e (ap (node f) (sym x_b) ∙ found) in
              let listed = (contains-child_paths b x ns).1 (i, index, x_b) in
              ground (arith, contains-extend x (BTreeSet.remove b cut) (child_paths b ns))
        ]
      ]

  pub open_all-Keeps :
      (rest : List NodePath) (cut : Cut)
      → IsSorted cut
      → is_valid_cut f cut ≡ true
      → Pairwise (Before false) rest
      → ((x : NodePath) → contains x rest ≡ true → contains x opens ≡ true)
      → Keeps rest cut
      → (c : Cut) × (open_all f cut rest ≡ some c)
        × IsSorted c
        × (is_valid_cut f c ≡ true)
        × Keeps [] c
  open_all-Keeps [] cut s v order within keeps = (cut, refl, s, v, keeps)
  open_all-Keeps (b ∷ rest) cut s v order within keeps =
      let m = within b (ground (arith, eqb_refl b)) in
      let (ns, at, inhabited) = branch_to_open b m in
      let e =
        open_branch-total f cut b ns v (next_selected b rest cut m order.0 keeps) at inhabited in
      let (s', v') = open_valid f cut b (opened cut b ns) s e in
      let (c, done, s'', v'', keeps') =
        open_all-Keeps rest (opened cut b ns) s' v' order.1 (λ x k. within x (ground arith))
          (opened-Keeps b rest cut ns m at order.0 keeps) in
      (c, rw (e, open_all) done, s'', v'', keeps')
