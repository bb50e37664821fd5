-- ===== src/Routing/Forest/Moves/Kept.antt =====
-- `open` and `pack` keep cuts valid.
use argent.Base.{
  ℕ, ◌<◌, ◌≡◌, sym, subst, ◌∙◌, ◌⊎◌, inl, inr, true, false, some, arith, Bool-cases, Option-cases,
}
use argent.Collections.Order.{eqb, eqb_iff, bytes_ord}
use argent.Collections.BTreeSet
use argent.Collections.BTreeSet.{
  contains, IsSorted, contains-insert, contains-remove, contains-extend, insert-IsSorted,
  remove-IsSorted, extend-IsSorted,
}
use argent.Collections.Slices.{starts_with}
use argent.Routing.Forest.{
  CommitmentNode, Nodes, branch, CommitmentForest, count, NodePath, Cut, child, child_paths, node,
  exists_at, is_valid_cut, open_branch, remove_all, pack,
}
use argent.Routing.Forest.Paths.{
  starts_with_trans, starts_with-child, starts_with-of_child, starts_with-cases,
  starts_with-under_child, starts_with-siblings, node-child, index-lt-count, contains-child_paths,
}
use argent.Routing.Forest.Validity.{IsCut, is_valid_cut_iff}
use argent.Routing.Forest.Moves.{
  IsBranch, opened, packed, open_branch-Opens, pack-Packs, remove_all-IsSorted, contains-remove_all,
}

exists_at-of_node :
    (f : CommitmentForest) (p : NodePath) (n : CommitmentNode)
    → node f p ≡ some n
    → exists_at f p ≡ true
exists_at-of_node f p n e = ground arith

node-of_exists_at :
    (f : CommitmentForest) (p : NodePath)
    → exists_at f p ≡ true
    → (n : CommitmentNode) × (node f p ≡ some n)
node-of_exists_at f p h = elim (Option-cases (node f p)) [
  | inl gone ↦ absurd (ground arith)
  | inr found ↦ found
]

module _ (f : CommitmentForest) (cut : Cut) (b : NodePath) (ns : Nodes) (br : IsBranch f b ns) where
  -- A member of the opened set is a child of the branch, or an old member other than the branch.
  pub opened-cases :
      (x : NodePath)
      → contains x (opened cut b ns) ≡ true
      → ((i : ℕ) × (i < count ns) × (x ≡ child b i)) ⊎ ((contains x cut ≡ true) × (eqb b x ≡ false))
  opened-cases x m = elim (Bool-cases (contains x (child_paths b ns))) [
    | inl c ↦ inl ((contains-child_paths b x ns).0 c)
    | inr c ↦ inr (
        ground (
          arith,
          contains-extend x (BTreeSet.remove b cut) (child_paths b ns),
          contains-remove x b cut,
        ))
  ]

  module _ (c : IsCut f cut) where
    opened-IsCut : contains b cut ≡ true → IsCut f (opened cut b ns)
    opened-IsCut sel = record {
      exists = λ p m. elim (opened-cases p m) [
        | inl (i, lt, e) ↦
            let (n, found) = node-child f b i ns br.at lt in
            rw e (exists_at-of_node f (child b i) n found)
        | inr (old, _) ↦ c.exists p old
      ];
      antichain = λ p q m k t. elim (opened-cases p m) [
        | inl (i, _, e) ↦ elim (opened-cases q k) [
          | inl (j, _, e') ↦
              e
              ∙ starts_with-siblings b i j (
                  subst (λ z. starts_with z (child b j) ≡ true) e
                    (subst (λ z. starts_with p z ≡ true) e' t))
              ∙ sym e'
          | inr (old, other) ↦
              elim (starts_with-of_child b q i (subst (λ z. starts_with z q ≡ true) e t)) [
                | inl same ↦ e ∙ sym same
                | inr above ↦ absurd (ground (arith, c.antichain b q sel old above, eqb_iff b q))
              ]
        ]
        | inr (old, other) ↦ elim (opened-cases q k) [
          | inl (j, _, e') ↦
              let up =
                starts_with_trans p (child b j) b (subst (λ z. starts_with p z ≡ true) e' t)
                  (starts_with-child b j) in
              absurd (ground (arith, c.antichain p b old sel up, eqb_iff b p))
          | inr (old', _) ↦ c.antichain p q old old' t
        ]
      ];
    }

  pub packed-cases :
      (x : NodePath)
      → contains x (packed cut b ns) ≡ true
      → (x ≡ b) ⊎ ((contains x cut ≡ true) × (contains x (child_paths b ns) ≡ false))
  packed-cases x m = elim (Bool-cases (eqb x b)) [
    | inl e ↦ inl ((eqb_iff x b).0 e)
    | inr e ↦ inr (
        ground (
          arith,
          contains-insert x b (remove_all (child_paths b ns) cut),
          contains-remove_all x (child_paths b ns) cut,
        ))
  ]

  module _ (c : IsCut f cut) (all : (i : ℕ) → i < count ns → contains (child b i) cut ≡ true) where
    -- A selected node strictly below the branch is one of its children.
    below_branch :
        (p : NodePath)
        → contains p cut ≡ true
        → starts_with p b ≡ true
        → (p ≡ b) ⊎ (contains p (child_paths b ns) ≡ true)
    below_branch p m t = elim (starts_with-cases p b t) [
      | inl e ↦ inl e
      | inr (i, rest, e) ↦
          let (n, found) = node-of_exists_at f p (c.exists p m) in
          let lt = index-lt-count f b i rest ns n br.at (subst (λ z. node f z ≡ some n) e found) in
          let same =
            c.antichain p (child b i) m (all i lt) (rw e (starts_with-under_child b i rest)) in
          inr ((contains-child_paths b p ns).1 (i, lt, same))
    ]

    -- The branch is not above another member of the packed set, which is no child of it.
    above_branch :
        (q : NodePath)
        → contains q cut ≡ true
        → contains q (child_paths b ns) ≡ false
        → starts_with b q ≡ true
        → ⊥
    above_branch q m apart t =
        let up = starts_with_trans (child b 0) b q (starts_with-child b 0) t in
        let same = c.antichain (child b 0) q (all 0 br.inhabited) m up in
        let is_child = (contains-child_paths b q ns).1 (0, br.inhabited, sym same) in cc

    packed-IsCut : IsCut f (packed cut b ns)
    packed-IsCut = record {
      exists = λ p m. elim (packed-cases p m) [
        | inl e ↦ rw e (exists_at-of_node f b (branch ns) br.at)
        | inr (old, _) ↦ c.exists p old
      ];
      antichain = λ p q m k t. elim (packed-cases p m) [
        | inl e ↦ elim (packed-cases q k) [
          | inl e' ↦ e ∙ sym e'
          | inr (old, apart) ↦ absurd (above_branch q old apart (rw e at t))
        ]
        | inr (old, apart) ↦ elim (packed-cases q k) [
          | inl e' ↦ elim (below_branch p old (subst (λ z. starts_with p z ≡ true) e' t)) [
            | inl same ↦ same ∙ sym e'
            | inr is_child ↦ absurd (cc)
          ]
          | inr (old', _) ↦ c.antichain p q old old' t
        ]
      ];
    }

opened-IsSorted :
    (cut : Cut) (b : NodePath) (ns : Nodes) → IsSorted cut → IsSorted (opened cut b ns)
opened-IsSorted cut b ns s = extend-IsSorted _ (child_paths b ns) (remove-IsSorted b cut s)

packed-IsSorted :
    (cut : Cut) (b : NodePath) (ns : Nodes) → IsSorted cut → IsSorted (packed cut b ns)
packed-IsSorted cut b ns s = insert-IsSorted b _ (remove_all-IsSorted (child_paths b ns) cut s)

-- Opening a selected branch of a valid cut gives a valid cut again, in order.
pub open_valid :
    (f : CommitmentForest) (cut : Cut) (b : NodePath) (c : Cut)
    → IsSorted cut
    → open_branch f cut b ≡ some c
    → IsSorted c × (is_valid_cut f c ≡ true)
open_valid f cut b c s h =
    let o = open_branch-Opens f cut b c h in
    let sorted = opened-IsSorted cut b o.children s in
    let old = (is_valid_cut_iff f cut s).0 o.valid in
    rw o.result (
      sorted,
      (is_valid_cut_iff f _ sorted).1 (opened-IsCut f cut b o.children o.is_branch old o.selected),
    )

-- Packing a branch of a valid cut gives a valid cut again, in order.
pub pack_valid :
    (f : CommitmentForest) (cut : Cut) (b : NodePath) (c : Cut)
    → IsSorted cut
    → pack f cut b ≡ some c
    → IsSorted c × (is_valid_cut f c ≡ true)
pack_valid f cut b c s h =
    let o = pack-Packs f cut b c h in
    let sorted = packed-IsSorted cut b o.children s in
    let old = (is_valid_cut_iff f cut s).0 o.valid in
    rw o.result (
      sorted,
      (is_valid_cut_iff f _ sorted).1 (packed-IsCut f cut b o.children o.is_branch old o.selected),
    )
