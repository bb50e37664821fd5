-- ===== src/Routing/Commitment/Plan/Moves.antt =====
-- The shape of cuts when a root or a leaf enters, and when a root leaves.
use argent.Base.{Text, ℕ, ◌≡◌, sym, subst, inl, inr, false, some, arith, get_elem?, Bool-cases}
use argent.Collections.Order.{eqb, eqb_iff, nat_ord, bytes_ord}
use argent.Collections.BTreeSet
use argent.Collections.BTreeSet.{
  contains, IsSorted, contains-insert, contains-remove, insert-IsSorted, remove-IsSorted,
}
use argent.Routing.Forest.{leaf, NodePath, Cut, root}
use argent.Routing.Commitment.Locations.{Building}
use argent.Routing.Commitment.Plan.Shape.{AtLeaf, Shape}

module _ (st : Building) where
  -- A root leaf is selected.
  pub insert_root-Shape :
      (cut : Cut) (r : ℕ) (a : Text)
      → get_elem? st.roots r ≡ some (leaf a)
      → Shape st.roots cut
      → Shape st.roots (BTreeSet.insert (root r) cut)
  insert_root-Shape cut r a at shape p m = elim (Bool-cases (eqb p (root r))) [
    | inl same ↦ inl (r, leaf a, (eqb_iff p (root r)).0 same, at)
    | inr other ↦ elim (shape p (ground (arith, contains-insert p (root r) cut))) [
      | inl old ↦ inl old
      | inr (s, (k, family, b, e, branch_at, mem), apart) ↦ inr (
        s,
        (k, family, b, e, branch_at, mem),
        ground (arith, contains-insert (root s) (root r) cut, eqb_iff (root s) (root r)),
      )
    ]
  ]

  -- A leaf below a root that is not selected.
  pub insert_leaf-Shape :
      (cut : Cut) (r : ℕ) (p : NodePath)
      → AtLeaf st.roots r p
      → contains (root r) cut ≡ false
      → Shape st.roots cut
      → Shape st.roots (BTreeSet.insert p cut) × (contains (root r) (BTreeSet.insert p cut) ≡ false)
  insert_leaf-Shape cut r p at apart shape =
      let (k, family, a, e, branch_at, mem) = at in
      let root_stays : (s : ℕ)
          → contains (root s) cut ≡ false
          → contains (root s) (BTreeSet.insert p cut) ≡ false =
        λ s h. ground (arith, contains-insert (root s) p cut, eqb_iff (root s) p) in
      (
        λ q m. elim (Bool-cases (eqb q p)) [
          | inl same ↦
              inr (r, subst (AtLeaf st.roots r) (sym ((eqb_iff q p).0 same)) at, root_stays r apart)
          | inr other ↦ elim (shape q (ground (arith, contains-insert q p cut))) [
            | inl old ↦ inl old
            | inr (s, leaf_at, clear) ↦ inr (s, leaf_at, root_stays s clear)
          ]
        ],
        root_stays r apart,
      )

  pub remove_root-Shape :
      (cut : Cut) (p : NodePath) → Shape st.roots cut → Shape st.roots (BTreeSet.remove p cut)
  remove_root-Shape cut p shape q m = elim (shape q (ground (arith, contains-remove q p cut))) [
    | inl old ↦ inl old
    | inr (s, leaf_at, clear) ↦ inr (s, leaf_at, ground (arith, contains-remove (root s) p cut))
  ]
