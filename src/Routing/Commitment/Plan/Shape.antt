-- ===== src/Routing/Commitment/Plan/Shape.antt =====
-- The shape of the cuts that the planner builds, and that it makes them valid: roots, and leaves
-- below roots that are not selected.
use argent.Base.{Text, ℕ, ◌≡◌, ◌⊎◌, inl, inr, true, false, some, List, arith, get_elem?}
use argent.Collections.Order.{bytes_ord}
use argent.Collections.BTreeSet.{contains}
use argent.Routing.Forest.{
  CommitmentNode, branch, CommitmentForest, NodePath, Cut, child, root, exists_at,
}
use argent.Routing.Forest.Validity.{IsCut}
use argent.Routing.Commitment.Locations.{leaves, to_nodes}
use argent.Routing.Commitment.Locations.Exact.{node-root, node-leaf}

module _ (roots : List CommitmentNode) where
  abbrev pub forest : CommitmentForest
  forest = record { roots = to_nodes roots }

  -- The path of a root.
  abbrev pub AtRoot : NodePath → Type 0
  AtRoot p = (r : ℕ) × (n : CommitmentNode) × (p ≡ root r) × (get_elem? roots r ≡ some n)

  -- The path of a leaf of a family.
  abbrev pub AtLeaf : ℕ → NodePath → Type 0
  AtLeaf r p =
      (k : ℕ) × (family : List Text) × (a : Text) × (p ≡ child (root r) k)
      × (get_elem? roots r ≡ some (branch (leaves family)))
      × (get_elem? family k ≡ some a)

  abbrev pub Shape : Cut → Type 0
  Shape cut =
      (p : NodePath)
      → contains p cut ≡ true
      → AtRoot p ⊎ ((r : ℕ) × AtLeaf r p × (contains (root r) cut ≡ false))

  exists_root : (p : NodePath) → AtRoot p → exists_at forest p ≡ true
  exists_root p (r, n, e, at) = rw e (ground (arith, node-root roots r at))

  exists_leaf : (r : ℕ) (p : NodePath) → AtLeaf r p → exists_at forest p ≡ true
  exists_leaf r p (k, family, a, e, at, m) =
      rw e (ground (arith, node-leaf roots r k family a at m))

  pub Shape-IsCut : (cut : Cut) → Shape cut → IsCut forest cut
  Shape-IsCut cut shape = record {
    exists =
        λ p m. elim (shape p m) [ inl at ↦ exists_root p at | inr (r, at, _) ↦ exists_leaf r p at ];
    antichain = λ p q m k t. elim (shape p m) [
      | inl (r, _, e, _) ↦ elim (shape q k) [
        | inl (r', _, e', _) ↦ ground arith
        | inr (r', (j, _, _, e', _, _), _) ↦ absurd (ground arith)
      ]
      | inr (r, (i, _, _, e, _, _), apart) ↦ elim (shape q k) [
        | inl (r', _, e', _) ↦ absurd (ground arith)
        | inr (r', (j, _, _, e', _, _), _) ↦ ground arith
      ]
    ];
  }
