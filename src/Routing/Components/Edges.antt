-- ===== src/Routing/Components/Edges.antt =====
-- The edges of a relation, in its list of rows and by its lookups, and those from outside a domain.
use argent.Base.{
  Text, ◌≡◌, refl, inl, inr, true, false, not, ◌&&◌, List, [], ◌∷◌, arith, Bool-cases,
}
use argent.Collections.Order.{eqb, eqb_iff, bytes_ord}
use argent.Collections.BTreeSet.{contains, IsSorted, contains-of_Below}
use argent.Collections.BTreeMap.{keys}
use argent.Routing.Graph.{Relation, targets}
use argent.Routing.Components.Linked.{edge, outer}

edge-of_absent : (m : Relation) (x y : Text) → contains x (keys m) ≡ false → edge m x y ≡ false
edge-of_absent [] x y h = refl
edge-of_absent ((s, ts) ∷ m) x y h = ground (arith, edge-of_absent m x y)

pub edge-eq-targets :
    (m : Relation) (x y : Text) → IsSorted (keys m) → edge m x y ≡ contains y (targets m x)
edge-eq-targets [] x y h = refl
edge-eq-targets ((s, ts) ∷ m) x y h = elim (Bool-cases (eqb x s)) [
  | inl same ↦
      let below : contains x (keys m) ≡ false =
        rw ((eqb_iff x s).0 same) (contains-of_Below s (keys m) h.0) in
      ground (arith, edge-of_absent m x y below)
  | inr other ↦ ground (arith, edge-eq-targets m x y h.1)
]

pub outer-of_edge :
    (domain : List Text) (m : Relation) (s t : Text)
    → contains s domain ≡ false
    → contains t domain ≡ true
    → edge m s t ≡ true
    → outer domain m t ≡ true
outer-of_edge domain [] s t h k e = cc
outer-of_edge domain ((r, ts) ∷ m) s t h k e =
    ground (arith, outer-of_edge domain m s t h k, eqb_iff s r)

pub edge-of_outer :
    (domain : List Text) (m : Relation) (t : Text)
    → outer domain m t ≡ true
    → (s : Text) × (contains s domain ≡ false) × (edge m s t ≡ true) × (contains t domain ≡ true)
edge-of_outer domain [] t h = cc
edge-of_outer domain ((r, ts) ∷ m) t h =
    elim (Bool-cases (not (contains r domain) && (contains t ts && contains t domain))) [
      | inl first ↦ (r, ground arith, ground (arith, eqb_iff r r), ground arith)
      | inr later ↦
          let (s, a, b, c) = edge-of_outer domain m t (ground arith) in (s, a, ground arith, c)
    ]
