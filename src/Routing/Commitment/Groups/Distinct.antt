-- ===== src/Routing/Commitment/Groups/Distinct.antt =====
-- A group that `validate_families` accepts names no actor twice.
use argent.Base.{
  Text, ℕ, zero, suc, ◌+◌, ◌≡◌, refl, ap, subst, inl, inr, true, none, some, List, [], ◌∷◌, arith,
  get_elem?, Bool-cases,
}
use argent.Collections.Order.{eqb, eqb_iff, bytes_ord}
use argent.Collections.BTreeSet.{contains}
use argent.Collections.BTreeMap
use argent.Collections.BTreeMap.{get, get-insert}
use argent.Routing.Graph.{RouteGraph}
use argent.Routing.Commitment.{Membership, ok, validate_families}
use argent.Routing.Commitment.Groups.{
  Absorbs, stop, add, AbsorbsAll, add_all, validate_families_from-AbsorbsAll,
}

-- No two positions hold the same actor.
abbrev pub IsDistinct : List Text → Type 0
IsDistinct xs = (i j : ℕ) (a : Text) → get_elem? xs i ≡ some a → get_elem? xs j ≡ some a → i ≡ j

pub contains_at :
    (xs : List Text) (i : ℕ) (a : Text) → get_elem? xs i ≡ some a → contains a xs ≡ true
contains_at [] i a h = cc
contains_at (x ∷ xs) zero a h = ground (arith, eqb_iff a x)
contains_at (x ∷ xs) (suc i) a h = ground (arith, contains_at xs i a h)

-- The members are new to the map.
Absorbs-fresh :
    (g : RouteGraph) (index : ℕ) (rest : List Text) (m n : Membership) (a : Text)
    → Absorbs g index rest m n
    → contains a rest ≡ true
    → get a m ≡ none
Absorbs-fresh g index [] m n a stop h = cc
Absorbs-fresh g index (x ∷ rest) m n a (add known new w) h = elim (Bool-cases (eqb a x)) [
  | inl same ↦ rw ((eqb_iff a x).0 same) new
  | inr other ↦
      let later = Absorbs-fresh g index rest (BTreeMap.insert x index m) n a w (rw other at h) in
      ground (arith, get-insert a x index m)
]

Absorbs-IsDistinct :
    (g : RouteGraph) (index : ℕ) (rest : List Text) (m n : Membership)
    → Absorbs g index rest m n
    → IsDistinct rest
Absorbs-IsDistinct g index [] m n w i j a h k = cc
Absorbs-IsDistinct g index (x ∷ rest) m n (add known new w) zero zero a h k = refl
Absorbs-IsDistinct g index (x ∷ rest) m n (add known new w) zero (suc j) a h k =
    let later =
      Absorbs-fresh g index rest (BTreeMap.insert x index m) n a w (contains_at rest j a k) in
    absurd (ground (arith, get-insert a x index m, eqb_iff a x))
Absorbs-IsDistinct g index (x ∷ rest) m n (add known new w) (suc i) zero a h k =
    let later =
      Absorbs-fresh g index rest (BTreeMap.insert x index m) n a w (contains_at rest i a h) in
    absurd (ground (arith, get-insert a x index m, eqb_iff a x))
Absorbs-IsDistinct g index (x ∷ rest) m n (add known new w) (suc i) (suc j) a h k =
    ap suc (Absorbs-IsDistinct g index rest (BTreeMap.insert x index m) n w i j a h k)

AbsorbsAll-IsDistinct :
    (g : RouteGraph) (index : ℕ) (groups : List (List Text)) (m n : Membership)
    → AbsorbsAll g index groups m n
    → (i : ℕ) (group : List Text) → get_elem? groups i ≡ some group
    → IsDistinct group
AbsorbsAll-IsDistinct g index [] m n w i group h = cc
AbsorbsAll-IsDistinct g index ([] ∷ rest) m n w i group h = elim w [ ]
AbsorbsAll-IsDistinct g index ((a ∷ first) ∷ rest) m n (add_all {n = k} w ws) zero group h =
    let same : a ∷ first ≡ group = ground arith in
    subst IsDistinct same (Absorbs-IsDistinct g index (a ∷ first) m k w)
AbsorbsAll-IsDistinct g index ((a ∷ first) ∷ rest) m n (add_all {n = k} w ws) (suc i) group h =
    AbsorbsAll-IsDistinct g (index + 1) rest k n ws i group h

pub validate_families-IsDistinct :
    (g : RouteGraph) (families : List (List Text)) (m : Membership)
    → validate_families g families ≡ ok m
    → (i : ℕ) (family : List Text) → get_elem? families i ≡ some family
    → IsDistinct family
unfolding validate_families
validate_families-IsDistinct g families m h =
    AbsorbsAll-IsDistinct g 0 families [] m (validate_families_from-AbsorbsAll g 0 families [] m h)
