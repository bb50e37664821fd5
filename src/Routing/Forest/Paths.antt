-- ===== src/Routing/Forest/Paths.antt =====
-- Prefixes of node paths, their order, and the nodes that they lead to.
use argent.Base.{
  ℕ, zero, suc, ◌+◌, ◌<◌, ◌≤◌, ◌≡◌, refl, ap, ◌↔◌, ◌⊎◌, inl, inr, true, none, some, List, [], ◌∷◌,
  ◌++◌, map, arith, length, Bool-cases, Option-cases, ◌∙◌, length-append, In,
}
use argent.Collections.Order.{eqb, eqb_iff, bytes_ord, Lt}
use argent.Collections.BTreeSet.{contains}
use argent.Collections.Slices.{starts_with}
use argent.Routing.Forest.{
  CommitmentNode, Nodes, leaf, branch, nil, cons, CommitmentForest, count, nth, NodePath, child,
  range_from, child_paths, descend, node,
}

pub starts_with_refl : (p : List ℕ) → starts_with p p ≡ true
starts_with_refl [] = refl
starts_with_refl (x ∷ xs) = ground (arith, starts_with_refl xs)

pub starts_with_trans :
    (p q r : List ℕ) → starts_with p q ≡ true → starts_with q r ≡ true → starts_with p r ≡ true
starts_with_trans p q [] h k = refl
starts_with_trans p [] (z ∷ zs) h k = cc
starts_with_trans [] (y ∷ ys) (z ∷ zs) h k = cc
starts_with_trans (x ∷ xs) (y ∷ ys) (z ∷ zs) h k = ground (arith, starts_with_trans xs ys zs)

-- What lies between a path and one of its descendants is a descendant too.
pub starts_with-between :
    (q r p : List ℕ) → Lt q r → Lt r p → starts_with p q ≡ true → starts_with r q ≡ true
starts_with-between [] r p h k s = refl
starts_with-between (y ∷ ys) [] p h k s = cc
starts_with-between (y ∷ ys) (z ∷ zs) [] h k s = cc
starts_with-between (y ∷ ys) (z ∷ zs) (x ∷ xs) h k s = ground (arith, starts_with-between ys zs xs)

-- A descendant is not before its ancestor.
pub ge_of_starts_with : (p q : List ℕ) → starts_with p q ≡ true → Lt p q → ⊥
ge_of_starts_with [] [] s h = cc
ge_of_starts_with (x ∷ xs) [] s h = cc
ge_of_starts_with [] (y ∷ ys) s h = cc
ge_of_starts_with (x ∷ xs) (y ∷ ys) s h = ground (arith, ge_of_starts_with xs ys)

pub starts_with-child : (p : NodePath) (i : ℕ) → starts_with (child p i) p ≡ true
starts_with-child [] i = refl
starts_with-child (x ∷ xs) i = ground (arith, starts_with-child xs i)

-- The ancestors of a child are the child and the ancestors of its parent.
pub starts_with-of_child :
    (p q : NodePath) (i : ℕ)
    → starts_with (child p i) q ≡ true
    → (q ≡ child p i) ⊎ (starts_with p q ≡ true)
starts_with-of_child p [] i h = inr refl
starts_with-of_child [] (y ∷ []) i h = ground arith
starts_with-of_child [] (y ∷ z ∷ zs) i h = ground arith
starts_with-of_child (x ∷ xs) (y ∷ ys) i h = ground (arith, starts_with-of_child xs ys i)

-- A descendant is the path itself or lies under one of its children.
pub starts_with-cases :
    (p q : NodePath)
    → starts_with p q ≡ true
    → (p ≡ q) ⊎ ((i : ℕ) × (rest : List ℕ) × (p ≡ q ++ i ∷ rest))
starts_with-cases [] [] h = inl refl
starts_with-cases (x ∷ xs) [] h = inr (x, xs, refl)
starts_with-cases [] (y ∷ ys) h = cc
starts_with-cases (x ∷ xs) (y ∷ ys) h = elim (starts_with-cases xs ys (ground arith)) [
  | inl e ↦ inl (ground arith)
  | inr (i, rest, e) ↦ inr (i, rest, ground arith)
]

pub starts_with-under_child :
    (p : NodePath) (i : ℕ) (rest : List ℕ) → starts_with (p ++ i ∷ rest) (child p i) ≡ true
starts_with-under_child [] i rest = ground arith
starts_with-under_child (x ∷ xs) i rest = ground (arith, starts_with-under_child xs i rest)

pub child-injective : (p : NodePath) (i j : ℕ) → child p i ≡ child p j → i ≡ j
child-injective [] i j e = cc
child-injective (x ∷ xs) i j e = child-injective xs i j (cc)

pub child-ne : (p : NodePath) (i : ℕ) → child p i ≡ p → ⊥
child-ne p i e = omega (arith, ap length e, length-append p (i ∷ []))

children_start : (p : NodePath) (i j : ℕ) → starts_with (child p i) (child p j) ≡ true → i ≡ j
children_start [] i j h = ground arith
children_start (x ∷ xs) i j h = children_start xs i j (ground arith)

pub starts_with-siblings :
    (p : NodePath) (i j : ℕ) → starts_with (child p i) (child p j) ≡ true → child p i ≡ child p j
starts_with-siblings p i j h = ap (child p) (children_start p i j h)

nth-of_lt : (ns : Nodes) (i : ℕ) → i < count ns → (n : CommitmentNode) × (nth ns i ≡ some n)
nth-of_lt nil i h = absurd (omega arith)
nth-of_lt (cons n ns) zero h = (n, refl)
nth-of_lt (cons n ns) (suc i) h = nth-of_lt ns i (omega arith)

lt_of_nth : (ns : Nodes) (i : ℕ) {n : CommitmentNode} → nth ns i ≡ some n → i < count ns
lt_of_nth nil i h = cc
lt_of_nth (cons n ns) zero h = omega arith
lt_of_nth (cons n ns) (suc i) h = omega (arith, lt_of_nth ns i h)

-- Below a branch the next index chooses a child.
descend-append :
    (n : CommitmentNode) (p : List ℕ) (i : ℕ) (rest : List ℕ) (ns : Nodes)
    → descend n p ≡ some (branch ns)
    → descend n (p ++ i ∷ rest) ≡ elim (nth ns i) [ none ↦ none | some c ↦ descend c rest ]
descend-append (leaf a) [] i rest ns e = cc
descend-append (branch cs) [] i rest ns e = ground arith
descend-append (leaf a) (j ∷ p) i rest ns e = cc
descend-append (branch cs) (j ∷ p) i rest ns e = elim (Option-cases (nth cs j)) [
  | inl gone ↦ cc (rw (gone, descend) at e)
  | inr (c, found) ↦ rw (found, descend) (descend-append c p i rest ns (rw (found, descend) at e))
]

pub node-append :
    (f : CommitmentForest) (p : NodePath) (i : ℕ) (rest : List ℕ) (ns : Nodes)
    → node f p ≡ some (branch ns)
    → node f (p ++ i ∷ rest) ≡ elim (nth ns i) [ none ↦ none | some c ↦ descend c rest ]
node-append f [] i rest ns e = cc
node-append f (j ∷ p) i rest ns e = elim (Option-cases (nth f.roots j)) [
  | inl gone ↦ cc (rw (gone, node) at e)
  | inr (c, found) ↦ rw (found, node) (descend-append c p i rest ns (rw (found, node) at e))
]

-- A path below a branch exists only under one of its children.
pub index-lt-count :
    (f : CommitmentForest) (p : NodePath) (i : ℕ) (rest : List ℕ) (ns : Nodes) (n : CommitmentNode)
    → node f p ≡ some (branch ns)
    → node f (p ++ i ∷ rest) ≡ some n
    → i < count ns
index-lt-count f p i rest ns n e h = elim (Option-cases (nth ns i)) [
  | inl gone ↦ cc (rw gone at (node-append f p i rest ns e))
  | inr (c, found) ↦ lt_of_nth ns i found
]

pub node-child :
    (f : CommitmentForest) (p : NodePath) (i : ℕ) (ns : Nodes)
    → node f p ≡ some (branch ns)
    → i < count ns
    → (n : CommitmentNode) × (node f (child p i) ≡ some n)
node-child f p i ns e h =
    let (n, found) = nth-of_lt ns i h in (n, node-append f p i [] ns e ∙ rw found refl)

In-range_from : (start n i : ℕ) → In i (range_from start n) ↔ ((start ≤ i) × (i < start + n))
In-range_from start zero i = (λ m. absurd m, λ h. absurd (omega arith))
In-range_from start (suc n) i = ground (arith, In-range_from (start + 1) n i)

contains-map-child :
    (p x : NodePath) (is : List ℕ)
    → (contains x (map (child p) is) ≡ true) ↔ ((i : ℕ) × In i is × (x ≡ child p i))
contains-map-child p x [] = (λ h. cc, λ h. absurd h.1)
contains-map-child p x (j ∷ js) = (
  λ h. elim (Bool-cases (eqb x (child p j))) [
    | inl e ↦ (j, inl refl, (eqb_iff x (child p j)).0 e)
    | inr e ↦ let (i, m, q) = (contains-map-child p x js).0 (ground arith) in (i, inr m, q)
  ],
  λ h. elim h.1 [
    | inl e ↦ ground (arith, eqb_iff x (child p j), h.2, ap (child p) e)
    | inr m ↦ ground (arith, (contains-map-child p x js).1 (h.0, m, h.2))
  ],
)

-- The child paths of a branch are the paths to its children.
pub contains-child_paths :
    (p x : NodePath) (ns : Nodes)
    → (contains x (child_paths p ns) ≡ true) ↔ ((i : ℕ) × (i < count ns) × (x ≡ child p i))
contains-child_paths p x ns = (
  λ h.
      let (i, m, e) = (contains-map-child p x (range_from 0 (count ns))).0 h in
      (i, omega (arith, ((In-range_from 0 (count ns) i).0 m).1), e),
  λ h.
      (contains-map-child p x (range_from 0 (count ns))).1
        (h.0, (In-range_from 0 (count ns) h.0).1 (omega arith, omega (arith, h.1)), h.2),
)
