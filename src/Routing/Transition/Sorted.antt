-- ===== src/Routing/Transition/Sorted.antt =====
-- src/routing/commitment.rs: the order of the operations that `transition` returns.
use argent.Base.{
  ◌≤◌, ◌≡◌, refl, inl, inr, Bool, true, false, ◌||◌, List, [], ◌∷◌, All, length, arith, Bool-cases,
}
use argent.Collections.Order.{eqb, eqb_iff, bytes_ord}
use argent.Collections.BTreeSet.{contains, IsSorted, contains-of_Below}
use argent.Collections.Slices.{Pairwise}
use argent.Routing.Forest.{NodePath, Cut}
use argent.Routing.Transition.{comes_after, insert_path, sort_paths}

-- The first path may come before the second one, and is another one.
abbrev pub Before : Bool → NodePath → NodePath → Type 0
Before true a b = (length b ≤ length a) × (eqb b a ≡ false)
Before false a b = (length a ≤ length b) × (eqb b a ≡ false)

contains-insert_path :
    (deepest_first : Bool) (x a : NodePath) (xs : List NodePath)
    → contains x (insert_path deepest_first a xs) ≡ (eqb x a || contains x xs)
contains-insert_path d x a [] = refl
contains-insert_path d x a (y ∷ xs) = ground (arith, contains-insert_path d x a xs)

pub contains-sort_paths :
    (deepest_first : Bool) (x : NodePath) (xs : List NodePath)
    → contains x (sort_paths deepest_first xs) ≡ contains x xs
contains-sort_paths d x [] = refl
contains-sort_paths d x (y ∷ xs) =
    ground (arith, contains-insert_path d x y (sort_paths d xs), contains-sort_paths d x xs)

All-insert_path :
    (P : NodePath → Type 0) (d : Bool) (a : NodePath) (xs : List NodePath)
    → P a
    → All P xs
    → All P (insert_path d a xs)
All-insert_path P d a [] h k = (h, tt)
All-insert_path P d a (y ∷ xs) h k = ground (arith, All-insert_path P d a xs)

-- The test decides the order of two different paths.
comes_after-Before :
    (d : Bool) (a b : NodePath) → eqb a b ≡ false → comes_after d a b ≡ true → Before d b a
comes_after-Before true a b apart h = (ground arith, apart)
comes_after-Before false a b apart h = (ground arith, apart)

not_after-Before :
    (d : Bool) (a b : NodePath) → eqb b a ≡ false → comes_after d a b ≡ false → Before d a b
not_after-Before true a b apart h = (ground arith, apart)
not_after-Before false a b apart h = (ground arith, apart)

Before-All :
    (d : Bool) (a b : NodePath) (xs : List NodePath)
    → Before d a b
    → contains a xs ≡ false
    → All (Before d b) xs
    → All (Before d a) xs
Before-All d a b [] h m k = tt
Before-All true a b (x ∷ xs) h m k = (
  (ground arith, ground (arith, eqb_iff a x, eqb_iff x a)),
  Before-All true a b xs h (ground arith) k.1,
)
Before-All false a b (x ∷ xs) h m k = (
  (ground arith, ground (arith, eqb_iff a x, eqb_iff x a)),
  Before-All false a b xs h (ground arith) k.1,
)

insert_path-Pairwise :
    (d : Bool) (a : NodePath) (xs : List NodePath)
    → contains a xs ≡ false
    → Pairwise (Before d) xs
    → Pairwise (Before d) (insert_path d a xs)
insert_path-Pairwise d a [] m h = (tt, tt)
insert_path-Pairwise d a (y ∷ xs) m h = elim (Bool-cases (comes_after d a y)) [
  | inl after ↦
      let apart : eqb a y ≡ false = ground arith in
      let step : Pairwise (Before d) (y ∷ insert_path d a xs) = (
        All-insert_path (Before d y) d a xs (comes_after-Before d a y apart after) h.0,
        insert_path-Pairwise d a xs (ground arith) h.1,
      ) in
      rw (after, insert_path) step
  | inr first ↦
      let apart : eqb y a ≡ false = ground (arith, eqb_iff a y, eqb_iff y a) in
      let before = not_after-Before d a y apart first in
      let step : Pairwise (Before d) (a ∷ y ∷ xs) =
        ((before, Before-All d a y xs before (ground arith) h.0), h) in
      rw (first, insert_path) step
]

pub sort_paths-Pairwise :
    (d : Bool) (xs : Cut) → IsSorted xs → Pairwise (Before d) (sort_paths d xs)
sort_paths-Pairwise d [] s = tt
sort_paths-Pairwise d (x ∷ xs) s =
    insert_path-Pairwise d x (sort_paths d xs)
      (ground (arith, contains-sort_paths d x xs, contains-of_Below x xs s.0))
      (sort_paths-Pairwise d xs s.1)
