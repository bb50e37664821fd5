-- ===== src/Collections/BTreeSet.antt =====
-- `BTreeSet`, as the list of its elements in iteration order. Every operation below keeps the list
-- strictly increasing, and the membership laws need no order.
use argent.Base.{
  Ordering, ◌≡◌, refl, sym, ◌↔◌, Bool, true, false, ◌&&◌, ◌||◌, not, List, [], ◌∷◌, ◌++◌, arith,
  all, All, In,
}
use mathlib.Core.Path.{ap₂}
use argent.Collections.Order.{Ord, eqb, eqb_iff, eqb_refl, Lt, Lt-asymm}

module _ {A : Type 0} ⦃o : Ord A⦄ where
  -- `BTreeSet::contains`.
  abbrev pub contains : A → List A → Bool
  contains a [] = false
  contains a (x ∷ xs) = eqb a x || contains a xs

  -- `BTreeSet::insert`, the resulting set.
  abbrev pub insert : A → List A → List A
  insert a [] = a ∷ []
  insert a (x ∷ xs) = elim (o.cmp a x) [
    | Ordering.lt ↦ a ∷ x ∷ xs
    | Ordering.eq ↦ x ∷ xs
    | Ordering.gt ↦ x ∷ insert a xs
  ]

  -- `BTreeSet::remove`, the resulting set.
  abbrev pub remove : A → List A → List A
  remove a [] = []
  remove a (x ∷ xs) = elim (eqb a x) [ true ↦ remove a xs | false ↦ x ∷ remove a xs ]

  -- `BTreeSet::extend`.
  abbrev pub extend : List A → List A → List A
  extend s [] = s
  extend s (x ∷ xs) = extend (insert x s) xs

  -- `collect::<BTreeSet<_>>()`.
  abbrev pub from_list : List A → List A
  from_list xs = extend [] xs

  -- `BTreeSet::is_subset`.
  abbrev pub is_subset : List A → List A → Bool
  is_subset xs s = all (λ x. contains x s) xs

  -- `a` is below every element.
  abbrev pub Below : A → List A → Type 0
  Below a xs = All (Lt a) xs

  abbrev pub IsSorted : List A → Type 0
  IsSorted [] = Unit
  IsSorted (x ∷ xs) = Below x xs × IsSorted xs

  pub contains-insert : (a b : A) (s : List A) → contains a (insert b s) ≡ (eqb a b || contains a s)
  contains-insert a b [] = refl
  contains-insert a b (x ∷ xs) =
      ground (arith, contains-insert a b xs, o.cmp_eq b x, o.cmp_eq a x, o.cmp_eq a b)

  pub contains-remove :
      (a b : A) (s : List A) → contains a (remove b s) ≡ (not (eqb b a) && contains a s)
  contains-remove a b [] = ground arith
  contains-remove a b (x ∷ xs) =
      ground (arith, contains-remove a b xs, eqb_iff b x, eqb_iff a x, eqb_iff b a)

  pub contains-extend :
      (a : A) (s xs : List A) → contains a (extend s xs) ≡ (contains a xs || contains a s)
  contains-extend a s [] = refl
  contains-extend a s (x ∷ xs) =
      ground (arith, contains-extend a (insert x s) xs, contains-insert a x s)

  pub contains_iff : (a : A) (s : List A) → (contains a s ≡ true) ↔ In a s
  contains_iff a [] = (λ h. cc, λ h. absurd h)
  contains_iff a (x ∷ xs) = ground (arith, contains_iff a xs, eqb_iff a x)

  Below-trans : (a x : A) (xs : List A) → Lt a x → Below x xs → Below a xs
  Below-trans a x [] h b = tt
  Below-trans a x (y ∷ ys) h b = (o.cmp_trans a x y h b.0, Below-trans a x ys h b.1)

  Below-insert : (a b : A) (s : List A) → Lt a b → Below a s → Below a (insert b s)
  Below-insert a b [] h k = (h, tt)
  Below-insert a b (x ∷ xs) h k = ground (arith, Below-insert a b xs)

  Below-remove : (a b : A) (s : List A) → Below a s → Below a (remove b s)
  Below-remove a b [] k = tt
  Below-remove a b (x ∷ xs) k = ground (arith, Below-remove a b xs)

  pub insert-IsSorted : (a : A) (s : List A) → IsSorted s → IsSorted (insert a s)
  insert-IsSorted a [] h = (tt, tt)
  insert-IsSorted a (x ∷ xs) h =
      ground (arith, insert-IsSorted a xs, Below-trans a x xs, o.cmp_flip a x, Below-insert x a xs)

  pub remove-IsSorted : (a : A) (s : List A) → IsSorted s → IsSorted (remove a s)
  remove-IsSorted a [] h = tt
  remove-IsSorted a (x ∷ xs) h = ground (arith, remove-IsSorted a xs, Below-remove x a xs)

  pub extend-IsSorted : (s xs : List A) → IsSorted s → IsSorted (extend s xs)
  extend-IsSorted s [] h = h
  extend-IsSorted s (x ∷ xs) h = extend-IsSorted (insert x s) xs (insert-IsSorted x s h)

  -- A sorted set does not hold what lies below all its elements.
  pub contains-of_Below : (a : A) (s : List A) → Below a s → contains a s ≡ false
  contains-of_Below a [] h = refl
  contains-of_Below a (x ∷ xs) h = ground (arith, contains-of_Below a xs)

  pub Lt-of_contains : (a x : A) (xs : List A) → Below x xs → contains a xs ≡ true → Lt x a
  Lt-of_contains a x [] h m = cc
  Lt-of_contains a x (y ∷ ys) h m = ground (arith, Lt-of_contains a x ys, eqb_iff a y)

  head_eq :
      (x y : A) (xs ys : List A)
      → Below x xs
      → Below y ys
      → contains x (y ∷ ys) ≡ true
      → contains y (x ∷ xs) ≡ true
      → x ≡ y
  head_eq x y xs ys bx by h k = ground (
    arith,
    eqb_iff x y,
    eqb_iff y x,
    Lt-of_contains x y ys by,
    Lt-of_contains y x xs bx,
    Lt-asymm x y,
  )

  tail_same :
      (x : A) (xs ys : List A) (a : A)
      → Below x xs
      → Below x ys
      → contains a (x ∷ xs) ≡ contains a (x ∷ ys)
      → contains a xs ≡ contains a ys
  tail_same x xs ys a bx by h =
      ground (arith, eqb_iff a x, contains-of_Below x xs bx, contains-of_Below x ys by)

  -- Two sorted sets with the same members are equal.
  pub set_ext :
      (s t : List A) → IsSorted s → IsSorted t → ((a : A) → contains a s ≡ contains a t) → s ≡ t
  set_ext [] [] h k e = refl
  set_ext [] (y ∷ ys) h k e = ground (arith, e y, eqb_refl y)
  set_ext (x ∷ xs) [] h k e = ground (arith, e x, eqb_refl x)
  set_ext (x ∷ xs) (y ∷ ys) h k e =
      let same : x ≡ y =
        head_eq x y xs ys h.0 k.0 (ground (arith, e x, eqb_refl x))
          (ground (arith, e y, eqb_refl y)) in
      ap₂ ◌∷◌ same (
        set_ext xs ys h.1 k.1 (λ a. tail_same x xs ys a h.0 (rw same k.0) (rw (sym same) at (e a))))

  pub contains-append :
      (a : A) (xs ys : List A) → contains a (xs ++ ys) ≡ (contains a xs || contains a ys)
  contains-append a [] ys = ground arith
  contains-append a (x ∷ xs) ys = ground (arith, contains-append a xs ys)
