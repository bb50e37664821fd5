-- ===== src/Routing/RoutePlan/Table.antt =====
-- src/routing/plan.rs: the table of a family.
use argent.Base.{
  Text, ℕ, ◌≤◌, ◌≡◌, refl, inl, inr, Bool, true, false, not, ◌&&◌, ltb, Option, none, some, List,
  [], ◌∷◌, ◌++◌, All, arith, length, length-append, select, Bool-cases,
}
use argent.Collections.Order.{eqb, eqb_iff, bytes_ord, Lt-irrefl}
use argent.Collections.BTreeSet.{
  contains, IsSorted, Below, contains-extend, from_list, Lt-of_contains,
}
use argent.Routing.RoutePlan.Selectors.{Other}
use argent.Routing.RoutePlan.Prefix.{NoRepeat, Within}
use argent.Routing.RoutePlan.Families.{family_table}

pub Within-at :
    (s xs : List Text) (x : Text) → Within s xs → contains x xs ≡ true → contains x s ≡ true
Within-at s [] x h m = cc
Within-at s (y ∷ ys) x h m = ground (arith, Within-at s ys x h.1, eqb_iff x y)

pub Within-of :
    (s xs : List Text) → ((x : Text) → contains x xs ≡ true → contains x s ≡ true) → Within s xs
Within-of s [] h = tt
Within-of s (x ∷ xs) h =
    (h x (ground (arith, eqb_iff x x)), Within-of s xs (λ y m. h y (ground arith)))

module _ (p : Text → Bool) where
  pub contains-select_by :
      (x : Text) (xs : List Text) → contains x (select p xs) ≡ (contains x xs && p x)
  contains-select_by x [] = refl
  contains-select_by x (y ∷ ys) = elim (Bool-cases (eqb x y)) [
    | inl same ↦ rw ((eqb_iff x y).0 same) (ground (arith, contains-select_by y ys, eqb_iff y y))
    | inr other ↦ ground (arith, contains-select_by x ys)
  ]

  All-select : (P : Text → Type 0) (xs : List Text) → All P xs → All P (select p xs)
  All-select P [] h = tt
  All-select P (x ∷ xs) h = ground (arith, All-select P xs)

  pub NoRepeat-select : (xs : List Text) → NoRepeat xs → NoRepeat (select p xs)
  NoRepeat-select [] h = tt
  NoRepeat-select (x ∷ xs) h = ground (arith, NoRepeat-select xs h.1, All-select (Other x) xs h.0)

All-append : (P : Text → Type 0) (xs ys : List Text) → All P xs → All P ys → All P (xs ++ ys)
All-append P [] ys h k = k
All-append P (x ∷ xs) ys h k = (h.0, All-append P xs ys h.1 k)

Other-of_absent : (x : Text) (ys : List Text) → contains x ys ≡ false → All (Other x) ys
Other-of_absent x [] h = tt
Other-of_absent x (y ∷ ys) h = ground (arith, Other-of_absent x ys, eqb_iff y x, eqb_iff x y)

NoRepeat-append :
    (xs ys : List Text)
    → NoRepeat xs
    → NoRepeat ys
    → ((x : Text) → contains x xs ≡ true → contains x ys ≡ false)
    → NoRepeat (xs ++ ys)
NoRepeat-append [] ys h k apart = k
NoRepeat-append (x ∷ xs) ys h k apart = (
  All-append (Other x) xs ys h.0 (Other-of_absent x ys (apart x (ground (arith, eqb_iff x x)))),
  NoRepeat-append xs ys h.1 k (λ y m. apart y (ground arith)),
)

-- An ordered set has no element twice.
pub NoRepeat-of_IsSorted : (xs : List Text) → IsSorted xs → NoRepeat xs
NoRepeat-of_IsSorted [] h = tt
NoRepeat-of_IsSorted (x ∷ xs) h = (distinct x xs h.0, NoRepeat-of_IsSorted xs h.1)
  where
    distinct : (a : Text) (ys : List Text) → Below a ys → All (Other a) ys
    distinct a ys below = Other-of_absent a ys (elim (Bool-cases (contains a ys)) [
      | inl m ↦ absurd (Lt-irrefl a (Lt-of_contains a a ys below m))
      | inr out ↦ out
    ])

-- What a table, and the prefix of one, has to be.
pub record IsTable (members table : List Text) : Type 0 where
  pub several : 2 ≤ length table
  pub distinct : NoRepeat table
  pub inside : Within members table

abbrev pub IsPrefix : List Text → Option (List Text) → Type 0
IsPrefix members none = Unit
IsPrefix members (some prefix) = IsTable members prefix

pub family_table_lem :
    (prefix : Option (List Text)) (size : ℕ) (members gates table : List Text)
    → NoRepeat members
    → IsPrefix members prefix
    → family_table prefix size members gates ≡ some table
    → IsTable members table
unfolding family_table
family_table_lem (some prefix) size members gates table apart t h =
    let p = λ (actor : Text).
      not (contains actor (from_list gates)) && not (contains actor (from_list prefix)) in
    let same : prefix ++ select p members ≡ table = ground arith in
    rw (← same) (record {
      several = omega (arith, t.several, length-append prefix (select p members));
      distinct =
          NoRepeat-append prefix (select p members) t.distinct (NoRepeat-select p members apart)
            (λ x m. ground (arith, contains-select_by p x members, contains-extend x [] prefix));
      inside =
          All-append (λ x. contains x members ≡ true) prefix (select p members) t.inside
            (Within-of members (select p members)
              (λ x m. ground (arith, contains-select_by p x members)));
    })
family_table_lem none size members gates table apart t h =
    let p = λ (actor : Text). not (contains actor (from_list gates)) in
    let both : (select p members ≡ table) × (ltb (length (select p members)) 2 ≡ false) =
      ground arith in
    rw (← both.0) (record {
      several = ground arith;
      distinct = NoRepeat-select p members apart;
      inside =
          Within-of members (select p members)
            (λ x m. ground (arith, contains-select_by p x members));
    })
