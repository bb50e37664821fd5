-- ===== src/Routing/RoutePlan/Groups.antt =====
-- Groups of actors that the validation of the planner accepts.
use argent.Base.{
  Text, ℕ, ◌+◌, ◌≡◌, ◌≢◌, refl, inl, inr, true, false, none, some, List, [], ◌∷◌, All, arith,
  if◌then◌else◌, Bool-cases,
}
use argent.Collections.Order.{eqb, eqb_iff, bytes_ord}
use argent.Collections.BTreeSet
use argent.Collections.BTreeSet.{contains, contains-insert}
use argent.Collections.BTreeMap
use argent.Collections.BTreeMap.{get, contains_key, get-insert}
use argent.Collections.Slices.{Pairwise}
use argent.Routing.Graph.{RouteGraph, IsActor}
use argent.Routing.Commitment.{
  Membership, ok, validate_family, validate_families_from, validate_families, validate_cohort,
  validate_cohorts_from, validate_cohorts,
}
use argent.Routing.RoutePlan.Selectors.{Other}
use argent.Routing.RoutePlan.Prefix.{NoRepeat}

abbrev pub Apart : List Text → List Text → Type 0
Apart xs ys = (x : Text) → contains x xs ≡ true → contains x ys ≡ true → ⊥

-- A group with members, all actors, none twice.
abbrev pub IsGroup : RouteGraph → List Text → Type 0
IsGroup g xs = (xs ≢ []) × ((x : Text) → contains x xs ≡ true → IsActor g x) × NoRepeat xs

abbrev pub AreGroups : RouteGraph → List (List Text) → Type 0
AreGroups g gs = All (IsGroup g) gs × Pairwise Apart gs

abbrev New : Membership → List Text → Type 0
New m xs = (x : Text) → contains x xs ≡ true → get x m ≡ none

absent : (x : Text) (m : Membership) → get x m ≡ none → contains_key x m ≡ false
absent x m h = ground arith

Other-ne : (x y : Text) (xs : List Text) → All (Other x) xs → contains y xs ≡ true → eqb y x ≡ false
Other-ne x y [] h c = cc
Other-ne x y (z ∷ xs) h c = ground (arith, Other-ne x y xs, eqb_iff y z)

-- What entering a group changes in the map.
abbrev Entered : ℕ → List Text → Membership → Membership → Type 0
Entered i xs m n = (x : Text) → get x n ≡ (if contains x xs then some i else get x m)

module _ (g : RouteGraph) where
  validate_family-ok :
      (i : ℕ) (members rest : List Text) (m : Membership)
      → ((x : Text) → contains x rest ≡ true → IsActor g x)
      → NoRepeat rest
      → ((x : Text) → contains x rest ≡ true → contains x members ≡ false)
      → New m rest
      → (n : Membership) × (validate_family g i members rest m ≡ ok n) × Entered i rest m n
  unfolding validate_family
  validate_family-ok i members [] m known apart fresh new = (m, refl, λ x. refl)
  validate_family-ok i members (a ∷ rest) m known apart fresh new =
      let a_in : contains a (a ∷ rest) ≡ true = ground (arith, eqb_iff a a) in
      let (n, e, entered) =
        validate_family-ok i (BTreeSet.insert a members) rest (BTreeMap.insert a i m)
          (λ x h. known x (ground arith)) apart.1
          (λ x h. ground (arith, contains-insert x a members, fresh x, Other-ne a x rest apart.0 h))
          (λ x h. ground (arith, get-insert x a i m, new x, Other-ne a x rest apart.0 h)) in
      (
        n,
        ground (arith, known a a_in, fresh a a_in, absent a m (new a a_in), e),
        λ x. ground (arith, entered x, get-insert x a i m),
      )

  validate_cohort-ok :
      (i : ℕ) (rest : List Text) (m : Membership)
      → ((x : Text) → contains x rest ≡ true → IsActor g x)
      → NoRepeat rest
      → New m rest
      → (n : Membership) × (validate_cohort g i rest m ≡ ok n) × Entered i rest m n
  unfolding validate_cohort
  validate_cohort-ok i [] m known apart new = (m, refl, λ x. refl)
  validate_cohort-ok i (a ∷ rest) m known apart new =
      let a_in : contains a (a ∷ rest) ≡ true = ground (arith, eqb_iff a a) in
      let (n, e, entered) =
        validate_cohort-ok i rest (BTreeMap.insert a i m) (λ x h. known x (ground arith)) apart.1
          (λ x h. ground (arith, get-insert x a i m, new x, Other-ne a x rest apart.0 h)) in
      (
        n,
        ground (arith, known a a_in, absent a m (new a a_in), e),
        λ x. ground (arith, entered x, get-insert x a i m),
      )

  -- The later groups stay new to the map.
  later-New :
      (i : ℕ) (xs : List Text) (gs : List (List Text)) (m n : Membership)
      → All (New m) gs
      → All (Apart xs) gs
      → Entered i xs m n
      → All (New n) gs
  later-New i xs [] m n new apart entered = tt
  later-New i xs (ys ∷ gs) m n new apart entered = (
    λ x h. elim (Bool-cases (contains x xs)) [
      | inl old ↦ absurd (apart.0 x old h)
      | inr out ↦ ground (arith, entered x, new.0 x h)
    ],
    later-New i xs gs m n new.1 apart.1 entered,
  )

  families_from-ok :
      (i : ℕ) (gs : List (List Text)) (m : Membership)
      → AreGroups g gs
      → All (New m) gs
      → (n : Membership) × (validate_families_from g i gs m ≡ ok n)
  unfolding validate_families_from
  families_from-ok i [] m good new = (m, refl)
  families_from-ok i ([] ∷ gs) m good new = absurd (good.0.0.0 refl)
  families_from-ok i ((a ∷ xs) ∷ gs) m good new =
      let (n, e, entered) =
        validate_family-ok i [] (a ∷ xs) m good.0.0.1 good.0.0.2 (λ x h. refl) new.0 in
      let (k, e') =
        families_from-ok (i + 1) gs n (good.0.1, good.1.1)
          (later-New i (a ∷ xs) gs m n new.1 good.1.0 entered) in
      (k, rw (e, validate_families_from) e')

  cohorts_from-ok :
      (i : ℕ) (gs : List (List Text)) (m : Membership)
      → AreGroups g gs
      → All (New m) gs
      → (n : Membership) × (validate_cohorts_from g i gs m ≡ ok n)
  unfolding validate_cohorts_from
  cohorts_from-ok i [] m good new = (m, refl)
  cohorts_from-ok i ([] ∷ gs) m good new = absurd (good.0.0.0 refl)
  cohorts_from-ok i ((a ∷ xs) ∷ gs) m good new =
      let (n, e, entered) = validate_cohort-ok i (a ∷ xs) m good.0.0.1 good.0.0.2 new.0 in
      let (k, e') =
        cohorts_from-ok (i + 1) gs n (good.0.1, good.1.1)
          (later-New i (a ∷ xs) gs m n new.1 good.1.0 entered) in
      (k, rw (e, validate_cohorts_from) e')

  nothing-New : (gs : List (List Text)) → All (New []) gs
  nothing-New [] = tt
  nothing-New (xs ∷ gs) = (λ x h. refl, nothing-New gs)

  pub validate_families-ok :
      (gs : List (List Text)) → AreGroups g gs → (n : Membership) × (validate_families g gs ≡ ok n)
  unfolding validate_families
  validate_families-ok gs good = families_from-ok 0 gs [] good (nothing-New gs)

  pub validate_cohorts-ok :
      (gs : List (List Text)) → AreGroups g gs → (n : Membership) × (validate_cohorts g gs ≡ ok n)
  unfolding validate_cohorts
  validate_cohorts-ok gs good = cohorts_from-ok 0 gs [] good (nothing-New gs)
