-- ===== src/Routing/Commitment/Groups.antt =====
-- What a successful validation says: the map sends exactly the members of each group to its index.
pub mod Total
pub mod Distinct
pub mod Defects
pub mod FamilyDefects
pub mod CohortDefects
use argent.Base.{
  Text, ℕ, ◌+◌, ◌≡◌, ◌≢◌, refl, subst, inl, inr, true, false, none, some, List, [], ◌∷◌, ◌++◌,
  arith, ◌==◌, length, length-append, get_elem?, get_elem?-append_last, Bool-cases, lt_of_get_elem?,
}
use mathlib.Core.List.{append_assoc, append-nil}
use argent.Collections.Order.{eqb, eqb_iff, bytes_ord}
use argent.Collections.BTreeSet
use argent.Collections.BTreeSet.{contains, contains-append}
use argent.Collections.BTreeMap
use argent.Collections.BTreeMap.{get, contains_key, get-insert}
use argent.Routing.Graph.{RouteGraph, IsActor}
use argent.Routing.Commitment.{
  Membership, Result, ok, err, panic, ◌>>=◌, validate_family, validate_families_from,
  validate_families, validate_cohort, validate_cohorts_from, validate_cohorts,
}

-- The members of one group enter the map: each is an actor, and new to the map.
pub data Absorbs (g : RouteGraph) (index : ℕ) : List Text → Membership → Membership → Type 0 where
  stop : {m : Membership} → Absorbs g index [] m m
  add :
      {a : Text} {rest : List Text} {m n : Membership}
      → IsActor g a
      → get a m ≡ none
      → Absorbs g index rest (BTreeMap.insert a index m) n
      → Absorbs g index (a ∷ rest) m n

-- The groups enter the map one after the other, and none is empty.
pub data AbsorbsAll (g : RouteGraph) : ℕ → List (List Text) → Membership → Membership → Type 0 where
  stop_all : {index : ℕ} {m : Membership} → AbsorbsAll g index [] m m
  add_all :
      {index : ℕ} {a : Text} {group : List Text} {rest : List (List Text)} {m n k : Membership}
      → Absorbs g index (a ∷ group) m n
      → AbsorbsAll g (index + 1) rest n k
      → AbsorbsAll g index ((a ∷ group) ∷ rest) m k

absent : (a : Text) (m : Membership) → contains_key a m ≡ false → get a m ≡ none
absent a m h = ground arith

pub validate_family-Absorbs :
    (g : RouteGraph) (index : ℕ) (members rest : List Text) (m n : Membership)
    → validate_family g index members rest m ≡ ok n
    → Absorbs g index rest m n
unfolding validate_family
validate_family-Absorbs g index members [] m n h =
    subst (λ k. Absorbs g index [] m k) (ground arith) stop
validate_family-Absorbs g index members (a ∷ rest) m n h = add (ground arith) (ground arith) (
    validate_family-Absorbs g index (BTreeSet.insert a members) rest (BTreeMap.insert a index m) n
      (ground arith))

pub validate_cohort-Absorbs :
    (g : RouteGraph) (index : ℕ) (rest : List Text) (m n : Membership)
    → validate_cohort g index rest m ≡ ok n
    → Absorbs g index rest m n
unfolding validate_cohort
validate_cohort-Absorbs g index [] m n h = subst (λ k. Absorbs g index [] m k) (ground arith) stop
validate_cohort-Absorbs g index (a ∷ rest) m n h =
    add (ground arith) (ground arith)
      (validate_cohort-Absorbs g index rest (BTreeMap.insert a index m) n (ground arith))

Result-cases {ℓ} :
    {A B : Type ℓ} (r : Result A) (k : A → Result B) {b : B}
    → (r >>= k) ≡ ok b
    → (a : A) × (r ≡ ok a) × (k a ≡ ok b)
Result-cases (ok a) k h = (a, refl, h)
Result-cases (err e) k h = cc
Result-cases panic k h = cc

pub validate_families_from-AbsorbsAll :
    (g : RouteGraph) (index : ℕ) (families : List (List Text)) (m n : Membership)
    → validate_families_from g index families m ≡ ok n
    → AbsorbsAll g index families m n
unfolding validate_families_from
validate_families_from-AbsorbsAll g index [] m n h =
    subst (λ k. AbsorbsAll g index [] m k) (ground arith) stop_all
validate_families_from-AbsorbsAll g index ([] ∷ rest) m n h = cc
validate_families_from-AbsorbsAll g index ((a ∷ family) ∷ rest) m n h =
    let (next, e, k) = Result-cases (validate_family g index [] (a ∷ family) m) _ h in
    add_all (validate_family-Absorbs g index [] (a ∷ family) m next e)
      (validate_families_from-AbsorbsAll g (index + 1) rest next n k)

pub validate_cohorts_from-AbsorbsAll :
    (g : RouteGraph) (index : ℕ) (cohorts : List (List Text)) (m n : Membership)
    → validate_cohorts_from g index cohorts m ≡ ok n
    → AbsorbsAll g index cohorts m n
unfolding validate_cohorts_from
validate_cohorts_from-AbsorbsAll g index [] m n h =
    subst (λ k. AbsorbsAll g index [] m k) (ground arith) stop_all
validate_cohorts_from-AbsorbsAll g index ([] ∷ rest) m n h = cc
validate_cohorts_from-AbsorbsAll g index ((a ∷ cohort) ∷ rest) m n h =
    let (next, e, k) = Result-cases (validate_cohort g index (a ∷ cohort) m) _ h in
    add_all (validate_cohort-Absorbs g index (a ∷ cohort) m next e)
      (validate_cohorts_from-AbsorbsAll g (index + 1) rest next n k)

-- The map sends exactly the members of each group, which are actors, to its index.
pub record IsIndex (g : RouteGraph) (groups : List (List Text)) (m : Membership) : Type 0 where
  pub to_group :
      (a : Text) (i : ℕ)
      → get a m ≡ some i
      → (group : List Text) × (get_elem? groups i ≡ some group) × (contains a group ≡ true)
  pub of_group :
      (a : Text) (i : ℕ) (group : List Text)
      → get_elem? groups i ≡ some group
      → contains a group ≡ true
      → (get a m ≡ some i) × IsActor g a

-- One more member of the last group.
IsIndex-add :
    (g : RouteGraph) (groups : List (List Text)) (seen : List Text) (a : Text) (m : Membership)
    → IsIndex g (groups ++ seen ∷ []) m
    → IsActor g a
    → get a m ≡ none
    → IsIndex g (groups ++ (seen ++ a ∷ []) ∷ []) (BTreeMap.insert a (length groups) m)
IsIndex-add g groups seen a m inv known new = record {
  to_group = λ x i h. elim (Bool-cases (eqb x a)) [
    | inl same ↦ (
      seen ++ a ∷ [],
      ground (
        arith,
        get_elem?-append_last groups (seen ++ a ∷ []) i,
        get-insert x a (length groups) m,
      ),
      ground (arith, contains-append x seen (a ∷ [])),
    )
    | inr other ↦
        let (group, e, c) = inv.to_group x i (ground (arith, get-insert x a (length groups) m)) in
        elim (Bool-cases (i == length groups)) [
          | inl last ↦ (
            seen ++ a ∷ [],
            ground (arith, get_elem?-append_last groups (seen ++ a ∷ []) i),
            ground (arith, contains-append x seen (a ∷ []), get_elem?-append_last groups seen i),
          )
          | inr earlier ↦ (
            group,
            ground (
              arith,
              get_elem?-append_last groups (seen ++ a ∷ []) i,
              get_elem?-append_last groups seen i,
            ),
            c,
          )
        ]
  ];
  of_group = λ x i group e c. elim (Bool-cases (eqb x a)) [
    | inl same ↦ elim (Bool-cases (i == length groups)) [
      | inl last ↦ ground (arith, get-insert x a (length groups) m, eqb_iff x a)
      | inr earlier ↦ ground (
        arith,
        eqb_iff x a,
        get_elem?-append_last groups (seen ++ a ∷ []) i,
        get_elem?-append_last groups seen i,
        inv.of_group x i group,
      )
    ]
    | inr other ↦
        let old = inv.of_group x i in
        elim (Bool-cases (i == length groups)) [
          | inl last ↦ ground (
            arith,
            get-insert x a (length groups) m,
            get_elem?-append_last groups (seen ++ a ∷ []) i,
            get_elem?-append_last groups seen i,
            contains-append x seen (a ∷ []),
            old seen,
          )
          | inr earlier ↦ ground (
            arith,
            get-insert x a (length groups) m,
            get_elem?-append_last groups (seen ++ a ∷ []) i,
            get_elem?-append_last groups seen i,
            old group,
          )
        ]
  ];
}

-- A new last group, empty so far.
IsIndex-open :
    (g : RouteGraph) (groups : List (List Text)) (m : Membership)
    → IsIndex g groups m
    → IsIndex g (groups ++ [] ∷ []) m
IsIndex-open g groups m inv = record {
  to_group = λ x i h.
      let (group, e, c) = inv.to_group x i h in
      let lt = lt_of_get_elem? groups i e in
      (group, ground (arith, get_elem?-append_last groups [] i), c);
  of_group =
      λ x i group e c. ground (arith, get_elem?-append_last groups [] i, inv.of_group x i group);
}

IsIndex-Absorbs :
    (g : RouteGraph) (groups : List (List Text)) (seen rest : List Text) (m n : Membership)
    → IsIndex g (groups ++ seen ∷ []) m
    → Absorbs g (length groups) rest m n
    → IsIndex g (groups ++ (seen ++ rest) ∷ []) n
IsIndex-Absorbs g groups seen [] m n inv stop = rw append-nil inv
IsIndex-Absorbs g groups seen (a ∷ rest) m n inv (add known new w) =
    rw (← append_assoc seen (a ∷ []) rest) (
      IsIndex-Absorbs g groups (seen ++ a ∷ []) rest _ n
        (IsIndex-add g groups seen a m inv known new) w)

IsIndex-AbsorbsAll :
    (g : RouteGraph) (index : ℕ) (groups rest : List (List Text)) (m n : Membership)
    → index ≡ length groups
    → IsIndex g groups m
    → AbsorbsAll g index rest m n
    → IsIndex g (groups ++ rest) n
IsIndex-AbsorbsAll g index groups [] m n e inv stop_all = rw append-nil inv
IsIndex-AbsorbsAll g index groups ([] ∷ rest) m n e inv w = elim w [ ]
IsIndex-AbsorbsAll g index groups ((a ∷ group) ∷ rest) m n e inv (add_all {n = k} w ws) =
    rw (← append_assoc groups ((a ∷ group) ∷ []) rest) (
      IsIndex-AbsorbsAll g (index + 1) (groups ++ (a ∷ group) ∷ []) rest k n
        (omega (arith, length-append groups ((a ∷ group) ∷ [])))
        (IsIndex-Absorbs g groups [] (a ∷ group) m k (IsIndex-open g groups m inv)
          (subst (λ i. Absorbs g i (a ∷ group) m k) e w))
        ws)

IsIndex-nil : (g : RouteGraph) → IsIndex g [] []
IsIndex-nil g = record { to_group = λ x i h. cc; of_group = λ x i group e c. cc }

-- If the families are accepted, the returned map sends an actor to an index exactly if the family of
-- that index contains the actor, and all members are actors of the graph.
pub validate_families-IsIndex :
    (g : RouteGraph) (families : List (List Text)) (m : Membership)
    → validate_families g families ≡ ok m
    → IsIndex g families m
unfolding validate_families
validate_families-IsIndex g families m h =
    IsIndex-AbsorbsAll g 0 [] families [] m refl (IsIndex-nil g)
      (validate_families_from-AbsorbsAll g 0 families [] m h)

-- If the cohorts are accepted, the returned map sends an actor to an index exactly if the cohort of
-- that index contains the actor, and all members are actors of the graph.
pub validate_cohorts-IsIndex :
    (g : RouteGraph) (cohorts : List (List Text)) (m : Membership)
    → validate_cohorts g cohorts ≡ ok m
    → IsIndex g cohorts m
unfolding validate_cohorts
validate_cohorts-IsIndex g cohorts m h =
    IsIndex-AbsorbsAll g 0 [] cohorts [] m refl (IsIndex-nil g)
      (validate_cohorts_from-AbsorbsAll g 0 cohorts [] m h)
