-- ===== src/Routing/Commitment/Groups/Defects.antt =====
-- `ConstraintError`: the defect of the supplied groups that an error of `validate_families` or
-- `validate_cohorts` names.
use argent.Base.{
  Text, ℕ, ◌+◌, ◌<◌, ◌≡◌, refl, ◌⊎◌, inl, inr, true, false, some, List, [], ◌∷◌, ◌++◌, arith,
  get_elem?, Bool-cases,
}
use argent.Collections.Order.{eqb, bytes_ord}
use argent.Collections.BTreeSet.{contains}
use argent.Collections.BTreeMap
use argent.Collections.BTreeMap.{contains_key, get-insert}
use argent.Routing.Graph.{RouteGraph}
use argent.Routing.Commitment.{
  CommitmentConstraints, ConstraintError, empty_family, unknown_family_actor,
  duplicate_family_actor, overlapping_family_actor, empty_cohort, unknown_cohort_actor,
  overlapping_cohort_actor, Membership, Result, ok, err, panic, ◌>>=◌,
}
use argent.Routing.Commitment.Groups.{Absorbs, stop, add}

-- The group of this index holds the actor.
abbrev pub Holds : List (List Text) → ℕ → Text → Type 0
Holds groups i a =
    (group : List Text) × (get_elem? groups i ≡ some group) × (contains a group ≡ true)

-- A group of a smaller index holds the actor.
abbrev pub Earlier : List (List Text) → ℕ → Text → Type 0
Earlier groups i a = (j : ℕ) × (j < i) × Holds groups j a

-- What an error claims of the constraints.
pub data IsDefect (g : RouteGraph) (k : CommitmentConstraints) : ConstraintError → Type 0 where
  empty_one : {i : ℕ} → get_elem? k.families i ≡ some [] → IsDefect g k (empty_family i)
  unknown_one :
      {i : ℕ} {a : Text}
      → Holds k.families i a
      → contains a g.actors ≡ false
      → IsDefect g k (unknown_family_actor i a)
  repeated :
      {i : ℕ} {a : Text} (seen rest : List Text)
      → get_elem? k.families i ≡ some (seen ++ a ∷ rest)
      → contains a seen ≡ true
      → IsDefect g k (duplicate_family_actor i a)
  shared :
      {a : Text} (i : ℕ)
      → Holds k.families i a
      → Earlier k.families i a
      → IsDefect g k (overlapping_family_actor a)
  empty_set : {i : ℕ} → get_elem? k.cohorts i ≡ some [] → IsDefect g k (empty_cohort i)
  unknown_member :
      {i : ℕ} {a : Text}
      → Holds k.cohorts i a
      → contains a g.actors ≡ false
      → IsDefect g k (unknown_cohort_actor i a)
  shared_member :
      {a : Text} (i : ℕ)
      → Holds k.cohorts i a
      → Earlier k.cohorts i a
      → IsDefect g k (overlapping_cohort_actor a)

-- The map holds only actors of the groups before this index.
abbrev pub KeysEarlier : List (List Text) → ℕ → Membership → Type 0
KeysEarlier groups i m = (a : Text) → contains_key a m ≡ true → Earlier groups i a

pub Absorbs-keys :
    (g : RouteGraph) (index : ℕ) (rest : List Text) (m n : Membership) (a : Text)
    → Absorbs g index rest m n
    → contains_key a n ≡ true
    → (contains a rest ≡ true) ⊎ (contains_key a m ≡ true)
Absorbs-keys g index [] m n a stop h = inr h
Absorbs-keys g index (x ∷ rest) m n a (add known new w) h =
    elim (Absorbs-keys g index rest (BTreeMap.insert x index m) n a w h) [
      | inl later ↦ inl (ground arith)
      | inr old ↦ elim (Bool-cases (eqb a x)) [
        | inl same ↦ inl (ground arith)
        | inr other ↦ inr (ground (arith, get-insert a x index m))
      ]
    ]

pub KeysEarlier-step :
    (g : RouteGraph) (groups : List (List Text)) (i : ℕ) (group : List Text) (m n : Membership)
    → get_elem? groups i ≡ some group
    → KeysEarlier groups i m
    → Absorbs g i group m n
    → KeysEarlier groups (i + 1) n
KeysEarlier-step g groups i group m n f keys w a h = elim (Absorbs-keys g i group m n a w h) [
  | inl mine ↦ (i, omega arith, (group, f, mine))
  | inr old ↦ let (j, lt, held) = keys a old in (j, omega (arith, lt), held)
]

pub bind_err :
    {A B : Type 0} (r : Result A) (k : A → Result B) (x : ConstraintError)
    → (r >>= k) ≡ err x
    → (r ≡ err x) ⊎ ((a : A) × (r ≡ ok a) × (k a ≡ err x))
bind_err (ok a) k x h = inr (a, refl, h)
bind_err (err e) k x h = inl (ground arith)
bind_err panic k x h = cc
