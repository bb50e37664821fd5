-- ===== src/Routing/Commitment.antt =====
-- src/routing/commitment.rs: the planner's constraints, errors and plan, and the validation of
-- families and cohorts.
pub mod Groups
pub mod Locations
pub mod Plan
use argent.Base.{
  Text, ℕ, zero, suc, ◌+◌, Bool, true, false, not, ◌&&◌, ◌||◌, Option, none, some, List, [], ◌∷◌,
  ◌++◌, map, if◌then◌else◌, get_elem?,
}
use argent.Collections.Order.{nat_ord, bytes_ord}
use argent.Collections.BTreeSet
use argent.Collections.BTreeSet.{contains}
use argent.Collections.BTreeMap
use argent.Collections.BTreeMap.{get, contains_key}
use argent.Routing.Graph.{RouteGraph, targets, direct_consumes, add_emit_clique}
use argent.Routing.Needs.{Needs, needs}
use argent.Routing.Forest.{
  CommitmentNode, Nodes, leaf, branch, nil, cons, CommitmentForest, NodePath, Cut, child, root,
  count,
}

pub record CommitmentConstraints : Type 0 where
  pub families : List (List Text)
  pub cohorts : List (List Text)

pub record CommitmentPlan : Type 0 where
  pub forest : CommitmentForest
  pub cuts : List (Text × Cut)

pub data ConstraintError : Type 0 where
  empty_family : ℕ → ConstraintError
  unknown_family_actor : ℕ → Text → ConstraintError
  duplicate_family_actor : ℕ → Text → ConstraintError
  overlapping_family_actor : Text → ConstraintError
  empty_cohort : ℕ → ConstraintError
  unknown_cohort_actor : ℕ → Text → ConstraintError
  overlapping_cohort_actor : Text → ConstraintError

-- `panic` is a failed `expect`, index or assertion.
pub data Result {ℓ} (A : Type ℓ) : Type ℓ where
  ok : A → Result A
  err : ConstraintError → Result A
  panic : Result A

infixl 5 ◌>>=◌
abbrev pub ◌>>=◌ {ℓ κ} : {A : Type ℓ} {B : Type κ} → Result A → (A → Result B) → Result B
ok a >>= k = k a
err e >>= k = err e
panic >>= k = panic

-- A value that must be there.
abbrev pub expect {ℓ} : {A : Type ℓ} → Option A → Result A
expect none = panic
expect (some a) = ok a

-- Actor to the index of its family, or of its cohort.
abbrev pub Membership : Type 0
Membership = List (Text × ℕ)

-- The inner loop of `validate_families`, with the set `members`.
unfoldable pub validate_family :
    RouteGraph → ℕ → List Text → List Text → Membership → Result Membership
validate_family g index members [] by_actor = ok by_actor
validate_family g index members (actor ∷ rest) by_actor =
    if not (contains actor g.actors)
    then err (unknown_family_actor index actor)
    else if contains actor members
    then err (duplicate_family_actor index actor)
    else if contains_key actor by_actor
    then err (overlapping_family_actor actor)
    else validate_family g index (BTreeSet.insert actor members) rest
        (BTreeMap.insert actor index by_actor)

-- The outer loop, from the family with this index on.
unfoldable pub validate_families_from :
    RouteGraph → ℕ → List (List Text) → Membership → Result Membership
validate_families_from g index [] by_actor = ok by_actor
validate_families_from g index ([] ∷ rest) by_actor = err (empty_family index)
validate_families_from g index ((a ∷ family) ∷ rest) by_actor =
    validate_family g index [] (a ∷ family) by_actor >>= λ next.
    validate_families_from g (index + 1) rest next

unfoldable pub validate_families : RouteGraph → List (List Text) → Result Membership
unfolding validate_families_from validate_family
validate_families g families = validate_families_from g 0 families []

unfoldable pub validate_cohort : RouteGraph → ℕ → List Text → Membership → Result Membership
validate_cohort g index [] by_actor = ok by_actor
validate_cohort g index (actor ∷ rest) by_actor =
    if not (contains actor g.actors)
    then err (unknown_cohort_actor index actor)
    else if contains_key actor by_actor
    then err (overlapping_cohort_actor actor)
    else validate_cohort g index rest (BTreeMap.insert actor index by_actor)

unfoldable pub validate_cohorts_from :
    RouteGraph → ℕ → List (List Text) → Membership → Result Membership
validate_cohorts_from g index [] by_actor = ok by_actor
validate_cohorts_from g index ([] ∷ rest) by_actor = err (empty_cohort index)
validate_cohorts_from g index ((a ∷ cohort) ∷ rest) by_actor =
    validate_cohort g index (a ∷ cohort) by_actor >>= λ next.
    validate_cohorts_from g (index + 1) rest next

unfoldable pub validate_cohorts : RouteGraph → List (List Text) → Result Membership
unfolding validate_cohorts_from validate_cohort
validate_cohorts g cohorts = validate_cohorts_from g 0 cohorts []
