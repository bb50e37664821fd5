-- ===== src/Routing/Commitment/Groups/Total.antt =====
-- `validate_families` and `validate_cohorts` do not panic.
use argent.Base.{Text, ℕ, ◌+◌, ◌≢◌, refl, List, [], ◌∷◌, arith}
use argent.Collections.Order.{bytes_ord}
use argent.Collections.BTreeSet
use argent.Collections.BTreeMap
use argent.Routing.Graph.{RouteGraph}
use argent.Routing.Commitment.{
  Membership, Result, ok, err, panic, ◌>>=◌, validate_family, validate_families_from,
  validate_families, validate_cohort, validate_cohorts_from, validate_cohorts,
}

validate_family-ne-panic :
    (g : RouteGraph) (i : ℕ) (members rest : List Text) (m : Membership)
    → validate_family g i members rest m ≢ panic
unfolding validate_family
validate_family-ne-panic g i members [] m = λ h. cc
validate_family-ne-panic g i members (a ∷ rest) m =
    ground
      (arith, validate_family-ne-panic g i (BTreeSet.insert a members) rest (BTreeMap.insert a i m))

validate_cohort-ne-panic :
    (g : RouteGraph) (i : ℕ) (rest : List Text) (m : Membership)
    → validate_cohort g i rest m ≢ panic
unfolding validate_cohort
validate_cohort-ne-panic g i [] m = λ h. cc
validate_cohort-ne-panic g i (a ∷ rest) m =
    ground (arith, validate_cohort-ne-panic g i rest (BTreeMap.insert a i m))

bind-ne-panic :
    {A B : Type 0} (r : Result A) (k : A → Result B)
    → r ≢ panic
    → ((a : A) → k a ≢ panic)
    → (r >>= k) ≢ panic
bind-ne-panic (ok a) k h t = t a
bind-ne-panic (err e) k h t = λ e'. cc
bind-ne-panic panic k h t = λ e. h refl

families_from-ne-panic :
    (g : RouteGraph) (i : ℕ) (rest : List (List Text)) (m : Membership)
    → validate_families_from g i rest m ≢ panic
unfolding validate_families_from
families_from-ne-panic g i [] m = λ h. cc
families_from-ne-panic g i ([] ∷ rest) m = λ h. cc
families_from-ne-panic g i ((a ∷ family) ∷ rest) m =
    bind-ne-panic (validate_family g i [] (a ∷ family) m) _
      (validate_family-ne-panic g i [] (a ∷ family) m)
      (λ n. families_from-ne-panic g (i + 1) rest n)

cohorts_from-ne-panic :
    (g : RouteGraph) (i : ℕ) (rest : List (List Text)) (m : Membership)
    → validate_cohorts_from g i rest m ≢ panic
unfolding validate_cohorts_from
cohorts_from-ne-panic g i [] m = λ h. cc
cohorts_from-ne-panic g i ([] ∷ rest) m = λ h. cc
cohorts_from-ne-panic g i ((a ∷ cohort) ∷ rest) m =
    bind-ne-panic (validate_cohort g i (a ∷ cohort) m) _
      (validate_cohort-ne-panic g i (a ∷ cohort) m) (λ n. cohorts_from-ne-panic g (i + 1) rest n)

pub validate_families-ne-panic :
    (g : RouteGraph) (families : List (List Text)) → validate_families g families ≢ panic
unfolding validate_families
validate_families-ne-panic g families = families_from-ne-panic g 0 families []

pub validate_cohorts-ne-panic :
    (g : RouteGraph) (cohorts : List (List Text)) → validate_cohorts g cohorts ≢ panic
unfolding validate_cohorts
validate_cohorts-ne-panic g cohorts = cohorts_from-ne-panic g 0 cohorts []
