-- ===== src/Routing/Commitment/Plan/Accepted.antt =====
-- `commitment_plan`: which constraints are accepted, and what its errors say.
use argent.Base.{
  Text, ℕ, zero, suc, ◌+◌, ◌≡◌, ap, sym, subst, ◌↔◌, inl, inr, true, some, List, [], ◌∷◌, ◌++◌,
  arith, get_elem?, Bool-cases,
}
use argent.Collections.Order.{eqb, eqb_iff, eqb_refl, bytes_ord}
use argent.Collections.BTreeSet.{contains, contains-append, IsSorted}
use argent.Routing.Graph.{RouteGraph}
use argent.Routing.Graph.Build.{IsWellFormed}
use argent.Routing.Commitment.{
  CommitmentConstraints, CommitmentPlan, ConstraintError, Membership, ok, err, validate_families,
  validate_cohorts,
}
use argent.Routing.Commitment.Groups.{
  AbsorbsAll, add_all, IsIndex, validate_families-IsIndex, validate_cohorts-IsIndex,
  validate_families_from-AbsorbsAll, validate_cohorts_from-AbsorbsAll,
}
use argent.Routing.Commitment.Groups.Distinct.{IsDistinct, validate_families-IsDistinct}
use argent.Routing.Commitment.Groups.Defects.{
  IsDefect, empty_one, unknown_one, repeated, shared, empty_set, unknown_member, shared_member,
  Holds, Earlier,
}
use argent.Routing.Commitment.Groups.FamilyDefects.{validate_families-IsDefect}
use argent.Routing.Commitment.Groups.CohortDefects.{validate_cohorts-IsDefect}
use argent.Routing.Commitment.Plan.{commitment_plan}
use argent.Routing.Commitment.Plan.Provided.{member_at}
use argent.Routing.Commitment.Plan.Correct.{validated-IsPlan}
use argent.Routing.Commitment.Plan.Planned.{passed, stopped, validated}

AbsorbsAll-nonempty :
    (g : RouteGraph) (index : ℕ) (groups : List (List Text)) (m n : Membership)
    → AbsorbsAll g index groups m n
    → (i : ℕ) → get_elem? groups i ≡ some []
    → ⊥
AbsorbsAll-nonempty g index [] m n w i h = cc
AbsorbsAll-nonempty g index ([] ∷ rest) m n w i h = elim w [ ]
AbsorbsAll-nonempty g index ((a ∷ group) ∷ rest) m n w zero h = cc
AbsorbsAll-nonempty g index ((a ∷ group) ∷ rest) m n (add_all {n = k} w ws) (suc i) h =
    AbsorbsAll-nonempty g (index + 1) rest k n ws i h

not_repeated :
    (a : Text) (seen rest : List Text) → contains a seen ≡ true → IsDistinct (seen ++ a ∷ rest) → ⊥
not_repeated a [] rest m d = cc
not_repeated a (x ∷ seen) rest m d = elim (Bool-cases (eqb a x)) [
  | inl same ↦
      let (k, at) =
        member_at a (seen ++ a ∷ rest)
          (ground (arith, contains-append a seen (a ∷ rest), eqb_refl a)) in
      let apart = d 0 (suc k) a (ap some (sym ((eqb_iff a x).0 same))) at in
      absurd (omega (arith, apart))
  | inr other ↦
      not_repeated a seen rest (rw other at m)
        (λ i j b e f. let next = d (suc i) (suc j) b e f in omega (arith, next))
]

module _ (g : RouteGraph) (k : CommitmentConstraints) (m n : Membership)
    (families : IsIndex g k.families m) (cohorts : IsIndex g k.cohorts n)
    (distinct : (i : ℕ) (family : List Text)
      → get_elem? k.families i ≡ some family
      → IsDistinct family)
    (full : (i : ℕ) → get_elem? k.families i ≡ some [] → ⊥)
    (full_set : (i : ℕ) → get_elem? k.cohorts i ≡ some [] → ⊥) where
  one_index :
      (groups : List (List Text)) (by_actor : Membership) (i : ℕ) (a : Text)
      → IsIndex g groups by_actor
      → Holds groups i a
      → Earlier groups i a
      → ⊥
  one_index groups by_actor i a index (first, f, u) (j, lt, (second, e, v)) =
      let here = (index.of_group a i first f u).0 in
      let there = (index.of_group a j second e v).0 in
      let same : i ≡ j = ground arith in absurd (omega (arith, same, lt))

  no_defect : (x : ConstraintError) → IsDefect g k x → ⊥
  no_defect x (empty_one {i} h) = full i h
  no_defect x (unknown_one {i} {a} (group, f, u) h) =
      let known = (families.of_group a i group f u).1 in absurd (ground arith)
  no_defect x (repeated {i} {a} seen rest f h) =
      not_repeated a seen rest h (distinct i (seen ++ a ∷ rest) f)
  no_defect x (shared {a} i h e) = one_index k.families m i a families h e
  no_defect x (empty_set {i} h) = full_set i h
  no_defect x (unknown_member {i} {a} (group, f, u) h) =
      let known = (cohorts.of_group a i group f u).1 in absurd (ground arith)
  no_defect x (shared_member {a} i h e) = one_index k.cohorts n i a cohorts h e

-- The cohorts are sets.
abbrev pub AreSets : CommitmentConstraints → Type 0
AreSets k = (i : ℕ) (cohort : List Text) → get_elem? k.cohorts i ≡ some cohort → IsSorted cohort

-- The errors of `commitment_plan` name a defect of the constraints: an empty group, a member that is
-- no actor of the graph, a family that repeats an actor, or two families, or two cohorts, that share
-- one; the index and the actor of the error are those of the defect.
pub commitment_plan-IsDefect :
    (g : RouteGraph) (k : CommitmentConstraints) (x : ConstraintError)
    → IsWellFormed g
    → AreSets k
    → commitment_plan g k ≡ err x
    → IsDefect g k x
commitment_plan-IsDefect g k x w sets h = elim (validated g k) [
  | passed m n fs cs ↦
      let (plan, e, _, _, _) = validated-IsPlan g k m n w fs cs in absurd (ground arith)
  | stopped y e from ↦
      let same : y ≡ x = ground arith in
      subst (IsDefect g k) same (elim from [
        | inl fs ↦ validate_families-IsDefect g k y fs
        | inr cs ↦ validate_cohorts-IsDefect g k y sets cs
      ])
]

-- On a well-formed graph, `commitment_plan` returns a plan exactly if the constraints have no defect.
pub commitment_plan_iff :
    (g : RouteGraph) (k : CommitmentConstraints)
    → IsWellFormed g
    → AreSets k
    → ((plan : CommitmentPlan) × (commitment_plan g k ≡ ok plan))
      ↔ ((x : ConstraintError) → IsDefect g k x → ⊥)
unfolding validate_families validate_cohorts
commitment_plan_iff g k w sets = elim (validated g k) [
  | passed m n fs cs ↦
      let (plan, e, _, _, _) = validated-IsPlan g k m n w fs cs in
      (
        λ h x defect.
            no_defect g k m n (validate_families-IsIndex g k.families m fs)
              (validate_cohorts-IsIndex g k.cohorts n cs)
              (validate_families-IsDistinct g k.families m fs)
              (AbsorbsAll-nonempty g 0 k.families [] m
                (validate_families_from-AbsorbsAll g 0 k.families [] m fs))
              (AbsorbsAll-nonempty g 0 k.cohorts [] n
                (validate_cohorts_from-AbsorbsAll g 0 k.cohorts [] n cs))
              x defect,
        λ h. (plan, e),
      )
  | stopped x e from ↦ (
    λ h. absurd (ground (arith, h.1)),
    λ h. absurd (h x (commitment_plan-IsDefect g k x w sets e)),
  )
]
