-- ===== src/Routing/Commitment/Groups/CohortDefects.antt =====
-- An error of `validate_cohorts` names a defect of the cohorts.
use argent.Base.{
  Text, ℕ, suc, ◌+◌, ◌≡◌, refl, ap, ◌∙◌, subst, inl, inr, true, false, some, List, [], ◌∷◌, arith,
  get_elem?, Bool-cases,
}
use argent.Collections.Order.{eqb, eqb_iff, eqb_refl, bytes_ord}
use argent.Collections.BTreeSet.{contains, contains-of_Below, IsSorted}
use argent.Collections.BTreeMap
use argent.Collections.BTreeMap.{contains_key, get-insert}
use argent.Routing.Graph.{RouteGraph}
use argent.Routing.Commitment.{
  CommitmentConstraints, ConstraintError, empty_cohort, unknown_cohort_actor,
  overlapping_cohort_actor, Membership, err, validate_cohort, validate_cohorts_from,
  validate_cohorts,
}
use argent.Routing.Commitment.Groups.{validate_cohort-Absorbs}
use argent.Routing.Commitment.Groups.Defects.{
  Earlier, IsDefect, empty_set, unknown_member, shared_member, KeysEarlier, KeysEarlier-step,
  bind_err,
}

module _ (g : RouteGraph) (k : CommitmentConstraints) where
  validate_cohort-IsDefect :
      (i : ℕ) (group rest : List Text) (m : Membership) (x : ConstraintError)
      → get_elem? k.cohorts i ≡ some group
      → IsSorted rest
      → ((a : Text) → contains a rest ≡ true → contains a group ≡ true)
      → ((a : Text) → contains a rest ≡ true → contains_key a m ≡ true → Earlier k.cohorts i a)
      → validate_cohort g i rest m ≡ err x
      → IsDefect g k x
  unfolding validate_cohort
  validate_cohort-IsDefect i group [] m x f sorted within keys h = cc
  validate_cohort-IsDefect i group (a ∷ rest) m x f sorted within keys h =
      let leads : contains a (a ∷ rest) ≡ true = ground (arith, eqb_refl a) in
      let here = within a leads in
      elim (Bool-cases (contains a g.actors)) [
        | inr unknown ↦
            let same : unknown_cohort_actor i a ≡ x = ground arith in
            subst (IsDefect g k) same (unknown_member (group, f, here) unknown)
        | inl known ↦ elim (Bool-cases (contains_key a m)) [
          | inl old ↦
              let same : overlapping_cohort_actor a ≡ x = ground arith in
              subst (IsDefect g k) same (shared_member i (group, f, here) (keys a leads old))
          | inr new ↦
              validate_cohort-IsDefect i group rest (BTreeMap.insert a i m) x f sorted.1
                (λ b c. within b (ground arith))
                (λ b c d.
                  let absent = contains-of_Below a rest sorted.0 in
                  let other : eqb b a ≡ false = ground (arith, eqb_iff b a) in
                  keys b (ground arith) (ground (arith, get-insert b a i m)))
                (ground arith)
        ]
      ]

  cohorts_from-IsDefect :
      (i : ℕ) (rest : List (List Text)) (m : Membership) (x : ConstraintError)
      → ((j : ℕ) → get_elem? k.cohorts (i + j) ≡ get_elem? rest j)
      → ((j : ℕ) (group : List Text) → get_elem? rest j ≡ some group → IsSorted group)
      → KeysEarlier k.cohorts i m
      → validate_cohorts_from g i rest m ≡ err x
      → IsDefect g k x
  unfolding validate_cohorts_from
  cohorts_from-IsDefect i [] m x at sorted keys h = cc
  cohorts_from-IsDefect i ([] ∷ rest) m x at sorted keys h =
      let same : empty_cohort i ≡ x = ground arith in
      let first : get_elem? k.cohorts i ≡ some [] = ap (get_elem? k.cohorts) (omega arith) ∙ at 0 in
      subst (IsDefect g k) same (empty_set first)
  cohorts_from-IsDefect i ((a ∷ cohort) ∷ rest) m x at sorted keys h =
      let first : get_elem? k.cohorts i ≡ some (a ∷ cohort) =
        ap (get_elem? k.cohorts) (omega arith) ∙ at 0 in
      elim (bind_err (validate_cohort g i (a ∷ cohort) m) _ x h) [
        | inl e ↦
            validate_cohort-IsDefect i (a ∷ cohort) (a ∷ cohort) m x first
              (sorted 0 (a ∷ cohort) refl) (λ b c. c) (λ b c d. keys b d) e
        | inr (n, e, more) ↦
            cohorts_from-IsDefect (i + 1) rest n x
              (λ j. ap (get_elem? k.cohorts) (omega arith) ∙ at (suc j))
              (λ j group f. sorted (suc j) group f)
              (KeysEarlier-step g k.cohorts i (a ∷ cohort) m n first keys
                (validate_cohort-Absorbs g i (a ∷ cohort) m n e))
              more
      ]

  pub validate_cohorts-IsDefect :
      (x : ConstraintError)
      → ((i : ℕ) (cohort : List Text) → get_elem? k.cohorts i ≡ some cohort → IsSorted cohort)
      → validate_cohorts g k.cohorts ≡ err x
      → IsDefect g k x
  unfolding validate_cohorts
  validate_cohorts-IsDefect x sorted h =
      cohorts_from-IsDefect 0 k.cohorts [] x (λ j. ap (get_elem? k.cohorts) (omega arith)) sorted
        (λ a c. cc) h
