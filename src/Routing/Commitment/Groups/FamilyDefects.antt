-- ===== src/Routing/Commitment/Groups/FamilyDefects.antt =====
-- An error of `validate_families` names a defect of the families.
use argent.Base.{
  Text, ℕ, suc, ◌+◌, ◌≡◌, sym, ap, ◌∙◌, subst, ◌⊎◌, inl, inr, true, some, List, [], ◌∷◌, ◌++◌,
  append_assoc, arith, get_elem?, Bool-cases,
}
use argent.Collections.Order.{eqb, eqb_refl, bytes_ord}
use argent.Collections.BTreeSet
use argent.Collections.BTreeSet.{
  contains, contains-insert, contains-append, contains-of_Below, IsSorted,
}
use argent.Collections.BTreeMap
use argent.Collections.BTreeMap.{contains_key, get-insert}
use argent.Routing.Graph.{RouteGraph}
use argent.Routing.Commitment.{
  CommitmentConstraints, ConstraintError, empty_family, unknown_family_actor,
  duplicate_family_actor, overlapping_family_actor, Membership, err, validate_family,
  validate_families_from, validate_families,
}
use argent.Routing.Commitment.Groups.{validate_family-Absorbs}
use argent.Routing.Commitment.Groups.Defects.{
  Earlier, IsDefect, empty_one, unknown_one, repeated, shared, KeysEarlier, KeysEarlier-step,
  bind_err,
}

module _ (g : RouteGraph) (k : CommitmentConstraints) where
  validate_family-IsDefect :
      (i : ℕ) (seen members rest : List Text) (m : Membership) (x : ConstraintError)
      → get_elem? k.families i ≡ some (seen ++ rest)
      → ((a : Text) → contains a members ≡ true → contains a seen ≡ true)
      → ((a : Text)
          → contains_key a m ≡ true
          → (contains a members ≡ true) ⊎ Earlier k.families i a)
      → validate_family g i members rest m ≡ err x
      → IsDefect g k x
  unfolding validate_family
  validate_family-IsDefect i seen members [] m x f within keys h = cc
  validate_family-IsDefect i seen members (a ∷ rest) m x f within keys h =
      let here : contains a (seen ++ a ∷ rest) ≡ true =
        ground (arith, contains-append a seen (a ∷ rest), eqb_refl a) in
      elim (Bool-cases (contains a g.actors)) [
        | inr unknown ↦
            let same : unknown_family_actor i a ≡ x = ground arith in
            subst (IsDefect g k) same (unknown_one (seen ++ a ∷ rest, f, here) unknown)
        | inl known ↦ elim (Bool-cases (contains a members)) [
          | inl twice ↦
              let same : duplicate_family_actor i a ≡ x = ground arith in
              subst (IsDefect g k) same (repeated seen rest f (within a twice))
          | inr once ↦ elim (Bool-cases (contains_key a m)) [
            | inl old ↦
                let same : overlapping_family_actor a ≡ x = ground arith in
                subst (IsDefect g k) same (elim (keys a old) [
                  | inl twice ↦ absurd (ground arith)
                  | inr earlier ↦ shared i (seen ++ a ∷ rest, f, here) earlier
                ])
            | inr new ↦
                validate_family-IsDefect i (seen ++ a ∷ []) (BTreeSet.insert a members) rest
                  (BTreeMap.insert a i m) x (f ∙ ap some (sym (append_assoc seen (a ∷ []) rest)))
                  (λ b c.
                    ground (
                      arith,
                      contains-insert b a members,
                      contains-append b seen (a ∷ []),
                      within b,
                    ))
                  (λ b c. elim (Bool-cases (eqb b a)) [
                    | inl same ↦ inl (ground (arith, contains-insert b a members))
                    | inr other ↦ elim (keys b (ground (arith, get-insert b a i m))) [
                      | inl held ↦ inl (ground (arith, contains-insert b a members))
                      | inr earlier ↦ inr earlier
                    ]
                  ])
                  (ground arith)
          ]
        ]
      ]

  families_from-IsDefect :
      (i : ℕ) (rest : List (List Text)) (m : Membership) (x : ConstraintError)
      → ((j : ℕ) → get_elem? k.families (i + j) ≡ get_elem? rest j)
      → KeysEarlier k.families i m
      → validate_families_from g i rest m ≡ err x
      → IsDefect g k x
  unfolding validate_families_from
  families_from-IsDefect i [] m x at keys h = cc
  families_from-IsDefect i ([] ∷ rest) m x at keys h =
      let same : empty_family i ≡ x = ground arith in
      let first : get_elem? k.families i ≡ some [] =
        ap (get_elem? k.families) (omega arith) ∙ at 0 in
      subst (IsDefect g k) same (empty_one first)
  families_from-IsDefect i ((a ∷ family) ∷ rest) m x at keys h =
      let first : get_elem? k.families i ≡ some (a ∷ family) =
        ap (get_elem? k.families) (omega arith) ∙ at 0 in
      elim (bind_err (validate_family g i [] (a ∷ family) m) _ x h) [
        | inl e ↦
            validate_family-IsDefect i [] [] (a ∷ family) m x first (λ b c. c)
              (λ b c. inr (keys b c)) e
        | inr (n, e, more) ↦
            families_from-IsDefect (i + 1) rest n x
              (λ j. ap (get_elem? k.families) (omega arith) ∙ at (suc j))
              (KeysEarlier-step g k.families i (a ∷ family) m n first keys
                (validate_family-Absorbs g i [] (a ∷ family) m n e))
              more
      ]

  pub validate_families-IsDefect :
      (x : ConstraintError) → validate_families g k.families ≡ err x → IsDefect g k x
  unfolding validate_families
  validate_families-IsDefect x h =
      families_from-IsDefect 0 k.families [] x (λ j. ap (get_elem? k.families) (omega arith))
        (λ a c. cc) h
