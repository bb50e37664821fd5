-- ===== src/Routing/Transition/Opened.antt =====
-- src/routing/commitment.rs: the branches that `transition` opens on the way down to a path.
use argent.Base.{
  ℕ, zero, suc, ◌+◌, ◌≤◌, ◌<◌, ◌≡◌, refl, ap, ◌∙◌, subst, ◌⊎◌, inl, inr, true, ltb, some, List, [],
  ◌∷◌, take, length, arith, ==_iff, Bool-cases,
}
use argent.Collections.Order.{eqb, eqb_iff, eqb_refl, bytes_ord}
use argent.Collections.Slices.{starts_with}
use argent.Collections.BTreeSet
use argent.Collections.BTreeSet.{contains, contains-insert, IsSorted, insert-IsSorted}
use argent.Routing.Forest.{CommitmentForest, NodePath, Cut, child}
use argent.Routing.Transition.{is_branch, open_between}

-- The paths above a path.
pub starts_with-take : (d : ℕ) (t : List ℕ) → starts_with t (take d t) ≡ true
starts_with-take zero t = refl
starts_with-take (suc d) [] = refl
starts_with-take (suc d) (x ∷ t) = ground (arith, starts_with-take d t, ==_iff x x)

pub take-of_starts_with : (t a : List ℕ) → starts_with t a ≡ true → take (length a) t ≡ a
take-of_starts_with t [] h = refl
take-of_starts_with [] (y ∷ a) h = cc
take-of_starts_with (x ∷ t) (y ∷ a) h =
    let rest = take-of_starts_with t a (ground arith) in ground (arith, ==_iff x y)

pub take-length : (t : List ℕ) → take (length t) t ≡ t
take-length [] = refl
take-length (x ∷ t) = ap (λ r. x ∷ r) (take-length t)

pub take-child :
    (d : ℕ) (t : List ℕ) → d < length t → (i : ℕ) × (take (suc d) t ≡ child (take d t) i)
take-child zero [] lt = absurd (omega arith)
take-child zero (x ∷ t) lt = (x, refl)
take-child (suc d) [] lt = absurd (omega arith)
take-child (suc d) (x ∷ t) lt = let (i, e) = take-child d t (omega arith) in (i, ap (λ r. x ∷ r) e)

-- A selected path above an unselected one is shorter.
pub shorter : (t a : List ℕ) → starts_with t a ≡ true → (t ≡ a → ⊥) → length a < length t
shorter [] [] h apart = absurd (apart refl)
shorter [] (y ∷ a) h apart = cc
shorter (x ∷ t) [] h apart = omega arith
shorter (x ∷ t) (y ∷ a) h apart =
    let same : x ≡ y = ground (arith, ==_iff x y) in
    let rest = shorter t a (ground arith) (λ e. apart (ap (λ z. z ∷ t) same ∙ ap (λ r. y ∷ r) e)) in
    omega (arith, rest)

-- The branches between two depths enter the set, and nothing else.
pub record IsOpened (f : CommitmentForest) (t : NodePath) (depth stop : ℕ) (opens os : Cut)
    : Type 0 where
  pub sorted : IsSorted opens → IsSorted os
  pub kept : (q : NodePath) → contains q opens ≡ true → contains q os ≡ true
  pub taken : (d : ℕ) → depth ≤ d → d < stop → contains (take d t) os ≡ true
  pub fresh :
      (q : NodePath)
      → contains q os ≡ true
      → (contains q opens ≡ true)
        ⊎ ((d : ℕ) × (depth ≤ d) × (d < stop) × (q ≡ take d t) × (is_branch f q ≡ true))

pub open_between-IsOpened :
    (f : CommitmentForest) (t : NodePath) (depth steps : ℕ) (opens os : Cut)
    → open_between f t depth steps opens ≡ some os
    → IsOpened f t depth (depth + steps) opens os
unfolding open_between
open_between-IsOpened f t depth zero opens os h =
    let same : opens ≡ os = ground arith in
    subst (IsOpened f t depth (depth + 0) opens) same (record {
      sorted = λ s. s;
      kept = λ q m. m;
      taken = λ d le lt. absurd (omega (arith, le, lt));
      fresh = λ q m. inl m;
    })
open_between-IsOpened f t depth (suc steps) opens os h =
    elim (Bool-cases (is_branch f (take depth t))) [
      | inr no_branch ↦ absurd (ground arith)
      | inl branches ↦
          let rest =
            open_between-IsOpened f t (depth + 1) steps (BTreeSet.insert (take depth t) opens) os
              (ground arith) in
          record {
            sorted = λ s. rest.sorted (insert-IsSorted (take depth t) opens s);
            kept = λ q m. rest.kept q (ground (arith, contains-insert q (take depth t) opens));
            taken = λ d le lt. elim (Bool-cases (ltb depth d)) [
              | inl more ↦ rest.taken d (ground arith) (omega (arith, lt))
              | inr last ↦
                  let same : d ≡ depth = ground (arith, le) in
                  rw same (
                    rest.kept (take depth t) (
                      ground (
                        arith,
                        contains-insert (take depth t) (take depth t) opens,
                        eqb_refl (take depth t),
                      )))
            ];
            fresh = λ q m. elim (rest.fresh q m) [
              | inr (d, le, lt, e, b) ↦ inr (d, omega (arith, le), omega (arith, lt), e, b)
              | inl old ↦ elim (Bool-cases (eqb q (take depth t))) [
                | inr other ↦ inl (ground (arith, contains-insert q (take depth t) opens))
                | inl same ↦
                    let e = (eqb_iff q (take depth t)).0 same in
                    inr (depth, omega arith, omega arith, e, rw e branches)
              ]
            ];
          }
    ]
