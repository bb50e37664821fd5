-- ===== src/Routing/RoutePlan/Selectors.antt =====
-- src/routing/plan.rs: the selector requirements that the validation accepts.
use argent.Base.{
  Text, ℕ, ◌+◌, ◌≤◌, ◌≡◌, refl, subst, ◌↔◌, inl, inr, true, false, lt→ltb, ltb→lt, some, List, [],
  ◌∷◌, length, All, arith, ok, then_ok, Option-cases,
}
use argent.Collections.Order.{eqb, bytes_ord}
use argent.Collections.BTreeSet
use argent.Collections.BTreeSet.{contains, contains-insert, from_list}
use argent.Collections.BTreeMap.{get}
use argent.Collections.Slices.{Pairwise}
use argent.Routing.RoutePlan.{
  SelectorRequirement, validate_variants, validate_selector, validate_from,
  validate_selector_requirements,
}

abbrev pub Other : Text → Text → Type 0
Other x y = eqb y x ≡ false

-- A requirement that names a known domain with its source, and at least two different actors of it.
abbrev pub IsRequirement : List (Text × List Text) → SelectorRequirement → Type 0
IsRequirement domains s =
    (actors : List Text) × (get s.domain domains ≡ some actors)
    × (contains s.source (from_list actors) ≡ true)
    × (2 ≤ length s.variants)
    × All (λ v. contains v (from_list actors) ≡ true) s.variants
    × Pairwise Other s.variants

-- An actor of the domain that was not seen before.
abbrev New : List Text → List Text → Text → Type 0
New domain seen v = (contains v domain ≡ true) × (contains v seen ≡ false)

New-insert :
    (domain seen : List Text) (a : Text) (vs : List Text)
    → All (New domain (BTreeSet.insert a seen)) vs ↔ (All (New domain seen) vs × All (Other a) vs)
New-insert domain seen a [] = (λ h. (tt, tt), λ h. tt)
New-insert domain seen a (v ∷ vs) =
    ground (arith, New-insert domain seen a vs, contains-insert v a seen)

variants_ok :
    (i : ℕ) (name : Text) (domain seen vs : List Text)
    → (validate_variants i name domain seen vs ≡ ok tt)
      ↔ (All (New domain seen) vs × Pairwise Other vs)
unfolding validate_variants
variants_ok i name domain seen [] = (λ h. (tt, tt), λ h. refl)
variants_ok i name domain seen (v ∷ vs) =
    ground
      (arith, variants_ok i name domain (BTreeSet.insert v seen) vs, New-insert domain seen v vs)

New-nil : (domain vs : List Text) → All (New domain []) vs ↔ All (λ v. contains v domain ≡ true) vs
New-nil domain [] = (λ h. tt, λ h. tt)
New-nil domain (v ∷ vs) = ground (arith, New-nil domain vs)

selector_ok :
    (domains : List (Text × List Text)) (i : ℕ) (s : SelectorRequirement)
    → (validate_selector domains i s ≡ ok tt) ↔ IsRequirement domains s
unfolding validate_selector
selector_ok domains i s = elim (Option-cases (get s.domain domains)) [
  | inl none' ↦ (λ h. absurd (ground arith), λ k. absurd (ground (arith, k.1)))
  | inr (actors, found) ↦
      let v = variants_ok i s.domain (from_list actors) [] s.variants in
      let n = New-nil (from_list actors) s.variants in
      (
        λ h.
            let parts : (contains s.source (from_list actors) ≡ true)
                × (2 ≤ length s.variants)
                × (validate_variants i s.domain (from_list actors) [] s.variants ≡ ok tt) =
              ground (arith, lt→ltb (length s.variants) 2) in
            let (fresh, apart) = v.0 parts.2 in (actors, found, parts.0, parts.1, n.0 fresh, apart),
        λ k.
            let (others, found', source, two, every, apart) = k in
            let same : others ≡ actors = ground arith in
            let every' : All (λ z. contains z (from_list actors) ≡ true) s.variants =
              subst (λ d. All (λ z. contains z (from_list d) ≡ true) s.variants) same every in
            let source' : contains s.source (from_list actors) ≡ true =
              subst (λ d. contains s.source (from_list d) ≡ true) same source in
            let done = v.1 (n.1 every', apart) in
            ground (arith, found, source', done, two, ltb→lt (length s.variants) 2),
      )
]

from_ok :
    (domains : List (Text × List Text)) (i : ℕ) (ss : List SelectorRequirement)
    → (validate_from domains i ss ≡ ok tt) ↔ All (IsRequirement domains) ss
unfolding validate_from
from_ok domains i [] = (λ h. tt, λ h. refl)
from_ok domains i (s ∷ ss) =
    let one = selector_ok domains i s in
    let rest = from_ok domains (i + 1) ss in
    let both = then_ok (validate_selector domains i s) (validate_from domains (i + 1) ss) in
    (λ h. (one.0 (both.0 h).0, rest.0 (both.0 h).1), λ k. both.1 (one.1 k.0, rest.1 k.1))

-- The validation accepts exactly the requirements that name a known domain, a source of that domain,
-- and at least two different variants, all of that domain.
pub validate_selector_requirements_iff :
    (domains : List (Text × List Text)) (selectors : List SelectorRequirement)
    → (validate_selector_requirements domains selectors ≡ ok tt)
      ↔ All (IsRequirement domains) selectors
unfolding validate_selector_requirements
validate_selector_requirements_iff domains selectors = from_ok domains 0 selectors
