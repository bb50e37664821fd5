-- ===== src/Routing/RoutePlan/Prefix.antt =====
-- src/routing/plan.rs: the table prefix that the selectors of a component ask for, and the errors of
-- the selectors.
use argent.Base.{
  Text, ℕ, ◌+◌, ◌≤◌, ◌≡◌, ◌⊎◌, inl, inr, true, not, ◌&&◌, none, some, List, [], ◌∷◌, length, find,
  All, arith, Bool-cases, Option-cases, Result, ok, err, bind_ok, ◌>>=◌, subst, ltb, Done,
  List-cases,
}
use argent.Collections.Order.{eqb, bytes_ord}
use argent.Collections.BTreeSet
use argent.Collections.BTreeSet.{contains, from_list}
use argent.Collections.BTreeMap.{get}
use argent.Collections.Slices.{Pairwise}
use argent.Routing.RoutePlan.{
  SelectorRequirement, RoutePlanError, constraint, validate_variants, validate_selector,
  validate_from, validate_selector_requirements, component_selectors, same_variants,
  check_selectors, selector_prefix_for_component,
}
use argent.Routing.RoutePlan.Selectors.{Other, IsRequirement}

-- An error that a selector requirement causes.
abbrev pub IsSelectorError : RoutePlanError → Type 0
IsSelectorError (constraint e) = ⊥
IsSelectorError _ = Unit

-- No element stands twice.
abbrev pub NoRepeat : List Text → Type 0
NoRepeat xs = Pairwise Other xs

-- The members of a list lie in a set.
abbrev pub Within : List Text → List Text → Type 0
Within s xs = All (λ x. contains x s ≡ true) xs

err-injective :
    {A : Type 0} {x y : RoutePlanError} → ◌≡◌ {A = Result A RoutePlanError} (err x) (err y) → x ≡ y
err-injective h = cc

then_err :
    {A B : Type 0} (r : Result A RoutePlanError) (k : A → B) {x : RoutePlanError}
    → (r >>= λ a. ok (k a)) ≡ err x
    → r ≡ err x
then_err (ok a) k h = cc
then_err (err y) k h = ground arith

find-none :
    (component vs : List Text)
    → find (λ actor. not (contains actor component)) vs ≡ none
    → Within component vs
find-none component [] h = tt
find-none component (v ∷ vs) h = ground (arith, find-none component vs)

check_selectors-first :
    (domain : Text) (component : List Text) (first : ℕ × SelectorRequirement) (i : ℕ)
    (s : SelectorRequirement) (rest : List (ℕ × SelectorRequirement))
    → check_selectors domain component first ((i, s) ∷ rest) ≡ ok tt
    → Within component s.variants
unfolding check_selectors
check_selectors-first domain component first i s rest h =
    elim (Option-cases (find (λ actor. not (contains actor component)) s.variants)) [
      | inl every ↦ find-none component s.variants every
      | inr (actor, out) ↦ cc (rw (out, check_selectors) at h)
    ]

component_selectors-All :
    (P : SelectorRequirement → Type 0) (domain : Text) (component : List Text) (i : ℕ)
    (ss : List SelectorRequirement)
    → All P ss
    → All (λ p. P p.1) (component_selectors domain component i ss)
component_selectors-All P domain component i [] h = tt
component_selectors-All P domain component i (s ∷ ss) h =
    let rest = component_selectors-All P domain component (i + 1) ss h.1 in
    elim (Bool-cases (eqb s.domain domain && contains s.source component)) [
      | inl mine ↦ rw (mine, component_selectors) (h.0, rest)
      | inr other ↦ rw (other, component_selectors) rest
    ]

-- The prefix has at least two entries, all different and of the component.
pub selector_prefix_lem :
    (domains : List (Text × List Text)) (domain : Text) (component : List Text)
    (ss : List SelectorRequirement) (table : List Text)
    → All (IsRequirement domains) ss
    → selector_prefix_for_component domain component ss ≡ ok (some table)
    → (2 ≤ length table) × NoRepeat table × Within component table
unfolding selector_prefix_for_component
selector_prefix_lem domains domain component ss table good h =
    elim (List-cases (component_selectors domain component 0 ss)) [
      | inl nil' ↦ cc (rw (nil', selector_prefix_for_component) at h)
      | inr ((i, s), rest, some') ↦
          let h' = rw (some', selector_prefix_for_component) at h in
          let (u, checked, e) =
            bind_ok (check_selectors domain component (i, s) ((i, s) ∷ rest))
              (λ u. ok (some s.variants)) (some table) h' in
          let r =
            rw some' at
              (component_selectors-All (IsRequirement domains) domain component 0 ss good) in
          let (actors, k, source, two, every, apart) = r.0 in
          let same : s.variants ≡ table = ground arith in
          rw (← same) (two, apart, check_selectors-first domain component (i, s) i s rest checked)
    ]

check_selectors-IsSelectorError :
    (domain : Text) (component : List Text) (first : ℕ × SelectorRequirement)
    (rest : List (ℕ × SelectorRequirement)) (x : RoutePlanError)
    → check_selectors domain component first rest ≡ err x
    → IsSelectorError x
unfolding check_selectors
check_selectors-IsSelectorError domain component first [] x h = cc
check_selectors-IsSelectorError domain component first ((i, s) ∷ rest) x h =
    elim (Option-cases (find (λ actor. not (contains actor component)) s.variants)) [
      | inl every ↦
          let h' = rw (every, check_selectors) at h in
          elim (Bool-cases (same_variants s.variants first.1.variants)) [
            | inl same ↦
                check_selectors-IsSelectorError domain component first rest x (rw same at h')
            | inr other ↦ subst IsSelectorError (err-injective (rw other at h')) tt
          ]
      | inr (actor, out) ↦ subst IsSelectorError (err-injective (rw (out, check_selectors) at h)) tt
    ]

pub prefix-IsSelectorError :
    (domain : Text) (component : List Text) (ss : List SelectorRequirement) (x : RoutePlanError)
    → selector_prefix_for_component domain component ss ≡ err x
    → IsSelectorError x
unfolding selector_prefix_for_component
prefix-IsSelectorError domain component ss x h =
    elim (List-cases (component_selectors domain component 0 ss)) [
      | inl nil' ↦ cc (rw (nil', selector_prefix_for_component) at h)
      | inr (first, rest, some') ↦
          check_selectors-IsSelectorError domain component first (first ∷ rest) x (
            then_err (check_selectors domain component first (first ∷ rest)) _
              (rw (some', selector_prefix_for_component) at h))
    ]

variants-IsSelectorError :
    (i : ℕ) (name : Text) (domain seen vs : List Text) (x : RoutePlanError)
    → validate_variants i name domain seen vs ≡ err x
    → IsSelectorError x
unfolding validate_variants
variants-IsSelectorError i name domain seen [] x h = cc
variants-IsSelectorError i name domain seen (v ∷ vs) x h = elim (Bool-cases (contains v seen)) [
  | inl old ↦ subst IsSelectorError (err-injective (rw (old, validate_variants) at h)) tt
  | inr fresh ↦
      let h' = rw (fresh, validate_variants) at h in
      elim (Bool-cases (contains v domain)) [
        | inl known ↦
            variants-IsSelectorError i name domain (BTreeSet.insert v seen) vs x (rw known at h')
        | inr out ↦ subst IsSelectorError (err-injective (rw out at h')) tt
      ]
]

selector-IsSelectorError :
    (domains : List (Text × List Text)) (i : ℕ) (s : SelectorRequirement) (x : RoutePlanError)
    → validate_selector domains i s ≡ err x
    → IsSelectorError x
unfolding validate_selector
selector-IsSelectorError domains i s x h = elim (Option-cases (get s.domain domains)) [
  | inl none' ↦ subst IsSelectorError (err-injective (rw (none', validate_selector) at h)) tt
  | inr (order, found) ↦
      let h' = rw (found, validate_selector) at h in
      elim (Bool-cases (contains s.source (from_list order))) [
        | inr out ↦ subst IsSelectorError (err-injective (rw out at h')) tt
        | inl known ↦
            let h'' = rw known at h' in
            elim (Bool-cases (ltb (length s.variants) 2)) [
              | inl small ↦ subst IsSelectorError (err-injective (rw small at h'')) tt
              | inr large ↦
                  variants-IsSelectorError i s.domain (from_list order) [] s.variants x
                    (rw large at h'')
            ]
      ]
]

from-IsSelectorError :
    (domains : List (Text × List Text)) (i : ℕ) (ss : List SelectorRequirement) (x : RoutePlanError)
    → validate_from domains i ss ≡ err x
    → IsSelectorError x
unfolding validate_from
from-IsSelectorError domains i [] x h = cc
from-IsSelectorError domains i (s ∷ ss) x h =
    elim (first_err (validate_selector domains i s) (validate_from domains (i + 1) ss) x h) [
      | inl e ↦ selector-IsSelectorError domains i s x e
      | inr e ↦ from-IsSelectorError domains (i + 1) ss x e
    ]
  where
    first_err :
        (r k : Result Done RoutePlanError) (y : RoutePlanError)
        → (r >>= λ u. k) ≡ err y
        → (r ≡ err y) ⊎ (k ≡ err y)
    first_err (ok u) k y e = inr e
    first_err (err z) k y e = inl e

pub validate-IsSelectorError :
    (domains : List (Text × List Text)) (ss : List SelectorRequirement) (x : RoutePlanError)
    → validate_selector_requirements domains ss ≡ err x
    → IsSelectorError x
unfolding validate_selector_requirements
validate-IsSelectorError domains ss x h = from-IsSelectorError domains 0 ss x h
