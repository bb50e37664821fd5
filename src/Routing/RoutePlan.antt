-- ===== src/Routing/RoutePlan.antt =====
-- src/routing/plan.rs: the compiler's requirements for indexed route tables.
pub mod Selectors
pub mod Families
pub mod Prefix
pub mod Groups
pub mod Table
pub mod Inferred
pub mod Steps
pub mod Loops
pub mod Promises
pub mod Carried
pub mod Correct
use argent.Base.{
  Text, ℕ, ◌+◌, Bool, true, false, not, ◌&&◌, ltb, Option, none, some, List, [], ◌∷◌, ◌++◌, length,
  find, select, map, if◌then◌else◌, Result, ok, err, ◌>>=◌, Done,
}
use argent.Collections.Order.{eqb, bytes_ord}
use argent.Collections.BTreeSet
use argent.Collections.BTreeSet.{contains, from_list}
use argent.Collections.BTreeMap.{get}
use argent.Routing.Commitment.{ConstraintError, CommitmentPlan}

pub record FamilyPlan : Type 0 where
  pub domain : Text
  pub rep : Text
  pub members : List Text
  pub gates : List Text
  pub table : List Text

pub record SelectorRequirement : Type 0 where
  pub domain : Text
  pub source : Text
  pub variants : List Text

pub data RoutePlanError : Type 0 where
  constraint : ConstraintError → RoutePlanError
  unknown_selector_domain : (selector_index : ℕ) (domain : Text) → RoutePlanError
  selector_source_outside_domain :
      (selector_index : ℕ) (domain source_actor : Text) → RoutePlanError
  selector_too_small : (selector_index : ℕ) → RoutePlanError
  duplicate_selector_variant : (selector_index : ℕ) (actor : Text) → RoutePlanError
  selector_variant_outside_domain : (selector_index : ℕ) (domain actor : Text) → RoutePlanError
  selector_variant_outside_component :
      (selector_index : ℕ) (domain source_actor actor : Text) → RoutePlanError
  conflicting_selectors :
      (selector_index first_selector_index : ℕ) (domain source_actor : Text) → RoutePlanError

-- The inner loop, with the set `variants`.
unfoldable pub validate_variants :
    ℕ → Text → List Text → List Text → List Text → Result Done RoutePlanError
validate_variants index domain domain_actors seen [] = ok tt
validate_variants index domain domain_actors seen (actor ∷ rest) =
    if contains actor seen
    then err (duplicate_selector_variant index actor)
    else if not (contains actor domain_actors)
    then err (selector_variant_outside_domain index domain actor)
    else validate_variants index domain domain_actors (BTreeSet.insert actor seen) rest

unfoldable pub validate_selector :
    List (Text × List Text) → ℕ → SelectorRequirement → Result Done RoutePlanError
unfolding validate_variants
validate_selector domains index selector = elim (get selector.domain domains) [
  | none ↦ err (unknown_selector_domain index selector.domain)
  | some actor_order ↦
      if not (contains selector.source (from_list actor_order))
      then err (selector_source_outside_domain index selector.domain selector.source)
      else if ltb (length selector.variants) 2
      then err (selector_too_small index)
      else validate_variants index selector.domain (from_list actor_order) [] selector.variants
]

unfoldable pub validate_from :
    List (Text × List Text) → ℕ → List SelectorRequirement → Result Done RoutePlanError
unfolding validate_selector
validate_from domains index [] = ok tt
validate_from domains index (selector ∷ rest) =
    validate_selector domains index selector >>= λ u. validate_from domains (index + 1) rest

unfoldable pub validate_selector_requirements :
    List (Text × List Text) → List SelectorRequirement → Result Done RoutePlanError
unfolding validate_from
validate_selector_requirements domains selectors = validate_from domains 0 selectors

-- `selectors.iter().enumerate().filter(...)`.
abbrev pub component_selectors :
    Text → List Text → ℕ → List SelectorRequirement → List (ℕ × SelectorRequirement)
component_selectors domain component index [] = []
component_selectors domain component index (s ∷ rest) =
    (if eqb s.domain domain && contains s.source component then (index, s) ∷ [] else [])
    ++ component_selectors domain component (index + 1) rest

-- `selector.variants != first.variants`.
abbrev pub same_variants : List Text → List Text → Bool
same_variants [] [] = true
same_variants (x ∷ xs) (y ∷ ys) = eqb x y && same_variants xs ys
same_variants xs ys = false

-- The loop over the selectors of the component.
unfoldable pub check_selectors :
    Text
    → List Text
    → ℕ × SelectorRequirement
    → List (ℕ × SelectorRequirement)
    → Result Done RoutePlanError
check_selectors domain component first [] = ok tt
check_selectors domain component first ((index, s) ∷ rest) =
    elim (find (λ actor. not (contains actor component)) s.variants) [
      | some actor ↦ err (selector_variant_outside_component index domain s.source actor)
      | none ↦
          if not (same_variants s.variants first.1.variants)
          then err (conflicting_selectors index first.0 domain s.source)
          else check_selectors domain component first rest
    ]

unfoldable pub selector_prefix_for_component :
    Text → List Text → List SelectorRequirement → Result (Option (List Text)) RoutePlanError
unfolding check_selectors
selector_prefix_for_component domain component selectors =
    elim (component_selectors domain component 0 selectors) [
      | [] ↦ ok none
      | first ∷ rest ↦
          check_selectors domain component first (first ∷ rest) >>= λ u. ok (some first.1.variants)
    ]

unfoldable pub ordered_members : List Text → List Text → List Text
ordered_members actor_order members = select (λ actor. contains actor members) actor_order
