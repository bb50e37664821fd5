-- ===== src/Routing/RoutePlan/Families.antt =====
-- src/routing/plan.rs, `route_plan`: the route families and cohorts of the domains, and the plan of
-- their commitments.
use argent.Base.{
  Text, ℕ, ◌+◌, Bool, true, false, not, ◌&&◌, ltb, Option, none, some, List, [], ◌∷◌, ◌++◌, length,
  select, if◌then◌else◌, Done,
}
use argent.Base as Base
use argent.Collections.Order.{bytes_ord}
use argent.Collections.BTreeSet.{contains, from_list}
use argent.Routing.Graph.{RouteGraph}
use argent.Routing.Components.{Component, components}
use argent.Routing.Commitment as Commitment
use argent.Routing.Commitment.{CommitmentConstraints, CommitmentPlan}
use argent.Routing.Commitment.Plan.{commitment_plan}
use argent.Routing.RoutePlan.{
  FamilyPlan, SelectorRequirement, RoutePlanError, constraint, validate_selector_requirements,
  selector_prefix_for_component, ordered_members,
}

pub record RoutePlan : Type 0 where
  pub families : List FamilyPlan
  pub commitments : CommitmentPlan

-- `panic` is a failed `expect` or assertion.
pub data Outcome (A : Type 0) : Type 0 where
  ok : A → Outcome A
  err : RoutePlanError → Outcome A
  panic : Outcome A

infixl 5 ◌>>=◌
abbrev pub ◌>>=◌ : {A B : Type 0} → Outcome A → (A → Outcome B) → Outcome B
ok a >>= k = k a
err e >>= k = err e
panic >>= k = panic

-- `?` on the result of a function that does not panic, and on one of the planner.
abbrev pub raise : {A : Type 0} → Base.Result A RoutePlanError → Outcome A
raise (Base.ok a) = ok a
raise (Base.err e) = err e

abbrev pub from_planner : {A : Type 0} → Commitment.Result A → Outcome A
from_planner (Commitment.ok a) = ok a
from_planner (Commitment.err e) = err (constraint e)
from_planner Commitment.panic = panic

abbrev pub expect : {A : Type 0} → Option A → Outcome A
expect none = panic
expect (some a) = ok a

-- The variables of the loops.
pub record Inferred : Type 0 where
  pub families : List FamilyPlan
  pub constraints : CommitmentConstraints

-- `gates.first().or_else(|| members.first())`.
abbrev pub representative : List Text → List Text → Option Text
representative (gate ∷ gates) members = some gate
representative [] (member ∷ members) = some member
representative [] [] = none

-- The table of a component; `none` is a `continue`.
unfoldable pub family_table : Option (List Text) → ℕ → List Text → List Text → Option (List Text)
family_table (some prefix) size members gates = some (
    prefix
    ++ select
        (λ actor. not (contains actor (from_list gates)) && not (contains actor (from_list prefix)))
        members)
family_table none size members gates =
    let table = select (λ actor. not (contains actor (from_list gates))) members in
    if ltb size 3 then none else if ltb (length table) 2 then none else some table

abbrev pub push_cohort : Component → Inferred → Inferred
push_cohort c st =
    if ltb 1 (length c.members)
    then record st {
      constraints = record (st.constraints) { cohorts = st.constraints.cohorts ++ c.members ∷ [] };
    }
    else st

abbrev pub push_family : FamilyPlan → Inferred → Inferred
push_family family st = record {
  families = st.families ++ family ∷ [];
  constraints = record (st.constraints) { families = st.constraints.families ++ family.table ∷ [] };
}

-- The end of the body: the family of a component with a table is pushed.
unfoldable pub add_family : FamilyPlan → Inferred → Option (List Text) → Outcome Inferred
add_family family st none = ok st
add_family family st (some table) = ok (push_family (record family { table = table }) st)

-- The body of the loop over the components of a domain.
unfoldable pub plan_component :
    Text → List Text → List SelectorRequirement → Inferred → Component → Outcome Inferred
plan_component domain actor_order selectors st c =
    let members = ordered_members actor_order c.members in
    let gates = ordered_members actor_order c.gates in
    expect (representative gates members) >>= λ rep.
    raise (selector_prefix_for_component domain c.members selectors) >>= λ prefix.
    add_family (record { domain = domain; rep = rep; members = members; gates = gates; table = [] })
      (push_cohort c st) (family_table prefix (length c.members) members gates)

unfoldable pub plan_components :
    Text → List Text → List SelectorRequirement → Inferred → List Component → Outcome Inferred
unfolding plan_component selector_prefix_for_component ordered_members family_table add_family
plan_components domain actor_order selectors st [] = ok st
plan_components domain actor_order selectors st (c ∷ cs) =
    plan_component domain actor_order selectors st c >>= λ next.
    plan_components domain actor_order selectors next cs

-- The loop over the domains.
unfoldable pub plan_domains :
    RouteGraph → List SelectorRequirement → Inferred → List (Text × List Text) → Outcome Inferred
unfolding plan_components components
plan_domains g selectors st [] = ok st
plan_domains g selectors st ((domain, actor_order) ∷ rest) =
    expect (components g (from_list actor_order)) >>= λ cs.
    plan_components domain actor_order selectors st cs >>= λ next.
    plan_domains g selectors next rest

abbrev pub nothing_inferred : Inferred
nothing_inferred = record { families = []; constraints = record { families = []; cohorts = [] } }

unfoldable pub route_plan :
    RouteGraph → List (Text × List Text) → List SelectorRequirement → Outcome RoutePlan
unfolding validate_selector_requirements plan_domains commitment_plan
route_plan g domains selectors = raise (validate_selector_requirements domains selectors) >>= λ u.
    plan_domains g selectors nothing_inferred domains >>= λ inferred.
    from_planner (commitment_plan g inferred.constraints) >>= λ commitments.
    ok (record { families = inferred.families; commitments = commitments })
