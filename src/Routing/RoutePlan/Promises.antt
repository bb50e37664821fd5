-- ===== src/Routing/RoutePlan/Promises.antt =====
-- src/routing/plan.rs: what a route plan promises, in terms of the graph and the domains.
use argent.Base.{Text, ℕ, ◌≡◌, ◌⊎◌, true, some, List, All, In, get_elem?}
use argent.Collections.Order.{bytes_ord}
use argent.Collections.BTreeSet.{contains, from_list}
use argent.Collections.BTreeMap.{get}
use argent.Routing.Graph.{RouteGraph, IsActor, Emits, Consumes}
use argent.Routing.Components.Classes.{Weak}
use argent.Routing.Commitment.{CommitmentConstraints}
use argent.Routing.Commitment.Plan.Promises.{IsPlan, IsRouted}
use argent.Routing.RoutePlan.Families.{RoutePlan}
use argent.Routing.RoutePlan.Inferred.{IsFamily, tables, IsCohort}
use argent.Routing.Forest.{NodePath, Cut}
use argent.Routing.Commitment.Plan.Minimal.{IsFor}

-- The two are in one component of a domain: they connect to one actor of it by emit edges inside it.
abbrev pub Joint : RouteGraph → List (Text × List Text) → Text → Text → Type 0
Joint g domains a b =
    (domain : Text) × (order : List Text) × (seed : Text) × In (domain, order) domains
    × (contains seed order ≡ true)
    × Weak g (from_list order) seed a
    × Weak g (from_list order) seed b

-- What an actor carries templates for: what it consumes, what it emits, the members of its component,
-- and whatever the actors that it emits and the members of its component carry them for.
pub data Carries (g : RouteGraph) (domains : List (Text × List Text)) : Text → Text → Type 0 where
  consumed : {a t : Text} → Consumes g a t → Carries g domains a t
  emitted : {a t : Text} → Emits g a t → Carries g domains a t
  joint : {a t : Text} → Joint g domains a t → Carries g domains a t
  by_emit : {a b t : Text} → Emits g a b → Carries g domains b t → Carries g domains a t
  by_joint : {a b t : Text} → Joint g domains a b → Carries g domains b t → Carries g domains a t

-- What an actor has direct leaves for: what it consumes, the members of its component, and what these
-- consume.
abbrev pub Direct : RouteGraph → List (Text × List Text) → Text → Text → Type 0
Direct g domains a x =
    Consumes g a x ⊎ Joint g domains a x ⊎ ((b : Text) × Joint g domains a b × Consumes g b x)

-- The actors are members of one cohort.
abbrev pub InOneCohort : List (List Text) → Text → Text → Type 0
InOneCohort cohorts a b =
    (i : ℕ) × (cohort : List Text) × (get_elem? cohorts i ≡ some cohort)
    × (contains a cohort ≡ true)
    × (contains b cohort ≡ true)

-- What a route plan promises: its families are families of the domains, the commitments are a plan of
-- their tables and of the components of several actors, the cuts are routed along the emit edges and
-- select only nodes for actors that are carried, and the members of a component have the same cut.
pub record IsRoutePlan (g : RouteGraph) (domains : List (Text × List Text)) (plan : RoutePlan)
    : Type 0 where
  pub families : All (IsFamily domains) plan.families
  pub constraints : CommitmentConstraints
  pub tables_lem : constraints.families ≡ tables plan.families
  pub cohorts : All (IsCohort g domains) constraints.cohorts
  pub components_lem :
      (a b : Text) → Joint g domains a b → (a ≡ b) ⊎ InOneCohort constraints.cohorts a b
  pub planned : IsPlan g constraints plan.commitments
  pub routed : IsRouted g plan.commitments
  pub minimal :
      (a : Text) (cut : Cut) (p : NodePath)
      → IsActor g a
      → get a plan.commitments.cuts ≡ some cut
      → contains p cut ≡ true
      → (x : Text) × ((x ≡ a) ⊎ Carries g domains a x)
        × IsFor plan.commitments.forest (tables plan.families) (Direct g domains a) x p
  pub together :
      (a b : Text) → Joint g domains a b → get a plan.commitments.cuts ≡ get b plan.commitments.cuts
