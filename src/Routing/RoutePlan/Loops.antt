-- ===== src/Routing/RoutePlan/Loops.antt =====
-- src/routing/plan.rs: the loops of `route_plan` infer constraints that the planner accepts.
use argent.Base.{
  All-map, Text, ℕ, suc, ◌<◌, ◌≡◌, refl, ◌⊎◌, inl, inr, true, some, List, [], ◌∷◌, ◌++◌, All, In,
  arith, length, get_elem?, Bool-cases,
}
use argent.Collections.Order.{bytes_ord}
use argent.Collections.BTreeSet.{contains, contains-append, contains-extend, from_list}
use argent.Collections.Slices.{Pairwise}
use argent.Routing.Graph.{RouteGraph, IsActor}
use argent.Routing.Graph.Build.{IsWellFormed}
use argent.Routing.Components.{Component}
use argent.Routing.Components.Classes.{Weak, alone, joined, AreComponents}
use argent.Routing.Components.Correct.{components_correct}
use argent.Routing.RoutePlan.{SelectorRequirement, RoutePlanError}
use argent.Routing.RoutePlan.Selectors.{IsRequirement}
use argent.Routing.RoutePlan.Prefix.{IsSelectorError, NoRepeat}
use argent.Routing.RoutePlan.Groups.{Apart}
use argent.Routing.RoutePlan.Table.{NoRepeat-of_IsSorted}
use argent.Routing.RoutePlan.Families.{Inferred, ok, err, plan_components, plan_domains}
use argent.Routing.RoutePlan.Inferred.{Good, Good-widen}
use argent.Routing.RoutePlan.Steps.{IsPart, plan_component-Step}

-- The domains name actors of the graph, none twice, and share none.
pub record AreDomains (g : RouteGraph) (domains : List (Text × List Text)) : Type 0 where
  pub distinct : All (λ p. NoRepeat p.1) domains
  pub known : All (λ p. (x : Text) → contains x p.1 ≡ true → IsActor g x) domains
  pub disjoint : Pairwise (λ p q. Apart p.1 q.1) domains

-- The cohorts hold the members of every component of several actors.
abbrev pub Pushed : List Component → Inferred → Type 0
Pushed cs st = All (λ c. 1 < length c.members → In c.members st.constraints.cohorts) cs

abbrev pub Kept : Inferred → Inferred → Type 0
Kept st next = (h : List Text) → In h st.constraints.cohorts → In h next.constraints.cohorts

Pushed-Kept :
    (cs : List Component) (st next : Inferred) → Kept st next → Pushed cs st → Pushed cs next
Pushed-Kept [] st next keep h = tt
Pushed-Kept (c ∷ cs) st next keep h =
    (λ large. keep c.members (h.0 large), Pushed-Kept cs st next keep h.1)

Apart-append : (xs ys zs : List Text) → Apart xs zs → Apart ys zs → Apart (xs ++ ys) zs
Apart-append xs ys zs h k x m n = elim (Bool-cases (contains x xs)) [
  | inl there ↦ h x there n
  | inr out ↦ k x (ground (arith, contains-append x xs ys)) n
]

All-zip :
    {A : Type 0} (P Q R : A → Type 0) (xs : List A)
    → ((a : A) → P a → Q a → R a)
    → All P xs
    → All Q xs
    → All R xs
All-zip P Q R [] f h k = tt
All-zip P Q R (x ∷ xs) f h k = (f x h.0 k.0, All-zip P Q R xs f h.1 k.1)

module _ (g : RouteGraph) (domains : List (Text × List Text)) (selectors : List SelectorRequirement)
    (requirements : All (IsRequirement domains) selectors) where
  module _ (domain : Text) (order : List Text) (of_domain : In (domain, order) domains)
      (distinct : NoRepeat order) where
    plan_components-Good :
        (cs : List Component) (used all : List Text) (st : Inferred)
        → Good g domains used st
        → All (IsPart g order) cs
        → Pairwise (λ c d. Apart c.members d.members) cs
        → All (λ c. Apart used c.members) cs
        → ((x : Text) → contains x used ≡ true → contains x all ≡ true)
        → All (λ c. (x : Text) → contains x c.members ≡ true → contains x all ≡ true) cs
        → ((x : RoutePlanError) × (plan_components domain order selectors st cs ≡ err x)
            × IsSelectorError x)
          ⊎ ((next : Inferred) × (plan_components domain order selectors st cs ≡ ok next)
              × Good g domains all next
              × Kept st next
              × Pushed cs next)
    unfolding plan_components
    plan_components-Good [] used all st good parts apart free within inside =
        inr (st, refl, Good-widen g domains used all st within good, λ h m. m, tt)
    plan_components-Good (c ∷ cs) used all st good parts apart free within inside =
        let step =
          plan_component-Step g domains selectors requirements domain order of_domain distinct used
            st c good parts.0 free.0 in
        let rest = λ (next : Inferred) (fine : Good g domains (c.members ++ used) next).
          plan_components-Good cs (c.members ++ used) all next fine parts.1 apart.1
            (All-zip _ _ (λ d. Apart (c.members ++ used) d.members) cs
              (λ d a b. Apart-append c.members used d.members a b) apart.0 free.1)
            (λ x h. ground (arith, contains-append x c.members used, within x, inside.0 x))
            inside.1 in
        elim step [
          | inl (x, e, s) ↦ inl (x, rw (e, plan_components) refl, s)
          | inr (next, e, (fine, keep, large)) ↦ elim (rest next fine) [
            | inl (x, e', s) ↦ inl (x, rw (e, plan_components) e', s)
            | inr (last, e', good', keep', pushed) ↦ inr (
              last,
              rw (e, plan_components) e',
              good',
              λ h m. keep' h (keep h m),
              (λ n. keep' c.members (large n), pushed),
            )
          ]
        ]

-- The parts that the components of a domain are.
All_by_index :
    (P : Component → Type 0) (cs : List Component)
    → ((i : ℕ) (c : Component) → get_elem? cs i ≡ some c → P c)
    → All P cs
All_by_index P [] h = tt
All_by_index P (c ∷ cs) h = (h 0 c refl, All_by_index P cs (λ i d e. h (suc i) d e))

Pairwise-by_index :
    (cs : List Component)
    → ((x : Text) (i j : ℕ) (c d : Component)
        → get_elem? cs i ≡ some c
        → get_elem? cs j ≡ some d
        → contains x c.members ≡ true
        → contains x d.members ≡ true
        → i ≡ j)
    → Pairwise (λ c d. Apart c.members d.members) cs
Pairwise-by_index [] h = tt
Pairwise-by_index (c ∷ cs) h = (
  All_by_index (λ d. Apart c.members d.members) cs
      (λ i d e x m n. absurd (omega (arith, h x 0 (suc i) c d refl e m n))),
  Pairwise-by_index cs (λ x i j a b e e' m n. omega (arith, h x (suc i) (suc j) a b e e' m n)),
)

module _ {g : RouteGraph} {domain : List Text} where
  Weak-inside :
      {a x : Text} → contains a domain ≡ true → Weak g domain a x → contains x domain ≡ true
  Weak-inside h alone = h
  Weak-inside h (joined w l) = l.1

  pub Weak-trans : {a b c : Text} → Weak g domain a b → Weak g domain b c → Weak g domain a c
  Weak-trans v alone = v
  Weak-trans v (joined w l) = joined (Weak-trans v w) l

-- The components of a domain of known actors are parts of it.
component-IsPart :
    (g : RouteGraph) (order : List Text) (cs : List Component)
    → ((x : Text) → contains x order ≡ true → IsActor g x)
    → AreComponents g (from_list order) cs
    → All (IsPart g order) cs
component-IsPart g order cs known a = All_by_index (IsPart g order) cs (λ i c e.
    let (seed, seed_in, sorted, exact) = a.one_class i c e in
    let inside = λ (x : Text) (m : contains x c.members ≡ true).
      let k = Weak-inside seed_in ((exact x).0 m) in
      let k' : contains x order ≡ true = ground (arith, contains-extend x [] order) in k' in
    record {
      group = (
        λ empty. cc (rw empty at ((exact seed).1 alone)),
        λ x m. known x (inside x m),
        NoRepeat-of_IsSorted c.members sorted,
      );
      inside = inside;
      seed = seed;
      seed_in = ground (arith, contains-extend seed [] order);
      exact = exact;
      gates_in = λ x m. ((a.inbound x i c e).0 m).0;
    })

-- The components of several actors of the domain are among the cohorts.
abbrev pub Ready : RouteGraph → Inferred → Text × List Text → Type 0
Ready g st p = (cs : List Component) × AreComponents g (from_list p.1) cs × Pushed cs st

Ready-Kept :
    (g : RouteGraph) (st next : Inferred) (ps : List (Text × List Text))
    → Kept st next
    → All (Ready g st) ps
    → All (Ready g next) ps
Ready-Kept g st next [] keep h = tt
Ready-Kept g st next (p ∷ ps) keep h =
    let (cs, a, pushed) = h.0 in
    ((cs, a, Pushed-Kept cs st next keep pushed), Ready-Kept g st next ps keep h.1)

module _ (g : RouteGraph) (w : IsWellFormed g) (domains : List (Text × List Text))
    (selectors : List SelectorRequirement)
    (requirements : All (IsRequirement domains) selectors) where
  -- What the loop over these domains ends with.
  abbrev pub Planned : Inferred → List (Text × List Text) → Type 0
  Planned st ps =
      ((x : RoutePlanError) × (plan_domains g selectors st ps ≡ err x) × IsSelectorError x)
      ⊎ ((next : Inferred) × (plan_domains g selectors st ps ≡ ok next)
          × ((used : List Text) × Good g domains used next)
          × Kept st next
          × All (Ready g next) ps)

  pub plan_domains-Planned :
      (ps : List (Text × List Text)) (used : List Text) (st : Inferred)
      → Good g domains used st
      → ((p : Text × List Text) → In p ps → In p domains)
      → AreDomains g ps
      → All (λ p. Apart used p.1) ps
      → Planned st ps
  unfolding plan_domains
  plan_domains-Planned [] used st good among are free = inr (st, refl, (used, good), λ h m. m, tt)
  plan_domains-Planned ((domain, order) ∷ ps) used st good among are free =
      let known = are.known.0 in
      let (cs, found, a) =
        components_correct g (from_list order) w
          (λ x h. known x (ground (arith, contains-extend x [] order))) in
      let parts = component-IsPart g order cs known a in
      let one =
        plan_components-Good g domains selectors requirements domain order
          (among (domain, order) (inl refl)) are.distinct.0 cs used (order ++ used) st good parts
          (Pairwise-by_index cs a.apart)
          (All-map _ (λ c. Apart used c.members) cs (λ c p x m n. free.0 x m (p.inside x n)) parts)
          (λ x h. ground (arith, contains-append x order used))
          (All-map _ _ cs (λ c p x h. ground (arith, contains-append x order used, p.inside x h))
            parts) in
      let rest = λ (next : Inferred) (fine : Good g domains (order ++ used) next).
        plan_domains-Planned ps (order ++ used) next fine (λ p m. among p (inr m))
          (record { distinct = are.distinct.1; known = are.known.1; disjoint = are.disjoint.1 })
          (All-zip _ _ (λ p. Apart (order ++ used) p.1) ps
            (λ p h k. Apart-append order used p.1 h k) are.disjoint.0 free.1) in
      elim one [
        | inl (x, e, s) ↦ inl (x, rw found (rw e refl), s)
        | inr (next, e, fine, keep, pushed) ↦ elim (rest next fine) [
          | inl (x, e', s) ↦ inl (x, rw found (rw e e'), s)
          | inr (last, e', good', keep', ready) ↦ inr (
            last,
            rw found (rw e e'),
            good',
            λ h m. keep' h (keep h m),
            ((cs, a, Pushed-Kept cs next last keep' pushed), ready),
          )
        ]
      ]
