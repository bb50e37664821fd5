-- ===== src/Routing/RoutePlan/Inferred.antt =====
-- src/routing/plan.rs: what the loops of `route_plan` infer. The constraints are groups that the
-- planner accepts.
use argent.Base.{
  Text, ◌<◌, ◌≡◌, refl, inl, inr, true, ltb, List, [], ◌∷◌, ◌++◌, All, In, arith, length, lt→ltb,
  Bool-cases, ◌↔◌, ltb→lt,
}
use argent.Collections.BTreeSet.{from_list, contains, contains-append}
use argent.Routing.Components.Classes.{Weak}
use argent.Collections.Order.{bytes_ord}
use argent.Collections.Slices.{Pairwise}
use argent.Routing.Graph.{RouteGraph}
use argent.Routing.Components.{Component}
use argent.Routing.RoutePlan.{FamilyPlan}
use argent.Routing.RoutePlan.Prefix.{Within}
use argent.Routing.RoutePlan.Groups.{Apart, IsGroup, AreGroups}
use argent.Routing.RoutePlan.Table.{Within-at, Within-of, IsTable}
use argent.Routing.RoutePlan.Families.{Inferred, push_cohort, push_family}

-- A family of a domain: its representative is a member, its members and gates are actors of the
-- domain, and its table holds at least two different members.
pub record IsFamily (domains : List (Text × List Text)) (f : FamilyPlan) : Type 0 where
  pub order : List Text
  pub of_domain : In (f.domain, order) domains
  pub known : Within order f.members
  pub direct : Within f.members f.gates
  pub represented : contains f.rep f.members ≡ true
  pub table_lem : IsTable f.members f.table

-- The tables in the order of the families.
abbrev pub tables : List FamilyPlan → List (List Text)
tables [] = []
tables (f ∷ fs) = f.table ∷ tables fs

tables-append_last :
    (fs : List FamilyPlan) (f : FamilyPlan) → tables (fs ++ f ∷ []) ≡ tables fs ++ f.table ∷ []
tables-append_last [] f = refl
tables-append_last (x ∷ fs) f = rw (tables-append_last fs f)

-- The actors of a domain that emit edges inside it connect to one of them, the first.
abbrev pub IsClass : RouteGraph → List (Text × List Text) → List Text → Type 0
IsClass g domains class =
    (domain : Text) × (order : List Text) × (seed : Text) × In (domain, order) domains
    × (contains seed order ≡ true)
    × ((x : Text) → (contains x class ≡ true) ↔ Weak g (from_list order) seed x)

-- A cohort is such a class, of several actors.
abbrev pub IsCohort : RouteGraph → List (Text × List Text) → List Text → Type 0
IsCohort g domains cohort = (1 < length cohort) × IsClass g domains cohort

pub record Good (g : RouteGraph) (domains : List (Text × List Text)) (used : List Text)
    (st : Inferred) : Type 0 where
  pub families_ok : AreGroups g st.constraints.families
  pub cohorts_ok : AreGroups g st.constraints.cohorts
  pub families_in : All (Within used) st.constraints.families
  pub cohorts_in : All (Within used) st.constraints.cohorts
  pub classes : All (IsCohort g domains) st.constraints.cohorts
  pub shapes : All (IsFamily domains) st.families
  pub same_tables : st.constraints.families ≡ tables st.families

append_last :
    {A : Type 0} (P : A → Type 0) (xs : List A) (y : A) → All P xs → P y → All P (xs ++ y ∷ [])
append_last P [] y h k = (k, tt)
append_last P (x ∷ xs) y h k = (h.0, append_last P xs y h.1 k)

In-append_last : {A : Type 0} (xs : List A) (y z : A) → In z xs → In z (xs ++ y ∷ [])
In-append_last [] y z m = absurd m
In-append_last (x ∷ xs) y z (inl e) = inl e
In-append_last (x ∷ xs) y z (inr m) = inr (In-append_last xs y z m)

In-last : {A : Type 0} (xs : List A) (y : A) → In y (xs ++ y ∷ [])
In-last [] y = inl refl
In-last (x ∷ xs) y = inr (In-last xs y)

Pairwise-append_last :
    {A : Type 0} (R : A → A → Type 0) (xs : List A) (y : A)
    → Pairwise R xs
    → All (λ x. R x y) xs
    → Pairwise R (xs ++ y ∷ [])
Pairwise-append_last R [] y h k = (tt, tt)
Pairwise-append_last R (x ∷ xs) y h k =
    (append_last (R x) xs y h.0 k.0, Pairwise-append_last R xs y h.1 k.1)

Apart-from_used :
    (used ys : List Text) (gs : List (List Text))
    → Apart used ys
    → All (Within used) gs
    → All (λ xs. Apart xs ys) gs
Apart-from_used used ys [] h k = tt
Apart-from_used used ys (xs ∷ gs) h k =
    (λ x m n. h x (Within-at used xs x k.0 m) n, Apart-from_used used ys gs h k.1)

widen :
    (used used' : List Text) (gs : List (List Text))
    → ((x : Text) → contains x used ≡ true → contains x used' ≡ true)
    → All (Within used) gs
    → All (Within used') gs
widen used used' [] h k = tt
widen used used' (xs ∷ gs) h k =
    (Within-of used' xs (λ x m. h x (Within-at used xs x k.0 m)), widen used used' gs h k.1)

AreGroups-push :
    (g : RouteGraph) (used ys : List Text) (gs : List (List Text))
    → AreGroups g gs
    → All (Within used) gs
    → IsGroup g ys
    → Apart used ys
    → AreGroups g (gs ++ ys ∷ [])
AreGroups-push g used ys gs good inside group apart = (
  append_last (IsGroup g) gs ys good.0 group,
  Pairwise-append_last Apart gs ys good.1 (Apart-from_used used ys gs apart inside),
)

module _ (g : RouteGraph) (domains : List (Text × List Text)) where
  pub Good-widen :
      (used used' : List Text) (st : Inferred)
      → ((x : Text) → contains x used ≡ true → contains x used' ≡ true)
      → Good g domains used st
      → Good g domains used' st
  Good-widen used used' st h k = record {
    families_ok = k.families_ok;
    cohorts_ok = k.cohorts_ok;
    families_in = widen used used' st.constraints.families h k.families_in;
    cohorts_in = widen used used' st.constraints.cohorts h k.cohorts_in;
    classes = k.classes;
    shapes = k.shapes;
    same_tables = k.same_tables;
  }

  module _ (used : List Text) (st : Inferred) (good : Good g domains used st) (c : Component)
      (group : IsGroup g c.members) (apart : Apart used c.members)
      (class : IsClass g domains c.members) where
    abbrev pub used' : List Text
    used' = c.members ++ used

    older : (x : Text) → contains x used ≡ true → contains x used' ≡ true
    older x h = ground (arith, contains-append x c.members used)

    newer : (x : Text) → contains x c.members ≡ true → contains x used' ≡ true
    newer x h = ground (arith, contains-append x c.members used)

    pub Good-cohort : Good g domains used' (push_cohort c st)
    Good-cohort = elim (Bool-cases (ltb 1 (length c.members))) [
      | inl large ↦ rw large (record {
        families_ok = good.families_ok;
        cohorts_ok =
            AreGroups-push g used c.members st.constraints.cohorts good.cohorts_ok good.cohorts_in
              group apart;
        families_in = widen used used' st.constraints.families older good.families_in;
        cohorts_in =
            append_last (Within used') st.constraints.cohorts c.members
              (widen used used' st.constraints.cohorts older good.cohorts_in)
              (Within-of used' c.members newer);
        classes =
            append_last (IsCohort g domains) st.constraints.cohorts c.members good.classes
              (ltb→lt 1 (length c.members) large, class);
        shapes = good.shapes;
        same_tables = good.same_tables;
      })
      | inr small ↦ rw small (Good-widen used used' st older good)
    ]

    families-push_cohort : (push_cohort c st).constraints.families ≡ st.constraints.families
    families-push_cohort = ground arith

    pub Good-family :
        (f : FamilyPlan)
        → IsFamily domains f
        → ((x : Text) → contains x f.table ≡ true → contains x c.members ≡ true)
        → Good g domains used' (push_family f (push_cohort c st))
    Good-family f shape within = record {
      families_ok = rw families-push_cohort (
          AreGroups-push g used f.table st.constraints.families good.families_ok good.families_in
            (
              λ e. ground (arith, shape.table_lem.several, e),
              λ x m. group.1 x (within x m),
              shape.table_lem.distinct,
            )
            (λ x m n. apart x m (within x n)));
      cohorts_ok = Good-cohort.cohorts_ok;
      families_in =
          append_last (Within used') (push_cohort c st).constraints.families f.table
            Good-cohort.families_in (Within-of used' f.table (λ x m. newer x (within x m)));
      cohorts_in = Good-cohort.cohorts_in;
      classes = Good-cohort.classes;
      shapes =
          append_last (IsFamily domains) (push_cohort c st).families f Good-cohort.shapes shape;
      same_tables = rw tables-append_last (rw Good-cohort.same_tables);
    }

    pub cohorts-kept :
        (h : List Text) → In h st.constraints.cohorts → In h (push_cohort c st).constraints.cohorts
    cohorts-kept h m = elim (Bool-cases (ltb 1 (length c.members))) [
      | inl large ↦ rw large (In-append_last st.constraints.cohorts c.members h m)
      | inr small ↦ rw small m
    ]

    pub cohort-pushed : 1 < length c.members → In c.members (push_cohort c st).constraints.cohorts
    cohort-pushed h = rw (lt→ltb 1 (length c.members) h) (In-last st.constraints.cohorts c.members)
