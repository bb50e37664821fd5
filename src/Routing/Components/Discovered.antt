-- ===== src/Routing/Components/Discovered.antt =====
-- The loop over the domain of `components`: every actor of the domain is assigned to the component
-- that holds it.
use argent.Base.{
  Text, ℕ, ◌≡◌, refl, ap, ◌↔◌, true, some, List, [], ◌∷◌, ◌++◌, arith, ◌==◌, length, if◌then◌else◌,
  get_elem?, get_elem?-append_last, lt_of_get_elem?, Bool-cases, inl, inr, subst,
}
use argent.Collections.Order.{eqb, eqb_iff, bytes_ord}
use argent.Collections.BTreeSet.{contains, IsSorted}
use argent.Collections.BTreeMap.{get, contains_key}
use argent.Routing.Graph.{Relation, targets}
use argent.Routing.Components.{Component, Visit, Discovery, start_visit, discover, discover_all}
use argent.Routing.Components.Explored.{
  vacant_drop, vacant-le, Walk, IsUndirected, Inv, Inv-start, members_lem, explore-Inv,
}

module _ (domain : List Text) (neighbors : Relation) (u : IsUndirected domain neighbors) where
  -- The members are one class of connected actors; the gates come later.
  abbrev pub IsClass : Component → Type 0
  IsClass c =
      (a : Text) × (contains a domain ≡ true)
      × (c.gates ≡ [])
      × IsSorted c.members
      × ((x : Text) → (contains x c.members ≡ true) ↔ Walk neighbors a x)

  pub record Found (d : Discovery) : Type 0 where
    pub to_found :
        (x : Text) (i : ℕ)
        → get x d.assigned ≡ some i
        → (c : Component) × (get_elem? d.found i ≡ some c) × (contains x c.members ≡ true)
    pub of_found :
        (x : Text) (i : ℕ) (c : Component)
        → get_elem? d.found i ≡ some c
        → contains x c.members ≡ true
        → get x d.assigned ≡ some i
    pub closed :
        (x y : Text)
        → contains_key x d.assigned ≡ true
        → contains y (targets neighbors x) ≡ true
        → contains_key y d.assigned ≡ true
    pub classes : (i : ℕ) (c : Component) → get_elem? d.found i ≡ some c → IsClass c

  module _ (d : Discovery) (f : Found d) (actor : Text) (v : Visit)
      (i : Inv domain neighbors u (length d.found) actor d.assigned v) (empty : v.pending ≡ [])
      (known : contains actor domain ≡ true) where
    added : Component
    added = record { members = v.members; gates = [] }

    assigned_lem :
        (x : Text)
        → get x v.assigned
          ≡ (if contains x v.members then some (length d.found) else get x d.assigned)
    assigned_lem x = ground (arith, i.known x, ap (contains x) empty)

    last_lem :
        (j : ℕ)
        → get_elem? (d.found ++ added ∷ []) j
          ≡ (if j == length d.found then some added else get_elem? d.found j)
    last_lem j = ground (arith, get_elem?-append_last d.found added j)

    exact : (x : Text) → (contains x v.members ≡ true) ↔ Walk neighbors actor x
    exact = members_lem domain neighbors u (length d.found) actor d.assigned v i empty f.closed

    Found-add : Found (record { found = d.found ++ added ∷ []; assigned = v.assigned })
    unfolding added
    Found-add = record {
      to_found = λ x j h. elim (Bool-cases (contains x v.members)) [
        | inl m ↦ (added, ground (arith, assigned_lem x, last_lem j), m)
        | inr out ↦
            let (c, e, m) = f.to_found x j (ground (arith, assigned_lem x)) in
            (c, ground (arith, last_lem j, lt_of_get_elem? d.found j e), m)
      ];
      of_found = λ x j c e m. elim (Bool-cases (j == length d.found)) [
        | inl last ↦ ground (arith, assigned_lem x, last_lem j)
        | inr earlier ↦
            let e' : get_elem? d.found j ≡ some c = ground (arith, last_lem j) in
            let old = f.of_found x j c e' m in ground (arith, assigned_lem x, i.fresh x)
      ];
      closed = λ x y h n. elim (Bool-cases (contains x v.members)) [
        | inl m ↦ i.closed x y m n
        | inr out ↦ ground (arith, assigned_lem x, assigned_lem y, f.closed x y)
      ];
      classes = λ j c e. elim (Bool-cases (j == length d.found)) [
        | inl last ↦
            let same : added ≡ c = ground (arith, last_lem j) in
            subst IsClass same (actor, known, refl, i.ordered, exact)
        | inr earlier ↦ f.classes j c (ground (arith, last_lem j))
      ];
    }

  discover-Found :
      (d : Discovery) (actor : Text)
      → Found d
      → contains actor domain ≡ true
      → (e : Discovery) × (discover neighbors domain d actor ≡ some e)
        × Found e
        × (contains_key actor e.assigned ≡ true)
        × ((x : Text) → contains_key x d.assigned ≡ true → contains_key x e.assigned ≡ true)
  unfolding discover
  discover-Found d actor f known = elim (Bool-cases (contains_key actor d.assigned)) [
    | inl old ↦ (d, rw old, f, old, λ x h. h)
    | inr fresh ↦
        let k = length d.found in
        let (v, e, i, empty) =
          explore-Inv domain neighbors u k actor d.assigned (length domain)
            (start_visit k actor d.assigned)
            (Inv-start domain neighbors u k actor d.assigned (ground arith) known)
            (omega (
              arith,
              vacant_drop d.assigned actor k domain fresh known,
              vacant-le d.assigned domain,
            )) in
        (
          record {
            found = d.found ++ (record { members = v.members; gates = [] }) ∷ [];
            assigned = v.assigned;
          },
          rw fresh (rw e refl),
          unfold added in Found-add d f actor v i empty known,
          ground (arith, i.known actor, i.begun, ap (contains actor) empty),
          λ x h. ground (arith, i.known x),
        )
  ]

  pub discover_all-Found :
      (d : Discovery) (rest : List Text)
      → Found d
      → ((x : Text) → contains x rest ≡ true → contains x domain ≡ true)
      → (e : Discovery) × (discover_all neighbors domain d rest ≡ some e)
        × Found e
        × ((x : Text) → contains x rest ≡ true → contains_key x e.assigned ≡ true)
        × ((x : Text) → contains_key x d.assigned ≡ true → contains_key x e.assigned ≡ true)
  unfolding discover_all
  discover_all-Found d [] f inside = (d, refl, f, λ x h. cc, λ x h. h)
  discover_all-Found d (a ∷ rest) f inside =
      let (n, e, f', now, keep) = discover-Found d a f (inside a (ground (arith, eqb_iff a a))) in
      let (last, e', f'', all, keep') =
        discover_all-Found n rest f' (λ x h. inside x (ground arith)) in
      (
        last,
        rw (e, discover_all) e',
        f'',
        λ x h. elim (Bool-cases (eqb x a)) [
          | inl same ↦ rw ((eqb_iff x a).0 same) (keep' a now)
          | inr other ↦ all x (ground arith)
        ],
        λ x h. keep' x (keep x h),
      )

  pub Found-nil : Found (record { found = []; assigned = [] })
  Found-nil = record {
    to_found = λ x i h. cc;
    of_found = λ x i c e m. cc;
    closed = λ x y h n. cc;
    classes = λ i c e. cc;
  }
