-- ===== src/Routing/Needs/Correct.antt =====
-- `needs` returns, and every closure holds exactly what the documentation promises.
use argent.Base.{
  Text, ℕ, zero, suc, ◌≡◌, refl, sym, subst, ◌↔◌, ◌⊎◌, inl, inr, true, some, List, [], ◌∷◌, arith,
  Bool-cases, List-cases, In,
}
use argent.Collections.Order.{eqb, eqb_iff, bytes_ord, Lt, Lt-irrefl, Lt-asymm}
use argent.Collections.BTreeSet.{contains, IsSorted, Below, Lt-of_contains}
use argent.Collections.BTreeMap
use argent.Collections.BTreeMap.{get, get-insert}
use argent.Routing.Graph.{RouteGraph, IsActor}
use argent.Routing.Graph.Build.{IsWellFormed}
use argent.Routing.Needs.{
  Needs, Traversal, done, out_of_fuel, lower, expand, visit, traverse, start, rounds, resolve_all,
  needs,
}
use argent.Routing.Needs.Need.{Need, consumed, emitted, inherited, Emitted, one, more}
use argent.Routing.Needs.Fuel.{traverse_ends}
use argent.Routing.Needs.Invariant.{
  IsClosure, Inv, Inv-start, walk, Inv-repeat, Inv-reuse, Inv-expand,
}

-- The closure of an actor is published.
abbrev pub IsResolved : RouteGraph → Needs → Text → Type 0
IsResolved g reachable a = (r : List Text) × (get a reachable ≡ some r) × IsClosure g a r

target-IsActor : (g : RouteGraph) → IsWellFormed g → {a b : Text} → Emitted g a b → IsActor g b
target-IsActor g w {a} (one {b} e) = (w.emits_known a b e).1
target-IsActor g w (more {b} {c} p e) = (w.emits_known b c e).1

lower-Lt : (d s : Text) → lower d s ≡ true → Lt d s
lower-Lt d s h = ground arith

module _ (g : RouteGraph) (w : IsWellFormed g) (reachable : Needs) (src : Text)
    (lower_done : (d : Text) → Lt d src → IsActor g d → IsResolved g reachable d) where
  first_visit :
      (t : Traversal) (dst : Text) (rest : List Text)
      → Inv g src t
      → t.stack ≡ dst ∷ rest
      → (next : Traversal) × (expand g reachable src t dst rest ≡ some next) × Inv g src next
  unfolding expand
  first_visit t dst rest i full = elim (Bool-cases (lower dst src)) [
    | inl below ↦
        let (r, e, exact) =
          lower_done dst (lower-Lt dst src below)
            (target-IsActor g w (walk g src t dst rest i full)) in
        (_, rw (below, e), Inv-reuse g src t dst rest i full r exact)
    | inr above ↦ (_, rw above, Inv-expand g src t dst rest i full)
  ]

  round :
      (t : Traversal) (dst : Text) (rest : List Text)
      → Inv g src t
      → t.stack ≡ dst ∷ rest
      → (next : Traversal) × (visit g reachable src t dst rest ≡ some next) × Inv g src next
  unfolding visit
  round t dst rest i full = elim (Bool-cases (contains dst t.expanded)) [
    | inl old ↦ (_, rw old, Inv-repeat g src t dst rest i full old)
    | inr new ↦ let (next, e, inv) = first_visit t dst rest i full in (next, rw new e, inv)
  ]

  -- With nothing left on the stack the found set is closed.
  complete :
      (t : Traversal)
      → Inv g src t
      → t.stack ≡ []
      → {d x : Text} → Need g d x
      → contains d t.expanded ≡ true
      → contains x t.reach ≡ true
  complete t i empty (consumed {a = d} {t = x} c) h = elim (i.covered d h) [
    | inl all ↦ all x (consumed c)
    | inr (cs, es) ↦ cs x c
  ]
  complete t i empty (emitted {a = d} {t = x} e) h = elim (i.covered d h) [
    | inl all ↦ all x (emitted e)
    | inr (cs, es) ↦ elim (es x e) [
      | inl seen ↦ i.shown x seen
      | inr waiting ↦ absurd (subst (In x) empty waiting)
    ]
  ]
  complete t i empty (inherited {a = d} {b = b} {t = x} e n) h = elim (i.covered d h) [
    | inl all ↦ all x (inherited e n)
    | inr (cs, es) ↦ elim (es b e) [
      | inl seen ↦ complete t i empty n seen
      | inr waiting ↦ absurd (subst (In b) empty waiting)
    ]
  ]

  complete_from_source :
      (t : Traversal)
      → Inv g src t
      → t.stack ≡ []
      → (x : Text) → Need g src x
      → contains x t.reach ≡ true
  complete_from_source t i empty x (consumed c) = i.direct x c
  complete_from_source t i empty x (emitted e) = elim (i.begun x e) [
    | inl seen ↦ i.shown x seen
    | inr waiting ↦ absurd (subst (In x) empty waiting)
  ]
  complete_from_source t i empty x (inherited {b = b} e n) = elim (i.begun b e) [
    | inl seen ↦ complete t i empty n seen
    | inr waiting ↦ absurd (subst (In b) empty waiting)
  ]

  closed : (t : Traversal) → Inv g src t → t.stack ≡ [] → IsClosure g src t.reach
  closed t i empty x = (i.sound x, complete_from_source t i empty x)

  traverse-IsClosure :
      (fuel : ℕ) (t : Traversal)
      → Inv g src t
      → (traverse g reachable src fuel t ≡ out_of_fuel)
        ⊎ ((r : List Text) × (traverse g reachable src fuel t ≡ done r) × IsClosure g src r)
  unfolding traverse
  traverse-IsClosure zero t i = elim (List-cases t.stack) [
    | inl empty ↦ inr (t.reach, rw (empty, traverse), closed t i empty)
    | inr (dst, rest, full) ↦ inl (rw (full, traverse))
  ]
  traverse-IsClosure (suc fuel) t i = elim (List-cases t.stack) [
    | inl empty ↦ inr (t.reach, rw (empty, traverse), closed t i empty)
    | inr (dst, rest, full) ↦
        let (next, e, inv) = round t dst rest i full in
        rw (full, traverse) (rw e (traverse-IsClosure fuel next inv))
  ]

  source_done :
      (r : List Text) × (traverse g reachable src (rounds g src) (start g src) ≡ done r)
      × IsClosure g src r
  source_done = elim (traverse-IsClosure (rounds g src) (start g src) (Inv-start g src)) [
    | inl short ↦
        absurd (traverse_ends g reachable src (rounds g src) (start g src) (omega arith) short)
    | inr found ↦ found
  ]

module _ (g : RouteGraph) (w : IsWellFormed g) where
  lower_done :
      (src : Text) (rest : List Text) (reachable : Needs)
      → Below src rest
      → ((a : Text) → IsActor g a → (contains a (src ∷ rest) ≡ true) ⊎ IsResolved g reachable a)
      → (d : Text) → Lt d src
      → IsActor g d
      → IsResolved g reachable d
  lower_done src rest reachable below left d lt known = elim (left d known) [
    | inl waits ↦ absurd (
        ground
          (arith, eqb_iff d src, Lt-of_contains d src rest below, Lt-asymm d src, Lt-irrefl src))
    | inr found ↦ found
  ]

  publish :
      (src : Text) (rest : List Text) (reachable : Needs) (closure : List Text)
      → IsClosure g src closure
      → (a : Text) → (contains a (src ∷ rest) ≡ true) ⊎ IsResolved g reachable a
      → (contains a rest ≡ true) ⊎ IsResolved g (BTreeMap.insert src closure reachable) a
  publish src rest reachable closure exact a left = elim (Bool-cases (eqb a src)) [
    | inl same ↦ inr (
      closure,
      rw get-insert (rw same),
      subst (λ x. IsClosure g x closure) (sym ((eqb_iff a src).0 same)) exact,
    )
    | inr other ↦ elim left [
      | inl waits ↦ inl (rw other at waits)
      | inr (r, e, old) ↦ inr (r, rw get-insert (rw other e), old)
    ]
  ]

  resolve_all-IsResolved :
      (rest : List Text) (reachable : Needs)
      → IsSorted rest
      → ((a : Text) → IsActor g a → (contains a rest ≡ true) ⊎ IsResolved g reachable a)
      → (m : Needs) × (resolve_all g rest reachable ≡ some m)
        × ((a : Text) → IsActor g a → IsResolved g m a)
  unfolding resolve_all
  resolve_all-IsResolved [] reachable sorted left =
      (reachable, refl, λ a known. elim (left a known) [ inl none' ↦ cc | inr r ↦ r ])
  resolve_all-IsResolved (src ∷ rest) reachable sorted left =
      let (closure, e, exact) =
        source_done g w reachable src (lower_done src rest reachable sorted.0 left) in
      let (m, all, found) =
        resolve_all-IsResolved rest (BTreeMap.insert src closure reachable) sorted.1
          (λ a known. publish src rest reachable closure exact a (left a known)) in
      (m, rw (e, resolve_all) all, found)

-- On a well-formed graph `needs` returns, without a panic and within the rounds allowed, and the
-- closure that it gives every actor holds a template exactly if the actor consumes it, emits it, or
-- emits an actor that needs it.
pub needs_correct :
    (g : RouteGraph)
    → IsWellFormed g
    → (m : Needs) × (needs g ≡ some m)
      × ((a : Text)
          → IsActor g a
          → (r : List Text) × (get a m ≡ some r)
            × ((t : Text) → (contains t r ≡ true) ↔ Need g a t))
unfolding needs
needs_correct g w = resolve_all-IsResolved g w g.actors [] w.ordered (λ a known. inl known)
