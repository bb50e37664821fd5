-- ===== src/Routing/Needs/Fuel.antt =====
-- The traversal of `needs` ends within the rounds that the edges of the graph allow.
use argent.Base.{
  Text, ℕ, zero, suc, ◌+◌, ◌≤◌, ◌≡◌, ◌≢◌, ap, inl, inr, false, some, List, [], ◌∷◌, arith, length,
  List-cases, Option-cases,
}
use argent.Collections.Order.{eqb_iff, bytes_ord}
use argent.Collections.BTreeSet
use argent.Collections.BTreeSet.{contains, contains-insert}
use argent.Routing.Graph.{Relation, RouteGraph, targets}
use argent.Routing.Needs.{
  Needs, Traversal, out_of_fuel, push_all, expand, visit, traverse, pending_edges,
}

pub length-push_all : (xs s : List Text) → length (push_all xs s) ≡ length xs + length s
length-push_all [] s = omega arith
length-push_all (x ∷ xs) s = omega (arith, length-push_all xs (x ∷ s))

pending_mono :
    (d : Text) (e : List Text) (m : Relation)
    → pending_edges (BTreeSet.insert d e) m ≤ pending_edges e m
pending_mono d e [] = omega arith
pending_mono d e ((s, ts) ∷ m) = ground (arith, pending_mono d e m, contains-insert s d e)

-- A first visit takes the edges of its actor out of the pending ones.
pending_drop :
    (d : Text) (e : List Text) (m : Relation)
    → contains d e ≡ false
    → pending_edges (BTreeSet.insert d e) m + length (targets m d) ≤ pending_edges e m
pending_drop d e [] h = omega arith
pending_drop d e ((s, ts) ∷ m) h = ground (
  arith,
  pending_drop d e m h,
  pending_mono d e m,
  contains-insert s d e,
  eqb_iff d s,
  eqb_iff s d,
)

abbrev pub work : RouteGraph → Traversal → ℕ
work g t = length t.stack + pending_edges t.expanded g.emits

module _ (g : RouteGraph) (reachable : Needs) (src : Text) where
  visit-work :
      (t : Traversal) (dst : Text) (rest : List Text) (next : Traversal)
      → visit g reachable src t dst rest ≡ some next
      → work g next ≤ length rest + pending_edges t.expanded g.emits
  unfolding visit expand
  visit-work t dst rest next h = ground (
    arith,
    pending_mono dst t.expanded g.emits,
    pending_drop dst t.expanded g.emits,
    length-push_all (targets g.emits dst) rest,
  )

  pub traverse_ends :
      (fuel : ℕ) (t : Traversal) → work g t ≤ fuel → traverse g reachable src fuel t ≢ out_of_fuel
  unfolding traverse
  traverse_ends zero t h e = elim (List-cases t.stack) [
    | inl empty ↦ cc (rw (empty, traverse) at e)
    | inr (dst, rest, full) ↦ absurd (omega (arith, ap length full))
  ]
  traverse_ends (suc fuel) t h e = elim (List-cases t.stack) [
    | inl empty ↦ cc (rw (empty, traverse) at e)
    | inr (dst, rest, full) ↦ elim (Option-cases (visit g reachable src t dst rest)) [
      | inl panic ↦ cc (rw (full, panic, traverse) at e)
      | inr (next, step) ↦
          traverse_ends fuel next (omega (arith, ap length full, visit-work t dst rest next step))
            (rw (full, step, traverse) at e)
    ]
  ]
