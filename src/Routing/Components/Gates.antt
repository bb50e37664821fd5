-- ===== src/Routing/Components/Gates.antt =====
-- The last loop of `components`: what a list of targets adds to the gates of each component.
use argent.Base.{
  Text, ℕ, zero, suc, ◌≡◌, refl, Bool, true, false, ◌&&◌, ◌||◌, none, some, List, [], ◌∷◌, arith,
  ◌==◌, if◌then◌else◌, get_elem?,
}
use argent.Collections.Order.{eqb_iff, bytes_ord}
use argent.Collections.BTreeSet
use argent.Collections.BTreeSet.{contains, contains-insert}
use argent.Collections.BTreeMap.{get}
use argent.Routing.Components.{Component, Assignment, add_gate, assign_gates}

-- The target is assigned to this component.
abbrev pub assigned_to : Assignment → Text → ℕ → Bool
assigned_to m t j = elim (get t m) [ none ↦ false | some i ↦ i == j ]

abbrev pub with_gate : Text → Component → Component
with_gate t c = record c { gates = BTreeSet.insert t c.gates }

abbrev pub gated : Assignment → List Text → ℕ → Component → Component
gated m [] j c = c
gated m (t ∷ ts) j c = gated m ts j (if assigned_to m t j then with_gate t c else c)

add_gate_lem :
    (i : ℕ) (t : Text) (cs : List Component) {c : Component}
    → get_elem? cs i ≡ some c
    → (cs' : List Component) × (add_gate i t cs ≡ some cs')
      × ((j : ℕ)
          → get_elem? cs' j ≡ (elim (get_elem? cs j) [
            | none ↦ none
            | some d ↦ some (if i == j then with_gate t d else d)
          ]))
add_gate_lem i t [] h = cc
add_gate_lem zero t (c ∷ cs) h =
    (with_gate t c ∷ cs, refl, elim [ zero ↦ refl | suc k ↦ ground arith ])
add_gate_lem (suc i) t (c ∷ cs) h =
    let (cs', e, at) = add_gate_lem i t cs h in
    (c ∷ cs', rw (e, add_gate), elim [ zero ↦ ground arith | suc k ↦ ground (arith, at k) ])

pub assign_gates_lem :
    (m : Assignment) (ts : List Text) (cs : List Component)
    → ((t : Text)
        → contains t ts ≡ true
        → (i : ℕ) × (c : Component) × (get t m ≡ some i) × (get_elem? cs i ≡ some c))
    → (cs' : List Component) × (assign_gates m ts cs ≡ some cs')
      × ((j : ℕ)
          → get_elem? cs' j
            ≡ (elim (get_elem? cs j) [ none ↦ none | some c ↦ some (gated m ts j c) ]))
unfolding assign_gates
assign_gates_lem m [] cs h = (cs, refl, λ j. ground arith)
assign_gates_lem m (t ∷ ts) cs h =
    let (i, c, e, at) = h t (ground (arith, eqb_iff t t)) in
    let (next, e', at') = add_gate_lem i t cs at in
    let (last, e'', at'') = assign_gates_lem m ts next (λ x k.
      let (i', c', f, g) = h x (ground arith) in
      (i', if i == i' then with_gate t c' else c', f, ground (arith, at' i'))) in
    (last, rw (e, assign_gates) (rw e' e''), λ j. ground (arith, at' j, at'' j))

pub members-gated :
    (m : Assignment) (ts : List Text) (j : ℕ) (c : Component) → (gated m ts j c).members ≡ c.members
members-gated m [] j c = refl
members-gated m (t ∷ ts) j c =
    ground (arith, members-gated m ts j (if assigned_to m t j then with_gate t c else c))

pub gates-gated :
    (m : Assignment) (ts : List Text) (j : ℕ) (c : Component) (x : Text)
    → contains x (gated m ts j c).gates
      ≡ (contains x c.gates || (contains x ts && assigned_to m x j))
gates-gated m [] j c x = ground arith
gates-gated m (t ∷ ts) j c x = ground (
  arith,
  gates-gated m ts j (if assigned_to m t j then with_gate t c else c) x,
  contains-insert x t c.gates,
  eqb_iff x t,
)
