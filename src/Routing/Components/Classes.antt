-- ===== src/Routing/Components/Classes.antt =====
-- What the documentation of `components` promises: the weak emit components of the domain, each with
-- its members that are targets of an edge from outside the component.
use argent.Base.{Text, ℕ, ◌≡◌, ◌↔◌, ◌⊎◌, true, false, some, List, get_elem?}
use argent.Collections.Order.{bytes_ord}
use argent.Collections.BTreeSet.{contains, IsSorted}
use argent.Routing.Graph.{RouteGraph, Emits}
use argent.Routing.Components.{Component}

-- An emit edge between two actors of the domain, in either direction.
abbrev pub Linked : RouteGraph → List Text → Text → Text → Type 0
Linked g domain x y =
    (contains x domain ≡ true) × (contains y domain ≡ true) × (Emits g x y ⊎ Emits g y x)

-- Connected inside the domain when the direction of the edges is ignored.
pub data Weak (g : RouteGraph) (domain : List Text) (a : Text) : Text → Type 0 where
  alone : Weak g domain a a
  joined : {b c : Text} → Weak g domain a b → Linked g domain b c → Weak g domain a c

pub record AreComponents (g : RouteGraph) (domain : List Text) (cs : List Component) : Type 0 where
  pub one_class :
      (i : ℕ) (c : Component)
      → get_elem? cs i ≡ some c
      → (a : Text) × (contains a domain ≡ true)
        × IsSorted c.members
        × ((x : Text) → (contains x c.members ≡ true) ↔ Weak g domain a x)
  pub covered :
      (x : Text)
      → contains x domain ≡ true
      → (i : ℕ) × (c : Component) × (get_elem? cs i ≡ some c) × (contains x c.members ≡ true)
  pub apart :
      (x : Text) (i j : ℕ) (c d : Component)
      → get_elem? cs i ≡ some c
      → get_elem? cs j ≡ some d
      → contains x c.members ≡ true
      → contains x d.members ≡ true
      → i ≡ j
  pub inbound :
      (t : Text) (i : ℕ) (c : Component)
      → get_elem? cs i ≡ some c
      → (contains t c.gates ≡ true) ↔ (
          (contains t c.members ≡ true)
          × ((s : Text) × Emits g s t × (contains s c.members ≡ false)))
