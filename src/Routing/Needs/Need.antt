-- ===== src/Routing/Needs/Need.antt =====
-- What the documentation of `needs` promises, as a relation: emit targets contribute themselves and
-- their complete needs, consume targets only themselves.
use argent.Base.{Text}
use argent.Routing.Graph.{RouteGraph, Emits, Consumes}

pub data Need (g : RouteGraph) : Text → Text → Type 0 where
  consumed : {a t : Text} → Consumes g a t → Need g a t
  emitted : {a t : Text} → Emits g a t → Need g a t
  inherited : {a b t : Text} → Emits g a b → Need g b t → Need g a t

-- A walk of at least one emit edge.
pub data Emitted (g : RouteGraph) (a : Text) : Text → Type 0 where
  one : {b : Text} → Emits g a b → Emitted g a b
  more : {b c : Text} → Emitted g a b → Emits g b c → Emitted g a c

module _ {g : RouteGraph} {a : Text} where
  pub Emitted-Need : {b t : Text} → Emitted g a b → Need g b t → Need g a t
  Emitted-Need (one e) n = inherited e n
  Emitted-Need (more w e) n = Emitted-Need w (inherited e n)

  pub Need-of_Emitted : {b : Text} → Emitted g a b → Need g a b
  Need-of_Emitted (one e) = emitted e
  Need-of_Emitted (more w e) = Emitted-Need w (emitted e)
