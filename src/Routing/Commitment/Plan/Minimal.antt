-- ===== src/Routing/Commitment/Plan/Minimal.antt =====
-- `commitment_plan`: the nodes of the forest that a cut selects for an actor.
use argent.Base.{Text, ℕ, ◌≡◌, sym, ap, ◌∙◌, subst, true, some, List, arith, get_elem?}
use argent.Collections.Order.{nat_ord, bytes_ord}
use argent.Collections.BTreeSet.{contains}
use argent.Routing.Forest.{leaf, branch, CommitmentForest, NodePath, node}
use argent.Routing.Commitment.Groups.{IsIndex}
use argent.Routing.Commitment.Locations.{Building, leaves}
use argent.Routing.Commitment.Locations.Located.{Located}
use argent.Routing.Commitment.Locations.Exact.{node-root}
use argent.Routing.Commitment.Plan.{Context}
use argent.Routing.Commitment.Plan.Shape.{forest}
use argent.Routing.Commitment.Plan.Provided.{Leaf-node, in_families}
use argent.Routing.Commitment.Plan.Related.{Near, own, family, sibling}

-- The actor is in the family.
abbrev pub InFamily : List (List Text) → List Text → Text → Type 0
InFamily families group x =
    (i : ℕ) × (get_elem? families i ≡ some group) × (contains x group ≡ true)

-- The node is the leaf of the actor, which is in no family; or the branch of its family; or, if the
-- actor satisfies the predicate, a leaf of its family.
pub data IsFor (f : CommitmentForest) (families : List (List Text)) (Y : Text → Type 0) (x : Text)
    (p : NodePath) : Type 0 where
  alone :
      ((group : List Text) → InFamily families group x → ⊥)
      → node f p ≡ some (leaf x)
      → IsFor f families Y x p
  summary :
      (group : List Text)
      → InFamily families group x
      → node f p ≡ some (branch (leaves group))
      → IsFor f families Y x p
  opened :
      (group : List Text) (y : Text)
      → InFamily families group x
      → Y x
      → contains y group ≡ true
      → node f p ≡ some (leaf y)
      → IsFor f families Y x p

pub IsFor-map :
    (f : CommitmentForest) (families : List (List Text)) (Y Z : Text → Type 0) (x : Text)
    (p : NodePath)
    → ((t : Text) → Y t → Z t)
    → IsFor f families Y x p
    → IsFor f families Z x p
IsFor-map f families Y Z x p k (alone outside n) = alone outside n
IsFor-map f families Y Z x p k (summary group i n) = summary group i n
IsFor-map f families Y Z x p k (opened group y i shown m n) = opened group y i (k x shown) m n

module _ (c : Context) (st : Building) (all : List Text)
    (families : IsIndex c.graph c.constraints.families c.family_by_actor)
    (l : Located c.constraints.families c.family_by_actor all st)
    (at : c.locations
      ≡ record { actor_paths = st.actor_paths; family_paths = st.family_paths }) where
  pub Near-IsFor :
      (Y : Text → Type 0) (x : Text) (p : NodePath)
      → Near c.family_by_actor c.locations Y x p
      → IsFor (forest st.roots) c.constraints.families Y x p
  Near-IsFor Y x p (own none' e) =
      alone
        (λ group (i, f, m). let mine = (families.of_group x i group f m).0 in absurd (ground arith))
        (Leaf-node c st all families l at x p e)
  Near-IsFor Y x p (family i mine e) =
      let (r, group, p_r, f, n) = l.family i p (in_families c st all families l at i p e) in
      let (group', f', m) = families.to_group x i mine in
      let same : group' ≡ group = ground arith in
      summary group' (i, f', m)
        (ap (node (forest st.roots)) p_r
          ∙ node-root st.roots r n
          ∙ ap (λ z. some (branch (leaves z))) (sym same))
  Near-IsFor Y x p (sibling i y shown mine y_i y_p) =
      let (group, f, m) = families.to_group x i mine in
      let (group', f', m') = families.to_group y i y_i in
      let same : group' ≡ group = ground arith in
      opened group y (i, f, m) shown (subst (λ z. contains y z ≡ true) same m')
        (Leaf-node c st all families l at y p y_p)
