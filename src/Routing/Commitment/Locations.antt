-- ===== src/Routing/Commitment/Locations.antt =====
-- src/routing/commitment.rs, `build_commitment_forest`: the forest, with the path of every actor and
-- family recorded on the way.
pub mod Located
pub mod Exact
use argent.Base.{Text, ℕ, ◌+◌, none, some, List, [], ◌∷◌, ◌++◌, if◌then◌else◌, length, get_elem?}
use argent.Collections.Order.{nat_ord, bytes_ord}
use argent.Collections.BTreeSet
use argent.Collections.BTreeSet.{contains}
use argent.Collections.BTreeMap
use argent.Collections.BTreeMap.{get}
use argent.Routing.Graph.{RouteGraph}
use argent.Routing.Forest.{
  CommitmentNode, Nodes, leaf, branch, nil, cons, CommitmentForest, NodePath, child, root,
}
use argent.Routing.Commitment.{Membership, Result, ok, ◌>>=◌, expect}

pub record CommitmentLocations : Type 0 where
  pub actor_paths : List (Text × NodePath)
  pub family_paths : List (ℕ × NodePath)

-- The variables of the loop over the actors.
pub record Building : Type 0 where
  pub roots : List CommitmentNode
  pub actor_paths : List (Text × NodePath)
  pub family_paths : List (ℕ × NodePath)
  pub emitted_families : List ℕ

-- The children of a family branch.
abbrev pub leaves : List Text → Nodes
leaves [] = nil
leaves (actor ∷ rest) = cons (leaf actor) (leaves rest)

-- The paths that are recorded for the members of a family, from this child index on.
unfoldable pub member_paths :
    NodePath → ℕ → List Text → List (Text × NodePath) → List (Text × NodePath)
member_paths path index [] paths = paths
member_paths path index (actor ∷ rest) paths =
    member_paths path (index + 1) rest (BTreeMap.insert actor (child path index) paths)

abbrev pub to_nodes : List CommitmentNode → Nodes
to_nodes [] = nil
to_nodes (n ∷ ns) = cons n (to_nodes ns)

-- A family is emitted: its branch becomes a root.
abbrev pub emit_family : Building → ℕ → List Text → Building
emit_family st index family =
    let path = root (length st.roots) in
    record {
      roots = st.roots ++ branch (leaves family) ∷ [];
      actor_paths = member_paths path 0 family st.actor_paths;
      family_paths = BTreeMap.insert index path st.family_paths;
      emitted_families = BTreeSet.insert index st.emitted_families;
    }

-- An actor outside the families becomes a root leaf.
abbrev pub emit_actor : Building → Text → Building
emit_actor st actor = record st {
  roots = st.roots ++ leaf actor ∷ [];
  actor_paths = BTreeMap.insert actor (root (length st.roots)) st.actor_paths;
}

-- The body of the loop.
unfoldable pub place : List (List Text) → Membership → Building → Text → Result Building
place families by_actor st actor = elim (get actor by_actor) [
  | none ↦ ok (emit_actor st actor)
  | some index ↦
      if contains index st.emitted_families
      then ok st
      else expect (get_elem? families index) >>= λ family. ok (emit_family st index family)
]

unfoldable pub place_all : List (List Text) → Membership → Building → List Text → Result Building
place_all families by_actor st [] = ok st
place_all families by_actor st (actor ∷ rest) =
    place families by_actor st actor >>= λ next. place_all families by_actor next rest

abbrev pub empty_building : Building
empty_building = record { roots = []; actor_paths = []; family_paths = []; emitted_families = [] }

abbrev pub finish : Building → CommitmentForest × CommitmentLocations
finish st = (
  record { roots = to_nodes st.roots },
  record { actor_paths = st.actor_paths; family_paths = st.family_paths },
)

unfoldable pub build_commitment_forest :
    RouteGraph → List (List Text) → Membership → Result (CommitmentForest × CommitmentLocations)
unfolding place_all place member_paths
build_commitment_forest g families by_actor =
    place_all families by_actor empty_building g.actors >>= λ st. ok (finish st)
