-- ===== src/Routing/MoveTests.antt =====
-- A transition in a nested forest, of the unit tests in src/routing/commitment.rs.
use argent.Base.{◌≡◌, refl, true, [], ◌∷◌, bytes}
use argent.Collections.Order.{bytes_ord}
use argent.Collections.BTreeSet.{IsSorted}
use argent.Routing.Forest.{
  CommitmentNode, leaf, branch, nil, cons, CommitmentForest, Cut, is_valid_cut,
}
use argent.Routing.Transition.{CutTransition, transition, derived}
use argent.Routing.Transition.Carried.{IsCarriedOut, transition-IsCarriedOut}

abbrev nested : CommitmentNode
nested = branch (cons (leaf (bytes "B")) (cons (leaf (bytes "C")) nil))

abbrev top : CommitmentNode
top = branch (cons (leaf (bytes "A")) (cons nested nil))

abbrev nested_forest : CommitmentForest
nested_forest = record { roots = cons top nil }

abbrev packed_cut : Cut
packed_cut = (0 ∷ []) ∷ []

abbrev opened_cut : Cut
opened_cut = (0 ∷ 0 ∷ []) ∷ (0 ∷ 1 ∷ 0 ∷ []) ∷ (0 ∷ 1 ∷ 1 ∷ []) ∷ []

abbrev opening_moves : CutTransition
opening_moves = record {
  retained = [];
  branches_to_open = top ∷ nested ∷ [];
  branches_to_pack = [];
}

-- nested_cut_transitions_open_parent_first_and_pack_child_first
opens_parent_first : transition nested_forest packed_cut opened_cut ≡ derived opening_moves
unfolding transition
opens_parent_first = refl

packs_child_first :
    transition nested_forest opened_cut packed_cut
    ≡ derived
        (record { retained = []; branches_to_open = []; branches_to_pack = nested ∷ top ∷ [] })
unfolding transition
packs_child_first = refl

opened_cut-IsSorted : IsSorted opened_cut
opened_cut-IsSorted = ((refl, (refl, tt)), ((refl, tt), (tt, tt)))

packed_cut-valid : is_valid_cut nested_forest packed_cut ≡ true
unfolding is_valid_cut
packed_cut-valid = refl

opened_cut-valid : is_valid_cut nested_forest opened_cut ≡ true
unfolding is_valid_cut
opened_cut-valid = refl

transition-IsCarriedOut_example : IsCarriedOut nested_forest packed_cut opened_cut opening_moves
transition-IsCarriedOut_example =
    transition-IsCarriedOut nested_forest packed_cut opened_cut opening_moves (tt, tt)
      opened_cut-IsSorted packed_cut-valid opened_cut-valid opens_parent_first
