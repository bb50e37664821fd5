-- ===== src/Routing/Transition/Packing.antt =====
-- src/routing/commitment.rs: the branches of a transition can be packed in the order that `transition`
-- gives them.
use argent.Base.{
  ℕ, ◌<◌, ◌≡◌, refl, ap, ◌∙◌, ◌⊎◌, inl, inr, true, false, Option, none, some, List, [], ◌∷◌, length,
  All, arith, Bool-cases,
}
use argent.Collections.Order.{eqb, eqb_iff, eqb_refl, bytes_ord}
use argent.Collections.Slices.{Pairwise}
use argent.Collections.BTreeSet.{contains, contains-insert, IsSorted}
use argent.Routing.Forest.{
  Nodes, branch, CommitmentForest, NodePath, Cut, child, child_paths, node, is_empty, count,
  is_valid_cut, remove_all, pack,
}
use argent.Routing.Forest.Paths.{contains-child_paths}
use argent.Routing.Forest.Moves.{packed, any_missing, contains-remove_all}
use argent.Routing.Forest.Moves.Kept.{pack_valid}
use argent.Routing.Transition.Sorted.{Before}
use argent.Routing.Transition.Collected.{IsClosed}
use argent.Routing.Transition.Opening.{length-child, All-contains}

-- `pack`, one branch after the other.
abbrev pub pack_all : CommitmentForest → Cut → List NodePath → Option Cut
pack_all f cut [] = some cut
pack_all f cut (b ∷ rest) = elim (pack f cut b) [ none ↦ none | some c ↦ pack_all f c rest ]

parent_of_child : (d e : NodePath) (i j : ℕ) → child d i ≡ child e j → d ≡ e
parent_of_child [] [] i j h = refl
parent_of_child [] (y ∷ []) i j h = cc
parent_of_child [] (y ∷ z ∷ e) i j h = cc
parent_of_child (x ∷ []) [] i j h = cc
parent_of_child (x ∷ z ∷ d) [] i j h = cc
parent_of_child (x ∷ d) (y ∷ e) i j h =
    let head : x ≡ y = cc in
    let tail : child d i ≡ child e j = cc in
    ap (λ z. z ∷ d) head ∙ ap (λ r. y ∷ r) (parent_of_child d e i j tail)

pack-total :
    (f : CommitmentForest) (cut : Cut) (b : NodePath) (ns : Nodes)
    → is_valid_cut f cut ≡ true
    → node f b ≡ some (branch ns)
    → is_empty ns ≡ false
    → ((i : ℕ) → i < count ns → contains (child b i) cut ≡ true)
    → pack f cut b ≡ some (packed cut b ns)
unfolding pack
pack-total f cut b ns v e inhabited every =
    let all =
      any_missing cut (child_paths b ns)
        (λ x m. let (i, lt, x_b) = (contains-child_paths b x ns).0 m in rw x_b (every i lt)) in
    rw (v, e, inhabited, all) refl

module _ (f : CommitmentForest) (source packs first : Cut)
    (fit : (q : NodePath) → contains q packs ≡ true → IsClosed f source q packs)
    (ready : (q : NodePath) (i : ℕ)
      → contains q packs ≡ true
      → contains (child q i) source ≡ true
      → contains (child q i) first ≡ true) where
  -- Selected at first, or packed by now.
  abbrev pub IsAtHand : List NodePath → NodePath → Type 0
  IsAtHand rest x =
      (contains x first ≡ true) ⊎ ((contains x packs ≡ true) × (contains x rest ≡ false))

  -- What is at hand is selected, except for the children of what was packed.
  abbrev Holds : List NodePath → Cut → Type 0
  Holds rest cut =
      (x : NodePath)
      → IsAtHand rest x
      → ((d : NodePath) (i : ℕ) → x ≡ child d i → contains d packs ≡ true → contains d rest ≡ true)
      → contains x cut ≡ true

  child_selected :
      (b : NodePath) (rest : List NodePath) (cut : Cut) (i : ℕ)
      → contains b packs ≡ true
      → All (Before true b) rest
      → Holds (b ∷ rest) cut
      → (contains (child b i) source ≡ true) ⊎ (contains (child b i) packs ≡ true)
      → contains (child b i) cut ≡ true
  child_selected b rest cut i m order holds available =
      holds (child b i)
        (elim available [
          | inl s ↦ inl (ready b i m s)
          | inr p ↦
              let long = length-child b i in
              inr (
                p,
                elim (Bool-cases (contains (child b i) (b ∷ rest))) [
                  | inr out ↦ out
                  | inl inside ↦ absurd (elim (Bool-cases (eqb (child b i) b)) [
                    | inl same ↦
                        let b_b = (eqb_iff (child b i) b).0 same in
                        omega (arith, ap length b_b, long)
                    | inr other ↦
                        let (le, _) =
                          All-contains (Before true b) rest (child b i) order
                            (rw other at inside) in
                        omega (arith, le, long)
                  ])
                ],
              )
        ])
        (λ d j e k. let same = parent_of_child b d i j e in ground (arith, eqb_iff d b, eqb_refl b))

  packed-Holds :
      (b : NodePath) (rest : List NodePath) (cut : Cut) (ns : Nodes)
      → contains b packs ≡ true
      → All (Before true b) rest
      → Holds (b ∷ rest) cut
      → Holds rest (packed cut b ns)
  packed-Holds b rest cut ns m order holds x hand free = elim (Bool-cases (eqb x b)) [
    | inl same ↦ ground (arith, contains-insert x b (remove_all (child_paths b ns) cut))
    | inr other ↦
        let no_child : contains x (child_paths b ns) ≡ false =
          elim (Bool-cases (contains x (child_paths b ns))) [
            | inr out ↦ out
            | inl inside ↦
                let (i, lt, x_b) = (contains-child_paths b x ns).0 inside in
                let (_, apart) = All-contains (Before true b) rest b order (free b i x_b m) in
                absurd (ground (arith, eqb_refl b))
          ] in
        let here =
          holds x (elim hand [ inl s ↦ inl s | inr (p, out) ↦ inr (p, ground arith) ])
            (λ d i e k. let left = free d i e k in ground arith) in
        ground (
          arith,
          contains-insert x b (remove_all (child_paths b ns) cut),
          contains-remove_all x (child_paths b ns) cut,
        )
  ]

  pub pack_all-Holds :
      (rest : List NodePath) (cut : Cut)
      → IsSorted cut
      → is_valid_cut f cut ≡ true
      → Pairwise (Before true) rest
      → ((x : NodePath) → contains x rest ≡ true → contains x packs ≡ true)
      → Holds rest cut
      → (c : Cut) × (pack_all f cut rest ≡ some c) × Holds [] c
  pack_all-Holds [] cut s v order within holds = (cut, refl, holds)
  pack_all-Holds (b ∷ rest) cut s v order within holds =
      let m = within b (ground (arith, eqb_refl b)) in
      let (ns, at, inhabited, every) = fit b m in
      let e =
        pack-total f cut b ns v at inhabited
          (λ i lt. child_selected b rest cut i m order.0 holds (every i lt)) in
      let (s', v') = pack_valid f cut b (packed cut b ns) s e in
      let (c, done, holds') =
        pack_all-Holds rest (packed cut b ns) s' v' order.1 (λ x k. within x (ground arith))
          (packed-Holds b rest cut ns m order.0 holds) in
      (c, rw (e, pack_all) done, holds')
