-- ===== src/Routing/Transition/Packs.antt =====
-- src/routing/commitment.rs: `collect_pack_paths` succeeds exactly on the nodes that can be packed from
-- the selected ones.
use argent.Base.{
  ℕ, zero, suc, ◌+◌, ◌<◌, ◌≡◌, refl, ap, ◌∙◌, subst, ◌↔◌, inl, inr, true, false, some, [], arith,
  Bool-cases, Option-cases,
}
use argent.Collections.Order.{bytes_ord}
use argent.Collections.BTreeSet
use argent.Collections.BTreeSet.{contains}
use argent.Routing.Forest.{
  CommitmentNode, Nodes, leaf, branch, nil, cons, CommitmentForest, NodePath, Cut, child, node,
  is_empty, nth, count,
}
use argent.Routing.Forest.Paths.{node-append}
use argent.Routing.Transition.{collect, collect_children, collect_pack_paths}

-- A node is available by packing if it is selected, or a branch all whose children are available.
pub data Packed (f : CommitmentForest) (source : Cut) : NodePath → Type 0 where
  selected : {p : NodePath} → contains p source ≡ true → Packed f source p
  packed :
      {p : NodePath} {ns : Nodes}
      → node f p ≡ some (branch ns)
      → is_empty ns ≡ false
      → ((i : ℕ) → i < count ns → Packed f source (child p i))
      → Packed f source p

module _ (f : CommitmentForest) (source : Cut) where
  pub child_at :
      (p : NodePath) (ns : Nodes) (i : ℕ) (n : CommitmentNode)
      → node f p ≡ some (branch ns)
      → nth ns i ≡ some n
      → node f (child p i) ≡ some n
  child_at p ns i n e h = node-append f p i [] ns e ∙ rw h refl

  mutual
    unfolding collect collect_children

    collect-Packed :
        (n : CommitmentNode) (p : NodePath) (packs ps : Cut)
        → node f p ≡ some n
        → collect n p source packs ≡ some ps
        → Packed f source p
    collect-Packed (leaf a) p packs ps e h = elim (Bool-cases (contains p source)) [
      | inl c ↦ selected c
      | inr c ↦ absurd (ground arith)
    ]
    collect-Packed (branch ns) p packs ps e h = elim (Bool-cases (contains p source)) [
      | inl c ↦ selected c
      | inr c ↦ elim (Option-cases (collect_children ns p 0 source packs)) [
        | inl gone ↦ absurd (ground arith)
        | inr (qs, found) ↦ packed e (ground arith) (λ i lt.
            subst (λ j. Packed f source (child p j)) (omega arith)
              (children-Packed ns ns p 0 packs qs e (λ k. ap (nth ns) (omega arith)) found i lt))
      ]
    ]

    children-Packed :
        (every ns : Nodes) (p : NodePath) (index : ℕ) (packs ps : Cut)
        → node f p ≡ some (branch every)
        → ((k : ℕ) → nth every (index + k) ≡ nth ns k)
        → collect_children ns p index source packs ≡ some ps
        → (k : ℕ) → k < count ns
        → Packed f source (child p (index + k))
    children-Packed every nil p index packs ps e at h k lt = absurd (omega arith)
    children-Packed every (cons n ns) p index packs ps e at h zero lt =
        elim (Option-cases (collect n (child p index) source packs)) [
          | inl gone ↦ absurd (ground arith)
          | inr (qs, found) ↦
              subst (λ j. Packed f source (child p j)) (omega arith)
                (collect-Packed n (child p index) packs qs
                  (child_at p every index n e (ap (nth every) (omega arith) ∙ at 0)) found)
        ]
    children-Packed every (cons n ns) p index packs ps e at h (suc k) lt =
        elim (Option-cases (collect n (child p index) source packs)) [
          | inl gone ↦ absurd (ground arith)
          | inr (qs, found) ↦
              subst (λ j. Packed f source (child p j)) (omega arith)
                (children-Packed every ns p (index + 1) qs ps e
                  (λ m. ap (nth every) (omega arith) ∙ at (suc m)) (ground arith) k (omega arith))
        ]

  collect_cons :
      (n : CommitmentNode) (ns : Nodes) (p : NodePath) (index : ℕ) (packs qs ps : Cut)
      → collect n (child p index) source packs ≡ some qs
      → collect_children ns p (index + 1) source qs ≡ some ps
      → collect_children (cons n ns) p index source packs ≡ some ps
  unfolding collect_children
  collect_cons n ns p index packs qs ps h k = ground (arith, h, k)

  mutual
    unfolding collect collect_children

    Packed-collect :
        (n : CommitmentNode) (p : NodePath) (packs : Cut)
        → node f p ≡ some n
        → Packed f source p
        → (ps : Cut) × (collect n p source packs ≡ some ps)
    Packed-collect (leaf a) p packs e (selected c) = (packs, rw c refl)
    Packed-collect (leaf a) p packs e (packed h i every) = absurd (ground arith)
    Packed-collect (branch ns) p packs e (selected c) = (packs, rw c refl)
    Packed-collect (branch ns) p packs e (packed {ns = ms} h i every) =
        let same : ms ≡ ns = ground arith in
        let (ps, found) =
          Packed-children ns ns p 0 packs e (λ k. ap (nth ns) (omega arith))
            (λ k lt. every (0 + k) (rw same (omega arith))) in
        elim (Bool-cases (contains p source)) [
          | inl c ↦ (packs, rw c refl)
          | inr c ↦
              let inhabited : is_empty ns ≡ false = subst (λ z. is_empty z ≡ false) same i in
              (BTreeSet.insert p ps, ground arith)
        ]

    Packed-children :
        (every ns : Nodes) (p : NodePath) (index : ℕ) (packs : Cut)
        → node f p ≡ some (branch every)
        → ((k : ℕ) → nth every (index + k) ≡ nth ns k)
        → ((k : ℕ) → k < count ns → Packed f source (child p (index + k)))
        → (ps : Cut) × (collect_children ns p index source packs ≡ some ps)
    Packed-children every nil p index packs e at h = (packs, refl)
    Packed-children every (cons n ns) p index packs e at h =
        let here = child_at p every index n e (ap (nth every) (omega arith) ∙ at 0) in
        let first : Packed f source (child p index) =
          subst (λ j. Packed f source (child p j)) (omega arith) (h 0 (omega arith)) in
        let (qs, found) = Packed-collect n (child p index) packs here first in
        let (ps, rest) =
          Packed-children every ns p (index + 1) qs e
            (λ m. ap (nth every) (omega arith) ∙ at (suc m))
            (λ k lt.
              subst (λ j. Packed f source (child p j)) (omega arith) (h (suc k) (omega arith))) in
        (ps, collect_cons n ns p index packs qs ps found rest)

  pub collect_pack_paths_iff :
      (p : NodePath) (n : CommitmentNode) (packs : Cut)
      → node f p ≡ some n
      → ((ps : Cut) × (collect_pack_paths f p source packs ≡ some ps)) ↔ Packed f source p
  unfolding collect_pack_paths
  collect_pack_paths_iff p n packs e = elim (Bool-cases (contains p source)) [
    | inl c ↦ (λ h. selected c, λ h. (packs, rw c refl))
    | inr c ↦ (
      λ h. collect-Packed n p packs h.0 e (ground (arith, h.1)),
      λ h. let (ps, found) = Packed-collect n p packs e h in (ps, ground arith),
    )
  ]
