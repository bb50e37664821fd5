-- ===== src/Routing/Transition/Existing.antt =====
-- src/routing/commitment.rs: the paths that `transition` opens and packs belong to the forest, so that
-- its lookups do not fail.
use argent.Base.{
  ℕ, zero, suc, ◌+◌, ◌<◌, ◌≤◌, ◌≡◌, refl, ap, ◌∙◌, subst, inl, inr, Bool, true, false, some, List,
  [], ◌∷◌, All, take, length, arith, Bool-cases, Option-cases,
}
use argent.Collections.Order.{bytes_ord}
use argent.Collections.BTreeSet
use argent.Collections.BTreeSet.{contains, IsSorted}
use argent.Routing.Forest.{
  CommitmentNode, Nodes, leaf, branch, nil, cons, CommitmentForest, NodePath, Cut, child, node, nth,
  descend, exists_at,
}
use argent.Routing.Transition.{
  CutTransition, collect, collect_children, collect_pack_paths, is_branch, open_between, Progress,
  insert_path, sort_paths, nodes_at, derived, finish,
}
use argent.Routing.Transition.Packs.{child_at}

module _ (f : CommitmentForest) where
  abbrev pub Exists : NodePath → Type 0
  Exists q = exists_at f q ≡ true

  pub All-insert :
      (x : NodePath) (s : Cut) → Exists x → All Exists s → All Exists (BTreeSet.insert x s)
  All-insert x [] h k = (h, tt)
  All-insert x (y ∷ s) h k = ground (arith, All-insert x s)

  insert_path-All :
      (b : Bool) (x : NodePath) (s : List NodePath)
      → Exists x
      → All Exists s
      → All Exists (insert_path b x s)
  insert_path-All b x [] h k = (h, tt)
  insert_path-All b x (y ∷ s) h k = ground (arith, insert_path-All b x s)

  sort_paths-All : (b : Bool) (s : List NodePath) → All Exists s → All Exists (sort_paths b s)
  sort_paths-All b [] h = tt
  sort_paths-All b (x ∷ s) h = insert_path-All b x (sort_paths b s) h.0 (sort_paths-All b s h.1)

  nodes_at-total :
      (s : List NodePath) → All Exists s → (ns : List CommitmentNode) × (nodes_at f s ≡ some ns)
  nodes_at-total [] h = ([], refl)
  nodes_at-total (x ∷ s) h = elim (Option-cases (node f x)) [
    | inl gone ↦ absurd (ground arith)
    | inr (n, found) ↦
        let (ns, rest) = nodes_at-total s h.1 in (n ∷ ns, ground (arith, found, rest))
  ]

  pub finish-derived :
      (p : Progress)
      → All Exists p.opens
      → All Exists p.packs
      → (t : CutTransition) × (finish f p ≡ derived t)
  finish-derived p o k =
      let (os, opened) =
        nodes_at-total (sort_paths false p.opens) (sort_paths-All false p.opens o) in
      let (ps, packed) = nodes_at-total (sort_paths true p.packs) (sort_paths-All true p.packs k) in
      (
        record { retained = p.retained; branches_to_open = os; branches_to_pack = ps },
        rw (opened, finish) (rw packed refl),
      )

  descend-above :
      (q : List ℕ) (d : ℕ) (m n : CommitmentNode)
      → descend m q ≡ some n
      → d < length q
      → (ns : Nodes) × (descend m (take d q) ≡ some (branch ns))
  descend-above [] d m n h lt = absurd (omega arith)
  descend-above (i ∷ q) d (leaf a) n h lt = cc
  descend-above (i ∷ q) zero (branch ns) n h lt = (ns, refl)
  descend-above (i ∷ q) (suc d) (branch ns) n h lt = elim (Option-cases (nth ns i)) [
    | inl gone ↦ absurd (ground arith)
    | inr (c, found) ↦
        let (ms, e) = descend-above q d c n (ground arith) (omega arith) in
        (ms, rw (found, descend) e)
  ]

  -- Every proper prefix of an existing path is a branch.
  is_branch-above :
      (p : NodePath) (d : ℕ) → Exists p → 1 ≤ d → d < length p → is_branch f (take d p) ≡ true
  is_branch-above [] d h one lt = absurd (omega arith)
  is_branch-above (i ∷ q) zero h one lt = absurd (omega arith)
  is_branch-above (i ∷ q) (suc d) h one lt = elim (Option-cases (nth f.roots i)) [
    | inl gone ↦ absurd (ground arith)
    | inr (r, found) ↦ elim (Option-cases (descend r q)) [
      | inl gone ↦ absurd (ground arith)
      | inr (n, below) ↦
          let (ns, e) = descend-above q d r n below (omega arith) in ground (arith, found, e)
    ]
  ]

  pub open_between-total :
      (p : NodePath) (depth steps : ℕ) (opens : Cut)
      → Exists p
      → 1 ≤ depth
      → depth + steps ≤ length p
      → All Exists opens
      → (os : Cut) × (open_between f p depth steps opens ≡ some os) × All Exists os
  unfolding open_between
  open_between-total p depth zero opens h one le k = (opens, refl, k)
  open_between-total p depth (suc steps) opens h one le k =
      let b = is_branch-above p depth h one (omega arith) in
      let (os, e, all) =
        open_between-total p (depth + 1) steps (BTreeSet.insert (take depth p) opens) h
          (omega arith) (omega arith) (All-insert (take depth p) opens (ground arith) k) in
      (os, rw b e, all)

  mutual
    unfolding collect collect_children

    collect-Exists :
        (n : CommitmentNode) (p : NodePath) (source packs ps : Cut)
        → node f p ≡ some n
        → All Exists packs
        → collect n p source packs ≡ some ps
        → All Exists ps
    collect-Exists (leaf a) p source packs ps e k h =
        let same : packs ≡ ps = ground arith in subst (All Exists) same k
    collect-Exists (branch ns) p source packs ps e k h = elim (Bool-cases (contains p source)) [
      | inl c ↦ let same : packs ≡ ps = ground arith in subst (All Exists) same k
      | inr c ↦ elim (Option-cases (collect_children ns p 0 source packs)) [
        | inl gone ↦ absurd (ground arith)
        | inr (qs, found) ↦
            let every =
              children-Exists ns ns p 0 source packs qs e (λ m. ap (nth ns) (omega arith)) k
                found in
            let same : BTreeSet.insert p qs ≡ ps = ground arith in
            subst (All Exists) same (All-insert p qs (ground (arith, e)) every)
      ]
    ]

    children-Exists :
        (every ns : Nodes) (p : NodePath) (index : ℕ) (source packs ps : Cut)
        → node f p ≡ some (branch every)
        → ((m : ℕ) → nth every (index + m) ≡ nth ns m)
        → All Exists packs
        → collect_children ns p index source packs ≡ some ps
        → All Exists ps
    children-Exists every nil p index source packs ps e at k h =
        let same : packs ≡ ps = ground arith in subst (All Exists) same k
    children-Exists every (cons n ns) p index source packs ps e at k h =
        elim (Option-cases (collect n (child p index) source packs)) [
          | inl gone ↦ absurd (ground arith)
          | inr (qs, found) ↦
              children-Exists every ns p (index + 1) source qs ps e
                (λ m. ap (nth every) (omega arith) ∙ at (suc m))
                (collect-Exists n (child p index) source packs qs
                  (child_at f source p every index n e (ap (nth every) (omega arith) ∙ at 0)) k
                  found)
                (ground arith)
        ]

  pub collect_pack_paths-Exists :
      (p : NodePath) (source packs ps : Cut)
      → All Exists packs
      → collect_pack_paths f p source packs ≡ some ps
      → All Exists ps
  unfolding collect_pack_paths
  collect_pack_paths-Exists p source packs ps k h = elim (Bool-cases (contains p source)) [
    | inl c ↦ let same : packs ≡ ps = ground arith in subst (All Exists) same k
    | inr c ↦ elim (Option-cases (node f p)) [
      | inl gone ↦ absurd (ground arith)
      | inr (n, found) ↦ collect-Exists n p source packs ps found k (ground arith)
    ]
  ]
