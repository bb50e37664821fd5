-- ===== src/Routing/Transition/Collected.antt =====
-- src/routing/commitment.rs: the branches that `collect_pack_paths` collects can be packed, the deepest
-- ones first.
use argent.Base.{
  ℕ, zero, suc, ◌+◌, ◌<◌, ◌≡◌, ap, ◌∙◌, subst, ◌⊎◌, inl, inr, true, false, some, arith, Bool-cases,
  Option-cases,
}
use argent.Collections.Order.{eqb, eqb_iff, eqb_refl, bytes_ord}
use argent.Collections.Slices.{starts_with}
use argent.Collections.BTreeSet
use argent.Collections.BTreeSet.{contains, contains-insert, IsSorted, insert-IsSorted}
use argent.Routing.Forest.{
  CommitmentNode, Nodes, leaf, branch, nil, cons, CommitmentForest, NodePath, Cut, child, node,
  is_empty, nth, count,
}
use argent.Routing.Forest.Paths.{starts_with_refl, starts_with_trans, starts_with-child}
use argent.Routing.Transition.{collect, collect_children, collect_pack_paths}
use argent.Routing.Transition.Packs.{child_at}

module _ (f : CommitmentForest) (source : Cut) where
  -- A branch all whose children are selected or packed.
  abbrev pub IsClosed : NodePath → Cut → Type 0
  IsClosed q ps =
      (ns : Nodes) × (node f q ≡ some (branch ns))
      × (is_empty ns ≡ false)
      × ((i : ℕ)
          → i < count ns
          → (contains (child q i) source ≡ true) ⊎ (contains (child q i) ps ≡ true))

  pub IsClosed-more :
      (q : NodePath) (ps qs : Cut)
      → ((x : NodePath) → contains x ps ≡ true → contains x qs ≡ true)
      → IsClosed q ps
      → IsClosed q qs
  IsClosed-more q ps qs more (ns, e, inhabited, every) = (
    ns,
    e,
    inhabited,
    λ i lt. elim (every i lt) [ inl s ↦ inl s | inr m ↦ inr (more (child q i) m) ],
  )

  -- The set grew by closed branches below the path.
  pub record IsCollected (p : NodePath) (packs ps : Cut) : Type 0 where
    pub sorted : IsSorted packs → IsSorted ps
    pub kept : (q : NodePath) → contains q packs ≡ true → contains q ps ≡ true
    pub fresh :
        (q : NodePath)
        → contains q ps ≡ true
        → (contains q packs ≡ true) ⊎ ((starts_with q p ≡ true) × IsClosed q ps)

  unchanged : (p : NodePath) (packs : Cut) → IsCollected p packs packs
  unchanged p packs = record { sorted = λ s. s; kept = λ q m. m; fresh = λ q m. inl m }

  -- One set after the other.
  IsCollected-trans :
      (p q : NodePath) (packs qs ps : Cut)
      → starts_with q p ≡ true
      → IsCollected q packs qs
      → IsCollected p qs ps
      → IsCollected p packs ps
  IsCollected-trans p q packs qs ps below h k = record {
    sorted = λ s. k.sorted (h.sorted s);
    kept = λ x m. k.kept x (h.kept x m);
    fresh = λ x m. elim (k.fresh x m) [
      | inr new ↦ inr new
      | inl old ↦ elim (h.fresh x old) [
        | inl older ↦ inl older
        | inr (under, closed) ↦
            inr (starts_with_trans x q p under below, IsClosed-more x qs ps k.kept closed)
      ]
    ];
  }

  abbrev Available : NodePath → Cut → Type 0
  Available p ps = (contains p source ≡ true) ⊎ (contains p ps ≡ true)

  mutual
    unfolding collect collect_children

    collect-IsCollected :
        (n : CommitmentNode) (p : NodePath) (packs ps : Cut)
        → node f p ≡ some n
        → collect n p source packs ≡ some ps
        → IsCollected p packs ps × Available p ps
    collect-IsCollected (leaf a) p packs ps e h = elim (Bool-cases (contains p source)) [
      | inr c ↦ absurd (ground arith)
      | inl c ↦
          let same : packs ≡ ps = ground arith in
          (subst (IsCollected p packs) same (unchanged p packs), inl c)
    ]
    collect-IsCollected (branch ns) p packs ps e h = elim (Bool-cases (contains p source)) [
      | inl c ↦
          let same : packs ≡ ps = ground arith in
          (subst (IsCollected p packs) same (unchanged p packs), inl c)
      | inr c ↦ elim (Option-cases (collect_children ns p 0 source packs)) [
        | inl gone ↦ absurd (ground arith)
        | inr (qs, found) ↦
            let (below, every) =
              children-IsCollected ns ns p 0 packs qs e (λ k. ap (nth ns) (omega arith)) found in
            let inhabited : is_empty ns ≡ false = ground arith in
            let same : BTreeSet.insert p qs ≡ ps = ground arith in
            let whole : IsCollected p qs (BTreeSet.insert p qs) = record {
              sorted = λ s. insert-IsSorted p qs s;
              kept = λ x m. ground (arith, contains-insert x p qs);
              fresh = λ x m. elim (Bool-cases (eqb x p)) [
                | inr other ↦ inl (ground (arith, contains-insert x p qs))
                | inl own ↦
                    let x_p = (eqb_iff x p).0 own in
                    inr (
                      rw x_p (starts_with_refl p),
                      rw x_p (
                        ns,
                        e,
                        inhabited,
                        λ i lt.
                            let index : 0 + i ≡ i = omega arith in
                            elim (subst (λ j. Available (child p j) qs) index (every i lt)) [
                              | inl s ↦ inl s
                              | inr m ↦ inr (ground (arith, contains-insert (child p i) p qs))
                            ],
                      ),
                    )
              ];
            } in
            (
              subst (IsCollected p packs) same (
                  IsCollected-trans p p packs qs (BTreeSet.insert p qs) (starts_with_refl p) below
                    whole),
              inr (
                  subst (λ z. contains p z ≡ true) same
                    (ground (arith, contains-insert p p qs, eqb_refl p))),
            )
      ]
    ]

    children-IsCollected :
        (every ns : Nodes) (p : NodePath) (index : ℕ) (packs ps : Cut)
        → node f p ≡ some (branch every)
        → ((k : ℕ) → nth every (index + k) ≡ nth ns k)
        → collect_children ns p index source packs ≡ some ps
        → IsCollected p packs ps × ((k : ℕ) → k < count ns → Available (child p (index + k)) ps)
    children-IsCollected every nil p index packs ps e at h =
        let same : packs ≡ ps = ground arith in
        (subst (IsCollected p packs) same (unchanged p packs), λ k lt. absurd (omega arith))
    children-IsCollected every (cons n ns) p index packs ps e at h =
        elim (Option-cases (collect n (child p index) source packs)) [
          | inl gone ↦ absurd (ground arith)
          | inr (qs, found) ↦
              let (first, here) =
                collect-IsCollected n (child p index) packs qs
                  (child_at f source p every index n e (ap (nth every) (omega arith) ∙ at 0))
                  found in
              let (rest, later) =
                children-IsCollected every ns p (index + 1) qs ps e
                  (λ m. ap (nth every) (omega arith) ∙ at (suc m)) (ground arith) in
              (
                IsCollected-trans p (child p index) packs qs ps (starts_with-child p index) first
                    rest,
                λ k. elim k as (λ k. k < suc (count ns) → Available (child p (index + k)) ps) [
                  | zero ↦ λ lt.
                      subst (λ j. Available (child p j) ps) (omega arith)
                        (elim here [ inl s ↦ inl s | inr m ↦ inr (rest.kept (child p index) m) ])
                  | suc k ↦ λ lt.
                      subst (λ j. Available (child p j) ps) (omega arith) (later k (omega arith))
                ],
              )
        ]

  pub collect_pack_paths-IsCollected :
      (p : NodePath) (packs ps : Cut)
      → collect_pack_paths f p source packs ≡ some ps
      → IsCollected p packs ps × Available p ps
  unfolding collect_pack_paths
  collect_pack_paths-IsCollected p packs ps h = elim (Bool-cases (contains p source)) [
    | inl c ↦
        let same : packs ≡ ps = ground arith in
        (subst (IsCollected p packs) same (unchanged p packs), inl c)
    | inr c ↦ elim (Option-cases (node f p)) [
      | inl gone ↦ absurd (ground arith)
      | inr (n, found) ↦ collect-IsCollected n p packs ps found (ground arith)
    ]
  ]
