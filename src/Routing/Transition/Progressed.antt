-- ===== src/Routing/Transition/Progressed.antt =====
-- src/routing/commitment.rs: what the loop of `transition` has collected.
use argent.Base.{
  ℕ, suc, ◌-◌, ◌≤◌, ◌<◌, ◌≡◌, sym, ap, ◌∙◌, subst, ◌⊎◌, inl, inr, true, false, ltb, some, [], ◌∷◌,
  ◌++◌, take, length, length-take-of_le, find, arith, Bool-cases, Option-cases,
}
use argent.Collections.Order.{eqb, eqb_iff, eqb_refl, bytes_ord}
use argent.Collections.Slices.{starts_with}
use argent.Collections.BTreeSet.{contains, IsSorted}
use argent.Routing.Forest.{CommitmentForest, NodePath, Cut, child, node}
use argent.Routing.Transition.{
  is_branch, open_between, collect_pack_paths, Progress, derive_path, derive_paths,
}
use argent.Routing.Transition.Derivable.{find-contains}
use argent.Routing.Transition.Opened.{
  starts_with-take, take-of_starts_with, take-length, take-child, shorter, open_between-IsOpened,
}
use argent.Routing.Transition.Collected.{IsClosed, IsClosed-more, collect_pack_paths-IsCollected}

module _ (f : CommitmentForest) (source target : Cut) where
  -- The path is strictly above a path of the target.
  abbrev pub IsAbove : NodePath → Type 0
  IsAbove q =
      (t : NodePath) × (contains t target ≡ true) × (starts_with t q ≡ true) × (length q < length t)

  -- The path is below a path of the target, or is one.
  abbrev pub IsBelow : NodePath → Type 0
  IsBelow q = (t : NodePath) × (contains t target ≡ true) × (starts_with q t ≡ true)

  -- A child of one of the paths.
  abbrev pub IsChild : NodePath → Cut → Type 0
  IsChild q os = (d : NodePath) × (i : ℕ) × (q ≡ child d i) × (contains d os ≡ true)

  -- A branch on the way from a selected node, or one whose parent is, down to the target.
  abbrev pub IsOpen : NodePath → Cut → Type 0
  IsOpen q os = IsAbove q × (is_branch f q ≡ true) × ((contains q source ≡ true) ⊎ IsChild q os)

  pub record IsProgress (p : Progress) : Type 0 where
    pub opens_sorted : IsSorted p.opens
    pub packs_sorted : IsSorted p.packs
    pub opens_fit : (q : NodePath) → contains q p.opens ≡ true → IsOpen q p.opens
    pub packs_fit :
        (q : NodePath) → contains q p.packs ≡ true → IsBelow q × IsClosed f source q p.packs

  -- The path of the target is retained, or comes from an opened branch, or is packed.
  abbrev pub IsServed : NodePath → Progress → Type 0
  IsServed t p = (contains t source ≡ true) ⊎ (IsChild t p.opens ⊎ (contains t p.packs ≡ true))

  pub record Grows (p next : Progress) : Type 0 where
    pub more_opens : (q : NodePath) → contains q p.opens ≡ true → contains q next.opens ≡ true
    pub more_packs : (q : NodePath) → contains q p.packs ≡ true → contains q next.packs ≡ true

  abbrev Step : NodePath → Progress → Progress → Type 0
  Step t p next = IsProgress next × Grows p next × IsServed t next

  IsOpen-more :
      (q : NodePath) (opens os : Cut)
      → ((x : NodePath) → contains x opens ≡ true → contains x os ≡ true)
      → IsOpen q opens
      → IsOpen q os
  IsOpen-more q opens os more (above, b, inl s) = (above, b, inl s)
  IsOpen-more q opens os more (above, b, inr (d, i, e, m)) = (above, b, inr (d, i, e, more d m))

  open-Step :
      (t a : NodePath) (p : Progress) (os : Cut)
      → contains t target ≡ true
      → contains t source ≡ false
      → contains a source ≡ true
      → starts_with t a ≡ true
      → open_between f t (length a) (length t - length a) p.opens ≡ some os
      → IsProgress p
      → Step t p (record p { opens = os })
  open-Step t a p os wanted missing selected above h k =
      let lt = shorter t a above (λ e.
        let here : contains t source ≡ true =
          subst (λ z. contains z source ≡ true) (sym e) selected in
        absurd (ground arith)) in
      let o = open_between-IsOpened f t (length a) (length t - length a) p.opens os h in
      let taken = λ (d : ℕ) (le : length a ≤ d) (l : d < length t).
        let m : contains (take d t) os ≡ true = o.taken d le (omega (arith, l, lt)) in m in
      (
        record {
          opens_sorted = o.sorted k.opens_sorted;
          packs_sorted = k.packs_sorted;
          opens_fit = λ q m. elim (o.fresh q m) [
            | inl old ↦ IsOpen-more q p.opens os o.kept (k.opens_fit q old)
            | inr (d, le, l, e, b) ↦
                let short : d < length t = omega (arith, l, lt) in
                let depth : length (take d t) ≡ d = length-take-of_le d t (omega (arith, short)) in
                (
                  (t, wanted, rw e (starts_with-take d t), rw e (omega (arith, depth, short))),
                  b,
                  elim (Bool-cases (ltb (length a) d)) [
                    | inl deeper ↦
                        let before : suc (d - 1) ≡ d = ground arith in
                        let (i, c) = take-child (d - 1) t (omega (arith, before, short)) in
                        inr (
                          take (d - 1) t,
                          i,
                          e ∙ ap (λ n. take n t) (sym before) ∙ c,
                          taken (d - 1) (ground arith) (omega (arith, before, short)),
                        )
                    | inr first ↦
                        let same : d ≡ length a = ground (arith, le) in
                        let q_a : q ≡ a =
                          e ∙ ap (λ n. take n t) same ∙ take-of_starts_with t a above in
                        inl (rw q_a selected)
                  ],
                )
          ];
          packs_fit = k.packs_fit;
        },
        record { more_opens = o.kept; more_packs = λ q m. m },
        let before : suc (length t - 1) ≡ length t = omega (arith, lt) in
            let (i, c) = take-child (length t - 1) t (omega (arith, before)) in
            inr (
              inl (
                take (length t - 1) t,
                i,
                sym (take-length t) ∙ ap (λ n. take n t) (sym before) ∙ c,
                taken (length t - 1) (omega (arith, lt)) (omega (arith, before)),
              )),
      )

  pack-Step :
      (t : NodePath) (p : Progress) (ps : Cut)
      → contains t target ≡ true
      → collect_pack_paths f t source p.packs ≡ some ps
      → IsProgress p
      → Step t p (record p { packs = ps })
  pack-Step t p ps wanted h k =
      let (c, available) = collect_pack_paths-IsCollected f source t p.packs ps h in
      (
        record {
          opens_sorted = k.opens_sorted;
          packs_sorted = c.sorted k.packs_sorted;
          opens_fit = k.opens_fit;
          packs_fit = λ q m. elim (c.fresh q m) [
            | inl old ↦
                let (below, closed) = k.packs_fit q old in
                (below, IsClosed-more f source q p.packs ps c.kept closed)
            | inr (below, closed) ↦ ((t, wanted, below), closed)
          ];
        },
        record { more_opens = λ q m. m; more_packs = c.kept },
        elim available [ inl s ↦ inl s | inr m ↦ inr (inr m) ],
      )

  derive_path-Step :
      (t : NodePath) (p next : Progress)
      → contains t target ≡ true
      → derive_path f source t p ≡ some next
      → IsProgress p
      → Step t p next
  unfolding derive_path
  derive_path-Step t p next wanted h k = elim (Bool-cases (contains t source)) [
    | inl c ↦ elim (Option-cases (node f t)) [
      | inl gone ↦ absurd (ground arith)
      | inr (n, at) ↦
          let same : record p { retained = p.retained ++ n ∷ [] } ≡ next = ground arith in
          subst (Step t p) same (
            record {
              opens_sorted = k.opens_sorted;
              packs_sorted = k.packs_sorted;
              opens_fit = k.opens_fit;
              packs_fit = k.packs_fit;
            },
            record { more_opens = λ q m. m; more_packs = λ q m. m },
            inl c,
          )
    ]
    | inr c ↦ elim (Option-cases (find (λ s. starts_with t s) source)) [
      | inr (a, found) ↦
          let (m, above) = find-contains (λ s. starts_with t s) source a found in
          elim (Option-cases (open_between f t (length a) (length t - length a) p.opens)) [
            | inl gone ↦ absurd (ground arith)
            | inr (os, e) ↦
                let same : record p { opens = os } ≡ next = ground arith in
                subst (Step t p) same (open-Step t a p os wanted c m above e k)
          ]
      | inl none' ↦ elim (Option-cases (collect_pack_paths f t source p.packs)) [
        | inl gone ↦ absurd (ground arith)
        | inr (ps, e) ↦
            let same : record p { packs = ps } ≡ next = ground arith in
            subst (Step t p) same (pack-Step t p ps wanted e k)
      ]
    ]
  ]

  IsServed-more : (t : NodePath) (p next : Progress) → Grows p next → IsServed t p → IsServed t next
  IsServed-more t p next g (inl s) = inl s
  IsServed-more t p next g (inr (inl (d, i, e, m))) = inr (inl (d, i, e, g.more_opens d m))
  IsServed-more t p next g (inr (inr m)) = inr (inr (g.more_packs t m))

  pub derive_paths-IsProgress :
      (ts : Cut) (p last : Progress)
      → ((t : NodePath) → contains t ts ≡ true → contains t target ≡ true)
      → derive_paths f source ts p ≡ some last
      → IsProgress p
      → IsProgress last × Grows p last × ((t : NodePath) → contains t ts ≡ true → IsServed t last)
  unfolding derive_paths
  derive_paths-IsProgress [] p last within h k =
      let same : p ≡ last = ground arith in
      (
        subst IsProgress same k,
        subst (Grows p) same (record { more_opens = λ q m. m; more_packs = λ q m. m }),
        λ t m. cc,
      )
  derive_paths-IsProgress (t ∷ ts) p last within h k =
      elim (Option-cases (derive_path f source t p)) [
        | inl gone ↦ absurd (ground arith)
        | inr (next, e) ↦
            let (k', g, s) =
              derive_path-Step t p next (within t (ground (arith, eqb_refl t))) e k in
            let (done, g', every) =
              derive_paths-IsProgress ts next last (λ u m. within u (ground arith)) (ground arith)
                k' in
            (
              done,
              record {
                more_opens = λ q m. g'.more_opens q (g.more_opens q m);
                more_packs = λ q m. g'.more_packs q (g.more_packs q m);
              },
              λ u m. elim (Bool-cases (eqb u t)) [
                | inl same ↦
                    subst (λ z. IsServed z last) (sym ((eqb_iff u t).0 same))
                      (IsServed-more t next last g' s)
                | inr other ↦ every u (rw other at m)
              ],
            )
      ]
