-- ===== src/Routing/Transition/Derivable.antt =====
-- src/routing/commitment.rs: `transition` returns operations exactly if every path of the target is
-- derivable from the source.
use argent.Base.{
  ℕ, ◌-◌, ◌≤◌, ◌≡◌, refl, subst, ◌↔◌, ◌⊎◌, inl, inr, Bool, true, false, none, some, List, [], ◌∷◌,
  ◌++◌, All, length, find, arith, Bool-cases, Option-cases,
}
use argent.Collections.Order.{eqb, eqb_iff, eqb_refl, bytes_ord}
use argent.Collections.Slices.{starts_with}
use argent.Collections.BTreeSet.{contains, IsSorted}
use argent.Routing.Forest.{CommitmentForest, NodePath, Cut, node, exists_at, is_valid_cut}
use argent.Routing.Forest.Paths.{starts_with_refl}
use argent.Routing.Forest.Validity.{is_valid_cut_iff}
use argent.Routing.Transition.{
  CutTransition, collect_pack_paths, Progress, derive_path, derive_paths, no_progress, derived,
  transition,
}
use argent.Routing.Transition.Existing.{
  Exists, finish-derived, open_between-total, collect_pack_paths-Exists,
}
use argent.Routing.Transition.Packs.{Packed, collect_pack_paths_iff}

-- A path is derivable if it is selected or lies below a selected node, or can be packed.
abbrev pub Derivable : CommitmentForest → Cut → NodePath → Type 0
Derivable f source p =
    ((a : NodePath) × (contains a source ≡ true) × (starts_with p a ≡ true)) ⊎ Packed f source p

pub find-contains :
    (q : NodePath → Bool) (source : Cut) (a : NodePath)
    → find q source ≡ some a
    → (contains a source ≡ true) × (q a ≡ true)
find-contains q [] a h = cc
find-contains q (x ∷ xs) a h = elim (Bool-cases (q x)) [
  | inl e ↦
      let same : x ≡ a = ground arith in
      (ground (arith, eqb_iff a x), subst (λ z. q z ≡ true) same e)
  | inr e ↦ let (m, t) = find-contains q xs a (ground arith) in (ground arith, t)
]

find_none :
    (q : NodePath → Bool) (source : Cut) (a : NodePath)
    → find q source ≡ none
    → contains a source ≡ true
    → q a ≡ false
find_none q [] a h m = cc
find_none q (x ∷ xs) a h m = elim (Bool-cases (q x)) [
  | inl e ↦ absurd (ground arith)
  | inr e ↦ elim (Bool-cases (eqb a x)) [
    | inl same ↦ rw ((eqb_iff a x).0 same) e
    | inr other ↦ find_none q xs a (ground arith) (rw other at m)
  ]
]

pub starts_with-length : (p a : List ℕ) → starts_with p a ≡ true → length a ≤ length p
starts_with-length p [] h = omega arith
starts_with-length [] (y ∷ a) h = cc
starts_with-length (x ∷ p) (y ∷ a) h =
    let le = starts_with-length p a (ground arith) in omega (arith, le)

Exists-length : (f : CommitmentForest) (a : NodePath) → Exists f a → 1 ≤ length a
Exists-length f [] h = cc
Exists-length f (i ∷ a) h = omega arith

pub All-of_contains :
    (P : NodePath → Type 0) (s : Cut) → ((x : NodePath) → contains x s ≡ true → P x) → All P s
All-of_contains P [] h = tt
All-of_contains P (x ∷ s) h =
    (h x (ground (arith, eqb_refl x)), All-of_contains P s (λ y m. h y (ground arith)))

module _ (f : CommitmentForest) (source : Cut)
    (exists : (a : NodePath) → contains a source ≡ true → exists_at f a ≡ true) where
  abbrev Good : Progress → Type 0
  Good p = All (Exists f) p.opens × All (Exists f) p.packs

  derive_path-total :
      (t : NodePath) (p : Progress)
      → Exists f t
      → Good p
      → Derivable f source t
      → (next : Progress) × (derive_path f source t p ≡ some next) × Good next
  unfolding derive_path
  derive_path-total t p h g d = elim (Option-cases (node f t)) [
    | inl gone ↦ absurd (ground arith)
    | inr (n, at) ↦ elim (Bool-cases (contains t source)) [
      | inl c ↦ (record p { retained = p.retained ++ n ∷ [] }, ground (arith, c, at), g)
      | inr c ↦ elim (Option-cases (find (λ s. starts_with t s) source)) [
        | inr (a, found) ↦
            let (m, above) = find-contains (λ s. starts_with t s) source a found in
            let (os, opened, good) =
              open_between-total f t (length a) (length t - length a) p.opens h
                (Exists-length f a (exists a m)) (omega (arith, starts_with-length t a above))
                g.0 in
            (record p { opens = os }, ground (arith, c, found, opened), (good, g.1))
        | inl none' ↦ elim d [
          | inl (a, m, above) ↦
              absurd (ground (arith, find_none (λ s. starts_with t s) source a none' m))
          | inr can ↦
              let (ps, packs) = (collect_pack_paths_iff f source t n p.packs at).1 can in
              (
                record p { packs = ps },
                ground (arith, c, none', packs),
                (g.0, collect_pack_paths-Exists f t source p.packs ps g.1 packs),
              )
        ]
      ]
    ]
  ]

  derive_path-Derivable :
      (t : NodePath) (p next : Progress)
      → Exists f t
      → derive_path f source t p ≡ some next
      → Derivable f source t
  unfolding derive_path
  derive_path-Derivable t p next h e = elim (Bool-cases (contains t source)) [
    | inl c ↦ inl (t, c, starts_with_refl t)
    | inr c ↦ elim (Option-cases (find (λ s. starts_with t s) source)) [
      | inr (a, found) ↦
          let (m, above) = find-contains (λ s. starts_with t s) source a found in inl (a, m, above)
      | inl none' ↦ elim (Option-cases (node f t)) [
        | inl gone ↦ absurd (ground arith)
        | inr (n, at) ↦ elim (Option-cases (collect_pack_paths f t source p.packs)) [
          | inl gone ↦ absurd (ground arith)
          | inr (ps, packs) ↦ inr ((collect_pack_paths_iff f source t n p.packs at).0 (ps, packs))
        ]
      ]
    ]
  ]

  derive_paths-total :
      (ts : Cut) (p : Progress)
      → All (Exists f) ts
      → Good p
      → All (Derivable f source) ts
      → (last : Progress) × (derive_paths f source ts p ≡ some last) × Good last
  unfolding derive_paths
  derive_paths-total [] p h g d = (p, refl, g)
  derive_paths-total (t ∷ ts) p h g d =
      let (next, e, good) = derive_path-total t p h.0 g d.0 in
      let (last, e', good') = derive_paths-total ts next h.1 good d.1 in
      (last, rw (e, derive_paths) e', good')

  derive_paths-Derivable :
      (ts : Cut) (p last : Progress)
      → All (Exists f) ts
      → derive_paths f source ts p ≡ some last
      → All (Derivable f source) ts
  unfolding derive_paths
  derive_paths-Derivable [] p last h e = tt
  derive_paths-Derivable (t ∷ ts) p last h e = elim (Option-cases (derive_path f source t p)) [
    | inl gone ↦ absurd (ground arith)
    | inr (next, found) ↦ (
      derive_path-Derivable t p next h.0 found,
      derive_paths-Derivable ts next last h.1 (ground arith),
    )
  ]

-- For ordered and valid cuts, `transition` returns operations, without a failed lookup, exactly if
-- every path of the target is selected in the source, lies below a node selected there, or can be
-- packed from nodes selected there.
pub transition_iff :
    (f : CommitmentForest) (source target : Cut)
    → IsSorted source
    → IsSorted target
    → is_valid_cut f source ≡ true
    → is_valid_cut f target ≡ true
    → ((t : CutTransition) × (transition f source target ≡ derived t))
      ↔ All (Derivable f source) target
unfolding transition
transition_iff f source target sorted sorted' valid valid' =
    let exists = ((is_valid_cut_iff f source sorted).0 valid).exists in
    let exist' =
      All-of_contains (Exists f) target ((is_valid_cut_iff f target sorted').0 valid').exists in
    (
      λ d. elim (Option-cases (derive_paths f source target no_progress)) [
        | inl gone ↦ absurd (ground (arith, d.1))
        | inr (p, found) ↦ derive_paths-Derivable f source exists target no_progress p exist' found
      ],
      λ every.
          let (p, found, good) =
            derive_paths-total f source exists target no_progress exist' (tt, tt) every in
          let (t, done) = finish-derived f p good.0 good.1 in (t, rw (found, transition) done),
    )
