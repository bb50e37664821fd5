-- ===== src/Routing/Transition/Carried.antt =====
-- src/routing/commitment.rs: the operations of a transition, carried out by `open` and `pack`, lead
-- from the source to a cut that selects the target.
use argent.Base.{
  ℕ, ◌≡◌, refl, sym, ap, ◌∙◌, subst, inl, inr, true, false, some, List, length, arith, Bool-cases,
  Option-cases,
}
use argent.Collections.Order.{bytes_ord}
use argent.Collections.Slices.{starts_with}
use argent.Collections.BTreeSet.{contains, IsSorted}
use argent.Routing.Forest.{CommitmentForest, NodePath, Cut, child, is_valid_cut}
use argent.Routing.Forest.Paths.{starts_with_refl, starts_with_trans, starts_with-child}
use argent.Routing.Forest.Validity.{IsCut, is_valid_cut_iff}
use argent.Routing.Transition.{
  CutTransition, Progress, derive_paths, no_progress, sort_paths, nodes_at, finish, derived,
  transition,
}
use argent.Routing.Transition.Derivable.{starts_with-length}
use argent.Routing.Transition.Sorted.{sort_paths-Pairwise, contains-sort_paths}
use argent.Routing.Transition.Progressed.{IsBelow, IsProgress, IsServed, derive_paths-IsProgress}
use argent.Routing.Transition.Opening.{open_all, open_all-Keeps, length-child}
use argent.Routing.Transition.Packing.{pack_all, pack_all-Holds}

-- The operations of a transition are those of two lists of paths, and these can be carried out: first
-- the branches are opened, then others are packed, and the last cut selects the target.
pub record IsCarriedOut (f : CommitmentForest) (source target : Cut) (t : CutTransition)
    : Type 0 where
  pub opens : List NodePath
  pub packs : List NodePath
  pub opens_lem : nodes_at f opens ≡ some t.branches_to_open
  pub packs_lem : nodes_at f packs ≡ some t.branches_to_pack
  pub between : Cut
  pub last : Cut
  pub opening : open_all f source opens ≡ some between
  pub packing : pack_all f between packs ≡ some last
  pub reached : (p : NodePath) → contains p target ≡ true → contains p last ≡ true

module _ (f : CommitmentForest) (source target : Cut) (wanted : IsCut f target) (p : Progress)
    (progress : IsProgress f source target p) where
  -- What lies below the target is not opened.
  not_opened : (x : NodePath) → IsBelow f source target x → contains x p.opens ≡ false
  not_opened x (t, t_in, below) = elim (Bool-cases (contains x p.opens)) [
    | inr out ↦ out
    | inl inside ↦
        let ((u, u_in, above, lt), _, _) = progress.opens_fit x inside in
        let same = wanted.antichain u t u_in t_in (starts_with_trans u x t above below) in
        let le = starts_with-length x t below in absurd (omega (arith, ap length same, lt, le))
  ]

  not_packed_below :
      (t d : NodePath) (i : ℕ)
      → contains t target ≡ true
      → t ≡ child d i
      → contains d p.packs ≡ true
      → ⊥
  not_packed_below t d i t_in e d_in =
      let ((u, u_in, below), _) = progress.packs_fit d d_in in
      let lower : starts_with t u ≡ true =
        subst (λ z. starts_with z u ≡ true) (sym e)
          (starts_with_trans (child d i) d u (starts_with-child d i) below) in
      let same = wanted.antichain t u t_in u_in lower in
      let le = starts_with-length d u below in
      absurd (omega (arith, ap length same, ap length e, length-child d i, le))

  carried_out :
      IsSorted source
      → is_valid_cut f source ≡ true
      → ((t : NodePath) → contains t target ≡ true → IsServed f source target t p)
      → (between : Cut) × (last : Cut) × (open_all f source (sort_paths false p.opens)
          ≡ some between)
        × (pack_all f between (sort_paths true p.packs) ≡ some last)
        × ((t : NodePath) → contains t target ≡ true → contains t last ≡ true)
  carried_out sorted valid served =
      let (between, opening, s, v, keeps) =
        open_all-Keeps f source target p.opens wanted progress.opens_fit (sort_paths false p.opens)
          source sorted valid (sort_paths-Pairwise false p.opens progress.opens_sorted)
          (λ x m. ground (arith, contains-sort_paths false x p.opens))
          (λ x available left. elim available [
            | inl here ↦ here
            | inr (d, i, e, d_in, out, exists) ↦
                absurd (ground (arith, contains-sort_paths false d p.opens))
          ]) in
      let ready =
        λ (q : NodePath) (i : ℕ) (q_in : contains q p.packs ≡ true)
            (selected : contains (child q i) source ≡ true).
          let ((t, t_in, below), _) = progress.packs_fit q q_in in
          let lower = starts_with_trans (child q i) q t (starts_with-child q i) below in
          let r : contains (child q i) between ≡ true =
            keeps (child q i) (inl selected) (inl (not_opened (child q i) (t, t_in, lower))) in
          r in
      let (last, packing, holds) =
        pack_all-Holds f source p.packs between (λ q m. (progress.packs_fit q m).1) ready
          (sort_paths true p.packs) between s v
          (sort_paths-Pairwise true p.packs progress.packs_sorted)
          (λ x m. ground (arith, contains-sort_paths true x p.packs))
          (λ x hand free. elim hand [
            | inl here ↦ here
            | inr (m, out) ↦ absurd (ground (arith, contains-sort_paths true x p.packs))
          ]) in
      (
        between,
        last,
        opening,
        packing,
        λ t t_in.
            let kept = not_opened t (t, t_in, starts_with_refl t) in
            holds t
              (elim (served t t_in) [
                | inl here ↦ inl (keeps t (inl here) (inl kept))
                | inr (inl (d, i, e, d_in)) ↦
                    inl (keeps t (inr (d, i, e, d_in, refl, wanted.exists t t_in)) (inl kept))
                | inr (inr packed) ↦ inr (packed, refl)
              ])
              (λ d i e d_in. absurd (not_packed_below t d i t_in e d_in)),
      )

-- For ordered and valid cuts, the operations that `transition` returns can be carried out in their
-- order: `open` succeeds for every branch to open, from the source on, then `pack` succeeds for every
-- branch to pack, and the last cut selects every path of the target.
pub transition-IsCarriedOut :
    (f : CommitmentForest) (source target : Cut) (t : CutTransition)
    → IsSorted source
    → IsSorted target
    → is_valid_cut f source ≡ true
    → is_valid_cut f target ≡ true
    → transition f source target ≡ derived t
    → IsCarriedOut f source target t
unfolding transition
transition-IsCarriedOut f source target t sorted sorted' valid valid' h =
    elim (Option-cases (derive_paths f source target no_progress)) [
      | inl gone ↦ absurd (ground arith)
      | inr (p, found) ↦
          let wanted = (is_valid_cut_iff f target sorted').0 valid' in
          let (progress, _, served) =
            derive_paths-IsProgress f source target target no_progress p (λ x m. m) found
              (record {
                opens_sorted = tt;
                packs_sorted = tt;
                opens_fit = λ q m. cc;
                packs_fit = λ q m. cc;
              }) in
          let done : finish f p ≡ derived t = ground arith in
          elim (Option-cases (nodes_at f (sort_paths false p.opens))) [
            | inl gone ↦ absurd (ground arith)
            | inr (opens, at_opens) ↦ elim (Option-cases (nodes_at f (sort_paths true p.packs))) [
              | inl gone ↦ absurd (ground arith)
              | inr (packs, at_packs) ↦
                  let same : record {
                    retained = p.retained;
                    branches_to_open = opens;
                    branches_to_pack = packs;
                  }
                      ≡ t =
                    ground arith in
                  let (between, last, opening, packing, reached) =
                    carried_out f source target wanted p progress sorted valid served in
                  record {
                    opens = sort_paths false p.opens;
                    packs = sort_paths true p.packs;
                    opens_lem = at_opens ∙ ap (λ z. some z.branches_to_open) same;
                    packs_lem = at_packs ∙ ap (λ z. some z.branches_to_pack) same;
                    between = between;
                    last = last;
                    opening = opening;
                    packing = packing;
                    reached = reached;
                  }
            ]
          ]
    ]
