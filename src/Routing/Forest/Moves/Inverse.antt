-- ===== src/Routing/Forest/Moves/Inverse.antt =====
-- `pack` undoes `open`, and `open` undoes `pack`.
use argent.Base.{
  ℕ, ◌<◌, ◌≡◌, refl, sym, subst, ◌∙◌, inl, inr, true, false, not, some, arith, Bool-cases, any, ap,
}
use argent.Collections.Order.{eqb_iff, eqb_refl, bytes_ord}
use argent.Collections.BTreeSet
use argent.Collections.BTreeSet.{
  contains, IsSorted, contains-insert, contains-remove, contains-extend, set_ext,
}
use argent.Routing.Forest.{
  Nodes, nil, cons, CommitmentForest, count, NodePath, Cut, child, child_paths, is_valid_cut,
  is_empty, open_branch, remove_all, pack,
}
use argent.Routing.Forest.Paths.{starts_with-child, child-ne, contains-child_paths}
use argent.Routing.Forest.Validity.{IsCut, is_valid_cut_iff}
use argent.Routing.Forest.Moves.{
  IsBranch, opened, packed, open_branch-Opens, pack-Packs, any_missing, contains-remove_all,
}
use argent.Routing.Forest.Moves.Kept.{open_valid, pack_valid}

is_empty-of_count : (ns : Nodes) → 0 < count ns → is_empty ns ≡ false
is_empty-of_count nil h = absurd (omega arith)
is_empty-of_count (cons n ns) h = refl

module _ (f : CommitmentForest) (b : NodePath) (ns : Nodes) (br : IsBranch f b ns) where
  open_branch-eq :
      (cut : Cut)
      → is_valid_cut f cut ≡ true
      → contains b cut ≡ true
      → open_branch f cut b ≡ some (opened cut b ns)
  unfolding open_branch
  open_branch-eq cut v m = ground (arith, br.at, is_empty-of_count ns br.inhabited)

  pack-eq :
      (cut : Cut)
      → is_valid_cut f cut ≡ true
      → any (λ c. not (contains c cut)) (child_paths b ns) ≡ false
      → pack f cut b ≡ some (packed cut b ns)
  unfolding pack
  pack-eq cut v m = ground (arith, br.at, is_empty-of_count ns br.inhabited)

  -- The children of a selected branch are not selected.
  child_absent :
      (cut : Cut) (x : NodePath)
      → IsCut f cut
      → contains b cut ≡ true
      → contains x (child_paths b ns) ≡ true
      → contains x cut ≡ false
  child_absent cut x c sel m = elim (Bool-cases (contains x cut)) [
    | inl both ↦
        let (i, _, e) = (contains-child_paths b x ns).0 m in
        let same = c.antichain x b both sel (rw e (starts_with-child b i)) in
        absurd (child-ne b i (sym e ∙ same))
    | inr apart ↦ apart
  ]

  packed-opened :
      (cut : Cut) (x : NodePath)
      → IsCut f cut
      → contains b cut ≡ true
      → contains x (packed (opened cut b ns) b ns) ≡ contains x cut
  packed-opened cut x c sel = ground (
    arith,
    contains-insert x b (remove_all (child_paths b ns) (opened cut b ns)),
    contains-remove_all x (child_paths b ns) (opened cut b ns),
    contains-extend x (BTreeSet.remove b cut) (child_paths b ns),
    contains-remove x b cut,
    eqb_iff x b,
    eqb_iff b x,
    child_absent cut x c sel,
  )

  branch_absent :
      (cut : Cut)
      → IsCut f cut
      → ((i : ℕ) → i < count ns → contains (child b i) cut ≡ true)
      → contains b cut ≡ false
  branch_absent cut c all = elim (Bool-cases (contains b cut)) [
    | inl both ↦
        absurd (
          child-ne b 0
            (c.antichain (child b 0) b (all 0 br.inhabited) both (starts_with-child b 0)))
    | inr apart ↦ apart
  ]

  children_present :
      (cut : Cut) (x : NodePath)
      → ((i : ℕ) → i < count ns → contains (child b i) cut ≡ true)
      → contains x (child_paths b ns) ≡ true
      → contains x cut ≡ true
  children_present cut x all m =
      let (i, lt, e) = (contains-child_paths b x ns).0 m in rw e (all i lt)

  opened-packed :
      (cut : Cut) (x : NodePath)
      → IsCut f cut
      → ((i : ℕ) → i < count ns → contains (child b i) cut ≡ true)
      → contains x (opened (packed cut b ns) b ns) ≡ contains x cut
  opened-packed cut x c all = ground (
    arith,
    contains-insert x b (remove_all (child_paths b ns) cut),
    contains-remove_all x (child_paths b ns) cut,
    contains-extend x (BTreeSet.remove b (packed cut b ns)) (child_paths b ns),
    contains-remove x b (packed cut b ns),
    eqb_iff x b,
    eqb_iff b x,
    children_present cut x all,
    branch_absent cut c all,
  )

  opened_selected :
      (cut : Cut) (x : NodePath)
      → contains x (child_paths b ns) ≡ true
      → contains x (opened cut b ns) ≡ true
  opened_selected cut x m =
      ground (arith, contains-extend x (BTreeSet.remove b cut) (child_paths b ns))

-- Packing the branch that was just opened restores the cut.
pub pack-open :
    (f : CommitmentForest) (cut : Cut) (b : NodePath) (c : Cut)
    → IsSorted cut
    → open_branch f cut b ≡ some c
    → pack f c b ≡ some cut
pack-open f cut b c s h =
    let o = open_branch-Opens f cut b c h in
    let ns = o.children in
    let (sorted, valid) = open_valid f cut b c s h in
    let full = any_missing c (child_paths b ns) (λ x m.
      subst (λ z. contains x z ≡ true) (sym o.result)
        (opened_selected f b ns o.is_branch cut x m)) in
    let here = pack-eq f b ns o.is_branch c valid full in
    let (sorted', _) = pack_valid f c b (packed c b ns) sorted here in
    here
    ∙ ap some (
        set_ext (packed c b ns) cut sorted' s (λ x.
          subst (λ z. contains x (packed z b ns) ≡ contains x cut) (sym o.result)
            (packed-opened f b ns o.is_branch cut x ((is_valid_cut_iff f cut s).0 o.valid)
              o.selected)))

-- Opening the branch that was just packed restores the cut.
pub open-pack :
    (f : CommitmentForest) (cut : Cut) (b : NodePath) (c : Cut)
    → IsSorted cut
    → pack f cut b ≡ some c
    → open_branch f c b ≡ some cut
open-pack f cut b c s h =
    let o = pack-Packs f cut b c h in
    let ns = o.children in
    let (sorted, valid) = pack_valid f cut b c s h in
    let sel : contains b c ≡ true =
      rw o.result
        (ground (arith, contains-insert b b (remove_all (child_paths b ns) cut), eqb_refl b)) in
    let here = open_branch-eq f b ns o.is_branch c valid sel in
    let (sorted', _) = open_valid f c b (opened c b ns) sorted here in
    here
    ∙ ap some (
        set_ext (opened c b ns) cut sorted' s (λ x.
          subst (λ z. contains x (opened z b ns) ≡ contains x cut) (sym o.result)
            (opened-packed f b ns o.is_branch cut x ((is_valid_cut_iff f cut s).0 o.valid)
              o.selected)))
