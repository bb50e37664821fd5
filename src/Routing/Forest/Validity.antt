-- ===== src/Routing/Forest/Validity.antt =====
-- `is_valid_cut` compares neighbours only; on an ordered set that decides whether every path exists
-- and no selected node is an ancestor of another.
use argent.Base.{
  ◌≡◌, refl, sym, ◌↔◌, inl, inr, true, false, Option, none, some, [], ◌∷◌, arith, Bool-cases, ◌∙◌,
}
use argent.Collections.Order.{eqb, eqb_iff, bytes_ord, Lt, Lt-irrefl}
use argent.Collections.BTreeSet.{contains, IsSorted, Below, Lt-of_contains}
use argent.Collections.Slices.{starts_with}
use argent.Routing.Forest.{CommitmentForest, NodePath, Cut, exists_at, valid_from, is_valid_cut}
use argent.Routing.Forest.Paths.{starts_with-between, ge_of_starts_with}

-- Every selected path exists, and no selected node is an ancestor of another one.
pub record IsCut (f : CommitmentForest) (cut : Cut) : Type 0 where
  pub exists : (p : NodePath) → contains p cut ≡ true → exists_at f p ≡ true
  pub antichain :
      (p q : NodePath)
      → contains p cut ≡ true
      → contains q cut ≡ true
      → starts_with p q ≡ true
      → p ≡ q

-- No path of the set lies below `q`.
abbrev Clear : NodePath → Cut → Type 0
Clear q cut = (p : NodePath) → contains p cut ≡ true → starts_with p q ≡ true → ⊥

-- `previous` is before the set, and not an ancestor of its first path.
abbrev Apart : Option NodePath → Cut → Type 0
Apart none cut = Unit
Apart (some q) cut = Clear q cut

Clear-of_head :
    (q x : NodePath) (xs : Cut) → Lt q x → Below x xs → starts_with x q ≡ false → Clear q (x ∷ xs)
Clear-of_head q x xs lt below apart p m s = elim (Bool-cases (eqb p x)) [
  | inl e ↦ ground (arith, eqb_iff p x)
  | inr e ↦ ground (arith, starts_with-between q x p lt, Lt-of_contains p x xs below)
]

-- The neighbour is in order with what follows.
abbrev Before : Option NodePath → Cut → Type 0
Before none cut = Unit
Before (some q) cut = Below q cut

IsCut-nil : (f : CommitmentForest) → IsCut f []
IsCut-nil f = record { exists = λ p m. cc; antichain = λ p q m k t. cc }

IsCut-cons :
    (f : CommitmentForest) (x : NodePath) (xs : Cut)
    → Below x xs
    → exists_at f x ≡ true
    → Clear x xs
    → IsCut f xs
    → IsCut f (x ∷ xs)
IsCut-cons f x xs below here clear inner = record {
  exists = λ p m. elim (Bool-cases (eqb p x)) [
    | inl e ↦ rw ((eqb_iff p x).0 e) here
    | inr e ↦ inner.exists p (rw e at m)
  ];
  antichain = λ p q m k t. elim (Bool-cases (eqb p x)) [
    | inl e ↦ elim (Bool-cases (eqb q x)) [
      | inl e' ↦ (eqb_iff p x).0 e ∙ sym ((eqb_iff q x).0 e')
      | inr e' ↦
          let later = Lt-of_contains q x xs below (rw e' at k) in
          absurd (ge_of_starts_with p q t (rw ((eqb_iff p x).0 e) later))
    ]
    | inr e ↦ elim (Bool-cases (eqb q x)) [
      | inl e' ↦ absurd (clear p (rw e at m) (rw ((eqb_iff q x).0 e') at t))
      | inr e' ↦ inner.antichain p q (rw e at m) (rw e' at k) t
    ]
  ];
}

IsCut-tail : (f : CommitmentForest) (x : NodePath) (xs : Cut) → IsCut f (x ∷ xs) → IsCut f xs
IsCut-tail f x xs c = record {
  exists = λ p m. c.exists p (ground arith);
  antichain = λ p q m k t. c.antichain p q (ground arith) (ground arith) t;
}

IsCut-Clear :
    (f : CommitmentForest) (x : NodePath) (xs : Cut) → Below x xs → IsCut f (x ∷ xs) → Clear x xs
IsCut-Clear f x xs below c p m t =
    let same = c.antichain p x (ground arith) (ground (arith, eqb_iff x x)) t in
    Lt-irrefl x (rw same at (Lt-of_contains p x xs below m))

valid_from_sound :
    (f : CommitmentForest) (previous : Option NodePath) (cut : Cut)
    → Before previous cut
    → IsSorted cut
    → valid_from f previous cut ≡ true
    → IsCut f cut × Apart previous cut
unfolding valid_from
valid_from_sound f none [] b s h = (IsCut-nil f, tt)
valid_from_sound f (some q) [] b s h = (IsCut-nil f, λ p m t. cc)
valid_from_sound f none (x ∷ xs) b s h =
    let (inner, clear) = valid_from_sound f (some x) xs s.0 s.1 (ground arith) in
    (IsCut-cons f x xs s.0 (ground arith) clear inner, tt)
valid_from_sound f (some q) (x ∷ xs) b s h =
    let (inner, clear) = valid_from_sound f (some x) xs s.0 s.1 (ground arith) in
    (IsCut-cons f x xs s.0 (ground arith) clear inner, Clear-of_head q x xs b.0 s.0 (ground arith))

valid_from_complete :
    (f : CommitmentForest) (previous : Option NodePath) (cut : Cut)
    → IsSorted cut
    → IsCut f cut
    → Apart previous cut
    → valid_from f previous cut ≡ true
unfolding valid_from
valid_from_complete f previous [] s c a = refl
valid_from_complete f none (x ∷ xs) s c a =
    let here = c.exists x (ground (arith, eqb_iff x x)) in
    let next =
      valid_from_complete f (some x) xs s.1 (IsCut-tail f x xs c) (IsCut-Clear f x xs s.0 c) in
    ground arith
valid_from_complete f (some q) (x ∷ xs) s c a =
    let here = c.exists x (ground (arith, eqb_iff x x)) in
    let next =
      valid_from_complete f (some x) xs s.1 (IsCut-tail f x xs c) (IsCut-Clear f x xs s.0 c) in
    ground (arith, a x, eqb_iff x x)

-- On an ordered set of paths `is_valid_cut` holds exactly if every path exists in the forest and no
-- selected node is an ancestor of another one.
pub is_valid_cut_iff :
    (f : CommitmentForest) (cut : Cut) → IsSorted cut → (is_valid_cut f cut ≡ true) ↔ IsCut f cut
unfolding is_valid_cut
is_valid_cut_iff f cut s =
    (λ h. (valid_from_sound f none cut tt s h).0, λ c. valid_from_complete f none cut s c tt)
