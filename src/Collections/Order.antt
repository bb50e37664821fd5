-- ===== src/Collections/Order.antt =====
-- Rust's `Ord` as an interface, with the order of `usize` and the lexicographic order of byte
-- strings and index paths.
use argent.Base.{ℕ, compare, Ordering, ◌≡◌, refl, ◌↔◌, Bool, true, false, List, [], ◌∷◌, arith}

-- `cmp` with the laws of a strict total order.
pub record Ord {ℓ} (A : Type ℓ) : Type ℓ where
  pub cmp : A → A → Ordering
  pub cmp_eq : (a b : A) → (cmp a b ≡ Ordering.eq) ↔ (a ≡ b)
  pub cmp_flip : (a b : A) → (cmp a b ≡ Ordering.gt) ↔ (cmp b a ≡ Ordering.lt)
  pub cmp_trans :
      (a b c : A) → cmp a b ≡ Ordering.lt → cmp b c ≡ Ordering.lt → cmp a c ≡ Ordering.lt

module _ {ℓ} {A : Type ℓ} ⦃o : Ord A⦄ where
  abbrev pub eqb : A → A → Bool
  eqb a b = elim (o.cmp a b) [ Ordering.eq ↦ true | _ ↦ false ]

  abbrev pub Lt : A → A → Type 0
  Lt a b = o.cmp a b ≡ Ordering.lt

  pub eqb_iff : (a b : A) → (eqb a b ≡ true) ↔ (a ≡ b)
  eqb_iff a b = ground (arith, o.cmp_eq a b)

  pub eqb_refl : (a : A) → eqb a a ≡ true
  eqb_refl a = (eqb_iff a a).1 refl

  pub Lt-irrefl : (a : A) → Lt a a → ⊥
  Lt-irrefl a h = ground (arith, o.cmp_eq a a)

  pub Lt-asymm : (a b : A) → Lt a b → Lt b a → ⊥
  Lt-asymm a b h k = Lt-irrefl a (o.cmp_trans a b a h k)

pub nat_cmp_eq : (a b : ℕ) → (compare a b ≡ Ordering.eq) ↔ (a ≡ b)
nat_cmp_eq a b = ground arith

pub nat_cmp_flip : (a b : ℕ) → (compare a b ≡ Ordering.gt) ↔ (compare b a ≡ Ordering.lt)
nat_cmp_flip a b = ground arith

pub nat_cmp_trans :
    (a b c : ℕ) → compare a b ≡ Ordering.lt → compare b c ≡ Ordering.lt → compare a c ≡ Ordering.lt
nat_cmp_trans a b c h k = ground arith

instance abbrev pub nat_ord : Ord ℕ
nat_ord = record {
  cmp = compare;
  cmp_eq = nat_cmp_eq;
  cmp_flip = nat_cmp_flip;
  cmp_trans = nat_cmp_trans;
}

-- `Ord` of slices: the first difference decides, and a proper prefix is smaller.
abbrev pub lex : List ℕ → List ℕ → Ordering
lex [] [] = Ordering.eq
lex [] (y ∷ ys) = Ordering.lt
lex (x ∷ xs) [] = Ordering.gt
lex (x ∷ xs) (y ∷ ys) = elim (compare x y) [
  | Ordering.lt ↦ Ordering.lt
  | Ordering.eq ↦ lex xs ys
  | Ordering.gt ↦ Ordering.gt
]

pub lex_eq : (a b : List ℕ) → (lex a b ≡ Ordering.eq) ↔ (a ≡ b)
lex_eq [] [] = (λ _. refl, λ _. refl)
lex_eq [] (y ∷ ys) = (λ h. cc, λ h. cc)
lex_eq (x ∷ xs) [] = (λ h. cc, λ h. cc)
lex_eq (x ∷ xs) (y ∷ ys) = ground (arith, lex_eq xs ys)

pub lex_flip : (a b : List ℕ) → (lex a b ≡ Ordering.gt) ↔ (lex b a ≡ Ordering.lt)
lex_flip [] [] = (λ h. cc, λ h. cc)
lex_flip [] (y ∷ ys) = (λ h. cc, λ h. cc)
lex_flip (x ∷ xs) [] = (λ _. refl, λ _. refl)
lex_flip (x ∷ xs) (y ∷ ys) = ground (arith, lex_flip xs ys)

pub lex_trans :
    (a b c : List ℕ) → lex a b ≡ Ordering.lt → lex b c ≡ Ordering.lt → lex a c ≡ Ordering.lt
lex_trans [] [] c h k = cc
lex_trans [] (y ∷ ys) [] h k = cc
lex_trans [] (y ∷ ys) (z ∷ zs) h k = refl
lex_trans (x ∷ xs) [] c h k = cc
lex_trans (x ∷ xs) (y ∷ ys) [] h k = cc
lex_trans (x ∷ xs) (y ∷ ys) (z ∷ zs) h k = ground (arith, lex_trans xs ys zs)

instance abbrev pub bytes_ord : Ord (List ℕ)
bytes_ord = record { cmp = lex; cmp_eq = lex_eq; cmp_flip = lex_flip; cmp_trans = lex_trans }

-- `Ord` of pairs of byte strings: the first components decide, then the second ones.
abbrev pub pair_cmp : List ℕ × List ℕ → List ℕ × List ℕ → Ordering
pair_cmp (a, b) (c, d) = elim (lex a c) [
  | Ordering.lt ↦ Ordering.lt
  | Ordering.eq ↦ lex b d
  | Ordering.gt ↦ Ordering.gt
]

pub pair_cmp_eq : (p q : List ℕ × List ℕ) → (pair_cmp p q ≡ Ordering.eq) ↔ (p ≡ q)
pair_cmp_eq (a, b) (c, d) = ground (arith, lex_eq a c, lex_eq b d)

pub pair_cmp_flip :
    (p q : List ℕ × List ℕ) → (pair_cmp p q ≡ Ordering.gt) ↔ (pair_cmp q p ≡ Ordering.lt)
pair_cmp_flip (a, b) (c, d) =
    ground (arith, lex_flip a c, lex_flip c a, lex_flip b d, lex_eq a c, lex_eq c a)

pub pair_cmp_trans :
    (p q r : List ℕ × List ℕ)
    → pair_cmp p q ≡ Ordering.lt
    → pair_cmp q r ≡ Ordering.lt
    → pair_cmp p r ≡ Ordering.lt
pair_cmp_trans (a, b) (c, d) (e, f) h k =
    ground (arith, lex_trans a c e, lex_trans b d f, lex_eq a c, lex_eq c e, lex_eq a e)

instance abbrev pub pair_ord : Ord (List ℕ × List ℕ)
pair_ord = record {
  cmp = pair_cmp;
  cmp_eq = pair_cmp_eq;
  cmp_flip = pair_cmp_flip;
  cmp_trans = pair_cmp_trans;
}
