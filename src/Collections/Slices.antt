-- ===== src/Collections/Slices.antt =====
-- `starts_with` and `ends_with` of Rust's slices of numbers, and a stable `sort_by` on a text.
use argent.Base.{
  ℕ, zero, suc, ◌+◌, ◌-◌, ◌≤◌, ◌≡◌, refl, sym, ap, ◌∙◌, ◌↔◌, inl, inr, Bool, true, false, ◌&&◌,
  ◌||◌, ◌==◌, leb, List, [], ◌∷◌, ◌++◌, drop, length, length-append, All, arith, Ordering,
  Bool-cases, Text,
}
use argent.Collections.Order.{eqb, eqb_iff, bytes_ord, lex}

abbrev pub starts_with : List ℕ → List ℕ → Bool
starts_with xs [] = true
starts_with [] (y ∷ ys) = false
starts_with (x ∷ xs) (y ∷ ys) = x == y && starts_with xs ys

abbrev pub ends_with : List ℕ → List ℕ → Bool
ends_with xs ys = leb (length ys) (length xs) && eqb (drop (length xs - length ys) xs) ys

-- Two prefixes of one list are comparable.
pub starts_with_comparable :
    (w a b : List ℕ)
    → starts_with w a ≡ true
    → starts_with w b ≡ true
    → starts_with a b || starts_with b a ≡ true
starts_with_comparable w [] [] h k = refl
starts_with_comparable w [] (y ∷ b) h k = refl
starts_with_comparable w (x ∷ a) [] h k = refl
starts_with_comparable [] (x ∷ a) (y ∷ b) h k = cc
starts_with_comparable (z ∷ w) (x ∷ a) (y ∷ b) h k = ground (arith, starts_with_comparable w a b)

pub starts_with-append : (p xs : List ℕ) → starts_with (p ++ xs) p ≡ true
starts_with-append [] xs = refl
starts_with-append (x ∷ p) xs = ground (arith, starts_with-append p xs)

drop-drop : (m n k : ℕ) (w : List ℕ) → k ≡ m + n → drop n (drop m w) ≡ drop k w
drop-drop zero n k w e = let same : k ≡ n = omega arith in rw same refl
drop-drop (suc m) zero zero [] e = refl
drop-drop (suc m) zero (suc k) [] e = refl
drop-drop (suc m) (suc n) zero [] e = refl
drop-drop (suc m) (suc n) (suc k) [] e = refl
drop-drop (suc m) n zero (x ∷ w) e = absurd (omega arith)
drop-drop (suc m) n (suc k) (x ∷ w) e = drop-drop m n k w (omega arith)

drop-append : (xs ys : List ℕ) → drop (length xs) (xs ++ ys) ≡ ys
drop-append [] ys = refl
drop-append (x ∷ xs) ys = drop-append xs ys

shorter_suffix :
    (w a b : List ℕ)
    → ends_with w a ≡ true
    → ends_with w b ≡ true
    → length a ≤ length b
    → ends_with b a ≡ true
shorter_suffix w a b h k le =
    let is_a : drop (length w - length a) w ≡ a =
      ground (arith, eqb_iff (drop (length w - length a) w) a) in
    let is_b : drop (length w - length b) w ≡ b =
      ground (arith, eqb_iff (drop (length w - length b) w) b) in
    let short : length b ≤ length w = ground arith in
    let e : drop (length b - length a) b ≡ a =
      ap (drop (length b - length a)) (sym is_b)
      ∙ drop-drop (length w - length b) (length b - length a) (length w - length a) w (omega arith)
      ∙ is_a in
    ground (arith, eqb_iff (drop (length b - length a) b) a)

-- Two suffixes of one list are comparable.
pub ends_with_comparable :
    (w a b : List ℕ)
    → ends_with w a ≡ true
    → ends_with w b ≡ true
    → ends_with a b || ends_with b a ≡ true
ends_with_comparable w a b h k = ground (arith, shorter_suffix w a b h k, shorter_suffix w b a k h)

pub ends_with-append : (xs s : List ℕ) → ends_with (xs ++ s) s ≡ true
ends_with-append xs s =
    let e : drop (length (xs ++ s) - length s) (xs ++ s) ≡ s =
      ap (λ n. drop n (xs ++ s)) (omega (arith, length-append xs s)) ∙ drop-append xs s in
    ground (arith, eqb_iff (drop (length (xs ++ s) - length s) (xs ++ s)) s, length-append xs s)

-- `sort_by(|left, right| key(left).cmp(key(right)))`: stable.
module _ {A : Type 0} (key : A → Text) where
  abbrev pub after : A → A → Bool
  after a x = elim (lex (key a) (key x)) [ Ordering.gt ↦ true | _ ↦ false ]

  abbrev pub place_by : A → List A → List A
  place_by a [] = a ∷ []
  place_by a (x ∷ xs) = elim (after a x) [ true ↦ x ∷ place_by a xs | false ↦ a ∷ x ∷ xs ]

  abbrev pub sort_by : List A → List A
  sort_by [] = []
  sort_by (x ∷ xs) = place_by x (sort_by xs)

  module _ (P : A → Type 0) where
    pub All-place_by : (a : A) (xs : List A) → All P (place_by a xs) ↔ (P a × All P xs)
    All-place_by a [] = (λ h. h, λ h. h)
    All-place_by a (x ∷ xs) = ground (arith, All-place_by a xs)

    pub All-sort_by : (xs : List A) → All P (sort_by xs) ↔ All P xs
    All-sort_by [] = (λ h. h, λ h. h)
    All-sort_by (x ∷ xs) = ground (arith, All-sort_by xs, All-place_by x (sort_by xs))

-- Every element is related to every later one.
abbrev pub Pairwise : {A : Type 0} → (A → A → Type 0) → List A → Type 0
Pairwise R [] = Unit
Pairwise R (x ∷ xs) = All (R x) xs × Pairwise R xs

module _ {A : Type 0} (key : A → Text) (R : A → A → Type 0) (flip : (x y : A) → R x y → R y x) where
  Pairwise-place_by :
      (a : A) (xs : List A) → Pairwise R (place_by key a xs) → All (R a) xs × Pairwise R xs
  Pairwise-place_by a [] h = (tt, tt)
  Pairwise-place_by a (x ∷ xs) h = elim (Bool-cases (after key a x)) [
    | inl e ↦
        let k : Pairwise R (x ∷ place_by key a xs) = rw (e, Pairwise) at h in
        let (r, p) = Pairwise-place_by a xs k.1 in
        let (q, every) = (All-place_by key (R x) a xs).0 k.0 in ((flip x a q, r), (every, p))
    | inr e ↦ let k : Pairwise R (a ∷ x ∷ xs) = rw (e, Pairwise) at h in k
  ]

  -- A symmetric relation that holds across a sorted list holds across the list.
  pub Pairwise-sort_by : (xs : List A) → Pairwise R (sort_by key xs) → Pairwise R xs
  Pairwise-sort_by [] h = tt
  Pairwise-sort_by (x ∷ xs) h =
      let (every, p) = Pairwise-place_by x (sort_by key xs) h in
      ((All-sort_by key (R x) xs).0 every, Pairwise-sort_by xs p)
