-- ===== src/Syntax/Lexer/NumberValue/Scaled.antt =====
-- `parse_number_value` on decimal numbers with an exponent.
use argent.Base.{
  ℕ, ◌*◌, ◌^◌, ◌≤◌, ◌<◌, ◌≡◌, refl, ap, ◌∙◌, inl, inr, true, false, ◌&&◌, ◌||◌, ◌==◌, ltb, leb,
  none, some, Option, [], ◌∷◌, ◌++◌, All, if◌then◌else◌, Text, ℤ, pos, arith, Bool-cases,
}
use native.Mathlib.Nat.{pow-le-pow_right, one-le-pow}
use argent.Syntax.Lexer.{is_digit, is_digit_or_underscore}
use argent.Syntax.Lexer.NumberValue.{
  digits, checked, parse_u32, without_underscores, split_exponent, strip_hex, times, decimal_value,
  parse_number_value, bind,
}
use argent.Syntax.Lexer.NumberValue.Decimal.{
  positional, digits-positional, digits_left, parse_signed-positional, checked_twice,
}

-- The mark of an exponent.
abbrev pub IsMark : ℕ → Type 0
IsMark x = ((x == b'e') || (x == b'E')) ≡ true

split_at_mark :
    (w rest : Text) (x : ℕ)
    → IsMark x
    → All (λ b. is_digit_or_underscore b ≡ true) w
    → split_exponent (w ++ x ∷ rest) ≡ (w, some rest)
split_at_mark [] rest x m all = rw (m, split_exponent) refl
split_at_mark (b ∷ w) rest x m all =
    let later = split_at_mark w rest x m all.1 in
    let step : split_exponent (b ∷ (w ++ x ∷ rest))
        ≡ (b ∷ (split_exponent (w ++ x ∷ rest)).0, (split_exponent (w ++ x ∷ rest)).1) =
      ground arith in
    step ∙ ap (λ h. (b ∷ h.0, h.1)) later

no_hex_mark :
    (b x : ℕ) (w rest : Text)
    → IsMark x
    → All (λ b. is_digit_or_underscore b ≡ true) w
    → strip_hex (b ∷ (w ++ x ∷ rest)) ≡ none
no_hex_mark b x [] rest m all = ground arith
no_hex_mark b x (c ∷ w) rest m all = ground arith

power_keeps : (n k : ℕ) → n ≤ n * 10 ^ k
power_keeps n k = let p = one-le-pow k 10 (omega arith) in grind (arith, p)

power_small : (k : ℕ) → k ≤ 38 → 10 ^ k < 2 ^ 127
power_small k h =
    let p = pow-le-pow_right {n = 10} (omega arith) {i = k} {j = 38} h in
    let q : 10 ^ 38 < 2 ^ 127 = omega arith in omega (arith, p, q)

power_large : (k : ℕ) → 38 < k → 2 ^ 127 ≤ 10 ^ k
power_large k h =
    let p = pow-le-pow_right {n = 10} (omega arith) {i = 39} {j = k} h in
    let q : 2 ^ 127 ≤ 10 ^ 39 = omega arith in omega (arith, p, q)

parse_u32-positional :
    (c : ℕ) (u : Text)
    → is_digit c ≡ true
    → All (λ b. is_digit b ≡ true) u
    → parse_u32 (c ∷ u)
      ≡ (if ltb (positional (c ∷ u)) (2 ^ 32) then some (positional (c ∷ u)) else none)
parse_u32-positional c u h all =
    let value : digits 10 0 (c ∷ u) ≡ some (positional (c ∷ u)) =
      digits-positional 0 (c ∷ u) (h, all) ∙ ap some (omega arith) in
    let step : parse_u32 (c ∷ u)
        ≡ bind (digits 10 0 (c ∷ u)) (λ n. if ltb n (2 ^ 32) then some n else none) =
      let plus : c == b'+' ≡ false = ground arith in rw plus refl in
    step ∙ ap (λ o. bind o (λ n. if ltb n (2 ^ 32) then some n else none)) value

-- The checks of the power, of the product and of the conversion, in their order.
abbrev scale : ℕ → ℕ → Option ℤ
scale n k = bind (checked 128 (pos n)) (λ value.
    bind
      (bind (if ltb k (2 ^ 32) then some k else none)
        (λ k. if leb k 38 then checked 128 (times value (10 ^ k)) else none))
      (λ result. checked 64 result))

scale_lem :
    (n k : ℕ)
    → scale n k ≡ (
        if ltb (10 ^ k) (2 ^ 127) && ltb (n * 10 ^ k) (2 ^ 63)
        then some (pos (n * 10 ^ k))
        else none)
scale_lem n k = elim (Bool-cases (leb k 38)) [
  | inl small ↦
      let power = power_small k (ground arith) in
      let keeps = power_keeps n k in
      let in_u32 : ltb k (2 ^ 32) ≡ true = ground arith in
      let fits : ltb (10 ^ k) (2 ^ 127) ≡ true = ground (arith, power) in
      elim (Bool-cases (ltb n (2 ^ 127))) [
        | inl base ↦ rw (base, in_u32, small, fits) (checked_twice (n * 10 ^ k))
        | inr wide ↦
            let lost : ltb (n * 10 ^ k) (2 ^ 63) ≡ false = ground (arith, keeps) in
            rw (wide, fits, lost) refl
      ]
  | inr large ↦
      let power = power_large k (ground arith) in
      let lost : ltb (10 ^ k) (2 ^ 127) ≡ false = ground (arith, power) in
      elim (Bool-cases (ltb n (2 ^ 127))) [
        | inl base ↦ elim (Bool-cases (ltb k (2 ^ 32))) [
          | inl in_u32 ↦ rw (base, in_u32, large, lost) refl
          | inr out ↦ rw (base, out, lost) refl
        ]
        | inr wide ↦ rw (wide, lost) refl
      ]
]

-- A digit with digits and underscores, an exponent mark, and another digit with digits and underscores
-- stand for the positional value of the first times ten to that of the second, if the power fits an i128
-- and the product a non-negative i64, and for nothing otherwise.
pub parse_number_value-scaled :
    (b x c : ℕ) (w u : Text)
    → is_digit b ≡ true
    → IsMark x
    → is_digit c ≡ true
    → All (λ d. is_digit_or_underscore d ≡ true) w
    → All (λ d. is_digit_or_underscore d ≡ true) u
    → parse_number_value (b ∷ (w ++ x ∷ c ∷ u)) ≡ (
        let n = positional (without_underscores (b ∷ w)) in
        let k = positional (without_underscores (c ∷ u)) in
        if ltb (10 ^ k) (2 ^ 127) && ltb (n * 10 ^ k) (2 ^ 63)
        then some (pos (n * 10 ^ k))
        else none)
unfolding parse_number_value
parse_number_value-scaled b x c w u h m h' all all' =
    let halves = split_at_mark (b ∷ w) (c ∷ u) x m (ground arith, all) in
    let kept : without_underscores (b ∷ w) ≡ b ∷ without_underscores w = ground arith in
    let kept' : without_underscores (c ∷ u) ≡ c ∷ without_underscores u = ground arith in
    let base = parse_signed-positional b (without_underscores w) h (digits_left w all) in
    let exponent = parse_u32-positional c (without_underscores u) h' (digits_left u all') in
    let decimal : parse_number_value (b ∷ (w ++ x ∷ c ∷ u))
        ≡ decimal_value (split_exponent (b ∷ (w ++ x ∷ c ∷ u))) =
      rw (parse_number_value, no_hex_mark b x w (c ∷ u) m all) refl in
    decimal
    ∙ ap decimal_value halves
    ∙ rw (kept, kept', base, exponent)
        (scale_lem (positional (b ∷ without_underscores w))
          (positional (c ∷ without_underscores u)))
