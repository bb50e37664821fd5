-- ===== src/Syntax/Lexer/NumberValue/Decimal.antt =====
-- `parse_number_value` on the decimal numbers that the lexer returns.
use argent.Base.{
  ℕ, suc, ◌+◌, ◌-◌, ◌*◌, ◌^◌, ◌≡◌, refl, sym, ap, ◌∙◌, inl, inr, true, false, ◌==◌, ltb, none, some,
  [], ◌∷◌, length, All, if◌then◌else◌, Text, pos, arith, Bool-cases,
}
use argent.Syntax.Lexer.{is_digit, is_digit_or_underscore}
use argent.Syntax.Lexer.NumberValue.{
  digits, checked, parse_signed, without_underscores, split_exponent, strip_hex, decimal_value,
  parse_number_value, bind,
}

-- The value of a text of digits: each digit has the power of ten of its place.
abbrev pub positional : Text → ℕ
positional [] = 0
positional (b ∷ rest) = (b - b'0') * 10 ^ length rest + positional rest

shift : (v d X p : ℕ) → (v * 10 + d) * X + p ≡ v * (10 * X) + (d * X + p)
shift v d X p = grind arith

power : (n : ℕ) → 10 ^ suc n ≡ 10 * 10 ^ n
power n = grind arith

pub digits-positional :
    (v : ℕ) (w : Text)
    → All (λ b. is_digit b ≡ true) w
    → digits 10 v w ≡ some (v * 10 ^ length w + positional w)
digits-positional v [] all = ap some (omega arith)
digits-positional v (b ∷ rest) all =
    let step : digits 10 v (b ∷ rest) ≡ digits 10 (v * 10 + (b - b'0')) rest = ground arith in
    rw step (digits-positional (v * 10 + (b - b'0')) rest all.1)
    ∙ ap some (
        shift v (b - b'0') (10 ^ length rest) (positional rest)
        ∙ ap (λ p. v * p + ((b - b'0') * 10 ^ length rest + positional rest))
            (sym (power (length rest))))

-- Without its underscores, a decimal number is digits.
pub digits_left :
    (w : Text)
    → All (λ b. is_digit_or_underscore b ≡ true) w
    → All (λ b. is_digit b ≡ true) (without_underscores w)
digits_left [] all = tt
digits_left (b ∷ rest) all = elim (Bool-cases (b == b'_')) [
  | inl e ↦
      let step : without_underscores (b ∷ rest) ≡ without_underscores rest = ground arith in
      rw step (digits_left rest all.1)
  | inr e ↦
      let step : without_underscores (b ∷ rest) ≡ b ∷ without_underscores rest = ground arith in
      rw step (ground arith, digits_left rest all.1)
]

unsplit : (w : Text) → All (λ b. is_digit_or_underscore b ≡ true) w → split_exponent w ≡ (w, none)
unsplit [] all = refl
unsplit (b ∷ rest) all =
    let later = unsplit rest all.1 in
    let step : split_exponent (b ∷ rest) ≡ (b ∷ (split_exponent rest).0, (split_exponent rest).1) =
      ground arith in
    step ∙ ap (λ h. (b ∷ h.0, h.1)) later

no_hex :
    (b : ℕ) (w : Text) → All (λ b. is_digit_or_underscore b ≡ true) w → strip_hex (b ∷ w) ≡ none
no_hex b [] all = refl
no_hex b (c ∷ rest) all = ground arith

pub parse_signed-positional :
    (b : ℕ) (w : Text)
    → is_digit b ≡ true
    → All (λ b. is_digit b ≡ true) w
    → parse_signed 128 10 (b ∷ w) ≡ checked 128 (pos (positional (b ∷ w)))
parse_signed-positional b w h all =
    let value : digits 10 0 (b ∷ w) ≡ some (positional (b ∷ w)) =
      digits-positional 0 (b ∷ w) (h, all) ∙ ap some (omega arith) in
    let step : parse_signed 128 10 (b ∷ w) ≡ bind (digits 10 0 (b ∷ w)) (λ n. checked 128 (pos n)) =
      let minus : b == b'-' ≡ false = ground arith in
      let plus : b == b'+' ≡ false = ground arith in rw (minus, plus) refl in
    step ∙ ap (λ o. bind o (λ n. checked 128 (pos n))) value

pub checked_twice :
    (n : ℕ)
    → bind (checked 128 (pos n)) (λ base. checked 64 base)
      ≡ (if ltb n (2 ^ 63) then some (pos n) else none)
checked_twice n = ground arith

-- A digit followed by digits and underscores stands for its positional value, if that fits a
-- non-negative i64, and for nothing otherwise.
pub parse_number_value-positional :
    (b : ℕ) (w : Text)
    → is_digit b ≡ true
    → All (λ b. is_digit_or_underscore b ≡ true) w
    → parse_number_value (b ∷ w) ≡ (
        let n = positional (without_underscores (b ∷ w)) in
        if ltb n (2 ^ 63) then some (pos n) else none)
unfolding parse_number_value
parse_number_value-positional b w h all =
    let whole = unsplit (b ∷ w) (ground arith, all) in
    let kept : without_underscores (b ∷ w) ≡ b ∷ without_underscores w = ground arith in
    let base = parse_signed-positional b (without_underscores w) h (digits_left w all) in
    let decimal : parse_number_value (b ∷ w) ≡ decimal_value (split_exponent (b ∷ w)) =
      rw (parse_number_value, no_hex b w all) refl in
    decimal
    ∙ ap decimal_value whole
    ∙ rw (kept, base) (checked_twice (positional (b ∷ without_underscores w)))
