-- ===== src/Syntax/Lexer/Numbers.antt =====
-- src/compiler/syntax/lexer.rs: the end of a number.
use argent.Base.{
  ℕ, ◌+◌, ◌≡◌, ◌⊎◌, sym, ap, ◌∙◌, inl, inr, true, ◌||◌, ltb, ◌==◌, ==_iff, [], ◌∷◌, ◌++◌,
  length-append, append_assoc, drop, All, arith, Bytes, Bool-cases,
}
use argent.Collections.Order.{bytes_ord}
use argent.Syntax.Lexer.{
  is_boundary, skip_while, is_digit, is_hex_digit, is_digit_or_underscore, starts_hex, exponent_end,
  number_end,
}
use argent.Syntax.Lexer.Grammar.{IsNumber, hex, decimal, exponent}
use argent.Syntax.Lexer.Scans.{
  IsText, Consumes, IsText-rest, skip_while-Scanned, skip_while-boundary, Scanned-first,
}

digit_ascii : (b : ℕ) → is_digit_or_underscore b ≡ true → ltb b 128 ≡ true
digit_ascii b h = ground arith

hex_ascii : (b : ℕ) → is_hex_digit b ≡ true → ltb b 128 ≡ true
hex_ascii b h = ground arith

-- The number that starts with this digit.
abbrev pub Numbered : ℕ → Bytes → ℕ × Bytes → Type 0
Numbered pos rest end =
    (w : Bytes) × Consumes pos rest w end × IsNumber w × (is_boundary end.1 ≡ true)

hex_end-Numbered :
    (pos b : ℕ) (after : Bytes)
    → starts_hex (b ∷ after) ≡ true
    → IsText (b ∷ after)
    → Numbered pos (b ∷ after) (skip_while is_hex_digit (pos + 2) (drop 2 (b ∷ after)))
hex_end-Numbered pos b [] h text = cc
hex_end-Numbered pos b (x ∷ rest) h text =
    let zero' : b ≡ b'0' = ground (arith, ==_iff b b'0') in
    let letter : (x ≡ b'x') ⊎ (x ≡ b'X') = ground (arith, ==_iff x b'x', ==_iff x b'X') in
    let ascii : ltb x 128 ≡ true = ground arith in
    let (w, consumed, digits, stops) = skip_while-Scanned is_hex_digit (pos + 2) rest in
    (
      b ∷ x ∷ w,
      (ap (λ r. b ∷ x ∷ r) consumed.0, omega (arith, consumed.1)),
      rw zero' (hex x w letter digits),
      skip_while-boundary is_hex_digit hex_ascii (pos + 2) rest text.1.1 (text.1.0 ascii),
    )

exponent_end-Numbered :
    (pos b : ℕ) (rest v : Bytes) (end : ℕ × Bytes)
    → is_digit b ≡ true
    → Consumes pos rest (b ∷ v) end
    → All (λ b. is_digit_or_underscore b ≡ true) v
    → IsText end.1
    → is_boundary end.1 ≡ true
    → Numbered pos rest (exponent_end end)
exponent_end-Numbered pos b rest v (at, []) h consumed all text boundary =
    (b ∷ v, consumed, decimal b v h all, boundary)
exponent_end-Numbered pos b rest v (at, e ∷ after) h consumed all text boundary =
    elim (Bool-cases ((e == b'e') || (e == b'E'))) [
      | inr none' ↦ rw none' (b ∷ v, consumed, decimal b v h all, boundary)
      | inl found ↦
          let letter : (e ≡ b'e') ⊎ (e ≡ b'E') = ground (arith, ==_iff e b'e', ==_iff e b'E') in
          let ascii : ltb e 128 ≡ true = ground arith in
          let (w, more, digits, stops) = skip_while-Scanned is_digit_or_underscore (at + 1) after in
          let end =
            skip_while-boundary is_digit_or_underscore digit_ascii (at + 1) after text.1
              (text.0 ascii) in
          let whole : rest
              ≡ (b ∷ v ++ e ∷ w) ++ (skip_while is_digit_or_underscore (at + 1) after).1 =
            consumed.0
            ∙ ap (λ r. (b ∷ v) ++ (e ∷ r)) more.0
            ∙ sym (append_assoc (b ∷ v) (e ∷ w) _) in
          rw found (
            b ∷ v ++ e ∷ w,
            (whole, omega (arith, consumed.1, more.1, length-append v (e ∷ w))),
            exponent b e v w h all letter digits,
            end,
          )
    ]

pub number_end-Numbered :
    (pos b : ℕ) (after : Bytes)
    → is_digit b ≡ true
    → IsText (b ∷ after)
    → is_boundary (b ∷ after) ≡ true
    → Numbered pos (b ∷ after) (number_end pos (b ∷ after))
unfolding number_end
number_end-Numbered pos b after h text start = elim (Bool-cases (starts_hex (b ∷ after))) [
  | inl e ↦ rw e (hex_end-Numbered pos b after e text)
  | inr none' ↦
      let scanned = skip_while-Scanned is_digit_or_underscore pos (b ∷ after) in
      let end = skip_while is_digit_or_underscore pos (b ∷ after) in
      let (w, consumed, all, stops) = scanned in
      let first = Scanned-first is_digit_or_underscore pos b after end (ground arith) scanned in
      let boundary =
        skip_while-boundary is_digit_or_underscore digit_ascii pos (b ∷ after) text start in
      rw none' (
        exponent_end-Numbered pos b (b ∷ after) first.0 end h (rw first.1 at consumed)
          (rw first.1 at all).1 (IsText-rest (b ∷ after) w end.1 consumed.0 text) boundary)
]
