-- ===== src/Syntax/Lexer/Bodies.antt =====
-- src/compiler/syntax/lexer.rs: the loops of block comments and of string literals.
use argent.Base.{
  ℕ, zero, suc, ◌+◌, ◌≤◌, ◌≡◌, ◌≢◌, ◌⊎◌, refl, ap, inl, inr, true, false, ◌&&◌, ◌==◌, ==_iff, [],
  ◌∷◌, ◌++◌, length, arith, Bytes, ok, Bool-cases,
}
use argent.Syntax.Lexer.{is_boundary, block_comment, string_body}
use argent.Syntax.Lexer.Grammar.{Comment, close, leave, enter, inside, Quoted, quote, escape, plain}
use argent.Syntax.Lexer.Scans.{IsText, Safe, Safe-weaken, Consumes}

-- The loop ends after the comment, at a boundary.
abbrev pub Commented : ℕ → ℕ → Bytes → ℕ × Bytes → Type 0
Commented depth pos rest end =
    (w : Bytes) × Consumes pos rest w end × Comment depth w × (is_boundary end.1 ≡ true)

Consumes-two :
    (pos b c : ℕ) (rest w : Bytes) (end : ℕ × Bytes)
    → Consumes (pos + 2) rest w end
    → Consumes pos (b ∷ c ∷ rest) (b ∷ c ∷ w) end
Consumes-two pos b c rest w end h = (ap (λ r. b ∷ c ∷ r) h.0, omega (arith, h.1))

Consumes-one :
    (pos b : ℕ) (rest w : Bytes) (end : ℕ × Bytes)
    → Consumes (pos + 1) rest w end
    → Consumes pos (b ∷ rest) (b ∷ w) end
Consumes-one pos b rest w end h = (ap (λ r. b ∷ r) h.0, omega (arith, h.1))

zero_or_suc : (n : ℕ) → (n ≡ 0) ⊎ ((m : ℕ) × (n ≡ suc m))
zero_or_suc zero = inl refl
zero_or_suc (suc m) = inr (m, refl)

Comment-nonempty : (depth : ℕ) (w : Bytes) → Comment depth w → w ≢ []
Comment-nonempty depth w close = λ e. cc
Comment-nonempty depth w (leave d v k) = λ e. cc
Comment-nonempty depth w (enter d v k) = λ e. cc
Comment-nonempty depth w (inside d b c v f g k) = λ e. cc

Comment-inside :
    (depth b c : ℕ) (rest w after : Bytes)
    → (b == b'/') && (c == b'*') ≡ false
    → (b == b'*') && (c == b'/') ≡ false
    → c ∷ rest ≡ w ++ after
    → Comment depth w
    → Comment depth (b ∷ w)
Comment-inside depth b c rest [] after f g e k = absurd (Comment-nonempty depth [] k refl)
Comment-inside depth b c rest (x ∷ w) after f g e k =
    let same : c ≡ x = cc in inside depth b x w (rw same at f) (rw same at g) k

pub block_comment-Safe :
    (start depth pos : ℕ) (rest : Bytes) (bound : ℕ)
    → start ≤ bound
    → IsText rest
    → Safe (Commented (suc depth) pos rest) bound (block_comment start (suc depth) pos rest)
block_comment-Safe start depth pos [] bound le h = le
block_comment-Safe start depth pos (b ∷ []) bound le h = le
block_comment-Safe start depth pos (b ∷ c ∷ rest) bound le h =
    elim (Bool-cases ((b == b'/') && (c == b'*'))) [
      | inl opens ↦
          let slash : b ≡ b'/' = ground (arith, ==_iff b b'/') in
          let star : c ≡ b'*' = ground (arith, ==_iff c b'*') in
          let more : suc depth + 1 ≡ suc (suc depth) = omega arith in
          let step : block_comment start (suc depth) pos (b ∷ c ∷ rest)
              ≡ block_comment start (suc depth + 1) (pos + 2) rest =
            ground arith in
          rw (step, more)
            (Safe-weaken (Commented (suc (suc depth)) (pos + 2) rest)
              (Commented (suc depth) pos (b ∷ c ∷ rest)) bound _
              (block_comment-Safe start (suc depth) (pos + 2) rest bound le h.1.1)
              (λ end (w, consumed, comment, boundary). (
                b ∷ c ∷ w,
                Consumes-two pos b c rest w end consumed,
                rw (slash, star) (enter (suc depth) w comment),
                boundary,
              )))
      | inr stays ↦ elim (Bool-cases ((b == b'*') && (c == b'/'))) [
        | inl closes ↦
            let star : b ≡ b'*' = ground (arith, ==_iff b b'*') in
            let slash : c ≡ b'/' = ground (arith, ==_iff c b'/') in
            elim (zero_or_suc depth) [
              | inl last ↦
                  let step : block_comment start (suc depth) pos (b ∷ c ∷ rest)
                      ≡ ok (pos + 2, rest) =
                    ground arith in
                  rw step
                    (b ∷ c ∷ [], (refl, refl), rw (star, slash, last) close, h.1.0 (rw slash refl))
              | inr (less, deep) ↦
                  let step : block_comment start (suc depth) pos (b ∷ c ∷ rest)
                      ≡ block_comment start (suc less) (pos + 2) rest =
                    ground arith in
                  rw step (
                    Safe-weaken (Commented (suc less) (pos + 2) rest)
                      (Commented (suc depth) pos (b ∷ c ∷ rest)) bound _
                      (block_comment-Safe start less (pos + 2) rest bound le h.1.1)
                      (λ end (w, consumed, comment, boundary). (
                        b ∷ c ∷ w,
                        Consumes-two pos b c rest w end consumed,
                        rw (star, slash, deep) (leave less w comment),
                        boundary,
                      )))
            ]
        | inr other ↦
            let step : block_comment start (suc depth) pos (b ∷ c ∷ rest)
                ≡ block_comment start (suc depth) (pos + 1) (c ∷ rest) =
              ground arith in
            rw step (
              Safe-weaken (Commented (suc depth) (pos + 1) (c ∷ rest))
                (Commented (suc depth) pos (b ∷ c ∷ rest)) bound _
                (block_comment-Safe start depth (pos + 1) (c ∷ rest) bound le h.1)
                (λ end (w, consumed, comment, boundary). (
                  b ∷ w,
                  Consumes-one pos b (c ∷ rest) w end consumed,
                  Comment-inside (suc depth) b c rest w end.1 stays other consumed.0 comment,
                  boundary,
                )))
      ]
    ]

-- The loop ends after the closing quote, at a boundary.
abbrev pub Closed : ℕ → Bytes → ℕ × Bytes → Type 0
Closed pos rest end = (w : Bytes) × Consumes pos rest w end × Quoted w × (is_boundary end.1 ≡ true)

pub string_body-Safe :
    (start pos : ℕ) (rest : Bytes) (bound : ℕ)
    → start ≤ bound
    → pos + length rest ≤ bound
    → IsText rest
    → Safe (Closed pos rest) bound (string_body start pos rest)
string_body-Safe start pos [] bound le far h = le
string_body-Safe start pos (b ∷ []) bound le far h = elim (Bool-cases (b == b'"')) [
  | inl e ↦
      let quoted : b ≡ b'"' = ground (arith, ==_iff b b'"') in
      let step : string_body start pos (b ∷ []) ≡ ok (pos + 1, []) = ground arith in
      rw step (b ∷ [], (refl, refl), rw quoted quote, refl)
  | inr other ↦ elim (Bool-cases (b == b'\\')) [ inl e ↦ ground arith | inr f ↦ ground arith ]
]
string_body-Safe start pos (b ∷ c ∷ rest) bound le far h = elim (Bool-cases (b == b'"')) [
  | inl e ↦
      let quoted : b ≡ b'"' = ground (arith, ==_iff b b'"') in
      let step : string_body start pos (b ∷ c ∷ rest) ≡ ok (pos + 1, c ∷ rest) = ground arith in
      rw step (b ∷ [], (refl, refl), rw quoted quote, h.0 (rw quoted refl))
  | inr other ↦ elim (Bool-cases (b == b'\\')) [
    | inl e ↦
        let slash : b ≡ b'\\' = ground (arith, ==_iff b b'\\') in
        let step : string_body start pos (b ∷ c ∷ rest) ≡ string_body start (pos + 2) rest =
          ground arith in
        rw step (
          Safe-weaken (Closed (pos + 2) rest) (Closed pos (b ∷ c ∷ rest)) bound _
            (string_body-Safe start (pos + 2) rest bound le (omega (arith, far)) h.1.1)
            (λ end (w, consumed, quoted, boundary). (
              b ∷ c ∷ w,
              Consumes-two pos b c rest w end consumed,
              rw slash (escape c w quoted),
              boundary,
            )))
    | inr f ↦
        let step : string_body start pos (b ∷ c ∷ rest) ≡ string_body start (pos + 1) (c ∷ rest) =
          ground arith in
        rw step (
          Safe-weaken (Closed (pos + 1) (c ∷ rest)) (Closed pos (b ∷ c ∷ rest)) bound _
            (string_body-Safe start (pos + 1) (c ∷ rest) bound le (omega (arith, far)) h.1)
            (λ end (w, consumed, quoted, boundary). (
              b ∷ w,
              Consumes-one pos b (c ∷ rest) w end consumed,
              plain b w (λ same. ground (arith, ==_iff b b'"'))
                  (λ same. ground (arith, ==_iff b b'\\')) quoted,
              boundary,
            )))
  ]
]
