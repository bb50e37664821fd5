-- ===== src/Syntax/Lexer/Words.antt =====
-- src/compiler/syntax/lexer.rs: the words that a round consumes.
use argent.Base.{
  ℕ, ◌+◌, ◌≤◌, ◌≡◌, ◌≢◌, ◌⊎◌, refl, ap, inl, inr, Bool, true, not, ltb, ◌==◌, ==_iff, none, List,
  [], ◌∷◌, ◌++◌, length, drop, find, All, arith, Bytes, ok, Bool-cases, Option-cases, Result-cases,
}
use argent.Collections.Order.{eqb, eqb_iff, bytes_ord}
use argent.Collections.Slices.{starts_with}
use argent.Syntax.Lexer.Tokens.{
  TokenKind, ident, str, arrow, Token, Lexer, error_at, invalid_string_literal,
}
use argent.Syntax.Lexer.{
  FromStr, is_boundary, is_ident_start, is_ident_byte, is_symbol, peek_is, legacy_covenant_id,
  reserved_prefixes, push_ident, push_str, block_comment, push,
}
use argent.Syntax.Lexer.Grammar.{
  Stops, IsTrivia, blank, line, block, IsNumber, hex, decimal, exponent, IsIdent, Quoted, Spells,
  Maximal, spanned,
}
use argent.Syntax.Lexer.Scans.{IsText, Safe, Safe-weaken, Consumes}
use argent.Syntax.Lexer.Bodies.{Commented, block_comment-Safe}

abbrev pub lexer_at : ℕ → Bytes → List Token → Lexer
lexer_at pos rest tokens = record { pos = pos; rest = rest; tokens = tokens }

-- A round consumed a word: trivia, or the spelling of the token that it pushed.
pub record Stepped (from_str : FromStr) (pos : ℕ) (rest : Bytes) (tokens : List Token)
    (next : Lexer) : Type 0 where
  pub word : Bytes
  pub consumed : rest ≡ word ++ next.rest
  pub advanced : next.pos ≡ pos + length word
  pub progress : 1 ≤ length word
  pub boundary : is_boundary next.rest ≡ true
  pub outcome :
      ((next.tokens ≡ tokens) × IsTrivia word)
      ⊎ ((kind : TokenKind) × (next.tokens ≡ tokens ++ spanned from_str kind pos next.pos ∷ [])
          × Spells from_str kind word
          × Maximal from_str kind next.rest)

pub ident_byte_ascii : (b : ℕ) → is_ident_byte b ≡ true → ltb b 128 ≡ true
ident_byte_ascii b h = ground arith

pub IsIdent-of_scanned :
    (w : Bytes) (b : ℕ) (v : Bytes)
    → w ≡ b ∷ v
    → is_ident_start b ≡ true
    → All (λ b. is_ident_byte b ≡ true) w
    → w ≢ legacy_covenant_id
    → find (starts_with w) reserved_prefixes ≡ none
    → IsIdent w
IsIdent-of_scanned [] b v e h all fine free = cc
IsIdent-of_scanned (x ∷ w) b v e h all fine free =
    let same : b ≡ x = cc in (rw same at h, all.1, fine, free)

-- What is left of a word that was scanned from `pos` to `end`.
pub push_ident-Safe :
    (from_str : FromStr) (pos : ℕ) (rest : Bytes) (tokens : List Token) (bound : ℕ)
    (end : ℕ × Bytes) (w : Bytes) (b : ℕ) (v : Bytes)
    → pos ≤ bound
    → w ≡ b ∷ v
    → is_ident_start b ≡ true
    → Consumes pos rest w end
    → All (λ b. is_ident_byte b ≡ true) w
    → Stops is_ident_byte end.1
    → is_boundary end.1 ≡ true
    → Safe (Stepped from_str pos rest tokens) bound (push_ident pos end tokens w)
unfolding push_ident
push_ident-Safe from_str pos rest tokens bound end w b v near first start consumed all stops
      boundary =
    elim (Bool-cases (eqb w legacy_covenant_id)) [
      | inl e ↦ rw e near
      | inr fine ↦ rw fine (elim (Option-cases (find (starts_with w) reserved_prefixes)) [
        | inr (prefix, e) ↦ rw e near
        | inl free ↦ rw free (record {
          word = w;
          consumed = consumed.0;
          advanced = consumed.1;
          progress = rw first (omega arith);
          boundary = boundary;
          outcome = inr (
            ident w,
            refl,
            (
              refl,
              IsIdent-of_scanned w b v first start all
                  (λ same. ground (arith, eqb_iff w legacy_covenant_id)) free,
            ),
            stops,
          );
        })
      ])
    ]

pub IsNumber-length : (w : Bytes) → IsNumber w → 1 ≤ length w
IsNumber-length w (hex x v l d) = omega arith
IsNumber-length w (decimal b v l d) = omega arith
IsNumber-length w (exponent b e v u h l k d) = omega arith

-- The value of the literal, or the error of its text.
pub lex_string_value :
    (from_str : FromStr) (pos b : ℕ) (after : Bytes) (tokens : List Token) (bound : ℕ)
    (end : ℕ × Bytes) (w : Bytes)
    → pos ≤ bound
    → b ≡ b'"'
    → b ∷ after ≡ b ∷ w ++ end.1
    → end.0 ≡ pos + 1 + length w
    → Quoted w
    → is_boundary end.1 ≡ true
    → Safe
        (Stepped from_str pos (b ∷ after) tokens)
        bound
        (push_str from_str pos end tokens (b ∷ w))
unfolding push_str
lex_string_value from_str pos b after tokens bound end w near h whole at quoted boundary =
    elim (Result-cases (from_str (b ∷ w))) [
      | inr (message, e) ↦
          let step : push_str from_str pos end tokens (b ∷ w)
              ≡ error_at pos (invalid_string_literal message) =
            ground arith in
          rw step near
      | inl (value, e) ↦
          let step : push_str from_str pos end tokens (b ∷ w)
              ≡ ok (push (str value) pos end tokens) =
            ground arith in
          rw step (record {
            word = b ∷ w;
            consumed = whole;
            advanced = omega (arith, at);
            progress = omega arith;
            boundary = boundary;
            outcome = inr (str value, refl, (w, ap (λ x. x ∷ w) h, quoted, e), tt);
          })
    ]

pub IsTrivia-length : (w : Bytes) → IsTrivia w → 1 ≤ length w
IsTrivia-length w (blank b h) = omega arith
IsTrivia-length w (line v h) = omega arith
IsTrivia-length w (block v h) = omega arith

abbrev pub not_newline : ℕ → Bool
not_newline b = not (b == b'\n')

pub line-of_scanned :
    (w : Bytes) (b : ℕ) (after rest : Bytes)
    → b ≡ b'/'
    → peek_is b'/' after ≡ true
    → b ∷ after ≡ w ++ rest
    → All (λ b. not_newline b ≡ true) w
    → Stops not_newline rest
    → IsTrivia w
line-of_scanned [] b after [] h k e all stops = cc
line-of_scanned [] b after (x ∷ rest) h k e all stops =
    let same : x ≡ b'/' = cc in absurd (ground arith)
line-of_scanned (x ∷ []) b [] rest h k e all stops = cc
line-of_scanned (x ∷ []) b (c ∷ after) [] h k e all stops = cc
line-of_scanned (x ∷ []) b (c ∷ after) (y ∷ rest) h k e all stops =
    let slash : c ≡ b'/' = ground (arith, ==_iff c b'/') in
    let same : y ≡ b'/' = cc in absurd (ground arith)
line-of_scanned (x ∷ y ∷ w) b [] rest h k e all stops = cc
line-of_scanned (x ∷ y ∷ w) b (c ∷ after) rest h k e all stops =
    let slash : c ≡ b'/' = ground (arith, ==_iff c b'/') in
    let first : x ≡ b'/' = cc in let second : y ≡ b'/' = cc in rw (first, second) (line w all.1.1)

pub newline-boundary : (rest : Bytes) → Stops not_newline rest → is_boundary rest ≡ true
newline-boundary [] h = refl
newline-boundary (b ∷ rest) h = ground (arith, ==_iff b b'\n')

pub block_comment-Stepped :
    (from_str : FromStr) (pos b : ℕ) (after : Bytes) (tokens : List Token) (bound : ℕ)
    → pos ≤ bound
    → IsText (b ∷ after)
    → b ≡ b'/'
    → peek_is b'*' after ≡ true
    → Safe
        (λ end. Stepped from_str pos (b ∷ after) tokens (lexer_at end.0 end.1 tokens))
        bound
        (block_comment pos 1 (pos + 2) (drop 1 after))
block_comment-Stepped from_str pos b [] tokens bound near text h k = cc
block_comment-Stepped from_str pos b (c ∷ rest) tokens bound near text h k =
    let star : c ≡ b'*' = ground (arith, ==_iff c b'*') in
    Safe-weaken (Commented 1 (pos + 2) rest) _ bound (block_comment pos 1 (pos + 2) rest)
      (block_comment-Safe pos 0 (pos + 2) rest bound near text.1.1)
      (λ end (w, consumed, comment, boundary). record {
        word = b ∷ c ∷ w;
        consumed = ap (λ r. b ∷ c ∷ r) consumed.0;
        advanced = omega (arith, consumed.1);
        progress = omega arith;
        boundary = boundary;
        outcome = inl (refl, rw (h, star) (block w comment));
      })

pub arrow-Stepped :
    (from_str : FromStr) (pos b : ℕ) (after : Bytes) (tokens : List Token)
    → IsText (b ∷ after)
    → b ≡ b'-'
    → peek_is b'>' after ≡ true
    → Stepped from_str pos (b ∷ after) tokens (push arrow pos (pos + 2, drop 1 after) tokens)
arrow-Stepped from_str pos b [] tokens text h k = cc
arrow-Stepped from_str pos b (c ∷ rest) tokens text h k =
    let head : c ≡ b'>' = ground (arith, ==_iff c b'>') in
    record {
      word = b ∷ c ∷ [];
      consumed = refl;
      advanced = refl;
      progress = omega arith;
      boundary = text.1.0 (rw head refl);
      outcome = inr (arrow, refl, rw (h, head) refl, tt);
    }

pub symbol_ascii : (b : ℕ) → is_symbol b ≡ true → ltb b 128 ≡ true
symbol_ascii b h = ground arith
