-- ===== src/Syntax/Lexer.antt =====
-- src/compiler/syntax/lexer.rs: the lexer. It keeps the position and, instead of indexing the source
-- with it, the bytes from there on. A slice of the source that does not start and end at character
-- boundaries is a panic.
pub mod Tokens
pub mod Grammar
pub mod Scans
pub mod Bodies
pub mod Numbers
pub mod Words
pub mod NumberValue
pub mod Steps
pub mod Sound
use argent.Base.{
  ℕ, zero, suc, ◌+◌, ◌-◌, Bool, true, false, ◌&&◌, ◌||◌, not, ◌==◌, leb, ltb, Option, none, some,
  List, [], ◌∷◌, ◌++◌, length, take, drop, find, any, if◌then◌else◌, Text, Bytes, bytes, Result, ok,
  err, ◌>>=◌,
}
use argent.Collections.Order.{eqb, bytes_ord}
use argent.Collections.Slices.{starts_with}
use argent.Syntax.Lexer.Tokens.{
  LexError, LexFailure, LexMessage, Lexer, Span, Token, TokenKind, arrow, eof, error_at, exhausted,
  ident, invalid_string_literal, number, panicked, raised, renamed, reserved_namespace, str, symbol,
  unexpected_character, unterminated_block_comment, unterminated_string, unterminated_string_escape,
}

abbrev pub in_range : ℕ → ℕ → ℕ → Bool
in_range low high b = leb low b && leb b high

abbrev pub is_digit : ℕ → Bool
is_digit b = in_range b'0' b'9' b

abbrev pub is_hex_digit : ℕ → Bool
is_hex_digit b = is_digit b || in_range b'a' b'f' b || in_range b'A' b'F' b

abbrev pub is_ident_start : ℕ → Bool
is_ident_start b = in_range b'a' b'z' b || in_range b'A' b'Z' b || (b == b'_')

abbrev pub is_ident_byte : ℕ → Bool
is_ident_byte b = is_ident_start b || is_digit b

abbrev pub is_digit_or_underscore : ℕ → Bool
is_digit_or_underscore b = is_digit b || (b == b'_')

abbrev pub is_blank : ℕ → Bool
is_blank b = (b == b' ') || (b == b'\t') || (b == b'\r') || (b == b'\n')

abbrev pub symbols : Bytes
symbols = bytes "{}()[];:,|&^!=+-*/%<>."

abbrev pub is_symbol : ℕ → Bool
is_symbol b = any (λ s. b == s) symbols

-- A byte that continues a character.
abbrev pub is_continuation : ℕ → Bool
is_continuation b = in_range 128 191 b

-- `is_char_boundary` at the start of these bytes.
abbrev pub is_boundary : Bytes → Bool
is_boundary [] = true
is_boundary (b ∷ rest) = not (is_continuation b)

-- The slice of the source between the position of `from` and that of `to`.
unfoldable pub slice : Bytes → Bytes → Result Text LexFailure
slice from to =
    if is_boundary from && is_boundary to
    then ok (take (length from - length to) from)
    else err panicked

-- `while matches!(self.peek_byte(0), Some(..)) { self.pos += 1; }`.
abbrev pub skip_while : (ℕ → Bool) → ℕ → Bytes → ℕ × Bytes
skip_while p pos [] = (pos, [])
skip_while p pos (b ∷ rest) = elim (p b) [
  | true ↦ skip_while p (pos + 1) rest
  | false ↦ (pos, b ∷ rest)
]

-- `self.source[self.pos..].chars().next()`: the byte with those that continue it.
unfoldable pub first_char : ℕ → Bytes → Result Text LexFailure
first_char b after =
    if is_continuation b
    then err panicked
    else ok (b ∷ take (length after - length (skip_while is_continuation 0 after).1) after)

abbrev pub peek_is : ℕ → Bytes → Bool
peek_is b [] = false
peek_is b (c ∷ rest) = c == b

abbrev pub push : TokenKind → ℕ → ℕ × Bytes → List Token → Lexer
push kind start (pos, rest) tokens = record {
  pos = pos;
  rest = rest;
  tokens = tokens ++ record { kind = kind; span = record { start = start; end = pos } } ∷ [];
}

-- The loop of `skip_block_comment`; the comment starts at `start`.
abbrev pub block_comment : ℕ → ℕ → ℕ → Bytes → Result (ℕ × Bytes) LexFailure
block_comment start depth pos [] = error_at start unterminated_block_comment
block_comment start depth pos (b ∷ []) = error_at start unterminated_block_comment
block_comment start depth pos (b ∷ c ∷ rest) = elim ((b == b'/') && (c == b'*')) [
  | true ↦ block_comment start (depth + 1) (pos + 2) rest
  | false ↦ elim ((b == b'*') && (c == b'/')) [
    | true ↦ elim (depth - 1 == 0) [
      | true ↦ ok (pos + 2, rest)
      | false ↦ block_comment start (depth - 1) (pos + 2) rest
    ]
    | false ↦ block_comment start depth (pos + 1) (c ∷ rest)
  ]
]

-- The loop of `lex_string`, to the closing quote.
abbrev pub string_body : ℕ → ℕ → Bytes → Result (ℕ × Bytes) LexFailure
string_body start pos [] = error_at start unterminated_string
string_body start pos (b ∷ []) =
    if b == b'"'
    then ok (pos + 1, [])
    else if b == b'\\'
    then error_at (pos + 1) unterminated_string_escape
    else error_at start unterminated_string
string_body start pos (b ∷ c ∷ rest) = elim (b == b'"') [
  | true ↦ ok (pos + 1, c ∷ rest)
  | false ↦ elim (b == b'\\') [
    | true ↦ string_body start (pos + 2) rest
    | false ↦ string_body start (pos + 1) (c ∷ rest)
  ]
]

abbrev pub legacy_covenant_id : Text
legacy_covenant_id = bytes "covid"

abbrev pub covenant_id : Text
covenant_id = bytes "cov_id"

abbrev pub reserved_prefixes : List Text
reserved_prefixes = bytes "gen__" ∷ bytes "Gen__" ∷ []

-- `serde_json::from_str::<String>`; a failure is its text.
abbrev pub FromStr : Type 0
FromStr = Text → Result Text Text

abbrev pub starts_hex : Bytes → Bool
starts_hex [] = false
starts_hex (a ∷ []) = false
starts_hex (a ∷ b ∷ rest) = (a == b'0') && ((b == b'x') || (b == b'X'))

-- The exponent after the digits, if there is one.
abbrev pub exponent_end : ℕ × Bytes → ℕ × Bytes
exponent_end (pos, []) = (pos, [])
exponent_end (pos, e ∷ rest) =
    if (e == b'e') || (e == b'E')
    then skip_while is_digit_or_underscore (pos + 1) rest
    else (pos, e ∷ rest)

-- The end of a number that starts here.
unfoldable pub number_end : ℕ → Bytes → ℕ × Bytes
number_end pos rest =
    if starts_hex rest
    then skip_while is_hex_digit (pos + 2) (drop 2 rest)
    else exponent_end (skip_while is_digit_or_underscore pos rest)

-- The checks of the identifier that was read.
unfoldable pub push_ident : ℕ → ℕ × Bytes → List Token → Text → Result Lexer LexFailure
push_ident start end tokens name =
    if eqb name legacy_covenant_id
    then error_at start (renamed legacy_covenant_id covenant_id)
    else elim (find (starts_with name) reserved_prefixes) [
      | some prefix ↦ error_at start (reserved_namespace name prefix)
      | none ↦ ok (push (ident name) start end tokens)
    ]

module _ (from_str : FromStr) where
  -- The value of the literal that was read.
  unfoldable pub push_str : ℕ → ℕ × Bytes → List Token → Text → Result Lexer LexFailure
  push_str start end tokens raw = elim (from_str raw) [
    | err message ↦ error_at start (invalid_string_literal message)
    | ok value ↦ ok (push (str value) start end tokens)
  ]

  unfoldable pub lex_string : Lexer → Result Lexer LexFailure
  lex_string l = string_body l.pos (l.pos + 1) (drop 1 l.rest) >>= λ end.
      slice l.rest end.1 >>= push_str l.pos end l.tokens

  unfoldable pub lex_number : Lexer → Result Lexer LexFailure
  lex_number l =
      let end = number_end l.pos l.rest in
      slice l.rest end.1 >>= λ text. ok (push (number text) l.pos end l.tokens)

  unfoldable pub lex_ident : Lexer → Result Lexer LexFailure
  lex_ident l =
      let end = skip_while is_ident_byte l.pos l.rest in
      slice l.rest end.1 >>= push_ident l.pos end l.tokens

  abbrev pub moved : Lexer → ℕ × Bytes → Lexer
  moved l end = record l { pos = end.0; rest = end.1 }

  unfoldable pub skip_line_comment : Lexer → Lexer
  skip_line_comment l = moved l (skip_while (λ b. not (b == b'\n')) l.pos l.rest)

  unfoldable pub skip_block_comment : Lexer → Result Lexer LexFailure
  skip_block_comment l =
      block_comment l.pos 1 (l.pos + 2) (drop 2 l.rest) >>= λ end. ok (moved l end)

  -- The `match` on the byte at the position.
  unfoldable pub lex_byte : Lexer → ℕ → Bytes → Result Lexer LexFailure
  unfolding lex_string lex_number lex_ident skip_line_comment skip_block_comment
  lex_byte l b after =
      if is_blank b
      then ok (moved l (l.pos + 1, after))
      else if (b == b'/') && peek_is b'/' after
      then ok (skip_line_comment l)
      else if (b == b'/') && peek_is b'*' after
      then skip_block_comment l
      else if b == b'"'
      then lex_string l
      else if is_digit b
      then lex_number l
      else if is_ident_start b
      then lex_ident l
      else if (b == b'-') && peek_is b'>' after
      then ok (push arrow l.pos (l.pos + 2, drop 1 after) l.tokens)
      else if is_symbol b
      then ok (push (symbol b) l.pos (l.pos + 1, after) l.tokens)
      else first_char b after >>= λ unexpected. error_at l.pos (unexpected_character unexpected)

  -- The loop, with this many rounds left.
  unfoldable pub run : ℕ → Lexer → Result (List Token) LexFailure
  unfolding lex_byte
  run zero l = err exhausted
  run (suc rounds) l = elim l.rest [
    | [] ↦ ok (push eof l.pos (l.pos, []) l.tokens).tokens
    | b ∷ after ↦ lex_byte l b after >>= run rounds
  ]

  -- Every round but the last consumes a byte.
  unfoldable pub lex_argent_source : Text → Result (List Token) LexFailure
  unfolding run
  lex_argent_source source =
      run (suc (length source)) (record { pos = 0; rest = source; tokens = [] })
