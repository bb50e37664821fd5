-- ===== src/Syntax/Lexer/Grammar.antt =====
-- The words of the language, independently of the lexer: blanks, comments and the spellings of tokens,
-- and the division of a source into them.
use argent.Base.{
  ℕ, suc, ◌+◌, ◌≡◌, ◌≢◌, ◌⊎◌, Bool, true, false, ◌&&◌, not, ◌==◌, none, List, [], ◌∷◌, ◌++◌, length,
  find, All, Bytes, ok,
}
use argent.Collections.Slices.{starts_with}
use argent.Syntax.Lexer.Tokens.{Token, TokenKind, ident, number, str, arrow, symbol, eof}
use argent.Syntax.Lexer.{
  FromStr, is_digit, is_hex_digit, is_digit_or_underscore, is_ident_start, is_ident_byte, is_blank,
  is_symbol, legacy_covenant_id, reserved_prefixes,
}

-- The bytes do not start with one that satisfies the test.
abbrev pub Stops : (ℕ → Bool) → Bytes → Type 0
Stops p [] = Unit
Stops p (b ∷ rest) = p b ≡ false

-- The rest of a block comment from inside this many levels.
pub data Comment : ℕ → Bytes → Type 0 where
  close : Comment 1 (b'*' ∷ b'/' ∷ [])
  leave :
      (depth : ℕ) (w : Bytes) → Comment (suc depth) w → Comment (suc (suc depth)) (b'*' ∷ b'/' ∷ w)
  enter : (depth : ℕ) (w : Bytes) → Comment (suc depth) w → Comment depth (b'/' ∷ b'*' ∷ w)
  inside :
      (depth b c : ℕ) (w : Bytes)
      → (b == b'/') && (c == b'*') ≡ false
      → (b == b'*') && (c == b'/') ≡ false
      → Comment depth (c ∷ w)
      → Comment depth (b ∷ c ∷ w)

-- The rest of a string literal after its opening quote.
pub data Quoted : Bytes → Type 0 where
  quote : Quoted (b'"' ∷ [])
  escape : (c : ℕ) (w : Bytes) → Quoted w → Quoted (b'\\' ∷ c ∷ w)
  plain : (b : ℕ) (w : Bytes) → b ≢ b'"' → b ≢ b'\\' → Quoted w → Quoted (b ∷ w)

pub data IsTrivia : Bytes → Type 0 where
  blank : (b : ℕ) → is_blank b ≡ true → IsTrivia (b ∷ [])
  line : (w : Bytes) → All (λ b. not (b == b'\n') ≡ true) w → IsTrivia (b'/' ∷ b'/' ∷ w)
  block : (w : Bytes) → Comment 1 w → IsTrivia (b'/' ∷ b'*' ∷ w)

pub data IsNumber : Bytes → Type 0 where
  hex :
      (x : ℕ) (w : Bytes)
      → (x ≡ b'x') ⊎ (x ≡ b'X')
      → All (λ b. is_hex_digit b ≡ true) w
      → IsNumber (b'0' ∷ x ∷ w)
  decimal :
      (b : ℕ) (w : Bytes)
      → is_digit b ≡ true
      → All (λ b. is_digit_or_underscore b ≡ true) w
      → IsNumber (b ∷ w)
  exponent :
      (b e : ℕ) (v w : Bytes)
      → is_digit b ≡ true
      → All (λ b. is_digit_or_underscore b ≡ true) v
      → (e ≡ b'e') ⊎ (e ≡ b'E')
      → All (λ b. is_digit_or_underscore b ≡ true) w
      → IsNumber (b ∷ v ++ e ∷ w)

-- The identifier is not the old name of the covenant id, and not in a reserved namespace.
abbrev pub IsIdent : Bytes → Type 0
IsIdent [] = ⊥
IsIdent (b ∷ w) =
    (is_ident_start b ≡ true)
    × All (λ b. is_ident_byte b ≡ true) w
    × ((b ∷ w) ≢ legacy_covenant_id)
    × (find (starts_with (b ∷ w)) reserved_prefixes ≡ none)

module _ (from_str : FromStr) where
  -- The word spells the token.
  abbrev pub Spells : TokenKind → Bytes → Type 0
  Spells (ident name) w = (name ≡ w) × IsIdent w
  Spells (number text) w = (text ≡ w) × IsNumber w
  Spells (str value) w = (body : Bytes) × (w ≡ b'"' ∷ body) × Quoted body × (from_str w ≡ ok value)
  Spells arrow w = w ≡ b'-' ∷ b'>' ∷ []
  Spells (symbol b) w = (w ≡ b ∷ []) × (is_symbol b ≡ true)
  Spells eof w = ⊥

  -- No identifier is cut short.
  abbrev pub Maximal : TokenKind → Bytes → Type 0
  Maximal (ident name) rest = Stops is_ident_byte rest
  Maximal kind rest = Unit

  abbrev pub spanned : TokenKind → ℕ → ℕ → Token
  spanned kind start end = record { kind = kind; span = record { start = start; end = end } }

  -- From this position on the source is trivia and the spellings of these tokens, each at its span,
  -- and the last token is the end of the source.
  pub data Divides : ℕ → Bytes → List Token → Type 0 where
    finished : (pos : ℕ) → Divides pos [] (spanned eof pos pos ∷ [])
    skipped :
        (pos end : ℕ) (source w rest : Bytes) (tokens : List Token)
        → source ≡ w ++ rest
        → end ≡ pos + length w
        → IsTrivia w
        → Divides end rest tokens
        → Divides pos source tokens
    spelled :
        (pos end : ℕ) (source w rest : Bytes) (kind : TokenKind) (tokens : List Token)
        → source ≡ w ++ rest
        → end ≡ pos + length w
        → Spells kind w
        → Maximal kind rest
        → Divides end rest tokens
        → Divides pos source (spanned kind pos end ∷ tokens)
