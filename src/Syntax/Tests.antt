-- ===== src/Syntax/Tests.antt =====
-- Runs of the lexer on small sources, and instances of its theorems.
use argent.Base.{
  ℕ, ◌^◌, ◌≡◌, refl, ltb, none, some, List, [], ◌∷◌, length, if◌then◌else◌, Text, bytes, ok, pos,
  negsuc, ◌*◌, ◌&&◌,
}
use argent.Syntax.Lexer.Tokens.{
  Token, TokenKind, ident, number, str, arrow, symbol, eof, error_at, unterminated_block_comment,
  reserved_namespace,
}
use argent.Syntax.Lexer.{FromStr, lex_argent_source, slice, number_end, push_ident, push_str}
use argent.Syntax.Lexer.Grammar.{Divides}
use argent.Syntax.Lexer.Scans.{IsText, Safe}
use argent.Syntax.Lexer.Sound.{Ordered, lex_argent_source-Divides, lex_argent_source-Ordered}
use argent.Syntax.Lexer.NumberValue.{parse_number_value, without_underscores}
use argent.Syntax.Lexer.NumberValue.Decimal.{positional, parse_number_value-positional}
use argent.Syntax.Lexer.NumberValue.Scaled.{parse_number_value-scaled}

-- The text between the quotes.
abbrev raw_str : FromStr
raw_str = λ text. ok text

abbrev at : TokenKind → ℕ → ℕ → Token
at kind start end = record { kind = kind; span = record { start = start; end = end } }

lexes_entry :
    lex_argent_source raw_str (bytes "a1/*x/*y*/*/->0xF // z\n 1_0e3;\"\\\"\"")
    ≡ ok (
        at (ident (bytes "a1")) 0 2
        ∷ at arrow 12 14
        ∷ at (number (bytes "0xF")) 14 17
        ∷ at (number (bytes "1_0e3")) 24 29
        ∷ at (symbol b';') 29 30
        ∷ at (str (bytes "\"\\\"\"")) 30 34
        ∷ at eof 34 34
        ∷ [])
unfolding lex_argent_source slice number_end push_ident push_str
lexes_entry = refl

refuses_open_comment :
    lex_argent_source raw_str (bytes "a /* /* */") ≡ error_at 2 unterminated_block_comment
unfolding lex_argent_source slice number_end push_ident push_str
refuses_open_comment = refl

refuses_reserved :
    lex_argent_source raw_str (bytes "x gen__y")
    ≡ error_at 2 (reserved_namespace (bytes "gen__y") (bytes "gen__"))
unfolding lex_argent_source slice number_end push_ident push_str
refuses_reserved = refl

abbrev arrow_source : Text
arrow_source = bytes "a->1"

arrow_source-IsText : IsText arrow_source
arrow_source-IsText = (λ h. refl, (λ h. refl, (λ h. refl, (λ h. refl, tt))))

lex_argent_source-Divides_example :
    Safe
      (Divides raw_str 0 arrow_source)
      (length arrow_source)
      (lex_argent_source raw_str arrow_source)
lex_argent_source-Divides_example =
    lex_argent_source-Divides raw_str arrow_source arrow_source-IsText refl

abbrev arrow_tokens : List Token
arrow_tokens =
    at (ident (bytes "a")) 0 1 ∷ at arrow 1 3 ∷ at (number (bytes "1")) 3 4 ∷ at eof 4 4 ∷ []

lexes_arrow : lex_argent_source raw_str arrow_source ≡ ok arrow_tokens
unfolding lex_argent_source slice number_end push_ident push_str
lexes_arrow = refl

lex_argent_source-Ordered_example : Ordered 0 (length arrow_source) arrow_tokens
lex_argent_source-Ordered_example =
    lex_argent_source-Ordered raw_str arrow_source arrow_tokens arrow_source-IsText refl lexes_arrow

values :
    (parse_number_value (bytes "1_0e3") ≡ some (pos 10000))
    × (parse_number_value (bytes "0xfF") ≡ some (pos 255))
    × (parse_number_value (bytes "0x8000000000000000") ≡ none)
    × (parse_number_value (bytes "-5") ≡ some (negsuc 4))
    × (parse_number_value (bytes "0e39") ≡ none)
unfolding parse_number_value
values = (refl, refl, refl, refl, refl)

parse_number_value-positional_example : parse_number_value (bytes "4_2") ≡ (
    let n = positional (without_underscores (bytes "4_2")) in
    if ltb n (2 ^ 63) then some (pos n) else none)
parse_number_value-positional_example =
    parse_number_value-positional b'4' (bytes "_2") refl (refl, (refl, tt))

hex_value : parse_number_value (bytes "0xfF") ≡ some (pos 255)
unfolding parse_number_value
hex_value = refl

parse_number_value-scaled_example : parse_number_value (bytes "1_0E0_3") ≡ (
    let n = positional (without_underscores (bytes "1_0")) in
    let k = positional (without_underscores (bytes "0_3")) in
    if ltb (10 ^ k) (2 ^ 127) && ltb (n * 10 ^ k) (2 ^ 63) then some (pos (n * 10 ^ k)) else none)
parse_number_value-scaled_example =
    parse_number_value-scaled b'1' b'E' b'0' (bytes "_0") (bytes "_3") refl refl refl
      (refl, (refl, tt)) (refl, (refl, tt))
