-- ===== src/Syntax/Lexer/Steps.antt =====
-- src/compiler/syntax/lexer.rs: one round of the lexer's loop.
use argent.Base.{
  ℕ, ◌+◌, ◌-◌, ◌≤◌, ◌≡◌, ◌⊎◌, refl, sym, ap, inl, inr, true, false, ◌&&◌, ltb, ◌==◌, ==_iff, List,
  [], ◌∷◌, ◌++◌, length, take, drop, arith, Text, Bytes, ok,
}
use argent.Collections.Order.{bytes_ord}
use argent.Syntax.Lexer.Tokens.{TokenKind, number, symbol, Token, Lexer}
use argent.Syntax.Lexer.{
  FromStr, is_boundary, skip_while, is_ident_start, is_ident_byte, is_digit, is_blank, is_symbol,
  peek_is, number_end, string_body, block_comment, lex_ident, lex_number, lex_string,
  skip_line_comment, skip_block_comment, lex_byte, first_char, is_continuation,
}
use argent.Syntax.Lexer.Grammar.{IsTrivia, blank, Spells, Maximal, spanned}
use argent.Syntax.Lexer.Scans.{
  IsText, Safe, Safe-bind, Safe-if, skip_while-Scanned, skip_while-boundary, slice_lem,
  Scanned-first,
}
use argent.Syntax.Lexer.Numbers.{number_end-Numbered}
use argent.Syntax.Lexer.Bodies.{Closed, string_body-Safe}
use argent.Syntax.Lexer.Words.{
  ident_byte_ascii, push_ident-Safe, IsNumber-length, lex_string_value, IsTrivia-length,
  line-of_scanned, newline-boundary, block_comment-Stepped, arrow-Stepped, symbol_ascii, lexer_at,
  Stepped, not_newline,
}

module _ (from_str : FromStr) (pos b : ℕ) (after : Bytes) (tokens : List Token) (bound : ℕ)
    (near : pos ≤ bound) (text : IsText (b ∷ after)) (start : is_boundary (b ∷ after) ≡ true) where
  lex_ident-Safe :
      is_ident_start b ≡ true
      → Safe
          (Stepped from_str pos (b ∷ after) tokens)
          bound
          (lex_ident from_str (lexer_at pos (b ∷ after) tokens))
  unfolding lex_ident
  lex_ident-Safe h =
      let end = skip_while is_ident_byte pos (b ∷ after) in
      let scanned = skip_while-Scanned is_ident_byte pos (b ∷ after) in
      let (w, consumed, all, stops) = scanned in
      let first = Scanned-first is_ident_byte pos b after end (ground arith) scanned in
      let boundary =
        skip_while-boundary is_ident_byte ident_byte_ascii pos (b ∷ after) text start in
      let sliced = slice_lem (b ∷ after) w end.1 consumed.0 start boundary in
      rw sliced (
        push_ident-Safe from_str pos (b ∷ after) tokens bound end w b first.0 near first.1 h
          consumed all stops boundary)

  lex_number-Safe :
      is_digit b ≡ true
      → Safe
          (Stepped from_str pos (b ∷ after) tokens)
          bound
          (lex_number from_str (lexer_at pos (b ∷ after) tokens))
  unfolding lex_number
  lex_number-Safe h =
      let (w, consumed, numbered, boundary) = number_end-Numbered pos b after h text start in
      let sliced =
        slice_lem (b ∷ after) w (number_end pos (b ∷ after)).1 consumed.0 start boundary in
      rw sliced (record {
        word = w;
        consumed = consumed.0;
        advanced = consumed.1;
        progress = IsNumber-length w numbered;
        boundary = boundary;
        outcome = inr (number w, refl, (refl, numbered), tt);
      })

  lex_string-Safe :
      b ≡ b'"'
      → pos + length (b ∷ after) ≤ bound
      → Safe
          (Stepped from_str pos (b ∷ after) tokens)
          bound
          (lex_string from_str (lexer_at pos (b ∷ after) tokens))
  unfolding lex_string
  lex_string-Safe h far =
      Safe-bind (Closed (pos + 1) after) (Stepped from_str pos (b ∷ after) tokens) bound
        (string_body pos (pos + 1) after) _
        (string_body-Safe pos (pos + 1) after bound near (omega (arith, far)) text.1)
        (λ end (w, consumed, quoted, boundary).
          let whole : b ∷ after ≡ b ∷ w ++ end.1 = ap (λ r. b ∷ r) consumed.0 in
          let sliced = slice_lem (b ∷ after) (b ∷ w) end.1 whole start boundary in
          rw sliced (
            lex_string_value from_str pos b after tokens bound end w near h whole consumed.1 quoted
              boundary))

  skip_line_comment-Stepped :
      b ≡ b'/'
      → peek_is b'/' after ≡ true
      → Stepped from_str pos
          (b ∷ after)
          tokens
          (skip_line_comment from_str (lexer_at pos (b ∷ after) tokens))
  unfolding skip_line_comment
  skip_line_comment-Stepped h k =
      let scanned = skip_while-Scanned not_newline pos (b ∷ after) in
      let (w, consumed, all, stops) = scanned in
      let end = skip_while not_newline pos (b ∷ after) in
      let trivia = line-of_scanned w b after end.1 h k consumed.0 all stops in
      record {
        word = w;
        consumed = consumed.0;
        advanced = consumed.1;
        progress = IsTrivia-length w trivia;
        boundary = newline-boundary end.1 stops;
        outcome = inl (refl, trivia);
      }

  skip_block_comment-Safe :
      b ≡ b'/'
      → peek_is b'*' after ≡ true
      → Safe
          (Stepped from_str pos (b ∷ after) tokens)
          bound
          (skip_block_comment from_str (lexer_at pos (b ∷ after) tokens))
  unfolding skip_block_comment
  skip_block_comment-Safe h k =
      Safe-bind _ (Stepped from_str pos (b ∷ after) tokens) bound
        (block_comment pos 1 (pos + 2) (drop 1 after)) _
        (block_comment-Stepped from_str pos b after tokens bound near text h k)
        (λ end stepped. stepped)

  first_char_ok : (text : Text) × (first_char b after ≡ ok text)
  unfolding first_char
  first_char_ok =
      let fine : is_continuation b ≡ false = ground arith in
      (b ∷ take (length after - length (skip_while is_continuation 0 after).1) after, ground arith)

  -- One ASCII byte that is a word of its own.
  byte-Stepped :
      (next : Lexer)
      → next.pos ≡ pos + 1
      → next.rest ≡ after
      → ltb b 128 ≡ true
      → ((next.tokens ≡ tokens) × IsTrivia (b ∷ []))
        ⊎ ((kind : TokenKind) × (next.tokens ≡ tokens ++ spanned from_str kind pos next.pos ∷ [])
            × Spells from_str kind (b ∷ [])
            × Maximal from_str kind next.rest)
      → Stepped from_str pos (b ∷ after) tokens next
  byte-Stepped next at left ascii outcome = record {
    word = b ∷ [];
    consumed = ap (λ r. b ∷ r) (sym left);
    advanced = at;
    progress = omega arith;
    boundary = rw left (text.0 ascii);
    outcome = outcome;
  }

  pub lex_byte-Safe :
      pos + length (b ∷ after) ≤ bound
      → Safe
          (Stepped from_str pos (b ∷ after) tokens)
          bound
          (lex_byte from_str (lexer_at pos (b ∷ after) tokens) b after)
  unfolding lex_byte
  lex_byte-Safe far =
      Safe-if _ _ (is_blank b) _ _
        (λ e. byte-Stepped _ refl refl (ground arith) (inl (refl, blank b e)))
        (λ _.
          Safe-if _ _ ((b == b'/') && peek_is b'/' after) _ _
            (λ e. skip_line_comment-Stepped (ground (arith, ==_iff b b'/')) (ground arith))
            (λ _.
              Safe-if _ _ ((b == b'/') && peek_is b'*' after) _ _
                (λ e. skip_block_comment-Safe (ground (arith, ==_iff b b'/')) (ground arith))
                (λ _.
                  Safe-if _ _ (b == b'"') _ _ (λ e. lex_string-Safe ((==_iff b b'"').0 e) far)
                    (λ _. Safe-if _ _ (is_digit b) _ _ lex_number-Safe (λ _.
                      Safe-if _ _ (is_ident_start b) _ _ lex_ident-Safe (λ _.
                        Safe-if _ _ ((b == b'-') && peek_is b'>' after) _ _
                          (λ e.
                            arrow-Stepped from_str pos b after tokens text
                              (ground (arith, ==_iff b b'-')) (ground arith))
                          (λ _.
                            Safe-if _ _ (is_symbol b) _ _
                              (λ e.
                                byte-Stepped _ refl refl (symbol_ascii b e)
                                  (inr (symbol b, refl, (refl, e), tt)))
                              (λ _. rw (first_char_ok.1) near))))))))
