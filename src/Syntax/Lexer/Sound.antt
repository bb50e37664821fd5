-- ===== src/Syntax/Lexer/Sound.antt =====
-- src/compiler/syntax/lexer.rs: the loop of the lexer divides the source into trivia and tokens, and
-- ends.
use argent.Base.{
  ℕ, zero, suc, ◌+◌, ◌≤◌, ◌<◌, ◌≡◌, refl, sym, ap, ◌∙◌, inl, inr, true, List, [], ◌∷◌, ◌++◌, length,
  length-append, append_assoc, arith, Text, Bytes, ok,
}
use argent.Syntax.Lexer.Tokens.{Token, eof, Lexer}
use argent.Syntax.Lexer.{FromStr, is_boundary, lex_byte, run, lex_argent_source}
use argent.Syntax.Lexer.Grammar.{Divides, finished, skipped, spelled, spanned}
use argent.Syntax.Lexer.Scans.{IsText, Safe, Safe-bind, Safe-weaken, IsText-rest}
use argent.Syntax.Lexer.Words.{lexer_at, Stepped}
use argent.Syntax.Lexer.Steps.{lex_byte-Safe}

-- Each span starts after the one before it, or at its end, and lies within the bounds.
abbrev pub Ordered : ℕ → ℕ → List Token → Type 0
Ordered low high [] = Unit
Ordered low high (t ∷ ts) =
    (low ≤ t.span.start)
    × (t.span.start ≤ t.span.end)
    × (t.span.end ≤ high)
    × Ordered t.span.end high ts

Ordered-weaken :
    (low pos high : ℕ) (tokens : List Token)
    → low ≤ pos
    → Ordered pos high tokens
    → Ordered low high tokens
Ordered-weaken low pos high [] le h = tt
Ordered-weaken low pos high (t ∷ ts) le h = (omega (arith, h.0), h.1, h.2, h.3)

Divides-Ordered :
    (from_str : FromStr) (pos : ℕ) (source : Bytes) (tokens : List Token) (high : ℕ)
    → pos + length source ≤ high
    → Divides from_str pos source tokens
    → Ordered pos high tokens
Divides-Ordered from_str pos source tokens high le (finished at) =
    (omega arith, omega arith, omega (arith, le), tt)
Divides-Ordered from_str pos source tokens high le (skipped p end s w rest ts e f trivia more) =
    let total : length s ≡ length w + length rest = ap length e ∙ length-append w rest in
    Ordered-weaken pos end high ts (omega (arith, f))
      (Divides-Ordered from_str end rest ts high (omega (arith, le, total, f)) more)
Divides-Ordered from_str pos source tokens high le
      (spelled p end s w rest kind ts e f spells maximal more) =
    let total : length s ≡ length w + length rest = ap length e ∙ length-append w rest in
    (
      omega arith,
      omega (arith, f),
      omega (arith, le, total, f),
      Divides-Ordered from_str end rest ts high (omega (arith, le, total, f)) more,
    )

-- The tokens so far, followed by those of the rest.
abbrev Lexed : FromStr → ℕ → Bytes → List Token → List Token → Type 0
Lexed from_str pos rest tokens out =
    (more : List Token) × (out ≡ tokens ++ more) × Divides from_str pos rest more

Lexed-step :
    (from_str : FromStr) (pos : ℕ) (rest : Bytes) (tokens : List Token) (next : Lexer)
    (out : List Token)
    → Stepped from_str pos rest tokens next
    → Lexed from_str next.pos next.rest next.tokens out
    → Lexed from_str pos rest tokens out
Lexed-step from_str pos rest tokens next out stepped (more, whole, divides) = elim stepped.outcome [
  | inl (same, trivia) ↦ (
    more,
    rw (sym same) whole,
    skipped pos next.pos rest stepped.word next.rest more stepped.consumed stepped.advanced trivia
        divides,
  )
  | inr (kind, pushed, spells, maximal) ↦ (
    spanned from_str kind pos next.pos ∷ more,
    whole ∙ ap (λ t. t ++ more) pushed ∙ append_assoc tokens (_ ∷ []) more,
    spelled pos next.pos rest stepped.word next.rest kind more stepped.consumed stepped.advanced
        spells maximal divides,
  )
]

module _ (from_str : FromStr) where
  run-Safe :
      (rounds pos : ℕ) (rest : Bytes) (tokens : List Token) (bound : ℕ)
      → length rest < rounds
      → pos + length rest ≤ bound
      → IsText rest
      → is_boundary rest ≡ true
      → Safe (Lexed from_str pos rest tokens) bound (run from_str rounds (lexer_at pos rest tokens))
  unfolding run
  run-Safe zero pos rest tokens bound enough far text start = absurd (omega arith)
  run-Safe (suc rounds) pos [] tokens bound enough far text start =
      (spanned from_str eof pos pos ∷ [], refl, finished pos)
  run-Safe (suc rounds) pos (b ∷ after) tokens bound enough far text start =
      Safe-bind (Stepped from_str pos (b ∷ after) tokens) (Lexed from_str pos (b ∷ after) tokens)
        bound (lex_byte from_str (lexer_at pos (b ∷ after) tokens) b after) (run from_str rounds)
        (lex_byte-Safe from_str pos b after tokens bound (omega (arith, far)) text start far)
        (λ next stepped.
          let total : suc (length after) ≡ length stepped.word + length next.rest =
            ap length stepped.consumed ∙ length-append stepped.word next.rest in
          Safe-weaken (Lexed from_str next.pos next.rest next.tokens)
            (Lexed from_str pos (b ∷ after) tokens) bound (run from_str rounds next)
            (run-Safe rounds next.pos next.rest next.tokens bound
              (omega (arith, enough, total, stepped.progress))
              (omega (arith, far, total, stepped.advanced))
              (IsText-rest (b ∷ after) stepped.word next.rest stepped.consumed text)
              stepped.boundary)
            (λ out lexed. Lexed-step from_str pos (b ∷ after) tokens next out stepped lexed))

  -- On a source whose bytes are those of a str, the lexer ends without a panic, with the tokens of a
  -- division of the source into blanks, comments and spellings, each token at the span of its
  -- spelling and the end of the source last, or with an error at an offset within the source.
  pub lex_argent_source-Divides :
      (source : Text)
      → IsText source
      → is_boundary source ≡ true
      → Safe (Divides from_str 0 source) (length source) (lex_argent_source from_str source)
  unfolding lex_argent_source
  lex_argent_source-Divides source text start =
      Safe-weaken (Lexed from_str 0 source []) (Divides from_str 0 source) (length source)
        (run from_str (suc (length source)) (lexer_at 0 source []))
        (run-Safe (suc (length source)) 0 source [] (length source) (omega arith) (omega arith) text
          start)
        (λ out (more, same, divides). rw same divides)

  -- The tokens of a source have spans within it, in order and disjoint.
  pub lex_argent_source-Ordered :
      (source : Text) (tokens : List Token)
      → IsText source
      → is_boundary source ≡ true
      → lex_argent_source from_str source ≡ ok tokens
      → Ordered 0 (length source) tokens
  lex_argent_source-Ordered source tokens text start h =
      Divides-Ordered from_str 0 source tokens (length source) (omega arith)
        (rw h at (lex_argent_source-Divides source text start))
