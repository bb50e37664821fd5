-- ===== src/Syntax/Lexer/Tokens.antt =====
-- src/compiler/syntax/lexer.rs: the tokens, the state of the lexer and its errors.
use argent.Base.{ℕ, List, Text, Bytes, Result, err}
use argent.Collections.Order.{bytes_ord}

pub data TokenKind : Type 0 where
  ident : Text → TokenKind
  number : Text → TokenKind
  str : Text → TokenKind
  arrow : TokenKind
  symbol : ℕ → TokenKind
  eof : TokenKind

pub record Span : Type 0 where
  pub start : ℕ
  pub end : ℕ

pub record Token : Type 0 where
  pub kind : TokenKind
  pub span : Span

pub record Lexer : Type 0 where
  pub pos : ℕ
  pub rest : Bytes
  pub tokens : List Token

-- The message of an error, with the arguments of its format string.
pub data LexMessage : Type 0 where
  unexpected_character : (unexpected : Text) → LexMessage
  unterminated_block_comment : LexMessage
  invalid_string_literal : (json : Text) → LexMessage
  unterminated_string_escape : LexMessage
  unterminated_string : LexMessage
  renamed : (legacy name : Text) → LexMessage
  reserved_namespace : (ident prefix : Text) → LexMessage

pub record LexError : Type 0 where
  pub byte_offset : ℕ
  pub message : LexMessage

-- `exhausted` is the end of the rounds, which no source reaches.
pub data LexFailure : Type 0 where
  raised : LexError → LexFailure
  panicked : LexFailure
  exhausted : LexFailure

abbrev pub error_at : {A : Type 0} → ℕ → LexMessage → Result A LexFailure
error_at offset message = err (raised (record { byte_offset = offset; message = message }))
