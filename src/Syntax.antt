-- ===== src/Syntax.antt =====
-- src/compiler/syntax: the source language.
pub mod Lexer
mod Tests
