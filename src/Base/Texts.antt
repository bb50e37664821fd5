-- ===== src/Base/Texts.antt =====
-- A String is its UTF-8 bytes; a slice of u8 is its bytes.
use Prim.Native.Nat.{ℕ}
use mathlib.Core.List.{List}

abbrev pub Text : Type 0
Text = List ℕ

abbrev pub Bytes : Type 0
Bytes = List ℕ
