-- ===== src/Syntax/Lexer/NumberValue.antt =====
-- src/compiler/syntax/lexer.rs, `parse_number_value`: the integer that a number token stands for. An
-- integer of Rust is an integer with the check of its range written out.
pub mod Decimal
pub mod Scaled
use argent.Base.{
  ℕ, zero, suc, ◌+◌, ◌-◌, ◌*◌, ◌^◌, ◌≤◌, ◌<◌, ◌≡◌, refl, inl, inr, Bool, true, false, ◌&&◌, ◌||◌,
  not, ◌==◌, leb, ltb, Option, none, some, List, [], ◌∷◌, ◌++◌, select, if◌then◌else◌, Text, bytes,
  ℤ, pos, negsuc, arith, Bool-cases, Option-cases,
}
use argent.Syntax.Lexer.{is_digit, in_range}

-- `and_then`.
abbrev pub bind {ℓ κ} : {A : Type ℓ} {B : Type κ} → Option A → (A → Option B) → Option B
bind none k = none
bind (some a) k = k a

-- `char::to_digit`, for the radixes 10 and 16.
abbrev pub to_digit : ℕ → ℕ → Option ℕ
to_digit radix b =
    if is_digit b
    then some (b - b'0')
    else if (radix == 16) && in_range b'a' b'f' b
    then some (b - b'a' + 10)
    else if (radix == 16) && in_range b'A' b'F' b
    then some (b - b'A' + 10)
    else none

abbrev pub digits : ℕ → ℕ → Text → Option ℕ
digits radix value [] = some value
digits radix value (b ∷ rest) =
    bind (to_digit radix b) (λ digit. digits radix (value * radix + digit) rest)

-- At least one digit.
abbrev pub magnitude : ℕ → Text → Option ℕ
magnitude radix [] = none
magnitude radix (b ∷ rest) = digits radix 0 (b ∷ rest)

abbrev pub negate : ℕ → ℤ
negate zero = pos 0
negate (suc n) = negsuc n

-- The integer lies in the range of this many bits.
abbrev pub fits : ℕ → ℤ → Bool
fits bits (pos n) = ltb n (2 ^ (bits - 1))
fits bits (negsuc n) = ltb n (2 ^ (bits - 1))

abbrev pub checked : ℕ → ℤ → Option ℤ
checked bits value = if fits bits value then some value else none

-- `from_str_radix` of a signed type of this many bits.
abbrev pub parse_signed : ℕ → ℕ → Text → Option ℤ
parse_signed bits radix [] = none
parse_signed bits radix (b ∷ rest) =
    if b == b'-'
    then bind (magnitude radix rest) (λ n. checked bits (negate n))
    else if b == b'+'
    then bind (magnitude radix rest) (λ n. checked bits (pos n))
    else bind (magnitude radix (b ∷ rest)) (λ n. checked bits (pos n))

-- `parse::<u32>`.
abbrev pub parse_u32 : Text → Option ℕ
parse_u32 [] = none
parse_u32 (b ∷ rest) =
    bind (magnitude 10 (if b == b'+' then rest else b ∷ rest))
      (λ n. if ltb n (2 ^ 32) then some n else none)

-- `replace('_', "")`.
abbrev pub without_underscores : Text → Text
without_underscores raw = select (λ b. not (b == b'_')) raw

-- `split_once(['e', 'E'])`, with the whole text first if there is neither.
abbrev pub split_exponent : Text → Text × Option Text
split_exponent [] = ([], none)
split_exponent (b ∷ rest) =
    let later = split_exponent rest in
    elim ((b == b'e') || (b == b'E')) [ true ↦ ([], some rest) | false ↦ (b ∷ later.0, later.1) ]

-- `checked_mul` by a power of ten.
abbrev pub times : ℤ → ℕ → ℤ
times (pos a) n = pos (a * n)
times (negsuc a) n = negate (suc a * n)

-- `strip_prefix("0x")`, or of "0X".
abbrev pub strip_hex : Text → Option Text
strip_hex [] = none
strip_hex (a ∷ []) = none
strip_hex (a ∷ b ∷ rest) = if (a == b'0') && ((b == b'x') || (b == b'X')) then some rest else none

abbrev pub scaled : ℤ → Option Text → Option ℤ
scaled value none = some value
scaled value (some exponent) =
    bind (parse_u32 (without_underscores exponent))
      (λ n. if leb n 38 then checked 128 (times value (10 ^ n)) else none)

-- The value of a base and an exponent.
abbrev pub decimal_value : Text × Option Text → Option ℤ
decimal_value (base, exponent) =
    bind (parse_signed 128 10 (without_underscores base))
      (λ value. bind (scaled value exponent) (λ result. checked 64 result))

unfoldable pub parse_number_value : Text → Option ℤ
parse_number_value raw = elim (strip_hex raw) [
  | some hex ↦ parse_signed 64 16 hex
  | none ↦ decimal_value (split_exponent raw)
]
