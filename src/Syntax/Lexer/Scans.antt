-- ===== src/Syntax/Lexer/Scans.antt =====
-- src/compiler/syntax/lexer.rs: what the scanning loops consume, and that slices do not panic.
use argent.Base.{
  ℕ, ◌+◌, ◌-◌, ◌≤◌, ◌≡◌, refl, ap, subst, inl, inr, Bool, true, false, ltb, [], ◌∷◌, ◌++◌, length,
  length-append, take, All, arith, Bytes, Result, ok, err, ◌>>=◌, Bool-cases, if◌then◌else◌,
}
use argent.Syntax.Lexer.Tokens.{LexFailure, raised, panicked, exhausted}
use argent.Syntax.Lexer.{is_boundary, slice, skip_while}
use argent.Syntax.Lexer.Grammar.{Stops}

-- No byte that continues a character follows an ASCII byte.
abbrev pub IsText : Bytes → Type 0
IsText [] = Unit
IsText (b ∷ rest) = (ltb b 128 ≡ true → is_boundary rest ≡ true) × IsText rest

-- The result satisfies the predicate, or is an error at an offset up to the bound.
abbrev pub Safe : {A : Type 0} → (A → Type 0) → ℕ → Result A LexFailure → Type 0
Safe P bound (ok a) = P a
Safe P bound (err (raised e)) = e.byte_offset ≤ bound
Safe P bound (err panicked) = ⊥
Safe P bound (err exhausted) = ⊥

pub Safe-bind :
    {A B : Type 0} (P : A → Type 0) (Q : B → Type 0) (bound : ℕ) (r : Result A LexFailure)
    (k : A → Result B LexFailure)
    → Safe P bound r
    → ((a : A) → P a → Safe Q bound (k a))
    → Safe Q bound (r >>= k)
Safe-bind P Q bound (ok a) k h f = f a h
Safe-bind P Q bound (err (raised e)) k h f = h
Safe-bind P Q bound (err panicked) k h f = absurd h
Safe-bind P Q bound (err exhausted) k h f = absurd h

pub Safe-weaken :
    {A : Type 0} (P Q : A → Type 0) (bound : ℕ) (r : Result A LexFailure)
    → Safe P bound r
    → ((a : A) → P a → Q a)
    → Safe Q bound r
Safe-weaken P Q bound (ok a) h f = f a h
Safe-weaken P Q bound (err (raised e)) h f = h
Safe-weaken P Q bound (err panicked) h f = h
Safe-weaken P Q bound (err exhausted) h f = h

pub Safe-if :
    {A : Type 0} (P : A → Type 0) (bound : ℕ) (c : Bool) (r s : Result A LexFailure)
    → (c ≡ true → Safe P bound r)
    → (c ≡ false → Safe P bound s)
    → Safe P bound (if c then r else s)
Safe-if P bound true r s f g = f refl
Safe-if P bound false r s f g = g refl

-- The word was consumed between the two positions.
abbrev pub Consumes : ℕ → Bytes → Bytes → ℕ × Bytes → Type 0
Consumes pos rest w end = (rest ≡ w ++ end.1) × (end.0 ≡ pos + length w)

pub IsText-suffix : (w rest : Bytes) → IsText (w ++ rest) → IsText rest
IsText-suffix [] rest h = h
IsText-suffix (b ∷ w) rest h = IsText-suffix w rest h.1

pub IsText-rest : (from w to : Bytes) → from ≡ w ++ to → IsText from → IsText to
IsText-rest from w to e h = IsText-suffix w to (subst IsText e h)

-- What the loop consumes satisfies the test, and it stops where the test fails.
abbrev pub Scanned : (ℕ → Bool) → ℕ → Bytes → ℕ × Bytes → Type 0
Scanned p pos rest end =
    (w : Bytes) × Consumes pos rest w end × All (λ b. p b ≡ true) w × Stops p end.1

pub skip_while-Scanned :
    (p : ℕ → Bool) (pos : ℕ) (rest : Bytes) → Scanned p pos rest (skip_while p pos rest)
skip_while-Scanned p pos [] = ([], (refl, omega arith), tt, tt)
skip_while-Scanned p pos (b ∷ rest) = elim (Bool-cases (p b)) [
  | inl e ↦
      let (w, consumed, all, stops) = skip_while-Scanned p (pos + 1) rest in
      let step : skip_while p pos (b ∷ rest) ≡ skip_while p (pos + 1) rest = ground arith in
      rw step (b ∷ w, (ap (λ r. b ∷ r) consumed.0, omega (arith, consumed.1)), (e, all), stops)
  | inr e ↦
      let step : skip_while p pos (b ∷ rest) ≡ (pos, b ∷ rest) = ground arith in
      rw step ([], (refl, omega arith), tt, e)
]

-- A loop over ASCII bytes ends at a boundary.
pub skip_while-boundary :
    (p : ℕ → Bool) (ascii : (b : ℕ) → p b ≡ true → ltb b 128 ≡ true) (pos : ℕ) (rest : Bytes)
    → IsText rest
    → is_boundary rest ≡ true
    → is_boundary (skip_while p pos rest).1 ≡ true
skip_while-boundary p ascii pos [] h k = refl
skip_while-boundary p ascii pos (b ∷ rest) h k = elim (Bool-cases (p b)) [
  | inl e ↦
      let step : skip_while p pos (b ∷ rest) ≡ skip_while p (pos + 1) rest = ground arith in
      rw step (skip_while-boundary p ascii (pos + 1) rest h.1 (h.0 (ascii b e)))
  | inr e ↦ let step : skip_while p pos (b ∷ rest) ≡ (pos, b ∷ rest) = ground arith in rw step k
]

take-append : (w rest : Bytes) → take (length w) (w ++ rest) ≡ w
take-append [] rest = refl
take-append (b ∷ w) rest = ap (λ r. b ∷ r) (take-append w rest)

pub slice_lem :
    (from w to : Bytes)
    → from ≡ w ++ to
    → is_boundary from ≡ true
    → is_boundary to ≡ true
    → slice from to ≡ ok w
unfolding slice
slice_lem from w to e h k =
    let count : length from - length to ≡ length w =
      omega (arith, ap length e, length-append w to) in
    let text : take (length from - length to) from ≡ w = rw count (rw e (take-append w to)) in
    rw (h, k) (ap ok text)

-- The loop consumes a byte that satisfies the test.
pub Scanned-first :
    (p : ℕ → Bool) (pos b : ℕ) (after : Bytes) (end : ℕ × Bytes)
    → p b ≡ true
    → (found : Scanned p pos (b ∷ after) end) → (v : Bytes) × (found.0 ≡ b ∷ v)
Scanned-first p pos b after (q, []) h ([], consumed, all, stops) = absurd cc
Scanned-first p pos b after (q, c ∷ rest) h ([], consumed, all, stops) =
    let same : b ≡ c = cc in absurd cc
Scanned-first p pos b after end h (c ∷ w, consumed, all, stops) =
    let same : c ≡ b = cc in (w, ap (λ x. x ∷ w) same)
