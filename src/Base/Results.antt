-- ===== src/Base/Results.antt =====
-- Rust's Result, its `?`, and a loop whose body may fail.
use mathlib.Core.Path.{◌≡◌, refl}
use mathlib.Core.Logic.{◌↔◌, ◌⊎◌, inl, inr}
use mathlib.Core.List.{List, [], ◌∷◌}
use argent.Base.Lists.{All}

pub data Result {ℓ κ} (A : Type ℓ) (E : Type κ) : Type (ℓ ⊔ κ) where
  ok : A → Result A E
  err : E → Result A E

infixl 5 ◌>>=◌
abbrev pub ◌>>=◌ {ℓ κ μ} :
    {A : Type ℓ} {B : Type κ} {E : Type μ} → Result A E → (A → Result B E) → Result B E
ok a >>= k = k a
err e >>= k = err e

pub Result-cases {ℓ κ} :
    {A : Type ℓ} {E : Type κ} (r : Result A E) → ((a : A) × (r ≡ ok a)) ⊎ ((e : E) × (r ≡ err e))
Result-cases (ok a) = inl (a, refl)
Result-cases (err e) = inr (e, refl)

-- `()`.
abbrev pub Done : Type 0
Done = Unit

-- `for x in xs { f(x)?; }`.
abbrev pub each {ℓ κ} : {A : Type ℓ} {E : Type κ} → (A → Result Done E) → List A → Result Done E
each f [] = ok tt
each f (x ∷ xs) = f x >>= λ u. each f xs

pub bind_ok {ℓ κ μ} :
    {A : Type ℓ} {B : Type κ} {E : Type μ} (r : Result A E) (k : A → Result B E) (b : B)
    → (r >>= k) ≡ ok b
    → (a : A) × (r ≡ ok a) × (k a ≡ ok b)
bind_ok (ok a) k b h = (a, refl, h)
bind_ok (err e) k b h = cc

pub then_ok {κ} :
    {E : Type κ} (r s : Result Done E) → ((r >>= λ u. s) ≡ ok tt) ↔ ((r ≡ ok tt) × (s ≡ ok tt))
then_ok (ok tt) s = (λ h. (refl, h), λ h. h.1)
then_ok (err e) s = (λ h. cc, λ h. cc)

-- A loop whose body may fail succeeds exactly if the body does on every element.
pub each_ok {ℓ κ μ} :
    {A : Type ℓ} {E : Type κ} (f : A → Result Done E) (P : A → Type μ) (xs : List A)
    → ((x : A) → (f x ≡ ok tt) ↔ P x)
    → (each f xs ≡ ok tt) ↔ All P xs
each_ok f P [] h = (λ e. tt, λ e. refl)
each_ok f P (x ∷ xs) h =
    let rest = each_ok f P xs h in
    let both = then_ok (f x) (each f xs) in
    (λ e. ((h x).0 (both.0 e).0, rest.0 (both.0 e).1), λ p. both.1 ((h x).1 p.0, rest.1 p.1))

-- What a body that succeeds ensures, a loop that succeeds ensures of every element.
pub each-All {ℓ κ μ} :
    {A : Type ℓ} {E : Type κ} (f : A → Result Done E) (P : A → Type μ) (xs : List A)
    → ((x : A) → f x ≡ ok tt → P x)
    → each f xs ≡ ok tt
    → All P xs
each-All f P [] h e = tt
each-All f P (x ∷ xs) h e =
    let both = (then_ok (f x) (each f xs)).0 e in (h x both.0, each-All f P xs h both.1)
