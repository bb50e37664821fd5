-- ===== src/Base/Integers.antt =====
-- Machine integers with a sign, and their order. The library's ℤ stands on another ℕ.
use Prim.Native.Nat.{ℕ, ◌≤◌}
use mathlib.Core.Path.{◌≡◌, refl}
use mathlib.Core.Logic.{◌↔◌}
use mathlib.Core.Bool.{Bool, true, false}
use native.Mathlib.Omega.{arith}
use argent.Base.Tests.{ltb}

pub data ℤ : Type 0 where
  pos : ℕ → ℤ
  negsuc : ℕ → ℤ

abbrev pub ltℤ : ℤ → ℤ → Bool
ltℤ (pos a) (pos b) = ltb a b
ltℤ (pos a) (negsuc b) = false
ltℤ (negsuc a) (pos b) = true
ltℤ (negsuc a) (negsuc b) = ltb b a

infix 50 ◌≤ℤ◌
abbrev pub ◌≤ℤ◌ : ℤ → ℤ → Type 0
pos a ≤ℤ pos b = a ≤ b
pos a ≤ℤ negsuc b = ⊥
negsuc a ≤ℤ pos b = Unit
negsuc a ≤ℤ negsuc b = b ≤ a

pub ltℤ-false : (a b : ℤ) → (ltℤ a b ≡ false) ↔ (b ≤ℤ a)
ltℤ-false (pos a) (pos b) = ground arith
ltℤ-false (pos a) (negsuc b) = (λ h. tt, λ h. refl)
ltℤ-false (negsuc a) (pos b) = (λ h. cc, λ h. absurd h)
ltℤ-false (negsuc a) (negsuc b) = ground arith
