-- ===== src/Common/Results.antt =====
-- Results, and the signed integers of the source: library names over the native numbers.
use Prim.Native.Nat.{ℕ, ◌-◌, ◌%◌, ◌^◌}
use mathlib.Core.Path.{◌≡◌, refl}
use mathlib.Core.Logic.{◌⊎◌, inl, inr}
use mathlib.Core.Bool.{Bool, true, false}
use metalbond_rs.Common.Tests.{nat_beq, if◌then◌else◌}

pub data Result {ℓ} (E A : Type ℓ) : Type ℓ where
  ok : A → Result E A
  err : E → Result E A

pub Result-cases {ℓ} :
    {E A : Type ℓ} (r : Result E A) → ((a : A) × (r ≡ ok a)) ⊎ ((e : E) × (r ≡ err e))
Result-cases (ok a) = inl (a, refl)
Result-cases (err e) = inr (e, refl)

-- `negsuc n` is -(n + 1).
pub data ℤ : Type 0 where
  pos : ℕ → ℤ
  negsuc : ℕ → ℤ

-- `i > 0`
abbrev pub is_positive : ℤ → Bool
is_positive (pos n) = if nat_beq n 0 then false else true
is_positive (negsuc n) = false

-- A cast of an `i32` to an unsigned number of `w` bits, at most 32: the number modulo 2 ^ w.
abbrev pub as_unsigned : ℕ → ℤ → ℕ
as_unsigned w (pos n) = n % 2 ^ w
as_unsigned w (negsuc n) = 2 ^ w - 1 - n % 2 ^ w

-- `i == n`
abbrev pub is_number : ℕ → ℤ → Bool
is_number n (pos m) = nat_beq m n
is_number n (negsuc m) = false
