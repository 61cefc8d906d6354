-- ===== src/Prelude/Int.antt =====
-- Signed integers over the native numbers, and the ranges of `int` and `long long`.
use Prim.Native.Nat.{ℕ, ◌^◌, ◌<◌}
use mathlib.Core.Path.{◌≡◌}
use mathlib.Core.Bool.{Bool, true, false}
use mathlib.Core.Logic.{◌↔◌}
use native.Mathlib.Omega.{arith}
use wizz_mania.Prelude.Tests.{ltb, ◌==◌}

-- `negsuc n` is -(n + 1).
pub data ℤ : Type 0 where
  pos : ℕ → ℤ
  negsuc : ℕ → ℤ

abbrev pub int_eq : ℤ → ℤ → Bool
int_eq (pos m) (pos n) = m == n
int_eq (negsuc m) (negsuc n) = m == n
int_eq (pos m) (negsuc n) = false
int_eq (negsuc m) (pos n) = false

pub int_eq_iff : (a b : ℤ) → (int_eq a b ≡ true) ↔ (a ≡ b)
int_eq_iff (pos m) (pos n) = ground arith
int_eq_iff (negsuc m) (negsuc n) = ground arith
int_eq_iff (pos m) (negsuc n) = ground arith
int_eq_iff (negsuc m) (pos n) = ground arith

-- `a > b`
abbrev pub int_gt : ℤ → ℤ → Bool
int_gt (pos m) (pos n) = ltb n m
int_gt (negsuc m) (negsuc n) = ltb m n
int_gt (pos m) (negsuc n) = true
int_gt (negsuc m) (pos n) = false

-- The values from -half to half - 1.
abbrev pub in_range : ℕ → ℤ → Bool
in_range half (pos n) = ltb n half
in_range half (negsuc n) = ltb n half

abbrev pub InRange : ℕ → ℤ → Type 0
InRange half (pos n) = n < half
InRange half (negsuc n) = n < half

abbrev pub int_half : ℕ
int_half = 2 ^ 31

abbrev pub long_long_half : ℕ
long_long_half = 2 ^ 63

pub in_range_iff : (half : ℕ) (v : ℤ) → (in_range half v ≡ true) ↔ InRange half v
in_range_iff half (pos n) = ground arith
in_range_iff half (negsuc n) = ground arith
