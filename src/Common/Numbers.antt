-- ===== src/Common/Numbers.antt =====
-- The JavaScript numbers that stand for amounts of money. A NUMERIC(18,2) column holds whole
-- hundredths, so a finite amount is an integer number of them.
use Prim.Native.Nat.{ℕ}
use mathlib.Core.Path.{◌≡◌}
use mathlib.Core.Bool.{Bool, true, false}
use native.Mathlib.Omega.{arith}
use reconbanker.Common.Tests.{◌==◌, ltb}

pub data ℤ : Type 0 where
  pos : ℕ → ℤ
  negsuc : ℕ → ℤ

pub data Num : Type 0 where
  nan plus_infinity minus_infinity : Num
  cents : ℤ → Num

abbrev pub int_eq : ℤ → ℤ → Bool
int_eq (pos a) (pos b) = a == b
int_eq (negsuc a) (negsuc b) = a == b
int_eq _ _ = false

-- `===`: NaN equals nothing, itself included.
abbrev pub num_eq : Num → Num → Bool
num_eq plus_infinity plus_infinity = true
num_eq minus_infinity minus_infinity = true
num_eq (cents a) (cents b) = int_eq a b
num_eq _ _ = false

-- Number.isFinite(x) && x > 0
abbrev pub is_finite_positive : Num → Bool
is_finite_positive (cents (pos n)) = ltb 0 n
is_finite_positive _ = false

pub num_eq→eq : (a b : Num) → num_eq a b ≡ true → a ≡ b
num_eq→eq nan b h = cc
num_eq→eq plus_infinity b h = ground arith
num_eq→eq minus_infinity b h = ground arith
num_eq→eq (cents (pos a)) b h = ground arith
num_eq→eq (cents (negsuc a)) b h = ground arith
