-- ===== src/Prelude/Integers.antt =====
-- Integers over the native natural numbers, with the tests that the code makes on them.
use Prim.Native.Nat.{ℕ}
use mathlib.Core.Bool.{Bool, true, false}
use meow_frp_server.Prelude.Tests.{leb}

pub data ℤ : Type 0 where
  pos : ℕ → ℤ
  negsuc : ℕ → ℤ

-- `a <= b`
abbrev pub int_leb : ℤ → ℤ → Bool
int_leb (pos a) (pos b) = leb a b
int_leb (pos a) (negsuc b) = false
int_leb (negsuc a) (pos b) = true
int_leb (negsuc a) (negsuc b) = leb b a

-- `a == 0` and `a > 0`
abbrev pub is_zero : ℤ → Bool
is_zero (pos a) = leb a 0
is_zero (negsuc a) = false

abbrev pub is_positive : ℤ → Bool
is_positive (pos a) = leb 1 a
is_positive (negsuc a) = false
