-- ===== src/Common/Ints.antt =====
-- Go's `int`, as far as the configuration uses it: a sign, and the tests `<=` and `==`.
use Prim.Native.Nat.{◌^◌, ◌%◌, ℕ}
use mathlib.Core.Bool.{Bool, true, false}
use mephi_sfu_server_project.Common.Tests.{leb, ◌==◌}

-- `negsuc n` is the number below zero at distance `n + 1`.
pub data ℤ : Type 0 where
  pos negsuc : ℕ → ℤ

abbrev pub leb_int : ℤ → ℤ → Bool
leb_int (pos a) (pos b) = leb a b
leb_int (pos a) (negsuc b) = false
leb_int (negsuc a) (pos b) = true
leb_int (negsuc a) (negsuc b) = leb b a

abbrev pub eq_int : ℤ → ℤ → Bool
eq_int (pos a) (pos b) = a == b
eq_int (pos a) (negsuc b) = false
eq_int (negsuc a) (pos b) = false
eq_int (negsuc a) (negsuc b) = a == b

-- What a uint64 keeps.
abbrev pub u64 : ℕ → ℕ
u64 n = n % 2 ^ 64
