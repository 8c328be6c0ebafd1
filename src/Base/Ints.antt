-- ===== src/Base/Ints.antt =====
-- Signed integers: an `i64` inside its range, and a number of millionths for a rounded `f64`.
use Prim.Native.Nat.{ℕ, suc, ◌+◌, ◌-◌}
use mathlib.Core.Bool.{Bool, ◌&&◌}
use git_slop.Base.Tests.{ltb, leb, ◌==◌, if◌then◌else◌}

-- `negsuc n` is -(n + 1).
pub data ℤ : Type 0 where
  pos : ℕ → ℤ
  negsuc : ℕ → ℤ

abbrev pub negate : ℕ → ℤ
negate n = if n == 0 then pos 0 else negsuc (n - 1)

abbrev pub above_zero : ℤ → ℕ
above_zero (pos n) = n
above_zero (negsuc n) = 0

abbrev pub below_zero : ℤ → ℕ
below_zero (pos n) = 0
below_zero (negsuc n) = suc n

-- The integer a - b of two natural numbers.
abbrev pub difference : ℕ → ℕ → ℤ
difference a b = if leb b a then pos (a - b) else negate (b - a)

infixl 65 ◌-ℤ◌
unfoldable pub ◌-ℤ◌ : ℤ → ℤ → ℤ
x -ℤ y = difference (above_zero x + below_zero y) (below_zero x + above_zero y)

-- `abs`, as a natural number.
abbrev pub magnitude : ℤ → ℕ
magnitude x = above_zero x + below_zero x

abbrev pub int_eq : ℤ → ℤ → Bool
int_eq x y = above_zero x == above_zero y && below_zero x == below_zero y

abbrev pub int_lt : ℤ → ℤ → Bool
int_lt x y = ltb (above_zero x + below_zero y) (below_zero x + above_zero y)
