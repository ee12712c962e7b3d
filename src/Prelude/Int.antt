-- ===== src/Prelude/Int.antt =====
-- C's `int`, as far as the kernel compares it: a sign and a size.
use Prim.Native.Nat.{ℕ, zero, suc, ◌-◌, ◌^◌}
use mathlib.Core.Bool.{Bool, true, false}
use mathlib.Core.Path.{◌≡◌}
use native.Mathlib.Omega.{arith}
use mp.Prelude.Tests.{ltb, leb, ◌==◌, if◌then◌else◌}

-- `negsuc n` is -(n + 1).
pub data ℤ : Type 0 where
  pos : ℕ → ℤ
  negsuc : ℕ → ℤ

abbrev pub eqb : ℤ → ℤ → Bool
eqb (pos a) (pos b) = a == b
eqb (pos a) (negsuc b) = false
eqb (negsuc a) (pos b) = false
eqb (negsuc a) (negsuc b) = a == b

abbrev pub ltz : ℤ → ℤ → Bool
ltz (pos a) (pos b) = ltb a b
ltz (pos a) (negsuc b) = false
ltz (negsuc a) (pos b) = true
ltz (negsuc a) (negsuc b) = ltb b a

abbrev pub minus_one : ℤ
minus_one = negsuc 0

pub eqb→eq : (a b : ℤ) → eqb a b ≡ true → a ≡ b
eqb→eq (pos a) (pos b) h = ground arith
eqb→eq (pos a) (negsuc b) h = cc
eqb→eq (negsuc a) (pos b) h = cc
eqb→eq (negsuc a) (negsuc b) h = ground arith

-- The `int` that a 32-bit pattern stands for.
abbrev pub to_int : ℕ → ℤ
to_int w = if ltb w (2 ^ 31) then pos w else negsuc (2 ^ 32 - w - 1)

-- `n + 1` and `n - 1`.
abbrev pub incr : ℤ → ℤ
incr (pos n) = pos (suc n)
incr (negsuc zero) = pos 0
incr (negsuc (suc n)) = negsuc n

abbrev pub decr : ℤ → ℤ
decr (pos zero) = negsuc 0
decr (pos (suc n)) = pos n
decr (negsuc n) = negsuc (suc n)

-- `a - b` of two unsigned values, as an `int`.
abbrev pub sub_int : ℕ → ℕ → ℤ
sub_int a b = if leb b a then pos (a - b) else negsuc (b - a - 1)
