-- ===== src/Prelude/Int.antt =====
-- Signed integers over the native numbers, for the milliseconds of a date before 1970.
use Prim.Native.Nat.{ℕ, suc, ◌+◌, ◌-◌, ◌*◌, ◌/◌}
use tarea_integracion_sistem.Prelude.Tests.{leb, if◌then◌else◌}

-- `negsuc n` is -(n + 1).
pub data ℤ : Type 0 where
  pos : ℕ → ℤ
  negsuc : ℕ → ℤ

abbrev pub pos_part : ℤ → ℕ
pos_part (pos n) = n
pos_part (negsuc n) = 0

abbrev pub neg_part : ℤ → ℕ
neg_part (pos n) = 0
neg_part (negsuc n) = suc n

-- a - b, as an integer.
abbrev pub sub_ℕ : ℕ → ℕ → ℤ
sub_ℕ a b = if leb b a then pos (a - b) else negsuc (b - a - 1)

-- a - b * c, on the parts of `a` and `b` with one sign.
abbrev pub sub_scaled : ℤ → ℤ → ℕ → ℤ
sub_scaled a b c = sub_ℕ (pos_part a + neg_part b * c) (neg_part a + pos_part b * c)

-- `Math.floor(a / d)`
abbrev pub floor_div : ℤ → ℕ → ℤ
floor_div (pos n) d = pos (n / d)
floor_div (negsuc n) d = negsuc (n / d)

abbrev pub scale : ℤ → ℕ → ℤ
scale a c = sub_ℕ (pos_part a * c) (neg_part a * c)
