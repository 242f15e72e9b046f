-- ===== src/Common/Int.antt =====
-- Go's `int`, 64 bits wide. Arithmetic is done on the bit pattern, with its wrap-around; `int64`
-- reads a pattern as a signed number.
use Prim.Native.Nat.{ℕ, ◌-◌, ◌^◌, compare, Ordering}
use mathlib.Core.Bool.{Bool, true, false}
use bottle.Common.Tests.{ltb, if◌then◌else◌}

-- `negsuc n` is -(n + 1).
pub data ℤ : Type 0 where
  pos : ℕ → ℤ
  negsuc : ℕ → ℤ

unfoldable pub int64 : ℕ → ℤ
int64 u = if ltb u (2 ^ 63) then pos u else negsuc (2 ^ 64 - u - 1)

unfoldable pub cmp_int : ℤ → ℤ → Ordering
cmp_int (pos a) (pos b) = compare a b
cmp_int (pos a) (negsuc b) = Ordering.gt
cmp_int (negsuc a) (pos b) = Ordering.lt
cmp_int (negsuc a) (negsuc b) = compare b a

abbrev pub is_zero : ℤ → Bool
is_zero a = elim (cmp_int a (pos 0)) [ Ordering.eq ↦ true | _ ↦ false ]
