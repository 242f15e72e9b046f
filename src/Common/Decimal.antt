-- ===== src/Common/Decimal.antt =====
-- `strconv.Itoa`, and the loops that read digits.
pub mod Unique
use Prim.Native.Nat.{ℕ, zero, suc, ◌+◌, ◌-◌, ◌*◌, ◌/◌, ◌%◌, ◌^◌}
use mathlib.Core.Bool.{true, false}
use mathlib.Core.List.{[], ◌∷◌, ◌++◌}
use bottle.Common.Int.{ℤ, pos, negsuc}
use bottle.Common.Tests.{ltb, if◌then◌else◌}
use bottle.Common.Text.{Bytes, is_digit}

-- The digits of a natural number; `n + 1` rounds are enough.
decimal_from : ℕ → ℕ → Bytes
decimal_from zero n = []
decimal_from (suc f) n = elim (ltb n 10) [
  | true ↦ (b'0' + n) ∷ []
  | false ↦ decimal_from f (n / 10) ++ (b'0' + n % 10) ∷ []
]

unfoldable pub decimal : ℕ → Bytes
unfolding decimal_from
decimal n = decimal_from (n + 1) n

unfoldable pub itoa : ℤ → Bytes
itoa (pos n) = decimal n
itoa (negsuc n) = b'-' ∷ decimal (n + 1)

-- One round of `n = n*10 + int(c-'0')`, on 64 bits.
abbrev pub push_digit : ℕ → ℕ → ℕ
push_digit n c = (n * 10 + (c - b'0')) % 2 ^ 64

-- The number that a text begins with.
unfoldable pub leading_number : ℕ → Bytes → ℕ
leading_number n [] = n
leading_number n (c ∷ s) =
    let rest = leading_number (push_digit n c) s in if is_digit c then rest else n
