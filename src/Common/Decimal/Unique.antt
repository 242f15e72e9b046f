-- ===== src/Common/Decimal/Unique.antt =====
-- No two numbers have one numeral.
use Prim.Native.Nat.{ℕ, zero, suc, ◌+◌, ◌-◌, ◌*◌, ◌/◌, ◌%◌, ◌<◌}
use mathlib.Core.Bool.{true, false}
use mathlib.Core.List.{[], ◌∷◌, ◌++◌}
use mathlib.Core.Logic.{inl, inr}
use mathlib.Core.Path.{◌≡◌, refl, sym, ap, ◌∙◌}
use native.Mathlib.Omega.{arith}
use bottle.Common.Decimal.{decimal_from, decimal}
use bottle.Common.Lists.{is_empty, All, All-append}
use bottle.Common.Tests.{Bool-cases, ltb}
use bottle.Common.Text.{Bytes, is_digit}

-- The number that digits stand for.
abbrev pub value : ℕ → Bytes → ℕ
value n [] = n
value n (c ∷ s) = value (n * 10 + (c - b'0')) s

value-snoc : (n : ℕ) (s : Bytes) (c : ℕ) → value n (s ++ c ∷ []) ≡ value n s * 10 + (c - b'0')
value-snoc n [] c = refl
value-snoc n (d ∷ s) c = value-snoc (n * 10 + (d - b'0')) s c

decimal_from_small : (f n : ℕ) → ltb n 10 ≡ true → decimal_from (suc f) n ≡ (b'0' + n) ∷ []
unfolding decimal_from
decimal_from_small f n h = ground arith

decimal_from_large :
    (f n : ℕ)
    → ltb n 10 ≡ false
    → decimal_from (suc f) n ≡ decimal_from f (n / 10) ++ (b'0' + n % 10) ∷ []
unfolding decimal_from
decimal_from_large f n h = ground arith

value-decimal_from : (f n : ℕ) → n < f → value 0 (decimal_from f n) ≡ n
value-decimal_from zero n h = absurd (omega arith)
value-decimal_from (suc f) n h = elim (Bool-cases (ltb n 10)) [
  | inl small ↦ rw (decimal_from_small f n small) (omega arith)
  | inr large ↦
      let rest = value-decimal_from f (n / 10) (ground arith) in
      rw (decimal_from_large f n large)
        (value-snoc 0 (decimal_from f (n / 10)) (b'0' + n % 10) ∙ (rw rest (omega arith)))
]

value-decimal : (n : ℕ) → value 0 (decimal n) ≡ n
unfolding decimal
value-decimal n = value-decimal_from (n + 1) n (omega arith)

pub decimal_inj : (m n : ℕ) → decimal m ≡ decimal n → m ≡ n
decimal_inj m n e = sym (value-decimal m) ∙ ap (value 0) e ∙ value-decimal n

decimal_from-digits : (f n : ℕ) → All (λ c. is_digit c ≡ true) (decimal_from f n)
decimal_from-digits zero n = unfold decimal_from in tt
decimal_from-digits (suc f) n = elim (Bool-cases (ltb n 10)) [
  | inl small ↦ rw (decimal_from_small f n small) (ground arith, tt)
  | inr large ↦ rw (decimal_from_large f n large) (
      All-append (λ c. is_digit c ≡ true) (decimal_from f (n / 10)) ((b'0' + n % 10) ∷ [])
        (decimal_from-digits f (n / 10)) (ground arith, tt))
]

pub decimal-digits : (n : ℕ) → All (λ c. is_digit c ≡ true) (decimal n)
unfolding decimal
decimal-digits n = decimal_from-digits (n + 1) n

snoc_filled : (s : Bytes) (c : ℕ) → is_empty (s ++ c ∷ []) ≡ false
snoc_filled [] c = refl
snoc_filled (d ∷ s) c = refl

pub decimal_filled : (n : ℕ) → is_empty (decimal n) ≡ false
unfolding decimal decimal_from
decimal_filled n = elim (Bool-cases (ltb n 10)) [
  | inl small ↦ ground arith
  | inr large ↦ ground (arith, snoc_filled (decimal_from n (n / 10)) (b'0' + n % 10))
]
