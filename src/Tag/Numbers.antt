-- ===== src/Tag/Numbers.antt =====
-- The numbers of a version, as `numericKey` writes them, are read back one way only.
pub mod Keyed
use bottle.Common.{
  ℕ, zero, suc, List, [], ◌∷◌, ◌++◌, ◌≡◌, ◌≢◌, ◌↔◌, refl, sym, ap, ◌∙◌, true, false, arith, map,
  append_assoc, append-nil,
}
use bottle.Common.Decimal.{decimal, itoa}
use bottle.Common.Decimal.Unique.{decimal_inj, decimal-digits, decimal_filled}
use bottle.Common.Int.{ℤ, pos, negsuc, is_zero, cmp_int}
use bottle.Common.Lists.{All, is_empty}
use bottle.Common.Tests.{if◌then◌else◌}
use bottle.Common.Text.{Bytes, codes, is_digit, join}
use bottle.Concrete.Fields.{cons_inj}
use bottle.Tag.{numeric_key, trim_zeros, drop_zeros, variant_sep}
use bottle.Tag.Zeros.{number_at, trim_zeros-exact}
use bottle.Version.{Ver}

-- The number is not below zero.
abbrev IsNatural : ℤ → Type 0
IsNatural (pos n) = Unit
IsNatural (negsuc n) = ⊥

-- The text does not go on with a digit.
abbrev Stops : Bytes → Type 0
Stops [] = Unit
Stops (c ∷ s) = is_digit c ≡ false

-- Nor with the dot before a number.
abbrev Ends : Bytes → Type 0
Ends [] = Unit
Ends (c ∷ s) = (is_digit c ≡ false) × (c ≢ b'.')

Ends-Stops : (s : Bytes) → Ends s → Stops s
Ends-Stops [] h = tt
Ends-Stops (c ∷ s) (h, k) = h

digits_cut :
    (ms ns s t : Bytes)
    → All (λ c. is_digit c ≡ true) ms
    → All (λ c. is_digit c ≡ true) ns
    → Stops s
    → Stops t
    → ms ++ s ≡ ns ++ t
    → (ms ≡ ns) × (s ≡ t)
digits_cut [] [] s t h k stops stops' e = (refl, e)
digits_cut [] (n ∷ ns) [] t h (k, ks) stops stops' e = absurd cc
digits_cut [] (n ∷ ns) (c ∷ s) t h (k, ks) stops stops' e =
    let (same, rest) = cons_inj c n s (ns ++ t) e in absurd (ground arith)
digits_cut (m ∷ ms) [] s [] (h, hs) k stops stops' e = absurd cc
digits_cut (m ∷ ms) [] s (c ∷ t) (h, hs) k stops stops' e =
    let (same, rest) = cons_inj m c (ms ++ s) t e in absurd (ground arith)
digits_cut (m ∷ ms) (n ∷ ns) s t (h, hs) (k, ks) stops stops' e =
    let (same, rest) = cons_inj m n (ms ++ s) (ns ++ t) e in
    let (more, left) = digits_cut ms ns s t hs ks stops stops' rest in (ground arith, left)

number_cut :
    (m n : ℕ) (s t : Bytes)
    → Stops s
    → Stops t
    → decimal m ++ s ≡ decimal n ++ t
    → (m ≡ n) × (s ≡ t)
number_cut m n s t stops stops' e =
    let (same, rest) =
      digits_cut (decimal m) (decimal n) s t (decimal-digits m) (decimal-digits n) stops stops' e in
    (decimal_inj m n same, rest)

-- The numbers, each behind a dot.
abbrev dotted : List ℤ → Bytes
dotted [] = []
dotted (x ∷ xs) = b'.' ∷ (itoa x ++ dotted xs)

abbrev numbers : List ℤ → Bytes
numbers [] = []
numbers (x ∷ xs) = itoa x ++ dotted xs

join-numbers : (xs : List ℤ) → join (codes ".") (map itoa xs) ≡ numbers xs
unfolding join
join-numbers [] = refl
join-numbers (x ∷ []) = sym (append-nil (itoa x))
join-numbers (x ∷ y ∷ ys) = ap (λ s. itoa x ++ b'.' ∷ s) (join-numbers (y ∷ ys))

dotted-Stops : (xs : List ℤ) (s : Bytes) → Ends s → Stops (dotted xs ++ s)
dotted-Stops [] s h = Ends-Stops s h
dotted-Stops (x ∷ xs) s h = refl

itoa_cut :
    (x y : ℤ) (s t : Bytes)
    → IsNatural x
    → IsNatural y
    → Stops s
    → Stops t
    → itoa x ++ s ≡ itoa y ++ t
    → (x ≡ y) × (s ≡ t)
unfolding itoa
itoa_cut (pos m) (pos n) s t h k stops stops' e =
    let (same, rest) = number_cut m n s t stops stops' e in (ap pos same, rest)
itoa_cut (pos m) (negsuc n) s t h k stops stops' e = absurd k
itoa_cut (negsuc m) y s t h k stops stops' e = absurd h

dotted_cut :
    (xs ys : List ℤ) (s t : Bytes)
    → All IsNatural xs
    → All IsNatural ys
    → Ends s
    → Ends t
    → dotted xs ++ s ≡ dotted ys ++ t
    → (xs ≡ ys) × (s ≡ t)
dotted_cut [] [] s t h k ends ends' e = (refl, e)
dotted_cut [] (y ∷ ys) [] t h k ends ends' e = absurd cc
dotted_cut [] (y ∷ ys) (c ∷ s) t h k (_, dot) ends' e =
    absurd (dot (cons_inj c b'.' s ((itoa y ++ dotted ys) ++ t) e).0)
dotted_cut (x ∷ xs) [] s [] h k ends ends' e = absurd cc
dotted_cut (x ∷ xs) [] s (c ∷ t) h k ends (_, dot) e =
    absurd (dot (sym (cons_inj b'.' c ((itoa x ++ dotted xs) ++ s) t e).0))
dotted_cut (x ∷ xs) (y ∷ ys) s t (h, hs) (k, ks) ends ends' e =
    let behind =
      (cons_inj b'.' b'.' ((itoa x ++ dotted xs) ++ s) ((itoa y ++ dotted ys) ++ t) e).1 in
    let whole =
      sym (append_assoc (itoa x) (dotted xs) s) ∙ (behind ∙ append_assoc (itoa y) (dotted ys) t) in
    let (same, rest) =
      itoa_cut x y (dotted xs ++ s) (dotted ys ++ t) h k (dotted-Stops xs s ends)
        (dotted-Stops ys t ends') whole in
    let (more, left) = dotted_cut xs ys s t hs ks ends ends' rest in (ground arith, left)

digits_ahead :
    (ds s t : Bytes)
    → All (λ c. is_digit c ≡ true) ds
    → is_empty ds ≡ false
    → Stops s
    → ¬ (s ≡ ds ++ t)
digits_ahead [] s t h filled stops e = cc
digits_ahead (d ∷ ds) [] t h filled stops e = cc
digits_ahead (d ∷ ds) (c ∷ s) t (h, hs) filled stops e =
    let (same, rest) = cons_inj c d s (ds ++ t) e in absurd (ground arith)

itoa_ahead : (x : ℤ) (s t : Bytes) → IsNatural x → Stops s → ¬ (s ≡ itoa x ++ t)
unfolding itoa
itoa_ahead (pos n) s t h stops e =
    digits_ahead (decimal n) s t (decimal-digits n) (decimal_filled n) stops e
itoa_ahead (negsuc n) s t h stops e = absurd h

numbers_cut :
    (xs ys : List ℤ) (s t : Bytes)
    → All IsNatural xs
    → All IsNatural ys
    → Ends s
    → Ends t
    → numbers xs ++ s ≡ numbers ys ++ t
    → (xs ≡ ys) × (s ≡ t)
numbers_cut [] [] s t h k ends ends' e = (refl, e)
numbers_cut [] (y ∷ ys) s t h (k, ks) ends ends' e = absurd (
    itoa_ahead y s (dotted ys ++ t) k (Ends-Stops s ends) (e ∙ append_assoc (itoa y) (dotted ys) t))
numbers_cut (x ∷ xs) [] s t (h, hs) k ends ends' e = absurd (
    itoa_ahead x t (dotted xs ++ s) h (Ends-Stops t ends')
      (sym e ∙ append_assoc (itoa x) (dotted xs) s))
numbers_cut (x ∷ xs) (y ∷ ys) s t (h, hs) (k, ks) ends ends' e =
    let whole =
      sym (append_assoc (itoa x) (dotted xs) s) ∙ (e ∙ append_assoc (itoa y) (dotted ys) t) in
    let (same, rest) =
      itoa_cut x y (dotted xs ++ s) (dotted ys ++ t) h k (dotted-Stops xs s ends)
        (dotted-Stops ys t ends') whole in
    let (more, left) = dotted_cut xs ys s t hs ks ends ends' rest in (ground arith, left)
