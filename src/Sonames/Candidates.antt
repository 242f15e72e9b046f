-- ===== src/Sonames/Candidates.antt =====
-- closure.go: the order in which the versions of a provider are tried.
use bottle.Common.{
  ◌&&◌, ℕ, ◌+◌, List, [], ◌∷◌, ◌++◌, ◌≡◌, inl, inr, refl, sym, ap, ◌∙◌, not, Bool, true, false,
  some, arith,
}
use bottle.Common.Decimal.{decimal, itoa}
use bottle.Common.Decimal.Unique.{decimal_inj, decimal-digits, decimal_filled}
use bottle.Common.Int.{ℤ, pos, negsuc}
use bottle.Common.Lists.{is_empty, All, keep_if}
use bottle.Common.Tests.{Bool-cases, ◌==◌}
use bottle.Common.Text.{Bytes, codes, bytes_eq, bytes_eq→eq, eq→bytes_eq, cut_prefix, is_digit}
use bottle.Common.Text.Cuts.{Lacks}
use bottle.Sonames.{
  first_cut, leading_digits, soname_abi, is_hinted, split_hinted, from_newest, candidate_order,
}
use bottle.Version.{Ver}
use mathlib.Core.List.{reverse, reverse-cons}

-- The text does not begin with a digit.
abbrev Stops : Bytes → Type 0
Stops [] = Unit
Stops (c ∷ s) = is_digit c ≡ false

leading_digits-append :
    (ds tail : Bytes)
    → All (λ c. is_digit c ≡ true) ds
    → Stops tail
    → leading_digits (ds ++ tail) ≡ ds
leading_digits-append [] [] h stops = refl
leading_digits-append [] (c ∷ tail) h stops = ground arith
leading_digits-append (d ∷ ds) tail (h, hs) stops =
    rw h (ap (λ s. d ∷ s) (leading_digits-append ds tail hs stops))

first_cut-append :
    (stem rest : Bytes)
    → Lacks b'.' stem
    → first_cut (codes ".so.") (stem ++ codes ".so." ++ rest) ≡ some (stem, rest)
unfolding first_cut cut_prefix
first_cut-append [] rest h = refl
first_cut-append (c ∷ stem) rest (h, hs) = ground (arith, first_cut-append stem rest hs)

soname_abi_cut :
    (s head tail : Bytes)
    → first_cut (codes ".so.") s ≡ some (head, tail)
    → soname_abi s ≡ leading_digits tail
unfolding soname_abi
soname_abi_cut s head tail e = ground arith

soname_abi-append :
    (stem : Bytes) (n : ℕ) (tail : Bytes)
    → Lacks b'.' stem
    → Stops tail
    → soname_abi (stem ++ codes ".so." ++ (decimal n ++ tail)) ≡ decimal n
soname_abi-append stem n tail plain stops =
    soname_abi_cut (stem ++ codes ".so." ++ (decimal n ++ tail)) stem (decimal n ++ tail)
      (first_cut-append stem (decimal n ++ tail) plain)
    ∙ leading_digits-append (decimal n) tail (decimal-digits n) stops

-- The first number of the version is `n`.
abbrev pub starts_with : ℕ → Ver → Bool
starts_with n v = elim v.nums [ [] ↦ false | m ∷ ms ↦ elim m [ pos k ↦ k == n | negsuc k ↦ false ] ]

decimal_unsigned : (s ds : Bytes) → All (λ c. is_digit c ≡ true) ds → bytes_eq (b'-' ∷ s) ds ≡ false
unfolding bytes_eq
decimal_unsigned s [] h = refl
decimal_unsigned s (d ∷ ds) (h, hs) = ground arith

bytes_eq-decimal : (k n : ℕ) → bytes_eq (decimal k) (decimal n) ≡ (k == n)
bytes_eq-decimal k n = elim (Bool-cases (bytes_eq (decimal k) (decimal n))) [
  | inl same ↦ ground (arith, decimal_inj k n (bytes_eq→eq (decimal k) (decimal n) same))
  | inr other ↦ ground (arith, λ (e : k ≡ n). eq→bytes_eq (decimal k) (decimal n) (ap decimal e))
]

itoa-decimal :
    (m : ℤ) (n : ℕ) → bytes_eq (itoa m) (decimal n) ≡ elim m [ pos k ↦ k == n | negsuc k ↦ false ]
unfolding itoa
itoa-decimal (pos k) n = bytes_eq-decimal k n
itoa-decimal (negsuc k) n = decimal_unsigned (decimal (k + 1)) (decimal n) (decimal-digits n)

is_hinted-decimal : (n : ℕ) (v : Ver) → is_hinted (decimal n) v ≡ starts_with n v
unfolding is_hinted
is_hinted-decimal n v = go v.nums
  where
    go :
        (ns : List ℤ)
        → (elim ns [
          | [] ↦ false
          | k ∷ ks ↦ not (is_empty (decimal n)) && bytes_eq (itoa k) (decimal n)
        ])
          ≡ (elim ns [ [] ↦ false | m ∷ ms ↦ elim m [ pos k ↦ k == n | negsuc k ↦ false ] ])
    go [] = refl
    go (k ∷ ks) = rw (decimal_filled n) (itoa-decimal k n)

split_hinted-keep_if :
    (n : ℕ) (vs : List Ver)
    → split_hinted (decimal n) vs
      ≡ (keep_if (starts_with n) vs, keep_if (λ v. not (starts_with n v)) vs)
unfolding split_hinted
split_hinted-keep_if n [] = refl
split_hinted-keep_if n (v ∷ vs) = ground (arith, split_hinted-keep_if n vs, is_hinted-decimal n v)

from_newest-reverse : (vs : List Ver) → from_newest vs ≡ reverse vs
from_newest-reverse [] = refl
from_newest-reverse (v ∷ vs) =
    ap (λ us. us ++ v ∷ []) (from_newest-reverse vs) ∙ sym (reverse-cons v vs)

split_hinted_both :
    (hint : Bytes) (vs match rest : List Ver) (soname : Bytes)
    → soname_abi soname ≡ hint
    → split_hinted hint (from_newest vs) ≡ (match, rest)
    → candidate_order vs soname ≡ match ++ rest
unfolding candidate_order
split_hinted_both hint vs match rest soname abi split = rw abi (ground arith)

-- For a soname `<stem>.so.<n>`, with no dot in the stem and no digit right behind the number,
-- `candidateOrder` gives first the versions whose first number is `n` and then all others, the newest
-- first in each of the two.
pub candidate_order-exact :
    (vs : List Ver) (stem : Bytes) (n : ℕ) (tail : Bytes)
    → Lacks b'.' stem
    → Stops tail
    → candidate_order vs (stem ++ codes ".so." ++ (decimal n ++ tail))
      ≡ keep_if (starts_with n) (reverse vs) ++ keep_if (λ v. not (starts_with n v)) (reverse vs)
candidate_order-exact vs stem n tail plain stops =
    split_hinted_both (decimal n) vs (keep_if (starts_with n) (reverse vs))
      (keep_if (λ v. not (starts_with n v)) (reverse vs))
      (stem ++ codes ".so." ++ (decimal n ++ tail)) (soname_abi-append stem n tail plain stops)
      (ap (split_hinted (decimal n)) (from_newest-reverse vs) ∙ split_hinted-keep_if n (reverse vs))
