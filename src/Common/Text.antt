-- ===== src/Common/Text.antt =====
-- Go strings as lists of bytes, and the functions of the package `strings` that the program calls.
pub mod Cuts
use Prim.Native.Nat.{ℕ, zero, suc, ◌-◌, ◌≤◌, compare, Ordering}
use Prim.Native.Char.{code}
use Prim.Native.String.{String}
use mathlib.Core.Path.{◌≡◌, refl}
use mathlib.Core.Bool.{Bool, true, false, ◌&&◌, ◌||◌}
use mathlib.Core.Option.{Option, none, some}
use mathlib.Core.List.{List, [], ◌∷◌, ◌++◌}
use native.Mathlib.Omega.{arith}
use bottle.Common.Lists.{length, All}
use bottle.Common.Order.{or_else}
use bottle.Common.Tests.{leb, ◌==◌, if◌then◌else◌}

abbrev pub Bytes : Type 0
Bytes = List ℕ

-- The bytes of an ASCII literal.
abbrev pub codes : String → Bytes
codes String.[] = []
codes (String.◌∷◌ c s) = code c ∷ codes s

unfoldable pub bytes_eq : Bytes → Bytes → Bool
bytes_eq [] [] = true
bytes_eq [] (d ∷ t) = false
bytes_eq (c ∷ s) [] = false
bytes_eq (c ∷ s) (d ∷ t) = c == d && bytes_eq s t

-- Byte by byte; a proper prefix is smaller.
unfoldable pub cmp_bytes : Bytes → Bytes → Ordering
cmp_bytes [] [] = Ordering.eq
cmp_bytes [] (d ∷ t) = Ordering.lt
cmp_bytes (c ∷ s) [] = Ordering.gt
cmp_bytes (c ∷ s) (d ∷ t) = or_else (compare c d) (cmp_bytes s t)

-- `strings.CutPrefix`.
unfoldable pub cut_prefix : Bytes → Bytes → Option Bytes
cut_prefix [] s = some s
cut_prefix (d ∷ p) [] = none
cut_prefix (d ∷ p) (c ∷ s) = let rest = cut_prefix p s in if d == c then rest else none

-- `strings.HasPrefix(s, p)`.
abbrev pub has_prefix : (p s : Bytes) → Bool
has_prefix p s = elim (cut_prefix p s) [ none ↦ false | some _ ↦ true ]

unfoldable pub trim_prefix : Bytes → Bytes → Bytes
unfolding cut_prefix
trim_prefix p s = elim (cut_prefix p s) [ some rest ↦ rest | none ↦ s ]

unfoldable pub contains_byte : ℕ → Bytes → Bool
contains_byte b [] = false
contains_byte b (c ∷ s) = c == b || contains_byte b s

-- What stands before and behind the last occurrence of `sep`, which is not empty.
unfoldable pub last_cut : Bytes → Bytes → Option (Bytes × Bytes)
unfolding cut_prefix
last_cut sep [] = none
last_cut sep (c ∷ s) = elim (last_cut sep s) [
  | some (head, tail) ↦ some (c ∷ head, tail)
  | none ↦ elim (cut_prefix sep (c ∷ s)) [ some tail ↦ some ([], tail) | none ↦ none ]
]

abbrev pub prepend : ℕ → List Bytes → List Bytes
prepend c [] = (c ∷ []) ∷ []
prepend c (p ∷ ps) = (c ∷ p) ∷ ps

-- `strings.Split` at every occurrence of one byte.
unfoldable pub split_byte : ℕ → Bytes → List Bytes
split_byte sep [] = [] ∷ []
split_byte sep (c ∷ s) =
    let rest = split_byte sep s in if c == sep then [] ∷ rest else prepend c rest

-- `strings.Split` at a separator that is not empty; `skip` bytes of it are still to be passed over.
unfoldable pub split_from : Bytes → ℕ → Bytes → List Bytes
unfolding cut_prefix
split_from sep skip [] = [] ∷ []
split_from sep (suc skip) (c ∷ s) = split_from sep skip s
split_from sep zero (c ∷ s) = elim (cut_prefix sep (c ∷ s)) [
  | some _ ↦ [] ∷ split_from sep (length sep - 1) s
  | none ↦ prepend c (split_from sep 0 s)
]

unfoldable pub split : Bytes → Bytes → List Bytes
unfolding split_from
split sep s = split_from sep 0 s

-- `strings.Join`.
unfoldable pub join : Bytes → List Bytes → Bytes
join sep [] = []
join sep (p ∷ []) = p
join sep (p ∷ q ∷ ps) = p ++ (sep ++ join sep (q ∷ ps))

module _ (drop : ℕ → Bool) where
  pub trim_left : Bytes → Bytes
  trim_left [] = []
  trim_left (c ∷ s) = let rest = trim_left s in if drop c then rest else c ∷ s

  pub trim_right : Bytes → Bytes
  trim_right [] = []
  trim_right (c ∷ s) = elim (trim_right s) [
    | [] ↦ if drop c then [] else c ∷ []
    | d ∷ t ↦ c ∷ d ∷ t
  ]

  unfoldable pub trim_both : Bytes → Bytes
  unfolding trim_left trim_right
  trim_both s = trim_right (trim_left s)

  length-trim_left-le : (s : Bytes) → length (trim_left s) ≤ length s
  unfolding trim_left
  length-trim_left-le [] = omega arith
  length-trim_left-le (c ∷ s) = ground (arith, length-trim_left-le s)

  length-trim_right-le : (s : Bytes) → length (trim_right s) ≤ length s
  unfolding trim_right
  length-trim_right-le [] = omega arith
  length-trim_right-le (c ∷ s) = ground (arith, length-trim_right-le s)

  pub length-trim_both-le : (s : Bytes) → length (trim_both s) ≤ length s
  unfolding trim_both
  length-trim_both-le s = omega (arith, length-trim_left-le s, length-trim_right-le (trim_left s))

  -- Nothing is trimmed from a text without such bytes.
  trim_left_kept : (s : Bytes) → All (λ c. drop c ≡ false) s → trim_left s ≡ s
  unfolding trim_left
  trim_left_kept [] h = refl
  trim_left_kept (c ∷ s) (hc, hs) = rw hc

  trim_right_kept : (s : Bytes) → All (λ c. drop c ≡ false) s → trim_right s ≡ s
  unfolding trim_right
  trim_right_kept [] h = refl
  trim_right_kept (c ∷ []) (hc, hs) = rw hc
  trim_right_kept (c ∷ d ∷ s) (hc, hs) = ground (arith, trim_right_kept (d ∷ s) hs)

  pub trim_both_kept : (s : Bytes) → All (λ c. drop c ≡ false) s → trim_both s ≡ s
  unfolding trim_both
  trim_both_kept s h = rw (trim_left_kept s h) (trim_right_kept s h)

-- The white space of ASCII.
abbrev pub is_space : ℕ → Bool
is_space c = c == b' ' || (leb 9 c && leb c 13)

abbrev pub is_quote : ℕ → Bool
is_quote c = c == b'\'' || c == b'"'

unfoldable pub trim_space : Bytes → Bytes
unfolding trim_both
trim_space s = trim_both is_space s

abbrev pub is_digit : ℕ → Bool
is_digit c = leb b'0' c && leb c b'9'

abbrev pub is_lower : ℕ → Bool
is_lower c = leb b'a' c && leb c b'z'

abbrev pub is_upper : ℕ → Bool
is_upper c = leb b'A' c && leb c b'Z'

-- Equality of texts is decided.
bytes_eq_refl : (s : Bytes) → bytes_eq s s ≡ true
unfolding bytes_eq
bytes_eq_refl [] = refl
bytes_eq_refl (c ∷ s) = ground (arith, bytes_eq_refl s)

pub bytes_eq→eq : (s t : Bytes) → bytes_eq s t ≡ true → s ≡ t
unfolding bytes_eq
bytes_eq→eq [] [] h = refl
bytes_eq→eq [] (d ∷ t) h = cc
bytes_eq→eq (c ∷ s) [] h = cc
bytes_eq→eq (c ∷ s) (d ∷ t) h = ground (arith, bytes_eq→eq s t)

pub eq→bytes_eq : (s t : Bytes) → s ≡ t → bytes_eq s t ≡ true
eq→bytes_eq s t e = rw (← e) (bytes_eq_refl s)
