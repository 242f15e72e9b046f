-- ===== src/Version.antt =====
-- pkgx.go: the type `Ver`, how a version string is read, and the order of versions.
pub mod Order
use Prim.Native.Nat.{Ordering}
use bottle.Common.{ℕ, List, [], ◌∷◌, ◌||◌, ◌&&◌, zero, suc, Bool, true, false, not, none, some, map}
use bottle.Common.Decimal.{leading_number, push_digit}
use bottle.Common.Int.{ℤ, pos, int64, cmp_int}
use bottle.Common.Lists.{all, is_empty}
use bottle.Common.Order.{or_else}
use bottle.Common.Tests.{if◌then◌else◌}
use bottle.Common.Text.{
  Bytes, codes, contains_byte, last_cut, split_byte, trim_prefix, trim_space, is_digit,
}

-- The struct `Ver`.
pub record Ver : Type 0 where
  pub raw : Bytes
  pub nums : List ℤ
  pub found_tag : Bytes
  pub rebuild : ℤ
  pub variant : Bytes

-- `Ver.tag`.
unfoldable pub tag : Ver → Bytes
tag v = if is_empty v.found_tag then v.raw else v.found_tag

-- The value of a text of digits, on 64 bits.
number : ℕ → Bytes → ℕ
number n [] = n
number n (c ∷ s) = number (push_digit n c) s

-- `splitRebuild`: `head_N` with a dot in `head` and a decimal `N`.
unfoldable pub split_rebuild : Bytes → Bytes × ℤ
unfolding last_cut contains_byte number int64
split_rebuild s = elim (last_cut (codes "_") s) [
  | none ↦ (s, pos 0)
  | some (head, tail) ↦
      if is_empty head || is_empty tail || not (contains_byte b'.' head) || not (all is_digit tail)
      then (s, pos 0)
      else (head, int64 (number 0 tail))
]

-- The loop over the parts of a version: each counts up to its first byte that is no digit.
component : Bytes → ℤ
unfolding leading_number int64
component p = int64 (leading_number 0 p)

-- `ParseVer`.
unfoldable pub parse_ver : Bytes → Ver
unfolding split_rebuild component split_byte trim_prefix trim_space
parse_ver text =
    let s = trim_prefix (codes "v") (trim_space text) in
    let (body, rebuild) = split_rebuild s in
    record {
      raw = s;
      nums = map component (split_byte b'.' body);
      found_tag = [];
      rebuild = rebuild;
      variant = [];
    }

-- The loop of `cmpVer` over both lists of components, the shorter padded with zeros.
unfoldable pub cmp_nums : List ℤ → List ℤ → Ordering
unfolding cmp_int
cmp_nums [] [] = Ordering.eq
cmp_nums (x ∷ xs) [] = or_else (cmp_int x (pos 0)) (cmp_nums xs [])
cmp_nums [] (y ∷ ys) = or_else (cmp_int (pos 0) y) (cmp_nums [] ys)
cmp_nums (x ∷ xs) (y ∷ ys) = or_else (cmp_int x y) (cmp_nums xs ys)

-- `cmpVer`: -1, 0 and 1 are `lt`, `eq` and `gt`.
unfoldable pub cmp_ver : Ver → Ver → Ordering
unfolding cmp_nums cmp_int
cmp_ver a b = or_else (cmp_nums a.nums b.nums) (cmp_int a.rebuild b.rebuild)

-- The component at the head, zero where there is none, and the components behind it.
abbrev pub first : List ℤ → ℤ
first [] = pos 0
first (x ∷ xs) = x

abbrev pub behind : List ℤ → List ℤ
behind [] = []
behind (x ∷ xs) = xs

abbrev pub same_int : ℤ → ℤ → Bool
same_int x y = elim (cmp_int x y) [ Ordering.eq ↦ true | _ ↦ false ]

-- `sameN`: the first `n` components agree.
unfoldable pub same_n : List ℤ → List ℤ → ℕ → Bool
unfolding cmp_int
same_n xs ys zero = true
same_n xs ys (suc n) = same_int (first xs) (first ys) && same_n (behind xs) (behind ys) n
