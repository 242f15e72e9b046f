-- ===== src/Common/Order.antt =====
-- Three-way comparisons: what makes one a total preorder, and how two are combined.
pub mod Keys
use Prim.Native.Nat.{ℕ, compare, Ordering}
use mathlib.Core.Path.{◌≡◌, refl}
use native.Mathlib.Omega.{arith}
use bottle.Common.Int.{ℤ, pos, negsuc, cmp_int}

abbrev pub flip : Ordering → Ordering
flip Ordering.lt = Ordering.gt
flip Ordering.eq = Ordering.eq
flip Ordering.gt = Ordering.lt

-- The first answer that is not `eq`.
abbrev pub or_else : Ordering → Ordering → Ordering
or_else Ordering.lt b = Ordering.lt
or_else Ordering.eq b = b
or_else Ordering.gt b = Ordering.gt

module _ {A : Type 0} (cmp : A → A → Ordering) where
  -- `cmp a b` is -1, 0 or 1 as in Go's comparison functions.
  pub record IsOrder : Type 0 where
    pub flipped : (a b : A) → cmp b a ≡ flip (cmp a b)
    pub same : (a b c : A) → cmp a b ≡ Ordering.eq → cmp a c ≡ cmp b c
    pub chain : (a b c : A) → cmp a b ≡ Ordering.lt → cmp b c ≡ Ordering.lt → cmp a c ≡ Ordering.lt

pub compare-flip : (a b : ℕ) → compare b a ≡ flip (compare a b)
compare-flip a b = ground arith

cmp_int-flip : (a b : ℤ) → cmp_int b a ≡ flip (cmp_int a b)
unfolding cmp_int
cmp_int-flip (pos a) (pos b) = ground arith
cmp_int-flip (pos a) (negsuc b) = refl
cmp_int-flip (negsuc a) (pos b) = refl
cmp_int-flip (negsuc a) (negsuc b) = ground arith

cmp_int-eq : (a b : ℤ) → cmp_int a b ≡ Ordering.eq → a ≡ b
unfolding cmp_int
cmp_int-eq a b h = ground arith

cmp_int_chain :
    (a b c : ℤ) → cmp_int a b ≡ Ordering.lt → cmp_int b c ≡ Ordering.lt → cmp_int a c ≡ Ordering.lt
unfolding cmp_int
cmp_int_chain a b c h k = ground arith

pub cmp_int-IsOrder : IsOrder cmp_int
cmp_int-IsOrder = record {
  flipped = cmp_int-flip;
  same = λ a b c h. rw (cmp_int-eq a b h);
  chain = cmp_int_chain;
}

pub or_else_eq :
    (a p : Ordering) → or_else a p ≡ Ordering.eq → (a ≡ Ordering.eq) × (p ≡ Ordering.eq)
or_else_eq a p h = ground arith

-- Orders combined by `or_else`: the facts about the first key, and those about the second.
module _ {A : Type 0} {cmp : A → A → Ordering} (order : IsOrder cmp) where
  open order use {flipped, same, chain}

  pub lt-eq : (a b c : A) → cmp a b ≡ Ordering.lt → cmp b c ≡ Ordering.eq → cmp a c ≡ Ordering.lt
  lt-eq a b c h e = ground (arith, same b c a e, flipped a b, flipped a c)

  pub or_else_chain :
      (a b c : A) (p q r : Ordering)
      → or_else (cmp a b) p ≡ Ordering.lt
      → or_else (cmp b c) q ≡ Ordering.lt
      → (p ≡ Ordering.lt → q ≡ Ordering.lt → r ≡ Ordering.lt)
      → or_else (cmp a c) r ≡ Ordering.lt
  or_else_chain a b c p q r h k tail = ground (arith, lt-eq a b c, same a b c, chain a b c)
