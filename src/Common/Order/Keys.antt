-- ===== src/Common/Order/Keys.antt =====
-- Orders by one key after another.
use Prim.Native.Nat.{compare, Ordering}
use mathlib.Core.Bool.{Bool, true, false}
use mathlib.Core.List.{[], ◌∷◌}
use mathlib.Core.Path.{◌≡◌, refl}
use native.Mathlib.Omega.{arith}
use bottle.Common.Order.{IsOrder, or_else, or_else_eq, or_else_chain, flip, compare-flip}
use bottle.Common.Text.{Bytes, cmp_bytes}

-- `a < b` on booleans: false comes first.
abbrev pub cmp_bool : Bool → Bool → Ordering
cmp_bool false false = Ordering.eq
cmp_bool false true = Ordering.lt
cmp_bool true false = Ordering.gt
cmp_bool true true = Ordering.eq

pub cmp_bool-IsOrder : IsOrder cmp_bool
cmp_bool-IsOrder = record {
  flipped = λ a b. ground arith;
  same = λ a b c h. ground arith;
  chain = λ a b c h k. ground arith;
}

pub compare-IsOrder : IsOrder compare
compare-IsOrder = record {
  flipped = compare-flip;
  same = λ a b c h. ground arith;
  chain = λ a b c h k. ground arith;
}

flip-or_else : (a b : Ordering) → flip (or_else a b) ≡ or_else (flip a) (flip b)
flip-or_else a b = ground arith

cmp_bytes-flip : (a b : Bytes) → cmp_bytes b a ≡ flip (cmp_bytes a b)
unfolding cmp_bytes
cmp_bytes-flip [] [] = refl
cmp_bytes-flip [] (d ∷ t) = refl
cmp_bytes-flip (c ∷ s) [] = refl
cmp_bytes-flip (c ∷ s) (d ∷ t) = ground (arith, compare-flip c d, cmp_bytes-flip s t)

pub cmp_bytes-eq : (a b : Bytes) → cmp_bytes a b ≡ Ordering.eq → a ≡ b
unfolding cmp_bytes
cmp_bytes-eq [] [] h = refl
cmp_bytes-eq [] (d ∷ t) h = cc
cmp_bytes-eq (c ∷ s) [] h = cc
cmp_bytes-eq (c ∷ s) (d ∷ t) h =
    let (head, tail) = or_else_eq (compare c d) (cmp_bytes s t) h in
    let same : c ≡ d = ground arith in let rest = cmp_bytes-eq s t tail in ground arith

cmp_bytes_chain :
    (a b c : Bytes)
    → cmp_bytes a b ≡ Ordering.lt
    → cmp_bytes b c ≡ Ordering.lt
    → cmp_bytes a c ≡ Ordering.lt
unfolding cmp_bytes
cmp_bytes_chain [] [] c h k = cc
cmp_bytes_chain [] (y ∷ b) [] h k = cc
cmp_bytes_chain [] (y ∷ b) (z ∷ c) h k = refl
cmp_bytes_chain (x ∷ a) [] c h k = cc
cmp_bytes_chain (x ∷ a) (y ∷ b) [] h k = cc
cmp_bytes_chain (x ∷ a) (y ∷ b) (z ∷ c) h k =
    or_else_chain compare-IsOrder x y z (cmp_bytes a b) (cmp_bytes b c) (cmp_bytes a c) h k
      (cmp_bytes_chain a b c)

pub cmp_bytes-IsOrder : IsOrder cmp_bytes
cmp_bytes-IsOrder = record {
  flipped = cmp_bytes-flip;
  same = λ a b c h. rw (cmp_bytes-eq a b h);
  chain = cmp_bytes_chain;
}

module _ {A B : Type 0} where
  -- The order of a key.
  pub IsOrder-on :
      {cmp : B → B → Ordering} (key : A → B) → IsOrder cmp → IsOrder (λ a b. cmp (key a) (key b))
  IsOrder-on key o = record {
    flipped = λ a b. o.flipped (key a) (key b);
    same = λ a b c. o.same (key a) (key b) (key c);
    chain = λ a b c. o.chain (key a) (key b) (key c);
  }

module _ {A : Type 0} {f g : A → A → Ordering} where
  -- One order, and where it finds two equal, another.
  pub IsOrder-or_else : IsOrder f → IsOrder g → IsOrder (λ a b. or_else (f a b) (g a b))
  IsOrder-or_else o p = record {
    flipped = λ a b. ground (arith, o.flipped a b, p.flipped a b);
    same = λ a b c h.
        let (first, second) = or_else_eq (f a b) (g a b) h in
        ground (arith, o.same a b c first, p.same a b c second);
    chain = λ a b c h k. or_else_chain o a b c (g a b) (g b c) (g a c) h k (p.chain a b c);
  }
