-- ===== src/Version/Order.antt =====
-- `cmpVer` orders versions: it is a total preorder, and its classes are what the components,
-- padded with zeros, and the rebuild counter say.
use Prim.Native.Nat.{Ordering}
use bottle.Common.{ℕ, zero, suc, ◌+◌, ◌≤◌, List, [], ◌∷◌, ◌≡◌, refl, arith}
use bottle.Common.Int.{ℤ, cmp_int}
use bottle.Common.Lists.{length}
use bottle.Common.Order.{flip, or_else, or_else_eq, or_else_chain, IsOrder, cmp_int-IsOrder}
use bottle.Version.{cmp_nums, cmp_ver, first, behind}

cmp_nums_step :
    (xs ys : List ℤ)
    → cmp_nums xs ys ≡ or_else (cmp_int (first xs) (first ys)) (cmp_nums (behind xs) (behind ys))
unfolding cmp_nums
cmp_nums_step [] [] = refl
cmp_nums_step (x ∷ xs) [] = refl
cmp_nums_step [] (y ∷ ys) = refl
cmp_nums_step (x ∷ xs) (y ∷ ys) = refl

open cmp_int-IsOrder use {flipped as int_flipped, same as int_same, chain as int_chain}

length-behind-le : (n : ℕ) (xs : List ℤ) → length xs ≤ suc n → length (behind xs) ≤ n
length-behind-le n [] h = omega arith
length-behind-le n (x ∷ xs) h = omega arith

cmp_nums-flip :
    (n : ℕ) (xs ys : List ℤ)
    → length xs ≤ n
    → length ys ≤ n
    → cmp_nums ys xs ≡ flip (cmp_nums xs ys)
cmp_nums-flip zero [] [] h k = unfold cmp_nums in refl
cmp_nums-flip zero (x ∷ xs) ys h k = absurd (omega arith)
cmp_nums-flip zero [] (y ∷ ys) h k = absurd (omega arith)
cmp_nums-flip (suc n) xs ys h k = ground (
  arith,
  cmp_nums_step xs ys,
  cmp_nums_step ys xs,
  int_flipped (first xs) (first ys),
  cmp_nums-flip n (behind xs) (behind ys) (length-behind-le n xs h) (length-behind-le n ys k),
)

cmp_nums_same :
    (n : ℕ) (xs ys zs : List ℤ)
    → length xs ≤ n
    → length ys ≤ n
    → length zs ≤ n
    → cmp_nums xs ys ≡ Ordering.eq
    → cmp_nums xs zs ≡ cmp_nums ys zs
cmp_nums_same zero [] [] zs h k l e = refl
cmp_nums_same zero (x ∷ xs) ys zs h k l e = absurd (omega arith)
cmp_nums_same zero [] (y ∷ ys) zs h k l e = absurd (omega arith)
cmp_nums_same (suc n) xs ys zs h k l e =
    let (head, tail) =
      or_else_eq (cmp_int (first xs) (first ys)) (cmp_nums (behind xs) (behind ys))
        (rw (cmp_nums_step xs ys) at e) in
    rw (cmp_nums_step xs zs, cmp_nums_step ys zs)
      (ground (
        arith,
        int_same (first xs) (first ys) (first zs) head,
        cmp_nums_same n (behind xs) (behind ys) (behind zs) (length-behind-le n xs h)
            (length-behind-le n ys k) (length-behind-le n zs l) tail,
      ))

cmp_nums_chain :
    (n : ℕ) (xs ys zs : List ℤ)
    → length xs ≤ n
    → length ys ≤ n
    → length zs ≤ n
    → cmp_nums xs ys ≡ Ordering.lt
    → cmp_nums ys zs ≡ Ordering.lt
    → cmp_nums xs zs ≡ Ordering.lt
cmp_nums_chain zero [] [] zs h k l e f = unfold cmp_nums in (cc)
cmp_nums_chain zero (x ∷ xs) ys zs h k l e f = absurd (omega arith)
cmp_nums_chain zero [] (y ∷ ys) zs h k l e f = absurd (omega arith)
cmp_nums_chain (suc n) xs ys zs h k l e f = rw (cmp_nums_step xs zs) (
    or_else_chain cmp_int-IsOrder (first xs) (first ys) (first zs)
      (cmp_nums (behind xs) (behind ys)) (cmp_nums (behind ys) (behind zs)) _
      (rw (cmp_nums_step xs ys) at e) (rw (cmp_nums_step ys zs) at f)
      (cmp_nums_chain n (behind xs) (behind ys) (behind zs) (length-behind-le n xs h)
        (length-behind-le n ys k) (length-behind-le n zs l)))

-- A bound for the lengths of three lists.
bound : List ℤ → List ℤ → List ℤ → ℕ
bound xs ys zs = length xs + length ys + length zs

cmp_nums-IsOrder : IsOrder cmp_nums
unfolding bound
cmp_nums-IsOrder = record {
  flipped = λ a b. cmp_nums-flip (bound a b []) a b (omega arith) (omega arith);
  same = λ a b c. cmp_nums_same (bound a b c) a b c (omega arith) (omega arith) (omega arith);
  chain = λ a b c. cmp_nums_chain (bound a b c) a b c (omega arith) (omega arith) (omega arith);
}

-- `cmpVer` is a total preorder: exchanging the versions turns the answer round, versions that
-- compare equal compare alike with every third one, and "older than" is transitive.
pub cmp_ver-IsOrder : IsOrder cmp_ver
unfolding cmp_ver
cmp_ver-IsOrder = record {
  flipped = λ a b.
      ground (arith, cmp_nums-IsOrder.flipped a.nums b.nums, int_flipped a.rebuild b.rebuild);
  same = λ a b c e.
      let (head, tail) = or_else_eq (cmp_nums a.nums b.nums) (cmp_int a.rebuild b.rebuild) e in
      ground (
        arith,
        cmp_nums-IsOrder.same a.nums b.nums c.nums head,
        int_same a.rebuild b.rebuild c.rebuild tail,
      );
  chain = λ a b c e f.
      or_else_chain cmp_nums-IsOrder a.nums b.nums c.nums (cmp_int a.rebuild b.rebuild)
        (cmp_int b.rebuild c.rebuild) (cmp_int a.rebuild c.rebuild) e f
        (int_chain a.rebuild b.rebuild c.rebuild);
}
