-- ===== src/Tag/Zeros.antt =====
-- `numericKey`: which numbers are left once the zeros at their end are cut.
use bottle.Common.{
  ℕ, zero, suc, List, [], ◌∷◌, ◌≡◌, inl, inr, refl, sym, subst, ap, ◌↔◌, ◌∙◌, ◌⊎◌, true, false,
  arith,
}
use bottle.Common.Int.{ℤ, pos, negsuc, is_zero, cmp_int}
use bottle.Common.Tests.{Bool-cases}
use bottle.Tag.{drop_zeros, trim_zeros}

-- A number by its place; behind the last there are zeros.
abbrev pub number_at : ℕ → List ℤ → ℤ
number_at i [] = pos 0
number_at zero (x ∷ xs) = x
number_at (suc i) (x ∷ xs) = number_at i xs

is_zero_lem : (x : ℤ) → is_zero x ≡ true → x ≡ pos 0
unfolding cmp_int
is_zero_lem (pos n) h = ap pos (ground arith)
is_zero_lem (negsuc n) h = absurd (ground arith)

zero_is : is_zero (pos 0) ≡ true
unfolding cmp_int
zero_is = refl

drop_zeros_end :
    (x : ℤ) (xs : List ℤ) → drop_zeros xs ≡ [] → is_zero x ≡ true → drop_zeros (x ∷ xs) ≡ []
unfolding drop_zeros
drop_zeros_end x xs e h = ground arith

drop_zeros_last :
    (x : ℤ) (xs : List ℤ) → drop_zeros xs ≡ [] → is_zero x ≡ false → drop_zeros (x ∷ xs) ≡ x ∷ []
unfolding drop_zeros
drop_zeros_last x xs e h = ground arith

drop_zeros_more :
    (x y : ℤ) (xs ys : List ℤ) → drop_zeros xs ≡ y ∷ ys → drop_zeros (x ∷ xs) ≡ x ∷ y ∷ ys
unfolding drop_zeros
drop_zeros_more x y xs ys e = ground arith

drop_zeros_nil : drop_zeros [] ≡ []
unfolding drop_zeros
drop_zeros_nil = refl

List-cases : (xs : List ℤ) → (xs ≡ []) ⊎ ((y : ℤ) × (ys : List ℤ) × (xs ≡ y ∷ ys))
List-cases [] = inl refl
List-cases (y ∷ ys) = inr (y, ys, refl)

-- The numbers of the rest, where its own are those that were left of it.
abbrev IsRest : List ℤ → List ℤ → Type 0
IsRest us xs = (i : ℕ) → number_at i us ≡ number_at i xs

IsRest-cons : (x : ℤ) (us xs : List ℤ) → IsRest us xs → IsRest (x ∷ us) (x ∷ xs)
IsRest-cons x us xs h zero = refl
IsRest-cons x us xs h (suc i) = h i

IsRest-nil : (x : ℤ) (xs : List ℤ) → x ≡ pos 0 → IsRest [] xs → IsRest [] (x ∷ xs)
IsRest-nil x xs e h zero = sym e
IsRest-nil x xs e h (suc i) = h i

drop_zeros-IsRest : (xs : List ℤ) → IsRest (drop_zeros xs) xs
drop_zeros-IsRest [] = subst (λ us. IsRest us []) (sym drop_zeros_nil) (λ i. refl)
drop_zeros-IsRest (x ∷ xs) =
    let rest = drop_zeros-IsRest xs in
    elim (List-cases (drop_zeros xs)) [
      | inr (y, ys, more) ↦
          subst (λ us. IsRest us (x ∷ xs)) (sym (drop_zeros_more x y xs ys more))
            (IsRest-cons x (y ∷ ys) xs (subst (λ us. IsRest us xs) more rest))
      | inl over ↦
          let bare = subst (λ us. IsRest us xs) over rest in
          elim (Bool-cases (is_zero x)) [
            | inl none_here ↦
                subst (λ us. IsRest us (x ∷ xs)) (sym (drop_zeros_end x xs over none_here))
                  (IsRest-nil x xs (is_zero_lem x none_here) bare)
            | inr last ↦
                subst (λ us. IsRest us (x ∷ xs)) (sym (drop_zeros_last x xs over last))
                  (IsRest-cons x [] xs bare)
          ]
    ]

drop_zeros_all : (xs : List ℤ) → IsRest [] xs → drop_zeros xs ≡ []
drop_zeros_all [] h = drop_zeros_nil
drop_zeros_all (x ∷ xs) h =
    drop_zeros_end x xs (drop_zeros_all xs (λ i. h (suc i))) (ap is_zero (sym (h 0)) ∙ zero_is)

drop_zeros_cons :
    (x : ℤ) (xs ys : List ℤ)
    → drop_zeros xs ≡ drop_zeros ys
    → drop_zeros (x ∷ xs) ≡ drop_zeros (x ∷ ys)
unfolding drop_zeros
drop_zeros_cons x xs ys e = rw e refl

drop_zeros_same : (xs ys : List ℤ) → IsRest xs ys → drop_zeros xs ≡ drop_zeros ys
drop_zeros_same [] ys h = drop_zeros_nil ∙ sym (drop_zeros_all ys h)
drop_zeros_same (x ∷ xs) [] h = drop_zeros_all (x ∷ xs) (λ i. sym (h i)) ∙ sym drop_zeros_nil
drop_zeros_same (x ∷ xs) (y ∷ ys) h =
    drop_zeros_cons x xs ys (drop_zeros_same xs ys (λ i. h (suc i)))
    ∙ ap (λ z. drop_zeros (z ∷ ys)) (h 0)

cons_cut : (x y : ℤ) (xs ys : List ℤ) → x ∷ xs ≡ y ∷ ys → (x ≡ y) × (xs ≡ ys)
cons_cut x y xs ys e = (cc, cc)

-- Two lists of numbers that are not empty are left the same exactly where their numbers are the same
-- at every place.
pub trim_zeros-exact :
    (x y : ℤ) (xs ys : List ℤ)
    → (trim_zeros (x ∷ xs) ≡ trim_zeros (y ∷ ys))
      ↔ ((i : ℕ) → number_at i (x ∷ xs) ≡ number_at i (y ∷ ys))
unfolding trim_zeros
trim_zeros-exact x y xs ys = (there, back)
  where
    there :
        x ∷ drop_zeros xs ≡ y ∷ drop_zeros ys
        → (i : ℕ) → number_at i (x ∷ xs) ≡ number_at i (y ∷ ys)
    there e zero = (cons_cut x y (drop_zeros xs) (drop_zeros ys) e).0
    there e (suc i) =
        sym (drop_zeros-IsRest xs i)
        ∙ (ap (number_at i) ((cons_cut x y (drop_zeros xs) (drop_zeros ys) e).1)
            ∙ drop_zeros-IsRest ys i)

    back :
        ((i : ℕ) → number_at i (x ∷ xs) ≡ number_at i (y ∷ ys))
        → x ∷ drop_zeros xs ≡ y ∷ drop_zeros ys
    back h =
        ap (λ us. x ∷ us) (drop_zeros_same xs ys (λ i. h (suc i)))
        ∙ ap (λ z. z ∷ drop_zeros ys) (h 0)
