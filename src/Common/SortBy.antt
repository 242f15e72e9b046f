-- ===== src/Common/SortBy.antt =====
-- `sort.SliceStable` and `sort.Slice` by a comparison, as an insertion sort.
use Prim.Native.Nat.{suc, Ordering}
use mathlib.Core.Bool.{Bool, ◌||◌}
use mathlib.Core.List.{List, [], ◌∷◌}
use mathlib.Core.Logic.{◌⊎◌, inl, inr, ◌≢◌}
use mathlib.Core.Path.{◌≡◌, refl, ap, ◌∙◌}
use native.Mathlib.Omega.{arith}
use bottle.Common.Lists.{length, any, All, All-map}
use bottle.Common.Order.{IsOrder}

pub lt-cases : (o : Ordering) → (o ≡ Ordering.lt) ⊎ (o ≢ Ordering.lt)
lt-cases Ordering.lt = inl refl
lt-cases Ordering.eq = inr (λ e. cc)
lt-cases Ordering.gt = inr (λ e. cc)

module _ {A : Type 0} (cmp : A → A → Ordering) where
  unfoldable pub insert_by : A → List A → List A
  insert_by x [] = x ∷ []
  insert_by x (y ∷ ys) = elim (cmp y x) [ Ordering.lt ↦ y ∷ insert_by x ys | _ ↦ x ∷ y ∷ ys ]

  unfoldable pub sort_by : List A → List A
  unfolding insert_by
  sort_by [] = []
  sort_by (x ∷ xs) = insert_by x (sort_by xs)

  any-insert_by : (p : A → Bool) (x : A) (ys : List A) → any p (insert_by x ys) ≡ (p x || any p ys)
  unfolding insert_by
  any-insert_by p x [] = refl
  any-insert_by p x (y ∷ ys) = ground (arith, any-insert_by p x ys)

  -- Sorting keeps the items.
  pub any-sort_by : (p : A → Bool) (xs : List A) → any p (sort_by xs) ≡ any p xs
  unfolding sort_by
  any-sort_by p [] = refl
  any-sort_by p (x ∷ xs) = any-insert_by p x (sort_by xs) ∙ ap (λ b. p x || b) (any-sort_by p xs)

  length-insert_by : (x : A) (ys : List A) → length (insert_by x ys) ≡ suc (length ys)
  unfolding insert_by
  length-insert_by x [] = refl
  length-insert_by x (y ∷ ys) = ground (arith, length-insert_by x ys)

  pub length-sort_by : (xs : List A) → length (sort_by xs) ≡ length xs
  unfolding sort_by
  length-sort_by [] = refl
  length-sort_by (x ∷ xs) = length-insert_by x (sort_by xs) ∙ ap suc (length-sort_by xs)

  insert_by_front :
      (x y : A) (ys : List A) → cmp y x ≢ Ordering.lt → insert_by x (y ∷ ys) ≡ x ∷ y ∷ ys
  unfolding insert_by
  insert_by_front x y ys h = ground arith

  insert_by_behind :
      (x y : A) (ys : List A) → cmp y x ≡ Ordering.lt → insert_by x (y ∷ ys) ≡ y ∷ insert_by x ys
  unfolding insert_by
  insert_by_behind x y ys h = ground arith

  module _ {ℓ} (P : A → Type ℓ) where
    All-insert_by : (x : A) (ys : List A) → P x → All P ys → All P (insert_by x ys)
    All-insert_by x [] h hs = unfold insert_by in (h, tt)
    All-insert_by x (y ∷ ys) h (hy, hs) = elim (lt-cases (cmp y x)) [
      | inl less ↦ rw (insert_by_behind x y ys less) (hy, All-insert_by x ys h hs)
      | inr more ↦ rw (insert_by_front x y ys more) (h, (hy, hs))
    ]

    pub All-sort_by : (xs : List A) → All P xs → All P (sort_by xs)
    unfolding sort_by
    All-sort_by [] h = tt
    All-sort_by (x ∷ xs) (h, hs) = All-insert_by x (sort_by xs) h (All-sort_by xs hs)

  -- No item stands behind one that it comes before.
  abbrev pub InOrder : List A → Type 0
  InOrder [] = Unit
  InOrder (x ∷ xs) = All (λ y. cmp y x ≢ Ordering.lt) xs × InOrder xs

  module _ (order : IsOrder cmp) where
    open order use {flipped, same, chain}

    not-lt_trans :
        (x y z : A) → cmp y x ≢ Ordering.lt → cmp z y ≢ Ordering.lt → cmp z x ≢ Ordering.lt
    not-lt_trans x y z h k = ground (
      arith,
      same x y z,
      chain x y z,
      same y z x,
      same z x y,
      flipped x y,
      flipped x z,
      flipped y z,
      chain z x y,
      chain y z x,
    )

    InOrder-insert_by : (x : A) (ys : List A) → InOrder ys → InOrder (insert_by x ys)
    InOrder-insert_by x [] h = unfold insert_by in (tt, tt)
    InOrder-insert_by x (y ∷ ys) (h, hs) = elim (lt-cases (cmp y x)) [
      | inl less ↦
          let back : cmp x y ≢ Ordering.lt = ground (arith, flipped x y) in
          rw (insert_by_behind x y ys less)
            (All-insert_by (λ z. cmp z y ≢ Ordering.lt) x ys back h, InOrder-insert_by x ys hs)
      | inr more ↦ rw (insert_by_front x y ys more) (
        (more, All-map (λ z (k : cmp z y ≢ Ordering.lt). not-lt_trans x y z more k) ys h),
        (h, hs),
      )
    ]

    pub InOrder-sort_by : (xs : List A) → InOrder (sort_by xs)
    unfolding sort_by
    InOrder-sort_by [] = tt
    InOrder-sort_by (x ∷ xs) = InOrder-insert_by x (sort_by xs) (InOrder-sort_by xs)
