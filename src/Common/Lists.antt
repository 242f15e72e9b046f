-- ===== src/Common/Lists.antt =====
-- Lists measured by native numbers, and predicates on them.
use Prim.Native.Nat.{ℕ, zero, suc, ◌+◌, ◌≤◌, ◌<◌}
use mathlib.Core.Path.{◌≡◌, refl}
use mathlib.Core.Bool.{Bool, true, false, ◌&&◌, ◌||◌}
use mathlib.Core.List.{List, [], ◌∷◌, ◌++◌}
use native.Mathlib.Omega.{arith}

module _ {ℓ} {A : Type ℓ} where
  abbrev pub length : List A → ℕ
  length [] = 0
  length (x ∷ xs) = suc (length xs)

  pub length-append : (xs ys : List A) → length (xs ++ ys) ≡ length xs + length ys
  length-append [] ys = omega arith
  length-append (x ∷ xs) ys = omega (arith, length-append xs ys)

  -- The loops `for … if test { return true }` and their duals.
  abbrev pub any : (A → Bool) → List A → Bool
  any p [] = false
  any p (x ∷ xs) = p x || any p xs

  abbrev pub all : (A → Bool) → List A → Bool
  all p [] = true
  all p (x ∷ xs) = p x && all p xs

  abbrev pub is_empty : List A → Bool
  is_empty [] = true
  is_empty (x ∷ xs) = false

  -- `xs[:n]`, all of the list where it is shorter.
  abbrev pub take : ℕ → List A → List A
  take zero xs = []
  take (suc n) [] = []
  take (suc n) (x ∷ xs) = x ∷ take n xs

  -- `for … if keep { out = append(out, x) }`
  abbrev pub keep_if : (A → Bool) → List A → List A
  keep_if p [] = []
  keep_if p (x ∷ xs) = let rest = keep_if p xs in elim (p x) [ true ↦ x ∷ rest | false ↦ rest ]

  pub any_weaken :
      (p q : A → Bool) (xs : List A)
      → ((x : A) → p x ≡ true → q x ≡ true)
      → any p xs ≡ true
      → any q xs ≡ true
  any_weaken p q [] f h = h
  any_weaken p q (x ∷ xs) f h = ground (arith, f x, any_weaken p q xs f)

  pub any-keep_if : (p q : A → Bool) (xs : List A) → any q (keep_if p xs) ≡ any (λ x. p x && q x) xs
  any-keep_if p q [] = refl
  any-keep_if p q (x ∷ xs) = ground (arith, any-keep_if p q xs)

  pub all-keep_if : (p : A → Bool) (xs : List A) → all p (keep_if p xs) ≡ true
  all-keep_if p [] = refl
  all-keep_if p (x ∷ xs) = ground (arith, all-keep_if p xs)

module _ {ℓ κ} {A : Type ℓ} (P : A → Type κ) where
  abbrev pub All : List A → Type κ
  All [] = Unit
  All (x ∷ xs) = P x × All xs

  pub All-of : ((x : A) → P x) → (xs : List A) → All xs
  All-of h [] = tt
  All-of h (x ∷ xs) = (h x, All-of h xs)

  pub All-append : (xs ys : List A) → All xs → All ys → All (xs ++ ys)
  All-append [] ys _ hy = hy
  All-append (x ∷ xs) ys (px, hx) hy = (px, All-append xs ys hx hy)

  pub All-append_back : (xs ys : List A) → All (xs ++ ys) → All xs × All ys
  All-append_back [] ys h = (tt, h)
  All-append_back (x ∷ xs) ys (px, h) = let (hx, hy) = All-append_back xs ys h in ((px, hx), hy)

module _ {ℓ} {A : Type ℓ} (p q : A → Bool) where
  pub any_congr : (xs : List A) → All (λ x. p x ≡ q x) xs → any p xs ≡ any q xs
  any_congr [] h = refl
  any_congr (x ∷ xs) (hx, hs) = rw (hx, any_congr xs hs)

  pub all_congr : (xs : List A) → All (λ x. p x ≡ q x) xs → all p xs ≡ all q xs
  all_congr [] h = refl
  all_congr (x ∷ xs) (hx, hs) = rw (hx, all_congr xs hs)

module _ {ℓ κ μ} {A : Type ℓ} {P : A → Type κ} {Q : A → Type μ} (step : (x : A) → P x → Q x) where
  pub All-map : (xs : List A) → All P xs → All Q xs
  All-map [] h = tt
  All-map (x ∷ xs) (hx, hs) = (step x hx, All-map xs hs)

-- The weights of a list, added up.
module _ {ℓ} {A : Type ℓ} (f : A → ℕ) where
  abbrev pub total : List A → ℕ
  total [] = 0
  total (x ∷ xs) = f x + total xs

  All-le-total : (xs : List A) → All (λ x. f x ≤ total xs) xs
  All-le-total [] = tt
  All-le-total (x ∷ xs) =
      (omega arith, All-map (λ y (h : f y ≤ total xs). omega arith) xs (All-le-total xs))

  -- In a list of two or more positive weights each is below the sum.
  pub All-lt-total :
      (xs : List A) (n : ℕ)
      → All (λ x. 1 ≤ f x) xs
      → total xs ≤ n
      → 2 ≤ length xs
      → All (λ x. f x < n) xs
  All-lt-total [] n p h k = tt
  All-lt-total (x ∷ []) n p h k = absurd (omega arith)
  All-lt-total (x ∷ y ∷ xs) n (px, (py, ps)) h k = (
    omega arith,
    All-map (λ z (hz : f z ≤ total (y ∷ xs)). omega arith) (y ∷ xs) (All-le-total (y ∷ xs)),
  )
