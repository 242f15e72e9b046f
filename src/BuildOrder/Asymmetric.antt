-- ===== src/BuildOrder/Asymmetric.antt =====
-- buildorder.go: of two builds at most one was made against the later closure.
use Prim.Native.Nat.{Ordering}
use bottle.Common.{
  ℕ, ◌+◌, List, [], ◌∷◌, ◌≡◌, inl, inr, refl, sym, ◌∙◌, ap, ◌&&◌, ◌||◌, Bool, true, false, none,
  some, arith,
}
use bottle.Common.Lists.{any_weaken, any}
use bottle.Common.Tests.{Option-cases}
use bottle.Common.Text.{bytes_eq, bytes_eq→eq, eq→bytes_eq}
use bottle.BuildOrder.{Score, cmp_version, scan_inner, scan_outer, is_later_score, closure_is_later}
use bottle.Concrete.{Dep, Concrete}
use bottle.Version.{parse_ver}
use bottle.Version.Order.{cmp_ver-IsOrder}

-- The first of two versions of one project is the older, or the newer.
abbrev is_lt : Ordering → Bool
is_lt Ordering.lt = true
is_lt Ordering.eq = false
is_lt Ordering.gt = false

abbrev is_gt : Ordering → Bool
is_gt Ordering.lt = false
is_gt Ordering.eq = false
is_gt Ordering.gt = true

abbrev older : Dep → Dep → Bool
older a b = bytes_eq a.project b.project && is_lt (cmp_version a b)

abbrev newer : Dep → Dep → Bool
newer a b = bytes_eq a.project b.project && is_gt (cmp_version a b)

newer-flip : (a b : Dep) → newer a b ≡ true → older b a ≡ true
newer-flip a b h = ground (
  arith,
  cmp_ver-IsOrder.flipped (parse_ver a.version) (parse_ver b.version),
  bytes_eq→eq a.project b.project,
  eq→bytes_eq b.project a.project,
)

scan_inner-older :
    (a : Dep) (bs : List Dep) (s : ℕ × Bool) → any (older a) bs ≡ true → scan_inner a bs s ≡ none
unfolding scan_inner
scan_inner-older a [] s h = cc
scan_inner-older a (b ∷ bs) (n, better) h = ground (
  arith,
  scan_inner-older a bs (n + 1, true),
  scan_inner-older a bs (n + 1, better),
  scan_inner-older a bs (n, better),
)

abbrev better_of : Score → Bool
better_of none = false
better_of (some (shared, better)) = better

scan_inner-newer :
    (a : Dep) (bs : List Dep) (n m : ℕ) (better : Bool)
    → scan_inner a bs (n, better) ≡ some (m, true)
    → (better || any (newer a) bs) ≡ true
unfolding scan_inner
scan_inner-newer a [] n m better e = let same : better ≡ true = ap better_of e in ground arith
scan_inner-newer a (b ∷ bs) n m better e =
    ground (arith, scan_inner-newer a bs (n + 1) m better, scan_inner-newer a bs n m better)

scan_outer-older :
    (ds bs : List Dep) (s : ℕ × Bool)
    → any (λ a. any (older a) bs) ds ≡ true
    → scan_outer ds bs s ≡ none
unfolding scan_outer
scan_outer-older [] bs s h = cc
scan_outer-older (a ∷ ds) bs s h = elim (Option-cases (scan_inner a bs s)) [
  | inl k ↦ ground arith
  | inr (s', k) ↦ ground (arith, scan_inner-older a bs s, scan_outer-older ds bs s')
]

any-or : (p q : Dep → Bool) (ds : List Dep) → any (λ d. p d || q d) ds ≡ (any p ds || any q ds)
any-or p q [] = refl
any-or p q (d ∷ ds) = ground (arith, any-or p q ds)

any-never : (ds : List Dep) → any (λ d. false) ds ≡ false
any-never [] = refl
any-never (d ∷ ds) = any-never ds

any-swap :
    (p : Dep → Dep → Bool) (ds bs : List Dep)
    → any (λ a. any (p a) bs) ds ≡ any (λ b. any (λ a. p a b) ds) bs
any-swap p [] bs = sym (any-never bs)
any-swap p (a ∷ ds) bs = rw (any-swap p ds bs) (sym (any-or (p a) (λ b. any (λ c. p c b) ds) bs))

scan_outer-newer :
    (ds bs : List Dep) (n m : ℕ) (better : Bool)
    → scan_outer ds bs (n, better) ≡ some (m, true)
    → (better || any (λ a. any (newer a) bs) ds) ≡ true
unfolding scan_outer
scan_outer-newer [] bs n m better e = let same : better ≡ true = ap better_of e in ground arith
scan_outer-newer (a ∷ ds) bs n m better e = elim (Option-cases (scan_inner a bs (n, better))) [
  | inl k ↦ absurd (ground arith)
  | inr ((n', true), k) ↦ ground (arith, scan_inner-newer a bs n n' better k)
  | inr ((n', false), k) ↦ ground (arith, scan_outer-newer ds bs n' m false)
]

later-newer :
    (ds bs : List Dep)
    → is_later_score (scan_outer ds bs (0, false)) ≡ true
    → any (λ a. any (newer a) bs) ds ≡ true
later-newer ds bs h = elim (Option-cases (scan_outer ds bs (0, false))) [
  | inl k ↦ absurd (ground arith)
  | inr ((m, false), k) ↦ absurd (ground arith)
  | inr ((m, true), k) ↦ scan_outer-newer ds bs 0 m false k
]

-- A newer dependency of the first build is an older one of the second.
newer-older :
    (ds bs : List Dep)
    → any (λ a. any (newer a) bs) ds ≡ true
    → any (λ b. any (older b) ds) bs ≡ true
newer-older ds bs h =
    let swapped = any-swap newer ds bs in
    any_weaken (λ b. any (λ a. newer a b) ds) (λ b. any (older b) ds) bs
      (λ b. any_weaken (λ a. newer a b) (older b) ds (λ a. newer-flip a b)) (sym swapped ∙ h)

-- No two builds are each made against the later closure: where `closureIsLater` says it of one, it
-- does not say it of the other.
pub closure_is_later-asymmetric :
    (c d : Concrete) → closure_is_later c d ≡ true → closure_is_later d c ≡ false
unfolding closure_is_later
closure_is_later-asymmetric c d h =
    let behind : is_later_score (scan_outer c.deps d.deps (0, false)) ≡ true = ground arith in
    let refused =
      scan_outer-older d.deps c.deps (0, false)
        (newer-older c.deps d.deps (later-newer c.deps d.deps behind)) in
    ground arith
