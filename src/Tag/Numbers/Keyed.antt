-- ===== src/Tag/Numbers/Keyed.antt =====
-- `numericKey`: two versions have one key only if they are one version.
use bottle.Common.{ℕ, zero, suc, List, [], ◌∷◌, ◌++◌, ◌≡◌, ◌↔◌, refl, sym, ap, ◌∙◌, false, arith}
use bottle.Common.Decimal.{decimal, itoa}
use bottle.Common.Int.{ℤ, pos, negsuc, is_zero, cmp_int}
use bottle.Common.Lists.{All, is_empty}
use bottle.Common.Tests.{if◌then◌else◌}
use bottle.Common.Text.{Bytes, codes}
use bottle.Concrete.Fields.{cons_inj}
use bottle.Tag.{numeric_key, trim_zeros, drop_zeros, variant_sep}
use bottle.Tag.Zeros.{number_at, trim_zeros-exact}
use bottle.Version.{Ver}
use bottle.Tag.Numbers.{IsNatural, Stops, Ends, number_cut, numbers, join-numbers, numbers_cut}

-- How the variant is written, and the rebuild before it.
abbrev variant_text : Bytes → Bytes
variant_text [] = []
variant_text (c ∷ v) = b'-' ∷ b'h' ∷ c ∷ v

abbrev rebuild_text : ℕ → Bytes
rebuild_text zero = []
rebuild_text (suc n) = b'_' ∷ decimal (suc n)

variant_text_inj : (v w : Bytes) → variant_text v ≡ variant_text w → v ≡ w
variant_text_inj [] [] e = refl
variant_text_inj [] (d ∷ w) e = absurd cc
variant_text_inj (c ∷ v) [] e = absurd cc
variant_text_inj (c ∷ v) (d ∷ w) e =
    (cons_inj b'h' b'h' (c ∷ v) (d ∷ w) ((cons_inj b'-' b'-' (b'h' ∷ c ∷ v) (b'h' ∷ d ∷ w) e).1)).1

variant_text-Stops : (v : Bytes) → Stops (variant_text v)
variant_text-Stops [] = tt
variant_text-Stops (c ∷ v) = refl

suffix_apart :
    (v w : Bytes) (n : ℕ) → ¬ (variant_text v ≡ b'_' ∷ (decimal (suc n) ++ variant_text w))
suffix_apart [] w n e = cc
suffix_apart (c ∷ v) w n e =
    let (same, rest) = cons_inj b'-' b'_' (b'h' ∷ c ∷ v) (decimal (suc n) ++ variant_text w) e in
    absurd (omega arith)

suffix_inj :
    (m n : ℕ) (v w : Bytes)
    → rebuild_text m ++ variant_text v ≡ rebuild_text n ++ variant_text w
    → (m ≡ n) × (v ≡ w)
suffix_inj zero zero v w e = (refl, variant_text_inj v w e)
suffix_inj zero (suc n) v w e = absurd (suffix_apart v w n e)
suffix_inj (suc m) zero v w e = absurd (suffix_apart w v m (sym e))
suffix_inj (suc m) (suc n) v w e =
    let behind =
      (cons_inj b'_' b'_' (decimal (suc m) ++ variant_text v) (decimal (suc n) ++ variant_text w)
        e).1 in
    let (same, rest) =
      number_cut (suc m) (suc n) (variant_text v) (variant_text w) (variant_text-Stops v)
        (variant_text-Stops w) behind in
    (same, variant_text_inj v w rest)

suffix-Ends : (n : ℕ) (v : Bytes) → Ends (rebuild_text n ++ variant_text v)
suffix-Ends zero [] = tt
suffix-Ends zero (c ∷ v) = (refl, λ e. omega arith)
suffix-Ends (suc n) v = (refl, λ e. omega arith)

drop_zeros-IsNatural : (xs : List ℤ) → All IsNatural xs → All IsNatural (drop_zeros xs)
unfolding drop_zeros
drop_zeros-IsNatural [] h = tt
drop_zeros-IsNatural (x ∷ xs) (h, hs) = ground (arith, drop_zeros-IsNatural xs hs)

trim_zeros-IsNatural : (xs : List ℤ) → All IsNatural xs → All IsNatural (trim_zeros xs)
unfolding trim_zeros
trim_zeros-IsNatural [] h = tt
trim_zeros-IsNatural (x ∷ xs) (h, hs) = (h, drop_zeros-IsNatural xs hs)

rebuild_text_lem :
    (n : ℕ) → (if is_zero (pos n) then [] else codes "_" ++ itoa (pos n)) ≡ rebuild_text n
unfolding itoa cmp_int
rebuild_text_lem zero = ground arith
rebuild_text_lem (suc n) = ground arith

variant_text_lem : (v : Bytes) → (if is_empty v then [] else variant_sep ++ v) ≡ variant_text v
variant_text_lem [] = refl
variant_text_lem (c ∷ v) = refl

numeric_key_text :
    (v : Ver) (n : ℕ)
    → v.rebuild ≡ pos n
    → numeric_key v ≡ numbers (trim_zeros v.nums) ++ (rebuild_text n ++ variant_text v.variant)
unfolding numeric_key
numeric_key_text v n e =
    rw (e, join-numbers (trim_zeros v.nums), rebuild_text_lem n, variant_text_lem v.variant) refl

natural : (x : ℤ) → IsNatural x → (n : ℕ) × (x ≡ pos n)
natural (pos n) h = (n, refl)
natural (negsuc n) h = absurd h

-- A version that has a number, and none below zero.
abbrev pub IsCounted : Ver → Type 0
IsCounted v = (is_empty v.nums ≡ false) × All IsNatural v.nums × IsNatural v.rebuild

-- Two versions that are one: the same number at every place, the same rebuild and the same variant.
abbrev pub AreOne : Ver → Ver → Type 0
AreOne v w =
    ((i : ℕ) → number_at i v.nums ≡ number_at i w.nums)
    × (v.rebuild ≡ w.rebuild)
    × (v.variant ≡ w.variant)

trim_zeros-number_at :
    (xs ys : List ℤ)
    → is_empty xs ≡ false
    → is_empty ys ≡ false
    → (trim_zeros xs ≡ trim_zeros ys) ↔ ((i : ℕ) → number_at i xs ≡ number_at i ys)
trim_zeros-number_at [] ys h k = absurd cc
trim_zeros-number_at (x ∷ xs) [] h k = absurd cc
trim_zeros-number_at (x ∷ xs) (y ∷ ys) h k = trim_zeros-exact x y xs ys

numeric_key_parts :
    (v w : Ver) (m n : ℕ)
    → All IsNatural v.nums
    → All IsNatural w.nums
    → v.rebuild ≡ pos m
    → w.rebuild ≡ pos n
    → numeric_key v ≡ numeric_key w
    → (trim_zeros v.nums ≡ trim_zeros w.nums) × (m ≡ n) × (v.variant ≡ w.variant)
numeric_key_parts v w m n vs ws vm wn e =
    let opened = sym (numeric_key_text v m vm) ∙ (e ∙ numeric_key_text w n wn) in
    let (nums, rest) =
      numbers_cut (trim_zeros v.nums) (trim_zeros w.nums) (rebuild_text m ++ variant_text v.variant)
        (rebuild_text n ++ variant_text w.variant) (trim_zeros-IsNatural v.nums vs)
        (trim_zeros-IsNatural w.nums ws) (suffix-Ends m v.variant) (suffix-Ends n w.variant)
        opened in
    let (rebuilds, variants) = suffix_inj m n v.variant w.variant rest in (nums, rebuilds, variants)

numeric_key-same :
    (v w : Ver)
    → trim_zeros v.nums ≡ trim_zeros w.nums
    → v.rebuild ≡ w.rebuild
    → v.variant ≡ w.variant
    → numeric_key v ≡ numeric_key w
unfolding numeric_key
numeric_key-same v w nums rebuilds variants = rw (nums, rebuilds, variants) refl

pub numeric_key-AreOne :
    (v w : Ver) → IsCounted v → IsCounted w → (numeric_key v ≡ numeric_key w) ↔ AreOne v w
numeric_key-AreOne v w (filled, vs, vr) (filled', ws, wr) =
    let (m, vm) = natural v.rebuild vr in
    let (n, wn) = natural w.rebuild wr in
    let (there, back) = trim_zeros-number_at v.nums w.nums filled filled' in
    (
      λ e.
          let (nums, rebuilds, variants) = numeric_key_parts v w m n vs ws vm wn e in
          (there nums, vm ∙ (ap pos rebuilds ∙ sym wn), variants),
      λ one. numeric_key-same v w (back one.0) one.1 one.2,
    )
