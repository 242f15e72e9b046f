-- ===== src/Constraint/Recursion.antt =====
-- The recursion of `satisfies` ends: each part of a text that is cut is shorter than the text.
use bottle.Common.{
  ℕ, zero, suc, ◌+◌, ◌-◌, ◌≤◌, ◌<◌, List, [], ◌∷◌, ◌++◌, ◌≡◌, ◌≢◌, ◌∙◌, refl, Bool, arith,
}
use bottle.Common.Lists.{
  length, length-append, total, All, All-map, All-of, All-lt-total, any_congr, all_congr,
}
use bottle.Common.Text.{
  Bytes, split, split_from, prepend, trim_space, trim_both, is_quote, is_space, length-trim_both-le,
}
use bottle.Version.{Ver}
use bottle.Constraint.{
  bars, emit, comparators, split_comparators, satisfies_body, satisfies_within, satisfies,
}

-- A part and the separator behind it.
abbrev weight : Bytes → ℕ
weight p = length p + 1

total-prepend :
    (c : ℕ) (ps : List Bytes) → ps ≢ [] → total weight (prepend c ps) ≡ total weight ps + 1
total-prepend c [] h = absurd (h refl)
total-prepend c (p ∷ ps) h = omega arith

prepend-ne-nil : (c : ℕ) (ps : List Bytes) → prepend c ps ≢ []
prepend-ne-nil c [] h = cc
prepend-ne-nil c (p ∷ ps) h = cc

split_from-ne-nil : (sep : Bytes) (skip : ℕ) (s : Bytes) → split_from sep skip s ≢ []
unfolding split_from
split_from-ne-nil sep skip [] = λ h. cc
split_from-ne-nil sep (suc skip) (c ∷ s) = split_from-ne-nil sep skip s
split_from-ne-nil sep zero (c ∷ s) = ground (arith, prepend-ne-nil c (split_from sep 0 s))

total-split_from :
    (sep : Bytes) (skip : ℕ) (s : Bytes) → total weight (split_from sep skip s) ≤ length s + 1
unfolding split_from
total-split_from sep skip [] = omega arith
total-split_from sep (suc skip) (c ∷ s) = omega (arith, total-split_from sep skip s)
total-split_from sep zero (c ∷ s) = ground (
  arith,
  total-split_from sep (length sep - 1) s,
  total-split_from sep 0 s,
  total-prepend c (split_from sep 0 s) (split_from-ne-nil sep 0 s),
)

-- Each of several parts of `strings.Split` is shorter than the text.
length-split-lt :
    (sep s : Bytes) → 2 ≤ length (split sep s) → All (λ p. length p < length s) (split sep s)
unfolding split
length-split-lt sep s h =
    All-map (λ p (k : weight p < length s + 1). omega arith) (split_from sep 0 s)
      (All-lt-total weight (split_from sep 0 s) (length s + 1)
        (All-of (λ p. 1 ≤ weight p) (λ p. omega arith) (split_from sep 0 s))
        (total-split_from sep 0 s) h)

emit-total :
    (piece : Bytes) (rest : List Bytes)
    → total length (emit piece rest) ≤ length piece + total length rest
unfolding trim_space
emit-total piece rest = ground (arith, length-trim_both-le is_space piece)

total-comparators : (piece s : Bytes) → total length (comparators piece s) ≤ length piece + length s
unfolding comparators
total-comparators piece [] = omega (arith, emit-total piece [])
total-comparators piece (c ∷ s) = ground (
  arith,
  emit-total piece (comparators (c ∷ []) s),
  total-comparators (c ∷ []) s,
  total-comparators (piece ++ c ∷ []) s,
  length-append {0} piece (c ∷ []),
)

abbrev Positive : List Bytes → Type 0
Positive = All (λ p. 1 ≤ length p)

emit-Positive : (piece : Bytes) (rest : List Bytes) → Positive rest → Positive (emit piece rest)
emit-Positive piece rest h = ground arith

comparators-Positive : (piece s : Bytes) → Positive (comparators piece s)
unfolding comparators
comparators-Positive piece [] = emit-Positive piece [] tt
comparators-Positive piece (c ∷ s) = ground (
  arith,
  emit-Positive piece (comparators (c ∷ []) s) (comparators-Positive (c ∷ []) s),
  comparators-Positive (piece ++ c ∷ []) s,
)

length-split_comparators-lt :
    (s : Bytes)
    → 2 ≤ length (split_comparators s)
    → All (λ p. length p < length s) (split_comparators s)
unfolding split_comparators
length-split_comparators-lt [] h = absurd (omega arith)
length-split_comparators-lt (c ∷ s) h =
    All-lt-total length (comparators (c ∷ []) s) (length (c ∷ s)) (comparators-Positive (c ∷ []) s)
      (omega (arith, total-comparators (c ∷ []) s)) h

-- The text that `satisfies` looks at, without the quotes and the white space round it.
abbrev core : Bytes → Bytes
core text = trim_space (trim_both is_quote text)

length-core-le : (text : Bytes) → length (core text) ≤ length text
unfolding trim_space
length-core-le text = omega (
  arith,
  length-trim_both-le is_quote text,
  length-trim_both-le is_space (trim_both is_quote text),
)

-- The body asks the recursive call only about shorter texts.
satisfies_body_congr :
    (f g : Bytes → Bool) (v : Ver) (text : Bytes)
    → ((p : Bytes) → length p < length text → f p ≡ g p)
    → satisfies_body f v text ≡ satisfies_body g v text
unfolding satisfies_body
satisfies_body_congr f g v text same =
    let c = core text in
    let shorter =
      λ (p : Bytes) (h : length p < length c). same p (omega (arith, length-core-le text)) in
    ground (
      arith,
      λ (h : 2 ≤ length (split bars c)).
          any_congr f g (split bars c) (All-map shorter (split bars c) (length-split-lt bars c h)),
      λ (h : 2 ≤ length (split_comparators c)).
          all_congr f g (split_comparators c)
            (All-map shorter (split_comparators c) (length-split_comparators-lt c h)),
    )

-- Fuel above the length of the text is enough: more of it changes nothing.
satisfies_within_enough :
    (n m : ℕ) (v : Ver) (text : Bytes)
    → length text < n
    → length text < m
    → satisfies_within n v text ≡ satisfies_within m v text
unfolding satisfies_within
satisfies_within_enough zero m v text h k = absurd (omega arith)
satisfies_within_enough (suc n) zero v text h k = absurd (omega arith)
satisfies_within_enough (suc n) (suc m) v text h k =
    satisfies_body_congr (satisfies_within n v) (satisfies_within m v) v text
      (λ p short. satisfies_within_enough n m v p (omega arith) (omega arith))

-- `satisfies` obeys the recursive equation of the source, with no fuel in it: on every text it is
-- the body of the method with calls of the method itself, so the recursion ends on every text.
pub satisfies_unrolled :
    (v : Ver) (text : Bytes) → satisfies v text ≡ satisfies_body (satisfies v) v text
unfolding satisfies
satisfies_unrolled v text =
    let n = length text in
    satisfies_within_enough (n + 1) (suc n) v text (omega arith) (omega arith)
    ∙ satisfies_body_congr (satisfies_within n v) (satisfies v) v text
        (λ p short. satisfies_within_enough n (length p + 1) v p short (omega arith))
