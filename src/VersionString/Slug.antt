-- ===== src/VersionString/Slug.antt =====
-- versionstring.go: what a platform slug that passes is made of.
use bottle.Common.{
  ℕ, ◌+◌, [], ◌∷◌, ◌++◌, ◌≡◌, ◌≤◌, ◌⊎◌, inl, inr, refl, sym, ◌∙◌, ap, true, false, none, arith,
}
use bottle.Common.Lists.{length, All}
use bottle.Common.Result.{ok, err, Result-cases}
use bottle.Common.Tests.{Bool-cases, ◌==◌}
use bottle.Common.Text.{Bytes}
use bottle.VersionString.{
  Refusal, bad_byte, is_slug_byte, scan_slug, last_byte, validate_platform_slug,
}

abbrev pub AreSlug : Bytes → Type 0
AreSlug = All (λ c. is_slug_byte c ≡ true)

module _ (i n : ℕ) (c : ℕ) (s : Bytes) where
  scan_slug_plain : is_slug_byte c ≡ true → scan_slug i n (c ∷ s) ≡ scan_slug (i + 1) n s
  unfolding scan_slug
  scan_slug_plain h = ground arith

  scan_slug_slash :
      is_slug_byte c ≡ false
      → (c == b'/') ≡ true
      → scan_slug i n (c ∷ s) ≡ scan_slug (i + 1) (n + 1) s
  unfolding scan_slug
  scan_slug_slash h k = ground arith

  scan_slug_other :
      is_slug_byte c ≡ false → (c == b'/') ≡ false → (e : Refusal) × (scan_slug i n (c ∷ s) ≡ err e)
  unfolding scan_slug
  scan_slug_other h k = (bad_byte c i, ground arith)

-- A text that is cut at its first slash; the count is one more, or there are slashes behind it.
abbrev IsCut : ℕ → ℕ → Bytes → Type 0
IsCut n m s =
    (os : Bytes) × (arch : Bytes) × (s ≡ os ++ b'/' ∷ arch)
    × AreSlug os
    × (((m ≡ n + 1) × AreSlug arch) ⊎ (n + 2 ≤ m))

scan_slug-IsCut :
    (i n m : ℕ) (s : Bytes) → scan_slug i n s ≡ ok m → ((m ≡ n) × AreSlug s) ⊎ IsCut n m s
scan_slug-IsCut i n m [] e = unfold scan_slug in (inl (ground arith, tt))
scan_slug-IsCut i n m (c ∷ s) e = elim (Bool-cases (is_slug_byte c)) [
  | inl plain ↦ elim (scan_slug-IsCut (i + 1) n m s (sym (scan_slug_plain i n c s plain) ∙ e)) [
    | inl (same, all) ↦ inl (same, (plain, all))
    | inr (os, arch, cut, good, rest) ↦ inr (c ∷ os, arch, ap (λ t. c ∷ t) cut, (plain, good), rest)
  ]
  | inr other ↦ elim (Bool-cases (c == b'/')) [
    | inl slash ↦
        let at : c ≡ b'/' = ground arith in
        let joined : c ∷ s ≡ b'/' ∷ s = ap (λ d. d ∷ s) at in
        elim (scan_slug-IsCut (i + 1) (n + 1) m s (sym (scan_slug_slash i n c s other slash) ∙ e)) [
          | inl (same, all) ↦ inr ([], s, joined, tt, inl (same, all))
          | inr (os, arch, cut, good, inl (same, all)) ↦ inr ([], s, joined, tt, inr (omega arith))
          | inr (os, arch, cut, good, inr more) ↦ inr ([], s, joined, tt, inr (omega arith))
        ]
    | inr bad ↦ let (f, refused) = scan_slug_other i n c s other bad in absurd (ground arith)
  ]
]

-- `os/arch`: a slash between two texts of the alphabet that are not empty.
abbrev pub IsPlatformSlug : Bytes → Type 0
IsPlatformSlug s =
    (os : Bytes) × (arch : Bytes) × (s ≡ os ++ b'/' ∷ arch)
    × (1 ≤ length os)
    × (1 ≤ length arch)
    × AreSlug os
    × AreSlug arch

last_byte-append : (c : ℕ) (s : Bytes) → last_byte c (s ++ b'/' ∷ []) ≡ b'/'
last_byte-append c [] = refl
last_byte-append c (d ∷ s) = last_byte-append d s

validate_platform_slug_steps :
    (c : ℕ) (s : Bytes)
    → validate_platform_slug (c ∷ s) ≡ none
    → (scan_slug 0 0 (c ∷ s) ≡ ok 1)
      × ((c == b'/') ≡ false)
      × ((last_byte c s == b'/') ≡ false)
      × (length (c ∷ s) ≤ 32)
unfolding validate_platform_slug
validate_platform_slug_steps c s h = elim (Result-cases (scan_slug 0 0 (c ∷ s))) [
  | inr (e, k) ↦ absurd (ground arith)
  | inl (n, k) ↦
      let one : n ≡ 1 = ground arith in (k ∙ ap ok one, ground arith, ground arith, ground arith)
]

abbrev first_of : Bytes → ℕ
first_of [] = 0
first_of (c ∷ s) = c

abbrev last_of : Bytes → ℕ
last_of [] = 0
last_of (c ∷ s) = last_byte c s

slug_ends :
    (c : ℕ) (s os arch : Bytes)
    → c ∷ s ≡ os ++ b'/' ∷ arch
    → (c == b'/') ≡ false
    → (last_byte c s == b'/') ≡ false
    → (1 ≤ length os) × (1 ≤ length arch)
slug_ends c s [] arch e h k = let same = ap first_of e in absurd (ground arith)
slug_ends c s (d ∷ os) [] e h k =
    let same = ap last_of e in let slash = last_byte-append d os in absurd (ground arith)
slug_ends c s (d ∷ os) (a ∷ arch) e h k = (omega arith, omega arith)

-- A text that `ValidatePlatformSlug` passes has at most 32 bytes and is an operating system, a slash
-- and an architecture, neither of them empty, and both of lower-case letters, digits and the marks
-- `.`, `-` and `_` only.
pub validate_platform_slug-IsPlatformSlug :
    (s : Bytes) → validate_platform_slug s ≡ none → (length s ≤ 32) × IsPlatformSlug s
validate_platform_slug-IsPlatformSlug [] h = unfold validate_platform_slug in (cc)
validate_platform_slug-IsPlatformSlug (c ∷ s) h =
    let (scanned, first, last, short) = validate_platform_slug_steps c s h in
    elim (scan_slug-IsCut 0 0 1 (c ∷ s) scanned) [
      | inl (same, all) ↦ absurd (omega arith)
      | inr (os, arch, cut, good, inr many) ↦ absurd (omega arith)
      | inr (os, arch, cut, good, inl (same, all)) ↦
          let (some_os, some_arch) = slug_ends c s os arch cut first last in
          (short, (os, arch, cut, some_os, some_arch, good, all))
    ]
