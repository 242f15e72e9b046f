-- ===== src/Common/Paths/Names.antt =====
-- Rooted paths as lists of names.
use Prim.Native.Nat.{ℕ}
use mathlib.Core.Bool.{true, false}
use mathlib.Core.List.{List, [], ◌∷◌, ◌++◌, append_assoc, append-nil}
use mathlib.Core.Logic.{inl, inr}
use mathlib.Core.Path.{◌≡◌, refl, sym, ap, ◌∙◌, subst}
use native.Mathlib.Omega.{arith}
use bottle.Common.Lists.{All, is_empty}
use bottle.Common.Paths.{slashed}
use bottle.Common.Tests.{Bool-cases, ◌==◌}
use bottle.Common.Text.{Bytes, codes, bytes_eq, prepend, split_byte}

abbrev pub IsPart : Bytes → Type 0
IsPart = All (λ c. (c == b'/') ≡ false)

-- A name of a file: no slash in it, not empty, and neither of the two that mean a directory.
abbrev pub IsName : Bytes → Type 0
IsName p =
    IsPart p
    × (is_empty p ≡ false)
    × (bytes_eq p (codes ".") ≡ false)
    × (bytes_eq p (codes "..") ≡ false)

prepend-IsPart :
    (c : ℕ) (ps : List Bytes) → (c == b'/') ≡ false → All IsPart ps → All IsPart (prepend c ps)
prepend-IsPart c [] h k = ((h, tt), tt)
prepend-IsPart c (p ∷ ps) h (k, ks) = ((h, k), ks)

split_byte_apart :
    (c : ℕ) (s : Bytes) → (c == b'/') ≡ true → split_byte b'/' (c ∷ s) ≡ [] ∷ split_byte b'/' s
unfolding split_byte
split_byte_apart c s h = ground arith

split_byte_joined :
    (c : ℕ) (s : Bytes)
    → (c == b'/') ≡ false
    → split_byte b'/' (c ∷ s) ≡ prepend c (split_byte b'/' s)
unfolding split_byte
split_byte_joined c s h = ground arith

pub split_byte-IsPart : (s : Bytes) → All IsPart (split_byte b'/' s)
split_byte-IsPart [] = unfold split_byte in (tt, tt)
split_byte-IsPart (c ∷ s) =
    let rest = split_byte-IsPart s in
    elim (Bool-cases (c == b'/')) [
      | inl slash ↦ subst (All IsPart) (sym (split_byte_apart c s slash)) (tt, rest)
      | inr other ↦
          subst (All IsPart) (sym (split_byte_joined c s other))
            (prepend-IsPart c (split_byte b'/' s) other rest)
    ]

-- A part in front of a text that begins with a slash.
split_byte_part :
    (p t : Bytes) (rest : List Bytes)
    → IsPart p
    → split_byte b'/' t ≡ [] ∷ rest
    → split_byte b'/' (p ++ t) ≡ p ∷ rest
unfolding split_byte
split_byte_part [] t rest h e = e
split_byte_part (c ∷ p) t rest (h, hs) e = ground (arith, split_byte_part p t rest hs e)

split_byte_slash : (s : Bytes) → split_byte b'/' (b'/' ∷ s) ≡ [] ∷ split_byte b'/' s
unfolding split_byte
split_byte_slash s = refl

split_byte_whole : (p : Bytes) → IsPart p → split_byte b'/' p ≡ p ∷ []
unfolding split_byte
split_byte_whole [] h = refl
split_byte_whole (c ∷ p) (h, hs) = ground (arith, split_byte_whole p hs)

pub names-IsPart : (ps : List Bytes) → All IsName ps → All IsPart ps
names-IsPart [] h = tt
names-IsPart (p ∷ ps) ((h, _, _, _), hs) = (h, names-IsPart ps hs)

-- The parts of a path with more behind it.
pub split_byte-slashed :
    (ps : List Bytes) (s : Bytes)
    → All IsPart ps
    → split_byte b'/' (slashed ps ++ b'/' ∷ s) ≡ [] ∷ (ps ++ split_byte b'/' s)
split_byte-slashed [] s h = split_byte_slash s
split_byte-slashed (p ∷ ps) s (h, hs) =
    let later = split_byte-slashed ps s hs in
    let here = split_byte_part p (slashed ps ++ b'/' ∷ s) (ps ++ split_byte b'/' s) h later in
    split_byte_slash ((p ++ slashed ps) ++ b'/' ∷ s)
    ∙ ap (λ t. [] ∷ split_byte b'/' t) (append_assoc p (slashed ps) (b'/' ∷ s))
    ∙ ap (λ t. [] ∷ t) here

-- The parts of a path from its first name on.
pub split_byte_names :
    (p : Bytes) (ps : List Bytes)
    → IsPart p
    → All IsPart ps
    → split_byte b'/' (p ++ slashed ps) ≡ p ∷ ps
split_byte_names p [] h hs = ap (split_byte b'/') (append-nil p) ∙ split_byte_whole p h
split_byte_names p (q ∷ qs) h (k, ks) =
    split_byte_part p (slashed (q ∷ qs)) (q ∷ qs) h
      (split_byte_slash (q ++ slashed qs) ∙ ap (λ t. [] ∷ t) (split_byte_names q qs k ks))

pub slashed-append : (ps qs : List Bytes) → slashed (ps ++ qs) ≡ slashed ps ++ slashed qs
slashed-append [] qs = refl
slashed-append (p ∷ ps) qs =
    ap (λ t. b'/' ∷ (p ++ t)) (slashed-append ps qs)
    ∙ ap (λ t. b'/' ∷ t) (sym (append_assoc p (slashed ps) (slashed qs)))
