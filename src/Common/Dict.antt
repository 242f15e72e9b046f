-- ===== src/Common/Dict.antt =====
-- Go maps from texts, as association lists.
use bottle.Common.Text.{Bytes, bytes_eq, bytes_eq→eq, eq→bytes_eq}
use bottle.Common.Tests.{if◌then◌else◌}
use mathlib.Core.Bool.{Bool, false, ◌||◌}
use mathlib.Core.List.{List, [], ◌∷◌, ◌++◌}
use mathlib.Core.Path.{◌≡◌, refl}
use native.Mathlib.Omega.{arith}

abbrev pub mem_bytes : Bytes → List Bytes → Bool
mem_bytes s [] = false
mem_bytes s (t ∷ ts) = bytes_eq s t || mem_bytes s ts

pub mem-append :
    (p : Bytes) (xs ys : List Bytes) → mem_bytes p (xs ++ ys) ≡ (mem_bytes p xs || mem_bytes p ys)
mem-append p [] ys = refl
mem-append p (x ∷ xs) ys = ground (arith, mem-append p xs ys)

-- No text stands twice.
abbrev pub IsOnce : List Bytes → Type 0
IsOnce [] = Unit
IsOnce (p ∷ ps) = (mem_bytes p ps ≡ false) × IsOnce ps

abbrev pub keys {ℓ} : {V : Type ℓ} → List (Bytes × V) → List Bytes
keys [] = []
keys ((k, v) ∷ m) = k ∷ keys m

module _ {ℓ} {V : Type ℓ} where
  -- A key that is missing reads as the zero value `d`.
  unfoldable pub get_or : Bytes → List (Bytes × V) → V → V
  unfolding bytes_eq
  get_or k [] d = d
  get_or k ((j, v) ∷ m) d = if bytes_eq k j then v else get_or k m d

  unfoldable pub set : Bytes → V → List (Bytes × V) → List (Bytes × V)
  unfolding bytes_eq
  set k v [] = (k, v) ∷ []
  set k v ((j, w) ∷ m) = if bytes_eq k j then (j, v) ∷ m else (j, w) ∷ set k v m

  pub get_or-set :
      (k j : Bytes) (v d : V) (m : List (Bytes × V))
      → get_or j (set k v m) d ≡ (if bytes_eq j k then v else get_or j m d)
  unfolding get_or set
  get_or-set k j v d [] = refl
  get_or-set k j v d ((i, w) ∷ m) = ground (
    arith,
    get_or-set k j v d m,
    bytes_eq→eq k i,
    eq→bytes_eq k i,
    bytes_eq→eq j i,
    eq→bytes_eq j i,
    bytes_eq→eq j k,
    eq→bytes_eq j k,
  )
