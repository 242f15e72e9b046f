-- ===== src/VersionString.antt =====
-- versionstring.go: the shape that a version string from a lock, a catalogue or a registry must have.
pub mod Slug
use bottle.Common.{
  ℕ, ◌+◌, [], ◌∷◌, ◌≡◌, ◌↔◌, ◌≤◌, refl, ◌||◌, not, Bool, true, false, Option, none, some, arith,
}
use bottle.Common.Lists.{length, All}
use bottle.Common.Result.{Result, ok, err}
use bottle.Common.Tests.{ltb, ◌==◌, if◌then◌else◌}
use bottle.Common.Text.{Bytes, is_digit, is_lower, is_upper}

abbrev pub max_version_string : ℕ
max_version_string = 64

-- Why a string is refused: the text of the error, without the wording.
pub data Refusal : Type 0 where
  empty : Refusal
  too_long : ℕ → Refusal
  bad_byte : (byte at : ℕ) → Refusal
  not_a_slug : Refusal

abbrev pub is_version_byte : ℕ → Bool
is_version_byte c =
    is_digit c
    || is_lower c
    || is_upper c
    || c == b'.'
    || c == b'-'
    || c == b'+'
    || c == b'_'
    || c == b'~'

-- The loop over the bytes, from position `i`.
scan_version : ℕ → Bytes → Option Refusal
scan_version i [] = none
scan_version i (c ∷ s) =
    let rest = scan_version (i + 1) s in if is_version_byte c then rest else some (bad_byte c i)

-- `ValidateVersionString`: `none` is the nil error.
unfoldable pub validate_version_string : Bytes → Option Refusal
unfolding scan_version
validate_version_string [] = some empty
validate_version_string (c ∷ s) =
    if ltb max_version_string (length (c ∷ s))
    then some (too_long (length (c ∷ s)))
    else scan_version 0 (c ∷ s)

abbrev pub max_spec_string : ℕ
max_spec_string = 128

abbrev pub is_spec_byte : ℕ → Bool
is_spec_byte c =
    is_digit c || is_lower c || is_upper c || c == b':' || c == b'.' || c == b'-' || c == b'_'

scan_spec : ℕ → Bytes → Option Refusal
scan_spec i [] = none
scan_spec i (c ∷ s) =
    let rest = scan_spec (i + 1) s in if is_spec_byte c then rest else some (bad_byte c i)

-- `ValidateSpecHash`.
unfoldable pub validate_spec_hash : Bytes → Option Refusal
unfolding scan_spec
validate_spec_hash s =
    if ltb max_spec_string (length s) then some (too_long (length s)) else scan_spec 0 s

abbrev pub max_platform_slug : ℕ
max_platform_slug = 32

abbrev pub is_slug_byte : ℕ → Bool
is_slug_byte c = is_digit c || is_lower c || c == b'.' || c == b'-' || c == b'_'

-- The loop of `ValidatePlatformSlug`: the number of slashes.
unfoldable pub scan_slug : ℕ → ℕ → Bytes → Result Refusal ℕ
scan_slug i slashes [] = ok slashes
scan_slug i slashes (c ∷ s) = elim (is_slug_byte c) [
  | true ↦ scan_slug (i + 1) slashes s
  | false ↦ elim (c == b'/') [
    | true ↦ scan_slug (i + 1) (slashes + 1) s
    | false ↦ err (bad_byte c i)
  ]
]

-- `s[len(s)-1]`, of a text that is not empty.
abbrev pub last_byte : ℕ → Bytes → ℕ
last_byte c [] = c
last_byte c (d ∷ s) = last_byte d s

-- `ValidatePlatformSlug`.
unfoldable pub validate_platform_slug : Bytes → Option Refusal
unfolding scan_slug
validate_platform_slug [] = some empty
validate_platform_slug (c ∷ s) =
    if ltb max_platform_slug (length (c ∷ s))
    then some (too_long (length (c ∷ s)))
    else elim (scan_slug 0 0 (c ∷ s)) [
      | err e ↦ some e
      | ok slashes ↦
          if not (slashes == 1) || c == b'/' || last_byte c s == b'/' then some not_a_slug else none
    ]

scan_version_sound :
    (i : ℕ) (s : Bytes) → scan_version i s ≡ none → All (λ c. is_version_byte c ≡ true) s
unfolding scan_version
scan_version_sound i [] h = tt
scan_version_sound i (c ∷ s) h = ground (arith, scan_version_sound (i + 1) s)

scan_version_full :
    (i : ℕ) (s : Bytes) → All (λ c. is_version_byte c ≡ true) s → scan_version i s ≡ none
unfolding scan_version
scan_version_full i [] h = refl
scan_version_full i (c ∷ s) (h, hs) = ground (arith, scan_version_full (i + 1) s hs)

-- A text of one byte to 64, all of the alphabet.
abbrev pub IsVersionString : Bytes → Type 0
IsVersionString s = (1 ≤ length s) × (length s ≤ 64) × All (λ c. is_version_byte c ≡ true) s

-- `ValidateVersionString` passes exactly the texts of one byte to 64 bytes whose bytes are all
-- letters, digits or one of its punctuation marks.
pub validate_version_string-exact :
    (s : Bytes) → (validate_version_string s ≡ none) ↔ IsVersionString s
unfolding validate_version_string
validate_version_string-exact [] = (λ h. cc, λ (few, many, good). absurd (omega arith))
validate_version_string-exact (c ∷ s) = (
  λ h. (omega arith, ground arith, scan_version_sound 0 (c ∷ s) (ground arith)),
  λ (few, many, good). ground (arith, scan_version_full 0 (c ∷ s) good),
)
