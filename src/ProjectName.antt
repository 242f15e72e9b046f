-- ===== src/ProjectName.antt =====
-- projectname.go: which names may become a URL, a registry repository or a store path.
use bottle.Common.{
  ℕ, List, [], ◌∷◌, ◌≡◌, ◌↔◌, ◌≤◌, inl, inr, refl, ◌||◌, Bool, true, false, Option, none, some,
  arith,
}
use bottle.Common.Lists.{length, is_empty, all, All}
use bottle.Common.Tests.{Option-cases, ltb, ◌==◌, if◌then◌else◌}
use bottle.Common.Text.{Bytes, codes, bytes_eq, split_byte, is_digit, is_lower, is_upper}

abbrev pub max_project_segments : ℕ
max_project_segments = 8

abbrev pub max_project_name : ℕ
max_project_name = 200

-- Why a name is refused.
pub data NameError : Type 0 where
  empty_name : NameError
  name_too_long : ℕ → NameError
  too_many_segments : ℕ → NameError
  empty_segment : NameError
  dot_segment : Bytes → NameError
  bad_rune : (segment : Bytes) → NameError

-- `isProjectRune`. A rune that is not of one byte is none, so the bytes of the name decide.
abbrev pub is_project_rune : ℕ → Bool
is_project_rune c =
    is_lower c || is_upper c || is_digit c || c == b'.' || c == b'-' || c == b'_' || c == b'+'

-- One round of the loop over the segments.
unfoldable pub check_segment : Bytes → Option NameError
unfolding bytes_eq
check_segment s =
    if is_empty s
    then some empty_segment
    else if bytes_eq s (codes ".") || bytes_eq s (codes "..")
    then some (dot_segment s)
    else if all is_project_rune s
    then none
    else some (bad_rune s)

unfoldable pub check_segments : List Bytes → Option NameError
unfolding check_segment
check_segments [] = none
check_segments (s ∷ ss) =
    let later = check_segments ss in elim (check_segment s) [ some e ↦ some e | none ↦ later ]

-- `ValidateProjectName`.
unfoldable pub validate_project_name : Bytes → Option NameError
unfolding check_segments split_byte
validate_project_name p =
    if is_empty p
    then some empty_name
    else if ltb max_project_name (length p)
    then some (name_too_long (length p))
    else if ltb max_project_segments (length (split_byte b'/' p))
    then some (too_many_segments (length (split_byte b'/' p)))
    else check_segments (split_byte b'/' p)

-- A segment that can stand in a path and leads nowhere but down.
abbrev pub IsSegment : Bytes → Type 0
IsSegment s =
    (is_empty s ≡ false)
    × (bytes_eq s (codes ".") ≡ false)
    × (bytes_eq s (codes "..") ≡ false)
    × (all is_project_rune s ≡ true)

check_segment-IsSegment : (s : Bytes) → (check_segment s ≡ none) ↔ IsSegment s
unfolding check_segment
check_segment-IsSegment s = (
  λ h. (ground arith, ground arith, ground arith, ground arith),
  λ (some_byte, dot, dots, good). ground arith,
)

check_segments-IsSegment : (ss : List Bytes) → (check_segments ss ≡ none) ↔ All IsSegment ss
unfolding check_segments
check_segments-IsSegment [] = (λ h. tt, λ h. refl)
check_segments-IsSegment (s ∷ ss) = (
  λ h. elim (Option-cases (check_segment s)) [
    | inl k ↦ ((check_segment-IsSegment s).0 k, (check_segments-IsSegment ss).0 (ground arith))
    | inr (e, k) ↦ absurd (ground arith)
  ],
  λ (h, hs).
      let first = (check_segment-IsSegment s).1 h in
      let rest = (check_segments-IsSegment ss).1 hs in ground arith,
)

-- A name of one byte to 200, of eight segments between slashes at most, each of them fit.
abbrev pub IsProjectName : Bytes → Type 0
IsProjectName p =
    (1 ≤ length p)
    × (length p ≤ 200)
    × (length (split_byte b'/' p) ≤ 8)
    × All IsSegment (split_byte b'/' p)

-- `ValidateProjectName` passes exactly the names of one byte to 200 whose segments, between slashes,
-- are eight at most, and none of them is empty, `.` or `..`, or has a byte that is no letter, no digit
-- and none of the marks `.`, `-`, `_` and `+`.
pub validate_project_name-exact : (p : Bytes) → (validate_project_name p ≡ none) ↔ IsProjectName p
unfolding validate_project_name
validate_project_name-exact p = (
  λ h. (
    ground arith,
    ground arith,
    ground arith,
    (check_segments-IsSegment (split_byte b'/' p)).0 (ground arith),
  ),
  λ (long, short, few, good).
      let checked = (check_segments-IsSegment (split_byte b'/' p)).1 good in ground arith,
)
