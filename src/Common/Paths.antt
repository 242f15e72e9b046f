-- ===== src/Common/Paths.antt =====
-- `path.Clean`, `path.Join` and `filepath.Dir`; on Unix `path/filepath` has the same ones.
pub mod Names
pub mod Rooted
use mathlib.Core.Bool.{Bool, true, false}
use mathlib.Core.List.{List, [], ◌∷◌, ◌++◌}
use mathlib.Core.Option.{Option, none, some}
use bottle.Common.Lists.{is_empty}
use bottle.Common.Tests.{◌==◌, if◌then◌else◌}
use bottle.Common.Text.{Bytes, codes, bytes_eq, join, last_cut, split_byte}

-- One more component on the stack; a rooted path has nothing above its root.
unfoldable pub push_part : Bool → List Bytes → Bytes → List Bytes
unfolding bytes_eq
push_part is_rooted stack part =
    if is_empty part
    then stack
    else if bytes_eq part (codes ".")
    then stack
    else if bytes_eq part (codes "..")
    then elim stack [
      | [] ↦ if is_rooted then [] else part ∷ []
      | top ∷ below ↦ if bytes_eq top (codes "..") then part ∷ top ∷ below else below
    ]
    else part ∷ stack

unfoldable pub push_parts : Bool → List Bytes → List Bytes → List Bytes
unfolding push_part
push_parts is_rooted stack [] = stack
push_parts is_rooted stack (p ∷ ps) = push_parts is_rooted (push_part is_rooted stack p) ps

-- The components in their order, each behind a slash.
abbrev pub slashed : List Bytes → Bytes
slashed [] = []
slashed (p ∷ ps) = b'/' ∷ (p ++ slashed ps)

unfoldable pub unstack : List Bytes → List Bytes → List Bytes
unstack [] ps = ps
unstack (p ∷ stack) ps = unstack stack (p ∷ ps)

-- The text of a rooted path, and of another.
abbrev pub rooted : List Bytes → Bytes
rooted [] = codes "/"
rooted (p ∷ ps) = slashed (p ∷ ps)

abbrev pub relative : List Bytes → Bytes
relative [] = codes "."
relative (p ∷ ps) = p ++ slashed ps

-- `path.Clean`.
unfoldable pub clean : Bytes → Bytes
clean [] = codes "."
clean (c ∷ s) = elim (c == b'/') [
  | true ↦ rooted (unstack (push_parts true [] (split_byte b'/' s)) [])
  | false ↦ relative (unstack (push_parts false [] (split_byte b'/' (c ∷ s))) [])
]

-- `path.Join`.
unfoldable pub join_path : List Bytes → Bytes
unfolding clean
join_path [] = []
join_path ([] ∷ ps) = join_path ps
join_path ((c ∷ p) ∷ ps) = clean (join (codes "/") ((c ∷ p) ∷ ps))

-- `filepath.Dir`.
unfoldable pub dir_of : Bytes → Bytes
unfolding clean last_cut
dir_of s = elim (last_cut (codes "/") s) [
  | none ↦ clean []
  | some (front, base) ↦ clean (front ++ codes "/")
]

-- `path.IsAbs`.
abbrev pub is_abs : Bytes → Bool
is_abs [] = false
is_abs (c ∷ s) = bytes_eq (c ∷ []) (codes "/")
