-- ===== src/Macho.antt =====
-- closure_macho.go: what a Mach-O file loads, and which of it the store does not have.
use Prim.Native.Nat.{◌+◌, ◌*◌}
use bottle.Common.{ℕ, List, [], ◌∷◌, ◌++◌, ◌&&◌, ◌||◌, not, Bool, true, false, Option, none, some}
use bottle.Common.Dict.{mem_bytes}
use bottle.Common.Lists.{any, is_empty, length, take}
use bottle.Common.SortBy.{sort_by}
use bottle.Common.Sort.{sort_texts}
use bottle.Common.Tests.{ltb, leb, ◌==◌, if◌then◌else◌}
use bottle.Common.Text.{
  Bytes, codes, cmp_bytes, cut_prefix, has_prefix, contains_byte, is_digit, trim_prefix,
}
use bottle.Extract.{drop}
use bottle.ProjectName.{validate_project_name}

-- The struct `want`.
pub record Want : Type 0 where
  pub project : Bytes
  pub soname : Bytes
  pub ref : Bytes
  pub abi_line : Bool

-- `want.key`.
abbrev pub want_key : Want → Bytes
want_key w = w.project ++ (0 ∷ w.soname)

-- `b[:i]` for `indexZero(b)`, all of the bytes where there is no zero.
unfoldable pub until_zero : Bytes → Bytes
until_zero [] = []
until_zero (c ∷ s) = let rest = until_zero s in if c == 0 then [] else c ∷ rest

abbrev pub is_dylib_load : ℕ → Bool
is_dylib_load cmd = cmd == 12 || cmd == 24 + 2147483648 || cmd == 31 + 2147483648

-- `dylibRefs`, on the raw load commands of a file, with the byte order's `Uint32`.
unfoldable pub dylib_refs : (uint32 : Bytes → ℕ) → List Bytes → List Bytes
dylib_refs uint32 [] = []
dylib_refs uint32 (b ∷ loads) =
    let rest = dylib_refs uint32 loads in
    let off = uint32 (take 4 (drop 8 b)) in
    if ltb (length b) 12 || not (is_dylib_load (uint32 (take 4 b))) || leb (length b) off
    then rest
    else until_zero (drop off b) ∷ rest

-- The loop of `MachoNeeded` over the slices of a universal file, before its sort.
unfoldable pub distinct : (seen : List Bytes) → List Bytes → List Bytes
distinct seen [] = []
distinct seen (ref ∷ refs) = elim (mem_bytes ref seen) [
  | true ↦ distinct seen refs
  | false ↦ ref ∷ distinct (ref ∷ seen) refs
]

-- What `debug/macho` reads of a path: a thin file, a universal one with its slices, or neither.
pub data Opened : Type 0 where
  thin : (loads : List Bytes) → Opened
  universal : (slices : List (List Bytes)) → Opened
  unreadable : Opened

abbrev pub refs_of_slices : (Bytes → ℕ) → List (List Bytes) → List Bytes
refs_of_slices uint32 [] = []
refs_of_slices uint32 (loads ∷ slices) = dylib_refs uint32 loads ++ refs_of_slices uint32 slices

-- `MachoNeeded`; `none` is an error.
unfoldable pub macho_needed : (uint32 : Bytes → ℕ) → Opened → Option (List Bytes)
macho_needed uint32 (thin loads) = some (dylib_refs uint32 loads)
macho_needed uint32 (universal slices) =
    some (sort_texts (distinct [] (refs_of_slices uint32 slices)))
macho_needed uint32 unreadable = none

-- `binary.BigEndian.Uint32`
abbrev pub big_endian : Bytes → ℕ
big_endian (a ∷ b ∷ c ∷ d ∷ s) = ((a * 256 + b) * 256 + c) * 256 + d
big_endian s = 0

-- `machoKind`.
pub data MachoKind : Type 0 where
  not_macho : MachoKind
  thin_macho : MachoKind
  fat_macho : MachoKind

abbrev pub thin_magics : List ℕ
thin_magics = 4277009102 ∷ 4277009103 ∷ 3472551422 ∷ 3489328638 ∷ []

abbrev pub fat_magics : List ℕ
fat_magics = 3405691582 ∷ 3199925962 ∷ 3405691583 ∷ 3216703178 ∷ []

-- `machoMagic`, on the first bytes of a file that can be read, eight at most.
unfoldable pub macho_magic : Bytes → MachoKind
macho_magic b =
    if ltb (length b) 4
    then not_macho
    else if any (λ n. n == big_endian (take 4 b)) thin_magics
    then thin_macho
    else if not (any (λ n. n == big_endian (take 4 b)) fat_magics)
    then not_macho
    else if length b == 8 && leb 30 (big_endian (drop 4 b))
    then not_macho
    else fat_macho

-- `.+` at the end of `storeRefRE`, where `.` is no newline.
abbrev pub is_line : Bytes → Bool
is_line s = not (is_empty s) && not (contains_byte 10 s)

-- The part of a path before its first slash, and what is behind it.
unfoldable pub cut_slash : Bytes → Option (Bytes × Bytes)
cut_slash [] = none
cut_slash (c ∷ s) =
    let later = cut_slash s in
    if c == b'/'
    then some ([], s)
    else elim later [ none ↦ none | some (head, tail) ↦ some (c ∷ head, tail) ]

-- The group `abi-([^/]+)|v[0-9][^/]*`: the soname, which is empty for a major directory.
unfoldable pub line_of : Bytes → Option Bytes
line_of segment = elim (cut_prefix (codes "abi-") segment) [
  | some (c ∷ s) ↦ some (c ∷ s)
  | some [] ↦ none
  | none ↦ elim segment [ c ∷ d ∷ s ↦ if c == b'v' && is_digit d then some [] else none | _ ↦ none ]
]

-- The groups 3 and 4 of `storeRefRE` on what is behind the project.
unfoldable pub match_line : Bytes → Option (Bytes × Bytes)
match_line s = elim (cut_slash s) [
  | none ↦ none
  | some (segment, tail) ↦ elim (line_of segment) [
    | none ↦ none
    | some soname ↦ if is_line tail then some (soname, tail) else none
  ]
]

-- The shortest project that lets the rest match; `head` is what of it was read.
unfoldable pub match_from : (head : Bytes) → Bytes → Option (Bytes × Bytes × Bytes)
match_from head [] = none
match_from head (c ∷ s) =
    let later = if c == 10 then none else match_from (head ++ c ∷ []) s in
    if c == b'/' && not (is_empty head)
    then elim (match_line s) [ some (soname, tail) ↦ some (head, soname, tail) | none ↦ later ]
    else later

-- `storeRefRE.FindStringSubmatch`: the project, the soname and the path.
unfoldable pub match_ref : Bytes → Option (Bytes × Bytes × Bytes)
match_ref ref = elim (cut_prefix (codes "@rpath/") ref) [ none ↦ none | some s ↦ match_from [] s ]

-- What a reference asks for, where it names a project that may be one; `base` is `path.Base`.
unfoldable pub want_of : (base : Bytes → Bytes) → (ref : Bytes) → Option Want
want_of base ref = elim (match_ref ref) [
  | none ↦ none
  | some (project, soname, tail) ↦ elim (validate_project_name project) [
    | some e ↦ none
    | none ↦ some (record {
      project = project;
      soname = if is_empty soname then base tail else soname;
      ref = ref;
      abi_line = not (is_empty soname);
    })
  ]
]

-- The loop of `unresolvedRefs` over the references that the files of the prefixes load, in the order
-- of the walk; `is_local` is `filepath.IsLocal`, and `exists` says whether the store has such a path.
module _ (is_local : Bytes → Bool) (exists : Bytes → Bool) (base : Bytes → Bytes) where
  unfoldable pub collect_wants : (seen : List Bytes) → List Bytes → List Want
  collect_wants seen [] = []
  collect_wants seen (ref ∷ refs) =
      let rel = trim_prefix (codes "@rpath/") ref in
      elim (has_prefix (codes "@rpath/") ref && (is_local rel && not (exists rel))) [
        | false ↦ collect_wants seen refs
        | true ↦ elim (want_of base ref) [
          | none ↦ collect_wants seen refs
          | some w ↦ elim (mem_bytes (want_key w) seen) [
            | true ↦ collect_wants seen refs
            | false ↦ w ∷ collect_wants (want_key w ∷ seen) refs
          ]
        ]
      ]

  -- `unresolvedRefs`.
  unfoldable pub unresolved_refs : List Bytes → List Want
  unresolved_refs refs =
      sort_by (λ v w. cmp_bytes (want_key v) (want_key w)) (collect_wants [] refs)
