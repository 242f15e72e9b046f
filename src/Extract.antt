-- ===== src/Extract.antt =====
-- extract.go: unpacking an archive below a directory.
pub mod Targets
pub mod Parents
pub mod Calls
pub mod Safe
use Prim.Native.Nat.{zero, suc}
use bottle.Common.{ℕ, List, [], ◌∷◌, ◌++◌, ◌||◌, not, Bool, true, false, Option, none, some}
use bottle.Common.Lists.{is_empty, keep_if, length}
use bottle.Common.Paths.{clean, dir_of, is_abs, join_path}
use bottle.Common.Result.{Result, ok, err}
use bottle.Common.Tests.{◌==◌, leb, if◌then◌else◌}
use bottle.Common.Text.{Bytes, codes, bytes_eq, cut_prefix, split_byte, trim_prefix}

-- The types of a header that are told apart.
pub data EntryKind : Type 0 where
  is_dir is_symlink is_link is_reg is_other : EntryKind

-- The fields of `tar.Header` that are read, with the body; the zero time is 0.
pub record Header : Type 0 where
  pub name : Bytes
  pub link_name : Bytes
  pub kind : EntryKind
  pub perm : ℕ
  pub mod_time : ℕ
  pub body : Bytes

-- What `tr.Next` returns before the end: an entry, also where it adds `tar.ErrInsecurePath`, or
-- another error.
pub data Next : Type 0 where
  entry : Header → Next
  broken : Next

pub data ExtractError : Type 0 where
  unreadable : ExtractError
  insecure : (name : Bytes) → ExtractError
  above_root : (link_name : Bytes) → ℕ → ExtractError
  crosses : (target symlink : Bytes) → ExtractError
  failed : ExtractError

-- The calls of `os`, on a state of the file system. `lstat` says whether there is a symlink, and
-- `none` is an error; `false` beside a state is an error of the call that led to it.
pub record Os (S : Type 0) : Type 0 where
  pub lstat : Bytes → S → Option Bool
  pub mkdir_all : Bytes → ℕ → S → S × Bool
  pub remove : Bytes → S → S
  pub symlink : (old new : Bytes) → S → S × Bool
  pub link : (old new : Bytes) → S → S × Bool
  pub open_file : Bytes → ℕ → S → S × Bool
  pub copy_body : (path body : Bytes) → S → S × Bool
  pub close_file : Bytes → S → S × Bool
  pub chtimes : Bytes → ℕ → S → S × Bool

-- `stripComponents`.
unfoldable pub strip_components : Bytes → List Bytes
unfolding split_byte
strip_components name = keep_if (λ p. not (is_empty p)) (split_byte b'/' name)

-- `parts[n:]`
abbrev pub drop {ℓ} : {A : Type ℓ} → ℕ → List A → List A
drop zero xs = xs
drop (suc n) [] = []
drop (suc n) (x ∷ xs) = drop n xs

-- `strings.HasPrefix(p+"/", filepath.Clean(dest)+"/")`
abbrev pub is_inside : (dest p : Bytes) → Bool
is_inside dest p = elim (cut_prefix (clean dest ++ codes "/") (p ++ codes "/")) [
  | none ↦ false
  | some _ ↦ true
]

-- `extSafeTarget`; `ok none` is an entry that is stripped away.
unfoldable pub ext_safe_target : (dest name : Bytes) → ℕ → Result ExtractError (Option Bytes)
ext_safe_target dest name strip =
    let parts = strip_components name in
    let rel = join_path (drop strip parts) in
    let target = join_path (dest ∷ rel ∷ []) in
    if is_abs name
    then err (insecure name)
    else if leb (length parts) strip
    then ok none
    else if bytes_eq rel (codes ".")
    then ok none
    else if is_inside dest target
    then ok (some target)
    else err (insecure name)

-- `extLinkSource`.
unfoldable pub ext_link_source : (dest link_name : Bytes) → ℕ → Result ExtractError Bytes
ext_link_source dest link_name strip =
    let parts = strip_components link_name in
    let source = join_path (dest ∷ join_path (drop strip parts) ∷ []) in
    if is_abs link_name
    then err (insecure link_name)
    else if leb (length parts) strip
    then err (above_root link_name strip)
    else if is_inside dest source
    then ok source
    else err (insecure link_name)

-- `extPermOr`.
abbrev pub ext_perm_or : ℕ → ℕ → ℕ
ext_perm_or perm fallback = if perm == 0 then fallback else perm

module _ {S : Type 0} (os : Os S) where
  -- The loop of `extSafeParents`, which leaves out the last component.
  unfoldable pub cross_parts : (target cur : Bytes) → List Bytes → S → Option ExtractError
  cross_parts target cur [] s = none
  cross_parts target cur (p ∷ []) s = none
  cross_parts target cur (p ∷ q ∷ ps) s =
      let there = join_path (cur ∷ p ∷ []) in
      elim (os.lstat there s) [
        | none ↦ none
        | some true ↦ some (crosses target there)
        | some false ↦ cross_parts target there (q ∷ ps) s
      ]

  -- `extSafeParents`.
  unfoldable pub ext_safe_parents : (dest target : Bytes) → S → Option ExtractError
  ext_safe_parents dest target s =
      cross_parts target dest (split_byte b'/' (trim_prefix (dest ++ codes "/") target)) s

  -- `if err := …; err != nil { return err }`
  abbrev pub and_then : S × Bool → (S → S × Option ExtractError) → S × Option ExtractError
  and_then (s, good) next = elim good [ true ↦ next s | false ↦ (s, some failed) ]

  abbrev pub last_call : S × Bool → S × Option ExtractError
  last_call r = and_then r (λ s. (s, none))

  -- What `extWriteFile` does after the copy.
  abbrev pub after_copy : Bytes → (S → S × Option ExtractError) → S × Bool → S × Option ExtractError
  after_copy target next (s, false) = ((os.close_file target s).0, some failed)
  after_copy target next (s, true) = and_then (os.close_file target s) next

  -- `extWriteFile`, and what follows it.
  unfoldable pub ext_write_file :
      (target : Bytes)
      → ℕ
      → (body : Bytes) → (S → S × Option ExtractError)
      → S
      → S × Option ExtractError
  ext_write_file target perm body next s =
      and_then (os.open_file target perm s)
        (λ s1. after_copy target next (os.copy_body target body s1))

  -- `extRestoreTime`.
  unfoldable pub ext_restore_time : (path : Bytes) → ℕ → S → S × Option ExtractError
  ext_restore_time path time s = if time == 0 then (s, none) else last_call (os.chtimes path time s)

  -- `fi.Mode()&os.ModeSymlink != 0` of a file that is there.
  abbrev pub remove_symlink : Bytes → S → S
  remove_symlink target s = elim (os.lstat target s) [
    | some true ↦ os.remove target s
    | some false ↦ s
    | none ↦ s
  ]

  -- The branches of `Extract`, behind the test of the parents.
  unfoldable pub place :
      (dest : Bytes) → ℕ → (target : Bytes) → Header → S → S × Option ExtractError
  place dest strip target h s = elim h.kind [
    | is_dir ↦ last_call (os.mkdir_all target (ext_perm_or h.perm 493) s)
    | is_symlink ↦
        and_then (os.mkdir_all (dir_of target) 493 s)
          (λ s1. last_call (os.symlink h.link_name target (os.remove target s1)))
    | is_link ↦ and_then (os.mkdir_all (dir_of target) 493 s) (λ s1.
        elim (ext_link_source dest h.link_name strip) [
          | err e ↦ (s1, some e)
          | ok source ↦ last_call (os.link source target (os.remove target s1))
        ])
    | is_reg ↦ and_then (os.mkdir_all (dir_of target) 493 s) (λ s1.
        ext_write_file target (ext_perm_or h.perm 420) h.body (ext_restore_time target h.mod_time)
          (remove_symlink target s1))
    | is_other ↦ (s, none)
  ]

  -- The `switch` of `Extract`: every kind that it knows tests the parents first.
  unfoldable pub put_entry :
      (dest : Bytes) → ℕ → (target : Bytes) → Header → S → S × Option ExtractError
  put_entry dest strip target h s = elim h.kind [
    | is_other ↦ (s, none)
    | _ ↦ elim (ext_safe_parents dest target s) [
      | some e ↦ (s, some e)
      | none ↦ place dest strip target h s
    ]
  ]

  -- One round of `Extract`.
  unfoldable pub extract_entry : (dest : Bytes) → ℕ → Next → S → S × Option ExtractError
  extract_entry dest strip broken s = (s, some unreadable)
  extract_entry dest strip (entry h) s = elim (ext_safe_target dest h.name strip) [
    | err e ↦ (s, some e)
    | ok none ↦ (s, none)
    | ok (some target) ↦ put_entry dest strip target h s
  ]

  -- `Extract`.
  unfoldable pub extract : (dest : Bytes) → ℕ → List Next → S → S × Option ExtractError
  extract dest strip [] s = (s, none)
  extract dest strip (n ∷ ns) s =
      let (s1, e) = extract_entry dest strip n s in
      elim e [ some e ↦ (s1, some e) | none ↦ extract dest strip ns s1 ]
