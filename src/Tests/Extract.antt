-- ===== src/Tests/Extract.antt =====
-- An archive that is unpacked into a directory of a small file system.
use Prim.Native.Nat.{◌≤◌}
use bottle.Common.{List, [], ◌∷◌, ◌++◌, ◌≡◌, refl, true, false, none, some, arith}
use bottle.Common.Lists.{length, length-append}
use bottle.Common.Paths.{slashed, join_path, push_parts, unstack}
use bottle.Common.Result.{ok}
use bottle.Common.Tests.{leb, if◌then◌else◌}
use bottle.Common.Text.{Bytes, codes, bytes_eq, cut_prefix, join, split_byte, trim_prefix}
use bottle.Extract.{
  Os, cross_parts, strip_components, Header, Next, entry, is_reg, is_dir, ext_safe_target,
  ext_safe_parents, extract, crosses,
}
use bottle.Extract.Calls.{Entries}
use bottle.Extract.Parents.{IsTree}
use bottle.Extract.Safe.{extract-Entries}

-- The state is the list of the paths that were written; a path of at most five bytes is a directory
-- that is there, and no longer one is.
abbrev pub small_os : Os (List Bytes)
small_os = record {
  lstat = λ path s. if leb (length path) 5 then some false else none;
  mkdir_all = λ path n s. (path ∷ s, true);
  remove = λ path s. s;
  symlink = λ old new s. (new ∷ s, true);
  link = λ old new s. (new ∷ s, true);
  open_file = λ path n s. (path ∷ s, true);
  copy_body = λ path body s. (s, true);
  close_file = λ path s. (s, true);
  chtimes = λ path n s. (s, true);
}

longer_slashed :
    (ps : List Bytes) (p : Bytes) → length (slashed ps) ≤ length (slashed (ps ++ p ∷ []))
longer_slashed [] p = omega arith
longer_slashed (q ∷ ps) p = omega (
  arith,
  longer_slashed ps p,
  length-append q (slashed ps),
  length-append q (slashed (ps ++ p ∷ [])),
)

small-IsTree : IsTree small_os
small-IsTree = record { absent = λ ps p s h. ground (arith, longer_slashed ps p) }

abbrev pub file : Header
file = record {
  name = codes "./pkg/bin/tool";
  link_name = [];
  kind = is_reg;
  perm = 0;
  mod_time = 0;
  body = codes "#!";
}

abbrev folder : Header
folder = record file { name = codes "pkg/bin/"; kind = is_dir }

abbrev archive : List Next
archive = entry folder ∷ entry file ∷ []

extract-Entries_example :
    Entries small_os
      (codes "srv")
      []
      []
      (extract small_os (slashed (codes "srv" ∷ [])) 1 archive []).0
unfolding bytes_eq
extract-Entries_example =
    extract-Entries small_os (codes "srv") [] small-IsTree
      (((refl, (refl, (refl, tt))), refl, refl, refl), tt) 1 archive []

-- A name that leads out of the directory and back to it names the directory itself.
own_directory : ext_safe_target (codes "/srv") (codes "../srv") 0 ≡ ok (some (codes "/srv"))
unfolding ext_safe_target bytes_eq strip_components join_path join unstack push_parts cut_prefix
own_directory = refl

-- `/srv/a` is a symlink: the test refuses a path behind it, and lets the path pass where the name of
-- the directory is given with a slash behind it.
abbrev linked_os : Os (List Bytes)
linked_os = record small_os {
  lstat = λ path s.
      if bytes_eq path (codes "/srv/a")
      then some true
      else if leb (length path) 4
      then some false
      else none;
}

refused :
    ext_safe_parents linked_os (codes "/srv") (codes "/srv/a/b") []
    ≡ some (crosses (codes "/srv/a/b") (codes "/srv/a"))
unfolding ext_safe_parents cross_parts split_byte trim_prefix join_path join unstack push_parts
    bytes_eq
refused = refl

passed : ext_safe_parents linked_os (codes "/srv/") (codes "/srv/a/b") [] ≡ none
unfolding ext_safe_parents cross_parts split_byte trim_prefix join_path join unstack push_parts
    bytes_eq
passed = refl
