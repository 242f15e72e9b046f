-- ===== src/Store.antt =====
-- store.go: what a store holds, and which of it the locks keep; storeplatform.go: the platform of it.
use Prim.Native.Nat.{Ordering}
use bottle.Common.{
  ℕ, ◌+◌, List, [], ◌∷◌, ◌++◌, ◌&&◌, ◌||◌, Bool, true, false, Option, none, some, map,
}
use bottle.Common.Dict.{mem_bytes}
use bottle.Common.Lists.{is_empty, length}
use bottle.Common.Order.{or_else}
use bottle.Common.SortBy.{sort_by}
use bottle.Common.Tests.{if◌then◌else◌}
use bottle.Common.Text.{Bytes, codes, bytes_eq, cmp_bytes, cut_prefix, has_prefix, trim_space}
use bottle.Lock.{Lock, LockPin}
use bottle.Sonames.{first_cut}
use bottle.Tag.{is_version_tag}
use bottle.Version.{cmp_ver, parse_ver}

-- The struct `StoreEntry`, its size as a number without a bound.
pub record StoreEntry : Type 0 where
  pub project : Bytes
  pub version : Bytes
  pub bytes : ℕ
  pub newest : Bool

-- A directory of the store: its name with the size of what is below it, and the directories in it.
mutual
  pub data Folder : Type 0 where
    folder : (name : Bytes) (bytes : ℕ) → Folders → Folder

  pub data Folders : Type 0 where
    no_folders : Folders
    more_folders : Folder → Folders → Folders

-- The version that `scanProject` reads off the name of a directory.
unfoldable pub version_of_name : Bytes → Option Bytes
version_of_name name = elim (cut_prefix (codes "v") name) [
  | none ↦ none
  | some version ↦ if is_version_tag version then some version else none
]

-- `scanProject`: the loop that finds the newest version, `best` the one at hand.
unfoldable pub newest_of : (best : Bytes) → List StoreEntry → Bytes
newest_of best [] = best
newest_of best (e ∷ es) = elim (cmp_ver (parse_ver e.version) (parse_ver best)) [
  | Ordering.gt ↦ newest_of e.version es
  | _ ↦ newest_of best es
]

-- `versions[newest].Newest = true`; the names of the directories are distinct.
abbrev pub mark_version : Bytes → List StoreEntry → List StoreEntry
mark_version best es = map (λ (e : StoreEntry). record e { newest = bytes_eq e.version best }) es

unfoldable pub mark_newest : List StoreEntry → List StoreEntry
mark_newest [] = []
mark_newest (e ∷ es) = mark_version (newest_of e.version es) (e ∷ es)

-- `filepath.Join(project, name)`, where the project is clean.
abbrev pub below : (project name : Bytes) → Bytes
below project name = project ++ (codes "/" ++ name)

-- `scanProject` on the directories of a project: the slices `out` and `versions`.
unfoldable pub scan_folders : (project : Bytes) → Folders → List StoreEntry × List StoreEntry
scan_folders project no_folders = ([], [])
scan_folders project (more_folders (folder name bytes kids) rest) =
    let (out, versions) = scan_folders project rest in
    let (sub_out, sub_versions) = scan_folders (below project name) kids in
    elim (version_of_name name) [
      | some version ↦ (
        out,
        record { project = project; version = version; bytes = bytes; newest = false } ∷ versions,
      )
      | none ↦ (sub_out ++ (mark_newest sub_versions ++ out), versions)
    ]

-- `scanProject`.
abbrev pub scan_project : (project : Bytes) → Folders → List StoreEntry
scan_project project kids =
    let (out, versions) = scan_folders project kids in out ++ mark_newest versions

unfoldable pub scan_projects : Folders → List StoreEntry
scan_projects no_folders = []
scan_projects (more_folders (folder name bytes kids) rest) = elim (has_prefix (codes ".") name) [
  | true ↦ scan_projects rest
  | false ↦ scan_project name kids ++ scan_projects rest
]

abbrev pub cmp_entries : StoreEntry → StoreEntry → Ordering
cmp_entries a b = or_else (cmp_bytes a.project b.project) (cmp_bytes a.version b.version)

-- `ScanStore`, on the directories that can be read.
unfoldable pub scan_store : Folders → List StoreEntry
scan_store projects = sort_by cmp_entries (scan_projects projects)

-- The variables of `StoreTotals`.
pub record Totals : Type 0 where
  pub bytes : ℕ
  pub versions : ℕ
  pub seen : List Bytes
  pub older_bytes : ℕ

abbrev pub add_entry : StoreEntry → Totals → Totals
add_entry e w = record {
  bytes = w.bytes + e.bytes;
  versions = w.versions + 1;
  seen = if mem_bytes e.project w.seen then w.seen else e.project ∷ w.seen;
  older_bytes = if e.newest then w.older_bytes else w.older_bytes + e.bytes;
}

unfoldable pub total_of : List StoreEntry → Totals → Totals
total_of [] w = w
total_of (e ∷ es) w = total_of es (add_entry e w)

-- `StoreTotals`: the bytes, the versions, the projects and the bytes of older versions.
unfoldable pub store_totals : List StoreEntry → ℕ × ℕ × ℕ × ℕ
store_totals es =
    let w = total_of es (record { bytes = 0; versions = 0; seen = []; older_bytes = 0 }) in
    (w.bytes, w.versions, length w.seen, w.older_bytes)

abbrev pub pin_keys : List LockPin → List Bytes
pin_keys pins = map (λ (p : LockPin). p.project ++ (b'@' ∷ p.version)) pins

-- The keys of the map `rooted`.
abbrev pub rooted : List Lock → List Bytes
rooted [] = []
rooted (l ∷ ls) = pin_keys l.pins ++ rooted ls

abbrev pub entry_key : StoreEntry → Bytes
entry_key e = e.project ++ (b'@' ∷ e.version)

-- The loop of `LiveFromLocks`.
unfoldable pub split_live :
    (roots : List Bytes) → List StoreEntry → List StoreEntry × List StoreEntry
split_live roots [] = ([], [])
split_live roots (e ∷ es) =
    let (live, dead) = split_live roots es in
    elim (mem_bytes (entry_key e) roots) [ true ↦ (e ∷ live, dead) | false ↦ (live, e ∷ dead) ]

-- `LiveFromLocks`.
unfoldable pub live_from_locks : List StoreEntry → List Lock → List StoreEntry × List StoreEntry
live_from_locks entries locks = split_live (rooted locks) entries

-- `StorePlatform`, on the marker where it can be read.
unfoldable pub store_platform : Option Bytes → Option (Bytes × Bytes)
store_platform none = none
store_platform (some b) = elim (first_cut (codes "/") (trim_space b)) [
  | none ↦ none
  | some (osn, arch) ↦ if is_empty osn || is_empty arch then none else some (osn, arch)
]

-- Whether `CheckStorePlatform` has no error.
unfoldable pub check_store_platform : Option Bytes → (osn arch : Bytes) → Bool
check_store_platform marker osn arch = elim (store_platform marker) [
  | none ↦ true
  | some (have, have_arch) ↦ bytes_eq have osn && bytes_eq have_arch arch
]
