-- ===== src/Host.antt =====
-- What the store asks of the file system, with the installed builds (install.go) and the marker of a
-- store's platform (storeplatform.go).
use bottle.Common.{List, [], ◌∷◌, ◌++◌, ◌||◌, not, Bool, true, false, Option, none, some}
use bottle.Common.Paths.{join_path}
use bottle.Common.SortBy.{sort_by}
use bottle.Common.Tests.{if◌then◌else◌}
use bottle.Common.Text.{Bytes, codes}
use bottle.Extract.{Os}
use bottle.StorePath.{Disk, parse_store_dir_name}
use bottle.Version.{Ver, cmp_ver}

-- The calls of package `os` beyond those of the extraction. `exists` and `is_dir` follow a symlink;
-- `read_dir` gives the names with whether each is a directory itself; `digest` is the one of `Disk`.
pub record Host (S : Type 0) : Type 0 where
  pub os : Os S
  pub exists : Bytes → S → Bool
  pub is_dir : Bytes → S → Bool
  pub read_dir : Bytes → S → Option (List (Bytes × Bool))
  pub rename : (from to : Bytes) → S → S × Bool
  pub mkdir_temp : (dir pattern : Bytes) → S → S × Option Bytes
  pub create_temp : (dir pattern : Bytes) → S → S × Option Bytes
  pub remove_all : Bytes → S → S
  pub digest : Bytes → Bytes

-- The loop of `InstalledBuilds`.
unfoldable pub builds_in : List (Bytes × Bool) → List Ver
builds_in [] = []
builds_in ((name, is_dir) ∷ es) = elim is_dir [
  | false ↦ builds_in es
  | true ↦ elim (parse_store_dir_name name) [ none ↦ builds_in es | some v ↦ v ∷ builds_in es ]
]

abbrev pub store_platform_file : Bytes
store_platform_file = codes ".zpkg-platform"

module _ {S : Type 0} (host : Host S) where
  -- `InstalledBuilds`, newest first.
  unfoldable pub installed_builds : (project dir : Bytes) → S → List Ver
  installed_builds project dir s = elim (host.read_dir (join_path (dir ∷ project ∷ [])) s) [
    | none ↦ []
    | some es ↦ sort_by (λ a b. cmp_ver b a) (builds_in es)
  ]

  -- What the functions on store paths ask, of the state.
  abbrev pub disk : S → Disk
  disk s = record {
    digest = host.digest;
    join_path = join_path;
    is_dir = λ p. host.is_dir p s;
    installed_builds = λ project dir. installed_builds project dir s;
  }

  -- The end of `MarkStorePlatform`, where the temporary file is there.
  abbrev pub write_marker : (name path line : Bytes) → S → S
  write_marker name path line s =
      let (s1, written) = host.os.copy_body name line s in
      let (s2, closed) = host.os.close_file name s1 in
      if not written || not closed
      then host.os.remove name s2
      else (let (s3, moved) = host.rename name path s2 in
          if moved then s3 else host.os.remove name s3)

  -- `MarkStorePlatform`.
  unfoldable pub mark_store_platform : (dir osn arch : Bytes) → S → S
  mark_store_platform dir osn arch s =
      let path = join_path (dir ∷ store_platform_file ∷ []) in
      if host.exists path s
      then s
      else (let (s1, made) = host.os.mkdir_all dir 493 s in
          if not made
          then s1
          else (let (s2, temp) = host.create_temp dir (store_platform_file ++ codes ".*") s1 in
              elim temp [
                | none ↦ s2
                | some name ↦ write_marker name path (osn ++ (codes "/" ++ (arch ++ 10 ∷ []))) s2
              ]))
