-- ===== src/Install/Placed.antt =====
-- pkgx.go: a fetched bottle is unpacked and moved into the store.
use bottle.Common.{List, [], ◌∷◌, ◌++◌, ◌&&◌, ◌||◌, not, Bool, true, false, none, some, map}
use bottle.Common.Lists.{is_empty, keep_if}
use bottle.Common.Paths.{dir_of, join_path}
use bottle.Common.Result.{Result, ok, err}
use bottle.Common.Tests.{if◌then◌else◌}
use bottle.Common.Text.{Bytes, codes, bytes_eq, contains_byte, has_prefix, split_byte, trim_space}
use bottle.Extract.{Next, extract}
use bottle.Host.{Host, disk, mark_store_platform}
use bottle.ProjectName.{validate_project_name}
use bottle.Resolve.{Resolved}
use bottle.StorePath.{store_build_prefix, store_hash, store_prefix}
use bottle.Version.{Ver, tag}
use bottle.Install.{
  Bottle, Remote, InstallError, bad_name, not_fetched, not_an_archive, not_unpacked, os_failed,
  panicked, fetch_bottle, source_of,
}

-- A name that `writeABILinks` makes a link of.
abbrev pub is_soname : Bytes → Bool
is_soname s = not (
    is_empty s
    || contains_byte b'/' s
    || contains_byte b'\\' s
    || bytes_eq s (codes ".")
    || bytes_eq s (codes ".."))

module _ {S : Type 0} (host : Host S) (w : Remote) where
  -- The loop of `writeABILinks`.
  unfoldable pub link_sonames : (dir full : Bytes) → List Bytes → S → S
  link_sonames dir full [] s = s
  link_sonames dir full (n ∷ ns) s =
      let soname = trim_space n in
      let p = join_path (dir ∷ (codes "abi-" ++ soname) ∷ []) in
      elim (is_soname soname) [
        | false ↦ link_sonames dir full ns s
        | true ↦ link_sonames dir full ns (host.os.symlink full p (host.os.remove p s)).0
      ]

  -- `writeABILinks`.
  unfoldable pub write_abi_links : (dir : Bytes) → Resolved → S → S
  write_abi_links dir r s =
      let provides = w.abi_provides r.project (tag r.version) in
      if is_empty provides
      then s
      else link_sonames (join_path (dir ∷ r.project ∷ [])) (codes "v" ++ r.version.raw)
          (split_byte b',' provides) s

  -- The names that `extractedPrefix` counts.
  abbrev pub version_dirs : List (Bytes × Bool) → List Bytes
  version_dirs es =
      map (λ (e : Bytes × Bool). e.0)
        (keep_if (λ (e : Bytes × Bool). e.1 && has_prefix (codes "v") e.0) es)

  -- `extractedPrefix`: the one directory of the archive, where it is one.
  unfoldable pub extracted_prefix : (temp : Bytes) → Resolved → S → Bytes
  extracted_prefix temp r s =
      let canonical = join_path (temp ∷ r.project ∷ (codes "v" ++ r.version.raw) ∷ []) in
      if host.is_dir canonical s
      then canonical
      else elim (host.read_dir (join_path (temp ∷ r.project ∷ [])) s) [
        | none ↦ canonical
        | some es ↦ elim (version_dirs es) [
          | [] ↦ canonical
          | found ∷ [] ↦ join_path (temp ∷ r.project ∷ found ∷ [])
          | a ∷ b ∷ more ↦ canonical
        ]
      ]

  -- `renameOrExplain`: whether it moved the tree.
  unfoldable pub rename_or_explain :
      (src dir project : Bytes) → Ver → (hash : Bytes) → S → S × Result InstallError Bool
  rename_or_explain src dir project v hash s =
      elim (store_build_prefix (disk host s) dir project v hash) [
        | none ↦ (s, err panicked)
        | some dest ↦
            let (s1, moved) = host.rename src dest s in
            elim moved [
              | true ↦ (s1, ok true)
              | false ↦ if host.is_dir dest s1 then (s1, ok false) else (s1, err os_failed)
            ]
      ]

  -- `InstallFor`, once the archive is unpacked into `temp`.
  unfoldable pub move_into_store :
      (dir osn arch prefix temp : Bytes) → Resolved → Bottle → S → S × Result InstallError Bool
  move_into_store dir osn arch prefix temp r b s =
      let (s1, made) = host.os.mkdir_all (dir_of prefix) 493 s in
      elim made [
        | false ↦ (s1, err os_failed)
        | true ↦
            let hash = store_hash (disk host s1) r.version b.digest (source_of w r osn arch) in
            let (s2, moved) =
              rename_or_explain (extracted_prefix temp r s1) dir r.project r.version hash s1 in
            elim moved [
              | err e ↦ (s2, err e)
              | ok false ↦ (s2, ok false)
              | ok true ↦ (write_abi_links dir r s2, ok true)
            ]
      ]

  -- `InstallFor`, once the bottle is fetched; the temporary directory is removed on every way out.
  unfoldable pub unpack :
      (dir osn arch prefix : Bytes)
      → Resolved
      → Bottle
      → List Next
      → S
      → S × Result InstallError Bool
  unpack dir osn arch prefix r b archive s =
      let (s1, made) = host.os.mkdir_all dir 493 s in
      elim made [
        | false ↦ (s1, err os_failed)
        | true ↦
            let (s2, temp) = host.mkdir_temp dir (codes ".tmp-") s1 in
            elim temp [
              | none ↦ (s2, err os_failed)
              | some t ↦
                  let (s3, failure) = extract host.os t 0 archive s2 in
                  elim failure [
                    | some e ↦ (host.remove_all t s3, err (not_unpacked e))
                    | none ↦
                        let (s4, r4) = move_into_store dir osn arch prefix t r b s3 in
                        (host.remove_all t s4, r4)
                  ]
            ]
      ]

  -- `InstallFor`: whether it installed the bottle.
  unfoldable pub install_for : Resolved → (dir osn arch : Bytes) → S → S × Result InstallError Bool
  install_for r dir osn arch s = elim (validate_project_name r.project) [
    | some e ↦ (s, err (bad_name e))
    | none ↦
        let s1 = mark_store_platform host dir osn arch s in
        let prefix = store_prefix (disk host s1) dir r.project r.version in
        elim (host.is_dir prefix s1) [
          | true ↦ (s1, ok false)
          | false ↦ elim (fetch_bottle w r osn arch) [
            | err e ↦ (s1, err (not_fetched e))
            | ok b ↦ elim (w.entries b.ext b.body) [
              | none ↦ (s1, err not_an_archive)
              | some archive ↦ unpack dir osn arch prefix r b archive s1
            ]
          ]
        ]
  ]
