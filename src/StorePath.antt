-- ===== src/StorePath.antt =====
-- storepath.go: the directory of a build in the store, and what the name of a directory says.
pub mod RoundTrip
use bottle.Common.{ℕ, List, [], ◌∷◌, ◌++◌, ◌&&◌, ◌||◌, not, Bool, true, false, Option, none, some}
use bottle.Common.Lists.{is_empty, keep_if, take}
use bottle.Common.Tests.{◌==◌, if◌then◌else◌}
use bottle.Common.Text.{Bytes, codes, bytes_eq, is_digit}
use bottle.Tag.{variant_sep, hash_len, split_variant_hash}
use bottle.Version.{Ver, parse_ver}

-- What the file asks of `crypto/sha256` with `encoding/base32` (the digest of a text, in lower-case
-- base 32), of `filepath.Join`, and of the disk.
pub record Disk : Type 0 where
  pub digest : Bytes → Bytes
  pub join_path : List Bytes → Bytes
  pub is_dir : Bytes → Bool
  pub installed_builds : (project dir : Bytes) → List Ver

-- `StoreDirName`.
unfoldable pub store_dir_name : Ver → Bytes
store_dir_name v =
    let name = codes "v" ++ v.raw in
    if is_empty v.variant then name else name ++ (variant_sep ++ v.variant)

-- `StoreBuildDirName`; `none` is the panic.
unfoldable pub store_build_dir_name : Ver → Bytes → Option Bytes
store_build_dir_name v hash =
    if is_empty hash then none else some (codes "v" ++ (v.raw ++ (variant_sep ++ hash)))

-- `ParseStoreDirName`.
unfoldable pub parse_store_dir_name : Bytes → Option Ver
parse_store_dir_name [] = none
parse_store_dir_name (c ∷ body) =
    let (raw, hash) = split_variant_hash body in
    if not (c == b'v') then none else elim body [
      | [] ↦ none
      | d ∷ _ ↦ if is_digit d then some (record (parse_ver raw) { variant = hash }) else none
    ]

module _ (disk : Disk) where
  -- `hashOf` and `ShortHash`.
  unfoldable pub hash_of : Bytes → Bytes
  hash_of s = take hash_len (disk.digest s)

  -- `StoreHash`; a byte 0 stands between the kind and the text.
  unfoldable pub store_hash : Ver → (content source : Bytes) → Bytes
  unfolding hash_of
  store_hash v content source =
      if not (is_empty v.variant)
      then v.variant
      else if not (is_empty content)
      then hash_of (codes "digest" ++ (0 ∷ content))
      else hash_of (codes "source" ++ (0 ∷ source))

  -- `StoreBuildPrefix`.
  unfoldable pub store_build_prefix : (dir project : Bytes) → Ver → Bytes → Option Bytes
  unfolding store_build_dir_name
  store_build_prefix dir project v hash = elim (store_build_dir_name v hash) [
    | none ↦ none
    | some name ↦ some (disk.join_path (dir ∷ project ∷ name ∷ []))
  ]

  -- `ResolveBuild`.
  unfoldable pub resolve_build : (dir project : Bytes) → Ver → Option Bytes
  unfolding store_build_prefix bytes_eq
  resolve_build dir project v =
      if not (is_empty v.variant)
      then elim (store_build_prefix dir project v v.variant) [
        | none ↦ none
        | some p ↦ if disk.is_dir p then some p else none
      ]
      else elim (keep_if (λ b. bytes_eq b.raw v.raw) (disk.installed_builds project dir)) [
        | [] ↦ none
        | b ∷ [] ↦ if is_empty b.variant then none else store_build_prefix dir project b b.variant
        | b ∷ c ∷ bs ↦ none
      ]

  -- `StorePrefix`.
  unfoldable pub store_prefix : (dir project : Bytes) → Ver → Bytes
  unfolding resolve_build store_dir_name
  store_prefix dir project v = elim (resolve_build dir project v) [
    | some p ↦ p
    | none ↦ disk.join_path (dir ∷ project ∷ store_dir_name v ∷ [])
  ]
