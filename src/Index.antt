-- ===== src/Index.antt =====
-- oci.go: the index of a version, which has a manifest for each platform.
pub mod Merge
pub mod Picked
pub mod Survives
use Prim.Native.Nat.{Ordering}
use bottle.Common.{ℕ, List, [], ◌∷◌, ◌++◌, ◌&&◌, ◌||◌, not, Bool, true, false, Option, none, some}
use bottle.Common.Dict.{mem_bytes}
use bottle.Common.Lists.{any, is_empty, keep_if}
use bottle.Common.Result.{Result, ok, err}
use bottle.Common.Sort.{sort_texts}
use bottle.Common.Tests.{if◌then◌else◌}
use bottle.Common.Text.{Bytes, codes, bytes_eq, cut_prefix, has_prefix}
use bottle.Sonames.{first_cut}

-- The struct `ocispec.Platform`, less the fields that nothing here reads.
pub record Platform : Type 0 where
  pub os : Bytes
  pub architecture : Bytes
  pub variant : Bytes

-- The struct `ocispec.Descriptor`, less the fields that nothing here reads.
pub record Descriptor : Type 0 where
  pub digest : Bytes
  pub platform : Option Platform

-- `ociArch`.
unfoldable pub oci_arch : Bytes → Bytes
oci_arch arch =
    if bytes_eq arch (codes "x86-64")
    then codes "amd64"
    else if bytes_eq arch (codes "aarch64")
    then codes "arm64"
    else arch

-- `pkgxArch`.
unfoldable pub pkgx_arch : Bytes → Bytes
pkgx_arch arch =
    if bytes_eq arch (codes "amd64")
    then codes "x86-64"
    else if bytes_eq arch (codes "arm64")
    then codes "aarch64"
    else arch

-- `strings.Contains`.
abbrev pub contains : (s sub : Bytes) → Bool
contains s sub = elim (first_cut sub s) [ none ↦ false | some _ ↦ true ]

-- `strings.HasSuffix`.
abbrev pub has_suffix : (s suffix : Bytes) → Bool
has_suffix [] suffix = is_empty suffix
has_suffix (c ∷ s) suffix = bytes_eq (c ∷ s) suffix || has_suffix s suffix

-- `extForLayer`.
unfoldable pub ext_for_layer : Bytes → Bytes
ext_for_layer mt =
    if has_suffix mt (codes "tar+gzip") || has_suffix mt (codes "tar.gzip")
    then codes ".tar.gz"
    else if has_suffix mt (codes "tar+xz")
    then codes ".tar.xz"
    else if has_suffix mt (codes "tar+zstd")
    then codes ".tar.zst"
    else if contains mt (codes "zstd")
    then codes ".tar.zst"
    else if contains mt (codes "gzip")
    then codes ".tar.gz"
    else if contains mt (codes "xz")
    then codes ".tar.xz"
    else []

-- The media types of package `ocispec` and of Docker.
abbrev pub image_index : Bytes
image_index = codes "application/vnd.oci.image.index.v1+json"

abbrev pub image_manifest : Bytes
image_manifest = codes "application/vnd.oci.image.manifest.v1+json"

abbrev pub docker_manifest_list : Bytes
docker_manifest_list = codes "application/vnd.docker.distribution.manifest.list.v2+json"

-- `isIndexMedia`, with the fields `mediaType` and whether there are `manifests` that a body shows.
unfoldable pub is_index_media : (media probe_media : Bytes) (has_manifests : Bool) → Bool
is_index_media media probe_media has_manifests =
    if bytes_eq media image_index || bytes_eq media docker_manifest_list
    then true
    else if bytes_eq media image_manifest
    then false
    else if bytes_eq probe_media image_index || bytes_eq probe_media docker_manifest_list
    then true
    else has_manifests

-- The test of `resolvePlatform`.
unfoldable pub is_for : (os architecture : Bytes) → Descriptor → Bool
is_for os architecture m = elim m.platform [
  | none ↦ false
  | some p ↦ bytes_eq p.os os && bytes_eq p.architecture architecture
]

-- `resolvePlatform`: the loop over the manifests of an index.
unfoldable pub pick_manifest : (os architecture : Bytes) → List Descriptor → Option Descriptor
pick_manifest os architecture [] = none
pick_manifest os architecture (m ∷ ms) = elim (is_for os architecture m) [
  | true ↦ some m
  | false ↦ pick_manifest os architecture ms
]

-- `upsertPlatform`.
unfoldable pub upsert_platform : List Descriptor → Descriptor → List Descriptor
upsert_platform list desc = elim desc.platform [
  | none ↦ list ++ desc ∷ []
  | some p ↦ keep_if (λ m. not (is_for p.os p.architecture m)) list ++ desc ∷ []
]

-- `indexHasManifest`.
abbrev pub index_has_manifest : List Descriptor → Descriptor → Bool
index_has_manifest manifests desc = any (λ m. bytes_eq m.digest desc.digest) manifests

-- `platformTag`.
abbrev pub platform_tag : (ver osn arch : Bytes) → Bytes
platform_tag ver osn arch = ver ++ (codes "--" ++ (osn ++ (codes "-" ++ arch)))

-- `IsPlatformTag`.
abbrev pub is_platform_tag : Bytes → Bool
is_platform_tag tag = contains tag (codes "--")

-- The name of a platform in the list of `Platforms`; `none` is passed over.
unfoldable pub platform_name : Descriptor → Option Bytes
platform_name m = elim m.platform [
  | none ↦ none
  | some p ↦
      let unknown = codes "unknown" in
      let name = p.os ++ (codes "/" ++ pkgx_arch p.architecture) in
      if is_empty p.os
        || is_empty p.architecture
        || bytes_eq p.os unknown
        || bytes_eq p.architecture unknown
      then none
      else some (if is_empty p.variant then name else name ++ (codes "/" ++ p.variant))
]

unfoldable pub platform_names : (seen : List Bytes) → List Descriptor → List Bytes
platform_names seen [] = []
platform_names seen (m ∷ ms) = elim (platform_name m) [
  | none ↦ platform_names seen ms
  | some name ↦ elim (mem_bytes name seen) [
    | true ↦ platform_names seen ms
    | false ↦ name ∷ platform_names (name ∷ seen) ms
  ]
]

-- The end of `Platforms`, on the manifests of an index; `none` is an error.
unfoldable pub platforms : List Descriptor → Option (List Bytes)
platforms manifests =
    let names = platform_names [] manifests in
    if is_empty names then none else some (sort_texts names)

-- The platform that a tag of `platformManifests` names, behind the version.
unfoldable pub platform_of_tag : (ver tag : Bytes) → Option Platform
platform_of_tag ver tag = elim (cut_prefix (ver ++ codes "--") tag) [
  | none ↦ none
  | some rest ↦ elim (first_cut (codes "-") rest) [
    | none ↦ none
    | some (osn, arch) ↦ some (record { os = osn; architecture = oci_arch arch; variant = [] })
  ]
]
