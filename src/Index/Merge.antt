-- ===== src/Index/Merge.antt =====
-- oci.go: a manifest is put into the index of its version, beside writers that do the same.
use Prim.Native.Nat.{zero, suc}
use bottle.Common.{ℕ, ◌+◌, List, [], ◌∷◌, ◌++◌, Bool, true, false, Option, none, some}
use bottle.Common.Text.{Bytes, codes, has_prefix}
use bottle.Index.{Descriptor, is_index_media, upsert_platform, index_has_manifest, platform_of_tag}

-- What `FetchReference` and `ReadAll` give: the descriptor, the media types with whether the body
-- shows manifests, and the manifests of the index that `json.Unmarshal` makes of the body.
pub record FetchedRef : Type 0 where
  pub descriptor : Descriptor
  pub media : Bytes
  pub probe_media : Bytes
  pub has_manifests : Bool
  pub manifests : Option (List Descriptor)

-- The calls of a repository, on a state that the steps of other writers change as well, between two
-- calls as within one. `tags` gives all pages, and `tag_index` is
-- `marshalIndex` with `TagBytes`; `none` and `false` are errors.
pub record Repository (S : Type 0) : Type 0 where
  pub fetch_reference : Bytes → S → S × Option FetchedRef
  pub tags : S → S × Option (List Bytes)
  pub tag_index : (manifests : List Descriptor) → (tag : Bytes) → S → S × Bool
  pub settle : S → S
  pub back_off : ℕ → S → S

-- The errors of `mergePlatformIntoIndex`.
pub data MergeError : Type 0 where
  not_tagged : MergeError
  did_not_survive : MergeError

abbrev pub index_retry_attempts : ℕ
index_retry_attempts = 6

-- `fetchOrNewIndex`, on what was fetched: the manifests, none in a fresh index.
unfoldable pub index_or_new : Option FetchedRef → List Descriptor
index_or_new none = []
index_or_new (some f) = elim (is_index_media f.media f.probe_media f.has_manifests) [
  | false ↦ []
  | true ↦ elim f.manifests [ none ↦ [] | some ms ↦ ms ]
]

-- The descriptor that `platformManifests` makes of a tag that was fetched.
unfoldable pub tagged_manifest : (ver tag : Bytes) → FetchedRef → Option Descriptor
tagged_manifest ver tag f = elim f.descriptor.platform [
  | some p ↦ some f.descriptor
  | none ↦ elim (platform_of_tag ver tag) [
    | none ↦ none
    | some p ↦ some (record { digest = f.descriptor.digest; platform = some p })
  ]
]

abbrev pub listed : Option Descriptor → List Descriptor → List Descriptor
listed none ds = ds
listed (some d) ds = d ∷ ds

-- The loop over the platforms' manifests.
abbrev pub upsert_all : List Descriptor → List Descriptor → List Descriptor
upsert_all manifests [] = manifests
upsert_all manifests (d ∷ ds) = upsert_all (upsert_platform manifests d) ds

module _ {S : Type 0} (repo : Repository S) (ver : Bytes) where
  -- `fetchOrNewIndex`.
  unfoldable pub fetch_or_new_index : S → S × List Descriptor
  fetch_or_new_index s =
      let (s1, fetched) = repo.fetch_reference ver s in (s1, index_or_new fetched)

  -- The loop of `platformManifests` over the tags.
  unfoldable pub fetch_tagged : List Bytes → S → S × List Descriptor
  fetch_tagged [] s = (s, [])
  fetch_tagged (t ∷ ts) s = elim (has_prefix (ver ++ codes "--") t) [
    | false ↦ fetch_tagged ts s
    | true ↦
        let (s1, fetched) = repo.fetch_reference t s in
        let (s2, rest) = fetch_tagged ts s1 in
        elim fetched [ none ↦ (s2, rest) | some f ↦ (s2, listed (tagged_manifest ver t f) rest) ]
  ]

  -- `platformManifests`.
  unfoldable pub platform_manifests : S → S × List Descriptor
  platform_manifests s =
      let (s1, tags) = repo.tags s in elim tags [ none ↦ (s1, []) | some ts ↦ fetch_tagged ts s1 ]

  -- The index that an attempt writes.
  unfoldable pub merged_index : Descriptor → S → S × List Descriptor
  merged_index desc s =
      let (s1, manifests) = fetch_or_new_index s in
      let (s2, ds) = platform_manifests s1 in (s2, upsert_platform (upsert_all manifests ds) desc)

  -- The two looks at the index after it was tagged: whether both find the manifest.
  unfoldable pub survives : Descriptor → S → S × Bool
  survives desc s =
      let (s1, first) = fetch_or_new_index s in
      elim (index_has_manifest first desc) [
        | false ↦ (s1, false)
        | true ↦
            let (s2, second) = fetch_or_new_index (repo.settle s1) in
            (s2, index_has_manifest second desc)
      ]

  -- The loop of `mergePlatformIntoIndex`, with `left` attempts left.
  unfoldable pub merge_loop : (left attempt : ℕ) → Descriptor → S → S × Option MergeError
  merge_loop zero attempt desc s = (s, some did_not_survive)
  merge_loop (suc left) attempt desc s =
      let (s1, manifests) = merged_index desc s in
      let (s2, tagged) = repo.tag_index manifests ver s1 in
      elim tagged [
        | false ↦ (s2, some not_tagged)
        | true ↦
            let (s3, there) = survives desc s2 in
            elim there [
              | true ↦ (s3, none)
              | false ↦ merge_loop left (attempt + 1) desc (repo.back_off (attempt + 1) s3)
            ]
      ]

  -- `mergePlatformIntoIndex`.
  unfoldable pub merge_platform_into_index : Descriptor → S → S × Option MergeError
  merge_platform_into_index desc s = merge_loop index_retry_attempts 0 desc s
