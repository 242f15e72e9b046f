-- ===== src/Builds.antt =====
-- builds.go: the builds of one version, published and installed, and how one of them is named.
pub mod Refs
pub mod Withdrawn
use bottle.Common.{
  ℕ, ◌+◌, List, [], ◌∷◌, ◌++◌, ◌&&◌, ◌||◌, not, Bool, true, false, Option, none, some, map,
}
use bottle.Common.Dict.{mem_bytes, get_or, set}
use bottle.Common.Lists.{length, is_empty, all, keep_if}
use bottle.Common.Result.{Result, ok, err}
use bottle.Common.Sort.{sort_texts}
use bottle.Common.Tests.{ltb, if◌then◌else◌}
use bottle.Common.Text.{
  Bytes, codes, bytes_eq, contains_byte, cut_prefix, has_prefix, last_cut, join,
}
use bottle.Concrete.{Concrete}
use bottle.Pick.{Failure}
use bottle.Tag.{variant_sep, hash_len, is_hash_byte}
use bottle.Trust.{SignatureReport}
use bottle.Version.{Ver}

-- The struct `Build`; the zero time is 0, and `none` is a nil report.
pub record Build : Type 0 where
  pub version : Ver
  pub installed : Bytes
  pub published : Bool
  pub spec : Concrete
  pub installed_at : ℕ
  pub builder : Bytes
  pub signatures : Option SignatureReport

-- `Build.Hash`.
abbrev pub hash_of_build : Build → Bytes
hash_of_build b = b.version.variant

-- `ShortBuilder`.
unfoldable pub short_builder : Bytes → Bytes
unfolding last_cut
short_builder id = elim (last_cut (codes "/") id) [
  | none ↦ id
  | some (front, name) ↦ elim (last_cut (codes "://") id) [ none ↦ id | some _ ↦ name ]
]

-- What `describeBuilds` asks of the registry: whether a client can be made, and for a tag the spec
-- and the signatures with the builder. `none` is an error or no answer.
pub record Registry : Type 0 where
  pub has_client : Bool
  pub spec_of : Bytes → Option Concrete
  pub provenance_of : Bytes → Option (SignatureReport × Bytes)

-- The tag a build was published under.
abbrev pub build_tag : Build → Bytes
build_tag b =
    if is_empty (hash_of_build b)
    then b.version.raw
    else b.version.raw ++ (variant_sep ++ hash_of_build b)

abbrev pub with_spec : Option Concrete → Build → Build
with_spec none b = b
with_spec (some s) b = record b { spec = s }

abbrev pub with_provenance : Option (SignatureReport × Bytes) → Build → Build
with_provenance none b = b
with_provenance (some (rep, builder)) b = record b { signatures = some rep; builder = builder }

-- One round of `describeBuilds`.
unfoldable pub describe_build : Registry → Build → Build
describe_build registry b =
    if b.published
    then with_provenance (registry.provenance_of (build_tag b))
        (with_spec (registry.spec_of (build_tag b)) b)
    else b

-- `describeBuilds`: without a client it returns at the first published build.
unfoldable pub describe_builds : Registry → List Build → List Build
unfolding describe_build
describe_builds registry builds =
    if registry.has_client then map (describe_build registry) builds else builds

-- `byHash` and `order`.
pub record Found : Type 0 where
  pub by_hash : List (Bytes × Build)
  pub order : List Bytes

abbrev pub empty_spec : Concrete
empty_spec = record { platform = []; variants = []; deps = []; recipe = []; graft = [] }

-- `&Build{Version: v}`.
abbrev pub new_build : Ver → Build
new_build v = record {
  version = v;
  installed = [];
  published = false;
  spec = empty_spec;
  installed_at = 0;
  builder = [];
  signatures = none;
}

unfoldable pub find_build : Bytes → List (Bytes × Build) → Option Build
unfolding bytes_eq
find_build h [] = none
find_build h ((k, b) ∷ m) = if bytes_eq h k then some b else find_build h m

-- The loop over the installed builds; `place` is the path in the store with the time of its
-- directory.
unfoldable pub add_installed : (Ver → Bytes × ℕ) → Bytes → List Ver → Found → Found
unfolding bytes_eq set
add_installed place version [] f = f
add_installed place version (v ∷ vs) f =
    let b = record (new_build v) { installed = (place v).0; installed_at = (place v).1 } in
    elim (bytes_eq v.raw version) [
      | false ↦ add_installed place version vs f
      | true ↦
          add_installed place version vs
            (record { by_hash = set v.variant b f.by_hash; order = f.order ++ v.variant ∷ [] })
    ]

-- One round of the loop over the published builds.
unfoldable pub publish : Ver → Found → Found
unfolding find_build set
publish v f = elim (find_build v.variant f.by_hash) [
  | some b ↦ record f { by_hash = set v.variant (record b { published = true }) f.by_hash }
  | none ↦ record {
    by_hash = set v.variant (record (new_build v) { published = true }) f.by_hash;
    order = f.order ++ v.variant ∷ [];
  }
]

unfoldable pub add_published : List Ver → Found → Found
unfolding publish
add_published [] f = f
add_published (v ∷ vs) f = add_published vs (publish v f)

-- `publishedBuildsOf`, of the versions that are listed.
unfoldable pub published_builds_of : Bytes → List Ver → List Ver
unfolding bytes_eq
published_builds_of version vers = keep_if (λ v. bytes_eq v.raw version) vers

-- The loop of `collect`. Every hash of `order` is a key, so no round finds nothing.
unfoldable pub collect_from : List (Bytes × Build) → List Bytes → List Bytes → List Build
unfolding find_build
collect_from by_hash seen [] = []
collect_from by_hash seen (h ∷ hs) = elim (mem_bytes h seen) [
  | true ↦ collect_from by_hash seen hs
  | false ↦ elim (find_build h by_hash) [
    | none ↦ collect_from by_hash (h ∷ seen) hs
    | some b ↦ b ∷ collect_from by_hash (h ∷ seen) hs
  ]
]

-- `collect`.
unfoldable pub collect : Found → List Build
unfolding collect_from sort_texts
collect f = collect_from f.by_hash [] (sort_texts f.order)

-- `BuildsOf`: the builds, and an error where the listing failed.
unfoldable pub builds_of :
    Registry
    → (Ver → Bytes × ℕ)
    → List Ver
    → Result Failure (List Ver)
    → Bytes
    → List Build × Option Failure
unfolding collect describe_builds add_installed add_published published_builds_of
builds_of registry place installed listed version =
    let here = add_installed place version installed (record { by_hash = []; order = [] }) in
    elim listed [
      | err e ↦ (collect here, some e)
      | ok vers ↦ (
        describe_builds registry (collect (add_published (published_builds_of version vers) here)),
        none,
      )
    ]

-- `isPartialHash`.
unfoldable pub is_partial_hash : Bytes → Bool
is_partial_hash s =
    if ltb (length s) 4 || ltb hash_len (length s) then false else all is_hash_byte s

-- `ParseBuildRef`.
unfoldable pub parse_build_ref : Bytes → Bytes × Bytes
unfolding last_cut contains_byte is_partial_hash
parse_build_ref spec = elim (last_cut (codes "/") spec) [
  | none ↦ (spec, [])
  | some (rest, h) ↦
      if not (contains_byte b'@' rest) || not (is_partial_hash h) then (spec, []) else (rest, h)
]

-- `hashList`.
unfoldable pub hash_list : List Build → Bytes
unfolding join
hash_list [] = codes "none"
hash_list (b ∷ bs) = join (codes ", ") (map hash_of_build (b ∷ bs))

-- The errors of `MatchBuild`, with the list of hashes that each prints.
pub data MatchError : Type 0 where
  no_match : (prefix have : Bytes) → MatchError
  many_matches : (prefix : Bytes) → ℕ → (hits : Bytes) → MatchError

-- `MatchBuild`.
unfoldable pub match_build : List Build → Bytes → Result MatchError Build
unfolding hash_list cut_prefix
match_build builds prefix = elim (keep_if (λ b. has_prefix prefix (hash_of_build b)) builds) [
  | [] ↦ err (no_match prefix (hash_list builds))
  | b ∷ [] ↦ ok b
  | b ∷ c ∷ bs ↦ err (many_matches prefix (length (b ∷ c ∷ bs)) (hash_list (b ∷ c ∷ bs)))
]
