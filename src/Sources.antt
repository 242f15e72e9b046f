-- ===== src/Sources.antt =====
-- pkgx.go: where the versions of a project are listed, and what an error says of the places asked.
pub mod Asked
use bottle.Common.{
  ℕ, ◌+◌, List, [], ◌∷◌, ◌++◌, ◌&&◌, ◌||◌, not, Bool, true, false, Option, none, some, map,
}
use bottle.Common.Lists.{is_empty}
use bottle.Common.Result.{Result, ok, err}
use bottle.Common.Tests.{◌==◌, if◌then◌else◌}
use bottle.Common.Text.{Bytes, codes, bytes_eq, has_prefix, is_space, prepend}
use bottle.Fetch.{Response, GetError, is_not_found, http_get}
use bottle.Search.{contains, to_lower}
use bottle.Tag.{select_versions, sort_vers}
use bottle.Version.{Ver, parse_ver}

-- An error of the registry's client: the status of the response where it holds one, whether it is
-- `errdef.ErrNotFound`, and its text.
pub record RegistryError : Type 0 where
  pub status : Option ℕ
  pub is_errdef_not_found : Bool
  pub message : Bytes

-- The settings, and what the places answer: the listing of tags, and each request for a URL.
pub record Places : Type 0 where
  pub dist_base : Bytes
  pub upstream_dist : Bytes
  pub glibc_flavor : Bytes
  pub oci_token : Bytes
  pub oci_username : Bytes
  pub oci_password : Bytes
  pub tags : Result RegistryError (List Bytes)
  pub get : (url : Bytes) → ℕ → Response

-- The errors of `versionsForSourced`.
pub data SourceError : Type 0 where
  from_registry : RegistryError → SourceError
  from_http : GetError → SourceError
  not_carried : SourceError
  neither_place : GetError → SourceError

-- `IsOCI`.
abbrev pub is_oci : Bytes → Bool
is_oci base = has_prefix (codes "oci://") base

-- `haveUpstream`.
abbrev pub have_upstream : Places → Bool
have_upstream w = not (is_empty w.upstream_dist) && not (bytes_eq w.upstream_dist (codes "none"))

-- `anonymousRead`.
abbrev pub anonymous_read : Places → Bool
anonymous_read w = is_empty w.oci_token && is_empty w.oci_username && is_empty w.oci_password

-- The end of `repoAbsent`, which reads the text.
abbrev pub is_absent_text : Places → Bytes → Bool
is_absent_text w s =
    if contains (codes "name unknown") s
      || contains (codes "not known to registry") s
      || contains (codes "not found") s
      || contains (codes "404") s
    then true
    else anonymous_read w && contains (codes "403") s

-- `repoAbsent`, of an error that is not nil.
unfoldable pub repo_absent : Places → RegistryError → Bool
repo_absent w e = elim e.status [
  | some status ↦ if status == 404 then true else if status == 403 then anonymous_read w else false
  | none ↦ if e.is_errdef_not_found then true else is_absent_text w (to_lower e.message)
]

-- `strings.Fields`: the words between white space of ASCII; `open_word` is whether a word has begun.
unfoldable pub fields_from : (open_word : Bool) → Bytes → List Bytes
fields_from open_word [] = if open_word then [] ∷ [] else []
fields_from open_word (c ∷ s) = elim (is_space c) [
  | true ↦ elim open_word [ true ↦ [] ∷ fields_from false s | false ↦ fields_from false s ]
  | false ↦ prepend c (fields_from true s)
]

-- The address of a list of versions.
abbrev pub versions_url : (base project osn arch : Bytes) → Bytes
versions_url base project osn arch =
    base
    ++ (codes "/"
        ++ (project ++ (codes "/" ++ (osn ++ (codes "/" ++ (arch ++ codes "/versions.txt"))))))

-- `httpVersionsFor`.
unfoldable pub http_versions_for :
    Places → (base project osn arch : Bytes) → Result GetError (List Ver)
http_versions_for w base project osn arch =
    let url = versions_url base project osn arch in
    elim (http_get (w.get url) url).reply [
      | ok body ↦ ok (sort_vers (map parse_ver (fields_from false body)))
      | err none ↦ ok []
      | err (some e) ↦ err e
    ]

-- `ociVersionsFor`.
abbrev pub oci_versions_for : Places → Result RegistryError (List Ver)
oci_versions_for w = elim w.tags [
  | err e ↦ err e
  | ok tags ↦ ok (select_versions tags w.glibc_flavor)
]

-- `bothPlacesLooked`.
abbrev pub both_places_looked : Result GetError (List Ver) → Result SourceError (List Ver)
both_places_looked (ok vs) = ok vs
both_places_looked (err e) = if is_not_found e then err (neither_place e) else err (from_http e)

abbrev pub as_http : Result GetError (List Ver) → Result SourceError (List Ver)
as_http (ok vs) = ok vs
as_http (err e) = err (from_http e)

-- The two branches that fall back to the other place.
unfoldable pub fall_back :
    Places → (project osn arch : Bytes) → Result SourceError (List Ver) × Bool
fall_back w project osn arch =
    if have_upstream w
    then (both_places_looked (http_versions_for w w.upstream_dist project osn arch), false)
    else (err not_carried, false)

-- `versionsForSourced`; the flag says that the list is the registry's own.
unfoldable pub versions_for_sourced :
    Places → (project osn arch : Bytes) → Result SourceError (List Ver) × Bool
versions_for_sourced w project osn arch = elim (is_oci w.dist_base) [
  | false ↦ (as_http (http_versions_for w w.dist_base project osn arch), false)
  | true ↦ elim (oci_versions_for w) [
    | err e ↦
        if repo_absent w e then fall_back w project osn arch else (err (from_registry e), false)
    | ok vs ↦ if is_empty vs then fall_back w project osn arch else (ok vs, true)
  ]
]
