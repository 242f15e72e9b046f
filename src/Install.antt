-- ===== src/Install.antt =====
-- pkgx.go, verify.go and oci.go: a bottle is fetched, verified, unpacked and moved into the store.
pub mod Placed
pub mod Verified
use bottle.Common.{
  ℕ, List, [], ◌∷◌, ◌++◌, ◌&&◌, ◌||◌, not, Bool, true, false, Option, none, some, map,
}
use bottle.Common.Lists.{any, is_empty, keep_if}
use bottle.Common.Paths.{dir_of, join_path}
use bottle.Common.Result.{Result, ok, err}
use bottle.Common.Tests.{◌==◌, if◌then◌else◌}
use bottle.Common.Text.{Bytes, codes, bytes_eq, contains_byte, has_prefix, split_byte, trim_space}
use bottle.Extract.{ExtractError, Next, extract}
use bottle.Host.{Host, disk, mark_store_platform}
use bottle.ProjectName.{NameError, validate_project_name}
use bottle.Resolve.{Resolved}
use bottle.Search.{to_lower}
use bottle.Sources.{is_oci}
use bottle.StorePath.{store_build_prefix, store_hash, store_prefix}
use bottle.Trust.{
  Crypto, TrustSet, Attestation, Tally, CountError, ReportError, count, report, report_err,
}
use bottle.Version.{Ver, tag}

-- A bottle as `PullFile` or an HTTP answer gives it; an HTTP answer has no digest.
pub record Bottle : Type 0 where
  pub body : Bytes
  pub ext : Bytes
  pub digest : Bytes

-- The settings, and what the places answer: `PullFile` of the registry and of the cache, where one is
-- configured; the attestations on a tag with how many were malformed; a request over HTTP, with its
-- status; and the entries of a body, by `Decompressor` and `tar.Reader`. `none` is an error.
pub record Remote : Type 0 where
  pub dist_base : Bytes
  pub verify_setting : Bytes
  pub has_client : Bool
  pub pull_file : (project tag : Bytes) → Option Bottle
  pub cache : Option ((project tag : Bytes) → Option Bottle)
  pub load_trust_set : Option TrustSet
  pub attestations : (project tag : Bytes) → Option (List Attestation × ℕ)
  pub crypto : Crypto
  pub http : (url : Bytes) → Option (ℕ × Bytes)
  pub entries : (ext body : Bytes) → Option (List Next)
  pub abi_provides : (project tag : Bytes) → Bytes

-- The errors of `VerifyBottleDigest`.
pub data VerifyError : Type 0 where
  cannot_ask : VerifyError
  not_counted : CountError → VerifyError
  rejected : ReportError → VerifyError

-- The errors of `fetchBottle`.
pub data FetchError : Type 0 where
  no_client : FetchError
  not_pulled : FetchError
  not_verified : VerifyError → FetchError
  unverifiable : FetchError
  http_failed : FetchError
  http_refused : (url : Bytes) → (status : ℕ) → FetchError
  no_bottle : FetchError

-- `VerifyRequired`.
abbrev pub verify_required : Remote → Bool
verify_required w =
    let setting = to_lower (trim_space w.verify_setting) in
    not (any (bytes_eq setting) (codes "0" ∷ codes "false" ∷ codes "no" ∷ codes "off" ∷ []))

-- `VerifyBottleDigest` with `SignaturesOfDigest`; `none` is the nil error.
unfoldable pub verify_bottle_digest : Remote → (project tag digest : Bytes) → Option VerifyError
verify_bottle_digest w project tag digest = elim w.load_trust_set [
  | none ↦ some cannot_ask
  | some trust ↦ elim (w.attestations project tag) [
    | none ↦ some cannot_ask
    | some (atts, malformed) ↦ elim (count w.crypto trust digest atts) [
      | err e ↦ some (not_counted e)
      | ok tally ↦ elim (report_err (report trust malformed tally)) [
        | none ↦ none
        | some e ↦ some (rejected e)
      ]
    ]
  ]
]

-- `verifyPulledDigest`.
unfoldable pub verify_pulled_digest : Remote → (project tag digest : Bytes) → Option VerifyError
verify_pulled_digest w project tag digest =
    if not (verify_required w) then none else verify_bottle_digest w project tag digest

-- The pull of `fetchBottle` from the registry itself.
unfoldable pub fetch_from_registry : Remote → (project tag : Bytes) → Result FetchError Bottle
fetch_from_registry w project tag = elim (w.pull_file project tag) [
  | none ↦ err not_pulled
  | some b ↦ elim (verify_pulled_digest w project tag b.digest) [
    | some e ↦ err (not_verified e)
    | none ↦ ok b
  ]
]

-- The bottle of the cache, where it has one that is verified.
unfoldable pub fetch_from_cache : Remote → (project tag : Bytes) → Option Bottle
fetch_from_cache w project tag = elim w.cache [
  | none ↦ none
  | some pull ↦ elim (pull project tag) [
    | none ↦ none
    | some b ↦ elim (verify_pulled_digest w project tag b.digest) [ some e ↦ none | none ↦ some b ]
  ]
]

-- The loop over the codecs.
unfoldable pub fetch_over_http : Remote → (base : Bytes) → List Bytes → Result FetchError Bottle
fetch_over_http w base [] = err no_bottle
fetch_over_http w base (ext ∷ exts) = elim (w.http (base ++ ext)) [
  | none ↦ err http_failed
  | some (status, body) ↦ elim (status == 200) [
    | true ↦ ok (record { body = body; ext = ext; digest = [] })
    | false ↦ elim (status == 404) [
      | true ↦ fetch_over_http w base exts
      | false ↦ err (http_refused (base ++ ext) status)
    ]
  ]
]

abbrev pub codecs : List Bytes
codecs = codes ".tar.zst" ∷ codes ".tar.gz" ∷ codes ".tar.xz" ∷ []

-- The address of a bottle without its extension.
abbrev pub bottle_url : Remote → Resolved → (osn arch : Bytes) → Bytes
bottle_url w r osn arch =
    w.dist_base
    ++ (codes "/"
        ++ (r.project
            ++ (codes "/" ++ (osn ++ (codes "/" ++ (arch ++ (codes "/v" ++ r.version.raw)))))))

-- `fetchBottle`, with `httpDistUnverifiable`.
unfoldable pub fetch_bottle : Remote → Resolved → (osn arch : Bytes) → Result FetchError Bottle
fetch_bottle w r osn arch = elim (is_oci w.dist_base) [
  | true ↦
      if not w.has_client
      then err no_client
      else elim (fetch_from_cache w r.project (tag r.version)) [
        | some b ↦ ok b
        | none ↦ fetch_from_registry w r.project (tag r.version)
      ]
  | false ↦
      if verify_required w
      then err unverifiable
      else fetch_over_http w (bottle_url w r osn arch) codecs
]

-- The errors of `InstallFor`; `panicked` is the panic of `StoreBuildDirName`.
pub data InstallError : Type 0 where
  bad_name : NameError → InstallError
  not_fetched : FetchError → InstallError
  not_an_archive : InstallError
  not_unpacked : ExtractError → InstallError
  os_failed : InstallError
  panicked : InstallError

-- The text that names a build whose bytes have no digest.
abbrev pub source_of : Remote → Resolved → (osn arch : Bytes) → Bytes
source_of w r osn arch =
    w.dist_base ++ (0 ∷ (r.project ++ (0 ∷ (r.version.raw ++ (0 ∷ (osn ++ (codes "/" ++ arch)))))))
