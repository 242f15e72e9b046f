-- ===== src/Sources/Asked.antt =====
-- pkgx.go: what the answer of `versionsForSourced` tells of the places that were asked.
use bottle.Common.{List, [], ◌∷◌, ◌≡◌, ◌⊎◌, inl, inr, refl, sym, subst, Bool, true, false, arith}
use bottle.Common.Lists.{is_empty}
use bottle.Common.Result.{Result, ok, err, Result-cases}
use bottle.Common.Tests.{Bool-cases, if◌then◌else◌}
use bottle.Common.Text.{Bytes}
use bottle.Fetch.{GetError, is_not_found}
use bottle.Sources.{
  RegistryError, Places, SourceError, from_registry, from_http, not_carried, neither_place, is_oci,
  have_upstream, repo_absent, oci_versions_for, http_versions_for, as_http, fall_back,
  versions_for_sourced,
}
use bottle.Version.{Ver}

module _ (w : Places) (project osn arch : Bytes) where
  -- The registry has no such repository, or it lists no version.
  abbrev pub IsMissing : Type 0
  IsMissing =
      ((e : RegistryError) × (oci_versions_for w ≡ err e) × (repo_absent w e ≡ true))
      ⊎ (oci_versions_for w ≡ ok [])

  -- What an answer tells.
  abbrev pub Tells : Result SourceError (List Ver) × Bool → Type 0
  Tells (ok vs, true) = (oci_versions_for w ≡ ok vs) × (is_empty vs ≡ false)
  Tells (ok vs, false) =
      ((is_oci w.dist_base ≡ false) × (http_versions_for w w.dist_base project osn arch ≡ ok vs))
      ⊎ (IsMissing
          × (have_upstream w ≡ true)
          × (http_versions_for w w.upstream_dist project osn arch ≡ ok vs))
  Tells (err (from_registry e), own) =
      (own ≡ false) × (oci_versions_for w ≡ err e) × (repo_absent w e ≡ false)
  Tells (err not_carried, own) = (own ≡ false) × IsMissing × (have_upstream w ≡ false)
  Tells (err (neither_place e), own) =
      (own ≡ false)
      × IsMissing
      × (have_upstream w ≡ true)
      × (is_not_found e ≡ true)
      × (http_versions_for w w.upstream_dist project osn arch ≡ err e)
  Tells (err (from_http e), own) =
      (own ≡ false)
      × (((is_oci w.dist_base ≡ false) × (http_versions_for w w.dist_base project osn arch ≡ err e))
          ⊎ (IsMissing
              × (have_upstream w ≡ true)
              × (is_not_found e ≡ false)
              × (http_versions_for w w.upstream_dist project osn arch ≡ err e)))

  fall_back-Tells : IsMissing → Tells (fall_back w project osn arch)
  fall_back-Tells missing = elim (Bool-cases (have_upstream w)) [
    | inr no_other ↦ subst Tells (sym (alone no_other)) (refl, missing, no_other)
    | inl other ↦ elim (Result-cases (http_versions_for w w.upstream_dist project osn arch)) [
      | inl (vs, found) ↦ subst Tells (sym (listed vs other found)) (inr (missing, other, found))
      | inr (e, failed) ↦ elim (Bool-cases (is_not_found e)) [
        | inl gone ↦
            subst Tells (sym (gone_there e other failed gone)) (refl, missing, other, gone, failed)
        | inr broken ↦
            subst Tells (sym (broken_there e other failed broken))
              (refl, inr (missing, other, broken, failed))
      ]
    ]
  ]
    where
      alone : have_upstream w ≡ false → fall_back w project osn arch ≡ (err not_carried, false)
      alone h = unfold fall_back in (ground arith)

      listed :
          (vs : List Ver)
          → have_upstream w ≡ true
          → http_versions_for w w.upstream_dist project osn arch ≡ ok vs
          → fall_back w project osn arch ≡ (ok vs, false)
      listed vs h k = unfold fall_back in (ground arith)

      gone_there :
          (e : GetError)
          → have_upstream w ≡ true
          → http_versions_for w w.upstream_dist project osn arch ≡ err e
          → is_not_found e ≡ true
          → fall_back w project osn arch ≡ (err (neither_place e), false)
      gone_there e h k m = unfold fall_back in (ground arith)

      broken_there :
          (e : GetError)
          → have_upstream w ≡ true
          → http_versions_for w w.upstream_dist project osn arch ≡ err e
          → is_not_found e ≡ false
          → fall_back w project osn arch ≡ (err (from_http e), false)
      broken_there e h k m = unfold fall_back in (ground arith)

  plain_http :
      is_oci w.dist_base ≡ false
      → versions_for_sourced w project osn arch
        ≡ (as_http (http_versions_for w w.dist_base project osn arch), false)
  unfolding versions_for_sourced
  plain_http h = ground arith

  registry_failed :
      (e : RegistryError)
      → is_oci w.dist_base ≡ true
      → oci_versions_for w ≡ err e
      → versions_for_sourced w project osn arch
        ≡ (if repo_absent w e then fall_back w project osn arch else (err (from_registry e), false))
  unfolding versions_for_sourced
  registry_failed e h k = ground arith

  registry_listed :
      (vs : List Ver)
      → is_oci w.dist_base ≡ true
      → oci_versions_for w ≡ ok vs
      → versions_for_sourced w project osn arch
        ≡ (if is_empty vs then fall_back w project osn arch else (ok vs, true))
  unfolding versions_for_sourced
  registry_listed vs h k = ground arith

  listed-Tells :
      (vs : List Ver)
      → oci_versions_for w ≡ ok vs
      → Tells (if is_empty vs then fall_back w project osn arch else (ok vs, true))
  listed-Tells [] k = fall_back-Tells (inr k)
  listed-Tells (v ∷ vs) k = (k, refl)

  failed-Tells :
      (e : RegistryError)
      → oci_versions_for w ≡ err e
      → Tells
          (if repo_absent w e then fall_back w project osn arch else (err (from_registry e), false))
  failed-Tells e k = elim (Bool-cases (repo_absent w e)) [
    | inl absent ↦ rw absent (fall_back-Tells (inl (e, k, absent)))
    | inr there ↦ rw there (refl, k, there)
  ]

  http-Tells :
      (r : Result GetError (List Ver))
      → is_oci w.dist_base ≡ false
      → http_versions_for w w.dist_base project osn arch ≡ r
      → Tells (as_http r, false)
  http-Tells (ok vs) h k = inl (h, k)
  http-Tells (err e) h k = (refl, inl (h, k))

  -- A list that `versionsForSourced` calls the registry's own is what the registry lists, and it is not
  -- empty; another comes from the plain HTTP place, or from upstream, and then the registry has no such
  -- repository or lists nothing. An error of the registry is returned only where it does not say that
  -- the repository is absent; the error that no upstream is configured, only where none is and the
  -- project is missing; and the error that names both places, only where both were asked, the project
  -- is missing in one and the other has answered 404.
  pub versions_for_sourced-Tells : Tells (versions_for_sourced w project osn arch)
  versions_for_sourced-Tells = elim (Bool-cases (is_oci w.dist_base)) [
    | inr plain ↦
        subst Tells (sym (plain_http plain))
          (http-Tells (http_versions_for w w.dist_base project osn arch) plain refl)
    | inl oci ↦ elim (Result-cases (oci_versions_for w)) [
      | inl (vs, k) ↦ subst Tells (sym (registry_listed vs oci k)) (listed-Tells vs k)
      | inr (e, k) ↦ subst Tells (sym (registry_failed e oci k)) (failed-Tells e k)
    ]
  ]
