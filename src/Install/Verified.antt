-- ===== src/Install/Verified.antt =====
-- pkgx.go and verify.go: what of a registry comes into the store.
use bottle.Common.{
  ℕ, ◌≤◌, List, ◌≡◌, ◌⊎◌, inl, inr, refl, sym, subst, Bool, true, false, none, some, arith,
}
use bottle.Common.Lists.{length}
use bottle.Common.Result.{Result, ok, err, Result-cases}
use bottle.Common.Tests.{Bool-cases, Option-cases}
use bottle.Common.Text.{Bytes}
use bottle.Extract.{Next}
use bottle.Host.{Host, disk, mark_store_platform}
use bottle.Install.{
  Bottle, Remote, VerifyError, FetchError, InstallError, verify_required, verify_bottle_digest,
  verify_pulled_digest, fetch_from_registry, fetch_from_cache, fetch_bottle,
}
use bottle.Install.Placed.{unpack, install_for}
use bottle.ProjectName.{validate_project_name}
use bottle.Resolve.{Resolved}
use bottle.Sources.{is_oci}
use bottle.StorePath.{store_prefix}
use bottle.Trust.{Signer, TrustSet, Attestation, Tally, count, report, report_err}
use bottle.Trust.Quorum.{IsQuorum, report_err-IsQuorum}
use bottle.Version.{tag}

-- As many trusted signers as the trust set asks for, and one at least, attested the digest.
abbrev pub IsVouchedFor : Remote → (project tag digest : Bytes) → Type 0
IsVouchedFor w project tag digest =
    (trust : TrustSet) × (atts : List Attestation) × (malformed : ℕ) × (names : List Bytes)
    × (ss : List Signer) × (w.load_trust_set ≡ some trust)
    × (w.attestations project tag ≡ some (atts, malformed))
    × IsQuorum w.crypto trust digest atts names ss
    × (1 ≤ length ss)
    × (trust.threshold ≤ length ss)

-- The cases of `verify_bottle_digest` that have an error.
module _ (w : Remote) (project tag digest : Bytes) where
  no_trust :
      w.load_trust_set ≡ none
      → verify_bottle_digest w project tag digest ≡ some VerifyError.cannot_ask
  unfolding verify_bottle_digest
  no_trust h = ground arith

  no_answer :
      (trust : TrustSet)
      → w.load_trust_set ≡ some trust
      → w.attestations project tag ≡ none
      → verify_bottle_digest w project tag digest ≡ some VerifyError.cannot_ask
  unfolding verify_bottle_digest
  no_answer trust h k = ground arith

  counted :
      (trust : TrustSet) (atts : List Attestation) (malformed : ℕ)
      → w.load_trust_set ≡ some trust
      → w.attestations project tag ≡ some (atts, malformed)
      → verify_bottle_digest w project tag digest ≡ none
      → (t : Tally) × (count w.crypto trust digest atts ≡ ok t)
        × (report_err (report trust malformed t) ≡ none)
  unfolding verify_bottle_digest
  counted trust atts malformed h k m = elim (Result-cases (count w.crypto trust digest atts)) [
    | inr (e, failed) ↦ ground arith
    | inl (t, found) ↦ elim (Option-cases (report_err (report trust malformed t))) [
      | inl good ↦ (t, found, good)
      | inr (e, bad) ↦ ground arith
    ]
  ]

  verify_bottle_digest-IsVouchedFor :
      verify_bottle_digest w project tag digest ≡ none → IsVouchedFor w project tag digest
  verify_bottle_digest-IsVouchedFor h = elim (Option-cases w.load_trust_set) [
    | inl a ↦ ground (arith, no_trust a)
    | inr (trust, a) ↦ elim (Option-cases (w.attestations project tag)) [
      | inl b ↦ ground (arith, no_answer trust a b)
      | inr ((atts, malformed), b) ↦
          let (t, found, good) = counted trust atts malformed a b h in
          let (ss, q, some_one, many) =
            report_err-IsQuorum w.crypto trust digest atts t malformed found good in
          (trust, atts, malformed, t.names, ss, a, b, q, some_one, many)
    ]
  ]

  verify_pulled_digest-IsVouchedFor :
      verify_required w ≡ true
      → verify_pulled_digest w project tag digest ≡ none
      → IsVouchedFor w project tag digest
  verify_pulled_digest-IsVouchedFor must h =
      let same : verify_pulled_digest w project tag digest
          ≡ verify_bottle_digest w project tag digest =
        unfold verify_pulled_digest in (ground arith) in
      verify_bottle_digest-IsVouchedFor (ground arith)

module _ (w : Remote) (project tag : Bytes) (must : verify_required w ≡ true) where
  -- A bottle is vouched for by its digest.
  abbrev IsVouchedBottle : Bottle → Type 0
  IsVouchedBottle b = IsVouchedFor w project tag b.digest

  fetch_from_registry-IsVouchedFor :
      (b : Bottle) → fetch_from_registry w project tag ≡ ok b → IsVouchedBottle b
  fetch_from_registry-IsVouchedFor b h = elim (Option-cases (w.pull_file project tag)) [
    | inl none_there ↦
        let failed : fetch_from_registry w project tag ≡ err FetchError.not_pulled =
          unfold fetch_from_registry in (ground arith) in
        ground arith
    | inr (c, found) ↦ elim (Option-cases (verify_pulled_digest w project tag c.digest)) [
      | inr (e, bad) ↦
          let failed : fetch_from_registry w project tag ≡ err (FetchError.not_verified e) =
            unfold fetch_from_registry in (ground arith) in
          ground arith
      | inl good ↦
          let got : fetch_from_registry w project tag ≡ ok c =
            unfold fetch_from_registry in (ground arith) in
          let same : c ≡ b = ground arith in
          subst IsVouchedBottle same
            (verify_pulled_digest-IsVouchedFor w project tag c.digest must good)
    ]
  ]

  fetch_from_cache-IsVouchedFor :
      (b : Bottle) → fetch_from_cache w project tag ≡ some b → IsVouchedBottle b
  fetch_from_cache-IsVouchedFor b h = elim (Option-cases w.cache) [
    | inl no_cache ↦
        let missed : fetch_from_cache w project tag ≡ none =
          unfold fetch_from_cache in (ground arith) in
        ground arith
    | inr (pull, configured) ↦ elim (Option-cases (pull project tag)) [
      | inl not_there ↦
          let missed : fetch_from_cache w project tag ≡ none =
            unfold fetch_from_cache in (ground arith) in
          ground arith
      | inr (c, found) ↦ elim (Option-cases (verify_pulled_digest w project tag c.digest)) [
        | inr (e, bad) ↦
            let missed : fetch_from_cache w project tag ≡ none =
              unfold fetch_from_cache in (ground arith) in
            ground arith
        | inl good ↦
            let got : fetch_from_cache w project tag ≡ some c =
              unfold fetch_from_cache in (ground arith) in
            let same : c ≡ b = ground arith in
            subst IsVouchedBottle same
              (verify_pulled_digest-IsVouchedFor w project tag c.digest must good)
      ]
    ]
  ]

module _ (w : Remote) (r : Resolved) (osn arch : Bytes) where
  fetch_bottle-IsVouchedFor :
      (b : Bottle)
      → is_oci w.dist_base ≡ true
      → verify_required w ≡ true
      → fetch_bottle w r osn arch ≡ ok b
      → IsVouchedFor w r.project (tag r.version) b.digest
  fetch_bottle-IsVouchedFor b oci must h = elim (Bool-cases w.has_client) [
    | inr no_client ↦
        let failed : fetch_bottle w r osn arch ≡ err FetchError.no_client =
          unfold fetch_bottle in (ground arith) in
        ground arith
    | inl client ↦ elim (Option-cases (fetch_from_cache w r.project (tag r.version))) [
      | inr (c, hit) ↦
          let got : fetch_bottle w r osn arch ≡ ok c = unfold fetch_bottle in (ground arith) in
          fetch_from_cache-IsVouchedFor w r.project (tag r.version) must b (ground arith)
      | inl missed ↦
          let asked : fetch_bottle w r osn arch ≡ fetch_from_registry w r.project (tag r.version) =
            unfold fetch_bottle in (ground arith) in
          fetch_from_registry-IsVouchedFor w r.project (tag r.version) must b (ground arith)
    ]
  ]

module _ {S : Type 0} (host : Host S) (w : Remote) (r : Resolved) (dir osn arch : Bytes) where
  abbrev pub marked : S → S
  marked s = mark_store_platform host dir osn arch s

  -- `install_for` did nothing but mark the store, and installed nothing.
  abbrev pub IsUntouched : S → S × Result InstallError Bool → Type 0
  IsUntouched s (t, answer) =
      ((t ≡ s) ⊎ (t ≡ marked s)) × ((answer ≡ ok false) ⊎ ((e : InstallError) × (answer ≡ err e)))

  abbrev marked_prefix : S → Bytes
  marked_prefix s = store_prefix (disk host (marked s)) dir r.project r.version

  -- What `install_for` did, where it unpacked a bottle: its digest is vouched for.
  abbrev pub IsUnpacked : S → S × Result InstallError Bool → Type 0
  IsUnpacked s outcome =
      (b : Bottle) × (archive : List Next) × IsVouchedFor w r.project (tag r.version) b.digest
      × (fetch_bottle w r osn arch ≡ ok b)
      × (w.entries b.ext b.body ≡ some archive)
      × (outcome ≡ unpack host w dir osn arch (marked_prefix s) r b archive (marked s))

  -- Where the bottles come from a registry and verification is not switched off, `install_for` either
  -- leaves the file system as it is but for the marker of the platform, and answers with `false` or an
  -- error; or it unpacks, over the marked store, the archive that the body of a fetched bottle holds,
  -- and on that bottle's digest there are attestations by at least one signer, and by as many distinct
  -- keys of the trust set as its threshold asks for, none of them revoked. This holds of a bottle of
  -- the cache as of one of the registry.
  pub install_for-IsVouchedFor :
      (s : S)
      → is_oci w.dist_base ≡ true
      → verify_required w ≡ true
      → IsUntouched s (install_for host w r dir osn arch s)
        ⊎ IsUnpacked s (install_for host w r dir osn arch s)
  install_for-IsVouchedFor s oci must = elim (Option-cases (validate_project_name r.project)) [
    | inr (e, bad) ↦
        let same : install_for host w r dir osn arch s ≡ (s, err (InstallError.bad_name e)) =
          unfold install_for in (ground arith) in
        inl (subst (IsUntouched s) (sym same) (inl refl, inr (InstallError.bad_name e, refl)))
    | inl good ↦ elim (Bool-cases (host.is_dir (marked_prefix s) (marked s))) [
      | inl there ↦
          let same : install_for host w r dir osn arch s ≡ (marked s, ok false) =
            unfold install_for in (ground arith) in
          inl (subst (IsUntouched s) (sym same) (inr refl, inl refl))
      | inr absent ↦ elim (Result-cases (fetch_bottle w r osn arch)) [
        | inr (e, failed) ↦
            let same : install_for host w r dir osn arch s
                ≡ (marked s, err (InstallError.not_fetched e)) =
              unfold install_for in (ground arith) in
            inl
              (subst (IsUntouched s) (sym same) (inr refl, inr (InstallError.not_fetched e, refl)))
        | inl (b, fetched) ↦ elim (Option-cases (w.entries b.ext b.body)) [
          | inl broken ↦
              let same : install_for host w r dir osn arch s
                  ≡ (marked s, err InstallError.not_an_archive) =
                unfold install_for in (ground arith) in
              inl (
                subst (IsUntouched s) (sym same)
                  (inr refl, inr (InstallError.not_an_archive, refl)))
          | inr (archive, read) ↦
              let same : install_for host w r dir osn arch s
                  ≡ unpack host w dir osn arch (marked_prefix s) r b archive (marked s) =
                unfold install_for in (ground arith) in
              let vouched = fetch_bottle-IsVouchedFor w r osn arch b oci must fetched in
              inr (b, archive, vouched, fetched, read, same)
        ]
      ]
    ]
  ]
