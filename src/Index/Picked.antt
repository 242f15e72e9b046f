-- ===== src/Index/Picked.antt =====
-- oci.go: which manifest a platform gets from an index that others were put into.
use bottle.Common.{
  List, [], ◌∷◌, ◌++◌, ◌≡◌, inl, inr, refl, sym, ap, ◌∙◌, subst, ◌&&◌, not, false, Option, none,
  some, arith,
}
use bottle.Common.Lists.{keep_if}
use bottle.Common.Tests.{Bool-cases, Option-cases, if◌then◌else◌}
use bottle.Common.Text.{Bytes, bytes_eq, bytes_eq→eq, eq→bytes_eq}
use bottle.Index.{Platform, Descriptor, is_for, pick_manifest, upsert_platform}
use bottle.Index.Merge.{upsert_all}

abbrev pub or_else : Option Descriptor → Option Descriptor → Option Descriptor
or_else (some d) later = some d
or_else none later = later

module _ (os architecture : Bytes) where
  pick_manifest_cons :
      (m : Descriptor) (ms : List Descriptor)
      → pick_manifest os architecture (m ∷ ms)
        ≡ (if is_for os architecture m then some m else pick_manifest os architecture ms)
  unfolding pick_manifest
  pick_manifest_cons m ms = ground arith

  pick-append :
      (ms ns : List Descriptor)
      → pick_manifest os architecture (ms ++ ns)
        ≡ or_else (pick_manifest os architecture ms) (pick_manifest os architecture ns)
  unfolding pick_manifest
  pick-append [] ns = refl
  pick-append (m ∷ ms) ns = ground (arith, pick-append ms ns)

  -- No manifest is for two platforms.
  apart :
      (os' architecture' : Bytes) (m : Descriptor)
      → (bytes_eq os' os && bytes_eq architecture' architecture) ≡ false
      → (is_for os' architecture' m && is_for os architecture m) ≡ false
  unfolding is_for
  apart os' architecture' m h = elim (Option-cases m.platform) [
    | inl k ↦ ground arith
    | inr (q, k) ↦
        let a = bytes_eq→eq q.os os' in
        let b = bytes_eq→eq q.architecture architecture' in
        let c = bytes_eq→eq q.os os in
        let d = bytes_eq→eq q.architecture architecture in
        let e = eq→bytes_eq os' os in let f = eq→bytes_eq architecture' architecture in ground arith
  ]

  -- Entries for another platform are left out.
  pick-keep_others :
      (os' architecture' : Bytes) (ms : List Descriptor)
      → (bytes_eq os' os && bytes_eq architecture' architecture) ≡ false
      → pick_manifest os architecture (keep_if (λ m. not (is_for os' architecture' m)) ms)
        ≡ pick_manifest os architecture ms
  unfolding pick_manifest
  pick-keep_others os' architecture' [] h = refl
  pick-keep_others os' architecture' (m ∷ ms) h =
      ground (arith, pick-keep_others os' architecture' ms h, apart os' architecture' m h)

  pick-keep_none :
      (ms : List Descriptor)
      → pick_manifest os architecture (keep_if (λ m. not (is_for os architecture m)) ms) ≡ none
  unfolding pick_manifest
  pick-keep_none [] = refl
  pick-keep_none (m ∷ ms) = ground (arith, pick-keep_none ms)

  upsert-none :
      (ms : List Descriptor) (d : Descriptor)
      → d.platform ≡ none
      → upsert_platform ms d ≡ ms ++ d ∷ []
  unfolding upsert_platform
  upsert-none ms d h = ground arith

  upsert-some :
      (ms : List Descriptor) (d : Descriptor) (p : Platform)
      → d.platform ≡ some p
      → upsert_platform ms d ≡ keep_if (λ m. not (is_for p.os p.architecture m)) ms ++ d ∷ []
  unfolding upsert_platform
  upsert-some ms d p h = ground arith

  pick_one :
      (d : Descriptor)
      → pick_manifest os architecture (d ∷ []) ≡ (if is_for os architecture d then some d else none)
  unfolding pick_manifest
  pick_one d = ground arith

  -- After `upsert_platform`, a platform gets the manifest that was put in, where that is for the
  -- platform, and what it got before, where it is not.
  pub pick_manifest-upsert_platform :
      (ms : List Descriptor) (d : Descriptor)
      → pick_manifest os architecture (upsert_platform ms d)
        ≡ (if is_for os architecture d then some d else pick_manifest os architecture ms)
  pick_manifest-upsert_platform ms d = elim (Option-cases d.platform) [
    | inl no_platform ↦
        let no_match : is_for os architecture d ≡ false = unfold is_for in (ground arith) in
        let same = upsert-none ms d no_platform in
        let parts = pick-append ms (d ∷ []) in
        let alone = pick_one d in ap (pick_manifest os architecture) same ∙ ground arith
    | inr (p, known) ↦
        let others = keep_if (λ m. not (is_for p.os p.architecture m)) ms in
        let same = ap (pick_manifest os architecture) (upsert-some ms d p known) in
        let parts = pick-append others (d ∷ []) in
        let alone = pick_one d in
        let own : is_for os architecture d
            ≡ (bytes_eq p.os os && bytes_eq p.architecture architecture) =
          unfold is_for in (ground arith) in
        elim (Bool-cases (bytes_eq p.os os && bytes_eq p.architecture architecture)) [
          | inl hit ↦
              let a : p.os ≡ os = bytes_eq→eq p.os os (ground arith) in
              let b : p.architecture ≡ architecture =
                bytes_eq→eq p.architecture architecture (ground arith) in
              let gone : pick_manifest os architecture others ≡ none =
                subst
                  (λ o.
                    pick_manifest os architecture
                      (keep_if (λ m. not (is_for o p.architecture m)) ms)
                    ≡ none)
                  (sym a)
                  (subst
                    (λ q.
                      pick_manifest os architecture (keep_if (λ m. not (is_for os q m)) ms) ≡ none)
                    (sym b) (pick-keep_none ms)) in
              same ∙ ground arith
          | inr miss ↦
              let kept = pick-keep_others p.os p.architecture ms miss in same ∙ ground arith
        ]
  ]

  -- The last manifest of a list that is for the platform.
  abbrev pub last_for : List Descriptor → Option Descriptor
  last_for [] = none
  last_for (d ∷ ds) = or_else (last_for ds) (pick_manifest os architecture (d ∷ []))

  -- After all manifests of a list were put in, a platform gets the last of them that is for it, and
  -- what it got before, where none is.
  pub pick_manifest-upsert_all :
      (ms ds : List Descriptor)
      → pick_manifest os architecture (upsert_all ms ds)
        ≡ or_else (last_for ds) (pick_manifest os architecture ms)
  pick_manifest-upsert_all ms [] = refl
  pick_manifest-upsert_all ms (d ∷ ds) =
      let later = pick_manifest-upsert_all (upsert_platform ms d) ds in
      let here = pick_manifest-upsert_platform ms d in let alone = pick_one d in ground arith
