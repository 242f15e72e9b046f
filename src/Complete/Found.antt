-- ===== src/Complete/Found.antt =====
-- closure.go and closure_macho.go: the searches for a provider are runs of installs.
use bottle.Common.{List, [], ◌∷◌, ◌≡◌, inl, inr, refl, sym, subst, true, Option, none, some, arith}
use bottle.Common.Dict.{mem_bytes}
use bottle.Common.Lists.{is_empty, take}
use bottle.Common.Result.{Result-cases}
use bottle.Common.Tests.{Bool-cases, Option-cases}
use bottle.Common.Text.{Bytes}
use bottle.Macho.{Want}
use bottle.Resolve.{Resolved}
use bottle.Sonames.{project_for_soname, candidate_order, from_newest}
use bottle.Complete.{Means, max_try}
use bottle.Version.{Ver}
use bottle.Complete.Elf.{try_versions, install_providing_soname, provide_soname}
use bottle.Complete.Dylibs.{declares, try_lines, provide_macho_soname}
use bottle.Complete.Runs.{stay, tried, tried_own, kept, kept_own, Found}

module _ {S : Type 0} (m : Means S) where
  -- What a search for a provider answers.
  abbrev pub Finds : S → S × Option Resolved → Type 0
  Finds s (t, found) = Found m s t found

  Finds-tried :
      (s : S) (r : Resolved) (soname : Bytes) (x : S × Option Resolved)
      → project_for_soname soname ≡ r.project
      → Finds (m.install r s).0 x
      → Finds s x
  Finds-tried s r soname (t, none) e h = tried r soname e h
  Finds-tried s r soname (t, some q) e (h, k) = (tried r soname e h, tried r soname e k)

  Finds-tried_own :
      (s : S) (r : Resolved) (w : Want) (x : S × Option Resolved)
      → w.project ≡ r.project
      → declares (m.provides r) w.soname ≡ true
      → Finds (m.own_install r s).0 x
      → Finds s x
  Finds-tried_own s r w (t, none) e d h = tried_own r w e d h
  Finds-tried_own s r w (t, some q) e d (h, k) = (tried_own r w e d h, tried_own r w e d k)

  try_versions-Finds :
      (project soname : Bytes) (vs : List Ver) (s : S)
      → project_for_soname soname ≡ project
      → Finds s (try_versions m project soname vs s)
  unfolding try_versions
  try_versions-Finds project soname [] s asked = stay
  try_versions-Finds project soname (v ∷ vs) s asked =
      let r : Resolved = record { project = project; version = v } in
      let s1 = (m.install r s).0 in
      let others = try_versions m project soname vs s1 in
      let later = try_versions-Finds project soname vs s1 asked in
      elim (Result-cases (m.install r s).1) [
        | inr (e, failed) ↦
            let same : try_versions m project soname (v ∷ vs) s
                ≡ try_versions m project soname vs s1 =
              ground arith in
            subst (Finds s) (sym same) (Finds-tried s r soname others asked later)
        | inl (fresh, done) ↦
            elim (Bool-cases (mem_bytes soname (m.available (m.prefix r s1 ∷ []) s1))) [
              | inl there ↦
                  let same : try_versions m project soname (v ∷ vs) s ≡ (s1, some r) =
                    ground arith in
                  subst (Finds s) (sym same) (kept r fresh done stay, tried r soname asked stay)
              | inr absent ↦
                  let same : try_versions m project soname (v ∷ vs) s
                      ≡ try_versions m project soname vs s1 =
                    ground arith in
                  subst (Finds s) (sym same) (Finds-tried s r soname others asked later)
            ]
      ]

  install_providing_soname-Finds :
      (project soname : Bytes) (s : S)
      → project_for_soname soname ≡ project
      → Finds s (install_providing_soname m project soname s)
  unfolding install_providing_soname
  install_providing_soname-Finds project soname s asked = elim (Option-cases (m.versions project)) [
    | inl unlisted ↦
        let same : install_providing_soname m project soname s ≡ (s, none) = ground arith in
        subst (Finds s) (sym same) stay
    | inr (vs, listed) ↦
        let few = take max_try (candidate_order vs soname) in
        let same : install_providing_soname m project soname s
            ≡ try_versions m project soname few s =
          ground arith in
        subst (Finds s) (sym same) (try_versions-Finds project soname few s asked)
  ]

  pub provide_soname-Finds : (soname : Bytes) (s : S) → Finds s (provide_soname m soname s)
  provide_soname-Finds soname s = elim (Bool-cases (is_empty (project_for_soname soname))) [
    | inl unmapped ↦
        let same : provide_soname m soname s ≡ (s, none) =
          unfold provide_soname in (ground arith) in
        subst (Finds s) (sym same) stay
    | inr mapped ↦
        let same : provide_soname m soname s
            ≡ install_providing_soname m (project_for_soname soname) soname s =
          unfold provide_soname in (ground arith) in
        subst (Finds s) (sym same)
          (install_providing_soname-Finds (project_for_soname soname) soname s refl)
  ]

  try_lines-Finds : (w : Want) (vs : List Ver) (s : S) → Finds s (try_lines m w vs s)
  unfolding try_lines
  try_lines-Finds w [] s = stay
  try_lines-Finds w (v ∷ vs) s =
      let r : Resolved = record { project = w.project; version = v } in
      let s1 = (m.own_install r s).0 in
      elim (Bool-cases (declares (m.provides r) w.soname)) [
        | inr other ↦
            let same : try_lines m w (v ∷ vs) s ≡ try_lines m w vs s = ground arith in
            subst (Finds s) (sym same) (try_lines-Finds w vs s)
        | inl declared ↦ elim (Result-cases (m.own_install r s).1) [
          | inr (e, failed) ↦
              let same : try_lines m w (v ∷ vs) s ≡ try_lines m w vs s1 = ground arith in
              subst (Finds s) (sym same) (
                Finds-tried_own s r w (try_lines m w vs s1) refl declared (try_lines-Finds w vs s1))
          | inl (fresh, done) ↦
              let same : try_lines m w (v ∷ vs) s ≡ (s1, some r) = ground arith in
              subst (Finds s) (sym same)
                (kept_own r fresh done stay, tried_own r w refl declared stay)
        ]
      ]

  pub provide_macho_soname-Finds : (w : Want) (s : S) → Finds s (provide_macho_soname m w s)
  unfolding provide_macho_soname
  provide_macho_soname-Finds w s = elim (Option-cases (m.versions w.project)) [
    | inl unlisted ↦
        let same : provide_macho_soname m w s ≡ (s, none) = ground arith in
        subst (Finds s) (sym same) stay
    | inr (vs, listed) ↦
        let few = take max_try (from_newest vs) in
        let same : provide_macho_soname m w s ≡ try_lines m w few s = ground arith in
        subst (Finds s) (sym same) (try_lines-Finds w few s)
  ]
