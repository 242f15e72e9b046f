-- ===== src/Complete/Elf.antt =====
-- closure.go: the bottles that provide what ELF files need by soname.
use Prim.Native.Nat.{zero, suc}
use bottle.Common.{ℕ, List, [], ◌∷◌, ◌++◌, ◌||◌, not, Bool, true, false, Option, none, some, map}
use bottle.Common.Dict.{mem_bytes}
use bottle.Common.Lists.{is_empty, keep_if, take}
use bottle.Common.Result.{Result, ok, err}
use bottle.Common.Text.{Bytes}
use bottle.Resolve.{Resolved}
use bottle.Sonames.{
  project_for_soname, implicit_roots, is_host_provided_soname, is_implicit_soname, candidate_order,
}
use bottle.Version.{Ver}
use bottle.Complete.{
  Means, CompleteError, unresolved, not_installed, bottle_key, Progress, max_try, max_rounds,
  note_provider, prefixes_of,
}

module _ {S : Type 0} (m : Means S) where
  -- The loop of `installProvidingSoname`, over the versions it may try.
  unfoldable pub try_versions : (project soname : Bytes) → List Ver → S → S × Option Resolved
  try_versions project soname [] s = (s, none)
  try_versions project soname (v ∷ vs) s =
      let r : Resolved = record { project = project; version = v } in
      let (s1, answer) = m.install r s in
      elim answer [
        | err e ↦ try_versions project soname vs s1
        | ok fresh ↦ elim (mem_bytes soname (m.available (m.prefix r s1 ∷ []) s1)) [
          | true ↦ (s1, some r)
          | false ↦ try_versions project soname vs s1
        ]
      ]

  -- `installProvidingSoname`, where an error is `none` too, as for `provideSoname`.
  unfoldable pub install_providing_soname : (project soname : Bytes) → S → S × Option Resolved
  install_providing_soname project soname s = elim (m.versions project) [
    | none ↦ (s, none)
    | some vs ↦ try_versions project soname (take max_try (candidate_order vs soname)) s
  ]

  -- `provideSoname`.
  unfoldable pub provide_soname : (soname : Bytes) → S → S × Option Resolved
  provide_soname soname s = elim (is_empty (project_for_soname soname)) [
    | true ↦ (s, none)
    | false ↦ install_providing_soname (project_for_soname soname) soname s
  ]

  -- `completeELF`: the loop over what `ResolveClosureFor` answers for the implicit roots.
  unfoldable pub add_implicit : List Resolved → Progress → S → S × Result CompleteError Progress
  add_implicit [] p s = (s, ok p)
  add_implicit (r ∷ rs) p s = elim (mem_bytes r.project p.have) [
    | true ↦ add_implicit rs p s
    | false ↦
        let (s1, answer) = m.install r s in
        elim answer [
          | err e ↦ (s1, err (not_installed e))
          | ok fresh ↦
              add_implicit rs
                (record p {
                  closure = p.closure ++ r ∷ [];
                  have = r.project ∷ p.have;
                  changed = true;
                })
                s1
        ]
  ]

  -- `completeELF`: the block of the implicit roots.
  unfoldable pub complete_implicit :
      (needed : List Bytes) → Progress → S → S × Result CompleteError Progress
  complete_implicit needed p s =
      let roots = implicit_roots m.implicit_roots_off m.glibc_constraint needed in
      let implicit = keep_if (λ (d : Bytes × Bytes). not (mem_bytes d.0 p.have)) roots in
      elim (is_empty implicit) [
        | true ↦ (s, ok p)
        | false ↦ elim (m.resolve implicit) [
          | err e ↦ (s, err (unresolved e))
          | ok more ↦ add_implicit more p s
        ]
      ]

  -- A soname that the loop passes over.
  abbrev pub is_passed : (provided : List Bytes) → Progress → (soname : Bytes) → Bool
  is_passed provided p soname =
      mem_bytes soname provided || mem_bytes soname p.tried_soname || is_implicit_soname soname

  -- `completeELF`: the loop over the sonames.
  unfoldable pub add_providers : (provided : List Bytes) → List Bytes → Progress → S → S × Progress
  add_providers provided [] p s = (s, p)
  add_providers provided (soname ∷ sonames) p s = elim (is_passed provided p soname) [
    | true ↦ add_providers provided sonames p s
    | false ↦
        let p1 = record p { tried_soname = soname ∷ p.tried_soname } in
        elim (is_host_provided_soname soname) [
          | true ↦ add_providers provided sonames p1 s
          | false ↦
              let (s1, found) = provide_soname soname s in
              add_providers provided sonames (note_provider found p1) s1
        ]
  ]

  -- A round of `completeELF`.
  unfoldable pub complete_round : Progress → S → S × Result CompleteError Progress
  complete_round p s =
      let prefixes = prefixes_of m p.closure s in
      let needed = m.needed prefixes s in
      let provided = m.available prefixes s in
      let (s1, answer) = complete_implicit needed (record p { changed = false }) s in
      elim answer [
        | err e ↦ (s1, err e)
        | ok p1 ↦ let (s2, p2) = add_providers provided needed p1 s1 in (s2, ok p2)
      ]

  unfoldable pub complete_rounds :
      (left : ℕ) → Progress → S → S × Result CompleteError (List Resolved)
  complete_rounds zero p s = (s, ok p.closure)
  complete_rounds (suc left) p s =
      let (s1, answer) = complete_round p s in
      elim answer [
        | err e ↦ (s1, err e)
        | ok p1 ↦ elim p1.changed [
          | true ↦ complete_rounds left p1 s1
          | false ↦ (s1, ok p1.closure)
        ]
      ]

  -- `completeELF`.
  unfoldable pub complete_elf : List Resolved → S → S × Result CompleteError (List Resolved)
  complete_elf closure s =
      complete_rounds max_rounds
        (record {
          closure = closure;
          have = map (λ (r : Resolved). r.project) closure;
          installed_ver = map bottle_key closure;
          tried_soname = [];
          changed = false;
        })
        s
