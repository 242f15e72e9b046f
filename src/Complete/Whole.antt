-- ===== src/Complete/Whole.antt =====
-- closure.go: a closure is resolved, installed and completed.
use bottle.Common.{List, [], ◌∷◌, true, false, Option, none, some}
use bottle.Common.Result.{Result, ok, err}
use bottle.Common.Text.{Bytes, codes, bytes_eq}
use bottle.Closure.{Deps}
use bottle.Install.{InstallError}
use bottle.Resolve.{Resolved}
use bottle.Complete.{Means, CompleteError, unresolved, not_installed}
use bottle.Complete.Elf.{complete_elf}
use bottle.Complete.Dylibs.{complete_macho}

module _ {S : Type 0} (m : Means S) where
  -- The first loop of `CompleteClosureFor`.
  unfoldable pub install_all : List Resolved → S → S × Option InstallError
  install_all [] s = (s, none)
  install_all (r ∷ rs) s =
      let (s1, answer) = m.install r s in
      elim answer [ err e ↦ (s1, some e) | ok fresh ↦ install_all rs s1 ]

  -- `CompleteClosureFor`, once the closure is installed.
  unfoldable pub complete_installed :
      (osn : Bytes) → List Resolved → S → S × Result CompleteError (List Resolved)
  complete_installed osn closure s = elim (bytes_eq osn (codes "linux")) [
    | true ↦ complete_elf m closure s
    | false ↦ elim (bytes_eq osn (codes "darwin")) [
      | true ↦ let (s1, c) = complete_macho m closure s in (s1, ok c)
      | false ↦ (s, ok closure)
    ]
  ]

  -- `CompleteClosureFor`.
  unfoldable pub complete_closure_for :
      (osn : Bytes) → Deps → S → S × Result CompleteError (List Resolved)
  complete_closure_for osn roots s = elim (m.resolve roots) [
    | err e ↦ (s, err (unresolved e))
    | ok closure ↦
        let (s1, failure) = install_all closure s in
        elim failure [
          | some e ↦ (s1, err (not_installed e))
          | none ↦ complete_installed osn closure s1
        ]
  ]
