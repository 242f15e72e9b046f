-- ===== src/Complete/Installed.antt =====
-- closure.go and closure_macho.go: every bottle of a completed closure was installed.
use bottle.Common.{List, ◌++◌, ◌≡◌, ◌⊎◌, true, false, Option, none, some}
use bottle.Common.Result.{Result, ok, err}
use bottle.Common.Text.{Bytes, codes, bytes_eq}
use bottle.Closure.{Deps}
use bottle.Resolve.{Resolved}
use bottle.Complete.{Means, CompleteError}
use bottle.Install.{InstallError}
use bottle.Complete.Runs.{Run}
use bottle.Complete.Searched.Rounds.{EndsMet}
use bottle.Complete.Lines.{EndsTold}

module _ {S : Type 0} (m : Means S) where
  -- All of a list was installed, where no install failed.
  abbrev InstallsAll : List Resolved → S → S × Option InstallError → Type 0
  InstallsAll rs s (t, none) = Run m s t rs
  InstallsAll rs s (t, some e) = Unit

  -- What the completion of an installed closure has done, on linux, on darwin and elsewhere.
  abbrev IsCompleted : Bytes → List Resolved → S → S × Result CompleteError (List Resolved) → Type 0
  IsCompleted osn declared s (t, ok c) =
      ((bytes_eq osn (codes "linux") ≡ true) × EndsMet m declared s (t, ok c))
      ⊎ (((bytes_eq osn (codes "darwin") ≡ true) × EndsTold m declared s (t, c))
          ⊎ ((bytes_eq osn (codes "linux") ≡ false)
              × (bytes_eq osn (codes "darwin") ≡ false)
              × (c ≡ declared)))
  IsCompleted osn declared s (t, err e) = Unit

  -- What a completion answers: the closure that was resolved, with what was added behind it.
  abbrev pub Completes : Bytes → Deps → S → S × Result CompleteError (List Resolved) → Type 0
  Completes osn roots s (t, ok c) =
      (declared : List Resolved) × (added : List Resolved) × (m.resolve roots ≡ ok declared)
      × (c ≡ declared ++ added)
      × Run m s t c
      × ((u : S) × Run m s u declared × IsCompleted osn declared u (t, ok c))
  Completes osn roots s (t, err e) = Unit
