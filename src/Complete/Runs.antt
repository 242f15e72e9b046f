-- ===== src/Complete/Runs.antt =====
-- closure.go and closure_macho.go: what a completion installs, in one run of the file system.
use bottle.Common.{
  List, [], ◌∷◌, ◌++◌, ◌≡◌, inl, inr, sym, ap, ◌∙◌, Bool, true, Option, none, some, append-nil,
  append_assoc, arith,
}
use bottle.Common.Dict.{mem_bytes}
use bottle.Common.Result.{ok}
use bottle.Common.Tests.{Bool-cases}
use bottle.Macho.{Want}
use bottle.Common.Text.{Bytes}
use bottle.Sonames.{project_for_soname}
use bottle.Complete.Dylibs.{declares}
use bottle.Resolve.{Resolved}
use bottle.Complete.{Means, bottle_key, Progress, note_provider}

module _ {S : Type 0} (m : Means S) where
  -- A run of installs from one state to another, with the bottles that it keeps, in order: each is
  -- one whose install had no error. The other installs of the run are `tried`: those of a version of
  -- the project that a soname is mapped to, or of one that declares the line that a reference names.
  pub data Run : S → S → List Resolved → Type 0 where
    stay : {s : S} → Run s s []
    tried :
        {s t : S} {rs : List Resolved} (r : Resolved) (soname : Bytes)
        → project_for_soname soname ≡ r.project
        → Run (m.install r s).0 t rs
        → Run s t rs
    tried_own :
        {s t : S} {rs : List Resolved} (r : Resolved) (w : Want)
        → w.project ≡ r.project
        → declares (m.provides r) w.soname ≡ true
        → Run (m.own_install r s).0 t rs
        → Run s t rs
    kept :
        {s t : S} {rs : List Resolved} (r : Resolved) (fresh : Bool)
        → (m.install r s).1 ≡ ok fresh
        → Run (m.install r s).0 t rs
        → Run s t (r ∷ rs)
    kept_own :
        {s t : S} {rs : List Resolved} (r : Resolved) (fresh : Bool)
        → (m.own_install r s).1 ≡ ok fresh
        → Run (m.own_install r s).0 t rs
        → Run s t (r ∷ rs)

  pub Run-append :
      {s t u : S} {rs qs : List Resolved} → Run s t rs → Run t u qs → Run s u (rs ++ qs)
  Run-append stay g = g
  Run-append (tried r soname e h) g = tried r soname e (Run-append h g)
  Run-append (tried_own r w e d h) g = tried_own r w e d (Run-append h g)
  Run-append (kept r fresh e h) g = kept r fresh e (Run-append h g)
  Run-append (kept_own r fresh e h) g = kept_own r fresh e (Run-append h g)

  -- The run of a search: one that found a provider keeps it, and it may count as tried too.
  abbrev pub Found : S → S → Option Resolved → Type 0
  Found s t none = Run s t []
  Found s t (some r) = Run s t (r ∷ []) × Run s t []

  -- A list of bottles that grows by those that a run keeps.
  abbrev pub Grows : S → S → (before after : List Resolved) → Type 0
  Grows s t before after = (added : List Resolved) × (after ≡ before ++ added) × Run s t added

  pub Grows-stay : (s : S) (rs : List Resolved) → Grows s s rs rs
  Grows-stay s rs = ([], sym (append-nil rs), stay)

  pub Grows-trans :
      {s t u : S} (ps : List Resolved) {qs rs : List Resolved}
      → Grows s t ps qs
      → Grows t u qs rs
      → Grows s u ps rs
  Grows-trans ps (a, e, h) (b, f, g) =
      (a ++ b, f ∙ (ap (λ l. l ++ b) e ∙ append_assoc ps a b), Run-append h g)

  pub note_provider-Grows :
      (s t : S) (found : Option Resolved) (p : Progress)
      → Found s t found
      → Grows s t p.closure (note_provider found p).closure
  note_provider-Grows s t none p h = ([], sym (append-nil p.closure), h)
  note_provider-Grows s t (some r) p h =
      elim (Bool-cases (mem_bytes (bottle_key r) p.installed_ver)) [
        | inl there ↦
            let same : (note_provider (some r) p).closure ≡ p.closure = ground arith in
            ([], same ∙ sym (append-nil p.closure), h.1)
        | inr new ↦
            let same : (note_provider (some r) p).closure ≡ p.closure ++ r ∷ [] = ground arith in
            (r ∷ [], same, h.0)
      ]
