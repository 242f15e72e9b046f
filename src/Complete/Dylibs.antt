-- ===== src/Complete/Dylibs.antt =====
-- closure_macho.go: the bottles that provide the lines which Mach-O files name.
use Prim.Native.Nat.{zero, suc}
use bottle.Common.{ℕ, List, [], ◌∷◌, ◌++◌, Bool, true, false, Option, none, some, map}
use bottle.Common.Dict.{mem_bytes}
use bottle.Common.Lists.{take}
use bottle.Common.Result.{ok, err}
use bottle.Common.Text.{Bytes}
use bottle.Macho.{Want, want_key}
use bottle.Resolve.{Resolved}
use bottle.Sonames.{from_newest, first_cut}
use bottle.Version.{Ver}
use bottle.Complete.{Means, bottle_key, Progress, max_try, max_rounds, note_provider, prefixes_of}

-- `strings.Contains(","+provides+",", ","+soname+",")`
abbrev pub declares : (provides soname : Bytes) → Bool
declares provides soname =
    elim (first_cut (b',' ∷ (soname ++ b',' ∷ [])) (b',' ∷ (provides ++ b',' ∷ []))) [
      | none ↦ false
      | some _ ↦ true
    ]

module _ {S : Type 0} (m : Means S) where
  -- The loop of `provideMachoSoname`, over the versions it may try.
  unfoldable pub try_lines : Want → List Ver → S → S × Option Resolved
  try_lines w [] s = (s, none)
  try_lines w (v ∷ vs) s =
      let r : Resolved = record { project = w.project; version = v } in
      elim (declares (m.provides r) w.soname) [
        | false ↦ try_lines w vs s
        | true ↦
            let (s1, answer) = m.own_install r s in
            elim answer [ err e ↦ try_lines w vs s1 | ok fresh ↦ (s1, some r) ]
      ]

  -- `provideMachoSoname`.
  unfoldable pub provide_macho_soname : Want → S → S × Option Resolved
  provide_macho_soname w s = elim (m.versions w.project) [
    | none ↦ (s, none)
    | some vs ↦ try_lines w (take max_try (from_newest vs)) s
  ]

  -- `completeMachO`: the loop over the references that do not resolve.
  unfoldable pub add_lines : List Want → Progress → S → S × Progress
  add_lines [] p s = (s, p)
  add_lines (w ∷ ws) p s = elim (mem_bytes (want_key w) p.tried_soname) [
    | true ↦ add_lines ws p s
    | false ↦
        let p1 = record p { tried_soname = want_key w ∷ p.tried_soname } in
        elim w.abi_line [
          | false ↦ add_lines ws p1 s
          | true ↦
              let (s1, found) = provide_macho_soname w s in add_lines ws (note_provider found p1) s1
        ]
  ]

  unfoldable pub macho_rounds : (left : ℕ) → Progress → S → S × List Resolved
  macho_rounds zero p s = (s, p.closure)
  macho_rounds (suc left) p s =
      let wants = m.unresolved (prefixes_of m p.closure s) s in
      let (s1, p1) = add_lines wants (record p { changed = false }) s in
      elim p1.changed [ true ↦ macho_rounds left p1 s1 | false ↦ (s1, p1.closure) ]

  -- `completeMachO`.
  unfoldable pub complete_macho : List Resolved → S → S × List Resolved
  complete_macho closure s =
      macho_rounds max_rounds
        (record {
          closure = closure;
          have = [];
          installed_ver = map bottle_key closure;
          tried_soname = [];
          changed = false;
        })
        s
