-- ===== src/Complete.antt =====
-- closure.go and closure_macho.go: a closure is installed, and the bottles that its files need besides
-- are found by the shared libraries those name.
pub mod Elf
pub mod Dylibs
pub mod Whole
pub mod Runs
pub mod Found
pub mod Accounted
pub mod Kept
pub mod Darwin
pub mod Searched
pub mod Lines
pub mod Installed
use Prim.Native.Nat.{zero, suc}
use bottle.Common.{
  ℕ, List, [], ◌∷◌, ◌++◌, ◌&&◌, ◌||◌, not, Bool, true, false, Option, none, some, map,
}
use bottle.Common.Dict.{mem_bytes}
use bottle.Common.Lists.{is_empty, keep_if, take}
use bottle.Common.Result.{Result, ok, err}
use bottle.Common.Text.{Bytes, codes, bytes_eq}
use bottle.Closure.{Deps}
use bottle.Host.{Host, disk}
use bottle.Install.{Remote, InstallError}
use bottle.Install.Placed.{install_for}
use bottle.Macho.{Want, want_key}
use bottle.Resolve.{Resolved, World, ClosureError, resolve_closure_for}
use bottle.Sonames.{
  project_for_soname, implicit_roots, is_host_provided_soname, is_implicit_soname, candidate_order,
  from_newest, first_cut,
}
use bottle.StorePath.{store_prefix}
use bottle.Version.{Ver, tag}

-- What the completion calls, on a state of the file system. `install` and `own_install` are
-- `InstallFor` on the platform asked for and on that of the machine, `versions` is `FetchVersions`,
-- `needed` `scanNeeded`, `available` `availableSonames` and `unresolved` `unresolvedRefs`, the maps as
-- lists in the order of a range over them; `provides` is the annotation with a bottle's sonames.
pub record Means (S : Type 0) : Type 0 where
  pub resolve : Deps → Result ClosureError (List Resolved)
  pub install : Resolved → S → S × Result InstallError Bool
  pub own_install : Resolved → S → S × Result InstallError Bool
  pub prefix : Resolved → S → Bytes
  pub versions : Bytes → Option (List Ver)
  pub provides : Resolved → Bytes
  pub needed : List Bytes → S → List Bytes
  pub available : List Bytes → S → List Bytes
  pub unresolved : List Bytes → S → List Want
  pub implicit_roots_off : Bool
  pub glibc_constraint : Bytes

-- The errors of `CompleteClosureFor`.
pub data CompleteError : Type 0 where
  unresolved : ClosureError → CompleteError
  not_installed : InstallError → CompleteError

-- `r.Project+"@"+r.Version.Raw`
abbrev pub bottle_key : Resolved → Bytes
bottle_key r = r.project ++ (b'@' ∷ r.version.raw)

-- The variables of `completeELF`, the maps as the lists of their keys.
pub record Progress : Type 0 where
  pub closure : List Resolved
  pub have : List Bytes
  pub installed_ver : List Bytes
  pub tried_soname : List Bytes
  pub changed : Bool

abbrev pub max_try : ℕ
max_try = 40

abbrev pub max_rounds : ℕ
max_rounds = 8

-- A provider that was found goes into the closure, where that build is not in it.
abbrev pub note_provider : Option Resolved → Progress → Progress
note_provider none p = p
note_provider (some r) p = elim (mem_bytes (bottle_key r) p.installed_ver) [
  | true ↦ p
  | false ↦ record p {
    closure = p.closure ++ r ∷ [];
    have = r.project ∷ p.have;
    installed_ver = bottle_key r ∷ p.installed_ver;
    changed = true;
  }
]

module _ {S : Type 0} (m : Means S) where
  -- `prefixesOf`.
  abbrev pub prefixes_of : List Resolved → S → List Bytes
  prefixes_of closure s = map (λ r. m.prefix r s) closure
