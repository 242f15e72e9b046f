-- ===== src/Tests/Complete.antt =====
-- A closure of one bottle whose file needs a library that it does not declare.
use bottle.Common.{ℕ, List, [], ◌∷◌, ◌++◌, ◌≡◌, false, some, map}
use bottle.Common.Dict.{mem_bytes, keys}
use bottle.Common.Int.{pos}
use bottle.Common.Result.{Result, ok, err}
use bottle.Common.Tests.{if◌then◌else◌}
use bottle.Common.Text.{Bytes, codes}
use bottle.Closure.{Deps}
use bottle.Complete.{Means, CompleteError}
use bottle.Complete.Whole.{complete_closure_for}
use bottle.Install.Placed.{install_for}
use bottle.Resolve.{Resolved}
use bottle.Sonames.{candidate_order}
use bottle.Sonames.Candidates.{starts_with, candidate_order-exact}
use bottle.Common.{not, refl}
use bottle.Common.Decimal.{decimal}
use bottle.Common.Lists.{keep_if}
use bottle.Tests.Install.{small_host, registry}
use bottle.Version.{Ver}
use mathlib.Core.List.{reverse}

abbrev release : ℕ → Ver
release n = record {
  raw = codes "6.3";
  nums = pos n ∷ pos 3 ∷ [];
  found_tag = [];
  rebuild = pos 0;
  variant = [];
}

abbrev bottle_of : Bytes → Resolved
bottle_of p = record { project = p; version = release 6 }

abbrev small_means : Means (List Bytes)
small_means = record {
  resolve = λ roots.
      let projects = keys roots in
      let more =
        if mem_bytes (codes "gnu.org/glibc") projects then codes "gnu.org/gmp" ∷ [] else [] in
      ok (map bottle_of (projects ++ more));
  install =
      λ r s. install_for small_host registry r (codes "srv") (codes "linux") (codes "s390x") s;
  own_install =
      λ r s. install_for small_host registry r (codes "srv") (codes "linux") (codes "s390x") s;
  prefix = λ r s. r.project;
  versions = λ p. some (release 6 ∷ []);
  provides = λ r. [];
  needed = λ prefixes s. codes "libgmp.so.10" ∷ codes "libcuda.so.1" ∷ [];
  available = λ prefixes s.
      if mem_bytes (codes "gnu.org/gmp") prefixes then codes "libgmp.so.10" ∷ [] else [];
  unresolved = λ prefixes s. [];
  implicit_roots_off = false;
  glibc_constraint = codes "*";
}

abbrev tool_roots : Deps
tool_roots = (codes "tool.org", codes "*") ∷ []

abbrev whole : List Bytes × Result CompleteError (List Resolved)
whole = complete_closure_for small_means (codes "linux") tool_roots []

abbrev project_names : Result CompleteError (List Resolved) → List Bytes
project_names (ok rs) = map (λ (r : Resolved). r.project) rs
project_names (err e) = []

abbrev provided : List Bytes
provided = project_names whole.1

candidate_order-exact_example :
    candidate_order
      (release 9 ∷ release 10 ∷ release 11 ∷ [])
      (codes "libgmp" ++ codes ".so." ++ (decimal 10 ++ codes ".5"))
    ≡ keep_if (starts_with 10) (reverse (release 9 ∷ release 10 ∷ release 11 ∷ []))
      ++ keep_if (λ v. not (starts_with 10 v)) (reverse (release 9 ∷ release 10 ∷ release 11 ∷ []))
candidate_order-exact_example =
    candidate_order-exact (release 9 ∷ release 10 ∷ release 11 ∷ []) (codes "libgmp") 10
      (codes ".5") (refl, (refl, (refl, (refl, (refl, (refl, tt)))))) refl
