-- ===== src/Resolve.antt =====
-- pkgx.go: `ResolveClosureFor`, which turns the demands of a walk into versions.
pub mod Answers
use bottle.Common.{
  ℕ, suc, ◌+◌, List, [], ◌∷◌, ◌++◌, ◌||◌, ◌&&◌, not, Bool, true, false, Option, none, some, map,
}
use bottle.Common.Lists.{length, is_empty}
use bottle.Common.Result.{Result, ok, err, ◌>>=◌}
use bottle.Common.Tests.{ltb, if◌then◌else◌}
use bottle.Common.Text.{Bytes}
use bottle.Closure.{Deps, Walk, WalkError, Recipes, demands, collect_graph}
use bottle.Lines.{PickOne, LinesError, pick_abi_lines}
use bottle.Pick.{Project, PickError, pick_version_for_all}
use bottle.Version.{Ver}

-- The struct `Resolved`.
pub record Resolved : Type 0 where
  pub project : Bytes
  pub version : Ver

-- The world that a resolution asks, on one platform: the recipes, what is published of each project,
-- and the annotation that lists the sonames of a project's tag.
pub record World : Type 0 where
  pub recipes : Recipes
  pub project : Bytes → Project
  pub provides : Bytes → Bytes → Bytes

-- The errors of `closureErr`: the demands on the project, with who made them, round the error of
-- the version pick.
pub data ClosureError : Type 0 where
  walk_failed : WalkError → ClosureError
  plain : PickError → ClosureError
  asked_for_by : (constraint who : Bytes) → PickError → ClosureError
  conflict : (project : Bytes) (constraints asked_by : List Bytes) → PickError → ClosureError

-- `closureErr`.
unfoldable pub closure_err : Bytes → List Bytes → List Bytes → PickError → ClosureError
closure_err project [] asked_by e = plain e
closure_err project (c ∷ []) [] e = plain e
closure_err project (c ∷ []) (who ∷ []) e = if is_empty who then plain e else asked_for_by c who e
closure_err project (c ∷ []) (who ∷ other ∷ more) e = plain e
closure_err project (c ∷ d ∷ cs) asked_by e = conflict project (c ∷ d ∷ cs) asked_by e

-- `PickVersionForAll`, without the warning.
abbrev pub pick_one : World → Bytes → PickOne
pick_one world p constraints = elim (pick_version_for_all (world.project p) constraints) [
  | ok (v, line) ↦ ok v
  | err e ↦ err e
]

-- The versions of one project: the one that meets all demands, or its ABI lines.
unfoldable pub resolve_project : World → Walk → Bytes → Result ClosureError (List Ver)
unfolding closure_err
resolve_project world w p =
    let constraints = demands p w.constraints in
    elim (pick_one world p constraints) [
      | ok v ↦ ok (v ∷ [])
      | err e ↦ elim (pick_abi_lines (pick_one world p) (world.provides p) constraints) [
        | ok vers ↦ ok vers
        | err _ ↦ err (closure_err p constraints (demands p w.asked_by) e)
      ]
    ]

abbrev pub resolved : Bytes → List Ver → List Resolved
resolved p vers = map (λ v. record { project = p; version = v }) vers

-- The loop over `order`.
unfoldable pub resolve_order : World → Walk → List Bytes → Result ClosureError (List Resolved)
unfolding resolve_project
resolve_order world w [] = ok []
resolve_order world w (p ∷ ps) = elim (resolve_project world w p) [
  | err e ↦ err e
  | ok vers ↦ elim (resolve_order world w ps) [
    | err e ↦ err e
    | ok rest ↦ ok (resolved p vers ++ rest)
  ]
]

-- `ResolveClosureFor`.
unfoldable pub resolve_closure_for : World → ℕ → Deps → Result ClosureError (List Resolved)
unfolding resolve_order collect_graph
resolve_closure_for world fuel roots = elim (collect_graph world.recipes fuel roots) [
  | err e ↦ err (walk_failed e)
  | ok w ↦ resolve_order world w w.order
]
