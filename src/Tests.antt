-- ===== src/Tests.antt =====
-- Small inputs, and what the program does on them.
pub mod Trust
pub mod Concrete
pub mod BuildOrder
pub mod Builds
pub mod StorePath
pub mod Extract
pub mod Catalog
pub mod Lock
pub mod Fetch
pub mod Install
pub mod Complete
pub mod Glibc
pub mod Index
pub mod Recipe
pub mod Store
pub mod Wire
pub mod Sources
use bottle.Common.{[], ◌∷◌, ◌≡◌, ◌≢◌, refl, List, true, false, none, arith}
use bottle.Common.Dict.{IsOnce, keys, set}
use bottle.Common.Int.{pos}
use bottle.Common.Lists.{All, any}
use bottle.Common.Result.{Result, ok, err}
use bottle.Common.Text.{Bytes, codes, bytes_eq}
use bottle.Closure.{Deps, Walk, Recipes, out_of_fuel, collect_graph}
use bottle.Closure.Demands.{IsConsistent, collect_graph-IsConsistent}
use bottle.Closure.Ends.{AreIn, IsClosedUnder, collect_graph_enough}
use bottle.Closure.Named.{AllOf, IsRead}
use bottle.Closure.Reach.{IsReached, collect_graph-order}
use bottle.Constraint.{ge, lt, caret, satisfies, satisfies_all, satisfies_body}
use bottle.Constraint.Meaning.{
  Alternatives, print_constraint, meets_conjunction, satisfies-print_constraint,
}
use bottle.Constraint.Recursion.{satisfies_unrolled}
use bottle.Lines.{pick_abi_lines}
use bottle.Lines.Cover.{met, pick_abi_lines-met}
use bottle.Pick.Verdicts.{AreVerdicts}
use bottle.Pick.{Failure, Project, Verdict, judge, pick_version_for_all}
use bottle.Pick.Rank.{answer, pick_version_for_all-answer}
use bottle.Pick.Sound.{IsPublished, pick_version_for_all_sound}
use bottle.ProjectName.{IsProjectName, validate_project_name, validate_project_name-exact}
use bottle.Resolve.{World, Resolved, pick_one, resolved, resolve_closure_for}
use bottle.Resolve.Answers.{IsAnswered, pick_one-IsSound, resolve_closure_for-IsAnswered}
use bottle.Tag.{numeric_key, read_tag, select_versions}
use bottle.Tag.Keys.{IsDistinct, counts, select_versions-IsDistinct, select_versions-keys}
use bottle.Tag.Numbers.Keyed.{AreOne}
use bottle.Tag.Sorted.{IsAscending, select_versions-IsAscending}
use bottle.Version.{Ver, parse_ver}
use bottle.VersionString.Slug.{IsPlatformSlug, validate_platform_slug-IsPlatformSlug}
use bottle.Common.{◌≤◌}
use bottle.Common.Lists.{length}
use bottle.VersionString.{
  validate_platform_slug, validate_version_string, IsVersionString, validate_version_string-exact,
}
use mathlib.Core.List.{reverse}
use bottle.Common.{map, ◌&&◌, ◌↔◌, inl, inr, ap, subst, ◌++◌}
use bottle.Common.Tests.{Bool-cases, if◌then◌else◌}

parse_ver_rebuild : (parse_ver (codes " v1.8.2_3")).nums ≡ pos 1 ∷ pos 8 ∷ pos 2 ∷ []
unfolding parse_ver
parse_ver_rebuild = refl

parse_ver_date : (parse_ver (codes "2026_09_25")).rebuild ≡ pos 0
unfolding parse_ver
parse_ver_date = refl

satisfies_range : satisfies (parse_ver (codes "3.11.16")) (codes ">=3<3.12") ≡ true
unfolding satisfies parse_ver
satisfies_range = refl

satisfies_range_excluded : satisfies (parse_ver (codes "3.14.7")) (codes ">=3<3.12") ≡ false
unfolding satisfies parse_ver
satisfies_range_excluded = refl

satisfies_bars : satisfies (parse_ver (codes "18.2")) (codes "^16 || ^18 || ^20") ≡ true
unfolding satisfies parse_ver
satisfies_bars = refl

satisfies_exact : satisfies (parse_ver (codes "1.8.2")) (codes "=1.8.2_1") ≡ false
unfolding satisfies parse_ver
satisfies_exact = refl

-- The witnesses of the properties.
abbrev v_1_2 : Ver
v_1_2 = parse_ver (codes "1.2.0")

abbrev v_2_0 : Ver
v_2_0 = parse_ver (codes "2.0.1")

abbrev range_3 : Alternatives
range_3 = (
  (record { op = ge; text = codes "3" }, record { op = lt; text = codes "3.12" } ∷ []),
  (record { op = caret; text = codes "2.0" }, []) ∷ [],
)

satisfies_unrolled_example :
    satisfies v_1_2 (codes "^1 || ^3") ≡ satisfies_body (satisfies v_1_2) v_1_2 (codes "^1 || ^3")
satisfies_unrolled_example = satisfies_unrolled v_1_2 (codes "^1 || ^3")

satisfies-print_constraint_example :
    satisfies v_2_0 (print_constraint range_3)
    ≡ any (meets_conjunction v_2_0) (range_3.0 ∷ range_3.1)
satisfies-print_constraint_example = satisfies-print_constraint v_2_0 range_3 (
  ((refl, tt), ((refl, ((refl, (refl, (refl, (refl, tt)))))), tt)),
  (((refl, (refl, (refl, tt))), tt), tt),
)

validate_version_string-exact_example :
    (validate_version_string (codes "1.2~rc1") ≡ none) ↔ IsVersionString (codes "1.2~rc1")
validate_version_string-exact_example = validate_version_string-exact (codes "1.2~rc1")

validate_project_name-exact_example :
    (validate_project_name (codes "llvm.org/mingw-w64") ≡ none)
    ↔ IsProjectName (codes "llvm.org/mingw-w64")
validate_project_name-exact_example = validate_project_name-exact (codes "llvm.org/mingw-w64")

abbrev listing : List Bytes
listing =
    codes "1.10.0" ∷ codes "1.2" ∷ codes "latest" ∷ codes "1.2.0" ∷ codes "1.2.0-glibc2.28" ∷ []

select_versions-IsAscending_example : IsAscending (select_versions listing (codes "2.28"))
select_versions-IsAscending_example = select_versions-IsAscending listing (codes "2.28")

select_versions-keys_example :
    (any (λ u. bytes_eq (codes "1.2") (numeric_key u)) (select_versions listing (codes "2.28"))
      ≡ any
          (λ t. counts (codes "2.28") t && bytes_eq (codes "1.2") (numeric_key (read_tag t).0))
          listing)
    × ((numeric_key v_1_2 ≡ numeric_key v_2_0) ↔ AreOne v_1_2 v_2_0)
unfolding parse_ver
select_versions-keys_example =
    select_versions-keys listing (codes "2.28") (codes "1.2") v_1_2 v_2_0
      (refl, (tt, (tt, (tt, tt))), tt) (refl, (tt, (tt, (tt, tt))), tt)

-- Two versions from a flat listing; the newer is on a line at its end of life.
abbrev library : Project
library = record {
  versions = ok (v_1_2 ∷ v_2_0 ∷ [], false);
  dead = codes "2" ∷ [];
  has_platform = λ t. ok true;
}

pick_version_for_all-answer_example :
    (xs : List Verdict) × AreVerdicts library
      (codes ">=1" ∷ [])
      (v_1_2 ∷ v_2_0 ∷ [])
      false
      (reverse (v_1_2 ∷ v_2_0 ∷ []))
      xs
    × (pick_version_for_all library (codes ">=1" ∷ [])
        ≡ answer (codes ">=1" ∷ []) (v_1_2 ∷ v_2_0 ∷ []) xs [] none)
pick_version_for_all-answer_example =
    pick_version_for_all-answer library (codes ">=1" ∷ []) (v_1_2 ∷ v_2_0 ∷ []) false refl

pick_version_for_all_sound_example :
    (satisfies_all v_1_2 (codes ">=1" ∷ []) ≡ true) × IsPublished library false v_1_2
unfolding pick_version_for_all parse_ver
pick_version_for_all_sound_example =
    pick_version_for_all_sound library (codes ">=1" ∷ []) (v_1_2 ∷ v_2_0 ∷ []) false v_1_2 none refl
      refl

-- Recipes: `app` needs both lines of `lib`, one through `tool`.
abbrev recipes : Recipes
recipes p =
    if bytes_eq p (codes "app")
    then ok ((codes "lib", codes "^1") ∷ (codes "tool", codes "*") ∷ [])
    else if bytes_eq p (codes "tool")
    then ok ((codes "lib", codes "^2") ∷ [])
    else ok []

abbrev roots : Deps
roots = (codes "app", codes "*") ∷ []

abbrev app : Bytes
app = codes "app"

abbrev lib : Bytes
lib = codes "lib"

abbrev tool : Bytes
tool = codes "tool"

-- The walk that `collectGraph` returns for `app`.
abbrev app_walk : Walk
app_walk = record {
  constraints = (lib, codes "^1" ∷ codes "^2" ∷ []) ∷ [];
  asked_by = (lib, app ∷ tool ∷ []) ∷ [];
  edges =
      record { of_project = []; on_project = app; constraint = codes "*" }
      ∷ record { of_project = app; on_project = lib; constraint = codes "^1" }
      ∷ record { of_project = app; on_project = tool; constraint = codes "*" }
      ∷ record { of_project = tool; on_project = lib; constraint = codes "^2" }
      ∷ [];
  order = app ∷ lib ∷ tool ∷ [];
}

abbrev everything : List Bytes
everything = app ∷ lib ∷ tool ∷ []

abbrev deps_of : Result Failure Deps → Deps
deps_of (ok deps) = deps
deps_of (err e) = []

recipes_known : (p : Bytes) → AreIn everything (keys (deps_of (recipes p)))
unfolding bytes_eq
recipes_known p = elim (Bool-cases (bytes_eq p app)) [
  | inl is_app ↦ rw is_app (refl, (refl, tt))
  | inr other ↦ elim (Bool-cases (bytes_eq p tool)) [
    | inl is_tool ↦ rw (other, is_tool) (refl, tt)
    | inr neither ↦ rw (other, neither) tt
  ]
]

recipes_closed : IsClosedUnder recipes everything
recipes_closed p deps h e = subst (λ d. AreIn everything (keys d)) (ap deps_of e) (recipes_known p)

collect_graph_enough_example : collect_graph recipes 5 roots ≢ err out_of_fuel
unfolding bytes_eq
collect_graph_enough_example =
    collect_graph_enough recipes everything roots 5 recipes_closed (refl, tt) (omega arith)

collect_graph-IsConsistent_example : IsConsistent app_walk
unfolding collect_graph set
collect_graph-IsConsistent_example = collect_graph-IsConsistent recipes 5 roots app_walk refl

collect_graph-order_example :
    IsOnce app_walk.order
    × AllOf (IsReached app_walk.order) [] roots
    × All (IsRead (IsReached app_walk.order) recipes) app_walk.order
    × All (IsReached app_walk.order) app_walk.edges
unfolding collect_graph set
collect_graph-order_example = collect_graph-order recipes 5 roots app_walk refl

-- Versions of `lib` on both lines, with the sonames that each ships.
abbrev world : World
world = record { recipes = recipes; project = λ p. library; provides = λ p t. t }

abbrev both_lines : List Ver
both_lines = v_2_0 ∷ v_1_2 ∷ []

pick_abi_lines-met_example : met both_lines (codes "^1") ≡ true
unfolding pick_abi_lines pick_version_for_all parse_ver
pick_abi_lines-met_example =
    pick_abi_lines-met (pick_one world lib) (world.provides lib) (codes "^1" ∷ codes "^2" ∷ [])
      both_lines (codes "^1") (pick_one-IsSound world lib) refl refl

abbrev app_closure : List Resolved
app_closure = resolved app (v_1_2 ∷ []) ++ (resolved lib both_lines ++ resolved tool (v_1_2 ∷ []))

resolve_closure_for-IsAnswered_example :
    AllOf (IsAnswered app_closure) [] roots
    × All (IsRead (IsAnswered app_closure) world.recipes) app_walk.order
    × All (IsAnswered app_closure) app_walk.edges
unfolding resolve_closure_for pick_version_for_all parse_ver set pick_abi_lines
resolve_closure_for-IsAnswered_example =
    resolve_closure_for-IsAnswered world 5 roots app_walk app_closure refl refl
