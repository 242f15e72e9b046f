-- ===== src/BuildOrder.antt =====
-- buildorder.go: the keys by which the builds of a version are sorted, and which of two was made against
-- the later closure.
pub mod Asymmetric
use Prim.Native.Nat.{Ordering, compare}
use bottle.Common.{ℕ, ◌+◌, List, [], ◌∷◌, ◌&&◌, ◌||◌, Bool, true, false, Option, none, some}
use bottle.Builds.{Build, hash_of_build}
use bottle.Builds.Withdrawn.{Withdrawal, is_withdrawn}
use bottle.Common.Dict.{get_or, set}
use bottle.Common.Order.{or_else}
use bottle.Common.Order.Keys.{cmp_bool}
use bottle.Common.SortBy.{sort_by}
use bottle.Common.Tests.{ltb, ◌==◌, if◌then◌else◌}
use bottle.Common.Text.{Bytes, codes, bytes_eq, cmp_bytes}
use bottle.Concrete.{Dep, Concrete, is_zero_spec}
use bottle.Version.{parse_ver, cmp_ver}

-- The variables `shared` and `better`; `none` is the early return of false.
abbrev pub Score : Type 0
Score = Option (ℕ × Bool)

-- The `switch` of the inner loop, with the comparison of the two versions.
abbrev pub weigh : Ordering → ℕ × Bool → Score
weigh Ordering.lt (shared, better) = none
weigh Ordering.gt (shared, better) = some (shared + 1, true)
weigh Ordering.eq (shared, better) = some (shared + 1, better)

abbrev pub cmp_version : Dep → Dep → Ordering
cmp_version a b = cmp_ver (parse_ver a.version) (parse_ver b.version)

-- The inner loop.
unfoldable pub scan_inner : Dep → List Dep → ℕ × Bool → Score
unfolding bytes_eq cmp_ver parse_ver
scan_inner a [] s = some s
scan_inner a (b ∷ bs) s = elim (bytes_eq a.project b.project) [
  | true ↦ elim (weigh (cmp_version a b) s) [ none ↦ none | some s' ↦ scan_inner a bs s' ]
  | false ↦ scan_inner a bs s
]

-- The outer loop.
unfoldable pub scan_outer : List Dep → List Dep → ℕ × Bool → Score
unfolding scan_inner
scan_outer [] bs s = some s
scan_outer (a ∷ ds) bs s = elim (scan_inner a bs s) [ none ↦ none | some s' ↦ scan_outer ds bs s' ]

abbrev pub is_later_score : Score → Bool
is_later_score none = false
is_later_score (some (shared, better)) = ltb 0 shared && better

-- `closureIsLater`.
unfoldable pub closure_is_later : Concrete → Concrete → Bool
unfolding scan_outer
closure_is_later a b =
    if is_zero_spec a || is_zero_spec b
    then false
    else is_later_score (scan_outer a.deps b.deps (0, false))

-- The keys of `BuildOrder`.
pub data BuildOrder : Type 0 where
  by_status by_hash by_installed by_closure : BuildOrder

-- `ParseBuildOrder`: `none` is the error that names the keys.
unfoldable pub parse_build_order : Bytes → Option BuildOrder
unfolding bytes_eq
parse_build_order s =
    if bytes_eq s (codes "status")
    then some by_status
    else if bytes_eq s (codes "closure")
    then some by_closure
    else if bytes_eq s (codes "hash")
    then some by_hash
    else if bytes_eq s (codes "installed")
    then some by_installed
    else none

-- The inner loop of `closureRank`: how many of the others are later.
unfoldable pub count_later : Build → List Build → ℕ
unfolding bytes_eq closure_is_later
count_later a [] = 0
count_later a (b ∷ bs) =
    let rest = count_later a bs in
    if bytes_eq (hash_of_build a) (hash_of_build b)
    then rest
    else if closure_is_later b.spec a.spec
    then rest + 1
    else rest

-- The outer loop.
unfoldable pub rank_builds : List Build → List Build → List (Bytes × ℕ) → List (Bytes × ℕ)
unfolding count_later set
rank_builds builds [] rank = rank
rank_builds builds (a ∷ more) rank =
    rank_builds builds more (set (hash_of_build a) (count_later a builds) rank)

-- `closureRank`.
unfoldable pub closure_rank : List Build → List (Bytes × ℕ)
unfolding rank_builds
closure_rank builds = rank_builds builds builds []

-- `InstalledAt`: not installed comes last, and of two times the later comes first.
abbrev pub cmp_installed : ℕ → ℕ → Ordering
cmp_installed a b =
    if a == b
    then Ordering.eq
    else if a == 0
    then Ordering.gt
    else if b == 0
    then Ordering.lt
    else compare b a

-- The test of `SortBuilds` as a comparison: the key, and where it ties, the hash. `rank` is 0 of a
-- hash that is not there, as in Go.
unfoldable pub cmp_builds :
    List (Bytes × ℕ) → List Withdrawal → BuildOrder → Build → Build → Ordering
unfolding cmp_bytes get_or
cmp_builds rank withdrawn by_closure a b =
    or_else (compare (get_or (hash_of_build a) rank 0) (get_or (hash_of_build b) rank 0))
      (cmp_bytes (hash_of_build a) (hash_of_build b))
cmp_builds rank withdrawn by_installed a b =
    or_else (cmp_installed a.installed_at b.installed_at)
      (cmp_bytes (hash_of_build a) (hash_of_build b))
cmp_builds rank withdrawn by_status a b =
    or_else (cmp_bool (is_withdrawn withdrawn a) (is_withdrawn withdrawn b))
      (cmp_bytes (hash_of_build a) (hash_of_build b))
cmp_builds rank withdrawn by_hash a b = cmp_bytes (hash_of_build a) (hash_of_build b)

-- `SortBuilds`.
unfoldable pub sort_builds : List Withdrawal → List Build → BuildOrder → List Build
unfolding sort_by cmp_builds closure_rank
sort_builds withdrawn builds by_closure =
    sort_by (cmp_builds (closure_rank builds) withdrawn by_closure) builds
sort_builds withdrawn builds by = sort_by (cmp_builds [] withdrawn by) builds
