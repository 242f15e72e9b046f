-- ===== src/Pick.antt =====
-- pkgx.go and deprecated.go: which version answers the constraints on a project.
pub mod Verdicts
pub mod Rank
pub mod Sound
use bottle.Common.{
  ℕ, suc, ◌+◌, List, [], ◌∷◌, ◌++◌, ◌||◌, ◌&&◌, not, Bool, true, false, Option, none, some, map,
}
use bottle.Common.Int.{ℤ}
use bottle.Common.Lists.{length, is_empty}
use bottle.Common.Result.{Result, ok, err, ◌>>=◌}
use bottle.Common.Sort.{sort_texts}
use bottle.Common.Tests.{if◌then◌else◌}
use bottle.Common.Text.{Bytes, codes, bytes_eq, cut_prefix, is_digit}
use bottle.Constraint.{satisfies_all}
use bottle.Tag.{tag_spellings}
use bottle.Version.{Ver, same_int}
use mathlib.Core.List.{reverse}

-- `deprecatedLine`: the first listed line that the version is on.
unfoldable pub deprecated_line : Bytes → List Bytes → Option Bytes
unfolding cut_prefix
deprecated_line raw [] = none
deprecated_line raw (l ∷ lines) =
    let later = deprecated_line raw lines in
    if is_empty l then later else elim (cut_prefix l raw) [
      | none ↦ later
      | some [] ↦ some l
      | some (c ∷ _) ↦ if is_digit c then later else some l
    ]

-- The loop of `variantSiblings`.
siblings : List Ver → Ver → List Bytes
unfolding bytes_eq
siblings [] v = []
siblings (o ∷ os) v =
    let rest = siblings os v in
    if bytes_eq o.variant v.variant
      || not (bytes_eq o.raw v.raw)
      || not (same_int o.rebuild v.rebuild)
    then rest
    else (if is_empty o.variant then codes "(no variant)" else o.variant) ∷ rest

-- `variantSiblings`.
unfoldable pub variant_siblings : List Ver → Ver → List Bytes
unfolding siblings sort_texts
variant_siblings vs v = sort_texts (siblings vs v)

-- An error of the network or of the registry.
abbrev pub Failure : Type 0
Failure = Bytes

-- The loop of `publishedTagFor` over the spellings; `has` is `HasPlatform` on the project.
unfoldable pub first_published :
    (Bytes → Result Failure Bool) → List Bytes → Result Failure (Option Bytes)
first_published has [] = ok none
first_published has (t ∷ ts) =
    let later = first_published has ts in
    elim (has t) [ err e ↦ err e | ok true ↦ ok (some t) | ok false ↦ later ]

-- `publishedTagFor`.
unfoldable pub published_tag_for :
    (Bytes → Result Failure Bool) → Ver → Result Failure (Option Bytes)
unfolding first_published
published_tag_for has v = first_published has (tag_spellings v)

-- What the resolver asks of the world about one project, on one platform: the versions that
-- `versionsForSourced` lists, with whether they come from the registry; the project's end-of-life
-- lines; and whether a tag carries the platform.
pub record Project : Type 0 where
  pub versions : Result Failure (List Ver × Bool)
  pub dead : List Bytes
  pub has_platform : Bytes → Result Failure Bool

-- The errors of `pickVersionForAll`, with what their messages hold.
pub data PickError : Type 0 where
  failed : Failure → PickError
  ambiguous : (raw : Bytes) (builds : ℕ) (others : List Bytes) → PickError
  no_bottle_here :
      (constraints : List Bytes) (available : List Ver) (absent : List Bytes) → PickError
  no_versions : PickError
  none_satisfies : (constraints : List Bytes) (available : List Ver) → PickError

-- What the loop of `pickVersionForAll` finds out about one version.
pub data Verdict : Type 0 where
  skipped : Verdict
  absent : Bytes → Verdict
  on_dead_line : Ver → Bytes → Verdict
  chosen : Ver → Verdict
  refused : PickError → Verdict

-- The end of a round, for a version that can be installed.
abbrev pub rank : List Bytes → Ver → Verdict
rank dead v = elim (deprecated_line v.raw dead) [
  | some line ↦ on_dead_line v line
  | none ↦ chosen v
]

-- The answer of `publishedTagFor`, as a round takes it.
abbrev pub place : List Bytes → Ver → Result Failure (Option Bytes) → Verdict
place dead v (err e) = refused (failed e)
place dead v (ok none) = absent v.raw
place dead v (ok (some t)) = rank dead (record v { found_tag = t })

-- A version with the siblings that it has: with one of them nothing says which build is meant.
abbrev pub single : Project → Bool → Ver → List Bytes → Verdict
single p from_registry v (s ∷ ss) = refused (ambiguous v.raw (length (s ∷ ss) + 1) (s ∷ ss))
single p from_registry v [] =
    if from_registry then place p.dead v (published_tag_for p.has_platform v) else rank p.dead v

-- One round of the loop.
unfoldable pub judge : Project → List Bytes → List Ver → Bool → Ver → Verdict
judge p constraints vs from_registry v =
    if satisfies_all v constraints
    then single p from_registry v (variant_siblings vs v)
    else skipped

-- The answer, with the end-of-life line that the warning names.
abbrev pub Answer : Type 0
Answer = Result PickError (Ver × Option Bytes)

-- The end of `pickVersionForAll`, behind the loop.
unfoldable pub give_up : List Bytes → List Ver → List Bytes → Option (Ver × Bytes) → Answer
give_up constraints vs missing (some (v, line)) = ok (v, some line)
give_up constraints vs [] none =
    if is_empty constraints then err no_versions else err (none_satisfies constraints vs)
give_up constraints vs (a ∷ rest) none = err (no_bottle_here constraints vs (a ∷ rest))

-- What a verdict does to the variables `absent` and `fallback`; `next` is the rest of the loop.
unfoldable pub go_on :
    Verdict
    → (List Bytes → Option (Ver × Bytes) → Answer)
    → List Bytes
    → Option (Ver × Bytes)
    → Answer
go_on skipped next missing fallback = next missing fallback
go_on (absent raw) next missing fallback = next (missing ++ raw ∷ []) fallback
go_on (on_dead_line w line) next missing none = next missing (some (w, line))
go_on (on_dead_line w line) next missing (some f) = next missing (some f)
go_on (chosen w) next missing fallback = ok (w, none)
go_on (refused e) next missing fallback = err e

module _ (p : Project) (constraints : List Bytes) (vs : List Ver) (from_registry : Bool) where
  -- The loop, from the newest version.
  unfoldable pub pick_loop : List Ver → List Bytes → Option (Ver × Bytes) → Answer
  unfolding give_up go_on
  pick_loop [] = give_up constraints vs
  pick_loop (v ∷ rest) = go_on (judge p constraints vs from_registry v) (pick_loop rest)

-- `pickVersionForAll`.
unfoldable pub pick_version_for_all : Project → List Bytes → Answer
unfolding pick_loop judge satisfies_all variant_siblings published_tag_for tag_spellings
    deprecated_line
pick_version_for_all p constraints = elim p.versions [
  | err e ↦ err (failed e)
  | ok (vs, from_registry) ↦ pick_loop p constraints vs from_registry (reverse vs) [] none
]
