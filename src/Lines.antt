-- ===== src/Lines.antt =====
-- abilines.go: several versions of one project, where the demands on it do not intersect and the
-- versions ship disjoint sonames.
pub mod Cover
use Prim.Native.Nat.{Ordering}
use bottle.Common.{
  ℕ, zero, suc, ◌+◌, List, [], ◌∷◌, ◌++◌, ◌||◌, Bool, true, false, Option, none, some, map,
}
use bottle.Common.Dict.{mem_bytes, get_or}
use bottle.Common.Lists.{length, is_empty}
use bottle.Common.Result.{Result, ok, err, ◌>>=◌}
use bottle.Common.Tests.{ltb, if◌then◌else◌}
use bottle.Common.Text.{Bytes, codes, bytes_eq, split_byte, trim_space}
use bottle.Pick.{PickError}
use bottle.Version.{Ver, tag, cmp_ver}

-- The errors of `pickABILines` and of what it calls.
pub data LinesError : Type 0 where
  one_demand not_separable : LinesError
  pick_failed : PickError → LinesError
  both_ship : (holder raw soname : Bytes) → LinesError
  ships_nothing : (raw : Bytes) → LinesError

-- `pickOne` on one project and platform.
abbrev pub PickOne : Type 0
PickOne = List Bytes → Result PickError Ver

-- The inner loop of `partitionConstraints`: the first group that still resolves with the demand.
unfoldable pub place_demand : PickOne → Bytes → List (List Bytes) → Option (List (List Bytes))
place_demand pick c [] = none
place_demand pick c (g ∷ gs) =
    let later = place_demand pick c gs in
    elim (pick (g ++ c ∷ [])) [
      | ok v ↦ some ((g ++ c ∷ []) ∷ gs)
      | err e ↦ elim later [ none ↦ none | some hs ↦ some (g ∷ hs) ]
    ]

-- The outer loop; a demand that nothing satisfies by itself gives the nil result.
unfoldable pub partition_from : PickOne → List (List Bytes) → List Bytes → List (List Bytes)
unfolding place_demand
partition_from pick groups [] = groups
partition_from pick groups (c ∷ cs) = elim (place_demand pick c groups) [
  | some placed ↦ partition_from pick placed cs
  | none ↦ elim (pick (c ∷ [])) [
    | err e ↦ []
    | ok v ↦ partition_from pick (groups ++ (c ∷ []) ∷ []) cs
  ]
]

-- `partitionConstraints`.
unfoldable pub partition_constraints : PickOne → List Bytes → List (List Bytes)
unfolding partition_from
partition_constraints pick constraints = partition_from pick [] constraints

-- The map `owner`, from a soname to the version that ships it.
abbrev pub Owners : Type 0
Owners = List (Bytes × Bytes)

unfoldable pub owner_of : Bytes → Owners → Option Bytes
unfolding bytes_eq
owner_of s [] = none
owner_of s ((t, raw) ∷ m) = if bytes_eq s t then some raw else owner_of s m

-- The loop over the entries of one version; the flag is `any`.
unfoldable pub claim_sonames :
    Bytes → Owners → Bool → List Bytes → Result LinesError (Owners × Bool)
unfolding owner_of trim_space
claim_sonames raw owner found [] = ok (owner, found)
claim_sonames raw owner found (entry ∷ entries) =
    let s = trim_space entry in
    elim (is_empty s) [
      | true ↦ claim_sonames raw owner found entries
      | false ↦ elim (owner_of s owner) [
        | some prev ↦ err (both_ship prev raw s)
        | none ↦ claim_sonames raw ((s, raw) ∷ owner) true entries
      ]
    ]

-- The loop of `sonamesDisjoint`; `provides` reads the annotation that lists a tag's sonames.
unfoldable pub disjoint_from : (Bytes → Bytes) → Owners → List Ver → Result LinesError (Unit {0})
unfolding claim_sonames split_byte tag
disjoint_from provides owner [] = ok tt
disjoint_from provides owner (v ∷ vs) =
    elim (claim_sonames v.raw owner false (split_byte b',' (provides (tag v)))) [
      | err e ↦ err e
      | ok (owner', false) ↦ err (ships_nothing v.raw)
      | ok (owner', true) ↦ disjoint_from provides owner' vs
    ]

-- `sonamesDisjoint`.
unfoldable pub sonames_disjoint : (Bytes → Bytes) → List Ver → Result LinesError (Unit {0})
unfolding disjoint_from
sonames_disjoint provides vers = disjoint_from provides [] vers

-- `sort.Slice` by `cmpVer(vers[i], vers[j]) > 0`, as an insertion sort.
insert_newest : Ver → List Ver → List Ver
unfolding cmp_ver
insert_newest v [] = v ∷ []
insert_newest v (w ∷ ws) =
    let rest = insert_newest v ws in elim (cmp_ver v w) [ Ordering.lt ↦ w ∷ rest | _ ↦ v ∷ w ∷ ws ]

unfoldable pub newest_first : List Ver → List Ver
unfolding insert_newest
newest_first [] = []
newest_first (v ∷ vs) = insert_newest v (newest_first vs)

-- One version for each group.
unfoldable pub pick_groups : PickOne → List (List Bytes) → Result LinesError (List Ver)
pick_groups pick [] = ok []
pick_groups pick (g ∷ gs) = elim (pick g) [
  | err e ↦ err (pick_failed e)
  | ok v ↦ elim (pick_groups pick gs) [ err e ↦ err e | ok vs ↦ ok (v ∷ vs) ]
]

-- `pickABILines`.
unfoldable pub pick_abi_lines :
    PickOne → (Bytes → Bytes) → List Bytes → Result LinesError (List Ver)
unfolding partition_constraints pick_groups sonames_disjoint newest_first
pick_abi_lines pick provides constraints =
    if ltb (length constraints) 2
    then err one_demand
    else (let groups = partition_constraints pick constraints in
        if ltb (length groups) 2 then err not_separable else elim (pick_groups pick groups) [
          | err e ↦ err e
          | ok vers ↦ elim (sonames_disjoint provides vers) [
            | err e ↦ err e
            | ok _ ↦ ok (newest_first vers)
          ]
        ])
