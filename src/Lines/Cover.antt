-- ===== src/Lines/Cover.antt =====
-- Every demand that `pickABILines` was given is met by one of the versions that it returns.
use bottle.Common.{
  List, [], ◌∷◌, ◌++◌, ◌≡◌, ◌∙◌, ◌⊎◌, inl, inr, refl, ap, Bool, true, false, ◌||◌, none, some,
  arith,
}
use bottle.Common.Dict.{mem-append, mem_bytes}
use bottle.Common.Lists.{length, any}
use bottle.Common.Result.{ok, err, Result-cases}
use bottle.Common.Tests.{Option-cases, ltb}
use bottle.Common.Text.{Bytes, bytes_eq, bytes_eq→eq}
use bottle.Constraint.{satisfies, satisfies_all}
use bottle.Lines.{
  PickOne, place_demand, partition_from, partition_constraints, pick_groups, sonames_disjoint,
  insert_newest, newest_first, pick_abi_lines,
}
use bottle.Pick.{PickError}
use bottle.Version.{Ver}

-- A demand stands in some group.
abbrev grouped : Bytes → List (List Bytes) → Bool
grouped c gs = any (mem_bytes c) gs

place_demand-grouped :
    (pick : PickOne) (c d : Bytes) (gs hs : List (List Bytes))
    → place_demand pick c gs ≡ some hs
    → grouped d hs ≡ (bytes_eq d c || grouped d gs)
unfolding place_demand
place_demand-grouped pick c d [] hs e = cc
place_demand-grouped pick c d (g ∷ gs) hs e = elim (Option-cases (place_demand pick c gs)) [
  | inl nowhere ↦ ground (arith, mem-append d g (c ∷ []))
  | inr (ks, found) ↦
      ground (arith, mem-append d g (c ∷ []), place_demand-grouped pick c d gs ks found)
]

any-append :
    (p : List Bytes → Bool) (gs : List (List Bytes)) (g : List Bytes)
    → any p (gs ++ g ∷ []) ≡ (any p gs || p g)
any-append p [] g = ground arith
any-append p (h ∷ gs) g = ground (arith, any-append p gs g)

module _ (pick : PickOne) (groups : List (List Bytes)) (c : Bytes) (cs : List Bytes) where
  partition_placed :
      (placed : List (List Bytes))
      → place_demand pick c groups ≡ some placed
      → partition_from pick groups (c ∷ cs) ≡ partition_from pick placed cs
  unfolding partition_from
  partition_placed placed e = ground arith

  partition_apart :
      (v : Ver)
      → place_demand pick c groups ≡ none
      → pick (c ∷ []) ≡ ok v
      → partition_from pick groups (c ∷ cs) ≡ partition_from pick (groups ++ (c ∷ []) ∷ []) cs
  unfolding partition_from
  partition_apart v e k = ground arith

  partition_dead :
      (f : PickError)
      → place_demand pick c groups ≡ none
      → pick (c ∷ []) ≡ err f
      → partition_from pick groups (c ∷ cs) ≡ []
  unfolding partition_from
  partition_dead f e k = ground arith

-- The partition is empty, or it holds every demand.
partition_from-grouped :
    (pick : PickOne) (d : Bytes) (groups : List (List Bytes)) (cs : List Bytes)
    → (grouped d groups || mem_bytes d cs) ≡ true
    → (partition_from pick groups cs ≡ []) ⊎ (grouped d (partition_from pick groups cs) ≡ true)
partition_from-grouped pick d groups [] h = unfold partition_from in (inr (ground arith))
partition_from-grouped pick d groups (c ∷ cs) h = elim (Option-cases (place_demand pick c groups)) [
  | inr (placed, e) ↦ rw (partition_placed pick groups c cs placed e) (
      partition_from-grouped pick d placed cs
        (ground (arith, place_demand-grouped pick c d groups placed e)))
  | inl e ↦ elim (Result-cases (pick (c ∷ []))) [
    | inl (v, k) ↦ rw (partition_apart pick groups c cs v e k) (
        partition_from-grouped pick d (groups ++ (c ∷ []) ∷ []) cs
          (ground (arith, any-append (mem_bytes d) groups (c ∷ []))))
    | inr (f, k) ↦ inl (partition_dead pick groups c cs f e k)
  ]
]

-- What is asked of `pickOne`: a version that it returns meets the demands.
abbrev pub IsSound : PickOne → Type 0
IsSound pick = (g : List Bytes) (v : Ver) → pick g ≡ ok v → satisfies_all v g ≡ true

abbrev pub met : List Ver → Bytes → Bool
met vers d = any (λ v. satisfies v d) vers

pub satisfies_all-mem :
    (v : Ver) (g : List Bytes) (d : Bytes)
    → satisfies_all v g ≡ true
    → mem_bytes d g ≡ true
    → satisfies v d ≡ true
unfolding satisfies_all
satisfies_all-mem v [] d h k = cc
satisfies_all-mem v (c ∷ g) d h k = ground (arith, satisfies_all-mem v g d, bytes_eq→eq d c)

pick_groups_cons :
    (pick : PickOne) (g : List Bytes) (gs : List (List Bytes)) (vers : List Ver)
    → pick_groups pick (g ∷ gs) ≡ ok vers
    → (v : Ver) × (vs : List Ver) × (pick g ≡ ok v)
      × (pick_groups pick gs ≡ ok vs)
      × (vers ≡ v ∷ vs)
unfolding pick_groups
pick_groups_cons pick g gs vers e = elim (Result-cases (pick g)) [
  | inr (f, k) ↦ absurd (ground arith)
  | inl (v, k) ↦ elim (Result-cases (pick_groups pick gs)) [
    | inr (f, l) ↦ absurd (ground arith)
    | inl (vs, l) ↦ (v, vs, k, l, ground arith)
  ]
]

pick_groups-met :
    (pick : PickOne) (sound : IsSound pick) (gs : List (List Bytes)) (vers : List Ver) (d : Bytes)
    → pick_groups pick gs ≡ ok vers
    → grouped d gs ≡ true
    → met vers d ≡ true
pick_groups-met pick sound [] vers d e h = cc
pick_groups-met pick sound (g ∷ gs) vers d e h =
    let (v, vs, picked, others, joined) = pick_groups_cons pick g gs vers e in
    rw joined (
      ground (
        arith,
        satisfies_all-mem v g d (sound g v picked),
        pick_groups-met pick sound gs vs d others,
      ))

any-insert_newest :
    (q : Ver → Bool) (v : Ver) (vs : List Ver) → any q (insert_newest v vs) ≡ (q v || any q vs)
unfolding insert_newest
any-insert_newest q v [] = refl
any-insert_newest q v (w ∷ ws) = ground (arith, any-insert_newest q v ws)

any-newest_first : (q : Ver → Bool) (vs : List Ver) → any q (newest_first vs) ≡ any q vs
unfolding newest_first
any-newest_first q [] = refl
any-newest_first q (v ∷ vs) =
    any-insert_newest q v (newest_first vs) ∙ ap (λ b. q v || b) (any-newest_first q vs)

-- What has happened when versions come back.
pick_abi_lines_steps :
    (pick : PickOne) (provides : Bytes → Bytes) (constraints : List Bytes) (vers : List Ver)
    → pick_abi_lines pick provides constraints ≡ ok vers
    → (vs : List Ver) × (ltb (length (partition_constraints pick constraints)) 2 ≡ false)
      × (pick_groups pick (partition_constraints pick constraints) ≡ ok vs)
      × (sonames_disjoint provides vs ≡ ok tt)
      × (vers ≡ newest_first vs)
unfolding pick_abi_lines
pick_abi_lines_steps pick provides constraints vers e =
    elim (Result-cases (pick_groups pick (partition_constraints pick constraints))) [
      | inr (f, k) ↦ absurd (ground arith)
      | inl (vs, k) ↦ elim (Result-cases (sonames_disjoint provides vs)) [
        | inr (f, l) ↦ absurd (ground arith)
        | inl (u, l) ↦ (vs, ground arith, k, l, ground arith)
      ]
    ]

partition_start :
    (pick : PickOne) (constraints : List Bytes)
    → partition_constraints pick constraints ≡ partition_from pick [] constraints
unfolding partition_constraints
partition_start pick constraints = refl

-- When the resolver that is asked for each group returns only versions that meet the demands of the
-- group, and `pickABILines` returns versions, each demand that it was given is met by one of them.
pub pick_abi_lines-met :
    (pick : PickOne) (provides : Bytes → Bytes) (constraints : List Bytes) (vers : List Ver)
    (d : Bytes)
    → IsSound pick
    → pick_abi_lines pick provides constraints ≡ ok vers
    → mem_bytes d constraints ≡ true
    → met vers d ≡ true
pick_abi_lines-met pick provides constraints vers d sound e h =
    let (vs, many, picked, apart, sorted) = pick_abi_lines_steps pick provides constraints vers e in
    let found = pick_groups-met pick sound (partition_constraints pick constraints) vs d picked in
    let cover = partition_from-grouped pick d [] constraints h in
    let joined = partition_start pick constraints in
    rw (sorted, any-newest_first (λ v. satisfies v d) vs) (ground arith)
