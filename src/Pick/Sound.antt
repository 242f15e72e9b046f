-- ===== src/Pick/Sound.antt =====
-- What is known of a version that `pickVersionForAll` returns.
use bottle.Common.{
  ℕ, zero, suc, List, [], ◌∷◌, ◌++◌, ◌≡◌, inl, inr, ◌∙◌, refl, sym, ap, subst, ◌+◌, Bool, true,
  false, Option, none, some, arith,
}
use bottle.Common.Lists.{length, all}
use bottle.Common.Result.{Result, ok, err}
use bottle.Common.Text.{Bytes, trim_space, trim_both, is_quote}
use bottle.Constraint.{
  read_operator, Op, ge, meets, satisfies_one, satisfies_body, satisfies_within, satisfies,
  satisfies_all,
}
use bottle.Pick.{
  Failure, Answer, Project, Verdict, place, single, skipped, absent, on_dead_line, chosen, refused,
  rank, variant_siblings, judge, give_up, go_on, pick_loop, pick_version_for_all, first_published,
  published_tag_for,
}
use bottle.Common.Tests.{Bool-cases}
use bottle.Tag.{tag_spellings}
use bottle.Version.{Ver, parse_ver}
use mathlib.Core.List.{reverse}
use mathlib.Core.Path.{fun_ext}

-- A constraint does not look at the tag under which a version was found.
module _ (v : Ver) (t : Bytes) where
  meets-found_tag :
      (op : Op) (base : Ver) → meets op (record v { found_tag = t }) base ≡ meets op v base
  unfolding meets
  meets-found_tag ge base = refl
  meets-found_tag _ base = refl

  satisfies_one-found_tag :
      (c : Bytes) → satisfies_one (record v { found_tag = t }) c ≡ satisfies_one v c
  unfolding satisfies_one
  satisfies_one-found_tag c = meets-found_tag (read_operator c).0 (parse_ver (read_operator c).1)

  satisfies_body-found_tag :
      (again : Bytes → Bool) (text : Bytes)
      → satisfies_body again (record v { found_tag = t }) text ≡ satisfies_body again v text
  unfolding satisfies_body
  satisfies_body-found_tag again text =
      rw (satisfies_one-found_tag (trim_space (trim_both is_quote text)))

  satisfies_within-found_tag :
      (fuel : ℕ) → satisfies_within fuel (record v { found_tag = t }) ≡ satisfies_within fuel v
  unfolding satisfies_within
  satisfies_within-found_tag zero = refl
  satisfies_within-found_tag (suc fuel) = fun_ext λ text.
      satisfies_body-found_tag (satisfies_within fuel (record v { found_tag = t })) text
      ∙ ap (λ again. satisfies_body again v text) (satisfies_within-found_tag fuel)

  satisfies-found_tag : satisfies (record v { found_tag = t }) ≡ satisfies v
  unfolding satisfies
  satisfies-found_tag =
      fun_ext
        λ text. ap (λ (f : Bytes → Bool). f text) (satisfies_within-found_tag (length text + 1))

  satisfies_all-found_tag :
      (constraints : List Bytes)
      → satisfies_all (record v { found_tag = t }) constraints ≡ satisfies_all v constraints
  unfolding satisfies_all
  satisfies_all-found_tag constraints = ap (λ f. all f constraints) satisfies-found_tag

first_published_sound :
    (has : Bytes → Result Failure Bool) (ts : List Bytes) (t : Bytes)
    → first_published has ts ≡ ok (some t)
    → has t ≡ ok true
unfolding first_published
first_published_sound has [] t h = cc
first_published_sound has (u ∷ us) t h = ground (arith, first_published_sound has us t)

-- The version meets the constraints, and a tag of the registry holds it for the platform.
abbrev pub IsAnswer : Project → List Bytes → Bool → Ver → Type 0
IsAnswer p constraints from_registry v =
    (satisfies_all v constraints ≡ true)
    × (from_registry ≡ true → p.has_platform v.found_tag ≡ ok true)

abbrev Proposes : Project → List Bytes → Bool → Verdict → Type 0
Proposes p cs reg (chosen v) = IsAnswer p cs reg v
Proposes p cs reg (on_dead_line v line) = IsAnswer p cs reg v
Proposes p cs reg skipped = Unit
Proposes p cs reg (absent raw) = Unit
Proposes p cs reg (refused e) = Unit

abbrev Gives : Project → List Bytes → Bool → Answer → Type 0
Gives p cs reg (ok (v, line)) = IsAnswer p cs reg v
Gives p cs reg (err e) = Unit

abbrev Falls : Project → List Bytes → Bool → Option (Ver × Bytes) → Type 0
Falls p cs reg none = Unit
Falls p cs reg (some (v, line)) = IsAnswer p cs reg v

module _ (p : Project) (constraints : List Bytes) (from_registry : Bool) where
  rank-Proposes :
      (v : Ver)
      → IsAnswer p constraints from_registry v
      → Proposes p constraints from_registry (rank p.dead v)
  rank-Proposes v h = ground arith

  place-Proposes :
      (v : Ver) (r : Result Failure (Option Bytes))
      → r ≡ published_tag_for p.has_platform v
      → satisfies_all v constraints ≡ true
      → Proposes p constraints from_registry (place p.dead v r)
  unfolding published_tag_for
  place-Proposes v (err e) found meets_all = tt
  place-Proposes v (ok none) found meets_all = tt
  place-Proposes v (ok (some t)) found meets_all =
      rank-Proposes (record v { found_tag = t })
        (
          satisfies_all-found_tag v t constraints ∙ meets_all,
          λ _. first_published_sound p.has_platform (tag_spellings v) t (sym found),
        )

single-Proposes :
    (p : Project) (constraints : List Bytes) (from_registry : Bool) (v : Ver) (others : List Bytes)
    → satisfies_all v constraints ≡ true
    → Proposes p constraints from_registry (single p from_registry v others)
single-Proposes p constraints from_registry v (s ∷ ss) meets_all = tt
single-Proposes p constraints true v [] meets_all =
    place-Proposes p constraints true v (published_tag_for p.has_platform v) refl meets_all
single-Proposes p constraints false v [] meets_all =
    rank-Proposes p constraints false v (meets_all, λ e. cc)

picked :
    (p : Project) (constraints : List Bytes) (vs : List Ver) (from_registry : Bool)
    → p.versions ≡ ok (vs, from_registry)
    → pick_version_for_all p constraints
      ≡ pick_loop p constraints vs from_registry (reverse vs) [] none
unfolding pick_version_for_all
picked p constraints vs from_registry listed = rw listed

module _ (p : Project) (constraints : List Bytes) (vs : List Ver) (from_registry : Bool) where
  judge-Proposes :
      (v : Ver) → Proposes p constraints from_registry (judge p constraints vs from_registry v)
  unfolding judge
  judge-Proposes v = elim (Bool-cases (satisfies_all v constraints)) [
    | inl meets_all ↦
        rw meets_all
          (single-Proposes p constraints from_registry v (variant_siblings vs v) meets_all)
    | inr misses ↦ rw misses tt
  ]

  give_up-Gives :
      (missing : List Bytes) (fallback : Option (Ver × Bytes))
      → Falls p constraints from_registry fallback
      → Gives p constraints from_registry (give_up constraints vs missing fallback)
  unfolding give_up
  give_up-Gives missing (some (v, line)) h = h
  give_up-Gives [] none h = ground arith
  give_up-Gives (a ∷ rest) none h = tt

  go_on-Gives :
      (x : Verdict) (next : List Bytes → Option (Ver × Bytes) → Answer)
      → Proposes p constraints from_registry x
      → ((missing : List Bytes) (fallback : Option (Ver × Bytes))
          → Falls p constraints from_registry fallback
          → Gives p constraints from_registry (next missing fallback))
      → (missing : List Bytes) (fallback : Option (Ver × Bytes))
      → Falls p constraints from_registry fallback
      → Gives p constraints from_registry (go_on x next missing fallback)
  unfolding go_on
  go_on-Gives skipped next h later missing fallback k = later missing fallback k
  go_on-Gives (absent raw) next h later missing fallback k = later (missing ++ raw ∷ []) fallback k
  go_on-Gives (on_dead_line w line) next h later missing none k = later missing (some (w, line)) h
  go_on-Gives (on_dead_line w line) next h later missing (some f) k = later missing (some f) k
  go_on-Gives (chosen w) next h later missing fallback k = h
  go_on-Gives (refused e) next h later missing fallback k = tt

  pick_loop-Gives :
      (rest : List Ver) (missing : List Bytes) (fallback : Option (Ver × Bytes))
      → Falls p constraints from_registry fallback
      → Gives p constraints from_registry
          (pick_loop p constraints vs from_registry rest missing fallback)
  unfolding pick_loop
  pick_loop-Gives [] = give_up-Gives
  pick_loop-Gives (v ∷ rest) =
      go_on-Gives (judge p constraints vs from_registry v)
        (pick_loop p constraints vs from_registry rest) (judge-Proposes v) (pick_loop-Gives rest)

pick_good :
    (p : Project) (constraints : List Bytes) (vs : List Ver) (from_registry : Bool) (v : Ver)
    → (line : Option Bytes) → p.versions ≡ ok (vs, from_registry)
    → pick_version_for_all p constraints ≡ ok (v, line)
    → Gives p constraints from_registry (ok (v, line))
pick_good p constraints vs from_registry v line listed e =
    subst (Gives p constraints from_registry)
      (sym (picked p constraints vs from_registry listed) ∙ e)
      (pick_loop-Gives p constraints vs from_registry (reverse vs) [] none tt)

-- The registry says that the version's tag carries the platform; a flat listing is not asked.
abbrev pub IsPublished : Project → Bool → Ver → Type 0
IsPublished p true v = p.has_platform v.found_tag ≡ ok true
IsPublished p false v = Unit

-- A version that `pickVersionForAll` returns, with or without the warning, meets every constraint,
-- and if the listing came from the registry, its tag carries the platform there.
pub pick_version_for_all_sound :
    (p : Project) (constraints : List Bytes) (vs : List Ver) (from_registry : Bool) (v : Ver)
    → (line : Option Bytes) → p.versions ≡ ok (vs, from_registry)
    → pick_version_for_all p constraints ≡ ok (v, line)
    → (satisfies_all v constraints ≡ true) × IsPublished p from_registry v
pick_version_for_all_sound p constraints vs true v line listed e =
    let (met, published) = pick_good p constraints vs true v line listed e in (met, published refl)
pick_version_for_all_sound p constraints vs false v line listed e =
    ((pick_good p constraints vs false v line listed e).0, tt)
