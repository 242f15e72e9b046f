-- ===== src/Pick/Verdicts.antt =====
-- What a round of `pickVersionForAll` finds out about one version.
use bottle.Common.{
  ℕ, suc, ◌≤◌, List, [], ◌∷◌, ◌≡◌, ◌⊎◌, inl, inr, refl, sym, subst, ap, ◌∙◌, ◌&&◌, not, Bool, true,
  false, none, some, arith,
}
use bottle.Common.Lists.{keep_if, length}
use bottle.Common.Result.{ok, err, Result-cases}
use bottle.Common.Sort.{length-sort_texts}
use bottle.Common.Tests.{Bool-cases, Option-cases}
use bottle.Common.Text.{Bytes, bytes_eq}
use bottle.Constraint.{satisfies_all}
use bottle.Pick.{
  Project, PickError, failed, ambiguous, no_bottle_here, no_versions, none_satisfies, Verdict,
  skipped, absent, on_dead_line, chosen, refused, judge, single, rank, siblings, variant_siblings,
  published_tag_for, deprecated_line,
}
use bottle.Version.{Ver, same_int}

-- Another build of the same version: the text and the rebuild are the same, the variant is not.
abbrev is_sibling : Ver → Ver → Bool
is_sibling v o =
    bytes_eq o.raw v.raw && same_int o.rebuild v.rebuild && not (bytes_eq o.variant v.variant)

abbrev count_siblings : List Ver → Ver → ℕ
count_siblings vs v = length (keep_if (is_sibling v) vs)

length-siblings : (vs : List Ver) (v : Ver) → length (siblings vs v) ≡ count_siblings vs v
unfolding siblings
length-siblings [] v = refl
length-siblings (o ∷ os) v = ground (arith, length-siblings os v)

length-variant_siblings :
    (vs : List Ver) (v : Ver) → length (variant_siblings vs v) ≡ count_siblings vs v
unfolding variant_siblings
length-variant_siblings vs v = length-sort_texts (siblings vs v) ∙ length-siblings vs v

module _ (p : Project) (constraints : List Bytes) (vs : List Ver) (from_registry : Bool) where
  -- A version that meets the constraints and is the only build of itself in the list.
  abbrev Stands : Ver → Type 0
  Stands v = (satisfies_all v constraints ≡ true) × (count_siblings vs v ≡ 0)

  -- A version as it is installed: under the tag that `publishedTagFor` finds, where the list comes from
  -- the registry.
  abbrev IsPlaced : Ver → Ver → Type 0
  IsPlaced v w =
      ((from_registry ≡ false) × (w ≡ v))
      ⊎ ((from_registry ≡ true)
          × ((t : Bytes) × (published_tag_for p.has_platform v ≡ ok (some t))
              × (w ≡ record v { found_tag = t })))

  abbrev IsRefused : Ver → PickError → Type 0
  IsRefused v (ambiguous raw builds others) =
      (satisfies_all v constraints ≡ true)
      × (raw ≡ v.raw)
      × (builds ≡ suc (count_siblings vs v))
      × (1 ≤ count_siblings vs v)
      × (length others ≡ count_siblings vs v)
  IsRefused v (failed e) =
      Stands v × (from_registry ≡ true) × (published_tag_for p.has_platform v ≡ err e)
  IsRefused v (no_bottle_here cs us missing) = ⊥
  IsRefused v no_versions = ⊥
  IsRefused v (none_satisfies cs us) = ⊥

  -- What each verdict says of the version.
  abbrev IsVerdict : Ver → Verdict → Type 0
  IsVerdict v skipped = satisfies_all v constraints ≡ false
  IsVerdict v (refused e) = IsRefused v e
  IsVerdict v (absent raw) =
      Stands v
      × (from_registry ≡ true)
      × (raw ≡ v.raw)
      × (published_tag_for p.has_platform v ≡ ok none)
  IsVerdict v (on_dead_line w line) =
      Stands v × IsPlaced v w × (deprecated_line v.raw p.dead ≡ some line)
  IsVerdict v (chosen w) = Stands v × IsPlaced v w × (deprecated_line v.raw p.dead ≡ none)

  rank-IsVerdict :
      (v w : Ver)
      → Stands v
      → IsPlaced v w
      → deprecated_line w.raw p.dead ≡ deprecated_line v.raw p.dead
      → IsVerdict v (rank p.dead w)
  rank-IsVerdict v w stands placed same = elim (Option-cases (deprecated_line w.raw p.dead)) [
    | inl alive ↦
        let here : rank p.dead w ≡ chosen w = ground arith in
        subst (IsVerdict v) (sym here) (stands, placed, sym same ∙ alive)
    | inr (line, dead) ↦
        let here : rank p.dead w ≡ on_dead_line w line = ground arith in
        subst (IsVerdict v) (sym here) (stands, placed, sym same ∙ dead)
  ]

  single-alone :
      (v : Ver) → variant_siblings vs v ≡ [] → Stands v → IsVerdict v (single p from_registry v [])
  single-alone v alone stands = elim (Bool-cases from_registry) [
    | inr other ↦
        let here : single p from_registry v [] ≡ rank p.dead v = ground arith in
        subst (IsVerdict v) (sym here) (rank-IsVerdict v v stands (inl (other, refl)) refl)
    | inl listed ↦ elim (Result-cases (published_tag_for p.has_platform v)) [
      | inr (e, bad) ↦
          let here : single p from_registry v [] ≡ refused (failed e) = ground arith in
          subst (IsVerdict v) (sym here) (stands, listed, bad)
      | inl (found, good) ↦ elim (Option-cases found) [
        | inl missing ↦
            let here : single p from_registry v [] ≡ absent v.raw = ground arith in
            subst (IsVerdict v) (sym here) (stands, listed, refl, good ∙ ap ok missing)
        | inr (t, tagged) ↦
            let here : single p from_registry v [] ≡ rank p.dead (record v { found_tag = t }) =
              ground arith in
            subst (IsVerdict v) (sym here) (
              rank-IsVerdict v (record v { found_tag = t }) stands
                (inr (listed, (t, good ∙ ap ok tagged, refl))) refl)
      ]
    ]
  ]

  single-IsVerdict :
      (v : Ver) (others : List Bytes)
      → satisfies_all v constraints ≡ true
      → variant_siblings vs v ≡ others
      → IsVerdict v (single p from_registry v others)
  single-IsVerdict v [] meets none_else =
      single-alone v none_else (meets, sym (length-variant_siblings vs v) ∙ ap length none_else)
  single-IsVerdict v (s ∷ ss) meets found =
      let many : count_siblings vs v ≡ suc (length ss) =
        sym (length-variant_siblings vs v) ∙ ap length found in
      (meets, refl, omega arith, omega arith, sym many)

  pub judge-IsVerdict : (v : Ver) → IsVerdict v (judge p constraints vs from_registry v)
  unfolding judge
  judge-IsVerdict v = elim (Bool-cases (satisfies_all v constraints)) [
    | inr unmet ↦
        let here : judge p constraints vs from_registry v ≡ skipped = ground arith in
        subst (IsVerdict v) (sym here) unmet
    | inl meets ↦
        let here : judge p constraints vs from_registry v
            ≡ single p from_registry v (variant_siblings vs v) =
          ground arith in
        subst (IsVerdict v) (sym here) (single-IsVerdict v (variant_siblings vs v) meets refl)
  ]

  -- One verdict for each version of a list, each of them right.
  abbrev pub AreVerdicts : List Ver → List Verdict → Type 0
  AreVerdicts [] [] = Unit
  AreVerdicts [] (x ∷ xs) = ⊥
  AreVerdicts (u ∷ us) [] = ⊥
  AreVerdicts (u ∷ us) (x ∷ xs) = IsVerdict u x × AreVerdicts us xs
