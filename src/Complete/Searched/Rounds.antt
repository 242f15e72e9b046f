-- ===== src/Complete/Searched/Rounds.antt =====
-- closure.go: every soname that the last round of a completion meets is accounted for.
use bottle.Common.{
  ℕ, zero, suc, List, [], ◌∷◌, ◌++◌, ◌≡◌, inl, inr, refl, sym, subst, true, false, arith, not, map,
}
use bottle.Common.Dict.{mem_bytes}
use bottle.Common.Lists.{All, is_empty, keep_if}
use bottle.Common.Result.{Result, ok, err, Result-cases}
use bottle.Common.Tests.{Bool-cases}
use bottle.Common.Text.{Bytes}
use bottle.Resolve.{Resolved}
use bottle.Sonames.{implicit_roots}
use bottle.Complete.{Means, CompleteError, unresolved, not_installed, Progress, prefixes_of}
use bottle.Complete.Elf.{
  add_implicit, complete_implicit, add_providers, complete_round, complete_rounds, complete_elf,
}
use bottle.Complete.Accounted.{IsNoted, IsNoted-start, IsNoted-grows}
use bottle.Complete.Kept.{complete_round-AddsOk, AddsOk}
use bottle.Complete.Runs.{Grows, Grows-stay, Grows-trans}
use bottle.Complete.Searched.{IsLeft, Provides, IsMet, add_providers-Meets}

module _ {S : Type 0} (m : Means S) where
  abbrev StaysNoted : S × Result CompleteError Progress → Type 0
  StaysNoted (t, ok q) = IsNoted (IsLeft m) (Provides m) q
  StaysNoted (t, err e) = Unit

  add_implicit-StaysNoted :
      (rs : List Resolved) (p : Progress) (s : S)
      → IsNoted (IsLeft m) (Provides m) p
      → StaysNoted (add_implicit m rs p s)
  add_implicit-StaysNoted [] p s noted = unfold add_implicit in noted
  add_implicit-StaysNoted (r ∷ rs) p s noted =
      let whole = add_implicit m (r ∷ rs) p s in
      let s1 = (m.install r s).0 in
      let p1 : Progress = record p {
        closure = p.closure ++ r ∷ [];
        have = r.project ∷ p.have;
        changed = true;
      } in
      elim (Bool-cases (mem_bytes r.project p.have)) [
        | inl there ↦
            let same : whole ≡ add_implicit m rs p s = unfold add_implicit in (ground arith) in
            subst StaysNoted (sym same) (add_implicit-StaysNoted rs p s noted)
        | inr absent ↦ elim (Result-cases (m.install r s).1) [
          | inr (e, failed) ↦
              let same : whole ≡ (s1, err (not_installed e)) =
                unfold add_implicit in (ground arith) in
              subst StaysNoted (sym same) tt
          | inl (fresh, done) ↦
              let same : whole ≡ add_implicit m rs p1 s1 = unfold add_implicit in (ground arith) in
              subst StaysNoted (sym same) (
                add_implicit-StaysNoted rs p1 s1
                  (IsNoted-grows (IsLeft m) (Provides m) p p1 (r ∷ []) refl refl refl noted))
        ]
      ]

  complete_implicit-StaysNoted :
      (needed : List Bytes) (p : Progress) (s : S)
      → IsNoted (IsLeft m) (Provides m) p
      → StaysNoted (complete_implicit m needed p s)
  complete_implicit-StaysNoted needed p s noted =
      let whole = complete_implicit m needed p s in
      let roots = implicit_roots m.implicit_roots_off m.glibc_constraint needed in
      let implicit = keep_if (λ (d : Bytes × Bytes). not (mem_bytes d.0 p.have)) roots in
      elim (Bool-cases (is_empty implicit)) [
        | inl all_there ↦
            let same : whole ≡ (s, ok p) = unfold complete_implicit in (ground arith) in
            subst StaysNoted (sym same) noted
        | inr missing ↦ elim (Result-cases (m.resolve implicit)) [
          | inr (e, failed) ↦
              let same : whole ≡ (s, err (unresolved e)) =
                unfold complete_implicit in (ground arith) in
              subst StaysNoted (sym same) tt
          | inl (more, found) ↦
              let same : whole ≡ add_implicit m more p s =
                unfold complete_implicit in (ground arith) in
              subst StaysNoted (sym same) (add_implicit-StaysNoted more p s noted)
        ]
      ]

  -- Every soname that the files of a closure need is known to a longer one.
  abbrev pub MeetsAll : List Resolved → S → List Resolved → Type 0
  MeetsAll before s c =
      All (IsMet m (m.available (prefixes_of m before s) s) c) (m.needed (prefixes_of m before s) s)

  abbrev MeetsRound : Progress → S → S × Result CompleteError Progress → Type 0
  MeetsRound p s (t, ok q) = IsNoted (IsLeft m) (Provides m) q × MeetsAll p.closure s q.closure
  MeetsRound p s (t, err e) = Unit

  complete_round-MeetsRound :
      (p : Progress) (s : S)
      → IsNoted (IsLeft m) (Provides m) p
      → MeetsRound p s (complete_round m p s)
  complete_round-MeetsRound p s noted =
      let whole = complete_round m p s in
      let prefixes = prefixes_of m p.closure s in
      let needed = m.needed prefixes s in
      let provided = m.available prefixes s in
      let first = complete_implicit m needed (record p { changed = false }) s in
      let still = complete_implicit-StaysNoted needed (record p { changed = false }) s noted in
      elim (Result-cases first.1) [
        | inr (e, failed) ↦
            let same : whole ≡ (first.0, err e) = unfold complete_round in (ground arith) in
            subst (MeetsRound p s) (sym same) tt
        | inl (p1, good) ↦
            let more = add_providers m provided needed p1 first.0 in
            let same : whole ≡ (more.0, ok more.1) = unfold complete_round in (ground arith) in
            let here : StaysNoted (first.0, ok p1) =
              subst (λ a. StaysNoted (first.0, a)) good still in
            subst (MeetsRound p s) (sym same)
              (add_providers-Meets m provided needed p1 first.0 here)
      ]

  -- The last round of a completion: it starts from a closure that is installed, and it knows every
  -- soname that the files of that closure need.
  abbrev pub EndsMet : List Resolved → S → S × Result CompleteError (List Resolved) → Type 0
  EndsMet start s (t, ok c) =
      (before : List Resolved) × (u : S) × Grows m s u start before
      × Grows m u t before c
      × MeetsAll before u c
  EndsMet start s (t, err e) = Unit

  EndsMet-after :
      {s t : S} (ps : List Resolved) {qs : List Resolved}
      → (x : S × Result CompleteError (List Resolved)) → Grows m s t ps qs
      → EndsMet qs t x
      → EndsMet ps s x
  EndsMet-after ps (u, ok c) g (before, v, first, last, met) =
      (before, v, Grows-trans m ps g first, last, met)
  EndsMet-after ps (u, err e) g h = tt

  complete_rounds_over : (p : Progress) (s : S) → complete_rounds m zero p s ≡ (s, ok p.closure)
  unfolding complete_rounds
  complete_rounds_over p s = refl

  -- The rounds behind one, where they end well once that one does.
  abbrev Goes : ℕ → List Resolved → S → Type 0
  Goes left start s =
      (p1 : Progress) (t : S)
      → Grows m s t start p1.closure
      → IsNoted (IsLeft m) (Provides m) p1
      → EndsMet start s (t, ok p1.closure)
      → EndsMet start s (complete_rounds m left p1 t)

  one_round-EndsMet :
      (left : ℕ) (p : Progress) (s : S)
      → IsNoted (IsLeft m) (Provides m) p
      → Goes left p.closure s
      → EndsMet p.closure s (complete_rounds m (suc left) p s)
  one_round-EndsMet left p s noted next =
      let whole = complete_rounds m (suc left) p s in
      let round = complete_round m p s in
      let grown = complete_round-AddsOk m p s in
      let meets = complete_round-MeetsRound p s noted in
      elim (Result-cases round.1) [
        | inr (e, failed) ↦
            let same : whole ≡ (round.0, err e) = unfold complete_rounds in (ground arith) in
            subst (EndsMet p.closure s) (sym same) tt
        | inl (p1, good) ↦
            let here : AddsOk m p.closure s (round.0, ok p1) =
              subst (λ a. AddsOk m p.closure s (round.0, a)) good grown in
            let met : MeetsRound p s (round.0, ok p1) =
              subst (λ a. MeetsRound p s (round.0, a)) good meets in
            let last : EndsMet p.closure s (round.0, ok p1.closure) =
              (p.closure, s, Grows-stay m s p.closure, here, met.1) in
            elim (Bool-cases p1.changed) [
              | inr settled ↦
                  let same : whole ≡ (round.0, ok p1.closure) =
                    unfold complete_rounds in (ground arith) in
                  subst (EndsMet p.closure s) (sym same) last
              | inl moved ↦
                  let same : whole ≡ complete_rounds m left p1 round.0 =
                    unfold complete_rounds in (ground arith) in
                  subst (EndsMet p.closure s) (sym same) (next p1 round.0 here met.0 last)
            ]
      ]

  complete_rounds-EndsMet :
      (left : ℕ) (p : Progress) (s : S)
      → IsNoted (IsLeft m) (Provides m) p
      → EndsMet p.closure s (complete_rounds m (suc left) p s)
  complete_rounds-EndsMet zero p s noted =
      one_round-EndsMet zero p s noted (λ p1 t grown noted1 last.
        subst (EndsMet p.closure s) (sym (complete_rounds_over p1 t)) last)
  complete_rounds-EndsMet (suc left) p s noted =
      one_round-EndsMet (suc left) p s noted (λ p1 t grown noted1 last.
        EndsMet-after p.closure (complete_rounds m (suc left) p1 t) grown
          (complete_rounds-EndsMet left p1 t noted1))

  pub complete_elf-EndsMet : (c : List Resolved) (s : S) → EndsMet c s (complete_elf m c s)
  unfolding complete_elf
  complete_elf-EndsMet c s =
      complete_rounds-EndsMet 7 _ s
        (IsNoted-start (IsLeft m) (Provides m) c (map (λ (r : Resolved). r.project) c))
