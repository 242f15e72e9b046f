-- ===== src/Complete/Kept.antt =====
-- closure.go and closure_macho.go: what the loops of a completion add, they installed.
use bottle.Common.{
  ℕ, zero, suc, List, [], ◌∷◌, ◌++◌, ◌≡◌, inl, inr, refl, sym, subst, true, false, arith, not,
}
use bottle.Common.Dict.{mem_bytes}
use bottle.Common.Lists.{is_empty, keep_if}
use bottle.Common.Result.{Result, ok, err, Result-cases}
use bottle.Common.Tests.{Bool-cases}
use bottle.Common.Text.{Bytes}
use bottle.Resolve.{Resolved}
use bottle.Sonames.{implicit_roots, is_host_provided_soname}
use bottle.Complete.{
  Means, CompleteError, unresolved, not_installed, Progress, note_provider, prefixes_of,
}
use bottle.Complete.Elf.{
  provide_soname, add_implicit, complete_implicit, is_passed, add_providers, complete_round,
  complete_rounds,
}
use bottle.Complete.Found.{provide_soname-Finds}
use bottle.Complete.Runs.{stay, kept, Grows, Grows-stay, Grows-trans, note_provider-Grows}

module _ {S : Type 0} (m : Means S) where
  abbrev pub Adds : List Resolved → S → S × Progress → Type 0
  Adds before s (t, p) = Grows m s t before p.closure

  abbrev pub AddsOk : List Resolved → S → S × Result CompleteError Progress → Type 0
  AddsOk before s (t, ok p) = Grows m s t before p.closure
  AddsOk before s (t, err e) = Unit

  abbrev pub EndsOk : List Resolved → S → S × Result CompleteError (List Resolved) → Type 0
  EndsOk before s (t, ok after) = Grows m s t before after
  EndsOk before s (t, err e) = Unit

  -- Behind one that grew.
  pub Adds-after :
      {s t : S} (ps : List Resolved) {qs : List Resolved} (x : S × Progress)
      → Grows m s t ps qs
      → Adds qs t x
      → Adds ps s x
  Adds-after ps (u, p) g h = Grows-trans m ps g h

  AddsOk-after :
      {s t : S} (ps : List Resolved) {qs : List Resolved} (x : S × Result CompleteError Progress)
      → Grows m s t ps qs
      → AddsOk qs t x
      → AddsOk ps s x
  AddsOk-after ps (u, ok p) g h = Grows-trans m ps g h
  AddsOk-after ps (u, err e) g h = tt

  pub EndsOk-after :
      {s t : S} (ps : List Resolved) {qs : List Resolved}
      → (x : S × Result CompleteError (List Resolved)) → Grows m s t ps qs
      → EndsOk qs t x
      → EndsOk ps s x
  EndsOk-after ps (u, ok c) g h = Grows-trans m ps g h
  EndsOk-after ps (u, err e) g h = tt

  pub add_providers-Adds :
      (provided sonames : List Bytes) (p : Progress) (s : S)
      → Adds p.closure s (add_providers m provided sonames p s)
  unfolding add_providers
  add_providers-Adds provided [] p s = Grows-stay m s p.closure
  add_providers-Adds provided (soname ∷ sonames) p s =
      let whole = add_providers m provided (soname ∷ sonames) p s in
      let p1 : Progress = record p { tried_soname = soname ∷ p.tried_soname } in
      elim (Bool-cases (is_passed m provided p soname)) [
        | inl passed ↦
            let same : whole ≡ add_providers m provided sonames p s = ground arith in
            subst (Adds p.closure s) (sym same) (add_providers-Adds provided sonames p s)
        | inr open_one ↦ elim (Bool-cases (is_host_provided_soname soname)) [
          | inl hosts ↦
              let same : whole ≡ add_providers m provided sonames p1 s = ground arith in
              subst (Adds p.closure s) (sym same) (add_providers-Adds provided sonames p1 s)
          | inr ours ↦
              let found = provide_soname m soname s in
              let p2 = note_provider found.1 p1 in
              let same : whole ≡ add_providers m provided sonames p2 found.0 = ground arith in
              subst (Adds p.closure s) (sym same) (
                Adds-after p.closure (add_providers m provided sonames p2 found.0)
                  (note_provider-Grows m s found.0 found.1 p1 (provide_soname-Finds m soname s))
                  (add_providers-Adds provided sonames p2 found.0))
        ]
      ]

  add_implicit-AddsOk :
      (rs : List Resolved) (p : Progress) (s : S) → AddsOk p.closure s (add_implicit m rs p s)
  unfolding add_implicit
  add_implicit-AddsOk [] p s = Grows-stay m s p.closure
  add_implicit-AddsOk (r ∷ rs) p s =
      let whole = add_implicit m (r ∷ rs) p s in
      let s1 = (m.install r s).0 in
      let p1 : Progress = record p {
        closure = p.closure ++ r ∷ [];
        have = r.project ∷ p.have;
        changed = true;
      } in
      elim (Bool-cases (mem_bytes r.project p.have)) [
        | inl there ↦
            let same : whole ≡ add_implicit m rs p s = ground arith in
            subst (AddsOk p.closure s) (sym same) (add_implicit-AddsOk rs p s)
        | inr absent ↦ elim (Result-cases (m.install r s).1) [
          | inr (e, failed) ↦
              let same : whole ≡ (s1, err (not_installed e)) = ground arith in
              subst (AddsOk p.closure s) (sym same) tt
          | inl (fresh, done) ↦
              let same : whole ≡ add_implicit m rs p1 s1 = ground arith in
              subst (AddsOk p.closure s) (sym same) (
                AddsOk-after p.closure (add_implicit m rs p1 s1)
                  (r ∷ [], refl, kept r fresh done stay) (add_implicit-AddsOk rs p1 s1))
        ]
      ]

  complete_implicit-AddsOk :
      (needed : List Bytes) (p : Progress) (s : S)
      → AddsOk p.closure s (complete_implicit m needed p s)
  complete_implicit-AddsOk needed p s =
      let whole = complete_implicit m needed p s in
      let roots = implicit_roots m.implicit_roots_off m.glibc_constraint needed in
      let implicit = keep_if (λ (d : Bytes × Bytes). not (mem_bytes d.0 p.have)) roots in
      elim (Bool-cases (is_empty implicit)) [
        | inl all_there ↦
            let same : whole ≡ (s, ok p) = unfold complete_implicit in (ground arith) in
            subst (AddsOk p.closure s) (sym same) (Grows-stay m s p.closure)
        | inr missing ↦ elim (Result-cases (m.resolve implicit)) [
          | inr (e, failed) ↦
              let same : whole ≡ (s, err (unresolved e)) =
                unfold complete_implicit in (ground arith) in
              subst (AddsOk p.closure s) (sym same) tt
          | inl (more, found) ↦
              let same : whole ≡ add_implicit m more p s =
                unfold complete_implicit in (ground arith) in
              subst (AddsOk p.closure s) (sym same) (add_implicit-AddsOk more p s)
        ]
      ]

  pub complete_round-AddsOk : (p : Progress) (s : S) → AddsOk p.closure s (complete_round m p s)
  complete_round-AddsOk p s =
      let whole = complete_round m p s in
      let prefixes = prefixes_of m p.closure s in
      let needed = m.needed prefixes s in
      let provided = m.available prefixes s in
      let first = complete_implicit m needed (record p { changed = false }) s in
      let grown = complete_implicit-AddsOk needed (record p { changed = false }) s in
      elim (Result-cases first.1) [
        | inr (e, failed) ↦
            let same : whole ≡ (first.0, err e) = unfold complete_round in (ground arith) in
            subst (AddsOk p.closure s) (sym same) tt
        | inl (p1, good) ↦
            let more = add_providers m provided needed p1 first.0 in
            let same : whole ≡ (more.0, ok more.1) = unfold complete_round in (ground arith) in
            let here : AddsOk p.closure s (first.0, ok p1) =
              subst (λ a. AddsOk p.closure s (first.0, a)) good grown in
            subst (AddsOk p.closure s) (sym same)
              (Adds-after p.closure more here (add_providers-Adds provided needed p1 first.0))
      ]

  pub complete_rounds-EndsOk :
      (left : ℕ) (p : Progress) (s : S) → EndsOk p.closure s (complete_rounds m left p s)
  unfolding complete_rounds
  complete_rounds-EndsOk zero p s = Grows-stay m s p.closure
  complete_rounds-EndsOk (suc left) p s =
      let whole = complete_rounds m (suc left) p s in
      let round = complete_round m p s in
      let grown = complete_round-AddsOk p s in
      elim (Result-cases round.1) [
        | inr (e, failed) ↦
            let same : whole ≡ (round.0, err e) = ground arith in
            subst (EndsOk p.closure s) (sym same) tt
        | inl (p1, good) ↦
            let here : AddsOk p.closure s (round.0, ok p1) =
              subst (λ a. AddsOk p.closure s (round.0, a)) good grown in
            elim (Bool-cases p1.changed) [
              | inr settled ↦
                  let same : whole ≡ (round.0, ok p1.closure) = ground arith in
                  subst (EndsOk p.closure s) (sym same) here
              | inl moved ↦
                  let same : whole ≡ complete_rounds m left p1 round.0 = ground arith in
                  subst (EndsOk p.closure s) (sym same) (
                    EndsOk-after p.closure (complete_rounds m left p1 round.0) here
                      (complete_rounds-EndsOk left p1 round.0))
            ]
      ]
