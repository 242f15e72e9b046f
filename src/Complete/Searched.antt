-- ===== src/Complete/Searched.antt =====
-- closure.go: what the loop over the sonames leaves is accounted for.
pub mod Rounds
use bottle.Common.{
  ℕ, zero, suc, List, [], ◌∷◌, ◌++◌, ◌≡◌, ◌⊎◌, inl, inr, refl, sym, subst, true, false, Option,
  none, some, arith, not, map,
}
use bottle.Common.Dict.{mem_bytes}
use bottle.Common.Lists.{All, is_empty, keep_if}
use bottle.Common.Result.{Result, ok, err, Result-cases}
use bottle.Common.Tests.{Bool-cases}
use bottle.Common.Text.{Bytes}
use bottle.Resolve.{Resolved}
use bottle.Sonames.{implicit_roots, is_host_provided_soname, is_implicit_soname}
use bottle.Complete.{
  Means, CompleteError, unresolved, not_installed, Progress, note_provider, prefixes_of, bottle_key,
  max_rounds,
}
use bottle.Complete.Elf.{
  provide_soname, add_implicit, complete_implicit, is_passed, add_providers, complete_round,
  complete_rounds, complete_elf,
}
use bottle.Complete.Accounted.{
  IsAccounted, IsAccounted-append, IsNoted, IsNoted-start, IsNoted-grows, IsNoted-excused, Says,
  IsNoted-note_provider, IsAccounted-noted, All-mem,
}
use bottle.Complete.Kept.{add_providers-Adds, complete_round-AddsOk, AddsOk}
use bottle.Complete.Runs.{Grows, Grows-stay, Grows-trans}

module _ {S : Type 0} (m : Means S) where
  -- A soname that the host is to have, or that a search for it found no build for.
  abbrev IsLeft : Bytes → Type 0
  IsLeft soname =
      (is_host_provided_soname soname ≡ true) ⊎ ((s : S) × ((provide_soname m soname s).1 ≡ none))

  -- A build that a search for the soname answers with.
  abbrev Provides : Bytes → Resolved → Type 0
  Provides soname r = (s : S) × ((provide_soname m soname s).1 ≡ some r)

  says :
      (soname : Bytes) (s : S) (found : Option Resolved)
      → (provide_soname m soname s).1 ≡ found
      → Says IsLeft Provides soname found
  says soname s none e = inr (s, e)
  says soname s (some r) e = (s, e)

  -- What is known of a soname that the files of a closure need.
  abbrev IsMet : List Bytes → List Resolved → Bytes → Type 0
  IsMet provided c soname =
      (mem_bytes soname provided ≡ true)
      ⊎ ((is_implicit_soname soname ≡ true) ⊎ IsAccounted IsLeft Provides c soname)

  IsMet-append :
      (provided : List Bytes) (c d : List Resolved) (soname : Bytes)
      → IsMet provided c soname
      → IsMet provided (c ++ d) soname
  IsMet-append provided c d soname (inl there) = inl there
  IsMet-append provided c d soname (inr (inl implicit)) = inr (inl implicit)
  IsMet-append provided c d soname (inr (inr known)) =
      inr (inr (IsAccounted-append IsLeft Provides c d soname known))

  IsMet-passed :
      (provided : List Bytes) (p : Progress) (soname : Bytes)
      → is_passed m provided p soname ≡ true
      → IsNoted IsLeft Provides p
      → IsMet provided p.closure soname
  IsMet-passed provided p soname passed (known, _) = elim (Bool-cases (mem_bytes soname provided)) [
    | inl there ↦ inl there
    | inr absent ↦ elim (Bool-cases (mem_bytes soname p.tried_soname)) [
      | inl again ↦
          inr (
            inr (All-mem (IsAccounted IsLeft Provides p.closure) soname p.tried_soname known again))
      | inr new ↦ inr (inl (ground arith))
    ]
  ]

  abbrev Meets : List Bytes → List Bytes → S × Progress → Type 0
  Meets provided sonames (t, q) = IsNoted IsLeft Provides q × All (IsMet provided q.closure) sonames

  Meets-behind :
      (provided : List Bytes) (soname : Bytes) (sonames : List Bytes) (p : Progress) (s : S)
      → IsMet provided p.closure soname
      → Meets provided sonames (add_providers m provided sonames p s)
      → Meets provided (soname ∷ sonames) (add_providers m provided sonames p s)
  Meets-behind provided soname sonames p s met (noted, others) =
      let (added, e, run) = add_providers-Adds m provided sonames p s in
      (
        noted,
        (
          subst (λ c. IsMet provided c soname) (sym e)
              (IsMet-append provided p.closure added soname met),
          others,
        ),
      )

  add_providers-Meets :
      (provided sonames : List Bytes) (p : Progress) (s : S)
      → IsNoted IsLeft Provides p
      → Meets provided sonames (add_providers m provided sonames p s)
  add_providers-Meets provided [] p s noted = unfold add_providers in (noted, tt)
  add_providers-Meets provided (soname ∷ sonames) p s noted =
      let whole = add_providers m provided (soname ∷ sonames) p s in
      let p1 : Progress = record p { tried_soname = soname ∷ p.tried_soname } in
      elim (Bool-cases (is_passed m provided p soname)) [
        | inl passed ↦
            let same : whole ≡ add_providers m provided sonames p s =
              unfold add_providers in (ground arith) in
            subst (Meets provided (soname ∷ sonames)) (sym same) (
              Meets-behind provided soname sonames p s (IsMet-passed provided p soname passed noted)
                (add_providers-Meets provided sonames p s noted))
        | inr open_one ↦ elim (Bool-cases (is_host_provided_soname soname)) [
          | inl hosts ↦
              let same : whole ≡ add_providers m provided sonames p1 s =
                unfold add_providers in (ground arith) in
              subst (Meets provided (soname ∷ sonames)) (sym same) (
                Meets-behind provided soname sonames p1 s (inr (inr (inl (inl hosts)))) (
                  add_providers-Meets provided sonames p1 s
                    (IsNoted-excused IsLeft Provides soname p (inl hosts) noted)))
          | inr ours ↦
              let found = provide_soname m soname s in
              let p2 = note_provider found.1 p1 in
              let same : whole ≡ add_providers m provided sonames p2 found.0 =
                unfold add_providers in (ground arith) in
              let noted2 =
                IsNoted-note_provider IsLeft Provides soname found.1 p (says soname s found.1 refl)
                  noted in
              subst (Meets provided (soname ∷ sonames)) (sym same) (
                Meets-behind provided soname sonames p2 found.0
                  (inr (inr (IsAccounted-noted IsLeft Provides soname found.1 p noted2)))
                  (add_providers-Meets provided sonames p2 found.0 noted2))
        ]
      ]
