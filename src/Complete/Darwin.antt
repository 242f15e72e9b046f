-- ===== src/Complete/Darwin.antt =====
-- closure_macho.go: what the rounds over the references add, they installed.
use bottle.Common.{ℕ, zero, suc, List, [], ◌∷◌, ◌≡◌, inl, inr, sym, subst, false, arith}
use bottle.Common.Dict.{mem_bytes}
use bottle.Common.Tests.{Bool-cases}
use bottle.Macho.{Want, want_key}
use bottle.Complete.{Means, Progress, note_provider, prefixes_of}
use bottle.Complete.Dylibs.{provide_macho_soname, add_lines, macho_rounds}
use bottle.Complete.Found.{provide_macho_soname-Finds}
use bottle.Complete.Kept.{Adds, Adds-after}
use bottle.Complete.Runs.{Grows, Grows-stay, Grows-trans, note_provider-Grows}

module _ {S : Type 0} (m : Means S) where
  pub add_lines-Adds :
      (ws : List Want) (p : Progress) (s : S) → Adds m p.closure s (add_lines m ws p s)
  unfolding add_lines
  add_lines-Adds [] p s = Grows-stay m s p.closure
  add_lines-Adds (w ∷ ws) p s =
      let whole = add_lines m (w ∷ ws) p s in
      let p1 : Progress = record p { tried_soname = want_key w ∷ p.tried_soname } in
      elim (Bool-cases (mem_bytes (want_key w) p.tried_soname)) [
        | inl again ↦
            let same : whole ≡ add_lines m ws p s = ground arith in
            subst (Adds m p.closure s) (sym same) (add_lines-Adds ws p s)
        | inr new ↦ elim (Bool-cases w.abi_line) [
          | inr major ↦
              let same : whole ≡ add_lines m ws p1 s = ground arith in
              subst (Adds m p.closure s) (sym same) (add_lines-Adds ws p1 s)
          | inl line ↦
              let found = provide_macho_soname m w s in
              let p2 = note_provider found.1 p1 in
              let same : whole ≡ add_lines m ws p2 found.0 = ground arith in
              subst (Adds m p.closure s) (sym same) (
                Adds-after m p.closure (add_lines m ws p2 found.0)
                  (note_provider-Grows m s found.0 found.1 p1 (provide_macho_soname-Finds m w s))
                  (add_lines-Adds ws p2 found.0))
        ]
      ]

  pub macho_rounds-Grows :
      (left : ℕ) (p : Progress) (s : S)
      → Grows m s (macho_rounds m left p s).0 p.closure (macho_rounds m left p s).1
  unfolding macho_rounds
  macho_rounds-Grows zero p s = Grows-stay m s p.closure
  macho_rounds-Grows (suc left) p s =
      let whole = macho_rounds m (suc left) p s in
      let wants = m.unresolved (prefixes_of m p.closure s) s in
      let round = add_lines m wants (record p { changed = false }) s in
      let here = add_lines-Adds wants (record p { changed = false }) s in
      elim (Bool-cases round.1.changed) [
        | inr settled ↦
            let same : whole ≡ (round.0, round.1.closure) = ground arith in
            subst (λ x. Grows m s x.0 p.closure x.1) (sym same) here
        | inl moved ↦
            let same : whole ≡ macho_rounds m left round.1 round.0 = ground arith in
            subst (λ x. Grows m s x.0 p.closure x.1) (sym same)
              (Grows-trans m p.closure here (macho_rounds-Grows left round.1 round.0))
      ]
