-- ===== src/Complete/Lines.antt =====
-- closure_macho.go: every reference that the last round of a completion meets is accounted for.
use bottle.Common.{
  ℕ, zero, suc, List, [], ◌∷◌, ◌≡◌, ◌⊎◌, inl, inr, refl, sym, subst, false, Option, none, some,
  arith,
}
use bottle.Common.Dict.{mem_bytes}
use bottle.Common.Lists.{All}
use bottle.Common.Tests.{Bool-cases}
use bottle.Common.Text.{Bytes}
use bottle.Macho.{Want, want_key}
use bottle.Resolve.{Resolved}
use bottle.Complete.{Means, Progress, note_provider, prefixes_of}
use bottle.Complete.Dylibs.{provide_macho_soname, add_lines, macho_rounds, complete_macho}
use bottle.Complete.Accounted.{
  IsAccounted, IsAccounted-append, IsNoted, IsNoted-start, IsNoted-excused, Says,
  IsNoted-note_provider, IsAccounted-noted, All-mem,
}
use bottle.Complete.Darwin.{add_lines-Adds}
use bottle.Complete.Runs.{Grows, Grows-stay, Grows-trans}

module _ {S : Type 0} (m : Means S) where
  -- A reference to a version that is no line, or one that a search found no build for.
  abbrev IsLeft : Bytes → Type 0
  IsLeft key =
      (w : Want) × (want_key w ≡ key)
      × ((w.abi_line ≡ false) ⊎ ((s : S) × ((provide_macho_soname m w s).1 ≡ none)))

  -- A build that a search for the reference answers with.
  abbrev Provides : Bytes → Resolved → Type 0
  Provides key r =
      (w : Want) × (want_key w ≡ key) × ((s : S) × ((provide_macho_soname m w s).1 ≡ some r))

  says :
      (w : Want) (s : S) (found : Option Resolved)
      → (provide_macho_soname m w s).1 ≡ found
      → Says IsLeft Provides (want_key w) found
  says w s none e = (w, refl, inr (s, e))
  says w s (some r) e = (w, refl, (s, e))

  -- What is known of a reference that does not resolve.
  abbrev IsTold : List Resolved → Want → Type 0
  IsTold c w = IsAccounted IsLeft Provides c (want_key w)

  abbrev Tells : List Want → S × Progress → Type 0
  Tells ws (t, q) = IsNoted IsLeft Provides q × All (IsTold q.closure) ws

  Tells-behind :
      (w : Want) (ws : List Want) (p : Progress) (s : S)
      → IsTold p.closure w
      → Tells ws (add_lines m ws p s)
      → Tells (w ∷ ws) (add_lines m ws p s)
  Tells-behind w ws p s told (noted, others) =
      let (added, e, run) = add_lines-Adds m ws p s in
      (
        noted,
        (
          subst (λ c. IsTold c w) (sym e)
              (IsAccounted-append IsLeft Provides p.closure added (want_key w) told),
          others,
        ),
      )

  add_lines-Tells :
      (ws : List Want) (p : Progress) (s : S)
      → IsNoted IsLeft Provides p
      → Tells ws (add_lines m ws p s)
  add_lines-Tells [] p s noted = unfold add_lines in (noted, tt)
  add_lines-Tells (w ∷ ws) p s noted =
      let whole = add_lines m (w ∷ ws) p s in
      let p1 : Progress = record p { tried_soname = want_key w ∷ p.tried_soname } in
      elim (Bool-cases (mem_bytes (want_key w) p.tried_soname)) [
        | inl again ↦
            let same : whole ≡ add_lines m ws p s = unfold add_lines in (ground arith) in
            let told =
              All-mem (IsAccounted IsLeft Provides p.closure) (want_key w) p.tried_soname noted.0
                again in
            subst (Tells (w ∷ ws)) (sym same)
              (Tells-behind w ws p s told (add_lines-Tells ws p s noted))
        | inr new ↦ elim (Bool-cases w.abi_line) [
          | inr major ↦
              let same : whole ≡ add_lines m ws p1 s = unfold add_lines in (ground arith) in
              subst (Tells (w ∷ ws)) (sym same) (
                Tells-behind w ws p1 s (inl (w, refl, inl major)) (
                  add_lines-Tells ws p1 s
                    (IsNoted-excused IsLeft Provides (want_key w) p (w, refl, inl major) noted)))
          | inl line ↦
              let found = provide_macho_soname m w s in
              let p2 = note_provider found.1 p1 in
              let same : whole ≡ add_lines m ws p2 found.0 = unfold add_lines in (ground arith) in
              let noted2 =
                IsNoted-note_provider IsLeft Provides (want_key w) found.1 p (says w s found.1 refl)
                  noted in
              subst (Tells (w ∷ ws)) (sym same) (
                Tells-behind w ws p2 found.0
                  (IsAccounted-noted IsLeft Provides (want_key w) found.1 p noted2)
                  (add_lines-Tells ws p2 found.0 noted2))
        ]
      ]

  -- Every reference of a closure's files that does not resolve is known to a longer one.
  abbrev pub TellsAll : List Resolved → S → List Resolved → Type 0
  TellsAll before s c = All (IsTold c) (m.unresolved (prefixes_of m before s) s)

  -- The last round of a completion: it starts from a closure that is installed, and it knows every
  -- reference of that closure's files that does not resolve.
  abbrev pub EndsTold : List Resolved → S → S × List Resolved → Type 0
  EndsTold start s (t, c) =
      (before : List Resolved) × (u : S) × Grows m s u start before
      × Grows m u t before c
      × TellsAll before u c

  EndsTold-after :
      {s t : S} (ps : List Resolved) {qs : List Resolved} (x : S × List Resolved)
      → Grows m s t ps qs
      → EndsTold qs t x
      → EndsTold ps s x
  EndsTold-after ps (u, c) g (before, v, first, last, told) =
      (before, v, Grows-trans m ps g first, last, told)

  macho_rounds_over : (p : Progress) (s : S) → macho_rounds m zero p s ≡ (s, p.closure)
  unfolding macho_rounds
  macho_rounds_over p s = refl

  -- The rounds behind one, where they end well once that one does.
  abbrev Goes : ℕ → List Resolved → S → Type 0
  Goes left start s =
      (p1 : Progress) (t : S)
      → Grows m s t start p1.closure
      → IsNoted IsLeft Provides p1
      → EndsTold start s (t, p1.closure)
      → EndsTold start s (macho_rounds m left p1 t)

  one_round-EndsTold :
      (left : ℕ) (p : Progress) (s : S)
      → IsNoted IsLeft Provides p
      → Goes left p.closure s
      → EndsTold p.closure s (macho_rounds m (suc left) p s)
  one_round-EndsTold left p s noted next =
      let whole = macho_rounds m (suc left) p s in
      let wants = m.unresolved (prefixes_of m p.closure s) s in
      let round = add_lines m wants (record p { changed = false }) s in
      let grown = add_lines-Adds m wants (record p { changed = false }) s in
      let told = add_lines-Tells wants (record p { changed = false }) s noted in
      let last : EndsTold p.closure s (round.0, round.1.closure) =
        (p.closure, s, Grows-stay m s p.closure, grown, told.1) in
      elim (Bool-cases round.1.changed) [
        | inr settled ↦
            let same : whole ≡ (round.0, round.1.closure) = unfold macho_rounds in (ground arith) in
            subst (EndsTold p.closure s) (sym same) last
        | inl moved ↦
            let same : whole ≡ macho_rounds m left round.1 round.0 =
              unfold macho_rounds in (ground arith) in
            subst (EndsTold p.closure s) (sym same) (next round.1 round.0 grown told.0 last)
      ]

  macho_rounds-EndsTold :
      (left : ℕ) (p : Progress) (s : S)
      → IsNoted IsLeft Provides p
      → EndsTold p.closure s (macho_rounds m (suc left) p s)
  macho_rounds-EndsTold zero p s noted =
      one_round-EndsTold zero p s noted
        (λ p1 t grown noted1 last. subst (EndsTold p.closure s) (sym (macho_rounds_over p1 t)) last)
  macho_rounds-EndsTold (suc left) p s noted =
      one_round-EndsTold (suc left) p s noted (λ p1 t grown noted1 last.
        EndsTold-after p.closure (macho_rounds m (suc left) p1 t) grown
          (macho_rounds-EndsTold left p1 t noted1))

  pub complete_macho-EndsTold : (c : List Resolved) (s : S) → EndsTold c s (complete_macho m c s)
  unfolding complete_macho
  complete_macho-EndsTold c s = macho_rounds-EndsTold 7 _ s (IsNoted-start IsLeft Provides c [])
