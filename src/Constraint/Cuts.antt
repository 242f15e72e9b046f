-- ===== src/Constraint/Cuts.antt =====
-- The two cuts of a constraint text, at `||` and before `<` and `>`, give the printed parts back.
use bottle.Common.{
  ℕ, List, [], ◌∷◌, ◌++◌, ◌≡◌, refl, true, false, arith, map, append_assoc, append-nil,
}
use bottle.Common.Lists.{All, All-append}
use bottle.Common.Tests.{◌==◌}
use bottle.Common.Text.{Bytes, split, join}
use bottle.Constraint.{bars, emit, comparators, split_comparators, is_angle}
use bottle.Constraint.Print.{
  Comparator, lead, print_tail, print_one, print_all, IsRange, IsVersionText, IsInner,
  trim_space_kept, IsInner-print_one, print_tail-not-angle,
}

abbrev pub NoBar : Bytes → Type 0
NoBar = All (λ c. (c == b'|') ≡ false)

pub split_at_bars :
    (p rest : Bytes) → NoBar p → split bars (p ++ (bars ++ rest)) ≡ p ∷ split bars rest
unfolding split
split_at_bars [] rest h = refl
split_at_bars (c ∷ p) rest (hc, hp) = ground (arith, split_at_bars p rest hp)

pub split_no_bars : (p : Bytes) → NoBar p → split bars p ≡ p ∷ []
unfolding split
split_no_bars [] h = refl
split_no_bars (c ∷ p) (hc, hp) = ground (arith, split_no_bars p hp)

-- The texts between bars come back.
pub split-join :
    (p : Bytes) (ps : List Bytes) → All NoBar (p ∷ ps) → split bars (join bars (p ∷ ps)) ≡ p ∷ ps
unfolding join
split-join p [] (h, hs) = split_no_bars p h
split-join p (q ∷ ps) (h, hs) = rw (split_at_bars p (join bars (q ∷ ps)) h, split-join q ps hs)

pub comparators_inside :
    (piece w rest : Bytes)
    → All (λ c. is_angle c ≡ false) w
    → comparators piece (w ++ rest) ≡ comparators (piece ++ w) rest
unfolding comparators
comparators_inside piece [] rest h = rw append-nil
comparators_inside piece (c ∷ w) rest (hc, hw) =
    ground (arith, comparators_inside (piece ++ c ∷ []) w rest hw, append_assoc piece (c ∷ []) w)

pub comparators_at_angle :
    (piece : Bytes) (a : ℕ) (s : Bytes)
    → is_angle a ≡ true
    → comparators piece (a ∷ s) ≡ emit piece (comparators (a ∷ []) s)
unfolding comparators
comparators_at_angle piece a s h = ground arith

pub emit_kept :
    (c : ℕ) (s : Bytes) (rest : List Bytes)
    → All IsInner (c ∷ s)
    → emit (c ∷ s) rest ≡ (c ∷ s) ∷ rest
emit_kept c s rest h = rw (trim_space_kept (c ∷ s) h)

pub IsPrinted : Comparator → Type 0
IsPrinted c = IsRange c.op × IsVersionText c.text

-- The loop of `splitComparators` finds each comparator whole.
pub comparators-print_all :
    (c : ℕ) (s : Bytes) (cs : List Comparator)
    → All IsInner (c ∷ s)
    → All IsPrinted cs
    → comparators (c ∷ s) (print_all cs) ≡ (c ∷ s) ∷ map print_one cs
unfolding IsPrinted
comparators-print_all c s [] h _ = unfold comparators in (emit_kept c s [] h)
comparators-print_all c s (d ∷ ds) h ((range, valid), hs) =
    rw
      (
        comparators_at_angle (c ∷ s) (lead d.op) (print_tail d ++ print_all ds) range,
        comparators_inside (lead d.op ∷ []) (print_tail d) (print_all ds)
            (print_tail-not-angle d valid),
        comparators-print_all (lead d.op) (print_tail d) ds (IsInner-print_one d valid) hs,
      )
      (emit_kept c s (print_one d ∷ map print_one ds) h)

-- Comparators side by side: the first may have any operator, the others begin with `<` or `>`.
abbrev pub Conjunction : Type 0
Conjunction = Comparator × List Comparator

abbrev pub print_conjunction : Conjunction → Bytes
print_conjunction (c, cs) = print_one c ++ print_all cs

abbrev pub IsConjunction : Conjunction → Type 0
IsConjunction (c, cs) = IsVersionText c.text × All (λ d. IsRange d.op × IsVersionText d.text) cs

pub IsInner-print_all :
    (cs : List Comparator)
    → All (λ d. IsRange d.op × IsVersionText d.text) cs
    → All IsInner (print_all cs)
IsInner-print_all [] h = tt
IsInner-print_all (c ∷ cs) ((_, valid), hs) =
    All-append IsInner (print_one c) (print_all cs) (IsInner-print_one c valid)
      (IsInner-print_all cs hs)

pub IsInner-print_conjunction :
    (k : Conjunction) → IsConjunction k → All IsInner (print_conjunction k)
IsInner-print_conjunction (c, cs) (valid, hs) =
    All-append IsInner (print_one c) (print_all cs) (IsInner-print_one c valid)
      (IsInner-print_all cs hs)

pub split_comparators-print :
    (c : Comparator) (cs : List Comparator)
    → IsConjunction (c, cs)
    → split_comparators (print_conjunction (c, cs)) ≡ print_one c ∷ map print_one cs
unfolding split_comparators IsPrinted
split_comparators-print c cs (valid, hs) =
    rw
      (comparators_inside (lead c.op ∷ []) (print_tail c) (print_all cs)
        (print_tail-not-angle c valid))
      (comparators-print_all (lead c.op) (print_tail c) cs (IsInner-print_one c valid) hs)
