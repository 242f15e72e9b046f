-- ===== src/Constraint/Meaning.antt =====
-- What a constraint text means to `satisfies`: alternatives of conjunctions of comparators.
use bottle.Common.{List, [], ◌∷◌, ◌++◌, ◌≡◌, ◌∙◌, refl, Bool, false, ◌&&◌, arith, map, append-nil}
use bottle.Common.Lists.{length, All, All-append, All-map, any, all}
use bottle.Common.Tests.{ltb, if◌then◌else◌}
use bottle.Common.Text.{Bytes, codes, bytes_eq, split, join}
use bottle.Version.{Ver, parse_ver}
use bottle.Constraint.{Op, bars, split_comparators, meets, satisfies_one, satisfies_body, satisfies}
use bottle.Constraint.Recursion.{satisfies_unrolled}
use bottle.Constraint.Print.{
  Comparator, lead, print_tail, print_one, print_all, IsRange, IsVersionText, IsInner, IsVisible,
  visible, core_kept, IsInner-print_one, read_operator-print_one,
}
use bottle.Constraint.Cuts.{
  NoBar, split_no_bars, split-join, Conjunction, print_conjunction, IsConjunction,
  IsInner-print_conjunction, split_comparators-print,
}

not-star : (op : Op) (s : Bytes) → bytes_eq (lead op ∷ s) (codes "*") ≡ false
unfolding bytes_eq
not-star op s = ground arith

-- The body of `satisfies` at a text that begins with an operator and has nothing to trim.
satisfies_at :
    (v : Ver) (op : Op) (s : Bytes)
    → All IsVisible (lead op ∷ s)
    → satisfies v (lead op ∷ s) ≡ (
        if ltb 1 (length (split bars (lead op ∷ s)))
        then any (satisfies v) (split bars (lead op ∷ s))
        else if ltb 1 (length (split_comparators (lead op ∷ s)))
        then all (satisfies v) (split_comparators (lead op ∷ s))
        else satisfies_one v (lead op ∷ s))
satisfies_at v op s h =
    satisfies_unrolled v (lead op ∷ s)
    ∙ unfold satisfies_body in (rw (core_kept (lead op ∷ s) h, not-star op s))

NoBar-inner : (s : Bytes) → All IsInner s → NoBar s
NoBar-inner s h = All-map (λ c (k : IsInner c). k.bar) s h

split_comparators_lone :
    (c : Comparator) → IsVersionText c.text → split_comparators (print_one c) ≡ print_one c ∷ []
split_comparators_lone c valid = rw append-nil at (split_comparators-print c [] (valid, tt))

satisfies_one-print :
    (v : Ver) (c : Comparator)
    → IsVersionText c.text
    → satisfies_one v (print_one c) ≡ meets c.op v (parse_ver c.text)
unfolding satisfies_one
satisfies_one-print v c valid = rw (read_operator-print_one c.op c.text valid)

-- One comparator tests the version against the version that its text denotes.
satisfies-print_one :
    (v : Ver) (c : Comparator)
    → IsVersionText c.text
    → satisfies v (print_one c) ≡ meets c.op v (parse_ver c.text)
satisfies-print_one v c valid =
    satisfies_at v c.op (print_tail c) (visible (print_one c) (IsInner-print_one c valid))
    ∙ rw
        (
          split_no_bars (print_one c) (NoBar-inner (print_one c) (IsInner-print_one c valid)),
          split_comparators_lone c valid,
        )
        (satisfies_one-print v c valid)

-- What the texts mean: every comparator of a conjunction, and one of the alternatives.
abbrev pub meets_one : Ver → Comparator → Bool
meets_one v c = meets c.op v (parse_ver c.text)

abbrev pub meets_conjunction : Ver → Conjunction → Bool
meets_conjunction v (c, cs) = meets_one v c && all (meets_one v) cs

all-satisfies :
    (v : Ver) (cs : List Comparator)
    → All (λ d. IsRange d.op × IsVersionText d.text) cs
    → all (satisfies v) (map print_one cs) ≡ all (meets_one v) cs
all-satisfies v [] h = refl
all-satisfies v (c ∷ cs) ((_, valid), hs) =
    rw (satisfies-print_one v c valid, all-satisfies v cs hs)

satisfies-print_conjunction :
    (v : Ver) (k : Conjunction)
    → IsConjunction k
    → satisfies v (print_conjunction k) ≡ meets_conjunction v k
satisfies-print_conjunction v (c, []) (valid, hs) =
    rw append-nil (satisfies-print_one v c valid ∙ ground arith)
satisfies-print_conjunction v (c, d ∷ cs) (valid, hs) =
    let k : Conjunction = (c, d ∷ cs) in
    let inner = IsInner-print_conjunction k (valid, hs) in
    satisfies_at v c.op (print_tail c ++ print_all (d ∷ cs)) (visible (print_conjunction k) inner)
    ∙ rw
        (
          split_no_bars (print_conjunction k) (NoBar-inner (print_conjunction k) inner),
          split_comparators-print c (d ∷ cs) (valid, hs),
          satisfies-print_one v c valid,
          all-satisfies v (d ∷ cs) hs,
        )
        (ground arith)

-- A constraint: one conjunction or more, between bars.
abbrev pub Alternatives : Type 0
Alternatives = Conjunction × List Conjunction

abbrev pub print_constraint : Alternatives → Bytes
print_constraint (k, ks) = join bars (print_conjunction k ∷ map print_conjunction ks)

abbrev pub IsConstraint : Alternatives → Type 0
IsConstraint (k, ks) = IsConjunction k × All IsConjunction ks

any-satisfies :
    (v : Ver) (ks : List Conjunction)
    → All IsConjunction ks
    → any (satisfies v) (map print_conjunction ks) ≡ any (meets_conjunction v) ks
any-satisfies v [] h = refl
any-satisfies v (k ∷ ks) (valid, hs) =
    rw (satisfies-print_conjunction v k valid, any-satisfies v ks hs)

IsVisible-join :
    (k : Conjunction) (ks : List Conjunction)
    → IsConstraint (k, ks)
    → All IsVisible (print_constraint (k, ks))
unfolding join
IsVisible-join k [] (h, hs) = visible (print_conjunction k) (IsInner-print_conjunction k h)
IsVisible-join k (l ∷ ls) (h, (hl, hs)) =
    All-append IsVisible (print_conjunction k) (bars ++ print_constraint (l, ls))
      (visible (print_conjunction k) (IsInner-print_conjunction k h))
      ((refl, refl), ((refl, refl), IsVisible-join l ls (hl, hs)))

NoBar-map : (ks : List Conjunction) → All IsConjunction ks → All NoBar (map print_conjunction ks)
NoBar-map [] h = tt
NoBar-map (k ∷ ks) (h, hs) =
    (NoBar-inner (print_conjunction k) (IsInner-print_conjunction k h), NoBar-map ks hs)

-- On a text of alternatives, each a conjunction of comparators over version texts, `satisfies`
-- holds exactly when some alternative has all of its comparators met.
pub satisfies-print_constraint :
    (v : Ver) (a : Alternatives)
    → IsConstraint a
    → satisfies v (print_constraint a) ≡ any (meets_conjunction v) (a.0 ∷ a.1)
unfolding join
satisfies-print_constraint v (k, []) (h, hs) = satisfies-print_conjunction v k h ∙ ground arith
satisfies-print_constraint v ((c, cs), l ∷ ls) (h, hs) =
    let k : Conjunction = (c, cs) in
    satisfies_at v c.op ((print_tail c ++ print_all cs) ++ (bars ++ print_constraint (l, ls)))
      (IsVisible-join k (l ∷ ls) (h, hs))
    ∙ rw
        (
          split-join (print_conjunction k) (map print_conjunction (l ∷ ls))
              (NoBar-map (k ∷ l ∷ ls) (h, hs)),
          satisfies-print_conjunction v k h,
          any-satisfies v (l ∷ ls) hs,
        )
        (ground arith)
