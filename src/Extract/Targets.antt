-- ===== src/Extract/Targets.antt =====
-- extract.go: the path that an entry of an archive is written to, and the path a hard link is made of.
use bottle.Common.{
  ℕ, List, [], ◌∷◌, ◌++◌, ◌≡◌, ◌≢◌, inl, inr, refl, sym, ap, ◌∙◌, subst, true, false, some, arith,
  append_assoc,
}
use bottle.Common.Lists.{All, All-append_back, is_empty}
use bottle.Common.Paths.{slashed, clean, join_path}
use bottle.Common.Paths.Names.{IsName, IsPart, names-IsPart, split_byte-slashed}
use bottle.Common.Paths.Rooted.{clean-slashed, join_path_cases}
use bottle.Common.Result.{ok}
use bottle.Common.Tests.{Bool-cases, ◌==◌, Option-cases}
use bottle.Common.Text.{Bytes, codes, cut_prefix, prepend, split_byte}
use bottle.Extract.{drop, is_inside, strip_components, ext_safe_target, ext_link_source}

cut_prefix-eq : (p s rest : Bytes) → cut_prefix p s ≡ some rest → s ≡ p ++ rest
unfolding cut_prefix
cut_prefix-eq [] s rest e = ground arith
cut_prefix-eq (c ∷ p) [] rest e = absurd (ground arith)
cut_prefix-eq (c ∷ p) (d ∷ s) rest e =
    let here : c ≡ d = ground arith in
    let later : cut_prefix p s ≡ some rest = ground arith in
    cut_cons c d p s rest here (cut_prefix-eq p s rest later)
  where
    cut_cons : (c d : ℕ) (p s rest : Bytes) → c ≡ d → s ≡ p ++ rest → d ∷ s ≡ c ∷ (p ++ rest)
    cut_cons c d p s rest h k = cc

prepend_some : (c : ℕ) (ps : List Bytes) → (q : Bytes) × (qs : List Bytes) × (prepend c ps ≡ q ∷ qs)
prepend_some c [] = (c ∷ [], [], refl)
prepend_some c (p ∷ ps) = (c ∷ p, ps, refl)

split_byte_some : (s : Bytes) → (q : Bytes) × (qs : List Bytes) × (split_byte b'/' s ≡ q ∷ qs)
unfolding split_byte
split_byte_some [] = ([], [], refl)
split_byte_some (c ∷ s) = elim (Bool-cases (c == b'/')) [
  | inl h ↦ ([], split_byte b'/' s, ground arith)
  | inr h ↦ let (q, qs, e) = prepend_some c (split_byte b'/' s) in (q, qs, ground arith)
]

-- One list of parts begins with another, where they agree but for an end.
begins_with :
    (ds ts : List Bytes) (r : Bytes) (rs : List Bytes)
    → ts ++ [] ∷ [] ≡ ds ++ r ∷ rs
    → (es : List Bytes) × (ts ≡ ds ++ es)
begins_with [] ts r rs e = (ts, refl)
begins_with (d ∷ []) [] r rs e = absurd cc
begins_with (d ∷ c ∷ ds) [] r rs e = absurd cc
begins_with (d ∷ ds) (t ∷ ts) r rs e =
    let tails : ts ++ [] ∷ [] ≡ ds ++ r ∷ rs = cc in
    let (es, same) = begins_with ds ts r rs tails in let heads : t ≡ d = cc in (es, cc)

split_byte_nil : split_byte b'/' [] ≡ [] ∷ []
unfolding split_byte
split_byte_nil = refl

same_tail : {p q : Bytes} {ps qs : List Bytes} → p ∷ ps ≡ q ∷ qs → ps ≡ qs
same_tail e = cc

parts_below :
    (ds ts : List Bytes) (rest : Bytes)
    → All IsPart ds
    → All IsPart ts
    → slashed ts ++ codes "/" ≡ (slashed ds ++ codes "/") ++ rest
    → (es : List Bytes) × (ts ≡ ds ++ es)
parts_below ds ts rest hd ht e =
    let (r, rs, some_part) = split_byte_some rest in
    let left : split_byte b'/' (slashed ts ++ codes "/") ≡ [] ∷ (ts ++ [] ∷ []) =
      split_byte-slashed ts [] ht ∙ ap (λ t. [] ∷ (ts ++ t)) split_byte_nil in
    let right : split_byte b'/' ((slashed ds ++ codes "/") ++ rest) ≡ [] ∷ (ds ++ r ∷ rs) =
      ap (split_byte b'/') (append_assoc (slashed ds) (codes "/") rest)
      ∙ split_byte-slashed ds rest hd
      ∙ ap (λ t. [] ∷ (ds ++ t)) some_part in
    let both : [] ∷ (ts ++ [] ∷ []) ≡ [] ∷ (ds ++ r ∷ rs) =
      sym left ∙ ap (split_byte b'/') e ∙ right in
    begins_with ds ts r rs (same_tail both)

-- A path of names that begins with `ps`: the directory itself, or below it.
abbrev pub IsBelow : List Bytes → Bytes → Type 0
IsBelow ps target = (es : List Bytes) × All IsName es × (target ≡ slashed (ps ++ es))

is_inside-cut :
    (dest t : Bytes)
    → is_inside dest t ≡ true
    → (rest : Bytes) × (t ++ codes "/" ≡ (clean dest ++ codes "/") ++ rest)
is_inside-cut dest t h =
    elim (Option-cases (cut_prefix (clean dest ++ codes "/") (t ++ codes "/"))) [
      | inr (rest, e) ↦ (rest, cut_prefix-eq (clean dest ++ codes "/") (t ++ codes "/") rest e)
      | inl e ↦ absurd (ground arith)
    ]

inside_cut :
    (p : Bytes) (ps : List Bytes) (t : Bytes)
    → All IsName (p ∷ ps)
    → is_inside (slashed (p ∷ ps)) t ≡ true
    → (rest : Bytes) × (t ++ codes "/" ≡ (slashed (p ∷ ps) ++ codes "/") ++ rest)
inside_cut p ps t h k =
    let (rest, e) = is_inside-cut (slashed (p ∷ ps)) t k in
    (rest, e ∙ ap (λ d. (d ++ codes "/") ++ rest) (clean-slashed p ps h))

root_not_below : (p : Bytes) (ps es : List Bytes) → IsName p → [] ∷ [] ≢ (p ∷ ps) ++ es
root_not_below p ps es (_, filled, _, _) e = absurd (empty_name p filled cc)
  where
    empty_name : (p : Bytes) → is_empty p ≡ false → p ≡ [] → ⊥
    empty_name [] h k = cc
    empty_name (c ∷ p) h k = cc

-- What is joined to a directory and passes the test of the prefix is the directory or below it.
joined-IsBelow :
    (p : Bytes) (ps : List Bytes) (r t : Bytes)
    → All IsName (p ∷ ps)
    → join_path (slashed (p ∷ ps) ∷ r ∷ []) ≡ t
    → is_inside (slashed (p ∷ ps)) t ≡ true
    → IsBelow (p ∷ ps) t
joined-IsBelow p ps r t h joined inside =
    let (rest, cut) = inside_cut p ps t h inside in
    let parts = names-IsPart (p ∷ ps) h in
    elim (join_path_cases p ps r) [
      | inl e ↦
          let root : t ≡ slashed ([] ∷ []) = sym joined ∙ e in
          let (es, same) =
            parts_below (p ∷ ps) ([] ∷ []) rest parts (tt, tt)
              (ap (λ u. u ++ codes "/") (sym root) ∙ cut) in
          absurd (root_not_below p ps es h.0 same)
      | inr (q, qs, names, e) ↦
          let text : t ≡ slashed (q ∷ qs) = sym joined ∙ e in
          let (es, same) =
            parts_below (p ∷ ps) (q ∷ qs) rest parts (names-IsPart (q ∷ qs) names)
              (ap (λ u. u ++ codes "/") (sym text) ∙ cut) in
          (
            es,
            (All-append_back IsName (p ∷ ps) es (subst (All IsName) same names)).1,
            text ∙ ap slashed same,
          )
    ]

-- `rel` of an entry's name.
abbrev pub relative_name : Bytes → ℕ → Bytes
relative_name name strip = join_path (drop strip (strip_components name))

ext_safe_target-joined :
    (dest name : Bytes) (strip : ℕ) (target : Bytes)
    → ext_safe_target dest name strip ≡ ok (some target)
    → (join_path (dest ∷ relative_name name strip ∷ []) ≡ target) × (is_inside dest target ≡ true)
unfolding ext_safe_target
ext_safe_target-joined dest name strip target e = (ground arith, ground arith)

ext_link_source-joined :
    (dest name : Bytes) (strip : ℕ) (source : Bytes)
    → ext_link_source dest name strip ≡ ok source
    → (join_path (dest ∷ relative_name name strip ∷ []) ≡ source) × (is_inside dest source ≡ true)
unfolding ext_link_source
ext_link_source-joined dest name strip source e = (ground arith, ground arith)

-- In a directory that is given as a path of names, the path that `extSafeTarget` answers with is the
-- directory itself or a path of names below it, and so is the path that `extLinkSource` answers with:
-- no `..` is left in them that could lead out.
pub ext_safe_target-IsBelow :
    (p : Bytes) (ps : List Bytes) (strip : ℕ)
    → All IsName (p ∷ ps)
    → ((name target : Bytes)
        → ext_safe_target (slashed (p ∷ ps)) name strip ≡ ok (some target)
        → IsBelow (p ∷ ps) target)
      × ((name source : Bytes)
          → ext_link_source (slashed (p ∷ ps)) name strip ≡ ok source
          → IsBelow (p ∷ ps) source)
ext_safe_target-IsBelow p ps strip h = (
  (λ name target e.
      let (joined, inside) = ext_safe_target-joined (slashed (p ∷ ps)) name strip target e in
      joined-IsBelow p ps (relative_name name strip) target h joined inside),
  λ name source e.
      let (joined, inside) = ext_link_source-joined (slashed (p ∷ ps)) name strip source e in
      joined-IsBelow p ps (relative_name name strip) source h joined inside,
)
