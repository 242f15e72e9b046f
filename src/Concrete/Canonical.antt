-- ===== src/Concrete/Canonical.antt =====
-- concrete.go: two specs have one canonical text only where they record the same build.
use bottle.Common.{
  List, [], ◌∷◌, ◌++◌, ◌≡◌, ◌↔◌, ◌∙◌, refl, sym, ap, Bool, false, arith, append_assoc, append-nil,
}
use bottle.Common.Decimal.{decimal}
use bottle.Common.Decimal.Unique.{decimal_inj}
use bottle.Common.Lists.{length}
use bottle.Common.Text.{Bytes, codes, bytes_eq, eq→bytes_eq}
use bottle.Concrete.{Dep, Variants, Concrete, field, sorted_variants, sorted_deps, canonical}
use bottle.Concrete.Fields.{field_inj}
use bottle.Concrete.Parts.{
  unless_empty, variant_parts, dep_parts, parts, normal_parts, canonical_parts,
}

-- The list begins with this part.
abbrev begins : Bytes → List Bytes → Bool
begins k [] = false
begins k (p ∷ ps) = bytes_eq k p

head_part : List Bytes → Bytes
head_part [] = []
head_part (p ∷ ps) = p

tail_parts : List Bytes → List Bytes
tail_parts [] = []
tail_parts (p ∷ ps) = ps

part_inj : (p q : Bytes) (ps qs : List Bytes) → p ∷ ps ≡ q ∷ qs → (p ≡ q) × (ps ≡ qs)
unfolding head_part tail_parts
part_inj p q ps qs e = (ap head_part e, ap tail_parts e)

-- A part cannot both begin a list and not begin it.
clash : (k : Bytes) (ps qs : List Bytes) → begins k qs ≡ false → k ∷ ps ≡ qs → ⊥
clash k ps qs h e = let start = ap (begins k) e in ground (arith, eq→bytes_eq k k refl)

unless_empty_inj :
    (key s t : Bytes) (ps qs : List Bytes)
    → begins key ps ≡ false
    → begins key qs ≡ false
    → unless_empty key s ++ ps ≡ unless_empty key t ++ qs
    → (s ≡ t) × (ps ≡ qs)
unless_empty_inj key [] [] ps qs h k e = (refl, e)
unless_empty_inj key [] (d ∷ t) ps qs h k e = absurd (clash key ((d ∷ t) ∷ qs) ps h (sym e))
unless_empty_inj key (c ∷ s) [] ps qs h k e = absurd (clash key ((c ∷ s) ∷ ps) qs k e)
unless_empty_inj key (c ∷ s) (d ∷ t) ps qs h k e =
    let (_, rest) = part_inj key key ((c ∷ s) ∷ ps) ((d ∷ t) ∷ qs) e in
    part_inj (c ∷ s) (d ∷ t) ps qs rest

equal_parts :
    (us vs ps qs : List Bytes) → length us ≡ length vs → us ++ ps ≡ vs ++ qs → (us ≡ vs) × (ps ≡ qs)
equal_parts [] [] ps qs h e = (refl, e)
equal_parts [] (v ∷ vs) ps qs h e = absurd (omega arith)
equal_parts (u ∷ us) [] ps qs h e = absurd (omega arith)
equal_parts (u ∷ us) (v ∷ vs) ps qs h e =
    let (same, rest) = part_inj u v (us ++ ps) (vs ++ qs) e in
    let (more, left) = equal_parts us vs ps qs (omega arith) rest in (ground arith, left)

variant_parts_inj :
    (us vs : Variants) (ps qs : List Bytes)
    → begins (codes "var") ps ≡ false
    → begins (codes "var") qs ≡ false
    → variant_parts us ++ ps ≡ variant_parts vs ++ qs
    → (us ≡ vs) × (ps ≡ qs)
variant_parts_inj [] [] ps qs h k e = (refl, e)
variant_parts_inj [] ((n, vals) ∷ vs) ps qs h k e = absurd (clash (codes "var") _ ps h (sym e))
variant_parts_inj ((m, ws) ∷ us) [] ps qs h k e = absurd (clash (codes "var") _ qs k e)
variant_parts_inj ((m, ws) ∷ us) ((n, vals) ∷ vs) ps qs h k e =
    let (_, named) = part_inj (codes "var") (codes "var") _ _ e in
    let (name, counted) = part_inj m n _ _ named in
    let (count, listed) = part_inj (decimal (length ws)) (decimal (length vals)) _ _ counted in
    let flat =
      sym (append_assoc ws (variant_parts us) ps)
      ∙ listed
      ∙ append_assoc vals (variant_parts vs) qs in
    let (values, others) =
      equal_parts ws vals (variant_parts us ++ ps) (variant_parts vs ++ qs)
        (decimal_inj (length ws) (length vals) count) flat in
    let (rest, left) = variant_parts_inj us vs ps qs h k others in (ground arith, left)

dep_parts_inj :
    (ds es : List Dep) (ps qs : List Bytes)
    → begins (codes "dep") ps ≡ false
    → begins (codes "dep") qs ≡ false
    → dep_parts ds ++ ps ≡ dep_parts es ++ qs
    → (ds ≡ es) × (ps ≡ qs)
dep_parts_inj [] [] ps qs h k e = (refl, e)
dep_parts_inj [] (d ∷ es) ps qs h k e = absurd (clash (codes "dep") _ ps h (sym e))
dep_parts_inj (d ∷ ds) [] ps qs h k e = absurd (clash (codes "dep") _ qs k e)
dep_parts_inj (d ∷ ds) (c ∷ es) ps qs h k e =
    let (_, first) = part_inj (codes "dep") (codes "dep") _ _ e in
    let (project, second) = part_inj d.project c.project _ _ first in
    let (version, third) = part_inj d.version c.version _ _ second in
    let (hash, others) = part_inj d.hash c.hash _ _ third in
    let (rest, left) = dep_parts_inj ds es ps qs h k others in
    let same : d ≡ c = λ i. record { project = project i; version = version i; hash = hash i } in
    (ground arith, left)

begins-unless_empty :
    (k key s : Bytes) (ps : List Bytes)
    → bytes_eq k key ≡ false
    → begins k ps ≡ false
    → begins k (unless_empty key s ++ ps) ≡ false
begins-unless_empty k key [] ps h e = e
begins-unless_empty k key (c ∷ s) ps h e = h

begins-variant_parts :
    (k : Bytes) (vs : Variants) (ps : List Bytes)
    → bytes_eq k (codes "var") ≡ false
    → begins k ps ≡ false
    → begins k (variant_parts vs ++ ps) ≡ false
begins-variant_parts k [] ps h e = e
begins-variant_parts k ((n, vals) ∷ vs) ps h e = h

begins-dep_parts :
    (k : Bytes) (ds : List Dep) (ps : List Bytes)
    → bytes_eq k (codes "dep") ≡ false
    → begins k ps ≡ false
    → begins k (dep_parts ds ++ ps) ≡ false
begins-dep_parts k [] ps h e = e
begins-dep_parts k (d ∷ ds) ps h e = h

-- What a spec's parts begin with, behind each field.
module _ (c : Concrete) where
  abbrev end_parts : List Bytes
  end_parts = unless_empty (codes "graft") c.graft

  abbrev recipe_parts : List Bytes
  recipe_parts = unless_empty (codes "recipe") c.recipe ++ end_parts

  abbrev from_deps : List Bytes
  from_deps = dep_parts (sorted_deps c.deps) ++ recipe_parts

  abbrev from_variants : List Bytes
  from_variants = variant_parts (sorted_variants c.variants) ++ from_deps

  begins_end : (k : Bytes) → bytes_eq k (codes "graft") ≡ false → begins k end_parts ≡ false
  begins_end k h = rw append-nil at (begins-unless_empty k (codes "graft") c.graft [] h refl)

  not-recipe : begins (codes "recipe") end_parts ≡ false
  unfolding bytes_eq
  not-recipe = begins_end (codes "recipe") refl

  not-dep : begins (codes "dep") recipe_parts ≡ false
  unfolding bytes_eq
  not-dep =
      begins-unless_empty (codes "dep") (codes "recipe") c.recipe end_parts refl
        (begins_end (codes "dep") refl)

  not-var : begins (codes "var") from_deps ≡ false
  unfolding bytes_eq
  not-var = begins-dep_parts (codes "var") (sorted_deps c.deps) recipe_parts refl (
      begins-unless_empty (codes "var") (codes "recipe") c.recipe end_parts refl
        (begins_end (codes "var") refl))

  not-platform : begins (codes "platform") from_variants ≡ false
  unfolding bytes_eq
  not-platform =
      begins-variant_parts (codes "platform") (sorted_variants c.variants) from_deps refl (
        begins-dep_parts (codes "platform") (sorted_deps c.deps) recipe_parts refl (
          begins-unless_empty (codes "platform") (codes "recipe") c.recipe end_parts refl
            (begins_end (codes "platform") refl)))

-- Two specs record the same build: the same platform, recipe and graft, and the same variants and
-- dependencies once they are put in order.
pub record IsSameBuild (c d : Concrete) : Type 0 where
  pub platform : c.platform ≡ d.platform
  pub variants : sorted_variants c.variants ≡ sorted_variants d.variants
  pub deps : sorted_deps c.deps ≡ sorted_deps d.deps
  pub recipe : c.recipe ≡ d.recipe
  pub graft : c.graft ≡ d.graft

normal_parts_inj : (c d : Concrete) → normal_parts c ≡ normal_parts d → IsSameBuild c d
normal_parts_inj c d e =
    let (platform, e1) =
      unless_empty_inj (codes "platform") c.platform d.platform (from_variants c) (from_variants d)
        (not-platform c) (not-platform d) e in
    let (variants, e2) =
      variant_parts_inj (sorted_variants c.variants) (sorted_variants d.variants) (from_deps c)
        (from_deps d) (not-var c) (not-var d) e1 in
    let (deps, e3) =
      dep_parts_inj (sorted_deps c.deps) (sorted_deps d.deps) (recipe_parts c) (recipe_parts d)
        (not-dep c) (not-dep d) e2 in
    let (recipe, e4) =
      unless_empty_inj (codes "recipe") c.recipe d.recipe (end_parts c) (end_parts d) (not-recipe c)
        (not-recipe d) e3 in
    let (graft, _) =
      unless_empty_inj (codes "graft") c.graft d.graft [] [] refl refl
        (append-nil (end_parts c) ∙ e4 ∙ sym (append-nil (end_parts d))) in
    record { platform = platform; variants = variants; deps = deps; recipe = recipe; graft = graft }

lead_inj : (s t : Bytes) → codes "v1" ++ s ≡ codes "v1" ++ t → s ≡ t
lead_inj s t e = ap behind_lead e
  where
    behind_lead : Bytes → Bytes
    behind_lead (a ∷ b ∷ s) = s
    behind_lead _ = []

-- `Canonical` gives two specs one text exactly when they record the same build: the same platform,
-- recipe and graft, and the same variants and dependencies once they are put in order; whatever bytes
-- the fields hold.
pub canonical_exact : (c d : Concrete) → (canonical c ≡ canonical d) ↔ IsSameBuild c d
canonical_exact c d = (
  λ e. normal_parts_inj c d (
      field_inj (normal_parts c) (normal_parts d) (
        lead_inj (field (normal_parts c)) (field (normal_parts d))
          (sym (canonical_parts c) ∙ e ∙ canonical_parts d))),
  λ same.
      canonical_parts c
      ∙ (λ i.
          codes "v1"
          ++ field (
              parts (same.platform i) (same.variants i) (same.deps i) (same.recipe i)
                (same.graft i)))
      ∙ sym (canonical_parts d),
)
