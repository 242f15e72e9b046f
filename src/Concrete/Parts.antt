-- ===== src/Concrete/Parts.antt =====
-- concrete.go: the parts that the canonical text is written from.
use bottle.Common.{List, [], ◌∷◌, ◌++◌, ◌≡◌, refl, sym}
use bottle.Common.Decimal.{decimal}
use bottle.Common.Lists.{length, is_empty}
use bottle.Common.Tests.{if◌then◌else◌}
use bottle.Common.Text.{Bytes, codes}
use bottle.Concrete.{
  Dep, Variants, Concrete, field, sorted_variants, sorted_deps, field_unless_empty, write_values,
  write_variants, write_deps, canonical,
}
use bottle.Concrete.Fields.{field-append}

-- The parts that are written, in order.
abbrev pub unless_empty : Bytes → Bytes → List Bytes
unless_empty key s = if is_empty s then [] else key ∷ s ∷ []

abbrev pub variant_parts : Variants → List Bytes
variant_parts [] = []
variant_parts ((n, vals) ∷ vs) =
    codes "var" ∷ n ∷ decimal (length vals) ∷ (vals ++ variant_parts vs)

abbrev pub dep_parts : List Dep → List Bytes
dep_parts [] = []
dep_parts (d ∷ ds) = codes "dep" ∷ d.project ∷ d.version ∷ d.hash ∷ dep_parts ds

abbrev pub parts : Bytes → Variants → List Dep → Bytes → Bytes → List Bytes
parts platform vs ds recipe graft =
    unless_empty (codes "platform") platform
    ++ (variant_parts vs
        ++ (dep_parts ds
            ++ (unless_empty (codes "recipe") recipe ++ unless_empty (codes "graft") graft)))

field_unless_empty_parts : (key s : Bytes) → field_unless_empty key s ≡ field (unless_empty key s)
field_unless_empty_parts key [] = unfold field in refl
field_unless_empty_parts key (c ∷ s) = refl

write_values_parts : (vals : List Bytes) → write_values vals ≡ field vals
write_values_parts [] = unfold field in refl
write_values_parts (v ∷ vals) = rw (write_values_parts vals) (sym (field-append (v ∷ []) vals))

write_variants_parts : (vs : Variants) → write_variants vs ≡ field (variant_parts vs)
write_variants_parts [] = unfold field in refl
write_variants_parts ((n, vals) ∷ vs) =
    let lead = codes "var" ∷ n ∷ decimal (length vals) ∷ [] in
    rw (write_values_parts vals, write_variants_parts vs, ← field-append vals (variant_parts vs))
      (sym (field-append (codes "var" ∷ n ∷ decimal (length vals) ∷ []) (vals ++ variant_parts vs)))

write_deps_parts : (ds : List Dep) → write_deps ds ≡ field (dep_parts ds)
write_deps_parts [] = unfold field in refl
write_deps_parts (d ∷ ds) =
    rw (write_deps_parts ds)
      (sym (field-append (codes "dep" ∷ d.project ∷ d.version ∷ d.hash ∷ []) (dep_parts ds)))

abbrev pub normal_parts : Concrete → List Bytes
normal_parts c = parts c.platform (sorted_variants c.variants) (sorted_deps c.deps) c.recipe c.graft

pub canonical_parts : (c : Concrete) → canonical c ≡ codes "v1" ++ field (normal_parts c)
unfolding canonical
canonical_parts c =
    let vs = sorted_variants c.variants in
    let ds = sorted_deps c.deps in
    let p = unless_empty (codes "platform") c.platform in
    let r = unless_empty (codes "recipe") c.recipe in
    let g = unless_empty (codes "graft") c.graft in
    rw
      (
        field_unless_empty_parts (codes "platform") c.platform,
        field_unless_empty_parts (codes "recipe") c.recipe,
        field_unless_empty_parts (codes "graft") c.graft,
        write_variants_parts vs,
        write_deps_parts ds,
        field-append p (variant_parts vs ++ (dep_parts ds ++ (r ++ g))),
        field-append (variant_parts vs) (dep_parts ds ++ (r ++ g)),
        field-append (dep_parts ds) (r ++ g),
        field-append r g,
      )
      refl
