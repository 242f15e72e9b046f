-- ===== src/Concrete.antt =====
-- concrete.go: what a build is made from, and the canonical text of it that is hashed.
pub mod Fields
pub mod Request
pub mod Parts
pub mod Canonical
use Prim.Native.Nat.{Ordering}
use bottle.Common.{ℕ, List, [], ◌∷◌, ◌++◌, ◌&&◌, Bool, true, false}
use bottle.Common.Decimal.{decimal}
use bottle.Common.Dict.{keys, get_or}
use bottle.Common.Lists.{length, is_empty}
use bottle.Common.Order.{or_else}
use bottle.Common.Sort.{sort_texts}
use bottle.Common.Tests.{if◌then◌else◌}
use bottle.Common.Text.{Bytes, codes, cmp_bytes}

-- The struct `Dep`.
pub record Dep : Type 0 where
  pub project : Bytes
  pub version : Bytes
  pub hash : Bytes

-- The map `Variants`, from a name to its values.
abbrev pub Variants : Type 0
Variants = List (Bytes × List Bytes)

-- The struct `Concrete`.
pub record Concrete : Type 0 where
  pub platform : Bytes
  pub variants : Variants
  pub deps : List Dep
  pub recipe : Bytes
  pub graft : Bytes

-- `canonSep`
abbrev pub canon_sep : ℕ
canon_sep = 0

-- `field`: what it writes.
unfoldable pub field : List Bytes → Bytes
unfolding decimal
field [] = []
field (p ∷ parts) = canon_sep ∷ (decimal (length p) ++ (b':' ∷ (p ++ field parts)))

-- The variants that the loop over the sorted names visits, each with its values in order.
sorted_values : Variants → List Bytes → Variants
sorted_values vs [] = []
sorted_values vs (n ∷ ns) = (n, sort_texts (get_or n vs [])) ∷ sorted_values vs ns

unfoldable pub sorted_variants : Variants → Variants
unfolding sort_texts sorted_values get_or
sorted_variants vs = sorted_values vs (sort_texts (keys vs))

-- The order of `deps`: by project, version and hash.
unfoldable pub cmp_dep : Dep → Dep → Ordering
unfolding cmp_bytes
cmp_dep a b =
    or_else (cmp_bytes a.project b.project)
      (or_else (cmp_bytes a.version b.version) (cmp_bytes a.hash b.hash))

insert_dep : Dep → List Dep → List Dep
unfolding cmp_dep
insert_dep d [] = d ∷ []
insert_dep d (e ∷ ds) =
    let rest = insert_dep d ds in elim (cmp_dep d e) [ Ordering.gt ↦ e ∷ rest | _ ↦ d ∷ e ∷ ds ]

-- `sort.Slice` on the dependencies, as an insertion sort.
unfoldable pub sorted_deps : List Dep → List Dep
unfolding insert_dep
sorted_deps [] = []
sorted_deps (d ∷ ds) = insert_dep d (sorted_deps ds)

-- `if s != "" { field(&b, key, s) }`
abbrev pub field_unless_empty : Bytes → Bytes → Bytes
field_unless_empty key s = if is_empty s then [] else field (key ∷ s ∷ [])

-- The loop over the values of a variant.
abbrev pub write_values : List Bytes → Bytes
write_values [] = []
write_values (v ∷ vals) = field (v ∷ []) ++ write_values vals

-- The loop over the variants.
abbrev pub write_variants : Variants → Bytes
write_variants [] = []
write_variants ((n, vals) ∷ vs) =
    field (codes "var" ∷ n ∷ decimal (length vals) ∷ []) ++ (write_values vals ++ write_variants vs)

-- The loop over the dependencies.
abbrev pub write_deps : List Dep → Bytes
write_deps [] = []
write_deps (d ∷ ds) = field (codes "dep" ∷ d.project ∷ d.version ∷ d.hash ∷ []) ++ write_deps ds

-- `Concrete.Canonical`.
unfoldable pub canonical : Concrete → Bytes
unfolding field sorted_variants sorted_deps
canonical c =
    codes "v1"
    ++ (field_unless_empty (codes "platform") c.platform
        ++ (write_variants (sorted_variants c.variants)
            ++ (write_deps (sorted_deps c.deps)
                ++ (field_unless_empty (codes "recipe") c.recipe
                    ++ field_unless_empty (codes "graft") c.graft))))

-- `Concrete.IsZero`.
abbrev pub is_zero_spec : Concrete → Bool
is_zero_spec c =
    is_empty c.platform
    && is_empty c.variants
    && is_empty c.deps
    && is_empty c.recipe
    && is_empty c.graft
