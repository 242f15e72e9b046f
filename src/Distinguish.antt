-- ===== src/Distinguish.antt =====
-- distinguish.go: what tells the builds of one version apart.
use bottle.Common.{List, [], ◌∷◌, ◌++◌, ◌&&◌, not, Bool, true, false, Option, none, some, map}
use bottle.Common.Dict.{mem_bytes, keys, get_or}
use bottle.Common.Lists.{any, is_empty, keep_if, take}
use bottle.Common.Sort.{sort_texts}
use bottle.Common.Tests.{if◌then◌else◌}
use bottle.Common.Text.{Bytes, codes, bytes_eq, join}
use bottle.Builds.Withdrawn.{short_hash_prefix}
use bottle.Concrete.{Concrete, Dep, is_zero_spec}

-- `depEdge`.
abbrev pub dep_edge : List Dep → Bytes → Bytes
dep_edge [] project = []
dep_edge (d ∷ ds) project =
    let rest = dep_edge ds project in
    if bytes_eq d.project project then d.version ++ (codes " " ++ d.hash) else rest

-- The keys that were seen, each once.
abbrev pub add_seen : List Bytes → List Bytes → List Bytes
add_seen seen [] = seen
add_seen seen (k ∷ ks) = elim (mem_bytes k seen) [
  | true ↦ add_seen seen ks
  | false ↦ add_seen (k ∷ seen) ks
]

-- The loops that fill `seen`.
abbrev pub seen_in : (Concrete → List Bytes) → List Bytes → List Concrete → List Bytes
seen_in names seen [] = seen
seen_in names seen (c ∷ cs) = seen_in names (add_seen seen (names c)) cs

-- Whether a text is not the same in every spec: `differs`, and the inner loops with `want` and `set`.
abbrev pub differs : (Concrete → Bytes) → List Concrete → Bool
differs of [] = false
differs of (c ∷ cs) = any (λ d. not (bytes_eq (of d) (of c))) cs

abbrev pub dep_names : Concrete → List Bytes
dep_names c = map (λ (d : Dep). d.project) c.deps

abbrev pub variant_names : Concrete → List Bytes
variant_names c = keys c.variants

abbrev pub variant_text : Bytes → Concrete → Bytes
variant_text n c = join (codes ",") (sort_texts (get_or n c.variants []))

-- `differingDeps`.
unfoldable pub differing_deps : List Concrete → List Bytes
differing_deps specs =
    sort_texts (keep_if (λ p. differs (λ c. dep_edge c.deps p) specs) (seen_in dep_names [] specs))

-- `differingVariants`.
unfoldable pub differing_variants : List Concrete → List Bytes
differing_variants specs =
    sort_texts (keep_if (λ n. differs (variant_text n) specs) (seen_in variant_names [] specs))

-- `shortDigest`: behind the first colon, eight bytes at most.
abbrev pub behind_colon : Bytes → Option Bytes
behind_colon [] = none
behind_colon (c ∷ s) =
    let rest = behind_colon s in if bytes_eq (c ∷ []) (codes ":") then some s else rest

abbrev pub short_digest : Bytes → Bytes
short_digest d = take 8 (elim (behind_colon d) [ none ↦ d | some s ↦ s ])

-- `renderDep`.
abbrev pub render_dep : Bytes → List Dep → Bytes
render_dep project [] = codes "no " ++ project
render_dep project (d ∷ ds) =
    let rest = render_dep project ds in
    if not (bytes_eq d.project project)
    then rest
    else if is_empty d.hash
    then project ++ (codes " " ++ d.version)
    else project ++ (codes " " ++ (d.version ++ (codes "/" ++ short_hash_prefix d.hash)))

abbrev pub render_sorted : Bytes → List Bytes → Bytes
render_sorted name [] = codes "~" ++ name
render_sorted name (v ∷ []) =
    if bytes_eq v (codes "true")
    then codes "+" ++ name
    else if bytes_eq v (codes "false")
    then codes "~" ++ name
    else name ++ (codes "=" ++ v)
render_sorted name (v ∷ w ∷ vs) = name ++ (codes "=" ++ join (codes ",") (v ∷ w ∷ vs))

-- `renderVariant`.
abbrev pub render_variant : Bytes → List Bytes → Bytes
render_variant name vals = render_sorted name (sort_texts vals)

-- The parts of a row but the recipe.
unfoldable pub parts_of : List Concrete → Concrete → List Bytes
parts_of specs c =
    (if differs (λ d. d.platform) specs then c.platform ∷ [] else [])
    ++ (map (λ n. render_variant n (get_or n c.variants [])) (differing_variants specs)
        ++ (map (λ p. render_dep p c.deps) (differing_deps specs)
            ++ (if differs (λ d. d.graft) specs
                then (if is_empty c.graft
                    then codes "not grafted"
                    else codes "grafted from " ++ c.graft)
                  ∷ []
                else [])))

abbrev pub row_of : List Concrete → Concrete → Bytes
row_of specs c =
    if is_zero_spec c
    then []
    else if is_empty (parts_of specs c) && differs (λ d. d.recipe) specs
    then codes "built from a different recipe (" ++ (short_digest c.recipe ++ codes ")")
    else join (codes " ") (parts_of specs c)

-- `Distinguish`.
unfoldable pub distinguish : List Concrete → List Bytes
distinguish specs = map (row_of specs) specs
