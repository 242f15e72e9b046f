-- ===== src/Tests/Recipe.antt =====
-- A recipe that names a dependency at the top and for a platform, with an overlay.
use bottle.Common.{[], ◌≡◌, refl}
use bottle.Common.Dict.{get_or}
use bottle.Common.Text.{Bytes, codes, bytes_eq}
use bottle.Recipe.{
  text, mapping, Fields, no_fields, more_fields, block_of, find, merge_recipe, reduce_deps,
}
use bottle.Recipe.Merged.{overlaid, find-merge_recipe}
use bottle.Recipe.Reduced.{constraint_in, top, get_or-reduce_deps}

abbrev for_linux : Fields
for_linux = more_fields (codes "unicode.org") (text (codes "~71")) no_fields

abbrev qt : Fields
qt = more_fields (codes "linux") (mapping for_linux) (
    more_fields (codes "unicode.org") (text (codes "^71"))
      (more_fields (codes "zlib.net") (text (codes "^1")) no_fields))

abbrev overlay : Fields
overlay =
    more_fields (codes "zlib.net") (text (codes "*"))
      (more_fields (codes "linux") (mapping qt) no_fields)

abbrev unicode_constraint : Bytes
unicode_constraint =
    get_or (codes "unicode.org") (reduce_deps qt (codes "linux") (codes "x86-64")) []

get_or-reduce_deps_example :
    unicode_constraint
    ≡ constraint_in (codes "unicode.org") (block_of (codes "linux/x86-64") qt) (
        constraint_in
          (codes "unicode.org")
          (block_of (codes "linux") qt)
          (constraint_in (codes "unicode.org") (top qt) []))
unfolding find bytes_eq
get_or-reduce_deps_example =
    get_or-reduce_deps (codes "unicode.org") [] qt (codes "linux") (codes "x86-64")
      (refl, (refl, (refl, tt))) (refl, tt) tt

find-merge_recipe_example :
    find (codes "zlib.net") (merge_recipe qt overlay)
    ≡ overlaid (find (codes "zlib.net") qt) (find (codes "zlib.net") overlay)
unfolding find bytes_eq
find-merge_recipe_example = find-merge_recipe (codes "zlib.net") qt overlay (refl, (refl, tt))
