-- ===== src/Tag.antt =====
-- The registry's tags: glibc.go (`SplitFlavor`), concrete.go (`SplitVariantHash`) and pkgx.go (the
-- identity of a version, and which tags of a listing become versions).
pub mod Keys
pub mod Zeros
pub mod Numbers
pub mod Sorted
use Prim.Native.Nat.{Ordering}
use bottle.Common.{
  ℕ, suc, ◌+◌, ◌-◌, List, [], ◌∷◌, ◌++◌, ◌||◌, ◌&&◌, not, Bool, true, false, Option, none, some,
  map,
}
use bottle.Common.Decimal.{itoa}
use bottle.Common.Dict.{mem_bytes}
use bottle.Common.Int.{ℤ, is_zero}
use bottle.Common.Lists.{length, all, is_empty, keep_if}
use bottle.Common.Tests.{ltb, leb, ◌==◌, if◌then◌else◌}
use bottle.Common.Text.{
  Bytes, codes, bytes_eq, cmp_bytes, join, last_cut, trim_prefix, is_digit, is_lower,
}
use mathlib.Core.List.{reverse}
use bottle.Version.{Ver, tag, parse_ver, cmp_ver}
use bottle.VersionString.{validate_version_string}

abbrev pub variant_sep : Bytes
variant_sep = codes "-h"

abbrev pub glibc_flavor_sep : Bytes
glibc_flavor_sep = codes "-glibc"

abbrev pub hash_len : ℕ
hash_len = 16

-- `SplitFlavor`.
unfoldable pub split_flavor : Bytes → Bytes × Bytes
unfolding last_cut
split_flavor t = elim (last_cut glibc_flavor_sep t) [
  | none ↦ (t, [])
  | some (version, glibc) ↦ if is_empty version then (t, []) else (version, glibc)
]

abbrev pub is_hash_byte : ℕ → Bool
is_hash_byte c = is_lower c || (leb b'2' c && leb c b'7')

-- `isVariantHash`.
unfoldable pub is_variant_hash : Bytes → Bool
is_variant_hash s = if length s == hash_len then all is_hash_byte s else false

-- `SplitVariantHash`.
unfoldable pub split_variant_hash : Bytes → Bytes × Bytes
unfolding last_cut is_variant_hash
split_variant_hash t = elim (last_cut variant_sep t) [
  | none ↦ (t, [])
  | some (version, h) ↦
      if is_empty version || not (is_variant_hash h) then (t, []) else (version, h)
]

-- `isVersionTag`.
unfoldable pub is_version_tag : Bytes → Bool
unfolding validate_version_string trim_prefix
is_version_tag t = elim (validate_version_string t) [
  | some _ ↦ false
  | none ↦ elim (trim_prefix (codes "V") (trim_prefix (codes "v") t)) [
    | [] ↦ false
    | c ∷ _ ↦ is_digit c
  ]
]

-- Zeros at the end of a list go.
unfoldable pub drop_zeros : List ℤ → List ℤ
drop_zeros [] = []
drop_zeros (x ∷ xs) = elim (drop_zeros xs) [
  | [] ↦ if is_zero x then [] else x ∷ []
  | y ∷ ys ↦ x ∷ y ∷ ys
]

-- `v.Nums[:n]` behind the loop `for n > 1 && v.Nums[n-1] == 0`: the first component stays.
unfoldable pub trim_zeros : List ℤ → List ℤ
unfolding drop_zeros
trim_zeros [] = []
trim_zeros (x ∷ xs) = x ∷ drop_zeros xs

-- `numericKey`.
unfoldable pub numeric_key : Ver → Bytes
unfolding trim_zeros join itoa
numeric_key v =
    join (codes ".") (map itoa (trim_zeros v.nums))
    ++ ((if is_zero v.rebuild then [] else codes "_" ++ itoa v.rebuild)
        ++ (if is_empty v.variant then [] else variant_sep ++ v.variant))

-- `supersedes`.
unfoldable pub supersedes : Ver → Ver → Bytes → Bool
unfolding cmp_bytes
supersedes v prev flavor =
    if not (is_empty prev.found_tag)
    then false
    else if not (is_empty flavor)
    then true
    else if not (length v.nums == length prev.nums)
    then ltb (length prev.nums) (length v.nums)
    else elim (cmp_bytes v.raw prev.raw) [ Ordering.gt ↦ true | _ ↦ false ]

-- The map `byVersion`, its keys in the order in which they were first stored.
abbrev pub ByVersion : Type 0
ByVersion = List (Bytes × Ver)

unfoldable pub held : Bytes → ByVersion → Option Ver
unfolding bytes_eq
held key [] = none
held key ((k, v) ∷ m) = if bytes_eq key k then some v else held key m

unfoldable pub store : Bytes → Ver → ByVersion → ByVersion
unfolding bytes_eq
store key v [] = (key, v) ∷ []
store key v ((k, w) ∷ m) = if bytes_eq key k then (k, v) ∷ m else (k, w) ∷ store key v m

-- The version and the flavor that a tag stands for, before `Tag` is set.
unfoldable pub read_tag : Bytes → Ver × Bytes
unfolding split_flavor split_variant_hash parse_ver
read_tag t =
    let (unflavored, flavor) = split_flavor t in
    let (ver, variant) = split_variant_hash unflavored in
    (record (parse_ver ver) { variant = variant }, flavor)

-- What is stored for a tag: `Tag` is set if a suffix was cut off.
unfoldable pub keep_tag : Bytes → Ver → Bytes → Ver
keep_tag t v flavor =
    if not (is_empty flavor) || not (is_empty v.variant) then record v { found_tag = t } else v

-- The body of the loop of `selectVersions`.
unfoldable pub visit_tag : Bytes → ByVersion → Bytes → ByVersion
visit_tag want_flavor m t =
    let (v, flavor) = read_tag t in
    let stored = store (numeric_key v) (keep_tag t v flavor) m in
    if not (is_version_tag t)
    then m
    else if not (is_empty flavor) && not (bytes_eq flavor want_flavor)
    then m
    else elim (held (numeric_key v) m) [
      | none ↦ stored
      | some prev ↦ if supersedes v prev flavor then stored else m
    ]

unfoldable pub visit_tags : Bytes → ByVersion → List Bytes → ByVersion
unfolding visit_tag
visit_tags want_flavor m [] = m
visit_tags want_flavor m (t ∷ ts) = visit_tags want_flavor (visit_tag want_flavor m t) ts

-- `sort.Slice` by `cmpVer(vs[i], vs[j]) < 0`, as an insertion sort.
unfoldable pub insert_ver : Ver → List Ver → List Ver
unfolding cmp_ver
insert_ver v [] = v ∷ []
insert_ver v (w ∷ ws) =
    let rest = insert_ver v ws in elim (cmp_ver v w) [ Ordering.gt ↦ w ∷ rest | _ ↦ v ∷ w ∷ ws ]

unfoldable pub sort_vers : List Ver → List Ver
unfolding insert_ver
sort_vers [] = []
sort_vers (v ∷ vs) = insert_ver v (sort_vers vs)

-- `selectVersions`.
unfoldable pub select_versions : List Bytes → Bytes → List Ver
unfolding visit_tags sort_vers is_version_tag read_tag numeric_key held supersedes store keep_tag
    bytes_eq
select_versions tags want_flavor = sort_vers (map (λ e. e.1) (visit_tags want_flavor [] tags))

-- `allZero`.
abbrev pub all_zero : List ℤ → Bool
all_zero nums = all is_zero nums

-- The inner loop of `tagSpellings`: a candidate that is already there is passed over.
unfoldable pub add_spelling : List Bytes → Bytes → List Bytes
unfolding bytes_eq
add_spelling out cand = if mem_bytes cand out then out else out ++ cand ∷ []

-- One round of the outer loop, on `nums[:n]` and `nums[n:]`.
unfoldable pub spell_prefix : List ℤ → List ℤ → List Bytes → List Bytes
unfolding add_spelling join itoa
spell_prefix front dropped out =
    if all_zero dropped
    then (let spelled = join (codes ".") (map itoa front) in
        add_spelling (add_spelling out spelled) (spelled ++ codes ".0"))
    else out

-- The outer loop: `front` is `nums[:n]` backwards.
unfoldable pub spell_prefixes : List ℤ → List ℤ → List Bytes → List Bytes
unfolding spell_prefix
spell_prefixes [] dropped out = out
spell_prefixes (x ∷ front) dropped out =
    spell_prefixes front (x ∷ dropped) (spell_prefix (reverse (x ∷ front)) dropped out)

-- `tagSpellings`.
unfoldable pub tag_spellings : Ver → List Bytes
unfolding tag spell_prefixes
tag_spellings v =
    if not (is_empty v.found_tag) || not (is_zero v.rebuild)
    then tag v ∷ []
    else spell_prefixes (reverse v.nums) [] (tag v ∷ [])
