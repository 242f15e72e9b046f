-- ===== src/Recipe/Reduced.antt =====
-- pkgx.go: which constraint a project gets, where a recipe names it for a platform as well.
use bottle.Common.{
  List, [], ◌≡◌, inl, inr, refl, sym, ap, ◌∙◌, subst, true, false, none, some, arith,
}
use bottle.Common.Dict.{get_or, set, get_or-set}
use bottle.Common.Tests.{Bool-cases, if◌then◌else◌}
use bottle.Common.Text.{Bytes, codes, bytes_eq, bytes_eq→eq}
use bottle.Common.{◌++◌}
use bottle.Recipe.{
  Node, Fields, no_fields, more_fields, find, constraint_text, is_platform_key, take_top,
  take_block, block_of, reduce_deps,
}
use bottle.Recipe.Merged.{IsKeyed}

-- The constraint that a mapping has for a project, or `d`.
unfoldable pub constraint_in : Bytes → Fields → (d : Bytes) → Bytes
constraint_in k m d = elim (find k m) [ none ↦ d | some v ↦ constraint_text v ]

constraint_in_here :
    (k j : Bytes) (v : Node) (m : Fields) (d : Bytes)
    → bytes_eq k j ≡ true
    → constraint_in k (more_fields j v m) d ≡ constraint_text v
unfolding constraint_in find
constraint_in_here k j v m d h = ground arith

constraint_in_other :
    (k j : Bytes) (v : Node) (m : Fields) (d : Bytes)
    → bytes_eq k j ≡ false
    → constraint_in k (more_fields j v m) d ≡ constraint_in k m d
unfolding constraint_in find
constraint_in_other k j v m d h = ground arith

constraint_in_gone :
    (k j : Bytes) (m : Fields) (d : Bytes)
    → bytes_eq k j ≡ true
    → find j m ≡ none
    → constraint_in k m d ≡ d
unfolding constraint_in
constraint_in_gone k j m d h gone =
    let same : find k m ≡ none = ap (λ i. find i m) (bytes_eq→eq k j h) ∙ gone in ground arith

get_or-take_block :
    (k d : Bytes) (m : Fields) (out : List (Bytes × Bytes))
    → IsKeyed m
    → get_or k (take_block m out) d ≡ constraint_in k m (get_or k out d)
unfolding take_block
get_or-take_block k d no_fields out h = unfold constraint_in find in refl
get_or-take_block k d (more_fields j v m) out (once, h) =
    let rest = get_or-take_block k d m (set j (constraint_text v) out) h in
    let there = get_or-set j k (constraint_text v) d out in
    elim (Bool-cases (bytes_eq k j)) [
      | inl same ↦
          rest
          ∙ (constraint_in_gone k j m (get_or k (set j (constraint_text v) out) d) same once
              ∙ (ground (arith, there) ∙ sym (constraint_in_here k j v m (get_or k out d) same)))
      | inr other ↦
          let a : get_or k (set j (constraint_text v) out) d ≡ get_or k out d = ground arith in
          rest
          ∙ (ap (constraint_in k m) a ∙ sym (constraint_in_other k j v m (get_or k out d) other))
    ]

-- The fields at the top that are no platform's.
unfoldable pub top : Fields → Fields
top no_fields = no_fields
top (more_fields k v m) = elim (is_platform_key k) [
  | true ↦ top m
  | false ↦ more_fields k v (top m)
]

take_top-top : (m : Fields) (out : List (Bytes × Bytes)) → take_top m out ≡ take_block (top m) out
unfolding take_top take_block top
take_top-top no_fields out = refl
take_top-top (more_fields k v m) out = elim (Bool-cases (is_platform_key k)) [
  | inl h ↦ ground (arith, take_top-top m out)
  | inr h ↦ ground (arith, take_top-top m (set k (constraint_text v) out))
]

find-top :
    (k : Bytes) (m : Fields) → find k (top m) ≡ (if is_platform_key k then none else find k m)
unfolding find top
find-top k no_fields = ground arith
find-top k (more_fields j v m) = elim (Bool-cases (bytes_eq k j)) [
  | inl same ↦
      let e : is_platform_key k ≡ is_platform_key j = ap is_platform_key (bytes_eq→eq k j same) in
      ground (arith, find-top k m)
  | inr other ↦ ground (arith, find-top k m)
]

top-IsKeyed : (m : Fields) → IsKeyed m → IsKeyed (top m)
top-IsKeyed no_fields h = unfold top in tt
top-IsKeyed (more_fields k v m) (once, h) = elim (Bool-cases (is_platform_key k)) [
  | inl p ↦
      let same : top (more_fields k v m) ≡ top m = unfold top in (ground arith) in
      subst IsKeyed (sym same) (top-IsKeyed m h)
  | inr p ↦
      let same : top (more_fields k v m) ≡ more_fields k v (top m) = unfold top in (ground arith) in
      let gone : find k (top m) ≡ none = ground (arith, find-top k m) in
      subst IsKeyed (sym same) (gone, top-IsKeyed m h)
]

-- The constraint of a project that `reduce_deps` returns is that of the block of the exact platform,
-- where it names the project, or else that of the block of the operating system, or else that at the
-- top, whatever the order of the fields; a field at the top that is named like a platform is none.
pub get_or-reduce_deps :
    (k d : Bytes) (m : Fields) (osn arch : Bytes)
    → IsKeyed m
    → IsKeyed (block_of osn m)
    → IsKeyed (block_of (osn ++ (codes "/" ++ arch)) m)
    → get_or k (reduce_deps m osn arch) d
      ≡ constraint_in k
          (block_of (osn ++ (codes "/" ++ arch)) m)
          (constraint_in k (block_of osn m) (constraint_in k (top m) d))
unfolding reduce_deps get_or
get_or-reduce_deps k d m osn arch h h_os h_exact =
    let exact = block_of (osn ++ (codes "/" ++ arch)) m in
    let os = block_of osn m in
    get_or-take_block k d exact (take_block os (take_top m [])) h_exact
    ∙ ap (constraint_in k exact) (
        get_or-take_block k d os (take_top m []) h_os
        ∙ ap (constraint_in k os) (
            ap (λ out. get_or k out d) (take_top-top m [])
            ∙ get_or-take_block k d (top m) [] (top-IsKeyed m h)))
