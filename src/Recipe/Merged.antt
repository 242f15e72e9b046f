-- ===== src/Recipe/Merged.antt =====
-- pkgx.go: what a recipe says of a field, where an overlay is laid over it.
use bottle.Common.{◌≡◌, inl, inr, refl, sym, ap, ◌∙◌, true, false, Option, none, some, arith}
use bottle.Common.Tests.{Bool-cases, Option-cases, if◌then◌else◌}
use bottle.Common.Text.{Bytes, bytes_eq, bytes_eq→eq, eq→bytes_eq}
use bottle.Recipe.{
  Node, nothing, text, scalar, sequence, mapping, Fields, no_fields, more_fields, find, put,
  as_mapping, merge_into, merge_recipe,
}

-- No key stands twice.
abbrev pub IsKeyed : Fields → Type 0
IsKeyed no_fields = Unit
IsKeyed (more_fields k v m) = (find k m ≡ none) × IsKeyed m

-- The value of a field that both sides have: mappings are merged, and any other value is replaced.
abbrev pub joined : Option Node → Node → Node
joined b nothing = nothing
joined b (text s) = text s
joined b (scalar s) = scalar s
joined b (sequence ns) = sequence ns
joined b (mapping om) = elim (as_mapping b) [
  | none ↦ mapping om
  | some bm ↦ mapping (merge_recipe bm om)
]

-- The value of a field of the recipe, by what each side has.
abbrev pub overlaid : Option Node → Option Node → Option Node
overlaid b none = b
overlaid b (some v) = some (joined b v)

find-put :
    (k j : Bytes) (v : Node) (m : Fields)
    → find k (put j v m) ≡ (if bytes_eq k j then some v else find k m)
unfolding find put
find-put k j v no_fields = refl
find-put k j v (more_fields i w m) = ground (
  arith,
  find-put k j v m,
  bytes_eq→eq j i,
  eq→bytes_eq j i,
  bytes_eq→eq k i,
  eq→bytes_eq k i,
  bytes_eq→eq k j,
  eq→bytes_eq k j,
)

merge_into_step :
    (k : Bytes) (v : Node) (out m : Fields)
    → merge_into out (more_fields k v m) ≡ merge_into (put k (joined (find k out) v) out) m
unfolding merge_into merge_recipe
merge_into_step k nothing out m = refl
merge_into_step k (text s) out m = refl
merge_into_step k (scalar s) out m = refl
merge_into_step k (sequence ns) out m = refl
merge_into_step k (mapping om) out m = elim (Option-cases (as_mapping (find k out))) [
  | inl h ↦ ground arith
  | inr (bm, h) ↦ ground arith
]

find_other :
    (k j : Bytes) (v : Node) (m : Fields)
    → bytes_eq k j ≡ false
    → find k (more_fields j v m) ≡ find k m
unfolding find
find_other k j v m h = ground arith

find_here :
    (k j : Bytes) (v : Node) (m : Fields)
    → bytes_eq k j ≡ true
    → find k (more_fields j v m) ≡ some v
unfolding find
find_here k j v m h = ground arith

find-merge_into :
    (k : Bytes) (out over : Fields)
    → IsKeyed over
    → find k (merge_into out over) ≡ overlaid (find k out) (find k over)
find-merge_into k out no_fields h = unfold merge_into find in refl
find-merge_into k out (more_fields j v m) (once, h) =
    let w = joined (find j out) v in
    let rest = find-merge_into k (put j w out) m h in
    let there = find-put k j w out in
    ap (find k) (merge_into_step j v out m)
    ∙ (rest ∙ elim (Bool-cases (bytes_eq k j)) [
      | inr other ↦
          let a : find k (put j w out) ≡ find k out = ground arith in
          ap (λ b. overlaid b (find k m)) a
          ∙ ap (overlaid (find k out)) (sym (find_other k j v m other))
      | inl same ↦
          let a : find k (put j w out) ≡ some w = ground arith in
          let e : k ≡ j = bytes_eq→eq k j same in
          let gone : find k m ≡ none = ap (λ i. find i m) e ∙ once in
          ap (λ b. overlaid b (find k m)) a
          ∙ (ap (overlaid (some w)) gone
              ∙ (ap (λ i. some (joined (find i out) v)) (sym e)
                  ∙ ap (overlaid (find k out)) (sym (find_here k j v m same))))
    ])

-- A field of a merged recipe is the overlay's, where the overlay has it and one of the two is no
-- mapping; where both are mappings it is the two merged, by the same rule; and where the overlay does
-- not have the field it is what the pantry's recipe says, if anything.
pub find-merge_recipe :
    (k : Bytes) (base over : Fields)
    → IsKeyed over
    → find k (merge_recipe base over) ≡ overlaid (find k base) (find k over)
unfolding merge_recipe
find-merge_recipe k base over h = find-merge_into k base over h
