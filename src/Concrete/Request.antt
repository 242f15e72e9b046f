-- ===== src/Concrete/Request.antt =====
-- concrete.go: what a request for variants asks for, and which build answers it.
pub mod Meaning
use bottle.Common.{List, [], ◌∷◌, ◌&&◌, ◌||◌, not, Bool, true, false, Option, none, some}
use bottle.Common.Dict.{mem_bytes}
use bottle.Common.Lists.{length, is_empty, all, keep_if}
use bottle.Common.Tests.{◌==◌, if◌then◌else◌}
use bottle.Common.Text.{Bytes, codes, bytes_eq, split_byte, is_digit, is_lower, is_upper}
use bottle.Concrete.{Variants}

-- The struct `VariantConstraint`.
pub record VariantConstraint : Type 0 where
  pub values : List Bytes
  pub exact : Bool
  pub propagate : Bool

-- The map `VariantConstraints`.
abbrev pub VariantConstraints : Type 0
VariantConstraints = List (Bytes × VariantConstraint)

-- `splitValues`.
unfoldable pub split_values : Bytes → List Bytes
unfolding split_byte
split_values raw = keep_if (λ v. not (is_empty v)) (split_byte b',' raw)

-- `have[name]`, with whether the name is there.
unfoldable pub find_values : Bytes → Variants → Option (List Bytes)
unfolding bytes_eq
find_values name [] = none
find_values name ((n, vals) ∷ have) = if bytes_eq name n then some vals else find_values name have

-- One round of the loop of `Satisfies`.
unfoldable pub answers : VariantConstraint → List Bytes → Bool
unfolding bytes_eq
answers c got =
    all (λ wanted. mem_bytes wanted got) c.values
    && not (c.exact && not (length got == length c.values))

-- `VariantConstraints.Satisfies`.
unfoldable pub satisfies_request : VariantConstraints → Variants → Bool
unfolding find_values answers
satisfies_request [] have = true
satisfies_request ((name, c) ∷ cs) have =
    let rest = satisfies_request cs have in
    elim (find_values name have) [ none ↦ false | some got ↦ answers c got && rest ]

-- `isLetter` and `isVariantName`.
abbrev pub are_name_bytes : Bytes → Bool
are_name_bytes s = all (λ c. is_lower c || is_upper c || is_digit c || c == b'_') s

unfoldable pub is_variant_name : Bytes → Bool
is_variant_name [] = false
is_variant_name (c ∷ s) = (is_lower c || is_upper c) && are_name_bytes (c ∷ s)

-- `Variants.Bool`: the value, where there is one and it is a boolean.
unfoldable pub variant_bool : Variants → Bytes → Option Bool
unfolding find_values
variant_bool v name = elim (find_values name v) [
  | none ↦ none
  | some [] ↦ none
  | some (w ∷ x ∷ more) ↦ none
  | some (w ∷ []) ↦
      if bytes_eq w (codes "true")
      then some true
      else if bytes_eq w (codes "false")
      then some false
      else none
]
