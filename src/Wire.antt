-- ===== src/Wire.antt =====
-- concretewire.go: the text of a spec that is published beside a build.
pub mod Back
use bottle.Common.{ℕ, List, [], ◌∷◌, ◌&&◌, Bool, true, false, Option, none, some}
use bottle.Common.Int.{ℤ, pos, cmp_int}
use bottle.Common.Lists.{is_empty, take}
use bottle.Common.Result.{Result, ok, err}
use bottle.Common.Tests.{if◌then◌else◌}
use bottle.Common.Text.{Bytes, bytes_eq}
use bottle.Concrete.{Concrete, Dep, Variants, canonical, is_zero_spec}
use bottle.Tag.{hash_len, split_variant_hash}
use Prim.Native.Nat.{Ordering}

-- The struct `specJSON`, with `depJSON` as `Dep`.
pub record SpecJson : Type 0 where
  pub v : ℤ
  pub platform : Bytes
  pub variants : Variants
  pub deps : List Dep
  pub recipe : Bytes
  pub graft : Bytes

-- `json.Marshal` and `json.Unmarshal` on a `specJSON`, and the text of the sum that `Hash` takes.
pub record Coding : Type 0 where
  pub encode : SpecJson → Bytes
  pub decode : Bytes → Option SpecJson
  pub digest : Bytes → Bytes

abbrev pub spec_version : ℕ
spec_version = 1

-- What `MarshalSpec` makes of a spec.
abbrev pub spec_json : Concrete → SpecJson
spec_json c = record {
  v = pos spec_version;
  platform = c.platform;
  variants = c.variants;
  deps = c.deps;
  recipe = c.recipe;
  graft = c.graft;
}

-- The errors of `VerifySpec`.
pub data SpecError : Type 0 where
  not_json : SpecError
  newer_version : ℤ → SpecError
  mismatch : (got : Bytes) → SpecError

module _ (coding : Coding) where
  -- `Concrete.Hash`.
  unfoldable pub spec_hash : Concrete → Bytes
  spec_hash c = if is_zero_spec c then [] else take hash_len (coding.digest (canonical c))

  -- `MarshalSpec`.
  unfoldable pub marshal_spec : Concrete → Bytes
  marshal_spec c = coding.encode (spec_json c)

  -- `UnmarshalSpec`.
  unfoldable pub unmarshal_spec : Bytes → Result SpecError Concrete
  unmarshal_spec s = elim (coding.decode s) [
    | none ↦ err not_json
    | some j ↦ elim (cmp_int j.v (pos spec_version)) [
      | Ordering.gt ↦ err (newer_version j.v)
      | _ ↦ ok (record {
        platform = j.platform;
        variants = j.variants;
        deps = j.deps;
        recipe = j.recipe;
        graft = j.graft;
      })
    ]
  ]

  -- `VerifySpec`.
  unfoldable pub verify_spec : (annotation want_hash : Bytes) → Result SpecError Concrete
  verify_spec annotation want_hash = elim (unmarshal_spec annotation) [
    | err e ↦ err e
    | ok c ↦
        if is_empty want_hash
        then ok c
        else if bytes_eq (spec_hash c) want_hash
        then ok c
        else err (mismatch (spec_hash c))
  ]

  -- `SpecOf`, with the annotation of the tag, where there is one; `none` is that there is no spec.
  unfoldable pub spec_of :
      (tag : Bytes) → (annotation : Option Bytes) → Result SpecError (Option Concrete)
  spec_of tag none = ok none
  spec_of tag (some s) =
      if is_empty s
      then ok none
      else elim (verify_spec s (split_variant_hash tag).1) [ err e ↦ err e | ok c ↦ ok (some c) ]
