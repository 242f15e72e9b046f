-- ===== src/Wire/Back.antt =====
-- concretewire.go: a spec is read back, and only by the hash that it has.
use bottle.Common.{◌≡◌, some, arith}
use bottle.Common.Int.{cmp_int}
use bottle.Common.Lists.{is_empty}
use bottle.Common.Result.{ok, err}
use bottle.Common.Tests.{if◌then◌else◌}
use bottle.Common.Text.{Bytes, bytes_eq}
use bottle.Concrete.{Concrete}
use bottle.Wire.{Coding, spec_json, mismatch, spec_hash, marshal_spec, unmarshal_spec, verify_spec}

module _ (coding : Coding) where
  unmarshal_spec-marshal_spec :
      (c : Concrete)
      → coding.decode (coding.encode (spec_json c)) ≡ some (spec_json c)
      → unmarshal_spec coding (marshal_spec coding c) ≡ ok c
  unfolding unmarshal_spec marshal_spec cmp_int
  unmarshal_spec-marshal_spec c back = ground arith

  -- Where the coding of JSON reads back what it writes of the spec, what `marshal_spec` writes is read
  -- back by `verify_spec` for a tag without a hash and for one with the spec's own hash, and for a tag with
  -- any other hash it is refused.
  pub verify_spec-marshal_spec :
      (c : Concrete) (want_hash : Bytes)
      → coding.decode (coding.encode (spec_json c)) ≡ some (spec_json c)
      → verify_spec coding (marshal_spec coding c) want_hash ≡ (
          if is_empty want_hash
          then ok c
          else if bytes_eq (spec_hash coding c) want_hash
          then ok c
          else err (mismatch (spec_hash coding c)))
  unfolding verify_spec
  verify_spec-marshal_spec c want_hash back =
      let same = unmarshal_spec-marshal_spec c back in ground arith
