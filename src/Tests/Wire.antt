-- ===== src/Tests/Wire.antt =====
-- A spec that is written and read back for a tag with its hash.
use bottle.Common.{◌≡◌, refl, some}
use bottle.Common.Lists.{is_empty}
use bottle.Common.Result.{ok, err}
use bottle.Common.Tests.{if◌then◌else◌}
use bottle.Common.Text.{codes, bytes_eq}
use bottle.Tests.Concrete.{two_values}
use bottle.Wire.{Coding, mismatch, spec_hash, spec_json, marshal_spec, verify_spec}
use bottle.Wire.Back.{verify_spec-marshal_spec}

-- A coding that knows one text.
abbrev one_text : Coding
one_text = record {
  encode = λ j. codes "{}";
  decode = λ s. some (spec_json two_values);
  digest = λ b. codes "abcdefghijklmnopqrstuvwxyz";
}

verify_spec-marshal_spec_example :
    verify_spec one_text (marshal_spec one_text two_values) (codes "abcdefghijklmnop") ≡ (
      if is_empty (codes "abcdefghijklmnop")
      then ok two_values
      else if bytes_eq (spec_hash one_text two_values) (codes "abcdefghijklmnop")
      then ok two_values
      else err (mismatch (spec_hash one_text two_values)))
verify_spec-marshal_spec_example =
    verify_spec-marshal_spec one_text two_values (codes "abcdefghijklmnop") refl
