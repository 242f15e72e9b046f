-- ===== src/Tests/Concrete.antt =====
-- Two specs that a form without lengths would confuse.
use bottle.Common.{[], ◌∷◌, ◌++◌, ◌≡◌, ◌↔◌, refl}
use bottle.Common.Text.{codes}
use bottle.Common.{true, false}
use bottle.Common.Dict.{mem_bytes}
use bottle.Concrete.Request.{VariantConstraint, answers, satisfies_request, split_values}
use bottle.Concrete.Request.Meaning.{answers-exact}
use bottle.Concrete.{Concrete, canonical}
use bottle.Concrete.Canonical.{IsSameBuild, canonical_exact}

abbrev pub two_values : Concrete
two_values = record {
  platform = codes "linux/x86-64";
  variants = (codes "x", codes "b" ∷ codes "a" ∷ []) ∷ [];
  deps = record { project = codes "zlib.net"; version = codes "1.3.1"; hash = [] } ∷ [];
  recipe = codes "sha256:0";
  graft = [];
}

abbrev one_value : Concrete
one_value = record two_values { variants = (codes "x", (b'a' ∷ 1 ∷ b'b' ∷ []) ∷ []) ∷ [] }

canonical_exact_example :
    (canonical two_values ≡ canonical one_value) ↔ IsSameBuild two_values one_value
canonical_exact_example = canonical_exact two_values one_value

canonical_small :
    canonical
      (record { platform = codes "p"; variants = []; deps = []; recipe = []; graft = codes "g" })
    ≡ codes "v1"
      ++ (0 ∷ codes "8:platform" ++ (0 ∷ codes "1:p" ++ (0 ∷ codes "5:graft" ++ (0 ∷ codes "1:g"))))
unfolding canonical
canonical_small = refl

abbrev only_ofi_verbs : VariantConstraint
only_ofi_verbs = record {
  values = codes "ofi" ∷ codes "verbs" ∷ [];
  exact = true;
  propagate = false;
}

answers-exact_example :
    mem_bytes (codes "tcp") (codes "verbs" ∷ codes "ofi" ∷ [])
    ≡ mem_bytes (codes "tcp") only_ofi_verbs.values
unfolding answers
answers-exact_example =
    answers-exact only_ofi_verbs (codes "verbs" ∷ codes "ofi" ∷ []) (codes "tcp") refl
      (refl, (refl, tt)) refl

-- A value that stands twice in an exact request lets a build with another one pass.
satisfies_twice :
    satisfies_request
      ((
        codes "fabrics",
        record { values = split_values (codes "ofi,ofi"); exact = true; propagate = false },
      )
        ∷ [])
      ((codes "fabrics", codes "ofi" ∷ codes "verbs" ∷ []) ∷ [])
    ≡ true
unfolding satisfies_request split_values
satisfies_twice = refl
