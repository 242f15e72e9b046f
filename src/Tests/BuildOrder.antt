-- ===== src/Tests/BuildOrder.antt =====
-- Builds against later and earlier dependencies.
use bottle.Common.{List, [], ◌∷◌, ◌≡◌, refl, true, false}
use bottle.Common.Text.{Bytes, codes, bytes_eq}
use bottle.Concrete.{Dep, Concrete}
use bottle.BuildOrder.{closure_is_later}
use bottle.BuildOrder.Asymmetric.{closure_is_later-asymmetric}

abbrev dep : Bytes → Bytes → Dep
dep p v = record { project = p; version = v; hash = [] }

abbrev against : List Dep → Concrete
against ds = record {
  platform = codes "linux/x86-64";
  variants = [];
  deps = ds;
  recipe = [];
  graft = [];
}

abbrev rebuilt : Concrete
rebuilt =
    against (dep (codes "go.dev") (codes "1.27.4") ∷ dep (codes "zlib.net") (codes "1.3") ∷ [])

abbrev first_build : Concrete
first_build =
    against (dep (codes "zlib.net") (codes "1.3") ∷ dep (codes "go.dev") (codes "1.27.3") ∷ [])

closure_is_later-asymmetric_example : closure_is_later first_build rebuilt ≡ false
unfolding closure_is_later bytes_eq
closure_is_later-asymmetric_example = closure_is_later-asymmetric rebuilt first_build refl

-- Three builds that share a dependency two by two: each is later than the next, all round.
abbrev one : Concrete
one = against (dep (codes "p") (codes "2") ∷ dep (codes "r") (codes "1") ∷ [])

abbrev two : Concrete
two = against (dep (codes "p") (codes "1") ∷ dep (codes "q") (codes "2") ∷ [])

abbrev three : Concrete
three = against (dep (codes "q") (codes "1") ∷ dep (codes "r") (codes "2") ∷ [])

later_round_a : closure_is_later one two ≡ true
unfolding closure_is_later
later_round_a = refl

later_round_b : closure_is_later two three ≡ true
unfolding closure_is_later
later_round_b = refl

later_round_c : closure_is_later three one ≡ true
unfolding closure_is_later
later_round_c = refl
