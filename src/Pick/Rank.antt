-- ===== src/Pick/Rank.antt =====
-- How `pickVersionForAll` ranks: newest first, a supported line before one at its end of life, and
-- an error only where nothing can be given.
use bottle.Common.{
  List, [], ◌∷◌, ◌++◌, ◌≡◌, ◌∙◌, refl, Bool, Option, none, some, arith, map, append_assoc,
  append-nil,
}
use bottle.Common.Result.{Result, ok, err}
use bottle.Common.Text.{Bytes}
use bottle.Pick.{
  Answer, Project, go_on, PickError, no_bottle_here, no_versions, none_satisfies, Verdict, skipped,
  absent, on_dead_line, chosen, refused, judge, give_up, pick_loop, pick_version_for_all,
}
use bottle.Pick.Verdicts.{AreVerdicts, judge-IsVerdict}
use bottle.Version.{Ver}
use mathlib.Core.List.{reverse}
use mathlib.Core.Path.{fun_ext}

-- What a verdict does to the loop: it may end it, offer a fall back, or name a missing version.
abbrev ends : Verdict → Option (Result PickError (Ver × Option Bytes))
ends (chosen v) = some (ok (v, none))
ends (refused e) = some (err e)
ends skipped = none
ends (absent raw) = none
ends (on_dead_line v line) = none

abbrev offers : Verdict → Option (Ver × Bytes)
offers (on_dead_line v line) = some (v, line)
offers skipped = none
offers (absent raw) = none
offers (chosen v) = none
offers (refused e) = none

abbrev lacks : Verdict → List Bytes
lacks (absent raw) = raw ∷ []
lacks skipped = []
lacks (on_dead_line v line) = []
lacks (chosen v) = []
lacks (refused e) = []

abbrev or_first : {A : Type 0} → Option A → Option A → Option A
or_first (some a) o = some a
or_first none o = o

abbrev first_of_all : {A : Type 0} → (Verdict → Option A) → List Verdict → Option A
first_of_all f [] = none
first_of_all f (x ∷ xs) = or_first (f x) (first_of_all f xs)

abbrev all_lacks : List Verdict → List Bytes
all_lacks [] = []
all_lacks (x ∷ xs) = lacks x ++ all_lacks xs

-- The answer where no verdict ends the loop, from the fall back and the texts that lack the platform.
abbrev last_word : List Bytes → List Ver → List Bytes → Option (Ver × Bytes) → Answer
last_word constraints vs missing (some (v, line)) = ok (v, some line)
last_word constraints vs (raw ∷ missing) none = err (no_bottle_here constraints vs (raw ∷ missing))
last_word [] vs [] none = err no_versions
last_word (c ∷ constraints) vs [] none = err (none_satisfies (c ∷ constraints) vs)

give_up-last_word :
    (constraints : List Bytes) (vs : List Ver) (missing : List Bytes)
    → (fallback : Option (Ver × Bytes))
    → give_up constraints vs missing fallback ≡ last_word constraints vs missing fallback
unfolding give_up
give_up-last_word constraints vs [] (some (v, line)) = refl
give_up-last_word constraints vs (raw ∷ missing) (some (v, line)) = refl
give_up-last_word constraints vs (raw ∷ missing) none = refl
give_up-last_word [] vs [] none = refl
give_up-last_word (c ∷ constraints) vs [] none = refl

-- The answer that the verdicts, newest first, amount to.
abbrev pub answer :
    List Bytes → List Ver → List Verdict → List Bytes → Option (Ver × Bytes) → Answer
answer constraints vs xs missing fallback = elim (first_of_all ends xs) [
  | some r ↦ r
  | none ↦
      last_word constraints vs (missing ++ all_lacks xs)
        (or_first fallback (first_of_all offers xs))
]

go_on-answer :
    (constraints : List Bytes) (vs : List Ver) (x : Verdict) (xs : List Verdict)
    → (missing : List Bytes) (fallback : Option (Ver × Bytes))
    → go_on x (answer constraints vs xs) missing fallback
      ≡ answer constraints vs (x ∷ xs) missing fallback
unfolding go_on
go_on-answer constraints vs skipped xs missing fallback = refl
go_on-answer constraints vs (absent raw) xs missing fallback =
    ground (arith, append_assoc missing (raw ∷ []) (all_lacks xs))
go_on-answer constraints vs (on_dead_line w line) xs missing none = refl
go_on-answer constraints vs (on_dead_line w line) xs missing (some f) = refl
go_on-answer constraints vs (chosen w) xs missing fallback = refl
go_on-answer constraints vs (refused e) xs missing fallback = refl

module _ (p : Project) (constraints : List Bytes) (vs : List Ver) (from_registry : Bool) where
  pick_loop-answer :
      (rest : List Ver)
      → pick_loop p constraints vs from_registry rest
        ≡ answer constraints vs (map (judge p constraints vs from_registry) rest)
  unfolding pick_loop
  pick_loop-answer [] = fun_ext λ missing. fun_ext λ fallback.
      give_up-last_word constraints vs missing fallback ∙ ground (arith, append-nil missing)
  pick_loop-answer (v ∷ rest) = rw (pick_loop-answer rest) (
      fun_ext λ missing. fun_ext λ fallback.
        go_on-answer constraints vs (judge p constraints vs from_registry v)
          (map (judge p constraints vs from_registry) rest) missing fallback)

  judged-AreVerdicts :
      (us : List Ver)
      → AreVerdicts p constraints vs from_registry us
          (map (judge p constraints vs from_registry) us)
  judged-AreVerdicts [] = tt
  judged-AreVerdicts (u ∷ us) =
      (judge-IsVerdict p constraints vs from_registry u, judged-AreVerdicts us)

-- Where the versions of a project are listed, `pickVersionForAll` judges them newest first: one that
-- misses a constraint is skipped; one that another build of the same version and rebuild stands beside
-- is refused, with the count of its builds; one from the registry is put under the tag that
-- `publishedTagFor` finds, is absent where that finds none, and refused where it fails; what is left is
-- on an end-of-life line or chosen. The answer is that of the verdicts: the first chosen version or the
-- first refusal, whichever comes first; if there is neither, the newest that is on an end-of-life line,
-- with that line; if there is none either, an error that names the versions which are absent; and if
-- there are none, the error that nothing satisfies the constraints, or, with no constraint, that there
-- are no versions.
pub pick_version_for_all-answer :
    (p : Project) (constraints : List Bytes) (vs : List Ver) (from_registry : Bool)
    → p.versions ≡ ok (vs, from_registry)
    → (xs : List Verdict) × AreVerdicts p constraints vs from_registry (reverse vs) xs
      × (pick_version_for_all p constraints ≡ answer constraints vs xs [] none)
unfolding pick_version_for_all
pick_version_for_all-answer p constraints vs from_registry listed = (
  map (judge p constraints vs from_registry) (reverse vs),
  judged-AreVerdicts p constraints vs from_registry (reverse vs),
  rw (listed, pick_loop-answer p constraints vs from_registry (reverse vs)) refl,
)
