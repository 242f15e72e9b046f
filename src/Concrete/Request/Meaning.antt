-- ===== src/Concrete/Request/Meaning.antt =====
-- concrete.go: an exact request is answered by the values that it lists and no others.
use bottle.Common.{suc, ◌≤◌, List, [], ◌∷◌, ◌≡◌, inl, inr, refl, ◌∙◌, true, false, arith}
use bottle.Common.Dict.{mem_bytes, IsOnce}
use bottle.Common.Lists.{length, all}
use bottle.Common.Tests.{Bool-cases, if◌then◌else◌}
use bottle.Common.Text.{Bytes, bytes_eq, bytes_eq→eq, eq→bytes_eq}
use bottle.Concrete.Request.{VariantConstraint, answers}

-- The list without the first place of a text.
abbrev drop_one : Bytes → List Bytes → List Bytes
drop_one x [] = []
drop_one x (y ∷ ys) = if bytes_eq x y then ys else y ∷ drop_one x ys

length-drop_one :
    (x : Bytes) (ys : List Bytes) → mem_bytes x ys ≡ true → suc (length (drop_one x ys)) ≡ length ys
length-drop_one x [] h = cc
length-drop_one x (y ∷ ys) h = ground (arith, length-drop_one x ys)

mem-drop_one :
    (z x : Bytes) (ys : List Bytes)
    → bytes_eq z x ≡ false
    → mem_bytes z (drop_one x ys) ≡ mem_bytes z ys
mem-drop_one z x [] h = refl
mem-drop_one z x (y ∷ ys) h =
    ground (arith, mem-drop_one z x ys, bytes_eq→eq x y, eq→bytes_eq x y, bytes_eq→eq z x)

-- Texts that are all different from one that stands apart stay when that one is dropped.
all-drop_one :
    (x : Bytes) (xs ys : List Bytes)
    → mem_bytes x xs ≡ false
    → all (λ w. mem_bytes w ys) xs ≡ true
    → all (λ w. mem_bytes w (drop_one x ys)) xs ≡ true
all-drop_one x [] ys h k = refl
all-drop_one x (z ∷ xs) ys h k = ground (
  arith,
  all-drop_one x xs ys,
  mem-drop_one z x ys,
  bytes_eq→eq z x,
  eq→bytes_eq x z,
  bytes_eq→eq x z,
)

-- Different texts that all stand in a list that is not longer are all that stands there.
all_covered :
    (xs ys : List Bytes) (z : Bytes)
    → IsOnce xs
    → all (λ w. mem_bytes w ys) xs ≡ true
    → length ys ≤ length xs
    → mem_bytes z ys ≡ true
    → mem_bytes z xs ≡ true
all_covered [] [] z h k n m = cc
all_covered [] (y ∷ ys) z h k n m = absurd (omega arith)
all_covered (x ∷ xs) ys z (apart, once) k n m = elim (Bool-cases (bytes_eq z x)) [
  | inl same ↦ ground arith
  | inr other ↦
      let inside : mem_bytes x ys ≡ true = ground arith in
      let tail : all (λ w. mem_bytes w ys) xs ≡ true = ground arith in
      let shorter = length-drop_one x ys inside in
      let kept = mem-drop_one z x ys other in
      let rest =
        all_covered xs (drop_one x ys) z once (all-drop_one x xs ys apart tail) (omega arith)
          (kept ∙ m) in
      ground arith
]

all-mem :
    (xs ys : List Bytes) (z : Bytes)
    → all (λ w. mem_bytes w ys) xs ≡ true
    → mem_bytes z xs ≡ true
    → mem_bytes z ys ≡ true
all-mem [] ys z h k = cc
all-mem (x ∷ xs) ys z h k = ground (arith, all-mem xs ys z, bytes_eq→eq z x)

-- When the values of an exact constraint are all different, a build answers it only if the values
-- that the build has for the variant are those of the constraint: each text is among the ones exactly
-- when it is among the others.
pub answers-exact :
    (c : VariantConstraint) (got : List Bytes) (z : Bytes)
    → c.exact ≡ true
    → IsOnce c.values
    → answers c got ≡ true
    → mem_bytes z got ≡ mem_bytes z c.values
unfolding answers
answers-exact c got z strict once h =
    let inside : all (λ w. mem_bytes w got) c.values ≡ true = ground arith in
    let few : length got ≤ length c.values = ground arith in
    ground (arith, all-mem c.values got z inside, all_covered c.values got z once inside few)
