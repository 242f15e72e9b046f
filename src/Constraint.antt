-- ===== src/Constraint.antt =====
-- pkgx.go: `Ver.satisfies`, which reads a constraint text and tests a version against it.
pub mod Print
pub mod Cuts
pub mod Meaning
pub mod Recursion
use Prim.Native.Nat.{Ordering, min}
use bottle.Common.{ℕ, zero, suc, ◌+◌, List, [], ◌∷◌, ◌++◌, ◌||◌, Bool, true, false, none, some}
use bottle.Common.Lists.{length, any, all, is_empty}
use bottle.Common.Tests.{ltb, ◌==◌, if◌then◌else◌}
use bottle.Common.Text.{Bytes, codes, bytes_eq, cut_prefix, split, trim_both, trim_space, is_quote}
use bottle.Version.{Ver, parse_ver, cmp_ver, same_n}

-- The values of `op`.
pub data Op : Type 0 where
  ge le gt lt caret tilde exact : Op

abbrev pub bars : Bytes
bars = codes "||"

abbrev pub is_angle : ℕ → Bool
is_angle c = c == b'<' || c == b'>'

-- The inner `if p := strings.TrimSpace(…); p != ""` of `splitComparators`.
abbrev pub emit : Bytes → List Bytes → List Bytes
emit piece rest = let p = trim_space piece in if is_empty p then rest else p ∷ rest

-- The loop of `splitComparators`; `piece` is `c[start:i]`.
unfoldable pub comparators : Bytes → Bytes → List Bytes
unfolding trim_space
comparators piece [] = emit piece []
comparators piece (c ∷ s) = elim (is_angle c) [
  | true ↦ emit piece (comparators (c ∷ []) s)
  | false ↦ comparators (piece ++ c ∷ []) s
]

unfoldable pub split_comparators : Bytes → List Bytes
unfolding comparators
split_comparators [] = []
split_comparators (c ∷ s) = comparators (c ∷ []) s

-- The `switch` on the prefix.
unfoldable pub read_operator : Bytes → Op × Bytes
unfolding cut_prefix trim_space
read_operator c = elim (cut_prefix (codes ">=") c) [
  | some rest ↦ (ge, trim_space rest)
  | none ↦ elim (cut_prefix (codes "<=") c) [
    | some rest ↦ (le, trim_space rest)
    | none ↦ elim (cut_prefix (codes ">") c) [
      | some rest ↦ (gt, trim_space rest)
      | none ↦ elim (cut_prefix (codes "<") c) [
        | some rest ↦ (lt, trim_space rest)
        | none ↦ elim (cut_prefix (codes "^") c) [
          | some rest ↦ (caret, rest)
          | none ↦ elim (cut_prefix (codes "~") c) [
            | some rest ↦ (tilde, rest)
            | none ↦ elim (cut_prefix (codes "=") c) [
              | some rest ↦ (exact, rest)
              | none ↦ (caret, c)
            ]
          ]
        ]
      ]
    ]
  ]
]

-- The `switch` on `op`.
unfoldable pub meets : Op → Ver → Ver → Bool
unfolding cmp_ver same_n
meets ge v base = elim (cmp_ver v base) [ Ordering.lt ↦ false | _ ↦ true ]
meets gt v base = elim (cmp_ver v base) [ Ordering.gt ↦ true | _ ↦ false ]
meets le v base = elim (cmp_ver v base) [ Ordering.gt ↦ false | _ ↦ true ]
meets lt v base = elim (cmp_ver v base) [ Ordering.lt ↦ true | _ ↦ false ]
meets exact v base = elim (cmp_ver v base) [ Ordering.eq ↦ true | _ ↦ false ]
meets tilde v base = elim (cmp_ver v base) [
  | Ordering.lt ↦ false
  | _ ↦ same_n v.nums base.nums (min (length base.nums) 2)
]
meets caret v base = elim (cmp_ver v base) [ Ordering.lt ↦ false | _ ↦ same_n v.nums base.nums 1 ]

-- The end of `satisfies`: one comparator.
unfoldable pub satisfies_one : Ver → Bytes → Bool
unfolding read_operator meets parse_ver
satisfies_one v c = let (op, text) = read_operator c in meets op v (parse_ver text)

-- The body of `satisfies`; `again` is the recursive call.
unfoldable pub satisfies_body : (Bytes → Bool) → Ver → Bytes → Bool
unfolding trim_both trim_space bytes_eq split split_comparators satisfies_one
satisfies_body again v text =
    let c = trim_space (trim_both is_quote text) in
    if is_empty c || bytes_eq c (codes "*")
    then true
    else if ltb 1 (length (split bars c))
    then any again (split bars c)
    else if ltb 1 (length (split_comparators c))
    then all again (split_comparators c)
    else satisfies_one v c

unfoldable pub satisfies_within : ℕ → Ver → Bytes → Bool
unfolding satisfies_body
satisfies_within zero v text = false
satisfies_within (suc fuel) v text = satisfies_body (satisfies_within fuel v) v text

-- `Ver.satisfies`. A recursive call is on a shorter text, so its length bounds the depth.
unfoldable pub satisfies : Ver → Bytes → Bool
unfolding satisfies_within
satisfies v text = satisfies_within (length text + 1) v text

-- `satisfiesAll`.
unfoldable pub satisfies_all : Ver → List Bytes → Bool
unfolding satisfies
satisfies_all v constraints = all (satisfies v) constraints
