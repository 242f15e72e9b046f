-- ===== src/Builds/Refs.antt =====
-- builds.go: a reference to a build, taken apart and found.
use bottle.Common.Tests.{Bool-cases, Option-cases}
use bottle.Common.{
  ◌≤◌, ℕ, List, [], ◌∷◌, ◌++◌, ◌≡◌, ◌⊎◌, inl, inr, refl, sym, subst, ap, ◌∙◌, ◌&&◌, true, false,
  some, arith,
}
use bottle.Common.Lists.{length, all, any, any_weaken, any-keep_if, keep_if}
use bottle.Common.Result.{ok}
use bottle.Common.Text.{
  Bytes, codes, bytes_eq, bytes_eq→eq, contains_byte, cut_prefix, has_prefix, last_cut,
}
use bottle.Common.Text.Cuts.{Lacks, last_cut-append}
use bottle.Builds.{Build, hash_of_build, is_partial_hash, parse_build_ref, match_build}
use bottle.Tag.{is_hash_byte}

-- Bytes of a hash are neither slashes nor dashes.
pub hash-Lacks :
    (b : ℕ) (s : Bytes) → is_hash_byte b ≡ false → all is_hash_byte s ≡ true → Lacks b s
hash-Lacks b [] h k = tt
hash-Lacks b (c ∷ s) h k = (ground arith, hash-Lacks b s h (ground arith))

last_cut_back :
    (s head tail : Bytes) → last_cut (codes "/") s ≡ some (head, tail) → s ≡ head ++ b'/' ∷ tail
unfolding last_cut cut_prefix
last_cut_back [] head tail e = absurd (ground arith)
last_cut_back (c ∷ s) head tail e = elim (Option-cases (last_cut (codes "/") s)) [
  | inr ((front, back), later) ↦
      let first : c ∷ front ≡ head = ground arith in
      let second : back ≡ tail = ground arith in
      subst (λ h. c ∷ s ≡ h ++ b'/' ∷ tail) first
        (subst (λ t. c ∷ s ≡ c ∷ front ++ b'/' ∷ t) second
          (ap (λ t. c ∷ t) (last_cut_back s front back later)))
  | inl last ↦ ground arith
]

-- A version, which an `@` stands in, and a a hash of four bytes to sixteen of its alphabet.
abbrev IsReference : Bytes → Bytes → Type 0
IsReference rest h =
    (contains_byte b'@' rest ≡ true)
    × (4 ≤ length h)
    × (length h ≤ 16)
    × (all is_hash_byte h ≡ true)

is_partial_hash-IsReference :
    (rest h : Bytes)
    → contains_byte b'@' rest ≡ true
    → is_partial_hash h ≡ true
    → IsReference rest h
unfolding is_partial_hash
is_partial_hash-IsReference rest h at partial = (at, ground arith, ground arith, ground arith)

IsReference-is_partial_hash : (rest h : Bytes) → IsReference rest h → is_partial_hash h ≡ true
unfolding is_partial_hash
IsReference-is_partial_hash rest h (at, long, short, plain) = ground arith

parse_build_ref-append :
    (rest h : Bytes) → IsReference rest h → parse_build_ref (rest ++ b'/' ∷ h) ≡ (rest, h)
unfolding parse_build_ref
parse_build_ref-append rest h (at, long, short, plain) =
    let partial = IsReference-is_partial_hash rest h (at, long, short, plain) in
    let cut : last_cut (codes "/") (rest ++ b'/' ∷ h) ≡ some (rest, h) =
      last_cut-append b'/' [] rest h tt (hash-Lacks b'/' h refl plain) in
    ground arith

-- What a reference is taken apart into: the whole text, or a version and a hash that it joins.
abbrev pub IsTaken : Bytes → Bytes × Bytes → Type 0
IsTaken spec (rest, h) =
    ((rest ≡ spec) × (h ≡ [])) ⊎ (IsReference rest h × (spec ≡ rest ++ b'/' ∷ h))

parse_build_ref-IsTaken : (spec : Bytes) → IsTaken spec (parse_build_ref spec)
unfolding parse_build_ref
parse_build_ref-IsTaken spec = elim (Option-cases (last_cut (codes "/") spec)) [
  | inl uncut ↦
      let same : parse_build_ref spec ≡ (spec, []) = ground arith in
      subst (IsTaken spec) (sym same) (inl (refl, refl))
  | inr ((rest, h), cut) ↦ elim (Bool-cases (contains_byte b'@' rest && is_partial_hash h)) [
    | inr bad ↦
        let same : parse_build_ref spec ≡ (spec, []) = ground arith in
        subst (IsTaken spec) (sym same) (inl (refl, refl))
    | inl good ↦
        let same : parse_build_ref spec ≡ (rest, h) = ground arith in
        subst (IsTaken spec) (sym same) (
          inr (
            is_partial_hash-IsReference rest h (ground arith) (ground arith),
            last_cut_back spec rest h cut,
          ))
  ]
]

-- `ParseBuildRef` takes a text `rest/hash` apart exactly where an `@` stands in `rest` and the hash has
-- four bytes to sixteen, all of the alphabet of hashes: from a `rest` and a hash that are so it gives
-- the two back, and its answer for any text is either two that are so and join to the text, or the
-- whole text with no hash.
pub parse_build_ref-exact :
    (spec rest h : Bytes)
    → IsReference rest h
    → (parse_build_ref (rest ++ b'/' ∷ h) ≡ (rest, h)) × IsTaken spec (parse_build_ref spec)
parse_build_ref-exact spec rest h good =
    (parse_build_ref-append rest h good, parse_build_ref-IsTaken spec)

-- The builds whose hash begins with the text.
abbrev pub hits : Bytes → List Build → List Build
hits prefix builds = keep_if (λ b. has_prefix prefix (hash_of_build b)) builds

hits_cases :
    (bs : List Build)
    → (bs ≡ [])
      ⊎ (((b : Build) × (bs ≡ b ∷ []))
          ⊎ ((b : Build) × (c : Build) × (cs : List Build) × (bs ≡ b ∷ c ∷ cs)))
hits_cases [] = inl refl
hits_cases (b ∷ []) = inr (inl (b, refl))
hits_cases (b ∷ c ∷ cs) = inr (inr (b, c, cs, refl))

match_build-hits :
    (builds : List Build) (prefix : Bytes) (b : Build)
    → match_build builds prefix ≡ ok b
    → hits prefix builds ≡ b ∷ []
unfolding match_build
match_build-hits builds prefix b e = elim (hits_cases (hits prefix builds)) [
  | inl none_hit ↦ absurd (ground arith)
  | inr (inl (c, one)) ↦ let same : c ≡ b = ground arith in one ∙ ap (λ d. d ∷ []) same
  | inr (inr (c, d, cs, many)) ↦ absurd (ground arith)
]

same_begins :
    (prefix : Bytes) (c : Build)
    → has_prefix prefix (hash_of_build c) ≡ true
    → (d : Build) → bytes_eq (hash_of_build c) (hash_of_build d) ≡ true
    → (has_prefix prefix (hash_of_build d) && bytes_eq (hash_of_build c) (hash_of_build d)) ≡ true
same_begins prefix c begins d same =
    let equal = bytes_eq→eq (hash_of_build c) (hash_of_build d) same in
    let there : has_prefix prefix (hash_of_build d) ≡ true =
      subst (λ h. has_prefix prefix h ≡ true) equal begins in
    ground arith

-- Where `MatchBuild` answers with a build, every build of the list whose hash begins with the text has
-- the hash of the answer: a text that two hashes begin with is refused.
pub match_build_unique :
    (builds : List Build) (prefix : Bytes) (b c : Build)
    → match_build builds prefix ≡ ok b
    → any (λ d. bytes_eq (hash_of_build c) (hash_of_build d)) builds ≡ true
    → has_prefix prefix (hash_of_build c) ≡ true
    → hash_of_build c ≡ hash_of_build b
match_build_unique builds prefix b c e inside begins =
    let p = λ (d : Build). has_prefix prefix (hash_of_build d) in
    let q = λ (d : Build). bytes_eq (hash_of_build c) (hash_of_build d) in
    let one = match_build-hits builds prefix b e in
    let among = any_weaken q (λ d. p d && q d) builds (same_begins prefix c begins) inside in
    let found : any q (b ∷ []) ≡ true = ap (any q) (sym one) ∙ any-keep_if p q builds ∙ among in
    bytes_eq→eq (hash_of_build c) (hash_of_build b) (ground arith)
