-- ===== src/StorePath/RoundTrip.antt =====
-- storepath.go: the name of a build's directory, read back.
use bottle.Common.{
  ℕ, [], ◌∷◌, ◌++◌, ◌≡◌, ◌⊎◌, inl, inr, refl, true, false, some, arith, ap, sym, subst, ◌∙◌,
}
use bottle.Builds.Refs.{hash-Lacks}
use bottle.Common.Lists.{All-map, is_empty, all}
use bottle.Common.Text.{Bytes, codes, is_digit, trim_prefix, last_cut}
use bottle.Common.Text.Cuts.{last_cut-append}
use bottle.Constraint.Print.{IsVersionText, IsInner-version_byte, trim_space_kept}
use bottle.StorePath.{store_dir_name, parse_store_dir_name}
use bottle.Tag.{is_hash_byte, is_variant_hash, split_variant_hash, variant_sep}
use bottle.Version.{Ver, parse_ver}

split_variant_hash_lem :
    (c : ℕ) (raw h : Bytes)
    → is_variant_hash h ≡ true
    → split_variant_hash ((c ∷ raw) ++ (variant_sep ++ h)) ≡ (c ∷ raw, h)
unfolding split_variant_hash
split_variant_hash_lem c raw h good =
    let plain : all is_hash_byte h ≡ true = unfold is_variant_hash in (ground arith) in
    let cut : last_cut (codes "-h") ((c ∷ raw) ++ (variant_sep ++ h)) ≡ some (c ∷ raw, h) =
      last_cut-append b'-' (codes "h") (c ∷ raw) h (refl, tt) (hash-Lacks b'-' h refl plain) in
    ground arith

-- A version text that begins with a digit is its own `Raw`.
parse_ver-raw :
    (d : ℕ) (text : Bytes)
    → is_digit d ≡ true
    → IsVersionText (d ∷ text)
    → (parse_ver (d ∷ text)).raw ≡ d ∷ text
unfolding parse_ver trim_prefix
parse_ver-raw d text digit good =
    let kept = trim_space_kept (d ∷ text) (All-map (λ c. IsInner-version_byte c) (d ∷ text) good) in
    rw kept (ground arith)

-- A version, as a tag names it: a text that begins with a digit, and the hash of the build; without
-- one, the end of the text is not to be taken for a hash.
abbrev pub IsNamed : ℕ → Bytes → Bytes → Type 0
IsNamed d text h =
    (is_digit d ≡ true)
    × IsVersionText (d ∷ text)
    × ((is_variant_hash h ≡ true) ⊎ ((h ≡ []) × (split_variant_hash (d ∷ text) ≡ (d ∷ text, []))))

abbrev pub named : ℕ → Bytes → Bytes → Ver
named d text h = record (parse_ver (d ∷ text)) { variant = h }

parse_store_dir_name_read :
    (d : ℕ) (text h : Bytes) (body : Bytes)
    → is_digit d ≡ true
    → split_variant_hash (d ∷ body) ≡ (d ∷ text, h)
    → parse_store_dir_name (b'v' ∷ d ∷ body) ≡ some (named d text h)
unfolding parse_store_dir_name
parse_store_dir_name_read d text h body digit cut = rw (digit, cut) refl

hash_not-empty : (h : Bytes) → is_variant_hash h ≡ true → is_empty h ≡ false
unfolding is_variant_hash
hash_not-empty [] k = cc
hash_not-empty (c ∷ h) k = refl

store_dir_name-hashed :
    (d : ℕ) (text h : Bytes)
    → is_digit d ≡ true
    → IsVersionText (d ∷ text)
    → is_empty h ≡ false
    → store_dir_name (named d text h) ≡ b'v' ∷ d ∷ (text ++ (variant_sep ++ h))
unfolding store_dir_name
store_dir_name-hashed d text h digit good filled =
    rw filled (ap (λ r. codes "v" ++ r ++ (variant_sep ++ h)) (parse_ver-raw d text digit good))

store_dir_name-plain :
    (d : ℕ) (text : Bytes)
    → is_digit d ≡ true
    → IsVersionText (d ∷ text)
    → store_dir_name (named d text []) ≡ b'v' ∷ d ∷ text
unfolding store_dir_name
store_dir_name-plain d text digit good = ap (λ r. codes "v" ++ r) (parse_ver-raw d text digit good)

-- Let a version have a text that begins with a digit and has only bytes of versions, with either a
-- well-formed hash or no hash and a text whose end does not look like one. The name that
-- `StoreDirName` gives that version is read back by `ParseStoreDirName` as that version, with its
-- components, its rebuild and its hash.
pub parse_store_dir_name-store_dir_name :
    (d : ℕ) (text h : Bytes)
    → IsNamed d text h
    → parse_store_dir_name (store_dir_name (named d text h)) ≡ some (named d text h)
parse_store_dir_name-store_dir_name d text h (digit, good, inl hash) =
    ap parse_store_dir_name (store_dir_name-hashed d text h digit good (hash_not-empty h hash))
    ∙ parse_store_dir_name_read d text h (text ++ (variant_sep ++ h)) digit
        (split_variant_hash_lem d text h hash)
parse_store_dir_name-store_dir_name d text h (digit, good, inr (bare, whole)) =
    subst (λ k. parse_store_dir_name (store_dir_name (named d text k)) ≡ some (named d text k))
      (sym bare)
      (ap parse_store_dir_name (store_dir_name-plain d text digit good)
        ∙ parse_store_dir_name_read d text [] text digit whole)
