-- ===== src/Tag/Keys.antt =====
-- `selectVersions` keeps one version for each numeric key, and one for every tag that counts.
use bottle.Common.{
  List, [], ◌∷◌, ◌≡◌, ◌≢◌, ◌⊎◌, inl, inr, refl, sym, ◌∙◌, Bool, true, false, ◌&&◌, ◌||◌, ◌↔◌, none,
  some, arith, map,
}
use bottle.Common.Lists.{All, any, is_empty}
use bottle.Common.Tests.{Bool-cases, if◌then◌else◌}
use bottle.Common.Text.{Bytes, bytes_eq, bytes_eq→eq, eq→bytes_eq}
use bottle.Version.{Ver}
use bottle.Tag.{
  ByVersion, held, store, read_tag, keep_tag, visit_tag, visit_tags, numeric_key, is_version_tag,
  insert_ver, sort_vers, select_versions,
}
use bottle.Tag.Numbers.Keyed.{IsCounted, AreOne, numeric_key-AreOne}
use bottle.Tag.Sorted.{All-insert_ver, All-sort_vers}

-- The key under which a version is stored is its own, and no key is there twice.
abbrev IsKeyed : ByVersion → Type 0
IsKeyed [] = Unit
IsKeyed ((k, v) ∷ m) = (k ≡ numeric_key v) × All (λ e. e.0 ≢ k) m × IsKeyed m

numeric_key-keep_tag :
    (t : Bytes) (v : Ver) (flavor : Bytes) → numeric_key (keep_tag t v flavor) ≡ numeric_key v
unfolding numeric_key keep_tag
numeric_key-keep_tag t v flavor = ground arith

All-store :
    (P : Bytes × Ver → Type 0) (key : Bytes) (v : Ver) (m : ByVersion)
    → P (key, v)
    → All P m
    → All P (store key v m)
unfolding store
All-store P key v [] h _ = (h, tt)
All-store P key v ((k, w) ∷ m) h (hk, hm) =
    ground (arith, bytes_eq→eq key k, All-store P key v m h hm)

store-IsKeyed : (v : Ver) (m : ByVersion) → IsKeyed m → IsKeyed (store (numeric_key v) v m)
unfolding store
store-IsKeyed v [] h = (refl, tt, tt)
store-IsKeyed v ((k, w) ∷ m) (own, others, hm) = elim (Bool-cases (bytes_eq (numeric_key v) k)) [
  | inl hit ↦ let key = bytes_eq→eq (numeric_key v) k hit in ground arith
  | inr miss ↦
      let other : numeric_key v ≢ k = ground (arith, eq→bytes_eq (numeric_key v) k) in
      let rest = All-store (λ e. e.0 ≢ k) (numeric_key v) v m other others in
      let keyed = store-IsKeyed v m hm in ground arith
]

-- Storing under a key leaves what is held under the others.
held-store :
    (key k : Bytes) (v : Ver) (m : ByVersion)
    → held k (store key v m) ≡ (if bytes_eq k key then some v else held k m)
unfolding held store
held-store key k v [] = refl
held-store key k v ((j, w) ∷ m) = ground (
  arith,
  held-store key k v m,
  bytes_eq→eq key j,
  eq→bytes_eq key j,
  bytes_eq→eq k j,
  eq→bytes_eq k j,
  bytes_eq→eq k key,
  eq→bytes_eq k key,
)

-- A tag of the listing counts: it names a version, and its flavor is none or the one asked for.
abbrev pub counts : Bytes → Bytes → Bool
counts flavor t = is_version_tag t && (is_empty (read_tag t).1 || bytes_eq (read_tag t).1 flavor)

abbrev key_of : Bytes → Bytes
key_of t = numeric_key (read_tag t).0

abbrev kept : Bytes → Ver
kept t = keep_tag t (read_tag t).0 (read_tag t).1

visit_tag_cases :
    (flavor : Bytes) (m : ByVersion) (t : Bytes)
    → ((visit_tag flavor m t ≡ m) × ((counts flavor t ≡ false) ⊎ (held (key_of t) m ≢ none)))
      ⊎ ((counts flavor t ≡ true) × (visit_tag flavor m t ≡ store (key_of t) (kept t) m))
unfolding visit_tag
visit_tag_cases flavor m t = ground arith

numeric_key-kept : (t : Bytes) → numeric_key (kept t) ≡ key_of t
numeric_key-kept t = numeric_key-keep_tag t (read_tag t).0 (read_tag t).1

visit_tag-IsKeyed :
    (flavor : Bytes) (m : ByVersion) (t : Bytes) → IsKeyed m → IsKeyed (visit_tag flavor m t)
visit_tag-IsKeyed flavor m t h = elim (visit_tag_cases flavor m t) [
  | inl (same, _) ↦ rw same h
  | inr (_, stored) ↦ rw (stored, ← numeric_key-kept t) (store-IsKeyed (kept t) m h)
]

visit_tags-IsKeyed :
    (flavor : Bytes) (m : ByVersion) (ts : List Bytes)
    → IsKeyed m
    → IsKeyed (visit_tags flavor m ts)
unfolding visit_tags
visit_tags-IsKeyed flavor m [] h = h
visit_tags-IsKeyed flavor m (t ∷ ts) h =
    visit_tags-IsKeyed flavor (visit_tag flavor m t) ts (visit_tag-IsKeyed flavor m t h)

-- No two versions have one key.
abbrev pub IsDistinct : List Ver → Type 0
IsDistinct [] = Unit
IsDistinct (v ∷ vs) = All (λ w. numeric_key w ≢ numeric_key v) vs × IsDistinct vs

insert_ver-IsDistinct :
    (v : Ver) (vs : List Ver)
    → All (λ w. numeric_key w ≢ numeric_key v) vs
    → IsDistinct vs
    → IsDistinct (insert_ver v vs)
unfolding insert_ver
insert_ver-IsDistinct v [] h k = (tt, tt)
insert_ver-IsDistinct v (w ∷ ws) (h, hs) (k, ks) =
    let other : numeric_key v ≢ numeric_key w = λ e. h (sym e) in
    let rest = All-insert_ver (λ x. numeric_key x ≢ numeric_key w) v ws other k in
    let distinct = insert_ver-IsDistinct v ws hs ks in ground arith

versions : ByVersion → List Ver
versions m = map (λ e. e.1) m

All-versions :
    (k : Bytes) (m : ByVersion)
    → IsKeyed m
    → All (λ e. e.0 ≢ k) m
    → All (λ w. numeric_key w ≢ k) (versions m)
unfolding versions
All-versions k [] h _ = tt
All-versions k ((j, v) ∷ m) (own, _, hm) (other, others) =
    (λ e. other (own ∙ e), All-versions k m hm others)

sort-versions-IsDistinct : (m : ByVersion) → IsKeyed m → IsDistinct (sort_vers (versions m))
unfolding sort_vers versions
sort-versions-IsDistinct [] h = tt
sort-versions-IsDistinct ((k, v) ∷ m) (own, others, hm) =
    insert_ver-IsDistinct v (sort_vers (versions m))
      (All-sort_vers (λ w. numeric_key w ≢ numeric_key v) (versions m)
        (rw (← own) (All-versions k m hm others)))
      (sort-versions-IsDistinct m hm)

-- `selectVersions` never returns two spellings of one version: the numeric keys of its results
-- differ from each other.
pub select_versions-IsDistinct :
    (tags : List Bytes) (flavor : Bytes) → IsDistinct (select_versions tags flavor)
unfolding select_versions versions
select_versions-IsDistinct tags flavor =
    sort-versions-IsDistinct (visit_tags flavor [] tags) (visit_tags-IsKeyed flavor [] tags tt)

any-insert_ver :
    (p : Ver → Bool) (v : Ver) (vs : List Ver) → any p (insert_ver v vs) ≡ (p v || any p vs)
unfolding insert_ver
any-insert_ver p v [] = refl
any-insert_ver p v (w ∷ ws) = ground (arith, any-insert_ver p v ws)

any-sort_vers : (p : Ver → Bool) (vs : List Ver) → any p (sort_vers vs) ≡ any p vs
unfolding sort_vers
any-sort_vers p [] = refl
any-sort_vers p (v ∷ vs) = any-insert_ver p v (sort_vers vs) ∙ rw (any-sort_vers p vs)

abbrev has : Bytes → ByVersion → Bool
has k m = any (λ e. bytes_eq k e.0) m

has-store :
    (k key : Bytes) (v : Ver) (m : ByVersion) → has k (store key v m) ≡ (bytes_eq k key || has k m)
unfolding store
has-store k key v [] = refl
has-store k key v ((j, w) ∷ m) = ground (arith, has-store k key v m, bytes_eq→eq key j)

held-has : (k : Bytes) (m : ByVersion) → held k m ≢ none → has k m ≡ true
unfolding held
held-has k [] h = absurd (h refl)
held-has k ((j, v) ∷ m) h = ground (arith, held-has k m)

has-held :
    (k key : Bytes) (m : ByVersion) → held key m ≢ none → bytes_eq k key ≡ true → has k m ≡ true
has-held k key m there hit = rw (bytes_eq→eq k key hit) (held-has key m there)

has-visit_tag :
    (flavor k : Bytes) (m : ByVersion) (t : Bytes)
    → has k (visit_tag flavor m t) ≡ (has k m || (counts flavor t && bytes_eq k (key_of t)))
has-visit_tag flavor k m t = elim (visit_tag_cases flavor m t) [
  | inl (same, inl out) ↦ rw (same, out) (ground arith)
  | inl (same, inr there) ↦ rw same (ground (arith, has-held k (key_of t) m there))
  | inr (counted, stored) ↦ rw (stored, counted) (has-store k (key_of t) (kept t) m ∙ ground arith)
]

has-visit_tags :
    (flavor k : Bytes) (m : ByVersion) (ts : List Bytes)
    → has k (visit_tags flavor m ts)
      ≡ (has k m || any (λ t. counts flavor t && bytes_eq k (key_of t)) ts)
unfolding visit_tags
has-visit_tags flavor k m [] = ground arith
has-visit_tags flavor k m (t ∷ ts) =
    ground (arith, has-visit_tags flavor k (visit_tag flavor m t) ts, has-visit_tag flavor k m t)

any-versions :
    (k : Bytes) (m : ByVersion)
    → IsKeyed m
    → any (λ v. bytes_eq k (numeric_key v)) (versions m) ≡ has k m
unfolding versions
any-versions k [] h = refl
any-versions k ((j, v) ∷ m) (own, _, hm) = rw (own, any-versions k m hm)

any-select_versions :
    (tags : List Bytes) (flavor k : Bytes)
    → any (λ v. bytes_eq k (numeric_key v)) (select_versions tags flavor)
      ≡ any (λ t. counts flavor t && bytes_eq k (numeric_key (read_tag t).0)) tags
unfolding select_versions versions
any-select_versions tags flavor k =
    any-sort_vers (λ v. bytes_eq k (numeric_key v)) (versions (visit_tags flavor [] tags))
    ∙ any-versions k (visit_tags flavor [] tags) (visit_tags-IsKeyed flavor [] tags tt)
    ∙ has-visit_tags flavor k [] tags

-- `selectVersions` returns a version with a numeric key exactly when some tag of the listing that
-- names a version, and whose flavor is none or the one asked for, has this key. And two versions that
-- have a number, and none below zero, have one key exactly where they have the same number at every
-- place (behind the last there are zeros), the same rebuild and the same variant.
pub select_versions-keys :
    (tags : List Bytes) (flavor k : Bytes) (v w : Ver)
    → IsCounted v
    → IsCounted w
    → (any (λ u. bytes_eq k (numeric_key u)) (select_versions tags flavor)
        ≡ any (λ t. counts flavor t && bytes_eq k (numeric_key (read_tag t).0)) tags)
      × ((numeric_key v ≡ numeric_key w) ↔ AreOne v w)
select_versions-keys tags flavor k v w good fine =
    (any-select_versions tags flavor k, numeric_key-AreOne v w good fine)
