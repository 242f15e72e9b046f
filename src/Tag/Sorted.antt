-- ===== src/Tag/Sorted.antt =====
-- `selectVersions` returns its versions oldest first.
use Prim.Native.Nat.{Ordering}
use bottle.Common.{List, [], ◌∷◌, ◌≡◌, ◌≢◌, ◌⊎◌, inl, inr, arith, map}
use bottle.Common.Lists.{All, All-map}
use bottle.Common.Text.{Bytes}
use bottle.Version.{Ver, cmp_ver}
use bottle.Version.Order.{cmp_ver-IsOrder}
use bottle.Tag.{insert_ver, sort_vers, select_versions, visit_tags}
open cmp_ver-IsOrder use {flipped, same, chain}

-- Each version is not newer than any behind it.
abbrev pub IsAscending : List Ver → Type 0
IsAscending [] = Unit
IsAscending (v ∷ vs) = All (λ w. cmp_ver v w ≢ Ordering.gt) vs × IsAscending vs

not-gt_trans :
    (a b c : Ver)
    → cmp_ver a b ≢ Ordering.gt
    → cmp_ver b c ≢ Ordering.gt
    → cmp_ver a c ≢ Ordering.gt
not-gt_trans a b c h k =
    ground (arith, same a b c, chain a b c, same b c a, flipped a b, flipped a c, flipped b c)

module _ (P : Ver → Type 0) where
  pub All-insert_ver : (v : Ver) (vs : List Ver) → P v → All P vs → All P (insert_ver v vs)
  unfolding insert_ver
  All-insert_ver v [] h _ = (h, tt)
  All-insert_ver v (w ∷ ws) h (k, ks) = ground (arith, All-insert_ver v ws h ks)

  pub All-sort_vers : (vs : List Ver) → All P vs → All P (sort_vers vs)
  unfolding sort_vers
  All-sort_vers [] h = tt
  All-sort_vers (v ∷ vs) (h, hs) = All-insert_ver v (sort_vers vs) h (All-sort_vers vs hs)

gt-cases : (o : Ordering) → (o ≡ Ordering.gt) ⊎ (o ≢ Ordering.gt)
gt-cases o = ground arith

insert_ver-IsAscending : (v : Ver) (vs : List Ver) → IsAscending vs → IsAscending (insert_ver v vs)
unfolding insert_ver
insert_ver-IsAscending v [] h = (tt, tt)
insert_ver-IsAscending v (w ∷ ws) (h, hs) = elim (gt-cases (cmp_ver v w)) [
  | inl newer ↦
      let below : cmp_ver w v ≢ Ordering.gt = ground (arith, flipped v w) in
      let rest = All-insert_ver (λ x. cmp_ver w x ≢ Ordering.gt) v ws below h in
      let ordered = insert_ver-IsAscending v ws hs in ground arith
  | inr older ↦
      let front : All (λ x. cmp_ver v x ≢ Ordering.gt) (w ∷ ws) =
        (older, All-map (λ x (k : cmp_ver w x ≢ Ordering.gt). not-gt_trans v w x older k) ws h) in
      ground arith
]

sort_vers-IsAscending : (vs : List Ver) → IsAscending (sort_vers vs)
unfolding sort_vers
sort_vers-IsAscending [] = tt
sort_vers-IsAscending (v ∷ vs) = insert_ver-IsAscending v (sort_vers vs) (sort_vers-IsAscending vs)

-- The versions that `selectVersions` returns stand oldest first, whatever the listing's order.
pub select_versions-IsAscending :
    (tags : List Bytes) (flavor : Bytes) → IsAscending (select_versions tags flavor)
unfolding select_versions
select_versions-IsAscending tags flavor =
    sort_vers-IsAscending (map (λ e. e.1) (visit_tags flavor [] tags))
