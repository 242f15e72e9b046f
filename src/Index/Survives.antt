-- ===== src/Index/Survives.antt =====
-- oci.go: what `mergePlatformIntoIndex` has seen when it returns.
use Prim.Native.Nat.{zero, suc}
use bottle.Common.{
  ℕ, ◌+◌, ◌≡◌, inl, inr, refl, sym, ap, ◌∙◌, subst, Bool, true, false, Option, none, some, arith,
}
use bottle.Common.Tests.{Bool-cases, if◌then◌else◌}
use bottle.Common.Text.{Bytes}
use bottle.Index.{Descriptor, is_for, pick_manifest, upsert_platform, index_has_manifest}
use bottle.Index.Merge.{
  Repository, MergeError, not_tagged, did_not_survive, index_retry_attempts, upsert_all,
  fetch_or_new_index, platform_manifests, merged_index, survives, merge_loop,
  merge_platform_into_index,
}
use bottle.Index.Picked.{or_else, last_for, pick_manifest-upsert_platform, pick_manifest-upsert_all}

module _ {S : Type 0} (repo : Repository S) (ver : Bytes) (desc : Descriptor) where
  -- The state in which an attempt has written its index, and whether it was taken.
  abbrev pub written : S → S × Bool
  written s = repo.tag_index (merged_index repo ver desc s).1 ver (merged_index repo ver desc s).0

  -- Attempts that wrote the index and did not find the manifest in it afterwards: how many, with the
  -- number of the first, and the states before and after.
  pub data Retries : ℕ → ℕ → S → S → Type 0 where
    no_more : {attempt : ℕ} {s : S} → Retries 0 attempt s s
    again :
        {n attempt : ℕ} {s t : S}
        → (written s).1 ≡ true
        → (survives repo ver desc (written s).0).1 ≡ false
        → Retries n
            (attempt + 1)
            (repo.back_off (attempt + 1) (survives repo ver desc (written s).0).0)
            t
        → Retries (suc n) attempt s t

  -- An attempt that went through, from one state to another: two looks at the index, with a pause
  -- between them, found the manifest.
  pub record Settled (s t : S) : Type 0 where
    pub taken : (written s).1 ≡ true
    pub first : index_has_manifest (fetch_or_new_index repo ver (written s).0).1 desc ≡ true
    pub second :
        index_has_manifest
          (fetch_or_new_index repo ver
            (repo.settle (fetch_or_new_index repo ver (written s).0).0)).1
          desc
        ≡ true
    pub last :
        t
        ≡ (fetch_or_new_index repo ver
            (repo.settle (fetch_or_new_index repo ver (written s).0).0)).0

  -- What the index that is written in a state holds for each platform: the manifest that is put in,
  -- or the last of those that are tagged for it, or else what the index had.
  abbrev pub Merges : S → Type 0
  Merges s =
      (os architecture : Bytes)
      → pick_manifest os architecture (merged_index repo ver desc s).1 ≡ (
          if is_for os architecture desc
          then some desc
          else or_else
              (last_for os architecture
                (platform_manifests repo ver (fetch_or_new_index repo ver s).0).1)
              (pick_manifest os architecture (fetch_or_new_index repo ver s).1))

  merged_index-Merges : (s : S) → Merges s
  merged_index-Merges s os architecture =
      let ms = (fetch_or_new_index repo ver s).1 in
      let ds = (platform_manifests repo ver (fetch_or_new_index repo ver s).0).1 in
      let same : (merged_index repo ver desc s).1 ≡ upsert_platform (upsert_all ms ds) desc =
        unfold merged_index in refl in
      let own = pick_manifest-upsert_platform os architecture (upsert_all ms ds) desc in
      let others = pick_manifest-upsert_all os architecture ms ds in
      ap (pick_manifest os architecture) same ∙ ground arith

  -- What is known at the end, of `n` attempts that were allowed.
  abbrev pub Ends : ℕ → ℕ → S → S × Option MergeError → Type 0
  Ends n attempt s (t, none) = (k : ℕ) × (u : S) × Retries k attempt s u × Settled u t × Merges u
  Ends n attempt s (t, some not_tagged) =
      (k : ℕ) × (u : S) × Retries k attempt s u × ((written u).1 ≡ false) × (t ≡ (written u).0)
  Ends n attempt s (t, some did_not_survive) = Retries n attempt s t

  Ends-again :
      (n attempt : ℕ) (s s' : S) (x : S × Option MergeError)
      → ((k : ℕ) (t : S) → Retries k (attempt + 1) s' t → Retries (suc k) attempt s t)
      → Ends n (attempt + 1) s' x
      → Ends (suc n) attempt s x
  Ends-again n attempt s s' (t, none) more (k, u, r, done, merged) =
      (suc k, u, more k u r, done, merged)
  Ends-again n attempt s s' (t, some not_tagged) more (k, u, r, done, last) =
      (suc k, u, more k u r, done, last)
  Ends-again n attempt s s' (t, some did_not_survive) more r = more n t r

  survives-Settled :
      (s : S)
      → (written s).1 ≡ true
      → (survives repo ver desc (written s).0).1 ≡ true
      → Settled s (survives repo ver desc (written s).0).0
  survives-Settled s h k =
      let one = fetch_or_new_index repo ver (written s).0 in
      let two = fetch_or_new_index repo ver (repo.settle one.0) in
      elim (Bool-cases (index_has_manifest one.1 desc)) [
        | inr lost ↦
            let same : survives repo ver desc (written s).0 ≡ (one.0, false) =
              unfold survives in (ground arith) in
            ground arith
        | inl there ↦
            let same : survives repo ver desc (written s).0
                ≡ (two.0, index_has_manifest two.1 desc) =
              unfold survives in (ground arith) in
            record {
              taken = h;
              first = there;
              second = ground arith;
              last = ap (λ (x : S × Bool). x.0) same;
            }
      ]

  merge_loop-Ends :
      (left attempt : ℕ) (s : S) → Ends left attempt s (merge_loop repo ver left attempt desc s)
  unfolding merge_loop
  merge_loop-Ends zero attempt s = no_more
  merge_loop-Ends (suc left) attempt s =
      let whole = merge_loop repo ver (suc left) attempt desc s in
      let s2 = (written s).0 in
      let looked = survives repo ver desc s2 in
      let s4 = repo.back_off (attempt + 1) looked.0 in
      elim (Bool-cases (written s).1) [
        | inr refused ↦
            let same : whole ≡ (s2, some not_tagged) = ground arith in
            subst (Ends (suc left) attempt s) (sym same) (0, s, no_more, refused, refl)
        | inl taken ↦ elim (Bool-cases looked.1) [
          | inl there ↦
              let same : whole ≡ (looked.0, none) = ground arith in
              subst (Ends (suc left) attempt s) (sym same)
                (0, s, no_more, survives-Settled s taken there, merged_index-Merges s)
          | inr lost ↦
              let same : whole ≡ merge_loop repo ver left (attempt + 1) desc s4 = ground arith in
              subst (Ends (suc left) attempt s) (sym same) (
                Ends-again left attempt s s4 (merge_loop repo ver left (attempt + 1) desc s4)
                  (λ k t r. again taken lost r) (merge_loop-Ends left (attempt + 1) s4))
        ]
      ]

  -- `merge_platform_into_index` retries while the index that it wrote is found without the manifest.
  -- Where it returns no error, the registry took the index of the last attempt, and two looks at the
  -- index, with the pause between them, found the manifest; for each platform that index held the
  -- manifest that was put in, or the last one tagged for the platform, or else the one that the index
  -- had before. An error means that the registry refused the last index, or that six attempts were
  -- taken and none was seen to survive. This holds whatever other writers do between the calls.
  pub merge_platform_into_index-Ends :
      (s : S) → Ends index_retry_attempts 0 s (merge_platform_into_index repo ver desc s)
  unfolding merge_platform_into_index
  merge_platform_into_index-Ends s = merge_loop-Ends index_retry_attempts 0 s
