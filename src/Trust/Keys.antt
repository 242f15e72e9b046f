-- ===== src/Trust/Keys.antt =====
-- trust.go: the keys of a trust set, after `dedupeSigners` and `withoutRevoked`.
use bottle.Common.{
  List, [], ◌∷◌, ◌≡◌, inl, inr, refl, sym, subst, ◌&&◌, not, true, false, map, arith,
}
use bottle.Common.Dict.{IsOnce, mem_bytes}
use bottle.Common.Lists.{keep_if}
use bottle.Common.Tests.{Bool-cases}
use bottle.Common.Text.{Bytes, bytes_eq→eq, eq→bytes_eq}
use bottle.Trust.{Crypto, Signer, RevokedKey, key_id, dedupe_signers, revoked_ids, without_revoked}

module _ (crypto : Crypto) where
  abbrev pub key_ids : List Signer → List Bytes
  key_ids ss = map (key_id crypto) ss

  module _ (seen : List Bytes) (s : Signer) (ss : List Signer) where
    dedupe_signers_old :
        mem_bytes (key_id crypto s) seen ≡ true
        → dedupe_signers crypto seen (s ∷ ss) ≡ dedupe_signers crypto seen ss
    unfolding dedupe_signers
    dedupe_signers_old old = ground arith

    dedupe_signers_new :
        mem_bytes (key_id crypto s) seen ≡ false
        → dedupe_signers crypto seen (s ∷ ss)
          ≡ s ∷ dedupe_signers crypto (key_id crypto s ∷ seen) ss
    unfolding dedupe_signers
    dedupe_signers_new new = ground arith

  -- The ids that are left: those of the input that were not seen.
  mem-dedupe_signers :
      (k : Bytes) (seen : List Bytes) (ss : List Signer)
      → mem_bytes k (key_ids (dedupe_signers crypto seen ss))
        ≡ (mem_bytes k (key_ids ss) && not (mem_bytes k seen))
  mem-dedupe_signers k seen [] = unfold dedupe_signers in refl
  mem-dedupe_signers k seen (s ∷ ss) = elim (Bool-cases (mem_bytes (key_id crypto s) seen)) [
    | inl old ↦
        rw (dedupe_signers_old seen s ss old)
          (ground (arith, mem-dedupe_signers k seen ss, bytes_eq→eq k (key_id crypto s)))
    | inr new ↦ rw (dedupe_signers_new seen s ss new) (
        ground (
          arith,
          mem-dedupe_signers k (key_id crypto s ∷ seen) ss,
          bytes_eq→eq k (key_id crypto s),
        ))
  ]

  dedupe_signers-IsOnce :
      (seen : List Bytes) (ss : List Signer) → IsOnce (key_ids (dedupe_signers crypto seen ss))
  dedupe_signers-IsOnce seen [] = unfold dedupe_signers in tt
  dedupe_signers-IsOnce seen (s ∷ ss) = elim (Bool-cases (mem_bytes (key_id crypto s) seen)) [
    | inl old ↦ rw (dedupe_signers_old seen s ss old) (dedupe_signers-IsOnce seen ss)
    | inr new ↦ rw (dedupe_signers_new seen s ss new) (
      ground (
        arith,
        mem-dedupe_signers (key_id crypto s) (key_id crypto s ∷ seen) ss,
        eq→bytes_eq (key_id crypto s) (key_id crypto s) refl,
      ),
      dedupe_signers-IsOnce (key_id crypto s ∷ seen) ss,
    )
  ]

  abbrev unless_in : List Bytes → List Signer → List Signer
  unless_in bad ss = keep_if (λ s. not (mem_bytes (key_id crypto s) bad)) ss

  mem-unless_in :
      (k : Bytes) (bad : List Bytes) (ss : List Signer)
      → mem_bytes k (key_ids (unless_in bad ss))
        ≡ (mem_bytes k (key_ids ss) && not (mem_bytes k bad))
  mem-unless_in k bad [] = refl
  mem-unless_in k bad (s ∷ ss) = elim (Bool-cases (mem_bytes (key_id crypto s) bad)) [
    | inl out ↦ ground (arith, mem-unless_in k bad ss, bytes_eq→eq k (key_id crypto s))
    | inr kept ↦ ground (arith, mem-unless_in k bad ss, bytes_eq→eq k (key_id crypto s))
  ]

  unless_in-IsOnce :
      (bad : List Bytes) (ss : List Signer)
      → IsOnce (key_ids ss)
      → IsOnce (key_ids (unless_in bad ss))
  unless_in-IsOnce bad [] h = tt
  unless_in-IsOnce bad (s ∷ ss) (own, once) = elim (Bool-cases (mem_bytes (key_id crypto s) bad)) [
    | inl out ↦
        let left : unless_in bad (s ∷ ss) ≡ unless_in bad ss = ground arith in
        subst (λ us. IsOnce (key_ids us)) (sym left) (unless_in-IsOnce bad ss once)
    | inr kept ↦
        let left : unless_in bad (s ∷ ss) ≡ s ∷ unless_in bad ss = ground arith in
        subst (λ us. IsOnce (key_ids us)) (sym left)
          (ground (arith, mem-unless_in (key_id crypto s) bad ss), unless_in-IsOnce bad ss once)
  ]

  -- The keys of a compiled-in trust set.
  abbrev pub believed : List Signer → List RevokedKey → List Signer
  believed signers rs = without_revoked crypto (dedupe_signers crypto [] signers) rs

  believed-exact :
      (signers : List Signer) (rs : List RevokedKey)
      → IsOnce (key_ids (believed signers rs))
        × ((k : Bytes)
            → mem_bytes k (key_ids (believed signers rs))
              ≡ (mem_bytes k (key_ids signers) && not (mem_bytes k (revoked_ids crypto rs))))
  unfolding without_revoked
  believed-exact signers [] =
      (dedupe_signers-IsOnce [] signers, λ k. ground (arith, mem-dedupe_signers k [] signers))
  believed-exact signers (r ∷ rs) = (
    unless_in-IsOnce (revoked_ids crypto (r ∷ rs)) (dedupe_signers crypto [] signers)
        (dedupe_signers-IsOnce [] signers),
    λ k. ground (
      arith,
      mem-unless_in k (revoked_ids crypto (r ∷ rs)) (dedupe_signers crypto [] signers),
      mem-dedupe_signers k [] signers,
    ),
  )

-- Of the compiled-in signers, `dedupeSigners` and `withoutRevoked` leave one for each key id that is
-- not the id of a revoked key, and none for any other: no id stands twice, and an id stands there
-- exactly when it is a signer's and not a revoked key's.
pub without_revoked-dedupe_signers :
    (crypto : Crypto) (signers : List Signer) (rs : List RevokedKey) (k : Bytes)
    → IsOnce (key_ids crypto (believed crypto signers rs))
      × (mem_bytes k (key_ids crypto (believed crypto signers rs))
          ≡ (mem_bytes k (key_ids crypto signers) && not (mem_bytes k (revoked_ids crypto rs))))
without_revoked-dedupe_signers crypto signers rs k =
    let (once, exact) = believed-exact crypto signers rs in (once, exact k)
