-- ===== src/Trust/Quorum.antt =====
-- trust.go: what stands behind the names that `count` returns and the verdict on them.
use bottle.Common.{
  ℕ, suc, ◌≤◌, List, [], ◌∷◌, ◌++◌, ◌≡◌, ◌⊎◌, inl, inr, refl, sym, ◌∙◌, ap, subst, ◌&&◌, ◌||◌, not,
  Bool, true, false, none, some, map, arith,
}
use bottle.Common.Dict.{mem-append, IsOnce, mem_bytes}
use bottle.Common.Lists.{length, any, All, All-map}
use bottle.Common.Result.{ok}
use bottle.Common.Sort.{sort_texts, length-sort_texts}
use bottle.Common.Tests.{Option-cases}
use bottle.Common.Text.{Bytes, bytes_eq→eq, eq→bytes_eq}
use bottle.Trust.{
  Crypto, Signer, TrustSet, Attestation, Tally, empty_tally, key_id, verifies, revoked_by,
  verify_one, visit_all, count, report, report_err,
}
use bottle.Trust.Rounds.{
  is_none, IsIn, verify_one-some, verify_one-none, accepted, quorum, quorum_cases, names_of,
  visit_all-names,
}

module _ (crypto : Crypto) (t : TrustSet) (digest : Bytes) where
  abbrev pub ids_of : List Signer → List Bytes
  ids_of ss = map (key_id crypto) ss

  abbrev IsFresh : List Bytes → List Signer → Type 0
  IsFresh seen ss = All (λ s. mem_bytes (key_id crypto s) seen ≡ false) ss

  -- Signers that are fresh after one more id are fresh before it, and none of them has the id.
  IsFresh-before :
      (seen : List Bytes) (k : Bytes) (ss : List Signer)
      → IsFresh (seen ++ k ∷ []) ss
      → IsFresh seen ss × (mem_bytes k (ids_of ss) ≡ false)
  IsFresh-before seen k [] h = (tt, refl)
  IsFresh-before seen k (s ∷ ss) (h, hs) =
      let (fresh, apart) = IsFresh-before seen k ss hs in
      let both = mem-append (key_id crypto s) seen (k ∷ []) in
      let turn = bytes_eq→eq k (key_id crypto s) in
      let back = eq→bytes_eq k (key_id crypto s) in
      let turn' = bytes_eq→eq (key_id crypto s) k in
      let back' = eq→bytes_eq (key_id crypto s) k in ((ground arith, fresh), ground arith)

  -- No key is counted that was counted before, and none twice.
  quorum-IsFresh :
      (seen : List Bytes) (atts : List Attestation)
      → IsFresh seen (quorum crypto t digest seen atts)
        × IsOnce (ids_of (quorum crypto t digest seen atts))
  quorum-IsFresh seen [] = unfold quorum in (tt, tt)
  quorum-IsFresh seen (a ∷ atts) = elim (quorum_cases crypto t digest seen a atts) [
    | inl (same, why) ↦
        subst (λ ss. IsFresh seen ss × IsOnce (ids_of ss)) (sym same) (quorum-IsFresh seen atts)
    | inr (s, k, new, more) ↦
        let (apart, once) = quorum-IsFresh (seen ++ key_id crypto s ∷ []) atts in
        let (fresh, own) =
          IsFresh-before seen (key_id crypto s)
            (quorum crypto t digest (seen ++ key_id crypto s ∷ []) atts) apart in
        subst (λ ss. IsFresh seen ss × IsOnce (ids_of ss)) (sym more) ((new, fresh), (own, once))
  ]

  -- The key made a signature that is examined, and that no revoked key made.
  abbrev pub vouches : List Attestation → Signer → Bool
  vouches atts s =
      any (λ a. is_none (revoked_by crypto digest a t.revoked) && verifies crypto digest a s) atts

  abbrev pub IsVoucher : List Attestation → Signer → Type 0
  IsVoucher atts s = IsIn s t.signers × (vouches atts s ≡ true)

  accepted-vouches :
      (a : Attestation) (atts : List Attestation) (s : Signer)
      → accepted crypto t digest a ≡ some s
      → IsVoucher (a ∷ atts) s
  unfolding accepted
  accepted-vouches a atts s e = elim (Option-cases (revoked_by crypto digest a t.revoked)) [
    | inr (r, k) ↦ absurd (ground arith)
    | inl k ↦
        let (inside, good) = verify_one-some crypto t digest a s (ground arith) in
        (inside, ground arith)
  ]

  IsVoucher-wider :
      (a : Attestation) (atts : List Attestation) (ss : List Signer)
      → All (IsVoucher atts) ss
      → All (IsVoucher (a ∷ atts)) ss
  IsVoucher-wider a atts ss h = All-map (λ s (k : IsVoucher atts s). (k.0, ground arith)) ss h

  quorum-vouches :
      (seen : List Bytes) (atts : List Attestation)
      → All (IsVoucher atts) (quorum crypto t digest seen atts)
  quorum-vouches seen [] = unfold quorum in tt
  quorum-vouches seen (a ∷ atts) = elim (quorum_cases crypto t digest seen a atts) [
    | inl (same, why) ↦
        subst (All (IsVoucher (a ∷ atts))) (sym same)
          (IsVoucher-wider a atts (quorum crypto t digest seen atts) (quorum-vouches seen atts))
    | inr (s, k, new, more) ↦
        let rest = quorum crypto t digest (seen ++ key_id crypto s ∷ []) atts in
        subst (All (IsVoucher (a ∷ atts))) (sym more) (
          accepted-vouches a atts s k,
          IsVoucher-wider a atts rest (quorum-vouches (seen ++ key_id crypto s ∷ []) atts),
        )
  ]

  -- What becomes of a signature: no key is counted for it, or the key that made it is counted.
  abbrev settled : List Bytes → List Signer → Attestation → Bool
  settled seen ss a = elim (accepted crypto t digest a) [
    | none ↦ true
    | some s ↦ mem_bytes (key_id crypto s) seen || mem_bytes (key_id crypto s) (ids_of ss)
  ]

  settled_later :
      (seen : List Bytes) (s : Signer) (ss : List Signer) (a : Attestation)
      → settled (seen ++ key_id crypto s ∷ []) ss a ≡ true
      → settled seen (s ∷ ss) a ≡ true
  settled_later seen s ss a h = elim (Option-cases (accepted crypto t digest a)) [
    | inl k ↦ ground arith
    | inr (u, k) ↦ ground (arith, mem-append (key_id crypto u) seen (key_id crypto s ∷ []))
  ]

  settled_passed :
      (seen : List Bytes) (ss : List Signer) (a : Attestation)
      → (accepted crypto t digest a ≡ none)
        ⊎ ((s : Signer) × (accepted crypto t digest a ≡ some s)
            × (mem_bytes (key_id crypto s) seen ≡ true))
      → settled seen ss a ≡ true
  settled_passed seen ss a (inl k) = ground arith
  settled_passed seen ss a (inr (s, k, old)) = ground arith

  abbrev AreSettled : List Bytes → List Signer → List Attestation → Type 0
  AreSettled seen ss atts = All (λ a. settled seen ss a ≡ true) atts

  quorum-settled :
      (seen : List Bytes) (atts : List Attestation)
      → AreSettled seen (quorum crypto t digest seen atts) atts
  quorum-settled seen [] = tt
  quorum-settled seen (a ∷ atts) = elim (quorum_cases crypto t digest seen a atts) [
    | inl (same, why) ↦
        subst (λ ss. AreSettled seen ss (a ∷ atts)) (sym same)
          (settled_passed seen (quorum crypto t digest seen atts) a why, quorum-settled seen atts)
    | inr (s, k, new, more) ↦
        let rest = quorum crypto t digest (seen ++ key_id crypto s ∷ []) atts in
        subst (λ ss. AreSettled seen ss (a ∷ atts)) (sym more)
          (
            ground (arith, eq→bytes_eq (key_id crypto s) (key_id crypto s) refl),
            All-map (settled_later seen s rest) atts
                (quorum-settled (seen ++ key_id crypto s ∷ []) atts),
          )
  ]

  any-IsIn :
      (p : Signer → Bool) (s : Signer) (ss : List Signer) → IsIn s ss → p s ≡ true → any p ss ≡ true
  any-IsIn p s [] h e = absurd h
  any-IsIn p s (u ∷ ss) (inl same) e = let here = ap p same in ground arith
  any-IsIn p s (u ∷ ss) (inr inside) e = ground (arith, any-IsIn p s ss inside e)

  -- A revoked key made the signature, or no trusted key did, or the id of a key that did is counted.
  abbrev pub covered : List Signer → Attestation → Bool
  covered ss a =
      not (is_none (revoked_by crypto digest a t.revoked))
      || not (any (verifies crypto digest a) t.signers)
      || any (λ s. verifies crypto digest a s && mem_bytes (key_id crypto s) (ids_of ss)) t.signers

  settled-covered :
      (ss : List Signer) (a : Attestation) → settled [] ss a ≡ true → covered ss a ≡ true
  unfolding accepted
  settled-covered ss a h = elim (Option-cases (revoked_by crypto digest a t.revoked)) [
    | inr (r, k) ↦ ground arith
    | inl k ↦ elim (Option-cases (verify_one crypto digest a t.signers)) [
      | inl l ↦ ground (arith, verify_one-none crypto t digest a l)
      | inr (s, l) ↦
          let (inside, good) = verify_one-some crypto t digest a s l in
          let own : (verifies crypto digest a s && mem_bytes (key_id crypto s) (ids_of ss)) ≡ true =
            ground arith in
          ground (
            arith,
            any-IsIn (λ u. verifies crypto digest a u && mem_bytes (key_id crypto u) (ids_of ss)) s
                t.signers inside own,
          )
    ]
  ]

  -- The signers behind the names of a count: the names are theirs in order, no two have one key id,
  -- each is in the trust set and made a signature on the digest that no revoked key made, and no
  -- signature that a signer of the trust set made, and no revoked key, is left out.
  pub record IsQuorum (atts : List Attestation) (names : List Bytes) (ss : List Signer)
      : Type 0 where
    pub named : names ≡ sort_texts (names_of crypto t digest ss)
    pub once : IsOnce (ids_of ss)
    pub vouched : All (IsVoucher atts) ss
    pub complete : All (λ a. covered ss a ≡ true) atts

  count-IsQuorum :
      (atts : List Attestation) (w : Tally)
      → count crypto t digest atts ≡ ok w
      → IsQuorum atts w.names (quorum crypto t digest [] atts)
  unfolding count
  count-IsQuorum atts w e =
      let names = visit_all-names crypto t digest atts empty_tally in
      let sorted : w.names ≡ sort_texts (visit_all crypto t digest atts empty_tally).names =
        ground arith in
      record {
        named = sorted ∙ ap sort_texts names;
        once = (quorum-IsFresh [] atts).1;
        vouched = quorum-vouches [] atts;
        complete =
            All-map (settled-covered (quorum crypto t digest [] atts)) atts
              (quorum-settled [] atts);
      }

  length-names_of : (ss : List Signer) → length (names_of crypto t digest ss) ≡ length ss
  length-names_of [] = refl
  length-names_of (s ∷ ss) = ap suc (length-names_of ss)

-- When `count` returns and the verdict on its report is no error, there are as many signers behind
-- the names as the threshold asks for, and at least one whatever the threshold. The names are theirs,
-- no two have the same key id, each is in the trust set and made a signature on the digest that no
-- revoked key made; and of each signature that a trusted key made, and no revoked key, the id of such
-- a key is counted.
pub report_err-IsQuorum :
    (crypto : Crypto) (t : TrustSet) (digest : Bytes) (atts : List Attestation) (w : Tally)
    → (malformed : ℕ) → count crypto t digest atts ≡ ok w
    → report_err (report t malformed w) ≡ none
    → (ss : List Signer) × IsQuorum crypto t digest atts w.names ss
      × (1 ≤ length ss)
      × (t.threshold ≤ length ss)
unfolding report_err
report_err-IsQuorum crypto t digest atts w malformed e good =
    let q = count-IsQuorum crypto t digest atts w e in
    let ss = quorum crypto t digest [] atts in
    let many : length w.names ≡ length ss =
      ap length q.named
      ∙ (length-sort_texts (names_of crypto t digest ss) ∙ length-names_of crypto t digest ss) in
    (ss, q, ground arith, ground arith)
