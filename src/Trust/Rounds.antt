-- ===== src/Trust/Rounds.antt =====
-- trust.go: the rounds of the loop of `count`, and the signers that they count.
use bottle.Common.{
  List, [], ◌∷◌, ◌++◌, ◌≡◌, ◌⊎◌, inl, inr, refl, sym, Bool, true, false, Option, none, some, map,
  arith, append_assoc, append-nil,
}
use bottle.Common.Dict.{mem_bytes}
use bottle.Common.Lists.{is_empty, any}
use bottle.Common.Tests.{Bool-cases, Option-cases}
use bottle.Common.Text.{Bytes}
use bottle.Trust.{
  Crypto, Signer, TrustSet, Attestation, RevokedKey, Tally, key_id, verifies, revoked_by,
  find_signer, hinted, verify_one, note_signer, visit, visit_all,
}

abbrev pub is_none : Option RevokedKey → Bool
is_none none = true
is_none (some r) = false

abbrev pub IsIn : Signer → List Signer → Type 0
IsIn s [] = ⊥
IsIn s (t ∷ ts) = (s ≡ t) ⊎ IsIn s ts

find_signer-none :
    (crypto : Crypto) (test : Signer → Bool) (ss : List Signer)
    → find_signer crypto test ss ≡ none
    → any test ss ≡ false
find_signer-none crypto test [] e = refl
find_signer-none crypto test (t ∷ ts) e = ground (arith, find_signer-none crypto test ts)

find_signer-some :
    (crypto : Crypto) (test : Signer → Bool) (ss : List Signer) (s : Signer)
    → find_signer crypto test ss ≡ some s
    → IsIn s ss × (test s ≡ true)
find_signer-some crypto test [] s e = cc
find_signer-some crypto test (t ∷ ts) s e = elim (Bool-cases (test t)) [
  | inl found ↦ let same : t ≡ s = ground arith in (inl (sym same), ground arith)
  | inr other ↦
      let (inside, good) = find_signer-some crypto test ts s (ground arith) in (inr inside, good)
]

module _ (crypto : Crypto) (t : TrustSet) (digest : Bytes) where
  -- A signature is found exactly where some trusted key made it, whatever key its hint names.
  pub verify_one-some :
      (a : Attestation) (s : Signer)
      → verify_one crypto digest a t.signers ≡ some s
      → IsIn s t.signers × (verifies crypto digest a s ≡ true)
  unfolding verify_one
  verify_one-some a s e =
      elim (Option-cases (find_signer crypto (hinted crypto digest a) t.signers)) [
        | inr (h, k) ↦ elim (Bool-cases (is_empty a.key_hint)) [
          | inl bare ↦ find_signer-some crypto (verifies crypto digest a) t.signers s (ground arith)
          | inr given ↦
              let (inside, good) =
                find_signer-some crypto (hinted crypto digest a) t.signers s (ground arith) in
              (inside, ground arith)
        ]
        | inl k ↦ find_signer-some crypto (verifies crypto digest a) t.signers s (ground arith)
      ]

  pub verify_one-none :
      (a : Attestation)
      → verify_one crypto digest a t.signers ≡ none
      → any (verifies crypto digest a) t.signers ≡ false
  unfolding verify_one
  verify_one-none a e =
      elim (Option-cases (find_signer crypto (hinted crypto digest a) t.signers)) [
        | inr (h, k) ↦ find_signer-none crypto (verifies crypto digest a) t.signers (ground arith)
        | inl k ↦ find_signer-none crypto (verifies crypto digest a) t.signers (ground arith)
      ]

  -- The signer that a round counts, unless its key has been counted.
  unfoldable pub accepted : Attestation → Option Signer
  accepted a = elim (revoked_by crypto digest a t.revoked) [
    | some r ↦ none
    | none ↦ verify_one crypto digest a t.signers
  ]

  -- The signers in the order in which they are counted; `seen` are the ids counted before.
  unfoldable pub quorum : List Bytes → List Attestation → List Signer
  quorum seen [] = []
  quorum seen (a ∷ atts) = elim (accepted a) [
    | none ↦ quorum seen atts
    | some s ↦ elim (mem_bytes (key_id crypto s) seen) [
      | true ↦ quorum seen atts
      | false ↦ s ∷ quorum (seen ++ key_id crypto s ∷ []) atts
    ]
  ]

  module _ (seen : List Bytes) (a : Attestation) (atts : List Attestation) where
    -- A round that counts nobody.
    abbrev pub Passed : Type 0
    Passed =
        (quorum seen (a ∷ atts) ≡ quorum seen atts)
        × ((accepted a ≡ none)
            ⊎ ((s : Signer) × (accepted a ≡ some s) × (mem_bytes (key_id crypto s) seen ≡ true)))

    -- A round that counts a signer.
    abbrev pub Grown : Type 0
    Grown =
        (s : Signer) × (accepted a ≡ some s)
        × (mem_bytes (key_id crypto s) seen ≡ false)
        × (quorum seen (a ∷ atts) ≡ s ∷ quorum (seen ++ key_id crypto s ∷ []) atts)

    pub quorum_cases : Passed ⊎ Grown
    unfolding quorum
    quorum_cases = elim (Option-cases (accepted a)) [
      | inl k ↦ inl (ground arith, inl k)
      | inr (s, k) ↦ elim (Bool-cases (mem_bytes (key_id crypto s) seen)) [
        | inl old ↦ inl (ground arith, inr (s, k, old))
        | inr new ↦ inr (s, k, new, ground arith)
      ]
    ]

  abbrev Idle : Attestation → Type 0
  Idle a =
      (accepted a ≡ none)
      × ((w : Tally)
          → ((visit crypto t digest a w).names ≡ w.names)
            × ((visit crypto t digest a w).counted ≡ w.counted))

  abbrev CountsOne : Attestation → Type 0
  CountsOne a =
      (s : Signer) × (accepted a ≡ some s)
      × ((w : Tally) → visit crypto t digest a w ≡ note_signer crypto t digest s w)

  -- A round counts a signer, or leaves the names as they are.
  round_cases : (a : Attestation) → Idle a ⊎ CountsOne a
  unfolding visit accepted
  round_cases a = elim (Option-cases (revoked_by crypto digest a t.revoked)) [
    | inr (r, k) ↦ inl (ground arith, λ w. (ground arith, ground arith))
    | inl k ↦ elim (Option-cases (verify_one crypto digest a t.signers)) [
      | inl l ↦ inl (ground arith, λ w. (ground arith, ground arith))
      | inr (s, l) ↦ inr (s, ground arith, λ w. ground arith)
    ]
  ]

  visit_all_step :
      (a : Attestation) (atts : List Attestation) (w : Tally)
      → visit_all crypto t digest (a ∷ atts) w
        ≡ visit_all crypto t digest atts (visit crypto t digest a w)
  unfolding visit_all
  visit_all_step a atts w = refl

  abbrev pub names_of : List Signer → List Bytes
  names_of ss = map (λ s. s.name) ss

  pub visit_all-names :
      (atts : List Attestation) (w : Tally)
      → (visit_all crypto t digest atts w).names ≡ w.names ++ names_of (quorum w.counted atts)
  unfolding quorum
  visit_all-names [] w = unfold visit_all in (sym (append-nil w.names))
  visit_all-names (a ∷ atts) w =
      let later = visit_all-names atts (visit crypto t digest a w) in
      rw (visit_all_step a atts w) (elim (round_cases a) [
        | inl (k, same) ↦ let (names, counted) = same w in ground (arith)
        | inr (s, k, step) ↦ elim (Bool-cases (mem_bytes (key_id crypto s) w.counted)) [
          | inl old ↦ let here = step w in ground arith
          | inr new ↦
              let here = step w in
              let rest = names_of (quorum (w.counted ++ key_id crypto s ∷ []) atts) in
              ground (arith, append_assoc w.names (s.name ∷ []) rest)
        ]
      ])
