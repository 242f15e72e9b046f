-- ===== src/Trust.antt =====
-- trust.go: which keys are believed, and who of them signed a bottle.
pub mod Quorum
pub mod Keys
pub mod Rounds
use bottle.Common.{
  ℕ, suc, ◌+◌, ◌-◌, ◌/◌, ◌%◌, List, [], ◌∷◌, ◌++◌, ◌&&◌, ◌||◌, not, Bool, true, false, Option, none,
  some,
}
use bottle.Common.Dict.{mem_bytes}
use bottle.Common.Lists.{length, is_empty, keep_if}
use bottle.Common.Result.{Result, ok, err}
use bottle.Common.Sort.{sort_texts}
use bottle.Common.Tests.{ltb, leb, if◌then◌else◌}
use bottle.Common.Text.{Bytes, bytes_eq}

-- What the package `sign` and `json.Unmarshal` answer: `sign.ParsePublicKey` (the key id and the
-- key), `sign.VerifyBlob` (whether its error is nil), and the field `docker-manifest-digest` of a
-- payload.
pub record Crypto : Type 0 where
  pub parse_public_key : Bytes → Option (Bytes × Bytes)
  pub verify_blob : (payload sig key : Bytes) → Bool
  pub image_digest : Bytes → Option Bytes

-- The struct `Signer`; `parsed` holds the fields `id` and `pub`, and is `none` where `pub` is nil.
pub record Signer : Type 0 where
  pub name : Bytes
  pub key : Bytes
  pub parsed : Option (Bytes × Bytes)

-- The struct `RevokedKey`.
pub record RevokedKey : Type 0 where
  pub name : Bytes
  pub key : Bytes
  pub because : Bytes

-- The struct `Attestation`.
pub record Attestation : Type 0 where
  pub payload : Bytes
  pub sig : Bytes
  pub key_hint : Bytes

-- The struct `TrustSet`.
pub record TrustSet : Type 0 where
  pub signers : List Signer
  pub threshold : ℕ
  pub revoked : List RevokedKey

abbrev pub max_signatures : ℕ
max_signatures = 32

abbrev pub default_threshold : ℕ
default_threshold = 1

-- `hex.EncodeToString`
abbrev pub hex_digit : ℕ → ℕ
hex_digit d = if ltb d 10 then b'0' + d else b'a' + (d - 10)

abbrev pub hex_of : Bytes → Bytes
hex_of [] = []
hex_of (c ∷ s) = hex_digit (c / 16) ∷ hex_digit (c % 16) ∷ hex_of s

abbrev pub zero_id : Bytes
zero_id = 0 ∷ 0 ∷ 0 ∷ 0 ∷ 0 ∷ 0 ∷ 0 ∷ 0 ∷ []

-- `Signer{Name: r.Name, Key: r.Key}`
abbrev pub as_signer : RevokedKey → Signer
as_signer r = record { name = r.name; key = r.key; parsed = none }

-- `payloadCommitsTo`, in verify.go: whether its error is nil.
abbrev pub payload_commits_to : Crypto → Bytes → Bytes → Bool
payload_commits_to crypto payload digest = elim (crypto.image_digest payload) [
  | none ↦ false
  | some d ↦ bytes_eq d digest
]

module _ (crypto : Crypto) where
  -- The key of a signer, parsed where it stands as a text only.
  abbrev pub parsed_key : Signer → Option (Bytes × Bytes)
  parsed_key s = elim s.parsed [ some k ↦ some k | none ↦ crypto.parse_public_key s.key ]

  -- `Signer.KeyID`.
  unfoldable pub key_id : Signer → Bytes
  key_id s = elim (parsed_key s) [ some (id, key) ↦ hex_of id | none ↦ hex_of zero_id ]

  -- `Signer.verifies`.
  unfoldable pub verifies : Bytes → Attestation → Signer → Bool
  verifies digest a s = elim (parsed_key s) [
    | none ↦ false
    | some (id, key) ↦
        crypto.verify_blob a.payload a.sig key && payload_commits_to crypto a.payload digest
  ]

  -- `TrustSet.revokedBy`.
  unfoldable pub revoked_by : Bytes → Attestation → List RevokedKey → Option RevokedKey
  revoked_by digest a [] = none
  revoked_by digest a (r ∷ rs) =
      let later = revoked_by digest a rs in
      if verifies digest a (as_signer r) then some r else later

  -- The loops of `TrustSet.verifyOne`: the first signer that passes a test.
  abbrev pub find_signer : (Signer → Bool) → List Signer → Option Signer
  find_signer test [] = none
  find_signer test (s ∷ ss) = let later = find_signer test ss in if test s then some s else later

  abbrev pub hinted : Bytes → Attestation → Signer → Bool
  hinted digest a s = bytes_eq (key_id s) a.key_hint && verifies digest a s

  -- `TrustSet.verifyOne`.
  unfoldable pub verify_one : Bytes → Attestation → List Signer → Option Signer
  verify_one digest a signers =
      let any_key = find_signer (verifies digest a) signers in
      if is_empty a.key_hint
      then any_key
      else elim (find_signer (hinted digest a) signers) [ some s ↦ some s | none ↦ any_key ]

  -- `dedupeSigners`; `seen` is the map of that name.
  unfoldable pub dedupe_signers : List Bytes → List Signer → List Signer
  dedupe_signers seen [] = []
  dedupe_signers seen (s ∷ ss) = elim (mem_bytes (key_id s) seen) [
    | true ↦ dedupe_signers seen ss
    | false ↦ s ∷ dedupe_signers (key_id s ∷ seen) ss
  ]

  abbrev pub revoked_ids : List RevokedKey → List Bytes
  revoked_ids [] = []
  revoked_ids (r ∷ rs) = key_id (as_signer r) ∷ revoked_ids rs

  -- `withoutRevoked`.
  unfoldable pub without_revoked : List Signer → List RevokedKey → List Signer
  without_revoked signers [] = signers
  without_revoked signers (r ∷ rs) =
      keep_if (λ s. not (mem_bytes (key_id s) (revoked_ids (r ∷ rs)))) signers

-- The variables of the loop of `TrustSet.count`.
pub record Tally : Type 0 where
  pub counted : List Bytes
  pub names : List Bytes
  pub untrusted : ℕ
  pub seen_revoked : List Bytes
  pub revoked : List RevokedKey

abbrev pub empty_tally : Tally
empty_tally = record { counted = []; names = []; untrusted = 0; seen_revoked = []; revoked = [] }

-- The errors of `TrustSet.count`.
pub data CountError : Type 0 where
  empty_trust_set : CountError
  too_many_signatures : ℕ → CountError

module _ (crypto : Crypto) (t : TrustSet) (digest : Bytes) where
  abbrev pub note_revoked : RevokedKey → Tally → Tally
  note_revoked r w =
      if mem_bytes (key_id crypto (as_signer r)) w.seen_revoked then w else record w {
        seen_revoked = w.seen_revoked ++ key_id crypto (as_signer r) ∷ [];
        revoked = w.revoked ++ r ∷ [];
      }

  abbrev pub note_signer : Signer → Tally → Tally
  note_signer s w =
      if mem_bytes (key_id crypto s) w.counted
      then w
      else record w { counted = w.counted ++ key_id crypto s ∷ []; names = w.names ++ s.name ∷ [] }

  -- One round of the loop.
  unfoldable pub visit : Attestation → Tally → Tally
  visit a w = elim (revoked_by crypto digest a t.revoked) [
    | some r ↦ note_revoked r w
    | none ↦ elim (verify_one crypto digest a t.signers) [
      | none ↦ record w { untrusted = w.untrusted + 1 }
      | some s ↦ note_signer s w
    ]
  ]

  unfoldable pub visit_all : List Attestation → Tally → Tally
  unfolding visit
  visit_all [] w = w
  visit_all (a ∷ atts) w = visit_all atts (visit a w)

  -- `TrustSet.count`.
  unfoldable pub count : List Attestation → Result CountError Tally
  unfolding visit_all sort_texts
  count atts =
      if is_empty t.signers && is_empty t.revoked
      then err empty_trust_set
      else if ltb max_signatures (length atts)
      then err (too_many_signatures (length atts))
      else (let w = visit_all atts empty_tally in ok (record w { names = sort_texts w.names }))

-- The part of the struct `SignatureReport` that the verdict reads.
pub record SignatureReport : Type 0 where
  pub signers : List Bytes
  pub untrusted : ℕ
  pub malformed : ℕ
  pub revoked : List RevokedKey
  pub threshold : ℕ

-- `SignatureReport.want`.
abbrev pub want : SignatureReport → ℕ
want r = if ltb r.threshold 1 then default_threshold else r.threshold

-- `SignatureReport.OK`.
unfoldable pub is_ok : SignatureReport → Bool
is_ok r = leb (want r) (length r.signers)

-- `SignatureReport.Signed`.
abbrev pub is_signed : SignatureReport → Bool
is_signed r =
    ltb 0 (length r.signers) || ltb 0 r.untrusted || ltb 0 r.malformed || ltb 0 (length r.revoked)

-- The report on a bottle, as `SignaturesOfDigest` makes it of what `count` returns.
abbrev pub report : TrustSet → ℕ → Tally → SignatureReport
report t malformed w = record {
  signers = w.names;
  untrusted = w.untrusted;
  malformed = malformed;
  revoked = w.revoked;
  threshold = t.threshold;
}

-- The errors of `SignatureReport.Err`: the second is that of `shortOfThreshold`.
pub data ReportError : Type 0 where
  unsigned : ReportError
  short_of_threshold : SignatureReport → ReportError

-- `SignatureReport.Err`.
unfoldable pub report_err : SignatureReport → Option ReportError
unfolding is_ok
report_err r =
    if is_ok r
    then none
    else if not (is_signed r)
    then some unsigned
    else some (short_of_threshold r)
