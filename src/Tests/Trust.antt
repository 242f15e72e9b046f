-- ===== src/Tests/Trust.antt =====
-- A trust set of two keys and a revoked one, over a toy signature scheme.
use bottle.Common.{List, [], ◌∷◌, refl, none, some}
use bottle.Common.Lists.{length}
use bottle.Common.Text.{Bytes, codes, bytes_eq}
use bottle.Common.{◌≤◌}
use bottle.Trust.{
  revoked_by, verifies, verify_one, Crypto, Signer, Attestation, TrustSet, Tally, key_id, count,
  report_err,
}
use bottle.Trust.Quorum.{IsQuorum, report_err-IsQuorum}

-- A signature is the key that makes it, and a payload is the digest.
abbrev pub toy : Crypto
toy = record {
  parse_public_key = λ key. some (key, key);
  verify_blob = λ payload sig key. bytes_eq sig key;
  image_digest = λ payload. some payload;
}

abbrev signer : Bytes → Signer
signer k = record { name = k; key = k; parsed = none }

abbrev pub two_keys : TrustSet
two_keys = record {
  signers = signer (codes "zed") ∷ signer (codes "ann") ∷ [];
  threshold = 2;
  revoked = record { name = codes "old"; key = codes "old"; because = codes "exposed" } ∷ [];
}

abbrev signed_by : Bytes → Attestation
signed_by k = record { payload = codes "d"; sig = k; key_hint = [] }

-- The key `zed` signs twice, and the revoked key and a stranger once.
abbrev pub attached : List Attestation
attached =
    signed_by (codes "zed")
    ∷ signed_by (codes "zed")
    ∷ signed_by (codes "old")
    ∷ signed_by (codes "ann")
    ∷ signed_by (codes "who")
    ∷ []

abbrev tally : Tally
tally = record {
  counted = key_id toy (signer (codes "zed")) ∷ key_id toy (signer (codes "ann")) ∷ [];
  names = codes "ann" ∷ codes "zed" ∷ [];
  untrusted = 1;
  seen_revoked = key_id toy (signer (codes "old")) ∷ [];
  revoked = two_keys.revoked;
}

report_err-IsQuorum_example :
    (ss : List Signer) × IsQuorum toy two_keys (codes "d") attached tally.names ss
    × (1 ≤ length ss)
    × (two_keys.threshold ≤ length ss)
unfolding count report_err revoked_by verifies bytes_eq verify_one key_id
report_err-IsQuorum_example =
    report_err-IsQuorum toy two_keys (codes "d") attached tally 0 refl refl
