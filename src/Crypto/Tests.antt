-- ===== src/Crypto/Tests.antt =====
-- Concrete values and envelopes, and the theorems on internal/cryptoenv applied to them.
mod Names
mod Bundle
use drop_point.Base.{
  ℕ, ◌≡◌, ◌↔◌, refl, Bool, true, false, List, [], ◌∷◌, Bytes, is_empty, if◌then◌else◌, codes, arith,
  All,
}
use drop_point.Errors.{Result, ok, err, invalid_argument}
use drop_point.Token.Base64.{encode}
use drop_point.Token.Laws.{IsByte}
use drop_point.Crypto.Json.{reject_duplicate_json_fields}
use drop_point.Crypto.Json.Unique.{
  Json, string, other, object, array, no_members, member, tokens, has_unique_fields,
  reject_duplicate_json_fields_unique,
}
use drop_point.Crypto.Envelope.{
  protocol_version, key_agreement, Envelope, decode_base64_url, validate_envelope,
}
use drop_point.Crypto.Envelope.Laws.{
  Carried, Carries-accepted, decode_base64_url_iff, validate_envelope-Carries,
}

-- {"a": {"a": "x", "a": 1}}
abbrev nested : Json
nested = object (
    member (codes "a")
      (object (
        member (codes "a") (string (codes "x"))
          (member (codes "a") (other (codes "1")) no_members)))
      no_members)

reject_duplicate_json_fields_unique_example :
    reject_duplicate_json_fields (tokens nested [])
    ≡ (if has_unique_fields nested then ok tt else err invalid_argument)
reject_duplicate_json_fields_unique_example = reject_duplicate_json_fields_unique nested

decode_base64_url_iff_example :
    (decode_base64_url (codes "AQID") ≡ ok (1 ∷ 2 ∷ 3 ∷ []))
    ↔ ((encode (1 ∷ 2 ∷ 3 ∷ []) ≡ codes "AQID") × (is_empty (1 ∷ 2 ∷ 3 ∷ []) ≡ false))
decode_base64_url_iff_example =
    decode_base64_url_iff (codes "AQID") (1 ∷ 2 ∷ 3 ∷ [])
      (omega arith, (omega arith, (omega arith, tt)))

abbrev pub four : Bytes → Bytes
four s = 1 ∷ 2 ∷ 3 ∷ 4 ∷ s

abbrev pub nonce : Bytes
nonce = four (four (four []))

abbrev pub metadata : Bytes
metadata = four nonce

abbrev pub key : Bytes
key = four (four (four (four metadata)))

abbrev pub sealed : Envelope
sealed = record {
  protocol_version = protocol_version;
  key_agreement = key_agreement;
  sender_ephemeral_public_key = encode key;
  metadata_nonce = encode nonce;
  payload_nonce = encode nonce;
  encrypted_metadata = encode metadata;
}

pub four_bytes : (s : Bytes) → All IsByte s → All IsByte (four s)
four_bytes s h = (omega arith, (omega arith, (omega arith, (omega arith, h))))

pub nonce_bytes : All IsByte nonce
nonce_bytes = four_bytes (four (four [])) (four_bytes (four []) (four_bytes [] tt))

pub metadata_bytes : All IsByte metadata
metadata_bytes = four_bytes nonce nonce_bytes

pub key_bytes : All IsByte key
key_bytes = four_bytes (four (four (four metadata))) (
    four_bytes (four (four metadata))
      (four_bytes (four metadata) (four_bytes metadata metadata_bytes)))

pub sealed_accepted : validate_envelope sealed ≡ ok sealed
sealed_accepted =
    (Carries-accepted sealed key nonce nonce metadata
      (record {
        version = refl;
        agreement = refl;
        key_text = refl;
        key_size = refl;
        metadata_nonce_text = refl;
        metadata_nonce_size = refl;
        payload_nonce_text = refl;
        payload_nonce_size = refl;
        metadata_text = refl;
        metadata_size = omega arith;
      })
      (key_bytes, nonce_bytes, nonce_bytes, metadata_bytes)).0

validate_envelope-Carries_example : Carried sealed × (sealed ≡ sealed)
validate_envelope-Carries_example = validate_envelope-Carries sealed sealed sealed_accepted
