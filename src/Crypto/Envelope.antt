-- ===== src/Crypto/Envelope.antt =====
-- internal/cryptoenv/envelope.go: the relay-visible envelope and its validation. What the JSON decoder
-- makes of the bytes is a parameter: its tokens, and the envelope, `none` standing for every error of
-- the two calls of `Decode` (an unknown field, a wrong type, a second value).
pub mod Laws
use drop_point.Base.{
  ℕ, Bool, true, false, not, ◌&&◌, ◌||◌, Option, none, some, List, [], ◌∷◌, ℤ, pos, ltb_ℤ, Bytes,
  bytes_eq, codes, is_empty, length, leb, ltb, ◌==◌, if◌then◌else◌,
}
use drop_point.Errors.{Result, ok, err, ◌>>=◌, ◌>>◌, envelope_invalid, invalid_argument}
use drop_point.Token.Base64.{encode, decode}
use drop_point.Crypto.Json.{Token, reject_duplicate_json_fields}

abbrev pub protocol_version : ℤ
protocol_version = pos 2

abbrev pub key_agreement : Bytes
key_agreement = codes "x25519-hkdf-sha256-aesgcm-raw32"

abbrev pub x25519_public_key_bytes : ℕ
x25519_public_key_bytes = 32

abbrev pub aes_gcm_nonce_bytes : ℕ
aes_gcm_nonce_bytes = 12

abbrev pub aes_gcm_tag_bytes : ℕ
aes_gcm_tag_bytes = 16

pub record Envelope : Type 0 where
  pub protocol_version : ℤ
  pub key_agreement : Bytes
  pub sender_ephemeral_public_key : Bytes
  pub metadata_nonce : Bytes
  pub payload_nonce : Bytes
  pub encrypted_metadata : Bytes

-- `strings.Contains(value, "=")`
unfoldable pub has_padding : Bytes → Bool
has_padding [] = false
has_padding (c ∷ cs) = c == 61 || has_padding cs

-- The text must be the one encoding of the bytes.
abbrev pub canonical : Bytes → Option Bytes → Result Bytes
canonical value none = err invalid_argument
canonical value (some decoded) =
    if bytes_eq (encode decoded) value then ok decoded else err invalid_argument

unfoldable pub decode_base64_url : Bytes → Result Bytes
decode_base64_url value =
    if is_empty value || has_padding value
    then err invalid_argument
    else canonical value (decode true value)

-- The error of a field wraps `ErrEnvelopeInvalid`.
abbrev pub as_invalid : Result Bytes → Result Bytes
as_invalid (ok decoded) = ok decoded
as_invalid (err e) = err envelope_invalid

abbrev pub check_length : ℕ → ℕ → Bytes → Result Bytes
check_length min_len exact_len decoded =
    if ltb 0 exact_len && not (length decoded == exact_len)
    then err envelope_invalid
    else if ltb 0 min_len && ltb (length decoded) min_len
    then err envelope_invalid
    else ok decoded

unfoldable pub decode_base64_url_field : Bytes → ℕ → ℕ → Result Bytes
decode_base64_url_field value min_len exact_len = do
  decoded ← as_invalid (decode_base64_url value)
  check_length min_len exact_len decoded

abbrev pub require : Bool → Result (Unit {0})
require good = if good then ok tt else err envelope_invalid

-- The checks behind the decoding of the JSON.
unfoldable pub validate_envelope : Envelope → Result Envelope
validate_envelope e = do
  require
      (not (ltb_ℤ e.protocol_version protocol_version || ltb_ℤ protocol_version e.protocol_version))
  require (bytes_eq e.key_agreement key_agreement)
  k ←
      decode_base64_url_field e.sender_ephemeral_public_key x25519_public_key_bytes
        x25519_public_key_bytes
  m ← decode_base64_url_field e.metadata_nonce aes_gcm_nonce_bytes aes_gcm_nonce_bytes
  p ← decode_base64_url_field e.payload_nonce aes_gcm_nonce_bytes aes_gcm_nonce_bytes
  c ← decode_base64_url_field e.encrypted_metadata aes_gcm_tag_bytes 0
  ok e

-- What `encoding/json` makes of some bytes.
pub record Decoder : Type 0 where
  pub tokens : Bytes → List Token
  pub envelope : Bytes → Option Envelope

abbrev pub decoded_envelope : Option Envelope → Result Envelope
decoded_envelope none = err envelope_invalid
decoded_envelope (some e) = validate_envelope e

abbrev pub wrap_invalid : Result (Unit {0}) → Result (Unit {0})
wrap_invalid (ok done) = ok done
wrap_invalid (err e) = err envelope_invalid

unfoldable pub validate_envelope_json : Decoder → Bytes → Result Envelope
validate_envelope_json json text = do
  wrap_invalid (reject_duplicate_json_fields (json.tokens text))
  decoded_envelope (json.envelope text)
