-- ===== src/Crypto/Reference.antt =====
-- internal/cryptoenv/reference.go: encryption and decryption of a bundle. X25519, HKDF-SHA-256, AES-GCM,
-- the random source and encoding/json are parameters; an error of theirs has no sentinel.
pub mod Laws
pub mod Roundtrip
use drop_point.Base.{
  ℕ, Bool, true, false, not, ◌||◌, Option, none, some, List, [], ◌∷◌, ◌++◌, ℤ, Bytes, bytes_eq,
  codes, is_empty, length, ◌==◌, if◌then◌else◌,
}
use drop_point.Errors.{Result, ok, err, ◌>>=◌, ◌>>◌, invalid_argument}
use drop_point.Token.Base64.{encode}
use drop_point.Crypto.Json.{reject_duplicate_json_fields}
use drop_point.Crypto.Envelope.{
  protocol_version, key_agreement, x25519_public_key_bytes, aes_gcm_nonce_bytes, Envelope, Decoder,
  decode_base64_url, validate_envelope_json,
}
use drop_point.Crypto.Names.{refuse_if}
use drop_point.Crypto.Manifest.{
  Formats, Manifest, PlainFile, RecoveredFile, build_manifest, split_payload,
}

abbrev pub info_metadata : Bytes
info_metadata = codes "DropPoint/protocol/v2 key=metadata"

abbrev pub info_payload : Bytes
info_payload = codes "DropPoint/protocol/v2 key=payload"

abbrev pub aad_metadata : Bytes
aad_metadata = 2 ∷ codes "metadata"

abbrev pub aad_payload : Bytes
aad_payload = 2 ∷ codes "payload"

pub record KeyPair : Type 0 where
  pub private_key : Bytes
  pub public_key : Bytes

-- The packages that the source calls; `Reader` is the state of a random source.
pub record Primitives (Reader : Type 0) : Type 0 where
  -- `ecdh.X25519()`: `NewPrivateKey` and `NewPublicKey` take the bytes, `PublicKey`, `ECDH`, `GenerateKey`
  pub is_private_key : Bytes → Bool
  pub is_public_key : Bytes → Bool
  pub public_key : Bytes → Bytes
  pub ecdh : Bytes → Bytes → Option Bytes
  pub generate_key : Reader → Option (Bytes × Reader)
  -- `hkdf.Key(sha256.New, secret, salt, info, 32)`
  pub hkdf : Bytes → Bytes → Bytes → Option Bytes
  -- `aes.NewCipher` and `cipher.NewGCM` take the key; `Seal` and `Open` by key, nonce and additional data
  pub is_cipher_key : Bytes → Bool
  pub seal : Bytes → Bytes → Bytes → Bytes → Bytes
  pub unseal : Bytes → Bytes → Bytes → Bytes → Option Bytes
  -- `rand.Reader` and `io.ReadFull`
  pub rand_reader : Reader
  pub read_full : ℕ → Reader → Option (Bytes × Reader)
  -- `json.Marshal`, and the two calls of `Decode` of `ParseManifest`
  pub decoder : Decoder
  pub marshal_manifest : Manifest → Option Bytes
  pub marshal_envelope : Envelope → Option Bytes
  pub decode_manifest : Bytes → Option Manifest
  -- `time.Now`
  pub now : ℤ

abbrev pub given {ℓ} : {A : Type ℓ} → Option A → Result A
given none = err invalid_argument
given (some a) = ok a

pub record EncryptOptions (Reader : Type 0) : Type 0 where
  pub sender_private_key : Bytes
  pub metadata_nonce : Bytes
  pub payload_nonce : Bytes
  -- the zero time and the nil reader are `none`
  pub created_at : Option ℤ
  pub random : Option Reader

pub record Intermediates : Type 0 where
  pub shared_secret : Bytes
  pub metadata_key : Bytes
  pub payload_key : Bytes
  pub encrypted_metadata : Bytes

pub record EncryptResult : Type 0 where
  pub envelope : Envelope
  pub envelope_json : Bytes
  pub encrypted_payload : Bytes
  pub manifest_json : Bytes
  pub payload_plaintext : Bytes
  pub intermediates : Intermediates

abbrev pub or_default {ℓ} : {A : Type ℓ} → A → Option A → A
or_default d none = d
or_default d (some a) = a

abbrev pub zeros : Bytes
zeros =
    0 ∷ 0 ∷ 0 ∷ 0 ∷ 0 ∷ 0 ∷ 0 ∷ 0 ∷ 0 ∷ 0 ∷ 0 ∷ 0 ∷ 0 ∷ 0 ∷ 0 ∷ 0 ∷ 0 ∷ 0 ∷ 0 ∷ 0 ∷ 0 ∷ 0 ∷ 0 ∷ 0
    ∷ 0 ∷ 0 ∷ 0 ∷ 0 ∷ 0 ∷ 0 ∷ 0 ∷ 0 ∷ []

abbrev pub sealed_envelope : Bytes → Bytes → Bytes → Bytes → Envelope
sealed_envelope sender_public metadata_nonce payload_nonce encrypted_metadata = record {
  protocol_version = protocol_version;
  key_agreement = key_agreement;
  sender_ephemeral_public_key = encode sender_public;
  metadata_nonce = encode metadata_nonce;
  payload_nonce = encode payload_nonce;
  encrypted_metadata = encode encrypted_metadata;
}

module _ {Reader : Type 0} (p : Primitives Reader) where
  unfoldable pub generate_x25519_key_pair : Reader → Result (KeyPair × Reader)
  generate_x25519_key_pair reader = do
    (private, after) ← given (p.generate_key reader)
    ok (record { private_key = private; public_key = p.public_key private }, after)

  unfoldable pub public_key_from_private : Bytes → Result Bytes
  public_key_from_private private = do
    refuse_if (not (p.is_private_key private))
    ok (p.public_key private)

  unfoldable pub shared_secret_of : Bytes → Bytes → Result Bytes
  shared_secret_of private public = do
    refuse_if (not (p.is_private_key private))
    refuse_if (not (p.is_public_key public))
    shared ← given (p.ecdh private public)
    refuse_if (bytes_eq shared zeros)
    ok shared

  unfoldable pub derive_keys : Bytes → Bytes → Bytes → Result (Bytes × Bytes)
  derive_keys shared sender recipient = do
    refuse_if (not (length shared == x25519_public_key_bytes))
    refuse_if (
        not (length sender == x25519_public_key_bytes)
        || not (length recipient == x25519_public_key_bytes))
    metadata_key ← given (p.hkdf shared (sender ++ recipient) info_metadata)
    payload_key ← given (p.hkdf shared (sender ++ recipient) info_payload)
    ok (metadata_key, payload_key)

  unfoldable pub nonce_or_random : Bytes → Reader → Result (Bytes × Reader)
  nonce_or_random value reader =
      if is_empty value
      then given (p.read_full aes_gcm_nonce_bytes reader)
      else if length value == aes_gcm_nonce_bytes
      then ok (value, reader)
      else err invalid_argument

  unfoldable pub new_gcm : Bytes → Result (Unit {0})
  new_gcm key = do refuse_if (not (length key == 32)); refuse_if (not (p.is_cipher_key key))

  unfoldable pub encrypt_aes_gcm : Bytes → Bytes → Bytes → Bytes → Result Bytes
  encrypt_aes_gcm key nonce aad plaintext = do new_gcm key; ok (p.seal key nonce aad plaintext)

  unfoldable pub decrypt_aes_gcm : Bytes → Bytes → Bytes → Bytes → Result Bytes
  decrypt_aes_gcm key nonce aad ciphertext = do
    new_gcm key
    given (p.unseal key nonce aad ciphertext)

  -- The sender's key pair, given by its private half or made anew.
  unfoldable pub sender_keys : Bytes → Reader → Result (KeyPair × Reader)
  sender_keys given_private reader =
      if is_empty given_private then generate_x25519_key_pair reader else (do
        public ← public_key_from_private given_private
        ok (record { private_key = given_private; public_key = public }, reader))

  -- The part of `EncryptBundle` behind the choice of keys and nonces.
  unfoldable pub seal_bundle :
      Formats → Bytes → List PlainFile → KeyPair → Bytes → Bytes → ℤ → Result EncryptResult
  seal_bundle f recipient files sender metadata_nonce payload_nonce created_at = do
    (manifest, payload) ← build_manifest f files created_at
    manifest_json ← given (p.marshal_manifest manifest)
    shared ← shared_secret_of sender.private_key recipient
    (metadata_key, payload_key) ← derive_keys shared sender.public_key recipient
    encrypted_metadata ← encrypt_aes_gcm metadata_key metadata_nonce aad_metadata manifest_json
    encrypted_payload ← encrypt_aes_gcm payload_key payload_nonce aad_payload payload
    let envelope = sealed_envelope sender.public_key metadata_nonce payload_nonce encrypted_metadata
    envelope_json ← given (p.marshal_envelope envelope)
    ok (record {
      envelope = envelope;
      envelope_json = envelope_json;
      encrypted_payload = encrypted_payload;
      manifest_json = manifest_json;
      payload_plaintext = payload;
      intermediates = record {
        shared_secret = shared;
        metadata_key = metadata_key;
        payload_key = payload_key;
        encrypted_metadata = encrypted_metadata;
      };
    })

  unfoldable pub encrypt_bundle :
      Formats → Bytes → List PlainFile → EncryptOptions Reader → Result EncryptResult
  encrypt_bundle f recipient files opts = do
    refuse_if (not (length recipient == x25519_public_key_bytes))
    (sender, reader₁) ← sender_keys opts.sender_private_key (or_default p.rand_reader opts.random)
    (metadata_nonce, reader₂) ← nonce_or_random opts.metadata_nonce reader₁
    (payload_nonce, reader₃) ← nonce_or_random opts.payload_nonce reader₂
    seal_bundle f recipient files sender metadata_nonce payload_nonce
        (or_default p.now opts.created_at)

  unfoldable pub parse_manifest : Bytes → Result Manifest
  parse_manifest text = do
    reject_duplicate_json_fields (p.decoder.tokens text)
    given (p.decode_manifest text)

  -- The key, the two nonces and the ciphertext.
  unfoldable pub decode_envelope_fields : Envelope → Result (Bytes × Bytes × Bytes × Bytes)
  decode_envelope_fields e = do
    encoded ← given (p.marshal_envelope e)
    accepted ← validate_envelope_json p.decoder encoded
    sender_public ← decode_base64_url e.sender_ephemeral_public_key
    metadata_nonce ← decode_base64_url e.metadata_nonce
    payload_nonce ← decode_base64_url e.payload_nonce
    encrypted_metadata ← decode_base64_url e.encrypted_metadata
    ok (sender_public, metadata_nonce, payload_nonce, encrypted_metadata)

  unfoldable pub decrypt_bundle :
      Formats → Bytes → Envelope → Bytes → Result (List RecoveredFile × Intermediates)
  decrypt_bundle f private e encrypted_payload = do
    recipient ← public_key_from_private private
    (sender, metadata_nonce, payload_nonce, encrypted_metadata) ← decode_envelope_fields e
    shared ← shared_secret_of private sender
    (metadata_key, payload_key) ← derive_keys shared sender recipient
    manifest_json ← decrypt_aes_gcm metadata_key metadata_nonce aad_metadata encrypted_metadata
    payload ← decrypt_aes_gcm payload_key payload_nonce aad_payload encrypted_payload
    manifest ← parse_manifest manifest_json
    files ← split_payload f manifest payload
    ok (
      files,
      record {
        shared_secret = shared;
        metadata_key = metadata_key;
        payload_key = payload_key;
        encrypted_metadata = encrypted_metadata;
      },
    )
