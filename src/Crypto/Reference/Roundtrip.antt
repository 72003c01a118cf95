-- ===== src/Crypto/Reference/Roundtrip.antt =====
-- `EncryptBundle` and `DecryptBundle`: the holder of the recipient's private key gets the files back.
use drop_point.Base.{
  ◌≤◌, ◌≡◌, refl, sym, ap, subst, ◌∙◌, true, not, some, List, ℤ, Bytes, length, ◌==◌, All,
}
use drop_point.Errors.{ok, ◌>>=◌, bind-ok, ok-injective}
use drop_point.Token.Laws.{IsByte}
use drop_point.Crypto.Envelope.{x25519_public_key_bytes, aes_gcm_tag_bytes, validate_envelope_json}
use drop_point.Crypto.Envelope.Laws.{Carries, Carries-accepted}
use drop_point.Crypto.Names.{refuse_if}
use drop_point.Crypto.Names.Collisions.{canonicalize_filenames}
use drop_point.Crypto.Manifest.{
  Formats, Manifest, PlainFile, RecoveredFile, names_of, build_manifest, validate_manifest,
  split_payload,
}
use drop_point.Crypto.Manifest.Roundtrip.{Returned, split_payload-build_manifest}
use drop_point.Crypto.Reference.{
  KeyPair, Primitives, EncryptOptions, EncryptResult, aad_metadata, aad_payload, given, or_default,
  public_key_from_private, shared_secret_of, derive_keys, nonce_or_random, new_gcm, encrypt_aes_gcm,
  decrypt_aes_gcm, sender_keys, sealed_envelope, seal_bundle, encrypt_bundle, parse_manifest,
  decode_envelope_fields, decrypt_bundle,
}
use drop_point.Crypto.Reference.Laws.{
  IsUnambiguous, IsUnambiguous-accepted, PrimitiveLaws, IsPair, IsNonce, given-ok,
  sender_keys-IsPair, nonce_or_random-IsNonce,
}

module _ {Reader : Type 0} (p : Primitives Reader) {f : Formats} (laws : PrimitiveLaws p f) where
  -- Both sides compute the same secret.
  shared_secret_of-agreement :
      (sender recipient shared : Bytes)
      → p.is_private_key sender ≡ true
      → p.is_private_key recipient ≡ true
      → shared_secret_of p sender (p.public_key recipient) ≡ ok shared
      → shared_secret_of p recipient (p.public_key sender) ≡ ok shared
  unfolding shared_secret_of
  shared_secret_of-agreement sender recipient shared s r h =
      rw (r, laws.public_key_valid sender s, laws.agreement recipient sender r s)
        (rw (s, laws.public_key_valid recipient r) at h)

  -- What was encrypted is decrypted under the same key, nonce and additional data.
  decrypt-encrypt :
      (key nonce aad text sealed : Bytes)
      → All IsByte text
      → encrypt_aes_gcm p key nonce aad text ≡ ok sealed
      → (sealed ≡ p.seal key nonce aad text) × (decrypt_aes_gcm p key nonce aad sealed ≡ ok text)
  unfolding encrypt_aes_gcm decrypt_aes_gcm
  decrypt-encrypt key nonce aad text sealed bytes h =
      let (_, key_taken, same) = bind-ok (new_gcm p key) _ sealed h in
      let sealed_so = sym (ok-injective same) in
      (sealed_so, rw (key_taken, sealed_so, laws.unseal_seal key nonce aad text bytes) refl)

  -- The steps of a seal that succeeded.
  record Sealed (recipient : Bytes) (files : List PlainFile) (sender : KeyPair) (mn pn : Bytes)
      (t : ℤ) (r : EncryptResult) : Type 0 where
    manifest : Manifest
    built : build_manifest f files t ≡ ok (manifest, r.payload_plaintext)
    marshalled : p.marshal_manifest manifest ≡ some r.manifest_json
    shared : shared_secret_of p sender.private_key recipient ≡ ok r.intermediates.shared_secret
    keys :
        derive_keys p r.intermediates.shared_secret sender.public_key recipient
        ≡ ok (r.intermediates.metadata_key, r.intermediates.payload_key)
    metadata :
        encrypt_aes_gcm p r.intermediates.metadata_key mn aad_metadata r.manifest_json
        ≡ ok r.intermediates.encrypted_metadata
    payload :
        encrypt_aes_gcm p r.intermediates.payload_key pn aad_payload r.payload_plaintext
        ≡ ok r.encrypted_payload
    envelope :
        r.envelope ≡ sealed_envelope sender.public_key mn pn r.intermediates.encrypted_metadata
    envelope_text : p.marshal_envelope r.envelope ≡ some r.envelope_json

  seal_bundle-Sealed :
      (recipient : Bytes) (files : List PlainFile) (sender : KeyPair) (mn pn : Bytes) (t : ℤ)
      (r : EncryptResult)
      → seal_bundle p f recipient files sender mn pn t ≡ ok r
      → Sealed recipient files sender mn pn t r
  unfolding seal_bundle
  seal_bundle-Sealed recipient files sender mn pn t r h =
      let ((manifest, payload), built, h₁) = bind-ok (build_manifest f files t) _ r h in
      let (manifest_json, marshalled, h₂) = bind-ok (given (p.marshal_manifest manifest)) _ r h₁ in
      let (shared, agreed, h₃) = bind-ok (shared_secret_of p sender.private_key recipient) _ r h₂ in
      let ((metadata_key, payload_key), keys, h₄) =
        bind-ok (derive_keys p shared sender.public_key recipient) _ r h₃ in
      let (encrypted_metadata, metadata, h₅) =
        bind-ok (encrypt_aes_gcm p metadata_key mn aad_metadata manifest_json) _ r h₄ in
      let (encrypted_payload, sealed, h₆) =
        bind-ok (encrypt_aes_gcm p payload_key pn aad_payload payload) _ r h₅ in
      let (envelope_json, envelope_text, h₇) =
        bind-ok
          (given (p.marshal_envelope (sealed_envelope sender.public_key mn pn encrypted_metadata)))
          _ r h₆ in
      subst (Sealed recipient files sender mn pn t) (ok-injective h₇) (record {
        manifest = manifest;
        built = built;
        marshalled = given-ok _ _ marshalled;
        shared = agreed;
        keys = keys;
        metadata = metadata;
        payload = sealed;
        envelope = refl;
        envelope_text = given-ok _ _ envelope_text;
      })

  module _ {recipient_key : Bytes} {files : List PlainFile} {sender : KeyPair} {mn pn : Bytes}
      {t : ℤ} {r : EncryptResult} (s : Sealed (p.public_key recipient_key) files sender mn pn t r)
      (recipient : p.is_private_key recipient_key ≡ true) (pair : IsPair p sender)
      (mn_nonce : IsNonce mn) (pn_nonce : IsNonce pn)
      (valid : validate_manifest f s.manifest r.payload_plaintext ≡ ok tt)
      (bytes : All IsByte r.payload_plaintext) where
    json :
        (p.decode_manifest r.manifest_json ≡ some s.manifest)
        × IsUnambiguous (p.decoder.tokens r.manifest_json)
        × All IsByte r.manifest_json
    json = laws.manifest_text s.manifest r.payload_plaintext r.manifest_json valid s.marshalled

    sealed_metadata :
        (r.intermediates.encrypted_metadata
          ≡ p.seal r.intermediates.metadata_key mn aad_metadata r.manifest_json)
        × (decrypt_aes_gcm p r.intermediates.metadata_key mn aad_metadata
              r.intermediates.encrypted_metadata
            ≡ ok r.manifest_json)
    sealed_metadata =
        decrypt-encrypt r.intermediates.metadata_key mn aad_metadata r.manifest_json _ json.2
          s.metadata

    carried : Carries r.envelope sender.public_key mn pn r.intermediates.encrypted_metadata
    carried =
        subst (λ e. Carries e sender.public_key mn pn r.intermediates.encrypted_metadata)
          (sym s.envelope)
          (record {
            version = refl;
            agreement = refl;
            key_text = refl;
            key_size = ap length pair.1 ∙ laws.public_key_size sender.private_key pair.0;
            metadata_nonce_text = refl;
            metadata_nonce_size = mn_nonce.0;
            payload_nonce_text = refl;
            payload_nonce_size = pn_nonce.0;
            metadata_text = refl;
            metadata_size =
                subst (λ c. aes_gcm_tag_bytes ≤ length c) (sym sealed_metadata.0)
                  (laws.seal_size r.intermediates.metadata_key mn aad_metadata r.manifest_json);
          })

    carried_bytes :
        All IsByte sender.public_key
        × All IsByte mn
        × All IsByte pn
        × All IsByte r.intermediates.encrypted_metadata
    carried_bytes = (
      subst (All IsByte) (sym pair.1) (laws.public_key_bytes sender.private_key pair.0),
      mn_nonce.1,
      pn_nonce.1,
      subst (All IsByte) (sym sealed_metadata.0)
          (laws.seal_bytes r.intermediates.metadata_key mn aad_metadata r.manifest_json json.2),
    )

    decoded :
        decode_envelope_fields p r.envelope
        ≡ ok (sender.public_key, mn, pn, r.intermediates.encrypted_metadata)
    unfolding decode_envelope_fields validate_envelope_json
    decoded =
        let (accepted, key, metadata_nonce, payload_nonce, metadata) =
          Carries-accepted r.envelope sender.public_key mn pn r.intermediates.encrypted_metadata
            carried carried_bytes in
        let (text, unambiguous) =
          laws.envelope_text r.envelope r.envelope_json accepted s.envelope_text in
        rw
          (
            s.envelope_text,
            IsUnambiguous-accepted _ unambiguous,
            text,
            accepted,
            key,
            metadata_nonce,
            payload_nonce,
            metadata,
          )
          refl

    parsed_manifest : parse_manifest p r.manifest_json ≡ ok s.manifest
    unfolding parse_manifest
    parsed_manifest = rw (IsUnambiguous-accepted _ json.1, json.0) refl

    decrypted :
        decrypt_bundle p f recipient_key r.envelope r.encrypted_payload
        ≡ (split_payload f s.manifest r.payload_plaintext >>= λ outs. ok (outs, r.intermediates))
    unfolding decrypt_bundle public_key_from_private
    decrypted =
        rw
          (
            recipient,
            decoded,
            ap (shared_secret_of p recipient_key) pair.1
                ∙ shared_secret_of-agreement sender.private_key recipient_key _ pair.0 recipient
                    s.shared,
            s.keys,
            sealed_metadata.1,
            (decrypt-encrypt r.intermediates.payload_key pn aad_payload r.payload_plaintext
                r.encrypted_payload bytes s.payload).1,
            parsed_manifest,
          )
          refl

  -- What was encrypted for a recipient with nonces that are given or read, is decrypted with the
  -- recipient's private key to the files that were put in: in order, under their canonical names, with
  -- their types as sanitized, with their contents, and with the sender's intermediate values. The
  -- manifest has to be one that the receiver's validation accepts.
  pub decrypt_bundle-encrypt_bundle :
      (recipient_key : Bytes) (files : List PlainFile) (opts : EncryptOptions Reader)
      (r : EncryptResult)
      → p.is_private_key recipient_key ≡ true
      → All IsByte opts.metadata_nonce
      → All IsByte opts.payload_nonce
      → All IsByte r.payload_plaintext
      → ((m : Manifest)
          → build_manifest f files (or_default p.now opts.created_at) ≡ ok (m, r.payload_plaintext)
          → validate_manifest f m r.payload_plaintext ≡ ok tt)
      → encrypt_bundle p f (p.public_key recipient_key) files opts ≡ ok r
      → (names : List Bytes) × (outs : List RecoveredFile) × (canonicalize_filenames f.unicode
            (names_of files)
          ≡ ok names)
        × (decrypt_bundle p f recipient_key r.envelope r.encrypted_payload
            ≡ ok (outs, r.intermediates))
        × Returned f names files outs
  unfolding encrypt_bundle
  decrypt_bundle-encrypt_bundle recipient_key files opts r recipient mn_bytes pn_bytes bytes valid
        h =
      let (_, _, h₁) =
        bind-ok (refuse_if (not (length (p.public_key recipient_key) == x25519_public_key_bytes))) _
          r h in
      let ((sender, reader₁), keys, h₂) =
        bind-ok (sender_keys p opts.sender_private_key (or_default p.rand_reader opts.random)) _ r
          h₁ in
      let ((mn, reader₂), metadata_nonce, h₃) =
        bind-ok (nonce_or_random p opts.metadata_nonce reader₁) _ r h₂ in
      let ((pn, reader₃), payload_nonce, sealed) =
        bind-ok (nonce_or_random p opts.payload_nonce reader₂) _ r h₃ in
      let s =
        seal_bundle-Sealed (p.public_key recipient_key) files sender mn pn
          (or_default p.now opts.created_at) r sealed in
      let accepted = valid s.manifest s.built in
      let (names, outs, named, split, returned) =
        split_payload-build_manifest f files (or_default p.now opts.created_at) s.manifest
          r.payload_plaintext s.built accepted in
      (
        names,
        outs,
        named,
        decrypted s recipient
              (sender_keys-IsPair p laws opts.sender_private_key _ reader₁ sender keys)
              (nonce_or_random-IsNonce p laws opts.metadata_nonce reader₁ reader₂ mn mn_bytes
                metadata_nonce)
              (nonce_or_random-IsNonce p laws opts.payload_nonce reader₂ reader₃ pn pn_bytes
                payload_nonce)
              accepted bytes
            ∙ rw split refl,
        returned,
      )
