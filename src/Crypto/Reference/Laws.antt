-- ===== src/Crypto/Reference/Laws.antt =====
-- What the source relies on of the packages behind `Primitives`, and what holds of the keys and nonces
-- that `EncryptBundle` takes.
use drop_point.Base.{
  ℕ, ◌≤◌, ◌≡◌, refl, sym, ap, subst, ◌∙◌, Bool, true, false, not, Option, none, some, List, [], ◌∷◌,
  Bytes, length, ◌==◌, arith, All, if◌then◌else◌,
}
use drop_point.Errors.{ok, err, bind-ok, ok-injective, invalid_argument}
use drop_point.Token.Laws.{IsByte}
use drop_point.Crypto.Json.{Token, reject_duplicate_json_fields}
use drop_point.Crypto.Json.Unique.{
  Json, tokens, has_unique_fields, reject_duplicate_json_fields_unique,
}
use drop_point.Crypto.Envelope.{
  x25519_public_key_bytes, aes_gcm_nonce_bytes, aes_gcm_tag_bytes, Envelope, validate_envelope,
}
use drop_point.Crypto.Names.{refuse_if}
use drop_point.Crypto.Manifest.{Formats, Manifest, validate_manifest}
use drop_point.Crypto.Reference.{
  KeyPair, Primitives, given, generate_x25519_key_pair, public_key_from_private, nonce_or_random,
  sender_keys,
}

-- The tokens of one JSON value with no repeated field.
abbrev pub IsUnambiguous : List Token → Type 0
IsUnambiguous ts = (v : Json) × (ts ≡ tokens v []) × (has_unique_fields v ≡ true)

pub IsUnambiguous-accepted :
    (ts : List Token) → IsUnambiguous ts → reject_duplicate_json_fields ts ≡ ok tt
IsUnambiguous-accepted ts (v, same, unique) =
    ap reject_duplicate_json_fields same ∙ reject_duplicate_json_fields_unique v ∙ rw unique refl

refused : (b : Bool) → refuse_if (not b) ≡ ok tt → b ≡ true
refused true h = refl
refused false h = absurd (ground (arith, h))

abbrev pub IsNonce : Bytes → Type 0
IsNonce nonce = (length nonce ≡ aes_gcm_nonce_bytes) × All IsByte nonce

taken :
    {A : Type 0} {a c : A} (b : Bool)
    → (if b then ok a else err invalid_argument) ≡ ok c
    → (b ≡ true) × (a ≡ c)
taken true h = (refl, ok-injective h)
taken false h = absurd (ground (arith, h))

pub given-ok : {A : Type 0} (o : Option A) (a : A) → given o ≡ ok a → o ≡ some a
given-ok none a h = absurd (ground (arith, h))
given-ok (some b) a h = ap some (ok-injective h)

module _ {Reader : Type 0} (p : Primitives Reader) where
  pub record PrimitiveLaws (f : Formats) : Type 0 where
    -- X25519: both sides compute the same secret, and a public key has 32 bytes.
    pub agreement :
        (a b : Bytes)
        → p.is_private_key a ≡ true
        → p.is_private_key b ≡ true
        → p.ecdh a (p.public_key b) ≡ p.ecdh b (p.public_key a)
    pub public_key_valid :
        (a : Bytes) → p.is_private_key a ≡ true → p.is_public_key (p.public_key a) ≡ true
    pub public_key_size :
        (a : Bytes) → p.is_private_key a ≡ true → length (p.public_key a) ≡ x25519_public_key_bytes
    pub public_key_bytes : (a : Bytes) → p.is_private_key a ≡ true → All IsByte (p.public_key a)
    pub generated :
        (reader after : Reader) (key : Bytes)
        → p.generate_key reader ≡ some (key, after)
        → p.is_private_key key ≡ true
    -- AES-GCM: what was sealed is opened with the same key, nonce and additional data; a tag is appended.
    pub unseal_seal :
        (key nonce aad text : Bytes)
        → All IsByte text
        → p.unseal key nonce aad (p.seal key nonce aad text) ≡ some text
    pub seal_size :
        (key nonce aad text : Bytes) → aes_gcm_tag_bytes ≤ length (p.seal key nonce aad text)
    pub seal_bytes :
        (key nonce aad text : Bytes) → All IsByte text → All IsByte (p.seal key nonce aad text)
    -- `io.ReadFull` fills the buffer or fails.
    pub read :
        (n : ℕ) (reader after : Reader) (bs : Bytes)
        → p.read_full n reader ≡ some (bs, after)
        → (length bs ≡ n) × All IsByte bs
    -- encoding/json reads back what it writes, in valid UTF-8 text, which validated values are.
    pub manifest_text :
        (m : Manifest) (payload text : Bytes)
        → validate_manifest f m payload ≡ ok tt
        → p.marshal_manifest m ≡ some text
        → (p.decode_manifest text ≡ some m)
          × IsUnambiguous (p.decoder.tokens text)
          × All IsByte text
    pub envelope_text :
        (e : Envelope) (text : Bytes)
        → validate_envelope e ≡ ok e
        → p.marshal_envelope e ≡ some text
        → (p.decoder.envelope text ≡ some e) × IsUnambiguous (p.decoder.tokens text)

  abbrev pub IsPair : KeyPair → Type 0
  IsPair keys =
      (p.is_private_key keys.private_key ≡ true) × (keys.public_key ≡ p.public_key keys.private_key)

  module _ {f : Formats} (laws : PrimitiveLaws f) where
    generated-IsPair :
        (reader after : Reader) (keys : KeyPair)
        → generate_x25519_key_pair p reader ≡ ok (keys, after)
        → IsPair keys
    unfolding generate_x25519_key_pair
    generated-IsPair reader after keys h =
        let ((private, rest), made, same) =
          bind-ok (given (p.generate_key reader)) _ (keys, after) h in
        let pair = ok-injective same in
        subst IsPair (λ i. (pair i).0)
          (laws.generated reader rest private (given-ok _ _ made), refl)

    given_pair :
        (private public : Bytes)
        → public_key_from_private p private ≡ ok public
        → (p.is_private_key private ≡ true) × (public ≡ p.public_key private)
    unfolding public_key_from_private
    given_pair private public h =
        let (_, valid, same) = bind-ok (refuse_if (not (p.is_private_key private))) _ public h in
        (refused _ valid, sym (ok-injective same))

    pub sender_keys-IsPair :
        (private : Bytes) (reader after : Reader) (keys : KeyPair)
        → sender_keys p private reader ≡ ok (keys, after)
        → IsPair keys
    unfolding sender_keys
    sender_keys-IsPair [] reader after keys h = generated-IsPair reader after keys h
    sender_keys-IsPair (b ∷ bs) reader after keys h =
        let (public, made, same) = bind-ok (public_key_from_private p (b ∷ bs)) _ (keys, after) h in
        subst IsPair (λ i. (ok-injective same i).0) (given_pair (b ∷ bs) public made)

    pub nonce_or_random-IsNonce :
        (value : Bytes) (reader after : Reader) (nonce : Bytes)
        → All IsByte value
        → nonce_or_random p value reader ≡ ok (nonce, after)
        → IsNonce nonce
    unfolding nonce_or_random
    nonce_or_random-IsNonce [] reader after nonce bytes h =
        laws.read aes_gcm_nonce_bytes reader after nonce (given-ok _ _ h)
    nonce_or_random-IsNonce (b ∷ bs) reader after nonce bytes h =
        let (exact, same) = taken (length (b ∷ bs) == aes_gcm_nonce_bytes) h in
        subst IsNonce (λ i. (same i).0) (ground (arith, exact), bytes)
