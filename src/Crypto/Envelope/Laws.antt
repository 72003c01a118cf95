-- ===== src/Crypto/Envelope/Laws.antt =====
-- What a validated envelope carries.
use drop_point.Base.{
  ℕ, suc, ◌+◌, ◌*◌, ◌/◌, ◌%◌, ◌≤◌, ◌<◌, ◌≡◌, ◌↔◌, refl, ap, ◌∙◌, true, false, [], ◌∷◌, Bytes,
  bytes_eq, bytes_eq_iff, bytes_eq_refl, is_empty, length, ◌==◌, arith, All, Option-cases, ◌⊎◌, inl,
  inr, int_laws, ltb_ℤ, ltb_ℤ_false→le, le→ltb_ℤ_false, eq_of_parts,
}
use drop_point.Errors.{Error, Result, ok, err}
use drop_point.Token.Base64.{encode, decode, char_of}
use drop_point.Token.Laws.{IsByte, decode-encode}
use drop_point.Crypto.Envelope.{
  protocol_version, key_agreement, aes_gcm_nonce_bytes, aes_gcm_tag_bytes, x25519_public_key_bytes,
  Envelope, has_padding, decode_base64_url, decode_base64_url_field, check_length,
  validate_envelope,
}

char_of-padding : (v : ℕ) → (char_of v == 61) ≡ false
unfolding char_of
char_of-padding v = ground arith

has_padding-encode : (bs : Bytes) → has_padding (encode bs) ≡ false
unfolding has_padding encode
has_padding-encode [] = refl
has_padding-encode (x ∷ []) = rw (char_of-padding (x / 4), char_of-padding (x % 4 * 16)) refl
has_padding-encode (x ∷ y ∷ []) =
    rw
      (char_of-padding (x / 4), char_of-padding (x % 4 * 16 + y / 16), char_of-padding (y % 16 * 4))
      refl
has_padding-encode (x ∷ y ∷ z ∷ r) =
    rw
      (
        char_of-padding (x / 4),
        char_of-padding (x % 4 * 16 + y / 16),
        char_of-padding (y % 16 * 4 + z / 64),
        char_of-padding (z % 64),
      )
      (has_padding-encode r)

is_empty-encode : (bs : Bytes) → is_empty (encode bs) ≡ is_empty bs
unfolding encode
is_empty-encode [] = refl
is_empty-encode (x ∷ []) = refl
is_empty-encode (x ∷ y ∷ []) = refl
is_empty-encode (x ∷ y ∷ z ∷ r) = refl

-- Any bytes but none survive their encoding.
pub decode_base64_url-encode :
    (bs : Bytes) → All IsByte bs → is_empty bs ≡ false → decode_base64_url (encode bs) ≡ ok bs
unfolding decode_base64_url
decode_base64_url-encode bs bytes some' =
    rw (has_padding-encode bs, is_empty-encode bs, some', decode-encode true bs bytes)
      (rw (bytes_eq_refl (encode bs)) refl)

decode_base64_url-ok :
    (value bs : Bytes)
    → decode_base64_url value ≡ ok bs
    → (encode bs ≡ value) × (is_empty bs ≡ false)
unfolding decode_base64_url
decode_base64_url-ok value bs h = elim (Option-cases (decode true value)) [
  | inl none' ↦ absurd (ground (arith, none', h))
  | inr (decoded, e) ↦
      let same : encode bs ≡ value = ground (arith, e, h, bytes_eq_iff (encode decoded) value) in
      (same, ground (arith, h, is_empty-encode bs, same))
]

-- A protocol field decodes to some bytes exactly if it is their encoding and there is at least one.
pub decode_base64_url_iff :
    (value bs : Bytes)
    → All IsByte bs
    → (decode_base64_url value ≡ ok bs) ↔ ((encode bs ≡ value) × (is_empty bs ≡ false))
decode_base64_url_iff value bs bytes =
    (decode_base64_url-ok value bs, λ h. rw (← h.0) (decode_base64_url-encode bs bytes h.1))

-- The four fields are the encodings of bytes of the protocol's sizes.
pub record Carries (e : Envelope) (public_key metadata_nonce payload_nonce metadata : Bytes)
    : Type 0 where
  pub version : e.protocol_version ≡ protocol_version
  pub agreement : e.key_agreement ≡ key_agreement
  pub key_text : encode public_key ≡ e.sender_ephemeral_public_key
  pub key_size : length public_key ≡ x25519_public_key_bytes
  pub metadata_nonce_text : encode metadata_nonce ≡ e.metadata_nonce
  pub metadata_nonce_size : length metadata_nonce ≡ aes_gcm_nonce_bytes
  pub payload_nonce_text : encode payload_nonce ≡ e.payload_nonce
  pub payload_nonce_size : length payload_nonce ≡ aes_gcm_nonce_bytes
  pub metadata_text : encode metadata ≡ e.encrypted_metadata
  pub metadata_size : aes_gcm_tag_bytes ≤ length metadata

Result-cases : {A : Type 0} (r : Result A) → ((a : A) × (r ≡ ok a)) ⊎ ((e : Error) × (r ≡ err e))
Result-cases (ok a) = inl (a, refl)
Result-cases (err e) = inr (e, refl)

field-ok :
    (value : Bytes) (min_len exact_len : ℕ) (bs : Bytes)
    → decode_base64_url_field value min_len exact_len ≡ ok bs
    → (encode bs ≡ value) × (check_length min_len exact_len bs ≡ ok bs)
unfolding decode_base64_url_field
field-ok value min_len exact_len bs h = elim (Result-cases (decode_base64_url value)) [
  | inr (e, failed) ↦ absurd (ground (arith, failed, h))
  | inl (decoded, e) ↦
      let same : decoded ≡ bs = ground (arith, e, h) in
      ((decode_base64_url-ok value bs (e ∙ ap ok same)).0, ground (arith, e, h))
]

abbrev pub Carried : Envelope → Type 0
Carried e =
    (public_key : Bytes) × (metadata_nonce : Bytes) × (payload_nonce : Bytes) × (metadata : Bytes)
    × Carries e public_key metadata_nonce payload_nonce metadata

exact_size : (n : ℕ) (bs : Bytes) → check_length (suc n) (suc n) bs ≡ ok bs → length bs ≡ suc n
exact_size n bs h = ground (arith, h)

least_size : (n : ℕ) (bs : Bytes) → check_length (suc n) 0 bs ≡ ok bs → suc n ≤ length bs
least_size n bs h = ground (arith, h)

-- The two checks in front of the fields.
head_checks :
    (e accepted : Envelope)
    → validate_envelope e ≡ ok accepted
    → (e.protocol_version ≡ protocol_version) × (bytes_eq e.key_agreement key_agreement ≡ true)
unfolding validate_envelope
head_checks e accepted h =
    let tests : (ltb_ℤ e.protocol_version protocol_version ≡ false)
        × (ltb_ℤ protocol_version e.protocol_version ≡ false)
        × (bytes_eq e.key_agreement key_agreement ≡ true) =
      ground (arith, h) in
    (
      eq_of_parts e.protocol_version protocol_version (
          omega (
            int_laws,
            ltb_ℤ_false→le e.protocol_version protocol_version tests.0,
            ltb_ℤ_false→le protocol_version e.protocol_version tests.1,
          )),
      tests.2,
    )

-- An accepted envelope has the protocol's version and key agreement, and its fields are canonical
-- encodings of a key of 32 bytes, two nonces of 12 and a ciphertext that is no shorter than its tag.
pub validate_envelope-Carries :
    (e accepted : Envelope) → validate_envelope e ≡ ok accepted → Carried e × (e ≡ accepted)
unfolding validate_envelope
validate_envelope-Carries e accepted h =
    elim (Result-cases (
      decode_base64_url_field e.sender_ephemeral_public_key x25519_public_key_bytes
        x25519_public_key_bytes)) [
          | inr (x, k) ↦ absurd (ground (arith, k, h))
          | inl (k, ek) ↦
              elim (Result-cases (
                decode_base64_url_field e.metadata_nonce aes_gcm_nonce_bytes aes_gcm_nonce_bytes)) [
                  | inr (x, m) ↦ absurd (ground (arith, ek, m, h))
                  | inl (m, em) ↦
                      elim (Result-cases (
                        decode_base64_url_field e.payload_nonce aes_gcm_nonce_bytes
                          aes_gcm_nonce_bytes)) [
                            | inr (x, p) ↦ absurd (ground (arith, ek, em, p, h))
                            | inl (p, ep) ↦
                                elim (Result-cases (
                                  decode_base64_url_field e.encrypted_metadata aes_gcm_tag_bytes
                                    0)) [
                                      | inr (x, c) ↦ absurd (ground (arith, ek, em, ep, c, h))
                                      | inl (c, ec) ↦ (
                                        (k, m, p, c, carries k m p c ek em ep ec),
                                        ground (arith, ek, em, ep, ec, h),
                                      )
                                    ]
                          ]
                ]
        ]
  where
    carries :
        (k m p c : Bytes)
        → decode_base64_url_field e.sender_ephemeral_public_key x25519_public_key_bytes
            x25519_public_key_bytes
          ≡ ok k
        → decode_base64_url_field e.metadata_nonce aes_gcm_nonce_bytes aes_gcm_nonce_bytes ≡ ok m
        → decode_base64_url_field e.payload_nonce aes_gcm_nonce_bytes aes_gcm_nonce_bytes ≡ ok p
        → decode_base64_url_field e.encrypted_metadata aes_gcm_tag_bytes 0 ≡ ok c
        → Carries e k m p c
    carries k m p c ek em ep ec =
        let (version, agreement) = head_checks e accepted h in
        let (key_text, key_check) = field-ok _ _ _ k ek in
        let (metadata_nonce_text, m_check) = field-ok _ _ _ m em in
        let (payload_nonce_text, p_check) = field-ok _ _ _ p ep in
        let (metadata_text, c_check) = field-ok _ _ _ c ec in
        record {
          version = version;
          agreement = (bytes_eq_iff e.key_agreement key_agreement).0 agreement;
          key_text = key_text;
          key_size = exact_size 31 k key_check;
          metadata_nonce_text = metadata_nonce_text;
          metadata_nonce_size = exact_size 11 m m_check;
          payload_nonce_text = payload_nonce_text;
          payload_nonce_size = exact_size 11 p p_check;
          metadata_text = metadata_text;
          metadata_size = least_size 15 c c_check;
        }

nonempty : (bs : Bytes) → 0 < length bs → is_empty bs ≡ false
nonempty [] h = absurd (omega arith)
nonempty (b ∷ bs) h = refl

decode_text :
    (value bs : Bytes)
    → encode bs ≡ value
    → All IsByte bs
    → 0 < length bs
    → decode_base64_url value ≡ ok bs
decode_text value bs same bytes size =
    rw (← same) (decode_base64_url-encode bs bytes (nonempty bs size))

-- An envelope that carries bytes of the protocol's sizes is accepted.
pub Carries-accepted :
    (e : Envelope) (k m p c : Bytes)
    → Carries e k m p c
    → All IsByte k × All IsByte m × All IsByte p × All IsByte c
    → (validate_envelope e ≡ ok e)
      × (decode_base64_url e.sender_ephemeral_public_key ≡ ok k)
      × (decode_base64_url e.metadata_nonce ≡ ok m)
      × (decode_base64_url e.payload_nonce ≡ ok p)
      × (decode_base64_url e.encrypted_metadata ≡ ok c)
unfolding validate_envelope decode_base64_url_field
Carries-accepted e k m p c carried (bk, bm, bp, bc) = (accepted, dk, dm, dp, dc)
  where
    dk : decode_base64_url e.sender_ephemeral_public_key ≡ ok k
    dk = decode_text _ k carried.key_text bk (omega (arith, carried.key_size))

    dm : decode_base64_url e.metadata_nonce ≡ ok m
    dm = decode_text _ m carried.metadata_nonce_text bm (omega (arith, carried.metadata_nonce_size))

    dp : decode_base64_url e.payload_nonce ≡ ok p
    dp = decode_text _ p carried.payload_nonce_text bp (omega (arith, carried.payload_nonce_size))

    dc : decode_base64_url e.encrypted_metadata ≡ ok c
    dc = decode_text _ c carried.metadata_text bc (omega (arith, carried.metadata_size))

    same_version : ltb_ℤ protocol_version protocol_version ≡ false
    same_version = le→ltb_ℤ_false protocol_version protocol_version (omega int_laws)

    accepted : validate_envelope e ≡ ok e
    accepted =
        rw (carried.version, carried.agreement, dk, dm, dp, dc)
          (rw
            (
              bytes_eq_refl key_agreement,
              same_version,
              carried.key_size,
              carried.metadata_nonce_size,
              carried.payload_nonce_size,
            )
            (ground (arith, carried.metadata_size)))
