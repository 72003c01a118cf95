-- ===== src/Crypto/Tests/Bundle.antt =====
-- A bundle of one file, under primitives that keep the text readable and formats that know one
-- manifest and one envelope.
use drop_point.Base.{
  ◌≡◌, refl, sym, ap, subst, ◌∙◌, Bool, true, false, not, ◌&&◌, Option, none, some, List, [], ◌∷◌,
  ◌++◌, ℤ, pos, ◌-ℤ◌, ltb_ℤ, int_laws, ltb_ℤ_false→le, eq_of_parts, Bytes, bytes_eq, bytes_eq→eq,
  codes, drop, All, arith, runes, valid_string, is_blank,
}
use drop_point.Errors.{ok, ok-injective}
use drop_point.Token.Base64.{encode, char_of}
use drop_point.Token.Laws.{IsByte}
use drop_point.Crypto.Json.{scalar, seen_before}
use drop_point.Crypto.Json.Unique.{other, tokens, has_unique_fields}
use drop_point.Crypto.Envelope.{protocol_version, Envelope}
use drop_point.Crypto.Names.{
  any_forbidden, forbidden_filename_rune, filename_collision_key, trim_left, trim_right, before_dot,
  upper, trim_spaces, reserved_windows_name, plain_s, lower_ascii, is_receipt_name, is_reserved,
  sanitize_filename,
}
use drop_point.Crypto.Names.Collisions.{find_free, canonicalize_from, canonicalize_filenames}
use drop_point.Crypto.Manifest.{
  Formats, ManifestFile, Manifest, PlainFile, RecoveredFile, is_safe_mime, sanitize_mime_type,
  build_entries, join, names_of, build_manifest, validate_entries, validate_manifest, split_payload,
}
use drop_point.Crypto.Manifest.Split.{Recovered, recovered_contents, split_payload-Recovered}
use drop_point.Crypto.Manifest.Roundtrip.{Returned}
use drop_point.Crypto.Reference.{
  Primitives, EncryptOptions, EncryptResult, sealed_envelope, public_key_from_private,
  shared_secret_of, derive_keys, nonce_or_random, new_gcm, encrypt_aes_gcm, sender_keys,
  seal_bundle, encrypt_bundle, decrypt_bundle,
}
use drop_point.Crypto.Reference.Laws.{PrimitiveLaws}
use drop_point.Crypto.Reference.Roundtrip.{decrypt_bundle-encrypt_bundle}
use drop_point.Crypto.Tests.{four, four_bytes, nonce, metadata, key, nonce_bytes, key_bytes}
use drop_point.Crypto.Tests.Names.{plain, made}

abbrev formats : Formats
formats = record {
  unicode = plain;
  parse_media_type = λ v. some (v, false);
  format_time = λ t. codes "t";
  is_time = λ text. true;
}

abbrev file : PlainFile
file = record { name = codes "a.b"; type = []; contents = 7 ∷ 8 ∷ [] }

abbrev entry : ManifestFile
entry = record { name = codes "a.b"; type = codes "application/octet-stream"; size = pos 2 }

abbrev manifest : Manifest
manifest = record {
  protocol_version = protocol_version;
  files = entry ∷ [];
  created_at = codes "t";
}

abbrev payload : Bytes
payload = 7 ∷ 8 ∷ []

valid : validate_manifest formats manifest payload ≡ ok tt
unfolding validate_manifest validate_entries ltb_ℤ runes valid_string trim_right trim_left is_blank
    is_reserved reserved_windows_name upper before_dot trim_spaces is_receipt_name lower_ascii
    plain_s sanitize_filename any_forbidden bytes_eq forbidden_filename_rune seen_before
    filename_collision_key sanitize_mime_type ◌-ℤ◌ is_safe_mime
valid = refl

split_payload-Recovered_example :
    (files : List RecoveredFile) × (split_payload formats manifest payload ≡ ok files)
    × (join (recovered_contents files) ≡ payload)
    × Recovered formats [] (entry ∷ []) files
split_payload-Recovered_example = split_payload-Recovered formats manifest payload valid

abbrev equal_ℤ : ℤ → ℤ → Bool
equal_ℤ a b = not (ltb_ℤ a b) && not (ltb_ℤ b a)

equal_ℤ→eq : (a b : ℤ) → equal_ℤ a b ≡ true → a ≡ b
equal_ℤ→eq a b h =
    let tests : (ltb_ℤ a b ≡ false) × (ltb_ℤ b a ≡ false) = ground (arith, h) in
    eq_of_parts a b (omega (int_laws, ltb_ℤ_false→le a b tests.0, ltb_ℤ_false→le b a tests.1))

abbrev is_entry : List ManifestFile → Bool
is_entry (e ∷ []) =
    bytes_eq e.name entry.name && (bytes_eq e.type entry.type && equal_ℤ e.size entry.size)
is_entry _ = false

is_entry→eq : (es : List ManifestFile) → is_entry es ≡ true → es ≡ entry ∷ []
is_entry→eq [] h = absurd (ground (arith, h))
is_entry→eq (e ∷ f ∷ es) h = absurd (ground (arith, h))
is_entry→eq (e ∷ []) h =
    let tests : (bytes_eq e.name entry.name ≡ true)
        × (bytes_eq e.type entry.type ≡ true)
        × (equal_ℤ e.size entry.size ≡ true) =
      ground (arith, h) in
    λ i.
      record {
        name = bytes_eq→eq e.name entry.name tests.0 i;
        type = bytes_eq→eq e.type entry.type tests.1 i;
        size = equal_ℤ→eq e.size entry.size tests.2 i;
      }
      ∷ []

abbrev is_manifest : Manifest → Bool
is_manifest m =
    equal_ℤ m.protocol_version protocol_version
    && (is_entry m.files && bytes_eq m.created_at manifest.created_at)

is_manifest→eq : (m : Manifest) → is_manifest m ≡ true → m ≡ manifest
is_manifest→eq m h =
    let tests : (equal_ℤ m.protocol_version protocol_version ≡ true)
        × (is_entry m.files ≡ true)
        × (bytes_eq m.created_at manifest.created_at ≡ true) =
      ground (arith, h) in
    λ i. record {
      protocol_version = equal_ℤ→eq m.protocol_version protocol_version tests.0 i;
      files = is_entry→eq m.files tests.1 i;
      created_at = bytes_eq→eq m.created_at manifest.created_at tests.2 i;
    }

abbrev manifest_text : Bytes
manifest_text = codes "m"

-- A tag in front of the text.
abbrev sealed_text : Bytes → Bytes
sealed_text text = metadata ++ text

abbrev envelope : Envelope
envelope = sealed_envelope key nonce nonce (sealed_text manifest_text)

abbrev is_envelope : Envelope → Bool
is_envelope e =
    equal_ℤ e.protocol_version protocol_version
    && (bytes_eq e.key_agreement envelope.key_agreement
        && (bytes_eq e.sender_ephemeral_public_key envelope.sender_ephemeral_public_key
            && (bytes_eq e.metadata_nonce envelope.metadata_nonce
                && (bytes_eq e.payload_nonce envelope.payload_nonce
                    && bytes_eq e.encrypted_metadata envelope.encrypted_metadata))))

is_envelope→eq : (e : Envelope) → is_envelope e ≡ true → e ≡ envelope
is_envelope→eq e h =
    let tests : (equal_ℤ e.protocol_version protocol_version ≡ true)
        × (bytes_eq e.key_agreement envelope.key_agreement ≡ true)
        × (bytes_eq e.sender_ephemeral_public_key envelope.sender_ephemeral_public_key ≡ true)
        × (bytes_eq e.metadata_nonce envelope.metadata_nonce ≡ true)
        × (bytes_eq e.payload_nonce envelope.payload_nonce ≡ true)
        × (bytes_eq e.encrypted_metadata envelope.encrypted_metadata ≡ true) =
      ground (arith, h) in
    λ i. record {
      protocol_version = equal_ℤ→eq e.protocol_version protocol_version tests.0 i;
      key_agreement = bytes_eq→eq e.key_agreement envelope.key_agreement tests.1 i;
      sender_ephemeral_public_key =
          bytes_eq→eq e.sender_ephemeral_public_key envelope.sender_ephemeral_public_key tests.2 i;
      metadata_nonce = bytes_eq→eq e.metadata_nonce envelope.metadata_nonce tests.3 i;
      payload_nonce = bytes_eq→eq e.payload_nonce envelope.payload_nonce tests.4 i;
      encrypted_metadata = bytes_eq→eq e.encrypted_metadata envelope.encrypted_metadata tests.5 i;
    }

abbrev only_if : Bool → Bytes → Option Bytes
only_if true text = some text
only_if false text = none

only_if-some : (b : Bool) (t text : Bytes) → only_if b t ≡ some text → (b ≡ true) × (text ≡ t)
only_if-some true t text h = (refl, ground (arith, h))
only_if-some false t text h = absurd (ground (arith, h))

abbrev primitives : Primitives (Unit {0})
primitives = record {
  is_private_key = λ k. true;
  is_public_key = λ k. true;
  public_key = λ k. key;
  ecdh = λ private public. some key;
  generate_key = λ reader. some (key, reader);
  hkdf = λ secret salt info. some key;
  is_cipher_key = λ k. true;
  seal = λ k n aad text. sealed_text text;
  unseal = λ k n aad text. some (drop 16 text);
  rand_reader = tt;
  read_full = λ n reader. none;
  decoder = record { tokens = λ text. scalar [] ∷ []; envelope = λ text. some envelope };
  marshal_manifest = λ m. only_if (is_manifest m) manifest_text;
  marshal_envelope = λ e. only_if (is_envelope e) (codes "e");
  decode_manifest = λ text. some manifest;
  now = pos 0;
}

All-sealed : (text : Bytes) → All IsByte text → All IsByte (sealed_text text)
All-sealed text h =
    four_bytes (four (four (four text)))
      (four_bytes (four (four text)) (four_bytes (four text) (four_bytes text h)))

laws : PrimitiveLaws primitives formats
unfolding drop tokens has_unique_fields
laws = record {
  agreement = λ a b h k. refl;
  public_key_valid = λ a h. refl;
  public_key_size = λ a h. refl;
  public_key_bytes = λ a h. key_bytes;
  generated = λ reader after k h. refl;
  unseal_seal = λ k n aad text h. refl;
  seal_size = λ k n aad text. omega arith;
  seal_bytes = λ k n aad text h. All-sealed text h;
  read = λ n reader after bs h. absurd (ground (arith, h));
  manifest_text = λ m p text v h.
      let (same, t) = only_if-some (is_manifest m) manifest_text text h in
      (
        ap some (sym (is_manifest→eq m same)),
        (other [], refl, refl),
        subst (All IsByte) (sym t) (omega arith, tt),
      );
  envelope_text = λ e text v h.
      let (same, t) = only_if-some (is_envelope e) (codes "e") text h in
      (ap some (sym (is_envelope→eq e same)), (other [], refl, refl));
}

abbrev options : EncryptOptions (Unit {0})
options = record {
  sender_private_key = key;
  metadata_nonce = nonce;
  payload_nonce = nonce;
  created_at = some (pos 5);
  random = none;
}

abbrev result : EncryptResult
result = record {
  envelope = envelope;
  envelope_json = codes "e";
  encrypted_payload = sealed_text payload;
  manifest_json = manifest_text;
  payload_plaintext = payload;
  intermediates = record {
    shared_secret = key;
    metadata_key = key;
    payload_key = key;
    encrypted_metadata = sealed_text manifest_text;
  };
}

built : build_manifest formats (file ∷ []) (pos 5) ≡ ok (manifest, payload)
unfolding build_manifest canonicalize_filenames canonicalize_from find_free seen_before
    filename_collision_key build_entries sanitize_mime_type join
built = rw made refl

encrypted : encrypt_bundle primitives formats key (file ∷ []) options ≡ ok result
unfolding encrypt_bundle seal_bundle sender_keys public_key_from_private nonce_or_random
    shared_secret_of derive_keys encrypt_aes_gcm new_gcm bytes_eq encode char_of ltb_ℤ
encrypted = rw built refl

decrypt_bundle-encrypt_bundle_example :
    (names : List Bytes) × (outs : List RecoveredFile) × (canonicalize_filenames plain
        (names_of (file ∷ []))
      ≡ ok names)
    × (decrypt_bundle primitives formats key result.envelope result.encrypted_payload
        ≡ ok (outs, result.intermediates))
    × Returned formats names (file ∷ []) outs
decrypt_bundle-encrypt_bundle_example =
    decrypt_bundle-encrypt_bundle primitives laws key (file ∷ []) options result refl nonce_bytes
      nonce_bytes (omega arith, (omega arith, tt))
      (λ m h.
        subst (λ x. validate_manifest formats x.0 payload ≡ ok tt)
          (ok-injective {a = (manifest, payload)} {b = (m, payload)} (sym built ∙ h)) valid)
      encrypted
