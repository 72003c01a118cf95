-- ===== src/Token/Laws.antt =====
-- What internal/token promises: identifiers that it generates are accepted, secrets survive their
-- encoding, and stored hashes are compared exactly.
use drop_point.Base.{
  ℕ, zero, suc, take, ◌+◌, ◌*◌, ◌/◌, ◌%◌, ◌≤◌, ◌<◌, ◌≡◌, refl, ◌↔◌, Bool, true, false, some, List,
  [], ◌∷◌, ◌++◌, Bytes, All, length, bytes_eq_iff, bytes_eq_refl, arith, strip_prefix,
}
use drop_point.Token.Base64.{char_of, value_of, encode, push, values, assemble, decode}
use drop_point.Token.{
  submission_id_prefix, entropy_bytes, generate, valid_submission_id, hex_digit, hex, hash_secret,
  is_hex_digit, all_hex, valid_sha256_hash, equal_hash, verify_secret_hash,
}

abbrev pub IsByte : ℕ → Type 0
IsByte b = b < 256

-- The six-bit groups of some bytes.
sextets : Bytes → List ℕ
sextets [] = []
sextets (x ∷ []) = x / 4 ∷ x % 4 * 16 ∷ []
sextets (x ∷ y ∷ []) = x / 4 ∷ (x % 4 * 16 + y / 16) ∷ y % 16 * 4 ∷ []
sextets (x ∷ y ∷ z ∷ r) = x / 4 ∷ (x % 4 * 16 + y / 16) ∷ (y % 16 * 4 + z / 64) ∷ z % 64 ∷ sextets r

value_of-char_of : (v : ℕ) → v < 64 → value_of (char_of v) ≡ some v
unfolding value_of char_of
value_of-char_of v h = ground arith

char_of-printable : (v : ℕ) → v < 64 → 44 < char_of v
unfolding char_of
char_of-printable v h = ground arith

-- The decoder reads a character of the alphabet as its value, and never skips it.
values-char_of : (v : ℕ) (cs : Bytes) → v < 64 → values (char_of v ∷ cs) ≡ push (some v) (values cs)
unfolding values
values-char_of v cs h = rw (value_of-char_of v h) (ground (arith, char_of-printable v h))

values-encode : (bs : Bytes) → All IsByte bs → values (encode bs) ≡ some (sextets bs)
unfolding encode sextets
values-encode [] h = unfold values in refl
values-encode (x ∷ []) h =
    rw (values-char_of (x / 4) _ (omega arith), values-char_of (x % 4 * 16) _ (omega arith))
      (unfold values push in refl)
values-encode (x ∷ y ∷ []) h =
    rw
      (
        values-char_of (x / 4) _ (omega arith),
        values-char_of (x % 4 * 16 + y / 16) _ (omega arith),
        values-char_of (y % 16 * 4) _ (omega arith),
      )
      (unfold values push in refl)
values-encode (x ∷ y ∷ z ∷ r) h =
    rw
      (
        values-char_of (x / 4) _ (omega arith),
        values-char_of (x % 4 * 16 + y / 16) _ (omega arith),
        values-char_of (y % 16 * 4 + z / 64) _ (omega arith),
        values-char_of (z % 64) _ (omega arith),
        values-encode r h.1.1.1,
      )
      (unfold push in refl)

assemble-sextets :
    (strict : Bool) (bs : Bytes) → All IsByte bs → assemble strict (sextets bs) ≡ some bs
unfolding assemble sextets
assemble-sextets strict [] h = refl
assemble-sextets strict (x ∷ []) h = ground arith
assemble-sextets strict (x ∷ y ∷ []) h = ground arith
assemble-sextets strict (x ∷ y ∷ z ∷ r) h = ground (arith, assemble-sextets strict r)

-- Any secret survives its encoding, whether the decoder is strict or not.
pub decode-encode :
    (strict : Bool) (bs : Bytes) → All IsByte bs → decode strict (encode bs) ≡ some bs
unfolding decode
decode-encode strict bs h = rw (values-encode bs h) (assemble-sextets strict bs h)

All-take : (n : ℕ) (bs : Bytes) → All IsByte bs → All IsByte (take n bs)
unfolding take
All-take zero bs h = tt
All-take (suc n) [] h = tt
All-take (suc n) (b ∷ bs) h = (h.0, All-take n bs h.1)

take-at_least : (m n : ℕ) (bs : Bytes) → m ≤ n → m ≤ length bs → m ≤ length (take n bs)
unfolding take
take-at_least m zero bs h k = h
take-at_least m (suc n) [] h k = k
take-at_least zero (suc n) (b ∷ bs) h k = omega arith
take-at_least (suc m) (suc n) (b ∷ bs) h k =
    omega (arith, take-at_least m n bs (omega (arith, h)) (omega (arith, k)))

take-at_most : (n : ℕ) (bs : Bytes) → length (take n bs) ≤ n
unfolding take
take-at_most zero bs = omega arith
take-at_most (suc n) [] = omega arith
take-at_most (suc n) (b ∷ bs) = omega (arith, take-at_most n bs)

-- A submission identifier that `generate` makes is accepted, if crypto/rand has 16 bytes or more in
-- store, of which `generate` takes at most the 32 that it asks for.
pub generate-valid_submission_id :
    (random id : Bytes)
    → All IsByte random
    → 16 ≤ length random
    → generate submission_id_prefix random ≡ some id
    → valid_submission_id id ≡ true
unfolding generate valid_submission_id strip_prefix
generate-valid_submission_id random id bytes lo e =
    let same : submission_id_prefix ++ encode (take entropy_bytes random) ≡ id = ground arith in
    let least = take-at_least 16 entropy_bytes random (omega arith) lo in
    let most = take-at_most entropy_bytes random in
    rw
      (
        ← same,
        decode-encode false (take entropy_bytes random) (All-take entropy_bytes random bytes),
      )
      (ground (arith, least, most))

hex_digit-is_hex_digit : (d : ℕ) → d < 16 → is_hex_digit (hex_digit d) ≡ true
unfolding hex_digit is_hex_digit
hex_digit-is_hex_digit d h = ground arith

all_hex-hex : (bs : Bytes) → All IsByte bs → all_hex (hex bs) ≡ true
unfolding all_hex hex
all_hex-hex [] h = refl
all_hex-hex (b ∷ bs) h = ground (
  arith,
  hex_digit-is_hex_digit (b / 16) (omega arith),
  hex_digit-is_hex_digit (b % 16) (omega arith),
  all_hex-hex bs h.1,
)

length-hex : (bs : Bytes) → length (hex bs) ≡ 2 * length bs
unfolding hex
length-hex [] = omega arith
length-hex (b ∷ bs) = omega (arith, length-hex bs)

-- What crypto/sha256 documents of its result: 32 bytes.
pub record IsDigest (sha256 : Bytes → Bytes) : Type 0 where
  pub size : (s : Bytes) → length (sha256 s) ≡ 32
  pub bytes : (s : Bytes) → All IsByte (sha256 s)

-- A stored hash has the form that the validity test asks for.
hash_secret-valid :
    (sha256 : Bytes → Bytes) (s : Bytes)
    → IsDigest sha256
    → valid_sha256_hash (hash_secret sha256 s) ≡ true
unfolding hash_secret valid_sha256_hash strip_prefix
hash_secret-valid sha256 s d =
    ground (arith, length-hex (sha256 s), d.size s, all_hex-hex (sha256 s) (d.bytes s))

-- Verification of a plaintext token succeeds exactly on its own hash; two stored hashes are equal
-- for `EqualHash` exactly when both are well formed and the same.
pub verify_secret_hash_iff :
    (sha256 : Bytes → Bytes)
    → IsDigest sha256
    → (plaintext stored a b : Bytes)
    → ((verify_secret_hash sha256 plaintext stored ≡ true)
        ↔ (hash_secret sha256 plaintext ≡ stored))
      × ((equal_hash a b ≡ true) ↔ ((valid_sha256_hash a ≡ true) × (a ≡ b)))
unfolding verify_secret_hash equal_hash
verify_secret_hash_iff sha256 d plaintext stored a b = (
  (
    λ h. ground (arith, bytes_eq_iff (hash_secret sha256 plaintext) stored, h),
    λ e.
        rw (← e, hash_secret-valid sha256 plaintext d)
          (bytes_eq_refl (hash_secret sha256 plaintext)),
  ),
  (λ h. ground (arith, bytes_eq_iff a b, h), λ h. rw (← h.1, h.0) (bytes_eq_refl a)),
)
