-- ===== src/Token.antt =====
-- internal/token/token.go: capability tokens and their stored hashes. SHA-256 (crypto/sha256) and
-- the bytes of crypto/rand are arguments of the functions that use them.
pub mod Base64
pub mod Laws
mod Tests
use drop_point.Base.{
  ℕ, ◌+◌, ◌/◌, ◌%◌, Bool, true, false, not, ◌&&◌, ◌||◌, Option, none, some, List, [], ◌∷◌, ◌++◌,
  Bytes, codes, bytes_eq, strip_prefix, length, take, leb, ◌==◌, if◌then◌else◌,
}
use drop_point.Token.Base64.{encode, decode}

abbrev pub drop_point_id_prefix : Bytes
drop_point_id_prefix = codes "dp_"

abbrev pub submission_id_prefix : Bytes
submission_id_prefix = codes "sub_"

abbrev pub drop_token_prefix : Bytes
drop_token_prefix = codes "drop_"

abbrev pub pickup_token_prefix : Bytes
pickup_token_prefix = codes "pick_"

abbrev pub api_token_prefix : Bytes
api_token_prefix = codes "api_"

abbrev pub min_submission_entropy_bytes : ℕ
min_submission_entropy_bytes = 16

abbrev pub max_submission_entropy_bytes : ℕ
max_submission_entropy_bytes = 32

abbrev pub hash_scheme_prefix : Bytes
hash_scheme_prefix = codes "sha256:"

abbrev pub entropy_bytes : ℕ
entropy_bytes = 32

-- `generate`, with the bytes that crypto/rand has in store, of which `rand.Read` fills the secret;
-- `none` is its error for an empty prefix.
unfoldable pub generate : Bytes → Bytes → Option Bytes
generate [] random = none
generate (c ∷ cs) random = some ((c ∷ cs) ++ encode (take entropy_bytes random))

-- `none` stands for either error: a missing prefix, or a rest that is not base64url.
unfoldable pub decode_secret : Bytes → Bytes → Option Bytes
decode_secret value prefix = elim (strip_prefix prefix value) [
  | none ↦ none
  | some rest ↦ decode false rest
]

in_entropy_range : Option Bytes → Bool
in_entropy_range none = false
in_entropy_range (some secret) =
    leb min_submission_entropy_bytes (length secret)
    && leb (length secret) max_submission_entropy_bytes

unfoldable pub valid_submission_id : Bytes → Bool
unfolding in_entropy_range decode_secret
valid_submission_id value = in_entropy_range (decode_secret value submission_id_prefix)

-- `hex.EncodeToString`
hex_digit : ℕ → ℕ
hex_digit d = if leb d 9 then 48 + d else 87 + d

unfoldable pub hex : Bytes → Bytes
unfolding hex_digit
hex [] = []
hex (b ∷ bs) = hex_digit (b / 16) ∷ hex_digit (b % 16) ∷ hex bs

unfoldable pub hash_secret : (Bytes → Bytes) → Bytes → Bytes
hash_secret sha256 plaintext = hash_scheme_prefix ++ hex (sha256 plaintext)

-- The test in the loop of `ValidSHA256Hash`.
unfoldable pub is_hex_digit : ℕ → Bool
is_hex_digit r = (leb 48 r && leb r 57) || (leb 97 r && leb r 102)

unfoldable pub all_hex : Bytes → Bool
unfolding is_hex_digit
all_hex [] = true
all_hex (r ∷ rs) = is_hex_digit r && all_hex rs

hex_behind : Option Bytes → Bool
hex_behind none = false
hex_behind (some digits) = all_hex digits

unfoldable pub valid_sha256_hash : Bytes → Bool
unfolding hex_behind
valid_sha256_hash hash =
    if not (length hash == 6 + 1 + 64)
    then false
    else hex_behind (strip_prefix hash_scheme_prefix hash)

-- `subtle.ConstantTimeCompare(a, b) == 1`: the contents are equal.
unfoldable pub equal_hash : Bytes → Bytes → Bool
equal_hash a b =
    if not (valid_sha256_hash a) || not (valid_sha256_hash b) then false else bytes_eq a b

unfoldable pub verify_secret_hash : (Bytes → Bytes) → Bytes → Bytes → Bool
verify_secret_hash sha256 plaintext stored_hash =
    if not (valid_sha256_hash stored_hash)
    then false
    else bytes_eq (hash_secret sha256 plaintext) stored_hash
