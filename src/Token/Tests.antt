-- ===== src/Token/Tests.antt =====
-- The theorems on tokens at work: a digest of 32 zero bytes, and an identifier of 16.
use drop_point.Base.{take, ◌≡◌, ◌↔◌, refl, true, [], ◌∷◌, ◌++◌, Bytes, arith}
use drop_point.Token.{
  submission_id_prefix, generate, valid_submission_id, hash_secret, verify_secret_hash, equal_hash,
  valid_sha256_hash,
}
use drop_point.Token.Base64.{encode}
use drop_point.Token.Laws.{IsDigest, generate-valid_submission_id, verify_secret_hash_iff}

abbrev sixteen : Bytes
sixteen = 0 ∷ 1 ∷ 2 ∷ 3 ∷ 4 ∷ 5 ∷ 6 ∷ 7 ∷ 8 ∷ 9 ∷ 10 ∷ 11 ∷ 12 ∷ 13 ∷ 14 ∷ 255 ∷ []

abbrev zeros : Bytes
zeros =
    0 ∷ 0 ∷ 0 ∷ 0 ∷ 0 ∷ 0 ∷ 0 ∷ 0 ∷ 0 ∷ 0 ∷ 0 ∷ 0 ∷ 0 ∷ 0 ∷ 0 ∷ 0 ∷ 0 ∷ 0 ∷ 0 ∷ 0 ∷ 0 ∷ 0 ∷ 0 ∷ 0
    ∷ 0 ∷ 0 ∷ 0 ∷ 0 ∷ 0 ∷ 0 ∷ 0 ∷ 0 ∷ []

abbrev constant_digest : Bytes → Bytes
constant_digest s = zeros

constant_digest-IsDigest : IsDigest constant_digest
constant_digest-IsDigest = record { size = λ s. refl; bytes = λ s. ground arith }

generate-valid_submission_id_example :
    valid_submission_id (submission_id_prefix ++ encode sixteen) ≡ true
unfolding generate take
generate-valid_submission_id_example =
    generate-valid_submission_id sixteen (submission_id_prefix ++ encode sixteen) (ground arith)
      (omega arith) refl

verify_secret_hash_iff_example :
    ((verify_secret_hash constant_digest sixteen zeros ≡ true)
      ↔ (hash_secret constant_digest sixteen ≡ zeros))
    × ((equal_hash zeros sixteen ≡ true) ↔ ((valid_sha256_hash zeros ≡ true) × (zeros ≡ sixteen)))
verify_secret_hash_iff_example =
    verify_secret_hash_iff constant_digest constant_digest-IsDigest sixteen zeros zeros sixteen
