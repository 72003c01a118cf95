-- ===== src/Api/Access.antt =====
-- Who is let in by an API token in internal/httpapi/auth.go.
use drop_point.Base.{◌≡◌, refl, not, Option, none, some, ℤ, Bytes, arith, Option-cases, inl, inr}
use drop_point.Errors.{Result, ok, err, api_token_not_found}
use drop_point.Token.{hash_secret, valid_sha256_hash}
use drop_point.Store.Table.{find_row}
use drop_point.Store.Rows.{ApiTokenRow, ApiToken, Tables, scan_api_token}
use drop_point.Store.Sql.{Conn, row_or, bind_result}
use drop_point.Store.Sql.Hoare.{
  Post, Triple, Triple-pure, Triple-fail, Triple-if, Triple-bind, Triple-weaken, Triple-read,
  Triple-attempt, after_value,
}
use drop_point.Store.ApiTokens.{is_enabled_with, find_enabled_api_token_by_secret_hash}
use drop_point.Api.{
  AuthenticatedApiToken, limit_of, bearer_token, is_api_token_not_found, authenticated,
  authenticate_plaintext, authenticate_api_token,
}

module _ (sha256 trim : Bytes → Bytes) (default : ℤ) (t : Tables) where
  -- The header carries a token whose hash is stored with an enabled row; the quota is the row's, or
  -- the default where the row has none.
  abbrev pub IsEnabled : Bytes → AuthenticatedApiToken → Type 0
  IsEnabled authorization a =
      (plaintext : Bytes) × (row : ApiTokenRow) × (bearer_token trim authorization ≡ some plaintext)
      × (find_row (is_enabled_with (hash_secret sha256 plaintext)) t.api_tokens ≡ some row)
      × (a.id ≡ row.id)
      × (a.max_active_drop_points ≡ limit_of row.max_active_drop_points default)

  abbrev Found : Bytes → ApiToken → Tables → Type 0
  Found hash token u =
      ((row : ApiTokenRow) × (find_row (is_enabled_with hash) t.api_tokens ≡ some row)
        × (scan_api_token row ≡ ok token))
      × (u ≡ t)

  found :
      (hash : Bytes) (token : ApiToken) (u : Tables)
      → u ≡ t
      → bind_result
          (row_or api_token_not_found (find_row (is_enabled_with hash) u.api_tokens))
          scan_api_token
        ≡ ok token
      → Found hash token u
  found hash token u same h = elim (Option-cases (find_row (is_enabled_with hash) t.api_tokens)) [
    | inl gone ↦ absurd (cc (rw (same, gone) at h))
    | inr (row, there) ↦ ((row, there, rw (same, there) at h), same)
  ]

  find_enabled-triple :
      (hash : Bytes)
      → Triple (λ u. u ≡ t) (find_enabled_api_token_by_secret_hash hash) (Found hash) (λ u. u ≡ t)
  unfolding find_enabled_api_token_by_secret_hash
  find_enabled-triple hash =
      Triple-if (not (valid_sha256_hash hash)) (λ _. Triple-fail api_token_not_found (λ u p. p))
        (λ _.
          Triple-weaken (λ u p. p) (λ token u q. found hash token u q.0 q.1) (λ u p. p)
            (Triple-read {P = λ u. u ≡ t} _))

  abbrev Admitted : Bytes → Option AuthenticatedApiToken → Tables → Type 0
  Admitted authorization none u = u ≡ t
  Admitted authorization (some a) u = IsEnabled authorization a × (u ≡ t)

  authenticated-triple :
      (authorization plaintext : Bytes)
      → bearer_token trim authorization ≡ some plaintext
      → (r : Result ApiToken)
      → Triple
          (Post (Found (hash_secret sha256 plaintext)) (λ u. u ≡ t) r)
          (authenticated default r)
          (Admitted authorization)
          (λ u. u ≡ t)
  unfolding authenticated scan_api_token
  authenticated-triple authorization plaintext b (ok token) =
      Triple-pure _ (λ u ((row, there, scanned), same).
        ((plaintext, row, b, there, ground (arith, scanned), ground (arith, scanned)), same))
  authenticated-triple authorization plaintext b (err e) =
      Triple-if (is_api_token_not_found e) (λ _. Triple-pure none (λ u p. p))
        (λ _. Triple-fail e (λ u p. p))

  authenticate_api_token-triple :
      (authorization : Bytes)
      → Triple
          (λ u. u ≡ t)
          (authenticate_api_token sha256 trim default authorization)
          (Admitted authorization)
          (λ u. u ≡ t)
  unfolding authenticate_api_token authenticate_plaintext
  authenticate_api_token-triple authorization =
      elim (Option-cases (bearer_token trim authorization)) [
        | inl none' ↦ rw none' (Triple-pure none (λ u p. p))
        | inr (plaintext, b) ↦ rw b (
            Triple-bind (Post (Found (hash_secret sha256 plaintext)) (λ u. u ≡ t))
              (Triple-attempt (find_enabled-triple (hash_secret sha256 plaintext)))
              (authenticated-triple authorization plaintext b))
      ]

-- Whatever calls of the driver fail: a caller is authenticated only by a bearer token whose hash is
-- stored with an enabled row; its identifier and quota are that row's, with the default where the
-- row sets no quota; and the tables are as before.
pub authenticate_api_token-IsEnabled :
    (sha256 trim : Bytes → Bytes) (default : ℤ) (authorization : Bytes) (c : Conn)
    (a : AuthenticatedApiToken)
    → (authenticate_api_token sha256 trim default authorization c).0 ≡ ok (some a)
    → IsEnabled sha256 trim default c.tables authorization a
      × ((authenticate_api_token sha256 trim default authorization c).1.tables ≡ c.tables)
authenticate_api_token-IsEnabled sha256 trim default authorization c a h =
    after_value (authenticate_api_token-triple sha256 trim default c.tables authorization) c
      (some a) refl h
