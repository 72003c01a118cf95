-- ===== src/Store/Outcome/Tokens.antt =====
-- internal/store/api_tokens.go: adding, disabling and removing an operator's API token.
use drop_point.Base.{
  ◌≡◌, ◌≢◌, refl, true, false, none, some, List, [], ◌∷◌, ℤ, Bytes, bytes_eq, bytes_eq_iff, arith,
  inl, inr, Option-cases,
}
use drop_point.Errors.{ok}
use drop_point.Store.Table.{find_row, update_rows, delete_rows}
use drop_point.Store.Rows.{ApiTokenRow, ApiToken, Tables, scan_api_token}
use drop_point.Store.Sql.{pure, fail, ◌>>=◌, exec, healthy}
use drop_point.Store.ApiTokens.{
  AddApiTokenParams, has_invalid_fields, is_zero_time, has_token_id, insert_api_token, enabled_row,
  add_api_token, is_enabled_with, find_enabled_api_token_by_secret_hash, disabled_row, set_disabled,
  disable_api_token, drop_api_token, remove_api_token,
}

-- A token that a secret opens after an update or a removal is not the one that was changed.
find-disabled :
    (id hash : Bytes) (now : ℤ) (rows : List ApiTokenRow) (r : ApiTokenRow)
    → find_row (is_enabled_with hash) (update_rows (has_token_id id) (disabled_row now) rows)
      ≡ some r
    → bytes_eq r.id id ≡ false
unfolding find_row update_rows
find-disabled id hash now [] r h = cc
find-disabled id hash now (s ∷ rows) r h = ground (arith, find-disabled id hash now rows r)

find-removed :
    (id hash : Bytes) (rows : List ApiTokenRow) (r : ApiTokenRow)
    → find_row (is_enabled_with hash) (delete_rows (has_token_id id) rows) ≡ some r
    → bytes_eq r.id id ≡ false
unfolding find_row delete_rows
find-removed id hash [] r h = cc
find-removed id hash (s ∷ rows) r h = ground (arith, find-removed id hash rows r)

-- On a driver that does not fail: after an API token is disabled, no secret finds a token of its
-- identifier.
pub disable_api_token-locks :
    (t : Tables) (id hash : Bytes) (now : ℤ) (found : ApiToken)
    → (disable_api_token id now (healthy t)).0 ≡ ok tt
    → (find_enabled_api_token_by_secret_hash hash (disable_api_token id now (healthy t)).1).0
      ≡ ok found
    → found.id ≢ id
unfolding disable_api_token set_disabled find_enabled_api_token_by_secret_hash ◌>>=◌ exec pure fail
    scan_api_token
disable_api_token-locks t id hash now found h k e =
    elim (Option-cases (
      find_row (is_enabled_with hash)
        (update_rows (has_token_id id) (disabled_row now) t.api_tokens))) [
          | inl gone ↦ ground arith
          | inr (r, there) ↦
              ground (arith, find-disabled id hash now t.api_tokens r there, bytes_eq_iff r.id id)
        ]

-- The same after it is removed.
pub remove_api_token-locks :
    (t : Tables) (id hash : Bytes) (found : ApiToken)
    → (remove_api_token id (healthy t)).0 ≡ ok tt
    → (find_enabled_api_token_by_secret_hash hash (remove_api_token id (healthy t)).1).0 ≡ ok found
    → found.id ≢ id
unfolding remove_api_token drop_api_token find_enabled_api_token_by_secret_hash ◌>>=◌ exec pure fail
    scan_api_token
remove_api_token-locks t id hash found h k e =
    elim (Option-cases
      (find_row (is_enabled_with hash) (delete_rows (has_token_id id) t.api_tokens))) [
        | inl gone ↦ ground arith
        | inr (r, there) ↦
            ground (arith, find-removed id hash t.api_tokens r there, bytes_eq_iff r.id id)
      ]

twice :
    (id : Bytes) (now later : ℤ) (rows : List ApiTokenRow)
    → update_rows
        (has_token_id id)
        (disabled_row later)
        (update_rows (has_token_id id) (disabled_row now) rows)
      ≡ update_rows (has_token_id id) (disabled_row now) rows
unfolding update_rows
twice id now later [] = refl
twice id now later (r ∷ rows) = ground (arith, twice id now later rows)

-- On a driver that does not fail, disabling an API token again changes nothing: the first time
-- stays recorded.
pub disable_api_token_idem :
    (t : Tables) (id : Bytes) (now later : ℤ)
    → is_zero_time now ≡ false
    → let once = (disable_api_token id now (healthy t)).1 in
      (disable_api_token id later once).1 ≡ once
unfolding disable_api_token set_disabled ◌>>=◌ exec pure fail
disable_api_token_idem t id now later h = ground (arith, twice id now later t.api_tokens)

-- A token that was added with a fresh identifier and a fresh hash is found by that hash, enabled
-- and with its limit, on a driver that does not fail.
pub add_api_token-found :
    (t : Tables) (params : AddApiTokenParams)
    → (add_api_token params (healthy t)).0 ≡ ok tt
    → (find_enabled_api_token_by_secret_hash params.secret_hash
        (add_api_token params (healthy t)).1).0
      ≡ ok (record {
        id = params.id;
        enabled = true;
        max_active_drop_points = params.max_active_drop_points;
        created_at = params.created_at;
        disabled_at = none;
      })
unfolding add_api_token insert_api_token enabled_row has_invalid_fields
    find_enabled_api_token_by_secret_hash ◌>>=◌ exec pure fail scan_api_token find_row
add_api_token-found t params h = ground (arith, bytes_eq_iff params.secret_hash params.secret_hash)
