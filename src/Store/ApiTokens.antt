-- ===== src/Store/ApiTokens.antt =====
-- internal/store/api_tokens.go: the operator's API tokens.
use drop_point.Base.{
  ℕ, Bool, false, not, ◌&&◌, ◌||◌, Option, none, some, List, ◌∷◌, ℤ, pos, leb_ℤ, Bytes, bytes_eq,
  is_empty, ◌==◌, if◌then◌else◌,
}
use drop_point.Errors.{ok, err, api_token_not_found, unique_constraint, invalid_argument}
use drop_point.Token.{valid_sha256_hash}
use drop_point.Store.Table.{find_row, update_rows, delete_rows, count_rows, order_by, text_le}
use drop_point.Store.Rows.{ApiTokenRow, ApiToken, scan_api_token}
use drop_point.Store.Sql.{
  M, pure, fail, ◌>>=◌, Statement, exec, read, row_or, bind_result, scan_all,
}
use drop_point.Store.DropPoints.{coalesce}

pub record AddApiTokenParams : Type 0 where
  pub id : Bytes
  pub secret_hash : Bytes
  pub max_active_drop_points : Option ℤ
  pub created_at : ℤ

-- `maxActive != nil && *maxActive <= 0`
abbrev pub is_nonpositive : Option ℤ → Bool
is_nonpositive none = false
is_nonpositive (some n) = leb_ℤ n (pos 0)

-- Whether `validateAPITokenFields` refuses the fields.
unfoldable pub has_invalid_fields : Bytes → Bytes → Option ℤ → Bool
has_invalid_fields id secret_hash max_active =
    is_empty id || (not (valid_sha256_hash secret_hash) || is_nonpositive max_active)

-- `IsZero`: Go's zero time is `pos 0`.
unfoldable pub is_zero_time : ℤ → Bool
is_zero_time t = leb_ℤ t (pos 0) && leb_ℤ (pos 0) t

abbrev pub has_token_id : Bytes → ApiTokenRow → Bool
has_token_id id r = bytes_eq r.id id

abbrev pub has_secret_hash : Bytes → ApiTokenRow → Bool
has_secret_hash hash r = bytes_eq r.secret_hash hash

unfoldable pub insert_api_token : ApiTokenRow → Statement (Unit {0})
insert_api_token r t =
    if not (count_rows (has_token_id r.id) t.api_tokens == 0)
      || not (count_rows (has_secret_hash r.secret_hash) t.api_tokens == 0)
    then (err unique_constraint, t)
    else (ok tt, record t { api_tokens = r ∷ t.api_tokens })

unfoldable pub enabled_row : AddApiTokenParams → ApiTokenRow
enabled_row params = record {
  id = params.id;
  secret_hash = params.secret_hash;
  enabled = 1;
  max_active_drop_points = params.max_active_drop_points;
  created_at = params.created_at;
  disabled_at = none;
}

unfoldable pub add_api_token : AddApiTokenParams → M (Unit {0})
add_api_token params =
    if has_invalid_fields params.id params.secret_hash params.max_active_drop_points
    then fail invalid_argument
    else if is_zero_time params.created_at
    then fail invalid_argument
    else exec (insert_api_token (enabled_row params))

-- `secret_hash = ? AND enabled = 1`
abbrev pub is_enabled_with : Bytes → ApiTokenRow → Bool
is_enabled_with hash r = has_secret_hash hash r && r.enabled == 1

unfoldable pub find_enabled_api_token_by_secret_hash : Bytes → M ApiToken
find_enabled_api_token_by_secret_hash secret_hash =
    if not (valid_sha256_hash secret_hash)
    then fail api_token_not_found
    else exec (
        read (λ t.
          bind_result
            (row_or api_token_not_found (find_row (is_enabled_with secret_hash) t.api_tokens))
            scan_api_token))

unfoldable pub list_api_tokens : M (List ApiToken)
list_api_tokens =
    exec (read (λ t. scan_all scan_api_token (order_by (λ r s. text_le r.id s.id) t.api_tokens)))

abbrev pub disabled_row : ℤ → ApiTokenRow → ApiTokenRow
disabled_row now r = record r { enabled = 0; disabled_at = coalesce r.disabled_at now }

unfoldable pub set_disabled : Bytes → ℤ → Statement ℕ
set_disabled id now t = (
  ok (count_rows (has_token_id id) t.api_tokens),
  record t { api_tokens = update_rows (has_token_id id) (disabled_row now) t.api_tokens },
)

unfoldable pub disable_api_token : Bytes → ℤ → M (Unit {0})
disable_api_token id now =
    if is_empty id
    then fail invalid_argument
    else if is_zero_time now
    then fail invalid_argument
    else do
      changed ← exec (set_disabled id now)
      if changed == 0 then fail api_token_not_found else pure tt

unfoldable pub drop_api_token : Bytes → Statement ℕ
drop_api_token id t = (
  ok (count_rows (has_token_id id) t.api_tokens),
  record t { api_tokens = delete_rows (has_token_id id) t.api_tokens },
)

unfoldable pub remove_api_token : Bytes → M (Unit {0})
remove_api_token id = if is_empty id then fail invalid_argument else do
  changed ← exec (drop_api_token id)
  if changed == 0 then fail api_token_not_found else pure tt
