-- ===== src/Store/DropPoints.antt =====
-- internal/store/repository.go: the methods on drop points.
use drop_point.Base.{
  ℕ, Bool, not, ◌&&◌, ◌||◌, Option, none, some, ◌∷◌, ℤ, pos, ltb_ℤ, leb_ℤ, Bytes, bytes_eq,
  is_empty, ◌==◌, if◌then◌else◌,
}
use drop_point.Errors.{
  Error, ok, err, drop_point_not_found, drop_token_invalid, pickup_token_invalid,
  drop_point_not_open, drop_point_expired, drop_point_closed, drop_point_failed,
  active_drop_point_quota_exceeded, unique_constraint, check_constraint, invalid_argument,
}
use drop_point.DropPoint.{Status, DropPoint, same_status, require_open}
use drop_point.Token.{equal_hash}
use drop_point.Store.Table.{find_row, update_rows, count_rows}
use drop_point.Store.Rows.{DropPointRow, drop_point_row, scan_drop_point}
use drop_point.Store.Sql.{
  M, pure, fail, ◌>>=◌, ◌>>◌, check, Statement, exec, read, row_or, bind_result,
}

abbrev pub has_id : Bytes → DropPointRow → Bool
has_id id r = bytes_eq r.id id

abbrev pub has_drop_token_hash : Bytes → DropPointRow → Bool
has_drop_token_hash hash r = bytes_eq r.drop_token_hash hash

-- `api_token_id = ? AND status = 'open' AND expires_at > ?`
unfoldable pub is_active : Bytes → ℤ → DropPointRow → Bool
is_active api_token_id now r =
    bytes_eq r.api_token_id api_token_id
    && (same_status r.status Status.opened && ltb_ℤ now r.expires_at)

-- The constraints of the table `drop_points`, on a row to be inserted.
unfoldable pub insert_checked : DropPointRow → Statement ℕ
insert_checked r t =
    if is_empty r.display_name
    then (err check_constraint, t)
    else if not (count_rows (has_id r.id) t.drop_points == 0)
        || not (count_rows (has_drop_token_hash r.drop_token_hash) t.drop_points == 0)
    then (err unique_constraint, t)
    else (ok 1, record t { drop_points = r ∷ t.drop_points })

-- `INSERT ... SELECT ... WHERE (SELECT count(*) ...) < ?`
unfoldable pub insert_within_quota : DropPointRow → ℤ → ℤ → Statement ℕ
unfolding insert_checked
insert_within_quota r max_active now t =
    if ltb_ℤ (pos (count_rows (is_active r.api_token_id now) t.drop_points)) max_active
    then insert_checked r t
    else (ok 0, t)

unfoldable pub create_drop_point_within_quota : DropPoint → ℤ → ℤ → M (Unit {0})
create_drop_point_within_quota dp max_active now =
    if leb_ℤ max_active (pos 0) then fail invalid_argument else do
      changed ← exec (insert_within_quota (drop_point_row dp) max_active now)
      if changed == 0 then fail active_drop_point_quota_exceeded else pure tt

unfoldable pub select_drop_point : (DropPointRow → Bool) → Error → Statement DropPoint
select_drop_point p missing =
    read (λ t. bind_result (row_or missing (find_row p t.drop_points)) scan_drop_point)

unfoldable pub find_drop_point_by_id : Bytes → M DropPoint
find_drop_point_by_id id = exec (select_drop_point (has_id id) drop_point_not_found)

-- `id = ? AND status = 'open'`
abbrev pub is_open_row : Bytes → DropPointRow → Bool
is_open_row id r = has_id id r && same_status r.status Status.opened

abbrev pub expired_row : DropPointRow → DropPointRow
expired_row r = record r { status = Status.expired }

unfoldable pub set_expired : Bytes → Statement (Unit {0})
set_expired id t =
    (ok tt, record t { drop_points = update_rows (is_open_row id) expired_row t.drop_points })

unfoldable pub mark_expired : Bytes → M (Unit {0})
mark_expired id = exec (set_expired id)

-- The block with which `FindDropPointByDropTokenHash` and `AuthorizePickupToken` end.
unfoldable pub expire_if_due : DropPoint → ℤ → M DropPoint
expire_if_due dp now =
    if not (ltb_ℤ now dp.expires_at) && same_status dp.status Status.opened
    then (do mark_expired dp.id; pure (record dp { status = Status.expired }))
    else pure dp

unfoldable pub find_drop_point_by_drop_token_hash : Bytes → ℤ → M DropPoint
find_drop_point_by_drop_token_hash hash now = do
  dp ← exec (select_drop_point (has_drop_token_hash hash) drop_token_invalid)
  expire_if_due dp now

unfoldable pub find_open_drop_point_by_drop_token_hash : Bytes → ℤ → M DropPoint
find_open_drop_point_by_drop_token_hash hash now = do
  dp ← find_drop_point_by_drop_token_hash hash now
  check (require_open dp now)
  pure dp

unfoldable pub authorize_pickup_token : Bytes → Bytes → ℤ → M DropPoint
authorize_pickup_token id pickup_token_hash now = do
  dp ← find_drop_point_by_id id
  if not (equal_hash dp.pickup_token_hash pickup_token_hash)
      then fail pickup_token_invalid
      else expire_if_due dp now

-- `if err := RequireOpen(...); err != nil`: an expiry is recorded before it is returned.
unfoldable pub refuse : Bytes → Error → M (Unit {0})
refuse id drop_point_expired = do mark_expired id; fail drop_point_expired
refuse id e = fail e

unfoldable pub refuse_unless_open : Bytes → Option Error → M (Unit {0})
refuse_unless_open id none = pure tt
refuse_unless_open id (some e) = refuse id e

-- `id = ? AND status = 'open' AND expires_at > ?`
abbrev pub is_closable : Bytes → ℤ → DropPointRow → Bool
is_closable id now r = has_id id r && (same_status r.status Status.opened && ltb_ℤ now r.expires_at)

abbrev pub closed_row : ℤ → DropPointRow → DropPointRow
closed_row now r = record r { status = Status.closed; closed_at = some now }

unfoldable pub set_closed : Bytes → ℤ → Statement ℕ
set_closed id now t = (
  ok (count_rows (is_closable id now) t.drop_points),
  record t { drop_points = update_rows (is_closable id now) (closed_row now) t.drop_points },
)

-- What `CloseDropPoint` does after an update that changed no row.
unfoldable pub explain_close : Bytes → ℤ → M (Unit {0})
explain_close id now = do
  dp ← find_drop_point_by_id id
  if same_status dp.status Status.closed
      then pure tt
      else (do refuse_unless_open id (require_open dp now); fail drop_point_not_open)

unfoldable pub close_drop_point : Bytes → ℤ → M (Unit {0})
close_drop_point id now = do
  dp ← find_drop_point_by_id id
  if same_status dp.status Status.closed then pure tt else do
    refuse_unless_open id (require_open dp now)
    changed ← exec (set_closed id now)
    if changed == 1 then pure tt else explain_close id now

unfoldable pub unavailable_drop_point_error : Status → Error
unavailable_drop_point_error Status.closed = drop_point_closed
unavailable_drop_point_error Status.expired = drop_point_expired
unavailable_drop_point_error Status.failed = drop_point_failed
unavailable_drop_point_error _ = drop_point_not_open

-- `COALESCE(column, ?)`
abbrev pub coalesce : Option ℤ → ℤ → Option ℤ
coalesce none now = some now
coalesce (some t) now = some t

abbrev pub failed_row : ℤ → DropPointRow → DropPointRow
failed_row now r = record r { status = Status.failed; failed_at = coalesce r.failed_at now }

unfoldable pub set_failed : Bytes → ℤ → Statement ℕ
set_failed id now t = (
  ok (count_rows (is_open_row id) t.drop_points),
  record t { drop_points = update_rows (is_open_row id) (failed_row now) t.drop_points },
)

unfoldable pub fail_drop_point : Bytes → ℤ → M (Unit {0})
fail_drop_point id now = do
  changed ← exec (set_failed id now)
  if changed == 1 then pure tt else do
    dp ← find_drop_point_by_id id
    if same_status dp.status Status.failed
        then pure tt
        else fail (unavailable_drop_point_error dp.status)
