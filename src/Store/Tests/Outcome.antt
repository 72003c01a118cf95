-- ===== src/Store/Tests/Outcome.antt =====
-- The theorems on what the methods return at work on a small database.
use drop_point.Base.{
  ◌≡◌, ◌≢◌, refl, true, false, none, some, [], ◌∷◌, pos, ltb_ℤ, ◌-ℤ◌, ◌+ℤ◌, Bytes, bytes_eq,
  strip_prefix, All,
}
use drop_point.Errors.{ok, err, is_ok, driver_failure, active_drop_point_quota_exceeded}
use drop_point.DropPoint.{Status, DropPoint, require_open, expire, same_status}
use drop_point.Token.{equal_hash, valid_sha256_hash, all_hex}
use drop_point.Store.Table.{find_row, count_rows, update_rows, sum_rows}
use drop_point.Store.Rows.{
  Tables, ApiToken, drop_point_of, drop_point_row, scan_drop_point, scan_submission, scan_api_token,
}
use drop_point.Store.Sql.{Conn, healthy, ◌>>=◌, exec, pure, check, transaction}
use drop_point.Submission.{same_status as same_submission_status}
use drop_point.Store.Queue.{
  commit_submission, commit_steps, find_submission, set_ready, ready_bytes, ready_size,
}
use drop_point.Store.DropPoints.{
  has_id, mark_expired, set_expired, is_active, select_drop_point, find_drop_point_by_id,
  expire_if_due, find_drop_point_by_drop_token_hash, find_open_drop_point_by_drop_token_hash,
  authorize_pickup_token, create_drop_point_within_quota, insert_within_quota, insert_checked,
}
use drop_point.Store.ApiTokens.{
  AddApiTokenParams, disable_api_token, add_api_token, find_enabled_api_token_by_secret_hash,
  set_disabled, has_invalid_fields, is_zero_time, insert_api_token,
}
use drop_point.Store.Sweep.{is_due, expire_drop_points}
use drop_point.Store.Outcome.Settled.{settled}
use drop_point.Store.Outcome.Access.{
  Recorded, find_open_drop_point-opened, authorize_pickup_token-authorized,
}
use drop_point.Store.Outcome.Commit.{commit_submission-AllOrNothing}
use drop_point.Store.Sql.Determined.{AllOrNothing}
use drop_point.Store.Outcome.Quota.{
  Stored, create_drop_point_within_quota-Stored, create_drop_point_within_quota-admits,
}
use drop_point.Store.Outcome.Tokens.{disable_api_token-locks, add_api_token-found}
use drop_point.Store.Outcome.Expiry.{expire_drop_points-none_due}
use drop_point.Store.Tests.Data.{hash_a, point, api_token, two_queued, upload}

abbrev dpid : Bytes
dpid = 1 ∷ []

-- Five calls succeed, and the commit behind them fails though it is recorded.
abbrev lost_reply : Conn
lost_reply = record {
  tables = two_queued;
  faults = false ∷ false ∷ false ∷ false ∷ false ∷ true ∷ true ∷ [];
}

recorded_with_error :
    ((commit_submission dpid (2 ∷ []) upload (pos 50) lost_reply).0 ≡ err driver_failure)
    × (commit_submission dpid (2 ∷ []) upload (pos 50) (healthy two_queued)
        ≡ (ok tt, healthy (commit_submission dpid (2 ∷ []) upload (pos 50) lost_reply).1.tables))
unfolding ◌>>=◌ exec check transaction pure find_row bytes_eq scan_drop_point scan_submission ltb_ℤ
    same_status same_submission_status find_submission require_open select_drop_point
    commit_submission commit_steps set_ready ready_bytes count_rows update_rows ◌-ℤ◌ sum_rows
    ready_size ◌+ℤ◌
recorded_with_error = (refl, refl)

commit_submission-AllOrNothing_example :
    AllOrNothing (commit_submission dpid (2 ∷ []) upload (pos 50)) lost_reply
commit_submission-AllOrNothing_example =
    commit_submission-AllOrNothing dpid (2 ∷ []) upload (pos 50) lost_reply

find_open_drop_point-opened_example :
    (require_open (drop_point_of point) (pos 50) ≡ none)
    × (point.drop_token_hash ≡ 8 ∷ [])
    × ((find_open_drop_point_by_drop_token_hash (8 ∷ []) (pos 50) (healthy two_queued)).1.tables
        ≡ two_queued)
unfolding find_open_drop_point_by_drop_token_hash find_drop_point_by_drop_token_hash
    select_drop_point expire_if_due ◌>>=◌ exec pure check find_row bytes_eq scan_drop_point
    require_open ltb_ℤ
find_open_drop_point-opened_example =
    find_open_drop_point-opened (8 ∷ []) (pos 50) (healthy two_queued) (drop_point_of point) refl

-- A pick-up at the deadline, by which the expiry is recorded.
abbrev overdue : DropPoint
overdue = record (drop_point_of point) { status = Status.expired }

authorize_pickup_token-authorized_example :
    ((dpid ≡ dpid) × (equal_hash hash_a hash_a ≡ true))
    × ((found : DropPoint) × Recorded (has_id dpid) two_queued found
        × (overdue ≡ (expire found (pos 100)).0)
        × ((authorize_pickup_token dpid hash_a (pos 100) (healthy two_queued)).1.tables
            ≡ settled (pos 100) found two_queued))
    × ((expire overdue (pos 100)).1 ≡ false)
unfolding authorize_pickup_token find_drop_point_by_id select_drop_point expire_if_due ◌>>=◌ exec
    pure find_row bytes_eq scan_drop_point equal_hash valid_sha256_hash strip_prefix all_hex ltb_ℤ
    mark_expired set_expired same_status
authorize_pickup_token-authorized_example =
    authorize_pickup_token-authorized dpid hash_a (pos 100) (healthy two_queued) overdue refl

abbrev new_point : DropPoint
new_point = record (drop_point_of point) { id = 5 ∷ []; drop_token_hash = 6 ∷ [] }

create_drop_point_within_quota-Stored_example :
    Stored new_point
      (pos 3)
      (pos 50)
      two_queued
      (create_drop_point_within_quota new_point (pos 3) (pos 50) (healthy two_queued)).1.tables
unfolding create_drop_point_within_quota insert_within_quota insert_checked drop_point_row ◌>>=◌
    exec pure count_rows is_active bytes_eq same_status ltb_ℤ
create_drop_point_within_quota-Stored_example =
    create_drop_point_within_quota-Stored new_point (pos 3) (pos 50) (healthy two_queued) refl

create_drop_point_within_quota-admits_example :
    create_drop_point_within_quota new_point (pos 1) (pos 50) (healthy two_queued)
    ≡ (err active_drop_point_quota_exceeded, healthy two_queued)
unfolding count_rows is_active bytes_eq same_status ltb_ℤ
create_drop_point_within_quota-admits_example =
    create_drop_point_within_quota-admits new_point (pos 1) (pos 50) two_queued refl refl refl refl

abbrev other_token : AddApiTokenParams
other_token = record {
  id = 9 ∷ [];
  secret_hash = hash_a;
  max_active_drop_points = some (pos 2);
  created_at = pos 6;
}

abbrev no_tokens : Tables
no_tokens = record two_queued { api_tokens = [] }

add_api_token-found_example :
    (find_enabled_api_token_by_secret_hash hash_a
      (add_api_token other_token (healthy no_tokens)).1).0
    ≡ ok (record {
      id = 9 ∷ [];
      enabled = true;
      max_active_drop_points = some (pos 2);
      created_at = pos 6;
      disabled_at = none;
    })
unfolding add_api_token has_invalid_fields is_zero_time insert_api_token exec count_rows
    valid_sha256_hash strip_prefix all_hex bytes_eq ltb_ℤ
add_api_token-found_example = add_api_token-found no_tokens other_token refl

abbrev two_tokens : Tables
two_tokens = record two_queued {
  api_tokens = record api_token { id = 9 ∷ [] } ∷ record api_token { id = 10 ∷ [] } ∷ [];
}

abbrev second : ApiToken
second = record {
  id = 10 ∷ [];
  enabled = true;
  max_active_drop_points = none;
  created_at = pos 5;
  disabled_at = none;
}

disable_api_token-locks_example : second.id ≢ 9 ∷ []
unfolding disable_api_token is_zero_time set_disabled find_enabled_api_token_by_secret_hash
    scan_api_token ◌>>=◌ exec pure find_row count_rows update_rows valid_sha256_hash strip_prefix
    all_hex bytes_eq ltb_ℤ
disable_api_token-locks_example =
    disable_api_token-locks two_tokens (9 ∷ []) hash_a (pos 50) second refl refl

expire_drop_points-none_due_example :
    (is_ok (expire_drop_points (pos 200) (healthy two_queued)).0 ≡ true)
    × All
        (λ r. is_due (pos 200) r ≡ false)
        (expire_drop_points (pos 200) (healthy two_queued)).1.tables.drop_points
expire_drop_points-none_due_example = expire_drop_points-none_due (pos 200) two_queued
