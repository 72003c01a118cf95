-- ===== src/Store/Rows.antt =====
-- internal/store/migrate.go and repository.go: the tables, their rows, and the scans of a row.
-- A TEXT column that may be NULL is an `Option`; instants stand for their formatted texts, which
-- SQLite orders as the instants themselves for the years 0 to 9999.
use drop_point.Base.{
  ℕ, Bool, not, Option, none, some, List, [], ℤ, pos, Bytes, is_empty, ◌==◌, if◌then◌else◌,
}
use drop_point.Errors.{Result, ok, err, invalid_row}
use drop_point.DropPoint.{Status, DropPoint}
use drop_point.Submission.{SubmissionStatus, Submission}

pub record DropPointRow : Type 0 where
  pub id : Bytes
  pub api_token_id : Bytes
  pub client_name : Option Bytes
  pub display_name : Bytes
  pub drop_token_hash : Bytes
  pub pickup_token_hash : Bytes
  pub status : Status
  pub created_at : ℤ
  pub closed_at : Option ℤ
  pub failed_at : Option ℤ
  pub expires_at : ℤ
  pub max_bytes : ℤ
  pub max_pending_submissions : ℤ
  pub max_pending_bytes : ℤ

pub record SubmissionRow : Type 0 where
  pub id : Bytes
  pub drop_point_id : Bytes
  pub status : SubmissionStatus
  pub envelope_path : Option Bytes
  pub payload_path : Option Bytes
  pub encrypted_size : Option ℤ
  pub created_at : ℤ
  pub receiving_started_at : ℤ
  pub dropped_at : Option ℤ
  pub first_picked_up_at : Option ℤ
  pub acknowledged_at : Option ℤ
  pub failed_at : Option ℤ

pub record ApiTokenRow : Type 0 where
  pub id : Bytes
  pub secret_hash : Bytes
  pub enabled : ℕ
  pub max_active_drop_points : Option ℤ
  pub created_at : ℤ
  pub disabled_at : Option ℤ

pub record Tables : Type 0 where
  pub drop_points : List DropPointRow
  pub submissions : List SubmissionRow
  pub api_tokens : List ApiTokenRow

abbrev pub no_tables : Tables
no_tables = record { drop_points = []; submissions = []; api_tokens = [] }

-- `nullString`: an empty string is stored as NULL.
abbrev pub null_string : Bytes → Option Bytes
null_string value = if is_empty value then none else some value

-- `sql.NullString.String` and `sql.NullInt64.Int64` of a NULL.
abbrev pub string_or_empty : Option Bytes → Bytes
string_or_empty none = []
string_or_empty (some s) = s

abbrev pub int_or_zero : Option ℤ → ℤ
int_or_zero none = pos 0
int_or_zero (some n) = n

-- The values that `CreateDropPointWithinQuota` binds.
unfoldable pub drop_point_row : DropPoint → DropPointRow
drop_point_row dp = record {
  id = dp.id;
  api_token_id = dp.api_token_id;
  client_name = null_string dp.client_name;
  display_name = dp.display_name;
  drop_token_hash = dp.drop_token_hash;
  pickup_token_hash = dp.pickup_token_hash;
  status = dp.status;
  created_at = dp.created_at;
  closed_at = dp.closed_at;
  failed_at = dp.failed_at;
  expires_at = dp.expires_at;
  max_bytes = dp.max_bytes;
  max_pending_submissions = dp.max_pending_submissions;
  max_pending_bytes = dp.max_pending_bytes;
}

abbrev pub drop_point_of : DropPointRow → DropPoint
drop_point_of r = record {
  id = r.id;
  api_token_id = r.api_token_id;
  client_name = string_or_empty r.client_name;
  display_name = r.display_name;
  drop_token_hash = r.drop_token_hash;
  pickup_token_hash = r.pickup_token_hash;
  status = r.status;
  created_at = r.created_at;
  closed_at = r.closed_at;
  failed_at = r.failed_at;
  expires_at = r.expires_at;
  max_bytes = r.max_bytes;
  max_pending_submissions = r.max_pending_submissions;
  max_pending_bytes = r.max_pending_bytes;
}

-- A status that no constant names is refused.
abbrev pub check_status {ℓ} : {A : Type ℓ} → Status → A → Result A
check_status (Status.other s) a = err invalid_row
check_status _ a = ok a

abbrev pub check_submission_status {ℓ} : {A : Type ℓ} → SubmissionStatus → A → Result A
check_submission_status (SubmissionStatus.other s) a = err invalid_row
check_submission_status _ a = ok a

unfoldable pub scan_drop_point : DropPointRow → Result DropPoint
scan_drop_point r = check_status r.status (drop_point_of r)

abbrev pub submission_of : SubmissionRow → Submission
submission_of r = record {
  id = r.id;
  drop_point_id = r.drop_point_id;
  status = r.status;
  envelope_path = string_or_empty r.envelope_path;
  payload_path = string_or_empty r.payload_path;
  encrypted_size = int_or_zero r.encrypted_size;
  created_at = r.created_at;
  receiving_started_at = r.receiving_started_at;
  dropped_at = r.dropped_at;
  first_picked_up_at = r.first_picked_up_at;
  acknowledged_at = r.acknowledged_at;
  failed_at = r.failed_at;
}

unfoldable pub scan_submission : SubmissionRow → Result Submission
scan_submission r = check_submission_status r.status (submission_of r)

pub record ApiToken : Type 0 where
  pub id : Bytes
  pub enabled : Bool
  pub max_active_drop_points : Option ℤ
  pub created_at : ℤ
  pub disabled_at : Option ℤ

unfoldable pub scan_api_token : ApiTokenRow → Result ApiToken
scan_api_token r = ok (record {
  id = r.id;
  enabled = not (r.enabled == 0);
  max_active_drop_points = r.max_active_drop_points;
  created_at = r.created_at;
  disabled_at = r.disabled_at;
})
