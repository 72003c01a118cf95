-- ===== src/Store/Queue.antt =====
-- internal/store/repository.go: the methods of an upload, from its receiving row to its commit.
use drop_point.Base.{
  ℕ, Bool, not, ◌&&◌, ◌||◌, none, some, List, ◌∷◌, ℤ, pos, ◌-ℤ◌, ltb_ℤ, Bytes, bytes_eq, ◌==◌,
  if◌then◌else◌,
}
use drop_point.Errors.{
  Error, Result, ok, err, drop_point_not_found, submission_not_found, submission_already_exists,
  submission_not_ready, submission_acknowledged, submission_failed,
  pending_submission_quota_exceeded, pending_bytes_quota_exceeded, unique_constraint,
  invalid_argument, lost_update,
}
use drop_point.DropPoint.{Status, require_open, same_status as same_drop_status}
use drop_point.Submission.{
  SubmissionStatus, Submission, CommitSubmissionResult, same_status, is_incomplete,
}
use drop_point.Store.Table.{find_row, update_rows, delete_rows, count_rows, sum_rows}
use drop_point.Store.Rows.{DropPointRow, SubmissionRow, scan_submission, int_or_zero}
use drop_point.Store.Sql.{
  M, pure, fail, ◌>>=◌, ◌>>◌, attempt, check, Statement, exec, read, row_or, bind_result,
  transaction, is_unique_constraint,
}
use drop_point.Store.DropPoints.{
  has_id, select_drop_point, find_drop_point_by_id, refuse_unless_open,
}

-- `drop_point_id = ? AND id = ?`, the primary key.
abbrev pub has_key : Bytes → Bytes → SubmissionRow → Bool
has_key dpid sid r = bytes_eq r.drop_point_id dpid && bytes_eq r.id sid

abbrev pub is_receiving : SubmissionRow → Bool
is_receiving r = same_status r.status SubmissionStatus.receiving

abbrev pub is_ready : SubmissionRow → Bool
is_ready r = same_status r.status SubmissionStatus.ready

-- `drop_point_id = ? AND status IN ('receiving', 'ready')`
abbrev pub is_pending : Bytes → SubmissionRow → Bool
is_pending dpid r = bytes_eq r.drop_point_id dpid && (is_receiving r || is_ready r)

unfoldable pub pending_count : Bytes → List SubmissionRow → ℕ
pending_count dpid rows = count_rows (is_pending dpid) rows

-- The weight of a row in `sum(encrypted_size) ... WHERE drop_point_id = ? AND status = 'ready'`.
unfoldable pub ready_size : Bytes → SubmissionRow → ℤ
ready_size dpid r =
    if bytes_eq r.drop_point_id dpid && is_ready r then int_or_zero r.encrypted_size else pos 0

unfoldable pub ready_bytes : Bytes → List SubmissionRow → ℤ
ready_bytes dpid rows = sum_rows (ready_size dpid) rows

unfoldable pub receiving_row : Bytes → Bytes → ℤ → SubmissionRow
receiving_row dpid sid now = record {
  id = sid;
  drop_point_id = dpid;
  status = SubmissionStatus.receiving;
  envelope_path = none;
  payload_path = none;
  encrypted_size = none;
  created_at = now;
  receiving_started_at = now;
  dropped_at = none;
  first_picked_up_at = none;
  acknowledged_at = none;
  failed_at = none;
}

-- The `WHERE` of the insert: the parent is open, not past its deadline, and its queue has room.
unfoldable pub has_room : Bytes → ℤ → List SubmissionRow → DropPointRow → Bool
has_room dpid now rows r =
    has_id dpid r
    && (same_drop_status r.status Status.opened
        && (ltb_ℤ now r.expires_at
            && ltb_ℤ (pos (pending_count dpid rows)) r.max_pending_submissions))

-- `INSERT INTO submissions ... SELECT ... FROM drop_points WHERE ...`
unfoldable pub insert_submission : Bytes → Bytes → ℤ → Statement ℕ
insert_submission dpid sid now t =
    if count_rows (has_room dpid now t.submissions) t.drop_points == 0
    then (ok 0, t)
    else if not (count_rows (has_key dpid sid) t.submissions == 0)
    then (err unique_constraint, t)
    else (ok 1, record t { submissions = receiving_row dpid sid now ∷ t.submissions })

unfoldable pub find_submission : Bytes → Bytes → M Submission
find_submission dpid sid = exec (
    read (λ t.
      bind_result (row_or submission_not_found (find_row (has_key dpid sid) t.submissions))
        scan_submission))

-- `if IsUniqueConstraint(err) { return ErrSubmissionAlreadyExists }`
unfoldable pub as_existing : Result ℕ → M ℕ
as_existing (ok n) = pure n
as_existing (err e) = fail (if is_unique_constraint e then submission_already_exists else e)

-- The last lookup of `BeginSubmission`, by its error.
unfoldable pub full_or_existing : Result Submission → M (Unit {0})
full_or_existing (ok s) = fail submission_already_exists
full_or_existing (err submission_not_found) = fail pending_submission_quota_exceeded
full_or_existing (err e) = fail e

-- What `BeginSubmission` does after an insert that added no row.
unfoldable pub explain_begin : Bytes → Bytes → ℤ → M (Unit {0})
explain_begin dpid sid now = do
  dp ← find_drop_point_by_id dpid
  refuse_unless_open dpid (require_open dp now)
  found ← attempt (find_submission dpid sid)
  full_or_existing found

unfoldable pub begin_submission : Bytes → Bytes → ℤ → M (Unit {0})
begin_submission dpid sid now = do
  inserted ← attempt (exec (insert_submission dpid sid now))
  changed ← as_existing inserted
  if changed == 1 then pure tt else explain_begin dpid sid now

unfoldable pub submission_unavailable_error : SubmissionStatus → Error
submission_unavailable_error SubmissionStatus.acknowledged = submission_acknowledged
submission_unavailable_error SubmissionStatus.failed = submission_failed
submission_unavailable_error SubmissionStatus.ready = submission_already_exists
submission_unavailable_error _ = submission_not_ready

abbrev pub ready_row : CommitSubmissionResult → ℤ → SubmissionRow → SubmissionRow
ready_row stored now r = record r {
  status = SubmissionStatus.ready;
  envelope_path = some stored.envelope_path;
  payload_path = some stored.payload_path;
  encrypted_size = some stored.encrypted_size;
  dropped_at = some now;
}

abbrev pub is_receiving_row : Bytes → Bytes → SubmissionRow → Bool
is_receiving_row dpid sid r = has_key dpid sid r && is_receiving r

unfoldable pub set_ready : Bytes → Bytes → CommitSubmissionResult → ℤ → Statement ℕ
set_ready dpid sid stored now t = (
  ok (count_rows (is_receiving_row dpid sid) t.submissions),
  record t {
    submissions = update_rows (is_receiving_row dpid sid) (ready_row stored now) t.submissions;
  },
)

-- The body of the transaction of `CommitSubmission`. The quota test is Go's
-- `stored.EncryptedSize > dp.MaxPendingBytes-pendingBytes`.
unfoldable pub commit_steps : Bytes → Bytes → CommitSubmissionResult → ℤ → M (Unit {0})
commit_steps dpid sid stored now = do
  dp ← exec (select_drop_point (has_id dpid) drop_point_not_found)
  check (require_open dp now)
  s ← find_submission dpid sid
  if not (same_status s.status SubmissionStatus.receiving)
      then fail (submission_unavailable_error s.status)
      else do
        pending_bytes ← exec (read (λ t. ok (ready_bytes dpid t.submissions)))
        if ltb_ℤ (dp.max_pending_bytes -ℤ pending_bytes) stored.encrypted_size
            then fail pending_bytes_quota_exceeded
            else do
              changed ← exec (set_ready dpid sid stored now)
              if changed == 1 then pure tt else fail lost_update

unfoldable pub commit_submission : Bytes → Bytes → CommitSubmissionResult → ℤ → M (Unit {0})
commit_submission dpid sid stored now =
    if is_incomplete stored
    then fail invalid_argument
    else transaction (commit_steps dpid sid stored now)

unfoldable pub remove_receiving : Bytes → Bytes → Statement (Unit {0})
remove_receiving dpid sid t =
    (ok tt, record t { submissions = delete_rows (is_receiving_row dpid sid) t.submissions })

unfoldable pub delete_receiving_submission : Bytes → Bytes → M (Unit {0})
delete_receiving_submission dpid sid = exec (remove_receiving dpid sid)
