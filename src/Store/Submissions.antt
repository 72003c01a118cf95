-- ===== src/Store/Submissions.antt =====
-- internal/store/repository.go: the methods on stored submissions.
use drop_point.Base.{ℕ, Bool, ◌&&◌, ◌||◌, none, ℤ, Bytes, bytes_eq, ◌==◌, if◌then◌else◌}
use drop_point.Errors.{ok}
use drop_point.Submission.{SubmissionStatus, same_status}
use drop_point.Store.Table.{select_rows, update_rows, count_rows}
use drop_point.Store.Rows.{SubmissionRow}
use drop_point.Store.Sql.{M, pure, fail, ◌>>=◌, Statement, exec, read}
use drop_point.Store.DropPoints.{coalesce}
use drop_point.Store.Queue.{
  has_key, is_receiving, is_ready, is_pending, pending_count, ready_bytes, find_submission,
  submission_unavailable_error,
}

pub record PendingStats : Type 0 where
  pub submissions : ℕ
  pub bytes : ℤ

-- One query counts the pending rows and adds up the sizes of the ready ones among them.
unfoldable pub pending_stats : Bytes → M PendingStats
pending_stats dpid = exec (
    read (λ t. ok (record {
      submissions = pending_count dpid t.submissions;
      bytes = ready_bytes dpid (select_rows (is_pending dpid) t.submissions);
    })))

-- An update of the rows with a key whose status passes a test.
abbrev pub update_submission :
    (SubmissionRow → Bool) → (SubmissionRow → SubmissionRow) → Statement ℕ
update_submission p f t =
    (ok (count_rows p t.submissions), record t { submissions = update_rows p f t.submissions })

abbrev pub can_pick_up : Bytes → Bytes → SubmissionRow → Bool
can_pick_up dpid sid r =
    has_key dpid sid r && (is_ready r || same_status r.status SubmissionStatus.acknowledged)

abbrev pub picked_up_row : ℤ → SubmissionRow → SubmissionRow
picked_up_row now r = record r { first_picked_up_at = coalesce r.first_picked_up_at now }

unfoldable pub set_picked_up : Bytes → Bytes → ℤ → Statement ℕ
set_picked_up dpid sid now = update_submission (can_pick_up dpid sid) (picked_up_row now)

unfoldable pub mark_submission_picked_up : Bytes → Bytes → ℤ → M (Unit {0})
mark_submission_picked_up dpid sid now = do
  changed ← exec (set_picked_up dpid sid now)
  if changed == 1
      then pure tt
      else do s ← find_submission dpid sid; fail (submission_unavailable_error s.status)

abbrev pub is_ready_row : Bytes → Bytes → SubmissionRow → Bool
is_ready_row dpid sid r = has_key dpid sid r && is_ready r

abbrev pub acknowledged_row : ℤ → SubmissionRow → SubmissionRow
acknowledged_row now r = record r {
  status = SubmissionStatus.acknowledged;
  acknowledged_at = coalesce r.acknowledged_at now;
}

unfoldable pub set_acknowledged : Bytes → Bytes → ℤ → Statement ℕ
set_acknowledged dpid sid now = update_submission (is_ready_row dpid sid) (acknowledged_row now)

unfoldable pub acknowledge_submission : Bytes → Bytes → ℤ → M (Unit {0})
acknowledge_submission dpid sid now = do
  changed ← exec (set_acknowledged dpid sid now)
  if changed == 1 then pure tt else do
    s ← find_submission dpid sid
    if same_status s.status SubmissionStatus.acknowledged
        then pure tt
        else fail (submission_unavailable_error s.status)

abbrev pub is_pending_row : Bytes → Bytes → SubmissionRow → Bool
is_pending_row dpid sid r = has_key dpid sid r && (is_receiving r || is_ready r)

abbrev pub failed_row : ℤ → SubmissionRow → SubmissionRow
failed_row now r = record r {
  status = SubmissionStatus.failed;
  failed_at = coalesce r.failed_at now;
}

unfoldable pub set_failed : Bytes → Bytes → ℤ → Statement ℕ
set_failed dpid sid now = update_submission (is_pending_row dpid sid) (failed_row now)

unfoldable pub fail_submission : Bytes → Bytes → ℤ → M (Unit {0})
fail_submission dpid sid now = do
  changed ← exec (set_failed dpid sid now)
  if changed == 1 then pure tt else do
    s ← find_submission dpid sid
    if same_status s.status SubmissionStatus.failed
        then pure tt
        else fail (submission_unavailable_error s.status)

abbrev pub cleared_row : SubmissionRow → SubmissionRow
cleared_row r = record r { envelope_path = none; payload_path = none }

abbrev pub update_only :
    (SubmissionRow → Bool) → (SubmissionRow → SubmissionRow) → Statement (Unit {0})
update_only p f t = (ok tt, record t { submissions = update_rows p f t.submissions })

unfoldable pub clear_submission_files : Bytes → Bytes → M (Unit {0})
clear_submission_files dpid sid = exec (update_only (has_key dpid sid) cleared_row)

unfoldable pub clear_drop_point_files : Bytes → M (Unit {0})
clear_drop_point_files dpid = exec (update_only (λ r. bytes_eq r.drop_point_id dpid) cleared_row)
