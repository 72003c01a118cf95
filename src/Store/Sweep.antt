-- ===== src/Store/Sweep.antt =====
-- internal/store/repository.go: the listings, and the queries of the cleanup service.
use drop_point.Base.{
  ℕ, Bool, true, false, not, ◌&&◌, ◌||◌, Option, none, some, List, [], ◌∷◌, map, ℤ, leb_ℤ, Bytes,
  bytes_eq, ◌==◌,
}
use drop_point.Errors.{ok}
use drop_point.DropPoint.{Status, DropPoint, same_status as same_drop_status}
use drop_point.Submission.{SubmissionStatus, Submission, same_status}
use drop_point.Store.Table.{select_rows, delete_rows, count_rows, order_by, text_le, then_by}
use drop_point.Store.Rows.{DropPointRow, SubmissionRow, scan_drop_point, scan_submission}
use drop_point.Store.Sql.{M, pure, ◌>>=◌, ◌>>◌, Statement, exec, read, scan_all}
use drop_point.Store.DropPoints.{mark_expired}
use drop_point.Store.Queue.{is_receiving, is_ready}

abbrev pub DropPointOrder : Type 0
DropPointOrder = DropPointRow → DropPointRow → Bool

abbrev pub SubmissionOrder : Type 0
SubmissionOrder = SubmissionRow → SubmissionRow → Bool

-- `queryDropPoints` and `querySubmissions` with a `WHERE` and an `ORDER BY`.
unfoldable pub query_drop_points : (DropPointRow → Bool) → DropPointOrder → M (List DropPoint)
query_drop_points p le =
    exec (read (λ t. scan_all scan_drop_point (order_by le (select_rows p t.drop_points))))

unfoldable pub query_submissions : (SubmissionRow → Bool) → SubmissionOrder → M (List Submission)
query_submissions p le =
    exec (read (λ t. scan_all scan_submission (order_by le (select_rows p t.submissions))))

-- `ORDER BY id`
abbrev pub by_id : DropPointOrder
by_id r s = text_le r.id s.id

-- `ORDER BY drop_point_id, id`
abbrev pub by_key : SubmissionOrder
by_key r s =
    then_by (text_le r.drop_point_id s.drop_point_id) (text_le s.drop_point_id r.drop_point_id)
      (text_le r.id s.id)

-- NULL comes first in an ascending order.
abbrev pub time_le : Option ℤ → Option ℤ → Bool
time_le none u = true
time_le (some t) none = false
time_le (some t) (some u) = leb_ℤ t u

-- `ORDER BY dropped_at, id`
abbrev pub by_drop_time : SubmissionOrder
by_drop_time r s =
    then_by (time_le r.dropped_at s.dropped_at) (time_le s.dropped_at r.dropped_at)
      (text_le r.id s.id)

-- `drop_point_id = ? AND status = 'ready'`
abbrev pub is_ready_child : Bytes → SubmissionRow → Bool
is_ready_child dpid r = bytes_eq r.drop_point_id dpid && is_ready r

unfoldable pub list_ready_submissions : Bytes → M (List Submission)
list_ready_submissions dpid = query_submissions (is_ready_child dpid) by_drop_time

-- `status = 'open' AND expires_at <= ?`
abbrev pub is_due : ℤ → DropPointRow → Bool
is_due now r = same_drop_status r.status Status.opened && leb_ℤ r.expires_at now

-- The loop of `ExpireDropPoints`.
unfoldable pub mark_all_expired : List DropPoint → M (Unit {0})
mark_all_expired [] = pure tt
mark_all_expired (dp ∷ dps) = do mark_expired dp.id; mark_all_expired dps

unfoldable pub expire_drop_points : ℤ → M (List DropPoint)
expire_drop_points now = do
  expired ← query_drop_points (is_due now) by_id
  mark_all_expired expired
  pure expired

unfoldable pub receiving_submissions : M (List Submission)
receiving_submissions = query_submissions is_receiving by_key

unfoldable pub receiving_submissions_started_before : ℤ → M (List Submission)
receiving_submissions_started_before cutoff =
    query_submissions (λ r. is_receiving r && leb_ℤ r.receiving_started_at cutoff) by_key

unfoldable pub cleanup_submissions : M (List Submission)
cleanup_submissions =
    query_submissions
      (λ r.
        same_status r.status SubmissionStatus.acknowledged
        || same_status r.status SubmissionStatus.failed)
      by_key

abbrev pub is_set : Option Bytes → Bool
is_set none = false
is_set (some s) = true

-- `envelope_path IS NOT NULL OR payload_path IS NOT NULL`
abbrev pub has_files : SubmissionRow → Bool
has_files r = is_set r.envelope_path || is_set r.payload_path

abbrev pub by_submission_id : SubmissionOrder
by_submission_id r s = text_le r.id s.id

unfoldable pub submission_files_for_drop_point : Bytes → M (List Submission)
submission_files_for_drop_point dpid =
    query_submissions (λ r. bytes_eq r.drop_point_id dpid && has_files r) by_submission_id

-- `status IN ('closed', 'expired', 'failed')`
unfoldable pub is_terminal : DropPointRow → Bool
is_terminal r =
    same_drop_status r.status Status.closed
    || (same_drop_status r.status Status.expired || same_drop_status r.status Status.failed)

unfoldable pub terminal_drop_points : M (List DropPoint)
terminal_drop_points = query_drop_points is_terminal by_id

unfoldable pub drop_point_ids : M (List Bytes)
drop_point_ids = exec (read (λ t. ok (map (λ r. r.id) t.drop_points)))

-- `column IS NOT NULL AND column <= ?`
abbrev pub not_after : Option ℤ → ℤ → Bool
not_after none cutoff = false
not_after (some t) cutoff = leb_ℤ t cutoff

-- The `WHERE` of the purge.
unfoldable pub is_purgeable : ℤ → List SubmissionRow → DropPointRow → Bool
unfolding is_terminal
is_purgeable cutoff rows r =
    is_terminal r
    && (count_rows (λ s. bytes_eq s.drop_point_id r.id && has_files s) rows == 0
        && ((same_drop_status r.status Status.closed && not_after r.closed_at cutoff)
            || ((same_drop_status r.status Status.expired && leb_ℤ r.expires_at cutoff)
                || (same_drop_status r.status Status.failed && not_after r.failed_at cutoff))))

-- Whether the submission's parent is among the rows.
unfoldable pub is_child_of : List DropPointRow → SubmissionRow → Bool
is_child_of rows s = not (count_rows (λ r. bytes_eq r.id s.drop_point_id) rows == 0)

-- The delete, with the `ON DELETE CASCADE` of the table `submissions`.
unfoldable pub remove_purgeable : ℤ → Statement ℕ
remove_purgeable cutoff t =
    let purged = is_purgeable cutoff t.submissions in
    (
      ok (count_rows purged t.drop_points),
      record t {
        drop_points = delete_rows purged t.drop_points;
        submissions = delete_rows (is_child_of (select_rows purged t.drop_points)) t.submissions;
      },
    )

unfoldable pub purge_terminal_drop_points : ℤ → M ℕ
purge_terminal_drop_points cutoff = exec (remove_purgeable cutoff)
