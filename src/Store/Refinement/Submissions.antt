-- ===== src/Store/Refinement/Submissions.antt =====
-- The methods on submissions do what internal/droppoint/droppoint.go does to one submission.
use drop_point.Base.{◌≡◌, ◌≢◌, refl, Bool, ◌||◌, Option, none, some, ℤ, Bytes, arith, if◌then◌else◌}
use drop_point.Errors.{Error, ok, submission_acknowledged}
use drop_point.Submission.{
  SubmissionStatus, Submission, same_status, mark_picked_up, acknowledge, fail as fail_domain,
}
use drop_point.Store.Table.{find_row, update_rows, count_rows}
use drop_point.Store.Rows.{SubmissionRow, Tables, scan_submission}
use drop_point.Store.Sql.{healthy, pure, fail, ◌>>=◌, exec}
use drop_point.Store.Queue.{
  has_key, is_ready, is_receiving, find_submission, submission_unavailable_error,
}
use drop_point.Store.Submissions.{
  picked_up_row, set_picked_up, mark_submission_picked_up, acknowledged_row, set_acknowledged,
  acknowledge_submission, is_pending_row, failed_row, set_failed, fail_submission,
}
use drop_point.Store.Invariant.{IsConsistent}
use drop_point.Store.Refinement.{to_result}
use drop_point.Store.Refinement.Lookup.{affected, found_after}

-- The row of a key stands for a submission.
abbrev pub Stores : Tables → Bytes → Bytes → Submission → Type 0
Stores t dpid sid s =
    (row : SubmissionRow) × (find_row (has_key dpid sid) t.submissions ≡ some row)
    × (scan_submission row ≡ ok s)

-- For a stored submission that has no acknowledgement time while ready, and a driver that does not
-- fail: `AcknowledgeSubmission` reports what the lifecycle function reports, and leaves in the table what
-- that function returns.
pub acknowledge_submission-refines :
    (t : Tables) (dpid sid : Bytes) (s : Submission) (now : ℤ)
    → IsConsistent t
    → Stores t dpid sid s
    → (s.status ≡ SubmissionStatus.ready → s.acknowledged_at ≡ none)
    → ((acknowledge_submission dpid sid now (healthy t)).0 ≡ to_result (acknowledge s now).1)
      × Stores
          (acknowledge_submission dpid sid now (healthy t)).1.tables
          dpid
          sid
          (acknowledge s now).0
unfolding acknowledge_submission set_acknowledged find_submission ◌>>=◌ exec pure fail acknowledge
    scan_submission same_status submission_unavailable_error
acknowledge_submission-refines t dpid sid s now c (row, found, scanned) fresh =
    let n = affected t c dpid sid row found is_ready in
    let after = found_after t c dpid sid row found is_ready (acknowledged_row now) (λ s. refl) in
    (
      ground (arith, n, after),
      (
        (if is_ready row then acknowledged_row now row else row),
        ground (arith, n, after),
        ground arith,
      ),
    )

-- For a stored submission and a driver that does not fail: `MarkSubmissionPickedUp` reports what the
-- lifecycle function reports, and leaves in the table what that function returns.
pub mark_submission_picked_up-refines :
    (t : Tables) (dpid sid : Bytes) (s : Submission) (now : ℤ)
    → IsConsistent t
    → Stores t dpid sid s
    → ((mark_submission_picked_up dpid sid now (healthy t)).0 ≡ to_result (mark_picked_up s now).1)
      × Stores
          (mark_submission_picked_up dpid sid now (healthy t)).1.tables
          dpid
          sid
          (mark_picked_up s now).0
unfolding mark_submission_picked_up set_picked_up find_submission ◌>>=◌ exec pure fail
    mark_picked_up scan_submission same_status submission_unavailable_error
mark_submission_picked_up-refines t dpid sid s now c (row, found, scanned) =
    let n = affected t c dpid sid row found readable in
    let after = found_after t c dpid sid row found readable (picked_up_row now) (λ s. refl) in
    (
      ground (arith, n, after),
      (
        (if readable row then picked_up_row now row else row),
        ground (arith, n, after),
        ground arith,
      ),
    )
  where
    readable : SubmissionRow → Bool
    readable r = is_ready r || same_status r.status SubmissionStatus.acknowledged

-- What `FailSubmission` makes of a submission: the lifecycle's failure, except that an acknowledged
-- submission is refused.
abbrev pub fail_unless_acknowledged : Submission → ℤ → Submission × Option Error
fail_unless_acknowledged s now =
    if same_status s.status SubmissionStatus.acknowledged
    then (s, some submission_acknowledged)
    else (fail_domain s now, none)

-- For a stored submission without a failure time unless it failed, and a driver that does not fail:
-- `FailSubmission` follows the lifecycle function on every submission that is not acknowledged, and
-- refuses an acknowledged one, which it leaves as it is.
pub fail_submission-refines :
    (t : Tables) (dpid sid : Bytes) (s : Submission) (now : ℤ)
    → IsConsistent t
    → Stores t dpid sid s
    → (s.status ≢ SubmissionStatus.failed → s.failed_at ≡ none)
    → ((fail_submission dpid sid now (healthy t)).0 ≡ to_result (fail_unless_acknowledged s now).1)
      × Stores
          (fail_submission dpid sid now (healthy t)).1.tables
          dpid
          sid
          (fail_unless_acknowledged s now).0
unfolding fail_submission set_failed find_submission ◌>>=◌ exec pure fail fail_domain
    scan_submission same_status submission_unavailable_error
fail_submission-refines t dpid sid s now c (row, found, scanned) fresh =
    (ground (arith, n, after), (row', ground (arith, n, after), ground arith))
  where
    pending : SubmissionRow → Bool
    pending r = is_receiving r || is_ready r

    n : count_rows (is_pending_row dpid sid) t.submissions ≡ (if pending row then 1 else 0)
    n = affected t c dpid sid row found pending

    after :
        find_row
          (has_key dpid sid)
          (update_rows (is_pending_row dpid sid) (failed_row now) t.submissions)
        ≡ some (if pending row then failed_row now row else row)
    after = found_after t c dpid sid row found pending (failed_row now) (λ s. refl)

    row' : SubmissionRow
    row' = if pending row then failed_row now row else row
