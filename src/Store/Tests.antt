-- ===== src/Store/Tests.antt =====
-- The theorems on internal/store at work on a small database.
pub mod Data
mod Outcome
use drop_point.Base.{
  ◌≡◌, ◌≢◌, refl, Bool, true, false, not, none, some, List, [], ◌∷◌, ℤ, pos, neg_part, pos_part,
  ltb_ℤ, leb_ℤ, Bytes, bytes_eq, codes, arith, int_laws, ltb, if◌then◌else◌, ◌==◌, All, ◌⊎◌, ◌≤ℤ◌,
  is_empty,
}
use drop_point.Errors.{
  Error, Result, ok, err, is_ok, pickup_token_invalid, pending_bytes_quota_exceeded,
}
use drop_point.DropPoint.{
  Status, DropPoint, CreateDropPointRequest, require_open, expire, close,
  same_status as same_drop_status, fail as fail_drop,
}
use drop_point.Submission.{
  SubmissionStatus, Submission, same_status, acknowledge, mark_picked_up, commit,
}
use drop_point.Token.{equal_hash, valid_sha256_hash}
use drop_point.Store.Table.{find_row, count_rows, update_rows}
use drop_point.Store.Rows.{
  Tables, no_tables, drop_point_of, submission_of, scan_drop_point, scan_submission,
}
use drop_point.Store.Sql.{healthy, ◌>>=◌, exec, pure, fail}
use drop_point.Store.Queue.{has_key, receiving_row, begin_submission, commit_submission}
use drop_point.Store.DropPoints.{has_id, close_drop_point, fail_drop_point}
use drop_point.Store.Submissions.{
  acknowledge_submission, mark_submission_picked_up, fail_submission,
}
use drop_point.Store.Sweep.{has_files, is_due, expire_drop_points, purge_terminal_drop_points}
use drop_point.Store.Invariant.{IsConsistent}
use drop_point.Store.Invariant.History.{run, Call, run-IsConsistent}
use drop_point.Store.Refinement.{to_result}
use drop_point.Store.Refinement.DropPoints.{Stores, name_state, close_drop_point-refines}
use drop_point.Store.Refinement.Submissions.{
  Stores as StoresSubmission, acknowledge_submission-refines, mark_submission_picked_up-refines,
  fail_submission-refines, fail_unless_acknowledged,
}
use drop_point.Store.Outcome.Begin
use drop_point.Store.Outcome.Commit
use drop_point.Store.Outcome.Begin.{begin_submission_outcome}
use drop_point.Store.Outcome.Commit.{commit_submission_outcome}
use drop_point.Store.Outcome.Sweep.{purge-keeps_open}
use drop_point.Store.Outcome.Expiry.{expire_drop_points-none_due}
use drop_point.Store.Tests.Data.{
  hash_a, point, waiting, stored, two_queued, upload, two_queued-IsConsistent, point_stored,
  waiting_stored, stored_stored,
}

abbrev dpid : Bytes
dpid = 1 ∷ []

abbrev ready_id : Bytes
ready_id = 3 ∷ []

abbrev waiting_id : Bytes
waiting_id = 2 ∷ []

abbrev calls : List Call
calls =
    Call.begins dpid waiting_id (pos 20)
    ∷ Call.commits dpid waiting_id upload (pos 30)
    ∷ Call.closes dpid (pos 40)
    ∷ []

run-IsConsistent_example :
    IsConsistent (run (record { tables = no_tables; faults = false ∷ true ∷ [] }) calls).tables
run-IsConsistent_example = run-IsConsistent (false ∷ true ∷ []) calls

acknowledge_submission-refines_example :
    ((acknowledge_submission dpid ready_id (pos 50) (healthy two_queued)).0
      ≡ to_result (acknowledge (submission_of stored) (pos 50)).1)
    × StoresSubmission
        (acknowledge_submission dpid ready_id (pos 50) (healthy two_queued)).1.tables
        dpid
        ready_id
        (acknowledge (submission_of stored) (pos 50)).0
acknowledge_submission-refines_example =
    acknowledge_submission-refines two_queued dpid ready_id (submission_of stored) (pos 50)
      two_queued-IsConsistent stored_stored (λ h. refl)

mark_submission_picked_up-refines_example :
    ((mark_submission_picked_up dpid ready_id (pos 50) (healthy two_queued)).0
      ≡ to_result (mark_picked_up (submission_of stored) (pos 50)).1)
    × StoresSubmission
        (mark_submission_picked_up dpid ready_id (pos 50) (healthy two_queued)).1.tables
        dpid
        ready_id
        (mark_picked_up (submission_of stored) (pos 50)).0
mark_submission_picked_up-refines_example =
    mark_submission_picked_up-refines two_queued dpid ready_id (submission_of stored) (pos 50)
      two_queued-IsConsistent stored_stored

fail_submission-refines_example :
    ((fail_submission dpid ready_id (pos 50) (healthy two_queued)).0
      ≡ to_result (fail_unless_acknowledged (submission_of stored) (pos 50)).1)
    × StoresSubmission
        (fail_submission dpid ready_id (pos 50) (healthy two_queued)).1.tables
        dpid
        ready_id
        (fail_unless_acknowledged (submission_of stored) (pos 50)).0
fail_submission-refines_example =
    fail_submission-refines two_queued dpid ready_id (submission_of stored) (pos 50)
      two_queued-IsConsistent stored_stored (λ h. refl)

close_drop_point-refines_example :
    ((close_drop_point dpid (pos 50) (healthy two_queued)).0
      ≡ to_result (close (drop_point_of point) (pos 50)).1)
    × Stores
        (close_drop_point dpid (pos 50) (healthy two_queued)).1.tables
        dpid
        (close (drop_point_of point) (pos 50)).0
close_drop_point-refines_example =
    close_drop_point-refines two_queued dpid (drop_point_of point) (pos 50) two_queued-IsConsistent
      point_stored

abbrev fresh_id : Bytes
fresh_id = 4 ∷ []

begin_submission_outcome_example :
    ((begin_submission dpid fresh_id (pos 50) (healthy two_queued)).0
      ≡ Begin.verdict_of two_queued dpid fresh_id (drop_point_of point) (pos 50))
    × ((begin_submission dpid fresh_id (pos 50) (healthy two_queued)).1.tables.submissions ≡ (
        if is_ok (Begin.verdict_of two_queued dpid fresh_id (drop_point_of point) (pos 50))
        then receiving_row dpid fresh_id (pos 50) ∷ two_queued.submissions
        else two_queued.submissions))
unfolding find_row bytes_eq
begin_submission_outcome_example =
    begin_submission_outcome two_queued dpid fresh_id (drop_point_of point) (pos 50)
      two_queued-IsConsistent point_stored (λ old h. absurd (cc h))

commit_submission_outcome_example :
    ((commit_submission dpid waiting_id upload (pos 50) (healthy two_queued)).0
      ≡ Commit.verdict_of two_queued dpid
          (drop_point_of point)
          (submission_of waiting)
          (pos 30)
          (pos 50))
    × StoresSubmission
        (commit_submission dpid waiting_id upload (pos 50) (healthy two_queued)).1.tables
        dpid
        waiting_id
        (if is_ok (
            Commit.verdict_of two_queued dpid
              (drop_point_of point)
              (submission_of waiting)
              (pos 30)
              (pos 50))
          then (commit (submission_of waiting) upload (pos 50)).0
          else submission_of waiting)
unfolding ltb_ℤ
commit_submission_outcome_example =
    commit_submission_outcome two_queued dpid waiting_id (drop_point_of point)
      (submission_of waiting) upload (pos 50) two_queued-IsConsistent point_stored waiting_stored
      refl
