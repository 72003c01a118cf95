-- ===== src/Handlers/Receiver.antt =====
-- internal/httpapi/receiver.go: status, list, acknowledgement and close.
use drop_point.Base.{ℕ, Option, List, ℤ, Bytes, codes, map, if◌then◌else◌}
use drop_point.Errors.{Result, ok, err, drop_point_expired}
use drop_point.DropPoint.{Status, DropPoint}
use drop_point.Submission.{Submission}
use drop_point.Token.{valid_submission_id}
use drop_point.Store.DropPoints.{close_drop_point}
use drop_point.Store.Submissions.{
  PendingStats, pending_stats, acknowledge_submission, clear_submission_files,
  clear_drop_point_files,
}
use drop_point.Store.Sweep.{list_ready_submissions}
use drop_point.Handlers.{
  BlobStore, H, ◌>>=◌, ◌>>◌, respond, refuse, repository, blob, or_refuse,
  write_submission_unavailable, authorize_pickup, require_open_drop_point,
}

pub record DropPointStatusResponse : Type 0 where
  pub status : Status
  pub display_name : Bytes
  pub expires_at : ℤ
  pub pending_submissions : ℕ
  pub pending_bytes : ℤ
  pub max_pending_submissions : ℤ
  pub max_pending_bytes : ℤ

pub record SubmissionSummary : Type 0 where
  pub submission_id : Bytes
  pub encrypted_size : ℤ
  pub dropped_at : Option ℤ
  pub first_picked_up_at : Option ℤ

abbrev pub status_of : DropPoint → PendingStats → DropPointStatusResponse
status_of dp stats = record {
  status = dp.status;
  display_name = dp.display_name;
  expires_at = dp.expires_at;
  pending_submissions = stats.submissions;
  pending_bytes = stats.bytes;
  max_pending_submissions = dp.max_pending_submissions;
  max_pending_bytes = dp.max_pending_bytes;
}

abbrev pub summary_of : Submission → SubmissionSummary
summary_of s = record {
  submission_id = s.id;
  encrypted_size = s.encrypted_size;
  dropped_at = s.dropped_at;
  first_picked_up_at = s.first_picked_up_at;
}

-- `if err := ...; err != nil { writeSubmissionUnavailable(w, err); return }`
unfoldable pub or_unavailable : {A B : Type 0} → Result A → H B A
or_unavailable (ok a) = respond a
or_unavailable (err e) = write_submission_unavailable e

-- The status that the rest of `HandleCloseDropPoint` goes by, after the close of an open drop point.
unfoldable pub after_close : {B : Type 0} → Result (Unit {0}) → H B Status
after_close (ok done) = respond Status.opened
after_close (err drop_point_expired) = respond Status.expired
after_close (err _) = refuse 500 (codes "drop_point_close_failed")

unfoldable pub answer_close : {B : Type 0} → Status → H B (Unit {0})
answer_close Status.expired = refuse 410 (codes "drop_point_unavailable")
answer_close Status.failed = refuse 410 (codes "drop_point_unavailable")
answer_close _ = respond tt

module _ {B : Type 0} (blob_store : BlobStore B) (sha256 trim : Bytes → Bytes) where
  unfoldable pub handle_get_drop_point_status :
      ℤ → (id authorization : Bytes) → H B DropPointStatusResponse
  handle_get_drop_point_status now id authorization = do
    dp ← authorize_pickup sha256 trim now id authorization
    read ← repository (pending_stats dp.id)
    stats ← or_refuse 500 (codes "drop_point_status_failed") read
    respond (status_of dp stats)

  unfoldable pub handle_list_submissions :
      ℤ → (id authorization : Bytes) → H B (List SubmissionSummary)
  handle_list_submissions now id authorization = do
    dp ← authorize_pickup sha256 trim now id authorization
    require_open_drop_point dp
    listed ← repository (list_ready_submissions dp.id)
    submissions ← or_refuse 500 (codes "submission_list_failed") listed
    respond (map summary_of submissions)

  -- `later` is the second reading of the clock.
  unfoldable pub handle_acknowledge_submission :
      (now later : ℤ) → (id sid authorization : Bytes) → H B (Unit {0})
  handle_acknowledge_submission now later id sid authorization = do
    dp ← authorize_pickup sha256 trim now id authorization
    require_open_drop_point dp
    (if valid_submission_id sid then respond tt else refuse 404 (codes "submission_not_found"))
    acknowledged ← repository (acknowledge_submission dp.id sid later)
    or_unavailable acknowledged
    deleted ← blob (blob_store.delete_submission dp.id sid)
    or_refuse 500 (codes "submission_acknowledge_failed") deleted
    cleared ← repository (clear_submission_files dp.id sid)
    or_refuse 500 (codes "submission_acknowledge_failed") cleared

  -- The error of either part gets the same response.
  unfoldable pub delete_drop_point_blobs : Bytes → H B (Unit {0})
  delete_drop_point_blobs id = do
    deleted ← blob (blob_store.delete_drop_point id)
    or_refuse 500 (codes "drop_point_close_failed") deleted
    cleared ← repository (clear_drop_point_files id)
    or_refuse 500 (codes "drop_point_close_failed") cleared

  unfoldable pub close_by_status : ℤ → Bytes → Status → H B Status
  close_by_status later id Status.opened = do
    closed ← repository (close_drop_point id later)
    after_close closed
  close_by_status later id Status.closed = respond Status.closed
  close_by_status later id Status.expired = respond Status.expired
  close_by_status later id Status.failed = respond Status.failed
  close_by_status later id _ = refuse 409 (codes "drop_point_unavailable")

  unfoldable pub handle_close_drop_point :
      (now later : ℤ) → (id authorization : Bytes) → H B (Unit {0})
  handle_close_drop_point now later id authorization = do
    dp ← authorize_pickup sha256 trim now id authorization
    status ← close_by_status later id dp.status
    delete_drop_point_blobs id
    answer_close status
