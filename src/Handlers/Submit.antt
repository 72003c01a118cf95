-- ===== src/Handlers/Submit.antt =====
-- internal/httpapi/drop.go: `HandleSubmitDrop`, and internal/httpapi/drop_metadata.go.
use drop_point.Base.{ℕ, ℤ, Bytes, codes, is_empty, if◌then◌else◌}
use drop_point.Errors.{
  Error, Result, ok, err, drop_token_invalid, drop_point_expired, drop_point_failed,
  drop_point_closed, drop_point_not_open, pending_bytes_quota_exceeded, submission_already_exists,
  submission_not_found,
}
use drop_point.DropPoint.{DropPoint}
use drop_point.Submission.{SubmissionStatus, Submission, CommitSubmissionResult}
use drop_point.Token.{hash_secret, valid_submission_id}
use drop_point.Crypto.Envelope.{Envelope, Decoder, validate_envelope_json}
use drop_point.Store.DropPoints.{find_open_drop_point_by_drop_token_hash}
use drop_point.Store.Queue.{
  begin_submission, find_submission, commit_submission, delete_receiving_submission,
}
use drop_point.Handlers.{
  Upload, BlobStore, H, ◌>>=◌, ◌>>◌, respond, refuse, refuse_with, repository, blob, or_refuse,
  write_submission_unavailable, submission_status_error,
}
use drop_point.Handlers.Drop.{
  Request, drop_request_size_limit, multipart_drop_parts, write_storage_failure,
  submission_storage_refusal, multipart_refusal, drop_auth_refusal, write_drop_auth_error,
}

pub record SubmitDropResponse : Type 0 where
  pub submission_id : Bytes
  pub status : SubmissionStatus

pub record DropMetadataResponse : Type 0 where
  pub display_name : Bytes
  pub expires_at : ℤ
  pub max_bytes : ℤ
  pub max_pending_submissions : ℤ
  pub max_pending_bytes : ℤ

abbrev pub existing_status : {B : Type 0} → Bytes → SubmissionStatus → H B SubmitDropResponse
existing_status sid SubmissionStatus.ready =
    respond (record { submission_id = sid; status = SubmissionStatus.ready })
existing_status sid SubmissionStatus.acknowledged =
    respond (record { submission_id = sid; status = SubmissionStatus.acknowledged })
existing_status sid SubmissionStatus.receiving = refuse 409 (codes "submission_receiving")
existing_status sid SubmissionStatus.failed = refuse 410 (codes "submission_failed")
existing_status sid _ = refuse 409 (codes "submission_unavailable")

abbrev pub existing_submission : {B : Type 0} → Bytes → Result Submission → H B SubmitDropResponse
existing_submission sid (err e) = write_submission_unavailable e
existing_submission sid (ok s) = existing_status sid s.status

unfoldable pub submit_existing_submission :
    {B : Type 0} → (dpid sid : Bytes) → H B SubmitDropResponse
submit_existing_submission dpid sid = do
  found ← repository (find_submission dpid sid)
  existing_submission sid found

-- The response to an error of the commit; a full queue has the response of `writeDropAuthError`.
unfoldable pub commit_refusal : Error → ℕ × Bytes
commit_refusal pending_bytes_quota_exceeded = (429, codes "submission_queue_full")
commit_refusal e = drop_auth_refusal e

module _ {B : Type 0} (blob_store : BlobStore B) where
  abbrev pub delete_row : Bytes → Bytes → Result (Unit {0}) → H B (Result (Unit {0}))
  delete_row dpid sid (err e) = respond (err e)
  delete_row dpid sid (ok done) = repository (delete_receiving_submission dpid sid)

  unfoldable pub finalize_submission_attempt : (dpid sid : Bytes) → H B (Result (Unit {0}))
  finalize_submission_attempt dpid sid = do
    deleted ← blob (blob_store.delete_submission dpid sid)
    delete_row dpid sid deleted

  -- The closure `fail`; `refusal` is the response to the operation's error.
  abbrev pub unless_unclean : {A : Type 0} → ℕ × Bytes → Result (Unit {0}) → H B A
  unless_unclean refusal (err e) = write_storage_failure e
  unless_unclean refusal (ok done) = refuse_with refusal

  unfoldable pub fail_attempt : {A : Type 0} → (dpid sid : Bytes) → ℕ × Bytes → H B A
  fail_attempt dpid sid refusal = do
    cleaned ← finalize_submission_attempt dpid sid
    unless_unclean refusal cleaned

  -- What the row says after a commit that reported an error.
  abbrev pub verified_status :
      (dpid sid : Bytes) → Error → SubmissionStatus → H B SubmitDropResponse
  verified_status dpid sid commit_error SubmissionStatus.ready =
      respond (record { submission_id = sid; status = SubmissionStatus.ready })
  verified_status dpid sid commit_error SubmissionStatus.acknowledged =
      respond (record { submission_id = sid; status = SubmissionStatus.acknowledged })
  verified_status dpid sid commit_error SubmissionStatus.receiving =
      fail_attempt dpid sid (commit_refusal commit_error)
  verified_status dpid sid commit_error status =
      write_submission_unavailable (submission_status_error status)

  abbrev pub verified : (dpid sid : Bytes) → Error → Result Submission → H B SubmitDropResponse
  verified dpid sid commit_error (ok s) = verified_status dpid sid commit_error s.status
  verified dpid sid commit_error (err submission_not_found) =
      fail_attempt dpid sid (commit_refusal commit_error)
  verified dpid sid commit_error (err e) = write_storage_failure e

  unfoldable pub after_commit : (dpid sid : Bytes) → Result (Unit {0}) → H B SubmitDropResponse
  after_commit dpid sid (ok done) =
      respond (record { submission_id = sid; status = SubmissionStatus.ready })
  after_commit dpid sid (err e) = do
    existing ← repository (find_submission dpid sid)
    verified dpid sid e existing

  unfoldable pub after_write :
      ℤ → (dpid sid : Bytes) → Result CommitSubmissionResult → H B SubmitDropResponse
  after_write later dpid sid (err e) = fail_attempt dpid sid (submission_storage_refusal e)
  after_write later dpid sid (ok stored) = do
    committed ← repository (commit_submission dpid sid stored later)
    after_commit dpid sid committed

  abbrev pub store_valid :
      ℤ → DropPoint → (sid envelope : Bytes) → Upload → Result Envelope → H B SubmitDropResponse
  store_valid later dp sid envelope payload (err e) = fail_attempt dp.id sid (multipart_refusal e)
  store_valid later dp sid envelope payload (ok e) = do
    stored ← blob (blob_store.write_submission dp.id sid envelope payload dp.max_bytes)
    after_write later dp.id sid stored

  unfoldable pub store_parts :
      Decoder → ℤ → DropPoint → Bytes → Result (Bytes × Upload) → H B SubmitDropResponse
  store_parts json later dp sid (err e) = fail_attempt dp.id sid (multipart_refusal e)
  store_parts json later dp sid (ok (envelope, payload)) =
      store_valid later dp sid envelope payload (validate_envelope_json json envelope)

  unfoldable pub after_begin :
      Decoder → ℤ → DropPoint → Bytes → ℤ → Request → Result (Unit {0}) → H B SubmitDropResponse
  after_begin json later dp sid limit r (ok done) =
      store_parts json later dp sid (multipart_drop_parts limit r)
  after_begin json later dp sid limit r (err submission_already_exists) =
      submit_existing_submission dp.id sid
  after_begin json later dp sid limit r (err e) = write_drop_auth_error e

  abbrev pub open_drop_point : Result DropPoint → H B DropPoint
  open_drop_point (ok dp) = respond dp
  open_drop_point (err e) = write_drop_auth_error e

  -- `later` is the second reading of the clock, for the commit.
  unfoldable pub handle_submit_drop :
      (Bytes → Bytes)
      → Decoder
      → (now later : ℤ) → (drop_token sid : Bytes) → Request
      → H B SubmitDropResponse
  handle_submit_drop sha256 json now later drop_token sid r = do
    (if valid_submission_id sid then respond tt else refuse 404 (codes "submission_not_found"))
    found ← repository (find_open_drop_point_by_drop_token_hash (hash_secret sha256 drop_token) now)
    dp ← open_drop_point found
    limit ← or_refuse 500 (codes "drop_storage_failed") (drop_request_size_limit dp.max_bytes)
    begun ← repository (begin_submission dp.id sid now)
    after_begin json later dp sid limit r begun

unfoldable pub metadata_found : {B : Type 0} → Result DropPoint → H B DropPoint
metadata_found (ok dp) = respond dp
metadata_found (err drop_token_invalid) = refuse 404 (codes "drop_point_not_found")
metadata_found (err drop_point_expired) = refuse 410 (codes "drop_point_expired")
metadata_found (err drop_point_failed) = refuse 410 (codes "drop_point_failed")
metadata_found (err drop_point_closed) = refuse 409 (codes "drop_point_unavailable")
metadata_found (err drop_point_not_open) = refuse 409 (codes "drop_point_unavailable")
metadata_found (err _) = refuse 500 (codes "drop_point_lookup_failed")

abbrev pub metadata_of : DropPoint → DropMetadataResponse
metadata_of dp = record {
  display_name = dp.display_name;
  expires_at = dp.expires_at;
  max_bytes = dp.max_bytes;
  max_pending_submissions = dp.max_pending_submissions;
  max_pending_bytes = dp.max_pending_bytes;
}

unfoldable pub handle_get_drop_metadata :
    {B : Type 0} → (Bytes → Bytes) → ℤ → Bytes → H B DropMetadataResponse
handle_get_drop_metadata sha256 now drop_token =
    if is_empty drop_token then refuse 404 (codes "drop_point_not_found") else do
      found ←
          repository (find_open_drop_point_by_drop_token_hash (hash_secret sha256 drop_token) now)
      dp ← metadata_found found
      respond (metadata_of dp)
