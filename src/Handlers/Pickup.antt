-- ===== src/Handlers/Pickup.antt =====
-- internal/httpapi/pickup.go: the download of a submission. The multipart body is the envelope and the
-- payload it is written from; whether the write of it succeeds is an argument.
use drop_point.Base.{Bool, not, ◌||◌, ℤ, Bytes, codes, is_empty, ltb_ℤ, if◌then◌else◌}
use drop_point.Errors.{Result, ok, err, not_exist}
use drop_point.Submission.{SubmissionStatus, Submission, same_status}
use drop_point.Token.{valid_submission_id}
use drop_point.Crypto.Envelope.{Envelope, Decoder, validate_envelope_json}
use drop_point.Store.Queue.{find_submission}
use drop_point.Store.Submissions.{fail_submission, mark_submission_picked_up}
use drop_point.Handlers.{
  BlobStore, H, ◌>>=◌, ◌>>◌, respond, refuse, repository, blob, write_submission_unavailable,
  submission_status_error, authorize_pickup, require_open_drop_point,
}
use drop_point.Handlers.Receiver.{or_unavailable}

-- The two parts of the body, or the headers alone for HEAD.
pub data Delivery : Type 0 where
  headers : Delivery
  body : (envelope payload : Bytes) → Delivery

-- What one request brings: whether it is HEAD, the readings of the clock, and whether the response
-- could be written.
pub record PickupRequest : Type 0 where
  pub drop_point_id : Bytes
  pub submission_id : Bytes
  pub authorization : Bytes
  pub is_head : Bool
  pub now : ℤ
  pub later : ℤ
  pub written : Bool

-- `failCorruptSubmission`; its error is only logged.
unfoldable pub fail_corrupt_submission : {B : Type 0} → (id sid : Bytes) → ℤ → H B (Unit {0})
fail_corrupt_submission id sid now = do failed ← repository (fail_submission id sid now); respond tt

abbrev pub unavailable_payload : {A B : Type 0} → H B A
unavailable_payload = refuse 500 (codes "payload_unavailable")

abbrev pub corrupt : {A B : Type 0} → PickupRequest → H B A
corrupt r = do fail_corrupt_submission r.drop_point_id r.submission_id r.later; unavailable_payload

-- A blob that is missing fails the submission; another error does not.
unfoldable pub read_blob : {A B : Type 0} → PickupRequest → Result A → H B A
read_blob r (ok a) = respond a
read_blob r (err not_exist) = corrupt r
read_blob r (err _) = unavailable_payload

abbrev pub stored_envelope : {B : Type 0} → PickupRequest → Result Envelope → H B (Unit {0})
stored_envelope r (ok e) = respond tt
stored_envelope r (err e) = corrupt r

unfoldable pub same_size : ℤ → ℤ → Bool
same_size a b = not (ltb_ℤ a b || ltb_ℤ b a)

-- The response, and the time of the first pickup, whose error is only logged.
unfoldable pub deliver : {B : Type 0} → PickupRequest → (envelope payload : Bytes) → H B Delivery
deliver r envelope payload =
    if r.is_head
    then respond headers
    else if r.written
    then (do
      marked ← repository (mark_submission_picked_up r.drop_point_id r.submission_id r.later)
      respond (body envelope payload))
    else respond (body envelope payload)

module _ {B : Type 0} (blob_store : BlobStore B) (json : Decoder) where
  unfoldable pub deliver_stored : PickupRequest → Submission → H B Delivery
  deliver_stored r s = do
    (if is_empty s.envelope_path || is_empty s.payload_path then corrupt r else respond tt)
    read ← blob (blob_store.read_envelope s.envelope_path)
    envelope ← read_blob r read
    stored_envelope r (validate_envelope_json json envelope)
    opened ← blob (blob_store.open_payload s.payload_path)
    (payload, size) ← read_blob r opened
    (if same_size size s.encrypted_size then respond tt else corrupt r)
    deliver r envelope payload

  unfoldable pub handle_pickup_submission :
      (sha256 trim : Bytes → Bytes) → PickupRequest → H B Delivery
  handle_pickup_submission sha256 trim r = do
    dp ← authorize_pickup sha256 trim r.now r.drop_point_id r.authorization
    require_open_drop_point dp
    (if valid_submission_id r.submission_id
        then respond tt
        else refuse 404 (codes "submission_not_found"))
    found ← repository (find_submission r.drop_point_id r.submission_id)
    s ← or_unavailable found
    (if same_status s.status SubmissionStatus.ready
        then respond tt
        else write_submission_unavailable (submission_status_error s.status))
    deliver_stored r s
