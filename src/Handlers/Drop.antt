-- ===== src/Handlers/Drop.antt =====
-- internal/httpapi/drop.go: an upload to a drop point, and internal/httpapi/drop_metadata.go. What
-- mime.ParseMediaType and mime/multipart make of the request is a parameter: the boundary, and, for a
-- limit on the body, the parts up to the end or an error. Logging is left out.
use drop_point.Base.{
  ℕ, Bool, false, not, ◌&&◌, ◌||◌, Option, none, some, ℤ, pos, ◌+ℤ◌, ◌-ℤ◌, ltb_ℤ, leb_ℤ, Bytes,
  bytes_eq, codes, is_empty, length, ltb, if◌then◌else◌,
}
use drop_point.Errors.{
  Error, Result, ok, err, drop_token_invalid, drop_point_not_found, drop_point_expired,
  drop_point_closed, drop_point_failed, drop_point_not_open, pending_submission_quota_exceeded,
  pending_bytes_quota_exceeded, submission_already_exists, payload_too_large, envelope_invalid,
  request_too_large, source_read, storage_full, storage_busy, multipart_invalid, invalid_argument,
}
use drop_point.Handlers.{Upload, H, refuse_with}

abbrev pub max_envelope_bytes : ℕ
max_envelope_bytes = 1048576

-- `maxEnvelopeBytes + multipartOverhead`
abbrev pub framing_bytes : ℕ
framing_bytes = 1114112

-- `math.MaxInt64`
abbrev pub max_int64 : ℕ
max_int64 = 9223372036854775807

unfoldable pub drop_request_size_limit : ℤ → Result ℤ
drop_request_size_limit max_payload_bytes =
    if leb_ℤ max_payload_bytes (pos 0)
      || ltb_ℤ (pos max_int64 -ℤ pos framing_bytes) max_payload_bytes
    then err invalid_argument
    else ok (max_payload_bytes +ℤ pos framing_bytes)

-- `blobstore.FailureClass` and `blobstore.ClassifyFailure`
pub data FailureClass : Type 0 where
  internal client_input capacity unavailable : FailureClass

unfoldable pub classify_failure : Error → FailureClass
classify_failure source_read = client_input
classify_failure storage_full = capacity
classify_failure storage_busy = unavailable
classify_failure _ = internal

abbrev pub class_refusal : FailureClass → ℕ × Bytes
class_refusal capacity = (507, codes "storage_full")
class_refusal unavailable = (503, codes "drop_storage_unavailable")
class_refusal _ = (500, codes "drop_storage_failed")

-- The response of `writeStorageFailure`, and below of its like, by the error.
unfoldable pub storage_refusal : Error → ℕ × Bytes
storage_refusal e = class_refusal (classify_failure e)

-- `writeSubmissionStorageFailure`: a limit that is hit while the payload is read is known as such,
-- before `ErrSourceRead`.
unfoldable pub submission_storage_refusal : Error → ℕ × Bytes
submission_storage_refusal payload_too_large = (413, codes "payload_too_large")
submission_storage_refusal request_too_large = (413, codes "payload_too_large")
submission_storage_refusal source_read = (400, codes "drop_multipart_invalid")
submission_storage_refusal e = storage_refusal e

-- `writeMultipartDropError`
unfoldable pub multipart_refusal : Error → ℕ × Bytes
multipart_refusal payload_too_large = (413, codes "payload_too_large")
multipart_refusal request_too_large = (413, codes "payload_too_large")
multipart_refusal envelope_invalid = (400, codes "envelope_invalid")
multipart_refusal _ = (400, codes "drop_multipart_invalid")

-- `writeDropAuthError`
unfoldable pub drop_auth_refusal : Error → ℕ × Bytes
drop_auth_refusal drop_token_invalid = (404, codes "drop_point_not_found")
drop_auth_refusal drop_point_not_found = (404, codes "drop_point_not_found")
drop_auth_refusal drop_point_expired = (410, codes "drop_point_unavailable")
drop_auth_refusal drop_point_closed = (410, codes "drop_point_unavailable")
drop_auth_refusal drop_point_failed = (410, codes "drop_point_unavailable")
drop_auth_refusal pending_submission_quota_exceeded = (429, codes "submission_queue_full")
drop_auth_refusal pending_bytes_quota_exceeded = (429, codes "submission_queue_full")
drop_auth_refusal submission_already_exists = (409, codes "submission_unavailable")
drop_auth_refusal drop_point_not_open = (409, codes "submission_unavailable")
drop_auth_refusal _ = (500, codes "drop_failed")

unfoldable pub write_storage_failure : {A B : Type 0} → Error → H B A
write_storage_failure e = refuse_with (storage_refusal e)

unfoldable pub write_drop_auth_error : {A B : Type 0} → Error → H B A
write_drop_auth_error e = refuse_with (drop_auth_refusal e)

-- A part: its form name, its media type if that can be parsed, its bytes, and the error behind them.
pub record Part : Type 0 where
  pub form_name : Bytes
  pub media_type : Option Bytes
  pub content : Bytes
  pub failure : Option Error

-- What the calls of `NextPart` return.
pub data Parts : Type 0 where
  no_more : Parts
  broken : Error → Parts
  part : Part → Parts → Parts

pub record Request : Type 0 where
  -- the media type and the parameter `boundary` of the content type, empty if there is none
  pub content_type : Option (Bytes × Bytes)
  pub parts : ℤ → Bytes → Parts

abbrev pub boundary_of : Option (Bytes × Bytes) → Result Bytes
boundary_of none = err multipart_invalid
boundary_of (some (media_type, boundary)) =
    if not (bytes_eq media_type (codes "multipart/form-data")) || is_empty boundary
    then err multipart_invalid
    else ok boundary

abbrev pub has_type : Bytes → Option Bytes → Bool
has_type wanted none = false
has_type wanted (some media_type) = bytes_eq media_type wanted

unfoldable pub validate_part : Part → (name content_type : Bytes) → Bool
validate_part p name content_type = bytes_eq p.form_name name && has_type content_type p.media_type

-- One byte more than allowed is read, so an error behind it is not met.
abbrev pub read_within : Bytes → Option Error → Result Bytes
read_within content none =
    if ltb max_envelope_bytes (length content) then err multipart_invalid else ok content
read_within content (some e) =
    if ltb max_envelope_bytes (length content) then err multipart_invalid else err e

unfoldable pub read_envelope_part : Part → Result Bytes
read_envelope_part p = read_within p.content p.failure

-- `multipartPayloadReader`: at the end of the part there must be no other.
abbrev pub behind_part : Option Error → Parts → Option Error
behind_part (some e) rest = some e
behind_part none no_more = none
behind_part none (broken e) = some e
behind_part none (part extra rest) = some multipart_invalid

unfoldable pub multipart_payload_reader : Part → Parts → Upload
multipart_payload_reader p rest = record {
  content = p.content;
  failure = behind_part p.failure rest;
}

abbrev pub payload_part : Bytes → Parts → Result (Bytes × Upload)
payload_part envelope no_more = err multipart_invalid
payload_part envelope (broken e) = err e
payload_part envelope (part p rest) =
    if validate_part p (codes "payload") (codes "application/octet-stream")
    then ok (envelope, multipart_payload_reader p rest)
    else err multipart_invalid

abbrev pub behind_envelope : Parts → Result Bytes → Result (Bytes × Upload)
behind_envelope rest (err e) = err e
behind_envelope rest (ok envelope) = payload_part envelope rest

abbrev pub envelope_part : Parts → Result (Bytes × Upload)
envelope_part no_more = err multipart_invalid
envelope_part (broken e) = err e
envelope_part (part p rest) =
    if validate_part p (codes "envelope") (codes "application/json")
    then behind_envelope rest (read_envelope_part p)
    else err multipart_invalid

abbrev pub parts_within : ℤ → Request → Result Bytes → Result (Bytes × Upload)
parts_within limit r (err e) = err e
parts_within limit r (ok boundary) = envelope_part (r.parts limit boundary)

-- `r.Body` is `http.MaxBytesReader(w, r.Body, limit)`.
unfoldable pub multipart_drop_parts : ℤ → Request → Result (Bytes × Upload)
multipart_drop_parts limit r = parts_within limit r (boundary_of r.content_type)
