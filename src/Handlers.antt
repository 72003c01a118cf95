-- ===== src/Handlers.antt =====
-- internal/httpapi: the handlers of uploads, pickups and the receiver. A handler runs on the database
-- connection and the state of the blob store, and its response is the one of Api: a status with an
-- error code, or the value that the body shows. `Repository` and `BlobStore` are not nil here, and the
-- contexts do not end; `deps.Now()` and what a request holds are arguments.
pub mod Receiver
pub mod Drop
pub mod Submit
pub mod Pickup
pub mod Hoare
pub mod Uploads
pub mod Access
pub mod Outcome
pub mod Downloads
mod Tests
use drop_point.Base.{
  ℕ, Bool, true, false, not, Option, none, some, List, [], ◌∷◌, ℤ, Bytes, codes, is_empty,
  if◌then◌else◌,
}
use drop_point.Errors.{
  Error, Result, ok, err, submission_not_found, submission_acknowledged, submission_failed,
  submission_not_ready, drop_point_not_found, pickup_token_invalid,
}
use drop_point.DropPoint.{Status, DropPoint}
use drop_point.Submission.{SubmissionStatus, CommitSubmissionResult}
use drop_point.Token.{hash_secret}
use drop_point.Api.{Reply, refused, accepted, bearer_token}
use drop_point.Store.Sql.{Conn, M}
use drop_point.Store.DropPoints.{authorize_pickup_token}

-- What is left of an upload to be read: its bytes, and the error behind them, `none` being its end.
pub record Upload : Type 0 where
  pub content : Bytes
  pub failure : Option Error

-- `interface BlobStore`, each method on the state `B` of the files; an opened payload is its contents.
pub record BlobStore (B : Type 0) : Type 0 where
  pub write_submission :
      (drop_point_id submission_id envelope : Bytes)
      → Upload
      → ℤ
      → B
      → Result CommitSubmissionResult × B
  pub read_envelope : Bytes → B → Result Bytes × B
  pub open_payload : Bytes → B → Result (Bytes × ℤ) × B
  pub delete_submission : (drop_point_id submission_id : Bytes) → B → Result (Unit {0}) × B
  pub delete_drop_point : Bytes → B → Result (Unit {0}) × B

pub record Server (B : Type 0) : Type 0 where
  pub conn : Conn
  pub blobs : B

abbrev pub H : Type 0 → Type 0 → Type 0
H B A = Server B → Reply A × Server B

resume : {A C B : Type 0} → Reply A × Server B → (A → H B C) → Reply C × Server B
resume (accepted a, s) f = f a s
resume (refused status code, s) f = (refused status code, s)

infixl 5 ◌>>=◌ ◌>>◌
unfoldable pub ◌>>=◌ : {A C B : Type 0} → H B A → (A → H B C) → H B C
unfolding resume
◌>>=◌ m f s = resume (m s) f

abbrev pub ◌>>◌ : {C B : Type 0} → H B (Unit {0}) → H B C → H B C
m >> k = m >>= λ _. k

unfoldable pub respond : {A B : Type 0} → A → H B A
respond a s = (accepted a, s)

-- `writeError`
unfoldable pub refuse : {A B : Type 0} → ℕ → Bytes → H B A
refuse status code s = (refused status code, s)

abbrev pub refuse_with : {A B : Type 0} → ℕ × Bytes → H B A
refuse_with (status, code) = refuse status code

-- A method of `Repository` or of the blob store: its error is a value.
unfoldable pub repository : {A B : Type 0} → M A → H B (Result A)
repository m s = (accepted (m s.conn).0, record s { conn = (m s.conn).1 })

unfoldable pub blob : {A B : Type 0} → (B → Result A × B) → H B (Result A)
blob f s = (accepted (f s.blobs).0, record s { blobs = (f s.blobs).1 })

-- `if err != nil { writeError(...); return }`
unfoldable pub or_refuse : {A B : Type 0} → ℕ → Bytes → Result A → H B A
or_refuse status code (ok a) = respond a
or_refuse status code (err e) = refuse status code

-- The response of `writeSubmissionUnavailable`.
unfoldable pub submission_refusal : Error → ℕ × Bytes
submission_refusal submission_not_found = (404, codes "submission_not_found")
submission_refusal submission_acknowledged = (410, codes "submission_acknowledged")
submission_refusal submission_failed = (410, codes "submission_failed")
submission_refusal submission_not_ready = (409, codes "submission_not_ready")
submission_refusal _ = (500, codes "submission_failed")

unfoldable pub write_submission_unavailable : {A B : Type 0} → Error → H B A
write_submission_unavailable e = refuse_with (submission_refusal e)

-- `submissionStatusError`
unfoldable pub submission_status_error : SubmissionStatus → Error
submission_status_error SubmissionStatus.acknowledged = submission_acknowledged
submission_status_error SubmissionStatus.failed = submission_failed
submission_status_error _ = submission_not_ready

unfoldable pub pickup_refusal : Error → ℕ × Bytes
pickup_refusal drop_point_not_found = (404, codes "drop_point_not_found")
pickup_refusal pickup_token_invalid = (404, codes "drop_point_not_found")
pickup_refusal _ = (500, codes "drop_point_lookup_failed")

unfoldable pub pickup_found : {B : Type 0} → Result DropPoint → H B DropPoint
pickup_found (ok dp) = respond dp
pickup_found (err e) = refuse_with (pickup_refusal e)

abbrev pub authorize_bearer :
    {B : Type 0} → (Bytes → Bytes) → ℤ → Bytes → Option Bytes → H B DropPoint
authorize_bearer sha256 now id none = refuse 401 (codes "pickup_token_invalid")
authorize_bearer sha256 now id (some pickup_token) = do
  found ← repository (authorize_pickup_token id (hash_secret sha256 pickup_token) now)
  pickup_found found

unfoldable pub authorize_pickup :
    {B : Type 0} → (sha256 trim : Bytes → Bytes) → ℤ → (id authorization : Bytes) → H B DropPoint
authorize_pickup sha256 trim now id authorization =
    if is_empty id
    then refuse 404 (codes "drop_point_not_found")
    else authorize_bearer sha256 now id (bearer_token trim authorization)

abbrev pub require_open_status : {B : Type 0} → Status → H B (Unit {0})
require_open_status Status.opened = respond tt
require_open_status Status.closed = refuse 410 (codes "drop_point_unavailable")
require_open_status Status.expired = refuse 410 (codes "drop_point_unavailable")
require_open_status Status.failed = refuse 410 (codes "drop_point_unavailable")
require_open_status _ = refuse 409 (codes "drop_point_unavailable")

unfoldable pub require_open_drop_point : {B : Type 0} → DropPoint → H B (Unit {0})
require_open_drop_point dp = require_open_status dp.status
