-- ===== src/Submission.antt =====
-- internal/droppoint/droppoint.go: the child resource, its states and its transitions.
pub mod Lifecycle
mod Tests
use drop_point.Base.{
  ℕ, Bool, true, false, ◌&&◌, ◌||◌, not, Option, none, some, [], ℤ, pos, ltb_ℤ, leb_ℤ, Bytes,
  bytes_eq, is_blank, is_empty, if◌then◌else◌,
}
use drop_point.Errors.{
  Error, Result, ok, err, submission_not_ready, submission_failed, invalid_submission,
  invalid_transition,
}
use drop_point.DropPoint.{DropPoint, require_open}

pub data SubmissionStatus : Type 0 where
  receiving ready acknowledged failed : SubmissionStatus
  other : Bytes → SubmissionStatus

unfoldable pub same_status : SubmissionStatus → SubmissionStatus → Bool
same_status receiving receiving = true
same_status ready ready = true
same_status acknowledged acknowledged = true
same_status failed failed = true
same_status (other s) (other t) = bytes_eq s t
same_status _ _ = false

pub record Submission : Type 0 where
  pub id : Bytes
  pub drop_point_id : Bytes
  pub status : SubmissionStatus
  pub envelope_path : Bytes
  pub payload_path : Bytes
  pub encrypted_size : ℤ
  pub created_at : ℤ
  pub receiving_started_at : ℤ
  pub dropped_at : Option ℤ
  pub first_picked_up_at : Option ℤ
  pub acknowledged_at : Option ℤ
  pub failed_at : Option ℤ

pub record CommitSubmissionResult : Type 0 where
  pub envelope_path : Bytes
  pub payload_path : Bytes
  pub encrypted_size : ℤ

-- The submission that the end of `NewSubmission` builds.
fresh : DropPoint → Bytes → ℤ → Submission
fresh dp id now = record {
  id = id;
  drop_point_id = dp.id;
  status = receiving;
  envelope_path = [];
  payload_path = [];
  encrypted_size = pos 0;
  created_at = now;
  receiving_started_at = now;
  dropped_at = none;
  first_picked_up_at = none;
  acknowledged_at = none;
  failed_at = none;
}

-- `if err := RequireOpen(...); err != nil`.
unless_closed : Option Error → Submission → Result Submission
unless_closed none s = ok s
unless_closed (some e) s = err e

unfoldable pub new_submission : DropPoint → Bytes → ℤ → Result Submission
unfolding fresh unless_closed
new_submission dp id now =
    if is_blank id
    then err invalid_submission
    else unless_closed (require_open dp now) (fresh dp id now)

abbrev pub is_incomplete : CommitSubmissionResult → Bool
is_incomplete result =
    is_empty result.envelope_path
    || (is_empty result.payload_path || ltb_ℤ result.encrypted_size (pos 0))

unfoldable pub commit : Submission → CommitSubmissionResult → ℤ → Submission × Option Error
unfolding same_status
commit s result now =
    if not (same_status s.status receiving) || is_incomplete result
    then (s, some invalid_transition)
    else (
      record s {
        status = ready;
        envelope_path = result.envelope_path;
        payload_path = result.payload_path;
        encrypted_size = result.encrypted_size;
        dropped_at = some now;
      },
      none,
    )

-- A timestamp is written once.
abbrev pub first_time : Option ℤ → ℤ → Option ℤ
first_time none now = some now
first_time (some t) now = some t

pick_up_status : SubmissionStatus → Submission → ℤ → Submission × Option Error
pick_up_status ready s now =
    (record s { first_picked_up_at = first_time s.first_picked_up_at now }, none)
pick_up_status acknowledged s now =
    (record s { first_picked_up_at = first_time s.first_picked_up_at now }, none)
pick_up_status failed s now = (s, some submission_failed)
pick_up_status _ s now = (s, some submission_not_ready)

unfoldable pub mark_picked_up : Submission → ℤ → Submission × Option Error
unfolding pick_up_status
mark_picked_up s now = pick_up_status s.status s now

acknowledge_status : SubmissionStatus → Submission → ℤ → Submission × Option Error
acknowledge_status acknowledged s now = (s, none)
acknowledge_status ready s now =
    (record s { status = acknowledged; acknowledged_at = some now }, none)
acknowledge_status failed s now = (s, some submission_failed)
acknowledge_status _ s now = (s, some submission_not_ready)

unfoldable pub acknowledge : Submission → ℤ → Submission × Option Error
unfolding acknowledge_status
acknowledge s now = acknowledge_status s.status s now

unfoldable pub fail : Submission → ℤ → Submission
unfolding same_status
fail s now =
    if same_status s.status failed then s else record s { status = failed; failed_at = some now }
