-- ===== src/Handlers/Uploads.antt =====
-- `HandleSubmitDrop`: what a successful answer to an upload says of the database.
use drop_point.Base.{ℕ, ◌≡◌, none, ℤ, Bytes}
use drop_point.Errors.{Error}
use drop_point.DropPoint.{DropPoint, require_open}
use drop_point.Submission.{SubmissionStatus, Submission}
use drop_point.Token.{hash_secret}
use drop_point.Store.Rows.{Tables}
use drop_point.Crypto.Envelope.{Envelope}
use drop_point.Store.DropPoints.{has_drop_token_hash}
use drop_point.Store.Outcome.Access.{Recorded}
use drop_point.Store.Outcome.Status.{Stands}
use drop_point.Handlers.{Server, refuse_with, submission_refusal, write_submission_unavailable}
use drop_point.Handlers.Submit.{SubmitDropResponse}
use drop_point.Handlers.Hoare.{Answers, Answers-refuse}

abbrev IsStored : SubmissionStatus → Type 0
IsStored SubmissionStatus.ready = Unit
IsStored SubmissionStatus.acknowledged = Unit
IsStored _ = ⊥

-- The drop point that the tables record under the presented token's hash, and it accepts work.
abbrev pub Opened : (Bytes → Bytes) → ℤ → Bytes → Tables → DropPoint → Type 0
Opened sha256 now drop_token t dp =
    Recorded (has_drop_token_hash (hash_secret sha256 drop_token)) t dp
    × (require_open dp now ≡ none)
    × (dp.drop_token_hash ≡ hash_secret sha256 drop_token)

module _ {B : Type 0} where
  abbrev Always : Server B → Type 0
  Always s = Unit {0}

  refuse_with-Answers :
      {A : Type 0} {P : Server B → Type 0} {Q : A → Server B → Type 0} (r : ℕ × Bytes)
      → Answers P (refuse_with r) Q
  refuse_with-Answers r = Answers-refuse r.0 r.1

  pub write_submission_unavailable-Answers :
      {A : Type 0} {P : Server B → Type 0} {Q : A → Server B → Type 0} (e : Error)
      → Answers P (write_submission_unavailable e) Q
  unfolding write_submission_unavailable
  write_submission_unavailable-Answers e = refuse_with-Answers (submission_refusal e)

  -- A row for the submission stands in the database with the status that is answered, and that status
  -- is one of a submission stored for good.
  abbrev pub StoredAs : Bytes → Bytes → SubmitDropResponse → Server B → Type 0
  StoredAs dpid sid r s =
      (r.submission_id ≡ sid) × IsStored r.status × Stands dpid sid r.status s.conn.tables
