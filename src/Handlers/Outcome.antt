-- ===== src/Handlers/Outcome.antt =====
-- What a successful answer to an acknowledgement and to a download says, and the limit on an upload.
use drop_point.Base.{
  ◌≡◌, ◌↔◌, refl, sym, ap, ℤ, pos, ◌≤ℤ◌, ◌<ℤ◌, ◌-ℤ◌, ◌+ℤ◌, ltb_ℤ, int_laws, ltb_ℤ→lt,
  ltb_ℤ_false→le, Bytes, codes, arith, Bool-cases, inl, inr,
}
use drop_point.Errors.{Result, ok, err, ok-injective}
use drop_point.DropPoint.{Status, DropPoint}
use drop_point.Store.Rows.{Tables}
use drop_point.Submission.{SubmissionStatus}
use drop_point.Token.{valid_submission_id}
use drop_point.Api.{accepted}
use drop_point.Store.Sql.Hoare.{Post}
use drop_point.Store.Submissions.{acknowledge_submission, clear_submission_files}
use drop_point.Store.Outcome.Status.{
  Stands, acknowledge_submission-Stands, clear_submission_files-Stands,
}
use drop_point.Handlers.{
  BlobStore, Server, ◌>>=◌, ◌>>◌, repository, blob, or_refuse, require_open_status,
  require_open_drop_point, write_submission_unavailable,
}
use drop_point.Handlers.Receiver.{or_unavailable, handle_acknowledge_submission}
use drop_point.Handlers.Drop.{drop_request_size_limit, framing_bytes, max_int64}
use drop_point.Handlers.Access.{Serves, Let, Let-Serves, authorize_pickup-Let}
use drop_point.Handlers.Hoare.{
  Answers, Answers-respond, Answers-refuse, Answers-bind, Answers-weaken, Answers-fact,
  Answers-repository, Answers-blob, Answers-or_refuse, answered, tested,
}

module _ {B : Type 0} where
  pub require_open-opened :
      (status : Status) {P : Server B → Type 0}
      → Answers P (require_open_status status) (λ _ s. P s × (status ≡ Status.opened))
  require_open-opened Status.opened = Answers-respond tt (λ s p. (p, refl))
  require_open-opened Status.closed = Answers-refuse _ _
  require_open-opened Status.expired = Answers-refuse _ _
  require_open-opened Status.failed = Answers-refuse _ _
  require_open-opened (Status.other _) = Answers-refuse _ _

  pub or_unavailable-ok :
      {A : Type 0} (P : Result A → Server B → Type 0) (r : Result A)
      → Answers (P r) (or_unavailable r) (λ a s. P (ok a) s)
  unfolding or_unavailable write_submission_unavailable
  or_unavailable-ok P (ok a) = Answers-respond a (λ s p. p)
  or_unavailable-ok P (err e) = Answers-refuse _ _

  module _ (blob_store : BlobStore B) (sha256 trim : Bytes → Bytes) (now later : ℤ)
      (id sid authorization : Bytes) where
    abbrev IsAcknowledged : DropPoint → Server B → Type 0
    IsAcknowledged dp s = Stands dp.id sid SubmissionStatus.acknowledged s.conn.tables

    acknowledge-steps :
        (dp : DropPoint)
        → Answers
            (λ _. Unit {0})
            (do
              acknowledged ← repository (acknowledge_submission dp.id sid later)
              or_unavailable acknowledged
              deleted ← blob (blob_store.delete_submission dp.id sid)
              or_refuse 500 (codes "submission_acknowledge_failed") deleted
              cleared ← repository (clear_submission_files dp.id sid)
              or_refuse 500 (codes "submission_acknowledge_failed") cleared)
            (λ _. IsAcknowledged dp)
    acknowledge-steps dp =
        Answers-bind _
          (Answers-repository (λ _. Unit {0}) (λ _. Unit {0}) _
            (acknowledge_submission-Stands dp.id sid later))
          λ acknowledged.
            Answers-bind (λ _. IsAcknowledged dp)
              (or_unavailable-ok
                (λ r s.
                  Post (λ _. Stands dp.id sid SubmissionStatus.acknowledged) (λ _. Unit {0}) r
                    s.conn.tables)
                acknowledged)
              λ _.
                Answers-bind (λ _. IsAcknowledged dp)
                  (Answers-blob (Stands dp.id sid SubmissionStatus.acknowledged)
                    (blob_store.delete_submission dp.id sid))
                  λ deleted.
                    Answers-bind (λ _. IsAcknowledged dp)
                      (Answers-or_refuse (λ _. IsAcknowledged dp) 500 _ deleted)
                      λ _.
                        Answers-bind _
                          (Answers-repository _ _ _
                            (clear_submission_files-Stands dp.id sid SubmissionStatus.acknowledged))
                          λ cleared.
                            Answers-or_refuse
                              (λ r s.
                                Post (λ _. Stands dp.id sid SubmissionStatus.acknowledged)
                                  (Stands dp.id sid SubmissionStatus.acknowledged) r s.conn.tables)
                              500 _ cleared

    acknowledge-triple :
        (t : Tables)
        → Answers
            (λ s. s.conn.tables ≡ t)
            (handle_acknowledge_submission blob_store sha256 trim now later id sid authorization)
            (λ _ s.
              (dp : DropPoint) × Serves sha256 trim now id authorization t dp × IsAcknowledged dp s)
    unfolding handle_acknowledge_submission require_open_drop_point
    acknowledge-triple t =
        Answers-bind _ (authorize_pickup-Let sha256 trim now id authorization t) λ dp.
          Answers-bind _
            (require_open-opened dp.status {P = Let sha256 trim now id authorization t dp})
            λ _. Answers-bind _ (tested (valid_submission_id sid) 404 _) λ _.
              Answers-weaken
                (λ s p. (Let-Serves sha256 trim now id authorization t dp s p.0.0 p.0.1).0)
                (λ _ s q. (dp, q.0, q.1)) (Answers-fact (λ _. acknowledge-steps dp))

-- Whatever calls of the driver fail and whatever the blob store does: an acknowledgement that is
-- answered with success was made with the pickup token of the drop point that the database recorded
-- under the identifier when the request came in, which was open and past no deadline; and the
-- database has the submission as acknowledged under that drop point afterwards.
pub handle_acknowledge_submission-Stands :
    {B : Type 0} (blob_store : BlobStore B) (sha256 trim : Bytes → Bytes) (now later : ℤ)
    (id sid authorization : Bytes) (s : Server B)
    → (handle_acknowledge_submission blob_store sha256 trim now later id sid authorization s).0
      ≡ accepted tt
    → (dp : DropPoint) × Serves sha256 trim now id authorization s.conn.tables dp
      × Stands dp.id sid SubmissionStatus.acknowledged
          (handle_acknowledge_submission blob_store sha256 trim now later id sid authorization
            s).1.conn.tables
handle_acknowledge_submission-Stands blob_store sha256 trim now later id sid authorization s h =
    answered
      (acknowledge-triple blob_store sha256 trim now later id sid authorization s.conn.tables) s tt
      refl h

-- The limit on the body of an upload is the payload's limit and the framing's allowance; it is given
-- exactly for a positive limit whose sum with the allowance is an `int64`.
pub drop_request_size_limit_bound :
    (max_payload_bytes limit : ℤ)
    → (drop_request_size_limit max_payload_bytes ≡ ok limit) ↔ (
        (pos 0 <ℤ max_payload_bytes)
        × (max_payload_bytes +ℤ pos framing_bytes ≤ℤ pos max_int64)
        × (limit ≡ max_payload_bytes +ℤ pos framing_bytes))
unfolding drop_request_size_limit
drop_request_size_limit_bound m limit = elim (Bool-cases (ltb_ℤ (pos 0) m)) [
  | inr small ↦ (
    λ h. absurd (ground (arith, small, h)),
    λ h. absurd (omega (int_laws, ltb_ℤ_false→le (pos 0) m small, h.0)),
  )
  | inl positive ↦ elim (Bool-cases (ltb_ℤ (pos max_int64 -ℤ pos framing_bytes) m)) [
    | inl large ↦ (
      λ h. absurd (ground (arith, positive, large, h)),
      λ h. absurd (omega (int_laws, ltb_ℤ→lt (pos max_int64 -ℤ pos framing_bytes) m large, h.1)),
    )
    | inr fits ↦ (
      λ h. (
        ltb_ℤ→lt (pos 0) m positive,
        omega (int_laws, ltb_ℤ_false→le (pos max_int64 -ℤ pos framing_bytes) m fits),
        sym (ok-injective (rw (positive, fits) at h)),
      ),
      λ h. rw (positive, fits) (ap ok (sym h.2)),
    )
  ]
]
