-- ===== src/Handlers/Downloads.antt =====
-- `HandlePickupSubmission`: what is delivered.
use drop_point.Base.{◌≡◌, refl, subst, Bool, true, false, ◌||◌, ℤ, Bytes, is_empty, if◌then◌else◌}
use drop_point.Errors.{Result, ok, err, not_exist}
use drop_point.DropPoint.{DropPoint}
use drop_point.Submission.{SubmissionStatus, Submission, same_status}
use drop_point.Token.{valid_submission_id}
use drop_point.Crypto.Envelope.{Envelope, Decoder, validate_envelope_json}
use drop_point.Api.{accepted}
use drop_point.Store.Rows.{Tables}
use drop_point.Store.Sql.Hoare.{Post}
use drop_point.Store.Refinement.Submissions.{Stores}
use drop_point.Store.Outcome.Status.{
  Stands, find_submission-Stores, Stores-Stands, mark_submission_picked_up-Stands, same_status→eq,
}
use drop_point.Handlers.{
  BlobStore, Server, respond, blob, write_submission_unavailable, submission_status_error,
  require_open_drop_point,
}
use drop_point.Handlers.Pickup.{
  Delivery, headers, body, PickupRequest, corrupt, read_blob, stored_envelope, same_size, deliver,
  deliver_stored, handle_pickup_submission,
}
use drop_point.Handlers.Access.{Serves, Let, Let-Serves, authorize_pickup-Let}
use drop_point.Handlers.Uploads.{write_submission_unavailable-Answers}
use drop_point.Handlers.Outcome.{require_open-opened, or_unavailable-ok}
use drop_point.Handlers.Hoare.{
  Answers, Answers-respond, Answers-refuse, Answers-if, Answers-bind, Answers-weaken, Answers-any,
  Answers-know, Answers-repository, answered, tested,
}

module _ {B : Type 0} (blob_store : BlobStore B) (json : Decoder) where
  -- What the blob store returned for the paths of the row: an envelope that is valid, and a payload of
  -- the recorded size. A request for the headers reads both too.
  abbrev pub FromBlobs : Submission → Bytes → Bytes → Type 0
  FromBlobs s envelope payload =
      ((b : B) × ((blob_store.read_envelope s.envelope_path b).0 ≡ ok envelope))
      × ((e : Envelope) × (validate_envelope_json json envelope ≡ ok e))
      × ((b : B) × (size : ℤ) × ((blob_store.open_payload s.payload_path b).0 ≡ ok (payload, size))
          × (same_size size s.encrypted_size ≡ true))

  abbrev pub Delivers : Submission → Delivery → Type 0
  Delivers s headers = (envelope : Bytes) × (payload : Bytes) × FromBlobs s envelope payload
  Delivers s (body envelope payload) = FromBlobs s envelope payload

module _ {B : Type 0} (blob_store : BlobStore B) (json : Decoder) (r : PickupRequest) where
  -- The row stays ready.
  abbrev Ready : Server B → Type 0
  Ready s = Stands r.drop_point_id r.submission_id SubmissionStatus.ready s.conn.tables

  corrupt-Answers :
      {A : Type 0} {P : Server B → Type 0} {Q : A → Server B → Type 0} → Answers P (corrupt r) Q
  corrupt-Answers = Answers-bind (λ _ _. Unit {0}) (Answers-any _) (λ _. Answers-refuse _ _)

  read_blob-Answers :
      {A : Type 0} (P : Result A → Server B → Type 0) (x : Result A)
      → Answers (P x) (read_blob r x) (λ a s. P (ok a) s)
  unfolding read_blob
  read_blob-Answers P (ok a) = Answers-respond a (λ s p. p)
  read_blob-Answers P (err not_exist) = corrupt-Answers
  read_blob-Answers P (err e) = Answers-refuse _ _

  or_corrupt :
      (b : Bool) {P : Server B → Type 0}
      → Answers P (if b then respond tt else corrupt r) (λ _ s. P s × (b ≡ true))
  or_corrupt true = Answers-respond tt (λ s p. (p, refl))
  or_corrupt false = corrupt-Answers

  deliver-Answers :
      (s : Submission) (envelope payload : Bytes)
      → FromBlobs blob_store json s envelope payload
      → Answers Ready (deliver r envelope payload) (λ d x. Delivers blob_store json s d × Ready x)
  unfolding deliver
  deliver-Answers s envelope payload from =
      Answers-if r.is_head (λ _. Answers-respond headers (λ x p. ((envelope, payload, from), p)))
        (λ _.
          Answers-if r.written
            (λ _.
              Answers-bind _
                (Answers-repository _ _ _ (
                  mark_submission_picked_up-Stands r.drop_point_id r.submission_id r.later
                    SubmissionStatus.ready))
                marked)
            (λ _. Answers-respond (body envelope payload) (λ x p. (from, p))))
    where
      marked :
          (m : Result (Unit {0}))
          → Answers
              (λ x.
                Post
                  (λ _. Stands r.drop_point_id r.submission_id SubmissionStatus.ready)
                  (Stands r.drop_point_id r.submission_id SubmissionStatus.ready)
                  m
                  x.conn.tables)
              (respond (body envelope payload))
              (λ d x. Delivers blob_store json s d × Ready x)
      marked (ok done) = Answers-respond _ (λ x p. (from, p))
      marked (err e) = Answers-respond _ (λ x p. (from, p))

  -- The facts of a chain of reads that no server's state bears on.
  Yields : (A : Type 0) → (B → Result A × B) → Result A → Type 0
  Yields A f x = (b : B) × ((f b).0 ≡ x)

  blob-Yields :
      {A : Type 0} (f : B → Result A × B) → Answers Ready (blob f) (λ x s. Yields A f x × Ready s)
  unfolding blob Yields
  blob-Yields f = record { holds = λ s p. ((s.blobs, refl), p) }

  deliver_stored-Answers :
      (s : Submission)
      → Answers Ready
          (deliver_stored blob_store json r s)
          (λ d x. Delivers blob_store json s d × Ready x)
  unfolding deliver_stored Yields
  deliver_stored-Answers s =
      Answers-bind (λ _. Ready) present
        λ _. Answers-bind _ (blob-Yields (blob_store.read_envelope s.envelope_path)) λ read.
          Answers-bind
            (λ envelope x.
              Yields Bytes (blob_store.read_envelope s.envelope_path) (ok envelope) × Ready x)
            (read_blob-Answers
              (λ y x. Yields Bytes (blob_store.read_envelope s.envelope_path) y × Ready x) read)
            λ envelope. Answers-know λ from.
              Answers-bind _ (valid (validate_envelope_json json envelope)) λ _.
                Answers-know λ checked.
                  Answers-bind _ (blob-Yields (blob_store.open_payload s.payload_path)) λ opened.
                    Answers-bind
                      (λ p x.
                        Yields (Bytes × ℤ) (blob_store.open_payload s.payload_path) (ok p)
                        × Ready x)
                      (read_blob-Answers
                        (λ y x.
                          Yields (Bytes × ℤ) (blob_store.open_payload s.payload_path) y × Ready x)
                        opened)
                      λ p. Answers-know λ stored.
                        Answers-bind _ (or_corrupt (same_size p.1 s.encrypted_size) {P = Ready})
                          λ _.
                            Answers-weaken (λ x q. (q.1, q.0)) (λ _ x q. q)
                              (Answers-know λ same.
                                deliver-Answers s envelope p.0
                                  (from, checked, (stored.0, p.1, stored.1, same)))
    where
      valid :
          (x : Result Envelope)
          → Answers Ready (stored_envelope r x) (λ _ y. ((e : Envelope) × (x ≡ ok e)) × Ready y)
      valid (ok e) = Answers-respond tt (λ y p. ((e, refl), p))
      valid (err e) = corrupt-Answers

      present :
          Answers Ready
            (if is_empty s.envelope_path || is_empty s.payload_path then corrupt r else respond tt)
            (λ _. Ready)
      present =
          Answers-if (is_empty s.envelope_path || is_empty s.payload_path) (λ _. corrupt-Answers)
            (λ _. Answers-respond tt (λ x p. p))

  -- The submission that the tables record under the key, looked up as ready.
  abbrev pub IsReady : Tables → Submission → Type 0
  IsReady t s = Stores t r.drop_point_id r.submission_id s × (s.status ≡ SubmissionStatus.ready)

  pickup-triple :
      (sha256 trim : Bytes → Bytes) (t : Tables)
      → Answers
          (λ s. s.conn.tables ≡ t)
          (handle_pickup_submission blob_store json sha256 trim r)
          (λ d x.
            ((dp : DropPoint) × Serves sha256 trim r.now r.drop_point_id r.authorization t dp)
            × ((s : Submission) × IsReady t s × Delivers blob_store json s d)
            × Ready x)
  unfolding handle_pickup_submission require_open_drop_point
  pickup-triple sha256 trim t =
      Answers-bind _ (authorize_pickup-Let sha256 trim r.now r.drop_point_id r.authorization t)
        λ dp.
          Answers-bind _
            (require_open-opened dp.status
              {P = Let sha256 trim r.now r.drop_point_id r.authorization t dp})
            λ _. Answers-bind _ (tested (valid_submission_id r.submission_id) 404 _) λ _.
              Answers-weaken
                (λ x p.
                  Let-Serves sha256 trim r.now r.drop_point_id r.authorization t dp x p.0.0 p.0.1)
                (λ _ x q. q)
                (Answers-know λ owner.
                  Answers-bind _
                    (Answers-repository (λ u. u ≡ t) (λ u. u ≡ t) _
                      (find_submission-Stores r.drop_point_id r.submission_id))
                    λ found.
                      Answers-bind _
                        (or_unavailable-ok
                          (λ y x.
                            Post (λ s u. (u ≡ t) × Stores u r.drop_point_id r.submission_id s)
                              (λ u. u ≡ t) y x.conn.tables)
                          found)
                        λ s. Answers-bind _ (ready_only s) λ _. Answers-know λ ready.
                          Answers-weaken (λ x p. p) (λ d x q. ((dp, owner), (s, ready, q.0), q.1))
                            (deliver_stored-Answers s))
    where
      ready_only :
          (s : Submission)
          → Answers
              (λ x. (x.conn.tables ≡ t) × Stores x.conn.tables r.drop_point_id r.submission_id s)
              (if same_status s.status SubmissionStatus.ready
                then respond tt
                else write_submission_unavailable (submission_status_error s.status))
              (λ _ x. IsReady t s × Ready x)
      ready_only s =
          Answers-if (same_status s.status SubmissionStatus.ready)
            (λ same.
              let is_ready = same_status→eq s.status SubmissionStatus.ready same in
              Answers-respond tt (λ x p. (
                (subst (λ u. Stores u r.drop_point_id r.submission_id s) p.0 p.1, is_ready),
                subst (λ y. Stands r.drop_point_id r.submission_id y x.conn.tables) is_ready
                    (Stores-Stands r.drop_point_id r.submission_id s x.conn.tables p.1),
              )))
            (λ _. write_submission_unavailable-Answers _)

-- Whatever calls of the driver fail and whatever the blob store does: a download that is answered was
-- asked for with the pickup token of the drop point that the database recorded under the identifier
-- when the request came in, which was open and past no deadline. The submission that the database
-- then recorded under the key was ready, and its row is ready afterwards. An envelope that is
-- valid and a payload of the size in that row were returned by the blob store for the paths in that
-- row, and a body holds these two.
pub handle_pickup_submission-Delivers :
    {B : Type 0} (blob_store : BlobStore B) (json : Decoder) (sha256 trim : Bytes → Bytes)
    (r : PickupRequest) (s : Server B) (d : Delivery)
    → (handle_pickup_submission blob_store json sha256 trim r s).0 ≡ accepted d
    → ((dp : DropPoint) × Serves sha256 trim r.now r.drop_point_id r.authorization s.conn.tables dp)
      × ((sub : Submission) × (Stores s.conn.tables r.drop_point_id r.submission_id sub
            × (sub.status ≡ SubmissionStatus.ready))
          × Delivers blob_store json sub d)
      × Stands r.drop_point_id r.submission_id SubmissionStatus.ready
          (handle_pickup_submission blob_store json sha256 trim r s).1.conn.tables
handle_pickup_submission-Delivers blob_store json sha256 trim r s d h =
    answered (pickup-triple blob_store json r sha256 trim s.conn.tables) s d refl h
