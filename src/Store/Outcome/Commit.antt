-- ===== src/Store/Outcome/Commit.antt =====
-- `CommitSubmission`: when it succeeds, what it stores, and that it happens wholly or not at all.
use drop_point.Base.{
  ◌≡◌, ◌≢◌, refl, Bool, true, false, Option, none, some, ℤ, ◌-ℤ◌, Bytes, arith, if◌then◌else◌, ◌⊎◌,
  inl, inr, Bool-cases, not, ◌==◌, Option-cases, ltb_ℤ,
}
use drop_point.Errors.{
  Error, Result, ok, err, is_ok, pending_bytes_quota_exceeded, invalid_argument,
}
use drop_point.DropPoint.{DropPoint, require_open}
use drop_point.Submission.{
  SubmissionStatus, Submission, CommitSubmissionResult, same_status, is_incomplete, commit,
}
use drop_point.Store.Table.{find_row, update_rows, count_rows}
use drop_point.Store.Rows.{SubmissionRow, Tables, scan_submission}
use drop_point.Store.Sql.{Conn, healthy, pure, fail, ◌>>=◌, exec, check, transaction}
use drop_point.Store.Sql.Determined.{
  AllOrNothing, transaction-AllOrNothing, Determined, Determined-exec, Determined-pure,
  Determined-fail, Determined-if, Determined-check, Determined-bind,
}
use drop_point.Store.DropPoints.{select_drop_point}
use drop_point.Store.Queue.{
  has_key, is_receiving, is_receiving_row, ready_row, ready_bytes, set_ready, find_submission,
  commit_steps, commit_submission, submission_unavailable_error,
}
use drop_point.Store.Invariant.{IsConsistent}
use drop_point.Store.Refinement.Lookup.{affected, found_after}
use drop_point.Store.Refinement.DropPoints.{Stores}
use drop_point.Store.Refinement.Submissions.{Stores as StoresSubmission}

module _ (t : Tables) (dpid sid : Bytes) (dp : DropPoint) (s : Submission)
    (result : CommitSubmissionResult) (now : ℤ) (c : IsConsistent t) (parent : Stores t dpid dp)
    (child : StoresSubmission t dpid sid s) where
  abbrev row : SubmissionRow
  row = child.0

  changed :
      count_rows (is_receiving_row dpid sid) t.submissions ≡ (if is_receiving row then 1 else 0)
  changed = affected t c dpid sid row child.1 is_receiving

  after :
      find_row
        (has_key dpid sid)
        (update_rows (is_receiving_row dpid sid) (ready_row result now) t.submissions)
      ≡ some (if is_receiving row then ready_row result now row else row)
  after = found_after t c dpid sid row child.1 is_receiving (ready_row result now) (λ r. refl)

  abbrev out : Result (Unit {0}) × Conn
  out = commit_submission dpid sid result now (healthy t)

  committed :
      require_open dp now ≡ none
      → s.status ≡ SubmissionStatus.receiving
      → is_incomplete result ≡ false
      → ltb_ℤ (dp.max_pending_bytes -ℤ ready_bytes dpid t.submissions) result.encrypted_size ≡ false
      → (out.0 ≡ ok tt) × StoresSubmission out.1.tables dpid sid (commit s result now).0
  unfolding commit_submission commit_steps transaction select_drop_point find_submission set_ready
      check ◌>>=◌ exec pure fail scan_submission same_status commit
  committed open' receiving complete fits = (
    ground (arith, changed, parent.1, parent.2, child.1, child.2),
    (
      ready_row result now row,
      ground (arith, changed, after, parent.1, parent.2, child.1, child.2),
      ground (arith, child.2),
    ),
  )

  over_quota :
      require_open dp now ≡ none
      → s.status ≡ SubmissionStatus.receiving
      → is_incomplete result ≡ false
      → ltb_ℤ (dp.max_pending_bytes -ℤ ready_bytes dpid t.submissions) result.encrypted_size ≡ true
      → out ≡ (err pending_bytes_quota_exceeded, healthy t)
  unfolding commit_submission commit_steps transaction select_drop_point find_submission check ◌>>=◌
      exec pure fail scan_submission same_status
  over_quota open' receiving complete big = ground (arith, parent.1, parent.2, child.1, child.2)

  late :
      (e : Error)
      → require_open dp now ≡ some e
      → is_incomplete result ≡ false
      → out ≡ (err e, healthy t)
  unfolding commit_submission commit_steps transaction select_drop_point check ◌>>=◌ exec pure fail
  late e closed complete = ground (arith, parent.1, parent.2)

  not_receiving :
      require_open dp now ≡ none
      → s.status ≢ SubmissionStatus.receiving
      → is_incomplete result ≡ false
      → out ≡ (err (submission_unavailable_error s.status), healthy t)
  unfolding commit_submission commit_steps transaction select_drop_point find_submission check ◌>>=◌
      exec pure fail scan_submission same_status
  not_receiving open' other complete = ground (arith, parent.1, parent.2, child.1, child.2)

-- What an upload is told: by the drop point's state, by the submission's, and by the bytes left.
abbrev pub verdict : Option Error → SubmissionStatus → Bool → Result (Unit {0})
verdict (some e) status big = err e
verdict none SubmissionStatus.receiving true = err pending_bytes_quota_exceeded
verdict none SubmissionStatus.receiving false = ok tt
verdict none status big = err (submission_unavailable_error status)

abbrev pub verdict_of : Tables → Bytes → DropPoint → Submission → ℤ → ℤ → Result (Unit {0})
verdict_of t dpid dp s size now =
    verdict (require_open dp now) s.status
      (ltb_ℤ (dp.max_pending_bytes -ℤ ready_bytes dpid t.submissions) size)

receiving_or :
    (x : SubmissionStatus) → (x ≡ SubmissionStatus.receiving) ⊎ (x ≢ SubmissionStatus.receiving)
receiving_or SubmissionStatus.receiving = inl refl
receiving_or SubmissionStatus.ready = inr (λ e. cc e)
receiving_or SubmissionStatus.acknowledged = inr (λ e. cc e)
receiving_or SubmissionStatus.failed = inr (λ e. cc e)
receiving_or (SubmissionStatus.other s) = inr (λ e. cc e)

verdict-other :
    (x : SubmissionStatus) (big : Bool)
    → x ≢ SubmissionStatus.receiving
    → verdict none x big ≡ err (submission_unavailable_error x)
verdict-other SubmissionStatus.receiving big h = absurd (h refl)
verdict-other SubmissionStatus.ready big h = refl
verdict-other SubmissionStatus.acknowledged big h = refl
verdict-other SubmissionStatus.failed big h = refl
verdict-other (SubmissionStatus.other s) big h = refl

-- For a stored drop point and submission, a complete result and a driver that does not fail: the
-- commit succeeds exactly if the drop point accepts work, the submission is receiving and its size
-- fits the bytes left of the quota; what is in the way is reported in that order. A successful
-- commit stores the submission that the lifecycle's commit makes of it, and after an error it is
-- stored as before.
pub commit_submission_outcome :
    (t : Tables) (dpid sid : Bytes) (dp : DropPoint) (s : Submission)
    (result : CommitSubmissionResult) (now : ℤ)
    → IsConsistent t
    → Stores t dpid dp
    → StoresSubmission t dpid sid s
    → is_incomplete result ≡ false
    → ((commit_submission dpid sid result now (healthy t)).0
        ≡ verdict_of t dpid dp s result.encrypted_size now)
      × StoresSubmission (commit_submission dpid sid result now (healthy t)).1.tables dpid sid (
          if is_ok (verdict_of t dpid dp s result.encrypted_size now)
          then (commit s result now).0
          else s)
commit_submission_outcome t dpid sid dp s result now c parent child complete =
    elim (Option-cases (require_open dp now)) [
      | inr (e, closed) ↦
          rw (closed, late t dpid sid dp s result now c parent child e closed complete)
            (refl, child)
      | inl open' ↦ elim (receiving_or s.status) [
        | inr other ↦
            rw
              (
                open',
                verdict-other s.status big other,
                not_receiving t dpid sid dp s result now c parent child open' other complete,
              )
              (refl, child)
        | inl receiving ↦ elim (Bool-cases big) [
          | inl b ↦
              let v : verdict_of t dpid dp s result.encrypted_size now
                  ≡ err pending_bytes_quota_exceeded =
                rw (open', receiving, b) refl in
              rw
                (v, over_quota t dpid sid dp s result now c parent child open' receiving complete b)
                (refl, child)
          | inr b ↦
              let v : verdict_of t dpid dp s result.encrypted_size now ≡ ok tt =
                rw (open', receiving, b) refl in
              rw v (committed t dpid sid dp s result now c parent child open' receiving complete b)
        ]
      ]
    ]
  where
    big : Bool
    big = ltb_ℤ (dp.max_pending_bytes -ℤ ready_bytes dpid t.submissions) result.encrypted_size

commit_steps-Determined :
    (dpid sid : Bytes) (result : CommitSubmissionResult) (now : ℤ)
    → Determined (commit_steps dpid sid result now)
unfolding commit_steps find_submission
commit_steps-Determined dpid sid result now = Determined-bind (Determined-exec _) λ dp.
    Determined-bind (Determined-check _) λ _. Determined-bind (Determined-exec _) λ s.
      Determined-if (not (same_status s.status SubmissionStatus.receiving)) (Determined-fail _) (
        Determined-bind (Determined-exec _) λ pending_bytes.
          Determined-if (ltb_ℤ (dp.max_pending_bytes -ℤ pending_bytes) result.encrypted_size)
            (Determined-fail _)
            (Determined-bind (Determined-exec _)
              λ changed. Determined-if (changed == 1) (Determined-pure tt) (Determined-fail _)))

-- Whatever calls of the driver fail, a failing `Commit` that was recorded all the same included, a
-- submission is committed wholly or not at all: either the call reports an error and the tables are
-- as they were; or the tables are exactly what the call makes of them when nothing fails and it
-- succeeds, and it reports that success or a failure of the driver.
pub commit_submission-AllOrNothing :
    (dpid sid : Bytes) (result : CommitSubmissionResult) (now : ℤ) (c : Conn)
    → AllOrNothing (commit_submission dpid sid result now) c
unfolding commit_submission fail
commit_submission-AllOrNothing dpid sid result now c = elim (Bool-cases (is_incomplete result)) [
  | inl incomplete ↦ rw incomplete (inl ((invalid_argument, refused c), unchanged c))
  | inr complete ↦
      rw complete (transaction-AllOrNothing (commit_steps-Determined dpid sid result now) c)
]
  where
    refused : (c : Conn) → (fail {A = Unit {0}} invalid_argument c).0 ≡ err invalid_argument
    refused c = refl

    unchanged : (c : Conn) → (fail {A = Unit {0}} invalid_argument c).1.tables ≡ c.tables
    unchanged c = refl
