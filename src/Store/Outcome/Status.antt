-- ===== src/Store/Outcome/Status.antt =====
-- What a look at a submission, a commit and an acknowledgement tell of the rows they leave, whatever
-- calls of the driver fail.
use drop_point.Base.{
  ◌<◌, ◌≡◌, refl, ap, subst, Bool, true, ◌&&◌, Option, none, some, List, [], ◌∷◌, ℤ, Bytes,
  bytes_eq_refl, bytes_eq→eq, arith, inl, inr, Bool-cases, ltb_ℤ, ◌-ℤ◌, ◌==◌, not,
}
use drop_point.Errors.{ok, submission_not_found, invalid_argument}
use drop_point.Submission.{
  SubmissionStatus, Submission, CommitSubmissionResult, same_status, is_incomplete,
}
use drop_point.Store.Table.{find_row, update_rows, count_rows}
use drop_point.Store.Rows.{SubmissionRow, Tables, scan_submission}
use drop_point.Store.Sql.{M, row_or, bind_result, exec}
use drop_point.Store.Sql.Hoare.{
  Triple, Triple-pure, Triple-fail, Triple-if, Triple-exec, Triple-bind, Triple-weaken, Triple-read,
  nothing, Triple-transaction,
}
use drop_point.Store.Outcome.Access.{find_row-passes}
use drop_point.Store.Refinement.Submissions.{Stores}
use drop_point.Store.Queue.{
  has_key, is_receiving_row, ready_row, set_ready, find_submission, commit_steps, commit_submission,
}
use drop_point.Store.Submissions.{
  is_ready_row, acknowledged_row, set_acknowledged, acknowledge_submission, cleared_row,
  can_pick_up, picked_up_row, set_picked_up, mark_submission_picked_up, clear_submission_files,
}

abbrev Anything : Tables → Type 0
Anything t = Unit {0}

-- A row with the key and the status stands in the table.
abbrev pub has_status : Bytes → Bytes → SubmissionStatus → SubmissionRow → Bool
has_status dpid sid status r = has_key dpid sid r && same_status r.status status

abbrev pub Stands : Bytes → Bytes → SubmissionStatus → Tables → Type 0
Stands dpid sid status t = 0 < count_rows (has_status dpid sid status) t.submissions

pub same_status→eq : (a b : SubmissionStatus) → same_status a b ≡ true → a ≡ b
unfolding same_status
same_status→eq SubmissionStatus.receiving SubmissionStatus.receiving h = refl
same_status→eq SubmissionStatus.ready SubmissionStatus.ready h = refl
same_status→eq SubmissionStatus.acknowledged SubmissionStatus.acknowledged h = refl
same_status→eq SubmissionStatus.failed SubmissionStatus.failed h = refl
same_status→eq (SubmissionStatus.other s) (SubmissionStatus.other t) h =
    ap SubmissionStatus.other (bytes_eq→eq s t h)
same_status→eq _ _ h = absurd (ground (arith, h))

same_status_refl : (s : SubmissionStatus) → same_status s s ≡ true
unfolding same_status
same_status_refl SubmissionStatus.receiving = refl
same_status_refl SubmissionStatus.ready = refl
same_status_refl SubmissionStatus.acknowledged = refl
same_status_refl SubmissionStatus.failed = refl
same_status_refl (SubmissionStatus.other s) = bytes_eq_refl s

count-find_row :
    (p q : SubmissionRow → Bool) (rows : List SubmissionRow) (r : SubmissionRow)
    → find_row p rows ≡ some r
    → q r ≡ true
    → 0 < count_rows q rows
unfolding find_row count_rows
count-find_row p q [] r h k = absurd (ground (arith, h))
count-find_row p q (s ∷ rows) r h k = elim (Bool-cases (p s)) [
  | inl here ↦ ground (arith, here, h, k)
  | inr later ↦ ground (arith, count-find_row p q rows r (ground (arith, later, h)) k)
]

count-update_rows :
    (p q : SubmissionRow → Bool) (f : SubmissionRow → SubmissionRow) (rows : List SubmissionRow)
    → ((r : SubmissionRow) → p r ≡ true → q (f r) ≡ true)
    → 0 < count_rows p rows
    → 0 < count_rows q (update_rows p f rows)
unfolding update_rows count_rows
count-update_rows p q f [] made h = absurd (omega (arith, h))
count-update_rows p q f (r ∷ rows) made h = elim (Bool-cases (p r)) [
  | inl here ↦ ground (arith, here, made r here)
  | inr other ↦ ground (arith, other, h, count-update_rows p q f rows made)
]

-- The row behind a submission that was looked up.
looked_up :
    (dpid sid : Bytes) (found : Option SubmissionRow) (s : Submission)
    → bind_result (row_or submission_not_found found) scan_submission ≡ ok s
    → (r : SubmissionRow) × (found ≡ some r) × (scan_submission r ≡ ok s)
looked_up dpid sid none s h = absurd (ground (arith, h))
looked_up dpid sid (some r) s h = (r, refl, h)

-- A submission that was looked up is what the tables record under its key.
pub find_submission-Stores :
    (dpid sid : Bytes) {P : Tables → Type 0}
    → Triple P (find_submission dpid sid) (λ s t. P t × Stores t dpid sid s) P
unfolding find_submission
find_submission-Stores dpid sid {P} =
    Triple-weaken (λ t p. p) (λ s t q. (q.0, looked_up dpid sid _ s q.1)) (λ t p. p)
      (Triple-read {P = P} _)

pub Stores-Stands :
    (dpid sid : Bytes) (s : Submission) (t : Tables)
    → Stores t dpid sid s
    → Stands dpid sid s.status t
unfolding scan_submission
Stores-Stands dpid sid s t (r, found, scanned) =
    count-find_row (has_key dpid sid) (has_status dpid sid s.status) t.submissions r found (
      ground (
        arith,
        find_row-passes (has_key dpid sid) t.submissions r found,
        same_status_refl r.status,
        scanned,
      ))

pub find_submission-Stands :
    (dpid sid : Bytes) {P : Tables → Type 0}
    → Triple P (find_submission dpid sid) (λ s. Stands dpid sid s.status) P
find_submission-Stands dpid sid {P} =
    Triple-weaken (λ t p. p) (λ s t q. Stores-Stands dpid sid s t q.1) (λ t p. p)
      (find_submission-Stores dpid sid {P = P})

-- An update of one row at least leaves a row with the new status.
updated :
    (dpid sid : Bytes) (status : SubmissionStatus) (p : SubmissionRow → Bool)
    (f : SubmissionRow → SubmissionRow)
    → ((r : SubmissionRow) → p r ≡ true → has_status dpid sid status (f r) ≡ true)
    → Triple Anything
        (exec (λ t. (
          ok (count_rows p t.submissions),
          record t { submissions = update_rows p f t.submissions },
        )))
        (λ n u. (n == 1) ≡ true → Stands dpid sid status u)
        Anything
updated dpid sid status p f made =
    Triple-exec _
      (λ t _ one.
        count-update_rows p (has_status dpid sid status) f t.submissions made (ground (arith, one)))
      (λ t _. tt)

anything : {A : Type 0} {E : Tables → Type 0} (m : M A) → Triple E m (λ _. Anything) Anything
anything m = record { holds = λ c p. nothing (m c).0 (m c).1.tables }

commit_steps-Stands :
    (dpid sid : Bytes) (result : CommitSubmissionResult) (now : ℤ)
    → Triple Anything
        (commit_steps dpid sid result now)
        (λ _. Stands dpid sid SubmissionStatus.ready)
        Anything
unfolding commit_steps set_ready same_status
commit_steps-Stands dpid sid result now =
    Triple-bind (λ _. Anything) (anything _)
      λ dp.
        Triple-bind (λ _. Anything) (anything _)
          λ _.
            Triple-bind (λ _. Anything) (anything _)
              λ s.
                Triple-if (not (same_status s.status SubmissionStatus.receiving))
                  (λ _. Triple-fail _ (λ t p. tt))
                  (λ _.
                    Triple-bind (λ _. Anything) (anything _)
                      λ pending_bytes.
                        Triple-if
                          (ltb_ℤ (dp.max_pending_bytes -ℤ pending_bytes) result.encrypted_size)
                          (λ _. Triple-fail _ (λ t p. tt))
                          (λ _.
                            Triple-bind
                              (λ n u. (n == 1) ≡ true → Stands dpid sid SubmissionStatus.ready u)
                              (updated dpid sid SubmissionStatus.ready (is_receiving_row dpid sid)
                                (ready_row result now) (λ r h. ground (arith, h)))
                              (λ changed.
                                Triple-if (changed == 1) (λ one. Triple-pure tt (λ t q. q one))
                                  (λ _. Triple-fail _ (λ t p. tt)))))

pub commit_submission-Stands :
    (dpid sid : Bytes) (result : CommitSubmissionResult) (now : ℤ)
    → Triple Anything
        (commit_submission dpid sid result now)
        (λ _. Stands dpid sid SubmissionStatus.ready)
        Anything
unfolding commit_submission
commit_submission-Stands dpid sid result now =
    Triple-if (is_incomplete result) (λ _. Triple-fail invalid_argument (λ t p. tt))
      (λ _.
        Triple-transaction Anything Anything (λ t p. tt) (λ t p. tt) (λ _ t q. tt)
          (commit_steps-Stands dpid sid result now))

pub acknowledge_submission-Stands :
    (dpid sid : Bytes) (now : ℤ)
    → Triple Anything
        (acknowledge_submission dpid sid now)
        (λ _. Stands dpid sid SubmissionStatus.acknowledged)
        Anything
unfolding acknowledge_submission set_acknowledged same_status
acknowledge_submission-Stands dpid sid now =
    Triple-bind (λ n u. (n == 1) ≡ true → Stands dpid sid SubmissionStatus.acknowledged u)
      (updated dpid sid SubmissionStatus.acknowledged (is_ready_row dpid sid) (acknowledged_row now)
        (λ r h. ground (arith, h)))
      (λ changed.
        Triple-if (changed == 1) (λ one. Triple-pure tt (λ t q. q one))
          (λ _.
            Triple-bind (λ s. Stands dpid sid s.status)
              (Triple-weaken (λ t p. tt) (λ _ t q. q) (λ t p. tt)
                (find_submission-Stands dpid sid {P = Anything}))
              (λ s.
                Triple-if (same_status s.status SubmissionStatus.acknowledged)
                  (λ same.
                    Triple-pure tt
                      (λ t q. subst (λ x. Stands dpid sid x t) (same_status→eq s.status _ same) q))
                  (λ _. Triple-fail _ (λ t p. tt)))))

-- An update that leaves the statuses leaves their number.
count-kept :
    (p q : SubmissionRow → Bool) (f : SubmissionRow → SubmissionRow) (rows : List SubmissionRow)
    → ((r : SubmissionRow) → q (f r) ≡ q r)
    → count_rows q (update_rows p f rows) ≡ count_rows q rows
unfolding count_rows update_rows
count-kept p q f [] same = refl
count-kept p q f (r ∷ rows) same = elim (Bool-cases (p r)) [
  | inl here ↦ ground (arith, here, same r, count-kept p q f rows same)
  | inr other ↦ ground (arith, other, count-kept p q f rows same)
]

-- Clearing the paths leaves the statuses.
pub clear_submission_files-Stands :
    (dpid sid : Bytes) (status : SubmissionStatus)
    → Triple
        (Stands dpid sid status)
        (clear_submission_files dpid sid)
        (λ _. Stands dpid sid status)
        (Stands dpid sid status)
unfolding clear_submission_files
clear_submission_files-Stands dpid sid status =
    Triple-exec _
      (λ t q. omega (
        arith,
        q,
        count-kept (has_key dpid sid) (has_status dpid sid status) cleared_row t.submissions
            (λ r. refl),
      ))
      (λ t q. q)

-- So does the time of the first pickup.
pub mark_submission_picked_up-Stands :
    (dpid sid : Bytes) (now : ℤ) (status : SubmissionStatus)
    → Triple
        (Stands dpid sid status)
        (mark_submission_picked_up dpid sid now)
        (λ _. Stands dpid sid status)
        (Stands dpid sid status)
unfolding mark_submission_picked_up set_picked_up find_submission
mark_submission_picked_up-Stands dpid sid now status =
    Triple-bind (λ _. Stands dpid sid status)
      (Triple-exec _
        (λ t q. omega (
          arith,
          q,
          count-kept (can_pick_up dpid sid) (has_status dpid sid status) (picked_up_row now)
              t.submissions (λ r. refl),
        ))
        (λ t q. q))
      (λ changed.
        Triple-if (changed == 1) (λ _. Triple-pure tt (λ t q. q))
          (λ _. Triple-bind (λ _. Stands dpid sid status) kept (λ s. Triple-fail _ (λ t q. q))))
  where
    kept :
        Triple
          (Stands dpid sid status)
          (find_submission dpid sid)
          (λ _. Stands dpid sid status)
          (Stands dpid sid status)
    kept =
        Triple-weaken (λ t p. p) (λ _ t q. q.0) (λ t p. p)
          (Triple-read {P = Stands dpid sid status} _)
