-- ===== src/Store/Invariant/Submissions.antt =====
-- The other methods of `Repository` keep the tables consistent, whichever driver calls fail.
use drop_point.Base.{ℕ, ◌≡◌, refl, Bool, false, List, [], ◌∷◌, arith, ℤ, pos, ◌≤ℤ◌, Bytes, ◌==◌}
use drop_point.Errors.{Result, ok, err, submission_not_found}
use drop_point.DropPoint.{DropPoint, require_open}
use drop_point.Submission.{SubmissionStatus, Submission, same_status}
use drop_point.Store.Table.{update_rows}
use drop_point.Store.Rows.{SubmissionRow}
use drop_point.Store.Sql.{exec}
use drop_point.Store.Sql.Hoare.{Triple-exec, Keeps-read, Keeps-attempt}
use drop_point.Store.Queue.{
  is_receiving_row, ready_size, find_submission, as_existing, full_or_existing, explain_begin,
  begin_submission, remove_receiving, delete_receiving_submission,
}
use drop_point.Store.Submissions.{
  update_submission, can_pick_up, picked_up_row, set_picked_up, mark_submission_picked_up,
  is_ready_row, acknowledged_row, set_acknowledged, acknowledge_submission, is_pending_row,
  failed_row, set_failed, fail_submission, cleared_row, clear_submission_files,
  clear_drop_point_files,
}
use drop_point.Store.Sweep.{
  query_drop_points, mark_all_expired, expire_drop_points, purge_terminal_drop_points,
  remove_purgeable,
}
use drop_point.Store.Invariant.{IsSized}
use drop_point.Store.Invariant.Updates.{
  Releases, update_submissions-IsConsistent, delete_submissions-IsConsistent, ready_size-nonneg,
}
use drop_point.Store.Invariant.Inserts.{insert_submission-Kept}
use drop_point.Store.Invariant.Purge.{remove_purgeable-IsConsistent}
use drop_point.Store.Invariant.Safe.{Safe, Safe-pure, Safe-fail, Safe-bind, Safe-if}
use drop_point.Store.Invariant.DropPoints.{
  mark_expired-Safe, find_drop_point_by_id-Safe, refuse_unless_open-Safe,
}

update_submission-Safe :
    (p : SubmissionRow → Bool) (f : SubmissionRow → SubmissionRow)
    → Releases p f
    → Safe (exec (update_submission p f))
update_submission-Safe p f k =
    Triple-exec _ (λ t c. update_submissions-IsConsistent p f t k c) (λ t c. c)

-- An update that leaves the status and the size alone.
touch-Releases :
    (p : SubmissionRow → Bool) (f : SubmissionRow → SubmissionRow)
    → ((r : SubmissionRow) → (f r).id ≡ r.id)
    → ((r : SubmissionRow) → (f r).drop_point_id ≡ r.drop_point_id)
    → ((r : SubmissionRow) → (f r).status ≡ r.status)
    → ((r : SubmissionRow) → (f r).encrypted_size ≡ r.encrypted_size)
    → Releases p f
unfolding ready_size
touch-Releases p f id parent status size = record {
  id = id;
  parent = parent;
  pending = λ d r _ h. rw (parent r, status r) at h;
  weight = λ d r _ _. rw (parent r, status r, size r) (omega arith);
  sized = λ r _ s. rw (size r) s;
}

-- An update after which a submission is neither receiving nor ready.
finish-Releases :
    (p : SubmissionRow → Bool) (f : SubmissionRow → SubmissionRow)
    → ((r : SubmissionRow) → (f r).id ≡ r.id)
    → ((r : SubmissionRow) → (f r).drop_point_id ≡ r.drop_point_id)
    → ((r : SubmissionRow) → same_status (f r).status SubmissionStatus.receiving ≡ false)
    → ((r : SubmissionRow) → same_status (f r).status SubmissionStatus.ready ≡ false)
    → ((r : SubmissionRow) → (f r).encrypted_size ≡ r.encrypted_size)
    → Releases p f
finish-Releases p f id parent idle unready size = record {
  id = id;
  parent = parent;
  pending = λ d r _ h. ground (arith, idle r, unready r);
  weight = λ d r _ s. weightless d r s;
  sized = λ r _ s. rw (size r) s;
}
  where
    zero : (d : Bytes) (r : SubmissionRow) → ready_size d (f r) ≡ pos 0
    zero d r = unfold ready_size in ground (arith, unready r)

    weightless : (d : Bytes) (r : SubmissionRow) → IsSized r → ready_size d (f r) ≤ℤ ready_size d r
    weightless d r s = rw (zero d r) (ready_size-nonneg d r s)

pub find_submission-Safe : (dpid sid : Bytes) → Safe (find_submission dpid sid)
unfolding find_submission
find_submission-Safe dpid sid = Keeps-read _

pub mark_submission_picked_up-Safe :
    (dpid sid : Bytes) (now : ℤ) → Safe (mark_submission_picked_up dpid sid now)
unfolding mark_submission_picked_up set_picked_up
mark_submission_picked_up-Safe dpid sid now =
    Safe-bind
      (update_submission-Safe (can_pick_up dpid sid) (picked_up_row now)
        (touch-Releases _ (picked_up_row now) (λ r. refl) (λ r. refl) (λ r. refl) (λ r. refl)))
      (λ n.
        Safe-if (n == 1) (Safe-pure tt)
          (Safe-bind (find_submission-Safe dpid sid) (λ s. Safe-fail _)))

pub acknowledge_submission-Safe :
    (dpid sid : Bytes) (now : ℤ) → Safe (acknowledge_submission dpid sid now)
unfolding acknowledge_submission set_acknowledged same_status
acknowledge_submission-Safe dpid sid now =
    Safe-bind
      (update_submission-Safe (is_ready_row dpid sid) (acknowledged_row now) (
        finish-Releases _ (acknowledged_row now) (λ r. refl) (λ r. refl) (λ r. refl) (λ r. refl)
          (λ r. refl)))
      (λ n. Safe-if (n == 1) (Safe-pure tt) (
        Safe-bind (find_submission-Safe dpid sid) (λ s.
          Safe-if (same_status s.status SubmissionStatus.acknowledged) (Safe-pure tt)
            (Safe-fail _))))

pub fail_submission-Safe : (dpid sid : Bytes) (now : ℤ) → Safe (fail_submission dpid sid now)
unfolding fail_submission set_failed same_status
fail_submission-Safe dpid sid now =
    Safe-bind
      (update_submission-Safe (is_pending_row dpid sid) (failed_row now) (
        finish-Releases _ (failed_row now) (λ r. refl) (λ r. refl) (λ r. refl) (λ r. refl)
          (λ r. refl)))
      (λ n. Safe-if (n == 1) (Safe-pure tt) (
        Safe-bind (find_submission-Safe dpid sid) (λ s.
          Safe-if (same_status s.status SubmissionStatus.failed) (Safe-pure tt) (Safe-fail _))))

cleared-Safe :
    (p : SubmissionRow → Bool)
    → Safe (exec (λ t. (ok tt, record t { submissions = update_rows p cleared_row t.submissions })))
cleared-Safe p =
    Triple-exec _
      (λ t c.
        update_submissions-IsConsistent p cleared_row t
          (touch-Releases p cleared_row (λ r. refl) (λ r. refl) (λ r. refl) (λ r. refl)) c)
      (λ t c. c)

pub clear_submission_files-Safe : (dpid sid : Bytes) → Safe (clear_submission_files dpid sid)
unfolding clear_submission_files
clear_submission_files-Safe dpid sid = cleared-Safe _

pub clear_drop_point_files-Safe : (dpid : Bytes) → Safe (clear_drop_point_files dpid)
unfolding clear_drop_point_files
clear_drop_point_files-Safe dpid = cleared-Safe _

as_existing-Safe : (r : Result ℕ) → Safe (as_existing r)
unfolding as_existing
as_existing-Safe (ok n) = Safe-pure n
as_existing-Safe (err e) = Safe-fail _

full_or_existing-Safe : (r : Result Submission) → Safe (full_or_existing r)
unfolding full_or_existing
full_or_existing-Safe (ok s) = Safe-fail _
full_or_existing-Safe (err submission_not_found) = Safe-fail _
full_or_existing-Safe (err e) = Safe-fail _

explain_begin-Safe : (dpid sid : Bytes) (now : ℤ) → Safe (explain_begin dpid sid now)
unfolding explain_begin
explain_begin-Safe dpid sid now = Safe-bind (find_drop_point_by_id-Safe dpid) (λ dp.
    Safe-bind (refuse_unless_open-Safe dpid (require_open dp now))
      (λ _. Safe-bind (Keeps-attempt (find_submission-Safe dpid sid)) full_or_existing-Safe))

pub begin_submission-Safe : (dpid sid : Bytes) (now : ℤ) → Safe (begin_submission dpid sid now)
unfolding begin_submission
begin_submission-Safe dpid sid now =
    Safe-bind
      (Keeps-attempt (Triple-exec _ (λ t c. insert_submission-Kept dpid sid now t c) (λ t c. c)))
      (λ r.
        Safe-bind (as_existing-Safe r)
          (λ n. Safe-if (n == 1) (Safe-pure tt) (explain_begin-Safe dpid sid now)))

pub delete_receiving_submission-Safe :
    (dpid sid : Bytes) → Safe (delete_receiving_submission dpid sid)
unfolding delete_receiving_submission remove_receiving
delete_receiving_submission-Safe dpid sid =
    Triple-exec _ (λ t c. delete_submissions-IsConsistent (is_receiving_row dpid sid) t c)
      (λ t c. c)

mark_all_expired-Safe : (dps : List DropPoint) → Safe (mark_all_expired dps)
unfolding mark_all_expired
mark_all_expired-Safe [] = Safe-pure tt
mark_all_expired-Safe (dp ∷ dps) =
    Safe-bind (mark_expired-Safe dp.id) (λ _. mark_all_expired-Safe dps)

pub expire_drop_points-Safe : (now : ℤ) → Safe (expire_drop_points now)
unfolding expire_drop_points query_drop_points
expire_drop_points-Safe now =
    Safe-bind (Keeps-read _) (λ dps. Safe-bind (mark_all_expired-Safe dps) (λ _. Safe-pure dps))

pub purge_terminal_drop_points-Safe : (cutoff : ℤ) → Safe (purge_terminal_drop_points cutoff)
unfolding purge_terminal_drop_points remove_purgeable
purge_terminal_drop_points-Safe cutoff =
    Triple-exec _ (λ t c. remove_purgeable-IsConsistent cutoff t c) (λ t c. c)
