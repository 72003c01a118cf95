-- ===== src/Store/Outcome/Begin.antt =====
-- `BeginSubmission`: who gets a receiving row, and what everyone else is told.
use drop_point.Base.{
  ◌≡◌, Bool, true, false, ◌&&◌, Option, none, some, ◌∷◌, ℤ, pos, Bytes, arith, if◌then◌else◌, inl,
  inr, Bool-cases, Option-cases, ltb_ℤ,
}
use drop_point.Errors.{
  Error, Result, ok, err, is_ok, submission_already_exists, pending_submission_quota_exceeded,
}
use drop_point.DropPoint.{Status, DropPoint, require_open, same_status as same_drop_status}
use drop_point.Submission.{Submission}
use drop_point.Store.Table.{find_row, count_rows}
use drop_point.Store.Table.Keys.{count_absent, count_present}
use drop_point.Store.Rows.{
  DropPointRow, SubmissionRow, Tables, scan_drop_point, scan_submission, submission_of,
}
use drop_point.Store.Sql.{healthy, pure, fail, ◌>>=◌, exec, attempt, is_unique_constraint}
use drop_point.Store.DropPoints.{
  select_drop_point, find_drop_point_by_id, refuse, refuse_unless_open, mark_expired, set_expired,
}
use drop_point.Store.Queue.{
  has_key, pending_count, receiving_row, has_room, insert_submission, find_submission, as_existing,
  full_or_existing, explain_begin, begin_submission,
}
use drop_point.Store.Invariant.{IsConsistent}
use drop_point.Store.Refinement.Lookup.{drop_points_affected}
use drop_point.Store.Refinement.DropPoints.{Stores}

module _ (t : Tables) (dpid sid : Bytes) (dp : DropPoint) (now : ℤ) (c : IsConsistent t)
    (stored : Stores t dpid dp) where
  abbrev row : DropPointRow
  row = stored.0

  abbrev accepts : DropPointRow → Bool
  accepts r =
      same_drop_status r.status Status.opened
      && (ltb_ℤ now r.expires_at
          && ltb_ℤ (pos (pending_count dpid t.submissions)) r.max_pending_submissions)

  room : count_rows (has_room dpid now t.submissions) t.drop_points ≡ (if accepts row then 1 else 0)
  unfolding has_room
  room = drop_points_affected t c dpid row stored.1 accepts

  -- A closed, expired or failed drop point gives its own error to every attempt.
  refused :
      (e : Error)
      → require_open dp now ≡ some e
      → ((begin_submission dpid sid now (healthy t)).0 ≡ err e)
        × ((begin_submission dpid sid now (healthy t)).1.tables.submissions ≡ t.submissions)
  unfolding begin_submission insert_submission as_existing explain_begin find_drop_point_by_id
      select_drop_point refuse_unless_open refuse mark_expired set_expired attempt ◌>>=◌ exec pure
      fail require_open scan_drop_point same_drop_status
  refused e h = (ground (arith, room, stored.1, stored.2), ground (arith, room, stored.1, stored.2))

  -- An identifier that is in the queue's table already is never taken again.
  duplicate :
      (old : SubmissionRow) (s : Submission)
      → require_open dp now ≡ none
      → find_row (has_key dpid sid) t.submissions ≡ some old
      → scan_submission old ≡ ok s
      → begin_submission dpid sid now (healthy t) ≡ (err submission_already_exists, healthy t)
  unfolding begin_submission insert_submission as_existing explain_begin find_drop_point_by_id
      find_submission full_or_existing select_drop_point refuse_unless_open attempt ◌>>=◌ exec pure
      fail is_unique_constraint
  duplicate old s open' there scanned =
      ground
        (arith, room, stored.1, stored.2, count_present (has_key dpid sid) t.submissions old there)

  -- A free identifier is taken if the queue has a free slot.
  accepted :
      require_open dp now ≡ none
      → find_row (has_key dpid sid) t.submissions ≡ none
      → ltb_ℤ (pos (pending_count dpid t.submissions)) dp.max_pending_submissions ≡ true
      → begin_submission dpid sid now (healthy t)
        ≡ (ok tt, healthy (record t { submissions = receiving_row dpid sid now ∷ t.submissions }))
  unfolding begin_submission insert_submission as_existing attempt ◌>>=◌ exec pure require_open
      scan_drop_point same_drop_status
  accepted open' free slot =
      ground (arith, room, stored.2, count_absent (has_key dpid sid) t.submissions free)

  full :
      require_open dp now ≡ none
      → find_row (has_key dpid sid) t.submissions ≡ none
      → ltb_ℤ (pos (pending_count dpid t.submissions)) dp.max_pending_submissions ≡ false
      → begin_submission dpid sid now (healthy t)
        ≡ (err pending_submission_quota_exceeded, healthy t)
  unfolding begin_submission insert_submission as_existing explain_begin find_drop_point_by_id
      find_submission full_or_existing select_drop_point refuse_unless_open attempt ◌>>=◌ exec pure
      fail scan_drop_point
  full open' free slot = ground (arith, room, stored.1, stored.2)

-- What an attempt is told: by the drop point's state, by the row that has the identifier already,
-- and by whether the queue has a free slot.
abbrev pub verdict : Option Error → Option SubmissionRow → Bool → Result (Unit {0})
verdict (some e) old slot = err e
verdict none (some old) slot = err submission_already_exists
verdict none none true = ok tt
verdict none none false = err pending_submission_quota_exceeded

abbrev pub verdict_of : Tables → (dpid sid : Bytes) → DropPoint → ℤ → Result (Unit {0})
verdict_of t dpid sid dp now =
    verdict (require_open dp now) (find_row (has_key dpid sid) t.submissions)
      (ltb_ℤ (pos (pending_count dpid t.submissions)) dp.max_pending_submissions)

-- For a stored drop point, stored submissions with named states and a driver that does not fail: a
-- drop point that takes no work answers with its own error; an identifier that has a submission is
-- reported as existing; a free one is taken if fewer submissions are pending than the drop point
-- allows, and is refused if not. Exactly one receiving row is added when the call succeeds, and
-- the table of submissions is as before when it does not.
pub begin_submission_outcome :
    (t : Tables) (dpid sid : Bytes) (dp : DropPoint) (now : ℤ)
    → IsConsistent t
    → Stores t dpid dp
    → ((old : SubmissionRow)
        → find_row (has_key dpid sid) t.submissions ≡ some old
        → scan_submission old ≡ ok (submission_of old))
    → ((begin_submission dpid sid now (healthy t)).0 ≡ verdict_of t dpid sid dp now)
      × ((begin_submission dpid sid now (healthy t)).1.tables.submissions ≡ (
          if is_ok (verdict_of t dpid sid dp now)
          then receiving_row dpid sid now ∷ t.submissions
          else t.submissions))
begin_submission_outcome t dpid sid dp now c stored named =
    elim (Option-cases (require_open dp now)) [
      | inr (e, closed) ↦ rw closed (refused t dpid sid dp now c stored e closed)
      | inl open' ↦ elim (Option-cases (find_row (has_key dpid sid) t.submissions)) [
        | inr (old, there) ↦ ground (
          arith,
          duplicate t dpid sid dp now c stored old (submission_of old) open' there
              (named old there),
        )
        | inl free ↦ elim (Bool-cases slot) [
          | inl free_slot ↦ ground (arith, accepted t dpid sid dp now c stored open' free free_slot)
          | inr taken ↦ ground (arith, full t dpid sid dp now c stored open' free taken)
        ]
      ]
    ]
  where
    slot : Bool
    slot = ltb_ℤ (pos (pending_count dpid t.submissions)) dp.max_pending_submissions
