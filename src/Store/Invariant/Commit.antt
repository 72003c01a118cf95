-- ===== src/Store/Invariant/Commit.antt =====
-- `CommitSubmission` keeps the tables consistent: the size it adds fits the queue's byte quota.
use drop_point.Base.{
  ◌≤◌, ◌≡◌, refl, Bool, true, false, not, List, All, arith, ℤ, pos, ◌-ℤ◌, ◌+ℤ◌, ◌≤ℤ◌, int_laws,
  Bytes, bytes_eq, bytes_eq→eq, bytes_eq_refl, bytes_eq_iff, Option, none, some, if◌then◌else◌,
  ◌==◌, if_elim, Bool-cases, inl, inr, ltb_ℤ, ltb_ℤ_false→le,
}
use drop_point.Errors.{ok, drop_point_not_found, pending_bytes_quota_exceeded, lost_update}
use drop_point.DropPoint.{DropPoint, require_open}
use drop_point.Submission.{SubmissionStatus, CommitSubmissionResult, same_status, is_incomplete}
use drop_point.Store.Table.{find_row, update_rows, count_rows}
use drop_point.Store.Table.Update.{
  All-mono, All-zip, All-update, count-update_le, sum-update_le, sum-update_one,
}
use drop_point.Store.Table.Keys.{Distinct, Distinct-update, found_only}
use drop_point.Store.Rows.{DropPointRow, SubmissionRow, Tables, scan_drop_point}
use drop_point.Store.Sql.{exec, pure, fail, ◌>>=◌, row_or, bind_result}
use drop_point.Store.Sql.Hoare.{
  Triple, Keeps, Triple-pure, Triple-fail, Triple-if, Triple-exec, Triple-bind, Triple-weaken,
  Triple-read, Keeps-read, Keeps-check, Triple-transaction,
}
use drop_point.Store.DropPoints.{has_id, select_drop_point}
use drop_point.Store.Queue.{
  is_pending, is_receiving_row, pending_count, ready_size, ready_bytes, ready_row, set_ready,
  find_submission, commit_steps, commit_submission,
}
use drop_point.Store.Invariant.{same_id, same_key, IsWithinQuota, IsConsistent}
use drop_point.Store.Invariant.Inserts.{same_id_of_has_id}

module _ (dpid sid : Bytes) (stored : CommitSubmissionResult) (now : ℤ) where
  abbrev chosen : SubmissionRow → Bool
  chosen = is_receiving_row dpid sid

  abbrev committed : SubmissionRow → SubmissionRow
  committed = ready_row stored now

  pending-committed :
      (d : Bytes) (r : SubmissionRow)
      → chosen r ≡ true
      → is_pending d (committed r) ≡ true
      → is_pending d r ≡ true
  unfolding same_status
  pending-committed d r h g = ground arith

  -- A receiving row weighs nothing, and its size once it is ready.
  ready_size-receiving : (d : Bytes) (r : SubmissionRow) → chosen r ≡ true → ready_size d r ≡ pos 0
  unfolding ready_size same_status
  ready_size-receiving d r h = ground arith

  ready_size-ready :
      (d : Bytes) (r : SubmissionRow)
      → ready_size d (committed r)
        ≡ (if bytes_eq r.drop_point_id d then stored.encrypted_size else pos 0)
  unfolding ready_size same_status
  ready_size-ready d r = ground arith

  chosen-parent : (r : SubmissionRow) → chosen r ≡ true → r.drop_point_id ≡ dpid
  chosen-parent r h = ground (arith, bytes_eq_iff r.drop_point_id dpid)

  ready_size-raise :
      (d : Bytes) (r : SubmissionRow)
      → pos 0 ≤ℤ stored.encrypted_size
      → chosen r ≡ true
      → ready_size d (committed r) ≤ℤ ready_size d r +ℤ stored.encrypted_size
  ready_size-raise d r nonneg h =
      rw (ready_size-ready d r, ready_size-receiving d r h)
        (if_elim (λ w. w ≤ℤ pos 0 +ℤ stored.encrypted_size) (bytes_eq r.drop_point_id d) _ _
          (λ _. omega int_laws) (λ _. omega int_laws))

  ready_size-elsewhere :
      (d : Bytes) (r : SubmissionRow)
      → bytes_eq dpid d ≡ false
      → chosen r ≡ true
      → ready_size d (committed r) ≤ℤ ready_size d r
  ready_size-elsewhere d r apart h =
      let parent : bytes_eq r.drop_point_id d ≡ false = rw (chosen-parent r h) apart in
      rw (ready_size-ready d r, ready_size-receiving d r h, parent) (omega int_laws)

  -- The row that the transaction read, and the bytes that it added up.
  record Read (dp : DropPoint) (pending_bytes : ℤ) (t : Tables) : Type 0 where
    consistent : IsConsistent t
    drop_point :
        bind_result
          (row_or drop_point_not_found (find_row (has_id dpid) t.drop_points))
          scan_drop_point
        ≡ ok dp
    bytes : ready_bytes dpid t.submissions ≡ pending_bytes

  scan_limit :
      (r : DropPointRow) (dp : DropPoint)
      → scan_drop_point r ≡ ok dp
      → dp.max_pending_bytes ≡ r.max_pending_bytes
  unfolding scan_drop_point
  scan_limit r dp e = ground arith

  found_limits :
      (rows : List DropPointRow) (dp : DropPoint) (found : Option DropPointRow)
      → Distinct same_id rows
      → find_row (has_id dpid) rows ≡ found
      → bind_result (row_or drop_point_not_found found) scan_drop_point ≡ ok dp
      → All (λ r. has_id dpid r ≡ true → dp.max_pending_bytes ≡ r.max_pending_bytes) rows
  found_limits rows dp none d e h = absurd (cc h)
  found_limits rows dp (some a) d e h =
      All-mono rows (λ r only t. rw (only t) (scan_limit a dp h))
        (found_only same_id (has_id dpid) (same_id_of_has_id dpid) rows a d e)

  module _ (dp : DropPoint) (pending_bytes : ℤ) (t : Tables) (seen : Read dp pending_bytes t)
      (one : count_rows chosen t.submissions ≡ 1) (nonneg : pos 0 ≤ℤ stored.encrypted_size)
      (fits : ltb_ℤ (dp.max_pending_bytes -ℤ pending_bytes) stored.encrypted_size ≡ false) where
    abbrev after : List SubmissionRow
    after = update_rows chosen committed t.submissions

    after-slots : (d : Bytes) → pending_count d after ≤ pending_count d t.submissions
    unfolding pending_count
    after-slots d =
        count-update_le (is_pending d) chosen committed t.submissions (pending-committed d)

    after-bytes_elsewhere :
        (d : Bytes) → bytes_eq dpid d ≡ false → ready_bytes d after ≤ℤ ready_bytes d t.submissions
    unfolding ready_bytes
    after-bytes_elsewhere d apart =
        sum-update_le (ready_size d) chosen committed t.submissions
          (All-mono t.submissions (λ r _. ready_size-elsewhere d r apart) seen.consistent.sizes)

    after-bytes_here :
        (d : Bytes) → ready_bytes d after ≤ℤ ready_bytes d t.submissions +ℤ stored.encrypted_size
    unfolding ready_bytes
    after-bytes_here d =
        sum-update_one (ready_size d) stored.encrypted_size chosen committed t.submissions nonneg
          (omega (arith, one)) (λ r. ready_size-raise d r nonneg)

    after-bytes :
        (r : DropPointRow)
        → (has_id dpid r ≡ true → dp.max_pending_bytes ≡ r.max_pending_bytes)
        → IsWithinQuota t.submissions r
        → ready_bytes r.id after ≤ℤ r.max_pending_bytes
    after-bytes r limit q = elim (Bool-cases (bytes_eq dpid r.id)) [
      | inr apart ↦ omega (int_laws, q.bytes, after-bytes_elsewhere r.id apart)
      | inl e ↦
          let same : dpid ≡ r.id = bytes_eq→eq dpid r.id e in
          let max : dp.max_pending_bytes ≡ r.max_pending_bytes =
            limit (rw same (bytes_eq_refl r.id)) in
          let sum : ready_bytes r.id t.submissions ≡ pending_bytes = rw same at seen.bytes in
          let room = rw (max, ← sum) at (ltb_ℤ_false→le _ _ fits) in
          omega (int_laws, room, after-bytes_here r.id)
    ]

    after-IsConsistent : IsConsistent (record t { submissions = after })
    after-IsConsistent = record {
      ids = seen.consistent.ids;
      drop_tokens = seen.consistent.drop_tokens;
      keys =
          Distinct-update same_key chosen committed t.submissions (λ r s. refl) (λ r s. refl)
            seen.consistent.keys;
      parents = All-update chosen committed t.submissions (λ s _ h. h) seen.consistent.parents;
      sizes = All-update chosen committed t.submissions (λ s _ _. nonneg) seen.consistent.sizes;
      quotas =
          All-zip t.drop_points
            (λ r limit q. record {
              slots = omega (int_laws, q.slots, after-slots r.id);
              bytes = after-bytes r limit q;
            })
            (found_limits t.drop_points dp (find_row (has_id dpid) t.drop_points)
              seen.consistent.ids refl seen.drop_point)
            seen.consistent.quotas;
    }

  -- An update that changes one row ends well; another number of rows fails and is rolled back.
  set_ready_triple :
      (dp : DropPoint) (pending_bytes : ℤ)
      → pos 0 ≤ℤ stored.encrypted_size
      → ltb_ℤ (dp.max_pending_bytes -ℤ pending_bytes) stored.encrypted_size ≡ false
      → Triple
          (Read dp pending_bytes)
          (exec (set_ready dpid sid stored now))
          (λ n t. n ≡ 1 → IsConsistent t)
          (λ _. Unit {0})
  unfolding set_ready
  set_ready_triple dp pending_bytes nonneg fits =
      Triple-exec _ (λ t seen one. after-IsConsistent dp pending_bytes t seen one nonneg fits)
        (λ _ _. tt)

  abbrev ReadDropPoint : DropPoint → Tables → Type 0
  ReadDropPoint dp t =
      IsConsistent t
      × (bind_result (row_or drop_point_not_found (find_row (has_id dpid) t.drop_points))
            scan_drop_point
          ≡ ok dp)

  store_triple :
      (dp : DropPoint) (pending_bytes : ℤ)
      → pos 0 ≤ℤ stored.encrypted_size
      → Triple
          (Read dp pending_bytes)
          (if ltb_ℤ (dp.max_pending_bytes -ℤ pending_bytes) stored.encrypted_size
            then fail pending_bytes_quota_exceeded
            else do
              changed ← exec (set_ready dpid sid stored now)
              if changed == 1 then pure tt else fail lost_update)
          (λ _. IsConsistent)
          (λ _. Unit {0})
  store_triple dp pending_bytes nonneg =
      Triple-if _ (λ _. Triple-fail _ (λ _ _. tt))
        (λ fits. Triple-bind _ (set_ready_triple dp pending_bytes nonneg fits) (λ n.
          Triple-if (n == 1) (λ one. Triple-pure tt (λ t h. h (ground arith)))
            (λ _. Triple-fail _ (λ _ _. tt))))

  commit_steps_triple :
      pos 0 ≤ℤ stored.encrypted_size
      → Triple IsConsistent (commit_steps dpid sid stored now) (λ _. IsConsistent) (λ _. Unit {0})
  unfolding commit_steps select_drop_point find_submission
  commit_steps_triple nonneg =
      Triple-bind ReadDropPoint (Triple-weaken (λ t c. c) (λ dp t h. h) (λ _ _. tt) (Triple-read _))
        (λ dp.
          Triple-bind (λ _. ReadDropPoint dp)
            (Triple-weaken (λ t c. c) (λ _ t h. h) (λ _ _. tt) (Keeps-check (require_open dp now)))
            (λ _.
              Triple-bind (λ _. ReadDropPoint dp)
                (Triple-weaken (λ t c. c) (λ _ t h. h) (λ _ _. tt) (Keeps-read _))
                (λ s.
                  Triple-if (not (same_status s.status SubmissionStatus.receiving))
                    (λ _. Triple-fail _ (λ _ _. tt))
                    (λ _.
                      Triple-bind (Read dp)
                        (Triple-weaken {P = ReadDropPoint dp} (λ t c. c)
                          (λ n t h. record {
                            consistent = h.0.0;
                            drop_point = h.0.1;
                            bytes = ground (arith, h.1);
                          })
                          (λ _ _. tt) (Triple-read (λ t. ok (ready_bytes dpid t.submissions))))
                        (λ n. store_triple dp n nonneg)))))

  pub commit_submission-IsConsistent : Keeps IsConsistent (commit_submission dpid sid stored now)
  unfolding commit_submission
  commit_submission-IsConsistent =
      Triple-if (is_incomplete stored) (λ _. Triple-fail _ (λ _ c. c))
        (λ complete.
          Triple-transaction (λ _. Unit {0}) IsConsistent (λ _ _. tt) (λ _ c. c) (λ _ _ c. c)
            (commit_steps_triple (ltb_ℤ_false→le _ _ (ground (arith, complete)))))
