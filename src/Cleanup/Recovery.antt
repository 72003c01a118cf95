-- ===== src/Cleanup/Recovery.antt =====
-- `ReconcileStartup`: once it returns, no upload is left in the state of being received.
use drop_point.Base.{
  ◌≡◌, inl, inr, refl, Bool, true, false, not, ◌||◌, List, [], ◌∷◌, ℤ, Bytes, bytes_eq,
  bytes_eq_refl, arith, All, Bool-cases,
}
use drop_point.Errors.{Result, ok, err}
use drop_point.DropPoint.{DropPoint}
use drop_point.Submission.{Submission}
use drop_point.Store.Table.{select_rows, order_by, insert_row, delete_rows}
use drop_point.Store.Table.Update.{All-mono, All-update, All-delete}
use drop_point.Store.Rows.{SubmissionRow, Tables, scan_submission}
use drop_point.Store.Sql.{M, scan_all}
use drop_point.Store.Sql.Hoare.{
  Triple, Keeps, Keeps-read, Triple-exec, Triple-bind, Triple-pure, Triple-read, Triple-weaken,
  after_value,
}
use drop_point.Store.DropPoints.{mark_expired, set_expired}
use drop_point.Store.Outcome.Expiry.{scan_cases}
use drop_point.Store.Queue.{
  has_key, is_receiving, is_receiving_row, remove_receiving, delete_receiving_submission,
}
use drop_point.Store.Submissions.{cleared_row, clear_submission_files, clear_drop_point_files}
use drop_point.Store.Sweep.{
  SubmissionOrder, by_key, query_drop_points, query_submissions, receiving_submissions,
  mark_all_expired, expire_drop_points, remove_purgeable, purge_terminal_drop_points,
}
use drop_point.Cleanup.{
  World, W, Service, resume, ◌>>=◌, pure, repository, blob, count, one_recovered, recover_receiving,
  reconcile_startup,
}
use drop_point.Cleanup.Kept.{Sound, expire-Steady}

-- A submission of the list has the row's key.
listed : List Submission → SubmissionRow → Bool
listed [] r = false
listed (s ∷ list) r = has_key s.drop_point_id s.id r || listed list r

row_listed : List SubmissionRow → SubmissionRow → Bool
row_listed [] r = false
row_listed (x ∷ rows) r = has_key x.drop_point_id x.id r || row_listed rows r

row_listed-insert :
    (le : SubmissionOrder) (r x : SubmissionRow) (rows : List SubmissionRow)
    → row_listed (insert_row le x rows) r ≡ (has_key x.drop_point_id x.id r || row_listed rows r)
unfolding row_listed insert_row
row_listed-insert le r x [] = refl
row_listed-insert le r x (y ∷ rows) = ground (arith, row_listed-insert le r x rows)

row_listed-order :
    (le : SubmissionOrder) (r : SubmissionRow) (rows : List SubmissionRow)
    → row_listed (order_by le rows) r ≡ row_listed rows r
unfolding row_listed order_by
row_listed-order le r [] = refl
row_listed-order le r (x ∷ rows) =
    ground (arith, row_listed-insert le r x (order_by le rows), row_listed-order le r rows)

listed-scan :
    (r : SubmissionRow) (rows : List SubmissionRow) (list : List Submission)
    → scan_all scan_submission rows ≡ ok list
    → listed list r ≡ row_listed rows r
unfolding scan_all scan_submission row_listed listed
listed-scan r [] list h = ground arith
listed-scan r (x ∷ rows) list h = elim (scan_cases (scan_all scan_submission rows)) [
  | inl (rest, e) ↦ ground (arith, e, listed-scan r rows rest e, h)
  | inr (x, e) ↦ ground (arith, e, h)
]

-- Every receiving row passes a test.
abbrev Covered : (SubmissionRow → Bool) → List SubmissionRow → Type 0
Covered on rows = All (λ r. (not (is_receiving r) || on r) ≡ true) rows

Covered-select :
    (rows : List SubmissionRow) → Covered (row_listed (select_rows is_receiving rows)) rows
unfolding select_rows row_listed
Covered-select [] = tt
Covered-select (r ∷ rows) = (
  ground (arith, bytes_eq_refl r.drop_point_id, bytes_eq_refl r.id),
  All-mono rows (λ x k. ground (arith, k)) (Covered-select rows),
)

Covered-delete :
    (dpid sid : Bytes) (on : SubmissionRow → Bool) (rows : List SubmissionRow)
    → Covered (λ r. has_key dpid sid r || on r) rows
    → Covered on (delete_rows (is_receiving_row dpid sid) rows)
unfolding delete_rows
Covered-delete dpid sid on [] h = tt
Covered-delete dpid sid on (r ∷ rows) h = elim (Bool-cases (is_receiving_row dpid sid r)) [
  | inl gone ↦ rw gone (Covered-delete dpid sid on rows h.1)
  | inr stays ↦ rw stays (ground (arith, stays, h.0), Covered-delete dpid sid on rows h.1)
]

abbrev pub NoneReceiving : Tables → Type 0
NoneReceiving t = All (λ r. is_receiving r ≡ false) t.submissions

abbrev Listed : List Submission → Tables → Type 0
Listed list t = Covered (listed list) t.submissions

-- The listing names every receiving row.
receiving_submissions-Listed : Triple (λ _. Unit {0}) receiving_submissions Listed (λ _. Unit {0})
unfolding receiving_submissions query_submissions
receiving_submissions-Listed =
    Triple-weaken (λ t p. p)
      (λ list t q.
        All-mono t.submissions
          (λ r k. ground (
            arith,
            k,
            listed-scan r _ list q.1,
            row_listed-order by_key r (select_rows is_receiving t.submissions),
          ))
          (Covered-select t.submissions))
      (λ t p. p) (Triple-read {P = λ _. Unit {0}} _)

-- The methods of a cleanup pass put no row into that state.
mark_all_expired-Keeps : (dps : List DropPoint) → Keeps NoneReceiving (mark_all_expired dps)
unfolding mark_all_expired mark_expired set_expired
mark_all_expired-Keeps [] = Triple-pure tt (λ t h. h)
mark_all_expired-Keeps (dp ∷ dps) =
    Triple-bind (λ _. NoneReceiving) (Triple-exec _ (λ t h. h) (λ t h. h))
      (λ _. mark_all_expired-Keeps dps)

expire_drop_points-Keeps : (now : ℤ) → Keeps NoneReceiving (expire_drop_points now)
unfolding expire_drop_points query_drop_points
expire_drop_points-Keeps now =
    Triple-bind (λ _. NoneReceiving) (Keeps-read _)
      (λ dps.
        Triple-bind (λ _. NoneReceiving) (mark_all_expired-Keeps dps)
          (λ _. Triple-pure dps (λ t h. h)))

NoneReceiving-Sound : {B : Type 0} (service : Service B) → Sound service NoneReceiving
unfolding delete_receiving_submission remove_receiving clear_submission_files clear_drop_point_files
    purge_terminal_drop_points remove_purgeable
NoneReceiving-Sound service = record {
  recovered = λ dpid sid _.
      Triple-exec _ (λ t h. All-delete _ (is_receiving_row dpid sid) t.submissions h) (λ t h. h);
  cleared = λ dpid sid _.
      Triple-exec _ (λ t h. All-update (has_key dpid sid) cleared_row t.submissions (λ r _ k. k) h)
        (λ t h. h);
  emptied = λ dpid _.
      Triple-exec _
        (λ t h.
          All-update (λ r. bytes_eq r.drop_point_id dpid) cleared_row t.submissions (λ r _ k. k) h)
        (λ t h. h);
  expired = expire_drop_points-Keeps;
  purged = λ _ cutoff. Triple-exec _ (λ t h. All-delete _ _ t.submissions h) (λ t h. h);
}

module _ {B : Type 0} where
  -- What holds of the tables once a step returned.
  record Reaches {A : Type 0} (P : Tables → Type 0) (m : W B A) (Q : A → Tables → Type 0)
      : Type 0 where
    holds : (w : World B) (a : A) → P w.conn.tables → (m w).0 ≡ ok a → Q a (m w).1.conn.tables

  resume-Reaches :
      {A C : Type 0} (Q : A → Tables → Type 0) (R : C → Tables → Type 0) (r : Result A)
      (w : World B) (f : A → W B C) (c : C)
      → ((a : A) → r ≡ ok a → Q a w.conn.tables)
      → ((a : A) → Reaches (Q a) (f a) R)
      → (resume (r, w) f).0 ≡ ok c
      → R c (resume (r, w) f).1.conn.tables
  unfolding resume
  resume-Reaches Q R (ok a) w f c h k e = (k a).holds w c (h a refl) e
  resume-Reaches Q R (err x) w f c h k e = absurd (ground (arith, e))

  Reaches-bind :
      {A C : Type 0} {P : Tables → Type 0} (Q : A → Tables → Type 0) {R : C → Tables → Type 0}
      {m : W B A} {f : A → W B C}
      → Reaches P m Q
      → ((a : A) → Reaches (Q a) (f a) R)
      → Reaches P (m >>= f) R
  unfolding ◌>>=◌
  Reaches-bind Q {R} {m} {f} h k = record {
    holds = λ w c p e. resume-Reaches Q R (m w).0 (m w).1 f c (λ a. h.holds w a p) k e;
  }

  Reaches-repository :
      {A : Type 0} {P E : Tables → Type 0} {Q : A → Tables → Type 0} {m : M A}
      → Triple P m Q E
      → Reaches P (repository m) Q
  unfolding repository
  Reaches-repository h = record { holds = λ w a p e. after_value h w.conn a p e }

  Reaches-blob :
      {A : Type 0} {P : Tables → Type 0} (f : B → Result A × B) → Reaches P (blob f) (λ _. P)
  unfolding blob
  Reaches-blob f = record { holds = λ w a p e. p }

  module _ (service : Service B) where
    recovered_one :
        (s : Submission) (rest : List Submission)
        → Triple
            (Listed (s ∷ rest))
            (delete_receiving_submission s.drop_point_id s.id)
            (λ _. Listed rest)
            (λ _. Unit {0})
    unfolding delete_receiving_submission remove_receiving listed
    recovered_one s rest =
        Triple-exec _ (λ t h. Covered-delete s.drop_point_id s.id (listed rest) t.submissions h)
          (λ t h. tt)

    counted :
        (list : List Submission) → Reaches (Listed list) (count one_recovered) (λ _. Listed list)
    unfolding count
    counted list = record { holds = λ w a p e. p }

    recover_receiving-Reaches :
        (list : List Submission)
        → Reaches (Listed list) (recover_receiving service list) (λ _. NoneReceiving)
    unfolding recover_receiving listed pure
    recover_receiving-Reaches [] = record {
      holds = λ w a p e. All-mono w.conn.tables.submissions (λ r k. ground (arith, k)) p;
    }
    recover_receiving-Reaches (s ∷ rest) =
        Reaches-bind (λ _. Listed (s ∷ rest)) (Reaches-blob _)
          λ _.
            Reaches-bind (λ _. Listed rest) (Reaches-repository (recovered_one s rest))
              λ _.
                Reaches-bind (λ _. Listed rest) (counted rest) (λ _. recover_receiving-Reaches rest)

    reconcile_startup-Reaches :
        (now : ℤ) → Reaches (λ _. Unit {0}) (reconcile_startup service now) (λ _. NoneReceiving)
    unfolding reconcile_startup
    reconcile_startup-Reaches now =
        Reaches-bind Listed (Reaches-repository receiving_submissions-Listed) λ list.
          Reaches-bind (λ _. NoneReceiving) (recover_receiving-Reaches list)
            λ _. record {
              holds = λ w a p e. (expire-Steady (NoneReceiving-Sound service) now).holds w p;
            }

-- Whatever the blob store does and whatever calls of the driver fail: if recovery at startup, with
-- the pass that follows it, returns without an error, no row is in the state of being received.
pub reconcile_startup-NoneReceiving :
    {B : Type 0} (service : Service B) (now : ℤ) (w : World B)
    → (reconcile_startup service now w).0 ≡ ok tt
    → NoneReceiving (reconcile_startup service now w).1.conn.tables
reconcile_startup-NoneReceiving service now w h =
    (reconcile_startup-Reaches service now).holds w tt tt h
