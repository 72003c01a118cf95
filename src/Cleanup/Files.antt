-- ===== src/Cleanup/Files.antt =====
-- Rows go only after files: what recovery and a cleanup pass do with the record of a submission whose
-- files the blob store does not delete.
use drop_point.Base.{
  ◌≡◌, ◌⊎◌, inl, inr, refl, sym, subst, ◌∙◌, Bool, true, false, some, List, [], ◌∷◌, ℤ, pos, ltb_ℤ,
  Bytes, bytes_eq, bytes_eq→eq, bytes_eq_iff, arith, Bool-cases,
}
use drop_point.DropPoint.{DropPoint}
use drop_point.Store.Table.{find_row, update_rows}
use drop_point.Store.Rows.{SubmissionRow, Tables}
use drop_point.Store.Sql.Hoare.{Keeps, Keeps-read, Triple-exec, Triple-bind, Triple-pure}
use drop_point.Store.DropPoints.{mark_expired, set_expired}
use drop_point.Store.Queue.{
  has_key, is_receiving_row, remove_receiving, delete_receiving_submission,
}
use drop_point.Store.Submissions.{cleared_row, clear_submission_files, clear_drop_point_files}
use drop_point.Store.Sweep.{has_files, query_drop_points, mark_all_expired, expire_drop_points}
use drop_point.Store.Outcome.Access.{find_row-passes}
use drop_point.Store.Outcome.Sweep.{find-delete, purge_terminal_drop_points-Keeps}
use drop_point.Cleanup.{Service, World, reconcile_startup}
use drop_point.Cleanup.Kept.{Deleted, DeletedAll, Sound, reconcile_startup-Steady}

-- An update of other rows that leaves the keys.
find-update :
    {A : Type 0} (k p : A → Bool) (f : A → A) (rows : List A) (r : A)
    → find_row k rows ≡ some r
    → ((x : A) → k (f x) ≡ k x)
    → ((x : A) → k x ≡ true → p x ≡ false)
    → find_row k (update_rows p f rows) ≡ some r
unfolding find_row update_rows
find-update k p f [] r h same apart = h
find-update k p f (x ∷ rows) r h same apart =
    ground (arith, h, same x, apart x, find-update k p f rows r)

has_key→eq :
    (dpid sid : Bytes) (r : SubmissionRow)
    → has_key dpid sid r ≡ true
    → (r.drop_point_id ≡ dpid) × (r.id ≡ sid)
has_key→eq dpid sid r h =
    (ground (arith, h, bytes_eq_iff r.drop_point_id dpid), ground (arith, h, bytes_eq_iff r.id sid))

module _ (dpid sid : Bytes) (s : SubmissionRow) where
  abbrev pub Found : Tables → Type 0
  Found t = find_row (has_key dpid sid) t.submissions ≡ some s

  mark_all_expired-Found : (dps : List DropPoint) → Keeps Found (mark_all_expired dps)
  unfolding mark_all_expired mark_expired set_expired
  mark_all_expired-Found [] = Triple-pure tt (λ t h. h)
  mark_all_expired-Found (dp ∷ dps) =
      Triple-bind (λ _. Found) (Triple-exec _ (λ t h. h) (λ t h. h))
        (λ _. mark_all_expired-Found dps)

  expire_drop_points-Found : (now : ℤ) → Keeps Found (expire_drop_points now)
  unfolding expire_drop_points query_drop_points
  expire_drop_points-Found now =
      Triple-bind (λ _. Found) (Keeps-read _)
        (λ dps.
          Triple-bind (λ _. Found) (mark_all_expired-Found dps) (λ _. Triple-pure dps (λ t h. h)))

  module _ {B : Type 0} (service : Service B) (held : ¬ Deleted service dpid sid)
      (held_all : ¬ DeletedAll service dpid) where
    -- A submission whose files were deleted is another one.
    other :
        (d i : Bytes)
        → Deleted service d i
        → (r : SubmissionRow) → has_key dpid sid r ≡ true
        → has_key d i r ≡ false
    other d i deleted r h = elim (Bool-cases (has_key d i r)) [
      | inr apart ↦ apart
      | inl same ↦
          let (a, b) = has_key→eq dpid sid r h in
          let (a', b') = has_key→eq d i r same in
          absurd (
            held (
              subst (λ x. Deleted service x sid) (sym a' ∙ a)
                (subst (λ x. Deleted service d x) (sym b' ∙ b) deleted)))
    ]

    other_parent :
        (d : Bytes)
        → DeletedAll service d
        → (r : SubmissionRow) → has_key dpid sid r ≡ true
        → bytes_eq r.drop_point_id d ≡ false
    other_parent d deleted r h = elim (Bool-cases (bytes_eq r.drop_point_id d)) [
      | inr apart ↦ apart
      | inl same ↦ absurd (
          held_all (
            subst (DeletedAll service)
              (sym (bytes_eq→eq r.drop_point_id d same) ∙ (has_key→eq dpid sid r h).0) deleted))
    ]

    recovered-Found :
        (d i : Bytes) → Deleted service d i → Keeps Found (delete_receiving_submission d i)
    unfolding delete_receiving_submission remove_receiving
    recovered-Found d i deleted =
        Triple-exec _
          (λ t h. find-delete (has_key dpid sid) (is_receiving_row d i) t.submissions s h (
            ground
              (arith, other d i deleted s (find_row-passes (has_key dpid sid) t.submissions s h))))
          (λ t h. h)

    cleared-Found : (d i : Bytes) → Deleted service d i → Keeps Found (clear_submission_files d i)
    unfolding clear_submission_files
    cleared-Found d i deleted =
        Triple-exec _
          (λ t h.
            find-update (has_key dpid sid) (has_key d i) cleared_row t.submissions s h (λ r. refl)
              (other d i deleted))
          (λ t h. h)

    emptied-Found : (d : Bytes) → DeletedAll service d → Keeps Found (clear_drop_point_files d)
    unfolding clear_drop_point_files
    emptied-Found d deleted =
        Triple-exec _
          (λ t h.
            find-update (has_key dpid sid) _ cleared_row t.submissions s h (λ r. refl)
              (other_parent d deleted))
          (λ t h. h)

    pub Found-Sound :
        (has_files s ≡ true) ⊎ (ltb_ℤ (pos 0) service.terminal_retention ≡ false)
        → Sound service Found
    Found-Sound safe = record {
      recovered = recovered-Found;
      cleared = cleared-Found;
      emptied = emptied-Found;
      expired = expire_drop_points-Found;
      purged = λ set cutoff. elim safe [
        | inl files ↦ purge_terminal_drop_points-Keeps cutoff dpid sid s files
        | inr unset ↦ absurd (ground (arith, set, unset))
      ];
    }

-- If no call of the blob store reports that it deleted the submission's files, nor all files of its
-- drop point, then recovery at startup and the pass that follows it leave the row of the submission
-- exactly as it was, whatever calls of the driver fail and wherever the first error stops them. The row
-- must name files, or no retention be set, without which no row is purged. So a row that names files
-- is neither deleted nor cleared of its paths before a deletion of these files succeeded.
pub reconcile_startup-keeps_row :
    {B : Type 0} (service : Service B) (now : ℤ) (w : World B) (dpid sid : Bytes)
    (s : SubmissionRow)
    → ¬ Deleted service dpid sid
    → ¬ DeletedAll service dpid
    → (has_files s ≡ true) ⊎ (ltb_ℤ (pos 0) service.terminal_retention ≡ false)
    → find_row (has_key dpid sid) w.conn.tables.submissions ≡ some s
    → find_row (has_key dpid sid) (reconcile_startup service now w).1.conn.tables.submissions
      ≡ some s
reconcile_startup-keeps_row service now w dpid sid s held held_all safe found =
    (reconcile_startup-Steady (Found-Sound dpid sid s service held held_all safe) now).holds w found
