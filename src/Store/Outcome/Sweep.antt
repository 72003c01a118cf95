-- ===== src/Store/Outcome/Sweep.antt =====
-- `PurgeTerminalDropPoints` and `ExpireDropPoints`: what the cleanup queries never touch, and what
-- they do not leave behind.
use drop_point.Base.{
  ◌≡◌, refl, ap, Bool, true, false, not, ◌&&◌, some, List, [], ◌∷◌, ℤ, Bytes, bytes_eq,
  bytes_eq_iff, arith, ◌==◌, inl, inr, Bool-cases,
}
use drop_point.DropPoint.{Status, same_status}
use drop_point.Store.Table.{find_row, select_rows, delete_rows, count_rows}
use drop_point.Store.Rows.{DropPointRow, SubmissionRow, Tables}
use drop_point.Store.Sql.{Conn, exec}
use drop_point.Store.Sql.Hoare.{Triple-exec, Keeps, Keeps-after}
use drop_point.Store.DropPoints.{has_id}
use drop_point.Store.Queue.{has_key}
use drop_point.Store.Sweep.{
  has_files, is_terminal, is_purgeable, is_child_of, remove_purgeable, purge_terminal_drop_points,
}

pub find-delete :
    {A : Type 0} (k p : A → Bool) (rows : List A) (r : A)
    → find_row k rows ≡ some r
    → p r ≡ false
    → find_row k (delete_rows p rows) ≡ some r
unfolding find_row delete_rows
find-delete k p [] r h e = h
find-delete k p (s ∷ rows) r h e = ground (arith, find-delete k p rows r)

count-positive :
    {A : Type 0} (k q : A → Bool) (rows : List A) (r : A)
    → find_row k rows ≡ some r
    → q r ≡ true
    → (count_rows q rows == 0) ≡ false
unfolding find_row count_rows
count-positive k q [] r h e = cc
count-positive k q (s ∷ rows) r h e = ground (arith, count-positive k q rows r)

count-select :
    {A : Type 0} (q p : A → Bool) (rows : List A)
    → ((r : A) → p r ≡ true → q r ≡ false)
    → (count_rows q (select_rows p rows) == 0) ≡ true
unfolding count_rows select_rows
count-select q p [] h = refl
count-select q p (r ∷ rows) h = ground (arith, h r, count-select q p rows)

module _ (t : Tables) (cutoff : ℤ) where
  open_kept :
      (r : DropPointRow) → r.status ≡ Status.opened → is_purgeable cutoff t.submissions r ≡ false
  unfolding is_purgeable is_terminal same_status
  open_kept r h = ground arith

  stored_kept :
      (dpid sid : Bytes) (s : SubmissionRow)
      → find_row (has_key dpid sid) t.submissions ≡ some s
      → has_files s ≡ true
      → (r : DropPointRow) → is_purgeable cutoff t.submissions r ≡ true
      → bytes_eq r.id s.drop_point_id ≡ false
  unfolding is_purgeable
  stored_kept dpid sid s found files r h = elim (Bool-cases (bytes_eq r.id s.drop_point_id)) [
    | inl same ↦ absurd (
        ground (
          arith,
          count-positive (has_key dpid sid) (λ s. bytes_eq s.drop_point_id r.id && has_files s)
              t.submissions s found,
          bytes_eq_iff r.id s.drop_point_id,
          bytes_eq_iff s.drop_point_id r.id,
        ))
    | inr other ↦ other
  ]

-- Whatever calls of the driver fail, a purge leaves every open drop point as it was.
pub purge-keeps_open :
    (cutoff : ℤ) (c : Conn) (id : Bytes) (r : DropPointRow)
    → find_row (has_id id) c.tables.drop_points ≡ some r
    → r.status ≡ Status.opened
    → find_row (has_id id) (purge_terminal_drop_points cutoff c).1.tables.drop_points ≡ some r
unfolding purge_terminal_drop_points remove_purgeable
purge-keeps_open cutoff c id r found open' = Keeps-after kept c found
  where
    Found : Tables → Type 0
    Found t = find_row (has_id id) t.drop_points ≡ some r

    kept : Keeps Found (exec (remove_purgeable cutoff))
    kept =
        Triple-exec (remove_purgeable cutoff)
          (λ t h. find-delete (has_id id) _ t.drop_points r h (open_kept t cutoff r open'))
          (λ t h. h)

pub purge_terminal_drop_points-Keeps :
    (cutoff : ℤ) (dpid sid : Bytes) (s : SubmissionRow)
    → has_files s ≡ true
    → Keeps
        (λ t. find_row (has_key dpid sid) t.submissions ≡ some s)
        (purge_terminal_drop_points cutoff)
unfolding purge_terminal_drop_points remove_purgeable is_child_of
purge_terminal_drop_points-Keeps cutoff dpid sid s files =
    Triple-exec (remove_purgeable cutoff)
      (λ t h. find-delete (has_key dpid sid) _ t.submissions s h (
        ap not (
          count-select (λ r. bytes_eq r.id s.drop_point_id) _ t.drop_points
            (stored_kept t cutoff dpid sid s h files))))
      (λ t h. h)
