-- ===== src/Store/Refinement/Lookup.antt =====
-- Rows found by their key before and after a statement.
use drop_point.Base.{◌≡◌, Bool, true, ◌&&◌, some, Bytes, bytes_eq_iff, arith, if◌then◌else◌}
use drop_point.Store.Table.{find_row, update_rows, count_rows}
use drop_point.Store.Table.Keys.{count_found, find-update_self}
use drop_point.Store.Rows.{DropPointRow, SubmissionRow, Tables}
use drop_point.Store.DropPoints.{has_id}
use drop_point.Store.Queue.{has_key}
use drop_point.Store.Invariant.{same_id, same_key, IsConsistent}
use drop_point.Store.Invariant.Inserts.{same_id_of_has_id}

pub same_key_of_has_key :
    (dpid sid : Bytes) (r s : SubmissionRow)
    → has_key dpid sid r ≡ true
    → has_key dpid sid s ≡ true
    → same_key r s ≡ true
same_key_of_has_key dpid sid r s h k = ground (
  arith,
  bytes_eq_iff r.id sid,
  bytes_eq_iff s.id sid,
  bytes_eq_iff r.drop_point_id dpid,
  bytes_eq_iff s.drop_point_id dpid,
  bytes_eq_iff s.id r.id,
  bytes_eq_iff s.drop_point_id r.drop_point_id,
)

module _ (t : Tables) (c : IsConsistent t) where
  module _ (dpid sid : Bytes) (row : SubmissionRow)
      (found : find_row (has_key dpid sid) t.submissions ≡ some row) where
    -- How many rows an update on the key affects.
    pub affected :
        (q : SubmissionRow → Bool)
        → count_rows (λ s. has_key dpid sid s && q s) t.submissions ≡ (if q row then 1 else 0)
    affected q =
        count_found same_key (has_key dpid sid) (same_key_of_has_key dpid sid) q t.submissions row
          c.keys found

    pub found_after :
        (q : SubmissionRow → Bool) (f : SubmissionRow → SubmissionRow)
        → ((s : SubmissionRow) → has_key dpid sid (f s) ≡ has_key dpid sid s)
        → find_row (has_key dpid sid) (update_rows (λ s. has_key dpid sid s && q s) f t.submissions)
          ≡ some (if q row then f row else row)
    found_after q f keep = find-update_self (has_key dpid sid) q f t.submissions row keep found

  module _ (id : Bytes) (row : DropPointRow)
      (found : find_row (has_id id) t.drop_points ≡ some row) where
    pub drop_points_affected :
        (q : DropPointRow → Bool)
        → count_rows (λ s. has_id id s && q s) t.drop_points ≡ (if q row then 1 else 0)
    drop_points_affected q =
        count_found same_id (has_id id) (same_id_of_has_id id) q t.drop_points row c.ids found

    pub drop_point_after :
        (q : DropPointRow → Bool) (f : DropPointRow → DropPointRow)
        → ((s : DropPointRow) → has_id id (f s) ≡ has_id id s)
        → find_row (has_id id) (update_rows (λ s. has_id id s && q s) f t.drop_points)
          ≡ some (if q row then f row else row)
    drop_point_after q f keep = find-update_self (has_id id) q f t.drop_points row keep found
