-- ===== src/Store/Refinement/DropPoints.antt =====
-- The methods on drop points do what internal/droppoint/droppoint.go does to one drop point.
use drop_point.Base.{
  ◌≡◌, refl, Bool, ◌&&◌, Option, none, some, ℤ, Bytes, ltb_ℤ, arith, if◌then◌else◌,
}
use drop_point.Errors.{Error, Result, ok, err}
use drop_point.DropPoint.{Status, DropPoint, same_status, require_open, close, fail as fail_domain}
use drop_point.Store.Table.{find_row, update_rows, count_rows}
use drop_point.Store.Rows.{DropPointRow, Tables, scan_drop_point}
use drop_point.Store.Sql.{healthy, pure, fail, ◌>>=◌, exec}
use drop_point.Store.DropPoints.{
  has_id, is_open_row, expired_row, set_expired, mark_expired, select_drop_point,
  find_drop_point_by_id, refuse, refuse_unless_open, is_closable, closed_row, set_closed,
  close_drop_point, failed_row, set_failed, fail_drop_point, unavailable_drop_point_error,
}
use drop_point.Store.Invariant.{IsConsistent}
use drop_point.Store.Refinement.{to_result}
use drop_point.Store.Refinement.Lookup.{drop_points_affected, drop_point_after}

-- The row of an identifier stands for a drop point.
abbrev pub Stores : Tables → Bytes → DropPoint → Type 0
Stores t id dp =
    (row : DropPointRow) × (find_row (has_id id) t.drop_points ≡ some row)
    × (scan_drop_point row ≡ ok dp)

-- For a stored drop point and a driver that does not fail: `CloseDropPoint` reports what `Close` reports and stores the drop point that `Close` returns,
-- an expiry found on the way included.
pub close_drop_point-refines :
    (t : Tables) (id : Bytes) (dp : DropPoint) (now : ℤ)
    → IsConsistent t
    → Stores t id dp
    → ((close_drop_point id now (healthy t)).0 ≡ to_result (close dp now).1)
      × Stores (close_drop_point id now (healthy t)).1.tables id (close dp now).0
unfolding close_drop_point set_closed find_drop_point_by_id select_drop_point refuse_unless_open
    refuse mark_expired set_expired ◌>>=◌ exec pure fail close require_open scan_drop_point
    same_status
close_drop_point-refines t id dp now c (row, found, scanned) =
    (ground (arith, n), (row', ground (arith, n, closed, expired), ground arith))
  where
    is_open : DropPointRow → Bool
    is_open r = same_status r.status Status.opened

    open_in_time : DropPointRow → Bool
    open_in_time r = same_status r.status Status.opened && ltb_ℤ now r.expires_at

    n : count_rows (is_closable id now) t.drop_points ≡ (if open_in_time row then 1 else 0)
    n = drop_points_affected t c id row found open_in_time

    closed :
        find_row (has_id id) (update_rows (is_closable id now) (closed_row now) t.drop_points)
        ≡ some (if open_in_time row then closed_row now row else row)
    closed = drop_point_after t c id row found open_in_time (closed_row now) (λ s. refl)

    expired :
        find_row (has_id id) (update_rows (is_open_row id) expired_row t.drop_points)
        ≡ some (if is_open row then expired_row row else row)
    expired = drop_point_after t c id row found is_open expired_row (λ s. refl)

    row' : DropPointRow
    row' =
        if is_open row
        then if ltb_ℤ now row.expires_at then closed_row now row else expired_row row
        else row

-- Where `Fail` reports a bad transition, `FailDropPoint` names the state that is in the way.
abbrev pub name_state : Status → Option Error → Result (Unit {0})
name_state status none = ok tt
name_state status (some e) = err (unavailable_drop_point_error status)

-- For a stored drop point that has no failure time while open, and a
-- driver that does not fail: `FailDropPoint` stores the drop point that `Fail` returns, succeeds
-- exactly when `Fail` does, and else reports the error of the drop point's state.
pub fail_drop_point-refines :
    (t : Tables) (id : Bytes) (dp : DropPoint) (now : ℤ)
    → IsConsistent t
    → Stores t id dp
    → (dp.status ≡ Status.opened → dp.failed_at ≡ none)
    → ((fail_drop_point id now (healthy t)).0 ≡ name_state dp.status (fail_domain dp now).1)
      × Stores (fail_drop_point id now (healthy t)).1.tables id (fail_domain dp now).0
unfolding fail_drop_point set_failed find_drop_point_by_id select_drop_point ◌>>=◌ exec pure fail
    fail_domain scan_drop_point same_status unavailable_drop_point_error
fail_drop_point-refines t id dp now c (row, found, scanned) fresh =
    (ground (arith, n, after), (row', ground (arith, n, after), ground arith))
  where
    is_open : DropPointRow → Bool
    is_open r = same_status r.status Status.opened

    n : count_rows (is_open_row id) t.drop_points ≡ (if is_open row then 1 else 0)
    n = drop_points_affected t c id row found is_open

    after :
        find_row (has_id id) (update_rows (is_open_row id) (failed_row now) t.drop_points)
        ≡ some (if is_open row then failed_row now row else row)
    after = drop_point_after t c id row found is_open (failed_row now) (λ s. refl)

    row' : DropPointRow
    row' = if is_open row then failed_row now row else row
