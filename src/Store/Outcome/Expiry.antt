-- ===== src/Store/Outcome/Expiry.antt =====
-- `ExpireDropPoints`: no open drop point stays past its deadline.
use drop_point.Base.{
  ◌≡◌, refl, Bool, true, false, not, ◌||◌, List, [], ◌∷◌, ℤ, Bytes, bytes_eq, bytes_eq_iff, arith,
  ◌⊎◌, inl, inr, Bool-cases, All,
}
use drop_point.Errors.{Error, Result, ok, err, is_ok}
use drop_point.DropPoint.{DropPoint, same_status}
use drop_point.Store.Table.{select_rows, update_rows, order_by, insert_row}
use drop_point.Store.Table.Update.{All-mono}
use drop_point.Store.Rows.{DropPointRow, Tables, drop_point_of, scan_drop_point}
use drop_point.Store.Sql.{pure, ◌>>=◌, exec, healthy, scan_all}
use drop_point.Store.DropPoints.{is_open_row, expired_row, set_expired, mark_expired}
use drop_point.Store.Sweep.{
  DropPointOrder, is_due, by_id, query_drop_points, mark_all_expired, expire_drop_points,
}

listed : Bytes → List DropPoint → Bool
listed id [] = false
listed id (dp ∷ dps) = bytes_eq dp.id id || listed id dps

row_listed : Bytes → List DropPointRow → Bool
row_listed id [] = false
row_listed id (r ∷ rows) = bytes_eq r.id id || row_listed id rows

row_listed-insert :
    (le : DropPointOrder) (id : Bytes) (r : DropPointRow) (rows : List DropPointRow)
    → row_listed id (insert_row le r rows) ≡ (bytes_eq r.id id || row_listed id rows)
unfolding row_listed insert_row
row_listed-insert le id r [] = refl
row_listed-insert le id r (s ∷ rows) = ground (arith, row_listed-insert le id r rows)

row_listed-order :
    (le : DropPointOrder) (id : Bytes) (rows : List DropPointRow)
    → row_listed id (order_by le rows) ≡ row_listed id rows
unfolding row_listed order_by
row_listed-order le id [] = refl
row_listed-order le id (r ∷ rows) =
    ground (arith, row_listed-insert le id r (order_by le rows), row_listed-order le id rows)

pub scan_cases : {A : Type 0} (r : Result A) → ((a : A) × (r ≡ ok a)) ⊎ ((e : Error) × (r ≡ err e))
scan_cases (ok a) = inl (a, refl)
scan_cases (err e) = inr (e, refl)

listed-scan :
    (id : Bytes) (rows : List DropPointRow) (dps : List DropPoint)
    → scan_all scan_drop_point rows ≡ ok dps
    → listed id dps ≡ row_listed id rows
unfolding scan_all scan_drop_point row_listed listed
listed-scan id [] dps h = ground arith
listed-scan id (r ∷ rows) dps h = elim (scan_cases (scan_all scan_drop_point rows)) [
  | inl (rest, e) ↦ ground (arith, e, listed-scan id rows rest e, h)
  | inr (x, e) ↦ ground (arith, e, h)
]

-- Every due row is among some identifiers.
abbrev Covered : ℤ → (Bytes → Bool) → List DropPointRow → Type 0
Covered now on rows = All (λ r. (not (is_due now r) || on r.id) ≡ true) rows

Covered-mono :
    (now : ℤ) (on on' : Bytes → Bool) (rows : List DropPointRow)
    → ((id : Bytes) → on id ≡ true → on' id ≡ true)
    → Covered now on rows
    → Covered now on' rows
Covered-mono now on on' rows h = All-mono rows (λ r k. ground (arith, k, h r.id))

Covered-select :
    (now : ℤ) (rows : List DropPointRow)
    → Covered now (λ id. row_listed id (select_rows (is_due now) rows)) rows
unfolding select_rows row_listed
Covered-select now [] = tt
Covered-select now (r ∷ rows) = (
  ground (arith, bytes_eq_iff r.id r.id),
  Covered-mono now _ _ rows (λ id e. ground (arith, e)) (Covered-select now rows),
)

Covered-expire :
    (now : ℤ) (id : Bytes) (on : Bytes → Bool) (rows : List DropPointRow)
    → Covered now (λ i. bytes_eq id i || on i) rows
    → Covered now on (update_rows (is_open_row id) expired_row rows)
unfolding update_rows same_status
Covered-expire now id on [] h = tt
Covered-expire now id on (r ∷ rows) h = (
  ground (arith, h.0, bytes_eq_iff id r.id, bytes_eq_iff r.id id),
  Covered-expire now id on rows h.1,
)

-- After the loop no due drop point is left.
marked :
    (now : ℤ) (dps : List DropPoint) (t : Tables)
    → Covered now (λ id. listed id dps) t.drop_points
    → All (λ r. is_due now r ≡ false) (mark_all_expired dps (healthy t)).1.tables.drop_points
unfolding mark_all_expired mark_expired set_expired ◌>>=◌ exec pure listed
marked now [] t h = All-mono t.drop_points (λ r k. ground (arith, k)) h
marked now (dp ∷ dps) t h =
    marked now dps _ (Covered-expire now dp.id (λ id. listed id dps) t.drop_points h)

All-select :
    {A : Type 0} (p : A → Bool) (rows : List A) → All (λ r. p r ≡ true) (select_rows p rows)
unfolding select_rows
All-select p [] = tt
All-select p (r ∷ rows) = elim (Bool-cases (p r)) [
  | inl e ↦ rw e (e, All-select p rows)
  | inr e ↦ rw e (All-select p rows)
]

All-insert :
    {A : Type 0} (P : A → Type 0) (le : A → A → Bool) (a : A) (rows : List A)
    → P a
    → All P rows
    → All P (insert_row le a rows)
unfolding insert_row
All-insert P le a [] h k = (h, tt)
All-insert P le a (r ∷ rows) h k = elim (Bool-cases (le a r)) [
  | inl e ↦ rw e (h, k)
  | inr e ↦ rw e (k.0, All-insert P le a rows h k.1)
]

All-order :
    {A : Type 0} (P : A → Type 0) (le : A → A → Bool) (rows : List A)
    → All P rows
    → All P (order_by le rows)
unfolding order_by
All-order P le [] h = tt
All-order P le (r ∷ rows) h = All-insert P le r (order_by le rows) h.0 (All-order P le rows h.1)

-- A due row is open, so its scan succeeds.
scan_due :
    (now : ℤ) (rows : List DropPointRow)
    → All (λ r. is_due now r ≡ true) rows
    → (dps : List DropPoint) × (scan_all scan_drop_point rows ≡ ok dps)
unfolding scan_all scan_drop_point same_status
scan_due now [] h = ([], refl)
scan_due now (r ∷ rows) h =
    let (dps, e) = scan_due now rows h.1 in (drop_point_of r ∷ dps, ground (arith, e, h.0))

mark_all_expired-ok :
    (dps : List DropPoint) (t : Tables) → (mark_all_expired dps (healthy t)).0 ≡ ok tt
unfolding mark_all_expired mark_expired set_expired ◌>>=◌ exec pure
mark_all_expired-ok [] t = refl
mark_all_expired-ok (dp ∷ dps) t = mark_all_expired-ok dps _

-- On a driver that does not fail `ExpireDropPoints` returns, and no open drop point is past its
-- deadline afterwards.
pub expire_drop_points-none_due :
    (now : ℤ) (t : Tables)
    → (is_ok (expire_drop_points now (healthy t)).0 ≡ true)
      × All (λ r. is_due now r ≡ false) (expire_drop_points now (healthy t)).1.tables.drop_points
unfolding expire_drop_points query_drop_points ◌>>=◌ exec pure
expire_drop_points-none_due now t =
    rw (scanned, mark_all_expired-ok dps t) (refl, marked now dps t covered)
  where
    due : List DropPointRow
    due = select_rows (is_due now) t.drop_points

    found : (dps : List DropPoint) × (scan_all scan_drop_point (order_by by_id due) ≡ ok dps)
    found =
        scan_due now (order_by by_id due)
          (All-order (λ r. is_due now r ≡ true) by_id due (All-select (is_due now) t.drop_points))

    dps : List DropPoint
    dps = found.0

    scanned : scan_all scan_drop_point (order_by by_id due) ≡ ok dps
    scanned = found.1

    covered : Covered now (λ id. listed id dps) t.drop_points
    covered =
        Covered-mono now (λ id. row_listed id due) (λ id. listed id dps) t.drop_points
          (λ id k. ground (arith, k, listed-scan id _ dps scanned, row_listed-order by_id id due))
          (Covered-select now t.drop_points)
