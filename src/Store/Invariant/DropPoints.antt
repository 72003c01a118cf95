-- ===== src/Store/Invariant/DropPoints.antt =====
-- The methods of `Repository` on drop points keep the tables consistent, whichever driver calls fail.
use drop_point.Base.{
  refl, Bool, not, ◌&&◌, ℤ, pos, ◌≤ℤ◌, leb_ℤ, ltb_ℤ, Bytes, Option, none, some, ◌==◌,
}
use drop_point.Errors.{Error, ok, drop_point_expired}
use drop_point.DropPoint.{Status, DropPoint, require_open, same_status as same_drop_status}
use drop_point.Token.{equal_hash}
use drop_point.Store.Table.{update_rows}
use drop_point.Store.Rows.{DropPointRow, Tables, drop_point_row}
use drop_point.Store.Sql.{exec}
use drop_point.Store.Sql.Hoare.{Triple-exec, Keeps-read, Keeps-check}
use drop_point.Store.DropPoints.{
  is_open_row, expired_row, closed_row, is_closable, failed_row as failed_drop_row, set_expired,
  mark_expired, select_drop_point, find_drop_point_by_id, expire_if_due,
  find_drop_point_by_drop_token_hash, find_open_drop_point_by_drop_token_hash,
  authorize_pickup_token, refuse, refuse_unless_open, set_closed, explain_close, close_drop_point,
  set_failed as set_drop_failed, fail_drop_point, create_drop_point_within_quota,
}
use drop_point.Store.Invariant.Updates.{KeepsLimits, update_drop_points-IsConsistent}
use drop_point.Store.Invariant.Inserts.{insert_within_quota-Kept}
use drop_point.Store.Invariant.Safe.{Safe, Safe-pure, Safe-fail, Safe-bind, Safe-if}

-- An update of drop points that leaves their keys and limits alone.
update_drop_points-Safe :
    {A : Type 0} (p : DropPointRow → Bool) (f : DropPointRow → DropPointRow) (out : Tables → A)
    → KeepsLimits f
    → Safe (exec (λ t. (ok (out t), record t { drop_points = update_rows p f t.drop_points })))
update_drop_points-Safe p f out k =
    Triple-exec _ (λ t c. update_drop_points-IsConsistent p f t k c) (λ t c. c)

expired_row-KeepsLimits : KeepsLimits expired_row
expired_row-KeepsLimits = record {
  id = λ r. refl;
  drop_token = λ r. refl;
  slots = λ r. refl;
  bytes = λ r. refl;
}

closed_row-KeepsLimits : (now : ℤ) → KeepsLimits (closed_row now)
closed_row-KeepsLimits now = record {
  id = λ r. refl;
  drop_token = λ r. refl;
  slots = λ r. refl;
  bytes = λ r. refl;
}

failed_row-KeepsLimits : (now : ℤ) → KeepsLimits (failed_drop_row now)
failed_row-KeepsLimits now = record {
  id = λ r. refl;
  drop_token = λ r. refl;
  slots = λ r. refl;
  bytes = λ r. refl;
}

pub mark_expired-Safe : (id : Bytes) → Safe (mark_expired id)
unfolding mark_expired set_expired
mark_expired-Safe id =
    update_drop_points-Safe (is_open_row id) expired_row (λ _. tt) expired_row-KeepsLimits

pub find_drop_point_by_id-Safe : (id : Bytes) → Safe (find_drop_point_by_id id)
unfolding find_drop_point_by_id select_drop_point
find_drop_point_by_id-Safe id = Keeps-read _

pub expire_if_due-Safe : (dp : DropPoint) (now : ℤ) → Safe (expire_if_due dp now)
unfolding expire_if_due
expire_if_due-Safe dp now =
    Safe-if (not (ltb_ℤ now dp.expires_at) && same_drop_status dp.status Status.opened)
      (Safe-bind (mark_expired-Safe dp.id) (λ _. Safe-pure _)) (Safe-pure dp)

pub find_drop_point_by_drop_token_hash-Safe :
    (hash : Bytes) (now : ℤ) → Safe (find_drop_point_by_drop_token_hash hash now)
unfolding find_drop_point_by_drop_token_hash select_drop_point
find_drop_point_by_drop_token_hash-Safe hash now =
    Safe-bind (Keeps-read _) (λ dp. expire_if_due-Safe dp now)

pub find_open_drop_point_by_drop_token_hash-Safe :
    (hash : Bytes) (now : ℤ) → Safe (find_open_drop_point_by_drop_token_hash hash now)
unfolding find_open_drop_point_by_drop_token_hash
find_open_drop_point_by_drop_token_hash-Safe hash now =
    Safe-bind (find_drop_point_by_drop_token_hash-Safe hash now)
      (λ dp. Safe-bind (Keeps-check (require_open dp now)) (λ _. Safe-pure dp))

pub authorize_pickup_token-Safe :
    (id hash : Bytes) (now : ℤ) → Safe (authorize_pickup_token id hash now)
unfolding authorize_pickup_token
authorize_pickup_token-Safe id hash now = Safe-bind (find_drop_point_by_id-Safe id) (λ dp.
    Safe-if (not (equal_hash dp.pickup_token_hash hash)) (Safe-fail _) (expire_if_due-Safe dp now))

refuse-Safe : (id : Bytes) (e : Error) → Safe (refuse id e)
unfolding refuse
refuse-Safe id drop_point_expired = Safe-bind (mark_expired-Safe id) (λ _. Safe-fail _)
refuse-Safe id e = Safe-fail e

pub refuse_unless_open-Safe : (id : Bytes) (e : Option Error) → Safe (refuse_unless_open id e)
unfolding refuse_unless_open
refuse_unless_open-Safe id none = Safe-pure tt
refuse_unless_open-Safe id (some e) = refuse-Safe id e

set_closed-Safe : (id : Bytes) (now : ℤ) → Safe (exec (set_closed id now))
unfolding set_closed
set_closed-Safe id now =
    update_drop_points-Safe (is_closable id now) (closed_row now) _ (closed_row-KeepsLimits now)

explain_close-Safe : (id : Bytes) (now : ℤ) → Safe (explain_close id now)
unfolding explain_close
explain_close-Safe id now = Safe-bind (find_drop_point_by_id-Safe id) (λ dp.
    Safe-if (same_drop_status dp.status Status.closed) (Safe-pure tt)
      (Safe-bind (refuse_unless_open-Safe id (require_open dp now)) (λ _. Safe-fail _)))

pub close_drop_point-Safe : (id : Bytes) (now : ℤ) → Safe (close_drop_point id now)
unfolding close_drop_point
close_drop_point-Safe id now = Safe-bind (find_drop_point_by_id-Safe id) (λ dp.
    Safe-if (same_drop_status dp.status Status.closed) (Safe-pure tt) (
      Safe-bind (refuse_unless_open-Safe id (require_open dp now)) (λ _.
        Safe-bind (set_closed-Safe id now)
          (λ n. Safe-if (n == 1) (Safe-pure tt) (explain_close-Safe id now)))))

set_drop_failed-Safe : (id : Bytes) (now : ℤ) → Safe (exec (set_drop_failed id now))
unfolding set_drop_failed
set_drop_failed-Safe id now =
    update_drop_points-Safe (is_open_row id) (failed_drop_row now) _ (failed_row-KeepsLimits now)

pub fail_drop_point-Safe : (id : Bytes) (now : ℤ) → Safe (fail_drop_point id now)
unfolding fail_drop_point
fail_drop_point-Safe id now = Safe-bind (set_drop_failed-Safe id now) (λ n.
    Safe-if (n == 1) (Safe-pure tt) (
      Safe-bind (find_drop_point_by_id-Safe id)
        (λ dp. Safe-if (same_drop_status dp.status Status.failed) (Safe-pure tt) (Safe-fail _))))

pub create_drop_point_within_quota-Safe :
    (dp : DropPoint) (max_active now : ℤ)
    → pos 0 ≤ℤ dp.max_pending_submissions
    → pos 0 ≤ℤ dp.max_pending_bytes
    → Safe (create_drop_point_within_quota dp max_active now)
unfolding create_drop_point_within_quota drop_point_row
create_drop_point_within_quota-Safe dp max_active now slots bytes =
    Safe-if (leb_ℤ max_active (pos 0)) (Safe-fail _) (
      Safe-bind
        (Triple-exec _
          (λ t c.
            insert_within_quota-Kept _ max_active now t (record { slots = slots; bytes = bytes }) c)
          (λ t c. c))
        (λ n. Safe-if (n == 0) (Safe-fail _) (Safe-pure tt)))
