-- ===== src/DropPoint.antt =====
-- internal/droppoint/droppoint.go: the parent resource, its states and its transitions.
-- Instants and durations are counts of nanoseconds, `pos 0` being Go's zero time; `UTC()` changes
-- the location of an instant and not the instant. Integers are read without wrap-around.
pub mod Lifecycle
mod Tests
use drop_point.Base.{
  ℕ, ◌≡◌, Bool, true, false, ◌&&◌, ◌||◌, not, Option, none, some, ℤ, pos, ◌+ℤ◌, ltb_ℤ, leb_ℤ, Bytes,
  bytes_eq, is_blank, if◌then◌else◌,
}
use drop_point.Errors.{
  Error, Result, ok, err, drop_point_not_open, drop_point_expired, drop_point_closed,
  drop_point_failed, invalid_drop_point, invalid_transition,
}

-- A Go string type: `opened` is "open", and `other` is any string that no constant names.
pub data Status : Type 0 where
  opened closed expired failed : Status
  other : Bytes → Status

unfoldable pub same_status : Status → Status → Bool
unfolding bytes_eq
same_status opened opened = true
same_status closed closed = true
same_status expired expired = true
same_status failed failed = true
same_status (other s) (other t) = bytes_eq s t
same_status _ _ = false

pub record DropPoint : Type 0 where
  pub id : Bytes
  pub api_token_id : Bytes
  pub client_name : Bytes
  pub display_name : Bytes
  pub drop_token_hash : Bytes
  pub pickup_token_hash : Bytes
  pub status : Status
  pub created_at : ℤ
  pub closed_at : Option ℤ
  pub failed_at : Option ℤ
  pub expires_at : ℤ
  pub max_bytes : ℤ
  pub max_pending_submissions : ℤ
  pub max_pending_bytes : ℤ

pub record CreateDropPointRequest : Type 0 where
  pub id : Bytes
  pub api_token_id : Bytes
  pub client_name : Bytes
  pub display_name : Bytes
  pub drop_token_hash : Bytes
  pub pickup_token_hash : Bytes
  pub ttl : ℤ
  pub max_bytes : ℤ
  pub max_pending_submissions : ℤ
  pub max_pending_bytes : ℤ

-- The condition of the guard in `New`.
pub is_malformed : CreateDropPointRequest → Bool
is_malformed req =
    is_blank req.id
    || (is_blank req.api_token_id
        || (is_blank req.display_name
            || (is_blank req.drop_token_hash
                || (is_blank req.pickup_token_hash
                    || (leb_ℤ req.ttl (pos 0)
                        || (leb_ℤ req.max_bytes (pos 0)
                            || (leb_ℤ req.max_pending_submissions (pos 0)
                                || ltb_ℤ req.max_pending_bytes req.max_bytes)))))))

-- The drop point that the end of `New` builds.
pub opening : CreateDropPointRequest → ℤ → DropPoint
opening req now = record {
  id = req.id;
  api_token_id = req.api_token_id;
  client_name = req.client_name;
  display_name = req.display_name;
  drop_token_hash = req.drop_token_hash;
  pickup_token_hash = req.pickup_token_hash;
  status = opened;
  created_at = now;
  closed_at = none;
  failed_at = none;
  expires_at = now +ℤ req.ttl;
  max_bytes = req.max_bytes;
  max_pending_submissions = req.max_pending_submissions;
  max_pending_bytes = req.max_pending_bytes;
}

unfoldable pub new : CreateDropPointRequest → ℤ → Result DropPoint
unfolding is_malformed opening
new req now = if is_malformed req then err invalid_drop_point else ok (opening req now)

-- The `switch` of `RequireOpen`.
status_error : Status → Option Error
status_error opened = none
status_error closed = some drop_point_closed
status_error expired = some drop_point_expired
status_error failed = some drop_point_failed
status_error (other s) = some drop_point_not_open

-- `none` is the nil error. `now.Before(dp.ExpiresAt)` is `ltb_ℤ now dp.expires_at`.
unfoldable pub require_open : DropPoint → ℤ → Option Error
unfolding status_error same_status
require_open dp now =
    if not (ltb_ℤ now dp.expires_at) && same_status dp.status opened
    then some drop_point_expired
    else status_error dp.status

-- The drop point after the call, and whether it changed.
unfoldable pub expire : DropPoint → ℤ → DropPoint × Bool
unfolding same_status
expire dp now =
    if not (same_status dp.status opened) || ltb_ℤ now dp.expires_at
    then (dp, false)
    else (record dp { status = expired }, true)

-- The `switch` of `Close`.
close_status : Status → DropPoint → ℤ → DropPoint × Option Error
close_status closed dp now = (dp, none)
close_status expired dp now = (dp, some drop_point_expired)
close_status failed dp now = (dp, some drop_point_failed)
close_status opened dp now = (record dp { status = closed; closed_at = some now }, none)
close_status (other s) dp now = (dp, some invalid_transition)

-- Go returns the drop point beside the error, so the model does too.
unfoldable pub close : DropPoint → ℤ → DropPoint × Option Error
unfolding expire close_status
close dp now =
    let (expired_dp, changed) = expire dp now in
    if changed then (expired_dp, some drop_point_expired) else close_status dp.status dp now

unfoldable pub fail : DropPoint → ℤ → DropPoint × Option Error
unfolding same_status
fail dp now =
    if same_status dp.status failed
    then (dp, none)
    else if same_status dp.status closed || same_status dp.status expired
    then (dp, some invalid_transition)
    else (record dp { status = failed; failed_at = some now }, none)
