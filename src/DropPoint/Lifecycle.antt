-- ===== src/DropPoint/Lifecycle.antt =====
-- The lifecycle of a drop point in internal/droppoint/droppoint.go, over any sequence of calls.
use drop_point.Base.{
  ◌≡◌, refl, sym, ap, subst, ◌∙◌, ◌↔◌, ◌⊎◌, Bool, true, false, Option, none, some, List, [], ◌∷◌,
  arith, ℤ, pos, ◌≤ℤ◌, ◌<ℤ◌, ltb_ℤ, ltb_ℤ→lt, ltb_ℤ_false→le, lt→ltb_ℤ, le→ltb_ℤ_false, int_laws,
}
use drop_point.Errors.{ok}
use drop_point.DropPoint.{
  Status, DropPoint, CreateDropPointRequest, is_malformed, opening, new, same_status, require_open,
  expire, close, fail,
}

-- A drop point accepts work exactly while its state is `opened` and its deadline lies ahead.
pub require_open-none :
    (dp : DropPoint) (now : ℤ)
    → (require_open dp now ≡ none) ↔ ((dp.status ≡ Status.opened) × (now <ℤ dp.expires_at))
unfolding require_open
require_open-none dp now = (
  λ h. ground (arith, ltb_ℤ→lt now dp.expires_at),
  λ h. ground (arith, lt→ltb_ℤ now dp.expires_at h.1, h.0),
)

pub data Call : Type 0 where
  closes fails expires : ℤ → Call

pub apply : DropPoint → Call → DropPoint
apply dp (closes now) = (close dp now).0
apply dp (fails now) = (fail dp now).0
apply dp (expires now) = (expire dp now).0

pub run : DropPoint → List Call → DropPoint
unfolding apply
run dp [] = dp
run dp (c ∷ cs) = run (apply dp c) cs

abbrev pub IsTerminal : DropPoint → Type 0
IsTerminal dp =
    (dp.status ≡ Status.closed) ⊎ ((dp.status ≡ Status.expired) ⊎ (dp.status ≡ Status.failed))

apply_terminal : (dp : DropPoint) (c : Call) → IsTerminal dp → apply dp c ≡ dp
unfolding apply close fail expire
apply_terminal dp (closes now) h = ground arith
apply_terminal dp (fails now) h = ground arith
apply_terminal dp (expires now) h = ground arith

-- A closed, expired or failed drop point is never changed again, by any sequence of calls.
pub run_terminal : (dp : DropPoint) (cs : List Call) → IsTerminal dp → run dp cs ≡ dp
unfolding run
run_terminal dp [] h = refl
run_terminal dp (c ∷ cs) h = ap (λ d. run d cs) (apply_terminal dp c h) ∙ run_terminal dp cs h

abbrev pub is_some {ℓ} : {A : Type ℓ} → Option A → Bool
is_some none = false
is_some (some a) = true

abbrev pub is_known : Status → Bool
is_known (Status.other s) = false
is_known _ = true

-- A drop point's limits make sense, and its stamps tell how it reached its state: it has a closing
-- stamp exactly when closed, a failure stamp exactly when failed, and it closed before its deadline.
pub record IsRecorded (dp : DropPoint) : Type 0 where
  pub known : is_known dp.status ≡ true
  pub closed_stamp : is_some dp.closed_at ≡ same_status dp.status Status.closed
  pub failed_stamp : is_some dp.failed_at ≡ same_status dp.status Status.failed
  pub in_time : (t : ℤ) → dp.closed_at ≡ some t → t <ℤ dp.expires_at
  pub lifetime : dp.created_at <ℤ dp.expires_at
  pub limit_positive : pos 0 <ℤ dp.max_bytes
  pub slots_positive : pos 0 <ℤ dp.max_pending_submissions
  pub room_for_one : dp.max_bytes ≤ℤ dp.max_pending_bytes

is_malformed-false :
    (req : CreateDropPointRequest)
    → is_malformed req ≡ false
    → (ltb_ℤ (pos 0) req.ttl ≡ true)
      × (ltb_ℤ (pos 0) req.max_bytes ≡ true)
      × (ltb_ℤ (pos 0) req.max_pending_submissions ≡ true)
      × (ltb_ℤ req.max_pending_bytes req.max_bytes ≡ false)
unfolding is_malformed
is_malformed-false req h = ground arith

opening-IsRecorded :
    (req : CreateDropPointRequest) (now : ℤ)
    → is_malformed req ≡ false
    → IsRecorded (opening req now)
unfolding opening same_status
opening-IsRecorded req now h =
    let (ttl, bytes, slots, room) = is_malformed-false req h in
    record {
      known = refl;
      closed_stamp = refl;
      failed_stamp = refl;
      in_time = λ t e. absurd (cc e);
      lifetime = omega (int_laws, ltb_ℤ→lt (pos 0) req.ttl ttl);
      limit_positive = ltb_ℤ→lt (pos 0) req.max_bytes bytes;
      slots_positive = ltb_ℤ→lt (pos 0) req.max_pending_submissions slots;
      room_for_one = ltb_ℤ_false→le req.max_pending_bytes req.max_bytes room;
    }

new-ok :
    (req : CreateDropPointRequest) (now : ℤ) (dp : DropPoint)
    → new req now ≡ ok dp
    → (is_malformed req ≡ false) × (opening req now ≡ dp)
unfolding new
new-ok req now dp e = ground arith

-- What `new` makes is open at the instant it is made, carries the request's identity, tokens and
-- limits, and is well formed.
pub new_opens :
    (req : CreateDropPointRequest) (now : ℤ) (dp : DropPoint)
    → new req now ≡ ok dp
    → IsRecorded dp
      × (require_open dp now ≡ none)
      × (dp.id ≡ req.id)
      × (dp.drop_token_hash ≡ req.drop_token_hash)
      × (dp.pickup_token_hash ≡ req.pickup_token_hash)
      × (dp.api_token_id ≡ req.api_token_id)
      × (dp.max_bytes ≡ req.max_bytes)
unfolding opening
new_opens req now dp e =
    let (good, same) = new-ok req now dp e in
    let recorded : IsRecorded dp = subst IsRecorded same (opening-IsRecorded req now good) in
    let created : dp.created_at ≡ now = sym (ap (λ d. d.created_at) same) in
    let state : dp.status ≡ Status.opened = sym (ap (λ d. d.status) same) in
    let ahead : now <ℤ dp.expires_at = rw created at recorded.lifetime in
    (
      recorded,
      (require_open-none dp now).1 (state, ahead),
      sym (ap (λ d. d.id) same),
      sym (ap (λ d. d.drop_token_hash) same),
      sym (ap (λ d. d.pickup_token_hash) same),
      sym (ap (λ d. d.api_token_id) same),
      sym (ap (λ d. d.max_bytes) same),
    )

apply-IsRecorded : (dp : DropPoint) (c : Call) → IsRecorded dp → IsRecorded (apply dp c)
unfolding apply close fail expire
apply-IsRecorded dp (closes now) r = ground (arith, ltb_ℤ→lt now dp.expires_at)
apply-IsRecorded dp (fails now) r = ground arith
apply-IsRecorded dp (expires now) r = ground arith

-- Every sequence of calls keeps a drop point well formed and its stamps true to its state.
pub run-IsRecorded : (dp : DropPoint) (cs : List Call) → IsRecorded dp → IsRecorded (run dp cs)
unfolding run
run-IsRecorded dp [] r = r
run-IsRecorded dp (c ∷ cs) r = run-IsRecorded (apply dp c) cs (apply-IsRecorded dp c r)

-- `close` succeeds exactly on a drop point that is closed already or still accepts work; it
-- succeeds exactly when the drop point is closed afterwards; afterwards the drop point is expired
-- exactly if it was or if it was open past its deadline; and only an open one is changed.
pub close_outcome :
    (dp : DropPoint) (now : ℤ)
    → (((close dp now).1 ≡ none) ↔ ((dp.status ≡ Status.closed) ⊎ (require_open dp now ≡ none)))
      × (((close dp now).1 ≡ none) ↔ ((close dp now).0.status ≡ Status.closed))
      × (((close dp now).0.status ≡ Status.expired)
          ↔ ((dp.status ≡ Status.expired) ⊎ ((dp.status ≡ Status.opened) × (dp.expires_at ≤ℤ now))))
      × ((dp.status ≡ Status.opened) ⊎ ((close dp now).0 ≡ dp))
unfolding close require_open
close_outcome dp now = (
  (λ h. ground arith, λ h. ground arith),
  (λ h. ground arith, λ h. ground arith),
  (
    λ h. ground (arith, ltb_ℤ_false→le now dp.expires_at),
    λ h. ground (arith, le→ltb_ℤ_false now dp.expires_at),
  ),
  ground arith,
)
