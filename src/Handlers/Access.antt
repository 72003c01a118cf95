-- ===== src/Handlers/Access.antt =====
-- Whom the handlers of the receiver and of pickups serve, and what they do for anyone else.
use drop_point.Base.{
  ℕ, ◌≡◌, refl, sym, ap, subst, ◌∙◌, true, false, Option, none, some, ℤ, Bytes, is_empty, arith,
  Bool-cases, inl, inr,
}
use drop_point.Errors.{Error, Result, ok, err}
use drop_point.DropPoint.{Status, DropPoint, expire, require_open, same_status}
use drop_point.Token.{hash_secret, equal_hash}
use drop_point.Crypto.Envelope.{Decoder}
use drop_point.Api.{refused, bearer_token}
use drop_point.Store.Rows.{Tables}
use drop_point.Store.DropPoints.{has_id, authorize_pickup_token}
use drop_point.Store.Outcome.Settled.{Looked, Looked-open}
use drop_point.Store.Outcome.Access.{
  Recorded, Recorded-id, Owned, authorize_pickup_token-Looked, authorize_pickup_token-refused,
}
use drop_point.Handlers.{
  BlobStore, Server, H, resume, ◌>>=◌, respond, refuse, repository, pickup_found, authorize_bearer,
  authorize_pickup,
}
use drop_point.Handlers.Receiver.{
  handle_get_drop_point_status, handle_list_submissions, handle_acknowledge_submission,
  handle_close_drop_point,
}
use drop_point.Handlers.Pickup.{PickupRequest, handle_pickup_submission}
use drop_point.Handlers.Hoare.{Answers, Answers-respond, Answers-refuse, Answers-if, Answers-bind}

-- The header carries a token whose hash is that of the drop point with the identifier.
abbrev pub Presented :
    (sha256 trim : Bytes → Bytes) → (id authorization : Bytes) → DropPoint → Type 0
Presented sha256 trim id authorization dp =
    (pickup_token : Bytes) × (bearer_token trim authorization ≡ some pickup_token)
    × (dp.id ≡ id)
    × (equal_hash dp.pickup_token_hash (hash_secret sha256 pickup_token) ≡ true)

-- The drop point that the tables record under the identifier: it is open, past no deadline, and the
-- header carries the token whose hash it holds.
abbrev pub Serves :
    (sha256 trim : Bytes → Bytes) → ℤ → (id authorization : Bytes) → Tables → DropPoint → Type 0
Serves sha256 trim now id authorization t dp =
    Presented sha256 trim id authorization dp
    × Recorded (has_id id) t dp
    × (dp.status ≡ Status.opened)
    × (require_open dp now ≡ none)

-- The files and the tables are as before.
abbrev pub Unchanged : {B : Type 0} → Server B → Server B → Type 0
Unchanged s after = (after.blobs ≡ s.blobs) × (after.conn.tables ≡ s.conn.tables)

-- A handler that asks for the token first ends with its refusal.
first-refused :
    {A C B : Type 0} (m : H B A) (f : A → H B C) (s : Server B) (status : ℕ) (code : Bytes)
    → (m s).0 ≡ refused status code
    → (m >>= f) s ≡ (refused status code, (m s).1)
unfolding ◌>>=◌ resume
first-refused m f s status code h = ap (λ r. resume (r, (m s).1) f) h

abbrev pub Stops : {A B : Type 0} → H B A → Server B → ℕ → Bytes → Type 0
Stops m s status code = ((m s).0 ≡ refused status code) × Unchanged s (m s).1

open-require_open :
    (dp : DropPoint) (now : ℤ)
    → dp.status ≡ Status.opened
    → (expire dp now).1 ≡ false
    → require_open dp now ≡ none
unfolding expire require_open same_status
open-require_open dp now s h = ground arith

module _ {B : Type 0} (sha256 trim : Bytes → Bytes) (now : ℤ) (id authorization : Bytes) where
  -- The drop point as the token let it through, on the tables `t` at the start.
  abbrev pub Let : Tables → DropPoint → Server B → Type 0
  Let t dp s =
      (pickup_token : Bytes) × (bearer_token trim authorization ≡ some pickup_token)
      × Looked t now (Owned t now id (hash_secret sha256 pickup_token)) dp s.conn.tables

  pickup_found-Answers :
      (F : DropPoint → Server B → Type 0) (r : Result DropPoint)
      → Answers {B = B} (λ s. (dp : DropPoint) → r ≡ ok dp → F dp s) (pickup_found r) F
  unfolding pickup_found
  pickup_found-Answers F (ok dp) = Answers-respond dp (λ s h. h dp refl)
  pickup_found-Answers F (err e) = Answers-refuse _ _

  bearer-Let :
      (t : Tables) (o : Option Bytes)
      → bearer_token trim authorization ≡ o
      → Answers {B = B} (λ s. s.conn.tables ≡ t) (authorize_bearer sha256 now id o) (Let t)
  unfolding repository
  bearer-Let t none e = Answers-refuse _ _
  bearer-Let t (some v) e =
      Answers-bind (λ r s. (dp : DropPoint) → r ≡ ok dp → Let t dp s)
        (record {
          holds = λ s p dp h. (
            v,
            e,
            subst
                (λ u.
                  Looked u now (Owned u now id (hash_secret sha256 v)) dp
                    (authorize_pickup_token id (hash_secret sha256 v) now s.conn).1.tables)
                p (authorize_pickup_token-Looked id (hash_secret sha256 v) now s.conn dp h),
          );
        })
        (pickup_found-Answers (Let t))

  pub authorize_pickup-Let :
      (t : Tables)
      → Answers {B = B}
          (λ s. s.conn.tables ≡ t)
          (authorize_pickup sha256 trim now id authorization)
          (Let t)
  unfolding authorize_pickup
  authorize_pickup-Let t =
      Answers-if (is_empty id) (λ _. Answers-refuse _ _)
        (λ _. bearer-Let t (bearer_token trim authorization) refl)

  -- Past the check of the status, the drop point is the recorded one, and nothing has changed.
  pub Let-Serves :
      (t : Tables) (dp : DropPoint) (s : Server B)
      → Let t dp s
      → dp.status ≡ Status.opened
      → Serves sha256 trim now id authorization t dp × (s.conn.tables ≡ t)
  Let-Serves t dp s (v, header, looked) open' =
      let (owner, same, early) =
        Looked-open t now (Owned t now id (hash_secret sha256 v)) dp s.conn.tables looked
          (λ e. cc) in
      (
        (
          (v, header, Recorded-id id t dp owner.0, owner.1),
          owner.0,
          open',
          open-require_open dp now open' early,
        ),
        same,
      )

  pickup_found-refused :
      (r : Result DropPoint) (s : Server B) (status : ℕ) (code : Bytes)
      → (pickup_found r s).0 ≡ refused status code
      → (e : Error) × (r ≡ err e) × ((pickup_found r s).1 ≡ s)
  unfolding pickup_found respond refuse
  pickup_found-refused (ok dp) s status code h = absurd (ground (arith, h))
  pickup_found-refused (err e) s status code h = (e, refl, refl)

  bearer-Unchanged :
      (o : Option Bytes) (s : Server B) (status : ℕ) (code : Bytes)
      → (authorize_bearer sha256 now id o s).0 ≡ refused status code
      → Unchanged s (authorize_bearer sha256 now id o s).1
  unfolding repository refuse ◌>>=◌
  bearer-Unchanged none s status code h = (refl, refl)
  bearer-Unchanged (some t) s status code h =
      let (e, failed, same) = pickup_found-refused _ _ status code h in
      (
        ap (λ x. x.blobs) same,
        ap (λ x. x.conn.tables) same
            ∙ authorize_pickup_token-refused id (hash_secret sha256 t) now s.conn e failed,
      )

  authorize_pickup-Unchanged :
      (s : Server B) (status : ℕ) (code : Bytes)
      → (authorize_pickup sha256 trim now id authorization s).0 ≡ refused status code
      → Unchanged s (authorize_pickup sha256 trim now id authorization s).1
  unfolding authorize_pickup refuse
  authorize_pickup-Unchanged s status code h = elim (Bool-cases (is_empty id)) [
    | inl empty ↦ rw empty (refl, refl)
    | inr given ↦
        rw given (bearer-Unchanged (bearer_token trim authorization) s status code (rw given at h))
  ]

  stops :
      {A : Type 0} (f : DropPoint → H B A) (s : Server B) (status : ℕ) (code : Bytes)
      → (authorize_pickup sha256 trim now id authorization s).0 ≡ refused status code
      → Stops (authorize_pickup sha256 trim now id authorization >>= f) s status code
  stops f s status code h =
      let same =
        first-refused (authorize_pickup sha256 trim now id authorization) f s status code h in
      (
        ap (λ x. x.0) same,
        subst (λ x. Unchanged s x.1) (sym same) (authorize_pickup-Unchanged s status code h),
      )

-- A caller whose pickup token is refused gets that refusal from each of the handlers behind the token,
-- and none of them changes a file or a row.
pub authorize_pickup-Stops :
    {B : Type 0} (blob_store : BlobStore B) (json : Decoder) (sha256 trim : Bytes → Bytes)
    (later : ℤ) (sid : Bytes) (r : PickupRequest) (s : Server B) (status : ℕ) (code : Bytes)
    → (authorize_pickup sha256 trim r.now r.drop_point_id r.authorization s).0 ≡ refused status code
    → Stops
        (handle_get_drop_point_status blob_store sha256 trim r.now r.drop_point_id r.authorization)
        s
        status
        code
      × Stops
          (handle_list_submissions blob_store sha256 trim r.now r.drop_point_id r.authorization)
          s
          status
          code
      × Stops
          (handle_acknowledge_submission blob_store sha256 trim r.now later r.drop_point_id sid
            r.authorization)
          s
          status
          code
      × Stops
          (handle_close_drop_point blob_store sha256 trim r.now later r.drop_point_id
            r.authorization)
          s
          status
          code
      × Stops (handle_pickup_submission blob_store json sha256 trim r) s status code
unfolding handle_get_drop_point_status handle_list_submissions handle_acknowledge_submission
    handle_close_drop_point handle_pickup_submission
authorize_pickup-Stops blob_store json sha256 trim later sid r s status code h =
    (stop _, stop _, stop _, stop _, stop _)
  where
    stop :
        {A : Type 0} (f : DropPoint → H _ A)
        → Stops
            (authorize_pickup sha256 trim r.now r.drop_point_id r.authorization >>= f)
            s
            status
            code
    stop f = stops sha256 trim r.now r.drop_point_id r.authorization f s status code h
