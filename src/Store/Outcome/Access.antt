-- ===== src/Store/Outcome/Access.antt =====
-- `FindOpenDropPointByDropTokenHash` and `AuthorizePickupToken`: whom the tokens let in.
use drop_point.Base.{
  ◌≡◌, ◌≢◌, refl, sym, subst, Bool, true, false, not, none, some, List, [], ◌∷◌, ℤ, Bytes,
  bytes_eq_iff, arith, inl, inr, Option-cases,
}
use drop_point.Errors.{
  Error, ok, err, pickup_token_invalid, drop_token_invalid, drop_point_not_found,
}
use drop_point.DropPoint.{Status, DropPoint, require_open, expire, same_status}
use drop_point.Token.{equal_hash}
use drop_point.Store.Table.{find_row}
use drop_point.Store.Rows.{DropPointRow, Tables, scan_drop_point}
use drop_point.Store.Sql.{Conn, row_or, bind_result}
use drop_point.Store.Sql.Hoare.{
  Triple, Triple-pure, Triple-fail, Triple-if, Triple-bind, Triple-weaken, Triple-read,
  Triple-check, after_value, after_error,
}
use drop_point.Store.Outcome.Settled.{
  settled, Looked, Looked-open, expired_once, expire-keeps, expire_if_due-triple,
}
use drop_point.Store.DropPoints.{
  has_id, has_drop_token_hash, select_drop_point, find_drop_point_by_id,
  find_drop_point_by_drop_token_hash, find_open_drop_point_by_drop_token_hash,
  authorize_pickup_token,
}

pub find_row-passes :
    {A : Type 0} (p : A → Bool) (rows : List A) (r : A) → find_row p rows ≡ some r → p r ≡ true
unfolding find_row
find_row-passes p [] r h = cc
find_row-passes p (s ∷ rows) r h = ground (arith, find_row-passes p rows r)

-- The drop point that a query for one row returns, as it stands in the table.
abbrev pub Recorded : (DropPointRow → Bool) → Tables → DropPoint → Type 0
Recorded p t d =
    (r : DropPointRow) × (find_row p t.drop_points ≡ some r) × (scan_drop_point r ≡ ok d)

selected :
    (p : DropPointRow → Bool) (missing : Error) (t : Tables) (d : DropPoint)
    → bind_result (row_or missing (find_row p t.drop_points)) scan_drop_point ≡ ok d
    → Recorded p t d
selected p missing t d h = elim (Option-cases (find_row p t.drop_points)) [
  | inl gone ↦ absurd (cc (rw gone at h))
  | inr (r, found) ↦ (r, found, rw found at h)
]

-- A property that every recorded drop point found by a query has.
recorded :
    (p : DropPointRow → Bool) (t : Tables) (d : DropPoint)
    → Recorded p t d
    → (r : DropPointRow) × (p r ≡ true) × (scan_drop_point r ≡ ok d)
recorded p t d (r, found, scanned) = (r, find_row-passes p t.drop_points r found, scanned)

require_open-status :
    (dp : DropPoint) (now : ℤ) → require_open dp now ≡ none → dp.status ≢ Status.expired
unfolding require_open same_status
require_open-status dp now h e = ground arith

module _ (t : Tables) (now : ℤ) where
  abbrev Opened : Bytes → DropPoint → Tables → Type 0
  Opened hash d u = Recorded (has_drop_token_hash hash) t d × (require_open d now ≡ none) × (u ≡ t)

  find_open_drop_point-triple :
      (hash : Bytes)
      → Triple
          (λ u. u ≡ t)
          (find_open_drop_point_by_drop_token_hash hash now)
          (Opened hash)
          (λ _. Unit {0})
  unfolding find_open_drop_point_by_drop_token_hash find_drop_point_by_drop_token_hash
      select_drop_point
  find_open_drop_point-triple hash =
      Triple-bind (Looked t now (Recorded (has_drop_token_hash hash) t))
        (Triple-bind (λ d u. (u ≡ t) × Recorded (has_drop_token_hash hash) t d)
          (Triple-weaken (λ u p. p) (λ d u q. (q.0, found d u q.0 q.1)) (λ u p. tt)
            (Triple-read {P = λ u. u ≡ t} _))
          (λ d.
            Triple-weaken (λ u p. p) (λ a u q. q) (λ u p. tt)
              (expire_if_due-triple t now (Recorded (has_drop_token_hash hash) t) d)))
        (λ d.
          Triple-bind (λ _. Opened hash d)
            (Triple-weaken (λ u q. q) (λ _ u q. opened d u q.0 q.1) (λ u q. tt)
              (Triple-check {P = Looked t now (Recorded (has_drop_token_hash hash) t) d}
                (require_open d now)))
            (λ _. Triple-pure d (λ u q. q)))
    where
      found :
          (d : DropPoint) (u : Tables)
          → u ≡ t
          → bind_result
              (row_or drop_token_invalid (find_row (has_drop_token_hash hash) u.drop_points))
              scan_drop_point
            ≡ ok d
          → Recorded (has_drop_token_hash hash) t d
      found d u same h =
          subst (λ v. Recorded (has_drop_token_hash hash) v d) same
            (selected (has_drop_token_hash hash) drop_token_invalid u d h)

      opened :
          (d : DropPoint) (u : Tables)
          → Looked t now (Recorded (has_drop_token_hash hash) t) d u
          → require_open d now ≡ none
          → Opened hash d u
      opened d u q h =
          let (row, same, _) =
            Looked-open t now (Recorded (has_drop_token_hash hash) t) d u q
              (require_open-status d now h) in
          (row, h, same)

  -- The recorded drop point has the identifier, and the presented hash is its own.
  abbrev pub Owned : Bytes → Bytes → DropPoint → Type 0
  Owned id hash d = Recorded (has_id id) t d × (equal_hash d.pickup_token_hash hash ≡ true)

  authorize_pickup_token-triple :
      (id hash : Bytes)
      → Triple
          (λ u. u ≡ t)
          (authorize_pickup_token id hash now)
          (Looked t now (Owned id hash))
          (λ u. u ≡ t)
  unfolding authorize_pickup_token find_drop_point_by_id select_drop_point
  authorize_pickup_token-triple id hash =
      Triple-bind (λ d u. (u ≡ t) × Recorded (has_id id) t d)
        (Triple-weaken (λ u p. p) (λ d u q. (q.0, found d u q.0 q.1)) (λ u p. p)
          (Triple-read {P = λ u. u ≡ t} _))
        (λ d.
          Triple-if (not (equal_hash d.pickup_token_hash hash))
            (λ h. Triple-fail pickup_token_invalid (λ u p. p.0))
            (λ h.
              Triple-weaken (λ u p. (p.0, (p.1, ground (arith, h)))) (λ a u q. q) (λ u p. p)
                (expire_if_due-triple t now (Owned id hash) d)))
    where
      found :
          (d : DropPoint) (u : Tables)
          → u ≡ t
          → bind_result
              (row_or drop_point_not_found (find_row (has_id id) u.drop_points))
              scan_drop_point
            ≡ ok d
          → Recorded (has_id id) t d
      found d u same h =
          subst (λ v. Recorded (has_id id) v d) same
            (selected (has_id id) drop_point_not_found u d h)

Recorded-hash :
    (hash : Bytes) (t : Tables) (d : DropPoint)
    → Recorded (has_drop_token_hash hash) t d
    → d.drop_token_hash ≡ hash
unfolding scan_drop_point
Recorded-hash hash t d q =
    let (r, passes, same) = recorded (has_drop_token_hash hash) t d q in
    ground (arith, bytes_eq_iff r.drop_token_hash hash, passes, same)

pub Recorded-id : (id : Bytes) (t : Tables) (d : DropPoint) → Recorded (has_id id) t d → d.id ≡ id
unfolding scan_drop_point
Recorded-id id t d q =
    let (r, passes, same) = recorded (has_id id) t d q in
    ground (arith, bytes_eq_iff r.id id, passes, same)

-- A drop point returned for an upload stands in the tables under the presented token's hash.
pub find_open_drop_point-Recorded :
    (hash : Bytes) (now : ℤ) (c : Conn) (dp : DropPoint)
    → (find_open_drop_point_by_drop_token_hash hash now c).0 ≡ ok dp
    → Recorded (has_drop_token_hash hash) c.tables dp
find_open_drop_point-Recorded hash now c dp h =
    (after_value (find_open_drop_point-triple c.tables now hash) c dp refl h).0

-- Whatever calls of the driver fail: a drop point returned for an upload has the presented token's
-- hash and accepts work at this moment, and the tables are as before.
pub find_open_drop_point-opened :
    (hash : Bytes) (now : ℤ) (c : Conn) (dp : DropPoint)
    → (find_open_drop_point_by_drop_token_hash hash now c).0 ≡ ok dp
    → (require_open dp now ≡ none)
      × (dp.drop_token_hash ≡ hash)
      × ((find_open_drop_point_by_drop_token_hash hash now c).1.tables ≡ c.tables)
find_open_drop_point-opened hash now c dp h =
    let (row, open', same) =
      after_value (find_open_drop_point-triple c.tables now hash) c dp refl h in
    (open', Recorded-hash hash c.tables dp row, same)

-- What a pick-up is authorized with: the recorded drop point, and what its expiry left.
pub authorize_pickup_token-Looked :
    (id hash : Bytes) (now : ℤ) (c : Conn) (dp : DropPoint)
    → (authorize_pickup_token id hash now c).0 ≡ ok dp
    → Looked c.tables now
        (Owned c.tables now id hash)
        dp
        (authorize_pickup_token id hash now c).1.tables
authorize_pickup_token-Looked id hash now c dp h =
    after_value (authorize_pickup_token-triple c.tables now id hash) c dp refl h

-- Whatever calls of the driver fail: a drop point returned for a pick-up is the one that the tables
-- record under the asked identifier, as expiring it at this moment leaves it, so that no expiry of it
-- is due; it has the presented token's well-formed hash. If its expiry was due, the status of its
-- open row is set to expired; nothing else in the tables changes, and nothing at all if it was not.
pub authorize_pickup_token-authorized :
    (id hash : Bytes) (now : ℤ) (c : Conn) (dp : DropPoint)
    → (authorize_pickup_token id hash now c).0 ≡ ok dp
    → ((dp.id ≡ id) × (equal_hash dp.pickup_token_hash hash ≡ true))
      × ((found : DropPoint) × Recorded (has_id id) c.tables found
          × (dp ≡ (expire found now).0)
          × ((authorize_pickup_token id hash now c).1.tables ≡ settled now found c.tables))
      × ((expire dp now).1 ≡ false)
authorize_pickup_token-authorized id hash now c dp h =
    let (found, owner, same, left) = authorize_pickup_token-Looked id hash now c dp h in
    (
      subst Has (sym same) (
          expire-keeps now Has found (λ status k. k)
            (Recorded-id id c.tables found owner.0, owner.1)),
      (found, owner.0, same, left),
      subst (λ d. (expire d now).1 ≡ false) (sym same) (expired_once now found),
    )
  where
    Has : DropPoint → Type 0
    Has d = (d.id ≡ id) × (equal_hash d.pickup_token_hash hash ≡ true)

-- Whatever calls of the driver fail, a refused pick-up leaves the tables as they were.
pub authorize_pickup_token-refused :
    (id hash : Bytes) (now : ℤ) (c : Conn) (e : Error)
    → (authorize_pickup_token id hash now c).0 ≡ err e
    → (authorize_pickup_token id hash now c).1.tables ≡ c.tables
authorize_pickup_token-refused id hash now c e h =
    after_error (authorize_pickup_token-triple c.tables now id hash) c e refl h
