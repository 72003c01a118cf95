-- ===== src/Api/Quota.antt =====
-- What a created drop point leaves in the database, through every retry.
use drop_point.Base.{
  ℕ, zero, suc, ◌≡◌, refl, sym, ap, subst, ◌∙◌, not, ◌&&◌, Option, none, some, List, ◌∷◌, pos, ◌≤ℤ◌,
  Bytes, ◌==◌,
}
use drop_point.Errors.{Result, ok, err}
use drop_point.DropPoint.{DropPoint, new}
use drop_point.DropPoint.Lifecycle.{new_opens}
use drop_point.Token.{hash_secret}
use drop_point.Store.Table.{count_rows}
use drop_point.Store.Rows.{DropPointRow, Tables, drop_point_row}
use drop_point.Store.Sql.{Conn, M, ◌>>=◌, attempt, is_unique_constraint}
use drop_point.Store.Sql.Hoare.{
  Post, Triple, Triple-pure, Triple-fail, Triple-if, Triple-bind, Triple-weaken, Triple-attempt,
  after_value,
}
use drop_point.Store.DropPoints.{is_active, create_drop_point_within_quota}
use drop_point.Store.Outcome.Quota.{create_drop_point-triple}
use drop_point.Api.{
  Creation, Draw, CreateDropPointResponse, drawn, generate_from, made, request_of, response_of,
  after_attempt, create_attempts, create_drop_point,
}

module _ (sha256 : Bytes → Bytes) (c : Creation) where
  -- The newest row is the response's drop point, open to its two tokens, and the API token is within
  -- its quota.
  abbrev pub IsCreated : CreateDropPointResponse → Tables → Type 0
  IsCreated response u =
      ((row : DropPointRow) × (rest : List DropPointRow) × (u.drop_points ≡ row ∷ rest)
        × (row.id ≡ response.drop_point_id)
        × (row.api_token_id ≡ c.api_token_id)
        × (row.drop_token_hash ≡ hash_secret sha256 response.drop_token)
        × (row.pickup_token_hash ≡ hash_secret sha256 response.pickup_token)
        × (row.expires_at ≡ response.expires_at))
      × (pos (count_rows (is_active c.api_token_id c.now) u.drop_points) ≤ℤ c.max_active)

  abbrev Any : Tables → Type 0
  Any u = Unit {0}

  drawn-triple : (s : Option Bytes) → Triple Any (drawn s) (λ _. Any) Any
  drawn-triple none = Triple-fail _ (λ u p. p)
  drawn-triple (some s) = Triple-pure s (λ u p. p)

  generate_from-triple :
      (prefix : Bytes) (s : Option Bytes) → Triple Any (generate_from prefix s) (λ _. Any) Any
  unfolding generate_from
  generate_from-triple prefix none = Triple-fail _ (λ u p. p)
  generate_from-triple prefix (some s) = drawn-triple _

  made-triple : (r : Result DropPoint) → Triple Any (made r) (λ dp _. r ≡ ok dp) Any
  made-triple (ok dp) = Triple-pure dp (λ u p. refl)
  made-triple (err e) = Triple-fail e (λ u p. p)

  abbrev Kept : DropPoint → Unit {0} → Tables → Type 0
  Kept dp done u =
      ((rest : List DropPointRow) × (u.drop_points ≡ drop_point_row dp ∷ rest))
      × (pos (count_rows (is_active dp.api_token_id c.now) u.drop_points) ≤ℤ c.max_active)

  Kept-triple :
      (dp : DropPoint)
      → Triple Any (create_drop_point_within_quota dp c.max_active c.now) (Kept dp) Any
  Kept-triple dp = record {
    holds = λ conn p.
        (Triple-weaken (λ t q. q) (λ a u s. ((conn.tables.drop_points, s.0), s.2)) (λ u e. e)
            (create_drop_point-triple dp c.max_active c.now conn.tables)).holds
          conn refl;
  }

  after_attempt-triple :
      (left : ℕ) (again : M CreateDropPointResponse) (response : CreateDropPointResponse)
      (dp : DropPoint)
      → Triple Any again IsCreated Any
      → ((u : Tables) → Kept dp tt u → IsCreated response u)
      → (r : Result (Unit {0}))
      → Triple (Post (Kept dp) Any r) (after_attempt left again response r) IsCreated Any
  unfolding after_attempt
  after_attempt-triple left again response dp retry done (ok a) =
      Triple-pure response (λ u k. done u k)
  after_attempt-triple left again response dp retry done (err e) =
      Triple-if (not (left == 0) && is_unique_constraint e) (λ _. retry)
        (λ _. Triple-fail e (λ u p. p))

  created :
      (id name drop_token pickup_token : Bytes) (dp : DropPoint)
      (response : CreateDropPointResponse)
      → new (request_of sha256 c id name drop_token pickup_token) c.now ≡ ok dp
      → (response.drop_point_id ≡ id)
        × (response.drop_token ≡ drop_token)
        × (response.pickup_token ≡ pickup_token)
        × (response.expires_at ≡ dp.expires_at)
      → (u : Tables) → Kept dp tt u
      → IsCreated response u
  unfolding request_of drop_point_row
  created id name drop_token pickup_token dp response e (i, d, p, x) u ((rest, stored), quota) =
      let (_, _, same_id, same_drop, same_pickup, same_token, _) =
        new_opens (request_of sha256 c id name drop_token pickup_token) c.now dp e in
      (
        (
          drop_point_row dp,
          rest,
          stored,
          same_id ∙ sym i,
          same_token,
          same_drop ∙ ap (hash_secret sha256) (sym d),
          same_pickup ∙ ap (hash_secret sha256) (sym p),
          sym x,
        ),
        subst (λ a. pos (count_rows (is_active a c.now) u.drop_points) ≤ℤ c.max_active) same_token
            quota,
      )

  -- The end of an attempt, once its drop point is made.
  store-triple :
      (left : ℕ) (again : M CreateDropPointResponse) (response : CreateDropPointResponse)
      (dp : DropPoint)
      → Triple Any again IsCreated Any
      → ((u : Tables) → Kept dp tt u → IsCreated response u)
      → Triple Any
          (attempt (create_drop_point_within_quota dp c.max_active c.now)
            >>= after_attempt left again response)
          IsCreated
          Any
  store-triple left again response dp retry done =
      Triple-bind (λ r. Post (Kept dp) Any r) (Triple-attempt (Kept-triple dp))
        (after_attempt-triple left again response dp retry done)

  given :
      {A : Type 0} {X : Type 0} {m : M A} {Q : A → Tables → Type 0}
      → (X → Triple Any m Q Any)
      → Triple (λ _. X) m Q Any
  given h = record { holds = λ conn x. (h x).holds conn tt }

  create_attempts-triple :
      (draws : ℕ → Draw) (left : ℕ) → Triple Any (create_attempts sha256 c draws left) IsCreated Any
  unfolding create_attempts
  create_attempts-triple draws zero = Triple-fail _ (λ u p. p)
  create_attempts-triple draws (suc left) =
      Triple-bind (λ _. Any) (generate_from-triple _ _)
        (λ id.
          Triple-bind (λ _. Any) (generate_from-triple _ _)
            (λ drop_token.
              Triple-bind (λ _. Any) (generate_from-triple _ _)
                (λ pickup_token.
                  Triple-bind (λ _. Any) (drawn-triple _)
                    (λ name.
                      Triple-bind
                        (λ dp _.
                          new (request_of sha256 c id name drop_token pickup_token) c.now ≡ ok dp)
                        (made-triple _)
                        (λ dp. given (λ e.
                          store-triple left _
                            (response_of c id name drop_token pickup_token dp.expires_at) dp
                            (create_attempts-triple draws left)
                            (created id name drop_token pickup_token dp
                              (response_of c id name drop_token pickup_token dp.expires_at) e
                              (refl, refl, refl, refl))))))))

-- Whatever calls of the driver fail, however often identifiers collide and whatever is drawn: when
-- a drop point is created, the newest row has the identifier and deadline of the response, belongs
-- to the API token and holds the hashes of the two tokens of the response, and the API token has at
-- most as many active drop points as it may have.
pub create_drop_point-IsCreated :
    (sha256 : Bytes → Bytes) (c : Creation) (draws : ℕ → Draw) (conn : Conn)
    (response : CreateDropPointResponse)
    → (create_drop_point sha256 c draws conn).0 ≡ ok response
    → IsCreated sha256 c response (create_drop_point sha256 c draws conn).1.tables
unfolding create_drop_point
create_drop_point-IsCreated sha256 c draws conn response h =
    after_value (create_attempts-triple sha256 c draws 3) conn response tt h
