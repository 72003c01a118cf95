-- ===== src/Api.antt =====
-- internal/httpapi: authentication and the creation of drop points. The response is its status and
-- its error code, or the value that the body shows. JSON, MIME and Unicode tables are parameters.
pub mod Create
pub mod Quota
pub mod Access
mod Tests
use drop_point.Base.{
  ℕ, zero, suc, ◌+◌, Bool, true, false, not, ◌&&◌, ◌||◌, Option, none, some, List, [], ◌∷◌, ℤ, pos,
  ◌*ℤ◌, ltb_ℤ, leb_ℤ, Bytes, codes, is_empty, is_blank, strip_prefix, length, leb, ltb, ◌==◌,
  if◌then◌else◌,
}
use drop_point.Errors.{
  Error, Result, ok, err, api_token_not_found, active_drop_point_quota_exceeded, generation_failed,
  identifiers_exhausted,
}
use drop_point.Config.{Config}
use drop_point.DropPoint.{DropPoint, CreateDropPointRequest, new}
use drop_point.Token.{
  drop_point_id_prefix, drop_token_prefix, pickup_token_prefix, generate, hash_secret,
}
use drop_point.Store.Rows.{ApiToken}
use drop_point.Store.Sql.{M, pure, fail, ◌>>=◌, attempt, is_unique_constraint}
use drop_point.Store.DropPoints.{create_drop_point_within_quota}
use drop_point.Store.ApiTokens.{find_enabled_api_token_by_secret_hash}

-- `writeError`, or a value to go on with.
pub data Reply (A : Type 0) : Type 0 where
  refused : ℕ → Bytes → Reply A
  accepted : A → Reply A

abbrev pub is_refused : {A : Type 0} → Reply A → Bool
is_refused (refused status code) = true
is_refused (accepted a) = false

-- `presentValue`
pub record PresentValue (A : Type 0) : Type 0 where
  pub value : A
  pub present : Bool
  pub null : Bool

pub record CreateRequest : Type 0 where
  pub client_name : PresentValue Bytes
  pub ttl_seconds : PresentValue ℤ
  pub max_bytes : PresentValue ℤ

-- `clean` tells whether a string is UTF-8 without control and format characters.
unfoldable pub valid_client_name : (Bytes → Bool) → Bytes → Bool
valid_client_name clean value =
    not (is_empty value) && (leb (length value) 128 && (not (is_blank value) && clean value))

abbrev pub or_default : PresentValue ℤ → ℤ → ℤ
or_default v default = if v.present then v.value else default

-- The value that each field has, and the first complaint.
unfoldable pub validate_create_request : (Bytes → Bool) → Config → CreateRequest → Reply (ℤ × ℤ)
validate_create_request clean config req =
    let ttl = or_default req.ttl_seconds config.default_ttl_seconds in
    let bytes = or_default req.max_bytes config.default_max_bytes in
    if req.client_name.null
      || (req.client_name.present && not (valid_client_name clean req.client_name.value))
    then refused 400 (codes "client_name_invalid")
    else if req.ttl_seconds.null
    then refused 400 (codes "ttl_seconds_invalid")
    else if leb_ℤ ttl (pos 0)
    then refused 400 (codes "ttl_seconds_invalid")
    else if ltb_ℤ config.max_ttl_seconds ttl
    then refused 400 (codes "ttl_seconds_too_large")
    else if req.max_bytes.null
    then refused 400 (codes "max_bytes_invalid")
    else if leb_ℤ bytes (pos 0)
    then refused 400 (codes "max_bytes_invalid")
    else if ltb_ℤ config.max_bytes bytes
    then refused 400 (codes "max_bytes_too_large")
    else accepted (ttl, bytes)

-- `strings.ContainsAny(value, " \t\r\n")`
unfoldable pub has_space : Bytes → Bool
has_space [] = false
has_space (c ∷ cs) = (c == 32 || (c == 9 || (c == 13 || c == 10))) || has_space cs

abbrev pub nonempty_token : Bytes → Option Bytes
nonempty_token value = if is_empty value || has_space value then none else some value

-- `strings.TrimSpace` is `trim`.
unfoldable pub bearer_token : (Bytes → Bytes) → Bytes → Option Bytes
bearer_token trim authorization = elim (strip_prefix (codes "Bearer ") authorization) [
  | none ↦ none
  | some rest ↦ nonempty_token (trim rest)
]

pub record AuthenticatedApiToken : Type 0 where
  pub id : Bytes
  pub max_active_drop_points : ℤ

abbrev pub limit_of : Option ℤ → ℤ → ℤ
limit_of none default = default
limit_of (some n) default = n

-- `errors.Is(err, store.ErrAPITokenNotFound)`
unfoldable pub is_api_token_not_found : Error → Bool
is_api_token_not_found api_token_not_found = true
is_api_token_not_found _ = false

-- `none` is the result "not authenticated".
unfoldable pub authenticated : ℤ → Result ApiToken → M (Option AuthenticatedApiToken)
authenticated default (ok t) = pure (
    some (record { id = t.id; max_active_drop_points = limit_of t.max_active_drop_points default }))
authenticated default (err e) = if is_api_token_not_found e then pure none else fail e

unfoldable pub authenticate_plaintext :
    (Bytes → Bytes) → ℤ → Option Bytes → M (Option AuthenticatedApiToken)
authenticate_plaintext sha256 default none = pure none
authenticate_plaintext sha256 default (some plaintext) = do
  found ← attempt (find_enabled_api_token_by_secret_hash (hash_secret sha256 plaintext))
  authenticated default found

unfoldable pub authenticate_api_token :
    (sha256 trim : Bytes → Bytes) → ℤ → Bytes → M (Option AuthenticatedApiToken)
authenticate_api_token sha256 trim default authorization =
    authenticate_plaintext sha256 default (bearer_token trim authorization)

-- What one attempt draws: the secrets of crypto/rand and the name of `dropname.Generate`; `none` is
-- the error of either.
pub record Draw : Type 0 where
  pub id_secret : Option Bytes
  pub drop_secret : Option Bytes
  pub pickup_secret : Option Bytes
  pub display_name : Option Bytes

pub record CreateDropPointResponse : Type 0 where
  pub drop_point_id : Bytes
  pub display_name : Bytes
  pub drop_token : Bytes
  pub pickup_token : Bytes
  pub expires_at : ℤ
  pub max_bytes : ℤ
  pub max_pending_submissions : ℤ
  pub max_pending_bytes : ℤ

abbrev pub drawn : Option Bytes → M Bytes
drawn none = fail generation_failed
drawn (some s) = pure s

unfoldable pub generate_from : Bytes → Option Bytes → M Bytes
generate_from prefix none = fail generation_failed
generate_from prefix (some secret) = drawn (generate prefix secret)

abbrev pub made : Result DropPoint → M DropPoint
made (ok dp) = pure dp
made (err e) = fail e

-- What `createDropPoint` is given.
pub record Creation : Type 0 where
  pub api_token_id : Bytes
  pub max_active : ℤ
  pub client_name : Bytes
  pub ttl : ℤ
  pub max_bytes : ℤ
  pub now : ℤ

abbrev pub max_pending_submissions : ℤ
max_pending_submissions = pos 10

unfoldable pub request_of :
    (Bytes → Bytes) → Creation → (id name drop_token pickup_token : Bytes) → CreateDropPointRequest
request_of sha256 c id name drop_token pickup_token = record {
  id = id;
  api_token_id = c.api_token_id;
  client_name = c.client_name;
  display_name = name;
  drop_token_hash = hash_secret sha256 drop_token;
  pickup_token_hash = hash_secret sha256 pickup_token;
  ttl = c.ttl;
  max_bytes = c.max_bytes;
  max_pending_submissions = max_pending_submissions;
  max_pending_bytes = c.max_bytes *ℤ max_pending_submissions;
}

abbrev pub response_of :
    Creation → (id name drop_token pickup_token : Bytes) → ℤ → CreateDropPointResponse
response_of c id name drop_token pickup_token expires_at = record {
  drop_point_id = id;
  display_name = name;
  drop_token = drop_token;
  pickup_token = pickup_token;
  expires_at = expires_at;
  max_bytes = c.max_bytes;
  max_pending_submissions = max_pending_submissions;
  max_pending_bytes = c.max_bytes *ℤ max_pending_submissions;
}

-- The end of an attempt: a collision is retried, with `again`, while an attempt is left.
unfoldable pub after_attempt :
    ℕ
    → M CreateDropPointResponse
    → CreateDropPointResponse
    → Result (Unit {0})
    → M CreateDropPointResponse
after_attempt left again response (ok done) = pure response
after_attempt left again response (err e) =
    if not (left == 0) && is_unique_constraint e then again else fail e

-- The loop: `left` attempts remain after the one made.
unfoldable pub create_attempts :
    (Bytes → Bytes) → Creation → (ℕ → Draw) → ℕ → M CreateDropPointResponse
create_attempts sha256 c draws zero = fail identifiers_exhausted
create_attempts sha256 c draws (suc left) =
    let again = create_attempts sha256 c draws left in
    do
      id ← generate_from drop_point_id_prefix (draws left).id_secret
      drop_token ← generate_from drop_token_prefix (draws left).drop_secret
      pickup_token ← generate_from pickup_token_prefix (draws left).pickup_secret
      name ← drawn (draws left).display_name
      dp ← made (new (request_of sha256 c id name drop_token pickup_token) c.now)
      stored ← attempt (create_drop_point_within_quota dp c.max_active c.now)
      after_attempt left again (response_of c id name drop_token pickup_token dp.expires_at) stored

unfoldable pub create_drop_point :
    (Bytes → Bytes) → Creation → (ℕ → Draw) → M CreateDropPointResponse
create_drop_point sha256 c draws = create_attempts sha256 c draws 3
