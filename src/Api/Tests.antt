-- ===== src/Api/Tests.antt =====
-- The theorems on the creation of drop points at work on an empty database and the default settings.
use drop_point.Base.{
  take, strip_prefix, ℕ, ◌≡◌, refl, Bool, true, false, Option, some, [], ◌∷◌, ◌++◌, pos, ◌≤ℤ◌, ◌*ℤ◌,
  ltb_ℤ, Bytes, codes, bytes_eq, is_blank, ◌+ℤ◌,
}
use drop_point.Config.{Url, default_config, validate, base_url_problem, lower}
use drop_point.Config.Bounds.{default_config-valid}
use drop_point.DropPoint.{new}
use drop_point.Token.{
  drop_point_id_prefix, drop_token_prefix, pickup_token_prefix, generate, hash_secret, hex,
  valid_sha256_hash, all_hex,
}
use drop_point.Token.Base64.{encode, char_of}
use drop_point.Store.Table.{count_rows, find_row}
use drop_point.Store.Rows.{Tables, no_tables, drop_point_row, scan_api_token}
use drop_point.Store.Sql.{healthy, ◌>>=◌, pure, exec, attempt}
use drop_point.Store.DropPoints.{
  create_drop_point_within_quota, insert_within_quota, insert_checked,
}
use drop_point.Api.{
  AuthenticatedApiToken, authenticate_api_token, authenticate_plaintext, authenticated,
  bearer_token, has_space, accepted, CreateRequest, validate_create_request, Creation, Draw,
  CreateDropPointResponse, generate_from, request_of, response_of, after_attempt, create_attempts,
  create_drop_point, max_pending_submissions,
}
use drop_point.Api.Create.{
  IsGranted, max_int64, nanoseconds_per_second, validate_create_request-IsGranted,
  validate_create_request-defaults, granted-fits_int64,
}
use drop_point.Store.Tests.Data.{api_token}
use drop_point.Store.ApiTokens.{find_enabled_api_token_by_secret_hash}
use drop_point.Api.Access.{IsEnabled, authenticate_api_token-IsEnabled}
use drop_point.Api.Quota.{IsCreated, create_drop_point-IsCreated}

abbrev local : Url
local = record {
  scheme = codes "http";
  host = codes "127.0.0.1:8080";
  hostname = codes "127.0.0.1";
  raw_query = [];
  fragment = [];
  has_user = false;
  path = [];
}

abbrev parse : Bytes → Option Url
parse text = some local

abbrev clean : Bytes → Bool
clean s = true

default_config_valid : validate parse default_config ≡ []
unfolding base_url_problem lower bytes_eq
default_config_valid = default_config-valid parse local refl refl

abbrev no_fields : CreateRequest
no_fields = record {
  client_name = record { value = []; present = false; null = false };
  ttl_seconds = record { value = pos 0; present = false; null = false };
  max_bytes = record { value = pos 0; present = false; null = false };
}

no_fields_granted :
    validate_create_request clean default_config no_fields ≡ accepted (pos 600, pos 52428800)
no_fields_granted =
    validate_create_request-defaults clean parse default_config no_fields default_config_valid
      (refl, refl) (refl, refl) (refl, refl)

validate_create_request-IsGranted_example : IsGranted default_config (pos 600) (pos 52428800)
validate_create_request-IsGranted_example =
    validate_create_request-IsGranted clean default_config no_fields (pos 600) (pos 52428800)
      no_fields_granted

granted-fits_int64_example :
    (pos 52428800 *ℤ max_pending_submissions ≤ℤ max_int64)
    × (pos 52428800 ≤ℤ pos 52428800 *ℤ max_pending_submissions)
    × (pos 600 *ℤ nanoseconds_per_second ≤ℤ max_int64)
granted-fits_int64_example =
    granted-fits_int64 parse default_config (pos 600) (pos 52428800) default_config_valid (
      validate_create_request-IsGranted clean default_config no_fields (pos 600) (pos 52428800)
        no_fields_granted)

abbrev digest : Bytes → Bytes
digest s = 1 ∷ s

abbrev creation : Creation
creation = record {
  api_token_id = 65 ∷ [];
  max_active = pos 3;
  client_name = [];
  ttl = pos 600;
  max_bytes = pos 50;
  now = pos 10;
}

abbrev draws : ℕ → Draw
draws n = record {
  id_secret = some (1 ∷ []);
  drop_secret = some (2 ∷ []);
  pickup_secret = some (3 ∷ []);
  display_name = some (codes "calm-fox");
}

abbrev response : CreateDropPointResponse
response =
    response_of creation (drop_point_id_prefix ++ encode (1 ∷ [])) (codes "calm-fox")
      (drop_token_prefix ++ encode (2 ∷ [])) (pickup_token_prefix ++ encode (3 ∷ [])) (pos 610)

create_drop_point-IsCreated_example :
    IsCreated digest creation response
      (create_drop_point digest creation draws (healthy no_tables)).1.tables
unfolding create_drop_point create_attempts after_attempt generate_from request_of ◌>>=◌ pure new
    generate take create_drop_point_within_quota insert_within_quota insert_checked drop_point_row
    attempt exec count_rows is_blank ltb_ℤ ◌+ℤ◌ hash_secret hex encode char_of ◌*ℤ◌
create_drop_point-IsCreated_example =
    create_drop_point-IsCreated digest creation draws (healthy no_tables) response refl

abbrev authorization : Bytes
authorization = codes "Bearer abc"

abbrev same_bytes : Bytes → Bytes
same_bytes s = s

abbrev thirty_two : Bytes → Bytes
thirty_two s =
    0 ∷ 0 ∷ 0 ∷ 0 ∷ 0 ∷ 0 ∷ 0 ∷ 0 ∷ 0 ∷ 0 ∷ 0 ∷ 0 ∷ 0 ∷ 0 ∷ 0 ∷ 0 ∷ 0 ∷ 0 ∷ 0 ∷ 0 ∷ 0 ∷ 0 ∷ 0 ∷ 0
    ∷ 0 ∷ 0 ∷ 0 ∷ 0 ∷ 0 ∷ 0 ∷ 0 ∷ 0 ∷ []

abbrev one_token : Tables
one_token = record no_tables {
  api_tokens = record api_token { secret_hash = hash_secret thirty_two (codes "abc") } ∷ [];
}

abbrev caller : AuthenticatedApiToken
caller = record { id = 7 ∷ []; max_active_drop_points = pos 3 }

authenticate_api_token-IsEnabled_example :
    IsEnabled thirty_two same_bytes (pos 3) one_token authorization caller
    × ((authenticate_api_token thirty_two same_bytes
          (pos 3)
          authorization
          (healthy one_token)).1.tables
        ≡ one_token)
unfolding authenticate_api_token authenticate_plaintext authenticated bearer_token has_space
    strip_prefix find_enabled_api_token_by_secret_hash valid_sha256_hash hash_secret hex all_hex
    find_row bytes_eq attempt exec pure ◌>>=◌ scan_api_token
authenticate_api_token-IsEnabled_example =
    authenticate_api_token-IsEnabled thirty_two same_bytes (pos 3) authorization (healthy one_token)
      caller refl
