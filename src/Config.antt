-- ===== src/Config.antt =====
-- internal/config/config.go: the settings of the relay, their defaults, their overrides from the
-- environment and their validation. `net/url.Parse`, `strconv.Atoi`/`ParseInt` and `os.LookupEnv`
-- are parameters; reading the JSON file is not modelled.
pub mod Bounds
mod Tests
use drop_point.Base.{
  ℕ, ◌+◌, Bool, true, false, not, ◌&&◌, ◌||◌, Option, none, some, List, [], ◌∷◌, ◌++◌, ℤ, pos,
  ltb_ℤ, leb_ℤ, Bytes, codes, String, bytes_eq, is_empty, ltb, leb, if◌then◌else◌,
}

abbrev pub max_configured_duration_seconds : ℤ
max_configured_duration_seconds = pos 31536000

abbrev pub max_configured_payload_bytes : ℤ
max_configured_payload_bytes = pos 1099511627776

pub record Config : Type 0 where
  pub listen_addr : Bytes
  pub base_url : Bytes
  pub data_dir : Bytes
  pub default_ttl_seconds : ℤ
  pub max_ttl_seconds : ℤ
  pub default_max_bytes : ℤ
  pub max_bytes : ℤ
  pub default_max_active_drop_points : ℤ
  pub read_timeout_seconds : ℤ
  pub write_timeout_seconds : ℤ
  pub cleanup_interval_seconds : ℤ
  pub terminal_retention_seconds : ℤ

-- `Default`.
abbrev pub default_config : Config
default_config = record {
  listen_addr = codes "127.0.0.1:8080";
  base_url = codes "http://127.0.0.1:8080";
  data_dir = codes ".data/droppoint";
  default_ttl_seconds = pos 600;
  max_ttl_seconds = pos 900;
  default_max_bytes = pos 52428800;
  max_bytes = pos 52428800;
  default_max_active_drop_points = pos 3;
  read_timeout_seconds = pos 600;
  write_timeout_seconds = pos 600;
  cleanup_interval_seconds = pos 60;
  terminal_retention_seconds = pos 2592000;
}

-- The errors that `Validate` and the overrides collect.
pub data Problem : Type 0 where
  listen_addr_empty data_dir_empty : Problem
  base_url_invalid base_url_incomplete base_url_scheme base_url_query base_url_user base_url_path :
      Problem
  duration_out_of_range : Bytes → Problem
  default_ttl_exceeds_max default_max_bytes_range max_bytes_range default_max_bytes_exceeds_max :
      Problem
  max_active_not_positive : Problem
  not_an_integer : Bytes → Problem

-- What the code reads of a parsed URL.
pub record Url : Type 0 where
  pub scheme : Bytes
  pub host : Bytes
  pub hostname : Bytes
  pub raw_query : Bytes
  pub fragment : Bytes
  pub has_user : Bool
  pub path : Bytes

abbrev pub problem_if : Bool → Problem → List Problem
problem_if bad p = if bad then p ∷ [] else []

unfoldable pub lower : Bytes → Bytes
lower [] = []
lower (c ∷ cs) = (if leb 65 c && leb c 90 then c + 32 else c) ∷ lower cs

-- `strings.EqualFold` on a scheme, which is ASCII once it is parsed.
abbrev pub equal_fold : Bytes → Bytes → Bool
equal_fold s t = bytes_eq (lower s) t

-- `validateBaseURL` behind its call of `url.Parse`.
unfoldable pub base_url_problem : Option Url → List Problem
base_url_problem none = base_url_invalid ∷ []
base_url_problem (some u) =
    if is_empty u.scheme || (is_empty u.host || is_empty u.hostname)
    then base_url_incomplete ∷ []
    else if not (equal_fold u.scheme (codes "http")) && not (equal_fold u.scheme (codes "https"))
    then base_url_scheme ∷ []
    else if not (is_empty u.raw_query) || not (is_empty u.fragment)
    then base_url_query ∷ []
    else if u.has_user
    then base_url_user ∷ []
    else problem_if (not (is_empty u.path) && not (bytes_eq u.path (codes "/"))) base_url_path

unfoldable pub bad_duration : ℤ → Bool
bad_duration value = leb_ℤ value (pos 0) || ltb_ℤ max_configured_duration_seconds value

unfoldable pub bad_size : ℤ → Bool
bad_size value = leb_ℤ value (pos 0) || ltb_ℤ max_configured_payload_bytes value

abbrev pub validate_duration_seconds : Bytes → ℤ → List Problem
validate_duration_seconds name value = problem_if (bad_duration value) (duration_out_of_range name)

unfoldable pub validate : (Bytes → Option Url) → Config → List Problem
validate parse c =
    problem_if (is_empty c.listen_addr) listen_addr_empty
    ++ base_url_problem (parse c.base_url)
    ++ problem_if (is_empty c.data_dir) data_dir_empty
    ++ validate_duration_seconds (codes "default_ttl_seconds") c.default_ttl_seconds
    ++ validate_duration_seconds (codes "max_ttl_seconds") c.max_ttl_seconds
    ++ problem_if (ltb_ℤ c.max_ttl_seconds c.default_ttl_seconds) default_ttl_exceeds_max
    ++ problem_if (bad_size c.default_max_bytes) default_max_bytes_range
    ++ problem_if (bad_size c.max_bytes) max_bytes_range
    ++ problem_if (ltb_ℤ c.max_bytes c.default_max_bytes) default_max_bytes_exceeds_max
    ++ problem_if (leb_ℤ c.default_max_active_drop_points (pos 0)) max_active_not_positive
    ++ validate_duration_seconds (codes "read_timeout_seconds") c.read_timeout_seconds
    ++ validate_duration_seconds (codes "write_timeout_seconds") c.write_timeout_seconds
    ++ validate_duration_seconds (codes "cleanup_interval_seconds") c.cleanup_interval_seconds
    ++ validate_duration_seconds (codes "terminal_retention_seconds") c.terminal_retention_seconds

-- A parsed value, 0 where it does not parse, and its error.
abbrev pub parsed_or_zero : Option ℤ → ℤ
parsed_or_zero none = pos 0
parsed_or_zero (some n) = n

abbrev pub parse_problem : Bytes → Option ℤ → List Problem
parse_problem name none = not_an_integer name ∷ []
parse_problem name (some n) = []

-- One entry of the table `overrides`, under the variable's value if it is set.
abbrev pub Override : Type 0
Override = Bytes → Config × List Problem → Config × List Problem

abbrev pub override_text : (Config → Bytes → Config) → Override
override_text set value (c, ps) = (set c value, ps)

abbrev pub override_number : (Bytes → Option ℤ) → Bytes → (Config → ℤ → Config) → Override
override_number atoi name set value (c, ps) =
    (set c (parsed_or_zero (atoi value)), ps ++ parse_problem name (atoi value))

unfoldable pub apply_override :
    Option Bytes → Override → Config × List Problem → Config × List Problem
apply_override none set acc = acc
apply_override (some value) set acc = set value acc

-- The table, in its order, with `strconv.Atoi`/`ParseInt` as `atoi`.
abbrev pub overrides : (Bytes → Option ℤ) → List (Bytes × Override)
overrides atoi =
    (codes "DROPPOINT_LISTEN_ADDR", override_text (λ c v. record c { listen_addr = v }))
    ∷ (codes "DROPPOINT_BASE_URL", override_text (λ c v. record c { base_url = v }))
    ∷ (codes "DROPPOINT_DATA_DIR", override_text (λ c v. record c { data_dir = v }))
    ∷ number "DROPPOINT_DEFAULT_TTL_SECONDS" (λ c n. record c { default_ttl_seconds = n })
    ∷ number "DROPPOINT_MAX_TTL_SECONDS" (λ c n. record c { max_ttl_seconds = n })
    ∷ number "DROPPOINT_DEFAULT_MAX_BYTES" (λ c n. record c { default_max_bytes = n })
    ∷ number "DROPPOINT_MAX_BYTES" (λ c n. record c { max_bytes = n })
    ∷ number "DROPPOINT_DEFAULT_MAX_ACTIVE_DROP_POINTS"
        (λ c n. record c { default_max_active_drop_points = n })
    ∷ number "DROPPOINT_READ_TIMEOUT_SECONDS" (λ c n. record c { read_timeout_seconds = n })
    ∷ number "DROPPOINT_WRITE_TIMEOUT_SECONDS" (λ c n. record c { write_timeout_seconds = n })
    ∷ number "DROPPOINT_CLEANUP_INTERVAL_SECONDS" (λ c n. record c { cleanup_interval_seconds = n })
    ∷ number "DROPPOINT_TERMINAL_RETENTION_SECONDS"
        (λ c n. record c { terminal_retention_seconds = n })
    ∷ []
  where
    number : String → (Config → ℤ → Config) → Bytes × Override
    number name set = (codes name, override_number atoi (codes name) set)

unfoldable pub apply_all :
    (Bytes → Option Bytes) → List (Bytes × Override) → Config × List Problem → Config × List Problem
unfolding apply_override
apply_all lookup [] acc = acc
apply_all lookup ((name, set) ∷ rest) acc =
    apply_all lookup rest (apply_override (lookup name) set acc)

unfoldable pub apply_environment_overrides :
    (Bytes → Option ℤ) → (Bytes → Option Bytes) → Config → Config × List Problem
apply_environment_overrides atoi lookup c = apply_all lookup (overrides atoi) (c, [])
