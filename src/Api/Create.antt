-- ===== src/Api/Create.antt =====
-- What a request to create a drop point leads to under a validated configuration.
use drop_point.Base.{
  ◌≡◌, Bool, true, false, Option, [], ℤ, pos, ◌≤ℤ◌, ◌<ℤ◌, ◌*ℤ◌, ltb_ℤ, Bytes, arith, int_laws,
  *ℤ-pos_parts, ltb_ℤ→lt, ltb_ℤ_false→le, lt→ltb_ℤ, le→ltb_ℤ_false,
}
use drop_point.Config.{Config, Url, validate}
use drop_point.Config.Bounds.{validate-WithinLimits}
use drop_point.Api.{accepted, CreateRequest, validate_create_request, max_pending_submissions}

abbrev pub max_int64 : ℤ
max_int64 = pos 9223372036854775807

abbrev pub nanoseconds_per_second : ℤ
nanoseconds_per_second = pos 1000000000

-- What an accepted request asks for.
pub record IsGranted (config : Config) (ttl bytes : ℤ) : Type 0 where
  pub ttl_positive : pos 0 <ℤ ttl
  pub ttl_allowed : ttl ≤ℤ config.max_ttl_seconds
  pub bytes_positive : pos 0 <ℤ bytes
  pub bytes_allowed : bytes ≤ℤ config.max_bytes

accepted_tests :
    (clean : Bytes → Bool) (config : Config) (req : CreateRequest) (ttl bytes : ℤ)
    → validate_create_request clean config req ≡ accepted (ttl, bytes)
    → (ltb_ℤ (pos 0) ttl ≡ true)
      × (ltb_ℤ config.max_ttl_seconds ttl ≡ false)
      × (ltb_ℤ (pos 0) bytes ≡ true)
      × (ltb_ℤ config.max_bytes bytes ≡ false)
unfolding validate_create_request
accepted_tests clean config req ttl bytes h = ground arith

-- An accepted request asks for a positive time to live and a positive size within the configured
-- maxima.
pub validate_create_request-IsGranted :
    (clean : Bytes → Bool) (config : Config) (req : CreateRequest) (ttl bytes : ℤ)
    → validate_create_request clean config req ≡ accepted (ttl, bytes)
    → IsGranted config ttl bytes
validate_create_request-IsGranted clean config req ttl bytes h =
    let (a, b, c, d) = accepted_tests clean config req ttl bytes h in
    record {
      ttl_positive = ltb_ℤ→lt (pos 0) ttl a;
      ttl_allowed = ltb_ℤ_false→le config.max_ttl_seconds ttl b;
      bytes_positive = ltb_ℤ→lt (pos 0) bytes c;
      bytes_allowed = ltb_ℤ_false→le config.max_bytes bytes d;
    }

-- Under a validated configuration a request that gives no field is accepted with the defaults.
pub validate_create_request-defaults :
    (clean : Bytes → Bool) (parse : Bytes → Option Url) (config : Config) (req : CreateRequest)
    → validate parse config ≡ []
    → (req.client_name.present ≡ false) × (req.client_name.null ≡ false)
    → (req.ttl_seconds.present ≡ false) × (req.ttl_seconds.null ≡ false)
    → (req.max_bytes.present ≡ false) × (req.max_bytes.null ≡ false)
    → validate_create_request clean config req
      ≡ accepted (config.default_ttl_seconds, config.default_max_bytes)
unfolding validate_create_request
validate_create_request-defaults clean parse config req valid name ttl bytes =
    let w = validate-WithinLimits parse config valid in
    ground (
      arith,
      name,
      ttl,
      bytes,
      lt→ltb_ℤ (pos 0) config.default_ttl_seconds w.default_ttl,
      le→ltb_ℤ_false config.max_ttl_seconds config.default_ttl_seconds w.default_ttl_max,
      lt→ltb_ℤ (pos 0) config.default_max_bytes w.default_bytes,
      le→ltb_ℤ_false config.max_bytes config.default_max_bytes w.default_bytes_max,
    )

-- Under a validated configuration the numbers that a granted request leads to fit Go's int64: the
-- byte quota of the queue, ten times the size limit, and the time to live in nanoseconds.
pub granted-fits_int64 :
    (parse : Bytes → Option Url) (config : Config) (ttl bytes : ℤ)
    → validate parse config ≡ []
    → IsGranted config ttl bytes
    → (bytes *ℤ max_pending_submissions ≤ℤ max_int64)
      × (bytes ≤ℤ bytes *ℤ max_pending_submissions)
      × (ttl *ℤ nanoseconds_per_second ≤ℤ max_int64)
granted-fits_int64 parse config ttl bytes valid g =
    let w = validate-WithinLimits parse config valid in
    (
      omega (int_laws, *ℤ-pos_parts bytes 10, w.max_bytes, g.bytes_allowed, g.bytes_positive),
      omega (int_laws, *ℤ-pos_parts bytes 10, g.bytes_positive),
      omega (int_laws, *ℤ-pos_parts ttl 1000000000, w.max_ttl, g.ttl_allowed, g.ttl_positive),
    )
