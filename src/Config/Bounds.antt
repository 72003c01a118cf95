-- ===== src/Config/Bounds.antt =====
-- What a validated configuration guarantees.
use drop_point.Base.{
  ◌≡◌, refl, Bool, true, false, ◌||◌, Option, some, List, [], ◌∷◌, ◌++◌, ℤ, pos, ◌≤ℤ◌, ◌<ℤ◌, ltb_ℤ,
  leb_ℤ, Bytes, codes, arith, ltb_ℤ→lt, ltb_ℤ_false→le,
}
use drop_point.Config.{
  default_config, validate_duration_seconds, Config, Url, Problem, problem_if, base_url_problem,
  bad_duration, bad_size, validate, max_configured_duration_seconds, max_configured_payload_bytes,
}

append_nil : (ps qs : List Problem) → ps ++ qs ≡ [] → (ps ≡ []) × (qs ≡ [])
append_nil [] qs h = (refl, h)
append_nil (p ∷ ps) qs h = absurd (cc h)

no_problem : (bad : Bool) (p : Problem) → problem_if bad p ≡ [] → bad ≡ false
no_problem true p h = absurd (cc h)
no_problem false p h = refl

-- The numeric guarantees: times to live and timeouts between a second and a year, sizes between a
-- byte and 2^40, the defaults within the maxima, and a positive quota.
pub record WithinLimits (c : Config) : Type 0 where
  pub default_ttl : pos 0 <ℤ c.default_ttl_seconds
  pub default_ttl_max : c.default_ttl_seconds ≤ℤ c.max_ttl_seconds
  pub max_ttl : c.max_ttl_seconds ≤ℤ max_configured_duration_seconds
  pub default_bytes : pos 0 <ℤ c.default_max_bytes
  pub default_bytes_max : c.default_max_bytes ≤ℤ c.max_bytes
  pub max_bytes : c.max_bytes ≤ℤ max_configured_payload_bytes
  pub max_active : pos 0 <ℤ c.default_max_active_drop_points
  pub read_timeout :
      (pos 0 <ℤ c.read_timeout_seconds)
      × (c.read_timeout_seconds ≤ℤ max_configured_duration_seconds)
  pub write_timeout :
      (pos 0 <ℤ c.write_timeout_seconds)
      × (c.write_timeout_seconds ≤ℤ max_configured_duration_seconds)
  pub cleanup_interval :
      (pos 0 <ℤ c.cleanup_interval_seconds)
      × (c.cleanup_interval_seconds ≤ℤ max_configured_duration_seconds)
  pub retention :
      (pos 0 <ℤ c.terminal_retention_seconds)
      × (c.terminal_retention_seconds ≤ℤ max_configured_duration_seconds)

within_bounds : (v top : ℤ) → (leb_ℤ v (pos 0) || ltb_ℤ top v) ≡ false → (pos 0 <ℤ v) × (v ≤ℤ top)
within_bounds v top h = (ltb_ℤ→lt (pos 0) v (ground arith), ltb_ℤ_false→le top v (ground arith))

duration_bounds :
    (name : Bytes) (v : ℤ)
    → validate_duration_seconds name v ≡ []
    → (pos 0 <ℤ v) × (v ≤ℤ max_configured_duration_seconds)
unfolding bad_duration
duration_bounds name v h =
    within_bounds v max_configured_duration_seconds (no_problem (bad_duration v) _ h)

size_bounds :
    (v : ℤ) (p : Problem)
    → problem_if (bad_size v) p ≡ []
    → (pos 0 <ℤ v) × (v ≤ℤ max_configured_payload_bytes)
unfolding bad_size
size_bounds v p h = within_bounds v max_configured_payload_bytes (no_problem (bad_size v) p h)

-- A configuration in which validation finds no problem is within the limits, whatever parser of URLs
-- is used.
pub validate-WithinLimits :
    (parse : Bytes → Option Url) (c : Config) → validate parse c ≡ [] → WithinLimits c
unfolding validate
validate-WithinLimits parse c h0 =
    let (h1, retention) =
      append_nil _
        (validate_duration_seconds (codes "terminal_retention_seconds")
          c.terminal_retention_seconds)
        h0 in
    let (h2, interval) =
      append_nil _
        (validate_duration_seconds (codes "cleanup_interval_seconds") c.cleanup_interval_seconds)
        h1 in
    let (h3, write_timeout) =
      append_nil _
        (validate_duration_seconds (codes "write_timeout_seconds") c.write_timeout_seconds) h2 in
    let (h4, read_timeout) =
      append_nil _ (validate_duration_seconds (codes "read_timeout_seconds") c.read_timeout_seconds)
        h3 in
    let (h5, active) =
      append_nil _
        (problem_if (leb_ℤ c.default_max_active_drop_points (pos 0))
          Problem.max_active_not_positive)
        h4 in
    let (h6, bytes_order) =
      append_nil _
        (problem_if (ltb_ℤ c.max_bytes c.default_max_bytes) Problem.default_max_bytes_exceeds_max)
        h5 in
    let (h7, top_bytes) =
      append_nil _ (problem_if (bad_size c.max_bytes) Problem.max_bytes_range) h6 in
    let (h8, bytes) =
      append_nil _ (problem_if (bad_size c.default_max_bytes) Problem.default_max_bytes_range) h7 in
    let (h9, ttl_order) =
      append_nil _
        (problem_if (ltb_ℤ c.max_ttl_seconds c.default_ttl_seconds) Problem.default_ttl_exceeds_max)
        h8 in
    let (h10, top_ttl) =
      append_nil _ (validate_duration_seconds (codes "max_ttl_seconds") c.max_ttl_seconds) h9 in
    let (h11, ttl) =
      append_nil _ (validate_duration_seconds (codes "default_ttl_seconds") c.default_ttl_seconds)
        h10 in
    record {
      default_ttl = (duration_bounds _ c.default_ttl_seconds ttl).0;
      default_ttl_max = ltb_ℤ_false→le _ _ (no_problem _ _ ttl_order);
      max_ttl = (duration_bounds _ c.max_ttl_seconds top_ttl).1;
      default_bytes = (size_bounds c.default_max_bytes _ bytes).0;
      default_bytes_max = ltb_ℤ_false→le _ _ (no_problem _ _ bytes_order);
      max_bytes = (size_bounds c.max_bytes _ top_bytes).1;
      max_active = ltb_ℤ→lt (pos 0) c.default_max_active_drop_points (
          ground (
            arith,
            no_problem (leb_ℤ c.default_max_active_drop_points (pos 0))
                Problem.max_active_not_positive active,
          ));
      read_timeout = duration_bounds _ c.read_timeout_seconds read_timeout;
      write_timeout = duration_bounds _ c.write_timeout_seconds write_timeout;
      cleanup_interval = duration_bounds _ c.cleanup_interval_seconds interval;
      retention = duration_bounds _ c.terminal_retention_seconds retention;
    }

-- Where the parser takes the default base URL apart as documented, the defaults pass validation.
pub default_config-valid :
    (parse : Bytes → Option Url) (u : Url)
    → parse default_config.base_url ≡ some u
    → base_url_problem (some u) ≡ []
    → validate parse default_config ≡ []
unfolding validate bad_duration bad_size ltb_ℤ
default_config-valid parse u parsed fine = rw (parsed, fine) refl
