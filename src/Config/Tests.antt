-- ===== src/Config/Tests.antt =====
-- The theorems on the configuration at work on the defaults.
use drop_point.Base.{◌≡◌, refl, false, Option, some, [], Bytes, codes, bytes_eq}
use drop_point.Config.{Url, default_config, validate, base_url_problem, lower}
use drop_point.Config.Bounds.{WithinLimits, validate-WithinLimits, default_config-valid}

abbrev local : Url
local = record {
  scheme = codes "http";
  host = codes "127.0.0.1:8080";
  hostname = codes "127.0.0.1";
  raw_query = [];
  fragment = [];
  has_user = false;
  path = [];
}

abbrev parse : Bytes → Option Url
parse text = some local

default_config_passes : validate parse default_config ≡ []
unfolding base_url_problem lower bytes_eq
default_config_passes = default_config-valid parse local refl refl

validate-WithinLimits_example : WithinLimits default_config
validate-WithinLimits_example = validate-WithinLimits parse default_config default_config_passes
