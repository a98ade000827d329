-- ===== src/Config/Tests.antt =====
-- A configuration that loads, and its timeout.
use Prim.Native.String.{String}
use permission_center_go.Common.{
  ℕ, ℤ, pos, negsuc, ◌≡◌, ◌⊎◌, ◌*◌, ◌^◌, refl, true, Option, none, some, [], ◌∷◌, ok, arith,
}
use permission_center_go.Text.{trim_space, to_lower, has_prefix}
use permission_center_go.Config.{
  Url, Config, OidcConfig, ServiceResourceConfig, Env, seconds_duration, signed64, timeout_duration,
  validate_http_url, check_scopes, check_secrets, check_backchannel, validate_oidc,
  check_service_resource, check_config, apply_service_resource_env, apply_oidc_env,
  apply_logging_env, seconds_from_env, load,
}
use permission_center_go.Config.Laws.{
  IsProtected, validate_oidc-IsProtected, IsUsable, load-IsUsable,
}
use permission_center_go.Config.Timeout.{IsPositive, timeout_duration-IsPositive}

abbrev url_of : String → Option Url
url_of value = some (record { scheme = "https"; host = "id.example" })

abbrev no_duration : String → Option ℤ
no_duration value = none

-- Nothing is set, but the address.
abbrev env : Env
env name = ""

abbrev oidc : OidcConfig
oidc = record {
  enabled = true;
  authority = "https://id.example";
  backchannel_authority = "";
  client_id = "center";
  client_secret = "secret";
  redirect_uri = "https://app.example/callback";
  post_logout_redirect_uri = "https://app.example";
  scopes = "openid" ∷ "email" ∷ [];
  audience = "api";
  session_secret = "0123456789abcdef0123456789abcdef";
  cookie_secure = true;
  cookie_name = "session";
}

abbrev resource : ServiceResourceConfig
resource = record {
  source = "Local";
  nexus_auth_base_url = "";
  nexus_auth_open_api_base_url = "";
  api_key = "";
  open_credential = "";
  timeout = "";
  timeout_seconds = pos 30;
}

abbrev file : Config
file = record {
  http = record { addr = ":8080" };
  logging = record { module_name = "center"; minimum_level = "info"; file_path = "" };
  database = record { url = "postgres://db"; max_conns = pos 10; min_conns = pos 1 };
  oidc = oidc;
  service_resource = resource;
  pdp = record { service_credential = "" };
}

abbrev loaded : Config
loaded = record file { service_resource = record resource { source = "local" } }

valid : validate_oidc url_of oidc ≡ ok tt
unfolding validate_oidc validate_http_url check_backchannel check_secrets check_scopes trim_space
    has_prefix
valid = refl

validate_oidc-IsProtected_example : IsProtected url_of oidc
validate_oidc-IsProtected_example = validate_oidc-IsProtected url_of oidc refl valid

loads : load url_of no_duration env file ≡ ok loaded
unfolding load apply_service_resource_env seconds_from_env check_service_resource timeout_duration
    seconds_duration signed64 check_config apply_oidc_env apply_logging_env validate_oidc
    validate_http_url check_backchannel check_secrets check_scopes trim_space to_lower has_prefix
loads = refl

load-IsUsable_example : IsUsable url_of loaded
load-IsUsable_example = load-IsUsable url_of no_duration env file loaded loads

thirty : timeout_duration no_duration resource ≡ ok (pos (30 * 10 ^ 9))
unfolding timeout_duration seconds_duration signed64
thirty = refl

timeout_duration-IsPositive_example :
    IsPositive (pos (30 * 10 ^ 9)) × ((◌≡◌ {A = ℕ} 30 0) ⊎ (pos (30 * 10 ^ 9) ≡ pos (30 * 10 ^ 9)))
timeout_duration-IsPositive_example =
    timeout_duration-IsPositive no_duration resource (pos (30 * 10 ^ 9)) 30 refl (ground arith)
      thirty

-- A larger number wraps around to a negative duration.
wraps :
    timeout_duration no_duration (record resource { timeout_seconds = pos 9223372037 })
    ≡ ok (negsuc 9223372036709551615)
unfolding timeout_duration seconds_duration signed64
wraps = refl
