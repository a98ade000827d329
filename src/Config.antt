-- ===== src/Config.antt =====
-- internal/config/config.go. The file is given decoded, since os.ReadFile and yaml.v3 are outside
-- the model; `env` is os.Getenv, `parse_url` is url.Parse as far as the scheme and the host, and
-- `parse_duration` is time.ParseDuration, in nanoseconds.
pub mod Laws
pub mod Timeout
mod Tests
use Prim.Native.Char.{Char, code}
use Prim.Native.String.{String}
use package.text.Mathlib.Text.{◌==◌ as str_eq}
use permission_center_go.Common.{
  ℕ, zero, ℤ, pos, negsuc, suc, ◌+◌, ◌-◌, ◌*◌, ◌%◌, ◌^◌, Bool, true, false, not, ◌&&◌, ◌||◌, Option,
  none, some, List, [], ◌∷◌, ltb, leb, ◌==◌, is_empty, if◌then◌else◌, Result, ok, err, failure,
  ◌>>=◌, ◌>>◌,
}
use permission_center_go.Text.{
  trim_space, is_blank, len, to_lower, has_prefix, fields_func, any_char,
}

pub record HttpConfig : Type 0 where
  pub addr : String

pub record LoggingConfig : Type 0 where
  pub module_name : String
  pub minimum_level : String
  pub file_path : String

pub record DatabaseConfig : Type 0 where
  pub url : String
  pub max_conns : ℤ
  pub min_conns : ℤ

pub record OidcConfig : Type 0 where
  pub enabled : Bool
  pub authority : String
  pub backchannel_authority : String
  pub client_id : String
  pub client_secret : String
  pub redirect_uri : String
  pub post_logout_redirect_uri : String
  pub scopes : List String
  pub audience : String
  pub session_secret : String
  pub cookie_secure : Bool
  pub cookie_name : String

pub record ServiceResourceConfig : Type 0 where
  pub source : String
  pub nexus_auth_base_url : String
  pub nexus_auth_open_api_base_url : String
  pub api_key : String
  pub open_credential : String
  pub timeout : String
  pub timeout_seconds : ℤ

pub record PdpConfig : Type 0 where
  pub service_credential : String

pub record Config : Type 0 where
  pub http : HttpConfig
  pub logging : LoggingConfig
  pub database : DatabaseConfig
  pub oidc : OidcConfig
  pub service_resource : ServiceResourceConfig
  pub pdp : PdpConfig

abbrev pub Env : Type 0
Env = String → String

-- What a url.URL says of its scheme and its host.
pub record Url : Type 0 where
  pub scheme : String
  pub host : String

-- The value of the variable, where it is set and not empty.
abbrev pub from_env : Env → String → String → String
from_env env name value = if is_blank (env name) then value else env name

-- The same where the value must not be blank.
abbrev pub from_env_text : Env → String → String → String
from_env_text env name value = if is_blank (trim_space (env name)) then value else env name

-- strings.EqualFold(value, "true") || value == "1"
abbrev pub is_true_text : String → Bool
is_true_text value = str_eq (to_lower value) "true" || str_eq value "1"

abbrev pub flag_from_env : Env → String → Bool → Bool
flag_from_env env name value = if is_blank (env name) then value else is_true_text (env name)

-- Base and credential: the open API first.
unfoldable pub base_url : ServiceResourceConfig → String
base_url c =
    if is_blank (trim_space c.nexus_auth_open_api_base_url)
    then trim_space c.nexus_auth_base_url
    else trim_space c.nexus_auth_open_api_base_url

unfoldable pub credential : ServiceResourceConfig → String
credential c =
    if is_blank (trim_space c.open_credential)
    then trim_space c.api_key
    else trim_space c.open_credential

-- An int64 by its bits, below 2 ^ 64.
unfoldable pub signed64 : ℕ → ℤ
signed64 w = if ltb w (2 ^ 63) then pos w else negsuc (2 ^ 64 - w - 1)

abbrev pub is_positive : ℤ → Bool
is_positive (pos n) = ltb 0 n
is_positive (negsuc n) = false

-- time.Duration(seconds) * time.Second, which wraps around.
unfoldable pub seconds_duration : ℤ → ℤ
unfolding signed64
seconds_duration (pos n) = signed64 ((n * 10 ^ 9) % 2 ^ 64)
seconds_duration (negsuc n) = signed64 ((2 ^ 64 - ((n + 1) * 10 ^ 9) % 2 ^ 64) % 2 ^ 64)

abbrev pub positive_duration : Option ℤ → Result ℤ
positive_duration none = err (failure "service_resource.timeout must be a positive duration")
positive_duration (some d) =
    if is_positive d
    then ok d
    else err (failure "service_resource.timeout must be a positive duration")

unfoldable pub timeout_duration : (String → Option ℤ) → ServiceResourceConfig → Result ℤ
timeout_duration parse_duration c =
    if is_positive c.timeout_seconds
    then ok (seconds_duration c.timeout_seconds)
    else if is_blank (trim_space c.timeout)
    then ok (pos (5 * 10 ^ 9))
    else positive_duration (parse_duration (trim_space c.timeout))

-- strconv.Atoi on a 64-bit machine.
abbrev is_digit : Char → Bool
is_digit c = leb 48 (code c) && leb (code c) 57

unfoldable pub digits_from : ℕ → String → Option ℕ
digits_from n String.[] = some n
digits_from n (String.◌∷◌ c s) =
    let rest = digits_from (n * 10 + (code c - 48)) s in if is_digit c then rest else none

unfoldable pub digits : String → Option ℕ
unfolding digits_from
digits String.[] = none
digits (String.◌∷◌ c s) = digits_from 0 (String.◌∷◌ c s)

abbrev positive_int : Option ℕ → Option ℤ
positive_int none = none
positive_int (some n) = if ltb n (2 ^ 63) then some (pos n) else none

abbrev negated : ℕ → ℤ
negated zero = pos 0
negated (suc n) = negsuc n

abbrev negative_int : Option ℕ → Option ℤ
negative_int none = none
negative_int (some n) = if leb n (2 ^ 63) then some (negated n) else none

unfoldable pub atoi : String → Option ℤ
unfolding digits
atoi String.[] = none
atoi (String.◌∷◌ c s) =
    if code c == 45
    then negative_int (digits s)
    else if code c == 43
    then positive_int (digits s)
    else positive_int (digits (String.◌∷◌ c s))

-- applyLoggingEnv
unfoldable pub apply_logging_env : Env → LoggingConfig → LoggingConfig
apply_logging_env env cfg = record {
  module_name =
      from_env_text env "AppKey"
        (from_env_text env "PERMISSION_CENTER_LOGGING_MODULE" cfg.module_name);
  minimum_level = from_env_text env "PERMISSION_CENTER_LOGGING_MINIMUM_LEVEL" cfg.minimum_level;
  file_path = from_env_text env "PERMISSION_CENTER_LOGGING_FILE_PATH" cfg.file_path;
}

abbrev positive_seconds : Option ℤ → Result ℤ
positive_seconds none = err (failure "service_resource.timeout_seconds must be a positive integer")
positive_seconds (some n) =
    if is_positive n
    then ok n
    else err (failure "service_resource.timeout_seconds must be a positive integer")

-- The number of seconds that the environment sets.
unfoldable pub seconds_from_env : Env → ℤ → Result ℤ
seconds_from_env env seconds =
    let value = env "PERMISSION_CENTER_SERVICE_RESOURCE_TIMEOUT_SECONDS" in
    if is_blank value then ok seconds else positive_seconds (atoi (trim_space value))

-- applyServiceResourceEnv
unfoldable pub apply_service_resource_env :
    Env → ServiceResourceConfig → Result ServiceResourceConfig
apply_service_resource_env env cfg = seconds_from_env env cfg.timeout_seconds >>= λ seconds.
    ok (record {
      source = from_env env "PERMISSION_CENTER_SERVICE_RESOURCE_SOURCE" cfg.source;
      nexus_auth_base_url =
          from_env env "PERMISSION_CENTER_SERVICE_RESOURCE_NEXUSAUTH_BASE_URL"
            cfg.nexus_auth_base_url;
      nexus_auth_open_api_base_url =
          from_env env "PERMISSION_CENTER_SERVICE_RESOURCE_NEXUSAUTH_OPENAPI_BASE_URL"
            cfg.nexus_auth_open_api_base_url;
      api_key = from_env env "PERMISSION_CENTER_SERVICE_RESOURCE_API_KEY" cfg.api_key;
      open_credential =
          from_env env "PERMISSION_CENTER_SERVICE_RESOURCE_OPEN_CREDENTIAL" cfg.open_credential;
      timeout = from_env env "PERMISSION_CENTER_SERVICE_RESOURCE_TIMEOUT" cfg.timeout;
      timeout_seconds = seconds;
    })

-- A scope list is separated by commas and blanks.
abbrev is_separator : Char → Bool
is_separator c = code c == 44 || code c == 32

abbrev scopes_from_env : Env → List String → List String
scopes_from_env env scopes =
    if is_blank (env "PERMISSION_CENTER_OIDC_SCOPES")
    then scopes
    else fields_func is_separator (env "PERMISSION_CENTER_OIDC_SCOPES")

-- applyOIDCEnv
unfoldable pub apply_oidc_env : Env → OidcConfig → OidcConfig
apply_oidc_env env cfg = record {
  enabled = flag_from_env env "PERMISSION_CENTER_OIDC_ENABLED" cfg.enabled;
  authority = from_env env "PERMISSION_CENTER_OIDC_AUTHORITY" cfg.authority;
  backchannel_authority =
      from_env env "PERMISSION_CENTER_OIDC_BACKCHANNEL_AUTHORITY" cfg.backchannel_authority;
  client_id = from_env env "PERMISSION_CENTER_OIDC_CLIENT_ID" cfg.client_id;
  client_secret = from_env env "PERMISSION_CENTER_OIDC_CLIENT_SECRET" cfg.client_secret;
  redirect_uri = from_env env "PERMISSION_CENTER_OIDC_REDIRECT_URI" cfg.redirect_uri;
  post_logout_redirect_uri =
      from_env env "PERMISSION_CENTER_OIDC_POST_LOGOUT_REDIRECT_URI" cfg.post_logout_redirect_uri;
  scopes = scopes_from_env env cfg.scopes;
  audience = from_env env "PERMISSION_CENTER_OIDC_AUDIENCE" cfg.audience;
  session_secret = from_env env "PERMISSION_CENTER_OIDC_SESSION_SECRET" cfg.session_secret;
  cookie_secure = flag_from_env env "PERMISSION_CENTER_OIDC_COOKIE_SECURE" cfg.cookie_secure;
  cookie_name = from_env env "PERMISSION_CENTER_OIDC_COOKIE_NAME" cfg.cookie_name;
}

-- A parsed address is an absolute one of the web.
abbrev pub is_http_url : Option Url → Bool
is_http_url none = false
is_http_url (some url) =
    not (is_blank url.host) && (str_eq url.scheme "http" || str_eq url.scheme "https")

-- The characters that a cookie's name must not have: a blank, tab, line end or semicolon.
abbrev pub is_bad_in_name : Char → Bool
is_bad_in_name c = code c == 32 || code c == 9 || code c == 13 || code c == 10 || code c == 59

-- The loop over the scopes, with whether openid was seen.
unfoldable pub check_scopes : Bool → List String → Result (Unit {0})
check_scopes seen [] = if seen then ok tt else err (failure "oidc.scopes must include openid")
check_scopes seen (scope ∷ scopes) =
    let rest = check_scopes (seen || str_eq (trim_space scope) "openid") scopes in
    if is_blank (trim_space scope)
    then err (failure "oidc.scopes must not contain empty values")
    else rest

unfoldable pub check_secrets : OidcConfig → Result (Unit {0})
check_secrets c =
    if ltb (len c.session_secret) 32 || has_prefix c.session_secret "replace-with-"
    then err (failure "oidc.session_secret must be at least 32 characters when oidc is enabled")
    else if is_blank (trim_space c.cookie_name) || any_char is_bad_in_name c.cookie_name
    then err (failure "oidc.cookie_name must be a valid cookie name")
    else if is_empty c.scopes
    then err (failure "oidc.scopes must include at least one scope")
    else check_scopes false c.scopes

abbrev pub lowered_source : ServiceResourceConfig → ServiceResourceConfig
lowered_source c =
    let source = to_lower (trim_space c.source) in
    record c { source = if is_blank source then "nexusauth" else source }

abbrev pub default_scopes : List String → List String
default_scopes [] = "openid" ∷ "profile" ∷ "email" ∷ []
default_scopes scopes = scopes

abbrev pub with_defaults : OidcConfig → OidcConfig
with_defaults c = record c {
  scopes = default_scopes c.scopes;
  cookie_name = if is_blank c.cookie_name then "permission_center_session" else c.cookie_name;
}

module _ (parse_url : String → Option Url) where
  -- validateHTTPURL: the text of the error begins with the field's name.
  unfoldable pub validate_http_url : String → Result (Unit {0})
  validate_http_url value =
      if is_http_url (parse_url (trim_space value)) then ok tt else err (failure "")

  unfoldable pub check_backchannel : String → Result (Unit {0})
  check_backchannel value = if is_blank (trim_space value) then ok tt else validate_http_url value

  -- OIDCConfig.Validate
  unfoldable pub validate_oidc : OidcConfig → Result (Unit {0})
  validate_oidc c =
      if not c.enabled
      then ok tt
      else if is_blank (trim_space c.authority) || is_blank (trim_space c.client_id)
      then err (failure "oidc.authority and oidc.client_id are required when oidc is enabled")
      else if is_blank (trim_space c.audience)
      then err (failure "oidc.audience is required when oidc is enabled")
      else if is_blank (trim_space c.client_secret)
      then err
          (failure "oidc.client_secret is required for token introspection when oidc is enabled")
      else validate_http_url c.authority
        >> check_backchannel c.backchannel_authority
        >> validate_http_url c.redirect_uri
        >> validate_http_url c.post_logout_redirect_uri
        >> check_secrets c

  -- The checks of the service resources, whose source is already chosen.
  unfoldable pub check_service_resource :
      (String → Option ℤ) → ServiceResourceConfig → Result (Unit {0})
  check_service_resource parse_duration c =
      if not (str_eq c.source "local") && not (str_eq c.source "nexusauth")
      then err (failure "service_resource.source must be local or nexusauth")
      else timeout_duration parse_duration c >>= λ _.
          if not (str_eq c.source "nexusauth")
          then ok tt
          else validate_http_url (base_url c)
            >> (if is_blank (credential c)
                then err (
                    failure
                      "service_resource.api_key or service_resource.open_credential is required when source is nexusauth")
                else ok tt)

  -- The last checks of Load.
  unfoldable pub check_config : Config → Result Config
  check_config cfg =
      if is_blank cfg.http.addr || is_blank cfg.database.url
      then err (failure "http.addr and database.url are required")
      else validate_oidc cfg.oidc >>= λ _. ok cfg

  -- Load, from the file decoded by yaml.
  unfoldable pub load : (String → Option ℤ) → Env → Config → Result Config
  load parse_duration env file =
      apply_service_resource_env env file.service_resource >>= λ resource.
      let chosen = lowered_source resource in
      check_service_resource parse_duration chosen >>= λ _. check_config (record {
        http = record { addr = from_env env "PERMISSION_CENTER_HTTP_ADDR" file.http.addr };
        logging = apply_logging_env env file.logging;
        database = record (file.database) {
          url = from_env env "PERMISSION_CENTER_DATABASE_URL" file.database.url;
        };
        oidc = with_defaults (apply_oidc_env env file.oidc);
        service_resource = chosen;
        pdp = record {
          service_credential =
              from_env env "PERMISSION_CENTER_PDP_SERVICE_CREDENTIAL" file.pdp.service_credential;
        };
      })
