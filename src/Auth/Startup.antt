-- ===== src/Auth/Startup.antt =====
-- New of internal/auth/auth.go, which puts a service together. The OIDC library is a parameter: the
-- provider that it discovers.
pub mod Laws
use Prim.Native.String.{String}
use permission_center_go.Common.{
  Bool, true, false, not, Option, none, some, if◌then◌else◌, Result, ok, err, panic, failure, ◌>>=◌,
  ◌>>◌,
}
use permission_center_go.Text.{is_blank, trim_space}
use permission_center_go.Config.{OidcConfig, validate_oidc}
use permission_center_go.Auth.Session.{Codec, SessionStore, new_session_store}
use permission_center_go.Auth.Service.{IdVerifier, OAuth, Service}
use permission_center_go.Auth.Bearer.{AccessToken, Reply, verify_access_token}
use permission_center_go.Auth.Routing.{UrlLibrary, parsed, new_oidc_http_client, public_endpoint}

-- What oidc.NewProvider discovered: the verifiers for an audience, the OAuth2 client for the public
-- authorization URL, and the two endpoints of its metadata, which may fail to decode. `introspect`
-- posts a token to an endpoint with the client's identifier and secret.
pub record Provider : Type 0 where
  pub auth_url : String
  pub client : OidcConfig → String → OAuth
  pub metadata : Option (String × String)
  pub id_verifier : String → IdVerifier
  pub access_verifier : String → String → Option AccessToken
  pub introspect : String → String → String → String → Option Reply

-- The service of a provider with the metadata.
unfoldable pub service_of :
    (String → String)
    → OidcConfig
    → SessionStore
    → Provider
    → Option (String × String)
    → Result Service
service_of public_endpoint cfg sessions provider none =
    err (failure "decode oidc discovery metadata: ")
service_of public_endpoint cfg sessions provider (some (end_session, introspection)) =
    if is_blank (trim_space introspection)
    then err (failure "oidc discovery metadata does not contain an introspection endpoint")
    else ok (record {
      cfg = cfg;
      enabled = cfg.enabled;
      oauth_config = some (provider.client cfg (public_endpoint provider.auth_url));
      verifier = some (provider.id_verifier cfg.client_id);
      verify_access_token = some (
          verify_access_token (provider.access_verifier cfg.audience)
            (provider.introspect introspection cfg.client_id cfg.client_secret) cfg.client_id);
      end_session_endpoint = public_endpoint end_session;
      sessions = some sessions;
    })

abbrev pub disabled_service : OidcConfig → Service
disabled_service cfg = record {
  cfg = cfg;
  enabled = cfg.enabled;
  oauth_config = none;
  verifier = none;
  verify_access_token = none;
  end_session_endpoint = "";
  sessions = none;
}

-- oidc.NewProvider, which may fail.
abbrev pub discovered : Option Provider → Result Provider
discovered none = err (failure "discover oidc provider: ")
discovered (some provider) = ok provider

-- New
unfoldable pub new_service :
    UrlLibrary → (String → Result Codec) → (String → Option Provider) → OidcConfig → Result Service
new_service urls codec discover cfg =
    if not cfg.enabled
    then ok (disabled_service cfg)
    else validate_oidc (parsed urls) cfg >>= λ _. new_oidc_http_client urls cfg >>= λ routing.
        new_session_store codec cfg.session_secret cfg.cookie_name cfg.cookie_secure >>= λ sessions.
        discovered (discover cfg.authority) >>= λ provider.
        service_of (public_endpoint urls routing) cfg sessions provider provider.metadata
