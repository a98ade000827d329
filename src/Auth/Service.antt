-- ===== src/Auth/Service.antt =====
-- auth.Service of internal/auth/auth.go, its users, and what it is given of a request. The OIDC and
-- OAuth2 libraries are parameters: functions that the service holds.
use Prim.Native.String.{String}
use permission_center_go.Common.{ℤ, Bool, false, Option, none, some, List, [], Result, not}
use permission_center_go.Text.{is_blank}
use permission_center_go.Config.{OidcConfig}
use permission_center_go.Auth.Session.{SessionStore, Cookies, Response}

pub record User : Type 0 where
  pub subject : String
  pub email : String
  pub name : String
  pub picture : String
  pub email_verified : Bool

abbrev pub no_user : User
no_user = record { subject = ""; email = ""; name = ""; picture = ""; email_verified = false }

-- The user in the context of a request: WithUser stores one.
abbrev pub Context : Type 0
Context = Option User

abbrev pub with_user : Context → User → Context
with_user ctx user = some user

-- UserFromContext
unfoldable pub user_from_context : Context → User × Bool
user_from_context none = (no_user, false)
user_from_context (some user) = (user, not (is_blank user.subject))

-- UserIDFromContext
unfoldable pub user_id_from_context : Context → String × Bool
unfolding user_from_context
user_id_from_context ctx = ((user_from_context ctx).0.subject, (user_from_context ctx).1)

-- The claims that Callback reads of an ID token.
pub record IdClaims : Type 0 where
  pub email : String
  pub name : String
  pub picture : String
  pub email_verified : Bool

-- A verified oidc.IDToken; its expiry in seconds since 1970. Its claims may fail to decode.
pub record IdToken : Type 0 where
  pub nonce : String
  pub subject : String
  pub expiry : ℤ
  pub claims : Option IdClaims

-- oidc.IDTokenVerifier.Verify
abbrev pub IdVerifier : Type 0
IdVerifier = String → Option IdToken

-- oauth2.Config: AuthCodeURL of a state, a nonce and a PKCE verifier, and Exchange of a code and a
-- verifier, with the text that the response has as its id_token. The exchange reaches the provider:
-- its answer may depend on when it is made, which the cookies set so far tell.
pub record OAuth : Type 0 where
  pub auth_code_url : String → String → String → String
  pub exchange : Response → String → String → Option (Option String)

pub record PublicConfig : Type 0 where
  pub enabled : Bool
  pub authority : String
  pub client_id : String
  pub redirect_uri : String
  pub post_logout_redirect_uri : String
  pub scopes : List String
  pub audience : String

pub record Service : Type 0 where
  pub cfg : OidcConfig
  pub enabled : Bool
  pub oauth_config : Option OAuth
  pub verifier : Option IdVerifier
  pub verify_access_token : Option (String → Result User)
  pub end_session_endpoint : String
  pub sessions : Option SessionStore

-- What a handler reads of an http.Request: the parameters of its query, empty where one is missing,
-- its Authorization header, its cookies and its context.
pub record Request : Type 0 where
  pub query : String → String
  pub authorization : String
  pub cookies : Cookies
  pub context : Context

-- Enabled
unfoldable pub enabled : Option Service → Bool
enabled none = false
enabled (some service) = service.enabled

-- PublicConfig
unfoldable pub public_config : Option Service → PublicConfig
public_config none = record {
  enabled = false;
  authority = "";
  client_id = "";
  redirect_uri = "";
  post_logout_redirect_uri = "";
  scopes = [];
  audience = "";
}
public_config (some service) = record {
  enabled = service.cfg.enabled;
  authority = service.cfg.authority;
  client_id = service.cfg.client_id;
  redirect_uri = service.cfg.redirect_uri;
  post_logout_redirect_uri = service.cfg.post_logout_redirect_uri;
  scopes = service.cfg.scopes;
  audience = service.cfg.audience;
}
