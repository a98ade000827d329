-- ===== src/Auth/Examples.antt =====
-- A provider, a service and its requests, for the tests of the login.
mod Unary
pub use Unary.*
use Prim.Native.String.{String}
use text.Mathlib.TextEquality.{eq_iff}
use package.text.Mathlib.Text.{◌==◌ as str_eq}
use permission_center_go.Common.{
  some-injective, ℕ, zero, suc, ◌+◌, ◌*◌, ℤ, pos, negsuc, ◌≡◌, refl, ap, ◌∙◌, Bool, true, false,
  ◌&&◌, ◌==◌ as nat_eq, ==_iff, Option, none, some, [], ◌∷◌, ok, arith, if◌then◌else◌, subst,
}
use permission_center_go.Text.{append}
use permission_center_go.Config.{OidcConfig}
use permission_center_go.Auth.Session.{
  Bytes, second, SessionUser, SessionData, empty_session, Codec, SessionStore,
}
use permission_center_go.Auth.Session.Laws.{IsFaithful}
use permission_center_go.Auth.Routing.{AuthorityUrl, UrlLibrary}
use permission_center_go.Auth.Startup.{Provider}
use permission_center_go.Auth.Service.{User, IdVerifier, OAuth, Service, Request}

abbrev pub example_store : SessionStore
example_store = record { name = "session"; secure = true; block = example_codec }

abbrev pub example_oauth : OAuth
example_oauth = record {
  auth_code_url = λ state nonce verifier. append "https://id.example/auth?state=" state;
  exchange = λ w code verifier. some (some "raw");
}

abbrev pub example_verifier : IdVerifier
example_verifier raw = some (record {
  nonce = "aa;";
  subject = "ann";
  expiry = pos 60000;
  claims = some (record { email = ""; name = "Ann"; picture = ""; email_verified = true });
})

abbrev pub example_cfg : OidcConfig
example_cfg = record {
  enabled = true;
  authority = "https://id.example/auth";
  backchannel_authority = "";
  client_id = "center";
  client_secret = "secret";
  redirect_uri = "https://app.example/callback";
  post_logout_redirect_uri = "https://app.example/";
  scopes = "openid" ∷ [];
  audience = "api";
  session_secret = "0123456789abcdef0123456789abcdef";
  cookie_secure = true;
  cookie_name = "session";
}

abbrev pub user_ann : User
user_ann = record { subject = "ann"; email = ""; name = "Ann"; picture = ""; email_verified = true }

abbrev pub example_service : Service
example_service = record {
  cfg = example_cfg;
  enabled = true;
  oauth_config = some example_oauth;
  verifier = some example_verifier;
  verify_access_token = some (λ raw. ok user_ann);
  end_session_endpoint = "https://id.example/logout";
  sessions = some example_store;
}

-- The value of the cookie with the begun session, under the random byte 7.
abbrev pub begun_value : String
begun_value = "aaaaaaa;a;"

abbrev query_of : String → String
query_of name = if str_eq name "code" then "c" else if str_eq name "state" then "a;" else ""

abbrev pub callback_request : Request
callback_request = record {
  query = query_of;
  authorization = "";
  cookies = ("session", begun_value) ∷ [];
  context = none;
}

abbrev pub plain_request : Request
plain_request = record { query = λ name. ""; authorization = ""; cookies = []; context = none }

abbrev pub at_second : ℕ → ℕ
at_second n = n * second

abbrev pub example_url : AuthorityUrl
example_url = record {
  scheme = "https";
  host = "id.example";
  user = "";
  path = "/auth";
  raw_path = "";
  rest = "";
}

abbrev pub example_urls : UrlLibrary
example_urls = record {
  parse = λ raw. some example_url;
  print = λ url. append url.path url.rest;
  escaped_path = λ url. url.path;
  path_unescape = some;
  equal_fold = str_eq;
}

abbrev pub example_provider : Provider
example_provider = record {
  auth_url = "https://id.example/auth/authorize";
  client = λ cfg url. example_oauth;
  metadata = some ("https://id.example/auth/logout", "https://id.example/auth/introspect");
  id_verifier = λ client. example_verifier;
  access_verifier = λ audience raw. some (record {
    subject = "ann";
    claims = some (record {
      token_use = "access_token";
      name = "Ann";
      preferred_username = "";
      email = "";
      picture = "";
      email_verified = true;
    });
  });
  introspect = λ endpoint client secret raw. some (record {
    status = 200;
    body = some (record {
      active = true;
      subject = "ann";
      client_id = "center";
      token_use = "access_token";
    });
  });
}
