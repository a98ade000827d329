-- ===== src/Auth/Bearer.antt =====
-- The bearer tokens of internal/auth/auth.go: their form, their verification and their
-- introspection.
pub mod Laws
use Prim.Native.String.{String}
use package.text.Mathlib.Text.{◌==◌ as str_eq}
use permission_center_go.Common.{
  ℕ, Bool, true, false, not, ◌||◌, ◌==◌ as nat_eq, Option, none, some, List, [], ◌∷◌, if◌then◌else◌,
  Result, ok, err, panic, Error, auth_disabled, invalid_token, failure, ◌>>=◌,
}
use permission_center_go.Text.{is_blank, trim_space, fields, to_lower}
use permission_center_go.Auth.Service.{User, Service}

-- What an Authorization header says: no bearer token, a malformed one, or a token.
pub data Bearer : Type 0 where
  absent : Bearer
  malformed : Bearer
  token : String → Bearer

-- What follows the scheme: one token that is not blank.
unfoldable pub given : List String → Bearer
given (raw ∷ []) = if is_blank (trim_space raw) then malformed else token raw
given _ = malformed

unfoldable pub bearer_of : List String → Bearer
bearer_of [] = absent
bearer_of (scheme ∷ rest) = if str_eq (to_lower scheme) "bearer" then given rest else absent

-- parseBearerToken
unfoldable pub parse_bearer_token : String → Bearer
parse_bearer_token authorization = bearer_of (fields authorization)

-- The claims that verifyNexusAccessToken reads of an access token.
pub record AccessClaims : Type 0 where
  pub token_use : String
  pub name : String
  pub preferred_username : String
  pub email : String
  pub picture : String
  pub email_verified : Bool

pub record AccessToken : Type 0 where
  pub subject : String
  pub claims : Option AccessClaims

-- The name of a user: the name, else the preferred user name, else the subject.
abbrev pub display_name : String → AccessClaims → String
display_name subject claims =
    if not (is_blank (trim_space claims.name))
    then trim_space claims.name
    else if not (is_blank (trim_space claims.preferred_username))
    then trim_space claims.preferred_username
    else subject

unfoldable pub claimed_user : String → Option AccessClaims → Result User
claimed_user subject none = err (invalid_token "decode claims")
claimed_user subject (some claims) =
    if not (str_eq claims.token_use "access_token") || is_blank (trim_space subject)
    then err (invalid_token "")
    else ok (record {
      subject = subject;
      email = claims.email;
      name = display_name subject claims;
      picture = claims.picture;
      email_verified = claims.email_verified;
    })

unfoldable pub verified_user : Option AccessToken → Result User
verified_user none = err (invalid_token "")
verified_user (some t) = claimed_user t.subject t.claims

-- verifyNexusAccessToken, where `verify` is oidc.IDTokenVerifier.Verify.
unfoldable pub verify_nexus_access_token : (String → Option AccessToken) → String → Result User
verify_nexus_access_token verify raw = verified_user (verify raw)

-- accessTokenIntrospection
pub record Introspection : Type 0 where
  pub active : Bool
  pub subject : String
  pub client_id : String
  pub token_use : String

-- An answer of the provider: its status, and its body where that decodes.
pub record Reply : Type 0 where
  pub status : ℕ
  pub body : Option Introspection

-- The answer to the introspection request, missing where the request failed.
unfoldable pub decoded_body : Option Introspection → Result Introspection
decoded_body none = err (failure "decode introspection response: ")
decoded_body (some body) = ok body

unfoldable pub introspection_of : Option Reply → Result Introspection
introspection_of none = err (failure "")
introspection_of (some reply) =
    if not (nat_eq reply.status 200)
    then err (failure "introspection returned HTTP ")
    else decoded_body reply.body

-- introspectNexusAccessToken, where `post` sends the token to the endpoint with the client's
-- identifier and secret.
unfoldable pub introspect_nexus_access_token :
    (String → Option Reply) → String → Result Introspection
introspect_nexus_access_token post raw = introspection_of (post raw)

-- A failed introspection makes the token invalid.
unfoldable pub checked_user : String → User → Result Introspection → Result User
checked_user client_id user panic = panic
checked_user client_id user (err e) = err (invalid_token "introspection failed: ")
checked_user client_id user (ok i) =
    if not i.active
      || not (str_eq i.subject user.subject)
      || not (str_eq i.client_id client_id)
      || not (str_eq i.token_use "access_token")
    then err (invalid_token "")
    else ok user

-- The verification that New gives the service.
unfoldable pub verify_access_token :
    (String → Option AccessToken) → (String → Option Reply) → String → String → Result User
verify_access_token verify post client_id raw = verify_nexus_access_token verify raw >>= λ user.
    checked_user client_id user (introspect_nexus_access_token post raw)

unfoldable pub authenticate_with : Bool → Option (String → Result User) → String → Result User
authenticate_with enabled none raw = err (auth_disabled "")
authenticate_with enabled (some verify) raw =
    if not enabled
    then err (auth_disabled "")
    else if is_blank (trim_space raw)
    then err (invalid_token "")
    else verify (trim_space raw)

-- AuthenticateBearer
unfoldable pub authenticate_bearer : Option Service → String → Result User
authenticate_bearer none raw = err (auth_disabled "")
authenticate_bearer (some service) raw =
    authenticate_with service.enabled service.verify_access_token raw
