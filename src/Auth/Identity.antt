-- ===== src/Auth/Identity.antt =====
-- Who a request comes from: Me, Middleware and Logout of internal/auth/auth.go. net/url is
-- a parameter.
pub mod Laws
use Prim.Native.String.{String}
use permission_center_go.Common.{
  ℕ, ℤ, pos, negsuc, ◌*◌, Bool, true, false, not, ◌&&◌, ◌||◌, Option, none, some, List, [], ◌∷◌,
  ◌++◌, ltb, if◌then◌else◌, Result, ok, err, panic, auth_disabled, failure, ◌>>=◌, ◌>>◌,
}
use permission_center_go.Text.{is_blank, trim_space}
use permission_center_go.Config.{Url, OidcConfig, validate_oidc}
use permission_center_go.Auth.Session.{
  Bytes, second, SessionUser, SessionData, Response, Codec, SessionStore, is_zero, load_from,
  clear_in, new_session_store,
}
use permission_center_go.Auth.Service.{
  User, IdVerifier, OAuth, Service, Request, Context, with_user, user_from_context,
}
use permission_center_go.Auth.Bearer.{
  Bearer, absent, malformed, token, AccessToken, Reply, parse_bearer_token, authenticate_bearer,
  verify_access_token,
}

-- now.Before(time.Unix(seconds, 0))
unfoldable pub is_before : ℕ → ℤ → Bool
is_before now (pos seconds) = ltb now (seconds * second)
is_before now (negsuc seconds) = false

abbrev pub user_of : SessionUser → User
user_of user = record {
  subject = user.subject;
  email = user.email;
  name = user.name;
  picture = user.picture;
  email_verified = user.email_verified;
}

-- The user of a session, while the identity token has not expired.
unfoldable pub live_user : ℕ → Option SessionUser → Option User
live_user now none = none
live_user now (some user) =
    if is_zero user.expires_at || not (is_before now user.expires_at)
    then none
    else some (user_of user)

unfoldable pub session_user : ℕ → Result SessionData → Option User
session_user now (ok session) = live_user now session.user
session_user now _ = none

unfoldable pub loaded_user : ℕ → Option Service → Request → Option User
loaded_user now none req = none
loaded_user now (some service) req = session_user now (load_from service.sessions now req.cookies)

-- Me, of a request: the user of the context, else that of the session.
unfoldable pub me : ℕ → Option Service → Request → Option User
me now service req =
    let (user, found) = user_from_context req.context in
    if found then some user else loaded_user now service req

-- What Middleware does: it passes the request on, in a context, or answers 401.
pub data Handled : Type 0 where
  forwarded : Context → Handled
  bearer_unauthorized : Handled
  unauthorized : Handled

-- The request with its verified user, who joins its context.
unfoldable pub bearer_handled : Request → Result User → Result Handled
bearer_handled req (ok user) = ok (forwarded (with_user req.context user))
bearer_handled req (err e) = ok bearer_unauthorized
bearer_handled req panic = panic

unfoldable pub me_handled : Request → Option User → Handled
me_handled req none = unauthorized
me_handled req (some user) = forwarded (with_user req.context user)

unfoldable pub handled : ℕ → Service → Request → Bearer → Result Handled
handled now service req absent = ok (me_handled req (me now (some service) req))
handled now service req malformed = ok bearer_unauthorized
handled now service req (token raw) = bearer_handled req (authenticate_bearer (some service) raw)

-- Middleware
unfoldable pub middleware : ℕ → Option Service → Request → Result Handled
middleware now none req = ok (forwarded req.context)
middleware now (some service) req =
    if not service.enabled
    then ok (forwarded req.context)
    else handled now service req (parse_bearer_token req.authorization)

-- The identity token that a logout names.
abbrev pub hint_of : Option SessionUser → String
hint_of none = ""
hint_of (some user) = user.id_token

unfoldable pub id_token_hint : Result SessionData → String
id_token_hint (ok session) = hint_of session.user
id_token_hint _ = ""

unfoldable pub unless_blank : String → String → List (String × String)
unless_blank name value = if is_blank value then [] else (name, value) ∷ []

-- The parameters that Logout sets in the query of the endpoint, in order.
unfoldable pub logout_query : OidcConfig → String → List (String × String)
unfolding unless_blank
logout_query cfg hint =
    unless_blank "id_token_hint" hint
    ++ unless_blank "post_logout_redirect_uri" cfg.post_logout_redirect_uri
    ++ ("client_id", cfg.client_id) ∷ []

-- A parsed endpoint with a scheme and a host.
abbrev is_absolute : Option Url → Bool
is_absolute none = false
is_absolute (some url) = not (is_blank url.scheme) && not (is_blank url.host)

module _ (parse_url : String → Option Url)
    (with_query : String → List (String × String) → String) where
  -- The end of Logout: `with_query` sets parameters in the query of a URL.
  unfoldable pub logout_url : Service → String → Result String
  logout_url service hint =
      if not service.enabled || is_blank service.end_session_endpoint
      then ok ""
      else if not (is_absolute (parse_url service.end_session_endpoint))
      then err (failure "invalid oidc end_session_endpoint")
      else ok (with_query service.end_session_endpoint (logout_query service.cfg hint))

  -- Logout: the cookie is cleared before the URL is made.
  unfoldable pub logout : ℕ → Option Service → Request → Response → Result String × Response
  logout now none req w = (err (auth_disabled ""), w)
  logout now (some service) req w = (
    logout_url service (id_token_hint (load_from service.sessions now req.cookies)),
    (clear_in service.sessions w).1,
  )
