-- ===== src/Auth/Flow.antt =====
-- The authorization-code flow of internal/auth/auth.go: Login and Callback. One instant, `now` in
-- nanoseconds, stands for the clock during a request.
pub mod Laws
pub mod Replay
pub mod Begin
use Prim.Native.String.{String}
use Prim.Native.Nat.{◌/◌}
use package.text.Mathlib.Text.{◌==◌ as str_eq}
use permission_center_go.Common.{◌>>=◌ as then_result}
use permission_center_go.Common.{
  ℕ, ℤ, pos, negsuc, Bool, true, false, not, ◌||◌, Option, none, some, if◌then◌else◌, Result, ok,
  err, panic, Error, auth_disabled, invalid_request, invalid_state, invalid_nonce, failure,
}
use permission_center_go.Text.{is_blank}
use permission_center_go.Biz.Call.{Call, fail, lift, pure, ◌>>=◌, ◌>>◌}
use permission_center_go.Auth.Session.{
  Bytes, second, SessionUser, SessionData, empty_session, Response, is_zero, is_flow_old,
  without_flow, load_from, save_to,
}
use permission_center_go.Auth.Service.{IdToken, IdClaims, IdVerifier, OAuth, Service, Request}

-- randomToken, from what rand.Read gave; base64.RawURLEncoding is `encode`.
unfoldable pub random_token : (Bytes → String) → Option Bytes → Result String
random_token encode none = err (failure "generate authentication value: ")
random_token encode (some value) = ok (encode value)

-- The four random values of a login, each missing where the source of randomness failed.
pub record Draws : Type 0 where
  pub state : Option Bytes
  pub nonce : Option Bytes
  pub verifier : Option Bytes
  pub cookie : Option Bytes

-- A session that cannot be read counts as empty.
unfoldable pub or_empty : Result SessionData → Result SessionData
or_empty (ok session) = ok session
or_empty (err e) = ok empty_session
or_empty panic = panic

-- A session at the start of a login.
unfoldable pub started : ℕ → String → String → String → SessionData → SessionData
started now state nonce verifier session = record session {
  state = state;
  nonce = nonce;
  pkce_verifier = verifier;
  flow_created_at = pos (now / second);
  user = none;
}

unfoldable pub login_at :
    (Bytes → String) → Draws → ℕ → Service → OAuth → Request → Call Response String
login_at encode draws now service oauth req = lift (random_token encode draws.state) >>= λ state.
    lift (random_token encode draws.nonce) >>= λ nonce.
    lift (random_token encode draws.verifier) >>= λ verifier.
    lift (or_empty (load_from service.sessions now req.cookies)) >>= λ session.
    save_to service.sessions draws.cookie (started now state nonce verifier session)
    >> pure (oauth.auth_code_url state nonce verifier)

unfoldable pub login_with :
    (Bytes → String) → Draws → ℕ → Service → Option OAuth → Request → Call Response String
login_with encode draws now service none req = fail (auth_disabled "")
login_with encode draws now service (some oauth) req =
    if not service.enabled
    then fail (auth_disabled "")
    else login_at encode draws now service oauth req

-- Login
unfoldable pub login :
    (Bytes → String) → Draws → ℕ → Option Service → Request → Call Response String
login encode draws now none req = fail (auth_disabled "")
login encode draws now (some service) req =
    login_with encode draws now service service.oauth_config req

-- The query of a callback: its code and its state.
unfoldable pub check_query : Request → Result (String × String)
check_query req =
    if not (is_blank (req.query "error"))
    then err (invalid_request "provider returned ")
    else if is_blank (req.query "code") || is_blank (req.query "state")
    then err (invalid_request "code and state are required")
    else ok (req.query "code", req.query "state")

-- The session must hold the flow that the state belongs to, begun at most ten minutes ago.
unfoldable pub check_flow : ℕ → String → Result SessionData → Result SessionData
check_flow now state (ok session) =
    if is_blank session.state || is_blank session.nonce || is_blank session.pkce_verifier
    then err (invalid_state "")
    else if not (str_eq state session.state)
    then err (invalid_state "")
    else if is_zero session.flow_created_at || is_flow_old now session.flow_created_at
    then err (invalid_state "")
    else ok session
check_flow now state (err e) = err (invalid_state "")
check_flow now state panic = panic

-- The user of a verified token, whose claims were decoded.
unfoldable pub token_user : String → IdToken → Option IdClaims → Result SessionUser
token_user raw token none = err (failure "decode oidc claims: ")
token_user raw token (some claims) =
    if is_blank token.subject
    then err (invalid_request "id_token subject is empty")
    else ok (record {
      subject = token.subject;
      email = claims.email;
      name = claims.name;
      picture = claims.picture;
      email_verified = claims.email_verified;
      expires_at = token.expiry;
      id_token = raw;
    })

-- The verified token must answer the nonce of the flow.
unfoldable pub check_token : String → String → Option IdToken → Result SessionUser
check_token raw nonce none = err (failure "verify oidc id_token: ")
check_token raw nonce (some token) =
    if str_eq token.nonce nonce then token_user raw token token.claims else err (invalid_nonce "")

unfoldable pub check_raw : IdVerifier → String → Option String → Result SessionUser
check_raw verify nonce none = err (invalid_request "provider did not return an id_token")
check_raw verify nonce (some raw) =
    if is_blank raw
    then err (invalid_request "provider did not return an id_token")
    else check_token raw nonce (verify raw)

-- What the exchange of the code returned.
unfoldable pub check_exchanged : IdVerifier → String → Option (Option String) → Result SessionUser
check_exchanged verify nonce none = err (failure "exchange oidc authorization code: ")
check_exchanged verify nonce (some id_token) = check_raw verify nonce id_token

-- The exchange of the code, and the checks of the identity token.
unfoldable pub identify : OAuth → IdVerifier → String → SessionData → Call Response SessionUser
identify oauth verify code session w =
    (check_exchanged verify session.nonce (oauth.exchange w code session.pkce_verifier), w)

-- The session after a login.
abbrev pub logged_in : SessionData → SessionUser → SessionData
logged_in session user = record (without_flow session) { user = some user }

-- The flow is consumed before the upstream request: the first save stays made where that fails.
unfoldable pub finish :
    Option Bytes
    → Option Bytes
    → Service
    → OAuth
    → IdVerifier
    → String
    → SessionData
    → Call Response (Unit {0})
finish first last service oauth verify code session =
    save_to service.sessions first (without_flow session) >>= λ _.
    identify oauth verify code session >>= λ user.
    save_to service.sessions last (logged_in session user)

unfoldable pub callback_at :
    Option Bytes
    → Option Bytes
    → ℕ
    → Service
    → OAuth
    → IdVerifier
    → Request
    → Call Response (Unit {0})
callback_at first last now service oauth verify req = lift (check_query req) >>= λ answer.
    lift (check_flow now answer.1 (load_from service.sessions now req.cookies)) >>= λ session.
    finish first last service oauth verify answer.0 session

unfoldable pub callback_with :
    Option Bytes
    → Option Bytes
    → ℕ
    → Service
    → Option OAuth
    → Option IdVerifier
    → Request
    → Call Response (Unit {0})
callback_with first last now service (some oauth) (some verify) req =
    if not service.enabled
    then fail (auth_disabled "")
    else callback_at first last now service oauth verify req
callback_with first last now service _ _ req = fail (auth_disabled "")

-- Callback, with the random bytes of its two cookies.
unfoldable pub callback :
    Option Bytes → Option Bytes → ℕ → Option Service → Request → Call Response (Unit {0})
callback first last now none req = fail (auth_disabled "")
callback first last now (some service) req =
    callback_with first last now service service.oauth_config service.verifier req
