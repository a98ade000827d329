-- ===== src/Server.antt =====
-- internal/server/http: how the handlers answer. The mapping of errors (response.go,
-- auth_handler.go), the decision endpoints (policy_handler.go), the actor of a request (handler.go)
-- and the login's answers. What decodes a body is a parameter: its result is an argument.
pub mod Laws
use Prim.Native.String.{String}
use package.text.Mathlib.Text.{◌==◌ as str_eq}
use permission_center_go.Common.{
  ℕ, Bool, true, false, not, ◌||◌, Option, none, some, if◌then◌else◌, Result, ok, err, panic, Error,
  invalid_argument, not_found, already_exists, conflict, failure, auth_disabled, unauthenticated,
  invalid_token, invalid_request, invalid_state, invalid_nonce, invalid_session,
}
use permission_center_go.Text.{is_blank, has_prefix, trim_prefix, trim_right_by, is_slash, append}
use permission_center_go.Policy.Model.{Answer, Input}
use permission_center_go.Biz.Call.{Call, pure}
use permission_center_go.Biz.Audit.{AuditActor, Context, with_audit_actor}
use permission_center_go.Biz.Policy.{AuthorizationPolicyService}
use permission_center_go.Biz.Policy.Decide.{Decided, Stamp, decide}
use permission_center_go.Auth.Service.{User, Service, Request, public_config}
use permission_center_go.Auth.Identity.{me}

-- A body: an answer of the PDP, bare or in the envelope of the API, a user, an error with its code, or
-- a plain text.
pub data Body : Type 0 where
  answer : Answer → Body
  wrapped_answer : Answer → Body
  user : User → Body
  failed : String → Body
  plain_text : String → Body

pub record Reply : Type 0 where
  pub status : ℕ
  pub body : Body

-- The status of an error: writeError
unfoldable pub status_of : Error → ℕ
status_of (invalid_argument m) = 400
status_of (not_found m) = 404
status_of (already_exists m) = 409
status_of (conflict m) = 409
status_of _ = 500

-- apiErrorCode
unfoldable pub api_error_code : Error → String
api_error_code (invalid_argument m) = "INVALID_ARGUMENT"
api_error_code (not_found m) = "NOT_FOUND"
api_error_code (already_exists m) = "ALREADY_EXISTS"
api_error_code (conflict m) = "CONFLICT"
api_error_code _ = "INTERNAL_ERROR"

-- writeError
abbrev pub write_error : Error → Reply
write_error e = record { status = status_of e; body = failed (api_error_code e) }

-- The status of an error of the login: writeAuthError
unfoldable pub auth_status_of : Error → ℕ
auth_status_of (unauthenticated m) = 401
auth_status_of (auth_disabled m) = 503
auth_status_of (invalid_request m) = 400
auth_status_of (invalid_state m) = 400
auth_status_of (invalid_nonce m) = 400
auth_status_of _ = 500

-- authErrorCode
unfoldable pub auth_error_code : Error → String
auth_error_code (unauthenticated m) = "UNAUTHENTICATED"
auth_error_code (auth_disabled m) = "AUTH_DISABLED"
auth_error_code (invalid_request m) = "INVALID_REQUEST"
auth_error_code (invalid_state m) = "INVALID_STATE"
auth_error_code (invalid_nonce m) = "INVALID_NONCE"
auth_error_code _ = "AUTH_ERROR"

-- writeAuthError
abbrev pub write_auth_error : Error → Reply
write_auth_error e = record { status = auth_status_of e; body = failed (auth_error_code e) }

-- The reply to what Decide returned: a decision may come with an error.
unfoldable pub reply_to : Bool → Result Decided → Result Reply
reply_to raw panic = panic
reply_to raw (err e) = ok (write_error e)
reply_to raw (ok (a, some e)) = ok (write_error e)
reply_to raw (ok (a, none)) =
    ok (record { status = 200; body = if raw then answer a else wrapped_answer a })

-- strings.TrimPrefix(authorization, "Bearer ")
unfoldable pub credential_of : String → String
credential_of authorization =
    if has_prefix authorization "Bearer "
    then trim_prefix authorization "Bearer "
    else authorization

module _ {S : Type 0} where
  unfoldable pub decide_with :
      Bool → Stamp → AuthorizationPolicyService S → Context → Result Input → Call S Reply
  decide_with raw stamp policies ctx panic s = (panic, s)
  decide_with raw stamp policies ctx (err e) s = (ok (write_error e), s)
  decide_with raw stamp policies ctx (ok input) s =
      let (result, s') = decide stamp policies ctx input s in (reply_to raw result, s')

  -- decideAuthorizationPolicy, where `decoded` is the input that decodeJSON made of the body.
  unfoldable pub decide_policy :
      Bool → Stamp → Option (AuthorizationPolicyService S) → Context → Result Input → Call S Reply
  decide_policy raw stamp none ctx decoded = pure (write_error (not_found ""))
  decide_policy raw stamp (some policies) ctx decoded = decide_with raw stamp policies ctx decoded

  -- SimulateAuthorizationPolicy
  unfoldable pub simulate_authorization_policy :
      Stamp → Option (AuthorizationPolicyService S) → Context → Result Input → Call S Reply
  simulate_authorization_policy = decide_policy false

  -- DecideAuthorizationPolicy
  unfoldable pub decide_authorization_policy :
      String
      → String
      → Stamp
      → Option (AuthorizationPolicyService S)
      → Context
      → Result Input
      → Call S Reply
  decide_authorization_policy configured authorization stamp policies ctx decoded =
      if is_blank configured || not (str_eq (credential_of authorization) configured)
      then pure (record { status = 401; body = plain_text "Unauthorized" })
      else decide_policy true stamp policies ctx decoded

-- The actor of a user that is logged in, else the system.
unfoldable pub actor_of : Option User → AuditActor
actor_of none = record { id = "system"; name = "system" }
actor_of (some known) = record { id = known.subject; name = known.name }

-- auditContext, of a context `ctx`
unfoldable pub audit_context : ℕ → Option Service → Request → Context → Context
audit_context now none req ctx = with_audit_actor ctx (actor_of none)
audit_context now (some service) req ctx =
    if service.enabled
    then with_audit_actor ctx (actor_of (me now (some service) req))
    else with_audit_actor ctx (record { id = "development"; name = "开发模式" })

-- dashboardCallbackURL
unfoldable pub dashboard_callback_url : Option Service → String
dashboard_callback_url service =
    append (trim_right_by is_slash (public_config service).post_logout_redirect_uri)
      "/auth/callback"

unfoldable pub me_reply : Option User → Reply
me_reply none = write_auth_error (unauthenticated "")
me_reply (some known) = record { status = 200; body = user known }

-- AuthMe
unfoldable pub auth_me : ℕ → Option Service → Request → Reply
auth_me now none req = write_auth_error (unauthenticated "")
auth_me now (some service) req =
    if not service.enabled
    then record {
      status = 200;
      body = user (record {
        subject = "development";
        email = "";
        name = "开发模式";
        picture = "";
        email_verified = false;
      });
    }
    else me_reply (me now (some service) req)
