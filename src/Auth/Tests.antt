-- ===== src/Auth/Tests.antt =====
-- The login, the middleware and the routing at work.
use Prim.Native.String.{String}
use permission_center_go.Common.{
  some-injective, ℕ, ◌≡◌, ◌≤◌, refl, sym, ap, true, Option, some, [], ◌∷◌, Any, here, Error, length,
  ok, err, arith, subst, ◌||◌,
}
use permission_center_go.Text.{
  is_blank, trim_space, to_lower, len, fields, has_prefix, trim_right_by, trim_prefix,
}
use permission_center_go.Auth.Session.{
  Bytes, SessionData, Cookie, Response, session_cookie, save, text_from, load, is_flow_old,
  max_cookie_bytes, new_session_store, current, cookie_value, load_from, save_to, load_cookie,
  load_value, open_bytes,
}
use permission_center_go.Auth.Session.Laws.{save-load}
use permission_center_go.Auth.Service.{User, Service, Request}
use permission_center_go.Auth.Flow.{
  login, login_at, login_with, callback, callback_with, callback_at, finish, check_query,
  check_flow, identify, check_exchanged, check_raw, check_token, token_user, random_token, or_empty,
  started,
}
use permission_center_go.Auth.Flow.Laws.{IsLogin, callback-IsLogin}
use permission_center_go.Auth.Flow.Replay.{callback-callback}
use permission_center_go.Auth.Flow.Begin.{drawn, login-callback}
use permission_center_go.Auth.Bearer.{
  token, parse_bearer_token, bearer_of, given, authenticate_bearer, authenticate_with,
  verify_access_token, verify_nexus_access_token, verified_user, claimed_user, checked_user,
  introspect_nexus_access_token, introspection_of, decoded_body, verify_access_token,
}
use permission_center_go.Auth.Identity.{middleware, handled, bearer_handled, forwarded}
use permission_center_go.Auth.Identity.Laws.{IsServed, middleware-IsServed}
use permission_center_go.Auth.Routing.{
  parsed, new_oidc_http_client, parse_authority, absolute_http, public_endpoint, suffix_after,
  authority_path_suffix, join_authority_path,
}
use permission_center_go.Auth.Routing.Laws.{join-authority_path_suffix}
use permission_center_go.Auth.Startup.{new_service, service_of}
use permission_center_go.Config.{
  validate_oidc, validate_http_url, check_backchannel, check_secrets, check_scopes,
}
use permission_center_go.Auth.Startup.Laws.{Vouched, new_service-Vouched}
use permission_center_go.Auth.Examples.{
  example_cfg, example_urls, example_provider, encode, begun, example_codec,
  example_codec-IsFaithful, example_store, example_service, example_oauth, example_verifier,
  user_ann, begun_value, callback_request, plain_request, at_second,
}

-- A random byte of the size of a nonce.
abbrev draw : ℕ → Option Bytes
draw n = some (n ∷ [])

draw_sized : (n : ℕ) (b : Bytes) → draw n ≡ some b → length b ≡ 1
draw_sized n b h = ap length (sym (some-injective h))

abbrev saved : String → Response → Response
saved value w = session_cookie example_store value ∷ w

brings_begun : cookie_value callback_request.cookies "session" ≡ some begun_value
unfolding cookie_value
brings_begun = refl

saves_begun : save example_store (draw 7) begun [] ≡ (ok tt, saved begun_value [])
unfolding save text_from
saves_begun = refl

-- The cookie of that session.
abbrev begun_cookie : Cookie
begun_cookie = session_cookie example_store begun_value

save-load_example :
    (load example_store (at_second 50300) callback_request.cookies
      ≡ ok (current (at_second 50300) begun))
    × (len begun_value ≤ max_cookie_bytes)
save-load_example =
    save-load example_store (draw 7) begun [] begun_cookie (at_second 50300)
      callback_request.cookies example_codec-IsFaithful (draw_sized 7) saves_begun brings_begun

-- Ann comes back 300 seconds after her login began.
abbrev after_callback : Response
after_callback = saved "aaa;aa;" (saved "aa;;" [])

completes :
    callback (draw 2) (draw 3) (at_second 50300) (some example_service) callback_request []
    ≡ (ok tt, after_callback)
unfolding callback callback_with callback_at finish check_query check_flow identify check_exchanged
    check_raw check_token token_user load_from load cookie_value current is_flow_old save_to save
    text_from load_cookie load_value open_bytes
completes = refl

callback-IsLogin_example :
    IsLogin (draw 2) (draw 3) (at_second 50300) example_service callback_request [] after_callback
callback-IsLogin_example =
    callback-IsLogin (draw 2) (draw 3) (at_second 50300) example_service callback_request []
      after_callback completes

left :
    Any
      (λ c. c ≡ session_cookie example_store "aaa;aa;")
      (callback (draw 2) (draw 3) (at_second 50300) (some example_service) callback_request []).1
left =
    subst (Any (λ c. c ≡ session_cookie example_store "aaa;aa;")) (sym (ap (λ p. p.1) completes))
      (here refl)

-- The cookie that the callback left last, and a request that brings it.
abbrev known_cookie : Cookie
known_cookie = session_cookie example_store "aaa;aa;"

abbrev known_request : Request
known_request = record callback_request { cookies = ("session", "aaa;aa;") ∷ [] }

brings_known : cookie_value known_request.cookies "session" ≡ some "aaa;aa;"
unfolding cookie_value
brings_known = refl

callback-callback_example :
    (e : Error) × (callback
        (draw 4)
        (draw 5)
        (at_second 50301)
        (some example_service)
        known_request
        []
      ≡ (err e, []))
callback-callback_example =
    callback-callback example_service example_store (draw 2) (draw 3) (at_second 50300)
      callback_request known_cookie (draw 4) (draw 5) (at_second 50301) known_request [] refl
      example_codec-IsFaithful (draw_sized 2) (draw_sized 3) left brings_known

begins :
    login encode
      (drawn (1 ∷ []) (2 ∷ []) (3 ∷ []) (7 ∷ []))
      (at_second 50000)
      (some example_service)
      plain_request
      []
    ≡ (ok "https://id.example/auth?state=a;", begun_cookie ∷ [])
unfolding login login_at login_with random_token or_empty started load_from load load_cookie
    cookie_value save_to save text_from
begins = refl

login-callback_example :
    ("https://id.example/auth?state=a;" ≡ example_oauth.auth_code_url "a;" "aa;" "aaa;")
    × (session : SessionData) × (callback
          (draw 2)
          (draw 3)
          (at_second 50300)
          (some example_service)
          callback_request
          []
        ≡ finish
            (draw 2)
            (draw 3)
            example_service
            example_oauth
            example_verifier
            "c"
            (started (at_second 50000) "a;" "aa;" "aaa;" session)
            [])
login-callback_example =
    login-callback encode (1 ∷ []) (2 ∷ []) (3 ∷ []) (7 ∷ []) (at_second 50000) example_service
      example_store example_oauth example_verifier plain_request "https://id.example/auth?state=a;"
      begun_cookie (draw 2) (draw 3) (at_second 50300) callback_request [] refl refl refl
      example_codec-IsFaithful refl refl refl refl (ground arith) begins (ground arith) refl refl
      refl brings_begun

-- Ann's program brings a bearer token.
abbrev token_request : Request
token_request = record plain_request { authorization = "Bearer t0k" }

passes :
    middleware (at_second 50300) (some example_service) token_request
    ≡ ok (forwarded (some user_ann))
unfolding middleware handled parse_bearer_token bearer_of given fields authenticate_bearer
    authenticate_with bearer_handled trim_space to_lower
passes = refl

middleware-IsServed_example :
    IsServed (at_second 50300) example_service token_request (some user_ann)
middleware-IsServed_example =
    middleware-IsServed (at_second 50300) example_service token_request (some user_ann) refl passes

-- A backchannel at the root of its host.
suffix_found : authority_path_suffix "/auth/v1/token" "/auth/" ≡ some "/v1/token"
unfolding authority_path_suffix suffix_after trim_right_by has_prefix trim_prefix
suffix_found = refl

rooted : (is_blank "/auth/v1/token" || has_prefix "/auth/v1/token" "/") ≡ true
unfolding has_prefix
rooted = refl

join-authority_path_suffix_example :
    (join_authority_path "/auth/" "/v1/token" ≡ "/auth/v1/token")
    × (authority_path_suffix (join_authority_path "" "/v1/token") "" ≡ some "/v1/token")
join-authority_path_suffix_example =
    join-authority_path_suffix "/auth/v1/token" "/auth/" "" "/v1/token" rooted suffix_found

-- A service that New makes passes Ann on.
abbrev made_service : Service
made_service = record {
  cfg = example_cfg;
  enabled = true;
  oauth_config = some example_oauth;
  verifier = some example_verifier;
  verify_access_token = some (
      verify_access_token (example_provider.access_verifier "api")
        (example_provider.introspect "https://id.example/auth/introspect" "center" "secret")
        "center");
  end_session_endpoint = "https://id.example/auth/logout";
  sessions = some example_store;
}

makes :
    new_service example_urls
      (λ secret. ok example_codec)
      (λ authority. some example_provider)
      example_cfg
    ≡ ok made_service
unfolding new_service validate_oidc trim_space validate_http_url parsed check_backchannel
    check_secrets has_prefix check_scopes new_oidc_http_client parse_authority absolute_http
    new_session_store service_of public_endpoint
makes = refl

passes_made :
    middleware (at_second 50300) (some made_service) token_request ≡ ok (forwarded (some user_ann))
unfolding middleware handled parse_bearer_token bearer_of given fields authenticate_bearer
    authenticate_with bearer_handled trim_space to_lower verify_access_token
    verify_nexus_access_token verified_user claimed_user checked_user introspect_nexus_access_token
    introspection_of decoded_body
passes_made = refl

parses : parse_bearer_token "Bearer t0k" ≡ token "t0k"
unfolding parse_bearer_token bearer_of given fields trim_space to_lower
parses = refl

new_service-Vouched_example :
    (user : User) × (some user_ann ≡ some user)
    × Vouched (λ authority. some example_provider) example_cfg (trim_space "t0k") user
new_service-Vouched_example =
    new_service-Vouched example_urls (λ secret. ok example_codec)
      (λ authority. some example_provider) example_cfg made_service (at_second 50300) token_request
      "t0k" (some user_ann) refl makes parses passes_made
