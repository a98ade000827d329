-- ===== src/Auth/Startup/Laws.antt =====
-- What a service that New made lets in.
use Prim.Native.String.{String}
use permission_center_go.Common.{
  some-injective, ℕ, ◌≡◌, refl, sym, ap, ◌∙◌, true, false, Option, none, some, Result, ok,
  >>=-eq-ok, refusal_passed, ok-injective, subst, if-not,
}
use permission_center_go.Text.{is_blank, trim_space}
use permission_center_go.Config.{OidcConfig, validate_oidc}
use permission_center_go.Auth.Session.{Codec, SessionStore, new_session_store}
use permission_center_go.Auth.Service.{User, Service, Request, Context}
use permission_center_go.Auth.Bearer.{token, parse_bearer_token, verify_access_token}
use permission_center_go.Auth.Bearer.Laws.{
  IsVouched, verify_access_token-IsVouched, authenticate_bearer_passed,
}
use permission_center_go.Auth.Identity.{forwarded, middleware}
use permission_center_go.Auth.Identity.Laws.{
  Served, by_token, by_context, by_session, middleware-IsServed,
}
use permission_center_go.Auth.Routing.{UrlLibrary, parsed, public_endpoint, new_oidc_http_client}
use permission_center_go.Auth.Startup.{Provider, service_of, discovered, new_service}

-- An enabled service as New makes it: its configuration is valid, and its access tokens are verified
-- for the audience and introspected, as the client of the configuration, at the endpoint that the
-- discovered metadata announce.
pub record IsStarted (urls : UrlLibrary) (discover : String → Option Provider) (cfg : OidcConfig)
    (service : Service) : Type 0 where
  pub valid : validate_oidc (parsed urls) cfg ≡ ok tt
  pub provider : Provider
  pub found : discover cfg.authority ≡ some provider
  pub end_session : String
  pub introspection : String
  pub metadata : provider.metadata ≡ some (end_session, introspection)
  pub announced : is_blank (trim_space introspection) ≡ false
  pub enabled : service.enabled ≡ cfg.enabled
  pub verifies :
      service.verify_access_token
      ≡ some (
          verify_access_token
            (provider.access_verifier cfg.audience)
            (provider.introspect introspection cfg.client_id cfg.client_secret)
            cfg.client_id)

discovered-some :
    (o : Option Provider) {provider : Provider} → discovered o ≡ ok provider → o ≡ some provider
discovered-some none h = absurd cc
discovered-some (some provider) h = ap some (ok-injective h)

module _ (urls : UrlLibrary) (discover : String → Option Provider) (cfg : OidcConfig)
    (endpoint : String → String) (sessions : SessionStore) (provider : Provider)
    (valid : validate_oidc (parsed urls) cfg ≡ ok tt)
    (found : discover cfg.authority ≡ some provider) where
  service_of-IsStarted :
      (metadata : Option (String × String)) {service : Service}
      → provider.metadata ≡ metadata
      → service_of endpoint cfg sessions provider metadata ≡ ok service
      → IsStarted urls discover cfg service
  unfolding service_of
  service_of-IsStarted none told h = absurd cc
  service_of-IsStarted (some (end_session, introspection)) told h =
      let (announced, made) = refusal_passed (is_blank (trim_space introspection)) _ _ h in
      subst (IsStarted urls discover cfg) (ok-injective made) (record {
        valid = valid;
        provider = provider;
        found = found;
        end_session = end_session;
        introspection = introspection;
        metadata = told;
        announced = announced;
        enabled = refl;
        verifies = refl;
      })

pub new_service-IsStarted :
    (urls : UrlLibrary) (codec : String → Result Codec) (discover : String → Option Provider)
    (cfg : OidcConfig) {service : Service}
    → cfg.enabled ≡ true
    → new_service urls codec discover cfg ≡ ok service
    → IsStarted urls discover cfg service
unfolding new_service
new_service-IsStarted urls codec discover cfg enabled h =
    let (unit, valid, h1) =
      >>=-eq-ok (validate_oidc (parsed urls) cfg) _ (sym (if-not cfg.enabled _ _ enabled) ∙ h) in
    let (routing, routed, h2) = >>=-eq-ok (new_oidc_http_client urls cfg) _ h1 in
    let (sessions, stored, h3) =
      >>=-eq-ok (new_session_store codec cfg.session_secret cfg.cookie_name cfg.cookie_secure) _
        h2 in
    let (provider, known, h4) = >>=-eq-ok (discovered (discover cfg.authority)) _ h3 in
    service_of-IsStarted urls discover cfg (public_endpoint urls routing) sessions provider valid
      (discovered-some (discover cfg.authority) known) provider.metadata refl h4

token-injective : {a b : String} → token a ≡ token b → a ≡ b
token-injective h = cc

-- Who the provider of a started service vouches for.
abbrev pub Vouched : (String → Option Provider) → OidcConfig → String → User → Type 0
Vouched discover cfg raw user =
    (provider : Provider) × (end_session : String) × (introspection : String) × (discover
        cfg.authority
      ≡ some provider)
    × (provider.metadata ≡ some (end_session, introspection))
    × IsVouched (provider.access_verifier cfg.audience)
        (provider.introspect introspection cfg.client_id cfg.client_secret) cfg.client_id raw user

module _ (urls : UrlLibrary) (discover : String → Option Provider) (cfg : OidcConfig)
    (service : Service) (started : IsStarted urls discover cfg service) (now : ℕ) (req : Request)
    (raw : String) (parsed_as : parse_bearer_token req.authorization ≡ token raw) where
  Served-Vouched :
      (user : User) → Served now service req user → Vouched discover cfg (trim_space raw) user
  Served-Vouched user (by_context plain e h) = absurd (cc)
  Served-Vouched user (by_session session known plain e f g h) = absurd (cc)
  Served-Vouched user (by_token given parsed_to accepted) =
      let (verify, configured, verified) = authenticate_bearer_passed service given accepted in
      let same_verify = some-injective (sym configured ∙ started.verifies) in
      let same_raw = token-injective (sym parsed_to ∙ parsed_as) in
      (
        started.provider,
        started.end_session,
        started.introspection,
        started.found,
        started.metadata,
        verify_access_token-IsVouched (started.provider.access_verifier cfg.audience)
            (started.provider.introspect started.introspection cfg.client_id cfg.client_secret)
            cfg.client_id (trim_space raw)
            (ap (λ f. f (trim_space raw)) (sym same_verify)
              ∙ ap (λ g. verify (trim_space g)) (sym same_raw)
              ∙ verified),
      )

-- In an enabled service that New made: Middleware passes a request with a bearer token on only in the
-- context of a user whom the discovered provider vouches for: the trimmed token was verified for the
-- configured audience, as an access token with a subject, and the introspection endpoint of the
-- provider's metadata, asked as the configured client, answered 200 and said that it is an active access token of the same
-- subject and client.
pub new_service-Vouched :
    (urls : UrlLibrary) (codec : String → Result Codec) (discover : String → Option Provider)
    (cfg : OidcConfig) (service : Service) (now : ℕ) (req : Request) (raw : String) (ctx : Context)
    → cfg.enabled ≡ true
    → new_service urls codec discover cfg ≡ ok service
    → parse_bearer_token req.authorization ≡ token raw
    → middleware now (some service) req ≡ ok (forwarded ctx)
    → (user : User) × (ctx ≡ some user) × Vouched discover cfg (trim_space raw) user
new_service-Vouched urls codec discover cfg service now req raw ctx enabled made parsed_as h =
    let started = new_service-IsStarted urls codec discover cfg enabled made in
    let (user, known, served) =
      middleware-IsServed now service req ctx (started.enabled ∙ enabled) h in
    (
      user,
      known,
      Served-Vouched urls discover cfg service started now req raw parsed_as user served,
    )
