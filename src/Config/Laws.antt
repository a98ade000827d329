-- ===== src/Config/Laws.antt =====
-- What a configuration that was loaded keeps to.
use Prim.Native.String.{String}
use text.Mathlib.TextEquality.{eq_iff}
use package.text.Mathlib.Text.{◌==◌ as str_eq}
use permission_center_go.Common.{
  ℤ, ◌≡◌, ◌≤◌, refl, sym, ◌∙◌, ◌⊎◌, Bool, true, false, not, ◌&&◌, ◌||◌, ltb, Option, List, [], ◌∷◌,
  is_empty, All, Any, here, there, ok, err, Error, arith, Bool-cases, inl, inr, >>=-eq-ok,
  refusal_passed, ok-injective, subst, if◌then◌else◌, if-not, ◌>>◌,
}
use permission_center_go.Text.{trim_space, is_blank, len, any_char}
use permission_center_go.Config.{
  Url, OidcConfig, ServiceResourceConfig, Config, Env, timeout_duration, is_http_url,
  validate_http_url, is_bad_in_name, check_scopes, check_backchannel, check_secrets, validate_oidc,
  check_service_resource, check_config, apply_service_resource_env, lowered_source, load, base_url,
  credential,
}

-- The scopes have no blank entry.
abbrev pub AreScopes : List String → Type 0
AreScopes scopes = All (λ scope. is_blank (trim_space scope) ≡ false) scopes

-- Some scope is openid, once it is trimmed.
abbrev pub HasOpenid : List String → Type 0
HasOpenid scopes = Any (λ scope. trim_space scope ≡ "openid") scopes

check_scopes-HasOpenid :
    (seen : Bool) (scopes : List String)
    → check_scopes seen scopes ≡ ok tt
    → AreScopes scopes × ((seen ≡ true) ⊎ HasOpenid scopes)
unfolding check_scopes
check_scopes-HasOpenid true [] h = (tt, inl refl)
check_scopes-HasOpenid false [] h = absurd cc
check_scopes-HasOpenid seen (scope ∷ scopes) h =
    let (present, rest) = refusal_passed (is_blank (trim_space scope)) _ _ h in
    let (all, found) =
      check_scopes-HasOpenid (seen || str_eq (trim_space scope) "openid") scopes rest in
    ((present, all), elim found [ inl now ↦ seen_here seen now | inr later ↦ inr (there later) ])
  where
    seen_here :
        (seen : Bool)
        → (seen || str_eq (trim_space scope) "openid") ≡ true
        → (seen ≡ true) ⊎ HasOpenid (scope ∷ scopes)
    seen_here true e = inl refl
    seen_here false e = inr (here ((eq_iff (trim_space scope) "openid").0 e))

-- What the session secret, the name of the cookie and the scopes have.
record AreSecrets (c : OidcConfig) : Type 0 where
  long_secret : 32 ≤ len c.session_secret
  named : is_blank (trim_space c.cookie_name) ≡ false
  clean_name : any_char is_bad_in_name c.cookie_name ≡ false
  scopes : AreScopes c.scopes
  openid : HasOpenid c.scopes

check_secrets-AreSecrets : (c : OidcConfig) → check_secrets c ≡ ok tt → AreSecrets c
unfolding check_secrets
check_secrets-AreSecrets c h =
    let (strong, h1) = refusal_passed (ltb (len c.session_secret) 32 || _) _ _ h in
    let (name, h2) =
      refusal_passed (is_blank (trim_space c.cookie_name) || any_char is_bad_in_name c.cookie_name)
        _ _ h1 in
    let (some_scope, h3) = refusal_passed (is_empty c.scopes) _ (check_scopes false c.scopes) h2 in
    let (all, found) = check_scopes-HasOpenid false c.scopes h3 in
    record {
      long_secret = ground (arith, strong);
      named = ground (arith, name);
      clean_name = ground (arith, name);
      scopes = all;
      openid = elim found [ inl no_way ↦ absurd cc | inr openid ↦ openid ];
    }

module _ (parse_url : String → Option Url) where
  -- The text is an absolute address of the web.
  abbrev pub IsAddress : String → Type 0
  IsAddress value = is_http_url (parse_url (trim_space value)) ≡ true

  validate_http_url-IsAddress :
      (value : String) → validate_http_url parse_url value ≡ ok tt → IsAddress value
  unfolding validate_http_url
  validate_http_url-IsAddress value h =
      elim (Bool-cases (is_http_url (parse_url (trim_space value)))) [
        | inl good ↦ good
        | inr bad ↦ absurd (cc (rw bad at h))
      ]

  -- What a valid configuration of an enabled login has.
  pub record IsProtected (c : OidcConfig) : Type 0 where
    pub client : is_blank (trim_space c.client_id) ≡ false
    pub audience : is_blank (trim_space c.audience) ≡ false
    pub secret : is_blank (trim_space c.client_secret) ≡ false
    pub authority : IsAddress c.authority
    pub backchannel :
        is_blank (trim_space c.backchannel_authority) ≡ false → IsAddress c.backchannel_authority
    pub redirect : IsAddress c.redirect_uri
    pub post_logout : IsAddress c.post_logout_redirect_uri
    pub long_secret : 32 ≤ len c.session_secret
    pub named : is_blank (trim_space c.cookie_name) ≡ false
    pub clean_name : any_char is_bad_in_name c.cookie_name ≡ false
    pub scopes : AreScopes c.scopes
    pub openid : HasOpenid c.scopes

  check_backchannel-IsAddress :
      (value : String)
      → check_backchannel parse_url value ≡ ok tt
      → is_blank (trim_space value) ≡ false
      → IsAddress value
  unfolding check_backchannel
  check_backchannel-IsAddress value h present = validate_http_url-IsAddress value (rw present at h)

  checked-IsProtected :
      (c : OidcConfig)
      → (is_blank (trim_space c.authority) || is_blank (trim_space c.client_id)) ≡ false
      → is_blank (trim_space c.audience) ≡ false
      → is_blank (trim_space c.client_secret) ≡ false
      → (validate_http_url parse_url c.authority
          >> check_backchannel parse_url c.backchannel_authority
          >> validate_http_url parse_url c.redirect_uri
          >> validate_http_url parse_url c.post_logout_redirect_uri
          >> check_secrets c)
        ≡ ok tt
      → IsProtected c
  checked-IsProtected c client audience secret h =
      let (_, h1, secrets) = >>=-eq-ok _ _ h in
      let (_, h2, post_logout) = >>=-eq-ok _ _ h1 in
      let (_, h3, redirect) = >>=-eq-ok _ _ h2 in
      let (_, authority, backchannel) = >>=-eq-ok _ _ h3 in
      let s = check_secrets-AreSecrets c secrets in
      record {
        client = ground (arith, client);
        audience = audience;
        secret = secret;
        authority = validate_http_url-IsAddress c.authority authority;
        backchannel = check_backchannel-IsAddress c.backchannel_authority backchannel;
        redirect = validate_http_url-IsAddress c.redirect_uri redirect;
        post_logout = validate_http_url-IsAddress c.post_logout_redirect_uri post_logout;
        long_secret = s.long_secret;
        named = s.named;
        clean_name = s.clean_name;
        scopes = s.scopes;
        openid = s.openid;
      }

  -- Validate accepts an enabled login only if the client, its audience and its secret are named, the
  -- addresses are absolute ones of the web, the session secret has at least 32 bytes, the cookie's
  -- name has no blank, tab, line end or semicolon, and the scopes are not blank and have openid.
  pub validate_oidc-IsProtected :
      (c : OidcConfig) → c.enabled ≡ true → validate_oidc parse_url c ≡ ok tt → IsProtected c
  unfolding validate_oidc
  validate_oidc-IsProtected c enabled h =
      let (client, h1) =
        refusal_passed (is_blank (trim_space c.authority) || is_blank (trim_space c.client_id)) _ _
          (sym (if-not c.enabled _ _ enabled) ∙ h) in
      let (audience, h2) = refusal_passed (is_blank (trim_space c.audience)) _ _ h1 in
      let (secret, h3) = refusal_passed (is_blank (trim_space c.client_secret)) _ _ h2 in
      checked-IsProtected c client audience secret h3

-- The source of the service resources, with what the remote one needs.
pub record IsSourced (parse_url : String → Option Url) (c : ServiceResourceConfig) : Type 0 where
  pub chosen : (c.source ≡ "local") ⊎ (c.source ≡ "nexusauth")
  pub address : c.source ≡ "nexusauth" → IsAddress parse_url (base_url c)
  pub credited : c.source ≡ "nexusauth" → is_blank (credential c) ≡ false

-- A configuration that the programs may run on.
pub record IsUsable (parse_url : String → Option Url) (cfg : Config) : Type 0 where
  pub addr : is_blank cfg.http.addr ≡ false
  pub url : is_blank cfg.database.url ≡ false
  pub sourced : IsSourced parse_url cfg.service_resource
  pub protected : cfg.oidc.enabled ≡ true → IsProtected parse_url cfg.oidc

module _ (parse_url : String → Option Url) (parse_duration : String → Option ℤ) where
  remote_checked :
      (c : ServiceResourceConfig) (e : Error)
      → (if not (str_eq c.source "nexusauth")
          then ok (tt {0})
          else validate_http_url parse_url (base_url c)
            >> (if is_blank (credential c) then err e else ok (tt {0})))
        ≡ ok tt
      → c.source ≡ "nexusauth"
      → IsAddress parse_url (base_url c) × (is_blank (credential c) ≡ false)
  remote_checked c e h remote =
      let is_remote = (eq_iff c.source "nexusauth").1 remote in
      let (_, address, h1) =
        >>=-eq-ok (validate_http_url parse_url (base_url c)) _ (sym (if-not _ _ _ is_remote) ∙ h) in
      let (credited, _) = refusal_passed (is_blank (credential c)) e (ok tt) h1 in
      (validate_http_url-IsAddress parse_url (base_url c) address, credited)

  known_source :
      (source : String)
      → (not (str_eq source "local") && not (str_eq source "nexusauth")) ≡ false
      → (source ≡ "local") ⊎ (source ≡ "nexusauth")
  known_source source h = elim (Bool-cases (str_eq source "local")) [
    | inl is_local ↦ inl ((eq_iff source "local").0 is_local)
    | inr other ↦ inr ((eq_iff source "nexusauth").0 (ground (arith, h, other)))
  ]

  check_service_resource-IsSourced :
      (c : ServiceResourceConfig)
      → check_service_resource parse_url parse_duration c ≡ ok tt
      → IsSourced parse_url c
  unfolding check_service_resource
  check_service_resource-IsSourced c h =
      let (known, h1) =
        refusal_passed (not (str_eq c.source "local") && not (str_eq c.source "nexusauth")) _ _ h in
      let (_, timed, h2) = >>=-eq-ok (timeout_duration parse_duration c) _ h1 in
      record {
        chosen = known_source c.source known;
        address = λ remote. (remote_checked c _ h2 remote).0;
        credited = λ remote. (remote_checked c _ h2 remote).1;
      }

  check_config_passed :
      (cfg : Config) {loaded : Config}
      → check_config parse_url cfg ≡ ok loaded
      → (loaded ≡ cfg)
        × (is_blank cfg.http.addr ≡ false)
        × (is_blank cfg.database.url ≡ false)
        × (cfg.oidc.enabled ≡ true → IsProtected parse_url cfg.oidc)
  unfolding check_config
  check_config_passed cfg h =
      let (present, h1) =
        refusal_passed (is_blank cfg.http.addr || is_blank cfg.database.url) _ _ h in
      let (_, valid, h2) = >>=-eq-ok (validate_oidc parse_url cfg.oidc) _ h1 in
      (
        sym (ok-injective h2),
        ground (arith, present),
        ground (arith, present),
        λ enabled. validate_oidc-IsProtected parse_url cfg.oidc enabled valid,
      )

  -- A configuration that Load returns has an address to listen on and a database, takes the service
  -- resources from the local source or from NexusAuth, and then by an absolute address of the web and
  -- with a credential, and its login, if enabled, is protected: named, with absolute addresses, a
  -- session secret of 32 bytes at least, and the scope openid.
  pub load-IsUsable :
      (env : Env) (file cfg : Config)
      → load parse_url parse_duration env file ≡ ok cfg
      → IsUsable parse_url cfg
  unfolding load
  load-IsUsable env file cfg h =
      let (resource, read, h1) =
        >>=-eq-ok (apply_service_resource_env env file.service_resource) _ h in
      let chosen = lowered_source resource in
      let (_, checked, h2) =
        >>=-eq-ok (check_service_resource parse_url parse_duration chosen) _ h1 in
      let (same, addr, url, protected) = check_config_passed _ h2 in
      subst (IsUsable parse_url) (sym same) (record {
        addr = addr;
        url = url;
        sourced = check_service_resource-IsSourced chosen checked;
        protected = protected;
      })
