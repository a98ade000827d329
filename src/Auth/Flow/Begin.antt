-- ===== src/Auth/Flow/Begin.antt =====
-- A login that was begun can be completed for ten minutes.
use Prim.Native.String.{String}
use Prim.Native.Nat.{◌/◌}
use text.Mathlib.TextPositions.{eq_refl}
use permission_center_go.Common.{
  some-injective, ℕ, zero, suc, ◌≡◌, ◌≤◌, ◌+◌, ◌*◌, refl, sym, ap, ◌∙◌, true, false, Option, none,
  some, [], ◌∷◌, length, ok, pos, arith, subst, ok-injective, not-eq-false,
}
use permission_center_go.Text.{is_blank}
use permission_center_go.Biz.Call.{pure, ◌>>◌}
use permission_center_go.Biz.Call.Attempt.{lift_passed, two_passed, fail_passed}
use permission_center_go.Auth.Session.{
  Bytes, second, flow_max_age, SessionData, SessionStore, Response, Cookie, Cookies, is_flow_old,
  is_zero, cookie_value, current, session_cookie, load, load_from, save, save_to,
}
use permission_center_go.Auth.Session.Laws.{IsFaithful, save-IsSaved}
use permission_center_go.Auth.Service.{IdVerifier, OAuth, Service, Request}
use permission_center_go.Auth.Flow.{
  Draws, random_token, or_empty, started, login_at, login_with, login, check_query, check_flow,
  finish, callback_at, callback_with, callback,
}

-- The three texts of a flow are there.
abbrev ArePresent : String → String → String → Type 0
ArePresent state nonce verifier =
    (is_blank state ≡ false) × (is_blank nonce ≡ false) × (is_blank verifier ≡ false)

pos_counted : (n : ℕ) → 1 ≤ n → is_zero (pos n) ≡ false
pos_counted zero h = absurd (ground arith)
pos_counted (suc n) h = refl

module _ (now later : ℕ) (begun : second ≤ now)
    (intime : later ≤ (now / second + flow_max_age) * second) where
  young : is_flow_old later (pos (now / second)) ≡ false
  unfolding is_flow_old
  young = ground arith

  counted : is_zero (pos (now / second)) ≡ false
  counted = pos_counted (now / second) (ground arith)

  module _ (state nonce verifier : String) (d : SessionData)
      (present : ArePresent state nonce verifier) where
    current-started :
        current later (started now state nonce verifier d) ≡ started now state nonce verifier d
    unfolding current started
    current-started = rw (young, counted)

    check_flow-started :
        check_flow later state (ok (started now state nonce verifier d))
        ≡ ok (started now state nonce verifier d)
    unfolding check_flow started
    check_flow-started = rw (present.0, present.1, present.2, eq_refl state, young, counted)

-- The random values of a login that got them all.
abbrev pub drawn : Bytes → Bytes → Bytes → Bytes → Draws
drawn state nonce verifier random = record {
  state = some state;
  nonce = some nonce;
  verifier = some verifier;
  cookie = some random;
}

-- What a login leaves: a cookie, with which the callback of its state goes on to the exchange.
record IsBegun (now : ℕ) (service : Service) (store : SessionStore) (oauth : OAuth)
    (state nonce verifier : String) (w : Response) (url : String) (w' : Response) : Type 0 where
  pub asked : url ≡ oauth.auth_code_url state nonce verifier
  pub session : SessionData
  pub value : String
  pub set : w' ≡ session_cookie store value ∷ w
  pub continues :
      (first last : Option Bytes) (later : ℕ) (req : Request) (verify : IdVerifier) (u : Response)
      → service.verifier ≡ some verify
      → req.query "error" ≡ ""
      → is_blank (req.query "code") ≡ false
      → req.query "state" ≡ state
      → cookie_value req.cookies store.name ≡ some value
      → later ≤ (now / second + flow_max_age) * second
      → callback first last later (some service) req u
        ≡ finish first last service oauth verify
            (req.query "code")
            (started now state nonce verifier session)
            u

check_query_accepts :
    (req : Request) (state : String)
    → req.query "error" ≡ ""
    → is_blank (req.query "code") ≡ false
    → req.query "state" ≡ state
    → is_blank state ≡ false
    → check_query req ≡ ok (req.query "code", state)
unfolding check_query
check_query_accepts req state clear code named present = rw (clear, code, named, present)

module _ (random : Bytes) (now : ℕ) (service : Service) (store : SessionStore) (w : Response)
    (kept : service.sessions ≡ some store) (faithful : IsFaithful store.block)
    (sized : length random ≡ store.block.nonce_size) (begun : second ≤ now) where
  only_sized : (b : Bytes) → some random ≡ some b → length b ≡ store.block.nonce_size
  only_sized b h = ap length (sym (some-injective h)) ∙ sized

  stored_save :
      (random : Option Bytes) (session : SessionData) (u u' : Response)
      → save_to service.sessions random session u ≡ (ok tt, u')
      → save store random session u ≡ (ok tt, u')
  unfolding save_to
  stored_save random session u u' h =
      subst (λ sessions. save_to sessions random session u ≡ (ok tt, u')) kept h

  module _ (oauth : OAuth) (configured : service.oauth_config ≡ some oauth)
      (enabled : service.enabled ≡ true) (state nonce verifier : String) (session : SessionData)
      (present : ArePresent state nonce verifier) where
    abbrev flow : SessionData
    flow = started now state nonce verifier session

    continues_of :
        (value : String)
        → ((later : ℕ) (cookies : Cookies)
            → cookie_value cookies store.name ≡ some value
            → load store later cookies ≡ ok (current later flow))
        → (first last : Option Bytes) (later : ℕ) (again : Request) (verify : IdVerifier)
          (u : Response)
        → service.verifier ≡ some verify
        → again.query "error" ≡ ""
        → is_blank (again.query "code") ≡ false
        → again.query "state" ≡ state
        → cookie_value again.cookies store.name ≡ some value
        → later ≤ (now / second + flow_max_age) * second
        → callback first last later (some service) again u
          ≡ finish first last service oauth verify (again.query "code") flow u
    unfolding callback callback_with callback_at load_from
    continues_of value loads first last later again verify u verifying clear code named brought
          intime =
        rw (
          configured,
          verifying,
          enabled,
          check_query_accepts again state clear code named present.0,
          kept,
          loads later again.cookies brought,
          current-started now later begun intime state nonce verifier session present,
          check_flow-started now later begun intime state nonce verifier session present,
        )

    saved-IsBegun :
        (url : String) (w' : Response)
        → (save_to service.sessions (some random) flow
              >> pure (oauth.auth_code_url state nonce verifier))
            w
          ≡ (ok url, w')
        → IsBegun now service store oauth state nonce verifier w url w'
    saved-IsBegun url w' h =
        let next = λ (_ : Unit {0}). pure (oauth.auth_code_url state nonce verifier) in
        let (_, u, saved, sent) =
          two_passed (save_to service.sessions (some random) flow) next w h in
        let s =
          save-IsSaved store (some random) flow w u faithful only_sized
            (stored_save (some random) flow w u saved) in
        record {
          asked = sym (ok-injective (ap (λ p. p.0) sent));
          session = session;
          value = s.value;
          set = sym (ap (λ p. p.1) sent) ∙ s.set;
          continues = continues_of s.value s.loads;
        }

module _ (encode : Bytes → String) (state nonce verifier random : Bytes) (now : ℕ)
    (service : Service) (store : SessionStore) (req : Request)
    (kept : service.sessions ≡ some store) (faithful : IsFaithful store.block)
    (sized : length random ≡ store.block.nonce_size) (begun : second ≤ now)
    (present : ArePresent (encode state) (encode nonce) (encode verifier)) where
  abbrev Begins : OAuth → String → Response → Type 0
  Begins oauth url w' =
      IsBegun now service store oauth (encode state) (encode nonce) (encode verifier) [] url w'

  login_at-IsBegun :
      (oauth : OAuth) (url : String) (w' : Response)
      → service.oauth_config ≡ some oauth
      → service.enabled ≡ true
      → login_at encode (drawn state nonce verifier random) now service oauth req [] ≡ (ok url, w')
      → Begins oauth url w'
  unfolding login_at random_token
  login_at-IsBegun oauth url w' configured enabled h =
      let (session, loaded, h1) =
        lift_passed (or_empty (load_from service.sessions now req.cookies)) _ [] h in
      saved-IsBegun random now service store [] kept faithful sized begun oauth configured enabled
        (encode state) (encode nonce) (encode verifier) session present url w' h1

  login_with-IsBegun :
      (o : Option OAuth) (oauth : OAuth) (url : String) (w' : Response)
      → service.oauth_config ≡ some oauth
      → o ≡ some oauth
      → login_with encode (drawn state nonce verifier random) now service o req [] ≡ (ok url, w')
      → Begins oauth url w'
  unfolding login_with
  login_with-IsBegun none oauth url w' configured e h = absurd cc
  login_with-IsBegun (some o) oauth url w' configured e h =
      let (enabled, h1) = fail_passed _ _ _ [] h in
      login_at-IsBegun oauth url w' configured (not-eq-false service.enabled enabled) (
        subst
          (λ o.
            login_at encode (drawn state nonce verifier random) now service o req [] ≡ (ok url, w'))
          (some-injective e) h1)

-- Where the codec is faithful and the random values have their sizes and texts, in a service with
-- sessions, after the first second of 1970: a login that succeeds names the state of its flow, and
-- for ten minutes from the second in which it began, a callback that brings the cookie of the login,
-- the state that it drew, a code and no error passes every check of the flow, and does what `finish`
-- does in a session with the state, the nonce and the verifier that the login drew.
pub login-callback :
    (encode : Bytes → String) (state nonce verifier random : Bytes) (now : ℕ) (service : Service)
    (store : SessionStore) (oauth : OAuth) (verify : IdVerifier) (req : Request) (url : String)
    (cookie : Cookie) (first last : Option Bytes) (later : ℕ) (again : Request) (u : Response)
    → service.sessions ≡ some store
    → service.oauth_config ≡ some oauth
    → service.verifier ≡ some verify
    → IsFaithful store.block
    → length random ≡ store.block.nonce_size
    → is_blank (encode state) ≡ false
    → is_blank (encode nonce) ≡ false
    → is_blank (encode verifier) ≡ false
    → second ≤ now
    → login encode (drawn state nonce verifier random) now (some service) req []
      ≡ (ok url, cookie ∷ [])
    → later ≤ (now / second + flow_max_age) * second
    → again.query "error" ≡ ""
    → is_blank (again.query "code") ≡ false
    → again.query "state" ≡ encode state
    → cookie_value again.cookies store.name ≡ some cookie.value
    → (url ≡ oauth.auth_code_url (encode state) (encode nonce) (encode verifier))
      × (session : SessionData) × (callback first last later (some service) again u
          ≡ finish first last service oauth verify
              (again.query "code")
              (started now (encode state) (encode nonce) (encode verifier) session)
              u)
unfolding login
login-callback encode state nonce verifier random now service store oauth verify req url cookie
      first last later again u kept configured verifying faithful sized t1 t2 t3 begun h intime
      clear code named brought =
    let b =
      login_with-IsBegun encode state nonce verifier random now service store req kept faithful
        sized begun (t1, t2, t3) service.oauth_config oauth url (cookie ∷ []) configured configured
        h in
    let same : cookie.value ≡ b.value = ap last_value b.set in
    (
      b.asked,
      b.session,
      b.continues first last later again verify u verifying clear code named
          (brought ∙ ap some same) intime,
    )
  where
    last_value : Response → String
    last_value [] = ""
    last_value (cookie ∷ cookies) = cookie.value
