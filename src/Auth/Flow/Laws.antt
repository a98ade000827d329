-- ===== src/Auth/Flow/Laws.antt =====
-- What a login that was completed went through.
use Prim.Native.String.{String}
use text.Mathlib.TextEquality.{eq_iff}
use package.text.Mathlib.Text.{◌==◌ as str_eq}
use permission_center_go.Common.{
  ℕ, ◌≡◌, refl, sym, ap, true, false, not, ◌||◌, Option, none, some, Result, ok, err, panic, arith,
  Bool-cases, inl, inr, refusal_passed, not-eq-false, ok-injective, subst,
}
use permission_center_go.Text.{is_blank}
use permission_center_go.Biz.Call.{◌>>=◌}
use permission_center_go.Biz.Call.Attempt.{lift_passed, two_passed, fail_passed}
use permission_center_go.Auth.Session.{
  Bytes, SessionUser, SessionData, Response, is_zero, is_flow_old, without_flow, load_from, save_to,
}
use permission_center_go.Auth.Service.{IdToken, IdClaims, IdVerifier, OAuth, Service, Request}
use permission_center_go.Auth.Flow.{
  check_query, check_flow, token_user, check_token, check_raw, check_exchanged, identify, logged_in,
  finish, callback_at, callback_with, callback,
}

-- A session with the flow of this state, which is at most ten minutes old.
pub record IsFlow (now : ℕ) (state : String) (session : SessionData) : Type 0 where
  pub named : state ≡ session.state
  pub state_present : is_blank session.state ≡ false
  pub nonce_present : is_blank session.nonce ≡ false
  pub verifier_present : is_blank session.pkce_verifier ≡ false
  pub begun : is_zero session.flow_created_at ≡ false
  pub recent : is_flow_old now session.flow_created_at ≡ false

IsFlow_of :
    (now : ℕ) (state : String) (d : SessionData)
    → (is_blank d.state || is_blank d.nonce || is_blank d.pkce_verifier) ≡ false
    → not (str_eq state d.state) ≡ false
    → (is_zero d.flow_created_at || is_flow_old now d.flow_created_at) ≡ false
    → IsFlow now state d
IsFlow_of now state d present same fresh = record {
  named = (eq_iff state d.state).0 (ground arith);
  state_present = ground arith;
  nonce_present = ground arith;
  verifier_present = ground arith;
  begun = ground arith;
  recent = ground arith;
}

pub check_flow-IsFlow :
    (now : ℕ) (state : String) (loaded : Result SessionData) {session : SessionData}
    → check_flow now state loaded ≡ ok session
    → (loaded ≡ ok session) × IsFlow now state session
unfolding check_flow
check_flow-IsFlow now state panic h = absurd cc
check_flow-IsFlow now state (err e) h = absurd cc
check_flow-IsFlow now state (ok d) {session} h =
    let (present, h1) = refusal_passed _ _ _ h in
    let (same, h2) = refusal_passed _ _ _ h1 in
    let (fresh, h3) = refusal_passed _ _ _ h2 in
    (h3, subst (IsFlow now state) (ok-injective h3) (IsFlow_of now state d present same fresh))

-- Who logged in: the subject of a token that the exchange of the code gave, made when the response was
-- `w`, that was verified and that answers the nonce.
pub record IsIdentified (oauth : OAuth) (verify : IdVerifier) (code : String)
    (session : SessionData) (w : Response) (user : SessionUser) : Type 0 where
  pub raw : String
  pub exchanged : oauth.exchange w code session.pkce_verifier ≡ some (some raw)
  pub token : IdToken
  pub verified : verify raw ≡ some token
  pub answered : token.nonce ≡ session.nonce
  pub subject : user.subject ≡ token.subject
  pub subject_present : is_blank user.subject ≡ false
  pub expiry : user.expires_at ≡ token.expiry
  pub kept : user.id_token ≡ raw

-- What a token says of its user.
record IsTokenUser (raw : String) (token : IdToken) (user : SessionUser) : Type 0 where
  subject : user.subject ≡ token.subject
  present : is_blank user.subject ≡ false
  expiry : user.expires_at ≡ token.expiry
  kept : user.id_token ≡ raw

token_user-IsTokenUser :
    (raw : String) (token : IdToken) (claims : Option IdClaims) {user : SessionUser}
    → token_user raw token claims ≡ ok user
    → IsTokenUser raw token user
unfolding token_user
token_user-IsTokenUser raw token none h = absurd cc
token_user-IsTokenUser raw token (some claims) h =
    let (present, made) = refusal_passed _ _ _ h in
    subst (IsTokenUser raw token) (ok-injective made)
      (record { subject = refl; present = present; expiry = refl; kept = refl })

module _ (oauth : OAuth) (verify : IdVerifier) (code : String) (session : SessionData)
    (w : Response) where
  check_token-IsIdentified :
      (raw : String) (token : Option IdToken) {user : SessionUser}
      → oauth.exchange w code session.pkce_verifier ≡ some (some raw)
      → verify raw ≡ token
      → check_token raw session.nonce token ≡ ok user
      → IsIdentified oauth verify code session w user
  unfolding check_token
  check_token-IsIdentified raw none e v h = absurd cc
  check_token-IsIdentified raw (some token) {user} e v h =
      elim (Bool-cases (str_eq token.nonce session.nonce)) [
        | inl same ↦
            let t = token_user-IsTokenUser raw token token.claims (rw same at h) in
            record {
              raw = raw;
              exchanged = e;
              token = token;
              verified = v;
              answered = (eq_iff token.nonce session.nonce).0 same;
              subject = t.subject;
              subject_present = t.present;
              expiry = t.expiry;
              kept = t.kept;
            }
        | inr other ↦ absurd (cc (rw other at h))
      ]

  exchanged-IsIdentified :
      (answer : Option (Option String)) {user : SessionUser}
      → oauth.exchange w code session.pkce_verifier ≡ answer
      → check_exchanged verify session.nonce answer ≡ ok user
      → IsIdentified oauth verify code session w user
  unfolding check_exchanged check_raw
  exchanged-IsIdentified none e h = absurd cc
  exchanged-IsIdentified (some none) e h = absurd cc
  exchanged-IsIdentified (some (some raw)) e h =
      let (present, checked) = refusal_passed _ _ _ h in
      check_token-IsIdentified raw (verify raw) e refl checked

  pub identify-IsIdentified :
      {user : SessionUser}
      → (identify oauth verify code session w).0 ≡ ok user
      → IsIdentified oauth verify code session w user
  unfolding identify
  identify-IsIdentified h =
      exchanged-IsIdentified (oauth.exchange w code session.pkce_verifier) refl h

pub check_query_passed :
    (req : Request) {code state : String}
    → check_query req ≡ ok (code, state)
    → (code ≡ req.query "code") × (state ≡ req.query "state")
unfolding check_query
check_query_passed req h =
    let (clear, h1) = refusal_passed (not (is_blank (req.query "error"))) _ _ h in
    let (present, h2) =
      refusal_passed (is_blank (req.query "code") || is_blank (req.query "state")) _ _ h1 in
    let e = ok-injective h2 in (sym (ap (λ p. p.0) e), sym (ap (λ p. p.1) e))

-- A completed login: the session held the flow of the request's state, the provider vouched for the
-- user of the code, and the two cookies were saved, the first without the flow and before the exchange.
pub record IsLogin (first last : Option Bytes) (now : ℕ) (service : Service) (req : Request)
    (w w' : Response) : Type 0 where
  pub oauth : OAuth
  pub configured : service.oauth_config ≡ some oauth
  pub verify : IdVerifier
  pub verifying : service.verifier ≡ some verify
  pub enabled : service.enabled ≡ true
  pub session : SessionData
  pub loaded : load_from service.sessions now req.cookies ≡ ok session
  pub flow : IsFlow now (req.query "state") session
  pub w1 : Response
  pub consumed : save_to service.sessions first (without_flow session) w ≡ (ok tt, w1)
  pub user : SessionUser
  pub identified : IsIdentified oauth verify (req.query "code") session w1 user
  pub saved : save_to service.sessions last (logged_in session user) w1 ≡ (ok tt, w')

module _ (first last : Option Bytes) (now : ℕ) (service : Service) (req : Request)
    (w w' : Response) where
  finish_passed :
      (oauth : OAuth) (verify : IdVerifier) (code : String) (session : SessionData)
      → finish first last service oauth verify code session w ≡ (ok tt, w')
      → (user : SessionUser) × (w1 : Response) × ((identify oauth verify code session w1).0
          ≡ ok user)
        × (save_to service.sessions first (without_flow session) w ≡ (ok tt, w1))
        × (save_to service.sessions last (logged_in session user) w1 ≡ (ok tt, w'))
  unfolding finish identify
  finish_passed oauth verify code session h =
      let next = λ (user : SessionUser). save_to service.sessions last (logged_in session user) in
      let identified = λ (_ : Unit {0}). identify oauth verify code session >>= next in
      let (_, w1, consumed, h1) =
        two_passed (save_to service.sessions first (without_flow session)) identified w h in
      let (user, found, saved) = lift_passed (identify oauth verify code session w1).0 next w1 h1 in
      (user, w1, found, consumed, saved)

  callback_at-IsLogin :
      (oauth : OAuth) (verify : IdVerifier)
      → service.oauth_config ≡ some oauth
      → service.verifier ≡ some verify
      → service.enabled ≡ true
      → callback_at first last now service oauth verify req w ≡ (ok tt, w')
      → IsLogin first last now service req w w'
  unfolding callback_at
  callback_at-IsLogin oauth verify configured verifying enabled h =
      let ((code, state), asked, h1) = lift_passed (check_query req) _ w h in
      let (is_code, is_state) = check_query_passed req asked in
      let (session, checked, h2) = lift_passed (check_flow now state _) _ w h1 in
      let (loaded, flow) = check_flow-IsFlow now state _ checked in
      let (user, w1, found, consumed, saved) = finish_passed oauth verify code session h2 in
      record {
        oauth = oauth;
        configured = configured;
        verify = verify;
        verifying = verifying;
        enabled = enabled;
        session = session;
        loaded = loaded;
        flow = subst (λ state. IsFlow now state session) is_state flow;
        user = user;
        identified =
            subst (λ code. IsIdentified oauth verify code session w1 user) is_code
              (identify-IsIdentified oauth verify code session w1 found);
        w1 = w1;
        consumed = consumed;
        saved = saved;
      }

  callback_with-IsLogin :
      (oauth : Option OAuth) (verify : Option IdVerifier)
      → service.oauth_config ≡ oauth
      → service.verifier ≡ verify
      → callback_with first last now service oauth verify req w ≡ (ok tt, w')
      → IsLogin first last now service req w w'
  unfolding callback_with
  callback_with-IsLogin none verify e f h = absurd cc
  callback_with-IsLogin (some oauth) none e f h = absurd cc
  callback_with-IsLogin (some oauth) (some verify) e f h =
      let (enabled, made) = fail_passed _ _ _ w h in
      callback_at-IsLogin oauth verify e f (not-eq-false service.enabled enabled) made

  -- A callback that succeeds, in a service: the request's state is that of the flow in its session,
  -- begun at most ten minutes ago; the session without the flow was saved; then, with that cookie set,
  -- the code and the PKCE verifier of the flow were exchanged for an identity token that was verified
  -- and whose nonce is that of the flow; and its subject, not empty, is the user saved in the session
  -- last.
  pub callback-IsLogin :
      callback first last now (some service) req w ≡ (ok tt, w')
      → IsLogin first last now service req w w'
  unfolding callback
  callback-IsLogin h = callback_with-IsLogin service.oauth_config service.verifier refl refl h
