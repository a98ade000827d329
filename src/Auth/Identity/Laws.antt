-- ===== src/Auth/Identity/Laws.antt =====
-- Whose requests the middleware passes on.
use Prim.Native.String.{String}
use permission_center_go.Common.{
  some-injective, ℕ, ℤ, pos, negsuc, ◌≡◌, ◌<◌, ◌*◌, refl, sym, ap, ◌∙◌, true, false, not, ◌||◌,
  ltb→lt, Option, none, some, Result, ok, err, panic, arith, Bool-cases, inl, inr, if◌then◌else◌,
  subst, if-not,
}
use permission_center_go.Text.{is_blank}
use permission_center_go.Auth.Session.{second, SessionUser, SessionData, is_zero, load_from}
use permission_center_go.Auth.Service.{User, Service, Request, Context, user_from_context}
use permission_center_go.Auth.Bearer.{
  Bearer, absent, malformed, token, parse_bearer_token, authenticate_bearer,
}
use permission_center_go.Auth.Identity.{
  is_before, user_of, live_user, session_user, loaded_user, me, forwarded, bearer_handled,
  me_handled, handled, middleware,
}

-- The second in which something expires is still to come.
abbrev pub IsAhead : ℕ → ℤ → Type 0
IsAhead now expires = (seconds : ℕ) × (expires ≡ pos seconds) × (now < seconds * second)

is_before-IsAhead : (now : ℕ) (expires : ℤ) → is_before now expires ≡ true → IsAhead now expires
unfolding is_before
is_before-IsAhead now (pos seconds) h = (seconds, refl, ltb→lt now (seconds * second) h)
is_before-IsAhead now (negsuc seconds) h = absurd cc

-- Why a request is passed on, in the context of this user.
pub data Served (now : ℕ) (service : Service) (req : Request) (user : User) : Type 0 where
  by_token :
      (raw : String)
      → parse_bearer_token req.authorization ≡ token raw
      → authenticate_bearer (some service) raw ≡ ok user
      → Served now service req user
  by_context :
      parse_bearer_token req.authorization ≡ absent
      → req.context ≡ some user
      → is_blank user.subject ≡ false
      → Served now service req user
  by_session :
      (session : SessionData) (known : SessionUser)
      → parse_bearer_token req.authorization ≡ absent
      → load_from service.sessions now req.cookies ≡ ok session
      → session.user ≡ some known
      → user ≡ user_of known
      → IsAhead now known.expires_at
      → Served now service req user

module _ (now : ℕ) (service : Service) (req : Request)
    (plain : parse_bearer_token req.authorization ≡ absent) where
  live_user-Served :
      (session : SessionData) (known : Option SessionUser) {user : User}
      → load_from service.sessions now req.cookies ≡ ok session
      → session.user ≡ known
      → live_user now known ≡ some user
      → Served now service req user
  unfolding live_user
  live_user-Served session none loaded e h = absurd cc
  live_user-Served session (some known) {user} loaded e h =
      elim (Bool-cases (is_zero known.expires_at || not (is_before now known.expires_at))) [
        | inl expired ↦ absurd (cc (rw expired at h))
        | inr live ↦
            by_session session known plain loaded e (cc (rw live at h))
              (is_before-IsAhead now known.expires_at (ground arith))
      ]

  session_user-Served :
      (loaded : Result SessionData) {user : User}
      → load_from service.sessions now req.cookies ≡ loaded
      → session_user now loaded ≡ some user
      → Served now service req user
  unfolding session_user
  session_user-Served (ok session) e h = live_user-Served session session.user e refl h
  session_user-Served (err x) e h = absurd cc
  session_user-Served panic e h = absurd cc

  me-Served :
      (ctx : Context) {user : User}
      → req.context ≡ ctx
      → (let (known, found) = user_from_context ctx in
          if found then some known else loaded_user now (some service) req)
        ≡ some user
      → Served now service req user
  unfolding user_from_context loaded_user
  me-Served none e h = session_user-Served (load_from service.sessions now req.cookies) refl h
  me-Served (some known) {user} e h = elim (Bool-cases (is_blank known.subject)) [
    | inl blank ↦
        session_user-Served (load_from service.sessions now req.cookies) refl (rw blank at h)
    | inr present ↦
        let same : known ≡ user = some-injective (rw present at h) in
        by_context plain (e ∙ ap some same) (subst (λ u. is_blank u.subject ≡ false) same present)
  ]

module _ (now : ℕ) (service : Service) (req : Request) where
  -- The request went on, in the context of a user that is served.
  abbrev pub IsServed : Context → Type 0
  IsServed ctx = (user : User) × (ctx ≡ some user) × Served now service req user

  forwarded-injective : {c d : Context} → ok (forwarded c) ≡ ok (forwarded d) → c ≡ d
  forwarded-injective h = cc

  bearer_handled-Served :
      (raw : String) (found : Result User) {ctx : Context}
      → parse_bearer_token req.authorization ≡ token raw
      → authenticate_bearer (some service) raw ≡ found
      → bearer_handled req found ≡ ok (forwarded ctx)
      → IsServed ctx
  unfolding bearer_handled
  bearer_handled-Served raw (ok user) parsed e h =
      (user, sym (forwarded-injective h), by_token raw parsed e)
  bearer_handled-Served raw (err x) parsed e h = absurd cc
  bearer_handled-Served raw panic parsed e h = absurd cc

  me_handled-Served :
      (found : Option User) {ctx : Context}
      → parse_bearer_token req.authorization ≡ absent
      → me now (some service) req ≡ found
      → ok (me_handled req found) ≡ ok (forwarded ctx)
      → IsServed ctx
  unfolding me_handled me
  me_handled-Served none plain e h = absurd cc
  me_handled-Served (some user) plain e h =
      (user, sym (forwarded-injective h), me-Served now service req plain req.context refl e)

  handled-Served :
      (bearer : Bearer) {ctx : Context}
      → parse_bearer_token req.authorization ≡ bearer
      → handled now service req bearer ≡ ok (forwarded ctx)
      → IsServed ctx
  unfolding handled
  handled-Served absent e h = me_handled-Served (me now (some service) req) e refl h
  handled-Served malformed e h = absurd cc
  handled-Served (token raw) e h =
      bearer_handled-Served raw (authenticate_bearer (some service) raw) e refl h

  -- In an enabled service: a request that Middleware passes on goes on with a user, who is the one
  -- that its bearer token was accepted for; or, where it has no bearer token, the user of its
  -- context, with a subject, or the user of its session, whose identity token has not expired.
  pub middleware-IsServed :
      (ctx : Context)
      → service.enabled ≡ true
      → middleware now (some service) req ≡ ok (forwarded ctx)
      → IsServed ctx
  unfolding middleware
  middleware-IsServed ctx enabled h =
      handled-Served (parse_bearer_token req.authorization) refl
        (sym (if-not service.enabled _ _ enabled) ∙ h)
