-- ===== src/Auth/Flow/Replay.antt =====
-- A flow is used at most once: what a callback leaves in the browser cannot finish a callback
-- again.
use Prim.Native.String.{String}
use permission_center_go.Common.{
  ℕ, ◌≡◌, refl, sym, ap, ◌∙◌, Bool, true, false, not, ◌||◌, Option, none, some, [], ◌∷◌, All,
  All-Any, Any, length, Result, ok, err, panic, Error, invalid_state, auth_disabled, subst, ◌≢◌,
  if◌then◌else◌, arith, Bool-cases, inl, inr,
}
use permission_center_go.Text.{is_blank}
use permission_center_go.Biz.Call.{Call, fail, lift, continue, ◌>>=◌}
use permission_center_go.Auth.Session.{
  Bytes, SessionData, SessionStore, Cookie, Response, cookie_value, current, without_flow,
  session_cookie, load, load_from, save, save_to, text_from, set_cookie,
}
use permission_center_go.Auth.Session.Laws.{IsFaithful, save-IsSaved}
use permission_center_go.Auth.Service.{IdVerifier, OAuth, Service, Request}
use permission_center_go.Auth.Flow.{
  check_query, check_flow, identify, logged_in, finish, callback_at, callback_with, callback,
}

-- The call refuses, and sets no cookie.
abbrev pub IsRefused : {A : Type 0} → Call Response A → Type 0
IsRefused m = (u : Response) → (e : Error) × (m u ≡ (err e, u))

IsRefused-if :
    {A : Type 0} (b : Bool) (e : Error) (m : Call Response A)
    → IsRefused m
    → IsRefused (if b then fail e else m)
IsRefused-if true e m h u = (e, refl)
IsRefused-if false e m h u = h u

-- A session without a flow, whenever it is loaded.
current-without_flow :
    (now : ℕ) (session : SessionData) → session.state ≡ "" → (current now session).state ≡ ""
unfolding current
current-without_flow now session h = ground arith

check_flow_rejects :
    (now : ℕ) (state : String) (session : SessionData)
    → session.state ≡ ""
    → check_flow now state (ok session) ≡ err (invalid_state "")
unfolding check_flow
check_flow_rejects now state session h = rw h

check_query_returns : (req : Request) → check_query req ≢ panic
unfolding check_query
check_query_returns req h = elim (Bool-cases (not (is_blank (req.query "error")))) [
  | inl e ↦ cc (rw e at h)
  | inr e ↦ elim (Bool-cases (is_blank (req.query "code") || is_blank (req.query "state"))) [
    | inl f ↦ cc (rw (e, f) at h)
    | inr f ↦ cc (rw (e, f) at h)
  ]
]

-- The call keeps what holds of every cookie that is set.
module _ (P : Cookie → Type 0) where
  abbrev pub Keeps : {A : Type 0} → Call Response A → Type 0
  Keeps m = (w : Response) → All P w → All P (m w).1

  Keeps-bind :
      {A B : Type 0} (m : Call Response A) (f : A → Call Response B)
      → Keeps m
      → ((a : A) → Keeps (f a))
      → Keeps (m >>= f)
  Keeps-bind {A} m f h k w p = after (m w) (h w p)
    where
      after : (q : Result A × Response) → All P q.1 → All P (continue q.0 f q.1).1
      after (ok a, u) p = k a u p
      after (err e, u) p = p
      after (panic, u) p = p

  Keeps-if :
      {A : Type 0} (b : Bool) (m n : Call Response A)
      → Keeps m
      → Keeps n
      → Keeps (if b then m else n)
  Keeps-if true m n h k w p = h w p
  Keeps-if false m n h k w p = k w p

-- No callback accepts the cookie, whatever is asked of the service.
abbrev pub Spent : Service → SessionStore → Cookie → Type 0
Spent service store cookie =
    (first last : Option Bytes) (now : ℕ) (req : Request)
    → cookie_value req.cookies store.name ≡ some cookie.value
    → IsRefused (callback first last now (some service) req)

module _ (service : Service) (store : SessionStore) (kept : service.sessions ≡ some store) where
  abbrev IsSpent : Cookie → Type 0
  IsSpent = Spent service store

  module _ (first last : Option Bytes) (now : ℕ) (req : Request) (session : SessionData)
      (loaded : load store now req.cookies ≡ ok session) (spent : session.state ≡ "") where
    callback_at-IsRefused :
        (oauth : OAuth) (verify : IdVerifier)
        → IsRefused (callback_at first last now service oauth verify req)
    unfolding callback_at load_from
    callback_at-IsRefused oauth verify u = from_query (check_query req) refl
      where
        from_query :
            (asked : Result (String × String))
            → check_query req ≡ asked
            → (e : Error) × ((lift asked >>= λ answer.
                    lift (check_flow now answer.1 (load_from service.sessions now req.cookies))
                    >>= λ session. finish first last service oauth verify answer.0 session)
                  u
                ≡ (err e, u))
        from_query (ok (code, state)) h =
            (invalid_state "", rw (kept, loaded, check_flow_rejects now state session spent))
        from_query (err e) h = (e, refl)
        from_query panic h = absurd (check_query_returns req h)

    callback_with-IsRefused :
        (oauth : Option OAuth) (verify : Option IdVerifier)
        → IsRefused (callback_with first last now service oauth verify req)
    unfolding callback_with
    callback_with-IsRefused none verify u = (auth_disabled "", refl)
    callback_with-IsRefused (some oauth) none u = (auth_disabled "", refl)
    callback_with-IsRefused (some oauth) (some verify) u =
        IsRefused-if (not service.enabled) (auth_disabled "") _ (callback_at-IsRefused oauth verify)
          u

  module _ (faithful : IsFaithful store.block) where
    saved-IsSpent :
        (random : Option Bytes) (session : SessionData) (value : String) (w : Response)
        → ((nonce : Bytes) → random ≡ some nonce → length nonce ≡ store.block.nonce_size)
        → session.state ≡ ""
        → save store random session w ≡ (ok tt, session_cookie store value ∷ w)
        → IsSpent (session_cookie store value)
    unfolding callback
    saved-IsSpent random session value w sized spent h first last now req brought =
        let s = save-IsSaved store random session w _ faithful sized h in
        let same : s.value ≡ value = sym (ap value_of s.set) in
        let loaded = s.loads now req.cookies (brought ∙ ap some (sym same)) in
        callback_with-IsRefused first last now req (current now session) loaded
          (current-without_flow now session spent) service.oauth_config service.verifier
      where
        value_of : Response → String
        value_of [] = ""
        value_of (cookie ∷ cookies) = cookie.value

    module _ (random : Option Bytes) (session : SessionData)
        (sized : (nonce : Bytes) → random ≡ some nonce → length nonce ≡ store.block.nonce_size)
        (spent : session.state ≡ "") where
      Keeps-text :
          (r : Result String) (w : Response)
          → text_from store (store.block.marshal session) random ≡ r
          → All IsSpent w
          → All IsSpent ((lift r >>= λ value. set_cookie (session_cookie store value)) w).1
      unfolding save
      Keeps-text (ok value) w e p = (saved-IsSpent random session value w sized spent (rw e), p)
      Keeps-text (err x) w e p = p
      Keeps-text panic w e p = p

      Keeps-stored : Keeps IsSpent (save_to (some store) random session)
      unfolding save_to save
      Keeps-stored w p = Keeps-text (text_from store (store.block.marshal session) random) w refl p

      Keeps-save : Keeps IsSpent (save_to service.sessions random session)
      Keeps-save = subst (λ s. Keeps IsSpent (save_to s random session)) (sym kept) Keeps-stored

    module _ (first last : Option Bytes) (now : ℕ) (req : Request)
        (first_sized : (nonce : Bytes) → first ≡ some nonce → length nonce ≡ store.block.nonce_size)
        (last_sized : (nonce : Bytes)
          → last ≡ some nonce
          → length nonce ≡ store.block.nonce_size) where
      Keeps-finish :
          (oauth : OAuth) (verify : IdVerifier) (code : String) (session : SessionData)
          → Keeps IsSpent (finish first last service oauth verify code session)
      unfolding finish identify
      Keeps-finish oauth verify code session =
          let identified : Keeps IsSpent (identify oauth verify code session) = λ w p. p in
          Keeps-bind IsSpent (save_to service.sessions first (without_flow session)) _
            (Keeps-save first (without_flow session) first_sized refl)
            (λ _.
              Keeps-bind IsSpent (identify oauth verify code session) _ identified
                (λ user. Keeps-save last (logged_in session user) last_sized refl))

      Keeps-callback_at :
          (oauth : OAuth) (verify : IdVerifier)
          → Keeps IsSpent (callback_at first last now service oauth verify req)
      unfolding callback_at
      Keeps-callback_at oauth verify =
          Keeps-bind IsSpent (lift (check_query req)) _ (λ w p. p)
            (λ answer.
              Keeps-bind IsSpent (lift (check_flow now answer.1 _)) _ (λ w p. p)
                (λ session. Keeps-finish oauth verify answer.0 session))

      Keeps-callback_with :
          (oauth : Option OAuth) (verify : Option IdVerifier)
          → Keeps IsSpent (callback_with first last now service oauth verify req)
      unfolding callback_with
      Keeps-callback_with none verify w p = p
      Keeps-callback_with (some oauth) none w p = p
      Keeps-callback_with (some oauth) (some verify) w p =
          Keeps-if IsSpent (not service.enabled) _ _ (λ w p. p) (Keeps-callback_at oauth verify) w p

callback-Spent :
    (service : Service) (store : SessionStore) (first last : Option Bytes) (now : ℕ) (req : Request)
    → service.sessions ≡ some store
    → IsFaithful store.block
    → ((nonce : Bytes) → first ≡ some nonce → length nonce ≡ store.block.nonce_size)
    → ((nonce : Bytes) → last ≡ some nonce → length nonce ≡ store.block.nonce_size)
    → All (Spent service store) (callback first last now (some service) req []).1
unfolding callback
callback-Spent service store first last now req kept faithful first_sized last_sized =
    Keeps-callback_with service store kept faithful first last now req first_sized last_sized
      service.oauth_config service.verifier [] tt

-- Where the codec is faithful and the random nonces have its size: whatever a callback returns, each
-- cookie that it set is worthless for another one. A callback whose request brings the value of that
-- cookie returns an error and sets no cookie.
pub callback-callback :
    (service : Service) (store : SessionStore) (first last : Option Bytes) (now : ℕ) (req : Request)
    (cookie : Cookie) (first' last' : Option Bytes) (later : ℕ) (again : Request) (u : Response)
    → service.sessions ≡ some store
    → IsFaithful store.block
    → ((nonce : Bytes) → first ≡ some nonce → length nonce ≡ store.block.nonce_size)
    → ((nonce : Bytes) → last ≡ some nonce → length nonce ≡ store.block.nonce_size)
    → Any (λ c. c ≡ cookie) (callback first last now (some service) req []).1
    → cookie_value again.cookies store.name ≡ some cookie.value
    → (e : Error) × (callback first' last' later (some service) again u ≡ (err e, u))
callback-callback service store first last now req cookie first' last' later again u kept faithful
      first_sized last_sized set brought =
    All-Any (callback first last now (some service) req []).1
      (callback-Spent service store first last now req kept faithful first_sized last_sized) set
      (λ c spent same.
        spent first' last' later again (brought ∙ ap (λ c. some c.value) (sym same)) u)
