-- ===== src/Auth/Session/Laws.antt =====
-- What is saved is loaded again, within the limits of a cookie.
use Prim.Native.String.{String}
use permission_center_go.Common.{
  ℕ, ◌≡◌, ◌≤◌, refl, sym, ap, ◌∙◌, false, Option, none, some, [], ◌∷◌, ◌++◌, length, length-append,
  take-append, drop-append, ltb, ok, arith, subst, Bool-cases, inl, inr,
}
use permission_center_go.Text.{len}
use permission_center_go.Biz.Call.Attempt.{lift_passed}
use permission_center_go.Auth.Session.{
  Bytes, Codec, SessionData, SessionStore, Cookie, Cookies, Response, max_cookie_bytes,
  cookie_value, current, open_bytes, load_value, load_cookie, load, session_cookie, text_from, save,
}

-- What is relied on of the packages: what they seal, encode and marshal they take apart again.
pub record IsFaithful (block : Codec) : Type 0 where
  pub unsealed :
      (nonce plaintext : Bytes)
      → length nonce ≡ block.nonce_size
      → block.unseal nonce (block.seal nonce plaintext) ≡ some plaintext
  pub decoded : (bytes : Bytes) → block.decode_text (block.encode_text bytes) ≡ some bytes
  pub unmarshalled :
      (session : SessionData) (bytes : Bytes)
      → block.marshal session ≡ some bytes
      → block.unmarshal bytes ≡ some session

open-sealed :
    (block : Codec) (nonce plaintext : Bytes)
    → IsFaithful block
    → length nonce ≡ block.nonce_size
    → open_bytes block (nonce ++ block.seal nonce plaintext) ≡ ok plaintext
unfolding open_bytes
open-sealed block nonce plaintext faithful sized =
    let sealed = block.seal nonce plaintext in
    let fits : ltb (length (nonce ++ sealed)) (length nonce) ≡ false =
      ground (arith, length-append nonce sealed) in
    rw (
      sym sized,
      fits,
      take-append nonce sealed,
      drop-append nonce sealed,
      faithful.unsealed nonce plaintext sized,
    )

-- How a value was made: from random bytes and the marshalled session, within the limit.
pub record IsText (store : SessionStore) (random : Option Bytes) (session : SessionData)
    (value : String) : Type 0 where
  pub nonce : Bytes
  pub drawn : random ≡ some nonce
  pub plaintext : Bytes
  pub marshalled : store.block.marshal session ≡ some plaintext
  pub encoded : value ≡ store.block.encode_text (nonce ++ store.block.seal nonce plaintext)
  pub fits : len value ≤ max_cookie_bytes

text_from-IsText :
    (store : SessionStore) (marshalled random : Option Bytes) (session : SessionData)
    (value : String)
    → store.block.marshal session ≡ marshalled
    → text_from store marshalled random ≡ ok value
    → IsText store random session value
unfolding text_from
text_from-IsText store none random session value e h = cc
text_from-IsText store (some plaintext) none session value e h = cc
text_from-IsText store (some plaintext) (some nonce) session value e h =
    let made = store.block.encode_text (nonce ++ store.block.seal nonce plaintext) in
    elim (Bool-cases (ltb max_cookie_bytes (len made))) [
      | inl big ↦ absurd (cc (rw big at h))
      | inr small ↦
          let same : made ≡ value = cc (rw small at h) in
          record {
            nonce = nonce;
            drawn = refl;
            plaintext = plaintext;
            marshalled = e;
            encoded = sym same;
            fits = subst (λ v. len v ≤ max_cookie_bytes) same (ground arith);
          }
    ]

load-text :
    (store : SessionStore) (random : Option Bytes) (session : SessionData) (value : String)
    (now : ℕ)
    → IsFaithful store.block
    → ((nonce : Bytes) → random ≡ some nonce → length nonce ≡ store.block.nonce_size)
    → IsText store random session value
    → load_value store now value ≡ ok (current now session)
unfolding load_value
load-text store random session value now faithful sized t = rw (
  t.encoded,
  faithful.decoded (t.nonce ++ store.block.seal t.nonce t.plaintext),
  open-sealed store.block t.nonce t.plaintext faithful (sized t.nonce t.drawn),
  faithful.unmarshalled session t.plaintext t.marshalled,
)

-- A saved session: one more cookie, within its limit, from which the session is loaded at any time,
-- as it is then.
pub record IsSaved (store : SessionStore) (session : SessionData) (w w' : Response) : Type 0 where
  pub value : String
  pub set : w' ≡ session_cookie store value ∷ w
  pub fits : len value ≤ max_cookie_bytes
  pub loads :
      (now : ℕ) (cookies : Cookies)
      → cookie_value cookies store.name ≡ some value
      → load store now cookies ≡ ok (current now session)

pub save-IsSaved :
    (store : SessionStore) (random : Option Bytes) (session : SessionData) (w w' : Response)
    → IsFaithful store.block
    → ((nonce : Bytes) → random ≡ some nonce → length nonce ≡ store.block.nonce_size)
    → save store random session w ≡ (ok tt, w')
    → IsSaved store session w w'
unfolding save load load_cookie
save-IsSaved store random session w w' faithful sized h =
    let (value, made, written) = lift_passed (text_from store _ random) _ w h in
    let t = text_from-IsText store _ random session value refl made in
    record {
      value = value;
      set = sym (ap (λ p. p.1) written);
      fits = t.fits;
      loads = λ now cookies brought.
          rw brought (load-text store random session value now faithful sized t);
    }

-- Where the codec is faithful and rand.Reader fills a nonce: the cookie that a session is saved in
-- has at most 3800 bytes, and from a request that brings its value the session is loaded again,
-- without its login flow if that is older than ten minutes then.
pub save-load :
    (store : SessionStore) (random : Option Bytes) (session : SessionData) (w : Response)
    (cookie : Cookie) (now : ℕ) (cookies : Cookies)
    → IsFaithful store.block
    → ((nonce : Bytes) → random ≡ some nonce → length nonce ≡ store.block.nonce_size)
    → save store random session w ≡ (ok tt, cookie ∷ w)
    → cookie_value cookies store.name ≡ some cookie.value
    → (load store now cookies ≡ ok (current now session)) × (len cookie.value ≤ max_cookie_bytes)
save-load store random session w cookie now cookies faithful sized saved brought =
    let s = save-IsSaved store random session w (cookie ∷ w) faithful sized saved in
    let same : cookie.value ≡ s.value = ap last_value s.set in
    (
      s.loads now cookies (brought ∙ ap some same),
      subst (λ v. len v ≤ max_cookie_bytes) (sym same) s.fits,
    )
  where
    last_value : Response → String
    last_value [] = ""
    last_value (cookie ∷ cookies) = cookie.value
