-- ===== src/Auth/Session.antt =====
-- internal/auth/session.go: the session that a browser keeps in an encrypted cookie. The packages
-- crypto/cipher, encoding/base64 and encoding/json are a parameter, `Codec`. A stored time is in
-- seconds since 1970, and the clock in nanoseconds.
pub mod Laws
use Prim.Native.String.{String}
use package.text.Mathlib.Text.{◌==◌ as str_eq}
use permission_center_go.Common.{◌>>=◌ as then_result}
use permission_center_go.Common.{
  ℕ, zero, ℤ, pos, negsuc, ◌+◌, ◌*◌, ◌^◌, Bool, true, false, not, ◌&&◌, ◌||◌, Option, none, some,
  List, [], ◌∷◌, ◌++◌, take, drop, length, ltb, if◌then◌else◌, Result, ok, err, panic,
  invalid_session, failure,
}
use permission_center_go.Text.{trim_space, is_blank, len}
use permission_center_go.Biz.Call.{Call, lift, ◌>>=◌}

abbrev pub Bytes : Type 0
Bytes = List ℕ

abbrev pub second : ℕ
second = 10 ^ 9

-- flowMaxAge, in seconds
abbrev pub flow_max_age : ℕ
flow_max_age = 600

-- maxCookieAge, in seconds
abbrev pub max_cookie_age : ℕ
max_cookie_age = 28800

abbrev pub max_cookie_bytes : ℕ
max_cookie_bytes = 3800

pub record SessionUser : Type 0 where
  pub subject : String
  pub email : String
  pub name : String
  pub picture : String
  pub email_verified : Bool
  pub expires_at : ℤ
  pub id_token : String

pub record SessionData : Type 0 where
  pub state : String
  pub nonce : String
  pub pkce_verifier : String
  pub flow_created_at : ℤ
  pub user : Option SessionUser

abbrev pub empty_session : SessionData
empty_session = record {
  state = "";
  nonce = "";
  pkce_verifier = "";
  flow_created_at = pos 0;
  user = none;
}

-- An AEAD under the key of the store, and the encodings of the cookie.
pub record Codec : Type 0 where
  pub nonce_size : ℕ
  pub seal : Bytes → Bytes → Bytes
  pub unseal : Bytes → Bytes → Option Bytes
  pub encode_text : Bytes → String
  pub decode_text : String → Option Bytes
  pub marshal : SessionData → Option Bytes
  pub unmarshal : Bytes → Option SessionData

pub record SessionStore : Type 0 where
  pub name : String
  pub secure : Bool
  pub block : Codec

-- An http.Cookie as the store writes it: always at the path "/", HttpOnly and SameSite=Lax. A
-- negative age asks the browser to drop it.
pub record Cookie : Type 0 where
  pub name : String
  pub value : String
  pub max_age : ℤ
  pub secure : Bool

-- The cookies that a request carries, and those that its response sets, the last one first.
abbrev pub Cookies : Type 0
Cookies = List (String × String)

abbrev pub Response : Type 0
Response = List Cookie

-- r.Cookie(name)
unfoldable pub cookie_value : Cookies → String → Option String
cookie_value [] name = none
cookie_value ((key, value) ∷ cookies) name =
    if str_eq key name then some value else cookie_value cookies name

-- http.SetCookie(w, cookie)
abbrev pub set_cookie : Cookie → Call Response (Unit {0})
set_cookie cookie w = (ok tt, cookie ∷ w)

-- time.Since(time.Unix(created, 0)) > flowMaxAge
unfoldable pub is_flow_old : ℕ → ℤ → Bool
is_flow_old now (pos created) = ltb ((created + flow_max_age) * second) now
is_flow_old now (negsuc before) = ltb (flow_max_age * second) (now + (before + 1) * second)

-- A flow that is not there: FlowCreatedAt == 0.
abbrev pub is_zero : ℤ → Bool
is_zero (pos zero) = true
is_zero _ = false

-- The data without its flow.
abbrev pub without_flow : SessionData → SessionData
without_flow session = record session {
  state = "";
  nonce = "";
  pkce_verifier = "";
  flow_created_at = pos 0;
}

-- The data as `load` returns them: an old flow is dropped.
unfoldable pub current : ℕ → SessionData → SessionData
current now session =
    if not (is_zero session.flow_created_at) && is_flow_old now session.flow_created_at
    then without_flow session
    else session

abbrev or_invalid : {A : Type 0} → Option A → Result A
or_invalid none = err (invalid_session "")
or_invalid (some a) = ok a

-- The plaintext behind the encoded bytes.
unfoldable pub open_bytes : Codec → Bytes → Result Bytes
open_bytes block encoded =
    if ltb (length encoded) block.nonce_size
    then err (invalid_session "")
    else or_invalid (block.unseal (take block.nonce_size encoded) (drop block.nonce_size encoded))

unfoldable pub load_value : SessionStore → ℕ → String → Result SessionData
load_value store now value = then_result (or_invalid (store.block.decode_text value)) λ encoded.
    then_result (open_bytes store.block encoded) λ plaintext.
      then_result (or_invalid (store.block.unmarshal plaintext)) λ session. ok (current now session)

unfoldable pub load_cookie : SessionStore → ℕ → Option String → Result SessionData
load_cookie store now none = ok empty_session
load_cookie store now (some value) = load_value store now value

-- load
unfoldable pub load : SessionStore → ℕ → Cookies → Result SessionData
load store now cookies = load_cookie store now (cookie_value cookies store.name)

-- The cookie that carries a value.
abbrev pub session_cookie : SessionStore → String → Cookie
session_cookie store value = record {
  name = store.name;
  value = value;
  max_age = pos max_cookie_age;
  secure = store.secure;
}

-- The value of the cookie, from the marshalled session and the random bytes that rand.Reader gave.
unfoldable pub text_from : SessionStore → Option Bytes → Option Bytes → Result String
text_from store none random = err (failure "encode authentication session: ")
text_from store (some plaintext) none = err (failure "generate session nonce: ")
text_from store (some plaintext) (some nonce) =
    let value = store.block.encode_text (nonce ++ store.block.seal nonce plaintext) in
    if ltb max_cookie_bytes (len value)
    then err (failure "authentication session exceeds cookie size limit")
    else ok value

-- save: a cookie is set only where its value could be made.
unfoldable pub save : SessionStore → Option Bytes → SessionData → Call Response (Unit {0})
save store random session = lift (text_from store (store.block.marshal session) random) >>= λ value.
    set_cookie (session_cookie store value)

-- clear
unfoldable pub clear : SessionStore → Call Response (Unit {0})
clear store =
    set_cookie (record { name = store.name; value = ""; max_age = negsuc 0; secure = store.secure })

-- newSessionStore, where `codec` is what crypto/aes and crypto/cipher make of the secret.
unfoldable pub new_session_store :
    (String → Result Codec) → String → String → Bool → Result SessionStore
new_session_store codec session_secret cookie_name cookie_secure =
    let secret = trim_space session_secret in
    let name = trim_space cookie_name in
    if is_blank secret
    then err (failure "oidc session secret is empty")
    else then_result (codec secret) λ block. ok (record {
      name = if is_blank name then "permission_center_session" else name;
      secure = cookie_secure;
      block = block;
    })

-- The three operations on a store that may be nil: nothing is kept.
unfoldable pub load_from : Option SessionStore → ℕ → Cookies → Result SessionData
load_from none now cookies = ok empty_session
load_from (some store) now cookies = load store now cookies

unfoldable pub save_to : Option SessionStore → Option Bytes → SessionData → Call Response (Unit {0})
save_to none random session w = (ok tt, w)
save_to (some store) random session w = save store random session w

unfoldable pub clear_in : Option SessionStore → Call Response (Unit {0})
clear_in none w = (ok tt, w)
clear_in (some store) w = clear store w
