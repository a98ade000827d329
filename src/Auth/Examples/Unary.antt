-- ===== src/Auth/Examples/Unary.antt =====
-- A small codec, which writes a byte in unary and knows three sessions.
use Prim.Native.String.{String}
use text.Mathlib.TextEquality.{eq_iff}
use package.text.Mathlib.Text.{◌==◌ as str_eq}
use permission_center_go.Common.{
  some-injective, ℕ, zero, suc, ◌+◌, ℤ, pos, negsuc, ◌≡◌, refl, ap, ◌∙◌, Bool, true, false, ◌&&◌,
  ◌==◌ as nat_eq, ==_iff, Option, none, some, [], ◌∷◌, arith, if◌then◌else◌, subst,
}
use permission_center_go.Text.{append}
use permission_center_go.Auth.Session.{Bytes, SessionUser, SessionData, empty_session, Codec}
use permission_center_go.Auth.Session.Laws.{IsFaithful}

-- ------------------------------------------------------------------ texts of bytes

abbrev pub unary : ℕ → String → String
unary zero rest = append ";" rest
unary (suc n) rest = append "a" (unary n rest)

abbrev pub encode : Bytes → String
encode [] = ""
encode (b ∷ bytes) = unary b (encode bytes)

abbrev add_byte : ℕ → Option Bytes → Option Bytes
add_byte b none = none
add_byte b (some bytes) = some (b ∷ bytes)

abbrev decode_from : ℕ → String → Option Bytes
decode_from k String.[] = some []
decode_from k (String.◌∷◌ c s) =
    let byte = decode_from (k + 1) s in
    let rest = add_byte k (decode_from 0 s) in
    if str_eq (String.◌∷◌ c String.[]) "a" then byte else rest

decode_from-unary :
    (k n : ℕ) (rest : String) → decode_from k (unary n rest) ≡ add_byte (k + n) (decode_from 0 rest)
decode_from-unary k zero rest = ap (λ n. add_byte n (decode_from 0 rest)) (omega arith)
decode_from-unary k (suc n) rest =
    decode_from-unary (k + 1) n rest ∙ ap (λ n. add_byte n (decode_from 0 rest)) (omega arith)

decode-encode : (bytes : Bytes) → decode_from 0 (encode bytes) ≡ some bytes
decode-encode [] = refl
decode-encode (b ∷ bytes) =
    decode_from-unary 0 b (encode bytes)
    ∙ ap (λ n. add_byte n (decode_from 0 (encode bytes))) (omega arith)
    ∙ ap (add_byte b) (decode-encode bytes)

-- ------------------------------------------------------------------ sessions

abbrev same_int : ℤ → ℤ → Bool
same_int (pos m) (pos n) = nat_eq m n
same_int (negsuc m) (negsuc n) = nat_eq m n
same_int _ _ = false

same_int-eq : (m n : ℤ) → same_int m n ≡ true → m ≡ n
same_int-eq (pos m) (pos n) h = ap pos ((==_iff m n).0 h)
same_int-eq (negsuc m) (negsuc n) h = ap negsuc ((==_iff m n).0 h)
same_int-eq (pos m) (negsuc n) h = absurd cc
same_int-eq (negsuc m) (pos n) h = absurd cc

abbrev same_bool : Bool → Bool → Bool
same_bool true b = b
same_bool false true = false
same_bool false false = true

same_bool-eq : (a b : Bool) → same_bool a b ≡ true → a ≡ b
same_bool-eq a b h = ground arith

abbrev same_user : Option SessionUser → Option SessionUser → Bool
same_user none none = true
same_user (some u) (some v) =
    str_eq u.subject v.subject
    && str_eq u.email v.email
    && str_eq u.name v.name
    && str_eq u.picture v.picture
    && same_bool u.email_verified v.email_verified
    && same_int u.expires_at v.expires_at
    && str_eq u.id_token v.id_token
same_user _ _ = false

text_eq : (s t : String) → str_eq s t ≡ true → s ≡ t
text_eq s t h = (eq_iff s t).0 h

same_user-eq : (u v : Option SessionUser) → same_user u v ≡ true → u ≡ v
same_user-eq none none h = refl
same_user-eq none (some v) h = absurd cc
same_user-eq (some u) none h = absurd cc
same_user-eq (some u) (some v) h =
    let a = text_eq u.subject v.subject (ground arith) in
    let b = text_eq u.email v.email (ground arith) in
    let c = text_eq u.name v.name (ground arith) in
    let d = text_eq u.picture v.picture (ground arith) in
    let e = same_bool-eq u.email_verified v.email_verified (ground arith) in
    let f = same_int-eq u.expires_at v.expires_at (ground arith) in
    let g = text_eq u.id_token v.id_token (ground arith) in
    λ i. some (record {
      subject = a i;
      email = b i;
      name = c i;
      picture = d i;
      email_verified = e i;
      expires_at = f i;
      id_token = g i;
    })

abbrev same_session : SessionData → SessionData → Bool
same_session s t =
    str_eq s.state t.state
    && str_eq s.nonce t.nonce
    && str_eq s.pkce_verifier t.pkce_verifier
    && same_int s.flow_created_at t.flow_created_at
    && same_user s.user t.user

same_session-eq : (s t : SessionData) → same_session s t ≡ true → s ≡ t
same_session-eq s t h =
    let a = text_eq s.state t.state (ground arith) in
    let b = text_eq s.nonce t.nonce (ground arith) in
    let c = text_eq s.pkce_verifier t.pkce_verifier (ground arith) in
    let d = same_int-eq s.flow_created_at t.flow_created_at (ground arith) in
    let e = same_user-eq s.user t.user (ground arith) in
    λ i. record { state = a i; nonce = b i; pkce_verifier = c i; flow_created_at = d i; user = e i }

-- The sessions of the example: before the callback, without its flow, and with the user.
abbrev pub begun : SessionData
begun = record {
  state = "a;";
  nonce = "aa;";
  pkce_verifier = "aaa;";
  flow_created_at = pos 50000;
  user = none;
}

abbrev pub ann : SessionUser
ann = record {
  subject = "ann";
  email = "";
  name = "Ann";
  picture = "";
  email_verified = true;
  expires_at = pos 60000;
  id_token = "raw";
}

abbrev pub known : SessionData
known = record empty_session { user = some ann }

abbrev number_of : Bool → Bool → Bool → Option Bytes
number_of true _ _ = some (1 ∷ [])
number_of _ true _ = some (0 ∷ [])
number_of _ _ true = some (2 ∷ [])
number_of _ _ _ = none

abbrev marshal : SessionData → Option Bytes
marshal s = number_of (same_session begun s) (same_session empty_session s) (same_session known s)

abbrev numbered : ℕ → Option SessionData
numbered zero = some empty_session
numbered (suc zero) = some begun
numbered (suc (suc n)) = some known

abbrev unmarshal : Bytes → Option SessionData
unmarshal (n ∷ []) = numbered n
unmarshal _ = none

abbrev pub example_codec : Codec
example_codec = record {
  nonce_size = 1;
  seal = λ nonce plaintext. plaintext;
  unseal = λ nonce bytes. some bytes;
  encode_text = encode;
  decode_text = decode_from 0;
  marshal = marshal;
  unmarshal = unmarshal;
}

some_byte :
    {bytes bytes' : Bytes} {s : Option SessionData}
    → some bytes ≡ some bytes'
    → unmarshal bytes ≡ s
    → unmarshal bytes' ≡ s
some_byte {bytes} {bytes'} {s} e h = subst (λ b. unmarshal b ≡ s) (some-injective e) h

unmarshal_number :
    (a b c : Bool) (s : SessionData) (bytes : Bytes)
    → (a ≡ true → begun ≡ s)
    → (b ≡ true → empty_session ≡ s)
    → (c ≡ true → known ≡ s)
    → number_of a b c ≡ some bytes
    → unmarshal bytes ≡ some s
unmarshal_number true b c s bytes f g h e = some_byte e (ap some (f refl))
unmarshal_number false true c s bytes f g h e = some_byte e (ap some (g refl))
unmarshal_number false false true s bytes f g h e = some_byte e (ap some (h refl))
unmarshal_number false false false s bytes f g h e = absurd cc

pub example_codec-IsFaithful : IsFaithful example_codec
example_codec-IsFaithful = record {
  unsealed = λ nonce plaintext sized. refl;
  decoded = decode-encode;
  unmarshalled = λ session bytes e.
      unmarshal_number (same_session begun session) (same_session empty_session session)
        (same_session known session) session bytes (same_session-eq begun session)
        (same_session-eq empty_session session) (same_session-eq known session) e;
}
