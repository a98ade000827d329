-- ===== src/Auth/Bearer/Laws.antt =====
-- Who is let in with a bearer token.
use Prim.Native.String.{String}
use text.Mathlib.TextEquality.{eq_iff}
use package.text.Mathlib.Text.{◌==◌ as str_eq}
use permission_center_go.Common.{
  ◌≡◌, refl, sym, ap, Bool, true, false, not, ◌||◌, ◌==◌ as nat_eq, ==_iff, Option, none, some,
  Result, ok, err, panic, arith, >>=-eq-ok, refusal_passed, ok-injective, subst,
}
use permission_center_go.Text.{is_blank, trim_space}
use permission_center_go.Auth.Service.{User, Service}
use permission_center_go.Auth.Bearer.{
  AccessToken, AccessClaims, Introspection, Reply, claimed_user, verified_user,
  verify_nexus_access_token, decoded_body, introspection_of, introspect_nexus_access_token,
  checked_user, verify_access_token, authenticate_with, authenticate_bearer,
}

-- Who a raw token stands for: it was verified as an access token of the user, and the provider says,
-- in an answer of status 200, that it is an active one, of that user and of this client.
pub record IsVouched (verify : String → Option AccessToken) (post : String → Option Reply)
    (client_id : String) (raw : String) (user : User) : Type 0 where
  pub token : AccessToken
  pub verified : verify raw ≡ some token
  pub claims : AccessClaims
  pub claimed : token.claims ≡ some claims
  pub for_access : claims.token_use ≡ "access_token"
  pub subject : user.subject ≡ token.subject
  pub subject_present : is_blank (trim_space user.subject) ≡ false
  pub reply : Reply
  pub answered : post raw ≡ some reply
  pub status : reply.status ≡ 200
  pub body : Introspection
  pub decoded : reply.body ≡ some body
  pub active : body.active ≡ true
  pub same_subject : body.subject ≡ user.subject
  pub same_client : body.client_id ≡ client_id
  pub same_use : body.token_use ≡ "access_token"

-- What the claims of a token say of its user.
record IsClaimed (subject : String) (claims : Option AccessClaims) (user : User) : Type 0 where
  given : AccessClaims
  read : claims ≡ some given
  for_access : given.token_use ≡ "access_token"
  same : user.subject ≡ subject
  present : is_blank (trim_space user.subject) ≡ false

claimed_user-IsClaimed :
    (subject : String) (claims : Option AccessClaims) {user : User}
    → claimed_user subject claims ≡ ok user
    → IsClaimed subject claims user
unfolding claimed_user
claimed_user-IsClaimed subject none h = absurd cc
claimed_user-IsClaimed subject (some claims) h =
    let (checked, made) =
      refusal_passed (not (str_eq claims.token_use "access_token") || is_blank (trim_space subject))
        _ _ h in
    subst (IsClaimed subject (some claims)) (ok-injective made) (record {
      given = claims;
      read = refl;
      for_access = (eq_iff claims.token_use "access_token").0 (ground arith);
      same = refl;
      present = ground arith;
    })

-- What an introspection that was accepted says.
record IsActive (client_id : String) (user : User) (i : Introspection) : Type 0 where
  active : i.active ≡ true
  same_subject : i.subject ≡ user.subject
  same_client : i.client_id ≡ client_id
  same_use : i.token_use ≡ "access_token"

checked_user-IsActive :
    (client_id : String) (user : User) (found : Result Introspection) {last : User}
    → checked_user client_id user found ≡ ok last
    → (i : Introspection) × (found ≡ ok i) × IsActive client_id user i × (last ≡ user)
unfolding checked_user
checked_user-IsActive client_id user panic h = absurd cc
checked_user-IsActive client_id user (err e) h = absurd cc
checked_user-IsActive client_id user (ok i) h =
    let (checked, made) =
      refusal_passed
        (not i.active
          || not (str_eq i.subject user.subject)
          || not (str_eq i.client_id client_id)
          || not (str_eq i.token_use "access_token"))
        _ _ h in
    (
      i,
      refl,
      record {
        active = ground arith;
        same_subject = (eq_iff i.subject user.subject).0 (ground arith);
        same_client = (eq_iff i.client_id client_id).0 (ground arith);
        same_use = (eq_iff i.token_use "access_token").0 (ground arith);
      },
      sym (ok-injective made),
    )

decoded_some :
    (body : Option Introspection) {i : Introspection} → decoded_body body ≡ ok i → body ≡ some i
unfolding decoded_body
decoded_some none h = absurd cc
decoded_some (some body) h = ap some (ok-injective h)

introspection_passed :
    (reply : Option Reply) {i : Introspection}
    → introspection_of reply ≡ ok i
    → (r : Reply) × (reply ≡ some r) × (r.status ≡ 200) × (r.body ≡ some i)
unfolding introspection_of
introspection_passed none h = absurd cc
introspection_passed (some r) h =
    let (status, read) = refusal_passed (not (nat_eq r.status 200)) _ (decoded_body r.body) h in
    (r, refl, (==_iff r.status 200).0 (ground arith), decoded_some r.body read)

verified_passed :
    (t : Option AccessToken) {user : User}
    → verified_user t ≡ ok user
    → (token : AccessToken) × (t ≡ some token) × IsClaimed token.subject token.claims user
unfolding verified_user
verified_passed none h = absurd cc
verified_passed (some token) h = (token, refl, claimed_user-IsClaimed token.subject token.claims h)

pub verify_access_token-IsVouched :
    (verify : String → Option AccessToken) (post : String → Option Reply) (client_id raw : String)
    {user : User}
    → verify_access_token verify post client_id raw ≡ ok user
    → IsVouched verify post client_id raw user
unfolding verify_access_token verify_nexus_access_token introspect_nexus_access_token
verify_access_token-IsVouched verify post client_id raw {user} h =
    let (found, checked, h1) = >>=-eq-ok (verified_user (verify raw)) _ h in
    let (token, verified, c) = verified_passed (verify raw) checked in
    let (body, read, active, same) =
      checked_user-IsActive client_id found (introspection_of (post raw)) h1 in
    let (reply, answered, status, decoded) = introspection_passed (post raw) read in
    subst (IsVouched verify post client_id raw) (sym same) (record {
      token = token;
      verified = verified;
      claims = c.given;
      claimed = c.read;
      for_access = c.for_access;
      subject = c.same;
      subject_present = c.present;
      reply = reply;
      answered = answered;
      status = status;
      body = body;
      decoded = decoded;
      active = active.active;
      same_subject = active.same_subject;
      same_client = active.same_client;
      same_use = active.same_use;
    })

authenticate_with_passed :
    (enabled : Bool) (verifier : Option (String → Result User)) (raw : String) {user : User}
    → authenticate_with enabled verifier raw ≡ ok user
    → (verify : String → Result User) × (verifier ≡ some verify)
      × (verify (trim_space raw) ≡ ok user)
unfolding authenticate_with
authenticate_with_passed enabled none raw h = absurd cc
authenticate_with_passed enabled (some verify) raw h =
    let (on, h1) = refusal_passed (not enabled) _ _ h in
    let (present, h2) = refusal_passed (is_blank (trim_space raw)) _ _ h1 in (verify, refl, h2)

-- A bearer token that is accepted was accepted, trimmed, by the service's verification.
pub authenticate_bearer_passed :
    (service : Service) (raw : String) {user : User}
    → authenticate_bearer (some service) raw ≡ ok user
    → (verify : String → Result User) × (service.verify_access_token ≡ some verify)
      × (verify (trim_space raw) ≡ ok user)
unfolding authenticate_bearer
authenticate_bearer_passed service raw h =
    authenticate_with_passed service.enabled service.verify_access_token raw h
