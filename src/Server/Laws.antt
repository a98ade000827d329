-- ===== src/Server/Laws.antt =====
-- To whom the decision endpoint grants.
use Prim.Native.String.{String}
use text.Mathlib.TextEquality.{eq_iff}
use package.text.Mathlib.Text.{◌==◌ as str_eq}
use permission_center_go.Common.{
  some-injective, ◌≡◌, refl, ap, true, false, not, ◌||◌, Option, none, some, Result, ok, err, panic,
  arith, Bool-cases, inl, inr, ok-injective,
}
use permission_center_go.Text.{is_blank}
use permission_center_go.Policy.Model.{Answer, Input, Decision}
use permission_center_go.Biz.Audit.{Context}
use permission_center_go.Biz.Policy.{AuthorizationPolicyService, ReadsOnly}
use permission_center_go.Biz.Policy.Decide.{Decided, Stamp, decide, trimmed_input}
use permission_center_go.Biz.Policy.Decide.Laws.{IsAllowed, decide-IsAllowed}
use permission_center_go.Server.{
  Reply, Body, answer, reply_to, decide_with, decide_policy, credential_of,
  decide_authorization_policy,
}

-- The bare answer of the PDP.
abbrev pub answered : Answer → Reply
answered a = record { status = 200; body = answer a }

answer_of : Body → Option Answer
answer_of (answer a) = some a
answer_of _ = none

reply_to_passed :
    (r : Result Decided) {a : Answer} → reply_to true r ≡ ok (answered a) → r ≡ ok (a, none)
unfolding reply_to answer_of
reply_to_passed panic h = absurd cc
reply_to_passed (err e) h = absurd (cc (ap (λ r. answer_of r.body) (ok-injective h)))
reply_to_passed (ok (b, some e)) h = absurd (cc (ap (λ r. answer_of r.body) (ok-injective h)))
reply_to_passed (ok (b, none)) h =
    ap (λ a. ok (a, none)) (some-injective (ap (λ r. answer_of r.body) (ok-injective h)))

module _ {S : Type 0} (stamp : Stamp) (ctx : Context) (s t : S) (a : Answer) where
  -- Who asked, and why the answer allows.
  pub record IsGranted (configured authorization : String)
      (policies : Option (AuthorizationPolicyService S)) (decoded : Result Input) : Type 0 where
    pub secret : is_blank configured ≡ false
    pub presented : credential_of authorization ≡ configured
    pub service : AuthorizationPolicyService S
    pub serving : policies ≡ some service
    pub input : Input
    pub sent : decoded ≡ ok input
    pub allowed : IsAllowed stamp service ctx s (trimmed_input input)

  decided_by :
      (service : AuthorizationPolicyService S) (decoded : Result Input)
      → decide_with true stamp service ctx decoded s ≡ (ok (answered a), t)
      → (input : Input) × (decoded ≡ ok input)
        × (decide stamp service ctx input s ≡ (ok (a, none), t))
  unfolding decide_with
  decided_by service panic h = absurd cc
  decided_by service (err e) h = absurd cc
  decided_by service (ok input) h =
      let r = reply_to_passed (decide stamp service ctx input s).0 (ap (λ p. p.0) h) in
      let u = ap (λ p. p.1) h in (input, refl, λ i. (r i, u i))

  module _ (configured authorization : String) (decoded : Result Input)
      (present : is_blank configured ≡ false)
      (presented : credential_of authorization ≡ configured) where
    policy-IsGranted :
        (policies : Option (AuthorizationPolicyService S))
        → ((service : AuthorizationPolicyService S) → policies ≡ some service → ReadsOnly service)
        → decide_policy true stamp policies ctx decoded s ≡ (ok (answered a), t)
        → a.decision ≡ Decision.allow
        → IsGranted configured authorization policies decoded
    unfolding decide_policy
    policy-IsGranted none reads h allow = absurd cc
    policy-IsGranted (some service) reads h allow =
        let (input, sent, decided) = decided_by service decoded h in
        record {
          secret = present;
          presented = presented;
          service = service;
          serving = refl;
          input = input;
          sent = sent;
          allowed =
              decide-IsAllowed stamp service ctx s input a none t (reads service refl) decided
                allow;
        }

  -- Where the reads of the policy service only read: if the decision endpoint of the PDP answers with
  -- a decision that allows, then a credential is configured and the request presented it, and the
  -- decision is one that Decide allows for the decoded input: of an active scope, an enabled endpoint
  -- of it, and published snapshots that let the input through with the roles the server holds.
  pub decide_authorization_policy-IsGranted :
      (configured authorization : String) (decoded : Result Input)
      (policies : Option (AuthorizationPolicyService S))
      → ((service : AuthorizationPolicyService S) → policies ≡ some service → ReadsOnly service)
      → decide_authorization_policy configured authorization stamp policies ctx decoded s
        ≡ (ok (answered a), t)
      → a.decision ≡ Decision.allow
      → IsGranted configured authorization policies decoded
  unfolding decide_authorization_policy
  decide_authorization_policy-IsGranted configured authorization decoded policies reads h allow =
      elim (Bool-cases
        (is_blank configured || not (str_eq (credential_of authorization) configured))) [
          | inl refused ↦ absurd (cc (rw refused at h))
          | inr passed ↦
              policy-IsGranted configured authorization decoded (ground (arith, passed))
                ((eq_iff (credential_of authorization) configured).0 (ground (arith, passed)))
                policies reads (rw passed at h) allow
        ]
