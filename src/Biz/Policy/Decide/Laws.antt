-- ===== src/Biz/Policy/Decide/Laws.antt =====
-- What a decision to allow rests on.
use Prim.Native.String.{String}
use text.Mathlib.TextEquality.{eq_iff}
use package.text.Mathlib.Text.{◌==◌ as str_eq}
use permission_center_go.Common.{
  deref-some, ◌≡◌, ◌≢◌, ap, ◌∙◌, true, Option, some, List, ok, err, Error, All, Any, Bool-cases,
  inl, inr, deref, not_found,
}
use permission_center_go.Policy.Model.{
  Decision, ReasonCode, Input, Answer, Snapshot, authorization_type_valid,
}
use permission_center_go.Policy.Eval.{evaluate, denied}
use permission_center_go.Policy.Eval.Closed.{Grants, DoesNotDeny, evaluate_allows}
use permission_center_go.Biz.Call.{pure}
use permission_center_go.Biz.Call.Attempt.{read_passed, two_passed, lift_passed}
use permission_center_go.Biz.Audit.{Context}
use permission_center_go.Biz.Resource.{ensure}
use permission_center_go.Biz.Resource.Active.{IsActiveIn, ensure-Reads, ensure-IsActiveIn}
use permission_center_go.Biz.Endpoint.{ApiEndpoint}
use permission_center_go.Biz.Policy.{AuthorizationPolicyService, ReadsOnly}
use permission_center_go.Biz.Policy.Decide.{
  Stamp, Decided, trimmed_input, with_roles, wrapped, ignored, log_of, decide_trusted, decide_at,
  decide_scoped, decide,
}

ok_answer :
    {S : Type 0} (answer a : Answer) (f e : Option Error) (u t : S)
    → pure {A = Decided} (answer, f) u ≡ (ok (a, e), t)
    → answer ≡ a
ok_answer answer a f e u t h = cc

module _ {S : Type 0} (stamp : Stamp) (service : AuthorizationPolicyService S) (ctx : Context)
    (s : S) where
  -- The published snapshots let this input through, with the roles that the server holds.
  pub record IsTrusted (input : Input) : Type 0 where
    pub role_ids : List String
    pub held :
        service.user_roles.role_ids ctx input.subject.id input.service_resource s ≡ (ok role_ids, s)
    pub snapshots : List Snapshot
    pub published :
        service.repository.list_published_by_endpoint ctx input.service_resource
          input.resource.endpoint_id s
        ≡ (ok snapshots, s)
    pub clear : All (DoesNotDeny input.authorization_type (with_roles input role_ids)) snapshots
    pub granted : Any (Grants input.authorization_type (with_roles input role_ids)) snapshots

  trusted :
      (input : Input) (a : Answer) (e : Option Error) (t : S)
      → ReadsOnly service
      → decide_trusted stamp service ctx input s ≡ (ok (a, e), t)
      → a.decision ≡ Decision.allow
      → IsTrusted input
  unfolding decide_trusted
  trusted input a e t reads h allow =
      let (role_ids, held, h₁) =
        read_passed (service.user_roles.role_ids ctx input.subject.id input.service_resource) _ s
          (reads.user_roles ctx input.subject.id input.service_resource) h in
      let (snapshots, published, h₂) =
        read_passed
          (service.repository.list_published_by_endpoint ctx input.service_resource
            input.resource.endpoint_id)
          _ s (reads.published ctx input.service_resource input.resource.endpoint_id) h₁ in
      let ((answer, failed), evaluated, h₃) =
        lift_passed (evaluate (with_roles input role_ids) snapshots) _ s h₂ in
      let (_, u, _, h₄) =
        two_passed
          (ignored (
            service.repository.save_decision_log ctx
              (log_of stamp (with_roles input role_ids) answer)))
          _ s h₃ in
      let same = ok_answer answer a (wrapped failed) e u t h₄ in
      let (_, _, _, clear, granted) =
        evaluate_allows (with_roles input role_ids) snapshots answer failed evaluated
          (ap (λ x. x.decision) same ∙ allow) in
      record {
        role_ids = role_ids;
        held = held;
        snapshots = snapshots;
        published = published;
        clear = clear;
        granted = granted;
      }

  -- The service resource is active, the endpoint is stored, enabled and of that service resource,
  -- and the published snapshots let the input through.
  pub record IsAllowed (input : Input) : Type 0 where
    pub type_known : authorization_type_valid input.authorization_type ≡ true
    pub active : IsActiveIn service.service_resources ctx input.service_resource s
    pub endpoint : ApiEndpoint
    pub found : service.endpoints.get ctx input.resource.endpoint_id s ≡ (ok (some endpoint), s)
    pub same_scope : endpoint.service_resource ≡ input.service_resource
    pub enabled : endpoint.enabled ≡ true
    pub trusted_input : IsTrusted input

  denies_at :
      {reason : ReasonCode} {f : Option Error} (a : Answer) (e : Option Error) (t : S)
      → pure {A = Decided} (denied reason, f) s ≡ (ok (a, e), t)
      → a.decision ≢ Decision.allow
  denies_at {reason} {f} a e t h allow =
      cc (ap (λ x. x.decision) (ok_answer (denied reason) a f e s t h))

  allowed_at :
      (input : Input) (endpoint : ApiEndpoint) (a : Answer) (e : Option Error) (t : S)
      → ReadsOnly service
      → decide_at stamp service ctx input endpoint s ≡ (ok (a, e), t)
      → a.decision ≡ Decision.allow
      → (endpoint.service_resource ≡ input.service_resource)
        × (endpoint.enabled ≡ true)
        × IsTrusted input
  unfolding decide_at
  allowed_at input endpoint a e t reads h allow =
      elim (Bool-cases (str_eq endpoint.service_resource input.service_resource)) [
        | inr other ↦ absurd (denies_at a e t (rw other at h) allow)
        | inl same ↦ elim (Bool-cases endpoint.enabled) [
          | inr disabled ↦ absurd (denies_at a e t (rw (same, disabled) at h) allow)
          | inl enabled ↦ (
            (eq_iff endpoint.service_resource input.service_resource).0 same,
            enabled,
            trusted input a e t reads (rw (same, enabled) at h) allow,
          )
        ]
      ]

  IsAllowed-scoped :
      (input : Input) (a : Answer) (e : Option Error) (t : S)
      → ReadsOnly service
      → authorization_type_valid input.authorization_type ≡ true
      → decide_scoped stamp service ctx input s ≡ (ok (a, e), t)
      → a.decision ≡ Decision.allow
      → IsAllowed input
  unfolding decide_scoped
  IsAllowed-scoped input a e t reads known h allow =
      let (_, passed, h₁) =
        read_passed
          (ensure (err (not_found "")) service.service_resources ctx input.service_resource) _ s
          (ensure-Reads (err (not_found "")) service.service_resources ctx input.service_resource
            reads.catalog_get)
          h in
      let (stored, found, h₂) =
        read_passed (service.endpoints.get ctx input.resource.endpoint_id) _ s
          (reads.endpoint_get ctx input.resource.endpoint_id) h₁ in
      let (endpoint, there, h₃) = lift_passed (deref stored) _ s h₂ in
      let (same_scope, enabled, trusted_input) = allowed_at input endpoint a e t reads h₃ allow in
      record {
        type_known = known;
        active =
            ensure-IsActiveIn (err (not_found "")) service.service_resources ctx
              input.service_resource s (λ x. cc) passed;
        endpoint = endpoint;
        found = found ∙ ap (λ o. (ok o, s)) (deref-some stored there);
        same_scope = same_scope;
        enabled = enabled;
        trusted_input = trusted_input;
      }

  -- Where the reads only read: if Decide returns an answer that allows, then the
  -- authorization type is known, the trimmed service resource is active, the endpoint is stored,
  -- enabled and of that service resource, and of the snapshots published for it none that applies to
  -- the roles that the server holds for the trimmed subject denies, while some one grants.
  pub decide-IsAllowed :
      (input : Input) (a : Answer) (e : Option Error) (t : S)
      → ReadsOnly service
      → decide stamp service ctx input s ≡ (ok (a, e), t)
      → a.decision ≡ Decision.allow
      → IsAllowed (trimmed_input input)
  unfolding decide
  decide-IsAllowed input a e t reads h allow =
      elim (Bool-cases (authorization_type_valid input.authorization_type)) [
        | inr unknown ↦ absurd (denies_at a e t (rw unknown at h) allow)
        | inl known ↦ IsAllowed-scoped (trimmed_input input) a e t reads known (rw known at h) allow
      ]
