-- ===== src/Biz/Policy/Decide.antt =====
-- internal/biz/policy.go: Decide and DecisionLogs. The stamp holds what a call takes from uuid.New
-- and from the clock. An error beside the zero Result is the error alone; an error beside a result
-- is paired with it.
pub mod Laws
use Prim.Native.String.{String}
use package.text.Mathlib.Text.{◌==◌ as str_eq}
use permission_center_go.Common.{
  ℕ, ℤ, Bool, true, false, not, Option, none, some, List, if◌then◌else◌, Result, ok, err, panic,
  Error, invalid_argument, not_found, deref,
}
use permission_center_go.Text.{trim_space}
use permission_center_go.Policy.Model.{
  Uuid, ReasonCode, Subject, Input, Answer, Snapshot, authorization_type_valid,
}
use permission_center_go.Policy.Eval.{evaluate, denied}
use permission_center_go.Biz.Call.{Call, pure, fail, lift, ◌>>=◌, ◌>>◌}
use permission_center_go.Biz.Audit.{Context}
use permission_center_go.Biz.Resource.{ensure}
use permission_center_go.Biz.Endpoint.{ApiEndpoint}
use permission_center_go.Biz.Policy.{DecisionLog, AuthorizationPolicyService}

pub record Stamp : Type 0 where
  pub decision_id : Uuid
  pub latency_ms : ℤ
  pub occurred_at : ℕ

abbrev pub Decided : Type 0
Decided = Answer × Option Error

-- The input with its scope and its subject trimmed.
abbrev pub trimmed_input : Input → Input
trimmed_input input = record input {
  service_resource = trim_space input.service_resource;
  subject = record (input.subject) { id = trim_space input.subject.id };
}

-- The input with the roles that the server holds.
abbrev pub with_roles : Input → List String → Input
with_roles input role_ids = record input {
  subject = record (input.subject) { role_ids = role_ids };
}

abbrev pub log_of : Stamp → Input → Answer → DecisionLog
log_of stamp input answer = record {
  decision_id = stamp.decision_id;
  request_id = input.request_id;
  service_resource = input.service_resource;
  tenant_id = input.tenant_id;
  subject_id = input.subject.id;
  endpoint_id = input.resource.endpoint_id;
  decision = answer.decision;
  reason_code = answer.reason_code;
  matched_policy_ids = answer.matched_policy_ids;
  snapshot_version = answer.snapshot_version;
  latency_ms = stamp.latency_ms;
  occurred_at = stamp.occurred_at;
}

-- An error of the evaluator becomes one that wraps ErrInvalidArgument.
abbrev pub wrapped : Option Error → Option Error
wrapped none = none
wrapped (some e) = some (invalid_argument "")

-- `_ = call`: its error is dropped.
abbrev pub ignored : {S A : Type 0} → Call S A → Call S (Unit {0})
ignored m s = let (r, s') = m s in (dropped r, s')
  where
    dropped : {A : Type 0} → Result A → Result (Unit {0})
    dropped (ok a) = ok tt
    dropped (err e) = ok tt
    dropped panic = panic

module _ {S : Type 0} (stamp : Stamp) (service : AuthorizationPolicyService S) where
  open service use {repository, endpoints, user_roles, service_resources}

  -- From the read of the roles.
  unfoldable pub decide_trusted : Context → Input → Call S Decided
  decide_trusted ctx input = do
    role_ids ← user_roles.role_ids ctx input.subject.id input.service_resource
    let trusted = with_roles input role_ids
    snapshots ←
        repository.list_published_by_endpoint ctx input.service_resource input.resource.endpoint_id
    outcome ← lift (evaluate trusted snapshots)
    ignored (repository.save_decision_log ctx (log_of stamp trusted outcome.0))
    pure (outcome.0, wrapped outcome.1)

  -- From the endpoint that the repository returned.
  unfoldable pub decide_at : Context → Input → ApiEndpoint → Call S Decided
  decide_at ctx input endpoint =
      if not (str_eq endpoint.service_resource input.service_resource)
      then pure (denied ReasonCode.scope_mismatch, none)
      else if not endpoint.enabled
      then pure (denied ReasonCode.endpoint_disabled, none)
      else decide_trusted ctx input

  unfoldable pub decide_scoped : Context → Input → Call S Decided
  decide_scoped ctx input = do
    ensure (err (not_found "")) service_resources ctx input.service_resource
    found ← endpoints.get ctx input.resource.endpoint_id
    endpoint ← lift (deref found)
    decide_at ctx input endpoint

  unfoldable pub decide : Context → Input → Call S Decided
  decide ctx input =
      if not (authorization_type_valid input.authorization_type)
      then pure (
        denied ReasonCode.invalid_input,
        some (invalid_argument "authorization_type must be api or data"),
      )
      else decide_scoped ctx (trimmed_input input)

  pub decision_logs : Context → String → Uuid → Call S (List DecisionLog)
  decision_logs ctx scope endpoint_id = repository.list_decision_logs ctx scope endpoint_id
