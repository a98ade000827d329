-- ===== src/Policy/Eval.antt =====
-- internal/policy/eval/eval.go. `Evaluate` returns a result beside an error, so its outcome is a
-- pair; the outer `Result` of it is a panic or such a pair.
pub mod Spec
mod Total
pub mod Combine
pub mod Order
pub mod Closed
pub mod Scope
pub mod Tests
use package.text.Mathlib.Text.{◌==◌ as str_eq}
use Prim.Native.String.{String}
use permission_center_go.Common.{
  Bool, true, false, not, ◌||◌, ◌&&◌, ◌++◌, Option, none, some, List, [], ◌∷◌, ltb, ◌==◌, is_none,
  if◌then◌else◌, Result, ok, err, panic, Error, failure, ◌>>=◌,
}
use permission_center_go.Text.{trim_space, is_blank}
use permission_center_go.Policy.Value.{
  Value, text, Fields, no_field, field, get_field, deep_equal, contains,
}
use permission_center_go.Policy.Model.{
  Uuid, nil_uuid, Effect, Decision, AuthorizationType, ReasonCode, TargetKind, ValueSource,
  ValueRef, ComparisonOperator, Comparison, Condition, node, Conditions, empty, more,
  MaybeCondition, absent, present, Snapshot, Input, Answer, action_kind_valid,
}
use permission_center_go.Policy.Validate.{has_conditions, has_condition, is_exists}

abbrev pub Outcome : Type 0
Outcome = Result (Answer × Option Error)

pub has_endpoint : List Uuid → Uuid → Bool
has_endpoint [] id = false
has_endpoint (value ∷ values) id = value == id || has_endpoint values id

pub is_subject_role : String → List String → Bool
is_subject_role p [] = false
is_subject_role p (s ∷ subject) = str_eq p s || is_subject_role p subject

pub has_role : List String → List String → Bool
unfolding is_subject_role
has_role [] subject = false
has_role (p ∷ policy) subject = is_subject_role p subject || has_role policy subject

-- `value, ok := root[ref.Path]`; the value of a missing key is nil.
pub read_root : Fields → String → Option Value
unfolding get_field
read_root root path = get_field root path

-- The attributes of the request source.
abbrev request_root : Input → Fields
request_root input =
    field "tenant_id" (text input.tenant_id) (field "method" (text input.action.method) no_field)

-- `none` stands for (nil, false, nil): resolve never returns an error.
resolve_source : ValueSource → ValueRef → Input → Option Value
unfolding read_root
resolve_source ValueSource.literal ref input = some ref.value
resolve_source ValueSource.subject ref input =
    if str_eq ref.path "id"
    then some (text input.subject.id)
    else read_root input.subject.attributes ref.path
resolve_source ValueSource.resource ref input = read_root input.resource.attributes ref.path
resolve_source ValueSource.request ref input = read_root (request_root input) ref.path
resolve_source ValueSource.context ref input = read_root input.context ref.path
resolve_source (ValueSource.unknown other) ref input = none

pub resolve : ValueRef → Input → Option Value
unfolding resolve_source
resolve ref input = resolve_source ref.source ref input

compare_values : ComparisonOperator → Value → Value → Result Bool
compare_values ComparisonOperator.eq left right = ok (deep_equal left right)
compare_values ComparisonOperator.neq left right = ok (not (deep_equal left right))
compare_values ComparisonOperator.in_list left right = ok (contains right left)
compare_values ComparisonOperator.not_in left right = ok (not (contains right left))
compare_values ComparisonOperator.contains left right = ok (contains left right)
compare_values _ left right = err (failure "unsupported operator")

-- The part of `comparison` behind `if !exists`: a nil Right is a panic.
compare_right : ComparisonOperator → Value → Option ValueRef → Input → Result Bool
compare_right op left none input = panic
compare_right op left (some ref) input = elim (resolve ref input) [
  | none ↦ ok false
  | some right ↦ compare_values op left right
]

pub comparison : Comparison → Input → Result Bool
comparison c input =
    if is_exists c.op
    then ok (not (is_none (resolve c.left input)))
    else elim (resolve c.left input) [
      | none ↦ ok false
      | some left ↦ compare_right c.op left c.right input
    ]

abbrev compare_leaf : Option Comparison → Input → Result Bool
compare_leaf none input = panic
compare_leaf (some c) input = comparison c input

abbrev negate : Result Bool → Result Bool
negate r = r >>= λ b. ok (not b)

-- An error of the Go code comes with a Boolean that no caller reads. An empty list in All or Any is
-- the same as a missing one, and a node with nothing set dereferences a nil Comparison.
mutual
  pub matches_condition : Condition → Input → Result Bool
  matches_condition (node all any negated leaf) input =
      let in_all = matches_all all input in
      let in_any = matches_any any input in
      let in_not = matches_optional negated input in
      if has_conditions all
      then in_all
      else if has_conditions any
      then in_any
      else if has_condition negated
      then negate in_not
      else compare_leaf leaf input

  pub matches_all : Conditions → Input → Result Bool
  matches_all empty input = ok true
  matches_all (more c cs) input =
      matches_condition c input >>= λ b. if b then matches_all cs input else ok false

  pub matches_any : Conditions → Input → Result Bool
  matches_any empty input = ok false
  matches_any (more c cs) input =
      matches_condition c input >>= λ b. if b then ok true else matches_any cs input

  -- A nil condition matches.
  pub matches_optional : MaybeCondition → Input → Result Bool
  matches_optional absent input = ok true
  matches_optional (present c) input = matches_condition c input

abbrev same_authorization : AuthorizationType → AuthorizationType → Bool
same_authorization AuthorizationType.api AuthorizationType.api = true
same_authorization AuthorizationType.object_data AuthorizationType.object_data = true
same_authorization (AuthorizationType.unknown s) (AuthorizationType.unknown t) = str_eq s t
same_authorization _ _ = false

-- The tests of the loop that a snapshot must pass before its condition is read.
pub is_applicable : AuthorizationType → Input → Snapshot → Bool
is_applicable type input snapshot =
    same_authorization snapshot.authorization_type type
    && str_eq snapshot.service_resource input.service_resource
    && has_endpoint snapshot.endpoint_ids input.resource.endpoint_id
    && has_role snapshot.role_ids input.subject.role_ids

abbrev pub is_deny : Effect → Bool
is_deny Effect.deny = true
is_deny _ = false

-- The answer with the snapshot among the matched ones.
pub add_match : Snapshot → Answer → Answer
add_match snapshot answer = record answer {
  matched_policy_ids = answer.matched_policy_ids ++ snapshot.policy_id ∷ [];
  snapshot_version =
      if ltb answer.snapshot_version snapshot.version
      then snapshot.version
      else answer.snapshot_version;
}

-- The loop over the snapshots, with `result` and `allow`.
pub evaluate_from : AuthorizationType → Input → Answer → Bool → List Snapshot → Outcome
evaluate_from type input result allow [] = ok (
  if allow
      then record result { decision = Decision.allow; reason_code = ReasonCode.allowed_by_policy }
      else result,
  none,
)
evaluate_from type input result allow (snapshot ∷ snapshots) =
    let skip = evaluate_from type input result allow snapshots in
    let go_on = evaluate_from type input (add_match snapshot result) true snapshots in
    if not (is_applicable type input snapshot)
    then skip
    else elim (matches_optional snapshot.condition input) [
      | panic ↦ panic
      | err e ↦ ok (result, some e)
      | ok matches ↦
          if not matches
          then skip
          else if is_deny snapshot.effect
          then ok (
            record (add_match snapshot result) {
              decision = Decision.deny;
              reason_code = ReasonCode.explicit_deny;
            },
            none,
          )
          else go_on
    ]

abbrev pub denied : ReasonCode → Answer
denied reason = record {
  decision = Decision.deny;
  reason_code = reason;
  matched_policy_ids = [];
  snapshot_version = 0;
}

abbrev pub is_api_endpoint : TargetKind → Bool
is_api_endpoint TargetKind.api_endpoint = true
is_api_endpoint _ = false

-- What an input must have: the negation of the guard of evaluateByAuthorizationType.
pub is_complete : Input → Bool
is_complete input =
    not (is_blank (trim_space input.service_resource))
    && not (is_blank (trim_space input.tenant_id))
    && not (is_blank (trim_space input.subject.id))
    && is_api_endpoint input.resource.kind
    && not (input.resource.endpoint_id == nil_uuid)
    && action_kind_valid input.action.kind

-- evaluateByAuthorizationType
pub evaluate_by_authorization_type : Input → List Snapshot → AuthorizationType → Outcome
unfolding is_complete
evaluate_by_authorization_type input snapshots type =
    if not (is_complete input)
    then ok (
      denied ReasonCode.invalid_input,
      some (failure "service_resource, tenant_id, subject.id and endpoint_id are required"),
    )
    else evaluate_from type input (denied ReasonCode.default_deny) false snapshots

evaluate_strategy : AuthorizationType → Input → List Snapshot → Outcome
evaluate_strategy AuthorizationType.api input snapshots =
    evaluate_by_authorization_type input snapshots AuthorizationType.api
evaluate_strategy AuthorizationType.object_data input snapshots =
    evaluate_by_authorization_type input snapshots AuthorizationType.object_data
evaluate_strategy (AuthorizationType.unknown other) input snapshots =
    ok (denied ReasonCode.invalid_input, some (failure "authorization_type must be api or data"))

-- Evaluate: the strategy of the authorization type, and a denial where there is none.
pub evaluate : Input → List Snapshot → Outcome
unfolding evaluate_strategy
evaluate input snapshots = evaluate_strategy input.authorization_type input snapshots
