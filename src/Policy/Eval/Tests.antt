-- ===== src/Policy/Eval/Tests.antt =====
-- The evaluator on the example policies.
use mathlib.Core.List.{Permᴰ}
use permission_center_go.Common.{
  ◌≡◌, ◌++◌, refl, true, Option, none, some, ok, Error, [], ◌∷◌, keep, All, Any,
}
use permission_center_go.Policy.Model.{
  AuthorizationType, Decision, ReasonCode, Answer, Input, present, authorization_type_valid,
  action_kind_valid,
}
use permission_center_go.Policy.Examples.{
  owner_inside, allow_owner, deny_outside, foreign, read_from,
}
use permission_center_go.Policy.Validate.Tests.{owner_valid, outside_valid}
use permission_center_go.Policy.Eval.{
  evaluate, matches_optional, is_complete, denied, has_role, has_endpoint,
  evaluate_by_authorization_type, evaluate_from, is_applicable, comparison, resolve, compare_right,
  compare_values, add_match,
}
use permission_center_go.Text.{trim_space}
use permission_center_go.Policy.Value.{deep_equal}
use permission_center_go.Policy.Eval.Spec.{answer_for, is_match, condition_holds}
use permission_center_go.Policy.Eval.Total.{matches_optional-IsPolicyCondition}
use permission_center_go.Policy.Eval.Combine.{evaluate_refines}
use permission_center_go.Policy.Eval.Order.{evaluate_order}
use permission_center_go.Policy.Eval.Closed.{
  Grants, DoesNotDeny, IsMalformed, evaluate_rejects, evaluate_allows,
}
use permission_center_go.Policy.Eval.Scope.{IsForeign, other_scope, evaluate-drop_foreign}

known : authorization_type_valid AuthorizationType.api ≡ true
unfolding authorization_type_valid
known = refl

complete : is_complete (read_from "office") ≡ true
unfolding is_complete trim_space action_kind_valid
complete = refl

abbrev pub allowed : Answer
allowed = record {
  decision = Decision.allow;
  reason_code = ReasonCode.allowed_by_policy;
  matched_policy_ids = 21 ∷ [];
  snapshot_version = 3;
}

pub allows_inside :
    evaluate (read_from "office") (deny_outside ∷ allow_owner ∷ []) ≡ ok (allowed, none)
unfolding evaluate evaluate_by_authorization_type trim_space action_kind_valid evaluate_from
    is_applicable has_endpoint has_role matches_optional comparison resolve compare_right
    compare_values deep_equal add_match
allows_inside = refl

denies_outside :
    evaluate (read_from "home") (allow_owner ∷ deny_outside ∷ [])
    ≡ ok (
      record {
        decision = Decision.deny;
        reason_code = ReasonCode.explicit_deny;
        matched_policy_ids = 22 ∷ [];
        snapshot_version = 3;
      },
      none,
    )
unfolding evaluate evaluate_by_authorization_type trim_space action_kind_valid evaluate_from
    is_applicable has_endpoint has_role matches_optional comparison resolve compare_right
    compare_values deep_equal add_match
denies_outside = refl

matches_optional-IsPolicyCondition_example :
    matches_optional (present owner_inside) (read_from "office")
    ≡ ok (condition_holds (present owner_inside) (read_from "office"))
matches_optional-IsPolicyCondition_example =
    matches_optional-IsPolicyCondition (read_from "office") (present owner_inside) owner_valid

evaluate_refines_example :
    evaluate (read_from "office") (deny_outside ∷ allow_owner ∷ [])
    ≡ ok (
      answer_for (
          keep
            (is_match AuthorizationType.api (read_from "office"))
            (deny_outside ∷ allow_owner ∷ [])),
      none,
    )
evaluate_refines_example =
    evaluate_refines (read_from "office") (deny_outside ∷ allow_owner ∷ []) known complete
      (outside_valid, (owner_valid, tt))

evaluate_order_example :
    (a b : Answer) × (evaluate (read_from "office") (deny_outside ∷ allow_owner ∷ [])
      ≡ ok (a, none))
    × (evaluate (read_from "office") (allow_owner ∷ deny_outside ∷ []) ≡ ok (b, none))
    × (a.decision ≡ b.decision)
    × (a.reason_code ≡ b.reason_code)
evaluate_order_example =
    evaluate_order (read_from "office") (deny_outside ∷ allow_owner ∷ [])
      (allow_owner ∷ deny_outside ∷ []) known complete (outside_valid, (owner_valid, tt))
      (Permᴰ.swap refl refl)

no_tenant : Input
no_tenant = record (read_from "office") { tenant_id = " " }

malformed : IsMalformed no_tenant
unfolding trim_space no_tenant
malformed = IsMalformed.blank_tenant refl

evaluate_rejects_example :
    (e : Error) × (evaluate no_tenant (allow_owner ∷ [])
      ≡ ok (denied ReasonCode.invalid_input, some e))
unfolding no_tenant
evaluate_rejects_example = evaluate_rejects no_tenant (allow_owner ∷ []) malformed

abbrev no_error : Option Error
no_error = none

evaluate_allows_example :
    (authorization_type_valid AuthorizationType.api ≡ true)
    × (is_complete (read_from "office") ≡ true)
    × (no_error ≡ none)
    × All (DoesNotDeny AuthorizationType.api (read_from "office")) (deny_outside ∷ allow_owner ∷ [])
    × Any (Grants AuthorizationType.api (read_from "office")) (deny_outside ∷ allow_owner ∷ [])
evaluate_allows_example =
    evaluate_allows (read_from "office") (deny_outside ∷ allow_owner ∷ []) allowed none
      allows_inside refl

foreign_scope : IsForeign (read_from "office") foreign
foreign_scope = other_scope (λ e. cc)

evaluate-drop_foreign_example :
    evaluate (read_from "office") ((allow_owner ∷ []) ++ foreign ∷ deny_outside ∷ [])
    ≡ evaluate (read_from "office") ((allow_owner ∷ []) ++ deny_outside ∷ [])
evaluate-drop_foreign_example =
    evaluate-drop_foreign (read_from "office") (allow_owner ∷ []) (deny_outside ∷ []) foreign
      foreign_scope
