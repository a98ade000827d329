-- ===== src/Policy/Eval/Spec.antt =====
-- What a condition says and how matching policies combine, described without the evaluator's order
-- of tests, its errors and its early exits.
use permission_center_go.Common.{
  ℕ, max, Bool, true, false, not, ◌&&◌, ◌||◌, Option, none, some, List, [], ◌∷◌, map, any, is_empty,
  if◌then◌else◌,
}
use permission_center_go.Policy.Value.{Value, deep_equal, contains}
use permission_center_go.Policy.Model.{
  Uuid, Decision, AuthorizationType, ReasonCode, ValueRef, ComparisonOperator, Comparison,
  Condition, node, Conditions, empty, more, MaybeCondition, absent, present, Snapshot, Input,
  Answer,
}
use permission_center_go.Policy.Eval.{resolve, is_applicable, is_deny}

-- Whether two operands, each there or missing, stand in the relation of the operator.
abbrev pub operands_hold : ComparisonOperator → Option Value → Option Value → Bool
operands_hold ComparisonOperator.exists (some left) right = true
operands_hold ComparisonOperator.eq (some left) (some right) = deep_equal left right
operands_hold ComparisonOperator.neq (some left) (some right) = not (deep_equal left right)
operands_hold ComparisonOperator.in_list (some left) (some right) = contains right left
operands_hold ComparisonOperator.not_in (some left) (some right) = not (contains right left)
operands_hold ComparisonOperator.contains (some left) (some right) = contains left right
operands_hold _ left right = false

abbrev resolve_maybe : Input → Option ValueRef → Option Value
resolve_maybe input none = none
resolve_maybe input (some ref) = resolve ref input

unfoldable pub comparison_holds : Comparison → Input → Bool
comparison_holds c input = operands_hold c.op (resolve c.left input) (resolve_maybe input c.right)

abbrev pub leaf_holds : Option Comparison → Input → Bool
leaf_holds none input = true
leaf_holds (some c) input = comparison_holds c input

-- A node holds if everything that it sets holds.
unfoldable mutual
  pub holds : Condition → Input → Bool
  holds (node all any negated leaf) input =
      all_hold all input && some_holds any input && not_holds negated input && leaf_holds leaf input

  pub all_hold : Conditions → Input → Bool
  all_hold empty input = true
  all_hold (more c cs) input = holds c input && all_hold cs input

  -- No list at all is no demand.
  pub some_holds : Conditions → Input → Bool
  some_holds empty input = true
  some_holds (more c cs) input = holds c input || one_holds cs input

  pub one_holds : Conditions → Input → Bool
  one_holds empty input = false
  one_holds (more c cs) input = holds c input || one_holds cs input

  pub not_holds : MaybeCondition → Input → Bool
  not_holds absent input = true
  not_holds (present c) input = not (holds c input)

abbrev pub condition_holds : MaybeCondition → Input → Bool
condition_holds absent input = true
condition_holds (present c) input = holds c input

-- A snapshot that takes part in the decision.
unfoldable pub is_match : AuthorizationType → Input → Snapshot → Bool
is_match type input snapshot =
    is_applicable type input snapshot && condition_holds snapshot.condition input

-- Deny overrides: whether some match denies, and whether there is a match at all.
abbrev pub deny_overrides : Bool → Bool → Decision × ReasonCode
deny_overrides true matched = (Decision.deny, ReasonCode.explicit_deny)
deny_overrides false true = (Decision.allow, ReasonCode.allowed_by_policy)
deny_overrides false false = (Decision.deny, ReasonCode.default_deny)

abbrev pub denies : List Snapshot → Bool
denies = any (λ s. is_deny s.effect)

-- The matches up to the first that denies: those that the answer names.
abbrev pub up_to_deny : List Snapshot → List Snapshot
up_to_deny [] = []
up_to_deny (s ∷ ss) = if is_deny s.effect then s ∷ [] else s ∷ up_to_deny ss

abbrev pub latest : ℕ → List Snapshot → ℕ
latest version [] = version
latest version (s ∷ ss) = latest (max version s.version) ss

abbrev pub policy_ids : List Snapshot → List Uuid
policy_ids = map (λ s. s.policy_id)

-- The answer for these matches, in their order.
abbrev pub answer_for : List Snapshot → Answer
answer_for matches = record {
  decision = (deny_overrides (denies matches) (not (is_empty matches))).0;
  reason_code = (deny_overrides (denies matches) (not (is_empty matches))).1;
  matched_policy_ids = policy_ids (up_to_deny matches);
  snapshot_version = latest 0 (up_to_deny matches);
}
