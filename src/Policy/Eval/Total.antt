-- ===== src/Policy/Eval/Total.antt =====
-- On a well-formed condition the evaluator neither fails nor panics, and says what the condition
-- says.
use permission_center_go.Common.{◌≡◌, refl, true, Option, none, some, arith, ok}
use permission_center_go.Policy.Model.{
  ValueRef, ValueType, ComparisonOperator, Comparison, Condition, Conditions, MaybeCondition,
  absent, present, Input, comparison_operator_valid,
}
use permission_center_go.Policy.Validate.Shape.{
  IsRight, IsComparison, IsCondition, all_of, any_of, not_of, compared, AreConditions, nothing_left,
  one_more, IsPolicyCondition,
}
use permission_center_go.Policy.Eval.{
  compare_values, compare_right, comparison, matches_condition, matches_all, matches_any,
  matches_optional,
}
use permission_center_go.Policy.Eval.Spec.{
  comparison_holds, holds, all_hold, one_holds, condition_holds,
}

module _ (input : Input) where
  -- the operator's part, by operator
  comparison_shape :
      (op : ComparisonOperator) (type : ValueType) (left : ValueRef) (right : Option ValueRef)
      → comparison_operator_valid op ≡ true
      → IsRight op type right
      → comparison (record { left = left; op = op; right = right }) input
        ≡ ok (comparison_holds (record { left = left; op = op; right = right }) input)
  unfolding comparison compare_right compare_values comparison_holds comparison_operator_valid
  comparison_shape ComparisonOperator.exists type left none v h = ground arith
  comparison_shape ComparisonOperator.exists type left (some right) v h = absurd h
  comparison_shape (ComparisonOperator.unknown other) type left right v h = cc
  comparison_shape _ type left none v h = absurd h
  comparison_shape _ type left (some right) v h = ground arith

  comparison_total :
      (c : Comparison) → IsComparison c → comparison c input ≡ ok (comparison_holds c input)
  comparison_total c h = comparison_shape c.op c.left.type c.left c.right h.op_known h.right

  mutual
    unfolding matches_condition holds

    matches_total : {c : Condition} → IsCondition c → matches_condition c input ≡ ok (holds c input)
    matches_total (all_of h hs) = ground (arith, matches_total h, all_total hs)
    matches_total (any_of h hs) = ground (arith, matches_total h, any_total hs)
    matches_total (not_of {c} h) = ground (arith, matches_total h)
    matches_total (compared {c} h) = ground (arith, comparison_total c h)

    all_total : {cs : Conditions} → AreConditions cs → matches_all cs input ≡ ok (all_hold cs input)
    all_total nothing_left = refl
    all_total (one_more h hs) = ground (arith, matches_total h, all_total hs)

    any_total :
        {cs : Conditions} → AreConditions cs → matches_any cs input ≡ ok (one_holds cs input)
    any_total nothing_left = refl
    any_total (one_more h hs) = ground (arith, matches_total h, any_total hs)

  -- A validated condition is evaluated without an error or a panic, to what it says: the
  -- conjunction of a list, the disjunction, the negation, or the comparison of its operands.
  pub matches_optional-IsPolicyCondition :
      (value : MaybeCondition)
      → IsPolicyCondition value
      → matches_optional value input ≡ ok (condition_holds value input)
  unfolding matches_condition
  matches_optional-IsPolicyCondition absent h = refl
  matches_optional-IsPolicyCondition (present c) h = matches_total h.0
