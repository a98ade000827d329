-- ===== src/Policy/Validate/Tests.antt =====
-- The example condition passes the validator; an empty node does not.
use permission_center_go.Common.{◌≡◌, ◌↔◌, refl, ok, err, failure, none}
use permission_center_go.Policy.Model.{
  comparison_operator_valid, value_source_valid, value_type_valid, node, empty, absent, present,
}
use permission_center_go.Policy.Examples.{owner_inside, from_outside, leaf}
use permission_center_go.Policy.Validate.{
  validate_condition, condition, comparison, value_ref, check_right,
}
use permission_center_go.Text.{trim_space, contains_text}
use permission_center_go.Policy.Validate.Shape.{IsPolicyCondition}
use permission_center_go.Policy.Validate.Sound.{validate_condition_iff}

accepts : validate_condition (present owner_inside) ≡ ok tt
unfolding validate_condition condition comparison comparison_operator_valid value_ref
    value_source_valid value_type_valid trim_space contains_text check_right
accepts = refl

refuses :
    validate_condition (present (node empty empty absent none))
    ≡ err (failure "condition node must contain exactly one operator")
unfolding validate_condition condition
refuses = refl

-- The example condition is accepted because it has the shape, and has it because it is accepted.
validate_condition_iff_example :
    (validate_condition (present owner_inside) ≡ ok tt) ↔ IsPolicyCondition (present owner_inside)
validate_condition_iff_example = validate_condition_iff (present owner_inside)

pub owner_valid : IsPolicyCondition (present owner_inside)
owner_valid = (validate_condition_iff (present owner_inside)).0 accepts

pub outside_valid : IsPolicyCondition (present (leaf from_outside))
unfolding validate_condition condition comparison comparison_operator_valid value_ref
    value_source_valid value_type_valid trim_space contains_text check_right
outside_valid = (validate_condition_iff (present (leaf from_outside))).0 refl
