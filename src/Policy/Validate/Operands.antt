-- ===== src/Policy/Validate/Operands.antt =====
-- The validator's checks of operands and comparisons are those of Shape.
use text.Mathlib.TextEquality.{eq_iff}
use permission_center_go.Common.{◌≡◌, refl, ap, true, Option, none, some, arith, ok, >>=-eq-ok}
use permission_center_go.Policy.Model.{
  ValueType, ComparisonOperator, ValueRef, Comparison, comparison_operator_valid,
}
use permission_center_go.Policy.Validate.{
  same_type, value_ref, right_operand, check_right, comparison,
}
use permission_center_go.Policy.Validate.Shape.{IsOperand, IsRight, IsComparison}

same_type→eq : (a b : ValueType) → same_type a b ≡ true → a ≡ b
same_type→eq ValueType.string ValueType.string h = refl
same_type→eq (ValueType.unknown s) (ValueType.unknown t) h = ap ValueType.unknown ((eq_iff s t).0 h)
same_type→eq _ _ h = ground arith

same_type_refl : (a : ValueType) → same_type a a ≡ true
same_type_refl (ValueType.unknown s) = (eq_iff s s).1 refl
same_type_refl _ = refl

value_ref_sound : (ref : ValueRef) → value_ref ref ≡ ok tt → IsOperand ref
unfolding value_ref
value_ref_sound ref h = ground arith

value_ref_complete : (ref : ValueRef) → IsOperand ref → value_ref ref ≡ ok tt
unfolding value_ref
value_ref_complete ref h = ground arith

right_operand_sound :
    (type : ValueType) (ref : ValueRef)
    → right_operand type (some ref) ≡ ok tt
    → IsOperand ref × (type ≡ ref.type)
unfolding right_operand
right_operand_sound type ref h =
    let (_, readable, typed) = >>=-eq-ok (value_ref ref) _ h in
    (value_ref_sound ref (ground arith), same_type→eq type ref.type (ground arith))

right_operand_complete :
    (type : ValueType) (ref : ValueRef)
    → IsOperand ref
    → type ≡ ref.type
    → right_operand type (some ref) ≡ ok tt
unfolding right_operand
right_operand_complete type ref h e =
    rw (value_ref_complete ref h) (rw (← e) (rw (same_type_refl type)))

check_right_sound :
    (op : ComparisonOperator) (type : ValueType) (right : Option ValueRef)
    → check_right op type right ≡ ok tt
    → IsRight op type right
unfolding check_right
check_right_sound ComparisonOperator.exists type none h = tt
check_right_sound ComparisonOperator.exists type (some ref) h = cc
check_right_sound _ type none h = cc
check_right_sound _ type (some ref) h = right_operand_sound type ref h

check_right_complete :
    (op : ComparisonOperator) (type : ValueType) (right : Option ValueRef)
    → IsRight op type right
    → check_right op type right ≡ ok tt
unfolding check_right
check_right_complete ComparisonOperator.exists type none h = refl
check_right_complete ComparisonOperator.exists type (some ref) h = absurd h
check_right_complete _ type none h = absurd h
check_right_complete _ type (some ref) h = right_operand_complete type ref h.0 h.1

pub comparison_sound : (c : Comparison) → comparison (some c) ≡ ok tt → IsComparison c
unfolding comparison
comparison_sound c h =
    let known : comparison_operator_valid c.op ≡ true = ground arith in
    let (_, left, right) = >>=-eq-ok (value_ref c.left) _ (rw known at h) in
    record {
      op_known = known;
      left = value_ref_sound c.left left;
      right = check_right_sound c.op c.left.type c.right right;
    }

pub comparison_complete : (c : Comparison) → IsComparison c → comparison (some c) ≡ ok tt
unfolding comparison
comparison_complete c h =
    rw (h.op_known, value_ref_complete c.left h.left)
      (check_right_complete c.op c.left.type c.right h.right)
