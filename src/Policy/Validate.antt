-- ===== src/Policy/Validate.antt =====
-- internal/policy/validate/validate.go. The counter behind `count *int` is passed in and out.
pub mod Shape
mod Operands
pub mod Sound
pub mod Tests
use package.text.Mathlib.Text.{◌==◌ as str_eq}
use permission_center_go.Common.{
  ℕ, ◌+◌, Bool, true, false, not, ◌||◌, Option, none, some, ltb, ◌==◌, is_none, if◌then◌else◌,
  Result, ok, err, panic, failure, ◌>>=◌, ◌>>◌,
}
use permission_center_go.Text.{trim_space, is_blank, contains_text}
use permission_center_go.Policy.Value.{is_nil}
use permission_center_go.Policy.Model.{
  ValueSource, ValueType, ComparisonOperator, ValueRef, Comparison, Condition, node, Conditions,
  empty, more, MaybeCondition, absent, present, value_source_valid, value_type_valid,
  comparison_operator_valid,
}

abbrev pub max_depth : ℕ
max_depth = 8

abbrev pub max_nodes : ℕ
max_nodes = 64

abbrev is_literal : ValueSource → Bool
is_literal ValueSource.literal = true
is_literal _ = false

abbrev pub is_exists : ComparisonOperator → Bool
is_exists ComparisonOperator.exists = true
is_exists _ = false

-- Left.Type == Right.Type
abbrev same_type : ValueType → ValueType → Bool
same_type ValueType.string ValueType.string = true
same_type ValueType.number ValueType.number = true
same_type ValueType.boolean ValueType.boolean = true
same_type ValueType.string_list ValueType.string_list = true
same_type ValueType.number_list ValueType.number_list = true
same_type (ValueType.unknown s) (ValueType.unknown t) = str_eq s t
same_type _ _ = false

-- valueRef
pub value_ref : ValueRef → Result (Unit {0})
value_ref value =
    if not (value_source_valid value.source) || not (value_type_valid value.type)
    then err (failure "invalid value reference")
    else if is_literal value.source
    then (if is_nil value.value then err (failure "literal value is required") else ok tt)
    else if is_blank (trim_space value.path) || contains_text value.path ".."
    then err (failure "attribute path is invalid")
    else ok tt

pub right_operand : ValueType → Option ValueRef → Result (Unit {0})
unfolding value_ref
right_operand type none = err (failure "comparison requires right operand")
right_operand type (some right) =
    value_ref right
    >> (if same_type type right.type
        then ok tt
        else err (failure "comparison operands must use the same type"))

-- From `if c.Op == model.OpExists`.
pub check_right : ComparisonOperator → ValueType → Option ValueRef → Result (Unit {0})
unfolding right_operand
check_right op type right =
    if is_exists op
    then (if is_none right then ok tt else err (failure "exists must not define right operand"))
    else right_operand type right

-- The last part of `condition`, from `c := value.Comparison`: a nil comparison would be a panic.
pub comparison : Option Comparison → Result (Unit {0})
comparison none = panic
comparison (some c) =
    if not (comparison_operator_valid c.op)
    then err (failure "unsupported comparison operator")
    else value_ref c.left >> check_right c.op c.left.type c.right

abbrev pub has_conditions : Conditions → Bool
has_conditions empty = false
has_conditions (more c cs) = true

abbrev pub has_condition : MaybeCondition → Bool
has_condition absent = false
has_condition (present c) = true

abbrev bit : Bool → ℕ
bit true = 1
bit false = 0

-- How many of the four fields of a node are set.
pub kinds : Conditions → Conditions → MaybeCondition → Option Comparison → ℕ
kinds all any negated leaf =
    bit (has_conditions all)
    + bit (has_conditions any)
    + bit (has_condition negated)
    + bit (not (is_none leaf))

-- Both return the counter after the nodes below.
mutual
  unfolding kinds

  pub condition : Condition → ℕ → ℕ → Result ℕ
  condition (node all any negated leaf) depth count =
      let count' = count + 1 in
      let in_all = conditions all (depth + 1) count' in
      let in_any = conditions any (depth + 1) count' in
      let in_not = optional negated (depth + 1) count' in
      if ltb max_depth depth || ltb max_nodes count'
      then err (failure "condition exceeds maximum depth or node count")
      else if not (kinds all any negated leaf == 1)
      then err (failure "condition node must contain exactly one operator")
      else if has_conditions all
      then in_all
      else if has_conditions any
      then in_any
      else if has_condition negated
      then in_not
      else comparison leaf >> ok count'

  pub conditions : Conditions → ℕ → ℕ → Result ℕ
  conditions empty depth count = ok count
  conditions (more c cs) depth count =
      condition c depth count >>= λ count'. conditions cs depth count'

  pub optional : MaybeCondition → ℕ → ℕ → Result ℕ
  optional absent depth count = panic
  optional (present c) depth count = condition c depth count

-- validate.Condition
pub validate_condition : MaybeCondition → Result (Unit {0})
validate_condition absent = ok tt
validate_condition (present c) = condition c 1 0 >> ok tt
