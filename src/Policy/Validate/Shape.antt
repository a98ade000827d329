-- ===== src/Policy/Validate/Shape.antt =====
-- The condition trees that a policy may hold, described without the validator: each node is one of
-- four kinds, each comparison is well typed, and the tree has a height and a number of nodes.
use permission_center_go.Common.{ℕ, ◌+◌, ◌≤◌, ◌≡◌, false, true, Option, none, some, max}
use permission_center_go.Text.{trim_space, is_blank, contains_text}
use permission_center_go.Policy.Value.{is_nil}
use permission_center_go.Policy.Model.{
  ValueSource, ValueType, ComparisonOperator, ValueRef, Comparison, Condition, node, Conditions,
  empty, more, MaybeCondition, absent, present, value_source_valid, value_type_valid,
  comparison_operator_valid,
}

-- A literal carries a value, and any other operand a path that is not blank and climbs nowhere.
abbrev pub IsReadable : ValueSource → ValueRef → Type 0
IsReadable ValueSource.literal ref = is_nil ref.value ≡ false
IsReadable _ ref = (is_blank (trim_space ref.path) ≡ false) × (contains_text ref.path ".." ≡ false)

pub record IsOperand (ref : ValueRef) : Type 0 where
  pub source_known : value_source_valid ref.source ≡ true
  pub type_known : value_type_valid ref.type ≡ true
  pub readable : IsReadable ref.source ref

-- `exists` has no right operand, every other operator one of the left operand's type.
abbrev pub IsRight : ComparisonOperator → ValueType → Option ValueRef → Type 0
IsRight ComparisonOperator.exists type none = Unit
IsRight ComparisonOperator.exists type (some ref) = ⊥
IsRight _ type none = ⊥
IsRight _ type (some ref) = IsOperand ref × (type ≡ ref.type)

pub record IsComparison (c : Comparison) : Type 0 where
  pub op_known : comparison_operator_valid c.op ≡ true
  pub left : IsOperand c.left
  pub right : IsRight c.op c.left.type c.right

mutual
  pub data IsCondition : Condition → Type 0 where
    all_of :
        {c : Condition} {cs : Conditions}
        → IsCondition c
        → AreConditions cs
        → IsCondition (node (more c cs) empty absent none)
    any_of :
        {c : Condition} {cs : Conditions}
        → IsCondition c
        → AreConditions cs
        → IsCondition (node empty (more c cs) absent none)
    not_of : {c : Condition} → IsCondition c → IsCondition (node empty empty (present c) none)
    compared : {c : Comparison} → IsComparison c → IsCondition (node empty empty absent (some c))

  pub data AreConditions : Conditions → Type 0 where
    nothing_left : AreConditions empty
    one_more :
        {c : Condition} {cs : Conditions}
        → IsCondition c
        → AreConditions cs
        → AreConditions (more c cs)

unfoldable mutual
  pub size : Condition → ℕ
  size (node all any negated leaf) = 1 + sizes all + sizes any + size_maybe negated

  pub sizes : Conditions → ℕ
  sizes empty = 0
  sizes (more c cs) = size c + sizes cs

  pub size_maybe : MaybeCondition → ℕ
  size_maybe absent = 0
  size_maybe (present c) = size c

unfoldable mutual
  pub height : Condition → ℕ
  height (node all any negated leaf) =
      1 + max (heights all) (max (heights any) (height_maybe negated))

  pub heights : Conditions → ℕ
  heights empty = 0
  heights (more c cs) = max (height c) (heights cs)

  pub height_maybe : MaybeCondition → ℕ
  height_maybe absent = 0
  height_maybe (present c) = height c

-- What a policy may carry: no condition, or a tree of at most eight levels and 64 nodes.
abbrev pub IsPolicyCondition : MaybeCondition → Type 0
IsPolicyCondition absent = Unit
IsPolicyCondition (present c) = IsCondition c × (height c ≤ 8) × (size c ≤ 64)
