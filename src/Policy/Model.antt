-- ===== src/Policy/Model.antt =====
-- internal/policy/model/policy.go. A typed string is an enumeration of its constants with one more
-- constructor for every other text. A uuid.UUID is its sixteen bytes as one number, and a Go `int`
-- that counts versions is a natural number.
use Prim.Native.String.{String}
use permission_center_go.Common.{ℕ, ℤ, Bool, true, false, Option, none, some, List}
use permission_center_go.Policy.Value.{Value, Fields}

abbrev pub Uuid : Type 0
Uuid = ℕ

-- uuid.Nil
abbrev pub nil_uuid : Uuid
nil_uuid = 0

pub data Effect : Type 0 where
  allow deny : Effect
  unknown : String → Effect

pub data Status : Type 0 where
  draft published disabled archived : Status
  unknown : String → Status

pub data Decision : Type 0 where
  allow deny : Decision
  -- the text of the zero Result
  undecided : Decision

pub data AuthorizationType : Type 0 where
  api object_data : AuthorizationType
  unknown : String → AuthorizationType

pub data ReasonCode : Type 0 where
  allowed_by_policy explicit_deny default_deny scope_mismatch endpoint_disabled : ReasonCode
  invalid_input engine_unavailable : ReasonCode
  -- the text of the zero Result
  no_reason : ReasonCode

pub data TargetKind : Type 0 where
  api_endpoint : TargetKind
  unknown : String → TargetKind

pub data ActionKind : Type 0 where
  http : ActionKind
  unknown : String → ActionKind

pub data ValueSource : Type 0 where
  subject resource request context literal : ValueSource
  unknown : String → ValueSource

pub data ValueType : Type 0 where
  string number boolean string_list number_list : ValueType
  unknown : String → ValueType

pub data ComparisonOperator : Type 0 where
  eq neq in_list not_in contains exists : ComparisonOperator
  unknown : String → ComparisonOperator

-- The methods `Valid` of the enumerations.
unfoldable pub effect_valid : Effect → Bool
effect_valid (Effect.unknown other) = false
effect_valid _ = true

unfoldable pub status_valid : Status → Bool
status_valid (Status.unknown other) = false
status_valid _ = true

unfoldable pub authorization_type_valid : AuthorizationType → Bool
authorization_type_valid (AuthorizationType.unknown other) = false
authorization_type_valid _ = true

unfoldable pub target_kind_valid : TargetKind → Bool
target_kind_valid (TargetKind.unknown other) = false
target_kind_valid _ = true

unfoldable pub action_kind_valid : ActionKind → Bool
action_kind_valid (ActionKind.unknown other) = false
action_kind_valid _ = true

unfoldable pub value_source_valid : ValueSource → Bool
value_source_valid (ValueSource.unknown other) = false
value_source_valid _ = true

unfoldable pub value_type_valid : ValueType → Bool
value_type_valid (ValueType.unknown other) = false
value_type_valid _ = true

unfoldable pub comparison_operator_valid : ComparisonOperator → Bool
comparison_operator_valid (ComparisonOperator.unknown other) = false
comparison_operator_valid _ = true

pub record ValueRef : Type 0 where
  pub source : ValueSource
  pub path : String
  pub type : ValueType
  pub value : Value

pub record Comparison : Type 0 where
  pub left : ValueRef
  pub op : ComparisonOperator
  pub right : Option ValueRef

-- A node of the condition tree: the fields All, Any, Not and Comparison.
mutual
  pub data Condition : Type 0 where
    node : Conditions → Conditions → MaybeCondition → Option Comparison → Condition

  pub data Conditions : Type 0 where
    empty : Conditions
    more : Condition → Conditions → Conditions

  pub data MaybeCondition : Type 0 where
    absent : MaybeCondition
    present : Condition → MaybeCondition

-- What Condition.UnmarshalJSON decodes before it fills a node: the fields of a node, and those of a
-- comparison written in the node's place.
pub record RawCondition : Type 0 where
  pub all : Conditions
  pub any : Conditions
  pub not : MaybeCondition
  pub comparison : Option Comparison
  pub left : Option ValueRef
  pub op : ComparisonOperator
  pub right : Option ValueRef

-- The comparison of a node: a leaf in the compact form serves where there is none.
unfoldable pub raw_comparison : RawCondition → Option Comparison
raw_comparison raw = compact raw.comparison raw.left
  where
    compact : Option Comparison → Option ValueRef → Option Comparison
    compact (some c) left = some c
    compact none none = none
    compact none (some left) = some (record { left = left; op = raw.op; right = raw.right })

unfoldable pub unmarshal : RawCondition → Condition
unfolding raw_comparison
unmarshal raw = node raw.all raw.any raw.not (raw_comparison raw)

pub record Snapshot : Type 0 where
  pub policy_id : Uuid
  pub version : ℕ
  pub authorization_type : AuthorizationType
  pub service_resource : String
  pub effect : Effect
  pub priority : ℤ
  pub role_ids : List String
  pub endpoint_ids : List Uuid
  pub condition : MaybeCondition

pub record Subject : Type 0 where
  pub id : String
  pub role_ids : List String
  pub attributes : Fields

pub record Action : Type 0 where
  pub kind : ActionKind
  pub method : String

pub record Resource : Type 0 where
  pub kind : TargetKind
  pub endpoint_id : Uuid
  pub attributes : Fields

pub record Input : Type 0 where
  pub request_id : String
  pub authorization_type : AuthorizationType
  pub service_resource : String
  pub tenant_id : String
  pub subject : Subject
  pub action : Action
  pub resource : Resource
  pub context : Fields

-- model.Result
pub record Answer : Type 0 where
  pub decision : Decision
  pub reason_code : ReasonCode
  pub matched_policy_ids : List Uuid
  pub snapshot_version : ℕ
