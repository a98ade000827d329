-- ===== src/Policy/Examples.antt =====
-- A small policy set for the tests of internal/policy: readers may use endpoint 7 where they own
-- the resource, except where the request comes from outside.
use Prim.Native.String.{String}
use permission_center_go.Common.{pos, some, none, [], ◌∷◌}
use permission_center_go.Policy.Value.{Value, text, field, no_field}
use permission_center_go.Policy.Model.{
  Effect, AuthorizationType, TargetKind, ActionKind, ValueSource, ValueType, ComparisonOperator,
  ValueRef, Comparison, Condition, node, empty, more, absent, present, Snapshot, Input, Uuid,
}

abbrev operand : ValueSource → String → Value → ValueRef
operand from path literal = record {
  source = from;
  path = path;
  type = ValueType.string;
  value = literal;
}

abbrev pub owner_is_subject : Comparison
owner_is_subject = record {
  left = operand ValueSource.resource "owner" Value.nil;
  op = ComparisonOperator.eq;
  right = some (operand ValueSource.subject "id" Value.nil);
}

abbrev pub from_outside : Comparison
from_outside = record {
  left = operand ValueSource.context "zone" Value.nil;
  op = ComparisonOperator.neq;
  right = some (operand ValueSource.literal "" (text "office"));
}

abbrev pub leaf : Comparison → Condition
leaf c = node empty empty absent (some c)

abbrev pub owner_inside : Condition
owner_inside =
    node
      (more (leaf owner_is_subject)
        (more (node empty empty (present (leaf from_outside)) none) empty))
      empty absent none

abbrev snapshot : Uuid → Effect → Condition → Snapshot
snapshot id effect condition = record {
  policy_id = id;
  version = 3;
  authorization_type = AuthorizationType.api;
  service_resource = "orders";
  effect = effect;
  priority = pos 0;
  role_ids = " writer" ∷ "reader" ∷ [];
  endpoint_ids = 8 ∷ 7 ∷ [];
  condition = present condition;
}

abbrev pub allow_owner : Snapshot
allow_owner = snapshot 21 Effect.allow owner_inside

abbrev pub deny_outside : Snapshot
deny_outside = snapshot 22 Effect.deny (leaf from_outside)

abbrev pub foreign : Snapshot
foreign = record deny_outside { service_resource = "billing" }

abbrev pub read_from : String → Input
read_from zone = record {
  request_id = "r-1";
  authorization_type = AuthorizationType.api;
  service_resource = "orders";
  tenant_id = "t-1";
  subject = record { id = "ann"; role_ids = "reader" ∷ []; attributes = no_field };
  action = record { kind = ActionKind.http; method = "GET" };
  resource = record {
    kind = TargetKind.api_endpoint;
    endpoint_id = 7;
    attributes = field "owner" (text "ann") no_field;
  };
  context = field "zone" (text zone) no_field;
}
