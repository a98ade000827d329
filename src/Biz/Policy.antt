-- ===== src/Biz/Policy.antt =====
-- internal/biz/policy.go: the life of an authorization policy and the decisions. A pointer that the
-- repositories return is an Option, read through `deref`, which panics where it is nil.
pub mod Draft
pub mod Publish
pub mod Decide
mod Tests
use Prim.Native.String.{String}
use permission_center_go.Common.{ℕ, ℤ, Bool, Option, List}
use permission_center_go.Policy.Model.{
  Uuid, Effect, Status, Decision, ReasonCode, AuthorizationType, MaybeCondition, Snapshot,
}
use permission_center_go.Biz.Call.{Call, Reads}
use permission_center_go.Biz.Audit.{BaseFields, Context}
use permission_center_go.Biz.Resource.{ServiceResourceCatalog}
use permission_center_go.Biz.Resource.Active.{CatalogReads}
use permission_center_go.Biz.Permission.{Role, UserRoleRepository}
use permission_center_go.Biz.Endpoint.{ApiEndpoint}

pub record AuthorizationPolicy : Type 0 where
  pub base : BaseFields
  pub id : Uuid
  pub service_resource : String
  pub code : String
  pub name : String
  pub description : String
  pub effect : Effect
  pub status : Status
  pub authorization_type : AuthorizationType
  pub priority : ℤ
  pub condition : MaybeCondition
  pub current_version : ℕ
  pub role_ids : List String
  pub endpoint_ids : List Uuid

pub record PolicyVersion : Type 0 where
  pub policy_id : Uuid
  pub version : ℕ
  pub snapshot : Snapshot
  pub checksum : String
  pub published_by : String
  pub published_at : ℕ

pub record DecisionLog : Type 0 where
  pub decision_id : Uuid
  pub request_id : String
  pub service_resource : String
  pub tenant_id : String
  pub subject_id : String
  pub endpoint_id : Uuid
  pub decision : Decision
  pub reason_code : ReasonCode
  pub matched_policy_ids : List Uuid
  pub snapshot_version : ℕ
  pub latency_ms : ℤ
  pub occurred_at : ℕ

pub record AuthorizationPolicyRepository (S : Type 0) : Type 0 where
  pub create : Context → AuthorizationPolicy → Call S (Option AuthorizationPolicy)
  pub get : Context → Uuid → Call S (Option AuthorizationPolicy)
  pub list_by_service_resource : Context → String → Call S (List (Option AuthorizationPolicy))
  pub update : Context → AuthorizationPolicy → Call S (Option AuthorizationPolicy)
  pub soft_delete : Context → Uuid → Call S (Unit {0})
  pub save_version : Context → PolicyVersion → Call S (Unit {0})
  pub get_version : Context → Uuid → ℕ → Call S (Option PolicyVersion)
  pub list_published_by_endpoint : Context → String → Uuid → Call S (List Snapshot)
  pub save_decision_log : Context → DecisionLog → Call S (Unit {0})
  pub list_decision_logs : Context → String → Uuid → Call S (List DecisionLog)

-- PolicyEndpointRepository and PolicyRoleRepository
pub record PolicyEndpointRepository (S : Type 0) : Type 0 where
  pub get : Context → Uuid → Call S (Option ApiEndpoint)

pub record PolicyRoleRepository (S : Type 0) : Type 0 where
  pub get : Context → String → Call S (Option Role)

-- AuthorizationPolicyService, as NewAuthorizationPolicyService and WithServiceResourceCatalog fill it.
pub record AuthorizationPolicyService (S : Type 0) : Type 0 where
  pub repository : AuthorizationPolicyRepository S
  pub endpoints : PolicyEndpointRepository S
  pub roles : PolicyRoleRepository S
  pub user_roles : UserRoleRepository S
  pub service_resources : Option (ServiceResourceCatalog S)

-- The reads of the service leave the store as it is.
pub record ReadsOnly {S : Type 0} (service : AuthorizationPolicyService S) : Type 0 where
  pub policy_get : (ctx : Context) (id : Uuid) → Reads (service.repository.get ctx id)
  pub version_get :
      (ctx : Context) (id : Uuid) (version : ℕ)
      → Reads (service.repository.get_version ctx id version)
  pub published :
      (ctx : Context) (scope : String) (id : Uuid)
      → Reads (service.repository.list_published_by_endpoint ctx scope id)
  pub endpoint_get : (ctx : Context) (id : Uuid) → Reads (service.endpoints.get ctx id)
  pub role_get : (ctx : Context) (id : String) → Reads (service.roles.get ctx id)
  pub user_roles :
      (ctx : Context) (subject scope : String)
      → Reads (service.user_roles.role_ids ctx subject scope)
  pub catalog_get : CatalogReads service.service_resources
