-- ===== src/Biz/Resource.antt =====
-- internal/biz/service_resource.go: the service resources, which are the scope of every permission,
-- and internal/biz/permission.go: ensureServiceResource.
pub mod Active
pub mod Catalog
use Prim.Native.String.{String}
use package.text.Mathlib.Text.{◌==◌ as str_eq}
use permission_center_go.Common.{
  ℕ, Bool, true, false, not, ◌||◌, Option, none, some, List, [], ◌∷◌, ltb, if◌then◌else◌, Result,
  ok, err, panic, Error, invalid_argument, not_found, conflict, failure, deref,
}
use permission_center_go.Text.{trim_space, is_blank, count, to_lower}
use permission_center_go.Biz.Call.{Call, pure, fail, lift, ◌>>=◌, ◌>>◌}
use permission_center_go.Biz.Audit.{Context}

abbrev pub max_service_resource_length : ℕ
max_service_resource_length = 128

pub record ServiceResource : Type 0 where
  pub id : String
  pub key : String
  pub name : String
  pub display_name : String
  pub audience : String
  pub description : String
  pub is_active : Bool
  pub source : String
  pub created_at : ℕ

-- A result of a Go call that returns a pointer is an Option: nil beside a nil error is `ok none`.
pub record ServiceResourceCatalog (S : Type 0) : Type 0 where
  pub list : Context → Call S (List (Option ServiceResource))
  pub get : Context → String → Call S (Option ServiceResource)

pub record ServiceResourceRepository (S : Type 0) : Type 0 where
  pub create : Context → ServiceResource → Call S (Option ServiceResource)
  pub get : Context → String → Call S (Option ServiceResource)
  pub list : Context → Call S (List (Option ServiceResource))
  pub update : Context → ServiceResource → Call S (Option ServiceResource)
  pub soft_delete : Context → String → Call S (Unit {0})

-- validateServiceResource
unfoldable pub validate_service_resource : String → Result String
validate_service_resource value =
    let trimmed = trim_space value in
    if is_blank trimmed || ltb max_service_resource_length (count trimmed)
    then err (invalid_argument "service_resource must be 1-128 characters")
    else ok trimmed

abbrev disabled_error : Error
disabled_error = conflict "service resource is disabled"

-- The check of an entry that the catalog returned without an error. `nil_result` is what the service
-- does with a nil entry: APIEndpointService and AuthorizationPolicyService return ErrNotFound, and
-- PermissionService reads IsActive through it.
abbrev pub check_active : Result (Unit {0}) → Option ServiceResource → Result (Unit {0})
check_active nil_result none = nil_result
check_active nil_result (some resource) =
    if not resource.is_active then err disabled_error else ok tt

module _ {S : Type 0} where
  -- ensureServiceResource and ensureScope, without a catalog and with one.
  unfoldable pub ensure :
      Result (Unit {0}) → Option (ServiceResourceCatalog S) → Context → String → Call S (Unit {0})
  ensure nil_result none ctx key = pure tt
  ensure nil_result (some catalog) ctx key = do
    found ← catalog.get ctx key
    lift (check_active nil_result found)
