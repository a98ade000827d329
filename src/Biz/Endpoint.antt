-- ===== src/Biz/Endpoint.antt =====
-- internal/biz/api_endpoint.go: the API endpoints of a service resource. `table` is unicode.ToUpper
-- beyond ASCII.
pub mod Import
pub mod Laws
mod Tests
use Prim.Native.Char.{Char}
use Prim.Native.String.{String}
use package.text.Mathlib.Text.{◌==◌ as str_eq}
use permission_center_go.Common.{
  ℕ, Bool, true, false, not, ◌||◌, Option, none, some, List, ltb, ◌==◌, if◌then◌else◌, Result, ok,
  err, invalid_argument, not_found, conflict, failure,
}
use permission_center_go.Text.{trim_space, is_blank, count, has_prefix, to_upper}
use permission_center_go.Policy.Model.{Uuid, nil_uuid}
use permission_center_go.Biz.Call.{Call, pure, fail, lift, ◌>>=◌, ◌>>◌}
use permission_center_go.Biz.Audit.{BaseFields, Context, new_base_fields, audit_actor_from_context}
use permission_center_go.Biz.Resource.{ServiceResourceCatalog, validate_service_resource, ensure}
use permission_center_go.Biz.Permission.{http_method_valid}

abbrev pub controller_max_length : ℕ
controller_max_length = 200

abbrev path_max_length : ℕ
path_max_length = 500

pub record ApiEndpoint : Type 0 where
  pub base : BaseFields
  pub id : Uuid
  pub service_resource : String
  pub controller : String
  pub method : String
  pub path_template : String
  pub summary : String
  pub enabled : Bool

pub record ApiEndpointRepository (S : Type 0) : Type 0 where
  pub create : Context → ApiEndpoint → Call S (Option ApiEndpoint)
  pub get : Context → Uuid → Call S (Option ApiEndpoint)
  pub list_by_service_resource : Context → String → Call S (List (Option ApiEndpoint))
  pub update : Context → ApiEndpoint → Call S (Option ApiEndpoint)
  pub soft_delete : Context → Uuid → Call S (Unit {0})

-- APIEndpointService: either interface may be nil.
pub record ApiEndpointService (S : Type 0) : Type 0 where
  pub repository : Option (ApiEndpointRepository S)
  pub service_resources : Option (ServiceResourceCatalog S)

-- isAPIEndpointHTTPMethod
abbrev pub is_api_endpoint_http_method : String → Bool
is_api_endpoint_http_method value =
    str_eq value "GET"
    || str_eq value "POST"
    || str_eq value "PUT"
    || str_eq value "PATCH"
    || str_eq value "DELETE"
    || str_eq value "HEAD"
    || str_eq value "OPTIONS"
    || str_eq value "TRACE"

-- normalizeAPIEndpoint: the endpoint as it stands after the normalisation has changed it.
unfoldable pub normalize_api_endpoint : (Char → Char) → ApiEndpoint → Result ApiEndpoint
normalize_api_endpoint table value =
    let controller = trim_space value.controller in
    let method = to_upper table (trim_space value.method) in
    let path = trim_space value.path_template in
    if is_blank controller || ltb controller_max_length (count controller)
    then err (invalid_argument "controller must be 1-200 characters")
    else if not (is_api_endpoint_http_method method)
    then err (invalid_argument "unsupported HTTP method ")
    else if is_blank path || ltb path_max_length (count path) || not (has_prefix path "/")
    then err (invalid_argument "path_template must be an absolute route path")
    else ok (record value {
      controller = controller;
      method = method;
      path_template = path;
      summary = trim_space value.summary;
    })

module _ {S : Type 0} (table : Char → Char) (service : ApiEndpointService S) where
  open service use {repository, service_resources}

  -- ensureReady, which passes the repository on.
  abbrev pub ensure_ready : Call S (ApiEndpointRepository S)
  ensure_ready = elim repository [
    | none ↦ fail (failure "api endpoint repository is not configured")
    | some ready ↦ pure ready
  ]

  abbrev pub ensure_service_resource : Context → String → Call S (Unit {0})
  ensure_service_resource = ensure (err (not_found "")) service_resources

  abbrev pub create_in :
      ApiEndpointRepository S → Context → ApiEndpoint → Call S (Option ApiEndpoint)
  create_in ready ctx value = do
    scope ← lift (validate_service_resource value.service_resource)
    ensure_service_resource ctx scope
    normal ← lift (normalize_api_endpoint table (record value { service_resource = scope }))
    ready.create ctx (record normal { base = new_base_fields (audit_actor_from_context ctx) })

  unfoldable pub create_api_endpoint : Context → Option ApiEndpoint → Call S (Option ApiEndpoint)
  create_api_endpoint ctx none = do ensure_ready; fail (invalid_argument "api endpoint is required")
  create_api_endpoint ctx (some value) = do ready ← ensure_ready; create_in ready ctx value

  pub get_api_endpoint : Context → Uuid → Call S (Option ApiEndpoint)
  get_api_endpoint ctx id = do
    ready ← ensure_ready
    if id == nil_uuid
        then fail (invalid_argument "api endpoint id is required")
        else ready.get ctx id

  pub list_api_endpoints : Context → String → Call S (List (Option ApiEndpoint))
  list_api_endpoints ctx service_resource = do
    ready ← ensure_ready
    scope ← lift (validate_service_resource service_resource)
    ensure_service_resource ctx scope
    ready.list_by_service_resource ctx scope

  -- The service resource of an update: the stored one where none is given.
  abbrev pub scope_for : ApiEndpoint → ApiEndpoint → String
  scope_for value existing =
      if is_blank (trim_space value.service_resource)
      then existing.service_resource
      else trim_space value.service_resource

  -- UpdateAPIEndpoint from the endpoint that the repository returned.
  pub update_existing :
      ApiEndpointRepository S
      → Context
      → ApiEndpoint
      → Option ApiEndpoint
      → Call S (Option ApiEndpoint)
  update_existing ready ctx value none = fail (not_found "")
  update_existing ready ctx value (some existing) = do
    scope ← lift (validate_service_resource (scope_for value existing))
    if not (str_eq scope (trim_space existing.service_resource))
        then fail (conflict "api endpoint service_resource cannot be changed")
        else do
          ensure_service_resource ctx scope
          normal ← lift (
              normalize_api_endpoint table
                (record value { id = existing.id; service_resource = scope; base = existing.base }))
          let actor = audit_actor_from_context ctx
          ready.update ctx (record normal {
            base = record (normal.base) { updated_by_id = actor.id; updated_by_name = actor.name };
          })

  pub update_api_endpoint : Context → Option ApiEndpoint → Call S (Option ApiEndpoint)
  update_api_endpoint ctx none = do
    ensure_ready
    fail (invalid_argument "api endpoint id is required")
  update_api_endpoint ctx (some value) = do
    ready ← ensure_ready
    if value.id == nil_uuid
        then fail (invalid_argument "api endpoint id is required")
        else do existing ← ready.get ctx value.id; update_existing ready ctx value existing

  pub delete_api_endpoint : Context → Uuid → Call S (Unit {0})
  delete_api_endpoint ctx id = do
    ready ← ensure_ready
    if id == nil_uuid
        then fail (invalid_argument "api endpoint id is required")
        else ready.soft_delete ctx id
