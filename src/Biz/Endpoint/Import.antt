-- ===== src/Biz/Endpoint/Import.antt =====
-- internal/biz/api_endpoint.go: ImportSwaggerAPIEndpoints, for any `fetch` and `parse`; those of
-- swagger.go, fetchSwaggerDocument and parseSwaggerOperations, are put in their place in
-- Biz/Swagger/Whole. The set `routes` is the list of its keys, and a key is the pair that the Go
-- code joins by a zero byte.
use Prim.Native.Char.{Char}
use Prim.Native.String.{String}
use package.text.Mathlib.Text.{◌==◌ as str_eq}
use permission_center_go.Common.{
  ℕ, ◌+◌, Bool, true, false, ◌||◌, ◌&&◌, Option, none, some, List, [], ◌∷◌, length, if◌then◌else◌,
  Result, ok, err, panic, is_already_exists,
}
use permission_center_go.Text.{trim_space, to_upper}
use permission_center_go.Biz.Call.{Call, lift, ◌>>=◌, ◌>>◌}
use permission_center_go.Biz.Audit.{BaseFields, Context}
use permission_center_go.Biz.Resource.{validate_service_resource}
use permission_center_go.Biz.Endpoint.{
  ApiEndpoint, ApiEndpointService, ensure_ready, ensure_service_resource, create_api_endpoint,
}

pub record SwaggerImportRequest : Type 0 where
  pub service_resource : String
  pub swagger_url : String

pub record SwaggerImportResult : Type 0 where
  pub total : ℕ
  pub created : ℕ
  pub skipped : ℕ

pub record SwaggerOperation : Type 0 where
  pub controller : String
  pub method : String
  pub path_template : String
  pub summary : String

abbrev pub Route : Type 0
Route = String × String

unfoldable pub has_route : List Route → Route → Bool
has_route [] key = false
has_route (route ∷ routes) key =
    (str_eq route.0 key.0 && str_eq route.1 key.1) || has_route routes key

-- The routes of the endpoints listed.
unfoldable pub routes_of : (Char → Char) → List (Option ApiEndpoint) → List Route
routes_of table [] = []
routes_of table (none ∷ rest) = routes_of table rest
routes_of table (some endpoint ∷ rest) =
    (to_upper table (trim_space endpoint.method), trim_space endpoint.path_template)
    ∷ routes_of table rest

abbrev pub route_of : SwaggerOperation → Route
route_of operation = (operation.method, operation.path_template)

-- The fields that the literal of the loop leaves at their zero values.
abbrev zero_base : BaseFields
zero_base = record {
  created_by_id = "";
  created_by_name = "";
  created_at = 0;
  updated_by_id = "";
  updated_by_name = "";
  updated_at = 0;
  is_deleted = false;
}

abbrev pub endpoint_of : String → SwaggerOperation → ApiEndpoint
endpoint_of scope operation = record {
  base = zero_base;
  id = 0;
  service_resource = scope;
  controller = operation.controller;
  method = operation.method;
  path_template = operation.path_template;
  summary = operation.summary;
  enabled = true;
}

abbrev pub skip_one : SwaggerImportResult → SwaggerImportResult
skip_one result = record result { skipped = result.skipped + 1 }

abbrev pub create_one : SwaggerImportResult → SwaggerImportResult
create_one result = record result { created = result.created + 1 }

module _ {S : Type 0} (table : Char → Char) (service : ApiEndpointService S) where
  -- The loop over the operations. The error of a creation is looked at before it is passed on.
  unfoldable pub import_from :
      Context
      → String
      → List Route
      → SwaggerImportResult
      → List SwaggerOperation
      → Call S SwaggerImportResult
  import_from ctx scope routes result [] s = (ok result, s)
  import_from ctx scope routes result (operation ∷ operations) s =
      let skip = import_from ctx scope routes (skip_one result) operations in
      let go_on =
        import_from ctx scope (route_of operation ∷ routes) (create_one result) operations in
      let (outcome, s') =
        create_api_endpoint table service ctx (some (endpoint_of scope operation)) s in
      if has_route routes (route_of operation) then skip s else elim outcome [
        | ok created ↦ go_on s'
        | panic ↦ (panic, s')
        | err e ↦ (if is_already_exists e then skip s' else (err e, s'))
      ]

  unfoldable pub import_swagger_api_endpoints :
      {Document : Type 0} (fetch : Context → String → Result Document)
      (parse : Document → Result (List SwaggerOperation))
      → Context
      → SwaggerImportRequest
      → Call S SwaggerImportResult
  import_swagger_api_endpoints fetch parse ctx request = do
    ready ← ensure_ready table service
    scope ← lift (validate_service_resource request.service_resource)
    ensure_service_resource table service ctx scope
    document ← lift (fetch ctx request.swagger_url)
    operations ← lift (parse document)
    existing ← ready.list_by_service_resource ctx scope
    import_from ctx scope (routes_of table existing)
        (record { total = length operations; created = 0; skipped = 0 }) operations
