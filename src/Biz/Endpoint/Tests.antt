-- ===== src/Biz/Endpoint/Tests.antt =====
-- An import into a store that is the list of its endpoints.
use Prim.Native.Char.{Char}
use Prim.Native.String.{String}
use permission_center_go.Common.{◌≡◌, ◌+◌, refl, none, some, List, [], ◌∷◌, map, length, Result, ok}
use permission_center_go.Text.{trim_space, to_upper, has_prefix}
use permission_center_go.Biz.Audit.{Context, new_base_fields, audit_actor_from_context}
use permission_center_go.Biz.Resource.{validate_service_resource, ensure}
use permission_center_go.Biz.Endpoint.{
  ApiEndpoint, ApiEndpointRepository, ApiEndpointService, create_api_endpoint,
  normalize_api_endpoint,
}
use permission_center_go.Biz.Endpoint.Import.{
  SwaggerImportResult, SwaggerOperation, import_from, import_swagger_api_endpoints, has_route,
  routes_of, endpoint_of,
}
use permission_center_go.Biz.Endpoint.Laws.{import_swagger-IsComplete}

abbrev Store : Type 0
Store = List ApiEndpoint

abbrev repository : ApiEndpointRepository Store
repository = record {
  create = λ ctx value s. (ok (some value), value ∷ s);
  get = λ ctx id s. (ok none, s);
  list_by_service_resource = λ ctx scope s. (ok (map (λ value. some value) s), s);
  update = λ ctx value s. (ok (some value), s);
  soft_delete = λ ctx id s. (ok tt, s);
}

abbrev service : ApiEndpointService Store
service = record { repository = some repository; service_resources = none }

abbrev same : Char → Char
same c = c

abbrev get_orders : SwaggerOperation
get_orders = record {
  controller = "orders";
  method = "GET";
  path_template = "/orders";
  summary = "all orders";
}

abbrev add_order : SwaggerOperation
add_order = record get_orders { method = "POST" }

abbrev start : Store
start = record (endpoint_of "orders" get_orders) { path_template = " /orders" } ∷ []

abbrev fetch : Context → String → Result (List SwaggerOperation)
fetch ctx url = ok (get_orders ∷ add_order ∷ [])

abbrev parse : List SwaggerOperation → Result (List SwaggerOperation)
parse document = ok document

abbrev counted : SwaggerImportResult
counted = record { total = 2; created = 1; skipped = 1 }

abbrev after : Store
after =
    record (endpoint_of "orders" add_order) {
      base = new_base_fields (audit_actor_from_context none);
    }
    ∷ start

imports :
    import_swagger_api_endpoints same service fetch parse none
      (record { service_resource = "orders"; swagger_url = "http://localhost" })
      start
    ≡ (ok counted, after)
unfolding import_swagger_api_endpoints import_from create_api_endpoint trim_space to_upper
    has_prefix validate_service_resource ensure normalize_api_endpoint has_route routes_of
imports = refl

import_swagger-IsComplete_example :
    (document : List SwaggerOperation) × (operations : List SwaggerOperation) × (fetch none
        "http://localhost"
      ≡ ok document)
    × (parse document ≡ ok operations)
    × (counted.total ≡ length operations)
    × (counted.created + counted.skipped ≡ length operations)
import_swagger-IsComplete_example =
    import_swagger-IsComplete same service none "orders" fetch parse "http://localhost" counted
      start after imports
