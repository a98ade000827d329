-- ===== src/Biz/Swagger/Tests.antt =====
-- A small document and its operations.
use Prim.Native.Char.{Char}
use Prim.Native.String.{String}
use permission_center_go.Common.{
  ℕ, ◌+◌, ◌≡◌, refl, Option, none, some, List, [], ◌∷◌, ok, Result, if◌then◌else◌,
}
use permission_center_go.Text.{
  trim_space, to_upper, to_lower, has_prefix, fields_func, trim_right_by,
}
use permission_center_go.Policy.Compile.{insert, sort, str_lt}
use permission_center_go.Biz.Resource.{validate_service_resource, ensure}
use permission_center_go.Biz.Endpoint.{
  normalize_api_endpoint, ApiEndpointRepository, ApiEndpointService, create_api_endpoint,
}
use permission_center_go.Biz.Endpoint.Import.{
  SwaggerOperation, SwaggerImportResult, import_from, import_swagger_api_endpoints, has_route,
  routes_of,
}
use permission_center_go.Biz.Swagger.Whole.{parse_decoded, import_document}
use permission_center_go.Biz.Swagger.Whole.Laws.{IsImported, import_document-IsImported}
use permission_center_go.Biz.Swagger.{
  PathItem, Document, is_supported, is_swagger_document, is_kept, replace_runs, trim_left_by,
  take_runes, bounded, operation_lt, sanitize_swagger_controller, first_part,
  operation_id_controller, untagged, controller_by, swagger_controller, join_swagger_path,
  path_or_blank, server_path, base_path_of, operation_of, validate_swagger_operation, collect_item,
  collect, sorted_operations, parse_swagger_operations,
}
use package.text.Mathlib.Text.{◌==◌ as str_eq}
use permission_center_go.Biz.Swagger.Fetch.{
  Location, Reader, unescape_slashes, swagger_reference_url, found_url, follow, follow_html,
  follow_plain, html_reference, read_page, fetch_swagger_document_at, or_on_host, fetch_parsed,
  fetch_swagger_document,
}
use permission_center_go.Biz.Swagger.Fetch.Laws.{IsSettled, fetch_swagger_document-IsSettled}
use permission_center_go.Biz.Swagger.Laws.{IsRead, parse_swagger_operations-IsRead}

abbrev no_item : PathItem
no_item = record {
  get = none;
  post = none;
  put = none;
  patch = none;
  delete = none;
  head = none;
  options = none;
  trace = none;
}

abbrev document : Document
document = record {
  swagger = "2.0";
  openapi = "";
  base_path = "/";
  servers = [];
  title = "Shop";
  paths =
      (
        "/users",
        record no_item {
          get = some (record { tags = "User Admin!" ∷ []; operation_id = ""; summary = " List " });
          delete = some (record { tags = []; operation_id = "users_clear"; summary = "" });
        },
      )
      ∷ (
        "/a",
        record no_item { post = some (record { tags = []; operation_id = ""; summary = "" }) },
      )
      ∷ [];
}

-- path.Clean and unicode.ToUpper, as far as the document needs them.
abbrev clean : String → String
clean (String.◌∷◌ c (String.◌∷◌ d s)) = s
clean s = s

abbrev same : Char → Char
same c = c

abbrev read : List SwaggerOperation
read =
    record { controller = "shop"; method = "POST"; path_template = "/a"; summary = "" }
    ∷ record {
      controller = "users";
      method = "DELETE";
      path_template = "/users";
      summary = "users_clear";
    }
    ∷ record {
      controller = "user-admin";
      method = "GET";
      path_template = "/users";
      summary = "List";
    }
    ∷ []

reads : parse_swagger_operations to_lower same (λ url. none) clean document ≡ ok read
unfolding parse_swagger_operations is_supported is_kept replace_runs trim_left_by take_runes bounded
    operation_lt sanitize_swagger_controller first_part operation_id_controller untagged
    controller_by swagger_controller join_swagger_path path_or_blank server_path base_path_of
    operation_of validate_swagger_operation collect_item collect sorted_operations trim_space
    to_upper to_lower has_prefix fields_func trim_right_by insert sort str_lt normalize_api_endpoint
reads = refl

parse_swagger_operations-IsRead_example : IsRead to_lower same (λ url. none) clean read
parse_swagger_operations-IsRead_example =
    parse_swagger_operations-IsRead to_lower same (λ url. none) clean document read reads

-- A page that names the document, which its site serves under another URL.
abbrev place_of : String → Option Location
place_of url = some (record { scheme = "https"; host = "shop.example"; rest = url })

abbrev example_reader : Reader String
example_reader = record {
  is_html = λ page. has_prefix page "<html";
  ui_url = λ page. if has_prefix page "<html" then some "doc.json" else none;
  config_url = λ page. none;
  initializers = λ page. [];
  scripts = λ page. [];
  decoded = λ page. if has_prefix page "<html" then none else some document;
  parse = place_of;
  resolve = λ url reference. place_of reference;
  hostname = λ host. host;
  port = λ host. "";
}

abbrev answer : Location → Result String
answer url = if str_eq url.rest "doc.json" then ok "{}" else ok "<html>"

fetches : fetch_swagger_document example_reader answer "index" ≡ ok "{}"
unfolding fetch_swagger_document fetch_parsed or_on_host fetch_swagger_document_at read_page
    html_reference found_url follow_html follow swagger_reference_url unescape_slashes follow_plain
    is_swagger_document is_supported trim_space has_prefix
fetches = refl

fetch_swagger_document-IsSettled_example : IsSettled example_reader answer "{}"
fetch_swagger_document-IsSettled_example =
    fetch_swagger_document-IsSettled example_reader answer "index" "{}" fetches

-- A repository that counts what it is given.
abbrev counting : ApiEndpointRepository ℕ
counting = record {
  create = λ ctx value s. (ok (some value), s + 1);
  get = λ ctx id s. (ok none, s);
  list_by_service_resource = λ ctx scope s. (ok [], s);
  update = λ ctx value s. (ok (some value), s);
  soft_delete = λ ctx id s. (ok tt, s);
}

abbrev counting_service : ApiEndpointService ℕ
counting_service = record { repository = some counting; service_resources = none }

abbrev three : SwaggerImportResult
three = record { total = 3; created = 3; skipped = 0 }

imports_document :
    import_document to_lower same
      (λ url. none)
      clean
      example_reader
      answer
      counting_service
      none
      (record { service_resource = "shop"; swagger_url = "index" })
      0
    ≡ (ok three, 3)
unfolding import_document parse_swagger_operations is_supported is_kept replace_runs trim_left_by
    take_runes bounded operation_lt sanitize_swagger_controller first_part operation_id_controller
    untagged controller_by swagger_controller join_swagger_path path_or_blank server_path
    base_path_of operation_of validate_swagger_operation collect_item collect sorted_operations
    trim_space to_upper to_lower has_prefix fields_func trim_right_by insert sort str_lt
    normalize_api_endpoint fetch_swagger_document fetch_parsed or_on_host fetch_swagger_document_at
    read_page html_reference found_url follow_html follow swagger_reference_url unescape_slashes
    follow_plain is_swagger_document parse_decoded import_swagger_api_endpoints import_from
    create_api_endpoint validate_service_resource ensure has_route routes_of
imports_document = refl

import_document-IsImported_example :
    IsImported to_lower same
      (λ url. none)
      clean
      example_reader
      answer
      counting_service
      "index"
      three
import_document-IsImported_example =
    import_document-IsImported to_lower same (λ url. none) clean example_reader answer
      counting_service none "shop" "index" three 0 3 imports_document
