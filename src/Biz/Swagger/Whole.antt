-- ===== src/Biz/Swagger/Whole.antt =====
-- ImportSwaggerAPIEndpoints of internal/biz/api_endpoint.go with the search for the document and
-- the reading of it by swagger.go.
pub mod Laws
use Prim.Native.Char.{Char}
use Prim.Native.String.{String}
use permission_center_go.Common.{Option, none, some, List, Result, err, failure}
use permission_center_go.Biz.Call.{Call}
use permission_center_go.Biz.Audit.{Context}
use permission_center_go.Biz.Endpoint.{ApiEndpointService}
use permission_center_go.Biz.Endpoint.Import.{
  SwaggerImportRequest, SwaggerImportResult, SwaggerOperation, import_swagger_api_endpoints,
}
use permission_center_go.Biz.Swagger.{Document, parse_swagger_operations}
use permission_center_go.Biz.Swagger.Fetch.{Location, Reader, fetch_swagger_document}

module _ {Page S : Type 0} (lower : String → String) (table : Char → Char)
    (url_path : String → Option String) (clean : String → String) (reader : Reader Page)
    (request : Location → Result Page) (service : ApiEndpointService S) where
  -- parseSwaggerOperations, from what the decoders made of the body.
  unfoldable pub parse_decoded : Option Document → Result (List SwaggerOperation)
  parse_decoded none = err (failure "invalid Swagger or OpenAPI document: ")
  parse_decoded (some document) = parse_swagger_operations lower table url_path clean document

  unfoldable pub import_document : Context → SwaggerImportRequest → Call S SwaggerImportResult
  import_document ctx asked =
      import_swagger_api_endpoints table service
        (λ ctx url. fetch_swagger_document reader request url)
        (λ page. parse_decoded (reader.decoded page)) ctx asked
