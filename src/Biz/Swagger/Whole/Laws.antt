-- ===== src/Biz/Swagger/Whole/Laws.antt =====
-- What an import from a page of the web has read and counted.
use Prim.Native.Char.{Char}
use Prim.Native.String.{String}
use permission_center_go.Common.{
  ◌≡◌, refl, ◌≤◌, ◌+◌, sym, ◌∙◌, false, Option, none, some, List, [], ◌∷◌, length, is_empty, Result,
  ok, arith,
}
use permission_center_go.Biz.Audit.{Context}
use permission_center_go.Biz.Endpoint.{ApiEndpointService}
use permission_center_go.Biz.Endpoint.Import.{SwaggerImportResult, SwaggerOperation}
use permission_center_go.Biz.Endpoint.Laws.{import_swagger-IsComplete}
use permission_center_go.Biz.Swagger.{Document, operation_lt, parse_swagger_operations}
use permission_center_go.Policy.Compile.{sort}
use permission_center_go.Biz.Swagger.Declared.{declared, parse_swagger_operations-declared}
use permission_center_go.Biz.Swagger.Laws.{IsRead, parse_swagger_operations-IsRead}
use permission_center_go.Biz.Swagger.Fetch.{Location, Reader, fetch_swagger_document}
use permission_center_go.Biz.Swagger.Fetch.Laws.{IsSettled, fetch_swagger_document-IsSettled}
use permission_center_go.Biz.Swagger.Whole.{parse_decoded, import_document}

some_length : {A : Type 0} (xs : List A) → is_empty xs ≡ false → 1 ≤ length xs
some_length [] h = absurd cc
some_length (x ∷ xs) h = omega arith

module _ {Page S : Type 0} (lower : String → String) (table : Char → Char)
    (url_path : String → Option String) (clean : String → String) (reader : Reader Page)
    (request : Location → Result Page) (service : ApiEndpointService S) where
  -- The page that was found from `url`, the operations read from that page, and their counts.
  pub record IsImported (url : String) (after : SwaggerImportResult) : Type 0 where
    pub page : Page
    pub fetched : fetch_swagger_document reader request url ≡ ok page
    pub settled : IsSettled reader request page
    pub operations : List SwaggerOperation
    pub document : Document
    pub decoded : reader.decoded page ≡ some document
    pub exact :
        operations ≡ sort operation_lt (declared lower table url_path clean document document.paths)
    pub read : IsRead lower table url_path clean operations
    pub total : after.total ≡ length operations
    pub positive : 1 ≤ after.total
    pub counted : after.created + after.skipped ≡ after.total

  parse_decoded_passed :
      (decoded : Option Document) {operations : List SwaggerOperation}
      → parse_decoded lower table url_path clean reader request service decoded ≡ ok operations
      → (document : Document) × (decoded ≡ some document)
        × (parse_swagger_operations lower table url_path clean document ≡ ok operations)
  unfolding parse_decoded
  parse_decoded_passed none h = absurd cc
  parse_decoded_passed (some document) h = (document, refl, h)

  -- An import from the web that returns counts came, from the address asked for, to a page that is not
  -- HTML and that was decoded to a document. The operations of the import are all that this document
  -- declares under the methods of API endpoints, at least one, sorted by path and then by method, all
  -- of them well-formed and valid; and it counted each of them once, as created or as skipped.
  pub import_document-IsImported :
      (ctx : Context) (scope url : String) (after : SwaggerImportResult) (s t : S)
      → import_document lower table url_path clean reader request service ctx
          (record { service_resource = scope; swagger_url = url })
          s
        ≡ (ok after, t)
      → IsImported url after
  unfolding import_document
  import_document-IsImported ctx scope url after s t h =
      let (page, operations, fetched, parsed, total, counted) =
        import_swagger-IsComplete table service ctx scope _ _ url after s t h in
      let (document, decoded, made) = parse_decoded_passed (reader.decoded page) parsed in
      let read =
        parse_swagger_operations-IsRead lower table url_path clean document operations made in
      record {
        page = page;
        fetched = fetched;
        settled = fetch_swagger_document-IsSettled reader request url page fetched;
        operations = operations;
        document = document;
        decoded = decoded;
        exact =
            parse_swagger_operations-declared lower table url_path clean document operations made;
        read = read;
        total = total;
        positive = omega (arith, total, some_length operations read.present);
        counted = counted ∙ sym total;
      }
