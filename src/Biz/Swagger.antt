-- ===== src/Biz/Swagger.antt =====
-- internal/biz/swagger.go: from a decoded Swagger or OpenAPI document to its operations. Fetching,
-- the decoders, url.Parse and path.Clean are parameters. The paths are listed in the order in which
-- the iteration over the map of the code meets them.
pub mod Laws
pub mod Declared
pub mod Sorted
pub mod Fetch
pub mod Whole
mod Tests
use Prim.Native.Char.{Char, code}
use Prim.Native.String.{String}
use package.text.Mathlib.Text.{◌==◌ as str_eq}
use permission_center_go.Common.{
  ℕ, zero, suc, Bool, true, false, not, ◌&&◌, ◌||◌, ltb, leb, ◌==◌ as nat_eq, Option, none, some,
  List, [], ◌∷◌, ◌++◌, is_empty, if◌then◌else◌, Result, ok, err, panic, invalid_argument, ◌>>=◌,
  ◌>>◌,
}
use permission_center_go.Text.{
  trim_space, is_blank, count, has_prefix, fields_func, trim_right_by, is_slash, append,
}
use permission_center_go.Policy.Compile.{str_lt, sort}
use permission_center_go.Biz.Endpoint.{
  ApiEndpoint, controller_max_length, normalize_api_endpoint, is_api_endpoint_http_method,
}
use permission_center_go.Biz.Endpoint.Import.{SwaggerOperation, endpoint_of}

-- swaggerOperation
pub record Operation : Type 0 where
  pub tags : List String
  pub operation_id : String
  pub summary : String

-- swaggerPathItem
pub record PathItem : Type 0 where
  pub get : Option Operation
  pub post : Option Operation
  pub put : Option Operation
  pub patch : Option Operation
  pub delete : Option Operation
  pub head : Option Operation
  pub options : Option Operation
  pub trace : Option Operation

abbrev pub operations : PathItem → List (String × Option Operation)
operations p =
    ("GET", p.get)
    ∷ ("POST", p.post)
    ∷ ("PUT", p.put)
    ∷ ("PATCH", p.patch)
    ∷ ("DELETE", p.delete)
    ∷ ("HEAD", p.head)
    ∷ ("OPTIONS", p.options)
    ∷ ("TRACE", p.trace)
    ∷ []

-- swaggerDocument
pub record Document : Type 0 where
  pub swagger : String
  pub openapi : String
  pub base_path : String
  pub servers : List String
  pub title : String
  pub paths : List (String × PathItem)

-- A version of the format that is read.
unfoldable pub is_supported : Document → Bool
is_supported document = str_eq document.swagger "2.0" || has_prefix document.openapi "3."

-- isSwaggerDocument, of what encoding/json or yaml.v3 decoded.
unfoldable pub is_swagger_document : Option Document → Bool
is_swagger_document none = false
is_swagger_document (some document) = is_supported document

-- The characters that the pattern of a controller keeps: a-z, 0-9, the dot, the underscore, the dash.
unfoldable pub is_kept : Char → Bool
is_kept c =
    (leb 97 (code c) && leb (code c) 122)
    || (leb 48 (code c) && leb (code c) 57)
    || nat_eq (code c) 46
    || nat_eq (code c) 95
    || nat_eq (code c) 45

-- ReplaceAllString of each run of other characters; `inside` is whether a run has begun.
unfoldable pub replace_runs : Bool → String → String
replace_runs inside String.[] = String.[]
replace_runs inside (String.◌∷◌ c s) =
    let kept = String.◌∷◌ c (replace_runs false s) in
    let skipped = replace_runs true s in
    if is_kept c then kept else if inside then skipped else append "-" skipped

-- The set of strings.Trim: the dash, the dot and the underscore.
abbrev pub is_edge : Char → Bool
is_edge c = nat_eq (code c) 45 || nat_eq (code c) 46 || nat_eq (code c) 95

unfoldable pub trim_left_by : (Char → Bool) → String → String
trim_left_by p String.[] = String.[]
trim_left_by p (String.◌∷◌ c s) =
    let rest = trim_left_by p s in if p c then rest else String.◌∷◌ c s

-- strings.Trim
abbrev pub trim_by : (Char → Bool) → String → String
trim_by p s = trim_right_by p (trim_left_by p s)

-- The first code points of a text.
unfoldable pub take_runes : ℕ → String → String
take_runes zero s = String.[]
take_runes (suc n) String.[] = String.[]
take_runes (suc n) (String.◌∷◌ c s) = String.◌∷◌ c (take_runes n s)

unfoldable pub bounded : String → String
bounded value =
    if is_blank value
    then "default"
    else if ltb controller_max_length (count value)
    then take_runes controller_max_length value
    else value

-- The characters between the parts of an operation's identifier.
abbrev pub is_separator : Char → Bool
is_separator c =
    nat_eq (code c) 95
    || nat_eq (code c) 46
    || nat_eq (code c) 47
    || nat_eq (code c) 58
    || nat_eq (code c) 45

-- The order of the operations: by path, then by method.
unfoldable pub operation_lt : SwaggerOperation → SwaggerOperation → Bool
operation_lt a b =
    if not (str_eq a.path_template b.path_template)
    then str_lt a.path_template b.path_template
    else str_lt a.method b.method

-- `lower` is strings.ToLower, `table` the table of unicode.ToUpper, `url_path` the path of a parsed
-- URL, and `clean` is path.Clean.
module _ (lower : String → String) (table : Char → Char) (url_path : String → Option String)
    (clean : String → String) where
  -- sanitizeSwaggerController
  unfoldable pub sanitize_swagger_controller : String → String
  sanitize_swagger_controller value =
      bounded (trim_by is_edge (replace_runs false (lower (trim_space value))))

  unfoldable pub first_part : List String → String
  first_part [] = "default"
  first_part (part ∷ parts) = sanitize_swagger_controller part

  -- operationIDController
  unfoldable pub operation_id_controller : String → String
  operation_id_controller value = first_part (fields_func is_separator value)

  unfoldable pub untagged : Operation → String → String
  untagged operation fallback =
      if not (is_blank (trim_space operation.operation_id))
      then operation_id_controller operation.operation_id
      else sanitize_swagger_controller fallback

  unfoldable pub controller_by : List String → Operation → String → String
  controller_by [] operation fallback = untagged operation fallback
  controller_by (tag ∷ tags) operation fallback =
      if not (is_blank (trim_space tag))
      then sanitize_swagger_controller tag
      else untagged operation fallback

  -- swaggerController
  unfoldable pub swagger_controller : Operation → String → String
  swagger_controller operation fallback = controller_by operation.tags operation fallback

  -- joinSwaggerPath
  unfoldable pub join_swagger_path : String → String → String
  join_swagger_path base route =
      clean (append "/" (append (trim_by is_slash base) (append "/" (trim_space route))))

  unfoldable pub path_or_blank : Option String → String
  path_or_blank none = ""
  path_or_blank (some path) = path

  unfoldable pub server_path : List String → String
  server_path [] = ""
  server_path (server ∷ servers) = path_or_blank (url_path (trim_space server))

  -- The base path of a document, empty where it is the root.
  unfoldable pub base_path_of : Document → String
  base_path_of document =
      let given = trim_space document.base_path in
      let base = if is_blank given then server_path document.servers else given in
      if str_eq base "/" then "" else base

  unfoldable pub operation_of : Document → String → String → Operation → SwaggerOperation
  operation_of document route method operation = record {
    controller = swagger_controller operation document.title;
    method = method;
    path_template = join_swagger_path (base_path_of document) route;
    summary =
        if is_blank (trim_space operation.summary)
        then trim_space operation.operation_id
        else trim_space operation.summary;
  }

  -- validateSwaggerOperation
  unfoldable pub validate_swagger_operation : SwaggerOperation → Result ApiEndpoint
  validate_swagger_operation operation =
      normalize_api_endpoint table
        (record (endpoint_of "" operation) { summary = ""; enabled = false })

  -- The inner loop: the operations of one path, with those of the paths after it.
  unfoldable pub collect_item :
      Document
      → String
      → List (String × Option Operation)
      → Result (List SwaggerOperation)
      → Result (List SwaggerOperation)
  collect_item document route [] later = later
  collect_item document route ((method, none) ∷ rest) later = collect_item document route rest later
  collect_item document route ((method, some operation) ∷ rest) later =
      let made = operation_of document route method operation in
      let others = collect_item document route rest later in
      if not (is_api_endpoint_http_method method)
      then others
      else validate_swagger_operation made >>= λ _. others >>= λ found. ok (made ∷ found)

  -- The loop over the paths.
  unfoldable pub collect : Document → List (String × PathItem) → Result (List SwaggerOperation)
  collect document [] = ok []
  collect document ((route, item) ∷ paths) =
      collect_item document route (operations item) (collect document paths)

  unfoldable pub sorted_operations : List SwaggerOperation → Result (List SwaggerOperation)
  sorted_operations found =
      if is_empty found
      then err (invalid_argument "Swagger document contains no HTTP operations")
      else ok (sort operation_lt found)

  -- parseSwaggerOperations, of a decoded document.
  unfoldable pub parse_swagger_operations : Document → Result (List SwaggerOperation)
  parse_swagger_operations document =
      if not (is_supported document)
      then err (invalid_argument "only Swagger 2.0 and OpenAPI 3.x documents are supported")
      else collect document document.paths >>= sorted_operations
