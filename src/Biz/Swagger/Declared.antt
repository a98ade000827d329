-- ===== src/Biz/Swagger/Declared.antt =====
-- The operations that are read from a document are those that it declares.
use Prim.Native.Char.{Char}
use Prim.Native.String.{String}
use permission_center_go.Common.{
  ◌≡◌, sym, ap, ◌∙◌, not, Option, none, some, List, [], ◌∷◌, ◌++◌, Result, ok, Bool-cases, inl, inr,
  >>=-eq-ok, ◌>>=◌, refusal_passed, ok-injective, if◌then◌else◌,
}
use permission_center_go.Biz.Endpoint.{is_api_endpoint_http_method}
use permission_center_go.Biz.Endpoint.Import.{SwaggerOperation}
use permission_center_go.Policy.Compile.{sort}
use permission_center_go.Biz.Swagger.{
  Operation, Document, PathItem, is_supported, operation_of, operations, validate_swagger_operation,
  collect_item, collect, sorted_operations, parse_swagger_operations, operation_lt,
}
use permission_center_go.Biz.Swagger.Laws.{sorted_passed}

module _ (lower : String → String) (table : Char → Char) (url_path : String → Option String)
    (clean : String → String) (document : Document) where
  -- The operations under the methods of one path.
  abbrev pub declared_under : String → List (String × Option Operation) → List SwaggerOperation
  declared_under route [] = []
  declared_under route ((method, none) ∷ rest) = declared_under route rest
  declared_under route ((method, some operation) ∷ rest) =
      let others = declared_under route rest in
      if is_api_endpoint_http_method method
      then operation_of lower table url_path clean document route method operation ∷ others
      else others

  -- The operations of all the paths, in the order of the document.
  abbrev pub declared : List (String × PathItem) → List SwaggerOperation
  declared [] = []
  declared ((route, item) ∷ paths) = declared_under route (operations item) ++ declared paths

  collect_item-declared :
      (route : String) (items : List (String × Option Operation))
      (later : Result (List SwaggerOperation)) (after found : List SwaggerOperation)
      → ((xs : List SwaggerOperation) → later ≡ ok xs → xs ≡ after)
      → collect_item lower table url_path clean document route items later ≡ ok found
      → found ≡ declared_under route items ++ after
  unfolding collect_item
  collect_item-declared route [] later after found p h = p found h
  collect_item-declared route ((method, none) ∷ rest) later after found p h =
      collect_item-declared route rest later after found p h
  collect_item-declared route ((method, some operation) ∷ rest) later after found p h =
      let made = operation_of lower table url_path clean document route method operation in
      let others = collect_item lower table url_path clean document route rest later in
      elim (Bool-cases (is_api_endpoint_http_method method)) [
        | inr skipped ↦
            rw skipped (collect_item-declared route rest later after found p (rw skipped at h))
        | inl taken ↦
            let (_, _, h1) =
              >>=-eq-ok (validate_swagger_operation lower table url_path clean made)
                (λ _. others >>= λ found. ok (made ∷ found)) (rw taken at h) in
            let (xs, e, h2) = >>=-eq-ok others (λ found. ok (made ∷ found)) h1 in
            rw taken (
              sym (ok-injective h2)
              ∙ ap (λ ys. made ∷ ys) (collect_item-declared route rest later after xs p e))
      ]

  collect-declared :
      (paths : List (String × PathItem)) (found : List SwaggerOperation)
      → collect lower table url_path clean document paths ≡ ok found
      → found ≡ declared paths
  unfolding collect
  collect-declared [] found h = sym (ok-injective h)
  collect-declared ((route, item) ∷ paths) found h =
      collect_item-declared route (operations item)
        (collect lower table url_path clean document paths) (declared paths) found
        (collect-declared paths) h

  -- What is read is the sorted list of the declared operations.
  pub parse_swagger_operations-declared :
      (result : List SwaggerOperation)
      → parse_swagger_operations lower table url_path clean document ≡ ok result
      → result ≡ sort operation_lt (declared document.paths)
  unfolding parse_swagger_operations
  parse_swagger_operations-declared result h =
      let (supported, h1) = refusal_passed (not (is_supported document)) _ _ h in
      let (found, collected, h2) =
        >>=-eq-ok (collect lower table url_path clean document document.paths)
          (sorted_operations lower table url_path clean) h1 in
      let (_, same) = sorted_passed lower table url_path clean found h2 in
      sym same ∙ ap (sort operation_lt) (collect-declared document.paths found collected)
