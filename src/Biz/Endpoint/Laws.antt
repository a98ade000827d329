-- ===== src/Biz/Endpoint/Laws.antt =====
-- What an import counts, and what reaches the repository of endpoints.
use Prim.Native.Char.{Char}
use Prim.Native.String.{String}
use permission_center_go.Common.{
  ◌≡◌, ◌+◌, refl, sym, Error, ap, ◌∙◌, true, false, Option, some, List, [], ◌∷◌, length, Result, ok,
  err, panic, arith, Bool-cases, inl, inr, is_already_exists,
}
use permission_center_go.Biz.Call.Attempt.{two_passed, lift_passed}
use permission_center_go.Biz.Resource.{validate_service_resource}
use permission_center_go.Biz.Audit.{Context}
use permission_center_go.Biz.Endpoint.{
  ApiEndpoint, ApiEndpointService, create_api_endpoint, ensure_ready, ensure_service_resource,
}
use permission_center_go.Biz.Endpoint.Import.{
  SwaggerImportResult, SwaggerOperation, Route, has_route, route_of, endpoint_of, skip_one,
  create_one, import_from, import_swagger_api_endpoints,
}

-- What is still to be counted is counted.
abbrev pub IsCounted : SwaggerImportResult → List SwaggerOperation → SwaggerImportResult → Type 0
IsCounted before operations after =
    (after.total ≡ before.total)
    × (after.created + after.skipped ≡ before.created + before.skipped + length operations)

module _ {S : Type 0} (table : Char → Char) (service : ApiEndpointService S) (ctx : Context)
    (scope : String) where
  -- The loop from these operations counts them all.
  abbrev Counts : List SwaggerOperation → Type 0
  Counts operations =
      (routes : List Route) (result after : SwaggerImportResult) (s t : S)
      → import_from table service ctx scope routes result operations s ≡ (ok after, t)
      → IsCounted result operations after

  module _ (routes : List Route) (result : SwaggerImportResult) (operation : SwaggerOperation)
      (operations : List SwaggerOperation) (s u : S)
      (fresh : has_route routes (route_of operation) ≡ false) where
    abbrev CreatedAs : Result (Option ApiEndpoint) → Type 0
    CreatedAs r =
        create_api_endpoint table service ctx (some (endpoint_of scope operation)) s ≡ (r, u)

    abbrev this_round : Result SwaggerImportResult × S
    this_round = import_from table service ctx scope routes result (operation ∷ operations) s

    round_ok :
        (c : Option ApiEndpoint)
        → CreatedAs (ok c)
        → this_round
          ≡ import_from table service ctx scope
              (route_of operation ∷ routes)
              (create_one result)
              operations
              u
    unfolding import_from
    round_ok c e = rw (fresh, ap (λ p. p.0) e, ap (λ p. p.1) e)

    round_panic : CreatedAs panic → this_round ≡ (panic, u)
    unfolding import_from
    round_panic e = rw (fresh, ap (λ p. p.0) e, ap (λ p. p.1) e)

    round_exists :
        (x : Error)
        → is_already_exists x ≡ true
        → CreatedAs (err x)
        → this_round ≡ import_from table service ctx scope routes (skip_one result) operations u
    unfolding import_from
    round_exists x exists e = rw (fresh, ap (λ p. p.0) e, ap (λ p. p.1) e, exists)

    round_err :
        (x : Error) → is_already_exists x ≡ false → CreatedAs (err x) → this_round ≡ (err x, u)
    unfolding import_from
    round_err x other e = rw (fresh, ap (λ p. p.0) e, ap (λ p. p.1) e, other)

  by_outcome :
      (routes : List Route) (result after : SwaggerImportResult) (operation : SwaggerOperation)
      (operations : List SwaggerOperation) (s t : S)
      → Counts operations
      → import_from table service ctx scope routes result (operation ∷ operations) s ≡ (ok after, t)
      → has_route routes (route_of operation) ≡ false
      → (p : Result (Option ApiEndpoint) × S)
      → create_api_endpoint table service ctx (some (endpoint_of scope operation)) s ≡ p
      → IsCounted result (operation ∷ operations) after
  by_outcome routes result after operation operations s t rest h fresh (ok c, u) e =
      let (total, counted) =
        rest (route_of operation ∷ routes) (create_one result) after u t
          (sym (round_ok routes result operation operations s u fresh c e) ∙ h) in
      (total, omega (arith, counted))
  by_outcome routes result after operation operations s t rest h fresh (panic, u) e =
      absurd (cc (sym (round_panic routes result operation operations s u fresh e) ∙ h))
  by_outcome routes result after operation operations s t rest h fresh (err x, u) e =
      elim (Bool-cases (is_already_exists x)) [
        | inl exists ↦
            let (total, counted) =
              rest routes (skip_one result) after u t
                (sym (round_exists routes result operation operations s u fresh x exists e) ∙ h) in
            (total, omega (arith, counted))
        | inr other ↦
            absurd (cc (sym (round_err routes result operation operations s u fresh x other e) ∙ h))
      ]

  import_from-IsCounted : (operations : List SwaggerOperation) → Counts operations
  unfolding import_from
  import_from-IsCounted [] routes result after s t h =
      let same : after ≡ result = cc in
      (ap (λ r. r.total) same, omega (arith, ap (λ r. r.created + r.skipped) same))
  import_from-IsCounted (operation ∷ operations) routes result after s t h =
      elim (Bool-cases (has_route routes (route_of operation))) [
        | inl seen ↦
            let (total, counted) =
              import_from-IsCounted operations routes (skip_one result) after s t (rw seen at h) in
            (total, omega (arith, counted))
        | inr fresh ↦
            by_outcome routes result after operation operations s t
              (import_from-IsCounted operations) h fresh
              (create_api_endpoint table service ctx (some (endpoint_of scope operation)) s) refl
      ]

module _ {S : Type 0} (table : Char → Char) (service : ApiEndpointService S) (ctx : Context)
    (scope : String) where
  -- An import that returns a result counts every operation of the document once, as created or as
  -- skipped, and its total is their number.
  pub import_swagger-IsComplete :
      {Document : Type 0} (fetch : Context → String → Result Document)
      (parse : Document → Result (List SwaggerOperation)) (url : String)
      (after : SwaggerImportResult) (s t : S)
      → import_swagger_api_endpoints table service fetch parse ctx
          (record { service_resource = scope; swagger_url = url })
          s
        ≡ (ok after, t)
      → (document : Document) × (operations : List SwaggerOperation) × (fetch ctx url ≡ ok document)
        × (parse document ≡ ok operations)
        × (after.total ≡ length operations)
        × (after.created + after.skipped ≡ length operations)
  unfolding import_swagger_api_endpoints
  import_swagger-IsComplete fetch parse url after s t h =
      let (ready, s₁, _, h₁) = two_passed (ensure_ready table service) _ s h in
      let (scope', _, h₂) = lift_passed (validate_service_resource scope) _ s₁ h₁ in
      let (_, s₂, _, h₃) = two_passed (ensure_service_resource table service ctx scope') _ s₁ h₂ in
      let (document, fetched, h₄) = lift_passed (fetch ctx url) _ s₂ h₃ in
      let (operations, parsed, h₅) = lift_passed (parse document) _ s₂ h₄ in
      let (existing, s₃, _, h₆) = two_passed (ready.list_by_service_resource ctx scope') _ s₂ h₅ in
      let (total, counted) =
        import_from-IsCounted table service ctx scope' operations _ _ after s₃ t h₆ in
      (document, operations, fetched, parsed, total, omega (arith, counted))
