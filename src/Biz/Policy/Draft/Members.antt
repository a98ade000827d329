-- ===== src/Biz/Policy/Draft/Members.antt =====
-- The roles and endpoints that normalizeAndValidate looks up.
use Prim.Native.String.{String}
use text.Mathlib.TextEquality.{eq_iff}
use permission_center_go.Common.{◌≡◌, refl, true, Option, none, some, List, [], ◌∷◌, ok, arith, All}
use permission_center_go.Policy.Model.{Uuid}
use permission_center_go.Biz.Call.{Reads, lift, ◌>>=◌}
use permission_center_go.Biz.Call.Attempt.{Reads-bind, read_passed, checked_read}
use permission_center_go.Biz.Audit.{Context}
use permission_center_go.Biz.Permission.{Role}
use permission_center_go.Biz.Endpoint.{ApiEndpoint}
use permission_center_go.Biz.Policy.{AuthorizationPolicyService, ReadsOnly}
use permission_center_go.Biz.Policy.Draft.{check_role, check_endpoint, check_roles, check_endpoints}

module _ {S : Type 0} (uuid_string : Uuid → String) (service : AuthorizationPolicyService S)
    (ctx : Context) (s : S) where
  -- The role is stored and enabled, and of the scope.
  abbrev pub IsUsable : String → String → Type 0
  IsUsable scope id =
      (role : Role) × (service.roles.get ctx id s ≡ (ok (some role), s))
      × (role.service_resource ≡ scope)
      × (role.enabled ≡ true)

  -- The endpoint is stored, and of the scope.
  abbrev pub IsInScope : String → Uuid → Type 0
  IsInScope scope id =
      (endpoint : ApiEndpoint) × (service.endpoints.get ctx id s ≡ (ok (some endpoint), s))
      × (endpoint.service_resource ≡ scope)

  usable :
      (scope id : String) (found : Option Role)
      → service.roles.get ctx id s ≡ (ok found, s)
      → check_role scope found ≡ ok tt
      → IsUsable scope id
  usable scope id none e h = cc
  usable scope id (some role) e h =
      (role, e, ground (arith, eq_iff role.service_resource scope), ground arith)

  in_scope :
      (scope : String) (id : Uuid) (found : Option ApiEndpoint)
      → service.endpoints.get ctx id s ≡ (ok found, s)
      → check_endpoint scope found ≡ ok tt
      → IsInScope scope id
  in_scope scope id none e h = cc
  in_scope scope id (some endpoint) e h =
      (endpoint, e, ground (arith, eq_iff endpoint.service_resource scope))

  pub check_roles-Reads :
      (scope : String) (ids : List String)
      → ReadsOnly service
      → Reads (check_roles uuid_string service ctx scope ids)
  unfolding check_roles
  check_roles-Reads scope [] reads = λ u. refl
  check_roles-Reads scope (id ∷ ids) reads =
      Reads-bind (service.roles.get ctx id >>= λ role. lift (check_role scope role)) _
        (Reads-bind (service.roles.get ctx id) _ (reads.role_get ctx id) (λ found u. refl))
        (λ _. check_roles-Reads scope ids reads)

  pub check_endpoints-Reads :
      (scope : String) (ids : List Uuid)
      → ReadsOnly service
      → Reads (check_endpoints uuid_string service ctx scope ids)
  unfolding check_endpoints
  check_endpoints-Reads scope [] reads = λ u. refl
  check_endpoints-Reads scope (id ∷ ids) reads =
      Reads-bind (service.endpoints.get ctx id >>= λ endpoint. lift (check_endpoint scope endpoint))
        _
        (Reads-bind (service.endpoints.get ctx id) _ (reads.endpoint_get ctx id) (λ found u. refl))
        (λ _. check_endpoints-Reads scope ids reads)

  pub All-IsUsable :
      (scope : String) (ids : List String) {t : S}
      → ReadsOnly service
      → check_roles uuid_string service ctx scope ids s ≡ (ok tt, t)
      → All (IsUsable scope) ids
  unfolding check_roles
  All-IsUsable scope [] reads h = tt
  All-IsUsable scope (id ∷ ids) reads h =
      let (_, first, others) =
        read_passed (service.roles.get ctx id >>= λ role. lift (check_role scope role)) _ s
          (Reads-bind (service.roles.get ctx id) _ (reads.role_get ctx id) (λ found u. refl)) h in
      let (found, got, passed) =
        checked_read (service.roles.get ctx id) (check_role scope) s (reads.role_get ctx id)
          first in
      (usable scope id found got passed, All-IsUsable scope ids reads others)

  pub All-IsInScope :
      (scope : String) (ids : List Uuid) {t : S}
      → ReadsOnly service
      → check_endpoints uuid_string service ctx scope ids s ≡ (ok tt, t)
      → All (IsInScope scope) ids
  unfolding check_endpoints
  All-IsInScope scope [] reads h = tt
  All-IsInScope scope (id ∷ ids) reads h =
      let (_, first, others) =
        read_passed
          (service.endpoints.get ctx id >>= λ endpoint. lift (check_endpoint scope endpoint)) _ s
          (Reads-bind (service.endpoints.get ctx id) _ (reads.endpoint_get ctx id)
            (λ found u. refl))
          h in
      let (found, got, passed) =
        checked_read (service.endpoints.get ctx id) (check_endpoint scope) s
          (reads.endpoint_get ctx id) first in
      (in_scope scope id found got passed, All-IsInScope scope ids reads others)
