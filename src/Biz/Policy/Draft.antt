-- ===== src/Biz/Policy/Draft.antt =====
-- internal/biz/policy.go: Create, List, Get, Update, Delete and normalizeAndValidate. `uuid_string`
-- is uuid.UUID.String of google/uuid.
pub mod Members
pub mod Checked
pub mod Laws
use Prim.Native.String.{String}
use package.text.Mathlib.Text.{◌==◌ as str_eq}
use permission_center_go.Common.{
  Bool, true, false, not, ◌||◌, Option, none, some, List, [], ◌∷◌, ◌==◌, is_empty, pos,
  if◌then◌else◌, Result, ok, err, panic, invalid_argument, not_found, conflict,
}
use permission_center_go.Text.{trim_space}
use permission_center_go.Policy.Model.{
  Uuid, nil_uuid, Status, Snapshot, effect_valid, authorization_type_valid,
}
use permission_center_go.Policy.Compile.{compile_snapshot}
use permission_center_go.Biz.Call.{Call, pure, fail, lift, ◌>>=◌, ◌>>◌}
use permission_center_go.Biz.Audit.{Context, new_base_fields, audit_actor_from_context}
use permission_center_go.Biz.Resource.{validate_service_resource, ensure}
use permission_center_go.Biz.Permission.{Role, validate_code_and_name}
use permission_center_go.Biz.Endpoint.{ApiEndpoint}
use permission_center_go.Biz.Policy.{AuthorizationPolicy, AuthorizationPolicyService}

-- An error of the compiler becomes one that wraps ErrInvalidArgument.
abbrev pub as_invalid {ℓ} : {A : Type ℓ} → Result A → Result A
as_invalid (ok a) = ok a
as_invalid (err e) = err (invalid_argument "")
as_invalid panic = panic

abbrev pub is_published : Status → Bool
is_published Status.published = true
is_published _ = false

-- The snapshot that the validation compiles: without identifier, version and priority.
abbrev pub draft_snapshot : AuthorizationPolicy → Snapshot
draft_snapshot value = record {
  policy_id = nil_uuid;
  version = 0;
  authorization_type = value.authorization_type;
  service_resource = value.service_resource;
  effect = value.effect;
  priority = pos 0;
  role_ids = value.role_ids;
  endpoint_ids = value.endpoint_ids;
  condition = value.condition;
}

-- The checks of a role and of an endpoint that the repositories returned.
abbrev pub check_role : String → Option Role → Result (Unit {0})
check_role scope none = panic
check_role scope (some role) =
    if not (str_eq role.service_resource scope) || not role.enabled
    then err (conflict "role belongs to another service_resource or is disabled")
    else ok tt

abbrev pub check_endpoint : String → Option ApiEndpoint → Result (Unit {0})
check_endpoint scope none = panic
check_endpoint scope (some endpoint) =
    if not (str_eq endpoint.service_resource scope)
    then err (conflict "endpoint belongs to another service_resource")
    else ok tt

module _ {S : Type 0} (uuid_string : Uuid → String) (service : AuthorizationPolicyService S) where
  open service use {repository, endpoints, roles, service_resources}

  abbrev pub ensure_scope : Context → String → Call S (Unit {0})
  ensure_scope = ensure (err (not_found "")) service_resources

  unfoldable pub check_roles : Context → String → List String → Call S (Unit {0})
  check_roles ctx scope [] = pure tt
  check_roles ctx scope (id ∷ ids) =
      (roles.get ctx id >>= λ role. lift (check_role scope role)) >>= λ _. check_roles ctx scope ids

  unfoldable pub check_endpoints : Context → String → List Uuid → Call S (Unit {0})
  check_endpoints ctx scope [] = pure tt
  check_endpoints ctx scope (id ∷ ids) =
      (endpoints.get ctx id >>= λ endpoint. lift (check_endpoint scope endpoint)) >>= λ _.
      check_endpoints ctx scope ids

  -- The rest of normalizeAndValidate, from the check of the kinds.
  unfoldable pub check_content : Context → AuthorizationPolicy → Call S AuthorizationPolicy
  check_content ctx value =
      if not (effect_valid value.effect) || not (authorization_type_valid value.authorization_type)
      then fail (invalid_argument "effect and authorization_type are required")
      else if is_empty value.role_ids || is_empty value.endpoint_ids
      then fail (invalid_argument "at least one role and API endpoint are required")
      else do
        check_roles ctx value.service_resource value.role_ids
        check_endpoints ctx value.service_resource value.endpoint_ids
        snapshot ← lift (as_invalid (compile_snapshot uuid_string (draft_snapshot value)))
        pure (record value { role_ids = snapshot.role_ids; endpoint_ids = snapshot.endpoint_ids })

  -- normalizeAndValidate: the policy as it stands after the validation has changed it.
  unfoldable pub normalize_and_validate : Context → AuthorizationPolicy → Call S AuthorizationPolicy
  normalize_and_validate ctx value = do
    scope ← lift (validate_service_resource value.service_resource)
    ensure_scope ctx scope
    names ← lift (validate_code_and_name value.code value.name)
    check_content ctx (record value {
      service_resource = scope;
      code = names.0;
      name = names.1;
      description = trim_space value.description;
    })

  unfoldable pub create : Context → Option AuthorizationPolicy → Call S (Option AuthorizationPolicy)
  create ctx none = fail (invalid_argument "policy is required")
  create ctx (some value) = do
    valid ← normalize_and_validate ctx value
    repository.create ctx (record valid {
      status = Status.draft;
      current_version = 0;
      base = new_base_fields (audit_actor_from_context ctx);
    })

  pub list : Context → String → Call S (List (Option AuthorizationPolicy))
  list ctx service_resource = do
    scope ← lift (validate_service_resource service_resource)
    repository.list_by_service_resource ctx scope

  unfoldable pub get : Context → Uuid → Call S (Option AuthorizationPolicy)
  get ctx id =
      if id == nil_uuid
      then fail (invalid_argument "policy id is required")
      else repository.get ctx id

  -- Update from the policy that the repository returned.
  unfoldable pub update_existing :
      Context
      → AuthorizationPolicy
      → Option AuthorizationPolicy
      → Call S (Option AuthorizationPolicy)
  update_existing ctx value none = lift panic
  update_existing ctx value (some existing) =
      if is_published existing.status
      then fail (conflict "published policy must be changed through a new draft")
      else do
        valid ← normalize_and_validate ctx (record value {
          service_resource = existing.service_resource;
          status = existing.status;
        })
        let actor = audit_actor_from_context ctx
        repository.update ctx (record valid {
          current_version = existing.current_version;
          base = record (existing.base) { updated_by_id = actor.id; updated_by_name = actor.name };
        })

  unfoldable pub update : Context → Option AuthorizationPolicy → Call S (Option AuthorizationPolicy)
  update ctx none = fail (invalid_argument "policy id is required")
  update ctx (some value) =
      if value.id == nil_uuid
      then fail (invalid_argument "policy id is required")
      else do existing ← repository.get ctx value.id; update_existing ctx value existing

  pub delete : Context → Uuid → Call S (Unit {0})
  delete ctx id = repository.soft_delete ctx id
