-- ===== src/Biz/Permission/Roles.antt =====
-- internal/biz/permission.go: CreateRole, ListRoles, UpdateRole, DeleteRole, RoleMenus,
-- ReplaceUserRoles and UserRoleIDs.
pub mod Laws
use Prim.Native.String.{String}
use package.text.Mathlib.Text.{◌==◌ as str_eq}
use permission_center_go.Common.{◌>>=◌ as then_result}
use permission_center_go.Common.{
  ℕ, Bool, true, false, not, ◌||◌, Option, none, some, List, [], ◌∷◌, if◌then◌else◌, Result, ok,
  err, panic, invalid_argument, not_found, failure,
}
use permission_center_go.Text.{trim_space}
use permission_center_go.Policy.Model.{Uuid}
use permission_center_go.Biz.Call.{Call, pure, fail, lift, ◌>>=◌, ◌>>◌}
use permission_center_go.Biz.Audit.{Context, new_base_fields, audit_actor_from_context}
use permission_center_go.Biz.Resource.{validate_service_resource, ensure}
use permission_center_go.Biz.Permission.{
  Role, RoleRepository, UserRoleRepository, PermissionService, validate_code_and_name, validate_id,
}

module _ {S : Type 0} (service : PermissionService S) where
  open service use {roles, user_roles, service_resources}

  -- ensureServiceResource of the PermissionService: a nil entry of the catalog is dereferenced.
  abbrev pub ensure_service_resource : Context → String → Call S (Unit {0})
  ensure_service_resource = ensure panic service_resources

  pub create_role : Context → String → String → String → String → Call S (Option Role)
  create_role ctx service_resource code name description = do
    scope ← lift (validate_service_resource service_resource)
    ensure_service_resource ctx scope
    valid ← lift (validate_code_and_name code name)
    roles.create ctx (record {
      base = new_base_fields (audit_actor_from_context ctx);
      id = "";
      service_resource = scope;
      code = valid.0;
      name = valid.1;
      description = trim_space description;
      enabled = true;
    })

  pub list_roles : Context → String → Call S (List (Option Role))
  list_roles ctx service_resource = do
    scope ← lift (validate_service_resource service_resource)
    roles.list_by_service_resource ctx scope

  -- UpdateRole from the role that the repository returned.
  pub update_existing :
      Context → String → String → String → String → Bool → Option Role → Call S (Option Role)
  update_existing ctx id code name description enabled none = fail (not_found "")
  update_existing ctx id code name description enabled (some existing) = do
    ensure_service_resource ctx existing.service_resource
    valid ← lift (validate_code_and_name code name)
    let actor = audit_actor_from_context ctx
    roles.update ctx (record existing {
      base = record (existing.base) { updated_by_id = actor.id; updated_by_name = actor.name };
      id = id;
      code = valid.0;
      name = valid.1;
      description = trim_space description;
      enabled = enabled;
    })

  pub update_role : Context → String → String → String → String → Bool → Call S (Option Role)
  update_role ctx role_id code name description enabled = do
    id ← lift (validate_id role_id "role_id")
    existing ← roles.get ctx id
    update_existing ctx id code name description enabled existing

  pub delete_role : Context → String → Call S (Unit {0})
  delete_role ctx role_id = do id ← lift (validate_id role_id "role_id"); roles.soft_delete ctx id

  pub role_menus : Context → String → Call S (List Uuid)
  role_menus ctx role_id = do
    id ← lift (validate_id role_id "role_id")
    roles.get ctx id
    roles.menu_ids ctx id

abbrev pub is_seen : List String → String → Bool
is_seen [] id = false
is_seen (x ∷ seen) id = str_eq x id || is_seen seen id

-- One round of the loop of ReplaceUserRoles, before its continuation.
pub new_id : List String → String → Result String
new_id seen role_id =
    then_result (validate_id role_id "role_id")
      λ id. if is_seen seen id then err (invalid_argument "duplicate role_id") else ok id

-- The loop of ReplaceUserRoles: each identifier trimmed, and none twice.
pub distinct_ids : List String → List String → Result (List String)
distinct_ids seen [] = ok []
distinct_ids seen (role_id ∷ rest) =
    then_result (new_id seen role_id)
      λ id. then_result (distinct_ids (id ∷ seen) rest) λ ids. ok (id ∷ ids)

module _ {S : Type 0} (service : PermissionService S) where
  open service use {user_roles}

  replace_in : UserRoleRepository S → Context → String → String → List String → Call S (Unit {0})
  replace_in repository ctx user_id service_resource role_ids = do
    subject ← lift (validate_id user_id "user_id")
    scope ← lift (validate_service_resource service_resource)
    ids ← lift (distinct_ids [] role_ids)
    repository.replace_roles ctx subject scope ids

  pub replace_user_roles : Context → String → String → List String → Call S (Unit {0})
  unfolding replace_in
  replace_user_roles ctx user_id service_resource role_ids = elim user_roles [
    | none ↦ fail (failure "user role repository is not configured")
    | some repository ↦ replace_in repository ctx user_id service_resource role_ids
  ]

  read_from : UserRoleRepository S → Context → String → String → Call S (List String)
  read_from repository ctx user_id service_resource = do
    subject ← lift (validate_id user_id "user_id")
    scope ← lift (validate_service_resource service_resource)
    repository.role_ids ctx subject scope

  pub user_role_ids : Context → String → String → Call S (List String)
  unfolding read_from
  user_role_ids ctx user_id service_resource = elim user_roles [
    | none ↦ fail (failure "user role repository is not configured")
    | some repository ↦ read_from repository ctx user_id service_resource
  ]
