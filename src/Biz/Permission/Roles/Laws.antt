-- ===== src/Biz/Permission/Roles/Laws.antt =====
-- What reaches the repositories from the operations on roles.
use Prim.Native.String.{String}
use permission_center_go.Common.{◌≡◌, refl, Bool, true, Option, none, some, ok, panic}
use permission_center_go.Text.{trim_space}
use permission_center_go.Biz.Call.Attempt.{
  Attempt, Attempt-lift, Attempt-read, Attempt-write, Attempt-fail,
}
use permission_center_go.Biz.Audit.{Context, new_base_fields, audit_actor_from_context}
use permission_center_go.Biz.Resource.{validate_service_resource}
use permission_center_go.Biz.Resource.Active.{
  IsActiveIn, ensure-Reads, ensure-IsActiveIn, ensure_active,
}
use permission_center_go.Biz.Permission.{
  Role, PermissionService, ReadsOnly, validate_code_and_name, validate_id,
}
use permission_center_go.Biz.Permission.Normal.{
  IsScope, IsCode, IsName, IsIdentifier, validate_service_resource-IsScope,
  validate_id-IsIdentifier, validate_code_and_name-IsNormal, validate_service_resource_of,
  validate_code_and_name_of,
}
use permission_center_go.Biz.Permission.Roles.{
  create_role, update_existing, update_role, ensure_service_resource,
}

module _ {S : Type 0} (service : PermissionService S) (ctx : Context) (s : S) where
  -- The role that a request to create one may store.
  pub record IsNewRole (scope code name description : String) (role : Role) : Type 0 where
    pub base : role.base ≡ new_base_fields (audit_actor_from_context ctx)
    pub enabled : role.enabled ≡ true
    pub scope_given : role.service_resource ≡ trim_space scope
    pub code_given : role.code ≡ trim_space code
    pub name_given : role.name ≡ trim_space name
    pub description_given : role.description ≡ trim_space description
    pub scope_normal : IsScope role.service_resource
    pub code_normal : IsCode role.code
    pub name_normal : IsName role.name
    pub active : IsActiveIn service.service_resources ctx role.service_resource s

  -- The role that an update of `existing` may store: its scope, its base but for the last actor, and
  -- the identifier asked for.
  pub record IsRevisedRole (existing : Role) (id code name description : String) (enabled : Bool)
      (role : Role) : Type 0 where
    pub scope_kept : role.service_resource ≡ existing.service_resource
    pub base_kept : role.base ≡ record (existing.base) {
      updated_by_id = (audit_actor_from_context ctx).id;
      updated_by_name = (audit_actor_from_context ctx).name;
    }
    pub id_given : role.id ≡ id
    pub code_given : role.code ≡ trim_space code
    pub name_given : role.name ≡ trim_space name
    pub description_given : role.description ≡ trim_space description
    pub enabled_given : role.enabled ≡ enabled
    pub code_normal : IsCode role.code
    pub name_normal : IsName role.name
    pub active : IsActiveIn service.service_resources ctx existing.service_resource s

  -- Where the catalog only reads: CreateRole either calls the repository's Create once with an
  -- enabled role of the trimmed inputs, whose scope, code and name are within their limits, whose
  -- scope is active, and whose audit fields are those of the actor, and returns what that call
  -- returns; or it fails or panics and the store is as it was.
  pub create_role-Attempt :
      (scope code name description : String)
      → ReadsOnly service
      → Attempt
          (IsNewRole scope code name description)
          (service.roles.create ctx)
          (create_role service ctx scope code name description)
          s
  unfolding create_role
  create_role-Attempt scope code name description reads =
      Attempt-lift (validate_service_resource scope) _ s λ scope' scoped.
        let (scope_given, scope_normal) = validate_service_resource-IsScope scope scoped in
        Attempt-read (ensure_service_resource service ctx scope') _ s
          (ensure-Reads panic service.service_resources ctx scope' reads.catalog_get)
          λ _ passed. Attempt-lift (validate_code_and_name code name) _ s λ pair valid.
            let (code_given, name_given, code_normal, name_normal) =
              validate_code_and_name-IsNormal code name valid in
            Attempt-write _ s (record {
              base = refl;
              enabled = refl;
              scope_given = scope_given;
              code_given = code_given;
              name_given = name_given;
              description_given = refl;
              scope_normal = scope_normal;
              code_normal = code_normal;
              name_normal = name_normal;
              active =
                  ensure-IsActiveIn panic service.service_resources ctx scope' s (λ e. cc) passed;
            })

  -- The write of an update: the stored role under the trimmed identifier, revised.
  pub record IsRoleUpdate (role_id code name description : String) (enabled : Bool) (role : Role)
      : Type 0 where
    pub existing : Role
    pub found : service.roles.get ctx (trim_space role_id) s ≡ (ok (some existing), s)
    pub identifier : IsIdentifier (trim_space role_id)
    pub revised : IsRevisedRole existing (trim_space role_id) code name description enabled role

  revision-Attempt :
      (role_id id code name description : String) (enabled : Bool) (found : Option Role)
      → ReadsOnly service
      → id ≡ trim_space role_id
      → IsIdentifier id
      → service.roles.get ctx id s ≡ (ok found, s)
      → Attempt
          (IsRoleUpdate role_id code name description enabled)
          (service.roles.update ctx)
          (update_existing service ctx id code name description enabled found)
          s
  unfolding update_existing
  revision-Attempt role_id id code name description enabled none reads same normal got =
      Attempt-fail _ s
  revision-Attempt role_id id code name description enabled (some existing) reads same normal got =
      Attempt-read (ensure_service_resource service ctx existing.service_resource) _ s
        (ensure-Reads panic service.service_resources ctx existing.service_resource
          reads.catalog_get)
        λ _ passed. Attempt-lift (validate_code_and_name code name) _ s λ pair valid.
          let (code_given, name_given, code_normal, name_normal) =
            validate_code_and_name-IsNormal code name valid in
          Attempt-write _ s (record {
            existing = existing;
            found = rw same at got;
            identifier = rw same at normal;
            revised = record {
              scope_kept = refl;
              base_kept = refl;
              id_given = same;
              code_given = code_given;
              name_given = name_given;
              description_given = refl;
              enabled_given = refl;
              code_normal = code_normal;
              name_normal = name_normal;
              active =
                  ensure-IsActiveIn panic service.service_resources ctx existing.service_resource s
                    (λ e. cc) passed;
            };
          })

  -- Where the reads only read: UpdateRole either calls the repository's Update once, with the stored
  -- role under the trimmed identifier, changed in its code, name, description, state and last actor
  -- alone, its code and name being within their limits and its scope active, and returns what that call returns; or it fails or panics and the store is as it was.
  pub update_role-Attempt :
      (role_id code name description : String) (enabled : Bool)
      → ReadsOnly service
      → Attempt
          (IsRoleUpdate role_id code name description enabled)
          (service.roles.update ctx)
          (update_role service ctx role_id code name description enabled)
          s
  unfolding update_role
  update_role-Attempt role_id code name description enabled reads =
      Attempt-lift (validate_id role_id "role_id") _ s λ id valid.
        let (same, normal) = validate_id-IsIdentifier role_id "role_id" valid in
        Attempt-read (service.roles.get ctx id) _ s (reads.role_get ctx id) λ found got.
          revision-Attempt role_id id code name description enabled found reads same normal got

  -- Where the trimmed scope, code and name are within their limits and the scope is active:
  -- CreateRole returns what the repository's Create does with the enabled role of the trimmed inputs,
  -- without an identifier and with the audit fields of the actor.
  pub create_role_stores :
      (scope code name description : String)
      → IsScope (trim_space scope)
      → IsCode (trim_space code)
      → IsName (trim_space name)
      → IsActiveIn service.service_resources ctx (trim_space scope) s
      → create_role service ctx scope code name description s
        ≡ service.roles.create ctx
            (record {
              base = new_base_fields (audit_actor_from_context ctx);
              id = "";
              service_resource = trim_space scope;
              code = trim_space code;
              name = trim_space name;
              description = trim_space description;
              enabled = true;
            })
            s
  unfolding create_role
  create_role_stores scope code name description scoped coded named active = rw (
    validate_service_resource_of scope refl scoped,
    ensure_active panic service.service_resources ctx (trim_space scope) s active,
    validate_code_and_name_of code name refl refl coded named,
  )
