-- ===== src/Biz/Permission/Menus/Laws.antt =====
-- What reaches the menu repository from the operations on menus.
use Prim.Native.Char.{Char}
use Prim.Native.String.{String}
use permission_center_go.Common.{
  ◌≡◌, ◌≢◌, refl, ◌∙◌, true, Option, none, some, ok, panic, arith, ap, subst, sym, ◌==◌,
}
use permission_center_go.Text.{trim_space, to_upper}
use permission_center_go.Text.Trim.{trim_space_idempotent}
use permission_center_go.Policy.Model.{nil_uuid}
use permission_center_go.Biz.Call.Attempt.{
  Attempt, Attempt-lift, Attempt-read, Attempt-write, Attempt-fail, Attempt-if,
}
use permission_center_go.Biz.Audit.{Context, new_base_fields, audit_actor_from_context}
use permission_center_go.Biz.Resource.{validate_service_resource}
use permission_center_go.Biz.Resource.Active.{IsActiveIn, ensure-Reads, ensure-IsActiveIn}
use permission_center_go.Biz.Permission.{
  Menu, PermissionService, ReadsOnly, validate_code_and_name, validate_menu,
}
use permission_center_go.Biz.Permission.Normal.{
  IsScope, IsCode, IsName, validate_service_resource-IsScope, validate_code_and_name-IsNormal,
}
use permission_center_go.Biz.Permission.Menus.Valid.{
  HasMetadata, method_of, validate_menu-IsValidMenu,
}
use permission_center_go.Biz.Permission.Menus.{
  create_given, create_menu, update_existing, update_menu, ensure_service_resource, check_parent,
}
use permission_center_go.Biz.Permission.Menus.Parent.{
  HasParent, check_parent-Reads, check_parent-HasParent,
}

twice_trimmed :
    (given : String) {stored text : String}
    → stored ≡ trim_space text
    → text ≡ trim_space given
    → stored ≡ trim_space given
twice_trimmed given e f = e ∙ ap trim_space f ∙ trim_space_idempotent given

module _ {S : Type 0} (table : Char → Char) (service : PermissionService S) (ctx : Context)
    (s : S) where
  -- The menu that a request to create one may store.
  pub record IsNewMenu (given m : Menu) : Type 0 where
    pub base : m.base ≡ new_base_fields (audit_actor_from_context ctx)
    pub enabled : m.enabled ≡ true
    pub id : m.id ≡ given.id
    pub scope_given : m.service_resource ≡ trim_space given.service_resource
    pub scope_normal : IsScope m.service_resource
    pub code_given : m.code ≡ trim_space given.code
    pub code_normal : IsCode m.code
    pub name_given : m.name ≡ trim_space given.name
    pub name_normal : IsName m.name
    pub description_given : m.description ≡ given.description
    pub type_given : m.type ≡ given.type
    pub path_given : m.path ≡ given.path
    pub component_given : m.component ≡ given.component
    pub icon_given : m.icon ≡ given.icon
    pub sort_given : m.sort ≡ given.sort
    pub api_path_given : m.api_path ≡ trim_space given.api_path
    pub http_method_given :
        m.http_method ≡ method_of given.type (to_upper table (trim_space given.http_method))
    pub metadata : HasMetadata m.type m.api_path m.http_method m.parent_id
    pub parent_given : m.parent_id ≡ given.parent_id
    pub parent : HasParent table service ctx s m.service_resource m.parent_id
    pub active : IsActiveIn service.service_resources ctx m.service_resource s

  -- Where the reads only read: CreateMenu either calls the repository's Create once, with an enabled
  -- entry that has the scope, code, name and API path of the request, trimmed, its method in capitals,
  -- GET for a button without one, its other parts as given, and the audit fields of the actor; its
  -- scope, code and name are within their limits, its scope is active, its API metadata are those of
  -- its type, and it has no parent or an enabled menu of the same scope for its parent; and returns what that call returns; or it fails or panics and the store is
  -- as it was.
  pub create_menu-Attempt :
      (given : Menu)
      → ReadsOnly service
      → Attempt
          (IsNewMenu given)
          (service.menus.create ctx)
          (create_menu table service ctx (some given))
          s
  unfolding create_menu create_given
  create_menu-Attempt given reads =
      Attempt-lift (validate_service_resource given.service_resource) _ s λ scope scoped.
        let (scope_given, scope_normal) =
          validate_service_resource-IsScope given.service_resource scoped in
        Attempt-read (ensure_service_resource table service ctx scope) _ s
          (ensure-Reads panic service.service_resources ctx scope reads.catalog_get)
          λ _ passed. Attempt-lift (validate_code_and_name given.code given.name) _ s λ names named.
            let menu : Menu = record given {
              service_resource = scope;
              code = names.0;
              name = names.1;
            } in
            let n = validate_code_and_name-IsNormal given.code given.name named in
            Attempt-lift (validate_menu table menu) _ s λ m valid.
              let v = validate_menu-IsValidMenu table menu valid in
              Attempt-read (check_parent table service ctx scope m.parent_id) _ s
                (check_parent-Reads table service ctx s scope m.parent_id reads)
                λ _ parented. Attempt-write _ s (record {
                  base = refl;
                  enabled = refl;
                  id = v.same.id;
                  scope_given = v.same.service_resource ∙ scope_given;
                  scope_normal = subst IsScope (sym v.same.service_resource) scope_normal;
                  code_given = twice_trimmed given.code v.same.code n.0;
                  name_given = twice_trimmed given.name v.same.name n.1;
                  description_given = v.same.description;
                  type_given = v.same.type;
                  path_given = v.same.path;
                  component_given = v.same.component;
                  icon_given = v.same.icon;
                  sort_given = v.same.sort;
                  api_path_given = v.same.api_path;
                  http_method_given = v.same.http_method;
                  code_normal = v.code_normal;
                  name_normal = v.name_normal;
                  metadata = v.metadata;
                  parent_given = v.same.parent_id;
                  parent =
                      subst (λ x. HasParent table service ctx s x m.parent_id)
                        (sym v.same.service_resource)
                        (check_parent-HasParent table service ctx s scope m.parent_id reads
                          parented);
                  active =
                      subst (λ x. IsActiveIn service.service_resources ctx x s)
                        (sym v.same.service_resource)
                        (ensure-IsActiveIn panic service.service_resources ctx scope s (λ e. cc)
                          passed);
                })

  -- The stored menu, revised: its identity, place, scope, type and creator stay.
  pub record IsRevisedMenu (given existing m : Menu) : Type 0 where
    pub id_kept : m.id ≡ existing.id
    pub scope_kept : m.service_resource ≡ existing.service_resource
    pub parent_kept : m.parent_id ≡ existing.parent_id
    pub type_kept : m.type ≡ existing.type
    pub created_by_kept : m.base.created_by_id ≡ existing.base.created_by_id
    pub created_name_kept : m.base.created_by_name ≡ existing.base.created_by_name
    pub created_at_kept : m.base.created_at ≡ existing.base.created_at
    pub updated_by : m.base.updated_by_id ≡ (audit_actor_from_context ctx).id
    pub updated_name : m.base.updated_by_name ≡ (audit_actor_from_context ctx).name
    pub code_given : m.code ≡ trim_space given.code
    pub name_given : m.name ≡ trim_space given.name
    pub description_given : m.description ≡ trim_space given.description
    pub is_deleted_kept : m.base.is_deleted ≡ existing.base.is_deleted
    pub code_normal : IsCode m.code
    pub name_normal : IsName m.name
    pub metadata : HasMetadata m.type m.api_path m.http_method m.parent_id

  pub record IsMenuUpdate (given m : Menu) : Type 0 where
    pub existing : Menu
    pub found : service.menus.get ctx given.id s ≡ (ok (some existing), s)
    pub id_present : given.id ≢ nil_uuid
    pub revised : IsRevisedMenu given existing m
    pub active : IsActiveIn service.service_resources ctx existing.service_resource s

  revision-Attempt :
      (given : Menu) (found : Option Menu)
      → ReadsOnly service
      → given.id ≢ nil_uuid
      → service.menus.get ctx given.id s ≡ (ok found, s)
      → Attempt
          (IsMenuUpdate given)
          (service.menus.update ctx)
          (update_existing table service ctx given found)
          s
  unfolding update_existing
  revision-Attempt given none reads present got = Attempt-fail _ s
  revision-Attempt given (some existing) reads present got =
      Attempt-read (ensure_service_resource table service ctx existing.service_resource) _ s
        (ensure-Reads panic service.service_resources ctx existing.service_resource
          reads.catalog_get)
        λ _ passed. Attempt-lift (validate_code_and_name given.code given.name) _ s λ names named.
          let menu : Menu = record given {
            id = existing.id;
            service_resource = existing.service_resource;
            parent_id = existing.parent_id;
            type = existing.type;
            code = names.0;
            name = names.1;
            description = trim_space given.description;
            base = existing.base;
          } in
          Attempt-lift (validate_menu table menu) _ s λ m valid.
            let v = validate_menu-IsValidMenu table menu valid in
            Attempt-write _ s (record {
              existing = existing;
              found = got;
              id_present = present;
              revised = record {
                id_kept = v.same.id;
                scope_kept = v.same.service_resource;
                parent_kept = v.same.parent_id;
                type_kept = v.same.type;
                created_by_kept = ap (λ b. b.created_by_id) v.same.base;
                created_name_kept = ap (λ b. b.created_by_name) v.same.base;
                created_at_kept = ap (λ b. b.created_at) v.same.base;
                updated_by = refl;
                updated_name = refl;
                code_given =
                    twice_trimmed given.code v.same.code
                      (validate_code_and_name-IsNormal given.code given.name named).0;
                name_given =
                    twice_trimmed given.name v.same.name
                      (validate_code_and_name-IsNormal given.code given.name named).1;
                description_given = v.same.description;
                is_deleted_kept = ap (λ b. b.is_deleted) v.same.base;
                code_normal = v.code_normal;
                name_normal = v.name_normal;
                metadata = v.metadata;
              };
              active =
                  ensure-IsActiveIn panic service.service_resources ctx existing.service_resource s
                    (λ e. cc) passed;
            })

  -- Where the reads only read: UpdateMenu either calls the repository's Update once, with the stored
  -- entry under the identifier, whose identifier, scope, parent, type and creation are kept, whose
  -- last actor is the context's, whose code and name are within their limits and whose API metadata
  -- are those of its type, its scope being active, and returns what that call returns; or it fails or
  -- panics and the store is as it was.
  pub update_menu-Attempt :
      (given : Menu)
      → ReadsOnly service
      → Attempt
          (IsMenuUpdate given)
          (service.menus.update ctx)
          (update_menu table service ctx (some given))
          s
  unfolding update_menu
  update_menu-Attempt given reads =
      Attempt-if (given.id == nil_uuid) _ _ s (λ _. Attempt-fail _ s)
        λ present.
          Attempt-read (service.menus.get ctx given.id) _ s (reads.menu_get ctx given.id)
            λ found got. revision-Attempt given found reads (ground arith) got
