-- ===== src/Biz/Permission/Menus.antt =====
-- internal/biz/permission.go: CreateMenu, UpdateMenu and DeleteMenu.
pub mod Valid
pub mod Parent
pub mod Laws
pub mod Delete
use Prim.Native.Char.{Char}
use package.text.Mathlib.Text.{◌==◌ as str_eq}
use permission_center_go.Common.{
  Bool, true, false, not, ◌||◌, ◌&&◌, Option, none, some, List, [], ◌∷◌, ◌==◌, if◌then◌else◌, panic,
  Result, ok, err, invalid_argument, not_found, conflict,
}
use permission_center_go.Text.{String, trim_space}
use permission_center_go.Policy.Model.{Uuid, nil_uuid}
use permission_center_go.Biz.Call.{Call, pure, fail, lift, ◌>>=◌, ◌>>◌}
use permission_center_go.Biz.Audit.{Context, new_base_fields, audit_actor_from_context}
use permission_center_go.Biz.Resource.{validate_service_resource, ensure}
use permission_center_go.Biz.Permission.{
  Menu, PermissionService, validate_code_and_name, validate_menu, is_menu,
}

-- What a parent must be for an entry of the service resource.
pub parent_allowed : String → Menu → Bool
parent_allowed scope parent =
    str_eq parent.service_resource scope && is_menu parent.type && parent.enabled

-- The parent that the repository returned: a nil menu is dereferenced.
pub check_found : String → Option Menu → Result (Unit {0})
check_found scope none = panic
check_found scope (some parent) =
    if not (parent_allowed scope parent)
    then err (conflict "parent must be an enabled menu in the same service resource")
    else ok tt

-- `*child.ParentID == id`
abbrev pub is_parent : Uuid → Option Uuid → Bool
is_parent id none = false
is_parent id (some parent_id) = parent_id == id

-- A listed entry that keeps the menu from being deleted.
pub blocks_deletion : Uuid → Option Menu → Bool
blocks_deletion id none = false
blocks_deletion id (some child) =
    not child.base.is_deleted && not (child.id == id) && is_parent id child.parent_id

-- The loop of DeleteMenu.
pub has_children : Uuid → List (Option Menu) → Bool
has_children id [] = false
has_children id (child ∷ rest) = blocks_deletion id child || has_children id rest

module _ {S : Type 0} (table : Char → Char) (service : PermissionService S) where
  open service use {menus, service_resources}

  abbrev pub ensure_service_resource : Context → String → Call S (Unit {0})
  ensure_service_resource = ensure panic service_resources

  -- The check of `if menu.ParentID != nil`.
  pub check_parent : Context → String → Option Uuid → Call S (Unit {0})
  check_parent ctx scope none = pure tt
  check_parent ctx scope (some parent_id) = do
    found ← menus.get ctx parent_id
    lift (check_found scope found)

  pub create_given : Context → Menu → Call S (Option Menu)
  create_given ctx menu = do
    scope ← lift (validate_service_resource menu.service_resource)
    ensure_service_resource ctx scope
    names ← lift (validate_code_and_name menu.code menu.name)
    valid ← lift (
        validate_menu table
          (record menu { service_resource = scope; code = names.0; name = names.1 }))
    check_parent ctx scope valid.parent_id
    menus.create ctx
        (record valid { enabled = true; base = new_base_fields (audit_actor_from_context ctx) })

  pub create_menu : Context → Option Menu → Call S (Option Menu)
  create_menu ctx none = fail (invalid_argument "menu is required")
  create_menu ctx (some menu) = create_given ctx menu

  -- UpdateMenu from the menu that the repository returned.
  pub update_existing : Context → Menu → Option Menu → Call S (Option Menu)
  update_existing ctx menu none = fail (not_found "")
  update_existing ctx menu (some existing) = do
    ensure_service_resource ctx existing.service_resource
    names ← lift (validate_code_and_name menu.code menu.name)
    valid ← lift (
        validate_menu table (record menu {
          id = existing.id;
          service_resource = existing.service_resource;
          parent_id = existing.parent_id;
          type = existing.type;
          code = names.0;
          name = names.1;
          description = trim_space menu.description;
          base = existing.base;
        }))
    let actor = audit_actor_from_context ctx
    menus.update ctx (record valid {
      base = record (valid.base) { updated_by_id = actor.id; updated_by_name = actor.name };
    })

  pub update_menu : Context → Option Menu → Call S (Option Menu)
  update_menu ctx none = fail (invalid_argument "menu id is required")
  update_menu ctx (some menu) =
      if menu.id == nil_uuid
      then fail (invalid_argument "menu id is required")
      else do existing ← menus.get ctx menu.id; update_existing ctx menu existing

  pub delete_existing : Context → Uuid → Option Menu → Call S (Unit {0})
  delete_existing ctx id none = fail (not_found "")
  delete_existing ctx id (some existing) = do
    entries ← menus.list_by_service_resource ctx existing.service_resource
    if has_children id entries
        then fail (conflict "menu has undeleted child nodes")
        else menus.soft_delete ctx id

  pub delete_menu : Context → Uuid → Call S (Unit {0})
  delete_menu ctx id =
      if id == nil_uuid
      then fail (invalid_argument "menu id is required")
      else do existing ← menus.get ctx id; delete_existing ctx id existing
