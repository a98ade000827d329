-- ===== src/Biz/Permission/Tests.antt =====
-- The operations on roles and menus over a small store: the roles, the menus and the menus granted
-- to each role are lists, and every service resource but "closed" is active.
use Prim.Native.Char.{Char}
use Prim.Native.String.{String}
use package.text.Mathlib.Text.{◌==◌ as str_eq}
use permission_center_go.Common.{
  ◌≡◌, refl, pos, true, false, not, Option, none, some, List, [], ◌∷◌, map, ok, ◌==◌, arith,
  if◌then◌else◌, keep,
}
use permission_center_go.Policy.Model.{Uuid}
use permission_center_go.Biz.Call.Attempt.{Attempt}
use permission_center_go.Text.{trim_space}
use permission_center_go.Biz.Audit.{BaseFields, Context, new_base_fields, audit_actor_from_context}
use permission_center_go.Biz.Resource.Active.{IsActiveIn}
use permission_center_go.Biz.Permission.Normal.{IsScope, IsCode, IsName}
use permission_center_go.Biz.Resource.{ServiceResource, ServiceResourceCatalog}
use permission_center_go.Biz.Permission.{
  Role, Menu, MenuType, RoleRepository, MenuRepository, PermissionService, ReadsOnly,
}
use permission_center_go.Biz.Permission.Roles.{create_role, update_role}
use permission_center_go.Biz.Permission.Roles.Laws.{
  IsNewRole, IsRoleUpdate, create_role-Attempt, create_role_stores, update_role-Attempt,
}
use permission_center_go.Biz.Permission.Menus.{create_menu, update_menu, delete_menu}
use permission_center_go.Biz.Permission.Menus.Laws.{
  IsNewMenu, IsMenuUpdate, create_menu-Attempt, update_menu-Attempt,
}
use permission_center_go.Biz.Permission.Menus.Delete.{
  IsDeletable, delete_menu-Attempt, delete_menu-IsDeletable,
}
use permission_center_go.Biz.Permission.Grants.{grant_role_menus}
use permission_center_go.Biz.Permission.Grants.Laws.{
  IsGrant, replace_granted, grant_role_menus-Attempt, grant_role_menus-IsGrant,
}

record Store : Type 0 where
  roles : List Role
  menus : List Menu
  grants : List (String × List Uuid)

abbrev find_role : List Role → String → Option Role
find_role [] id = none
find_role (role ∷ roles) id = if str_eq role.id id then some role else find_role roles id

abbrev find_menu : List Menu → Uuid → Option Menu
find_menu [] id = none
find_menu (menu ∷ menus) id = if menu.id == id then some menu else find_menu menus id

abbrev role_repository : RoleRepository Store
role_repository = record {
  create = λ ctx role s. (ok (some role), record s { roles = role ∷ s.roles });
  get = λ ctx id s. (ok (find_role s.roles id), s);
  list_by_service_resource = λ ctx scope s. (ok (map (λ role. some role) s.roles), s);
  update = λ ctx role s. (ok (some role), record s { roles = role ∷ s.roles });
  soft_delete =
      λ ctx id s. (ok tt, record s { roles = keep (λ role. not (str_eq role.id id)) s.roles });
  replace_menus = λ ctx id ids s. (ok tt, record s { grants = (id, ids) ∷ s.grants });
  menu_ids = λ ctx id s. (ok [], s);
}

abbrev menu_repository : MenuRepository Store
menu_repository = record {
  create = λ ctx menu s. (ok (some menu), record s { menus = menu ∷ s.menus });
  get = λ ctx id s. (ok (find_menu s.menus id), s);
  list_by_service_resource = λ ctx scope s.
      (ok (map (λ menu. some menu) (keep (λ menu. str_eq menu.service_resource scope) s.menus)), s);
  update = λ ctx menu s. (ok (some menu), record s { menus = menu ∷ s.menus });
  soft_delete =
      λ ctx id s. (ok tt, record s { menus = keep (λ menu. not (menu.id == id)) s.menus });
}

abbrev resource : String → ServiceResource
resource key = record {
  id = key;
  key = key;
  name = key;
  display_name = key;
  audience = key;
  description = "";
  is_active = not (str_eq key "closed");
  source = "manual";
  created_at = 0;
}

abbrev catalog : ServiceResourceCatalog Store
catalog = record { list = λ ctx s. (ok [], s); get = λ ctx key s. (ok (some (resource key)), s) }

abbrev service : PermissionService Store
service = record {
  roles = role_repository;
  menus = menu_repository;
  user_roles = none;
  service_resources = some catalog;
}

service-ReadsOnly : ReadsOnly service
service-ReadsOnly = record {
  role_get = λ ctx id s. refl;
  menu_get = λ ctx id s. refl;
  menu_list = λ ctx key s. refl;
  catalog_get = λ ctx key s. refl;
}

abbrev base : BaseFields
base = record {
  created_by_id = "u-1";
  created_by_name = "Ann";
  created_at = 5;
  updated_by_id = "u-1";
  updated_by_name = "Ann";
  updated_at = 5;
  is_deleted = false;
}

abbrev reader : Role
reader = record {
  base = base;
  id = "role-1";
  service_resource = "orders";
  code = "reader";
  name = "Reader";
  description = "";
  enabled = true;
}

abbrev pages : Menu
pages = record {
  base = base;
  id = 11;
  service_resource = "orders";
  parent_id = none;
  code = "pages";
  name = "Pages";
  description = "";
  type = MenuType.menu;
  path = "/";
  component = "";
  api_path = "";
  http_method = "";
  icon = "";
  sort = pos 0;
  enabled = true;
}

abbrev open_button : Menu
open_button = record pages {
  id = 12;
  parent_id = some 11;
  code = " open ";
  type = MenuType.button;
  api_path = "/orders";
  http_method = "get";
}

abbrev start : Store
start = record { roles = reader ∷ []; menus = pages ∷ []; grants = [] }

abbrev ctx : Context
ctx = some (record { id = "u-2"; name = "Bob" })

abbrev same : Char → Char
same c = c

create_role-Attempt_example :
    Attempt
      (IsNewRole service ctx start " orders" "writer" "Writer" "")
      (role_repository.create ctx)
      (create_role service ctx " orders" "writer" "Writer" "")
      start
create_role-Attempt_example =
    create_role-Attempt service ctx start " orders" "writer" "Writer" "" service-ReadsOnly

update_role-Attempt_example :
    Attempt
      (IsRoleUpdate service ctx start "role-1 " "reader" "Readers" "" false)
      (role_repository.update ctx)
      (update_role service ctx "role-1 " "reader" "Readers" "" false)
      start
update_role-Attempt_example =
    update_role-Attempt service ctx start "role-1 " "reader" "Readers" "" false service-ReadsOnly

create_menu-Attempt_example :
    Attempt
      (IsNewMenu same service ctx start open_button)
      (menu_repository.create ctx)
      (create_menu same service ctx (some open_button))
      start
create_menu-Attempt_example =
    create_menu-Attempt same service ctx start open_button service-ReadsOnly

update_menu-Attempt_example :
    Attempt
      (IsMenuUpdate same service ctx start pages)
      (menu_repository.update ctx)
      (update_menu same service ctx (some pages))
      start
update_menu-Attempt_example = update_menu-Attempt same service ctx start pages service-ReadsOnly

delete_menu-Attempt_example :
    Attempt
      (IsDeletable same service ctx start 11)
      (menu_repository.soft_delete ctx)
      (delete_menu same service ctx 11)
      start
delete_menu-Attempt_example = delete_menu-Attempt same service ctx start 11 service-ReadsOnly

grant_role_menus-Attempt_example :
    Attempt
      (IsGrant service ctx start "role-1" (11 ∷ []))
      (replace_granted service ctx start)
      (grant_role_menus service ctx "role-1" (11 ∷ []))
      start
grant_role_menus-Attempt_example =
    grant_role_menus-Attempt service ctx start "role-1" (11 ∷ []) service-ReadsOnly

scoped : IsScope (trim_space " orders")
unfolding trim_space
scoped = record { trimmed = refl; present = refl; fits = omega arith }

coded : IsCode (trim_space "writer ")
unfolding trim_space
coded = record { trimmed = refl; present = refl; fits = omega arith }

named : IsName (trim_space "Writer")
unfolding trim_space
named = record { trimmed = refl; present = refl; fits = omega arith }

active : IsActiveIn (some catalog) ctx (trim_space " orders") start
unfolding trim_space
active = (resource "orders", refl, refl)

create_role_stores_example :
    create_role service ctx " orders" "writer " "Writer" "" start
    ≡ role_repository.create ctx
        (record {
          base = new_base_fields (audit_actor_from_context ctx);
          id = "";
          service_resource = trim_space " orders";
          code = trim_space "writer ";
          name = trim_space "Writer";
          description = trim_space "";
          enabled = true;
        })
        start
create_role_stores_example =
    create_role_stores service ctx start " orders" "writer " "Writer" "" scoped coded named active

deletable : IsDeletable same service ctx start 11 11
deletable = record {
  same = refl;
  present = λ e. cc;
  existing = pages;
  found = refl;
  entries = some pages ∷ [];
  listed = refl;
  childless = ((λ live other parent. other refl), tt);
}

delete_menu-IsDeletable_example :
    delete_menu same service ctx 11 start ≡ menu_repository.soft_delete ctx 11 start
delete_menu-IsDeletable_example = delete_menu-IsDeletable same service ctx start 11 deletable

grantable : IsGrant service ctx start "role-1 " (11 ∷ []) ("role-1", 11 ∷ [])
unfolding trim_space
grantable = record {
  id_given = refl;
  id_normal = record { trimmed = refl; present = refl; fits = omega arith };
  ids_given = refl;
  role = reader;
  found = refl;
  enabled = refl;
  once = (refl, tt);
  grantable = (
    record { present = λ e. cc; menu = pages; found = refl; enabled = refl; same_scope = refl },
    tt,
  );
}

grant_role_menus-IsGrant_example :
    grant_role_menus service ctx "role-1 " (11 ∷ []) start
    ≡ replace_granted service ctx start ("role-1", 11 ∷ []) start
grant_role_menus-IsGrant_example =
    grant_role_menus-IsGrant service ctx start "role-1 " (11 ∷ []) ("role-1", 11 ∷ []) grantable
