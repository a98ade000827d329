-- ===== src/Biz/Permission.antt =====
-- internal/biz/permission.go: roles, menus and the roles of users. This file has the records, the
-- repositories as interfaces over a store, and the validation; the operations are in the modules
-- below. `table` is unicode.ToUpper beyond ASCII.
pub mod Normal
pub mod Roles
pub mod Menus
pub mod Grants
pub mod Tree
mod Tests
use Prim.Native.Char.{Char}
use Prim.Native.String
use Prim.Native.String.{String}
use package.text.Mathlib.Text.{◌==◌ as str_eq}
use permission_center_go.Common.{
  ℕ, ℤ, Bool, true, false, not, ◌||◌, ◌&&◌, Option, none, some, List, [], ◌∷◌, ltb, if◌then◌else◌,
  is_none, Result, ok, err, Error, invalid_argument, ◌>>=◌, ◌>>◌,
}
use permission_center_go.Text.{trim_space, is_blank, count, len, to_upper}
use permission_center_go.Policy.Model.{Uuid}
use permission_center_go.Biz.Call.{Call, Reads}
use permission_center_go.Biz.Resource.Active.{CatalogReads}
use permission_center_go.Biz.Audit.{BaseFields, Context}
use permission_center_go.Biz.Resource.{ServiceResourceCatalog}

pub data MenuType : Type 0 where
  menu button : MenuType
  unknown : String → MenuType

pub record Role : Type 0 where
  pub base : BaseFields
  pub id : String
  pub service_resource : String
  pub code : String
  pub name : String
  pub description : String
  pub enabled : Bool

pub record Menu : Type 0 where
  pub base : BaseFields
  pub id : Uuid
  pub service_resource : String
  pub parent_id : Option Uuid
  pub code : String
  pub name : String
  pub description : String
  pub type : MenuType
  pub path : String
  pub component : String
  pub api_path : String
  pub http_method : String
  pub icon : String
  pub sort : ℤ
  pub enabled : Bool

-- A call that returns a pointer returns an Option: nil beside a nil error is `ok none`.
pub record RoleRepository (S : Type 0) : Type 0 where
  pub create : Context → Role → Call S (Option Role)
  pub get : Context → String → Call S (Option Role)
  pub list_by_service_resource : Context → String → Call S (List (Option Role))
  pub update : Context → Role → Call S (Option Role)
  pub soft_delete : Context → String → Call S (Unit {0})
  pub replace_menus : Context → String → List Uuid → Call S (Unit {0})
  pub menu_ids : Context → String → Call S (List Uuid)

pub record MenuRepository (S : Type 0) : Type 0 where
  pub create : Context → Menu → Call S (Option Menu)
  pub get : Context → Uuid → Call S (Option Menu)
  pub list_by_service_resource : Context → String → Call S (List (Option Menu))
  pub update : Context → Menu → Call S (Option Menu)
  pub soft_delete : Context → Uuid → Call S (Unit {0})

pub record UserRoleRepository (S : Type 0) : Type 0 where
  pub replace_roles : Context → String → String → List String → Call S (Unit {0})
  pub role_ids : Context → String → String → Call S (List String)

-- PermissionService, as NewPermissionService and WithServiceResourceCatalog fill it.
pub record PermissionService (S : Type 0) : Type 0 where
  pub roles : RoleRepository S
  pub menus : MenuRepository S
  pub user_roles : Option (UserRoleRepository S)
  pub service_resources : Option (ServiceResourceCatalog S)

-- The reads of the service leave the store as it is.
pub record ReadsOnly {S : Type 0} (service : PermissionService S) : Type 0 where
  pub role_get : (ctx : Context) (id : String) → Reads (service.roles.get ctx id)
  pub menu_get : (ctx : Context) (id : Uuid) → Reads (service.menus.get ctx id)
  pub menu_list :
      (ctx : Context) (key : String) → Reads (service.menus.list_by_service_resource ctx key)
  pub catalog_get : CatalogReads service.service_resources

-- validateCodeAndName: the code is measured in bytes, the name in code points.
unfoldable pub validate_code_and_name : String → String → Result (String × String)
validate_code_and_name code name =
    let code' = trim_space code in
    let name' = trim_space name in
    if is_blank code' || ltb 100 (len code')
    then err (invalid_argument "code must be 1-100 characters")
    else if is_blank name' || ltb 100 (count name')
    then err (invalid_argument "name must be 1-100 characters")
    else ok (code', name')

-- validateID: the identifier is measured in bytes.
unfoldable pub validate_id : String → String → Result String
validate_id value name =
    let trimmed = trim_space value in
    if is_blank trimmed || ltb 80 (len trimmed)
    then err (invalid_argument (String.◌++◌ name " must be 1-80 characters"))
    else ok trimmed

-- MenuHTTPMethod.Valid
unfoldable pub http_method_valid : String → Bool
http_method_valid m =
    str_eq m "GET"
    || str_eq m "POST"
    || str_eq m "PUT"
    || str_eq m "PATCH"
    || str_eq m "DELETE"
    || str_eq m "HEAD"
    || str_eq m "OPTIONS"

-- GET where a button names no method.
pub default_method : String → String
default_method method = if is_blank method then "GET" else method

-- The API metadata by the type of the entry.
pub check_metadata : MenuType → Menu → Result Menu
check_metadata MenuType.menu m =
    if not (is_blank m.api_path) || not (is_blank m.http_method)
    then err (invalid_argument "menu cannot define API metadata")
    else ok m
check_metadata MenuType.button m =
    if is_blank m.api_path
    then err (invalid_argument "button api_path is required")
    else if not (http_method_valid (default_method m.http_method))
    then err (invalid_argument "unsupported button http_method ")
    else ok (record m { http_method = default_method m.http_method })
check_metadata (MenuType.unknown other) m = err (invalid_argument "type must be menu or button")

abbrev pub is_button : MenuType → Bool
is_button MenuType.button = true
is_button _ = false

abbrev pub is_menu : MenuType → Bool
is_menu MenuType.menu = true
is_menu _ = false

-- The menu with its texts normalised.
abbrev pub normalised : (Char → Char) → Menu → String × String → Menu
normalised table m names = record m {
  code = names.0;
  name = names.1;
  api_path = trim_space m.api_path;
  http_method = to_upper table (trim_space m.http_method);
}

-- validateMenu: the menu as it stands after the validation has changed it.
pub validate_menu : (Char → Char) → Menu → Result Menu
validate_menu table m = validate_code_and_name m.code m.name >>= λ names.
    if not (is_menu m.type) && not (is_button m.type)
    then err (invalid_argument "type must be menu or button")
    else if is_button m.type && is_none m.parent_id
    then err (invalid_argument "button must have a menu parent")
    else check_metadata m.type (normalised table m names)
