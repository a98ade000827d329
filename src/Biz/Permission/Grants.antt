-- ===== src/Biz/Permission/Grants.antt =====
-- internal/biz/permission.go: GrantRoleMenus.
pub mod Laws
use package.text.Mathlib.Text.{◌==◌ as str_eq}
use permission_center_go.Common.{
  Bool, true, false, not, ◌||◌, Option, none, some, List, [], ◌∷◌, ◌==◌, if◌then◌else◌, Result, ok,
  err, invalid_argument, conflict,
}
use permission_center_go.Text.{String}
use permission_center_go.Policy.Model.{Uuid, nil_uuid}
use permission_center_go.Biz.Call.{Call, pure, fail, lift, ◌>>=◌, ◌>>◌}
use permission_center_go.Biz.Audit.{Context}
use permission_center_go.Biz.Permission.{Menu, Role, PermissionService, validate_id}

abbrev pub is_seen : List Uuid → Uuid → Bool
is_seen [] id = false
is_seen (x ∷ seen) id = x == id || is_seen seen id

-- The checks of the menu that the repository returned.
pub check_menu : Role → Option Menu → Result (Unit {0})
check_menu role none = err (conflict "menu must be enabled")
check_menu role (some menu) =
    if not menu.enabled
    then err (conflict "menu must be enabled")
    else if not (str_eq menu.service_resource role.service_resource)
    then err (conflict "role and menu must belong to the same service resource")
    else ok tt

module _ {S : Type 0} (service : PermissionService S) where
  open service use {roles, menus}

  -- One round of the loop, with the identifiers seen so far.
  pub check_grant : Context → Role → List Uuid → Uuid → Call S (Unit {0})
  check_grant ctx role seen menu_id =
      if menu_id == nil_uuid
      then fail (invalid_argument "menu_id is required")
      else if is_seen seen menu_id
      then fail (invalid_argument "duplicate menu_id")
      else do found ← menus.get ctx menu_id; lift (check_menu role found)

  pub check_grants : Context → Role → List Uuid → List Uuid → Call S (Unit {0})
  check_grants ctx role seen [] = pure tt
  check_grants ctx role seen (menu_id ∷ rest) =
      check_grant ctx role seen menu_id >>= λ _. check_grants ctx role (menu_id ∷ seen) rest

  pub grant_existing : Context → String → List Uuid → Option Role → Call S (Unit {0})
  grant_existing ctx id menu_ids none = fail (conflict "role must be enabled")
  grant_existing ctx id menu_ids (some role) =
      if not role.enabled
      then fail (conflict "role must be enabled")
      else do check_grants ctx role [] menu_ids; roles.replace_menus ctx id menu_ids

  pub grant_role_menus : Context → String → List Uuid → Call S (Unit {0})
  grant_role_menus ctx role_id menu_ids = do
    id ← lift (validate_id role_id "role_id")
    role ← roles.get ctx id
    grant_existing ctx id menu_ids role
