-- ===== src/Biz/Permission/Menus/Parent.antt =====
-- The parent of a menu that CreateMenu looks up.
use Prim.Native.Char.{Char}
use Prim.Native.String.{String}
use text.Mathlib.TextEquality.{eq_iff}
use permission_center_go.Common.{◌≡◌, refl, true, Option, none, some, ok, arith}
use permission_center_go.Policy.Model.{Uuid}
use permission_center_go.Biz.Call.{Reads}
use permission_center_go.Biz.Call.Attempt.{Reads-bind, checked_read}
use permission_center_go.Biz.Audit.{Context}
use permission_center_go.Biz.Permission.{Menu, PermissionService, ReadsOnly, is_menu}
use permission_center_go.Biz.Permission.Menus.{check_parent, parent_allowed, check_found}

module _ {S : Type 0} (table : Char → Char) (service : PermissionService S) (ctx : Context)
    (s : S) where
  -- What the parent of an entry is: none, or a menu that the repository has, enabled and of the same
  -- service resource.
  abbrev pub HasParent : String → Option Uuid → Type 0
  HasParent scope none = Unit
  HasParent scope (some parent_id) =
      (parent : Menu) × (service.menus.get ctx parent_id s ≡ (ok (some parent), s))
      × (parent.service_resource ≡ scope)
      × (is_menu parent.type ≡ true)
      × (parent.enabled ≡ true)

  found_parent :
      (scope : String) (parent_id : Uuid) (found : Option Menu)
      → service.menus.get ctx parent_id s ≡ (ok found, s)
      → check_found scope found ≡ ok tt
      → HasParent scope (some parent_id)
  unfolding check_found parent_allowed
  found_parent scope parent_id none e h = cc
  found_parent scope parent_id (some parent) e h =
      (parent, e, ground (arith, eq_iff parent.service_resource scope), ground arith, ground arith)

  pub check_parent-Reads :
      (scope : String) (parent_id : Option Uuid)
      → ReadsOnly service
      → Reads (check_parent table service ctx scope parent_id)
  unfolding check_parent
  check_parent-Reads scope none reads = λ s. refl
  check_parent-Reads scope (some parent_id) reads =
      Reads-bind (service.menus.get ctx parent_id) _ (reads.menu_get ctx parent_id)
        (λ found s. refl)

  pub check_parent-HasParent :
      (scope : String) (parent_id : Option Uuid)
      → ReadsOnly service
      → check_parent table service ctx scope parent_id s ≡ (ok tt, s)
      → HasParent scope parent_id
  unfolding check_parent
  check_parent-HasParent scope none reads h = tt
  check_parent-HasParent scope (some parent_id) reads h =
      let (found, got, passed) =
        checked_read (service.menus.get ctx parent_id) (check_found scope) s
          (reads.menu_get ctx parent_id) h in
      found_parent scope parent_id found got passed
