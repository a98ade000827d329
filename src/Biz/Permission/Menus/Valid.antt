-- ===== src/Biz/Permission/Menus/Valid.antt =====
-- The menus that the validation lets through.
use Prim.Native.Char.{Char}
use Prim.Native.String.{String}
use permission_center_go.Common.{
  ◌≡◌, ◌∙◌, true, false, not, ◌&&◌, Option, ok, arith, is_none, ap, subst, sym, >>=-eq-ok,
}
use permission_center_go.Text.{trim_space, is_blank, to_upper}
use permission_center_go.Policy.Model.{Uuid}
use permission_center_go.Biz.Permission.{
  Menu, MenuType, validate_code_and_name, validate_menu, check_metadata, http_method_valid, is_menu,
  is_button, normalised, default_method,
}
use permission_center_go.Biz.Permission.Normal.{IsCode, IsName, validate_code_and_name-IsNormal}

-- A menu leads nowhere by itself; a button has a parent, an API path and a known method.
abbrev pub HasMetadata : MenuType → String → String → Option Uuid → Type 0
HasMetadata MenuType.menu api_path http_method parent_id =
    (is_blank api_path ≡ true) × (is_blank http_method ≡ true)
HasMetadata MenuType.button api_path http_method parent_id =
    (is_none parent_id ≡ false)
    × (is_blank api_path ≡ false)
    × (http_method_valid http_method ≡ true)
HasMetadata (MenuType.unknown other) api_path http_method parent_id = ⊥

-- The method of a button is GET where none is given.
abbrev pub method_of : MenuType → String → String
method_of MenuType.button http_method = default_method http_method
method_of _ http_method = http_method

-- The entry that was given: its texts trimmed, its method in capitals, the rest as it was.
pub record IsSameEntry (table : Char → Char) (given m : Menu) : Type 0 where
  pub base : m.base ≡ given.base
  pub id : m.id ≡ given.id
  pub service_resource : m.service_resource ≡ given.service_resource
  pub parent_id : m.parent_id ≡ given.parent_id
  pub type : m.type ≡ given.type
  pub description : m.description ≡ given.description
  pub code : m.code ≡ trim_space given.code
  pub name : m.name ≡ trim_space given.name
  pub path : m.path ≡ given.path
  pub component : m.component ≡ given.component
  pub icon : m.icon ≡ given.icon
  pub sort : m.sort ≡ given.sort
  pub api_path : m.api_path ≡ trim_space given.api_path
  pub http_method :
      m.http_method ≡ method_of given.type (to_upper table (trim_space given.http_method))
  pub enabled : m.enabled ≡ given.enabled

pub record IsValidMenu (table : Char → Char) (given m : Menu) : Type 0 where
  pub same : IsSameEntry table given m
  pub metadata : HasMetadata m.type m.api_path m.http_method m.parent_id
  pub code_normal : IsCode m.code
  pub name_normal : IsName m.name

metadata_of :
    (type : MenuType) (m : Menu) {m' : Menu}
    → (is_button type && is_none m.parent_id) ≡ false
    → check_metadata type m ≡ ok m'
    → HasMetadata type m'.api_path m'.http_method m'.parent_id
      × (m' ≡ record m { http_method = method_of type m.http_method })
unfolding check_metadata
metadata_of MenuType.menu m p h = ground arith
metadata_of MenuType.button m p h = ground arith
metadata_of (MenuType.unknown other) m p h = cc

-- A menu that the validation lets through has the given parts, its code and name trimmed and within
-- their limits, and the API metadata of its type.
pub validate_menu-IsValidMenu :
    (table : Char → Char) (given : Menu) {m : Menu}
    → validate_menu table given ≡ ok m
    → IsValidMenu table given m
unfolding validate_menu
validate_menu-IsValidMenu table given {m} h =
    let (pair, valid, rest) = >>=-eq-ok (validate_code_and_name given.code given.name) _ h in
    let (code_given, name_given, code_normal, name_normal) =
      validate_code_and_name-IsNormal given.code given.name valid in
    let known : (not (is_menu given.type) && not (is_button given.type)) ≡ false = ground arith in
    let parented : (is_button given.type && is_none given.parent_id) ≡ false = ground arith in
    let checked : check_metadata given.type (normalised table given pair) ≡ ok m =
      rw (known, parented) at rest in
    let (metadata, same) = metadata_of given.type (normalised table given pair) parented checked in
    record {
      same = record {
        base = ap (λ x. x.base) same;
        id = ap (λ x. x.id) same;
        service_resource = ap (λ x. x.service_resource) same;
        parent_id = ap (λ x. x.parent_id) same;
        type = ap (λ x. x.type) same;
        description = ap (λ x. x.description) same;
        code = ap (λ x. x.code) same ∙ code_given;
        name = ap (λ x. x.name) same ∙ name_given;
        path = ap (λ x. x.path) same;
        component = ap (λ x. x.component) same;
        icon = ap (λ x. x.icon) same;
        sort = ap (λ x. x.sort) same;
        api_path = ap (λ x. x.api_path) same;
        http_method = ap (λ x. x.http_method) same;
        enabled = ap (λ x. x.enabled) same;
      };
      metadata =
          subst (λ t. HasMetadata t m.api_path m.http_method m.parent_id)
            (sym (ap (λ x. x.type) same)) metadata;
      code_normal = subst IsCode (sym (ap (λ x. x.code) same)) code_normal;
      name_normal = subst IsName (sym (ap (λ x. x.name) same)) name_normal;
    }
