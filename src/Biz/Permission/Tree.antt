-- ===== src/Biz/Permission/Tree.antt =====
-- internal/biz/permission.go: MenuTree. The map from identifiers to nodes is a list of entries, one
-- to an identifier. A pointer to a node is the identifier under which the map holds it, since every
-- node is reached through the map.
use permission_center_go.Common.{
  ◌++◌, Option, none, some, List, [], ◌∷◌, ◌==◌, if◌then◌else◌, Result, ok, err, panic, conflict,
  ◌>>=◌ as then_result,
}
use permission_center_go.Text.{String}
use permission_center_go.Policy.Model.{Uuid}
use permission_center_go.Biz.Call.{Call, lift, ◌>>=◌}
use permission_center_go.Biz.Audit.{Context}
use permission_center_go.Biz.Resource.{validate_service_resource}
use permission_center_go.Biz.Permission.{Menu, PermissionService}

pub record MenuTreeNode : Type 0 where
  pub menu : Menu
  pub children : List Uuid

abbrev pub Nodes : Type 0
Nodes = List (Uuid × MenuTreeNode)

pub record Forest : Type 0 where
  pub roots : List Uuid
  pub nodes : Nodes

-- node, ok := nodes[id]
pub get_node : Nodes → Uuid → Option MenuTreeNode
get_node [] id = none
get_node ((key, node) ∷ nodes) id = if key == id then some node else get_node nodes id

-- nodes[id] = node
pub put_node : Nodes → Uuid → MenuTreeNode → Nodes
put_node [] id node = (id, node) ∷ []
put_node ((key, old) ∷ nodes) id node =
    if key == id then (key, node) ∷ nodes else (key, old) ∷ put_node nodes id node

-- The first loop.
pub make_nodes : Nodes → List Menu → Nodes
make_nodes nodes [] = nodes
make_nodes nodes (menu ∷ menus) =
    make_nodes (put_node nodes menu.id (record { menu = menu; children = [] })) menus

-- parent.Children = append(parent.Children, node)
pub add_child : MenuTreeNode → Uuid → MenuTreeNode
add_child parent id = record parent { children = parent.children ++ id ∷ [] }

-- One round of the second loop.
pub attach : Option Uuid → Uuid → Forest → Result Forest
attach none id forest = ok (record forest { roots = forest.roots ++ id ∷ [] })
attach (some parent_id) id forest = elim (get_node forest.nodes parent_id) [
  | none ↦ err (conflict "menu parent does not belong to service resource")
  | some parent ↦
      ok (record forest { nodes = put_node forest.nodes parent_id (add_child parent id) })
]

pub link : List Menu → Forest → Result Forest
link [] forest = ok forest
link (menu ∷ menus) forest =
    then_result (attach menu.parent_id menu.id forest) λ forest'. link menus forest'

-- A nil entry of the list is dereferenced in the first loop.
pub present : List (Option Menu) → Result (List Menu)
present [] = ok []
present (none ∷ rest) = panic
present (some menu ∷ rest) = then_result (present rest) λ menus. ok (menu ∷ menus)

pub build : List Menu → Result Forest
build menus = link menus (record { roots = []; nodes = make_nodes [] menus })

module _ {S : Type 0} (service : PermissionService S) where
  open service use {menus}

  pub menu_tree : Context → String → Call S Forest
  menu_tree ctx service_resource = do
    scope ← lift (validate_service_resource service_resource)
    entries ← menus.list_by_service_resource ctx scope
    listed ← lift (present entries)
    lift (build listed)
