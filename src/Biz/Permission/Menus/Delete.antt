-- ===== src/Biz/Permission/Menus/Delete.antt =====
-- A menu is deleted only if the listing of its service resource shows no live child of it.
use permission_center_go.Common.{
  ◌≡◌, ◌≢◌, refl, false, Option, none, some, List, [], ◌∷◌, ok, arith, All, ◌==◌, ap, Bool-cases,
  inl, inr,
}
use permission_center_go.Policy.Model.{Uuid, nil_uuid}
use permission_center_go.Biz.Audit.{Context}
use permission_center_go.Biz.Call.Attempt.{
  Attempt, Attempt-read, Attempt-write, Attempt-fail, Attempt-if,
}
use permission_center_go.Biz.Permission.{Menu, PermissionService, ReadsOnly}
use permission_center_go.Biz.Permission.Menus.{
  blocks_deletion, has_children, is_parent, delete_existing, delete_menu,
}
use Prim.Native.Char.{Char}

-- The listed entry is no live child of the menu.
abbrev pub IsNoChild : Uuid → Option Menu → Type 0
IsNoChild id none = Unit
IsNoChild id (some child) =
    child.base.is_deleted ≡ false → child.id ≢ id → child.parent_id ≢ some id

-- A live child blocks the deletion.
blocked :
    (id : Uuid) (child : Menu)
    → child.base.is_deleted ≡ false
    → child.id ≢ id
    → child.parent_id ≡ some id
    → blocks_deletion id (some child) ≡ false
    → ⊥
unfolding blocks_deletion
blocked id child live other parent h = other (ground (arith, rw (live, parent) at h))

no_child : (id : Uuid) (entry : Option Menu) → blocks_deletion id entry ≡ false → IsNoChild id entry
unfolding blocks_deletion
no_child id none h = tt
no_child id (some child) h = λ live other parent. blocked id child live other parent h

no_children :
    (id : Uuid) (entries : List (Option Menu))
    → has_children id entries ≡ false
    → All (IsNoChild id) entries
unfolding has_children
no_children id [] h = tt
no_children id (entry ∷ entries) h =
    (no_child id entry (ground arith), no_children id entries (ground arith))

unequal : (a b : Uuid) → a ≢ b → (a == b) ≡ false
unequal a b h = ground arith

parent_free : (id : Uuid) (parent : Option Uuid) → parent ≢ some id → is_parent id parent ≡ false
parent_free id none h = refl
parent_free id (some p) h = unequal p id λ e. h (ap (λ x. some x) e)

free : (id : Uuid) (entry : Option Menu) → IsNoChild id entry → blocks_deletion id entry ≡ false
unfolding blocks_deletion
free id none h = refl
free id (some child) h = elim (Bool-cases child.base.is_deleted) [
  | inl deleted ↦ rw deleted
  | inr live ↦ elim (Bool-cases (child.id == id)) [
    | inl self ↦ rw (live, self)
    | inr other ↦ rw (live, other, parent_free id child.parent_id (h live (ground arith)))
  ]
]

-- No entry blocks the deletion where none is a live child.
no_block :
    (id : Uuid) (entries : List (Option Menu))
    → All (IsNoChild id) entries
    → has_children id entries ≡ false
unfolding has_children
no_block id [] h = refl
no_block id (entry ∷ entries) (h, hs) = rw (free id entry h, no_block id entries hs)

module _ {S : Type 0} (table : Char → Char) (service : PermissionService S) (ctx : Context)
    (s : S) where
  -- The menu exists, and no entry listed for its service resource is a live child of it.
  pub record IsDeletable (id deleted : Uuid) : Type 0 where
    pub same : deleted ≡ id
    pub present : id ≢ nil_uuid
    pub existing : Menu
    pub found : service.menus.get ctx id s ≡ (ok (some existing), s)
    pub entries : List (Option Menu)
    pub listed :
        service.menus.list_by_service_resource ctx existing.service_resource s ≡ (ok entries, s)
    pub childless : All (IsNoChild id) entries

  existing-Attempt :
      (id : Uuid) (found : Option Menu)
      → ReadsOnly service
      → id ≢ nil_uuid
      → service.menus.get ctx id s ≡ (ok found, s)
      → Attempt
          (IsDeletable id)
          (service.menus.soft_delete ctx)
          (delete_existing table service ctx id found)
          s
  unfolding delete_existing
  existing-Attempt id none reads present got = Attempt-fail _ s
  existing-Attempt id (some existing) reads present got =
      Attempt-read (service.menus.list_by_service_resource ctx existing.service_resource) _ s
        (reads.menu_list ctx existing.service_resource)
        λ entries listed.
          Attempt-if (has_children id entries) _ _ s (λ _. Attempt-fail _ s)
            λ childless. Attempt-write id s (record {
              same = refl;
              present = present;
              existing = existing;
              found = got;
              entries = entries;
              listed = listed;
              childless = no_children id entries childless;
            })

  -- Where the reads only read: DeleteMenu either calls the repository's SoftDelete once, with its
  -- identifier, which is that of an existing menu without a live child in the listing of its service
  -- resource, and returns what that call returns; or it fails or panics and the store is as it was.
  pub delete_menu-Attempt :
      (id : Uuid)
      → ReadsOnly service
      → Attempt
          (IsDeletable id)
          (service.menus.soft_delete ctx)
          (delete_menu table service ctx id)
          s
  unfolding delete_menu
  delete_menu-Attempt id reads =
      Attempt-if (id == nil_uuid) _ _ s (λ _. Attempt-fail _ s)
        λ present.
          Attempt-read (service.menus.get ctx id) _ s (reads.menu_get ctx id)
            λ found got. existing-Attempt id found reads (ground arith) got

  -- A menu that may be deleted is deleted: DeleteMenu returns what the repository's SoftDelete does.
  pub delete_menu-IsDeletable :
      (id : Uuid)
      → IsDeletable id id
      → delete_menu table service ctx id s ≡ service.menus.soft_delete ctx id s
  unfolding delete_menu delete_existing
  delete_menu-IsDeletable id d =
      let known : (id == nil_uuid) ≡ false = unequal id nil_uuid d.present in
      rw (known, d.found, d.listed, no_block id d.entries d.childless)
