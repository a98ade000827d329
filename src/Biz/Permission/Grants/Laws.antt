-- ===== src/Biz/Permission/Grants/Laws.antt =====
-- A role is granted only enabled menus of its own service resource, each once.
use Prim.Native.String.{String}
use text.Mathlib.TextEquality.{eq_iff}
use permission_center_go.Common.{
  ◌≡◌, ◌≢◌, conflict, refl, true, false, not, Option, none, some, List, [], ◌∷◌, ok, arith, All,
  ◌==◌, if◌then◌else◌, ◌∙◌, ap, Bool-cases, inl, inr,
}
use permission_center_go.Text.{trim_space}
use permission_center_go.Policy.Model.{Uuid, nil_uuid}
use permission_center_go.Biz.Audit.{Context}
use permission_center_go.Biz.Call.{Call, Reads, fail, ◌>>◌}
use permission_center_go.Biz.Call.Attempt.{
  Attempt, Attempt-lift, Attempt-read, Attempt-write, Attempt-fail, Attempt-if, Reads-bind,
  checked_read, Reads-if, read_passed,
}
use permission_center_go.Biz.Permission.{Menu, Role, PermissionService, ReadsOnly, validate_id}
use permission_center_go.Biz.Permission.Normal.{
  IsIdentifier, validate_id-IsIdentifier, validate_id_of,
}
use permission_center_go.Biz.Permission.Grants.{
  is_seen, check_menu, check_grant, check_grants, grant_existing, grant_role_menus,
}

-- None of the identifiers is among these, and none stands twice.
abbrev pub AreFresh : List Uuid → List Uuid → Type 0
AreFresh seen [] = Unit
AreFresh seen (id ∷ ids) = (is_seen seen id ≡ false) × AreFresh (id ∷ seen) ids

unequal : (a b : Uuid) → a ≢ b → (a == b) ≡ false
unequal a b h = ground arith

module _ {S : Type 0} (service : PermissionService S) (ctx : Context) (s : S) where
  -- The menu exists, is enabled and belongs to the service resource of the role.
  pub record IsGrantable (role : Role) (id : Uuid) : Type 0 where
    pub present : id ≢ nil_uuid
    pub menu : Menu
    pub found : service.menus.get ctx id s ≡ (ok (some menu), s)
    pub enabled : menu.enabled ≡ true
    pub same_scope : menu.service_resource ≡ role.service_resource

  checked_menu :
      (role : Role) (id : Uuid) (found : Option Menu)
      → id ≢ nil_uuid
      → service.menus.get ctx id s ≡ (ok found, s)
      → check_menu role found ≡ ok tt
      → IsGrantable role id
  unfolding check_menu
  checked_menu role id none present got h = cc
  checked_menu role id (some menu) present got h = record {
    present = present;
    menu = menu;
    found = got;
    enabled = ground arith;
    same_scope = ground (arith, eq_iff menu.service_resource role.service_resource);
  }

  check_grant-Reads :
      (role : Role) (seen : List Uuid) (id : Uuid)
      → ReadsOnly service
      → Reads (check_grant service ctx role seen id)
  unfolding check_grant
  check_grant-Reads role seen id reads =
      Reads-if (id == nil_uuid) _ _ (λ u. refl)
        (Reads-if (is_seen seen id) _ _ (λ u. refl)
          (Reads-bind (service.menus.get ctx id) _ (reads.menu_get ctx id) (λ found u. refl)))

  check_grants-Reads :
      (role : Role) (seen ids : List Uuid)
      → ReadsOnly service
      → Reads (check_grants service ctx role seen ids)
  unfolding check_grants
  check_grants-Reads role seen [] reads = λ u. refl
  check_grants-Reads role seen (id ∷ ids) reads =
      Reads-bind (check_grant service ctx role seen id) _ (check_grant-Reads role seen id reads)
        (λ _. check_grants-Reads role (id ∷ seen) ids reads)

  granted_once :
      (role : Role) (seen : List Uuid) (id : Uuid) {t : S}
      → ReadsOnly service
      → check_grant service ctx role seen id s ≡ (ok tt, t)
      → (is_seen seen id ≡ false) × IsGrantable role id
  unfolding check_grant
  granted_once role seen id {t} reads h = elim (Bool-cases (id == nil_uuid)) [
    | inl nil ↦ absurd (cc (rw nil at h))
    | inr present ↦ elim (Bool-cases (is_seen seen id)) [
      | inl twice ↦ absurd (cc (rw (present, twice) at h))
      | inr fresh ↦
          let (found, got, passed) =
            checked_read (service.menus.get ctx id) (check_menu role) s (reads.menu_get ctx id)
              (rw (present, fresh) at h) in
          (fresh, checked_menu role id found (ground arith) got passed)
    ]
  ]

  All-granted :
      (role : Role) (seen ids : List Uuid) {t : S}
      → ReadsOnly service
      → check_grants service ctx role seen ids s ≡ (ok tt, t)
      → AreFresh seen ids × All (IsGrantable role) ids
  unfolding check_grants
  All-granted role seen [] reads h = (tt, tt)
  All-granted role seen (id ∷ ids) reads h =
      let (_, first, others) =
        read_passed (check_grant service ctx role seen id) _ s
          (check_grant-Reads role seen id reads) h in
      let (fresh, grantable) = granted_once role seen id reads first in
      let (all_fresh, all_grantable) = All-granted role (id ∷ seen) ids reads others in
      ((fresh, all_fresh), (grantable, all_grantable))

  -- The role is stored and enabled, and each of the menus may be granted to it.
  pub record IsGrant (role_id : String) (ids : List Uuid) (grant : String × List Uuid)
      : Type 0 where
    pub id_given : grant.0 ≡ trim_space role_id
    pub id_normal : IsIdentifier grant.0
    pub ids_given : grant.1 ≡ ids
    pub role : Role
    pub found : service.roles.get ctx grant.0 s ≡ (ok (some role), s)
    pub enabled : role.enabled ≡ true
    pub once : AreFresh [] ids
    pub grantable : All (IsGrantable role) ids

  abbrev pub replace_granted : String × List Uuid → Call S (Unit {0})
  replace_granted (id, ids) = service.roles.replace_menus ctx id ids

  grant_existing-Attempt :
      (role_id id : String) (ids : List Uuid) (found : Option Role)
      → ReadsOnly service
      → (id ≡ trim_space role_id) × IsIdentifier id
      → service.roles.get ctx id s ≡ (ok found, s)
      → Attempt (IsGrant role_id ids) replace_granted (grant_existing service ctx id ids found) s
  unfolding grant_existing
  grant_existing-Attempt role_id id ids none reads normal got = Attempt-fail _ s
  grant_existing-Attempt role_id id ids (some role) reads normal got =
      Attempt-if (not role.enabled) _ _ s (λ _. Attempt-fail _ s)
        λ enabled.
          Attempt-read (check_grants service ctx role [] ids) _ s
            (check_grants-Reads role [] ids reads)
            λ _ passed.
              let (once, grantable) = All-granted role [] ids reads passed in
              Attempt-write (id, ids) s
                (record {
                  id_given = normal.0;
                  id_normal = normal.1;
                  ids_given = refl;
                  role = role;
                  found = got;
                  enabled = ground arith;
                  once = once;
                  grantable = grantable;
                })

  -- Where the reads only read: GrantRoleMenus either calls the repository's ReplaceMenus once, with
  -- the trimmed identifier of an enabled role, within its limits, and the given menus, each of which
  -- is named once, is stored and enabled and belongs to the service resource of the role, and returns
  -- what that call returns; or it fails or panics and the store is as it was.
  pub grant_role_menus-Attempt :
      (role_id : String) (ids : List Uuid)
      → ReadsOnly service
      → Attempt (IsGrant role_id ids) replace_granted (grant_role_menus service ctx role_id ids) s
  unfolding grant_role_menus
  grant_role_menus-Attempt role_id ids reads =
      Attempt-lift (validate_id role_id "role_id") _ s λ id valid.
        Attempt-read (service.roles.get ctx id) _ s (reads.role_get ctx id) λ found got.
          grant_existing-Attempt role_id id ids found reads
            (validate_id-IsIdentifier role_id "role_id" valid) got

  granted :
      (role : Role) (seen : List Uuid) (id : Uuid)
      → is_seen seen id ≡ false
      → IsGrantable role id
      → check_grant service ctx role seen id s ≡ (ok tt, s)
  unfolding check_grant check_menu
  granted role seen id fresh g =
      let known : (id == nil_uuid) ≡ false = unequal id nil_uuid g.present in
      rw (
        known,
        fresh,
        g.found,
        g.enabled,
        (eq_iff g.menu.service_resource role.service_resource).1 g.same_scope,
      )

  grants_pass :
      (role : Role) (seen ids : List Uuid)
      → AreFresh seen ids
      → All (IsGrantable role) ids
      → check_grants service ctx role seen ids s ≡ (ok tt, s)
  unfolding check_grants
  grants_pass role seen [] fresh h = refl
  grants_pass role seen (id ∷ ids) (fresh, all_fresh) (h, hs) =
      rw (granted role seen id fresh h, grants_pass role (id ∷ seen) ids all_fresh hs)

  existing_granted :
      (role : Role) (id : String) (ids : List Uuid)
      → role.enabled ≡ true
      → AreFresh [] ids
      → All (IsGrantable role) ids
      → grant_existing service ctx id ids (some role) s ≡ service.roles.replace_menus ctx id ids s
  unfolding grant_existing
  existing_granted role id ids enabled once grantable =
      ap
        (λ b.
          (if not b
              then fail (conflict "role must be enabled")
              else (check_grants service ctx role [] ids >> service.roles.replace_menus ctx id ids))
            s)
        enabled
      ∙ rw (grants_pass role [] ids once grantable)

  -- A grant that is allowed is made: GrantRoleMenus returns what the repository's ReplaceMenus does.
  pub grant_role_menus-IsGrant :
      (role_id : String) (ids : List Uuid) (grant : String × List Uuid)
      → IsGrant role_id ids grant
      → grant_role_menus service ctx role_id ids s ≡ replace_granted grant s
  unfolding grant_role_menus
  grant_role_menus-IsGrant role_id ids (id, ids') g = rw (
    validate_id_of role_id "role_id" g.id_given g.id_normal,
    g.found,
    existing_granted g.role id ids g.enabled g.once g.grantable,
    g.ids_given,
  )
