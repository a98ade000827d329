-- ===== src/Biz/Audit/Laws.antt =====
-- Audit fields always name an actor.
use Prim.Native.String.{String}
use permission_center_go.Common.{◌≡◌, refl, false, none, some, inl, inr, Bool-cases}
use permission_center_go.Text.{trim_space, is_blank}
use permission_center_go.Text.Trim.{trim_space_idempotent}
use permission_center_go.Biz.Audit.{AuditActor, Context, system, named, audit_actor_from_context}

-- An actor as the services write it: neither part is blank, and both are trimmed.
pub record IsNamed (actor : AuditActor) : Type 0 where
  pub id_present : is_blank actor.id ≡ false
  pub name_present : is_blank actor.name ≡ false
  pub id_trimmed : trim_space actor.id ≡ actor.id
  pub name_trimmed : trim_space actor.name ≡ actor.name

named-IsNamed :
    (id name : String)
    → is_blank (trim_space id) ≡ false
    → IsNamed (named (trim_space id) (trim_space name))
unfolding named
named-IsNamed id name h = elim (Bool-cases (is_blank (trim_space name))) [
  | inl e ↦ rw e (record {
    id_present = h;
    name_present = h;
    id_trimmed = trim_space_idempotent id;
    name_trimmed = trim_space_idempotent id;
  })
  | inr e ↦ rw e (record {
    id_present = h;
    name_present = e;
    id_trimmed = trim_space_idempotent id;
    name_trimmed = trim_space_idempotent name;
  })
]

system-IsNamed : IsNamed system
unfolding trim_space
system-IsNamed = record {
  id_present = refl;
  name_present = refl;
  id_trimmed = refl;
  name_trimmed = refl;
}

-- Whatever a context carries, the actor read from it has an identifier and a name, both trimmed and
-- not blank.
pub audit_actor_from_context-IsNamed : (ctx : Context) → IsNamed (audit_actor_from_context ctx)
unfolding audit_actor_from_context
audit_actor_from_context-IsNamed none = system-IsNamed
audit_actor_from_context-IsNamed (some actor) = elim (Bool-cases (is_blank (trim_space actor.id))) [
  | inl e ↦ rw e system-IsNamed
  | inr e ↦ rw e (named-IsNamed actor.id actor.name e)
]
