-- ===== src/Biz/Audit.antt =====
-- internal/biz/audit.go. A context is what it carries under the key of the actor, if anything; a
-- time.Time is the nanoseconds since its zero value.
pub mod Laws
mod Tests
use Prim.Native.String.{String}
use permission_center_go.Common.{ℕ, Bool, true, false, Option, none, some, if◌then◌else◌}
use permission_center_go.Text.{trim_space, is_blank}

pub record BaseFields : Type 0 where
  pub created_by_id : String
  pub created_by_name : String
  pub created_at : ℕ
  pub updated_by_id : String
  pub updated_by_name : String
  pub updated_at : ℕ
  pub is_deleted : Bool

pub record AuditActor : Type 0 where
  pub id : String
  pub name : String

abbrev pub Context : Type 0
Context = Option AuditActor

abbrev pub system : AuditActor
system = record { id = "system"; name = "system" }

-- The identifier for a missing name, on trimmed parts.
named : String → String → AuditActor
named id name = record { id = id; name = if is_blank name then id else name }

-- WithAuditActor
unfoldable pub with_audit_actor : Context → AuditActor → Context
unfolding named
with_audit_actor ctx actor =
    let id = trim_space actor.id in
    some (named (if is_blank id then "system" else id) (trim_space actor.name))

-- AuditActorFromContext
unfoldable pub audit_actor_from_context : Context → AuditActor
unfolding named
audit_actor_from_context none = system
audit_actor_from_context (some actor) =
    if is_blank (trim_space actor.id)
    then system
    else named (trim_space actor.id) (trim_space actor.name)

-- The actor that NewBaseFields records.
completed : AuditActor → AuditActor
completed actor =
    if is_blank (trim_space actor.id)
    then system
    else if is_blank (trim_space actor.name)
    then record actor { name = actor.id }
    else actor

-- NewBaseFields
unfoldable pub new_base_fields : AuditActor → BaseFields
unfolding completed
new_base_fields actor =
    let who = completed actor in
    record {
      created_by_id = who.id;
      created_by_name = who.name;
      created_at = 0;
      updated_by_id = who.id;
      updated_by_name = who.name;
      updated_at = 0;
      is_deleted = false;
    }
