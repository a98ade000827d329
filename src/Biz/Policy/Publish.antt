-- ===== src/Biz/Policy/Publish.antt =====
-- internal/biz/policy.go: Publish and Rollback. `checksum` is policyChecksum, a digest by
-- crypto/sha256 of what encoding/json writes, and `now` is the time of the call.
pub mod Laws
use Prim.Native.String.{String}
use permission_center_go.Common.{
  ℕ, ℤ, pos, negsuc, zero, suc, ◌+◌, Bool, true, false, not, ◌&&◌, Option, none, some,
  if◌then◌else◌, Result, ok, err, invalid_argument, conflict, deref,
}
use permission_center_go.Policy.Model.{Uuid, Status, Snapshot}
use permission_center_go.Policy.Compile.{compile_snapshot}
use permission_center_go.Biz.Call.{Call, pure, fail, lift, ◌>>=◌, ◌>>◌}
use permission_center_go.Biz.Audit.{BaseFields, AuditActor, Context, audit_actor_from_context}
use permission_center_go.Biz.Policy.{AuthorizationPolicy, PolicyVersion, AuthorizationPolicyService}
use permission_center_go.Biz.Policy.Draft.{as_invalid, get}

abbrev pub may_publish : Status → Bool
may_publish Status.draft = true
may_publish Status.disabled = true
may_publish _ = false

-- The policy as it is frozen, under the next version.
abbrev pub next_snapshot : AuthorizationPolicy → Snapshot
next_snapshot value = record {
  policy_id = value.id;
  version = value.current_version + 1;
  authorization_type = value.authorization_type;
  service_resource = value.service_resource;
  effect = value.effect;
  priority = value.priority;
  role_ids = value.role_ids;
  endpoint_ids = value.endpoint_ids;
  condition = value.condition;
}

-- The compiler sorts the endpoint identifiers in the policy's own slice, which the snapshot shares.
abbrev pub sorted_in_place : Snapshot → AuthorizationPolicy → AuthorizationPolicy
sorted_in_place snapshot value = record value { endpoint_ids = snapshot.endpoint_ids }

-- The policy in force at a version.
abbrev pub published_at_version : AuditActor → ℕ → AuthorizationPolicy → AuthorizationPolicy
published_at_version actor version value = record value {
  status = Status.published;
  current_version = version;
  base = record (value.base) { updated_by_id = actor.id; updated_by_name = actor.name };
}

-- The policy with the content of a snapshot.
abbrev pub restored : Snapshot → AuthorizationPolicy → AuthorizationPolicy
restored snapshot value = record value {
  effect = snapshot.effect;
  authorization_type = snapshot.authorization_type;
  priority = snapshot.priority;
  condition = snapshot.condition;
  role_ids = snapshot.role_ids;
  endpoint_ids = snapshot.endpoint_ids;
}

-- The version asked for, where it is positive.
pub positive : ℤ → Result ℕ
positive (pos zero) = err (invalid_argument "version must be positive")
positive (pos (suc n)) = ok (suc n)
positive (negsuc n) = err (invalid_argument "version must be positive")

module _ {S : Type 0} (uuid_string : Uuid → String) (checksum : Snapshot → String) (now : ℕ)
    (service : AuthorizationPolicyService S) where
  open service use {repository}

  abbrev pub version_of : AuditActor → AuthorizationPolicy → Snapshot → PolicyVersion
  version_of actor value snapshot = record {
    policy_id = value.id;
    version = snapshot.version;
    snapshot = snapshot;
    checksum = checksum snapshot;
    published_by = actor.id;
    published_at = now;
  }

  -- Publish from the policy that was read.
  unfoldable pub publish_existing :
      Context → AuthorizationPolicy → Call S (Option AuthorizationPolicy)
  publish_existing ctx value =
      if not (may_publish value.status)
      then fail (conflict "only draft or disabled policy can be published")
      else do
        snapshot ← lift (as_invalid (compile_snapshot uuid_string (next_snapshot value)))
        let actor = audit_actor_from_context ctx
        repository.save_version ctx (version_of actor value snapshot)
        repository.update ctx
            (published_at_version actor snapshot.version (sorted_in_place snapshot value))

  unfoldable pub publish : Context → Uuid → Call S (Option AuthorizationPolicy)
  publish ctx id = do
    found ← get uuid_string service ctx id
    value ← lift (deref found)
    publish_existing ctx value

  pub rollback : Context → Uuid → ℤ → Call S (Option AuthorizationPolicy)
  rollback ctx id version = do
    wanted ← lift (positive version)
    found ← get uuid_string service ctx id
    saved ← repository.get_version ctx id wanted
    value ← lift (deref found)
    at ← lift (deref saved)
    repository.update ctx
        (published_at_version (audit_actor_from_context ctx) wanted (restored at.snapshot value))
