-- ===== src/Biz/Policy/Draft/Laws.antt =====
-- What reaches the repository of policies from Create and Update.
use Prim.Native.String.{String}
use permission_center_go.Common.{◌≡◌, ◌≢◌, refl, ap, false, Option, none, some, ok, arith, ◌==◌}
use permission_center_go.Policy.Model.{Uuid, nil_uuid, Status}
use permission_center_go.Biz.Call.Attempt.{
  Attempt, Attempt-read, Attempt-write, Attempt-fail, Attempt-if, crashed,
}
use permission_center_go.Biz.Audit.{Context, new_base_fields, audit_actor_from_context}
use permission_center_go.Biz.Policy.{AuthorizationPolicy, AuthorizationPolicyService, ReadsOnly}
use permission_center_go.Biz.Policy.Draft.{
  normalize_and_validate, create, update_existing, update, is_published,
}
use permission_center_go.Biz.Policy.Draft.Checked.{
  IsChecked, IsChecked-record, checked, normalize_and_validate-Reads,
}

module _ {S : Type 0} (uuid_string : Uuid → String) (service : AuthorizationPolicyService S)
    (ctx : Context) (s : S) where
  -- A new policy: checked, a draft of version 0, with the audit fields of the actor.
  pub record IsNewPolicy (given m : AuthorizationPolicy) : Type 0 where
    pub base : m.base ≡ new_base_fields (audit_actor_from_context ctx)
    pub status : m.status ≡ Status.draft
    pub version : m.current_version ≡ 0
    pub is_checked : IsChecked uuid_string service ctx s given m

  -- Where the reads only read: Create either calls the repository's Create once, with a draft of
  -- version 0 that carries the audit fields of the actor and otherwise what was given: the scope, code,
  -- name and description trimmed, the effect, authorization type, priority and condition, the roles
  -- trimmed, without repetition and sorted, and the endpoints sorted; its scope, code and name are
  -- within their limits, its kinds known, its condition valid, its scope active, and the roles and
  -- endpoints given, at least one of each, are stored and of its scope, the roles enabled; and returns
  -- what that call returns. Or it fails or panics and the store is as it was.
  pub create-Attempt :
      (given : AuthorizationPolicy)
      → ReadsOnly service
      → Attempt
          (IsNewPolicy given)
          (service.repository.create ctx)
          (create uuid_string service ctx (some given))
          s
  unfolding create
  create-Attempt given reads =
      Attempt-read (normalize_and_validate uuid_string service ctx given) _ s
        (normalize_and_validate-Reads uuid_string service ctx s given reads)
        λ m passed. Attempt-write _ s (record {
          base = refl;
          status = refl;
          version = refl;
          is_checked =
              IsChecked-record uuid_string service ctx s given m _ _ _
                (checked uuid_string service ctx s given m reads passed).0;
        })

  -- A revision: a stored policy that is not published, with its scope, state, version and audit fields
  -- but for the last actor kept, and the checked content of the request.
  pub record IsPolicyRevision (given m : AuthorizationPolicy) : Type 0 where
    pub id_present : given.id ≢ nil_uuid
    pub existing : AuthorizationPolicy
    pub found : service.repository.get ctx given.id s ≡ (ok (some existing), s)
    pub unpublished : existing.status ≢ Status.published
    pub version_kept : m.current_version ≡ existing.current_version
    pub status_kept : m.status ≡ existing.status
    pub base_kept : m.base ≡ record (existing.base) {
      updated_by_id = (audit_actor_from_context ctx).id;
      updated_by_name = (audit_actor_from_context ctx).name;
    }
    pub is_checked :
        IsChecked uuid_string service ctx s
          (record given { service_resource = existing.service_resource; status = existing.status })
          m

  unpublished : (status : Status) → is_published status ≡ false → status ≢ Status.published
  unpublished status h e = cc (ap is_published e)

  revision-Attempt :
      (given : AuthorizationPolicy) (found : Option AuthorizationPolicy)
      → ReadsOnly service
      → given.id ≢ nil_uuid
      → service.repository.get ctx given.id s ≡ (ok found, s)
      → Attempt
          (IsPolicyRevision given)
          (service.repository.update ctx)
          (update_existing uuid_string service ctx given found)
          s
  unfolding update_existing
  revision-Attempt given none reads present got = crashed refl
  revision-Attempt given (some existing) reads present got =
      Attempt-if (is_published existing.status) _ _ s (λ _. Attempt-fail _ s)
        λ open_policy.
          let asked : AuthorizationPolicy = record given {
            service_resource = existing.service_resource;
            status = existing.status;
          } in
          Attempt-read (normalize_and_validate uuid_string service ctx asked) _ s
            (normalize_and_validate-Reads uuid_string service ctx s asked reads)
            λ m passed. Attempt-write _ s (record {
              id_present = present;
              existing = existing;
              found = got;
              unpublished = unpublished existing.status open_policy;
              version_kept = refl;
              status_kept = (checked uuid_string service ctx s asked m reads passed).1;
              base_kept = refl;
              is_checked =
                  IsChecked-record uuid_string service ctx s asked m _ _ _
                    (checked uuid_string service ctx s asked m reads passed).0;
            })

  -- Where the reads only read: Update either calls the repository's Update once, for a stored policy
  -- that is not published, in its stored scope, state, version and audit fields but for the
  -- last actor, which is the context's, and otherwise with what was given, trimmed, sorted and checked
  -- as Create does, and returns what that call returns;
  -- or it fails or panics and the store is as it was.
  pub update-Attempt :
      (given : AuthorizationPolicy)
      → ReadsOnly service
      → Attempt
          (IsPolicyRevision given)
          (service.repository.update ctx)
          (update uuid_string service ctx (some given))
          s
  unfolding update
  update-Attempt given reads =
      Attempt-if (given.id == nil_uuid) _ _ s (λ _. Attempt-fail _ s)
        λ present.
          Attempt-read (service.repository.get ctx given.id) _ s (reads.policy_get ctx given.id)
            λ found got. revision-Attempt given found reads (ground arith) got
