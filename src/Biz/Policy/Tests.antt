-- ===== src/Biz/Policy/Tests.antt =====
-- A decision and a publication over a small store: one policy, its published snapshots, one
-- endpoint, and a reader.
use Prim.Native.String.{String}
use package.text.Mathlib.Text.{◌==◌ as str_eq}
use permission_center_go.Server.{
  credential_of, reply_to, decide_with, decide_policy, decide_authorization_policy,
}
use permission_center_go.Server.Laws.{answered, IsGranted, decide_authorization_policy-IsGranted}
use permission_center_go.Common.{
  some-injective, subst, ℕ, ◌+◌, ◌≡◌, refl, pos, true, false, none, some, List, [], ◌∷◌, ok, ◌==◌,
  if◌then◌else◌, inl,
}
use permission_center_go.Text.{has_prefix, trim_prefix, trim_space}
use permission_center_go.Policy.Model.{Uuid, Status, Snapshot, authorization_type_valid}
use permission_center_go.Policy.Examples.{allow_owner, deny_outside, read_from}
use permission_center_go.Policy.Eval.Tests.{allowed, allows_inside}
use permission_center_go.Policy.Compile.{
  sort_endpoints, sort, insert, str_lt, unique_strings, unique_from, is_found,
}
use permission_center_go.Policy.Compile.Tests.{single, compiles}
use permission_center_go.Policy.Validate.Tests.{owner_valid}
use permission_center_go.Biz.Policy.Draft.{create, get, update}
use permission_center_go.Biz.Policy.Draft.Laws.{
  IsNewPolicy, IsPolicyRevision, create-Attempt, update-Attempt,
}
use permission_center_go.Biz.Call.Attempt.{Attempt}
use permission_center_go.Biz.Audit.{BaseFields, audit_actor_from_context}
use permission_center_go.Biz.Resource.{ensure}
use permission_center_go.Biz.Permission.{Role, UserRoleRepository}
use permission_center_go.Biz.Endpoint.{ApiEndpoint}
use permission_center_go.Biz.Policy.{
  AuthorizationPolicy, PolicyVersion, AuthorizationPolicyRepository, AuthorizationPolicyService,
  ReadsOnly,
}
use permission_center_go.Biz.Policy.Decide.{
  Stamp, decide, decide_scoped, decide_at, decide_trusted, trimmed_input,
}
use permission_center_go.Biz.Policy.Decide.Laws.{IsAllowed, decide-IsAllowed}
use permission_center_go.Biz.Policy.Publish.{publish, publish_existing}
use permission_center_go.Biz.Policy.Publish.Laws.{
  IsPublication, publish-IsPublication, publish_succeeds,
}

record Store : Type 0 where
  policy : AuthorizationPolicy
  versions : List PolicyVersion
  logs : ℕ

abbrev base : BaseFields
base = record {
  created_by_id = "u-1";
  created_by_name = "Ann";
  created_at = 5;
  updated_by_id = "u-1";
  updated_by_name = "Ann";
  updated_at = 5;
  is_deleted = false;
}

abbrev drafted : AuthorizationPolicy
drafted = record {
  base = base;
  id = 21;
  service_resource = "orders";
  code = "own";
  name = "Own orders";
  description = "";
  effect = allow_owner.effect;
  status = Status.draft;
  authorization_type = allow_owner.authorization_type;
  priority = pos 0;
  condition = allow_owner.condition;
  current_version = 2;
  role_ids = "reader" ∷ [];
  endpoint_ids = 7 ∷ [];
}

abbrev endpoint : ApiEndpoint
endpoint = record {
  base = base;
  id = 7;
  service_resource = "orders";
  controller = "orders";
  method = "GET";
  path_template = "/orders";
  summary = "";
  enabled = true;
}

abbrev reader : Role
reader = record {
  base = base;
  id = "reader";
  service_resource = "orders";
  code = "reader";
  name = "Reader";
  description = "";
  enabled = true;
}

abbrev repository : AuthorizationPolicyRepository Store
repository = record {
  create = λ ctx value s. (ok (some value), record s { policy = value });
  get = λ ctx id s. (ok (if s.policy.id == id then some s.policy else none), s);
  list_by_service_resource = λ ctx scope s. (ok (some s.policy ∷ []), s);
  update = λ ctx value s. (ok (some value), record s { policy = value });
  soft_delete = λ ctx id s. (ok tt, s);
  save_version = λ ctx version s. (ok tt, record s { versions = version ∷ s.versions });
  get_version = λ ctx id version s. (ok none, s);
  list_published_by_endpoint = λ ctx scope id s. (ok (deny_outside ∷ allow_owner ∷ []), s);
  save_decision_log = λ ctx log s. (ok tt, record s { logs = s.logs + 1 });
  list_decision_logs = λ ctx scope id s. (ok [], s);
}

abbrev user_roles : UserRoleRepository Store
user_roles = record {
  replace_roles = λ ctx subject scope ids s. (ok tt, s);
  role_ids = λ ctx subject scope s. (ok (if str_eq subject "ann" then "reader" ∷ [] else []), s);
}

abbrev service : AuthorizationPolicyService Store
service = record {
  repository = repository;
  endpoints = record { get = λ ctx id s. (ok (if id == 7 then some endpoint else none), s) };
  roles = record { get = λ ctx id s. (ok (if str_eq id "reader" then some reader else none), s) };
  user_roles = user_roles;
  service_resources = none;
}

service-ReadsOnly : ReadsOnly service
service-ReadsOnly = record {
  policy_get = λ ctx id s. refl;
  version_get = λ ctx id version s. refl;
  published = λ ctx scope id s. refl;
  endpoint_get = λ ctx id s. refl;
  role_get = λ ctx id s. refl;
  user_roles = λ ctx subject scope s. refl;
  catalog_get = tt;
}

abbrev start : Store
start = record { policy = drafted; versions = []; logs = 0 }

abbrev stamp : Stamp
stamp = record { decision_id = 99; latency_ms = pos 1; occurred_at = 7 }

allows :
    decide stamp service none (read_from "office") start
    ≡ (ok (allowed, none), record start { logs = 1 })
unfolding decide decide_scoped decide_at decide_trusted trim_space authorization_type_valid ensure
allows = rw allows_inside

decide-IsAllowed_example : IsAllowed stamp service none start (trimmed_input (read_from "office"))
decide-IsAllowed_example =
    decide-IsAllowed stamp service none start (read_from "office") allowed none
      (record start { logs = 1 }) service-ReadsOnly allows refl

answers :
    decide_authorization_policy "s3cret" "Bearer s3cret" stamp
      (some service)
      none
      (ok (read_from "office"))
      start
    ≡ (ok (answered allowed), record start { logs = 1 })
unfolding decide_authorization_policy credential_of has_prefix trim_prefix decide_policy decide_with
    reply_to
answers = rw allows

only_reads :
    (other : AuthorizationPolicyService Store) → some service ≡ some other → ReadsOnly other
only_reads other h = subst ReadsOnly (some-injective h) service-ReadsOnly

decide_authorization_policy-IsGranted_example :
    IsGranted stamp none start
      (record start { logs = 1 })
      allowed
      "s3cret"
      "Bearer s3cret"
      (some service)
      (ok (read_from "office"))
decide_authorization_policy-IsGranted_example =
    decide_authorization_policy-IsGranted stamp none start (record start { logs = 1 }) allowed
      "s3cret" "Bearer s3cret" (ok (read_from "office")) (some service) only_reads answers refl

abbrev uuid_string : Uuid → String
uuid_string id = ""

abbrev checksum : Snapshot → String
checksum snapshot = "sum"

abbrev published : Store
published = record start {
  policy = record drafted {
    status = Status.published;
    current_version = 3;
    base = record base { updated_by_id = "system"; updated_by_name = "system" };
  };
  versions =
      record {
        policy_id = 21;
        version = 3;
        snapshot = single;
        checksum = "sum";
        published_by = "system";
        published_at = 8;
      }
      ∷ [];
}

publishes :
    publish uuid_string checksum 8 service none 21 start ≡ (ok (some published.policy), published)
unfolding publish publish_existing get audit_actor_from_context
publishes = rw compiles

publish-IsPublication_example :
    IsPublication uuid_string checksum 8 service none start 21 (some published.policy) published
publish-IsPublication_example =
    publish-IsPublication uuid_string checksum 8 service none start 21 (some published.policy)
      published service-ReadsOnly publishes

create-Attempt_example :
    Attempt
      (IsNewPolicy uuid_string service none start drafted)
      (repository.create none)
      (create uuid_string service none (some drafted))
      start
create-Attempt_example = create-Attempt uuid_string service none start drafted service-ReadsOnly

update-Attempt_example :
    Attempt
      (IsPolicyRevision uuid_string service none start drafted)
      (repository.update none)
      (update uuid_string service none (some drafted))
      start
update-Attempt_example = update-Attempt uuid_string service none start drafted service-ReadsOnly

-- A policy of two endpoints, which their texts order the other way round.
abbrev by_number : Uuid → String
by_number id = if id == 3 then "a" else "b"

abbrev unsorted : Store
unsorted = record start { policy = record drafted { endpoint_ids = 7 ∷ 3 ∷ [] } }

abbrev frozen : Snapshot
frozen = record single { policy_id = 21; version = 3; endpoint_ids = 3 ∷ 7 ∷ [] }

abbrev sorted_published : Store
sorted_published = record unsorted {
  policy = record (published.policy) { endpoint_ids = 3 ∷ 7 ∷ [] };
  versions =
      record {
        policy_id = 21;
        version = 3;
        snapshot = frozen;
        checksum = "sum";
        published_by = "system";
        published_at = 8;
      }
      ∷ [];
}

publish_succeeds_example :
    publish by_number checksum 8 service none 21 unsorted
    ≡ (ok (some sorted_published.policy), sorted_published)
unfolding sort_endpoints sort insert str_lt unique_strings unique_from is_found trim_space
    audit_actor_from_context authorization_type_valid
publish_succeeds_example =
    publish_succeeds by_number checksum 8 service none unsorted 21 unsorted.policy
      (record sorted_published { policy = unsorted.policy }) (λ e. cc) refl (inl refl) refl
      owner_valid refl
