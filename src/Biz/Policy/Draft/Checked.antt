-- ===== src/Biz/Policy/Draft/Checked.antt =====
-- What normalizeAndValidate lets through, which only reads.
use Prim.Native.String.{String}
use permission_center_go.Common.{
  ℕ, ap, ◌∙◌, ◌≡◌, refl, sym, true, false, not, ◌||◌, Result, ok, err, panic, arith, All, is_empty,
  if◌then◌else◌, Bool-cases, inl, inr, not_found, subst, invalid_argument,
}
use permission_center_go.Text.{trim_space}
use permission_center_go.Policy.Model.{
  Uuid, Status, Snapshot, effect_valid, authorization_type_valid,
}
use permission_center_go.Policy.Validate.Shape.{IsPolicyCondition}
use permission_center_go.Policy.Compile.{
  compile_snapshot, sort, str_lt, unique_strings, sort_endpoints,
}
use permission_center_go.Policy.Compile.Sealed.{
  compile_snapshot-IsCompiled, compile_snapshot-sealed,
}
use permission_center_go.Biz.Call.{Call, Reads, pure, fail, lift, ◌>>=◌}
use permission_center_go.Biz.Call.Attempt.{Reads-bind, Reads-if, read_passed, lift_passed}
use permission_center_go.Biz.Audit.{Context, BaseFields}
use permission_center_go.Biz.Resource.{validate_service_resource}
use permission_center_go.Biz.Resource.Active.{IsActiveIn, ensure-Reads, ensure-IsActiveIn}
use permission_center_go.Biz.Permission.{validate_code_and_name}
use permission_center_go.Biz.Permission.Normal.{
  IsScope, IsCode, IsName, validate_service_resource-IsScope, validate_code_and_name-IsNormal,
}
use permission_center_go.Biz.Policy.{AuthorizationPolicy, AuthorizationPolicyService, ReadsOnly}
use permission_center_go.Biz.Policy.Draft.{
  as_invalid, draft_snapshot, check_roles, check_endpoints, check_content, ensure_scope,
  normalize_and_validate,
}
use permission_center_go.Biz.Policy.Draft.Members.{
  IsUsable, IsInScope, check_roles-Reads, check_endpoints-Reads, All-IsUsable, All-IsInScope,
}

module _ {S : Type 0} (uuid_string : Uuid → String) (service : AuthorizationPolicyService S)
    (ctx : Context) (s : S) where
  -- A policy that was checked: it holds what was given, its texts trimmed and within their limits, its
  -- roles without repetition and sorted, its endpoints sorted; its kinds are known, its condition
  -- valid, its scope active, and its roles and endpoints stored and of its scope.
  pub record IsChecked (given m : AuthorizationPolicy) : Type 0 where
    pub id_given : m.id ≡ given.id
    pub scope_given : m.service_resource ≡ trim_space given.service_resource
    pub scope_normal : IsScope m.service_resource
    pub code_given : m.code ≡ trim_space given.code
    pub code_normal : IsCode m.code
    pub name_given : m.name ≡ trim_space given.name
    pub name_normal : IsName m.name
    pub description_given : m.description ≡ trim_space given.description
    pub effect_given : m.effect ≡ given.effect
    pub effect_known : effect_valid m.effect ≡ true
    pub type_given : m.authorization_type ≡ given.authorization_type
    pub type_known : authorization_type_valid m.authorization_type ≡ true
    pub priority_given : m.priority ≡ given.priority
    pub condition_given : m.condition ≡ given.condition
    pub condition_valid : IsPolicyCondition m.condition
    pub roles_kept : m.role_ids ≡ sort str_lt (unique_strings given.role_ids)
    pub endpoints_kept : m.endpoint_ids ≡ sort_endpoints uuid_string given.endpoint_ids
    pub roles_given : is_empty given.role_ids ≡ false
    pub endpoints_given : is_empty given.endpoint_ids ≡ false
    pub roles_usable : All (IsUsable uuid_string service ctx s m.service_resource) given.role_ids
    pub endpoints_in_scope :
        All (IsInScope uuid_string service ctx s m.service_resource) given.endpoint_ids
    pub active : IsActiveIn service.service_resources ctx m.service_resource s

  -- The checked content stays under another base, state and version.
  pub IsChecked-record :
      (given m : AuthorizationPolicy) (base : BaseFields) (status : Status) (version : ℕ)
      → IsChecked given m
      → IsChecked given (record m { base = base; status = status; current_version = version })
  IsChecked-record given m base status version c = record {
    id_given = c.id_given;
    scope_given = c.scope_given;
    scope_normal = c.scope_normal;
    code_given = c.code_given;
    code_normal = c.code_normal;
    name_given = c.name_given;
    name_normal = c.name_normal;
    description_given = c.description_given;
    effect_given = c.effect_given;
    effect_known = c.effect_known;
    type_given = c.type_given;
    type_known = c.type_known;
    priority_given = c.priority_given;
    condition_given = c.condition_given;
    condition_valid = c.condition_valid;
    roles_kept = c.roles_kept;
    endpoints_kept = c.endpoints_kept;
    roles_given = c.roles_given;
    endpoints_given = c.endpoints_given;
    roles_usable = c.roles_usable;
    endpoints_in_scope = c.endpoints_in_scope;
    active = c.active;
  }

  as_invalid_ok : {A : Type 0} (r : Result A) {a : A} → as_invalid r ≡ ok a → r ≡ ok a
  as_invalid_ok (ok x) h = h
  as_invalid_ok (err e) h = absurd cc
  as_invalid_ok panic h = absurd cc

  -- The compilation of the checked content.
  abbrev seal : AuthorizationPolicy → Call S AuthorizationPolicy
  seal value =
      lift (as_invalid (compile_snapshot uuid_string (draft_snapshot value))) >>= λ snapshot.
      pure (record value { role_ids = snapshot.role_ids; endpoint_ids = snapshot.endpoint_ids })

  seal-Reads : (value : AuthorizationPolicy) → Reads (seal value)
  seal-Reads value =
      Reads-bind (lift (as_invalid (compile_snapshot uuid_string (draft_snapshot value)))) _
        (λ u. refl) (λ snapshot u. refl)

  abbrev look_up : AuthorizationPolicy → Call S AuthorizationPolicy
  look_up value = check_roles uuid_string service ctx value.service_resource value.role_ids >>= λ _.
      check_endpoints uuid_string service ctx value.service_resource value.endpoint_ids >>= λ _.
      seal value

  look_up-Reads : (value : AuthorizationPolicy) → ReadsOnly service → Reads (look_up value)
  look_up-Reads value reads =
      Reads-bind (check_roles uuid_string service ctx value.service_resource value.role_ids)
        (λ _.
          check_endpoints uuid_string service ctx value.service_resource value.endpoint_ids >>= λ _.
          seal value)
        (check_roles-Reads uuid_string service ctx s value.service_resource value.role_ids reads)
        (λ _.
          Reads-bind
            (check_endpoints uuid_string service ctx value.service_resource value.endpoint_ids)
            (λ _. seal value)
            (check_endpoints-Reads uuid_string service ctx s value.service_resource
              value.endpoint_ids reads)
            (λ _. seal-Reads value))

  check_content-Reads :
      (value : AuthorizationPolicy)
      → ReadsOnly service
      → Reads (check_content uuid_string service ctx value)
  unfolding check_content
  check_content-Reads value reads =
      Reads-if
        (not (effect_valid value.effect) || not (authorization_type_valid value.authorization_type))
        (fail (invalid_argument "effect and authorization_type are required"))
        (if is_empty value.role_ids || is_empty value.endpoint_ids
          then fail (invalid_argument "at least one role and API endpoint are required")
          else look_up value)
        (λ u. refl)
        (Reads-if (is_empty value.role_ids || is_empty value.endpoint_ids)
          (fail (invalid_argument "at least one role and API endpoint are required"))
          (look_up value) (λ u. refl) (look_up-Reads value reads))

  pub normalize_and_validate-Reads :
      (value : AuthorizationPolicy)
      → ReadsOnly service
      → Reads (normalize_and_validate uuid_string service ctx value)
  unfolding normalize_and_validate
  normalize_and_validate-Reads value reads =
      Reads-bind (lift (validate_service_resource value.service_resource)) _ (λ u. refl)
        λ scope.
          Reads-bind (ensure_scope uuid_string service ctx scope) _
            (ensure-Reads (err (not_found "")) service.service_resources ctx scope
              reads.catalog_get)
            λ _.
              Reads-bind (lift (validate_code_and_name value.code value.name)) _ (λ u. refl)
                (λ names. check_content-Reads _ reads)

  -- The content of a policy whose texts are normal.
  record IsContent (value m : AuthorizationPolicy) : Type 0 where
    effect_known : effect_valid value.effect ≡ true
    type_known : authorization_type_valid value.authorization_type ≡ true
    condition_valid : IsPolicyCondition value.condition
    roles_given : is_empty value.role_ids ≡ false
    endpoints_given : is_empty value.endpoint_ids ≡ false
    roles_usable : All (IsUsable uuid_string service ctx s value.service_resource) value.role_ids
    endpoints_in_scope :
        All (IsInScope uuid_string service ctx s value.service_resource) value.endpoint_ids
    same : m ≡ record value {
      role_ids = sort str_lt (unique_strings value.role_ids);
      endpoint_ids = sort_endpoints uuid_string value.endpoint_ids;
    }

  same_content : {a b : AuthorizationPolicy} (u t : S) → pure a u ≡ (ok b, t) → b ≡ a
  same_content u t h = cc

  content :
      (value m : AuthorizationPolicy) {t : S}
      → ReadsOnly service
      → check_content uuid_string service ctx value s ≡ (ok m, t)
      → IsContent value m
  unfolding check_content
  content value m {t} reads h =
      elim (Bool-cases (
        not (effect_valid value.effect)
        || not (authorization_type_valid value.authorization_type))) [
          | inl unknown ↦ absurd (cc (rw unknown at h))
          | inr known ↦ elim (Bool-cases (is_empty value.role_ids || is_empty value.endpoint_ids)) [
            | inl bare ↦ absurd (cc (rw (known, bare) at h))
            | inr given ↦
                let (_, roles_passed, h₁) =
                  read_passed
                    (check_roles uuid_string service ctx value.service_resource value.role_ids) _ s
                    (check_roles-Reads uuid_string service ctx s value.service_resource
                      value.role_ids reads)
                    (rw (known, given) at h) in
                let (_, endpoints_passed, h₂) =
                  read_passed
                    (check_endpoints uuid_string service ctx value.service_resource
                      value.endpoint_ids)
                    _ s
                    (check_endpoints-Reads uuid_string service ctx s value.service_resource
                      value.endpoint_ids reads)
                    h₁ in
                let (snapshot, compiled, h₃) =
                  lift_passed (as_invalid (compile_snapshot uuid_string (draft_snapshot value))) _ s
                    h₂ in
                let made =
                  as_invalid_ok (compile_snapshot uuid_string (draft_snapshot value)) compiled in
                let sealed =
                  compile_snapshot-IsCompiled uuid_string (draft_snapshot value) snapshot made in
                record {
                  effect_known = ground arith;
                  type_known = ground arith;
                  condition_valid =
                      subst IsPolicyCondition sealed.condition_kept sealed.condition_valid;
                  roles_given = ground arith;
                  endpoints_given = ground arith;
                  roles_usable =
                      All-IsUsable uuid_string service ctx s value.service_resource value.role_ids
                        reads roles_passed;
                  endpoints_in_scope =
                      All-IsInScope uuid_string service ctx s value.service_resource
                        value.endpoint_ids reads endpoints_passed;
                  same =
                      same_content s t h₃
                      ∙ ap
                          (λ (x : Snapshot). record value {
                            role_ids = x.role_ids;
                            endpoint_ids = x.endpoint_ids;
                          })
                          (compile_snapshot-sealed uuid_string (draft_snapshot value) snapshot
                            made);
                }
          ]
        ]

  IsChecked-content :
      (given : AuthorizationPolicy) (scope : String) (names : String × String)
      (m : AuthorizationPolicy)
      → validate_service_resource given.service_resource ≡ ok scope
      → IsActiveIn service.service_resources ctx scope s
      → validate_code_and_name given.code given.name ≡ ok names
      → IsContent
          (record given {
            service_resource = scope;
            code = names.0;
            name = names.1;
            description = trim_space given.description;
          })
          m
      → IsChecked given m × (m.status ≡ given.status)
  IsChecked-content given scope names m scoped active named c =
      let (scope_given, scope_normal) =
        validate_service_resource-IsScope given.service_resource scoped in
      let (code_given, name_given, code_normal, name_normal) =
        validate_code_and_name-IsNormal given.code given.name named in
      (
        subst (IsChecked given) (sym c.same) (record {
          id_given = refl;
          scope_given = scope_given;
          scope_normal = scope_normal;
          code_given = code_given;
          code_normal = code_normal;
          name_given = name_given;
          name_normal = name_normal;
          description_given = refl;
          effect_given = refl;
          effect_known = c.effect_known;
          type_given = refl;
          type_known = c.type_known;
          priority_given = refl;
          condition_given = refl;
          roles_kept = refl;
          endpoints_kept = refl;
          condition_valid = c.condition_valid;
          roles_given = c.roles_given;
          endpoints_given = c.endpoints_given;
          roles_usable = c.roles_usable;
          endpoints_in_scope = c.endpoints_in_scope;
          active = active;
        }),
        ap (λ (x : AuthorizationPolicy). x.status) c.same,
      )

  pub checked :
      (given m : AuthorizationPolicy) {t : S}
      → ReadsOnly service
      → normalize_and_validate uuid_string service ctx given s ≡ (ok m, t)
      → IsChecked given m × (m.status ≡ given.status)
  unfolding normalize_and_validate
  checked given m {t} reads h =
      let (scope, scoped, h₁) =
        lift_passed (validate_service_resource given.service_resource) _ s h in
      let (_, passed, h₂) =
        read_passed (ensure_scope uuid_string service ctx scope) _ s
          (ensure-Reads (err (not_found "")) service.service_resources ctx scope reads.catalog_get)
          h₁ in
      let (names, named, h₃) = lift_passed (validate_code_and_name given.code given.name) _ s h₂ in
      IsChecked-content given scope names m scoped
        (ensure-IsActiveIn (err (not_found "")) service.service_resources ctx scope s (λ e. cc)
          passed)
        named (content _ m reads h₃)
