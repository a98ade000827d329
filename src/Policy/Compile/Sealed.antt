-- ===== src/Policy/Compile/Sealed.antt =====
-- What a compiled snapshot keeps of the policy, and that its condition is one that the validator
-- let through.
use Prim.Native.String.{String}
use permission_center_go.Common.{
  ◌≡◌, refl, sym, subst, true, not, ok, >>=-eq-ok, refusal_passed, not-eq-false, ok-injective,
}
use permission_center_go.Text.{trim_space}
use permission_center_go.Policy.Model.{Uuid, Snapshot, authorization_type_valid}
use permission_center_go.Policy.Validate.{validate_condition}
use permission_center_go.Policy.Validate.Shape.{IsPolicyCondition}
use permission_center_go.Policy.Validate.Sound.{validate_condition_iff}
use permission_center_go.Policy.Compile.{
  compile_snapshot, sort, str_lt, unique_strings, sort_endpoints,
}

pub record IsCompiled (value snapshot : Snapshot) : Type 0 where
  pub id_kept : snapshot.policy_id ≡ value.policy_id
  pub version_kept : snapshot.version ≡ value.version
  pub type_kept : snapshot.authorization_type ≡ value.authorization_type
  pub type_known : authorization_type_valid value.authorization_type ≡ true
  pub effect_kept : snapshot.effect ≡ value.effect
  pub scope_trimmed : snapshot.service_resource ≡ trim_space value.service_resource
  pub condition_kept : snapshot.condition ≡ value.condition
  pub condition_valid : IsPolicyCondition snapshot.condition

-- The only snapshot that the compiler can return.
abbrev pub sealed : (Uuid → String) → Snapshot → Snapshot
sealed uuid_string value = record value {
  service_resource = trim_space value.service_resource;
  role_ids = sort str_lt (unique_strings value.role_ids);
  endpoint_ids = sort_endpoints uuid_string value.endpoint_ids;
}

compile_snapshot_passed :
    (uuid_string : Uuid → String) (value snapshot : Snapshot)
    → compile_snapshot uuid_string value ≡ ok snapshot
    → (validate_condition value.condition ≡ ok tt)
      × (authorization_type_valid value.authorization_type ≡ true)
      × (sealed uuid_string value ≡ snapshot)
unfolding compile_snapshot
compile_snapshot_passed uuid_string value snapshot h =
    let (_, valid, h₁) = >>=-eq-ok (validate_condition value.condition) _ h in
    let (known, made) =
      refusal_passed (not (authorization_type_valid value.authorization_type)) _ _ h₁ in
    (
      valid,
      not-eq-false (authorization_type_valid value.authorization_type) known,
      ok-injective made,
    )

-- A snapshot that the compiler returns is the sealed one.
pub compile_snapshot-sealed :
    (uuid_string : Uuid → String) (value snapshot : Snapshot)
    → compile_snapshot uuid_string value ≡ ok snapshot
    → snapshot ≡ sealed uuid_string value
compile_snapshot-sealed uuid_string value snapshot h =
    let (_, _, made) = compile_snapshot_passed uuid_string value snapshot h in sym made

-- A policy of a known authorization type and a valid condition is compiled.
pub compile_snapshot_of :
    (uuid_string : Uuid → String) (value : Snapshot)
    → authorization_type_valid value.authorization_type ≡ true
    → IsPolicyCondition value.condition
    → compile_snapshot uuid_string value ≡ ok (sealed uuid_string value)
unfolding compile_snapshot
compile_snapshot_of uuid_string value known valid =
    let checked : validate_condition value.condition ≡ ok tt =
      (validate_condition_iff value.condition).1 valid in
    rw (checked, known)

-- A snapshot that the compiler returns keeps the identifier, the version, the effect, the
-- authorization type, which is known, and the condition of the policy, has its service resource
-- trimmed, and its condition is one that the validator lets through.
pub compile_snapshot-IsCompiled :
    (uuid_string : Uuid → String) (value snapshot : Snapshot)
    → compile_snapshot uuid_string value ≡ ok snapshot
    → IsCompiled value snapshot
compile_snapshot-IsCompiled uuid_string value snapshot h =
    let (valid, known, made) = compile_snapshot_passed uuid_string value snapshot h in
    subst (IsCompiled value) made (record {
      id_kept = refl;
      version_kept = refl;
      type_kept = refl;
      type_known = known;
      effect_kept = refl;
      scope_trimmed = refl;
      condition_kept = refl;
      condition_valid = (validate_condition_iff value.condition).0 valid;
    })
